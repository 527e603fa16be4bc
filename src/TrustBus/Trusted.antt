-- ===== src/TrustBus/Trusted.antt =====
-- The trust that a message is loaded with (src/mark/middlewares/trust_bus/bus.py).
use mathlib.Core.Option.{none-ne-some}
use mark_sdk.Prelude.{
  ℕ, ◌≡◌, ◌≢◌, refl, ap, subst, ◌∙◌, String, true, false, not, ◌&&◌, ◌==◌, inl, inr, Option, none,
  some, List, [], ◌∷◌, any, Dict, dict_get, dict_pop, dict_get-dict_put, is_in, if◌then◌else◌,
  Bool-cases, Option-cases, eq_sound, some_eq, arith,
}
use mark_sdk.TrustBus.Messages.{
  PublisherTrust, system, verified_agent, raw_agent, external, unknown, value_of, trust_named,
  Texts, is_trust_tag, Meta, text, dict, BusMessage,
}
use mark_sdk.TrustBus.Bus.{
  BusFragment, Written, stored_tags, or_unknown, publisher_of, public_tags, text_at, recorded_trust,
  legacy_trust, trust_of, message_from_fragment, signed_record, stored_meta, published,
}

trust_named-value_of : (t : PublisherTrust) → trust_named (value_of t) ≡ some t
unfolding trust_named value_of
trust_named-value_of system = refl
trust_named-value_of verified_agent = refl
trust_named-value_of raw_agent = refl
trust_named-value_of external = refl
trust_named-value_of unknown = refl

module _ {Key : Type 0} (texts : Texts Key) where
  level-signed_record :
      (signing_key : Option Key) (content publisher : String) (trust : PublisherTrust)
      → dict_get "level" (signed_record texts signing_key content publisher trust)
        ≡ some (value_of trust)
  unfolding signed_record
  level-signed_record none content publisher trust = refl
  level-signed_record (some key) content publisher trust = refl

  sig-signed_record :
      (key : Key) (content publisher : String) (trust : PublisherTrust)
      → text_at "sig" (signed_record texts (some key) content publisher trust)
        ≡ texts.trust_signature key publisher trust (texts.strip content)
  unfolding signed_record text_at
  sig-signed_record key content publisher trust = refl

  -- What a level is worth on load: without a key it is believed, and with one only if the stored
  -- content has the signature of the content that was published.
  unfoldable pub confirmed : Option Key → String → String → String → PublisherTrust → PublisherTrust
  confirmed none content stored publisher trust = trust
  confirmed (some key) content stored publisher trust =
      if texts.trust_signature key publisher trust (texts.strip content)
        == texts.trust_signature key publisher trust stored
      then trust
      else unknown

  recorded-confirmed :
      (signing_key : Option Key) (content stored publisher : String) (trust : PublisherTrust)
      → recorded_trust texts signing_key publisher stored
          (signed_record texts signing_key content publisher trust)
          (value_of trust)
        ≡ confirmed signing_key content stored publisher trust
  unfolding recorded_trust confirmed or_unknown
  recorded-confirmed none content stored publisher trust = rw (trust_named-value_of trust) refl
  recorded-confirmed (some key) content stored publisher trust =
      rw (trust_named-value_of trust, sig-signed_record key content publisher trust) refl

  trust_of-dict :
      (signing_key : Option Key) (f : BusFragment) (d : Dict String) (level : String)
      → dict_get "mark_trust" f.metadata ≡ some (dict d)
      → dict_get "level" d ≡ some level
      → trust_of texts signing_key f
        ≡ recorded_trust texts signing_key (publisher_of f) f.content d level
  unfolding trust_of
  trust_of-dict signing_key f d level e k = rw (e, trust_of) (rw k refl)

  kept_record :
      (signing_key : Option Key) (content publisher : String) (trust : PublisherTrust)
      (metadata : Dict Meta)
      → dict_get "mark_trust" (stored_meta texts signing_key content publisher trust metadata)
        ≡ some (dict (signed_record texts signing_key content publisher trust))
  unfolding stored_meta
  kept_record signing_key content publisher trust metadata =
      dict_get-dict_put "mark_trust" "mark_trust"
        (dict (signed_record texts signing_key content publisher trust))
        (dict_pop "mark_trust" metadata)

  -- Tags that are loaded are no trust tags.
  public_tags_untrusted :
      (ts : List String) → any (is_trust_tag texts) (public_tags texts ts) ≡ false
  unfolding public_tags
  public_tags_untrusted [] = refl
  public_tags_untrusted (t ∷ ts) =
      elim (Bool-cases (not (t == "global_bus") && not (is_trust_tag texts t))) [
        | inr n ↦ rw n (public_tags_untrusted ts)
        | inl y ↦
            let plain : is_trust_tag texts t ≡ false = ground arith in
            rw (y, plain) (public_tags_untrusted ts)
      ]

  module _ (write : String → List String → Dict Meta → Written) (signing_key : Option Key)
      (content publisher : String) (trust : PublisherTrust) (tags : List String)
      (metadata : Dict Meta) where
    -- What the write stores of a message that the bus publishes.
    abbrev pub written : Written
    written =
        write content ("global_bus" ∷ stored_tags texts trust tags)
          (stored_meta texts signing_key content publisher trust metadata)

    -- A message that a named publisher publishes, with any trust tags and mark_trust metadata of
    -- the caller's, is loaded again with its publisher, the stored content and no trust tag, if
    -- the write keeps the bus tag and the trust record; its level is the published one without a
    -- key, and with a key if the stored content has the signature of the stripped published
    -- content, and unknown otherwise.
    pub message-published :
        (frag_id : String) (now : ℕ)
        → (publisher == "") ≡ false
        → is_in written.tags "global_bus" ≡ true
        → dict_get "mark_trust" written.metadata
          ≡ dict_get "mark_trust" (stored_meta texts signing_key content publisher trust metadata)
        → (m : BusMessage) × (message_from_fragment texts signing_key
              (published texts write signing_key frag_id now content publisher trust tags metadata)
            ≡ some m)
          × (m.trust ≡ confirmed signing_key content written.content publisher trust)
          × (m.publisher ≡ publisher)
          × (m.content ≡ written.content)
          × (any (is_trust_tag texts) m.tags ≡ false)
    unfolding message_from_fragment published
    message-published frag_id now h on_bus keeps =
        let d : Dict String = signed_record texts signing_key content publisher trust in
        let f : BusFragment =
          published texts write signing_key frag_id now content publisher trust tags metadata in
        let kept : dict_get "mark_trust" f.metadata ≡ some (dict d) =
          keeps ∙ kept_record signing_key content publisher trust metadata in
        let source : publisher_of f ≡ publisher = unfold publisher_of in rw h refl in
        (
          record {
            id = frag_id;
            content = written.content;
            publisher = publisher_of f;
            trust = trust_of texts signing_key f;
            tags = public_tags texts f.tags;
            timestamp = now;
            metadata = dict_pop "mark_trust" f.metadata;
          },
          rw on_bus refl,
          trust_of-dict signing_key f d (value_of trust) kept
                (level-signed_record signing_key content publisher trust)
              ∙ (ap (λ p. recorded_trust texts signing_key p f.content d (value_of trust)) source
                  ∙ recorded-confirmed signing_key content f.content publisher trust),
          source,
          refl,
          public_tags_untrusted f.tags,
        )

  -- A record that does not name a level, or that is not there, is worth nothing where there is a key.
  trust_of-missing :
      (key : Key) (f : BusFragment)
      → dict_get "mark_trust" f.metadata ≡ none
      → trust_of texts (some key) f ≡ unknown
  unfolding trust_of legacy_trust
  trust_of-missing key f e = rw (e, trust_of) refl

  trust_of-text :
      (key : Key) (f : BusFragment) (v : String)
      → dict_get "mark_trust" f.metadata ≡ some (text v)
      → trust_of texts (some key) f ≡ unknown
  unfolding trust_of legacy_trust
  trust_of-text key f v e = rw (e, trust_of) refl

  trust_of-no_level :
      (key : Key) (f : BusFragment) (d : Dict String)
      → dict_get "mark_trust" f.metadata ≡ some (dict d)
      → dict_get "level" d ≡ none
      → trust_of texts (some key) f ≡ unknown
  unfolding trust_of legacy_trust
  trust_of-no_level key f d e k = rw (e, trust_of) (rw k refl)

  recorded-signed :
      (key : Key) (publisher content : String) (d : Dict String) (level : String)
      → recorded_trust texts (some key) publisher content d level ≢ unknown
      → text_at "sig" d
        ≡ texts.trust_signature key publisher
            (recorded_trust texts (some key) publisher content d level)
            content
  unfolding recorded_trust
  recorded-signed key publisher content d level trusted =
      elim (Bool-cases (
        text_at "sig" d
        == texts.trust_signature key publisher (or_unknown (trust_named level)) content)) [
          | inl y ↦ rw y (eq_sound _ _ y)
          | inr n ↦ absurd (trusted (rw n refl))
        ]

  -- A level other than unknown was signed.
  signed_of_trusted :
      (key : Key) (f : BusFragment)
      → trust_of texts (some key) f ≢ unknown
      → (d : Dict String) × (dict_get "mark_trust" f.metadata ≡ some (dict d))
        × (text_at "sig" d
            ≡ texts.trust_signature key (publisher_of f) (trust_of texts (some key) f) f.content)
  signed_of_trusted key f trusted = elim (Option-cases (dict_get "mark_trust" f.metadata)) [
    | inl missing ↦ absurd (trusted (trust_of-missing key f missing))
    | inr (text v, e) ↦ absurd (trusted (trust_of-text key f v e))
    | inr (dict d, e) ↦ elim (Option-cases (dict_get "level" d)) [
      | inl missing ↦ absurd (trusted (trust_of-no_level key f d e missing))
      | inr (level, named) ↦
          let same = trust_of-dict (some key) f d level e named in
          (
            d,
            e,
            rw same (
                recorded-signed key (publisher_of f) f.content d level
                  (λ lost. trusted (same ∙ lost))),
          )
    ]
  ]

  -- With a signing key, every fragment that is loaded with a level other than unknown has a trust
  -- record whose signature is that of the loaded publisher, level and content: tags and an
  -- unsigned or altered record raise nothing.
  pub message-signed :
      (key : Key) (f : BusFragment) (m : BusMessage)
      → message_from_fragment texts (some key) f ≡ some m
      → m.trust ≢ unknown
      → (d : Dict String) × (dict_get "mark_trust" f.metadata ≡ some (dict d))
        × (text_at "sig" d ≡ texts.trust_signature key m.publisher m.trust m.content)
  unfolding message_from_fragment
  message-signed key f m e trusted = elim (Bool-cases (is_in f.tags "global_bus")) [
    | inr n ↦ absurd (none-ne-some m (rw n at e))
    | inl y ↦
        let same = some_eq _ _ (rw y at e) in
        subst
          (λ (m' : BusMessage).
            (m'.trust ≢ unknown)
            → (d : Dict String) × (dict_get "mark_trust" f.metadata ≡ some (dict d))
              × (text_at "sig" d ≡ texts.trust_signature key m'.publisher m'.trust m'.content))
          same (λ t. signed_of_trusted key f t) trusted
  ]
