-- ===== src/TrustBus/Bus.antt =====
-- `TrustAwareGlobalMemoryBus` (src/mark/middlewares/trust_bus/bus.py) over the fragments of
-- `GlobalMemoryBus` (src/mark/memory/global_bus.py). The memory behind that bus is an argument: what its write
-- stores, the fragments that it lists, and those that it retrieves, with scores of any type.
use Prim.Native.String as Str
use mark_sdk.Prelude.{
  ℕ, String, not, ◌&&◌, ◌==◌, Option, none, some, List, [], ◌∷◌, filter, any, leb, Dict, dict_get,
  dict_put, dict_pop, is_in, if◌then◌else◌,
}
use mark_sdk.TrustBus.Messages.{
  PublisherTrust, unknown, value_of, trust_named, trust_rank, lowest, Texts, is_trust_tag, Meta,
  text, dict, BusMessage, BusSubscription, matches, BusSnapshot,
}

pub record BusFragment : Type 0 where
  pub id : String
  pub content : String
  pub source : Option String
  pub tags : List String
  pub metadata : Dict Meta
  pub created_at : ℕ

-- What a write stores of a content, its tags and its metadata.
pub record Written : Type 0 where
  pub content : String
  pub tags : List String
  pub metadata : Dict Meta

unfoldable pub or_unknown : Option PublisherTrust → PublisherTrust
or_unknown none = unknown
or_unknown (some t) = t

-- str(metadata.get("publisher", "")), where it is text
unfoldable pub publisher_meta : Dict Meta → String
publisher_meta d = elim (dict_get "publisher" d) [
  | none ↦ ""
  | some v ↦ elim v [ text s ↦ s | dict _ ↦ "" ]
]

unfoldable pub publisher_of : BusFragment → String
publisher_of f = elim f.source [
  | none ↦ publisher_meta f.metadata
  | some s ↦ if s == "" then publisher_meta f.metadata else s
]

unfoldable pub text_at : String → Dict String → String
text_at k d = elim (dict_get k d) [ none ↦ "" | some s ↦ s ]

-- The levels that a legacy fragment's tags name, and the tags that stay.
module _ {Key : Type 0} (texts : Texts Key) where
  unfoldable pub tag_levels : List String → List PublisherTrust
  tag_levels [] = []
  tag_levels (t ∷ ts) =
      let rest : List PublisherTrust = tag_levels ts in
      if t == "global_bus"
      then rest
      else if is_trust_tag texts t
      then or_unknown (trust_named (texts.raw_level t)) ∷ rest
      else rest

  unfoldable pub public_tags : List String → List String
  public_tags ts = filter (λ t. not (t == "global_bus") && not (is_trust_tag texts t)) ts

  -- The level of a record, which a signature must confirm where there is a key.
  unfoldable pub recorded_trust :
      Option Key → String → String → Dict String → String → PublisherTrust
  recorded_trust signing_key publisher content record_meta level =
      let trust : PublisherTrust = or_unknown (trust_named level) in
      elim signing_key [
        | none ↦ trust
        | some key ↦
            if text_at "sig" record_meta == texts.trust_signature key publisher trust content
            then trust
            else unknown
      ]

  unfoldable pub legacy_trust : Option Key → List String → PublisherTrust
  legacy_trust signing_key tags = elim signing_key [
    | none ↦ lowest (tag_levels tags)
    | some key ↦ unknown
  ]

  unfoldable pub trust_of : Option Key → BusFragment → PublisherTrust
  trust_of signing_key f = elim (dict_get "mark_trust" f.metadata) [
    | none ↦ legacy_trust signing_key f.tags
    | some v ↦ elim v [
      | text _ ↦ legacy_trust signing_key f.tags
      | dict d ↦ elim (dict_get "level" d) [
        | none ↦ legacy_trust signing_key f.tags
        | some level ↦ recorded_trust signing_key (publisher_of f) f.content d level
      ]
    ]
  ]

  unfoldable pub message_from_fragment : Option Key → BusFragment → Option BusMessage
  message_from_fragment signing_key f =
      if not (is_in f.tags "global_bus")
      then none
      else some (record {
        id = f.id;
        content = f.content;
        publisher = publisher_of f;
        trust = trust_of signing_key f;
        tags = public_tags f.tags;
        timestamp = f.created_at;
        metadata = dict_pop "mark_trust" f.metadata;
      })

  -- _load_existing_messages: the first message of each id
  unfoldable pub load : Option Key → List String → List BusFragment → List BusMessage
  load signing_key seen [] = []
  load signing_key seen (f ∷ fs) = elim (message_from_fragment signing_key f) [
    | none ↦ load signing_key seen fs
    | some m ↦
        if is_in seen m.id then load signing_key seen fs else m ∷ load signing_key (m.id ∷ seen) fs
  ]

  unfoldable pub clean_tags : List String → List String
  clean_tags tags = filter (λ t. not (is_trust_tag texts t)) tags

  unfoldable pub signed_record : Option Key → String → String → PublisherTrust → Dict String
  signed_record signing_key content publisher trust =
      let plain : Dict String = ("level", value_of trust) ∷ ("publisher", publisher) ∷ [] in
      elim signing_key [
        | none ↦ plain
        | some key ↦
            dict_put "sig" (texts.trust_signature key publisher trust (texts.strip content)) plain
      ]

  -- _prepare's stored tags and metadata
  unfoldable pub stored_tags : PublisherTrust → List String → List String
  stored_tags trust tags = Str.◌++◌ "trust:" (value_of trust) ∷ clean_tags tags

  unfoldable pub stored_meta : Option Key → String → String → PublisherTrust → Dict Meta → Dict Meta
  stored_meta signing_key content publisher trust metadata =
      dict_put "mark_trust" (dict (signed_record signing_key content publisher trust))
        (dict_pop "mark_trust" metadata)

  -- What GlobalMemoryBus.publish_sync stores: its write may redact, and add to, what it is given.
  unfoldable pub published :
      (write : String → List String → Dict Meta → Written)
      → Option Key
      → String
      → ℕ
      → String
      → String
      → PublisherTrust
      → List String
      → Dict Meta
      → BusFragment
  published write signing_key frag_id now content publisher trust tags metadata =
      let w : Written =
        write content ("global_bus" ∷ stored_tags trust tags)
          (stored_meta signing_key content publisher trust metadata) in
      record {
        id = frag_id;
        content = w.content;
        source = some publisher;
        tags = w.tags;
        metadata = w.metadata;
        created_at = now;
      }

  -- The message that publish_sync returns and appends.
  unfoldable pub publish_message :
      String → ℕ → String → String → PublisherTrust → List String → Dict Meta → BusMessage
  publish_message frag_id now content publisher trust tags metadata = record {
    id = frag_id;
    content = content;
    publisher = publisher;
    trust = trust;
    tags = clean_tags tags;
    timestamp = now;
    metadata = dict_pop "mark_trust" metadata;
  }

-- retrieve_sync's filter of the fragments, with their scores, by the trust of their messages
unfoldable pub trusted_only {ℓ} :
    {S : Type ℓ}
    → PublisherTrust
    → List BusMessage
    → List (BusFragment × S)
    → List (BusFragment × S)
trusted_only min_trust messages found =
    if leb (trust_rank min_trust) 0
    then found
    else let kept : List BusMessage =
        filter (λ m. leb (trust_rank min_trust) (trust_rank m.trust)) messages in
      filter (λ r. any (λ m. m.id == r.0.id) kept) found

unfoldable pub messages_for : Dict BusSubscription → String → List BusMessage → List BusMessage
messages_for subs sub_id messages = elim (dict_get sub_id subs) [
  | none ↦ []
  | some s ↦ filter (λ m. matches s m) messages
]

unfoldable pub snapshot : Option BusSubscription → ℕ → List BusMessage → BusSnapshot
snapshot subscription now messages = record {
  messages = elim subscription [ none ↦ messages | some s ↦ filter (λ m. matches s m) messages ];
  captured_at = now;
}
