-- ===== src/Blocks/Verdict.antt =====
-- The verdict of `BlockChain.verify` (src/mark/memory/block_chain.py) and the two dicts of member
-- hashes that it compares.
use mark_sdk.Prelude.{
  All-dict_get_imp, String, ◌≡◌, refl, ap, sym, ◌∙◌, Bool, true, false, some, List, [], ◌∷◌, not,
  ◌==◌, inl, inr, ◌↔◌, eq_refl, eq_sound, is_none, Bool-cases, Option-cases, &&-eq-true, filter,
  map, All, All-imp, All-imp₂, sort_by-eq-nil, text_le, Dict, dict_get, dict_put, HasUniqueNames,
  All-dict_get, dict_put-HasUniqueNames, arith, false_of_both,
}
use mark_sdk.Blocks.Hashing.{Sha256, block_content_hash}
use mark_sdk.Blocks.Chain.{
  put_hashes, is_empty, names, is_corrupted, missing_from, corrupted_in, judge,
}

pub is_empty-eq-nil : {A : Type 0} (xs : List A) → is_empty xs ≡ true → xs ≡ []
unfolding is_empty
is_empty-eq-nil [] h = refl
is_empty-eq-nil (x ∷ xs) h = absurd (ground arith)

pub filter-none :
    {A : Type 0} (f : A → String) (p : A → Bool) (xs : List A)
    → map f (filter p xs) ≡ []
    → All (λ x. p x ≡ false) xs
filter-none f p [] h = tt
filter-none f p (x ∷ xs) h = elim (Bool-cases (p x)) [
  | inl y ↦ absurd (ground arith)
  | inr n ↦ (n, filter-none f p xs (rw n at h))
]

is_empty-names-filter :
    (p : String × String → Bool) (d : Dict String)
    → is_empty (names (filter p d)) ≡ true
    → All (λ e. p e ≡ false) d
is_empty-names-filter p d h =
    filter-none (λ e. e.0) p d
      (sort_by-eq-nil text_le (map (λ e. e.0) (filter p d))
        (unfold names in is_empty-eq-nil (names (filter p d)) h))

pub filter-eq-nil :
    {A : Type 0} (p : A → Bool) (xs : List A) → All (λ x. p x ≡ false) xs → filter p xs ≡ []
filter-eq-nil p [] h = refl
filter-eq-nil p (x ∷ xs) h = rw h.0 (filter-eq-nil p xs h.1)

is_empty-names_of_none :
    (p : String × String → Bool) (d : Dict String)
    → All (λ e. p e ≡ false) d
    → is_empty (names (filter p d)) ≡ true
unfolding is_empty names
is_empty-names_of_none p d h = rw (filter-eq-nil p d h)

pub put_hashes-HasUniqueNames {ℓ} :
    {A : Type ℓ} (id_of hash_of : A → String) (xs : List A) (d : Dict String)
    → HasUniqueNames d
    → HasUniqueNames (put_hashes id_of hash_of xs d)
unfolding put_hashes
put_hashes-HasUniqueNames id_of hash_of [] d h = h
put_hashes-HasUniqueNames id_of hash_of (x ∷ xs) d h =
    put_hashes-HasUniqueNames id_of hash_of xs (dict_put (id_of x) (hash_of x) d)
      (dict_put-HasUniqueNames (id_of x) (hash_of x) d h)

module _ (sealed_hashes current : Dict String) where
  is_corrupted-of_found :
      (e : String × String) (g : String)
      → dict_get e.0 current ≡ some g
      → is_corrupted current e ≡ not (g == e.1)
  unfolding is_corrupted
  is_corrupted-of_found (i, h) g found = rw (found, is_corrupted)

  -- No entry is corrupted or missing exactly when each is found as it was.
  entry_kept :
      (e : String × String)
      → is_corrupted current e ≡ false
      → is_none (dict_get e.0 current) ≡ false
      → dict_get e.0 current ≡ some e.1
  entry_kept e c m = elim (Option-cases (dict_get e.0 current)) [
    | inl n ↦ absurd (ground arith)
    | inr (g, found) ↦
        found ∙ ap some (eq_sound g e.1 (ground (arith, is_corrupted-of_found e g found)))
  ]

  -- With nothing corrupted, missing or added, the dicts give the same for every key.
  pub same_dicts :
      is_empty (corrupted_in current sealed_hashes) ≡ true
      → is_empty (missing_from sealed_hashes current) ≡ true
      → is_empty (missing_from current sealed_hashes) ≡ true
      → (i : String) → dict_get i current ≡ dict_get i sealed_hashes
  unfolding corrupted_in missing_from
  same_dicts c m a i = elim (Option-cases (dict_get i sealed_hashes)) [
    | inr (h, found) ↦
        All-dict_get_imp (λ j h. dict_get j current ≡ some h) i h sealed_hashes
          (All-imp₂ (λ e. is_corrupted current e ≡ false)
            (λ e. is_none (dict_get e.0 current) ≡ false) (λ e. dict_get e.0 current ≡ some e.1)
            entry_kept sealed_hashes (is_empty-names-filter (is_corrupted current) sealed_hashes c)
            (is_empty-names-filter (λ e. is_none (dict_get e.0 current)) sealed_hashes m))
          found
        ∙ sym found
    | inl absent ↦ elim (Option-cases (dict_get i current)) [
      | inl n ↦ n ∙ sym absent
      | inr (h, found) ↦ absurd (
          false_of_both
            (All-dict_get_imp (λ j h. is_none (dict_get j sealed_hashes) ≡ false) i h current
              (is_empty-names-filter (λ e. is_none (dict_get e.0 sealed_hashes)) current a) found)
            (rw absent))
    ]
  ]

module _ (d e : Dict String) (same : (i : String) → dict_get i d ≡ dict_get i e) where
  pub nothing_missing : HasUniqueNames d → is_empty (missing_from d e) ≡ true
  unfolding missing_from
  nothing_missing u =
      is_empty-names_of_none (λ x. is_none (dict_get x.0 e)) d
        (All-imp (λ x. dict_get x.0 d ≡ some x.1) (λ x. is_none (dict_get x.0 e) ≡ false)
          (λ x g. rw (sym (same x.0), g)) d (All-dict_get d u))

  pub nothing_corrupted : HasUniqueNames e → is_empty (corrupted_in d e) ≡ true
  unfolding corrupted_in
  nothing_corrupted u = is_empty-names_of_none (is_corrupted d) e (
      All-imp (λ x. dict_get x.0 e ≡ some x.1) (λ x. is_corrupted d x ≡ false)
        (λ x g. is_corrupted-of_found e d x x.1 (same x.0 ∙ g) ∙ rw eq_refl) e (All-dict_get e u))

module _ (sha : Sha256) (block_id recorded_hash : String) (sealed_hashes current : Dict String)
    (unique_sealed : HasUniqueNames sealed_hashes) (unique_current : HasUniqueNames current) where
  -- The verdict is valid exactly when every id has the hash of the seal, no id more or less has one,
  -- and the recorded content hash is that of the recorded members.
  pub judge-valid : (judge sha block_id recorded_hash sealed_hashes current).valid ≡ true ↔ (
      ((i : String) → dict_get i current ≡ dict_get i sealed_hashes)
      × (block_content_hash sha sealed_hashes == recorded_hash) ≡ true)
  unfolding judge
  judge-valid = (
    (λ v.
        let (unchanged, content) = &&-eq-true _ _ v in
        let (c, rest) = &&-eq-true _ _ unchanged in
        let (m, a) = &&-eq-true _ _ rest in (same_dicts sealed_hashes current c m a, content)),
    (λ (same, content).
        rw
          (
            nothing_corrupted current sealed_hashes same unique_sealed,
            nothing_missing sealed_hashes current (λ i. sym (same i)) unique_sealed,
            nothing_missing current sealed_hashes same unique_current,
          )
          content),
  )
