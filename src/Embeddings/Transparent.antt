-- ===== src/Embeddings/Transparent.antt =====
-- The cache against the provider that it wraps (src/mark/embeddings/cache.py).
use mark_sdk.Prelude.{
  ℕ, String, ◌≡◌, refl, ap, ap₂, ◌∙◌, true, Option, none, some, List, [], ◌∷◌, ◌++◌, suc, leb, ◌==◌,
  eq_refl, eq_sound, inl, inr, Bool-cases, Option-cases, if◌then◌else◌, length, map, any-append,
  any-append_left, All, All-append, Dict, dict_get, dict_pop, is_in, All-dict_get_imp, arith,
}
use mark_sdk.Embeddings.Cache.{
  Cache, Scan, put_last, hit, scan, zip, store_each, evict, fill, is_nil, embed_batch,
}

module _ {V : Type 0} (f : String → V) where
  -- Every entry is what the provider gives.
  abbrev pub IsFaithful : Dict V → Type 0
  IsFaithful d = All (λ e. e.1 ≡ f e.0) d

  All-dict_pop : (k : String) (d : Dict V) → IsFaithful d → IsFaithful (dict_pop k d)
  All-dict_pop k [] h = tt
  All-dict_pop k ((j, v) ∷ d) h = elim (Bool-cases (j == k)) [
    | inl y ↦ rw y (All-dict_pop k d h.1)
    | inr n ↦ rw n (h.0, All-dict_pop k d h.1)
  ]

  IsFaithful-put_last :
      (t : String) (v : V) (d : Dict V) → v ≡ f t → IsFaithful d → IsFaithful (put_last t v d)
  IsFaithful-put_last t v d e h =
      All-append (λ e. e.1 ≡ f e.0) (dict_pop t d) ((t, v) ∷ []) (All-dict_pop t d h) (e, tt)

  IsFaithful-get :
      (t : String) (v : V) (d : Dict V) → IsFaithful d → dict_get t d ≡ some v → v ≡ f t
  IsFaithful-get t v d h e = All-dict_get_imp (λ k w. w ≡ f k) t v d h e

  -- The results agree with the provider, or the text is among the missing.
  Agrees : List String → List String → List (Option V) → Type 0
  Agrees missing [] [] = Unit
  Agrees missing (t ∷ ts) (some v ∷ fs) = (v ≡ f t) × Agrees missing ts fs
  Agrees missing (t ∷ ts) (none ∷ fs) = (is_in missing t ≡ true) × Agrees missing ts fs
  Agrees missing _ _ = ⊥

  scan-missing :
      (ts missing : List String) (c : Cache V) (t : String)
      → is_in missing t ≡ true
      → is_in (scan ts missing c).missing t ≡ true
  unfolding scan
  scan-missing [] missing c t h = h
  scan-missing (u ∷ ts) missing c t h = elim (Option-cases (dict_get u c.entries)) [
    | inr (v, found) ↦ rw (found, scan) (scan-missing ts missing (hit u v c) t h)
    | inl absent ↦
        rw (absent, scan)
          (scan-missing ts _ _ t (elim (Bool-cases (is_in missing u)) [
            | inl y ↦ rw y h
            | inr n ↦ rw n (any-append_left (λ j. j == t) missing (u ∷ []) h)
          ]))
  ]

  scan-Agrees :
      (ts missing : List String) (c : Cache V)
      → IsFaithful c.entries
      → IsFaithful (scan ts missing c).cache.entries
        × Agrees (scan ts missing c).missing ts (scan ts missing c).found
  unfolding scan hit Agrees
  scan-Agrees [] missing c h = (h, tt)
  scan-Agrees (u ∷ ts) missing c h = elim (Option-cases (dict_get u c.entries)) [
    | inr (v, found) ↦
        let agrees = IsFaithful-get u v c.entries h found in
        let (kept, rest) =
          scan-Agrees ts missing (hit u v c) (IsFaithful-put_last u v c.entries agrees h) in
        rw (found, scan) (kept, (agrees, rest))
    | inl absent ↦
        let m : List String = if is_in missing u then missing else missing ++ u ∷ [] in
        let c' : Cache V = if is_in missing u then record c { hits = suc c.hits } else c in
        let (kept, rest) =
          scan-Agrees ts m c'
            (elim (Bool-cases (is_in missing u)) [ inl y ↦ rw y h | inr n ↦ rw n h ]) in
        rw (absent, scan)
          (
            kept,
            (
              scan-missing ts m c' u (elim (Bool-cases (is_in missing u)) [
                | inl y ↦ rw y y
                | inr n ↦ rw n (any-append (λ j. j == u) missing (u ∷ []) (rw (eq_refl u) refl))
              ]),
              rest,
            ),
          )
  ]

  zip-map : (ts : List String) → zip ts (map f ts) ≡ map (λ t. (t, f t)) ts
  unfolding zip
  zip-map [] = refl
  zip-map (t ∷ ts) = ap (◌∷◌ (t, f t)) (zip-map ts)

  dict_get-map :
      (t : String) (ts : List String)
      → is_in ts t ≡ true
      → dict_get t (map (λ u. (u, f u)) ts) ≡ some (f t)
  dict_get-map t [] h = absurd (ground arith)
  dict_get-map t (u ∷ ts) h = elim (Bool-cases (u == t)) [
    | inl y ↦ rw y (ap (λ w. some (f w)) (eq_sound u t y))
    | inr n ↦ rw n (dict_get-map t ts (rw n at h))
  ]

  fill-Agrees :
      (empty : V) (missing ts : List String) (fs : List (Option V))
      → Agrees missing ts fs
      → fill empty (map (λ u. (u, f u)) missing) ts fs ≡ map f ts
  unfolding fill Agrees
  fill-Agrees empty missing [] [] h = refl
  fill-Agrees empty missing (t ∷ ts) (some v ∷ fs) h =
      ap₂ ◌∷◌ h.0 (fill-Agrees empty missing ts fs h.1)
  fill-Agrees empty missing (t ∷ ts) (none ∷ fs) h =
      rw (dict_get-map t missing h.0) (ap (◌∷◌ (f t)) (fill-Agrees empty missing ts fs h.1))
  fill-Agrees empty missing [] (o ∷ fs) h = absurd h
  fill-Agrees empty missing (t ∷ ts) [] h = absurd h

  store_each-IsFaithful :
      (ts : List String) (c : Cache V)
      → IsFaithful c.entries
      → IsFaithful (store_each (map (λ t. (t, f t)) ts) c).entries
  unfolding store_each
  store_each-IsFaithful [] c h = h
  store_each-IsFaithful (t ∷ ts) c h =
      store_each-IsFaithful ts
        (record c { entries = put_last t (f t) c.entries; misses = suc c.misses })
        (IsFaithful-put_last t (f t) c.entries refl h)

  evict-IsFaithful : (n : ℕ) (d : Dict V) → IsFaithful d → IsFaithful (evict n d)
  unfolding evict
  evict-IsFaithful n [] h = tt
  evict-IsFaithful n (e ∷ d) h = elim (Bool-cases (leb (length (e ∷ d)) n)) [
    | inl y ↦ rw y h
    | inr k ↦ rw k (evict-IsFaithful n d h.1)
  ]

  -- If the wrapped provider embeds each text of a batch by itself and every cached vector is the
  -- provider's, then embed_batch returns for every text, cached, repeated or new, the provider's
  -- vector, and the cached vectors are still the provider's.
  pub embed_batch-transparent :
      (inner : List String → List V) (empty : V) (texts : List String) (c : Cache V)
      → ((ts : List String) → inner ts ≡ map f ts)
      → IsFaithful c.entries
      → ((embed_batch inner empty texts c).0 ≡ map f texts)
        × IsFaithful (embed_batch inner empty texts c).1.entries
  unfolding embed_batch
  embed_batch-transparent inner empty texts c pointwise h =
      let s : Scan V = scan texts [] c in
      let (kept, agrees) = scan-Agrees texts [] c h in
      let computed : zip s.missing (inner s.missing) ≡ map (λ t. (t, f t)) s.missing =
        ap (zip s.missing) (pointwise s.missing) ∙ zip-map s.missing in
      rw computed (
        fill-Agrees empty s.missing texts s.found agrees,
        elim (Bool-cases (is_nil s.missing)) [
          | inl y ↦ rw y kept
          | inr n ↦ rw n (evict-IsFaithful _ _ (store_each-IsFaithful s.missing s.cache kept))
        ],
      )
