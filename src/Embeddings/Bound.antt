-- ===== src/Embeddings/Bound.antt =====
-- The size of the cache (src/mark/embeddings/cache.py).
use mark_sdk.Prelude.{
  ℕ, String, ◌≡◌, refl, ◌∙◌, some, List, [], ◌∷◌, ◌≤◌, suc, leb, ◌==◌, inl, inr, Bool-cases,
  Option-cases, length, length-append, Dict, dict_get, dict_pop, is_in, arith,
}
use mark_sdk.Embeddings.Cache.{Cache, Scan, hit, scan, zip, store_each, evict, is_nil, embed_batch}

module _ {ℓ} {V : Type ℓ} where
  length-dict_pop : (k : String) (d : Dict V) → length (dict_pop k d) ≤ length d
  length-dict_pop k [] = omega arith
  length-dict_pop k ((j, v) ∷ d) = elim (Bool-cases (j == k)) [
    | inl y ↦ rw y (omega (arith, length-dict_pop k d))
    | inr n ↦ rw n (omega (arith, length-dict_pop k d))
  ]

  length-dict_pop_found :
      (k : String) (v : V) (d : Dict V)
      → dict_get k d ≡ some v
      → suc (length (dict_pop k d)) ≤ length d
  length-dict_pop_found k v [] e = absurd (ground arith)
  length-dict_pop_found k v ((j, w) ∷ d) e = elim (Bool-cases (j == k)) [
    | inl y ↦ rw y (omega (arith, length-dict_pop k d))
    | inr n ↦ rw n (omega (arith, length-dict_pop_found k v d (rw n at e)))
  ]

  length-hit :
      (t : String) (v : V) (c : Cache V)
      → dict_get t c.entries ≡ some v
      → length (hit t v c).entries ≤ length c.entries
  unfolding hit
  length-hit t v c e = omega (
    arith,
    length-append (dict_pop t c.entries) ((t, v) ∷ []),
    length-dict_pop_found t v c.entries e,
  )

  -- A lookup adds nothing.
  unfoldable pub IsWithin : ℕ → Cache V → Type 0
  IsWithin n c = (length c.entries ≤ n) × (c.maxsize ≡ n)

  scan-IsWithin :
      (n : ℕ) (ts missing : List String) (c : Cache V)
      → IsWithin n c
      → IsWithin n (scan ts missing c).cache
  unfolding scan IsWithin hit
  scan-IsWithin n [] missing c h = h
  scan-IsWithin n (t ∷ ts) missing c h = elim (Option-cases (dict_get t c.entries)) [
    | inr (v, found) ↦
        rw (found, scan)
          (scan-IsWithin n ts missing (hit t v c) (omega (arith, h.0, length-hit t v c found), h.1))
    | inl absent ↦
        rw (absent, scan)
          (scan-IsWithin n ts _ _
            (elim (Bool-cases (is_in missing t)) [ inl y ↦ rw y h | inr k ↦ rw k h ]))
  ]

  store_each-maxsize :
      (es : List (String × V)) (c : Cache V) → (store_each es c).maxsize ≡ c.maxsize
  unfolding store_each
  store_each-maxsize [] c = refl
  store_each-maxsize ((t, v) ∷ es) c = store_each-maxsize es _

  length-evict : (n : ℕ) (d : Dict V) → length (evict n d) ≤ n
  unfolding evict
  length-evict n [] = omega arith
  length-evict n (e ∷ d) = elim (Bool-cases (leb (length (e ∷ d)) n)) [
    | inl y ↦ rw y (ground arith)
    | inr k ↦ rw k (length-evict n d)
  ]

  -- If the cache holds at most maxsize vectors, then it does after every embed_batch, with any
  -- provider and any texts.
  pub embed_batch-IsWithin :
      (inner : List String → List V) (empty : V) (texts : List String) (n : ℕ) (c : Cache V)
      → IsWithin n c
      → IsWithin n (embed_batch inner empty texts c).1
  unfolding embed_batch IsWithin
  embed_batch-IsWithin inner empty texts n c h =
      let s : Scan V = scan texts [] c in
      let es : List (String × V) = zip s.missing (inner s.missing) in
      let within = scan-IsWithin n texts [] c h in
      elim (Bool-cases (is_nil s.missing)) [
        | inl y ↦ rw y within
        | inr k ↦ rw k (
          omega (
            arith,
            length-evict (store_each es s.cache).maxsize (store_each es s.cache).entries,
            store_each-maxsize es s.cache,
            within.1,
          ),
          store_each-maxsize es s.cache ∙ within.1,
        )
      ]
