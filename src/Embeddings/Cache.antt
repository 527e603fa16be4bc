-- ===== src/Embeddings/Cache.antt =====
-- `CachedEmbeddingProvider` (src/mark/embeddings/cache.py). The entries are in the order of use, the
-- oldest first; vectors are values, which the source copies. The wrapped provider's `embed_batch` is
-- the constructor's argument.
use mark_sdk.Prelude.{
  ℕ, String, Bool, true, false, Option, none, some, List, [], ◌∷◌, ◌++◌, suc, leb, if◌then◌else◌,
  length, Dict, dict_get, dict_pop, is_in,
}

module _ {ℓ} (V : Type ℓ) where
  pub record Cache : Type ℓ where
    pub entries : Dict V
    pub maxsize : ℕ
    pub hits : ℕ
    pub misses : ℕ

  -- The state of the first loop: the results so far for the texts, and what is missing.
  pub record Scan : Type ℓ where
    pub found : List (Option V)
    pub missing : List String
    pub cache : Cache

unfoldable pub is_nil : List String → Bool
is_nil [] = true
is_nil (t ∷ ts) = false

module _ {ℓ} {V : Type ℓ} where
  -- self._cache[text] = v; self._cache.move_to_end(text)
  abbrev pub put_last : String → V → Dict V → Dict V
  put_last text v d = dict_pop text d ++ (text, v) ∷ []

  unfoldable pub hit : String → V → Cache V → Cache V
  hit text v c = record c { entries = put_last text v c.entries; hits = suc c.hits }

  unfoldable pub scan : List String → List String → Cache V → Scan V
  scan [] missing c = record { found = []; missing = missing; cache = c }
  scan (text ∷ texts) missing c = elim (dict_get text c.entries) [
    | some v ↦
        let rest : Scan V = scan texts missing (hit text v c) in
        record rest { found = some v ∷ rest.found }
    | none ↦
        let rest : Scan V =
          scan texts (if is_in missing text then missing else missing ++ text ∷ [])
            (if is_in missing text then record c { hits = suc c.hits } else c) in
        record rest { found = none ∷ rest.found }
  ]

  unfoldable pub zip : List String → List V → List (String × V)
  zip [] vs = []
  zip (t ∷ ts) [] = []
  zip (t ∷ ts) (v ∷ vs) = (t, v) ∷ zip ts vs

  unfoldable pub store_each : List (String × V) → Cache V → Cache V
  store_each [] c = c
  store_each ((t, v) ∷ es) c =
      store_each es (record c { entries = put_last t v c.entries; misses = suc c.misses })

  -- while len(self._cache) > self._maxsize: self._cache.popitem(last=False)
  unfoldable pub evict : ℕ → Dict V → Dict V
  evict maxsize [] = []
  evict maxsize (e ∷ d) =
      let rest = evict maxsize d in if leb (length (e ∷ d)) maxsize then e ∷ d else rest

  -- A text that got no vector has [], here `empty`.
  unfoldable pub fill : V → List (String × V) → List String → List (Option V) → List V
  fill empty computed (t ∷ ts) (some v ∷ fs) = v ∷ fill empty computed ts fs
  fill empty computed (t ∷ ts) (none ∷ fs) =
      (elim (dict_get t computed) [ none ↦ empty | some v ↦ v ]) ∷ fill empty computed ts fs
  fill empty computed _ _ = []

  unfoldable pub embed_batch : (List String → List V) → V → List String → Cache V → List V × Cache V
  embed_batch inner empty texts c =
      let s : Scan V = scan texts [] c in
      let computed : List (String × V) = zip s.missing (inner s.missing) in
      let stored : Cache V = store_each computed s.cache in
      (
        fill empty computed texts s.found,
        if is_nil s.missing
            then s.cache
            else record stored { entries = evict stored.maxsize stored.entries },
      )

  unfoldable pub clear : Cache V → Cache V
  clear c = record c { entries = []; hits = 0; misses = 0 }
