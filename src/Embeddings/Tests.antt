-- ===== src/Embeddings/Tests.antt =====
-- A cache of two entries in front of a provider that embeds a text as itself.
use mark_sdk.Prelude.{String, ◌≡◌, refl, List, [], ◌∷◌, map, arith}
use mark_sdk.Embeddings.Cache.{Cache, embed_batch}
use mark_sdk.Embeddings.Transparent.{IsFaithful, embed_batch-transparent}
use mark_sdk.Embeddings.Bound.{IsWithin, embed_batch-IsWithin}

abbrev itself : List String → List String
itself ts = map (λ t. t) ts

abbrev warm : Cache String
warm = record { entries = ("a", "a") ∷ ("b", "b") ∷ []; maxsize = 2; hits = 0; misses = 2 }

embed_batch-transparent_example :
    ((embed_batch itself "" ("a" ∷ "c" ∷ "c" ∷ []) warm).0 ≡ "a" ∷ "c" ∷ "c" ∷ [])
    × IsFaithful (λ t. t) (embed_batch itself "" ("a" ∷ "c" ∷ "c" ∷ []) warm).1.entries
embed_batch-transparent_example =
    embed_batch-transparent (λ t. t) itself "" ("a" ∷ "c" ∷ "c" ∷ []) warm (λ ts. refl)
      (refl, (refl, tt))

warm-IsWithin : IsWithin 2 warm
unfolding IsWithin
warm-IsWithin = (omega arith, refl)

embed_batch-IsWithin_example : IsWithin 2 (embed_batch itself "" ("a" ∷ "c" ∷ "c" ∷ []) warm).1
embed_batch-IsWithin_example =
    embed_batch-IsWithin itself "" ("a" ∷ "c" ∷ "c" ∷ []) 2 warm warm-IsWithin
