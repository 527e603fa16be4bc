-- ===== src/Prelude/Dicts.antt =====
-- A Python `dict` with text keys: an association list in insertion order, each key once. And the
-- order of texts.
use Prim.Native.Nat.{Ordering}
use Prim.Native.String.{String, compare}
use mathlib.Core.Path.{◌≡◌, refl, subst}
use mathlib.Core.Logic.{inl, inr}
use mathlib.Core.Bool.{Bool, true, false}
use mathlib.Core.Option.{Option, none, some}
use mathlib.Core.List.{List, [], ◌∷◌}
use native.Mathlib.Omega.{arith}
use text.Mathlib.Text.{◌==◌}
use text.Mathlib.TextEquality.{eq_iff}
use text.Mathlib.TextPositions.{eq_refl}
use mark_sdk.Prelude.Tests.{if◌then◌else◌, Bool-cases, eq_false_sym, eq_sound, some_eq}
use mark_sdk.Prelude.Lists.{All, All-imp₂, any}
use mark_sdk.Prelude.Keys.{IsFresh, HasUniqueKeys}

abbrev pub text_lt : String → String → Bool
text_lt a b = elim (compare a b) [ Ordering.lt ↦ true | _ ↦ false ]

abbrev pub text_le : String → String → Bool
text_le a b = elim (compare a b) [ Ordering.gt ↦ false | _ ↦ true ]

-- i in ids
abbrev pub is_in : List String → String → Bool
is_in ids i = any (λ j. j == i) ids

abbrev pub Dict {ℓ} : Type ℓ → Type ℓ
Dict V = List (String × V)

module _ {ℓ} {V : Type ℓ} where
  -- d.get(k)
  abbrev pub dict_get : String → Dict V → Option V
  dict_get k [] = none
  dict_get k ((j, v) ∷ d) = if j == k then some v else dict_get k d

  -- d[k] = v: in place for a key that is there, else at the end.
  abbrev pub dict_put : String → V → Dict V → Dict V
  dict_put k v [] = (k, v) ∷ []
  dict_put k v ((j, w) ∷ d) = if j == k then (j, v) ∷ d else (j, w) ∷ dict_put k v d

  -- d.pop(k, None)
  abbrev pub dict_pop : String → Dict V → Dict V
  dict_pop k [] = []
  dict_pop k ((j, w) ∷ d) = if j == k then dict_pop k d else (j, w) ∷ dict_pop k d

  abbrev pub HasUniqueNames : Dict V → Type 0
  HasUniqueNames = HasUniqueKeys (λ e. e.0)

module _ {ℓ} {V : Type ℓ} where
  pub dict_get-dict_put :
      (k j : String) (v : V) (d : Dict V)
      → dict_get j (dict_put k v d) ≡ (if k == j then some v else dict_get j d)
  dict_get-dict_put k j v [] = refl
  dict_get-dict_put k j v ((i, w) ∷ d) =
      ground (arith, eq_iff k j, eq_iff i k, eq_iff i j, dict_get-dict_put k j v d)

  pub dict_get-dict_pop :
      (k j : String) (d : Dict V)
      → dict_get j (dict_pop k d) ≡ (if k == j then none else dict_get j d)
  dict_get-dict_pop k j [] = ground arith
  dict_get-dict_pop k j ((i, w) ∷ d) =
      ground (arith, eq_iff k j, eq_iff i k, eq_iff i j, dict_get-dict_pop k j d)

  dict_put-IsFresh :
      (i k : String) (v : V) (d : Dict V)
      → (k == i) ≡ false
      → IsFresh (λ e. e.0) i d
      → IsFresh (λ e. e.0) i (dict_put k v d)
  dict_put-IsFresh i k v [] n h = (n, tt)
  dict_put-IsFresh i k v ((j, w) ∷ d) n h = elim (Bool-cases (j == k)) [
    | inl e ↦ rw e h
    | inr e ↦ rw e (h.0, dict_put-IsFresh i k v d n h.1)
  ]

  pub dict_put-HasUniqueNames :
      (k : String) (v : V) (d : Dict V) → HasUniqueNames d → HasUniqueNames (dict_put k v d)
  dict_put-HasUniqueNames k v [] h = (tt, tt)
  dict_put-HasUniqueNames k v ((j, w) ∷ d) h = elim (Bool-cases (j == k)) [
    | inl e ↦ rw e h
    | inr e ↦
        rw e (dict_put-IsFresh j k v d (eq_false_sym j k e) h.0, dict_put-HasUniqueNames k v d h.1)
  ]

  -- With each key once, an entry is what its key gives.
  pub All-dict_get : (d : Dict V) → HasUniqueNames d → All (λ e. dict_get e.0 d ≡ some e.1) d
  All-dict_get [] h = tt
  All-dict_get ((k, v) ∷ d) h = (rw eq_refl, dict_get_rest k v d h.0 (All-dict_get d h.1))
    where
      dict_get_rest :
          (k : String) (v : V) (rest : Dict V)
          → IsFresh (λ e. e.0) k rest
          → All (λ e. dict_get e.0 rest ≡ some e.1) rest
          → All (λ e. dict_get e.0 ((k, v) ∷ rest) ≡ some e.1) rest
      dict_get_rest k v rest f h =
          All-imp₂ (λ (e : String × V). (e.0 == k) ≡ false) (λ e. dict_get e.0 rest ≡ some e.1)
            (λ e. dict_get e.0 ((k, v) ∷ rest) ≡ some e.1) (λ e n g. rw (eq_false_sym e.0 k n) g)
            rest f h

-- A property of all entries holds of what a key gives.
pub All-dict_get_imp {ℓ κ} :
    {V : Type ℓ} (P : String → V → Type κ) (i : String) (v : V) (d : Dict V)
    → All (λ e. P e.0 e.1) d
    → dict_get i d ≡ some v
    → P i v
All-dict_get_imp P i v [] h e = absurd (ground arith)
All-dict_get_imp P i v ((j, w) ∷ d) h e = elim (Bool-cases (j == i)) [
  | inl y ↦ subst (λ k. P k v) (eq_sound j i y) (subst (P j) (some_eq w v (rw y at e)) h.0)
  | inr n ↦ All-dict_get_imp P i v d h.1 (rw n at e)
]
