-- ===== src/Security/Merged.antt =====
-- What the merged windows cover (src/mark/security/windows.py).
use mark_sdk.Prelude.{
  ℕ, max, ◌≡◌, refl, sym, ap, ◌∙◌, String, Bool, true, false, List, [], ◌∷◌, ◌&&◌, ◌||◌, ltb, leb,
  All-of_sort_by, inl, inr, arith, Bool-cases, All, All-imp, any, any-sort_by, sort_by, IsSorted,
  sort_by-IsSorted, subst,
}
use mark_sdk.Security.Windows.{Span, span_le, Lowered, all_spans, merge_onto, merge_spans, spans}

-- The position is in the span; the span is within another one.
abbrev pub covers_at : ℕ → Span → Bool
covers_at p s = leb s.start p && ltb p s.end

abbrev pub contains : Span → Span → Bool
contains s w = leb w.start s.start && leb s.end w.end

-- Each window ends before the next one begins.
abbrev pub AreApart : List Span → Type 0
AreApart [] = Unit
AreApart (s ∷ []) = Unit
AreApart (s ∷ t ∷ ss) = (ltb s.end t.start ≡ true) × AreApart (t ∷ ss)

span_le-total : (s t : Span) → span_le s t ≡ false → span_le t s ≡ true
unfolding span_le
span_le-total s t h = ground arith

span_le_trans : (s t u : Span) → span_le s t ≡ true → span_le t u ≡ true → span_le s u ≡ true
unfolding span_le
span_le_trans s t u h k = ground arith

abbrev start_le : Span → Span → Bool
start_le s t = leb s.start t.start

||_assoc : (a b d : Bool) → ((a || b) || d) ≡ (a || (b || d))
||_assoc true b d = refl
||_assoc false b d = refl

covers_at-max :
    (p : ℕ) (last s : Span)
    → leb last.start s.start ≡ true
    → leb s.start last.end ≡ true
    → covers_at p (record { start = last.start; end = max last.end s.end })
      ≡ (covers_at p last || covers_at p s)
covers_at-max p last s h k = ground arith

-- The merged windows cover the same positions.
merge_onto-covers_at :
    (p : ℕ) (last : Span) (ss : List Span)
    → IsSorted start_le (last ∷ ss)
    → any (covers_at p) (merge_onto last ss) ≡ (covers_at p last || any (covers_at p) ss)
unfolding merge_onto
merge_onto-covers_at p last [] h = refl
merge_onto-covers_at p last (s ∷ ss) h = elim (Bool-cases (leb s.start last.end)) [
  | inl y ↦
      let last' : Span = record { start = last.start; end = max last.end s.end } in
      rw y (
        merge_onto-covers_at p last' ss (h.0.1, h.1.1)
        ∙ (ap (λ b. b || any (covers_at p) ss) (covers_at-max p last s h.0.0 y)
            ∙ ||_assoc (covers_at p last) (covers_at p s) (any (covers_at p) ss)))
  | inr n ↦ rw n (ap (λ b. covers_at p last || b) (merge_onto-covers_at p s ss h.1))
]

merge_onto-contains :
    (s last : Span) (ss : List Span)
    → contains s last ≡ true
    → any (contains s) (merge_onto last ss) ≡ true
unfolding merge_onto
merge_onto-contains s last [] h = ground arith
merge_onto-contains s last (t ∷ ss) h = elim (Bool-cases (leb t.start last.end)) [
  | inl y ↦ rw y (
      merge_onto-contains s (record { start = last.start; end = max last.end t.end }) ss
        (ground arith))
  | inr n ↦ rw n (ground arith)
]

grown_onto : Span → Span → Span
grown_onto last s = record { start = last.start; end = max last.end s.end }

merge_onto-grown :
    (last s : Span) (ss : List Span)
    → leb s.start last.end ≡ true
    → merge_onto last (s ∷ ss) ≡ merge_onto (grown_onto last s) ss
unfolding merge_onto grown_onto
merge_onto-grown last s ss y = rw y refl

merge_onto-apart :
    (last s : Span) (ss : List Span)
    → leb s.start last.end ≡ false
    → merge_onto last (s ∷ ss) ≡ last ∷ merge_onto s ss
unfolding merge_onto
merge_onto-apart last s ss n = rw n refl

contains_self : (s : Span) → contains s s ≡ true
contains_self s = ground arith

contains-grown_onto :
    (last s : Span) → leb last.start s.start ≡ true → contains s (grown_onto last s) ≡ true
unfolding grown_onto
contains-grown_onto last s h = ground arith

any_cons {ℓ} :
    {A : Type ℓ} (p : A → Bool) (x : A) (xs : List A) → any p xs ≡ true → any p (x ∷ xs) ≡ true
any_cons p x xs h = ground arith

-- Each of the spans lies in one window.
merge_onto-contains_each :
    (last : Span) (ss : List Span)
    → IsSorted start_le (last ∷ ss)
    → All (λ s. any (contains s) (merge_onto last ss) ≡ true) ss
merge_onto-contains_each last [] h = tt
merge_onto-contains_each last (s ∷ ss) h = elim (Bool-cases (leb s.start last.end)) [
  | inl y ↦
      subst (λ ws. All (λ t. any (contains t) ws ≡ true) (s ∷ ss))
        (sym (merge_onto-grown last s ss y))
        (
          merge_onto-contains s (grown_onto last s) ss (contains-grown_onto last s h.0.0),
          merge_onto-contains_each (grown_onto last s) ss (unfold grown_onto in (h.0.1, h.1.1)),
        )
  | inr n ↦
      subst (λ ws. All (λ t. any (contains t) ws ≡ true) (s ∷ ss))
        (sym (merge_onto-apart last s ss n))
        (
          any_cons (contains s) last (merge_onto s ss)
              (merge_onto-contains s s ss (contains_self s)),
          All-imp (λ t. any (contains t) (merge_onto s ss) ≡ true)
              (λ t. any (contains t) (last ∷ merge_onto s ss) ≡ true)
              (λ t k. any_cons (contains t) last (merge_onto s ss) k) ss
              (merge_onto-contains_each s ss h.1),
        )
]

AreApart-merge_onto :
    (u last : Span) (ss : List Span)
    → ltb u.end last.start ≡ true
    → AreApart (u ∷ merge_onto last ss)
unfolding merge_onto
AreApart-merge_onto u last [] h = (h, tt)
AreApart-merge_onto u last (s ∷ ss) h = elim (Bool-cases (leb s.start last.end)) [
  | inl y ↦
      rw y (AreApart-merge_onto u (record { start = last.start; end = max last.end s.end }) ss h)
  | inr n ↦ rw n (h, AreApart-merge_onto last s ss (ground arith))
]

merge_onto-AreApart : (last : Span) (ss : List Span) → AreApart (merge_onto last ss)
unfolding merge_onto
merge_onto-AreApart last [] = tt
merge_onto-AreApart last (s ∷ ss) = elim (Bool-cases (leb s.start last.end)) [
  | inl y ↦ rw y (merge_onto-AreApart (record { start = last.start; end = max last.end s.end }) ss)
  | inr n ↦ rw n (AreApart-merge_onto last s ss (ground arith))
]

IsSorted-imp : (ss : List Span) → IsSorted span_le ss → IsSorted start_le ss
unfolding span_le
IsSorted-imp [] h = tt
IsSorted-imp (s ∷ ss) h = (
  All-imp (λ t. span_le s t ≡ true) (λ t. start_le s t ≡ true) (λ t k. ground arith) ss h.0,
  IsSorted-imp ss h.1,
)

-- What merging is to give for the spans: the same positions, each span in one window, and windows in
-- order with a gap between them.
unfoldable pub IsMerged : List Span → List Span → Type 0
IsMerged all_of_them ws =
    ((p : ℕ) → any (covers_at p) ws ≡ any (covers_at p) all_of_them)
    × (All (λ s. any (contains s) ws ≡ true) all_of_them × AreApart ws)

merge_spans-IsMerged : (ss : List Span) → IsSorted start_le ss → IsMerged ss (merge_spans ss)
unfolding merge_spans IsMerged
merge_spans-IsMerged [] h = ((λ p. refl), (tt, tt))
merge_spans-IsMerged (s ∷ ss) h = (
  (λ p. merge_onto-covers_at p s ss h),
  (
    (merge_onto-contains s s ss (contains_self s), merge_onto-contains_each s ss h),
    merge_onto-AreApart s ss,
  ),
)

-- For any text, hints and radius, the merged windows cover exactly the positions of the windows
-- around the hints, each of those windows lies within one merged window, and each merged window
-- ends before the next one begins.
pub spans-IsMerged :
    (text : Lowered) (hints : List String) (radius : ℕ)
    → IsMerged (all_spans text radius hints) (spans text hints radius)
unfolding spans IsMerged
spans-IsMerged text hints radius =
    let found : List Span = all_spans text radius hints in
    let (same, (each, apart)) = merge_spans-IsMerged (sort_by span_le found) (
      IsSorted-imp (sort_by span_le found)
        (sort_by-IsSorted span_le span_le-total span_le_trans found)) in
    (
      (λ p. same p ∙ any-sort_by span_le (covers_at p) found),
      (
        All-of_sort_by span_le (λ s. any (contains s) (spans text hints radius) ≡ true) found each,
        apart,
      ),
    )
