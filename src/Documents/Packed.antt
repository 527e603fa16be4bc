-- ===== src/Documents/Packed.antt =====
-- What packing leaves (src/mark/documents/chunking.py).
use mark_sdk.Prelude.{
  ℕ, ◌+◌, ◌-◌, ◌≤◌, min, ◌≡◌, refl, sym, ap, subst, ◌∙◌, false, List, [], ◌∷◌, ◌++◌, reverse, map,
  not, ◌&&◌, ◌||◌, ltb, leb, inl, inr, arith, Bool-cases, All, append_assoc, append-nil,
}
use mathlib.Core.List.{reverse_aux}
use mark_sdk.Documents.Packing.{
  Piece, Lexer, has_no_pieces, piece_cost, piece_total, take_back, tail, pack_from,
}

module _ {ℓ} {A : Type ℓ} where
  reverse_aux-append : (xs ys zs : List A) → reverse_aux xs ys ++ zs ≡ reverse_aux xs (ys ++ zs)
  reverse_aux-append [] ys zs = refl
  reverse_aux-append (x ∷ xs) ys zs = reverse_aux-append xs (x ∷ ys) zs

  reverse_aux_twice :
      (xs ys zs : List A) → reverse_aux (reverse_aux xs ys) zs ≡ reverse_aux ys (xs ++ zs)
  reverse_aux_twice [] ys zs = refl
  reverse_aux_twice (x ∷ xs) ys zs = reverse_aux_twice xs (x ∷ ys) zs

module _ (x : Lexer) where
  piece_total-append :
      (ps qs : List Piece) → piece_total x (ps ++ qs) ≡ piece_total x ps + piece_total x qs
  piece_total-append [] qs = omega arith
  piece_total-append (p ∷ ps) qs = omega (arith, piece_total-append ps qs)

  take_back-piece_total :
      (most : ℕ) (ps kept : List Piece)
      → piece_total x kept ≤ most
      → piece_total x (take_back x most ps kept (piece_total x kept)) ≤ most
  unfolding take_back
  take_back-piece_total most [] kept h = h
  take_back-piece_total most (p ∷ ps) kept h =
      elim (Bool-cases (x.is_fence p.text || ltb most (piece_total x kept + piece_cost x p))) [
        | inl y ↦ rw y h
        | inr n ↦ rw n (
            subst (λ s. piece_total x (take_back x most ps (p ∷ kept) s) ≤ most) (omega arith)
              (take_back-piece_total most ps (p ∷ kept) (ground arith)))
      ]

  -- What is carried over leaves room for the next piece.
  tail-piece_total :
      (ps : List Piece) (overlap room : ℕ) → piece_total x (tail x ps overlap room) ≤ room
  unfolding tail
  tail-piece_total ps overlap room = elim (Bool-cases (leb overlap 0 || leb room 0)) [
    | inl y ↦ rw y (omega arith)
    | inr n ↦
        let bound : piece_total x (take_back x (min overlap room) (reverse ps) [] 0)
            ≤ min overlap room =
          take_back-piece_total (min overlap room) (reverse ps) [] (omega arith) in
        rw n (omega (arith, bound))
  ]

  fits :
      (budget : ℕ) (current : List Piece) (p : Piece)
      → piece_cost x p ≤ budget
      → (not (has_no_pieces current) && ltb budget (piece_total x current + piece_cost x p)) ≡ false
      → piece_total x (current ++ p ∷ []) ≤ budget
  fits budget [] p h n = omega (arith, h)
  fits budget (q ∷ qs) p h n =
      let below : piece_total x (q ∷ qs) + piece_cost x p ≤ budget = ground arith in
      omega (arith, below, piece_total-append (q ∷ qs) (p ∷ []))

  pack_from-piece_total :
      (budget overlap : ℕ) (ps current : List Piece)
      → All (λ p. piece_cost x p ≤ budget) ps
      → piece_total x current ≤ budget
      → All
          (λ body. piece_total x body ≤ budget)
          (pack_from x budget overlap ps current (piece_total x current))
  unfolding pack_from
  pack_from-piece_total budget overlap [] current a h = elim (Bool-cases (has_no_pieces current)) [
    | inl y ↦ rw y tt
    | inr n ↦ rw n (h, tt)
  ]
  pack_from-piece_total budget overlap (p ∷ ps) current a h =
      elim (Bool-cases
        (not (has_no_pieces current) && ltb budget (piece_total x current + piece_cost x p))) [
          | inl y ↦
              let carried : List Piece = tail x current overlap (budget - piece_cost x p) in
              let carried_total = tail-piece_total current overlap (budget - piece_cost x p) in
              rw y (
                h,
                subst
                    (λ s.
                      All (λ body. piece_total x body ≤ budget)
                        (pack_from x budget overlap ps (carried ++ p ∷ []) s))
                    (piece_total-append carried (p ∷ []) ∙ omega arith)
                    (pack_from-piece_total budget overlap ps (carried ++ p ∷ []) a.1
                      (omega (arith, carried_total, a.0, piece_total-append carried (p ∷ [])))),
              )
          | inr n ↦ rw n (
              subst
                (λ s.
                  All (λ body. piece_total x body ≤ budget)
                    (pack_from x budget overlap ps (current ++ p ∷ []) s))
                (piece_total-append current (p ∷ []) ∙ omega arith)
                (pack_from-piece_total budget overlap ps (current ++ p ∷ []) a.1
                  (fits budget current p a.0 n)))
        ]

  -- A body as what it repeats of the one before and what is new.
  abbrev Part : Type 0
  Part = List Piece × List Piece

  abbrev body_of : Part → List Piece
  body_of part = part.0 ++ part.1

  abbrev all_new : List Part → List Piece
  all_new [] = []
  all_new (part ∷ parts) = part.1 ++ all_new parts

  -- Each body repeats an end of the body before it.
  abbrev Repeats : List Piece → List Part → Type 0
  Repeats before [] = Unit
  Repeats before (part ∷ parts) =
      ((start : List Piece) × (before ≡ start ++ part.0)) × Repeats (body_of part) parts

  abbrev IsSplit : List Piece → List (List Piece) → List Piece → Type 0
  IsSplit before bodies pieces =
      (parts : List Part) × ((bodies ≡ map body_of parts)
        × ((all_new parts ≡ pieces) × Repeats before parts))

  abbrev IsEnd : List Piece → List Piece → Type 0
  IsEnd before carried = (start : List Piece) × (before ≡ start ++ carried)

  take_back-IsEnd :
      (most : ℕ) (ps kept : List Piece) (size : ℕ)
      → IsEnd (reverse ps ++ kept) (take_back x most ps kept size)
  unfolding take_back
  take_back-IsEnd most [] kept size = ([], refl)
  take_back-IsEnd most (p ∷ ps) kept size =
      elim (Bool-cases (x.is_fence p.text || ltb most (size + piece_cost x p))) [
        | inl y ↦ rw y (reverse (p ∷ ps), refl)
        | inr n ↦
            let (start, e) = take_back-IsEnd most ps (p ∷ kept) (size + piece_cost x p) in
            rw n (
              start,
              (reverse_aux-append ps (p ∷ []) kept ∙ sym (reverse_aux-append ps [] (p ∷ kept))) ∙ e,
            )
      ]

  tail-IsEnd : (ps : List Piece) (overlap room : ℕ) → IsEnd ps (tail x ps overlap room)
  unfolding tail
  tail-IsEnd ps overlap room = elim (Bool-cases (leb overlap 0 || leb room 0)) [
    | inl y ↦ rw y (ps, sym (append-nil ps))
    | inr n ↦
        let (start, e) = take_back-IsEnd (min overlap room) (reverse ps) [] 0 in
        rw n (
          start,
          sym (
                ap (λ l. l ++ []) (reverse_aux_twice ps [] [])
                ∙ (append-nil (ps ++ []) ∙ append-nil ps))
              ∙ e,
        )
  ]

  pack_from-IsSplit :
      (budget overlap : ℕ) (ps : List Piece) (before carried new : List Piece) (size : ℕ)
      → IsEnd before carried
      → IsSplit before (pack_from x budget overlap ps (carried ++ new) size) (new ++ ps)
  unfolding pack_from
  pack_from-IsSplit budget overlap [] before [] [] size e = ([], (refl, (refl, tt)))
  pack_from-IsSplit budget overlap [] before [] (q ∷ new) size e =
      (([], q ∷ new) ∷ [], (refl, (refl, (e, tt))))
  pack_from-IsSplit budget overlap [] before (q ∷ carried) new size e =
      ((q ∷ carried, new) ∷ [], (refl, (refl, (e, tt))))
  pack_from-IsSplit budget overlap (p ∷ ps) before carried new size e =
      elim (Bool-cases
        (not (has_no_pieces (carried ++ new)) && ltb budget (size + piece_cost x p))) [
          | inl y ↦
              let again : List Piece = tail x (carried ++ new) overlap (budget - piece_cost x p) in
              let (parts, (same, (all, repeats))) =
                pack_from-IsSplit budget overlap ps (carried ++ new) again (p ∷ [])
                  (piece_total x again + piece_cost x p)
                  (tail-IsEnd (carried ++ new) overlap (budget - piece_cost x p)) in
              rw y (
                (carried, new) ∷ parts,
                (ap (◌∷◌ (carried ++ new)) same, (ap (λ l. new ++ l) all, (e, repeats))),
              )
          | inr n ↦ rw n (
              subst
                (λ c.
                  IsSplit before (pack_from x budget overlap ps c (size + piece_cost x p))
                    (new ++ p ∷ ps))
                (sym (append_assoc carried new (p ∷ [])))
                (subst
                  (IsSplit before (
                    pack_from x budget overlap ps (carried ++ (new ++ p ∷ []))
                      (size + piece_cost x p)))
                  (append_assoc new (p ∷ []) ps)
                  (pack_from-IsSplit budget overlap ps before carried (new ++ p ∷ [])
                    (size + piece_cost x p) e)))
        ]

  -- The new pieces of the bodies are the given ones in order, each body repeats an end of the one
  -- before it, and none is over the budget.
  abbrev pub IsPacked : ℕ → List Piece → List (List Piece) → Type 0
  IsPacked budget pieces bodies =
      IsSplit [] bodies pieces × All (λ body. piece_total x body ≤ budget) bodies

  -- If no piece is over the budget, then with any overlap no packed body is over it, what the
  -- bodies add is the pieces, each once and in order, and what a body repeats is an end of the
  -- body before it.
  pub pack_from-IsPacked :
      (pieces : List Piece) (budget overlap : ℕ)
      → All (λ p. piece_cost x p ≤ budget) pieces
      → IsPacked budget pieces (pack_from x budget overlap pieces [] 0)
  pack_from-IsPacked pieces budget overlap a = (
    pack_from-IsSplit budget overlap pieces [] [] [] 0 ([], refl),
    pack_from-piece_total budget overlap pieces [] a (omega arith),
  )
