-- ===== src/Timeline/Clocks.antt =====
-- The two clocks as one order (src/mark/memory/timeline_order.py).
use mark_sdk.Prelude.{
  ℕ, ◌≡◌, refl, ap, ◌∙◌, Bool, true, false, Option, none, some, List, ◌++◌, not, ◌&&◌, ◌||◌, ltb,
  leb, nat_eq, inl, inr, arith, Option-cases, filter, IsSorted, IsSorted-partition, All-of,
  filter-eq,
}
use mark_sdk.Timeline.Order.{is_dated, declared_at, dated_le, stored_le}

-- Dated before undated; the dated by declared time, then storage; the undated by storage.
unfoldable pub key_le : Option ℕ → ℕ → Option ℕ → ℕ → Bool
key_le none s none t = leb s t
key_le none s (some b) t = false
key_le (some a) s none t = true
key_le (some a) s (some b) t = ltb a b || (nat_eq a b && leb s t)

key_le-total :
    (m : Option ℕ) (s : ℕ) (n : Option ℕ) (t : ℕ) → key_le m s n t ≡ false → key_le n t m s ≡ true
unfolding key_le
key_le-total none s none t h = ground arith
key_le-total none s (some b) t h = refl
key_le-total (some a) s none t h = absurd (ground arith)
key_le-total (some a) s (some b) t h = ground arith

key_le_trans :
    (l : Option ℕ) (r : ℕ) (m : Option ℕ) (s : ℕ) (n : Option ℕ) (t : ℕ)
    → key_le l r m s ≡ true
    → key_le m s n t ≡ true
    → key_le l r n t ≡ true
unfolding key_le
key_le_trans none r none s none t h k = ground arith
key_le_trans none r none s (some c) t h k = k
key_le_trans none r (some b) s (some c) t h k = h
key_le_trans none r (some b) s none t h k = absurd (ground arith)
key_le_trans (some a) r m s none t h k = refl
key_le_trans (some a) r none s (some c) t h k = absurd (ground arith)
key_le_trans (some a) r (some b) s (some c) t h k = ground arith

module _ {ℓ} {T : Type ℓ} (when : T → Option ℕ) (store : T → ℕ) where
  unfoldable pub two_clock_le : T → T → Bool
  two_clock_le x y = key_le (when x) (store x) (when y) (store y)

  pub le_dated :
      (x y : T)
      → is_dated when x ≡ true
      → is_dated when y ≡ true
      → two_clock_le x y ≡ dated_le when store x y
  unfolding is_dated two_clock_le dated_le key_le declared_at
  le_dated x y h k = elim (Option-cases (when x)) [
    | inl e ↦ absurd (cc (rw e at h))
    | inr (a, e) ↦ elim (Option-cases (when y)) [
      | inl d ↦ absurd (cc (rw d at k))
      | inr (b, d) ↦ rw (dated_le, declared_at, e, d) refl
    ]
  ]

  pub le_undated :
      (x y : T)
      → not (is_dated when x) ≡ true
      → not (is_dated when y) ≡ true
      → two_clock_le x y ≡ stored_le store x y
  unfolding is_dated two_clock_le stored_le key_le
  le_undated x y h k = elim (Option-cases (when x)) [
    | inr (a, e) ↦ absurd (cc (rw e at h))
    | inl e ↦ elim (Option-cases (when y)) [
      | inr (b, d) ↦ absurd (cc (rw d at k))
      | inl d ↦ rw (e, d) refl
    ]
  ]

  pub le_mixed :
      (x y : T) → is_dated when x ≡ true → is_dated when y ≡ false → two_clock_le y x ≡ false
  unfolding is_dated two_clock_le key_le
  le_mixed x y h k = elim (Option-cases (when x)) [
    | inl e ↦ absurd (cc (rw e at h))
    | inr (a, e) ↦ elim (Option-cases (when y)) [
      | inr (b, d) ↦ absurd (cc (rw d at k))
      | inl d ↦ rw (e, d) refl
    ]
  ]

  pub two_clock_le-total : (x y : T) → two_clock_le x y ≡ false → two_clock_le y x ≡ true
  unfolding two_clock_le
  two_clock_le-total x y h = key_le-total (when x) (store x) (when y) (store y) h

  pub two_clock_le_trans :
      (x y z : T) → two_clock_le x y ≡ true → two_clock_le y z ≡ true → two_clock_le x z ≡ true
  unfolding two_clock_le
  two_clock_le_trans x y z h k =
      key_le_trans (when x) (store x) (when y) (store y) (when z) (store z) h k

  pub stored_le-total : (x y : T) → stored_le store x y ≡ false → stored_le store y x ≡ true
  unfolding stored_le
  stored_le-total x y h = ground arith

  pub stored_le_trans :
      (x y z : T)
      → stored_le store x y ≡ true
      → stored_le store y z ≡ true
      → stored_le store x z ≡ true
  unfolding stored_le
  stored_le_trans x y z h k = ground arith

  -- The undated items: those stored by the last dated record's storage, then the later ones.
  pub stored_later :
      (last : ℕ) (undated : List T)
      → IsSorted (stored_le store) undated
      → undated
        ≡ filter (λ x. leb (store x) last) undated ++ filter (λ x. ltb last (store x)) undated
  unfolding stored_le
  stored_later last undated h =
      IsSorted-partition (stored_le store) (λ x. leb (store x) last) (λ x y a b. ground arith)
        undated h
      ∙ ap (λ ys. filter (λ x. leb (store x) last) undated ++ ys)
          (filter-eq (λ x. not (leb (store x) last)) (λ x. ltb last (store x)) undated
            (All-of (λ x. not (leb (store x) last) ≡ ltb last (store x)) (λ x. ground arith)
              undated))
