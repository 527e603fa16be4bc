-- ===== src/Timeline/Latest.antt =====
-- `Timeline.latest` on a built timeline (src/mark/memory/timeline.py and timeline_build.py).
use mark_sdk.Prelude.{
  ℕ, ◌-◌, ◌≢◌, zero, suc, ◌≡◌, sym, subst, Bool, true, false, Option, none, some, List, [], ◌∷◌,
  ◌++◌, map, ltb, filter, length, drop, get_last?, inl, inr, arith, Bool-cases, Option-cases,
  IsSorted, sort_by-IsSorted, All, All-filter, All-filter_self, All-of_filter, All-get_last?,
  some_eq,
}
use mark_sdk.Timeline.Order.{Basis, two_clock_order}
use mark_sdk.Timeline.Clocks.{two_clock_le, key_le, two_clock_le-total, two_clock_le_trans}
use mark_sdk.Timeline.Placed.{fst-two_clock_order}
use mark_sdk.Timeline.Events.{
  Mention, HistoryFact, Candidate, TimelineEvent, SubjectTimeline, candidates_of, time_of,
  label_same_day, is_within, trim, build_timeline, is_known, latest,
}

module _ {ℓ} {A : Type ℓ} (le : A → A → Bool) where
  IsSorted-filter : (p : A → Bool) (xs : List A) → IsSorted le xs → IsSorted le (filter p xs)
  IsSorted-filter p [] h = tt
  IsSorted-filter p (x ∷ xs) h = elim (Bool-cases (p x)) [
    | inl e ↦ rw e (All-filter (λ y. le x y ≡ true) p xs h.0, IsSorted-filter p xs h.1)
    | inr e ↦ rw e (IsSorted-filter p xs h.1)
  ]

  IsSorted-drop : (n : ℕ) (xs : List A) → IsSorted le xs → IsSorted le (drop n xs)
  IsSorted-drop zero xs h = h
  IsSorted-drop (suc n) [] h = tt
  IsSorted-drop (suc n) (x ∷ xs) h = IsSorted-drop n xs h.1

  module _ (reflexive : (x : A) → le x x ≡ true) where
    IsSorted-get_last? :
        (xs : List A) (e : A) → IsSorted le xs → get_last? xs ≡ some e → All (λ x. le x e ≡ true) xs
    IsSorted-get_last? [] e h k = tt
    IsSorted-get_last? (x ∷ []) e h k =
        (subst (λ y. le x y ≡ true) (some_eq x e k) (reflexive x), tt)
    IsSorted-get_last? (x ∷ y ∷ ys) e h k =
        (All-get_last? (λ z. le x z ≡ true) (y ∷ ys) e h.0 k, IsSorted-get_last? (y ∷ ys) e h.1 k)

-- The order of the events.
unfoldable pub event_le : TimelineEvent → TimelineEvent → Bool
event_le e f = two_clock_le time_of (λ c. c.stored_at) e.keywords f.keywords

key_le_refl : (m : Option ℕ) (s : ℕ) → key_le m s m s ≡ true
unfolding key_le
key_le_refl none s = ground arith
key_le_refl (some a) s = ground arith

event_le_refl : (e : TimelineEvent) → event_le e e ≡ true
unfolding event_le two_clock_le
event_le_refl e = key_le_refl (time_of e.keywords) e.keywords.stored_at

module _ (le : Candidate → Candidate → Bool) where
  All-label_same_day :
      (P : Candidate → Type 0) (earlier xs : List (Candidate × Basis))
      → All P (map (λ x. x.0) xs)
      → All (λ e. P e.keywords) (label_same_day earlier xs)
  unfolding label_same_day
  All-label_same_day P earlier [] h = tt
  All-label_same_day P earlier ((c, basis) ∷ xs) h =
      (h.0, All-label_same_day P (earlier ++ (c, basis) ∷ []) xs h.1)

  IsSorted-label_same_day :
      (earlier xs : List (Candidate × Basis))
      → IsSorted le (map (λ x. x.0) xs)
      → IsSorted (λ e f. le e.keywords f.keywords) (label_same_day earlier xs)
  unfolding label_same_day
  IsSorted-label_same_day earlier [] h = tt
  IsSorted-label_same_day earlier ((c, basis) ∷ xs) h = (
    All-label_same_day (λ d. le c d ≡ true) (earlier ++ (c, basis) ∷ []) xs h.0,
    IsSorted-label_same_day (earlier ++ (c, basis) ∷ []) xs h.1,
  )

IsSorted-two_clock_order :
    (cs : List Candidate)
    → IsSorted
        (two_clock_le time_of (λ c. c.stored_at))
        (map (λ x. x.0) (two_clock_order time_of (λ c. c.stored_at) cs))
IsSorted-two_clock_order cs =
    let le : Candidate → Candidate → Bool = two_clock_le time_of (λ c. c.stored_at) in
    subst (IsSorted le) (sym (fst-two_clock_order time_of (λ c. c.stored_at) cs)) (
      sort_by-IsSorted le (two_clock_le-total time_of (λ c. c.stored_at))
        (two_clock_le_trans time_of (λ c. c.stored_at)) cs)

-- What `latest` answers: no event whose place is known, or one that no such event is after.
unfoldable pub IsLatest : List TimelineEvent → Option TimelineEvent → Type 0
IsLatest events none = All (λ x. is_known x ≡ false) events
IsLatest events (some e) =
    (is_known e ≡ true) × All (λ x. is_known x ≡ true → event_le x e ≡ true) events

get_last?-ne_none {ℓ} : {A : Type ℓ} (x : A) (xs : List A) → get_last? (x ∷ xs) ≢ none
get_last?-ne_none x [] h = cc
get_last?-ne_none x (y ∷ ys) h = get_last?-ne_none y ys h

none_known {ℓ} :
    {A : Type ℓ} (p : A → Bool) (xs : List A)
    → get_last? (filter p xs) ≡ none
    → All (λ x. p x ≡ false) xs
none_known p [] h = tt
none_known p (x ∷ xs) h = elim (Bool-cases (p x)) [
  | inl e ↦ absurd (get_last?-ne_none x (filter p xs) (rw e at h))
  | inr e ↦ (e, none_known p xs (rw e at h))
]

latest-sorted : (t : SubjectTimeline) → IsSorted event_le t.events → IsLatest t.events (latest t)
unfolding IsLatest latest
latest-sorted t h = elim (Option-cases (get_last? (filter is_known t.events))) [
  | inl n ↦ rw n (none_known is_known t.events n)
  | inr (e, found) ↦ rw found (
    All-get_last? (λ x. is_known x ≡ true) (filter is_known t.events) e
        (All-filter_self is_known t.events) found,
    All-of_filter (λ x. event_le x e ≡ true) is_known t.events
        (IsSorted-get_last? event_le event_le_refl (filter is_known t.events) e
          (IsSorted-filter event_le is_known t.events h) found),
  )
]

trim-IsSorted :
    (limit : Option ℕ) (es : List TimelineEvent)
    → IsSorted event_le es
    → IsSorted event_le (trim limit es).events
unfolding trim
trim-IsSorted none es h = h
trim-IsSorted (some n) es h = elim (Bool-cases (ltb n (length es))) [
  | inl y ↦ rw y (IsSorted-drop event_le (length es - n) es h)
  | inr k ↦ rw k h
]

-- For any memories, facts, limit and bounds, latest of the built timeline is None only if every
-- event is of basis unknown; else it is an event of another basis that no event of another basis
-- comes after in the two-clock order.
pub latest-build_timeline :
    (memories : List Mention) (facts : List HistoryFact) (limit low high : Option ℕ)
    → IsLatest
        (build_timeline memories facts limit low high).events
        (latest (build_timeline memories facts limit low high))
unfolding build_timeline event_le
latest-build_timeline memories facts limit low high =
    latest-sorted (build_timeline memories facts limit low high) (
      trim-IsSorted limit _ (
        IsSorted-filter event_le (is_within low high) _ (
          IsSorted-label_same_day (two_clock_le time_of (λ c. c.stored_at)) []
            (two_clock_order time_of (λ c. c.stored_at) (candidates_of memories facts))
            (IsSorted-two_clock_order (candidates_of memories facts)))))
