-- ===== src/Facts/AsOf.antt =====
-- What the reads of src/mark/store/_sqlite/facts.py return on a valid table.
use mark_sdk.Prelude.{
  text_lt, ℕ, ◌≤◌, String, ◌≡◌, refl, sym, ap, ◌∙◌, Bool, true, false, Option, none, some, List, [],
  ◌∷◌, map, arith, ◌&&◌, ltb, leb, is_none, inl, inr, if◌then◌else◌, Bool-cases, Option-cases,
  eq_iff, All-of, sort_by-eq, &&-eq-true, All-filter_self, ◌==◌, filter, filter-eq, filter-filter,
  All, All-imp, sort_by, IsSorted, sort_by-IsSorted, filter-sort_by, sort_by-eq-nil, sort_by-eq-one,
}
use mathlib.Core.Option
use mark_sdk.Facts.Table.{Row, Table, Timeline, on_timeline, single, before, chain_rows, covers}
use mark_sdk.Facts.Select.{wanted, key_is, by_keys}
use mark_sdk.Facts.Ops.{Codec, row_to_fact, fact_current, fact_as_of}
use mark_sdk.Facts.Chain.{Chained}
use mark_sdk.Facts.Invariant.{IsValid}

-- The last row of a history that has started.
unfoldable pub latest_started : ℕ → List Row → Option Row
latest_started stamp [] = none
latest_started stamp (r ∷ rs) = elim (latest_started stamp rs) [
  | some later ↦ some later
  | none ↦ if leb r.valid_from stamp then some r else none
]

abbrev pub to_list {ℓ} : {A : Type ℓ} → Option A → List A
to_list none = []
to_list (some a) = a ∷ []

pub before_total : (r s : Row) → before r s ≡ false → before s r ≡ true
unfolding before
before_total r s h = ground arith

pub before_trans : (r s u : Row) → before r s ≡ true → before s u ≡ true → before r u ≡ true
unfolding before
before_trans r s u h k = ground arith

pub before-le : (r s : Row) → before r s ≡ true → r.valid_from ≤ s.valid_from
unfolding before
before-le r s h = ground arith

-- A row that starts after the time has no row behind it that has started.
none_started :
    (stamp : ℕ) (r : Row) (rs : List Row)
    → leb r.valid_from stamp ≡ false
    → All (λ s. before r s ≡ true) rs
    → (filter (covers stamp) rs ≡ []) × (latest_started stamp rs ≡ none)
unfolding covers latest_started
none_started stamp r [] h k = (refl, refl)
none_started stamp r (s ∷ rs) h k =
    let (nothing, late) = none_started stamp r rs h k.1 in
    let late_s : leb s.valid_from stamp ≡ false = ground (arith, before-le r s k.0) in
    (rw (late_s, nothing), rw (late, late_s))

some_started :
    (stamp : ℕ) (s : Row) (rs : List Row)
    → leb s.valid_from stamp ≡ true
    → (x : Row) × (latest_started stamp (s ∷ rs) ≡ some x)
unfolding latest_started
some_started stamp s rs h = elim (Option-cases (latest_started stamp rs)) [
  | inl e ↦ (s, rw (e, h))
  | inr (x, e) ↦ (x, rw e)
]

covers_last : (stamp : ℕ) (r : Row) → r.valid_to ≡ none → covers stamp r ≡ leb r.valid_from stamp
unfolding covers
covers_last stamp r h = ground arith

covers_ended :
    (stamp : ℕ) (r : Row) {end : ℕ}
    → r.valid_to ≡ some end
    → covers stamp r ≡ (leb r.valid_from stamp && ltb stamp end)
unfolding covers
covers_ended stamp r h = ground arith

-- The two lists of one row, by whether it has started.
one_row :
    (stamp : ℕ) (r : Row)
    → (if leb r.valid_from stamp then r ∷ [] else [])
      ≡ to_list (if leb r.valid_from stamp then some r else none)
one_row stamp r = elim (Bool-cases (leb r.valid_from stamp)) [ inl e ↦ rw e | inr e ↦ rw e ]

after_start :
    (stamp : ℕ) (r x : Row) (rs : List Row)
    → covers stamp r ≡ false
    → filter (covers stamp) rs ≡ to_list (latest_started stamp rs)
    → latest_started stamp rs ≡ some x
    → filter (covers stamp) (r ∷ rs) ≡ to_list (latest_started stamp (r ∷ rs))
unfolding latest_started
after_start stamp r x rs ended rest found = rw (ended, found) (rest ∙ ap to_list found)

before_start :
    (stamp : ℕ) (r : Row) (rs : List Row)
    → covers stamp r ≡ leb r.valid_from stamp
    → (filter (covers stamp) rs ≡ []) × (latest_started stamp rs ≡ none)
    → filter (covers stamp) (r ∷ rs) ≡ to_list (latest_started stamp (r ∷ rs))
unfolding latest_started
before_start stamp r rs c h = rw (c, h.0, h.1) (one_row stamp r)

covers-unstarted : (stamp : ℕ) (r : Row) → leb r.valid_from stamp ≡ false → covers stamp r ≡ false
unfolding covers
covers-unstarted stamp r h = rw h

-- In a gapless history exactly one row covers a time, the last one that has started.
filter-covers :
    (stamp : ℕ) (rs : List Row)
    → IsSorted before rs
    → Chained rs
    → filter (covers stamp) rs ≡ to_list (latest_started stamp rs)
filter-covers stamp [] h k = unfold latest_started in refl
filter-covers stamp (r ∷ []) h k =
    before_start stamp r [] (covers_last stamp r k.0) (refl, unfold latest_started in refl)
filter-covers stamp (r ∷ s ∷ rs) h k = elim (Bool-cases (leb s.valid_from stamp)) [
  | inl e ↦
      let (x, found) = some_started stamp s rs e in
      after_start stamp r x (s ∷ rs) (covers_ended stamp r k.0 ∙ ground arith)
        (filter-covers stamp (s ∷ rs) h.1 k.1) found
  | inr e ↦
      let (nothing, late) = none_started stamp s rs e h.1.0 in
      before_start stamp r (s ∷ rs) (covers_ended stamp r k.0 ∙ ground arith)
        (rw (covers-unstarted stamp s e) nothing, unfold latest_started in rw (late, e))
]

-- The timeline has no added values, only values that `fact_set` wrote.
abbrev pub HasNoAdded : Timeline → Table → Type 0
HasNoAdded k t = All (λ r. on_timeline k r ≡ true → r.multi_valued ≡ false) t

live_row :
    (k : Timeline) (stamp : ℕ) (r : Row)
    → (on_timeline k r ≡ true → r.multi_valued ≡ false)
    → (on_timeline k r && (is_none r.retracted_at && covers stamp r))
      ≡ (single k r && covers stamp r)
unfolding single
live_row k stamp r plain = elim (Bool-cases (on_timeline k r)) [
  | inl e ↦ let single_valued = plain e in ground arith
  | inr e ↦ rw e
]

module _ (k : Timeline) (t : Table) (v : IsValid t) (plain : HasNoAdded k t) (stamp : ℕ) where
  live_rows :
      filter (λ r. on_timeline k r && (is_none r.retracted_at && covers stamp r)) t
      ≡ filter (covers stamp) (filter (single k) t)
  live_rows =
      filter-eq (λ r. on_timeline k r && (is_none r.retracted_at && covers stamp r))
        (λ r. single k r && covers stamp r) t
        (All-imp (λ r. on_timeline k r ≡ true → r.multi_valued ≡ false)
          (λ r.
            (on_timeline k r && (is_none r.retracted_at && covers stamp r))
            ≡ (single k r && covers stamp r))
          (live_row k stamp) t plain)
      ∙ sym (filter-filter (covers stamp) (single k) t)

  rows_at :
      sort_by before (filter (λ r. on_timeline k r && (is_none r.retracted_at && covers stamp r)) t)
      ≡ to_list (latest_started stamp (chain_rows k t))
  rows_at =
      ap (sort_by before) live_rows
      ∙ sym (filter-sort_by before before_total before_trans (covers stamp) (filter (single k) t))
      ∙ filter-covers stamp (chain_rows k t)
          (sort_by-IsSorted before before_total before_trans (filter (single k) t)) (v.chained k)

wanted-row :
    (k : Timeline) (now : ℕ) (r : Row)
    → (wanted k.agent_id (some k.subject_key) (some k.attribute_key) r && covers now r)
      ≡ (on_timeline k r && (is_none r.retracted_at && covers now r))
unfolding wanted key_is on_timeline
wanted-row k now r =
    regroup (r.agent_id == k.agent_id) (is_none r.retracted_at) (r.subject_key == k.subject_key)
      (r.attribute_key == k.attribute_key) (covers now r)
  where
    regroup : (a n s t c : Bool) → (((a && n) && (s && t)) && c) ≡ ((a && (s && t)) && (n && c))
    regroup a n s t c = ground arith

text_lt_self : (a b : String) → (a == b) ≡ true → text_lt a b ≡ false
text_lt_self a b h = ground arith

by_keys-before :
    (k : Timeline) (r s : Row)
    → on_timeline k r ≡ true
    → on_timeline k s ≡ true
    → by_keys r s ≡ before r s
unfolding by_keys on_timeline
by_keys-before k r s h g = ground (
  arith,
  text_lt_self r.subject_key s.subject_key,
  text_lt_self r.attribute_key s.attribute_key,
  eq_iff r.subject_key k.subject_key,
  eq_iff s.subject_key k.subject_key,
  eq_iff r.subject_key s.subject_key,
  eq_iff r.attribute_key k.attribute_key,
  eq_iff s.attribute_key k.attribute_key,
  eq_iff r.attribute_key s.attribute_key,
)

-- On a valid table whose timeline has no added values, fact_current for that subject and attribute
-- is one fact, the last in the order of the timeline that has started, or none when none has.
pub fact_current-latest :
    (c : Codec) (k : Timeline) (now : ℕ) (t : Table)
    → IsValid t
    → HasNoAdded k t
    → fact_current c k.agent_id (some k.subject_key) (some k.attribute_key) now t
      ≡ map (row_to_fact c) (to_list (latest_started now (chain_rows k t)))
unfolding fact_current
fact_current-latest c k now t v plain =
    let live : Row → Bool = λ r. on_timeline k r && (is_none r.retracted_at && covers now r) in
    ap (map (row_to_fact c)) (
      ap (sort_by by_keys) (
        filter-eq
          (λ r. wanted k.agent_id (some k.subject_key) (some k.attribute_key) r && covers now r)
          live t
          (All-of
            (λ r.
              (wanted k.agent_id (some k.subject_key) (some k.attribute_key) r && covers now r)
              ≡ live r)
            (wanted-row k now) t))
      ∙ sort_by-eq by_keys before (λ r. on_timeline k r ≡ true) (by_keys-before k) (filter live t)
          (All-imp (λ r. live r ≡ true) (λ r. on_timeline k r ≡ true) (λ r e. (&&-eq-true _ _ e).0)
            (filter live t) (All-filter_self live t))
      ∙ rows_at k t v plain now)

as_of-cases :
    (c : Codec) (rows : List Row) (o : Option Row)
    → sort_by before rows ≡ to_list o
    → elim (sort_by (λ r s. leb s.valid_from r.valid_from) rows) [
      | [] ↦ none
      | r ∷ rs ↦ some (row_to_fact c r)
    ]
      ≡ Option.map (row_to_fact c) o
as_of-cases c rows none h = rw (sort_by-eq-nil before rows h)
as_of-cases c rows (some r) h = rw (sort_by-eq-one before r rows h)

-- On a valid table whose timeline has no added values, fact_as_of returns the last row in the
-- order of the timeline that had started by the asked time, and None exactly when none had.
pub fact_as_of-latest :
    (c : Codec) (k : Timeline) (stamp : ℕ) (t : Table)
    → IsValid t
    → HasNoAdded k t
    → fact_as_of c k stamp t ≡ Option.map (row_to_fact c) (latest_started stamp (chain_rows k t))
unfolding fact_as_of
fact_as_of-latest c k stamp t v plain =
    as_of-cases c (filter (λ r. on_timeline k r && (is_none r.retracted_at && covers stamp r)) t)
      (latest_started stamp (chain_rows k t)) (rows_at k t v plain stamp)
