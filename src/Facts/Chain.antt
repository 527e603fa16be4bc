-- ===== src/Facts/Chain.antt =====
-- What `_rechain_facts` (src/mark/store/_sqlite/facts.py) does to the rows of its timeline and to
-- the other timelines.
use mark_sdk.Prelude.{
  ℕ, String, ◌≡◌, refl, sym, ap, subst, ◌∙◌, Bool, true, false, Option, List, [], ◌∷◌, arith, ◌==◌,
  eq_refl, inl, inr, if◌then◌else◌, Bool-cases, eq_false_sym, eq_of_eq_true, &&-eq-true, filter,
  All, All-imp, All-imp₂, All-of, sort_by, sort_by-map, HasUniqueKeys-filter, HasUniqueKeys-sort_by,
  All-filter_keys, All-sort_by,
}
use mark_sdk.Facts.Table.{
  Row, Table, Timeline, same_timeline, on_timeline, single, before, chain_rows, update,
  set_valid_to, HasUniqueIds,
}
use mark_sdk.Facts.Select.{next_start, chain_updates, apply_updates, rechain_facts}
use mark_sdk.Facts.Update.{
  update-HasUniqueIds, Misses, filter-update_of_Misses, filter-update, Misses-update,
}

-- Each row ends where the next begins, and the last one is open.
abbrev pub Chained : List Row → Type 0
Chained [] = Unit
Chained (r ∷ rs) = (r.valid_to ≡ next_start rs) × Chained rs

-- The single-valued history of a timeline has no gap and no overlap.
abbrev pub IsChained : Timeline → Table → Type 0
IsChained k t = Chained (chain_rows k t)

id-set_valid_to : (end : Option ℕ) (r : Row) → (set_valid_to end r).id ≡ r.id
unfolding set_valid_to
id-set_valid_to end r = refl

single-set_valid_to :
    (k : Timeline) (end : Option ℕ) (r : Row) → single k (set_valid_to end r) ≡ single k r
unfolding single set_valid_to
single-set_valid_to k end r = refl

set_row : String → Option ℕ → Row → Row
set_row i end r = if r.id == i then set_valid_to end r else r

before-set_row :
    (i : String) (end : Option ℕ) (r s : Row)
    → before (set_row i end r) (set_row i end s) ≡ before r s
unfolding before set_row set_valid_to
before-set_row i end r s = elim (Bool-cases (r.id == i)) [
  | inl e ↦ elim (Bool-cases (s.id == i)) [ inl d ↦ rw (e, d) | inr d ↦ rw (e, d) ]
  | inr e ↦ elim (Bool-cases (s.id == i)) [ inl d ↦ rw (e, d) | inr d ↦ rw (e, d) ]
]

chain_rows-update :
    (k : Timeline) (i : String) (end : Option ℕ) (t : Table)
    → chain_rows k (update i (set_valid_to end) t) ≡ update i (set_valid_to end) (chain_rows k t)
unfolding update set_row
chain_rows-update k i end t =
    ap (sort_by before)
      (filter-update (set_valid_to end) (single k) (single-set_valid_to k end) i t)
    ∙ sort_by-map before (set_row i end) (before-set_row i end) (filter (single k) t)

chain_rows-apply_updates :
    (k : Timeline) (us : List (String × Option ℕ)) (t : Table)
    → chain_rows k (apply_updates us t) ≡ apply_updates us (chain_rows k t)
unfolding apply_updates
chain_rows-apply_updates k [] t = refl
chain_rows-apply_updates k ((i, end) ∷ us) t =
    chain_rows-apply_updates k us (update i (set_valid_to end) t)
    ∙ ap (apply_updates us) (chain_rows-update k i end t)

-- Updates by other ids leave the first row alone.
apply_updates-cons :
    (r : Row) (us : List (String × Option ℕ)) (t : Table)
    → All (λ u. (r.id == u.0) ≡ false) us
    → apply_updates us (r ∷ t) ≡ r ∷ apply_updates us t
unfolding apply_updates update
apply_updates-cons r [] t h = refl
apply_updates-cons r ((i, end) ∷ us) t h = rw h.0 (apply_updates-cons r us _ h.1)

All-chain_updates :
    (P : String → Type 0) (rs : List Row)
    → All (λ r. P r.id) rs
    → All (λ u. P u.0) (chain_updates rs)
unfolding chain_updates
All-chain_updates P [] h = tt
All-chain_updates P (r ∷ rs) h = (h.0, All-chain_updates P rs h.1)

update-fresh :
    (i : String) (end : Option ℕ) (t : Table)
    → All (λ r. (r.id == i) ≡ false) t
    → update i (set_valid_to end) t ≡ t
unfolding update
update-fresh i end [] h = refl
update-fresh i end (r ∷ t) h = rw (h.0, update-fresh i end t h.1)

link : List Row → List Row
link [] = []
link (r ∷ rs) = set_valid_to (next_start rs) r ∷ link rs

next_start-link : (rs : List Row) → next_start (link rs) ≡ next_start rs
unfolding link set_valid_to
next_start-link [] = refl
next_start-link (r ∷ rs) = refl

link-Chained : (rs : List Row) → Chained (link rs)
unfolding link set_valid_to
link-Chained [] = tt
link-Chained (r ∷ rs) = (rw next_start-link, link-Chained rs)

update-head :
    (end : Option ℕ) (r : Row) (rs : List Row)
    → All (λ s. (s.id == r.id) ≡ false) rs
    → update r.id (set_valid_to end) (r ∷ rs) ≡ set_valid_to end r ∷ rs
unfolding update
update-head end r rs h = rw eq_refl (ap (◌∷◌ (set_valid_to end r)) (update-fresh r.id end rs h))

apply-chain_updates :
    (rs : List Row) → HasUniqueIds rs → apply_updates (chain_updates rs) rs ≡ link rs
unfolding apply_updates chain_updates link
apply-chain_updates [] h = refl
apply-chain_updates (r ∷ rs) h =
    ap (apply_updates (chain_updates rs)) (update-head (next_start rs) r rs h.0)
    ∙ apply_updates-cons (set_valid_to (next_start rs) r) (chain_updates rs) rs (
        rw id-set_valid_to (
          All-chain_updates (λ i. (r.id == i) ≡ false) rs
            (All-imp (λ s. (s.id == r.id) ≡ false) (λ s. (r.id == s.id) ≡ false)
              (λ s. eq_false_sym s.id r.id) rs h.0)))
    ∙ ap (◌∷◌ (set_valid_to (next_start rs) r)) (apply-chain_updates rs h.1)

-- Re-chaining makes the history of its timeline gapless.
pub rechain_facts-IsChained :
    (k : Timeline) (t : Table) → HasUniqueIds t → IsChained k (rechain_facts k t)
unfolding rechain_facts
rechain_facts-IsChained k t h =
    subst Chained
      (sym (
        chain_rows-apply_updates k (chain_updates (chain_rows k t)) t
        ∙ apply-chain_updates (chain_rows k t) (
            HasUniqueKeys-sort_by (λ r. r.id) before (filter (single k) t)
              (HasUniqueKeys-filter (λ r. r.id) (single k) t h))))
      (link-Chained (chain_rows k t))

pub on_timeline-disjoint :
    (k j : Timeline) (r : Row)
    → same_timeline k j ≡ false
    → on_timeline k r ≡ true
    → on_timeline j r ≡ false
unfolding on_timeline
on_timeline-disjoint k j r h e = ground (
  arith,
  eq_of_eq_true r.agent_id k.agent_id j.agent_id,
  eq_of_eq_true r.subject_key k.subject_key j.subject_key,
  eq_of_eq_true r.attribute_key k.attribute_key j.attribute_key,
)

pub single_of_off : (k : Timeline) (r : Row) → on_timeline k r ≡ false → single k r ≡ false
unfolding single
single_of_off k r h = rw h

pub on_of_single : (k : Timeline) (r : Row) → single k r ≡ true → on_timeline k r ≡ true
unfolding single
on_of_single k r h = (&&-eq-true _ _ h).0

single-stays :
    (j : Timeline) (end : Option ℕ) (r : Row)
    → single j r ≡ false
    → single j (set_valid_to end r) ≡ false
single-stays j end r h = rw single-set_valid_to h

filter-apply_updates_of_Misses :
    (j : Timeline) (us : List (String × Option ℕ)) (t : Table)
    → All (λ u. Misses (single j) t u.0) us
    → filter (single j) (apply_updates us t) ≡ filter (single j) t
unfolding apply_updates
filter-apply_updates_of_Misses j [] t h = refl
filter-apply_updates_of_Misses j ((i, end) ∷ us) t h =
    filter-apply_updates_of_Misses j us (update i (set_valid_to end) t) (
      All-imp (λ u. Misses (single j) t u.0)
        (λ u. Misses (single j) (update i (set_valid_to end) t) u.0)
        (λ u.
          Misses-update (set_valid_to end) (id-set_valid_to end) (single j) (single-stays j end) i t
            u.0)
        us h.1)
    ∙ filter-update_of_Misses (set_valid_to end) (id-set_valid_to end) (single j)
        (single-stays j end) i t h.0

-- The ids that one selection gives are not those of rows of another that is disjoint from it.
pub selected-Misses :
    (q p : Row → Bool) (t : Table)
    → All (λ r. q r ≡ true → p r ≡ false) t
    → HasUniqueIds t
    → All (λ x. Misses p t x.id) (filter q t)
selected-Misses q p t disjoint h =
    All-imp (λ x. All (λ y. (y.id == x.id) ≡ true → q y ≡ true) t) (λ x. Misses p t x.id)
      (λ x.
        All-imp₂ (λ y. q y ≡ true → p y ≡ false) (λ y. (y.id == x.id) ≡ true → q y ≡ true)
          (λ y. (y.id == x.id) ≡ true → p y ≡ false) (λ y d f e. d (f e)) t disjoint)
      (filter q t) (All-filter_keys (λ r. r.id) q t h)

-- Re-chaining one timeline leaves the rows of every other one as they were.
pub chain_rows-rechain_facts :
    (k j : Timeline) (t : Table)
    → same_timeline k j ≡ false
    → HasUniqueIds t
    → chain_rows j (rechain_facts k t) ≡ chain_rows j t
unfolding rechain_facts
chain_rows-rechain_facts k j t other h = ap (sort_by before) (
    filter-apply_updates_of_Misses j (chain_updates (chain_rows k t)) t (
      All-chain_updates (Misses (single j) t) (chain_rows k t) (
        All-sort_by before (λ x. Misses (single j) t x.id) (filter (single k) t)
          (selected-Misses (single k) (single j) t
            (All-of (λ r. single k r ≡ true → single j r ≡ false)
              (λ r e. single_of_off j r (on_timeline-disjoint k j r other (on_of_single k r e))) t)
            h))))

apply_updates-HasUniqueIds :
    (us : List (String × Option ℕ)) (t : Table) → HasUniqueIds t → HasUniqueIds (apply_updates us t)
unfolding apply_updates
apply_updates-HasUniqueIds [] t h = h
apply_updates-HasUniqueIds ((i, end) ∷ us) t h =
    apply_updates-HasUniqueIds us (update i (set_valid_to end) t)
      (update-HasUniqueIds (set_valid_to end) (id-set_valid_to end) i t h)

pub rechain_facts-HasUniqueIds :
    (k : Timeline) (t : Table) → HasUniqueIds t → HasUniqueIds (rechain_facts k t)
unfolding rechain_facts
rechain_facts-HasUniqueIds k t h = apply_updates-HasUniqueIds (chain_updates (chain_rows k t)) t h
