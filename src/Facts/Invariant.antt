-- ===== src/Facts/Invariant.antt =====
-- The invariant of the `facts` table (src/mark/store/_sqlite/facts.py and facts_multi.py): ids
-- are unique, and in every timeline each single-valued row ends where the next begins.
use mark_sdk.Prelude.{
  ℕ, ◌≡◌, refl, sym, ap, subst, Bool, true, false, Option, List, [], ◌∷◌, arith, inl, inr,
  Bool-cases, eq_sound, &&-eq-true, filter, any, All, All-map, All-of, sort_by,
}
use mark_sdk.Facts.Table.{
  Row, Table, Timeline, same_timeline, single, before, chain_rows, set_valid_to, set_retracted,
  update_each, ids_of, HasUniqueIds,
}
use mark_sdk.Facts.Select.{rechain_facts, rechain_each}
use mark_sdk.Facts.Update.{Misses, filter-update_each_of_Misses}
use mark_sdk.Facts.Chain.{
  IsChained, rechain_facts-IsChained, chain_rows-rechain_facts, rechain_facts-HasUniqueIds, Chained,
  selected-Misses,
}

pub record IsValid (t : Table) : Type 0 where
  pub unique : HasUniqueIds t
  pub chained : (k : Timeline) → IsChained k t

-- The chains of all timelines but those listed.
abbrev pub ChainedOutside : List Timeline → Table → Type 0
ChainedOutside ks t = (j : Timeline) → any (λ k. same_timeline k j) ks ≡ false → IsChained j t

same_timeline-eq : (k j : Timeline) → same_timeline k j ≡ true → k ≡ j
same_timeline-eq k j h =
    let both = &&-eq-true _ _ h in
    let rest = &&-eq-true _ _ both.1 in
    λ i. record {
      agent_id = eq_sound k.agent_id j.agent_id both.0 i;
      subject_key = eq_sound k.subject_key j.subject_key rest.0 i;
      attribute_key = eq_sound k.attribute_key j.attribute_key rest.1 i;
    }

-- Re-chaining a timeline takes it off the list.
rechain_facts-ChainedOutside :
    (k : Timeline) (ks : List Timeline) (t : Table)
    → HasUniqueIds t
    → ChainedOutside (k ∷ ks) t
    → ChainedOutside ks (rechain_facts k t)
rechain_facts-ChainedOutside k ks t u h j out = elim (Bool-cases (same_timeline k j)) [
  | inl e ↦
      subst (λ l. IsChained l (rechain_facts k t)) (same_timeline-eq k j e)
        (rechain_facts-IsChained k t u)
  | inr e ↦ subst Chained (sym (chain_rows-rechain_facts k j t e u)) (h j (rw (e, out)))
]

pub rechain_each-IsValid :
    (ks : List Timeline) (t : Table)
    → HasUniqueIds t
    → ChainedOutside ks t
    → IsValid (rechain_each ks t)
unfolding rechain_each
rechain_each-IsValid [] t u h = record { unique = u; chained = λ j. h j refl }
rechain_each-IsValid (k ∷ ks) t u h =
    rechain_each-IsValid ks (rechain_facts k t) (rechain_facts-HasUniqueIds k t u)
      (rechain_facts-ChainedOutside k ks t u h)

pub id-set_valid_to : (end : Option ℕ) (r : Row) → (set_valid_to end r).id ≡ r.id
unfolding set_valid_to
id-set_valid_to end r = refl

pub id-set_retracted : (now : ℕ) (r : Row) → (set_retracted now r).id ≡ r.id
unfolding set_retracted
id-set_retracted now r = refl

pub single-set_retracted :
    (j : Timeline) (now : ℕ) (r : Row) → single j (set_retracted now r) ≡ false
unfolding single set_retracted
single-set_retracted j now r = ground arith

single-set_valid_to :
    (j : Timeline) (end : Option ℕ) (r : Row)
    → single j r ≡ false
    → single j (set_valid_to end r) ≡ false
unfolding single set_valid_to
single-set_valid_to j end r h = h

-- Ending or retracting rows that are not single-valued rows of `j` leaves its chain.
pub chain_rows-end :
    (j : Timeline) (q : Row → Bool) (end : Option ℕ) (t : Table)
    → HasUniqueIds t
    → ((r : Row) → q r ≡ true → single j r ≡ false)
    → chain_rows j (update_each (ids_of (filter q t)) (set_valid_to end) t) ≡ chain_rows j t
chain_rows-end j q end t u off = ap (sort_by before) (
    filter-update_each_of_Misses (set_valid_to end) (id-set_valid_to end) (single j)
      (single-set_valid_to j end) (ids_of (filter q t)) t
      (All-map (λ r. r.id) (Misses (single j) t) (filter q t)
        (selected-Misses q (single j) t (All-of (λ r. q r ≡ true → single j r ≡ false) off t) u)))

pub chain_rows-retract :
    (j : Timeline) (now : ℕ) (rows : List Row) (t : Table)
    → All (λ r. Misses (single j) t r.id) rows
    → chain_rows j (update_each (ids_of rows) (set_retracted now) t) ≡ chain_rows j t
chain_rows-retract j now rows t h = ap (sort_by before) (
    filter-update_each_of_Misses (set_retracted now) (id-set_retracted now) (single j)
      (λ r _. single-set_retracted j now r) (ids_of rows) t
      (All-map (λ r. r.id) (Misses (single j) t) rows h))

pub single_of_multi : (j : Timeline) (r : Row) → r.multi_valued ≡ true → single j r ≡ false
unfolding single
single_of_multi j r h = ground arith
