-- ===== src/Facts/Table.antt =====
-- The `facts` table of src/mark/store/_sqlite/facts.py: its rows in rowid order, the predicates of
-- its SQL statements, and UPDATE by id. Times are UTC instants as numbers: the store writes them
-- as UTC ISO texts, whose text order is the order of time. `subject`, `attribute` (the texts as
-- typed) and the metadata other than the multi-valued flag are display data, and are left out.
use mark_sdk.Prelude.{
  ℕ, String, Bool, true, not, Option, none, some, List, [], ◌∷◌, map, ◌&&◌, ◌||◌, ◌==◌, ltb, leb,
  nat_eq, is_none, if◌then◌else◌, filter, sort_by, HasUniqueKeys,
}

pub record Row : Type 0 where
  pub id : String
  pub agent_id : String
  pub subject_key : String
  pub attribute_key : String
  pub value : String
  pub valid_from : ℕ
  pub valid_to : Option ℕ
  pub recorded_at : ℕ
  pub retracted_at : Option ℕ
  pub source_fragment_id : Option String
  pub multi_valued : Bool

abbrev pub Table : Type 0
Table = List Row

-- One (agent, subject, attribute), with the keys that `_fact_key` gives.
pub record Timeline : Type 0 where
  pub agent_id : String
  pub subject_key : String
  pub attribute_key : String

abbrev pub same_timeline : Timeline → Timeline → Bool
same_timeline k j =
    (k.agent_id == j.agent_id)
    && ((k.subject_key == j.subject_key) && (k.attribute_key == j.attribute_key))

-- WHERE agent_id = ? AND subject_key = ? AND attribute_key = ?
unfoldable pub on_timeline : Timeline → Row → Bool
on_timeline k r =
    (r.agent_id == k.agent_id)
    && ((r.subject_key == k.subject_key) && (r.attribute_key == k.attribute_key))

-- AND retracted_at IS NULL, for the rows that are not multi-valued
unfoldable pub single : Timeline → Row → Bool
unfolding on_timeline
single k r = on_timeline k r && (is_none r.retracted_at && not r.multi_valued)

-- ORDER BY valid_from, recorded_at, rowid
unfoldable pub before : Row → Row → Bool
before r s =
    ltb r.valid_from s.valid_from
    || (nat_eq r.valid_from s.valid_from && leb r.recorded_at s.recorded_at)

-- The single-valued rows of a timeline, in order.
abbrev pub chain_rows : Timeline → Table → List Row
chain_rows k t = sort_by before (filter (single k) t)

-- valid_to IS NULL OR valid_to > ?
unfoldable pub open_at : ℕ → Row → Bool
open_at stamp r = elim r.valid_to [ none ↦ true | some end ↦ ltb stamp end ]

-- valid_from <= ? AND (valid_to IS NULL OR valid_to > ?)
unfoldable pub covers : ℕ → Row → Bool
unfolding open_at
covers stamp r = leb r.valid_from stamp && open_at stamp r

-- UPDATE facts SET ... WHERE id = ?
unfoldable pub update : String → (Row → Row) → Table → Table
update id f = map (λ r. if r.id == id then f r else r)

unfoldable pub set_valid_to : Option ℕ → Row → Row
set_valid_to end r = record r { valid_to = end }

unfoldable pub set_retracted : ℕ → Row → Row
set_retracted now r = record r { retracted_at = some now }

-- The same UPDATE for each of the selected ids.
unfoldable pub update_each : List String → (Row → Row) → Table → Table
update_each [] f t = t
update_each (id ∷ ids) f t = update_each ids f (update id f t)

abbrev pub ids_of : List Row → List String
ids_of = map (λ r. r.id)

abbrev pub HasUniqueIds : Table → Type 0
HasUniqueIds = HasUniqueKeys (λ r. r.id)
