-- ===== src/Facts/Select.antt =====
-- The selections and the re-chaining that the methods of src/mark/store/_sqlite/facts.py and
-- facts_multi.py share.
use mark_sdk.Prelude.{
  ℕ, String, Bool, true, Option, none, some, List, [], ◌∷◌, ◌&&◌, ◌||◌, ◌==◌, leb, nat_eq, is_none,
  if◌then◌else◌, text_lt, filter, any, sort_by,
}
use mark_sdk.Facts.Table.{
  Row, Table, Timeline, on_timeline, single, before, chain_rows, open_at, covers, update,
  set_valid_to, set_retracted, update_each, ids_of,
}

-- rows[i + 1]["valid_from"] if i + 1 < len(rows) else None, for the rows after the i-th
abbrev pub next_start : List Row → Option ℕ
next_start [] = none
next_start (s ∷ rs) = some s.valid_from

-- each row ends where the next begins
unfoldable pub chain_updates : List Row → List (String × Option ℕ)
chain_updates [] = []
chain_updates (r ∷ rs) = (r.id, next_start rs) ∷ chain_updates rs

-- conn.executemany("UPDATE facts SET valid_to = ? WHERE id = ?", updates)
unfoldable pub apply_updates : List (String × Option ℕ) → Table → Table
apply_updates [] t = t
apply_updates ((id, end) ∷ us) t = apply_updates us (update id (set_valid_to end) t)

unfoldable pub rechain_facts : Timeline → Table → Table
rechain_facts k t = apply_updates (chain_updates (chain_rows k t)) t

-- The rows of the timeline that `fact_set` compares with: same start, not multi-valued.
unfoldable pub same_time_rows : Timeline → ℕ → Table → List Row
same_time_rows k valid_from t =
    sort_by (λ r s. leb r.recorded_at s.recorded_at)
      (filter (λ r. single k r && nat_eq r.valid_from valid_from) t)

-- The added values that began by then and are still open.
unfoldable pub ended_by_set : Timeline → ℕ → Table → List Row
ended_by_set k valid_from t =
    filter
      (λ r. (on_timeline k r && (is_none r.retracted_at && covers valid_from r)) && r.multi_valued)
      t

unfoldable pub retract_same_time : Timeline → ℕ → ℕ → Table → Table
retract_same_time k valid_from now t =
    update_each (ids_of (same_time_rows k valid_from t)) (set_retracted now) t

unfoldable pub is_blank_key : Timeline → Bool
is_blank_key k = (k.subject_key == "") || (k.attribute_key == "")

-- Rows of one timeline still open at the stamp, or starting later.
unfoldable pub open_rows : Timeline → ℕ → Table → List Row
open_rows k stamp t = filter (λ r. on_timeline k r && (is_none r.retracted_at && open_at stamp r)) t

-- `for attribute_key in {...}`: a set, here the list of its elements in some order
unfoldable pub rechain_each : List Timeline → Table → Table
rechain_each [] t = t
rechain_each (k ∷ ks) t = rechain_each ks (rechain_facts k t)

unfoldable pub distinct_keys : List Row → List String
distinct_keys [] = []
distinct_keys (r ∷ rs) =
    let rest = distinct_keys rs in
    if any (λ a. a == r.attribute_key) rest then rest else r.attribute_key ∷ rest

-- AND subject_key = ?, AND attribute_key = ?: only where the argument is given.
unfoldable pub key_is : Option String → String → Bool
key_is none key = true
key_is (some wanted_key) key = key == wanted_key

unfoldable pub wanted : String → Option String → Option String → Row → Bool
wanted agent_id subject_key attribute_key r =
    ((r.agent_id == agent_id) && is_none r.retracted_at)
    && (key_is subject_key r.subject_key && key_is attribute_key r.attribute_key)

-- Texts in the order of SQLite's BINARY collation.
unfoldable pub by_keys : Row → Row → Bool
by_keys r s =
    text_lt r.subject_key s.subject_key
    || ((r.subject_key == s.subject_key)
        && (text_lt r.attribute_key s.attribute_key
            || ((r.attribute_key == s.attribute_key) && before r s)))

-- Repeats are collapsed, newest first here: the last entry's interval is extended.
unfoldable pub collapse : List Row → List Row → List Row
collapse history [] = history
collapse [] (fact ∷ rows) = collapse (fact ∷ []) rows
collapse (last ∷ older) (fact ∷ rows) =
    collapse
      (if last.value == fact.value
        then record last { valid_to = fact.valid_to } ∷ older
        else fact ∷ last ∷ older)
      rows

-- SELECT DISTINCT subject_key
unfoldable pub distinct_subjects : List Row → List String
distinct_subjects [] = []
distinct_subjects (r ∷ rs) =
    let rest = distinct_subjects rs in
    if any (λ a. a == r.subject_key) rest then rest else r.subject_key ∷ rest

unfoldable pub fact_subjects : String → Table → List String
fact_subjects agent_id t =
    distinct_subjects (filter (λ r. (r.agent_id == agent_id) && is_none r.retracted_at) t)
