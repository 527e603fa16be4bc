-- ===== src/Facts/Import.antt =====
-- `import_fact_row` (src/mark/store/_sqlite/fact_import.py), one transaction.
use mark_sdk.Prelude.{
  ℕ, String, Bool, true, false, Option, none, some, [], ◌∷◌, ◌++◌, ◌&&◌, ◌==◌, nat_eq, is_none,
  if◌then◌else◌, any,
}
use mark_sdk.Facts.Table.{Row, Table, Timeline, on_timeline}
use mark_sdk.Facts.Select.{is_blank_key, rechain_facts}
use mark_sdk.Facts.Ops.{Codec, Result, ok, raise, value_error, new_row}

-- The fields of a record as export_jsonl writes it: the encoded value, and the flag of its metadata.
pub record ExportedFact : Type 0 where
  pub encoded : String
  pub valid_from : ℕ
  pub recorded_at : Option ℕ
  pub source_fragment_id : Option String
  pub multi_valued : Bool

-- recorded_text is None or the row's; the time that is written.
unfoldable pub is_recorded_at : Option ℕ → ℕ → Bool
is_recorded_at none n = true
is_recorded_at (some m) n = nat_eq n m

unfoldable pub recorded_time : Option ℕ → ℕ → ℕ
recorded_time none now = now
recorded_time (some m) now = m

-- Rows that are multi-valued keep their own interval.
unfoldable pub chain_imported : Bool → Timeline → Table → Table
chain_imported true k t = t
chain_imported false k t = rechain_facts k t

module _ (c : Codec) where
  -- The same value at the same time, recorded at the same time where the record says when.
  unfoldable pub is_imported : Timeline → ExportedFact → Row → Bool
  is_imported k x r =
      (on_timeline k r && (nat_eq r.valid_from x.valid_from && is_none r.retracted_at))
      && (is_recorded_at x.recorded_at r.recorded_at && (c.decrypt_str r.value == x.encoded))

  unfoldable pub imported_row : Timeline → ExportedFact → ℕ → String → Row
  imported_row k x now fact_id =
      new_row c k x.encoded x.valid_from x.source_fragment_id (recorded_time x.recorded_at now)
        x.multi_valued fact_id

  unfoldable pub insert_imported : Timeline → ExportedFact → ℕ → String → Table → Table
  insert_imported k x now fact_id t =
      chain_imported x.multi_valued k (t ++ imported_row k x now fact_id ∷ [])

  unfoldable pub import_fact_row :
      Timeline → ExportedFact → ℕ → String → Table → Result (Bool × Table)
  import_fact_row k x now fact_id t =
      if is_blank_key k
      then raise value_error
      else if any (is_imported k x) t
      then ok (false, t)
      else ok (true, insert_imported k x now fact_id t)
