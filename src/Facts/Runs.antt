-- ===== src/Facts/Runs.antt =====
-- Runs of the writes of src/mark/store/_sqlite/facts.py, facts_multi.py and fact_import.py
-- from an empty table.
use mark_sdk.Prelude.{ℕ, String, ◌≡◌, Bool, Option, [], IsFresh}
use mark_sdk.Facts.Table.{Row, Table, Timeline}
use mark_sdk.Facts.Ops.{Codec, ok, fact_set, fact_add, fact_remove, fact_retract}
use mark_sdk.Facts.Import.{ExportedFact, import_fact_row}
use mark_sdk.Facts.Imported.{import_fact_row-IsValid}
use mark_sdk.Facts.Invariant.{IsValid}
use mark_sdk.Facts.Keeps.{fact_set-IsValid, fact_add-IsValid, fact_remove-IsValid}
use mark_sdk.Facts.Retracts.{fact_retract-IsValid}

-- One write that returns; the ids that it draws are new. A write that raises leaves the table.
pub data Write (c : Codec) : Table → Table → Type 0 where
  setting :
      {t t' : Table} {fact : Row} (k : Timeline) (encoded : String) (valid_from : ℕ)
      (source : Option String) (correction : Bool) (now : ℕ) (fact_id : String)
      → IsFresh (λ r. r.id) fact_id t
      → fact_set c k encoded valid_from source correction now fact_id t ≡ ok (fact, t')
      → Write c t t'
  adding :
      {t t' : Table} {fact : Row} (k : Timeline) (encoded : String) (valid_from : ℕ)
      (source : Option String) (now : ℕ) (fact_id : String)
      → IsFresh (λ r. r.id) fact_id t
      → fact_add c k encoded valid_from source now fact_id t ≡ ok (fact, t')
      → Write c t t'
  removing :
      (t : Table) (k : Timeline) (encoded : String) (stamp : ℕ)
      → Write c t (fact_remove c k encoded stamp t).1
  retracting :
      (t : Table) (agent_id subject_key : String) (attribute_key : Option String)
      (value : Option (String × String)) (now : ℕ)
      → Write c t (fact_retract c agent_id subject_key attribute_key value now t).1
  importing :
      {t t' : Table} {added : Bool} (k : Timeline) (x : ExportedFact) (now : ℕ) (fact_id : String)
      → IsFresh (λ r. r.id) fact_id t
      → import_fact_row c k x now fact_id t ≡ ok (added, t')
      → Write c t t'

pub data Reached (c : Codec) : Table → Type 0 where
  empty : Reached c []
  next : {t t' : Table} → Reached c t → Write c t t' → Reached c t'

Write-IsValid : {c : Codec} {t t' : Table} → Write c t t' → IsValid t → IsValid t'
Write-IsValid {c} {t} (setting k encoded valid_from source correction now fact_id fresh e) v =
    fact_set-IsValid c k encoded valid_from source now fact_id correction t v fresh e
Write-IsValid {c} {t} (adding k encoded valid_from source now fact_id fresh e) v =
    fact_add-IsValid c k encoded valid_from source now fact_id t v fresh e
Write-IsValid {c} {t} (importing k x now fact_id fresh e) v =
    import_fact_row-IsValid c k x now fact_id t v fresh e
Write-IsValid {c} (removing t k encoded stamp) v = fact_remove-IsValid c k encoded stamp t v
Write-IsValid {c} (retracting t agent_id subject_key attribute_key value now) v =
    fact_retract-IsValid c agent_id subject_key attribute_key value now t v

-- After any run of returning fact_set (with or without correction), fact_add and import_fact_row,
-- each with a fresh id, and of fact_remove and fact_retract with any filter, from the empty table,
-- the ids are unique and every single-valued timeline is gapless: each unretracted row ends where
-- the next begins, and the last is open.
pub Reached-IsValid : {c : Codec} {t : Table} → Reached c t → IsValid t
Reached-IsValid empty = record { unique = tt; chained = λ k. tt }
Reached-IsValid (next r w) = Write-IsValid w (Reached-IsValid r)
