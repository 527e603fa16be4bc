-- ===== src/Facts/Tests.antt =====
-- Runs of the fact operations on a small table, and the theorems at such inputs.
use mathlib.Core.Option
use mark_sdk.Prelude.{
  ℕ, String, ◌≡◌, refl, true, false, Option, none, some, [], ◌∷◌, ◌++◌, map, ◌⊎◌, if◌then◌else◌,
}
use mark_sdk.Facts.Table.{
  Row, Table, Timeline, on_timeline, single, before, chain_rows, open_at, covers, update,
  set_valid_to, set_retracted, update_each,
}
use mark_sdk.Facts.Select.{
  chain_updates, apply_updates, rechain_facts, same_time_rows, ended_by_set, retract_same_time,
  is_blank_key, open_rows, rechain_each, distinct_keys,
}
use mark_sdk.Facts.Ops.{
  Codec, ok, row_to_fact, fact_by_id, new_row, insert_value, write_value, write_unless_latest,
  fact_set, fact_add, fact_remove, fact_retract, same_value, is_retracted_by, fact_current,
  fact_as_of,
}
use mark_sdk.Facts.Invariant.{IsValid}
use mark_sdk.Facts.Runs.{Write, Reached, Reached-IsValid}
use mark_sdk.Facts.AsOf.{
  latest_started, to_list, HasNoAdded, fact_current-latest, fact_as_of-latest,
}
use mark_sdk.Facts.Writes.{recorded, fact_set-audit}
use mark_sdk.Facts.Effect.{takes_effect, value_as_of}
use mark_sdk.Facts.Asserted.{fact_as_of-fact_set}
use mark_sdk.Facts.Again.{fact_set-again}
use mark_sdk.Facts.Import.{
  ExportedFact, is_recorded_at, recorded_time, chain_imported, is_imported, imported_row,
  insert_imported, import_fact_row,
}
use mark_sdk.Facts.Imported.{import_fact_row-again}

program : Unit {0}
unfolding on_timeline single before open_at covers update set_valid_to set_retracted update_each
    chain_updates apply_updates rechain_facts same_time_rows ended_by_set retract_same_time
    is_blank_key open_rows rechain_each distinct_keys row_to_fact fact_by_id new_row insert_value
    write_value write_unless_latest fact_set fact_add fact_remove fact_retract same_value
    is_retracted_by fact_current fact_as_of is_recorded_at recorded_time chain_imported is_imported
    imported_row insert_imported import_fact_row
program = tt

abbrev plain_codec : Codec
plain_codec = record {
  encrypt_str = λ s. s;
  decrypt_str = λ s. s;
  reencode = λ s. s;
  text_of = λ s. s;
}

abbrev port : Timeline
port = record { agent_id = "a"; subject_key = "atlas core"; attribute_key = "port" }

abbrev port_row : String → String → ℕ → Option ℕ → ℕ → Row
port_row id value valid_from valid_to recorded_at = record {
  id = id;
  agent_id = "a";
  subject_key = "atlas core";
  attribute_key = "port";
  value = value;
  valid_from = valid_from;
  valid_to = valid_to;
  recorded_at = recorded_at;
  retracted_at = none;
  source_fragment_id = none;
  multi_valued = false;
}

abbrev one_port : Table
one_port = port_row "f1" "4444" 30 none 100 ∷ []

-- The second value is recorded later and was true earlier.
abbrev two_ports : Table
two_ports = port_row "f1" "4444" 30 none 100 ∷ port_row "f2" "5555" 10 (some 30) 101 ∷ []

set_first :
    fact_set plain_codec port "4444" 30 none false 100 "f1" []
    ≡ ok (port_row "f1" "4444" 30 none 100, one_port)
unfolding program
set_first = refl

set_second :
    fact_set plain_codec port "5555" 10 none false 101 "f2" one_port
    ≡ ok (port_row "f2" "5555" 10 (some 30) 101, two_ports)
unfolding program
set_second = refl

-- A correction retracts what was recorded for that time.
set_correction :
    fact_set plain_codec port "6666" 30 none true 102 "f3" one_port
    ≡ ok (
      port_row "f3" "6666" 30 none 102,
      record (port_row "f1" "4444" 30 none 100) { retracted_at = some 102 }
          ∷ port_row "f3" "6666" 30 none 102
          ∷ [],
    )
unfolding program
set_correction = refl

as_of_history :
    (fact_as_of plain_codec port 9 two_ports ≡ none)
    × (fact_as_of plain_codec port 29 two_ports ≡ some (port_row "f2" "5555" 10 (some 30) 101))
    × (fact_as_of plain_codec port 30 two_ports ≡ some (port_row "f1" "4444" 30 none 100))
unfolding program
as_of_history = (refl, refl, refl)

-- An added value beside the set ones.
abbrev with_added : Table
with_added = two_ports ++ record (port_row "f4" "7777" 20 none 103) { multi_valued = true } ∷ []

add_value :
    fact_add plain_codec port "7777" 20 none 103 "f4" two_ports
    ≡ ok (record (port_row "f4" "7777" 20 none 103) { multi_valued = true }, with_added)
unfolding program
add_value = refl

two_ports-Reached : Reached plain_codec two_ports
two_ports-Reached =
    Reached.next
      (Reached.next Reached.empty (Write.setting port "4444" 30 none false 100 "f1" tt set_first))
      (Write.setting port "5555" 10 none false 101 "f2" (refl, tt) set_second)

two_ports-IsValid : IsValid two_ports
two_ports-IsValid = Reached-IsValid two_ports-Reached

Reached-IsValid_example :
    IsValid
      (fact_retract plain_codec "a" "atlas core" none (some ("4444", "4444")) 104 with_added).1
Reached-IsValid_example = Reached-IsValid (
    Reached.next
      (Reached.next two_ports-Reached
        (Write.adding port "7777" 20 none 103 "f4" (refl, (refl, tt)) add_value))
      (Write.retracting with_added "a" "atlas core" none (some ("4444", "4444")) 104))

two_ports-HasNoAdded : HasNoAdded port two_ports
two_ports-HasNoAdded = ((λ _. refl), ((λ _. refl), tt))

fact_current-latest_example :
    fact_current plain_codec "a" (some "atlas core") (some "port") 29 two_ports
    ≡ map (row_to_fact plain_codec) (to_list (latest_started 29 (chain_rows port two_ports)))
fact_current-latest_example =
    fact_current-latest plain_codec port 29 two_ports two_ports-IsValid two_ports-HasNoAdded

fact_as_of-latest_example :
    fact_as_of plain_codec port 29 two_ports
    ≡ Option.map (row_to_fact plain_codec) (latest_started 29 (chain_rows port two_ports))
fact_as_of-latest_example =
    fact_as_of-latest plain_codec port 29 two_ports two_ports-IsValid two_ports-HasNoAdded

one_port-IsValid : IsValid one_port
one_port-IsValid =
    Reached-IsValid
      (Reached.next Reached.empty (Write.setting port "4444" 30 none false 100 "f1" tt set_first))

-- The value is in force from its start until the next one's.
takes_effect_until :
    (takes_effect port 10 9 one_port ≡ false)
    × (takes_effect port 10 29 one_port ≡ true)
    × (takes_effect port 10 30 one_port ≡ false)
unfolding program takes_effect
takes_effect_until = (refl, refl, refl)

fact_as_of-fact_set_example : value_as_of plain_codec port 29 two_ports ≡ (
    if takes_effect port 10 29 one_port
    then some "5555"
    else value_as_of plain_codec port 29 one_port)
fact_as_of-fact_set_example =
    fact_as_of-fact_set plain_codec port "5555" 10 none 101 "f2" refl 29 one_port one_port-IsValid
      (refl, tt) false ((λ _. refl), tt) (refl, tt) set_second

fact_set-audit_example :
    (map recorded two_ports ≡ map recorded one_port)
    ⊎ (map recorded two_ports
        ≡ map recorded one_port ++ new_row plain_codec port "5555" 10 none 101 false "f2" ∷ [])
fact_set-audit_example =
    fact_set-audit plain_codec port "5555" 10 none 101 "f2" false one_port set_second

fact_set-again_example :
    (fact : Row) × (fact_set plain_codec port "5555" 10 (some "m1") false 105 "f5" two_ports
      ≡ ok (fact, two_ports))
fact_set-again_example =
    fact_set-again plain_codec port "5555" 10 refl none 101 "f2" one_port (some "m1") 105 "f5"
      (refl, tt) set_second

-- An export of the added value that was ended at 40, without its end.
abbrev exported : ExportedFact
exported = record {
  encoded = "7777";
  valid_from = 20;
  recorded_at = some 103;
  source_fragment_id = none;
  multi_valued = true;
}

-- Restored, the value is current again.
restored :
    import_fact_row plain_codec port exported 200 "f9" []
    ≡ ok (true, record (port_row "f9" "7777" 20 none 103) { multi_valued = true } ∷ [])
unfolding program
restored = refl

import_fact_row-again_example :
    import_fact_row plain_codec port exported 300 "f10"
      (record (port_row "f9" "7777" 20 none 103) { multi_valued = true } ∷ [])
    ≡ ok (false, record (port_row "f9" "7777" 20 none 103) { multi_valued = true } ∷ [])
import_fact_row-again_example =
    import_fact_row-again plain_codec port exported 200 300 "f9" "f10" [] refl restored
