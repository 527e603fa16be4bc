-- ===== src/Store/Gate.antt =====
-- `StatementGate` (src/mark/store/_sqlite/gate.py). A connection is named by a text, its id; a thread
-- too. Each method is what it does under the lock; a connection that it is to close is given back.
use mark_sdk.Prelude.{
  ℕ, ◌+◌, ◌-◌, String, Bool, true, false, ◌&&◌, Option, none, some, [], Dict, dict_get, dict_put,
  dict_pop, leb, nat_eq, is_some, if◌then◌else◌,
}

pub record StatementGate : Type 0 where
  pub closing : Bool
  pub active : ℕ
  pub busy : Dict ℕ
  pub orphans : Dict String
  pub depths : Dict ℕ

unfoldable pub new_gate : StatementGate
new_gate = record { closing = false; active = 0; busy = []; orphans = []; depths = [] }

abbrev pub or_zero : Option ℕ → ℕ
or_zero none = 0
or_zero (some n) = n

-- _depth, for the calling thread
unfoldable pub depth : String → StatementGate → ℕ
depth thread g = or_zero (dict_get thread g.depths)

-- None is the StoreClosedError.
unfoldable pub enter : String → StatementGate → Option StatementGate
enter thread g =
    if g.closing && nat_eq (depth thread g) 0
    then none
    else some
        (record g { active = g.active + 1; depths = dict_put thread (depth thread g + 1) g.depths })

unfoldable pub bind : String → StatementGate → StatementGate
bind conn g = record g { busy = dict_put conn (or_zero (dict_get conn g.busy) + 1) g.busy }

-- The gate and the orphan that the caller then closes. At most one statement fewer is running
-- than entered, so the counts do not go below zero.
unfoldable pub unbind : String → StatementGate → StatementGate × Option String
unbind conn g = elim (dict_get conn g.busy) [
  | none ↦ (g, none)
  | some n ↦
      if leb n 1
      then (
        record g { busy = dict_pop conn g.busy; orphans = dict_pop conn g.orphans },
        dict_get conn g.orphans,
      )
      else (record g { busy = dict_put conn (n - 1) g.busy }, none)
]

unfoldable pub leave : String → Option String → StatementGate → StatementGate × Option String
leave thread conn g =
    let g' : StatementGate = record g {
      active = g.active - 1;
      depths = dict_put thread (depth thread g - 1) g.depths;
    } in
    elim conn [ none ↦ (g', none) | some c ↦ unbind c g' ]

unfoldable pub begin_close : StatementGate → StatementGate
begin_close g = record g { closing = true }

-- What begin_close waits for, within its time, on a thread with `own` statements.
unfoldable pub is_done_waiting : String → StatementGate → Bool
is_done_waiting thread g = leb g.active (depth thread g)

unfoldable pub close_or_orphan : String → StatementGate → StatementGate × Option String
close_or_orphan conn g =
    if is_some (dict_get conn g.busy)
    then (record g { orphans = dict_put conn conn g.orphans }, none)
    else (g, some conn)
