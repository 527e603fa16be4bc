-- ===== src/Store/Tests.antt =====
-- A close that comes while a statement runs.
use mark_sdk.Prelude.{
  ◌≡◌, refl, true, false, not, ◌&&◌, none, some, [], ◌∷◌, is_in, is_some, nat_eq, dict_get,
  if◌then◌else◌,
}
use mark_sdk.Store.Gate.{new_gate, depth, enter, bind, unbind, leave, begin_close, close_or_orphan}
use mark_sdk.Store.Runs.{
  Statement, World, new_world, enters, binds, leaves, refuses, closes, Run, start, next, uses,
  users, statements_of,
}
use mark_sdk.Store.Closing.{running_is_open, leave-closes, enter-refuses, idle-orphans}

program : Unit {0}
unfolding new_gate new_world depth enter bind unbind leave begin_close close_or_orphan uses users
    statements_of
program = tt

abbrev entered : World
entered = record {
  gate = record {
    closing = false;
    active = 1;
    busy = [];
    orphans = [];
    depths = ("reader", 1) ∷ [];
  };
  statements = record { thread = "reader"; conn = none } ∷ [];
  closed = [];
}

abbrev reading : Statement
reading = record { thread = "reader"; conn = some "c1" }

abbrev closing : World
closing = record {
  gate = record {
    closing = true;
    active = 1;
    busy = ("c1", 1) ∷ [];
    orphans = ("c1", "c1") ∷ [];
    depths = ("reader", 1) ∷ [];
  };
  statements = reading ∷ [];
  closed = [];
}

entering : Run entered
unfolding program
entering = next start (enters new_world "reader" entered.gate refl)

to_closing : Run closing
unfolding program
to_closing =
    next (next (next entering (binds entered "reader" "c1" [] [] refl refl)) (refuses _))
      (closes _ "c1")

abbrev idle : World
idle = record {
  gate = (leave "reader" (some "c1") closing.gate).0;
  statements = [];
  closed = "c1" ∷ [];
}

to_idle : Run idle
unfolding program
to_idle = next to_closing (leaves closing reading [] [] refl)

running_is_open_example : is_in closing.closed "c1" ≡ false
running_is_open_example = running_is_open to_closing reading [] [] refl "c1" refl

leave-closes_example :
    (leave "reader" (some "c1") closing.gate).1
    ≡ (if nat_eq (users "c1" []) 0 then dict_get "c1" closing.gate.orphans else none)
leave-closes_example = leave-closes to_closing reading [] [] refl "c1" refl

enter-refuses_example :
    is_some (enter "writer" closing.gate)
    ≡ not (closing.gate.closing && nat_eq (statements_of "writer" closing.statements) 0)
enter-refuses_example = enter-refuses to_closing "writer"

nothing_orphaned : dict_get "c1" idle.gate.orphans ≡ none
nothing_orphaned = idle-orphans to_idle refl "c1"
