-- ===== src/Store/Runs.antt =====
-- The threads around the gate: `_statement` and `close` of src/mark/store/_sqlite/connection.py as
-- steps. A statement enters, then binds the connection that `_conn` gave it, and leaves; a close may
-- come at any time, also after its wait has run out.
use mark_sdk.Prelude.{
  ℕ, ◌+◌, ◌≡◌, String, false, ◌==◌, Option, none, some, List, [], ◌∷◌, ◌++◌, is_in, if◌then◌else◌,
}
use mark_sdk.Store.Gate.{StatementGate, new_gate, enter, bind, leave, begin_close, close_or_orphan}

pub record Statement : Type 0 where
  pub thread : String
  pub conn : Option String

-- closed: the connections that a step has decided to close; the close itself follows outside the
-- lock.
pub record World : Type 0 where
  pub gate : StatementGate
  pub statements : List Statement
  pub closed : List String

unfoldable pub new_world : World
new_world = record { gate = new_gate; statements = []; closed = [] }

abbrev pub also : Option String → List String → List String
also none closed = closed
also (some c) closed = c ∷ closed

-- The connection that a statement binds is still open then.
pub data Step : World → World → Type 0 where
  enters :
      (w : World) (thread : String) (g : StatementGate)
      → enter thread w.gate ≡ some g
      → Step w (record w {
        gate = g;
        statements = record { thread = thread; conn = none } ∷ w.statements;
      })
  binds :
      (w : World) (thread conn : String) (before after : List Statement)
      → w.statements ≡ before ++ record { thread = thread; conn = none } ∷ after
      → is_in w.closed conn ≡ false
      → Step w (record w {
        gate = bind conn w.gate;
        statements = before ++ record { thread = thread; conn = some conn } ∷ after;
      })
  leaves :
      (w : World) (s : Statement) (before after : List Statement)
      → w.statements ≡ before ++ s ∷ after
      → Step w (record w {
        gate = (leave s.thread s.conn w.gate).0;
        statements = before ++ after;
        closed = also (leave s.thread s.conn w.gate).1 w.closed;
      })
  refuses : (w : World) → Step w (record w { gate = begin_close w.gate })
  closes :
      (w : World) (conn : String)
      → Step w (record w {
        gate = (close_or_orphan conn w.gate).0;
        closed = also (close_or_orphan conn w.gate).1 w.closed;
      })

pub data Run : World → Type 0 where
  start : Run new_world
  next : {w u : World} → Run w → Step w u → Run u

-- The running statements that use a connection, and those of a thread.
unfoldable pub uses : String → Option String → ℕ
uses c none = 0
uses c (some d) = if d == c then 1 else 0

unfoldable pub users : String → List Statement → ℕ
users c [] = 0
users c (s ∷ ss) = uses c s.conn + users c ss

unfoldable pub statements_of : String → List Statement → ℕ
statements_of t [] = 0
statements_of t (s ∷ ss) = (if s.thread == t then 1 else 0) + statements_of t ss
