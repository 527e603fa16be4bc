-- ===== src/Store/Closing.antt =====
-- Closing while statements run (src/mark/store/_sqlite/gate.py).
use mark_sdk.Prelude.{
  ◌+◌, ◌≡◌, refl, ap, ◌∙◌, String, false, ◌&&◌, Option, none, some, List, [], ◌∷◌, ◌++◌, is_in,
  is_some, not, dict_get, nat_eq, if◌then◌else◌, arith, eq_refl, Bool-cases, Option-cases, inl, inr,
}
use mark_sdk.Store.Gate.{StatementGate, depth, enter, leave}
use mark_sdk.Store.Runs.{
  Statement, World, Step, enters, binds, leaves, refuses, closes, Run, start, next, users,
  statements_of,
}
use mark_sdk.Store.Running.{
  Inv, entry_of-add, new-Inv, enters-Inv, binds-Inv, refuses-Inv, closes-Inv,
}
use mark_sdk.Store.Leaving.{
  leaves-Inv, unbind_last, unbind_more, ℕ-cases, leave-some, left, users_left,
}

Step-Inv : {w u : World} → Step w u → Inv w → Inv u
Step-Inv (enters w thread g e) inv = enters-Inv w inv thread g e
Step-Inv (binds w thread conn before after e k) inv = binds-Inv w inv thread conn before after e k
Step-Inv (leaves w s before after e) inv = leaves-Inv w inv s before after e
Step-Inv (refuses w) inv = refuses-Inv w inv
Step-Inv (closes w conn) inv = closes-Inv w inv conn

Run-Inv : {w : World} → Run w → Inv w
Run-Inv start = new-Inv
Run-Inv (next r s) = Step-Inv s (Run-Inv r)

module _ {w : World} (run : Run w) (s : Statement) (before after : List Statement)
    (e : w.statements ≡ before ++ s ∷ after) (d : String) (bound : s.conn ≡ some d) where
  users_now : users d w.statements ≡ 1 + users d (before ++ after)
  users_now = rw eq_refl at (users_left w (Run-Inv run) s before after e d bound d)

  -- In every run of threads that enter, bind, leave, begin to close and close or orphan
  -- connections, in any order and with any wait cut short, where a connection that a statement
  -- binds is open when it is bound: no connection that a running statement has bound is closed.
  pub running_is_open : is_in w.closed d ≡ false
  running_is_open = elim (Bool-cases (is_in w.closed d)) [
    | inl y ↦ absurd (omega (arith, (Run-Inv run).safe d y, users_now))
    | inr n ↦ n
  ]

  -- In every such run a statement that leaves closes its connection exactly when no other running
  -- statement uses it and a close has orphaned it.
  pub leave-closes :
      (leave s.thread s.conn w.gate).1
      ≡ (if nat_eq (users d (before ++ after)) 0 then dict_get d w.gate.orphans else none)
  leave-closes =
      let inv : Inv w = Run-Inv run in
      let entry : dict_get d w.gate.busy ≡ some (users d (before ++ after) + 1) =
        inv.busy d
        ∙ entry_of-add (users d w.statements) (users d (before ++ after))
            (omega (arith, users_now)) in
      elim (ℕ-cases (users d (before ++ after))) [
        | inl last ↦
            ap (λ (r : StatementGate × Option String). r.1)
              (leave-some w inv s before after e bound
                ∙ unbind_last d (left w inv s before after e)
                    (entry ∙ ap some (omega (arith, last))))
            ∙ rw last refl
        | inr (n, more) ↦
            ap (λ (r : StatementGate × Option String). r.1)
              (leave-some w inv s before after e bound
                ∙ unbind_more d n (left w inv s before after e)
                    (entry ∙ ap some (omega (arith, more))))
            ∙ rw more (ground arith)
      ]

-- In every such run a thread is refused exactly when the gate is closing and no statement of that
-- thread is running: a nested statement is admitted while closing.
pub enter-refuses :
    {w : World} (run : Run w) (thread : String)
    → is_some (enter thread w.gate)
      ≡ not (w.gate.closing && nat_eq (statements_of thread w.statements) 0)
unfolding enter
enter-refuses {w} run thread =
    let same : depth thread w.gate ≡ statements_of thread w.statements =
      (Run-Inv run).depths thread in
    elim (Bool-cases (w.gate.closing && nat_eq (depth thread w.gate) 0)) [
      | inl y ↦ rw (y, (rw same at y)) refl
      | inr n ↦ rw (n, (rw same at n)) refl
    ]

-- In every such run, once no statement is running no connection is left orphaned.
pub idle-orphans :
    {w : World} (run : Run w) → w.statements ≡ [] → (c : String) → dict_get c w.gate.orphans ≡ none
unfolding users
idle-orphans {w} run e c = elim (Option-cases (dict_get c w.gate.orphans)) [
  | inl n ↦ n
  | inr (d, y) ↦ absurd (omega (arith, (Run-Inv run).orphans c (rw y refl), ap (users c) e))
]
