-- ===== src/Store/Running.antt =====
-- What the gate's counts say of the running statements, over every run
-- (src/mark/store/_sqlite/gate.py).
use mark_sdk.Prelude.{
  ℕ, zero, suc, ◌+◌, ◌≡◌, refl, sym, ap, ◌∙◌, ◌<◌, String, true, false, ◌==◌, ◌&&◌, Option, none,
  some, List, [], ◌∷◌, ◌++◌, is_in, is_some, Dict, dict_get, dict_put, dict_get-dict_put, length,
  length-append, nat_eq, if◌then◌else◌, arith, eq_sound, Bool-cases, Option-cases, inl, inr,
  some_eq, subst, false_of_both,
}
use mark_sdk.Store.Gate.{
  StatementGate, new_gate, or_zero, depth, enter, bind, begin_close, close_or_orphan,
}
use mark_sdk.Store.Runs.{Statement, World, new_world, also, uses, users, statements_of}

-- A count of zero is no entry.
abbrev pub entry_of : ℕ → Option ℕ
entry_of zero = none
entry_of (suc n) = some (suc n)

pub record Inv (w : World) : Type 0 where
  pub active : w.gate.active ≡ length w.statements
  pub depths : (t : String) → depth t w.gate ≡ statements_of t w.statements
  pub busy : (c : String) → dict_get c w.gate.busy ≡ entry_of (users c w.statements)
  pub orphans : (c : String) → is_some (dict_get c w.gate.orphans) ≡ true → 0 < users c w.statements
  pub named : (c d : String) → dict_get c w.gate.orphans ≡ some d → c ≡ d
  pub safe : (c : String) → is_in w.closed c ≡ true → users c w.statements ≡ 0

pub users-append :
    (c : String) (xs ys : List Statement) → users c (xs ++ ys) ≡ users c xs + users c ys
unfolding users
users-append c [] ys = omega arith
users-append c (x ∷ xs) ys = omega (arith, users-append c xs ys)

statements_of-append :
    (t : String) (xs ys : List Statement)
    → statements_of t (xs ++ ys) ≡ statements_of t xs + statements_of t ys
unfolding statements_of
statements_of-append t [] ys = omega arith
statements_of-append t (x ∷ xs) ys = omega (arith, statements_of-append t xs ys)

-- One statement among the others.
users-around :
    (c : String) (before after : List Statement) (s : Statement)
    → users c (before ++ s ∷ after) ≡ uses c s.conn + users c (before ++ after)
unfolding users
users-around c before after s =
    omega (arith, users-append c before (s ∷ after), users-append c before after)

statements_of-around :
    (t : String) (before after : List Statement) (s : Statement)
    → statements_of t (before ++ s ∷ after)
      ≡ (if s.thread == t then 1 else 0) + statements_of t (before ++ after)
unfolding statements_of
statements_of-around t before after s =
    omega (arith, statements_of-append t before (s ∷ after), statements_of-append t before after)

length-around :
    (before after : List Statement) (s : Statement)
    → length (before ++ s ∷ after) ≡ suc (length (before ++ after))
length-around before after s =
    omega (arith, length-append before (s ∷ after), length-append before after)

pub new-Inv : Inv new_world
unfolding new_world new_gate depth users statements_of
new-Inv = record {
  active = refl;
  depths = λ t. refl;
  busy = λ c. refl;
  orphans = λ c h. cc;
  named = λ c d h. cc;
  safe = λ c h. refl;
}

pub or_zero-put :
    (k t : String) (n : ℕ) (d : Dict ℕ)
    → or_zero (dict_get t (dict_put k n d)) ≡ (if k == t then n else or_zero (dict_get t d))
or_zero-put k t n d = elim (Bool-cases (k == t)) [
  | inl y ↦ rw (dict_get-dict_put k t n d, y) refl
  | inr m ↦ rw (dict_get-dict_put k t n d, m) refl
]

or_zero-entry_of : (n : ℕ) → or_zero (entry_of n) ≡ n
or_zero-entry_of zero = refl
or_zero-entry_of (suc n) = refl

pos_of_entry : (m n : ℕ) → entry_of m ≡ some n → 0 < m
pos_of_entry zero n e = absurd cc
pos_of_entry (suc m) n e = omega arith

pub entry_of-add : (m n : ℕ) → m ≡ n + 1 → entry_of m ≡ some (n + 1)
entry_of-add zero n e = absurd (omega arith)
entry_of-add (suc m) n e = ap some e

module _ (w : World) (inv : Inv w) where
  pub enters-Inv :
      (thread : String) (g : StatementGate)
      → enter thread w.gate ≡ some g
      → Inv (record w {
        gate = g;
        statements = record { thread = thread; conn = none } ∷ w.statements;
      })
  unfolding enter depth users uses statements_of
  enters-Inv thread g e = elim (Bool-cases (w.gate.closing && nat_eq (depth thread w.gate) 0)) [
    | inl y ↦ absurd (let no_gate : none ≡ some g = (rw y at e) in cc)
    | inr n ↦
        subst
          (λ h. Inv (record w {
            gate = h;
            statements = record { thread = thread; conn = none } ∷ w.statements;
          }))
          (some_eq _ _ (rw n at e))
          (record {
            active = omega (arith, inv.active);
            depths = λ t. elim (Bool-cases (thread == t)) [
              | inl y ↦
                  rw
                    (
                      or_zero-put thread t (depth thread w.gate + 1) w.gate.depths,
                      y,
                      eq_sound thread t y,
                    )
                    (omega (arith, inv.depths t))
              | inr m ↦
                  rw (or_zero-put thread t (depth thread w.gate + 1) w.gate.depths, m)
                    (omega (arith, inv.depths t))
            ];
            busy = λ c. inv.busy c ∙ ap entry_of (omega arith);
            orphans = λ c h. omega (arith, inv.orphans c h);
            named = inv.named;
            safe = λ c h. omega (arith, inv.safe c h);
          })
  ]

  pub users_of : (c : String) → or_zero (dict_get c w.gate.busy) ≡ users c w.statements
  users_of c = ap or_zero (inv.busy c) ∙ or_zero-entry_of (users c w.statements)

  -- One of the statements, and the rest.
  module _ (s : Statement) (before after : List Statement)
      (e : w.statements ≡ before ++ s ∷ after) where
    pub users_split :
        (c : String) → users c w.statements ≡ uses c s.conn + users c (before ++ after)
    users_split c = ap (users c) e ∙ users-around c before after s

    pub statements_split :
        (t : String)
        → statements_of t w.statements
          ≡ (if s.thread == t then 1 else 0) + statements_of t (before ++ after)
    statements_split t = ap (statements_of t) e ∙ statements_of-around t before after s

    pub length_split : length w.statements ≡ suc (length (before ++ after))
    length_split = ap length e ∙ length-around before after s

  pub binds-Inv :
      (thread conn : String) (before after : List Statement)
      → w.statements ≡ before ++ record { thread = thread; conn = none } ∷ after
      → is_in w.closed conn ≡ false
      → Inv (record w {
        gate = bind conn w.gate;
        statements = before ++ record { thread = thread; conn = some conn } ∷ after;
      })
  unfolding bind uses depth
  binds-Inv thread conn before after e open_still =
      let s : Statement = record { thread = thread; conn = none } in
      let s' : Statement = record { thread = thread; conn = some conn } in
      let old : (c : String) → users c w.statements ≡ users c (before ++ after) =
        λ c. users_split s before after e c ∙ omega arith in
      let new : (c : String)
          → users c (before ++ s' ∷ after)
            ≡ (if conn == c then 1 else 0) + users c (before ++ after) =
        λ c. users-around c before after s' in
      record {
        active =
            inv.active
            ∙ omega (arith, length_split s before after e, length-around before after s');
        depths = λ t.
            inv.depths t
            ∙ (statements_split s before after e t ∙ sym (statements_of-around t before after s'));
        busy = λ c. elim (Bool-cases (conn == c)) [
          | inl y ↦
              let same : conn ≡ c = eq_sound conn c y in
              rw (dict_get-dict_put conn c (or_zero (dict_get conn w.gate.busy) + 1) w.gate.busy, y)
                (sym (
                  entry_of-add (users c (before ++ s' ∷ after))
                    (or_zero (dict_get conn w.gate.busy))
                    (omega (
                      arith,
                      rw y at (new c),
                      users_of c,
                      old c,
                      ap (λ k. or_zero (dict_get k w.gate.busy)) same,
                    ))))
          | inr n ↦
              rw (dict_get-dict_put conn c (or_zero (dict_get conn w.gate.busy) + 1) w.gate.busy, n)
                (inv.busy c ∙ ap entry_of (omega (arith, old c, rw n at (new c))))
        ];
        orphans = λ c h. omega (arith, inv.orphans c h, old c, new c);
        named = inv.named;
        safe = λ c h. elim (Bool-cases (conn == c)) [
          | inl y ↦
              let same : conn ≡ c = eq_sound conn c y in
              absurd (false_of_both (subst (λ k. is_in w.closed k ≡ false) same open_still) h)
          | inr n ↦ omega (arith, inv.safe c h, old c, rw n at (new c))
        ];
      }

  pub refuses-Inv : Inv (record w { gate = begin_close w.gate })
  unfolding begin_close depth
  refuses-Inv = record {
    active = inv.active;
    depths = inv.depths;
    busy = inv.busy;
    orphans = inv.orphans;
    named = inv.named;
    safe = inv.safe;
  }

  pub closes-Inv :
      (conn : String)
      → Inv (record w {
        gate = (close_or_orphan conn w.gate).0;
        closed = also (close_or_orphan conn w.gate).1 w.closed;
      })
  unfolding close_or_orphan depth
  closes-Inv conn = elim (Option-cases (dict_get conn w.gate.busy)) [
    | inl idle ↦ rw idle (record {
      active = inv.active;
      depths = inv.depths;
      busy = inv.busy;
      orphans = inv.orphans;
      named = inv.named;
      safe = λ c h. elim (Bool-cases (conn == c)) [
        | inl y ↦
            sym (users_of c)
            ∙ (ap (λ k. or_zero (dict_get k w.gate.busy)) (sym (eq_sound conn c y))
                ∙ ap or_zero idle)
        | inr n ↦ inv.safe c (rw n at h)
      ];
    })
    | inr (n, used) ↦ rw used (record {
      active = inv.active;
      depths = inv.depths;
      busy = inv.busy;
      orphans = λ c h. elim (Bool-cases (conn == c)) [
        | inl y ↦
            subst (λ k. 0 < users k w.statements) (eq_sound conn c y)
              (pos_of_entry (users conn w.statements) n (sym (inv.busy conn) ∙ used))
        | inr m ↦ inv.orphans c (rw (dict_get-dict_put conn c conn w.gate.orphans, m) at h)
      ];
      named = λ c d h. elim (Bool-cases (conn == c)) [
        | inl y ↦
            sym (eq_sound conn c y)
            ∙ some_eq _ _ (rw (dict_get-dict_put conn c conn w.gate.orphans, y) at h)
        | inr m ↦ inv.named c d (rw (dict_get-dict_put conn c conn w.gate.orphans, m) at h)
      ];
      safe = inv.safe;
    })
  ]
