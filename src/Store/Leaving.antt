-- ===== src/Store/Leaving.antt =====
-- A statement that leaves, and the gate's counts (src/mark/store/_sqlite/gate.py).
use mathlib.Core.Option.{none-ne-some}
use mark_sdk.Prelude.{
  ℕ, zero, suc, ◌+◌, ◌-◌, ◌≡◌, refl, sym, ap, ◌∙◌, ◌<◌, String, false, ◌==◌, Option, none, some,
  List, ◌∷◌, ◌++◌, dict_get, dict_put, dict_pop, dict_get-dict_put, dict_get-dict_pop, length, leb,
  if◌then◌else◌, arith, eq_sound, Bool-cases, Option-cases, inl, inr, ◌⊎◌, eq_refl, subst,
  false_of_both,
}
use mark_sdk.Store.Gate.{StatementGate, depth, unbind, leave}
use mark_sdk.Store.Runs.{Statement, World, also, uses, users, statements_of}
use mark_sdk.Store.Running.{
  Inv, entry_of, entry_of-add, or_zero-put, users_split, statements_split, length_split,
}

pub unbind_last :
    (c : String) (g : StatementGate)
    → dict_get c g.busy ≡ some 1
    → unbind c g ≡ (
      record g { busy = dict_pop c g.busy; orphans = dict_pop c g.orphans },
      dict_get c g.orphans,
    )
unfolding unbind
unbind_last c g e = rw (e, unbind) refl

pub unbind_more :
    (c : String) (n : ℕ) (g : StatementGate)
    → dict_get c g.busy ≡ some (suc (suc n))
    → unbind c g ≡ (record g { busy = dict_put c (suc n) g.busy }, none)
unfolding unbind
unbind_more c n g e =
    let many : leb (suc (suc n)) 1 ≡ false = ground arith in
    let one_fewer : suc (suc n) - 1 ≡ suc n = omega arith in rw (e, unbind, many, one_fewer) refl

pub ℕ-cases : (n : ℕ) → (n ≡ 0) ⊎ ((m : ℕ) × (n ≡ suc m))
ℕ-cases zero = inl refl
ℕ-cases (suc m) = inr (m, refl)

module _ (w : World) (inv : Inv w) where
  module _ (s : Statement) (before after : List Statement)
      (e : w.statements ≡ before ++ s ∷ after) where
    -- The counts of `leave` before it looks at the connection.
    abbrev pub left : StatementGate
    left = record w.gate {
      active = w.gate.active - 1;
      depths = dict_put s.thread (depth s.thread w.gate - 1) w.gate.depths;
    }

    left_active : left.active ≡ length (before ++ after)
    left_active = omega (arith, inv.active, length_split w inv s before after e)

    left_depths : (t : String) → depth t left ≡ statements_of t (before ++ after)
    unfolding depth
    left_depths t = elim (Bool-cases (s.thread == t)) [
      | inl y ↦
          rw
            (
              or_zero-put s.thread t (depth s.thread w.gate - 1) w.gate.depths,
              y,
              eq_sound s.thread t y,
            )
            (omega (arith, inv.depths t, rw y at (statements_split w inv s before after e t)))
      | inr n ↦
          rw (or_zero-put s.thread t (depth s.thread w.gate - 1) w.gate.depths, n)
            (omega (arith, inv.depths t, rw n at (statements_split w inv s before after e t)))
    ]

    -- The statement had bound no connection.
    leaves_none-Inv :
        s.conn ≡ none
        → Inv (record { gate = left; statements = before ++ after; closed = w.closed })
    unfolding uses
    leaves_none-Inv unbound =
        let old : (c : String) → users c w.statements ≡ users c (before ++ after) =
          λ c. users_split w inv s before after e c ∙ rw unbound (omega arith) in
        record {
          active = left_active;
          depths = left_depths;
          busy = λ c. inv.busy c ∙ ap entry_of (old c);
          orphans = λ c h. omega (arith, inv.orphans c h, old c);
          named = inv.named;
          safe = λ c h. omega (arith, inv.safe c h, old c);
        }

    module _ (d : String) (bound : s.conn ≡ some d) where
      pub users_left :
          (c : String)
          → users c w.statements ≡ (if d == c then 1 else 0) + users c (before ++ after)
      unfolding uses
      users_left c = users_split w inv s before after e c ∙ rw bound refl

      users_left_other :
          (c : String) → (d == c) ≡ false → users c w.statements ≡ users c (before ++ after)
      users_left_other c n = omega (arith, rw n at (users_left c))

      users_le : (c : String) → users c w.statements ≡ 0 → users c (before ++ after) ≡ 0
      users_le c h = omega (arith, h, users_left c)

    -- It had bound `d`, which other statements use too.
    leaves_used-Inv :
        (d : String) (n : ℕ)
        → s.conn ≡ some d
        → users d (before ++ after) ≡ suc n
        → Inv (record {
          gate = record left { busy = dict_put d (suc n) w.gate.busy };
          statements = before ++ after;
          closed = w.closed;
        })
    unfolding depth
    leaves_used-Inv d n bound more = record {
      active = left_active;
      depths = left_depths;
      busy = λ c. elim (Bool-cases (d == c)) [
        | inl y ↦
            rw (dict_get-dict_put d c (suc n) w.gate.busy, y)
              (sym
                (ap entry_of (ap (λ k. users k (before ++ after)) (sym (eq_sound d c y)) ∙ more)))
        | inr m ↦
            rw (dict_get-dict_put d c (suc n) w.gate.busy, m)
              (inv.busy c ∙ ap entry_of (users_left_other d bound c m))
      ];
      orphans = λ c h. elim (Bool-cases (d == c)) [
        | inl y ↦ subst (λ k. 0 < users k (before ++ after)) (eq_sound d c y) (omega (arith, more))
        | inr m ↦ omega (arith, inv.orphans c h, users_left_other d bound c m)
      ];
      named = inv.named;
      safe = λ c h. users_le d bound c (inv.safe c h);
    }

    -- It was the last that used `d`.
    leaves_last-Inv :
        (d : String)
        → s.conn ≡ some d
        → users d (before ++ after) ≡ 0
        → Inv (record {
          gate = record left { busy = dict_pop d w.gate.busy; orphans = dict_pop d w.gate.orphans };
          statements = before ++ after;
          closed = also (dict_get d w.gate.orphans) w.closed;
        })
    unfolding depth
    leaves_last-Inv d bound last = record {
      active = left_active;
      depths = left_depths;
      busy = λ c. elim (Bool-cases (d == c)) [
        | inl y ↦
            rw (dict_get-dict_pop d c w.gate.busy, y)
              (sym
                (ap entry_of (ap (λ k. users k (before ++ after)) (sym (eq_sound d c y)) ∙ last)))
        | inr m ↦
            rw (dict_get-dict_pop d c w.gate.busy, m)
              (inv.busy c ∙ ap entry_of (users_left_other d bound c m))
      ];
      orphans = λ c h. elim (Bool-cases (d == c)) [
        | inl y ↦
            absurd
              (false_of_both {b = false} refl (rw (dict_get-dict_pop d c w.gate.orphans, y) at h))
        | inr m ↦ omega (
          arith,
          inv.orphans c (rw (dict_get-dict_pop d c w.gate.orphans, m) at h),
          users_left_other d bound c m,
        )
      ];
      named = λ c x h. elim (Bool-cases (d == c)) [
        | inl y ↦ absurd (none-ne-some x (rw (dict_get-dict_pop d c w.gate.orphans, y) at h))
        | inr m ↦ inv.named c x (rw (dict_get-dict_pop d c w.gate.orphans, m) at h)
      ];
      safe = λ c h. elim (Option-cases (dict_get d w.gate.orphans)) [
        | inl kept ↦ users_le d bound c (inv.safe c (rw kept at h))
        | inr (x, orphan) ↦ elim (Bool-cases (x == c)) [
          | inl y ↦
              ap (λ k. users k (before ++ after)) (sym (inv.named d x orphan ∙ eq_sound x c y))
              ∙ last
          | inr m ↦ users_le d bound c (inv.safe c (rw (orphan, m) at h))
        ]
      ];
    }

    pub leave-some : {d : String} → s.conn ≡ some d → leave s.thread s.conn w.gate ≡ unbind d left
    unfolding leave
    leave-some bound = rw bound refl

    -- Whatever it had bound.
    pub leaves-Inv : Inv (record {
      gate = (leave s.thread s.conn w.gate).0;
      statements = before ++ after;
      closed = also (leave s.thread s.conn w.gate).1 w.closed;
    })
    unfolding leave
    leaves-Inv = elim (Option-cases s.conn) [
      | inl unbound ↦ rw unbound (leaves_none-Inv unbound)
      | inr (d, bound) ↦
          let entry : dict_get d w.gate.busy ≡ some (users d (before ++ after) + 1) =
            inv.busy d
            ∙ entry_of-add (users d w.statements) (users d (before ++ after))
                (omega (arith, rw eq_refl at (users_left d bound d))) in
          let after_it : StatementGate × Option String → Type 0 = λ r.
            Inv (record { gate = r.0; statements = before ++ after; closed = also r.1 w.closed }) in
          elim (ℕ-cases (users d (before ++ after))) [
            | inl last ↦
                subst after_it
                  (sym
                    (leave-some bound ∙ unbind_last d left (entry ∙ ap some (omega (arith, last)))))
                  (leaves_last-Inv d bound last)
            | inr (n, more) ↦
                subst after_it
                  (sym (
                    leave-some bound
                    ∙ unbind_more d n left (entry ∙ ap some (omega (arith, more)))))
                  (leaves_used-Inv d n bound more)
          ]
    ]
