-- ===== src/Maintenance/Counts.antt =====
-- The counters of a consolidation pass (src/mark/memory/consolidation.py).
use mark_sdk.Prelude.{
  ℕ, String, ◌≡◌, true, some, List, [], ◌∷◌, ◌+◌, length, inl, inr, Bool-cases, Option-cases, arith,
  suc, OnSome, OnSome-map, OnSome-bind, OnSome-imp, OnSome-eq,
}
use mark_sdk.Types.Fragment.{Fragment}
use mark_sdk.Blocks.Store.{Store}
use mark_sdk.Blocks.Members.{SealedMembership, sealed_membership}
use mark_sdk.Maintenance.Listing.{list_by_agent, store_fragment}
use mark_sdk.Maintenance.Consolidation.{
  ConsolidationResult, GateResult, Gate, Action, skip, expire_it, submit, action, promoted_copy,
  promote, act, step, run_each, run,
}

-- Every listed fragment is counted once.
unfoldable pub total : ConsolidationResult → ℕ
total r = r.promoted_count + (r.expired + (r.skipped + r.blocked))

module _ {ℓ} {G : Type ℓ} (gate : Gate G) (now : ℕ) where
  total-promote :
      (f : Fragment) (r : ConsolidationResult) (s : Store) (v : GateResult)
      → OnSome (λ done. total done.0 ≡ suc (total r)) (promote gate now f r s v)
  unfolding promote total
  total-promote f r s v = elim (Bool-cases v.passed) [
    | inr n ↦ rw n (omega arith)
    | inl y ↦ elim (Option-cases (store_fragment (promoted_copy v.content now f) s)) [
      | inl n ↦ rw (y, n) tt
      | inr (t, h) ↦ rw (y, h) (omega arith)
    ]
  ]

  total-act :
      (f : Fragment) (r : ConsolidationResult) (g : G) (s : Store) (a : Action)
      → OnSome (λ done. total done.0 ≡ suc (total r)) (act gate now f r g s a)
  unfolding act total
  total-act f r g s skip = omega arith
  total-act f r g s expire_it = omega arith
  total-act f r g s submit =
      let (v, g') = gate.check g f.content f.confidence in
      OnSome-map (λ done. (done.0, (g', done.1))) (λ done. total done.0 ≡ suc (total r))
        (promote gate now f r s v) (total-promote f r s v)

  total-run_each :
      (m : SealedMembership) (threshold : ℕ) (fs : List Fragment)
      (r : ConsolidationResult × (G × Store))
      → OnSome (λ done. total done.0 ≡ length fs + total r.0) (run_each gate m threshold now fs r)
  unfolding run_each step
  total-run_each m threshold [] r = omega arith
  total-run_each m threshold (f ∷ fs) (r, (g, s)) =
      OnSome-bind (λ done. total done.0 ≡ suc (total r))
        (λ done. total done.0 ≡ suc (length fs) + total r) (run_each gate m threshold now fs)
        (act gate now f r g s (action m threshold now f))
        (λ done here.
          OnSome-imp (λ d. total d.0 ≡ length fs + total done.0)
            (λ d. total d.0 ≡ suc (length fs) + total r) (λ d h. omega (arith, here, h))
            (run_each gate m threshold now fs done) (total-run_each m threshold fs done))
        (total-act f r g s (action m threshold now f))

  -- A consolidation pass that returns counts every fragment of the agent that it lists exactly
  -- once, as promoted, expired, skipped or blocked.
  pub total-run :
      (agent_id : String) (threshold : ℕ) (g : G) (s : Store)
      {done : ConsolidationResult × (G × Store)}
      → run gate agent_id threshold now g s ≡ some done
      → total done.0 ≡ length (list_by_agent s agent_id (λ f. true))
  unfolding run total
  total-run agent_id threshold g s {done} h =
      let fs : List Fragment = list_by_agent s agent_id (λ f. true) in
      OnSome-eq (λ d. total d.0 ≡ length fs) _ done
        (OnSome-imp (λ d. total d.0 ≡ length fs + 0) _ (λ d e. omega (arith, e)) _
          (total-run_each (sealed_membership s agent_id) threshold fs _))
        h
