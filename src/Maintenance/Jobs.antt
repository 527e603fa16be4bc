-- ===== src/Maintenance/Jobs.antt =====
-- The jobs and the sealed blocks: `expire` (src/mark/memory/working.py), `run` of consolidation
-- (src/mark/memory/consolidation.py) and `run` of the pruner (src/mark/plasticity/pruner.py).
use mark_sdk.Prelude.{
  ℕ, String, ◌≡◌, refl, ◌∙◌, subst, true, false, some, List, [], ◌∷◌, not, ◌&&◌, ◌||◌, ◌==◌, inl,
  inr, Bool-cases, Option-cases, All, All-imp, HasUniqueKeys, HasUniqueKeys-filter, ◌≢◌, is_none,
  false_of_both, OnSome, OnSome-map, OnSome-bind, OnSome-imp, OnSome-eq, is_in,
}
use mark_sdk.Types.Enums.{is_working_tier}
use mark_sdk.Types.Fragment.{Fragment, is_expired}
use mark_sdk.Blocks.Store.{Block, Store, get_block}
use mark_sdk.Blocks.Seal.{get_block-id}
use mark_sdk.Blocks.Members.{
  SealedMembership, sealed_membership, protects_fragment, has_seal, sealed_membership-has,
}
use mark_sdk.Maintenance.Listing.{list_by_agent, delete, store_fragment}
use mark_sdk.Maintenance.Working.{expires, expire_one, expire_each, expire}
use mark_sdk.Maintenance.Consolidation.{
  ConsolidationResult, GateResult, Gate, Action, skip, expire_it, submit, action, promoted_copy,
  promote, step, run_each, run, act,
}
use mark_sdk.Maintenance.Sealed.{
  IsKept, IsKept-refl, IsKept-trans, IsOutside, IsKept-delete, IsOutside-delete,
  IsKept-store_fragment, IsOutside-store_fragment, listed-IsOutside, edges-store_fragment,
  HasUniqueKeys-store_fragment,
}

module _ (j : String) where
  -- A step that keeps the block and what is outside it.
  unfoldable pub Keeps : Store → Store → Type 0
  Keeps s t =
      IsKept j s t
      × (((g : Fragment) → IsOutside j s g → IsOutside j t g)
          × ((t.edges ≡ s.edges)
              × (HasUniqueKeys (λ f. f.id) s.fragments → HasUniqueKeys (λ f. f.id) t.fragments)))

  pub Keeps-refl : (s : Store) → Keeps s s
  unfolding Keeps
  Keeps-refl s = (IsKept-refl j s, ((λ g o. o), (refl, (λ u. u))))

  pub Keeps-trans : (s t u : Store) → Keeps s t → Keeps t u → Keeps s u
  unfolding Keeps
  Keeps-trans s t u (k, (o, (e, v))) (k', (o', (e', v'))) =
      (IsKept-trans j s t u k k', ((λ g x. o' g (o g x)), (e' ∙ e, (λ x. v' (v x)))))

  pub Keeps-delete : (s : Store) (f : Fragment) → IsOutside j s f → Keeps s (delete f.id s)
  unfolding Keeps delete
  Keeps-delete s f o = (
    IsKept-delete j s f o,
    (
      (λ g x. IsOutside-delete j s f g x),
      (refl, HasUniqueKeys-filter (λ g. g.id) (λ g. not (g.id == f.id)) s.fragments),
    ),
  )

  pub Keeps-store_fragment :
      (f : Fragment) (s t : Store) → store_fragment f s ≡ some t → IsOutside j s f → Keeps s t
  unfolding Keeps IsOutside
  Keeps-store_fragment f s t h o = (
    IsKept-store_fragment j f s t h o,
    (
      (λ g x. IsOutside-store_fragment j f s t g h o.1 x),
      (edges-store_fragment j f s t h, HasUniqueKeys-store_fragment j f s t h),
    ),
  )

  -- The fragments that the loop may still meet.
  abbrev pub AreOutside : SealedMembership → Store → List Fragment → Type 0
  AreOutside m s = All (λ f. protects_fragment m f ≡ false → IsOutside j s f)

  pub AreOutside-Keeps :
      (m : SealedMembership) (s t : Store) (fs : List Fragment)
      → Keeps s t
      → AreOutside m s fs
      → AreOutside m t fs
  unfolding Keeps
  AreOutside-Keeps m s t fs (k, (o, rest)) a =
      All-imp (λ f. protects_fragment m f ≡ false → IsOutside j s f) _ (λ f h n. o f (h n)) fs a

  module _ (m : SealedMembership) (now : ℕ) where
    expires-unprotected : (f : Fragment) → expires m now f ≡ true → protects_fragment m f ≡ false
    unfolding expires
    expires-unprotected f h = elim (Bool-cases (protects_fragment m f)) [
      | inl y ↦ elim (Bool-cases (not (is_working_tier f.tier) || not (is_expired now f))) [
        | inl a ↦ absurd (false_of_both {b = expires m now f} (rw a) h)
        | inr n ↦ absurd (false_of_both {b = expires m now f} (rw (n, y)) h)
      ]
      | inr n ↦ n
    ]

    Keeps-expire_one :
        (f : Fragment) (count : ℕ) (s : Store)
        → (protects_fragment m f ≡ false → IsOutside j s f)
        → Keeps s (expire_one m now f (count, s)).1
    unfolding expire_one
    Keeps-expire_one f count s o = elim (Bool-cases (expires m now f)) [
      | inl y ↦ rw y (Keeps-delete s f (o (expires-unprotected f y)))
      | inr n ↦ rw n (Keeps-refl s)
    ]

    Keeps-expire_each :
        (fs : List Fragment) (r : ℕ × Store)
        → AreOutside m r.1 fs
        → Keeps r.1 (expire_each m now fs r).1
    unfolding expire_each
    Keeps-expire_each [] r a = Keeps-refl r.1
    Keeps-expire_each (f ∷ fs) (count, s) a =
        let one = Keeps-expire_one f count s a.0 in
        Keeps-trans s _ _ one
          (Keeps-expire_each fs (expire_one m now f (count, s)) (AreOutside-Keeps m s _ fs one a.1))

    action-unprotected :
        (threshold : ℕ) (f : Fragment)
        → action m threshold now f ≢ skip
        → protects_fragment m f ≡ false
    unfolding action
    action-unprotected threshold f h = elim (Bool-cases (protects_fragment m f)) [
      | inl y ↦ elim (Bool-cases (not (is_working_tier f.tier) && is_none f.ttl_seconds)) [
        | inl a ↦ absurd (h (rw a))
        | inr n ↦ absurd (h (rw (n, y)))
      ]
      | inr n ↦ n
    ]

    module _ {ℓ} {G : Type ℓ} (gate : Gate G) (threshold : ℕ) where
      Keeps-promote :
          (f : Fragment) (r : ConsolidationResult) (s : Store) (v : GateResult)
          → IsOutside j s f
          → OnSome (λ done. Keeps s done.1) (promote gate now f r s v)
      unfolding promote
      Keeps-promote f r s v o = elim (Bool-cases v.passed) [
        | inr n ↦ rw n (Keeps-refl s)
        | inl y ↦ elim (Option-cases (store_fragment (promoted_copy v.content now f) s)) [
          | inl n ↦ rw (y, n) tt
          | inr (t, h) ↦
              rw (y, h)
                (Keeps-store_fragment (promoted_copy v.content now f) s t h
                  (unfold IsOutside promoted_copy in o))
        ]
      ]

      Keeps-act :
          (f : Fragment) (r : ConsolidationResult) (g : G) (s : Store) (a : Action)
          → (a ≢ skip → IsOutside j s f)
          → OnSome (λ done. Keeps s done.1.1) (act gate now f r g s a)
      unfolding act
      Keeps-act f r g s skip o = Keeps-refl s
      Keeps-act f r g s expire_it o = Keeps-delete s f (o (λ e. cc))
      Keeps-act f r g s submit o =
          let (v, g') = gate.check g f.content f.confidence in
          OnSome-map (λ done. (done.0, (g', done.1))) (λ done. Keeps s done.1.1)
            (promote gate now f r s v) (Keeps-promote f r s v (o (λ e. cc)))

      Keeps-run_each :
          (fs : List Fragment) (r : ConsolidationResult × (G × Store))
          → AreOutside m r.1.1 fs
          → OnSome (λ done. Keeps r.1.1 done.1.1) (run_each gate m threshold now fs r)
      unfolding run_each step
      Keeps-run_each [] r a = Keeps-refl r.1.1
      Keeps-run_each (f ∷ fs) (r, (g, s)) a =
          OnSome-bind (λ done. Keeps s done.1.1) (λ done. Keeps s done.1.1)
            (run_each gate m threshold now fs) (act gate now f r g s (action m threshold now f))
            (λ done here.
              OnSome-imp (λ d. Keeps done.1.1 d.1.1) (λ d. Keeps s d.1.1)
                (λ d k. Keeps-trans s done.1.1 d.1.1 here k) (run_each gate m threshold now fs done)
                (Keeps-run_each fs done (AreOutside-Keeps m s done.1.1 fs here a.1)))
            (Keeps-act f r g s (action m threshold now f)
              (λ n. a.0 (action-unprotected threshold f n)))

module _ (agent_id j : String) (b : Block) (s : Store) (found : get_block s j ≡ some b)
    (mine : (b.agent_id == agent_id) ≡ true) (sealed_block : has_seal b ≡ true)
    (unique : HasUniqueKeys (λ f. f.id) s.fragments) where
  pub seal_is_known : is_in (sealed_membership s agent_id).block_ids j ≡ true
  seal_is_known =
      subst (λ i. is_in (sealed_membership s agent_id).block_ids i ≡ true)
        (get_block-id s j b found) (sealed_membership-has s agent_id j b found mine sealed_block)

  pub Keeps-expire : (now : ℕ) → Keeps j s (expire agent_id now s).1
  unfolding expire
  Keeps-expire now =
      let m : SealedMembership = sealed_membership s agent_id in
      let fs : List Fragment = list_by_agent s agent_id (λ f. is_working_tier f.tier) in
      Keeps-expire_each j m now fs (0, s)
        (listed-IsOutside j m seal_is_known s agent_id (λ f. is_working_tier f.tier) unique)

  pub Keeps-run {ℓ} :
      {G : Type ℓ} (gate : Gate G) (threshold now : ℕ) (g : G)
      {done : ConsolidationResult × (G × Store)}
      → run gate agent_id threshold now g s ≡ some done
      → Keeps j s done.1.1
  unfolding run
  Keeps-run gate threshold now g {done} h =
      let m : SealedMembership = sealed_membership s agent_id in
      let fs : List Fragment = list_by_agent s agent_id (λ f. true) in
      OnSome-eq (λ d. Keeps j s d.1.1) _ done
        (Keeps-run_each j m now gate threshold fs _
          (listed-IsOutside j m seal_is_known s agent_id (λ f. true) unique))
        h
