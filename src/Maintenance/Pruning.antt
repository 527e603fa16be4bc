-- ===== src/Maintenance/Pruning.antt =====
-- The pruner and the sealed blocks (src/mark/plasticity/pruner.py).
use mark_sdk.Prelude.{
  ℕ, String, ◌≡◌, true, false, some, List, [], ◌∷◌, ◌||◌, ◌==◌, inl, inr, Bool-cases, Option-cases,
  All, All-imp, HasUniqueKeys, arith, leb, OnSome, OnSome-map, OnSome-bind, OnSome-imp, OnSome-eq,
  is_in, HasUniqueKeys-filter, ◌∙◌, not, refl,
}
use mark_sdk.Types.Fragment.{Fragment}
use mark_sdk.Blocks.Hashing.{Edge}
use mark_sdk.Blocks.Store.{Block, Store, get_block}
use mark_sdk.Blocks.Members.{
  SealedMembership, sealed_membership, protects_fragment, protects_edge, has_seal,
}
use mark_sdk.Maintenance.Listing.{list_by_agent, store_fragment, list_edges, delete_edge}
use mark_sdk.Maintenance.Plasticity.{
  ExponentialDecay, apply_decay, PrunerStats, is_protected_state, differs, decayed_copy,
  persist_decay, prune_fragment, prune_one, prune_each, should_dissolve, dissolve_one,
  dissolve_each, prune,
}
use mark_sdk.Maintenance.Sealed.{
  IsKept, IsKept-refl, IsKept-trans, IsOutside, listed-IsOutside, IsEdgeOutside, IsKept-delete_edge,
  IsEdgeOutside-delete_edge, listed-IsEdgeOutside,
}
use mark_sdk.Maintenance.Jobs.{
  Keeps, Keeps-refl, Keeps-trans, Keeps-delete, Keeps-store_fragment, AreOutside, AreOutside-Keeps,
  seal_is_known,
}

module _ (j : String) (d : ExponentialDecay) (now : ℕ) where
  Keeps-persist_decay :
      (f : Fragment) (new_imp : ℕ) (r : PrunerStats) (s : Store)
      → IsOutside j s f
      → OnSome (λ rs. Keeps j s rs.1) (persist_decay d now f new_imp (r, s))
  unfolding persist_decay
  Keeps-persist_decay f new_imp r s o = elim (Bool-cases (differs new_imp f.importance)) [
    | inr n ↦ rw n (Keeps-refl j s)
    | inl y ↦ elim (Option-cases (store_fragment (decayed_copy new_imp now f) s)) [
      | inl n ↦ rw (y, n) tt
      | inr (t, h) ↦
          rw (y, h)
            (Keeps-store_fragment j (decayed_copy new_imp now f) s t h
              (unfold IsOutside decayed_copy in o))
    ]
  ]

  Keeps-prune_fragment :
      (f : Fragment) (new_imp : ℕ) (rs : PrunerStats × Store)
      → IsOutside j rs.1 f
      → Keeps j rs.1 (prune_fragment d f new_imp rs).1
  unfolding prune_fragment
  Keeps-prune_fragment f new_imp (r, s) o = elim (Bool-cases (leb new_imp d.floor)) [
    | inl y ↦ rw y (Keeps-delete j s f o)
    | inr n ↦ rw n (Keeps-refl j s)
  ]

  module _ (m : SealedMembership) where
    Keeps-prune_one :
        (f : Fragment) (r : PrunerStats) (s : Store)
        → (protects_fragment m f ≡ false → IsOutside j s f)
        → OnSome (λ rs. Keeps j s rs.1) (prune_one d m now f (r, s))
    unfolding prune_one Keeps
    Keeps-prune_one f r s o =
        elim (Bool-cases (is_protected_state f.state || protects_fragment m f)) [
          | inl y ↦ rw y (Keeps-refl j s)
          | inr n ↦
              let outside : IsOutside j s f = o (ground arith) in
              rw n (
                OnSome-map (prune_fragment d f (apply_decay d now f)) (λ rs. Keeps j s rs.1)
                  (persist_decay d now f (apply_decay d now f) (r, s))
                  (OnSome-imp (λ rs. Keeps j s rs.1)
                    (λ rs. Keeps j s (prune_fragment d f (apply_decay d now f) rs).1)
                    (λ rs k.
                      Keeps-trans j s rs.1 _ k
                        (Keeps-prune_fragment f (apply_decay d now f) rs (k.1.0 f outside)))
                    (persist_decay d now f (apply_decay d now f) (r, s))
                    (Keeps-persist_decay f (apply_decay d now f) r s outside)))
        ]

    Keeps-prune_each :
        (fs : List Fragment) (rs : PrunerStats × Store)
        → AreOutside j m rs.1 fs
        → OnSome (λ done. Keeps j rs.1 done.1) (prune_each d m now fs rs)
    unfolding prune_each
    Keeps-prune_each [] rs a = Keeps-refl j rs.1
    Keeps-prune_each (f ∷ fs) (r, s) a =
        OnSome-bind (λ done. Keeps j s done.1) (λ done. Keeps j s done.1) (prune_each d m now fs)
          (prune_one d m now f (r, s))
          (λ done here.
            OnSome-imp (λ e. Keeps j done.1 e.1) (λ e. Keeps j s e.1)
              (λ e k. Keeps-trans j s done.1 e.1 here k) (prune_each d m now fs done)
              (Keeps-prune_each fs done (AreOutside-Keeps j m s done.1 fs here a.1)))
          (Keeps-prune_one f r s a.0)

module _ (j : String) (d : ExponentialDecay) (m : SealedMembership)
    (known : is_in m.block_ids j ≡ true) (edge_floor : ℕ) where
  AreEdgesOutside : Store → List Edge → Type 0
  AreEdgesOutside s = All (λ e. protects_edge m e ≡ false → IsEdgeOutside j m known s e)

  IsKept-dissolve_one :
      (e : Edge) (es : List Edge) (rs : PrunerStats × Store)
      → AreEdgesOutside rs.1 (e ∷ es)
      → IsKept j rs.1 (dissolve_one d m edge_floor e rs).1
        × AreEdgesOutside (dissolve_one d m edge_floor e rs).1 es
  unfolding dissolve_one AreEdgesOutside
  IsKept-dissolve_one e es (r, s) a = elim (Bool-cases (protects_edge m e)) [
    | inl y ↦ rw y (IsKept-refl j s, a.1)
    | inr n ↦ elim (Bool-cases (should_dissolve edge_floor e.weight)) [
      | inr k ↦ rw (n, k) (IsKept-refl j s, a.1)
      | inl k ↦
          rw (n, k)
            (
              IsKept-delete_edge j m known s e (a.0 n),
              All-imp (λ g. protects_edge m g ≡ false → IsEdgeOutside j m known s g)
                  (λ g. protects_edge m g ≡ false → IsEdgeOutside j m known (delete_edge e.id s) g)
                  (λ g h x. IsEdgeOutside-delete_edge j m known s e g (h x)) es a.1,
            )
    ]
  ]

  IsKept-dissolve_each :
      (es : List Edge) (rs : PrunerStats × Store)
      → AreEdgesOutside rs.1 es
      → IsKept j rs.1 (dissolve_each d m edge_floor es rs).1
  unfolding dissolve_each
  IsKept-dissolve_each [] rs a = IsKept-refl j rs.1
  IsKept-dissolve_each (e ∷ es) rs a =
      let (here, rest) = IsKept-dissolve_one e es rs a in
      IsKept-trans j rs.1 _ _ here (IsKept-dissolve_each es (dissolve_one d m edge_floor e rs) rest)

dissolve_one-HasUniqueKeys :
    (d : ExponentialDecay) (m : SealedMembership) (edge_floor : ℕ) (e : Edge) (r : PrunerStats)
    (s : Store)
    → HasUniqueKeys (λ e. e.id) s.edges
    → HasUniqueKeys (λ e. e.id) (dissolve_one d m edge_floor e (r, s)).1.edges
      × ((dissolve_one d m edge_floor e (r, s)).1.fragments ≡ s.fragments)
unfolding dissolve_one delete_edge
dissolve_one-HasUniqueKeys d m edge_floor e r s u = elim (Bool-cases (protects_edge m e)) [
  | inl y ↦ rw y (u, refl)
  | inr n ↦ elim (Bool-cases (should_dissolve edge_floor e.weight)) [
    | inl y ↦ rw (n, y) (HasUniqueKeys-filter (λ g. g.id) (λ g. not (g.id == e.id)) s.edges u, refl)
    | inr k ↦ rw (n, k) (u, refl)
  ]
]

-- Dissolving edges leaves the fragments, and the ids of edges unique.
dissolve_each-HasUniqueKeys :
    (d : ExponentialDecay) (m : SealedMembership) (edge_floor : ℕ) (es : List Edge)
    (rs : PrunerStats × Store)
    → HasUniqueKeys (λ e. e.id) rs.1.edges
    → HasUniqueKeys (λ e. e.id) (dissolve_each d m edge_floor es rs).1.edges
      × ((dissolve_each d m edge_floor es rs).1.fragments ≡ rs.1.fragments)
unfolding dissolve_each
dissolve_each-HasUniqueKeys d m edge_floor [] rs u = (u, refl)
dissolve_each-HasUniqueKeys d m edge_floor (e ∷ es) (r, s) u =
    let (here, same) = dissolve_one-HasUniqueKeys d m edge_floor e r s u in
    let (there, same') =
      dissolve_each-HasUniqueKeys d m edge_floor es (dissolve_one d m edge_floor e (r, s)) here in
    (there, same' ∙ same)

module _ (agent_id j : String) (b : Block) (s : Store) (found : get_block s j ≡ some b)
    (mine : (b.agent_id == agent_id) ≡ true) (sealed_block : has_seal b ≡ true)
    (unique : HasUniqueKeys (λ f. f.id) s.fragments)
    (unique_edges : HasUniqueKeys (λ e. e.id) s.edges) where
  -- What a pass leaves: the block, and unique ids.
  abbrev pub Leaves : Store → Type 0
  Leaves t =
      IsKept j s t × (HasUniqueKeys (λ f. f.id) t.fragments × HasUniqueKeys (λ e. e.id) t.edges)

  pub Leaves-Keeps : (t : Store) → Keeps j s t → Leaves t
  unfolding Keeps
  Leaves-Keeps t (k, (o, (e, v))) = (k, (v unique, rw e unique_edges))

  pub Leaves-prune :
      (d : ExponentialDecay) (now edge_floor : ℕ) {done : PrunerStats × Store}
      → prune d agent_id now edge_floor s ≡ some done
      → Leaves done.1
  unfolding prune Keeps AreEdgesOutside
  Leaves-prune d now edge_floor {done} h =
      let m : SealedMembership = sealed_membership s agent_id in
      let known = seal_is_known agent_id j b s found mine sealed_block unique in
      let fs : List Fragment = list_by_agent s agent_id (λ f. true) in
      OnSome-eq (λ rs. Leaves rs.1) _ done
        (OnSome-map (λ rs. dissolve_each d m edge_floor (list_edges rs.1 agent_id) rs)
          (λ rs. Leaves rs.1) (prune_each d m now fs _)
          (OnSome-imp (λ rs. Keeps j s rs.1) _
            (λ rs k.
              let kept_edges : HasUniqueKeys (λ e. e.id) rs.1.edges = rw k.1.1.0 unique_edges in
              let (edges_after, same) =
                dissolve_each-HasUniqueKeys d m edge_floor (list_edges rs.1 agent_id) rs
                  kept_edges in
              (
                IsKept-trans j s rs.1 _ k.0 (
                    IsKept-dissolve_each j d m known edge_floor (list_edges rs.1 agent_id) rs
                      (listed-IsEdgeOutside j m known rs.1 agent_id kept_edges)),
                (rw same (k.1.1.1 unique), edges_after),
              ))
            (prune_each d m now fs _)
            (Keeps-prune_each j d now m fs _
              (listed-IsOutside j m known s agent_id (λ f. true) unique))))
        h
