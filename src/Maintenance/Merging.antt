-- ===== src/Maintenance/Merging.antt =====
-- Deduplication and the sealed blocks (src/mark/memory/deduplication.py).
use mark_sdk.Prelude.{
  ℕ, String, ◌≡◌, refl, ap, sym, ◌∙◌, subst, Bool, true, false, some, List, [], ◌∷◌, ◌==◌, arith,
  inl, inr, Bool-cases, Option-cases, All, All-imp, All-append, All-filter, All-filter_imp,
  All-sort_by, HasUniqueKeys, OnSome, OnSome-bind, OnSome-imp, OnSome-eq, is_in, any,
}
use mark_sdk.Types.Fragment.{Fragment}
use mark_sdk.Blocks.Hashing.{Node}
use mark_sdk.Blocks.Store.{Block, BlockNode, Store, get_block, nodes_in_block}
use mark_sdk.Blocks.Seal.{get_block-id}
use mark_sdk.Blocks.Members.{
  SealedMembership, sealed_membership, protects_fragment, protects_node, has_seal,
  sealed_membership-has_nodes,
}
use mark_sdk.Maintenance.Listing.{
  list_by_agent, delete, store_fragment, nodes_for_fragment, store_node,
}
use mark_sdk.Maintenance.Deduplication.{
  Embedded, Cluster, is_single, DeduplicationResult, is_similar, put_in_cluster, build_clusters,
  is_eligible, repoint_each, drop_duplicate, drop_each, merged_seed, merge_cluster, merge_each,
  by_importance, deduplicate,
}
use mark_sdk.Maintenance.Sealed.{IsOutside, listed-IsOutside, store_fragment-ok}
use mark_sdk.Maintenance.Jobs.{
  Keeps, Keeps-refl, Keeps-trans, Keeps-delete, Keeps-store_fragment, seal_is_known,
}
use mark_sdk.Maintenance.Nodes.{
  IsFree, AreNodesFree, Keeps-store_node, AreNodesFree-store_node, AreNodesFree-of_any,
}

module _ (j : String) (bn : List BlockNode) where
  -- A step that keeps the block, its members and which nodes are outside it.
  abbrev Moves : Store → Store → Type 0
  Moves s t =
      Keeps j s t
      × ((t.block_nodes ≡ s.block_nodes)
          × ((i : String) → AreNodesFree j bn s i → AreNodesFree j bn t i))

  Moves-refl : (s : Store) → Moves s s
  Moves-refl s = (Keeps-refl j s, (refl, (λ i a. a)))

  Moves-trans : (s t u : Store) → Moves s t → Moves t u → Moves s u
  Moves-trans s t u (k, (b, a)) (k', (b', a')) =
      (Keeps-trans j s t u k k', (b' ∙ b, (λ i x. a' i (a i x))))

  -- A fragment that may be merged.
  unfoldable IsLoose : Store → Fragment → Type 0
  IsLoose s f = IsOutside j s f × AreNodesFree j bn s f.id

  IsLoose-Moves : (s t : Store) (f : Fragment) → Moves s t → IsLoose s f → IsLoose t f
  unfolding IsLoose Keeps
  IsLoose-Moves s t f (k, (b, a)) (o, n) = (k.1.0 f o, a f.id n)

  Moves-store_node :
      (n : Node) (s : Store) → s.block_nodes ≡ bn → IsFree j bn n.id → Moves s (store_node n s)
  unfolding store_node
  Moves-store_node n s same free = (
    Keeps-store_node j n s (subst (λ l. IsFree j l n.id) (sym same) free),
    (refl, (λ i a. AreNodesFree-store_node j bn n s i free a)),
  )

  Moves-repoint_each :
      (seed_id : String) (ns : List Node) (s : Store)
      → s.block_nodes ≡ bn
      → All (λ n. IsFree j bn n.id) ns
      → Moves s (repoint_each seed_id ns s)
  unfolding repoint_each
  Moves-repoint_each seed_id [] s same a = Moves-refl s
  Moves-repoint_each seed_id (n ∷ ns) s same a =
      let moved = Moves-store_node (record n { fragment_id = some seed_id }) s same a.0 in
      Moves-trans s _ _ moved (
        Moves-repoint_each seed_id ns (store_node (record n { fragment_id = some seed_id }) s)
          (moved.1.0 ∙ same) a.1)

  Moves-drop_duplicate :
      (seed_id : String) (f : Fragment) (s : Store)
      → s.block_nodes ≡ bn
      → IsLoose s f
      → Moves s (drop_duplicate seed_id f s)
  unfolding drop_duplicate IsLoose AreNodesFree nodes_for_fragment Keeps delete
  Moves-drop_duplicate seed_id f s same (o, free) =
      let moved =
        Moves-repoint_each seed_id (nodes_for_fragment s f.id) s same
          (All-filter_imp (λ n. IsFree j bn n.id) _ s.nodes free) in
      Moves-trans s _ _ moved (
        Keeps-delete j (repoint_each seed_id (nodes_for_fragment s f.id) s) f (moved.0.1.0 f o),
        (refl, (λ i a. a)),
      )

  Moves-drop_each :
      (seed_id : String) (fs : List Fragment) (s : Store)
      → s.block_nodes ≡ bn
      → All (IsLoose s) fs
      → Moves s (drop_each seed_id fs s)
  unfolding drop_each
  Moves-drop_each seed_id [] s same a = Moves-refl s
  Moves-drop_each seed_id (f ∷ fs) s same a =
      let moved = Moves-drop_duplicate seed_id f s same a.0 in
      Moves-trans s _ _ moved (
        Moves-drop_each seed_id fs (drop_duplicate seed_id f s) (moved.1.0 ∙ same) (
          All-imp (IsLoose s) (IsLoose (drop_duplicate seed_id f s))
            (λ g l. IsLoose-Moves s _ g moved l) fs a.1))

  Moves-store_fragment :
      (f : Fragment) (s t : Store) → store_fragment f s ≡ some t → IsOutside j s f → Moves s t
  unfolding AreNodesFree
  Moves-store_fragment f s t h o =
      let e = store_fragment-ok j f s t h in
      (
        Keeps-store_fragment j f s t h o,
        (ap (λ u. u.block_nodes) e, (λ i a. rw (ap (λ u. u.nodes) e) a)),
      )

  abbrev AreLoose : Store → Cluster → Type 0
  AreLoose s c = IsLoose s c.seed × All (IsLoose s) c.joined

  Moves-merge_cluster :
      (c : Cluster) (r : DeduplicationResult) (s : Store)
      → s.block_nodes ≡ bn
      → AreLoose s c
      → OnSome (λ rs. Moves s rs.1) (merge_cluster c (r, s))
  unfolding merge_cluster
  Moves-merge_cluster c r s same a = elim (Bool-cases (is_single c.joined)) [
    | inl y ↦ rw y (Moves-refl s)
    | inr n ↦ elim (Option-cases (store_fragment (merged_seed c) s)) [
      | inl k ↦ rw (n, k) tt
      | inr (t, h) ↦
          let moved : Moves s t =
            Moves-store_fragment (merged_seed c) s t h
              (unfold IsOutside merged_seed IsLoose in a.0.0) in
          rw (n, h)
            (Moves-trans s t _ moved (
              Moves-drop_each c.seed.id c.joined t (moved.1.0 ∙ same) (
                All-imp (IsLoose s) (IsLoose t) (λ g l. IsLoose-Moves s t g moved l) c.joined a.1)))
    ]
  ]

  AreLoose-Moves : (s t : Store) (c : Cluster) → Moves s t → AreLoose s c → AreLoose t c
  AreLoose-Moves s t c moved a = (
    IsLoose-Moves s t c.seed moved a.0,
    All-imp (IsLoose s) (IsLoose t) (λ g l. IsLoose-Moves s t g moved l) c.joined a.1,
  )

  Moves-merge_each :
      (cs : List Cluster) (r : DeduplicationResult) (s : Store)
      → s.block_nodes ≡ bn
      → All (AreLoose s) cs
      → OnSome (λ rs. Moves s rs.1) (merge_each cs (r, s))
  unfolding merge_each
  Moves-merge_each [] r s same a = Moves-refl s
  Moves-merge_each (c ∷ cs) r s same a =
      OnSome-bind (λ rs. Moves s rs.1) (λ rs. Moves s rs.1) (merge_each cs) (merge_cluster c (r, s))
        (λ done moved.
          OnSome-imp (λ rs. Moves done.1 rs.1) (λ rs. Moves s rs.1)
            (λ rs k. Moves-trans s done.1 rs.1 moved k) (merge_each cs done)
            (Moves-merge_each cs done.0 done.1 (moved.1.0 ∙ same) (
              All-imp (AreLoose s) (AreLoose done.1) (λ d l. AreLoose-Moves s done.1 d moved l) cs
                a.1)))
        (Moves-merge_cluster c r s same a.0)

-- What holds of all fragments holds of all members of the clusters.
module _ {ℓ} (e : Embedded) (threshold : ℕ) (P : Fragment → Type ℓ) where
  abbrev pub OnMembers : Cluster → Type ℓ
  OnMembers c = P c.seed × All P c.joined

  put_in_cluster-OnMembers :
      (f : Fragment) (cs : List Cluster)
      → P f
      → All OnMembers cs
      → All OnMembers (put_in_cluster e threshold f cs)
  unfolding put_in_cluster
  put_in_cluster-OnMembers f [] h a = ((h, tt), tt)
  put_in_cluster-OnMembers f (c ∷ cs) h a = elim (Bool-cases (is_similar e threshold f c.seed)) [
    | inl y ↦ rw y ((a.0.0, All-append P c.joined (f ∷ []) a.0.1 (h, tt)), a.1)
    | inr n ↦ rw n (a.0, put_in_cluster-OnMembers f cs h a.1)
  ]

  pub build_clusters-OnMembers :
      (fs : List Fragment) (cs : List Cluster)
      → All P fs
      → All OnMembers cs
      → All OnMembers (build_clusters e threshold fs cs)
  unfolding build_clusters
  build_clusters-OnMembers [] cs h a = a
  build_clusters-OnMembers (f ∷ fs) cs h a =
      build_clusters-OnMembers fs (put_in_cluster e threshold f cs) h.1
        (put_in_cluster-OnMembers f cs h.0 a)

any_of_any {ℓ} :
    {A : Type ℓ} (p : A → Bool) (xs : List A) → any p xs ≡ true → any (λ _. true) xs ≡ true
any_of_any p [] h = h
any_of_any p (x ∷ xs) h = refl

unprotected_of_eligible :
    (m : SealedMembership) (s : Store) (f : Fragment)
    → any (λ _. true) m.block_ids ≡ true
    → is_eligible m s f ≡ true
    → (protects_fragment m f ≡ false) × (any (protects_node m) (nodes_for_fragment s f.id) ≡ false)
unfolding is_eligible
unprotected_of_eligible m s f some_block h = (ground arith, ground arith)

module _ (agent_id j : String) (b : Block) (s : Store) (found : get_block s j ≡ some b)
    (mine : (b.agent_id == agent_id) ≡ true) (sealed_block : has_seal b ≡ true)
    (unique : HasUniqueKeys (λ f. f.id) s.fragments) where
  abbrev known : is_in (sealed_membership s agent_id).block_ids j ≡ true
  known = seal_is_known agent_id j b s found mine sealed_block unique

  eligible-IsLoose :
      (f : Fragment)
      → (protects_fragment (sealed_membership s agent_id) f ≡ false → IsOutside j s f)
      → is_eligible (sealed_membership s agent_id) s f ≡ true
      → IsLoose j s.block_nodes s f
  unfolding IsLoose
  eligible-IsLoose f o h =
      let m : SealedMembership = sealed_membership s agent_id in
      let (fragment_free, nodes_free) =
        unprotected_of_eligible m s f (any_of_any (λ i. i == j) m.block_ids known) h in
      (
        o fragment_free,
        AreNodesFree-of_any j m.node_ids s
            (subst (λ i. All (λ n. is_in m.node_ids n.id ≡ true) (nodes_in_block s i))
              (get_block-id s j b found)
              (sealed_membership-has_nodes s agent_id j b found mine sealed_block))
            m f.id refl nodes_free,
      )

  pub Keeps-deduplicate :
      (e : Embedded) (threshold : ℕ) (wanted : Fragment → Bool) {done : DeduplicationResult × Store}
      → deduplicate e agent_id threshold wanted s ≡ some done
      → Keeps j s done.1
  unfolding deduplicate
  Keeps-deduplicate e threshold wanted {done} h =
      let m : SealedMembership = sealed_membership s agent_id in
      let P : Fragment → Type 0 = IsLoose j s.block_nodes s in
      let listed : List Fragment = list_by_agent s agent_id wanted in
      let outside = listed-IsOutside j m known s agent_id wanted unique in
      (OnSome-eq (λ rs. Moves j s.block_nodes s rs.1) _ done
        (Moves-merge_each j s.block_nodes _ _ s refl (
          build_clusters-OnMembers e threshold P _ []
            (All-sort_by by_importance P _ (
              All-filter P (λ f. e.has_embedding f.id) _
                (All-filter_imp P (is_eligible m s) listed (
                  All-imp (λ f. protects_fragment m f ≡ false → IsOutside j s f)
                    (λ f. is_eligible m s f ≡ true → P f) eligible-IsLoose listed outside))))
            tt))
        h).0
