-- ===== src/Maintenance/Accounts.antt =====
-- Where each fragment is after deduplication (src/mark/memory/deduplication.py).
use mark_sdk.Prelude.{
  ℕ, String, ◌≡◌, refl, subst, Bool, true, some, List, [], ◌∷◌, ◌++◌, ◌&&◌, ◌==◌, arith, inl, inr,
  Bool-cases, map, All, All-append, any, any-append, any-append_left, eq_sound, OnSome, OnSome-bind,
  OnSome-imp, OnSome-eq, is_in, leb, ◌⊎◌,
}
use mark_sdk.Types.Fragment.{Fragment}
use mark_sdk.Blocks.Store.{Store}
use mark_sdk.Maintenance.Deduplication.{
  Embedded, Cluster, ClusterResult, DeduplicationResult, is_similar, put_in_cluster, build_clusters,
  cluster_result, merge_cluster, merge_each, deduplicate,
}
use mark_sdk.Maintenance.Provenance.{
  has_fragment, ids-cases, merge_cluster-has, merge_cluster-clusters,
}

module _ (e : Embedded) (threshold : ℕ) where
  abbrev IsTight : Cluster → Type 0
  IsTight c = All (λ f. is_similar e threshold f c.seed ≡ true) c.joined

  put_in_cluster-IsTight :
      (f : Fragment) (cs : List Cluster)
      → All IsTight cs
      → All IsTight (put_in_cluster e threshold f cs)
  unfolding put_in_cluster
  put_in_cluster-IsTight f [] a = (tt, tt)
  put_in_cluster-IsTight f (c ∷ cs) a = elim (Bool-cases (is_similar e threshold f c.seed)) [
    | inl y ↦ rw y (
      All-append (λ g. is_similar e threshold g c.seed ≡ true) c.joined (f ∷ []) a.0 (y, tt),
      a.1,
    )
    | inr n ↦ rw n (a.0, put_in_cluster-IsTight f cs a.1)
  ]

  build_clusters-IsTight :
      (fs : List Fragment) (cs : List Cluster)
      → All IsTight cs
      → All IsTight (build_clusters e threshold fs cs)
  unfolding build_clusters
  build_clusters-IsTight [] cs a = a
  build_clusters-IsTight (f ∷ fs) cs a =
      build_clusters-IsTight fs (put_in_cluster e threshold f cs) (put_in_cluster-IsTight f cs a)

  -- The cluster says that it took the fragment, whose cosine to the kept one reaches the threshold.
  unfoldable pub takes : String → ClusterResult → Bool
  takes i c = is_in c.merged_from_ids i && leb threshold (e.cosine i c.kept_id)

  -- The fragment is stored, or some cluster took it.
  unfoldable pub IsAccounted : String → DeduplicationResult × Store → Type 0
  IsAccounted i rs = (has_fragment i rs.1 ≡ true) ⊎ (any (takes i) rs.0.clusters ≡ true)

  similar_member :
      (seed : Fragment) (i : String) (fs : List Fragment)
      → All (λ f. is_similar e threshold f seed ≡ true) fs
      → is_in (map (λ f. f.id) fs) i ≡ true
      → leb threshold (e.cosine i seed.id) ≡ true
  unfolding is_similar
  similar_member seed i [] a h = absurd (ground arith)
  similar_member seed i (f ∷ fs) a h = elim (Bool-cases (f.id == i)) [
    | inl y ↦ subst (λ k. leb threshold (e.cosine k seed.id) ≡ true) (eq_sound f.id i y) a.0
    | inr n ↦ similar_member seed i fs a.1 (rw n at h)
  ]

  takes-cluster_result :
      (i : String) (c : Cluster)
      → IsTight c
      → is_in (map (λ f. f.id) c.joined) i ≡ true
      → takes i (cluster_result c) ≡ true
  unfolding takes cluster_result
  takes-cluster_result i c a h = rw (h, similar_member c.seed i c.joined a h) refl

  merge_cluster-IsAccounted :
      (i : String) (c : Cluster) (r : DeduplicationResult) (s : Store)
      → IsTight c
      → IsAccounted i (r, s)
      → OnSome (IsAccounted i) (merge_cluster c (r, s))
  unfolding IsAccounted
  merge_cluster-IsAccounted i c r s tight (inr h) =
      OnSome-imp (λ rs. rs.0.clusters ≡ r.clusters ++ cluster_result c ∷ []) (IsAccounted i)
        (λ rs same. inr (rw same (any-append_left (takes i) r.clusters (cluster_result c ∷ []) h)))
        (merge_cluster c (r, s)) (merge_cluster-clusters c r s)
  merge_cluster-IsAccounted i c r s tight (inl h) = elim (ids-cases i c.joined) [
    | inl away ↦
        OnSome-imp (λ rs. has_fragment i rs.1 ≡ true) (IsAccounted i) (λ rs k. inl k)
          (merge_cluster c (r, s)) (merge_cluster-has i c r s away h)
    | inr joined ↦
        OnSome-imp (λ rs. rs.0.clusters ≡ r.clusters ++ cluster_result c ∷ []) (IsAccounted i)
          (λ rs same. inr (
            rw same (
              any-append (takes i) r.clusters (cluster_result c ∷ [])
                (rw (takes-cluster_result i c tight joined) refl))))
          (merge_cluster c (r, s)) (merge_cluster-clusters c r s)
  ]

  merge_each-IsAccounted :
      (i : String) (cs : List Cluster) (r : DeduplicationResult) (s : Store)
      → All IsTight cs
      → IsAccounted i (r, s)
      → OnSome (IsAccounted i) (merge_each cs (r, s))
  unfolding merge_each
  merge_each-IsAccounted i [] r s tight h = h
  merge_each-IsAccounted i (c ∷ cs) r s tight h =
      OnSome-bind (IsAccounted i) (IsAccounted i) (merge_each cs) (merge_cluster c (r, s))
        (λ done here. merge_each-IsAccounted i cs done.0 done.1 tight.1 here)
        (merge_cluster-IsAccounted i c r s tight.0 h)

  -- A deduplication pass that returns loses no fragment: each fragment that was stored is still
  -- stored, or a cluster of the result names it as merged into a kept fragment to which its cosine
  -- is at least the threshold.
  pub deduplicate-IsAccounted :
      (agent_id i : String) (wanted : Fragment → Bool) (s : Store)
      {done : DeduplicationResult × Store}
      → deduplicate e agent_id threshold wanted s ≡ some done
      → has_fragment i s ≡ true
      → IsAccounted i done
  unfolding deduplicate IsAccounted
  deduplicate-IsAccounted agent_id i wanted s {done} h stored =
      OnSome-eq (IsAccounted i) _ done
        (merge_each-IsAccounted i _ _ s (build_clusters-IsTight _ [] tt) (inl stored)) h
