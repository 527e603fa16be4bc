-- ===== src/Maintenance/Seeds.antt =====
-- The kept fragments of deduplication (src/mark/memory/deduplication.py).
use mark_sdk.Prelude.{
  ℕ, String, ◌≡◌, refl, ap, sym, ◌∙◌, subst, Bool, true, false, List, [], ◌∷◌, ◌++◌, ◌==◌, arith,
  inl, inr, Bool-cases, map, All, All-append, any, eq_sound, OnSome, OnSome-bind, OnSome-imp, ◌⊎◌,
  append_assoc, append-nil, HasUniqueKeys, IsFresh,
}
use mark_sdk.Types.Fragment.{Fragment}
use mark_sdk.Blocks.Store.{Store}
use mark_sdk.Maintenance.Deduplication.{
  Embedded, Cluster, DeduplicationResult, is_similar, put_in_cluster, build_clusters,
  cluster_result, merge_cluster, merge_each,
}
use mark_sdk.Maintenance.Provenance.{has_fragment, merge_cluster-has, merge_cluster-clusters}

-- Some cluster has a seed with that id; and no cluster has a joined fragment with it.
abbrev pub is_seed : String → List Cluster → Bool
is_seed i cs = any (λ c. c.seed.id == i) cs

abbrev pub IsNotJoined : String → List Cluster → Type 0
IsNotJoined i cs = All (λ (c : Cluster). All (λ f. (f.id == i) ≡ false) c.joined) cs

module _ (e : Embedded) (threshold : ℕ) (i : String) where
  put_in_cluster-IsNotJoined :
      (f : Fragment) (cs : List Cluster)
      → (f.id == i) ≡ false
      → IsNotJoined i cs
      → IsNotJoined i (put_in_cluster e threshold f cs)
  unfolding put_in_cluster
  put_in_cluster-IsNotJoined f [] n a = (tt, tt)
  put_in_cluster-IsNotJoined f (c ∷ cs) n a = elim (Bool-cases (is_similar e threshold f c.seed)) [
    | inl y ↦ rw y (All-append (λ g. (g.id == i) ≡ false) c.joined (f ∷ []) a.0 (n, tt), a.1)
    | inr k ↦ rw k (a.0, put_in_cluster-IsNotJoined f cs n a.1)
  ]

  put_in_cluster-not_seed :
      (f : Fragment) (cs : List Cluster)
      → (f.id == i) ≡ false
      → is_seed i cs ≡ false
      → is_seed i (put_in_cluster e threshold f cs) ≡ false
  unfolding put_in_cluster
  put_in_cluster-not_seed f [] n a = rw n refl
  put_in_cluster-not_seed f (c ∷ cs) n a = elim (Bool-cases (is_similar e threshold f c.seed)) [
    | inl y ↦ rw y a
    | inr k ↦
        let first : (c.seed.id == i) ≡ false = ground arith in
        rw (k, first) (put_in_cluster-not_seed f cs n (ground arith))
  ]

  -- The fragment with the id becomes a seed or joins a cluster, not both.
  put_in_cluster-once :
      (f : Fragment) (cs : List Cluster)
      → is_seed i cs ≡ false
      → IsNotJoined i cs
      → IsNotJoined i (put_in_cluster e threshold f cs)
        ⊎ (is_seed i (put_in_cluster e threshold f cs) ≡ false)
  unfolding put_in_cluster
  put_in_cluster-once f [] n a = inl (tt, tt)
  put_in_cluster-once f (c ∷ cs) n a =
      let first : (c.seed.id == i) ≡ false = ground arith in
      elim (Bool-cases (is_similar e threshold f c.seed)) [
        | inl y ↦ inr (rw y n)
        | inr k ↦ elim (put_in_cluster-once f cs (ground arith) a.1) [
          | inl clean ↦ inl (rw k (a.0, clean))
          | inr free ↦ inr (rw (k, first) free)
        ]
      ]

  build_clusters-IsNotJoined :
      (fs : List Fragment) (cs : List Cluster)
      → IsFresh (λ f. f.id) i fs
      → IsNotJoined i cs
      → IsNotJoined i (build_clusters e threshold fs cs)
  unfolding build_clusters
  build_clusters-IsNotJoined [] cs n a = a
  build_clusters-IsNotJoined (f ∷ fs) cs n a =
      build_clusters-IsNotJoined fs (put_in_cluster e threshold f cs) n.1
        (put_in_cluster-IsNotJoined f cs n.0 a)

  build_clusters-not_seed :
      (fs : List Fragment) (cs : List Cluster)
      → IsFresh (λ f. f.id) i fs
      → is_seed i cs ≡ false
      → is_seed i (build_clusters e threshold fs cs) ≡ false
  unfolding build_clusters
  build_clusters-not_seed [] cs n a = a
  build_clusters-not_seed (f ∷ fs) cs n a =
      build_clusters-not_seed fs (put_in_cluster e threshold f cs) n.1
        (put_in_cluster-not_seed f cs n.0 a)

  pub build_clusters-once :
      (fs : List Fragment) (cs : List Cluster)
      → HasUniqueKeys (λ f. f.id) fs
      → is_seed i cs ≡ false
      → IsNotJoined i cs
      → IsNotJoined i (build_clusters e threshold fs cs)
        ⊎ (is_seed i (build_clusters e threshold fs cs) ≡ false)
  unfolding build_clusters
  build_clusters-once [] cs u n a = inl a
  build_clusters-once (f ∷ fs) cs u n a = elim (Bool-cases (f.id == i)) [
    | inl y ↦
        let fresh : IsFresh (λ g. g.id) i fs =
          subst (λ k. IsFresh (λ (g : Fragment). g.id) k fs) (eq_sound f.id i y) u.0 in
        elim (put_in_cluster-once f cs n a) [
          | inl clean ↦
              inl (build_clusters-IsNotJoined fs (put_in_cluster e threshold f cs) fresh clean)
          | inr free ↦ inr (build_clusters-not_seed fs (put_in_cluster e threshold f cs) fresh free)
        ]
    | inr k ↦
        build_clusters-once fs (put_in_cluster e threshold f cs) u.1
          (put_in_cluster-not_seed f cs k n) (put_in_cluster-IsNotJoined f cs k a)
  ]

pub merge_each-has :
    (i : String) (cs : List Cluster) (r : DeduplicationResult) (s : Store)
    → IsNotJoined i cs
    → has_fragment i s ≡ true
    → OnSome (λ rs. has_fragment i rs.1 ≡ true) (merge_each cs (r, s))
unfolding merge_each
merge_each-has i [] r s a h = h
merge_each-has i (c ∷ cs) r s a h =
    OnSome-bind (λ rs. has_fragment i rs.1 ≡ true) (λ rs. has_fragment i rs.1 ≡ true)
      (merge_each cs) (merge_cluster c (r, s))
      (λ done here. merge_each-has i cs done.0 done.1 a.1 here) (merge_cluster-has i c r s a.0 h)

pub merge_each-clusters :
    (cs : List Cluster) (r : DeduplicationResult) (s : Store)
    → OnSome (λ rs. rs.0.clusters ≡ r.clusters ++ map cluster_result cs) (merge_each cs (r, s))
unfolding merge_each
merge_each-clusters [] r s = sym (append-nil r.clusters)
merge_each-clusters (c ∷ cs) r s =
    OnSome-bind (λ rs. rs.0.clusters ≡ r.clusters ++ cluster_result c ∷ [])
      (λ rs. rs.0.clusters ≡ r.clusters ++ map cluster_result (c ∷ cs)) (merge_each cs)
      (merge_cluster c (r, s))
      (λ done here.
        OnSome-imp (λ rs. rs.0.clusters ≡ done.0.clusters ++ map cluster_result cs)
          (λ rs. rs.0.clusters ≡ r.clusters ++ map cluster_result (c ∷ cs))
          (λ rs there.
            there
            ∙ (ap (λ l. l ++ map cluster_result cs) here
                ∙ append_assoc r.clusters (cluster_result c ∷ []) (map cluster_result cs)))
          (merge_each cs done) (merge_each-clusters cs done.0 done.1))
      (merge_cluster-clusters c r s)
