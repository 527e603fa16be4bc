-- ===== src/Maintenance/Deduplication.antt =====
-- Deduplication (src/mark/memory/deduplication.py). The embeddings and the floating-point cosine are
-- an argument, by the ids of the fragments, in millionths; centroids are left out.
use mathlib.Core.Option
use mark_sdk.Prelude.{
  ℕ, suc, ◌+◌, ◌-◌, String, Bool, true, false, Option, some, List, [], ◌∷◌, ◌++◌, not, ◌&&◌, map,
  leb, length, filter, any, sort_by, if◌then◌else◌,
}
use mark_sdk.Types.Fragment.{Fragment}
use mark_sdk.Blocks.Hashing.{Node}
use mark_sdk.Blocks.Store.{Store}
use mark_sdk.Blocks.Members.{SealedMembership, sealed_membership, protects_fragment, protects_node}
use mark_sdk.Maintenance.Working.{is_evidence}
use mark_sdk.Maintenance.Listing.{
  list_by_agent, delete, store_fragment, nodes_for_fragment, store_node,
}

-- Which fragments have an embedding, and _cosine of two of them.
pub record Embedded : Type 0 where
  pub has_embedding : String → Bool
  pub cosine : String → String → ℕ

pub record ClusterResult : Type 0 where
  pub kept_id : String
  pub merged_from_ids : List String
  pub cluster_size : ℕ

pub record DeduplicationResult : Type 0 where
  pub merged : ℕ
  pub kept : ℕ
  pub skipped : ℕ
  pub clusters : List ClusterResult

-- The first member of a cluster, and those that joined it.
pub record Cluster : Type 0 where
  pub seed : Fragment
  pub joined : List Fragment

module _ (e : Embedded) (threshold : ℕ) where
  unfoldable pub is_similar : Fragment → Fragment → Bool
  is_similar f seed = leb threshold (e.cosine f.id seed.id)

  -- The inner loop: the first cluster whose seed is similar, or a new cluster.
  unfoldable pub put_in_cluster : Fragment → List Cluster → List Cluster
  put_in_cluster f [] = record { seed = f; joined = [] } ∷ []
  put_in_cluster f (c ∷ cs) =
      if is_similar f c.seed
      then record c { joined = c.joined ++ f ∷ [] } ∷ cs
      else c ∷ put_in_cluster f cs

  unfoldable pub build_clusters : List Fragment → List Cluster → List Cluster
  build_clusters [] clusters = clusters
  build_clusters (f ∷ fs) clusters = build_clusters fs (put_in_cluster f clusters)

-- `sealed` is true where some block is sealed.
unfoldable pub is_eligible : SealedMembership → Store → Fragment → Bool
is_eligible m s f =
    (not (protects_fragment m f) && not (is_evidence f.state))
    && not (any (λ _. true) m.block_ids && any (protects_node m) (nodes_for_fragment s f.id))

-- The nodes of a duplicate point to the seed.
unfoldable pub repoint_each : String → List Node → Store → Store
repoint_each seed_id [] s = s
repoint_each seed_id (n ∷ ns) s =
    repoint_each seed_id ns (store_node (record n { fragment_id = some seed_id }) s)

unfoldable pub drop_duplicate : String → Fragment → Store → Store
drop_duplicate seed_id dup s = delete dup.id (repoint_each seed_id (nodes_for_fragment s dup.id) s)

unfoldable pub drop_each : String → List Fragment → Store → Store
drop_each seed_id [] s = s
drop_each seed_id (dup ∷ dups) s = drop_each seed_id dups (drop_duplicate seed_id dup s)

unfoldable pub merged_seed : Cluster → Fragment
merged_seed c = record (c.seed) {
  merged_from_ids = c.seed.merged_from_ids ++ map (λ f. f.id) c.joined;
  cluster_size = some (suc (length c.joined));
}

unfoldable pub cluster_result : Cluster → ClusterResult
cluster_result c = record {
  kept_id = c.seed.id;
  merged_from_ids = map (λ f. f.id) c.joined;
  cluster_size = suc (length c.joined);
}

unfoldable pub count_cluster : Cluster → DeduplicationResult → DeduplicationResult
count_cluster c r = record r {
  merged = r.merged + length c.joined;
  kept = suc r.kept;
  clusters = r.clusters ++ cluster_result c ∷ [];
}

abbrev pub is_single : List Fragment → Bool
is_single [] = true
is_single (f ∷ fs) = false

-- A single fragment is kept as it is; the seed of a cluster is stored with its metadata. none is the
-- ValueError of that write.
unfoldable pub merge_cluster :
    Cluster → DeduplicationResult × Store → Option (DeduplicationResult × Store)
merge_cluster c (r, s) =
    if is_single c.joined
    then some (count_cluster c r, s)
    else Option.map (λ s'. (count_cluster c r, drop_each c.seed.id c.joined s'))
        (store_fragment (merged_seed c) s)

unfoldable pub merge_each :
    List Cluster → DeduplicationResult × Store → Option (DeduplicationResult × Store)
merge_each [] rs = some rs
merge_each (c ∷ cs) rs = Option.bind (merge_cluster c rs) (merge_each cs)

-- ORDER BY importance DESC of the ones with an embedding
unfoldable pub by_importance : Fragment → Fragment → Bool
by_importance f g = leb g.importance f.importance

-- `wanted` is the test of the session.
unfoldable pub deduplicate :
    Embedded → String → ℕ → (Fragment → Bool) → Store → Option (DeduplicationResult × Store)
deduplicate e agent_id threshold wanted s =
    let all_fragments : List Fragment = list_by_agent s agent_id wanted in
    let eligible : List Fragment =
      filter (is_eligible (sealed_membership s agent_id) s) all_fragments in
    let embedded : List Fragment = filter (λ f. e.has_embedding f.id) eligible in
    merge_each (build_clusters e threshold (sort_by by_importance embedded) []) (
      record {
        merged = 0;
        kept = 0;
        skipped = length all_fragments - length embedded;
        clusters = [];
      },
      s,
    )
