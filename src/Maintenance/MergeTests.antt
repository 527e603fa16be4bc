-- ===== src/Maintenance/MergeTests.antt =====
-- Deduplication of a store with two near duplicates beside a sealed block.
use mathlib.Core.Option
use mark_sdk.Prelude.{◌≡◌, refl, true, some, [], ◌∷◌, ◌&&◌, ◌==◌, All, if◌then◌else◌}
use mark_sdk.Types.Fragment.{Fragment}
use mark_sdk.Blocks.Hashing.{Node}
use mark_sdk.Blocks.Store.{
  Store, list_blocks, fragments_for_block, nodes_in_block, edges_in_block, join_nodes, opt_is,
}
use mark_sdk.Blocks.Members.{
  has_seal, add_block, add_blocks, sealed_membership, protects_fragment, protects_node,
}
use mark_sdk.Maintenance.Listing.{
  surfaces, listed_before, list_by_agent, delete, upsert, store_fragment, nodes_for_fragment,
  store_node,
}
use mark_sdk.Maintenance.Deduplication.{
  Embedded, DeduplicationResult, is_similar, put_in_cluster, build_clusters, is_eligible,
  repoint_each, drop_duplicate, drop_each, merged_seed, cluster_result, count_cluster,
  merge_cluster, merge_each, by_importance, deduplicate,
}
use mark_sdk.Maintenance.Provenance.{has_fragment}
use mark_sdk.Maintenance.Accounts.{IsAccounted, deduplicate-IsAccounted}
use mark_sdk.Maintenance.Survivors.{deduplicate-kept}
use mark_sdk.Maintenance.Tests.{kept_scene, loose_note, good_note, studio}

program : Unit {0}
unfolding Option.bind list_blocks fragments_for_block nodes_in_block edges_in_block join_nodes
    opt_is has_seal add_block add_blocks sealed_membership protects_fragment protects_node surfaces
    listed_before list_by_agent delete upsert store_fragment nodes_for_fragment store_node
    is_similar put_in_cluster build_clusters is_eligible repoint_each drop_duplicate drop_each
    merged_seed cluster_result count_cluster merge_cluster merge_each by_importance deduplicate
    has_fragment
program = tt

-- The loose note and the good one are near duplicates.
abbrev near : Embedded
near = record {
  has_embedding = λ i. true;
  cosine = λ i k. if (i == "f3") && (k == "f2") then 990000 else 0;
}

abbrev node_of : Fragment → Node
node_of f = record {
  id = "n1";
  node_type = "entity";
  label = "scene";
  fragment_id = some f.id;
  weight = 1;
  created_at = 4;
}

abbrev attic : Store
attic = record studio { nodes = node_of good_note ∷ [] }

abbrev merged_attic : Store
merged_attic = record studio {
  fragments =
      kept_scene ∷ record loose_note { merged_from_ids = "f3" ∷ []; cluster_size = some 2 } ∷ [];
  nodes = node_of loose_note ∷ [];
}

abbrev merging : DeduplicationResult
merging = record {
  merged = 1;
  kept = 1;
  skipped = 1;
  clusters = record { kept_id = "f2"; merged_from_ids = "f3" ∷ []; cluster_size = 2 } ∷ [];
}

deduplicated : deduplicate near "director" 950000 (λ f. true) attic ≡ some (merging, merged_attic)
deduplicated = unfold program in refl

-- With a higher threshold both are kept.
kept_apart :
    deduplicate near "director" 995000 (λ f. true) attic
    ≡ some (
      record {
        merged = 0;
        kept = 2;
        skipped = 1;
        clusters =
            record { kept_id = "f2"; merged_from_ids = []; cluster_size = 1 }
            ∷ record { kept_id = "f3"; merged_from_ids = []; cluster_size = 1 }
            ∷ [];
      },
      attic,
    )
kept_apart = unfold program in refl

deduplicate-IsAccounted_example : IsAccounted near 950000 "f3" (merging, merged_attic)
deduplicate-IsAccounted_example =
    deduplicate-IsAccounted near 950000 "director" "f3" (λ f. true) attic deduplicated
      (unfold program in refl)

deduplicate-kept_example : All (λ c. has_fragment c.kept_id merged_attic ≡ true) merging.clusters
deduplicate-kept_example =
    deduplicate-kept near "director" 950000 (λ f. true) attic
      ((refl, (refl, tt)), ((refl, tt), (tt, tt))) deduplicated
