-- ===== src/Maintenance/Survivors.antt =====
-- That deduplication keeps what it merges into (src/mark/memory/deduplication.py).
use mark_sdk.Prelude.{
  ℕ, String, ◌≡◌, refl, sym, subst, Bool, true, some, List, [], ◌&&◌, ◌==◌, inl, inr, map, All,
  All-imp₂, All-map, All-filter, All-sort_by, All-any_self, any, eq_refl, OnSome-eq, filter,
  sort_by, HasUniqueKeys, HasUniqueKeys-filter, HasUniqueKeys-sort_by, false_of_both,
}
use mark_sdk.Types.Fragment.{Fragment}
use mark_sdk.Blocks.Store.{Store}
use mark_sdk.Blocks.Members.{sealed_membership}
use mark_sdk.Maintenance.Listing.{list_by_agent, listed_before, surfaces}
use mark_sdk.Maintenance.Deduplication.{
  Embedded, Cluster, DeduplicationResult, build_clusters, is_eligible, cluster_result, merge_each,
  by_importance, deduplicate,
}
use mark_sdk.Maintenance.Merging.{OnMembers, build_clusters-OnMembers}
use mark_sdk.Maintenance.Provenance.{has_fragment}
use mark_sdk.Maintenance.Seeds.{is_seed, build_clusters-once, merge_each-has, merge_each-clusters}

module _ (e : Embedded) (agent_id : String) (threshold : ℕ) (wanted : Fragment → Bool)
    (s : Store) where
  -- The fragments that are clustered.
  unfoldable candidates : List Fragment
  candidates = sort_by by_importance (
      filter (λ f. e.has_embedding f.id)
        (filter (is_eligible (sealed_membership s agent_id) s) (list_by_agent s agent_id wanted)))

  candidates-stored : All (λ f. has_fragment f.id s ≡ true) candidates
  unfolding candidates list_by_agent has_fragment
  candidates-stored =
      let P : Fragment → Type 0 = λ f. any (λ g. g.id == f.id) s.fragments ≡ true in
      All-sort_by by_importance P _ (
        All-filter P (λ f. e.has_embedding f.id) _
          (All-filter P (is_eligible (sealed_membership s agent_id) s) _ (
            All-sort_by listed_before P _ (
              All-filter P (λ f. (f.agent_id == agent_id) && (surfaces s f.block_id && wanted f))
                s.fragments (All-any_self (λ f g. g.id == f.id) s.fragments (λ f. eq_refl f.id))))))

  candidates-HasUniqueKeys :
      HasUniqueKeys (λ f. f.id) s.fragments → HasUniqueKeys (λ f. f.id) candidates
  unfolding candidates list_by_agent
  candidates-HasUniqueKeys u =
      let key : Fragment → String = λ f. f.id in
      HasUniqueKeys-sort_by key by_importance _ (
        HasUniqueKeys-filter key (λ f. e.has_embedding f.id) _
          (HasUniqueKeys-filter key (is_eligible (sealed_membership s agent_id) s) _ (
            HasUniqueKeys-sort_by key listed_before _ (
              HasUniqueKeys-filter key
                (λ f. (f.agent_id == agent_id) && (surfaces s f.block_id && wanted f)) s.fragments
                u))))

  kept_stored :
      (r : DeduplicationResult) (done : DeduplicationResult × Store)
      → HasUniqueKeys (λ f. f.id) s.fragments
      → merge_each (build_clusters e threshold candidates []) (r, s) ≡ some done
      → All
          (λ (c : Cluster). has_fragment c.seed.id done.1 ≡ true)
          (build_clusters e threshold candidates [])
  kept_stored r done u h =
      let cs : List Cluster = build_clusters e threshold candidates [] in
      All-imp₂ (λ (c : Cluster). is_seed c.seed.id cs ≡ true)
        (OnMembers e threshold (λ f. has_fragment f.id s ≡ true))
        (λ (c : Cluster). has_fragment c.seed.id done.1 ≡ true)
        (λ c seed stored.
          elim (build_clusters-once e threshold c.seed.id candidates [] (candidates-HasUniqueKeys u)
            refl tt) [
              | inl clean ↦
                  OnSome-eq (λ rs. has_fragment c.seed.id rs.1 ≡ true) (merge_each cs (r, s)) done
                    (merge_each-has c.seed.id cs r s clean stored.0) h
              | inr free ↦ absurd (false_of_both free seed)
            ])
        cs (All-any_self (λ (c : Cluster) d. d.seed.id == c.seed.id) cs (λ c. eq_refl c.seed.id))
        (build_clusters-OnMembers e threshold (λ f. has_fragment f.id s ≡ true) candidates []
          candidates-stored tt)

  -- If fragment ids are unique, then after a deduplication pass that returns every fragment that
  -- the result names as kept is stored: a seed is merged into no other cluster.
  pub deduplicate-kept :
      {done : DeduplicationResult × Store}
      → HasUniqueKeys (λ f. f.id) s.fragments
      → deduplicate e agent_id threshold wanted s ≡ some done
      → All (λ c. has_fragment c.kept_id done.1 ≡ true) done.0.clusters
  unfolding deduplicate candidates cluster_result
  deduplicate-kept {done} u h =
      let cs : List Cluster = build_clusters e threshold candidates [] in
      subst (All (λ c. has_fragment c.kept_id done.1 ≡ true))
        (sym (
          OnSome-eq (λ rs. rs.0.clusters ≡ map cluster_result cs) _ done
            (merge_each-clusters cs _ s) h))
        (All-map cluster_result (λ c. has_fragment c.kept_id done.1 ≡ true) cs
          (kept_stored _ done u h))
