-- ===== src/Maintenance/Provenance.antt =====
-- What deduplication does to each fragment (src/mark/memory/deduplication.py).
use mark_sdk.Prelude.{
  String, ◌≡◌, refl, ap, sym, ◌∙◌, subst, Bool, true, false, some, List, [], ◌∷◌, ◌++◌, not, ◌&&◌,
  ◌||◌, ◌==◌, arith, inl, inr, Bool-cases, Option-cases, map, All, any, any-append_left, any-filter,
  eq_iff, OnSome, is_in, if◌then◌else◌, ◌⊎◌,
}
use mark_sdk.Types.Fragment.{Fragment}
use mark_sdk.Blocks.Hashing.{Node}
use mark_sdk.Blocks.Store.{Store}
use mark_sdk.Maintenance.Listing.{delete, upsert, store_fragment, nodes_for_fragment, store_node}
use mark_sdk.Maintenance.Deduplication.{
  Cluster, is_single, DeduplicationResult, repoint_each, drop_duplicate, drop_each, merged_seed,
  cluster_result, count_cluster, merge_cluster,
}
use mark_sdk.Maintenance.Sealed.{store_fragment-ok}

-- A fragment with that id is stored.
unfoldable pub has_fragment : String → Store → Bool
has_fragment i s = any (λ f. f.id == i) s.fragments

any-map {ℓ κ} :
    {A : Type ℓ} {B : Type κ} (p : B → Bool) (f : A → B) (xs : List A)
    → any p (map f xs) ≡ any (λ x. p (f x)) xs
any-map p f [] = refl
any-map p f (x ∷ xs) = ap (λ b. p (f x) || b) (any-map p f xs)

any-eq {ℓ} :
    {A : Type ℓ} (p q : A → Bool) (xs : List A) → ((x : A) → p x ≡ q x) → any p xs ≡ any q xs
any-eq p q [] h = refl
any-eq p q (x ∷ xs) h = rw (h x, any-eq p q xs h) refl

upsert-has :
    (i : String) (f : Fragment) (fs : List Fragment)
    → any (λ g. g.id == i) fs ≡ true
    → any (λ g. g.id == i) (upsert f fs) ≡ true
unfolding upsert
upsert-has i f fs h = elim (Bool-cases (any (λ g. g.id == f.id) fs)) [
  | inl y ↦ rw y (
      any-map (λ g. g.id == i) (λ g. if g.id == f.id then f else g) fs
      ∙ (any-eq _ (λ g. g.id == i) fs (λ g. ground (arith, eq_iff g.id f.id)) ∙ h))
  | inr n ↦ rw n (any-append_left (λ g. g.id == i) fs (f ∷ []) h)
]

store_fragment-has :
    (i : String) (f : Fragment) (s t : Store)
    → store_fragment f s ≡ some t
    → has_fragment i s ≡ true
    → has_fragment i t ≡ true
unfolding has_fragment
store_fragment-has i f s t h k =
    subst (λ u. any (λ g. g.id == i) u.fragments ≡ true) (sym (store_fragment-ok i f s t h))
      (upsert-has i f s.fragments k)

fragments-repoint_each :
    (seed_id : String) (ns : List Node) (s : Store)
    → (repoint_each seed_id ns s).fragments ≡ s.fragments
unfolding repoint_each store_node
fragments-repoint_each seed_id [] s = refl
fragments-repoint_each seed_id (n ∷ ns) s =
    fragments-repoint_each seed_id ns (store_node (record n { fragment_id = some seed_id }) s)

delete-has :
    (i : String) (f : Fragment) (s : Store)
    → (f.id == i) ≡ false
    → has_fragment i s ≡ true
    → has_fragment i (delete f.id s) ≡ true
unfolding has_fragment delete
delete-has i f s n h =
    any-filter (λ g. not (g.id == f.id)) (λ g. g.id == i) s.fragments
    ∙ (any-eq (λ g. not (g.id == f.id) && (g.id == i)) (λ g. g.id == i) s.fragments
          (λ g. ground (arith, eq_iff g.id f.id, eq_iff g.id i, eq_iff f.id i))
        ∙ h)

drop_duplicate-has :
    (seed_id i : String) (f : Fragment) (s : Store)
    → (f.id == i) ≡ false
    → has_fragment i s ≡ true
    → has_fragment i (drop_duplicate seed_id f s) ≡ true
unfolding drop_duplicate
drop_duplicate-has seed_id i f s n h =
    delete-has i f (repoint_each seed_id (nodes_for_fragment s f.id) s) n
      (unfold has_fragment in rw (fragments-repoint_each seed_id (nodes_for_fragment s f.id) s) h)

-- A fragment that is none of the duplicates stays.
drop_each-has :
    (seed_id i : String) (fs : List Fragment) (s : Store)
    → All (λ f. (f.id == i) ≡ false) fs
    → has_fragment i s ≡ true
    → has_fragment i (drop_each seed_id fs s) ≡ true
unfolding drop_each
drop_each-has seed_id i [] s a h = h
drop_each-has seed_id i (f ∷ fs) s a h =
    drop_each-has seed_id i fs (drop_duplicate seed_id f s) a.1
      (drop_duplicate-has seed_id i f s a.0 h)

pub ids-cases :
    (i : String) (fs : List Fragment)
    → (All (λ f. (f.id == i) ≡ false) fs) ⊎ (is_in (map (λ f. f.id) fs) i ≡ true)
ids-cases i [] = inl tt
ids-cases i (f ∷ fs) = elim (Bool-cases (f.id == i)) [
  | inl y ↦ inr (rw y refl)
  | inr n ↦ elim (ids-cases i fs) [ inl a ↦ inl (n, a) | inr h ↦ inr (rw n h) ]
]

pub merge_cluster-has :
    (i : String) (c : Cluster) (r : DeduplicationResult) (s : Store)
    → All (λ f. (f.id == i) ≡ false) c.joined
    → has_fragment i s ≡ true
    → OnSome (λ rs. has_fragment i rs.1 ≡ true) (merge_cluster c (r, s))
unfolding merge_cluster
merge_cluster-has i c r s a h = elim (Bool-cases (is_single c.joined)) [
  | inl y ↦ rw y h
  | inr n ↦ elim (Option-cases (store_fragment (merged_seed c) s)) [
    | inl k ↦ rw (n, k) tt
    | inr (t, e) ↦
        rw (n, e)
          (drop_each-has c.seed.id i c.joined t a (store_fragment-has i (merged_seed c) s t e h))
  ]
]

pub merge_cluster-clusters :
    (c : Cluster) (r : DeduplicationResult) (s : Store)
    → OnSome (λ rs. rs.0.clusters ≡ r.clusters ++ cluster_result c ∷ []) (merge_cluster c (r, s))
unfolding merge_cluster count_cluster
merge_cluster-clusters c r s = elim (Bool-cases (is_single c.joined)) [
  | inl y ↦ rw y refl
  | inr n ↦ elim (Option-cases (store_fragment (merged_seed c) s)) [
    | inl k ↦ rw (n, k) tt
    | inr (t, e) ↦ rw (n, e) refl
  ]
]
