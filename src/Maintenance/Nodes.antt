-- ===== src/Maintenance/Nodes.antt =====
-- The nodes of a sealed block while deduplication repoints others
-- (src/mark/memory/deduplication.py and src/mark/store/_sqlite/graph.py).
use mark_sdk.Prelude.{
  String, ◌≡◌, refl, ap₂, ◌∙◌, subst, Bool, true, false, List, [], ◌∷◌, ◌++◌, not, ◌&&◌, ◌==◌,
  arith, eq_iff, inl, inr, Bool-cases, All, All-imp, All-append, All-filter, All-filter_imp,
  All-of_filter, All-sort_by, All-of_sort_by, All-of, filter, filter-append, filter-filter,
  filter-eq, any, append-nil, false_of_both, All-imp₂, leb, is_in,
}
use mark_sdk.Blocks.Hashing.{Node}
use mark_sdk.Blocks.Store.{
  BlockNode, Store, get_block, opt_is, fragments_for_block, nodes_in_block, edges_in_block,
  join_nodes,
}
use mark_sdk.Blocks.Members.{SealedMembership, protects_node}
use mark_sdk.Maintenance.Listing.{store_node, nodes_for_fragment}
use mark_sdk.Maintenance.Sealed.{IsKept, IsOutside}
use mark_sdk.Maintenance.Jobs.{Keeps}

-- No member of the block `j` is the node `i`.
unfoldable pub IsFree : String → List BlockNode → String → Type 0
IsFree j bn i = All (λ k. (k.block_id == j) ≡ true → (k.node_id == i) ≡ false) bn

filter-store_node :
    (i : String) (n : Node) (nodes : List Node)
    → (i == n.id) ≡ false
    → filter (λ x. x.id == i) (filter (λ x. not (x.id == n.id)) nodes ++ n ∷ [])
      ≡ filter (λ x. x.id == i) nodes
filter-store_node i n nodes h =
    filter-append (λ x. x.id == i) (filter (λ x. not (x.id == n.id)) nodes) (n ∷ [])
    ∙ (ap₂ ◌++◌
          (filter-filter (λ x. x.id == i) (λ x. not (x.id == n.id)) nodes
            ∙ filter-eq (λ x. not (x.id == n.id) && (x.id == i)) (λ x. x.id == i) nodes
                (All-of (λ x. (not (x.id == n.id) && (x.id == i)) ≡ (x.id == i)) (λ x. other x)
                  nodes))
          last
        ∙ append-nil (filter (λ x. x.id == i) nodes))
  where
    other : (x : Node) → (not (x.id == n.id) && (x.id == i)) ≡ (x.id == i)
    other x = ground (arith, eq_iff x.id n.id, eq_iff x.id i, eq_iff i n.id)

    last : filter (λ x. x.id == i) (n ∷ []) ≡ []
    last = ground (arith, eq_iff n.id i, eq_iff i n.id)

join_nodes-store_node :
    (n : Node) (nodes : List Node) (ms : List BlockNode)
    → All (λ m. (m.node_id == n.id) ≡ false) ms
    → join_nodes (filter (λ x. not (x.id == n.id)) nodes ++ n ∷ []) ms ≡ join_nodes nodes ms
unfolding join_nodes
join_nodes-store_node n nodes [] h = refl
join_nodes-store_node n nodes (m ∷ ms) h =
    ap₂ ◌++◌ (filter-store_node m.node_id n nodes h.0) (join_nodes-store_node n nodes ms h.1)

module _ (j : String) where
  pub Keeps-store_node :
      (n : Node) (s : Store) → IsFree j s.block_nodes n.id → Keeps j s (store_node n s)
  unfolding Keeps IsKept IsFree store_node get_block fragments_for_block nodes_in_block
      edges_in_block IsOutside
  Keeps-store_node n s free = (
    (
      refl,
      (
        refl,
        (
          join_nodes-store_node n s.nodes _ (
              All-sort_by (λ m n. leb m.added_at n.added_at) (λ m. (m.node_id == n.id) ≡ false) _
                (All-filter_imp (λ m. (m.node_id == n.id) ≡ false) (λ m. m.block_id == j)
                  s.block_nodes free)),
          refl,
        ),
      ),
    ),
    ((λ g o. o), (refl, (λ u. u))),
  )

  -- The nodes of the fragment `i` are outside the block.
  unfoldable pub AreNodesFree : List BlockNode → Store → String → Type 0
  AreNodesFree bn s i = All (λ n. opt_is i n.fragment_id ≡ true → IsFree j bn n.id) s.nodes

  pub AreNodesFree-store_node :
      (bn : List BlockNode) (n : Node) (s : Store) (i : String)
      → IsFree j bn n.id
      → AreNodesFree bn s i
      → AreNodesFree bn (store_node n s) i
  unfolding AreNodesFree store_node
  AreNodesFree-store_node bn n s i free a =
      let P : Node → Type 0 = λ x. opt_is i x.fragment_id ≡ true → IsFree j bn x.id in
      All-append P (filter (λ x. not (x.id == n.id)) s.nodes) (n ∷ [])
        (All-filter P (λ x. not (x.id == n.id)) s.nodes a) ((λ _. free), tt)

All-of_append {ℓ κ} :
    {A : Type ℓ} (P : A → Type κ) (xs ys : List A) → All P (xs ++ ys) → All P xs × All P ys
All-of_append P [] ys h = (tt, h)
All-of_append P (x ∷ xs) ys h =
    let (left, right) = All-of_append P xs ys h.1 in ((h.0, left), right)

-- What the protected ids say of the members.
All-join_nodes {κ} :
    (P : Node → Type κ) (nodes : List Node) (ms : List BlockNode)
    → All P (join_nodes nodes ms)
    → All (λ k. All (λ n. (n.id == k.node_id) ≡ true → P n) nodes) ms
unfolding join_nodes
All-join_nodes P nodes [] h = tt
All-join_nodes P nodes (k ∷ ms) h =
    let (here, there) =
      All-of_append P (filter (λ n. n.id == k.node_id) nodes) (join_nodes nodes ms) h in
    (All-of_filter P (λ n. n.id == k.node_id) nodes here, All-join_nodes P nodes ms there)

All-swap {ℓ κ μ} :
    {A : Type ℓ} {B : Type κ} (R : A → B → Type μ) (xs : List A) (ys : List B)
    → All (λ x. All (R x) ys) xs
    → All (λ y. All (λ x. R x y) xs) ys
All-swap R xs [] h = tt
All-swap R xs (y ∷ ys) h = (
  All-imp (λ x. All (R x) (y ∷ ys)) (λ x. R x y) (λ x a. a.0) xs h,
  All-swap R xs ys (All-imp (λ x. All (R x) (y ∷ ys)) (λ x. All (R x) ys) (λ x a. a.1) xs h),
)

IsFree-of_not_in :
    (j : String) (ids : List String) (bn : List BlockNode) (n : Node)
    → All (λ k. (k.block_id == j) ≡ true → (n.id == k.node_id) ≡ true → is_in ids n.id ≡ true) bn
    → is_in ids n.id ≡ false
    → IsFree j bn n.id
unfolding IsFree
IsFree-of_not_in j ids bn n a h =
    All-imp (λ k. (k.block_id == j) ≡ true → (n.id == k.node_id) ≡ true → is_in ids n.id ≡ true)
      (λ k. (k.block_id == j) ≡ true → (k.node_id == n.id) ≡ false)
      (λ k f e. elim (Bool-cases (k.node_id == n.id)) [
        | inl y ↦
            absurd
              (false_of_both h (f e (ground (arith, eq_iff k.node_id n.id, eq_iff n.id k.node_id))))
        | inr n' ↦ n'
      ])
      bn a

none_of_any {ℓ} :
    {A : Type ℓ} (p : A → Bool) (xs : List A) → any p xs ≡ false → All (λ x. p x ≡ false) xs
none_of_any p [] h = tt
none_of_any p (x ∷ xs) h = (ground arith, none_of_any p xs (ground arith))

module _ (j : String) (ids : List String) (s : Store)
    (members : All (λ n. is_in ids n.id ≡ true) (nodes_in_block s j)) where
  -- A stored node that is not protected is no member of the block.
  unprotected_nodes : All (λ n. is_in ids n.id ≡ false → IsFree j s.block_nodes n.id) s.nodes
  unfolding nodes_in_block
  unprotected_nodes =
      let P : Node → Type 0 = λ n. is_in ids n.id ≡ true in
      let R : BlockNode → Node → Type 0 =
        λ k n. (k.block_id == j) ≡ true → (n.id == k.node_id) ≡ true → P n in
      let le : BlockNode → BlockNode → Bool = λ m n. leb m.added_at n.added_at in
      All-imp (λ n. All (λ k. R k n) s.block_nodes)
        (λ n. is_in ids n.id ≡ false → IsFree j s.block_nodes n.id)
        (λ n a h. IsFree-of_not_in j ids s.block_nodes n a h) s.nodes
        (All-swap R s.block_nodes s.nodes (
          All-imp
            (λ k. (k.block_id == j) ≡ true → All (λ n. (n.id == k.node_id) ≡ true → P n) s.nodes)
            (λ k. All (R k) s.nodes) (λ k f. under k f) s.block_nodes
            (All-of_filter (λ k. All (λ n. (n.id == k.node_id) ≡ true → P n) s.nodes)
              (λ k. k.block_id == j) s.block_nodes
              (All-of_sort_by le (λ k. All (λ n. (n.id == k.node_id) ≡ true → P n) s.nodes)
                (filter (λ k. k.block_id == j) s.block_nodes)
                (All-join_nodes P s.nodes _ members)))))
    where
      under :
          (k : BlockNode)
          → ((k.block_id == j) ≡ true
              → All (λ n. (n.id == k.node_id) ≡ true → is_in ids n.id ≡ true) s.nodes)
          → All
              (λ n. (k.block_id == j) ≡ true → (n.id == k.node_id) ≡ true → is_in ids n.id ≡ true)
              s.nodes
      under k f = elim (Bool-cases (k.block_id == j)) [
        | inl y ↦
            All-imp (λ n. (n.id == k.node_id) ≡ true → is_in ids n.id ≡ true)
              (λ n. (k.block_id == j) ≡ true → (n.id == k.node_id) ≡ true → is_in ids n.id ≡ true)
              (λ n g e. g) s.nodes (f y)
        | inr n' ↦
            All-of
              (λ n. (k.block_id == j) ≡ true → (n.id == k.node_id) ≡ true → is_in ids n.id ≡ true)
              (λ n e. absurd (false_of_both n' e)) s.nodes
      ]

  -- So are all nodes of a fragment none of whose nodes is protected.
  pub AreNodesFree-of_any :
      (m : SealedMembership) (i : String)
      → m.node_ids ≡ ids
      → any (protects_node m) (nodes_for_fragment s i) ≡ false
      → AreNodesFree j s.block_nodes s i
  unfolding AreNodesFree nodes_for_fragment protects_node
  AreNodesFree-of_any m i same h =
      All-imp₂ (λ n. is_in ids n.id ≡ false → IsFree j s.block_nodes n.id)
        (λ n. opt_is i n.fragment_id ≡ true → is_in ids n.id ≡ false)
        (λ n. opt_is i n.fragment_id ≡ true → IsFree j s.block_nodes n.id) (λ n f g e. f (g e))
        s.nodes unprotected_nodes
        (All-of_filter (λ n. is_in ids n.id ≡ false) (λ n. opt_is i n.fragment_id) s.nodes
          (subst
            (λ l. All (λ n. is_in l n.id ≡ false) (filter (λ n. opt_is i n.fragment_id) s.nodes))
            same
            (none_of_any (λ n. is_in m.node_ids n.id) (filter (λ n. opt_is i n.fragment_id) s.nodes)
              h)))
