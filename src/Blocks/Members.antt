-- ===== src/Blocks/Members.antt =====
-- Which ids a seal protects (src/mark/memory/block_membership.py), for a store that has blocks.
use mark_sdk.Prelude.{
  String, ◌≡◌, refl, Bool, true, false, Option, none, some, List, [], ◌∷◌, ◌++◌, not, ◌&&◌, ◌||◌,
  ◌==◌, eq_refl, is_some, if◌then◌else◌, map, filter, arith, All, All-imp, All-of_sort_by,
  All-of_filter, All-find?, leb, inl, inr, Bool-cases, any-append, any-append_left, is_in,
}
use mark_sdk.Types.Enums.{is_sealed_status}
use mark_sdk.Types.Fragment.{Fragment}
use mark_sdk.Blocks.Hashing.{Node, Edge}
use mark_sdk.Blocks.Store.{
  Block, Store, list_blocks, fragments_for_block, nodes_in_block, edges_in_block, get_block,
}

pub record SealedMembership : Type 0 where
  pub block_ids : List String
  pub fragment_ids : List String
  pub node_ids : List String
  pub edge_ids : List String

abbrev pub is_in? : List String → Option String → Bool
is_in? ids none = false
is_in? ids (some i) = is_in ids i

unfoldable pub protects_fragment : SealedMembership → Fragment → Bool
protects_fragment m f = is_in m.fragment_ids f.id || is_in? m.block_ids f.block_id

unfoldable pub protects_node : SealedMembership → Node → Bool
protects_node m n = is_in m.node_ids n.id

unfoldable pub protects_edge : SealedMembership → Edge → Bool
protects_edge m e = is_in m.edge_ids e.id || is_in? m.block_ids e.block_id

unfoldable pub has_seal : Block → Bool
has_seal b = is_some b.content_hash || is_sealed_status b.status

-- The body of the loop over the blocks.
unfoldable pub add_block : Store → SealedMembership → Block → SealedMembership
add_block s m b =
    if has_seal b
    then (let node_ids : List String = m.node_ids ++ map (λ n. n.id) (nodes_in_block s b.id) in
        let edge_ids : List String = m.edge_ids ++ map (λ e. e.id) (edges_in_block s b.id) in
        record {
          block_ids = m.block_ids ++ b.id ∷ [];
          fragment_ids =
              (m.fragment_ids ++ map (λ f. f.id) (fragments_for_block s b.id))
              ++ filter (λ i. not (is_in node_ids i) && not (is_in edge_ids i))
                  (map (λ e. e.0) b.member_hashes);
          node_ids = node_ids;
          edge_ids = edge_ids;
        })
    else m

unfoldable pub add_blocks : Store → SealedMembership → List Block → SealedMembership
add_blocks s m [] = m
add_blocks s m (b ∷ bs) = add_blocks s (add_block s m b) bs

unfoldable pub sealed_membership : Store → String → SealedMembership
sealed_membership s agent_id =
    add_blocks s (record { block_ids = []; fragment_ids = []; node_ids = []; edge_ids = [] })
      (list_blocks s agent_id)

add_block-keeps :
    (s : Store) (m : SealedMembership) (b : Block) (i : String)
    → is_in m.block_ids i ≡ true
    → is_in (add_block s m b).block_ids i ≡ true
unfolding add_block
add_block-keeps s m b i h = elim (Bool-cases (has_seal b)) [
  | inl y ↦ rw y (any-append_left (λ j. j == i) m.block_ids (b.id ∷ []) h)
  | inr n ↦ rw n h
]

add_blocks-keeps :
    (s : Store) (m : SealedMembership) (bs : List Block) (i : String)
    → is_in m.block_ids i ≡ true
    → is_in (add_blocks s m bs).block_ids i ≡ true
unfolding add_blocks
add_blocks-keeps s m [] i h = h
add_blocks-keeps s m (b ∷ bs) i h =
    add_blocks-keeps s (add_block s m b) bs i (add_block-keeps s m b i h)

add_block-has :
    (s : Store) (m : SealedMembership) (b : Block)
    → has_seal b ≡ true
    → is_in (add_block s m b).block_ids b.id ≡ true
unfolding add_block
add_block-has s m b y =
    rw y (any-append (λ j. j == b.id) m.block_ids (b.id ∷ []) (rw (eq_refl b.id) refl))

add_blocks-has :
    (s : Store) (m : SealedMembership) (bs : List Block)
    → All (λ b. has_seal b ≡ true → is_in (add_blocks s m bs).block_ids b.id ≡ true) bs
unfolding add_blocks
add_blocks-has s m [] = tt
add_blocks-has s m (b ∷ bs) = (
  (λ y. add_blocks-keeps s (add_block s m b) bs b.id (add_block-has s m b y)),
  add_blocks-has s (add_block s m b) bs,
)

-- Every block of the agent that has a seal is among the protected ones.
pub sealed_membership-has :
    (s : Store) (agent_id i : String) (b : Block)
    → get_block s i ≡ some b
    → (b.agent_id == agent_id) ≡ true
    → has_seal b ≡ true
    → is_in (sealed_membership s agent_id).block_ids b.id ≡ true
unfolding sealed_membership list_blocks get_block
sealed_membership-has s agent_id i b found agent y =
    let m = sealed_membership s agent_id in
    All-find?
      (λ c. (c.agent_id == agent_id) ≡ true → has_seal c ≡ true → is_in m.block_ids c.id ≡ true)
      (λ c. c.id == i) s.blocks b
      (All-of_filter (λ c. has_seal c ≡ true → is_in m.block_ids c.id ≡ true)
        (λ c. c.agent_id == agent_id) s.blocks
        (All-of_sort_by (λ c d. leb d.created_at c.created_at)
          (λ c. has_seal c ≡ true → is_in m.block_ids c.id ≡ true)
          (filter (λ c. c.agent_id == agent_id) s.blocks)
          (add_blocks-has s _ (list_blocks s agent_id))))
      found agent y

add_block-keeps_nodes :
    (s : Store) (m : SealedMembership) (b : Block) (i : String)
    → is_in m.node_ids i ≡ true
    → is_in (add_block s m b).node_ids i ≡ true
unfolding add_block
add_block-keeps_nodes s m b i h = elim (Bool-cases (has_seal b)) [
  | inl y ↦
      rw y (any-append_left (λ j. j == i) m.node_ids (map (λ n. n.id) (nodes_in_block s b.id)) h)
  | inr n ↦ rw n h
]

add_blocks-keeps_nodes :
    (s : Store) (m : SealedMembership) (bs : List Block) (i : String)
    → is_in m.node_ids i ≡ true
    → is_in (add_blocks s m bs).node_ids i ≡ true
unfolding add_blocks
add_blocks-keeps_nodes s m [] i h = h
add_blocks-keeps_nodes s m (b ∷ bs) i h =
    add_blocks-keeps_nodes s (add_block s m b) bs i (add_block-keeps_nodes s m b i h)

All-in_ids : (ns : List Node) → All (λ n. is_in (map (λ x. x.id) ns) n.id ≡ true) ns
All-in_ids [] = tt
All-in_ids (n ∷ ns) = (
  rw eq_refl refl,
  All-imp (λ x. is_in (map (λ y. y.id) ns) x.id ≡ true)
      (λ x. is_in (map (λ y. y.id) (n ∷ ns)) x.id ≡ true) (λ x h. ground (arith, h)) ns
      (All-in_ids ns),
)

add_block-has_nodes :
    (s : Store) (m : SealedMembership) (b : Block)
    → has_seal b ≡ true
    → All (λ n. is_in (add_block s m b).node_ids n.id ≡ true) (nodes_in_block s b.id)
unfolding add_block
add_block-has_nodes s m b y = rw y (
    All-imp (λ n. is_in (map (λ x. x.id) (nodes_in_block s b.id)) n.id ≡ true)
      (λ n. is_in (m.node_ids ++ map (λ x. x.id) (nodes_in_block s b.id)) n.id ≡ true)
      (λ n h. any-append (λ j. j == n.id) m.node_ids (map (λ x. x.id) (nodes_in_block s b.id)) h)
      (nodes_in_block s b.id) (All-in_ids (nodes_in_block s b.id)))

add_blocks-has_nodes :
    (s : Store) (m : SealedMembership) (bs : List Block)
    → All
        (λ b.
          has_seal b ≡ true
          → All (λ n. is_in (add_blocks s m bs).node_ids n.id ≡ true) (nodes_in_block s b.id))
        bs
unfolding add_blocks
add_blocks-has_nodes s m [] = tt
add_blocks-has_nodes s m (b ∷ bs) = (
  (λ y.
      All-imp (λ n. is_in (add_block s m b).node_ids n.id ≡ true)
        (λ n. is_in (add_blocks s (add_block s m b) bs).node_ids n.id ≡ true)
        (λ n h. add_blocks-keeps_nodes s (add_block s m b) bs n.id h) (nodes_in_block s b.id)
        (add_block-has_nodes s m b y)),
  add_blocks-has_nodes s (add_block s m b) bs,
)

-- The nodes of such a block are protected.
pub sealed_membership-has_nodes :
    (s : Store) (agent_id i : String) (b : Block)
    → get_block s i ≡ some b
    → (b.agent_id == agent_id) ≡ true
    → has_seal b ≡ true
    → All (λ n. is_in (sealed_membership s agent_id).node_ids n.id ≡ true) (nodes_in_block s b.id)
unfolding sealed_membership list_blocks get_block
sealed_membership-has_nodes s agent_id i b found agent y =
    let m = sealed_membership s agent_id in
    let P : Block → Type 0 =
      λ c. has_seal c ≡ true → All (λ n. is_in m.node_ids n.id ≡ true) (nodes_in_block s c.id) in
    All-find? (λ c. (c.agent_id == agent_id) ≡ true → P c) (λ c. c.id == i) s.blocks b
      (All-of_filter P (λ c. c.agent_id == agent_id) s.blocks
        (All-of_sort_by (λ c d. leb d.created_at c.created_at) P
          (filter (λ c. c.agent_id == agent_id) s.blocks)
          (add_blocks-has_nodes s _ (list_blocks s agent_id))))
      found agent y
