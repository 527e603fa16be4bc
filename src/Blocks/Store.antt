-- ===== src/Blocks/Store.antt =====
-- The tables of blocks and of their members, with the methods of `BlockMixin` that read and write
-- them (src/mark/store/_sqlite/blocks.py). A table is the list of its rows in the order of insertion.
use mark_sdk.Prelude.{
  ℕ, String, Bool, false, Option, none, some, List, [], ◌∷◌, ◌++◌, not, ◌&&◌, ◌||◌, ◌==◌, ltb, leb,
  nat_eq, is_some, if◌then◌else◌, filter, find?, any, map, sort_by, Dict,
}
use mark_sdk.Types.Enums.{MemoryScope, BlockStatus, is_sealed_status, is_open}
use mark_sdk.Types.Fragment.{Fragment}
use mark_sdk.Blocks.Hashing.{Node, Edge}

-- member_hashes is metadata["mark_member_hashes"], {} where the key is missing.
pub record Block : Type 0 where
  pub name : String
  pub agent_id : String
  pub id : String
  pub scope : MemoryScope
  pub block_type : String
  pub session_id : Option String
  pub status : BlockStatus
  pub content_hash : Option String
  pub prev_block_id : Option String
  pub prev_block_hash : Option String
  pub sealed_at : Option ℕ
  pub created_at : ℕ
  pub member_hashes : Dict String

pub record BlockNode : Type 0 where
  pub block_id : String
  pub node_id : String
  pub added_at : ℕ

pub record Store : Type 0 where
  pub fragments : List Fragment
  pub blocks : List Block
  pub nodes : List Node
  pub edges : List Edge
  pub block_nodes : List BlockNode

unfoldable pub store_block : Block → Store → Store
store_block b s = record s { blocks = filter (λ x. not (x.id == b.id)) s.blocks ++ b ∷ [] }

unfoldable pub get_block : Store → String → Option Block
get_block s block_id = find? (λ b. b.id == block_id) s.blocks

unfoldable pub get_block_by_name : Store → String → String → Option Block
get_block_by_name s name agent_id =
    find? (λ b. (b.name == name) && (b.agent_id == agent_id)) s.blocks

unfoldable pub list_blocks : Store → String → List Block
list_blocks s agent_id =
    sort_by (λ b c. leb c.created_at b.created_at) (filter (λ b. b.agent_id == agent_id) s.blocks)

unfoldable pub opt_is : String → Option String → Bool
opt_is i none = false
opt_is i (some j) = j == i

unfoldable pub fragments_for_block : Store → String → List Fragment
fragments_for_block s block_id =
    sort_by (λ f g. leb g.importance f.importance)
      (filter (λ f. opt_is block_id f.block_id) s.fragments)

-- The guard of `assign_fragment_block`: the block that the fragment is in is SEALED.
unfoldable pub leaves_sealed : Store → Option String → Fragment → Bool
leaves_sealed s block_id f = elim f.block_id [
  | none ↦ false
  | some current ↦
      not (opt_is current block_id)
      && (elim (get_block s current) [ none ↦ false | some b ↦ is_sealed_status b.status ])
]

unfoldable pub move_fragment : String → Option String → ℕ → Fragment → Fragment
move_fragment fragment_id block_id now f =
    if f.id == fragment_id then record f { block_id = block_id; updated_at = now } else f

-- none is the ValueError.
unfoldable pub assign_fragment_block : String → Option String → ℕ → Store → Option Store
assign_fragment_block fragment_id block_id now s =
    let moved : Store = record s {
      fragments = map (move_fragment fragment_id block_id now) s.fragments;
    } in
    elim (find? (λ f. f.id == fragment_id) s.fragments) [
      | none ↦ some moved
      | some f ↦ if leaves_sealed s block_id f then none else some moved
    ]

unfoldable pub is_member : String → String → BlockNode → Bool
is_member block_id node_id m = (m.block_id == block_id) && (m.node_id == node_id)

unfoldable pub add_node_to_block : String → String → ℕ → Store → Store
add_node_to_block block_id node_id now s =
    if any (is_member block_id node_id) s.block_nodes then s else record s {
      block_nodes =
          s.block_nodes ++ record { block_id = block_id; node_id = node_id; added_at = now } ∷ [];
    }

unfoldable pub remove_node_from_block : String → String → Store → Bool × Store
remove_node_from_block block_id node_id s = (
  any (is_member block_id node_id) s.block_nodes,
  record s { block_nodes = filter (λ m. not (is_member block_id node_id m)) s.block_nodes },
)

-- The join: each membership row gives the node it names, if that is still there.
unfoldable pub join_nodes : List Node → List BlockNode → List Node
join_nodes nodes [] = []
join_nodes nodes (m ∷ ms) = filter (λ n. n.id == m.node_id) nodes ++ join_nodes nodes ms

unfoldable pub nodes_in_block : Store → String → List Node
nodes_in_block s block_id = join_nodes s.nodes (
    sort_by (λ m n. leb m.added_at n.added_at) (filter (λ m. m.block_id == block_id) s.block_nodes))

unfoldable pub block_ids_for_node : Store → String → List String
block_ids_for_node s node_id =
    map (λ m. m.block_id)
      (sort_by (λ m n. leb m.added_at n.added_at)
        (filter (λ m. m.node_id == node_id) s.block_nodes))

unfoldable pub edges_in_block : Store → String → List Edge
edges_in_block s block_id =
    sort_by (λ e f. leb e.created_at f.created_at)
      (filter (λ e. opt_is block_id e.block_id) s.edges)

unfoldable pub list_blocks_by_status : Store → String → (BlockStatus → Bool) → List Block
list_blocks_by_status s agent_id is_status =
    sort_by (λ b c. leb b.created_at c.created_at)
      (filter (λ b. (b.agent_id == agent_id) && is_status b.status) s.blocks)

unfoldable pub seal_time : Block → ℕ
seal_time b = elim b.sealed_at [ none ↦ 0 | some t ↦ t ]

-- ORDER BY sealed_at, created_at
unfoldable pub sealed_before : Block → Block → Bool
sealed_before b c =
    ltb (seal_time b) (seal_time c)
    || (nat_eq (seal_time b) (seal_time c) && leb b.created_at c.created_at)

-- LIMIT 1
unfoldable pub first_row {ℓ} : {A : Type ℓ} → List A → Option A
first_row [] = none
first_row (x ∷ xs) = some x

unfoldable pub is_latest : String → String → Block → Bool
is_latest agent_id exclude_id b =
    ((b.agent_id == agent_id) && is_sealed_status b.status)
    && (is_some b.sealed_at && not (b.id == exclude_id))

-- ORDER BY sealed_at DESC, created_at DESC LIMIT 1
unfoldable pub latest_sealed_block : Store → String → String → Option Block
latest_sealed_block s agent_id exclude_id =
    first_row (sort_by (λ b c. sealed_before c b) (filter (is_latest agent_id exclude_id) s.blocks))

unfoldable pub is_chained : String → Block → Bool
is_chained agent_id b = (b.agent_id == agent_id) && (is_some b.sealed_at && not (is_open b.status))

unfoldable pub sealed_chain : Store → String → List Block
sealed_chain s agent_id = sort_by sealed_before (filter (is_chained agent_id) s.blocks)
