-- ===== src/Blocks/Hashing.antt =====
-- The hashing rules of src/mark/memory/block_hashing.py. SHA-256 over canonical JSON is a parameter:
-- what is hashed, and in which order, is the program's.
use mark_sdk.Prelude.{
  ℕ, String, Bool, Option, List, Dict, ◌||◌, ◌&&◌, ◌==◌, sort_by, text_lt, text_le,
}
use mark_sdk.Types.Fragment.{Fragment}

pub record Node : Type 0 where
  pub id : String
  pub node_type : String
  pub label : String
  pub fragment_id : Option String
  pub weight : ℕ
  pub created_at : ℕ

pub record Edge : Type 0 where
  pub id : String
  pub source_id : String
  pub target_id : String
  pub relation : String
  pub agent_id : String
  pub block_id : Option String
  pub weight : ℕ
  pub created_at : ℕ

-- The payloads: the immutable fields, tagged by their kind.
pub data Payload : Type 0 where
  fragment :
      (id content agent_id : String) (session_id source : Option String) (created_at : ℕ) → Payload
  node : (id node_type label : String) (fragment_id : Option String) (created_at : ℕ) → Payload
  edge : (id source_id target_id relation : String) (created_at : ℕ) → Payload

pub record Sha256 : Type 0 where
  pub canonical_hash : Payload → String
  pub items_hash : List (String × String) → String

-- Importance, state and access metadata are mutable by design: excluded.
unfoldable pub fragment_payload : Fragment → Payload
fragment_payload f = fragment f.id f.content f.agent_id f.session_id f.source f.created_at

-- The weights of nodes and edges are plasticity-mutable: excluded.
unfoldable pub node_payload : Node → Payload
node_payload n = node n.id n.node_type n.label n.fragment_id n.created_at

unfoldable pub edge_payload : Edge → Payload
edge_payload e = edge e.id e.source_id e.target_id e.relation e.created_at

-- Tuples compare by the member id, then by the hash.
unfoldable pub item_le : String × String → String × String → Bool
item_le (i, g) (j, h) = text_lt i j || ((i == j) && text_le g h)

unfoldable pub block_content_hash : Sha256 → Dict String → String
block_content_hash sha member_hashes = sha.items_hash (sort_by item_le member_hashes)
