-- ===== src/Blocks/Tests.antt =====
-- A block of one fragment and one node, sealed, tampered with and quarantined.
use mark_sdk.Prelude.{
  ◌≡◌, refl, String, true, false, none, some, [], ◌∷◌, ◌↔◌, dict_get, ◌==◌, false_of_both, eq_iff,
}
use mark_sdk.Types.Enums.{MemoryScope, MemoryTier, MemoryState, opened, sealed}
use mark_sdk.Types.Fragment.{Fragment}
use mark_sdk.Blocks.Hashing.{
  Node, Sha256, Payload, fragment_payload, node_payload, edge_payload, block_content_hash, item_le,
}
use mark_sdk.Blocks.Store.{
  Block, Store, store_block, get_block, fragments_for_block, nodes_in_block, edges_in_block,
  join_nodes, opt_is, latest_sealed_block, first_row, is_latest, sealed_chain, is_chained,
  sealed_before, seal_time,
}
use mark_sdk.Blocks.Chain.{
  ok, put_hashes, is_empty, names, is_corrupted, missing_from, corrupted_in, member_hashes_of,
  sealed_copy, seal, judge, verdict, verify, broken_link, broken_links_of, hashes_by_id, is_invalid,
  is_broken, verify_chain, quarantine, release, BlockVerification,
}
use mark_sdk.Blocks.Tamper.{
  put_payloads, member_payloads, verify-untampered, verify-seal, IsCollisionFree,
}
use mark_sdk.Blocks.Quarantine.{in_quarantine, release-quarantine}

program : Unit {0}
unfolding item_le fragment_payload node_payload edge_payload block_content_hash store_block
    get_block fragments_for_block nodes_in_block edges_in_block join_nodes opt_is
    latest_sealed_block first_row is_latest sealed_chain is_chained sealed_before seal_time
    put_hashes is_empty names is_corrupted missing_from corrupted_in member_hashes_of sealed_copy
    seal judge verdict verify broken_link broken_links_of hashes_by_id is_invalid is_broken
    verify_chain quarantine release put_payloads member_payloads in_quarantine
program = tt

-- A toy hash: the text that a payload carries.
abbrev toy_sha : Sha256
toy_sha = record {
  canonical_hash = λ p. elim p [
    | Payload.fragment i content a s src t ↦ content
    | Payload.node i t label f c ↦ label
    | Payload.edge i s t relation c ↦ relation
  ];
  items_hash = λ items. elim items [ [] ↦ "" | e ∷ es ↦ e.1 ];
}

abbrev scene : Fragment
scene = record {
  content = "Scene 47";
  agent_id = "director";
  id = "f1";
  block_id = some "b2";
  scope = MemoryScope.agent;
  tier = MemoryTier.episodic;
  session_id = none;
  importance = 500000;
  state = MemoryState.verified;
  confidence = 1000000;
  ttl_seconds = none;
  created_at = 10;
  updated_at = 10;
  last_accessed_at = none;
  tags = [];
  source = none;
  contradiction_ids = [];
  mark_decay = none;
  merged_from_ids = [];
  cluster_size = none;
}

abbrev elena : Node
elena = record {
  id = "n1";
  node_type = "entity";
  label = "Elena";
  fragment_id = some "f1";
  weight = 500000;
  created_at = 11;
}

abbrev open_block : Block
open_block = record {
  name = "scenes";
  agent_id = "director";
  id = "b2";
  scope = MemoryScope.agent;
  block_type = "ltm";
  session_id = none;
  status = opened;
  content_hash = none;
  prev_block_id = none;
  prev_block_hash = none;
  sealed_at = none;
  created_at = 5;
  member_hashes = [];
}

-- An empty block that was sealed before.
abbrev first_block : Block
first_block = record open_block {
  id = "b1";
  status = sealed;
  content_hash = some "";
  sealed_at = some 6;
}

abbrev open_store : Store
open_store = record {
  fragments = scene ∷ [];
  blocks = first_block ∷ open_block ∷ [];
  nodes = elena ∷ [];
  edges = [];
  block_nodes = record { block_id = "b2"; node_id = "n1"; added_at = 12 } ∷ [];
}

abbrev sealed_block : Block
sealed_block = record open_block {
  status = sealed;
  content_hash = some "Scene 47";
  prev_block_id = some "b1";
  prev_block_hash = some "";
  sealed_at = some 20;
  member_hashes = ("f1", "Scene 47") ∷ ("n1", "Elena") ∷ [];
}

abbrev sealed_store : Store
sealed_store = record open_store { blocks = first_block ∷ sealed_block ∷ [] }

sealing : seal toy_sha "director" "b2" 20 open_store ≡ ok (sealed_block, sealed_store)
sealing = unfold program in refl

abbrev edited_store : Store
edited_store = record sealed_store { fragments = record scene { content = "Scene 48" } ∷ [] }

text_ne : (a b : String) → (a == b) ≡ false → a ≡ b → ⊥
text_ne a b n h = false_of_both n ((eq_iff a b).1 h)

edited-IsCollisionFree :
    IsCollisionFree toy_sha.canonical_hash
      (member_payloads edited_store "b2")
      (member_payloads open_store "b2")
edited-IsCollisionFree =
    unfold program in
    (
      (
        (λ h. absurd (text_ne "Scene 48" "Scene 47" refl h)),
        ((λ h. absurd (text_ne "Scene 48" "Elena" refl h)), tt),
      ),
      (((λ h. absurd (text_ne "Elena" "Scene 47" refl h)), ((λ h. refl), tt)), tt),
    )

verify-untampered_example :
    (v : BlockVerification) × ((verify toy_sha "b2" edited_store ≡ ok v)
      × (v.valid ≡ true ↔ (
          (j : String)
          → dict_get j (member_payloads edited_store "b2")
            ≡ dict_get j (member_payloads open_store "b2"))))
verify-untampered_example =
    verify-untampered toy_sha "director" "b2" 20 open_store sealing edited_store
      (unfold program in refl) edited-IsCollisionFree

verify-seal_example :
    (v : BlockVerification) × ((verify toy_sha "b2" sealed_store ≡ ok v) × v.valid ≡ true)
verify-seal_example = verify-seal toy_sha "director" "b2" 20 open_store sealing

release-quarantine_example :
    (q : Store) × ((r : Store) × ((quarantine "b2" sealed_store
          ≡ ok (in_quarantine sealed_block, q))
        × ((release "b2" q ≡ ok (sealed_block, r))
            × (((j : String) → verify toy_sha j q ≡ verify toy_sha j sealed_store)
                × ((j : String) → get_block r j ≡ get_block sealed_store j)))))
release-quarantine_example =
    release-quarantine toy_sha "b2" sealed_store sealed_block (unfold program in refl) "Scene 47"
      refl refl
