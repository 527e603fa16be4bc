-- ===== src/Maintenance/Tests.antt =====
-- The jobs on a store with a sealed block and an expired working fragment outside it.
use mathlib.Core.Option
use mark_sdk.Prelude.{ℕ, ◌≡◌, refl, true, none, some, [], ◌∷◌, length, arith, if◌then◌else◌, nat_eq}
use mark_sdk.Types.Enums.{MemoryScope, MemoryTier, MemoryState, sealed}
use mark_sdk.Types.Fragment.{Fragment, is_expired}
use mark_sdk.Blocks.Hashing.{Sha256, Payload, Edge}
use mark_sdk.Blocks.Store.{
  Block, Store, list_blocks, fragments_for_block, nodes_in_block, edges_in_block, join_nodes,
  opt_is, get_block,
}
use mark_sdk.Blocks.Chain.{verify}
use mark_sdk.Blocks.Members.{
  has_seal, add_block, add_blocks, sealed_membership, protects_fragment, protects_edge,
}
use mark_sdk.Maintenance.Listing.{
  surfaces, listed_before, list_by_agent, delete, upsert, store_fragment, list_edges, delete_edge,
}
use mark_sdk.Maintenance.Working.{expires, expire_one, expire_each, expire}
use mark_sdk.Maintenance.Consolidation.{
  ConsolidationResult, Gate, promoted_copy, action, promote, act, step, run_each, run,
}
use mark_sdk.Maintenance.Plasticity.{
  ExponentialDecay, reference_time, apply_decay, decay_metadata, should_dissolve, differs,
  decayed_copy, persist_decay, prune_fragment, prune_one, prune_each, dissolve_one, dissolve_each,
  prune,
}
use mark_sdk.Maintenance.Runs.{Pass, Ran, Ran-verify}
use mark_sdk.Maintenance.Counts.{total, total-run}
use mark_sdk.Maintenance.Decay.{apply_decay-again}

program : Unit {0}
unfolding Option.bind is_expired list_blocks fragments_for_block nodes_in_block edges_in_block
    join_nodes opt_is get_block has_seal add_block add_blocks sealed_membership protects_fragment
    protects_edge surfaces listed_before list_by_agent delete upsert store_fragment list_edges
    delete_edge expires expire_one expire_each expire promoted_copy action promote act step run_each
    run reference_time apply_decay decay_metadata should_dissolve differs decayed_copy persist_decay
    prune_fragment prune_one prune_each dissolve_one dissolve_each prune total
program = tt

abbrev text_sha : Sha256
text_sha = record {
  canonical_hash = λ p. elim p [
    | Payload.fragment i content a s src t ↦ content
    | Payload.node i t label f c ↦ label
    | Payload.edge i s t relation c ↦ relation
  ];
  items_hash = λ items. "digest";
}

abbrev pub kept_scene : Fragment
kept_scene = record {
  content = "Scene 47";
  agent_id = "director";
  id = "f1";
  block_id = some "b1";
  scope = MemoryScope.agent;
  tier = MemoryTier.working;
  session_id = none;
  importance = 800000;
  state = MemoryState.unverified;
  confidence = 1000000;
  ttl_seconds = some 1;
  created_at = 0;
  updated_at = 0;
  last_accessed_at = none;
  tags = [];
  source = none;
  contradiction_ids = [];
  mark_decay = none;
  merged_from_ids = [];
  cluster_size = none;
}

-- Expired at 2 s.
abbrev pub loose_note : Fragment
loose_note = record kept_scene { id = "f2"; block_id = none }

-- Worth promoting.
abbrev pub good_note : Fragment
good_note = record kept_scene { id = "f3"; block_id = none; ttl_seconds = some 100 }

abbrev loose_edge : Edge
loose_edge = record {
  id = "e1";
  source_id = "n1";
  target_id = "n2";
  relation = "related";
  agent_id = "director";
  block_id = none;
  weight = 50000;
  created_at = 3;
}

abbrev closed_block : Block
closed_block = record {
  name = "scenes";
  agent_id = "director";
  id = "b1";
  scope = MemoryScope.agent;
  block_type = "ltm";
  session_id = none;
  status = sealed;
  content_hash = some "digest";
  prev_block_id = none;
  prev_block_hash = none;
  sealed_at = some 9;
  created_at = 5;
  member_hashes = ("f1", "Scene 47") ∷ [];
}

abbrev pub studio : Store
studio = record {
  fragments = kept_scene ∷ loose_note ∷ good_note ∷ [];
  blocks = closed_block ∷ [];
  nodes = [];
  edges = loose_edge ∷ [];
  block_nodes = [];
}

expire_result :
    expire "director" 2000000 studio
    ≡ (1, record studio { fragments = kept_scene ∷ good_note ∷ [] })
expire_result = unfold program in refl

-- A gate that lets everything pass.
abbrev open_gate : Gate (Unit {0})
open_gate = record {
  check = λ g content confidence. (record { passed = true; content = content }, g);
}

abbrev consolidated : Store
consolidated = record studio {
  fragments =
      kept_scene
      ∷ record good_note {
        tier = MemoryTier.episodic;
        state = MemoryState.verified;
        ttl_seconds = none;
        updated_at = 2000000;
      }
      ∷ [];
}

abbrev pass_result : ConsolidationResult
pass_result = record { promoted_count = 1; expired = 1; skipped = 1; blocked = 0; sanitized = 0 }

consolidation :
    run open_gate "director" 700000 2000000 tt studio ≡ some (pass_result, (tt, consolidated))
consolidation = unfold program in refl

total-run_example : total pass_result ≡ length (list_by_agent studio "director" (λ f. true))
total-run_example = total-run open_gate 2000000 "director" 700000 tt studio consolidation

-- Half of the importance goes at once.
abbrev halving : ExponentialDecay
halving = record { decay_factor = λ age. if nat_eq age 0 then 1000000 else 500000; floor = 50000 }

abbrev decayed : ℕ → Fragment → Fragment
decayed new_imp f = record f {
  importance = new_imp;
  mark_decay = some (record { base_importance = 800000; last_decay_at = 2000000 });
}

pruning :
    prune halving "director" 2000000 100000 studio
    ≡ some (
      record {
        fragments_pruned = 0;
        edges_dissolved = 1;
        importance_updated = 2;
        protected_count = 1;
      },
      record studio {
        fragments = kept_scene ∷ decayed 400000 loose_note ∷ decayed 400000 good_note ∷ [];
        edges = [];
      },
    )
pruning = unfold program in refl

-- The store after a pruning pass.
abbrev after_jobs : Store
after_jobs = record studio {
  fragments = kept_scene ∷ decayed 400000 loose_note ∷ decayed 400000 good_note ∷ [];
  edges = [];
}

Ran-verify_example :
    verify text_sha "b1" (expire "director" 3000000 after_jobs).1 ≡ verify text_sha "b1" studio
Ran-verify_example =
    Ran-verify "director" "b1" closed_block refl (unfold program in refl) text_sha
      (unfold program in refl) ((refl, (refl, tt)), ((refl, tt), (tt, tt))) (tt, tt)
      (Ran.next (Pass.pruning halving 2000000 100000 pruning) (
        Ran.next (Pass.expiry after_jobs 3000000)
          (Ran.rest (expire "director" 3000000 after_jobs).1)))

decayed_once :
    apply_decay halving 2000000
      (decayed_copy (apply_decay halving 2000000 loose_note) 2000000 loose_note)
    ≡ apply_decay halving 2000000 loose_note
decayed_once = apply_decay-again halving (omega arith) refl 2000000 loose_note refl
