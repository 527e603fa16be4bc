-- ===== src/Maintenance/Runs.antt =====
-- Runs of the maintenance jobs on a store (src/mark/memory/working.py, consolidation.py,
-- deduplication.py and src/mark/plasticity/pruner.py), in any order.
use mark_sdk.Prelude.{ℕ, Bool, String, ◌≡◌, refl, ◌∙◌, true, some, ◌==◌, HasUniqueKeys}
use mark_sdk.Types.Fragment.{Fragment}
use mark_sdk.Blocks.Hashing.{Sha256}
use mark_sdk.Blocks.Store.{Block, Store, get_block}
use mark_sdk.Blocks.Chain.{verify}
use mark_sdk.Blocks.Members.{has_seal}
use mark_sdk.Maintenance.Working.{expire}
use mark_sdk.Maintenance.Consolidation.{ConsolidationResult, Gate, run}
use mark_sdk.Maintenance.Plasticity.{ExponentialDecay, PrunerStats, prune}
use mark_sdk.Maintenance.Deduplication.{Embedded, DeduplicationResult, deduplicate}
use mark_sdk.Maintenance.Merging.{Keeps-deduplicate}
use mark_sdk.Maintenance.Sealed.{IsKept, IsKept-verify}
use mark_sdk.Maintenance.Jobs.{Keeps-expire, Keeps-run}
use mark_sdk.Maintenance.Pruning.{Leaves, Leaves-Keeps, Leaves-prune}

-- One pass of a job of the agent, that returns.
pub data Pass (agent_id : String) : Store → Store → Type 1 where
  expiry : (s : Store) (now : ℕ) → Pass agent_id s (expire agent_id now s).1
  consolidation :
      {s : Store} {G : Type 0} (gate : Gate G) (threshold now : ℕ) (g : G)
      {done : ConsolidationResult × (G × Store)}
      → run gate agent_id threshold now g s ≡ some done
      → Pass agent_id s done.1.1
  pruning :
      {s : Store} (d : ExponentialDecay) (now edge_floor : ℕ) {done : PrunerStats × Store}
      → prune d agent_id now edge_floor s ≡ some done
      → Pass agent_id s done.1
  deduplication :
      {s : Store} (e : Embedded) (threshold : ℕ) (wanted : Fragment → Bool)
      {done : DeduplicationResult × Store}
      → deduplicate e agent_id threshold wanted s ≡ some done
      → Pass agent_id s done.1

pub data Ran (agent_id : String) : Store → Store → Type 1 where
  rest : (s : Store) → Ran agent_id s s
  next : {s t u : Store} → Pass agent_id s t → Ran agent_id t u → Ran agent_id s u

module _ (agent_id j : String) (b : Block) (mine : (b.agent_id == agent_id) ≡ true)
    (sealed_block : has_seal b ≡ true) where
  Pass-Leaves :
      {s t : Store} (found : get_block s j ≡ some b)
      (unique : HasUniqueKeys (λ f. f.id) s.fragments)
      (unique_edges : HasUniqueKeys (λ e. e.id) s.edges)
      → Pass agent_id s t
      → Leaves agent_id j b s found mine sealed_block unique unique_edges t
  Pass-Leaves found unique unique_edges (expiry s now) =
      Leaves-Keeps agent_id j b s found mine sealed_block unique unique_edges
        (expire agent_id now s).1 (Keeps-expire agent_id j b s found mine sealed_block unique now)
  Pass-Leaves {s} found unique unique_edges (consolidation gate threshold now g {done} h) =
      Leaves-Keeps agent_id j b s found mine sealed_block unique unique_edges done.1.1
        (Keeps-run agent_id j b s found mine sealed_block unique gate threshold now g h)
  Pass-Leaves {s} found unique unique_edges (pruning d now edge_floor h) =
      Leaves-prune agent_id j b s found mine sealed_block unique unique_edges d now edge_floor h
  Pass-Leaves {s} found unique unique_edges (deduplication e threshold wanted {done} h) =
      Leaves-Keeps agent_id j b s found mine sealed_block unique unique_edges done.1
        (Keeps-deduplicate agent_id j b s found mine sealed_block unique e threshold wanted h)

  module _ (sha : Sha256) where
    -- Maintenance and the seal: if fragment and edge ids are unique and the block belongs to the
    -- agent and was sealed (it has a content hash or is SEALED), then after any run of the jobs of
    -- that agent (expiry, consolidation with any gate and threshold, pruning with any decay, floor
    -- and edge floor, and deduplication with any embeddings and threshold, each one that returns),
    -- in any order and at any times, verify says of the block what it said before.
    pub Ran-verify :
        {s t : Store}
        → get_block s j ≡ some b
        → HasUniqueKeys (λ f. f.id) s.fragments
        → HasUniqueKeys (λ e. e.id) s.edges
        → Ran agent_id s t
        → verify sha j t ≡ verify sha j s
    unfolding IsKept
    Ran-verify found unique unique_edges (rest s) = refl
    Ran-verify found unique unique_edges (next {s} {t} job ran) =
        let (kept, (unique', unique_edges')) = Pass-Leaves found unique unique_edges job in
        Ran-verify (kept.0 ∙ found) unique' unique_edges' ran ∙ IsKept-verify sha j s t kept
