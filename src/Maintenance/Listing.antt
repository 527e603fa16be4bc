-- ===== src/Maintenance/Listing.antt =====
-- The fragment and edge methods that maintenance calls (src/mark/store/_sqlite/fragments.py,
-- fragment_reads.py and graph.py), on the tables of Blocks.Store. The reads give the stored
-- fragments: encryption and the check of the content hash are not modelled here.
use mark_sdk.Prelude.{
  String, Bool, true, false, Option, none, some, List, [], ◌∷◌, ◌++◌, not, ◌&&◌, ◌||◌, ◌==◌, ltb,
  leb, nat_eq, if◌then◌else◌, filter, find?, any, map, sort_by,
}
use mark_sdk.Types.Enums.{BlockStatus}
use mark_sdk.Types.Fragment.{Fragment}
use mark_sdk.Blocks.Hashing.{Node, Edge}
use mark_sdk.Blocks.Store.{Store, opt_is}

abbrev pub is_quarantined_status : BlockStatus → Bool
is_quarantined_status BlockStatus.quarantined = true
is_quarantined_status _ = false

-- block_id IS NULL OR block_id NOT IN (SELECT id FROM blocks WHERE status = 'quarantined')
unfoldable pub surfaces : Store → Option String → Bool
surfaces s none = true
surfaces s (some i) = not (any (λ b. is_quarantined_status b.status && (b.id == i)) s.blocks)

-- ORDER BY importance DESC, created_at DESC
unfoldable pub listed_before : Fragment → Fragment → Bool
listed_before f g =
    ltb g.importance f.importance
    || (nat_eq f.importance g.importance && leb g.created_at f.created_at)

-- list_by_agent(agent_id, ..., limit=None), with the test of the filters that are given
unfoldable pub list_by_agent : Store → String → (Fragment → Bool) → List Fragment
list_by_agent s agent_id wanted =
    sort_by listed_before
      (filter (λ f. (f.agent_id == agent_id) && (surfaces s f.block_id && wanted f)) s.fragments)

unfoldable pub delete : String → Store → Store
delete fragment_id s = record s { fragments = filter (λ f. not (f.id == fragment_id)) s.fragments }

unfoldable pub upsert : Fragment → List Fragment → List Fragment
upsert f fs =
    if any (λ g. g.id == f.id) fs then map (λ g. if g.id == f.id then f else g) fs else fs ++ f ∷ []

-- none is the ValueError: the id belongs to another agent.
unfoldable pub store_fragment : Fragment → Store → Option Store
store_fragment f s = elim (find? (λ g. g.id == f.id) s.fragments) [
  | none ↦ some (record s { fragments = upsert f s.fragments })
  | some g ↦
      if g.agent_id == f.agent_id
      then some (record s { fragments = upsert f s.fragments })
      else none
]

unfoldable pub list_edges : Store → String → List Edge
list_edges s agent_id =
    sort_by (λ e f. leb f.weight e.weight) (filter (λ e. e.agent_id == agent_id) s.edges)

unfoldable pub delete_edge : String → Store → Store
delete_edge edge_id s = record s { edges = filter (λ e. not (e.id == edge_id)) s.edges }

unfoldable pub nodes_for_fragment : Store → String → List Node
nodes_for_fragment s fragment_id = filter (λ n. opt_is fragment_id n.fragment_id) s.nodes

-- INSERT OR REPLACE: the row with the id goes, the new one is inserted.
unfoldable pub store_node : Node → Store → Store
store_node n s = record s { nodes = filter (λ x. not (x.id == n.id)) s.nodes ++ n ∷ [] }
