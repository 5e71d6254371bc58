-- ===== src/Graph/Edges.antt =====
-- src/core/graph.c: mgGraphAddDependency.
pub mod Laws
pub mod Connect
use metal_graph.Base.{
  ℕ, ◌+◌, ◌%◌, Bool, true, false, ◌&&◌, ◌||◌, ◌==◌, if◌then◌else◌, Option, none, some, List, [],
  ◌∷◌, ◌++◌, get_elem?, length, word64,
}
use metal_graph.Types.{Status, Stage}
use metal_graph.Outcome.{Outcome, done, failed, fault, Failure, M, after}
use metal_graph.Node.{Node, Edge}
use metal_graph.Graph.{Graph, State, NodeRef, invalid, reserve_edges}

-- `node && node->graph == graph`.
unfoldable pub belongs : Option NodeRef → Graph → Bool
belongs none g = false
belongs (some r) g = r.graph == g.address

-- The node behind a pointer into the graph.
unfoldable pub node_at : Option NodeRef → Graph → Option Node
node_at none g = none
node_at (some r) g = get_elem? g.nodes r.index

-- The loop that looks for the edge.
unfoldable pub has_edge : ℕ → ℕ → List Edge → Bool
has_edge before after [] = false
has_edge before after (e ∷ es) =
    (e.before == before && e.after == after) || has_edge before after es

abbrev pub foreign : Failure
foreign = invalid "dependency nodes must belong to graph"

abbrev pub self_dependency : ℕ → Failure
self_dependency id = record {
  status = Status.invalid_topology;
  stage = Stage.create;
  node_id = id;
  message = "self-dependencies are not allowed";
}

-- The write behind the last edge.
abbrev pub append_edge : ℕ → ℕ → M State (Unit {0})
append_edge before after s = (
  done tt,
  record s {
    graph = record s.graph {
      edges = s.graph.edges ++ record { before = before; after = after } ∷ [];
    };
  },
)

-- The function from the loop on.
unfoldable pub connect : ℕ → ℕ → M State (Unit {0})
connect before after s =
    if has_edge before after s.graph.edges
    then (done tt, s)
    else metal_graph.Outcome.after (reserve_edges ((length s.graph.edges + 1) % word64) s)
        λ _. append_edge before after

-- The function from the test for one node on, which compares pointers.
unfoldable pub link_nodes : Option Node → Option Node → Bool → M State (Unit {0})
link_nodes (some b) (some a) same s =
    if same then (failed (self_dependency b.id), s) else connect b.index a.index s
link_nodes _ _ same s = (fault, s)

unfoldable pub same_node : Option NodeRef → Option NodeRef → Bool
same_node (some r) (some q) = r.graph == q.graph && r.index == q.index
same_node _ _ = false

-- mgGraphAddDependency.
unfoldable pub add_dependency : Option NodeRef → Option NodeRef → M State (Unit {0})
add_dependency before after s =
    if belongs before s.graph && belongs after s.graph
    then link_nodes (node_at before s.graph) (node_at after s.graph) (same_node before after) s
    else (failed foreign, s)
