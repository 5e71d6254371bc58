-- ===== src/Graph/Ids.antt =====
-- mgNodeId of src/core/graph.c: the ids under which the plan and the patches find a node.
use metal_graph.Base.{
  ℕ, ◌+◌, ◌^◌, ◌<◌, ◌≡◌, ◌≢◌, sym, ◌∙◌, Option, none, some, length, get_elem?, get_elem?_of_lt,
  arith,
}
use metal_graph.Outcome.{node_id_invalid}
use metal_graph.Heap.{Heap}
use metal_graph.Heap.Refs.{ref_count}
use metal_graph.Graph.{Graph, State, NodeRef}
use metal_graph.Graph.Invariant.{IsWellFormed, Numbered-id}
use metal_graph.Graph.Reach.{Reach-Invariant, new_graph, new_graph-Invariant}
use metal_graph.Graph.Step.{Reach}

-- mgNodeId; `none` is a read of a node that does not exist.
unfoldable pub node_id : Graph → Option NodeRef → Option ℕ
node_id g none = some node_id_invalid
node_id g (some r) = elim (get_elem? g.nodes r.index) [ none ↦ none | some n ↦ some n.id ]

node_id_at :
    (g : Graph) (q : NodeRef)
    → IsWellFormed g
    → g.node_capacity < 2 ^ 63
    → q.index < length g.nodes
    → node_id g (some q) ≡ some (q.index + 1)
unfolding node_id
node_id_at g q formed small at =
    let (n, e) = get_elem?_of_lt g.nodes q.index at in
    let room = formed.node_room in
    let id_is = Numbered-id g.address 0 g.nodes q.index n formed.numbered e in
    let plain : n.id ≡ q.index + 1 = omega arith in rw (e, node_id, plain)

-- In a graph that was built by any run of calls, mgNodeId reads an id for each pointer to a node, and
-- it is not MG_NODE_ID_INVALID; the pointers to different nodes have different ids; and the id is the
-- same in every other graph of that kind that has the node, in particular after any further calls.
pub reach_node_id-distinct :
    (p : ℕ) (h : Heap) (t : State) (r : NodeRef)
    → Reach (new_graph p h) t
    → t.graph.node_capacity < 2 ^ 63
    → r.index < length t.graph.nodes
    → (id : ℕ) × (node_id t.graph (some r) ≡ some id)
      × (id ≢ node_id_invalid)
      × ((q : NodeRef)
          → q.index < length t.graph.nodes
          → node_id t.graph (some q) ≡ some id
          → q.index ≡ r.index)
      × ((u : State)
          → Reach (new_graph p h) u
          → u.graph.node_capacity < 2 ^ 63
          → r.index < length u.graph.nodes
          → node_id u.graph (some r) ≡ some id)
reach_node_id-distinct p h t r run bound below = (
  r.index + 1,
  id_is t r run bound below,
  (λ e. let room = (formed t run).node_room in omega arith),
  (λ q at e.
      let both : some (q.index + 1) ≡ some (r.index + 1) = sym (id_is t q run bound at) ∙ e in
      let same : q.index + 1 ≡ r.index + 1 = cc in omega arith),
  (λ u more small at. id_is u r more small at),
)
  where
    formed : (s : State) → Reach (new_graph p h) s → IsWellFormed s.graph
    formed s r' =
        (Reach-Invariant (ref_count h) (new_graph p h) s (new_graph-Invariant p h) r').formed

    id_is :
        (s : State) (q : NodeRef)
        → Reach (new_graph p h) s
        → s.graph.node_capacity < 2 ^ 63
        → q.index < length s.graph.nodes
        → node_id s.graph (some q) ≡ some (q.index + 1)
    id_is s q reached small at = node_id_at s.graph q (formed s reached) small at
