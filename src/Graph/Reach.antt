-- ===== src/Graph/Reach.antt =====
-- What the functions of src/core/graph.c keep in every run of calls from a new graph.
use metal_graph.Base.{ℕ, ◌^◌, ◌<◌, ◌≡◌, some, List, length, arith, ◌⊎◌, inl, inr}
use metal_graph.Outcome.{Outcome, done, failed}
use metal_graph.Heap.{Heap}
use metal_graph.Heap.Refs.{Ref, ref_count, HeapKept}
use metal_graph.Node.{Edge}
use metal_graph.Topology.{topological_sort, cycle_found}
use metal_graph.Topology.Start.{InRange}
use metal_graph.Topology.Correct.{Sorted, sorted, out_of_range, cyclic, topological_sort_cases}
use metal_graph.Topology.Order.{IsTopological, Ranks}
use metal_graph.Graph.{State}
use metal_graph.Graph.Lifetime.{graph_destroy, empty_graph}
use metal_graph.Graph.Lifetime.Laws.{graph_destroy-counts}
use metal_graph.Graph.Invariant.{Invariant}
use metal_graph.Graph.Step.{Reach, Step-Invariant, call, has_room, start}

-- Any run of calls of the functions that build a graph keeps the invariant, whatever each of them
-- returns and whatever `malloc` answers: the nodes are numbered from 0 with ids from 1, the edges join
-- distinct nodes of the graph and none stands twice, and each object's count is the number of
-- references from outside and of those that the graph holds.
pub Reach-Invariant :
    (outside : Ref → ℕ) (s t : State) → Invariant outside s → Reach s t → Invariant outside t
Reach-Invariant outside s t inv start = inv
Reach-Invariant outside s t inv (call u v r nodes edges step) =
    let now = Reach-Invariant outside s u inv r in
    Step-Invariant outside u t (has_room u.graph now.formed nodes edges) now step

-- The state after mgGraphCreate.
abbrev pub new_graph : ℕ → Heap → State
new_graph p h = record { heap = h; graph = empty_graph p }

pub new_graph-Invariant : (p : ℕ) (h : Heap) → Invariant (ref_count h) (new_graph p h)
new_graph-Invariant p h = record {
  formed = record {
    numbered = tt;
    range = tt;
    loop_free = tt;
    distinct = tt;
    node_room = omega arith;
    edge_room = omega arith;
  };
  balanced = λ r. omega arith;
}

-- A graph that is created, built by any run of calls and destroyed leaves the count of every object as
-- it was, and the destruction touches no dead object.
pub reach_destroy-counts :
    (p : ℕ) (h : Heap) (t : State)
    → Reach (new_graph p h) t
    → (k : Heap) × (graph_destroy t.graph t.heap ≡ some k)
      × ((r : Ref) → ref_count k r ≡ ref_count h r)
      × HeapKept t.heap k
reach_destroy-counts p h t run =
    graph_destroy-counts (ref_count h) t
      (Reach-Invariant (ref_count h) (new_graph p h) t (new_graph-Invariant p h) run).balanced

-- A graph that was built by any run of calls and whose array of edges has fewer than 2^63 places:
-- the sort gives an order in which each node stands once and after all nodes with an edge into it,
-- or reports a cycle and no rank of the nodes grows along all edges; it never finds an edge to a
-- missing node.
pub reach_sort-cases :
    (p : ℕ) (h : Heap) (t : State)
    → Reach (new_graph p h) t
    → t.graph.edge_capacity < 2 ^ 63
    → ((order : List ℕ) × (topological_sort (length t.graph.nodes) t.graph.edges ≡ done order)
        × IsTopological (length t.graph.nodes) t.graph.edges order)
      ⊎ ((topological_sort (length t.graph.nodes) t.graph.edges ≡ failed cycle_found)
          × ((rank : ℕ → ℕ) → ¬ Ranks t.graph.edges rank))
reach_sort-cases p h t run bound =
    let inv = Reach-Invariant (ref_count h) (new_graph p h) t (new_graph-Invariant p h) run in
    let room = inv.formed.edge_room in
    cases inv.formed.range
      (topological_sort_cases (length t.graph.nodes) t.graph.edges (omega arith))
  where
    cases :
        {n : ℕ} {es : List Edge} {r : Outcome (List ℕ)}
        → InRange n es
        → Sorted n es r
        → ((order : List ℕ) × (r ≡ done order) × IsTopological n es order)
          ⊎ ((r ≡ failed cycle_found) × ((rank : ℕ → ℕ) → ¬ Ranks es rank))
    cases range (sorted order e _ top) = inl (order, e, top)
    cases range (out_of_range e out) = absurd (out range)
    cases range (cyclic e _ none_grows) = inr (e, none_grows)
