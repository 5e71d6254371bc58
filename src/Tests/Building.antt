-- ===== src/Tests/Building.antt =====
-- Graphs that a few calls build, and their destruction.
use metal_graph.Base.{
  ℕ, ◌^◌, ◌<◌, ◌≡◌, ◌==◌, if◌then◌else◌, ◌⊎◌, refl, Option, some, true, List, [], ◌∷◌, length,
  arith,
}
use metal_graph.Outcome.{done, failed}
use metal_graph.Heap.{Heap, buffer_counted, event_counted, arena_counted, malloc}
use metal_graph.Heap.Refs.{Ref, buffer, event, arena, ref_count, HeapKept}
use metal_graph.Node.{copy, barrier}
use metal_graph.Topology.{topological_sort, cycle_found}
use metal_graph.Topology.Order.{IsTopological, Ranks}
use metal_graph.Graph.{
  State, NodeRef, alloc_node, reserve_nodes, reserve_edges, allocate, reallocate, next_capacity,
  double_until, fresh_node, commit_node,
}
use metal_graph.Graph.Holding.{Ends, Holding, HasRoom}
use metal_graph.Graph.Invariant.{IsBalanced, Invariant}
use metal_graph.Graph.Build.{add_barrier_node}
use metal_graph.Graph.Edges.{
  add_dependency, belongs, node_at, same_node, link_nodes, connect, has_edge,
}
use metal_graph.Graph.Edges.Laws.{add_dependency-Ends}
use metal_graph.Graph.Edges.Connect.{Linked}
use metal_graph.Graph.Lifetime.{graph_destroy, set_arena, set_node_patch_flags}
use metal_graph.Graph.Lifetime.Laws.{graph_destroy-counts, ArenaSet, set_arena-Ends}
use metal_graph.Graph.Lifetime.Flags.{FlagsSet, set_node_patch_flags-Ends}
use metal_graph.Graph.Reach.{
  new_graph, new_graph-Invariant, Reach-Invariant, reach_destroy-counts, reach_sort-cases,
}
use metal_graph.Graph.Step.{Reach, start, call}
use metal_graph.Graph.Step.Step.{barrier_node, arena, dependency}
use metal_graph.Tests.{small_heap, graph_of, node_of}

-- A graph of a copy and a barrier, with an arena, in the sample heap.
abbrev two_nodes : State
two_nodes = record {
  heap = small_heap;
  graph = graph_of (
      node_of 0 (
        copy (record {
          src = some 100;
          src_offset = 0;
          dst = some 100;
          dst_offset = 32;
          byte_count = 32;
        }))
      ∷ node_of 1 barrier
      ∷ []);
}

-- The buffer and the arena are the graph's alone; the event has one other owner.
abbrev no_others : Ref → ℕ
no_others (buffer p) = 0
no_others (event p) = if p == 200 then 1 else 0
no_others (arena p) = 0

two_nodes-IsBalanced : IsBalanced no_others two_nodes
two_nodes-IsBalanced = elim [
  | buffer p ↦ ground arith
  | event p ↦ ground arith
  | arena p ↦ ground arith
]

two_nodes-Invariant : Invariant no_others two_nodes
two_nodes-Invariant = record {
  formed = record {
    numbered = (refl, refl, refl, (refl, refl, refl, tt));
    range = tt;
    loop_free = tt;
    distinct = tt;
    node_room = omega arith;
    edge_room = omega arith;
  };
  balanced = two_nodes-IsBalanced;
}

two_nodes_room : HasRoom two_nodes.graph
two_nodes_room = record {
  nodes = omega arith;
  edges = omega arith;
  node_bound = omega arith;
  edge_bound = omega arith;
}

graph_destroy-counts_example :
    (k : Heap) × (graph_destroy two_nodes.graph two_nodes.heap ≡ some k)
    × ((r : Ref) → ref_count k r ≡ no_others r)
    × HeapKept two_nodes.heap k
graph_destroy-counts_example = graph_destroy-counts no_others two_nodes two_nodes-IsBalanced

abbrev node_ref : ℕ → Option NodeRef
node_ref i = some (record { graph = 1; index = i })

add_dependency-Ends_example :
    Ends
      (λ (_ : Unit {0}) t. Linked (node_ref 0) (node_ref 1) two_nodes t × Invariant no_others t)
      (Holding [] two_nodes)
      (add_dependency (node_ref 0) (node_ref 1) two_nodes)
add_dependency-Ends_example =
    add_dependency-Ends no_others (node_ref 0) (node_ref 1) two_nodes two_nodes_room
      two_nodes-Invariant (λ e. omega arith) (λ e. omega arith)

set_arena-Ends_example :
    Ends
      (λ (_ : Unit {0}) t. ArenaSet (some 300) two_nodes t × Invariant no_others t)
      (Holding [] two_nodes)
      (set_arena (some 300) two_nodes)
set_arena-Ends_example =
    set_arena-Ends no_others (some 300) two_nodes two_nodes-Invariant (omega arith, tt)
      (omega arith, tt)

set_node_patch_flags-Ends_example :
    Ends
      (λ (_ : Unit {0}) t. FlagsSet (node_ref 0) 8 two_nodes t × Invariant no_others t)
      (λ t. t ≡ two_nodes)
      (set_node_patch_flags (node_ref 0) 8 two_nodes)
set_node_patch_flags-Ends_example =
    set_node_patch_flags-Ends no_others (node_ref 0) 8 two_nodes two_nodes-Invariant
      (λ e. omega arith)

-- Two barriers, the second after the first.
abbrev one_barrier : State
one_barrier = (add_barrier_node true (new_graph 1 small_heap)).1

abbrev two_barriers : State
two_barriers = (add_barrier_node true one_barrier).1

abbrev in_turn : State
in_turn = (add_dependency (node_ref 0) (node_ref 1) two_barriers).1

run : Reach (new_graph 1 small_heap) in_turn
unfolding add_barrier_node alloc_node reserve_nodes reallocate allocate next_capacity double_until
    fresh_node commit_node malloc
run =
    call two_barriers in_turn
      (call one_barrier two_barriers
        (call (new_graph 1 small_heap) one_barrier start (omega arith) (omega arith)
          (barrier_node true))
        (omega arith) (omega arith) (barrier_node true))
      (omega arith) (omega arith)
      (dependency (node_ref 0) (node_ref 1) (λ e. omega arith) (λ e. omega arith))

run_room : in_turn.graph.edge_capacity < 2 ^ 63
unfolding add_dependency belongs node_at same_node link_nodes connect has_edge reserve_edges
    add_barrier_node alloc_node reserve_nodes reallocate allocate next_capacity double_until
    fresh_node commit_node malloc
run_room = omega arith

reach_destroy-counts_example :
    (k : Heap) × (graph_destroy in_turn.graph in_turn.heap ≡ some k)
    × ((r : Ref) → ref_count k r ≡ ref_count small_heap r)
    × HeapKept in_turn.heap k
reach_destroy-counts_example = reach_destroy-counts 1 small_heap in_turn run

Reach-Invariant_example : Invariant (ref_count small_heap) in_turn
Reach-Invariant_example =
    Reach-Invariant (ref_count small_heap) (new_graph 1 small_heap) in_turn
      (new_graph-Invariant 1 small_heap) run

reach_sort-cases_example :
    ((order : List ℕ) × (topological_sort (length in_turn.graph.nodes) in_turn.graph.edges
        ≡ done order)
      × IsTopological (length in_turn.graph.nodes) in_turn.graph.edges order)
    ⊎ ((topological_sort (length in_turn.graph.nodes) in_turn.graph.edges ≡ failed cycle_found)
        × ((rank : ℕ → ℕ) → ¬ Ranks in_turn.graph.edges rank))
reach_sort-cases_example = reach_sort-cases 1 small_heap in_turn run run_room
