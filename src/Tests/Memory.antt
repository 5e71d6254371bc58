-- ===== src/Tests/Memory.antt =====
-- Two workspace nodes, the second after the first, from the calls to the plan.
use metal_graph.Base.{
  ◌≢◌, ◌-◌, true, ◌↔◌, ◌+◌, All, ℕ, ◌^◌, ◌<◌, ◌≡◌, refl, Option, some, [], ◌∷◌, length, arith,
}
use metal_graph.Outcome.{done, node_id_invalid}
use metal_graph.Heap.{malloc}
use metal_graph.Heap.Counting.{word32}
use metal_graph.Heap.Refs.{Grown, ref_count}
use metal_graph.Align.{alignment_valid}
use metal_graph.Arena.{workspace_desc_validate}
use metal_graph.Node.{WorkspaceDesc}
use metal_graph.Topology.{
  graph_validate, topological_sort, sort_counted, count_indegrees, finish, search_loop, sources,
  expand, relax, relax_edge,
}
use metal_graph.Graph.{
  arena_refs, State, NodeRef, alloc_node, reserve_nodes, reserve_edges, allocate, reallocate,
  next_capacity, double_until, fresh_node, commit_node,
}
use metal_graph.Graph.Capacity.{Enough, first_capacity, next_capacity-Enough}
use metal_graph.Graph.Holding.{Ends}
use metal_graph.Graph.Ids.{node_id, reach_node_id-distinct}
use metal_graph.Topology.Order.{Ranks}
use metal_graph.Topology.Validate.{
  Validated, MemoryForThree, reach_validate-cases, reach_validate_iff,
}
use metal_graph.Graph.Build.{add_workspace_node}
use metal_graph.Graph.Edges.{
  add_dependency, belongs, node_at, same_node, link_nodes, connect, has_edge,
}
use metal_graph.Graph.Reach.{new_graph}
use metal_graph.Graph.Step.{Reach, start, call}
use metal_graph.Graph.Step.Step.{workspace_node, dependency}
use metal_graph.Workspace.{node_demand, plan_workspace}
use metal_graph.Workspace.Plan.{WordNodes}
use metal_graph.Workspace.Whole.{IsReady, Prepared, reach_plan-succeeds}
use metal_graph.Workspace.Memory.{HasMemory, reach_plan-Ends}
use metal_graph.Tests.{small_heap}

abbrev first_desc : WorkspaceDesc
first_desc = record { size = 24; byte_count = 100; alignment = 16 }

abbrev second_desc : WorkspaceDesc
second_desc = record { size = 24; byte_count = 64; alignment = 256 }

abbrev one_workspace : State
one_workspace = (add_workspace_node (some first_desc) true (new_graph 1 small_heap)).1

abbrev two_workspaces : State
two_workspaces = (add_workspace_node (some second_desc) true one_workspace).1

abbrev place_ref : ℕ → Option NodeRef
place_ref i = some (record { graph = 1; index = i })

-- The second node runs before the first.
abbrev chained : State
chained = (add_dependency (place_ref 1) (place_ref 0) two_workspaces).1

chained_run : Reach (new_graph 1 small_heap) chained
unfolding add_workspace_node workspace_desc_validate alignment_valid alloc_node reserve_nodes
    reallocate allocate next_capacity double_until fresh_node commit_node malloc
chained_run =
    call two_workspaces chained
      (call one_workspace two_workspaces
        (call (new_graph 1 small_heap) one_workspace start (omega arith) (omega arith)
          (workspace_node (some first_desc) true))
        (omega arith) (omega arith) (workspace_node (some second_desc) true))
      (omega arith) (omega arith)
      (dependency (place_ref 1) (place_ref 0) (λ e. omega arith) (λ e. omega arith))

chained_nodes : chained.graph.node_capacity < 2 ^ 63
unfolding add_workspace_node workspace_desc_validate alignment_valid alloc_node reserve_nodes
    reallocate allocate next_capacity double_until fresh_node commit_node malloc add_dependency
    belongs node_at same_node link_nodes connect has_edge reserve_edges
chained_nodes = omega arith

chained_edges : chained.graph.edge_capacity < 2 ^ 63
unfolding add_workspace_node workspace_desc_validate alignment_valid alloc_node reserve_nodes
    reallocate allocate next_capacity double_until fresh_node commit_node malloc add_dependency
    belongs node_at same_node link_nodes connect has_edge reserve_edges
chained_edges = omega arith

chained_fits : All (λ r. ref_count chained.heap r + 1 < word32) (arena_refs chained.graph.arena)
unfolding add_workspace_node workspace_desc_validate alignment_valid alloc_node reserve_nodes
    reallocate allocate next_capacity double_until fresh_node commit_node malloc add_dependency
    belongs node_at same_node link_nodes connect has_edge reserve_edges
chained_fits = tt

chained_words : WordNodes chained.graph.nodes
unfolding add_workspace_node workspace_desc_validate alignment_valid alloc_node reserve_nodes
    reallocate allocate next_capacity double_until fresh_node commit_node malloc add_dependency
    belongs node_at same_node link_nodes connect has_edge reserve_edges node_demand
chained_words = (
  record { size = omega arith; alignment = omega arith },
  (record { size = omega arith; alignment = omega arith }, tt),
)

chained_sorts :
    topological_sort (length chained.graph.nodes) chained.graph.edges ≡ done (1 ∷ 0 ∷ [])
unfolding add_workspace_node workspace_desc_validate alignment_valid alloc_node reserve_nodes
    reallocate allocate next_capacity double_until fresh_node commit_node malloc add_dependency
    belongs node_at same_node link_nodes connect has_edge reserve_edges topological_sort
    sort_counted count_indegrees finish search_loop sources expand relax relax_edge
chained_sorts = refl

reach_plan-Ends_example :
    Ends
      (HasMemory chained.graph chained.heap)
      (Grown [] chained.heap)
      (plan_workspace chained.graph (1 ∷ 0 ∷ []) chained.heap)
reach_plan-Ends_example =
    reach_plan-Ends 1 small_heap chained (1 ∷ 0 ∷ []) chained_run chained_nodes chained_edges
      chained_words chained_fits chained_sorts

reach_validate-cases_example :
    Validated chained.graph chained.heap (graph_validate chained.graph chained.heap)
reach_validate-cases_example = reach_validate-cases 1 small_heap chained chained_run chained_edges

chained_answers : MemoryForThree chained.heap
unfolding add_workspace_node workspace_desc_validate alignment_valid alloc_node reserve_nodes
    reallocate allocate next_capacity double_until fresh_node commit_node malloc add_dependency
    belongs node_at same_node link_nodes connect has_edge reserve_edges
chained_answers c from below = refl

reach_validate_iff_example :
    ((graph_validate chained.graph chained.heap).0 ≡ done tt)
    ↔ ((rank : ℕ → ℕ) × Ranks chained.graph.edges rank)
reach_validate_iff_example =
    reach_validate_iff 1 small_heap chained chained_run chained_edges chained_answers

-- From no room at all to room for nine.
next_capacity-Enough_example :
    (next : ℕ) × (next_capacity 0 9 ≡ some next) × Enough (first_capacity 0) 9 next
next_capacity-Enough_example = next_capacity-Enough 0 9 (omega arith) (omega arith)

abbrev second_place : NodeRef
second_place = record { graph = 1; index = 1 }

second_below : second_place.index < length chained.graph.nodes
unfolding add_workspace_node workspace_desc_validate alignment_valid alloc_node reserve_nodes
    reallocate allocate next_capacity double_until fresh_node commit_node malloc add_dependency
    belongs node_at same_node link_nodes connect has_edge reserve_edges
second_below = omega arith

reach_node_id-distinct_example :
    (id : ℕ) × (node_id chained.graph (some second_place) ≡ some id)
    × (id ≢ node_id_invalid)
    × ((q : NodeRef)
        → q.index < length chained.graph.nodes
        → node_id chained.graph (some q) ≡ some id
        → q.index ≡ second_place.index)
    × ((u : State)
        → Reach (new_graph 1 small_heap) u
        → u.graph.node_capacity < 2 ^ 63
        → second_place.index < length u.graph.nodes
        → node_id u.graph (some second_place) ≡ some id)
reach_node_id-distinct_example =
    reach_node_id-distinct 1 small_heap chained second_place chained_run chained_nodes second_below

chained-IsReady : IsReady 256 chained
unfolding add_workspace_node workspace_desc_validate alignment_valid alloc_node reserve_nodes
    reallocate allocate next_capacity double_until fresh_node commit_node malloc add_dependency
    belongs node_at same_node link_nodes connect has_edge reserve_edges node_demand
chained-IsReady = record {
  answers = λ c. (1000 + c, refl);
  sound = (
    (record { pos = omega arith; aligned = refl }, omega arith),
    ((record { pos = omega arith; aligned = refl }, omega arith), tt),
  );
  few = omega arith;
  word = omega arith;
  space = tt;
  counter = tt;
}

chained-Ranks : Ranks chained.graph.edges (λ v. 1 - v)
unfolding add_workspace_node workspace_desc_validate alignment_valid alloc_node reserve_nodes
    reallocate allocate next_capacity double_until fresh_node commit_node malloc add_dependency
    belongs node_at same_node link_nodes connect has_edge reserve_edges
chained-Ranks = (omega arith, tt)

reach_plan-succeeds_example : Prepared chained
reach_plan-succeeds_example =
    reach_plan-succeeds 1 small_heap chained 256 (λ v. 1 - v) chained_run chained_nodes
      chained_edges chained-Ranks chained-IsReady
