-- ===== src/Workspace/Whole.antt =====
-- From the calls that build a graph to the memory of its nodes, where nothing stands in the way:
-- src/core/graph.c and src/core/arena.c together.
use metal_graph.Base.{ℕ, ◌+◌, ◌^◌, ◌<◌, ◌≡◌, true, List, length, arith, All, word64}
use metal_graph.Outcome.{Outcome, done}
use metal_graph.Heap.{Heap}
use metal_graph.Heap.Counting.{word32}
use metal_graph.Heap.Memory.{HasAnswers}
use metal_graph.Heap.Refs.{ref_count}
use metal_graph.Topology.{topological_sort}
use metal_graph.Topology.Counts.{mem}
use metal_graph.Topology.Correct.{topological_sort_iff}
use metal_graph.Topology.Order.{Ranks, IsTopological}
use metal_graph.Graph.{State, arena_refs}
use metal_graph.Graph.Holding.{Ends}
use metal_graph.Graph.Reach.{Reach-Invariant, new_graph, new_graph-Invariant, reach_sort-cases}
use metal_graph.Graph.Step.{Reach}
use metal_graph.Workspace.{WorkspacePlan, plan_workspace}
use metal_graph.Workspace.Success.{HasSpace, HasSpace-le, plan_workspace-succeeds}
use metal_graph.Workspace.Total.{
  node_budget, SoundNodes, budget-le, demands-SoundWithin, node_budget-WordNodes,
}
use metal_graph.Workspace.Memory.{HasMemory, reach_plan-Ends, sorted-IsTopological, All_of_mem}

-- What a graph and a heap need for the plan.
pub record IsReady (limit : ℕ) (s : State) : Type 0 where
  pub answers : HasAnswers s.heap
  pub sound : SoundNodes limit s.graph.nodes
  pub few : length s.graph.nodes < 2 ^ 58
  pub word : node_budget s.graph.nodes < word64
  pub space : HasSpace s.heap s.graph.arena limit (node_budget s.graph.nodes)
  pub counter : All (λ r. ref_count s.heap r + 1 < word32) (arena_refs s.graph.arena)

-- The order that the sort finds, and the plan along it.
pub record Prepared (s : State) : Type 0 where
  pub order : List ℕ
  pub plan : WorkspacePlan
  pub heap : Heap
  pub sorts : topological_sort (length s.graph.nodes) s.graph.edges ≡ done order
  pub topological : IsTopological (length s.graph.nodes) s.graph.edges order
  pub planned : plan_workspace s.graph order s.heap ≡ (done plan, heap)
  pub memory : HasMemory s.graph s.heap plan heap

Ends-done :
    {S A : Type 0} (P : A → S → Type 0) (E : S → Type 0) (r : Outcome A × S) (a : A) (s : S)
    → r ≡ (done a, s)
    → Ends P E r
    → P a s
Ends-done P E r a s e h = rw e at h

-- A graph that was built by any run of calls, whose arrays have fewer than 2^63 places, that has no
-- cycle, and whose demands are sound and together fit a word and the attached arena, with an
-- allocator that never answers NULL: the sort finds an order in which each node stands once and
-- after all nodes with an edge into it, and the planning along that order succeeds; in its plan each
-- node with a demand finds its own aligned range, no two ranges overlap, and all of them fit the
-- arena.
pub reach_plan-succeeds :
    (p : ℕ) (h : Heap) (t : State) (limit : ℕ) (rank : ℕ → ℕ)
    → Reach (new_graph p h) t
    → t.graph.node_capacity < 2 ^ 63
    → t.graph.edge_capacity < 2 ^ 63
    → Ranks t.graph.edges rank
    → IsReady limit t
    → Prepared t
reach_plan-succeeds p h t limit rank run nodes edges ranks ready =
    let inv = Reach-Invariant (ref_count h) (new_graph p h) t (new_graph-Invariant p h) run in
    let room = inv.formed.edge_room in
    let (order, sorts) =
      (topological_sort_iff (length t.graph.nodes) t.graph.edges (omega arith)).1
        (inv.formed.range, (rank, ranks)) in
    let top = sorted-IsTopological (reach_sort-cases p h t run edges) sorts in
    let below : (v : ℕ) → mem v order ≡ true → v < length t.graph.nodes =
      λ v m. (top.nodes v).0 m in
    let within = All_of_mem (length t.graph.nodes) order below in
    let least = budget-le t.graph.nodes order within top.nodup below in
    let few = ready.few in
    let word = ready.word in
    let size = top.size in
    let (plan, k, planned) =
      plan_workspace-succeeds t.graph order t.heap limit ready.answers within
        (demands-SoundWithin limit t.graph.nodes order within ready.sound) (omega arith)
        (omega arith) (HasSpace-le t.heap t.graph.arena limit _ _ least ready.space) in
    record {
      order = order;
      plan = plan;
      heap = k;
      sorts = sorts;
      topological = top;
      planned = planned;
      memory = Ends-done _ _ _ plan k planned (
          reach_plan-Ends p h t order run nodes edges (node_budget-WordNodes t.graph.nodes word)
            ready.counter sorts);
    }
