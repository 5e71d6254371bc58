-- ===== src/Workspace/Memory.antt =====
-- Sorting, planning and looking up, composed: the transient memory that the nodes of any graph built
-- by src/core/graph.c get from src/core/arena.c.
use metal_graph.Base.{
  sym, ◌∙◌, ◌⊎◌, inl, inr, ℕ, ◌+◌, ◌^◌, ◌≤◌, ◌<◌, ◌≡◌, ◌≢◌, Option, none, some, true, List, [], ◌∷◌,
  length, get_elem?, arith, All, word64,
}
use mathlib.Core.List.{Memᴰ}
use metal_graph.Outcome.{Outcome, done, failed}
use metal_graph.Heap.{Heap}
use metal_graph.Heap.Counting.{word32}
use metal_graph.Heap.Refs.{Ref, arena, ref_count, count, one_for_self, Grown}
use metal_graph.Heap.RefLists.{count-append}
use metal_graph.Node.{Node, Edge}
use metal_graph.Topology.{topological_sort, cycle_found}
use metal_graph.Topology.Counts.{mem}
use metal_graph.Topology.Order.{IsTopological, Ranks}
use metal_graph.Graph.{Graph, State, arena_refs, nodes_refs}
use metal_graph.Graph.Holding.{Ends, Ends-map}
use metal_graph.Graph.Invariant.{IsBalanced, IsWellFormed}
use metal_graph.Graph.Reach.{Reach-Invariant, new_graph, new_graph-Invariant, reach_sort-cases}
use metal_graph.Graph.Step.{Reach}
use metal_graph.Workspace.{Demand, WorkspacePlan, node_demand, offset_for_node, plan_workspace}
use metal_graph.Workspace.Layout.{demands}
use metal_graph.Workspace.Plan.{WordNodes, OrderWithin}
use metal_graph.Workspace.Attach.{PlannedFor, ArenaServes, plan_workspace-Ends}
use metal_graph.Workspace.Lookup.{Located, offset_for_node-Located}
use metal_graph.Workspace.Distinct.{id_at, demands-NoDup, demands-Mem}
use metal_graph.Workspace.Apart.{Apart, All-Mem, found-Apart}

-- The node at a place has a demand.
pub record Asks (g : Graph) (i : ℕ) (d : Demand) : Type 0 where
  pub node : Node
  pub is_at : get_elem? g.nodes i ≡ some node
  pub below : i < length g.nodes
  pub asked : node_demand node.id node.payload ≡ some d

-- Each node finds the memory that it asks for, and no two nodes share any of it.
pub record HasMemory (g : Graph) (h : Heap) (plan : WorkspacePlan) (k : Heap) : Type 0 where
  pub located : (i : ℕ) (d : Demand) → Asks g i d → Located plan.records plan.total_size d
  pub apart :
      (i j : ℕ) (d e : Demand) (a b : ℕ)
      → Asks g i d
      → Asks g j e
      → i ≢ j
      → offset_for_node plan.records d.node_id ≡ done a
      → offset_for_node plan.records e.node_id ≡ done b
      → Apart d a e b
  pub arena : plan.arena ≡ g.arena
  pub serves : ArenaServes h g.arena plan
  pub heap : Grown (arena_refs g.arena) h k

pub All_of_mem :
    (n : ℕ) (order : List ℕ) → ((v : ℕ) → mem v order ≡ true → v < n) → All (λ i. i < n) order
All_of_mem n [] h = tt
All_of_mem n (i ∷ order) h = (h i (ground arith), All_of_mem n order (λ v m. h v (ground arith)))

module _ (g : Graph) (order : List ℕ) (formed : IsWellFormed g)
    (top : IsTopological (length g.nodes) g.edges order) (small : length g.nodes + 1 < word64) where
  order_within : OrderWithin g.nodes order
  order_within = All_of_mem (length g.nodes) order (λ v m. (top.nodes v).0 m)

  Asks-Mem : (i : ℕ) (d : Demand) → Asks g i d → Memᴰ d (demands g.nodes order)
  Asks-Mem i d q =
      demands-Mem g.nodes order i q.node d order_within ((top.nodes i).1 q.below) q.is_at q.asked

  Asks-id : (i : ℕ) (d : Demand) → Asks g i d → d.node_id ≡ i + 1
  Asks-id i d q = id_at g.address g.nodes formed.numbered small i q.node d q.below q.is_at q.asked

  PlannedFor-HasMemory :
      (h k : Heap) (plan : WorkspacePlan) → PlannedFor g order h plan k → HasMemory g h plan k
  PlannedFor-HasMemory h k plan p =
      let distinct =
        demands-NoDup g.address g.nodes formed.numbered small order order_within top.nodup in
      let all =
        offset_for_node-Located 0 (demands g.nodes order) plan.records plan.total_size p.laid
          distinct in
      record {
        located = λ i d q.
            All-Mem (Located plan.records plan.total_size) (demands g.nodes order) d all
              (Asks-Mem i d q);
        apart = λ i j d e a b q r ne at_a at_b.
            found-Apart 0 (demands g.nodes order) plan.records plan.total_size d e a b p.laid
              distinct (Asks-Mem i d q) (Asks-Mem j e r)
              (let d_id = Asks-id i d q in let e_id = Asks-id j e r in λ same. ne (omega arith))
              at_a at_b;
        arena = p.arena;
        serves = p.serves;
        heap = p.heap;
      }

-- The graph's arena lives, by the graph's own reference.
arena_lives :
    (outside : Ref → ℕ) (s : State)
    → IsBalanced outside s
    → All (λ r. 0 < ref_count s.heap r) (arena_refs s.graph.arena)
arena_lives outside s balanced = go s.graph.arena (λ r.
    omega (arith, balanced r, count-append r (arena_refs s.graph.arena) (nodes_refs s.graph.nodes)))
  where
    go :
        (o : Option ℕ)
        → ((r : Ref) → count r (arena_refs o) ≤ ref_count s.heap r)
        → All (λ r. 0 < ref_count s.heap r) (arena_refs o)
    go none h = tt
    go (some p) h = (omega (arith, h (arena p), one_for_self (arena p)), tt)

pub sorted-IsTopological :
    {n : ℕ} {es : List Edge} {order : List ℕ} {r : Outcome (List ℕ)}
    → ((order' : List ℕ) × (r ≡ done order') × IsTopological n es order')
      ⊎ ((r ≡ failed cycle_found) × ((rank : ℕ → ℕ) → ¬ Ranks es rank))
    → r ≡ done order
    → IsTopological n es order
sorted-IsTopological (inl (order', e, top)) sorts =
    let both : done order' ≡ done _ = sym e ∙ sorts in let same : order' ≡ _ = cc in rw same at top
sorted-IsTopological (inr (e, cyclic)) sorts = let both = sym e ∙ sorts in cc

-- A graph that was built by any run of calls, whose arrays have fewer than 2^63 places, whose nodes
-- have word-sized demands and whose arena's counter has room, is sorted into an order:
-- mg_graph_plan_workspace on that order never faults. It fails with all counts as they were, or in
-- its plan each node with a demand finds an offset by its id, aligned and with the whole range
-- within the total; the ranges of two nodes never overlap; and the total and the alignment are
-- within those of the attached arena, to which the plan holds one reference.
pub reach_plan-Ends :
    (p : ℕ) (h : Heap) (t : State) (order : List ℕ)
    → Reach (new_graph p h) t
    → t.graph.node_capacity < 2 ^ 63
    → t.graph.edge_capacity < 2 ^ 63
    → WordNodes t.graph.nodes
    → All (λ r. ref_count t.heap r + 1 < word32) (arena_refs t.graph.arena)
    → topological_sort (length t.graph.nodes) t.graph.edges ≡ done order
    → Ends (HasMemory t.graph t.heap) (Grown [] t.heap) (plan_workspace t.graph order t.heap)
reach_plan-Ends p h t order run nodes edges words fits sorts =
    let inv = Reach-Invariant (ref_count h) (new_graph p h) t (new_graph-Invariant p h) run in
    let room = inv.formed.node_room in
    let top = sorted-IsTopological (reach_sort-cases p h t run edges) sorts in
    Ends-map (PlannedFor t.graph order t.heap) (HasMemory t.graph t.heap) (Grown [] t.heap)
      (plan_workspace t.graph order t.heap)
      (λ plan k q. PlannedFor-HasMemory t.graph order inv.formed top (omega arith) t.heap k plan q)
      (plan_workspace-Ends t.graph order t.heap words
        (order_within t.graph order inv.formed top (omega arith))
        (arena_lives (ref_count h) t inv.balanced) fits)
