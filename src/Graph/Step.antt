-- ===== src/Graph/Step.antt =====
-- The states that the functions of src/core/graph.c reach from a new graph. Each step is one call; the
-- hypotheses of a constructor are what its caller has to provide.
use metal_graph.Base.{ℕ, ◌+◌, ◌^◌, ◌<◌, ◌≡◌, Bool, Option, [], All}
use metal_graph.Heap.Counting.{word32}
use metal_graph.Heap.Refs.{Ref, ref_count}
use metal_graph.Node.{
  DispatchDesc, MpsGraphDesc, CopyDesc, FillDesc, WorkspaceDesc, buffer_refs, event_refs,
}
use metal_graph.Graph.{Graph, State, NodeRef, arena_refs}
use metal_graph.Graph.Holding.{Holding, HasRoom}
use metal_graph.Graph.Adding.{CountersFit}
use metal_graph.Graph.Checks.{IsLive}
use metal_graph.Graph.Build.{
  add_copy_node, add_fill_node, add_event_wait_node, add_event_signal_node, add_barrier_node,
  add_workspace_node, add_workspace_fill_node,
}
use metal_graph.Graph.Build.Laws.{
  copy_desc_refs, fill_desc_refs, add_copy_node-Ends, add_fill_node-Ends,
}
use metal_graph.Graph.Build.Simple.{
  add_event_nodes-Ends, add_barrier_node-Ends, add_workspace_node-Ends,
  add_workspace_fill_node-Ends,
}
use metal_graph.Graph.Tensors.{add_mpsgraph_node}
use metal_graph.Graph.Tensors.Node.{mpsgraph_desc_refs, add_mpsgraph_node-Ends}
use metal_graph.Graph.Dispatch.{add_dispatch_node}
use metal_graph.Graph.Dispatch.Laws.{dispatch_desc_refs, add_dispatch_node-Ends}
use metal_graph.Graph.Edges.{add_dependency}
use metal_graph.Graph.Edges.Laws.{add_dependency-Ends}
use metal_graph.Graph.Edges.Connect.{IsNode}
use metal_graph.Graph.Lifetime.{set_arena, set_node_patch_flags}
use metal_graph.Graph.Lifetime.Laws.{set_arena-Ends}
use metal_graph.Graph.Lifetime.Flags.{set_node_patch_flags-Ends}
use metal_graph.Graph.Invariant.{
  IsWellFormed, Invariant, Added-Invariant, Holding-Invariant, Ends-state,
}

-- One call, whatever it returns.
pub data Step (s : State) : State → Type 0 where
  dispatch_node :
      (desc : Option DispatchDesc) (out_node : Bool)
      → IsLive s.heap (dispatch_desc_refs desc)
      → CountersFit s (dispatch_desc_refs desc)
      → Step s (add_dispatch_node desc out_node s).1
  mpsgraph_node :
      (desc : Option MpsGraphDesc) (out_node : Bool)
      → IsLive s.heap (mpsgraph_desc_refs desc)
      → CountersFit s (mpsgraph_desc_refs desc)
      → Step s (add_mpsgraph_node desc out_node s).1
  copy_node :
      (desc : Option CopyDesc) (out_node : Bool)
      → IsLive s.heap (copy_desc_refs desc)
      → CountersFit s (copy_desc_refs desc)
      → Step s (add_copy_node desc out_node s).1
  fill_node :
      (desc : Option FillDesc) (out_node : Bool)
      → IsLive s.heap (fill_desc_refs desc)
      → CountersFit s (fill_desc_refs desc)
      → Step s (add_fill_node desc out_node s).1
  wait_node :
      (event : Option ℕ) (value : ℕ) (out_node : Bool)
      → IsLive s.heap (event_refs event)
      → CountersFit s (event_refs event)
      → Step s (add_event_wait_node event value out_node s).1
  signal_node :
      (event : Option ℕ) (value : ℕ) (out_node : Bool)
      → IsLive s.heap (event_refs event)
      → CountersFit s (event_refs event)
      → Step s (add_event_signal_node event value out_node s).1
  barrier_node : (out_node : Bool) → Step s (add_barrier_node out_node s).1
  workspace_node :
      (desc : Option WorkspaceDesc) (out_node : Bool)
      → Step s (add_workspace_node desc out_node s).1
  workspace_fill_node :
      (desc : Option WorkspaceDesc) (value : ℕ) (dst : Option ℕ) (dst_offset : ℕ) (out_node : Bool)
      → IsLive s.heap (buffer_refs dst)
      → CountersFit s (buffer_refs dst)
      → Step s (add_workspace_fill_node desc value dst dst_offset out_node s).1
  dependency :
      (before after : Option NodeRef)
      → IsNode s.graph before
      → IsNode s.graph after
      → Step s (add_dependency before after s).1
  arena :
      (p : Option ℕ)
      → IsLive s.heap (arena_refs p)
      → All (λ r. ref_count s.heap r + 1 < word32) (arena_refs p)
      → Step s (set_arena p s).1
  node_flags :
      (node : Option NodeRef) (flags : ℕ)
      → IsNode s.graph node
      → Step s (set_node_patch_flags node flags s).1

-- A run of calls, while the arrays are shorter than 2^63.
pub data Reach (s : State) : State → Type 0 where
  start : Reach s s
  call :
      (t u : State)
      → Reach s t
      → t.graph.node_capacity < 2 ^ 63
      → t.graph.edge_capacity < 2 ^ 63
      → Step t u
      → Reach s u

pub has_room :
    (g : Graph) → IsWellFormed g → g.node_capacity < 2 ^ 63 → g.edge_capacity < 2 ^ 63 → HasRoom g
has_room g f n e = record {
  nodes = f.node_room;
  edges = f.edge_room;
  node_bound = n;
  edge_bound = e;
}

pub Step-Invariant :
    (outside : Ref → ℕ) (s t : State)
    → HasRoom s.graph
    → Invariant outside s
    → Step s t
    → Invariant outside t
Step-Invariant outside s t room inv (dispatch_node desc out live fits) =
    Ends-state _ (Holding [] s) (Invariant outside) (add_dispatch_node desc out s)
      (add_dispatch_node-Ends desc out s room live fits)
      (λ ref u (d, d_is, complete, grid, a). Added-Invariant outside _ s u ref inv a)
      (λ u h. Holding-Invariant outside s u inv h)
Step-Invariant outside s t room inv (mpsgraph_node desc out live fits) =
    Ends-state _ (Holding [] s) (Invariant outside) (add_mpsgraph_node desc out s)
      (add_mpsgraph_node-Ends desc out s room live fits)
      (λ ref u (d, d_is, complete, a). Added-Invariant outside _ s u ref inv a)
      (λ u h. Holding-Invariant outside s u inv h)
Step-Invariant outside s t room inv (copy_node desc out live fits) =
    Ends-state _ (Holding [] s) (Invariant outside) (add_copy_node desc out s)
      (add_copy_node-Ends desc out s room live fits)
      (λ ref u (d, d_is, ok, a). Added-Invariant outside _ s u ref inv a)
      (λ u h. Holding-Invariant outside s u inv h)
Step-Invariant outside s t room inv (fill_node desc out live fits) =
    Ends-state _ (Holding [] s) (Invariant outside) (add_fill_node desc out s)
      (add_fill_node-Ends desc out s room live fits)
      (λ ref u (d, d_is, ok, a). Added-Invariant outside _ s u ref inv a)
      (λ u h. Holding-Invariant outside s u inv h)
Step-Invariant outside s t room inv (wait_node event value out live fits) =
    Ends-state _ (Holding [] s) (Invariant outside) (add_event_wait_node event value out s)
      (add_event_nodes-Ends event value out s room live fits).0
      (λ ref u a. Added-Invariant outside _ s u ref inv a.1)
      (λ u h. Holding-Invariant outside s u inv h)
Step-Invariant outside s t room inv (signal_node event value out live fits) =
    Ends-state _ (Holding [] s) (Invariant outside) (add_event_signal_node event value out s)
      (add_event_nodes-Ends event value out s room live fits).1
      (λ ref u a. Added-Invariant outside _ s u ref inv a.1)
      (λ u h. Holding-Invariant outside s u inv h)
Step-Invariant outside s t room inv (barrier_node out) =
    Ends-state _ (Holding [] s) (Invariant outside) (add_barrier_node out s)
      (add_barrier_node-Ends out s room) (λ ref u a. Added-Invariant outside _ s u ref inv a)
      (λ u h. Holding-Invariant outside s u inv h)
Step-Invariant outside s t room inv (workspace_node desc out) =
    Ends-state _ (Holding [] s) (Invariant outside) (add_workspace_node desc out s)
      (add_workspace_node-Ends desc out s room)
      (λ ref u (d, d_is, ok, a). Added-Invariant outside _ s u ref inv a)
      (λ u h. Holding-Invariant outside s u inv h)
Step-Invariant outside s t room inv (workspace_fill_node desc value dst off out live fits) =
    Ends-state _ (Holding [] s) (Invariant outside)
      (add_workspace_fill_node desc value dst off out s)
      (add_workspace_fill_node-Ends desc value dst off out s room live fits)
      (λ ref u a. Added-Invariant outside _ s u ref inv a.added)
      (λ u h. Holding-Invariant outside s u inv h)
Step-Invariant outside s t room inv (dependency before after b_is a_is) =
    Ends-state _ (Holding [] s) (Invariant outside) (add_dependency before after s)
      (add_dependency-Ends outside before after s room inv b_is a_is) (λ _ u (l, i). i)
      (λ u h. Holding-Invariant outside s u inv h)
Step-Invariant outside s t room inv (arena p live fits) =
    Ends-state _ (Holding [] s) (Invariant outside) (set_arena p s)
      (set_arena-Ends outside p s inv live fits) (λ _ u (l, i). i)
      (λ u h. Holding-Invariant outside s u inv h)
Step-Invariant outside s t room inv (node_flags node flags is_node) =
    Ends-state _ (λ u. u ≡ s) (Invariant outside) (set_node_patch_flags node flags s)
      (set_node_patch_flags-Ends outside node flags s inv is_node) (λ _ u (l, i). i)
      (λ u same. rw same inv)
