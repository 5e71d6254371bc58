-- ===== src/Exec/Destroy.antt =====
-- mgGraphExecDestroy of src/metal/metal_backend.mm: the references of an executable are given back.
use metal_graph.Base.{◌++◌, ◌≡◌, refl, Option, some, List, [], ◌∷◌}
use metal_graph.Heap.{Heap, buffer_release, event_release}
use metal_graph.Heap.Refs.{Ref}
use metal_graph.Heap.RefLists.{release_all}
use metal_graph.Graph.{arena_refs}
use metal_graph.Workspace.{plan_clear}
use metal_graph.Node.{buffer_refs, tensor_refs}
use metal_graph.Graph.Lifetime.{and_then, release_bindings, release_tensors}
use metal_graph.Graph.Lifetime.Releases.{
  in_turn, arena_release-all, buffer_release-all, event_release-all, release_bindings-all,
  release_tensors-all,
}
use metal_graph.Exec.{
  Exec, ExecNode, exec_node_refs, exec_refs, dispatch, copy, fill, event_wait, event_signal,
  barrier, mpsgraph, workspace, workspace_fill,
}

-- mg_exec_node_clear. Its objects of Metal, its arrays and its texts are freed with the node.
unfoldable pub exec_node_clear : ExecNode → Heap → Option Heap
exec_node_clear (dispatch d) h = release_bindings d.buffers h
exec_node_clear (copy c) h = and_then (buffer_release c.src h) (buffer_release c.dst)
exec_node_clear (fill f) h = buffer_release f.dst h
exec_node_clear (event_wait e) h = event_release e.event h
exec_node_clear (event_signal e) h = event_release e.event h
exec_node_clear (barrier i) h = some h
exec_node_clear (mpsgraph m) h = and_then (release_tensors m.feeds h) (release_tensors m.targets)
exec_node_clear (workspace w) h = some h
exec_node_clear (workspace_fill w) h = buffer_release w.dst h

unfoldable pub clear_exec_nodes : List ExecNode → Heap → Option Heap
clear_exec_nodes [] h = some h
clear_exec_nodes (n ∷ ns) h = and_then (exec_node_clear n h) (clear_exec_nodes ns)

-- mgGraphExecDestroy, of an executable that is not NULL. Its objects of Metal are released with it: the
-- workspace, the indirect command buffer and the device.
unfoldable pub graph_exec_destroy : Exec → Heap → Option Heap
graph_exec_destroy exec h = and_then (clear_exec_nodes exec.nodes h) (plan_clear exec.workspace)

-- All references of an executable: those of its nodes, and that of its plan to an arena.
abbrev pub owned_refs : Exec → List Ref
owned_refs exec = exec_refs exec.nodes ++ arena_refs exec.workspace.arena

exec_node_clear-all :
    (n : ExecNode) (h : Heap) → exec_node_clear n h ≡ release_all (exec_node_refs n) h
unfolding exec_node_clear release_all
exec_node_clear-all (dispatch d) h = release_bindings-all d.buffers h
exec_node_clear-all (copy c) h =
    in_turn (buffer_refs c.src) (buffer_refs c.dst) (buffer_release c.src) (buffer_release c.dst) h
      (buffer_release-all c.src h) (buffer_release-all c.dst)
exec_node_clear-all (fill f) h = buffer_release-all f.dst h
exec_node_clear-all (event_wait e) h = event_release-all e.event h
exec_node_clear-all (event_signal e) h = event_release-all e.event h
exec_node_clear-all (barrier i) h = refl
exec_node_clear-all (mpsgraph m) h =
    in_turn (tensor_refs m.feeds) (tensor_refs m.targets) (release_tensors m.feeds)
      (release_tensors m.targets) h (release_tensors-all m.feeds h) (release_tensors-all m.targets)
exec_node_clear-all (workspace w) h = refl
exec_node_clear-all (workspace_fill w) h = buffer_release-all w.dst h

clear_exec_nodes-all :
    (ns : List ExecNode) (h : Heap) → clear_exec_nodes ns h ≡ release_all (exec_refs ns) h
unfolding clear_exec_nodes release_all
clear_exec_nodes-all [] h = refl
clear_exec_nodes-all (n ∷ ns) h =
    in_turn (exec_node_refs n) (exec_refs ns) (exec_node_clear n) (clear_exec_nodes ns) h
      (exec_node_clear-all n h) (clear_exec_nodes-all ns)

pub graph_exec_destroy-all :
    (exec : Exec) (h : Heap) → graph_exec_destroy exec h ≡ release_all (owned_refs exec) h
unfolding graph_exec_destroy plan_clear
graph_exec_destroy-all exec h =
    in_turn (exec_refs exec.nodes) (arena_refs exec.workspace.arena) (clear_exec_nodes exec.nodes)
      (plan_clear exec.workspace) h (clear_exec_nodes-all exec.nodes h)
      (arena_release-all exec.workspace.arena)
