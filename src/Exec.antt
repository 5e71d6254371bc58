-- ===== src/Exec.antt =====
-- The executable graph of src/core/internal.h, and the parts that the functions of src/core/patch.c
-- share. Its nodes are made by the backend; pointers that only the backend reads are left out.
pub mod Patch
pub mod PatchDispatch
pub mod Replaced
pub mod Balance
pub mod Destroy
pub mod Life
pub mod Laws
pub mod Options
pub mod Writes
use metal_graph.Base.{
  ℕ, suc, ◌+◌, Bool, true, false, ◌==◌, ltb, if◌then◌else◌, Option, none, some, List, [], ◌∷◌, ◌++◌,
  String, set, bit_and, get_elem?,
}
use metal_graph.Types.{Stage}
use metal_graph.Outcome.{Outcome, done, failed, fault, Failure, M, invalid_at, node_id_invalid}
use metal_graph.Heap.{Heap}
use metal_graph.Heap.Refs.{Ref}
use metal_graph.Node.{
  Dims, BufferBinding, ScalarBinding, ResourceDesc, Tensor, buffer_refs, event_refs, binding_refs,
  tensor_refs,
}
use metal_graph.Workspace.{WorkspacePlan}

-- mg_exec_dispatch_t.
pub record ExecDispatch : Type 0 where
  pub id : ℕ
  pub patch_flags : ℕ
  pub metallib_path : String
  pub kernel_name : String
  pub grid_size : Dims
  pub threads_per_threadgroup : Dims
  pub max_grid_size : Dims
  pub buffers : List BufferBinding
  pub scalars : List ScalarBinding
  pub resources : List ResourceDesc

-- mg_exec_copy_t.
pub record ExecCopy : Type 0 where
  pub id : ℕ
  pub patch_flags : ℕ
  pub src : Option ℕ
  pub src_offset : ℕ
  pub dst : Option ℕ
  pub dst_offset : ℕ
  pub byte_count : ℕ

-- mg_exec_fill_t.
pub record ExecFill : Type 0 where
  pub id : ℕ
  pub patch_flags : ℕ
  pub dst : Option ℕ
  pub dst_offset : ℕ
  pub byte_count : ℕ
  pub value : ℕ

-- mg_exec_event_t.
pub record ExecEvent : Type 0 where
  pub id : ℕ
  pub patch_flags : ℕ
  pub event : Option ℕ
  pub value : ℕ

-- mg_exec_mpsgraph_t.
pub record ExecMpsGraph : Type 0 where
  pub id : ℕ
  pub package_path : String
  pub feeds : List Tensor
  pub targets : List Tensor

-- mg_exec_workspace_t.
pub record ExecWorkspace : Type 0 where
  pub id : ℕ
  pub size : ℕ
  pub alignment : ℕ
  pub offset : ℕ

-- mg_exec_workspace_fill_t.
pub record ExecWorkspaceFill : Type 0 where
  pub id : ℕ
  pub size : ℕ
  pub alignment : ℕ
  pub offset : ℕ
  pub value : ℕ
  pub dst : Option ℕ
  pub dst_offset : ℕ

-- mg_exec_node_t: the kind, with the member of the union that it selects.
pub data ExecNode : Type 0 where
  dispatch : ExecDispatch → ExecNode
  copy : ExecCopy → ExecNode
  fill : ExecFill → ExecNode
  event_wait event_signal : ExecEvent → ExecNode
  barrier : ℕ → ExecNode
  mpsgraph : ExecMpsGraph → ExecNode
  workspace : ExecWorkspace → ExecNode
  workspace_fill : ExecWorkspaceFill → ExecNode

-- mg_icb_plan_t.
pub record IcbPlan : Type 0 where
  pub enabled_flags : ℕ
  pub available : ℕ
  pub groups_planned : ℕ
  pub groups_used : ℕ
  pub groups_fallback : ℕ
  pub last_fallback_reason : ℕ
  pub command_count : ℕ

-- mg_graph_exec.
pub record Exec : Type 0 where
  pub nodes : List ExecNode
  pub device_impl : Option ℕ
  pub workspace : WorkspacePlan
  pub icb : IcbPlan
  pub in_flight_count : ℕ

-- The heap, and the executable that the call is given; it is not NULL.
pub record ExecState : Type 0 where
  pub heap : Heap
  pub exec : Exec

-- The references of a node.
abbrev pub exec_node_refs : ExecNode → List Ref
exec_node_refs (dispatch d) = binding_refs d.buffers
exec_node_refs (copy c) = buffer_refs c.src ++ buffer_refs c.dst
exec_node_refs (fill f) = buffer_refs f.dst
exec_node_refs (event_wait e) = event_refs e.event
exec_node_refs (event_signal e) = event_refs e.event
exec_node_refs (barrier i) = []
exec_node_refs (mpsgraph m) = tensor_refs m.feeds ++ tensor_refs m.targets
exec_node_refs (workspace w) = []
exec_node_refs (workspace_fill w) = buffer_refs w.dst

abbrev pub exec_refs : List ExecNode → List Ref
exec_refs [] = []
exec_refs (n ∷ ns) = exec_node_refs n ++ exec_refs ns

-- A failure of stage patch.
abbrev pub refused : ℕ → String → Failure
refused = invalid_at Stage.patch

-- The test in the loop of mg_patch_find_node: nodes of the other kinds are passed over.
unfoldable pub is_patchable : ℕ → ExecNode → Bool
is_patchable id (dispatch d) = d.id == id
is_patchable id (copy c) = c.id == id
is_patchable id (fill f) = f.id == id
is_patchable id (event_wait e) = e.id == id
is_patchable id (event_signal e) = e.id == id
is_patchable id (barrier i) = i == id
is_patchable id _ = false

abbrev pub next_place : Option ℕ → Option ℕ
next_place none = none
next_place (some i) = some (suc i)

-- The loop of mg_patch_find_node; the result is the place of the node.
unfoldable pub find_place : ℕ → List ExecNode → Option ℕ
find_place id [] = none
find_place id (n ∷ ns) =
    let rest = next_place (find_place id ns) in if is_patchable id n then some 0 else rest

-- What a patch does to the node that it found.
abbrev pub NodePatch : Type 0
NodePatch = ExecNode → M Heap ExecNode

-- The node is changed in place.
abbrev pub write_back : ℕ → Outcome ExecNode × Heap → Exec → Outcome (Unit {0}) × ExecState
write_back i (done n, h) exec =
    (done tt, record { heap = h; exec = record exec { nodes = set exec.nodes i n } })
write_back i (failed e, h) exec = (failed e, record { heap = h; exec = exec })
write_back i (fault, h) exec = (fault, record { heap = h; exec = exec })

abbrev pub apply_at : ℕ → Option ExecNode → NodePatch → M ExecState (Unit {0})
apply_at i none f s = (fault, s)
apply_at i (some n) f s = write_back i (f n s.heap) s.exec

abbrev pub at_place : ℕ → Option ℕ → NodePatch → M ExecState (Unit {0})
at_place id none f s = (failed (refused id "node_id does not exist in exec"), s)
at_place id (some i) f s = apply_at i (get_elem? s.exec.nodes i) f s

-- mg_patch_find_node, and the rest of the patch on the node.
unfoldable pub with_node : ℕ → NodePatch → M ExecState (Unit {0})
with_node id f s =
    if id == node_id_invalid
    then (failed (refused id "node_id is invalid"), s)
    else at_place id (find_place id s.exec.nodes) f s

-- mg_patch_ready, and the rest of the function.
unfoldable pub when_ready : M ExecState (Unit {0}) → M ExecState (Unit {0})
when_ready rest s =
    if ltb 0 s.exec.in_flight_count
    then (failed (refused node_id_invalid "exec has an in-flight launch"), s)
    else rest s
