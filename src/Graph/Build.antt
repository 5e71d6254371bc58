-- ===== src/Graph/Build.antt =====
-- src/core/graph.c: the nodes whose construction is one check and one commit: copy, fill, event,
-- barrier and workspace nodes. `out_node` says whether the caller's `out_node` is not NULL.
pub mod Laws
pub mod Simple
use metal_graph.Base.{ℕ, Bool, true, false, not, ◌&&◌, leb, Option, none, some, List, [], ◌∷◌}
use metal_graph.Types.{Stage}
use metal_graph.Outcome.{Outcome, done, failed, fault, M, ◌>>=◌, ◌>>◌, require}
use metal_graph.Heap.{Heap, buffer_retain, event_retain}
use metal_graph.Arena.{workspace_desc_validate}
use metal_graph.Node.{
  CopyDesc, FillDesc, WorkspaceDesc, CopyNode, FillNode, EventNode, Payload, copy, fill, event_wait,
  event_signal, barrier, workspace, workspace_fill,
}
use metal_graph.Graph.{
  State, NodeRef, invalid, touch, check, given, alloc_node, commit_node, range_within, and_also,
  is_given,
}

-- The `sizeof` of the descriptors where pointers and `size_t` have 8 bytes.
abbrev pub copy_desc_size : ℕ
copy_desc_size = 48

abbrev pub fill_desc_size : ℕ
fill_desc_size = 40

-- The test of mgGraphAddCopyNode, and of mgGraphExecPatchCopyNode.
unfoldable pub copy_desc_valid : CopyDesc → Heap → Outcome Bool
copy_desc_valid d h =
    and_also (done (leb copy_desc_size d.size && (is_given d.src && is_given d.dst))) (
      and_also (range_within h d.src d.src_offset d.byte_count)
        (range_within h d.dst d.dst_offset d.byte_count))

abbrev pub copy_of : CopyDesc → Payload
copy_of d = copy (record {
  src = d.src;
  src_offset = d.src_offset;
  dst = d.dst;
  dst_offset = d.dst_offset;
  byte_count = d.byte_count;
})

-- mgGraphAddCopyNode.
unfoldable pub add_copy_node : Option CopyDesc → Bool → M State NodeRef
add_copy_node desc out_node = do
  d ← given desc (invalid "graph, desc, and out_node are required")
  require out_node (invalid "graph, desc, and out_node are required")
  check (copy_desc_valid d) (invalid "copy descriptor is invalid")
  node ← alloc_node (copy_of d)
  touch (buffer_retain d.src)
  touch (buffer_retain d.dst)
  commit_node node

-- The test of mgGraphAddFillNode, and of mgGraphExecPatchFillNode.
unfoldable pub fill_desc_valid : FillDesc → Heap → Outcome Bool
fill_desc_valid d h =
    and_also (done (leb fill_desc_size d.size && is_given d.dst))
      (range_within h d.dst d.dst_offset d.byte_count)

abbrev pub fill_of : FillDesc → Payload
fill_of d =
    fill (record {
      dst = d.dst;
      dst_offset = d.dst_offset;
      byte_count = d.byte_count;
      value = d.value;
    })

-- mgGraphAddFillNode.
unfoldable pub add_fill_node : Option FillDesc → Bool → M State NodeRef
add_fill_node desc out_node = do
  d ← given desc (invalid "graph, desc, and out_node are required")
  require out_node (invalid "graph, desc, and out_node are required")
  check (fill_desc_valid d) (invalid "fill descriptor is invalid")
  node ← alloc_node (fill_of d)
  touch (buffer_retain d.dst)
  commit_node node

-- mg_graph_add_event_node; the kind is the constructor.
unfoldable pub add_event_node : (EventNode → Payload) → Option ℕ → ℕ → Bool → M State NodeRef
add_event_node kind event value out_node = do
  require (is_given event && out_node) (invalid "graph, event, and out_node are required")
  node ← alloc_node (kind (record { event = event; value = value }))
  touch (event_retain event)
  commit_node node

-- mgGraphAddEventWaitNode.
unfoldable pub add_event_wait_node : Option ℕ → ℕ → Bool → M State NodeRef
add_event_wait_node = add_event_node event_wait

-- mgGraphAddEventSignalNode.
unfoldable pub add_event_signal_node : Option ℕ → ℕ → Bool → M State NodeRef
add_event_signal_node = add_event_node event_signal

-- mgGraphAddBarrierNode.
unfoldable pub add_barrier_node : Bool → M State NodeRef
add_barrier_node out_node = do
  require out_node (invalid "graph and out_node are required")
  node ← alloc_node barrier
  commit_node node

-- The result of a validation, as a step.
abbrev pub validated : {A : Type 0} → Outcome A → M State A
validated o s = (o, s)

-- mg_internal_graph_add_workspace_node.
unfoldable pub add_workspace_node : Option WorkspaceDesc → Bool → M State NodeRef
add_workspace_node desc out_node = do
  require out_node (invalid "graph and out_node are required")
  d ← validated (workspace_desc_validate desc Stage.create)
  node ← alloc_node (workspace (record { size = d.byte_count; alignment = d.alignment }))
  commit_node node

abbrev pub workspace_fill_of : WorkspaceDesc → ℕ → Option ℕ → ℕ → Payload
workspace_fill_of d value dst dst_offset = workspace_fill (record {
  size = d.byte_count;
  alignment = d.alignment;
  value = value;
  dst = dst;
  dst_offset = dst_offset;
})

-- mg_internal_graph_add_workspace_fill_node.
unfoldable pub add_workspace_fill_node :
    Option WorkspaceDesc → ℕ → Option ℕ → ℕ → Bool → M State NodeRef
add_workspace_fill_node desc value dst dst_offset out_node = do
  require (is_given dst && out_node) (invalid "graph, dst, and out_node are required")
  d ← validated (workspace_desc_validate desc Stage.create)
  check (λ h. range_within h dst dst_offset d.byte_count)
      (invalid "workspace fill destination range is invalid")
  node ← alloc_node (workspace_fill_of d value dst dst_offset)
  touch (buffer_retain dst)
  commit_node node
