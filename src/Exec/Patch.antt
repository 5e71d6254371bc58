-- ===== src/Exec/Patch.antt =====
-- The functions of src/core/patch.c.
use metal_graph.Base.{ℕ, Bool, true, not, ◌||◌, ◌==◌, ltb, if◌then◌else◌, Option, none, some, List}
use metal_graph.Outcome.{Outcome, done, failed, M, fail, ◌>>◌, require, node_id_invalid}
use metal_graph.Heap.{buffer_retain, buffer_release}
use metal_graph.Node.{Dims, CopyDesc, FillDesc}
use metal_graph.Flags.{
  copy_buffer, copy_range, fill_buffer, fill_range, fill_value, event_value, optimization_icb,
  has_flag, only_flags,
}
use metal_graph.Graph.Build.{copy_desc_valid, fill_desc_valid}
use metal_graph.Graph.Lifetime.{same_pointer}
use metal_graph.Exec.{
  ExecCopy, ExecFill, ExecNode, Exec, ExecState, NodePatch, refused, with_node, when_ready, copy,
  fill, event_wait, event_signal,
}
use metal_graph.Exec.PatchDispatch.{
  changed, check_heap, patch_buffer, patch_grid, patch_scalar, require_flag, touch_heap,
}

-- What the descriptor changes.
unfoldable pub copy_changes_buffer : CopyDesc → ExecCopy → Bool
copy_changes_buffer d c = not (same_pointer d.src c.src) || not (same_pointer d.dst c.dst)

unfoldable pub copy_changes_range : CopyDesc → ExecCopy → Bool
copy_changes_range d c =
    not (d.src_offset == c.src_offset)
    || (not (d.dst_offset == c.dst_offset) || not (d.byte_count == c.byte_count))

abbrev pub copied : CopyDesc → ExecCopy → ExecNode
copied d c = copy (record c {
  src = d.src;
  src_offset = d.src_offset;
  dst = d.dst;
  dst_offset = d.dst_offset;
  byte_count = d.byte_count;
})

-- mgGraphExecPatchCopyNode, on the node.
unfoldable pub patch_copy : ℕ → Option CopyDesc → NodePatch
patch_copy id none (copy c) h = (failed (refused id "copy patch descriptor is invalid"), h)
patch_copy id (some d) (copy c) h =
    (do
      check_heap (copy_desc_valid d) (refused id "copy patch descriptor is invalid")
      require_flag (copy_changes_buffer d c) c.patch_flags copy_buffer id
      require_flag (copy_changes_range d c) c.patch_flags copy_range id
      touch_heap (buffer_retain d.src)
      touch_heap (buffer_retain d.dst)
      touch_heap (buffer_release c.src)
      touch_heap (buffer_release c.dst)
      changed (copied d c))
      h
patch_copy id desc _ h = (failed (refused id "node is not a copy node"), h)

unfoldable pub fill_changes_range : FillDesc → ExecFill → Bool
fill_changes_range d f = not (d.dst_offset == f.dst_offset) || not (d.byte_count == f.byte_count)

abbrev pub filled : FillDesc → ExecFill → ExecNode
filled d f = fill (record f {
  dst = d.dst;
  dst_offset = d.dst_offset;
  byte_count = d.byte_count;
  value = d.value;
})

-- mgGraphExecPatchFillNode, on the node.
unfoldable pub patch_fill : ℕ → Option FillDesc → NodePatch
patch_fill id none (fill f) h = (failed (refused id "fill patch descriptor is invalid"), h)
patch_fill id (some d) (fill f) h =
    (do
      check_heap (fill_desc_valid d) (refused id "fill patch descriptor is invalid")
      require_flag (not (same_pointer d.dst f.dst)) f.patch_flags fill_buffer id
      require_flag (fill_changes_range d f) f.patch_flags fill_range id
      require_flag (not (d.value == f.value)) f.patch_flags fill_value id
      touch_heap (buffer_retain d.dst)
      touch_heap (buffer_release f.dst)
      changed (filled d f))
      h
patch_fill id desc _ h = (failed (refused id "node is not a fill node"), h)

-- mgGraphExecPatchEventValue, on the node.
unfoldable pub patch_event : ℕ → ℕ → NodePatch
patch_event id value (event_wait e) = do
  require_flag true e.patch_flags event_value id
  changed (event_wait (record e { value = value }))
patch_event id value (event_signal e) = do
  require_flag true e.patch_flags event_value id
  changed (event_signal (record e { value = value }))
patch_event id value _ = fail (refused id "node is not an event node")

-- The functions of src/core/patch.c that change one node, with their arguments.
pub data Request : Type 0 where
  grid : Option Dims → Request
  buffer : ℕ → Option ℕ → ℕ → Request
  scalar : ℕ → Option (List ℕ) → ℕ → Request
  copy_node : Option CopyDesc → Request
  fill_node : Option FillDesc → Request
  event : ℕ → Request

unfoldable pub patch_of : Option ℕ → ℕ → Request → NodePatch
patch_of device id (grid g) = patch_grid id g
patch_of device id (buffer index p offset) = patch_buffer device id index p offset
patch_of device id (scalar index value byte_count) = patch_scalar id index value byte_count
patch_of device id (copy_node desc) = patch_copy id desc
patch_of device id (fill_node desc) = patch_fill id desc
patch_of device id (event value) = patch_event id value

-- mgGraphExecPatchDispatchGrid, -DispatchBuffer, -DispatchScalar, -CopyNode, -FillNode, -EventValue.
unfoldable pub patch : ℕ → Request → M ExecState (Unit {0})
patch id request s = when_ready (with_node id (patch_of s.exec.device_impl id request)) s

abbrev pub put_flags : ℕ → M ExecState (Unit {0})
put_flags flags s = (
  done tt,
  record s { exec = record s.exec { icb = record s.exec.icb { enabled_flags = flags } } },
)

-- mgGraphExecSetOptimizationFlags.
unfoldable pub set_optimization_flags : ℕ → M ExecState (Unit {0})
set_optimization_flags flags = when_ready (
    require (only_flags flags optimization_icb)
      (refused node_id_invalid "optimization flags are invalid")
    >> put_flags flags)

-- mg_graph_exec_diagnostics_t, of 32 bytes.
pub record Diagnostics : Type 0 where
  pub size : ℕ
  pub icb_available : ℕ
  pub icb_enabled : ℕ
  pub icb_groups_planned : ℕ
  pub icb_groups_used : ℕ
  pub icb_groups_fallback : ℕ
  pub icb_last_fallback_reason : ℕ

-- mgGraphExecGetDiagnostics; the argument is the `size` in the caller's structure, if there is one.
unfoldable pub get_diagnostics : Option ℕ → Exec → Outcome Diagnostics
get_diagnostics none exec = failed (refused node_id_invalid "exec and diagnostics are required")
get_diagnostics (some size) exec =
    if ltb size 32
    then failed (refused node_id_invalid "exec and diagnostics are required")
    else done (record {
      size = 32;
      icb_available = exec.icb.available;
      icb_enabled = if has_flag exec.icb.enabled_flags optimization_icb then 1 else 0;
      icb_groups_planned = exec.icb.groups_planned;
      icb_groups_used = exec.icb.groups_used;
      icb_groups_fallback = exec.icb.groups_fallback;
      icb_last_fallback_reason = exec.icb.last_fallback_reason;
    })
