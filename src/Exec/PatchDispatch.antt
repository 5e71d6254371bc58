-- ===== src/Exec/PatchDispatch.antt =====
-- The patches of a dispatch in src/core/patch.c: its grid, its scalars and its buffers.
use metal_graph.Base.{
  ℕ, Bool, true, false, not, ◌&&◌, ◌||◌, ◌==◌, leb, if◌then◌else◌, Option, none, some, List, [],
  ◌∷◌,
}
use metal_graph.Outcome.{Outcome, done, failed, fault, Failure, M, fail, ◌>>◌, require}
use metal_graph.Heap.{Heap, Buffer, buffer_retain, buffer_release}
use metal_graph.Node.{Dims, BufferBinding, ScalarBinding}
use metal_graph.Flags.{dispatch_grid, dispatch_buffer, dispatch_scalar, has_flag}
use metal_graph.Range.{dims_valid, find_resource, resource_range_valid, resource_offset_aligned}
use metal_graph.Graph.{is_given}
use metal_graph.Graph.Lifetime.{has_range}
use metal_graph.Exec.{ExecDispatch, ExecNode, NodePatch, refused, dispatch}

-- A change of the heap that faults on a dead object.
abbrev pub touched : Option Heap → Heap → Outcome (Unit {0}) × Heap
touched none h = (fault, h)
touched (some k) h = (done tt, k)

abbrev pub touch_heap : (Heap → Option Heap) → M Heap (Unit {0})
touch_heap f h = touched (f h) h

abbrev pub tested : Outcome Bool → Failure → M Heap (Unit {0})
tested (done b) e h = require b e h
tested (failed f) e h = (failed f, h)
tested fault e h = (fault, h)

-- A test that reads the heap.
abbrev pub check_heap : (Heap → Outcome Bool) → Failure → M Heap (Unit {0})
check_heap test e h = tested (test h) e h

-- The result: the changed node.
abbrev pub changed : ExecNode → M Heap ExecNode
changed n h = (done n, h)

-- mg_patch_require_flag, called if `changes`.
unfoldable pub require_flag : Bool → ℕ → ℕ → ℕ → M Heap (Unit {0})
require_flag changes flags required id =
    require (not changes || has_flag flags required) (refused id "field is not declared patchable")

-- The tests on a grid size against the declared maximum.
unfoldable pub grid_within : Dims → Dims → Bool
grid_within g m = leb g.x m.x && (leb g.y m.y && leb g.z m.z)

unfoldable pub grid_valid : Option Dims → Bool
grid_valid none = false
grid_valid (some g) = dims_valid g

abbrev pub grid_or : Option Dims → Dims → Dims
grid_or none d = d
grid_or (some g) d = g

-- mgGraphExecPatchDispatchGrid, on the node.
unfoldable pub patch_grid : ℕ → Option Dims → NodePatch
patch_grid id grid (dispatch d) = do
  require_flag true d.patch_flags dispatch_grid id
  require (grid_valid grid) (refused id "dispatch grid size is invalid")
  require (grid_within (grid_or grid d.grid_size) d.max_grid_size)
      (refused id "dispatch grid exceeds declared maximum")
  changed (dispatch (record d { grid_size = grid_or grid d.grid_size }))
patch_grid id grid _ = fail (refused id "node is not a dispatch node")

-- The scalars with the bytes of the first one of that index replaced, if there is one of that size.
unfoldable pub rescale : ℕ → ℕ → List ℕ → ℕ → List ScalarBinding → Outcome (List ScalarBinding)
rescale id index bytes byte_count [] =
    failed (refused id "dispatch scalar binding index is not present")
rescale id index bytes byte_count (s ∷ ss) =
    let rest = rescale id index bytes byte_count ss in
    if s.index == index
    then if s.byte_count == byte_count
      then done (record s { bytes = some bytes } ∷ ss)
      else failed (refused id "dispatch scalar size is incompatible")
    else elim rest [ done ts ↦ done (s ∷ ts) | failed e ↦ failed e | fault ↦ fault ]

abbrev pub rescaled : ExecDispatch → Outcome (List ScalarBinding) → M Heap ExecNode
rescaled d (done ss) h = (done (dispatch (record d { scalars = ss })), h)
rescaled d (failed e) h = (failed e, h)
rescaled d fault h = (fault, h)

abbrev pub bytes_or_none : Option (List ℕ) → List ℕ
bytes_or_none none = []
bytes_or_none (some bs) = bs

-- mgGraphExecPatchDispatchScalar, on the node.
unfoldable pub patch_scalar : ℕ → ℕ → Option (List ℕ) → ℕ → NodePatch
patch_scalar id index value byte_count (dispatch d) = do
  require_flag true d.patch_flags dispatch_scalar id
  require (is_given value && not (byte_count == 0)) (refused id "dispatch scalar patch is invalid")
  rescaled d (rescale id index (bytes_or_none value) byte_count d.scalars)
patch_scalar id index value byte_count _ = fail (refused id "node is not a dispatch node")

-- The first binding of the index, and the bindings with its buffer and offset replaced.
pub record Rebound : Type 0 where
  pub old : Option ℕ
  pub bindings : List BufferBinding

abbrev pub keep_first : BufferBinding → Option Rebound → Option Rebound
keep_first b none = none
keep_first b (some r) = some (record { old = r.old; bindings = b ∷ r.bindings })

unfoldable pub rebind : ℕ → Option ℕ → ℕ → List BufferBinding → Option Rebound
rebind index p offset [] = none
rebind index p offset (b ∷ bs) =
    let rest = keep_first b (rebind index p offset bs) in
    if b.index == index
    then some (record { old = b.buffer; bindings = record b { buffer = p; offset = offset } ∷ bs })
    else rest

-- `a && b && a != b` on the implementations of devices.
unfoldable pub other_device : Option ℕ → Option ℕ → Bool
other_device (some a) (some b) = not (a == b)
other_device _ _ = false

-- The body of the loop for the binding that was found.
unfoldable pub swap_buffer :
    ℕ → ExecDispatch → ℕ → Option ℕ → ℕ → ℕ → Option Rebound → M Heap ExecNode
swap_buffer id d index p length offset none h =
    (failed (refused id "dispatch buffer binding index is not present"), h)
swap_buffer id d index p length offset (some r) h =
    (do
      require (has_range (find_resource index d.resources))
          (refused id "dispatch buffer patch requires a declared resource range")
      require
          (resource_offset_aligned (find_resource index d.resources) offset
            && resource_range_valid (find_resource index d.resources) length offset)
          (refused id "dispatch buffer patch range is incompatible")
      touch_heap (buffer_retain p)
      touch_heap (buffer_release r.old)
      changed (dispatch (record d { buffers = r.bindings })))
      h

-- The tests on the new buffer, which is at `p`.
unfoldable pub patch_to : Option ℕ → ℕ → ExecDispatch → ℕ → ℕ → ℕ → Option Buffer → M Heap ExecNode
patch_to device id d index p offset none h = (fault, h)
patch_to device id d index p offset (some b) h =
    (do
      require (leb offset b.length) (refused id "dispatch buffer patch is invalid")
      require (not (other_device device b.device_impl))
          (refused id "dispatch buffer belongs to a different device")
      swap_buffer id d index (some p) b.length offset (rebind index (some p) offset d.buffers))
      h

unfoldable pub patch_given : Option ℕ → ℕ → ExecDispatch → ℕ → Option ℕ → ℕ → M Heap ExecNode
patch_given device id d index none offset h =
    (failed (refused id "dispatch buffer patch is invalid"), h)
patch_given device id d index (some p) offset h =
    patch_to device id d index p offset (h.buffers p) h

-- mgGraphExecPatchDispatchBuffer, on the node; `device` is the executable's.
unfoldable pub patch_buffer : Option ℕ → ℕ → ℕ → Option ℕ → ℕ → NodePatch
patch_buffer device id index p offset (dispatch d) = do
  require_flag true d.patch_flags dispatch_buffer id
  patch_given device id d index p offset
patch_buffer device id index p offset _ = fail (refused id "node is not a dispatch node")
