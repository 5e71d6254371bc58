-- ===== src/Graph/Dispatch.antt =====
-- src/core/graph.c: mgGraphAddDispatchNode.
pub mod Reads
pub mod Copies
pub mod Laws
use metal_graph.Base.{
  ℕ, Bool, true, false, not, ◌&&◌, ◌||◌, ◌==◌, ltb, leb, if◌then◌else◌, Option, none, some, List,
  [], ◌∷◌, ◌++◌, String, map,
}
use metal_graph.Types.{Stage}
use metal_graph.Outcome.{
  Outcome, done, failed, fault, Failure, M, pure, after, ◌>>=◌, ◌>>◌, require, oom_at,
}
use metal_graph.Heap.{Heap, malloc, buffer_retain}
use metal_graph.Align.{alignment_valid}
use metal_graph.Node.{
  Array, null, items, array_count, array_items, array_null, Dims, BufferBinding, ScalarBinding,
  ResourceDesc, DispatchDesc, Payload, dispatch,
}
use metal_graph.Range.{
  dims_valid, find_buffer_binding, resource_access_valid, resource_offset_aligned,
  resource_range_valid, alignment_or_one,
}
use metal_graph.Graph.{
  State, NodeRef, invalid, touch, check, given, allocate, on_failure, alloc_node, commit_node,
  with_length, and_also, is_given,
}
use metal_graph.Graph.Lifetime.{release_bindings}
use metal_graph.Exec.PatchDispatch.{grid_within}

-- The offsets of `scalars` and `resources` in mg_dispatch_desc_t, and its size.
abbrev pub offset_scalars : ℕ
offset_scalars = 64

abbrev pub offset_resources : ℕ
offset_resources = 88

abbrev pub dispatch_desc_size : ℕ
dispatch_desc_size = 104

-- The fields that a descriptor of the given size has.
unfoldable pub scalars_of : DispatchDesc → Array ScalarBinding
scalars_of d = if leb offset_resources d.size then d.scalars else null 0

unfoldable pub resources_of : DispatchDesc → Array ResourceDesc
resources_of d = if leb dispatch_desc_size d.size then d.resources else null 0

-- The maximum that the node gets: the grid size if none is declared.
unfoldable pub max_grid_of : DispatchDesc → Dims
max_grid_of d =
    if leb offset_resources d.size && dims_valid d.max_grid_size
    then d.max_grid_size
    else d.grid_size

abbrev pub text_of : Option String → String
text_of none = ""
text_of (some t) = t

abbrev pub own_resource : ResourceDesc → ResourceDesc
own_resource r = record r { alignment = alignment_or_one r.alignment }

-- The node of a descriptor.
abbrev pub dispatch_of : DispatchDesc → Payload
dispatch_of d = dispatch (record {
  metallib_path = text_of d.metallib_path;
  kernel_name = text_of d.kernel_name;
  grid_size = d.grid_size;
  threads_per_threadgroup = d.threads_per_threadgroup;
  max_grid_size = max_grid_of d;
  buffers = array_items d.buffers;
  scalars = array_items (scalars_of d);
  resources = map own_resource (array_items (resources_of d));
})

-- `count > 0 && !pointer`.
unfoldable pub is_missing {ℓ} : {A : Type ℓ} → Array A → Bool
is_missing a = ltb 0 (array_count a) && array_null a

-- The two calls of mg_strdup, and the test of their results.
unfoldable pub copy_strings : M State (Unit {0})
unfolding malloc
copy_strings s =
    let (a, h) = malloc s.heap in
    let (b, k) = malloc h in
    if is_given a && is_given b
    then (done tt, record s { heap = k })
    else (failed (oom_at Stage.create), record s { heap = k })

unfoldable pub has_index : ℕ → List BufferBinding → Bool
has_index index [] = false
has_index index (b ∷ bs) = index == b.index || has_index index bs

unfoldable pub binding_valid : BufferBinding → Heap → Outcome Bool
binding_valid b h =
    and_also (done (is_given b.buffer)) (with_length h b.buffer (λ n. done (leb b.offset n)))

-- The loop over the buffer bindings.
unfoldable pub check_bindings : List BufferBinding → M State (Unit {0})
check_bindings [] = pure tt
check_bindings (b ∷ bs) = do
  check (binding_valid b) (invalid "dispatch buffer binding is invalid")
  require (not (has_index b.index bs)) (invalid "duplicate dispatch buffer binding")
  check_bindings bs

unfoldable pub scalar_valid : ScalarBinding → Bool
scalar_valid s = is_given s.bytes && not (s.byte_count == 0)

-- The loop over the scalar bindings.
unfoldable pub check_scalars : List ScalarBinding → M State (Unit {0})
check_scalars [] = pure tt
check_scalars (s ∷ ss) = do
  require (scalar_valid s) (invalid "dispatch scalar binding is invalid")
  check_scalars ss

abbrev pub binding_buffer : Option BufferBinding → Option ℕ
binding_buffer none = none
binding_buffer (some b) = b.buffer

abbrev pub binding_offset : Option BufferBinding → ℕ
binding_offset none = 0
binding_offset (some b) = b.offset

unfoldable pub resource_fits : ResourceDesc → Option BufferBinding → Heap → Outcome Bool
resource_fits r b h = and_also (done (resource_offset_aligned (some r) (binding_offset b))) (
    with_length h (binding_buffer b)
      (λ n. done (resource_range_valid (some r) n (binding_offset b))))

unfoldable pub resource_valid : ResourceDesc → Bool
resource_valid r =
    leb 40 r.size
    && (resource_access_valid r.access && alignment_valid (alignment_or_one r.alignment))

-- mg_validate_dispatch_resource_desc.
unfoldable pub check_resource : List BufferBinding → ResourceDesc → M State (Unit {0})
check_resource bindings r = do
  require (resource_valid r) (invalid "dispatch resource descriptor is invalid")
  require (is_given (find_buffer_binding r.index bindings))
      (invalid "dispatch resource descriptor references a missing binding")
  check (resource_fits r (find_buffer_binding r.index bindings))
      (invalid "dispatch resource range is invalid")

unfoldable pub has_resource : ℕ → List ResourceDesc → Bool
has_resource index [] = false
has_resource index (r ∷ rs) = index == r.index || has_resource index rs

-- The loop of mg_validate_dispatch_resources.
unfoldable pub check_resources : List BufferBinding → List ResourceDesc → M State (Unit {0})
check_resources bindings [] = pure tt
check_resources bindings (r ∷ rs) = do
  require (not (has_resource r.index rs)) (invalid "duplicate dispatch resource descriptor")
  check_resource bindings r
  check_resources bindings rs

-- The loop that retains the buffers of the new node.
unfoldable pub retain_bindings : List BufferBinding → M State (Unit {0})
retain_bindings [] = pure tt
retain_bindings (b ∷ bs) = touch (buffer_retain b.buffer) >> retain_bindings bs

unfoldable pub copy_buffers : List BufferBinding → M State (Unit {0})
copy_buffers [] = pure tt
copy_buffers (b ∷ bs) = allocate >> retain_bindings (b ∷ bs)

-- The copies of the values of the scalars.
unfoldable pub copy_values : List ScalarBinding → M State (Unit {0})
copy_values [] = pure tt
copy_values (s ∷ ss) = allocate >> copy_values ss

unfoldable pub copy_scalars : List ScalarBinding → M State (Unit {0})
copy_scalars [] = pure tt
copy_scalars (s ∷ ss) = allocate >> copy_values (s ∷ ss)

unfoldable pub copy_resources : List ResourceDesc → M State (Unit {0})
copy_resources [] = pure tt
copy_resources (r ∷ rs) = allocate

-- The tests before the node is allocated.
unfoldable pub desc_complete : DispatchDesc → Bool
desc_complete d =
    is_given d.metallib_path
    && (is_given d.kernel_name && (dims_valid d.grid_size && dims_valid d.threads_per_threadgroup))

-- The tests on the arrays and the grid, after the node was allocated; where one fails the node, which
-- holds no reference yet, is freed.
unfoldable pub check_parts : DispatchDesc → M State (Unit {0})
check_parts d = do
  check_bindings (array_items d.buffers)
  require (not (is_missing (scalars_of d))) (invalid "dispatch scalar bindings are required")
  check_scalars (array_items (scalars_of d))
  require (not (is_missing (resources_of d))) (invalid "dispatch resource descriptors are required")
  check_resources (array_items d.buffers) (array_items (resources_of d))
  require (grid_within d.grid_size (max_grid_of d))
      (invalid "dispatch grid exceeds declared maximum")

-- The copies of the arrays. Where one of the later ones fails, mg_node_clear releases the buffers.
unfoldable pub copy_parts : DispatchDesc → M State (Unit {0})
copy_parts d =
    copy_buffers (array_items d.buffers)
    >> on_failure
        (copy_scalars (array_items (scalars_of d)) >> copy_resources (array_items (resources_of d)))
        (touch (release_bindings (array_items d.buffers)))

-- mgGraphAddDispatchNode, for a descriptor.
unfoldable pub add_dispatch : DispatchDesc → M State NodeRef
add_dispatch d = do
  require (leb offset_scalars d.size) (invalid "dispatch descriptor size is invalid")
  require (desc_complete d) (invalid "dispatch descriptor is incomplete")
  require (not (is_missing d.buffers)) (invalid "dispatch buffer bindings are required")
  node ← alloc_node (dispatch_of d)
  copy_strings
  check_parts d
  copy_parts d
  commit_node node

-- mgGraphAddDispatchNode.
unfoldable pub add_dispatch_node : Option DispatchDesc → Bool → M State NodeRef
add_dispatch_node desc out_node = do
  d ← given desc (invalid "graph, desc, and out_node are required")
  require out_node (invalid "graph, desc, and out_node are required")
  add_dispatch d
