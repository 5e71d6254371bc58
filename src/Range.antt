-- ===== src/Range.antt =====
-- src/core/graph.c: the range, resource and shape tests that graph construction and patching share.
pub mod Laws
pub mod Resources
use metal_graph.Base.{
  ℕ, ◌+◌, ◌-◌, ◌*◌, ◌/◌, ◌%◌, Bool, true, false, not, ◌&&◌, ◌||◌, ◌==◌, ltb, leb, if◌then◌else◌,
  Option, none, some, List, [], ◌∷◌, word64,
}
use metal_graph.Types.{Access}
use metal_graph.Node.{Dims, BufferBinding, ResourceDesc, Array, null, items}
use metal_graph.Align.{alignment_valid}

-- mg_dims_valid, and mg_patch_dims_valid of src/core/patch.c.
unfoldable pub dims_valid : Dims → Bool
dims_valid d = ltb 0 d.x && (ltb 0 d.y && ltb 0 d.z)

-- mg_range_valid, and mg_patch_range_valid of src/core/patch.c.
unfoldable pub range_valid : ℕ → ℕ → ℕ → Bool
range_valid length offset byte_count =
    ltb 0 byte_count && (leb offset length && leb byte_count (length - offset))

-- mg_dispatch_find_buffer_binding.
unfoldable pub find_buffer_binding : ℕ → List BufferBinding → Option BufferBinding
find_buffer_binding index [] = none
find_buffer_binding index (b ∷ bs) =
    if b.index == index then some b else find_buffer_binding index bs

-- mg_dispatch_find_resource.
unfoldable pub find_resource : ℕ → List ResourceDesc → Option ResourceDesc
find_resource index [] = none
find_resource index (r ∷ rs) = if r.index == index then some r else find_resource index rs

-- mg_dispatch_resource_range_valid.
unfoldable pub resource_range_valid : Option ResourceDesc → ℕ → ℕ → Bool
unfolding range_valid
resource_range_valid none buffer_length binding_offset = leb binding_offset buffer_length
resource_range_valid (some r) buffer_length binding_offset =
    let absolute_offset = (binding_offset + r.byte_offset) % word64 in
    if ltb (word64 - 1 - binding_offset) r.byte_offset
    then false
    else if r.byte_count == 0
    then leb absolute_offset buffer_length
    else range_valid buffer_length absolute_offset r.byte_count

-- The `alignment ? alignment : 1` of the resource descriptors.
abbrev pub alignment_or_one : ℕ → ℕ
alignment_or_one a = if a == 0 then 1 else a

-- mg_dispatch_resource_offset_aligned.
unfoldable pub resource_offset_aligned : Option ResourceDesc → ℕ → Bool
resource_offset_aligned none binding_offset = true
resource_offset_aligned (some r) binding_offset =
    if ltb (word64 - 1 - binding_offset) r.byte_offset
    then false
    else (binding_offset + r.byte_offset) % word64 % alignment_or_one r.alignment == 0

-- mg_resource_access_valid.
unfoldable pub resource_access_valid : Access → Bool
resource_access_valid Access.unknown = true
resource_access_valid Access.read = true
resource_access_valid Access.write = true
resource_access_valid Access.read_write = true
resource_access_valid Access.invalid = false

-- mg_tensor_data_type_size: MG_TENSOR_DATA_TYPE_FLOAT32 is 1.
unfoldable pub tensor_data_type_size : ℕ → ℕ
tensor_data_type_size data_type = if data_type == 1 then 4 else 0

-- mg_tensor_layout_valid: MG_TENSOR_LAYOUT_CONTIGUOUS is 1.
unfoldable pub tensor_layout_valid : ℕ → Bool
tensor_layout_valid layout = layout == 1

-- The loop of mg_shape_byte_count.
unfoldable pub shape_elements : ℕ → List ℕ → Option ℕ
shape_elements elements [] = some elements
shape_elements elements (n ∷ shape) =
    let rest = shape_elements (elements * n % word64) shape in
    if n == 0 || ltb ((word64 - 1) / n) elements then none else rest

-- The end of mg_shape_byte_count, from the number of elements.
unfoldable pub scale_elements : ℕ → Option ℕ → Option ℕ
scale_elements element_size none = none
scale_elements element_size (some elements) =
    if ltb ((word64 - 1) / element_size) elements
    then none
    else some (elements * element_size % word64)

-- mg_shape_byte_count; `none` is the result `false`.
unfoldable pub shape_byte_count : Array ℕ → ℕ → Option ℕ
shape_byte_count (null rank) element_size = none
shape_byte_count (items []) element_size = none
shape_byte_count (items (n ∷ shape)) element_size =
    if element_size == 0 then none else scale_elements element_size (shape_elements 1 (n ∷ shape))
