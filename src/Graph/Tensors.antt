-- ===== src/Graph/Tensors.antt =====
-- src/core/graph.c: mgGraphAddMPSGraphNode and the tensors of its nodes.
pub mod Laws
pub mod Node
use metal_graph.Base.{
  ℕ, Bool, true, false, not, ◌&&◌, ◌==◌, leb, if◌then◌else◌, Option, none, some, List, [], ◌∷◌,
  ◌++◌, String, map,
}
use metal_graph.Outcome.{
  Outcome, done, failed, fault, Failure, M, pure, after, ◌>>=◌, ◌>>◌, require,
}
use metal_graph.Heap.{Heap, Buffer, buffer_retain}
use metal_graph.Node.{
  Array, array_count, array_items, array_null, TensorDesc, Tensor, MpsGraphDesc, Payload, mpsgraph,
}
use metal_graph.Range.{range_valid, shape_byte_count, tensor_data_type_size, tensor_layout_valid}
use metal_graph.Graph.{
  State, NodeRef, invalid, touch, check, given, allocate, on_failure, alloc_node, commit_node,
  is_given,
}
use metal_graph.Graph.Lifetime.{release_tensors}
use metal_graph.Graph.Dispatch.{text_of}

-- The `sizeof` of the descriptors.
abbrev pub tensor_desc_size : ℕ
tensor_desc_size = 56

abbrev pub mpsgraph_desc_size : ℕ
mpsgraph_desc_size = 48

-- The bytes that the shape and the data type need.
unfoldable pub tensor_bytes : TensorDesc → Option ℕ
tensor_bytes t = shape_byte_count t.shape (tensor_data_type_size t.data_type)

abbrev pub value_or_zero : Option ℕ → ℕ
value_or_zero none = 0
value_or_zero (some n) = n

unfoldable pub tensor_byte_count : TensorDesc → ℕ
tensor_byte_count t = if t.byte_count == 0 then value_or_zero (tensor_bytes t) else t.byte_count

unfoldable pub tensor_complete : TensorDesc → Bool
tensor_complete t =
    leb tensor_desc_size t.size
    && (is_given t.buffer
        && (not (array_null t.shape)
            && (not (array_count t.shape == 0) && tensor_layout_valid t.layout)))

abbrev pub in_buffer : TensorDesc → Option Buffer → Outcome Bool
in_buffer t none = fault
in_buffer t (some b) = done (
    leb (value_or_zero (tensor_bytes t)) (tensor_byte_count t)
    && (t.byte_offset == 0
        && (b.byte_offset == 0 && range_valid b.length t.byte_offset (tensor_byte_count t))))

abbrev pub in_heap : TensorDesc → Option ℕ → Heap → Outcome Bool
in_heap t none h = fault
in_heap t (some p) h = in_buffer t (h.buffers p)

-- The last test of mg_validate_mpsgraph_tensor_desc.
unfoldable pub tensor_fits : TensorDesc → Heap → Outcome Bool
tensor_fits t h = in_heap t t.buffer h

-- mg_validate_mpsgraph_tensor_desc.
unfoldable pub check_tensor : TensorDesc → M State (Unit {0})
check_tensor t = do
  require (tensor_complete t) (invalid "MPSGraph tensor descriptor is invalid")
  require (is_given (tensor_bytes t)) (invalid "MPSGraph tensor shape or dtype is invalid")
  check (tensor_fits t) (invalid "MPSGraph tensor buffer range is invalid")

unfoldable pub check_tensors : List TensorDesc → M State (Unit {0})
check_tensors [] = pure tt
check_tensors (t ∷ ts) = check_tensor t >> check_tensors ts

-- What mg_mpsgraph_tensor_clone writes.
abbrev pub tensor_of : TensorDesc → Tensor
tensor_of t = record {
  buffer = t.buffer;
  byte_offset = t.byte_offset;
  byte_count = tensor_byte_count t;
  data_type = t.data_type;
  layout = t.layout;
  shape = array_items t.shape;
}

-- mg_mpsgraph_tensor_clone.
unfoldable pub clone_tensor : TensorDesc → M State (Unit {0})
clone_tensor t = do
  require (is_given (tensor_bytes t)) (invalid "MPSGraph tensor shape or dtype is invalid")
  allocate
  touch (buffer_retain t.buffer)

-- The loop of mg_mpsgraph_tensor_array_clone; `cloned` are the tensors so far, which are cleared where
-- the next one fails.
unfoldable pub clone_each : List Tensor → List TensorDesc → M State (Unit {0})
clone_each cloned [] = pure tt
clone_each cloned (t ∷ ts) =
    on_failure (clone_tensor t) (touch (release_tensors cloned))
    >> clone_each (cloned ++ tensor_of t ∷ []) ts

-- mg_mpsgraph_tensor_array_clone.
unfoldable pub clone_array : List TensorDesc → M State (Unit {0})
clone_array [] = pure tt
clone_array (t ∷ ts) = allocate >> clone_each [] (t ∷ ts)

-- The tests on the descriptor itself.
unfoldable pub mpsgraph_complete : MpsGraphDesc → Bool
mpsgraph_complete d =
    leb mpsgraph_desc_size d.size
    && (is_given d.package_path
        && (not (array_null d.feeds)
            && (not (array_count d.feeds == 0)
                && (not (array_null d.targets) && not (array_count d.targets == 0)))))

abbrev pub tensors_of : Array TensorDesc → List Tensor
tensors_of a = map tensor_of (array_items a)

abbrev pub mpsgraph_of : MpsGraphDesc → Payload
mpsgraph_of d = mpsgraph (record {
  package_path = text_of d.package_path;
  feeds = tensors_of d.feeds;
  targets = tensors_of d.targets;
})

-- The copies of the tensors: where those of the targets fail, mg_node_clear clears the feeds.
unfoldable pub clone_parts : MpsGraphDesc → M State (Unit {0})
clone_parts d =
    clone_array (array_items d.feeds)
    >> on_failure (clone_array (array_items d.targets))
        (touch (release_tensors (tensors_of d.feeds)))

-- mgGraphAddMPSGraphNode, for a descriptor. The allocation is the copy of the path.
unfoldable pub add_mpsgraph : MpsGraphDesc → M State NodeRef
add_mpsgraph d = do
  require (mpsgraph_complete d) (invalid "MPSGraph descriptor is incomplete")
  check_tensors (array_items d.feeds)
  check_tensors (array_items d.targets)
  node ← alloc_node (mpsgraph_of d)
  allocate
  clone_parts d
  commit_node node

-- mgGraphAddMPSGraphNode.
unfoldable pub add_mpsgraph_node : Option MpsGraphDesc → Bool → M State NodeRef
add_mpsgraph_node desc out_node = do
  d ← given desc (invalid "graph, desc, and out_node are required")
  require out_node (invalid "graph, desc, and out_node are required")
  add_mpsgraph d
