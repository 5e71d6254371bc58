-- ===== src/Node.antt =====
-- The nodes of src/core/internal.h and the descriptors of include/metal_graph/metal_graph.h. A pointer
-- is `Option ℕ`, NULL or an address; the strings and scalar bytes that a node owns are copies.
use metal_graph.Base.{ℕ, Option, none, some, List, [], ◌∷◌, ◌++◌, String, length, Bool, true, false}
use metal_graph.Types.{Access}
use metal_graph.Heap.Refs.{Ref, buffer, event}

-- An array argument with its count. A pointer that is not NULL points to as many items as the count
-- says, which is what the C functions rely on.
pub data Array {ℓ} (A : Type ℓ) : Type ℓ where
  null : ℕ → Array A
  items : List A → Array A

abbrev pub array_count {ℓ} : {A : Type ℓ} → Array A → ℕ
array_count (null n) = n
array_count (items xs) = length xs

abbrev pub array_items {ℓ} : {A : Type ℓ} → Array A → List A
array_items (null n) = []
array_items (items xs) = xs

abbrev pub array_null {ℓ} : {A : Type ℓ} → Array A → Bool
array_null (null n) = true
array_null (items xs) = false

-- `uint32_t dims[3]`.
pub record Dims : Type 0 where
  pub x : ℕ
  pub y : ℕ
  pub z : ℕ

-- mg_buffer_binding_t.
pub record BufferBinding : Type 0 where
  pub index : ℕ
  pub buffer : Option ℕ
  pub offset : ℕ

-- mg_scalar_binding_t: `bytes` is what `data` points to.
pub record ScalarBinding : Type 0 where
  pub index : ℕ
  pub bytes : Option (List ℕ)
  pub byte_count : ℕ

-- mg_dispatch_resource_desc_t.
pub record ResourceDesc : Type 0 where
  pub size : ℕ
  pub index : ℕ
  pub access : Access
  pub byte_offset : ℕ
  pub byte_count : ℕ
  pub alignment : ℕ

-- mg_dispatch_desc_t.
pub record DispatchDesc : Type 0 where
  pub size : ℕ
  pub metallib_path : Option String
  pub kernel_name : Option String
  pub grid_size : Dims
  pub threads_per_threadgroup : Dims
  pub buffers : Array BufferBinding
  pub scalars : Array ScalarBinding
  pub max_grid_size : Dims
  pub resources : Array ResourceDesc

-- mg_copy_desc_t.
pub record CopyDesc : Type 0 where
  pub size : ℕ
  pub src : Option ℕ
  pub src_offset : ℕ
  pub dst : Option ℕ
  pub dst_offset : ℕ
  pub byte_count : ℕ

-- mg_fill_desc_t.
pub record FillDesc : Type 0 where
  pub size : ℕ
  pub dst : Option ℕ
  pub dst_offset : ℕ
  pub byte_count : ℕ
  pub value : ℕ

-- mg_mpsgraph_tensor_desc_t; `rank` is the count of `shape`.
pub record TensorDesc : Type 0 where
  pub size : ℕ
  pub buffer : Option ℕ
  pub byte_offset : ℕ
  pub byte_count : ℕ
  pub data_type : ℕ
  pub layout : ℕ
  pub shape : Array ℕ

-- mg_mpsgraph_desc_t.
pub record MpsGraphDesc : Type 0 where
  pub size : ℕ
  pub package_path : Option String
  pub feeds : Array TensorDesc
  pub targets : Array TensorDesc

-- mg_workspace_desc_t.
pub record WorkspaceDesc : Type 0 where
  pub size : ℕ
  pub byte_count : ℕ
  pub alignment : ℕ

-- mg_dispatch_node_t.
pub record DispatchNode : Type 0 where
  pub metallib_path : String
  pub kernel_name : String
  pub grid_size : Dims
  pub threads_per_threadgroup : Dims
  pub max_grid_size : Dims
  pub buffers : List BufferBinding
  pub scalars : List ScalarBinding
  pub resources : List ResourceDesc

-- mg_copy_node_t.
pub record CopyNode : Type 0 where
  pub src : Option ℕ
  pub src_offset : ℕ
  pub dst : Option ℕ
  pub dst_offset : ℕ
  pub byte_count : ℕ

-- mg_fill_node_t.
pub record FillNode : Type 0 where
  pub dst : Option ℕ
  pub dst_offset : ℕ
  pub byte_count : ℕ
  pub value : ℕ

-- mg_event_node_t.
pub record EventNode : Type 0 where
  pub event : Option ℕ
  pub value : ℕ

-- mg_mpsgraph_tensor_t; `rank` is the length of `shape`.
pub record Tensor : Type 0 where
  pub buffer : Option ℕ
  pub byte_offset : ℕ
  pub byte_count : ℕ
  pub data_type : ℕ
  pub layout : ℕ
  pub shape : List ℕ

-- mg_mpsgraph_node_t.
pub record MpsGraphNode : Type 0 where
  pub package_path : String
  pub feeds : List Tensor
  pub targets : List Tensor

-- mg_workspace_node_t.
pub record WorkspaceNode : Type 0 where
  pub size : ℕ
  pub alignment : ℕ

-- mg_internal_workspace_fill_node_t.
pub record WorkspaceFillNode : Type 0 where
  pub size : ℕ
  pub alignment : ℕ
  pub value : ℕ
  pub dst : Option ℕ
  pub dst_offset : ℕ

-- mg_node_kind_t and the internal kinds, with the member of the union that the kind selects.
pub data Payload : Type 0 where
  dispatch : DispatchNode → Payload
  copy : CopyNode → Payload
  fill : FillNode → Payload
  event_wait event_signal : EventNode → Payload
  barrier : Payload
  mpsgraph : MpsGraphNode → Payload
  workspace : WorkspaceNode → Payload
  workspace_fill : WorkspaceFillNode → Payload

-- mg_node. `graph` is the address of the owner.
pub record Node : Type 0 where
  pub graph : ℕ
  pub id : ℕ
  pub index : ℕ
  pub patch_flags : ℕ
  pub payload : Payload

-- mg_edge_t.
pub record Edge : Type 0 where
  pub before : ℕ
  pub after : ℕ

-- What a pointer refers to.
abbrev pub buffer_refs : Option ℕ → List Ref
buffer_refs none = []
buffer_refs (some p) = buffer p ∷ []

abbrev pub event_refs : Option ℕ → List Ref
event_refs none = []
event_refs (some p) = event p ∷ []

abbrev pub binding_refs : List BufferBinding → List Ref
binding_refs [] = []
binding_refs (b ∷ bs) = buffer_refs b.buffer ++ binding_refs bs

abbrev pub tensor_refs : List Tensor → List Ref
tensor_refs [] = []
tensor_refs (t ∷ ts) = buffer_refs t.buffer ++ tensor_refs ts

-- The references that a node holds.
abbrev pub payload_refs : Payload → List Ref
payload_refs (dispatch d) = binding_refs d.buffers
payload_refs (copy c) = buffer_refs c.src ++ buffer_refs c.dst
payload_refs (fill f) = buffer_refs f.dst
payload_refs (event_wait e) = event_refs e.event
payload_refs (event_signal e) = event_refs e.event
payload_refs barrier = []
payload_refs (mpsgraph m) = tensor_refs m.feeds ++ tensor_refs m.targets
payload_refs (workspace w) = []
payload_refs (workspace_fill w) = buffer_refs w.dst
