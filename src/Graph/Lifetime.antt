-- ===== src/Graph/Lifetime.antt =====
-- src/core/graph.c: the creation and the destruction of a graph, and the setters on it.
pub mod Laws
pub mod Releases
pub mod Flags
use metal_graph.Base.{
  ℕ, Bool, true, false, not, ◌&&◌, ◌||◌, ◌==◌, if◌then◌else◌, Option, none, some, List, [], ◌∷◌,
  ◌++◌, get_elem?, set, String, bit_or,
}
use metal_graph.Types.{Stage, Status}
use metal_graph.Outcome.{Outcome, done, failed, fault, Failure, M, ◌>>=◌, ◌>>◌, oom_at, invalid_at}
use metal_graph.Heap.{Heap, malloc, buffer_release, event_release, arena_retain, arena_release}
use metal_graph.Node.{
  BufferBinding, Tensor, Payload, Node, DispatchNode, ResourceDesc, dispatch, copy, fill,
  event_wait, event_signal, barrier, mpsgraph, workspace, workspace_fill,
}
use metal_graph.Range.{find_resource}
use metal_graph.Flags.{
  dispatch_grid, dispatch_buffer, dispatch_scalar, copy_buffer, copy_range, fill_buffer, fill_range,
  fill_value, event_value, has_flag, only_flags,
}
use metal_graph.Graph.{Graph, State, NodeRef, invalid, touch, is_given}
use metal_graph.Graph.Edges.{belongs, node_at}

abbrev pub and_then : Option Heap → (Heap → Option Heap) → Option Heap
and_then none f = none
and_then (some h) f = f h

-- The loop of mg_dispatch_node_clear over the buffers. The rest of that function frees memory.
unfoldable pub release_bindings : List BufferBinding → Heap → Option Heap
release_bindings [] h = some h
release_bindings (b ∷ bs) h = and_then (buffer_release b.buffer h) (release_bindings bs)

-- mg_mpsgraph_tensor_array_clear.
unfoldable pub release_tensors : List Tensor → Heap → Option Heap
release_tensors [] h = some h
release_tensors (t ∷ ts) h = and_then (buffer_release t.buffer h) (release_tensors ts)

-- mg_node_clear, of a node that goes away with it.
unfoldable pub node_clear : Payload → Heap → Option Heap
node_clear (dispatch d) h = release_bindings d.buffers h
node_clear (copy c) h = and_then (buffer_release c.src h) (buffer_release c.dst)
node_clear (fill f) h = buffer_release f.dst h
node_clear (event_wait e) h = event_release e.event h
node_clear (event_signal e) h = event_release e.event h
node_clear barrier h = some h
node_clear (mpsgraph m) h = and_then (release_tensors m.feeds h) (release_tensors m.targets)
node_clear (workspace w) h = some h
node_clear (workspace_fill w) h = buffer_release w.dst h

-- The loop of mgGraphDestroy.
unfoldable pub clear_nodes : List Node → Heap → Option Heap
clear_nodes [] h = some h
clear_nodes (n ∷ ns) h = and_then (node_clear n.payload h) (clear_nodes ns)

-- mgGraphDestroy.
unfoldable pub graph_destroy : Graph → Heap → Option Heap
graph_destroy g h = and_then (clear_nodes g.nodes h) (arena_release g.arena)

abbrev pub empty_graph : ℕ → Graph
empty_graph p = record {
  address = p;
  nodes = [];
  node_capacity = 0;
  edges = [];
  edge_capacity = 0;
  arena = none;
}

-- mgGraphCreate.
unfoldable pub graph_create : Bool → M Heap Graph
unfolding malloc
graph_create out_graph h =
    let (answer, g) = malloc h in
    if out_graph
    then elim answer [
      | none ↦ (failed (oom_at Stage.create), g)
      | some p ↦ (done (empty_graph p), g)
    ]
    else (failed (invalid "out_graph is required"), h)

unfoldable pub same_pointer : Option ℕ → Option ℕ → Bool
same_pointer none none = true
same_pointer (some p) (some q) = p == q
same_pointer _ _ = false

abbrev pub put_arena : ℕ → M State (Unit {0})
put_arena p s = (done tt, record s { graph = record s.graph { arena = some p } })

-- The steps of mgGraphSetArena that replace the arena.
unfoldable pub replace_arena : ℕ → Option ℕ → M State (Unit {0})
replace_arena p old = do touch (arena_retain (some p)); touch (arena_release old); put_arena p

-- mgGraphSetArena.
unfoldable pub set_arena : Option ℕ → M State (Unit {0})
set_arena none s = (failed (invalid "graph and arena are required"), s)
set_arena (some p) s =
    if same_pointer s.graph.arena (some p) then (done tt, s) else replace_arena p s.graph.arena s

-- mg_patch_flags_allowed; `allowed_flags` is its switch.
unfoldable pub allowed_flags : Payload → ℕ
allowed_flags (dispatch d) = bit_or (bit_or dispatch_grid dispatch_buffer) dispatch_scalar
allowed_flags (copy c) = bit_or copy_buffer copy_range
allowed_flags (fill f) = bit_or (bit_or fill_buffer fill_range) fill_value
allowed_flags (event_wait e) = event_value
allowed_flags (event_signal e) = event_value
allowed_flags _ = 0

unfoldable pub patch_flags_allowed : Payload → ℕ → Bool
patch_flags_allowed p flags = only_flags flags (allowed_flags p)

abbrev pub has_range : Option ResourceDesc → Bool
has_range none = false
has_range (some r) = not (r.byte_count == 0)

-- mg_dispatch_all_bindings_have_range_requirements.
unfoldable pub all_bindings_have_range : List BufferBinding → List ResourceDesc → Bool
all_bindings_have_range [] resources = true
all_bindings_have_range (b ∷ bs) resources =
    has_range (find_resource b.index resources) && all_bindings_have_range bs resources

-- The test of mgGraphSetNodePatchFlags that concerns dispatch nodes only.
unfoldable pub ranges_missing : Payload → ℕ → Bool
ranges_missing (dispatch d) flags =
    has_flag flags dispatch_buffer && not (all_bindings_have_range d.buffers d.resources)
ranges_missing _ flags = false

abbrev pub with_flags : Node → ℕ → Node
with_flags n flags = record n { patch_flags = flags }

-- mgGraphSetNodePatchFlags, for a node of the graph.
unfoldable pub flag_node : ℕ → Option Node → ℕ → M State (Unit {0})
flag_node i none flags s = (fault, s)
flag_node i (some n) flags s =
    if not (patch_flags_allowed n.payload flags)
    then (failed (invalid_at Stage.create n.id "patch flags are not compatible with node kind"), s)
    else if ranges_missing n.payload flags
    then (
      failed (
          invalid_at Stage.create n.id
            "patchable dispatch buffers require resource range descriptors"),
      s,
    )
    else (
      done tt,
      record s { graph = record s.graph { nodes = set s.graph.nodes i (with_flags n flags) } },
    )

abbrev pub ref_index : Option NodeRef → ℕ
ref_index none = 0
ref_index (some r) = r.index

-- mgGraphSetNodePatchFlags.
unfoldable pub set_node_patch_flags : Option NodeRef → ℕ → M State (Unit {0})
set_node_patch_flags node flags s =
    if belongs node s.graph
    then flag_node (ref_index node) (node_at node s.graph) flags s
    else (failed (invalid "node must belong to graph"), s)
