-- ===== src/Tests.antt =====
-- Sample heaps and graphs, and the theorems of the library applied to them.
mod Sorting
mod Planning
mod Ranges
mod Nodes
mod Reporting
mod Patching
mod Building
mod Memory
mod Handles
mod Launching
use metal_graph.Base.{
  ℕ, ◌+◌, ◌<◌, Bool, ◌==◌, if◌then◌else◌, Option, none, some, List, [], ◌∷◌, arith,
}
use metal_graph.Types.{OriginKind}
use metal_graph.Heap.{Heap, Buffer, Event, Arena, buffer_counted, event_counted, arena_counted}
use metal_graph.Node.{Node, Payload}
use metal_graph.Graph.{Graph, State}

-- A buffer of 64 bytes with two references.
abbrev pub small_buffer : Buffer
small_buffer = record {
  device_impl = some 7;
  length = 64;
  byte_offset = 0;
  origin_kind = OriginKind.library_owned;
  is_zero_copy = 0;
  is_external = 0;
  is_host_visible = 1;
  is_mutable = 1;
  source_framework = none;
  fallback_reason = none;
  owner_context = none;
  owner_release = none;
  ref_count = 2;
}

abbrev pub small_event : Event
small_event = record { impl = 9; ref_count = 1 }

abbrev pub small_arena : Arena
small_arena = record { size = 4096; alignment = 256; ref_count = 1 }

-- The buffer is at 100, the event at 200, the arena at 300; `malloc` always succeeds.
abbrev pub small_heap : Heap
small_heap = record {
  buffers = λ p. if p == 100 then some small_buffer else none;
  events = λ p. if p == 200 then some small_event else none;
  arenas = λ p. if p == 300 then some small_arena else none;
  answers = λ n. some (1000 + n);
  calls = 0;
  callbacks = [];
}

abbrev pub node_of : ℕ → Payload → Node
node_of i payload = record { graph = 1; id = i + 1; index = i; patch_flags = 0; payload = payload }

abbrev pub graph_of : List Node → Graph
graph_of nodes = record {
  address = 1;
  nodes = nodes;
  node_capacity = 4;
  edges = [];
  edge_capacity = 0;
  arena = some 300;
}

abbrev pub small_state : State
small_state = record { heap = small_heap; graph = graph_of [] }
