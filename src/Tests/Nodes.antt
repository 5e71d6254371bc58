-- ===== src/Tests/Nodes.antt =====
-- The node constructors, on an empty graph with room for four nodes.
use metal_graph.Base.{[], ◌∷◌, some, true, [], arith}
use metal_graph.Node.{
  CopyDesc, FillDesc, WorkspaceDesc, event_wait, event_signal, buffer_refs, event_refs,
}
use metal_graph.Heap.{buffer_counted, event_counted, arena_counted}
use metal_graph.Heap.Refs.{buffer, event, arena}
use metal_graph.Graph.Holding.{Ends, Holding, HasRoom}
use metal_graph.Graph.Adding.{CountersFit}
use metal_graph.Graph.Build.{
  add_copy_node, add_fill_node, add_event_wait_node, add_event_signal_node, add_workspace_node,
  add_workspace_fill_node,
}
use metal_graph.Types.{Access}
use metal_graph.Node.{DispatchDesc, items}
use metal_graph.Graph.Dispatch.{add_dispatch_node}
use metal_graph.Graph.Dispatch.Laws.{DispatchAdded, add_dispatch_node-Ends}
use metal_graph.Node.{TensorDesc, MpsGraphDesc}
use metal_graph.Graph.Tensors.{add_mpsgraph_node}
use metal_graph.Graph.Tensors.Node.{MpsGraphAdded, add_mpsgraph_node-Ends}
use metal_graph.Graph.Build.Laws.{
  CopyAdded, copy_desc_refs, FillAdded, add_copy_node-Ends, add_fill_node-Ends,
}
use metal_graph.Graph.Build.Simple.{
  EventAdded, WorkspaceAdded, WorkspaceFillAdded, add_event_nodes-Ends, add_workspace_node-Ends,
  add_workspace_fill_node-Ends,
}
use metal_graph.Tests.{small_state}

has_room : HasRoom small_state.graph
has_room = record {
  nodes = omega arith;
  edges = omega arith;
  node_bound = omega arith;
  edge_bound = omega arith;
}

abbrev inside : CopyDesc
inside = record {
  size = 48;
  src = some 100;
  src_offset = 0;
  dst = some 100;
  dst_offset = 32;
  byte_count = 32;
}

abbrev zeros : FillDesc
zeros = record { size = 40; dst = some 100; dst_offset = 0; byte_count = 64; value = 0 }

abbrev scratch : WorkspaceDesc
scratch = record { size = 24; byte_count = 64; alignment = 16 }

-- The counters of the sample heap are far from their end.
copy_fit : CountersFit small_state (copy_desc_refs (some inside))
copy_fit = elim [ buffer p ↦ ground arith | event p ↦ ground arith | arena p ↦ ground arith ]

buffer_fit : CountersFit small_state (buffer_refs (some 100))
buffer_fit = elim [ buffer p ↦ ground arith | event p ↦ ground arith | arena p ↦ ground arith ]

event_fit : CountersFit small_state (event_refs (some 200))
event_fit = elim [ buffer p ↦ ground arith | event p ↦ ground arith | arena p ↦ ground arith ]

-- A dispatch over 256 threads that reads and writes the buffer.
abbrev scaling : DispatchDesc
scaling = record {
  size = 104;
  metallib_path = some "kernels.metallib";
  kernel_name = some "scale";
  grid_size = record { x = 256; y = 1; z = 1 };
  threads_per_threadgroup = record { x = 64; y = 1; z = 1 };
  buffers = items (record { index = 0; buffer = some 100; offset = 0 } ∷ []);
  scalars = items (record { index = 1; bytes = some (2 ∷ 0 ∷ 0 ∷ 0 ∷ []); byte_count = 4 } ∷ []);
  max_grid_size = record { x = 512; y = 1; z = 1 };
  resources = items (
      record {
        size = 40;
        index = 0;
        access = Access.read_write;
        byte_offset = 0;
        byte_count = 64;
        alignment = 16;
      }
      ∷ []);
}

add_dispatch_node-Ends_example :
    Ends
      (DispatchAdded (some scaling) small_state)
      (Holding [] small_state)
      (add_dispatch_node (some scaling) true small_state)
add_dispatch_node-Ends_example =
    add_dispatch_node-Ends (some scaling) true small_state has_room (omega arith, tt) buffer_fit

-- A call with one feed and one target of 2 by 4 floats.
abbrev floats : TensorDesc
floats = record {
  size = 56;
  buffer = some 100;
  byte_offset = 0;
  byte_count = 0;
  data_type = 1;
  layout = 1;
  shape = items (2 ∷ 4 ∷ []);
}

abbrev softmax : MpsGraphDesc
softmax = record {
  size = 48;
  package_path = some "softmax.mpsgraphpackage";
  feeds = items (floats ∷ []);
  targets = items (floats ∷ []);
}

add_mpsgraph_node-Ends_example :
    Ends
      (MpsGraphAdded (some softmax) small_state)
      (Holding [] small_state)
      (add_mpsgraph_node (some softmax) true small_state)
add_mpsgraph_node-Ends_example =
    add_mpsgraph_node-Ends (some softmax) true small_state has_room (omega arith, (omega arith, tt))
      copy_fit

add_copy_node-Ends_example :
    Ends
      (CopyAdded (some inside) small_state)
      (Holding [] small_state)
      (add_copy_node (some inside) true small_state)
add_copy_node-Ends_example =
    add_copy_node-Ends (some inside) true small_state has_room (omega arith, (omega arith, tt))
      copy_fit

add_fill_node-Ends_example :
    Ends
      (FillAdded (some zeros) small_state)
      (Holding [] small_state)
      (add_fill_node (some zeros) true small_state)
add_fill_node-Ends_example =
    add_fill_node-Ends (some zeros) true small_state has_room (omega arith, tt) buffer_fit

add_event_nodes-Ends_example :
    Ends
      (EventAdded event_wait (some 200) 5 small_state)
      (Holding [] small_state)
      (add_event_wait_node (some 200) 5 true small_state)
    × Ends
        (EventAdded event_signal (some 200) 5 small_state)
        (Holding [] small_state)
        (add_event_signal_node (some 200) 5 true small_state)
add_event_nodes-Ends_example =
    add_event_nodes-Ends (some 200) 5 true small_state has_room (omega arith, tt) event_fit

add_workspace_node-Ends_example :
    Ends
      (WorkspaceAdded (some scratch) small_state)
      (Holding [] small_state)
      (add_workspace_node (some scratch) true small_state)
add_workspace_node-Ends_example = add_workspace_node-Ends (some scratch) true small_state has_room

add_workspace_fill_node-Ends_example :
    Ends
      (WorkspaceFillAdded (some scratch) 0 (some 100) 0 small_state)
      (Holding [] small_state)
      (add_workspace_fill_node (some scratch) 0 (some 100) 0 true small_state)
add_workspace_fill_node-Ends_example =
    add_workspace_fill_node-Ends (some scratch) 0 (some 100) 0 true small_state has_room
      (omega arith, tt) buffer_fit
