-- ===== src/Tests/Launching.antt =====
-- A launch of a copy and a barrier until its end, and one of a barrier alone.
use metal_graph.Base.{ℕ, ◌≡◌, ◌≢◌, refl, true, false, some, [], ◌∷◌, arith, List}
use metal_graph.Types.{Stage}
use metal_graph.Outcome.{done, failed, invalid_at, node_id_invalid}
use metal_graph.Heap.{buffer_counted, event_counted, arena_counted, malloc, buffer_retain}
use metal_graph.Heap.Counting.{retain}
use metal_graph.Heap.Refs.{buffer, event, arena}
use metal_graph.Graph.Holding.{Ends}
use metal_graph.Workspace.{empty_plan}
use metal_graph.Exec.{ExecNode, refused}
use metal_graph.Exec.Patch.{Request, patch}
use metal_graph.Launch.{Session, need, allocate, hold_buffer, retain_command_buffer, grow_impls}
use metal_graph.Launch.Encode.{
  encode_node, encode_nodes, buffer_need, event_need, buffers_needed, events_needed,
}
use metal_graph.Launch.Calls.{
  empty_launch, make_launch, commit_last, encode, graph_launch, launch_synchronize,
}
use metal_graph.Launch.Laws.{IsLaunchable, graph_launch-Ends}
use metal_graph.Launch.Making.{Launched, Unlaunched}
use metal_graph.Launch.Life.{Waited, graph_launch-launch_synchronize}
use metal_graph.Launch.Idle.{graph_launch-patch_idle}
use metal_graph.Tests.{small_heap}

-- Metal gives all that it is asked for.
abbrev session_of : List ExecNode → Session
session_of nodes = record {
  heap = small_heap;
  exec = record {
    nodes = nodes;
    device_impl = some 7;
    workspace = empty_plan;
    icb = record {
      enabled_flags = 1;
      available = 1;
      groups_planned = 1;
      groups_used = 0;
      groups_fallback = 1;
      last_fallback_reason = 3;
      command_count = 0;
    };
    in_flight_count = 0;
  };
  launch = empty_launch;
  has_work = false;
  says = λ n. true;
  asked = 0;
}

abbrev copying : Session
copying = session_of (
    ExecNode.copy (record {
      id = 1;
      patch_flags = 16;
      src = some 100;
      src_offset = 0;
      dst = some 100;
      dst_offset = 32;
      byte_count = 32;
    })
    ∷ ExecNode.barrier 2
    ∷ [])

copying-IsLaunchable : IsLaunchable copying
copying-IsLaunchable = record {
  given = (((100, refl), (100, refl)), (tt, tt));
  live = elim [ buffer p ↦ ground arith | event p ↦ ground arith | arena p ↦ ground arith ];
  fits = elim [ buffer p ↦ ground arith | event p ↦ ground arith | arena p ↦ ground arith ];
  in_flight = omega arith;
}

abbrev launched : Session
launched = (graph_launch copying).1

graph_launch-Ends_example :
    Ends (λ (_ : Unit {0}) t. Launched copying t) (Unlaunched copying) (graph_launch copying)
graph_launch-Ends_example = graph_launch-Ends copying copying-IsLaunchable

copying_launches : graph_launch copying ≡ (done tt, launched)
unfolding graph_launch need make_launch allocate grow_impls encode encode_nodes encode_node
    hold_buffer commit_last retain_command_buffer buffers_needed events_needed buffer_need
    event_need buffer_retain retain malloc
copying_launches = refl

launched_work : launched.launch.impl_count ≢ 0
unfolding graph_launch need make_launch allocate grow_impls encode encode_nodes encode_node
    hold_buffer commit_last retain_command_buffer buffers_needed events_needed buffer_need
    event_need buffer_retain retain malloc
launched_work = omega arith

graph_launch-launch_synchronize_example :
    Waited copying launched launched.launch.impl_count (launch_synchronize launched)
graph_launch-launch_synchronize_example =
    graph_launch-launch_synchronize copying launched copying-IsLaunchable copying_launches
      launched_work

abbrev waiting : Session
waiting = session_of (ExecNode.barrier 1 ∷ [])

abbrev stuck : Session
stuck = (graph_launch waiting).1

waiting_launches : graph_launch waiting ≡ (done tt, stuck)
unfolding graph_launch need make_launch allocate encode encode_nodes encode_node commit_last
    buffers_needed events_needed buffer_need event_need malloc
waiting_launches = refl

graph_launch-patch_idle_example :
    (launch_synchronize stuck
      ≡ (failed (invalid_at Stage.sync node_id_invalid "launch is required"), stuck))
    × ((id : ℕ) (request : Request)
        → patch id request (record { heap = stuck.heap; exec = stuck.exec }) ≡ (
          failed (refused node_id_invalid "exec has an in-flight launch"),
          record { heap = stuck.heap; exec = stuck.exec },
        ))
graph_launch-patch_idle_example =
    graph_launch-patch_idle waiting stuck (tt, tt) (λ e. cc) (omega arith) waiting_launches
