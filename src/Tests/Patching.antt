-- ===== src/Tests/Patching.antt =====
-- A patch of a copy node that swaps its buffers' ranges, and one that is refused.
use metal_graph.Exec.Options.{FlagsShown, set_optimization_flags-get_diagnostics}
use metal_graph.Base.{ℕ, ◌-◌, ◌≢◌, ◌⊎◌, ◌<◌, ◌≡◌, some, [], ◌∷◌, arith}
use metal_graph.Heap.{Heap, buffer_counted, event_counted, arena_counted}
use metal_graph.Heap.Refs.{buffer, event, arena, Ref, ref_count, count, HeapKept}
use metal_graph.Exec.Destroy.{owned_refs, graph_exec_destroy}
use metal_graph.Exec.Life.{start, patched, flagged, calls-graph_exec_destroy}
use metal_graph.Graph.Holding.{Ends}
use metal_graph.Workspace.{empty_plan}
use metal_graph.Exec.{ExecState, ExecNode}
use metal_graph.Exec.Patch.{Request, patch, set_optimization_flags}
use metal_graph.Exec.Writes.{Gives}
use metal_graph.Exec.Writes.Whole.{PatchWrote, patch-Gives}
use metal_graph.Exec.Laws.{Patched, Provides, patch-Ends}
use metal_graph.Tests.{small_heap}

-- One copy node with id 1, whose ranges may be patched.
abbrev copying : ExecState
copying = record {
  heap = small_heap;
  exec = record {
    nodes =
        ExecNode.copy (record {
          id = 1;
          patch_flags = 16;
          src = some 100;
          src_offset = 0;
          dst = some 100;
          dst_offset = 32;
          byte_count = 32;
        })
        ∷ [];
    device_impl = some 7;
    workspace = record empty_plan { arena = some 300 };
    icb = record {
      enabled_flags = 0;
      available = 0;
      groups_planned = 0;
      groups_used = 0;
      groups_fallback = 0;
      last_fallback_reason = 0;
      command_count = 0;
    };
    in_flight_count = 0;
  };
}

abbrev swapped : Request
swapped = Request.copy_node (
    some (record {
      size = 48;
      src = some 100;
      src_offset = 32;
      dst = some 100;
      dst_offset = 0;
      byte_count = 32;
    }))

copying-Provides : Provides swapped copying
copying-Provides = record {
  live = (omega arith, (omega arith, tt));
  fits = elim [ buffer p ↦ ground arith | event p ↦ ground arith | arena p ↦ ground arith ];
  held = elim [ buffer p ↦ ground arith | event p ↦ ground arith | arena p ↦ ground arith ];
}

patch-Ends_example :
    Ends (λ (_ : Unit {0}) t. Patched 1 copying t) (λ t. t ≡ copying) (patch 1 swapped copying)
patch-Ends_example = patch-Ends 1 swapped copying copying-Provides

patch-Gives_example :
    Gives (λ (_ : Unit {0}) t. PatchWrote 1 swapped copying t) (patch 1 swapped copying)
patch-Gives_example = patch-Gives 1 swapped copying tt

set_optimization_flags-get_diagnostics_example :
    Ends
      (λ (_ : Unit {0}) t. FlagsShown 1 copying t)
      (λ t. (t ≡ copying) × ((copying.exec.in_flight_count ≢ 0) ⊎ (1 < 1)))
      (set_optimization_flags 1 copying)
set_optimization_flags-get_diagnostics_example =
    set_optimization_flags-get_diagnostics 1 copying (omega arith)

-- The references that are not the executable's.
abbrev others : Ref → ℕ
others r = ref_count copying.heap r - count r (owned_refs copying.exec)

abbrev patched_once : ExecState
patched_once = (set_optimization_flags 1 (patch 1 swapped copying).1).1

calls-graph_exec_destroy_example :
    (k : Heap) × (graph_exec_destroy patched_once.exec patched_once.heap ≡ some k)
    × ((r : Ref) → ref_count k r ≡ others r)
    × HeapKept copying.heap k
calls-graph_exec_destroy_example =
    calls-graph_exec_destroy others copying patched_once
      (elim [ buffer p ↦ ground arith | event p ↦ ground arith | arena p ↦ ground arith ])
      (flagged 1 (patched 1 swapped start copying-Provides.live copying-Provides.fits))
