-- ===== src/Tests/Handles.antt =====
-- Handles: a buffer until its end, a new arena, and the calls of the backend that refuses.
use metal_graph.Base.{
  ◌≡◌, ◌≢◌, refl, ◌==◌, if◌then◌else◌, Option, none, some, true, List, [], ◌∷◌, arith,
}
use metal_graph.Types.{OriginKind}
use metal_graph.Outcome.{done}
use metal_graph.Heap.{Heap, Buffer}
use metal_graph.Heap.Memory.{OnlyCalls}
use metal_graph.Heap.Refs.{HeapKept}
use metal_graph.Graph.Holding.{Ends}
use metal_graph.Arena.{ArenaDesc, arena_create}
use metal_graph.Arena.Laws.{Created, IsFresh, arena_create-Ends}
use metal_graph.Buffers.{OriginInfo, buffer_destroy, buffer_length, get_origin_info}
use metal_graph.Buffers.Laws.{
  Use, take, drop, Keeps, run_uses, StillHeld, IsGone, run_uses-buffer_destroy,
  get_origin_info-Kept,
}
use metal_graph.Unsupported.Laws.{create_stream, Outcomes, run, run-Outcomes}
use metal_graph.Version.{version, version_string}
use metal_graph.Tests.{small_heap, small_buffer}

-- A buffer around memory of someone who wants to be told.
abbrev owned : Buffer
owned = record small_buffer { owner_release = some 55; owner_context = some 66 }

abbrev owned_heap : Heap
owned_heap = record small_heap { buffers = λ p. if p == 100 then some owned else none }

abbrev uses : List Use
uses = take ∷ drop ∷ drop ∷ []

uses_keep : Keeps owned.ref_count uses 1
uses_keep = omega arith

run_uses-buffer_destroy_example :
    (k : Heap) × (l : Heap) × (run_uses 100 uses owned_heap ≡ some k)
    × StillHeld 100 owned 1 owned_heap k
    × (buffer_destroy (some 100) k ≡ some l)
    × IsGone 100 owned owned_heap l
run_uses-buffer_destroy_example = run_uses-buffer_destroy 100 uses owned owned_heap refl uses_keep

get_origin_info-Kept_example :
    (info : OriginInfo) × (get_origin_info owned_heap (some 100) (some 48) ≡ done info)
    × (info.origin_kind ≢ OriginKind.unset)
    × (buffer_length owned_heap (some 100) ≡ some info.byte_length)
    × ((k : Heap) (c : Buffer)
        → HeapKept owned_heap k
        → k.buffers 100 ≡ some c
        → get_origin_info k (some 100) (some 48) ≡ done info)
get_origin_info-Kept_example = get_origin_info-Kept owned_heap 100 owned 48 refl (omega arith)

abbrev arena_desc : Option ArenaDesc
arena_desc = some (record { size = 24; byte_count = 4096; alignment = 256 })

-- The next address, 1000, is that of no arena.
small_heap-IsFresh : IsFresh small_heap
small_heap-IsFresh p e = let p_is : 1000 ≡ p = cc in rw (← p_is) refl

arena_create-Ends_example :
    Ends
      (Created arena_desc small_heap)
      (OnlyCalls small_heap)
      (arena_create true arena_desc small_heap)
arena_create-Ends_example = arena_create-Ends true arena_desc small_heap small_heap-IsFresh

run-Outcomes_example :
    Outcomes
      (create_stream (some 7) (some none))
      small_heap
      (run true (create_stream (some 7) (some none)) small_heap)
run-Outcomes_example = run-Outcomes true (create_stream (some 7) (some none)) small_heap

version_lem : (version.major ≡ 0) × (version.minor ≡ 1) × (version_string ≡ "0.1.0")
unfolding version version_string
version_lem = (refl, refl, refl)
