-- ===== src/Tests/Reporting.antt =====
-- A report, with memory.
use metal_graph.Base.{◌≡◌, true, ◌&&◌, if◌then◌else◌, none, some}
use metal_graph.Types.{Status, Stage}
use metal_graph.Errors.{set_error}
use metal_graph.Errors.Laws.{report_of, memory_left, set_error_lem}
use metal_graph.Tests.{small_heap}

set_error_lem_example :
    ((set_error true Status.unsupported Stage.commit 3 none (some "no device") small_heap).status
      ≡ Status.unsupported)
    × ((set_error true Status.unsupported Stage.commit 3 none
          (some "no device")
          small_heap).out_error
        ≡ (if true && memory_left (some "no device") small_heap
            then some (report_of Status.unsupported Stage.commit 3 none (some "no device"))
            else none))
set_error_lem_example =
    set_error_lem true Status.unsupported Stage.commit 3 none (some "no device") small_heap
