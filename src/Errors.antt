-- ===== src/Errors.antt =====
-- src/core/error.c: the report that a failed function leaves in the caller's `out_error`.
pub mod Laws
use metal_graph.Base.{ℕ, suc, Bool, true, false, ◌&&◌, if◌then◌else◌, Option, none, some, String}
use metal_graph.Types.{Status, Stage, status_string}
use metal_graph.Outcome.{node_id_invalid}
use metal_graph.Heap.{Heap, malloc}
use metal_graph.Graph.{is_given}

-- mg_error.
pub record Report : Type 0 where
  pub status : Status
  pub stage : Stage
  pub node_id : ℕ
  pub message : String
  pub backend_message : Option String

-- mg_strdup: NULL for NULL, without an allocation.
unfoldable pub copy_string : Option String → Heap → Option String × Heap
unfolding malloc
copy_string none h = (none, h)
copy_string (some t) h = let (answer, g) = malloc h in (if is_given answer then some t else none, g)

abbrev pub text_or : Option String → String → String
text_or none default = default
text_or (some t) default = t

-- `backend_message && !error->backend_message`.
abbrev pub is_lost : Option String → Option String → Bool
is_lost none copy = false
is_lost (some t) none = true
is_lost (some t) (some c) = false

-- The test of the copies; without the message the report is destroyed.
unfoldable pub finish_report :
    Report → Option String → Option String → Option String → Option Report
finish_report r backend none copy = none
finish_report r backend (some t) copy =
    if is_lost backend copy then none else some (record r { message = t; backend_message = copy })

-- The report once the memory for it was asked for.
unfoldable pub fill_report :
    Option ℕ → Status → Stage → ℕ → Option String → Option String → Heap → Option Report × Heap
fill_report none status stage node_id message backend h = (none, h)
fill_report (some p) status stage node_id message backend h =
    let (text, g) = copy_string (some (text_or message (status_string status))) h in
    let (copy, k) = copy_string backend g in
    (
      finish_report
          (record {
            status = status;
            stage = stage;
            node_id = node_id;
            message = "";
            backend_message = none;
          })
          backend text copy,
      k,
    )

-- What mg_set_error returns, and what it leaves in `out_error`.
pub record Reported : Type 0 where
  pub status : Status
  pub out_error : Option Report
  pub heap : Heap

-- mg_set_error. `wanted` says that `out_error` is not NULL.
unfoldable pub set_error :
    Bool → Status → Stage → ℕ → Option String → Option String → Heap → Reported
unfolding malloc
set_error wanted status stage node_id message backend h =
    let (answer, g) = malloc h in
    let (report, k) = fill_report answer status stage node_id message backend g in
    if wanted
    then record { status = status; out_error = report; heap = k }
    else record { status = status; out_error = none; heap = h }

-- mg_clear_error: what it leaves in `*out_error`, if the caller has one.
unfoldable pub clear_error : Option (Option Report) → Option (Option Report)
clear_error none = none
clear_error (some r) = some none

-- mg_set_oom.
unfoldable pub set_oom : Bool → Stage → Heap → Reported
unfolding set_error
set_oom wanted stage =
    set_error wanted Status.out_of_memory stage node_id_invalid (some "out of memory") none

-- mgErrorStatus, mgErrorStage, mgErrorNodeId, mgErrorMessage, mgErrorBackendMessage.
unfoldable pub error_status : Option Report → Status
error_status none = Status.ok
error_status (some r) = r.status

unfoldable pub error_stage : Option Report → Stage
error_stage none = Stage.none
error_stage (some r) = r.stage

unfoldable pub error_node_id : Option Report → ℕ
error_node_id none = node_id_invalid
error_node_id (some r) = r.node_id

unfoldable pub error_message : Option Report → String
error_message none = ""
error_message (some r) = r.message

unfoldable pub error_backend_message : Option Report → String
error_backend_message none = ""
error_backend_message (some r) = text_or r.backend_message ""
