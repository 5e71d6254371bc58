-- ===== src/Workspace.antt =====
-- src/core/arena.c: the workspace plan, which places the transient memory of the nodes one after the
-- other in the order of execution.
pub mod Layout
pub mod Plan
pub mod Attach
pub mod Lookup
pub mod Distinct
pub mod Apart
pub mod Success
pub mod Budget
pub mod Total
pub mod Memory
pub mod Whole
use metal_graph.Base.{
  ℕ, suc, ◌+◌, ◌-◌, ◌*◌, ◌/◌, ◌%◌, Bool, true, false, ◌==◌, ltb, leb, if◌then◌else◌, Option, none,
  some, List, [], ◌∷◌, ◌++◌, length, get_elem?, word64,
}
use metal_graph.Types.{Status, Stage}
use metal_graph.Outcome.{
  Outcome, done, failed, fault, Failure, M, after, ◌>>=◌, invalid_at, oom_at, node_id_invalid,
}
use metal_graph.Align.{align_up_size}
use metal_graph.Arena.{workspace_desc_validate, workspace_desc_size}
use metal_graph.Heap.{Heap, Arena, malloc, arena_retain, arena_release}
use metal_graph.Node.{Node, Payload, workspace, workspace_fill, WorkspaceDesc}
use metal_graph.Graph.{Graph}

-- mg_workspace_record_t, of 32 bytes.
pub record WorkspaceRecord : Type 0 where
  pub node_id : ℕ
  pub size : ℕ
  pub alignment : ℕ
  pub offset : ℕ

-- mg_workspace_plan_t. `backend_impl` is the backend's.
pub record WorkspacePlan : Type 0 where
  pub records : List WorkspaceRecord
  pub total_size : ℕ
  pub alignment : ℕ
  pub arena : Option ℕ

-- The zeroed plan.
abbrev pub empty_plan : WorkspacePlan
empty_plan = record { records = []; total_size = 0; alignment = 0; arena = none }

-- The record that mg_workspace_plan_append writes, with the new totals.
unfoldable pub place : WorkspacePlan → ℕ → ℕ → ℕ → ℕ → WorkspacePlan
place plan node_id size alignment offset = record plan {
  records =
      plan.records
      ++ record { node_id = node_id; size = size; alignment = alignment; offset = offset } ∷ [];
  total_size = offset + size;
  alignment = if ltb plan.alignment alignment then alignment else plan.alignment;
}

-- The `realloc` of the records.
place_in : Option ℕ → WorkspacePlan → Outcome WorkspacePlan
place_in none plan = failed (oom_at Stage.plan_memory)
place_in (some p) plan = done plan

-- mg_workspace_plan_append from the aligned offset on.
unfoldable pub append_at : WorkspacePlan → ℕ → ℕ → ℕ → Option ℕ → M Heap WorkspacePlan
unfolding place_in malloc
append_at plan node_id size alignment none h = (
  failed (invalid_at Stage.plan_memory node_id "workspace alignment overflow during planning"),
  h,
)
append_at plan node_id size alignment (some offset) h =
    if ltb (word64 - 1 - size) offset
    then (
      failed (invalid_at Stage.plan_memory node_id "workspace size overflow during planning"),
      h,
    )
    else if leb ((word64 - 1) / 32) (length plan.records)
    then (
      failed (record {
        status = Status.out_of_memory;
        stage = Stage.plan_memory;
        node_id = node_id;
        message = "workspace record count overflow";
      }),
      h,
    )
    else let (answer, g) = malloc h in
      (place_in answer (place plan node_id size alignment offset), g)

-- mg_workspace_plan_append.
unfoldable pub plan_append : WorkspacePlan → ℕ → ℕ → ℕ → M Heap WorkspacePlan
plan_append plan node_id size alignment =
    append_at plan node_id size alignment (align_up_size plan.total_size alignment)

-- What a node asks of the plan.
pub record Demand : Type 0 where
  pub node_id : ℕ
  pub size : ℕ
  pub alignment : ℕ

-- The branches of mg_graph_plan_workspace on the kind of a node.
unfoldable pub node_demand : ℕ → Payload → Option Demand
node_demand id (workspace w) =
    some (record { node_id = id; size = w.size; alignment = w.alignment })
node_demand id (workspace_fill w) =
    some (record { node_id = id; size = w.size; alignment = w.alignment })
node_demand id _ = none

abbrev pub demand_desc : Demand → WorkspaceDesc
demand_desc d = record { size = workspace_desc_size; byte_count = d.size; alignment = d.alignment }

-- The body of the loop for a node with a demand, or the `continue`.
unfoldable pub plan_demand : Option Demand → WorkspacePlan → M Heap WorkspacePlan
plan_demand none plan h = (done plan, h)
plan_demand (some d) plan h =
    after (workspace_desc_validate (some (demand_desc d)) Stage.plan_memory, h)
      λ _ g. plan_append plan d.node_id d.size d.alignment g

-- The loop of mg_graph_plan_workspace over `order`. On a failure the plan is cleared: it holds no
-- arena yet.
unfoldable pub plan_nodes : List Node → List ℕ → WorkspacePlan → M Heap WorkspacePlan
plan_nodes nodes [] plan h = (done plan, h)
plan_nodes nodes (i ∷ order) plan h = elim (get_elem? nodes i) [
  | none ↦ (fault, h)
  | some node ↦
      after (plan_demand (node_demand node.id node.payload) plan h) (plan_nodes nodes order)
]

-- The tests against the attached arena, and the reference that the plan takes.
unfoldable pub attach_arena : ℕ → Option Arena → WorkspacePlan → M Heap WorkspacePlan
attach_arena p none plan h = (fault, h)
attach_arena p (some a) plan h =
    if ltb a.size plan.total_size
    then (
      failed (
          invalid_at Stage.plan_memory node_id_invalid
            "workspace requirements exceed attached arena size"),
      h,
    )
    else if ltb a.alignment plan.alignment
    then (
      failed (
          invalid_at Stage.plan_memory node_id_invalid
            "workspace requirements exceed attached arena alignment"),
      h,
    )
    else elim (arena_retain (some p) h) [
      | none ↦ (fault, h)
      | some g ↦ (done (record plan { arena = some p }), g)
    ]

unfoldable pub attach : Option ℕ → WorkspacePlan → M Heap WorkspacePlan
attach none plan h = (done plan, h)
attach (some p) plan h = attach_arena p (h.arenas p) plan h

-- mg_graph_plan_workspace, whose pointers are not NULL.
unfoldable pub plan_workspace : Graph → List ℕ → M Heap WorkspacePlan
plan_workspace g order h = after (plan_nodes g.nodes order empty_plan h) (attach g.arena)

-- mg_workspace_plan_clear.
unfoldable pub plan_clear : WorkspacePlan → Heap → Option Heap
plan_clear plan = arena_release plan.arena

-- mg_workspace_plan_offset_for_node.
unfoldable pub offset_for_node : List WorkspaceRecord → ℕ → Outcome ℕ
offset_for_node [] node_id = failed (record {
  status = Status.internal_error;
  stage = Stage.plan_memory;
  node_id = node_id;
  message = "workspace node is missing from plan";
})
offset_for_node (r ∷ rs) node_id =
    let rest = offset_for_node rs node_id in if r.node_id == node_id then done r.offset else rest
