-- ===== src/Tests/Planning.antt =====
-- A workspace plan of two nodes in an arena of 4096 bytes.
use metal_graph.Base.{◌+◌, ◌≡◌, refl, List, [], ◌∷◌, arith, All}
use metal_graph.Node.{Node, workspace, barrier}
use metal_graph.Heap.Refs.{Grown}
use metal_graph.Graph.Holding.{Ends}
use metal_graph.Workspace.Plan.{WordNodes}
use metal_graph.Workspace.{node_demand, Demand, WorkspaceRecord, WorkspacePlan, plan_workspace}
use metal_graph.Workspace.Layout.{LaidOut, demands}
use metal_graph.Workspace.Attach.{PlannedFor, plan_workspace-Ends}
use metal_graph.Workspace.Lookup.{Located, offset_for_node-Located}
use metal_graph.Workspace.Success.{plan_workspace-succeeds}
use metal_graph.Workspace.Budget.{SoundWithin, budget}
use metal_graph.Outcome.{done}
use metal_graph.Align.{alignment_valid}
use metal_graph.Heap.{Heap}
use metal_graph.Tests.{small_arena, small_heap, graph_of, node_of}

abbrev scratch : List Node
scratch =
    node_of 0 (workspace (record { size = 100; alignment = 16 }))
    ∷ node_of 1 barrier
    ∷ node_of 2 (workspace (record { size = 64; alignment = 256 }))
    ∷ []

scratch_words : WordNodes scratch
unfolding node_demand
scratch_words = (
  record { size = omega arith; alignment = omega arith },
  (tt, (record { size = omega arith; alignment = omega arith }, tt)),
)

plan_workspace-Ends_example :
    Ends
      (PlannedFor (graph_of scratch) (2 ∷ 1 ∷ 0 ∷ []) small_heap)
      (Grown [] small_heap)
      (plan_workspace (graph_of scratch) (2 ∷ 1 ∷ 0 ∷ []) small_heap)
plan_workspace-Ends_example =
    plan_workspace-Ends (graph_of scratch) (2 ∷ 1 ∷ 0 ∷ []) small_heap scratch_words
      (omega arith, (omega arith, (omega arith, tt))) (omega arith, tt) (omega arith, tt)

abbrev two_demands : List Demand
two_demands =
    record { node_id = 3; size = 64; alignment = 256 }
    ∷ record { node_id = 1; size = 100; alignment = 16 }
    ∷ []

abbrev two_records : List WorkspaceRecord
two_records =
    record { node_id = 3; size = 64; alignment = 256; offset = 0 }
    ∷ record { node_id = 1; size = 100; alignment = 16; offset = 64 }
    ∷ []

two_laid : LaidOut 0 two_demands two_records 164
two_laid = (
  record {
    node_id = refl;
    size = refl;
    alignment = refl;
    offset = record {
      above = omega arith;
      least = omega arith;
      multiple = refl;
      fits = omega arith;
    };
    fits = omega arith;
  },
  (
    record {
      node_id = refl;
      size = refl;
      alignment = refl;
      offset = record {
        above = omega arith;
        least = omega arith;
        multiple = refl;
        fits = omega arith;
      };
      fits = omega arith;
    },
    refl,
  ),
)

offset_for_node-Located_example : All (Located two_records 164) two_demands
offset_for_node-Located_example =
    offset_for_node-Located 0 two_demands two_records 164 two_laid (refl, (refl, tt))

scratch_sound : All (SoundWithin 256) (demands scratch (2 ∷ 1 ∷ 0 ∷ []))
unfolding demands node_demand alignment_valid
scratch_sound = (
  (record { pos = omega arith; aligned = refl }, omega arith),
  ((record { pos = omega arith; aligned = refl }, omega arith), tt),
)

scratch_total : budget (demands scratch (2 ∷ 1 ∷ 0 ∷ [])) ≡ 436
unfolding demands node_demand
scratch_total = refl

plan_workspace-succeeds_example :
    (plan : WorkspacePlan) × (k : Heap) × (plan_workspace
        (graph_of scratch)
        (2 ∷ 1 ∷ 0 ∷ [])
        small_heap
      ≡ (done plan, k))
plan_workspace-succeeds_example =
    plan_workspace-succeeds (graph_of scratch) (2 ∷ 1 ∷ 0 ∷ []) small_heap 256
      (λ c. (1000 + c, refl)) (omega arith, (omega arith, (omega arith, tt))) scratch_sound
      (omega arith) (omega (arith, scratch_total))
      (small_arena, refl, omega arith, omega (arith, scratch_total))
