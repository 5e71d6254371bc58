-- ===== src/Workspace/Plan.antt =====
-- mg_graph_plan_workspace of src/core/arena.c makes a layout of the demands, within the arena.
use metal_graph.Base.{
  ℕ, ◌+◌, ◌-◌, ◌/◌, ◌≤◌, ◌<◌, ◌≡◌, refl, ◌∙◌, true, ltb, leb, Option, none, some, List, [], ◌∷◌,
  ◌++◌, length, get_elem?, arith, All, All_mono, All-append, word64, ap, subst, zero, suc,
  get_elem?_of_lt, Bool-cases, inl, inr,
}
use mathlib.Core.List.{append-nil, append_assoc}
use metal_graph.Types.{Stage}
use metal_graph.Outcome.{Outcome, done, failed, fault, after}
use metal_graph.Align.{alignment_valid}
use metal_graph.Align.Laws.{RoundsUp, align_up_size_lem}
use metal_graph.Heap.{Heap, malloc, arena_counted}
use metal_graph.Heap.Refs.{Grown}
use metal_graph.Heap.RefLists.{Grown-malloc}
use metal_graph.Node.{Node, WorkspaceDesc}
use metal_graph.Graph.Holding.{Ends, Ends-bind}
use metal_graph.Graph.Build.Simple.{Validates, workspace_desc_validate-Validates}
use metal_graph.Workspace.{
  WorkspaceRecord, WorkspacePlan, Demand, demand_desc, place, place_in, append_at, plan_append,
  node_demand, plan_demand, plan_nodes,
}
use metal_graph.Workspace.Layout.{LaidOut, LaidOut-snoc, demands, prepend}

-- The sizes and alignments are `size_t` values.
pub record IsWords (d : Demand) : Type 0 where
  pub size : d.size < word64
  pub alignment : d.alignment < word64

-- The plan is a layout of the demands, and its alignment covers theirs.
pub record Planned (ds : List Demand) (plan : WorkspacePlan) : Type 0 where
  pub laid : LaidOut 0 ds plan.records plan.total_size
  pub covers : All (λ (r : WorkspaceRecord). r.alignment ≤ plan.alignment) plan.records
  pub no_arena : plan.arena ≡ none

-- The plan is one, and the heap's counts are as at the start.
abbrev pub PlannedFrom : Heap → List Demand → WorkspacePlan → Heap → Type 0
PlannedFrom h ds plan g = Planned ds plan × Grown [] h g

place-Planned :
    (ds : List Demand) (plan : WorkspacePlan) (d : Demand) (offset : ℕ)
    → Planned ds plan
    → RoundsUp plan.total_size d.alignment offset
    → offset + d.size < word64
    → Planned (ds ++ d ∷ []) (place plan d.node_id d.size d.alignment offset)
unfolding place
place-Planned ds plan d offset p rounds fits = record {
  laid =
      LaidOut-snoc 0 ds plan.records plan.total_size d _ p.laid
        (record { node_id = refl; size = refl; alignment = refl; offset = rounds; fits = fits });
  covers =
      All-append _ plan.records _ (All_mono _ _ (λ r c. ground (arith, c)) plan.records p.covers)
        (ground arith, tt);
  no_arena = p.no_arena;
}

place_in-Ends :
    (o : Option ℕ) (ds : List Demand) (plan : WorkspacePlan) (h g : Heap)
    → Planned ds plan
    → Grown [] h g
    → Ends (PlannedFrom h ds) (Grown [] h) (place_in o plan, g)
unfolding place_in
place_in-Ends none ds plan h g p same = same
place_in-Ends (some a) ds plan h g p same = (p, same)

append_at-Ends :
    (ds : List Demand) (plan : WorkspacePlan) (d : Demand) (offset : ℕ) (h g : Heap)
    → Planned ds plan
    → IsWords d
    → RoundsUp plan.total_size d.alignment offset
    → Grown [] h g
    → Ends
        (PlannedFrom h (ds ++ d ∷ []))
        (Grown [] h)
        (append_at plan d.node_id d.size d.alignment (some offset) g)
unfolding append_at malloc
append_at-Ends ds plan d offset h g p words rounds same =
    elim (Bool-cases (ltb (word64 - 1 - d.size) offset)) [
      | inl over ↦ rw over same
      | inr fits ↦ rw fits (elim (Bool-cases (leb ((word64 - 1) / 32) (length plan.records))) [
        | inl many ↦ rw many same
        | inr room ↦
            let next = place-Planned ds plan d offset p rounds (ground arith) in
            let kept = Grown-malloc [] h g same in
            rw room (
              place_in-Ends (g.answers g.calls) (ds ++ d ∷ [])
                (place plan d.node_id d.size d.alignment offset) h (malloc g).1 next kept)
      ])
    ]

plan_append-Ends :
    (ds : List Demand) (plan : WorkspacePlan) (d : Demand) (h g : Heap)
    → Planned ds plan
    → IsWords d
    → alignment_valid d.alignment ≡ true
    → Grown [] h g
    → Ends
        (PlannedFrom h (ds ++ d ∷ []))
        (Grown [] h)
        (plan_append plan d.node_id d.size d.alignment g)
unfolding plan_append append_at
plan_append-Ends ds plan d h g p words valid same =
    elim (align_up_size_lem plan.total_size d.alignment words.alignment valid) [
      | inl (over, none_is) ↦ rw none_is same
      | inr (offset, e, rounds) ↦ rw e (append_at-Ends ds plan d offset h g p words rounds same)
    ]

validated_append-Ends :
    (ds : List Demand) (plan : WorkspacePlan) (d : Demand) (o : Outcome WorkspaceDesc) (h g : Heap)
    → Planned ds plan
    → IsWords d
    → Validates (some (demand_desc d)) o
    → Grown [] h g
    → Ends
        (PlannedFrom h (ds ++ d ∷ []))
        (Grown [] h)
        (after (o, g) λ _ k. plan_append plan d.node_id d.size d.alignment k)
validated_append-Ends ds plan d (done w) h g p words v same =
    let desc : some (demand_desc d) ≡ some w = v.0 in
    let same_desc : demand_desc d ≡ w = cc in
    let valid : alignment_valid d.alignment ≡ true =
      ap (λ (x : WorkspaceDesc). alignment_valid x.alignment) same_desc ∙ v.1.aligned in
    plan_append-Ends ds plan d h g p words valid same
validated_append-Ends ds plan d (failed e) h g p words v same = same
validated_append-Ends ds plan d fault h g p words v same = v

-- All demands of the nodes are words.
abbrev pub WordDemand : Option Demand → Type 0
WordDemand none = Unit {0}
WordDemand (some d) = IsWords d

abbrev pub WordNodes : List Node → Type 0
WordNodes nodes = All (λ (n : Node). WordDemand (node_demand n.id n.payload)) nodes

plan_demand-Ends :
    (ds : List Demand) (plan : WorkspacePlan) (o : Option Demand) (h g : Heap)
    → Planned ds plan
    → WordDemand o
    → Grown [] h g
    → Ends (PlannedFrom h (ds ++ prepend o [])) (Grown [] h) (plan_demand o plan g)
unfolding plan_demand
plan_demand-Ends ds plan none h g p words same = (rw append-nil p, same)
plan_demand-Ends ds plan (some d) h g p words same =
    validated_append-Ends ds plan d _ h g p words
      (workspace_desc_validate-Validates (some (demand_desc d)) Stage.plan_memory) same

get_elem?-All :
    (nodes : List Node) (i : ℕ) (n : Node)
    → get_elem? nodes i ≡ some n
    → WordNodes nodes
    → WordDemand (node_demand n.id n.payload)
get_elem?-All [] i n e w = cc
get_elem?-All (x ∷ xs) zero n e w = let same : x ≡ n = cc in rw (← same) w.0
get_elem?-All (x ∷ xs) (suc i) n e w = get_elem?-All xs i n e w.1

-- The order names nodes of the graph only.
abbrev pub OrderWithin : List Node → List ℕ → Type 0
OrderWithin nodes order = All (λ i. i < length nodes) order

demands-cons :
    (ds : List Demand) (nodes : List Node) (i : ℕ) (order : List ℕ) (n : Node)
    → get_elem? nodes i ≡ some n
    → (ds ++ prepend (node_demand n.id n.payload) []) ++ demands nodes order
      ≡ ds ++ demands nodes (i ∷ order)
unfolding demands
demands-cons ds nodes i order n e =
    rw (e, demands, append_assoc) (ap (◌++◌ ds) (one (node_demand n.id n.payload)))
  where
    one :
        (o : Option Demand) → prepend o [] ++ demands nodes order ≡ prepend o (demands nodes order)
    one none = refl
    one (some d) = refl

pub plan_nodes-Ends :
    (ds : List Demand) (nodes : List Node) (order : List ℕ) (plan : WorkspacePlan) (h g : Heap)
    → WordNodes nodes
    → OrderWithin nodes order
    → Planned ds plan
    → Grown [] h g
    → Ends (PlannedFrom h (ds ++ demands nodes order)) (Grown [] h) (plan_nodes nodes order plan g)
unfolding plan_nodes demands
plan_nodes-Ends ds nodes [] plan h g words within p same = (rw append-nil p, same)
plan_nodes-Ends ds nodes (i ∷ order) plan h g words within p same =
    let (n, e) = get_elem?_of_lt nodes i within.0 in
    let step = ds ++ prepend (node_demand n.id n.payload) [] in
    rw (e, plan_nodes)
      (subst
        (λ all.
          Ends (PlannedFrom h all) (Grown [] h)
            (after (plan_demand (node_demand n.id n.payload) plan g) (plan_nodes nodes order)))
        (demands-cons ds nodes i order n e)
        (Ends-bind (PlannedFrom h step) (PlannedFrom h (step ++ demands nodes order)) (Grown [] h)
          (plan_demand (node_demand n.id n.payload) plan g) (plan_nodes nodes order)
          (plan_demand-Ends ds plan (node_demand n.id n.payload) h g p
            (get_elem?-All nodes i n e words) same)
          λ plan' k (p', same').
            plan_nodes-Ends step nodes order plan' h k words within.1 p' same'))
