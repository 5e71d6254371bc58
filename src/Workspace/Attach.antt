-- ===== src/Workspace/Attach.antt =====
-- mg_graph_plan_workspace as a whole: the plan, the arena that it must fit, and the reference to it.
use metal_graph.Base.{
  ℕ, ◌+◌, ◌≤◌, ◌<◌, ◌≡◌, refl, sym, ◌∙◌, ap, ltb, Option, none, some, List, [], ◌∷◌, arith, All,
  All_mono, Bool-cases, inl, inr,
}
use metal_graph.Heap.{Heap, Arena, arena_counted}
use metal_graph.Heap.Counting.{word32, live_of_refs}
use metal_graph.Heap.Refs.{arena, ref_count, HeapKept-trans, Grown, retain_ref, retain_ref-Grown}
use metal_graph.Heap.RefLists.{Grown-refl}
use metal_graph.Graph.{Graph, arena_refs}
use metal_graph.Graph.Holding.{Ends, Ends-bind}
use metal_graph.Workspace.{
  WorkspaceRecord, WorkspacePlan, empty_plan, plan_nodes, attach_arena, attach, plan_workspace,
}
use metal_graph.Workspace.Layout.{LaidOut, LaidOut-within, LaidOut-Disjoint, Disjoint, demands}
use metal_graph.Workspace.Plan.{Planned, PlannedFrom, WordNodes, OrderWithin, plan_nodes-Ends}

-- The plan fits the arena at the address.
pub record FitsArena (h : Heap) (p : ℕ) (plan : WorkspacePlan) : Type 0 where
  pub target : Arena
  pub live : h.arenas p ≡ some target
  pub size : plan.total_size ≤ target.size
  pub alignment : plan.alignment ≤ target.alignment

abbrev pub ArenaServes : Heap → Option ℕ → WorkspacePlan → Type 0
ArenaServes h none plan = Unit {0}
ArenaServes h (some p) plan = FitsArena h p plan

-- A finished plan of a graph: `demanded` is what its nodes ask, in order.
pub record PlannedFor (g : Graph) (order : List ℕ) (h : Heap) (plan : WorkspacePlan) (k : Heap)
    : Type 0 where
  pub laid : LaidOut 0 (demands g.nodes order) plan.records plan.total_size
  pub within : All (λ (r : WorkspaceRecord). r.offset + r.size ≤ plan.total_size) plan.records
  pub disjoint : Disjoint plan.records
  pub covers : All (λ (r : WorkspaceRecord). r.alignment ≤ plan.alignment) plan.records
  pub arena : plan.arena ≡ g.arena
  pub serves : ArenaServes h g.arena plan
  pub heap : Grown (arena_refs g.arena) h k

-- The arena was there before, and has kept its size and alignment.
arena_before :
    (h k : Heap) (p : ℕ) (a : Arena)
    → Grown [] h k
    → k.arenas p ≡ some a
    → (b : Arena) × (h.arenas p ≡ some b) × (b.size ≡ a.size) × (b.alignment ≡ a.alignment)
arena_before h k p a same e =
    let (b, live, with) = same.kept.arenas p a e in
    (b, live, ap (λ (x : Arena). x.size) with, ap (λ (x : Arena). x.alignment) with)

module _ (g : Graph) (order : List ℕ) (plan : WorkspacePlan) (h k : Heap)
    (p : Planned (demands g.nodes order) plan) (same : Grown [] h k) where
  inside : All (λ (r : WorkspaceRecord). r.offset + r.size ≤ plan.total_size) plan.records
  inside =
      All_mono _ _ (λ r q. q.1) plan.records
        (LaidOut-within 0 (demands g.nodes order) plan.records plan.total_size p.laid).1

  apart : Disjoint plan.records
  apart = LaidOut-Disjoint 0 (demands g.nodes order) plan.records plan.total_size p.laid

  plain : g.arena ≡ none → PlannedFor g order h plan k
  plain e = record {
    laid = p.laid;
    within = inside;
    disjoint = apart;
    covers = p.covers;
    arena = p.no_arena ∙ sym e;
    serves = rw e tt;
    heap = rw e same;
  }

  attached :
      (q : ℕ) (a : Arena) (k' : Heap)
      → g.arena ≡ some q
      → k.arenas q ≡ some a
      → plan.total_size ≤ a.size
      → plan.alignment ≤ a.alignment
      → Grown (arena q ∷ []) k k'
      → PlannedFor g order h (record plan { arena = some q }) k'
  attached q a k' e at size align one =
      let (b, was, size_is, align_is) = arena_before h k q a same at in
      record {
        laid = p.laid;
        within = inside;
        disjoint = apart;
        covers = p.covers;
        arena = sym e;
        serves =
            rw e (record { target = b; live = was; size = omega arith; alignment = omega arith });
        heap = rw e (record {
          counts = λ r. omega (arith, same.counts r, one.counts r);
          kept = HeapKept-trans same.kept one.kept;
        });
      }

  attach_arena-Ends :
      (q : ℕ) (a : Arena)
      → g.arena ≡ some q
      → k.arenas q ≡ some a
      → 0 < ref_count h (arena q)
      → ref_count h (arena q) + 1 < word32
      → Ends (PlannedFor g order h) (Grown [] h) (attach_arena q (some a) plan k)
  unfolding attach_arena retain_ref
  attach_arena-Ends q a e at live fits = elim (Bool-cases (ltb a.size plan.total_size)) [
    | inl big ↦ rw big same
    | inr size ↦ rw size (elim (Bool-cases (ltb a.alignment plan.alignment)) [
      | inl bad ↦ rw bad same
      | inr align ↦
          let (k', retained, one) =
            retain_ref-Grown (arena q) k (omega (arith, same.counts (arena q)))
              (omega (arith, same.counts (arena q))) in
          rw (align, retained) (attached q a k' e at (ground arith) (ground arith) one)
    ])
  ]

  attach-Ends :
      (o : Option ℕ)
      → g.arena ≡ o
      → All (λ r. 0 < ref_count h r) (arena_refs o)
      → All (λ r. ref_count h r + 1 < word32) (arena_refs o)
      → Ends (PlannedFor g order h) (Grown [] h) (attach o plan k)
  unfolding attach
  attach-Ends none e live fits = plain e
  attach-Ends (some q) e live fits =
      let (a, at, _) = live_of_refs (k.arenas q) (omega (arith, same.counts (arena q), live.0)) in
      rw (at, attach) (attach_arena-Ends q a e at live.0 fits.0)

-- mg_graph_plan_workspace, for an order that names nodes of the graph: it never faults. It fails with
-- all counts as they were, or its records serve the demands of the nodes in order, each range from the
-- end of the one before, rounded up to its alignment and within a word; no two ranges overlap and all
-- end within the total; the plan fits the attached arena in size and alignment, and holds one
-- reference to it.
pub plan_workspace-Ends :
    (g : Graph) (order : List ℕ) (h : Heap)
    → WordNodes g.nodes
    → OrderWithin g.nodes order
    → All (λ r. 0 < ref_count h r) (arena_refs g.arena)
    → All (λ r. ref_count h r + 1 < word32) (arena_refs g.arena)
    → Ends (PlannedFor g order h) (Grown [] h) (plan_workspace g order h)
unfolding plan_workspace
plan_workspace-Ends g order h words within live fits =
    Ends-bind (PlannedFrom h (demands g.nodes order)) (PlannedFor g order h) (Grown [] h)
      (plan_nodes g.nodes order empty_plan h) (attach g.arena)
      (plan_nodes-Ends [] g.nodes order empty_plan h h words within
        (record { laid = refl; covers = tt; no_arena = refl }) (Grown-refl h))
      λ plan k (p, same). attach-Ends g order plan h k p same g.arena refl live fits
