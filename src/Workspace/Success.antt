-- ===== src/Workspace/Success.antt =====
-- mg_graph_plan_workspace of src/core/arena.c succeeds where it can.
use metal_graph.Base.{
  ℕ, ◌+◌, ◌%◌, ◌^◌, ◌≤◌, ◌<◌, ◌≡◌, refl, ◌∙◌, ap, false, ltb, Option, none, some, List, length,
  arith, All, word64,
}
use metal_graph.Outcome.{done}
use metal_graph.Heap.{Heap, Arena, arena_retain, arena_counted}
use metal_graph.Heap.Counting.{retain, update, word32}
use metal_graph.Heap.Memory.{OnlyCalls, HasAnswers}
use metal_graph.Graph.{Graph}
use metal_graph.Workspace.{WorkspacePlan, attach_arena, attach, plan_workspace, empty_plan}
use metal_graph.Workspace.Layout.{demands}
use metal_graph.Workspace.Plan.{OrderWithin}
use metal_graph.Workspace.Budget.{SoundWithin, budget, plan_nodes-Succeeds}

-- The arena that is attached, if there is one, has room for the budget and the alignment.
abbrev pub HasSpace : Heap → Option ℕ → ℕ → ℕ → Type 0
HasSpace h none limit bytes = Unit {0}
HasSpace h (some p) limit bytes =
    (a : Arena) × (h.arenas p ≡ some a) × (limit ≤ a.alignment) × (bytes ≤ a.size)

pub HasSpace-le :
    (h : Heap) (o : Option ℕ) (limit bytes more : ℕ)
    → bytes ≤ more
    → HasSpace h o limit more
    → HasSpace h o limit bytes
HasSpace-le h none limit bytes more le space = space
HasSpace-le h (some p) limit bytes more le (a, at, wide, long) = (a, at, wide, omega arith)

attach-done :
    (o : Option ℕ) (limit bytes : ℕ) (plan : WorkspacePlan) (h k : Heap)
    → OnlyCalls h k
    → HasSpace h o limit bytes
    → plan.total_size ≤ bytes
    → plan.alignment ≤ limit
    → (result : WorkspacePlan) × (l : Heap) × (attach o plan k ≡ (done result, l))
unfolding attach attach_arena arena_retain retain
attach-done none limit bytes plan h k same space total align = (plan, k, refl)
attach-done (some p) limit bytes plan h k same (a, at, wide, long) total align =
    let at_k : k.arenas p ≡ some a = ap (λ (x : Heap). x.arenas p) same.same ∙ at in
    let long_enough : ltb a.size plan.total_size ≡ false = ground arith in
    let wide_enough : ltb a.alignment plan.alignment ≡ false = ground arith in
    (
      record plan { arena = some p },
      record k {
        arenas = update k.arenas p (some (record a { ref_count = (a.ref_count + 1) % word32 }));
      },
      rw (at_k, attach, long_enough, wide_enough, at_k),
    )

-- mg_graph_plan_workspace succeeds on an order that names nodes of the graph, if every demand is
-- nonzero with a power of two as alignment, the sum of all sizes and alignments fits a word and the
-- attached arena, no alignment exceeds the arena's, there are fewer than 2^58 nodes, and the allocator
-- never answers NULL.
pub plan_workspace-succeeds :
    (g : Graph) (order : List ℕ) (h : Heap) (limit : ℕ)
    → HasAnswers h
    → OrderWithin g.nodes order
    → All (SoundWithin limit) (demands g.nodes order)
    → length order < 2 ^ 58
    → budget (demands g.nodes order) < word64
    → HasSpace h g.arena limit (budget (demands g.nodes order))
    → (plan : WorkspacePlan) × (k : Heap) × (plan_workspace g order h ≡ (done plan, k))
unfolding plan_workspace
plan_workspace-succeeds g order h limit answers within sound few fits space =
    let all =
      plan_nodes-Succeeds limit g.nodes order empty_plan h answers within sound (omega arith)
        (omega arith) in
    rw all.is_done (
      attach-done g.arena limit (budget (demands g.nodes order)) all.result h all.heap
        all.only_calls space (let t = all.total in omega arith) (all.alignment (omega arith)))
