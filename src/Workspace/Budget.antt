-- ===== src/Workspace/Budget.antt =====
-- When the first loop of mg_graph_plan_workspace in src/core/arena.c succeeds: a budget of bytes.
use metal_graph.Base.{
  ℕ, suc, ◌+◌, ◌-◌, ◌/◌, ◌^◌, ◌≤◌, ◌<◌, ◌≡◌, refl, true, false, ◌==◌, ltb, leb, Option, none, some,
  List, [], ◌∷◌, length, length-append, get_elem?_of_lt, arith, All, word64, inl, inr,
}
use metal_graph.Outcome.{Outcome, done, after}
use metal_graph.Align.{alignment_valid}
use metal_graph.Align.Laws.{align_up_size_lem}
use metal_graph.Arena.{workspace_desc_validate}
use metal_graph.Heap.{Heap, malloc, arena_counted}
use metal_graph.Heap.Memory.{
  OnlyCalls, OnlyCalls-refl, OnlyCalls-trans, HasAnswers, OnlyCalls-HasAnswers,
}
use metal_graph.Node.{Node}
use metal_graph.Workspace.{
  WorkspacePlan, Demand, place, place_in, append_at, plan_append, node_demand, plan_demand,
  plan_nodes,
}
use metal_graph.Workspace.Layout.{demands, prepend}
use metal_graph.Workspace.Plan.{OrderWithin}

-- What each of the two descriptor tests of a demand wants.
pub record IsSound (d : Demand) : Type 0 where
  pub pos : 0 < d.size
  pub aligned : alignment_valid d.alignment ≡ true

-- No plan of the demands needs more bytes than this.
abbrev pub budget : List Demand → ℕ
budget [] = 0
budget (d ∷ ds) = d.size + d.alignment + budget ds

-- The call succeeds, and the plan has grown by at most `bytes` bytes and `more` records; its alignment
-- is within a bound that the demands keep.
pub record Succeeds (limit bytes more : ℕ) (plan : WorkspacePlan) (h : Heap)
    (r : Outcome WorkspacePlan × Heap) : Type 0 where
  pub result : WorkspacePlan
  pub heap : Heap
  pub is_done : r ≡ (done result, heap)
  pub total : result.total_size ≤ plan.total_size + bytes
  pub records : length result.records ≤ length plan.records + more
  pub alignment : plan.alignment ≤ limit → result.alignment ≤ limit
  pub only_calls : OnlyCalls h heap

append_at-Succeeds :
    (limit : ℕ) (plan : WorkspacePlan) (d : Demand) (offset : ℕ) (h : Heap)
    → HasAnswers h
    → d.alignment ≤ limit
    → length plan.records < 2 ^ 58
    → offset < plan.total_size + d.alignment
    → plan.total_size + d.size + d.alignment < word64
    → Succeeds limit
        (d.size + d.alignment)
        1
        plan
        h
        (append_at plan d.node_id d.size d.alignment (some offset) h)
unfolding append_at place_in place malloc
append_at-Succeeds limit plan d offset h answers align few near fits =
    let over : ltb (word64 - 1 - d.size) offset ≡ false = ground arith in
    let many : leb ((word64 - 1) / 32) (length plan.records) ≡ false = ground arith in
    let (p, e) = answers h.calls in
    record {
      result = place plan d.node_id d.size d.alignment offset;
      heap = (malloc h).1;
      is_done = rw (over, many, e);
      total = omega arith;
      records = omega (arith, length-append {0} plan.records);
      alignment = λ b. ground arith;
      only_calls = record { calls = suc h.calls; same = refl };
    }

plan_demand-Succeeds :
    (limit : ℕ) (plan : WorkspacePlan) (d : Demand) (h : Heap)
    → HasAnswers h
    → IsSound d
    → d.alignment ≤ limit
    → length plan.records < 2 ^ 58
    → plan.total_size + d.size + d.alignment < word64
    → Succeeds limit (d.size + d.alignment) 1 plan h (plan_demand (some d) plan h)
unfolding plan_demand plan_append workspace_desc_validate append_at
plan_demand-Succeeds limit plan d h answers sound align few fits =
    let pos = sound.pos in
    let some_bytes : (d.size == 0) ≡ false = ground arith in
    rw (some_bytes, sound.aligned)
      (elim (align_up_size_lem plan.total_size d.alignment (omega arith) sound.aligned) [
        | inl (over, _) ↦ absurd (omega arith)
        | inr (offset, e, rounds) ↦
            let near = rounds.least in
            rw e (append_at-Succeeds limit plan d offset h answers align few near fits)
      ])

-- All demands are sound, and ask for no larger alignment than the limit.
abbrev pub SoundWithin : ℕ → Demand → Type 0
SoundWithin limit d = IsSound d × (d.alignment ≤ limit)

-- A node with or without a demand.
plan_node-Succeeds :
    (limit : ℕ) (plan : WorkspacePlan) (o : Option Demand) (ds : List Demand) (h : Heap)
    → HasAnswers h
    → All (SoundWithin limit) (prepend o ds)
    → length plan.records < 2 ^ 58
    → plan.total_size + budget (prepend o ds) < word64
    → (bytes : ℕ) × Succeeds limit bytes 1 plan h (plan_demand o plan h)
      × (bytes + budget ds ≡ budget (prepend o ds))
      × All (SoundWithin limit) ds
unfolding plan_demand
plan_node-Succeeds limit plan none ds h answers sound few fits = (
  0,
  record {
    result = plan;
    heap = h;
    is_done = refl;
    total = omega arith;
    records = omega arith;
    alignment = λ b. b;
    only_calls = OnlyCalls-refl h;
  },
  omega arith,
  sound,
)
plan_node-Succeeds limit plan (some d) ds h answers sound few fits = (
  d.size + d.alignment,
  plan_demand-Succeeds limit plan d h answers sound.0.0 sound.0.1 few (omega arith),
  omega arith,
  sound.1,
)

-- The first node was placed, and the rest of the order follows.
plan_rest :
    (limit : ℕ) (nodes : List Node) (order : List ℕ) (plan : WorkspacePlan) (o : Option Demand)
    (h : Heap)
    → ((bytes : ℕ) × Succeeds limit bytes 1 plan h (plan_demand o plan h)
        × (bytes + budget (demands nodes order) ≡ budget (prepend o (demands nodes order)))
        × All (SoundWithin limit) (demands nodes order))
    → plan.total_size + budget (prepend o (demands nodes order)) < word64
    → ((p : WorkspacePlan) (k : Heap)
        → OnlyCalls h k
        → length p.records ≤ length plan.records + 1
        → p.total_size + budget (demands nodes order) < word64
        → All (SoundWithin limit) (demands nodes order)
        → Succeeds limit
            (budget (demands nodes order))
            (length order)
            p
            k
            (plan_nodes nodes order p k))
    → Succeeds limit
        (budget (prepend o (demands nodes order)))
        (suc (length order))
        plan
        h
        (after (plan_demand o plan h) (plan_nodes nodes order))
plan_rest limit nodes order plan o h (bytes, one, split, sound) fits next =
    let total = one.total in
    let records = one.records in
    let rest = next one.result one.heap one.only_calls records (omega arith) sound in
    rw one.is_done (record {
      result = rest.result;
      heap = rest.heap;
      is_done = rest.is_done;
      total = let t = rest.total in omega arith;
      records = let m = rest.records in omega arith;
      alignment = λ b. rest.alignment (one.alignment b);
      only_calls = OnlyCalls-trans one.only_calls rest.only_calls;
    })

pub plan_nodes-Succeeds :
    (limit : ℕ) (nodes : List Node) (order : List ℕ) (plan : WorkspacePlan) (h : Heap)
    → HasAnswers h
    → OrderWithin nodes order
    → All (SoundWithin limit) (demands nodes order)
    → length plan.records + length order < 2 ^ 58
    → plan.total_size + budget (demands nodes order) < word64
    → Succeeds limit
        (budget (demands nodes order))
        (length order)
        plan
        h
        (plan_nodes nodes order plan h)
unfolding plan_nodes demands
plan_nodes-Succeeds limit nodes [] plan h answers within sound few fits = record {
  result = plan;
  heap = h;
  is_done = refl;
  total = omega arith;
  records = omega arith;
  alignment = λ b. b;
  only_calls = OnlyCalls-refl h;
}
plan_nodes-Succeeds limit nodes (i ∷ order) plan h answers within sound few fits =
    let (n, e) = get_elem?_of_lt nodes i within.0 in
    let asked = node_demand n.id n.payload in
    let sound' : All (SoundWithin limit) (prepend asked (demands nodes order)) =
      rw (e, demands) at sound in
    let fits' : plan.total_size + budget (prepend asked (demands nodes order)) < word64 =
      rw (e, demands) at fits in
    rw (e, plan_nodes, demands)
      (plan_rest limit nodes order plan asked h
        (plan_node-Succeeds limit plan asked (demands nodes order) h answers sound' (omega arith)
          fits')
        fits'
        λ p k same few' room rest_sound.
          plan_nodes-Succeeds limit nodes order p k (OnlyCalls-HasAnswers same answers) within.1
            rest_sound (omega arith) room)
