-- ===== src/Topology/Validate.antt =====
-- mgGraphValidate of src/core/graph.c with its three allocations, on the graphs that its other
-- functions build.
use metal_graph.Base.{
  ℕ, suc, ◌+◌, ◌^◌, ◌≤◌, ◌<◌, ◌≡◌, ◌↔◌, ◌⊎◌, inl, inr, refl, sym, ap, ◌∙◌, true, false, ◌==◌,
  Option, none, some, List, [], ◌∷◌, length, arith, Bool-cases,
}
use metal_graph.Types.{Stage}
use metal_graph.Outcome.{Outcome, done, failed, oom_at}
use metal_graph.Heap.{Heap, malloc}
use metal_graph.Node.{Edge}
use metal_graph.Topology.{topological_sort, topological_order, graph_validate, cycle_found}
use metal_graph.Topology.Start.{InRange}
use metal_graph.Topology.Order.{IsTopological, Ranks, position-Ranks}
use metal_graph.Graph.{Graph, State, is_given}
use metal_graph.Graph.Reach.{Reach-Invariant, new_graph, new_graph-Invariant, reach_sort-cases}
use metal_graph.Graph.Step.{Reach}
use metal_graph.Heap.Memory.{OnlyCalls}
use metal_graph.Heap.Refs.{ref_count}

-- One of the next three answers of the allocator is NULL.
pub record OutOfMemory (h : Heap) : Type 0 where
  pub call : ℕ
  pub from : h.calls ≤ call
  pub below : call < h.calls + 3
  pub is_null : h.answers call ≡ none

-- The three results of mgGraphValidate.
pub data Validated (g : Graph) (h : Heap) (r : Outcome (Unit {0}) × Heap) : Type 0 where
  valid :
      (k : Heap) (rank : ℕ → ℕ)
      → r ≡ (done tt, k)
      → OnlyCalls h k
      → Ranks g.edges rank
      → Validated g h r
  cyclic :
      (k : Heap)
      → r ≡ (failed cycle_found, k)
      → OnlyCalls h k
      → ((rank : ℕ → ℕ) → ¬ Ranks g.edges rank)
      → Validated g h r
  no_memory :
      (k : Heap)
      → r ≡ (failed (oom_at Stage.validate), k)
      → OnlyCalls h k
      → OutOfMemory h
      → Validated g h r

-- Without nodes there are no edges.
Ranks-none : (es : List Edge) → InRange 0 es → Ranks es (λ v. v)
Ranks-none [] range = tt
Ranks-none (e ∷ es) range = absurd (omega (arith, range.0))

is_null_of : {A : Type 0} (o : Option A) → is_given o ≡ false → o ≡ none
is_null_of none h = refl
is_null_of (some a) h = cc

-- What the sort of a graph in order says.
abbrev Sorts : Graph → Type 0
Sorts g =
    ((order : List ℕ) × (topological_sort (length g.nodes) g.edges ≡ done order)
      × IsTopological (length g.nodes) g.edges order)
    ⊎ ((topological_sort (length g.nodes) g.edges ≡ failed cycle_found)
        × ((rank : ℕ → ℕ) → ¬ Ranks g.edges rank))

after_memory :
    (g : Graph) (h : Heap)
    → InRange (length g.nodes) g.edges
    → Sorts g
    → (length g.nodes == 0) ≡ false
    → is_given (h.answers h.calls) ≡ true
    → is_given (h.answers (suc h.calls)) ≡ true
    → is_given (h.answers (suc (suc h.calls))) ≡ true
    → Validated g h (graph_validate g h)
unfolding graph_validate topological_order malloc
after_memory g h range (inl (order, e, top)) some_nodes a b c =
    valid (record h { calls = suc (suc (suc h.calls)) }) _ (rw (some_nodes, a, b, c, e))
      (record { calls = _; same = refl }) (position-Ranks (length g.nodes) g.edges order range top)
after_memory g h range (inr (e, none_grows)) some_nodes a b c =
    cyclic (record h { calls = suc (suc (suc h.calls)) }) (rw (some_nodes, a, b, c, e))
      (record { calls = _; same = refl }) none_grows

null_at :
    (h : Heap) (c : ℕ)
    → h.calls ≤ c
    → c < h.calls + 3
    → is_given (h.answers c) ≡ false
    → OutOfMemory h
null_at h c from below e = record {
  call = c;
  from = from;
  below = below;
  is_null = is_null_of (h.answers c) e;
}

graph_validate-cases :
    (g : Graph) (h : Heap)
    → InRange (length g.nodes) g.edges
    → Sorts g
    → Validated g h (graph_validate g h)
unfolding graph_validate topological_order malloc
graph_validate-cases g h range sorts = elim (Bool-cases (length g.nodes == 0)) [
  | inl empty ↦
      let no_nodes : length g.nodes ≡ 0 = ground arith in
      valid h _ (rw empty) (record { calls = h.calls; same = refl })
        (Ranks-none g.edges (rw no_nodes at range))
  | inr some_nodes ↦ elim (Bool-cases (is_given (h.answers h.calls))) [
    | inl a ↦ elim (Bool-cases (is_given (h.answers (suc h.calls)))) [
      | inl b ↦ elim (Bool-cases (is_given (h.answers (suc (suc h.calls))))) [
        | inl c ↦ after_memory g h range sorts some_nodes a b c
        | inr c ↦
            no_memory (record h { calls = suc (suc (suc h.calls)) }) (rw (some_nodes, a, b, c))
              (record { calls = _; same = refl })
              (null_at h (suc (suc h.calls)) (omega arith) (omega arith) c)
      ]
      | inr b ↦
          no_memory (record h { calls = suc (suc (suc h.calls)) }) (rw (some_nodes, a, b))
            (record { calls = _; same = refl })
            (null_at h (suc h.calls) (omega arith) (omega arith) b)
    ]
    | inr a ↦
        no_memory (record h { calls = suc h.calls }) (rw (some_nodes, a))
          (record { calls = _; same = refl }) (null_at h h.calls (omega arith) (omega arith) a)
  ]
]

-- mgGraphValidate, of a graph that was built by any run of calls and whose array of edges has fewer
-- than 2^63 places: it ends without a fault, and changes nothing but the allocator. It returns
-- MG_STATUS_OK and some rank of the nodes grows along all edges, or it reports a cycle and none
-- does, or it reports that it is out of memory and one of the next three answers of the allocator is
-- NULL.
pub reach_validate-cases :
    (p : ℕ) (h : Heap) (t : State)
    → Reach (new_graph p h) t
    → t.graph.edge_capacity < 2 ^ 63
    → Validated t.graph t.heap (graph_validate t.graph t.heap)
reach_validate-cases p h t run bound =
    let inv = Reach-Invariant (ref_count h) (new_graph p h) t (new_graph-Invariant p h) run in
    graph_validate-cases t.graph t.heap inv.formed.range (reach_sort-cases p h t run bound)

-- The next three answers of the allocator are addresses.
abbrev pub MemoryForThree : Heap → Type 0
MemoryForThree h = (c : ℕ) → h.calls ≤ c → c < h.calls + 3 → is_given (h.answers c) ≡ true

-- With memory for its three arrays, mgGraphValidate accepts a graph that was built by any run of
-- calls, and whose array of edges has fewer than 2^63 places, exactly if it has no cycle.
pub reach_validate_iff :
    (p : ℕ) (h : Heap) (t : State)
    → Reach (new_graph p h) t
    → t.graph.edge_capacity < 2 ^ 63
    → MemoryForThree t.heap
    → ((graph_validate t.graph t.heap).0 ≡ done tt) ↔ ((rank : ℕ → ℕ) × Ranks t.graph.edges rank)
reach_validate_iff p h t run bound memory =
    go t.heap t.graph (graph_validate t.graph t.heap) memory (reach_validate-cases p h t run bound)
  where
    go :
        (k : Heap) (g : Graph) (r : Outcome (Unit {0}) × Heap)
        → MemoryForThree k
        → Validated g k r
        → (r.0 ≡ done tt) ↔ ((rank : ℕ → ℕ) × Ranks g.edges rank)
    go k g r m (valid k' rank e same ranks) = ((λ _. (rank, ranks)), (λ _. ap (λ x. x.0) e))
    go k g r m (cyclic k' e same none_grows) = (
      (λ ok. let both = sym (ap (λ x. x.0) e) ∙ ok in cc),
      (λ ranked. absurd (none_grows ranked.0 ranked.1)),
    )
    go k g r m (no_memory k' e same out) =
        let given = m out.call out.from out.below in let null = out.is_null in cc
