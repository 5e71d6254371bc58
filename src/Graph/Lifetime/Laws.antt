-- ===== src/Graph/Lifetime/Laws.antt =====
-- The destruction of a graph gives back exactly the references that it holds; mgGraphSetArena moves
-- one reference.
use metal_graph.Base.{
  ℕ, ◌+◌, ◌<◌, ◌≡◌, ◌≢◌, refl, ap, ◌∙◌, true, Option, none, some, [], ◌∷◌, ◌++◌, arith, All,
  Bool-cases, inl, inr, ==_iff,
}
use metal_graph.Heap.{Heap, arena_release, arena_retain}
use metal_graph.Heap.Counting.{word32}
use metal_graph.Heap.Refs.{
  Ref, arena, ref_count, count, HeapKept, Grown, Shrunk, retain_ref, retain_ref-Grown,
}
use metal_graph.Heap.RefLists.{count-append, release_all-Shrunk}
use metal_graph.Graph.{State, arena_refs, nodes_refs, graph_refs, touch, lift}
use metal_graph.Graph.Holding.{Ends, Holding, Holding-refl}
use metal_graph.Graph.Invariant.{IsBalanced, Invariant}
use metal_graph.Graph.Lifetime.{graph_destroy, set_arena, replace_arena, same_pointer}
use metal_graph.Graph.Lifetime.Releases.{arena_release-all, graph_destroy-all}

-- mgGraphDestroy, where the counts are those of the references from outside and of the graph's own:
-- it never touches a dead object, afterwards the counts are those of the references from outside, and
-- no object has changed but for its count, or its end with the last reference.
pub graph_destroy-counts :
    (outside : Ref → ℕ) (s : State)
    → IsBalanced outside s
    → (k : Heap) × (graph_destroy s.graph s.heap ≡ some k)
      × ((r : Ref) → ref_count k r ≡ outside r)
      × HeapKept s.heap k
graph_destroy-counts outside s balanced =
    let g = s.graph in
    let (k, e, shrunk) =
      release_all-Shrunk (nodes_refs g.nodes ++ arena_refs g.arena) s.heap
        λ r. omega (arith, balanced r, both r) in
    (
      k,
      graph_destroy-all g s.heap ∙ e,
      (λ r. omega (arith, balanced r, both r, shrunk.counts r)),
      shrunk.kept,
    )
  where
    both :
        (r : Ref)
        → count r (nodes_refs s.graph.nodes ++ arena_refs s.graph.arena)
          ≡ count r (graph_refs s.graph)
    both r = omega (
      arith,
      count-append r (nodes_refs s.graph.nodes) (arena_refs s.graph.arena),
      count-append r (arena_refs s.graph.arena) (nodes_refs s.graph.nodes),
    )

-- The graph has the arena, and is otherwise as before.
pub record ArenaSet (desc : Option ℕ) (s t : State) : Type 0 where
  pub given : desc ≢ none
  pub arena : t.graph.arena ≡ desc
  pub nodes : t.graph.nodes ≡ s.graph.nodes
  pub edges : t.graph.edges ≡ s.graph.edges

same_pointer-eq : (o : Option ℕ) (p : ℕ) → same_pointer o (some p) ≡ true → o ≡ some p
unfolding same_pointer
same_pointer-eq none p h = cc
same_pointer-eq (some q) p h = ap some ((==_iff q p).0 h)

arena-Invariant :
    (outside : Ref → ℕ) (p : ℕ) (s : State) (k : Heap)
    → Invariant outside s
    → ((r : Ref)
        → ref_count k r + count r (arena_refs s.graph.arena)
          ≡ ref_count s.heap r + count r (arena_refs (some p)))
    → Invariant outside (record { heap = k; graph = record s.graph { arena = some p } })
arena-Invariant outside p s k inv counts =
    let f = inv.formed in
    record {
      formed = record {
        numbered = f.numbered;
        range = f.range;
        loop_free = f.loop_free;
        distinct = f.distinct;
        node_room = f.node_room;
        edge_room = f.edge_room;
      };
      balanced = λ r. omega (
        arith,
        counts r,
        inv.balanced r,
        count-append r (arena_refs s.graph.arena) (nodes_refs s.graph.nodes),
        count-append r (arena_refs (some p)) (nodes_refs s.graph.nodes),
      );
    }

-- The old arena, retained by the graph, can be released after the new one was retained.
old_arena_release :
    (outside : Ref → ℕ) (p : ℕ) (s : State) (h : Heap)
    → Invariant outside s
    → Grown (arena p ∷ []) s.heap h
    → (k : Heap) × (arena_release s.graph.arena h ≡ some k) × Shrunk (arena_refs s.graph.arena) h k
old_arena_release outside p s h inv one =
    let (k, e, shrunk) = release_all-Shrunk (arena_refs s.graph.arena) h λ r. omega (
      arith,
      one.counts r,
      inv.balanced r,
      count-append r (arena_refs s.graph.arena) (nodes_refs s.graph.nodes),
    ) in
    (k, arena_release-all s.graph.arena h ∙ e, shrunk)

-- mgGraphSetArena, with an arena that is live and whose counter has room: it never touches a dead
-- object. It fails with the graph and the counts as they were, or the graph has the arena, and the
-- counts are again those of the references from outside and of the graph's own, so the former arena
-- has lost the graph's reference.
pub set_arena-Ends :
    (outside : Ref → ℕ) (p : Option ℕ) (s : State)
    → Invariant outside s
    → All (λ r. 0 < ref_count s.heap r) (arena_refs p)
    → All (λ r. ref_count s.heap r + 1 < word32) (arena_refs p)
    → Ends (λ (_ : Unit {0}) t. ArenaSet p s t × Invariant outside t) (Holding [] s) (set_arena p s)
unfolding set_arena replace_arena retain_ref
set_arena-Ends outside none s inv live fits = Holding-refl s
set_arena-Ends outside (some p) s inv live fits =
    elim (Bool-cases (same_pointer s.graph.arena (some p))) [
      | inl same ↦ rw same (
        record {
          given = λ e. cc;
          arena = same_pointer-eq s.graph.arena p same;
          nodes = refl;
          edges = refl;
        },
        inv,
      )
      | inr other ↦
          let (h, e, one) = retain_ref-Grown (arena p) s.heap live.0 fits.0 in
          let (k, e', shrunk) = old_arena_release outside p s h inv one in
          let e2 : arena_retain (some p) s.heap ≡ some h = e in
          rw (other, replace_arena, touch, lift, e2, e')
            (
              record { given = λ e. cc; arena = refl; nodes = refl; edges = refl },
              arena-Invariant outside p s k inv (λ r. omega (arith, one.counts r, shrunk.counts r)),
            )
    ]
