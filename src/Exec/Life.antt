-- ===== src/Exec/Life.antt =====
-- The life of an executable: calls of src/core/patch.c that change it, and mgGraphExecDestroy of
-- src/metal/metal_backend.mm.
use metal_graph.Base.{ap, ℕ, ◌+◌, ◌<◌, ◌≡◌, ◌∙◌, some, arith, ltb, Bool-cases, inl, inr}
use metal_graph.Outcome.{Outcome, done, failed, fault}
use metal_graph.Heap.{Heap}
use metal_graph.Heap.Counting.{word32}
use metal_graph.Heap.Refs.{Ref, ref_count, count, HeapKept, HeapKept-refl, HeapKept-trans}
use metal_graph.Heap.RefLists.{release_all-Shrunk, count-append}
use metal_graph.Graph.Holding.{Ends}
use metal_graph.Graph.Checks.{IsLive}
use metal_graph.Flags.{only_flags, optimization_icb}
use metal_graph.Exec.{Exec, ExecState, exec_refs, when_ready}
use metal_graph.Exec.Patch.{Request, patch, set_optimization_flags}
use metal_graph.Exec.Balance.{request_refs}
use metal_graph.Exec.Laws.{Patched, patch-Ends}
use metal_graph.Graph.{arena_refs}
use metal_graph.Workspace.{WorkspacePlan}
use metal_graph.Exec.Destroy.{owned_refs, graph_exec_destroy, graph_exec_destroy-all}

-- The calls that change an executable, whatever they return. A buffer that a patch brings in is live,
-- and its counter has room.
pub data Calls (s : ExecState) : ExecState → Type 0 where
  start : Calls s s
  patched :
      {t : ExecState} (id : ℕ) (request : Request)
      → Calls s t
      → IsLive t.heap (request_refs request)
      → ((r : Ref) → ref_count t.heap r + count r (request_refs request) < word32)
      → Calls s (patch id request t).1
  flagged : {t : ExecState} (flags : ℕ) → Calls s t → Calls s (set_optimization_flags flags t).1

-- The executable holds the references of its nodes and of its plan, and `outside` counts all others.
record Owned (outside : Ref → ℕ) (h : Heap) (t : ExecState) : Type 0 where
  counts : (r : Ref) → ref_count t.heap r ≡ outside r + count r (owned_refs t.exec)
  kept : HeapKept h t.heap

Owned-Patched :
    (outside : Ref → ℕ) (h : Heap) (id : ℕ) (t : ExecState) (r : Outcome (Unit {0}) × ExecState)
    → Owned outside h t
    → Ends (λ (_ : Unit {0}) u. Patched id t u) (λ u. u ≡ t) r
    → Owned outside h r.1
Owned-Patched outside h id t (done a, u) o p = record {
  counts = λ r.
      let plan : u.exec.workspace ≡ t.exec.workspace = ap (λ (x : Exec). x.workspace) p.exec_is in
      let same : count r (arena_refs u.exec.workspace.arena)
          ≡ count r (arena_refs t.exec.workspace.arena) =
        ap (λ (x : WorkspacePlan). count r (arena_refs x.arena)) plan in
      omega (
        arith,
        o.counts r,
        p.counts r,
        count-append r (exec_refs u.exec.nodes) (arena_refs u.exec.workspace.arena),
        count-append r (exec_refs t.exec.nodes) (arena_refs t.exec.workspace.arena),
      );
  kept = HeapKept-trans o.kept p.kept;
}
Owned-Patched outside h id t (failed e, u) o same = rw same o
Owned-Patched outside h id t (fault, u) o bad = absurd bad

Owned-flagged :
    (outside : Ref → ℕ) (h : Heap) (flags : ℕ) (t : ExecState)
    → Owned outside h t
    → Owned outside h (set_optimization_flags flags t).1
unfolding set_optimization_flags when_ready
Owned-flagged outside h flags t o = elim (Bool-cases (ltb 0 t.exec.in_flight_count)) [
  | inl busy ↦ rw busy o
  | inr idle ↦ rw idle (elim (Bool-cases (only_flags flags optimization_icb)) [
    | inl only ↦ rw only (record { counts = o.counts; kept = o.kept })
    | inr other ↦ rw other o
  ])
]

Calls-Owned :
    (outside : Ref → ℕ) (s t : ExecState)
    → Owned outside s.heap s
    → Calls s t
    → Owned outside s.heap t
Calls-Owned outside s t o start = o
Calls-Owned outside s _ o (patched {t} id request calls live fits) =
    let owned = Calls-Owned outside s t o calls in
    Owned-Patched outside s.heap id t (patch id request t) owned (
      patch-Ends id request t (record {
        live = live;
        fits = fits;
        held = λ r. omega (
          arith,
          owned.counts r,
          count-append r (exec_refs t.exec.nodes) (arena_refs t.exec.workspace.arena),
        );
      }))
Calls-Owned outside s _ o (flagged {t} flags calls) =
    Owned-flagged outside s.heap flags t (Calls-Owned outside s t o calls)

-- An executable that holds a counted reference for each reference of its nodes, and one to the arena
-- of its plan if it has one, changed by any run of patches and calls of
-- mgGraphExecSetOptimizationFlags, whether they succeed or fail, that bring in only live buffers
-- whose counters have room, and then destroyed: mgGraphExecDestroy never touches a dead object,
-- afterwards the counts are those of the references from outside the executable, and no object has
-- changed but for its count, or its end with the last reference.
pub calls-graph_exec_destroy :
    (outside : Ref → ℕ) (s t : ExecState)
    → ((r : Ref) → ref_count s.heap r ≡ outside r + count r (owned_refs s.exec))
    → Calls s t
    → (k : Heap) × (graph_exec_destroy t.exec t.heap ≡ some k)
      × ((r : Ref) → ref_count k r ≡ outside r)
      × HeapKept s.heap k
calls-graph_exec_destroy outside s t counted calls =
    let owned =
      Calls-Owned outside s t (record { counts = counted; kept = HeapKept-refl s.heap }) calls in
    let (k, e, shrunk) =
      release_all-Shrunk (owned_refs t.exec) t.heap (λ r. omega (arith, owned.counts r)) in
    (
      k,
      graph_exec_destroy-all t.exec t.heap ∙ e,
      (λ r. omega (arith, owned.counts r, shrunk.counts r)),
      HeapKept-trans owned.kept shrunk.kept,
    )
