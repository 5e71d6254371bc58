-- ===== src/Exec/Laws.antt =====
-- The functions of src/core/patch.c as a whole, on every branch.
use metal_graph.Base.{
  ℕ, zero, suc, ◌+◌, ◌≤◌, ◌<◌, ◌≡◌, refl, sym, ap, true, false, ◌==◌, ltb, if◌then◌else◌, Option,
  none, some, List, [], ◌∷◌, get_elem?, set, arith, Bool-cases, inl, inr, subst,
}
use mathlib.Core.Option.{some-injective}
use metal_graph.Outcome.{Outcome, done, failed, fault, node_id_invalid}
use metal_graph.Heap.{Heap}
use metal_graph.Heap.Counting.{word32}
use metal_graph.Heap.Refs.{Ref, ref_count, count, HeapKept}
use metal_graph.Heap.RefLists.{count-append}
use metal_graph.Graph.Holding.{Ends}
use metal_graph.Graph.Checks.{IsLive}
use metal_graph.Exec.{
  ExecNode, ExecState, exec_node_refs, exec_refs, is_patchable, next_place, find_place, write_back,
  apply_at, at_place, with_node, when_ready,
}
use metal_graph.Exec.Patch.{Request, patch, patch_of}
use metal_graph.Exec.Balance.{request_refs, Patches}
use metal_graph.Exec.Balance.Bindings.{patch_of-Patches}

-- The place is that of the first node with the id.
pub record IsPlace (id : ℕ) (ns : List ExecNode) (i : ℕ) : Type 0 where
  pub node : ExecNode
  pub at : get_elem? ns i ≡ some node
  pub has_id : is_patchable id node ≡ true
  pub is_first :
      (j : ℕ) → j < i → (n : ExecNode) → get_elem? ns j ≡ some n → is_patchable id n ≡ false

-- Behind a node with another id.
IsPlace-cons :
    (id : ℕ) (n : ExecNode) (ns : List ExecNode) (o : Option ℕ) (i : ℕ)
    → is_patchable id n ≡ false
    → ((k : ℕ) → o ≡ some k → IsPlace id ns k)
    → next_place o ≡ some i
    → IsPlace id (n ∷ ns) i
IsPlace-cons id n ns none i other found e = cc
IsPlace-cons id n ns (some k) i other found e =
    let rest = found k refl in
    let i_is : suc k ≡ i = some-injective _ _ e in
    rw (← i_is) (record {
      node = rest.node;
      at = rest.at;
      has_id = rest.has_id;
      is_first = earlier rest other;
    })
  where
    earlier :
        IsPlace id ns k
        → is_patchable id n ≡ false
        → (j : ℕ) → j < suc k
        → (m : ExecNode) → get_elem? (n ∷ ns) j ≡ some m
        → is_patchable id m ≡ false
    earlier rest other zero h m e = let m_is : n ≡ m = some-injective _ _ e in rw (← m_is) other
    earlier rest other (suc j) h m e = rest.is_first j (omega arith) m e

pub find_place-IsPlace :
    (id : ℕ) (ns : List ExecNode) (i : ℕ) → find_place id ns ≡ some i → IsPlace id ns i
unfolding find_place
find_place-IsPlace id [] i = λ e. cc
find_place-IsPlace id (n ∷ ns) i = elim (Bool-cases (is_patchable id n)) [
  | inl here ↦ rw here (λ e.
      let i_is : 0 ≡ i = some-injective _ _ e in
      rw (← i_is) (record {
        node = n;
        at = refl;
        has_id = here;
        is_first = λ j h m e'. let bad : ⊥ = omega arith in absurd bad;
      }))
  | inr other ↦
      rw other (IsPlace-cons id n ns (find_place id ns) i other (find_place-IsPlace id ns))
]

-- A node with the same id in its place changes no search.
find_place-set :
    (id : ℕ) (ns : List ExecNode) (i : ℕ) (n m : ExecNode)
    → get_elem? ns i ≡ some n
    → is_patchable id m ≡ is_patchable id n
    → find_place id (set ns i m) ≡ find_place id ns
unfolding find_place
find_place-set id [] i n m at same = refl
find_place-set id (x ∷ ns) zero n m at same =
    let x_is : x ≡ n = some-injective _ _ at in rw (x_is, same) refl
find_place-set id (x ∷ ns) (suc i) n m at same =
    ap (λ o. if is_patchable id x then some 0 else next_place o)
      (find_place-set id ns i n m at same)

exec_refs-set :
    (r : Ref) (ns : List ExecNode) (i : ℕ) (n m : ExecNode)
    → get_elem? ns i ≡ some n
    → count r (exec_refs (set ns i m)) + count r (exec_node_refs n)
      ≡ count r (exec_refs ns) + count r (exec_node_refs m)
exec_refs-set r [] i n m at = cc
exec_refs-set r (x ∷ ns) zero n m at =
    let x_is : x ≡ n = some-injective _ _ at in
    rw x_is (
      omega (
        arith,
        count-append r (exec_node_refs n) (exec_refs ns),
        count-append r (exec_node_refs m) (exec_refs ns),
      ))
exec_refs-set r (x ∷ ns) (suc i) n m at = omega (
  arith,
  exec_refs-set r ns i n m at,
  count-append r (exec_node_refs x) (exec_refs ns),
  count-append r (exec_node_refs x) (exec_refs (set ns i m)),
)

exec_node_refs-le :
    (r : Ref) (ns : List ExecNode) (i : ℕ) (n : ExecNode)
    → get_elem? ns i ≡ some n
    → count r (exec_node_refs n) ≤ count r (exec_refs ns)
exec_node_refs-le r [] i n at = cc
exec_node_refs-le r (x ∷ ns) zero n at =
    let x_is : x ≡ n = some-injective _ _ at in
    rw x_is (omega (arith, count-append r (exec_node_refs n) (exec_refs ns)))
exec_node_refs-le r (x ∷ ns) (suc i) n at =
    omega (arith, exec_node_refs-le r ns i n at, count-append r (exec_node_refs x) (exec_refs ns))

-- One node was replaced: the first with the id, while no launch was in flight.
pub record Patched (id : ℕ) (s t : ExecState) : Type 0 where
  pub idle : s.exec.in_flight_count ≡ 0
  pub place : ℕ
  pub is_place : IsPlace id s.exec.nodes place
  pub new : ExecNode
  pub exec_is : t.exec ≡ record s.exec { nodes = set s.exec.nodes place new }
  pub same_places : (i : ℕ) → find_place i t.exec.nodes ≡ find_place i s.exec.nodes
  pub counts :
      (r : Ref)
      → ref_count t.heap r + count r (exec_refs s.exec.nodes)
        ≡ ref_count s.heap r + count r (exec_refs t.exec.nodes)
  pub kept : HeapKept s.heap t.heap

write_back-Ends :
    (id : ℕ) (s : ExecState) (i : ℕ) (p : IsPlace id s.exec.nodes i) (r : Outcome ExecNode × Heap)
    → s.exec.in_flight_count ≡ 0
    → Patches p.node s.heap r
    → Ends (λ (_ : Unit {0}) t. Patched id s t) (λ t. t ≡ s) (write_back i r s.exec)
write_back-Ends id s i p (done m, h) idle w = record {
  idle = idle;
  place = i;
  is_place = p;
  new = m;
  exec_is = refl;
  same_places = λ j. find_place-set j s.exec.nodes i p.node m p.at (w.same_id j);
  counts = λ r. omega (arith, w.counts r, exec_refs-set r s.exec.nodes i p.node m p.at);
  kept = w.kept;
}
write_back-Ends id s i p (failed e, h) idle w = ap (λ k. record { heap = k; exec = s.exec }) w
write_back-Ends id s i p (fault, h) idle w = absurd w

-- What the caller provides for a patch: the new buffers are live, their counters have room, and the
-- executable holds the references of its nodes.
pub record Provides (request : Request) (s : ExecState) : Type 0 where
  pub live : IsLive s.heap (request_refs request)
  pub fits : (r : Ref) → ref_count s.heap r + count r (request_refs request) < word32
  pub held : (r : Ref) → count r (exec_refs s.exec.nodes) ≤ ref_count s.heap r

at_place-Ends :
    (id : ℕ) (request : Request) (s : ExecState) (o : Option ℕ)
    → find_place id s.exec.nodes ≡ o
    → s.exec.in_flight_count ≡ 0
    → Provides request s
    → Ends
        (λ (_ : Unit {0}) t. Patched id s t)
        (λ t. t ≡ s)
        (at_place id o (patch_of s.exec.device_impl id request) s)
at_place-Ends id request s none e idle c = refl
at_place-Ends id request s (some i) e idle c =
    let p = find_place-IsPlace id s.exec.nodes i e in
    subst
      (λ o.
        Ends (λ (_ : Unit {0}) t. Patched id s t) (λ t. t ≡ s)
          (apply_at i o (patch_of s.exec.device_impl id request) s))
      (sym p.at)
      (write_back-Ends id s i p (patch_of s.exec.device_impl id request p.node s.heap) idle (
        patch_of-Patches s.exec.device_impl id request p.node s.heap c.live c.fits
          (λ r. omega (arith, c.held r, exec_node_refs-le r s.exec.nodes i p.node p.at))))

-- Each patch of an executable, by mgGraphExecPatchDispatchGrid, -DispatchBuffer, -DispatchScalar,
-- -CopyNode, -FillNode or -EventValue, with live new buffers: it never touches a dead object. It fails
-- with the state exactly as it was, or no launch is in flight, only the first node with the id has
-- changed, every id is found where it was, and the change of each object's count is that of the
-- executable's references to it.
pub patch-Ends :
    (id : ℕ) (request : Request) (s : ExecState)
    → Provides request s
    → Ends (λ (_ : Unit {0}) t. Patched id s t) (λ t. t ≡ s) (patch id request s)
unfolding patch when_ready with_node
patch-Ends id request s c = elim (Bool-cases (ltb 0 s.exec.in_flight_count)) [
  | inl busy ↦ rw busy refl
  | inr ready ↦ rw ready (elim (Bool-cases (id == node_id_invalid)) [
    | inl bad ↦ rw bad refl
    | inr ok ↦ rw ok (at_place-Ends id request s (find_place id s.exec.nodes) refl (ground arith) c)
  ])
]
