-- ===== src/Graph/Holding.antt =====
-- What the shared steps of src/core/graph.c do to the graph and to the reference counts: a rule for
-- each, in the form that the proofs of the operations chain.
use metal_graph.Base.{
  ℕ, zero, suc, ◌+◌, ◌*◌, ◌%◌, ◌^◌, ◌≤◌, ◌<◌, ◌≡◌, refl, ◌∙◌, false, ◌==◌, ltb, Bool-cases, inl,
  inr, leb, if◌then◌else◌, none, some, List, [], length, word64, arith,
}
use native.Mathlib.Decide.{dec_lt}
use metal_graph.Types.{Stage}
use metal_graph.Outcome.{oom_at, Outcome, done, failed, fault, M, after}
use metal_graph.Heap.{malloc}
use metal_graph.Heap.Refs.{Ref, count, HeapKept-refl, HeapKept-trans, Grown}
use metal_graph.Heap.RefLists.{malloc-HeapKept, malloc-counts}
use metal_graph.Node.{Payload, Node}
use metal_graph.Graph.{
  Graph, State, allocate, reallocate, double_until, next_capacity, reserve_nodes, alloc_node,
  fresh_node,
}

-- The outcome satisfies `P`, or is a failure that satisfies `E`. It is no fault.
abbrev pub Ends : {S A : Type 0} → (A → S → Type 0) → (S → Type 0) → Outcome A × S → Type 0
Ends P E (done a, s) = P a s
Ends P E (failed e, s) = E s
Ends P E (fault, s) = ⊥

pub Ends-bind :
    {S A B : Type 0} (P : A → S → Type 0) (Q : B → S → Type 0) (E : S → Type 0) (r : Outcome A × S)
    (f : A → M S B)
    → Ends P E r
    → ((a : A) (s : S) → P a s → Ends Q E (f a s))
    → Ends Q E (after r f)
Ends-bind P Q E (done a, s) f h k = k a s h
Ends-bind P Q E (failed e, s) f h k = h
Ends-bind P Q E (fault, s) f h k = h

-- Nothing of the graph has changed but that its arrays may have grown.
pub record SameGraph (g k : Graph) : Type 0 where
  pub address : k.address ≡ g.address
  pub nodes : k.nodes ≡ g.nodes
  pub edges : k.edges ≡ g.edges
  pub arena : k.arena ≡ g.arena
  pub node_capacity : g.node_capacity ≤ k.node_capacity
  pub edge_capacity : g.edge_capacity ≤ k.edge_capacity

-- The graph is as before, and the references `xs` were taken on the way.
pub record Holding (xs : List Ref) (s t : State) : Type 0 where
  pub graph : SameGraph s.graph t.graph
  pub heap : Grown xs s.heap t.heap

-- The arrays have room for what they hold, and their capacities can be doubled in a word.
pub record HasRoom (g : Graph) : Type 0 where
  pub nodes : length g.nodes ≤ g.node_capacity
  pub edges : length g.edges ≤ g.edge_capacity
  pub node_bound : g.node_capacity < 2 ^ 63
  pub edge_bound : g.edge_capacity < 2 ^ 63

pub SameGraph-refl : (g : Graph) → SameGraph g g
SameGraph-refl g = record {
  address = refl;
  nodes = refl;
  edges = refl;
  arena = refl;
  node_capacity = omega arith;
  edge_capacity = omega arith;
}

pub Holding-refl : (s : State) → Holding [] s s
Holding-refl s = record {
  graph = SameGraph-refl s.graph;
  heap = record { counts = λ r. omega arith; kept = HeapKept-refl s.heap };
}

double_until-ge :
    (fuel required next got : ℕ) → double_until fuel required next ≡ some got → required ≤ got
unfolding double_until
double_until-ge zero required next got h = ground arith
double_until-ge (suc fuel) required next got h =
    ground (arith, double_until-ge fuel required (next * 2 % word64) got)

-- From a capacity that is just too small, the first candidate is enough: the loop makes no round.
pub next_capacity_one_more :
    (capacity : ℕ)
    → capacity < 2 ^ 63
    → (next : ℕ) × (next_capacity capacity (capacity + 1) ≡ some next) × (capacity < next)
unfolding next_capacity
next_capacity_one_more capacity h =
    ((if capacity == 0 then 4 else capacity * 2 % word64), ground arith, ground arith)

-- Only the allocator has moved on.
pub Holding-malloc :
    (xs : List Ref) (s t : State)
    → Holding xs s t
    → Holding xs s (record t { heap = (malloc t.heap).1 })
Holding-malloc xs s t h = record {
  graph = h.graph;
  heap = record {
    counts = λ r. malloc-counts t.heap r ∙ h.heap.counts r;
    kept = HeapKept-trans h.heap.kept (malloc-HeapKept t.heap);
  };
}

-- An allocation leaves graph and objects alone, whether it succeeds or not.
pub allocate-Ends :
    (xs : List Ref) (s t : State)
    → Holding xs s t
    → Ends (λ _ u. Holding xs s u × (u.graph ≡ t.graph)) (Holding xs s) (allocate t)
unfolding allocate
allocate-Ends xs s t h =
    let kept = Holding-malloc xs s t h in
    elim (t.heap.answers t.heap.calls)
      as (λ o.
        Ends {A = Unit {0}} (λ _ u. Holding xs s u × (u.graph ≡ t.graph)) (Holding xs s)
          (elim o [
            | none ↦ (failed (oom_at Stage.create), record t { heap = (malloc t.heap).1 })
            | some p ↦ (done tt, record t { heap = (malloc t.heap).1 })
          ])) [ none ↦ kept | some p ↦ (kept, refl) ]

pub reallocate-Ends :
    (bytes : ℕ) (s : State)
    → Ends (λ _ u. Holding [] s u × (u.graph ≡ s.graph)) (Holding [] s) (reallocate bytes s)
unfolding reallocate
reallocate-Ends bytes s =
    Ends-bind (λ _ t. Holding [] s t × (t.graph ≡ s.graph))
      (λ _ t. Holding [] s t × (t.graph ≡ s.graph)) (Holding [] s) (allocate s) _
      (allocate-Ends [] s s (Holding-refl s))
      λ _ t (h, same). elim (Bool-cases (ltb bytes (2 ^ 63))) [
        | inl ok ↦ rw ok (h, same)
        | inr big ↦ rw big h
      ]

-- After room for one more node was asked for, there is.
abbrev MoreNodes : State → Unit {0} → State → Type 0
MoreNodes s _ t = Holding [] s t × (length s.graph.nodes < t.graph.node_capacity)

grow_nodes-Ends :
    (s : State) (next : ℕ)
    → HasRoom s.graph
    → s.graph.node_capacity < next
    → Ends (MoreNodes s) (Holding [] s) (
        after
          (reallocate (next * 8 % word64) s)
          λ _ t. (done tt, record t { graph = record t.graph { node_capacity = next } }))
grow_nodes-Ends s next room more =
    Ends-bind (λ _ t. Holding [] s t × (t.graph ≡ s.graph)) (MoreNodes s) (Holding [] s)
      (reallocate (next * 8 % word64) s) _ (reallocate-Ends (next * 8 % word64) s)
      λ _ t (h, _). (
        record {
          graph = record {
            address = h.graph.address;
            nodes = h.graph.nodes;
            edges = h.graph.edges;
            arena = h.graph.arena;
            node_capacity = omega arith;
            edge_capacity = h.graph.edge_capacity;
          };
          heap = h.heap;
        },
        omega arith,
      )

pub reserve_nodes-Ends :
    (s : State)
    → HasRoom s.graph
    → Ends (MoreNodes s) (Holding [] s) (reserve_nodes ((length s.graph.nodes + 1) % word64) s)
unfolding reserve_nodes
reserve_nodes-Ends s room = elim (dec_lt (length s.graph.nodes) s.graph.node_capacity) [
  | yes fits ↦
      let stays : reserve_nodes ((length s.graph.nodes + 1) % word64) s ≡ (done tt, s) =
        ground arith in
      rw stays (Holding-refl s, fits)
  | no full ↦
      let (next, e, more) = next_capacity_one_more s.graph.node_capacity room.node_bound in
      let required : (length s.graph.nodes + 1) % word64 ≡ s.graph.node_capacity + 1 =
        omega arith in
      let test : leb (s.graph.node_capacity + 1) s.graph.node_capacity ≡ false = ground arith in
      rw (required, reserve_nodes, test, e) (grow_nodes-Ends s next room more)
]

-- A node was made for the next place, and the array has room for it.
abbrev pub Made : Payload → State → Node → State → Type 0
Made payload s n t =
    Holding [] s t
    × (n ≡ fresh_node payload s.graph)
    × (length s.graph.nodes < t.graph.node_capacity)

pub alloc_node-Ends :
    (payload : Payload) (s : State)
    → HasRoom s.graph
    → Ends (Made payload s) (Holding [] s) (alloc_node payload s)
unfolding alloc_node fresh_node
alloc_node-Ends payload s room =
    Ends-bind (MoreNodes s) (Made payload s) (Holding [] s)
      (reserve_nodes ((length s.graph.nodes + 1) % word64) s) _ (reserve_nodes-Ends s room)
      λ _ t h.
        Ends-bind (λ _ u. Holding [] s u × (u.graph ≡ t.graph)) (Made payload s) (Holding [] s)
          (allocate t) _ (allocate-Ends [] s t h.0)
          λ _ u (k, same). (k, cc (k.graph.address, k.graph.nodes), rw same h.1)

pub Ends-map :
    {S A : Type 0} (P Q : A → S → Type 0) (E : S → Type 0) (r : Outcome A × S)
    → ((a : A) (s : S) → P a s → Q a s)
    → Ends P E r
    → Ends Q E r
Ends-map P Q E (done a, s) f h = f a s h
Ends-map P Q E (failed e, s) f h = h
Ends-map P Q E (fault, s) f h = h

-- Only how often a reference is held counts, not the order.
pub Holding-perm :
    (xs ys : List Ref) (s t : State)
    → ((r : Ref) → count r xs ≡ count r ys)
    → Holding xs s t
    → Holding ys s t
Holding-perm xs ys s t e h = record {
  graph = h.graph;
  heap = record { counts = λ r. omega (arith, h.heap.counts r, e r); kept = h.heap.kept };
}
