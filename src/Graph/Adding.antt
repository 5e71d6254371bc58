-- ===== src/Graph/Adding.antt =====
-- What taking a reference and committing a node do: the rules for the last steps of the functions of
-- src/core/graph.c that add a node.
use metal_graph.Base.{
  ℕ, ◌+◌, ◌≤◌, ◌<◌, ◌≡◌, refl, Option, none, some, List, [], ◌∷◌, ◌++◌, length, length-append,
  arith, All,
}
use mathlib.Core.List.{append-nil}
use metal_graph.Outcome.{after, ◌>>◌}
use metal_graph.Heap.{Heap, buffer_retain, event_retain}
use metal_graph.Heap.Counting.{word32}
use metal_graph.Heap.Refs.{
  Ref, buffer, event, ref_count, count, one_for_self, HeapKept-trans, Grown, retain_ref,
  retain_ref-Grown,
}
use metal_graph.Node.{Payload, Node, buffer_refs, event_refs, payload_refs}
use metal_graph.Graph.{State, NodeRef, lift, touch, alloc_node, fresh_node, commit_node}
use metal_graph.Graph.Holding.{Ends, Ends-bind, Holding, HasRoom, Made, alloc_node-Ends}

Holding-retain :
    (xs : List Ref) (r : Ref) (s t : State) (g : Heap)
    → Holding xs s t
    → Grown (r ∷ []) t.heap g
    → Holding (r ∷ xs) s (record t { heap = g })
Holding-retain xs r s t g h one = record {
  graph = h.graph;
  heap = record {
    counts = λ q. omega (arith, h.heap.counts q, one.counts q);
    kept = HeapKept-trans h.heap.kept one.kept;
  };
}

-- Retains what a pointer points to, if anything.
pub buffer_retain-Ends :
    (xs : List Ref) (p : Option ℕ) (s t : State) (E : State → Type 0)
    → Holding xs s t
    → All (λ r. 0 < ref_count s.heap r) (buffer_refs p)
    → ((r : Ref) → ref_count s.heap r + count r (buffer_refs p ++ xs) < word32)
    → Ends
        (λ _ u. Holding (buffer_refs p ++ xs) s u × (u.graph ≡ t.graph))
        E
        (touch (buffer_retain p) t)
unfolding retain_ref buffer_retain
buffer_retain-Ends xs none s t E h live fits = (h, refl)
buffer_retain-Ends xs (some p) s t E h live fits =
    let r = buffer p in
    let at = h.heap.counts r in
    let (g, e, one) =
      retain_ref-Grown r t.heap (omega arith) (omega (arith, fits r, one_for_self r)) in
    rw (e, lift) (Holding-retain xs r s t g h one, refl)

-- Retains what a pointer to an event points to.
pub event_retain-Ends :
    (xs : List Ref) (p : Option ℕ) (s t : State) (E : State → Type 0)
    → Holding xs s t
    → All (λ r. 0 < ref_count s.heap r) (event_refs p)
    → ((r : Ref) → ref_count s.heap r + count r (event_refs p ++ xs) < word32)
    → Ends
        (λ _ u. Holding (event_refs p ++ xs) s u × (u.graph ≡ t.graph))
        E
        (touch (event_retain p) t)
unfolding retain_ref event_retain
event_retain-Ends xs none s t E h live fits = (h, refl)
event_retain-Ends xs (some p) s t E h live fits =
    let r = event p in
    let at = h.heap.counts r in
    let (g, e, one) =
      retain_ref-Grown r t.heap (omega arith) (omega (arith, fits r, one_for_self r)) in
    rw (e, lift) (Holding-retain xs r s t g h one, refl)

-- A node with this payload was added, and its references are held.
pub record Added (payload : Payload) (s : State) (ref : NodeRef) (t : State) : Type 0 where
  pub ref_is : ref ≡ record { graph = s.graph.address; index = length s.graph.nodes }
  pub address : t.graph.address ≡ s.graph.address
  pub nodes : t.graph.nodes ≡ s.graph.nodes ++ fresh_node payload s.graph ∷ []
  pub edges : t.graph.edges ≡ s.graph.edges
  pub arena : t.graph.arena ≡ s.graph.arena
  pub node_room : length t.graph.nodes ≤ t.graph.node_capacity
  pub edge_room : s.graph.edge_capacity ≤ t.graph.edge_capacity
  pub heap : Grown (payload_refs payload) s.heap t.heap

pub commit_node-Added :
    (payload : Payload) (s t : State) (E : State → Type 0) (node : Node)
    → node ≡ fresh_node payload s.graph
    → Holding (payload_refs payload) s t
    → length s.graph.nodes < t.graph.node_capacity
    → Ends (Added payload s) E (commit_node node t)
unfolding commit_node fresh_node
commit_node-Added payload s t E node e h room = record {
  ref_is = ground arith;
  address = h.graph.address;
  nodes = rw (h.graph.nodes, e);
  edges = h.graph.edges;
  arena = h.graph.arena;
  node_room = rw h.graph.nodes (omega (arith, length-append s.graph.nodes (node ∷ [])));
  edge_room = h.graph.edge_capacity;
  heap = h.heap;
}

-- The counters have room for one more of each of the references.
abbrev pub CountersFit : State → List Ref → Type 0
CountersFit s xs = (r : Ref) → ref_count s.heap r + count r xs < word32

-- The steps after the checks, for a node with no references, with one buffer, and with one event.
pub add_plain-Ends :
    (payload : Payload) (s : State)
    → HasRoom s.graph
    → payload_refs payload ≡ []
    → Ends (Added payload s) (Holding [] s) (after (alloc_node payload s) commit_node)
add_plain-Ends payload s room e =
    Ends-bind (Made payload s) (Added payload s) (Holding [] s) _ commit_node
      (alloc_node-Ends payload s room)
      λ n t (h, n_is, more). commit_node-Added payload s t (Holding [] s) n n_is (rw e h) more

pub add_buffer-Ends :
    (payload : Payload) (p : Option ℕ) (s : State)
    → HasRoom s.graph
    → payload_refs payload ≡ buffer_refs p
    → All (λ r. 0 < ref_count s.heap r) (buffer_refs p)
    → CountersFit s (buffer_refs p)
    → Ends
        (Added payload s)
        (Holding [] s)
        (after (alloc_node payload s) λ n. touch (buffer_retain p) >> commit_node n)
add_buffer-Ends payload p s room e live fits =
    Ends-bind (Made payload s) (Added payload s) (Holding [] s) _ _ (alloc_node-Ends payload s room)
      λ n t (h, n_is, more).
        Ends-bind (λ _ u. Holding (buffer_refs p ++ []) s u × (u.graph ≡ t.graph)) (Added payload s)
          (Holding [] s) (touch (buffer_retain p) t) _
          (buffer_retain-Ends [] p s t (Holding [] s) h live (rw append-nil fits))
          λ _ u (k, same).
            commit_node-Added payload s u (Holding [] s) n n_is
              (rw (e, ← append-nil (buffer_refs p)) k) (rw same more)

pub add_event-Ends :
    (payload : Payload) (p : Option ℕ) (s : State)
    → HasRoom s.graph
    → payload_refs payload ≡ event_refs p
    → All (λ r. 0 < ref_count s.heap r) (event_refs p)
    → CountersFit s (event_refs p)
    → Ends
        (Added payload s)
        (Holding [] s)
        (after (alloc_node payload s) λ n. touch (event_retain p) >> commit_node n)
add_event-Ends payload p s room e live fits =
    Ends-bind (Made payload s) (Added payload s) (Holding [] s) _ _ (alloc_node-Ends payload s room)
      λ n t (h, n_is, more).
        Ends-bind (λ _ u. Holding (event_refs p ++ []) s u × (u.graph ≡ t.graph)) (Added payload s)
          (Holding [] s) (touch (event_retain p) t) _
          (event_retain-Ends [] p s t (Holding [] s) h live (rw append-nil fits))
          λ _ u (k, same).
            commit_node-Added payload s u (Holding [] s) n n_is
              (rw (e, ← append-nil (event_refs p)) k) (rw same more)
