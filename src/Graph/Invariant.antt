-- ===== src/Graph/Invariant.antt =====
-- What holds of every graph that the functions of src/core/graph.c build: its nodes are numbered, its
-- edges join distinct nodes and none stands twice, and the counts of the objects are those of the
-- graph's references and of the references from outside.
use metal_graph.Base.{
  ℕ, zero, suc, some, get_elem?, ◌+◌, ◌%◌, ◌≤◌, ◌≡◌, ◌≢◌, refl, ap, ◌∙◌, false, List, [], ◌∷◌, ◌++◌,
  length, length-append, arith, All, All_mono, word64,
}
use metal_graph.Outcome.{Outcome, done, failed, fault}
use metal_graph.Heap.Refs.{Ref, ref_count, count}
use metal_graph.Heap.RefLists.{count-append}
use metal_graph.Node.{Node, Edge, Payload, payload_refs}
use metal_graph.Topology.Start.{InRange}
use metal_graph.Graph.{Graph, State, NodeRef, fresh_node, arena_refs, nodes_refs, graph_refs}
use metal_graph.Graph.Edges.{has_edge}
use metal_graph.Graph.Holding.{Ends, Holding}
use metal_graph.Graph.Adding.{Added}

-- The nodes carry their place, the id that goes with it, and the address of the graph.
abbrev pub Numbered : ℕ → ℕ → List Node → Type 0
Numbered address i [] = Unit {0}
Numbered address i (n ∷ ns) =
    (n.index ≡ i) × (n.id ≡ (i + 1) % word64) × (n.graph ≡ address) × Numbered address (suc i) ns

abbrev pub NoTwice : List Edge → Type 0
NoTwice [] = Unit {0}
NoTwice (e ∷ es) = (has_edge e.before e.after es ≡ false) × NoTwice es

pub record IsWellFormed (g : Graph) : Type 0 where
  pub numbered : Numbered g.address 0 g.nodes
  pub range : InRange (length g.nodes) g.edges
  pub loop_free : All (λ (e : Edge). e.before ≢ e.after) g.edges
  pub distinct : NoTwice g.edges
  pub node_room : length g.nodes ≤ g.node_capacity
  pub edge_room : length g.edges ≤ g.edge_capacity

-- `outside r` references to the object are not the graph's.
abbrev pub IsBalanced : (Ref → ℕ) → State → Type 0
IsBalanced outside s = (r : Ref) → ref_count s.heap r ≡ outside r + count r (graph_refs s.graph)

pub record Invariant (outside : Ref → ℕ) (s : State) : Type 0 where
  pub formed : IsWellFormed s.graph
  pub balanced : IsBalanced outside s

Numbered-snoc :
    (address i : ℕ) (ns : List Node) (n : Node)
    → Numbered address i ns
    → n.index ≡ i + length ns
    → n.id ≡ (i + length ns + 1) % word64
    → n.graph ≡ address
    → Numbered address i (ns ++ n ∷ [])
Numbered-snoc address i [] n h a b c =
    (omega arith, b ∙ ap (λ k. (k + 1) % word64) (omega arith), c, tt)
Numbered-snoc address i (m ∷ ns) n (x, y, z, rest) a b c = (
  x,
  y,
  z,
  Numbered-snoc address (suc i) ns n rest (omega arith)
      (b ∙ ap (λ k. (k + 1) % word64) (omega arith)) c,
)

-- The id of the node at a place.
pub Numbered-id :
    (address i : ℕ) (ns : List Node) (j : ℕ) (n : Node)
    → Numbered address i ns
    → get_elem? ns j ≡ some n
    → n.id ≡ (i + j + 1) % word64
Numbered-id address i [] j n h e = cc
Numbered-id address i (m ∷ ns) zero n h e =
    let same : m ≡ n = cc in rw (← same) (h.1 ∙ ap (λ k. (k + 1) % word64) (omega arith))
Numbered-id address i (m ∷ ns) (suc j) n h e =
    Numbered-id address (suc i) ns j n h.3 e ∙ ap (λ k. (k + 1) % word64) (omega arith)

InRange-more : (n m : ℕ) (es : List Edge) → n ≤ m → InRange n es → InRange m es
InRange-more n m es more h = All_mono _ _ (λ e p. (omega arith, omega arith)) es h

nodes_refs-append :
    (r : Ref) (ns : List Node) (n : Node)
    → count r (nodes_refs (ns ++ n ∷ []))
      ≡ count r (nodes_refs ns) + count r (payload_refs n.payload)
nodes_refs-append r [] n = omega (arith, count-append r (payload_refs n.payload) [])
nodes_refs-append r (m ∷ ns) n = omega (
  arith,
  nodes_refs-append r ns n,
  count-append r (payload_refs m.payload) (nodes_refs (ns ++ n ∷ [])),
  count-append r (payload_refs m.payload) (nodes_refs ns),
)

-- A new node keeps the invariant.
pub Added-Invariant :
    (outside : Ref → ℕ) (payload : Payload) (s t : State) (ref : NodeRef)
    → Invariant outside s
    → Added payload s ref t
    → Invariant outside t
unfolding fresh_node
Added-Invariant outside payload s t ref inv a =
    let f = inv.formed in
    let node = fresh_node payload s.graph in
    record {
      formed = record {
        numbered =
            rw (a.nodes, a.address)
              (Numbered-snoc s.graph.address 0 s.graph.nodes node f.numbered (omega arith)
                (ap (λ k. (k + 1) % word64) (omega arith)) refl);
        range =
            rw (a.nodes, a.edges)
              (InRange-more _ _ s.graph.edges
                (omega (arith, length-append s.graph.nodes (node ∷ []))) f.range);
        loop_free = rw a.edges f.loop_free;
        distinct = rw a.edges f.distinct;
        node_room = a.node_room;
        edge_room = rw a.edges (let e = f.edge_room in let m = a.edge_room in omega arith);
      };
      balanced = λ r.
          rw (a.nodes, a.arena)
            (omega (
              arith,
              a.heap.counts r,
              inv.balanced r,
              nodes_refs-append r s.graph.nodes node,
              count-append r (arena_refs s.graph.arena) (nodes_refs s.graph.nodes),
              count-append r (arena_refs s.graph.arena) (nodes_refs (s.graph.nodes ++ node ∷ [])),
            ));
    }

-- A failed function, which took no reference, keeps it.
pub Holding-Invariant :
    (outside : Ref → ℕ) (s t : State) → Invariant outside s → Holding [] s t → Invariant outside t
Holding-Invariant outside s t inv h =
    let f = inv.formed in
    let g = h.graph in
    record {
      formed = record {
        numbered = rw (g.nodes, g.address) f.numbered;
        range = rw (g.nodes, g.edges) f.range;
        loop_free = rw g.edges f.loop_free;
        distinct = rw g.edges f.distinct;
        node_room = rw g.nodes (let e = f.node_room in let m = g.node_capacity in omega arith);
        edge_room = rw g.edges (let e = f.edge_room in let m = g.edge_capacity in omega arith);
      };
      balanced = λ r. rw (g.nodes, g.arena) (omega (arith, h.heap.counts r, inv.balanced r));
    }

-- What both kinds of outcome establish holds of the state in any case.
pub Ends-state :
    {S A : Type 0} (P : A → S → Type 0) (E R : S → Type 0) (r : Outcome A × S)
    → Ends P E r
    → ((a : A) (t : S) → P a t → R t)
    → ((t : S) → E t → R t)
    → R r.1
Ends-state P E R (done a, t) h f k = f a t h
Ends-state P E R (failed e, t) h f k = k t h
Ends-state P E R (fault, t) h f k = absurd h
