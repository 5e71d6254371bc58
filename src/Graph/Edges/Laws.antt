-- ===== src/Graph/Edges/Laws.antt =====
-- What mgGraphAddDependency of src/core/graph.c does on every branch.
use metal_graph.Base.{
  ℕ, zero, suc, ◌+◌, ◌<◌, ◌≡◌, ◌≢◌, refl, sym, ◌∙◌, true, false, ◌&&◌, ◌==◌, Option, none, some,
  List, [], ◌∷◌, length, get_elem?, arith, Bool-cases, inl, inr, ==_iff, get_elem?_of_lt,
}
use metal_graph.Outcome.{after}
use metal_graph.Node.{Node}
use metal_graph.Heap.Refs.{Ref}
use metal_graph.Graph.{State, NodeRef}
use metal_graph.Graph.Holding.{Ends, Ends-map, Holding, Holding-refl, HasRoom}
use metal_graph.Graph.Invariant.{Numbered, Invariant}
use metal_graph.Graph.Edges.{belongs, node_at, connect, link_nodes, same_node, add_dependency}
use metal_graph.Graph.Edges.Connect.{Connected, IsNode, Linked, connect-Ends}

node_index :
    (address i : ℕ) (ns : List Node) (k : ℕ) (n : Node)
    → Numbered address i ns
    → get_elem? ns k ≡ some n
    → n.index ≡ i + k
node_index address i [] k n h e = cc
node_index address i (m ∷ ns) zero n h e = let m_is : m ≡ n = cc in rw (← m_is) (omega (arith, h.0))
node_index address i (m ∷ ns) (suc k) n (x, y, z, rest) e =
    omega (arith, node_index address (suc i) ns k n rest e)

-- The function once both pointers are known to be into the graph.
link_nodes-Ends :
    (outside : Ref → ℕ) (r q : NodeRef) (s : State)
    → HasRoom s.graph
    → Invariant outside s
    → r.graph ≡ q.graph
    → r.index < length s.graph.nodes
    → q.index < length s.graph.nodes
    → Ends
        (λ (_ : Unit {0}) t. Linked (some r) (some q) s t × Invariant outside t)
        (Holding [] s)
        (link_nodes
          (node_at (some r) s.graph)
          (node_at (some q) s.graph)
          (same_node (some r) (some q))
          s)
unfolding link_nodes node_at same_node
link_nodes-Ends outside r q s room inv same_graph r_in q_in =
    let (b, b_at) = get_elem?_of_lt s.graph.nodes r.index r_in in
    let (a, a_at) = get_elem?_of_lt s.graph.nodes q.index q_in in
    let b_is = node_index s.graph.address 0 s.graph.nodes r.index b inv.formed.numbered b_at in
    let a_is = node_index s.graph.address 0 s.graph.nodes q.index a inv.formed.numbered a_at in
    elim (Bool-cases (r.index == q.index)) [
      | inl same ↦
          let test : (r.graph == q.graph && r.index == q.index) ≡ true =
            ground (arith, ==_iff r.graph q.graph) in
          rw (b_at, a_at, test) (Holding-refl s)
      | inr other ↦
          let test : (r.graph == q.graph && r.index == q.index) ≡ false = ground arith in
          let b_eq : b.index ≡ r.index = omega arith in
          let a_eq : a.index ≡ q.index = omega arith in
          let ne : r.index ≢ q.index = λ e. ground (arith, ==_iff r.index q.index) in
          rw (b_at, a_at, test, b_eq, a_eq)
            (Ends-map {A = Unit {0}} (λ _ t. Connected r.index q.index s t × Invariant outside t)
              (λ _ t. Linked (some r) (some q) s t × Invariant outside t) (Holding [] s)
              (connect r.index q.index s)
              (λ _ t (c, i). (
                record {
                  source = r;
                  target = q;
                  before_is = refl;
                  after_is = refl;
                  apart = ne;
                  nodes = c.0;
                  edges = λ x y. c.1 x y;
                },
                i,
              ))
              (connect-Ends outside r.index q.index s room inv r_in q_in ne))
    ]

-- mgGraphAddDependency, of nodes that exist, on a graph that satisfies the invariant: it never faults.
-- It fails with edges and counts as they were, or it joins two distinct nodes of the graph, of the
-- edges only theirs is new (none, if they were joined already), and the invariant holds again.
pub add_dependency-Ends :
    (outside : Ref → ℕ) (before after : Option NodeRef) (s : State)
    → HasRoom s.graph
    → Invariant outside s
    → IsNode s.graph before
    → IsNode s.graph after
    → Ends
        (λ (_ : Unit {0}) t. Linked before after s t × Invariant outside t)
        (Holding [] s)
        (add_dependency before after s)
unfolding add_dependency belongs
add_dependency-Ends outside none after s room inv b_is a_is = Holding-refl s
add_dependency-Ends outside (some r) none s room inv b_is a_is =
    let test : (r.graph == s.graph.address && false) ≡ false = ground arith in
    rw test (Holding-refl s)
add_dependency-Ends outside (some r) (some q) s room inv b_is a_is =
    elim (Bool-cases (r.graph == s.graph.address && q.graph == s.graph.address)) [
      | inr other ↦ rw other (Holding-refl s)
      | inl ours ↦
          let rg : r.graph ≡ s.graph.address = ground (arith, ==_iff r.graph s.graph.address) in
          let qg : q.graph ≡ s.graph.address = ground (arith, ==_iff q.graph s.graph.address) in
          rw ours (link_nodes-Ends outside r q s room inv (rg ∙ sym qg) (b_is rg) (a_is qg))
    ]
