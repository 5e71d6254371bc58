-- ===== src/Graph/Edges/Connect.antt =====
-- The last steps of mgGraphAddDependency in src/core/graph.c, between two nodes of the graph.
use metal_graph.Base.{
  ℕ, ◌+◌, ◌*◌, ◌%◌, ◌≤◌, ◌<◌, ◌≡◌, ◌≢◌, refl, ap, ◌∙◌, true, false, ◌&&◌, ◌||◌, ◌==◌, leb, Option,
  none, some, List, [], ◌∷◌, ◌++◌, length, length-append, arith, All-append, word64, Bool-cases,
  inl, inr, ==_iff,
}
use native.Mathlib.Decide.{dec_lt}
use metal_graph.Outcome.{done, after}
use metal_graph.Node.{Edge}
use metal_graph.Heap.Refs.{Ref}
use metal_graph.Graph.{Graph, State, NodeRef, reallocate, reserve_edges}
use metal_graph.Graph.Holding.{
  Ends, Ends-bind, Holding, Holding-refl, HasRoom, reallocate-Ends, next_capacity_one_more,
}
use metal_graph.Graph.Invariant.{NoTwice, Invariant, Holding-Invariant}
use metal_graph.Graph.Edges.{has_edge, append_edge, connect}

-- The nodes a pointer may name: any of another graph, and those of this graph that it has.
abbrev pub IsNode : Graph → Option NodeRef → Type 0
IsNode g none = Unit {0}
IsNode g (some r) = r.graph ≡ g.address → r.index < length g.nodes

-- After room for one more edge was asked for, there is.
abbrev MoreEdges : State → Unit {0} → State → Type 0
MoreEdges s _ t = Holding [] s t × (length s.graph.edges < t.graph.edge_capacity)

grow_edges-Ends :
    (s : State) (next : ℕ)
    → s.graph.edge_capacity < next
    → length s.graph.edges ≤ s.graph.edge_capacity
    → Ends (MoreEdges s) (Holding [] s) (
        after
          (reallocate (next * 16 % word64) s)
          λ _ t. (done tt, record t { graph = record t.graph { edge_capacity = next } }))
grow_edges-Ends s next more room =
    Ends-bind (λ _ t. Holding [] s t × (t.graph ≡ s.graph)) (MoreEdges s) (Holding [] s)
      (reallocate (next * 16 % word64) s) _ (reallocate-Ends (next * 16 % word64) s)
      λ _ t (h, _). (
        record {
          graph = record {
            address = h.graph.address;
            nodes = h.graph.nodes;
            edges = h.graph.edges;
            arena = h.graph.arena;
            node_capacity = h.graph.node_capacity;
            edge_capacity = omega arith;
          };
          heap = h.heap;
        },
        omega arith,
      )

reserve_edges-Ends :
    (s : State)
    → HasRoom s.graph
    → Ends (MoreEdges s) (Holding [] s) (reserve_edges ((length s.graph.edges + 1) % word64) s)
unfolding reserve_edges
reserve_edges-Ends s room = elim (dec_lt (length s.graph.edges) s.graph.edge_capacity) [
  | yes fits ↦
      let bound = room.edge_bound in
      let stays : reserve_edges ((length s.graph.edges + 1) % word64) s ≡ (done tt, s) =
        ground arith in
      rw stays (Holding-refl s, fits)
  | no full ↦
      let (next, e, more) = next_capacity_one_more s.graph.edge_capacity room.edge_bound in
      let fits = room.edges in
      let bound = room.edge_bound in
      let required : (length s.graph.edges + 1) % word64 ≡ s.graph.edge_capacity + 1 =
        omega arith in
      let test : leb (s.graph.edge_capacity + 1) s.graph.edge_capacity ≡ false = ground arith in
      rw (required, reserve_edges, test, e) (grow_edges-Ends s next more fits)
]

has_edge-append :
    (b a : ℕ) (es : List Edge) (e : Edge)
    → has_edge b a (es ++ e ∷ []) ≡ (has_edge b a es || (e.before == b && e.after == a))
unfolding has_edge
has_edge-append b a [] e = ground arith
has_edge-append b a (x ∷ es) e = ground (arith, has_edge-append b a es e)

NoTwice-snoc :
    (es : List Edge) (e : Edge)
    → NoTwice es
    → has_edge e.before e.after es ≡ false
    → NoTwice (es ++ e ∷ [])
unfolding has_edge
NoTwice-snoc [] e h new = (refl, tt)
NoTwice-snoc (x ∷ es) e h new = (
  ground (
    arith,
    has_edge-append x.before x.after es e,
    h.0,
    ==_iff x.before e.before,
    ==_iff e.before x.before,
    ==_iff x.after e.after,
    ==_iff e.after x.after,
  ),
  NoTwice-snoc es e h.1 (ground arith),
)

-- Distinct nodes of the graph were joined: of the edges only theirs is new.
pub record Linked (before after : Option NodeRef) (s : State) (t : State) : Type 0 where
  pub source : NodeRef
  pub target : NodeRef
  pub before_is : before ≡ some source
  pub after_is : after ≡ some target
  pub apart : source.index ≢ target.index
  pub nodes : t.graph.nodes ≡ s.graph.nodes
  pub edges :
      (b a : ℕ)
      → has_edge b a t.graph.edges
        ≡ (has_edge b a s.graph.edges || (source.index == b && target.index == a))

-- The edge was there already, or now stands at the end.
abbrev pub Connected : ℕ → ℕ → State → State → Type 0
Connected b a s t =
    (t.graph.nodes ≡ s.graph.nodes)
    × ((x y : ℕ) → has_edge x y t.graph.edges ≡ (has_edge x y s.graph.edges || (b == x && a == y)))

append_edge-Invariant :
    (outside : Ref → ℕ) (b a : ℕ) (s t : State)
    → Invariant outside s
    → MoreEdges s tt t
    → has_edge b a s.graph.edges ≡ false
    → b < length s.graph.nodes
    → a < length s.graph.nodes
    → b ≢ a
    → Invariant outside (append_edge b a t).1
append_edge-Invariant outside b a s t inv (h, more) new b_in a_in ne =
    let e : Edge = record { before = b; after = a } in
    let now = Holding-Invariant outside s t inv h in
    let f = now.formed in
    let same = h.graph.edges in
    record {
      formed = record {
        numbered = f.numbered;
        range =
            All-append _ t.graph.edges (e ∷ []) f.range
              (((rw h.graph.nodes b_in, rw h.graph.nodes a_in)), tt);
        loop_free = All-append _ t.graph.edges (e ∷ []) f.loop_free (ne, tt);
        distinct = NoTwice-snoc t.graph.edges e f.distinct (rw same new);
        node_room = f.node_room;
        edge_room = rw same (omega (arith, length-append s.graph.edges (e ∷ [])));
      };
      balanced = now.balanced;
    }

already :
    (b a x y : ℕ) (es : List Edge)
    → has_edge b a es ≡ true
    → has_edge x y es ≡ (has_edge x y es || (b == x && a == y))
already b a x y es h = elim (Bool-cases (b == x && a == y)) [
  | inl same ↦
      let bx : b ≡ x = ground (arith, ==_iff b x) in
      let ay : a ≡ y = ground (arith, ==_iff a y) in
      let there : has_edge x y es ≡ true = rw (← bx, ← ay) h in ground arith
  | inr other ↦ ground arith
]

pub connect-Ends :
    (outside : Ref → ℕ) (b a : ℕ) (s : State)
    → HasRoom s.graph
    → Invariant outside s
    → b < length s.graph.nodes
    → a < length s.graph.nodes
    → b ≢ a
    → Ends
        (λ (_ : Unit {0}) t. Connected b a s t × Invariant outside t)
        (Holding [] s)
        (connect b a s)
unfolding connect
connect-Ends outside b a s room inv b_in a_in ne = elim (Bool-cases (has_edge b a s.graph.edges)) [
  | inl there ↦ rw there ((refl, λ x y. already b a x y s.graph.edges there), inv)
  | inr new ↦ rw new (
      Ends-bind (MoreEdges s) _ (Holding [] s) _ _ (reserve_edges-Ends s room) λ _ t more. (
        (
          more.0.graph.nodes,
          λ x y.
              has_edge-append x y t.graph.edges (record { before = b; after = a })
              ∙ ap (λ es. has_edge x y es || (b == x && a == y)) more.0.graph.edges,
        ),
        append_edge-Invariant outside b a s t inv more new b_in a_in ne,
      ))
]
