-- ===== src/Graph/Lifetime/Releases.antt =====
-- The functions of src/core/graph.c that clear nodes, as releases of a list of references.
use metal_graph.Base.{ℕ, ◌≡◌, refl, sym, ap, ◌∙◌, Option, none, some, List, [], ◌∷◌, ◌++◌}
use metal_graph.Heap.{Heap, buffer_release, event_release, arena_release, arena_retain}
use metal_graph.Heap.Counting.{word32}
use metal_graph.Heap.Refs.{Ref, buffer, event, arena, release_ref}
use metal_graph.Heap.RefLists.{release_all}
use metal_graph.Node.{
  BufferBinding, Tensor, Payload, Node, buffer_refs, event_refs, binding_refs, tensor_refs,
  payload_refs, dispatch, copy, fill, event_wait, event_signal, barrier, mpsgraph, workspace,
  workspace_fill,
}
use metal_graph.Graph.{Graph, arena_refs, nodes_refs}
use metal_graph.Graph.Lifetime.{
  and_then, release_bindings, release_tensors, node_clear, clear_nodes, graph_destroy,
}

release_all-append :
    (xs ys : List Ref) (h : Heap)
    → release_all (xs ++ ys) h ≡ and_then (release_all xs h) (release_all ys)
unfolding release_all
release_all-append [] ys h = refl
release_all-append (x ∷ xs) ys h =
    elim (release_ref x h)
      as (λ o.
        elim o [ none ↦ none | some g ↦ release_all (xs ++ ys) g ]
        ≡ and_then (elim o [ none ↦ none | some g ↦ release_all xs g ]) (release_all ys)) [
          | none ↦ refl
          | some g ↦ release_all-append xs ys g
        ]

single : (x : Ref) (h : Heap) → release_all (x ∷ []) h ≡ release_ref x h
unfolding release_all
single x h = elim (release_ref x h) as (λ o. elim o [ none ↦ none | some g ↦ some g ] ≡ o) [
  | none ↦ refl
  | some g ↦ refl
]

pub buffer_release-all :
    (p : Option ℕ) (h : Heap) → buffer_release p h ≡ release_all (buffer_refs p) h
unfolding buffer_release release_all metal_graph.Heap.Counting.release release_ref
buffer_release-all none h = refl
buffer_release-all (some p) h = sym (single (buffer p) h)

pub event_release-all : (p : Option ℕ) (h : Heap) → event_release p h ≡ release_all (event_refs p) h
unfolding event_release release_all metal_graph.Heap.Counting.release release_ref
event_release-all none h = refl
event_release-all (some p) h = sym (single (event p) h)

pub arena_release-all : (p : Option ℕ) (h : Heap) → arena_release p h ≡ release_all (arena_refs p) h
unfolding arena_release release_all metal_graph.Heap.Counting.release release_ref
arena_release-all none h = refl
arena_release-all (some p) h = sym (single (arena p) h)

-- Two releases in a row, each a release of a list.
pub in_turn :
    (xs ys : List Ref) (f g : Heap → Option Heap) (h : Heap)
    → f h ≡ release_all xs h
    → ((k : Heap) → g k ≡ release_all ys k)
    → and_then (f h) g ≡ release_all (xs ++ ys) h
in_turn xs ys f g h first second =
    ap (λ o. and_then o g) first ∙ go (release_all xs h) ∙ sym (release_all-append xs ys h)
  where
    go : (o : Option Heap) → and_then o g ≡ and_then o (release_all ys)
    go none = refl
    go (some k) = second k

pub release_bindings-all :
    (bs : List BufferBinding) (h : Heap) → release_bindings bs h ≡ release_all (binding_refs bs) h
unfolding release_bindings release_all
release_bindings-all [] h = refl
release_bindings-all (b ∷ bs) h =
    in_turn (buffer_refs b.buffer) (binding_refs bs) (buffer_release b.buffer) (release_bindings bs)
      h (buffer_release-all b.buffer h) (release_bindings-all bs)

pub release_tensors-all :
    (ts : List Tensor) (h : Heap) → release_tensors ts h ≡ release_all (tensor_refs ts) h
unfolding release_tensors release_all
release_tensors-all [] h = refl
release_tensors-all (t ∷ ts) h =
    in_turn (buffer_refs t.buffer) (tensor_refs ts) (buffer_release t.buffer) (release_tensors ts) h
      (buffer_release-all t.buffer h) (release_tensors-all ts)

node_clear-all : (p : Payload) (h : Heap) → node_clear p h ≡ release_all (payload_refs p) h
unfolding node_clear release_all
node_clear-all (dispatch d) h = release_bindings-all d.buffers h
node_clear-all (copy c) h =
    in_turn (buffer_refs c.src) (buffer_refs c.dst) (buffer_release c.src) (buffer_release c.dst) h
      (buffer_release-all c.src h) (buffer_release-all c.dst)
node_clear-all (fill f) h = buffer_release-all f.dst h
node_clear-all (event_wait e) h = event_release-all e.event h
node_clear-all (event_signal e) h = event_release-all e.event h
node_clear-all barrier h = refl
node_clear-all (mpsgraph m) h =
    in_turn (tensor_refs m.feeds) (tensor_refs m.targets) (release_tensors m.feeds)
      (release_tensors m.targets) h (release_tensors-all m.feeds h) (release_tensors-all m.targets)
node_clear-all (workspace w) h = refl
node_clear-all (workspace_fill w) h = buffer_release-all w.dst h

clear_nodes-all : (ns : List Node) (h : Heap) → clear_nodes ns h ≡ release_all (nodes_refs ns) h
unfolding clear_nodes release_all
clear_nodes-all [] h = refl
clear_nodes-all (n ∷ ns) h =
    in_turn (payload_refs n.payload) (nodes_refs ns) (node_clear n.payload) (clear_nodes ns) h
      (node_clear-all n.payload h) (clear_nodes-all ns)

pub graph_destroy-all :
    (g : Graph) (h : Heap)
    → graph_destroy g h ≡ release_all (nodes_refs g.nodes ++ arena_refs g.arena) h
unfolding graph_destroy
graph_destroy-all g h =
    in_turn (nodes_refs g.nodes) (arena_refs g.arena) (clear_nodes g.nodes) (arena_release g.arena)
      h (clear_nodes-all g.nodes h) (arena_release-all g.arena)
