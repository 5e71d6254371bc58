-- ===== src/Graph/Dispatch/Copies.antt =====
-- The copies that mgGraphAddDispatchNode of src/core/graph.c makes, and the references it takes on the
-- way: where a later copy fails, they are given back.
use metal_graph.Base.{
  ◌+◌, ◌<◌, ◌≡◌, refl, ◌∙◌, ◌&&◌, some, List, [], ◌∷◌, ◌++◌, arith, All-append_left,
  All-append_right, Bool-cases, inl, inr,
}
use mathlib.Core.List.{append-nil}
use metal_graph.Outcome.{Outcome, done, failed, fault, M, ◌>>◌}
use metal_graph.Heap.{Heap, malloc, buffer_retain}
use metal_graph.Heap.Counting.{word32}
use metal_graph.Heap.Refs.{Ref, ref_count, count, HeapKept-trans}
use metal_graph.Heap.RefLists.{count-append, release_all-Shrunk}
use metal_graph.Node.{
  BufferBinding, ScalarBinding, ResourceDesc, DispatchDesc, buffer_refs, binding_refs, array_items,
}
use metal_graph.Graph.{State, touch, lift, allocate, on_failure, recover, is_given}
use metal_graph.Graph.Holding.{
  Ends, Ends-bind, Ends-map, Holding, Holding-malloc, Holding-perm, allocate-Ends,
}
use metal_graph.Graph.Adding.{CountersFit, buffer_retain-Ends}
use metal_graph.Graph.Checks.{IsLive}
use metal_graph.Graph.Lifetime.{release_bindings}
use metal_graph.Graph.Lifetime.Releases.{release_bindings-all}
use metal_graph.Graph.Dispatch.{
  copy_strings, retain_bindings, copy_buffers, copy_values, copy_scalars, copy_resources,
  copy_parts, scalars_of, resources_of,
}

-- The step takes the references `ys` in all, and leaves the graph as it is.
abbrev pub Takes : List Ref → State → State → Unit {0} → State → Type 0
Takes ys s t _ u = Holding ys s u × (u.graph ≡ t.graph)

pub Takes-then :
    (xs ys zs : List Ref) (s t : State) (m k : M State (Unit {0}))
    → Ends (Takes ys s t) (Holding xs s) (m t)
    → ((u : State) → Holding ys s u → Ends (Takes zs s u) (Holding xs s) (k u))
    → Ends (Takes zs s t) (Holding xs s) ((m >> k) t)
Takes-then xs ys zs s t m k h f =
    Ends-bind (Takes ys s t) (Takes zs s t) (Holding xs s) (m t) (λ _. k) h
      λ _ u (held, same).
        Ends-map (Takes zs s u) (Takes zs s t) (Holding xs s) (k u)
          (λ _ v (held', same'). (held', same' ∙ same)) (f u held)

pub copy_strings-Ends :
    (xs : List Ref) (s t : State)
    → Holding xs s t
    → Ends (Takes xs s t) (Holding xs s) (copy_strings t)
unfolding copy_strings
copy_strings-Ends xs s t h =
    let one = Holding-malloc xs s t h in
    let two = Holding-malloc xs s (record t { heap = (malloc t.heap).1 }) one in
    elim (Bool-cases (is_given (malloc t.heap).0 && is_given (malloc (malloc t.heap).1).0)) [
      | inl ok ↦ rw ok (two, refl)
      | inr bad ↦ rw bad two
    ]

copy_values-Ends :
    (xs : List Ref) (ss : List ScalarBinding) (s t : State)
    → Holding xs s t
    → Ends (Takes xs s t) (Holding xs s) (copy_values ss t)
unfolding copy_values
copy_values-Ends xs [] s t h = (h, refl)
copy_values-Ends xs (b ∷ ss) s t h =
    Takes-then xs xs xs s t allocate (copy_values ss) (allocate-Ends xs s t h)
      λ u k. copy_values-Ends xs ss s u k

copy_scalars-Ends :
    (xs : List Ref) (ss : List ScalarBinding) (s t : State)
    → Holding xs s t
    → Ends (Takes xs s t) (Holding xs s) (copy_scalars ss t)
unfolding copy_scalars
copy_scalars-Ends xs [] s t h = (h, refl)
copy_scalars-Ends xs (b ∷ ss) s t h =
    Takes-then xs xs xs s t allocate (copy_values (b ∷ ss)) (allocate-Ends xs s t h)
      λ u k. copy_values-Ends xs (b ∷ ss) s u k

copy_resources-Ends :
    (xs : List Ref) (rs : List ResourceDesc) (s t : State)
    → Holding xs s t
    → Ends (Takes xs s t) (Holding xs s) (copy_resources rs t)
unfolding copy_resources
copy_resources-Ends xs [] s t h = (h, refl)
copy_resources-Ends xs (r ∷ rs) s t h = allocate-Ends xs s t h

retain_bindings-Ends :
    (xs : List Ref) (bs : List BufferBinding) (s t : State) (E : State → Type 0)
    → Holding xs s t
    → IsLive s.heap (binding_refs bs)
    → ((r : Ref) → ref_count s.heap r + count r (binding_refs bs) + count r xs < word32)
    → Ends
        (λ (_ : Unit {0}) u. Holding (binding_refs bs ++ xs) s u × (u.graph ≡ t.graph))
        E
        (retain_bindings bs t)
unfolding retain_bindings
retain_bindings-Ends xs [] s t E h live fits = (h, refl)
retain_bindings-Ends xs (b ∷ bs) s t E h live fits =
    let here = buffer_refs b.buffer in
    let rest = binding_refs bs in
    let all = λ (r : Ref). count-append r here rest in
    Ends-bind (Takes (here ++ xs) s t) (Takes ((here ++ rest) ++ xs) s t) E
      (touch (buffer_retain b.buffer) t) (λ _. retain_bindings bs)
      (buffer_retain-Ends xs b.buffer s t E h (All-append_left _ here rest live)
        (λ r. omega (arith, fits r, all r, count-append r here xs)))
      λ _ u (k, same).
        Ends-map (Takes (rest ++ (here ++ xs)) s u) (Takes ((here ++ rest) ++ xs) s t) E
          (retain_bindings bs u)
          (λ _ v (l, same'). (
            Holding-perm (rest ++ (here ++ xs)) ((here ++ rest) ++ xs) s v
                (λ r. omega (
                  arith,
                  all r,
                  count-append r here xs,
                  count-append r rest (here ++ xs),
                  count-append r (here ++ rest) xs,
                ))
                l,
            same' ∙ same,
          ))
          (retain_bindings-Ends (here ++ xs) bs s u E k (All-append_right _ here rest live)
            (λ r. omega (arith, fits r, all r, count-append r here xs)))

copy_buffers-Ends :
    (bs : List BufferBinding) (s t : State)
    → Holding [] s t
    → IsLive s.heap (binding_refs bs)
    → CountersFit s (binding_refs bs)
    → Ends (Takes (binding_refs bs) s t) (Holding [] s) (copy_buffers bs t)
unfolding copy_buffers
copy_buffers-Ends [] s t h live fits = (h, refl)
copy_buffers-Ends (b ∷ bs) s t h live fits =
    let refs = binding_refs (b ∷ bs) in
    Takes-then [] [] refs s t allocate (retain_bindings (b ∷ bs)) (allocate-Ends [] s t h) λ u k.
      Ends-map (Takes (refs ++ []) s u) (Takes refs s u) (Holding [] s) (retain_bindings (b ∷ bs) u)
        (λ _ v (l, same). (rw append-nil at l, same))
        (retain_bindings-Ends [] (b ∷ bs) s u (Holding [] s) k live (λ r. omega (arith, fits r)))

-- mg_node_clear gives the references back.
released-Holding :
    (bs : List BufferBinding) (s u : State)
    → Holding (binding_refs bs) s u
    → (k : Heap) × (release_bindings bs u.heap ≡ some k) × Holding [] s (record u { heap = k })
released-Holding bs s u h =
    let (k, e, shrunk) =
      release_all-Shrunk (binding_refs bs) u.heap (λ r. omega (arith, h.heap.counts r)) in
    (
      k,
      release_bindings-all bs u.heap ∙ e,
      record {
        graph = h.graph;
        heap = record {
          counts = λ r. omega (arith, h.heap.counts r, shrunk.counts r);
          kept = HeapKept-trans h.heap.kept shrunk.kept;
        };
      },
    )

recover-Ends :
    (P : Unit {0} → State → Type 0) (bs : List BufferBinding) (s : State)
    (r : Outcome (Unit {0}) × State)
    → Ends P (Holding (binding_refs bs) s) r
    → Ends P (Holding [] s) (recover r (touch (release_bindings bs)))
recover-Ends P bs s (done a, u) h = h
recover-Ends P bs s (failed e, u) h =
    let (k, e', back) = released-Holding bs s u h in rw (e', lift) back
recover-Ends P bs s (fault, u) h = h

-- The copies of the arrays: all references to the buffers are taken, or none.
pub copy_parts-Ends :
    (d : DispatchDesc) (s t : State)
    → Holding [] s t
    → IsLive s.heap (binding_refs (array_items d.buffers))
    → CountersFit s (binding_refs (array_items d.buffers))
    → Ends (Takes (binding_refs (array_items d.buffers)) s t) (Holding [] s) (copy_parts d t)
unfolding copy_parts
copy_parts-Ends d s t h live fits =
    let bs = array_items d.buffers in
    let refs = binding_refs bs in
    let scalars = copy_scalars (array_items (scalars_of d)) in
    let resources = copy_resources (array_items (resources_of d)) in
    Takes-then [] refs refs s t (copy_buffers bs)
      (on_failure (scalars >> resources) (touch (release_bindings bs)))
      (copy_buffers-Ends bs s t h live fits)
      λ u k. recover-Ends (Takes refs s u) bs s ((scalars >> resources) u) (
        Takes-then refs refs refs s u scalars resources
          (copy_scalars-Ends refs (array_items (scalars_of d)) s u k)
          λ v l. copy_resources-Ends refs (array_items (resources_of d)) s v l)
