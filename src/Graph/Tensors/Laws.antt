-- ===== src/Graph/Tensors/Laws.antt =====
-- The tensors of src/core/graph.c: their tests, and their clones with the references that these take.
use metal_graph.Base.{
  ℕ, ◌+◌, ◌<◌, ◌≡◌, refl, ap, ◌∙◌, Bool, true, Option, none, some, List, [], ◌∷◌, ◌++◌, map, arith,
  All-append_left, All-append_right, Bool-cases, inl, inr,
}
use metal_graph.Outcome.{Outcome, done, failed, fault, ◌>>◌, require}
use metal_graph.Heap.{Heap, buffer_retain, buffer_counted}
use metal_graph.Heap.Counting.{word32, live_of_refs}
use metal_graph.Heap.Refs.{Ref, ref_count, count, HeapKept-trans}
use metal_graph.Heap.RefLists.{count-append, release_all-Shrunk}
use metal_graph.Node.{TensorDesc, Tensor, buffer_refs, tensor_refs}
use metal_graph.Graph.{State, touch, lift, check, allocate, on_failure, recover, invalid, is_given}
use metal_graph.Graph.Holding.{Ends, Ends-map, Holding, Holding-perm, allocate-Ends}
use metal_graph.Graph.Adding.{buffer_retain-Ends}
use metal_graph.Graph.Checks.{IsLive}
use metal_graph.Graph.Lifetime.{release_tensors}
use metal_graph.Graph.Lifetime.Releases.{release_tensors-all}
use metal_graph.Graph.Dispatch.Reads.{Reads, Reads-then, Reads-require, Reads-check}
use metal_graph.Graph.Dispatch.Copies.{Takes, Takes-then}
use metal_graph.Graph.Tensors.{
  tensor_bytes, tensor_complete, in_buffer, in_heap, tensor_fits, check_tensor, check_tensors,
  tensor_of, clone_tensor, clone_each, clone_array,
}

-- The references of the descriptors' tensors.
abbrev pub desc_refs : List TensorDesc → List Ref
desc_refs ts = tensor_refs (map tensor_of ts)

tensor_fits_lem :
    (t : TensorDesc) (o : Option ℕ) (h : Heap)
    → IsLive h (buffer_refs o)
    → is_given o ≡ true
    → (v : Bool) × (in_heap t o h ≡ done v)
tensor_fits_lem t none h live nonnull = cc
tensor_fits_lem t (some p) h live nonnull =
    let (b, e, _) = live_of_refs (h.buffers p) live.0 in (_, ap (in_buffer t) e)

given_of_complete : (t : TensorDesc) → tensor_complete t ≡ true → is_given t.buffer ≡ true
unfolding tensor_complete
given_of_complete t e = ground arith

check_tensor-Reads :
    (t : TensorDesc) (s : State)
    → IsLive s.heap (buffer_refs t.buffer)
    → Reads s (Unit {0}) (check_tensor t s)
unfolding check_tensor tensor_fits
check_tensor-Reads t s live =
    let e1 = invalid "MPSGraph tensor descriptor is invalid" in
    let e2 = invalid "MPSGraph tensor shape or dtype is invalid" in
    let e3 = invalid "MPSGraph tensor buffer range is invalid" in
    let b = is_given (tensor_bytes t) in
    let last = check (tensor_fits t) e3 in
    Reads-then s (tensor_complete t ≡ true) (Unit {0}) (require (tensor_complete t) e1)
      (require b e2 >> last) (Reads-require s (tensor_complete t) e1)
      λ complete. Reads-then s (b ≡ true) (Unit {0}) (require b e2) last (Reads-require s b e2) λ _.
        let (v, e) = tensor_fits_lem t t.buffer s.heap live (given_of_complete t complete) in
        forget (v ≡ true) (last s) (Reads-check s (tensor_fits t) v e3 e)
  where
    forget : (P : Type 0) (q : Outcome (Unit {0}) × State) → Reads s P q → Reads s (Unit {0}) q
    forget P (done a, u) h = (h.0, tt)
    forget P (failed e, u) h = h
    forget P (fault, u) h = h

pub check_tensors-Reads :
    (ts : List TensorDesc) (s : State)
    → IsLive s.heap (desc_refs ts)
    → Reads s (Unit {0}) (check_tensors ts s)
unfolding check_tensors
check_tensors-Reads [] s live = (refl, tt)
check_tensors-Reads (t ∷ ts) s live =
    Reads-then s (Unit {0}) (Unit {0}) (check_tensor t) (check_tensors ts)
      (check_tensor-Reads t s (All-append_left _ (buffer_refs t.buffer) (desc_refs ts) live))
      λ _. check_tensors-Reads ts s (All-append_right _ (buffer_refs t.buffer) (desc_refs ts) live)

clone_tensor-Ends :
    (xs : List Ref) (t : TensorDesc) (s u : State)
    → Holding xs s u
    → IsLive s.heap (buffer_refs t.buffer)
    → ((r : Ref) → ref_count s.heap r + count r (buffer_refs t.buffer) + count r xs < word32)
    → Ends (Takes (buffer_refs t.buffer ++ xs) s u) (Holding xs s) (clone_tensor t u)
unfolding clone_tensor
clone_tensor-Ends xs t s u h live fits = elim (Bool-cases (is_given (tensor_bytes t))) [
  | inr bad ↦ rw bad h
  | inl ok ↦ rw ok (
      Takes-then xs xs (buffer_refs t.buffer ++ xs) s u allocate (touch (buffer_retain t.buffer))
        (allocate-Ends xs s u h)
        λ v k.
          buffer_retain-Ends xs t.buffer s v (Holding xs s) k live
            (λ r. omega (arith, fits r, count-append r (buffer_refs t.buffer) xs)))
]

-- The tensors are cleared: what they hold besides `xs` is given back.
pub recover_tensors-Ends :
    (P : Unit {0} → State → Type 0) (xs ys : List Ref) (ts : List Tensor) (s : State)
    (r : Outcome (Unit {0}) × State)
    → ((q : Ref) → count q ys ≡ count q (tensor_refs ts) + count q xs)
    → Ends P (Holding ys s) r
    → Ends P (Holding xs s) (recover r (touch (release_tensors ts)))
recover_tensors-Ends P xs ys ts s (done a, u) both h = h
recover_tensors-Ends P xs ys ts s (failed e, u) both h =
    let (k, e', shrunk) =
      release_all-Shrunk (tensor_refs ts) u.heap (λ r. omega (arith, h.heap.counts r, both r)) in
    let runs = release_tensors-all ts u.heap ∙ e' in
    rw (runs, lift)
      (record {
        graph = h.graph;
        heap = record {
          counts = λ r. omega (arith, h.heap.counts r, shrunk.counts r, both r);
          kept = HeapKept-trans h.heap.kept shrunk.kept;
        };
      })
recover_tensors-Ends P xs ys ts s (fault, u) both h = h

tensor_refs-append :
    (r : Ref) (xs ys : List Tensor)
    → count r (tensor_refs (xs ++ ys)) ≡ count r (tensor_refs xs) + count r (tensor_refs ys)
tensor_refs-append r [] ys = omega arith
tensor_refs-append r (x ∷ xs) ys = omega (
  arith,
  tensor_refs-append r xs ys,
  count-append r (buffer_refs x.buffer) (tensor_refs xs),
  count-append r (buffer_refs x.buffer) (tensor_refs (xs ++ ys)),
)

clone_each-Ends :
    (xs : List Ref) (cloned : List Tensor) (ts : List TensorDesc) (s u : State)
    → Holding (tensor_refs cloned ++ xs) s u
    → IsLive s.heap (desc_refs ts)
    → ((r : Ref)
        → ref_count s.heap r + count r (tensor_refs cloned) + count r (desc_refs ts) + count r xs
          < word32)
    → Ends
        (λ (_ : Unit {0}) v.
          Holding (tensor_refs cloned ++ (desc_refs ts ++ xs)) s v × (v.graph ≡ u.graph))
        (Holding xs s)
        (clone_each cloned ts u)
unfolding clone_each
clone_each-Ends xs cloned [] s u h live fits = (h, refl)
clone_each-Ends xs cloned (t ∷ ts) s u h live fits =
    let here = buffer_refs t.buffer in
    let rest = desc_refs ts in
    let old = tensor_refs cloned in
    let more = tensor_refs (cloned ++ tensor_of t ∷ []) in
    let step = on_failure (clone_tensor t) (touch (release_tensors cloned)) in
    let split = λ (r : Ref). count-append r here rest in
    let base = λ (r : Ref). count-append r old xs in
    let grown = λ (r : Ref). tensor_refs-append r cloned (tensor_of t ∷ []) in
    let one = λ (r : Ref). count-append r here [] in
    Takes-then xs (more ++ xs) (old ++ ((here ++ rest) ++ xs)) s u step
      (clone_each (cloned ++ tensor_of t ∷ []) ts)
      (Ends-map (Takes (here ++ (old ++ xs)) s u) (Takes (more ++ xs) s u) (Holding xs s) (step u)
        (λ _ v (k, same). (
          Holding-perm (here ++ (old ++ xs)) (more ++ xs) s v
              (λ r. omega (
                arith,
                base r,
                grown r,
                one r,
                count-append r here (old ++ xs),
                count-append r more xs,
              ))
              k,
          same,
        ))
        (recover_tensors-Ends (Takes (here ++ (old ++ xs)) s u) xs (old ++ xs) cloned s
          (clone_tensor t u) base
          (clone_tensor-Ends (old ++ xs) t s u h (All-append_left _ here rest live)
            (λ r. omega (arith, fits r, split r, base r)))))
      λ v k.
        Ends-map (Takes (more ++ (rest ++ xs)) s v) (Takes (old ++ ((here ++ rest) ++ xs)) s v)
          (Holding xs s) (clone_each (cloned ++ tensor_of t ∷ []) ts v)
          (λ _ w (l, same). (
            Holding-perm (more ++ (rest ++ xs)) (old ++ ((here ++ rest) ++ xs)) s w
                (λ r. omega (
                  arith,
                  grown r,
                  one r,
                  split r,
                  count-append r more (rest ++ xs),
                  count-append r rest xs,
                  count-append r old ((here ++ rest) ++ xs),
                  count-append r (here ++ rest) xs,
                ))
                l,
            same,
          ))
          (clone_each-Ends xs (cloned ++ tensor_of t ∷ []) ts s v k
            (All-append_right _ here rest live)
            (λ r. omega (arith, fits r, split r, grown r, one r)))

pub clone_array-Ends :
    (xs : List Ref) (ts : List TensorDesc) (s u : State)
    → Holding xs s u
    → IsLive s.heap (desc_refs ts)
    → ((r : Ref) → ref_count s.heap r + count r (desc_refs ts) + count r xs < word32)
    → Ends (Takes (desc_refs ts ++ xs) s u) (Holding xs s) (clone_array ts u)
unfolding clone_array
clone_array-Ends xs [] s u h live fits = (h, refl)
clone_array-Ends xs (t ∷ ts) s u h live fits =
    Takes-then xs xs (desc_refs (t ∷ ts) ++ xs) s u allocate (clone_each [] (t ∷ ts))
      (allocate-Ends xs s u h)
      λ v k. clone_each-Ends xs [] (t ∷ ts) s v k live (λ r. omega (arith, fits r))
