-- ===== src/Launch/Destroy.antt =====
-- mgLaunchDestroy of src/metal/metal_backend.mm gives back what the arrays of the launch hold.
use metal_graph.Base.{ℕ, ◌≤◌, ◌≡◌, refl, Option, none, some, List, [], ◌∷◌, arith}
use metal_graph.Heap.{Heap, buffer_release, event_release}
use metal_graph.Heap.Counting.{release}
use metal_graph.Heap.Refs.{
  Ref, buffer, event, ref_count, count, HeapKept-refl, HeapKept-trans, Shrunk, release_ref,
  release_ref-Shrunk, one_for_self,
}
use metal_graph.Heap.RefLists.{count-append}
use metal_graph.Launch.{Launch}
use metal_graph.Launch.Calls.{release_buffers, release_events, launch_destroy}
use metal_graph.Launch.Took.{buffer_pointers, event_pointers, launch_refs}

release_no_buffer : (h : Heap) → buffer_release none h ≡ some h
unfolding buffer_release release
release_no_buffer h = refl

release_buffers-Shrunk :
    (ps : List (Option ℕ)) (h : Heap)
    → ((r : Ref) → count r (buffer_pointers ps) ≤ ref_count h r)
    → (k : Heap) × (release_buffers ps h ≡ some k) × Shrunk (buffer_pointers ps) h k
unfolding release_buffers release_ref
release_buffers-Shrunk [] h held =
    (h, refl, record { counts = λ r. omega arith; kept = HeapKept-refl h })
release_buffers-Shrunk (none ∷ ps) h held =
    let (k, e, all) = release_buffers-Shrunk ps h held in
    (k, rw (release_no_buffer h, release_buffers) e, all)
release_buffers-Shrunk (some p ∷ ps) h held =
    let x = buffer p in
    let (g, e, one) = release_ref-Shrunk x h (omega (arith, held x, one_for_self x)) in
    let (k, e', rest) = release_buffers-Shrunk ps g (λ r. omega (arith, one.counts r, held r)) in
    (
      k,
      rw (e, release_buffers) e',
      record {
        counts = λ r. omega (arith, one.counts r, rest.counts r);
        kept = HeapKept-trans one.kept rest.kept;
      },
    )

release_no_event : (h : Heap) → event_release none h ≡ some h
unfolding event_release release
release_no_event h = refl

release_events-Shrunk :
    (ps : List (Option ℕ)) (h : Heap)
    → ((r : Ref) → count r (event_pointers ps) ≤ ref_count h r)
    → (k : Heap) × (release_events ps h ≡ some k) × Shrunk (event_pointers ps) h k
unfolding release_events release_ref
release_events-Shrunk [] h held =
    (h, refl, record { counts = λ r. omega arith; kept = HeapKept-refl h })
release_events-Shrunk (none ∷ ps) h held =
    let (k, e, all) = release_events-Shrunk ps h held in
    (k, rw (release_no_event h, release_events) e, all)
release_events-Shrunk (some p ∷ ps) h held =
    let x = event p in
    let (g, e, one) = release_ref-Shrunk x h (omega (arith, held x, one_for_self x)) in
    let (k, e', rest) = release_events-Shrunk ps g (λ r. omega (arith, one.counts r, held r)) in
    (
      k,
      rw (e, release_events) e',
      record {
        counts = λ r. omega (arith, one.counts r, rest.counts r);
        kept = HeapKept-trans one.kept rest.kept;
      },
    )

-- The destruction of a launch whose references are counted.
pub launch_destroy-Shrunk :
    (l : Launch) (h : Heap)
    → ((r : Ref) → count r (launch_refs l) ≤ ref_count h r)
    → (k : Heap) × (launch_destroy l h ≡ some k) × Shrunk (launch_refs l) h k
unfolding launch_destroy
launch_destroy-Shrunk l h held =
    let split = λ (r : Ref).
      count-append r (buffer_pointers l.retained_buffers) (event_pointers l.retained_events) in
    let (g, e, one) =
      release_buffers-Shrunk l.retained_buffers h (λ r. omega (arith, held r, split r)) in
    let (k, e', rest) =
      release_events-Shrunk l.retained_events g
        (λ r. omega (arith, held r, split r, one.counts r)) in
    (
      k,
      rw (e, launch_destroy) e',
      record {
        counts = λ r. omega (arith, split r, one.counts r, rest.counts r);
        kept = HeapKept-trans one.kept rest.kept;
      },
    )
