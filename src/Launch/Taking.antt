-- ===== src/Launch/Taking.antt =====
-- What the steps of mgGraphLaunch in src/metal/metal_backend.mm do to the reference counts and to the
-- arrays of the launch: a rule for each, in the form that the proofs chain.
use metal_graph.Base.{
  ℕ, ◌==◌, word64, ◌*◌, ◌%◌, ◌/◌, ◌^◌, suc, ◌+◌, ◌<◌, ◌≡◌, refl, ◌∙◌, true, Bool, ltb, some, [],
  ◌∷◌, ◌++◌, length, length-append, arith, Bool-cases, inl, inr,
}
use metal_graph.Outcome.{Failure}
use metal_graph.Heap.{malloc}
use metal_graph.Heap.Counting.{word32}
use metal_graph.Heap.Refs.{
  Ref, buffer, event, ref_count, one_for, one_for_self, HeapKept, HeapKept-refl, HeapKept-trans,
  retain_ref, retain_ref-Grown,
}
use metal_graph.Heap.RefLists.{count-append, malloc-HeapKept, malloc-counts}
use metal_graph.Graph.{is_given}
use metal_graph.Graph.Holding.{Ends}
use metal_graph.Launch.{
  Session, need, allocate, note_buffer, note_event, hold_buffer, hold_event, count_impl,
  put_capacity, next_impls,
}
use metal_graph.Launch.Took.{
  Balanced, ImplsFit, Room, Took, Took-Balanced, buffer_pointers, buffer_pointers-snoc,
  event_pointers, event_pointers-snoc,
}

next_impls-Fits :
    (capacity : ℕ)
    → capacity < 2 ^ 60
    → ltb (next_impls capacity * 8 % word64) (2 ^ 63) ≡ true
    → (capacity < next_impls capacity)
      × (next_impls capacity < 2 ^ 60)
      × (next_impls capacity * 8 % word64 / 8 ≡ next_impls capacity)
next_impls-Fits capacity small = elim (Bool-cases (capacity == 0)) [
  | inl empty ↦ rw empty (λ fits. (ground arith, ground arith, refl))
  | inr held ↦ rw held (λ fits.
      let no_wrap : capacity * 2 % word64 ≡ capacity * 2 = omega arith in
      let bound : capacity * 2 % word64 * 8 % word64 < 2 ^ 63 = ground arith in
      (ground arith, omega arith, omega arith))
]

module _ (taken : Ref → ℕ) (b e : ℕ) (s t : Session) (h : Took taken b e s t) where
  pub hold_buffer-Ends :
      (p : ℕ)
      → Room (λ r. one_for (buffer p) r) 1 0 taken b e s
      → Ends
          (λ _ u. Took (λ r. taken r + one_for (buffer p) r) (b + 1) e s u)
          (Balanced s)
          (hold_buffer (some p) t)
  unfolding hold_buffer retain_ref
  hold_buffer-Ends p room =
      let x = buffer p in
      let self = one_for_self x in
      let live : 0 < ref_count t.heap x = omega (arith, h.counts x, room.live x (omega arith)) in
      let fits : ref_count t.heap x + 1 < word32 = omega (arith, h.counts x, room.fits x) in
      let (g, found, one) = retain_ref-Grown x t.heap live fits in
      let size = h.buffers in
      let bound = h.buffer_room in
      let space = room.buffers in
      let test : ltb (length t.launch.retained_buffers) t.launch.buffer_room ≡ true =
        ground arith in
      rw (found, note_buffer, test)
        (record {
          counts = λ r. omega (arith, one.counts r, h.counts r);
          refs = λ r. omega (
            arith,
            h.refs r,
            buffer_pointers-snoc r t.launch.retained_buffers p,
            count-append r (buffer_pointers t.launch.retained_buffers)
                (event_pointers t.launch.retained_events),
            count-append r (buffer_pointers (t.launch.retained_buffers ++ some p ∷ []))
                (event_pointers t.launch.retained_events),
          );
          kept = HeapKept-trans h.kept one.kept;
          buffers = omega (arith, length-append t.launch.retained_buffers (some p ∷ []));
          events = h.events;
          buffer_room = h.buffer_room;
          event_room = h.event_room;
          completed = h.completed;
          impls = record { held = h.impls.held; room = h.impls.room; small = h.impls.small };
          exec = h.exec;
        })

  pub hold_event-Ends :
      (p : ℕ)
      → Room (λ r. one_for (event p) r) 0 1 taken b e s
      → Ends
          (λ _ u. Took (λ r. taken r + one_for (event p) r) b (e + 1) s u)
          (Balanced s)
          (hold_event (some p) t)
  unfolding hold_event retain_ref
  hold_event-Ends p room =
      let x = event p in
      let self = one_for_self x in
      let live : 0 < ref_count t.heap x = omega (arith, h.counts x, room.live x (omega arith)) in
      let fits : ref_count t.heap x + 1 < word32 = omega (arith, h.counts x, room.fits x) in
      let (g, found, one) = retain_ref-Grown x t.heap live fits in
      let size = h.events in
      let bound = h.event_room in
      let space = room.events in
      let test : ltb (length t.launch.retained_events) t.launch.event_room ≡ true = ground arith in
      rw (found, note_event, test)
        (record {
          counts = λ r. omega (arith, one.counts r, h.counts r);
          refs = λ r. omega (
            arith,
            h.refs r,
            event_pointers-snoc r t.launch.retained_events p,
            count-append r (buffer_pointers t.launch.retained_buffers)
                (event_pointers t.launch.retained_events),
            count-append r (buffer_pointers t.launch.retained_buffers)
                (event_pointers (t.launch.retained_events ++ some p ∷ [])),
          );
          kept = HeapKept-trans h.kept one.kept;
          buffers = h.buffers;
          events = omega (arith, length-append t.launch.retained_events (some p ∷ []));
          buffer_room = h.buffer_room;
          event_room = h.event_room;
          completed = h.completed;
          impls = record { held = h.impls.held; room = h.impls.room; small = h.impls.small };
          exec = h.exec;
        })

  -- Steps that leave the arrays, the counts and the executable alone.
  pub Took-moved :
      (u : Session)
      → u.exec ≡ t.exec
      → ((r : Ref) → ref_count u.heap r ≡ ref_count t.heap r)
      → HeapKept t.heap u.heap
      → u.launch.retained_buffers ≡ t.launch.retained_buffers
      → u.launch.retained_events ≡ t.launch.retained_events
      → u.launch.buffer_room ≡ t.launch.buffer_room
      → u.launch.event_room ≡ t.launch.event_room
      → u.launch.completed ≡ t.launch.completed
      → ImplsFit u.launch
      → Took taken b e s u
  Took-moved u exec counts kept buffers events buffer_room event_room completed impls = record {
    counts = λ r. counts r ∙ h.counts r;
    refs = λ r. rw (buffers, events) (h.refs r);
    kept = HeapKept-trans h.kept kept;
    buffers = rw buffers h.buffers;
    events = rw events h.events;
    buffer_room = buffer_room ∙ h.buffer_room;
    event_room = event_room ∙ h.event_room;
    completed = completed ∙ h.completed;
    impls = impls;
    exec = exec ∙ h.exec;
  }

  pub need-Ends : (f : Failure) → Ends (λ _ u. Took taken b e s u) (Balanced s) (need f t)
  unfolding need
  need-Ends f =
      let u = record t { asked = suc t.asked } in
      let same =
        Took-moved u refl (λ r. refl) (HeapKept-refl t.heap) refl refl refl refl refl h.impls in
      elim (Bool-cases (t.says t.asked)) [
        | inl ok ↦ rw ok same
        | inr bad ↦ rw bad (Took-Balanced taken b e s u same)
      ]

  pub put_work-Took : (w : Bool) → Took taken b e s (record t { has_work = w })
  put_work-Took w =
      Took-moved _ refl (λ r. refl) (HeapKept-refl t.heap) refl refl refl refl refl h.impls

  pub allocate-Ends : Ends (λ _ u. Took taken b e s u) (Balanced s) (allocate t)
  unfolding allocate
  allocate-Ends =
      let u = record t { heap = (malloc t.heap).1 } in
      let same =
        Took-moved u refl (malloc-counts t.heap) (malloc-HeapKept t.heap) refl refl refl refl refl
          h.impls in
      elim (Bool-cases (is_given (malloc t.heap).0)) [
        | inl ok ↦ rw ok same
        | inr bad ↦ rw bad (Took-Balanced taken b e s u same)
      ]

  -- A command buffer is noted where there is room for it.
  pub count_impl-Ends :
      t.launch.impl_count < t.launch.impl_capacity
      → Ends (λ _ u. Took taken b e s u) (Balanced s) (count_impl t)
  count_impl-Ends space =
      let room = h.impls.room in
      let test : ltb t.launch.impl_count t.launch.impl_room ≡ true = ground arith in
      rw test (
        Took-moved _ refl (λ r. refl) (HeapKept-refl t.heap) refl refl refl refl refl
          (record { held = omega arith; room = room; small = h.impls.small }))

  -- The growth of a full array.
  pub put_capacity-Took :
      t.launch.impl_count ≡ t.launch.impl_capacity
      → ltb (next_impls t.launch.impl_capacity * 8 % word64) (2 ^ 63) ≡ true
      → Took taken b e s (put_capacity t).1
        × ((put_capacity t).1.launch.impl_count < (put_capacity t).1.launch.impl_capacity)
  put_capacity-Took full fits =
      let small = h.impls.small in
      let (more, bound, room) = next_impls-Fits t.launch.impl_capacity small fits in
      (
        Took-moved _ refl (λ r. refl) (HeapKept-refl t.heap) refl refl refl refl refl
            (record { held = omega arith; room = room; small = bound }),
        omega arith,
      )
