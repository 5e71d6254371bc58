-- ===== src/Launch/Steps.antt =====
-- The postcondition of a step of mgGraphLaunch, and mg_launch_retain_command_buffer with the growth of its
-- array, in src/metal/metal_backend.mm.
use metal_graph.Base.{
  ℕ, word64, ltb, ◌*◌, ◌%◌, ◌^◌, ◌<◌, ◌≡◌, refl, arith, ◌==◌, Bool-cases, inl, inr,
}
use metal_graph.Types.{Stage}
use metal_graph.Outcome.{Outcome, M, after, require, oom_at}
use metal_graph.Heap.{malloc}
use metal_graph.Graph.{is_given}
use metal_graph.Heap.Refs.{Ref}
use metal_graph.Heap.RefLists.{malloc-counts, malloc-HeapKept}
use metal_graph.Graph.Holding.{Ends, Ends-bind, Ends-map}
use metal_graph.Launch.{
  Session, allocate, retain_command_buffer, put_capacity, grow_impls, next_impls,
}
use metal_graph.Launch.Taking.{Took-moved, count_impl-Ends, put_capacity-Took}
use metal_graph.Launch.Took.{Took, Balanced, Took-Balanced}

-- The postcondition of a step.
abbrev pub Takes : (Ref → ℕ) → ℕ → ℕ → Session → Outcome (Unit {0}) × Session → Type 0
Takes taken b e s r = Ends (λ _ t. Took taken b e s t) (Balanced s) r

-- Two steps in turn.
pub Takes-then :
    (x y : Ref → ℕ) (b c e f : ℕ) (s : Session) (r : Outcome (Unit {0}) × Session)
    (k : Unit {0} → M Session (Unit {0}))
    → Takes x b e s r
    → ((t : Session) → Took x b e s t → Takes y c f s (k tt t))
    → Takes y c f s (after r k)
Takes-then x y b c e f s r k first next =
    Ends-bind (λ _ t. Took x b e s t) (λ _ t. Took y c f s t) (Balanced s) r k first
      (λ _ t h. next t h)

-- Only the counts matter.
pub Took-eq :
    (x y : Ref → ℕ) (b c e f : ℕ) (s t : Session)
    → ((r : Ref) → x r ≡ y r)
    → b ≡ c
    → e ≡ f
    → Took x b e s t
    → Took y c f s t
Took-eq x y b c e f s t same b_is e_is h = record {
  counts = λ r. omega (arith, h.counts r, same r);
  refs = λ r. omega (arith, h.refs r, same r);
  kept = h.kept;
  buffers = let n = h.buffers in omega arith;
  events = let n = h.events in omega arith;
  buffer_room = h.buffer_room;
  event_room = h.event_room;
  completed = h.completed;
  impls = h.impls;
  exec = h.exec;
}

pub Takes-eq :
    (x y : Ref → ℕ) (b c e f : ℕ) (s : Session) (r : Outcome (Unit {0}) × Session)
    → ((q : Ref) → x q ≡ y q)
    → b ≡ c
    → e ≡ f
    → Takes x b e s r
    → Takes y c f s r
Takes-eq x y b c e f s r same b_is e_is =
    Ends-map (λ _ t. Took x b e s t) (λ _ t. Took y c f s t) (Balanced s) r
      (λ _ t. Took-eq x y b c e f s t same b_is e_is)

module _ (taken : Ref → ℕ) (b e : ℕ) (s t : Session) (h : Took taken b e s t) where
  -- A full array grows, or the state is as it was but for the allocator.
  grow_impls-Ends :
      t.launch.impl_count ≡ t.launch.impl_capacity
      → Ends
          (λ _ u. Took taken b e s u × (u.launch.impl_count < u.launch.impl_capacity))
          (Balanced s)
          (grow_impls t)
  unfolding grow_impls allocate
  grow_impls-Ends full =
      Ends-bind (λ (_ : Unit {0}) u. Took taken b e s u × (u.launch ≡ t.launch))
        (λ (_ : Unit {0}) u. Took taken b e s u × (u.launch.impl_count < u.launch.impl_capacity))
        (Balanced s) (allocate t) _ allocated λ _ u (k, same). enough u k (rw (← same) at full)
    where
      allocated :
          Ends
            (λ (_ : Unit {0}) u. Took taken b e s u × (u.launch ≡ t.launch))
            (Balanced s)
            (allocate t)
      allocated =
          let u = record t { heap = (malloc t.heap).1 } in
          let same =
            Took-moved taken b e s t h u refl (malloc-counts t.heap) (malloc-HeapKept t.heap) refl
              refl refl refl refl h.impls in
          elim (Bool-cases (is_given (malloc t.heap).0)) [
            | inl ok ↦ rw ok (same, refl)
            | inr bad ↦ rw bad (Took-Balanced taken b e s u same)
          ]

      enough :
          (u : Session)
          → Took taken b e s u
          → u.launch.impl_count ≡ u.launch.impl_capacity
          → Ends
              (λ (_ : Unit {0}) v.
                Took taken b e s v × (v.launch.impl_count < v.launch.impl_capacity))
              (Balanced s)
              (after
                (require
                  (ltb (next_impls u.launch.impl_capacity * 8 % word64) (2 ^ 63))
                  (oom_at Stage.encode)
                  u)
                λ _. put_capacity)
      enough u k full' =
          elim (Bool-cases (ltb (next_impls u.launch.impl_capacity * 8 % word64) (2 ^ 63))) [
            | inl fits ↦ rw fits (put_capacity-Took taken b e s u k full' fits)
            | inr over ↦ rw over (Took-Balanced taken b e s u k)
          ]

  pub retain_command_buffer-Takes : Takes taken b e s (retain_command_buffer t)
  unfolding retain_command_buffer
  retain_command_buffer-Takes = elim (Bool-cases (t.launch.impl_count == t.launch.impl_capacity)) [
    | inl full ↦ rw full (
        Ends-bind
          (λ (_ : Unit {0}) u. Took taken b e s u × (u.launch.impl_count < u.launch.impl_capacity))
          (λ (_ : Unit {0}) u. Took taken b e s u) (Balanced s) (grow_impls t) _
          (grow_impls-Ends (ground arith)) λ _ u (k, space). count_impl-Ends taken b e s u k space)
    | inr free ↦ rw free (let held = h.impls.held in count_impl-Ends taken b e s t h (ground arith))
  ]
