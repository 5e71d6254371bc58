-- ===== src/Launch/Took.antt =====
-- What a launch of src/metal/metal_backend.mm has taken, and what it still has room for.
use metal_graph.Base.{ℕ, ◌^◌, ◌+◌, ◌≤◌, ◌<◌, ◌≡◌, Option, some, List, [], ◌∷◌, ◌++◌, length, arith}
use metal_graph.Heap.Counting.{word32}
use metal_graph.Heap.Refs.{Ref, buffer, event, ref_count, count, one_for, HeapKept}
use metal_graph.Heap.RefLists.{count-append}
use metal_graph.Node.{buffer_refs, event_refs}
use metal_graph.Launch.{Launch, Session}

-- The references behind the arrays of a launch.
abbrev pub buffer_pointers : List (Option ℕ) → List Ref
buffer_pointers [] = []
buffer_pointers (p ∷ ps) = buffer_refs p ++ buffer_pointers ps

abbrev pub event_pointers : List (Option ℕ) → List Ref
event_pointers [] = []
event_pointers (p ∷ ps) = event_refs p ++ event_pointers ps

abbrev pub launch_refs : Launch → List Ref
launch_refs l = buffer_pointers l.retained_buffers ++ event_pointers l.retained_events

-- The array of command buffers holds what is in it, and is as long as its capacity says.
pub record ImplsFit (l : Launch) : Type 0 where
  pub held : l.impl_count ≤ l.impl_capacity
  pub room : l.impl_room ≡ l.impl_capacity
  pub small : l.impl_capacity < 2 ^ 60

-- From `s` to `t` the launch has taken the references that `taken` counts, of `b` buffers and `e`
-- events.
pub record Took (taken : Ref → ℕ) (b e : ℕ) (s t : Session) : Type 0 where
  pub counts : (r : Ref) → ref_count t.heap r ≡ ref_count s.heap r + taken r
  pub refs : (r : Ref) → count r (launch_refs t.launch) ≡ count r (launch_refs s.launch) + taken r
  pub kept : HeapKept s.heap t.heap
  pub buffers : length t.launch.retained_buffers ≡ length s.launch.retained_buffers + b
  pub events : length t.launch.retained_events ≡ length s.launch.retained_events + e
  pub buffer_room : t.launch.buffer_room ≡ s.launch.buffer_room
  pub event_room : t.launch.event_room ≡ s.launch.event_room
  pub completed : t.launch.completed ≡ s.launch.completed
  pub impls : ImplsFit t.launch
  pub exec : t.exec ≡ s.exec

-- Whatever the launch has taken on the way is in its arrays.
pub record Balanced (s t : Session) : Type 0 where
  pub counts :
      (r : Ref)
      → ref_count t.heap r + count r (launch_refs s.launch)
        ≡ ref_count s.heap r + count r (launch_refs t.launch)
  pub kept : HeapKept s.heap t.heap
  pub exec : t.exec ≡ s.exec

pub Took-Balanced : (taken : Ref → ℕ) (b e : ℕ) (s t : Session) → Took taken b e s t → Balanced s t
Took-Balanced taken b e s t h = record {
  counts = λ r. omega (arith, h.counts r, h.refs r);
  kept = h.kept;
  exec = h.exec;
}

-- What is still to be taken: the objects live, and counters and arrays have room.
pub record Room (ys : Ref → ℕ) (m n : ℕ) (taken : Ref → ℕ) (b e : ℕ) (s : Session) : Type 0 where
  pub live : (r : Ref) → 0 < ys r → 0 < ref_count s.heap r
  pub fits : (r : Ref) → ref_count s.heap r + taken r + ys r < word32
  pub buffers : length s.launch.retained_buffers + b + m ≤ s.launch.buffer_room
  pub events : length s.launch.retained_events + e + n ≤ s.launch.event_room

pub buffer_pointers-snoc :
    (r : Ref) (ps : List (Option ℕ)) (p : ℕ)
    → count r (buffer_pointers (ps ++ some p ∷ []))
      ≡ count r (buffer_pointers ps) + one_for (buffer p) r
buffer_pointers-snoc r [] p = omega arith
buffer_pointers-snoc r (q ∷ ps) p = omega (
  arith,
  buffer_pointers-snoc r ps p,
  count-append r (buffer_refs q) (buffer_pointers ps),
  count-append r (buffer_refs q) (buffer_pointers (ps ++ some p ∷ [])),
)

pub event_pointers-snoc :
    (r : Ref) (ps : List (Option ℕ)) (p : ℕ)
    → count r (event_pointers (ps ++ some p ∷ []))
      ≡ count r (event_pointers ps) + one_for (event p) r
event_pointers-snoc r [] p = omega arith
event_pointers-snoc r (q ∷ ps) p = omega (
  arith,
  event_pointers-snoc r ps p,
  count-append r (event_refs q) (event_pointers ps),
  count-append r (event_refs q) (event_pointers (ps ++ some p ∷ [])),
)
