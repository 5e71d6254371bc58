-- ===== src/Launch/Lists.antt =====
-- The references of one node, and of its bindings and tensors, in mgGraphLaunch of src/metal/metal_backend.mm.
use metal_graph.Base.{ℕ, ◌+◌, ◌≡◌, refl, Option, none, some, List, [], ◌∷◌, length, arith}
use metal_graph.Outcome.{M, after}
use metal_graph.Heap.Refs.{Ref, buffer, event, count}
use metal_graph.Heap.RefLists.{count-append}
use metal_graph.Node.{BufferBinding, Tensor, buffer_refs, event_refs, binding_refs, tensor_refs}
use metal_graph.Launch.{Session, hold_buffer, hold_event, hold_bindings, hold_tensors}
use metal_graph.Launch.Taking.{hold_buffer-Ends, hold_event-Ends}
use metal_graph.Launch.Took.{Took, Room}
use metal_graph.Launch.Steps.{Takes, Takes-eq, Takes-then, Took-eq}

-- No pointer of the array is NULL.
abbrev pub BindingsGiven : List BufferBinding → Type 0
BindingsGiven [] = Unit {0}
BindingsGiven (x ∷ xs) = ((p : ℕ) × (x.buffer ≡ some p)) × BindingsGiven xs

abbrev pub TensorsGiven : List Tensor → Type 0
TensorsGiven [] = Unit {0}
TensorsGiven (x ∷ xs) = ((p : ℕ) × (x.buffer ≡ some p)) × TensorsGiven xs

-- The part of the room that a first step needs, and what is left for the rest.
pub Room-first :
    (x y : Ref → ℕ) (m n c f : ℕ) (taken : Ref → ℕ) (b e : ℕ) (s : Session)
    → Room (λ r. x r + y r) (m + c) (n + f) taken b e s
    → Room x m n taken b e s
Room-first x y m n c f taken b e s room = record {
  live = λ r pos. room.live r (omega arith);
  fits = λ r. omega (arith, room.fits r);
  buffers = let k = room.buffers in omega arith;
  events = let k = room.events in omega arith;
}

pub Room-rest :
    (x y : Ref → ℕ) (m n c f : ℕ) (taken : Ref → ℕ) (b e : ℕ) (s : Session)
    → Room (λ r. x r + y r) (m + c) (n + f) taken b e s
    → Room y c f (λ r. taken r + x r) (b + m) (e + n) s
Room-rest x y m n c f taken b e s room = record {
  live = λ r pos. room.live r (omega arith);
  fits = λ r. omega (arith, room.fits r);
  buffers = let k = room.buffers in omega arith;
  events = let k = room.events in omega arith;
}

pub Room-eq :
    (x y : Ref → ℕ) (m n c f : ℕ) (taken : Ref → ℕ) (b e : ℕ) (s : Session)
    → ((r : Ref) → x r ≡ y r)
    → m ≡ c
    → n ≡ f
    → Room x m n taken b e s
    → Room y c f taken b e s
Room-eq x y m n c f taken b e s same m_is n_is room = record {
  live = λ r pos. room.live r (omega (arith, same r));
  fits = λ r. omega (arith, room.fits r, same r);
  buffers = let k = room.buffers in omega arith;
  events = let k = room.events in omega arith;
}

-- A pointer is given.
abbrev pub IsGiven : Option ℕ → Type 0
IsGiven o = (p : ℕ) × (o ≡ some p)

-- The reference of a pointer is taken, and what follows goes on with it.
pub hold_buffer-then :
    (o : Option ℕ) (z : Ref → ℕ) (c f : ℕ) (taken : Ref → ℕ) (b e : ℕ) (s t : Session)
    (k : Unit {0} → M Session (Unit {0}))
    → IsGiven o
    → Room (λ r. count r (buffer_refs o)) 1 0 taken b e s
    → Took taken b e s t
    → ((u : Session)
        → Took (λ r. taken r + count r (buffer_refs o)) (b + 1) (e + 0) s u
        → Takes z c f s (k tt u))
    → Takes z c f s (after (hold_buffer o t) k)
hold_buffer-then none z c f taken b e s t k given room h next = let bad = given.1 in cc
hold_buffer-then (some p) z c f taken b e s t k given room h next =
    Takes-then (λ r. taken r + count r (buffer p ∷ [])) z (b + 1) c (e + 0) f s
      (hold_buffer (some p) t) k
      (Takes-eq _ _ _ _ _ _ s (hold_buffer (some p) t) (λ r. omega arith) refl (omega arith)
        (hold_buffer-Ends taken b e s t h p
          (Room-eq _ _ _ _ _ _ taken b e s (λ r. omega arith) refl refl room)))
      next

pub hold_event-then :
    (o : Option ℕ) (z : Ref → ℕ) (c f : ℕ) (taken : Ref → ℕ) (b e : ℕ) (s t : Session)
    (k : Unit {0} → M Session (Unit {0}))
    → IsGiven o
    → Room (λ r. count r (event_refs o)) 0 1 taken b e s
    → Took taken b e s t
    → ((u : Session)
        → Took (λ r. taken r + count r (event_refs o)) (b + 0) (e + 1) s u
        → Takes z c f s (k tt u))
    → Takes z c f s (after (hold_event o t) k)
hold_event-then none z c f taken b e s t k given room h next = let bad = given.1 in cc
hold_event-then (some p) z c f taken b e s t k given room h next =
    Takes-then (λ r. taken r + count r (event p ∷ [])) z (b + 0) c (e + 1) f s
      (hold_event (some p) t) k
      (Takes-eq _ _ _ _ _ _ s (hold_event (some p) t) (λ r. omega arith) (omega arith) refl
        (hold_event-Ends taken b e s t h p
          (Room-eq _ _ _ _ _ _ taken b e s (λ r. omega arith) refl refl room)))
      next

pub hold_bindings-Takes :
    (bs : List BufferBinding) (taken : Ref → ℕ) (b e : ℕ) (s t : Session)
    → BindingsGiven bs
    → Room (λ r. count r (binding_refs bs)) (length bs) 0 taken b e s
    → Took taken b e s t
    → Takes
        (λ r. taken r + count r (binding_refs bs))
        (b + length bs)
        (e + 0)
        s
        (hold_bindings bs t)
unfolding hold_bindings
hold_bindings-Takes [] taken b e s t given room h =
    Took-eq taken _ b _ e _ s t (λ r. omega arith) (omega arith) (omega arith) h
hold_bindings-Takes (x ∷ bs) taken b e s t given room h =
    let one = λ (r : Ref). count r (buffer_refs x.buffer) in
    let rest = λ (r : Ref). count r (binding_refs bs) in
    let whole : Room (λ r. one r + rest r) (1 + length bs) (0 + 0) taken b e s =
      Room-eq _ _ _ _ _ _ taken b e s (λ r. count-append r (buffer_refs x.buffer) (binding_refs bs))
        (omega arith) (omega arith) room in
    hold_buffer-then x.buffer _ _ _ taken b e s t (λ _. hold_bindings bs) given.0
      (Room-first one rest 1 0 (length bs) 0 taken b e s whole) h
      λ u k.
        Takes-eq _ _ _ _ _ _ s (hold_bindings bs u)
          (λ r. omega (arith, count-append r (buffer_refs x.buffer) (binding_refs bs)))
          (omega arith) (omega arith)
          (hold_bindings-Takes bs (λ r. taken r + one r) (b + 1) (e + 0) s u given.1
            (Room-rest one rest 1 0 (length bs) 0 taken b e s whole) k)

pub hold_tensors-Takes :
    (ts : List Tensor) (taken : Ref → ℕ) (b e : ℕ) (s t : Session)
    → TensorsGiven ts
    → Room (λ r. count r (tensor_refs ts)) (length ts) 0 taken b e s
    → Took taken b e s t
    → Takes (λ r. taken r + count r (tensor_refs ts)) (b + length ts) (e + 0) s (hold_tensors ts t)
unfolding hold_tensors
hold_tensors-Takes [] taken b e s t given room h =
    Took-eq taken _ b _ e _ s t (λ r. omega arith) (omega arith) (omega arith) h
hold_tensors-Takes (x ∷ ts) taken b e s t given room h =
    let one = λ (r : Ref). count r (buffer_refs x.buffer) in
    let rest = λ (r : Ref). count r (tensor_refs ts) in
    let whole : Room (λ r. one r + rest r) (1 + length ts) (0 + 0) taken b e s =
      Room-eq _ _ _ _ _ _ taken b e s (λ r. count-append r (buffer_refs x.buffer) (tensor_refs ts))
        (omega arith) (omega arith) room in
    hold_buffer-then x.buffer _ _ _ taken b e s t (λ _. hold_tensors ts) given.0
      (Room-first one rest 1 0 (length ts) 0 taken b e s whole) h
      λ u k.
        Takes-eq _ _ _ _ _ _ s (hold_tensors ts u)
          (λ r. omega (arith, count-append r (buffer_refs x.buffer) (tensor_refs ts))) (omega arith)
          (omega arith)
          (hold_tensors-Takes ts (λ r. taken r + one r) (b + 1) (e + 0) s u given.1
            (Room-rest one rest 1 0 (length ts) 0 taken b e s whole) k)
