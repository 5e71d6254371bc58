-- ===== src/Heap/Refs.antt =====
-- References as values: what a retain or a release of one does to the counts. It is the view in which
-- the counts of src/core/buffer.c and src/core/arena.c are balanced.
use metal_graph.Base.{ℕ, ◌+◌, ◌<◌, ◌≡◌, refl, ◌∙◌, Option, some, List, [], ◌∷◌, arith}
use metal_graph.Heap.Counting.{
  refs, Kept, Kept-refl, Kept-trans, one_at, word32, retain_lem, release_lem,
}
use metal_graph.Heap.{
  Heap, buffer_counted, event_counted, arena_counted, buffer_retain, buffer_release, event_retain,
  event_release, arena_retain, arena_release, notify_owner,
}

-- A pointer to a counted object.
pub data Ref : Type 0 where
  buffer event arena : ℕ → Ref

unfoldable pub retain_ref : Ref → Heap → Option Heap
retain_ref (buffer p) = buffer_retain (some p)
retain_ref (event p) = event_retain (some p)
retain_ref (arena p) = arena_retain (some p)

unfoldable pub release_ref : Ref → Heap → Option Heap
release_ref (buffer p) = buffer_release (some p)
release_ref (event p) = event_release (some p)
release_ref (arena p) = arena_release (some p)

-- The `ref_count` of the object; 0 if it is gone.
abbrev pub ref_count : Heap → Ref → ℕ
ref_count h (buffer p) = refs h.buffers p
ref_count h (event p) = refs h.events p
ref_count h (arena p) = refs h.arenas p

abbrev pub one_for : Ref → Ref → ℕ
one_for (buffer p) (buffer q) = one_at p q
one_for (event p) (event q) = one_at p q
one_for (arena p) (arena q) = one_at p q
one_for _ _ = 0

abbrev pub count : Ref → List Ref → ℕ
count r [] = 0
count r (x ∷ xs) = one_for x r + count r xs

-- Objects may go, and counts may change; nothing else does.
pub record HeapKept (h g : Heap) : Type 0 where
  pub buffers : Kept h.buffers g.buffers
  pub events : Kept h.events g.events
  pub arenas : Kept h.arenas g.arenas
  pub answers : g.answers ≡ h.answers

pub HeapKept-refl : (h : Heap) → HeapKept h h
HeapKept-refl h = record {
  buffers = Kept-refl h.buffers;
  events = Kept-refl h.events;
  arenas = Kept-refl h.arenas;
  answers = refl;
}

pub HeapKept-trans : {h g k : Heap} → HeapKept h g → HeapKept g k → HeapKept h k
HeapKept-trans a b = record {
  buffers = Kept-trans a.buffers b.buffers;
  events = Kept-trans a.events b.events;
  arenas = Kept-trans a.arenas b.arenas;
  answers = b.answers ∙ a.answers;
}

-- The references of the list were added to the counts.
pub record Grown (xs : List Ref) (h g : Heap) : Type 0 where
  pub counts : (r : Ref) → ref_count g r ≡ ref_count h r + count r xs
  pub kept : HeapKept h g

-- The references of the list were taken off the counts.
pub record Shrunk (xs : List Ref) (h g : Heap) : Type 0 where
  pub counts : (r : Ref) → ref_count g r + count r xs ≡ ref_count h r
  pub kept : HeapKept h g

pub one_for_self : (r : Ref) → one_for r r ≡ 1
one_for_self (buffer p) = ground arith
one_for_self (event p) = ground arith
one_for_self (arena p) = ground arith

pub retain_ref-Grown :
    (r : Ref) (h : Heap)
    → 0 < ref_count h r
    → ref_count h r + 1 < word32
    → (g : Heap) × (retain_ref r h ≡ some g) × Grown (r ∷ []) h g
unfolding retain_ref buffer_retain event_retain arena_retain
retain_ref-Grown (buffer p) h live fits =
    let (t, e, counts, kept) = retain_lem h.buffers p live fits in
    (
      record h { buffers = t },
      rw (e, buffer_retain),
      record {
        counts = elim [
          | buffer q ↦ omega (arith, counts q)
          | event q ↦ omega arith
          | arena q ↦ omega arith
        ];
        kept = record {
          buffers = kept;
          events = Kept-refl h.events;
          arenas = Kept-refl h.arenas;
          answers = refl;
        };
      },
    )
retain_ref-Grown (event p) h live fits =
    let (t, e, counts, kept) = retain_lem h.events p live fits in
    (
      record h { events = t },
      rw (e, event_retain),
      record {
        counts = elim [
          | buffer q ↦ omega arith
          | event q ↦ omega (arith, counts q)
          | arena q ↦ omega arith
        ];
        kept = record {
          buffers = Kept-refl h.buffers;
          events = kept;
          arenas = Kept-refl h.arenas;
          answers = refl;
        };
      },
    )
retain_ref-Grown (arena p) h live fits =
    let (t, e, counts, kept) = retain_lem h.arenas p live fits in
    (
      record h { arenas = t },
      rw (e, arena_retain),
      record {
        counts = elim [
          | buffer q ↦ omega arith
          | event q ↦ omega arith
          | arena q ↦ omega (arith, counts q)
        ];
        kept = record {
          buffers = Kept-refl h.buffers;
          events = Kept-refl h.events;
          arenas = kept;
          answers = refl;
        };
      },
    )

pub release_ref-Shrunk :
    (r : Ref) (h : Heap)
    → 0 < ref_count h r
    → (g : Heap) × (release_ref r h ≡ some g) × Shrunk (r ∷ []) h g
unfolding release_ref buffer_release event_release arena_release
release_ref-Shrunk (buffer p) h live =
    let (t, gone, e, step) = release_lem h.buffers p live in
    (
      record h { buffers = t; callbacks = notify_owner gone h.callbacks },
      rw (e, buffer_release),
      record {
        counts = elim [
          | buffer q ↦ omega (arith, step.counts q)
          | event q ↦ omega arith
          | arena q ↦ omega arith
        ];
        kept = record {
          buffers = step.kept;
          events = Kept-refl h.events;
          arenas = Kept-refl h.arenas;
          answers = refl;
        };
      },
    )
release_ref-Shrunk (event p) h live =
    let (t, gone, e, step) = release_lem h.events p live in
    (
      record h { events = t },
      rw (e, event_release),
      record {
        counts = elim [
          | buffer q ↦ omega arith
          | event q ↦ omega (arith, step.counts q)
          | arena q ↦ omega arith
        ];
        kept = record {
          buffers = Kept-refl h.buffers;
          events = step.kept;
          arenas = Kept-refl h.arenas;
          answers = refl;
        };
      },
    )
release_ref-Shrunk (arena p) h live =
    let (t, gone, e, step) = release_lem h.arenas p live in
    (
      record h { arenas = t },
      rw (e, arena_release),
      record {
        counts = elim [
          | buffer q ↦ omega arith
          | event q ↦ omega arith
          | arena q ↦ omega (arith, step.counts q)
        ];
        kept = record {
          buffers = Kept-refl h.buffers;
          events = Kept-refl h.events;
          arenas = step.kept;
          answers = refl;
        };
      },
    )
