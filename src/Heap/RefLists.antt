-- ===== src/Heap/RefLists.antt =====
-- Lists of references of src/core/internal.h, retained and released in turn.
use metal_graph.Base.{
  ◌+◌, ◌≤◌, ◌<◌, ◌≡◌, refl, ◌∙◌, Option, none, some, List, [], ◌∷◌, ◌++◌, arith, All, All_mono,
}
use metal_graph.Heap.Counting.{Kept-refl, word32}
use metal_graph.Heap.{Heap, buffer_counted, event_counted, arena_counted, malloc}
use metal_graph.Heap.Refs.{
  buffer, event, arena, Grown, HeapKept, HeapKept-refl, HeapKept-trans, Ref, Shrunk, count,
  one_for_self, ref_count, release_ref, release_ref-Shrunk, retain_ref, retain_ref-Grown,
}

-- The references in turn.
unfoldable pub retain_all : List Ref → Heap → Option Heap
retain_all [] h = some h
retain_all (x ∷ xs) h = elim (retain_ref x h) [ none ↦ none | some g ↦ retain_all xs g ]

unfoldable pub release_all : List Ref → Heap → Option Heap
release_all [] h = some h
release_all (x ∷ xs) h = elim (release_ref x h) [ none ↦ none | some g ↦ release_all xs g ]

-- Objects that live can all be retained, as often as their counters have room.
pub retain_all-Grown :
    (xs : List Ref) (h : Heap)
    → All (λ x. 0 < ref_count h x) xs
    → ((r : Ref) → ref_count h r + count r xs < word32)
    → (g : Heap) × (retain_all xs h ≡ some g) × Grown xs h g
unfolding retain_all
retain_all-Grown [] h live fits =
    (h, refl, record { counts = λ r. omega arith; kept = HeapKept-refl h })
retain_all-Grown (x ∷ xs) h live fits =
    let (g, e, one) = retain_ref-Grown x h live.0 (omega (arith, fits x, one_for_self x)) in
    let (k, e', rest) =
      retain_all-Grown xs g (All_mono _ _ (λ y l. omega (arith, one.counts y)) xs live.1)
        (λ r. omega (arith, one.counts r, fits r)) in
    (
      k,
      rw (e, retain_all) e',
      record {
        counts = λ r. omega (arith, one.counts r, rest.counts r);
        kept = HeapKept-trans one.kept rest.kept;
      },
    )

-- References that are held can all be released.
pub release_all-Shrunk :
    (xs : List Ref) (h : Heap)
    → ((r : Ref) → count r xs ≤ ref_count h r)
    → (g : Heap) × (release_all xs h ≡ some g) × Shrunk xs h g
unfolding release_all
release_all-Shrunk [] h held =
    (h, refl, record { counts = λ r. omega arith; kept = HeapKept-refl h })
release_all-Shrunk (x ∷ xs) h held =
    let (g, e, one) = release_ref-Shrunk x h (omega (arith, held x, one_for_self x)) in
    let (k, e', rest) = release_all-Shrunk xs g (λ r. omega (arith, one.counts r, held r)) in
    (
      k,
      rw (e, release_all) e',
      record {
        counts = λ r. omega (arith, one.counts r, rest.counts r);
        kept = HeapKept-trans one.kept rest.kept;
      },
    )

pub count-append : (r : Ref) (xs ys : List Ref) → count r (xs ++ ys) ≡ count r xs + count r ys
count-append r [] ys = omega arith
count-append r (x ∷ xs) ys = omega (arith, count-append r xs ys)

-- `malloc` leaves the objects alone.
pub malloc-HeapKept : (h : Heap) → HeapKept h (malloc h).1
unfolding malloc
malloc-HeapKept h = record {
  buffers = Kept-refl h.buffers;
  events = Kept-refl h.events;
  arenas = Kept-refl h.arenas;
  answers = refl;
}

pub malloc-counts : (h : Heap) (r : Ref) → ref_count (malloc h).1 r ≡ ref_count h r
unfolding malloc
malloc-counts h (buffer p) = refl
malloc-counts h (event p) = refl
malloc-counts h (arena p) = refl

pub Grown-malloc : (xs : List Ref) (h g : Heap) → Grown xs h g → Grown xs h (malloc g).1
Grown-malloc xs h g k = record {
  counts = λ r. malloc-counts g r ∙ k.counts r;
  kept = HeapKept-trans k.kept (malloc-HeapKept g);
}

pub Grown-refl : (h : Heap) → Grown [] h h
Grown-refl h = record { counts = λ r. omega arith; kept = HeapKept-refl h }
