-- ===== src/Arena/Laws.antt =====
-- The life of an arena handle of src/core/arena.c, from its creation to its destruction.
use metal_graph.Base.{
  ℕ, suc, ◌+◌, ◌≤◌, ◌<◌, ◌≡◌, refl, true, false, Bool, ◌==◌, Option, none, some, [], ◌∷◌, arith,
  Bool-cases, inl, inr,
}
use metal_graph.Types.{Stage}
use metal_graph.Outcome.{Outcome, done, failed, fault}
use metal_graph.Align.{alignment_valid}
use metal_graph.Heap.{Heap, Arena, malloc, arena_release, arena_counted}
use metal_graph.Heap.Counting.{update, release}
use metal_graph.Heap.Memory.{OnlyCalls, OnlyCalls-refl}
use metal_graph.Heap.Refs.{Ref, buffer, event, arena, ref_count, count}
use metal_graph.Graph.Holding.{Ends}
use metal_graph.Arena.{
  ArenaDesc, arena_desc_size, arena_desc_validate, arena_create, create_from, create_at,
  arena_destroy, arena_size, arena_alignment,
}

-- A descriptor that mgArenaCreate accepts.
pub record IsArenaDesc (d : ArenaDesc) : Type 0 where
  pub size : arena_desc_size ≤ d.size
  pub bytes : 0 < d.byte_count
  pub aligned : alignment_valid d.alignment ≡ true

-- `calloc` gives no address at which an arena lives.
abbrev pub IsFresh : Heap → Type 0
IsFresh h = (p : ℕ) → h.answers h.calls ≡ some p → h.arenas p ≡ none

-- An arena as described, with one reference; its destruction brings the former arenas back.
pub record Created (desc : Option ArenaDesc) (h : Heap) (p : ℕ) (k : Heap) : Type 0 where
  pub described : ArenaDesc
  pub is_given : desc ≡ some described
  pub accepted : IsArenaDesc described
  pub size : arena_size k (some p) ≡ some described.byte_count
  pub alignment : arena_alignment k (some p) ≡ some described.alignment
  pub counts : (r : Ref) → ref_count k r ≡ ref_count h r + count r (arena p ∷ [])
  pub destroyed :
      (l : Heap) × (arena_destroy (some p) k ≡ some l) × ((q : ℕ) → l.arenas q ≡ h.arenas q)

update-undo :
    (h : Heap) (p : ℕ) (v : Option Arena)
    → h.arenas p ≡ none
    → (q : ℕ) → update (update h.arenas p v) p none q ≡ h.arenas q
update-undo h p v fresh q = elim (Bool-cases (p == q)) [
  | inl s ↦
      let same : p ≡ q = ground arith in
      let gone : h.arenas q ≡ none = rw same at fresh in rw (s, gone)
  | inr d ↦ rw d
]

abbrev created : ArenaDesc → Arena
created d = record { size = d.byte_count; alignment = d.alignment; ref_count = 1 }

created-counts :
    (h : Heap) (p : ℕ) (a : Arena)
    → h.arenas p ≡ none
    → a.ref_count ≡ 1
    → (r : Ref)
    → ref_count (record h { arenas = update h.arenas p (some a) }) r
      ≡ ref_count h r + count r (arena p ∷ [])
created-counts h p a fresh one (buffer q) = omega arith
created-counts h p a fresh one (event q) = omega arith
created-counts h p a fresh one (arena q) = elim (Bool-cases (p == q)) [
  | inl s ↦ let same : p ≡ q = ground arith in rw (s, ← same, fresh, one)
  | inr d ↦ rw d (omega arith)
]

released :
    (t : ℕ → Option Arena) (p : ℕ) (a : Arena)
    → t p ≡ some a
    → a.ref_count ≡ 1
    → release (some p) t ≡ some (update t p none, some a)
unfolding release
released t p a e one = rw (e, release, one)

-- Without a second reference the arena goes.
last_release :
    (k : Heap) (p : ℕ) (a : Arena)
    → k.arenas p ≡ some a
    → a.ref_count ≡ 1
    → arena_destroy (some p) k ≡ some (record k { arenas = update k.arenas p none })
unfolding arena_destroy arena_release
last_release k p a e one = rw (released k.arenas p a e one, arena_release)

create_at-Ends :
    (o : Option ℕ) (d : ArenaDesc) (h : Heap)
    → IsArenaDesc d
    → ((p : ℕ) → o ≡ some p → h.arenas p ≡ none)
    → Ends (Created (some d) h) (OnlyCalls h) (create_at o d (malloc h).1)
unfolding create_at malloc arena_size arena_alignment arena_destroy arena_release release
create_at-Ends none d h ok fresh = record { calls = suc h.calls; same = refl }
create_at-Ends (some p) d h ok fresh =
    let self : (p == p) ≡ true = ground arith in
    record {
      described = d;
      is_given = refl;
      accepted = ok;
      size = rw (self, arena_size);
      alignment = rw (self, arena_alignment);
      counts = created-counts h p _ (fresh p refl) refl;
      destroyed = (
        record h {
          calls = suc h.calls;
          arenas = update (update h.arenas p (some (created d))) p none;
        },
        last_release _ p (created d) (rw self) refl,
        update-undo h p _ (fresh p refl),
      );
    }

arena_desc_validate-accepts :
    (d : ArenaDesc) (stage : Stage)
    → Ends {S = Unit {0}}
        (λ w _. (w ≡ d) × IsArenaDesc d)
        (λ _. Unit {0})
        (arena_desc_validate (some d) stage, tt)
unfolding arena_desc_validate
arena_desc_validate-accepts d stage = ground arith

create_from-Ends :
    (o : Outcome ArenaDesc) (d : ArenaDesc) (h : Heap)
    → Ends {S = Unit {0}} (λ w _. (w ≡ d) × IsArenaDesc d) (λ _. Unit {0}) (o, tt)
    → IsFresh h
    → Ends (Created (some d) h) (OnlyCalls h) (create_from o h)
unfolding create_from malloc
create_from-Ends (done w) d h (same, ok) fresh =
    rw same (create_at-Ends (h.answers h.calls) d h ok fresh)
create_from-Ends (failed e) d h v fresh = OnlyCalls-refl h
create_from-Ends fault d h v fresh = v

-- mgArenaCreate, where the allocator gives no address at which an arena lives: it fails and changes
-- nothing but the allocator, or the descriptor is valid, the new arena has the described size and
-- alignment and one reference, no other count has changed, and destroying it brings back the arenas
-- as they were.
pub arena_create-Ends :
    (arguments : Bool) (desc : Option ArenaDesc) (h : Heap)
    → IsFresh h
    → Ends (Created desc h) (OnlyCalls h) (arena_create arguments desc h)
unfolding arena_create arena_desc_validate
arena_create-Ends false desc h fresh = OnlyCalls-refl h
arena_create-Ends true none h fresh = OnlyCalls-refl h
arena_create-Ends true (some d) h fresh =
    create_from-Ends (arena_desc_validate (some d) Stage.create) d h
      (arena_desc_validate-accepts d Stage.create) fresh
