-- ===== src/Heap.antt =====
-- The objects behind handles: mg_buffer, mg_event and mg_arena of src/core/internal.h, with the
-- reference counting of src/core/buffer.c and src/core/arena.c, and the answers of `malloc`.
pub mod Counting
pub mod Refs
pub mod RefLists
pub mod Memory
use metal_graph.Base.{
  ℕ, suc, ◌+◌, Bool, true, false, ◌==◌, ltb, if◌then◌else◌, Option, none, some, List, [], ◌∷◌, ◌++◌,
  String, refl,
}
use metal_graph.Types.{OriginKind}
use metal_graph.Heap.Counting.{Table, Counted, retain, release}

-- mg_buffer. `impl` and `retained_backend_impl` belong to the backend.
pub record Buffer : Type 0 where
  pub device_impl : Option ℕ
  pub length : ℕ
  pub byte_offset : ℕ
  pub origin_kind : OriginKind
  pub is_zero_copy : ℕ
  pub is_external : ℕ
  pub is_host_visible : ℕ
  pub is_mutable : ℕ
  pub source_framework : Option String
  pub fallback_reason : Option String
  pub owner_context : Option ℕ
  pub owner_release : Option ℕ
  pub ref_count : ℕ

-- mg_event.
pub record Event : Type 0 where
  pub impl : ℕ
  pub ref_count : ℕ

-- mg_arena.
pub record Arena : Type 0 where
  pub size : ℕ
  pub alignment : ℕ
  pub ref_count : ℕ

instance abbrev pub buffer_counted : Counted Buffer
buffer_counted = record {
  ref_count = λ b. b.ref_count;
  with_ref_count = λ b n. record b { ref_count = n };
  ref_count-with = λ b n. refl;
  with-with = λ b m n. refl;
  with_self = λ b. refl;
}

instance abbrev pub event_counted : Counted Event
event_counted = record {
  ref_count = λ e. e.ref_count;
  with_ref_count = λ e n. record e { ref_count = n };
  ref_count-with = λ e n. refl;
  with-with = λ e m n. refl;
  with_self = λ e. refl;
}

instance abbrev pub arena_counted : Counted Arena
arena_counted = record {
  ref_count = λ a. a.ref_count;
  with_ref_count = λ a n. record a { ref_count = n };
  ref_count-with = λ a n. refl;
  with-with = λ a m n. refl;
  with_self = λ a. refl;
}

-- `answers n` is what the n-th call of `malloc`, `calloc` or `realloc` returns, NULL or an address;
-- `callbacks` are the calls of an `owner_release` with its context, the latest last.
pub record Heap : Type 0 where
  pub buffers : Table Buffer
  pub events : Table Event
  pub arenas : Table Arena
  pub answers : ℕ → Option ℕ
  pub calls : ℕ
  pub callbacks : List (ℕ × Option ℕ)

unfoldable pub malloc : Heap → Option ℕ × Heap
malloc h = (h.answers h.calls, record h { calls = suc h.calls })

-- mg_buffer_retain. The result `none` of this and the other functions is a read of a dead object.
unfoldable pub buffer_retain : Option ℕ → Heap → Option Heap
unfolding retain
buffer_retain p h = elim (retain p h.buffers) [
  | none ↦ none
  | some t ↦ some (record h { buffers = t })
]

-- What is left to do for a buffer whose last reference went: its owner is told.
abbrev pub notify_owner : Option Buffer → List (ℕ × Option ℕ) → List (ℕ × Option ℕ)
notify_owner none log = log
notify_owner (some b) log = elim b.owner_release [
  | none ↦ log
  | some f ↦ log ++ (f, b.owner_context) ∷ []
]

-- mg_buffer_release.
unfoldable pub buffer_release : Option ℕ → Heap → Option Heap
unfolding release
buffer_release p h = elim (release p h.buffers) [
  | none ↦ none
  | some (t, gone) ↦ some (record h { buffers = t; callbacks = notify_owner gone h.callbacks })
]

-- mg_event_retain.
unfoldable pub event_retain : Option ℕ → Heap → Option Heap
unfolding retain
event_retain p h = elim (retain p h.events) [
  | none ↦ none
  | some t ↦ some (record h { events = t })
]

-- mg_event_release.
unfoldable pub event_release : Option ℕ → Heap → Option Heap
unfolding release
event_release p h = elim (release p h.events) [
  | none ↦ none
  | some (t, _) ↦ some (record h { events = t })
]

-- mg_arena_retain.
unfoldable pub arena_retain : Option ℕ → Heap → Option Heap
unfolding retain
arena_retain p h = elim (retain p h.arenas) [
  | none ↦ none
  | some t ↦ some (record h { arenas = t })
]

-- mg_arena_release.
unfoldable pub arena_release : Option ℕ → Heap → Option Heap
unfolding release
arena_release p h = elim (release p h.arenas) [
  | none ↦ none
  | some (t, _) ↦ some (record h { arenas = t })
]
