-- ===== src/Arena.antt =====
-- src/core/arena.c: the descriptors of arenas and workspaces, and the arena handles.
pub mod Laws
use metal_graph.Base.{ℕ, Bool, not, ◌==◌, ltb, if◌then◌else◌, Option, none, some}
use metal_graph.Types.{Stage}
use metal_graph.Outcome.{Outcome, done, failed, fault, M, invalid_at, oom_at, node_id_invalid}
use metal_graph.Align.{alignment_valid}
use metal_graph.Heap.{Heap, malloc, arena_release, arena_counted}
use metal_graph.Heap.Counting.{update}
use metal_graph.Node.{WorkspaceDesc}

-- mg_arena_desc_t.
pub record ArenaDesc : Type 0 where
  pub size : ℕ
  pub byte_count : ℕ
  pub alignment : ℕ

-- The `sizeof` of mg_arena_desc_t and of mg_workspace_desc_t where `size_t` has 8 bytes.
abbrev pub arena_desc_size : ℕ
arena_desc_size = 24

abbrev pub workspace_desc_size : ℕ
workspace_desc_size = 24

-- mg_arena_desc_validate; the result is the descriptor, which is not NULL.
unfoldable pub arena_desc_validate : Option ArenaDesc → Stage → Outcome ArenaDesc
arena_desc_validate none stage =
    failed (invalid_at stage node_id_invalid "arena descriptor is required")
arena_desc_validate (some d) stage =
    if ltb d.size arena_desc_size
    then failed (invalid_at stage node_id_invalid "arena descriptor size is invalid")
    else if d.byte_count == 0
    then failed (invalid_at stage node_id_invalid "arena size must be nonzero")
    else if not (alignment_valid d.alignment)
    then failed (invalid_at stage node_id_invalid "arena alignment must be a nonzero power of two")
    else done d

-- mg_workspace_desc_validate.
unfoldable pub workspace_desc_validate : Option WorkspaceDesc → Stage → Outcome WorkspaceDesc
workspace_desc_validate none stage =
    failed (invalid_at stage node_id_invalid "workspace descriptor is required")
workspace_desc_validate (some d) stage =
    if ltb d.size workspace_desc_size
    then failed (invalid_at stage node_id_invalid "workspace descriptor size is invalid")
    else if d.byte_count == 0
    then failed (invalid_at stage node_id_invalid "workspace size must be nonzero")
    else if not (alignment_valid d.alignment)
    then failed
        (invalid_at stage node_id_invalid "workspace alignment must be a nonzero power of two")
    else done d

-- The arena that `calloc` gave the address of, or no memory.
create_at : Option ℕ → ArenaDesc → Heap → Outcome ℕ × Heap
create_at none d h = (failed (oom_at Stage.create), h)
create_at (some p) d h = (
  done p,
  record h {
    arenas =
        update h.arenas p
          (some (record { size = d.byte_count; alignment = d.alignment; ref_count = 1 }));
  },
)

create_from : Outcome ArenaDesc → M Heap ℕ
unfolding create_at
create_from (failed e) h = (failed e, h)
create_from fault h = (fault, h)
create_from (done d) h = let (answer, g) = malloc h in create_at answer d g

-- mgArenaCreate. `arguments` says that `device` and `out_arena` are not NULL.
unfoldable pub arena_create : Bool → Option ArenaDesc → M Heap ℕ
unfolding create_from
arena_create arguments desc h =
    if arguments
    then create_from (arena_desc_validate desc Stage.create) h
    else (failed (invalid_at Stage.create node_id_invalid "device and out_arena are required"), h)

-- mgArenaDestroy.
unfoldable pub arena_destroy : Option ℕ → Heap → Option Heap
arena_destroy = arena_release

-- mgArenaSize and mgArenaAlignment; `none` is a read of a dead arena.
unfoldable pub arena_size : Heap → Option ℕ → Option ℕ
arena_size h none = some 0
arena_size h (some p) = elim (h.arenas p) [ none ↦ none | some a ↦ some a.size ]

unfoldable pub arena_alignment : Heap → Option ℕ → Option ℕ
arena_alignment h none = some 0
arena_alignment h (some p) = elim (h.arenas p) [ none ↦ none | some a ↦ some a.alignment ]
