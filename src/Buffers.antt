-- ===== src/Buffers.antt =====
-- src/core/buffer.c: the functions of the interface on buffers and events. Retain and release are in
-- `Heap`.
pub mod Laws
use metal_graph.Base.{ℕ, ltb, if◌then◌else◌, Option, none, some, String}
use metal_graph.Types.{OriginKind, Stage}
use metal_graph.Outcome.{Outcome, done, failed, fault, Failure, invalid_at, node_id_invalid}
use metal_graph.Heap.{Heap, Buffer, buffer_release, event_release}

-- mg_buffer_origin_info_t.
pub record OriginInfo : Type 0 where
  pub size : ℕ
  pub origin_kind : OriginKind
  pub is_zero_copy : ℕ
  pub is_external : ℕ
  pub is_host_visible : ℕ
  pub is_mutable : ℕ
  pub byte_offset : ℕ
  pub byte_length : ℕ
  pub source_framework : Option String
  pub fallback_reason : Option String

-- Its `sizeof` where pointers and `size_t` have 8 bytes.
abbrev pub origin_info_size : ℕ
origin_info_size = 48

-- mgBufferDestroy.
unfoldable pub buffer_destroy : Option ℕ → Heap → Option Heap
buffer_destroy = buffer_release

-- mgEventDestroy.
unfoldable pub event_destroy : Option ℕ → Heap → Option Heap
event_destroy = event_release

-- mgBufferLength; `none` is a read of a dead buffer.
unfoldable pub buffer_length : Heap → Option ℕ → Option ℕ
buffer_length h none = some 0
buffer_length h (some p) = elim (h.buffers p) [ none ↦ none | some b ↦ some b.length ]

-- `buffer->origin_kind ? buffer->origin_kind : MG_BUFFER_ORIGIN_LIBRARY_OWNED`.
unfoldable pub kind_or_owned : OriginKind → OriginKind
kind_or_owned OriginKind.unset = OriginKind.library_owned
kind_or_owned OriginKind.library_owned = OriginKind.library_owned
kind_or_owned OriginKind.external_metal = OriginKind.external_metal
kind_or_owned OriginKind.adapter_copy = OriginKind.adapter_copy
kind_or_owned OriginKind.adapter_zero_copy = OriginKind.adapter_zero_copy

unfoldable pub origin_info_of : Buffer → OriginInfo
unfolding kind_or_owned
origin_info_of b = record {
  size = origin_info_size;
  origin_kind = kind_or_owned b.origin_kind;
  is_zero_copy = b.is_zero_copy;
  is_external = b.is_external;
  is_host_visible = b.is_host_visible;
  is_mutable = b.is_mutable;
  byte_offset = b.byte_offset;
  byte_length = b.length;
  source_framework = b.source_framework;
  fallback_reason = b.fallback_reason;
}

abbrev pub origin_missing : Failure
origin_missing =
    invalid_at Stage.create node_id_invalid "buffer and origin info output are required"

-- mgBufferGetOriginInfo. The second argument is the `size` in the caller's structure, if there is one.
unfoldable pub get_origin_info : Heap → Option ℕ → Option ℕ → Outcome OriginInfo
get_origin_info h none size = failed origin_missing
get_origin_info h (some p) none = failed origin_missing
get_origin_info h (some p) (some size) =
    if ltb size origin_info_size
    then failed origin_missing
    else elim (h.buffers p) [ none ↦ fault | some b ↦ done (origin_info_of b) ]
