-- ===== src/Types.antt =====
-- include/metal_graph/metal_graph.h: the enumerations of the public interface. The flag words are in
-- `Flags`, the node kinds are the constructors of `Node.Payload`.
use Prim.Native.Nat.{ℕ}
use Prim.Native.String.{String}

-- mg_status_t. The parameter of `other` is the value of an `int` that is no enumerator.
pub data Status : Type 0 where
  ok invalid_argument invalid_topology unsupported out_of_memory backend_error : Status
  internal_error : Status
  other : ℕ → Status

-- mg_error_stage_t.
pub data Stage : Type 0 where
  none create validate instantiate encode commit complete sync plan_memory : Stage
  backend_allocate patch : Stage

-- mg_resource_access_t. The parameter is the value of an `int` that is no enumerator.
pub data Access : Type 0 where
  unknown read write read_write : Access
  invalid : Access

-- mg_buffer_origin_kind_t; `unset` is the zero that `calloc` leaves.
pub data OriginKind : Type 0 where
  unset library_owned external_metal adapter_copy adapter_zero_copy : OriginKind

-- mgStatusString.
unfoldable pub status_string : Status → String
status_string Status.ok = "ok"
status_string Status.invalid_argument = "invalid argument"
status_string Status.invalid_topology = "invalid topology"
status_string Status.unsupported = "unsupported"
status_string Status.out_of_memory = "out of memory"
status_string Status.backend_error = "backend error"
status_string Status.internal_error = "internal error"
status_string (Status.other code) = "unknown status"
