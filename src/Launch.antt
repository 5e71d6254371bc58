-- ===== src/Launch.antt =====
-- The launches of src/metal/metal_backend.mm: mgGraphLaunch along its direct path (no indirect command
-- buffer), mgLaunchSynchronize and mgLaunchDestroy. What the Metal framework answers is a parameter of
-- the state: whether a requested object is there, and whether committed work was done without error.
pub mod Encode
pub mod Calls
pub mod Taking
pub mod Took
pub mod Steps
pub mod Lists
pub mod Nodes
pub mod Destroy
pub mod Laws
pub mod Making
pub mod Life
pub mod Idle
use metal_graph.Base.{
  ℕ, word64, ◌/◌, ◌^◌, zero, suc, ◌+◌, ◌-◌, ◌&&◌, ◌*◌, ◌%◌, Bool, true, false, not, ◌==◌, ltb, leb,
  if◌then◌else◌, Option, none, some, List, [], ◌∷◌, ◌++◌, String, length,
}
use metal_graph.Types.{Status, Stage}
use metal_graph.Outcome.{
  Outcome, done, failed, fault, Failure, M, after, ◌>>=◌, ◌>>◌, require, invalid_at, oom_at,
  node_id_invalid,
}
use metal_graph.Flags.{has_flag, optimization_icb}
use metal_graph.Heap.{
  Heap, malloc, buffer_retain, buffer_release, event_retain, event_release, buffer_counted,
  event_counted,
}
use metal_graph.Heap.Counting.{word32}
use metal_graph.Node.{BufferBinding, Tensor}
use metal_graph.Graph.{is_given}
use metal_graph.Exec.{
  Exec, ExecNode, ExecDispatch, ExecMpsGraph, IcbPlan, dispatch, copy, fill, event_wait,
  event_signal, barrier, mpsgraph, workspace, workspace_fill,
}

-- mg_launch. The command buffers themselves are Metal's: `impl_count` of them are retained.
pub record Launch : Type 0 where
  pub impl_count : ℕ
  pub impl_capacity : ℕ
  pub impl_room : ℕ
  pub completed : Bool
  pub retained_buffers : List (Option ℕ)
  pub buffer_room : ℕ
  pub retained_events : List (Option ℕ)
  pub event_room : ℕ

-- The state of a launch: `says n` is the n-th answer of Metal, and `has_work` is
-- `commandBufferHasWork`.
pub record Session : Type 0 where
  pub heap : Heap
  pub exec : Exec
  pub launch : Launch
  pub has_work : Bool
  pub says : ℕ → Bool
  pub asked : ℕ

-- A failure of stage encode that comes from Metal.
abbrev pub backend_error : ℕ → String → Failure
backend_error id text = record {
  status = Status.backend_error;
  stage = Stage.encode;
  node_id = id;
  message = text;
}

-- Asks Metal for something, and fails where it answers nil.
unfoldable pub need : Failure → M Session (Unit {0})
need e s = require (s.says s.asked) e (record s { asked = suc s.asked })

-- An allocation of the launch.
unfoldable pub allocate : M Session (Unit {0})
unfolding malloc
allocate s =
    let (answer, h) = malloc s.heap in
    require (is_given answer) (oom_at Stage.encode) (record s { heap = h })

-- Retains a buffer and writes it to the array of the launch. A write behind the array is a fault.
abbrev pub note_buffer : Option ℕ → Option Heap → M Session (Unit {0})
note_buffer p none s = (fault, s)
note_buffer p (some h) s =
    if ltb (length s.launch.retained_buffers) s.launch.buffer_room
    then (
      done tt,
      record s {
        heap = h;
        launch = record s.launch { retained_buffers = s.launch.retained_buffers ++ p ∷ [] };
      },
    )
    else (fault, s)

-- The buffer's `impl` is read for the encoder, so NULL is a fault, as a dead buffer is.
unfoldable pub hold_buffer : Option ℕ → M Session (Unit {0})
hold_buffer none s = (fault, s)
hold_buffer (some p) s = note_buffer (some p) (buffer_retain (some p) s.heap) s

abbrev pub note_event : Option ℕ → Option Heap → M Session (Unit {0})
note_event p none s = (fault, s)
note_event p (some h) s =
    if ltb (length s.launch.retained_events) s.launch.event_room
    then (
      done tt,
      record s {
        heap = h;
        launch = record s.launch { retained_events = s.launch.retained_events ++ p ∷ [] };
      },
    )
    else (fault, s)

unfoldable pub hold_event : Option ℕ → M Session (Unit {0})
hold_event none s = (fault, s)
hold_event (some p) s = note_event (some p) (event_retain (some p) s.heap) s

unfoldable pub hold_bindings : List BufferBinding → M Session (Unit {0})
hold_bindings [] s = (done tt, s)
hold_bindings (b ∷ bs) s = after (hold_buffer b.buffer s) (λ _. hold_bindings bs)

unfoldable pub hold_tensors : List Tensor → M Session (Unit {0})
hold_tensors [] s = (done tt, s)
hold_tensors (t ∷ ts) s = after (hold_buffer t.buffer s) (λ _. hold_tensors ts)

abbrev pub put_work : Bool → M Session (Unit {0})
put_work b s = (done tt, record s { has_work = b })

-- `launch->impls[launch->impl_count++] = retained`. A write behind the array is a fault.
abbrev pub count_impl : M Session (Unit {0})
count_impl s =
    if ltb s.launch.impl_count s.launch.impl_room
    then (done tt, record s { launch = record s.launch { impl_count = suc s.launch.impl_count } })
    else (fault, s)

abbrev pub next_impls : ℕ → ℕ
next_impls capacity = if capacity == 0 then 4 else capacity * 2 % word64

-- The array has room for as many pointers as the bytes that `realloc` was asked for.
abbrev pub put_capacity : M Session (Unit {0})
put_capacity s = (
  done tt,
  record s {
    launch = record s.launch {
      impl_capacity = next_impls s.launch.impl_capacity;
      impl_room = next_impls s.launch.impl_capacity * 8 % word64 / 8;
    };
  },
)

-- The growth of the array: `realloc` has no object of 2^63 bytes, which is over PTRDIFF_MAX.
unfoldable pub grow_impls : M Session (Unit {0})
grow_impls s = after (allocate s) λ _ t.
    after
      (require (ltb (next_impls t.launch.impl_capacity * 8 % word64) (2 ^ 63)) (oom_at Stage.encode)
        t)
      λ _. put_capacity

-- mg_launch_retain_command_buffer.
unfoldable pub retain_command_buffer : M Session (Unit {0})
retain_command_buffer s =
    if s.launch.impl_count == s.launch.impl_capacity
    then after (grow_impls s) (λ _. count_impl)
    else count_impl s
