-- ===== src/Launch/Calls.antt =====
-- mgGraphLaunch, mgLaunchSynchronize and mgLaunchDestroy of src/metal/metal_backend.mm as wholes.
use metal_graph.Base.{
  ℕ, zero, suc, ◌+◌, ◌-◌, ◌&&◌, ◌%◌, Bool, true, false, not, ◌==◌, ltb, if◌then◌else◌, Option, none,
  some, List, [], ◌∷◌, length,
}
use metal_graph.Types.{Status, Stage}
use metal_graph.Outcome.{
  Outcome, done, failed, fault, Failure, M, after, ◌>>◌, require, invalid_at, node_id_invalid,
}
use metal_graph.Flags.{has_flag, optimization_icb}
use metal_graph.Heap.{Heap, buffer_release, event_release, buffer_counted, event_counted}
use metal_graph.Heap.Counting.{word32}
use metal_graph.Exec.{ExecNode, IcbPlan}
use metal_graph.Launch.{
  Launch, Session, backend_error, need, allocate, put_work, retain_command_buffer,
}
use metal_graph.Launch.Encode.{encode_nodes, buffers_needed, events_needed}

-- The zeroed launch.
abbrev pub empty_launch : Launch
empty_launch = record {
  impl_count = 0;
  impl_capacity = 0;
  impl_room = 0;
  completed = false;
  retained_buffers = [];
  buffer_room = 0;
  retained_events = [];
  event_room = 0;
}

abbrev pub put_launch : Launch → M Session (Unit {0})
put_launch l s = (done tt, record s { launch = l })

abbrev pub allocate_some : ℕ → M Session (Unit {0})
allocate_some n s = if n == 0 then (done tt, s) else allocate s

-- The launch and its two arrays.
unfoldable pub make_launch : List ExecNode → M Session (Unit {0})
make_launch nodes = do
  allocate
  allocate_some (buffers_needed nodes)
  allocate_some (events_needed nodes)
  put_launch
      (record empty_launch { buffer_room = buffers_needed nodes; event_room = events_needed nodes })

abbrev pub icb_disabled : ℕ
icb_disabled = 1

abbrev pub icb_unsupported : ℕ
icb_unsupported = 2

-- The diagnostics of a launch where there is no indirect command buffer.
unfoldable pub direct_diagnostics : IcbPlan → IcbPlan
direct_diagnostics icb =
    if icb.groups_planned == 0
    then icb
    else if not (has_flag icb.enabled_flags optimization_icb)
    then record icb {
      groups_used = 0;
      groups_fallback = icb.groups_planned;
      last_fallback_reason = icb_disabled;
    }
    else record icb {
      groups_used = 0;
      groups_fallback = icb.groups_planned;
      last_fallback_reason =
          if icb.last_fallback_reason == 0 then icb_unsupported else icb.last_fallback_reason;
    }

abbrev pub put_diagnostics : M Session (Unit {0})
put_diagnostics s =
    (done tt, record s { exec = record s.exec { icb = direct_diagnostics s.exec.icb } })

unfoldable pub release_buffers : List (Option ℕ) → Heap → Option Heap
release_buffers [] h = some h
release_buffers (p ∷ ps) h = elim (buffer_release p h) [
  | none ↦ none
  | some k ↦ release_buffers ps k
]

unfoldable pub release_events : List (Option ℕ) → Heap → Option Heap
release_events [] h = some h
release_events (p ∷ ps) h = elim (event_release p h) [ none ↦ none | some k ↦ release_events ps k ]

-- mgLaunchDestroy, of a launch that is not NULL.
unfoldable pub launch_destroy : Launch → Heap → Option Heap
launch_destroy l h = elim (release_buffers l.retained_buffers h) [
  | none ↦ none
  | some k ↦ release_events l.retained_events k
]

abbrev pub destroyed : Failure → Option Heap → Session → Outcome (Unit {0}) × Session
destroyed e none s = (fault, s)
destroyed e (some h) s = (failed e, record s { heap = h; launch = empty_launch })

-- The returns that destroy the launch first.
abbrev pub or_destroy : Outcome (Unit {0}) × Session → Outcome (Unit {0}) × Session
or_destroy (done u, s) = (done u, s)
or_destroy (failed e, s) = destroyed e (launch_destroy s.launch s.heap) s
or_destroy (fault, s) = (fault, s)

-- The last command buffer is committed if it has work.
unfoldable pub commit_last : M Session (Unit {0})
commit_last s = if s.has_work then retain_command_buffer s else (done tt, s)

-- The encoding, from `commandBufferHasWork = exec->node_count == 0` on.
unfoldable pub encode : List ExecNode → M Session (Unit {0})
encode nodes = do put_work (length nodes == 0); encode_nodes nodes; commit_last

abbrev pub count_launch : M Session (Unit {0})
count_launch s = (
  done tt,
  record s { exec = record s.exec { in_flight_count = (s.exec.in_flight_count + 1) % word32 } },
)

-- mgGraphLaunch, whose arguments are not NULL, of an executable without an indirect command buffer.
unfoldable pub graph_launch : M Session (Unit {0})
graph_launch s =
    after
      (after (need (backend_error node_id_invalid "failed to create Metal command buffer") s) λ _ t.
        after (make_launch s.exec.nodes t)
          λ _ u. after (put_diagnostics u) λ _ v. or_destroy (encode s.exec.nodes v))
      λ _ v. count_launch v

-- Waits for the command buffers in turn, and says whether none failed.
unfoldable pub wait_all : ℕ → Session → Bool × Session
wait_all zero s = (true, s)
wait_all (suc n) s =
    let (ok, t) = wait_all n (record s { asked = suc s.asked }) in (s.says s.asked && ok, t)

abbrev pub complete_launch : M Session (Unit {0})
complete_launch s = (
  done tt,
  record s {
    launch = record s.launch { completed = true };
    exec = record s.exec {
      in_flight_count =
          if ltb 0 s.exec.in_flight_count
          then s.exec.in_flight_count - 1
          else s.exec.in_flight_count;
    };
  },
)

-- mgLaunchSynchronize, of a launch that is not NULL.
unfoldable pub launch_synchronize : M Session (Unit {0})
launch_synchronize s =
    let (ok, t) = wait_all s.launch.impl_count s in
    if s.launch.impl_count == 0
    then (failed (invalid_at Stage.sync node_id_invalid "launch is required"), s)
    else after (if t.launch.completed then (done tt, t) else complete_launch t) λ _.
      require ok (record {
        status = Status.backend_error;
        stage = Stage.complete;
        node_id = node_id_invalid;
        message = "Metal command buffer failed";
      })
