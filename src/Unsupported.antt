-- ===== src/Unsupported.antt =====
-- src/metal/unsupported_backend.c: the backend where Metal is missing. Each entry point refuses.
pub mod Laws
use metal_graph.Base.{ℕ, Bool, not, ◌&&◌, ◌==◌, if◌then◌else◌, Option, none, some, String}
use metal_graph.Types.{Status, Stage}
use metal_graph.Outcome.{node_id_invalid}
use metal_graph.Heap.{Heap}
use metal_graph.Graph.{is_given}
use metal_graph.Errors.{Reported, set_error}

-- The caller's output variable: a pointer to it may be NULL, and it holds a handle or NULL.
abbrev pub Output : Type 0
Output = Option (Option ℕ)

-- What a call returns and reports, and the output variable afterwards.
pub record Refusal : Type 0 where
  pub reported : Reported
  pub out : Output

-- `*out = NULL;`
abbrev pub cleared : Output → Output
cleared none = none
cleared (some v) = some none

-- The return for a missing argument. `wanted` says that `out_error` is not NULL.
abbrev pub missing : Bool → Stage → String → Output → Heap → Refusal
missing wanted stage text out h = record {
  reported = set_error wanted Status.invalid_argument stage node_id_invalid (some text) none h;
  out = out;
}

-- The return where all arguments are there.
abbrev pub refused : Bool → Stage → String → Output → Heap → Refusal
refused wanted stage text out h = record {
  reported = set_error wanted Status.unsupported stage node_id_invalid (some text) none h;
  out = cleared out;
}

abbrev pub no_metal : String
no_metal = "Metal backend is only available on Apple platforms"

abbrev pub no_events : String
no_events = "Metal shared events are only available on Apple platforms"

-- mgDeviceCreateSystemDefault.
unfoldable pub device_create : Bool → Output → Heap → Refusal
device_create wanted out h =
    if not (is_given out)
    then missing wanted Stage.create "out_device is required" out h
    else refused wanted Stage.create no_metal out h

-- mgStreamCreate.
unfoldable pub stream_create : Bool → Option ℕ → Output → Heap → Refusal
stream_create wanted device out h =
    if not (is_given device && is_given out)
    then missing wanted Stage.create "device and out_stream are required" out h
    else refused wanted Stage.create no_metal out h

-- mgBufferCreateShared.
unfoldable pub buffer_create_shared : Bool → Option ℕ → ℕ → Output → Heap → Refusal
buffer_create_shared wanted device length out h =
    if not (is_given device && is_given out && not (length == 0))
    then missing wanted Stage.create "device, nonzero length, and out_buffer are required" out h
    else refused wanted Stage.create no_metal out h

-- mgEventCreate.
unfoldable pub event_create : Bool → Option ℕ → Output → Heap → Refusal
event_create wanted device out h =
    if not (is_given device && is_given out)
    then missing wanted Stage.create "device and out_event are required" out h
    else refused wanted Stage.create no_events out h

-- mgGraphInstantiate.
unfoldable pub graph_instantiate : Bool → Option ℕ → Option ℕ → Output → Heap → Refusal
graph_instantiate wanted graph device out h =
    if not (is_given graph && is_given device && is_given out)
    then missing wanted Stage.instantiate "graph, device, and out_exec are required" out h
    else refused wanted Stage.instantiate no_metal out h

-- mgGraphLaunch.
unfoldable pub graph_launch : Bool → Option ℕ → Option ℕ → Output → Heap → Refusal
graph_launch wanted exec stream out h =
    if not (is_given exec && is_given stream && is_given out)
    then missing wanted Stage.encode "exec, stream, and out_launch are required" out h
    else refused wanted Stage.encode no_metal out h

-- mgLaunchSynchronize, which has no output.
unfoldable pub launch_synchronize : Bool → Option ℕ → Heap → Refusal
launch_synchronize wanted launch h =
    if not (is_given launch)
    then missing wanted Stage.sync "launch is required" none h
    else refused wanted Stage.sync no_metal none h

-- mg_backend_buffer_contents: NULL.
unfoldable pub backend_buffer_contents : Option ℕ → Option ℕ
backend_buffer_contents p = none
