-- ===== src/Launch/Encode.antt =====
-- The encoding loop of mgGraphLaunch in src/metal/metal_backend.mm, along its direct path.
use metal_graph.Base.{ℕ, ◌+◌, true, false, if◌then◌else◌, List, [], ◌∷◌, length}
use metal_graph.Types.{Status, Stage}
use metal_graph.Outcome.{done, Failure, M, after, ◌>>◌}
use metal_graph.Heap.{buffer_counted, event_counted}
use metal_graph.Exec.{
  ExecNode, ExecMpsGraph, dispatch, copy, fill, event_wait, event_signal, barrier, mpsgraph,
  workspace, workspace_fill,
}
use metal_graph.Launch.{
  Session, backend_error, need, hold_buffer, hold_event, hold_bindings, hold_tensors, put_work,
  retain_command_buffer,
}

abbrev pub complete_error : ℕ → Failure
complete_error id = record {
  status = Status.backend_error;
  stage = Stage.complete;
  node_id = id;
  message = "Metal command buffer failed before MPSGraph encode";
}

-- Before an MPSGraph node: what was encoded is committed and waited for.
unfoldable pub flush : ℕ → M Session (Unit {0})
flush id = do
  retain_command_buffer
  need (complete_error id)
  need (backend_error id "failed to create Metal command buffer")
  put_work false

unfoldable pub flush_work : ℕ → M Session (Unit {0})
flush_work id s = if s.has_work then flush id s else (done tt, s)

-- The case of an MPSGraph node. Its encoding is Metal's, and fails with a status and message of its
-- own; they are all taken for one.
unfoldable pub encode_mpsgraph : ExecMpsGraph → M Session (Unit {0})
encode_mpsgraph m = do
  flush_work m.id
  need (backend_error m.id "failed to encode MPSGraph executable")
  hold_tensors m.feeds
  hold_tensors m.targets
  retain_command_buffer
  need (backend_error m.id "failed to create Metal command buffer")
  put_work false

-- The body of the encoding loop.
unfoldable pub encode_node : ExecNode → M Session (Unit {0})
encode_node (dispatch d) = do
  need (backend_error d.id "failed to create Metal compute encoder")
  hold_bindings d.buffers
  put_work true
encode_node (copy c) = do
  need (backend_error c.id "failed to create Metal blit encoder")
  hold_buffer c.src
  hold_buffer c.dst
  put_work true
encode_node (fill f) = do
  need (backend_error f.id "failed to create Metal blit encoder")
  hold_buffer f.dst
  put_work true
encode_node (event_wait e) = do hold_event e.event; put_work true
encode_node (event_signal e) = do hold_event e.event; put_work true
encode_node (barrier id) = λ s. (done tt, s)
encode_node (mpsgraph m) = encode_mpsgraph m
encode_node (workspace w) = λ s. (done tt, s)
encode_node (workspace_fill w) = do
  need (backend_error w.id "failed to create Metal workspace blit encoder")
  hold_buffer w.dst
  put_work true

unfoldable pub encode_nodes : List ExecNode → M Session (Unit {0})
encode_nodes [] s = (done tt, s)
encode_nodes (n ∷ ns) s = after (encode_node n s) (λ _. encode_nodes ns)

-- The first loop of mgGraphLaunch: the room for buffers and for events. These are sums of the lengths
-- of arrays in memory, which fit a word.
unfoldable pub buffer_need : ExecNode → ℕ
buffer_need (dispatch d) = length d.buffers
buffer_need (copy c) = 2
buffer_need (fill f) = 1
buffer_need (event_wait e) = 0
buffer_need (event_signal e) = 0
buffer_need (barrier id) = 0
buffer_need (mpsgraph m) = length m.feeds + length m.targets
buffer_need (workspace w) = 0
buffer_need (workspace_fill w) = 1

unfoldable pub event_need : ExecNode → ℕ
event_need (event_wait e) = 1
event_need (event_signal e) = 1
event_need _ = 0

unfoldable pub buffers_needed : List ExecNode → ℕ
buffers_needed [] = 0
buffers_needed (n ∷ ns) = buffer_need n + buffers_needed ns

unfoldable pub events_needed : List ExecNode → ℕ
events_needed [] = 0
events_needed (n ∷ ns) = event_need n + events_needed ns
