-- ===== src/Launch/Idle.antt =====
-- A launch of src/metal/metal_backend.mm that encodes nothing.
use metal_graph.Base.{
  ℕ, ◌+◌, ◌%◌, ◌<◌, ◌≡◌, ◌≢◌, refl, ap, true, false, List, [], ◌∷◌, length, arith, ◌==◌, ltb,
}
use metal_graph.Types.{Stage}
use metal_graph.Outcome.{done, failed, node_id_invalid, invalid_at}
use metal_graph.Heap.Counting.{word32}
use metal_graph.Heap.Refs.{HeapKept-refl}
use metal_graph.Graph.Holding.{Ends, Ends-bind}
use metal_graph.Exec.{
  Exec, ExecNode, refused, when_ready, dispatch, copy, fill, event_wait, event_signal, barrier,
  mpsgraph, workspace, workspace_fill,
}
use metal_graph.Launch.Encode.{encode_node, encode_nodes}
use metal_graph.Exec.Patch.{Request, patch}
use metal_graph.Launch.{Launch, Session, need}
use metal_graph.Launch.Calls.{
  make_launch, put_diagnostics, or_destroy, commit_last, encode, graph_launch, launch_synchronize,
}
use metal_graph.Launch.Laws.{no_command_buffer, Ends-weaken}
use metal_graph.Launch.Making.{Quiet, Fresh, make_launch-Ends, Quiet-need}

-- Nodes for which nothing is encoded.
abbrev pub IsIdle : ExecNode → Type 0
IsIdle (barrier id) = Unit {0}
IsIdle (workspace w) = Unit {0}
IsIdle _ = ⊥

abbrev pub AllIdle : List ExecNode → Type 0
AllIdle [] = Unit {0}
AllIdle (n ∷ ns) = IsIdle n × AllIdle ns

encode_node-idle : (n : ExecNode) (s : Session) → IsIdle n → encode_node n s ≡ (done tt, s)
unfolding encode_node
encode_node-idle (barrier id) s idle = refl
encode_node-idle (workspace w) s idle = refl
encode_node-idle (dispatch d) s idle = absurd idle
encode_node-idle (copy c) s idle = absurd idle
encode_node-idle (fill f) s idle = absurd idle
encode_node-idle (event_wait e) s idle = absurd idle
encode_node-idle (event_signal e) s idle = absurd idle
encode_node-idle (mpsgraph m) s idle = absurd idle
encode_node-idle (workspace_fill w) s idle = absurd idle

encode_nodes-idle :
    (ns : List ExecNode) (s : Session) → AllIdle ns → encode_nodes ns s ≡ (done tt, s)
unfolding encode_nodes
encode_nodes-idle [] s idle = refl
encode_nodes-idle (n ∷ ns) s idle = rw (encode_node-idle n s idle.0) (encode_nodes-idle ns s idle.1)

encode-idle :
    (ns : List ExecNode) (s : Session)
    → AllIdle ns
    → (length ns == 0) ≡ false
    → encode ns s ≡ (done tt, record s { has_work = false })
unfolding encode commit_last
encode-idle ns s idle some_nodes =
    rw (some_nodes, encode_nodes-idle ns (record s { has_work = false }) idle) refl

-- No command buffer was committed, and the launch counts as in flight.
record Empty (s t : Session) : Type 0 where
  impl_count : t.launch.impl_count ≡ 0
  in_flight : t.exec.in_flight_count ≡ (s.exec.in_flight_count + 1) % word32

not_empty : (ns : List ExecNode) → ns ≢ [] → (length ns == 0) ≡ false
not_empty [] h = absurd (h refl)
not_empty (n ∷ ns) h = ground arith

graph_launch-Empty :
    (s : Session)
    → AllIdle s.exec.nodes
    → s.exec.nodes ≢ []
    → Ends (λ (_ : Unit {0}) t. Empty s t) (λ _. Unit {0}) (graph_launch s)
unfolding graph_launch
graph_launch-Empty s idle some_nodes =
    Ends-bind (λ (_ : Unit {0}) t. Encoded t) (λ _ t. Empty s t) (λ _. Unit {0}) _ _
      (Ends-bind (λ (_ : Unit {0}) t. Quiet s t) (λ _ t. Encoded t) (λ _. Unit {0})
        (need no_command_buffer s) _
        (Ends-weaken (λ (_ : Unit {0}) t. Quiet s t) (Quiet s) (λ _. Unit {0})
          (need no_command_buffer s) (λ t q. tt)
          (Quiet-need s s no_command_buffer
            (record { counts = λ r. refl; kept = HeapKept-refl s.heap; exec = refl })))
        λ _ t q.
          Ends-bind (λ (_ : Unit {0}) u. Fresh s.exec.nodes s u) (λ _ u. Encoded u) (λ _. Unit {0})
            (make_launch s.exec.nodes t) _
            (Ends-weaken (λ (_ : Unit {0}) u. Fresh s.exec.nodes s u) (Quiet s) (λ _. Unit {0})
              (make_launch s.exec.nodes t) (λ u q'. tt) (make_launch-Ends s.exec.nodes s t q))
            λ _ u fresh. idle_end u fresh)
      λ _ t (count, same). record { impl_count = count; in_flight = rw same refl }
  where
    Encoded : Session → Type 0
    Encoded t = (t.launch.impl_count ≡ 0) × (t.exec.in_flight_count ≡ s.exec.in_flight_count)

    idle_end :
        (u : Session)
        → Fresh s.exec.nodes s u
        → Ends
            (λ (_ : Unit {0}) t. Encoded t)
            (λ _. Unit {0})
            (or_destroy (encode s.exec.nodes (put_diagnostics u).1))
    idle_end u fresh =
        rw (encode-idle s.exec.nodes (put_diagnostics u).1 idle (not_empty s.exec.nodes some_nodes))
          (
            ap (λ (x : Launch). x.impl_count) fresh.launch,
            (let q = fresh.quiet in ap (λ (x : Exec). x.in_flight_count) q.exec),
          )

-- A launch of an executable that has nodes, but only barriers and workspace nodes: if mgGraphLaunch
-- returns MG_STATUS_OK, mgLaunchSynchronize refuses the launch and changes nothing, and from then on
-- every patch of the executable is refused because a launch is in flight, and changes nothing.
pub graph_launch-patch_idle :
    (s t : Session)
    → AllIdle s.exec.nodes
    → s.exec.nodes ≢ []
    → s.exec.in_flight_count + 1 < word32
    → graph_launch s ≡ (done tt, t)
    → (launch_synchronize t
        ≡ (failed (invalid_at Stage.sync node_id_invalid "launch is required"), t))
      × ((id : ℕ) (request : Request)
          → patch id request (record { heap = t.heap; exec = t.exec }) ≡ (
            failed (refused node_id_invalid "exec has an in-flight launch"),
            record { heap = t.heap; exec = t.exec },
          ))
unfolding launch_synchronize patch when_ready
graph_launch-patch_idle s t idle some_nodes small launches =
    let empty : Empty s t = rw launches at (graph_launch-Empty s idle some_nodes) in
    let none_committed = empty.impl_count in
    let counted = empty.in_flight in
    let test : (t.launch.impl_count == 0) ≡ true = ground arith in
    let busy : ltb 0 t.exec.in_flight_count ≡ true = ground arith in
    (rw test refl, λ id request. rw busy refl)
