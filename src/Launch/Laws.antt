-- ===== src/Launch/Laws.antt =====
-- The launches of src/metal/metal_backend.mm on every branch: what a launch takes, and that it gives
-- all of it back.
use metal_graph.Base.{
  ℕ, ◌+◌, ◌<◌, ◌≡◌, refl, ap, ◌∙◌, true, false, Bool, List, length, arith, ◌==◌, if◌then◌else◌,
}
use metal_graph.Outcome.{Outcome, done, failed, fault, Failure, node_id_invalid}
use metal_graph.Heap.Counting.{word32}
use metal_graph.Heap.Refs.{Ref, ref_count, count, HeapKept, HeapKept-refl, HeapKept-trans}
use metal_graph.Graph.Holding.{Ends, Ends-bind, Ends-map}
use metal_graph.Exec.{Exec, ExecNode, exec_refs}
use metal_graph.Launch.{Launch, Session, backend_error, need, retain_command_buffer}
use metal_graph.Launch.Encode.{encode_nodes, buffers_needed, events_needed}
use metal_graph.Launch.Calls.{
  make_launch, put_diagnostics, destroyed, or_destroy, commit_last, encode, graph_launch,
}
use metal_graph.Launch.Taking.{put_work-Took}
use metal_graph.Launch.Took.{ImplsFit, launch_refs, Took, Balanced, Room}
use metal_graph.Launch.Steps.{Takes, Takes-then, retain_command_buffer-Takes}
use metal_graph.Launch.Nodes.{NodesGiven, encode_nodes-Takes}
use metal_graph.Launch.Destroy.{launch_destroy-Shrunk}
use metal_graph.Launch.Making.{Fresh, Launched, Quiet, Quiet-need, Unlaunched, make_launch-Ends}

abbrev nothing : Ref → ℕ
nothing r = 0

Took-refl : (s : Session) → ImplsFit s.launch → Took nothing 0 0 s s
Took-refl s impls = record {
  counts = λ r. omega arith;
  refs = λ r. omega arith;
  kept = HeapKept-refl s.heap;
  buffers = omega arith;
  events = omega arith;
  buffer_room = refl;
  event_room = refl;
  completed = refl;
  impls = impls;
  exec = refl;
}

module _ (taken : Ref → ℕ) (b e : ℕ) (s t : Session) (h : Took taken b e s t) where
  commit_if :
      (work : Bool) → Takes taken b e s (if work then retain_command_buffer t else (done tt, t))
  commit_if true = retain_command_buffer-Takes taken b e s t h
  commit_if false = h

  commit_last-Takes : Takes taken b e s (commit_last t)
  unfolding commit_last
  commit_last-Takes = commit_if t.has_work

-- The encoding of all nodes, into a launch that has the room that was counted.
encode-Takes :
    (ns : List ExecNode) (s : Session)
    → NodesGiven ns
    → ImplsFit s.launch
    → Room (λ r. count r (exec_refs ns)) (buffers_needed ns) (events_needed ns) nothing 0 0 s
    → Takes
        (λ r. 0 + count r (exec_refs ns))
        (0 + buffers_needed ns)
        (0 + events_needed ns)
        s
        (encode ns s)
unfolding encode
encode-Takes ns s given impls room =
    let start = put_work-Took nothing 0 0 s s (Took-refl s impls) (length ns == 0) in
    Takes-then _ _ _ _ _ _ s (encode_nodes ns (record s { has_work = length ns == 0 })) _
      (encode_nodes-Takes ns nothing 0 0 s _ given room start) λ u k. commit_last-Takes _ _ _ s u k

-- What the launch of an executable needs of it and of its heap.
pub record IsLaunchable (s : Session) : Type 0 where
  pub given : NodesGiven s.exec.nodes
  pub live : (r : Ref) → 0 < count r (exec_refs s.exec.nodes) → 0 < ref_count s.heap r
  pub fits : (r : Ref) → ref_count s.heap r + count r (exec_refs s.exec.nodes) < word32
  pub in_flight : s.exec.in_flight_count + 1 < word32

-- Encoded, but not yet counted.
record Encoded (s t : Session) : Type 0 where
  counts : (r : Ref) → ref_count t.heap r ≡ ref_count s.heap r + count r (exec_refs s.exec.nodes)
  refs : (r : Ref) → count r (launch_refs t.launch) ≡ count r (exec_refs s.exec.nodes)
  kept : HeapKept s.heap t.heap
  nodes : t.exec.nodes ≡ s.exec.nodes
  in_flight : t.exec.in_flight_count ≡ s.exec.in_flight_count
  completed : t.launch.completed ≡ false
  impls : ImplsFit t.launch

-- All that was taken was given back.
record GaveBack (s t : Session) : Type 0 where
  counts : (r : Ref) → ref_count t.heap r ≡ ref_count s.heap r
  kept : HeapKept s.heap t.heap
  exec : t.exec ≡ s.exec

-- The returns that destroy the launch first give back all that it has taken.
or_destroy-Ends :
    (P : Session → Type 0) (v : Session) (r : Outcome (Unit {0}) × Session)
    → ((q : Ref) → count q (launch_refs v.launch) ≡ 0)
    → Ends (λ _ t. P t) (Balanced v) r
    → Ends (λ _ t. P t) (GaveBack v) (or_destroy r)
or_destroy-Ends P v (done u, t) empty h = h
or_destroy-Ends P v (failed f, t) empty h =
    let (k, e, back) =
      launch_destroy-Shrunk t.launch t.heap (λ q. omega (arith, h.counts q, empty q)) in
    rw (e, destroyed)
      (record {
        counts = λ q. omega (arith, back.counts q, h.counts q, empty q);
        kept = HeapKept-trans h.kept back.kept;
        exec = h.exec;
      })
or_destroy-Ends P v (fault, t) empty h = absurd h

pub Ends-weaken :
    {S A : Type 0} (P : A → S → Type 0) (E F : S → Type 0) (r : Outcome A × S)
    → ((t : S) → E t → F t)
    → Ends P E r
    → Ends P F r
Ends-weaken P E F (done a, t) f h = h
Ends-weaken P E F (failed e, t) f h = f t h
Ends-weaken P E F (fault, t) f h = h

module _ (s u : Session) (ready : IsLaunchable s) (fresh : Fresh s.exec.nodes s u) where
  abbrev shown : Session
  shown = (put_diagnostics u).1

  shown-Room :
      Room
        (λ r. count r (exec_refs s.exec.nodes))
        (buffers_needed s.exec.nodes)
        (events_needed s.exec.nodes)
        nothing
        0
        0
        shown
  shown-Room =
      let q = fresh.quiet in
      record {
        live = λ r pos. omega (arith, q.counts r, ready.live r pos);
        fits = λ r. omega (arith, q.counts r, ready.fits r);
        buffers = rw fresh.launch (omega arith);
        events = rw fresh.launch (omega arith);
      }

  shown-ImplsFit : ImplsFit shown.launch
  shown-ImplsFit = rw fresh.launch (record { held = omega arith; room = refl; small = omega arith })

  shown-empty : (r : Ref) → count r (launch_refs shown.launch) ≡ 0
  shown-empty r = rw fresh.launch refl

  Took-Encoded :
      (b e : ℕ) (t : Session)
      → Took (λ r. 0 + count r (exec_refs s.exec.nodes)) b e shown t
      → Encoded s t
  Took-Encoded b e t k =
      let q = fresh.quiet in
      record {
        counts = λ r. omega (arith, k.counts r, q.counts r);
        refs = λ r. omega (arith, k.refs r, shown-empty r);
        kept = HeapKept-trans q.kept k.kept;
        nodes = ap (λ (x : Exec). x.nodes) k.exec ∙ ap (λ (x : Exec). x.nodes) q.exec;
        in_flight =
            ap (λ (x : Exec). x.in_flight_count) k.exec
            ∙ ap (λ (x : Exec). x.in_flight_count) q.exec;
        completed = k.completed ∙ ap (λ (x : Launch). x.completed) fresh.launch;
        impls = k.impls;
      }

  encode_end : Ends (λ _ t. Encoded s t) (Unlaunched s) (or_destroy (encode s.exec.nodes shown))
  encode_end =
      let q = fresh.quiet in
      let takes = encode-Takes s.exec.nodes shown ready.given shown-ImplsFit shown-Room in
      Ends-weaken (λ (_ : Unit {0}) t. Encoded s t) (GaveBack shown) (Unlaunched s)
        (or_destroy (encode s.exec.nodes shown))
        (λ t g. record {
          counts = λ r. omega (arith, g.counts r, q.counts r);
          kept = HeapKept-trans q.kept g.kept;
          nodes = ap (λ (x : Exec). x.nodes) g.exec ∙ ap (λ (x : Exec). x.nodes) q.exec;
          in_flight =
              ap (λ (x : Exec). x.in_flight_count) g.exec
              ∙ ap (λ (x : Exec). x.in_flight_count) q.exec;
        })
        (or_destroy-Ends (Encoded s) shown (encode s.exec.nodes shown) shown-empty (
          Ends-map _ (λ _ t. Encoded s t) (Balanced shown) (encode s.exec.nodes shown)
            (λ _ t k. Took-Encoded _ _ t k) takes))

Quiet-Unlaunched : (s t : Session) → Quiet s t → Unlaunched s t
Quiet-Unlaunched s t q = record {
  counts = q.counts;
  kept = q.kept;
  nodes = ap (λ (x : Exec). x.nodes) q.exec;
  in_flight = ap (λ (x : Exec). x.in_flight_count) q.exec;
}

abbrev pub no_command_buffer : Failure
no_command_buffer = backend_error node_id_invalid "failed to create Metal command buffer"

-- mgGraphLaunch along its direct path, of an executable whose nodes have no NULL among their
-- objects, whose objects live and whose counters have room: it never touches a dead object and never
-- writes behind its arrays, which are those of the buffers, of the events and of the command
-- buffers. It fails, at whatever answer of Metal or of the allocator, with all counts and the
-- executable's nodes as they were and no launch in flight more; or the launch holds one reference
-- more for each of the executable's, exactly these are in its arrays, its command buffers are no
-- more than their array has room for, and one launch more is in flight.
pub graph_launch-Ends :
    (s : Session)
    → IsLaunchable s
    → Ends (λ (_ : Unit {0}) t. Launched s t) (Unlaunched s) (graph_launch s)
unfolding graph_launch
graph_launch-Ends s ready =
    Ends-bind (λ (_ : Unit {0}) t. Encoded s t) (λ _ t. Launched s t) (Unlaunched s) _ _
      (Ends-bind (λ (_ : Unit {0}) t. Quiet s t) (λ _ t. Encoded s t) (Unlaunched s)
        (need no_command_buffer s) _
        (Ends-weaken (λ (_ : Unit {0}) t. Quiet s t) (Quiet s) (Unlaunched s)
          (need no_command_buffer s) (Quiet-Unlaunched s)
          (Quiet-need s s no_command_buffer
            (record { counts = λ r. refl; kept = HeapKept-refl s.heap; exec = refl })))
        λ _ t q.
          Ends-bind (λ (_ : Unit {0}) u. Fresh s.exec.nodes s u) (λ _ u. Encoded s u) (Unlaunched s)
            (make_launch s.exec.nodes t) _
            (Ends-weaken (λ (_ : Unit {0}) u. Fresh s.exec.nodes s u) (Quiet s) (Unlaunched s)
              (make_launch s.exec.nodes t) (Quiet-Unlaunched s)
              (make_launch-Ends s.exec.nodes s t q))
            λ _ u fresh. encode_end s u ready fresh)
      λ _ t h.
        let below = ready.in_flight in
        let same = h.in_flight in
        record {
          counts = h.counts;
          refs = h.refs;
          kept = h.kept;
          nodes = h.nodes;
          in_flight = omega arith;
          completed = h.completed;
          impls = h.impls;
        }
