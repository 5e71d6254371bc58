-- ===== src/Launch/Making.antt =====
-- What a launch of src/metal/metal_backend.mm means to the state, and the part of it before the encoding.
use metal_graph.Base.{
  ◌+◌, ◌≡◌, refl, ◌∙◌, true, false, Bool, List, ◌==◌, if◌then◌else◌, Bool-cases, inl, inr,
}
use metal_graph.Outcome.{Outcome, done, Failure}
use metal_graph.Heap.{malloc}
use metal_graph.Graph.{is_given}
use metal_graph.Heap.Refs.{Ref, ref_count, count, HeapKept, HeapKept-trans}
use metal_graph.Heap.RefLists.{malloc-HeapKept, malloc-counts}
use metal_graph.Graph.Holding.{Ends, Ends-bind}
use metal_graph.Exec.{ExecNode, exec_refs}
use metal_graph.Launch.{Launch, Session, need, allocate}
use metal_graph.Launch.Encode.{buffers_needed, events_needed}
use metal_graph.Launch.Calls.{empty_launch, allocate_some, make_launch}
use metal_graph.Launch.Took.{launch_refs, ImplsFit}

-- The state is as before the call, but for the diagnostics.
pub record Unlaunched (s t : Session) : Type 0 where
  pub counts : (r : Ref) → ref_count t.heap r ≡ ref_count s.heap r
  pub kept : HeapKept s.heap t.heap
  pub nodes : t.exec.nodes ≡ s.exec.nodes
  pub in_flight : t.exec.in_flight_count ≡ s.exec.in_flight_count

-- A launch that holds one reference more for each of the executable's.
pub record Launched (s t : Session) : Type 0 where
  pub counts :
      (r : Ref) → ref_count t.heap r ≡ ref_count s.heap r + count r (exec_refs s.exec.nodes)
  pub refs : (r : Ref) → count r (launch_refs t.launch) ≡ count r (exec_refs s.exec.nodes)
  pub kept : HeapKept s.heap t.heap
  pub nodes : t.exec.nodes ≡ s.exec.nodes
  pub in_flight : t.exec.in_flight_count ≡ s.exec.in_flight_count + 1
  pub completed : t.launch.completed ≡ false
  pub impls : ImplsFit t.launch

-- Before the encoding nothing is taken.
pub record Quiet (s t : Session) : Type 0 where
  pub counts : (r : Ref) → ref_count t.heap r ≡ ref_count s.heap r
  pub kept : HeapKept s.heap t.heap
  pub exec : t.exec ≡ s.exec

abbrev pub Quietly : Session → Outcome (Unit {0}) × Session → Type 0
Quietly s r = Ends (λ _ t. Quiet s t) (Quiet s) r

pub Quiet-need : (s t : Session) (f : Failure) → Quiet s t → Quietly s (need f t)
unfolding need
Quiet-need s t f q = elim (Bool-cases (t.says t.asked)) [
  | inl ok ↦ rw ok (record { counts = q.counts; kept = q.kept; exec = q.exec })
  | inr bad ↦ rw bad (record { counts = q.counts; kept = q.kept; exec = q.exec })
]

Quiet-allocate : (s t : Session) → Quiet s t → Quietly s (allocate t)
unfolding allocate
Quiet-allocate s t q =
    let u = record t { heap = (malloc t.heap).1 } in
    let moved : Quiet s u = record {
      counts = λ r. malloc-counts t.heap r ∙ q.counts r;
      kept = HeapKept-trans q.kept (malloc-HeapKept t.heap);
      exec = q.exec;
    } in
    elim (Bool-cases (is_given (malloc t.heap).0)) [ inl ok ↦ rw ok moved | inr bad ↦ rw bad moved ]

Quiet-allocate_if :
    (s t : Session) (skip : Bool)
    → Quiet s t
    → Quietly s (if skip then (done tt, t) else allocate t)
Quiet-allocate_if s t true q = q
Quiet-allocate_if s t false q = Quiet-allocate s t q

-- The launch is new, with room for all that the nodes need.
abbrev pub room_for : List ExecNode → Launch
room_for ns = record empty_launch { buffer_room = buffers_needed ns; event_room = events_needed ns }

pub record Fresh (ns : List ExecNode) (s t : Session) : Type 0 where
  pub quiet : Quiet s t
  pub launch : t.launch ≡ room_for ns

pub make_launch-Ends :
    (ns : List ExecNode) (s t : Session)
    → Quiet s t
    → Ends (λ _ u. Fresh ns s u) (Quiet s) (make_launch ns t)
unfolding make_launch
make_launch-Ends ns s t q =
    Ends-bind (λ _ u. Quiet s u) (λ _ u. Fresh ns s u) (Quiet s) (allocate t) _
      (Quiet-allocate s t q)
      λ _ u q1.
        Ends-bind (λ _ v. Quiet s v) (λ _ v. Fresh ns s v) (Quiet s)
          (allocate_some (buffers_needed ns) u) _
          (Quiet-allocate_if s u (buffers_needed ns == 0) q1)
          λ _ v q2.
            Ends-bind (λ _ w. Quiet s w) (λ _ w. Fresh ns s w) (Quiet s)
              (allocate_some (events_needed ns) v) _
              (Quiet-allocate_if s v (events_needed ns == 0) q2)
              λ _ w q3. record {
                quiet = record { counts = q3.counts; kept = q3.kept; exec = q3.exec };
                launch = refl;
              }
