-- ===== src/Unsupported/Laws.antt =====
-- What the entry points of src/metal/unsupported_backend.c have in common.
use metal_graph.Base.{
  ℕ, ◌≡◌, ◌≢◌, ◌↔◌, ◌⊎◌, inl, inr, refl, sym, ◌∙◌, Bool, true, false, not, ◌&&◌, ◌==◌,
  if◌then◌else◌, Option, none, some, String, arith,
}
use metal_graph.Types.{Status, Stage}
use metal_graph.Outcome.{node_id_invalid}
use metal_graph.Heap.{Heap}
use metal_graph.Heap.Memory.{OnlyCalls}
use metal_graph.Graph.{is_given}
use metal_graph.Errors.Laws.{set_error_lem, set_error-OnlyCalls}
use metal_graph.Errors.{Report, set_error}
use metal_graph.Unsupported.{
  Output, Refusal, cleared, missing, refused, device_create, stream_create, buffer_create_shared,
  event_create, graph_instantiate, graph_launch, launch_synchronize,
}

-- A call of the backend, with its arguments.
pub data Call : Type 0 where
  create_device : Output → Call
  create_stream : Option ℕ → Output → Call
  create_buffer : Option ℕ → ℕ → Output → Call
  create_event : Option ℕ → Output → Call
  instantiate : Option ℕ → Option ℕ → Output → Call
  launch : Option ℕ → Option ℕ → Output → Call
  synchronize : Option ℕ → Call

pub run : Bool → Call → Heap → Refusal
run wanted (create_device out) = device_create wanted out
run wanted (create_stream device out) = stream_create wanted device out
run wanted (create_buffer device length out) = buffer_create_shared wanted device length out
run wanted (create_event device out) = event_create wanted device out
run wanted (instantiate graph device out) = graph_instantiate wanted graph device out
run wanted (launch exec stream out) = graph_launch wanted exec stream out
run wanted (synchronize l) = launch_synchronize wanted l

abbrev pub output_of : Call → Output
output_of (create_device out) = out
output_of (create_stream device out) = out
output_of (create_buffer device length out) = out
output_of (create_event device out) = out
output_of (instantiate graph device out) = out
output_of (launch exec stream out) = out
output_of (synchronize l) = none

-- The pointer is not NULL.
abbrev pub Given : {A : Type 0} → Option A → Type 0
Given {A} o = (a : A) × (o ≡ some a)

-- All arguments of the call are there.
abbrev pub IsComplete : Call → Type 0
IsComplete (create_device out) = Given out
IsComplete (create_stream device out) = Given device × Given out
IsComplete (create_buffer device length out) = Given device × Given out × (length ≢ 0)
IsComplete (create_event device out) = Given device × Given out
IsComplete (instantiate graph device out) = Given graph × Given device × Given out
IsComplete (launch exec stream out) = Given exec × Given stream × Given out
IsComplete (synchronize l) = Given l

-- The call fails with the status and leaves this output.
pub record Refuses (h : Heap) (expected : Status) (left : Output) (r : Refusal) : Type 0 where
  pub status : r.reported.status ≡ expected
  pub out : r.out ≡ left
  pub told : (report : Report) → r.reported.out_error ≡ some report → report.status ≡ expected
  pub only_calls : OnlyCalls h r.reported.heap

told_of :
    (b : Bool) (made report : Report)
    → (if b then some made else none) ≡ some report
    → report.status ≡ made.status
told_of true made report e = let same : made ≡ report = cc in rw same
told_of false made report e = cc

set_error-Refuses :
    (wanted : Bool) (status : Status) (stage : Stage) (text : String) (out : Output) (h : Heap)
    → Refuses h status out (record {
      reported = set_error wanted status stage node_id_invalid (some text) none h;
      out = out;
    })
unfolding set_error
set_error-Refuses wanted status stage text out h =
    let (same, left) = set_error_lem wanted status stage node_id_invalid (some text) none h in
    record {
      status = same;
      out = refl;
      told = λ report e. told_of _ _ report (sym left ∙ e);
      only_calls = set_error-OnlyCalls wanted status stage node_id_invalid (some text) none h;
    }

Given-iff : {A : Type 0} (o : Option A) → (is_given o ≡ true) ↔ Given o
Given-iff none = ((λ e. cc), (λ g. let n = g.1 in cc))
Given-iff (some a) = ((λ e. (a, refl)), (λ g. refl))

-- A conjunction of tests, in which each reflects its part.
both_iff :
    {P Q : Type 0} (a b : Bool) → (a ≡ true) ↔ P → (b ≡ true) ↔ Q → ((a && b) ≡ true) ↔ (P × Q)
both_iff a b f g = (
  (λ e. (f.0 (ground arith), g.0 (ground arith))),
  (λ h. let x = f.1 h.0 in let y = g.1 h.1 in ground arith),
)

three_iff :
    {P Q R : Type 0} (a b c : Bool)
    → (a ≡ true) ↔ P
    → (b ≡ true) ↔ Q
    → (c ≡ true) ↔ R
    → ((a && b && c) ≡ true) ↔ (P × Q × R)
three_iff a b c f g k = (
  (λ e. (f.0 (ground arith), g.0 (ground arith), k.0 (ground arith))),
  (λ h. let x = f.1 h.0 in let y = g.1 h.1 in let z = k.1 h.2 in ground arith),
)

nonzero_iff : (n : ℕ) → (not (n == 0) ≡ true) ↔ (n ≢ 0)
nonzero_iff n = ((λ e z. ground arith), (λ ne. ground arith))

-- The output of the call, holding NULL.
abbrev pub null_output : Call → Output
null_output (synchronize l) = none
null_output _ = some none

cleared-some : (out : Output) → Given out → cleared out ≡ some none
cleared-some none g = let n = g.1 in cc
cleared-some (some v) g = refl

cleared_output : (c : Call) → IsComplete c → cleared (output_of c) ≡ null_output c
cleared_output (create_device out) g = cleared-some out g
cleared_output (create_stream device out) g = cleared-some out g.1
cleared_output (create_buffer device length out) g = cleared-some out g.1
cleared_output (create_event device out) g = cleared-some out g.1
cleared_output (instantiate graph device out) g = cleared-some out g.2
cleared_output (launch exec stream out) g = cleared-some out g.2
cleared_output (synchronize l) g = refl

-- The two results of a call.
abbrev pub Outcomes : Call → Heap → Refusal → Type 0
Outcomes c h r =
    (IsComplete c × Refuses h Status.unsupported (null_output c) r)
    ⊎ (¬ IsComplete c × Refuses h Status.invalid_argument (output_of c) r)

refuse-Outcomes :
    (wanted : Bool) (c : Call) (test : Bool) (stage : Stage) (wrong text : String) (h : Heap)
    → (test ≡ true) ↔ IsComplete c
    → Outcomes c h (
        if not test
        then missing wanted stage wrong (output_of c) h
        else refused wanted stage text (output_of c) h)
refuse-Outcomes wanted c true stage wrong text h reflects = inl (
  reflects.0 refl,
  rw (← cleared_output c (reflects.0 refl))
      (set_error-Refuses wanted Status.unsupported stage text (cleared (output_of c)) h),
)
refuse-Outcomes wanted c false stage wrong text h reflects = inr (
  (λ complete. let e = reflects.1 complete in cc),
  set_error-Refuses wanted Status.invalid_argument stage wrong (output_of c) h,
)

-- Every call of the backend that replaces Metal fails, whatever the allocator answers, and changes
-- nothing but its output and the allocator. If all its arguments are there the status is
-- MG_STATUS_UNSUPPORTED and its output is NULL afterwards; otherwise the status is
-- MG_STATUS_INVALID_ARGUMENT and its output is as it was. A report, where one is left, has the status.
pub run-Outcomes : (wanted : Bool) (c : Call) (h : Heap) → Outcomes c h (run wanted c h)
unfolding run device_create stream_create buffer_create_shared event_create graph_instantiate
    graph_launch launch_synchronize
run-Outcomes wanted (create_device out) h =
    refuse-Outcomes wanted (create_device out) (is_given out) _ _ _ h (Given-iff out)
run-Outcomes wanted (create_stream device out) h =
    refuse-Outcomes wanted (create_stream device out) (is_given device && is_given out) _ _ _ h
      (both_iff _ _ (Given-iff device) (Given-iff out))
run-Outcomes wanted (create_buffer device length out) h =
    refuse-Outcomes wanted (create_buffer device length out)
      (is_given device && is_given out && not (length == 0)) _ _ _ h
      (three_iff _ _ _ (Given-iff device) (Given-iff out) (nonzero_iff length))
run-Outcomes wanted (create_event device out) h =
    refuse-Outcomes wanted (create_event device out) (is_given device && is_given out) _ _ _ h
      (both_iff _ _ (Given-iff device) (Given-iff out))
run-Outcomes wanted (instantiate graph device out) h =
    refuse-Outcomes wanted (instantiate graph device out)
      (is_given graph && is_given device && is_given out) _ _ _ h
      (three_iff _ _ _ (Given-iff graph) (Given-iff device) (Given-iff out))
run-Outcomes wanted (launch exec stream out) h =
    refuse-Outcomes wanted (launch exec stream out)
      (is_given exec && is_given stream && is_given out) _ _ _ h
      (three_iff _ _ _ (Given-iff exec) (Given-iff stream) (Given-iff out))
run-Outcomes wanted (synchronize l) h =
    refuse-Outcomes wanted (synchronize l) (is_given l) _ _ _ h (Given-iff l)
