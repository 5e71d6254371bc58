-- ===== src/Errors/Laws.antt =====
-- What a caller of src/core/error.c can rely on.
use metal_graph.Base.{
  ℕ, suc, ◌≡◌, refl, ◌∙◌, ap, Bool, true, false, ◌&&◌, if◌then◌else◌, Option, none, some, String,
  Bool-cases, inl, inr,
}
use metal_graph.Types.{Status, Stage, status_string}
use metal_graph.Heap.{Heap, malloc}
use metal_graph.Heap.Memory.{OnlyCalls, OnlyCalls-refl, OnlyCalls-trans}
use metal_graph.Graph.{is_given}
use metal_graph.Errors.{Report, copy_string, text_or, finish_report, fill_report, set_error}

-- The allocations of the two texts succeed; there is one for the backend's only if it has a message.
abbrev pub texts_left : Option String → Heap → Bool
texts_left none h = is_given (h.answers (suc h.calls))
texts_left (some t) h =
    is_given (h.answers (suc h.calls)) && is_given (h.answers (suc (suc h.calls)))

-- All allocations of a report succeed.
abbrev pub memory_left : Option String → Heap → Bool
memory_left backend h = is_given (h.answers h.calls) && texts_left backend h

-- The report of a call, with the message that it gives or else the text of the status.
abbrev pub report_of : Status → Stage → ℕ → Option String → Option String → Report
report_of status stage node_id none backend = record {
  status = status;
  stage = stage;
  node_id = node_id;
  message = status_string status;
  backend_message = backend;
}
report_of status stage node_id (some text) backend = record {
  status = status;
  stage = stage;
  node_id = node_id;
  message = text;
  backend_message = backend;
}

report_of-text_or :
    (status : Status) (stage : Stage) (node_id : ℕ) (message backend : Option String)
    → record {
      status = status;
      stage = stage;
      node_id = node_id;
      message = text_or message (status_string status);
      backend_message = backend;
    }
      ≡ report_of status stage node_id message backend
report_of-text_or status stage node_id none backend = refl
report_of-text_or status stage node_id (some text) backend = refl

filled :
    (status : Status) (stage : Stage) (node_id : ℕ) (message backend : Option String) (h : Heap)
    → (fill_report (h.answers h.calls) status stage node_id message backend (malloc h).1).0 ≡ (
        if memory_left backend h
        then some (record {
          status = status;
          stage = stage;
          node_id = node_id;
          message = text_or message (status_string status);
          backend_message = backend;
        })
        else none)
unfolding malloc fill_report finish_report copy_string
filled status stage node_id message backend h = go (h.answers h.calls) backend
  where
    go :
        (o : Option ℕ) (b : Option String)
        → (fill_report o status stage node_id message b (record h { calls = suc h.calls })).0 ≡ (
            if is_given o && texts_left b h
            then some (record {
              status = status;
              stage = stage;
              node_id = node_id;
              message = text_or message (status_string status);
              backend_message = b;
            })
            else none)
    go none none = refl
    go none (some t) = refl
    go (some p) none = elim (Bool-cases (is_given (h.answers (suc h.calls)))) [
      | inl ok ↦ rw ok refl
      | inr bad ↦ rw bad refl
    ]
    go (some p) (some t) = elim (Bool-cases (is_given (h.answers (suc h.calls)))) [
      | inr bad ↦ rw bad refl
      | inl ok ↦ rw ok (elim (Bool-cases (is_given (h.answers (suc (suc h.calls))))) [
        | inl ok' ↦ rw ok' refl
        | inr bad ↦ rw bad refl
      ])
    ]

-- mg_set_error returns the status that it is given, whatever the allocator does. It leaves a report
-- exactly if the caller wants one and none of its allocations fails; the report has the status, stage
-- and node id of the call, the message or else the text of the status, and the backend's message.
pub set_error_lem :
    (wanted : Bool) (status : Status) (stage : Stage) (node_id : ℕ)
    (message backend : Option String) (h : Heap)
    → ((set_error wanted status stage node_id message backend h).status ≡ status)
      × ((set_error wanted status stage node_id message backend h).out_error ≡ (
          if wanted && memory_left backend h
          then some (report_of status stage node_id message backend)
          else none))
unfolding set_error malloc
set_error_lem true status stage node_id message backend h = (
  refl,
  filled status stage node_id message backend h
      ∙ ap (λ (x : Report). if memory_left backend h then some x else none)
          (report_of-text_or status stage node_id message backend),
)
set_error_lem false status stage node_id message backend h = (refl, refl)

copy_string-OnlyCalls : (t : Option String) (h : Heap) → OnlyCalls h (copy_string t h).1
unfolding copy_string malloc
copy_string-OnlyCalls none h = OnlyCalls-refl h
copy_string-OnlyCalls (some t) h = record { calls = suc h.calls; same = refl }

-- mg_set_error changes nothing but the allocator.
pub set_error-OnlyCalls :
    (wanted : Bool) (status : Status) (stage : Stage) (node_id : ℕ)
    (message backend : Option String) (h : Heap)
    → OnlyCalls h (set_error wanted status stage node_id message backend h).heap
unfolding set_error malloc fill_report
set_error-OnlyCalls false status stage node_id message backend h = OnlyCalls-refl h
set_error-OnlyCalls true status stage node_id message backend h =
    OnlyCalls-trans (record { calls = suc h.calls; same = refl }) (go (h.answers h.calls))
  where
    go :
        (o : Option ℕ)
        → OnlyCalls (malloc h).1 (fill_report o status stage node_id message backend (malloc h).1).1
    go none = OnlyCalls-refl (malloc h).1
    go (some p) =
        let text = some (text_or message (status_string status)) in
        OnlyCalls-trans (copy_string-OnlyCalls text (malloc h).1)
          (copy_string-OnlyCalls backend (copy_string text (malloc h).1).1)
