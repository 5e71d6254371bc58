-- ===== src/Graph/Build/Simple.antt =====
-- What the constructors of src/core/graph.c for event, barrier and workspace nodes do, on every branch.
use metal_graph.Base.{
  ℕ, ◌≤◌, ◌<◌, ◌≡◌, ◌≢◌, refl, Bool, true, false, Option, none, some, [], arith, ◌==◌, ltb,
  Bool-cases, inl, inr, subst, sym,
}
use metal_graph.Types.{Stage}
use metal_graph.Outcome.{Outcome, done, failed, fault, Failure, after, ◌>>=◌, ◌>>◌}
use metal_graph.Align.{alignment_valid}
use metal_graph.Arena.{workspace_desc_validate, workspace_desc_size}
use metal_graph.Node.{
  WorkspaceDesc, EventNode, Payload, buffer_refs, event_refs, payload_refs, event_wait,
  event_signal, barrier, workspace,
}
use metal_graph.Heap.{buffer_retain}
use metal_graph.Graph.{State, NodeRef, range_within, check, alloc_node, touch, commit_node}
use metal_graph.Graph.Holding.{Ends, Ends-bind, Ends-map, Holding, Holding-refl, HasRoom}
use metal_graph.Graph.Adding.{CountersFit, Added, add_buffer-Ends, add_plain-Ends, add_event-Ends}
use metal_graph.Graph.Checks.{check-Ends, IsLive, InBuffer, range_within-Decides}
use metal_graph.Graph.Build.{
  add_event_node, add_event_wait_node, add_event_signal_node, add_barrier_node, add_workspace_node,
  add_workspace_fill_node, workspace_fill_of, validated,
}

add_event_node-Ends :
    (kind : EventNode → Payload) (p : ℕ) (value : ℕ) (s : State)
    → ((e : EventNode) → payload_refs (kind e) ≡ event_refs e.event)
    → HasRoom s.graph
    → IsLive s.heap (event_refs (some p))
    → CountersFit s (event_refs (some p))
    → Ends
        (Added (kind (record { event = some p; value = value })) s)
        (Holding [] s)
        (add_event_node kind (some p) value true s)
unfolding add_event_node
add_event_node-Ends kind p value s refs room live fits =
    add_event-Ends (kind (record { event = some p; value = value })) (some p) s room
      (refs (record { event = some p; value = value })) live fits

-- The node of an accepted event.
abbrev pub EventAdded : (EventNode → Payload) → Option ℕ → ℕ → State → NodeRef → State → Type 0
EventAdded kind event value s ref t =
    (event ≢ none) × Added (kind (record { event = event; value = value })) s ref t

-- mgGraphAddEventWaitNode and mgGraphAddEventSignalNode never read a dead object. They fail with the
-- graph and all counts as they were, or the node with the given value is the last of the graph, and
-- the graph holds one more reference to the event.
pub add_event_nodes-Ends :
    (event : Option ℕ) (value : ℕ) (out_node : Bool) (s : State)
    → HasRoom s.graph
    → IsLive s.heap (event_refs event)
    → CountersFit s (event_refs event)
    → Ends
        (EventAdded event_wait event value s)
        (Holding [] s)
        (add_event_wait_node event value out_node s)
      × Ends
          (EventAdded event_signal event value s)
          (Holding [] s)
          (add_event_signal_node event value out_node s)
unfolding add_event_wait_node add_event_signal_node add_event_node
add_event_nodes-Ends none value out_node s room live fits = (Holding-refl s, Holding-refl s)
add_event_nodes-Ends (some p) value false s room live fits = (Holding-refl s, Holding-refl s)
add_event_nodes-Ends (some p) value true s room live fits = (
  Ends-map _ (EventAdded event_wait (some p) value s) (Holding [] s) _ (λ ref t a. (λ e. cc, a))
      (add_event_node-Ends event_wait p value s (λ e. refl) room live fits),
  Ends-map _ (EventAdded event_signal (some p) value s) (Holding [] s) _ (λ ref t a. (λ e. cc, a))
      (add_event_node-Ends event_signal p value s (λ e. refl) room live fits),
)

-- mgGraphAddBarrierNode fails with the graph as it was, or adds a barrier at the end; no count changes.
pub add_barrier_node-Ends :
    (out_node : Bool) (s : State)
    → HasRoom s.graph
    → Ends (Added barrier s) (Holding [] s) (add_barrier_node out_node s)
unfolding add_barrier_node
add_barrier_node-Ends false s room = Holding-refl s
add_barrier_node-Ends true s room = add_plain-Ends barrier s room refl

-- What a workspace descriptor has to satisfy.
pub record WorkspaceValid (d : WorkspaceDesc) : Type 0 where
  pub size : workspace_desc_size ≤ d.size
  pub nonempty : 0 < d.byte_count
  pub aligned : alignment_valid d.alignment ≡ true

-- The result is a failure, or the descriptor itself and it is valid.
abbrev pub Validates : Option WorkspaceDesc → Outcome WorkspaceDesc → Type 0
Validates desc (done d) = (desc ≡ some d) × WorkspaceValid d
Validates desc (failed e) = Unit {0}
Validates desc fault = ⊥

pub workspace_desc_validate-Validates :
    (desc : Option WorkspaceDesc) (stage : Stage)
    → Validates desc (workspace_desc_validate desc stage)
unfolding workspace_desc_validate
workspace_desc_validate-Validates none stage = tt
workspace_desc_validate-Validates (some d) stage =
    elim (Bool-cases (ltb d.size workspace_desc_size)) [
      | inl small ↦ rw small tt
      | inr large ↦ rw large (elim (Bool-cases (d.byte_count == 0)) [
        | inl empty ↦ rw empty tt
        | inr some_bytes ↦ rw some_bytes (elim (Bool-cases (alignment_valid d.alignment)) [
          | inl a ↦
              rw a (refl, record { size = ground arith; nonempty = ground arith; aligned = a })
          | inr b ↦ rw b tt
        ])
      ])
    ]

-- A validation, as a step.
validated-Ends :
    (desc : Option WorkspaceDesc) (o : Outcome WorkspaceDesc) (s : State)
    → Validates desc o
    → Ends (λ d t. (t ≡ s) × (desc ≡ some d) × WorkspaceValid d) (Holding [] s) (validated o s)
validated-Ends desc (done d) s v = (refl, v.0, v.1)
validated-Ends desc (failed e) s v = Holding-refl s
validated-Ends desc fault s v = v

abbrev pub workspace_of : WorkspaceDesc → Payload
workspace_of d = workspace (record { size = d.byte_count; alignment = d.alignment })

-- The node of an accepted workspace descriptor.
abbrev pub WorkspaceAdded : Option WorkspaceDesc → State → NodeRef → State → Type 0
WorkspaceAdded desc s ref t =
    (d : WorkspaceDesc) × (desc ≡ some d) × WorkspaceValid d × Added (workspace_of d) s ref t

-- mg_internal_graph_add_workspace_node fails with the graph as it was, or the descriptor is valid and
-- its node is the last of the graph; no count changes.
pub add_workspace_node-Ends :
    (desc : Option WorkspaceDesc) (out_node : Bool) (s : State)
    → HasRoom s.graph
    → Ends (WorkspaceAdded desc s) (Holding [] s) (add_workspace_node desc out_node s)
unfolding add_workspace_node
add_workspace_node-Ends desc false s room = Holding-refl s
add_workspace_node-Ends desc true s room =
    Ends-bind (λ d t. (t ≡ s) × (desc ≡ some d) × WorkspaceValid d) (WorkspaceAdded desc s)
      (Holding [] s) _ _
      (validated-Ends desc (workspace_desc_validate desc Stage.create) s
        (workspace_desc_validate-Validates desc Stage.create))
      λ d t (same, d_is, valid). rw same (
        Ends-map (Added (workspace_of d) s) (WorkspaceAdded desc s) (Holding [] s) _
          (λ ref u a. (d, d_is, valid, a)) (add_plain-Ends (workspace_of d) s room refl))

-- The node of an accepted workspace fill.
pub record WorkspaceFillAdded (desc : Option WorkspaceDesc) (value : ℕ) (dst : Option ℕ)
    (dst_offset : ℕ) (s : State) (ref : NodeRef) (t : State) : Type 0 where
  pub d : WorkspaceDesc
  pub desc_is : desc ≡ some d
  pub valid : WorkspaceValid d
  pub within : InBuffer s.heap dst dst_offset d.byte_count
  pub added : Added (workspace_fill_of d value dst dst_offset) s ref t

-- The steps from the check of the destination on.
checked_fill-Ends :
    (desc : Option WorkspaceDesc) (d : WorkspaceDesc) (value p dst_offset : ℕ) (e : Failure)
    (s : State)
    → desc ≡ some d
    → WorkspaceValid d
    → HasRoom s.graph
    → IsLive s.heap (buffer_refs (some p))
    → CountersFit s (buffer_refs (some p))
    → Ends (WorkspaceFillAdded desc value (some p) dst_offset s) (Holding [] s) (
        after (check (λ h. range_within h (some p) dst_offset d.byte_count) e s) λ _.
          alloc_node (workspace_fill_of d value (some p) dst_offset) >>= λ n.
          touch (buffer_retain (some p)) >> commit_node n)
checked_fill-Ends desc d value p dst_offset e s d_is valid room live fits =
    let E = Holding [] s in
    let Q = WorkspaceFillAdded desc value (some p) dst_offset s in
    let payload = workspace_fill_of d value (some p) dst_offset in
    Ends-bind (λ _ u. (u ≡ s) × InBuffer s.heap (some p) dst_offset d.byte_count) Q E
      (check (λ h. range_within h (some p) dst_offset d.byte_count) e s) _
      (check-Ends (λ h. range_within h (some p) dst_offset d.byte_count) e
        (InBuffer s.heap (some p) dst_offset d.byte_count) s E
        (range_within-Decides s.heap (some p) dst_offset d.byte_count live refl) (Holding-refl s))
      λ _ u (same, within).
        subst
          (λ v.
            Ends Q E
              (after (alloc_node payload v) λ n. touch (buffer_retain (some p)) >> commit_node n))
          (sym same)
          (Ends-map (Added payload s) Q E _
            (λ ref v a. record { d = d; desc_is = d_is; valid = valid; within = within; added = a })
            (add_buffer-Ends payload (some p) s room refl live fits))

-- mg_internal_graph_add_workspace_fill_node never reads a dead object. It fails with the graph and all
-- counts as they were, or the descriptor is valid, the destination range lies in its buffer, the node
-- is the last of the graph, and the graph holds one more reference to the buffer.
pub add_workspace_fill_node-Ends :
    (desc : Option WorkspaceDesc) (value : ℕ) (dst : Option ℕ) (dst_offset : ℕ) (out_node : Bool)
    (s : State)
    → HasRoom s.graph
    → IsLive s.heap (buffer_refs dst)
    → CountersFit s (buffer_refs dst)
    → Ends
        (WorkspaceFillAdded desc value dst dst_offset s)
        (Holding [] s)
        (add_workspace_fill_node desc value dst dst_offset out_node s)
unfolding add_workspace_fill_node
add_workspace_fill_node-Ends desc value none dst_offset out_node s room live fits = Holding-refl s
add_workspace_fill_node-Ends desc value (some p) dst_offset false s room live fits = Holding-refl s
add_workspace_fill_node-Ends desc value (some p) dst_offset true s room live fits =
    let E = Holding [] s in
    let Q = WorkspaceFillAdded desc value (some p) dst_offset s in
    Ends-bind (λ d t. (t ≡ s) × (desc ≡ some d) × WorkspaceValid d) Q E _ _
      (validated-Ends desc (workspace_desc_validate desc Stage.create) s
        (workspace_desc_validate-Validates desc Stage.create))
      λ d t (same, d_is, valid).
        rw same (checked_fill-Ends desc d value p dst_offset _ s d_is valid room live fits)
