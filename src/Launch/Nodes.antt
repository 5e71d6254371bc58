-- ===== src/Launch/Nodes.antt =====
-- The encoding of each kind of node in mgGraphLaunch takes exactly the references of the node, and no
-- more places in the arrays than the first loop has counted.
use metal_graph.Base.{ℕ, ◌+◌, refl, true, false, Bool, List, [], ◌∷◌, length, arith, if◌then◌else◌}
use metal_graph.Outcome.{done, after}
use metal_graph.Heap.Refs.{Ref, count}
use metal_graph.Heap.RefLists.{count-append}
use metal_graph.Node.{buffer_refs, tensor_refs}
use metal_graph.Exec.{
  ExecNode, ExecMpsGraph, exec_node_refs, exec_refs, dispatch, copy, fill, event_wait, event_signal,
  barrier, mpsgraph, workspace, workspace_fill,
}
use metal_graph.Launch.{
  Session, backend_error, need, hold_bindings, hold_tensors, put_work, retain_command_buffer,
}
use metal_graph.Launch.Encode.{
  complete_error, flush, flush_work, encode_mpsgraph, encode_node, encode_nodes, buffer_need,
  event_need, buffers_needed, events_needed,
}
use metal_graph.Launch.Taking.{need-Ends, put_work-Took}
use metal_graph.Launch.Took.{Took, Room}
use metal_graph.Launch.Steps.{Takes, Takes-then, Takes-eq, Took-eq, retain_command_buffer-Takes}
use metal_graph.Launch.Lists.{
  IsGiven, BindingsGiven, TensorsGiven, hold_buffer-then, hold_event-then, hold_bindings-Takes,
  hold_tensors-Takes, Room-first, Room-rest, Room-eq,
}

-- No pointer of the node is NULL.
abbrev pub NodeGiven : ExecNode → Type 0
NodeGiven (dispatch d) = BindingsGiven d.buffers
NodeGiven (copy c) = IsGiven c.src × IsGiven c.dst
NodeGiven (fill f) = IsGiven f.dst
NodeGiven (event_wait e) = IsGiven e.event
NodeGiven (event_signal e) = IsGiven e.event
NodeGiven (barrier id) = Unit {0}
NodeGiven (mpsgraph m) = TensorsGiven m.feeds × TensorsGiven m.targets
NodeGiven (workspace w) = Unit {0}
NodeGiven (workspace_fill w) = IsGiven w.dst

module _ (taken : Ref → ℕ) (b e : ℕ) (s t : Session) (h : Took taken b e s t) where
  flush-Takes : (id : ℕ) → Takes taken b e s (flush id t)
  unfolding flush
  flush-Takes id =
      Takes-then taken taken b b e e s (retain_command_buffer t) _
        (retain_command_buffer-Takes taken b e s t h)
        λ u k.
          Takes-then taken taken b b e e s (need (complete_error id) u) _
            (need-Ends taken b e s u k (complete_error id))
            λ v l.
              Takes-then taken taken b b e e s _ _
                (need-Ends taken b e s v l
                  (backend_error id "failed to create Metal command buffer"))
                λ w m. put_work-Took taken b e s w m false

  flush_if : (id : ℕ) (work : Bool) → Takes taken b e s (if work then flush id t else (done tt, t))
  flush_if id true = flush-Takes id
  flush_if id false = h

  flush_work-Takes : (id : ℕ) → Takes taken b e s (flush_work id t)
  unfolding flush_work
  flush_work-Takes id = flush_if id t.has_work

encode_mpsgraph-Takes :
    (m : ExecMpsGraph) (taken : Ref → ℕ) (b e : ℕ) (s t : Session)
    → NodeGiven (mpsgraph m)
    → Room
        (λ r. count r (exec_node_refs (mpsgraph m)))
        (length m.feeds + length m.targets)
        0
        taken
        b
        e
        s
    → Took taken b e s t
    → Takes
        (λ r. taken r + count r (exec_node_refs (mpsgraph m)))
        (b + (length m.feeds + length m.targets))
        (e + 0)
        s
        (encode_mpsgraph m t)
unfolding encode_mpsgraph
encode_mpsgraph-Takes m taken b e s t given room h =
    let feeds = λ (r : Ref). count r (tensor_refs m.feeds) in
    let targets = λ (r : Ref). count r (tensor_refs m.targets) in
    let split = λ (r : Ref). count-append r (tensor_refs m.feeds) (tensor_refs m.targets) in
    let whole : Room (λ r. feeds r + targets r) (length m.feeds + length m.targets) (0 + 0) taken b
        e s =
      Room-eq _ _ _ _ _ _ taken b e s split refl (omega arith) room in
    let x1 = λ (r : Ref). taken r + feeds r in
    let x2 = λ (r : Ref). taken r + feeds r + targets r in
    let b1 = b + length m.feeds in
    let b2 = b + length m.feeds + length m.targets in
    Takes-eq x2 _ b2 _ (e + 0 + 0) _ s (encode_mpsgraph m t) (λ r. omega (arith, split r))
      (omega arith) (omega arith)
      (Takes-then taken x2 b b2 e (e + 0 + 0) s (flush_work m.id t) _
        (flush_work-Takes taken b e s t h m.id)
        λ t1 h1.
          Takes-then taken x2 b b2 e (e + 0 + 0) s _ _
            (need-Ends taken b e s t1 h1
              (backend_error m.id "failed to encode MPSGraph executable"))
            λ t2 h2.
              Takes-then x1 x2 b1 b2 (e + 0) (e + 0 + 0) s (hold_tensors m.feeds t2) _
                (hold_tensors-Takes m.feeds taken b e s t2 given.0
                  (Room-first feeds targets (length m.feeds) 0 (length m.targets) 0 taken b e s
                    whole)
                  h2)
                λ t3 h3.
                  Takes-then x2 x2 b2 b2 (e + 0 + 0) (e + 0 + 0) s (hold_tensors m.targets t3) _
                    (hold_tensors-Takes m.targets x1 b1 (e + 0) s t3 given.1
                      (Room-rest feeds targets (length m.feeds) 0 (length m.targets) 0 taken b e s
                        whole)
                      h3)
                    λ t4 h4. finish x2 b2 (e + 0 + 0) s t4 h4)
  where
    finish :
        (x : Ref → ℕ) (c f : ℕ) (s u : Session)
        → Took x c f s u
        → Takes x c f s (
            after (retain_command_buffer u) λ _ v.
              after
                (need (backend_error m.id "failed to create Metal command buffer") v)
                λ _. put_work false)
    finish x c f s u k =
        Takes-then x x c c f f s (retain_command_buffer u) _
          (retain_command_buffer-Takes x c f s u k)
          λ v l.
            Takes-then x x c c f f s _ _
              (need-Ends x c f s v l (backend_error m.id "failed to create Metal command buffer"))
              λ w n. put_work-Took x c f s w n false

-- One node: what it needs from Metal, and what it takes.
pub encode_node-Takes :
    (n : ExecNode) (taken : Ref → ℕ) (b e : ℕ) (s t : Session)
    → NodeGiven n
    → Room (λ r. count r (exec_node_refs n)) (buffer_need n) (event_need n) taken b e s
    → Took taken b e s t
    → Takes
        (λ r. taken r + count r (exec_node_refs n))
        (b + buffer_need n)
        (e + event_need n)
        s
        (encode_node n t)
unfolding encode_node buffer_need event_need
encode_node-Takes (dispatch d) taken b e s t given room h =
    Takes-then taken _ b _ e _ s _ _ (need-Ends taken b e s t h _) λ u k.
      Takes-then _ _ _ _ _ _ s (hold_bindings d.buffers u) _
        (hold_bindings-Takes d.buffers taken b e s u given room k)
        λ v l. put_work-Took _ _ _ s v l true
encode_node-Takes (copy c) taken b e s t given room h =
    let src = λ (r : Ref). count r (buffer_refs c.src) in
    let dst = λ (r : Ref). count r (buffer_refs c.dst) in
    let split = λ (r : Ref). count-append r (buffer_refs c.src) (buffer_refs c.dst) in
    let whole : Room (λ r. src r + dst r) (1 + 1) (0 + 0) taken b e s =
      Room-eq _ _ _ _ _ _ taken b e s split (omega arith) (omega arith) room in
    Takes-then taken _ b _ e _ s _ _ (need-Ends taken b e s t h _) λ u k.
      hold_buffer-then c.src _ _ _ taken b e s u _ given.0
        (Room-first src dst 1 0 1 0 taken b e s whole) k
        λ v l.
          hold_buffer-then c.dst _ _ _ (λ r. taken r + src r) (b + 1) (e + 0) s v _ given.1
            (Room-rest src dst 1 0 1 0 taken b e s whole) l
            λ w m.
              put_work-Took _ _ _ s w
                (Took-eq _ _ _ _ _ _ s w (λ r. omega (arith, split r)) (omega arith) (omega arith)
                  m)
                true
encode_node-Takes (fill f) taken b e s t given room h =
    Takes-then taken _ b _ e _ s _ _ (need-Ends taken b e s t h _) λ u k.
      hold_buffer-then f.dst _ _ _ taken b e s u _ given room k
        λ v l. put_work-Took _ _ _ s v l true
encode_node-Takes (event_wait x) taken b e s t given room h =
    hold_event-then x.event _ _ _ taken b e s t _ given room h λ v l. put_work-Took _ _ _ s v l true
encode_node-Takes (event_signal x) taken b e s t given room h =
    hold_event-then x.event _ _ _ taken b e s t _ given room h λ v l. put_work-Took _ _ _ s v l true
encode_node-Takes (barrier id) taken b e s t given room h =
    Took-eq taken _ b _ e _ s t (λ r. omega arith) (omega arith) (omega arith) h
encode_node-Takes (mpsgraph m) taken b e s t given room h =
    encode_mpsgraph-Takes m taken b e s t given room h
encode_node-Takes (workspace w) taken b e s t given room h =
    Took-eq taken _ b _ e _ s t (λ r. omega arith) (omega arith) (omega arith) h
encode_node-Takes (workspace_fill w) taken b e s t given room h =
    Takes-then taken _ b _ e _ s _ _ (need-Ends taken b e s t h _) λ u k.
      hold_buffer-then w.dst _ _ _ taken b e s u _ given room k
        λ v l. put_work-Took _ _ _ s v l true

-- All nodes have their pointers.
abbrev pub NodesGiven : List ExecNode → Type 0
NodesGiven [] = Unit {0}
NodesGiven (n ∷ ns) = NodeGiven n × NodesGiven ns

-- The loop.
pub encode_nodes-Takes :
    (ns : List ExecNode) (taken : Ref → ℕ) (b e : ℕ) (s t : Session)
    → NodesGiven ns
    → Room (λ r. count r (exec_refs ns)) (buffers_needed ns) (events_needed ns) taken b e s
    → Took taken b e s t
    → Takes
        (λ r. taken r + count r (exec_refs ns))
        (b + buffers_needed ns)
        (e + events_needed ns)
        s
        (encode_nodes ns t)
unfolding encode_nodes buffers_needed events_needed
encode_nodes-Takes [] taken b e s t given room h =
    Took-eq taken _ b _ e _ s t (λ r. omega arith) (omega arith) (omega arith) h
encode_nodes-Takes (n ∷ ns) taken b e s t given room h =
    let one = λ (r : Ref). count r (exec_node_refs n) in
    let rest = λ (r : Ref). count r (exec_refs ns) in
    let split = λ (r : Ref). count-append r (exec_node_refs n) (exec_refs ns) in
    let m = buffer_need n in
    let k = event_need n in
    let whole : Room (λ r. one r + rest r) (m + buffers_needed ns) (k + events_needed ns) taken b e
        s =
      Room-eq _ _ _ _ _ _ taken b e s split refl refl room in
    Takes-then (λ r. taken r + one r) _ (b + m) _ (e + k) _ s (encode_node n t) _
      (encode_node-Takes n taken b e s t given.0
        (Room-first one rest m k (buffers_needed ns) (events_needed ns) taken b e s whole) h)
      λ u l.
        Takes-eq _ _ _ _ _ _ s (encode_nodes ns u) (λ r. omega (arith, split r)) (omega arith)
          (omega arith)
          (encode_nodes-Takes ns (λ r. taken r + one r) (b + m) (e + k) s u given.1
            (Room-rest one rest m k (buffers_needed ns) (events_needed ns) taken b e s whole) l)
