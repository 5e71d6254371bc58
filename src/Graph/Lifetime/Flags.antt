-- ===== src/Graph/Lifetime/Flags.antt =====
-- mgGraphSetNodePatchFlags of src/core/graph.c changes the flags of one node, and only to allowed ones.
use metal_graph.Base.{
  ℕ, zero, suc, ◌≡◌, ◌≢◌, refl, ap, true, false, ◌==◌, Option, none, some, List, ◌∷◌, ◌++◌,
  length-set, set, get_elem?, get_elem?_of_lt, Bool-cases, inl, inr, ==_iff, arith, ◌+◌, ◌⊎◌,
  bit_and, lnot64, All, [],
}
use metal_graph.Heap.Refs.{Ref}
use metal_graph.Node.{
  Node, payload_refs, BufferBinding, ResourceDesc, Payload, dispatch, copy, fill, event_wait,
  event_signal, barrier, mpsgraph, workspace, workspace_fill,
}
use metal_graph.Flags.{has_flag, only_flags}
use metal_graph.Range.Resources.{HasRange, find_resource-HasRange}
use metal_graph.Graph.{State, NodeRef, nodes_refs}
use metal_graph.Graph.Edges.{belongs, node_at}
use metal_graph.Graph.Edges.Connect.{IsNode}
use metal_graph.Graph.Holding.{Ends}
use metal_graph.Graph.Invariant.{Numbered, Invariant}
use metal_graph.Graph.Lifetime.{
  patch_flags_allowed, allowed_flags, all_bindings_have_range, ranges_missing, with_flags,
  flag_node, set_node_patch_flags,
}

-- The flags that the kind of a node allows: the grid, buffers and scalars of a dispatch, the buffers and
-- range of a copy, the buffer, range and value of a fill, and the value of an event.
abbrev pub flag_mask : Payload → ℕ
flag_mask (dispatch d) = 1 + 2 + 4
flag_mask (copy c) = 8 + 16
flag_mask (fill f) = 32 + 64 + 128
flag_mask (event_wait e) = 256
flag_mask (event_signal e) = 256
flag_mask _ = 0

-- Each binding has a resource of its index, whose range is not empty.
abbrev pub HaveRanges : List BufferBinding → List ResourceDesc → Type 0
HaveRanges bs resources = All (λ (b : BufferBinding). HasRange b.index resources) bs

-- What flags that allow the buffers of a dispatch to be patched ask of it.
abbrev pub RangesGiven : Payload → ℕ → Type 0
RangesGiven (dispatch d) flags = (bit_and flags 2 ≡ 0) ⊎ HaveRanges d.buffers d.resources
RangesGiven _ flags = Unit {0}

-- The node at the place has the flags, which its kind allows; nothing else of the state has changed.
pub record FlagsSet (node : Option NodeRef) (flags : ℕ) (s t : State) : Type 0 where
  pub target : NodeRef
  pub before : Node
  pub node_is : node ≡ some target
  pub found : get_elem? s.graph.nodes target.index ≡ some before
  pub allowed : bit_and flags (lnot64 (flag_mask before.payload)) ≡ 0
  pub ranges : RangesGiven before.payload flags
  pub flagged : get_elem? t.graph.nodes target.index ≡ some (record before { patch_flags = flags })
  pub others : (j : ℕ) → j ≢ target.index → get_elem? t.graph.nodes j ≡ get_elem? s.graph.nodes j
  pub heap : t.heap ≡ s.heap
  pub edges : t.graph.edges ≡ s.graph.edges
  pub arena : t.graph.arena ≡ s.graph.arena

within_mask :
    (p : Payload) (flags : ℕ)
    → patch_flags_allowed p flags ≡ true
    → bit_and flags (lnot64 (flag_mask p)) ≡ 0
unfolding patch_flags_allowed allowed_flags only_flags
within_mask (dispatch d) flags e = ground arith
within_mask (copy c) flags e = ground arith
within_mask (fill f) flags e = ground arith
within_mask (event_wait x) flags e = ground arith
within_mask (event_signal x) flags e = ground arith
within_mask barrier flags e = ground arith
within_mask (mpsgraph m) flags e = ground arith
within_mask (workspace w) flags e = ground arith
within_mask (workspace_fill w) flags e = ground arith

have_ranges :
    (bs : List BufferBinding) (resources : List ResourceDesc)
    → all_bindings_have_range bs resources ≡ true
    → HaveRanges bs resources
unfolding all_bindings_have_range
have_ranges [] resources e = tt
have_ranges (b ∷ bs) resources e = (
  find_resource-HasRange b.index resources (ground arith),
  have_ranges bs resources (ground arith),
)

ranges_given : (p : Payload) (flags : ℕ) → ranges_missing p flags ≡ false → RangesGiven p flags
unfolding ranges_missing has_flag
ranges_given (dispatch d) flags e =
    elim (Bool-cases (all_bindings_have_range d.buffers d.resources)) [
      | inl all ↦ inr (have_ranges d.buffers d.resources all)
      | inr missing ↦ inl (ground arith)
    ]
ranges_given (copy c) flags e = tt
ranges_given (fill f) flags e = tt
ranges_given (event_wait x) flags e = tt
ranges_given (event_signal x) flags e = tt
ranges_given barrier flags e = tt
ranges_given (mpsgraph m) flags e = tt
ranges_given (workspace w) flags e = tt
ranges_given (workspace_fill w) flags e = tt

set_at :
    (ns : List Node) (i : ℕ) (n m : Node)
    → get_elem? ns i ≡ some n
    → get_elem? (set ns i m) i ≡ some m
set_at [] i n m e = cc
set_at (x ∷ ns) zero n m e = refl
set_at (x ∷ ns) (suc i) n m e = set_at ns i n m e

set_other :
    (ns : List Node) (i j : ℕ) (m : Node) → j ≢ i → get_elem? (set ns i m) j ≡ get_elem? ns j
set_other [] i j m ne = refl
set_other (x ∷ ns) zero zero m ne = absurd (ne refl)
set_other (x ∷ ns) zero (suc j) m ne = refl
set_other (x ∷ ns) (suc i) zero m ne = refl
set_other (x ∷ ns) (suc i) (suc j) m ne = set_other ns i j m (λ e. ne (ap suc e))

Numbered-flags :
    (address k : ℕ) (ns : List Node) (i flags : ℕ) (n : Node)
    → get_elem? ns i ≡ some n
    → Numbered address k ns
    → Numbered address k (set ns i (with_flags n flags))
Numbered-flags address k [] i flags n e h = tt
Numbered-flags address k (x ∷ ns) zero flags n e (a, b, c, rest) =
    let x_is : x ≡ n = cc in rw (← x_is) (a, b, c, rest)
Numbered-flags address k (x ∷ ns) (suc i) flags n e (a, b, c, rest) =
    (a, b, c, Numbered-flags address (suc k) ns i flags n e rest)

nodes_refs-flags :
    (ns : List Node) (i flags : ℕ) (n : Node)
    → get_elem? ns i ≡ some n
    → nodes_refs (set ns i (with_flags n flags)) ≡ nodes_refs ns
nodes_refs-flags [] i flags n e = refl
nodes_refs-flags (x ∷ ns) zero flags n e = let x_is : x ≡ n = cc in rw x_is refl
nodes_refs-flags (x ∷ ns) (suc i) flags n e =
    ap (λ rs. payload_refs x.payload ++ rs) (nodes_refs-flags ns i flags n e)

flags-Invariant :
    (outside : Ref → ℕ) (s : State) (i flags : ℕ) (n : Node)
    → get_elem? s.graph.nodes i ≡ some n
    → Invariant outside s
    → Invariant outside
        (record s { graph = record s.graph { nodes = set s.graph.nodes i (with_flags n flags) } })
flags-Invariant outside s i flags n e inv =
    let f = inv.formed in
    let same = length-set s.graph.nodes i (with_flags n flags) in
    record {
      formed = record {
        numbered = Numbered-flags s.graph.address 0 s.graph.nodes i flags n e f.numbered;
        range = rw same f.range;
        loop_free = f.loop_free;
        distinct = f.distinct;
        node_room = rw same f.node_room;
        edge_room = f.edge_room;
      };
      balanced = λ r. rw (nodes_refs-flags s.graph.nodes i flags n e) (inv.balanced r);
    }

-- mgGraphSetNodePatchFlags, of a node that exists: it never faults. It fails with the state as it was,
-- or the flags of the node, and nothing else, are the given ones, which its kind allows; if they allow
-- the buffers of a dispatch to be patched, each of its bindings has a resource with a range; and the
-- invariant holds again.
pub set_node_patch_flags-Ends :
    (outside : Ref → ℕ) (node : Option NodeRef) (flags : ℕ) (s : State)
    → Invariant outside s
    → IsNode s.graph node
    → Ends
        (λ (_ : Unit {0}) t. FlagsSet node flags s t × Invariant outside t)
        (λ t. t ≡ s)
        (set_node_patch_flags node flags s)
unfolding set_node_patch_flags belongs node_at flag_node
set_node_patch_flags-Ends outside none flags s inv is_node = refl
set_node_patch_flags-Ends outside (some r) flags s inv is_node =
    elim (Bool-cases (r.graph == s.graph.address)) [
      | inr other ↦ rw other refl
      | inl ours ↦
          let (n, at) =
            get_elem?_of_lt s.graph.nodes r.index
              (is_node ((==_iff r.graph s.graph.address).0 ours)) in
          rw (ours, at, flag_node)
            (elim (Bool-cases (patch_flags_allowed n.payload flags)) [
              | inr bad ↦ rw bad refl
              | inl ok ↦ rw ok (elim (Bool-cases (ranges_missing n.payload flags)) [
                | inl missing ↦ rw missing refl
                | inr ranges ↦ rw ranges (
                  record {
                    target = r;
                    before = n;
                    node_is = refl;
                    found = at;
                    allowed = within_mask n.payload flags ok;
                    ranges = ranges_given n.payload flags ranges;
                    flagged = set_at s.graph.nodes r.index n (with_flags n flags) at;
                    others = λ j ne. set_other s.graph.nodes r.index j (with_flags n flags) ne;
                    heap = refl;
                    edges = refl;
                    arena = refl;
                  },
                  flags-Invariant outside s r.index flags n at inv,
                )
              ])
            ])
    ]
