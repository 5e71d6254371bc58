-- ===== src/Graph/Build/Laws.antt =====
-- What the constructors of src/core/graph.c for copy, fill, event, barrier and workspace nodes do, on
-- every branch.
use metal_graph.Base.{
  ℕ, ◌+◌, ◌≤◌, ◌≡◌, refl, sym, ◌∙◌, Bool, true, false, Option, none, some, List, [], ◌++◌, arith,
  ◌&&◌, leb, All-append_left, All-append_right,
}
use metal_graph.Outcome.{after, ◌>>◌}
use metal_graph.Heap.Refs.{Ref, count}
use metal_graph.Heap.RefLists.{count-append}
use metal_graph.Heap.{Heap, buffer_retain}
use metal_graph.Node.{CopyDesc, FillDesc, buffer_refs, payload_refs}
use metal_graph.Graph.{State, NodeRef, alloc_node, commit_node, touch, is_given}
use metal_graph.Graph.Holding.{
  Ends, Ends-bind, Ends-map, Holding, Holding-perm, Holding-refl, HasRoom, Made, alloc_node-Ends,
}
use metal_graph.Graph.Adding.{
  CountersFit, Added, buffer_retain-Ends, add_buffer-Ends, commit_node-Added,
}
use metal_graph.Graph.Checks.{
  Decides, Decides_map, done-Decides, and_also-Decides, check-Ends, IsLive, InBuffer,
  range_within-Decides,
}
use metal_graph.Graph.Build.{
  fill_desc_valid, add_fill_node, fill_of, fill_desc_size, copy_desc_valid, add_copy_node, copy_of,
  copy_desc_size,
}

-- What a copy needs of its buffers.
pub record CopyFits (s : State) (d : CopyDesc) : Type 0 where
  pub size : copy_desc_size ≤ d.size
  pub src : InBuffer s.heap d.src d.src_offset d.byte_count
  pub dst : InBuffer s.heap d.dst d.dst_offset d.byte_count

pub InBuffer-is_given :
    {h : Heap} {p : Option ℕ} {offset n : ℕ} → InBuffer h p offset n → is_given p ≡ true
InBuffer-is_given {p} i = rw i.pointer

pub copy_desc_valid-Decides :
    (d : CopyDesc) (s : State)
    → IsLive s.heap (payload_refs (copy_of d))
    → Decides (copy_desc_valid d s.heap) (CopyFits s d)
unfolding copy_desc_valid
copy_desc_valid-Decides d s live =
    let given_both = leb copy_desc_size d.size && (is_given d.src && is_given d.dst) in
    let src_live = All-append_left _ (buffer_refs d.src) (buffer_refs d.dst) live in
    let dst_live = All-append_right _ (buffer_refs d.src) (buffer_refs d.dst) live in
    Decides_map (λ (args, (src, dst)). record { size = ground arith; src = src; dst = dst })
      (λ f. (ground (arith, InBuffer-is_given f.src, InBuffer-is_given f.dst), (f.src, f.dst)))
      (and_also-Decides _ _ (done-Decides given_both) λ args.
        and_also-Decides _ _
          (range_within-Decides s.heap d.src d.src_offset d.byte_count src_live (ground arith))
          λ _. range_within-Decides s.heap d.dst d.dst_offset d.byte_count dst_live (ground arith))

-- The node of an accepted copy descriptor.
abbrev pub CopyAdded : Option CopyDesc → State → NodeRef → State → Type 0
CopyAdded desc s ref t = (d : CopyDesc) × (desc ≡ some d) × CopyFits s d × Added (copy_of d) s ref t

abbrev pub copy_desc_refs : Option CopyDesc → List Ref
copy_desc_refs none = []
copy_desc_refs (some d) = payload_refs (copy_of d)

-- The steps after the checks.
add_copy-Ends :
    (d : CopyDesc) (s : State)
    → HasRoom s.graph
    → IsLive s.heap (payload_refs (copy_of d))
    → CountersFit s (payload_refs (copy_of d))
    → Ends (Added (copy_of d) s) (Holding [] s) (
        after
          (alloc_node (copy_of d) s)
          λ n. touch (buffer_retain d.src) >> (touch (buffer_retain d.dst) >> commit_node n))
add_copy-Ends d s room live fits =
    let src = buffer_refs d.src in
    let dst = buffer_refs d.dst in
    let E = Holding [] s in
    Ends-bind (Made (copy_of d) s) (Added (copy_of d) s) E _ _ (alloc_node-Ends (copy_of d) s room)
      λ n t (h, n_is, more).
        Ends-bind (λ _ u. Holding (src ++ []) s u × (u.graph ≡ t.graph)) _ E
          (touch (buffer_retain d.src) t) _
          (buffer_retain-Ends [] d.src s t E h (All-append_left _ src dst live)
            (λ r. omega (arith, fits r, count-append r src dst, count-append r src [])))
          λ _ u (k, same).
            Ends-bind (λ _ v. Holding (dst ++ (src ++ [])) s v × (v.graph ≡ u.graph)) _ E
              (touch (buffer_retain d.dst) u) _
              (buffer_retain-Ends (src ++ []) d.dst s u E k (All-append_right _ src dst live)
                (λ r. omega (arith, fits r, count-append r src dst, both r)))
              λ _ v (l, same').
                commit_node-Added (copy_of d) s v E n n_is
                  (Holding-perm _ _ s v (λ r. both r ∙ sym (count-append r src dst)) l)
                  (rw (same', same) more)
  where
    both :
        (r : Ref)
        → count r (buffer_refs d.dst ++ (buffer_refs d.src ++ []))
          ≡ count r (buffer_refs d.src) + count r (buffer_refs d.dst)
    both r = omega (
      arith,
      count-append r (buffer_refs d.dst) (buffer_refs d.src ++ []),
      count-append r (buffer_refs d.src) [],
    )

-- mgGraphAddCopyNode never reads a dead object. It fails with the graph and all counts as they were,
-- or both ranges lie in their buffers, the node is the last of the graph, and the graph holds one more
-- reference to each of the buffers.
pub add_copy_node-Ends :
    (desc : Option CopyDesc) (out_node : Bool) (s : State)
    → HasRoom s.graph
    → IsLive s.heap (copy_desc_refs desc)
    → CountersFit s (copy_desc_refs desc)
    → Ends (CopyAdded desc s) (Holding [] s) (add_copy_node desc out_node s)
unfolding add_copy_node
add_copy_node-Ends none out_node s room live fits = Holding-refl s
add_copy_node-Ends (some d) false s room live fits = Holding-refl s
add_copy_node-Ends (some d) true s room live fits =
    Ends-bind (λ _ t. (t ≡ s) × CopyFits s d) (CopyAdded (some d) s) (Holding [] s) _ _
      (check-Ends (copy_desc_valid d) _ (CopyFits s d) s (Holding [] s)
        (copy_desc_valid-Decides d s live) (Holding-refl s))
      λ _ t (same, ok). rw same (
        Ends-map (Added (copy_of d) s) (CopyAdded (some d) s) (Holding [] s) _
          (λ ref u added. (d, refl, ok, added)) (add_copy-Ends d s room live fits))

-- What a fill needs of its buffer.
pub record FillFits (s : State) (d : FillDesc) : Type 0 where
  pub size : fill_desc_size ≤ d.size
  pub dst : InBuffer s.heap d.dst d.dst_offset d.byte_count

pub fill_desc_valid-Decides :
    (d : FillDesc) (s : State)
    → IsLive s.heap (buffer_refs d.dst)
    → Decides (fill_desc_valid d s.heap) (FillFits s d)
unfolding fill_desc_valid
fill_desc_valid-Decides d s live =
    Decides_map (λ (args, dst). record { size = ground arith; dst = dst })
      (λ f. (ground (arith, InBuffer-is_given f.dst), f.dst))
      (and_also-Decides _ _ (done-Decides (leb fill_desc_size d.size && is_given d.dst))
        λ args. range_within-Decides s.heap d.dst d.dst_offset d.byte_count live (ground arith))

-- The node of an accepted fill descriptor.
abbrev pub FillAdded : Option FillDesc → State → NodeRef → State → Type 0
FillAdded desc s ref t = (d : FillDesc) × (desc ≡ some d) × FillFits s d × Added (fill_of d) s ref t

abbrev pub fill_desc_refs : Option FillDesc → List Ref
fill_desc_refs none = []
fill_desc_refs (some d) = buffer_refs d.dst

-- mgGraphAddFillNode never reads a dead object. It fails with the graph and all counts as they were,
-- or the range lies in its buffer, the node is the last of the graph, and the graph holds one more
-- reference to the buffer.
pub add_fill_node-Ends :
    (desc : Option FillDesc) (out_node : Bool) (s : State)
    → HasRoom s.graph
    → IsLive s.heap (fill_desc_refs desc)
    → CountersFit s (fill_desc_refs desc)
    → Ends (FillAdded desc s) (Holding [] s) (add_fill_node desc out_node s)
unfolding add_fill_node
add_fill_node-Ends none out_node s room live fits = Holding-refl s
add_fill_node-Ends (some d) false s room live fits = Holding-refl s
add_fill_node-Ends (some d) true s room live fits =
    Ends-bind (λ _ t. (t ≡ s) × FillFits s d) (FillAdded (some d) s) (Holding [] s) _ _
      (check-Ends (fill_desc_valid d) _ (FillFits s d) s (Holding [] s)
        (fill_desc_valid-Decides d s live) (Holding-refl s))
      λ _ t (same, ok). rw same (
        Ends-map (Added (fill_of d) s) (FillAdded (some d) s) (Holding [] s) _
          (λ ref u added. (d, refl, ok, added))
          (add_buffer-Ends (fill_of d) d.dst s room refl live fits))
