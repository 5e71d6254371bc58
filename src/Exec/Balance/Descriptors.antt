-- ===== src/Exec/Balance/Descriptors.antt =====
-- mgGraphExecPatchCopyNode and mgGraphExecPatchFillNode of src/core/patch.c, on the node.
use metal_graph.Base.{
  ℕ, ◌+◌, ◌≤◌, ◌<◌, refl, sym, ◌∙◌, not, ◌||◌, ◌==◌, Option, none, some, [], arith, All_mono,
  All-append_left, All-append_right, subst,
}
use metal_graph.Outcome.{◌>>◌, require}
use metal_graph.Heap.{Heap, buffer_counted, buffer_retain, buffer_release}
use metal_graph.Heap.Counting.{word32}
use metal_graph.Heap.Refs.{Ref, ref_count, count, HeapKept-trans}
use metal_graph.Heap.RefLists.{count-append}
use metal_graph.Node.{CopyDesc, FillDesc, buffer_refs}
use metal_graph.Flags.{has_flag, copy_buffer, copy_range, fill_buffer, fill_range, fill_value}
use metal_graph.Graph.Checks.{IsLive}
use metal_graph.Graph.Build.{copy_desc_valid, fill_desc_valid}
use metal_graph.Graph.Build.Laws.{
  copy_desc_refs, fill_desc_refs, copy_desc_valid-Decides, fill_desc_valid-Decides,
}
use metal_graph.Graph.Lifetime.{empty_graph, same_pointer}
use metal_graph.Exec.{refused, ExecCopy, ExecFill, exec_node_refs, is_patchable, copy, fill}
use metal_graph.Exec.Patch.{
  copied, patch_copy, filled, patch_fill, copy_changes_buffer, copy_changes_range,
  fill_changes_range,
}
use metal_graph.Exec.PatchDispatch.{touch_heap, changed, require_flag}
use metal_graph.Exec.Balance.{
  Patches, require-Patches, check-Patches, touch-eq, retained, released, swap-Patches,
}

-- The four steps: both new buffers are retained before the old ones are released.
swap_copy-Patches :
    (d : CopyDesc) (c : ExecCopy) (h : Heap)
    → IsLive h (copy_desc_refs (some d))
    → ((r : Ref) → ref_count h r + count r (copy_desc_refs (some d)) < word32)
    → ((r : Ref) → count r (exec_node_refs (copy c)) ≤ ref_count h r)
    → Patches (copy c) h (
        (touch_heap (buffer_retain d.src)
            >> (touch_heap (buffer_retain d.dst)
                >> (touch_heap (buffer_release c.src)
                    >> (touch_heap (buffer_release c.dst) >> changed (copied d c)))))
          h)
unfolding is_patchable
swap_copy-Patches d c h live fits held =
    let both = λ (r : Ref). count-append r (buffer_refs d.src) (buffer_refs d.dst) in
    let olds = λ (r : Ref). count-append r (buffer_refs c.src) (buffer_refs c.dst) in
    let (k, e, g) =
      retained d.src h (All-append_left _ (buffer_refs d.src) (buffer_refs d.dst) live)
        (λ r. omega (arith, fits r, both r)) in
    let (l, e', g') =
      retained d.dst k
        (All_mono _ _ (λ r p. omega (arith, p, g.counts r)) (buffer_refs d.dst)
          (All-append_right _ (buffer_refs d.src) (buffer_refs d.dst) live))
        (λ r. omega (arith, fits r, both r, g.counts r)) in
    let (m, e'', s) =
      released c.src l (λ r. omega (arith, held r, olds r, g.counts r, g'.counts r)) in
    let (o, e''', s') =
      released c.dst m (λ r. omega (arith, held r, olds r, g.counts r, g'.counts r, s.counts r)) in
    let rest3 = touch_heap (buffer_release c.dst) >> changed (copied d c) in
    let rest2 = touch_heap (buffer_release c.src) >> rest3 in
    let rest1 = touch_heap (buffer_retain d.dst) >> rest2 in
    subst (Patches (copy c) h)
      (sym (
        touch-eq (buffer_retain d.src) h k rest1 e
        ∙ (touch-eq (buffer_retain d.dst) k l rest2 e'
            ∙ (touch-eq (buffer_release c.src) l m rest3 e''
                ∙ touch-eq (buffer_release c.dst) m o (changed (copied d c)) e'''))))
      (record {
        counts =
            λ r. omega (arith, both r, olds r, g.counts r, g'.counts r, s.counts r, s'.counts r);
        kept = HeapKept-trans g.kept (HeapKept-trans g'.kept (HeapKept-trans s.kept s'.kept));
        same_id = λ i. refl;
      })

pub copy-Patches :
    (id : ℕ) (desc : Option CopyDesc) (c : ExecCopy) (h : Heap)
    → IsLive h (copy_desc_refs desc)
    → ((r : Ref) → ref_count h r + count r (copy_desc_refs desc) < word32)
    → ((r : Ref) → count r (exec_node_refs (copy c)) ≤ ref_count h r)
    → Patches (copy c) h (patch_copy id desc (copy c) h)
unfolding patch_copy require_flag
copy-Patches id none c h live fits held = refl
copy-Patches id (some d) c h live fits held =
    let n = copy c in
    let swap =
      touch_heap (buffer_retain d.src)
      >> (touch_heap (buffer_retain d.dst)
          >> (touch_heap (buffer_release c.src)
              >> (touch_heap (buffer_release c.dst) >> changed (copied d c)))) in
    let flag1 = not (copy_changes_buffer d c) || has_flag c.patch_flags copy_buffer in
    let flag2 = not (copy_changes_range d c) || has_flag c.patch_flags copy_range in
    let e = refused id "field is not declared patchable" in
    check-Patches n h (copy_desc_valid d) (refused id "copy patch descriptor is invalid")
      (require flag1 e >> (require flag2 e >> swap))
      (copy_desc_valid-Decides d (record { heap = h; graph = empty_graph 0 }) live)
      (require-Patches n h flag1 e (require flag2 e >> swap)
        λ _. require-Patches n h flag2 e swap λ _. swap_copy-Patches d c h live fits held)

pub fill-Patches :
    (id : ℕ) (desc : Option FillDesc) (f : ExecFill) (h : Heap)
    → IsLive h (fill_desc_refs desc)
    → ((r : Ref) → ref_count h r + count r (fill_desc_refs desc) < word32)
    → ((r : Ref) → count r (exec_node_refs (fill f)) ≤ ref_count h r)
    → Patches (fill f) h (patch_fill id desc (fill f) h)
unfolding patch_fill require_flag is_patchable
fill-Patches id none f h live fits held = refl
fill-Patches id (some d) f h live fits held =
    let n = fill f in
    let swap =
      touch_heap (buffer_retain d.dst)
      >> (touch_heap (buffer_release f.dst) >> changed (filled d f)) in
    let flag1 = not (not (same_pointer d.dst f.dst)) || has_flag f.patch_flags fill_buffer in
    let flag2 = not (fill_changes_range d f) || has_flag f.patch_flags fill_range in
    let flag3 = not (not (d.value == f.value)) || has_flag f.patch_flags fill_value in
    let e = refused id "field is not declared patchable" in
    check-Patches n h (fill_desc_valid d) (refused id "fill patch descriptor is invalid")
      (require flag1 e >> (require flag2 e >> (require flag3 e >> swap)))
      (fill_desc_valid-Decides d (record { heap = h; graph = empty_graph 0 }) live)
      (require-Patches n h flag1 e (require flag2 e >> (require flag3 e >> swap)) λ _.
        require-Patches n h flag2 e (require flag3 e >> swap) λ _.
          require-Patches n h flag3 e swap λ _.
            swap-Patches d.dst f.dst n (filled d f) h [] live fits held (λ r. omega arith)
              (λ r. omega arith) (λ i. refl))
