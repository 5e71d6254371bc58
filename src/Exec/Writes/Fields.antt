-- ===== src/Exec/Writes/Fields.antt =====
-- What the patches of src/core/patch.c for grids, copies, fills and events write.
use metal_graph.Base.{
  ◌&&◌, leb, arith, ℕ, ◌≡◌, refl, ap, true, false, not, ◌||◌, ◌==◌, Option, none, some, inl, inr,
}
use metal_graph.Outcome.{done, ◌>>◌, require}
use metal_graph.Graph.Checks.{InBuffer, range_within-InBuffer, and_also-both}
use metal_graph.Heap.{Heap, buffer_retain, buffer_release}
use metal_graph.Node.{Dims, CopyDesc, FillDesc}
use metal_graph.Flags.{
  has_flag, dispatch_grid, copy_buffer, copy_range, fill_buffer, fill_range, fill_value,
  event_value,
}
use metal_graph.Graph.{and_also, range_within, is_given}
use metal_graph.Graph.Build.{copy_desc_size, fill_desc_size, copy_desc_valid, fill_desc_valid}
use metal_graph.Graph.Lifetime.{same_pointer}
use metal_graph.Exec.{
  ExecNode, ExecDispatch, ExecCopy, ExecFill, refused, dispatch, copy, fill, event_wait,
  event_signal,
}
use metal_graph.Exec.Patch.{
  copy_changes_buffer, copy_changes_range, copied, patch_copy, fill_changes_range, filled,
  patch_fill, patch_event, grid, copy_node, fill_node, event,
}
use metal_graph.Exec.PatchDispatch.{
  touch_heap, changed, require_flag, grid_valid, grid_within, patch_grid,
}
use metal_graph.Range.{dims_valid}
use metal_graph.Exec.Writes.{
  Gives, Writes, Wrote, Gives-require, Gives-check, Gives-touch, allows, kept_or_allowed,
}

grid_bounds :
    (h : Heap) (d : ExecDispatch) (v : Dims)
    → has_flag d.patch_flags dispatch_grid ≡ true
    → dims_valid v ≡ true
    → grid_within v d.max_grid_size ≡ true
    → Writes (grid (some v)) h (dispatch d) (dispatch (record d { grid_size = v }))
unfolding dims_valid grid_within
grid_bounds h d v flag valid ok = (
  d,
  v,
  refl,
  refl,
  refl,
  allows d.patch_flags dispatch_grid flag,
  ground arith,
  ground arith,
  ground arith,
  ground arith,
  ground arith,
  ground arith,
)

same_pointer_kept : (p q : Option ℕ) → not (same_pointer p q) ≡ false → p ≡ q
unfolding same_pointer
same_pointer_kept none none e = refl
same_pointer_kept none (some q) e = cc
same_pointer_kept (some p) none e = cc
same_pointer_kept (some p) (some q) e = ap some (ground arith)

copy_buffers_kept :
    (d : CopyDesc) (c : ExecCopy)
    → copy_changes_buffer d c ≡ false
    → (d.src ≡ c.src) × (d.dst ≡ c.dst)
unfolding copy_changes_buffer
copy_buffers_kept d c e =
    (same_pointer_kept d.src c.src (ground arith), same_pointer_kept d.dst c.dst (ground arith))

copy_range_kept :
    (d : CopyDesc) (c : ExecCopy)
    → copy_changes_range d c ≡ false
    → (d.src_offset ≡ c.src_offset) × (d.dst_offset ≡ c.dst_offset) × (d.byte_count ≡ c.byte_count)
unfolding copy_changes_range
copy_range_kept d c e = (ground arith, ground arith, ground arith)

fill_range_kept :
    (d : FillDesc) (f : ExecFill)
    → fill_changes_range d f ≡ false
    → (d.dst_offset ≡ f.dst_offset) × (d.byte_count ≡ f.byte_count)
unfolding fill_changes_range
fill_range_kept d f e = (ground arith, ground arith)

value_kept : (d : FillDesc) (f : ExecFill) → not (d.value == f.value) ≡ false → d.value ≡ f.value
value_kept d f e = ground arith

copy_ranges :
    (d : CopyDesc) (h : Heap)
    → copy_desc_valid d h ≡ done true
    → InBuffer h d.src d.src_offset d.byte_count × InBuffer h d.dst d.dst_offset d.byte_count
unfolding copy_desc_valid
copy_ranges d h e =
    let src_within = range_within h d.src d.src_offset d.byte_count in
    let dst_within = range_within h d.dst d.dst_offset d.byte_count in
    let given_both = leb copy_desc_size d.size && (is_given d.src && is_given d.dst) in
    let (args, ranges) = and_also-both (done given_both) (and_also src_within dst_within) e in
    let (src, dst) = and_also-both src_within dst_within ranges in
    (
      range_within-InBuffer h d.src d.src_offset d.byte_count src,
      range_within-InBuffer h d.dst d.dst_offset d.byte_count dst,
    )

fill_ranges :
    (d : FillDesc) (h : Heap)
    → fill_desc_valid d h ≡ done true
    → InBuffer h d.dst d.dst_offset d.byte_count
unfolding fill_desc_valid
fill_ranges d h e =
    let args = done (leb fill_desc_size d.size && is_given d.dst) in
    let within = range_within h d.dst d.dst_offset d.byte_count in
    range_within-InBuffer h d.dst d.dst_offset d.byte_count (and_also-both args within e).1

pub grid-Gives :
    (id : ℕ) (g : Option Dims) (d : ExecDispatch) (h : Heap)
    → Gives (Wrote (grid g) h (dispatch d)) (patch_grid id g (dispatch d) h)
unfolding patch_grid require_flag grid_valid
grid-Gives id none d h =
    let P = Wrote (grid none) h (dispatch d) in
    let e = refused id "dispatch grid size is invalid" in
    let last =
      require (grid_within d.grid_size d.max_grid_size)
        (refused id "dispatch grid exceeds declared maximum")
      >> changed (dispatch d) in
    Gives-require P (has_flag d.patch_flags dispatch_grid)
      (refused id "field is not declared patchable") (require false e >> last) h λ _. tt
grid-Gives id (some v) d h =
    let P = Wrote (grid (some v)) h (dispatch d) in
    let e1 = refused id "dispatch grid size is invalid" in
    let e2 = refused id "dispatch grid exceeds declared maximum" in
    let new = dispatch (record d { grid_size = v }) in
    let within = grid_within v d.max_grid_size in
    Gives-require P (has_flag d.patch_flags dispatch_grid)
      (refused id "field is not declared patchable")
      (require (dims_valid v) e1 >> (require within e2 >> changed new)) h
      λ flag.
        Gives-require P (dims_valid v) e1 (require within e2 >> changed new) h
          λ valid. Gives-require P within e2 (changed new) h λ ok. grid_bounds h d v flag valid ok

pub copy-Gives :
    (id : ℕ) (desc : Option CopyDesc) (c : ExecCopy) (h : Heap)
    → Gives (Wrote (copy_node desc) h (copy c)) (patch_copy id desc (copy c) h)
unfolding patch_copy require_flag
copy-Gives id none c h = tt
copy-Gives id (some d) c h =
    let P = Wrote (copy_node (some d)) h (copy c) in
    let e = refused id "field is not declared patchable" in
    let s4 = touch_heap (buffer_release c.dst) >> changed (copied d c) in
    let s3 = touch_heap (buffer_release c.src) >> s4 in
    let s2 = touch_heap (buffer_retain d.dst) >> s3 in
    let s1 = touch_heap (buffer_retain d.src) >> s2 in
    let f1 = not (copy_changes_buffer d c) || has_flag c.patch_flags copy_buffer in
    let f2 = not (copy_changes_range d c) || has_flag c.patch_flags copy_range in
    Gives-check P (copy_desc_valid d) (refused id "copy patch descriptor is invalid")
      (require f1 e >> (require f2 e >> s1)) h
      λ valid. Gives-require P f1 e (require f2 e >> s1) h λ flag1.
        Gives-require P f2 e s1 h λ flag2. Gives-touch P (buffer_retain d.src) s2 h λ k1.
          Gives-touch P (buffer_retain d.dst) s3 k1 λ k2.
            Gives-touch P (buffer_release c.src) s4 k2 λ k3.
              Gives-touch P (buffer_release c.dst) (changed (copied d c)) k3 λ k4. (
                c,
                d,
                refl,
                refl,
                refl,
                (copy_ranges d h valid).0,
                (copy_ranges d h valid).1,
                kept_or_allowed (copy_changes_buffer d c) c.patch_flags copy_buffer flag1
                    (copy_buffers_kept d c),
                kept_or_allowed (copy_changes_range d c) c.patch_flags copy_range flag2
                    (copy_range_kept d c),
              )

pub fill-Gives :
    (id : ℕ) (desc : Option FillDesc) (f : ExecFill) (h : Heap)
    → Gives (Wrote (fill_node desc) h (fill f)) (patch_fill id desc (fill f) h)
unfolding patch_fill require_flag
fill-Gives id none f h = tt
fill-Gives id (some d) f h =
    let P = Wrote (fill_node (some d)) h (fill f) in
    let e = refused id "field is not declared patchable" in
    let s2 = touch_heap (buffer_release f.dst) >> changed (filled d f) in
    let s1 = touch_heap (buffer_retain d.dst) >> s2 in
    let f1 = not (not (same_pointer d.dst f.dst)) || has_flag f.patch_flags fill_buffer in
    let f2 = not (fill_changes_range d f) || has_flag f.patch_flags fill_range in
    let f3 = not (not (d.value == f.value)) || has_flag f.patch_flags fill_value in
    Gives-check P (fill_desc_valid d) (refused id "fill patch descriptor is invalid")
      (require f1 e >> (require f2 e >> (require f3 e >> s1))) h
      λ valid. Gives-require P f1 e (require f2 e >> (require f3 e >> s1)) h λ flag1.
        Gives-require P f2 e (require f3 e >> s1) h λ flag2. Gives-require P f3 e s1 h λ flag3.
          Gives-touch P (buffer_retain d.dst) s2 h λ k1.
            Gives-touch P (buffer_release f.dst) (changed (filled d f)) k1 λ k2. (
              f,
              d,
              refl,
              refl,
              refl,
              fill_ranges d h valid,
              kept_or_allowed (not (same_pointer d.dst f.dst)) f.patch_flags fill_buffer flag1
                  (same_pointer_kept d.dst f.dst),
              kept_or_allowed (fill_changes_range d f) f.patch_flags fill_range flag2
                  (fill_range_kept d f),
              kept_or_allowed (not (d.value == f.value)) f.patch_flags fill_value flag3
                  (value_kept d f),
            )

pub event-Gives :
    (id value : ℕ) (n : ExecNode) (h : Heap)
    → Gives (Wrote (event value) h n) (patch_event id value n h)
unfolding patch_event require_flag
event-Gives id value (event_wait e) h =
    let new = event_wait (record e { value = value }) in
    Gives-require (Wrote (event value) h (event_wait e)) (has_flag e.patch_flags event_value)
      (refused id "field is not declared patchable") (changed new) h
      λ flag. (e, allows e.patch_flags event_value flag, inl (refl, refl))
event-Gives id value (event_signal e) h =
    let new = event_signal (record e { value = value }) in
    Gives-require (Wrote (event value) h (event_signal e)) (has_flag e.patch_flags event_value)
      (refused id "field is not declared patchable") (changed new) h
      λ flag. (e, allows e.patch_flags event_value flag, inr (refl, refl))
event-Gives id value _ h = tt
