-- ===== src/Exec/Writes/Bindings.antt =====
-- What the patches of src/core/patch.c for scalars and buffers write.
use metal_graph.Base.{
  ℕ, ◌≤◌, ◌<◌, ◌≡◌, refl, Bool, true, false, not, ◌&&◌, ◌==◌, leb, word64, Option, none, some, List,
  [], arith,
}
use metal_graph.Outcome.{Outcome, done, failed, fault, ◌>>◌, require}
use metal_graph.Heap.{Heap, Buffer, buffer_retain, buffer_release}
use metal_graph.Node.{ScalarBinding}
use metal_graph.Flags.{has_flag, dispatch_buffer, dispatch_scalar}
use metal_graph.Range.{find_resource, resource_offset_aligned, resource_range_valid}
use metal_graph.Graph.Lifetime.{has_range}
use metal_graph.Exec.{ExecDispatch, refused, dispatch}
use metal_graph.Exec.Patch.{buffer, scalar}
use metal_graph.Exec.PatchDispatch.{
  touch_heap, changed, require_flag, rescale, rescaled, patch_scalar, Rebound, rebind, other_device,
  swap_buffer, patch_to, patch_given, patch_buffer,
}
use metal_graph.Range.Resources.{find_resource-Found, resource-FitsAt}
use metal_graph.Node.{ResourceDesc}
use metal_graph.Exec.Replaced.{rebind-Replaced, rescale-Replaced}
use metal_graph.Exec.Writes.{Rebinds, allows, Gives, Wrote, Gives-require, Gives-touch}

pub scalar-Gives :
    (id index : ℕ) (value : Option (List ℕ)) (byte_count : ℕ) (d : ExecDispatch) (h : Heap)
    → Gives
        (Wrote (scalar index value byte_count) h (dispatch d))
        (patch_scalar id index value byte_count (dispatch d) h)
unfolding patch_scalar require_flag
scalar-Gives id index none byte_count d h =
    let P = Wrote (scalar index none byte_count) h (dispatch d) in
    Gives-require P (has_flag d.patch_flags dispatch_scalar)
      (refused id "field is not declared patchable")
      (require false (refused id "dispatch scalar patch is invalid")
        >> rescaled d (rescale id index [] byte_count d.scalars))
      h λ _. tt
scalar-Gives id index (some bytes) byte_count d h =
    let P = Wrote (scalar index (some bytes) byte_count) h (dispatch d) in
    let e = refused id "dispatch scalar patch is invalid" in
    let last = rescaled d (rescale id index bytes byte_count d.scalars) in
    let given = not (byte_count == 0) in
    Gives-require P (has_flag d.patch_flags dispatch_scalar)
      (refused id "field is not declared patchable") (require given e >> last) h
      λ flag.
        Gives-require P given e last h
          λ some_bytes. go flag some_bytes (rescale id index bytes byte_count d.scalars) refl
  where
    go :
        has_flag d.patch_flags dispatch_scalar ≡ true
        → not (byte_count == 0) ≡ true
        → (o : Outcome (List ScalarBinding)) → rescale id index bytes byte_count d.scalars ≡ o
        → Gives (Wrote (scalar index (some bytes) byte_count) h (dispatch d)) (rescaled d o h)
    go flag some_bytes (done ss) e = (
      d,
      bytes,
      ss,
      refl,
      refl,
      refl,
      allows d.patch_flags dispatch_scalar flag,
      (λ z. ground arith),
      rescale-Replaced id index bytes byte_count d.scalars ss e,
    )
    go flag some_bytes (failed x) e = tt
    go flag some_bytes fault e = tt

both_true : (a b : Bool) → (a && b) ≡ true → (a ≡ true) × (b ≡ true)
both_true a b e = (ground arith, ground arith)

-- What the tests on a new buffer say.
rebinds :
    (h : Heap) (resources : List ResourceDesc) (index a offset : ℕ) (b : Buffer)
    → offset < word64
    → h.buffers a ≡ some b
    → offset ≤ b.length
    → has_range (find_resource index resources) ≡ true
    → (resource_offset_aligned (find_resource index resources) offset
        && resource_range_valid (find_resource index resources) b.length offset)
      ≡ true
    → Rebinds h resources index (some a) offset
rebinds h resources index a offset b word at below has ok =
    let f = find_resource-Found index resources has in
    let (aligned, ranged) = both_true _ _ (rw f.is_found at ok) in
    record {
      address = a;
      target = b;
      pointer = refl;
      live = at;
      below = below;
      resource = f.resource;
      among = f.among;
      index_is = f.index_is;
      nonempty = f.nonempty;
      range = resource-FitsAt f.resource offset b.length word f.nonempty aligned ranged;
    }

pub buffer-Gives :
    (device : Option ℕ) (id index : ℕ) (p : Option ℕ) (offset : ℕ) (d : ExecDispatch) (h : Heap)
    → offset < word64
    → Gives
        (Wrote (buffer index p offset) h (dispatch d))
        (patch_buffer device id index p offset (dispatch d) h)
unfolding patch_buffer require_flag patch_given patch_to swap_buffer
buffer-Gives device id index none offset d h word =
    Gives-require (Wrote (buffer index none offset) h (dispatch d))
      (has_flag d.patch_flags dispatch_buffer) (refused id "field is not declared patchable")
      (patch_given device id d index none offset) h λ _. tt
buffer-Gives device id index (some p) offset d h word =
    Gives-require (Wrote (buffer index (some p) offset) h (dispatch d))
      (has_flag d.patch_flags dispatch_buffer) (refused id "field is not declared patchable")
      (patch_given device id d index (some p) offset) h λ flag. found flag (h.buffers p) refl
  where
    swapped :
        has_flag d.patch_flags dispatch_buffer ≡ true
        → (b : Buffer) → h.buffers p ≡ some b
        → offset ≤ b.length
        → (o : Option Rebound) → rebind index (some p) offset d.buffers ≡ o
        → Gives
            (Wrote (buffer index (some p) offset) h (dispatch d))
            (swap_buffer id d index (some p) b.length offset o h)
    swapped flag b at below none e = tt
    swapped flag b at below (some r) e =
        let P = Wrote (buffer index (some p) offset) h (dispatch d) in
        let m = dispatch (record d { buffers = r.bindings }) in
        let resource = find_resource index d.resources in
        let aligned = resource_offset_aligned resource offset in
        let ranged = resource_range_valid resource b.length offset in
        let s2 = touch_heap (buffer_release r.old) >> changed m in
        let s1 = touch_heap (buffer_retain (some p)) >> s2 in
        let e2 = refused id "dispatch buffer patch range is incompatible" in
        Gives-require P (has_range resource)
          (refused id "dispatch buffer patch requires a declared resource range")
          (require (aligned && ranged) e2 >> s1) h
          λ has. Gives-require P (aligned && ranged) e2 s1 h λ ok.
            Gives-touch P (buffer_retain (some p)) s2 h λ k1.
              Gives-touch P (buffer_release r.old) (changed m) k1 λ k2. (
                d,
                r.bindings,
                refl,
                refl,
                allows d.patch_flags dispatch_buffer flag,
                rebind-Replaced index (some p) offset d.buffers r e,
                rebinds h d.resources index p offset b word at below has ok,
              )

    found :
        has_flag d.patch_flags dispatch_buffer ≡ true
        → (o : Option Buffer) → h.buffers p ≡ o
        → Gives
            (Wrote (buffer index (some p) offset) h (dispatch d))
            (patch_to device id d index p offset o h)
    found flag none at = tt
    found flag (some b) at =
        let P = Wrote (buffer index (some p) offset) h (dispatch d) in
        let other = not (other_device device b.device_impl) in
        let e = refused id "dispatch buffer belongs to a different device" in
        let o = rebind index (some p) offset d.buffers in
        let last = swap_buffer id d index (some p) b.length offset o in
        Gives-require P (leb offset b.length) (refused id "dispatch buffer patch is invalid")
          (require other e >> last) h
          λ below. Gives-require P other e last h λ _. swapped flag b at (ground arith) o refl
