-- ===== src/Exec/Balance/Bindings.antt =====
-- mgGraphExecPatchDispatchBuffer of src/core/patch.c, and all patches together, on the node.
use metal_graph.Base.{
  ℕ, ◌+◌, ◌≤◌, ◌<◌, ◌≡◌, refl, sym, not, ◌&&◌, ◌==◌, leb, Option, none, some, List, [], ◌∷◌, ◌++◌,
  arith, Bool-cases, inl, inr, subst,
}
use mathlib.Core.Option.{some-injective}
use metal_graph.Outcome.{◌>>◌, require}
use metal_graph.Heap.{Heap, Buffer, buffer_counted, buffer_retain, buffer_release}
use metal_graph.Heap.Counting.{word32, live_of_refs}
use metal_graph.Heap.Refs.{Ref, ref_count, count}
use metal_graph.Heap.RefLists.{count-append}
use metal_graph.Node.{BufferBinding, buffer_refs, binding_refs}
use metal_graph.Flags.{has_flag, dispatch_buffer}
use metal_graph.Range.{find_resource, resource_offset_aligned, resource_range_valid}
use metal_graph.Graph.Checks.{IsLive}
use metal_graph.Graph.Lifetime.{has_range}
use metal_graph.Exec.{
  refused, ExecDispatch, ExecNode, exec_node_refs, is_patchable, dispatch, copy, fill,
}
use metal_graph.Exec.Patch.{
  patch_copy, patch_fill, Request, grid, buffer, scalar, copy_node, fill_node, event, patch_of,
}
use metal_graph.Exec.PatchDispatch.{
  touch_heap, changed, require_flag, patch_grid, patch_scalar, Rebound, keep_first, rebind,
  swap_buffer, patch_to, patch_given, patch_buffer, other_device,
}
use metal_graph.Exec.Balance.{request_refs, Patches, require-Patches, swap-Patches}
use metal_graph.Exec.Balance.Fields.{grid-Patches, scalar-Patches, event-Patches}
use metal_graph.Exec.Balance.Descriptors.{copy-Patches, fill-Patches}

-- What the search for the binding leaves.
record IsRebound (p : Option ℕ) (bs : List BufferBinding) (r : Rebound) : Type 0 where
  others : List Ref
  before : (x : Ref) → count x (binding_refs bs) ≡ count x (buffer_refs r.old) + count x others
  after : (x : Ref) → count x (binding_refs r.bindings) ≡ count x (buffer_refs p) + count x others

keep_first-IsRebound :
    (p : Option ℕ) (b : BufferBinding) (bs : List BufferBinding) (o : Option Rebound) (r : Rebound)
    → ((q : Rebound) → o ≡ some q → IsRebound p bs q)
    → keep_first b o ≡ some r
    → IsRebound p (b ∷ bs) r
keep_first-IsRebound p b bs none r rest k = cc
keep_first-IsRebound p b bs (some q) r found k =
    let rest = found q refl in
    let r_is : record { old = q.old; bindings = b ∷ q.bindings } ≡ r = some-injective _ _ k in
    rw (← r_is) (record {
      others = buffer_refs b.buffer ++ rest.others;
      before = λ x. omega (
        arith,
        rest.before x,
        count-append x (buffer_refs b.buffer) (binding_refs bs),
        count-append x (buffer_refs b.buffer) rest.others,
      );
      after = λ x. omega (
        arith,
        rest.after x,
        count-append x (buffer_refs b.buffer) (binding_refs q.bindings),
        count-append x (buffer_refs b.buffer) rest.others,
      );
    })

rebind-IsRebound :
    (index : ℕ) (p : Option ℕ) (offset : ℕ) (bs : List BufferBinding) (r : Rebound)
    → rebind index p offset bs ≡ some r
    → IsRebound p bs r
unfolding rebind
rebind-IsRebound index p offset [] r = λ e. cc
rebind-IsRebound index p offset (b ∷ bs) r = elim (Bool-cases (b.index == index)) [
  | inl here ↦ rw here (λ e.
      let r_is : record { old = b.buffer; bindings = record b { buffer = p; offset = offset } ∷ bs }
          ≡ r =
        some-injective _ _ e in
      rw (← r_is) (record {
        others = binding_refs bs;
        before = λ x. count-append x (buffer_refs b.buffer) (binding_refs bs);
        after = λ x. count-append x (buffer_refs p) (binding_refs bs);
      }))
  | inr there ↦ rw there (
      keep_first-IsRebound p b bs (rebind index p offset bs) r (rebind-IsRebound index p offset bs))
]

-- The steps of the buffer patch for the binding that was found.
swap_buffer-Patches :
    (id : ℕ) (d : ExecDispatch) (index p length offset : ℕ) (o : Option Rebound) (h : Heap)
    → ((r : Rebound) → o ≡ some r → IsRebound (some p) d.buffers r)
    → IsLive h (buffer_refs (some p))
    → ((r : Ref) → ref_count h r + count r (buffer_refs (some p)) < word32)
    → ((r : Ref) → count r (exec_node_refs (dispatch d)) ≤ ref_count h r)
    → Patches (dispatch d) h (swap_buffer id d index (some p) length offset o h)
unfolding swap_buffer is_patchable
swap_buffer-Patches id d index p length offset none h found live fits held = refl
swap_buffer-Patches id d index p length offset (some r) h found live fits held =
    let n = dispatch d in
    let m = dispatch (record d { buffers = r.bindings }) in
    let swap =
      touch_heap (buffer_retain (some p)) >> (touch_heap (buffer_release r.old) >> changed m) in
    let resource = find_resource index d.resources in
    let test =
      resource_offset_aligned resource offset && resource_range_valid resource length offset in
    let e = refused id "dispatch buffer patch range is incompatible" in
    let is = found r refl in
    require-Patches n h (has_range resource)
      (refused id "dispatch buffer patch requires a declared resource range")
      (require test e >> swap)
      λ _. require-Patches n h test e swap λ _.
        swap-Patches (some p) r.old n m h is.others live fits held is.before is.after (λ i. refl)

patch_to-Patches :
    (device : Option ℕ) (id : ℕ) (d : ExecDispatch) (index p offset : ℕ) (b : Buffer) (h : Heap)
    → IsLive h (buffer_refs (some p))
    → ((r : Ref) → ref_count h r + count r (buffer_refs (some p)) < word32)
    → ((r : Ref) → count r (exec_node_refs (dispatch d)) ≤ ref_count h r)
    → Patches (dispatch d) h (patch_to device id d index p offset (some b) h)
unfolding patch_to
patch_to-Patches device id d index p offset b h live fits held =
    let n = dispatch d in
    let rest =
      swap_buffer id d index (some p) b.length offset (rebind index (some p) offset d.buffers) in
    let test = not (other_device device b.device_impl) in
    let e = refused id "dispatch buffer belongs to a different device" in
    require-Patches n h (leb offset b.length) (refused id "dispatch buffer patch is invalid")
      (require test e >> rest)
      λ _. require-Patches n h test e rest λ _.
        swap_buffer-Patches id d index p b.length offset (rebind index (some p) offset d.buffers) h
          (rebind-IsRebound index (some p) offset d.buffers) live fits held

patch_given-Patches :
    (device : Option ℕ) (id : ℕ) (d : ExecDispatch) (index : ℕ) (p : Option ℕ) (offset : ℕ)
    (h : Heap)
    → IsLive h (buffer_refs p)
    → ((r : Ref) → ref_count h r + count r (buffer_refs p) < word32)
    → ((r : Ref) → count r (exec_node_refs (dispatch d)) ≤ ref_count h r)
    → Patches (dispatch d) h (patch_given device id d index p offset h)
unfolding patch_given
patch_given-Patches device id d index none offset h live fits held = refl
patch_given-Patches device id d index (some p) offset h live fits held =
    let (b, at, _) = live_of_refs (h.buffers p) live.0 in
    subst (λ o. Patches (dispatch d) h (patch_to device id d index p offset o h)) (sym at)
      (patch_to-Patches device id d index p offset b h live fits held)

buffer-Patches :
    (device : Option ℕ) (id index : ℕ) (p : Option ℕ) (offset : ℕ) (d : ExecDispatch) (h : Heap)
    → IsLive h (buffer_refs p)
    → ((r : Ref) → ref_count h r + count r (buffer_refs p) < word32)
    → ((r : Ref) → count r (exec_node_refs (dispatch d)) ≤ ref_count h r)
    → Patches (dispatch d) h (patch_buffer device id index p offset (dispatch d) h)
unfolding patch_buffer require_flag
buffer-Patches device id index p offset d h live fits held =
    require-Patches (dispatch d) h (has_flag d.patch_flags dispatch_buffer)
      (refused id "field is not declared patchable") (patch_given device id d index p offset)
      λ _. patch_given-Patches device id d index p offset h live fits held

-- A node of another kind is refused.
pub patch_of-Patches :
    (device : Option ℕ) (id : ℕ) (request : Request) (n : ExecNode) (h : Heap)
    → IsLive h (request_refs request)
    → ((r : Ref) → ref_count h r + count r (request_refs request) < word32)
    → ((r : Ref) → count r (exec_node_refs n) ≤ ref_count h r)
    → Patches n h (patch_of device id request n h)
unfolding patch_of patch_grid patch_scalar patch_buffer patch_copy patch_fill
patch_of-Patches device id (grid g) (dispatch d) h live fits held = grid-Patches id g d h
patch_of-Patches device id (scalar index value byte_count) (dispatch d) h live fits held =
    scalar-Patches id index value byte_count d h
patch_of-Patches device id (buffer index p offset) (dispatch d) h live fits held =
    buffer-Patches device id index p offset d h live fits held
patch_of-Patches device id (copy_node desc) (copy c) h live fits held =
    copy-Patches id desc c h live fits held
patch_of-Patches device id (fill_node desc) (fill f) h live fits held =
    fill-Patches id desc f h live fits held
patch_of-Patches device id (event value) n h live fits held = event-Patches id value n h
patch_of-Patches device id (grid g) _ h live fits held = refl
patch_of-Patches device id (scalar index value byte_count) _ h live fits held = refl
patch_of-Patches device id (buffer index p offset) _ h live fits held = refl
patch_of-Patches device id (copy_node none) _ h live fits held = refl
patch_of-Patches device id (copy_node (some desc)) _ h live fits held = refl
patch_of-Patches device id (fill_node none) _ h live fits held = refl
patch_of-Patches device id (fill_node (some desc)) _ h live fits held = refl
