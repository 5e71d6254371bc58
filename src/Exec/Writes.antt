-- ===== src/Exec/Writes.antt =====
-- What a successful patch of src/core/patch.c writes, and which flags it needs.
pub mod Fields
pub mod Whole
pub mod Bindings
use metal_graph.Base.{
  ◌≢◌, word64, bit_and, ℕ, zero, suc, ◌+◌, ◌≤◌, ◌<◌, ◌≡◌, refl, sym, ap, ◌∙◌, Bool, true, false,
  not, ◌&&◌, ◌||◌, ◌==◌, ltb, if◌then◌else◌, Option, none, some, List, [], ◌∷◌, get_elem?, set,
  arith, Bool-cases, Option-cases, inl, inr, ◌⊎◌,
}
use metal_graph.Outcome.{
  Outcome, done, failed, fault, Failure, M, after, ◌>>=◌, ◌>>◌, require, node_id_invalid,
}
use metal_graph.Heap.{Heap, Buffer, buffer_retain, buffer_release}
use metal_graph.Node.{Dims, BufferBinding, ResourceDesc, CopyDesc, FillDesc, ScalarBinding}
use metal_graph.Flags.{
  has_flag, dispatch_grid, dispatch_buffer, dispatch_scalar, copy_buffer, copy_range, fill_buffer,
  fill_range, fill_value, event_value,
}
use metal_graph.Range.{dims_valid, find_resource, resource_offset_aligned, resource_range_valid}
use metal_graph.Graph.{is_given}
use metal_graph.Graph.Checks.{InBuffer}
use metal_graph.Range.Resources.{Among, FitsAt}
use metal_graph.Exec.Replaced.{BufferReplaced, ScalarReplaced}
use metal_graph.Graph.Build.{copy_desc_valid, fill_desc_valid}
use metal_graph.Graph.Lifetime.{same_pointer, has_range}
use metal_graph.Exec.{
  Exec, ExecNode, ExecState, ExecDispatch, ExecCopy, ExecFill, ExecEvent, refused, find_place,
  write_back, apply_at, at_place, with_node, when_ready, dispatch, copy, fill, event_wait,
  event_signal,
}
use metal_graph.Exec.Patch.{
  copy_changes_buffer, copy_changes_range, copied, patch_copy, fill_changes_range, filled,
  patch_fill, patch_event, Request, grid, buffer, scalar, copy_node, fill_node, event, patch_of,
  patch,
}
use metal_graph.Exec.PatchDispatch.{
  touched, touch_heap, tested, check_heap, changed, require_flag, grid_valid, grid_within, grid_or,
  patch_grid, rescale, rescaled, bytes_or_none, patch_scalar, Rebound, rebind, other_device,
  swap_buffer, patch_to, patch_given, patch_buffer,
}

-- What holds of the result, if there is one.
abbrev pub Gives : {S A : Type 0} → (A → S → Type 0) → Outcome A × S → Type 0
Gives P (done a, s) = P a s
Gives P (failed e, s) = Unit {0}
Gives P (fault, s) = Unit {0}

-- The flags allow a field to be patched; there, one bit of them stands for the field.
abbrev pub Allows : ℕ → ℕ → Type 0
Allows flags field = bit_and flags field ≢ 0

-- A buffer that is bound anew: it lives and holds the offset, and a resource of the index has a range
-- that is aligned at the offset and ends within the buffer.
pub record Rebinds (h : Heap) (resources : List ResourceDesc) (index : ℕ) (p : Option ℕ)
    (offset : ℕ) : Type 0 where
  pub address : ℕ
  pub target : Buffer
  pub pointer : p ≡ some address
  pub live : h.buffers address ≡ some target
  pub below : offset ≤ target.length
  pub resource : ResourceDesc
  pub among : Among resource resources
  pub index_is : resource.index ≡ index
  pub nonempty : resource.byte_count ≢ 0
  pub range : FitsAt resource offset target.length

-- The node `m` is `n` with what the request says, and the flags of `n` and the tests allow it.
abbrev pub Writes : Request → Heap → ExecNode → ExecNode → Type 0
Writes (grid g) h n m =
    (d : ExecDispatch) × (v : Dims) × (g ≡ some v)
    × (n ≡ dispatch d)
    × (m ≡ dispatch (record d { grid_size = v }))
    × Allows d.patch_flags dispatch_grid
    × (0 < v.x)
    × (0 < v.y)
    × (0 < v.z)
    × (v.x ≤ d.max_grid_size.x)
    × (v.y ≤ d.max_grid_size.y)
    × (v.z ≤ d.max_grid_size.z)
Writes (copy_node desc) h n m =
    (c : ExecCopy) × (d : CopyDesc) × (desc ≡ some d)
    × (n ≡ copy c)
    × (m
        ≡ copy (record {
          id = c.id;
          patch_flags = c.patch_flags;
          src = d.src;
          src_offset = d.src_offset;
          dst = d.dst;
          dst_offset = d.dst_offset;
          byte_count = d.byte_count;
        }))
    × InBuffer h d.src d.src_offset d.byte_count
    × InBuffer h d.dst d.dst_offset d.byte_count
    × (((d.src ≡ c.src) × (d.dst ≡ c.dst)) ⊎ Allows c.patch_flags copy_buffer)
    × (((d.src_offset ≡ c.src_offset)
          × (d.dst_offset ≡ c.dst_offset)
          × (d.byte_count ≡ c.byte_count))
        ⊎ Allows c.patch_flags copy_range)
Writes (fill_node desc) h n m =
    (f : ExecFill) × (d : FillDesc) × (desc ≡ some d)
    × (n ≡ fill f)
    × (m
        ≡ fill (record {
          id = f.id;
          patch_flags = f.patch_flags;
          dst = d.dst;
          dst_offset = d.dst_offset;
          byte_count = d.byte_count;
          value = d.value;
        }))
    × InBuffer h d.dst d.dst_offset d.byte_count
    × ((d.dst ≡ f.dst) ⊎ Allows f.patch_flags fill_buffer)
    × (((d.dst_offset ≡ f.dst_offset) × (d.byte_count ≡ f.byte_count))
        ⊎ Allows f.patch_flags fill_range)
    × ((d.value ≡ f.value) ⊎ Allows f.patch_flags fill_value)
Writes (event value) h n m =
    (e : ExecEvent) × Allows e.patch_flags event_value
    × (((n ≡ event_wait e) × (m ≡ event_wait (record e { value = value })))
        ⊎ ((n ≡ event_signal e) × (m ≡ event_signal (record e { value = value }))))
Writes (scalar index value byte_count) h n m =
    (d : ExecDispatch) × (bytes : List ℕ) × (ss : List ScalarBinding) × (value ≡ some bytes)
    × (n ≡ dispatch d)
    × (m ≡ dispatch (record d { scalars = ss }))
    × Allows d.patch_flags dispatch_scalar
    × (byte_count ≢ 0)
    × ScalarReplaced index bytes byte_count d.scalars ss
Writes (buffer index p offset) h n m =
    (d : ExecDispatch) × (bs : List BufferBinding) × (n ≡ dispatch d)
    × (m ≡ dispatch (record d { buffers = bs }))
    × Allows d.patch_flags dispatch_buffer
    × BufferReplaced index p offset d.buffers bs
    × Rebinds h d.resources index p offset

-- The offset of a request that binds a buffer is a `size_t`.
abbrev pub HasWords : Request → Type 0
HasWords (buffer index p offset) = offset < word64
HasWords _ = Unit {0}

pub allows : (flags field : ℕ) → has_flag flags field ≡ true → Allows flags field
unfolding has_flag
allows flags field e = λ z. ground arith

pub Gives-require :
    {A : Type 0} (P : A → Heap → Type 0) (b : Bool) (e : Failure) (rest : M Heap A) (h : Heap)
    → (b ≡ true → Gives P (rest h))
    → Gives P ((require b e >> rest) h)
Gives-require P true e rest h f = f refl
Gives-require P false e rest h f = tt

pub Gives-check :
    {A : Type 0} (P : A → Heap → Type 0) (test : Heap → Outcome Bool) (e : Failure)
    (rest : M Heap A) (h : Heap)
    → (test h ≡ done true → Gives P (rest h))
    → Gives P ((check_heap test e >> rest) h)
Gives-check P test e rest h f = go (test h) f
  where
    go :
        (o : Outcome Bool)
        → (o ≡ done true → Gives P (rest h))
        → Gives P (after (tested o e h) (λ _. rest))
    go (done true) k = k refl
    go (done false) k = tt
    go (failed x) k = tt
    go fault k = tt

pub Gives-touch :
    {A : Type 0} (P : A → Heap → Type 0) (f : Heap → Option Heap) (rest : M Heap A) (h : Heap)
    → ((k : Heap) → Gives P (rest k))
    → Gives P ((touch_heap f >> rest) h)
Gives-touch P f rest h k = go (f h)
  where
    go : (o : Option Heap) → Gives P (after (touched o h) (λ _. rest))
    go none = tt
    go (some u) = k u

-- A field that changes is allowed to.
pub kept_or_allowed :
    {P : Type 0} (changes : Bool) (flags field : ℕ)
    → (not changes || has_flag flags field) ≡ true
    → (changes ≡ false → P)
    → P ⊎ Allows flags field
kept_or_allowed true flags field e keeps = inr (allows flags field e)
kept_or_allowed false flags field e keeps = inl (keeps refl)

abbrev pub Wrote : Request → Heap → ExecNode → ExecNode → Heap → Type 0
Wrote request h n m k = Writes request h n m
