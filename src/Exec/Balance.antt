-- ===== src/Exec/Balance.antt =====
-- What the patches of src/core/patch.c do to one node and to the reference counts: the promise, and the
-- rules for the steps that they share.
pub mod Fields
pub mod Descriptors
pub mod Bindings
use metal_graph.Base.{
  ℕ, ◌+◌, ◌≤◌, ◌<◌, ◌≡◌, refl, sym, ap, ◌∙◌, Bool, true, false, not, ◌&&◌, ◌||◌, ◌==◌, leb,
  if◌then◌else◌, Option, none, some, List, [], ◌∷◌, ◌++◌, arith, All, All_mono, All-append_left,
  All-append_right, Bool-cases, Option-cases, inl, inr, subst,
}
use mathlib.Core.List.{append-nil}
use mathlib.Core.Option.{some-injective}
use metal_graph.Outcome.{
  Outcome, done, failed, fault, Failure, M, fail, after, ◌>>=◌, ◌>>◌, require,
}
use metal_graph.Heap.{Heap, Buffer, buffer_counted, buffer_retain, buffer_release}
use metal_graph.Heap.Counting.{word32, live_of_refs}
use metal_graph.Heap.Refs.{
  Ref, ref_count, count, HeapKept, HeapKept-refl, HeapKept-trans, Grown, Shrunk, retain_ref,
  retain_ref-Grown, one_for_self,
}
use metal_graph.Heap.RefLists.{count-append, Grown-refl, release_all-Shrunk}
use metal_graph.Node.{
  Dims, CopyDesc, FillDesc, BufferBinding, ScalarBinding, buffer_refs, event_refs, binding_refs,
}
use metal_graph.Flags.{
  has_flag, dispatch_grid, dispatch_scalar, dispatch_buffer, event_value, copy_buffer, copy_range,
  fill_buffer, fill_range, fill_value,
}
use metal_graph.Range.{find_resource, resource_offset_aligned, resource_range_valid}
use metal_graph.Graph.{State, is_given}
use metal_graph.Graph.Holding.{Ends}
use metal_graph.Graph.Checks.{Decides, IsLive}
use metal_graph.Graph.Build.{copy_desc_valid, fill_desc_valid}
use metal_graph.Graph.Build.Laws.{
  CopyFits, FillFits, copy_desc_refs, fill_desc_refs, copy_desc_valid-Decides,
  fill_desc_valid-Decides,
}
use metal_graph.Graph.Lifetime.{empty_graph, has_range, same_pointer}
use metal_graph.Graph.Lifetime.Releases.{buffer_release-all}
use metal_graph.Exec.{
  refused, ExecDispatch, ExecCopy, ExecFill, ExecEvent, ExecNode, exec_node_refs, is_patchable,
  dispatch, copy, fill, event_wait, event_signal, barrier, mpsgraph, workspace, workspace_fill,
}
use metal_graph.Exec.Patch.{
  copied, patch_copy, filled, patch_fill, patch_event, copy_changes_buffer, copy_changes_range,
  fill_changes_range, Request, grid, buffer, scalar, copy_node, fill_node, event, patch_of,
}
use metal_graph.Exec.PatchDispatch.{
  touched, touch_heap, tested, check_heap, changed, require_flag, patch_grid, rescale, rescaled,
  patch_scalar, Rebound, keep_first, rebind, swap_buffer, patch_to, patch_given, patch_buffer,
  other_device, grid_or, grid_valid, grid_within, bytes_or_none,
}

-- The references that a request brings.
abbrev pub request_refs : Request → List Ref
request_refs (grid g) = []
request_refs (buffer index p offset) = buffer_refs p
request_refs (scalar index value byte_count) = []
request_refs (copy_node desc) = copy_desc_refs desc
request_refs (fill_node desc) = fill_desc_refs desc
request_refs (event value) = []

-- The node `m` took the place of `n`: the references of `n` were given back and those of `m` taken,
-- and whoever looks for the one by its id finds the other.
pub record Swapped (n : ExecNode) (h : Heap) (m : ExecNode) (k : Heap) : Type 0 where
  pub counts :
      (r : Ref)
      → ref_count k r + count r (exec_node_refs n) ≡ ref_count h r + count r (exec_node_refs m)
  pub kept : HeapKept h k
  pub same_id : (i : ℕ) → is_patchable i m ≡ is_patchable i n

-- What a patch of the node promises: it fails and has done nothing, or it has swapped the node.
abbrev pub Patches : ExecNode → Heap → Outcome ExecNode × Heap → Type 0
Patches n h = Ends (Swapped n h) (λ k. k ≡ h)

pub require-Patches :
    (n : ExecNode) (h : Heap) (b : Bool) (e : Failure) (rest : M Heap ExecNode)
    → (b ≡ true → Patches n h (rest h))
    → Patches n h ((require b e >> rest) h)
require-Patches n h true e rest f = f refl
require-Patches n h false e rest f = refl

pub check-Patches :
    {P : Type 0} (n : ExecNode) (h : Heap) (test : Heap → Outcome Bool) (e : Failure)
    (rest : M Heap ExecNode)
    → Decides (test h) P
    → Patches n h (rest h)
    → Patches n h ((check_heap test e >> rest) h)
check-Patches n h test e rest d f =
    subst (λ o. Patches n h (after (tested o e h) (λ _. rest))) (sym d.is_done)
      (require-Patches n h d.answer e rest (λ _. f))

pub touch-eq :
    (f : Heap → Option Heap) (h k : Heap) (rest : M Heap ExecNode)
    → f h ≡ some k
    → (touch_heap f >> rest) h ≡ rest k
touch-eq f h k rest e = ap (λ o. after (touched o h) (λ _. rest)) e

pub retained :
    (p : Option ℕ) (h : Heap)
    → IsLive h (buffer_refs p)
    → ((r : Ref) → ref_count h r + count r (buffer_refs p) < word32)
    → (k : Heap) × (buffer_retain p h ≡ some k) × Grown (buffer_refs p) h k
unfolding retain_ref buffer_retain metal_graph.Heap.Counting.retain
retained none h live fits = (h, refl, Grown-refl h)
retained (some p) h live fits =
    let b = metal_graph.Heap.Refs.buffer p in
    retain_ref-Grown b h live.0 (omega (arith, fits b, one_for_self b))

pub released :
    (p : Option ℕ) (h : Heap)
    → ((r : Ref) → count r (buffer_refs p) ≤ ref_count h r)
    → (k : Heap) × (buffer_release p h ≡ some k) × Shrunk (buffer_refs p) h k
released p h held =
    let (k, e, s) = release_all-Shrunk (buffer_refs p) h held in (k, buffer_release-all p h ∙ e, s)

-- One buffer is retained, then another one released.
pub swap-Patches :
    (p q : Option ℕ) (n m : ExecNode) (h : Heap) (others : List Ref)
    → IsLive h (buffer_refs p)
    → ((r : Ref) → ref_count h r + count r (buffer_refs p) < word32)
    → ((r : Ref) → count r (exec_node_refs n) ≤ ref_count h r)
    → ((r : Ref) → count r (exec_node_refs n) ≡ count r (buffer_refs q) + count r others)
    → ((r : Ref) → count r (exec_node_refs m) ≡ count r (buffer_refs p) + count r others)
    → ((i : ℕ) → is_patchable i m ≡ is_patchable i n)
    → Patches n h ((touch_heap (buffer_retain p) >> (touch_heap (buffer_release q) >> changed m)) h)
swap-Patches p q n m h others live fits held n_refs m_refs same =
    let (k, e, g) = retained p h live fits in
    let (l, e', s) = released q k (λ r. omega (arith, held r, g.counts r, n_refs r)) in
    subst (Patches n h)
      (sym (
        touch-eq (buffer_retain p) h k (touch_heap (buffer_release q) >> changed m) e
        ∙ touch-eq (buffer_release q) k l (changed m) e'))
      (record {
        counts = λ r. omega (arith, g.counts r, s.counts r, n_refs r, m_refs r);
        kept = HeapKept-trans g.kept s.kept;
        same_id = same;
      })

-- A change that touches no reference.
pub plain-Swapped :
    (n m : ExecNode) (h : Heap)
    → exec_node_refs m ≡ exec_node_refs n
    → ((i : ℕ) → is_patchable i m ≡ is_patchable i n)
    → Swapped n h m h
plain-Swapped n m h refs same = record {
  counts = λ r. ap (λ xs. ref_count h r + count r xs) (sym refs);
  kept = HeapKept-refl h;
  same_id = same;
}
