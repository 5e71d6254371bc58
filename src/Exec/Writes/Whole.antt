-- ===== src/Exec/Writes/Whole.antt =====
-- All patches of src/core/patch.c together: what a successful one writes.
use metal_graph.Base.{
  ℕ, ◌≡◌, refl, ◌==◌, ltb, Option, none, some, get_elem?, set, Bool-cases, inl, inr,
}
use metal_graph.Outcome.{Outcome, done, failed, fault, node_id_invalid}
use metal_graph.Heap.{Heap}
use metal_graph.Exec.{
  ExecNode, ExecState, find_place, write_back, apply_at, at_place, with_node, when_ready, dispatch,
  copy, fill,
}
use metal_graph.Exec.Patch.{
  patch_copy, patch_fill, Request, grid, buffer, scalar, copy_node, fill_node, event, patch_of,
  patch,
}
use metal_graph.Exec.PatchDispatch.{patch_grid, patch_scalar, patch_buffer}
use metal_graph.Exec.Laws.{IsPlace, find_place-IsPlace}
use metal_graph.Exec.Writes.{HasWords, Gives, Writes, Wrote}
use metal_graph.Exec.Writes.Fields.{grid-Gives, copy-Gives, fill-Gives, event-Gives}
use metal_graph.Exec.Writes.Bindings.{buffer-Gives, scalar-Gives}

patch_of-Gives :
    (device : Option ℕ) (id : ℕ) (request : Request) (n : ExecNode) (h : Heap)
    → HasWords request
    → Gives (Wrote request h n) (patch_of device id request n h)
unfolding patch_of patch_grid patch_scalar patch_buffer patch_copy patch_fill
patch_of-Gives device id (grid g) (dispatch d) h words = grid-Gives id g d h
patch_of-Gives device id (scalar index value byte_count) (dispatch d) h words =
    scalar-Gives id index value byte_count d h
patch_of-Gives device id (buffer index p offset) (dispatch d) h words =
    buffer-Gives device id index p offset d h words
patch_of-Gives device id (copy_node desc) (copy c) h words = copy-Gives id desc c h
patch_of-Gives device id (fill_node desc) (fill f) h words = fill-Gives id desc f h
patch_of-Gives device id (event value) n h words = event-Gives id value n h
patch_of-Gives device id (grid g) _ h words = tt
patch_of-Gives device id (scalar index value byte_count) _ h words = tt
patch_of-Gives device id (buffer index p offset) _ h words = tt
patch_of-Gives device id (copy_node none) _ h words = tt
patch_of-Gives device id (copy_node (some desc)) _ h words = tt
patch_of-Gives device id (fill_node none) _ h words = tt
patch_of-Gives device id (fill_node (some desc)) _ h words = tt

-- The node that was found holds what the request writes.
pub record PatchWrote (id : ℕ) (request : Request) (s t : ExecState) : Type 0 where
  pub place : ℕ
  pub is_place : IsPlace id s.exec.nodes place
  pub before : ExecNode
  pub after : ExecNode
  pub at : get_elem? s.exec.nodes place ≡ some before
  pub exec_is : t.exec ≡ record s.exec { nodes = set s.exec.nodes place after }
  pub writes : Writes request s.heap before after

at_place-Gives :
    (id : ℕ) (request : Request) (s : ExecState) (o : Option ℕ)
    → HasWords request
    → find_place id s.exec.nodes ≡ o
    → Gives
        (λ (_ : Unit {0}) t. PatchWrote id request s t)
        (at_place id o (patch_of s.exec.device_impl id request) s)
at_place-Gives id request s none words e = tt
at_place-Gives id request s (some i) words e = go (get_elem? s.exec.nodes i) refl
  where
    back :
        (n : ExecNode) (r : Outcome ExecNode × Heap)
        → get_elem? s.exec.nodes i ≡ some n
        → Gives (Wrote request s.heap n) r
        → Gives (λ (_ : Unit {0}) t. PatchWrote id request s t) (write_back i r s.exec)
    back n (done m, h) at w = record {
      place = i;
      before = n;
      after = m;
      is_place = find_place-IsPlace id s.exec.nodes i e;
      at = at;
      exec_is = refl;
      writes = w;
    }
    back n (failed x, h) at w = tt
    back n (fault, h) at w = tt

    go :
        (o : Option ExecNode)
        → get_elem? s.exec.nodes i ≡ o
        → Gives
            (λ (_ : Unit {0}) t. PatchWrote id request s t)
            (apply_at i o (patch_of s.exec.device_impl id request) s)
    go none at = tt
    go (some n) at =
        back n (patch_of s.exec.device_impl id request n s.heap) at
          (patch_of-Gives s.exec.device_impl id request n s.heap words)

-- If a patch succeeds, the first node with the id is of the kind that the request is for, and has
-- exactly the requested fields replaced, and the rest of the executable is as it was; of the
-- bindings or scalars of a dispatch, the first of the index. The flags of the node allow each field
-- that changes. A grid is positive and within the maximum; a scalar has the size that it had; the
-- ranges of a copy or fill are not empty and lie in live buffers; and for a buffer that is bound, at
-- an offset that fits a word, a resource of the index has a range that is aligned at the offset and
-- ends within the buffer.
pub patch-Gives :
    (id : ℕ) (request : Request) (s : ExecState)
    → HasWords request
    → Gives (λ (_ : Unit {0}) t. PatchWrote id request s t) (patch id request s)
unfolding patch when_ready with_node
patch-Gives id request s words = elim (Bool-cases (ltb 0 s.exec.in_flight_count)) [
  | inl busy ↦ rw busy tt
  | inr ready ↦ rw ready (elim (Bool-cases (id == node_id_invalid)) [
    | inl bad ↦ rw bad tt
    | inr ok ↦ rw ok (at_place-Gives id request s (find_place id s.exec.nodes) words refl)
  ])
]
