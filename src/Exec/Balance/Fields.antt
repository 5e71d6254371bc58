-- ===== src/Exec/Balance/Fields.antt =====
-- The patches of src/core/patch.c that touch no reference: the grid, the scalars, the value of an event.
use metal_graph.Base.{ℕ, ◌≡◌, refl, not, ◌&&◌, ◌==◌, Option, List, [], ◌∷◌, Bool-cases, inl, inr}
use metal_graph.Outcome.{Outcome, done, failed, fault, ◌>>◌, require}
use metal_graph.Heap.{Heap, buffer_counted}
use metal_graph.Node.{Dims, ScalarBinding}
use metal_graph.Flags.{has_flag, dispatch_grid, dispatch_scalar, event_value}
use metal_graph.Graph.{is_given}
use metal_graph.Exec.{
  refused, ExecDispatch, ExecNode, is_patchable, dispatch, copy, fill, event_wait, event_signal,
  barrier, mpsgraph, workspace, workspace_fill,
}
use metal_graph.Exec.Patch.{patch_event}
use metal_graph.Exec.PatchDispatch.{
  changed, require_flag, patch_grid, rescale, rescaled, patch_scalar, grid_or, grid_valid,
  grid_within, bytes_or_none,
}
use metal_graph.Exec.Balance.{Patches, require-Patches, plain-Swapped}

pub grid-Patches :
    (id : ℕ) (g : Option Dims) (d : ExecDispatch) (h : Heap)
    → Patches (dispatch d) h (patch_grid id g (dispatch d) h)
unfolding patch_grid require_flag is_patchable
grid-Patches id g d h =
    let new = dispatch (record d { grid_size = grid_or g d.grid_size }) in
    let last =
      require (grid_within (grid_or g d.grid_size) d.max_grid_size)
        (refused id "dispatch grid exceeds declared maximum")
      >> changed new in
    require-Patches (dispatch d) h (has_flag d.patch_flags dispatch_grid)
      (refused id "field is not declared patchable")
      (require (grid_valid g) (refused id "dispatch grid size is invalid") >> last)
      λ _.
        require-Patches (dispatch d) h (grid_valid g) (refused id "dispatch grid size is invalid")
          last
          λ _.
            require-Patches (dispatch d) h (grid_within (grid_or g d.grid_size) d.max_grid_size)
              (refused id "dispatch grid exceeds declared maximum") (changed new)
              λ _. plain-Swapped (dispatch d) new h refl (λ i. refl)

rescaled-Patches :
    (d : ExecDispatch) (h : Heap) (o : Outcome (List ScalarBinding))
    → ¬ (o ≡ fault)
    → Patches (dispatch d) h (rescaled d o h)
unfolding is_patchable
rescaled-Patches d h (done ss) ok = plain-Swapped (dispatch d) _ h refl (λ i. refl)
rescaled-Patches d h (failed e) ok = refl
rescaled-Patches d h fault ok = ok refl

rescale_ends :
    (id index : ℕ) (bytes : List ℕ) (byte_count : ℕ) (ss : List ScalarBinding)
    → ¬ (rescale id index bytes byte_count ss ≡ fault)
unfolding rescale
rescale_ends id index bytes byte_count [] = λ e. cc
rescale_ends id index bytes byte_count (s ∷ ss) = elim (Bool-cases (s.index == index)) [
  | inl here ↦ rw here (elim (Bool-cases (s.byte_count == byte_count)) [
    | inl same ↦ rw same (λ e. cc)
    | inr other ↦ rw other (λ e. cc)
  ])
  | inr there ↦
      rw there
        (go (rescale id index bytes byte_count ss) (rescale_ends id index bytes byte_count ss))
]
  where
    go :
        (o : Outcome (List ScalarBinding))
        → ¬ (o ≡ fault)
        → ¬ ((elim o [ done ts ↦ done (s ∷ ts) | failed e ↦ failed e | fault ↦ fault ]) ≡ fault)
    go (done ts) ok e = cc
    go (failed f) ok e = cc
    go fault ok e = ok refl

pub scalar-Patches :
    (id index : ℕ) (value : Option (List ℕ)) (byte_count : ℕ) (d : ExecDispatch) (h : Heap)
    → Patches (dispatch d) h (patch_scalar id index value byte_count (dispatch d) h)
unfolding patch_scalar require_flag
scalar-Patches id index value byte_count d h =
    let scalars = rescale id index (bytes_or_none value) byte_count d.scalars in
    let given = is_given value && not (byte_count == 0) in
    require-Patches (dispatch d) h (has_flag d.patch_flags dispatch_scalar)
      (refused id "field is not declared patchable")
      (require given (refused id "dispatch scalar patch is invalid") >> rescaled d scalars)
      λ _.
        require-Patches (dispatch d) h given (refused id "dispatch scalar patch is invalid")
          (rescaled d scalars)
          λ _.
            rescaled-Patches d h scalars
              (rescale_ends id index (bytes_or_none value) byte_count d.scalars)

pub event-Patches :
    (id value : ℕ) (n : ExecNode) (h : Heap) → Patches n h (patch_event id value n h)
unfolding patch_event require_flag is_patchable
event-Patches id value (event_wait e) h =
    let new = event_wait (record e { value = value }) in
    require-Patches (event_wait e) h (has_flag e.patch_flags event_value)
      (refused id "field is not declared patchable") (changed new)
      λ _. plain-Swapped (event_wait e) new h refl (λ i. refl)
event-Patches id value (event_signal e) h =
    let new = event_signal (record e { value = value }) in
    require-Patches (event_signal e) h (has_flag e.patch_flags event_value)
      (refused id "field is not declared patchable") (changed new)
      λ _. plain-Swapped (event_signal e) new h refl (λ i. refl)
event-Patches id value (dispatch d) h = refl
event-Patches id value (copy d) h = refl
event-Patches id value (fill d) h = refl
event-Patches id value (barrier d) h = refl
event-Patches id value (mpsgraph d) h = refl
event-Patches id value (workspace d) h = refl
event-Patches id value (workspace_fill d) h = refl
