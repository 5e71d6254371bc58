-- ===== src/Graph/Dispatch/Reads.antt =====
-- The tests of mgGraphAddDispatchNode of src/core/graph.c read the state and leave it as it is.
use metal_graph.Base.{
  ℕ, ◌≡◌, refl, sym, Bool, true, false, not, ◌==◌, leb, Option, none, some, List, [], ◌∷◌, All,
  All-append_left, All-append_right, Bool-cases, inl, inr, subst,
}
use mathlib.Core.Option.{some-injective}
use metal_graph.Outcome.{Outcome, done, failed, fault, Failure, M, ◌>>◌, require}
use metal_graph.Heap.{Heap, buffer_counted}
use metal_graph.Heap.Counting.{live_of_refs}
use metal_graph.Node.{
  BufferBinding, ScalarBinding, ResourceDesc, DispatchDesc, buffer_refs, binding_refs, array_items,
}
use metal_graph.Range.{find_buffer_binding, resource_offset_aligned, resource_range_valid}
use metal_graph.Graph.{State, check, with_length, is_given, and_also, invalid}
use metal_graph.Graph.Holding.{Ends, Ends-bind}
use metal_graph.Graph.Checks.{IsLive}
use metal_graph.Exec.PatchDispatch.{grid_within}
use metal_graph.Graph.Dispatch.{
  binding_valid, check_bindings, has_index, scalar_valid, check_scalars, resource_fits,
  resource_valid, check_resource, check_resources, has_resource, check_parts, scalars_of,
  resources_of, is_missing, max_grid_of,
}

-- The step leaves the state as it is, and if it succeeds `P` holds.
abbrev pub Reads : State → Type 0 → Outcome (Unit {0}) × State → Type 0
Reads t P = Ends (λ _ u. (u ≡ t) × P) (λ u. u ≡ t)

pub Reads-then :
    (t : State) (P Q : Type 0) (m k : M State (Unit {0}))
    → Reads t P (m t)
    → (P → Reads t Q (k t))
    → Reads t Q ((m >> k) t)
Reads-then t P Q m k h f =
    Ends-bind (λ _ u. (u ≡ t) × P) (λ _ u. (u ≡ t) × Q) (λ u. u ≡ t) (m t) (λ _. k) h
      λ _ u (same, p). subst (λ v. Reads t Q (k v)) (sym same) (f p)

pub Reads-require : (t : State) (b : Bool) (e : Failure) → Reads t (b ≡ true) (require b e t)
Reads-require t true e = (refl, refl)
Reads-require t false e = refl

pub Reads-check :
    (t : State) (test : Heap → Outcome Bool) (b : Bool) (e : Failure)
    → test t.heap ≡ done b
    → Reads t (b ≡ true) (check test e t)
Reads-check t test true e h = rw (h, check) (refl, refl)
Reads-check t test false e h = rw (h, check) refl

-- A length that is asked for is there.
with_length_lem :
    (h : Heap) (p : Option ℕ) (f : ℕ → Bool)
    → IsLive h (buffer_refs p)
    → is_given p ≡ true
    → (b : Bool) × (with_length h p (λ n. done (f n)) ≡ done b)
with_length_lem h none f live nonnull = cc
with_length_lem h (some q) f live nonnull =
    let (a, e, _) = live_of_refs (h.buffers q) live.0 in (f a.length, rw (e, with_length) refl)

-- The pointer of the binding is not NULL.
abbrev pub IsBound : BufferBinding → Type 0
IsBound b = is_given b.buffer ≡ true

binding_valid_lem :
    (b : BufferBinding) (h : Heap)
    → IsLive h (buffer_refs b.buffer)
    → (v : Bool) × (binding_valid b h ≡ done v) × (v ≡ true → IsBound b)
unfolding binding_valid
binding_valid_lem b h live = elim (Bool-cases (is_given b.buffer)) [
  | inl nonnull ↦
      let (v, e) = with_length_lem h b.buffer (λ n. leb b.offset n) live nonnull in
      (v, rw (nonnull, and_also) e, λ _. nonnull)
  | inr missing ↦ (false, rw (missing, and_also) refl, λ e. cc)
]

check_bindings-Reads :
    (bs : List BufferBinding) (t : State)
    → IsLive t.heap (binding_refs bs)
    → Reads t (All IsBound bs) (check_bindings bs t)
unfolding check_bindings
check_bindings-Reads [] t live = (refl, tt)
check_bindings-Reads (b ∷ bs) t live =
    let (v, e, bound) =
      binding_valid_lem b t.heap
        (All-append_left _ (buffer_refs b.buffer) (binding_refs bs) live) in
    let unique =
      require (not (has_index b.index bs)) (invalid "duplicate dispatch buffer binding") in
    let text = invalid "dispatch buffer binding is invalid" in
    Reads-then t (v ≡ true) (All IsBound (b ∷ bs)) (check (binding_valid b) text)
      (unique >> check_bindings bs) (Reads-check t (binding_valid b) v text e)
      λ ok.
        Reads-then t (not (has_index b.index bs) ≡ true) (All IsBound (b ∷ bs)) unique
          (check_bindings bs)
          (Reads-require t (not (has_index b.index bs))
            (invalid "duplicate dispatch buffer binding"))
          λ _. tail (bound ok) (check_bindings bs t) (
            check_bindings-Reads bs t
              (All-append_right _ (buffer_refs b.buffer) (binding_refs bs) live))
  where
    tail :
        IsBound b
        → (r : Outcome (Unit {0}) × State) → Reads t (All IsBound bs) r
        → Reads t (All IsBound (b ∷ bs)) r
    tail ok (done a, u) h = (h.0, (ok, h.1))
    tail ok (failed e, u) h = h
    tail ok (fault, u) h = h

check_scalars-Reads :
    (ss : List ScalarBinding) (t : State) → Reads t (Unit {0}) (check_scalars ss t)
unfolding check_scalars
check_scalars-Reads [] t = (refl, tt)
check_scalars-Reads (s ∷ ss) t =
    let e = invalid "dispatch scalar binding is invalid" in
    Reads-then t (scalar_valid s ≡ true) (Unit {0}) (require (scalar_valid s) e) (check_scalars ss)
      (Reads-require t (scalar_valid s) e) λ _. check_scalars-Reads ss t

found-IsBound :
    (index : ℕ) (bs : List BufferBinding) (h : Heap) (b : BufferBinding)
    → All IsBound bs
    → IsLive h (binding_refs bs)
    → find_buffer_binding index bs ≡ some b
    → IsBound b × IsLive h (buffer_refs b.buffer)
unfolding find_buffer_binding
found-IsBound index [] h b bound live = λ e. cc
found-IsBound index (x ∷ bs) h b bound live = elim (Bool-cases (x.index == index)) [
  | inl here ↦ rw here (λ e.
      let x_is : x ≡ b = some-injective _ _ e in
      rw (← x_is) (bound.0, All-append_left _ (buffer_refs x.buffer) (binding_refs bs) live))
  | inr other ↦ rw other (
      found-IsBound index bs h b bound.1
        (All-append_right _ (buffer_refs x.buffer) (binding_refs bs) live))
]

resource_fits_lem :
    (r : ResourceDesc) (h : Heap) (o : Option BufferBinding)
    → is_given o ≡ true
    → ((b : BufferBinding) → o ≡ some b → IsBound b × IsLive h (buffer_refs b.buffer))
    → (v : Bool) × (resource_fits r o h ≡ done v)
unfolding resource_fits
resource_fits_lem r h none nonnull ok = cc
resource_fits_lem r h (some b) nonnull ok =
    let (bound, live) = ok b refl in
    elim (Bool-cases (resource_offset_aligned (some r) b.offset)) [
      | inl aligned ↦
          let (v, e) =
            with_length_lem h b.buffer (λ n. resource_range_valid (some r) n b.offset) live bound in
          (v, rw (aligned, and_also) e)
      | inr bad ↦ (false, rw (bad, and_also) refl)
    ]

check_resource-Reads :
    (bs : List BufferBinding) (r : ResourceDesc) (t : State)
    → All IsBound bs
    → IsLive t.heap (binding_refs bs)
    → Reads t (Unit {0}) (check_resource bs r t)
unfolding check_resource
check_resource-Reads bs r t bound live =
    let o = find_buffer_binding r.index bs in
    let e1 = invalid "dispatch resource descriptor is invalid" in
    let e2 = invalid "dispatch resource descriptor references a missing binding" in
    let e3 = invalid "dispatch resource range is invalid" in
    let fits = check (resource_fits r o) e3 in
    Reads-then t (resource_valid r ≡ true) (Unit {0}) (require (resource_valid r) e1)
      (require (is_given o) e2 >> fits) (Reads-require t (resource_valid r) e1)
      λ _.
        Reads-then t (is_given o ≡ true) (Unit {0}) (require (is_given o) e2) fits
          (Reads-require t (is_given o) e2)
          λ nonnull.
            let (v, e) =
              resource_fits_lem r t.heap o nonnull
                (λ b found. found-IsBound r.index bs t.heap b bound live found) in
            forget (v ≡ true) (fits t) (Reads-check t (resource_fits r o) v e3 e)
  where
    forget : (P : Type 0) (q : Outcome (Unit {0}) × State) → Reads t P q → Reads t (Unit {0}) q
    forget P (done a, u) h = (h.0, tt)
    forget P (failed e, u) h = h
    forget P (fault, u) h = h

check_resources-Reads :
    (bs : List BufferBinding) (rs : List ResourceDesc) (t : State)
    → All IsBound bs
    → IsLive t.heap (binding_refs bs)
    → Reads t (Unit {0}) (check_resources bs rs t)
unfolding check_resources
check_resources-Reads bs [] t bound live = (refl, tt)
check_resources-Reads bs (r ∷ rs) t bound live =
    let b = not (has_resource r.index rs) in
    let e = invalid "duplicate dispatch resource descriptor" in
    Reads-then t (b ≡ true) (Unit {0}) (require b e) (check_resource bs r >> check_resources bs rs)
      (Reads-require t b e)
      λ _.
        Reads-then t (Unit {0}) (Unit {0}) (check_resource bs r) (check_resources bs rs)
          (check_resource-Reads bs r t bound live) λ _. check_resources-Reads bs rs t bound live

-- All tests on the parts of the descriptor.
pub check_parts-Reads :
    (d : DispatchDesc) (t : State)
    → IsLive t.heap (binding_refs (array_items d.buffers))
    → Reads t (grid_within d.grid_size (max_grid_of d) ≡ true) (check_parts d t)
unfolding check_parts
check_parts-Reads d t live =
    let bs = array_items d.buffers in
    let Q = grid_within d.grid_size (max_grid_of d) ≡ true in
    let b1 = not (is_missing (scalars_of d)) in
    let e1 = invalid "dispatch scalar bindings are required" in
    let b2 = not (is_missing (resources_of d)) in
    let e2 = invalid "dispatch resource descriptors are required" in
    let e3 = invalid "dispatch grid exceeds declared maximum" in
    let k4 = require (grid_within d.grid_size (max_grid_of d)) e3 in
    let k3 = check_resources bs (array_items (resources_of d)) >> k4 in
    let k2 = require b2 e2 >> k3 in
    let k1 = check_scalars (array_items (scalars_of d)) >> k2 in
    Reads-then t (All IsBound bs) Q (check_bindings bs) (require b1 e1 >> k1)
      (check_bindings-Reads bs t live)
      λ bound. Reads-then t (b1 ≡ true) Q (require b1 e1) k1 (Reads-require t b1 e1) λ _.
        Reads-then t (Unit {0}) Q (check_scalars (array_items (scalars_of d))) k2
          (check_scalars-Reads (array_items (scalars_of d)) t)
          λ _. Reads-then t (b2 ≡ true) Q (require b2 e2) k3 (Reads-require t b2 e2) λ _.
            Reads-then t (Unit {0}) Q (check_resources bs (array_items (resources_of d))) k4
              (check_resources-Reads bs (array_items (resources_of d)) t bound live)
              λ _. Reads-require t (grid_within d.grid_size (max_grid_of d)) e3
