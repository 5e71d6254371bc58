-- ===== src/Range/Resources.antt =====
-- The resources of a dispatch that mg_find_resource of src/core/graph.c finds.
use metal_graph.Base.{
  ℕ, ◌+◌, ◌%◌, ◌≤◌, ◌<◌, ◌≡◌, ◌≢◌, refl, true, false, ◌==◌, Option, some, List, [], ◌∷◌, ◌⊎◌, inl,
  inr, arith, word64, Bool-cases,
}
use native.Mathlib.Nat.{mod-eq_of_lt}
use metal_graph.Node.{ResourceDesc}
use metal_graph.Range.{
  find_resource, resource_offset_aligned, resource_range_valid, range_valid, alignment_or_one,
}
use metal_graph.Graph.Lifetime.{has_range}

-- The resource is in the list.
abbrev pub Among : ResourceDesc → List ResourceDesc → Type 0
Among r [] = ⊥
Among r (x ∷ rs) = (r ≡ x) ⊎ Among r rs

-- A resource of the list has the index and a range.
pub record HasRange (index : ℕ) (resources : List ResourceDesc) : Type 0 where
  pub resource : ResourceDesc
  pub among : Among resource resources
  pub index_is : resource.index ≡ index
  pub nonempty : resource.byte_count ≢ 0

pub record Found (index : ℕ) (resources : List ResourceDesc) (o : Option ResourceDesc)
    : Type 0 where
  pub resource : ResourceDesc
  pub is_found : o ≡ some resource
  pub among : Among resource resources
  pub index_is : resource.index ≡ index
  pub nonempty : resource.byte_count ≢ 0

pub find_resource-Found :
    (index : ℕ) (resources : List ResourceDesc)
    → has_range (find_resource index resources) ≡ true
    → Found index resources (find_resource index resources)
unfolding find_resource
find_resource-Found index [] = λ e. cc
find_resource-Found index (r ∷ rs) = elim (Bool-cases (r.index == index)) [
  | inl same ↦ rw same (λ e. record {
    resource = r;
    is_found = refl;
    among = inl refl;
    index_is = ground arith;
    nonempty = λ z. ground arith;
  })
  | inr other ↦ rw other (λ e.
      let f = find_resource-Found index rs e in
      record {
        resource = f.resource;
        is_found = f.is_found;
        among = inr f.among;
        index_is = f.index_is;
        nonempty = f.nonempty;
      })
]

pub find_resource-HasRange :
    (index : ℕ) (resources : List ResourceDesc)
    → has_range (find_resource index resources) ≡ true
    → HasRange index resources
find_resource-HasRange index resources e =
    let f = find_resource-Found index resources e in
    record { resource = f.resource; among = f.among; index_is = f.index_is; nonempty = f.nonempty }

-- The range of the resource, from an offset, does not wrap, is aligned, and ends within the length.
pub record FitsAt (r : ResourceDesc) (offset length : ℕ) : Type 0 where
  pub aligned : (offset + r.byte_offset) % alignment_or_one r.alignment ≡ 0
  pub within : offset + r.byte_offset + r.byte_count ≤ length

pub resource-FitsAt :
    (r : ResourceDesc) (offset length : ℕ)
    → offset < word64
    → r.byte_count ≢ 0
    → resource_offset_aligned (some r) offset ≡ true
    → resource_range_valid (some r) length offset ≡ true
    → FitsAt r offset length
unfolding resource_offset_aligned resource_range_valid range_valid
resource-FitsAt r offset length word nonempty aligned valid =
    let fits : offset + r.byte_offset < word64 = ground arith in
    let start = mod-eq_of_lt fits in
    let some_bytes : (r.byte_count == 0) ≡ false = ground arith in
    record { aligned = ground arith; within = ground arith }
