-- ===== src/Range/Laws.antt =====
-- What the tests of `Range` decide.
use metal_graph.Base.{
  ℕ, ◌+◌, ◌-◌, ◌*◌, ◌/◌, ◌%◌, ◌≤◌, ◌<◌, ◌≡◌, refl, ◌↔◌, ◌⊎◌, inl, inr, true, false, ltb, ◌==◌,
  Option, none, some, List, [], ◌∷◌, arith, word64, All, ◌≢◌, sym, ◌∙◌, ap,
}
use mathlib.Core.Option.{some-injective}
use native.Mathlib.Nat.{div-lt_iff_lt-mul, mod-eq_of_lt, mul_assoc}
use native.Mathlib.Decide.{dec_lt, ℕ_discrete}
use metal_graph.Node.{items, ResourceDesc}
use metal_graph.Range.{
  range_valid, scale_elements, shape_elements, shape_byte_count, resource_range_valid,
  resource_offset_aligned, alignment_or_one,
}

-- A range is accepted exactly if it is not empty and ends within the buffer.
pub range_valid_iff :
    (length offset n : ℕ) → (range_valid length offset n ≡ true) ↔ ((0 < n) × (offset + n ≤ length))
unfolding range_valid
range_valid_iff length offset n = ground arith

-- The product of the dimensions, with nothing wrapped.
abbrev pub product : List ℕ → ℕ
product [] = 1
product (n ∷ ns) = n * product ns

-- The test `limit / n < k` before a multiplication.
over_iff : (k n limit : ℕ) → 0 < n → (ltb (limit / n) k ≡ true) ↔ (limit < k * n)
over_iff k n limit pos = ground (arith, div-lt_iff_lt-mul {x = limit} {y = k} pos)

product_pos : (ns : List ℕ) → All (λ n. 0 < n) ns → 0 < product ns
product_pos [] h = omega arith
product_pos (n ∷ ns) h = let p = product_pos ns h.1 in grind (arith, p, h.0)

record ShapeFits (k : ℕ) (ns : List ℕ) (m : ℕ) : Type 0 where
  positive : All (λ n. 0 < n) ns
  small : k * product ns < word64
  result : m ≡ k * product ns

shape_elements_step :
    (k n : ℕ) (ns : List ℕ)
    → 0 < n
    → k * n < word64
    → shape_elements k (n ∷ ns) ≡ shape_elements (k * n) ns
unfolding shape_elements
shape_elements_step k n ns pos fits =
    let over = over_iff k n (word64 - 1) pos in rw (mod-eq_of_lt fits) (ground (arith, over))

shape_elements_stop :
    (k n : ℕ) (ns : List ℕ)
    → (n ≡ 0) ⊎ (0 < n) × (word64 ≤ k * n)
    → shape_elements k (n ∷ ns) ≡ none
unfolding shape_elements
shape_elements_stop k n ns (inl z) = ground arith
shape_elements_stop k n ns (inr (pos, over)) = ground (arith, over_iff k n (word64 - 1) pos)

-- A dimension either lets the loop go on or ends it.
step_cases : (k n : ℕ) → (0 < n) × (k * n < word64) ⊎ ((n ≡ 0) ⊎ (0 < n) × (word64 ≤ k * n))
step_cases k n = elim (dec_lt 0 n) [
  | yes p ↦ elim (dec_lt (k * n) word64) [ yes q ↦ inl (p, q) | no q ↦ inr (inr (p, omega arith)) ]
  | no p ↦ inr (inl (omega arith))
]

not-ShapeFits :
    (k n : ℕ) (ns : List ℕ) (m : ℕ)
    → (n ≡ 0) ⊎ (0 < n) × (word64 ≤ k * n)
    → ¬ ShapeFits k (n ∷ ns) m
not-ShapeFits k n ns m (inl z) f = absurd (let p = f.positive.0 in omega arith)
not-ShapeFits k n ns m (inr (pos, over)) f =
    let p = product_pos ns f.positive.1 in
    let s = f.small in
    let e = mul_assoc k n (product ns) in
    let grows : k * n ≤ k * n * product ns = grind arith in absurd (omega arith)

ShapeFits-step :
    (k n : ℕ) (ns : List ℕ) (m : ℕ) → 0 < n → ShapeFits (k * n) ns m ↔ ShapeFits k (n ∷ ns) m
ShapeFits-step k n ns m pos =
    let e = mul_assoc k n (product ns) in
    (
      λ f. record {
        positive = (pos, f.positive);
        small = let s = f.small in omega arith;
        result = let r = f.result in omega arith;
      },
      λ f. record {
        positive = f.positive.1;
        small = let s = f.small in omega arith;
        result = let r = f.result in omega arith;
      },
    )

shape_elements_iff :
    (k : ℕ) (ns : List ℕ) (m : ℕ) → k < word64 → (shape_elements k ns ≡ some m) ↔ ShapeFits k ns m
unfolding shape_elements
shape_elements_iff k [] m h = (
  λ e. record { positive = tt; small = omega arith; result = ground arith },
  λ f. let r = f.result in ground arith,
)
shape_elements_iff k (n ∷ ns) m h = elim (step_cases k n) [
  | inl (pos, fits) ↦
      let rest = shape_elements_iff (k * n) ns m fits in
      let step = shape_elements_step k n ns pos fits in
      let shapes = ShapeFits-step k n ns m pos in
      (λ e. shapes.0 (rest.0 (sym step ∙ e)), λ f. step ∙ rest.1 (shapes.1 f))
  | inr stop ↦
      let ends = shape_elements_stop k n ns stop in
      (
        λ e. absurd (let bad : none ≡ some m = sym ends ∙ e in cc),
        λ f. absurd (not-ShapeFits k n ns m stop f),
      )
]

scale_elements-some :
    (size k : ℕ) → 0 < size → k * size < word64 → scale_elements size (some k) ≡ some (k * size)
unfolding scale_elements
scale_elements-some size k pos fits =
    rw (mod-eq_of_lt fits) (ground (arith, over_iff k size (word64 - 1) pos))

scale_elements_inv :
    (size bytes : ℕ) (o : Option ℕ)
    → 0 < size
    → scale_elements size o ≡ some bytes
    → (k : ℕ) × (o ≡ some k) × (k * size < word64) × (bytes ≡ k * size)
unfolding scale_elements
scale_elements_inv size bytes none pos e = cc
scale_elements_inv size bytes (some k) pos e = elim (dec_lt (k * size) word64) [
  | yes fits ↦ (
    k,
    refl,
    fits,
    let same = sym e ∙ scale_elements-some size k pos fits in some-injective _ _ same,
  )
  | no over ↦ ground (arith, over_iff k size (word64 - 1) pos)
]

-- The byte count of a shape, as a specification.
pub record ShapeBytes (ns : List ℕ) (size bytes : ℕ) : Type 0 where
  pub has_rank : ns ≢ []
  pub has_size : 0 < size
  pub positive : All (λ n. 0 < n) ns
  pub fits : product ns * size < word64
  pub exact : bytes ≡ product ns * size

product-le_mul : (p size : ℕ) → 0 < size → p ≤ p * size
product-le_mul p size pos = grind arith

ShapeBytes-of :
    (n : ℕ) (ns : List ℕ) (size bytes : ℕ)
    → 0 < size
    → scale_elements size (shape_elements 1 (n ∷ ns)) ≡ some bytes
    → ShapeBytes (n ∷ ns) size bytes
ShapeBytes-of n ns size bytes pos e =
    let (k, loop, fits, exact) = scale_elements_inv size bytes (shape_elements 1 (n ∷ ns)) pos e in
    let shape = (shape_elements_iff 1 (n ∷ ns) k (omega arith)).0 loop in
    let r : k ≡ product (n ∷ ns) = let r' = shape.result in omega arith in
    record {
      has_rank = λ bad. cc;
      has_size = pos;
      positive = shape.positive;
      fits = rw (← r) fits;
      exact = rw (← r) exact;
    }

ShapeBytes-to :
    (n : ℕ) (ns : List ℕ) (size bytes : ℕ)
    → ShapeBytes (n ∷ ns) size bytes
    → scale_elements size (shape_elements 1 (n ∷ ns)) ≡ some bytes
ShapeBytes-to n ns size bytes f =
    let p = product (n ∷ ns) in
    let bounded : p ≤ p * size = product-le_mul p size f.has_size in
    let small : p < word64 = let b = f.fits in omega arith in
    let loop =
      (shape_elements_iff 1 (n ∷ ns) p (omega arith)).1
        (record { positive = f.positive; small = omega arith; result = omega arith }) in
    rw loop (scale_elements-some size p f.has_size f.fits ∙ ap some (sym f.exact))

-- The byte count of a shape is the product of its dimensions and the element size. It is refused
-- exactly if the shape is empty, a factor is zero, or the product does not fit a word.
pub shape_byte_count_iff :
    (ns : List ℕ) (size bytes : ℕ)
    → (shape_byte_count (items ns) size ≡ some bytes) ↔ ShapeBytes ns size bytes
unfolding shape_byte_count
shape_byte_count_iff [] size bytes = (λ e. cc, λ f. absurd (f.has_rank refl))
shape_byte_count_iff (n ∷ ns) size bytes = elim (ℕ_discrete size 0) [
  | yes z ↦ (λ e. ground arith, λ f. absurd (let pos = f.has_size in omega arith))
  | no nz ↦
      let open_test : (size == 0) ≡ false = ground arith in
      rw open_test (ShapeBytes-of n ns size bytes (omega arith), ShapeBytes-to n ns size bytes)
]

-- A resource range is accepted exactly if it lies within the buffer, whether its length is known or
-- not (0); nothing wraps.
pub resource_range_valid_iff :
    (r : ResourceDesc) (length offset : ℕ)
    → length < word64
    → offset < word64
    → (resource_range_valid (some r) length offset ≡ true)
      ↔ (offset + r.byte_offset + r.byte_count ≤ length)
unfolding resource_range_valid
resource_range_valid_iff r length offset bound word = ground arith

-- An offset is accepted as aligned exactly if the start of the range fits a word and is a multiple of
-- the alignment, where 0 stands for 1.
pub resource_offset_aligned_iff :
    (r : ResourceDesc) (offset : ℕ)
    → offset < word64
    → (resource_offset_aligned (some r) offset ≡ true) ↔ (
        (offset + r.byte_offset < word64)
        × ((offset + r.byte_offset) % alignment_or_one r.alignment ≡ 0))
unfolding resource_offset_aligned
resource_offset_aligned_iff r offset bound = elim (dec_lt (offset + r.byte_offset) word64) [
  | yes fits ↦ rw (mod-eq_of_lt fits, resource_offset_aligned) (ground arith)
  | no over ↦ ground arith
]
