-- ===== src/Align/Laws.antt =====
-- What mg_alignment_valid and mg_align_up_size compute.
use metal_graph.Base.{
  ℕ, ◌+◌, ◌-◌, ◌*◌, ◌/◌, ◌%◌, ◌^◌, ◌≤◌, ◌<◌, ◌≡◌, ◌↔◌, ◌⊎◌, inl, inr, true, none, some, arith,
  bit_and, word64, lnot64, ap, Bool-cases, ltb,
}
use metal_graph.Base.Bits.{bit_and-pow_pred, pow_of_bit_and-pred, bit_and-clear, pow_pos}
use metal_graph.Align.{alignment_valid, align_up_size}
use native.Mathlib.Nat.{div-add-mod', mod-eq_of_lt, mul-mod_left, pow-le-pow_right}
use native.Mathlib.Decide.{dec_lt}

-- The accepted alignments are exactly the powers of two.
pub alignment_valid_iff : (a : ℕ) → (alignment_valid a ≡ true) ↔ ((k : ℕ) × (a ≡ 2 ^ k))
unfolding alignment_valid
alignment_valid_iff a = (
  λ h. pow_of_bit_and-pred a (ground arith) (ground arith),
  λ h. rw h.1 (ground (arith, pow_pos h.0, bit_and-pow_pred h.0)),
)

-- A power of two that fits a word has an exponent below the width.
exponent-lt : (k : ℕ) → 2 ^ k < word64 → k < 64
exponent-lt k h = elim (dec_lt k 64) [
  | yes p ↦ p
  | no p ↦
      absurd (omega (arith, pow-le-pow_right {n = 2} (omega arith) {i = 64} {j = k} (omega arith)))
]

-- The rounding for an alignment that is a power of two, where the sum does not leave the word.
clear_low :
    (v k : ℕ)
    → 2 ^ k < word64
    → v + (2 ^ k - 1) < word64
    → bit_and ((v + (2 ^ k - 1)) % word64) (lnot64 (2 ^ k - 1)) ≡ (v + (2 ^ k - 1)) / 2 ^ k * 2 ^ k
clear_low v k h fits =
    let x = v + (2 ^ k - 1) in
    let split : x / 2 ^ k * 2 ^ k + x % 2 ^ k ≡ x = div-add-mod' x (2 ^ k) in
    let cleared =
      bit_and-clear k 64 (x / 2 ^ k) (x % 2 ^ k) (omega (arith, exponent-lt k h))
        (grind (arith, pow_pos k)) (rw split fits) in
    let masks : lnot64 (2 ^ k - 1) ≡ 2 ^ 64 - 2 ^ k = omega (arith, pow_pos k) in
    rw (mod-eq_of_lt fits, masks) (rw split at cleared)

-- What rounding up has to do: the result is the least multiple of the alignment from `value` on.
pub record RoundsUp (value alignment result : ℕ) : Type 0 where
  pub above : value ≤ result
  pub least : result < value + alignment
  pub multiple : result % alignment ≡ 0
  pub fits : result < word64

clear_low-RoundsUp :
    (v k : ℕ) → v + (2 ^ k - 1) < word64 → RoundsUp v (2 ^ k) ((v + (2 ^ k - 1)) / 2 ^ k * 2 ^ k)
clear_low-RoundsUp v k h =
    let x = v + (2 ^ k - 1) in
    let split = div-add-mod' x (2 ^ k) in
    let low : x % 2 ^ k < 2 ^ k = grind (arith, pow_pos k) in
    record {
      above = omega arith;
      least = omega (arith, pow_pos k);
      multiple = mul-mod_left (x / 2 ^ k) (2 ^ k);
      fits = omega arith;
    }

-- For a valid alignment the rounding fails exactly where it would leave the word, and otherwise gives
-- the least multiple of the alignment that is not below the value.
pub align_up_size_lem :
    (v a : ℕ)
    → a < word64
    → alignment_valid a ≡ true
    → (word64 ≤ v + (a - 1)) × (align_up_size v a ≡ none)
      ⊎ ((r : ℕ) × (align_up_size v a ≡ some r) × RoundsUp v a r)
unfolding align_up_size
align_up_size_lem v a h valid = elim (Bool-cases (ltb (word64 - 1 - (a - 1)) v)) [
  | inl over ↦ inl (ground arith, ground arith)
  | inr within ↦
      let (k, e) = (alignment_valid_iff a).0 valid in
      let fits : v + (a - 1) < word64 = ground (arith, pow_pos k) in
      inr (
        (v + (a - 1)) / a * a,
        rw (valid, within) (rw e (ap some (clear_low v k (rw e at h) (rw e at fits)))),
        rw e (clear_low-RoundsUp v k (rw e at fits)),
      )
]
