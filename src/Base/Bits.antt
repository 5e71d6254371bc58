-- ===== src/Base/Bits.antt =====
-- `&` on words: the digit equation, masks, and the complement of a 64-bit word.
use Prim.Native.Nat.{
  ℕ, zero, suc, ◌+◌, ◌-◌, ◌*◌, ◌/◌, ◌%◌, ◌^◌, ◌≤◌, ◌<◌, min, bit_and, digits, bit_and-bitwise,
}
use mathlib.Core.Path.{◌≡◌, refl, ap}
use mathlib.Core.WellFounded
use native.Mathlib.Omega.{arith}
use native.Mathlib.Decide.{ℕ_discrete}
use native.Mathlib.Nat.{pow-suc, one-le-pow}
use metal_graph.Base.Order.{lt_wf}

-- The value of `SIZE_MAX + 1`, the modulus of `size_t` and `uint64_t`.
abbrev pub word64 : ℕ
word64 = 2 ^ 64

-- `~x` on a 64-bit word.
abbrev pub lnot64 : ℕ → ℕ
lnot64 x = word64 - 1 - x

-- The definition that the native operation stands for does not depend on its fuel.
fuel_irrelevant :
    (n m a b : ℕ) → a ≤ n → a ≤ m → digits (λ _. zero) min n a b ≡ digits (λ _. zero) min m a b
fuel_irrelevant zero zero a b p q = refl
fuel_irrelevant zero (suc m) zero b p q = refl
fuel_irrelevant (suc n) zero zero b p q = refl
fuel_irrelevant (suc n) (suc m) zero b p q = refl
fuel_irrelevant zero (suc m) (suc a) b p q = absurd (omega arith)
fuel_irrelevant (suc n) zero (suc a) b p q = absurd (omega arith)
fuel_irrelevant (suc n) (suc m) (suc a) b p q =
    omega (arith, fuel_irrelevant n m (suc a / 2) (b / 2) (omega arith) (omega arith))

pub zero-bit_and : (b : ℕ) → bit_and 0 b ≡ 0
zero-bit_and b = bit_and-bitwise 0 b

-- The lowest digit and the rest.
pub bit_and-halves : (a b : ℕ) → bit_and a b ≡ 2 * bit_and (a / 2) (b / 2) + min (a % 2) (b % 2)
bit_and-halves zero b = omega (arith, zero-bit_and b, zero-bit_and (b / 2))
bit_and-halves (suc a) b = omega (
  arith,
  bit_and-bitwise (suc a) b,
  bit_and-bitwise (suc a / 2) (b / 2),
  fuel_irrelevant a (suc a / 2) (suc a / 2) (b / 2) (omega arith) (omega arith),
)

pub bit_and-zero : (a : ℕ) → bit_and a 0 ≡ 0
bit_and-zero a = WellFounded.induction lt_wf {C = λ n. bit_and n 0 ≡ 0} a λ n ih. halve n ih
  where
    halve : (n : ℕ) → ((m : ℕ) → m < n → bit_and m 0 ≡ 0) → bit_and n 0 ≡ 0
    halve zero ih = refl
    halve (suc n) ih = omega (arith, bit_and-halves (suc n) 0, ih (suc n / 2) (omega arith))

pub bit_and_self : (a : ℕ) → bit_and a a ≡ a
bit_and_self a = WellFounded.induction lt_wf {C = λ n. bit_and n n ≡ n} a λ n ih. halve n ih
  where
    halve : (n : ℕ) → ((m : ℕ) → m < n → bit_and m m ≡ m) → bit_and n n ≡ n
    halve zero ih = refl
    halve (suc n) ih = omega (arith, bit_and-halves (suc n) (suc n), ih (suc n / 2) (omega arith))

-- `2 ^ suc k` as twice `2 ^ k`, also under a factor.
pub mul-pow_double : (q k : ℕ) → q * 2 ^ suc k ≡ 2 * (q * 2 ^ k)
mul-pow_double q k = omega (arith, ap (λ (t : ℕ). q * t) (pow-suc 2 k))

pub pow_pos : (k : ℕ) → 0 < 2 ^ k
pow_pos k = one-le-pow k 2 (omega arith)

-- A word below `2 ^ w` is unchanged by a mask of `w` ones.
pub bit_and-ones : (w x : ℕ) → x < 2 ^ w → bit_and x (2 ^ w - 1) ≡ x
bit_and-ones zero x h = let e : x ≡ 0 = omega arith in rw e
bit_and-ones (suc w) x h =
    ground (arith, pow-suc 2 w, pow_pos w, bit_and-halves x (2 ^ suc w - 1), bit_and-ones w (x / 2))

-- `x & ~(2 ^ k - 1)` on a word of `w` bits clears the low `k` bits.
pub bit_and-clear :
    (k w q r : ℕ)
    → k ≤ w
    → r < 2 ^ k
    → q * 2 ^ k + r < 2 ^ w
    → bit_and (q * 2 ^ k + r) (2 ^ w - 2 ^ k) ≡ q * 2 ^ k
bit_and-clear zero w q r h hr hx = ground (arith, bit_and-ones w (q * 2 ^ 0 + r))
bit_and-clear (suc k) zero q r h hr hx = absurd (omega arith)
bit_and-clear (suc k) (suc w) q r h hr hx = ground (
  arith,
  pow-suc 2 w,
  pow-suc 2 k,
  mul-pow_double q k,
  bit_and-halves (q * 2 ^ suc k + r) (2 ^ suc w - 2 ^ suc k),
  bit_and-clear k w q (r / 2),
)

-- The test `a & (a - 1)` is zero on powers of two.
pub bit_and-pow_pred : (k : ℕ) → bit_and (2 ^ k) (2 ^ k - 1) ≡ 0
bit_and-pow_pred zero = refl
bit_and-pow_pred (suc k) =
    ground (
      arith,
      pow-suc 2 k,
      pow_pos k,
      bit_and-halves (2 ^ suc k) (2 ^ suc k - 1),
      bit_and-pow_pred k,
    )

-- It is zero on no other positive number.
pub pow_of_bit_and-pred : (a : ℕ) → 0 < a → bit_and a (a - 1) ≡ 0 → (k : ℕ) × (a ≡ 2 ^ k)
pow_of_bit_and-pred a =
    WellFounded.induction lt_wf {C = λ n. 0 < n → bit_and n (n - 1) ≡ 0 → (k : ℕ) × (n ≡ 2 ^ k)} a
      λ n ih p e. halve n ih p e
  where
    halve :
        (n : ℕ)
        → ((m : ℕ) → m < n → 0 < m → bit_and m (m - 1) ≡ 0 → (k : ℕ) × (m ≡ 2 ^ k))
        → 0 < n
        → bit_and n (n - 1) ≡ 0
        → (k : ℕ) × (n ≡ 2 ^ k)
    halve n ih p e = elim (ℕ_discrete (n % 2) 0) [
      | yes even ↦
          let (k, q) = ih (n / 2) (omega arith) (omega arith) (
            let e' : n / 2 - 1 ≡ (n - 1) / 2 = omega arith in
            rw e' (omega (arith, bit_and-halves n (n - 1)))) in
          (suc k, omega (arith, pow-suc 2 k))
      | no odd ↦ (
        0,
        (let e' : (n - 1) / 2 ≡ n / 2 = omega arith in
            let s = bit_and-halves n (n - 1) in
            let s' : bit_and n (n - 1) ≡ 2 * bit_and (n / 2) (n / 2) =
              omega (arith, s, ap (bit_and (n / 2)) e') in
            omega (arith, s', bit_and_self (n / 2))),
      )
    ]
