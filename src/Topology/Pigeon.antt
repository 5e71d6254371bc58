-- ===== src/Topology/Pigeon.antt =====
-- A list of distinct numbers below `n` has at most `n` of them, and one with all of them has `n`.
use metal_graph.Base.{
  ℕ, zero, suc, ◌≤◌, ◌<◌, ◌≡◌, ◌≢◌, refl, true, false, ◌==◌, if◌then◌else◌, List, [], ◌∷◌, length,
  arith, ==_iff,
}
use native.Mathlib.Decide.{ℕ_discrete}
use metal_graph.Topology.Counts.{mem, NoDup}

unfoldable pub remove : ℕ → List ℕ → List ℕ
remove x [] = []
remove x (y ∷ ys) = if y == x then ys else y ∷ remove x ys

pub mem-remove_ne : (v x : ℕ) (xs : List ℕ) → v ≢ x → mem v (remove x xs) ≡ mem v xs
unfolding remove
mem-remove_ne v x [] h = refl
mem-remove_ne v x (y ∷ ys) h = ground (arith, mem-remove_ne v x ys h, ==_iff y v, ==_iff y x)

pub mem-remove_self : (x : ℕ) (xs : List ℕ) → NoDup xs → mem x (remove x xs) ≡ false
unfolding remove
mem-remove_self x [] d = refl
mem-remove_self x (y ∷ ys) d = ground (arith, mem-remove_self x ys d.1, ==_iff y x, d.0)

pub NoDup-remove : (x : ℕ) (xs : List ℕ) → NoDup xs → NoDup (remove x xs)
unfolding remove
NoDup-remove x [] d = tt
NoDup-remove x (y ∷ ys) d = elim (ℕ_discrete y x) [
  | yes e ↦ let t : (y == x) ≡ true = ground arith in rw t d.1
  | no ne ↦
      let t : (y == x) ≡ false = ground arith in
      rw t (rw (mem-remove_ne y x ys ne) d.0, NoDup-remove x ys d.1)
]

-- What is left of a list of distinct numbers up to `n` lies below `n`.
pub remove_below :
    (n : ℕ) (xs : List ℕ)
    → NoDup xs
    → ((v : ℕ) → mem v xs ≡ true → v < suc n)
    → (v : ℕ) → mem v (remove n xs) ≡ true
    → v < n
remove_below n xs d h v m = elim (ℕ_discrete v n) [
  | yes e ↦ let z : mem v (remove n xs) ≡ false = rw e (mem-remove_self n xs d) in cc
  | no ne ↦ let k = h v in ground (arith, mem-remove_ne v n xs ne)
]

length-remove : (x : ℕ) (xs : List ℕ) → mem x xs ≡ true → suc (length (remove x xs)) ≡ length xs
unfolding remove
length-remove x [] h = cc
length-remove x (y ∷ ys) h = ground (arith, length-remove x ys)

length-remove_le : (x : ℕ) (xs : List ℕ) → length xs ≤ suc (length (remove x xs))
unfolding remove
length-remove_le x [] = omega arith
length-remove_le x (y ∷ ys) = ground (arith, length-remove_le x ys)

pub length-le_of_below :
    (n : ℕ) (xs : List ℕ) → NoDup xs → ((v : ℕ) → mem v xs ≡ true → v < n) → length xs ≤ n
length-le_of_below zero [] d h = omega arith
length-le_of_below zero (x ∷ xs) d h =
    let bad = h x in absurd (let r : (x == x) ≡ true = ground arith in ground arith)
length-le_of_below (suc n) xs d h =
    let smaller =
      length-le_of_below n (remove n xs) (NoDup-remove n xs d) (remove_below n xs d h) in
    omega (arith, length-remove_le n xs)

pub length-ge_of_all : (n : ℕ) (xs : List ℕ) → ((v : ℕ) → v < n → mem v xs ≡ true) → n ≤ length xs
length-ge_of_all zero xs h = omega arith
length-ge_of_all (suc n) xs h =
    let smaller =
      length-ge_of_all n (remove n xs)
        (λ v l. let ne : v ≢ n = omega arith in rw (mem-remove_ne v n xs ne) (h v (omega arith))) in
    omega (arith, length-remove n xs (h n (omega arith)))
