-- ===== src/Graph/Capacity.antt =====
-- The doubling loop of mg_graph_reserve_nodes and mg_graph_reserve_edges in src/core/graph.c.
use metal_graph.Base.{
  ℕ, zero, suc, ◌*◌, ◌%◌, ◌^◌, ◌≤◌, ◌<◌, ◌≡◌, ◌⊎◌, inl, inr, refl, ◌==◌, leb, if◌then◌else◌, some,
  arith, word64, Bool-cases,
}
use native.Mathlib.Nat.{mul_assoc, pow-succ'}
use metal_graph.Graph.{double_until, next_capacity}

-- What the loop finds: enough, a word, and less than twice what is required, if not the start.
pub record Enough (start required next : ℕ) : Type 0 where
  pub enough : required ≤ next
  pub word : next < word64
  pub tight : (next ≡ start) ⊎ (next < required * 2)

-- Rounds that bring the start to the half of the words are enough.
double_until-Enough :
    (fuel required start : ℕ)
    → required ≤ 2 ^ 63
    → start < word64
    → 2 ^ 63 ≤ start * 2 ^ fuel
    → (next : ℕ) × (double_until fuel required start ≡ some next) × Enough start required next
unfolding double_until
double_until-Enough zero required start small word far =
    (start, ground arith, record { enough = omega arith; word = word; tight = inl refl })
double_until-Enough (suc fuel) required start small word far =
    elim (Bool-cases (leb required start)) [
      | inl stop ↦ (start, rw stop, record { enough = ground arith; word = word; tight = inl refl })
      | inr more ↦
          let below : start < required = ground arith in
          let no_wrap : start * 2 % word64 ≡ start * 2 = omega arith in
          let reach : 2 ^ 63 ≤ start * 2 * 2 ^ fuel =
            rw (mul_assoc start 2 (2 ^ fuel), ← pow-succ' 2 fuel) far in
          let (next, e, found) =
            double_until-Enough fuel required (start * 2) small (omega arith) reach in
          (
            next,
            rw (more, no_wrap) e,
            record {
              enough = found.enough;
              word = found.word;
              tight = elim found.tight [ inl same ↦ inr (omega arith) | inr less ↦ inr less ];
            },
          )
    ]

abbrev pub first_capacity : ℕ → ℕ
first_capacity capacity = if capacity == 0 then 4 else capacity * 2

-- mg_graph_reserve_nodes and mg_graph_reserve_edges, for a capacity below 2^63 and at most 2^63
-- required places: the doubling loop ends within the fuel of the model. Its result is enough, fits a
-- word, and is less than twice what is required, unless the first candidate (4, or twice the
-- capacity) was enough already.
pub next_capacity-Enough :
    (capacity required : ℕ)
    → capacity < 2 ^ 63
    → required ≤ 2 ^ 63
    → (next : ℕ) × (next_capacity capacity required ≡ some next)
      × Enough (first_capacity capacity) required next
unfolding next_capacity
next_capacity-Enough capacity required small bound = elim (Bool-cases (capacity == 0)) [
  | inl empty ↦ rw empty (double_until-Enough 65 required 4 bound (omega arith) (omega arith))
  | inr grown ↦
      let no_wrap : capacity * 2 % word64 ≡ capacity * 2 = omega arith in
      rw (grown, no_wrap)
        (double_until-Enough 65 required (capacity * 2) bound (omega arith) (ground arith))
]
