-- ===== src/Topology/Start.antt =====
-- The two loops of mg_graph_topological_order before its search: the counts and the first queue.
use metal_graph.Base.{
  ℕ, suc, ◌+◌, ◌-◌, ◌%◌, ◌≤◌, ◌<◌, ◌≡◌, ◌↔◌, refl, true, ◌||◌, ◌==◌, leb, if◌then◌else◌, List, [],
  ◌∷◌, length, length-set, get_or, set, arith, All, word64, Bool-cases, inl, inr, ◌⊎◌, ==_iff, ◌∙◌,
}
use native.Mathlib.Decide.{dec_lt}
use metal_graph.Outcome.{done, failed}
use metal_graph.Node.{Edge}
use metal_graph.Topology.{count_indegrees, sources, bad_edge}
use metal_graph.Topology.Counts.{mem, NoDup, open_edges, get_or-set}

-- Both ends are nodes.
abbrev pub InRange : ℕ → List Edge → Type 0
InRange n es = All (λ (e : Edge). (e.before < n) × (e.after < n)) es

pub record Counted (n : ℕ) (es : List Edge) (before after : List ℕ) : Type 0 where
  pub range : InRange n es
  pub size : length after ≡ length before
  pub counts : (v : ℕ) → v < n → get_or after v 0 ≡ get_or before v 0 + open_edges es [] v

bump : ℕ → List ℕ → List ℕ
bump v xs = set xs v ((get_or xs v 0 + 1) % word64)

bump-at :
    (n : ℕ) (e : Edge) (es : List Edge) (xs : List ℕ) (v : ℕ)
    → length xs ≡ n
    → ((v : ℕ) → v < n → get_or xs v 0 + length (e ∷ es) < word64)
    → e.after < n
    → get_or (bump e.after xs) v 0 ≡ (if e.after == v then get_or xs v 0 + 1 else get_or xs v 0)
unfolding bump
bump-at n e es xs v size fits r = ground (
  arith,
  get_or-set xs e.after v ((get_or xs e.after 0 + 1) % word64),
  fits e.after r,
  ==_iff e.after v,
)

size-bump : (v : ℕ) (xs : List ℕ) → length (bump v xs) ≡ length xs
unfolding bump
size-bump v xs = length-set xs v ((get_or xs v 0 + 1) % word64)

-- The result of the loop on the rest of the edges, extended by one edge.
Counted_cons :
    (n : ℕ) (e : Edge) (es : List Edge) (xs ys : List ℕ)
    → length xs ≡ n
    → ((v : ℕ) → v < n → get_or xs v 0 + length (e ∷ es) < word64)
    → (e.before < n) × (e.after < n)
    → Counted n es (bump e.after xs) ys
    → Counted n (e ∷ es) xs ys
Counted_cons n e es xs ys size fits r c = record {
  range = (r, c.range);
  size = c.size ∙ size-bump e.after xs;
  counts = λ v h. ground (arith, c.counts v h, bump-at n e es xs v size fits r.1);
}

-- Either all edges are in range and are counted, or the function fails.
pub count_indegrees-Counted :
    (n : ℕ) (es : List Edge) (xs : List ℕ)
    → length xs ≡ n
    → ((v : ℕ) → v < n → get_or xs v 0 + length es < word64)
    → ((ys : List ℕ) × (count_indegrees n es xs ≡ done ys) × Counted n es xs ys)
      ⊎ (count_indegrees n es xs ≡ failed bad_edge) × ¬ InRange n es
unfolding count_indegrees bump
count_indegrees-Counted n [] xs size fits =
    inl (xs, refl, record { range = tt; size = refl; counts = λ v h. omega arith })
count_indegrees-Counted n (e ∷ es) xs size fits =
    elim (Bool-cases (leb n e.before || leb n e.after)) [
      | inl out ↦ inr (rw out, λ r. let r0 = r.0 in ground arith)
      | inr ok ↦
          let r : (e.before < n) × (e.after < n) = ground arith in
          rw ok
            (elim (count_indegrees-Counted n es (bump e.after xs) (size-bump e.after xs ∙ size)
              (λ v h. ground (arith, fits v h, bump-at n e es xs v size fits r.1))) [
                | inl (ys, runs, c) ↦ inl (ys, runs, Counted_cons n e es xs ys size fits r c)
                | inr (fails, out) ↦ inr (fails, λ all. out all.1)
              ])
    ]

pub sources-mem :
    (i : ℕ) (xs : List ℕ) (v : ℕ)
    → (mem v (sources i xs) ≡ true) ↔ ((i ≤ v) × (v < i + length xs) × (get_or xs (v - i) 0 ≡ 0))
unfolding sources
sources-mem i [] v = ground arith
sources-mem i (x ∷ xs) v = elim (dec_lt i v) [
  | yes past ↦
      let e : v - i ≡ suc (v - suc i) = omega arith in
      rw e (ground (arith, sources-mem (suc i) xs v))
  | no upto ↦ elim (dec_lt v i) [
    | yes less ↦ ground (arith, sources-mem (suc i) xs v)
    | no more ↦
        let same : v ≡ i = omega arith in
        let z : i - i ≡ 0 = omega arith in rw (same, z) (ground (arith, sources-mem (suc i) xs i))
  ]
]

pub sources-NoDup : (i : ℕ) (xs : List ℕ) → NoDup (sources i xs)
unfolding sources
sources-NoDup i [] = tt
sources-NoDup i (x ∷ xs) = elim (Bool-cases (x == 0)) [
  | inl z ↦ rw z (ground (arith, sources-mem (suc i) xs i), sources-NoDup (suc i) xs)
  | inr nz ↦ rw nz (sources-NoDup (suc i) xs)
]
