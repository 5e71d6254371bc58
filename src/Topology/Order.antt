-- ===== src/Topology/Order.antt =====
-- What a topological order is, and that the search of src/core/graph.c gives one.
use metal_graph.Base.{
  ℕ, suc, ◌≤◌, ◌<◌, ◌≡◌, ◌↔◌, refl, ◌∙◌, ap, true, false, not, ◌&&◌, ◌==◌, if◌then◌else◌, List, [],
  ◌∷◌, ◌++◌, length, length-replicate, get_or-replicate, replicate, arith, All, Bool-cases, inl,
  inr, ◌⊎◌, ==_iff,
}
use mathlib.Core.List.{append-nil, Memᴰ}
use mathlib.Core.List.Memᴰ
use mathlib.Core.WellFounded
use native.Mathlib.Decide.{ℕ_discrete}
use metal_graph.Base.Order.{lt_wf}
use metal_graph.Node.{Edge}
use metal_graph.Topology.{Search, start}
use metal_graph.Topology.Counts.{mem, mem-append, NoDup, open_edges}
use metal_graph.Topology.Pigeon.{length-le_of_below, length-ge_of_all}
use metal_graph.Topology.Start.{InRange, Counted, sources-mem, sources-NoDup}
use metal_graph.Topology.Loop.{Respects, Inv}
use metal_graph.Topology.Relax.{degree}

-- A topological order of the nodes: each stands once, after all nodes with an edge into it.
pub record IsTopological (n : ℕ) (es : List Edge) (order : List ℕ) : Type 0 where
  pub size : length order ≡ n
  pub nodes : (v : ℕ) → (mem v order ≡ true) ↔ (v < n)
  pub nodup : NoDup order
  pub respects : Respects es [] order

-- There is no cycle: some rank grows along every edge.
abbrev pub Ranks : List Edge → (ℕ → ℕ) → Type 0
Ranks es rank = All (λ (e : Edge). rank e.before < rank e.after) es

pub start-Inv :
    (n : ℕ) (es : List Edge) (xs : List ℕ) → Counted n es (replicate n 0) xs → Inv n es (start n xs)
start-Inv n es xs c = record {
  size = c.size ∙ length-replicate {A = ℕ} n 0;
  counts = λ v h. omega (arith, c.counts v h, get_or-replicate {A = ℕ} n 0 v);
  found = λ v. ground (arith, sources-mem 0 xs v, c.size, length-replicate {A = ℕ} n 0);
  nodup = sources-NoDup 0 xs;
  respects = tt;
}

-- Where the count of a node is not zero, some edge into it is open.
open_edge :
    (n : ℕ) (es : List Edge) (seen : List ℕ) (v : ℕ) (rank : ℕ → ℕ)
    → InRange n es
    → Ranks es rank
    → 0 < open_edges es seen v
    → (u : ℕ) × (u < n) × (mem u seen ≡ false) × (rank u < rank v)
open_edge n [] seen v rank range ranks h = elim h [ ]
open_edge n (e ∷ es) seen v rank range ranks h =
    elim (Bool-cases (e.after == v && not (mem e.before seen))) [
      | inl here ↦
          let v_is : e.after ≡ v = ground arith in
          (e.before, range.0.0, ground arith, rw (← v_is) ranks.0)
      | inr there ↦ open_edge n es seen v rank range.1 ranks.1 (ground arith)
    ]

-- A search that ended, on edges between nodes.
module _ (n : ℕ) (es : List Edge) (t : Search) (range : InRange n es) (inv : Inv n es t)
    (empty : t.pending ≡ []) where
  all_order : t.order ++ t.pending ≡ t.order
  all_order = rw empty (append-nil t.order)

  found : (v : ℕ) → (mem v t.order ≡ true) ↔ ((v < n) × (degree t v ≡ 0))
  found v = rw all_order at (inv.found v)

  distinct : NoDup t.order
  distinct = rw all_order at inv.nodup

  order-le : length t.order ≤ n
  order-le = length-le_of_below n t.order distinct (λ v m. ((found v).0 m).0)

  -- With `n` nodes in the order none is left.
  full : length t.order ≡ n → (v : ℕ) → v < n → mem v t.order ≡ true
  full e v h = elim (Bool-cases (mem v t.order)) [
    | inl m ↦ m
    | inr m ↦ absurd (
        omega (
          arith,
          length-le_of_below n (v ∷ t.order) (m, distinct)
              (λ w k. ground (arith, found w, ==_iff v w)),
        ))
  ]

  pub order-IsTopological : length t.order ≡ n → IsTopological n es t.order
  order-IsTopological e = record {
    size = e;
    nodes = λ v. (λ m. ((found v).0 m).0, full e v);
    nodup = distinct;
    respects = inv.respects;
  }

  module _ (rank : ℕ → ℕ) (ranks : Ranks es rank) where
    descend :
        (k : ℕ)
        → ((m : ℕ) → m < k → (v : ℕ) → v < n → rank v ≡ m → mem v t.order ≡ true)
        → (v : ℕ) → v < n
        → rank v ≡ k
        → mem v t.order ≡ true
    descend k ih v h e = elim (ℕ_discrete (degree t v) 0) [
      | yes z ↦ (found v).1 (h, z)
      | no nz ↦
          let (u, below, unseen, less) =
            open_edge n es t.order v rank range ranks (omega (arith, inv.counts v h)) in
          let seen : mem u t.order ≡ true = ih (rank u) (omega arith) u below refl in cc
    ]

    -- Every node of a graph without cycles was produced.
    all_produced : (v : ℕ) → v < n → mem v t.order ≡ true
    all_produced v h =
        WellFounded.induction lt_wf {C = λ k. (v : ℕ) → v < n → rank v ≡ k → mem v t.order ≡ true}
          (rank v) descend v h refl

    pub acyclic_full : length t.order ≡ n
    acyclic_full = omega (arith, order-le, length-ge_of_all n t.order all_produced)

-- The place of a node in the order.
abbrev pub position : ℕ → List ℕ → ℕ
position v [] = 0
position v (x ∷ xs) = if x == v then 0 else suc (position v xs)

-- Where no edge into a node is open, all nodes with an edge into it were seen.
closed_edge :
    (es : List Edge) (seen : List ℕ) (e : Edge)
    → Memᴰ e es
    → open_edges es seen e.after ≡ 0
    → mem e.before seen ≡ true
closed_edge [] seen e m h = absurd (Memᴰ.not-nil m)
closed_edge (x ∷ es) seen e m h = elim (Memᴰ.cases_cons m) [
  | inl same ↦
      let before_is : e.before ≡ x.before = ap (λ (y : Edge). y.before) same in
      let after_is : e.after ≡ x.after = ap (λ (y : Edge). y.after) same in ground arith
  | inr rest ↦ closed_edge es seen e rest (ground arith)
]

earlier :
    (es : List Edge) (seen order : List ℕ) (e : Edge)
    → Memᴰ e es
    → Respects es seen order
    → mem e.after order ≡ true
    → (mem e.before seen ≡ true) ⊎ (position e.before order < position e.after order)
earlier es seen [] e m r h = cc
earlier es seen (x ∷ xs) e m r h = elim (Bool-cases (x == e.after)) [
  | inl last ↦
      let same : x ≡ e.after = ground arith in inl (closed_edge es seen e m (rw same at r.0))
  | inr before ↦
      let rest = earlier es (seen ++ x ∷ []) xs e m r.1 (ground arith) in
      ground (arith, rest, mem-append e.before seen (x ∷ []))
]

-- In a topological order the places grow along every edge, so there is no cycle.
pub position-Ranks :
    (n : ℕ) (es : List Edge) (order : List ℕ)
    → InRange n es
    → IsTopological n es order
    → Ranks es (λ v. position v order)
position-Ranks n es order range top = go es range (λ e m. m)
  where
    go :
        (some_es : List Edge)
        → InRange n some_es
        → ((e : Edge) → Memᴰ e some_es → Memᴰ e es)
        → Ranks some_es (λ v. position v order)
    go [] r sub = tt
    go (e ∷ rest) r sub = (
      (elim (earlier es [] order e (sub e (Memᴰ.head refl)) top.respects
          ((top.nodes e.after).1 r.0.1)) [ inl bad ↦ cc | inr less ↦ less ]),
      go rest r.1 (λ e' m. sub e' (Memᴰ.tail m)),
    )
