-- ===== src/Topology/Loop.antt =====
-- The outer loop of mg_graph_topological_order: its invariant, and its end within `node_count` rounds.
use metal_graph.Base.{
  ℕ, zero, suc, ◌+◌, ◌≤◌, ◌<◌, ◌≡◌, ◌↔◌, refl, sym, ◌∙◌, ap, true, false, ◌||◌, ◌==◌, some, List,
  [], ◌∷◌, ◌++◌, length, length-append, arith, All, All_mono, word64, List-cases, inl, inr, ==_iff,
}
use mathlib.Core.List.{append_assoc, append-nil}
use native.Mathlib.Decide.{dec_lt}
use metal_graph.Node.{Edge}
use metal_graph.Topology.{Search, expand, search_loop}
use metal_graph.Topology.Counts.{
  mem, mem-append, NoDup, NoDup-append, hits, open_edges, open_edges-snoc, open_edges-le,
  hits_out_of_range, get_or_out_of_range, Parts, NoDup-Parts,
}
use metal_graph.Topology.Pigeon.{length-le_of_below}
use metal_graph.Topology.Relax.{degree, Waiting, Lowered, relax-Lowered}

-- Each node of the list stands after all nodes with an edge into it; `seen` stands before the list.
abbrev pub Respects : List Edge → List ℕ → List ℕ → Type 0
Respects es seen [] = Unit {0}
Respects es seen (v ∷ vs) = (open_edges es seen v ≡ 0) × Respects es (seen ++ v ∷ []) vs

Respects-snoc :
    (es : List Edge) (seen vs : List ℕ) (v : ℕ)
    → Respects es seen vs
    → open_edges es (seen ++ vs) v ≡ 0
    → Respects es seen (vs ++ v ∷ [])
Respects-snoc es seen [] v r h = (rw append-nil at h, tt)
Respects-snoc es seen (x ∷ xs) v r h =
    (r.0, Respects-snoc es (seen ++ x ∷ []) xs v r.1 (rw append_assoc h))

-- `order` was produced, and `pending` waits.
pub record Inv (n : ℕ) (es : List Edge) (s : Search) : Type 0 where
  pub size : length s.indegree ≡ n
  pub counts : (v : ℕ) → v < n → degree s v ≡ open_edges es s.order v
  pub found : (v : ℕ) → (mem v (s.order ++ s.pending) ≡ true) ↔ ((v < n) × (degree s v ≡ 0))
  pub nodup : NoDup (s.order ++ s.pending)
  pub respects : Respects es [] s.order

module _ (n : ℕ) (es : List Edge) (range : All (λ (e : Edge). (e.before < n) × (e.after < n)) es)
    (small : length es < word64) where
  module _ (s : Search) (u : ℕ) (rest : List ℕ) (front : s.pending ≡ u ∷ rest)
      (inv : Inv n es s) where
    abbrev popped : Search
    popped = record s { pending = rest; order = s.order ++ u ∷ [] }

    abbrev expanded : Search
    expanded = expand es s u rest

    degree-lt : (v : ℕ) → degree s v < word64
    degree-lt v = elim (dec_lt v n) [
      | yes h ↦ omega (arith, inv.counts v h, open_edges-le es s.order v)
      | no h ↦ omega (arith, get_or_out_of_range s.indegree v, inv.size)
    ]

    old : (v : ℕ) → (mem v (s.order ++ u ∷ rest) ≡ true) ↔ ((v < n) × (degree s v ≡ 0))
    old v = rw (← front) (inv.found v)

    parts : Parts s.order (u ∷ rest)
    parts = NoDup-Parts s.order (u ∷ rest) (rw (← front) inv.nodup)

    u_new : mem u s.order ≡ false
    u_new = ground (arith, parts.apart u)

    mem_old : (v : ℕ) → mem v (s.order ++ u ∷ rest) ≡ (mem v s.order || (u == v || mem v rest))
    mem_old v = mem-append v s.order (u ∷ rest)

    u_ready : (u < n) × (degree s u ≡ 0)
    u_ready = (old u).0 (ground (arith, mem_old u))

    waiting : Waiting popped
    waiting = record {
      words = degree-lt;
      nodup = parts.right.1;
      ready = λ v m. ground (arith, old v, mem_old v);
    }

    closes : (v : ℕ) → v < n → open_edges es (s.order ++ u ∷ []) v + hits u es v ≡ degree s v
    closes v h = open_edges-snoc es s.order u v u_new ∙ sym (inv.counts v h)

    enough : (v : ℕ) → hits u es v ≤ degree s v
    enough v = elim (dec_lt v n) [
      | yes h ↦ omega (arith, closes v h)
      | no h ↦ omega (arith, hits_out_of_range n es u v (All_mono _ _ (λ e r. r.1) es range))
    ]

    lowered : Lowered popped expanded (hits u es)
    unfolding expand
    lowered =
        relax-Lowered u es popped (rw inv.size (All_mono _ _ (λ e r. r.1) es range)) enough waiting

    expand-nodup : NoDup ((s.order ++ u ∷ []) ++ expanded.pending)
    expand-nodup =
        NoDup-append (s.order ++ u ∷ []) expanded.pending
          (NoDup-append s.order (u ∷ []) parts.left (refl, tt)
            (λ v m. ground (arith, parts.apart v)))
          lowered.waiting.nodup
          (λ v m. ground (
            arith,
            mem-append v s.order (u ∷ []),
            lowered.queue v,
            old v,
            mem_old v,
            parts.apart v,
            parts.right.0,
            ==_iff u v,
          ))

    expand-found :
        (v : ℕ)
        → (mem v ((s.order ++ u ∷ []) ++ expanded.pending) ≡ true)
          ↔ ((v < n) × (degree expanded v ≡ 0))
    expand-found v = ground (
      arith,
      mem-append v (s.order ++ u ∷ []) expanded.pending,
      mem-append v s.order (u ∷ []),
      lowered.queue v,
      lowered.counts v,
      old v,
      mem_old v,
      get_or_out_of_range s.indegree v,
      inv.size,
    )

    order-expand : length expanded.order ≡ length s.order + 1
    order-expand = rw lowered.order (length-append s.order (u ∷ []))

    expand-Inv : Inv n es expanded
    expand-Inv = record {
      size = lowered.size ∙ inv.size;
      counts = λ v h. rw lowered.order (omega (arith, closes v h, lowered.counts v));
      found = rw lowered.order expand-found;
      nodup = rw lowered.order expand-nodup;
      respects = rw lowered.order (
          Respects-snoc es [] s.order u inv.respects
            (omega (arith, inv.counts u u_ready.0, u_ready.1)));
    }

  -- The nodes produced and waiting are distinct and in range.
  produced-le : (s : Search) → Inv n es s → length s.order + length s.pending ≤ n
  produced-le s inv =
      let bound =
        length-le_of_below n (s.order ++ s.pending) inv.nodup (λ v m. ((inv.found v).0 m).0) in
      omega (arith, length-append s.order s.pending)

  -- With a round for each node that is not produced yet the loop ends, with an empty queue.
  pub search_loop_ends :
      (fuel : ℕ) (s : Search)
      → Inv n es s
      → n ≤ length s.order + fuel
      → (t : Search) × (search_loop es fuel s ≡ some t) × Inv n es t × (t.pending ≡ [])
  unfolding search_loop
  search_loop_ends zero s inv h = elim (List-cases s.pending) [
    | inl e ↦ (s, simp (e, search_loop), inv, e)
    | inr (u, rest, e) ↦ absurd (omega (arith, produced-le s inv, ap length e))
  ]
  search_loop_ends (suc fuel) s inv h = elim (List-cases s.pending) [
    | inl e ↦ (s, simp (e, search_loop), inv, e)
    | inr (u, rest, e) ↦
        let (t, runs, end, empty) =
          search_loop_ends fuel (expand es s u rest) (expand-Inv s u rest e inv)
            (omega (arith, order-expand s u rest e inv)) in
        (t, rw (e, search_loop) runs, end, empty)
  ]
