-- ===== src/Topology/Correct.antt =====
-- mg_graph_topological_order sorts exactly the graphs without cycles.
use metal_graph.Base.{
  ℕ, ◌<◌, ◌≡◌, ◌↔◌, refl, sym, ◌∙◌, List, length, length-replicate, get_or-replicate, replicate,
  arith, word64, inl, inr,
}
use native.Mathlib.Decide.{ℕ_discrete}
use metal_graph.Outcome.{Outcome, done, failed}
use metal_graph.Node.{Edge}
use metal_graph.Topology.{
  search_loop, finish, sort_counted, topological_sort, bad_edge, cycle_found, start,
}
use metal_graph.Topology.Start.{InRange, Counted, count_indegrees-Counted}
use metal_graph.Topology.Loop.{search_loop_ends}
use metal_graph.Topology.Order.{
  IsTopological, order-IsTopological, acyclic_full, Ranks, position, position-Ranks, start-Inv,
}

-- The three results of the sort.
pub data Sorted (n : ℕ) (es : List Edge) (r : Outcome (List ℕ)) : Type 0 where
  sorted :
      (order : List ℕ) → r ≡ done order → InRange n es → IsTopological n es order → Sorted n es r
  out_of_range : r ≡ failed bad_edge → ¬ InRange n es → Sorted n es r
  cyclic :
      r ≡ failed cycle_found → InRange n es → ((rank : ℕ → ℕ) → ¬ Ranks es rank) → Sorted n es r

Sorted-search :
    (n : ℕ) (es : List Edge) (xs : List ℕ)
    → length es < word64
    → Counted n es (replicate n 0) xs
    → Sorted n es (finish n (search_loop es n (start n xs)))
unfolding finish
Sorted-search n es xs small c =
    let (t, runs, inv, empty) =
      search_loop_ends n es c.range small n (start n xs) (start-Inv n es xs c) (omega arith) in
    rw runs (elim (ℕ_discrete (length t.order) n) [
      | yes e ↦
          sorted t.order (ground arith) c.range (order-IsTopological n es t c.range inv empty e)
      | no ne ↦
          cyclic (ground arith) c.range
            (λ rank ranks. ne (acyclic_full n es t c.range inv empty rank ranks))
    ])

-- mg_graph_topological_order, on any graph whose number of edges fits a word: it ends, and either an
-- edge leads to no node and the function fails with that message, or it returns an order in which
-- each node stands exactly once and after all nodes with an edge into it, or it reports a cycle and no
-- rank of the nodes grows along all edges.
pub topological_sort_cases :
    (n : ℕ) (es : List Edge) → length es < word64 → Sorted n es (topological_sort n es)
unfolding topological_sort sort_counted
topological_sort_cases n es small =
    elim (count_indegrees-Counted n es (replicate n 0) (length-replicate n 0)
      (λ v h. omega (arith, get_or-replicate {A = ℕ} n 0 v))) [
        | inl (xs, runs, c) ↦ rw runs (Sorted-search n es xs small c)
        | inr (fails, out) ↦ rw fails (out_of_range refl out)
      ]

-- The sort succeeds exactly on the edges between nodes along which some rank of the nodes grows, that
-- is, on graphs without cycles.
pub topological_sort_iff :
    (n : ℕ) (es : List Edge)
    → length es < word64
    → ((order : List ℕ) × (topological_sort n es ≡ done order))
      ↔ (InRange n es × ((rank : ℕ → ℕ) × Ranks es rank))
topological_sort_iff n es small = (forth, back (topological_sort_cases n es small))
  where
    ranked :
        {r : Outcome (List ℕ)} (order : List ℕ)
        → r ≡ done order
        → Sorted n es r
        → InRange n es × ((rank : ℕ → ℕ) × Ranks es rank)
    ranked order e (sorted order' e' range top) =
        (range, ((λ v. position v order'), position-Ranks n es order' range top))
    ranked order e (out_of_range e' out) = let bad = sym e ∙ e' in cc
    ranked order e (cyclic e' range none_grows) = let bad = sym e ∙ e' in cc

    forth :
        ((order : List ℕ) × (topological_sort n es ≡ done order))
        → InRange n es × ((rank : ℕ → ℕ) × Ranks es rank)
    forth (order, e) = ranked order e (topological_sort_cases n es small)

    back :
        {r : Outcome (List ℕ)}
        → Sorted n es r
        → InRange n es × ((rank : ℕ → ℕ) × Ranks es rank)
        → (order : List ℕ) × (r ≡ done order)
    back (sorted order e range top) ok = (order, e)
    back (out_of_range e out) ok = absurd (out ok.0)
    back (cyclic e range none_grows) (range', (rank, ranks)) = absurd (none_grows rank ranks)
