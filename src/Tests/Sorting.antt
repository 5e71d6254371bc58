-- ===== src/Tests/Sorting.antt =====
-- The sort, on three nodes in a line and on a cycle.
use metal_graph.Base.{ℕ, ◌≡◌, ◌↔◌, refl, List, [], ◌∷◌, arith}
use metal_graph.Outcome.{done, failed}
use metal_graph.Node.{Edge}
use metal_graph.Topology.{
  topological_sort, cycle_found, sort_counted, count_indegrees, finish, search_loop, sources,
  expand, relax, relax_edge,
}
use metal_graph.Topology.Start.{InRange}
use metal_graph.Topology.Correct.{Sorted, topological_sort_cases, topological_sort_iff}
use metal_graph.Topology.Order.{Ranks}

abbrev line : List Edge
line = record { before = 2; after = 0 } ∷ record { before = 0; after = 1 } ∷ []

abbrev ring : List Edge
ring = record { before = 0; after = 1 } ∷ record { before = 1; after = 0 } ∷ []

topological_sort-line : topological_sort 3 line ≡ done (2 ∷ 0 ∷ 1 ∷ [])
unfolding topological_sort sort_counted count_indegrees finish search_loop sources expand relax
    relax_edge
topological_sort-line = refl

topological_sort-ring : topological_sort 2 ring ≡ failed cycle_found
unfolding topological_sort sort_counted count_indegrees finish search_loop sources
topological_sort-ring = refl

topological_sort_cases_example : Sorted 3 line (topological_sort 3 line)
topological_sort_cases_example = topological_sort_cases 3 line (omega arith)

topological_sort_iff_example :
    ((order : List ℕ) × (topological_sort 3 line ≡ done order))
    ↔ (InRange 3 line × ((rank : ℕ → ℕ) × Ranks line rank))
topological_sort_iff_example = topological_sort_iff 3 line (omega arith)
