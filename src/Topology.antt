-- ===== src/Topology.antt =====
-- src/core/graph.c: mg_graph_topological_order and mgGraphValidate.
pub mod Counts
pub mod Relax
pub mod Pigeon
pub mod Start
pub mod Loop
pub mod Correct
pub mod Order
pub mod Validate
use metal_graph.Base.{
  ℕ, zero, suc, ◌+◌, ◌-◌, ◌%◌, Bool, true, false, ◌&&◌, ◌||◌, ◌==◌, leb, if◌then◌else◌, Option,
  none, some, List, [], ◌∷◌, ◌++◌, length, get_or, set, replicate, word64,
}
use metal_graph.Types.{Status, Stage}
use metal_graph.Outcome.{Outcome, done, failed, fault, Failure, M, oom_at, node_id_invalid}
use metal_graph.Heap.{Heap, malloc}
use metal_graph.Node.{Edge}
use metal_graph.Graph.{Graph, is_given}

abbrev pub bad_edge : Failure
bad_edge = record {
  status = Status.invalid_topology;
  stage = Stage.validate;
  node_id = node_id_invalid;
  message = "dependency references an invalid node";
}

abbrev pub cycle_found : Failure
cycle_found = record {
  status = Status.invalid_topology;
  stage = Stage.validate;
  node_id = node_id_invalid;
  message = "graph contains a dependency cycle";
}

-- The first loop: checks the edges and counts those into each node.
unfoldable pub count_indegrees : ℕ → List Edge → List ℕ → Outcome (List ℕ)
count_indegrees n [] indegree = done indegree
count_indegrees n (e ∷ edges) indegree =
    let rest =
      count_indegrees n edges (set indegree e.after ((get_or indegree e.after 0 + 1) % word64)) in
    if leb n e.before || leb n e.after then failed bad_edge else rest

-- The second loop, from node `i` on: the nodes that nothing precedes, in order.
unfoldable pub sources : ℕ → List ℕ → List ℕ
sources i [] = []
sources i (d ∷ indegree) = let rest = sources (suc i) indegree in if d == 0 then i ∷ rest else rest

-- `pending` is queue[head .. tail) and `order` is order[0 .. produced).
pub record Search : Type 0 where
  pub indegree : List ℕ
  pub pending : List ℕ
  pub order : List ℕ

-- `x--` on a `size_t`.
abbrev pub decrement : ℕ → ℕ
decrement x = (x + word64 - 1) % word64

-- The body of the inner loop for an edge out of `current`.
unfoldable pub relax_edge : ℕ → Search → Search
relax_edge next s =
    let d = decrement (get_or s.indegree next 0) in
    let pending = if d == 0 then s.pending ++ next ∷ [] else s.pending in
    record s { indegree = set s.indegree next d; pending = pending }

-- The inner loop.
unfoldable pub relax : ℕ → List Edge → Search → Search
relax current [] s = s
relax current (e ∷ edges) s =
    relax current edges (if e.before == current then relax_edge e.after s else s)

-- One round of the outer loop, after `current` left the head of the queue.
unfoldable pub expand : List Edge → Search → ℕ → List ℕ → Search
expand edges s current rest =
    relax current edges (record s { pending = rest; order = s.order ++ current ∷ [] })

-- The outer loop; `none` where the fuel runs out.
unfoldable pub search_loop : List Edge → ℕ → Search → Option Search
search_loop edges zero s = elim s.pending [ [] ↦ some s | _ ∷ _ ↦ none ]
search_loop edges (suc fuel) s = elim s.pending [
  | [] ↦ some s
  | current ∷ rest ↦ search_loop edges fuel (expand edges s current rest)
]

-- The end: every node must have been produced.
unfoldable pub finish : ℕ → Option Search → Outcome (List ℕ)
finish n none = fault
finish n (some s) = if length s.order == n then done s.order else failed cycle_found

abbrev pub start : ℕ → List ℕ → Search
start n indegree = record { indegree = indegree; pending = sources 0 indegree; order = [] }

unfoldable pub sort_counted : ℕ → List Edge → Outcome (List ℕ) → Outcome (List ℕ)
sort_counted n edges (failed e) = failed e
sort_counted n edges fault = fault
sort_counted n edges (done indegree) = finish n (search_loop edges n (start n indegree))

-- mg_graph_topological_order after its allocations, on `node_count` and the edges.
unfoldable pub topological_sort : ℕ → List Edge → Outcome (List ℕ)
topological_sort n edges = sort_counted n edges (count_indegrees n edges (replicate n 0))

-- mg_graph_topological_order; the result is what it leaves in `order`.
unfoldable pub topological_order : Graph → M Heap (List ℕ)
unfolding malloc
topological_order g h =
    let n = length g.nodes in
    let (indegree, h1) = malloc h in
    let (queue, h2) = malloc h1 in
    if n == 0
    then (done [], h)
    else if is_given indegree && is_given queue
    then (topological_sort n g.edges, h2)
    else (failed (oom_at Stage.validate), h2)

abbrev discard : Outcome (List ℕ) × Heap → Outcome (Unit {0}) × Heap
discard (done order, h) = (done tt, h)
discard (failed e, h) = (failed e, h)
discard (fault, h) = (fault, h)

-- mgGraphValidate.
unfoldable pub graph_validate : Graph → M Heap (Unit {0})
unfolding malloc
graph_validate g h =
    let (order, h1) = malloc h in
    if length g.nodes == 0
    then (done tt, h)
    else if is_given order
    then discard (topological_order g h1)
    else (failed (oom_at Stage.validate), h1)
