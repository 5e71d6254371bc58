-- ===== src/Workspace/Total.antt =====
-- What the nodes of a graph ask for together, whatever the order in which src/core/arena.c visits
-- them.
use metal_graph.Base.{
  ℕ, zero, suc, ◌+◌, ◌≤◌, ◌<◌, ◌≡◌, refl, true, ◌==◌, Option, none, some, List, [], ◌∷◌, length,
  get_elem?, get_elem?_of_lt, arith, All, word64, Bool-cases, inl, inr,
}
use metal_graph.Node.{Node}
use metal_graph.Topology.Counts.{mem, NoDup}
use metal_graph.Topology.Pigeon.{remove, NoDup-remove, remove_below}
use metal_graph.Workspace.{Demand, node_demand}
use metal_graph.Workspace.Layout.{demands, prepend}
use metal_graph.Workspace.Plan.{WordDemand, WordNodes, OrderWithin}
use metal_graph.Workspace.Budget.{budget, SoundWithin}

-- The sum of a function over a list of places, and over all places below a bound.
total : (ℕ → ℕ) → List ℕ → ℕ
total f [] = 0
total f (x ∷ xs) = f x + total f xs

all_below : (ℕ → ℕ) → ℕ → ℕ
all_below f zero = 0
all_below f (suc n) = f 0 + all_below (λ i. f (suc i)) n

all_below-suc : (f : ℕ → ℕ) (n : ℕ) → all_below f (suc n) ≡ all_below f n + f n
unfolding all_below
all_below-suc f zero = omega arith
all_below-suc f (suc n) = let rest = all_below-suc (λ i. f (suc i)) n in omega arith

total-remove : (f : ℕ → ℕ) (x : ℕ) (xs : List ℕ) → total f xs ≤ f x + total f (remove x xs)
unfolding total remove
total-remove f x [] = omega arith
total-remove f x (y ∷ ys) = elim (Bool-cases (y == x)) [
  | inl s ↦ let same : y ≡ x = ground arith in rw (s, same) (omega arith)
  | inr d ↦ rw d (omega (arith, total-remove f x ys))
]

-- Distinct places below a bound sum up to no more than all places below it.
total-le :
    (f : ℕ → ℕ) (n : ℕ) (xs : List ℕ)
    → NoDup xs
    → ((v : ℕ) → mem v xs ≡ true → v < n)
    → total f xs ≤ all_below f n
unfolding total
total-le f zero [] d h = omega arith
total-le f zero (x ∷ xs) d h = absurd (let bad = h x (ground arith) in omega arith)
total-le f (suc n) xs d h =
    let rest = total-le f n (remove n xs) (NoDup-remove n xs d) (remove_below n xs d h) in
    omega (arith, total-remove f n xs, all_below-suc f n)

abbrev node_cost : Node → ℕ
node_cost n = budget (prepend (node_demand n.id n.payload) [])

-- What all nodes ask for.
abbrev pub node_budget : List Node → ℕ
node_budget [] = 0
node_budget (n ∷ ns) = budget (prepend (node_demand n.id n.payload) []) + node_budget ns

cost_at : List Node → ℕ → ℕ
cost_at [] i = 0
cost_at (n ∷ ns) zero = node_cost n
cost_at (n ∷ ns) (suc i) = cost_at ns i

all_below-cost_at : (ns : List Node) → all_below (cost_at ns) (length ns) ≡ node_budget ns
unfolding all_below cost_at
all_below-cost_at [] = refl
all_below-cost_at (n ∷ ns) = omega (arith, all_below-cost_at ns)

cost_at_lem :
    (ns : List Node) (i : ℕ) (n : Node) → get_elem? ns i ≡ some n → cost_at ns i ≡ node_cost n
unfolding cost_at
cost_at_lem [] i n e = cc
cost_at_lem (m ∷ ns) zero n e = let same : m ≡ n = cc in rw same
cost_at_lem (m ∷ ns) (suc i) n e = cost_at_lem ns i n e

budget-prepend :
    (o : Option Demand) (ds : List Demand)
    → budget (prepend o ds) ≡ budget (prepend o []) + budget ds
budget-prepend none ds = omega arith
budget-prepend (some d) ds = omega arith

budget-demands :
    (nodes : List Node) (order : List ℕ)
    → OrderWithin nodes order
    → budget (demands nodes order) ≡ total (cost_at nodes) order
unfolding demands total
budget-demands nodes [] within = refl
budget-demands nodes (i ∷ order) within =
    let (n, e) = get_elem?_of_lt nodes i within.0 in
    rw (e, demands)
      (omega (
        arith,
        budget-demands nodes order within.1,
        budget-prepend (node_demand n.id n.payload) (demands nodes order),
        cost_at_lem nodes i n e,
      ))

-- An order without repetitions asks for no more than all nodes.
pub budget-le :
    (nodes : List Node) (order : List ℕ)
    → OrderWithin nodes order
    → NoDup order
    → ((v : ℕ) → mem v order ≡ true → v < length nodes)
    → budget (demands nodes order) ≤ node_budget nodes
budget-le nodes order within distinct below = omega (
  arith,
  budget-demands nodes order within,
  total-le (cost_at nodes) (length nodes) order distinct below,
  all_below-cost_at nodes,
)

-- All demands of the nodes are sound.
abbrev pub SoundDemand : ℕ → Option Demand → Type 0
SoundDemand limit none = Unit {0}
SoundDemand limit (some d) = SoundWithin limit d

abbrev pub SoundNodes : ℕ → List Node → Type 0
SoundNodes limit nodes = All (λ (n : Node). SoundDemand limit (node_demand n.id n.payload)) nodes

SoundNodes-at :
    (limit : ℕ) (ns : List Node) (i : ℕ) (n : Node)
    → SoundNodes limit ns
    → get_elem? ns i ≡ some n
    → SoundDemand limit (node_demand n.id n.payload)
SoundNodes-at limit [] i n s e = cc
SoundNodes-at limit (m ∷ ns) zero n s e = let same : m ≡ n = cc in rw (← same) s.0
SoundNodes-at limit (m ∷ ns) (suc i) n s e = SoundNodes-at limit ns i n s.1 e

All-prepend :
    (limit : ℕ) (o : Option Demand) (ds : List Demand)
    → SoundDemand limit o
    → All (SoundWithin limit) ds
    → All (SoundWithin limit) (prepend o ds)
All-prepend limit none ds s rest = rest
All-prepend limit (some d) ds s rest = (s, rest)

-- So are those in any order.
pub demands-SoundWithin :
    (limit : ℕ) (nodes : List Node) (order : List ℕ)
    → OrderWithin nodes order
    → SoundNodes limit nodes
    → All (SoundWithin limit) (demands nodes order)
unfolding demands
demands-SoundWithin limit nodes [] within sound = tt
demands-SoundWithin limit nodes (i ∷ order) within sound =
    let (n, e) = get_elem?_of_lt nodes i within.0 in
    rw (e, demands)
      (All-prepend limit (node_demand n.id n.payload) (demands nodes order)
        (SoundNodes-at limit nodes i n sound e)
        (demands-SoundWithin limit nodes order within.1 sound))

word_demand : (o : Option Demand) → budget (prepend o []) < word64 → WordDemand o
word_demand none h = tt
word_demand (some d) h = record { size = omega arith; alignment = omega arith }

-- What fits a word together does so one by one.
pub node_budget-WordNodes : (ns : List Node) → node_budget ns < word64 → WordNodes ns
node_budget-WordNodes [] h = tt
node_budget-WordNodes (n ∷ ns) h =
    (word_demand (node_demand n.id n.payload) (omega arith), node_budget-WordNodes ns (omega arith))
