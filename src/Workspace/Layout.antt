-- ===== src/Workspace/Layout.antt =====
-- What a workspace plan promises: the ranges of the nodes, in order, aligned, disjoint, and within the
-- total.
use metal_graph.Base.{
  ℕ, ◌+◌, ◌≤◌, ◌<◌, ◌≡◌, refl, Option, none, some, List, [], ◌∷◌, ◌++◌, get_elem?, arith, All,
  All_mono, word64,
}
use metal_graph.Node.{Node}
use metal_graph.Align.Laws.{RoundsUp}
use metal_graph.Workspace.{Demand, WorkspaceRecord, node_demand}

-- The demands of the nodes, in the order of execution.
abbrev pub prepend : Option Demand → List Demand → List Demand
prepend none ds = ds
prepend (some d) ds = d ∷ ds

unfoldable pub demands : List Node → List ℕ → List Demand
demands nodes [] = []
demands nodes (i ∷ order) = elim (get_elem? nodes i) [
  | none ↦ demands nodes order
  | some node ↦ prepend (node_demand node.id node.payload) (demands nodes order)
]

-- A record serves a demand from the position `from` on.
pub record Serves (from : ℕ) (d : Demand) (r : WorkspaceRecord) : Type 0 where
  pub node_id : r.node_id ≡ d.node_id
  pub size : r.size ≡ d.size
  pub alignment : r.alignment ≡ d.alignment
  pub offset : RoundsUp from d.alignment r.offset
  pub fits : r.offset + r.size < word64

-- The records serve the demands one by one, each from the end of the one before, and end at `total`.
abbrev pub LaidOut : ℕ → List Demand → List WorkspaceRecord → ℕ → Type 0
LaidOut from [] [] total = from ≡ total
LaidOut from (d ∷ ds) (r ∷ rs) total = Serves from d r × LaidOut (r.offset + r.size) ds rs total
LaidOut from [] (r ∷ rs) total = ⊥
LaidOut from (d ∷ ds) [] total = ⊥

pub LaidOut-snoc :
    (from : ℕ) (ds : List Demand) (rs : List WorkspaceRecord) (total : ℕ) (d : Demand)
    (r : WorkspaceRecord)
    → LaidOut from ds rs total
    → Serves total d r
    → LaidOut from (ds ++ d ∷ []) (rs ++ r ∷ []) (r.offset + r.size)
LaidOut-snoc from [] [] total d r l s = (rw l s, refl)
LaidOut-snoc from (x ∷ ds) (y ∷ rs) total d r l s =
    (l.0, LaidOut-snoc (y.offset + y.size) ds rs total d r l.1 s)
LaidOut-snoc from [] (y ∷ rs) total d r l s = absurd l
LaidOut-snoc from (x ∷ ds) [] total d r l s = absurd l

-- Every range lies between the start and the total.
pub LaidOut-within :
    (from : ℕ) (ds : List Demand) (rs : List WorkspaceRecord) (total : ℕ)
    → LaidOut from ds rs total
    → (from ≤ total)
      × All (λ (r : WorkspaceRecord). (from ≤ r.offset) × (r.offset + r.size ≤ total)) rs
LaidOut-within from [] [] total l = (omega arith, tt)
LaidOut-within from (d ∷ ds) (r ∷ rs) total (s, l) =
    let (more, rest) = LaidOut-within (r.offset + r.size) ds rs total l in
    let above = s.offset.above in
    (omega arith, ((above, more), All_mono _ _ (λ x p. (omega (arith, p.0), p.1)) rs rest))
LaidOut-within from [] (r ∷ rs) total l = absurd l
LaidOut-within from (d ∷ ds) [] total l = absurd l

-- No two of the ranges overlap.
abbrev pub Disjoint : List WorkspaceRecord → Type 0
Disjoint [] = Unit {0}
Disjoint (r ∷ rs) = All (λ (x : WorkspaceRecord). r.offset + r.size ≤ x.offset) rs × Disjoint rs

pub LaidOut-Disjoint :
    (from : ℕ) (ds : List Demand) (rs : List WorkspaceRecord) (total : ℕ)
    → LaidOut from ds rs total
    → Disjoint rs
LaidOut-Disjoint from [] [] total l = tt
LaidOut-Disjoint from (d ∷ ds) (r ∷ rs) total (s, l) = (
  All_mono _ _ (λ x p. p.0) rs (LaidOut-within (r.offset + r.size) ds rs total l).1,
  LaidOut-Disjoint (r.offset + r.size) ds rs total l,
)
LaidOut-Disjoint from [] (r ∷ rs) total l = absurd l
LaidOut-Disjoint from (d ∷ ds) [] total l = absurd l
