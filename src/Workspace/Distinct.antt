-- ===== src/Workspace/Distinct.antt =====
-- The demands of the nodes of a well-formed graph in an order of its nodes: src/core/arena.c meets
-- each node once, so no id stands twice, and none of the nodes is missed.
use metal_graph.Base.{
  ℕ, ◌+◌, ◌<◌, ◌≡◌, ◌≢◌, refl, Option, none, some, true, false, ◌==◌, List, [], ◌∷◌, length,
  get_elem?, get_elem?_of_lt, arith, word64, Bool-cases, inl, inr, ==_iff,
}
use mathlib.Core.List.{Memᴰ}
use metal_graph.Node.{
  Node, Payload, dispatch, copy, fill, event_wait, event_signal, barrier, mpsgraph, workspace,
  workspace_fill,
}
use metal_graph.Graph.Invariant.{Numbered, Numbered-id}
use metal_graph.Topology.Counts.{mem, NoDup}
use metal_graph.Workspace.{Demand, node_demand}
use metal_graph.Workspace.Layout.{demands, prepend}
use metal_graph.Workspace.Plan.{OrderWithin}
use metal_graph.Workspace.Lookup.{demand_ids}

-- A demand names its node.
demand_id :
    (id : ℕ) (payload : Payload) (d : Demand) → node_demand id payload ≡ some d → d.node_id ≡ id
unfolding node_demand
demand_id id (dispatch x) d e = cc
demand_id id (copy x) d e = cc
demand_id id (fill x) d e = cc
demand_id id (event_wait x) d e = cc
demand_id id (event_signal x) d e = cc
demand_id id barrier d e = cc
demand_id id (mpsgraph x) d e = cc
demand_id id (workspace w) d e = ground arith
demand_id id (workspace_fill w) d e = ground arith

mem-prepend :
    (o : Option Demand) (ds : List Demand) (v : ℕ)
    → ((d : Demand) → o ≡ some d → d.node_id ≢ v)
    → mem v (demand_ids ds) ≡ false
    → mem v (demand_ids (prepend o ds)) ≡ false
mem-prepend none ds v other new = new
mem-prepend (some d) ds v other new = let ne = other d refl in ground (arith, ==_iff d.node_id v)

prepend-NoDup :
    (o : Option Demand) (ds : List Demand)
    → ((d : Demand) → o ≡ some d → mem d.node_id (demand_ids ds) ≡ false)
    → NoDup (demand_ids ds)
    → NoDup (demand_ids (prepend o ds))
prepend-NoDup none ds new rest = rest
prepend-NoDup (some d) ds new rest = (new d refl, rest)

prepend-tail :
    (o : Option Demand) (ds : List Demand) (d : Demand) → Memᴰ d ds → Memᴰ d (prepend o ds)
prepend-tail none ds d m = m
prepend-tail (some x) ds d m = Memᴰ.tail m

-- Nodes that are numbered, with ids that do not wrap around.
module _ (address : ℕ) (nodes : List Node) (numbered : Numbered address 0 nodes)
    (small : length nodes + 1 < word64) where
  -- The id that a demand of the node at a place has.
  pub id_at :
      (i : ℕ) (n : Node) (d : Demand)
      → i < length nodes
      → get_elem? nodes i ≡ some n
      → node_demand n.id n.payload ≡ some d
      → d.node_id ≡ i + 1
  id_at i n d h e f =
      let id_is = Numbered-id address 0 nodes i n numbered e in
      let named = demand_id n.id n.payload d f in omega arith

  demands_new :
      (i : ℕ) (order : List ℕ)
      → OrderWithin nodes order
      → mem i order ≡ false
      → mem (i + 1) (demand_ids (demands nodes order)) ≡ false
  unfolding demands
  demands_new i [] within new = refl
  demands_new i (j ∷ order) within new =
      let (m, e) = get_elem?_of_lt nodes j within.0 in
      let rest = demands_new i order within.1 (ground arith) in
      rw (e, demands)
        (mem-prepend (node_demand m.id m.payload) (demands nodes order) (i + 1)
          (λ d f same. let id_is = id_at j m d within.0 e f in ground (arith, ==_iff j i)) rest)

  -- In an order without repetitions no id is demanded twice.
  pub demands-NoDup :
      (order : List ℕ)
      → OrderWithin nodes order
      → NoDup order
      → NoDup (demand_ids (demands nodes order))
  unfolding demands
  demands-NoDup [] within distinct = tt
  demands-NoDup (j ∷ order) within distinct =
      let (m, e) = get_elem?_of_lt nodes j within.0 in
      rw (e, demands)
        (prepend-NoDup (node_demand m.id m.payload) (demands nodes order)
          (λ d f. rw (id_at j m d within.0 e f) (demands_new j order within.1 distinct.0))
          (demands-NoDup order within.1 distinct.1))

-- Every demand of a node in the order is met.
pub demands-Mem :
    (nodes : List Node) (order : List ℕ) (i : ℕ) (n : Node) (d : Demand)
    → OrderWithin nodes order
    → mem i order ≡ true
    → get_elem? nodes i ≡ some n
    → node_demand n.id n.payload ≡ some d
    → Memᴰ d (demands nodes order)
unfolding demands
demands-Mem nodes [] i n d within m e f = cc
demands-Mem nodes (j ∷ order) i n d within m e f = elim (Bool-cases (j == i)) [
  | inl here ↦
      let at_j : get_elem? nodes j ≡ some n = rw ((==_iff j i).0 here) e in
      rw (at_j, demands, f) (Memᴰ.head refl)
  | inr there ↦
      let (x, at_j) = get_elem?_of_lt nodes j within.0 in
      rw (at_j, demands)
        (prepend-tail (node_demand x.id x.payload) (demands nodes order) d
          (demands-Mem nodes order i n d within.1 (ground arith) e f))
]
