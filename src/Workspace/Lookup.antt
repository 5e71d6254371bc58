-- ===== src/Workspace/Lookup.antt =====
-- mg_workspace_plan_offset_for_node of src/core/arena.c finds the range of every node of the plan.
use metal_graph.Base.{ℕ, ◌+◌, ◌%◌, ◌≤◌, ◌≡◌, true, false, ◌==◌, List, [], ◌∷◌, arith, All, ==_iff}
use metal_graph.Outcome.{done}
use metal_graph.Topology.Counts.{mem, NoDup}
use metal_graph.Workspace.{WorkspaceRecord, Demand, offset_for_node}
use metal_graph.Workspace.Layout.{LaidOut, LaidOut-within, Serves}

abbrev pub demand_ids : List Demand → List ℕ
demand_ids [] = []
demand_ids (d ∷ ds) = d.node_id ∷ demand_ids ds

-- The lookup gives an aligned range of the demanded size within the total.
pub record Located (rs : List WorkspaceRecord) (total : ℕ) (d : Demand) : Type 0 where
  pub offset : ℕ
  pub is_found : offset_for_node rs d.node_id ≡ done offset
  pub aligned : offset % d.alignment ≡ 0
  pub within : offset + d.size ≤ total

Located-tail :
    (r : WorkspaceRecord) (rs : List WorkspaceRecord) (total : ℕ) (d : Demand)
    → (r.node_id == d.node_id) ≡ false
    → Located rs total d
    → Located (r ∷ rs) total d
unfolding offset_for_node
Located-tail r rs total d other l = record {
  offset = l.offset;
  is_found = rw other l.is_found;
  aligned = l.aligned;
  within = l.within;
}

Located-head :
    (from total : ℕ) (d : Demand) (r : WorkspaceRecord) (rs : List WorkspaceRecord)
    → Serves from d r
    → r.offset + r.size ≤ total
    → Located (r ∷ rs) total d
unfolding offset_for_node
Located-head from total d r rs s h =
    let test : (r.node_id == d.node_id) ≡ true = let e = s.node_id in ground arith in
    record {
      offset = r.offset;
      is_found = rw test;
      aligned = s.offset.multiple;
      within = let e = s.size in omega arith;
    }

Located-tails :
    (r : WorkspaceRecord) (rs : List WorkspaceRecord) (total : ℕ) (ds : List Demand)
    → mem r.node_id (demand_ids ds) ≡ false
    → All (Located rs total) ds
    → All (Located (r ∷ rs) total) ds
Located-tails r rs total [] new ls = tt
Located-tails r rs total (d ∷ ds) new ls = (
  Located-tail r rs total d (ground (arith, ==_iff r.node_id d.node_id, ==_iff d.node_id r.node_id))
      ls.0,
  Located-tails r rs total ds (ground arith) ls.1,
)

-- In a layout of demands with distinct node ids the lookup succeeds for each of these ids, with an
-- offset that is aligned as demanded and from which the demanded size lies within the total.
pub offset_for_node-Located :
    (from : ℕ) (ds : List Demand) (rs : List WorkspaceRecord) (total : ℕ)
    → LaidOut from ds rs total
    → NoDup (demand_ids ds)
    → All (Located rs total) ds
offset_for_node-Located from [] [] total l d = tt
offset_for_node-Located from (d ∷ ds) (r ∷ rs) total (s, l) (new, rest) = (
  Located-head from total d r rs s (LaidOut-within (r.offset + r.size) ds rs total l).0,
  Located-tails r rs total ds (rw (← s.node_id) at new)
      (offset_for_node-Located (r.offset + r.size) ds rs total l rest),
)
offset_for_node-Located from [] (r ∷ rs) total l d = absurd l
offset_for_node-Located from (x ∷ ds) [] total l d = absurd l
