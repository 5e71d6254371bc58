-- ===== src/Workspace/Apart.antt =====
-- The ranges that mg_workspace_plan_offset_for_node of src/core/arena.c finds for two demands do not
-- overlap.
use metal_graph.Base.{
  ℕ, ◌+◌, ◌≤◌, ◌≡◌, ◌≢◌, ap, true, false, ◌==◌, ◌⊎◌, inl, inr, List, [], ◌∷◌, arith, Bool-cases,
  ==_iff, All,
}
use mathlib.Core.List.{Memᴰ}
use mathlib.Core.List.Memᴰ
use metal_graph.Outcome.{done}
use metal_graph.Topology.Counts.{mem, NoDup}
use metal_graph.Workspace.{Demand, WorkspaceRecord, offset_for_node}
use metal_graph.Workspace.Layout.{LaidOut}
use metal_graph.Workspace.Lookup.{demand_ids}

-- Every element of a list has what all have.
pub All-Mem {ℓ} : {A : Type 0} (P : A → Type ℓ) (xs : List A) (x : A) → All P xs → Memᴰ x xs → P x
All-Mem P [] x all m = absurd (Memᴰ.not-nil m)
All-Mem P (y ∷ ys) x all m = elim (Memᴰ.cases_cons m) [
  | inl same ↦ rw same all.0
  | inr rest ↦ All-Mem P ys x all.1 rest
]

Mem-id : (ds : List Demand) (d : Demand) → Memᴰ d ds → mem d.node_id (demand_ids ds) ≡ true
Mem-id [] d m = absurd (Memᴰ.not-nil m)
Mem-id (x ∷ ds) d m = elim (Memᴰ.cases_cons m) [
  | inl same ↦
      let id_is : d.node_id ≡ x.node_id = ap (λ (y : Demand). y.node_id) same in
      ground (arith, ==_iff x.node_id d.node_id)
  | inr rest ↦ ground (arith, Mem-id ds d rest)
]

-- What the lookup finds lies behind the start of the layout.
found-ge :
    (from : ℕ) (ds : List Demand) (rs : List WorkspaceRecord) (total id a : ℕ)
    → LaidOut from ds rs total
    → offset_for_node rs id ≡ done a
    → from ≤ a
unfolding offset_for_node
found-ge from ds [] total id a l e = cc
found-ge from [] (r ∷ rs) total id a l e = absurd l
found-ge from (d ∷ ds) (r ∷ rs) total id a (s, l) e =
    let above = s.offset.above in
    elim (Bool-cases (r.node_id == id)) [
      | inl here ↦
          let is_here : done r.offset ≡ done a = rw here at e in
          let a_is : r.offset ≡ a = cc in omega arith
      | inr there ↦
          let behind = found-ge (r.offset + r.size) ds rs total id a l (rw there at e) in
          omega arith
    ]

-- The range of `d` from `a` on and that of `e` from `b` on.
abbrev pub Apart : Demand → ℕ → Demand → ℕ → Type 0
Apart d a e b = (a + d.size ≤ b) ⊎ (b + e.size ≤ a)

-- The ranges found for two demands with different ids.
pub found-Apart :
    (from : ℕ) (ds : List Demand) (rs : List WorkspaceRecord) (total : ℕ) (d e : Demand) (a b : ℕ)
    → LaidOut from ds rs total
    → NoDup (demand_ids ds)
    → Memᴰ d ds
    → Memᴰ e ds
    → d.node_id ≢ e.node_id
    → offset_for_node rs d.node_id ≡ done a
    → offset_for_node rs e.node_id ≡ done b
    → Apart d a e b
unfolding offset_for_node
found-Apart from [] rs total d e a b l distinct m n ne at_a at_b = absurd (Memᴰ.not-nil m)
found-Apart from (x ∷ ds) [] total d e a b l distinct m n ne at_a at_b = absurd l
found-Apart from (x ∷ ds) (r ∷ rs) total d e a b (s, l) (new, distinct) m n ne at_a at_b =
    let id_is = s.node_id in
    let size_is = s.size in
    elim (Memᴰ.cases_cons m) [
      | inl d_first ↦
          let d_id : d.node_id ≡ x.node_id = ap (λ (y : Demand). y.node_id) d_first in
          let d_size : d.size ≡ x.size = ap (λ (y : Demand). y.size) d_first in
          let hit : (r.node_id == d.node_id) ≡ true = ground arith in
          let miss : (r.node_id == e.node_id) ≡ false = ground arith in
          let is_here : done r.offset ≡ done a = rw hit at at_a in
          let a_is : r.offset ≡ a = cc in
          let behind = found-ge (r.offset + r.size) ds rs total e.node_id b l (rw miss at at_b) in
          inl (omega arith)
      | inr d_rest ↦ elim (Memᴰ.cases_cons n) [
        | inl e_first ↦
            let e_id : e.node_id ≡ x.node_id = ap (λ (y : Demand). y.node_id) e_first in
            let e_size : e.size ≡ x.size = ap (λ (y : Demand). y.size) e_first in
            let hit : (r.node_id == e.node_id) ≡ true = ground arith in
            let miss : (r.node_id == d.node_id) ≡ false = ground arith in
            let is_here : done r.offset ≡ done b = rw hit at at_b in
            let b_is : r.offset ≡ b = cc in
            let behind = found-ge (r.offset + r.size) ds rs total d.node_id a l (rw miss at at_a) in
            inr (omega arith)
        | inr e_rest ↦
            let d_seen = Mem-id ds d d_rest in
            let e_seen = Mem-id ds e e_rest in
            let miss_d : (r.node_id == d.node_id) ≡ false =
              ground (arith, ==_iff r.node_id d.node_id) in
            let miss_e : (r.node_id == e.node_id) ≡ false =
              ground (arith, ==_iff r.node_id e.node_id) in
            found-Apart (r.offset + r.size) ds rs total d e a b l distinct d_rest e_rest ne
              (rw miss_d at at_a) (rw miss_e at at_b)
      ]
    ]
