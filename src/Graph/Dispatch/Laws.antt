-- ===== src/Graph/Dispatch/Laws.antt =====
-- mgGraphAddDispatchNode of src/core/graph.c on every branch.
use metal_graph.Base.{
  length, ◌<◌, ◌≡◌, refl, ap, Bool, true, false, not, leb, Option, none, some, List, [], arith,
  All_mono,
}
use metal_graph.Outcome.{Outcome, done, failed, fault, M, after, ◌>>=◌, ◌>>◌, require}
use metal_graph.Heap.Refs.{Ref}
use metal_graph.Node.{DispatchDesc, Node, binding_refs, array_items}
use metal_graph.Graph.{State, NodeRef, alloc_node, commit_node, fresh_node, invalid}
use metal_graph.Graph.Holding.{
  Ends, Ends-bind, Ends-map, Holding, Holding-refl, HasRoom, Made, alloc_node-Ends,
}
use metal_graph.Graph.Adding.{Added, CountersFit, commit_node-Added}
use metal_graph.Graph.Checks.{IsLive}
use metal_graph.Exec.PatchDispatch.{grid_within}
use metal_graph.Graph.Dispatch.{
  dispatch_of, max_grid_of, copy_strings, check_parts, copy_parts, add_dispatch, add_dispatch_node,
  offset_scalars, desc_complete, is_missing,
}
use metal_graph.Graph.Dispatch.Reads.{Reads, check_parts-Reads}
use metal_graph.Graph.Dispatch.Copies.{Takes, copy_strings-Ends, copy_parts-Ends}

-- The node of an accepted dispatch descriptor.
abbrev pub DispatchAdded : Option DispatchDesc → State → NodeRef → State → Type 0
DispatchAdded desc s ref t =
    (d : DispatchDesc) × (desc ≡ some d)
    × (desc_complete d ≡ true)
    × (grid_within d.grid_size (max_grid_of d) ≡ true)
    × Added (dispatch_of d) s ref t

abbrev pub dispatch_desc_refs : Option DispatchDesc → List Ref
dispatch_desc_refs none = []
dispatch_desc_refs (some d) = binding_refs (array_items d.buffers)

pub require-Ends :
    (Q : NodeRef → State → Type 0) (E : State → Type 0) (b : Bool) (e : metal_graph.Outcome.Failure)
    (rest : M State NodeRef) (s : State)
    → E s
    → (b ≡ true → Ends Q E (rest s))
    → Ends Q E ((require b e >> rest) s)
require-Ends Q E true e rest s h f = f refl
require-Ends Q E false e rest s h f = h

-- From the test of the parts on, the node is filled and committed.
fill_parts-Ends :
    (d : DispatchDesc) (s t : State) (n : Node) (Q : NodeRef → State → Type 0)
    → Holding [] s t
    → n ≡ fresh_node (dispatch_of d) s.graph
    → length s.graph.nodes < t.graph.node_capacity
    → IsLive s.heap (binding_refs (array_items d.buffers))
    → CountersFit s (binding_refs (array_items d.buffers))
    → (grid_within d.grid_size (max_grid_of d) ≡ true
        → (ref : NodeRef) (u : State) → Added (dispatch_of d) s ref u
        → Q ref u)
    → Ends Q (Holding [] s) ((check_parts d >> (copy_parts d >> commit_node n)) t)
fill_parts-Ends d s t n Q h n_is more live fits f =
    let G = grid_within d.grid_size (max_grid_of d) ≡ true in
    let refs = binding_refs (array_items d.buffers) in
    let E = Holding [] s in
    let live_now = All_mono _ _ (λ r p. omega (arith, p, h.heap.counts r)) refs live in
    Ends-bind (λ _ u. Holding [] s u × (u.graph ≡ t.graph) × G) Q E (check_parts d t)
      (λ _. copy_parts d >> commit_node n)
      (reads (check_parts d t) (check_parts-Reads d t live_now))
      λ _ u (k, same, grid).
        Ends-bind (Takes refs s u) Q E (copy_parts d u) (λ _. commit_node n)
          (copy_parts-Ends d s u k live fits)
          λ _ v (l, same').
            Ends-map (Added (dispatch_of d) s) Q E (commit_node n v) (f grid)
              (commit_node-Added (dispatch_of d) s v E n n_is l (rw (same', same) more))
  where
    reads :
        (r : Outcome (Unit {0}) × State)
        → Reads t (grid_within d.grid_size (max_grid_of d) ≡ true) r
        → Ends
            (λ (_ : Unit {0}) u.
              Holding [] s u
              × (u.graph ≡ t.graph)
              × (grid_within d.grid_size (max_grid_of d) ≡ true))
            (Holding [] s)
            r
    reads (done a, u) (same, g) = (rw same h, ap (λ (x : State). x.graph) same, g)
    reads (failed e, u) same = rw same h
    reads (fault, u) bad = bad

-- mgGraphAddDispatchNode never reads a dead object. It fails with the graph and all counts as they
-- were, even where an allocation fails after the buffers were retained, or the descriptor was complete,
-- its grid is within the maximum that the node gets, the node is the last of the graph, and the graph
-- holds one more reference for each of its bindings.
pub add_dispatch_node-Ends :
    (desc : Option DispatchDesc) (out_node : Bool) (s : State)
    → HasRoom s.graph
    → IsLive s.heap (dispatch_desc_refs desc)
    → CountersFit s (dispatch_desc_refs desc)
    → Ends (DispatchAdded desc s) (Holding [] s) (add_dispatch_node desc out_node s)
unfolding add_dispatch_node add_dispatch
add_dispatch_node-Ends none out_node s room live fits = Holding-refl s
add_dispatch_node-Ends (some d) false s room live fits = Holding-refl s
add_dispatch_node-Ends (some d) true s room live fits =
    let E = Holding [] s in
    let Q = DispatchAdded (some d) s in
    let e1 = invalid "dispatch descriptor size is invalid" in
    let e2 = invalid "dispatch descriptor is incomplete" in
    let e3 = invalid "dispatch buffer bindings are required" in
    let k3 = λ (n : Node). copy_strings >> (check_parts d >> (copy_parts d >> commit_node n)) in
    let k2 = alloc_node (dispatch_of d) >>= k3 in
    let k1 = require (not (is_missing d.buffers)) e3 >> k2 in
    require-Ends Q E (leb offset_scalars d.size) e1 (require (desc_complete d) e2 >> k1) s
      (Holding-refl s)
      λ _. require-Ends Q E (desc_complete d) e2 k1 s (Holding-refl s) λ complete.
        require-Ends Q E (not (is_missing d.buffers)) e3 k2 s (Holding-refl s) λ _.
          Ends-bind (Made (dispatch_of d) s) Q E (alloc_node (dispatch_of d) s) k3
            (alloc_node-Ends (dispatch_of d) s room)
            λ n t (h, n_is, more).
              Ends-bind (Takes [] s t) Q E (copy_strings t)
                (λ _. check_parts d >> (copy_parts d >> commit_node n)) (copy_strings-Ends [] s t h)
                λ _ u (k, same).
                  fill_parts-Ends d s u n Q k n_is (rw same more) live fits
                    (λ grid ref v added. (d, refl, complete, grid, added))
