-- ===== src/Graph/Tensors/Node.antt =====
-- mgGraphAddMPSGraphNode of src/core/graph.c on every branch.
use metal_graph.Base.{
  ◌≡◌, refl, sym, Bool, true, false, Option, none, some, List, [], ◌++◌, arith, All-append_left,
  All-append_right, subst,
}
use metal_graph.Outcome.{Outcome, done, failed, fault, M, ◌>>=◌, ◌>>◌}
use metal_graph.Heap.{buffer_counted}
use metal_graph.Heap.Refs.{Ref}
use metal_graph.Heap.RefLists.{count-append}
use metal_graph.Node.{MpsGraphDesc, payload_refs, array_items}
use metal_graph.Graph.{
  State, NodeRef, touch, allocate, on_failure, alloc_node, commit_node, invalid,
}
use metal_graph.Graph.Holding.{
  Ends, Ends-bind, Ends-map, Holding, Holding-refl, Holding-perm, HasRoom, Made, alloc_node-Ends,
  allocate-Ends,
}
use metal_graph.Graph.Adding.{Added, CountersFit, commit_node-Added}
use metal_graph.Graph.Checks.{IsLive}
use metal_graph.Graph.Lifetime.{release_tensors}
use metal_graph.Graph.Dispatch.Reads.{Reads}
use metal_graph.Graph.Dispatch.Copies.{Takes, Takes-then}
use metal_graph.Graph.Dispatch.Laws.{require-Ends}
use metal_graph.Graph.Tensors.{
  check_tensors, clone_array, clone_parts, mpsgraph_complete, tensors_of, mpsgraph_of, add_mpsgraph,
  add_mpsgraph_node,
}
use metal_graph.Graph.Tensors.Laws.{
  desc_refs, check_tensors-Reads, clone_array-Ends, recover_tensors-Ends,
}

-- The copies of the tensors: all references to their buffers are taken, or none.
clone_parts-Ends :
    (d : MpsGraphDesc) (s u : State)
    → Holding [] s u
    → IsLive s.heap (payload_refs (mpsgraph_of d))
    → CountersFit s (payload_refs (mpsgraph_of d))
    → Ends (Takes (payload_refs (mpsgraph_of d)) s u) (Holding [] s) (clone_parts d u)
unfolding clone_parts
clone_parts-Ends d s u h live fits =
    let feeds = desc_refs (array_items d.feeds) in
    let targets = desc_refs (array_items d.targets) in
    let both = λ (r : Ref). count-append r feeds targets in
    let rest =
      on_failure (clone_array (array_items d.targets))
        (touch (release_tensors (tensors_of d.feeds))) in
    Takes-then [] (feeds ++ []) (feeds ++ targets) s u (clone_array (array_items d.feeds)) rest
      (clone_array-Ends [] (array_items d.feeds) s u h (All-append_left _ feeds targets live)
        (λ r. omega (arith, fits r, both r)))
      λ v k.
        Ends-map (Takes (targets ++ (feeds ++ [])) s v) (Takes (feeds ++ targets) s v)
          (Holding [] s) (rest v)
          (λ _ w (l, same). (
            Holding-perm (targets ++ (feeds ++ [])) (feeds ++ targets) s w
                (λ r.
                  omega
                    (arith, both r, count-append r targets (feeds ++ []), count-append r feeds []))
                l,
            same,
          ))
          (recover_tensors-Ends (Takes (targets ++ (feeds ++ [])) s v) [] (feeds ++ [])
            (tensors_of d.feeds) s (clone_array (array_items d.targets) v)
            (λ r. count-append r feeds [])
            (clone_array-Ends (feeds ++ []) (array_items d.targets) s v k
              (All-append_right _ feeds targets live)
              (λ r. omega (arith, fits r, both r, count-append r feeds []))))

-- The node of an accepted MPSGraph descriptor.
abbrev pub MpsGraphAdded : Option MpsGraphDesc → State → NodeRef → State → Type 0
MpsGraphAdded desc s ref t =
    (d : MpsGraphDesc) × (desc ≡ some d)
    × (mpsgraph_complete d ≡ true)
    × Added (mpsgraph_of d) s ref t

abbrev pub mpsgraph_desc_refs : Option MpsGraphDesc → List Ref
mpsgraph_desc_refs none = []
mpsgraph_desc_refs (some d) = payload_refs (mpsgraph_of d)

-- From the allocation of the node on.
build_node-Ends :
    (d : MpsGraphDesc) (s : State) (Q : NodeRef → State → Type 0)
    → HasRoom s.graph
    → IsLive s.heap (payload_refs (mpsgraph_of d))
    → CountersFit s (payload_refs (mpsgraph_of d))
    → ((ref : NodeRef) (u : State) → Added (mpsgraph_of d) s ref u → Q ref u)
    → Ends Q
        (Holding [] s)
        ((alloc_node (mpsgraph_of d) >>= λ n. allocate >> (clone_parts d >> commit_node n)) s)
build_node-Ends d s Q room live fits f =
    let E = Holding [] s in
    let payload = mpsgraph_of d in
    Ends-bind (Made payload s) Q E (alloc_node payload s)
      (λ n. allocate >> (clone_parts d >> commit_node n)) (alloc_node-Ends payload s room)
      λ n t (h, n_is, more).
        Ends-bind (Takes [] s t) Q E (allocate t) (λ _. clone_parts d >> commit_node n)
          (allocate-Ends [] s t h)
          λ _ u (k, same).
            Ends-bind (Takes (payload_refs payload) s u) Q E (clone_parts d u) (λ _. commit_node n)
              (clone_parts-Ends d s u k live fits)
              λ _ v (l, same').
                Ends-map (Added payload s) Q E (commit_node n v) f
                  (commit_node-Added payload s v E n n_is l (rw (same', same) more))

Reads-Ends :
    (s : State) (Q : NodeRef → State → Type 0) (m : M State (Unit {0})) (rest : M State NodeRef)
    → Reads s (Unit {0}) (m s)
    → Ends Q (Holding [] s) (rest s)
    → Ends Q (Holding [] s) ((m >> rest) s)
Reads-Ends s Q m rest h f =
    Ends-bind (λ _ u. (u ≡ s) × Unit {0}) Q (Holding [] s) (m s) (λ _. rest) (weaken (m s) h)
      λ _ u (same, _). subst (λ v. Ends Q (Holding [] s) (rest v)) (sym same) f
  where
    weaken :
        (r : Outcome (Unit {0}) × State)
        → Reads s (Unit {0}) r
        → Ends (λ (_ : Unit {0}) u. (u ≡ s) × Unit {0}) (Holding [] s) r
    weaken (done a, u) p = p
    weaken (failed e, u) same = rw same (Holding-refl s)
    weaken (fault, u) bad = bad

-- mgGraphAddMPSGraphNode never reads a dead object. It fails with the graph and all counts as they
-- were, even where an allocation fails after some of the tensors were cloned, or the descriptor was
-- complete, the node is the last of the graph, and the graph holds one more reference for each of its
-- feeds and targets.
pub add_mpsgraph_node-Ends :
    (desc : Option MpsGraphDesc) (out_node : Bool) (s : State)
    → HasRoom s.graph
    → IsLive s.heap (mpsgraph_desc_refs desc)
    → CountersFit s (mpsgraph_desc_refs desc)
    → Ends (MpsGraphAdded desc s) (Holding [] s) (add_mpsgraph_node desc out_node s)
unfolding add_mpsgraph_node add_mpsgraph
add_mpsgraph_node-Ends none out_node s room live fits = Holding-refl s
add_mpsgraph_node-Ends (some d) false s room live fits = Holding-refl s
add_mpsgraph_node-Ends (some d) true s room live fits =
    let E = Holding [] s in
    let Q = MpsGraphAdded (some d) s in
    let feeds = desc_refs (array_items d.feeds) in
    let targets = desc_refs (array_items d.targets) in
    let k3 = alloc_node (mpsgraph_of d) >>= λ n. allocate >> (clone_parts d >> commit_node n) in
    let k2 = check_tensors (array_items d.targets) >> k3 in
    let k1 = check_tensors (array_items d.feeds) >> k2 in
    require-Ends Q E (mpsgraph_complete d) (invalid "MPSGraph descriptor is incomplete") k1 s
      (Holding-refl s)
      λ complete.
        Reads-Ends s Q (check_tensors (array_items d.feeds)) k2
          (check_tensors-Reads (array_items d.feeds) s (All-append_left _ feeds targets live))
          (Reads-Ends s Q (check_tensors (array_items d.targets)) k3
            (check_tensors-Reads (array_items d.targets) s (All-append_right _ feeds targets live))
            (build_node-Ends d s Q room live fits (λ ref u a. (d, refl, complete, a))))
