-- ===== src/Graph.antt =====
-- src/core/graph.c: the graph, and the steps that its operations share. The state is the heap and the
-- one graph that the operation is given; a graph that is NULL is outside the model.
pub mod Holding
pub mod Capacity
pub mod Adding
pub mod Checks
pub mod Build
pub mod Tensors
pub mod Dispatch
pub mod Edges
pub mod Lifetime
pub mod Invariant
pub mod Reach
pub mod Step
pub mod Ids
use metal_graph.Base.{
  ℕ, zero, suc, ◌+◌, ◌-◌, ◌*◌, ◌%◌, ◌^◌, Bool, true, false, not, ◌&&◌, ◌||◌, ◌==◌, ltb, leb,
  if◌then◌else◌, Option, none, some, List, [], ◌∷◌, ◌++◌, String, length, word64,
}
use metal_graph.Types.{Stage}
use metal_graph.Outcome.{
  Outcome, done, failed, fault, Failure, M, pure, fail, after, ◌>>=◌, ◌>>◌, require, invalid_at,
  oom_at, node_id_invalid,
}
use metal_graph.Heap.{Heap, malloc}
use metal_graph.Heap.Refs.{Ref, arena}
use metal_graph.Node.{Node, Edge, Payload, payload_refs}
use metal_graph.Range.{range_valid}

-- mg_graph: `node_count` and `edge_count` are the lengths. `address` is the pointer to the graph.
pub record Graph : Type 0 where
  pub address : ℕ
  pub nodes : List Node
  pub node_capacity : ℕ
  pub edges : List Edge
  pub edge_capacity : ℕ
  pub arena : Option ℕ

pub record State : Type 0 where
  pub heap : Heap
  pub graph : Graph

-- A pointer to a node: the nodes of a graph are never moved or freed before the graph is.
pub record NodeRef : Type 0 where
  pub graph : ℕ
  pub index : ℕ

abbrev pub arena_refs : Option ℕ → List Ref
arena_refs none = []
arena_refs (some p) = arena p ∷ []

abbrev pub nodes_refs : List Node → List Ref
nodes_refs [] = []
nodes_refs (n ∷ ns) = payload_refs n.payload ++ nodes_refs ns

-- All references that a graph holds.
abbrev pub graph_refs : Graph → List Ref
graph_refs g = arena_refs g.arena ++ nodes_refs g.nodes

-- A failure of stage create that names no node.
abbrev pub invalid : String → Failure
invalid = invalid_at Stage.create node_id_invalid

-- A change of the heap that faults on a dead object.
abbrev pub lift : (Heap → Option Heap) → Heap → Graph → Outcome (Unit {0}) × State
lift f h g = elim (f h) [
  | none ↦ (fault, record { heap = h; graph = g })
  | some k ↦ (done tt, record { heap = k; graph = g })
]

abbrev pub touch : (Heap → Option Heap) → M State (Unit {0})
touch f s = lift f s.heap s.graph

-- A test that reads the heap, and the error for its failure.
abbrev pub check : (Heap → Outcome Bool) → Failure → M State (Unit {0})
check test e s = elim (test s.heap) [
  | done b ↦ require b e s
  | failed f ↦ (failed f, s)
  | fault ↦ (fault, s)
]

-- `if (!pointer) return mg_set_error(...)`.
abbrev pub given : {A : Type 0} → Option A → Failure → M State A
given none e s = (failed e, s)
given (some a) e s = (done a, s)

-- An allocation, and the error `mg_set_oom` where it fails.
unfoldable pub allocate : M State (Unit {0})
unfolding malloc
allocate s =
    let (answer, h) = malloc s.heap in
    elim answer [
      | none ↦ (failed (oom_at Stage.create), record s { heap = h })
      | some p ↦ (done tt, record s { heap = h })
    ]

abbrev pub recover : {A : Type 0} → Outcome A × State → M State (Unit {0}) → Outcome A × State
recover (done a, t) cleanup = (done a, t)
recover (fault, t) cleanup = (fault, t)
recover (failed e, t) cleanup = after (cleanup t) (λ _ u. (failed e, u))

-- `m` with the clean-up that its caller does when it fails.
abbrev pub on_failure : {A : Type 0} → M State A → M State (Unit {0}) → M State A
on_failure m cleanup s = recover (m s) cleanup

-- `while (next_capacity < required) next_capacity *= 2;`, with `none` where it does not end within
-- the fuel.
unfoldable pub double_until : ℕ → ℕ → ℕ → Option ℕ
double_until zero required next = if leb required next then some next else none
double_until (suc fuel) required next =
    let more = double_until fuel required (next * 2 % word64) in
    if leb required next then some next else more

-- After 65 rounds the product has wrapped to 0, and the loop does not end.
abbrev pub doubling_fuel : ℕ
doubling_fuel = 65

-- The capacity that the reserve functions ask for.
unfoldable pub next_capacity : ℕ → ℕ → Option ℕ
unfolding double_until
next_capacity capacity required =
    double_until doubling_fuel required (if capacity == 0 then 4 else capacity * 2 % word64)

-- `realloc`, which has no object of 2^63 bytes, since that is over PTRDIFF_MAX.
unfoldable pub reallocate : ℕ → M State (Unit {0})
reallocate bytes s = after (allocate s) (λ _. require (ltb bytes (2 ^ 63)) (oom_at Stage.create))

-- mg_graph_reserve_nodes; a place of the array has 8 bytes.
unfoldable pub reserve_nodes : ℕ → M State (Unit {0})
reserve_nodes required s =
    if leb required s.graph.node_capacity
    then (done tt, s)
    else elim (next_capacity s.graph.node_capacity required) [
      | none ↦ (fault, s)
      | some next ↦
          after (reallocate (next * 8 % word64) s)
            λ _ t. (done tt, record t { graph = record t.graph { node_capacity = next } })
    ]

-- mg_graph_reserve_edges; a place of the array has 16 bytes.
unfoldable pub reserve_edges : ℕ → M State (Unit {0})
reserve_edges required s =
    if leb required s.graph.edge_capacity
    then (done tt, s)
    else elim (next_capacity s.graph.edge_capacity required) [
      | none ↦ (fault, s)
      | some next ↦
          after (reallocate (next * 16 % word64) s)
            λ _ t. (done tt, record t { graph = record t.graph { edge_capacity = next } })
    ]

-- What mg_graph_alloc_node makes of the memory that `calloc` returns; the payload is the caller's.
unfoldable pub fresh_node : Payload → Graph → Node
fresh_node payload g = record {
  graph = g.address;
  id = (length g.nodes + 1) % word64;
  index = length g.nodes;
  patch_flags = 0;
  payload = payload;
}

-- mg_graph_alloc_node.
unfoldable pub alloc_node : Payload → M State Node
alloc_node payload s =
    after (reserve_nodes ((length s.graph.nodes + 1) % word64) s)
      λ _ t. after (allocate t) λ _ u. (done (fresh_node payload u.graph), u)

-- mg_graph_commit_node.
unfoldable pub commit_node : Node → M State NodeRef
commit_node node s = (
  done (record { graph = node.graph; index = node.index }),
  record s { graph = record s.graph { nodes = s.graph.nodes ++ node ∷ [] } },
)

-- The `length` of a buffer; `fault` for NULL or a dead buffer.
abbrev pub with_length : Heap → Option ℕ → (ℕ → Outcome Bool) → Outcome Bool
with_length h none f = fault
with_length h (some p) f = elim (h.buffers p) [ none ↦ fault | some b ↦ f b.length ]

-- `mg_range_valid(buffer->length, offset, byte_count)`.
unfoldable pub range_within : Heap → Option ℕ → ℕ → ℕ → Outcome Bool
range_within h p offset byte_count = with_length h p (λ n. done (range_valid n offset byte_count))

-- `a && b` where the evaluation of either may fault.
abbrev pub and_also : Outcome Bool → Outcome Bool → Outcome Bool
and_also (done true) b = b
and_also (done false) b = done false
and_also (failed e) b = failed e
and_also fault b = fault

abbrev pub is_given : {A : Type 0} → Option A → Bool
is_given none = false
is_given (some a) = true
