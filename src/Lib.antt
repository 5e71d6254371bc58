-- ===== src/Lib.antt =====
-- metal-graph: a C library that records GPU work as a graph of nodes (dispatches, copies, fills, event
-- waits and signals, barriers, MPSGraph calls), validates it, plans its transient memory, and hands it
-- to a backend. This library models the core of it, src/core, and proves it correct.
--
-- The parts, and how they interact. A graph (src/core/graph.c) owns its nodes and edges and holds
-- counted references to buffers, events (src/core/buffer.c) and an arena (src/core/arena.c). Each
-- mgGraphAdd function validates a descriptor, allocates a node, retains what the node refers to, and
-- appends the node; mgGraphAddDependency adds an edge. mg_graph_topological_order sorts the nodes; in
-- that order mg_graph_plan_workspace places the workspace nodes in memory, within the attached arena.
-- The backend makes an executable of the graph, whose nodes src/core/patch.c can change between
-- launches.
--
-- Which file models what:
--   Types, Flags    the enumerations and flag words of include/metal_graph/metal_graph.h;
--                   mgStatusString of src/core/version.c. Version has the rest of that file.
--   Outcome         a result: MG_STATUS_OK with outputs, an error status with the arguments of its
--                   mg_set_error call, or a fault (a read through NULL or of a freed object). The monad
--                   `M S A` passes the state on.
--   Heap            mg_buffer, mg_event, mg_arena by address, with retain and release, and `malloc`,
--                   whose answers are a parameter of the state (any answer may be NULL). Heap.Counting
--                   is the scheme the three share, Heap.Refs the view of references as values,
--                   Heap.Memory what is said of the allocator.
--   Buffers         the functions of src/core/buffer.c on buffers and events. Buffers.Laws follows a
--                   buffer until its owner is told of its end.
--   Align           mg_alignment_valid, mg_align_up_size.
--   Range           the predicates of graph.c on ranges, alignments, shapes and resources.
--   Arena           the arena and workspace descriptors, mgArenaCreate and the other handle functions.
--   Node            the structures of src/core/internal.h and the descriptors of the header.
--   Graph           the graph, mg_graph_reserve_nodes, mg_graph_reserve_edges, mg_graph_alloc_node,
--                   mg_graph_commit_node. Graph.Holding and Graph.Checks are the rules for proofs about
--                   chains of steps, Graph.Adding those for the last steps of adding a node.
--                   Graph.Build, Graph.Dispatch and Graph.Tensors have the constructors of nodes,
--                   Graph.Edges mgGraphAddDependency, Graph.Lifetime mgGraphCreate, mgGraphDestroy,
--                   mgGraphSetArena and mgGraphSetNodePatchFlags. Graph.Invariant is what holds of
--                   every graph, Graph.Step the calls and runs of calls that build one,
--                   Graph.Reach what every such run keeps, Graph.Ids the ids
--                   of nodes, Graph.Capacity the loop that doubles a capacity.
--   Topology        mg_graph_topological_order and mgGraphValidate; Topology.Validate is about the
--                   whole of the latter, on the graphs that such runs build.
--   Workspace       the workspace plan of src/core/arena.c. Workspace.Plan and Workspace.Attach say
--                   what a plan is when it succeeds, Workspace.Success when it does,
--                   Workspace.Memory what the nodes of a graph get in the end.
--   Errors          mg_set_error of src/core/error.c, and the getters of its reports.
--   Range.Resources, Exec.Replaced   what the lookups of resources, and the loops over bindings, find.
--   Exec            the executable graph, and the functions of src/core/patch.c: Exec.Patch has them,
--                   those of a dispatch in Exec.PatchDispatch,
--                   Exec.Balance what they do to a node and to the counts, Exec.Laws the same of
--                   an executable, Exec.Writes what they write, Exec.Options the optimization flags.
--                   Exec.Destroy has mgGraphExecDestroy of src/metal/metal_backend.mm, Exec.Life
--                   follows an executable to its end.
--   Launch          the launches of src/metal/metal_backend.mm along the direct path, which uses no
--                   indirect command buffer. Launch.Encode has the encoding loop, Launch.Calls
--                   mgGraphLaunch, mgLaunchSynchronize and mgLaunchDestroy; Launch.Took to
--                   Launch.Destroy follow the references, Launch.Laws, Launch.Life and
--                   Launch.Idle are about whole launches.
--   Unsupported     src/metal/unsupported_backend.c, which refuses every call where Metal is missing.
--   Tests           sample states, and each theorem applied to one.
--
-- Choices. Pointers and size_t have 64 bits, and each addition and product of size_t that is a
-- count, a capacity, an offset or a size is written with its wrap-around. So are the bytes that
-- `realloc` is asked for where an array doubles: those of the nodes, the edges and the command
-- buffers of a launch. `realloc` refuses 2^63 bytes or more, which is over PTRDIFF_MAX. Hence no
-- array of 2^60 nodes or 2^59 edges exists; from these capacities on, which no theorem needs but
-- their hypotheses allow, the product wraps and the model does not follow that the new array is
-- shorter than its capacity says. For the command buffers it does: a write behind the bytes is a
-- fault. The other allocations are for one structure, for an array as long as one that is in memory,
-- or for a count of 32 bits, whose bytes do not wrap, and `malloc` is asked without them. The sizeof
-- of a structure is that of such a platform. A pointer is `Option ℕ`. An array argument has as many
-- items as its count says. Strings are values: a failed copy of a string is an answer of `malloc`. A
-- graph argument is not NULL: the tests for that return at once. `realloc` keeps the contents of an
-- array, so the model keeps the arrays as lists with their capacities. The allocations that
-- mg_set_error makes for its report are not counted among the calls of `malloc`: they are the last
-- thing before a function returns.
--
-- Bounds and fuel. The search of the topological sort has fuel for one round per node, which is enough
-- since a node enters the queue once. The loop that doubles a capacity has fuel for 65 rounds, after
-- which its product has wrapped to 0 and the loop would not end; it makes no round where the graph
-- grows by one. The theorems on nodes suppose that the arrays have fewer than 2^63 places and that the
-- 32-bit counters do not overflow.
--
-- Not modelled. The Metal backend (src/metal/metal_backend.mm) is Objective-C++ around the Metal
-- framework, and include/metal_graph/metal_graph_metal.h declares what only it defines. Only its
-- launches and the destruction of its executables are modelled, and what Metal answers to them is a
-- parameter of the state: whether an object that is asked for is there, and whether committed work
-- was done without error. Instantiation, the path with an indirect command buffer, the workspace
-- object that a launch keeps alive, and the devices, streams, pipelines and buffers of the framework
-- are left out. So are the shaders, the bindings, the tests and the documents. The memory of error
-- reports is not tracked, so mgErrorDestroy, which frees it, has no counterpart; nor have the
-- destroy functions of the refusing backend, which free handles that it never makes.
-- mgBufferContents only calls the backend.
mod Base
pub mod Types
pub mod Outcome
pub mod Align
pub mod Heap
pub mod Buffers
pub mod Flags
pub mod Node
pub mod Range
pub mod Arena
pub mod Graph
pub mod Topology
pub mod Workspace
pub mod Errors
pub mod Version
pub mod Exec
pub mod Unsupported
pub mod Launch
pub mod Tests
