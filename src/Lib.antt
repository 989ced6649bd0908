-- ===== src/Lib.antt =====
-- GraphZeppelin: connected components of a stream of edge insertions and deletions, in space that
-- is far smaller than the graph. Every vertex has a linear sketch of its row of the adjacency
-- matrix over GF(2); sampling the sum of the sketches of a set of vertices finds an edge that
-- leaves the set, and Boruvka rounds over such samples, with a disjoint set union for the partition
-- found so far, compute the components.
--
-- The parts and the code that they model:
--
-- Base: conditionals, Boolean tests, arrays as lists, the bits of machine words.
-- Pairing (src/util.cpp, include/util.h): an edge as one index of a vector.
--   concat_pairing_fn and its inverse keep the field widths of 32 and 64 bits;
--   nondirectional_non_self_edge_pairing_fn keeps the wrap of its 32-bit product. The square root
--   in double precision that its inverse calls is a parameter.
-- Bucket (include/bucket.h): a bucket and its update, the depth of an index and its checksum.
--   The record Hashes holds the two calls of xxHash as functions of an index and a seed. The
--   count of trailing zeros has 64 digits, as its builtin.
-- Sketch (include/sketch.h, src/sketch.cpp): the sketch as a record, its array of buckets as a
--   list. Sketch.update is the update of CameoSketch, update_cube that of CubeSketch;
--   Sketch.Sample models the queries, with Attempt for the exception that they throw. Loops are
--   recursions on the number of rounds left. A batch is update_all, the loop of the callers.
-- Dsu (include/dsu.h): the disjoint set union. An out-of-range id is the result none, as the
--   code asserts. find_loop runs on fuel, the size of the set: a vertex climbs along the order of
--   priority and id, so the fuel is enough. The draws of the random generator are a parameter.
--   Dsu.Atomic models merge of the atomic class as one thread runs it, with a number of spurious
--   failures of the exchange.
-- CcAlg (include/cc_sketch_alg.h, src/cc_sketch_alg.cpp): the state of CCSketchAlg and its updates:
--   pre_insert with the eager set, the batches of the workers with the exception of a locked
--   algorithm as a result, the direct update; CcAlg.Supernode: sample_supernode. The sketch that
--   the constructor allocates is a parameter, as its sizes are computed in floating point.
-- CcAlg.Round: perform_boruvka_round, by the sums of the sketches that each thread and the shared
--   entries hold. Threads run one after another, each as a whole, in an order that is a parameter
--   (schedule), and so is the division of the vertices (Partition), which the code computes in
--   floating point. CcAlg.Instr: create_merge_instructions, phase by phase. CcAlg.Query: the
--   queries, with a reply, an exception, or a failed assertion as the result; the record Machine
--   holds what they depend on beside the algorithm. The loop of rounds runs on fuel,
--   num_samples + 2: from round num_samples on a range merge leaves no sample to take, and the
--   round throws.
-- McAlg (include/mc_sketch_alg.h, src/mc_sketch_alg.cpp): MCSketchAlg, which keeps several sketch
--   graphs over the same vertices in one array, at indices that are computed in 32 bits. McAlg: the
--   state and the updates; McAlg.Round: the rounds, which repeat the text of CCSketchAlg with the
--   sketches of a graph at an offset, so that the model runs the functions of CcAlg.Round on these
--   and writes them back; McAlg.Query: the queries, with the same fuel for the same reason;
--   McAlg.Filter: the deletion of a forest's edges by several threads and the disjoint forests;
--   McAlg.Cut: the minimum cut, with VieCut's search as a parameter.
-- ReturnTypes (include/return_types.h, src/return_types.cpp): the answer ConnectedComponents of a
--   connectivity query, with the searches of its parallel loop in the order of the vertices, and
--   its sets, where a std::map is a list in the order of the keys; the edges of
--   SpanningForest and its sorted adjacency, where std::sort is a parameter.
-- EdgeStore (include/edge_store.h, src/edge_store.cpp, include/types.h): the adjacency lists of the
--   minimum cut algorithm. EdgeStore.Insert: insert_adj_edges with its in-place merge, index by
--   index; a read past the updates is the result none, and std::sort is a parameter. The loop of
--   vertex_advance_subgraph has a round for each vertex and one more, which is enough as each
--   round draws the next vertex.
-- WorkerThreads (include/worker_thread_group.h): the workers and their group as a step relation,
--   one step for each write of a flag, so that it covers every interleaving on a memory that is
--   sequentially consistent. The owner's steps are those of flush_workers, resume_workers and the
--   destructor. The guttering system is its queue: get_data takes some node, or fails on an empty
--   queue when it must not wait.
-- Driver (include/graph_sketch_driver.h): the driver over CCSketchAlg, as a step relation: a step
--   for each update that a stream thread takes and for each batch that a worker applies. The
--   guttering system is the interface GutteringSystem, with the laws KeepsUpdates; it hands its
--   batches to a queue, from which a worker takes any one. prep_query may return with batches still
--   in the queue.
--
-- How they interact: an update of an edge is paired into an index (Pairing), hashed to buckets
-- (Bucket), and xored into the sketches of both ends (Sketch); a sample is unpaired into an edge
-- that is merged into the partition (Dsu). The algorithm (CcAlg) keeps one sketch per vertex, the
-- partition, and a spanning forest that tells when it is stale; its answers (ReturnTypes) read
-- the partition. The workers (WorkerThreads) hand the batches of the guttering system to CcAlg, and
-- a flush waits for them before a query. The minimum cut algorithm (McAlg) peels disjoint forests
-- from its sketches, each deleted before the next is sought, and restores them.
--
-- Not modelled: xxHash, the guttering system and the stream readers, which the build fetches;
-- floating-point sizing of sketches; printing, timing and serialization to bytes; the CUDA code;
-- the memory model of threads; the configuration, the tools, and the builds with a verifier.
pub mod Base
pub mod Pairing
pub mod Bucket
pub mod Sketch
pub mod Dsu
pub mod CcAlg
pub mod ReturnTypes
pub mod McAlg
pub mod Driver
pub mod EdgeStore
pub mod WorkerThreads
