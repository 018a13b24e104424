-- ===== src/Lib.antt =====
-- GVector, a vector database in Rust: an index of segments over an approximate graph, with a
-- linear-scan write buffer, metadata filters, a write-ahead log and checkpoints.
--
-- The program's parts and the files that model them:
--   Types             src/types.rs: ids, floats by bit pattern, search results and their order
--   Distance          src/distance.rs: the metrics, in chunks of sixteen as the code sums them
--   Index             src/index/mod.rs: the errors of an index
--   Order             the heap, the sort and the bounded heap that the scans use
--   BruteForce        src/index/bruteforce.rs: `BruteForceIndex`, its insert, delete and searches
--   Eval              src/eval.rs: the exact scan that answers are measured against
--   Hnsw              src/index/hnsw.rs: the graph index; Hnsw/Layer is `search_layer`,
--                     Hnsw/Neighbors the choice of neighbours, Hnsw/Query the searches, Hnsw/Update
--                     `insert`, `delete` and `compact`, Hnsw/AsGraph the index as the segments see it,
--                     Hnsw/Persist its file
--   Segmented         src/index/segmented.rs: `insert_shared`, `delete_shared`, `seal` and the checks
--   Segmented/Background  the build of `SealContext` and `merge_smallest_pair_bg`, each cut where it
--                     takes a lock
--   Segmented/Search  `search_shared_with_ef`
--   Segmented/Postings    `posting_insert` and `posting_remove`
--   Segmented/Spec    what a client may rely on, as a set of ids
--   Meta              src/meta.rs: values, filters (Meta/Filter), the store (Meta/Store) and the keys
--                     of floats (Meta/Number, also of src/index/numeric.rs)
--   Numeric           src/index/numeric.rs: `NumericFieldIndex`, its histogram and its enumerations
--   Bytes, Storage    src/storage/mod.rs: framed files, the manifest and the collection of files
--   Wal               src/storage/wal.rs: the frames and the replay; Wal/Log is the log being written
--   Tests             examples; Prelude is what the modules share
--
-- How they interact: an insert goes to the buffer, which is a `BruteForceIndex`; a full buffer joins
-- the queue, a worker builds it into a segment, and a merge makes one segment of two. A vector is
-- looked for in all three kinds of source. The log holds frames of records; its file is what the
-- operating system has, its buffer what the writer has not handed on.
--
-- State is passed along, and an operation that can fail returns a result with the state. What runs in
-- the background is a step of its own: the long part of a build or a merge reads only data that no
-- longer changes, so it is a function of what it started from.
--
-- Parameters: the float operations (F32Ops, F64Ops, and F64Arith with what the estimate relies on
-- in IsMonotone and IsWidening), the random generator and the f64 arithmetic of the graph's levels
-- (Randomness), the thread pool and its reduction tree (Rayon), bincode and crc32 (Codec,
-- IsFaithful) and the answers of the operating system (System). The segments take the graph through
-- an interface (Graph, with what they rely on in IsGraph and, for searches, in IsSearchable), which
-- Hnsw/AsGraph fills.
--
-- Fuel: the replay loop has the length of the file as its fuel and every frame takes more than eight
-- bytes; the chunked scan has the number of rows, and a chunk has at least one; the search of a layer
-- has one round more than there are nodes, and every round takes a node that was marked once.
--
-- Panics: a compaction whose insert fails, where the code's `expect` panics, is `none`, and so are
-- the slices and ranges of the numeric index that would panic. The graph's reads and writes by index
-- are total (`get_or`, `set`, `take`): an index out of range is not represented there.
--
-- Not modelled: quantization (an index of its own, read only), the planner and the filtered search
-- over segments, checkpoints and recovery of the whole index, the metadata snapshot, the server;
-- and what is measurement or plain file access: data sets, reports, benchmarks, memory accounts.
-- The builds and the merges are separate steps: the merge that `build_one` starts behind a build is
-- left out of `build_first`. The errors of opening a log and of reading its length are left out of
-- `open_append`; those of listing a directory in `gc_unreferenced` are there.
pub mod Prelude
pub mod Order
pub mod Types
pub mod Distance
pub mod Bytes
pub mod Meta
pub mod Storage
pub mod Wal
pub mod Index
pub mod BruteForce
pub mod Eval
pub mod Segmented
pub mod Hnsw
mod Tests
pub mod Numeric
