-- ===== src/Lib.antt =====
-- incrededup finds near-duplicate documents: a tokenizer and MinHash make a signature of each
-- document, an LSH index finds candidates, phase 2 stores the pairs that are similar enough as raw
-- edges, and phase 3 resolves the edges into canonical assignments, which it writes to the source's
-- database. This development models the part that decides what is a duplicate of what.
--
-- The files, with the code each models:
--   Base, Base/*            names of the libraries passed on; Boolean tests, lists, sorting
--   Table                   the interface of a map, for `HashMap`: operations and laws. Table/Keys
--                           has lemmas on it, Table/Assoc an instance, which the tests use
--   UnionFind               src/union_find.rs: one function for each method of `UnionFind`
--     UnionFind/Forest      forests of parents with a rank, and their roots
--     UnionFind/Find        `find`: its loop ends, and what path compression keeps
--     UnionFind/Union       `union_by_key`: what hangs under what
--     UnionFind/Components  connected components, and the forest that a list of unions makes
--     UnionFind/Nodes       the loop over `nodes()` that finds each node's root
--     UnionFind/Pairs       `from_pairs`
--   Match                   `MatchRecord` of src/storage/mod.rs, `DupeMatch` of src/db/mod.rs, and
--                           the interface of `f64`
--   Dedupe/Transitivity     src/dedupe/mod.rs: `resolve_transitivity`, its variant with preferred
--                           roots, and the streamed one, each with its own copy of the loops
--     Transitivity/Keys     the root key `(priority, id)` as one number
--     Transitivity/Edges    the loop over the edges joins the components
--     Transitivity/Nodes    the loop over the nodes, as a run over a list of roots
--     Transitivity/Metrics  the best edge kept for each document
--     Transitivity/Results  what the resolutions return
--     Transitivity/Stability  metrics, preferred roots, and agreement of the two variants
--   MinHash                 src/minhash/mod.rs and src/minhash/hasher.rs: `RMinHash`, the hash
--                           functions, the similarity of signatures and the band hashes
--     MinHash/Update        one batch, in chunks and a remainder
--     MinHash/Signature     all batches: the signature of a set of items
--     MinHash/Similarity    `try_jaccard_from_signatures`
--     MinHash/Bands         `try_compute_band_hashes`
--   Lsh                     src/lsh/mod.rs: the check of a signature's length, `InMemoryLSH`
--     Lsh/Bands             the loops over the bands
--     Lsh/Query             what a query finds after insertions
--     Lsh/Disk              `DiskLSH`: its entries in Buckets, batches in Batch, queries in Query,
--                           `build_bands_from_signatures` in Build and the metadata in Metadata
--   Tokenizer               src/tokenizer.rs: normalization, n-grams and the signature of a document.
--                           What Unicode says of a character is a parameter. A text is the list of its
--                           characters, and an n-gram a part of that list, which the source slices
--                           out of the text at the byte offsets of the characters
--     Tokenizer/Normalize   `normalize_content`
--     Tokenizer/Signature   the signature is that of the tokens
--   Storage                 src/storage/mod.rs: the bytes of the keys and values of `matches.redb`
--     Storage/Codec         what is written is read back, and keys tell edges apart
--     Storage/Matches       `MatchStore`, with what its tables hold in Edges, insertion in Insert,
--                           reading in Read and the record that is kept in Best
--     Storage/Scan          `visit_real_edges_connected_to`: its passes and what it returns
--     Storage/Walk          `visit_real_edges_connected_to_indexed`: the range of a node in Ranges,
--                           its rows in Rows, a step in Steps, the invariants in Reach and Once
--                           and the result in Loop
--     Storage/Backfill      `build_adjacency_index` and `flush_adjacency`
--     Storage/Progress      `StateStore`
--     Storage/Filtered      `FilteredParentStore`
--   Phase2                  src/disk_dedupe.rs: `Phase2StateStore`, `flush_pending_writes` and
--                           `write_matches_batch`, with its own copies of the keys and layouts
--     Phase2/Flush          the batch against that of the match store, and a flush that is cut short
--   Db                      src/db/mod.rs: the statements of the server as an interface, `write_dupes`,
--                           the marks and the reads of phase 3. Db/Children has the test of the
--                           children; Db/Rows, Db/Marks and Db/Fetch what these leave and
--                           return, Db/Bounds the placeholders and parameters, Db/Names the check of
--                           a table name
--   Sources                 src/sources/mod.rs and src/sources/postgres.rs: the trait and
--                           `PostgresSource`, as far as phase 3 calls them
--   Dedupe/Stream           src/dedupe/mod.rs: `stream_connected_matches` in its three modes
--     Dedupe/Stream/Fold    streaming to a visitor against collecting the edges, with Fold/Walks
--     Dedupe/Stream/Reach   the edges that a pass collects
--   Dedupe/Run              state, errors and fuel of a run, for do blocks
--   Dedupe/Sync             src/dedupe/mod.rs: the incremental sync of phase 3
--     Dedupe/Sync/Plan      what is to be written; Steps: what the writes leave; Resolve: the reads
--     Dedupe/Sync/Laws      what the writes make of the database; Correct: the whole sync
--     Dedupe/Sync/Generic   the sync of any source, against that of the pool
--   SyncMode                src/main.rs: the first step of `run_sync_mode`. SyncMode/Rows has rows that
--                           are written twice, SyncMode/Loop the loop, SyncMode/Stops runs that are
--                           stopped, SyncMode/Resume the run after them
--   Tests, Tests/*          concrete instances and runs
--
-- A `Uuid` is the number below 2^128 that its bytes spell, most significant first, so that the order
-- of ids is the order of numbers. A set of ids is a list without repetitions, and `HashMap` is any
-- instance of Table, whose order of iteration is unknown: the theorems hold for every order. A float
-- is an element of any instance of Match.Float, which has the laws of comparison that IEEE 754 gives.
--
-- The loop in `UnionFind::find` is not structural. It runs on fuel, and so does everything that calls
-- `find`. A parent's root key is below its child's, so fuel above the greatest key is enough: for the
-- keys `(priority, id)`, coded as `priority * 2^128 + id`, that is 3 * 2^128, and the theorems say
-- that this fuel gives a result. Splitting a slice into chunks takes the slice's length as fuel.
--
-- A byte, a `u32` or a `u64` is its number, and arithmetic that wraps around is written out. An
-- index out of range, where the source panics, is `none`, in Lsh the error `out_of_range`. The
-- generator Xoshiro256++ is a parameter, its n-th draw from a seed, and `FxHasher` is an interface.
--
-- A store in redb is a record of tables, and a transaction is a function from store to store: the
-- reads of one function see one state. The loops of the scan and of the walk take fuel, and twice the
-- number of entries, with the number of seeds for the walk, is enough. The order of iteration of a
-- table is left open, and so is that of the records that are returned.
--
-- The statements of the database are an interface: an INSERT is accepted for rows of distinct children
-- none of which has a row, and may be refused else. A failure of the connection is not modelled.
--
-- Not modelled: the workers of phase 2, phase 1, cleanup and the marks of the sync mode; SQLite, files
-- and other input and output, failures of redb, the command line, progress bars and logs.
pub mod Base
pub mod Table
pub mod UnionFind
pub mod Match
pub mod MinHash
pub mod Lsh
pub mod Tokenizer
pub mod Storage
pub mod Phase2
pub mod Db
pub mod Sources
pub mod Dedupe
pub mod SyncMode
mod Tests
