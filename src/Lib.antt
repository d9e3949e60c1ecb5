-- ===== src/Lib.antt =====
-- A verification library for Rhizo, a data runtime whose nodes commit algebraic operations without
-- coordination and whose tables are branched and merged like code.
--
-- The parts of the program and the files that model them:
--   Clock      rhizo_core/src/distributed/vector_clock.rs. A clock is a record of a map from nodes to
--              times; `tick`, `merge` and `partial_cmp` are functions of these names, their loops
--              `merge_entries` and `cmp_loop`. Clock/Merge reads them node by node, Clock/Order
--              against the pointwise order.
--   Algebra    rhizo_core/src/algebraic: types.rs in Algebra/Types, merge.rs in Algebra/Merger,
--              schema.rs in Algebra/Schema. Algebra/Same says when two results are the same (sets by
--              their members); Algebra/Commutes and Algebra/Groups hold the laws.
--   Commit     rhizo_core/src/distributed/local_commit.rs. A commit returns its result with the clock
--              that the caller holds afterwards; an early return is an error of the type `Result`.
--   Cluster    rhizo_core/src/distributed/simulation.rs. A node is a record; `commit` and
--              `receive_update` return the node after the call. Cluster/Discipline is the
--              lattice schema (for each key one of MAX, MIN, UNION and INTERSECT, and one kind of
--              integers, sets or truth values that it supports) under which nodes converge; ADD,
--              MULTIPLY and floats are outside it.
--   Branch     rhizo_core/src/branch: branch.rs in Branch, manager.rs in Branch/Manager and
--              Branch/Names, merge.rs in Branch/Analyzer. The directory of branches is a map from
--              file names to branches.
--   Transaction  rhizo_core/src/transaction: types.rs in Transaction, conflict.rs in
--              Transaction/Conflict, what its detectors find in Transaction/Detection and
--              Transaction/Adaptive. epoch.rs and error.rs in Transaction/Epoch, log.rs in
--              Transaction/Log, recovery.rs in Transaction/Log/Recovery, manager.rs in
--              Transaction/Manager (begin, reads and writes) and Transaction/Manager/Committing (the
--              checks, commit, abort). An operation returns its result with the manager after it,
--              early returns included. Log/Store says when a log is sound, Manager/Sound when a
--              manager is.
--   Changelog  rhizo_core/src/changelog and the loop of `get_changelog`, over the lists of committed
--              transactions in Transaction/Log/Committed.
--   Merkle     rhizo_core/src/merkle: types.rs and the helpers of tree.rs in Merkle, building, comparing
--              and verifying in Merkle/Building. Merkle/Authentic says what a tree that verifies
--              is. A loop has fuel, and a result says whether it ended, panicked or ran on.
--   Catalog    rhizo_core/src/catalog: version.rs and file_catalog.rs. A directory of a table is a
--              record of its version files and its pointer; `commit_inner` and the rest are functions
--              of these names that return the catalog after the call. A table's name is a relative path
--              in normal form, whose directories are those of Catalog/Paths.
--   Escrow     rhizo_core/src/transaction/escrow.rs. `consume` and `refill` are the methods of a
--              resource, `try_consume` and `replenish` those of the manager.
--   Base       what the parts share: tests, lists, maps, sets, the integers of `i64`, texts, sorting,
--              and the interface `Commuting` of steps that commute, which Cluster/State fills.
--
-- How they interact: a node of the cluster commits by the protocol of Commit, which ticks the node's
-- clock, and merges values by Algebra/Merger when it applies an update; branches are merged where the
-- schemas of Algebra allow it. The transaction manager reads its snapshots from the catalog or from a
-- branch, detects conflicts by a detector of Transaction/Conflict, commits its writes to the catalog,
-- moves the heads of branches, and records what it does in the log, which recovery reads.
--
-- Conventions and bounds. `HashMap` and `HashSet` are association lists without repeated keys and
-- lists; their iteration order is unspecified in the code, and what is proved reads them by lookup
-- and membership. The order of loops over a map that fill a sorted vector is therefore free. `u64` is
-- the native natural number, with the wrap of `tick` written out; `i64` is an integer with a range,
-- and the checked operations return nothing outside it. `f64` is a parameter, the interface `F64`;
-- laws that need exact arithmetic exclude floats. Recursion is structural but for the digits of a
-- number, whose fuel of 20 is the length of the longest `u64`, and for the loops of Merkle, for which
-- the length of the data is enough. Texts of errors are kept as the data that they are formatted from.
--
-- Not modelled: the sizing of escrow quotas, the Bloom filter and row group filters; failures of the
-- file system and of JSON, checksums, locks and threads, the messages and the random network of the
-- simulation, the parquet encoder and decoder, the chunk store, and the Python layer.
pub mod Base
pub mod Algebra
pub mod Clock
pub mod Commit
pub mod Cluster
pub mod Branch
pub mod Catalog
pub mod Merkle
pub mod Transaction
pub mod Changelog
pub mod Escrow
