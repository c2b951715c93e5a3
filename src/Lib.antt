-- ===== src/Lib.antt =====
-- rust-eth-triedb: a Merkle Patricia trie of the Ethereum state, stored by path in RocksDB.
--
-- The program's parts. A trie (state-trie/src/trie.rs) maps keys, spelled as nibbles with the
-- terminator 16 (state-trie/src/encoding.rs), to values. Its nodes (state-trie/src/node) are held in
-- memory or named by their hash; a hash is resolved by the path that leads to it, first in the diff
-- layers of the blocks that are not yet persisted (common/src/difflayer.rs) and then in the database
-- (db/pathdb/src/pathdb.rs), and the blob found is decoded from RLP. A tracer
-- (state-trie/src/trie_tracer.rs) records the paths read, inserted and deleted. A diff layer is
-- committed to the database in one batch, past two LRU caches.
--
-- On top of these a `TrieDB` (triedb/src) holds the trie of the accounts and a storage trie for each
-- account that is used, all over one database. A batch resets it to a state root, writes accounts and
-- storage slots, hashes the storage tries, writes their roots into the accounts, hashes the account
-- trie and commits all of them to a diff layer. A manager gives the process its one instance.
--
-- Which file models which part.
--   Common: lists, bytes, tests and results that all parts share; Maps: hash maps and sets as
--     association lists and lists, whose order has no meaning.
--   Encoding, with Encoding/Terminator, Encoding/Compact and Encoding/Keys: state-trie/src/encoding.rs.
--   Rlp, with Rlp/Size, Rlp/Tagged, Rlp/Strings, Rlp/Lists and Rlp/Bounds: state-trie/src/node/rlp_raw.rs.
--   Node, Node/Decode and Node/Encode: node.rs, short_node.rs and full_node.rs in state-trie/src/node,
--     their types, decoders and encoders. An `Arc` is the value that it shares. Node/Compacted,
--     Node/Parts and Node/RoundTrip: which nodes come back from their encoding.
--   TrieTracer and DiffLayer, with TrieTracer/Laws and DiffLayer/Order: the files of these names.
--   Trie: the record `Trie` and the methods `new`, `get`, `update` and `delete` of
--     state-trie/src/trie.rs. Trie/Ops: `get_internal`, `insert_internal` and `delete_internal`, their
--     branches as helpers. Trie/Resolve: `resolve` and `resolve_and_track`. Trie/Monad: errors, panics
--     and the tracer as a state.
--   Trie/Tree: a tree of values without hashes, the specification, with insertion and, in
--     Trie/Tree/Remove, removal. Trie/Represents: what a node with hashes stands for. Trie/Updates,
--     Trie/Runs and Trie/Guards: the methods against that specification.
--   Hasher: state-trie/src/trie_hasher.rs, the parallel tasks as a list of their results. Hasher/Parallel
--     compares it with the serial loop, Hasher/Represents, Hasher/Total and Hasher/Cached are about
--     the nodes that it keeps. Trie/Hash: the method `hash` of state-trie/src/trie.rs.
--   Committer, with Committer/Total, Committer/Runs and Committer/Order: state-trie/src/trie_committer.rs; the order in
--     which parallel tasks merge their sets is a parameter. Trie/Commit: the method `commit` of
--     state-trie/src/trie.rs.
--   StateTrie, with StateTrie/Slots, StateTrie/Laws and StateTrie/Hashed: state-trie/src/state_trie.rs and account.rs.
--     `Codec` has what they call of other crates, and `IsCodec` the behaviour that they rely on.
--   NodeSet, with NodeSet/Laws and NodeSet/Counts: state-trie/src/node/node_set.rs. NodeSet/Signature: its
--     method `signature`; NodeSet/Sorting: `sort_by` of the standard library.
--   TrieDatabase: the trait of common/src/traits.rs, as a record of operations.
--   PathDb, PathDb/Commit, PathDb/Persisted and PathDb/Trait: db/pathdb/src/pathdb.rs, the last of them its
--     implementation of that trait. PathDb/Coherence and PathDb/Commit/Content: its caches, and what a
--     commit stores. PathDb/Store: what it uses of RocksDB and of the LRU map of schnellru, two records
--     of operations, and the laws that it relies on.
--   TrieDb: triedb/src/triedb.rs, with the state as a record and each call as a function of it that
--     returns a result and the state after the call. TrieDb/Basic: triedb_basic.rs, and the calls on single
--     slots of triedb_reth.rs. TrieDb/Reth: the batches of triedb_reth.rs. TrieDb/Disk: triedb_disk.rs.
--     TrieDb/Keeps, TrieDb/Reset: what a batch keeps and what it depends on. TrieDb/Accounts, TrieDb/AccountTask,
--     TrieDb/HashTries, TrieDb/Hashes: what the account trie replies after the calls that write it. TrieDb/Plan,
--     TrieDb/PlanRanges and TrieDb/Prepare: how a batch sorts its accounts. TrieDb/StorageTask: the storage
--     tries. TrieDb/Batch puts these together. TrieDb/Slots and TrieDb/Flush: single slots, and the
--     database of db/pathdb below. `Externals` has what they call of other crates.
--   Manager, with Manager/Runs: triedb/src/triedb_manager.rs, and the runs of its calls as a step relation.
--   Examples, with Examples/Runs, Examples/States and Examples/TrieDbs: the theorems at concrete inputs,
--     with an instance of each interface.
--
-- Numbers and fuel. A byte is a number below 256 where a theorem needs it, and a u64 or a usize is a
-- number. `get_internal`, `insert_internal` and `delete_internal` recurse on fuel; two calls for each
-- nibble left and two more are enough, since a hash may stand at each place. A state trie has keys of 32
-- bytes, for which 132 calls are enough. The decoder recurses on the length of the blob, and the loop of
-- `count_values` on that of the slice.
--
-- Not modelled: metrics, traces, the texts of errors, and the opening and the options of RocksDB. The database that a trie reads is a function of its
-- environment; that of a `TrieDB` answers a read and may change its caches, which changes no answer.
-- Rayon runs the tasks of the hasher and of a batch in any order; they share nothing, so that only
-- their results, which it collects in order, matter.
pub mod Common
pub mod Encoding
pub mod Rlp
pub mod Maps
pub mod TrieTracer
pub mod DiffLayer
pub mod Node
pub mod Trie
pub mod TrieDatabase
pub mod TrieDb
pub mod Manager
pub mod Hasher
pub mod StateTrie
pub mod NodeSet
pub mod Committer
pub mod PathDb
mod Examples
