-- ===== src/PathDb/Commit.antt =====
-- `commit_difflayer` and `get_storage_root` of db/pathdb/src/pathdb.rs.
pub mod Laws
pub mod Content
use rust_eth_triedb.Common.{
  ℕ, List, [], ◌∷◌, ◌++◌, Bool, true, false, ◌==◌, if◌then◌else◌, length, Option, none, some,
  Result, ok, err,
}
use rust_eth_triedb.DiffLayer.{DiffLayer, TrieNode, is_deleted}
use rust_eth_triedb.PathDb.{
  PathDb, Db, Outcome, PathProviderError, database, trie_state_root_key,
  trie_state_block_number_key, to_le_bytes, get_raw_storage_root,
}
use rust_eth_triedb.PathDb.Store.{
  Family, default, meta_data, storage_root, RocksDb, Lru, BatchOp, put, delete,
}

module _ (L : Lru) where
  -- A cache and the batch that is filled along with it.
  abbrev pub Pending : Type 0
  Pending = L.Cache × List BatchOp

  abbrev pub commit_blob : List ℕ → Option (List ℕ) → Pending → Pending
  commit_blob key (some blob) (cache, batch) =
      (L.insert key (some blob) cache, batch ++ (put default key blob ∷ []))
  commit_blob key none p = p

  -- A deleted node leaves the cache and the database, another goes to both.
  unfoldable pub commit_node : List ℕ → TrieNode → Pending → Pending
  unfolding is_deleted
  commit_node key node (cache, batch) =
      if is_deleted node
      then (L.remove key cache, batch ++ (delete default key ∷ []))
      else commit_blob key (node.blob) (cache, batch)

  unfoldable pub commit_nodes : List (List ℕ × TrieNode) → Pending → Pending
  unfolding commit_node
  commit_nodes [] p = p
  commit_nodes ((key, node) ∷ nodes) p = commit_nodes nodes (commit_node key node p)

  unfoldable pub commit_roots : List (List ℕ × List ℕ) → Pending → Pending
  commit_roots [] p = p
  commit_roots ((key, value) ∷ roots) (cache, batch) =
      commit_roots roots
        (L.insert key (some value) cache, batch ++ (put storage_root key value ∷ []))

  -- The state root and the block number are written to two families and cached.
  unfoldable pub commit_state : ℕ → List ℕ → L.Cache → Pending
  unfolding to_le_bytes
  commit_state block_number state_root cache = (
    L.insert trie_state_block_number_key (some (to_le_bytes 8 block_number))
        (L.insert trie_state_root_key (some state_root) cache),
    put default trie_state_root_key state_root
        ∷ put default trie_state_block_number_key (to_le_bytes 8 block_number)
        ∷ put meta_data trie_state_root_key state_root
        ∷ put meta_data trie_state_block_number_key (to_le_bytes 8 block_number)
        ∷ [],
  )

  -- The caches and the batch that are made of the state and a diff layer.
  unfoldable pub commit_batch :
      ℕ → List ℕ → Option DiffLayer → L.Cache → L.Cache → L.Cache × L.Cache × List BatchOp
  unfolding commit_state commit_nodes commit_roots
  commit_batch block_number state_root difflayer nodes roots =
      let state = commit_state block_number state_root nodes in
      elim difflayer [
        | none ↦ (state.0, roots, state.1)
        | some layer ↦
            let (nodes', batch) = commit_nodes layer.diff_nodes state in
            let (roots', batch') = commit_roots layer.diff_storage_roots (roots, batch) in
            (nodes', roots', batch')
      ]

module _ (R : RocksDb) (L : Lru) where
  -- The caches are changed also when the database refuses the batch.
  abbrev commit_done : Result (Unit {0}) R.State → Db R L → Outcome R.State L.Cache (Unit {0})
  commit_done (ok db) t = (ok tt, record t { db = db })
  commit_done (err e) t = (err database, t)

  unfoldable pub commit_difflayer :
      ℕ → List ℕ → Option DiffLayer → Db R L → Outcome R.State L.Cache (Unit {0})
  unfolding commit_batch
  commit_difflayer block_number state_root difflayer t =
      let (nodes, roots, batch) =
        commit_batch L block_number state_root difflayer t.trie_node_cache t.storage_root_cache in
      if R.has_family default t.db
      then if R.has_family meta_data t.db
        then if R.has_family storage_root t.db
          then commit_done (R.write batch t.db)
              (record t { trie_node_cache = nodes; storage_root_cache = roots })
          else (err database, t)
        else (err database, t)
      else (err database, t)

  -- `get_storage_root`: a value that is not of 32 bytes is logged and passed over.
  abbrev checked_root :
      Outcome R.State L.Cache (Option (List ℕ)) → Outcome R.State L.Cache (Option (List ℕ))
  checked_root (ok (some value), t) = (ok (if length value == 32 then some value else none), t)
  checked_root (ok none, t) = (ok none, t)
  checked_root (err e, t) = (err e, t)

  unfoldable pub get_storage_root : List ℕ → Db R L → Outcome R.State L.Cache (Option (List ℕ))
  unfolding get_raw_storage_root
  get_storage_root hashed_address t = checked_root (get_raw_storage_root R L hashed_address t)
