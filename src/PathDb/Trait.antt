-- ===== src/PathDb/Trait.antt =====
-- `impl TrieDatabase for PathDB` of db/pathdb/src/pathdb.rs.
use rust_eth_triedb.Common.{ℕ, List}
use rust_eth_triedb.TrieDatabase.{TrieDatabase}
use rust_eth_triedb.PathDb.{
  Db, PathProviderError, get_raw_trie_node, put_raw_trie_node, exists_raw_trie_node,
  delete_raw_trie_node, clear_cache,
}
use rust_eth_triedb.PathDb.Store.{RocksDb, Lru}
use rust_eth_triedb.PathDb.Commit.{commit_difflayer, get_storage_root}
use rust_eth_triedb.PathDb.Persisted.{latest_persist_state}

-- `remove_trie_node` drops the result of the deletion.
abbrev pub trie_database : RocksDb → Lru → List ℕ → TrieDatabase
trie_database R L empty_root_hash = record {
  State = Db R L;
  Error = PathProviderError;
  get_trie_node = get_raw_trie_node R L;
  insert_trie_node = put_raw_trie_node R L;
  contains_trie_node = exists_raw_trie_node R L;
  remove_trie_node = λ path t. (delete_raw_trie_node R L path t).1;
  get_storage_root = get_storage_root R L;
  commit_difflayer = commit_difflayer R L;
  latest_persist_state = latest_persist_state R L empty_root_hash;
  clear_cache = clear_cache R L;
}
