-- ===== src/TrieDb/Disk.antt =====
-- triedb/src/triedb_disk.rs: storage roots, and what `TrieDB` hands on to its database.
use rust_eth_triedb.Common.{ℕ, List, Option, none, some, Result, ok, err}
use rust_eth_triedb.DiffLayer.{DiffLayer, DiffLayers}
use rust_eth_triedb.DiffLayer as DiffLayer
use rust_eth_triedb.StateTrie.{StateAccount}
use rust_eth_triedb.TrieDatabase.{TrieDatabase}
use rust_eth_triedb.TrieDb.{
  TrieDb, Failure, failed, database, Externals, Called, Call, bind, get_account_with_hash_state,
}

-- The storage root of an account.
abbrev pub root_of : Option StateAccount → Option (List ℕ)
root_of none = none
root_of (some account) = some (account.storage_root)

-- The root that the diff layers have.
unfoldable pub layers_root : List ℕ → Option DiffLayers → Option (List ℕ)
unfolding DiffLayer.get_storage_root
layers_root hashed_address none = none
layers_root hashed_address (some layers) = DiffLayer.get_storage_root hashed_address layers

module _ (D : TrieDatabase) where
  abbrev pub flushed :
      Result D.Error (Unit {0}) × D.State → TrieDb D.State → Called D.State (Unit {0})
  flushed (ok u, path_db) t = (ok tt, record t { path_db = path_db })
  flushed (err e, path_db) t = (err (failed database), record t { path_db = path_db })

  unfoldable pub flush : ℕ → List ℕ → Option DiffLayer → TrieDb D.State → Called D.State (Unit {0})
  flush block_number state_root difflayer t =
      flushed (D.commit_difflayer block_number state_root difflayer t.path_db) t

  abbrev pub persisted :
      Option (Result D.Error (ℕ × List ℕ) × D.State) → TrieDb D.State → Called D.State (ℕ × List ℕ)
  persisted none t = (err Failure.panic, t)
  persisted (some (ok state, path_db)) t = (ok state, record t { path_db = path_db })
  persisted (some (err e, path_db)) t = (err (failed database), record t { path_db = path_db })

  unfoldable pub latest_persist_state : TrieDb D.State → Called D.State (ℕ × List ℕ)
  latest_persist_state t = persisted (D.latest_persist_state t.path_db) t

  abbrev pub clear_cache : TrieDb D.State → TrieDb D.State
  clear_cache t = record t { path_db = D.clear_cache t.path_db }

  module _ (X : Externals) where
    -- The root of the diff layers, or else that of the account in the trie.
    abbrev pub root_or_account : List ℕ → Option (List ℕ) → Call D X (Option (List ℕ))
    root_or_account hashed_address (some root) t = (ok (some root), t)
    root_or_account hashed_address none t =
        bind (get_account_with_hash_state D X hashed_address t)
          (λ account t'. (ok (root_of account), t'))

    unfoldable pub get_storage_root : List ℕ → Call D X (Option (List ℕ))
    unfolding layers_root get_account_with_hash_state
    get_storage_root hashed_address t =
        root_or_account hashed_address (layers_root hashed_address t.difflayer) t
