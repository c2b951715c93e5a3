-- ===== src/TrieDb/Flush.antt =====
-- `flush` and `latest_persist_state` of triedb/src/triedb_disk.rs on the database of db/pathdb.
use rust_eth_triedb.Common.{ℕ, ◌^◌, ◌<◌, List, ◌≡◌, refl, length, Option, none, some, ok, err}
use rust_eth_triedb.DiffLayer.{DiffLayer}
use rust_eth_triedb.PathDb.{Db, Outcome, trie_state_root_key, trie_state_block_number_key}
use rust_eth_triedb.PathDb.Store.{RocksDb, IsRocksDb, Lru, IsLru, BatchOp}
use rust_eth_triedb.PathDb.Coherence.{IsCoherent}
use rust_eth_triedb.PathDb.Commit as Commit
use rust_eth_triedb.PathDb.Commit.Laws.{IsCommitted, commit_difflayer-IsCommitted}
use rust_eth_triedb.PathDb.Persisted.{IsState, IsPersisted, IsFreeIn, commit_difflayer-IsPersisted}
use rust_eth_triedb.PathDb.Trait.{trie_database}
use rust_eth_triedb.TrieDb.{TrieDb, failed, database, Called}
use rust_eth_triedb.TrieDb.Disk.{flushed, flush, persisted, latest_persist_state}

module _ (R : RocksDb) (L : Lru) (empty_root_hash : List ℕ) where
  abbrev pub State : Type 0
  State = TrieDb (Db R L)

  -- The state that is read, unless the database fails.
  abbrev pub IsLatest : ℕ → List ℕ → Called (Db R L) (ℕ × List ℕ) → Type 0
  IsLatest block_number state_root (ok p, t) = p ≡ (block_number, state_root)
  IsLatest block_number state_root (err e, t) = e ≡ failed database

  -- Only the database is another one, and after a success it has the state.
  abbrev pub IsFlushed : State → ℕ → List ℕ → Called (Db R L) (Unit {0}) → Type 0
  IsFlushed t block_number state_root (ok u, t') =
      (t' ≡ record t { path_db = t'.path_db })
      × IsCoherent R L (t'.path_db)
      × IsLatest block_number state_root
          (latest_persist_state (trie_database R L empty_root_hash) t')
  IsFlushed t block_number state_root (err e, t') =
      (t' ≡ record t { path_db = t'.path_db }) × (e ≡ failed database)

  IsState-IsLatest :
      (n : ℕ) (root : List ℕ) (t : State) (o : Option (Outcome R.State L.Cache (ℕ × List ℕ)))
      → IsState R L n root o
      → IsLatest n root (persisted (trie_database R L empty_root_hash) o t)
  IsState-IsLatest n root t none s = elim s [ ]
  IsState-IsLatest n root t (some (ok p, db)) s = s
  IsState-IsLatest n root t (some (err e, db)) s = refl

  module _ (rocks : IsRocksDb R) (lru : IsLru L) where
    -- With a database and an LRU map that keep their laws, from caches that agree with the
    -- database, for a block number below 2 ^ 64, a state root of 32 bytes and a diff layer
    -- without nodes under the two keys of the state: `flush` changes nothing but the
    -- database and reports no error but that of a database; after a success the caches agree
    -- with the database, and `latest_persist_state` replies that block number and that state
    -- root, or the error of a database, and does not panic.
    pub flush-IsFlushed :
        (t : State) (block_number : ℕ) (state_root : List ℕ) (difflayer : Option DiffLayer)
        → IsCoherent R L t.path_db
        → block_number < 2 ^ 64
        → length state_root ≡ 32
        → IsFreeIn trie_state_block_number_key difflayer
        → IsFreeIn trie_state_root_key difflayer
        → IsFlushed t block_number state_root
            (flush (trie_database R L empty_root_hash) block_number state_root difflayer t)
    unfolding flush latest_persist_state
    flush-IsFlushed t n root difflayer coherent m l free free' =
        go
          (Commit.commit_batch L n root difflayer t.path_db.trie_node_cache
            t.path_db.storage_root_cache).2
          (Commit.commit_difflayer R L n root difflayer t.path_db)
          (commit_difflayer-IsCommitted R L rocks lru t.path_db n root difflayer coherent)
          (commit_difflayer-IsPersisted R L rocks lru empty_root_hash t.path_db n root difflayer
            coherent m l free free')
      where
        go :
            (batch : List BatchOp) (o : Outcome R.State L.Cache (Unit {0}))
            → IsCommitted R L batch t.path_db o
            → IsPersisted R L empty_root_hash n root o
            → IsFlushed t n root (flushed (trie_database R L empty_root_hash) o t)
        go batch (ok u, db) c p = (refl, c.1, IsState-IsLatest n root _ _ p)
        go batch (err e, db) c p = (refl, refl)
