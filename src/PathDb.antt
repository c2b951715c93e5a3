-- ===== src/PathDb.antt =====
-- db/pathdb/src/pathdb.rs: the node and storage-root store over RocksDB with two LRU caches.
-- RocksDB and the LRU map of `schnellru` are parameters (PathDb/Store); metrics, traces and the texts
-- of errors are left out.
pub mod Store
pub mod Coherence
pub mod Commit
pub mod Persisted
pub mod Trait
use rust_eth_triedb.Common.{
  ℕ, zero, suc, ◌/◌, ◌%◌, List, [], ◌∷◌, ◌++◌, Bool, true, false, if◌then◌else◌, ◌==◌, length,
  Option, none, some, Result, ok, err,
}
use rust_eth_triedb.DiffLayer.{DiffLayer, TrieNode, is_deleted}
use Store.{Family, default, meta_data, storage_root, RocksDb, Lru, BatchOp, put, delete}

-- `PathProviderError`, without the text of its messages.
pub data PathProviderError : Type 0 where
  database io serialization deserialization key_not_found invalid_operation : PathProviderError

-- The database and the caches; the options have no part in what the operations do.
pub record PathDb (S C : Type 0) : Type 0 where
  pub db : S
  pub trie_node_cache : C
  pub storage_root_cache : C

-- Every method takes `&self`; the caches and the database are changed behind it.
abbrev pub Outcome : Type 0 → Type 0 → Type 0 → Type 0
Outcome S C A = Result PathProviderError A × PathDb S C

-- TRIE_STATE_ROOT_KEY and TRIE_STATE_BLOCK_NUMBER_KEY.
abbrev pub trie_state_root_key : List ℕ
trie_state_root_key = 115 ∷ 116 ∷ 97 ∷ 116 ∷ 101 ∷ 95 ∷ 114 ∷ 111 ∷ 111 ∷ 116 ∷ []

abbrev pub trie_state_block_number_key : List ℕ
trie_state_block_number_key = 98 ∷ 108 ∷ 111 ∷ 99 ∷ 107 ∷ 95 ∷ 110 ∷ 117 ∷ 109 ∷ 98 ∷ 101 ∷ 114 ∷ []

-- `to_le_bytes`, with the number of bytes.
unfoldable pub to_le_bytes : ℕ → ℕ → List ℕ
to_le_bytes zero n = []
to_le_bytes (suc w) n = (n % 256) ∷ to_le_bytes w (n / 256)

module _ (R : RocksDb) (L : Lru) where
  abbrev pub Db : Type 0
  Db = PathDb R.State L.Cache

  abbrev cached_trie_node : List ℕ → Option (List ℕ) → Db → Db
  cached_trie_node key value t = record t { trie_node_cache = L.insert key value t.trie_node_cache }

  abbrev uncached_trie_node : List ℕ → Db → Db
  uncached_trie_node key t = record t { trie_node_cache = L.remove key t.trie_node_cache }

  -- A value that the database has is cached.
  abbrev read_trie_node :
      List ℕ → Result (Unit {0}) (Option (List ℕ)) → Db → Outcome R.State L.Cache (Option (List ℕ))
  read_trie_node key (ok (some value)) t = (ok (some value), cached_trie_node key (some value) t)
  read_trie_node key (ok none) t = (ok none, t)
  read_trie_node key (err e) t = (err database, t)

  -- `get_raw_trie_node`, and `get_trie_node` of the trait.
  unfoldable pub get_raw_trie_node : List ℕ → Db → Outcome R.State L.Cache (Option (List ℕ))
  get_raw_trie_node key t = elim (L.peek key t.trie_node_cache) [
    | some cached_value ↦ (ok cached_value, t)
    | none ↦
        if R.has_family default t.db
        then read_trie_node key (R.get default key t.db) t
        else (err database, t)
  ]

  -- `get_raw_meta_data`, which reads the family and the cache of the trie nodes.
  unfoldable pub get_raw_meta_data : List ℕ → Db → Outcome R.State L.Cache (Option (List ℕ))
  get_raw_meta_data key t = elim (L.peek key t.trie_node_cache) [
    | some cached_value ↦ (ok cached_value, t)
    | none ↦
        if R.has_family default t.db
        then read_trie_node key (R.get default key t.db) t
        else (err database, t)
  ]

  abbrev put_done : List ℕ → Result (Unit {0}) R.State → Db → Outcome R.State L.Cache (Unit {0})
  put_done key (ok db) t = (ok tt, record t { db = db })
  put_done key (err e) t = (err database, uncached_trie_node key t)

  -- The cache is written before the database, and its entry removed if the database refuses.
  unfoldable pub put_raw_trie_node : List ℕ → List ℕ → Db → Outcome R.State L.Cache (Unit {0})
  put_raw_trie_node key value t =
      let t' = cached_trie_node key (some value) t in
      if R.has_family default t.db
      then put_done key (R.put default key value t.db) t'
      else (err database, t')

  abbrev delete_done : Result (Unit {0}) R.State → Db → Outcome R.State L.Cache (Unit {0})
  delete_done (ok db) t = (ok tt, record t { db = db })
  delete_done (err e) t = (err database, t)

  unfoldable pub delete_raw_trie_node : List ℕ → Db → Outcome R.State L.Cache (Unit {0})
  delete_raw_trie_node key t =
      let t' = uncached_trie_node key t in
      if R.has_family default t.db
      then delete_done (R.delete default key t.db) t'
      else (err database, t')

  -- On a hit in the database an empty value is cached.
  abbrev found_trie_node :
      List ℕ → Result (Unit {0}) (Option (List ℕ)) → Db → Outcome R.State L.Cache Bool
  found_trie_node key (ok (some value)) t = (ok true, cached_trie_node key (some []) t)
  found_trie_node key (ok none) t = (ok false, t)
  found_trie_node key (err e) t = (err database, t)

  unfoldable pub exists_raw_trie_node : List ℕ → Db → Outcome R.State L.Cache Bool
  exists_raw_trie_node key t = elim (L.peek key t.trie_node_cache) [
    | some (some cached_value) ↦ (ok true, t)
    | some none ↦ (ok false, t)
    | none ↦
        if R.has_family default t.db
        then found_trie_node key (R.get default key t.db) t
        else (err database, t)
  ]

  abbrev read_storage_root :
      List ℕ → Result (Unit {0}) (Option (List ℕ)) → Db → Outcome R.State L.Cache (Option (List ℕ))
  read_storage_root key (ok (some value)) t = (
    ok (some value),
    record t { storage_root_cache = L.insert key (some value) t.storage_root_cache },
  )
  read_storage_root key (ok none) t = (ok none, t)
  read_storage_root key (err e) t = (err database, t)

  unfoldable pub get_raw_storage_root : List ℕ → Db → Outcome R.State L.Cache (Option (List ℕ))
  get_raw_storage_root key t = elim (L.peek key t.storage_root_cache) [
    | some cached_value ↦ (ok cached_value, t)
    | none ↦
        if R.has_family storage_root t.db
        then read_storage_root key (R.get storage_root key t.db) t
        else (err database, t)
  ]

  unfoldable pub clear_cache : Db → Db
  clear_cache t = record t {
    trie_node_cache = L.clear t.trie_node_cache;
    storage_root_cache = L.clear t.storage_root_cache;
  }
