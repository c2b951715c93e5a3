-- ===== src/Examples/TrieDbs.antt =====
-- The state database at concrete inputs, over the database in memory of Examples.
use rust_eth_triedb.Common.{
  ℕ, ◌<◌, List, [], ◌∷◌, false, ◌≡◌, refl, arith, Option, none, some, ok, replicate, All,
}
use rust_eth_triedb.Maps
use rust_eth_triedb.Trie.{get}
use rust_eth_triedb.Trie as Trie
use rust_eth_triedb.Trie.Hash as Hash
use rust_eth_triedb.Trie.Ops.{get_internal}
use rust_eth_triedb.TrieTracer
use rust_eth_triedb.Node
use rust_eth_triedb.Trie.Tree.{Tree}
use rust_eth_triedb.Trie.Represents.Defs.{Represents}
use rust_eth_triedb.StateTrie.{StateTrie, StateAccount}
use rust_eth_triedb.StateTrie as StateTrie
use rust_eth_triedb.StateTrie.Laws.{IsHash, IsUsable}
use rust_eth_triedb.PathDb as PathDb
use rust_eth_triedb.Manager.{Globals, start, disable_triedb, init_global_triedb_manager}
use rust_eth_triedb.Manager.Runs.{
  IsStable, IsReady, next, here, inits, disables, IsInitialized, Reaches-IsStable,
  init_global_triedb_manager-IsInitialized,
}
use rust_eth_triedb.TrieDatabase.{TrieDatabase}
use rust_eth_triedb.PathDb.Trait.{trie_database}
use rust_eth_triedb.TrieDb.{
  Externals, Db, new, env_of, build_with_difflayer, get_account_with_hash_state,
}
use rust_eth_triedb.TrieDb.Disk.{layers_root, flush}
use rust_eth_triedb.TrieDb.Basic.{
  get_storage_root_with_hash_state, get_storage_trie_with_hash_state, get_storage_trie, get_storage,
  update_storage, delete_storage, get_storage_with_hash_state, update_storage_with_hash_state,
  delete_storage_with_hash_state, hash_of, calculate_hash,
}
use rust_eth_triedb.TrieDb.Accounts.{account_at, with_trie, now}
use rust_eth_triedb.TrieDb.HashTries.{hash_in, hashed_at}
use rust_eth_triedb.TrieDb.Hashes.{rooted_by, IsHashOf, IsRecorded, calculate_hash-replies}
use rust_eth_triedb.TrieDb.Reth.{
  Changes, SlotsOf, TrieDbHashedPostState, batch_update_and_commit, commit_hashed_post_state,
}
use rust_eth_triedb.TrieDb.Reset.{IsOver, commit_hashed_post_state-IsOver}
use rust_eth_triedb.TrieDb.Batch.{IsWrittenAt, state_opened, batch_update_and_commit-writes}
use rust_eth_triedb.TrieDb.Prepare.{IsReadable, final_of}
use rust_eth_triedb.TrieDb.PlanRanges.{IsFinal}
use rust_eth_triedb.TrieDb.Slots.{IsUnseen, writes-IsUnseen}
use rust_eth_triedb.TrieDb.Flush.{IsFlushed, flush-IsFlushed}
use rust_eth_triedb.Examples.{
  memory, memory-IsRocksDb, unbounded, unbounded-IsLru, fresh, fresh-IsCoherent, block_layer,
}
use rust_eth_triedb.Examples.Runs.{list_tag, length-replicate}
use rust_eth_triedb.Examples.States.{plain, plain-IsCodec, replicate-bytes}

abbrev no_content : List ℕ
no_content = replicate 32 5

abbrev database : TrieDatabase
database = trie_database memory unbounded no_content

abbrev externals : Externals
externals = record {
  codec = plain;
  list_header = list_tag;
  empty_root_hash = no_content;
  zero_hash = replicate 32 0;
  keccak_empty = replicate 32 9;
  arrange = λ sets. sets;
}

abbrev an_account : StateAccount
an_account = record {
  nonce = 1;
  balance = 1000;
  storage_root = no_content;
  code_hash = replicate 32 2;
}

abbrev address : List ℕ
address = replicate 32 1

abbrev other_address : List ℕ
other_address = replicate 32 2

abbrev hash_of_bytes : (x : ℕ) → x < 256 → IsHash (replicate 32 x)
hash_of_bytes x h = (length-replicate 32 x, replicate-bytes 32 x h)

-- One account with a slot, one deleted, and one to be rebuilt.
abbrev some_states : Changes
some_states = (address, some an_account) ∷ (other_address, none) ∷ []

abbrev some_slots : SlotsOf
some_slots = (address, (replicate 32 4, some 7) ∷ []) ∷ []

abbrev some_batch : TrieDbHashedPostState
some_batch = record {
  states = some_states;
  states_rebuild = replicate 32 3 ∷ [];
  storage_states = some_slots;
}

abbrev empty_db : Db database externals
empty_db = new database externals fresh

commit_hashed_post_state-IsOver_example :
    IsOver database externals fresh (
      commit_hashed_post_state database externals no_content none some_batch
        (record empty_db { root_hash = address }))
    × ((commit_hashed_post_state database externals no_content none some_batch
          (record empty_db { root_hash = address })).0
        ≡ (commit_hashed_post_state database externals no_content none some_batch
            (new database externals fresh)).0)
commit_hashed_post_state-IsOver_example =
    commit_hashed_post_state-IsOver database externals no_content none some_batch
      (record empty_db { root_hash = address })

flush-IsFlushed_example :
    IsFlushed memory unbounded no_content empty_db 7
      (replicate 32 3)
      (flush database 7 (replicate 32 3) (some block_layer) empty_db)
flush-IsFlushed_example =
    flush-IsFlushed memory unbounded no_content memory-IsRocksDb unbounded-IsLru empty_db 7
      (replicate 32 3) (some block_layer) fresh-IsCoherent (omega arith) refl (refl, (refl, tt))
      (refl, (refl, tt))

-- The tries that the empty roots open.
abbrev open_trie : List ℕ → StateTrie
open_trie owner = record {
  trie = record {
    root = Node.empty;
    env = env_of database externals owner none fresh;
    committed = false;
    unhashed = 0;
    uncommitted = 0;
    tracer = TrieTracer.new;
  };
  id = record { state_root = no_content; owner = owner };
}

abbrev open_trie-IsUsable : (owner : List ℕ) → IsUsable (open_trie owner)
open_trie-IsUsable owner = (Tree.empty, (refl, Represents.empty, tt))

open_trie-built :
    (owner : List ℕ)
    → build_with_difflayer database externals
        (some (record { state_root = no_content; owner = owner }))
        none
        fresh
      ≡ ok (open_trie owner)
unfolding build_with_difflayer StateTrie.new Trie.new
open_trie-built owner = refl

abbrev opened_db : Db database externals
opened_db = state_opened database externals no_content none (open_trie (replicate 32 0)) empty_db

opened_db-IsReadable : IsReadable database externals opened_db
unfolding get_account_with_hash_state StateTrie.get_account_with_hash_state get get_internal
opened_db-IsReadable j h = (none, refl)

some_states-IsFinal :
    All
      (IsFinal some_slots (final_of database externals (replicate 32 3 ∷ []) opened_db))
      some_states
unfolding get_account_with_hash_state StateTrie.get_account_with_hash_state get get_internal
    Maps.contains layers_root
some_states-IsFinal = (
  (
    hash_of_bytes 1 (omega arith),
    (omega arith, omega arith, hash_of_bytes 5 (omega arith), hash_of_bytes 2 (omega arith)),
  ),
  (hash_of_bytes 2 (omega arith), tt),
)

batch_update_and_commit-writes_example :
    IsWrittenAt database externals some_states (replicate 32 3 ∷ []) some_slots opened_db (
      batch_update_and_commit database externals no_content none some_states
        (replicate 32 3 ∷ [])
        some_slots
        empty_db)
unfolding Maps.get get_account_with_hash_state StateTrie.get_account_with_hash_state get
    get_internal Maps.contains layers_root
batch_update_and_commit-writes_example =
    batch_update_and_commit-writes database externals some_states (replicate 32 3 ∷ []) some_slots
      plain-IsCodec no_content none (open_trie (replicate 32 0)) empty_db
      (open_trie-built (replicate 32 0)) (open_trie-IsUsable (replicate 32 0)) opened_db-IsReadable
      (refl, (refl, tt)) some_states-IsFinal (hash_of_bytes 3 (omega arith), tt)
      (
        (
          (
            an_account,
            open_trie address,
            refl,
            open_trie-built address,
            open_trie-IsUsable address,
          ),
          (refl, tt),
          ((hash_of_bytes 4 (omega arith), omega arith), tt),
        ),
        tt,
      )

-- A first read of a slot opens the storage trie of an address without account.
writes-IsUnseen_example :
    let hashed = plain.keccak256 (1 ∷ []) in
    IsUnseen database externals
      (get_storage database externals (1 ∷ []) (2 ∷ []))
      (update_storage database externals (1 ∷ []) (3 ∷ []) (4 ∷ []))
      opened_db
    × IsUnseen database externals
        (get_storage database externals (1 ∷ []) (2 ∷ []))
        (delete_storage database externals (1 ∷ []) (3 ∷ []))
        opened_db
    × IsUnseen database externals
        (get_storage_with_hash_state database externals hashed (2 ∷ []))
        (update_storage_with_hash_state database externals hashed (3 ∷ []) (4 ∷ []))
        opened_db
    × IsUnseen database externals
        (get_storage_with_hash_state database externals hashed (2 ∷ []))
        (delete_storage_with_hash_state database externals hashed (3 ∷ []))
        opened_db
unfolding get_storage_trie get_storage_trie_with_hash_state get_storage_root_with_hash_state
    build_with_difflayer StateTrie.new Trie.new get_account_with_hash_state
    StateTrie.get_account_with_hash_state get get_internal Maps.get Maps.insert
writes-IsUnseen_example =
    writes-IsUnseen database externals (1 ∷ []) (2 ∷ []) (3 ∷ []) (4 ∷ []) opened_db
      (open_trie (plain.keccak256 (1 ∷ []))) _ refl

-- The storage trie of an account was opened; its root is that of the empty trie.
abbrev warm_db : Db database externals
warm_db = record opened_db {
  storage_tries = (address, open_trie address) ∷ [];
  accounts_with_storage_trie = (address, an_account) ∷ [];
}

warm_db-hashed : hash_of externals (open_trie address) ≡ some (no_content, open_trie address)
unfolding StateTrie.hash Hash.hash
warm_db-hashed = refl

calculate_hash-replies_example :
    (s : StateTrie) × IsUsable s
    × IsHashOf database externals plain-IsCodec
        (hash_of externals s)
        (calculate_hash database externals warm_db)
    × IsRecorded database externals plain-IsCodec warm_db
        (calculate_hash database externals warm_db).1
    × ((j : List ℕ)
        → IsHash j
        → account_at database externals (with_trie database externals s warm_db) j
          ≡ now
              (rooted_by
                (hash_in (hashed_at externals warm_db.storage_tries j))
                (Maps.get j warm_db.accounts_with_storage_trie))
              (account_at database externals warm_db j))
unfolding Maps.get
calculate_hash-replies_example =
    calculate_hash-replies database externals plain-IsCodec warm_db
      (open_trie (replicate 32 0), refl, open_trie-IsUsable (replicate 32 0)) (refl, tt)
      (
        (
          no_content,
          open_trie address,
          warm_db-hashed,
          (
            hash_of_bytes 1 (omega arith),
            an_account,
            refl,
            (
              omega arith,
              omega arith,
              hash_of_bytes 5 (omega arith),
              hash_of_bytes 2 (omega arith),
            ),
          ),
        ),
        tt,
      )

abbrev open_fresh : List ℕ → Option (PathDb.Db memory unbounded)
open_fresh path = some fresh

-- The manager was initialized, and is then to be disabled, which panics.
abbrev initialized : Globals (Db database externals)
initialized = (init_global_triedb_manager database externals open_fresh (47 ∷ []) start).1

Reaches-IsStable_example :
    IsReady initialized.manager_instance initialized.empty_root_node
    × IsStable initialized.active_triedb (disable_triedb initialized).1.active_triedb
    × IsStable initialized.manager_instance (disable_triedb initialized).1.manager_instance
Reaches-IsStable_example =
    Reaches-IsStable database externals open_fresh initialized (disable_triedb initialized).1
      (next (inits (47 ∷ [])) here) (next disables here)

init_global_triedb_manager-IsInitialized_example :
    IsInitialized database externals open_fresh
      (47 ∷ [])
      (disable_triedb start).1
      (init_global_triedb_manager database externals open_fresh (47 ∷ []) (disable_triedb start).1)
init_global_triedb_manager-IsInitialized_example =
    init_global_triedb_manager-IsInitialized database externals open_fresh (47 ∷ [])
      (disable_triedb start).1
