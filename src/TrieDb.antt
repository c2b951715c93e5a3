-- ===== src/TrieDb.antt =====
-- triedb/src/triedb.rs: the account trie with the storage tries and the maps beside it, and the calls
-- that reset them. Metrics and the texts of errors are left out.
pub mod Disk
pub mod Basic
pub mod Reth
pub mod Keeps
pub mod Reset
pub mod Accounts
pub mod AccountTask
pub mod HashTries
pub mod Hashes
pub mod Plan
pub mod PlanRanges
pub mod Prepare
pub mod StorageTask
pub mod Batch
pub mod Slots
pub mod Flush
use rust_eth_triedb.Common.{
  ℕ, List, [], ◌∷◌, bytes_eq, Option, none, some, Result, ok, err, map_err,
}
use rust_eth_triedb.DiffLayer.{DiffLayers}
use rust_eth_triedb.NodeSet.{NodeSet}
use rust_eth_triedb.Trie.Monad.{SecureTrieError}
use rust_eth_triedb.Trie.Monad as Monad
use rust_eth_triedb.Trie.Resolve.{TrieEnv}
use rust_eth_triedb.StateTrie.{StateTrie, StateAccount, Codec, SecureTrieId, default_id, new_id}
use rust_eth_triedb.StateTrie as StateTrie
use rust_eth_triedb.TrieDatabase.{TrieDatabase}

-- `TrieDBError`, without the text of its messages.
pub data TrieDbError : Type 0 where
  database invalid_data not_supported : TrieDbError
  state_trie : SecureTrieError → TrieDbError

-- How a call fails. `out_of_fuel` is not one of the program's outcomes.
pub data Failure : Type 0 where
  failed : TrieDbError → Failure
  panic : Failure
  out_of_fuel : Failure

-- `?` on a call of a state trie.
abbrev pub of_fault : Monad.Fault → Failure
of_fault (Monad.Fault.fault e) = failed (state_trie e)
of_fault Monad.Fault.panic = panic
of_fault Monad.Fault.out_of_fuel = out_of_fuel

abbrev pub of_trie : {A : Type 0} → Result Monad.Fault A → Result Failure A
of_trie (ok a) = ok a
of_trie (err e) = err (of_fault e)

-- `map_err` to `TrieDBError::Database`.
abbrev pub to_database : Failure → Failure
to_database (failed e) = failed database
to_database panic = panic
to_database out_of_fuel = out_of_fuel

-- What the code calls of other crates: their hash function and encodings, the header of an RLP
-- list, the hash of the empty trie, the zero hash and the hash of no bytes. `arrange` is the order
-- in which the tasks of a committer merge their sets.
pub record Externals : Type 0 where
  pub codec : Codec
  pub list_header : ℕ → List ℕ
  pub empty_root_hash : List ℕ
  pub zero_hash : List ℕ
  pub keccak_empty : List ℕ
  pub arrange : List NodeSet → List NodeSet

pub record TrieDb (S : Type 0) : Type 0 where
  pub root_hash : List ℕ
  pub account_trie : Option StateTrie
  pub storage_tries : List (List ℕ × StateTrie)
  pub accounts_with_storage_trie : List (List ℕ × StateAccount)
  pub updated_storage_roots : List (List ℕ × List ℕ)
  pub difflayer : Option DiffLayers
  pub path_db : S

-- `&mut self` methods return their result and the state after the call, also when they fail.
abbrev pub Called : Type 0 → Type 0 → Type 0
Called S A = Result Failure A × TrieDb S

module _ {S A : Type 0} where
  abbrev pub pure : A → TrieDb S → Called S A
  pure a t = (ok a, t)

  -- `unwrap`.
  abbrev pub expect : Option A → TrieDb S → Called S A
  expect none t = (err panic, t)
  expect (some a) t = (ok a, t)

  abbrev pub lift : Result Failure A → TrieDb S → Called S A
  lift r t = (r, t)

  -- `map_err` on the result of a call.
  abbrev pub as_database : Called S A → Called S A
  as_database (ok a, t) = (ok a, t)
  as_database (err e, t) = (err (to_database e), t)

abbrev pub bind : {S A B : Type 0} → Called S A → (A → TrieDb S → Called S B) → Called S B
bind (ok a, t) f = f a t
bind (err e, t) f = (err e, t)

infixl 5 ◌>>=◌ ◌>>◌
abbrev pub ◌>>=◌ :
    {S A B : Type 0} → (TrieDb S → Called S A) → (A → TrieDb S → Called S B) → TrieDb S → Called S B
◌>>=◌ first next t = bind (first t) next

abbrev pub ◌>>◌ :
    {S B : Type 0}
    → (TrieDb S → Called S (Unit {0}))
    → (TrieDb S → Called S B)
    → TrieDb S
    → Called S B
first >> second = first >>= λ _. second

abbrev pub current : {S : Type 0} → TrieDb S → Called S (TrieDb S)
current t = (ok t, t)

abbrev pub modify : {S : Type 0} → (TrieDb S → TrieDb S) → TrieDb S → Called S (Unit {0})
modify f t = (ok tt, f t)

module _ (D : TrieDatabase) (X : Externals) where
  abbrev pub Db : Type 0
  Db = TrieDb D.State

  abbrev pub Call : Type 0 → Type 0
  Call A = Db → Called D.State A

  abbrev pub new : D.State → Db
  new path_db = record {
    root_hash = X.empty_root_hash;
    account_trie = none;
    storage_tries = [];
    accounts_with_storage_trie = [];
    updated_storage_roots = [];
    difflayer = none;
    path_db = path_db;
  }

  -- What a trie reads from.
  abbrev pub env_of : List ℕ → Option DiffLayers → D.State → TrieEnv
  env_of owner difflayer path_db = record {
    owner = owner;
    owner_is_zero = bytes_eq owner X.zero_hash;
    difflayers = difflayer;
    get_trie_node = λ key. map_err tt (D.get_trie_node key path_db).0;
  }

  -- `build_with_difflayer` of the builder of state-trie/src/secure_trie.rs.
  unfoldable pub build_with_difflayer :
      Option SecureTrieId → Option DiffLayers → D.State → Result Failure StateTrie
  unfolding StateTrie.new
  build_with_difflayer chosen difflayer path_db =
      let id : SecureTrieId = elim chosen [
        | none ↦ default_id X.empty_root_hash X.zero_hash
        | some id ↦ id
      ] in
      of_trie (StateTrie.new X.empty_root_hash X.zero_hash id (env_of id.owner difflayer path_db))

  abbrev reset : List ℕ → Option DiffLayers → Result Failure StateTrie → Call (Unit {0})
  reset root_hash difflayer (err e) t = (err e, t)
  reset root_hash difflayer (ok account_trie) t = (
    ok tt,
    record t {
      root_hash = root_hash;
      account_trie = some account_trie;
      storage_tries = [];
      accounts_with_storage_trie = [];
      updated_storage_roots = [];
      difflayer = difflayer;
    },
  )

  unfoldable pub state_at : List ℕ → Option DiffLayers → Call (Unit {0})
  unfolding build_with_difflayer
  state_at root_hash difflayer t =
      reset root_hash difflayer
        (build_with_difflayer (some (new_id X.zero_hash root_hash)) difflayer t.path_db) t

  unfoldable pub clean : Db → Db
  clean t = record t {
    root_hash = X.empty_root_hash;
    account_trie = none;
    storage_tries = [];
    accounts_with_storage_trie = [];
    updated_storage_roots = [];
    difflayer = none;
  }

  -- `clone` has the database alone in common with the original.
  abbrev pub clone : Db → Db
  clone t = new t.path_db

  -- A call on the account trie, which `unwrap` panics without.
  abbrev pub on_account_trie :
      {A : Type 0} → (StateTrie → StateTrie.Called A) → Option StateTrie → Call A
  on_account_trie f none t = (err panic, t)
  on_account_trie f (some s) t =
      let (r, s') = f s in (of_trie r, record t { account_trie = some s' })

  unfoldable pub get_account : List ℕ → Call (Option StateAccount)
  unfolding StateTrie.get_account
  get_account address t = on_account_trie (StateTrie.get_account X.codec address) t.account_trie t

  unfoldable pub update_account : List ℕ → StateAccount → Call (Unit {0})
  unfolding StateTrie.update_account
  update_account address account t =
      on_account_trie (StateTrie.update_account X.codec address account) t.account_trie t

  unfoldable pub delete_account : List ℕ → Call (Unit {0})
  unfolding StateTrie.delete_account
  delete_account address t =
      on_account_trie (StateTrie.delete_account X.codec address) t.account_trie t

  unfoldable pub get_account_with_hash_state : List ℕ → Call (Option StateAccount)
  unfolding StateTrie.get_account_with_hash_state
  get_account_with_hash_state hashed_address t =
      on_account_trie (StateTrie.get_account_with_hash_state X.codec hashed_address) t.account_trie
        t

  unfoldable pub update_account_with_hash_state : List ℕ → StateAccount → Call (Unit {0})
  unfolding StateTrie.update_account_with_hash_state
  update_account_with_hash_state hashed_address account t =
      on_account_trie (StateTrie.update_account_with_hash_state X.codec hashed_address account)
        t.account_trie t

  unfoldable pub delete_account_with_hash_state : List ℕ → Call (Unit {0})
  unfolding StateTrie.delete_account_with_hash_state
  delete_account_with_hash_state hashed_address t =
      on_account_trie (StateTrie.delete_account_with_hash_state X.codec hashed_address)
        t.account_trie t
