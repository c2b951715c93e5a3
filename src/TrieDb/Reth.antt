-- ===== src/TrieDb/Reth.antt =====
-- triedb/src/triedb_reth.rs: a batch of accounts and storage slots is applied to a state and committed.
-- `HashMap`s and `HashSet`s are lists, in the order in which they are iterated. The two tasks and the
-- tasks of the addresses share nothing that they change. When several of them fail, the first in
-- order is taken to be the one reported, but a panic of either side prevails.
use rust_eth_triedb.Common.{
  ℕ, List, [], ◌∷◌, Bool, true, false, if◌then◌else◌, Option, none, some, Result, ok, err,
}
use rust_eth_triedb.Maps
use rust_eth_triedb.DiffLayer.{DiffLayer, DiffLayers, is_empty_layer}
use rust_eth_triedb.NodeSet.{MergedNodeSet, to_diff_nodes}
use rust_eth_triedb.StateTrie.{
  StateTrie, StateAccount, with_storage_root, update_storage_u256_with_hash_state,
  delete_storage_with_hash_state,
}
use rust_eth_triedb.StateTrie as StateTrie
use rust_eth_triedb.TrieDatabase.{TrieDatabase}
use rust_eth_triedb.TrieDb.{
  Failure, failed, database, to_database, of_fault, Externals, Called, Call, pure, bind,
  as_database, current, modify, ◌>>=◌, ◌>>◌, build_with_difflayer, state_at, clean,
  update_account_with_hash_state, delete_account_with_hash_state,
}
use rust_eth_triedb.TrieDb.Disk.{get_storage_root}
use rust_eth_triedb.TrieDb.Basic.{storage_id, commit}

-- Accounts to be written, or to be deleted where there is none.
abbrev pub Changes : Type 0
Changes = List (List ℕ × Option StateAccount)

abbrev pub Accounts : Type 0
Accounts = List (List ℕ × StateAccount)

abbrev pub Roots : Type 0
Roots = List (List ℕ × List ℕ)

-- The values of the slots of one address, and of all.
abbrev pub Slots : Type 0
Slots = List (List ℕ × Option ℕ)

abbrev pub SlotsOf : Type 0
SlotsOf = List (List ℕ × Slots)

pub record TrieDbHashedPostState : Type 0 where
  pub states : Changes
  pub states_rebuild : List (List ℕ)
  pub storage_states : SlotsOf

-- The account keeps the storage root that is known for its address.
abbrev pub keep_root : StateAccount → Option (List ℕ) → StateAccount
keep_root account none = account
keep_root account (some storage_root) = with_storage_root storage_root account

abbrev pub is_some : {A : Type 0} → Option A → Bool
is_some none = false
is_some (some a) = true

-- A changed account goes to the accounts with storage if slots of it change.
abbrev pub sort_account : SlotsOf → List ℕ → StateAccount → Changes × Accounts → Changes × Accounts
sort_account storage_states hashed_address account (update_accounts, with_storage) =
    if is_some (Maps.get hashed_address storage_states)
    then (update_accounts, Maps.insert hashed_address account with_storage)
    else (Maps.insert hashed_address (some account) update_accounts, with_storage)

-- What the two tasks give; a panic of either prevails.
abbrev pub join : {S A B : Type 0} → Called S A → Result Failure B → Called S (A × B)
join (err Failure.panic, t) r = (err Failure.panic, t)
join (ok a, t) (ok b) = (ok (a, b), t)
join (ok a, t) (err e) = (err e, t)
join (err (failed e), t) (err Failure.panic) = (err Failure.panic, t)
join (err (failed e), t) r = (err (failed e), t)
join (err Failure.out_of_fuel, t) r = (err Failure.out_of_fuel, t)

abbrev pub and_then_ok :
    {A B : Type 0} → Result Failure A → (A → Result Failure B) → Result Failure B
and_then_ok (ok a) f = f a
and_then_ok (err e) f = err e

module _ (X : Externals) where
  unfoldable pub write_slot : List ℕ → List ℕ → Option ℕ → StateTrie → StateTrie.Called (Unit {0})
  unfolding update_storage_u256_with_hash_state delete_storage_with_hash_state
  write_slot hashed_address hashed_key (some new_value) s =
      update_storage_u256_with_hash_state X.codec hashed_address hashed_key new_value s
  write_slot hashed_address hashed_key none s =
      delete_storage_with_hash_state X.codec hashed_address hashed_key s

  abbrev pub written :
      StateTrie.Called (Unit {0})
      → (StateTrie → Result Failure StateTrie)
      → Result Failure StateTrie
  written (ok u, s) next = next s
  written (err e, s) next = err (to_database (of_fault e))

  -- The loop over the slots of one address.
  unfoldable pub write_slots : List ℕ → Slots → StateTrie → Result Failure StateTrie
  unfolding write_slot
  write_slots hashed_address [] s = ok s
  write_slots hashed_address ((hashed_key, new_value) ∷ kvs) s =
      written (write_slot hashed_address hashed_key new_value s)
        (λ s'. write_slots hashed_address kvs s')

module _ (D : TrieDatabase) (X : Externals) where
  abbrev pub opened_slots : List ℕ → Slots → Result Failure StateTrie → Result Failure StateTrie
  opened_slots hashed_address kvs (ok s) = write_slots X hashed_address kvs s
  opened_slots hashed_address kvs (err e) = err (to_database e)

  abbrev pub slots_of_account :
      List ℕ → Slots → Option DiffLayers → D.State → Option StateAccount → Result Failure StateTrie
  slots_of_account hashed_address kvs difflayer path_db none = err (failed database)
  slots_of_account hashed_address kvs difflayer path_db (some account) =
      opened_slots hashed_address kvs (
        build_with_difflayer D X (some (storage_id D X hashed_address account.storage_root))
          difflayer path_db)

  -- The storage trie of one address, opened at the root of its account and written.
  unfoldable pub storage_of_address :
      Accounts → Option DiffLayers → D.State → List ℕ → Slots → Result Failure StateTrie
  unfolding write_slots build_with_difflayer
  storage_of_address accounts difflayer path_db hashed_address kvs =
      slots_of_account hashed_address kvs difflayer path_db (Maps.get hashed_address accounts)

  -- Task 2.
  unfoldable pub storage_task :
      Accounts → Option DiffLayers → D.State → SlotsOf → Result Failure (List (List ℕ × StateTrie))
  unfolding storage_of_address
  storage_task accounts difflayer path_db [] = ok []
  storage_task accounts difflayer path_db ((hashed_address, kvs) ∷ rest) =
      and_then_ok (storage_of_address accounts difflayer path_db hashed_address kvs) (λ s.
        and_then_ok (storage_task accounts difflayer path_db rest)
          (λ tries. ok ((hashed_address, s) ∷ tries)))

  -- The accounts to be rebuilt are deleted.
  unfoldable pub delete_rebuilt : List (List ℕ) → Call D X (Unit {0})
  unfolding delete_account_with_hash_state
  delete_rebuilt [] = pure tt
  delete_rebuilt (hashed_address ∷ rest) = do
    λ t. as_database (delete_account_with_hash_state D X hashed_address t)
    delete_rebuilt rest

  -- The loop over the accounts without changed slots, and their storage roots.
  unfoldable pub update_accounts : Changes → Roots → Call D X Roots
  unfolding update_account_with_hash_state delete_account_with_hash_state
  update_accounts [] roots = pure roots
  update_accounts ((hashed_address, some account) ∷ rest) roots = do
    λ t. as_database (update_account_with_hash_state D X hashed_address account t)
    update_accounts rest (Maps.insert hashed_address account.storage_root roots)
  update_accounts ((hashed_address, none) ∷ rest) roots = do
    λ t. as_database (delete_account_with_hash_state D X hashed_address t)
    update_accounts rest (Maps.insert hashed_address X.empty_root_hash roots)

  -- Task 1.
  unfoldable pub account_task : List (List ℕ) → Changes → Call D X Roots
  unfolding delete_rebuilt update_accounts
  account_task states_rebuild changes = do delete_rebuilt states_rebuild; update_accounts changes []

  -- A rebuilt account stands as it is given.
  unfoldable pub final_account : List (List ℕ) → List ℕ → StateAccount → Call D X StateAccount
  unfolding get_storage_root
  final_account states_rebuild hashed_address account t =
      if Maps.contains hashed_address states_rebuild
      then (ok account, t)
      else bind (get_storage_root D X hashed_address t)
          (λ root t'. (ok (keep_root account root), t'))

  unfoldable pub prepare :
      List (List ℕ) → SlotsOf → Changes → Changes × Accounts → Call D X (Changes × Accounts)
  unfolding final_account
  prepare states_rebuild storage_states [] sorted = pure sorted
  prepare states_rebuild storage_states ((hashed_address, none) ∷ rest) sorted =
      prepare states_rebuild storage_states rest
        (Maps.insert hashed_address none sorted.0, sorted.1)
  prepare states_rebuild storage_states ((hashed_address, some new_account) ∷ rest) sorted = do
    account ← final_account states_rebuild hashed_address new_account
    prepare states_rebuild storage_states rest
        (sort_account storage_states hashed_address account sorted)

  -- Both tasks, at the state before them.
  unfoldable pub run_tasks :
      List (List ℕ) → SlotsOf → Changes × Accounts → Call D X (Roots × List (List ℕ × StateTrie))
  unfolding account_task storage_task
  run_tasks states_rebuild storage_states sorted t =
      join (account_task states_rebuild sorted.0 t)
        (storage_task sorted.1 t.difflayer t.path_db storage_states)

  -- The commit of a batch, after which the state is clean.
  unfoldable pub commit_batch : Call D X (List ℕ × MergedNodeSet × Roots)
  unfolding commit clean
  commit_batch = do
    committed ← commit D X true
    t ← current
    modify (clean D X)
    pure (committed.0, committed.1, t.updated_storage_roots)

  -- Everything behind `state_at`.
  unfoldable pub apply_batch :
      Changes → List (List ℕ) → SlotsOf → Call D X (List ℕ × MergedNodeSet × Roots)
  unfolding prepare run_tasks commit_batch
  apply_batch states states_rebuild storage_states = do
    sorted ← prepare states_rebuild storage_states states ([], [])
    modify (λ t. record t { accounts_with_storage_trie = sorted.1 })
    done ← run_tasks states_rebuild storage_states sorted
    modify (λ t. record t {
      storage_tries = Maps.extend [] (done.1);
      updated_storage_roots = Maps.extend t.updated_storage_roots (done.0);
    })
    commit_batch

  unfoldable pub batch_update_and_commit :
      List ℕ
      → Option DiffLayers
      → Changes
      → List (List ℕ)
      → SlotsOf
      → Call D X (List ℕ × MergedNodeSet × Roots)
  unfolding state_at apply_batch
  batch_update_and_commit root_hash difflayer states states_rebuild storage_states = do
    state_at D X root_hash difflayer
    apply_batch states states_rebuild storage_states

  -- The difflayer of what the batch gave, if there is anything in it.
  abbrev pub difflayer_of : List ℕ × MergedNodeSet × Roots → List ℕ × Option DiffLayer
  difflayer_of (root_hash, node_set, diff_storage_roots) =
      let layer : DiffLayer = record {
        diff_nodes = to_diff_nodes X.zero_hash node_set;
        diff_storage_roots = diff_storage_roots;
      } in
      (root_hash, if is_empty_layer layer then none else some layer)

  unfoldable pub commit_hashed_post_state :
      List ℕ → Option DiffLayers → TrieDbHashedPostState → Call D X (List ℕ × Option DiffLayer)
  unfolding batch_update_and_commit to_diff_nodes is_empty_layer
  commit_hashed_post_state root_hash difflayer state = do
    result ←
        batch_update_and_commit root_hash difflayer state.states state.states_rebuild
          state.storage_states
    pure (difflayer_of result)
