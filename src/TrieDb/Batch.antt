-- ===== src/TrieDb/Batch.antt =====
-- `batch_update_and_commit` of triedb/src/triedb_reth.rs up to its commit.
use mathlib.Core.Option
use rust_eth_triedb.Maps
use rust_eth_triedb.Common.{
  ℕ, List, [], ◌∷◌, true, ◌≡◌, refl, ap, ◌∙◌, if◌then◌else◌, Option, none, some, ok, All,
}
use rust_eth_triedb.Maps.{get-insert}
use rust_eth_triedb.DiffLayer.Order.{or_else}
use rust_eth_triedb.NodeSet.Laws.{IsMap, or_else-none}
use rust_eth_triedb.StateTrie.{StateTrie, StateAccount, new_id}
use rust_eth_triedb.StateTrie.Laws.{IsHash, IsUsable, IsCodec}
use rust_eth_triedb.TrieDatabase.{TrieDatabase}
use rust_eth_triedb.TrieDb.{Externals, Called, Db, build_with_difflayer, state_at}
use rust_eth_triedb.TrieDb.Reth.{
  Changes, Accounts, SlotsOf, is_some, Roots, Slots, run_tasks, commit_batch, apply_batch,
  batch_update_and_commit,
}
use rust_eth_triedb.TrieDb.Accounts.{account_at, IsReady, with_trie, now}
use rust_eth_triedb.DiffLayer.{DiffLayers}
use rust_eth_triedb.NodeSet.{MergedNodeSet}
use rust_eth_triedb.TrieDb.Basic.{storage_id}
use rust_eth_triedb.TrieDb.AccountTask.{root_after, account_task-replies}
use rust_eth_triedb.TrieDb.StorageTask.{IsSlot, IsStored, AreWritten, storage_task-AreWritten}
use rust_eth_triedb.TrieDb.Plan.{plan, change_for, account_for, get-plan}
use rust_eth_triedb.TrieDb.PlanRanges.{entries-found, IsFinal, final-hashes, plan-IsChange}
use rust_eth_triedb.TrieDb.Prepare.{final_of, IsReadable, prepare-Becomes}

module _ (D : TrieDatabase) (X : Externals) where
  -- The state that `state_at` leaves.
  abbrev pub state_opened : List ℕ → Option DiffLayers → StateTrie → Db D X → Db D X
  state_opened root_hash difflayer account_trie t = record t {
    root_hash = root_hash;
    account_trie = some account_trie;
    storage_tries = [];
    accounts_with_storage_trie = [];
    updated_storage_roots = [];
    difflayer = difflayer;
  }

  -- The account that is written at an address has a storage trie that can be opened, at its root.
  abbrev pub IsStoredIn :
      Changes
      → (List ℕ → StateAccount → StateAccount)
      → Option DiffLayers
      → D.State
      → List ℕ × Slots
      → Type 0
  IsStoredIn states final difflayer path_db (k, kvs) =
      ((a : StateAccount) × (s : StateTrie) × (Maps.get k states ≡ some (some a))
        × (build_with_difflayer D X (some (storage_id D X k (final k a).storage_root)) difflayer
              path_db
            ≡ ok s)
        × IsUsable s)
      × IsMap kvs
      × All IsSlot kvs

  stored :
      (states : Changes) (storage_states : SlotsOf) (final : List ℕ → StateAccount → StateAccount)
      (accounts : Accounts) (difflayer : Option DiffLayers) (path_db : D.State)
      → ((j : List ℕ)
          → Maps.get j accounts ≡ account_for storage_states final j (Maps.get j states))
      → (m : SlotsOf) → All (λ e. is_some (Maps.get e.0 storage_states) ≡ true) m
      → All (IsStoredIn states final difflayer path_db) m
      → All (IsStored D X accounts difflayer path_db) m
  stored states storage_states final accounts difflayer path_db found [] cs hs = tt
  stored states storage_states final accounts difflayer path_db found ((k, kvs) ∷ m) (c, cs)
        (((a, s, e, is_opened, usable), distinct, slots), hs) =
      (
        ((s, (final k a, found k ∙ rw (e, c) refl, is_opened, usable)), distinct, slots),
        stored states storage_states final accounts difflayer path_db found m cs hs,
      )

  module _ (states : Changes) (rebuild : List (List ℕ)) (storage_states : SlotsOf) where
    -- A batch at `t` comes to its commit with the accounts and the storage tries written.
    abbrev pub IsWrittenAt : Db D X → Called D.State (List ℕ × MergedNodeSet × Roots) → Type 0
    IsWrittenAt t o =
        (s : StateTrie) × (accounts : Accounts) × (tries : List (List ℕ × StateTrie))
        × (roots : Roots) × (o
            ≡ commit_batch D X (record t {
              account_trie = some s;
              storage_tries = Maps.extend [] tries;
              accounts_with_storage_trie = accounts;
              updated_storage_roots = Maps.extend t.updated_storage_roots roots;
            }))
        × IsUsable s
        × ((j : List ℕ)
            → IsHash j
            → account_at D X (with_trie D X s t) j
              ≡ now
                  (or_else
                    (change_for storage_states (final_of D X rebuild t) j (Maps.get j states))
                    (if Maps.contains j rebuild then some none else none))
                  (account_at D X t j))
        × ((j : List ℕ)
            → (Maps.get j accounts
                ≡ account_for storage_states (final_of D X rebuild t) j (Maps.get j states))
              × (Maps.get j roots
                  ≡ Option.map (root_after D X)
                      (change_for storage_states (final_of D X rebuild t) j (Maps.get j states))))
        × AreWritten D X accounts t.difflayer t.path_db storage_states tries

    module _ (laws : IsCodec X.codec) where
      apply_batch-IsWrittenAt :
          (t : Db D X)
          → IsReady D X t
          → IsReadable D X t
          → IsMap states
          → All (IsFinal storage_states (final_of D X rebuild t)) states
          → All IsHash rebuild
          → All (IsStoredIn states (final_of D X rebuild t) t.difflayer t.path_db) storage_states
          → IsWrittenAt t (apply_batch D X states rebuild storage_states t)
      unfolding apply_batch run_tasks Maps.get
      apply_batch-IsWrittenAt t ready readable distinct fs rs ss =
          let final = final_of D X rebuild t in
          let sorted : Changes × Accounts = plan storage_states final states ([], []) in
          let (s, e, usable, same) =
            prepare-Becomes D X rebuild storage_states final states ([], []) t ready readable
              (λ j a h. refl) (final-hashes storage_states final states fs) in
          let (distinct', hs') = plan-IsChange storage_states final states ([], []) fs tt tt in
          let changes_found : (j : List ℕ)
              → Maps.get j sorted.0 ≡ change_for storage_states final j (Maps.get j states) =
            λ j. (get-plan storage_states final j states ([], []) distinct).0 ∙ or_else-none _ in
          let accounts_found : (j : List ℕ)
              → Maps.get j sorted.1 ≡ account_for storage_states final j (Maps.get j states) =
            λ j. (get-plan storage_states final j states ([], []) distinct).1 ∙ or_else-none _ in
          let t' : Db D X = record t {
            account_trie = some s;
            accounts_with_storage_trie = sorted.1;
          } in
          let (s', roots, e', usable', replies, roots_found) =
            account_task-replies D X laws rebuild sorted.0 t' (s, refl, usable) rs distinct' hs' in
          let (tries, e'', written) =
            storage_task-AreWritten D X sorted.1 t.difflayer t.path_db laws storage_states (
              stored states storage_states final sorted.1 t.difflayer t.path_db accounts_found
                storage_states (entries-found storage_states storage_states (λ e q. q)) ss) in
          (
            s',
            sorted.1,
            tries,
            roots,
            rw (e, e', e'') refl,
            usable',
            λ j h.
                replies j h
                ∙ ap
                    (λ o.
                      now (or_else o (if Maps.contains j rebuild then some none else none))
                        (account_at D X t' j))
                    (changes_found j)
                ∙ ap
                    (now (
                      or_else (change_for storage_states final j (Maps.get j states))
                        (if Maps.contains j rebuild then some none else none)))
                    (same j h),
            λ j. (
              accounts_found j,
              roots_found j ∙ ap (Option.map (root_after D X)) (changes_found j),
            ),
            written,
          )

      -- With a codec that keeps its laws, when the trie at the root hash opens as a usable
      -- one that can read every account it holds, no address stands twice in the states,
      -- addresses and slot keys are of 32 bytes, accounts and values are in range, and
      -- each address with slots has an account to be written whose storage trie opens as a
      -- usable one, `batch_update_and_commit` comes to its commit: the account trie then
      -- replies for every address the account of the batch without changed slots, with the
      -- storage root that was known unless it is rebuilt, none where the batch deletes it
      -- or it is to be rebuilt, and else what it replied before; the accounts with changed
      -- slots are set aside in this form; before the commit a storage root is recorded for
      -- each changed account without changed slots, also where its storage is not touched,
      -- that with which it is written or the empty one for a deletion, and for no other;
      -- and each storage trie replies the new values, and at other keys the old.
      pub batch_update_and_commit-writes :
          (root_hash : List ℕ) (difflayer : Option DiffLayers) (account_trie : StateTrie)
          (t : Db D X)
          → build_with_difflayer D X (some (new_id X.zero_hash root_hash)) difflayer t.path_db
            ≡ ok account_trie
          → IsUsable account_trie
          → let t' = state_opened root_hash difflayer account_trie t in
            IsReadable D X t'
            → IsMap states
            → All (IsFinal storage_states (final_of D X rebuild t')) states
            → All IsHash rebuild
            → All (IsStoredIn states (final_of D X rebuild t') difflayer t.path_db) storage_states
            → IsWrittenAt t'
                (batch_update_and_commit D X root_hash difflayer states rebuild storage_states t)
      unfolding batch_update_and_commit state_at
      batch_update_and_commit-writes root_hash difflayer account_trie t open_ usable =
          let t' = state_opened root_hash difflayer account_trie t in
          λ readable distinct fs rs ss.
            rw open_
              (apply_batch-IsWrittenAt t' (account_trie, refl, usable) readable distinct fs rs ss)
