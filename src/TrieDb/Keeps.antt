-- ===== src/TrieDb/Keeps.antt =====
-- Every call of triedb/src/triedb_basic.rs and triedb_reth.rs leaves the database as it is.
use rust_eth_triedb.Common.{
  ℕ, List, [], ◌∷◌, Bool, true, false, ◌≡◌, refl, ◌∙◌, if◌then◌else◌, Option, none, some, Result,
  ok, err,
}
use rust_eth_triedb.Maps
use rust_eth_triedb.StateTrie.{StateTrie, StateAccount, with_storage_root}
use rust_eth_triedb.StateTrie as StateTrie
use rust_eth_triedb.TrieDatabase.{TrieDatabase}
use rust_eth_triedb.TrieDb.{
  TrieDb, Failure, failed, Externals, Called, Db, bind, expect, modify, as_database, ◌>>=◌, ◌>>◌,
  on_account_trie, get_account_with_hash_state, update_account_with_hash_state,
  delete_account_with_hash_state,
}
use rust_eth_triedb.TrieDb.Disk.{get_storage_root, layers_root, root_or_account, root_of}
use rust_eth_triedb.TrieDb.Basic.{
  rehashed, hash_tries, write_root, write_roots, calculate_hash, collect_sets, commit,
}
use rust_eth_triedb.TrieDb.Reth.{
  Changes, Accounts, Roots, SlotsOf, keep_root, join, delete_rebuilt, update_accounts, account_task,
  final_account, prepare, run_tasks, sort_account,
}

-- A call that keeps the database.
abbrev pub KeepsDb : {S A : Type 0} → (TrieDb S → Called S A) → Type 0
KeepsDb {S} f = (t : TrieDb S) → (f t).1.path_db ≡ t.path_db

pub >>=-KeepsDb :
    {S A B : Type 0} (f : TrieDb S → Called S A) (g : A → TrieDb S → Called S B)
    → KeepsDb f
    → ((a : A) → KeepsDb (g a))
    → KeepsDb (f >>= g)
>>=-KeepsDb {S} {A} {B} f g kf kg t = go (f t) (kf t)
  where
    go : (o : Called S A) → o.1.path_db ≡ t.path_db → (bind o g).1.path_db ≡ t.path_db
    go (ok a, t') e = kg a t' ∙ e
    go (err x, t') e = e

pub as_database-KeepsDb :
    {S A : Type 0} (f : TrieDb S → Called S A) → KeepsDb f → KeepsDb (λ t. as_database (f t))
as_database-KeepsDb {S} {A} f kf t = go (f t) (kf t)
  where
    go : (o : Called S A) → o.1.path_db ≡ t.path_db → (as_database o).1.path_db ≡ t.path_db
    go (ok a, t') e = e
    go (err x, t') e = e

pub expect-KeepsDb : {S A : Type 0} (o : Option A) → KeepsDb {S = S} (expect o)
expect-KeepsDb none t = refl
expect-KeepsDb (some a) t = refl

pub join-keeps :
    {S A B : Type 0} (o : Called S A) (r : Result Failure B) → (join o r).1.path_db ≡ o.1.path_db
join-keeps (err Failure.panic, t) r = refl
join-keeps (ok a, t) (ok b) = refl
join-keeps (ok a, t) (err e) = refl
join-keeps (err (failed e), t) (ok b) = refl
join-keeps (err (failed e), t) (err Failure.panic) = refl
join-keeps (err (failed e), t) (err (failed x)) = refl
join-keeps (err (failed e), t) (err Failure.out_of_fuel) = refl
join-keeps (err Failure.out_of_fuel, t) r = refl

module _ (D : TrieDatabase) (X : Externals) where
  pub on_account_trie-keeps :
      {A : Type 0} (f : StateTrie → StateTrie.Called A) (o : Option StateTrie) (t : Db D X)
      → (on_account_trie D X f o t).1.path_db ≡ t.path_db
  on_account_trie-keeps f none t = refl
  on_account_trie-keeps f (some s) t = refl

  pub get_account-KeepsDb : (j : List ℕ) → KeepsDb (get_account_with_hash_state D X j)
  unfolding get_account_with_hash_state
  get_account-KeepsDb j t = on_account_trie-keeps _ t.account_trie t

  pub update_account-KeepsDb :
      (j : List ℕ) (a : StateAccount) → KeepsDb (update_account_with_hash_state D X j a)
  unfolding update_account_with_hash_state
  update_account-KeepsDb j a t = on_account_trie-keeps _ t.account_trie t

  pub delete_account-KeepsDb : (j : List ℕ) → KeepsDb (delete_account_with_hash_state D X j)
  unfolding delete_account_with_hash_state
  delete_account-KeepsDb j t = on_account_trie-keeps _ t.account_trie t

  pub get_storage_root-KeepsDb : (j : List ℕ) → KeepsDb (get_storage_root D X j)
  unfolding get_storage_root
  get_storage_root-KeepsDb j t = go (layers_root j t.difflayer)
    where
      go : (o : Option (List ℕ)) → (root_or_account D X j o t).1.path_db ≡ t.path_db
      go (some r) = refl
      go none =
          >>=-KeepsDb (get_account_with_hash_state D X j) (λ account t'. (ok (root_of account), t'))
            (get_account-KeepsDb j) (λ account t'. refl) t

  pub final_account-KeepsDb :
      (rebuild : List (List ℕ)) (j : List ℕ) (a : StateAccount)
      → KeepsDb (final_account D X rebuild j a)
  unfolding final_account
  final_account-KeepsDb rebuild j a t = go (Maps.contains j rebuild)
    where
      go :
          (c : Bool)
          → (if c
              then (ok a, t)
              else bind
                  (get_storage_root D X j t)
                  (λ root t'. (ok (keep_root a root), t'))).1.path_db
            ≡ t.path_db
      go true = refl
      go false =
          >>=-KeepsDb (get_storage_root D X j) (λ root t'. (ok (keep_root a root), t'))
            (get_storage_root-KeepsDb j) (λ root t'. refl) t

  pub prepare-KeepsDb :
      (rebuild : List (List ℕ)) (storage : SlotsOf) (states : Changes) (sorted : Changes × Accounts)
      → KeepsDb (prepare D X rebuild storage states sorted)
  unfolding prepare
  prepare-KeepsDb rebuild storage [] sorted t = refl
  prepare-KeepsDb rebuild storage ((j, none) ∷ rest) sorted t =
      prepare-KeepsDb rebuild storage rest (Maps.insert j none sorted.0, sorted.1) t
  prepare-KeepsDb rebuild storage ((j, some a) ∷ rest) sorted t =
      >>=-KeepsDb (final_account D X rebuild j a)
        (λ account. prepare D X rebuild storage rest (sort_account storage j account sorted))
        (final_account-KeepsDb rebuild j a)
        (λ account. prepare-KeepsDb rebuild storage rest (sort_account storage j account sorted)) t

  pub delete_rebuilt-KeepsDb : (js : List (List ℕ)) → KeepsDb (delete_rebuilt D X js)
  unfolding delete_rebuilt
  delete_rebuilt-KeepsDb [] t = refl
  delete_rebuilt-KeepsDb (j ∷ js) t =
      >>=-KeepsDb (λ t'. as_database (delete_account_with_hash_state D X j t'))
        (λ _. delete_rebuilt D X js)
        (as_database-KeepsDb (delete_account_with_hash_state D X j) (delete_account-KeepsDb j))
        (λ _. delete_rebuilt-KeepsDb js) t

  pub update_accounts-KeepsDb :
      (changes : Changes) (roots : Roots) → KeepsDb (update_accounts D X changes roots)
  unfolding update_accounts
  update_accounts-KeepsDb [] roots t = refl
  update_accounts-KeepsDb ((j, some a) ∷ rest) roots t =
      >>=-KeepsDb (λ t'. as_database (update_account_with_hash_state D X j a t'))
        (λ _. update_accounts D X rest (Maps.insert j a.storage_root roots))
        (as_database-KeepsDb (update_account_with_hash_state D X j a) (update_account-KeepsDb j a))
        (λ _. update_accounts-KeepsDb rest (Maps.insert j a.storage_root roots)) t
  update_accounts-KeepsDb ((j, none) ∷ rest) roots t =
      >>=-KeepsDb (λ t'. as_database (delete_account_with_hash_state D X j t'))
        (λ _. update_accounts D X rest (Maps.insert j X.empty_root_hash roots))
        (as_database-KeepsDb (delete_account_with_hash_state D X j) (delete_account-KeepsDb j))
        (λ _. update_accounts-KeepsDb rest (Maps.insert j X.empty_root_hash roots)) t

  pub run_tasks-KeepsDb :
      (rebuild : List (List ℕ)) (storage : SlotsOf) (sorted : Changes × Accounts)
      → KeepsDb (run_tasks D X rebuild storage sorted)
  unfolding run_tasks account_task
  run_tasks-KeepsDb rebuild storage sorted t =
      join-keeps (account_task D X rebuild sorted.0 t) _
      ∙ >>=-KeepsDb (delete_rebuilt D X rebuild) (λ _. update_accounts D X sorted.0 [])
          (delete_rebuilt-KeepsDb rebuild) (λ _. update_accounts-KeepsDb sorted.0 []) t

  pub write_root-KeepsDb : (j h : List ℕ) → KeepsDb (write_root D X j h)
  unfolding write_root
  write_root-KeepsDb j h t = go (Maps.get j t.accounts_with_storage_trie)
    where
      go :
          (o : Option StateAccount)
          → (bind (expect o t) (λ account.
              modify (λ t'. record t' {
                updated_storage_roots = Maps.insert j h t'.updated_storage_roots;
              })
              >> update_account_with_hash_state D X j (with_storage_root h account))).1.path_db
            ≡ t.path_db
      go none = refl
      go (some a) = update_account-KeepsDb j (with_storage_root h a) _

  pub write_roots-KeepsDb : (hashes : Roots) → KeepsDb (write_roots D X hashes)
  unfolding write_roots
  write_roots-KeepsDb [] t = refl
  write_roots-KeepsDb ((j, h) ∷ rest) t =
      >>=-KeepsDb (write_root D X j h) (λ _. write_roots D X rest) (write_root-KeepsDb j h)
        (λ _. write_roots-KeepsDb rest) t

  pub rehashed-KeepsDb : (o : Option (List ℕ × StateTrie)) → KeepsDb (rehashed D X o)
  rehashed-KeepsDb none t = refl
  rehashed-KeepsDb (some (h, s)) t = refl

  pub calculate_hash-KeepsDb : KeepsDb (calculate_hash D X)
  unfolding calculate_hash
  calculate_hash-KeepsDb t =
      >>=-KeepsDb (expect (hash_tries X t.storage_tries ([], []))) _ (expect-KeepsDb _)
        (λ hashed.
          >>=-KeepsDb (write_roots D X hashed.0) _ (write_roots-KeepsDb hashed.0)
            (λ _ t'. rehashed-KeepsDb _ _))
        t

  pub commit-KeepsDb : (collect_leaf : Bool) → KeepsDb (commit D X collect_leaf)
  unfolding commit
  commit-KeepsDb collect_leaf =
      >>=-KeepsDb (calculate_hash D X) _ calculate_hash-KeepsDb (λ root_hash t'.
        >>=-KeepsDb (expect (collect_sets D X t')) _ (expect-KeepsDb _) (λ merged t''. refl) t')
