-- ===== src/TrieDb/Basic.antt =====
-- triedb/src/triedb_basic.rs, and the calls of triedb_reth.rs on single slots: storage tries, which
-- are opened on first use, the root hash and the commit of all tries. `HashMap`s are lists, in the
-- order in which they are iterated.
use rust_eth_triedb.Common.{ℕ, List, [], ◌∷◌, Bool, true, false, Option, none, some, ok, err}
use mathlib.Core.Option
use rust_eth_triedb.Maps
use rust_eth_triedb.NodeSet.{NodeSet, MergedNodeSet}
use rust_eth_triedb.NodeSet as NodeSet
use rust_eth_triedb.Hasher.{and_then}
use rust_eth_triedb.StateTrie.{
  StateTrie, StateAccount, SecureTrieId, new_id, with_owner, with_storage_root, default_account,
}
use rust_eth_triedb.StateTrie as StateTrie
use rust_eth_triedb.TrieDatabase.{TrieDatabase}
use rust_eth_triedb.TrieDb.{
  Failure, Externals, Call, Db, of_trie, pure, expect, lift, current, modify, ◌>>=◌, ◌>>◌,
  build_with_difflayer, get_account_with_hash_state, update_account_with_hash_state,
}

-- The sets of the commits, merged; `none` is a panic.
unfoldable pub merge_commits : List (Option NodeSet) → MergedNodeSet → Option MergedNodeSet
unfolding NodeSet.merge
merge_commits [] merged = some merged
merge_commits (none ∷ sets) merged = merge_commits sets merged
merge_commits (some set ∷ sets) merged =
    and_then (NodeSet.merge set merged) (λ merged'. merge_commits sets merged')

module _ (X : Externals) where
  abbrev pub hash_of : StateTrie → Option (List ℕ × StateTrie)
  hash_of s = StateTrie.hash X.codec.keccak256 X.list_header X.empty_root_hash s

  abbrev pub commit_of : Bool → StateTrie → Option (Option NodeSet)
  commit_of collect_leaf s =
      Option.map (λ (r, s'). r.1)
        (StateTrie.commit X.codec.keccak256 X.list_header X.empty_root_hash X.arrange collect_leaf
          s)

  -- The hashes of the storage tries, and the tries afterwards.
  unfoldable pub hash_tries :
      List (List ℕ × StateTrie)
      → List (List ℕ × List ℕ) × List (List ℕ × StateTrie)
      → Option (List (List ℕ × List ℕ) × List (List ℕ × StateTrie))
  unfolding StateTrie.hash
  hash_tries [] maps = some maps
  hash_tries ((key, trie) ∷ rest) (hashes, tries) =
      and_then (hash_of trie) (λ (hash, trie').
        hash_tries rest (Maps.insert key hash hashes, Maps.insert key trie' tries))

  unfoldable pub commit_tries : List (List ℕ × StateTrie) → Option (List (Option NodeSet))
  unfolding StateTrie.commit
  commit_tries [] = some []
  commit_tries ((key, trie) ∷ rest) =
      and_then (commit_of false trie)
        (λ set. and_then (commit_tries rest) (λ sets. some (set ∷ sets)))

module _ (D : TrieDatabase) (X : Externals) where
  -- The account of an address is kept beside its storage trie, a default one for no account.
  abbrev cache_account : List ℕ → Option StateAccount → Call D X (List ℕ)
  cache_account hashed_address (some account) t = (
    ok (account.storage_root),
    record t {
      accounts_with_storage_trie = Maps.insert hashed_address account t.accounts_with_storage_trie;
    },
  )
  cache_account hashed_address none t = (
    ok X.empty_root_hash,
    record t {
      accounts_with_storage_trie =
          Maps.insert hashed_address (default_account X.empty_root_hash X.keccak_empty)
            t.accounts_with_storage_trie;
    },
  )

  unfoldable pub get_storage_root_with_hash_state : List ℕ → Call D X (List ℕ)
  unfolding get_account_with_hash_state
  get_storage_root_with_hash_state hashed_address = do
    account ← get_account_with_hash_state D X hashed_address
    cache_account hashed_address account

  abbrev pub storage_id : List ℕ → List ℕ → SecureTrieId
  storage_id hashed_address storage_root =
      with_owner hashed_address (new_id X.zero_hash storage_root)

  abbrev pub open_at : List ℕ → List ℕ → Call D X StateTrie
  open_at hashed_address storage_root = do
    t ← current
    storage_trie ← lift (
        build_with_difflayer D X (some (storage_id hashed_address storage_root)) t.difflayer
          t.path_db)
    modify (λ t'. record t' {
      storage_tries = Maps.insert hashed_address storage_trie t'.storage_tries;
    })
    pure storage_trie

  abbrev pub cached_or_opened : List ℕ → Option StateTrie → Call D X StateTrie
  cached_or_opened hashed_address (some storage_trie) = pure storage_trie
  cached_or_opened hashed_address none = do
    storage_root ← get_storage_root_with_hash_state hashed_address
    open_at hashed_address storage_root

  unfoldable pub get_storage_trie_with_hash_state : List ℕ → Call D X StateTrie
  unfolding get_storage_root_with_hash_state build_with_difflayer
  get_storage_trie_with_hash_state hashed_address t =
      cached_or_opened hashed_address (Maps.get hashed_address t.storage_tries) t

  unfoldable pub get_storage_trie : List ℕ → Call D X StateTrie
  unfolding get_storage_trie_with_hash_state
  get_storage_trie address = get_storage_trie_with_hash_state (X.codec.keccak256 address)

  -- A call on a copy of the storage trie, which is dropped afterwards.
  abbrev on_copy : {A : Type 0} → (StateTrie → StateTrie.Called A) → StateTrie → Call D X A
  on_copy f storage_trie = lift (of_trie (f storage_trie).0)

  unfoldable pub get_storage : List ℕ → List ℕ → Call D X (Option (List ℕ))
  unfolding get_storage_trie StateTrie.get_storage
  get_storage address key = do
    storage_trie ← get_storage_trie address
    on_copy (StateTrie.get_storage X.codec address key) storage_trie

  unfoldable pub update_storage : List ℕ → List ℕ → List ℕ → Call D X (Unit {0})
  unfolding get_storage_trie StateTrie.update_storage
  update_storage address key value = do
    storage_trie ← get_storage_trie address
    on_copy (StateTrie.update_storage X.codec address key value) storage_trie

  unfoldable pub delete_storage : List ℕ → List ℕ → Call D X (Unit {0})
  unfolding get_storage_trie StateTrie.delete_storage
  delete_storage address key = do
    storage_trie ← get_storage_trie address
    on_copy (StateTrie.delete_storage X.codec address key) storage_trie

  unfoldable pub get_storage_with_hash_state : List ℕ → List ℕ → Call D X (Option (List ℕ))
  unfolding get_storage_trie_with_hash_state StateTrie.get_storage_with_hash_state
  get_storage_with_hash_state hashed_address hashed_key = do
    storage_trie ← get_storage_trie_with_hash_state hashed_address
    on_copy (StateTrie.get_storage_with_hash_state X.codec hashed_address hashed_key) storage_trie

  unfoldable pub update_storage_with_hash_state : List ℕ → List ℕ → List ℕ → Call D X (Unit {0})
  unfolding get_storage_trie_with_hash_state StateTrie.update_storage_with_hash_state
  update_storage_with_hash_state hashed_address hashed_key value = do
    storage_trie ← get_storage_trie_with_hash_state hashed_address
    on_copy (StateTrie.update_storage_with_hash_state X.codec hashed_address hashed_key value)
        storage_trie

  unfoldable pub delete_storage_with_hash_state : List ℕ → List ℕ → Call D X (Unit {0})
  unfolding get_storage_trie_with_hash_state StateTrie.delete_storage_with_hash_state
  delete_storage_with_hash_state hashed_address hashed_key = do
    storage_trie ← get_storage_trie_with_hash_state hashed_address
    on_copy (StateTrie.delete_storage_with_hash_state X.codec hashed_address hashed_key)
        storage_trie

  -- The account of an address is written with the root of its storage trie.
  unfoldable pub write_root : List ℕ → List ℕ → Call D X (Unit {0})
  unfolding update_account_with_hash_state
  write_root hashed_address storage_hash = do
    t ← current
    account ← expect (Maps.get hashed_address t.accounts_with_storage_trie)
    modify (λ t'. record t' {
      updated_storage_roots = Maps.insert hashed_address storage_hash t'.updated_storage_roots;
    })
    update_account_with_hash_state D X hashed_address (with_storage_root storage_hash account)

  -- The loop over the hashes of the storage tries.
  unfoldable pub write_roots : List (List ℕ × List ℕ) → Call D X (Unit {0})
  unfolding write_root
  write_roots [] = pure tt
  write_roots ((hashed_address, storage_hash) ∷ rest) = do
    write_root hashed_address storage_hash
    write_roots rest

  abbrev pub rehashed : Option (List ℕ × StateTrie) → Call D X (List ℕ)
  rehashed none t = (err Failure.panic, t)
  rehashed (some (hash, account_trie)) t = (ok hash, record t { account_trie = some account_trie })

  -- The hash of the account trie.
  abbrev hash_accounts : Call D X (List ℕ)
  hash_accounts t = rehashed (and_then t.account_trie (hash_of X)) t

  unfoldable pub calculate_hash : Call D X (List ℕ)
  unfolding hash_tries write_roots StateTrie.hash
  calculate_hash = do
    t ← current
    hashed ← expect (hash_tries X t.storage_tries ([], []))
    write_roots (hashed.0)
    modify (λ t'. record t' { storage_tries = Maps.extend t'.storage_tries (hashed.1) })
    hash_accounts

  -- The sets of the account trie and of the storage tries; the commits are on copies.
  unfoldable pub collect_sets : Db D X → Option MergedNodeSet
  unfolding commit_tries merge_commits StateTrie.commit
  collect_sets t = and_then t.account_trie (λ account_trie.
      and_then (commit_of X true account_trie)
        (λ set. and_then (commit_tries X t.storage_tries) (λ sets. merge_commits (set ∷ sets) [])))

  unfoldable pub commit : Bool → Call D X (List ℕ × MergedNodeSet)
  unfolding calculate_hash collect_sets
  commit _collect_leaf = do
    root_hash ← calculate_hash
    t ← current
    merged ← expect (collect_sets t)
    pure (root_hash, merged)
