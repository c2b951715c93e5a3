-- ===== src/TrieDb/AccountTask.antt =====
-- The task of triedb/src/triedb_reth.rs that writes the accounts without changed slots.
use rust_eth_triedb.Common.{
  ℕ, List, [], ◌∷◌, Bool, true, false, ◌≡◌, refl, ap, sym, ◌∙◌, if◌then◌else◌, Option, none, some,
  ok, bytes_eq, bytes_eq→eq, Bool-cases, ◌⊎◌, inl, inr, All,
}
use mathlib.Core.Option
use rust_eth_triedb.Maps
use rust_eth_triedb.Maps.{get-insert}
use rust_eth_triedb.DiffLayer.Order.{or_else}
use rust_eth_triedb.NodeSet.Laws.{IsMap, or_else-none}
use rust_eth_triedb.StateTrie.{StateTrie, StateAccount}
use rust_eth_triedb.StateTrie.Laws.{IsHash, IsAccount, IsCodec, IsUsable}
use rust_eth_triedb.TrieDatabase.{TrieDatabase}
use rust_eth_triedb.TrieDb.{
  Externals, Db, as_database, update_account_with_hash_state, delete_account_with_hash_state,
}
use rust_eth_triedb.TrieDb.Reth.{Changes, Roots, delete_rebuilt, update_accounts, account_task}
use rust_eth_triedb.TrieDb.Accounts.{
  account_at, IsReady, with_trie, Becomes, now, >>-Becomes, Becomes-cong, stays-Becomes,
  delete-Becomes, update-Becomes,
}

-- Addresses are hashes, and accounts in range.
abbrev pub IsChange : List ℕ × Option StateAccount → Type 0
IsChange (k, none) = IsHash k
IsChange (k, some a) = IsHash k × IsAccount a

module _ (D : TrieDatabase) (X : Externals) where
  delete_rebuilt-Becomes :
      (ks : List (List ℕ)) (t : Db D X)
      → IsReady D X t
      → All IsHash ks
      → Becomes D X t t
          (λ j. if Maps.contains j ks then some none else none)
          tt
          (delete_rebuilt D X ks t)
  unfolding delete_rebuilt Maps.contains
  delete_rebuilt-Becomes [] t ready hs = stays-Becomes D X tt t ready
  delete_rebuilt-Becomes (k ∷ ks) t ready (h, hs) =
      Becomes-cong D X t t _ _ tt _ (λ j. either (bytes_eq k j) (Maps.contains j ks))
        (>>-Becomes D X t t t (λ t'. as_database (delete_account_with_hash_state D X k t'))
          (delete_rebuilt D X ks) _ _ tt (delete-Becomes D X t k ready h)
          (λ s usable. delete_rebuilt-Becomes ks (with_trie D X s t) (s, refl, usable) hs))
    where
      either :
          (b c : Bool)
          → ◌≡◌ {A = Option (Option StateAccount)}
              (or_else (if c then some none else none) (if b then some none else none))
              (if if b then true else c then some none else none)
      either true true = refl
      either true false = refl
      either false true = refl
      either false false = refl

  abbrev pub root_after : Option StateAccount → List ℕ
  root_after none = X.empty_root_hash
  root_after (some a) = a.storage_root

  -- The storage roots that are reported for changed accounts.
  unfoldable pub roots_after : Changes → Roots → Roots
  unfolding Maps.insert
  roots_after [] roots = roots
  roots_after ((k, o) ∷ rest) roots = roots_after rest (Maps.insert k (root_after o) roots)

  -- One more change, at a key that no later change has.
  one_change :
      (j k : List ℕ) (o : Option StateAccount) (rest : Changes)
      → Maps.get k rest ≡ none
      → or_else (Maps.get j rest) (if bytes_eq k j then some o else none)
        ≡ (if bytes_eq k j then some o else Maps.get j rest)
  one_change j k o rest free = elim (Bool-cases (bytes_eq k j)) [
    | inl e ↦ rw (e, sym (bytes_eq→eq k j e), free) refl
    | inr e ↦ rw e (or_else-none (Maps.get j rest))
  ]

  get-roots_after :
      (j : List ℕ) (changes : Changes) (roots : Roots)
      → IsMap changes
      → Maps.get j (roots_after changes roots)
        ≡ or_else (Option.map root_after (Maps.get j changes)) (Maps.get j roots)
  unfolding roots_after Maps.get
  get-roots_after j [] roots distinct = refl
  get-roots_after j ((k, o) ∷ rest) roots (free, distinct) =
      get-roots_after j rest (Maps.insert k (root_after o) roots) distinct
      ∙ ap (or_else (Option.map root_after (Maps.get j rest))) (get-insert k j (root_after o) roots)
      ∙ here (Bool-cases (bytes_eq k j))
    where
      here :
          (bytes_eq k j ≡ true) ⊎ (bytes_eq k j ≡ false)
          → or_else
              (Option.map root_after (Maps.get j rest))
              (if bytes_eq k j then some (root_after o) else Maps.get j roots)
            ≡ or_else
                (Option.map root_after (if bytes_eq k j then some o else Maps.get j rest))
                (Maps.get j roots)
      here (inl e) = rw (e, sym (bytes_eq→eq k j e), free) refl
      here (inr e) = rw e refl

  module _ (laws : IsCodec X.codec) where
    update_accounts-Becomes :
        (changes : Changes) (roots : Roots) (t : Db D X)
        → IsReady D X t
        → IsMap changes
        → All IsChange changes
        → Becomes D X t t
            (λ j. Maps.get j changes)
            (roots_after changes roots)
            (update_accounts D X changes roots t)
    unfolding update_accounts roots_after Maps.get
    update_accounts-Becomes [] roots t ready distinct hs = stays-Becomes D X roots t ready
    update_accounts-Becomes ((k, some a) ∷ rest) roots t ready (free, distinct) ((h, fits), hs) =
        Becomes-cong D X t t _ _ _ _ (λ j. one_change j k (some a) rest free)
          (>>-Becomes D X t t t (λ t'. as_database (update_account_with_hash_state D X k a t'))
            (update_accounts D X rest (Maps.insert k a.storage_root roots)) _ _ _
            (update-Becomes D X laws t k a ready h fits).0
            (λ s usable.
              update_accounts-Becomes rest (Maps.insert k a.storage_root roots) (with_trie D X s t)
                (s, refl, usable) distinct hs))
    update_accounts-Becomes ((k, none) ∷ rest) roots t ready (free, distinct) (h, hs) =
        Becomes-cong D X t t _ _ _ _ (λ j. one_change j k none rest free)
          (>>-Becomes D X t t t (λ t'. as_database (delete_account_with_hash_state D X k t'))
            (update_accounts D X rest (Maps.insert k X.empty_root_hash roots)) _ _ _
            (delete-Becomes D X t k ready h)
            (λ s usable.
              update_accounts-Becomes rest (Maps.insert k X.empty_root_hash roots)
                (with_trie D X s t) (s, refl, usable) distinct hs))

    -- Accounts.
    pub account_task-replies :
        (rebuild : List (List ℕ)) (changes : Changes) (t : Db D X)
        → IsReady D X t
        → All IsHash rebuild
        → IsMap changes
        → All IsChange changes
        → (s : StateTrie) × (roots : Roots) × (account_task D X rebuild changes t
            ≡ (ok roots, with_trie D X s t))
          × IsUsable s
          × ((j : List ℕ)
              → IsHash j
              → account_at D X (with_trie D X s t) j
                ≡ now
                    (or_else
                      (Maps.get j changes)
                      (if Maps.contains j rebuild then some none else none))
                    (account_at D X t j))
          × ((j : List ℕ) → Maps.get j roots ≡ Option.map root_after (Maps.get j changes))
    unfolding account_task Maps.get
    account_task-replies rebuild changes t ready hs distinct hs' =
        let (s, e, usable, found) =
          >>-Becomes D X t t t (delete_rebuilt D X rebuild) (update_accounts D X changes []) _ _ _
            (delete_rebuilt-Becomes rebuild t ready hs)
            (λ s usable.
              update_accounts-Becomes changes [] (with_trie D X s t) (s, refl, usable) distinct
                hs') in
        (
          s,
          roots_after changes [],
          e,
          usable,
          found,
          λ j. get-roots_after j changes [] distinct ∙ or_else-none _,
        )
