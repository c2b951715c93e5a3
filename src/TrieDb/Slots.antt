-- ===== src/TrieDb/Slots.antt =====
-- Single slots in triedb/src/triedb_basic.rs and triedb_reth.rs: writes are made on a copy of the
-- storage trie, which is dropped.
use rust_eth_triedb.Common.{
  ℕ, List, ◌≡◌, refl, ap, ◌∙◌, Option, none, some, Result, ok, err, bytes_eq_refl,
}
use mathlib.Core.Path.{subst}
use rust_eth_triedb.Maps
use rust_eth_triedb.Maps.{get-insert}
use rust_eth_triedb.StateTrie.{StateTrie}
use rust_eth_triedb.TrieDatabase.{TrieDatabase}
use rust_eth_triedb.TrieDb.{Failure, Externals, Called, Call, Db, bind, lift, modify, pure, ◌>>◌}
use rust_eth_triedb.TrieDb.Basic.{
  get_storage_root_with_hash_state, get_storage_trie_with_hash_state, get_storage_trie,
  get_storage_with_hash_state, update_storage_with_hash_state, delete_storage_with_hash_state,
  get_storage, update_storage, delete_storage, open_at, cached_or_opened,
}

module _ (D : TrieDatabase) (X : Externals) where
  -- A storage trie that was opened is kept.
  abbrev IsKept : List ℕ → Called D.State StateTrie → Type 0
  IsKept j (ok s, t) = Maps.get j t.storage_tries ≡ some s
  IsKept j (err e, t) = Unit {0}

  opened-IsKept :
      (j : List ℕ) (r : Result Failure StateTrie) (t : Db D X)
      → IsKept j (
          bind (lift r t) (λ s.
            modify (λ t'. record t' { storage_tries = Maps.insert j s t'.storage_tries })
            >> pure s))
  opened-IsKept j (err e) t = tt
  opened-IsKept j (ok s) t = get-insert j j s t.storage_tries ∙ rw (bytes_eq_refl j) refl

  trie-IsKept : (j : List ℕ) (t : Db D X) → IsKept j (get_storage_trie_with_hash_state D X j t)
  unfolding get_storage_trie_with_hash_state
  trie-IsKept j t = go (Maps.get j t.storage_tries) refl
    where
      opening : (o : Called D.State (List ℕ)) → IsKept j (bind o (open_at D X j))
      opening (ok root, t') = opened-IsKept j _ t'
      opening (err e, t') = tt

      go :
          (o : Option StateTrie)
          → Maps.get j t.storage_tries ≡ o
          → IsKept j (cached_or_opened D X j o t)
      go (some s) e = e
      go none e = opening (get_storage_root_with_hash_state D X j t)

  cached :
      (j : List ℕ) (s : StateTrie) (t : Db D X)
      → Maps.get j t.storage_tries ≡ some s
      → get_storage_trie_with_hash_state D X j t ≡ (ok s, t)
  unfolding get_storage_trie_with_hash_state
  cached j s t k = ap (λ o. cached_or_opened D X j o t) k

  -- The same state afterwards, and the same reply to a read.
  abbrev pub IsUnseen : Call D X (Option (List ℕ)) → Call D X (Unit {0}) → Db D X → Type 0
  IsUnseen read write t = ((write t).1 ≡ (read t).1) × ((read (write t).1).0 ≡ (read t).0)

  -- When the storage trie of an address is cached or can be opened, `update_storage` and
  -- `delete_storage`, by address or by its hash, leave the state that `get_storage` of any key
  -- of it leaves, and `get_storage` replies afterwards what it replies without them: the
  -- writes are not kept.
  pub writes-IsUnseen :
      (address key key' value : List ℕ) (t : Db D X) (s : StateTrie) (t' : Db D X)
      → get_storage_trie D X address t ≡ (ok s, t')
      → let hashed = X.codec.keccak256 address in
        IsUnseen (get_storage D X address key) (update_storage D X address key' value) t
        × IsUnseen (get_storage D X address key) (delete_storage D X address key') t
        × IsUnseen
            (get_storage_with_hash_state D X hashed key)
            (update_storage_with_hash_state D X hashed key' value)
            t
        × IsUnseen
            (get_storage_with_hash_state D X hashed key)
            (delete_storage_with_hash_state D X hashed key')
            t
  unfolding get_storage update_storage delete_storage get_storage_trie get_storage_with_hash_state
      update_storage_with_hash_state delete_storage_with_hash_state
  writes-IsUnseen address key key' value t s t' e =
      let kept : IsKept (X.codec.keccak256 address) (ok s, t') =
        subst (IsKept (X.codec.keccak256 address)) e (trie-IsKept (X.codec.keccak256 address) t) in
      let again : get_storage_trie_with_hash_state D X (X.codec.keccak256 address) t' ≡ (ok s, t') =
        cached (X.codec.keccak256 address) s t' kept in
      rw (e, again) ((refl, refl), (refl, refl), (refl, refl), (refl, refl))
