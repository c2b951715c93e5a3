-- ===== src/StateTrie/Hashed.antt =====
-- The calls of state-trie/src/state_trie.rs that take hashed keys: what reads give after them.
use rust_eth_triedb.Common.{
  ℕ, ◌^◌, ◌<◌, List, [], ◌≡◌, refl, sym, ◌∙◌, if◌then◌else◌, Option, none, some, Result, ok, err,
  bytes_eq, arith,
}
use rust_eth_triedb.Trie.{get}
use rust_eth_triedb.Trie.Monad.{Fault, SecureTrieError}
use rust_eth_triedb.Trie.Updates.{get-value_at}
use rust_eth_triedb.StateTrie.{
  StateTrie, StateAccount, Codec, Called, on_trie, decoded, account_of, u256_of,
  get_account_with_hash_state, update_account_with_hash_state, delete_account_with_hash_state,
  get_storage_u256_with_hash_state, update_storage_u256_with_hash_state,
  delete_storage_with_hash_state,
}
use rust_eth_triedb.StateTrie.Laws.{
  IsHash, IsAccount, IsCodec, IsUsable, reading, reading-value_at, reading-update, reading-delete,
}

-- A call that succeeds on a state trie and leaves it usable, with what reads give afterwards.
abbrev pub Reads :
    {A B : Type 0}
    → (List ℕ → StateTrie → Result Fault A)
    → Called B
    → Result Fault B
    → (List ℕ → Result Fault A)
    → Type 0
Reads read o r found = (o.0 ≡ r) × IsUsable o.1 × ((k : List ℕ) → IsHash k → read k o.1 ≡ found k)

decoded-keeps :
    {A : Type 0} (of : List ℕ → Result SecureTrieError (Option A)) (o : Called (Option (List ℕ)))
    → (decoded of o).1 ≡ o.1
decoded-keeps of (err e, s) = refl
decoded-keeps of (ok none, s) = refl
decoded-keeps of (ok (some v), s) = refl

-- A read, in which hashes may be resolved, changes no other read.
reading-reading :
    {A : Type 0} (of : List ℕ → Result SecureTrieError (Option A)) (k : List ℕ) (s : StateTrie)
    → IsUsable s
    → IsHash k
    → Reads
        (λ j s'. (reading of j s').0)
        (reading of k s)
        (reading of k s).0
        (λ j. (reading of j s).0)
reading-reading of k s (t, is_trie) (l, b) =
    let kept = (get-value_at 132 k s.trie t is_trie b (omega arith)).1 in
    rw (decoded-keeps of (on_trie s (get 132 k s.trie))) (
      refl,
      (t, kept),
      λ j h.
          reading-value_at of j (on_trie s (get 132 k s.trie)).1 t kept h
          ∙ sym (reading-value_at of j s t is_trie h),
    )

module _ (codec : Codec) where
  abbrev pub account_read : List ℕ → StateTrie → Result Fault (Option StateAccount)
  account_read k s = (get_account_with_hash_state codec k s).0

  abbrev pub slot_read : List ℕ → StateTrie → Result Fault (Option ℕ)
  slot_read k s = (get_storage_u256_with_hash_state codec [] k s).0

  pub get-Reads :
      (k : List ℕ) (s : StateTrie)
      → IsUsable s
      → IsHash k
      → Reads account_read
          (get_account_with_hash_state codec k s)
          (account_read k s)
          (λ j. account_read j s)
  unfolding get_account_with_hash_state
  get-Reads k s usable h = reading-reading (account_of codec) k s usable h

  pub delete-Reads :
      (k : List ℕ) (s : StateTrie)
      → IsUsable s
      → IsHash k
      → Reads account_read
          (delete_account_with_hash_state codec k s)
          (ok tt)
          (λ j. if bytes_eq k j then ok none else account_read j s)
  unfolding get_account_with_hash_state delete_account_with_hash_state
  delete-Reads k s usable h =
      let (done, usable', _) = reading-delete (account_of codec) k k s usable h h in
      (done, usable', λ j h'. (reading-delete (account_of codec) k j s usable h h').2)

  pub delete_slot-Reads :
      (owner k : List ℕ) (s : StateTrie)
      → IsUsable s
      → IsHash k
      → Reads slot_read
          (delete_storage_with_hash_state codec owner k s)
          (ok tt)
          (λ j. if bytes_eq k j then ok none else slot_read j s)
  unfolding get_storage_u256_with_hash_state delete_storage_with_hash_state
  delete_slot-Reads owner k s usable h =
      let (done, usable', _) = reading-delete (u256_of codec) k k s usable h h in
      (done, usable', λ j h'. (reading-delete (u256_of codec) k j s usable h h').2)

  module _ (laws : IsCodec codec) where
    pub update-Reads :
        (k : List ℕ) (a : StateAccount) (s : StateTrie)
        → IsUsable s
        → IsHash k
        → IsAccount a
        → Reads account_read
            (update_account_with_hash_state codec k a s)
            (ok tt)
            (λ j. if bytes_eq k j then ok (some a) else account_read j s)
    unfolding get_account_with_hash_state update_account_with_hash_state account_of
    update-Reads k a s usable h fits =
        let law = λ (j : List ℕ) (h' : IsHash j).
          reading-update (account_of codec) a (codec.encode_account a) k j s usable h h'
            (laws.account_filled a) (rw (laws.account_back a fits) refl) in
        let (done, usable', _) = law k h in (done, usable', λ j h'. (law j h').2)

    pub update_slot-Reads :
        (owner k : List ℕ) (n : ℕ) (s : StateTrie)
        → IsUsable s
        → IsHash k
        → n < 2 ^ 256
        → Reads slot_read
            (update_storage_u256_with_hash_state codec owner k n s)
            (ok tt)
            (λ j. if bytes_eq k j then ok (some n) else slot_read j s)
    unfolding get_storage_u256_with_hash_state update_storage_u256_with_hash_state u256_of
    update_slot-Reads owner k n s usable h small =
        let law = λ (j : List ℕ) (h' : IsHash j).
          reading-update (u256_of codec) n (codec.encode_u256 n) k j s usable h h'
            (laws.u256_filled n) (rw (laws.u256_filled n, laws.u256_back n small) refl) in
        let (done, usable', _) = law k h in (done, usable', λ j h'. (law j h').2)
