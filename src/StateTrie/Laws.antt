-- ===== src/StateTrie/Laws.antt =====
-- What is written to a state trie is read back.
use rust_eth_triedb.Common.{
  ℕ, ◌^◌, ◌<◌, List, Bool, true, false, ◌≡◌, refl, ap, sym, ◌∙◌, if◌then◌else◌, is_empty, length,
  Option, none, some, Result, ok, err, ok-injective, bytes_eq, All, arith,
}
use rust_eth_triedb.Encoding.{key_to_nibbles}
use rust_eth_triedb.Encoding.Terminator.{IsByte}
use rust_eth_triedb.Rlp.Strings.{string_form}
use rust_eth_triedb.Trie.{Outcome, get, update, delete}
use rust_eth_triedb.Trie.Monad.{Fault, SecureTrieError}
use rust_eth_triedb.Trie.Tree.{Tree, insert}
use rust_eth_triedb.Trie.Tree.Remove.{remove}
use rust_eth_triedb.Trie.Updates.{IsTrieOf, value_at, get-value_at, update-insert, value_at-insert}
use rust_eth_triedb.Trie.Runs.{delete-remove, value_at-remove}
use rust_eth_triedb.StateTrie.{
  StateTrie, StateAccount, Codec, Called, on_trie, decoded, lifted, account_of, storage_of,
  get_account, update_account, delete_account, get_storage, update_storage, delete_storage,
}
use rust_eth_triedb.StateTrie.Slots.{string_form-filled, storage_of-string_form}

-- 32 bytes.
abbrev pub IsHash : List ℕ → Type 0
IsHash b = (length b ≡ 32) × All IsByte b

abbrev pub IsAccount : StateAccount → Type 0
IsAccount a =
    (a.nonce < 2 ^ 64) × (a.balance < 2 ^ 256) × IsHash a.storage_root × IsHash a.code_hash

-- The documented behaviour of the crates: hashes have 32 bytes, a decoder reads what its encoder
-- wrote, which is not empty, and a byte slice is encoded as an RLP string.
pub record IsCodec (codec : Codec) : Type 0 where
  pub digest : (b : List ℕ) → IsHash (codec.keccak256 b)
  pub account_filled : (a : StateAccount) → is_empty (codec.encode_account a) ≡ false
  pub account_back :
      (a : StateAccount) → IsAccount a → codec.decode_account (codec.encode_account a) ≡ some a
  pub bytes_form : (b : List ℕ) → codec.encode_bytes b ≡ string_form b
  pub u256_filled : (n : ℕ) → is_empty (codec.encode_u256 n) ≡ false
  pub u256_back : (n : ℕ) → n < 2 ^ 256 → codec.decode_u256 (codec.encode_u256 n) ≡ some n

-- A state trie that can be used, as its trie stands for some well-formed tree.
abbrev pub IsUsable : StateTrie → Type 0
IsUsable s = (t : Tree) × IsTrieOf (s.trie) t

-- What a read replies, by what the tree holds.
abbrev pub reply_of :
    {A : Type 0}
    → (List ℕ → Result SecureTrieError (Option A))
    → Option (List ℕ)
    → Result Fault (Option A)
reply_of of none = ok none
reply_of of (some enc) = lifted (of enc)

abbrev pub reading :
    {A : Type 0}
    → (List ℕ → Result SecureTrieError (Option A))
    → List ℕ
    → StateTrie
    → Called (Option A)
reading of k s = decoded of (on_trie s (get 132 k s.trie))

decoded-reply_of :
    {A : Type 0} (of : List ℕ → Result SecureTrieError (Option A)) (s : StateTrie)
    (o : Outcome (Option (List ℕ))) (v : Option (List ℕ))
    → o.0 ≡ ok v
    → (decoded of (on_trie s o)).0 ≡ reply_of of v
decoded-reply_of of s (ok none, trie) v e = ap (reply_of of) (ok-injective e)
decoded-reply_of of s (ok (some enc), trie) v e = ap (reply_of of) (ok-injective e)
decoded-reply_of of s (err x, trie) v e = cc

pub reading-value_at :
    {A : Type 0} (of : List ℕ → Result SecureTrieError (Option A)) (k : List ℕ) (s : StateTrie)
    (t : Tree)
    → IsTrieOf (s.trie) t
    → IsHash k
    → (reading of k s).0 ≡ reply_of of (value_at t k)
reading-value_at of k s t is_trie (l, b) =
    decoded-reply_of of s (get 132 k s.trie) (value_at t k)
      (get-value_at 132 k s.trie t is_trie b (omega arith)).0

-- A read after a write.
pub reading-update :
    {A : Type 0} (of : List ℕ → Result SecureTrieError (Option A)) (a : A) (enc k k' : List ℕ)
    (s : StateTrie)
    → IsUsable s
    → IsHash k
    → IsHash k'
    → is_empty enc ≡ false
    → of enc ≡ ok (some a)
    → ((update 132 k enc s.trie).0 ≡ ok tt)
      × IsUsable (on_trie s (update 132 k enc s.trie)).1
      × ((reading of k' (on_trie s (update 132 k enc s.trie)).1).0
          ≡ (if bytes_eq k k' then ok (some a) else (reading of k' s).0))
reading-update of a enc k k' s (t, is_trie) (l, b) (l', b') filled back =
    let (done, is_trie', _, _) = update-insert 132 k enc s.trie t is_trie b filled (omega arith) in
    (
      done,
      (insert t (key_to_nibbles k) enc, is_trie'),
      reading-value_at of k' (on_trie s (update 132 k enc s.trie)).1
            (insert t (key_to_nibbles k) enc) is_trie' (l', b')
          ∙ ap (reply_of of) (value_at-insert t k k' enc is_trie.2 b b')
          ∙ split_reply (bytes_eq k k'),
    )
  where
    split_reply :
        (c : Bool)
        → reply_of of (if c then some enc else value_at t k')
          ≡ (if c then ok (some a) else (reading of k' s).0)
    split_reply true = ap lifted back
    split_reply false = sym (reading-value_at of k' s t is_trie (l', b'))

-- A read after a deletion.
pub reading-delete :
    {A : Type 0} (of : List ℕ → Result SecureTrieError (Option A)) (k k' : List ℕ) (s : StateTrie)
    → IsUsable s
    → IsHash k
    → IsHash k'
    → ((delete 132 k s.trie).0 ≡ ok tt)
      × IsUsable (on_trie s (delete 132 k s.trie)).1
      × ((reading of k' (on_trie s (delete 132 k s.trie)).1).0
          ≡ (if bytes_eq k k' then ok none else (reading of k' s).0))
reading-delete of k k' s (t, is_trie) (l, b) (l', b') =
    let (done, is_trie', _, _) = (delete-remove 132 k s.trie t is_trie b (omega arith)).0 in
    (
      done,
      (remove t (key_to_nibbles k), is_trie'),
      reading-value_at of k' (on_trie s (delete 132 k s.trie)).1 (remove t (key_to_nibbles k))
            is_trie' (l', b')
          ∙ ap (reply_of of) (value_at-remove t k k' is_trie.2 b b')
          ∙ split_reply (bytes_eq k k'),
    )
  where
    split_reply :
        (c : Bool)
        → reply_of of (if c then none else value_at t k')
          ≡ (if c then ok none else (reading of k' s).0)
    split_reply true = refl
    split_reply false = sym (reading-value_at of k' s t is_trie (l', b'))

module _ (codec : Codec) (laws : IsCodec codec) where
  -- With a codec that keeps its laws, `update_account` with an account in range on a usable
  -- state trie succeeds and leaves it usable; `get_account` then returns the account at an
  -- address with the same hash, and at another address what it returned before.
  pub get_account-update_account :
      (s : StateTrie) (address address' : List ℕ) (account : StateAccount)
      → IsUsable s
      → IsAccount account
      → let (r, s') = update_account codec address account s in
        (r ≡ ok tt)
        × IsUsable s'
        × ((get_account codec address' s').0 ≡ (
            if bytes_eq (codec.keccak256 address) (codec.keccak256 address')
            then ok (some account)
            else (get_account codec address' s).0))
  unfolding get_account update_account account_of
  get_account-update_account s address address' account usable fits =
      reading-update (account_of codec) account (codec.encode_account account)
        (codec.keccak256 address) (codec.keccak256 address') s usable (laws.digest address)
        (laws.digest address') (laws.account_filled account)
        (rw (laws.account_back account fits) refl)

  -- With a codec that keeps its laws, `delete_account` on a usable state trie succeeds and
  -- leaves it usable; `get_account` then returns no account at an address with the same hash,
  -- and at another address what it returned before.
  pub get_account-delete_account :
      (s : StateTrie) (address address' : List ℕ)
      → IsUsable s
      → let (r, s') = delete_account codec address s in
        (r ≡ ok tt)
        × IsUsable s'
        × ((get_account codec address' s').0 ≡ (
            if bytes_eq (codec.keccak256 address) (codec.keccak256 address')
            then ok none
            else (get_account codec address' s).0))
  unfolding get_account delete_account account_of
  get_account-delete_account s address address' usable =
      reading-delete (account_of codec) (codec.keccak256 address) (codec.keccak256 address') s
        usable (laws.digest address) (laws.digest address')

  -- With a codec that keeps its laws, `update_storage` with a value shorter than 2 ^ 56 bytes,
  -- which may be empty, on a usable state trie succeeds and leaves it usable; `get_storage`
  -- then returns the value at a key with the same hash, and at another key what it returned
  -- before.
  pub get_storage-update_storage :
      (s : StateTrie) (address key key' value : List ℕ)
      → IsUsable s
      → length value < 2 ^ 56
      → let (r, s') = update_storage codec address key value s in
        (r ≡ ok tt)
        × IsUsable s'
        × ((get_storage codec address key' s').0 ≡ (
            if bytes_eq (codec.keccak256 key) (codec.keccak256 key')
            then ok (some value)
            else (get_storage codec address key' s).0))
  unfolding get_storage update_storage
  get_storage-update_storage s address key key' value usable small =
      reading-update storage_of value (codec.encode_bytes value) (codec.keccak256 key)
        (codec.keccak256 key') s usable (laws.digest key) (laws.digest key')
        (rw (laws.bytes_form value) (string_form-filled value))
        (rw (laws.bytes_form value) (storage_of-string_form value small))

  -- With a codec that keeps its laws, `delete_storage` on a usable state trie succeeds and
  -- leaves it usable; `get_storage` then returns no value at a key with the same hash, and at
  -- another key what it returned before.
  pub get_storage-delete_storage :
      (s : StateTrie) (address key key' : List ℕ)
      → IsUsable s
      → let (r, s') = delete_storage codec address key s in
        (r ≡ ok tt)
        × IsUsable s'
        × ((get_storage codec address key' s').0 ≡ (
            if bytes_eq (codec.keccak256 key) (codec.keccak256 key')
            then ok none
            else (get_storage codec address key' s).0))
  unfolding get_storage delete_storage
  get_storage-delete_storage s address key key' usable =
      reading-delete storage_of (codec.keccak256 key) (codec.keccak256 key') s usable
        (laws.digest key) (laws.digest key')
