-- ===== src/StateTrie.antt =====
-- state-trie/src/state_trie.rs and account.rs: accounts and storage slots in a trie, under hashed
-- keys. Keys of the trie are 32 bytes, for which 132 calls of fuel are enough.
pub mod Slots
pub mod Laws
pub mod Hashed
use rust_eth_triedb.Common.{
  ℕ, List, Bool, true, false, is_empty, ◌≡◌, if◌then◌else◌, Option, none, some, Result, ok, err,
}
use rust_eth_triedb.Rlp.{Kind, RlpRawError, split}
use mathlib.Core.Option
use rust_eth_triedb.Trie
use rust_eth_triedb.Trie.{Trie, Outcome, get, update, delete}
use rust_eth_triedb.NodeSet.{NodeSet}
use rust_eth_triedb.Trie.Commit as Commit
use rust_eth_triedb.Trie.Hash as Hash
use rust_eth_triedb.Trie.Resolve.{TrieEnv}
use rust_eth_triedb.Trie.Monad.{Fault, fault, SecureTrieError, invalid_account, invalid_storage}

-- `SecureTrieId`; the default has the hash of the empty trie.
pub record SecureTrieId : Type 0 where
  pub state_root : List ℕ
  pub owner : List ℕ

abbrev pub default_id : List ℕ → List ℕ → SecureTrieId
default_id empty_root_hash zero_hash = record { state_root = empty_root_hash; owner = zero_hash }

abbrev pub new_id : List ℕ → List ℕ → SecureTrieId
new_id zero_hash state_root = record { state_root = state_root; owner = zero_hash }

abbrev pub with_owner : List ℕ → SecureTrieId → SecureTrieId
with_owner owner id = record id { owner = owner }

pub record StateTrie : Type 0 where
  pub trie : Trie
  pub id : SecureTrieId

-- The balance is a `U256`.
pub record StateAccount : Type 0 where
  pub nonce : ℕ
  pub balance : ℕ
  pub storage_root : List ℕ
  pub code_hash : List ℕ

-- The balance and the hashes of the default are constants of other crates.
abbrev pub default_account : List ℕ → List ℕ → StateAccount
default_account empty_root_hash keccak_empty = record {
  nonce = 0;
  balance = 0;
  storage_root = empty_root_hash;
  code_hash = keccak_empty;
}

abbrev pub with_nonce : ℕ → StateAccount → StateAccount
with_nonce nonce a = record a { nonce = nonce }

abbrev pub with_balance : ℕ → StateAccount → StateAccount
with_balance balance a = record a { balance = balance }

abbrev pub with_storage_root : List ℕ → StateAccount → StateAccount
with_storage_root storage_root a = record a { storage_root = storage_root }

abbrev pub with_code_hash : List ℕ → StateAccount → StateAccount
with_code_hash code_hash a = record a { code_hash = code_hash }

-- What the code calls of other crates: the hash function, the encodings that alloy_rlp derives for
-- accounts, and its encodings of byte slices and of `U256`.
pub record Codec : Type 0 where
  pub keccak256 : List ℕ → List ℕ
  pub encode_account : StateAccount → List ℕ
  pub decode_account : List ℕ → Option StateAccount
  pub encode_bytes : List ℕ → List ℕ
  pub encode_u256 : ℕ → List ℕ
  pub decode_u256 : List ℕ → Option ℕ

-- A call on a state trie.
abbrev pub Called : Type 0 → Type 0
Called A = Result Fault A × StateTrie

-- The trie inside is replaced by the one after the call.
abbrev pub on_trie : {A : Type 0} → StateTrie → Outcome A → Called A
on_trie s (r, trie) = (r, record s { trie = trie })

abbrev opened : SecureTrieId → Result Fault Trie → Result Fault StateTrie
opened id (ok trie) = ok (record { trie = trie; id = id })
opened id (err e) = err e

unfoldable pub new : List ℕ → List ℕ → SecureTrieId → TrieEnv → Result Fault StateTrie
unfolding Trie.new
new empty_root_hash zero_hash id env =
    opened id (Trie.new empty_root_hash zero_hash id.state_root env)

-- `hash`, where `none` is a panic.
unfoldable pub hash :
    (List ℕ → List ℕ) → (ℕ → List ℕ) → List ℕ → StateTrie → Option (List ℕ × StateTrie)
unfolding Hash.hash
hash keccak256 list_header empty_root_hash s =
    Option.map (λ (h, trie). (h, record s { trie = trie }))
      (Hash.hash keccak256 list_header empty_root_hash s.trie)

-- `commit`, where `none` is a panic.
unfoldable pub commit :
    (List ℕ → List ℕ)
    → (ℕ → List ℕ)
    → List ℕ
    → (List NodeSet → List NodeSet)
    → Bool
    → StateTrie
    → Option ((List ℕ × Option NodeSet) × StateTrie)
unfolding Commit.commit
commit keccak256 list_header empty_root_hash arrange collect_leaf s =
    Option.map (λ (r, trie). (r, record s { trie = trie }))
      (Commit.commit keccak256 list_header empty_root_hash arrange collect_leaf s.trie)

abbrev pub lifted : {A : Type 0} → Result SecureTrieError A → Result Fault A
lifted (ok a) = ok a
lifted (err e) = err (fault e)

-- The data that was found is decoded.
abbrev pub decoded :
    {A : Type 0}
    → (List ℕ → Result SecureTrieError (Option A))
    → Called (Option (List ℕ))
    → Called (Option A)
decoded of (err e, s) = (err e, s)
decoded of (ok none, s) = (ok none, s)
decoded of (ok (some enc), s) = (lifted (of enc), s)

abbrev pub or_error : {A : Type 0} → SecureTrieError → Option A → Result SecureTrieError (Option A)
or_error e none = err e
or_error e (some a) = ok (some a)

abbrev pub content_of :
    Result RlpRawError (Kind × List ℕ × List ℕ) → Result SecureTrieError (Option (List ℕ))
content_of (err e) = err invalid_storage
content_of (ok (k, value, rest)) = ok (some value)

-- The content of the RLP item, of any kind.
unfoldable pub storage_of : List ℕ → Result SecureTrieError (Option (List ℕ))
unfolding split
storage_of enc = if is_empty enc then ok none else content_of (split enc)

module _ (codec : Codec) where
  unfoldable pub account_of : List ℕ → Result SecureTrieError (Option StateAccount)
  account_of enc = or_error invalid_account (codec.decode_account enc)

  unfoldable pub u256_of : List ℕ → Result SecureTrieError (Option ℕ)
  u256_of enc = if is_empty enc then ok none else or_error invalid_storage (codec.decode_u256 enc)

  unfoldable pub get_account_with_hash_state : List ℕ → StateTrie → Called (Option StateAccount)
  unfolding account_of get
  get_account_with_hash_state hashed_address s =
      decoded account_of (on_trie s (get 132 hashed_address s.trie))

  unfoldable pub update_account_with_hash_state :
      List ℕ → StateAccount → StateTrie → Called (Unit {0})
  unfolding update
  update_account_with_hash_state hashed_address account s =
      on_trie s (update 132 hashed_address (codec.encode_account account) s.trie)

  unfoldable pub delete_account_with_hash_state : List ℕ → StateTrie → Called (Unit {0})
  unfolding delete
  delete_account_with_hash_state hashed_address s = on_trie s (delete 132 hashed_address s.trie)

  unfoldable pub get_account : List ℕ → StateTrie → Called (Option StateAccount)
  unfolding account_of get
  get_account address s = decoded account_of (on_trie s (get 132 (codec.keccak256 address) s.trie))

  unfoldable pub update_account : List ℕ → StateAccount → StateTrie → Called (Unit {0})
  unfolding update
  update_account address account s =
      on_trie s (update 132 (codec.keccak256 address) (codec.encode_account account) s.trie)

  unfoldable pub delete_account : List ℕ → StateTrie → Called (Unit {0})
  unfolding delete
  delete_account address s = on_trie s (delete 132 (codec.keccak256 address) s.trie)

  -- The storage of one address is the whole of its trie: the address is not used.
  unfoldable pub get_storage_with_hash_state :
      List ℕ → List ℕ → StateTrie → Called (Option (List ℕ))
  unfolding storage_of get
  get_storage_with_hash_state _ hashed_key s =
      decoded storage_of (on_trie s (get 132 hashed_key s.trie))

  unfoldable pub update_storage_with_hash_state :
      List ℕ → List ℕ → List ℕ → StateTrie → Called (Unit {0})
  unfolding update
  update_storage_with_hash_state _ hashed_key value s =
      on_trie s (update 132 hashed_key (codec.encode_bytes value) s.trie)

  unfoldable pub get_storage_u256_with_hash_state : List ℕ → List ℕ → StateTrie → Called (Option ℕ)
  unfolding u256_of get
  get_storage_u256_with_hash_state _ hashed_key s =
      decoded u256_of (on_trie s (get 132 hashed_key s.trie))

  unfoldable pub update_storage_u256_with_hash_state :
      List ℕ → List ℕ → ℕ → StateTrie → Called (Unit {0})
  unfolding update
  update_storage_u256_with_hash_state _ hashed_key value s =
      on_trie s (update 132 hashed_key (codec.encode_u256 value) s.trie)

  unfoldable pub delete_storage_with_hash_state : List ℕ → List ℕ → StateTrie → Called (Unit {0})
  unfolding delete
  delete_storage_with_hash_state _ hashed_key s = on_trie s (delete 132 hashed_key s.trie)

  unfoldable pub get_storage : List ℕ → List ℕ → StateTrie → Called (Option (List ℕ))
  unfolding storage_of get
  get_storage _address key s = decoded storage_of (on_trie s (get 132 (codec.keccak256 key) s.trie))

  unfoldable pub update_storage : List ℕ → List ℕ → List ℕ → StateTrie → Called (Unit {0})
  unfolding update
  update_storage _address key value s =
      on_trie s (update 132 (codec.keccak256 key) (codec.encode_bytes value) s.trie)

  unfoldable pub delete_storage : List ℕ → List ℕ → StateTrie → Called (Unit {0})
  unfolding delete
  delete_storage _address key s = on_trie s (delete 132 (codec.keccak256 key) s.trie)
