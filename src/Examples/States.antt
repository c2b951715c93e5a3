-- ===== src/Examples/States.antt =====
-- The state trie and node sets at concrete inputs, with an instance of the codec.
use rust_eth_triedb.Common.{
  ℕ, zero, suc, ◌%◌, ◌<◌, List, [], ◌∷◌, ◌++◌, ◌≡◌, refl, ap, if◌then◌else◌, arith, bytes_eq,
  length, take, drop, Option, none, some, ok, replicate, get_or, All,
}
use rust_eth_triedb.Encoding.Terminator.{IsByte}
use rust_eth_triedb.Rlp.Strings.{string_form}
use rust_eth_triedb.DiffLayer.{TrieNode, deleted_node, is_deleted}
use rust_eth_triedb.Maps
use rust_eth_triedb.StateTrie.{
  StateTrie, StateAccount, Codec, get_account, update_account, delete_account, get_storage,
  update_storage, delete_storage,
}
use rust_eth_triedb.StateTrie.Laws.{
  IsHash, IsCodec, IsUsable, get_account-update_account, get_account-delete_account,
  get_storage-update_storage, get_storage-delete_storage,
}
use rust_eth_triedb.NodeSet.{NodeSet, MergedNodeSet, merge_set, diff_node_key, to_diff_nodes}
use rust_eth_triedb.NodeSet.Signature.{signature}
use rust_eth_triedb.Committer.{merge_all}
use rust_eth_triedb.Committer.Order.{merge_all-signature}
use mathlib.Core.List.Permᴰ
use rust_eth_triedb.NodeSet.Laws.{node_of, to_diff_nodes-get}
use rust_eth_triedb.NodeSet.Counts.{IsCounted, merge_set-IsCounted}
use rust_eth_triedb.Examples.Runs.{
  leaf_trie, leaf_tree, leaf_trie-IsTrieOf, first_byte, length-replicate,
}

-- An account as its numbers, its root and its code hash.
abbrev write_account : StateAccount → List ℕ
write_account a = a.nonce ∷ a.balance ∷ length a.storage_root ∷ (a.storage_root ++ a.code_hash)

abbrev read_account : List ℕ → Option StateAccount
read_account (n ∷ b ∷ l ∷ rest) =
    some (record { nonce = n; balance = b; storage_root = take l rest; code_hash = drop l rest })
read_account _ = none

abbrev read_number : List ℕ → Option ℕ
read_number (n ∷ []) = some n
read_number _ = none

abbrev pub plain : Codec
plain = record {
  keccak256 = first_byte;
  encode_account = write_account;
  decode_account = read_account;
  encode_bytes = string_form;
  encode_u256 = λ n. n ∷ [];
  decode_u256 = read_number;
}

pub replicate-bytes : (n x : ℕ) → x < 256 → All IsByte (replicate n x)
replicate-bytes zero x h = tt
replicate-bytes (suc n) x h = (h, replicate-bytes n x h)

abbrev pub first_byte-IsHash : (b : List ℕ) → IsHash (first_byte b)
first_byte-IsHash b = (
  length-replicate 32 (get_or b 0 0 % 256),
  replicate-bytes 32 (get_or b 0 0 % 256) (omega arith),
)

pub split_at :
    (xs ys : List ℕ) → (take (length xs) (xs ++ ys) ≡ xs) × (drop (length xs) (xs ++ ys) ≡ ys)
split_at [] ys = (refl, refl)
split_at (x ∷ xs) ys = (ap (λ zs. x ∷ zs) (split_at xs ys).0, (split_at xs ys).1)

abbrev pub plain-IsCodec : IsCodec plain
plain-IsCodec = record {
  digest = first_byte-IsHash;
  account_filled = λ a. refl;
  account_back = λ a h.
      rw ((split_at a.storage_root a.code_hash).0, (split_at a.storage_root a.code_hash).1) refl;
  bytes_form = λ b. refl;
  u256_filled = λ n. refl;
  u256_back = λ n h. refl;
}

abbrev some_state : StateTrie
some_state = record { trie = leaf_trie; id = record { state_root = []; owner = [] } }

abbrev some_state-IsUsable : IsUsable some_state
some_state-IsUsable = (leaf_tree, leaf_trie-IsTrieOf)

abbrev pub some_account : StateAccount
some_account = record {
  nonce = 1;
  balance = 1000;
  storage_root = replicate 32 1;
  code_hash = replicate 32 2;
}

get_account-update_account_example :
    let (r, s') = update_account plain (1 ∷ []) some_account some_state in
    (r ≡ ok tt)
    × IsUsable s'
    × ((get_account plain (2 ∷ []) s').0 ≡ (
        if bytes_eq (first_byte (1 ∷ [])) (first_byte (2 ∷ []))
        then ok (some some_account)
        else (get_account plain (2 ∷ []) some_state).0))
get_account-update_account_example =
    get_account-update_account plain plain-IsCodec some_state (1 ∷ []) (2 ∷ []) some_account
      some_state-IsUsable
      (
        omega arith,
        omega arith,
        (length-replicate 32 1, replicate-bytes 32 1 (omega arith)),
        (length-replicate 32 2, replicate-bytes 32 2 (omega arith)),
      )

get_account-delete_account_example :
    let (r, s') = delete_account plain (1 ∷ []) some_state in
    (r ≡ ok tt)
    × IsUsable s'
    × ((get_account plain (1 ∷ []) s').0 ≡ (
        if bytes_eq (first_byte (1 ∷ [])) (first_byte (1 ∷ []))
        then ok none
        else (get_account plain (1 ∷ []) some_state).0))
get_account-delete_account_example =
    get_account-delete_account plain plain-IsCodec some_state (1 ∷ []) (1 ∷ []) some_state-IsUsable

get_storage-update_storage_example :
    let (r, s') = update_storage plain [] (1 ∷ []) (5 ∷ 6 ∷ []) some_state in
    (r ≡ ok tt)
    × IsUsable s'
    × ((get_storage plain [] (1 ∷ []) s').0 ≡ (
        if bytes_eq (first_byte (1 ∷ [])) (first_byte (1 ∷ []))
        then ok (some (5 ∷ 6 ∷ []))
        else (get_storage plain [] (1 ∷ []) some_state).0))
get_storage-update_storage_example =
    get_storage-update_storage plain plain-IsCodec some_state [] (1 ∷ []) (1 ∷ []) (5 ∷ 6 ∷ [])
      some_state-IsUsable (omega arith)

get_storage-delete_storage_example :
    let (r, s') = delete_storage plain [] (1 ∷ []) some_state in
    (r ≡ ok tt)
    × IsUsable s'
    × ((get_storage plain [] (3 ∷ []) s').0 ≡ (
        if bytes_eq (first_byte (1 ∷ [])) (first_byte (3 ∷ []))
        then ok none
        else (get_storage plain [] (3 ∷ []) some_state).0))
get_storage-delete_storage_example =
    get_storage-delete_storage plain plain-IsCodec some_state [] (1 ∷ []) (3 ∷ [])
      some_state-IsUsable

-- The set of the account trie and that of one storage trie.
abbrev live_node : TrieNode
live_node = record { hash = some (1 ∷ []); blob = some (2 ∷ []) }

abbrev account_set : NodeSet
account_set = record {
  owner = replicate 32 0;
  leaves = [];
  nodes = (1 ∷ [], live_node) ∷ [];
  updates = 1;
  deletes = 0;
}

abbrev storage_set : NodeSet
storage_set = record {
  owner = replicate 32 7;
  leaves = [];
  nodes = (1 ∷ [], deleted_node) ∷ [];
  updates = 0;
  deletes = 1;
}

abbrev two_sets : MergedNodeSet
two_sets = (replicate 32 0, account_set) ∷ (replicate 32 7, storage_set) ∷ []

to_diff_nodes-get_example :
    Maps.get
      (diff_node_key (replicate 32 0) (replicate 32 7) (1 ∷ []))
      (to_diff_nodes (replicate 32 0) two_sets)
    ≡ node_of (replicate 32 7) (1 ∷ []) two_sets
unfolding Maps.get
to_diff_nodes-get_example =
    to_diff_nodes-get (replicate 32 0) two_sets (replicate 32 7) (1 ∷ [])
      (length-replicate 32 0, refl, (refl, tt), (length-replicate 32 7, refl, (refl, tt), tt))
      (length-replicate 32 7)

abbrev other_set : NodeSet
other_set = record account_set { nodes = (2 ∷ [], deleted_node) ∷ []; updates = 0; deletes = 1 }

merge_set-IsCounted_example :
    (merged : NodeSet) × (merge_set account_set other_set ≡ ok merged)
    × IsCounted merged
    × (merged.nodes ≡ Maps.extend account_set.nodes other_set.nodes)
unfolding Maps.get is_deleted
merge_set-IsCounted_example =
    merge_set-IsCounted account_set other_set refl ((refl, tt), refl, refl) ((refl, tt), refl, refl)
      (refl, tt)

-- The set of another task, with a leaf.
abbrev third_set : NodeSet
third_set = record account_set {
  leaves = record { blob = 5 ∷ []; parent = replicate 32 9 } ∷ [];
  nodes = (0 ∷ [], record { hash = some (replicate 32 9); blob = some (8 ∷ []) }) ∷ [];
  updates = 1;
  deletes = 0;
}

merge_all-signature_example :
    (s s' : NodeSet) × (merge_all (other_set ∷ third_set ∷ []) account_set ≡ some s)
    × (merge_all (third_set ∷ other_set ∷ []) account_set ≡ some s')
    × (signature (λ b. b) s ≡ signature (λ b. b) s')
unfolding Maps.get
merge_all-signature_example =
    merge_all-signature (λ b. b) (other_set ∷ third_set ∷ []) (third_set ∷ other_set ∷ [])
      account_set (Permᴰ.swap refl refl) (refl, (refl, tt)) (refl, (refl, (refl, tt)))
