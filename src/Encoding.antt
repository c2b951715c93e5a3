-- ===== src/Encoding.antt =====
-- state-trie/src/encoding.rs: keys as nibbles, the compact form of a path, and the keys under
-- which trie nodes are stored. A byte or nibble slice is a list of numbers.
pub mod Terminator
pub mod Compact
pub mod Keys
use rust_eth_triedb.Common.{
  ℕ, zero, suc, ◌+◌, ◌-◌, ◌*◌, ◌/◌, ◌%◌, bit_and, bit_or, List, [], ◌∷◌, ◌++◌, Bool, true, false,
  not, ◌&&◌, ◌==◌, ltb, leb, if◌then◌else◌, length, get_or, take, drop, replicate, is_empty, Option,
  none, some,
}

-- The loop runs over the positions that both slices have, and stops at the first difference.
unfoldable pub common_prefix_length : List ℕ → List ℕ → ℕ
common_prefix_length [] b = 0
common_prefix_length (x ∷ a) [] = 0
common_prefix_length (x ∷ a) (y ∷ b) = if x == y then suc (common_prefix_length a b) else 0

-- Two nibbles for each byte, high before low.
unfoldable pub nibbles_of : List ℕ → List ℕ
nibbles_of [] = []
nibbles_of (b ∷ key) = (b / 16) ∷ (b % 16) ∷ nibbles_of key

unfoldable pub key_to_nibbles : List ℕ → List ℕ
unfolding nibbles_of
key_to_nibbles key = nibbles_of key ++ (16 ∷ [])

-- `keybytes_to_hex` has the text of `key_to_nibbles`.
unfoldable pub keybytes_to_hex : List ℕ → List ℕ
unfolding nibbles_of
keybytes_to_hex key = nibbles_of key ++ (16 ∷ [])

-- `has_term` and `has_terminator` have one text.
unfoldable pub has_term : List ℕ → Bool
has_term hex = not (is_empty hex) && (get_or hex (length hex - 1) 0 == 16)

-- `nibbles[i * 2] << 4` keeps eight bits; `i` runs over the bytes of `buf`.
unfoldable pub decode_nibbles : List ℕ → List ℕ → List ℕ
decode_nibbles nibbles [] = []
decode_nibbles [] (b ∷ buf) = b ∷ decode_nibbles [] buf
decode_nibbles (hi ∷ []) (b ∷ buf) = (hi * 16 % 256) ∷ decode_nibbles [] buf
decode_nibbles (hi ∷ lo ∷ nibbles) (b ∷ buf) =
    bit_or (hi * 16 % 256) (bit_and lo 0x0f) ∷ decode_nibbles nibbles buf

-- The part of `hex_to_compact` after the terminator is cut off; `& 1` is `% 2`. The buffer is sized
-- before the first nibble of an odd path moves into the flag byte.
unfoldable pub pack_compact : ℕ → List ℕ → List ℕ
unfolding decode_nibbles
pack_compact terminator hex_copy =
    let buf = replicate (length hex_copy / 2) 0 in
    let flag = terminator * 32 % 256 in
    if length hex_copy % 2 == 1
    then bit_or (bit_or flag 16) (get_or hex_copy 0 0) ∷ decode_nibbles (drop 1 hex_copy) buf
    else flag ∷ decode_nibbles hex_copy buf

unfoldable pub hex_to_compact : List ℕ → List ℕ
unfolding has_term pack_compact
hex_to_compact hex =
    if has_term hex then pack_compact 1 (take (length hex - 1) hex) else pack_compact 0 hex

unfoldable pub compact_to_hex : List ℕ → List ℕ
unfolding keybytes_to_hex
compact_to_hex compact =
    if is_empty compact
    then compact
    else (let base = keybytes_to_hex compact in
        let base' = if ltb (get_or base 0 0) 2 then take (length base - 1) base else base in
        drop (2 - get_or base' 0 0 % 2) base')

-- `none` is the panic on a path of odd length.
unfoldable pub hex_to_keybytes : List ℕ → Option (List ℕ)
unfolding has_term decode_nibbles
hex_to_keybytes hex =
    let hex_copy = if has_term hex then take (length hex - 1) hex else hex in
    if length hex_copy % 2 == 0
    then some (decode_nibbles hex_copy (replicate (length hex_copy / 2) 0))
    else none

-- The slice returned, of the destination after the write; `none` is the failed assertion.
unfoldable pub write_hex_key : List ℕ → List ℕ → Option (List ℕ)
unfolding nibbles_of
write_hex_key dst key =
    if leb (2 * length key) (length dst)
    then some (take (2 * length key) (nibbles_of key ++ drop (2 * length key) dst))
    else none

abbrev pub trie_node_storage_prefix : List ℕ
trie_node_storage_prefix = b'O' ∷ []

abbrev pub trie_node_account_prefix : List ℕ
trie_node_account_prefix = b'A' ∷ []

unfoldable pub storage_trie_node_key : List ℕ → List ℕ → List ℕ
storage_trie_node_key account_hash path = trie_node_storage_prefix ++ (account_hash ++ path)

unfoldable pub account_trie_node_key : List ℕ → List ℕ
account_trie_node_key path = trie_node_account_prefix ++ path
