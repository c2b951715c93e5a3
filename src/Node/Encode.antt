-- ===== src/Node/Encode.antt =====
-- Encoding of trie nodes: the `Encodable` instances of state-trie/src/node/short_node.rs and
-- full_node.rs, and `node_to_bytes` of node.rs. `none` is a panic.
use rust_eth_triedb.Common.{ℕ, List, [], ◌∷◌, ◌++◌, length, Option, none, some}
use mathlib.Core.Option
use rust_eth_triedb.Rlp.{write_bytes}
use rust_eth_triedb.Node.{Node, Nodes, empty, full, short, hash, value, nil, cons}

-- One output after another, of which either may panic.
abbrev pub joined : Option (List ℕ) → Option (List ℕ) → Option (List ℕ)
joined none b = none
joined (some a) none = none
joined (some a) (some b) = some (a ++ b)

-- The header of a list with a payload of a given length is written by `Header` of alloy_rlp.
module _ (list_header : ℕ → List ℕ) where
  abbrev pub in_list : List ℕ → List ℕ
  in_list payload = list_header (length payload) ++ payload

  -- `encode` of a node inside another one. An empty node is `EMPTY_STRING_CODE` in a short node, and
  -- `write_bytes` of no bytes in a full node, which is the same byte.
  unfoldable mutual
    unfolding write_bytes

    pub encode : Node → Option (List ℕ)
    encode empty = some (0x80 ∷ [])
    encode (full cs flags) = Option.map in_list (encode_all cs)
    encode (short key val flags) = Option.map in_list (joined (write_bytes key) (encode val))
    encode (hash h) = write_bytes h
    encode (value v) = write_bytes v

    pub encode_all : Nodes → Option (List ℕ)
    encode_all nil = some []
    encode_all (cons c cs) = joined (encode c) (encode_all cs)

  unfoldable pub node_to_bytes : Node → Option (List ℕ)
  unfolding encode
  node_to_bytes (full cs flags) = encode (full cs flags)
  node_to_bytes (short key val flags) = encode (short key val flags)
  node_to_bytes (hash h) = none
  node_to_bytes (value v) = none
  node_to_bytes empty = none
