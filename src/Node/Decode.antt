-- ===== src/Node/Decode.antt =====
-- Decoding of trie nodes: `decode_node` and `decode_ref` of state-trie/src/node/node.rs, and the
-- `Decodable` instances of short_node.rs and full_node.rs.
use rust_eth_triedb.Common.{
  ℕ, zero, suc, ◌-◌, List, false, ◌==◌, ltb, if◌then◌else◌, length, is_empty, Option, none, some,
  Result, ok, err, ◌>>=◌, map_err,
}
use rust_eth_triedb.Encoding.{compact_to_hex, has_term}
use rust_eth_triedb.Rlp.{
  RlpRawError, byte, string, list, split, split_list, split_string, count_values,
}
use rust_eth_triedb.Node.{Node, Nodes, NodeFlag, empty, full, short, hash, value, nil, cons}

-- `alloy_rlp::Error`, with a constructor for each message. `out_of_fuel` is none of them: it says
-- that the recursion of `decode_ref` had too little fuel.
pub data RlpError : Type 0 where
  input_too_short split_list_failed invalid_elements_count invalid_number_of_elements : RlpError
  split_string_failed split_failed oversized_embedded_node invalid_string_size : RlpError
  out_of_fuel : RlpError

-- The flags that `from_rlp` sets on a decoded node.
abbrev pub clean_flag : Option (List ℕ) → NodeFlag
clean_flag h = record { hash = h; dirty = false }

-- The functions below take `decode_ref` with less fuel as `decode_ref'`.
module _ (decode_ref' : List ℕ → Result RlpError (Node × List ℕ)) where
  -- `ShortNode::from_rlp` and `ShortNode::decode`, on the elements of the list.
  unfoldable pub decode_short : Option (List ℕ) → List ℕ → Result RlpError Node
  decode_short h buf = map_err split_string_failed (split_string buf) >>= λ (key_buf, value_buf).
      let key = compact_to_hex key_buf in
      if has_term key
      then (map_err split_string_failed (split_string value_buf) >>= λ (val, rest).
          ok (short key (value val) (clean_flag h)))
      else (decode_ref' value_buf >>= λ (val, rest). ok (short key val (clean_flag h)))

  -- The loop over the first children, here with the number of rounds that are left; the value, the
  -- last child, follows it.
  unfoldable pub decode_children : ℕ → List ℕ → Result RlpError Nodes
  decode_children zero buf = map_err split_string_failed (split_string buf) >>= λ (val, rest).
      ok (cons (if is_empty val then empty else value val) nil)
  decode_children (suc n) buf = decode_ref' buf >>= λ (child, reset).
      decode_children n reset >>= λ children. ok (cons child children)

  -- `FullNode::from_rlp` and `FullNode::decode`.
  unfoldable pub decode_full : Option (List ℕ) → List ℕ → Result RlpError Node
  unfolding decode_children
  decode_full h buf = decode_children 16 buf >>= λ children. ok (full children (clean_flag h))

  -- By the number of the elements.
  abbrev pub by_count :
      Option (List ℕ) → List ℕ → Option (Result RlpRawError ℕ) → Result RlpError Node
  by_count h elements none = err out_of_fuel
  by_count h elements (some (err e)) = err invalid_elements_count
  by_count h elements (some (ok n)) =
      if n == 2
      then decode_short h elements
      else if n == 17
      then decode_full h elements
      else err invalid_number_of_elements

  -- `Node::decode_node`.
  unfoldable pub decode_node_with : Option (List ℕ) → List ℕ → Result RlpError Node
  unfolding decode_short decode_full
  decode_node_with h buf =
      if is_empty buf
      then err input_too_short
      else (map_err split_list_failed (split_list buf) >>= λ (elements, rest).
          by_count h elements (count_values elements))

-- `Node::decode_ref`. Its comment wants an embedded node to be smaller than a hash; the test refuses
-- only what is longer.
unfoldable pub decode_ref : ℕ → List ℕ → Result RlpError (Node × List ℕ)
unfolding decode_node_with
decode_ref zero buf = err out_of_fuel
decode_ref (suc fuel) buf = map_err split_failed (split buf) >>= λ (kind, val, rest). elim kind [
  | list ↦
      if ltb 32 (length buf - length rest)
      then err oversized_embedded_node
      else (decode_node_with (decode_ref fuel) none buf >>= λ n. ok (n, rest))
  | string ↦
      if is_empty val
      then ok (empty, rest)
      else if length val == 32
      then ok (hash val, rest)
      else err invalid_string_size
  | byte ↦ err invalid_string_size
]

-- The nesting of embedded nodes is bounded by the length of the buffer.
unfoldable pub decode_node : Option (List ℕ) → List ℕ → Result RlpError Node
unfolding decode_ref
decode_node h buf = decode_node_with (decode_ref (length buf)) h buf
