-- ===== src/Node/Compacted.antt =====
-- What a node of state-trie/src/node is encoded from, and the nodes that are decoded again.
use rust_eth_triedb.Common.{
  ℕ, zero, suc, ◌^◌, ◌≤◌, ◌<◌, List, true, false, ◌≡◌, ◌⊎◌, length, is_empty, Option, none, some,
}
use rust_eth_triedb.Encoding.{hex_to_compact, has_term}
use rust_eth_triedb.Encoding.Terminator.{IsHex}
use rust_eth_triedb.Node.{Node, Nodes, empty, full, short, hash, value, nil, cons}
use rust_eth_triedb.Node.Decode.{clean_flag}
use rust_eth_triedb.Node.Encode.{encode}

-- The node with its keys in compact form, which the hasher hands to the encoder.
abbrev mutual
  pub compacted : Node → Node
  compacted empty = empty
  compacted (full cs flags) = full (compacted_all cs) flags
  compacted (short key val flags) = short (hex_to_compact key) (compacted val) flags
  compacted (hash h) = hash h
  compacted (value v) = value v

  pub compacted_all : Nodes → Nodes
  compacted_all nil = nil
  compacted_all (cons c cs) = cons (compacted c) (compacted_all cs)

abbrev pub IsShortened : List ℕ → Type 0
IsShortened b = length b < 2 ^ 32

abbrev pub IsLeafValue : Node → Type 0
IsLeafValue (value v) = IsShortened v
IsLeafValue _ = ⊥

-- The last child of a full node: a value, or none.
abbrev pub IsLastChild : Node → Type 0
IsLastChild empty = Unit {0}
IsLastChild (value v) = (is_empty v ≡ false) × IsShortened v
IsLastChild _ = ⊥

module _ (list_header : ℕ → List ℕ) where
  -- No longer than a hash.
  abbrev pub IsEmbedded : Node → Type 0
  IsEmbedded n = (out : List ℕ) × (encode list_header (compacted n) ≡ some out) × (length out ≤ 32)

  -- A reference to a node is empty, a hash, or a short node itself, as it is decoded. A short node has a
  -- value below a key with terminator, and else a reference; a full node has 16 references and a last child.
  abbrev mutual
    pub IsRef : Node → Type 0
    IsRef empty = Unit {0}
    IsRef (full cs flags) =
        (flags ≡ clean_flag none) × AreChildren 16 cs × IsEmbedded (full cs flags)
    IsRef (short key val flags) =
        (flags ≡ clean_flag none)
        × (IsHex key
            × IsShortened key
            × (((has_term key ≡ true) × IsLeafValue val) ⊎ ((has_term key ≡ false) × IsRef val)))
        × IsEmbedded (short key val flags)
    IsRef (hash h) = length h ≡ 32
    IsRef (value v) = ⊥

    pub AreChildren : ℕ → Nodes → Type 0
    AreChildren n nil = ⊥
    AreChildren zero (cons c nil) = IsLastChild c
    AreChildren zero (cons c (cons d cs)) = ⊥
    AreChildren (suc n) (cons c cs) = IsRef c × AreChildren n cs

  abbrev pub IsShort : List ℕ → Node → Type 0
  IsShort key val =
      IsHex key
      × IsShortened key
      × (((has_term key ≡ true) × IsLeafValue val) ⊎ ((has_term key ≡ false) × IsRef val))

  abbrev pub IsStored : Node → Type 0
  IsStored (full cs flags) = AreChildren 16 cs
  IsStored (short key val flags) = IsShort key val
  IsStored _ = ⊥

-- The node with the flags that the decoder sets.
abbrev pub reflagged : Option (List ℕ) → Node → Node
reflagged h (full cs flags) = full cs (clean_flag h)
reflagged h (short key val flags) = short key val (clean_flag h)
reflagged h n = n
