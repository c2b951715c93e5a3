-- ===== src/Node.antt =====
-- state-trie/src/node: the nodes of a trie. `Arc`s are shared immutable values and leave no trace.
pub mod Decode
pub mod Encode
pub mod Compacted
pub mod Parts
pub mod RoundTrip
use rust_eth_triedb.Common.{ℕ, zero, suc, List, Bool, true, false, Option, none, some, bytes_eq}
use mathlib.Core.Option

-- The cached hash of a node and whether the node was modified.
pub record NodeFlag : Type 0 where
  pub hash : Option (List ℕ)
  pub dirty : Bool

-- `NodeFlag::default()` and `Trie::new_flag`.
abbrev pub new_flag : NodeFlag
new_flag = record { hash = none; dirty = true }

-- `full` has the fields of `FullNode` and `short` those of `ShortNode`; `Nodes` is the array of
-- children.
mutual
  pub data Node : Type 0 where
    empty : Node
    full : Nodes → NodeFlag → Node
    short : List ℕ → Node → NodeFlag → Node
    hash : List ℕ → Node
    value : List ℕ → Node

  pub data Nodes : Type 0 where
    nil : Nodes
    cons : Node → Nodes → Nodes

-- `children[index]`; `none` is the panic on an index out of range.
unfoldable pub get_child : Nodes → ℕ → Option Node
get_child nil i = none
get_child (cons c cs) zero = some c
get_child (cons c cs) (suc i) = get_child cs i

-- `children[index] = node`; `none` is the panic on an index out of range.
unfoldable pub set_child : Nodes → ℕ → Node → Option Nodes
set_child nil i n = none
set_child (cons c cs) zero n = some (cons n cs)
set_child (cons c cs) (suc i) n = Option.map (cons c) (set_child cs i n)

abbrev pub empty_nodes : ℕ → Nodes
empty_nodes zero = nil
empty_nodes (suc n) = cons empty (empty_nodes n)

-- The children of `FullNode::new()`.
abbrev pub no_children : Nodes
no_children = empty_nodes 17

-- `Node::cache`.
unfoldable pub cache : Node → Option (List ℕ) × Bool
cache (full cs flags) = (flags.hash, flags.dirty)
cache (short key val flags) = (flags.hash, flags.dirty)
cache (hash h) = (none, false)
cache (value v) = (none, false)
cache empty = (none, false)
