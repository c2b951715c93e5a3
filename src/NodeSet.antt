-- ===== src/NodeSet.antt =====
-- state-trie/src/node/node_set.rs: the nodes that a commit collects, and their union over the tries.
-- A path is a list of nibbles, which `from_utf8_lossy` keeps, as they are below 128.
pub mod Sorting
pub mod Signature
pub mod Laws
pub mod Counts
use rust_eth_triedb.Common.{
  ℕ, ◌+◌, List, [], ◌∷◌, ◌++◌, Bool, true, false, ◌&&◌, if◌then◌else◌, bytes_eq, is_empty, length,
  Option, none, some, Result, ok, err,
}
use rust_eth_triedb.Encoding.{account_trie_node_key, storage_trie_node_key}
use rust_eth_triedb.DiffLayer.{TrieNode, Leaf, is_deleted}
use rust_eth_triedb.Maps

pub record NodeSet : Type 0 where
  pub owner : List ℕ
  pub leaves : List Leaf
  pub nodes : List (List ℕ × TrieNode)
  pub updates : ℕ
  pub deletes : ℕ

abbrev pub new : List ℕ → NodeSet
new owner = record { owner = owner; leaves = []; nodes = []; updates = 0; deletes = 0 }

unfoldable pub add_node : List ℕ → TrieNode → NodeSet → NodeSet
unfolding is_deleted
add_node path node set =
    if is_deleted node
    then record set { deletes = set.deletes + 1; nodes = Maps.insert path node set.nodes }
    else record set { updates = set.updates + 1; nodes = Maps.insert path node set.nodes }

unfoldable pub add_leaf : List ℕ → List ℕ → NodeSet → NodeSet
add_leaf parent blob set = record set {
  leaves = set.leaves ++ (record { blob = blob; parent = parent } ∷ []);
}

abbrev pub size : NodeSet → ℕ × ℕ
size set = (set.updates, set.deletes)

abbrev pub leaf_count : NodeSet → ℕ
leaf_count set = length set.leaves

-- The error is a message.
unfoldable pub merge_set : NodeSet → NodeSet → Result (Unit {0}) NodeSet
merge_set set other =
    if bytes_eq set.owner other.owner
    then ok (record set {
      nodes = Maps.extend set.nodes other.nodes;
      leaves = set.leaves ++ other.leaves;
      updates = set.updates + other.updates;
      deletes = set.deletes + other.deletes;
    })
    else err tt

abbrev pub is_empty_set : NodeSet → Bool
is_empty_set set = is_empty set.nodes && is_empty set.leaves

abbrev pub clear : NodeSet → NodeSet
clear set = record set { nodes = []; leaves = []; updates = 0; deletes = 0 }

-- `MergedNodeSet`, the sets by their owners.
abbrev pub MergedNodeSet : Type 0
MergedNodeSet = List (List ℕ × NodeSet)

-- `merge`; `none` is the panic on an owner that has a set.
unfoldable pub merge : NodeSet → MergedNodeSet → Option MergedNodeSet
merge other sets = elim (Maps.get other.owner sets) [
  | none ↦ some (Maps.insert other.owner other sets)
  | some set ↦ none
]

-- The zero hash is a constant of another crate.
module _ (zero_hash : List ℕ) where
  -- The key under which a node of an owner is stored.
  unfoldable pub diff_node_key : List ℕ → List ℕ → List ℕ
  unfolding account_trie_node_key storage_trie_node_key
  diff_node_key owner path =
      if bytes_eq owner zero_hash
      then account_trie_node_key path
      else storage_trie_node_key owner path

  -- The inner loop of `to_diff_nodes`.
  unfoldable pub diff_nodes_of :
      List ℕ → List (List ℕ × TrieNode) → List (List ℕ × TrieNode) → List (List ℕ × TrieNode)
  unfolding diff_node_key
  diff_nodes_of owner [] difflayer = difflayer
  diff_nodes_of owner ((path, node) ∷ nodes) difflayer =
      diff_nodes_of owner nodes (Maps.insert (diff_node_key owner path) node difflayer)

  -- The outer loop.
  unfoldable pub diff_nodes_from :
      MergedNodeSet → List (List ℕ × TrieNode) → List (List ℕ × TrieNode)
  unfolding diff_nodes_of
  diff_nodes_from [] difflayer = difflayer
  diff_nodes_from ((owner, set) ∷ sets) difflayer =
      diff_nodes_from sets (diff_nodes_of owner set.nodes difflayer)

  unfoldable pub to_diff_nodes : MergedNodeSet → List (List ℕ × TrieNode)
  unfolding diff_nodes_from
  to_diff_nodes sets = diff_nodes_from sets []
