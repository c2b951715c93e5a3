-- ===== src/DiffLayer.antt =====
-- common/src/difflayer.rs: the trie nodes and storage roots that a block changed, and the layers of
-- the blocks that are not yet persisted. `Arc`s are shared values and leave no trace.
pub mod Order
use rust_eth_triedb.Common.{
  ℕ, ◌+◌, List, [], ◌∷◌, ◌++◌, Bool, true, false, ◌&&◌, if◌then◌else◌, Option, none, some, is_empty,
  length,
}
use rust_eth_triedb.Maps

-- Both fields are `none` for a deleted node.
pub record TrieNode : Type 0 where
  pub hash : Option (List ℕ)
  pub blob : Option (List ℕ)

abbrev pub deleted_node : TrieNode
deleted_node = record { hash = none; blob = none }

unfoldable pub is_deleted : TrieNode → Bool
is_deleted n = elim (n.blob) [ none ↦ true | some blob ↦ is_empty blob ]

unfoldable pub size : TrieNode → ℕ
unfolding is_deleted
size n = if is_deleted n then 0 else elim (n.blob) [ none ↦ 0 | some blob ↦ length blob + 32 ]

pub record Leaf : Type 0 where
  pub blob : List ℕ
  pub parent : List ℕ

pub record DiffLayer : Type 0 where
  pub diff_nodes : List (List ℕ × TrieNode)
  pub diff_storage_roots : List (List ℕ × List ℕ)

unfoldable pub is_empty_layer : DiffLayer → Bool
is_empty_layer d = is_empty d.diff_nodes && is_empty d.diff_storage_roots

abbrev pub DiffLayers : Type 0
DiffLayers = List DiffLayer

-- `Vec::push`, at the end.
unfoldable pub insert_difflayer : DiffLayer → DiffLayers → DiffLayers
insert_difflayer d ds = ds ++ (d ∷ [])

-- The loop starts at index 0 and returns the first hit.
unfoldable pub get_trie_nodes : List ℕ → DiffLayers → Option TrieNode
get_trie_nodes prefix [] = none
get_trie_nodes prefix (d ∷ ds) =
    let rest = get_trie_nodes prefix ds in
    elim (Maps.get prefix d.diff_nodes) [ some node ↦ some node | none ↦ rest ]

unfoldable pub get_storage_root : List ℕ → DiffLayers → Option (List ℕ)
get_storage_root hashed_address [] = none
get_storage_root hashed_address (d ∷ ds) =
    let rest = get_storage_root hashed_address ds in
    elim (Maps.get hashed_address d.diff_storage_roots) [ some root ↦ some root | none ↦ rest ]
