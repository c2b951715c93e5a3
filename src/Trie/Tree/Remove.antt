-- ===== src/Trie/Tree/Remove.antt =====
-- The removal of a key from a tree: `none` if the tree has no place for it.
pub mod Lookup
pub mod Erased
pub mod Wf
use rust_eth_triedb.Common.{
  ℕ, zero, suc, List, [], ◌∷◌, ◌++◌, Bool, true, false, if◌then◌else◌, Option, none, some,
}
use mathlib.Core.Option
use rust_eth_triedb.Trie.Ops.{Occupied, none_yet, one, several}
use rust_eth_triedb.Trie.Tree.{
  Tree, Trees, empty, full, short, value, nil, cons, child, set, Fork, within, apart, exhausted,
  fork,
}

abbrev pub is_empty_tree : Tree → Bool
is_empty_tree empty = true
is_empty_tree (full cs) = false
is_empty_tree (short sk c) = false
is_empty_tree (value v) = false

-- The position of the only tree that is not empty.
unfoldable pub scan_trees : Trees → ℕ → Occupied → Occupied
scan_trees nil i found = found
scan_trees (cons t ts) i found = elim (is_empty_tree t) [
  | true ↦ scan_trees ts (suc i) found
  | false ↦ elim found [
    | none_yet ↦ scan_trees ts (suc i) (one i)
    | one j ↦ several
    | several ↦ several
  ]
]

-- A tree behind a path; two short nodes in a row become one.
abbrev pub merge : List ℕ → Tree → Tree
merge sk empty = short sk empty
merge sk (full cs) = short sk (full cs)
merge sk (short ck cc) = short (sk ++ ck) cc
merge sk (value v) = short sk (value v)

abbrev pub collapse_to : Trees → Occupied → Tree
collapse_to cs none_yet = full cs
collapse_to cs (one pos) = merge (pos ∷ []) (child cs pos)
collapse_to cs several = full cs

-- A full node of which one child is left becomes a short node.
unfoldable pub collapse : Trees → Tree
unfolding child scan_trees
collapse cs = collapse_to cs (scan_trees cs 0 none_yet)

-- The full node with another child, which may have become empty.
unfoldable pub refill : Trees → ℕ → Tree → Tree
unfolding set collapse
refill cs n c = if is_empty_tree c then collapse (set cs n c) else full (set cs n c)

unfoldable pub remove_short : List ℕ → (List ℕ → Option Tree) → Fork → Option Tree
remove_short sk removed' (within []) = some empty
remove_short sk removed' (within (x ∷ r)) = Option.map (merge sk) (removed' (x ∷ r))
remove_short sk removed' (apart q a s b r) = none
remove_short sk removed' exhausted = none

unfoldable mutual
  unfolding fork remove_short refill

  pub removed : Tree → List ℕ → Option Tree
  removed empty k = none
  removed (value v) k = some empty
  removed (short sk c) k = remove_short sk (removed c) (fork k sk)
  removed (full cs) [] = none
  removed (full cs) (n ∷ k) = Option.map (refill cs n) (removed_child cs n k)

  pub removed_child : Trees → ℕ → List ℕ → Option Tree
  removed_child nil n k = none
  removed_child (cons t ts) zero k = removed t k
  removed_child (cons t ts) (suc n) k = removed_child ts n k

-- The tree without the key.
unfoldable pub remove : Tree → List ℕ → Tree
unfolding removed
remove t k = elim (removed t k) [ none ↦ t | some t' ↦ t' ]
