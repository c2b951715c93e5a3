-- ===== src/Trie/Tree.antt =====
-- The trie without its database: what a node stands for once every hash is resolved. Flags and
-- cached hashes are forgotten.
pub mod Keys
pub mod Shape
pub mod Insert
pub mod InsertWf
pub mod Remove
use rust_eth_triedb.Common.{
  ℕ, zero, suc, List, [], ◌∷◌, ◌++◌, Bool, true, false, ◌==◌, if◌then◌else◌, length, drop, Option,
  none, some,
}
use rust_eth_triedb.Trie.Ops.{starts_with}

mutual
  pub data Tree : Type 0 where
    empty : Tree
    full : Trees → Tree
    short : List ℕ → Tree → Tree
    value : List ℕ → Tree

  pub data Trees : Type 0 where
    nil : Trees
    cons : Tree → Trees → Trees

-- The value under the rest of a key.
unfoldable mutual
  unfolding starts_with

  pub lookup : Tree → List ℕ → Option (List ℕ)
  lookup empty k = none
  lookup (value v) k = some v
  lookup (short sk c) k =
      let inside = lookup c (drop (length sk) k) in if starts_with k sk then inside else none
  lookup (full cs) [] = none
  lookup (full cs) (n ∷ k) = lookup_child cs n k

  pub lookup_child : Trees → ℕ → List ℕ → Option (List ℕ)
  lookup_child nil n k = none
  lookup_child (cons t ts) zero k = lookup t k
  lookup_child (cons t ts) (suc n) k = lookup_child ts n k

-- The child at a position, and the children with another tree there.
unfoldable pub child : Trees → ℕ → Tree
child nil i = empty
child (cons t ts) zero = t
child (cons t ts) (suc i) = child ts i

unfoldable pub set : Trees → ℕ → Tree → Trees
set nil i t' = nil
set (cons t ts) zero t' = cons t' ts
set (cons t ts) (suc i) t' = cons t (set ts i t')

abbrev pub empty_trees : ℕ → Trees
empty_trees zero = nil
empty_trees (suc n) = cons empty (empty_trees n)

abbrev pub no_children : Trees
no_children = empty_trees 17

-- How a key and the key of a short node relate: the short key is a prefix, and `r` is left; they
-- part behind `q`, the short key with `a` and then `s`, the key with `b` and then `r`; or the key
-- ends inside the short key.
pub data Fork : Type 0 where
  within : List ℕ → Fork
  apart : List ℕ → ℕ → List ℕ → ℕ → List ℕ → Fork
  exhausted : Fork

abbrev pub behind : ℕ → Fork → Fork
behind x (within r) = within r
behind x (apart q a s b r) = apart (x ∷ q) a s b r
behind x exhausted = exhausted

unfoldable pub fork : List ℕ → List ℕ → Fork
fork k [] = within k
fork [] (a ∷ s) = exhausted
fork (b ∷ k) (a ∷ s) = let rest = fork k s in if b == a then behind b rest else apart [] a s b k

-- A tree below a key; an empty key adds nothing.
abbrev pub below : List ℕ → Tree → Tree
below [] t = t
below (x ∷ q) t = short (x ∷ q) t

-- The trees of two keys that part behind `q`.
unfoldable pub branch : List ℕ → ℕ → Tree → ℕ → Tree → Tree
unfolding set
branch q a s b r = below q (full (set (set no_children a s) b r))

-- A short node with a value inserted below or beside its child.
unfoldable pub insert_short : List ℕ → Tree → List ℕ → (List ℕ → List ℕ → Tree) → Fork → Tree
unfolding branch
insert_short sk c v inserted (within r) = short sk (inserted r v)
insert_short sk c v inserted (apart q a s b r) = branch q a (below s c) b (below r (value v))
insert_short sk c v inserted exhausted = short sk c

unfoldable mutual
  unfolding fork branch set insert_short

  pub insert : Tree → List ℕ → List ℕ → Tree
  insert empty k v = below k (value v)
  insert (value w) k v = value v
  insert (short sk c) k v = insert_short sk c v (insert c) (fork k sk)
  insert (full cs) [] v = value v
  insert (full cs) (n ∷ k) v = full (insert_child cs n k v)

  pub insert_child : Trees → ℕ → List ℕ → List ℕ → Trees
  insert_child nil n k v = nil
  insert_child (cons t ts) zero k v = cons (insert t k v) ts
  insert_child (cons t ts) (suc n) k v = cons t (insert_child ts n k v)
