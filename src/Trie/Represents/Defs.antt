-- ===== src/Trie/Represents/Defs.antt =====
-- What a node with hashes stands for, and that reading it follows the tree that it stands for.
use rust_eth_triedb.Common.{ℕ, suc, List, [], ◌∷◌, ◌++◌, ◌≡◌, some, ok}
use rust_eth_triedb.Node.{Node, Nodes, NodeFlag}
use rust_eth_triedb.Trie.Resolve.{TrieEnv, fetch, must_decode_node}
use rust_eth_triedb.Trie.Tree.{Tree, Trees}

-- `must_decode_node` returns full and short nodes only.
abbrev pub IsInner : Node → Type 0
IsInner (Node.full cs flags) = Unit {0}
IsInner (Node.short key val flags) = Unit {0}
IsInner _ = ⊥

-- A node at a prefix stands for a tree: a hash for the tree of the node that its prefix resolves to
-- in the diff layers and the database. `i` is the position of the first of the children.
mutual
  pub data Represents (env : TrieEnv) : List ℕ → Node → Tree → Type 0 where
    empty : {p : List ℕ} → Represents env p Node.empty Tree.empty
    value : {p : List ℕ} (v : List ℕ) → Represents env p (Node.value v) (Tree.value v)
    short :
        {p key : List ℕ} {c : Node} {t : Tree} {flags : NodeFlag}
        → Represents env (p ++ key) c t
        → Represents env p (Node.short key c flags) (Tree.short key t)
    full :
        {p : List ℕ} {cs : Nodes} {ts : Trees} {flags : NodeFlag}
        → RepresentAll env p 0 cs ts
        → Represents env p (Node.full cs flags) (Tree.full ts)
    hash :
        {p : List ℕ} {h : List ℕ} {n : Node} {t : Tree} (blob : List ℕ)
        → fetch env p ≡ ok blob
        → must_decode_node (some h) blob ≡ ok n
        → IsInner n
        → Represents env p n t
        → Represents env p (Node.hash h) t

  pub data RepresentAll (env : TrieEnv) : List ℕ → ℕ → Nodes → Trees → Type 0 where
    nil : {p : List ℕ} {i : ℕ} → RepresentAll env p i Nodes.nil Trees.nil
    cons :
        {p : List ℕ} {i : ℕ} {c : Node} {cs : Nodes} {t : Tree} {ts : Trees}
        → Represents env (p ++ (i ∷ [])) c t
        → RepresentAll env p (suc i) cs ts
        → RepresentAll env p i (Nodes.cons c cs) (Trees.cons t ts)
