-- ===== src/Hasher/Represents.antt =====
-- The node that a hasher keeps stands for the tree of the node that it was given.
use rust_eth_triedb.Common.{
  ℕ, suc, ◌+◌, ◌≤◌, List, [], ◌∷◌, ◌++◌, Bool, true, false, ◌==◌, ◌≡◌, ap, sym, ◌∙◌, Option, none,
  some, Bool-cases, inl, inr, arith,
}
use mathlib.Core.Path.{subst}
use rust_eth_triedb.Encoding.{hex_to_compact}
use rust_eth_triedb.Node.{Node, Nodes, NodeFlag, set_child}
use rust_eth_triedb.Trie.Resolve.{TrieEnv}
use rust_eth_triedb.Trie.Tree.{Tree, Trees, child}
use rust_eth_triedb.Trie.Tree.Keys.{ended}
use rust_eth_triedb.Trie.Tree.Shape.{IsWf, AreWf}
use rust_eth_triedb.Trie.Tree.Remove.Erased.{size_of-wide}
use rust_eth_triedb.Trie.Represents.Defs.{
  Represents, RepresentAll, empty, value, short, full, hash, nil, cons,
}
use rust_eth_triedb.Trie.Represents.Children.{set-child, AreWf-IsWide, set_child-Represents}
use rust_eth_triedb.Hasher.{
  Hashed, and_then, of_inner, cached_or, with_hash, hash_round, node_to_hash, hash_short, hash_full,
  hash_node, hash_children,
}
use rust_eth_triedb.Hasher.Parallel.{hash_node-parallel}

-- Without a panic, the node that is kept stands for `t`.
abbrev pub Keeps : TrieEnv → List ℕ → Tree → Option Hashed → Type 0
Keeps env p t none = Unit {0}
Keeps env p t (some (hashed, cached)) = Represents env p cached t

abbrev KeepsAll : TrieEnv → List ℕ → Trees → Option (Nodes × Nodes) → Type 0
KeepsAll env p ts none = Unit {0}
KeepsAll env p ts (some (collapsed, cached)) = RepresentAll env p 0 cached ts

module _ (env : TrieEnv) where
  cached_or-Keeps :
      (p : List ℕ) (h : Option (List ℕ)) (n : Node) (r : Option Hashed) (t : Tree)
      → Represents env p n t
      → Keeps env p t r
      → Keeps env p t (cached_or h n r)
  cached_or-Keeps p none n r t rep k = k
  cached_or-Keeps p (some h) n r t rep k = rep

  of_inner-Keeps :
      (p : List ℕ) (n : Node) (r : Option Hashed) (t : Tree)
      → Represents env p n t
      → Keeps env p t r
      → Keeps env p t (of_inner n r)
  of_inner-Keeps p Node.empty r t rep k = rep
  of_inner-Keeps p (Node.value v) r t rep k = rep
  of_inner-Keeps p (Node.hash h) r t rep k = rep
  of_inner-Keeps p (Node.short key val flags) r t rep k = k
  of_inner-Keeps p (Node.full cs flags) r t rep k = k

  -- Writes at the position of the child that was hashed.
  writes-KeepsAll :
      (p : List ℕ) (ts : Trees) (i : ℕ) (r : Option Hashed) (col cac : Nodes)
      (next : Nodes × Nodes → Option (Nodes × Nodes))
      → i ≤ 16
      → AreWf 0 ts
      → RepresentAll env p 0 cac ts
      → Keeps env (p ++ (i ∷ [])) (child ts i) r
      → ((col' cac' : Nodes) → RepresentAll env p 0 cac' ts → KeepsAll env p ts (next (col', cac')))
      → KeepsAll env p ts (
          and_then r (λ (x, y).
            and_then
              (set_child col i x)
              (λ col'. and_then (set_child cac i y) (λ cac'. next (col', cac')))))
  writes-KeepsAll p ts i none col cac next l wf all k ih = tt
  writes-KeepsAll p ts i (some (x, y)) col cac next l wf all k ih =
      let (cac', done, all') =
        set_child-Represents all i i y (child ts i) (AreWf-IsWide ts 0 wf) (omega arith) l k in
      go (set_child col i x) cac' done (subst (RepresentAll env p 0 cac') (set-child ts i) all')
    where
      go :
          (o : Option Nodes) (cac' : Nodes)
          → set_child cac i y ≡ some cac'
          → RepresentAll env p 0 cac' ts
          → KeepsAll env p ts
              (and_then o (λ col'. and_then (set_child cac i y) (λ cac'. next (col', cac'))))
      go none cac' d a = tt
      go (some col') cac' d a = rw d (ih col' cac' a)

  round-KeepsAll :
      (p : List ℕ) (ts : Trees) (i : ℕ) (c : Node) (r : Option Hashed) (col cac : Nodes)
      (next : Nodes × Nodes → Option (Nodes × Nodes))
      → i ≤ 16
      → AreWf 0 ts
      → RepresentAll env p 0 cac ts
      → Keeps env (p ++ (i ∷ [])) (child ts i) r
      → ((col' cac' : Nodes) → RepresentAll env p 0 cac' ts → KeepsAll env p ts (next (col', cac')))
      → KeepsAll env p ts (hash_round c r i (col, cac) next)
  round-KeepsAll p ts i Node.empty r col cac next l wf all k ih = ih col cac all
  round-KeepsAll p ts i (Node.full cs f) r col cac next l wf all k ih =
      writes-KeepsAll p ts i r col cac next l wf all k ih
  round-KeepsAll p ts i (Node.short a b f) r col cac next l wf all k ih =
      writes-KeepsAll p ts i r col cac next l wf all k ih
  round-KeepsAll p ts i (Node.hash h) r col cac next l wf all k ih =
      writes-KeepsAll p ts i r col cac next l wf all k ih
  round-KeepsAll p ts i (Node.value v) r col cac next l wf all k ih =
      writes-KeepsAll p ts i r col cac next l wf all k ih

module _ (keccak256 : List ℕ → List ℕ) (list_header : ℕ → List ℕ) (env : TrieEnv) where
  short-Keeps :
      (force : Bool) (p key : List ℕ) (flags : NodeFlag) (r : Option Hashed) (t : Tree)
      → Keeps env (p ++ key) t r
      → Keeps env p (Tree.short key t) (hash_short keccak256 list_header force key flags r)
  unfolding hash_short
  short-Keeps force p key flags none t k = tt
  short-Keeps force p key flags (some (x, y)) t k =
      go (node_to_hash keccak256 list_header force (Node.short (hex_to_compact key) x flags))
    where
      go :
          (o : Option Node)
          → Keeps env p
              (Tree.short key t)
              (and_then o (λ h. some (h, Node.short key y (with_hash flags h))))
      go none = tt
      go (some h) = short k

  full-Keeps :
      (force : Bool) (p : List ℕ) (flags : NodeFlag) (r : Option (Nodes × Nodes)) (ts : Trees)
      → KeepsAll env p ts r
      → Keeps env p (Tree.full ts) (hash_full keccak256 list_header force flags r)
  unfolding hash_full
  full-Keeps force p flags none ts k = tt
  full-Keeps force p flags (some (x, y)) ts k =
      go (node_to_hash keccak256 list_header force (Node.full x flags))
    where
      go :
          (o : Option Node)
          → Keeps env p (Tree.full ts) (and_then o (λ h. some (h, Node.full y (with_hash flags h))))
      go none = tt
      go (some h) = full k

  mutual
    unfolding hash_node child

    serial-Keeps :
        {p : List ℕ} {n : Node} {t : Tree}
        → Represents env p n t
        → (force e : Bool) → IsWf e t
        → Keeps env p t (hash_node keccak256 list_header false force n)
    serial-Keeps empty force e wf = empty
    serial-Keeps (value v) force e wf = value v
    serial-Keeps (hash blob f d inner rep) force e wf = hash blob f d inner rep
    serial-Keeps (short rep) force true wf = elim wf [ ]
    serial-Keeps {p} (short {key} {c} {t} {flags} rep) force false (e, ne, path, wf) =
        cached_or-Keeps env p (flags.hash) (Node.short key c flags) _ (Tree.short key t) (short rep)
          (short-Keeps force p key flags _ t (
            of_inner-Keeps env (p ++ key) c (hash_node keccak256 list_header false false c) t rep
              (serial-Keeps rep false e wf)))
    serial-Keeps (full all) force true wf = elim wf [ ]
    serial-Keeps {p} (full {cs} {ts} {flags} all) force false wf =
        cached_or-Keeps env p (flags.hash) (Node.full cs flags) _ (Tree.full ts) (full all) (
          full-Keeps force p flags _ ts
            (children-KeepsAll all ts cs cs wf wf (λ m x e. ap (child ts) (e ∙ omega arith)) all))

    children-KeepsAll :
        {p : List ℕ} {i : ℕ} {cs : Nodes} {tail : Trees}
        → RepresentAll env p i cs tail
        → (ts : Trees) (col cac : Nodes) → AreWf i tail
        → AreWf 0 ts
        → ((m x : ℕ) → x ≡ i + m → child ts x ≡ child tail m)
        → RepresentAll env p 0 cac ts
        → KeepsAll env p ts (hash_children keccak256 list_header cs i (col, cac))
    children-KeepsAll nil ts col cac w wf same all = all
    children-KeepsAll {p} (cons {i} {c} {cs} {t} {ts = tail} rep reps) ts col cac w wf same all =
        elim (Bool-cases (i == 16)) [
          | inl e ↦ rw (e, hash_children) all
          | inr e ↦
              rw (e, hash_children)
                (round-KeepsAll env p ts i c (hash_node keccak256 list_header false false c) col cac
                  (hash_children keccak256 list_header cs (suc i))
                  (omega (arith, size_of-wide tail (suc i) w.1)) wf all
                  (subst
                    (λ x.
                      Keeps env (p ++ (i ∷ [])) x (hash_node keccak256 list_header false false c))
                    (sym (same 0 i (omega arith))) (serial-Keeps rep false (ended i) w.0))
                  (λ col' cac' all'.
                    children-KeepsAll reps ts col' cac' w.1 wf
                      (λ m x q. same (suc m) x (omega arith)) all'))
        ]

  -- Without a panic, the node that a hasher keeps stands for the tree of the node that it hashed.
  pub hash_node-Keeps :
      {p : List ℕ} {n : Node} {t : Tree}
      → Represents env p n t
      → (parallel force e : Bool) → IsWf e t
      → Keeps env p t (hash_node keccak256 list_header parallel force n)
  hash_node-Keeps rep false force e wf = serial-Keeps rep force e wf
  hash_node-Keeps {p} {n} {t} rep true force e wf =
      subst (Keeps env p t) (sym (hash_node-parallel keccak256 list_header force n))
        (serial-Keeps rep force e wf)
