-- ===== src/Trie/Represents/Children.antt =====
-- The children of a full node and of the tree that it stands for.
use rust_eth_triedb.Common.{
  ℕ, zero, suc, true, ◌+◌, ◌*◌, ◌≤◌, List, [], ◌∷◌, ◌++◌, ◌≡◌, refl, ap, sym, ◌∙◌, arith, length,
  some,
}
use mathlib.Core.Path.{subst}
use rust_eth_triedb.Node.{Node, Nodes, get_child, set_child, empty_nodes}
use rust_eth_triedb.Trie.Resolve.{TrieEnv}
use rust_eth_triedb.Trie.Tree.{Tree, Trees, lookup, lookup_child, child, set, empty_trees}
use rust_eth_triedb.Trie.Tree.Keys.{ended}
use rust_eth_triedb.Trie.Tree.Shape.{IsWf, AreWf}
use rust_eth_triedb.Trie.Represents.Defs.{
  Represents, RepresentAll, IsInner, nil, cons, empty, value, short, full, hash,
}

-- The calls that a read or a write makes at a node, with `rest` of the key left: two for each nibble,
-- since a hash may stand at each place.
abbrev pub need : Node → List ℕ → ℕ
need (Node.hash h) rest = 2 * length rest + 2
need _ rest = 2 * length rest + 1

pub need-bounds :
    (n : Node) (rest : List ℕ) → (1 ≤ need n rest) × (need n rest ≤ 2 * length rest + 2)
need-bounds (Node.hash h) rest = omega arith
need-bounds Node.empty rest = omega arith
need-bounds (Node.full cs flags) rest = omega arith
need-bounds (Node.short key val flags) rest = omega arith
need-bounds (Node.value v) rest = omega arith

pub need-inner : (n : Node) (rest : List ℕ) → IsInner n → need n rest ≡ 2 * length rest + 1
need-inner (Node.hash h) rest i = elim i [ ]
need-inner Node.empty rest i = refl
need-inner (Node.full cs flags) rest i = refl
need-inner (Node.short key val flags) rest i = refl
need-inner (Node.value v) rest i = refl

-- Behind the terminator stands no full or short node.
pub inner_not_ended :
    (env : TrieEnv) {p : List ℕ} {n : Node} {t : Tree}
    → IsInner n
    → Represents env p n t
    → IsWf true t
    → ⊥
inner_not_ended env i empty wf = i
inner_not_ended env i (value v) wf = i
inner_not_ended env i (short rep) wf = wf
inner_not_ended env i (full all) wf = wf
inner_not_ended env i (hash blob fetched decoded inner rep) wf = i

pub lookup_child-child :
    (ts : Trees) (n : ℕ) (k : List ℕ) → lookup_child ts n k ≡ lookup (child ts n) k
unfolding lookup child
lookup_child-child Trees.nil n k = refl
lookup_child-child (Trees.cons t ts) zero k = refl
lookup_child-child (Trees.cons t ts) (suc n) k = lookup_child-child ts n k

pub set-child : (ts : Trees) (n : ℕ) → set ts n (child ts n) ≡ ts
unfolding set child
set-child Trees.nil n = refl
set-child (Trees.cons t ts) zero = refl
set-child (Trees.cons t ts) (suc n) = ap (Trees.cons t) (set-child ts n)

pub child-IsWf : (ts : Trees) (i n x : ℕ) → AreWf i ts → x ≡ i + n → IsWf (ended x) (child ts n)
unfolding child
child-IsWf Trees.nil i n x wf e = tt
child-IsWf (Trees.cons t ts) i zero x wf e =
    subst (λ y. IsWf (ended y) t) (sym (e ∙ omega arith)) wf.0
child-IsWf (Trees.cons t ts) i (suc n) x wf e = child-IsWf ts (suc i) n x wf.1 (omega arith)

-- The children from position `i` on are those of 17.
abbrev pub IsWide : ℕ → Trees → Type 0
IsWide i Trees.nil = i ≡ 17
IsWide i (Trees.cons t ts) = IsWide (suc i) ts

pub AreWf-IsWide : (ts : Trees) (i : ℕ) → AreWf i ts → IsWide i ts
AreWf-IsWide Trees.nil i wf = wf
AreWf-IsWide (Trees.cons t ts) i wf = AreWf-IsWide ts (suc i) wf.1

pub set-IsWide : (ts : Trees) (i n : ℕ) (t : Tree) → IsWide i ts → IsWide i (set ts n t)
unfolding set
set-IsWide Trees.nil i n t w = w
set-IsWide (Trees.cons x ts) i zero t w = w
set-IsWide (Trees.cons x ts) i (suc n) t w = set-IsWide ts (suc i) n t w

module _ {env : TrieEnv} {p : List ℕ} where
  pub get_child-Represents :
      {i : ℕ} {cs : Nodes} {ts : Trees}
      → RepresentAll env p i cs ts
      → (n x : ℕ) → AreWf i ts
      → x ≡ i + n
      → x ≤ 16
      → (c : Node) × (get_child cs n ≡ some c) × Represents env (p ++ (x ∷ [])) c (child ts n)
  unfolding get_child child
  get_child-Represents nil n x wf e l = absurd (omega arith)
  get_child-Represents (cons {i} {c} {t} r rs) zero x wf e l =
      (c, refl, subst (λ y. Represents env (p ++ (y ∷ [])) c t) (sym (e ∙ omega arith)) r)
  get_child-Represents (cons r rs) (suc n) x wf e l =
      get_child-Represents rs n x wf.1 (omega arith) l

  pub set_child-Represents :
      {i : ℕ} {cs : Nodes} {ts : Trees}
      → RepresentAll env p i cs ts
      → (n x : ℕ) (c' : Node) (t' : Tree) → IsWide i ts
      → x ≡ i + n
      → x ≤ 16
      → Represents env (p ++ (x ∷ [])) c' t'
      → (cs' : Nodes) × (set_child cs n c' ≡ some cs') × RepresentAll env p i cs' (set ts n t')
  unfolding set_child set
  set_child-Represents nil n x c' t' wf e l r' = absurd (omega arith)
  set_child-Represents (cons {cs} r rs) zero x c' t' wf e l r' = (
    Nodes.cons c' cs,
    refl,
    cons (subst (λ y. Represents env (p ++ (y ∷ [])) c' t') (e ∙ omega arith) r') rs,
  )
  set_child-Represents (cons {c} r rs) (suc n) x c' t' wf e l r' =
      let (cs', done, rs') = set_child-Represents rs n x c' t' wf (omega arith) l r' in
      (Nodes.cons c cs', rw done, cons r rs')

  pub empty_nodes-Represents : (m i : ℕ) → RepresentAll env p i (empty_nodes m) (empty_trees m)
  empty_nodes-Represents zero i = nil
  empty_nodes-Represents (suc m) i = cons empty (empty_nodes-Represents m (suc i))
