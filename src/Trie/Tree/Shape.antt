-- ===== src/Trie/Tree/Shape.antt =====
-- Well-formed trees, and reads of the trees that the operations build.
use rust_eth_triedb.Common.{
  ℕ, zero, suc, ◌≤◌, ◌<◌, List, [], ◌∷◌, ◌++◌, Bool, true, false, ◌≡◌, ◌≢◌, refl, ap, arith, ◌==◌,
  ==_refl, ==-false, if◌then◌else◌, length, drop, bytes_eq, bytes_eq-false, none,
  drop-length_append,
}
use rust_eth_triedb.Trie.Ops.{starts_with}
use rust_eth_triedb.Trie.Tree.{
  Tree, Trees, empty, full, short, value, nil, cons, lookup, lookup_child, set, empty_trees,
  no_children, below, branch,
}
use rust_eth_triedb.Trie.Tree.Keys.{IsPath, ended, starts_with-append}

-- A tree at a place where the terminator was passed (`true`) or not (`false`): a value stands
-- behind the terminator only, a short node has a path of its own, and a full node 17 children of
-- which the last is behind the terminator.
abbrev mutual
  pub IsWf : Bool → Tree → Type 0
  IsWf e empty = Unit {0}
  IsWf true (value v) = Unit {0}
  IsWf false (value v) = ⊥
  IsWf true (short sk c) = ⊥
  IsWf false (short sk c) = (e : Bool) × (sk ≢ []) × IsPath e sk × IsWf e c
  IsWf true (full cs) = ⊥
  IsWf false (full cs) = AreWf 0 cs

  pub AreWf : ℕ → Trees → Type 0
  AreWf i nil = i ≡ 17
  AreWf i (cons t ts) = IsWf (ended i) t × AreWf (suc i) ts

pub lookup-below :
    (q : List ℕ) (t : Tree) (k : List ℕ)
    → lookup (below q t) k ≡ (if starts_with k q then lookup t (drop (length q) k) else none)
unfolding lookup starts_with
lookup-below [] t k = refl
lookup-below (x ∷ q) t k = refl

pub starts_with→append : (k q : List ℕ) → starts_with k q ≡ true → k ≡ q ++ drop (length q) k
unfolding starts_with
starts_with→append k [] h = refl
starts_with→append [] (y ∷ q) h = cc
starts_with→append (x ∷ k) (y ∷ q) h = ground (arith, starts_with→append k q)

pub bytes_eq-append : (q r r' : List ℕ) → bytes_eq (q ++ r) (q ++ r') ≡ bytes_eq r r'
bytes_eq-append [] r r' = refl
bytes_eq-append (x ∷ q) r r' = rw (==_refl x) (bytes_eq-append q r r')

pub starts_with-append_append : (q s k : List ℕ) → starts_with (q ++ k) (q ++ s) ≡ starts_with k s
unfolding starts_with
starts_with-append_append [] s k = refl
starts_with-append_append (x ∷ q) s k = rw (==_refl x) (starts_with-append_append q s k)

-- A list that does not start with `q` starts with nothing longer.
pub starts_with-longer : (k q s : List ℕ) → starts_with k q ≡ false → starts_with k (q ++ s) ≡ false
unfolding starts_with
starts_with-longer k [] s h = cc
starts_with-longer [] (y ∷ q) s h = refl
starts_with-longer (x ∷ k) (y ∷ q) s h = ground (arith, starts_with-longer k q s)

pub starts_with-false_ne :
    (k k' q r : List ℕ) → k ≡ q ++ r → starts_with k' q ≡ false → bytes_eq k k' ≡ false
starts_with-false_ne k k' q r e h =
    bytes_eq-false k k' (λ same. cc (starts_with-append q r, h, e, same))

unfoldable pub size_of : Trees → ℕ
size_of nil = 0
size_of (cons t ts) = suc (size_of ts)

pub size_of-set : (ts : Trees) (i : ℕ) (t : Tree) → size_of (set ts i t) ≡ size_of ts
unfolding size_of set
size_of-set nil i t = refl
size_of-set (cons x ts) zero t = refl
size_of-set (cons x ts) (suc i) t = ap suc (size_of-set ts i t)

pub suc-==-suc : (i n : ℕ) → (suc i == suc n) ≡ (i == n)
suc-==-suc i n = ground arith

pub lookup_child-set :
    (ts : Trees) (i : ℕ) (t : Tree) (n : ℕ) (k : List ℕ)
    → i < size_of ts
    → lookup_child (set ts i t) n k ≡ (if i == n then lookup t k else lookup_child ts n k)
unfolding lookup set size_of
lookup_child-set nil i t n k h = elim h [ ]
lookup_child-set (cons x ts) zero t zero k h = refl
lookup_child-set (cons x ts) zero t (suc n) k h = rw (==-false 0 (suc n) (omega arith))
lookup_child-set (cons x ts) (suc i) t zero k h = rw (==-false (suc i) 0 (omega arith))
lookup_child-set (cons x ts) (suc i) t (suc n) k h =
    rw (suc-==-suc i n) (lookup_child-set ts i t n k (omega arith))

lookup_child-empty : (m n : ℕ) (k : List ℕ) → lookup_child (empty_trees m) n k ≡ none
unfolding lookup
lookup_child-empty zero n k = refl
lookup_child-empty (suc m) zero k = refl
lookup_child-empty (suc m) (suc n) k = lookup_child-empty m n k

pub lookup-full : (cs : Trees) (x : ℕ) (k : List ℕ) → lookup (full cs) (x ∷ k) ≡ lookup_child cs x k
unfolding lookup
lookup-full cs x k = refl

-- A branch reads as its two trees, each behind its nibble.
pub lookup-branch :
    (q : List ℕ) (a : ℕ) (s : Tree) (b : ℕ) (r : Tree) (x : ℕ) (k : List ℕ)
    → a ≤ 16
    → b ≤ 16
    → lookup (branch q a s b r) (q ++ (x ∷ k))
      ≡ (if b == x then lookup r k else if a == x then lookup s k else none)
unfolding branch size_of
lookup-branch q a s b r x k ha hb =
    let wide : b < size_of (set no_children a s) = rw (size_of-set no_children a s) (omega arith) in
    rw (
      lookup-below q (full (set (set no_children a s) b r)) (q ++ (x ∷ k)),
      starts_with-append q (x ∷ k),
      drop-length_append q (x ∷ k),
      lookup-full (set (set no_children a s) b r) x k,
      lookup_child-set (set no_children a s) b r x k wide,
      lookup_child-set no_children a s x k (omega arith),
      lookup_child-empty 17 x k,
    )

pub lookup-branch_miss :
    (q : List ℕ) (a : ℕ) (s : Tree) (b : ℕ) (r : Tree) (k : List ℕ)
    → starts_with k q ≡ false
    → lookup (branch q a s b r) k ≡ none
unfolding branch
lookup-branch_miss q a s b r k h = rw (lookup-below q (full (set (set no_children a s) b r)) k, h)
