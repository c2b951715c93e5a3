-- ===== src/Trie/Tree/InsertWf.antt =====
-- `insert` keeps a tree well-formed.
use rust_eth_triedb.Common.{
  ℕ, zero, suc, ◌+◌, ◌≤◌, List, [], ◌∷◌, ◌++◌, Bool, true, false, ◌≡◌, ◌≢◌, refl, ◌∙◌, arith,
  ==-false,
}
use mathlib.Core.Path.{subst}
use rust_eth_triedb.Trie.Tree.{
  Tree, Trees, empty, full, short, value, nil, cons, set, insert, insert_child, insert_short,
  empty_trees, no_children, below, branch, fork,
}
use rust_eth_triedb.Trie.Tree.Keys.{
  IsPath, IsRest, ended, View, is_within, is_apart, is_exhausted, view, key-not_inside,
  IsRest-behind, IsRest-tail,
}
use rust_eth_triedb.Trie.Tree.Shape.{IsWf, AreWf}

cons-ne-nil : (x : ℕ) (k : List ℕ) → (x ∷ k) ≢ []
cons-ne-nil x k e = cc

pub set-AreWf :
    (ts : Trees) (i n : ℕ) (t : Tree) (x : ℕ)
    → AreWf i ts
    → x ≡ i + n
    → IsWf (ended x) t
    → AreWf i (set ts n t)
unfolding set
set-AreWf nil i n t x wf e h = wf
set-AreWf (cons t' ts) i zero t x wf e h = (subst (λ y. IsWf (ended y) t) (e ∙ omega arith) h, wf.1)
set-AreWf (cons t' ts) i (suc n) t x wf e h =
    (wf.0, set-AreWf ts (suc i) n t x wf.1 (omega arith) h)

empty-AreWf : (m i : ℕ) → i + m ≡ 17 → AreWf i (empty_trees m)
empty-AreWf zero i h = omega arith
empty-AreWf (suc m) i h = (tt, empty-AreWf m (suc i) (omega arith))

-- The tree behind one nibble of a path.
below-IsWf :
    (e : Bool) (a : ℕ) (s : List ℕ) (c : Tree)
    → IsPath e (a ∷ s)
    → IsWf e c
    → IsWf (ended a) (below s c)
below-IsWf true a [] c p wf = rw p wf
below-IsWf false a [] c p wf = rw (==-false a 16 (omega arith)) wf
below-IsWf true a (x ∷ s) c p wf = rw (==-false a 16 (omega arith)) (true, cons-ne-nil x s, p.1, wf)
below-IsWf false a (x ∷ s) c p wf =
    rw (==-false a 16 (omega arith)) (false, cons-ne-nil x s, p.1, wf)

behind-IsPath :
    (e : Bool) (q : List ℕ) (a : ℕ) (s : List ℕ) → IsPath e (q ++ (a ∷ s)) → IsPath e (a ∷ s)
behind-IsPath true [] a s p = p
behind-IsPath false [] a s p = p
behind-IsPath true (y ∷ []) a s p = p.1
behind-IsPath true (y ∷ z ∷ q) a s p = behind-IsPath true (z ∷ q) a s p.1
behind-IsPath false (y ∷ q) a s p = behind-IsPath false q a s p.1

front-IsPath :
    (e : Bool) (q : List ℕ) (a : ℕ) (s : List ℕ) → IsPath e (q ++ (a ∷ s)) → IsPath false q
front-IsPath e [] a s p = tt
front-IsPath true (y ∷ []) a s p = (p.0, tt)
front-IsPath true (y ∷ z ∷ q) a s p = (p.0, front-IsPath true (z ∷ q) a s p.1)
front-IsPath false (y ∷ q) a s p = (p.0, front-IsPath false q a s p.1)

short-IsWf : (q : List ℕ) (c : Tree) → IsPath false q → IsWf false c → IsWf false (below q c)
short-IsWf [] c p wf = wf
short-IsWf (x ∷ q) c p wf = (false, cons-ne-nil x q, p, wf)

branch-IsWf :
    (e : Bool) (q : List ℕ) (a : ℕ) (s : List ℕ) (b : ℕ) (r : List ℕ) (c : Tree) (v : List ℕ)
    → IsPath e (q ++ (a ∷ s))
    → IsPath true (q ++ (b ∷ r))
    → IsWf e c
    → IsWf false (branch q a (below s c) b (below r (value v)))
unfolding branch
branch-IsWf e q a s b r c v ps pk wf = short-IsWf q _ (front-IsPath e q a s ps) (
    set-AreWf (set no_children a (below s c)) 0 b (below r (value v)) b
      (set-AreWf no_children 0 a (below s c) a (empty-AreWf 17 0 refl) (omega arith)
        (below-IsWf e a s c (behind-IsPath e q a s ps) wf))
      (omega arith) (below-IsWf true b r (value v) (behind-IsPath true q b r pk) tt))

leaf-IsWf : (e : Bool) (k v : List ℕ) → IsRest e k → IsWf e (below k (value v))
leaf-IsWf true k v h = rw h tt
leaf-IsWf false [] v h = elim h [ ]
leaf-IsWf false (x ∷ k) v h = (true, cons-ne-nil x k, h, tt)

insert_short-IsWf :
    (c : Tree) (sk k v : List ℕ)
    → IsWf false (short sk c)
    → IsPath true k
    → ((e : Bool) (r : List ℕ) → IsWf e c → IsRest e r → IsWf e (insert c r v))
    → IsWf false (insert_short sk c v (insert c) (fork k sk))
unfolding insert_short
insert_short-IsWf c sk k v (e, ne, path, wf) h ih = go (view k sk)
  where
    go : View k sk → IsWf false (insert_short sk c v (insert c) (fork k sk))
    go (is_within r f p) =
        rw f (e, ne, path, ih e r wf (IsRest-behind e sk r path (subst (IsPath true) p h)))
    go (is_apart q a s b r f p p' n) =
        rw f (branch-IsWf e q a s b r c v (subst (IsPath e) p path) (subst (IsPath true) p' h) wf)
    go (is_exhausted x t f p) = absurd (key-not_inside e k x t h (subst (IsPath e) p path))

mutual
  unfolding insert

  pub insert-IsWf :
      (t : Tree) (e : Bool) (k v : List ℕ) → IsWf e t → IsRest e k → IsWf e (insert t k v)
  insert-IsWf empty e k v wf h = leaf-IsWf e k v h
  insert-IsWf (value w) true k v wf h = tt
  insert-IsWf (value w) false k v wf h = elim wf [ ]
  insert-IsWf (short sk c) true k v wf h = elim wf [ ]
  insert-IsWf (short sk c) false k v wf h =
      insert_short-IsWf c sk k v wf h (λ e r w g. insert-IsWf c e r v w g)
  insert-IsWf (full cs) true k v wf h = elim wf [ ]
  insert-IsWf (full cs) false [] v wf h = elim h [ ]
  insert-IsWf (full cs) false (n ∷ k) v wf h =
      insert_child-AreWf cs 0 n k v n wf (omega arith) (IsRest-tail n k h)

  pub insert_child-AreWf :
      (ts : Trees) (i n : ℕ) (k v : List ℕ) (x : ℕ)
      → AreWf i ts
      → x ≡ i + n
      → (x ≤ 16) × IsRest (ended x) k
      → AreWf i (insert_child ts n k v)
  insert_child-AreWf nil i n k v x wf e h = wf
  insert_child-AreWf (cons t ts) i zero k v x wf e h = (
    insert-IsWf t (ended i) k v wf.0 (subst (λ y. IsRest (ended y) k) (e ∙ omega arith) h.1),
    wf.1,
  )
  insert_child-AreWf (cons t ts) i (suc n) k v x wf e h =
      (wf.0, insert_child-AreWf ts (suc i) n k v x wf.1 (omega arith) h)
