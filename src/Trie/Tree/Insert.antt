-- ===== src/Trie/Tree/Insert.antt =====
-- `insert` writes one key and keeps the tree well-formed.
use rust_eth_triedb.Common.{
  ℕ, zero, suc, ◌+◌, ◌≤◌, List, [], ◌∷◌, ◌++◌, Bool, true, false, ◌&&◌, ◌≡◌, ◌≢◌, refl, sym, ◌∙◌,
  arith, ◌==◌, ==-false, if◌then◌else◌, length, drop, Bool-cases, inl, inr, bytes_eq, Option, none,
  some, append-nil,
}
use mathlib.Core.Path.{ap₂, subst}
use rust_eth_triedb.Trie.Ops.{starts_with}
use rust_eth_triedb.Trie.Tree.{
  Tree, Trees, empty, full, short, value, nil, cons, lookup, lookup_child, insert, insert_child,
  insert_short, below, branch, fork,
}
use rust_eth_triedb.Trie.Tree.Keys.{
  IsPath, IsRest, ended, View, is_within, is_apart, is_exhausted, view, key-not_inside,
  IsRest-behind, IsRest-tail, starts_with-key,
}
use rust_eth_triedb.Trie.Tree.Shape.{
  IsWf, AreWf, lookup-below, starts_with→append, bytes_eq-append, starts_with-append_append,
  starts_with-longer, starts_with-false_ne, lookup-branch, lookup-branch_miss, suc-==-suc,
}

-- A map with one key written.
abbrev pub written : List ℕ → List ℕ → Option (List ℕ) → List ℕ → Option (List ℕ)
written k v old k' = if bytes_eq k k' then some v else old

-- A single value, read behind its path.
lookup-leaf :
    (e : Bool) (k k' v : List ℕ)
    → IsRest e k
    → IsRest e k'
    → lookup (below k (value v)) k' ≡ (if bytes_eq k k' then some v else none)
unfolding lookup
lookup-leaf e k k' v h h' = rw (lookup-below k (value v) k', starts_with-key k' k e h' h)

-- Both keys pass the short node: what is left of them decides.
lookup-within :
    (sk : List ℕ) (c c' : Tree) (k k' r v : List ℕ)
    → k ≡ sk ++ r
    → ((r' : List ℕ) → k' ≡ sk ++ r' → lookup c' r' ≡ written r v (lookup c r') r')
    → lookup (short sk c') k' ≡ written k v (lookup (short sk c) k') k'
unfolding lookup
lookup-within sk c c' k k' r v p ih = elim (Bool-cases (starts_with k' sk)) [
  | inl e ↦
      let r' : List ℕ = drop (length sk) k' in
      let p' : k' ≡ sk ++ r' = starts_with→append k' sk e in
      let same : bytes_eq k k' ≡ bytes_eq r r' = ap₂ bytes_eq p p' ∙ bytes_eq-append sk r r' in
      rw (e, same) (ih r' p')
  | inr e ↦ rw (e, starts_with-false_ne k k' sk r p e)
]

drop-append_append : (q t u : List ℕ) → drop (length (q ++ t)) (q ++ u) ≡ drop (length t) u
drop-append_append [] t u = refl
drop-append_append (x ∷ q) t u = drop-append_append q t u

-- The tests of both sides, at nibbles `b` and `a` that differ.
choose :
    (b a x : ℕ) (in_new is_new in_old : Bool) (new old : Option (List ℕ))
    → b ≢ a
    → (b ≡ x → in_new ≡ is_new)
    → (if b == x
        then (if in_new then new else none)
        else if a == x
        then (if in_old then old else none)
        else none)
      ≡ (if (b == x) && is_new
          then new
          else if (if x == a then in_old else false)
          then old
          else none)
choose b a x in_new is_new in_old new old ne agree = ground arith

-- A key that parts from the short node inside a branch.
lookup-apart_hit :
    (q : List ℕ) (a : ℕ) (s : List ℕ) (b : ℕ) (r : List ℕ) (c : Tree) (v : List ℕ) (x : ℕ)
    (k : List ℕ)
    → a ≤ 16
    → b ≤ 16
    → b ≢ a
    → (b ≡ x → starts_with k r ≡ bytes_eq r k)
    → lookup (branch q a (below s c) b (below r (value v))) (q ++ (x ∷ k))
      ≡ written (q ++ (b ∷ r)) v (lookup (short (q ++ (a ∷ s)) c) (q ++ (x ∷ k))) (q ++ (x ∷ k))
unfolding lookup starts_with
lookup-apart_hit q a s b r c v x k ha hb ne agree =
    rw
      (
        lookup-branch q a (below s c) b (below r (value v)) x k ha hb,
        lookup-below r (value v) k,
        lookup-below s c k,
        bytes_eq-append q (b ∷ r) (x ∷ k),
        starts_with-append_append q (a ∷ s) (x ∷ k),
        drop-append_append q (a ∷ s) (x ∷ k),
        starts_with,
      )
      (choose b a x _ _ _ _ _ ne agree)

lookup-apart_miss :
    (q : List ℕ) (a : ℕ) (s : List ℕ) (b : ℕ) (r : List ℕ) (c : Tree) (v k' : List ℕ)
    → starts_with k' q ≡ false
    → lookup (branch q a (below s c) b (below r (value v))) k'
      ≡ written (q ++ (b ∷ r)) v (lookup (short (q ++ (a ∷ s)) c) k') k'
unfolding lookup
lookup-apart_miss q a s b r c v k' h = rw (
  lookup-branch_miss q a (below s c) b (below r (value v)) k' h,
  starts_with-longer k' q (a ∷ s) h,
  starts_with-false_ne (q ++ (b ∷ r)) k' q (b ∷ r) refl h,
)

-- The nibbles where two paths part, and what is left behind them.
pub parted : (e : Bool) (q : List ℕ) (a : ℕ) (s : List ℕ) → IsPath e (q ++ (a ∷ s)) → a ≤ 16
parted true [] a [] p = omega arith
parted true [] a (x ∷ s) p = omega arith
parted false [] a s p = omega arith
parted true (y ∷ []) a s p = parted true [] a s p.1
parted true (y ∷ z ∷ q) a s p = parted true (z ∷ q) a s p.1
parted false (y ∷ q) a s p = parted false q a s p.1

pub behind_branch-IsRest :
    (q : List ℕ) (b : ℕ) (r : List ℕ) → IsPath true (q ++ (b ∷ r)) → IsRest (ended b) r
behind_branch-IsRest [] b r h = (IsRest-tail b r h).1
behind_branch-IsRest (y ∷ []) b r h = behind_branch-IsRest [] b r h.1
behind_branch-IsRest (y ∷ z ∷ q) b r h = behind_branch-IsRest (z ∷ q) b r h.1

-- A read at a key that may or may not pass the place where the branch stands.
lookup-apart :
    (e : Bool) (q : List ℕ) (a : ℕ) (s : List ℕ) (b : ℕ) (r : List ℕ) (c : Tree) (v k' : List ℕ)
    → IsPath e (q ++ (a ∷ s))
    → IsPath true (q ++ (b ∷ r))
    → IsPath true k'
    → b ≢ a
    → lookup (branch q a (below s c) b (below r (value v))) k'
      ≡ written (q ++ (b ∷ r)) v (lookup (short (q ++ (a ∷ s)) c) k') k'
lookup-apart e q a s b r c v k' ps pk pk' ne = elim (Bool-cases (starts_with k' q)) [
  | inr miss ↦ lookup-apart_miss q a s b r c v k' miss
  | inl hit ↦ go (drop (length q) k') (starts_with→append k' q hit)
]
  where
    go :
        (t : List ℕ)
        → k' ≡ q ++ t
        → lookup (branch q a (below s c) b (below r (value v))) k'
          ≡ written (q ++ (b ∷ r)) v (lookup (short (q ++ (a ∷ s)) c) k') k'
    go [] p = absurd (key-not_inside true q b r (subst (IsPath true) (p ∙ append-nil q) pk') pk)
    go (x ∷ t) p =
        let rest : IsRest (ended x) t = behind_branch-IsRest q x t (subst (IsPath true) p pk') in
        rw p (
          lookup-apart_hit q a s b r c v x t (parted e q a s ps) (parted true q b r pk) ne (λ same.
            starts_with-key t r (ended x) rest
              (subst (λ (y : ℕ). IsRest (ended y) r) same (behind_branch-IsRest q b r pk))))

pub insert-short_eq :
    (sk : List ℕ) (c : Tree) (k v : List ℕ)
    → insert (short sk c) k v ≡ insert_short sk c v (insert c) (fork k sk)
unfolding insert
insert-short_eq sk c k v = refl

lookup-short_insert :
    (c : Tree) (sk k k' v : List ℕ)
    → IsWf false (short sk c)
    → IsPath true k
    → IsPath true k'
    → ((e : Bool) (r r' : List ℕ)
        → IsWf e c
        → IsRest e r
        → IsRest e r'
        → lookup (insert c r v) r' ≡ written r v (lookup c r') r')
    → lookup (insert_short sk c v (insert c) (fork k sk)) k'
      ≡ written k v (lookup (short sk c) k') k'
unfolding insert_short
lookup-short_insert c sk k k' v (e, ne, path, wf) h h' ih = go (view k sk)
  where
    go :
        View k sk
        → lookup (insert_short sk c v (insert c) (fork k sk)) k'
          ≡ written k v (lookup (short sk c) k') k'
    go (is_within r f p) = rw f (
        lookup-within sk c (insert c r v) k k' r v p (λ r' p'.
          ih e r r' wf (IsRest-behind e sk r path (subst (IsPath true) p h))
            (IsRest-behind e sk r' path (subst (IsPath true) p' h'))))
    go (is_apart q a s b r f p p' n) = rw f (
        rw (p, p')
          (lookup-apart e q a s b r c v k' (subst (IsPath e) p path) (subst (IsPath true) p' h) h'
            n))
    go (is_exhausted x t f p) = absurd (key-not_inside e k x t h (subst (IsPath e) p path))

written-other :
    (n n' : ℕ) (b : Bool) (v : List ℕ) (old : Option (List ℕ))
    → (n == n') ≡ false
    → (if (n == n') && b then some v else old) ≡ old
written-other n n' b v old h = rw h

-- What a lookup returns after an insert, in a tree and in the children of a full node; `x` is the
-- position of a child among all 17.
mutual
  unfolding lookup insert

  lookup-insert_in :
      (t : Tree) (e : Bool) (k k' v : List ℕ)
      → IsWf e t
      → IsRest e k
      → IsRest e k'
      → lookup (insert t k v) k' ≡ written k v (lookup t k') k'
  lookup-insert_in empty e k k' v wf h h' = lookup-leaf e k k' v h h'
  lookup-insert_in (value w) true k k' v wf h h' = rw (h, h')
  lookup-insert_in (value w) false k k' v wf h h' = elim wf [ ]
  lookup-insert_in (short sk c) true k k' v wf h h' = elim wf [ ]
  lookup-insert_in (short sk c) false k k' v wf h h' =
      lookup-short_insert c sk k k' v wf h h' (λ e r r' w g g'. lookup-insert_in c e r r' v w g g')
  lookup-insert_in (full cs) true k k' v wf h h' = elim wf [ ]
  lookup-insert_in (full cs) false [] k' v wf h h' = elim h [ ]
  lookup-insert_in (full cs) false (n ∷ k) [] v wf h h' = elim h' [ ]
  lookup-insert_in (full cs) false (n ∷ k) (n' ∷ k') v wf h h' =
      lookup_child-insert cs 0 n k n' k' v n n' wf (omega arith) (omega arith) (IsRest-tail n k h)
        (IsRest-tail n' k' h')

  lookup_child-insert :
      (ts : Trees) (i n : ℕ) (k : List ℕ) (n' : ℕ) (k' v : List ℕ) (x x' : ℕ)
      → AreWf i ts
      → x ≡ i + n
      → x' ≡ i + n'
      → (x ≤ 16) × IsRest (ended x) k
      → (x' ≤ 16) × IsRest (ended x') k'
      → lookup_child (insert_child ts n k v) n' k'
        ≡ (if (n == n') && bytes_eq k k' then some v else lookup_child ts n' k')
  lookup_child-insert nil i n k n' k' v x x' wf e e' h h' = absurd (omega arith)
  lookup_child-insert (cons t ts) i zero k zero k' v x x' wf e e' h h' =
      lookup-insert_in t (ended i) k k' v wf.0
        (subst (λ y. IsRest (ended y) k) (e ∙ omega arith) h.1)
        (subst (λ y. IsRest (ended y) k') (e' ∙ omega arith) h'.1)
  lookup_child-insert (cons t ts) i zero k (suc n') k' v x x' wf e e' h h' =
      sym (written-other 0 (suc n') _ v _ (==-false 0 (suc n') (omega arith)))
  lookup_child-insert (cons t ts) i (suc n) k zero k' v x x' wf e e' h h' =
      sym (written-other (suc n) 0 _ v _ (==-false (suc n) 0 (omega arith)))
  lookup_child-insert (cons t ts) i (suc n) k (suc n') k' v x x' wf e e' h h' =
      rw (suc-==-suc n n')
        (lookup_child-insert ts (suc i) n k n' k' v x x' wf.1 (omega arith) (omega arith) h h')

-- After an insert a lookup of any key of the right form returns the new value at the key written,
-- and what it returned before at every other key.
pub lookup-insert :
    (t : Tree) (k k' v : List ℕ)
    → IsWf false t
    → IsPath true k
    → IsPath true k'
    → lookup (insert t k v) k' ≡ (if bytes_eq k k' then some v else lookup t k')
lookup-insert t k k' v wf h h' = lookup-insert_in t false k k' v wf h h'
