-- ===== src/Trie/Tree/Remove/Erased.antt =====
-- A removal erases its key and no other.
use rust_eth_triedb.Common.{
  ℕ, zero, suc, ◌+◌, ◌<◌, List, [], ◌∷◌, ◌++◌, Bool, true, false, ◌≡◌, ◌≢◌, refl, sym, ap, ◌∙◌,
  arith, ◌==◌, ==-false, ==_iff, if◌then◌else◌, length, drop, Bool-cases, inl, inr, bytes_eq,
  bytes_eq_refl, bytes_eq→eq, Option, none, some, drop-length_append,
}
use mathlib.Core.Path.{subst}
use mathlib.Core.Option
use rust_eth_triedb.Trie.Ops.{starts_with}
use rust_eth_triedb.Trie.Tree.{
  Tree, Trees, empty, full, short, value, nil, cons, lookup, lookup_child, child, set, fork,
}
use rust_eth_triedb.Trie.Tree.Keys.{
  IsPath, IsRest, ended, View, is_within, is_apart, is_exhausted, view, key-not_inside,
  IsRest-behind, IsRest-tail, starts_with-append,
}
use rust_eth_triedb.Trie.Tree.Shape.{
  IsWf, AreWf, starts_with→append, bytes_eq-append, starts_with-append_append, size_of,
  lookup_child-set, lookup-full,
}
use rust_eth_triedb.Trie.Tree.Remove.{
  is_empty_tree, merge, refill, remove_short, removed, removed_child, remove,
}
use rust_eth_triedb.Trie.Tree.Remove.Lookup.{
  erased, IsErased, lookup-empty, lookup-short, lookup-merge, lookup-collapse, lookup_child-child,
}

erased-none : (k k' : List ℕ) → erased k none k' ≡ none
erased-none k k' = elim (Bool-cases (bytes_eq k k')) [ inl e ↦ rw e refl | inr e ↦ rw e refl ]

-- The whole key of a short node is removed.
erased-short_all :
    (sk : List ℕ) (c : Tree) (e : Bool) (k' : List ℕ)
    → IsPath e sk
    → IsRest e []
    → IsPath true k'
    → lookup empty k' ≡ erased (sk ++ []) (lookup (short sk c) k') k'
erased-short_all sk c e k' path end h' = elim (Bool-cases (starts_with k' sk)) [
  | inr miss ↦ rw (lookup-empty k', lookup-short sk c k', miss, erased-none (sk ++ []) k')
  | inl hit ↦
      let split = starts_with→append k' sk hit in
      let rest = IsRest-behind e sk (drop (length sk) k') path (subst (IsPath true) split h') in
      rw (lookup-empty k', lookup-short sk c k', hit) (go e end rest split)
]
  where
    go :
        (e : Bool)
        → IsRest e []
        → IsRest e (drop (length sk) k')
        → k' ≡ sk ++ drop (length sk) k'
        → none ≡ erased (sk ++ []) (lookup c (drop (length sk) k')) k'
    go true end rest split =
        let same : bytes_eq (sk ++ []) k' ≡ true = rw (split, rest) (bytes_eq_refl (sk ++ [])) in
        rw same refl
    go false end rest split = elim end [ ]

-- What is left of the key behind a short node is removed below it.
erased-short_inside :
    (sk : List ℕ) (c c' : Tree) (e : Bool) (r k' : List ℕ)
    → IsPath e sk
    → IsPath true k'
    → ((r' : List ℕ) → IsRest e r' → lookup c' r' ≡ erased r (lookup c r') r')
    → lookup (merge sk c') k' ≡ erased (sk ++ r) (lookup (short sk c) k') k'
erased-short_inside sk c c' e r k' path h' ih = elim (Bool-cases (starts_with k' sk)) [
  | inr miss ↦ rw (
    lookup-merge sk c' k',
    lookup-short sk c' k',
    lookup-short sk c k',
    miss,
    erased-none (sk ++ r) k',
  )
  | inl hit ↦
      let r' : List ℕ = drop (length sk) k' in
      let split : k' ≡ sk ++ r' = starts_with→append k' sk hit in
      let same : bytes_eq (sk ++ r) k' ≡ bytes_eq r r' =
        ap (bytes_eq (sk ++ r)) split ∙ bytes_eq-append sk r r' in
      rw (lookup-merge sk c' k', lookup-short sk c' k', lookup-short sk c k', hit, same)
        (ih r' (IsRest-behind e sk r' path (subst (IsPath true) split h')))
]

lookup-short_append :
    (sk : List ℕ) (c : Tree) (r : List ℕ) → lookup (short sk c) (sk ++ r) ≡ lookup c r
lookup-short_append sk c r =
    rw (lookup-short sk c (sk ++ r), starts_with-append sk r, drop-length_append sk r) refl

lookup-short_apart :
    (q : List ℕ) (a : ℕ) (s : List ℕ) (b : ℕ) (r : List ℕ) (c : Tree)
    → b ≢ a
    → lookup (short (q ++ (a ∷ s)) c) (q ++ (b ∷ r)) ≡ none
unfolding starts_with
lookup-short_apart q a s b r c ne =
    rw
      (
        lookup-short (q ++ (a ∷ s)) c (q ++ (b ∷ r)),
        starts_with-append_append q (a ∷ s) (b ∷ r),
        starts_with,
        ==-false b a ne,
      )
      refl

inside :
    (sk : List ℕ) (c : Tree) (e : Bool) (r : List ℕ) (o : Option Tree)
    → IsPath e sk
    → IsErased e c r o
    → IsErased false (short sk c) (sk ++ r) (Option.map (merge sk) o)
inside sk c e r none path ih = lookup-short_append sk c r ∙ ih
inside sk c e r (some c') path ih = λ k' h'. erased-short_inside sk c c' e r k' path h' ih

remove_short-IsErased :
    (sk : List ℕ) (c : Tree) (k : List ℕ)
    → IsWf false (short sk c)
    → IsPath true k
    → ((e : Bool) (r : List ℕ) → IsWf e c → IsRest e r → IsErased e c r (removed c r))
    → IsErased false (short sk c) k (remove_short sk (removed c) (fork k sk))
unfolding remove_short
remove_short-IsErased sk c k (e, ne, path, wf) h ih = go (view k sk)
  where
    go : View k sk → IsErased false (short sk c) k (remove_short sk (removed c) (fork k sk))
    go (is_within [] f p) =
        rw (f, p)
          (λ k' h'.
            erased-short_all sk c e k' path (IsRest-behind e sk [] path (subst (IsPath true) p h))
              h')
    go (is_within (x ∷ r) f p) =
        rw (f, p)
          (inside sk c e (x ∷ r) (removed c (x ∷ r)) path
            (ih e (x ∷ r) wf (IsRest-behind e sk (x ∷ r) path (subst (IsPath true) p h))))
    go (is_apart q a s b r f p p' n) = rw (f) (rw (p, p') (lookup-short_apart q a s b r c n))
    go (is_exhausted x t f p) = absurd (key-not_inside e k x t h (subst (IsPath e) p path))

lookup-refill :
    (cs : Trees) (n : ℕ) (c : Tree) (n' : ℕ) (k : List ℕ)
    → n < size_of cs
    → lookup (refill cs n c) (n' ∷ k) ≡ (if n == n' then lookup c k else lookup_child cs n' k)
unfolding refill
lookup-refill cs n c n' k wide = elim (Bool-cases (is_empty_tree c)) [
  | inl e ↦ rw e (lookup-collapse (set cs n c) n' k ∙ lookup_child-set cs n c n' k wide)
  | inr e ↦ rw e (lookup-full (set cs n c) n' k ∙ lookup_child-set cs n c n' k wide)
]

pub size_of-wide : (ts : Trees) (i : ℕ) → AreWf i ts → i + size_of ts ≡ 17
unfolding size_of
size_of-wide nil i h = omega arith
size_of-wide (cons t ts) i h = omega (arith, size_of-wide ts (suc i) h.1)

full-IsErased :
    (cs : Trees) (n : ℕ) (k : List ℕ) (o : Option Tree)
    → AreWf 0 cs
    → IsPath true (n ∷ k)
    → IsErased (ended n) (child cs n) k o
    → IsErased false (full cs) (n ∷ k) (Option.map (refill cs n) o)
full-IsErased cs n k none wf h ih = lookup-full cs n k ∙ lookup_child-child cs n k ∙ ih
full-IsErased cs n k (some c) wf h ih = at_key
  where
    at_key :
        (k' : List ℕ)
        → IsPath true k'
        → lookup (refill cs n c) k' ≡ erased (n ∷ k) (lookup (full cs) k') k'
    at_key [] h' = elim h' [ ]
    at_key (n' ∷ k') h' =
        rw
          (
            lookup-refill cs n c n' k' (omega (arith, size_of-wide cs 0 wf, (IsRest-tail n k h).0)),
            lookup-full cs n' k',
          )
          (elim (Bool-cases (n == n')) [
            | inr other ↦ rw other refl
            | inl same ↦
                let e : n ≡ n' = (==_iff n n').0 same in
                rw (same, lookup_child-child cs n' k')
                  (subst (λ (y : ℕ). lookup c k' ≡ erased k (lookup (child cs y) k') k') e
                    (ih k'
                      (subst (λ (y : ℕ). IsRest (ended y) k') (sym e) (IsRest-tail n' k' h').1)))
          ])

mutual
  unfolding removed child

  removed-IsErased :
      (t : Tree) (e : Bool) (k : List ℕ) → IsWf e t → IsRest e k → IsErased e t k (removed t k)
  removed-IsErased empty e k wf h = lookup-empty k
  removed-IsErased (value v) true k wf h = λ k' h'. rw (h, h', lookup-empty []) refl
  removed-IsErased (value v) false k wf h = elim wf [ ]
  removed-IsErased (short sk c) true k wf h = elim wf [ ]
  removed-IsErased (short sk c) false k wf h =
      remove_short-IsErased sk c k wf h (λ e r w g. removed-IsErased c e r w g)
  removed-IsErased (full cs) true k wf h = elim wf [ ]
  removed-IsErased (full cs) false [] wf h = elim h [ ]
  removed-IsErased (full cs) false (n ∷ k) wf h =
      full-IsErased cs n k (removed_child cs n k) wf h
        (removed_child-IsErased cs 0 n k n wf (omega arith) (IsRest-tail n k h).1)

  removed_child-IsErased :
      (ts : Trees) (i n : ℕ) (k : List ℕ) (x : ℕ)
      → AreWf i ts
      → x ≡ i + n
      → IsRest (ended x) k
      → IsErased (ended x) (child ts n) k (removed_child ts n k)
  removed_child-IsErased nil i n k x wf e h = lookup-empty k
  removed_child-IsErased (cons t ts) i zero k x wf e h =
      removed-IsErased t (ended x) k (subst (λ y. IsWf (ended y) t) (sym (e ∙ omega arith)) wf.0) h
  removed_child-IsErased (cons t ts) i (suc n) k x wf e h =
      removed_child-IsErased ts (suc i) n k x wf.1 (omega arith) h

-- After a removal a lookup of any key of the right form returns nothing at the key removed, and what
-- it returned before at every other key.
pub lookup-remove :
    (t : Tree) (k k' : List ℕ)
    → IsWf false t
    → IsPath true k
    → IsPath true k'
    → lookup (remove t k) k' ≡ (if bytes_eq k k' then none else lookup t k')
unfolding remove
lookup-remove t k k' wf h h' = go (removed t k) (removed-IsErased t false k wf h)
  where
    go :
        (o : Option Tree)
        → IsErased false t k o
        → lookup (elim o [ none ↦ t | some t' ↦ t' ]) k'
          ≡ (if bytes_eq k k' then none else lookup t k')
    go none e = elim (Bool-cases (bytes_eq k k')) [
      | inl same ↦ rw same (ap (lookup t) (sym (bytes_eq→eq k k' same)) ∙ e)
      | inr other ↦ rw other refl
    ]
    go (some t') e = e k' h'
