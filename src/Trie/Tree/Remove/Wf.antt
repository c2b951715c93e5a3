-- ===== src/Trie/Tree/Remove/Wf.antt =====
-- A removal keeps a tree well-formed.
use rust_eth_triedb.Common.{
  ℕ, zero, suc, ◌+◌, ◌≤◌, List, [], ◌∷◌, ◌++◌, Bool, true, false, ◌≡◌, ◌≢◌, refl, sym, ◌∙◌, arith,
  ◌==◌, Bool-cases, inl, inr, Option, none, some,
}
use mathlib.Core.Path.{subst}
use mathlib.Core.Option
use rust_eth_triedb.Trie.Ops.{Occupied, none_yet, one, several}
use rust_eth_triedb.Trie.Tree.{Tree, Trees, empty, full, short, value, nil, cons, child, set, fork}
use rust_eth_triedb.Trie.Tree.Keys.{
  IsPath, IsRest, ended, View, is_within, is_apart, is_exhausted, view, IsRest-behind, IsRest-tail,
}
use rust_eth_triedb.Trie.Tree.Shape.{IsWf, AreWf}
use rust_eth_triedb.Trie.Tree.InsertWf.{set-AreWf}
use rust_eth_triedb.Trie.Tree.Remove.{
  is_empty_tree, scan_trees, merge, collapse_to, collapse, refill, remove_short, removed,
  removed_child, remove,
}
use rust_eth_triedb.Trie.Tree.Remove.Lookup.{scan_none_yet}
use rust_eth_triedb.Trie.Tree.Remove.Erased.{size_of-wide}

-- What a removal leaves, if it finds its place.
abbrev pub IsSomeWf : Bool → Option Tree → Type 0
IsSomeWf e none = Unit {0}
IsSomeWf e (some t) = IsWf e t

IsPath-append :
    (sk ck : List ℕ) (e : Bool) → IsPath false sk → ck ≢ [] → IsPath e ck → IsPath e (sk ++ ck)
IsPath-append [] ck e p ne q = q
IsPath-append (x ∷ sk) ck false p ne q = (p.0, IsPath-append sk ck false p.1 ne q)
IsPath-append (x ∷ []) [] true p ne q = absurd (ne refl)
IsPath-append (x ∷ []) (y ∷ ck) true p ne q = (p.0, q)
IsPath-append (x ∷ z ∷ sk) ck true p ne q = (p.0, IsPath-append (z ∷ sk) ck true p.1 ne q)

append-ne-nil : (sk ck : List ℕ) → sk ≢ [] → (sk ++ ck) ≢ []
append-ne-nil [] ck ne = absurd (ne refl)
append-ne-nil (x ∷ sk) ck ne = λ e. cc

pub merge-IsWf :
    (sk : List ℕ) (t : Tree) (e : Bool) → sk ≢ [] → IsPath e sk → IsWf e t → IsWf false (merge sk t)
merge-IsWf sk empty e ne path wf = (e, ne, path, wf)
merge-IsWf sk (full cs) e ne path wf = (e, ne, path, wf)
merge-IsWf sk (value v) e ne path wf = (e, ne, path, wf)
merge-IsWf sk (short ck cc_) true ne path wf = elim wf [ ]
merge-IsWf sk (short ck cc_) false ne path (e, ne', path', wf) =
    (e, append-ne-nil sk ck ne, IsPath-append sk ck e path ne' path', wf)

child-IsWf : (ts : Trees) (i n x : ℕ) → AreWf i ts → x ≡ i + n → IsWf (ended x) (child ts n)
unfolding child
child-IsWf nil i n x wf e = tt
child-IsWf (cons t ts) i zero x wf e = subst (λ y. IsWf (ended y) t) (sym (e ∙ omega arith)) wf.0
child-IsWf (cons t ts) i (suc n) x wf e = child-IsWf ts (suc i) n x wf.1 (omega arith)

one-IsPath : (x : ℕ) → x ≤ 16 → IsPath (ended x) (x ∷ [])
one-IsPath x h = elim (Bool-cases (x == 16)) [
  | inl e ↦ rw e (ground arith)
  | inr e ↦ rw e (ground arith, tt)
]

pub collapse-IsWf : (cs : Trees) → AreWf 0 cs → IsWf false (collapse cs)
unfolding collapse
collapse-IsWf cs wf = go (scan_trees cs 0 none_yet) refl
  where
    go : (found : Occupied) → scan_trees cs 0 none_yet ≡ found → IsWf false (collapse_to cs found)
    go none_yet e = wf
    go several e = wf
    go (one pos) e =
        let (m, same, small, rest) = scan_none_yet cs 0 pos e in
        merge-IsWf (pos ∷ []) (child cs pos) (ended pos) (λ p. cc)
          (one-IsPath pos (omega (arith, size_of-wide cs 0 wf)))
          (child-IsWf cs 0 pos pos wf (omega arith))

refill-IsWf :
    (cs : Trees) (n : ℕ) (c : Tree)
    → AreWf 0 cs
    → n ≤ 16
    → IsWf (ended n) c
    → IsWf false (refill cs n c)
unfolding refill
refill-IsWf cs n c wf l h =
    let wf' = set-AreWf cs 0 n c n wf (omega arith) h in
    elim (Bool-cases (is_empty_tree c)) [
      | inl e ↦ rw e (collapse-IsWf (set cs n c) wf')
      | inr e ↦ rw e wf'
    ]

remove_short-IsWf :
    (sk : List ℕ) (c : Tree) (k : List ℕ)
    → IsWf false (short sk c)
    → IsPath true k
    → ((e : Bool) (r : List ℕ) → IsWf e c → IsRest e r → IsSomeWf e (removed c r))
    → IsSomeWf false (remove_short sk (removed c) (fork k sk))
unfolding remove_short
remove_short-IsWf sk c k (e, ne, path, wf) h ih = go (view k sk)
  where
    merged : (o : Option Tree) → IsSomeWf e o → IsSomeWf false (Option.map (merge sk) o)
    merged none w = tt
    merged (some t) w = merge-IsWf sk t e ne path w

    go : View k sk → IsSomeWf false (remove_short sk (removed c) (fork k sk))
    go (is_within [] f p) = rw f tt
    go (is_within (x ∷ r) f p) = rw f (
        merged (removed c (x ∷ r))
          (ih e (x ∷ r) wf (IsRest-behind e sk (x ∷ r) path (subst (IsPath true) p h))))
    go (is_apart q a s b r f p p' n) = rw f tt
    go (is_exhausted x t f p) = rw f tt

full-IsWf :
    (cs : Trees) (n : ℕ) (o : Option Tree)
    → AreWf 0 cs
    → n ≤ 16
    → IsSomeWf (ended n) o
    → IsSomeWf false (Option.map (refill cs n) o)
full-IsWf cs n none wf l h = tt
full-IsWf cs n (some c) wf l h = refill-IsWf cs n c wf l h

mutual
  unfolding removed

  pub removed-IsWf :
      (t : Tree) (e : Bool) (k : List ℕ) → IsWf e t → IsRest e k → IsSomeWf e (removed t k)
  removed-IsWf empty e k wf h = tt
  removed-IsWf (value v) e k wf h = tt
  removed-IsWf (short sk c) true k wf h = elim wf [ ]
  removed-IsWf (short sk c) false k wf h =
      remove_short-IsWf sk c k wf h (λ e r w g. removed-IsWf c e r w g)
  removed-IsWf (full cs) true k wf h = elim wf [ ]
  removed-IsWf (full cs) false [] wf h = elim h [ ]
  removed-IsWf (full cs) false (n ∷ k) wf h =
      full-IsWf cs n (removed_child cs n k) wf (IsRest-tail n k h).0
        (removed_child-IsWf cs 0 n k n wf (omega arith) (IsRest-tail n k h).1)

  removed_child-IsWf :
      (ts : Trees) (i n : ℕ) (k : List ℕ) (x : ℕ)
      → AreWf i ts
      → x ≡ i + n
      → IsRest (ended x) k
      → IsSomeWf (ended x) (removed_child ts n k)
  removed_child-IsWf nil i n k x wf e h = tt
  removed_child-IsWf (cons t ts) i zero k x wf e h =
      removed-IsWf t (ended x) k (subst (λ y. IsWf (ended y) t) (sym (e ∙ omega arith)) wf.0) h
  removed_child-IsWf (cons t ts) i (suc n) k x wf e h =
      removed_child-IsWf ts (suc i) n k x wf.1 (omega arith) h

pub remove-IsWf : (t : Tree) (k : List ℕ) → IsWf false t → IsPath true k → IsWf false (remove t k)
unfolding remove
remove-IsWf t k wf h = go (removed t k) (removed-IsWf t false k wf h)
  where
    go : (o : Option Tree) → IsSomeWf false o → IsWf false (elim o [ none ↦ t | some t' ↦ t' ])
    go none w = wf
    go (some t') w = w
