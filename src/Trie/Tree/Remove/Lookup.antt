-- ===== src/Trie/Tree/Remove/Lookup.antt =====
-- What is read after a removal.
use rust_eth_triedb.Common.{
  ℕ, zero, suc, ◌+◌, ◌<◌, List, [], ◌∷◌, ◌++◌, Bool, true, false, ◌≡◌, ◌≢◌, refl, sym, ap, arith,
  ◌==◌, ==_iff, if◌then◌else◌, length, drop, Bool-cases, inl, inr, bytes_eq, Option, none, some,
}
use rust_eth_triedb.Trie.Ops.{starts_with, Occupied, none_yet, one, several}
use rust_eth_triedb.Trie.Tree.{
  Tree, Trees, empty, full, short, value, nil, cons, lookup, lookup_child, child,
}
use rust_eth_triedb.Trie.Tree.Keys.{IsRest}
use rust_eth_triedb.Trie.Tree.Shape.{size_of, lookup-full}
use rust_eth_triedb.Trie.Tree.Remove.{is_empty_tree, scan_trees, merge, collapse_to, collapse}

abbrev pub erased : List ℕ → Option (List ℕ) → List ℕ → Option (List ℕ)
erased k old k' = if bytes_eq k k' then none else old

-- What a lookup makes of a removal at a place.
abbrev pub IsErased : Bool → Tree → List ℕ → Option Tree → Type 0
IsErased e t k none = lookup t k ≡ none
IsErased e t k (some t') = (k' : List ℕ) → IsRest e k' → lookup t' k' ≡ erased k (lookup t k') k'

pub lookup-empty : (k : List ℕ) → lookup empty k ≡ none
unfolding lookup
lookup-empty k = refl

pub lookup-short :
    (sk : List ℕ) (c : Tree) (k : List ℕ)
    → lookup (short sk c) k ≡ (if starts_with k sk then lookup c (drop (length sk) k) else none)
unfolding lookup
lookup-short sk c k = refl

starts_with-drop :
    (k q s : List ℕ)
    → starts_with k (q ++ s)
      ≡ (if starts_with k q then starts_with (drop (length q) k) s else false)
unfolding starts_with
starts_with-drop k [] s = refl
starts_with-drop [] (y ∷ q) s = refl
starts_with-drop (x ∷ k) (y ∷ q) s = ground (arith, starts_with-drop k q s)

drop-drop-length : (k q s : List ℕ) → drop (length (q ++ s)) k ≡ drop (length s) (drop (length q) k)
drop-drop-length k [] s = refl
drop-drop-length [] (y ∷ q) s = sym (drop_nil (length s))
  where
    drop_nil : (n : ℕ) → ◌≡◌ {A = List ℕ} (drop n []) []
    drop_nil zero = refl
    drop_nil (suc n) = refl
drop-drop-length (x ∷ k) (y ∷ q) s = drop-drop-length k q s

-- A merged node reads as the short node that it stands for.
pub lookup-merge :
    (sk : List ℕ) (t : Tree) (k : List ℕ) → lookup (merge sk t) k ≡ lookup (short sk t) k
lookup-merge sk empty k = refl
lookup-merge sk (full cs) k = refl
lookup-merge sk (value v) k = refl
lookup-merge sk (short ck cc) k =
    rw
      (
        lookup-short (sk ++ ck) cc k,
        lookup-short sk (short ck cc) k,
        lookup-short ck cc (drop (length sk) k),
        starts_with-drop k sk ck,
        drop-drop-length k sk ck,
      )
      (ground arith)

-- The scan finds one position only if every other tree is empty.
abbrev AllOthers : Trees → ℕ → ℕ → Type 0
AllOthers ts i pos = (n : ℕ) (k : List ℕ) → i + n ≢ pos → lookup_child ts n k ≡ none

is_empty_tree→eq : (t : Tree) → is_empty_tree t ≡ true → t ≡ empty
is_empty_tree→eq empty h = refl
is_empty_tree→eq (full cs) h = cc
is_empty_tree→eq (short sk c) h = cc
is_empty_tree→eq (value v) h = cc

scan_several : (ts : Trees) (i : ℕ) → scan_trees ts i several ≡ several
unfolding scan_trees
scan_several nil i = refl
scan_several (cons t ts) i = elim (Bool-cases (is_empty_tree t)) [
  | inl e ↦ rw (e, scan_trees) (scan_several ts (suc i))
  | inr e ↦ rw (e, scan_trees)
]

scan_one :
    (ts : Trees) (i j pos : ℕ)
    → scan_trees ts i (one j) ≡ one pos
    → (j ≡ pos) × ((n : ℕ) (k : List ℕ) → lookup_child ts n k ≡ none)
unfolding scan_trees lookup
scan_one nil i j pos h = (ground (arith, h), λ n k. refl)
scan_one (cons t ts) i j pos h = elim (Bool-cases (is_empty_tree t)) [
  | inl e ↦
      let (same, rest) = scan_one ts (suc i) j pos (rw (e, scan_trees) at h) in
      (same, λ n k. at_all rest n k (is_empty_tree→eq t e))
  | inr e ↦
      let wrong : ◌≡◌ {A = Occupied} several (one pos) = rw (e, scan_trees) at h in absurd (cc)
]
  where
    at_all :
        ((n : ℕ) (k : List ℕ) → lookup_child ts n k ≡ none)
        → (n : ℕ) (k : List ℕ) → t ≡ empty
        → lookup_child (cons t ts) n k ≡ none
    at_all rest zero k e = rw e
    at_all rest (suc n) k e = rest n k

-- The position found is that of a tree that is not empty, inside the range, and all others are empty.
pub scan_none_yet :
    (ts : Trees) (i pos : ℕ)
    → scan_trees ts i none_yet ≡ one pos
    → (m : ℕ) × (pos ≡ i + m)
      × (m < size_of ts)
      × ((n : ℕ) (k : List ℕ) → n ≢ m → lookup_child ts n k ≡ none)
unfolding scan_trees lookup size_of
scan_none_yet nil i pos h = cc
scan_none_yet (cons t ts) i pos h = elim (Bool-cases (is_empty_tree t)) [
  | inl e ↦
      let (m, at_m, small, rest) = scan_none_yet ts (suc i) pos (rw (e, scan_trees) at h) in
      (
        suc m,
        omega arith,
        omega arith,
        λ n k ne. others_behind m rest n k ne (is_empty_tree→eq t e),
      )
  | inr e ↦
      let (same, rest) = scan_one ts (suc i) i pos (rw (e, scan_trees) at h) in
      (0, omega arith, omega arith, λ n k ne. others rest n k ne)
]
  where
    others_behind :
        (m : ℕ)
        → ((n : ℕ) (k : List ℕ) → n ≢ m → lookup_child ts n k ≡ none)
        → (n : ℕ) (k : List ℕ) → n ≢ suc m
        → t ≡ empty
        → lookup_child (cons t ts) n k ≡ none
    others_behind m rest zero k ne e = rw e
    others_behind m rest (suc n) k ne e = rest n k (λ p. ne (ap suc p))

    others :
        ((n : ℕ) (k : List ℕ) → lookup_child ts n k ≡ none)
        → (n : ℕ) (k : List ℕ) → n ≢ 0
        → lookup_child (cons t ts) n k ≡ none
    others rest zero k ne = absurd (ne refl)
    others rest (suc n) k ne = rest n k

pub lookup_child-child :
    (ts : Trees) (n : ℕ) (k : List ℕ) → lookup_child ts n k ≡ lookup (child ts n) k
unfolding lookup child
lookup_child-child nil n k = refl
lookup_child-child (cons t ts) zero k = refl
lookup_child-child (cons t ts) (suc n) k = lookup_child-child ts n k

lookup-one :
    (x : ℕ) (t : Tree) (n : ℕ) (k : List ℕ)
    → lookup (merge (x ∷ []) t) (n ∷ k) ≡ (if n == x then lookup t k else none)
unfolding starts_with
lookup-one x t n k =
    rw (lookup-merge (x ∷ []) t (n ∷ k), lookup-short (x ∷ []) t (n ∷ k), starts_with)
      (ground arith)

pub lookup-collapse :
    (cs : Trees) (n : ℕ) (k : List ℕ) → lookup (collapse cs) (n ∷ k) ≡ lookup_child cs n k
unfolding collapse
lookup-collapse cs n k = go (scan_trees cs 0 none_yet) refl
  where
    go :
        (found : Occupied)
        → scan_trees cs 0 none_yet ≡ found
        → lookup (collapse_to cs found) (n ∷ k) ≡ lookup_child cs n k
    go none_yet e = lookup-full cs n k
    go several e = lookup-full cs n k
    go (one pos) e =
        let (m, same, small, rest) = scan_none_yet cs 0 pos e in
        rw (lookup-one pos (child cs pos) n k) (elim (Bool-cases (n == pos)) [
          | inl h ↦ rw (h, lookup_child-child cs n k, (==_iff n pos).0 h) refl
          | inr h ↦ rw h (sym (rest n k (λ p. ground arith)))
        ])
