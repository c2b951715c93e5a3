-- ===== src/Trie/Represents/Collapse.antt =====
-- The arms of `delete_internal` that join nodes, against the tree.
use rust_eth_triedb.Common.{
  ℕ, ◌≤◌, List, [], ◌∷◌, ◌++◌, Bool, true, false, ◌≡◌, refl, sym, arith, Result, ok, append_assoc,
  ◌==◌, Bool-cases, inl, inr,
}
use mathlib.Core.Path.{subst}
use rust_eth_triedb.TrieTracer.{TrieTracer, on_read, on_delete}
use rust_eth_triedb.Node.{Node, Nodes, new_flag}
use rust_eth_triedb.Trie.Monad.{Fault, bind}
use rust_eth_triedb.Trie.Resolve.{TrieEnv, resolve}
use rust_eth_triedb.Trie.Ops.{
  is_empty_node, Occupied, none_yet, one, several, scan_children, take_over, collapse_to, collapse,
  merge_short,
}
use rust_eth_triedb.Trie.Tree.{Tree, Trees, child}
use rust_eth_triedb.Trie.Tree.Shape.{IsWf, AreWf}
use rust_eth_triedb.Trie.Tree.Remove as Spec
use rust_eth_triedb.Trie.Tree.Remove.{is_empty_tree, scan_trees, merge}
use rust_eth_triedb.Trie.Tree.Remove.Lookup.{scan_none_yet}
use rust_eth_triedb.Trie.Tree.Remove.Erased.{size_of-wide}
use rust_eth_triedb.Trie.Represents.Defs.{
  Represents, RepresentAll, IsInner, empty, value, short, full, hash, nil, cons,
}
use rust_eth_triedb.Trie.Represents.Children.{child-IsWf, get_child-Represents, inner_not_ended}
use rust_eth_triedb.Trie.Represents.Read.{resolve_and_track-Represents}

-- A node that is not a hash, as every operation returns that modifies it.
abbrev pub IsPlain : Node → Type 0
IsPlain (Node.hash h) = ⊥
IsPlain _ = Unit {0}

-- A result that reports a modification, and whose node stands for `t'`.
abbrev pub Modified : TrieEnv → List ℕ → Tree → Result Fault (Bool × Node) × TrieTracer → Type 0
Modified env p t' res =
    (n : Node) × (tr : TrieTracer) × (res ≡ (ok (true, n), tr)) × Represents env p n t' × IsPlain n

inner_not_empty :
    (env : TrieEnv) {p : List ℕ} {n : Node} {t : Tree}
    → IsInner n
    → Represents env p n t
    → is_empty_tree t ≡ false
inner_not_empty env i empty = elim i [ ]
inner_not_empty env i (value v) = elim i [ ]
inner_not_empty env i (short rep) = refl
inner_not_empty env i (full all) = refl
inner_not_empty env i (hash blob f d inner rep) = elim i [ ]

pub is_empty_node-tree :
    (env : TrieEnv) {p : List ℕ} {n : Node} {t : Tree}
    → Represents env p n t
    → is_empty_node n ≡ is_empty_tree t
is_empty_node-tree env empty = refl
is_empty_node-tree env (value v) = refl
is_empty_node-tree env (short rep) = refl
is_empty_node-tree env (full all) = refl
is_empty_node-tree env (hash blob f d inner rep) = sym (inner_not_empty env inner rep)

-- The scan of the children finds what the scan of their trees finds.
scan_children-trees :
    (env : TrieEnv) {p : List ℕ} {i : ℕ} {cs : Nodes} {ts : Trees}
    → RepresentAll env p i cs ts
    → (o : Occupied) → scan_children cs i o ≡ scan_trees ts i o
unfolding scan_children scan_trees
scan_children-trees env nil o = refl
scan_children-trees env (cons {i} {c} {cs} {t} {ts} r rs) none_yet =
    elim (Bool-cases (is_empty_tree t)) [
      | inl e ↦
          rw (is_empty_node-tree env r, e, scan_children, scan_trees)
            (scan_children-trees env rs none_yet)
      | inr e ↦
          rw (is_empty_node-tree env r, e, scan_children, scan_trees)
            (scan_children-trees env rs (one i))
    ]
scan_children-trees env (cons {i} {c} {cs} {t} {ts} r rs) (one j) =
    elim (Bool-cases (is_empty_tree t)) [
      | inl e ↦
          rw (is_empty_node-tree env r, e, scan_children, scan_trees)
            (scan_children-trees env rs (one j))
      | inr e ↦ rw (is_empty_node-tree env r, e, scan_children, scan_trees)
    ]
scan_children-trees env (cons {i} {c} {cs} {t} {ts} r rs) several =
    elim (Bool-cases (is_empty_tree t)) [
      | inl e ↦
          rw (is_empty_node-tree env r, e, scan_children, scan_trees)
            (scan_children-trees env rs several)
      | inr e ↦ rw (is_empty_node-tree env r, e, scan_children, scan_trees)
    ]

module _ (env : TrieEnv) (p : List ℕ) where
  -- Behind the terminator no short node is left.
  ended_child-Represents :
      (pos : ℕ) {c : Node} {t : Tree}
      → Represents env (p ++ (pos ∷ [])) c t
      → IsWf true t
      → Represents env p (Node.short (pos ∷ []) c new_flag) (merge (pos ∷ []) t)
  ended_child-Represents pos empty wf = short empty
  ended_child-Represents pos (value v) wf = short (value v)
  ended_child-Represents pos (short rep) wf = elim wf [ ]
  ended_child-Represents pos (full all) wf = elim wf [ ]
  ended_child-Represents pos (hash blob f d inner rep) wf =
      absurd (inner_not_ended env inner rep wf)

  resolved_child-Modified :
      (pos : ℕ) {h : List ℕ} {n : Node} {t : Tree} (tr : TrieTracer)
      → IsInner n
      → Represents env (p ++ (pos ∷ [])) n t
      → Represents env (p ++ (pos ∷ [])) (Node.hash h) t
      → Modified env p (merge (pos ∷ []) t) (take_over p pos (Node.hash h) n tr)
  unfolding take_over
  resolved_child-Modified pos tr i empty whole = elim i [ ]
  resolved_child-Modified pos tr i (value v) whole = elim i [ ]
  resolved_child-Modified pos tr i (short {key = ck} {c} {t} rep) whole = (
    _,
    on_delete (p ++ (pos ∷ [])) tr,
    refl,
    short (subst (λ x. Represents env x c t) (append_assoc p (pos ∷ []) ck) rep),
    tt,
  )
  resolved_child-Modified pos tr i (full all) whole = (_, tr, refl, short whole, tt)
  resolved_child-Modified pos tr i (hash blob f d inner rep) whole = elim i [ ]

  -- The child that is left is looked at through its hash.
  take_over-Modified :
      (pos : ℕ) {c : Node} {t : Tree} (tr : TrieTracer)
      → Represents env (p ++ (pos ∷ [])) c t
      → Modified env p
          (merge (pos ∷ []) t)
          (bind (resolve env c (p ++ (pos ∷ [])) tr) (take_over p pos c))
  unfolding resolve take_over
  take_over-Modified pos tr empty = (_, tr, refl, short empty, tt)
  take_over-Modified pos tr (value v) = (_, tr, refl, short (value v), tt)
  take_over-Modified pos tr (short {key = ck} {c} {t} rep) = (
    _,
    on_delete (p ++ (pos ∷ [])) tr,
    refl,
    short (subst (λ x. Represents env x c t) (append_assoc p (pos ∷ []) ck) rep),
    tt,
  )
  take_over-Modified pos tr (full all) = (_, tr, refl, short (full all), tt)
  take_over-Modified pos tr (hash {h} {n} {t} blob f d inner rep) =
      rw (resolve_and_track-Represents env (p ++ (pos ∷ [])) h blob n tr f d) (
        resolved_child-Modified pos (on_read (p ++ (pos ∷ [])) blob tr) inner rep
          (hash blob f d inner rep))

  pub collapse-Modified :
      {cs : Nodes} {ts : Trees} (tr : TrieTracer)
      → RepresentAll env p 0 cs ts
      → AreWf 0 ts
      → Modified env p (Spec.collapse ts) (collapse env p cs tr)
  unfolding collapse Spec.collapse
  collapse-Modified {cs} {ts} tr all wf =
      rw (scan_children-trees env all none_yet) (go (scan_trees ts 0 none_yet) refl)
    where
      left :
          (pos : ℕ)
          → pos ≤ 16
          → Modified env p (merge (pos ∷ []) (child ts pos)) (collapse_to env p cs (one pos) tr)
      left pos l =
          let (c, found, rep) = get_child-Represents all pos pos wf (omega arith) l in
          elim (Bool-cases (pos == 16)) [
            | inl e ↦
                rw (found, e)
                  (
                    _,
                    tr,
                    refl,
                    ended_child-Represents pos rep (
                        subst (λ b. IsWf b (child ts pos)) e
                          (child-IsWf ts 0 pos pos wf (omega arith))),
                    tt,
                  )
            | inr e ↦ rw (found, e) (take_over-Modified pos tr rep)
          ]

      go :
          (o : Occupied)
          → scan_trees ts 0 none_yet ≡ o
          → Modified env p (Spec.collapse_to ts o) (collapse_to env p cs o tr)
      go none_yet e = (_, tr, refl, full all, tt)
      go several e = (_, tr, refl, full all, tt)
      go (one pos) e =
          let (m, same, small, rest) = scan_none_yet ts 0 pos e in
          left pos (omega (arith, size_of-wide ts 0 wf))

  -- A short node over a child that was modified.
  pub merge_short-Modified :
      (sk : List ℕ) {n : Node} {t : Tree} (tr : TrieTracer)
      → Represents env (p ++ sk) n t
      → IsPlain n
      → Modified env p (merge sk t) (merge_short p sk n tr)
  unfolding merge_short
  merge_short-Modified sk tr empty i = (_, tr, refl, short empty, tt)
  merge_short-Modified sk tr (value v) i = (_, tr, refl, short (value v), tt)
  merge_short-Modified sk tr (short {key = ck} {c} {t} rep) i = (
    _,
    on_delete (p ++ sk) tr,
    refl,
    short (subst (λ x. Represents env x c t) (append_assoc p sk ck) rep),
    tt,
  )
  merge_short-Modified sk tr (full all) i = (_, tr, refl, short (full all), tt)
  merge_short-Modified sk tr (hash blob f d inner rep) i = elim i [ ]
