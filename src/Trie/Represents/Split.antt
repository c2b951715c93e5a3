-- ===== src/Trie/Represents/Split.antt =====
-- The arm of `insert_internal` for short nodes against the tree.
use rust_eth_triedb.Common.{
  ℕ, suc, ◌+◌, ◌≤◌, List, [], ◌∷◌, ◌++◌, Bool, true, false, ◌≡◌, ◌≢◌, refl, ap, sym, arith, length,
  take, drop, get_elem?, some, Result, ok, drop-length_append, take-length_append, length-append,
  append_assoc, append-nil, if◌then◌else◌, ◌==◌, ==_refl, ==-false, ltb, le→ltb-false,
}
use mathlib.Core.Path.{subst}
use rust_eth_triedb.Encoding.{common_prefix_length}
use rust_eth_triedb.TrieTracer.{TrieTracer, on_insert}
use rust_eth_triedb.Node.{Node, Nodes, NodeFlag, new_flag}
use rust_eth_triedb.Trie.Monad.{Fault, ◌>>◌, M, pure, trace}
use rust_eth_triedb.Trie.Resolve.{TrieEnv}
use rust_eth_triedb.Trie.Ops.{descend_short, split_short, slice_to, slice_from}
use rust_eth_triedb.Trie.Tree.{no_children as no_trees, Tree, Trees, below, branch}
use rust_eth_triedb.Trie.Represents.Defs.{Represents, RepresentAll, short, full}
use rust_eth_triedb.Trie.Represents.Children.{
  set_child-Represents, set-IsWide, empty_nodes-Represents,
}

-- A result that stands for `t'`, which is `t` where the node is reported unmodified.
abbrev pub Writes :
    TrieEnv → List ℕ → Tree → Tree → Result Fault (Bool × Node) × TrieTracer → Type 0
Writes env p t t' res =
    (dirty : Bool) × (n : Node) × (tr : TrieTracer) × (res ≡ (ok (dirty, n), tr))
    × Represents env p n t'
    × (dirty ≡ false → t' ≡ t)

pub common_prefix_length-prefix : (sk r : List ℕ) → common_prefix_length (sk ++ r) sk ≡ length sk
unfolding common_prefix_length
common_prefix_length-prefix [] [] = refl
common_prefix_length-prefix [] (x ∷ r) = refl
common_prefix_length-prefix (x ∷ sk) r = rw (==_refl x) (ap suc (common_prefix_length-prefix sk r))

pub common_prefix_length-apart :
    (q : List ℕ) (a : ℕ) (s : List ℕ) (b : ℕ) (r : List ℕ)
    → b ≢ a
    → common_prefix_length (q ++ (b ∷ r)) (q ++ (a ∷ s)) ≡ length q
unfolding common_prefix_length
common_prefix_length-apart [] a s b r ne = rw (==-false b a ne)
common_prefix_length-apart (x ∷ q) a s b r ne =
    rw (==_refl x) (ap suc (common_prefix_length-apart q a s b r ne))

-- The slices of a list at the place behind `q` and one more element.
take-behind : (q : List ℕ) (a : ℕ) (s : List ℕ) → take (length q + 1) (q ++ (a ∷ s)) ≡ q ++ (a ∷ [])
take-behind q a s =
    rw (sym (length-append q (a ∷ [])), sym (append_assoc q (a ∷ []) s))
      (take-length_append (q ++ (a ∷ [])) s)

drop-behind : (q : List ℕ) (a : ℕ) (s : List ℕ) → drop (length q + 1) (q ++ (a ∷ s)) ≡ s
drop-behind q a s =
    rw (sym (length-append q (a ∷ [])), sym (append_assoc q (a ∷ []) s))
      (drop-length_append (q ++ (a ∷ [])) s)

long_enough : (q : List ℕ) (a : ℕ) (s : List ℕ) → ltb (length (q ++ (a ∷ s))) (length q + 1) ≡ false
long_enough q a s = le→ltb-false _ _ (omega (arith, length-append q (a ∷ s)))

slice_to-behind :
    (q : List ℕ) (a : ℕ) (s : List ℕ)
    → slice_to (length q + 1) (q ++ (a ∷ s)) ≡ some (q ++ (a ∷ []))
unfolding slice_to
slice_to-behind q a s = rw (long_enough q a s, take-behind q a s)

slice_from-behind :
    (q : List ℕ) (a : ℕ) (s : List ℕ) → slice_from (length q + 1) (q ++ (a ∷ s)) ≡ some s
unfolding slice_from
slice_from-behind q a s = rw (long_enough q a s, drop-behind q a s)

get_elem?-behind : (q : List ℕ) (a : ℕ) (s : List ℕ) → get_elem? (q ++ (a ∷ s)) (length q) ≡ some a
get_elem?-behind [] a s = refl
get_elem?-behind (x ∷ q) a s = get_elem?-behind q a s

split_node :
    (env : TrieEnv) (p q : List ℕ) (br : Nodes) (ts : Trees) (t : Tree) (tr : TrieTracer)
    → RepresentAll env (p ++ q) 0 br ts
    → Writes env p t (below q (Tree.full ts)) (
        (if length q == 0
            then pure (true, Node.full br new_flag)
            else (trace (on_insert (p ++ q))
                >> pure (true, Node.short q (Node.full br new_flag) new_flag)))
          tr)
split_node env p [] br ts t tr all = (
  true,
  Node.full br new_flag,
  tr,
  refl,
  full (subst (λ x. RepresentAll env x 0 br ts) (append-nil p) all),
  λ h. cc,
)
split_node env p (x ∷ q) br ts t tr all = rw (==-false (suc (length q)) 0 (omega arith)) (
  true,
  Node.short (x ∷ q) (Node.full br new_flag) new_flag,
  on_insert (p ++ (x ∷ q)) tr,
  refl,
  short (full all),
  λ h. cc,
)

module _ (env : TrieEnv) (insert' : Node → List ℕ → List ℕ → Node → M (Bool × Node)) where
  -- The key of the short node is a prefix of the key.
  pub descend_short-Writes :
      (p sk : List ℕ) (c : Node) (flags : NodeFlag) (t t' : Tree) (r : List ℕ) (v : Node)
      (tr : TrieTracer)
      → Represents env (p ++ sk) c t
      → Writes env (p ++ sk) t t' (insert' c (p ++ sk) r v tr)
      → Writes env p
          (Tree.short sk t)
          (Tree.short sk t')
          (descend_short insert' p sk c flags (sk ++ r) v tr)
  unfolding descend_short
  descend_short-Writes p sk c flags t t' r v tr rep (true, n, tr', e, rep', same) = (
    true,
    Node.short sk n new_flag,
    tr',
    rw (common_prefix_length-prefix sk r, take-length_append sk r, drop-length_append sk r, e),
    short rep',
    λ h. cc,
  )
  descend_short-Writes p sk c flags t t' r v tr rep (false, n, tr', e, rep', same) = (
    false,
    Node.short sk c flags,
    tr',
    rw (common_prefix_length-prefix sk r, take-length_append sk r, drop-length_append sk r, e),
    short (subst (Represents env (p ++ sk) c) (sym (same refl)) rep),
    λ h. ap (Tree.short sk) (same refl),
  )

  -- The two keys part behind `q`; the subtrees are inserted into empty nodes.
  pub split_short-Writes :
      (p q : List ℕ) (a : ℕ) (s : List ℕ) (b : ℕ) (r : List ℕ) (c v : Node) (ta tb t : Tree)
      (tr : TrieTracer)
      → b ≢ a
      → a ≤ 16
      → b ≤ 16
      → ((tr : TrieTracer)
          → Writes env
              (p ++ (q ++ (a ∷ [])))
              Tree.empty
              ta
              (insert' Node.empty (p ++ (q ++ (a ∷ []))) s c tr))
      → ((tr : TrieTracer)
          → Writes env
              (p ++ (q ++ (b ∷ [])))
              Tree.empty
              tb
              (insert' Node.empty (p ++ (q ++ (b ∷ []))) r v tr))
      → Writes env p t
          (branch q a ta b tb)
          (split_short insert' p (q ++ (a ∷ s)) c (q ++ (b ∷ r)) v tr)
  unfolding split_short branch
  split_short-Writes p q a s b r c v ta tb t tr ne ha hb old new =
      let (d1, n1, tr1, e1, rep1, same1) = old tr in
      let (d2, n2, tr2, e2, rep2, same2) = new tr1 in
      let rep1' = subst (λ x. Represents env x n1 ta) (sym (append_assoc p q (a ∷ []))) rep1 in
      let rep2' = subst (λ x. Represents env x n2 tb) (sym (append_assoc p q (b ∷ []))) rep2 in
      let (br1, set1, all1) =
        set_child-Represents (empty_nodes-Represents 17 0) a a n1 ta refl (omega arith) ha rep1' in
      let (br, set2, all2) =
        set_child-Represents all1 b b n2 tb (set-IsWide no_trees 0 a ta refl) (omega arith) hb
          rep2' in
      rw
        (
          common_prefix_length-apart q a s b r ne,
          slice_to-behind q a s,
          slice_from-behind q a s,
          e1,
          get_elem?-behind q a s,
          set1,
          slice_to-behind q b r,
          slice_from-behind q b r,
          e2,
          get_elem?-behind q b r,
          set2,
          take-length_append q (b ∷ r),
        )
        (split_node env p q br _ t tr2 all2)
