-- ===== src/Trie/Represents/Delete.antt =====
-- `delete_internal` follows `removed` on trees.
use rust_eth_triedb.Common.{
  ℕ, zero, suc, ◌≤◌, List, [], ◌∷◌, ◌++◌, Bool, true, false, ◌≡◌, refl, ap, arith, length, some,
  none, Option, Result, ok, if◌then◌else◌, ==_refl, ==-false, lt→ltb, le→ltb-false, Bool-cases, inl,
  inr, length-append, append-nil, drop-length_append, take-length_append,
}
use mathlib.Core.Path.{subst}
use mathlib.Core.Option
use rust_eth_triedb.Encoding.{common_prefix_length}
use rust_eth_triedb.TrieTracer.{TrieTracer, on_read, on_delete}
use rust_eth_triedb.Node.{Node, Nodes, NodeFlag, new_flag, set_child}
use rust_eth_triedb.Trie.Monad.{Fault, ◌>>=◌, M, pure, bind, expect}
use rust_eth_triedb.Trie.Resolve.{TrieEnv}
use rust_eth_triedb.Trie.Ops.{is_empty_node, collapse, merge_short, delete_short, delete_internal}
use rust_eth_triedb.Trie.Tree.{Tree, Trees, child, fork}
use rust_eth_triedb.Trie.Tree.Keys.{
  IsPath, IsRest, ended, View, is_within, is_apart, is_exhausted, view, key-not_inside,
  IsRest-behind, IsRest-tail,
}
use rust_eth_triedb.Trie.Tree.Shape.{IsWf, AreWf}
use rust_eth_triedb.Trie.Tree.InsertWf.{set-AreWf}
use rust_eth_triedb.Trie.Tree.Remove.{
  is_empty_tree, merge, refill, remove_short, removed, removed_child,
}
use rust_eth_triedb.Trie.Tree.Remove.Wf.{IsSomeWf, removed-IsWf}
use rust_eth_triedb.Trie.Represents.Defs.{Represents, RepresentAll, empty, value, short, full, hash}
use rust_eth_triedb.Trie.Represents.Children.{
  need, need-bounds, need-inner, child-IsWf, get_child-Represents, set_child-Represents,
  AreWf-IsWide,
}
use rust_eth_triedb.Trie.Represents.Read.{resolve_and_track-Represents, shorter}
use rust_eth_triedb.Trie.Represents.Split.{common_prefix_length-prefix, common_prefix_length-apart}
use rust_eth_triedb.Trie.Represents.Collapse.{
  Modified, is_empty_node-tree, collapse-Modified, merge_short-Modified,
}

-- A result that follows a removal: unmodified if there was no place, and else with the tree left.
abbrev pub Deletes :
    TrieEnv → List ℕ → Tree → Option Tree → Result Fault (Bool × Node) × TrieTracer → Type 0
Deletes env p t none res =
    (n : Node) × (tr : TrieTracer) × (res ≡ (ok (false, n), tr)) × Represents env p n t
Deletes env p t (some t') res = Modified env p t' res

removed_child-child :
    (ts : Trees) (n : ℕ) (k : List ℕ) → removed_child ts n k ≡ removed (child ts n) k
unfolding removed child
removed_child-child Trees.nil n k = refl
removed_child-child (Trees.cons t ts) zero k = refl
removed_child-child (Trees.cons t ts) (suc n) k = removed_child-child ts n k

module _ (env : TrieEnv) (p : List ℕ) where
  short-Deletes :
      (sk : List ℕ) (c : Node) (flags : NodeFlag) (t : Tree) (o : Option Tree)
      (res : Result Fault (Bool × Node) × TrieTracer)
      → Represents env (p ++ sk) c t
      → Deletes env (p ++ sk) t o res
      → Deletes env p (Tree.short sk t) (Option.map (merge sk) o) (
          bind res (λ (dirty, new_child).
            if dirty then merge_short p sk new_child else pure (false, Node.short sk c flags)))
  short-Deletes sk c flags t none res rep (n, tr, e, rep') =
      (Node.short sk c flags, tr, rw e, short rep)
  short-Deletes sk c flags t (some t') res rep (n, tr, e, rep', plain) =
      let (n', tr', e', rep'', plain') = merge_short-Modified env p sk tr rep' plain in
      (n', tr', rw (e, e'), rep'', plain')

  full-Deletes :
      (i : ℕ) (cs : Nodes) (flags : NodeFlag) (ts : Trees) (o : Option Tree)
      (res : Result Fault (Bool × Node) × TrieTracer)
      → RepresentAll env p 0 cs ts
      → AreWf 0 ts
      → i ≤ 16
      → IsSomeWf (ended i) o
      → Deletes env (p ++ (i ∷ [])) (child ts i) o res
      → Deletes env p (Tree.full ts) (Option.map (refill ts i) o) (
          bind res (λ (dirty, new_child).
            if dirty
            then (expect (set_child cs i new_child) >>= λ cs'.
                if is_empty_node new_child
                then collapse env p cs'
                else pure (true, Node.full cs' new_flag))
            else pure (false, Node.full cs flags)))
  unfolding refill
  full-Deletes i cs flags ts none res all wf l some_wf (n, tr, e, rep) =
      (Node.full cs flags, tr, rw e, full all)
  full-Deletes i cs flags ts (some t') res all wf l some_wf (n, tr, e, rep, plain) =
      let (cs', done, all') =
        set_child-Represents all i i n t' (AreWf-IsWide ts 0 wf) (omega arith) l rep in
      elim (Bool-cases (is_empty_tree t')) [
        | inr kept ↦ (
          Node.full cs' new_flag,
          tr,
          rw (e, done, is_empty_node-tree env rep, kept),
          rw kept (full all'),
          tt,
        )
        | inl gone ↦
            let (n', tr', e', rep', plain') =
              collapse-Modified env p tr all' (set-AreWf ts 0 i t' i wf (omega arith) some_wf) in
            (n', tr', rw (e, done, is_empty_node-tree env rep, gone, e'), rw gone rep', plain')
      ]

-- The three ways in which the key and the short node relate.
module _ (env : TrieEnv) (del : Node → List ℕ → List ℕ → M (Bool × Node)) where
  delete_short-Deletes :
      (p sk : List ℕ) (c : Node) (flags : NodeFlag) (t : Tree) (key : List ℕ) (tr : TrieTracer)
      → Represents env (p ++ sk) c t
      → IsWf false (Tree.short sk t)
      → IsPath true key
      → ((e : Bool) (r : List ℕ)
          → IsWf e t
          → IsRest e r
          → key ≡ sk ++ r
          → Deletes env (p ++ sk) t (removed t r) (del c (p ++ sk) r tr))
      → Deletes env p
          (Tree.short sk t)
          (remove_short sk (removed t) (fork key sk))
          (delete_short del p sk c flags key tr)
  unfolding delete_short remove_short
  delete_short-Deletes p sk c flags t key tr rep (e, ne, path, wf) h inside = go (view key sk)
    where
      go :
          View key sk
          → Deletes env p
              (Tree.short sk t)
              (remove_short sk (removed t) (fork key sk))
              (delete_short del p sk c flags key tr)
      go (is_within [] f k) =
          let all : common_prefix_length (sk ++ []) sk ≡ length sk =
            common_prefix_length-prefix sk [] in
          rw
            (
              f,
              k,
              all,
              le→ltb-false (length sk) (length sk) (omega arith),
              ap length (append-nil sk),
              ==_refl (length sk),
            )
            (Node.empty, on_delete p tr, refl, empty, tt)
      go (is_within (x ∷ r) f k) =
          rw
            (
              f,
              k,
              common_prefix_length-prefix sk (x ∷ r),
              le→ltb-false (length sk) (length sk) (omega arith),
              ==-false (length sk) (length (sk ++ (x ∷ r)))
                  (omega (arith, length-append sk (x ∷ r))),
              take-length_append sk (x ∷ r),
              drop-length_append sk (x ∷ r),
            )
            (short-Deletes env p sk c flags t (removed t (x ∷ r)) (del c (p ++ sk) (x ∷ r) tr) rep
              (inside e (x ∷ r) wf (IsRest-behind e sk (x ∷ r) path (subst (IsPath true) k h)) k))
      go (is_apart q a s b r f k k' n) =
          rw
            (
              f,
              k,
              k',
              common_prefix_length-apart q a s b r n,
              lt→ltb (length q) (length (q ++ (a ∷ s))) (omega (arith, length-append q (a ∷ s))),
            )
            (
              Node.short (q ++ (a ∷ s)) c flags,
              tr,
              refl,
              short (subst (λ x. Represents env (p ++ x) c t) k rep),
            )
      go (is_exhausted x t' f k) = absurd (key-not_inside e key x t' h (subst (IsPath e) k path))

removed-short_eq :
    (sk : List ℕ) (t : Tree) (k : List ℕ)
    → removed (Tree.short sk t) k ≡ remove_short sk (removed t) (fork k sk)
unfolding removed
removed-short_eq sk t k = refl

removed-full_eq :
    (ts : Trees) (n : ℕ) (k : List ℕ)
    → removed (Tree.full ts) (n ∷ k) ≡ Option.map (refill ts n) (removed_child ts n k)
unfolding removed
removed-full_eq ts n k = refl

removed-leaf :
    (v k : List ℕ) → (removed Tree.empty k ≡ none) × (removed (Tree.value v) k ≡ some Tree.empty)
unfolding removed
removed-leaf v k = (refl, refl)

resolved-Deletes :
    (env : TrieEnv) (p : List ℕ) (n : Node) (t : Tree) (o : Option Tree)
    (res : Result Fault (Bool × Node) × TrieTracer)
    → Represents env p n t
    → Deletes env p t o res
    → Deletes env p t o
        (bind res (λ (dirty, new_node). if dirty then pure (true, new_node) else pure (false, n)))
resolved-Deletes env p n t none res rep (n', tr, e, rep') = (n, tr, rw e, rep)
resolved-Deletes env p n t (some t') res rep (n', tr, e, rep', plain) = (n', tr, rw e, rep', plain)

-- With two calls for each nibble left, `delete_internal` succeeds: it reports no modification where
-- the tree has no place for the key, and else its node stands for the tree that is left.
pub delete_internal-Deletes :
    (fuel : ℕ) (env : TrieEnv) {p : List ℕ} {node : Node} {t : Tree}
    → Represents env p node t
    → (e : Bool) (rest : List ℕ) → IsWf e t
    → IsRest e rest
    → need node rest ≤ fuel
    → (tr : TrieTracer) → Deletes env p t (removed t rest) (delete_internal fuel env node p rest tr)
unfolding delete_internal
delete_internal-Deletes zero env {node} rep e rest wf h m tr =
    absurd (omega (arith, need-bounds node rest))
delete_internal-Deletes (suc f) env empty e rest wf h m tr =
    rw ((removed-leaf [] rest).0) (Node.empty, tr, refl, empty)
delete_internal-Deletes (suc f) env (value v) e rest wf h m tr =
    rw ((removed-leaf v rest).1) (Node.empty, tr, refl, empty, tt)
delete_internal-Deletes (suc f) env (short rep) true rest wf h m tr = elim wf [ ]
delete_internal-Deletes (suc f) env {p} (short {key = sk} {c} {t} {flags} rep) false rest wf h m
      tr =
    rw (removed-short_eq sk t rest) (
      delete_short-Deletes env (delete_internal f env) p sk c flags t rest tr rep wf h
        (λ e r wf' h' split.
          delete_internal-Deletes f env rep e r wf' h'
            (omega (arith, need-bounds c r, shorter sk r rest wf.1 split)) tr))
delete_internal-Deletes (suc f) env (full all) true rest wf h m tr = elim wf [ ]
delete_internal-Deletes (suc f) env (full all) false [] wf h m tr = elim h [ ]
delete_internal-Deletes (suc f) env {p} (full {cs} {ts} {flags} all) false (k ∷ ks) wf h m tr =
    let (small, h') = IsRest-tail k ks h in
    let (c, found, rep) = get_child-Represents all k k wf (omega arith) small in
    let wf' = child-IsWf ts 0 k k wf (omega arith) in
    rw (found, removed-full_eq ts k ks, removed_child-child ts k ks)
      (full-Deletes env p k cs flags ts (removed (child ts k) ks)
        (delete_internal f env c (p ++ (k ∷ [])) ks tr) all wf small
        (removed-IsWf (child ts k) (ended k) ks wf' h')
        (delete_internal-Deletes f env rep (ended k) ks wf' h' (omega (arith, need-bounds c ks))
          tr))
delete_internal-Deletes (suc f) env {p} (hash {h} {n} {t} blob fetched decoded inner rep) e rest wf
      g m tr =
    rw (resolve_and_track-Represents env p h blob n tr fetched decoded) (
      resolved-Deletes env p n t (removed t rest)
        (delete_internal f env n p rest (on_read p blob tr)) rep
        (delete_internal-Deletes f env rep e rest wf g (omega (arith, need-inner n rest inner))
          (on_read p blob tr)))
