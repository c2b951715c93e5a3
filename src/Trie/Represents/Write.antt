-- ===== src/Trie/Represents/Write.antt =====
-- `insert_internal` follows `insert` on trees.
use rust_eth_triedb.Common.{
  ℕ, zero, suc, ◌≤◌, ◌<◌, List, [], ◌∷◌, ◌++◌, Bool, true, false, ◌≡◌, refl, ap, sym, ◌∙◌, arith,
  length, Bool-cases, inl, inr, length-append, append_assoc, append-nil, bytes_eq, bytes_eq→eq,
  if◌then◌else◌, ==_refl, ==-false,
}
use mathlib.Core.Path.{subst}
use rust_eth_triedb.Encoding.{common_prefix_length}
use rust_eth_triedb.TrieTracer.{TrieTracer, on_insert, on_read}
use rust_eth_triedb.Node.{Node, Nodes, NodeFlag, set_child, new_flag}
use rust_eth_triedb.Trie.Monad.{◌>>=◌, M, pure, bind, expect}
use rust_eth_triedb.Trie.Resolve.{TrieEnv}
use rust_eth_triedb.Trie.Ops.{
  insert_internal, insert_short, descend_short, split_short, replace_value,
}
use rust_eth_triedb.Trie.Tree.{
  Tree, Trees, set, child, below, branch, fork, within, apart, exhausted, insert, insert_child,
}
use rust_eth_triedb.Trie.Tree.Keys.{
  IsPath, IsRest, ended, View, is_within, is_apart, is_exhausted, view, key-not_inside,
  IsRest-behind, IsRest-tail,
}
use rust_eth_triedb.Trie.Tree.Shape.{IsWf, AreWf}
use rust_eth_triedb.Trie.Tree.Insert.{parted, insert-short_eq}
use rust_eth_triedb.Trie.Tree as Spec
use rust_eth_triedb.Trie.Represents.Defs.{Represents, RepresentAll, empty, value, short, full, hash}
use rust_eth_triedb.Trie.Represents.Children.{
  inner_not_ended, need, need-bounds, need-inner, set-child, child-IsWf, get_child-Represents,
  AreWf-IsWide, set_child-Represents,
}
use rust_eth_triedb.Trie.Represents.Read.{resolve_and_track-Represents, shorter}
use rust_eth_triedb.Trie.Represents.Split.{
  Writes, common_prefix_length-prefix, common_prefix_length-apart, descend_short-Writes,
  split_short-Writes,
}

-- A node inserted into an empty place.
insert_internal-empty :
    (f : ℕ) (env : TrieEnv) (p k : List ℕ) (c : Node) (t : Tree) (tr : TrieTracer)
    → 1 ≤ f
    → Represents env (p ++ k) c t
    → Writes env p Tree.empty (below k t) (insert_internal f env Node.empty p k c tr)
unfolding insert_internal
insert_internal-empty zero env p k c t tr h rep = absurd (omega arith)
insert_internal-empty (suc f) env p [] c t tr h rep =
    (true, c, tr, refl, subst (λ x. Represents env x c t) (append-nil p) rep, λ e. cc)
insert_internal-empty (suc f) env p (x ∷ k) c t tr h rep =
    (true, Node.short (x ∷ k) c new_flag, on_insert p tr, refl, short rep, λ e. cc)

-- At the end of the key the value replaces an empty place or another value.
replace_value-Writes :
    (env : TrieEnv) (p : List ℕ) (node : Node) (t : Tree) (v : List ℕ) (tr : TrieTracer)
    → Represents env p node t
    → IsWf true t
    → Writes env p t (insert t [] v) (pure (replace_value node (Node.value v)) tr)
unfolding replace_value insert
replace_value-Writes env p node t v tr empty wf = (true, Node.value v, tr, refl, value v, λ h. cc)
replace_value-Writes env p node t v tr (value w) wf = elim (Bool-cases (bytes_eq w v)) [
  | inl e ↦ rw e (
    false,
    Node.value w,
    tr,
    refl,
    subst (λ x. Represents env p (Node.value w) (Tree.value x)) (bytes_eq→eq w v e) (value w),
    λ h. ap Tree.value (sym (bytes_eq→eq w v e)),
  )
  | inr e ↦ rw e (true, Node.value v, tr, refl, value v, λ h. cc)
]
replace_value-Writes env p node t v tr (short rep) wf = elim wf [ ]
replace_value-Writes env p node t v tr (full all) wf = elim wf [ ]
replace_value-Writes env p node t v tr (hash blob fetched decoded inner rep) wf =
    absurd (inner_not_ended env inner rep wf)

set-insert_child :
    (ts : Trees) (n : ℕ) (k v : List ℕ) → insert_child ts n k v ≡ set ts n (insert (child ts n) k v)
unfolding insert set child
set-insert_child Trees.nil n k v = refl
set-insert_child (Trees.cons t ts) zero k v = refl
set-insert_child (Trees.cons t ts) (suc n) k v = ap (Trees.cons t) (set-insert_child ts n k v)

insert-full_eq :
    (ts : Trees) (n : ℕ) (k v : List ℕ)
    → insert (Tree.full ts) (n ∷ k) v ≡ Tree.full (insert_child ts n k v)
unfolding insert
insert-full_eq ts n k v = refl

full-Writes :
    (env : TrieEnv) (p : List ℕ) (f i : ℕ) (c : Node) (cs : Nodes) (flags : NodeFlag) (ts : Trees)
    (rest v : List ℕ) (tr : TrieTracer)
    → RepresentAll env p 0 cs ts
    → AreWf 0 ts
    → i ≤ 16
    → Writes env
        (p ++ (i ∷ []))
        (child ts i)
        (insert (child ts i) rest v)
        (insert_internal f env c (p ++ (i ∷ [])) rest (Node.value v) tr)
    → Writes env p (Tree.full ts) (Tree.full (insert_child ts i rest v)) (
        bind (insert_internal f env c (p ++ (i ∷ [])) rest (Node.value v) tr) (λ (dirty, new_child).
          if dirty
          then (expect (set_child cs i new_child) >>= λ cs'. pure (true, Node.full cs' new_flag))
          else pure (false, Node.full cs flags)))
full-Writes env p f i c cs flags ts rest v tr all wf l (true, n, tr', e, rep, same) =
    let (cs', done, all') =
      set_child-Represents all i i n _ (AreWf-IsWide ts 0 wf) (omega arith) l rep in
    (
      true,
      Node.full cs' new_flag,
      tr',
      rw (e, done),
      full (subst (RepresentAll env p 0 cs') (sym (set-insert_child ts i rest v)) all'),
      λ h. cc,
    )
full-Writes env p f i c cs flags ts rest v tr all wf l (false, n, tr', e, rep, same) =
    let kept : insert_child ts i rest v ≡ ts =
      set-insert_child ts i rest v ∙ ap (set ts i) (same refl) ∙ set-child ts i in
    (
      false,
      Node.full cs flags,
      tr',
      rw e,
      full (subst (RepresentAll env p 0 cs) (sym kept) all),
      λ h. ap Tree.full kept,
    )

module _ (env : TrieEnv) (ins : Node → List ℕ → List ℕ → Node → M (Bool × Node)) where
  insert_short-descends :
      (p sk : List ℕ) (c : Node) (flags : NodeFlag) (key : List ℕ) (v : Node)
      → common_prefix_length key sk ≡ length sk
      → insert_short ins p sk c flags key v ≡ descend_short ins p sk c flags key v
  unfolding insert_short
  insert_short-descends p sk c flags key v h = rw (h, ==_refl (length sk))

  insert_short-splits :
      (p sk : List ℕ) (c : Node) (flags : NodeFlag) (key : List ℕ) (v : Node)
      → common_prefix_length key sk < length sk
      → insert_short ins p sk c flags key v ≡ split_short ins p sk c key v
  unfolding insert_short
  insert_short-splits p sk c flags key v h =
      rw (==-false (common_prefix_length key sk) (length sk) (omega arith))

  -- The three ways in which the key and the short node relate.
  short-Writes :
      (p sk : List ℕ) (c : Node) (flags : NodeFlag) (t : Tree) (key v : List ℕ) (tr : TrieTracer)
      → Represents env (p ++ sk) c t
      → IsWf false (Tree.short sk t)
      → IsPath true key
      → ((e : Bool) (r : List ℕ)
          → IsWf e t
          → IsRest e r
          → key ≡ sk ++ r
          → Writes env (p ++ sk) t (insert t r v) (ins c (p ++ sk) r (Node.value v) tr))
      → ((p' k : List ℕ) (c' : Node) (t' : Tree) (tr : TrieTracer)
          → Represents env (p' ++ k) c' t'
          → Writes env p' Tree.empty (below k t') (ins Node.empty p' k c' tr))
      → Writes env p
          (Tree.short sk t)
          (Spec.insert_short sk t v (insert t) (fork key sk))
          (insert_short ins p sk c flags key (Node.value v) tr)
  unfolding Spec.insert_short
  short-Writes p sk c flags t key v tr rep (e, ne, path, wf) h inside fresh = go (view key sk)
    where
      go :
          View key sk
          → Writes env p
              (Tree.short sk t)
              (Spec.insert_short sk t v (insert t) (fork key sk))
              (insert_short ins p sk c flags key (Node.value v) tr)
      go (is_within r f k) =
          rw
            (
              f,
              k,
              insert_short-descends p sk c flags (sk ++ r) (Node.value v)
                  (common_prefix_length-prefix sk r),
            )
            (descend_short-Writes env ins p sk c flags t (insert t r v) r (Node.value v) tr rep
              (inside e r wf (IsRest-behind e sk r path (subst (IsPath true) k h)) k))
      go (is_apart q a s b r f k k' n) =
          let moved : p ++ sk ≡ (p ++ (q ++ (a ∷ []))) ++ s =
            ap (λ x. p ++ x) (k ∙ sym (append_assoc q (a ∷ []) s))
            ∙ sym (append_assoc p (q ++ (a ∷ [])) s) in
          let part = common_prefix_length-apart q a s b r n in
          rw
            (
              f,
              k,
              k',
              insert_short-splits p (q ++ (a ∷ s)) c flags (q ++ (b ∷ r)) (Node.value v)
                  (omega (arith, part, length-append q (a ∷ s))),
            )
            (split_short-Writes env ins p q a s b r c (Node.value v) (below s t)
              (below r (Tree.value v)) (Tree.short (q ++ (a ∷ s)) t) tr n
              (parted e q a s (subst (IsPath e) k path))
              (parted true q b r (subst (IsPath true) k' h))
              (λ tr'.
                fresh (p ++ (q ++ (a ∷ []))) s c t tr'
                  (subst (λ x. Represents env x c t) moved rep))
              (λ tr'. fresh (p ++ (q ++ (b ∷ []))) r (Node.value v) (Tree.value v) tr' (value v)))
      go (is_exhausted x t' f k) = absurd (key-not_inside e key x t' h (subst (IsPath e) k path))

-- With two calls for each nibble left, `insert_internal` succeeds, and its node stands for the tree
-- with the value written; a node reported unmodified stands for the tree as it was.
pub insert_internal-Writes :
    (fuel : ℕ) (env : TrieEnv) {p : List ℕ} {node : Node} {t : Tree}
    → Represents env p node t
    → (e : Bool) (rest v : List ℕ) → IsWf e t
    → IsRest e rest
    → need node rest ≤ fuel
    → (tr : TrieTracer)
    → Writes env p t (insert t rest v) (insert_internal fuel env node p rest (Node.value v) tr)
unfolding insert_internal
insert_internal-Writes zero env {node} rep e rest v wf h m tr =
    absurd (omega (arith, need-bounds node rest))
insert_internal-Writes (suc f) env {p} {node} {t} rep true rest v wf h m tr =
    rw h (replace_value-Writes env p node t v tr rep wf)
insert_internal-Writes (suc f) env rep false [] v wf h m tr = elim h [ ]
insert_internal-Writes (suc f) env {p} empty false (k ∷ ks) v wf h m tr =
    unfold insert in
    (
      true,
      Node.short (k ∷ ks) (Node.value v) new_flag,
      on_insert p tr,
      refl,
      short (value v),
      λ d. cc,
    )
insert_internal-Writes (suc f) env (value w) false (k ∷ ks) v wf h m tr = elim wf [ ]
insert_internal-Writes (suc f) env {p} (short {key = sk} {c} {t} {flags} rep) false (k ∷ ks) v wf h
      m tr =
    rw (insert-short_eq sk t (k ∷ ks) v) (
      short-Writes env (insert_internal f env) p sk c flags t (k ∷ ks) v tr rep wf h
        (λ e r wf' h' split.
          insert_internal-Writes f env rep e r v wf' h'
            (omega (arith, need-bounds c r, shorter sk r (k ∷ ks) wf.1 split)) tr)
        (λ p' k' c' t' tr' rep'. insert_internal-empty f env p' k' c' t' tr' (omega arith) rep'))
insert_internal-Writes (suc f) env {p} (full {cs} {ts} {flags} all) false (k ∷ ks) v wf h m tr =
    let (small, h') = IsRest-tail k ks h in
    let (c, found, rep) = get_child-Represents all k k wf (omega arith) small in
    rw (found, insert-full_eq ts k ks v)
      (full-Writes env p f k c cs flags ts ks v tr all wf small (
        insert_internal-Writes f env rep (ended k) ks v (child-IsWf ts 0 k k wf (omega arith)) h'
          (omega (arith, need-bounds c ks)) tr))
insert_internal-Writes (suc f) env {p} (hash {h} {n} {t} blob fetched decoded inner rep) false
      (k ∷ ks) v wf g m tr =
    let (dirty, n', tr', run, rep', same) =
      insert_internal-Writes f env rep false (k ∷ ks) v wf g
        (omega (arith, need-inner n (k ∷ ks) inner)) (on_read p blob tr) in
    rw (resolve_and_track-Represents env p h blob n tr fetched decoded, run)
      (resolved dirty n' tr' rep' same)
  where
    resolved :
        (dirty : Bool) (n' : Node) (tr' : TrieTracer)
        → Represents env p n' (insert t (k ∷ ks) v)
        → (dirty ≡ false → insert t (k ∷ ks) v ≡ t)
        → Writes env p t
            (insert t (k ∷ ks) v)
            ((if dirty then pure (true, n') else pure (false, n)) tr')
    resolved true n' tr' rep' same = (true, n', tr', refl, rep', same)
    resolved false n' tr' rep' same =
        (false, n, tr', refl, subst (Represents env p n) (sym (same refl)) rep, same)
