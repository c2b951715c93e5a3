-- ===== src/Trie/Represents/Read.antt =====
-- `get_internal` returns what the tree holds, and a node that still stands for the tree.
use rust_eth_triedb.Common.{
  ℕ, zero, suc, ◌+◌, ◌≤◌, ◌<◌, List, [], ◌∷◌, ◌++◌, Bool, true, false, ◌≡◌, ◌≢◌, refl, ap, sym, ◌∙◌,
  arith, length, take, drop, get_elem?, Option, some, Result, ok, Bool-cases, inl, inr,
  drop-length_append, take-length_append, length-append, append_assoc, if◌then◌else◌,
}
use mathlib.Core.Path.{subst}
use rust_eth_triedb.TrieTracer.{TrieTracer, on_read}
use rust_eth_triedb.Node.{Node, Nodes, NodeFlag, set_child}
use rust_eth_triedb.Trie.Monad.{Fault, ◌>>=◌, pure, bind, expect}
use rust_eth_triedb.Trie.Resolve.{TrieEnv, resolve_and_track, fetch, must_decode_node}
use rust_eth_triedb.Trie.Ops.{Got, get_internal, starts_with}
use rust_eth_triedb.Trie.Tree.{Tree, Trees, lookup, child}
use rust_eth_triedb.Trie.Tree.Keys.{IsPath, IsRest, ended, IsRest-behind, IsRest-tail}
use rust_eth_triedb.Trie.Tree.Shape.{IsWf, AreWf, starts_with→append}
use rust_eth_triedb.Trie.Represents.Defs.{Represents, RepresentAll, empty, value, short, full, hash}
use rust_eth_triedb.Trie.Represents.Children.{
  need, need-bounds, need-inner, lookup_child-child, set-child, child-IsWf, get_child-Represents,
  AreWf-IsWide, set_child-Represents,
}

-- A result that returns `v` and a node that stands for `t`.
abbrev pub Reads :
    TrieEnv → List ℕ → Tree → Option (List ℕ) → Result Fault Got × TrieTracer → Type 0
Reads env p t v res =
    (n : Node) × (b : Bool) × (tr : TrieTracer) × (res ≡ (ok (v, n, b), tr)) × Represents env p n t

-- A hash resolves to its node, and the read is recorded.
pub resolve_and_track-Represents :
    (env : TrieEnv) (p h blob : List ℕ) (n : Node) (tr : TrieTracer)
    → fetch env p ≡ ok blob
    → must_decode_node (some h) blob ≡ ok n
    → resolve_and_track env h p tr ≡ (ok n, on_read p blob tr)
unfolding resolve_and_track
resolve_and_track-Represents env p h blob n tr f d = rw (f, d)

pub shorter : (sk r rest : List ℕ) → sk ≢ [] → rest ≡ sk ++ r → length r < length rest
shorter [] r rest ne e = absurd (ne refl)
shorter (x ∷ sk) r rest ne e = rw e (omega (arith, length-append sk r))

get_elem?-append :
    (key p : List ℕ) (pos n : ℕ) (r : List ℕ)
    → key ≡ p ++ (n ∷ r)
    → pos ≡ length p
    → get_elem? key pos ≡ some n
get_elem?-append key [] pos n r e l = rw (l, e)
get_elem?-append key (x ∷ p) pos n r e l =
    rw (l, e) (get_elem?-append (p ++ (n ∷ r)) p (length p) n r refl refl)

module _ (env : TrieEnv) (p : List ℕ) (f : ℕ) (key : List ℕ) (pos : ℕ) (tr : TrieTracer) where
  short-Reads :
      (sk : List ℕ) (c : Node) (flags : NodeFlag) (t : Tree) (v : Option (List ℕ))
      → Represents env (p ++ sk) c t
      → Reads env (p ++ sk) t v (get_internal f env c key pos tr)
      → Reads env p (Tree.short sk t) v (
          bind (get_internal f env c key pos tr) (λ (found, new_child, resolved).
            if resolved
            then pure (found, Node.short sk new_child flags, true)
            else pure (found, Node.short sk c flags, false)))
  short-Reads sk c flags t v rep (n, true, tr', e, rep') =
      (Node.short sk n flags, true, tr', rw e, short rep')
  short-Reads sk c flags t v rep (n, false, tr', e, rep') =
      (Node.short sk c flags, false, tr', rw e, short rep)

  full-Reads :
      (i : ℕ) (c : Node) (cs : Nodes) (flags : NodeFlag) (ts : Trees) (v : Option (List ℕ))
      → RepresentAll env p 0 cs ts
      → AreWf 0 ts
      → i ≤ 16
      → Reads env (p ++ (i ∷ [])) (child ts i) v (get_internal f env c key pos tr)
      → Reads env p (Tree.full ts) v (
          bind (get_internal f env c key pos tr) (λ (found, new_child, resolved).
            if resolved
            then (expect (set_child cs i new_child) >>= λ cs'.
                pure (found, Node.full cs' flags, true))
            else pure (found, Node.full cs flags, false)))
  full-Reads i c cs flags ts v rs wf l (n, true, tr', e, rep') =
      let (cs', done, rs') =
        set_child-Represents rs i i n (child ts i) (AreWf-IsWide ts 0 wf) (omega arith) l rep' in
      (
        Node.full cs' flags,
        true,
        tr',
        rw (e, done),
        full (subst (RepresentAll env p 0 cs') (set-child ts i) rs'),
      )
  full-Reads i c cs flags ts v rs wf l (n, false, tr', e, rep') =
      (Node.full cs flags, false, tr', rw e, full rs)

-- With two calls for each nibble left, `get_internal` returns what the tree holds at the rest of
-- the key, and a node that stands for the same tree.
pub get_internal-Reads :
    (fuel : ℕ) (env : TrieEnv) {p : List ℕ} {node : Node} {t : Tree}
    → Represents env p node t
    → (e : Bool) (rest key : List ℕ) (pos : ℕ) → IsWf e t
    → IsRest e rest
    → need node rest ≤ fuel
    → key ≡ p ++ rest
    → pos ≡ length p
    → (tr : TrieTracer) → Reads env p t (lookup t rest) (get_internal fuel env node key pos tr)
unfolding get_internal lookup
get_internal-Reads zero env {node} rep e rest key pos wf h m k l tr =
    absurd (omega (arith, need-bounds node rest))
get_internal-Reads (suc f) env empty e rest key pos wf h m k l tr =
    (Node.empty, false, tr, refl, empty)
get_internal-Reads (suc f) env (value v) e rest key pos wf h m k l tr =
    (Node.value v, false, tr, refl, value v)
get_internal-Reads (suc f) env (short rep) true rest key pos wf h m k l tr = elim wf [ ]
get_internal-Reads (suc f) env {p} (short {key = sk} {c} {t} {flags} rep) false rest key pos wf h m
      k l tr =
    let left : drop pos key ≡ rest = rw (k, l) (drop-length_append p rest) in
    elim (Bool-cases (starts_with rest sk)) [
      | inr miss ↦ rw (left, miss) (Node.short sk c flags, false, tr, refl, short rep)
      | inl hit ↦
          let r : List ℕ = drop (length sk) rest in
          let split : rest ≡ sk ++ r = starts_with→append rest sk hit in
          let (e, ne, path, wf') = wf in
          rw (left, hit)
            (short-Reads env p f key (pos + length sk) tr sk c flags t (lookup t r) rep (
              get_internal-Reads f env rep e r key (pos + length sk) wf'
                (IsRest-behind e sk r path (subst (IsPath true) split h))
                (omega (arith, need-bounds c r, shorter sk r rest ne split))
                (k ∙ ap (λ x. p ++ x) split ∙ sym (append_assoc p sk r))
                (omega (arith, length-append p sk)) tr))
    ]
get_internal-Reads (suc f) env (full rs) true rest key pos wf h m k l tr = elim wf [ ]
get_internal-Reads (suc f) env (full rs) false [] key pos wf h m k l tr = elim h [ ]
get_internal-Reads (suc f) env {p} (full {cs} {ts} {flags} rs) false (n ∷ rest) key pos wf h m k l
      tr =
    let (small, h') = IsRest-tail n rest h in
    let (c, found, rep) = get_child-Represents rs n n wf (omega arith) small in
    rw (get_elem?-append key p pos n rest k l, found, lookup_child-child ts n rest)
      (full-Reads env p f key (pos + 1) tr n c cs flags ts (lookup (child ts n) rest) rs wf small (
        get_internal-Reads f env rep (ended n) rest key (pos + 1)
          (child-IsWf ts 0 n n wf (omega arith)) h' (omega (arith, need-bounds c rest))
          (k ∙ sym (append_assoc p (n ∷ []) rest)) (omega (arith, length-append p (n ∷ []))) tr))
get_internal-Reads (suc f) env {p} (hash {h} {n} blob fetched decoded inner rep) e rest key pos wf g
      m k l tr =
    let prefix : take pos key ≡ p = rw (k, l) (take-length_append p rest) in
    let (n', b, tr', run, rep') =
      get_internal-Reads f env rep e rest key pos wf g (omega (arith, need-inner n rest inner)) k l
        (on_read p blob tr) in
    (
      n',
      true,
      tr',
      rw (prefix, resolve_and_track-Represents env p h blob n tr fetched decoded, run),
      rep',
    )
