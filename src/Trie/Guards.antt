-- ===== src/Trie/Guards.antt =====
-- The errors of `get`, `update` and `delete` of state-trie/src/trie.rs, and the trie they leave.
use rust_eth_triedb.Common.{
  ℕ, List, [], Bool, true, false, ◌≡◌, refl, Result, ok, err, inl, inr, ◌⊎◌, bytes_eq,
  bytes_eq_refl, bytes_eq-false, ◌≢◌, if◌then◌else◌, is_empty, Bool-cases,
}
use rust_eth_triedb.Encoding.{key_to_nibbles}
use rust_eth_triedb.TrieTracer.{TrieTracer}
use rust_eth_triedb.TrieTracer
use rust_eth_triedb.Node.{Node, value}
use rust_eth_triedb.Trie.{Trie, Outcome, new, get, update, delete, keep_resolved, set_root, touched}
use rust_eth_triedb.Trie.Monad.{Fault, already_committed, fault}
use rust_eth_triedb.Trie.Resolve.{TrieEnv}
use rust_eth_triedb.Trie.Ops.{Got, insert_internal, delete_internal}
use rust_eth_triedb.Trie.Tree.{Tree}
use rust_eth_triedb.Trie.Tree.Shape.{IsWf}
use rust_eth_triedb.Trie.Represents.Defs.{Represents, empty, hash}
use rust_eth_triedb.Trie.Represents.Read.{resolve_and_track-Represents}
use rust_eth_triedb.Trie.Updates.{IsTrieOf}

-- The root, what the trie reads from and the commit flag are the same.
abbrev pub IsSameRoot : Trie → Trie → Type 0
IsSameRoot trie trie' =
    (trie'.root ≡ trie.root) × (trie'.env ≡ trie.env) × (trie'.committed ≡ trie.committed)

-- The result is good, or the trie has the root it had.
abbrev pub IsSafe : {A : Type 0} → Trie → Outcome A → Type 0
IsSafe trie (ok a, trie') = (trie'.env ≡ trie.env) × (trie'.committed ≡ trie.committed)
IsSafe trie (err e, trie') = IsSameRoot trie trie'

set_root-IsSafe :
    (trie : Trie) (r : Result Fault (Bool × Node) × TrieTracer)
    → IsSafe trie (set_root (touched trie) r)
set_root-IsSafe trie (ok (dirty, n), tr) = (refl, refl)
set_root-IsSafe trie (err e, tr) = (refl, refl, refl)

keep_resolved-IsSafe :
    (trie : Trie) (r : Result Fault Got × TrieTracer) → IsSafe trie (keep_resolved trie r)
keep_resolved-IsSafe trie (ok (v, n, b), tr) = (refl, refl)
keep_resolved-IsSafe trie (err e, tr) = (refl, refl, refl)

refused-IsSafe :
    {A : Type 0} (b : Bool) (trie : Trie) (o : Outcome A)
    → IsSafe trie o
    → IsSafe trie (if b then (err (fault already_committed), trie) else o)
refused-IsSafe true trie o h = (refl, refl, refl)
refused-IsSafe false trie o h = h

either-IsSafe :
    {A : Type 0} (b : Bool) (trie : Trie) (o o' : Outcome A)
    → IsSafe trie o
    → IsSafe trie o'
    → IsSafe trie (if b then o else o')
either-IsSafe true trie o o' h h' = h
either-IsSafe false trie o o' h h' = h'

-- A `get`, an `update` or a `delete` that fails, for whatever reason, leaves the root of the
-- trie, what it reads from and its commit flag as they were; one that succeeds leaves the last
-- two.
pub failures-keep_root :
    (fuel : ℕ) (key val : List ℕ) (trie : Trie)
    → IsSafe trie (get fuel key trie)
      × IsSafe trie (update fuel key val trie)
      × IsSafe trie (delete fuel key trie)
unfolding get update delete
failures-keep_root fuel key val trie =
    let removed =
      set_root-IsSafe trie
        (delete_internal fuel trie.env trie.root [] (key_to_nibbles key) trie.tracer) in
    let written =
      set_root-IsSafe trie
        (insert_internal fuel trie.env trie.root [] (key_to_nibbles key) (value val) trie.tracer) in
    (
      refused-IsSafe trie.committed trie _ (keep_resolved-IsSafe trie _),
      refused-IsSafe trie.committed trie _ (either-IsSafe (is_empty val) trie _ _ removed written),
      refused-IsSafe trie.committed trie _ removed,
    )

-- The tree that a state root stands for: the empty tree for the hash of the empty trie and for the
-- zero hash, and else that of the node which the database has for the empty prefix.
abbrev pub IsRootOf : List ℕ → List ℕ → TrieEnv → List ℕ → Tree → Type 0
IsRootOf empty_root_hash zero_hash env root t =
    (((root ≡ empty_root_hash) ⊎ (root ≡ zero_hash)) × (t ≡ Tree.empty))
    ⊎ ((root ≢ empty_root_hash)
        × (root ≢ zero_hash)
        × Represents env [] (Node.hash root) t
        × IsWf false t)

opened_start :
    (empty_root_hash zero_hash root : List ℕ) (env : TrieEnv)
    → (root ≡ empty_root_hash) ⊎ (root ≡ zero_hash)
    → (trie : Trie) × (new empty_root_hash zero_hash root env ≡ ok trie) × IsTrieOf trie Tree.empty
unfolding new
opened_start e z root env (inl h) = rw (h, bytes_eq_refl e) (_, refl, (refl, empty, tt))
opened_start e z root env (inr h) = elim (Bool-cases (bytes_eq root e)) [
  | inl g ↦ rw g (_, refl, (refl, empty, tt))
  | inr g ↦ rw g (rw (h, bytes_eq_refl z) (_, refl, (refl, empty, tt)))
]

-- `new` succeeds with an open trie for the tree that the state root stands for: the empty tree
-- for the hash of the empty trie and for the zero hash, and else the well-formed tree of the
-- node that the diff layers or the database have for the empty prefix.
pub new-IsTrieOf :
    (empty_root_hash zero_hash root : List ℕ) (env : TrieEnv) (t : Tree)
    → IsRootOf empty_root_hash zero_hash env root t
    → (trie : Trie) × (new empty_root_hash zero_hash root env ≡ ok trie) × IsTrieOf trie t
new-IsTrieOf e z root env t (inl (h, k)) = rw k (opened_start e z root env h)
new-IsTrieOf e z root env t (inr (a, b, hash blob f d inner rep, wf)) =
    unfold new in
    rw
      (
        bytes_eq-false root e a,
        bytes_eq-false root z b,
        resolve_and_track-Represents env [] root blob _ TrieTracer.new f d,
      )
      (_, refl, (refl, rep, wf))
