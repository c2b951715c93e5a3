-- ===== src/Trie.antt =====
-- state-trie/src/trie.rs: the trie, its operations on nodes, and the resolution of hash nodes.
-- The mutable tracer is passed as a state; the root and the counters are fields of the record.
pub mod Monad
pub mod Resolve
pub mod Ops
pub mod Tree
pub mod Represents
pub mod Updates
pub mod Runs
pub mod Guards
pub mod Hash
pub mod Commit
use rust_eth_triedb.Common.{
  ℕ, ◌+◌, List, [], ◌∷◌, Bool, true, false, ◌==◌, if◌then◌else◌, bytes_eq, is_empty, Option, none,
  some, Result, ok, err,
}
use rust_eth_triedb.Encoding.{key_to_nibbles}
use rust_eth_triedb.TrieTracer.{TrieTracer}
use rust_eth_triedb.TrieTracer
use rust_eth_triedb.Node.{Node, empty, value, new_flag}
use Monad.{Fault, SecureTrieError, already_committed, fault}
use Resolve.{TrieEnv, resolve_and_track}
use Ops.{Got, get_internal, insert_internal, delete_internal}

-- `struct Trie`; the owner, the database and the diff layers are those of `env`.
pub record Trie : Type 0 where
  pub root : Node
  pub env : TrieEnv
  pub committed : Bool
  pub unhashed : ℕ
  pub uncommitted : ℕ
  pub tracer : TrieTracer

-- `&mut self` methods return their result and the trie after the call, also when they fail.
abbrev pub Outcome : Type 0 → Type 0
Outcome A = Result Fault A × Trie

-- The root that was resolved becomes the root of a new trie.
abbrev loaded : Trie → Result Fault Node × TrieTracer → Result Fault Trie
loaded t (err e, tracer) = err e
loaded t (ok root, tracer) = ok (record t { root = root; tracer = tracer })

-- The constant of the hash of an empty trie and the zero hash are arguments, as they come from
-- other crates.
unfoldable pub new : List ℕ → List ℕ → List ℕ → TrieEnv → Result Fault Trie
unfolding resolve_and_track
new empty_root_hash zero_hash state_root env =
    let start : Trie = record {
      root = empty;
      env = env;
      committed = false;
      unhashed = 0;
      uncommitted = 0;
      tracer = TrieTracer.new;
    } in
    if bytes_eq state_root empty_root_hash
    then ok start
    else if bytes_eq state_root zero_hash
    then ok start
    else loaded start (resolve_and_track env state_root [] TrieTracer.new)

-- The root is replaced if a node was resolved below it.
abbrev keep_resolved : Trie → Result Fault Got × TrieTracer → Outcome (Option (List ℕ))
keep_resolved t (err e, tracer) = (err e, record t { tracer = tracer })
keep_resolved t (ok (found, new_root, did_resolve), tracer) =
    (ok found, record t { root = if did_resolve then new_root else t.root; tracer = tracer })

-- `fuel` bounds the recursion of `get_internal`.
unfoldable pub get : ℕ → List ℕ → Trie → Outcome (Option (List ℕ))
unfolding get_internal
get fuel key t =
    if t.committed
    then (err (fault already_committed), t)
    else keep_resolved t (get_internal fuel t.env t.root (key_to_nibbles key) 0 t.tracer)

-- The node that `insert_internal` or `delete_internal` returns becomes the root.
abbrev set_root : Trie → Result Fault (Bool × Node) × TrieTracer → Outcome (Unit {0})
set_root t (err e, tracer) = (err e, record t { tracer = tracer })
set_root t (ok (dirty, new_root), tracer) = (ok tt, record t { root = new_root; tracer = tracer })

-- The statistics are updated before the key is looked at.
abbrev touched : Trie → Trie
touched t = record t { unhashed = t.unhashed + 1; uncommitted = t.uncommitted + 1 }

unfoldable pub delete : ℕ → List ℕ → Trie → Outcome (Unit {0})
unfolding delete_internal
delete fuel key t =
    if t.committed
    then (err (fault already_committed), t)
    else set_root (touched t) (delete_internal fuel t.env t.root [] (key_to_nibbles key) t.tracer)

-- An empty value deletes the key.
unfoldable pub update : ℕ → List ℕ → List ℕ → Trie → Outcome (Unit {0})
unfolding insert_internal delete_internal
update fuel key val t =
    if t.committed
    then (err (fault already_committed), t)
    else if is_empty val
    then set_root (touched t) (delete_internal fuel t.env t.root [] (key_to_nibbles key) t.tracer)
    else set_root (touched t)
        (insert_internal fuel t.env t.root [] (key_to_nibbles key) (value val) t.tracer)
