-- ===== src/Trie/Resolve.antt =====
-- `resolve` and `resolve_and_track` of state-trie/src/trie.rs.
use rust_eth_triedb.Common.{ℕ, List, Bool, if◌then◌else◌, Option, none, some, Result, ok, err}
use rust_eth_triedb.Encoding.{account_trie_node_key, storage_trie_node_key}
use rust_eth_triedb.TrieTracer.{on_read}
use rust_eth_triedb.DiffLayer.{DiffLayers, get_trie_nodes}
use rust_eth_triedb.Node.{Node, empty, full, short, hash, value}
use rust_eth_triedb.Node.Decode.{decode_node}
use rust_eth_triedb.Trie.Monad.{Fault, fault, panic, database, M, pure, lift, trace, ◌>>=◌, ◌>>◌}

-- What a trie reads from: its owner and whether that is the zero hash, the diff layers, and
-- `get_trie_node` of the database, an implementation of the trait `TrieDatabase`; `err` is its error.
pub record TrieEnv : Type 0 where
  pub owner : List ℕ
  pub owner_is_zero : Bool
  pub difflayers : Option DiffLayers
  pub get_trie_node : List ℕ → Result (Unit {0}) (Option (List ℕ))

unfoldable pub node_key : TrieEnv → List ℕ → List ℕ
node_key env prefix =
    if env.owner_is_zero
    then account_trie_node_key prefix
    else storage_trie_node_key env.owner prefix

-- The blob that the database holds.
unfoldable pub fetch_database : TrieEnv → List ℕ → Result Fault (List ℕ)
fetch_database env key = elim (env.get_trie_node key) [
  | err e ↦ err (fault database)
  | ok none ↦ err (fault database)
  | ok (some blob) ↦ ok blob
]

-- The blob that a node's prefix resolves to: the diff layers first, then the database. A deleted
-- node in a diff layer has no blob, and `unwrap` panics.
unfoldable pub fetch : TrieEnv → List ℕ → Result Fault (List ℕ)
unfolding node_key fetch_database
fetch env prefix =
    let key = node_key env prefix in
    elim (env.difflayers) [
      | none ↦ fetch_database env key
      | some layers ↦ elim (get_trie_nodes key layers) [
        | none ↦ fetch_database env key
        | some node ↦ elim (node.blob) [ none ↦ err panic | some blob ↦ ok blob ]
      ]
    ]

-- `Node::must_decode_node`.
unfoldable pub must_decode_node : Option (List ℕ) → List ℕ → Result Fault Node
must_decode_node h buf = elim (decode_node h buf) [ ok n ↦ ok n | err e ↦ err panic ]

unfoldable pub resolve_and_track : TrieEnv → List ℕ → List ℕ → M Node
unfolding fetch must_decode_node
resolve_and_track env h prefix = do
  blob ← lift (fetch env prefix)
  trace (on_read prefix blob)
  lift (must_decode_node (some h) blob)

unfoldable pub resolve : TrieEnv → Node → List ℕ → M Node
unfolding resolve_and_track
resolve env (hash h) prefix = resolve_and_track env h prefix
resolve env empty prefix = pure empty
resolve env (full cs flags) prefix = pure (full cs flags)
resolve env (short key val flags) prefix = pure (short key val flags)
resolve env (value v) prefix = pure (value v)
