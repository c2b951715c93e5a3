-- ===== src/Hasher.antt =====
-- state-trie/src/trie_hasher.rs: the hash of a node, with the node that carries it. `none` is a panic;
-- `keccak256` and the header of an RLP list come from other crates, and are parameters.
pub mod Parallel
pub mod Represents
pub mod Sized
pub mod Total
pub mod Cached
use rust_eth_triedb.Common.{
  ℕ, suc, List, [], ◌∷◌, Bool, true, false, not, ◌&&◌, ◌==◌, ltb, if◌then◌else◌, length, Option,
  none, some,
}
use rust_eth_triedb.Encoding.{hex_to_compact}
use rust_eth_triedb.Node.{
  Node, Nodes, NodeFlag, empty, full, short, hash, value, nil, cons, set_child,
}
use rust_eth_triedb.Node.Encode.{encode}

-- The node to be put in its place, collapsed or hashed, and the node to be kept.
abbrev pub Hashed : Type 0
Hashed = Node × Node

abbrev pub and_then {ℓ κ} : {A : Type ℓ} {B : Type κ} → Option A → (A → Option B) → Option B
and_then none f = none
and_then (some a) f = f a

-- The flags with the hash that was found.
abbrev pub with_hash : NodeFlag → Node → NodeFlag
with_hash flags (hash h) = record flags { hash = some h }
with_hash flags hashed = record flags { hash = none }

-- A child that is a short or a full node is hashed, another stays.
abbrev pub of_inner : Node → Option Hashed → Option Hashed
of_inner (short key val flags) r = r
of_inner (full cs flags) r = r
of_inner node r = some (node, node)

-- An empty child stays.
abbrev pub of_child : Node → Option Hashed → Option Hashed
of_child empty r = some (empty, empty)
of_child node r = r

-- The cached hash of a node is its result.
abbrev pub cached_or : Option (List ℕ) → Node → Option Hashed → Option Hashed
cached_or (some h) node r = some (hash h, node)
cached_or none node r = r

-- The loop that writes the results to the children.
unfoldable pub write_results : List Hashed → ℕ → Nodes × Nodes → Option (Nodes × Nodes)
write_results [] i both = some both
write_results ((child_collapsed, child_cached) ∷ results) i (collapsed, cached) =
    and_then (set_child collapsed i child_collapsed) (λ collapsed'.
      and_then (set_child cached i child_cached)
        (λ cached'. write_results results (suc i) (collapsed', cached')))

-- One round of the loop over the children, an empty one skipped.
abbrev pub hash_round :
    Node
    → Option Hashed
    → ℕ
    → Nodes × Nodes
    → (Nodes × Nodes → Option (Nodes × Nodes))
    → Option (Nodes × Nodes)
hash_round empty r i both next = next both
hash_round child r i (collapsed, cached) next = and_then r (λ (child_collapsed, child_cached).
    and_then (set_child collapsed i child_collapsed) (λ collapsed'.
      and_then (set_child cached i child_cached) (λ cached'. next (collapsed', cached'))))

module _ (keccak256 : List ℕ → List ℕ) (list_header : ℕ → List ℕ) where
  -- `short_node_to_hash` and `full_node_to_hash`.
  unfoldable pub node_to_hash : Bool → Node → Option Node
  unfolding encode
  node_to_hash force node = and_then (encode list_header node) (λ rpl_enc.
      if ltb (length rpl_enc) 32 && not force then some node else some (hash (keccak256 rpl_enc)))

  -- A short node whose child was hashed.
  unfoldable pub hash_short : Bool → List ℕ → NodeFlag → Option Hashed → Option Hashed
  unfolding node_to_hash
  hash_short force key flags child = and_then child (λ (collapsed_val, cached_val).
      and_then (node_to_hash force (short (hex_to_compact key) collapsed_val flags))
        (λ hashed. some (hashed, short key cached_val (with_hash flags hashed))))

  -- A full node whose children were hashed.
  unfoldable pub hash_full : Bool → NodeFlag → Option (Nodes × Nodes) → Option Hashed
  unfolding node_to_hash
  hash_full force flags children = and_then children (λ (collapsed, cached).
      and_then (node_to_hash force (full collapsed flags))
        (λ hashed. some (hashed, full cached (with_hash flags hashed))))

  -- `hash`, with the flag of the hasher; the hashers of the parallel tasks are serial. Only the first
  -- 16 children are hashed.
  unfoldable mutual
    unfolding hash_short hash_full write_results

    pub hash_node : Bool → Bool → Node → Option Hashed
    hash_node parallel force (short key val flags) =
        cached_or (flags.hash) (short key val flags)
          (hash_short force key flags (of_inner val (hash_node parallel false val)))
    hash_node true force (full cs flags) = cached_or (flags.hash) (full cs flags) (
        hash_full force flags
          (and_then (child_results cs 0) (λ results. write_results results 0 (cs, cs))))
    hash_node false force (full cs flags) =
        cached_or (flags.hash) (full cs flags) (hash_full force flags (hash_children cs 0 (cs, cs)))
    hash_node parallel force (hash h) = some (hash h, hash h)
    hash_node parallel force (value v) = some (value v, value v)
    hash_node parallel force empty = some (empty, empty)

    -- The results of the parallel tasks, in order.
    pub child_results : Nodes → ℕ → Option (List Hashed)
    child_results nil i = some []
    child_results (cons c cs) i =
        let result = of_child c (hash_node false false c) in
        let rest = child_results cs (suc i) in
        if i == 16 then some [] else and_then result (λ r. and_then rest (λ rs. some (r ∷ rs)))

    -- The serial loop.
    pub hash_children : Nodes → ℕ → Nodes × Nodes → Option (Nodes × Nodes)
    hash_children nil i both = some both
    hash_children (cons c cs) i both =
        let round = hash_round c (hash_node false false c) i both (hash_children cs (suc i)) in
        if i == 16 then some both else round
