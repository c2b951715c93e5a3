-- ===== src/Committer.antt =====
-- state-trie/src/trie_committer.rs: the modified nodes of a trie are replaced by their hashes and
-- collected. `none` is a panic.
pub mod Order
pub mod Total
pub mod Runs
use rust_eth_triedb.Common.{
  ℕ, suc, List, [], ◌∷◌, ◌++◌, Bool, true, false, ◌==◌, if◌then◌else◌, Option, none, some, Result,
  ok, err,
}
use rust_eth_triedb.Encoding.{hex_to_compact}
use rust_eth_triedb.DiffLayer.{deleted_node}
use rust_eth_triedb.TrieTracer.{TrieTracer, is_accessed}
use rust_eth_triedb.Node.{Node, Nodes, NodeFlag, empty, full, short, hash, value, nil, cons, cache}
use rust_eth_triedb.Node.Encode.{node_to_bytes}
use rust_eth_triedb.Hasher.{and_then}
use rust_eth_triedb.NodeSet.{NodeSet, add_node, add_leaf, merge_set}
use rust_eth_triedb.NodeSet

-- A node or children, and the set after the call.
abbrev pub Committed : Type 0 → Type 0
Committed A = Option (A × NodeSet)

abbrev pub leaf_of : List ℕ → Node → NodeSet → NodeSet
leaf_of h (short key (value v) flags) set = add_leaf h v set
leaf_of h _ set = set

-- The node when it is not hashed, else its hash.
abbrev pub hash_or : Node → Node → Node
hash_or (hash h) collapsed = hash h
hash_or _ collapsed = collapsed

-- A node that has a hash and is not dirty stays as it is stored.
abbrev pub clean_or : Option (List ℕ) → Bool → NodeSet → Committed Node → Committed Node
clean_or (some h) false set r = some (hash h, set)
clean_or (some h) true set r = r
clean_or none dirty set r = r

-- The child of a short node is committed if it is a full node.
abbrev pub of_full : Node → NodeSet → Committed Node → Committed Node
of_full (full cs flags) set r = r
of_full val set r = some (val, set)

-- A child that is not empty is committed.
abbrev pub of_filled : Node → NodeSet → Committed Node → Committed Node
of_filled empty set r = some (empty, set)
of_filled child set r = r

-- The child behind the terminator.
abbrev pub value_child : Node → Node
value_child (value v) = value v
value_child _ = empty

-- The sets of the tasks are merged; `none` is the failed `expect`.
unfoldable pub merge_all : List NodeSet → NodeSet → Option NodeSet
unfolding merge_set
merge_all [] set = some set
merge_all (s ∷ sets) set = elim (merge_set set s) [ ok set' ↦ merge_all sets set' | err e ↦ none ]

-- A task of the parallel committer: an empty child has no set.
abbrev pub task : Node → Committed Node → Option (Node × List NodeSet)
task empty r = some (empty, [])
task child none = none
task child (some (node, set)) = some (node, set ∷ [])

-- `arrange` is the order in which the tasks take the lock to merge their sets.
module _ (list_header : ℕ → List ℕ) (arrange : List NodeSet → List NodeSet) (tracer : TrieTracer)
    (collect_leaf : Bool) where
  -- The node is stored under its hash, or stays.
  unfoldable pub stored : List ℕ → Node → NodeSet → Option (List ℕ) → Committed Node
  unfolding is_accessed add_node add_leaf node_to_bytes
  stored path node set none =
      some (node, if is_accessed path tracer then add_node path deleted_node set else set)
  stored path node set (some h) = and_then (node_to_bytes list_header node) (λ node_bytes.
      let set' = add_node path (record { hash = some h; blob = some node_bytes }) set in
      some (hash h, if collect_leaf then leaf_of h node set' else set'))

  unfoldable pub store : List ℕ → Node → NodeSet → Committed Node
  unfolding cache stored
  store path node set = stored path node set ((cache node).0)

  -- A short node whose child was committed.
  unfoldable pub commit_short : List ℕ → List ℕ → NodeFlag → Committed Node → Committed Node
  unfolding store
  commit_short path key flags child = and_then child (λ (val, set).
      let collapsed = short (hex_to_compact key) val flags in
      and_then (store path collapsed set) (λ (hn, set'). some (hash_or hn collapsed, set')))

  -- A full node whose children were committed.
  unfoldable pub commit_full : List ℕ → NodeFlag → Committed Nodes → Committed Node
  unfolding store
  commit_full path flags children = and_then children (λ (cs, set).
      let collapsed = full cs flags in
      and_then (store path collapsed set) (λ (hn, set'). some (hash_or hn collapsed, set')))

  unfoldable mutual
    unfolding commit_short commit_full merge_all

    pub commit_internal : Bool → List ℕ → Node → NodeSet → Committed Node
    commit_internal parallel path (short key val flags) set =
        clean_or (flags.hash) (flags.dirty) set (
          commit_short path key flags
            (of_full val set (commit_internal false (path ++ key) val set)))
    commit_internal true path (full cs flags) set = clean_or (flags.hash) (flags.dirty) set (
        commit_full path flags (
          and_then (commit_tasks 0 path cs set.owner) (λ (children, sets).
            and_then (merge_all (arrange sets) set) (λ set'. some (children, set')))))
    commit_internal false path (full cs flags) set =
        clean_or (flags.hash) (flags.dirty) set
          (commit_full path flags (commit_children 0 path cs set))
    commit_internal parallel path (hash h) set = some (hash h, set)
    commit_internal parallel path (value v) set = none
    commit_internal parallel path empty set = none

    -- The serial loop over the first 16 children, and the value child.
    pub commit_children : ℕ → List ℕ → Nodes → NodeSet → Committed Nodes
    commit_children i path nil set = some (nil, set)
    commit_children i path (cons c cs) set =
        let here = of_filled c set (commit_internal false (path ++ (i ∷ [])) c set) in
        let rest : NodeSet → Committed Nodes = commit_children (suc i) path cs in
        if i == 16
        then some (cons (value_child c) nil, set)
        else and_then here
            (λ (c', set'). and_then (rest set') (λ (cs', set''). some (cons c' cs', set'')))

    -- The tasks of the parallel committer, each with a set of its own: the children and the sets.
    pub commit_tasks : ℕ → List ℕ → Nodes → List ℕ → Option (Nodes × List NodeSet)
    commit_tasks i path nil owner = some (nil, [])
    commit_tasks i path (cons c cs) owner =
        let here = task c (commit_internal false (path ++ (i ∷ [])) c (NodeSet.new owner)) in
        let rest = commit_tasks (suc i) path cs owner in
        if i == 16
        then some (cons (value_child c) nil, [])
        else and_then here
            (λ (c', set). and_then rest (λ (cs', sets). some (cons c' cs', set ++ sets)))

  abbrev pub expect_hash : Node × NodeSet → Committed Node
  expect_hash (hash h, set) = some (hash h, set)
  expect_hash _ = none

  unfoldable pub commit : Bool → Node → NodeSet → Committed Node
  unfolding commit_internal
  commit parallel node set = and_then (commit_internal parallel [] node set) expect_hash
