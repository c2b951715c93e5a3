-- ===== src/Committer/Total.antt =====
-- The committer does not panic on the nodes of a well-formed tree.
use rust_eth_triedb.Common.{
  ℕ, List, [], ◌∷◌, Bool, true, false, ◌≡◌, refl, ap, ◌∙◌, if◌then◌else◌, Option, none, some,
  Bool-cases, inl, inr, bytes_eq, bytes_eq_refl, All,
}
use rust_eth_triedb.Encoding.{hex_to_compact}
use rust_eth_triedb.DiffLayer.{TrieNode, deleted_node, is_deleted}
use rust_eth_triedb.TrieTracer.{TrieTracer, is_accessed}
use rust_eth_triedb.Node.{Node, Nodes, NodeFlag, cache}
use rust_eth_triedb.Node.Encode.{node_to_bytes}
use rust_eth_triedb.Hasher.{and_then}
use rust_eth_triedb.Hasher.Sized.{
  IsSmall, HasSmall, IsSized, AreSized, hex_to_compact-IsSmall, encode-Written,
}
use rust_eth_triedb.NodeSet.{NodeSet, add_node, add_leaf, merge_set}
use rust_eth_triedb.Committer.{
  Committed, leaf_of, hash_or, clean_or, of_full, value_child, merge_all, stored, store,
  commit_short, commit_full,
}
use rust_eth_triedb.Trie.Represents.Defs.{IsInner}

-- A node that a commit returns, for the cached hash if there is one, and a set of the same owner.
abbrev pub Commits : Option (List ℕ) → NodeSet → Committed Node → Type 0
Commits c set o =
    (n : Node) × (set' : NodeSet) × (o ≡ some (n, set'))
    × IsSized n
    × (set'.owner ≡ set.owner)
    × ((h : List ℕ) → c ≡ some h → n ≡ Node.hash h)

abbrev pub CommitsAll : NodeSet → Committed Nodes → Type 0
CommitsAll set o =
    (cs : Nodes) × (set' : NodeSet) × (o ≡ some (cs, set')) × AreSized cs × (set'.owner ≡ set.owner)

abbrev pub OwnedBy : List ℕ → NodeSet → Type 0
OwnedBy owner set = set.owner ≡ owner

add_node-owner :
    (path : List ℕ) (node : TrieNode) (set : NodeSet) → (add_node path node set).owner ≡ set.owner
unfolding add_node
add_node-owner path node set = elim (Bool-cases (is_deleted node)) [
  | inl e ↦ rw e refl
  | inr e ↦ rw e refl
]

leaf_of-owner : (h : List ℕ) (n : Node) (set : NodeSet) → (leaf_of h n set).owner ≡ set.owner
unfolding add_leaf
leaf_of-owner h (Node.short k (Node.value v) f) set = refl
leaf_of-owner h (Node.short k Node.empty f) set = refl
leaf_of-owner h (Node.short k (Node.hash x) f) set = refl
leaf_of-owner h (Node.short k (Node.short a b c) f) set = refl
leaf_of-owner h (Node.short k (Node.full a b) f) set = refl
leaf_of-owner h (Node.full cs f) set = refl
leaf_of-owner h (Node.hash x) set = refl
leaf_of-owner h (Node.value x) set = refl
leaf_of-owner h Node.empty set = refl

pub clean_or-Commits :
    (flags : NodeFlag) (set : NodeSet) (r : Committed Node)
    → HasSmall (flags.hash)
    → Commits (flags.hash) set r
    → Commits (flags.hash) set (clean_or (flags.hash) (flags.dirty) set r)
clean_or-Commits flags set r s d = go (flags.hash) (flags.dirty) s d
  where
    go :
        (c : Option (List ℕ)) (b : Bool)
        → HasSmall c
        → Commits c set r
        → Commits c set (clean_or c b set r)
    go none b s d = d
    go (some h) true s d = d
    go (some h) false s d = (Node.hash h, set, refl, s, refl, λ h' e. cc)

pub merge_all-owner :
    (sets : List NodeSet) (set : NodeSet)
    → All (OwnedBy (set.owner)) sets
    → (merged : NodeSet) × (merge_all sets set ≡ some merged) × (merged.owner ≡ set.owner)
unfolding merge_all merge_set
merge_all-owner [] set all = (set, refl, refl)
merge_all-owner (s ∷ sets) set (same, all) =
    let owners : bytes_eq set.owner s.owner ≡ true =
      ap (bytes_eq set.owner) same ∙ bytes_eq_refl set.owner in
    rw (owners, merge_all) (merge_all-owner sets _ all)

pub of_full-Commits :
    (n : Node) (set : NodeSet) (r : Committed Node)
    → IsSized n
    → (IsInner n → Commits ((cache n).0) set r)
    → Commits none set (of_full n set r)
of_full-Commits (Node.full cs f) set r s d = weakened (d tt)
  where
    weakened : {c : Option (List ℕ)} {r : Committed Node} → Commits c set r → Commits none set r
    weakened (n, set', e, s, o, same) = (n, set', e, s, o, λ h q. cc)
of_full-Commits (Node.short k v f) set r s d = (Node.short k v f, set, refl, s, refl, λ h q. cc)
of_full-Commits (Node.hash x) set r s d = (Node.hash x, set, refl, s, refl, λ h q. cc)
of_full-Commits (Node.value x) set r s d = (Node.value x, set, refl, s, refl, λ h q. cc)
of_full-Commits Node.empty set r s d = (Node.empty, set, refl, s, refl, λ h q. cc)

pub value_child-IsSized : (c : Node) → IsSized c → IsSized (value_child c)
value_child-IsSized (Node.value x) s = s
value_child-IsSized (Node.hash x) s = tt
value_child-IsSized Node.empty s = tt
value_child-IsSized (Node.short k v f) s = tt
value_child-IsSized (Node.full k f) s = tt

-- A child that is committed, if it is not empty.
abbrev pub ResultOf : NodeSet → Committed Node → Type 0
ResultOf set o =
    (n : Node) × (set' : NodeSet) × (o ≡ some (n, set')) × IsSized n × (set'.owner ≡ set.owner)

pub one_child :
    (i : ℕ) (c : Node) (set : NodeSet) (here : Committed Node) (rest : NodeSet → Committed Nodes)
    → ResultOf set here
    → ((set' : NodeSet) → CommitsAll set' (rest set'))
    → CommitsAll set (
        and_then here
          (λ (c', set'). and_then (rest set') (λ (cs', set''). some (Nodes.cons c' cs', set''))))
one_child i c set here rest (n, set1, e, s, o) ih =
    let (cs, set2, e2, ss, o2) = ih set1 in
    (Nodes.cons n cs, set2, rw (e, e2) refl, (s, ss), o2 ∙ o)

module _ (list_header : ℕ → List ℕ) (arrange : List NodeSet → List NodeSet) (tracer : TrieTracer)
    (collect_leaf : Bool) where
  collected-owner :
      (h node_bytes path : List ℕ) (n : Node) (set : NodeSet) (b : Bool)
      → (if b
          then leaf_of h n (add_node path (record { hash = some h; blob = some node_bytes }) set)
          else add_node path (record { hash = some h; blob = some node_bytes }) set).owner
        ≡ set.owner
  collected-owner h node_bytes path n set true = leaf_of-owner h n _ ∙ add_node-owner path _ set
  collected-owner h node_bytes path n set false = add_node-owner path _ set

  unhashed-owner :
      (path : List ℕ) (set : NodeSet) (b : Bool)
      → (if b then add_node path deleted_node set else set).owner ≡ set.owner
  unhashed-owner path set true = add_node-owner path deleted_node set
  unhashed-owner path set false = refl

  node_to_bytes-Written :
      (n : Node) → IsInner n → IsSized n → (out : List ℕ) × (node_to_bytes list_header n ≡ some out)
  unfolding node_to_bytes
  node_to_bytes-Written (Node.full cs f) i s = encode-Written list_header (Node.full cs f) s
  node_to_bytes-Written (Node.short k v f) i s = encode-Written list_header (Node.short k v f) s
  node_to_bytes-Written (Node.hash x) i s = elim i [ ]
  node_to_bytes-Written (Node.value x) i s = elim i [ ]
  node_to_bytes-Written Node.empty i s = elim i [ ]

  stored-Commits :
      (path : List ℕ) (n : Node) (set : NodeSet) (c : Option (List ℕ))
      → IsInner n
      → IsSized n
      → HasSmall c
      → Commits c set (stored list_header arrange tracer collect_leaf path n set c)
  unfolding stored
  stored-Commits path n set none i s sc =
      (n, _, refl, s, unhashed-owner path set (is_accessed path tracer), λ h e. cc)
  stored-Commits path n set (some h) i s sc =
      let (out, e) = node_to_bytes-Written n i s in
      (
        Node.hash h,
        (if collect_leaf
            then leaf_of h n (add_node path (record { hash = some h; blob = some out }) set)
            else add_node path (record { hash = some h; blob = some out }) set),
        rw e refl,
        sc,
        collected-owner h out path n set collect_leaf,
        λ h' e'. cc,
      )

  cache-HasSmall : (n : Node) → IsInner n → IsSized n → HasSmall ((cache n).0)
  unfolding cache
  cache-HasSmall (Node.full cs f) i s = s.0
  cache-HasSmall (Node.short k v f) i s = s.0
  cache-HasSmall (Node.hash x) i s = elim i [ ]
  cache-HasSmall (Node.value x) i s = elim i [ ]
  cache-HasSmall Node.empty i s = elim i [ ]

  store-Commits :
      (path : List ℕ) (n : Node) (set : NodeSet)
      → IsInner n
      → IsSized n
      → Commits ((cache n).0) set (store list_header arrange tracer collect_leaf path n set)
  unfolding store
  store-Commits path n set i s = stored-Commits path n set ((cache n).0) i s (cache-HasSmall n i s)

  hash_or-IsSized :
      (n collapsed : Node) → IsSized n → IsSized collapsed → IsSized (hash_or n collapsed)
  hash_or-IsSized (Node.hash x) c s sc = s
  hash_or-IsSized (Node.value x) c s sc = sc
  hash_or-IsSized Node.empty c s sc = sc
  hash_or-IsSized (Node.short k v f) c s sc = sc
  hash_or-IsSized (Node.full k f) c s sc = sc

  pub commit_short-Commits :
      (path key : List ℕ) (flags : NodeFlag) (c : Option (List ℕ)) (set : NodeSet)
      (r : Committed Node)
      → HasSmall (flags.hash)
      → IsSmall key
      → Commits c set r
      → Commits
          (flags.hash)
          set
          (commit_short list_header arrange tracer collect_leaf path key flags r)
  unfolding commit_short cache
  commit_short-Commits path key flags c set r sf sk (v, set1, e, sv, o1, u) =
      let all : IsSized (Node.short (hex_to_compact key) v flags) =
        (sf, hex_to_compact-IsSmall key sk, sv) in
      let (n, set2, e2, sn, o2, same) =
        store-Commits path (Node.short (hex_to_compact key) v flags) set1 tt all in
      (
        hash_or n (Node.short (hex_to_compact key) v flags),
        set2,
        rw (e, e2) refl,
        hash_or-IsSized n _ sn all,
        o2 ∙ o1,
        λ h q. ap (λ x. hash_or x (Node.short (hex_to_compact key) v flags)) (same h q),
      )

  pub commit_full-Commits :
      (path : List ℕ) (flags : NodeFlag) (set : NodeSet) (r : Committed Nodes)
      → HasSmall (flags.hash)
      → CommitsAll set r
      → Commits (flags.hash) set (commit_full list_header arrange tracer collect_leaf path flags r)
  unfolding commit_full cache
  commit_full-Commits path flags set r sf (cs, set1, e, sc, o1) =
      let all : IsSized (Node.full cs flags) = (sf, sc) in
      let (n, set2, e2, sn, o2, same) = store-Commits path (Node.full cs flags) set1 tt all in
      (
        hash_or n (Node.full cs flags),
        set2,
        rw (e, e2) refl,
        hash_or-IsSized n _ sn all,
        o2 ∙ o1,
        λ h q. ap (λ x. hash_or x (Node.full cs flags)) (same h q),
      )
