-- ===== src/NodeSet/Laws.antt =====
-- The counters of a node set, and that no two nodes of merged sets share a key.
use rust_eth_triedb.Common.{
  ℕ, List, [], ◌∷◌, Bool, true, false, ◌&&◌, ◌≡◌, ◌≢◌, refl, ap, sym, ◌∙◌, arith, if◌then◌else◌,
  bytes_eq, bytes_eq→eq, bytes_eq_refl, bytes_eq-false, length, Bool-cases, inl, inr, ◌⊎◌, Option,
  none, some,
}
use rust_eth_triedb.Encoding.{account_trie_node_key, storage_trie_node_key}
use rust_eth_triedb.Encoding.Keys.{node_keys_injective}
use rust_eth_triedb.DiffLayer.{TrieNode}
use rust_eth_triedb.DiffLayer.Order.{or_else}
use rust_eth_triedb.Maps
use rust_eth_triedb.Maps.{get-insert}
use rust_eth_triedb.NodeSet.{
  NodeSet, MergedNodeSet, diff_node_key, diff_nodes_of, diff_nodes_from, to_diff_nodes,
}

-- No key stands twice in the list of a map.
abbrev pub IsMap {ℓ} : {V : Type ℓ} → List (List ℕ × V) → Type ℓ
IsMap [] = Unit
IsMap ((k, v) ∷ m) = (Maps.get k m ≡ none) × IsMap m

pub or_else-none {ℓ} : {A : Type ℓ} (o : Option A) → or_else o none ≡ o
or_else-none none = refl
or_else-none (some n) = refl

pub or_else_assoc {ℓ} :
    {A : Type ℓ} (a b c : Option A) → or_else a (or_else b c) ≡ or_else (or_else a b) c
or_else_assoc none b c = refl
or_else_assoc (some x) b c = refl

and-false : (b : Bool) → (b && false) ≡ false
and-false true = refl
and-false false = refl

-- The sets of a merged set are those of their owners, hashes of 32 bytes.
abbrev pub IsMerged : MergedNodeSet → Type 0
IsMerged [] = Unit {0}
IsMerged ((owner, set) ∷ sets) =
    (length owner ≡ 32) × (Maps.get owner sets ≡ none) × IsMap (set.nodes) × IsMerged sets

abbrev nodes_at : List ℕ → Option NodeSet → Option TrieNode
nodes_at path none = none
nodes_at path (some set) = Maps.get path (set.nodes)

-- The node that a merged set has for an owner and a path.
abbrev pub node_of : List ℕ → List ℕ → MergedNodeSet → Option TrieNode
node_of owner path sets = nodes_at path (Maps.get owner sets)

-- An entry of the same key is not behind the first.
entry_first :
    {A : Type 0} (c b : Bool) (behind old : Option A) (x : A)
    → (b ≡ true → behind ≡ none)
    → or_else (if c then behind else none) (if c && b then some x else old)
      ≡ or_else (if c then (if b then some x else behind) else none) old
entry_first false b behind old x h = refl
entry_first true false behind old x h = refl
entry_first true true behind old x h = rw (h refl) refl

module _ (zero_hash : List ℕ) where
  -- Different owners or paths have different keys.
  diff_node_key-injective :
      (o r p q : List ℕ)
      → length o ≡ 32
      → length r ≡ 32
      → bytes_eq (diff_node_key zero_hash o p) (diff_node_key zero_hash r q)
        ≡ (bytes_eq o r && bytes_eq p q)
  unfolding diff_node_key
  diff_node_key-injective o r p q h h' =
      let keys : (p q : List ℕ) (o r : List ℕ)
          → length o ≡ length r
          → (account_trie_node_key p ≢ storage_trie_node_key o q)
            × (bytes_eq (account_trie_node_key p) (account_trie_node_key q) ≡ bytes_eq p q)
            × (bytes_eq (storage_trie_node_key o p) (storage_trie_node_key r q)
                ≡ (bytes_eq o r && bytes_eq p q)) =
        node_keys_injective in
      elim (Bool-cases (bytes_eq o zero_hash)) [
        | inl e ↦ elim (Bool-cases (bytes_eq r zero_hash)) [
          | inl e' ↦
              rw
                (
                  e,
                  e',
                  bytes_eq→eq o zero_hash e,
                  bytes_eq→eq r zero_hash e',
                  bytes_eq_refl zero_hash,
                )
                ((keys p q o r (omega arith)).1)
          | inr e' ↦ rw (e, e', apart o r e e') (bytes_eq-false _ _ (keys p q r r refl).0)
        ]
        | inr e ↦ elim (Bool-cases (bytes_eq r zero_hash)) [
          | inl e' ↦
              rw (e, e', apart' o r e e') (bytes_eq-false _ _ (λ x. (keys q p o o refl).0 (sym x)))
          | inr e' ↦ rw (e, e') ((keys p q o r (omega arith)).2)
        ]
      ]
    where
      apart :
          (o r : List ℕ)
          → bytes_eq o zero_hash ≡ true
          → bytes_eq r zero_hash ≡ false
          → bytes_eq o r ≡ false
      apart o r e e' = bytes_eq-false o r (λ x. cc)

      apart' :
          (o r : List ℕ)
          → bytes_eq o zero_hash ≡ false
          → bytes_eq r zero_hash ≡ true
          → bytes_eq o r ≡ false
      apart' o r e e' = bytes_eq-false o r (λ x. cc)

  diff_nodes_of-get :
      (o r p : List ℕ) (nodes acc : List (List ℕ × TrieNode))
      → length o ≡ 32
      → length r ≡ 32
      → IsMap nodes
      → Maps.get (diff_node_key zero_hash r p) (diff_nodes_of zero_hash o nodes acc)
        ≡ or_else
            (if bytes_eq o r then Maps.get p nodes else none)
            (Maps.get (diff_node_key zero_hash r p) acc)
  unfolding diff_nodes_of Maps.get
  diff_nodes_of-get o r p [] acc h h' u = elim (Bool-cases (bytes_eq o r)) [
    | inl e ↦ rw e refl
    | inr e ↦ rw e refl
  ]
  diff_nodes_of-get o r p ((q, node) ∷ nodes) acc h h' (new, u) =
      diff_nodes_of-get o r p nodes (Maps.insert (diff_node_key zero_hash o q) node acc) h h' u
      ∙ ap (or_else (if bytes_eq o r then Maps.get p nodes else none)) (
          get-insert (diff_node_key zero_hash o q) (diff_node_key zero_hash r p) node acc
          ∙ ap (λ c. if c then some node else Maps.get (diff_node_key zero_hash r p) acc)
              (diff_node_key-injective o r q p h h'))
      ∙ entry_first (bytes_eq o r) (bytes_eq q p) (Maps.get p nodes)
          (Maps.get (diff_node_key zero_hash r p) acc) node
          (λ e. ap (λ x. Maps.get x nodes) (sym (bytes_eq→eq q p e)) ∙ new)

  -- The sets of the owners that come later in the list win, but no owner comes twice.
  diff_nodes_from-get :
      (sets : MergedNodeSet) (acc : List (List ℕ × TrieNode)) (r p : List ℕ)
      → IsMerged sets
      → length r ≡ 32
      → Maps.get (diff_node_key zero_hash r p) (diff_nodes_from zero_hash sets acc)
        ≡ or_else (node_of r p sets) (Maps.get (diff_node_key zero_hash r p) acc)
  unfolding diff_nodes_from Maps.get
  diff_nodes_from-get [] acc r p m h = refl
  diff_nodes_from-get ((o, set) ∷ sets) acc r p (l, new, u, m) h =
      diff_nodes_from-get sets (diff_nodes_of zero_hash o (set.nodes) acc) r p m h
      ∙ ap (or_else (node_of r p sets)) (diff_nodes_of-get o r p (set.nodes) acc l h u)
      ∙ or_else_assoc (node_of r p sets) (if bytes_eq o r then Maps.get p (set.nodes) else none) _
      ∙ ap (λ x. or_else x (Maps.get (diff_node_key zero_hash r p) acc))
          (this_owner (Bool-cases (bytes_eq o r)))
    where
      this_owner :
          ((bytes_eq o r ≡ true) ⊎ (bytes_eq o r ≡ false))
          → or_else (node_of r p sets) (if bytes_eq o r then Maps.get p (set.nodes) else none)
            ≡ node_of r p ((o, set) ∷ sets)
      this_owner (inl e) = rw e (
          ap (λ x. or_else (nodes_at p x) (Maps.get p (set.nodes)))
            (ap (λ x. Maps.get x sets) (sym (bytes_eq→eq o r e)) ∙ new))
      this_owner (inr e) = rw e (or_else-none (node_of r p sets))

  -- In the difflayer of merged node sets, whose owners are of 32 bytes and distinct and whose
  -- paths are distinct within a set, the key of an owner of 32 bytes and a path leads to the
  -- node that the set of the owner has at the path, or to none: no two nodes share a key,
  -- whether of the account trie or of storage tries.
  pub to_diff_nodes-get :
      (sets : MergedNodeSet) (owner path : List ℕ)
      → IsMerged sets
      → length owner ≡ 32
      → Maps.get (diff_node_key zero_hash owner path) (to_diff_nodes zero_hash sets)
        ≡ node_of owner path sets
  unfolding to_diff_nodes Maps.get
  to_diff_nodes-get sets owner path m h =
      diff_nodes_from-get sets [] owner path m h ∙ or_else-none (node_of owner path sets)
