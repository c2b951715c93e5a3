-- ===== src/NodeSet/Signature.antt =====
-- The signature of state-trie/src/node/node_set.rs, a digest of a node set; keccak256 is a function
-- of another crate.
use rust_eth_triedb.Common.{
  ℕ, zero, suc, ◌/◌, ◌%◌, ◌^◌, List, [], ◌∷◌, ◌++◌, Bool, true, false, ◌≡◌, refl, ap, sym, ◌∙◌,
  arith, if◌then◌else◌, bytes_eq, bytes_eq→eq, bytes_eq_refl, Option, none, some,
}
use mathlib.Core.List.{Memᴰ, Permᴰ}
use rust_eth_triedb.DiffLayer.{TrieNode, Leaf}
use rust_eth_triedb.Maps
use rust_eth_triedb.NodeSet.{NodeSet}
use rust_eth_triedb.NodeSet.Laws.{IsMap}
use rust_eth_triedb.NodeSet.Sorting.{
  IsOrdered, sort_by, bytes_le, bytes_le_total, bytes_le_trans, bytes_le_antisymm, sort_by-Perm,
}

-- `to_be_bytes` of a `u64`.
unfoldable pub be_bytes : ℕ → ℕ → List ℕ
be_bytes zero n = []
be_bytes (suc width) n = (n / 256 ^ width) % 256 ∷ be_bytes width n

-- The order of the leaves: by parent, then by blob.
unfoldable pub leaf_le : Leaf → Leaf → Bool
leaf_le a b =
    if bytes_eq a.parent b.parent then bytes_le a.blob b.blob else bytes_le a.parent b.parent

-- The order of the nodes: by path.
abbrev pub entry_le : List ℕ × TrieNode → List ℕ × TrieNode → Bool
entry_le a b = bytes_le a.0 b.0

-- The loop over the sorted leaves.
unfoldable pub leaf_bytes : List Leaf → List ℕ
leaf_bytes [] = []
leaf_bytes (leaf ∷ leaves) = leaf.parent ++ leaf.blob ++ leaf_bytes leaves

-- A field that is there, after a byte 1.
unfoldable pub field_bytes : Option (List ℕ) → List ℕ
field_bytes none = []
field_bytes (some h) = 1 ∷ h

-- The loop over the sorted nodes.
unfoldable pub entry_bytes : List (List ℕ × TrieNode) → List ℕ
unfolding field_bytes
entry_bytes [] = []
entry_bytes ((path, node) ∷ nodes) =
    path ++ field_bytes node.hash ++ field_bytes node.blob ++ entry_bytes nodes

module _ (keccak256 : List ℕ → List ℕ) where
  unfoldable pub signature : NodeSet → List ℕ
  unfolding sort_by leaf_le leaf_bytes entry_bytes be_bytes
  signature set = keccak256 (
      set.owner
      ++ leaf_bytes (sort_by leaf_le set.leaves)
      ++ entry_bytes (sort_by entry_le set.nodes)
      ++ be_bytes 8 (set.updates % 2 ^ 64)
      ++ be_bytes 8 (set.deletes % 2 ^ 64))

leaf_le_total : (a b : Leaf) → leaf_le a b ≡ false → leaf_le b a ≡ true
unfolding leaf_le
leaf_le_total a b h = ground (
  arith,
  bytes_eq→eq a.parent b.parent,
  bytes_eq→eq b.parent a.parent,
  bytes_eq_refl a.parent,
  bytes_le_total a.parent b.parent,
  bytes_le_total a.blob b.blob,
)

leaf_le_trans : (a b c : Leaf) → leaf_le a b ≡ true → leaf_le b c ≡ true → leaf_le a c ≡ true
unfolding leaf_le
leaf_le_trans a b c h g = ground (
  arith,
  bytes_eq→eq a.parent b.parent,
  bytes_eq→eq b.parent c.parent,
  bytes_eq→eq a.parent c.parent,
  bytes_eq_refl a.parent,
  bytes_eq_refl c.parent,
  bytes_le_antisymm a.parent b.parent,
  bytes_le_trans a.parent b.parent c.parent,
  bytes_le_trans a.blob b.blob c.blob,
)

leaf-eq : (a b : Leaf) → a.parent ≡ b.parent → a.blob ≡ b.blob → a ≡ b
leaf-eq a b p q =
    ap (λ x. record { blob = a.blob; parent = x }) p
    ∙ ap (λ x. record { blob = x; parent = b.parent }) q

leaf_le_antisymm : (a b : Leaf) → leaf_le a b ≡ true → leaf_le b a ≡ true → a ≡ b
unfolding leaf_le
leaf_le_antisymm a b h g = leaf-eq a b parents blobs
  where
    parents : a.parent ≡ b.parent
    parents = ground (
      arith,
      bytes_eq→eq a.parent b.parent,
      bytes_eq→eq b.parent a.parent,
      bytes_le_antisymm a.parent b.parent,
    )

    blobs : a.blob ≡ b.blob
    blobs = ground (
      arith,
      parents,
      bytes_eq_refl a.parent,
      bytes_eq_refl b.parent,
      bytes_le_antisymm a.blob b.blob,
    )

-- Two entries of a map with the same path are one entry.
get-Mem :
    {a : List ℕ × TrieNode} {m : List (List ℕ × TrieNode)}
    → Memᴰ a m
    → IsMap m
    → Maps.get (a.0) m ≡ some (a.1)
unfolding Maps.get
get-Mem {m = []} i u = elim i [ ]
get-Mem {m = (k, v) ∷ m} (Memᴰ.head e) u =
    ap (λ x. Maps.get (x.0) ((k, v) ∷ m)) e ∙ here ∙ ap (λ x. some (x.1)) (sym e)
  where
    here : (if bytes_eq k k then some v else Maps.get k m) ≡ some v
    here = rw (bytes_eq_refl k) refl
get-Mem {a} {m = (k, v) ∷ m} (Memᴰ.tail i) (new, u) =
    ground (arith, bytes_eq→eq k (a.0), get-Mem i u, new)

IsMap-IsOrdered : (m : List (List ℕ × TrieNode)) → IsMap m → IsOrdered entry_le m
IsMap-IsOrdered m u a b i j h g = λ n. (same_path n, same_node n)
  where
    or_node : TrieNode → Option TrieNode → TrieNode
    or_node v none = v
    or_node v (some w) = w

    same_path : a.0 ≡ b.0
    same_path = bytes_le_antisymm (a.0) (b.0) h g

    same_node : a.1 ≡ b.1
    same_node =
        ap (or_node (a.1)) (sym (get-Mem i u) ∙ ap (λ k. Maps.get k m) same_path ∙ get-Mem j u)

module _ (keccak256 : List ℕ → List ℕ) where
  pub signature-Perm :
      (s t : NodeSet)
      → s.owner ≡ t.owner
      → Permᴰ s.leaves t.leaves
      → Permᴰ s.nodes t.nodes
      → IsMap s.nodes
      → s.updates ≡ t.updates
      → s.deletes ≡ t.deletes
      → signature keccak256 s ≡ signature keccak256 t
  unfolding signature
  signature-Perm s t owner leaves nodes u updates deletes =
      rw
        (
          owner,
          updates,
          deletes,
          sort_by-Perm leaf_le leaf_le_total leaf_le_trans leaves (λ a b _ _. leaf_le_antisymm a b),
          sort_by-Perm entry_le (λ a b. bytes_le_total (a.0) (b.0))
              (λ a b c. bytes_le_trans (a.0) (b.0) (c.0)) nodes (IsMap-IsOrdered s.nodes u),
        )
        refl
