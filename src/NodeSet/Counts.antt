-- ===== src/NodeSet/Counts.antt =====
-- The counters of a node set, while its nodes are added once.
use rust_eth_triedb.Common.{
  ℕ, ◌+◌, List, [], ◌∷◌, ◌++◌, Bool, true, false, ◌≡◌, refl, ap, sym, ◌∙◌, arith, if◌then◌else◌,
  bytes_eq, bytes_eq_refl, bytes_eq-false, Bool-cases, inl, inr, Option, none, some, ok,
}
use rust_eth_triedb.DiffLayer.{TrieNode, is_deleted}
use rust_eth_triedb.Maps
use rust_eth_triedb.Maps.{get-insert}
use rust_eth_triedb.NodeSet.{NodeSet, add_node, merge_set}
use rust_eth_triedb.NodeSet.Laws.{IsMap}

abbrev pub one_of : Bool → Bool → ℕ
one_of true true = 1
one_of false false = 1
one_of true false = 0
one_of false true = 0

-- The number of nodes that are deleted, or that are not.
abbrev pub count : Bool → List (List ℕ × TrieNode) → ℕ
count b [] = 0
count b ((path, node) ∷ nodes) = count b nodes + one_of (is_deleted node) b

-- The counters are those of the nodes that the set has.
abbrev pub IsCounted : NodeSet → Type 0
IsCounted set =
    IsMap (set.nodes)
    × (set.updates ≡ count false (set.nodes))
    × (set.deletes ≡ count true (set.nodes))

-- The first map has no key of the second.
abbrev pub IsDisjoint : List (List ℕ × TrieNode) → List (List ℕ × TrieNode) → Type 0
IsDisjoint m [] = Unit {0}
IsDisjoint m ((k, v) ∷ n) = (Maps.get k m ≡ none) × IsDisjoint m n

pub not_first :
    (c : Bool) (v : TrieNode) (o : Option TrieNode)
    → (if c then some v else o) ≡ none
    → (c ≡ false) × (o ≡ none)
not_first true v o h = cc
not_first false v o h = (refl, h)

pub bytes_eq-sym : (a b : List ℕ) → bytes_eq a b ≡ false → bytes_eq b a ≡ false
bytes_eq-sym a b e = bytes_eq-false b a (λ x. ground (arith, bytes_eq_refl a, bytes_eq_refl b))

get-insert-other :
    (k j : List ℕ) (v : TrieNode) (m : List (List ℕ × TrieNode))
    → bytes_eq k j ≡ false
    → Maps.get j m ≡ none
    → Maps.get j (Maps.insert k v m) ≡ none
get-insert-other k j v m e h = get-insert k j v m ∙ rw e h

insert-IsMap :
    (k : List ℕ) (v : TrieNode) (m : List (List ℕ × TrieNode))
    → Maps.get k m ≡ none
    → IsMap m
    → IsMap (Maps.insert k v m)
unfolding Maps.get Maps.insert
insert-IsMap k v [] h u = (refl, tt)
insert-IsMap k v ((j, w) ∷ m) h (new, u) =
    let (e, h') = not_first (bytes_eq j k) w (Maps.get k m) h in
    rw e (get-insert-other k j v m (bytes_eq-sym j k e) new, insert-IsMap k v m h' u)

count-insert :
    (b : Bool) (k : List ℕ) (v : TrieNode) (m : List (List ℕ × TrieNode))
    → Maps.get k m ≡ none
    → count b (Maps.insert k v m) ≡ count b m + one_of (is_deleted v) b
unfolding Maps.get Maps.insert
count-insert b k v [] h = omega arith
count-insert b k v ((j, w) ∷ m) h =
    let (e, h') = not_first (bytes_eq j k) w (Maps.get k m) h in
    rw e (omega (arith, count-insert b k v m h'))

insert-IsDisjoint :
    (k : List ℕ) (v : TrieNode) (m n : List (List ℕ × TrieNode))
    → Maps.get k n ≡ none
    → IsDisjoint m n
    → IsDisjoint (Maps.insert k v m) n
unfolding Maps.get
insert-IsDisjoint k v m [] h d = tt
insert-IsDisjoint k v m ((j, w) ∷ n) h (new, d) =
    let (e, h') = not_first (bytes_eq j k) w (Maps.get k n) h in
    (get-insert-other k j v m (bytes_eq-sym j k e) new, insert-IsDisjoint k v m n h' d)

extend-counts :
    (m n : List (List ℕ × TrieNode))
    → IsMap m
    → IsMap n
    → IsDisjoint m n
    → IsMap (Maps.extend m n)
      × (count false (Maps.extend m n) ≡ count false m + count false n)
      × (count true (Maps.extend m n) ≡ count true m + count true n)
unfolding Maps.extend
extend-counts m [] u u' d = (u, omega arith, omega arith)
extend-counts m ((k, v) ∷ n) u (new, u') (absent, d) =
    let (u'', live, dead) =
      extend-counts (Maps.insert k v m) n (insert-IsMap k v m absent u) u'
        (insert-IsDisjoint k v m n new d) in
    (
      u'',
      omega (arith, live, count-insert false k v m absent),
      omega (arith, dead, count-insert true k v m absent),
    )

-- A node that is added at a path that the set does not have is counted as an update or as a
-- deletion, so that the counters stay those of the nodes.
add_node-IsCounted :
    (path : List ℕ) (node : TrieNode) (set : NodeSet)
    → IsCounted set
    → Maps.get path (set.nodes) ≡ none
    → IsCounted (add_node path node set)
unfolding add_node
add_node-IsCounted path node set (u, live, dead) new = elim (Bool-cases (is_deleted node)) [
  | inl e ↦ rw e (
    insert-IsMap path node (set.nodes) new u,
    omega (arith, live, added true e false),
    omega (arith, dead, added true e true),
  )
  | inr e ↦ rw e (
    insert-IsMap path node (set.nodes) new u,
    omega (arith, live, added false e false),
    omega (arith, dead, added false e true),
  )
]
  where
    added :
        (c : Bool)
        → is_deleted node ≡ c
        → (b : Bool)
        → count b (Maps.insert path node (set.nodes)) ≡ count b (set.nodes) + one_of c b
    added c e b =
        count-insert b path node (set.nodes) new ∙ ap (λ x. count b (set.nodes) + one_of x b) e

-- The set after the merge.
abbrev merged_with : NodeSet → NodeSet → NodeSet
merged_with other set = record set {
  nodes = Maps.extend set.nodes other.nodes;
  leaves = set.leaves ++ other.leaves;
  updates = set.updates + other.updates;
  deletes = set.deletes + other.deletes;
}

-- When two node sets of one owner have no path in common and count their updates and their
-- deletions rightly, `merge_set` succeeds; the merged set has the nodes of both and counts them
-- rightly.
pub merge_set-IsCounted :
    (set other : NodeSet)
    → set.owner ≡ other.owner
    → IsCounted set
    → IsCounted other
    → IsDisjoint (set.nodes) (other.nodes)
    → (merged : NodeSet) × (merge_set set other ≡ ok merged)
      × IsCounted merged
      × (merged.nodes ≡ Maps.extend (set.nodes) (other.nodes))
unfolding merge_set
merge_set-IsCounted set other same (u, live, dead) (u', live', dead') d =
    let owners : bytes_eq set.owner other.owner ≡ true =
      ap (bytes_eq set.owner) (sym same) ∙ bytes_eq_refl set.owner in
    let (all, live'', dead'') = extend-counts (set.nodes) (other.nodes) u u' d in
    (
      merged_with other set,
      rw owners refl,
      (all, omega (arith, live, live', live''), omega (arith, dead, dead', dead'')),
      refl,
    )
