-- ===== src/Examples/Runs.antt =====
-- Runs of a trie, and the hasher, at concrete inputs.
use rust_eth_triedb.Common.{
  ℕ, zero, suc, ◌+◌, ◌%◌, List, [], ◌∷◌, true, false, ◌≡◌, refl, arith, length, Option, none, some,
  ok, inl, replicate, get_or,
}
use rust_eth_triedb.Encoding.{key_to_nibbles}
use rust_eth_triedb.Node.{Node, Nodes, new_flag}
use rust_eth_triedb.Encoding.{hex_to_compact, has_term}
use rust_eth_triedb.Rlp.{write_bytes}
use rust_eth_triedb.Rlp.Lists.{list_form}
use rust_eth_triedb.Node.Decode.{clean_flag, decode_node}
use rust_eth_triedb.Node.Encode.{encode, node_to_bytes}
use rust_eth_triedb.Node.Compacted.{compacted, reflagged, AreChildren, IsEmbedded}
use rust_eth_triedb.Node.RoundTrip.{decode_node-node_to_bytes}
use rust_eth_triedb.Hasher.{hash_node}
use rust_eth_triedb.Hasher.Parallel.{hash_node-parallel}
use rust_eth_triedb.Trie.{Trie, get, delete, update}
use rust_eth_triedb.Trie.Tree.{Tree}
use rust_eth_triedb.Trie.Tree.Remove.{remove}
use rust_eth_triedb.Trie.Represents.Defs.{Represents}
use rust_eth_triedb.Trie.Updates.{IsTrieOf, value_at, get-value_at}
use rust_eth_triedb.Trie.Runs.{
  Call, read, write, erase, run, map_replies, run-map_replies, IsChanged, delete-remove,
}
use rust_eth_triedb.NodeSet.{NodeSet}
use rust_eth_triedb.Trie.Commit as Commit
use rust_eth_triedb.Trie.Commit.{commit-hash}
use rust_eth_triedb.Trie.Hash as Hash
use rust_eth_triedb.Trie.Hash.{hash-IsTrieOf}
use rust_eth_triedb.Examples.{empty_trie, empty_trie-IsTrieOf}

-- A key is written, read, deleted and read, and another is written with an empty value.
abbrev some_calls : List Call
some_calls =
    write (0x12 ∷ []) (1 ∷ [])
    ∷ write (0x13 ∷ []) (2 ∷ [])
    ∷ read (0x12 ∷ [])
    ∷ erase (0x12 ∷ [])
    ∷ read (0x12 ∷ [])
    ∷ write (0x13 ∷ []) []
    ∷ read (0x13 ∷ [])
    ∷ []

run-map_replies_example :
    (run 8 some_calls empty_trie).0 ≡ ok (map_replies some_calls (value_at Tree.empty))
run-map_replies_example = run-map_replies 8 some_calls empty_trie Tree.empty empty_trie-IsTrieOf (
  ((omega arith, tt), omega arith),
  (
    ((omega arith, tt), omega arith),
    (
      ((omega arith, tt), omega arith),
      (
        ((omega arith, tt), omega arith),
        (
          ((omega arith, tt), omega arith),
          (((omega arith, tt), omega arith), (((omega arith, tt), omega arith), tt)),
        ),
      ),
    ),
  ),
)

-- A trie of one leaf.
abbrev pub leaf_trie : Trie
leaf_trie = record empty_trie {
  root = Node.short (1 ∷ 2 ∷ 16 ∷ []) (Node.value (7 ∷ [])) new_flag;
  unhashed = 1;
  uncommitted = 1;
}

abbrev pub leaf_tree : Tree
leaf_tree = Tree.short (1 ∷ 2 ∷ 16 ∷ []) (Tree.value (7 ∷ []))

pub leaf_trie-IsTrieOf : IsTrieOf leaf_trie leaf_tree
leaf_trie-IsTrieOf = (
  refl,
  Represents.short (Represents.value (7 ∷ [])),
  (true, (λ e. cc), (omega arith, (omega arith, refl)), tt),
)

get-value_at_example :
    ((get 8 (0x12 ∷ []) leaf_trie).0 ≡ ok (value_at leaf_tree (0x12 ∷ [])))
    × IsTrieOf (get 8 (0x12 ∷ []) leaf_trie).1 leaf_tree
get-value_at_example =
    get-value_at 8 (0x12 ∷ []) leaf_trie leaf_tree leaf_trie-IsTrieOf (omega arith, tt)
      (omega arith)

delete-remove_example :
    IsChanged leaf_trie
      (remove leaf_tree (key_to_nibbles (0x12 ∷ [])))
      (delete 8 (0x12 ∷ []) leaf_trie)
    × IsChanged leaf_trie
        (remove leaf_tree (key_to_nibbles (0x12 ∷ [])))
        (update 8 (0x12 ∷ []) [] leaf_trie)
delete-remove_example =
    delete-remove 8 (0x12 ∷ []) leaf_trie leaf_tree leaf_trie-IsTrieOf (omega arith, tt)
      (omega arith)

-- A hash of 32 bytes, and a header of one.
abbrev pub first_byte : List ℕ → List ℕ
first_byte b = replicate 32 (get_or b 0 0 % 256)

abbrev pub list_tag : ℕ → List ℕ
list_tag n = (0xC0 + n) ∷ []

pub length-replicate : (n x : ℕ) → length (replicate n x) ≡ n
length-replicate zero x = refl
length-replicate (suc n) x = omega (arith, length-replicate n x)

abbrev two_children : Node
two_children =
    Node.full
      (Nodes.cons Node.empty (
        Nodes.cons (Node.short (16 ∷ []) (Node.value (1 ∷ [])) new_flag)
          (Nodes.cons (Node.hash (9 ∷ [])) Nodes.nil)))
      new_flag

hash_node-parallel_example :
    hash_node first_byte list_tag true true two_children
    ≡ hash_node first_byte list_tag false true two_children
hash_node-parallel_example = hash_node-parallel first_byte list_tag true two_children

hash-IsTrieOf_example :
    (h : List ℕ) × (trie' : Trie) × (Hash.hash first_byte list_tag (1 ∷ []) leaf_trie
      ≡ some (h, trie'))
    × IsTrieOf trie' leaf_tree
    × (Hash.hash first_byte list_tag (1 ∷ []) trie' ≡ some (h, trie'))
hash-IsTrieOf_example =
    hash-IsTrieOf first_byte list_tag (1 ∷ []) (λ b. length-replicate 32 (get_or b 0 0 % 256))
      leaf_trie leaf_tree leaf_trie-IsTrieOf (tt, omega arith, omega arith)

commit-hash_example :
    (h : List ℕ) × (hashed : Trie) × (set : Option NodeSet) × (trie' : Trie) × (Hash.hash first_byte
        list_tag
        (1 ∷ [])
        leaf_trie
      ≡ some (h, hashed))
    × (Commit.commit first_byte list_tag (1 ∷ []) (λ sets. sets) true leaf_trie
        ≡ some ((h, set), trie'))
    × (trie'.root ≡ Node.hash h)
    × (trie'.committed ≡ true)
    × (Commit.commit first_byte list_tag (1 ∷ []) (λ sets. sets) true trie' ≡ none)
commit-hash_example =
    commit-hash first_byte list_tag (1 ∷ []) (λ sets. sets)
      (λ b. length-replicate 32 (get_or b 0 0 % 256)) (λ owner sets all. all) true leaf_trie
      leaf_tree leaf_trie-IsTrieOf (tt, omega arith, omega arith) tt

-- A full node with a leaf inside, a hash and a value.
abbrev inner_leaf : Node
inner_leaf = Node.short (5 ∷ 16 ∷ []) (Node.value (7 ∷ [])) (clean_flag none)

abbrev behind : ℕ → Nodes
behind zero = Nodes.cons (Node.value (8 ∷ [])) Nodes.nil
behind (suc n) = Nodes.cons Node.empty (behind n)

behind-AreChildren : (n : ℕ) → AreChildren list_form n (behind n)
behind-AreChildren zero = (refl, omega arith)
behind-AreChildren (suc n) = (tt, behind-AreChildren n)

abbrev branch : Node
branch =
    Node.full (Nodes.cons inner_leaf (Nodes.cons (Node.hash (replicate 32 9)) (behind 14))) new_flag

inner_leaf-IsEmbedded : IsEmbedded list_form inner_leaf
unfolding encode hex_to_compact list_form write_bytes
inner_leaf-IsEmbedded = (_, refl, omega arith)

decode_node-node_to_bytes_example :
    (out : List ℕ) × (node_to_bytes list_form (compacted branch) ≡ some out)
    × (decode_node (some (1 ∷ [])) out ≡ ok (reflagged (some (1 ∷ [])) branch))
unfolding has_term
decode_node-node_to_bytes_example =
    decode_node-node_to_bytes list_form (λ n h. refl) (some (1 ∷ [])) branch
      (
        (
          refl,
          ((omega arith, omega arith), omega arith, inl (refl, omega arith)),
          inner_leaf-IsEmbedded,
        ),
        (length-replicate 32 9, behind-AreChildren 14),
      )
