-- ===== src/Trie/Updates.antt =====
-- `get` and `update` of state-trie/src/trie.rs, on a trie that stands for a tree of values.
use rust_eth_triedb.Common.{
  ℕ, ◌+◌, ◌*◌, ◌≤◌, List, [], ◌∷◌, Bool, true, false, ◌≡◌, ◌≢◌, refl, ap, sym, ◌∙◌, arith, length,
  length-append, Option, some, ok, Bool-cases, inl, inr, bytes_eq, bytes_eq→eq, bytes_eq_refl,
  bytes_eq-false, if◌then◌else◌, is_empty, All,
}
use rust_eth_triedb.Encoding.{nibbles_of, key_to_nibbles, hex_to_keybytes}
use rust_eth_triedb.Encoding.Terminator.{IsByte}
use rust_eth_triedb.Encoding.Keys.{hex_to_keybytes-key_to_nibbles, length-nibbles_of}
use rust_eth_triedb.Node.{Node}
use rust_eth_triedb.Trie.{Trie, get, update}
use rust_eth_triedb.Trie.Resolve.{TrieEnv}
use rust_eth_triedb.Trie.Tree.{Tree, lookup, insert}
use rust_eth_triedb.Trie.Tree.Keys.{key_to_nibbles-IsKey}
use rust_eth_triedb.Trie.Tree.Shape.{IsWf}
use rust_eth_triedb.Trie.Tree.Insert.{lookup-insert}
use rust_eth_triedb.Trie.Tree.InsertWf.{insert-IsWf}
use rust_eth_triedb.Trie.Represents.Defs.{Represents}
use rust_eth_triedb.Trie.Represents.Children.{need-bounds}
use rust_eth_triedb.Trie.Represents.Read.{get_internal-Reads}
use rust_eth_triedb.Trie.Represents.Write.{insert_internal-Writes}

-- The trie is open, and its root stands for a well-formed tree.
abbrev pub IsTrieOf : Trie → Tree → Type 0
IsTrieOf trie t = (trie.committed ≡ false) × Represents trie.env [] trie.root t × IsWf false t

-- What the trie holds at a key.
abbrev pub value_at : Tree → List ℕ → Option (List ℕ)
value_at t key = lookup t (key_to_nibbles key)

pub length-key_to_nibbles : (key : List ℕ) → length (key_to_nibbles key) ≡ 2 * length key + 1
unfolding key_to_nibbles
length-key_to_nibbles key =
    omega (arith, length-nibbles_of key, length-append (nibbles_of key) (16 ∷ []))

kept_root :
    (env : TrieEnv) (old n : Node) (t : Tree) (b : Bool)
    → Represents env [] old t
    → Represents env [] n t
    → Represents env [] (if b then n else old) t
kept_root env old n t true r r' = r'
kept_root env old n t false r r' = r

-- On an open trie whose root stands for a well-formed tree, `get` of a key of bytes succeeds,
-- with fuel of four for each byte and four more, and returns what the tree holds; the trie
-- afterwards, in which hashes may be resolved, stands for the same tree.
pub get-value_at :
    (fuel : ℕ) (key : List ℕ) (trie : Trie) (t : Tree)
    → IsTrieOf trie t
    → All IsByte key
    → 4 * length key + 4 ≤ fuel
    → ((get fuel key trie).0 ≡ ok (value_at t key)) × IsTrieOf (get fuel key trie).1 t
unfolding get
get-value_at fuel key trie t (open_, rep, wf) bytes m =
    let path = key_to_nibbles-IsKey key bytes in
    let (n, b, tr, run, rep') =
      get_internal-Reads fuel trie.env rep false (key_to_nibbles key) (key_to_nibbles key) 0 wf path
        (omega (arith, need-bounds (trie.root) (key_to_nibbles key), length-key_to_nibbles key))
        refl refl trie.tracer in
    rw (open_, run) (refl, (refl, kept_root trie.env trie.root n t b rep rep', wf))

-- An update of an open trie whose root stands for a well-formed tree, with a key of bytes, a
-- value that is not empty and fuel of four for each byte and four more, succeeds; the trie then
-- stands for the tree with the value inserted, which is well-formed again, and both counters
-- advance by one.
pub update-insert :
    (fuel : ℕ) (key val : List ℕ) (trie : Trie) (t : Tree)
    → IsTrieOf trie t
    → All IsByte key
    → is_empty val ≡ false
    → 4 * length key + 4 ≤ fuel
    → ((update fuel key val trie).0 ≡ ok tt)
      × IsTrieOf (update fuel key val trie).1 (insert t (key_to_nibbles key) val)
      × ((update fuel key val trie).1.unhashed ≡ trie.unhashed + 1)
      × ((update fuel key val trie).1.uncommitted ≡ trie.uncommitted + 1)
unfolding update
update-insert fuel key val trie t (open_, rep, wf) bytes filled m =
    let path = key_to_nibbles-IsKey key bytes in
    let (dirty, n, tr, run, rep', same) =
      insert_internal-Writes fuel trie.env rep false (key_to_nibbles key) val wf path
        (omega (arith, need-bounds (trie.root) (key_to_nibbles key), length-key_to_nibbles key))
        trie.tracer in
    rw (open_, filled, run)
      (refl, (refl, rep', insert-IsWf t false (key_to_nibbles key) val wf path), refl, refl)

unwrapped : {a b : List ℕ} → some a ≡ some b → a ≡ b
unwrapped e = cc

-- Different keys have different nibbles.
pub same_key :
    (key key' : List ℕ)
    → All IsByte key
    → All IsByte key'
    → bytes_eq (key_to_nibbles key) (key_to_nibbles key') ≡ bytes_eq key key'
same_key key key' h h' = elim (Bool-cases (bytes_eq key key')) [
  | inl e ↦ rw (bytes_eq→eq key key' e, bytes_eq_refl (key_to_nibbles key'), bytes_eq_refl key')
  | inr e ↦ rw (
    e,
    bytes_eq-false (key_to_nibbles key) (key_to_nibbles key') (λ p. distinct e (
        unwrapped (
          sym (hex_to_keybytes-key_to_nibbles key h)
          ∙ ap hex_to_keybytes p
          ∙ hex_to_keybytes-key_to_nibbles key' h'))),
  )
]
  where
    distinct : bytes_eq key key' ≡ false → key ≢ key'
    distinct e p = ground (arith, bytes_eq_refl key')

-- After an update the tree returns the new value at its key, and at other keys what it returned.
pub value_at-insert :
    (t : Tree) (key key' val : List ℕ)
    → IsWf false t
    → All IsByte key
    → All IsByte key'
    → value_at (insert t (key_to_nibbles key) val) key'
      ≡ (if bytes_eq key key' then some val else value_at t key')
value_at-insert t key key' val wf h h' =
    lookup-insert t (key_to_nibbles key) (key_to_nibbles key') val wf (key_to_nibbles-IsKey key h)
      (key_to_nibbles-IsKey key' h')
    ∙ ap (λ b. if b then some val else value_at t key') (same_key key key' h h')
