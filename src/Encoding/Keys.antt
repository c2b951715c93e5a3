-- ===== src/Encoding/Keys.antt =====
-- Keys as nibbles and back, common prefixes, and the storage keys of trie nodes.
use rust_eth_triedb.Common.{
  ℕ, suc, ◌+◌, ◌*◌, ◌/◌, ◌%◌, ◌≤◌, List, [], ◌∷◌, ◌++◌, Bool, true, false, ◌≡◌, ◌≢◌, refl, ap, sym,
  length, get_elem?, take, replicate, All, arith, ◌==◌, ◌⊎◌, inl, inr, some, ==_iff, Bool-cases,
  bytes_eq, ◌&&◌,
}
use rust_eth_triedb.Common.Bits.{pack_nibbles}
use rust_eth_triedb.Encoding.{
  common_prefix_length, nibbles_of, key_to_nibbles, decode_nibbles, hex_to_keybytes,
  account_trie_node_key, storage_trie_node_key,
}
use rust_eth_triedb.Encoding.Terminator.{IsNibble, IsByte, has_term-snoc, take-snoc}

pub length-nibbles_of : (key : List ℕ) → length (nibbles_of key) ≡ 2 * length key
unfolding nibbles_of
length-nibbles_of [] = refl
length-nibbles_of (b ∷ key) = omega (arith, length-nibbles_of key)

pub nibbles_of-nibbles : (key : List ℕ) → All IsByte key → All IsNibble (nibbles_of key)
unfolding nibbles_of
nibbles_of-nibbles [] a = tt
nibbles_of-nibbles (b ∷ key) a = (omega arith, (omega arith, nibbles_of-nibbles key a.1))

decode_nibbles-nibbles_of :
    (key : List ℕ)
    → All IsByte key
    → decode_nibbles (nibbles_of key) (replicate (length key) 0) ≡ key
unfolding nibbles_of decode_nibbles
decode_nibbles-nibbles_of [] a = refl
decode_nibbles-nibbles_of (b ∷ key) a =
    let whole : b / 16 * 16 + b % 16 ≡ b = omega arith in
    rw (
      pack_nibbles (b / 16) (b % 16) (omega arith) (omega arith),
      whole,
      decode_nibbles-nibbles_of key a.1,
    )

-- The bytes of a key come back from its nibbles, and the conversion does not panic on them.
pub hex_to_keybytes-key_to_nibbles :
    (key : List ℕ) → All IsByte key → hex_to_keybytes (key_to_nibbles key) ≡ some key
unfolding hex_to_keybytes key_to_nibbles
hex_to_keybytes-key_to_nibbles key a =
    let even : 2 * length key % 2 ≡ 0 = omega arith in
    let half : 2 * length key / 2 ≡ length key = omega arith in
    rw (
      has_term-snoc (nibbles_of key),
      take-snoc (nibbles_of key) 16,
      length-nibbles_of key,
      even,
      half,
      decode_nibbles-nibbles_of key a,
    )

-- `n` is the length of the longest common prefix: the lists agree up to it, and one of them ends
-- there or they differ at the next position.
abbrev pub IsLongestCommon : ℕ → List ℕ → List ℕ → Type 0
IsLongestCommon n a b =
    (take n a ≡ take n b)
    × (n ≤ length a)
    × (n ≤ length b)
    × ((n ≡ length a) ⊎ (n ≡ length b) ⊎ (get_elem? a n ≢ get_elem? b n))

longer : (n x : ℕ) (a b : List ℕ) → IsLongestCommon n a b → IsLongestCommon (suc n) (x ∷ a) (x ∷ b)
longer n x a b (same, la, lb, inl e) =
    (ap (λ l. x ∷ l) same, omega arith, omega arith, inl (ap suc e))
longer n x a b (same, la, lb, inr (inl e)) =
    (ap (λ l. x ∷ l) same, omega arith, omega arith, inr (inl (ap suc e)))
longer n x a b (same, la, lb, inr (inr e)) =
    (ap (λ l. x ∷ l) same, omega arith, omega arith, inr (inr e))

-- `common_prefix_length` of any two slices is the length of their longest common prefix: they
-- agree up to it, and one of them ends there or they differ at the next position.
pub common_prefix_length-longest : (a b : List ℕ) → IsLongestCommon (common_prefix_length a b) a b
unfolding common_prefix_length
common_prefix_length-longest [] b = (refl, omega arith, omega arith, inl refl)
common_prefix_length-longest (x ∷ a) [] = (refl, omega arith, omega arith, inr (inl refl))
common_prefix_length-longest (x ∷ a) (y ∷ b) = elim (Bool-cases (x == y)) [
  | inl e ↦
      let same : y ≡ x = sym ((==_iff x y).0 e) in
      rw (e, same) (longer _ x a b (common_prefix_length-longest a b))
  | inr e ↦ rw e (refl, omega arith, omega arith, inr (inr (λ p. ground arith)))
]

and_assoc : (a b c : Bool) → (a && (b && c)) ≡ ((a && b) && c)
and_assoc true b c = refl
and_assoc false b c = refl

bytes_eq-append_append :
    (o r p q : List ℕ)
    → length o ≡ length r
    → bytes_eq (o ++ p) (r ++ q) ≡ (bytes_eq o r && bytes_eq p q)
bytes_eq-append_append [] [] p q l = refl
bytes_eq-append_append [] (y ∷ r) p q l = absurd (omega arith)
bytes_eq-append_append (x ∷ o) [] p q l = absurd (omega arith)
bytes_eq-append_append (x ∷ o) (y ∷ r) p q l =
    rw (bytes_eq-append_append o r p q (omega arith))
      (and_assoc (x == y) (bytes_eq o r) (bytes_eq p q))

-- The node keys of the account trie and of the storage tries are never equal; two account keys
-- are equal exactly when their paths are, and two storage keys, the owners being of one length,
-- exactly when their owners and their paths are.
pub node_keys_injective :
    (p q o r : List ℕ)
    → length o ≡ length r
    → (account_trie_node_key p ≢ storage_trie_node_key o q)
      × (bytes_eq (account_trie_node_key p) (account_trie_node_key q) ≡ bytes_eq p q)
      × (bytes_eq (storage_trie_node_key o p) (storage_trie_node_key r q)
          ≡ (bytes_eq o r && bytes_eq p q))
unfolding account_trie_node_key storage_trie_node_key
node_keys_injective p q o r l = (λ e. ground arith, refl, bytes_eq-append_append o r p q l)
