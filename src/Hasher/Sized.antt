-- ===== src/Hasher/Sized.antt =====
-- Nodes whose byte strings are shorter than 2^56, which can be encoded.
use rust_eth_triedb.Common.{
  ℕ, zero, suc, ◌+◌, ◌-◌, ◌/◌, ◌%◌, ◌^◌, ◌≤◌, ◌<◌, List, [], ◌∷◌, ◌++◌, ◌==◌, ◌≡◌, refl, ap, length,
  drop, take, replicate, Option, none, some, Bool-cases, inl, inr, arith,
}
use mathlib.Core.Option
use rust_eth_triedb.Encoding.{hex_to_compact, pack_compact, decode_nibbles, has_term}
use rust_eth_triedb.Rlp.{write_bytes}
use rust_eth_triedb.Rlp.Strings.{string_form, write_bytes-string_form}
use rust_eth_triedb.Node.{Node, Nodes}
use rust_eth_triedb.Node.Encode.{joined, encode, encode_all}

abbrev pub IsSmall : List ℕ → Type 0
IsSmall b = length b < 2 ^ 56

-- The keys, hashes and values of a node are shorter than 2^56 bytes, cached hashes included.
abbrev pub HasSmall : Option (List ℕ) → Type 0
HasSmall none = Unit {0}
HasSmall (some h) = IsSmall h

abbrev mutual
  pub IsSized : Node → Type 0
  IsSized Node.empty = Unit {0}
  IsSized (Node.full cs flags) = HasSmall (flags.hash) × AreSized cs
  IsSized (Node.short key val flags) = HasSmall (flags.hash) × IsSmall key × IsSized val
  IsSized (Node.hash h) = IsSmall h
  IsSized (Node.value v) = IsSmall v

  pub AreSized : Nodes → Type 0
  AreSized Nodes.nil = Unit {0}
  AreSized (Nodes.cons c cs) = IsSized c × AreSized cs

length-decode_nibbles : (ns buf : List ℕ) → length (decode_nibbles ns buf) ≡ length buf
unfolding decode_nibbles
length-decode_nibbles ns [] = refl
length-decode_nibbles [] (b ∷ buf) = ap suc (length-decode_nibbles [] buf)
length-decode_nibbles (hi ∷ []) (b ∷ buf) = ap suc (length-decode_nibbles [] buf)
length-decode_nibbles (hi ∷ lo ∷ ns) (b ∷ buf) = ap suc (length-decode_nibbles ns buf)

length-replicate : (n x : ℕ) → length (replicate n x) ≡ n
length-replicate zero x = refl
length-replicate (suc n) x = ap suc (length-replicate n x)

length-pack_compact : (t : ℕ) (hex : List ℕ) → length (pack_compact t hex) ≡ suc (length hex / 2)
unfolding pack_compact
length-pack_compact t hex = elim (Bool-cases (length hex % 2 == 1)) [
  | inl e ↦
      rw
        (
          e,
          length-decode_nibbles (drop 1 hex) (replicate (length hex / 2) 0),
          length-replicate (length hex / 2) 0,
        )
        refl
  | inr e ↦
      rw
        (
          e,
          length-decode_nibbles hex (replicate (length hex / 2) 0),
          length-replicate (length hex / 2) 0,
        )
        refl
]

length-take : (n : ℕ) (xs : List ℕ) → length (take n xs) ≤ length xs
length-take zero xs = omega arith
length-take (suc n) [] = omega arith
length-take (suc n) (x ∷ xs) = omega (arith, length-take n xs)

pub length-hex_to_compact : (hex : List ℕ) → length (hex_to_compact hex) ≤ length hex + 1
unfolding hex_to_compact
length-hex_to_compact hex = elim (Bool-cases (has_term hex)) [
  | inl e ↦ rw e (
      omega (
        arith,
        length-pack_compact 1 (take (length hex - 1) hex),
        length-take (length hex - 1) hex,
      ))
  | inr e ↦ rw e (omega (arith, length-pack_compact 0 hex))
]

pub hex_to_compact-IsSmall : (hex : List ℕ) → IsSmall hex → IsSmall (hex_to_compact hex)
unfolding hex_to_compact
hex_to_compact-IsSmall hex h = elim (Bool-cases (has_term hex)) [
  | inl e ↦ rw e (
      omega (
        arith,
        h,
        length-pack_compact 1 (take (length hex - 1) hex),
        length-take (length hex - 1) hex,
      ))
  | inr e ↦ rw e (omega (arith, h, length-pack_compact 0 hex))
]

-- The output of an encoder that does not panic.
abbrev Written : Option (List ℕ) → Type 0
Written o = (out : List ℕ) × (o ≡ some out)

write_bytes-Written : (b : List ℕ) → IsSmall b → Written (write_bytes b)
write_bytes-Written b h = (string_form b, write_bytes-string_form b h)

joined-Written : (a b : Option (List ℕ)) → Written a → Written b → Written (joined a b)
joined-Written a b (x, e) (y, e') = (x ++ y, rw (e, e') refl)

map-Written : (f : List ℕ → List ℕ) (a : Option (List ℕ)) → Written a → Written (Option.map f a)
map-Written f a (x, e) = (f x, rw e refl)

module _ (list_header : ℕ → List ℕ) where
  mutual
    unfolding encode

    pub encode-Written : (n : Node) → IsSized n → Written (encode list_header n)
    encode-Written Node.empty h = (0x80 ∷ [], refl)
    encode-Written (Node.full cs flags) (f, h) = map-Written _ _ (encode_all-Written cs h)
    encode-Written (Node.short key val flags) (f, k, h) =
        map-Written _ _ (joined-Written _ _ (write_bytes-Written key k) (encode-Written val h))
    encode-Written (Node.hash x) h = write_bytes-Written x h
    encode-Written (Node.value v) h = write_bytes-Written v h

    encode_all-Written : (cs : Nodes) → AreSized cs → Written (encode_all list_header cs)
    encode_all-Written Nodes.nil h = ([], refl)
    encode_all-Written (Nodes.cons c cs) (h, hs) =
        joined-Written _ _ (encode-Written c h) (encode_all-Written cs hs)
