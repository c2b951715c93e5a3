-- ===== src/Encoding/Compact.antt =====
-- `compact_to_hex` undoes `hex_to_compact`, and `hex_to_keybytes` undoes `key_to_nibbles`.
use rust_eth_triedb.Common.{
  ℕ, suc, ◌+◌, ◌*◌, ◌/◌, ◌%◌, List, [], ◌∷◌, Bool, true, false, ◌≡◌, refl, length, replicate, All,
  arith, ◌⊎◌, inl, inr,
}
use rust_eth_triedb.Common.Bits.{pack_nibbles, flag_nibble}
use rust_eth_triedb.Encoding.{
  nibbles_of, keybytes_to_hex, decode_nibbles, pack_compact, hex_to_compact, compact_to_hex,
}
use rust_eth_triedb.Encoding.Terminator.{
  IsNibble, IsHex, IsHex-cases, with_terminator, has_term-snoc, has_term-nibbles, take-snoc,
}

-- Packing an even number of nibbles loses nothing.
nibbles_of-decode_nibbles :
    (ns : List ℕ)
    → All IsNibble ns
    → length ns % 2 ≡ 0
    → nibbles_of (decode_nibbles ns (replicate (length ns / 2) 0)) ≡ ns
unfolding nibbles_of decode_nibbles
nibbles_of-decode_nibbles [] a h = refl
nibbles_of-decode_nibbles (x ∷ []) a h = absurd (omega arith)
nibbles_of-decode_nibbles (x ∷ y ∷ ns) a h =
    let half : suc (suc (length ns)) / 2 ≡ suc (length ns / 2) = omega arith in
    let high : (x * 16 + y) / 16 ≡ x = omega arith in
    let low : (x * 16 + y) % 16 ≡ y = omega arith in
    rw (
      half,
      pack_nibbles x y a.0 a.1.0,
      high,
      low,
      nibbles_of-decode_nibbles ns a.1.1 (omega arith),
    )

-- The number that stands for the terminator in the flag byte.
abbrev term_bit : Bool → ℕ
term_bit true = 1
term_bit false = 0

compact_to_hex-pack_even :
    (t : Bool) (ns : List ℕ)
    → length ns % 2 ≡ 0
    → All IsNibble ns
    → compact_to_hex (pack_compact (term_bit t) ns) ≡ with_terminator t ns
unfolding compact_to_hex pack_compact keybytes_to_hex
compact_to_hex-pack_even true ns h a = rw (h, nibbles_of-decode_nibbles ns a h)
compact_to_hex-pack_even false ns h a =
    rw (h, nibbles_of-decode_nibbles ns a h, take-snoc (0 ∷ 0 ∷ ns) 16)

compact_to_hex-pack_odd :
    (t : Bool) (n : ℕ) (ns : List ℕ)
    → length ns % 2 ≡ 0
    → IsNibble n
    → All IsNibble ns
    → compact_to_hex (pack_compact (term_bit t) (n ∷ ns)) ≡ with_terminator t (n ∷ ns)
unfolding compact_to_hex pack_compact keybytes_to_hex
compact_to_hex-pack_odd true n ns h hn a =
    let odd : suc (length ns) % 2 ≡ 1 = omega arith in
    let half : suc (length ns) / 2 ≡ length ns / 2 = omega arith in
    let high : (48 + n) / 16 ≡ 3 = omega arith in
    let low : (48 + n) % 16 ≡ n = omega arith in
    rw (odd, half, flag_nibble 1 n (omega arith) hn, high, low, nibbles_of-decode_nibbles ns a h)
compact_to_hex-pack_odd false n ns h hn a =
    let odd : suc (length ns) % 2 ≡ 1 = omega arith in
    let half : suc (length ns) / 2 ≡ length ns / 2 = omega arith in
    let high : (16 + n) / 16 ≡ 1 = omega arith in
    let low : (16 + n) % 16 ≡ n = omega arith in
    rw (
      odd,
      half,
      flag_nibble 0 n (omega arith) hn,
      high,
      low,
      nibbles_of-decode_nibbles ns a h,
      take-snoc (1 ∷ n ∷ ns) 16,
    )

compact_to_hex-pack :
    (t : Bool) (ns : List ℕ)
    → All IsNibble ns
    → compact_to_hex (pack_compact (term_bit t) ns) ≡ with_terminator t ns
compact_to_hex-pack t [] a = compact_to_hex-pack_even t [] refl a
compact_to_hex-pack t (n ∷ ns) a = elim (parity (length ns)) [
  | inl e ↦ compact_to_hex-pack_odd t n ns e a.0 a.1
  | inr o ↦ compact_to_hex-pack_even t (n ∷ ns) (omega arith) a
]
  where
    parity : (k : ℕ) → (k % 2 ≡ 0) ⊎ (k % 2 ≡ 1)
    parity k = grind arith

hex_to_compact-with_terminator :
    (t : Bool) (ns : List ℕ)
    → All IsNibble ns
    → hex_to_compact (with_terminator t ns) ≡ pack_compact (term_bit t) ns
unfolding hex_to_compact
hex_to_compact-with_terminator true ns a = rw (has_term-snoc ns, take-snoc ns 16)
hex_to_compact-with_terminator false ns a = rw (has_term-nibbles ns a)

-- The compact form of every hex path, of either parity and with or without a terminator, unpacks
-- to that path.
pub compact_to_hex-hex_to_compact :
    (hex : List ℕ) → IsHex hex → compact_to_hex (hex_to_compact hex) ≡ hex
compact_to_hex-hex_to_compact hex h =
    let (t, ns, a, e) = IsHex-cases hex h in
    rw (e, hex_to_compact-with_terminator t ns a) (compact_to_hex-pack t ns a)
