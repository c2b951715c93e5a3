-- ===== src/Rlp/Strings.antt =====
-- RLP strings: `split_string` undoes `write_bytes`.
use rust_eth_triedb.Common.{
  ℕ, suc, ◌+◌, ◌-◌, ◌%◌, ◌^◌, ◌≤◌, ◌<◌, List, [], ◌∷◌, ◌++◌, true, false, ◌&&◌, ◌≡◌, refl, arith,
  length, get_or, ltb, leb, ltb→lt, ltb-false→le, le→ltb-false, le→leb, lt→leb-false, lt→ltb, ◌==◌,
  inl, inr, Bool-cases, if◌then◌else◌, some, ok, take-length_append, append_assoc,
}
use mathlib.Core.Option
use mathlib.Core.Logic.{◌⊎◌}
use rust_eth_triedb.Rlp.{
  byte, string, putint_bytes, putint, encode_string_header, write_bytes, read_tag, split,
  split_string,
}
use rust_eth_triedb.Rlp.Size.{putint_bytes-IsSizeOf, read_size-putint_bytes}
use rust_eth_triedb.Rlp.Tagged.{split-tagged}

-- The RLP form of a string, by the length of the string.
unfoldable pub string_form : List ℕ → List ℕ
unfolding putint_bytes
string_form b =
    if length b == 1 && leb (get_or b 0 0) 0x7F
    then b
    else if ltb (length b) 56
    then (0x80 + length b) ∷ b
    else (0xB7 + length (putint_bytes (length b))) ∷ (putint_bytes (length b) ++ b)

short_header : (n : ℕ) → n < 56 → encode_string_header n ≡ some ((0x80 + n) ∷ [])
unfolding encode_string_header
short_header n h = let low : n % 256 ≡ n = omega arith in rw (lt→ltb n 56 h, low)

long_header :
    (n : ℕ)
    → 56 ≤ n
    → n < 2 ^ 56
    → encode_string_header n ≡ some ((0xB7 + length (putint_bytes n)) ∷ putint_bytes n)
unfolding encode_string_header putint
long_header n l h =
    let s = putint_bytes-IsSizeOf n (omega arith) (omega arith) in
    let seven : length (putint_bytes n) ≤ 7 = s.fits h in
    let room : leb (length (putint_bytes n)) 7 ≡ true = ground arith in
    let low : length (putint_bytes n) % 256 ≡ length (putint_bytes n) = omega arith in
    rw (le→ltb-false n 56 l, room, low, take-length_append)

-- A string that a buffer can hold is written with no panic, in its RLP form.
pub write_bytes-string_form :
    (b : List ℕ) → length b < 2 ^ 56 → write_bytes b ≡ some (string_form b)
unfolding write_bytes string_form
write_bytes-string_form b h = elim (Bool-cases (length b == 1 && leb (get_or b 0 0) 0x7F)) [
  | inl e ↦ rw (e, single b e)
  | inr e ↦ rw e (header (Bool-cases (ltb (length b) 56)))
]
  where
    single :
        (b : List ℕ) → (length b == 1 && leb (get_or b 0 0) 0x7F) ≡ true → get_or b 0 0 ∷ [] ≡ b
    single [] e = cc
    single (x ∷ []) e = refl
    single (x ∷ y ∷ b) e = ground arith

    header :
        (ltb (length b) 56 ≡ true) ⊎ (ltb (length b) 56 ≡ false)
        → Option.map (λ header. header ++ b) (encode_string_header (length b))
          ≡ some (
              if ltb (length b) 56
              then (0x80 + length b) ∷ b
              else (0xB7 + length (putint_bytes (length b))) ∷ (putint_bytes (length b) ++ b))
    header (inl t) = rw (short_header (length b) (ltb→lt _ _ t), t)
    header (inr f) = rw (long_header (length b) (ltb-false→le _ _ f) h, f)

-- A short form passes the test for single bytes in disguise.
is_canonical :
    (n x : ℕ) (b rest : List ℕ)
    → n ≡ length b
    → (n == 1 && leb (get_or b 0 0) 0x7F) ≡ false
    → (n == 1 && ltb 1 (length (x ∷ (b ++ rest))) && ltb (get_or (b ++ rest) 0 0) 128) ≡ false
is_canonical n x [] rest e h = ground arith
is_canonical n x (y ∷ []) rest e h = ground arith
is_canonical n x (y ∷ z ∷ b) rest e h = ground arith

short_tag :
    (n : ℕ) (b rest : List ℕ)
    → n ≡ length b
    → n < 56
    → (n == 1 && leb (get_or b 0 0) 0x7F) ≡ false
    → read_tag (0x80 + n) ((0x80 + n) ∷ (b ++ rest)) ≡ ok (string, 1, n)
unfolding read_tag
short_tag n b rest e h not_single =
    let tag_size : 0x80 + n - 0x80 ≡ n = omega arith in
    rw (
      lt→leb-false (0x80 + n) 0x7F (omega arith),
      le→leb (0x80 + n) 0xB7 (omega arith),
      tag_size,
      is_canonical n (0x80 + n) b rest e not_single,
    )

long_tag :
    (n : ℕ) (rest : List ℕ)
    → 56 ≤ n
    → n < 2 ^ 64
    → let size = putint_bytes n in
      read_tag (0xB7 + length size) ((0xB7 + length size) ∷ (size ++ rest))
      ≡ ok (string, length size + 1, n)
unfolding read_tag
long_tag n rest l h =
    let s = putint_bytes-IsSizeOf n (omega arith) h in
    let tag_size : 0xB7 + length (putint_bytes n) - 0xB7 ≡ length (putint_bytes n) = omega arith in
    rw (
      lt→leb-false (0xB7 + length (putint_bytes n)) 0x7F (omega arith),
      lt→leb-false (0xB7 + length (putint_bytes n)) 0xB7 (omega (arith, s.shortest)),
      le→leb (0xB7 + length (putint_bytes n)) 0xBF (omega (arith, s.longest)),
      tag_size,
      read_size-putint_bytes n rest l h,
    )

single_tag : (x : ℕ) (rest : List ℕ) → leb x 0x7F ≡ true → read_tag x (x ∷ rest) ≡ ok (byte, 0, 1)
unfolding read_tag
single_tag x rest h = rw h

split_string-single :
    (b rest : List ℕ)
    → (length b == 1 && leb (get_or b 0 0) 0x7F) ≡ true
    → split_string (b ++ rest) ≡ ok (b, rest)
unfolding split_string
split_string-single [] rest e = cc
split_string-single (x ∷ []) rest e =
    rw (split-tagged byte [] (x ∷ []) rest refl (single_tag x rest e))
split_string-single (x ∷ y ∷ b) rest e = ground arith

split_string-short :
    (b rest : List ℕ)
    → length b < 56
    → (length b == 1 && leb (get_or b 0 0) 0x7F) ≡ false
    → split_string ((0x80 + length b) ∷ (b ++ rest)) ≡ ok (b, rest)
unfolding split_string
split_string-short b rest h e = rw (
    split-tagged string ((0x80 + length b) ∷ []) b rest refl (short_tag (length b) b rest refl h e))

split_string-long :
    (b rest : List ℕ)
    → 56 ≤ length b
    → length b < 2 ^ 64
    → let size = putint_bytes (length b) in
      split_string ((0xB7 + length size) ∷ ((size ++ b) ++ rest)) ≡ ok (b, rest)
unfolding split_string
split_string-long b rest l h =
    let size : List ℕ = putint_bytes (length b) in
    let x : ℕ = 0xB7 + length size in
    let tag_size : suc (length size) ≡ length size + 1 = omega arith in
    rw (
      append_assoc size b rest,
      split-tagged string (x ∷ size) b rest refl
          (rw tag_size (long_tag (length b) (b ++ rest) l h)),
    )

-- `split_string` reads the RLP form of a string back, whatever follows it.
pub split_string-string_form :
    (b rest : List ℕ) → length b < 2 ^ 64 → split_string (string_form b ++ rest) ≡ ok (b, rest)
unfolding string_form
split_string-string_form b rest h = elim (Bool-cases (length b == 1 && leb (get_or b 0 0) 0x7F)) [
  | inl e ↦ rw e (split_string-single b rest e)
  | inr e ↦ elim (Bool-cases (ltb (length b) 56)) [
    | inl t ↦ rw (e, t) (split_string-short b rest (ltb→lt _ _ t) e)
    | inr f ↦ rw (e, f) (split_string-long b rest (ltb-false→le _ _ f) h)
  ]
]

-- Every string shorter than 2 ^ 56 bytes is written without a panic, and `split_string` reads it
-- back from the front of whatever follows it.
pub split_string-write_bytes :
    (b rest : List ℕ)
    → length b < 2 ^ 56
    → (w : List ℕ) × (write_bytes b ≡ some w) × (split_string (w ++ rest) ≡ ok (b, rest))
split_string-write_bytes b rest h =
    (string_form b, write_bytes-string_form b h, split_string-string_form b rest (omega arith))

-- A short string that is not a single byte below 128.
pub split-short :
    (b rest : List ℕ)
    → length b < 56
    → (length b == 1 && leb (get_or b 0 0) 0x7F) ≡ false
    → split (string_form b ++ rest) ≡ ok (string, b, rest)
unfolding string_form
split-short b rest h e =
    let t : ltb (length b) 56 ≡ true = lt→ltb _ _ h in
    rw (e, t)
      (split-tagged string ((0x80 + length b) ∷ []) b rest refl
        (short_tag (length b) b rest refl h e))
