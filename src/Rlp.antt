-- ===== src/Rlp.antt =====
-- state-trie/src/node/rlp_raw.rs: the headers of RLP strings, and the inspection of RLP bytes.
-- A byte slice is a list of numbers below 256, and a `u64` is a number.
pub mod Value
pub mod Width
pub mod Size
pub mod Bounds
pub mod Tagged
pub mod Strings
pub mod Lists
use rust_eth_triedb.Common.{
  ℕ, zero, suc, ◌+◌, ◌-◌, ◌*◌, ◌/◌, ◌%◌, ◌^◌, bit_or, List, [], ◌∷◌, ◌++◌, Bool, true, false, not,
  ◌&&◌, ◌||◌, ◌==◌, ltb, leb, if◌then◌else◌, length, get_or, take, drop, replicate, is_empty,
  Option, none, some, Result, ok, err, ◌>>=◌,
}
use mathlib.Core.Option

pub data RlpRawError : Type 0 where
  unexpected_eof canon_size value_too_large expected_list unexpected_list : RlpRawError

pub data Kind : Type 0 where
  byte string list : Kind

-- The bytes that each branch of `putint` stores, from the front of the buffer.
unfoldable pub putint_bytes : ℕ → List ℕ
putint_bytes i =
    if ltb i (2 ^ 8)
    then (i % 256) ∷ []
    else if ltb i (2 ^ 16)
    then (i / 2 ^ 8 % 256) ∷ (i % 256) ∷ []
    else if ltb i (2 ^ 24)
    then (i / 2 ^ 16 % 256) ∷ (i / 2 ^ 8 % 256) ∷ (i % 256) ∷ []
    else if ltb i (2 ^ 32)
    then (i / 2 ^ 24 % 256) ∷ (i / 2 ^ 16 % 256) ∷ (i / 2 ^ 8 % 256) ∷ (i % 256) ∷ []
    else if ltb i (2 ^ 40)
    then (i / 2 ^ 32 % 256)
      ∷ (i / 2 ^ 24 % 256)
      ∷ (i / 2 ^ 16 % 256)
      ∷ (i / 2 ^ 8 % 256)
      ∷ (i % 256)
      ∷ []
    else if ltb i (2 ^ 48)
    then (i / 2 ^ 40 % 256)
      ∷ (i / 2 ^ 32 % 256)
      ∷ (i / 2 ^ 24 % 256)
      ∷ (i / 2 ^ 16 % 256)
      ∷ (i / 2 ^ 8 % 256)
      ∷ (i % 256)
      ∷ []
    else if ltb i (2 ^ 56)
    then (i / 2 ^ 48 % 256)
      ∷ (i / 2 ^ 40 % 256)
      ∷ (i / 2 ^ 32 % 256)
      ∷ (i / 2 ^ 24 % 256)
      ∷ (i / 2 ^ 16 % 256)
      ∷ (i / 2 ^ 8 % 256)
      ∷ (i % 256)
      ∷ []
    else (i / 2 ^ 56 % 256)
      ∷ (i / 2 ^ 48 % 256)
      ∷ (i / 2 ^ 40 % 256)
      ∷ (i / 2 ^ 32 % 256)
      ∷ (i / 2 ^ 24 % 256)
      ∷ (i / 2 ^ 16 % 256)
      ∷ (i / 2 ^ 8 % 256)
      ∷ (i % 256)
      ∷ []

-- The buffer after the writes and the number of bytes written; `none` is a write out of bounds.
unfoldable pub putint : List ℕ → ℕ → Option (List ℕ × ℕ)
unfolding putint_bytes
putint b i =
    let bytes = putint_bytes i in
    if leb (length bytes) (length b)
    then some (bytes ++ drop (length bytes) b, length bytes)
    else none

-- The header that is appended to `out`. `putint` has the seven bytes of the buffer behind its first.
unfoldable pub encode_string_header : ℕ → Option (List ℕ)
unfolding putint
encode_string_header len =
    if ltb len 56
    then some ((0x80 + len % 256) ∷ [])
    else Option.map
        (λ written.
          let (size_buf, size_size) = written in (0xB7 + size_size % 256) ∷ take size_size size_buf)
        (putint (replicate 7 0) len)

-- The bytes that are appended to `out`; `none` is the panic inside the header.
unfoldable pub write_bytes : List ℕ → Option (List ℕ)
unfolding encode_string_header
write_bytes b =
    if length b == 1 && leb (get_or b 0 0) 0x7F
    then some (get_or b 0 0 ∷ [])
    else Option.map (λ header. header ++ b) (encode_string_header (length b))

-- `x << k` on bytes widened to 64 bits.
infixl 60 ◌<<◌
abbrev pub ◌<<◌ : ℕ → ℕ → ℕ
x << k = x * 2 ^ k

-- The `match` of `read_size`, on a slice that holds `slen` bytes.
unfoldable pub size_value : ℕ → List ℕ → ℕ
size_value slen b =
    if slen == 1
    then get_or b 0 0
    else if slen == 2
    then bit_or (get_or b 0 0 << 8) (get_or b 1 0)
    else if slen == 3
    then bit_or (bit_or (get_or b 0 0 << 16) (get_or b 1 0 << 8)) (get_or b 2 0)
    else if slen == 4
    then bit_or (bit_or (bit_or (get_or b 0 0 << 24) (get_or b 1 0 << 16)) (get_or b 2 0 << 8))
        (get_or b 3 0)
    else if slen == 5
    then bit_or
        (bit_or (bit_or (bit_or (get_or b 0 0 << 32) (get_or b 1 0 << 24)) (get_or b 2 0 << 16))
          (get_or b 3 0 << 8))
        (get_or b 4 0)
    else if slen == 6
    then bit_or
        (bit_or
          (bit_or (bit_or (bit_or (get_or b 0 0 << 40) (get_or b 1 0 << 32)) (get_or b 2 0 << 24))
            (get_or b 3 0 << 16))
          (get_or b 4 0 << 8))
        (get_or b 5 0)
    else if slen == 7
    then bit_or
        (bit_or
          (bit_or
            (bit_or (bit_or (bit_or (get_or b 0 0 << 48) (get_or b 1 0 << 40)) (get_or b 2 0 << 32))
              (get_or b 3 0 << 24))
            (get_or b 4 0 << 16))
          (get_or b 5 0 << 8))
        (get_or b 6 0)
    else if slen == 8
    then bit_or
        (bit_or
          (bit_or
            (bit_or
              (bit_or
                (bit_or (bit_or (get_or b 0 0 << 56) (get_or b 1 0 << 48)) (get_or b 2 0 << 40))
                (get_or b 3 0 << 32))
              (get_or b 4 0 << 24))
            (get_or b 5 0 << 16))
          (get_or b 6 0 << 8))
        (get_or b 7 0)
    else 0

unfoldable pub read_size : List ℕ → ℕ → Result RlpRawError ℕ
unfolding size_value
read_size b slen =
    if ltb (length b) slen
    then err unexpected_eof
    else (let s = size_value slen b in
        if ltb s 56 || get_or b 0 0 == 0 then err canon_size else ok s)

-- The `match` on the first byte: the kind, the tag size and the content size, or the error that
-- `read_kind` returns at once behind the `match`.
unfoldable pub read_tag : ℕ → List ℕ → Result RlpRawError (Kind × ℕ × ℕ)
unfolding read_size
read_tag b buf =
    if leb b 0x7F
    then ok (byte, 0, 1)
    else if leb b 0xB7
    then (let cs = b - 0x80 in
        if cs == 1 && ltb 1 (length buf) && ltb (get_or buf 1 0) 128
        then err canon_size
        else ok (string, 1, cs))
    else if leb b 0xBF
    then (let size_len = b - 0xB7 in
        read_size (drop 1 buf) size_len >>= λ cs. ok (string, size_len + 1, cs))
    else if leb b 0xF7
    then ok (list, 1, b - 0xC0)
    else (let size_len = b - 0xF7 in
        read_size (drop 1 buf) size_len >>= λ cs. ok (list, size_len + 1, cs))

-- Values larger than the slice are rejected; `-` on lengths is the saturating subtraction.
unfoldable pub check_size : List ℕ → Kind × ℕ × ℕ → Result RlpRawError (Kind × ℕ × ℕ)
check_size buf (kind, tag_size, content_size) =
    if ltb (length buf - tag_size) content_size
    then err value_too_large
    else ok (kind, tag_size, content_size)

unfoldable pub read_kind : List ℕ → Result RlpRawError (Kind × ℕ × ℕ)
unfolding read_tag check_size
read_kind buf =
    if is_empty buf then err unexpected_eof else (read_tag (get_or buf 0 0) buf >>= check_size buf)

-- The kind, the content and the rest; `take` and `drop` stand for the slices `&b[ts..ts + cs]` and
-- `&b[ts + cs..]`, which panic out of range.
unfoldable pub split : List ℕ → Result RlpRawError (Kind × List ℕ × List ℕ)
unfolding read_kind
split b = read_kind b >>= λ (kind, ts, cs). ok (kind, take cs (drop ts b), drop (ts + cs) b)

abbrev pub is_list : Kind → Bool
is_list list = true
is_list _ = false

unfoldable pub split_list : List ℕ → Result RlpRawError (List ℕ × List ℕ)
unfolding split
split_list b =
    split b >>= λ (k, content, rest). if is_list k then ok (content, rest) else err expected_list

unfoldable pub split_string : List ℕ → Result RlpRawError (List ℕ × List ℕ)
unfolding split
split_string b =
    split b >>= λ (k, content, rest). if is_list k then err unexpected_list else ok (content, rest)

-- The loop on fuel; `none` is fuel run out.
unfoldable pub count_loop : ℕ → List ℕ → ℕ → Option (Result RlpRawError ℕ)
unfolding read_kind
count_loop fuel [] count = some (ok count)
count_loop zero (x ∷ b) count = none
count_loop (suc fuel) (x ∷ b) count = elim (read_kind (x ∷ b)) [
  | err e ↦ some (err e)
  | ok (kind, ts, cs) ↦ count_loop fuel (drop (ts + cs) (x ∷ b)) (count + 1)
]

-- The fuel is the length of the slice.
unfoldable pub count_values : List ℕ → Option (Result RlpRawError ℕ)
unfolding count_loop
count_values b = count_loop (length b) b 0
