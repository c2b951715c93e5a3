-- ===== src/Rlp/Width.antt =====
-- What each branch of `putint` writes.
use rust_eth_triedb.Common.{
  ℕ, ◌+◌, ◌*◌, ◌/◌, ◌%◌, ◌^◌, ◌≤◌, ◌<◌, List, ◌∷◌, ◌++◌, ◌≡◌, refl, ◌∙◌, arith, le→ltb-false,
  length, get_or, All, ◌≢◌, lt→ltb,
}
use rust_eth_triedb.Rlp.{putint_bytes, size_value}
use rust_eth_triedb.Encoding.Terminator.{IsByte}
use rust_eth_triedb.Rlp.Value.{
  size_value_2, size_value_3, size_value_4, size_value_5, size_value_6, size_value_7, size_value_8,
}

-- `bs` is `i` in big-endian form: `read_size` reads it back, and no shorter form does.
pub record IsSizeOf (i : ℕ) (bs : List ℕ) : Type 0 where
  pub reads : (rest : List ℕ) → size_value (length bs) (bs ++ rest) ≡ i
  pub bytes : All IsByte bs
  pub leading : (rest : List ℕ) → get_or (bs ++ rest) 0 0 ≢ 0
  pub shortest : 1 ≤ length bs
  pub longest : length bs ≤ 8
  pub fits : i < 2 ^ 56 → length bs ≤ 7

size_value_1 : (b0 : ℕ) (rest : List ℕ) → size_value 1 (b0 ∷ rest) ≡ b0
unfolding size_value
size_value_1 b0 rest = refl

pub width_1 : (i : ℕ) → 1 ≤ i → i < 2 ^ 8 → IsSizeOf i (putint_bytes i)
unfolding putint_bytes
width_1 i l h =
    let sum : i % 256 ≡ i = omega arith in
    rw (lt→ltb i (2 ^ 8) h) record {
      reads = λ rest. size_value_1 (i % 256) rest ∙ sum;
      bytes = omega arith;
      leading = λ rest. omega arith;
      shortest = omega arith;
      longest = omega arith;
      fits = λ small. omega arith;
    }

pub width_2 : (i : ℕ) → 2 ^ 8 ≤ i → i < 2 ^ 16 → IsSizeOf i (putint_bytes i)
unfolding putint_bytes
width_2 i l h =
    let sum : (i / 2 ^ 8 % 256) * 2 ^ 8 + i % 256 ≡ i = omega arith in
    rw (le→ltb-false i (2 ^ 8) (omega arith), lt→ltb i (2 ^ 16) h)
      record {
        reads =
            λ rest. size_value_2 (i / 2 ^ 8 % 256) (i % 256) rest (omega arith, omega arith) ∙ sum;
        bytes = omega arith;
        leading = λ rest. omega arith;
        shortest = omega arith;
        longest = omega arith;
        fits = λ small. omega arith;
      }

pub width_3 : (i : ℕ) → 2 ^ 16 ≤ i → i < 2 ^ 24 → IsSizeOf i (putint_bytes i)
unfolding putint_bytes
width_3 i l h =
    let sum : (i / 2 ^ 16 % 256) * 2 ^ 16 + (i / 2 ^ 8 % 256) * 2 ^ 8 + i % 256 ≡ i = omega arith in
    rw
      (
        le→ltb-false i (2 ^ 8) (omega arith),
        le→ltb-false i (2 ^ 16) (omega arith),
        lt→ltb i (2 ^ 24) h,
      )
      record {
        reads = λ rest.
            size_value_3 (i / 2 ^ 16 % 256) (i / 2 ^ 8 % 256) (i % 256) rest
              (omega arith, omega arith, omega arith)
            ∙ sum;
        bytes = omega arith;
        leading = λ rest. omega arith;
        shortest = omega arith;
        longest = omega arith;
        fits = λ small. omega arith;
      }

pub width_4 : (i : ℕ) → 2 ^ 24 ≤ i → i < 2 ^ 32 → IsSizeOf i (putint_bytes i)
unfolding putint_bytes
width_4 i l h =
    let sum : (i / 2 ^ 24 % 256) * 2 ^ 24
          + (i / 2 ^ 16 % 256) * 2 ^ 16
          + (i / 2 ^ 8 % 256) * 2 ^ 8
          + i % 256
        ≡ i =
      omega arith in
    rw
      (
        le→ltb-false i (2 ^ 8) (omega arith),
        le→ltb-false i (2 ^ 16) (omega arith),
        le→ltb-false i (2 ^ 24) (omega arith),
        lt→ltb i (2 ^ 32) h,
      )
      record {
        reads = λ rest.
            size_value_4 (i / 2 ^ 24 % 256) (i / 2 ^ 16 % 256) (i / 2 ^ 8 % 256) (i % 256) rest
              (omega arith, omega arith, omega arith, omega arith)
            ∙ sum;
        bytes = omega arith;
        leading = λ rest. omega arith;
        shortest = omega arith;
        longest = omega arith;
        fits = λ small. omega arith;
      }

pub width_5 : (i : ℕ) → 2 ^ 32 ≤ i → i < 2 ^ 40 → IsSizeOf i (putint_bytes i)
unfolding putint_bytes
width_5 i l h =
    let sum : (i / 2 ^ 32 % 256) * 2 ^ 32
          + (i / 2 ^ 24 % 256) * 2 ^ 24
          + (i / 2 ^ 16 % 256) * 2 ^ 16
          + (i / 2 ^ 8 % 256) * 2 ^ 8
          + i % 256
        ≡ i =
      omega arith in
    rw
      (
        le→ltb-false i (2 ^ 8) (omega arith),
        le→ltb-false i (2 ^ 16) (omega arith),
        le→ltb-false i (2 ^ 24) (omega arith),
        le→ltb-false i (2 ^ 32) (omega arith),
        lt→ltb i (2 ^ 40) h,
      )
      record {
        reads = λ rest.
            size_value_5 (i / 2 ^ 32 % 256) (i / 2 ^ 24 % 256) (i / 2 ^ 16 % 256) (i / 2 ^ 8 % 256)
              (i % 256) rest (omega arith, omega arith, omega arith, omega arith, omega arith)
            ∙ sum;
        bytes = omega arith;
        leading = λ rest. omega arith;
        shortest = omega arith;
        longest = omega arith;
        fits = λ small. omega arith;
      }

pub width_6 : (i : ℕ) → 2 ^ 40 ≤ i → i < 2 ^ 48 → IsSizeOf i (putint_bytes i)
unfolding putint_bytes
width_6 i l h =
    let sum : (i / 2 ^ 40 % 256) * 2 ^ 40
          + (i / 2 ^ 32 % 256) * 2 ^ 32
          + (i / 2 ^ 24 % 256) * 2 ^ 24
          + (i / 2 ^ 16 % 256) * 2 ^ 16
          + (i / 2 ^ 8 % 256) * 2 ^ 8
          + i % 256
        ≡ i =
      omega arith in
    rw
      (
        le→ltb-false i (2 ^ 8) (omega arith),
        le→ltb-false i (2 ^ 16) (omega arith),
        le→ltb-false i (2 ^ 24) (omega arith),
        le→ltb-false i (2 ^ 32) (omega arith),
        le→ltb-false i (2 ^ 40) (omega arith),
        lt→ltb i (2 ^ 48) h,
      )
      record {
        reads = λ rest.
            size_value_6 (i / 2 ^ 40 % 256) (i / 2 ^ 32 % 256) (i / 2 ^ 24 % 256) (i / 2 ^ 16 % 256)
              (i / 2 ^ 8 % 256) (i % 256) rest
              (omega arith, omega arith, omega arith, omega arith, omega arith, omega arith)
            ∙ sum;
        bytes = omega arith;
        leading = λ rest. omega arith;
        shortest = omega arith;
        longest = omega arith;
        fits = λ small. omega arith;
      }

pub width_7 : (i : ℕ) → 2 ^ 48 ≤ i → i < 2 ^ 56 → IsSizeOf i (putint_bytes i)
unfolding putint_bytes
width_7 i l h =
    let sum : (i / 2 ^ 48 % 256) * 2 ^ 48
          + (i / 2 ^ 40 % 256) * 2 ^ 40
          + (i / 2 ^ 32 % 256) * 2 ^ 32
          + (i / 2 ^ 24 % 256) * 2 ^ 24
          + (i / 2 ^ 16 % 256) * 2 ^ 16
          + (i / 2 ^ 8 % 256) * 2 ^ 8
          + i % 256
        ≡ i =
      omega arith in
    rw
      (
        le→ltb-false i (2 ^ 8) (omega arith),
        le→ltb-false i (2 ^ 16) (omega arith),
        le→ltb-false i (2 ^ 24) (omega arith),
        le→ltb-false i (2 ^ 32) (omega arith),
        le→ltb-false i (2 ^ 40) (omega arith),
        le→ltb-false i (2 ^ 48) (omega arith),
        lt→ltb i (2 ^ 56) h,
      )
      record {
        reads = λ rest.
            size_value_7 (i / 2 ^ 48 % 256) (i / 2 ^ 40 % 256) (i / 2 ^ 32 % 256) (i / 2 ^ 24 % 256)
              (i / 2 ^ 16 % 256) (i / 2 ^ 8 % 256) (i % 256) rest
              (
                omega arith,
                omega arith,
                omega arith,
                omega arith,
                omega arith,
                omega arith,
                omega arith,
              )
            ∙ sum;
        bytes = omega arith;
        leading = λ rest. omega arith;
        shortest = omega arith;
        longest = omega arith;
        fits = λ small. omega arith;
      }

pub width_8 : (i : ℕ) → 2 ^ 56 ≤ i → i < 2 ^ 64 → IsSizeOf i (putint_bytes i)
unfolding putint_bytes
width_8 i l h =
    let sum : (i / 2 ^ 56 % 256) * 2 ^ 56
          + (i / 2 ^ 48 % 256) * 2 ^ 48
          + (i / 2 ^ 40 % 256) * 2 ^ 40
          + (i / 2 ^ 32 % 256) * 2 ^ 32
          + (i / 2 ^ 24 % 256) * 2 ^ 24
          + (i / 2 ^ 16 % 256) * 2 ^ 16
          + (i / 2 ^ 8 % 256) * 2 ^ 8
          + i % 256
        ≡ i =
      omega arith in
    rw
      (
        le→ltb-false i (2 ^ 8) (omega arith),
        le→ltb-false i (2 ^ 16) (omega arith),
        le→ltb-false i (2 ^ 24) (omega arith),
        le→ltb-false i (2 ^ 32) (omega arith),
        le→ltb-false i (2 ^ 40) (omega arith),
        le→ltb-false i (2 ^ 48) (omega arith),
        le→ltb-false i (2 ^ 56) (omega arith),
      )
      record {
        reads = λ rest.
            size_value_8 (i / 2 ^ 56 % 256) (i / 2 ^ 48 % 256) (i / 2 ^ 40 % 256) (i / 2 ^ 32 % 256)
              (i / 2 ^ 24 % 256) (i / 2 ^ 16 % 256) (i / 2 ^ 8 % 256) (i % 256) rest
              (
                omega arith,
                omega arith,
                omega arith,
                omega arith,
                omega arith,
                omega arith,
                omega arith,
                omega arith,
              )
            ∙ sum;
        bytes = omega arith;
        leading = λ rest. omega arith;
        shortest = omega arith;
        longest = omega arith;
        fits = λ small. absurd (omega arith);
      }
