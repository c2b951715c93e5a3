-- ===== src/Rlp/Value.antt =====
-- The number that `read_size` makes of up to eight bytes.
use rust_eth_triedb.Common.{ℕ, ◌+◌, ◌*◌, ◌^◌, List, ◌∷◌, ◌≡◌, arith}
use rust_eth_triedb.Common.BitOr.{or_sum}
use rust_eth_triedb.Rlp.{size_value}
use rust_eth_triedb.Encoding.Terminator.{IsByte}

-- The `|`s of each branch of `read_size` as a sum.
pub size_value_2 :
    (b0 b1 : ℕ) (rest : List ℕ)
    → IsByte b0 × IsByte b1
    → size_value 2 (b0 ∷ b1 ∷ rest) ≡ b0 * 2 ^ 8 + b1
unfolding size_value
size_value_2 b0 b1 rest h = rw (or_sum 8 (b0 * 2 ^ 8) (b1) (omega arith) (omega arith))

pub size_value_3 :
    (b0 b1 b2 : ℕ) (rest : List ℕ)
    → IsByte b0 × IsByte b1 × IsByte b2
    → size_value 3 (b0 ∷ b1 ∷ b2 ∷ rest) ≡ b0 * 2 ^ 16 + b1 * 2 ^ 8 + b2
unfolding size_value
size_value_3 b0 b1 b2 rest h = rw (
  or_sum 16 (b0 * 2 ^ 16) (b1 * 2 ^ 8) (omega arith) (omega arith),
  or_sum 8 (b0 * 2 ^ 16 + b1 * 2 ^ 8) (b2) (omega arith) (omega arith),
)

pub size_value_4 :
    (b0 b1 b2 b3 : ℕ) (rest : List ℕ)
    → IsByte b0 × IsByte b1 × IsByte b2 × IsByte b3
    → size_value 4 (b0 ∷ b1 ∷ b2 ∷ b3 ∷ rest) ≡ b0 * 2 ^ 24 + b1 * 2 ^ 16 + b2 * 2 ^ 8 + b3
unfolding size_value
size_value_4 b0 b1 b2 b3 rest h = rw (
  or_sum 24 (b0 * 2 ^ 24) (b1 * 2 ^ 16) (omega arith) (omega arith),
  or_sum 16 (b0 * 2 ^ 24 + b1 * 2 ^ 16) (b2 * 2 ^ 8) (omega arith) (omega arith),
  or_sum 8 (b0 * 2 ^ 24 + b1 * 2 ^ 16 + b2 * 2 ^ 8) (b3) (omega arith) (omega arith),
)

pub size_value_5 :
    (b0 b1 b2 b3 b4 : ℕ) (rest : List ℕ)
    → IsByte b0 × IsByte b1 × IsByte b2 × IsByte b3 × IsByte b4
    → size_value 5 (b0 ∷ b1 ∷ b2 ∷ b3 ∷ b4 ∷ rest)
      ≡ b0 * 2 ^ 32 + b1 * 2 ^ 24 + b2 * 2 ^ 16 + b3 * 2 ^ 8 + b4
unfolding size_value
size_value_5 b0 b1 b2 b3 b4 rest h = rw (
  or_sum 32 (b0 * 2 ^ 32) (b1 * 2 ^ 24) (omega arith) (omega arith),
  or_sum 24 (b0 * 2 ^ 32 + b1 * 2 ^ 24) (b2 * 2 ^ 16) (omega arith) (omega arith),
  or_sum 16 (b0 * 2 ^ 32 + b1 * 2 ^ 24 + b2 * 2 ^ 16) (b3 * 2 ^ 8) (omega arith) (omega arith),
  or_sum 8 (b0 * 2 ^ 32 + b1 * 2 ^ 24 + b2 * 2 ^ 16 + b3 * 2 ^ 8) (b4) (omega arith) (omega arith),
)

pub size_value_6 :
    (b0 b1 b2 b3 b4 b5 : ℕ) (rest : List ℕ)
    → IsByte b0 × IsByte b1 × IsByte b2 × IsByte b3 × IsByte b4 × IsByte b5
    → size_value 6 (b0 ∷ b1 ∷ b2 ∷ b3 ∷ b4 ∷ b5 ∷ rest)
      ≡ b0 * 2 ^ 40 + b1 * 2 ^ 32 + b2 * 2 ^ 24 + b3 * 2 ^ 16 + b4 * 2 ^ 8 + b5
unfolding size_value
size_value_6 b0 b1 b2 b3 b4 b5 rest h = rw (
  or_sum 40 (b0 * 2 ^ 40) (b1 * 2 ^ 32) (omega arith) (omega arith),
  or_sum 32 (b0 * 2 ^ 40 + b1 * 2 ^ 32) (b2 * 2 ^ 24) (omega arith) (omega arith),
  or_sum 24 (b0 * 2 ^ 40 + b1 * 2 ^ 32 + b2 * 2 ^ 24) (b3 * 2 ^ 16) (omega arith) (omega arith),
  or_sum 16 (b0 * 2 ^ 40 + b1 * 2 ^ 32 + b2 * 2 ^ 24 + b3 * 2 ^ 16) (b4 * 2 ^ 8) (omega arith)
      (omega arith),
  or_sum 8 (b0 * 2 ^ 40 + b1 * 2 ^ 32 + b2 * 2 ^ 24 + b3 * 2 ^ 16 + b4 * 2 ^ 8) (b5) (omega arith)
      (omega arith),
)

pub size_value_7 :
    (b0 b1 b2 b3 b4 b5 b6 : ℕ) (rest : List ℕ)
    → IsByte b0 × IsByte b1 × IsByte b2 × IsByte b3 × IsByte b4 × IsByte b5 × IsByte b6
    → size_value 7 (b0 ∷ b1 ∷ b2 ∷ b3 ∷ b4 ∷ b5 ∷ b6 ∷ rest)
      ≡ b0 * 2 ^ 48 + b1 * 2 ^ 40 + b2 * 2 ^ 32 + b3 * 2 ^ 24 + b4 * 2 ^ 16 + b5 * 2 ^ 8 + b6
unfolding size_value
size_value_7 b0 b1 b2 b3 b4 b5 b6 rest h = rw (
  or_sum 48 (b0 * 2 ^ 48) (b1 * 2 ^ 40) (omega arith) (omega arith),
  or_sum 40 (b0 * 2 ^ 48 + b1 * 2 ^ 40) (b2 * 2 ^ 32) (omega arith) (omega arith),
  or_sum 32 (b0 * 2 ^ 48 + b1 * 2 ^ 40 + b2 * 2 ^ 32) (b3 * 2 ^ 24) (omega arith) (omega arith),
  or_sum 24 (b0 * 2 ^ 48 + b1 * 2 ^ 40 + b2 * 2 ^ 32 + b3 * 2 ^ 24) (b4 * 2 ^ 16) (omega arith)
      (omega arith),
  or_sum 16 (b0 * 2 ^ 48 + b1 * 2 ^ 40 + b2 * 2 ^ 32 + b3 * 2 ^ 24 + b4 * 2 ^ 16) (b5 * 2 ^ 8)
      (omega arith) (omega arith),
  or_sum 8 (b0 * 2 ^ 48 + b1 * 2 ^ 40 + b2 * 2 ^ 32 + b3 * 2 ^ 24 + b4 * 2 ^ 16 + b5 * 2 ^ 8) (b6)
      (omega arith) (omega arith),
)

pub size_value_8 :
    (b0 b1 b2 b3 b4 b5 b6 b7 : ℕ) (rest : List ℕ)
    → IsByte b0 × IsByte b1 × IsByte b2 × IsByte b3 × IsByte b4 × IsByte b5 × IsByte b6 × IsByte b7
    → size_value 8 (b0 ∷ b1 ∷ b2 ∷ b3 ∷ b4 ∷ b5 ∷ b6 ∷ b7 ∷ rest)
      ≡ b0 * 2 ^ 56
        + b1 * 2 ^ 48
        + b2 * 2 ^ 40
        + b3 * 2 ^ 32
        + b4 * 2 ^ 24
        + b5 * 2 ^ 16
        + b6 * 2 ^ 8
        + b7
unfolding size_value
size_value_8 b0 b1 b2 b3 b4 b5 b6 b7 rest h = rw (
  or_sum 56 (b0 * 2 ^ 56) (b1 * 2 ^ 48) (omega arith) (omega arith),
  or_sum 48 (b0 * 2 ^ 56 + b1 * 2 ^ 48) (b2 * 2 ^ 40) (omega arith) (omega arith),
  or_sum 40 (b0 * 2 ^ 56 + b1 * 2 ^ 48 + b2 * 2 ^ 40) (b3 * 2 ^ 32) (omega arith) (omega arith),
  or_sum 32 (b0 * 2 ^ 56 + b1 * 2 ^ 48 + b2 * 2 ^ 40 + b3 * 2 ^ 32) (b4 * 2 ^ 24) (omega arith)
      (omega arith),
  or_sum 24 (b0 * 2 ^ 56 + b1 * 2 ^ 48 + b2 * 2 ^ 40 + b3 * 2 ^ 32 + b4 * 2 ^ 24) (b5 * 2 ^ 16)
      (omega arith) (omega arith),
  or_sum 16 (b0 * 2 ^ 56 + b1 * 2 ^ 48 + b2 * 2 ^ 40 + b3 * 2 ^ 32 + b4 * 2 ^ 24 + b5 * 2 ^ 16)
      (b6 * 2 ^ 8) (omega arith) (omega arith),
  or_sum 8
      (b0 * 2 ^ 56
        + b1 * 2 ^ 48
        + b2 * 2 ^ 40
        + b3 * 2 ^ 32
        + b4 * 2 ^ 24
        + b5 * 2 ^ 16
        + b6 * 2 ^ 8)
      (b7) (omega arith) (omega arith),
)
