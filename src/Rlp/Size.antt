-- ===== src/Rlp/Size.antt =====
-- Sizes as big-endian bytes: what `putint` writes, `read_size` reads.
use rust_eth_triedb.Common.{
  ℕ, ◌^◌, ◌≤◌, ◌<◌, List, ◌++◌, false, ◌≡◌, arith, inl, inr, Bool-cases, ltb→lt, ltb-false→le,
  le→ltb-false, length-append, ==-false, length, get_or, ltb, ok, ◌==◌,
}
use rust_eth_triedb.Rlp.{putint_bytes, read_size}
use rust_eth_triedb.Rlp.Width.{
  IsSizeOf, width_1, width_2, width_3, width_4, width_5, width_6, width_7, width_8,
}

-- What `putint` writes for any positive `u64` is its size in big-endian form.
pub putint_bytes-IsSizeOf : (i : ℕ) → 1 ≤ i → i < 2 ^ 64 → IsSizeOf i (putint_bytes i)
putint_bytes-IsSizeOf i l h = elim (Bool-cases (ltb i (2 ^ 8))) [
  | inl t1 ↦ width_1 i l (ltb→lt i _ t1)
  | inr f1 ↦ elim (Bool-cases (ltb i (2 ^ 16))) [
    | inl t2 ↦ width_2 i (ltb-false→le i _ f1) (ltb→lt i _ t2)
    | inr f2 ↦ elim (Bool-cases (ltb i (2 ^ 24))) [
      | inl t3 ↦ width_3 i (ltb-false→le i _ f2) (ltb→lt i _ t3)
      | inr f3 ↦ elim (Bool-cases (ltb i (2 ^ 32))) [
        | inl t4 ↦ width_4 i (ltb-false→le i _ f3) (ltb→lt i _ t4)
        | inr f4 ↦ elim (Bool-cases (ltb i (2 ^ 40))) [
          | inl t5 ↦ width_5 i (ltb-false→le i _ f4) (ltb→lt i _ t5)
          | inr f5 ↦ elim (Bool-cases (ltb i (2 ^ 48))) [
            | inl t6 ↦ width_6 i (ltb-false→le i _ f5) (ltb→lt i _ t6)
            | inr f6 ↦ elim (Bool-cases (ltb i (2 ^ 56))) [
              | inl t7 ↦ width_7 i (ltb-false→le i _ f6) (ltb→lt i _ t7)
              | inr f7 ↦ width_8 i (ltb-false→le i _ f7) h
            ]
          ]
        ]
      ]
    ]
  ]
]

-- `read_size` reads back any size that has a header of its own.
pub read_size-putint_bytes :
    (i : ℕ) (rest : List ℕ)
    → 56 ≤ i
    → i < 2 ^ 64
    → read_size (putint_bytes i ++ rest) (length (putint_bytes i)) ≡ ok i
unfolding read_size
read_size-putint_bytes i rest l h =
    let s = putint_bytes-IsSizeOf i (omega arith) h in
    let here : ltb (length (putint_bytes i ++ rest)) (length (putint_bytes i)) ≡ false =
      le→ltb-false _ _ (omega (arith, length-append (putint_bytes i) rest)) in
    let nonzero : (get_or (putint_bytes i ++ rest) 0 0 == 0) ≡ false =
      ==-false _ _ (s.leading rest) in
    rw (here, s.reads rest, le→ltb-false i 56 l, nonzero)
