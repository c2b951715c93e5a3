-- ===== src/Common/Bits.antt =====
-- Byte masks as arithmetic, each checked at every byte by evaluation.
use Prim.Native.Nat.{ℕ, zero, suc, ◌+◌, ◌*◌, ◌/◌, ◌%◌, ◌<◌, bit_and, bit_or}
use mathlib.Core.Path.{◌≡◌, refl}
use mathlib.Core.Bool.{Bool, true, false}
use native.Mathlib.Omega.{arith}
use rust_eth_triedb.Common.Tests.{==_iff, ◌==◌, if◌then◌else◌}

holds_under : (ℕ → Bool) → ℕ → Bool
holds_under test zero = true
holds_under test (suc top) = if test top then holds_under test top else false

under-holds : (test : ℕ → Bool) (x top : ℕ) → x < top → holds_under test top ≡ true → test x ≡ true
unfolding holds_under
under-holds test x (suc top) l all = ground (arith, under-holds test x top)
under-holds test x zero l all = absurd (omega arith)

-- `hi << 4 | lo & 0x0f` on two nibbles, indexed by the byte that they make.
abbrev packs : ℕ → Bool
packs x = bit_or (x / 16 * 16 % 256) (bit_and (x % 16) 0x0f) == x

pack_table : holds_under packs 256 ≡ true
unfolding holds_under
pack_table = refl

pub pack_nibbles :
    (hi lo : ℕ) → hi < 16 → lo < 16 → bit_or (hi * 16 % 256) (bit_and lo 0x0f) ≡ hi * 16 + lo
pack_nibbles hi lo h l =
    let quotient : (hi * 16 + lo) / 16 ≡ hi = omega arith in
    let remainder : (hi * 16 + lo) % 16 ≡ lo = omega arith in
    rw (quotient, remainder) at
      ((==_iff _ _).0 (under-holds packs (hi * 16 + lo) 256 (omega arith) pack_table))

-- The flag byte of a compact key of odd length: bit 5 for the terminator, bit 4, and a nibble.
abbrev flags : ℕ → Bool
flags x = bit_or (bit_or (x / 16 * 32 % 256) 16) (x % 16) == x / 16 * 32 + 16 + x % 16

flag_table : holds_under flags 32 ≡ true
unfolding holds_under
flag_table = refl

pub flag_nibble : (t n : ℕ) → t < 2 → n < 16 → bit_or (bit_or (t * 32 % 256) 16) n ≡ t * 32 + 16 + n
flag_nibble t n h l =
    let quotient : (t * 16 + n) / 16 ≡ t = omega arith in
    let remainder : (t * 16 + n) % 16 ≡ n = omega arith in
    rw (quotient, remainder) at
      ((==_iff _ _).0 (under-holds flags (t * 16 + n) 32 (omega arith) flag_table))
