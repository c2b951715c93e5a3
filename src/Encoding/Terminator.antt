-- ===== src/Encoding/Terminator.antt =====
-- The nibbles of a path, and the terminator 16 that ends the path of a value.
use rust_eth_triedb.Common.{
  ℕ, zero, suc, ◌-◌, ◌≤◌, ◌<◌, List, [], ◌∷◌, ◌++◌, Bool, true, false, ◌≡◌, refl, ap, length,
  get_or, take, All, arith, length-append, take-length_append, ◌⊎◌, inl, inr,
}
use rust_eth_triedb.Encoding.{has_term}

abbrev pub IsNibble : ℕ → Type 0
IsNibble n = n < 16

abbrev pub IsByte : ℕ → Type 0
IsByte b = b < 256

-- A path in hex form: nibbles, of which the last may be the terminator.
abbrev pub IsHex : List ℕ → Type 0
IsHex [] = Unit {0}
IsHex (x ∷ []) = x ≤ 16
IsHex (x ∷ y ∷ hex) = IsNibble x × IsHex (y ∷ hex)

-- The hex form of a path, with or without its terminator.
abbrev pub with_terminator : Bool → List ℕ → List ℕ
with_terminator true ns = ns ++ (16 ∷ [])
with_terminator false ns = ns

pub IsHex-cases :
    (hex : List ℕ)
    → IsHex hex
    → (t : Bool) × (ns : List ℕ) × All IsNibble ns × (hex ≡ with_terminator t ns)
IsHex-cases [] h = (false, [], tt, refl)
IsHex-cases (x ∷ []) h = elim (cases h) [
  | inl lt ↦ (false, x ∷ [], (lt, tt), refl)
  | inr e ↦ (true, [], tt, ap (λ n. n ∷ []) e)
]
  where
    cases : x ≤ 16 → (x < 16) ⊎ (x ≡ 16)
    cases h = grind arith
IsHex-cases (x ∷ y ∷ hex) h = cons (IsHex-cases (y ∷ hex) h.1)
  where
    cons :
        (t : Bool) × (ns : List ℕ) × All IsNibble ns × (y ∷ hex ≡ with_terminator t ns)
        → (t : Bool) × (ns : List ℕ) × All IsNibble ns × (x ∷ y ∷ hex ≡ with_terminator t ns)
    cons (true, ns, a, e) = (true, x ∷ ns, (h.0, a), ap (λ l. x ∷ l) e)
    cons (false, ns, a, e) = (false, x ∷ ns, (h.0, a), ap (λ l. x ∷ l) e)

get_or-last : (ns : List ℕ) (x : ℕ) → get_or (ns ++ (x ∷ [])) (length ns) 0 ≡ x
get_or-last [] x = refl
get_or-last (n ∷ ns) x = get_or-last ns x

length-snoc : (ns : List ℕ) (x : ℕ) → length (ns ++ (x ∷ [])) - 1 ≡ length ns
length-snoc ns x = omega (arith, length-append ns (x ∷ []))

pub has_term-snoc : (ns : List ℕ) → has_term (ns ++ (16 ∷ [])) ≡ true
unfolding has_term
has_term-snoc [] = refl
has_term-snoc (n ∷ ns) = rw (length-snoc (n ∷ ns) 16, get_or-last (n ∷ ns) 16)

pub take-snoc : (ns : List ℕ) (x : ℕ) → take (length (ns ++ (x ∷ [])) - 1) (ns ++ (x ∷ [])) ≡ ns
take-snoc ns x = rw (length-snoc ns x) (take-length_append ns (x ∷ []))

get_or-IsNibble : (ns : List ℕ) (i : ℕ) → All IsNibble ns → get_or ns i 0 < 16
get_or-IsNibble [] i h = omega arith
get_or-IsNibble (n ∷ ns) zero h = h.0
get_or-IsNibble (n ∷ ns) (suc i) h = get_or-IsNibble ns i h.1

pub has_term-nibbles : (ns : List ℕ) → All IsNibble ns → has_term ns ≡ false
unfolding has_term
has_term-nibbles [] h = refl
has_term-nibbles (n ∷ ns) h = ground (arith, get_or-IsNibble (n ∷ ns) (length (n ∷ ns) - 1) h)
