-- ===== src/NodeSet/Sorting.antt =====
-- `sort_by` of the standard library, as state-trie/src/node/node_set.rs calls it, and the order of
-- bytes and strings.
use rust_eth_triedb.Common.{
  ℕ, List, [], ◌∷◌, Bool, true, false, ◌≡◌, refl, ap, sym, ◌∙◌, arith, if◌then◌else◌, ltb,
  Bool-cases, inl, inr,
}
use mathlib.Core.List.{Memᴰ, Permᴰ}

module _ {ℓ} {A : Type ℓ} (le : A → A → Bool) where
  -- An element goes before the elements that it is not after.
  unfoldable pub place : A → List A → List A
  place a [] = a ∷ []
  place a (b ∷ l) = let rest = place a l in if le a b then a ∷ b ∷ l else b ∷ rest

  -- `sort_by`, which keeps the order of equal elements.
  unfoldable pub sort_by : List A → List A
  unfolding place
  sort_by [] = []
  sort_by (a ∷ l) = place a (sort_by l)

  -- The elements of a list that are as great as each other are equal.
  abbrev pub IsOrdered : List A → Type ℓ
  IsOrdered l = (a b : A) → Memᴰ a l → Memᴰ b l → le a b ≡ true → le b a ≡ true → a ≡ b

-- `cmp` of bytes and of strings, which compares their bytes.
unfoldable pub bytes_le : List ℕ → List ℕ → Bool
bytes_le [] k = true
bytes_le (x ∷ j) [] = false
bytes_le (x ∷ j) (y ∷ k) =
    let rest = bytes_le j k in if ltb x y then true else (if ltb y x then false else rest)

pub bytes_le_total : (j k : List ℕ) → bytes_le j k ≡ false → bytes_le k j ≡ true
unfolding bytes_le
bytes_le_total [] k h = ground arith
bytes_le_total (x ∷ j) [] h = refl
bytes_le_total (x ∷ j) (y ∷ k) h = ground (arith, bytes_le_total j k)

pub bytes_le_trans :
    (i j k : List ℕ) → bytes_le i j ≡ true → bytes_le j k ≡ true → bytes_le i k ≡ true
unfolding bytes_le
bytes_le_trans [] j k h g = refl
bytes_le_trans (x ∷ i) [] k h g = ground arith
bytes_le_trans (x ∷ i) (y ∷ j) [] h g = ground arith
bytes_le_trans (x ∷ i) (y ∷ j) (z ∷ k) h g = ground (arith, bytes_le_trans i j k)

pub bytes_le_antisymm : (j k : List ℕ) → bytes_le j k ≡ true → bytes_le k j ≡ true → j ≡ k
unfolding bytes_le
bytes_le_antisymm [] [] h g = refl
bytes_le_antisymm [] (y ∷ k) h g = ground arith
bytes_le_antisymm (x ∷ j) [] h g = ground arith
bytes_le_antisymm (x ∷ j) (y ∷ k) h g = ground (arith, bytes_le_antisymm j k)

Permᴰ-Mem {ℓ} : {A : Type ℓ} {a : A} {l m : List A} → Permᴰ l m → Memᴰ a m → Memᴰ a l
Permᴰ-Mem Permᴰ.nil i = i
Permᴰ-Mem (Permᴰ.cons e p) (Memᴰ.head f) = Memᴰ.head (f ∙ sym e)
Permᴰ-Mem (Permᴰ.cons e p) (Memᴰ.tail i) = Memᴰ.tail (Permᴰ-Mem p i)
Permᴰ-Mem (Permᴰ.swap e f) (Memᴰ.head g) = Memᴰ.tail (Memᴰ.head (g ∙ sym f))
Permᴰ-Mem (Permᴰ.swap e f) (Memᴰ.tail (Memᴰ.head g)) = Memᴰ.head (g ∙ sym e)
Permᴰ-Mem (Permᴰ.swap e f) (Memᴰ.tail (Memᴰ.tail i)) = Memᴰ.tail (Memᴰ.tail i)
Permᴰ-Mem (Permᴰ.trans p q) i = Permᴰ-Mem p (Permᴰ-Mem q i)

module _ {ℓ} {A : Type ℓ} (le : A → A → Bool)
    (le_total : (a b : A) → le a b ≡ false → le b a ≡ true)
    (le_trans : (a b c : A) → le a b ≡ true → le b c ≡ true → le a c ≡ true) where
  place-before :
      (a b : A) (l : List A)
      → le a b ≡ true
      → le b a ≡ false
      → place le a (place le b l) ≡ place le b (place le a l)
  unfolding place
  place-before a b [] e f = rw (e, f) refl
  place-before a b (c ∷ l) e f = elim (Bool-cases (le b c)) [
    | inl g ↦ rw (g, e, le_trans a b c e g, f, g) refl
    | inr g ↦ elim (Bool-cases (le a c)) [
      | inl k ↦ rw (g, k, f, g) refl
      | inr k ↦ rw (g, k, g) (ap (λ m. c ∷ m) (place-before a b l e f))
    ]
  ]

  place_comm :
      (a b : A) (l : List A)
      → (le a b ≡ true → le b a ≡ true → a ≡ b)
      → place le a (place le b l) ≡ place le b (place le a l)
  place_comm a b l h = elim (Bool-cases (le a b)) [
    | inr e ↦ sym (place-before b a l (le_total a b e) e)
    | inl e ↦ elim (Bool-cases (le b a)) [
      | inr f ↦ place-before a b l e f
      | inl f ↦
          ap (λ c. place le c (place le b l)) (h e f)
          ∙ ap (λ c. place le b (place le c l)) (sym (h e f))
    ]
  ]

  pub sort_by-Perm : {l m : List A} → Permᴰ l m → IsOrdered le l → sort_by le l ≡ sort_by le m
  unfolding sort_by
  sort_by-Perm Permᴰ.nil h = refl
  sort_by-Perm {l = a ∷ l} {m = b ∷ n} (Permᴰ.cons e p) h =
      ap (λ m. place le a m) (sort_by-Perm p (λ c d mc md. h c d (Memᴰ.tail mc) (Memᴰ.tail md)))
      ∙ ap (λ c. place le c (sort_by le n)) e
  sort_by-Perm {l = a ∷ b ∷ l} {m = c ∷ d ∷ n} (Permᴰ.swap e f) h =
      place_comm a b (sort_by le l) (h a b (Memᴰ.head refl) (Memᴰ.tail (Memᴰ.head refl)))
      ∙ ap (λ c. place le c (place le a (sort_by le l))) f
      ∙ ap (λ x. place le c (place le x (sort_by le l))) e
  sort_by-Perm (Permᴰ.trans p q) h =
      sort_by-Perm p h ∙ sort_by-Perm q (λ a b ma mb. h a b (Permᴰ-Mem p ma) (Permᴰ-Mem p mb))
