-- ===== src/Maps.antt =====
-- `HashMap<Vec<u8>, V>` and `HashSet<Vec<u8>>` as association lists and lists. The order of a
-- hash map is no part of what the program relies on, and is not modelled.
use rust_eth_triedb.Common.{
  ℕ, List, [], ◌∷◌, Bool, true, false, ◌≡◌, refl, arith, if◌then◌else◌, bytes_eq, bytes_eq→eq,
  bytes_eq_refl, Bool-cases, inl, inr, Option, none, some,
}

module _ {ℓ} {V : Type ℓ} where
  -- `get`.
  unfoldable pub get : List ℕ → List (List ℕ × V) → Option V
  get k [] = none
  get k ((j, v) ∷ m) = if bytes_eq j k then some v else get k m

  -- `insert`: a key that is there keeps its place.
  unfoldable pub insert : List ℕ → V → List (List ℕ × V) → List (List ℕ × V)
  insert k v [] = (k, v) ∷ []
  insert k v ((j, w) ∷ m) = if bytes_eq j k then (k, v) ∷ m else (j, w) ∷ insert k v m

  -- `remove`.
  unfoldable pub remove : List ℕ → List (List ℕ × V) → List (List ℕ × V)
  remove k [] = []
  remove k ((j, w) ∷ m) = if bytes_eq j k then remove k m else (j, w) ∷ remove k m

  -- `extend`: the entries of the second map win.
  unfoldable pub extend : List (List ℕ × V) → List (List ℕ × V) → List (List ℕ × V)
  extend m [] = m
  extend m ((k, v) ∷ n) = extend (insert k v m) n

  pub get-insert :
      (k j : List ℕ) (v : V) (m : List (List ℕ × V))
      → get j (insert k v m) ≡ (if bytes_eq k j then some v else get j m)
  unfolding get insert
  get-insert k j v [] = refl
  get-insert k j v ((i, w) ∷ m) = elim (Bool-cases (bytes_eq i k)) [
    | inl e ↦ rw (e, bytes_eq→eq i k e) (ground arith)
    | inr e ↦
        rw e (ground (arith, bytes_eq→eq i j, bytes_eq→eq k j, bytes_eq_refl j, get-insert k j v m))
  ]

  pub get-remove :
      (k j : List ℕ) (m : List (List ℕ × V))
      → get j (remove k m) ≡ (if bytes_eq k j then none else get j m)
  unfolding get remove
  get-remove k j [] = ground arith
  get-remove k j ((i, w) ∷ m) =
      ground (
        arith,
        bytes_eq→eq i k,
        bytes_eq→eq i j,
        bytes_eq→eq k j,
        bytes_eq_refl j,
        get-remove k j m,
      )

-- `contains` of a set.
unfoldable pub contains : List ℕ → List (List ℕ) → Bool
contains k [] = false
contains k (j ∷ s) = if bytes_eq j k then true else contains k s

-- `insert` of a set.
unfoldable pub add : List ℕ → List (List ℕ) → List (List ℕ)
unfolding contains
add k s = if contains k s then s else k ∷ s

-- `remove` of a set.
unfoldable pub discard : List ℕ → List (List ℕ) → List (List ℕ)
discard k [] = []
discard k (j ∷ s) = let rest = discard k s in if bytes_eq j k then rest else j ∷ rest

pub contains-add :
    (k j : List ℕ) (s : List (List ℕ))
    → contains j (add k s) ≡ (if bytes_eq k j then true else contains j s)
unfolding contains add
contains-add k j s = ground (arith, bytes_eq→eq k j)

pub contains-discard :
    (k j : List ℕ) (s : List (List ℕ))
    → contains j (discard k s) ≡ (if bytes_eq k j then false else contains j s)
unfolding contains discard
contains-discard k j [] = ground arith
contains-discard k j (i ∷ s) = ground (
  arith,
  bytes_eq→eq i k,
  bytes_eq→eq i j,
  bytes_eq→eq k j,
  bytes_eq_refl j,
  contains-discard k j s,
)
