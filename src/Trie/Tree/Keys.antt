-- ===== src/Trie/Tree/Keys.antt =====
-- Terminated keys: none is a proper prefix of another, and where two of them part.
use rust_eth_triedb.Common.{
  ℕ, ◌≤◌, List, [], ◌∷◌, ◌++◌, Bool, true, false, ◌&&◌, ◌≡◌, ◌≢◌, refl, ap, ◌∙◌, arith, ◌==◌,
  ==_iff, ==-false, if◌then◌else◌, All, Bool-cases, inl, inr, bytes_eq,
}
use rust_eth_triedb.Encoding.{key_to_nibbles}
use rust_eth_triedb.Encoding.Terminator.{IsNibble, IsByte}
use rust_eth_triedb.Encoding.Keys.{nibbles_of-nibbles}
use rust_eth_triedb.Trie.Ops.{starts_with}
use rust_eth_triedb.Trie.Tree.{within, apart, exhausted, fork, behind}

-- Nibbles, behind which the terminator follows (`true`) or does not (`false`).
abbrev pub IsPath : Bool → List ℕ → Type 0
IsPath false [] = Unit {0}
IsPath true [] = ⊥
IsPath false (x ∷ k) = IsNibble x × IsPath false k
IsPath true (x ∷ []) = x ≡ 16
IsPath true (x ∷ y ∷ k) = IsNibble x × IsPath true (y ∷ k)

-- What is left of a key: nothing behind the terminator, and a terminated path before it.
abbrev pub IsRest : Bool → List ℕ → Type 0
IsRest true k = k ≡ []
IsRest false k = IsPath true k

-- Whether the terminator has been passed behind `x`.
abbrev pub ended : ℕ → Bool
ended x = x == 16

pub IsRest-tail : (x : ℕ) (k : List ℕ) → IsPath true (x ∷ k) → (x ≤ 16) × IsRest (ended x) k
IsRest-tail x [] h = rw h (omega arith, refl)
IsRest-tail x (y ∷ k) h = rw (==-false x 16 (omega arith)) (omega arith, h.1)

key_to_nibbles-IsPath : (ns : List ℕ) → All IsNibble ns → IsPath true (ns ++ (16 ∷ []))
key_to_nibbles-IsPath [] h = refl
key_to_nibbles-IsPath (x ∷ []) h = (h.0, refl)
key_to_nibbles-IsPath (x ∷ y ∷ ns) h = (h.0, key_to_nibbles-IsPath (y ∷ ns) h.1)

-- The nibbles of a key are a terminated path.
pub key_to_nibbles-IsKey : (key : List ℕ) → All IsByte key → IsPath true (key_to_nibbles key)
unfolding key_to_nibbles
key_to_nibbles-IsKey key h = key_to_nibbles-IsPath _ (nibbles_of-nibbles key h)

heads_agree : (x y : ℕ) (b c : Bool) → b ≡ c → (if x == y then b else false) ≡ ((y == x) && c)
heads_agree x y b c h = ground arith

starts_with-path :
    (k' k : List ℕ) → IsPath true k' → IsPath true k → starts_with k' k ≡ bytes_eq k k'
unfolding starts_with
starts_with-path [] k h' h = elim h' [ ]
starts_with-path (x ∷ k') [] h' h = elim h [ ]
starts_with-path (x ∷ []) (y ∷ []) h' h = ground arith
starts_with-path (x ∷ []) (y ∷ z ∷ k) h' h = ground arith
starts_with-path (x ∷ z ∷ k') (y ∷ []) h' h = ground arith
starts_with-path (x ∷ z ∷ k') (y ∷ w ∷ k) h' h =
    heads_agree x y _ _ (starts_with-path (z ∷ k') (w ∷ k) h'.1 h.1)

-- Of two rests of keys at one place, one is a prefix of the other only if they are equal.
pub starts_with-key :
    (k' k : List ℕ) (e : Bool) → IsRest e k' → IsRest e k → starts_with k' k ≡ bytes_eq k k'
unfolding starts_with
starts_with-key k' k true h' h = rw (h', h)
starts_with-key k' k false h' h = starts_with-path k' k h' h

-- The three ways in which a key and the key of a short node relate, with the equations.
pub data View (k sk : List ℕ) : Type 0 where
  is_within : (r : List ℕ) → fork k sk ≡ within r → k ≡ sk ++ r → View k sk
  is_apart :
      (q : List ℕ) (a : ℕ) (s : List ℕ) (b : ℕ) (r : List ℕ)
      → fork k sk ≡ apart q a s b r
      → sk ≡ q ++ (a ∷ s)
      → k ≡ q ++ (b ∷ r)
      → b ≢ a
      → View k sk
  is_exhausted : (x : ℕ) (t : List ℕ) → fork k sk ≡ exhausted → sk ≡ k ++ (x ∷ t) → View k sk

View-behind :
    (x y : ℕ) (k sk : List ℕ)
    → x ≡ y
    → fork (x ∷ k) (y ∷ sk) ≡ behind x (fork k sk)
    → View k sk
    → View (x ∷ k) (y ∷ sk)
View-behind x y k sk e f (is_within r g p) = is_within r (f ∙ ap (behind x) g) (rw (e, p))
View-behind x y k sk e f (is_apart q a s b r g p p' n) =
    is_apart (x ∷ q) a s b r (f ∙ ap (behind x) g) (rw (e, p)) (rw p') n
View-behind x y k sk e f (is_exhausted z t g p) = is_exhausted z t (f ∙ ap (behind x) g) (rw (e, p))

pub view : (k sk : List ℕ) → View k sk
unfolding fork
view k [] = is_within k refl refl
view [] (a ∷ s) = is_exhausted a s refl refl
view (b ∷ k) (a ∷ s) = elim (Bool-cases (b == a)) [
  | inl e ↦ View-behind b a k s ((==_iff b a).0 e) (rw e) (view k s)
  | inr n ↦ is_apart [] a s b k (rw n) refl refl (λ e. ground arith)
]

-- A key never ends inside a path.
pub key-not_inside :
    (e : Bool) (k : List ℕ) (x : ℕ) (t : List ℕ) → IsPath true k → IsPath e (k ++ (x ∷ t)) → ⊥
key-not_inside e [] x t h p = h
key-not_inside true (y ∷ []) x t h p = absurd (omega arith)
key-not_inside false (y ∷ []) x t h p = absurd (omega arith)
key-not_inside true (y ∷ z ∷ k) x t h p = key-not_inside true (z ∷ k) x t h.1 p.1
key-not_inside false (y ∷ z ∷ k) x t h p = key-not_inside false (z ∷ k) x t h.1 p.1

-- What is left of a key behind a part of it that is a path.
pub IsRest-behind : (e : Bool) (sk r : List ℕ) → IsPath e sk → IsPath true (sk ++ r) → IsRest e r
IsRest-behind true [] r p h = elim p [ ]
IsRest-behind false [] r p h = h
IsRest-behind true (x ∷ []) [] p h = refl
IsRest-behind true (x ∷ []) (y ∷ r) p h = absurd (omega arith)
IsRest-behind false (x ∷ []) [] p h = absurd (omega arith)
IsRest-behind false (x ∷ []) (y ∷ r) p h = h.1
IsRest-behind true (x ∷ z ∷ sk) r p h = IsRest-behind true (z ∷ sk) r p.1 h.1
IsRest-behind false (x ∷ z ∷ sk) r p h = IsRest-behind false (z ∷ sk) r p.1 h.1

pub starts_with-append : (sk r : List ℕ) → starts_with (sk ++ r) sk ≡ true
unfolding starts_with
starts_with-append [] r = refl
starts_with-append (x ∷ sk) r = ground (arith, starts_with-append sk r)
