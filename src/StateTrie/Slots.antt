-- ===== src/StateTrie/Slots.antt =====
-- The value of a storage slot comes back from its RLP string.
use rust_eth_triedb.Common.{
  ℕ, ◌^◌, ◌<◌, List, [], ◌∷◌, false, ◌&&◌, ◌==◌, ltb, leb, ◌≡◌, refl, ap, sym, ◌∙◌, if◌then◌else◌,
  is_empty, length, some, Result, ok, err, ok-injective, Bool-cases, inl, inr, arith, append-nil,
  get_or, ◌>>=◌,
}
use rust_eth_triedb.Rlp.{Kind, RlpRawError, split, split_string, is_list}
use rust_eth_triedb.Rlp.Strings.{string_form, split_string-string_form}
use rust_eth_triedb.StateTrie.{storage_of, content_of}

pub string_form-filled : (b : List ℕ) → is_empty (string_form b) ≡ false
unfolding string_form
string_form-filled [] = refl
string_form-filled (x ∷ b) =
    elim (Bool-cases (length (x ∷ b) == 1 && leb (get_or (x ∷ b) 0 0) 0x7F)) [
      | inl e ↦ rw e refl
      | inr e ↦ elim (Bool-cases (ltb (length (x ∷ b)) 56)) [
        | inl t ↦ rw (e, t) refl
        | inr f ↦ rw (e, f) refl
      ]
    ]

-- The content that `split_string` finds is that of `split`.
split-split_string :
    (enc value rest : List ℕ)
    → split_string enc ≡ ok (value, rest)
    → (k : Kind) × (split enc ≡ ok (k, value, rest))
unfolding split_string
split-split_string enc value rest = go (split enc)
  where
    go :
        (r : Result RlpRawError (Kind × List ℕ × List ℕ))
        → ◌>>=◌ {B = List ℕ × List ℕ} r (λ (k, content, rest').
          if is_list k then err RlpRawError.unexpected_list else ok (content, rest'))
          ≡ ok (value, rest)
        → (k : Kind) × (r ≡ ok (k, value, rest))
    go (err x) e = cc
    go (ok (Kind.list, v, r)) e = cc
    go (ok (Kind.byte, v, r)) e = (Kind.byte, ap (λ p. ok (Kind.byte, p.0, p.1)) (ok-injective e))
    go (ok (Kind.string, v, r)) e =
        (Kind.string, ap (λ p. ok (Kind.string, p.0, p.1)) (ok-injective e))

storage_of-split :
    (enc value rest : List ℕ) (k : Kind)
    → is_empty enc ≡ false
    → split enc ≡ ok (k, value, rest)
    → storage_of enc ≡ ok (some value)
unfolding storage_of
storage_of-split [] value rest k filled e = cc
storage_of-split (x ∷ enc) value rest k filled e = ap content_of e

pub storage_of-string_form :
    (b : List ℕ) → length b < 2 ^ 56 → storage_of (string_form b) ≡ ok (some b)
storage_of-string_form b h =
    let (k, e) = split-split_string (string_form b) b [] (
      ap split_string (sym (append-nil (string_form b)))
      ∙ split_string-string_form b [] (omega arith)) in
    storage_of-split (string_form b) b [] k (string_form-filled b) e
