-- ===== src/Node/Parts.antt =====
-- The parts of an encoded node of state-trie/src/node, read back one by one.
use rust_eth_triedb.Common.{
  ℕ, zero, suc, ◌+◌, ◌*◌, ◌^◌, ◌≤◌, ◌<◌, List, [], ◌∷◌, ◌++◌, Bool, true, false, ◌≡◌, refl, ap, sym,
  ◌∙◌, arith, length, is_empty, get_or, ltb, leb, ltb-false→le, ◌==◌, ◌&&◌, inl, inr, Bool-cases,
  if◌then◌else◌, Option, some, Result, ok, err, >>=-eq-ok, ok-injective, All, length-append,
  append-nil,
}
use rust_eth_triedb.Encoding.{hex_to_compact, has_term}
use rust_eth_triedb.Encoding.Terminator.{IsHex}
use rust_eth_triedb.Encoding.Compact.{compact_to_hex-hex_to_compact}
use rust_eth_triedb.Rlp.{
  RlpRawError, unexpected_list, string, is_list, putint_bytes, write_bytes, split, split_list,
  split_string,
}
use rust_eth_triedb.Rlp.Size.{putint_bytes-IsSizeOf}
use rust_eth_triedb.Rlp.Strings.{
  string_form, write_bytes-string_form, split_string-string_form, split-short,
}
use rust_eth_triedb.Rlp.Lists.{list_form, split-list_form, IsItem, item_filled, concat}
use rust_eth_triedb.Node.{Node, Nodes, empty, full, short, hash, value, nil, cons}
use rust_eth_triedb.Node.Encode.{joined, encode, encode_all}
use rust_eth_triedb.Node.Decode.{clean_flag, decode_short, decode_children, decode_ref}
use rust_eth_triedb.Node.Compacted.{compacted, compacted_all, IsShortened, IsLastChild}
use rust_eth_triedb.Hasher.Sized.{length-hex_to_compact}

tail_of_string :
    (c : Bool) (content tail b rest : List ℕ)
    → ◌≡◌ {A = Result RlpRawError (List ℕ × List ℕ)}
        (if◌then◌else◌ {A = Result RlpRawError (List ℕ × List ℕ)} c
          (err unexpected_list)
          (ok (content, tail)))
        (ok (b, rest))
    → tail ≡ rest
tail_of_string true content tail b rest q = cc
tail_of_string false content tail b rest q = ap (λ p. p.1) (ok-injective q)

string_form-IsItem : (b : List ℕ) → length b < 2 ^ 64 → IsItem (string_form b)
unfolding split_string
string_form-IsItem b h rest =
    let ((k, content, tail), e, q) =
      >>=-eq-ok (split (string_form b ++ rest)) _ (split_string-string_form b rest h) in
    (
      k,
      content,
      e ∙ ap (λ r. ok (k, content, r)) (tail_of_string (is_list k) content tail b rest q),
    )

length-string_form : (b : List ℕ) → length b < 2 ^ 56 → length (string_form b) ≤ length b + 9
unfolding string_form
length-string_form b h = elim (Bool-cases (length b == 1 && leb (get_or b 0 0) 0x7F)) [
  | inl e ↦ rw e (omega arith)
  | inr e ↦ elim (Bool-cases (ltb (length b) 56)) [
    | inl t ↦ rw (e, t) (omega arith)
    | inr f ↦
        (let s =
            putint_bytes-IsSizeOf (length b) (omega (arith, ltb-false→le _ _ f)) (omega arith) in
          rw (e, f) (omega (arith, s.longest, length-append (putint_bytes (length b)) b)))
  ]
]

pub length-list_form : (n : ℕ) → 1 ≤ length (list_form n)
unfolding list_form
length-list_form n = elim (Bool-cases (ltb n 56)) [
  | inl e ↦ rw e (omega arith)
  | inr e ↦ rw e (omega arith)
]

pub filled_front : (n : ℕ) (p rest : List ℕ) → is_empty ((list_form n ++ p) ++ rest) ≡ false
unfolding list_form
filled_front n p rest = elim (Bool-cases (ltb n 56)) [ inl e ↦ rw e refl | inr e ↦ rw e refl ]

pub split_list-list_form :
    (p rest : List ℕ)
    → length p < 2 ^ 56
    → split_list ((list_form (length p) ++ p) ++ rest) ≡ ok (p, rest)
unfolding split_list
split_list-list_form p rest m = rw (split-list_form p rest m) refl

-- A reference that is encoded, and read back whatever follows it.
abbrev pub IsBack : (ℕ → List ℕ) → Node → Type 0
IsBack list_header n =
    (out : List ℕ) × (encode list_header (compacted n) ≡ some out)
    × IsItem out
    × (length out ≤ 41)
    × ((fuel : ℕ) (rest : List ℕ)
        → length out ≤ fuel
        → decode_ref fuel (out ++ rest) ≡ ok (n, rest))

-- The content of the list of a short node.
abbrev pub IsShortBack : (ℕ → List ℕ) → List ℕ → Node → Type 0
IsShortBack list_header key val =
    (a : List ℕ) × (b : List ℕ) × (joined (write_bytes (hex_to_compact key))
        (encode list_header (compacted val))
      ≡ some (a ++ b))
    × IsItem a
    × IsItem b
    × (length (a ++ b) < 2 ^ 56)
    × ((fuel : ℕ) (h : Option (List ℕ))
        → length (a ++ b) ≤ fuel
        → decode_short (decode_ref fuel) h (a ++ b) ≡ ok (short key val (clean_flag h)))

-- The content of the list of a full node, from a child on.
abbrev pub AreBack : (ℕ → List ℕ) → ℕ → Nodes → Type 0
AreBack list_header n cs =
    (items : List (List ℕ)) × (encode_all list_header (compacted_all cs) ≡ some (concat items))
    × All IsItem items
    × (length items ≡ n + 1)
    × (length (concat items) ≤ 41 * n + (2 ^ 32 + 9))
    × ((fuel : ℕ)
        → length (concat items) ≤ fuel
        → decode_children (decode_ref fuel) n (concat items) ≡ ok cs)

pub empty-IsBack : (list_header : ℕ → List ℕ) → IsBack list_header empty
unfolding encode decode_ref string_form
empty-IsBack list_header = (
  0x80 ∷ [],
  refl,
  (λ rest. (string, [], split-short [] rest (omega arith) refl)),
  omega arith,
  read,
)
  where
    read : (fuel : ℕ) (rest : List ℕ) → 1 ≤ fuel → decode_ref fuel (0x80 ∷ rest) ≡ ok (empty, rest)
    read zero rest m = absurd (omega arith)
    read (suc fuel) rest m = rw (split-short [] rest (omega arith) refl) refl

pub hash-IsBack :
    (list_header : ℕ → List ℕ) (h : List ℕ) → length h ≡ 32 → IsBack list_header (hash h)
unfolding encode decode_ref
hash-IsBack list_header h l = (
  string_form h,
  write_bytes-string_form h (omega arith),
  string_form-IsItem h (omega arith),
  omega (arith, length-string_form h (omega arith)),
  read,
)
  where
    not_single : (length h == 1 && leb (get_or h 0 0) 0x7F) ≡ false
    not_single = rw l refl

    filled : (h : List ℕ) → length h ≡ 32 → is_empty h ≡ false
    filled [] e = absurd (omega arith)
    filled (x ∷ h) e = refl

    read :
        (fuel : ℕ) (rest : List ℕ)
        → length (string_form h) ≤ fuel
        → decode_ref fuel (string_form h ++ rest) ≡ ok (hash h, rest)
    read zero rest m =
        absurd (omega (arith, item_filled (string_form h) (string_form-IsItem h (omega arith))))
    read (suc fuel) rest m = rw (split-short h rest (omega arith) not_single, filled h l, l) refl

-- What follows the key of a short node, by whether the key has a terminator.
pub leaf-IsShortBack :
    (list_header : ℕ → List ℕ) (key v : List ℕ)
    → IsHex key
    → IsShortened key
    → has_term key ≡ true
    → IsShortened v
    → IsShortBack list_header key (value v)
unfolding encode decode_short
leaf-IsShortBack list_header key v hex small t small' =
    let k : List ℕ = hex_to_compact key in
    let fits : length k < 2 ^ 33 = omega (arith, length-hex_to_compact key) in
    (
      string_form k,
      string_form v,
      rw (write_bytes-string_form k (omega arith), write_bytes-string_form v (omega arith)) refl,
      string_form-IsItem k (omega arith),
      string_form-IsItem v (omega arith),
      omega (
        arith,
        length-append (string_form k) (string_form v),
        length-string_form k (omega arith),
        length-string_form v (omega arith),
      ),
      λ fuel h m.
          rw
            (
              split_string-string_form k (string_form v) (omega arith),
              compact_to_hex-hex_to_compact key hex,
              t,
              ap split_string (sym (append-nil (string_form v)))
                  ∙ split_string-string_form v [] (omega arith),
            )
            refl,
    )

pub extension-IsShortBack :
    (list_header : ℕ → List ℕ) (key : List ℕ) (val : Node)
    → IsHex key
    → IsShortened key
    → has_term key ≡ false
    → IsBack list_header val
    → IsShortBack list_header key val
unfolding encode decode_short
extension-IsShortBack list_header key val hex small t (out, e, item, short_out, back) =
    let k : List ℕ = hex_to_compact key in
    let fits : length k < 2 ^ 33 = omega (arith, length-hex_to_compact key) in
    (
      string_form k,
      out,
      rw (write_bytes-string_form k (omega arith), e) refl,
      string_form-IsItem k (omega arith),
      item,
      omega (arith, length-append (string_form k) out, length-string_form k (omega arith)),
      λ fuel h m.
          rw
            (
              split_string-string_form k out (omega arith),
              compact_to_hex-hex_to_compact key hex,
              t,
              ap (decode_ref fuel) (sym (append-nil out))
                  ∙ back fuel [] (omega (arith, length-append (string_form k) out)),
            )
            refl,
    )

pub last-AreBack :
    (list_header : ℕ → List ℕ) (c : Node) → IsLastChild c → AreBack list_header zero (cons c nil)
unfolding encode decode_children string_form
last-AreBack list_header empty h = (
  (0x80 ∷ []) ∷ [],
  refl,
  ((λ rest. (string, [], split-short [] rest (omega arith) refl)), tt),
  refl,
  omega arith,
  λ fuel m. rw (split_string-string_form [] [] (omega arith)) refl,
)
last-AreBack list_header (value v) (filled, small) = (
  string_form v ∷ [],
  rw (write_bytes-string_form v (omega arith)) refl,
  (string_form-IsItem v (omega arith), tt),
  refl,
  omega (arith, length-string_form v (omega arith), length-append (string_form v) []),
  λ fuel m. rw (split_string-string_form v [] (omega arith), filled) refl,
)
last-AreBack list_header (full cs f) h = elim h [ ]
last-AreBack list_header (short k v f) h = elim h [ ]
last-AreBack list_header (hash x) h = elim h [ ]

pub cons-AreBack :
    (list_header : ℕ → List ℕ) (n : ℕ) (c : Node) (cs : Nodes)
    → IsBack list_header c
    → AreBack list_header n cs
    → AreBack list_header (suc n) (cons c cs)
unfolding encode decode_children
cons-AreBack list_header n c cs (out, e, item, short_out, back)
      (items, e', all, count, bound, backs) =
    (
      out ∷ items,
      rw (e, e') refl,
      (item, all),
      omega arith,
      omega (arith, length-append out (concat items)),
      λ fuel m.
          rw
            (
              back fuel (concat items) (omega (arith, length-append out (concat items))),
              backs fuel (omega (arith, length-append out (concat items))),
            )
            refl,
    )
