-- ===== src/Rlp/Lists.antt =====
-- RLP lists: their headers, and how many values stand in a row.
use rust_eth_triedb.Common.{
  ℕ, zero, suc, ◌+◌, ◌-◌, ◌^◌, ◌≤◌, ◌<◌, List, [], ◌∷◌, ◌++◌, ◌≡◌, refl, ap, ◌∙◌, arith, length,
  ltb, ltb→lt, ltb-false→le, le→leb, lt→leb-false, inl, inr, Bool-cases, if◌then◌else◌, some, ok,
  ok-injective, >>=-eq-ok, All, length-append, append_assoc,
}
use rust_eth_triedb.Rlp.{
  Kind, list, putint_bytes, read_tag, read_kind, split, count_loop, count_values,
}
use rust_eth_triedb.Rlp.Size.{putint_bytes-IsSizeOf, read_size-putint_bytes}
use rust_eth_triedb.Rlp.Tagged.{split-tagged}
use rust_eth_triedb.Rlp.Bounds.{split-parts}

-- The header of a list whose content has the given length.
unfoldable pub list_form : ℕ → List ℕ
unfolding putint_bytes
list_form n =
    if ltb n 56 then (0xC0 + n) ∷ [] else (0xF7 + length (putint_bytes n)) ∷ putint_bytes n

short_list_tag : (n : ℕ) (buf : List ℕ) → n < 56 → read_tag (0xC0 + n) buf ≡ ok (list, 1, n)
unfolding read_tag
short_list_tag n buf h =
    let size : 0xC0 + n - 0xC0 ≡ n = omega arith in
    rw (
      lt→leb-false (0xC0 + n) 0x7F (omega arith),
      lt→leb-false (0xC0 + n) 0xB7 (omega arith),
      lt→leb-false (0xC0 + n) 0xBF (omega arith),
      le→leb (0xC0 + n) 0xF7 (omega arith),
      size,
    )

long_list_tag :
    (n : ℕ) (rest : List ℕ)
    → 56 ≤ n
    → n < 2 ^ 64
    → let size = putint_bytes n in
      read_tag (0xF7 + length size) ((0xF7 + length size) ∷ (size ++ rest))
      ≡ ok (list, length size + 1, n)
unfolding read_tag
long_list_tag n rest l h =
    let s = putint_bytes-IsSizeOf n (omega arith) h in
    let tag_size : 0xF7 + length (putint_bytes n) - 0xF7 ≡ length (putint_bytes n) = omega arith in
    rw (
      lt→leb-false (0xF7 + length (putint_bytes n)) 0x7F (omega arith),
      lt→leb-false (0xF7 + length (putint_bytes n)) 0xB7 (omega arith),
      lt→leb-false (0xF7 + length (putint_bytes n)) 0xBF (omega arith),
      lt→leb-false (0xF7 + length (putint_bytes n)) 0xF7 (omega (arith, s.shortest)),
      tag_size,
      read_size-putint_bytes n rest l h,
    )

-- A list is read back, whatever follows it.
pub split-list_form :
    (p rest : List ℕ)
    → length p < 2 ^ 56
    → split ((list_form (length p) ++ p) ++ rest) ≡ ok (list, p, rest)
unfolding list_form
split-list_form p rest h = elim (Bool-cases (ltb (length p) 56)) [
  | inl e ↦ rw e (
      split-tagged list ((0xC0 + length p) ∷ []) p rest refl
        (short_list_tag (length p) _ (ltb→lt _ _ e)))
  | inr e ↦
      (let size : List ℕ = putint_bytes (length p) in
        let tag_size : suc (length size) ≡ length size + 1 = omega arith in
        rw (e, append_assoc size p rest)
          (split-tagged list ((0xF7 + length size) ∷ size) p rest refl (
            rw tag_size (long_list_tag (length p) (p ++ rest) (ltb-false→le _ _ e) (omega arith)))))
]

-- Bytes that are one RLP value, whatever follows them.
abbrev pub IsItem : List ℕ → Type 0
IsItem item =
    (rest : List ℕ)
    → (k : Kind) × (content : List ℕ) × (split (item ++ rest) ≡ ok (k, content, rest))

abbrev pub concat : List (List ℕ) → List ℕ
concat [] = []
concat (item ∷ items) = item ++ concat items

pub item_filled : (item : List ℕ) → IsItem item → 1 ≤ length item
item_filled item h =
    let (k, content, e) = h [] in
    let (tag, _, shorter, _) = split-parts (item ++ []) e in omega (arith, length-append item [])

count_item :
    (fuel count : ℕ) (b rest : List ℕ) (k : Kind) (content : List ℕ)
    → split b ≡ ok (k, content, rest)
    → 1 ≤ length b
    → count_loop (suc fuel) b count ≡ count_loop fuel rest (count + 1)
unfolding split count_loop
count_item fuel count [] rest k content e h = absurd (omega arith)
count_item fuel count (x ∷ b) rest k content e h =
    let ((k', ts, cs), kind, parts) = >>=-eq-ok (read_kind (x ∷ b)) _ e in
    rw (kind, count_loop)
      (ap (λ r. count_loop fuel r (count + 1)) (ap (λ t. t.2) (ok-injective parts)))

count_items :
    (fuel count : ℕ) (items : List (List ℕ))
    → All IsItem items
    → length items ≤ fuel
    → count_loop fuel (concat items) count ≡ some (ok (count + length items))
unfolding count_loop
count_items fuel count [] hs m = ap (λ n. some (ok n)) (omega arith)
count_items zero count (item ∷ items) hs m = absurd (omega arith)
count_items (suc fuel) count (item ∷ items) (h, hs) m =
    let (k, content, e) = h (concat items) in
    count_item fuel count (item ++ concat items) (concat items) k content e
      (omega (arith, item_filled item h, length-append item (concat items)))
    ∙ count_items fuel (count + 1) items hs (omega arith)
    ∙ ap (λ n. some (ok n)) (omega arith)

items_fit : (items : List (List ℕ)) → All IsItem items → length items ≤ length (concat items)
items_fit [] hs = omega arith
items_fit (item ∷ items) (h, hs) =
    omega (arith, item_filled item h, items_fit items hs, length-append item (concat items))

pub count_values-concat :
    (items : List (List ℕ))
    → All IsItem items
    → count_values (concat items) ≡ some (ok (length items))
unfolding count_values
count_values-concat items hs =
    count_items (length (concat items)) 0 items hs (items_fit items hs)
    ∙ ap (λ n. some (ok n)) (omega arith)
