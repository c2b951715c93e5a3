-- ===== src/Rlp/Bounds.antt =====
-- What `read_kind` accepts lies inside the buffer, so that no slice is out of range and the loop of
-- `count_values` ends.
use mathlib.Core.Path.{ap₂, ◌∙◌}
use rust_eth_triedb.Common.{
  ℕ, zero, suc, ◌+◌, ◌-◌, ◌≤◌, ◌<◌, List, [], ◌∷◌, ◌++◌, ◌≡◌, ◌≢◌, refl, arith, length, take, drop,
  ok, length-drop, length-take, >>=-eq-ok, none, inl, inr, Result-cases, take-append-drop, sym, ap,
  ok-injective,
}
use Prim.Native.Nat.add
use rust_eth_triedb.Rlp.{
  Kind, check_size, read_size, read_tag, read_kind, split, count_loop, count_values,
}

read_size-le-length : (b : List ℕ) (slen : ℕ) {s : ℕ} → read_size b slen ≡ ok s → slen ≤ length b
unfolding read_size
read_size-le-length b slen h = ground arith

read_tag-bounds :
    (b : ℕ) (buf : List ℕ) {k : Kind} {ts cs : ℕ}
    → read_tag b buf ≡ ok (k, ts, cs)
    → 1 ≤ length buf
    → (1 ≤ ts + cs) × (ts ≤ length buf)
unfolding read_tag
read_tag-bounds b buf h l = ground (
  arith,
  read_size-le-length (drop 1 buf) (b - 0xB7),
  read_size-le-length (drop 1 buf) (b - 0xF7),
  length-drop 1 buf,
)

check_size-bounds :
    (buf : List ℕ) (k' : Kind) (ts' cs' : ℕ) {k : Kind} {ts cs : ℕ}
    → (1 ≤ ts' + cs') × (ts' ≤ length buf)
    → check_size buf (k', ts', cs') ≡ ok (k, ts, cs)
    → (1 ≤ ts + cs) × (ts + cs ≤ length buf)
unfolding check_size
check_size-bounds buf k' ts' cs' b h = ground arith

-- When `read_kind` succeeds, the tag and the content that it reports take a byte at least, and
-- end inside the buffer.
pub read_kind-bounds :
    (buf : List ℕ) {k : Kind} {ts cs : ℕ}
    → read_kind buf ≡ ok (k, ts, cs)
    → (1 ≤ ts + cs) × (ts + cs ≤ length buf)
unfolding read_kind
read_kind-bounds [] h = cc
read_kind-bounds (x ∷ buf) h =
    let ((k', ts', cs'), tag, checked) = >>=-eq-ok (read_tag x (x ∷ buf)) _ h in
    check_size-bounds (x ∷ buf) k' ts' cs' (read_tag-bounds x (x ∷ buf) tag (omega arith)) checked

drop-drop : (m n : ℕ) (xs : List ℕ) → drop n (drop m xs) ≡ drop (m + n) xs
drop-drop zero n xs = rw add.zero
drop-drop (suc m) n [] = rw (add.suc m n) (drop-nil n)
  where
    drop-nil : (n : ℕ) → ◌≡◌ {A = List ℕ} (drop n []) []
    drop-nil zero = refl
    drop-nil (suc n) = refl
drop-drop (suc m) n (x ∷ xs) = rw (add.suc m n) (drop-drop m n xs)

-- When `split` succeeds, the buffer is a tag, the content and the rest in this order, the rest
-- is shorter than the buffer, and the tag and the content have the lengths that `read_kind`
-- reports, so that both slices are in range.
pub split-parts :
    (buf : List ℕ) {k : Kind} {content rest : List ℕ}
    → split buf ≡ ok (k, content, rest)
    → (tag : List ℕ) × (buf ≡ tag ++ (content ++ rest))
      × (length rest < length buf)
      × (read_kind buf ≡ ok (k, length tag, length content))
unfolding split
split-parts buf {k} {content} {rest} h =
    let ((k', ts, cs), tagged, parts) = >>=-eq-ok (read_kind buf) _ h in
    let bounds = read_kind-bounds buf tagged in
    let same_kind : k' ≡ k = ap (λ t. t.0) (ok-injective parts) in
    let content_eq : take cs (drop ts buf) ≡ content = ap (λ t. t.1) (ok-injective parts) in
    let rest_eq : drop (ts + cs) buf ≡ rest = ap (λ t. t.2) (ok-injective parts) in
    let tail : content ++ rest ≡ drop ts buf =
      ap₂ (λ a b. a ++ b) (sym content_eq) (sym rest_eq ∙ sym (drop-drop ts cs buf))
      ∙ take-append-drop cs (drop ts buf) in
    let tag_length : length (take ts buf) ≡ ts = omega (arith, length-take ts buf) in
    let content_length : length content ≡ cs =
      ap length (sym content_eq)
      ∙ omega (arith, length-take cs (drop ts buf), length-drop ts buf) in
    (
      take ts buf,
      rw tail (sym (take-append-drop ts buf)),
      omega (arith, length-drop (ts + cs) buf, ap length rest_eq),
      rw (tag_length, content_length) (tagged ∙ ap (λ x. ok (x, ts, cs)) same_kind),
    )

-- Fuel of the length of the slice is enough: the loop of `count_values` ends on every input.
count_loop-ne-none :
    (fuel : ℕ) (b : List ℕ) (count : ℕ) → length b ≤ fuel → count_loop fuel b count ≢ none
unfolding count_loop
count_loop-ne-none fuel [] count h = λ e. cc
count_loop-ne-none zero (x ∷ b) count h = absurd (omega arith)
count_loop-ne-none (suc fuel) (x ∷ b) count h = elim (Result-cases (read_kind (x ∷ b))) [
  | inr (e, p) ↦ rw (p, count_loop) (λ q. cc)
  | inl ((k, ts, cs), p) ↦
      let bounds = read_kind-bounds (x ∷ b) p in
      rw (p, count_loop)
        (count_loop-ne-none fuel (drop (ts + cs) (x ∷ b)) (count + 1)
          (omega (arith, length-drop (ts + cs) (x ∷ b))))
]

-- `count_values` gives a count or an error on every slice: its loop ends within as many rounds
-- as the slice has bytes.
pub count_values-total : (b : List ℕ) → count_values b ≢ none
unfolding count_values
count_values-total b = count_loop-ne-none (length b) b 0 (omega arith)
