-- ===== src/Rlp/Tagged.antt =====
-- What `split` returns once the tag of the first value is known.
use rust_eth_triedb.Common.{
  ℕ, ◌+◌, ◌-◌, List, ◌++◌, false, ◌≡◌, sym, arith, length, get_or, drop, is_empty, ltb,
  le→ltb-false, ok, length-append, take-length_append, drop-length_append, append_assoc,
}
use rust_eth_triedb.Rlp.{Kind, read_tag, read_kind, split}

drop-append_append :
    {A : Type 0} (xs ys zs : List A) → drop (length xs + length ys) (xs ++ (ys ++ zs)) ≡ zs
drop-append_append xs ys zs =
    rw (sym (length-append xs ys), sym (append_assoc xs ys zs)) (drop-length_append (xs ++ ys) zs)

module _ (k : Kind) (head b rest : List ℕ) where
  pub read_kind-tagged :
      is_empty (head ++ (b ++ rest)) ≡ false
      → read_tag (get_or (head ++ (b ++ rest)) 0 0) (head ++ (b ++ rest))
        ≡ ok (k, length head, length b)
      → read_kind (head ++ (b ++ rest)) ≡ ok (k, length head, length b)
  unfolding read_kind
  read_kind-tagged some_byte tag =
      let fits : ltb (length (head ++ (b ++ rest)) - length head) (length b) ≡ false =
        le→ltb-false _ _ (omega (arith, length-append head (b ++ rest), length-append b rest)) in
      rw (some_byte, tag, fits)

  pub split-tagged :
      is_empty (head ++ (b ++ rest)) ≡ false
      → read_tag (get_or (head ++ (b ++ rest)) 0 0) (head ++ (b ++ rest))
        ≡ ok (k, length head, length b)
      → split (head ++ (b ++ rest)) ≡ ok (k, b, rest)
  unfolding split
  split-tagged some_byte tag = rw (
    read_kind-tagged some_byte tag,
    drop-length_append head (b ++ rest),
    take-length_append b rest,
    drop-append_append head b rest,
  )
