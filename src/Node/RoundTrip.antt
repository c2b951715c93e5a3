-- ===== src/Node/RoundTrip.antt =====
-- Nodes of state-trie/src/node come back from their encoding.
use rust_eth_triedb.Common.{
  ℕ, zero, suc, ◌+◌, ◌-◌, ◌^◌, ◌≤◌, ◌<◌, List, [], ◌∷◌, ◌++◌, true, ◌≡◌, refl, ap, sym, ◌∙◌, arith,
  length, le→ltb-false, ◌==◌, inl, inr, if◌then◌else◌, Option, none, some, ok, err, All,
  length-append, append-nil,
}
use mathlib.Core.Path.{subst}
use rust_eth_triedb.Encoding.{has_term}
use rust_eth_triedb.Encoding.Terminator.{IsHex}
use rust_eth_triedb.Rlp.{list, split}
use rust_eth_triedb.Rlp.Lists.{list_form, split-list_form, IsItem, concat, count_values-concat}
use rust_eth_triedb.Node.{Node, Nodes, NodeFlag, empty, full, short, hash, value, nil, cons}
use rust_eth_triedb.Node.Encode.{in_list, encode, node_to_bytes}
use rust_eth_triedb.Node.Decode.{
  RlpError, clean_flag, by_count, decode_short, decode_full, decode_node_with, decode_ref,
  decode_node,
}
use rust_eth_triedb.Node.Compacted.{
  compacted, IsShortened, IsLeafValue, IsEmbedded, IsRef, IsShort, AreChildren, IsStored, reflagged,
}
use rust_eth_triedb.Node.Parts.{
  length-list_form, filled_front, split_list-list_form, IsBack, IsShortBack, AreBack, empty-IsBack,
  hash-IsBack, leaf-IsShortBack, extension-IsShortBack, last-AreBack, cons-AreBack,
}

module _ (list_header : ℕ → List ℕ)
    (headers : (n : ℕ) → n < 2 ^ 56 → list_header n ≡ list_form n) where
  -- A list is encoded, and its values are counted.
  decoded_list :
      (h : Option (List ℕ)) (fuel : ℕ) (items : List (List ℕ)) (rest : List ℕ)
      → All IsItem items
      → length (concat items) < 2 ^ 56
      → decode_node_with (decode_ref fuel) h (in_list list_header (concat items) ++ rest) ≡ (
          if length items == 2
          then decode_short (decode_ref fuel) h (concat items)
          else if length items == 17
          then decode_full (decode_ref fuel) h (concat items)
          else err RlpError.invalid_number_of_elements)
  unfolding decode_node_with
  decoded_list h fuel items rest hs m =
      rw
        (
          headers (length (concat items)) m,
          split_list-list_form (concat items) rest m,
          filled_front (length (concat items)) (concat items) rest,
        )
        (ap (by_count (decode_ref fuel) h (concat items)) (count_values-concat items hs))

  -- The same for a content that is written in another way.
  decoded_content :
      (h : Option (List ℕ)) (fuel : ℕ) (items : List (List ℕ)) (p rest : List ℕ)
      → All IsItem items
      → p ≡ concat items
      → length p < 2 ^ 56
      → decode_node_with (decode_ref fuel) h (in_list list_header p ++ rest)
        ≡ by_count (decode_ref fuel) h p (some (ok (length items)))
  decoded_content h fuel items p rest hs e m =
      subst
        (λ q.
          decode_node_with (decode_ref fuel) h (in_list list_header q ++ rest)
          ≡ by_count (decode_ref fuel) h q (some (ok (length items))))
        (sym e) (decoded_list h fuel items rest hs (omega (arith, ap length e)))

  decode_ref-list :
      (fuel : ℕ) (buf p rest : List ℕ) (n : Node)
      → split buf ≡ ok (list, p, rest)
      → length buf - length rest ≤ 32
      → decode_node_with (decode_ref fuel) none buf ≡ ok n
      → decode_ref (suc fuel) buf ≡ ok (n, rest)
  unfolding decode_ref
  decode_ref-list fuel buf p rest n e m d =
      rw (e, le→ltb-false 32 (length buf - length rest) m, d) refl

  -- A node inside another one.
  embedded-IsBack :
      (n : Node) (items : List (List ℕ)) (p : List ℕ)
      → encode list_header (compacted n) ≡ some (in_list list_header p)
      → IsEmbedded list_header n
      → All IsItem items
      → p ≡ concat items
      → ((fuel : ℕ)
          → length p ≤ fuel
          → by_count (decode_ref fuel) none p (some (ok (length items))) ≡ ok n)
      → IsBack list_header n
  unfolding decode_ref
  embedded-IsBack n items p e (out, e', fits) hs parts back =
      let same : length out ≡ length (in_list list_header p) = ap length (written (sym e' ∙ e)) in
      let total : length (in_list list_header p) ≡ length (list_header (length p)) + length p =
        length-append (list_header (length p)) p in
      let small : length p < 2 ^ 56 = omega arith in
      let head : 1 ≤ length (list_header (length p)) =
        omega (arith, length-list_form (length p), ap length (headers (length p) small)) in
      let parsed : (rest : List ℕ) → split (in_list list_header p ++ rest) ≡ ok (list, p, rest) =
        λ rest. rw (headers (length p) small) (split-list_form p rest small) in
      (
        in_list list_header p,
        e,
        (λ rest. (list, p, parsed rest)),
        omega arith,
        λ fuel rest m.
            with_fuel fuel rest (omega arith) small (parsed rest)
              (omega (arith, length-append (in_list list_header p) rest)),
      )
    where
      with_fuel :
          (fuel : ℕ) (rest : List ℕ)
          → length p < fuel
          → length p < 2 ^ 56
          → split (in_list list_header p ++ rest) ≡ ok (list, p, rest)
          → length (in_list list_header p ++ rest) - length rest ≤ 32
          → decode_ref fuel (in_list list_header p ++ rest) ≡ ok (n, rest)
      with_fuel zero rest m small parsed short_out = absurd (omega arith)
      with_fuel (suc fuel) rest m small parsed short_out =
          decode_ref-list fuel (in_list list_header p ++ rest) p rest n parsed short_out
            (decoded_content none fuel items p rest hs parts small ∙ back fuel (omega arith))

      written : {a b : List ℕ} → some a ≡ some b → a ≡ b
      written q = cc

  short-IsBack :
      (key : List ℕ) (val : Node) (flags : NodeFlag)
      → flags ≡ clean_flag none
      → IsShortBack list_header key val
      → IsEmbedded list_header (short key val flags)
      → IsBack list_header (short key val flags)
  unfolding encode
  short-IsBack key val flags clean (a, b, e, item, item', m, back) emb =
      embedded-IsBack (short key val flags) (a ∷ b ∷ []) (a ++ b) (rw e refl) emb
        (item, (item', tt)) (ap (λ r. a ++ r) (sym (append-nil b)))
        (λ fuel fits. back fuel none fits ∙ ap (λ f. ok (short key val f)) (sym clean))

  full-IsBack :
      (cs : Nodes) (flags : NodeFlag)
      → flags ≡ clean_flag none
      → AreBack list_header 16 cs
      → IsEmbedded list_header (full cs flags)
      → IsBack list_header (full cs flags)
  unfolding encode decode_full
  full-IsBack cs flags clean (items, e, all, count, bound, backs) emb =
      embedded-IsBack (full cs flags) items (concat items) (rw e refl) emb all refl
        (λ fuel fits. rw (count, backs fuel fits) (ap (λ f. ok (full cs f)) (sym clean)))

  leaf_value-IsShortBack :
      (key : List ℕ) (val : Node)
      → IsHex key
      → IsShortened key
      → has_term key ≡ true
      → IsLeafValue val
      → IsShortBack list_header key val
  leaf_value-IsShortBack key (value v) hex small t l =
      leaf-IsShortBack list_header key v hex small t l
  leaf_value-IsShortBack key empty hex small t l = elim l [ ]
  leaf_value-IsShortBack key (full cs f) hex small t l = elim l [ ]
  leaf_value-IsShortBack key (short k v f) hex small t l = elim l [ ]
  leaf_value-IsShortBack key (hash x) hex small t l = elim l [ ]

  mutual
    ref-IsBack : (n : Node) → IsRef list_header n → IsBack list_header n
    ref-IsBack empty h = empty-IsBack list_header
    ref-IsBack (hash x) h = hash-IsBack list_header x h
    ref-IsBack (value v) h = elim h [ ]
    ref-IsBack (short key val flags) (clean, (hex, small, inl (t, l)), emb) =
        short-IsBack key val flags clean (leaf_value-IsShortBack key val hex small t l) emb
    ref-IsBack (short key val flags) (clean, (hex, small, inr (t, r)), emb) =
        short-IsBack key val flags clean
          (extension-IsShortBack list_header key val hex small t (ref-IsBack val r)) emb
    ref-IsBack (full cs flags) (clean, children, emb) =
        full-IsBack cs flags clean (children-AreBack 16 cs children) emb

    children-AreBack :
        (n : ℕ) (cs : Nodes) → AreChildren list_header n cs → AreBack list_header n cs
    children-AreBack n nil h = elim h [ ]
    children-AreBack zero (cons c nil) h = last-AreBack list_header c h
    children-AreBack zero (cons c (cons d cs)) h = elim h [ ]
    children-AreBack (suc n) (cons c cs) (h, hs) =
        cons-AreBack list_header n c cs (ref-IsBack c h) (children-AreBack n cs hs)

  short_at-IsShortBack :
      (key : List ℕ) (val : Node) → IsShort list_header key val → IsShortBack list_header key val
  short_at-IsShortBack key val (hex, small, inl (t, l)) =
      leaf_value-IsShortBack key val hex small t l
  short_at-IsShortBack key val (hex, small, inr (t, r)) =
      extension-IsShortBack list_header key val hex small t (ref-IsBack val r)

  -- A whole blob.
  decoded_blob :
      (h : Option (List ℕ)) (items : List (List ℕ)) (p : List ℕ) (n : Node)
      → All IsItem items
      → p ≡ concat items
      → length p < 2 ^ 56
      → ((fuel : ℕ)
          → length p ≤ fuel
          → by_count (decode_ref fuel) h p (some (ok (length items))) ≡ ok n)
      → decode_node h (in_list list_header p) ≡ ok n
  unfolding decode_node
  decoded_blob h items p n hs parts m back =
      let buf : List ℕ = in_list list_header p in
      ap (decode_node_with (decode_ref (length buf)) h) (sym (append-nil buf))
      ∙ decoded_content h (length buf) items p [] hs parts m
      ∙ back (length buf) (omega (arith, length-append (list_header (length p)) p))

  -- When list headers have their RLP form, every short or full node that can be stored comes
  -- back: a full node has 16 references and a value or none, a short node a value below a key
  -- with terminator or else a reference, a reference is empty, a hash of 32 bytes or a node,
  -- as it is decoded, that takes no more than 32 bytes, keys are hex paths, and keys and
  -- values are shorter than 2 ^ 32 bytes. With its keys in compact form it is encoded without
  -- a panic, and `decode_node` of these bytes, with fuel of their number, gives the node with
  -- clean flags and the hash that it is given.
  pub decode_node-node_to_bytes :
      (h : Option (List ℕ)) (n : Node)
      → IsStored list_header n
      → (out : List ℕ) × (node_to_bytes list_header (compacted n) ≡ some out)
        × (decode_node h out ≡ ok (reflagged h n))
  unfolding node_to_bytes encode decode_full
  decode_node-node_to_bytes h (short key val flags) s =
      let (a, b, e, item, item', m, back) = short_at-IsShortBack key val s in
      (
        in_list list_header (a ++ b),
        rw e refl,
        decoded_blob h (a ∷ b ∷ []) (a ++ b) (short key val (clean_flag h)) (item, (item', tt))
            (ap (λ r. a ++ r) (sym (append-nil b))) m (λ fuel fits. back fuel h fits),
      )
  decode_node-node_to_bytes h (full cs flags) s =
      let (items, e, all, count, bound, backs) = children-AreBack 16 cs s in
      (
        in_list list_header (concat items),
        rw e refl,
        decoded_blob h items (concat items) (full cs (clean_flag h)) all refl (omega arith)
            (λ fuel fits. rw (count, backs fuel fits) refl),
      )
  decode_node-node_to_bytes h empty s = elim s [ ]
  decode_node-node_to_bytes h (hash x) s = elim s [ ]
  decode_node-node_to_bytes h (value v) s = elim s [ ]
