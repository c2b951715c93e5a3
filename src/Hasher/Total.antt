-- ===== src/Hasher/Total.antt =====
-- The hasher does not panic on sized nodes.
use rust_eth_triedb.Common.{
  ℕ, zero, suc, List, Bool, true, false, not, ◌&&◌, ◌==◌, ltb, ◌≡◌, refl, sym, length, Option, none,
  some, Bool-cases, inl, inr, arith,
}
use mathlib.Core.Option
use mathlib.Core.Path.{subst}
use rust_eth_triedb.Encoding.{hex_to_compact}
use rust_eth_triedb.Node.{Node, Nodes, NodeFlag, set_child}
use rust_eth_triedb.Hasher.{
  Hashed, and_then, of_inner, cached_or, with_hash, hash_round, node_to_hash, hash_short, hash_full,
  hash_node, hash_children,
}
use rust_eth_triedb.Hasher.Parallel.{tail_from, tail_from-suc, set_child-tail, hash_node-parallel}
use rust_eth_triedb.Hasher.Sized.{
  IsSmall, HasSmall, IsSized, AreSized, hex_to_compact-IsSmall, encode-Written,
}

-- A result, with nodes that are sized.
abbrev pub IsDone : Option Hashed → Type 0
IsDone o = (x : Node) × (y : Node) × (o ≡ some (x, y)) × IsSized x × IsSized y

abbrev pub AreDone : Option (Nodes × Nodes) → Type 0
AreDone o = (col : Nodes) × (cac : Nodes) × (o ≡ some (col, cac)) × AreSized col × AreSized cac

abbrev SizedIfSet : Option Nodes → Type 0
SizedIfSet none = Unit {0}
SizedIfSet (some cs) = AreSized cs

cons-SizedIfSet :
    (c : Node) (o : Option Nodes)
    → IsSized c
    → SizedIfSet o
    → SizedIfSet (Option.map (Nodes.cons c) o)
cons-SizedIfSet c none h hs = tt
cons-SizedIfSet c (some cs) h hs = (h, hs)

set_child-Sized :
    (cs : Nodes) (i : ℕ) (x : Node) → AreSized cs → IsSized x → SizedIfSet (set_child cs i x)
unfolding set_child
set_child-Sized Nodes.nil i x h hx = tt
set_child-Sized (Nodes.cons c cs) zero x h hx = (hx, h.1)
set_child-Sized (Nodes.cons c cs) (suc i) x h hx =
    cons-SizedIfSet c (set_child cs i x) h.0 (set_child-Sized cs i x h.1 hx)

with_hash-HasSmall : (flags : NodeFlag) (m : Node) → IsSized m → HasSmall ((with_hash flags m).hash)
with_hash-HasSmall flags (Node.hash h) s = s
with_hash-HasSmall flags (Node.value v) s = tt
with_hash-HasSmall flags Node.empty s = tt
with_hash-HasSmall flags (Node.full cs f) s = tt
with_hash-HasSmall flags (Node.short k v f) s = tt

cached_or-IsDone :
    (h : Option (List ℕ)) (n : Node) (r : Option Hashed)
    → HasSmall h
    → IsSized n
    → IsDone r
    → IsDone (cached_or h n r)
cached_or-IsDone none n r s sn d = d
cached_or-IsDone (some h) n r s sn d = (Node.hash h, n, refl, s, sn)

pub of_inner-IsDone : (n : Node) (r : Option Hashed) → IsSized n → IsDone r → IsDone (of_inner n r)
of_inner-IsDone Node.empty r s d = (Node.empty, Node.empty, refl, s, s)
of_inner-IsDone (Node.value v) r s d = (Node.value v, Node.value v, refl, s, s)
of_inner-IsDone (Node.hash h) r s d = (Node.hash h, Node.hash h, refl, s, s)
of_inner-IsDone (Node.short a b c) r s d = d
of_inner-IsDone (Node.full a b) r s d = d

-- One round of the serial loop.
module _ (cs : Nodes) (c : Node) (i : ℕ) (next : Nodes × Nodes → Option (Nodes × Nodes))
    (ih : (col cac : Nodes)
      → tail_from (suc i) col ≡ cs
      → tail_from (suc i) cac ≡ cs
      → AreSized col
      → AreSized cac
      → AreDone (next (col, cac))) where
  filled-AreDone :
      (r : Option Hashed) (col cac : Nodes)
      → tail_from i col ≡ Nodes.cons c cs
      → tail_from i cac ≡ Nodes.cons c cs
      → IsDone r
      → AreSized col
      → AreSized cac
      → AreDone (
          and_then r (λ (x, y).
            and_then
              (set_child col i x)
              (λ col'. and_then (set_child cac i y) (λ cac'. next (col', cac')))))
  filled-AreDone r col cac at_c at_c' (x, y, e, sx, sy) sc sc' =
      let (col', done, behind) = set_child-tail i col c cs x at_c in
      let (cac', done', behind') = set_child-tail i cac c cs y at_c' in
      rw (e, done, done')
        (ih col' cac' behind behind' (subst SizedIfSet done (set_child-Sized col i x sc sx))
          (subst SizedIfSet done' (set_child-Sized cac i y sc' sy)))

  round-AreDone :
      (n : Node) (r : Option Hashed) (col cac : Nodes)
      → tail_from i col ≡ Nodes.cons c cs
      → tail_from i cac ≡ Nodes.cons c cs
      → IsDone r
      → AreSized col
      → AreSized cac
      → AreDone (hash_round n r i (col, cac) next)
  round-AreDone Node.empty r col cac a a' d s s' =
      ih col cac (tail_from-suc i col c cs a) (tail_from-suc i cac c cs a') s s'
  round-AreDone (Node.value v) r col cac a a' d s s' = filled-AreDone r col cac a a' d s s'
  round-AreDone (Node.hash h) r col cac a a' d s s' = filled-AreDone r col cac a a' d s s'
  round-AreDone (Node.short k v f) r col cac a a' d s s' = filled-AreDone r col cac a a' d s s'
  round-AreDone (Node.full ks f) r col cac a a' d s s' = filled-AreDone r col cac a a' d s s'

module _ (keccak256 : List ℕ → List ℕ) (list_header : ℕ → List ℕ)
    (digest : (b : List ℕ) → length (keccak256 b) ≡ 32) where
  node_to_hash-IsSized :
      (force : Bool) (n : Node)
      → IsSized n
      → (m : Node) × (node_to_hash keccak256 list_header force n ≡ some m) × IsSized m
  unfolding node_to_hash
  node_to_hash-IsSized force n s =
      let (out, e) = encode-Written list_header n s in
      elim (Bool-cases (ltb (length out) 32 && not force)) [
        | inl b ↦ (n, rw (e, b) refl, s)
        | inr b ↦ (Node.hash (keccak256 out), rw (e, b) refl, omega (arith, digest out))
      ]

  pub forced :
      (n : Node)
      → IsSized n
      → (h : List ℕ) × (node_to_hash keccak256 list_header true n ≡ some (Node.hash h)) × IsSmall h
  unfolding node_to_hash
  forced n s =
      let (out, e) = encode-Written list_header n s in
      elim (Bool-cases (ltb (length out) 32)) [
        | inl b ↦ (keccak256 out, rw (e, b) refl, omega (arith, digest out))
        | inr b ↦ (keccak256 out, rw (e, b) refl, omega (arith, digest out))
      ]

  hash_short-IsDone :
      (force : Bool) (key : List ℕ) (flags : NodeFlag) (r : Option Hashed)
      → HasSmall (flags.hash)
      → IsSmall key
      → IsDone r
      → IsDone (hash_short keccak256 list_header force key flags r)
  unfolding hash_short
  hash_short-IsDone force key flags r sf sk (x, y, e, sx, sy) =
      let (m, e', sm) =
        node_to_hash-IsSized force (Node.short (hex_to_compact key) x flags)
          (sf, hex_to_compact-IsSmall key sk, sx) in
      (
        m,
        Node.short key y (with_hash flags m),
        rw (e, e') refl,
        sm,
        (with_hash-HasSmall flags m sm, sk, sy),
      )

  hash_full-IsDone :
      (force : Bool) (flags : NodeFlag) (r : Option (Nodes × Nodes))
      → HasSmall (flags.hash)
      → AreDone r
      → IsDone (hash_full keccak256 list_header force flags r)
  unfolding hash_full
  hash_full-IsDone force flags r sf (col, cac, e, sc, sc') =
      let (m, e', sm) = node_to_hash-IsSized force (Node.full col flags) (sf, sc) in
      (
        m,
        Node.full cac (with_hash flags m),
        rw (e, e') refl,
        sm,
        (with_hash-HasSmall flags m sm, sc'),
      )

  mutual
    unfolding hash_node tail_from

    pub serial-IsDone :
        (force : Bool) (n : Node)
        → IsSized n
        → IsDone (hash_node keccak256 list_header false force n)
    serial-IsDone force Node.empty s = (Node.empty, Node.empty, refl, s, s)
    serial-IsDone force (Node.value v) s = (Node.value v, Node.value v, refl, s, s)
    serial-IsDone force (Node.hash h) s = (Node.hash h, Node.hash h, refl, s, s)
    serial-IsDone force (Node.short key val flags) (sf, sk, s) =
        cached_or-IsDone (flags.hash) (Node.short key val flags) _ sf (sf, sk, s)
          (hash_short-IsDone force key flags _ sf sk
            (of_inner-IsDone val _ s (serial-IsDone false val s)))
    serial-IsDone force (Node.full cs flags) (sf, s) =
        cached_or-IsDone (flags.hash) (Node.full cs flags) _ sf (sf, s)
          (hash_full-IsDone force flags _ sf (children-AreDone cs 0 cs cs refl refl s s s))

    pub children-AreDone :
        (cs : Nodes) (i : ℕ) (col cac : Nodes)
        → tail_from i col ≡ cs
        → tail_from i cac ≡ cs
        → AreSized cs
        → AreSized col
        → AreSized cac
        → AreDone (hash_children keccak256 list_header cs i (col, cac))
    children-AreDone Nodes.nil i col cac a a' s sc sc' = (col, cac, refl, sc, sc')
    children-AreDone (Nodes.cons c cs) i col cac a a' s sc sc' = elim (Bool-cases (i == 16)) [
      | inl e ↦ (col, cac, rw (e, hash_children) refl, sc, sc')
      | inr e ↦
          rw (e, hash_children)
            (round-AreDone cs c i (hash_children keccak256 list_header cs (suc i))
              (λ col' cac' b b' t t'. children-AreDone cs (suc i) col' cac' b b' s.1 t t') c _ col
              cac a a' (serial-IsDone false c s.0) sc sc')
    ]

  pub hash_node-IsDone :
      (parallel force : Bool) (n : Node)
      → IsSized n
      → IsDone (hash_node keccak256 list_header parallel force n)
  hash_node-IsDone false force n s = serial-IsDone force n s
  hash_node-IsDone true force n s =
      subst IsDone (sym (hash_node-parallel keccak256 list_header force n))
        (serial-IsDone force n s)
