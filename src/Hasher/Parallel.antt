-- ===== src/Hasher/Parallel.antt =====
-- The parallel hasher and the serial one agree.
use rust_eth_triedb.Common.{
  ℕ, zero, suc, List, ◌∷◌, Bool, true, false, ◌==◌, ◌≡◌, refl, ap, sym, ◌∙◌, Option, none, some,
  Bool-cases, inl, inr,
}
use rust_eth_triedb.Node.{Node, Nodes, empty, full, short, hash, value, nil, cons, set_child}
use rust_eth_triedb.Hasher.{
  Hashed, and_then, of_inner, of_child, cached_or, write_results, hash_round, hash_short, hash_full,
  hash_node, child_results, hash_children,
}

-- The children from a position on.
unfoldable pub tail_from : ℕ → Nodes → Nodes
tail_from zero cs = cs
tail_from (suc i) nil = nil
tail_from (suc i) (cons c cs) = tail_from i cs

pub tail_from-suc :
    (i : ℕ) (col : Nodes) (c : Node) (cs : Nodes)
    → tail_from i col ≡ cons c cs
    → tail_from (suc i) col ≡ cs
unfolding tail_from
tail_from-suc zero nil c cs h = cc
tail_from-suc zero (cons x col) c cs h = cc
tail_from-suc (suc i) nil c cs h = cc
tail_from-suc (suc i) (cons x col) c cs h = tail_from-suc i col c cs h

-- A child can be written where the children have one, and those behind it stay.
pub set_child-tail :
    (i : ℕ) (col : Nodes) (c : Node) (cs : Nodes) (x : Node)
    → tail_from i col ≡ cons c cs
    → (col' : Nodes) × (set_child col i x ≡ some col') × (tail_from (suc i) col' ≡ cs)
unfolding tail_from set_child
set_child-tail zero nil c cs x h = cc
set_child-tail (suc i) nil c cs x h = cc
set_child-tail zero (cons y col) c cs x h = (cons x col, refl, cc)
set_child-tail (suc i) (cons y col) c cs x h =
    let (col', done, rest) = set_child-tail i col c cs x h in (cons y col', rw done refl, rest)

-- Writing the child that is there changes nothing.
set_child-same :
    (i : ℕ) (col : Nodes) (c : Node) (cs : Nodes)
    → tail_from i col ≡ cons c cs
    → set_child col i c ≡ some col
unfolding tail_from set_child
set_child-same zero nil c cs h = cc
set_child-same (suc i) nil c cs h = cc
set_child-same zero (cons y col) c cs h = cc
set_child-same (suc i) (cons y col) c cs h = rw (set_child-same i col c cs h)

and_then-none {ℓ κ} :
    {A : Type ℓ} {B : Type κ} (o : Option A) → ◌≡◌ {A = Option B} (and_then o (λ a. none)) none
and_then-none none = refl
and_then-none (some a) = refl

-- The tasks and then the writes: the results of the tasks behind a child are `rest`.
abbrev two_phases :
    Option Hashed → Option (List Hashed) → ℕ → Nodes × Nodes → Option (Nodes × Nodes)
two_phases r rest i both =
    and_then (and_then r (λ h. and_then rest (λ hs. some (h ∷ hs))))
      (λ results. write_results results i both)

module _ (c : Node) (cs : Nodes) (rest : Option (List Hashed))
    (next : Nodes × Nodes → Option (Nodes × Nodes)) (i : ℕ) (col cac : Nodes)
    (at_c : tail_from i col ≡ cons c cs) (at_c' : tail_from i cac ≡ cons c cs)
    (ih : (col' cac' : Nodes)
      → tail_from (suc i) col' ≡ cs
      → tail_from (suc i) cac' ≡ cs
      → and_then rest (λ results. write_results results (suc i) (col', cac'))
        ≡ next (col', cac')) where
  empty_round :
      (rest' : Option (List Hashed))
      → rest ≡ rest'
      → c ≡ empty
      → two_phases (some (empty, empty)) rest' i (col, cac) ≡ next (col, cac)
  unfolding write_results
  empty_round rest' p e =
      let same = ih col cac (tail_from-suc i col c cs at_c) (tail_from-suc i cac c cs at_c') in
      go rest'
        (ap (λ o. and_then o (λ results. write_results results (suc i) (col, cac))) (sym p) ∙ same)
    where
      go :
          (o : Option (List Hashed))
          → and_then o (λ results. write_results results (suc i) (col, cac)) ≡ next (col, cac)
          → two_phases (some (empty, empty)) o i (col, cac) ≡ next (col, cac)
      go none q = q
      go (some rs) q =
          rw
            (
              set_child-same i col empty cs (at_c ∙ ap (λ x. cons x cs) e),
              set_child-same i cac empty cs (at_c' ∙ ap (λ x. cons x cs) e),
            )
            q

  filled_round :
      (r : Option Hashed) (rest' : Option (List Hashed))
      → rest ≡ rest'
      → two_phases r rest' i (col, cac)
        ≡ and_then r (λ (child_collapsed, child_cached).
          and_then (set_child col i child_collapsed) (λ collapsed'.
            and_then (set_child cac i child_cached) (λ cached'. next (collapsed', cached'))))
  unfolding write_results
  filled_round none rest' p = refl
  filled_round (some (x, y)) rest' p =
      let (col', done, behind) = set_child-tail i col c cs x at_c in
      let (cac', done', behind') = set_child-tail i cac c cs y at_c' in
      rw (done, done')
        (go rest' col' cac' done done' (
          ap (λ o. and_then o (λ results. write_results results (suc i) (col', cac'))) (sym p)
          ∙ ih col' cac' behind behind'))
    where
      go :
          (o : Option (List Hashed)) (col' cac' : Nodes)
          → set_child col i x ≡ some col'
          → set_child cac i y ≡ some cac'
          → and_then o (λ results. write_results results (suc i) (col', cac')) ≡ next (col', cac')
          → two_phases (some (x, y)) o i (col, cac) ≡ next (col', cac')
      go none col' cac' d d' q = q
      go (some rs) col' cac' d d' q = rw (d, d') q

-- One round of each loop.
rounds_agree :
    (c : Node) (cs : Nodes) (r : Option Hashed) (rest : Option (List Hashed))
    (next : Nodes × Nodes → Option (Nodes × Nodes)) (i : ℕ) (col cac : Nodes)
    → tail_from i col ≡ cons c cs
    → tail_from i cac ≡ cons c cs
    → ((col' cac' : Nodes)
        → tail_from (suc i) col' ≡ cs
        → tail_from (suc i) cac' ≡ cs
        → and_then rest (λ results. write_results results (suc i) (col', cac')) ≡ next (col', cac'))
    → two_phases (of_child c r) rest i (col, cac) ≡ hash_round c r i (col, cac) next
rounds_agree empty cs r rest next i col cac h h' ih =
    empty_round empty cs rest next i col cac h h' ih rest refl refl
rounds_agree (full ks f) cs r rest next i col cac h h' ih =
    filled_round (full ks f) cs rest next i col cac h h' ih r rest refl
rounds_agree (short k v f) cs r rest next i col cac h h' ih =
    filled_round (short k v f) cs rest next i col cac h h' ih r rest refl
rounds_agree (hash x) cs r rest next i col cac h h' ih =
    filled_round (hash x) cs rest next i col cac h h' ih r rest refl
rounds_agree (value v) cs r rest next i col cac h h' ih =
    filled_round (value v) cs rest next i col cac h h' ih r rest refl

module _ (keccak256 : List ℕ → List ℕ) (list_header : ℕ → List ℕ) where
  loops_agree :
      (cs : Nodes) (i : ℕ) (col cac : Nodes)
      → tail_from i col ≡ cs
      → tail_from i cac ≡ cs
      → and_then
          (child_results keccak256 list_header cs i)
          (λ results. write_results results i (col, cac))
        ≡ hash_children keccak256 list_header cs i (col, cac)
  unfolding hash_node write_results
  loops_agree nil i col cac h h' = refl
  loops_agree (cons c cs) i col cac h h' = elim (Bool-cases (i == 16)) [
    | inl e ↦ rw (e, child_results, hash_children)
    | inr e ↦
        rw (e, child_results, hash_children)
          (rounds_agree c cs (hash_node keccak256 list_header false false c)
            (child_results keccak256 list_header cs (suc i))
            (hash_children keccak256 list_header cs (suc i)) i col cac h h'
            (λ col' cac' t t'. loops_agree cs (suc i) col' cac' t t'))
  ]

  -- The parallel hasher, which hashes the children of a full node first and writes the results
  -- then, and the serial one, which does both child by child, have the same result on every
  -- node, forced or not: the same two nodes, or a panic in both.
  pub hash_node-parallel :
      (force : Bool) (n : Node)
      → hash_node keccak256 list_header true force n ≡ hash_node keccak256 list_header false force n
  unfolding hash_node tail_from
  hash_node-parallel force (short key val flags) =
      ap
        (λ r.
          cached_or (flags.hash) (short key val flags)
            (hash_short keccak256 list_header force key flags (of_inner val r)))
        (hash_node-parallel false val)
  hash_node-parallel force (full cs flags) =
      ap
        (λ r.
          cached_or (flags.hash) (full cs flags) (hash_full keccak256 list_header force flags r))
        (loops_agree cs 0 cs cs refl refl)
  hash_node-parallel force (hash h) = refl
  hash_node-parallel force (value v) = refl
  hash_node-parallel force empty = refl
