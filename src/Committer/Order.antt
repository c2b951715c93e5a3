-- ===== src/Committer/Order.antt =====
-- The tasks of the parallel committer of state-trie/src/trie_committer.rs merge their node sets in
-- the order in which they take the lock.
use rust_eth_triedb.Common.{
  ℕ, ◌+◌, List, [], ◌∷◌, ◌++◌, append_assoc, append-nil, ◌≡◌, refl, ap, sym, ◌∙◌, arith, bytes_eq,
  bytes_eq→eq, bytes_eq_refl, none, some, ok, err,
}
use mathlib.Core.Path.{subst}
use mathlib.Core.List.{Permᴰ}
use mathlib.Core.List.Permᴰ
use rust_eth_triedb.DiffLayer.{TrieNode, Leaf}
use rust_eth_triedb.Maps
use rust_eth_triedb.NodeSet.{NodeSet, merge_set}
use rust_eth_triedb.NodeSet.Laws.{IsMap}
use rust_eth_triedb.NodeSet.Counts.{not_first, bytes_eq-sym}
use rust_eth_triedb.NodeSet.Signature.{signature, signature-Perm}
use rust_eth_triedb.Committer.{merge_all}

abbrev Entries : Type 0
Entries = List (List ℕ × TrieNode)

-- What the sets hold together.
abbrev pub concat_of : {A : Type 0} → (NodeSet → List A) → List NodeSet → List A
concat_of f [] = []
concat_of f (s ∷ sets) = f s ++ concat_of f sets

abbrev pub nodes_of : List NodeSet → Entries
nodes_of sets = concat_of (λ s. s.nodes) sets

abbrev pub leaves_of : List NodeSet → List Leaf
leaves_of sets = concat_of (λ s. s.leaves) sets

abbrev pub sum_of : (NodeSet → ℕ) → List NodeSet → ℕ
sum_of f [] = 0
sum_of f (s ∷ sets) = f s + sum_of f sets

abbrev pub HaveOwner : List ℕ → List NodeSet → Type 0
HaveOwner owner [] = Unit {0}
HaveOwner owner (s ∷ sets) = (s.owner ≡ owner) × HaveOwner owner sets

abbrev all_merged : List NodeSet → NodeSet → NodeSet
all_merged sets set = record {
  owner = set.owner;
  leaves = set.leaves ++ leaves_of sets;
  nodes = set.nodes ++ nodes_of sets;
  updates = set.updates + sum_of (λ s. s.updates) sets;
  deletes = set.deletes + sum_of (λ s. s.deletes) sets;
}

-- A list that has no key twice.
get-append-none :
    (k : List ℕ) (m n : Entries)
    → Maps.get k (m ++ n) ≡ none
    → (Maps.get k m ≡ none) × (Maps.get k n ≡ none)
unfolding Maps.get
get-append-none k [] n h = (refl, h)
get-append-none k ((j, v) ∷ m) n h =
    let (e, h') = not_first (bytes_eq j k) v (Maps.get k (m ++ n)) h in
    let (hm, hn) = get-append-none k m n h' in (rw (e, hm) refl, hn)

insert-new :
    (k : List ℕ) (v : TrieNode) (m : Entries)
    → Maps.get k m ≡ none
    → Maps.insert k v m ≡ m ++ ((k, v) ∷ [])
unfolding Maps.get Maps.insert
insert-new k v [] h = refl
insert-new k v ((j, w) ∷ m) h =
    let (e, h') = not_first (bytes_eq j k) w (Maps.get k m) h in
    rw e (ap (λ l. (j, w) ∷ l) (insert-new k v m h'))

-- The last entry of the first part is new.
middle-none :
    (k : List ℕ) (v : TrieNode) (m n : Entries) → IsMap (m ++ ((k, v) ∷ n)) → Maps.get k m ≡ none
unfolding Maps.get
middle-none k v [] n u = refl
middle-none k v ((j, w) ∷ m) n (new, u) =
    let (_, last) = get-append-none j m ((k, v) ∷ n) new in
    let (e, _) = not_first (bytes_eq k j) v (Maps.get j n) last in
    ground (arith, bytes_eq→eq j k, bytes_eq_refl j, middle-none k v m n u, e)

extend-append : (m n : Entries) → IsMap (m ++ n) → Maps.extend m n ≡ m ++ n
unfolding Maps.extend
extend-append m [] u = sym (append-nil m)
extend-append m ((k, v) ∷ n) u = rw (insert-new k v m (middle-none k v m n u)) (
    extend-append (m ++ ((k, v) ∷ [])) n (subst IsMap (sym (append_assoc m ((k, v) ∷ []) n)) u)
    ∙ append_assoc m ((k, v) ∷ []) n)

get-Perm-none : {m n : Entries} (k : List ℕ) → Permᴰ m n → Maps.get k m ≡ none → Maps.get k n ≡ none
unfolding Maps.get
get-Perm-none k Permᴰ.nil h = h
get-Perm-none {m = (j, v) ∷ m} {n = a ∷ n} k (Permᴰ.cons e p) h =
    let (x, h') = not_first (bytes_eq j k) v (Maps.get k m) h in
    subst (λ c. Maps.get k (c ∷ n) ≡ none) e (rw (x, get-Perm-none k p h') refl)
get-Perm-none {m = (i, v) ∷ (j, w) ∷ m} {n = a ∷ b ∷ n} k (Permᴰ.swap e f) h =
    let (x, h') = not_first (bytes_eq i k) v (Maps.get k ((j, w) ∷ m)) h in
    let (y, h'') = not_first (bytes_eq j k) w (Maps.get k m) h' in
    subst (λ c. Maps.get k (a ∷ c ∷ m) ≡ none) e
      (subst (λ c. Maps.get k (c ∷ (i, v) ∷ m) ≡ none) f (rw (y, x, h'') refl))
get-Perm-none k (Permᴰ.trans p q) h = get-Perm-none k q (get-Perm-none k p h)

IsMap-Perm : {m n : Entries} → Permᴰ m n → IsMap m → IsMap n
unfolding Maps.get
IsMap-Perm Permᴰ.nil u = tt
IsMap-Perm {m = (j, v) ∷ m} {n = a ∷ n} (Permᴰ.cons e p) (new, u) =
    subst (λ c. IsMap (c ∷ n)) e (get-Perm-none j p new, IsMap-Perm p u)
IsMap-Perm {m = (i, v) ∷ (j, w) ∷ m} {n = a ∷ b ∷ n} (Permᴰ.swap e f) (new, later) =
    let (new', u) = later in
    let (x, h) = not_first (bytes_eq j i) w (Maps.get i m) new in
    subst (λ c. IsMap (a ∷ c ∷ m)) e
      (subst (λ c. IsMap (c ∷ (i, v) ∷ m)) f (rw (bytes_eq-sym j i x) (new', (h, u))))
IsMap-Perm (Permᴰ.trans p q) u = IsMap-Perm q (IsMap-Perm p u)

IsMap-prefix : (m n : Entries) → IsMap (m ++ n) → IsMap m
IsMap-prefix [] n u = tt
IsMap-prefix ((k, v) ∷ m) n (new, u) = ((get-append-none k m n new).0, IsMap-prefix m n u)

NodeSet-eq :
    (s t : NodeSet)
    → s.owner ≡ t.owner
    → s.leaves ≡ t.leaves
    → s.nodes ≡ t.nodes
    → s.updates ≡ t.updates
    → s.deletes ≡ t.deletes
    → s ≡ t
NodeSet-eq s t o l n u d =
    λ i. record { owner = o i; leaves = l i; nodes = n i; updates = u i; deletes = d i }

-- The sets of one owner merge, and the result holds what they hold.
merge_all-all_merged :
    (sets : List NodeSet) (set : NodeSet)
    → HaveOwner (set.owner) sets
    → IsMap (set.nodes ++ nodes_of sets)
    → merge_all sets set ≡ some (all_merged sets set)
unfolding merge_all merge_set
merge_all-all_merged [] set o u =
    ap (λ s. some s)
      (NodeSet-eq set (all_merged [] set) refl (sym (append-nil set.leaves))
        (sym (append-nil set.nodes)) (omega arith) (omega arith))
merge_all-all_merged (s ∷ sets) set (e, o) u =
    ap (λ r. elim r [ ok set' ↦ merge_all sets set' | err x ↦ none ]) merges
    ∙ (merge_all-all_merged sets next o grouped
        ∙ ap (λ s'. some s')
            (NodeSet-eq (all_merged sets next) (all_merged (s ∷ sets) set) refl
              (append_assoc set.leaves s.leaves (leaves_of sets))
              (append_assoc set.nodes s.nodes (nodes_of sets)) (omega arith) (omega arith)))
  where
    next : NodeSet
    next = record set {
      nodes = set.nodes ++ s.nodes;
      leaves = set.leaves ++ s.leaves;
      updates = set.updates + s.updates;
      deletes = set.deletes + s.deletes;
    }

    grouped : IsMap ((set.nodes ++ s.nodes) ++ nodes_of sets)
    grouped = subst IsMap (sym (append_assoc set.nodes s.nodes (nodes_of sets))) u

    merges : merge_set set s ≡ ok next
    merges =
        rw
          (
            ap (λ x. bytes_eq set.owner x) e ∙ bytes_eq_refl set.owner,
            extend-append set.nodes s.nodes (IsMap-prefix _ _ grouped),
          )
          refl

swapped : {A : Type 0} (a b n : List A) → Permᴰ (a ++ (b ++ n)) (b ++ (a ++ n))
swapped a b n =
    subst (λ x. Permᴰ x (b ++ (a ++ n))) (append_assoc a b n)
      (subst (λ x. Permᴰ ((a ++ b) ++ n) x) (append_assoc b a n)
        (Permᴰ.append_right n (Permᴰ.append_comm a b)))

concat_of-Perm :
    {A : Type 0} (f : NodeSet → List A) {l m : List NodeSet}
    → Permᴰ l m
    → Permᴰ (concat_of f l) (concat_of f m)
concat_of-Perm f Permᴰ.nil = Permᴰ.nil
concat_of-Perm f {l = a ∷ l} {m = b ∷ m} (Permᴰ.cons e p) =
    subst (λ c. Permᴰ (f a ++ concat_of f l) (f c ++ concat_of f m)) e
      (Permᴰ.append_left (f a) (concat_of-Perm f p))
concat_of-Perm f {l = a ∷ b ∷ l} {m = c ∷ d ∷ m} (Permᴰ.swap e g) =
    subst (λ x. Permᴰ (concat_of f (a ∷ b ∷ l)) (concat_of f (c ∷ x ∷ l))) e
      (subst (λ x. Permᴰ (concat_of f (a ∷ b ∷ l)) (concat_of f (x ∷ a ∷ l))) g
        (swapped (f a) (f b) (concat_of f l)))
concat_of-Perm f (Permᴰ.trans p q) = Permᴰ.trans (concat_of-Perm f p) (concat_of-Perm f q)

sum_of-Perm : (f : NodeSet → ℕ) {l m : List NodeSet} → Permᴰ l m → sum_of f l ≡ sum_of f m
sum_of-Perm f Permᴰ.nil = refl
sum_of-Perm f (Permᴰ.cons e p) = omega (arith, ap f e, sum_of-Perm f p)
sum_of-Perm f (Permᴰ.swap e g) = omega (arith, ap f e, ap f g)
sum_of-Perm f (Permᴰ.trans p q) = sum_of-Perm f p ∙ sum_of-Perm f q

HaveOwner-Perm :
    (owner : List ℕ) {l m : List NodeSet} → Permᴰ l m → HaveOwner owner l → HaveOwner owner m
HaveOwner-Perm owner Permᴰ.nil h = tt
HaveOwner-Perm owner (Permᴰ.cons e p) (o, h) =
    (ap (λ s. s.owner) (sym e) ∙ o, HaveOwner-Perm owner p h)
HaveOwner-Perm owner (Permᴰ.swap e f) (o, later) =
    let (o', h) = later in (ap (λ s. s.owner) (sym f) ∙ o', (ap (λ s. s.owner) (sym e) ∙ o, h))
HaveOwner-Perm owner (Permᴰ.trans p q) h = HaveOwner-Perm owner q (HaveOwner-Perm owner p h)

-- When the sets of the tasks have the owner of the set that they merge into, and no path stands
-- twice in all of them, they merge in any order, and the signature of the result is the same in
-- every order, for any `keccak256`.
pub merge_all-signature :
    (keccak256 : List ℕ → List ℕ) (sets sets' : List NodeSet) (set : NodeSet)
    → Permᴰ sets sets'
    → HaveOwner (set.owner) sets
    → IsMap (set.nodes ++ nodes_of sets)
    → (s s' : NodeSet) × (merge_all sets set ≡ some s)
      × (merge_all sets' set ≡ some s')
      × (signature keccak256 s ≡ signature keccak256 s')
merge_all-signature keccak256 sets sets' set p o u =
    let nodes = Permᴰ.append_left set.nodes (concat_of-Perm (λ s. s.nodes) p) in
    (
      all_merged sets set,
      all_merged sets' set,
      merge_all-all_merged sets set o u,
      merge_all-all_merged sets' set (HaveOwner-Perm (set.owner) p o) (IsMap-Perm nodes u),
      signature-Perm keccak256 (all_merged sets set) (all_merged sets' set) refl
          (Permᴰ.append_left set.leaves (concat_of-Perm (λ s. s.leaves) p)) nodes u
          (ap (λ n. set.updates + n) (sum_of-Perm (λ s. s.updates) p))
          (ap (λ n. set.deletes + n) (sum_of-Perm (λ s. s.deletes) p)),
    )
