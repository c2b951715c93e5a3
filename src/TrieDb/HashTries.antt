-- ===== src/TrieDb/HashTries.antt =====
-- The loop of `calculate_hash` of triedb/src/triedb_basic.rs that hashes the storage tries, address by
-- address.
use rust_eth_triedb.Common.{
  ℕ, List, [], ◌∷◌, ◌≡◌, refl, ap, sym, ◌∙◌, if◌then◌else◌, Option, none, some, bytes_eq,
  bytes_eq→eq, Bool-cases, inl, inr, All,
}
use rust_eth_triedb.Maps
use rust_eth_triedb.Maps.{get-insert}
use rust_eth_triedb.DiffLayer.Order.{or_else}
use rust_eth_triedb.Hasher.{and_then}
use rust_eth_triedb.NodeSet.Laws.{IsMap}
use rust_eth_triedb.StateTrie.{StateTrie, StateAccount, with_storage_root}
use rust_eth_triedb.StateTrie.Laws.{IsHash, IsAccount}
use rust_eth_triedb.TrieDb.{Externals}
use rust_eth_triedb.TrieDb.Basic.{hash_of, hash_tries}
use rust_eth_triedb.NodeSet.Counts.{bytes_eq-sym}
use rust_eth_triedb.TrieDb.Reth.{Roots}

-- What the loop over the storage hashes needs: a kept account in range for each.
abbrev pub HasAccount : List (List ℕ × StateAccount) → List ℕ × List ℕ → Type 0
HasAccount accounts (k, h) =
    IsHash k
    × (a : StateAccount) × (Maps.get k accounts ≡ some a)
    × IsAccount (with_storage_root h a)

abbrev pub hash_in : Option (List ℕ × StateTrie) → Option (List ℕ)
hash_in none = none
hash_in (some (h, s)) = some h

abbrev pub trie_in : Option (List ℕ × StateTrie) → Option StateTrie
trie_in none = none
trie_in (some (h, s)) = some s

insert-IsMap {ℓ} :
    {V : Type ℓ} (k : List ℕ) (v : V) (m : List (List ℕ × V)) → IsMap m → IsMap (Maps.insert k v m)
unfolding Maps.get Maps.insert
insert-IsMap k v [] u = (refl, tt)
insert-IsMap k v ((j, w) ∷ m) (new, u) = elim (Bool-cases (bytes_eq j k)) [
  | inl e ↦ rw e (ap (λ i. Maps.get i m) (sym (bytes_eq→eq j k e)) ∙ new, u)
  | inr e ↦ rw e (get-insert k j v m ∙ rw (bytes_eq-sym j k e) new, insert-IsMap k v m u)
]

All-insert {ℓ} :
    {V : Type ℓ} (P : List ℕ × V → Type 0) (k : List ℕ) (v : V) (m : List (List ℕ × V))
    → P (k, v)
    → All P m
    → All P (Maps.insert k v m)
unfolding Maps.insert
All-insert P k v [] p ps = (p, tt)
All-insert P k v ((j, w) ∷ m) p (q, ps) = elim (Bool-cases (bytes_eq j k)) [
  | inl e ↦ rw e (p, ps)
  | inr e ↦ rw e (q, All-insert P k v m p ps)
]

-- The entries of the second map win.
pub get-extend {ℓ} :
    {V : Type ℓ} (m n : List (List ℕ × V)) (j : List ℕ)
    → IsMap n
    → Maps.get j (Maps.extend m n) ≡ or_else (Maps.get j n) (Maps.get j m)
unfolding Maps.get Maps.extend
get-extend m [] j u = refl
get-extend m ((k, v) ∷ n) j (new, u) = elim (Bool-cases (bytes_eq k j)) [
  | inl e ↦
      get-extend (Maps.insert k v m) n j u
      ∙ ap (or_else (Maps.get j n)) (get-insert k j v m)
      ∙ rw (e, ap (λ i. Maps.get i n) (sym (bytes_eq→eq k j e)) ∙ new) refl
  | inr e ↦
      get-extend (Maps.insert k v m) n j u
      ∙ ap (or_else (Maps.get j n)) (get-insert k j v m)
      ∙ rw e refl
]

module _ (X : Externals) where
  -- The hash of the storage trie of an address, and the trie afterwards.
  abbrev pub hashed_at : List (List ℕ × StateTrie) → List ℕ → Option (List ℕ × StateTrie)
  hashed_at tries j = and_then (Maps.get j tries) (hash_of X)

  -- A storage trie that hashes without a panic, with an account beside it that is in range with the
  -- new root.
  abbrev pub HasHash : List (List ℕ × StateAccount) → List ℕ × StateTrie → Type 0
  HasHash accounts (k, s) =
      (h : List ℕ) × (s' : StateTrie) × (hash_of X s ≡ some (h, s')) × HasAccount accounts (k, h)

  abbrev IsHashed :
      List (List ℕ × StateAccount)
      → List (List ℕ × StateTrie)
      → Roots × List (List ℕ × StateTrie)
      → Option (Roots × List (List ℕ × StateTrie))
      → Type 0
  IsHashed accounts tries (hashes, done) o =
      (hashes' : Roots) × (done' : List (List ℕ × StateTrie)) × (o ≡ some (hashes', done'))
      × IsMap hashes'
      × IsMap done'
      × All (HasAccount accounts) hashes'
      × ((j : List ℕ)
          → (Maps.get j hashes' ≡ or_else (hash_in (hashed_at tries j)) (Maps.get j hashes))
            × (Maps.get j done' ≡ or_else (trie_in (hashed_at tries j)) (Maps.get j done)))

  pub hash_tries-IsHashed :
      (accounts : List (List ℕ × StateAccount)) (tries : List (List ℕ × StateTrie)) (hashes : Roots)
      (done : List (List ℕ × StateTrie))
      → IsMap tries
      → All (HasHash accounts) tries
      → IsMap hashes
      → IsMap done
      → All (HasAccount accounts) hashes
      → IsHashed accounts tries (hashes, done) (hash_tries X tries (hashes, done))
  unfolding hash_tries Maps.get
  hash_tries-IsHashed accounts [] hashes done u hs v w kept =
      (hashes, done, refl, v, w, kept, λ j. (refl, refl))
  hash_tries-IsHashed accounts ((k, s) ∷ tries) hashes done (new, u) ((h, s', e, a), hs) v w kept =
      let (hashes', done', found, v', w', kept', at) =
        hash_tries-IsHashed accounts tries (Maps.insert k h hashes) (Maps.insert k s' done) u hs
          (insert-IsMap k h hashes v) (insert-IsMap k s' done w)
          (All-insert (HasAccount accounts) k h hashes a kept) in
      (
        hashes',
        done',
        ap
              (λ o.
                and_then o
                  (λ (h, s). hash_tries X tries (Maps.insert k h hashes, Maps.insert k s done)))
              e
            ∙ found,
        v',
        w',
        kept',
        λ j. (
          (at j).0
              ∙ ap (or_else (hash_in (hashed_at tries j))) (get-insert k j h hashes)
              ∙ step hash_in h (Maps.get j hashes) refl refl j,
          (at j).1
              ∙ ap (or_else (trie_in (hashed_at tries j))) (get-insert k j s' done)
              ∙ step trie_in s' (Maps.get j done) refl refl j,
        ),
      )
    where
      step :
          {B : Type 0} (f : Option (List ℕ × StateTrie) → Option B) (b : B) (old : Option B)
          → f none ≡ none
          → f (some (h, s')) ≡ some b
          → (j : List ℕ)
          → or_else (f (hashed_at tries j)) (if bytes_eq k j then some b else old)
            ≡ or_else (f (hashed_at ((k, s) ∷ tries) j)) old
      step f b old f_none f_some j = elim (Bool-cases (bytes_eq k j)) [
        | inl c ↦
            rw (c, ap (λ i. Maps.get i tries) (sym (bytes_eq→eq k j c)) ∙ new, f_none, e, f_some)
              refl
        | inr c ↦ rw c refl
      ]
