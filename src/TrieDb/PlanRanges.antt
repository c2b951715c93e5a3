-- ===== src/TrieDb/PlanRanges.antt =====
-- The accounts that a batch sorts stay in range, and the maps stay maps.
use mathlib.Core.Option
use rust_eth_triedb.Maps
use rust_eth_triedb.Common.{
  ℕ, List, [], ◌∷◌, Bool, true, false, ◌≡◌, refl, sym, ◌∙◌, if◌then◌else◌, Option, none, some,
  bytes_eq, bytes_eq→eq, bytes_eq_refl, Bool-cases, inl, inr, All, arith,
}
use rust_eth_triedb.Maps.{get-insert}
use rust_eth_triedb.NodeSet.Laws.{IsMap}
use rust_eth_triedb.StateTrie.{StateAccount}
use rust_eth_triedb.StateTrie.Laws.{IsHash}
use rust_eth_triedb.TrieDb.Reth.{Changes, Accounts, SlotsOf, is_some, sort_account}
use rust_eth_triedb.TrieDb.AccountTask.{IsChange}
use rust_eth_triedb.TrieDb.Plan.{plan}

insert-IsMap :
    {V : Type 0} (k : List ℕ) (v : V) (m : List (List ℕ × V)) → IsMap m → IsMap (Maps.insert k v m)
unfolding Maps.insert Maps.get
insert-IsMap k v [] h = (refl, tt)
insert-IsMap k v ((j, w) ∷ m) (free, h) = elim (Bool-cases (bytes_eq j k)) [
  | inl e ↦ rw (e, sym (bytes_eq→eq j k e)) (free, h)
  | inr e ↦ rw e (get-insert k j v m ∙ absent e, insert-IsMap k v m h)
]
  where
    absent : bytes_eq j k ≡ false → (if bytes_eq k j then some v else Maps.get j m) ≡ none
    absent e = rw free (ground (arith, bytes_eq→eq k j, bytes_eq_refl j))

insert-All :
    {V : Type 0} (P : List ℕ × V → Type 0) (k : List ℕ) (v : V) (m : List (List ℕ × V))
    → P (k, v)
    → All P m
    → All P (Maps.insert k v m)
unfolding Maps.insert
insert-All P k v [] h hs = (h, tt)
insert-All P k v ((j, w) ∷ m) h (h', hs) = go (bytes_eq j k) (insert-All P k v m h hs)
  where
    go :
        (b : Bool)
        → All P (Maps.insert k v m)
        → All P (if b then (k, v) ∷ m else (j, w) ∷ Maps.insert k v m)
    go true rest = (h, hs)
    go false rest = (h', rest)

found_behind :
    {V : Type 0} (k j : List ℕ) (v : V) (m : List (List ℕ × V))
    → is_some (Maps.get j m) ≡ true
    → is_some (if bytes_eq k j then some v else Maps.get j m) ≡ true
found_behind k j v m q = go (bytes_eq k j)
  where
    go : (b : Bool) → is_some (if b then some v else Maps.get j m) ≡ true
    go true = refl
    go false = q

-- A map finds each of its entries.
pub entries-found :
    {V : Type 0} (front m : List (List ℕ × V))
    → ((e : List ℕ × V) → is_some (Maps.get e.0 m) ≡ true → is_some (Maps.get e.0 front) ≡ true)
    → All (λ e. is_some (Maps.get e.0 front) ≡ true) m
unfolding Maps.get
entries-found front [] h = tt
entries-found front ((k, v) ∷ m) h = (
  h (k, v) (rw (bytes_eq_refl k) refl),
  entries-found front m (λ e q. h e (found_behind k e.0 v m q)),
)

module _ (storage_states : SlotsOf) (final : List ℕ → StateAccount → StateAccount) where
  -- Addresses are hashes, and the accounts that are written are in range.
  abbrev pub IsFinal : List ℕ × Option StateAccount → Type 0
  IsFinal (k, o) = IsChange (k, Option.map (final k) o)

  pub final-hashes : (states : Changes) → All IsFinal states → All (λ e. IsHash e.0) states
  final-hashes [] fs = tt
  final-hashes ((k, none) ∷ rest) (f, fs) = (f, final-hashes rest fs)
  final-hashes ((k, some a) ∷ rest) ((h, _), fs) = (h, final-hashes rest fs)

  sort_account-IsChange :
      (k : List ℕ) (a : StateAccount) (sorted : Changes × Accounts)
      → IsChange (k, some a)
      → IsMap sorted.0
      → All IsChange sorted.0
      → IsMap (sort_account storage_states k a sorted).0
        × All IsChange (sort_account storage_states k a sorted).0
  sort_account-IsChange k a sorted h distinct hs = go (is_some (Maps.get k storage_states))
    where
      placed : Bool → Changes × Accounts
      placed c =
          if c
          then (sorted.0, Maps.insert k a sorted.1)
          else (Maps.insert k (some a) sorted.0, sorted.1)

      go : (c : Bool) → IsMap (placed c).0 × All IsChange (placed c).0
      go true = (distinct, hs)
      go false =
          (insert-IsMap k (some a) sorted.0 distinct, insert-All IsChange k (some a) sorted.0 h hs)

  pub plan-IsChange :
      (states : Changes) (sorted : Changes × Accounts)
      → All IsFinal states
      → IsMap sorted.0
      → All IsChange sorted.0
      → IsMap (plan storage_states final states sorted).0
        × All IsChange (plan storage_states final states sorted).0
  unfolding plan
  plan-IsChange [] sorted fs distinct hs = (distinct, hs)
  plan-IsChange ((k, none) ∷ rest) sorted (f, fs) distinct hs =
      plan-IsChange rest (Maps.insert k none sorted.0, sorted.1) fs
        (insert-IsMap k none sorted.0 distinct) (insert-All IsChange k none sorted.0 f hs)
  plan-IsChange ((k, some a) ∷ rest) sorted (f, fs) distinct hs =
      let (distinct', hs') = sort_account-IsChange k (final k a) sorted f distinct hs in
      plan-IsChange rest (sort_account storage_states k (final k a) sorted) fs distinct' hs'
