-- ===== src/TrieDb/Plan.antt =====
-- How a batch of triedb/src/triedb_reth.rs sorts its accounts, as a function of the final account of
-- each address.
use mathlib.Core.Option
use rust_eth_triedb.Maps
use rust_eth_triedb.Common.{
  ℕ, List, [], ◌∷◌, Bool, true, false, ◌≡◌, refl, ap, sym, ◌∙◌, if◌then◌else◌, Option, none, some,
  bytes_eq, bytes_eq→eq, bytes_eq_refl, Bool-cases, inl, inr,
}
use rust_eth_triedb.Maps.{get-insert}
use rust_eth_triedb.DiffLayer.Order.{or_else}
use rust_eth_triedb.NodeSet.Laws.{IsMap}
use rust_eth_triedb.StateTrie.{StateAccount}
use rust_eth_triedb.TrieDb.Reth.{Changes, Accounts, SlotsOf, is_some, sort_account}

-- Where an account goes, and which.
abbrev pub as_change : Bool → Option StateAccount → Option (Option StateAccount)
as_change has_slots none = some none
as_change has_slots (some a) = if has_slots then none else some (some a)

abbrev pub as_account : Bool → Option StateAccount → Option StateAccount
as_account has_slots none = none
as_account has_slots (some a) = if has_slots then some a else none

if-same : {A : Type 0} (b : Bool) (a : A) → (if b then a else a) ≡ a
if-same true a = refl
if-same false a = refl

-- An entry in front of others that do not have its key.
in_front :
    {A : Type 0} (f : Option (Option StateAccount) → Option A) (x : Option StateAccount)
    (here old : Option A) (j k : List ℕ) (rest : Changes)
    → f none ≡ none
    → Maps.get k rest ≡ none
    → (bytes_eq k j ≡ true → here ≡ or_else (f (some x)) old)
    → or_else (f (Maps.get j rest)) (if bytes_eq k j then here else old)
      ≡ or_else (f (if bytes_eq k j then some x else Maps.get j rest)) old
in_front f x here old j k rest plain free h = elim (Bool-cases (bytes_eq k j)) [
  | inl e ↦ rw e (
      ap (λ i. or_else (f (Maps.get i rest)) here) (sym (bytes_eq→eq k j e))
      ∙ ap (λ o. or_else (f o) here) free
      ∙ ap (λ o. or_else o here) plain
      ∙ h e)
  | inr e ↦ rw e refl
]

module _ (storage_states : SlotsOf) (final : List ℕ → StateAccount → StateAccount) where
  abbrev pub has_slots : List ℕ → Bool
  has_slots j = is_some (Maps.get j storage_states)

  -- The accounts sorted, each in its final form.
  unfoldable pub plan : Changes → Changes × Accounts → Changes × Accounts
  unfolding Maps.insert
  plan [] sorted = sorted
  plan ((j, none) ∷ rest) sorted = plan rest (Maps.insert j none sorted.0, sorted.1)
  plan ((j, some a) ∷ rest) sorted = plan rest (sort_account storage_states j (final j a) sorted)

  abbrev pub change_for : List ℕ → Option (Option StateAccount) → Option (Option StateAccount)
  change_for j none = none
  change_for j (some o) = as_change (has_slots j) (Option.map (final j) o)

  abbrev pub account_for : List ℕ → Option (Option StateAccount) → Option StateAccount
  account_for j none = none
  account_for j (some o) = as_account (has_slots j) (Option.map (final j) o)

  get-sort_account :
      (j k : List ℕ) (a : StateAccount) (sorted : Changes × Accounts)
      → (Maps.get j (sort_account storage_states k a sorted).0 ≡ (
          if bytes_eq k j
          then or_else (as_change (has_slots j) (some a)) (Maps.get j sorted.0)
          else Maps.get j sorted.0))
        × (Maps.get j (sort_account storage_states k a sorted).1 ≡ (
            if bytes_eq k j
            then or_else (as_account (has_slots j) (some a)) (Maps.get j sorted.1)
            else Maps.get j sorted.1))
  unfolding Maps.get
  get-sort_account j k a sorted = elim (Bool-cases (bytes_eq k j)) [
    | inl e ↦ rw (e, bytes_eq→eq k j e) (same (has_slots j))
    | inr e ↦ rw e (other (has_slots k) e)
  ]
    where
      placed : Bool → List ℕ → Changes × Accounts
      placed c i =
          if c
          then (sorted.0, Maps.insert i a sorted.1)
          else (Maps.insert i (some a) sorted.0, sorted.1)

      same :
          (c : Bool)
          → (Maps.get j (placed c j).0 ≡ or_else (as_change c (some a)) (Maps.get j sorted.0))
            × (Maps.get j (placed c j).1 ≡ or_else (as_account c (some a)) (Maps.get j sorted.1))
      same true = (refl, get-insert j j a sorted.1 ∙ rw (bytes_eq_refl j) refl)
      same false = (get-insert j j (some a) sorted.0 ∙ rw (bytes_eq_refl j) refl, refl)

      other :
          (c : Bool)
          → bytes_eq k j ≡ false
          → (Maps.get j (placed c k).0 ≡ Maps.get j sorted.0)
            × (Maps.get j (placed c k).1 ≡ Maps.get j sorted.1)
      other true e = (refl, get-insert k j a sorted.1 ∙ rw e refl)
      other false e = (get-insert k j (some a) sorted.0 ∙ rw e refl, refl)

  pub get-plan :
      (j : List ℕ) (states : Changes) (sorted : Changes × Accounts)
      → IsMap states
      → (Maps.get j (plan states sorted).0
          ≡ or_else (change_for j (Maps.get j states)) (Maps.get j sorted.0))
        × (Maps.get j (plan states sorted).1
            ≡ or_else (account_for j (Maps.get j states)) (Maps.get j sorted.1))
  unfolding plan Maps.get
  get-plan j [] sorted distinct = (refl, refl)
  get-plan j ((k, none) ∷ rest) sorted (free, distinct) =
      let (p, q) = get-plan j rest (Maps.insert k none sorted.0, sorted.1) distinct in
      (
        p
            ∙ ap (or_else (change_for j (Maps.get j rest))) (get-insert k j none sorted.0)
            ∙ in_front (change_for j) none _ _ j k rest refl free (λ e. refl),
        q
            ∙ ap (or_else (account_for j (Maps.get j rest))) (sym (if-same (bytes_eq k j) _))
            ∙ in_front (account_for j) none _ _ j k rest refl free (λ e. refl),
      )
  get-plan j ((k, some a) ∷ rest) sorted (free, distinct) =
      let (p, q) = get-plan j rest (sort_account storage_states k (final k a) sorted) distinct in
      let (p', q') = get-sort_account j k (final k a) sorted in
      (
        p
            ∙ ap (or_else (change_for j (Maps.get j rest))) p'
            ∙ in_front (change_for j) (some a) _ _ j k rest refl free
                (λ e. rw (bytes_eq→eq k j e) refl),
        q
            ∙ ap (or_else (account_for j (Maps.get j rest))) q'
            ∙ in_front (account_for j) (some a) _ _ j k rest refl free
                (λ e. rw (bytes_eq→eq k j e) refl),
      )
