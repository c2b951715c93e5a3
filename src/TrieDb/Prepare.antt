-- ===== src/TrieDb/Prepare.antt =====
-- The preparation of a batch in triedb/src/triedb_reth.rs: which account is written at an address.
use mathlib.Core.Path.{subst, sym}
use rust_eth_triedb.Maps
use rust_eth_triedb.Common.{
  ℕ, List, [], ◌∷◌, Bool, true, false, ◌≡◌, refl, ap, ◌∙◌, if◌then◌else◌, Option, none, some,
  Result, ok, err, All,
}
use rust_eth_triedb.Maps.{get-insert}
use rust_eth_triedb.DiffLayer.Order.{or_else}
use rust_eth_triedb.StateTrie.{StateAccount, with_storage_root}
use rust_eth_triedb.StateTrie.Laws.{IsHash}
use rust_eth_triedb.TrieDatabase.{TrieDatabase}
use rust_eth_triedb.TrieDb.{Failure, Externals, Db, bind, get_account_with_hash_state}
use rust_eth_triedb.TrieDb.Disk.{get_storage_root, layers_root, root_or_account, root_of}
use rust_eth_triedb.TrieDb.Reth.{
  Changes, Accounts, SlotsOf, keep_root, sort_account, final_account, prepare,
}
use rust_eth_triedb.TrieDb.Accounts.{
  account_at, IsReady, with_trie, Becomes, >>=-Becomes, stays-Becomes, get-Becomes,
}
use rust_eth_triedb.TrieDb.Plan.{plan}

abbrev pub reply : Result Failure (Option StateAccount) → Option StateAccount
reply (ok a) = a
reply (err e) = none

abbrev pub root_or : List ℕ → Option (List ℕ) → List ℕ
root_or given none = given
root_or given (some known) = known

keep_root-root_or :
    (a : StateAccount) (o : Option (List ℕ))
    → keep_root a o ≡ with_storage_root (root_or a.storage_root o) a
keep_root-root_or a none = refl
keep_root-root_or a (some root) = refl

module _ (D : TrieDatabase) (X : Externals) where
  -- The storage root that is known for an address, in the diff layers or in the account trie.
  abbrev pub known_root : Db D X → List ℕ → Option (List ℕ)
  known_root t j = or_else (layers_root j t.difflayer) (root_of (reply (account_at D X t j)))

  -- The account that is written: as given if it is rebuilt, and else with the known root.
  abbrev pub final_of : List (List ℕ) → Db D X → List ℕ → StateAccount → StateAccount
  final_of rebuild t j a =
      if Maps.contains j rebuild
      then a
      else with_storage_root (root_or a.storage_root (known_root t j)) a

  -- Every stored account can be read.
  abbrev pub IsReadable : Db D X → Type 0
  IsReadable t = (j : List ℕ) → IsHash j → (a : Option StateAccount) × (account_at D X t j ≡ ok a)

  get_storage_root-Becomes :
      (t : Db D X) (k : List ℕ)
      → IsReady D X t
      → IsReadable t
      → IsHash k
      → Becomes D X t t (λ j. none) (known_root t k) (get_storage_root D X k t)
  unfolding get_storage_root
  get_storage_root-Becomes t k ready readable h = go (layers_root k t.difflayer)
    where
      go :
          (o : Option (List ℕ))
          → Becomes D X t t
              (λ j. none)
              (or_else o (root_of (reply (account_at D X t k))))
              (root_or_account D X k o t)
      go (some r) = stays-Becomes D X (some r) t ready
      go none =
          let (a, e) = readable k h in
          rw e (
            >>=-Becomes D X t t t (get_account_with_hash_state D X k)
              (λ account t'. (ok (root_of account), t')) (λ j. none) (λ j. none) a (root_of a)
              (get-Becomes D X t k a ready h e)
              (λ s usable. stays-Becomes D X (root_of a) (with_trie D X s t) (s, refl, usable)))

  final_account-Becomes :
      (rebuild : List (List ℕ)) (t : Db D X) (k : List ℕ) (a : StateAccount)
      → IsReady D X t
      → IsReadable t
      → IsHash k
      → Becomes D X t t (λ j. none) (final_of rebuild t k a) (final_account D X rebuild k a t)
  unfolding final_account
  final_account-Becomes rebuild t k a ready readable h = go (Maps.contains k rebuild)
    where
      go :
          (c : Bool)
          → Becomes D X t t
              (λ j. none)
              (if c then a else with_storage_root (root_or a.storage_root (known_root t k)) a)
              (if c
                then (ok a, t)
                else bind (get_storage_root D X k t) (λ root t'. (ok (keep_root a root), t')))
      go true = stays-Becomes D X a t ready
      go false =
          >>=-Becomes D X t t t (get_storage_root D X k) (λ root t'. (ok (keep_root a root), t'))
            (λ j. none) (λ j. none) (known_root t k) _
            (get_storage_root-Becomes t k ready readable h)
            (λ s usable.
              subst
                (λ x.
                  Becomes D X (with_trie D X s t) (with_trie D X s t) (λ j. none)
                    (with_storage_root (root_or a.storage_root (known_root t k)) a)
                    (ok x, with_trie D X s t))
                (sym (keep_root-root_or a (known_root t k)))
                (stays-Becomes D X (with_storage_root (root_or a.storage_root (known_root t k)) a)
                  (with_trie D X s t) (s, refl, usable)))

  module _ (rebuild : List (List ℕ)) (storage_states : SlotsOf)
      (final : List ℕ → StateAccount → StateAccount) where
    pub prepare-Becomes :
        (states : Changes) (sorted : Changes × Accounts) (t : Db D X)
        → IsReady D X t
        → IsReadable t
        → ((j : List ℕ) (a : StateAccount) → IsHash j → final_of rebuild t j a ≡ final j a)
        → All (λ e. IsHash e.0) states
        → Becomes D X t t
            (λ j. none)
            (plan storage_states final states sorted)
            (prepare D X rebuild storage_states states sorted t)
    unfolding prepare plan
    prepare-Becomes [] sorted t ready readable same hs = stays-Becomes D X sorted t ready
    prepare-Becomes ((k, none) ∷ rest) sorted t ready readable same (h, hs) =
        prepare-Becomes rest (Maps.insert k none sorted.0, sorted.1) t ready readable same hs
    prepare-Becomes ((k, some a) ∷ rest) sorted t ready readable same (h, hs) =
        let (s, e, usable, found) = final_account-Becomes rebuild t k a ready readable h in
        let (s', e', usable', found') =
          prepare-Becomes rest (sort_account storage_states k (final k a) sorted)
            (with_trie D X s t) (s, refl, usable)
            (λ j hj. let (x, q) = readable j hj in (x, found j hj ∙ q))
            (λ j b hj.
              ap
                (λ r.
                  if Maps.contains j rebuild
                  then b
                  else with_storage_root
                      (root_or b.storage_root
                        (or_else (layers_root j t.difflayer) (root_of (reply r))))
                      b)
                (found j hj)
              ∙ same j b hj)
            hs in
        rw (e ∙ ap (λ x. (ok x, with_trie D X s t)) (same k a h), e')
          (s', refl, usable', λ j hj. found' j hj ∙ found j hj)
