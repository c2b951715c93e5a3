-- ===== src/TrieDb/Hashes.antt =====
-- `calculate_hash` of triedb/src/triedb_basic.rs, which writes the roots of the storage tries.
use rust_eth_triedb.Common.{
  ℕ, List, [], ◌∷◌, true, false, ◌≡◌, refl, ap, sym, ◌∙◌, if◌then◌else◌, Option, none, some,
  bytes_eq, bytes_eq→eq, ok, err, Bool-cases, ◌⊎◌, inl, inr, All,
}
use rust_eth_triedb.Maps
use rust_eth_triedb.Maps.{get-insert}
use rust_eth_triedb.DiffLayer.Order.{or_else}
use rust_eth_triedb.NodeSet.Laws.{IsMap, or_else-none}
use rust_eth_triedb.StateTrie.{StateTrie, StateAccount, with_storage_root}
use rust_eth_triedb.StateTrie.Laws.{IsHash, IsAccount, IsCodec, IsUsable}
use rust_eth_triedb.TrieDatabase.{TrieDatabase}
use rust_eth_triedb.TrieDb.{Externals, Db, Called, Failure}
use rust_eth_triedb.TrieDb.HashTries.{
  HasAccount, HasHash, hash_in, trie_in, hashed_at, get-extend, hash_tries-IsHashed,
}
use rust_eth_triedb.TrieDb.Basic.{hash_of, rehashed, write_root, write_roots, calculate_hash}
use rust_eth_triedb.TrieDb.Reth.{Roots}
use rust_eth_triedb.TrieDb.Accounts.{
  account_at, IsReady, with_trie, Becomes, now, account_at-read, >>-Becomes, Becomes-cong,
  stays-Becomes, update-Becomes,
}

-- The account that is written for a storage hash.
abbrev pub rooted_by : Option (List ℕ) → Option StateAccount → Option (Option StateAccount)
rooted_by none a = none
rooted_by (some h) none = none
rooted_by (some h) (some a) = some (some (with_storage_root h a))

abbrev pub rooted : List (List ℕ × StateAccount) → Roots → List ℕ → Option (Option StateAccount)
rooted accounts hashes j = rooted_by (Maps.get j hashes) (Maps.get j accounts)

module _ (D : TrieDatabase) (X : Externals) (laws : IsCodec X.codec) where
  abbrev with_roots : Roots → Db D X → Db D X
  with_roots roots t = record t { updated_storage_roots = roots }

  write_root-Becomes :
      (k h : List ℕ) (a : StateAccount) (t : Db D X)
      → IsReady D X t
      → IsHash k
      → Maps.get k t.accounts_with_storage_trie ≡ some a
      → IsAccount (with_storage_root h a)
      → Becomes D X
          (with_roots (Maps.insert k h t.updated_storage_roots) t)
          t
          (λ j. if bytes_eq k j then some (some (with_storage_root h a)) else none)
          tt
          (write_root D X k h t)
  unfolding write_root
  write_root-Becomes k h a t (s, e, usable) hk kept fits =
      let t' : Db D X = with_roots (Maps.insert k h t.updated_storage_roots) t in
      let (s', e', usable', found) =
        (update-Becomes D X laws t' k (with_storage_root h a) (s, e, usable) hk fits).1 in
      rw kept (
        s',
        e',
        usable',
        λ j hj.
            found j hj
            ∙ ap (now (if bytes_eq k j then some (some (with_storage_root h a)) else none))
                (account_at-read D X t' s j e ∙ sym (account_at-read D X t s j e)),
      )

  write_roots-Becomes :
      (hashes : Roots) (t : Db D X)
      → IsReady D X t
      → IsMap hashes
      → All (HasAccount t.accounts_with_storage_trie) hashes
      → Becomes D X
          (with_roots (Maps.extend t.updated_storage_roots hashes) t)
          t
          (rooted t.accounts_with_storage_trie hashes)
          tt
          (write_roots D X hashes t)
  unfolding write_roots Maps.get Maps.extend
  write_roots-Becomes [] t ready distinct hs = stays-Becomes D X tt t ready
  write_roots-Becomes ((k, h) ∷ rest) t ready (free, distinct) ((hk, a, kept, fits), hs) =
      let b = with_roots (Maps.insert k h t.updated_storage_roots) t in
      let b' = with_roots (Maps.extend t.updated_storage_roots ((k, h) ∷ rest)) t in
      Becomes-cong D X b' t _ _ tt _ (λ j. one_root j (Bool-cases (bytes_eq k j)))
        (>>-Becomes D X b' b t (write_root D X k h) (write_roots D X rest) _ _ tt
          (write_root-Becomes k h a t ready hk kept fits)
          (λ s usable. write_roots-Becomes rest (with_trie D X s b) (s, refl, usable) distinct hs))
    where
      one_root :
          (j : List ℕ)
          → (bytes_eq k j ≡ true) ⊎ (bytes_eq k j ≡ false)
          → or_else
              (rooted t.accounts_with_storage_trie rest j)
              (if bytes_eq k j then some (some (with_storage_root h a)) else none)
            ≡ rooted t.accounts_with_storage_trie ((k, h) ∷ rest) j
      one_root j (inl e) = rw (e, sym (bytes_eq→eq k j e), rooted, free, kept) refl
      one_root j (inr e) = rw e (or_else-none (rooted t.accounts_with_storage_trie rest j))

  -- The hash of the account trie is the result, and the trie is kept as hashing leaves it.
  abbrev pub IsHashOf : Option (List ℕ × StateTrie) → Called D.State (List ℕ) → Type 0
  IsHashOf none (r, t) = r ≡ err Failure.panic
  IsHashOf (some (h, s)) (r, t) = (r ≡ ok h) × (t.account_trie ≡ some s)

  -- The hashed storage tries are kept, and their hashes are the roots that are recorded.
  abbrev pub IsRecorded : Db D X → Db D X → Type 0
  IsRecorded t t' =
      (j : List ℕ)
      → (Maps.get j t'.storage_tries
          ≡ or_else (trie_in (hashed_at X t.storage_tries j)) (Maps.get j t.storage_tries))
        × (Maps.get j t'.updated_storage_roots
            ≡ or_else (hash_in (hashed_at X t.storage_tries j))
                (Maps.get j t.updated_storage_roots))

  rehashed-IsHashOf : (o : Option (List ℕ × StateTrie)) (t : Db D X) → IsHashOf o (rehashed D X o t)
  rehashed-IsHashOf none t = refl
  rehashed-IsHashOf (some (h, s)) t = (refl, refl)

  rehashed-IsRecorded :
      (o : Option (List ℕ × StateTrie)) (t t' : Db D X)
      → IsRecorded t t'
      → IsRecorded t (rehashed D X o t').1
  rehashed-IsRecorded none t t' h = h
  rehashed-IsRecorded (some (x, s)) t t' h = h

  -- With a codec that keeps its laws, when the account trie is there and usable, no address
  -- stands twice among the storage tries, each of them hashes without a panic, and each has an
  -- account kept beside it that is in range with the hash as its storage root:
  -- `calculate_hash` keeps the storage tries as hashing leaves them and records their hashes
  -- as updated storage roots, beside those that were recorded; it writes a usable account trie
  -- that replies for each of these addresses the account that was kept, with the hash of its
  -- storage trie as its root, and for every other address what it replied before; and the
  -- result is the hash of that account trie, which is kept as hashing leaves it, or a panic
  -- when hashing it panics.
  pub calculate_hash-replies :
      (t : Db D X)
      → IsReady D X t
      → IsMap t.storage_tries
      → All (HasHash X t.accounts_with_storage_trie) t.storage_tries
      → (s : StateTrie) × IsUsable s
        × IsHashOf (hash_of X s) (calculate_hash D X t)
        × IsRecorded t (calculate_hash D X t).1
        × ((j : List ℕ)
            → IsHash j
            → account_at D X (with_trie D X s t) j
              ≡ now
                  (rooted_by
                    (hash_in (hashed_at X t.storage_tries j))
                    (Maps.get j t.accounts_with_storage_trie))
                  (account_at D X t j))
  unfolding calculate_hash Maps.get
  calculate_hash-replies t ready distinct hs =
      let (hashes, tries, hashed, one, two, kept, at) =
        hash_tries-IsHashed X t.accounts_with_storage_trie t.storage_tries [] [] distinct hs tt tt
          tt in
      let (s, e, usable, found) = write_roots-Becomes hashes t ready one kept in
      let t' : Db D X = record t {
        account_trie = some s;
        storage_tries = Maps.extend t.storage_tries tries;
        updated_storage_roots = Maps.extend t.updated_storage_roots hashes;
      } in
      rw (hashed, e)
        (
          s,
          usable,
          rehashed-IsHashOf (hash_of X s) t',
          rehashed-IsRecorded (hash_of X s) t t' (λ j. (
            get-extend t.storage_tries tries j two
                ∙ ap (λ o. or_else o (Maps.get j t.storage_tries)) ((at j).1 ∙ or_else-none _),
            get-extend t.updated_storage_roots hashes j one
                ∙ ap (λ o. or_else o (Maps.get j t.updated_storage_roots))
                    ((at j).0 ∙ or_else-none _),
          )),
          λ j h.
              account_at-read D X (with_trie D X s t) s j refl
              ∙ sym (
                  account_at-read D X
                    (with_trie D X s (with_roots (Maps.extend t.updated_storage_roots hashes) t)) s
                    j refl)
              ∙ found j h
              ∙ ap
                  (λ o.
                    now (rooted_by o (Maps.get j t.accounts_with_storage_trie))
                      (account_at D X t j))
                  ((at j).0 ∙ or_else-none _),
        )
