-- ===== src/PathDb/Commit/Laws.antt =====
-- The caches of PathDB after a diff layer is committed.
use rust_eth_triedb.Common.{
  ℕ, List, [], ◌∷◌, ◌++◌, Bool, true, false, ◌≡◌, refl, sym, ◌∙◌, if◌then◌else◌, bytes_eq, Option,
  none, some, Result, ok, err, Bool-cases, inl, inr,
}
use mathlib.Core.Path.{subst}
use rust_eth_triedb.DiffLayer.{DiffLayer, TrieNode, is_deleted}
use rust_eth_triedb.PathDb.{Db, Outcome, database, trie_state_root_key, trie_state_block_number_key}
use rust_eth_triedb.PathDb.Store.{
  Family, default, meta_data, storage_root, RocksDb, IsRocksDb, Lru, IsLru, Agrees, IsWritten,
  BatchOp, put, delete, after, after_op,
}
use rust_eth_triedb.PathDb.Coherence.{IsCacheOf, IsCoherent, insert-IsCacheOf, remove-IsCacheOf}
use rust_eth_triedb.PathDb.Commit.{
  Pending, commit_blob, commit_node, commit_nodes, commit_roots, commit_state, commit_batch,
  commit_difflayer, commit_done,
}

pub after-append :
    (xs ys : List BatchOp) (f : Family) (j : List ℕ) (old : Option (List ℕ))
    → after (xs ++ ys) f j old ≡ after ys f j (after xs f j old)
after-append [] ys f j old = refl
after-append (x ∷ xs) ys f j old = after-append xs ys f j (after_op x f j old)

module _ (L : Lru) (lru : IsLru L) (held : Family → List ℕ → Option (List ℕ)) where
  -- The cache has what the database holds once the batch is written.
  abbrev pub IsPending : Family → Pending L → Type 0
  IsPending f (cache, batch) = IsCacheOf L (λ j. after batch f j (held f j)) cache

  commit_node-IsPending :
      (key : List ℕ) (node : TrieNode) (p : Pending L)
      → IsPending default p
      → IsPending default (commit_node L key node p)
  unfolding commit_node
  commit_node-IsPending key node (cache, batch) h = elim (Bool-cases (is_deleted node)) [
    | inl d ↦ rw d (
        remove-IsCacheOf L lru (λ j. after batch default j (held default j)) _ key cache none h
          (λ j. after-append batch (delete default key ∷ []) default j (held default j)))
    | inr d ↦ rw d (kept_node (node.blob))
  ]
    where
      kept_node : (b : Option (List ℕ)) → IsPending default (commit_blob L key b (cache, batch))
      kept_node none = h
      kept_node (some blob) =
          insert-IsCacheOf L lru (λ j. after batch default j (held default j)) _ key cache
            (some blob) h
            (λ j. after-append batch (put default key blob ∷ []) default j (held default j))

  commit_nodes-IsPending :
      (nodes : List (List ℕ × TrieNode)) (p : Pending L)
      → IsPending default p
      → IsPending default (commit_nodes L nodes p)
  unfolding commit_nodes
  commit_nodes-IsPending [] p h = h
  commit_nodes-IsPending ((key, node) ∷ nodes) p h =
      commit_nodes-IsPending nodes (commit_node L key node p) (commit_node-IsPending key node p h)

  commit_roots-IsPending :
      (roots : List (List ℕ × List ℕ)) (p : Pending L)
      → IsPending storage_root p
      → IsPending storage_root (commit_roots L roots p)
  unfolding commit_roots
  commit_roots-IsPending [] p h = h
  commit_roots-IsPending ((key, value) ∷ roots) (cache, batch) h =
      commit_roots-IsPending roots
        (L.insert key (some value) cache, batch ++ (put storage_root key value ∷ []))
        (insert-IsCacheOf L lru (λ j. after batch storage_root j (held storage_root j)) _ key cache
          (some value) h
          (λ j.
            after-append batch (put storage_root key value ∷ []) storage_root j
              (held storage_root j)))

  -- The trie nodes are not written to the family of the storage roots, nor these to that.
  after-commit_node :
      (key : List ℕ) (node : TrieNode) (p : Pending L) (j : List ℕ) (old : Option (List ℕ))
      → after (commit_node L key node p).1 storage_root j old ≡ after p.1 storage_root j old
  unfolding commit_node
  after-commit_node key node (cache, batch) j old = elim (Bool-cases (is_deleted node)) [
    | inl d ↦ rw d (after-append batch (delete default key ∷ []) storage_root j old)
    | inr d ↦ rw d (kept_node (node.blob))
  ]
    where
      kept_node :
          (b : Option (List ℕ))
          → after (commit_blob L key b (cache, batch)).1 storage_root j old
            ≡ after batch storage_root j old
      kept_node none = refl
      kept_node (some blob) = after-append batch (put default key blob ∷ []) storage_root j old

  after-commit_nodes :
      (nodes : List (List ℕ × TrieNode)) (p : Pending L) (j : List ℕ) (old : Option (List ℕ))
      → after (commit_nodes L nodes p).1 storage_root j old ≡ after p.1 storage_root j old
  unfolding commit_nodes
  after-commit_nodes [] p j old = refl
  after-commit_nodes ((key, node) ∷ nodes) p j old =
      after-commit_nodes nodes (commit_node L key node p) j old ∙ after-commit_node key node p j old

  pub after-commit_roots :
      (roots : List (List ℕ × List ℕ)) (p : Pending L) (j : List ℕ) (old : Option (List ℕ))
      → after (commit_roots L roots p).1 default j old ≡ after p.1 default j old
  unfolding commit_roots
  after-commit_roots [] p j old = refl
  after-commit_roots ((key, value) ∷ roots) (cache, batch) j old =
      after-commit_roots roots
        (L.insert key (some value) cache, batch ++ (put storage_root key value ∷ [])) j old
      ∙ after-append batch (put storage_root key value ∷ []) default j old

  commit_state-IsPending :
      (n : ℕ) (root : List ℕ) (cache : L.Cache)
      → IsCacheOf L (held default) cache
      → IsPending default (commit_state L n root cache)
  unfolding commit_state
  commit_state-IsPending n root cache h =
      insert-IsCacheOf L lru _ _ trie_state_block_number_key
        (L.insert trie_state_root_key (some root) cache) _
        (insert-IsCacheOf L lru (held default)
          (λ j. if bytes_eq trie_state_root_key j then some root else held default j)
          trie_state_root_key cache (some root) h (λ j. refl))
        (λ j. refl)

  after-commit_state :
      (n : ℕ) (root : List ℕ) (cache : L.Cache) (j : List ℕ) (old : Option (List ℕ))
      → after (commit_state L n root cache).1 storage_root j old ≡ old
  unfolding commit_state
  after-commit_state n root cache j old = refl

  -- What the caches have once the whole batch is made.
  pub commit_batch-IsCacheOf :
      (n : ℕ) (root : List ℕ) (difflayer : Option DiffLayer) (nodes roots : L.Cache)
      → IsCacheOf L (held default) nodes
      → IsCacheOf L (held storage_root) roots
      → IsCacheOf L
          (λ j. after (commit_batch L n root difflayer nodes roots).2 default j (held default j))
          (commit_batch L n root difflayer nodes roots).0
        × IsCacheOf L
            (λ j.
              after
                (commit_batch L n root difflayer nodes roots).2
                storage_root
                j
                (held storage_root j))
            (commit_batch L n root difflayer nodes roots).1
  unfolding commit_batch
  commit_batch-IsCacheOf n root none nodes roots h h' = (
    commit_state-IsPending n root nodes h,
    λ j.
        subst (Agrees (L.peek j roots))
          (sym (after-commit_state n root nodes j (held storage_root j))) (h' j),
  )
  commit_batch-IsCacheOf n root (some layer) nodes roots h h' =
      let state = commit_state L n root nodes in
      let p = commit_nodes L layer.diff_nodes state in
      let filled =
        commit_nodes-IsPending layer.diff_nodes state (commit_state-IsPending n root nodes h) in
      let untouched = λ (j : List ℕ).
        after-commit_nodes layer.diff_nodes state j (held storage_root j)
        ∙ after-commit_state n root nodes j (held storage_root j) in
      (
        λ j.
            subst (Agrees (L.peek j p.0))
              (sym (after-commit_roots layer.diff_storage_roots (roots, p.1) j (held default j)))
              (filled j),
        commit_roots-IsPending layer.diff_storage_roots (roots, p.1)
            (λ j. subst (Agrees (L.peek j roots)) (sym (untouched j)) (h' j)),
      )

-- A commit that succeeds has written the batch, and the caches agree with the database; one that
-- fails has left the database.
abbrev pub IsCommitted :
    (R : RocksDb) (L : Lru) → List BatchOp → Db R L → Outcome R.State L.Cache (Unit {0}) → Type 0
IsCommitted R L batch t (ok u, t') =
    ((f : Family) (j : List ℕ) → R.holds f j t'.db ≡ after batch f j (R.holds f j t.db))
    × IsCoherent R L t'
IsCommitted R L batch t (err e, t') = t'.db ≡ t.db

-- With a database and an LRU map that keep their laws, and from caches that agree with the
-- database, `commit_difflayer` either succeeds, the database then holding at every key what the
-- batch of the state, the nodes and the storage roots makes of it and both caches agreeing with
-- it, or fails with the database unchanged.
pub commit_difflayer-IsCommitted :
    (R : RocksDb) (L : Lru) (rocks : IsRocksDb R) (lru : IsLru L) (t : Db R L) (block_number : ℕ)
    (state_root : List ℕ) (difflayer : Option DiffLayer)
    → IsCoherent R L t
    → IsCommitted R L
        (commit_batch L block_number state_root difflayer t.trie_node_cache t.storage_root_cache).2
        t
        (commit_difflayer R L block_number state_root difflayer t)
unfolding commit_difflayer
commit_difflayer-IsCommitted R L rocks lru t n root layer (h, h') =
    go (R.has_family default t.db) (R.has_family meta_data t.db) (R.has_family storage_root t.db)
      (R.write batch t.db) (rocks.write_holds batch t.db)
  where
    batch : List BatchOp
    batch = (commit_batch L n root layer t.trie_node_cache t.storage_root_cache).2

    caches :
        IsCacheOf L
          (λ j. after batch default j (R.holds default j t.db))
          (commit_batch L n root layer t.trie_node_cache t.storage_root_cache).0
        × IsCacheOf L
            (λ j. after batch storage_root j (R.holds storage_root j t.db))
            (commit_batch L n root layer t.trie_node_cache t.storage_root_cache).1
    caches =
        commit_batch-IsCacheOf L lru (λ f j. R.holds f j t.db) n root layer t.trie_node_cache
          t.storage_root_cache h h'

    filled : Db R L
    filled = record t {
      trie_node_cache = (commit_batch L n root layer t.trie_node_cache t.storage_root_cache).0;
      storage_root_cache = (commit_batch L n root layer t.trie_node_cache t.storage_root_cache).1;
    }

    go :
        (a b c : Bool) (r : Result (Unit {0}) R.State)
        → IsWritten R batch t.db r
        → IsCommitted R L batch t (
            if a
            then (if b
                then (if c then commit_done R L r filled else (err database, t))
                else (err database, t))
            else (err database, t))
    go false b c r w = refl
    go true false c r w = refl
    go true true false r w = refl
    go true true true (err e) w = refl
    go true true true (ok s) w = (
      w,
      (
        λ j. subst (Agrees (L.peek j filled.trie_node_cache)) (sym (w default j)) (caches.0 j),
        λ j.
            subst (Agrees (L.peek j filled.storage_root_cache)) (sym (w storage_root j))
              (caches.1 j),
      ),
    )
