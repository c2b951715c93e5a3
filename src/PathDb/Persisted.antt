-- ===== src/PathDb/Persisted.antt =====
-- `latest_persist_state` of db/pathdb/src/pathdb.rs, which reads what `commit_difflayer` wrote.
use rust_eth_triedb.Common.{
  ℕ, zero, suc, ◌+◌, ◌*◌, ◌/◌, ◌^◌, ◌<◌, List, [], ◌∷◌, false, ◌&&◌, ◌==◌, ◌≡◌, refl, ap, sym, ◌∙◌,
  arith, if◌then◌else◌, bytes_eq, length, Option, none, some, ok, err, Bool-cases, inl, inr,
}
use mathlib.Core.Path.{subst}
use rust_eth_triedb.DiffLayer.{DiffLayer, TrieNode, is_deleted}
use rust_eth_triedb.PathDb.{
  Db, Outcome, trie_state_root_key, trie_state_block_number_key, to_le_bytes, get_raw_meta_data,
  get_raw_trie_node,
}
use rust_eth_triedb.PathDb.Store.{
  default, RocksDb, IsRocksDb, Lru, IsLru, BatchOp, put, delete, after,
}
use rust_eth_triedb.PathDb.Coherence.{IsCoherent, IsRead, reads-IsRead}
use rust_eth_triedb.PathDb.Commit.{
  Pending, commit_blob, commit_node, commit_nodes, commit_state, commit_batch, commit_difflayer,
}
use rust_eth_triedb.PathDb.Commit.Laws.{
  IsCommitted, commit_difflayer-IsCommitted, after-append, after-commit_roots,
}

-- `u64::from_le_bytes`.
unfoldable pub from_le_bytes : List ℕ → ℕ
from_le_bytes [] = 0
from_le_bytes (b ∷ bs) = b + 256 * from_le_bytes bs

module _ (R : RocksDb) (L : Lru) (empty_root_hash : List ℕ) where
  -- Both values are there: `none` is a panic on a value of another length.
  abbrev pub decoded_state :
      Option (List ℕ) → Option (List ℕ) → Db R L → Option (Outcome R.State L.Cache (ℕ × List ℕ))
  decoded_state (some block_number_bytes) (some state_root_bytes) t =
      if length block_number_bytes == 8 && length state_root_bytes == 32
      then some (ok (from_le_bytes block_number_bytes, state_root_bytes), t)
      else none
  decoded_state _ _ t = some (ok (0, empty_root_hash), t)

  abbrev pub with_root :
      Option (List ℕ)
      → Outcome R.State L.Cache (Option (List ℕ))
      → Option (Outcome R.State L.Cache (ℕ × List ℕ))
  with_root number (ok root, t) = decoded_state number root t
  with_root number (err e, t) = some (err e, t)

  abbrev pub with_number :
      Outcome R.State L.Cache (Option (List ℕ)) → Option (Outcome R.State L.Cache (ℕ × List ℕ))
  with_number (ok number, t) = with_root number (get_raw_meta_data R L trie_state_root_key t)
  with_number (err e, t) = some (err e, t)

  unfoldable pub latest_persist_state : Db R L → Option (Outcome R.State L.Cache (ℕ × List ℕ))
  unfolding get_raw_meta_data from_le_bytes
  latest_persist_state t = with_number (get_raw_meta_data R L trie_state_block_number_key t)

-- `w` bytes are enough.
abbrev Fits : ℕ → ℕ → Type 0
Fits zero n = n ≡ 0
Fits (suc w) n = Fits w (n / 256)

from_le_bytes-to_le_bytes : (w n : ℕ) → Fits w n → from_le_bytes (to_le_bytes w n) ≡ n
unfolding from_le_bytes to_le_bytes
from_le_bytes-to_le_bytes zero n h = sym h
from_le_bytes-to_le_bytes (suc w) n h = omega (arith, from_le_bytes-to_le_bytes w (n / 256) h)

u64-Fits : (n : ℕ) → n < 2 ^ 64 → Fits 8 n
u64-Fits n h = omega arith

-- No node has the key.
abbrev pub IsFree : List ℕ → List (List ℕ × TrieNode) → Type 0
IsFree j [] = Unit {0}
IsFree j ((key, node) ∷ nodes) = (bytes_eq key j ≡ false) × IsFree j nodes

after-commit_nodes_free :
    (L : Lru) (nodes : List (List ℕ × TrieNode)) (p : Pending L) (j : List ℕ)
    (old : Option (List ℕ))
    → IsFree j nodes
    → after (commit_nodes L nodes p).1 default j old ≡ after p.1 default j old
unfolding commit_nodes commit_node
after-commit_nodes_free L [] p j old free = refl
after-commit_nodes_free L ((key, node) ∷ nodes) (cache, batch) j old (other, free) =
    after-commit_nodes_free L nodes (commit_node L key node (cache, batch)) j old free ∙ here
  where
    blobs :
        (b : Option (List ℕ))
        → after (commit_blob L key b (cache, batch)).1 default j old ≡ after batch default j old
    blobs none = refl
    blobs (some blob) = after-append batch (put default key blob ∷ []) default j old ∙ rw other refl

    here : after (commit_node L key node (cache, batch)).1 default j old ≡ after batch default j old
    here = elim (Bool-cases (is_deleted node)) [
      | inl d ↦ rw d (after-append batch (delete default key ∷ []) default j old ∙ rw other refl)
      | inr d ↦ rw d (blobs (node.blob))
    ]

-- The state that is read, if the database does not fail.
abbrev pub IsState :
    (R : RocksDb) (L : Lru) → ℕ → List ℕ → Option (Outcome R.State L.Cache (ℕ × List ℕ)) → Type 0
IsState R L n root none = ⊥
IsState R L n root (some (ok p, t)) = p ≡ (n, root)
IsState R L n root (some (err e, t)) = Unit {0}

abbrev pub IsPersisted :
    (R : RocksDb) (L : Lru) → List ℕ → ℕ → List ℕ → Outcome R.State L.Cache (Unit {0}) → Type 0
IsPersisted R L empty_root_hash n root (ok u, t) =
    IsState R L n root (latest_persist_state R L empty_root_hash t)
IsPersisted R L empty_root_hash n root (err e, t) = Unit {0}

abbrev pub IsFreeIn : List ℕ → Option DiffLayer → Type 0
IsFreeIn j none = Unit {0}
IsFreeIn j (some layer) = IsFree j (layer.diff_nodes)

length-to_le_bytes : (w n : ℕ) → length (to_le_bytes w n) ≡ w
unfolding to_le_bytes
length-to_le_bytes zero n = refl
length-to_le_bytes (suc w) n = ap suc (length-to_le_bytes w (n / 256))

-- The keys of the state, in the batch.
after-commit_batch :
    (L : Lru) (lru : IsLru L) (n : ℕ) (root : List ℕ) (difflayer : Option DiffLayer)
    (nodes roots : L.Cache) (j : List ℕ) (old : Option (List ℕ))
    → IsFreeIn j difflayer
    → after (commit_batch L n root difflayer nodes roots).2 default j old
      ≡ after (commit_state L n root nodes).1 default j old
unfolding commit_batch
after-commit_batch L lru n root none nodes roots j old free = refl
after-commit_batch L lru n root (some layer) nodes roots j old free =
    let state = commit_state L n root nodes in
    after-commit_roots L lru (λ f k. none) layer.diff_storage_roots
      (roots, (commit_nodes L layer.diff_nodes state).1) j old
    ∙ after-commit_nodes_free L layer.diff_nodes state j old free

module _ (R : RocksDb) (L : Lru) (rocks : IsRocksDb R) (lru : IsLru L)
    (empty_root_hash : List ℕ) where
  meta_data-IsRead :
      (t : Db R L)
      → IsCoherent R L t
      → (key : List ℕ) → IsRead R L default key t (get_raw_meta_data R L key t)
  unfolding get_raw_meta_data get_raw_trie_node
  meta_data-IsRead t coherent key = (reads-IsRead R L rocks lru t coherent key).0

  with_root-IsState :
      (n : ℕ) (root : List ℕ) (t : Db R L) (v : Option (List ℕ))
      (o : Outcome R.State L.Cache (Option (List ℕ)))
      → n < 2 ^ 64
      → length root ≡ 32
      → v ≡ some (to_le_bytes 8 n)
      → R.holds default trie_state_root_key t.db ≡ some root
      → IsRead R L default trie_state_root_key t o
      → IsState R L n root (with_root R L empty_root_hash v o)
  with_root-IsState n root t v (err e, t') m l e1 e2 rd = tt
  with_root-IsState n root t v (ok w, t') m l e1 e2 (same, _, _) =
      subst (λ x. IsState R L n root (decoded_state R L empty_root_hash x w t')) (sym e1)
        (subst
          (λ x.
            IsState R L n root (decoded_state R L empty_root_hash (some (to_le_bytes 8 n)) x t'))
          (sym (same ∙ e2))
          (rw (length-to_le_bytes 8 n, l)
            (ap (λ x. (x, root)) (from_le_bytes-to_le_bytes 8 n (u64-Fits n m)))))

  latest-IsState :
      (n : ℕ) (root : List ℕ) (t : Db R L)
      → IsCoherent R L t
      → n < 2 ^ 64
      → length root ≡ 32
      → R.holds default trie_state_block_number_key t.db ≡ some (to_le_bytes 8 n)
      → R.holds default trie_state_root_key t.db ≡ some root
      → IsState R L n root (latest_persist_state R L empty_root_hash t)
  unfolding latest_persist_state
  latest-IsState n root t coherent m l e1 e2 =
      go (get_raw_meta_data R L trie_state_block_number_key t)
        (meta_data-IsRead t coherent trie_state_block_number_key)
    where
      go :
          (o : Outcome R.State L.Cache (Option (List ℕ)))
          → IsRead R L default trie_state_block_number_key t o
          → IsState R L n root (with_number R L empty_root_hash o)
      go (err e, t') rd = tt
      go (ok v, t') (same, kept, coherent') =
          with_root-IsState n root t' v (get_raw_meta_data R L trie_state_root_key t') m l
            (same ∙ e1) (ap (R.holds default trie_state_root_key) kept ∙ e2)
            (meta_data-IsRead t' coherent' trie_state_root_key)

  -- With a database and an LRU map that keep their laws, from caches that agree with the
  -- database, for a block number below 2 ^ 64, a state root of 32 bytes and a diff layer
  -- without nodes under the two keys of the state: after a `commit_difflayer` that succeeds
  -- `latest_persist_state` does not panic, and returns that block number and that state root
  -- unless the database fails to read.
  pub commit_difflayer-IsPersisted :
      (t : Db R L) (block_number : ℕ) (state_root : List ℕ) (difflayer : Option DiffLayer)
      → IsCoherent R L t
      → block_number < 2 ^ 64
      → length state_root ≡ 32
      → IsFreeIn trie_state_block_number_key difflayer
      → IsFreeIn trie_state_root_key difflayer
      → IsPersisted R L empty_root_hash block_number state_root
          (commit_difflayer R L block_number state_root difflayer t)
  unfolding commit_state
  commit_difflayer-IsPersisted t n root difflayer coherent m l free free' =
      go (commit_difflayer R L n root difflayer t)
        (commit_difflayer-IsCommitted R L rocks lru t n root difflayer coherent)
    where
      batch : List BatchOp
      batch = (commit_batch L n root difflayer t.trie_node_cache t.storage_root_cache).2

      number_written :
          (old : Option (List ℕ))
          → after batch default trie_state_block_number_key old ≡ some (to_le_bytes 8 n)
      number_written old =
          after-commit_batch L lru n root difflayer t.trie_node_cache t.storage_root_cache
            trie_state_block_number_key old free

      root_written :
          (old : Option (List ℕ)) → after batch default trie_state_root_key old ≡ some root
      root_written old =
          after-commit_batch L lru n root difflayer t.trie_node_cache t.storage_root_cache
            trie_state_root_key old free'

      go :
          (o : Outcome R.State L.Cache (Unit {0}))
          → IsCommitted R L batch t o
          → IsPersisted R L empty_root_hash n root o
      go (err e, t') c = tt
      go (ok u, t') (w, coherent') =
          latest-IsState n root t' coherent' m l
            (w default trie_state_block_number_key ∙ number_written _)
            (w default trie_state_root_key ∙ root_written _)
