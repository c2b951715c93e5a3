-- ===== src/TrieDb/Reset.antt =====
-- A batch of triedb/src/triedb_reth.rs starts from the database alone, and leaves nothing behind.
use rust_eth_triedb.Common.{ℕ, List, [], true, ◌≡◌, refl, ap, Option, Result, ok, err}
use mathlib.Core.Path.{subst}
use rust_eth_triedb.Maps
use rust_eth_triedb.DiffLayer.{DiffLayers}
use rust_eth_triedb.NodeSet.{MergedNodeSet}
use rust_eth_triedb.StateTrie.{StateTrie}
use rust_eth_triedb.TrieDatabase.{TrieDatabase}
use rust_eth_triedb.TrieDb.{
  Failure, Externals, Called, Call, Db, new, clean, bind, pure, ◌>>=◌, reset, state_at,
}
use rust_eth_triedb.TrieDb.Basic.{commit}
use rust_eth_triedb.TrieDb.Reth.{
  Changes, Roots, SlotsOf, TrieDbHashedPostState, prepare, run_tasks, commit_batch, apply_batch,
  batch_update_and_commit, commit_hashed_post_state, difflayer_of,
}
use rust_eth_triedb.DiffLayer.{DiffLayer}
use rust_eth_triedb.TrieDb.Keeps.{KeepsDb, commit-KeepsDb, prepare-KeepsDb, run_tasks-KeepsDb}

module _ (D : TrieDatabase) (X : Externals) where
  -- A batch that succeeds leaves the fields as `new` sets them; the database is the same.
  abbrev pub IsOver : {A : Type 0} → D.State → Called D.State A → Type 0
  IsOver path_db (ok a, t) = t ≡ new D X path_db
  IsOver path_db (err e, t) = t.path_db ≡ path_db

  >>=-IsOver :
      {A B : Type 0} (f : Call D X A) (g : A → Call D X B)
      → KeepsDb f
      → ((a : A) (t : Db D X) → IsOver (t.path_db) (g a t))
      → (t : Db D X) → IsOver (t.path_db) ((f >>= g) t)
  >>=-IsOver {A} {B} f g kf kg t = go (f t) (kf t)
    where
      go : (o : Called D.State A) → o.1.path_db ≡ t.path_db → IsOver (t.path_db) (bind o g)
      go (ok a, t') e = subst (λ db. IsOver db (g a t')) e (kg a t')
      go (err x, t') e = e

  commit_batch-IsOver : (t : Db D X) → IsOver (t.path_db) (commit_batch D X t)
  unfolding commit_batch clean
  commit_batch-IsOver =
      >>=-IsOver {B = List ℕ × MergedNodeSet × Roots} (commit D X true) _ (commit-KeepsDb D X true)
        (λ c t. refl {a = new D X t.path_db})

  apply_batch-IsOver :
      (states : Changes) (rebuild : List (List ℕ)) (storage : SlotsOf) (t : Db D X)
      → IsOver (t.path_db) (apply_batch D X states rebuild storage t)
  unfolding apply_batch
  apply_batch-IsOver states rebuild storage =
      >>=-IsOver (prepare D X rebuild storage states ([], [])) _
        (prepare-KeepsDb D X rebuild storage states ([], []))
        (λ sorted t.
          >>=-IsOver (run_tasks D X rebuild storage sorted) _
            (run_tasks-KeepsDb D X rebuild storage sorted)
            (λ done t'. commit_batch-IsOver (record t' {
              storage_tries = Maps.extend [] (done.1);
              updated_storage_roots = Maps.extend t'.updated_storage_roots (done.0);
            }))
            (record t { accounts_with_storage_trie = sorted.1 }))

  reset-IsOver :
      {A : Type 0} (root_hash : List ℕ) (difflayer : Option DiffLayers)
      (r : Result Failure StateTrie) (g : Call D X A) (t : Db D X)
      → ((t' : Db D X) → IsOver (t'.path_db) (g t'))
      → IsOver (t.path_db) (bind (reset D X root_hash difflayer r t) (λ _. g))
        × ((bind (reset D X root_hash difflayer r t) (λ _. g)).0
            ≡ (bind (reset D X root_hash difflayer r (new D X t.path_db)) (λ _. g)).0)
  reset-IsOver root_hash difflayer (ok s) g t h = (h _, refl)
  reset-IsOver root_hash difflayer (err e) g t h = (refl, refl)

  pub batch_update_and_commit-IsOver :
      (root_hash : List ℕ) (difflayer : Option DiffLayers) (states : Changes)
      (rebuild : List (List ℕ)) (storage : SlotsOf) (t : Db D X)
      → let o = batch_update_and_commit D X root_hash difflayer states rebuild storage in
        IsOver (t.path_db) (o t) × ((o t).0 ≡ (o (new D X t.path_db)).0)
  unfolding batch_update_and_commit state_at
  batch_update_and_commit-IsOver root_hash difflayer states rebuild storage t =
      reset-IsOver root_hash difflayer _ (apply_batch D X states rebuild storage) t
        (apply_batch-IsOver states rebuild storage)

  -- From any state `commit_hashed_post_state` replies what it replies from a new `TrieDB` on
  -- the same database, so that nothing that was read or written before plays a part in it; the
  -- database is the same afterwards, and after a success every field is as `new` sets it.
  pub commit_hashed_post_state-IsOver :
      (root_hash : List ℕ) (difflayer : Option DiffLayers) (state : TrieDbHashedPostState)
      (t : Db D X)
      → let o = commit_hashed_post_state D X root_hash difflayer state in
        IsOver (t.path_db) (o t) × ((o t).0 ≡ (o (new D X t.path_db)).0)
  unfolding commit_hashed_post_state
  commit_hashed_post_state-IsOver root_hash difflayer state t =
      let (over, same) =
        batch_update_and_commit-IsOver root_hash difflayer state.states state.states_rebuild
          state.storage_states t in
      go _ _ over same
    where
      mapped :
          Result Failure (List ℕ × MergedNodeSet × Roots)
          → Result Failure (List ℕ × Option DiffLayer)
      mapped (ok r) = ok (difflayer_of D X r)
      mapped (err e) = err e

      go :
          (o o' : Called D.State (List ℕ × MergedNodeSet × Roots))
          → IsOver (t.path_db) o
          → o.0 ≡ o'.0
          → IsOver (t.path_db) (bind o (λ r. pure (difflayer_of D X r)))
            × ((bind o (λ r. pure (difflayer_of D X r))).0
                ≡ (bind o' (λ r. pure (difflayer_of D X r))).0)
      go (ok r, t1) (ok r', t2) over same = (over, ap mapped same)
      go (ok r, t1) (err e', t2) over same = (over, ap mapped same)
      go (err e, t1) (ok r', t2) over same = (over, ap mapped same)
      go (err e, t1) (err e', t2) over same = (over, ap mapped same)
