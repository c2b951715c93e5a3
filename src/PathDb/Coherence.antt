-- ===== src/PathDb/Coherence.antt =====
-- The caches of PathDB agree with the database: the raw operations of db/pathdb/src/pathdb.rs.
use rust_eth_triedb.Common.{
  ℕ, List, [], ◌∷◌, Bool, true, false, ◌≡◌, refl, sym, if◌then◌else◌, bytes_eq, bytes_eq→eq, Option,
  none, some, Result, ok, err, Bool-cases, inl, inr,
}
use mathlib.Core.Path.{subst}
use rust_eth_triedb.PathDb.{
  Db, Outcome, database, get_raw_trie_node, get_raw_storage_root, put_raw_trie_node,
  delete_raw_trie_node, exists_raw_trie_node, read_trie_node, read_storage_root, put_done,
  delete_done, cached_trie_node, uncached_trie_node,
}
use rust_eth_triedb.PathDb.Store.{
  Family, default, storage_root, RocksDb, IsRocksDb, Lru, IsLru, IsEntry, dropped, kept, Agrees,
  read_of, IsWritten, put, delete,
}

IsEntry-Agrees :
    {old new : Option (Option (List ℕ))} (v : Option (List ℕ))
    → IsEntry old new
    → Agrees old v
    → Agrees new v
IsEntry-Agrees v dropped h = tt
IsEntry-Agrees v kept h = h

-- Every entry of a cache is what is held at its key.
abbrev pub IsCacheOf : (L : Lru) → (List ℕ → Option (List ℕ)) → L.Cache → Type 0
IsCacheOf L held c = (j : List ℕ) → Agrees (L.peek j c) (held j)

module _ (L : Lru) (lru : IsLru L) (held held' : List ℕ → Option (List ℕ)) (k : List ℕ)
    (c : L.Cache) where
  pub insert-IsCacheOf :
      (v : Option (List ℕ))
      → IsCacheOf L held c
      → ((j : List ℕ) → held' j ≡ (if bytes_eq k j then v else held j))
      → IsCacheOf L held' (L.insert k v c)
  insert-IsCacheOf v h e j =
      IsEntry-Agrees (held' j) (lru.peek_insert k j v c) (go (bytes_eq k j) (e j))
    where
      go :
          (b : Bool)
          → held' j ≡ (if b then v else held j)
          → Agrees (if b then some v else L.peek j c) (held' j)
      go true p = sym p
      go false p = subst (Agrees (L.peek j c)) (sym p) (h j)

  pub remove-IsCacheOf :
      (v : Option (List ℕ))
      → IsCacheOf L held c
      → ((j : List ℕ) → held' j ≡ (if bytes_eq k j then v else held j))
      → IsCacheOf L held' (L.remove k c)
  remove-IsCacheOf v h e j = rw (lru.peek_remove k j c) (go (bytes_eq k j) (e j))
    where
      go :
          (b : Bool)
          → held' j ≡ (if b then v else held j)
          → Agrees (if b then none else L.peek j c) (held' j)
      go true p = tt
      go false p = subst (Agrees (L.peek j c)) (sym p) (h j)

-- Caching what is held changes nothing.
same_held :
    (held : List ℕ → Option (List ℕ)) (k : List ℕ) (v : Option (List ℕ))
    → v ≡ held k
    → (j : List ℕ) → held j ≡ (if bytes_eq k j then v else held j)
same_held held k v e j = elim (Bool-cases (bytes_eq k j)) [
  | inl h ↦ rw (h, e, bytes_eq→eq k j h) refl
  | inr h ↦ rw h refl
]

undone :
    (held : List ℕ → Option (List ℕ)) (k : List ℕ) (v : Option (List ℕ)) (j : List ℕ)
    → held j ≡ (if bytes_eq k j then held k else (if bytes_eq k j then v else held j))
undone held k v j = elim (Bool-cases (bytes_eq k j)) [
  | inl h ↦ rw (h, bytes_eq→eq k j h) refl
  | inr h ↦ rw h refl
]

-- Both caches agree with what the database holds.
abbrev pub IsCoherent : (R : RocksDb) (L : Lru) → Db R L → Type 0
IsCoherent R L t =
    IsCacheOf L (λ j. R.holds default j t.db) t.trie_node_cache
    × IsCacheOf L (λ j. R.holds storage_root j t.db) t.storage_root_cache

-- A read that succeeds returns what the database holds.
abbrev pub IsRead :
    (R : RocksDb) (L : Lru)
    → Family
    → List ℕ
    → Db R L
    → Outcome R.State L.Cache (Option (List ℕ))
    → Type 0
IsRead R L f key t (ok v, t') = (v ≡ R.holds f key t.db) × (t'.db ≡ t.db) × IsCoherent R L t'
IsRead R L f key t (err e, t') = (t'.db ≡ t.db) × IsCoherent R L t'

module _ (R : RocksDb) (L : Lru) (rocks : IsRocksDb R) (lru : IsLru L) (t : Db R L)
    (coherent : IsCoherent R L t) where
  read_trie_node-IsRead :
      (key : List ℕ) (r : Result (Unit {0}) (Option (List ℕ)))
      → Agrees (read_of r) (R.holds default key t.db)
      → IsRead R L default key t (read_trie_node R L key r t)
  read_trie_node-IsRead key (ok (some v)) h = (
    h,
    refl,
    (
      insert-IsCacheOf L lru (λ j. R.holds default j t.db) (λ j. R.holds default j t.db) key
          t.trie_node_cache (some v) coherent.0
          (same_held (λ j. R.holds default j t.db) key (some v) h),
      coherent.1,
    ),
  )
  read_trie_node-IsRead key (ok none) h = (h, refl, coherent)
  read_trie_node-IsRead key (err e) h = (refl, coherent)

  read_storage_root-IsRead :
      (key : List ℕ) (r : Result (Unit {0}) (Option (List ℕ)))
      → Agrees (read_of r) (R.holds storage_root key t.db)
      → IsRead R L storage_root key t (read_storage_root R L key r t)
  read_storage_root-IsRead key (ok (some v)) h = (
    h,
    refl,
    (
      coherent.0,
      insert-IsCacheOf L lru (λ j. R.holds storage_root j t.db) (λ j. R.holds storage_root j t.db)
          key t.storage_root_cache (some v) coherent.1
          (same_held (λ j. R.holds storage_root j t.db) key (some v) h),
    ),
  )
  read_storage_root-IsRead key (ok none) h = (h, refl, coherent)
  read_storage_root-IsRead key (err e) h = (refl, coherent)

  -- With a database and an LRU map that keep their laws, and from caches that agree with the
  -- database, a trie node or a storage root that is read, from a cache or from the database,
  -- is the one that the database holds; the database is not changed, and the caches agree with
  -- it afterwards, also when the read fails.
  pub reads-IsRead :
      (key : List ℕ)
      → IsRead R L default key t (get_raw_trie_node R L key t)
        × IsRead R L storage_root key t (get_raw_storage_root R L key t)
  unfolding get_raw_trie_node get_raw_storage_root
  reads-IsRead key = (
    node (L.peek key t.trie_node_cache) (coherent.0 key) (R.has_family default t.db),
    root (L.peek key t.storage_root_cache) (coherent.1 key) (R.has_family storage_root t.db),
  )
    where
      node :
          (c : Option (Option (List ℕ)))
          → Agrees c (R.holds default key t.db)
          → (b : Bool)
          → IsRead R L default key t (elim c [
            | some cached_value ↦ (ok cached_value, t)
            | none ↦
                if b then read_trie_node R L key (R.get default key t.db) t else (err database, t)
          ])
      node (some v) h b = (h, refl, coherent)
      node none h true =
          read_trie_node-IsRead key (R.get default key t.db) (rocks.get_holds default key t.db)
      node none h false = (refl, coherent)

      root :
          (c : Option (Option (List ℕ)))
          → Agrees c (R.holds storage_root key t.db)
          → (b : Bool)
          → IsRead R L storage_root key t (elim c [
            | some cached_value ↦ (ok cached_value, t)
            | none ↦
                if b
                then read_storage_root R L key (R.get storage_root key t.db) t
                else (err database, t)
          ])
      root (some v) h b = (h, refl, coherent)
      root none h true =
          read_storage_root-IsRead key (R.get storage_root key t.db)
            (rocks.get_holds storage_root key t.db)
      root none h false = (refl, coherent)

  -- The coherence of the caches after a write that succeeds or is refused by the database.
  put_done-IsCoherent :
      (key v : List ℕ) (r : Result (Unit {0}) R.State)
      → IsWritten R (put default key v ∷ []) t.db r
      → IsCoherent R L (put_done R L key r (cached_trie_node R L key (some v) t)).1
  put_done-IsCoherent key v (ok s) h = (
    insert-IsCacheOf L lru (λ j. R.holds default j t.db) (λ j. R.holds default j s) key
        t.trie_node_cache (some v) coherent.0 (h default),
    λ j. subst (Agrees (L.peek j t.storage_root_cache)) (sym (h storage_root j)) (coherent.1 j),
  )
  put_done-IsCoherent key v (err e) h = (
    remove-IsCacheOf L lru (overwritten key v) (λ j. R.holds default j t.db) key
        (L.insert key (some v) t.trie_node_cache) (R.holds default key t.db)
        (insert-IsCacheOf L lru (λ j. R.holds default j t.db) (overwritten key v) key
          t.trie_node_cache (some v) coherent.0 (λ j. refl))
        (λ j. undone (λ i. R.holds default i t.db) key (some v) j),
    coherent.1,
  )
    where
      overwritten : List ℕ → List ℕ → List ℕ → Option (List ℕ)
      overwritten key v j = if bytes_eq key j then some v else R.holds default j t.db

  delete_done-IsCoherent :
      (key : List ℕ) (r : Result (Unit {0}) R.State)
      → IsWritten R (delete default key ∷ []) t.db r
      → IsCoherent R L (delete_done R L r (uncached_trie_node R L key t)).1
  delete_done-IsCoherent key (ok s) h = (
    remove-IsCacheOf L lru (λ j. R.holds default j t.db) (λ j. R.holds default j s) key
        t.trie_node_cache none coherent.0 (h default),
    λ j. subst (Agrees (L.peek j t.storage_root_cache)) (sym (h storage_root j)) (coherent.1 j),
  )
  delete_done-IsCoherent key (err e) h = (
    remove-IsCacheOf L lru (λ j. R.holds default j t.db) (λ j. R.holds default j t.db) key
        t.trie_node_cache (R.holds default key t.db) coherent.0
        (same_held (λ j. R.holds default j t.db) key (R.holds default key t.db) refl),
    coherent.1,
  )

  -- With a database and an LRU map that keep their laws, the column family there, and caches
  -- that agree with the database, the caches agree with it after `put_raw_trie_node` and after
  -- `delete_raw_trie_node`, whether the database takes the write or refuses it.
  pub writes-IsCoherent :
      (key v : List ℕ)
      → R.has_family default t.db ≡ true
      → IsCoherent R L (put_raw_trie_node R L key v t).1
        × IsCoherent R L (delete_raw_trie_node R L key t).1
  unfolding put_raw_trie_node delete_raw_trie_node
  writes-IsCoherent key v h = rw (h) (
    put_done-IsCoherent key v (R.put default key v t.db) (rocks.put_holds default key v t.db),
    delete_done-IsCoherent key (R.delete default key t.db) (rocks.delete_holds default key t.db),
  )

-- For a node that is not cached and that the database reads as some value,
-- `exists_raw_trie_node` answers true, and if the cache keeps the entry that it makes,
-- `get_raw_trie_node` then returns an empty node.
pub exists-get :
    (R : RocksDb) (L : Lru) (t : Db R L) (key v : List ℕ)
    → L.peek key t.trie_node_cache ≡ none
    → R.has_family default t.db ≡ true
    → R.get default key t.db ≡ ok (some v)
    → L.peek key (L.insert key (some []) t.trie_node_cache) ≡ some (some [])
    → ((exists_raw_trie_node R L key t).0 ≡ ok true)
      × ((get_raw_trie_node R L key (exists_raw_trie_node R L key t).1).0 ≡ ok (some []))
unfolding exists_raw_trie_node get_raw_trie_node
exists-get R L t key v miss fam hit kept_ =
    rw (exists_raw_trie_node, get_raw_trie_node, miss, fam, hit, kept_) (refl, refl)
