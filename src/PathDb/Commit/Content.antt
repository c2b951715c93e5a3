-- ===== src/PathDb/Commit/Content.antt =====
-- What the database holds after `commit_difflayer` of db/pathdb/src/pathdb.rs, key by key.
use rust_eth_triedb.Common.{
  ℕ, List, [], ◌∷◌, ◌++◌, Bool, true, false, ◌⊎◌, inl, inr, ◌≡◌, refl, ap, sym, ◌∙◌, if◌then◌else◌,
  bytes_eq, bytes_eq→eq, is_empty, Option, none, some, Result, ok, err, Bool-cases,
}
use rust_eth_triedb.Maps
use rust_eth_triedb.DiffLayer.{DiffLayer, TrieNode, is_deleted}
use rust_eth_triedb.NodeSet.Laws.{IsMap}
use rust_eth_triedb.PathDb.{
  Db, Outcome, database, trie_state_root_key, trie_state_block_number_key, to_le_bytes,
}
use rust_eth_triedb.PathDb.Store.{
  Family, default, meta_data, storage_root, RocksDb, IsRocksDb, Lru, IsLru, BatchOp, put, delete,
  after,
}
use rust_eth_triedb.PathDb.Coherence.{IsCoherent}
use rust_eth_triedb.PathDb.Commit.{
  Pending, commit_blob, commit_node, commit_nodes, commit_roots, commit_state, commit_batch,
  commit_difflayer, commit_done,
}
use rust_eth_triedb.PathDb.Commit.Laws.{after-append, IsCommitted, commit_difflayer-IsCommitted}

-- A node without bytes is no node.
abbrev pub live_blob : Option (List ℕ) → Option (List ℕ)
live_blob none = none
live_blob (some []) = none
live_blob (some (x ∷ blob)) = some (x ∷ blob)

abbrev pub node_content : Option TrieNode → Option (List ℕ) → Option (List ℕ)
node_content none old = old
node_content (some node) old = live_blob (node.blob)

abbrev pub root_content : Option (List ℕ) → Option (List ℕ) → Option (List ℕ)
root_content none old = old
root_content (some root) old = some root

abbrev pub state_content : ℕ → List ℕ → List ℕ → Option (List ℕ) → Option (List ℕ)
state_content block_number state_root j old =
    if bytes_eq trie_state_block_number_key j
    then some (to_le_bytes 8 block_number)
    else (if bytes_eq trie_state_root_key j then some state_root else old)

-- What a family has at a key after a commit, by what it had before: the state stands in two
-- families, the nodes of the layer go over it in one of them, and the roots have a third.
abbrev pub content :
    ℕ
    → List ℕ
    → List (List ℕ × TrieNode)
    → List (List ℕ × List ℕ)
    → Family
    → List ℕ
    → Option (List ℕ)
    → Option (List ℕ)
content n root nodes roots default j old =
    node_content (Maps.get j nodes) (state_content n root j old)
content n root nodes roots meta_data j old = state_content n root j old
content n root nodes roots storage_root j old = root_content (Maps.get j roots) old

abbrev pub nodes_in : Option DiffLayer → List (List ℕ × TrieNode)
nodes_in none = []
nodes_in (some layer) = layer.diff_nodes

abbrev pub roots_in : Option DiffLayer → List (List ℕ × List ℕ)
roots_in none = []
roots_in (some layer) = layer.diff_storage_roots

abbrev of_nodes : List (List ℕ × TrieNode) → Family → List ℕ → Option (List ℕ) → Option (List ℕ)
of_nodes nodes default j old = node_content (Maps.get j nodes) old
of_nodes nodes meta_data j old = old
of_nodes nodes storage_root j old = old

abbrev of_roots : List (List ℕ × List ℕ) → Family → List ℕ → Option (List ℕ) → Option (List ℕ)
of_roots roots default j old = old
of_roots roots meta_data j old = old
of_roots roots storage_root j old = root_content (Maps.get j roots) old

gated :
    (c : Bool) (node : TrieNode) (old : Option (List ℕ))
    → (if c then live_blob (node.blob) else old) ≡ node_content (if c then some node else none) old
gated true node old = refl
gated false node old = refl

module _ (L : Lru) where
  after-node :
      (key : List ℕ) (node : TrieNode) (p : Pending L) (f : Family) (j : List ℕ)
      (old : Option (List ℕ))
      → after (commit_node L key node p).1 f j old
        ≡ of_nodes ((key, node) ∷ []) f j (after p.1 f j old)
  unfolding commit_node is_deleted Maps.get
  after-node key node (cache, batch) f j old = go (node.blob) f
    where
      here : (b : Option (List ℕ)) → Family → Option (List ℕ)
      here b f =
          after
            (if (elim b [ none ↦ true | some blob ↦ is_empty blob ])
              then (L.remove key cache, batch ++ (delete default key ∷ []))
              else commit_blob L key b (cache, batch)).1
            f j old

      go :
          (b : Option (List ℕ)) (f : Family)
          → here b f
            ≡ of_nodes ((key, record { hash = node.hash; blob = b }) ∷ []) f j (after batch f j old)
      go none default =
          after-append batch (delete default key ∷ []) default j old
          ∙ gated (bytes_eq key j) (record { hash = node.hash; blob = none })
              (after batch default j old)
      go none meta_data = after-append batch (delete default key ∷ []) meta_data j old
      go none storage_root = after-append batch (delete default key ∷ []) storage_root j old
      go (some []) default =
          after-append batch (delete default key ∷ []) default j old
          ∙ gated (bytes_eq key j) (record { hash = node.hash; blob = (some []) })
              (after batch default j old)
      go (some []) meta_data = after-append batch (delete default key ∷ []) meta_data j old
      go (some []) storage_root = after-append batch (delete default key ∷ []) storage_root j old
      go (some (x ∷ b)) default =
          after-append batch (put default key (x ∷ b) ∷ []) default j old
          ∙ gated (bytes_eq key j) (record { hash = node.hash; blob = (some (x ∷ b)) })
              (after batch default j old)
      go (some (x ∷ b)) meta_data =
          after-append batch (put default key (x ∷ b) ∷ []) meta_data j old
      go (some (x ∷ b)) storage_root =
          after-append batch (put default key (x ∷ b) ∷ []) storage_root j old

  after-nodes :
      (nodes : List (List ℕ × TrieNode)) (p : Pending L) (f : Family) (j : List ℕ)
      (old : Option (List ℕ))
      → IsMap nodes
      → after (commit_nodes L nodes p).1 f j old ≡ of_nodes nodes f j (after p.1 f j old)
  unfolding commit_nodes Maps.get
  after-nodes [] p default j old u = refl
  after-nodes [] p meta_data j old u = refl
  after-nodes [] p storage_root j old u = refl
  after-nodes ((key, node) ∷ nodes) p f j old (new, u) =
      after-nodes nodes (commit_node L key node p) f j old u
      ∙ ap (of_nodes nodes f j) (after-node key node p f j old)
      ∙ over f
    where
      over :
          (f : Family)
          → of_nodes nodes f j (of_nodes ((key, node) ∷ []) f j (after p.1 f j old))
            ≡ of_nodes ((key, node) ∷ nodes) f j (after p.1 f j old)
      over default = elim (Bool-cases (bytes_eq key j)) [
        | inl e ↦ rw e (
            ap (λ o. node_content o (live_blob (node.blob)))
              (ap (λ k. Maps.get k nodes) (sym (bytes_eq→eq key j e)) ∙ new))
        | inr e ↦ rw e refl
      ]
      over meta_data = refl
      over storage_root = refl

  after-roots :
      (roots : List (List ℕ × List ℕ)) (p : Pending L) (f : Family) (j : List ℕ)
      (old : Option (List ℕ))
      → IsMap roots
      → after (commit_roots L roots p).1 f j old ≡ of_roots roots f j (after p.1 f j old)
  unfolding commit_roots Maps.get
  after-roots [] p default j old u = refl
  after-roots [] p meta_data j old u = refl
  after-roots [] p storage_root j old u = refl
  after-roots ((key, value) ∷ roots) (cache, batch) f j old (new, u) =
      after-roots roots
        (L.insert key (some value) cache, batch ++ (put storage_root key value ∷ [])) f j old u
      ∙ ap (of_roots roots f j) (after-append batch (put storage_root key value ∷ []) f j old)
      ∙ over f
    where
      over :
          (f : Family)
          → of_roots roots f j (after (put storage_root key value ∷ []) f j (after batch f j old))
            ≡ of_roots ((key, value) ∷ roots) f j (after batch f j old)
      over default = refl
      over meta_data = refl
      over storage_root = elim (Bool-cases (bytes_eq key j)) [
        | inl e ↦ rw e (
            ap (λ o. root_content o (some value))
              (ap (λ k. Maps.get k roots) (sym (bytes_eq→eq key j e)) ∙ new))
        | inr e ↦ rw e refl
      ]

  abbrev of_state : ℕ → List ℕ → Family → List ℕ → Option (List ℕ) → Option (List ℕ)
  of_state n root default j old = state_content n root j old
  of_state n root meta_data j old = state_content n root j old
  of_state n root storage_root j old = old

  after-state :
      (n : ℕ) (root : List ℕ) (cache : L.Cache) (f : Family) (j : List ℕ) (old : Option (List ℕ))
      → after (commit_state L n root cache).1 f j old ≡ of_state n root f j old
  unfolding commit_state
  after-state n root cache default j old = refl
  after-state n root cache meta_data j old = refl
  after-state n root cache storage_root j old = refl

  after-batch :
      (n : ℕ) (root : List ℕ) (difflayer : Option DiffLayer) (nodes roots : L.Cache) (f : Family)
      (j : List ℕ) (old : Option (List ℕ))
      → IsMap (nodes_in difflayer)
      → IsMap (roots_in difflayer)
      → after (commit_batch L n root difflayer nodes roots).2 f j old
        ≡ content n root (nodes_in difflayer) (roots_in difflayer) f j old
  unfolding commit_batch Maps.get
  after-batch n root none nodes roots default j old u u' = refl
  after-batch n root none nodes roots meta_data j old u u' = refl
  after-batch n root none nodes roots storage_root j old u u' = refl
  after-batch n root (some layer) nodes roots f j old u u' =
      let state = commit_state L n root nodes in
      after-roots layer.diff_storage_roots (roots, (commit_nodes L layer.diff_nodes state).1) f j
        old u'
      ∙ ap (of_roots layer.diff_storage_roots f j) (
          after-nodes layer.diff_nodes state f j old u
          ∙ ap (of_nodes layer.diff_nodes f j) (after-state n root nodes f j old))
      ∙ together f
    where
      together :
          (f : Family)
          → of_roots layer.diff_storage_roots f j
              (of_nodes layer.diff_nodes f j (of_state n root f j old))
            ≡ content n root layer.diff_nodes layer.diff_storage_roots f j old
      together default = refl
      together meta_data = refl
      together storage_root = refl

-- A commit that succeeds has stored the state, the nodes and the roots and nothing else, and the
-- caches agree with the database; one that fails lacks a family, or the database refused a
-- batch, and has left the database.
abbrev pub IsStored :
    (R : RocksDb) (L : Lru)
    → (Family → List ℕ → Option (List ℕ) → Option (List ℕ))
    → Db R L
    → Outcome R.State L.Cache (Unit {0})
    → Type 0
IsStored R L new t (ok u, t') =
    ((f : Family) (j : List ℕ) → R.holds f j t'.db ≡ new f j (R.holds f j t.db)) × IsCoherent R L t'
IsStored R L new t (err e, t') =
    (t'.db ≡ t.db)
    × (((f : Family) × (R.has_family f t.db ≡ false))
        ⊎ ((batch : List BatchOp) × (x : Unit {0}) × (R.write batch t.db ≡ err x)))

abbrev IsRefused : (R : RocksDb) (L : Lru) → Db R L → Outcome R.State L.Cache (Unit {0}) → Type 0
IsRefused R L t (ok u, t') = Unit {0}
IsRefused R L t (err e, t') =
    ((f : Family) × (R.has_family f t.db ≡ false))
    ⊎ ((batch : List BatchOp) × (x : Unit {0}) × (R.write batch t.db ≡ err x))

commit_difflayer-IsRefused :
    (R : RocksDb) (L : Lru) (t : Db R L) (n : ℕ) (root : List ℕ) (difflayer : Option DiffLayer)
    → IsRefused R L t (commit_difflayer R L n root difflayer t)
unfolding commit_difflayer
commit_difflayer-IsRefused R L t n root layer =
    go (R.has_family default t.db) (R.has_family meta_data t.db) (R.has_family storage_root t.db)
      (R.write batch t.db) refl refl refl refl
  where
    batch : List BatchOp
    batch = (commit_batch L n root layer t.trie_node_cache t.storage_root_cache).2

    filled : Db R L
    filled = record t {
      trie_node_cache = (commit_batch L n root layer t.trie_node_cache t.storage_root_cache).0;
      storage_root_cache = (commit_batch L n root layer t.trie_node_cache t.storage_root_cache).1;
    }

    go :
        (a b c : Bool) (r : Result (Unit {0}) R.State)
        → R.has_family default t.db ≡ a
        → R.has_family meta_data t.db ≡ b
        → R.has_family storage_root t.db ≡ c
        → R.write batch t.db ≡ r
        → IsRefused R L t (
            if a
            then (if b
                then (if c then commit_done R L r filled else (err database, t))
                else (err database, t))
            else (err database, t))
    go false b c r ea eb ec er = inl (default, ea)
    go true false c r ea eb ec er = inl (meta_data, eb)
    go true true false r ea eb ec er = inl (storage_root, ec)
    go true true true (ok db) ea eb ec er = tt
    go true true true (err x) ea eb ec er = inr (batch, x, er)

-- With a database and an LRU map that keep their laws, from caches that agree with the database,
-- and when no key stands twice among the nodes or among the storage roots of the layer: after a
-- `commit_difflayer` that succeeds the default family has at the key of each node of the layer
-- the bytes of that node, or nothing where it is deleted, and at the two keys of the state,
-- unless a node has them, the state root and the block number; the family of the meta data has
-- the state, that of the storage roots each root of the layer; every other key has what it had,
-- and both caches agree with the database. One that fails has left the database as it was, and
-- lacks a family or had a batch refused by the database.
pub commit_difflayer-IsStored :
    (R : RocksDb) (L : Lru) (rocks : IsRocksDb R) (lru : IsLru L) (t : Db R L) (block_number : ℕ)
    (state_root : List ℕ) (difflayer : Option DiffLayer)
    → IsCoherent R L t
    → IsMap (nodes_in difflayer)
    → IsMap (roots_in difflayer)
    → IsStored R L
        (content block_number state_root (nodes_in difflayer) (roots_in difflayer))
        t
        (commit_difflayer R L block_number state_root difflayer t)
commit_difflayer-IsStored R L rocks lru t n root layer coherent u u' =
    go (commit_difflayer R L n root layer t)
      (commit_difflayer-IsCommitted R L rocks lru t n root layer coherent)
      (commit_difflayer-IsRefused R L t n root layer)
  where
    batch : List BatchOp
    batch = (commit_batch L n root layer t.trie_node_cache t.storage_root_cache).2

    go :
        (o : Outcome R.State L.Cache (Unit {0}))
        → IsCommitted R L batch t o
        → IsRefused R L t o
        → IsStored R L (content n root (nodes_in layer) (roots_in layer)) t o
    go (ok v, t') (written, coherent') refused = (
      λ f j.
          written f j
          ∙ after-batch L n root layer t.trie_node_cache t.storage_root_cache f j (R.holds f j t.db)
              u u',
      coherent',
    )
    go (err e, t') kept refused = (kept, refused)
