-- ===== src/TrieDb/StorageTask.antt =====
-- The task of triedb/src/triedb_reth.rs that opens and writes the storage tries.
use rust_eth_triedb.Common.{
  ℕ, ◌^◌, ◌<◌, List, [], ◌∷◌, true, false, ◌≡◌, refl, ap, sym, ◌∙◌, if◌then◌else◌, Option, none,
  some, Result, ok, err, bytes_eq, bytes_eq→eq, Bool-cases, ◌⊎◌, inl, inr, All,
}
use rust_eth_triedb.Maps
use rust_eth_triedb.DiffLayer.{DiffLayers}
use rust_eth_triedb.NodeSet.Laws.{IsMap}
use rust_eth_triedb.Trie.Monad as Monad
use rust_eth_triedb.StateTrie.{
  StateTrie, StateAccount, update_storage_u256_with_hash_state, delete_storage_with_hash_state,
}
use rust_eth_triedb.StateTrie as StateTrie
use rust_eth_triedb.StateTrie.Laws.{IsHash, IsCodec, IsUsable}
use rust_eth_triedb.StateTrie.Hashed.{Reads, slot_read, update_slot-Reads, delete_slot-Reads}
use rust_eth_triedb.TrieDatabase.{TrieDatabase}
use rust_eth_triedb.TrieDb.{Failure, Externals, build_with_difflayer}
use rust_eth_triedb.TrieDb.Basic.{storage_id}
use rust_eth_triedb.TrieDb.Reth.{
  Accounts, Slots, SlotsOf, write_slot, written, write_slots, storage_of_address, storage_task,
}

-- Keys of slots are hashes, and values are of 256 bits.
abbrev pub IsSlot : List ℕ × Option ℕ → Type 0
IsSlot (k, none) = IsHash k
IsSlot (k, some n) = IsHash k × (n < 2 ^ 256)

-- The new value of a slot, where it has one.
abbrev pub new_or :
    Option (Option ℕ) → Result Monad.Fault (Option ℕ) → Result Monad.Fault (Option ℕ)
new_or none old = old
new_or (some v) old = ok v

module _ (X : Externals) where
  -- The storage trie `s'` is `s` with the slots written.
  abbrev pub IsWritten : Slots → StateTrie → StateTrie → Type 0
  IsWritten kvs s s' =
      IsUsable s'
      × ((j : List ℕ)
          → IsHash j
          → slot_read X.codec j s' ≡ new_or (Maps.get j kvs) (slot_read X.codec j s))

  module _ (laws : IsCodec X.codec) where
    write_slot-Reads :
        (owner k : List ℕ) (v : Option ℕ) (s : StateTrie)
        → IsUsable s
        → IsSlot (k, v)
        → Reads
            (slot_read X.codec)
            (write_slot X owner k v s)
            (ok tt)
            (λ j. if bytes_eq k j then ok v else slot_read X.codec j s)
    unfolding write_slot
    write_slot-Reads owner k none s usable h = delete_slot-Reads X.codec owner k s usable h
    write_slot-Reads owner k (some n) s usable (h, small) =
        update_slot-Reads X.codec laws owner k n s usable h small

    written-ok :
        (o : StateTrie.Called (Unit {0})) (next : StateTrie → Result Failure StateTrie)
        → o.0 ≡ ok tt
        → written X o next ≡ next o.1
    written-ok (ok u, s) next e = refl
    written-ok (err x, s) next e = cc

    write_slots-IsWritten :
        (owner : List ℕ) (kvs : Slots) (s : StateTrie)
        → IsUsable s
        → IsMap kvs
        → All IsSlot kvs
        → (s' : StateTrie) × (write_slots X owner kvs s ≡ ok s') × IsWritten kvs s s'
    unfolding write_slots Maps.get
    write_slots-IsWritten owner [] s usable distinct hs = (s, refl, (usable, λ j h. refl))
    write_slots-IsWritten owner ((k, v) ∷ kvs) s usable (free, distinct) (h, hs) =
        let (done, usable', found) = write_slot-Reads owner k v s usable h in
        let (s', e, (usable'', found')) =
          write_slots-IsWritten owner kvs (write_slot X owner k v s).1 usable' distinct hs in
        rw (written-ok (write_slot X owner k v s) (write_slots X owner kvs) done) (
          s',
          e,
          (
            usable'',
            λ j hj.
                found' j hj
                ∙ ap (new_or (Maps.get j kvs)) (found j hj)
                ∙ one j (Bool-cases (bytes_eq k j)),
          ),
        )
      where
        one :
            (j : List ℕ)
            → (bytes_eq k j ≡ true) ⊎ (bytes_eq k j ≡ false)
            → new_or (Maps.get j kvs) (if bytes_eq k j then ok v else slot_read X.codec j s)
              ≡ new_or (if bytes_eq k j then some v else Maps.get j kvs) (slot_read X.codec j s)
        one j (inl e) = rw (e, sym (bytes_eq→eq k j e), free) refl
        one j (inr e) = rw e refl

module _ (D : TrieDatabase) (X : Externals) (accounts : Accounts) (difflayer : Option DiffLayers)
    (path_db : D.State) where
  -- The storage trie that an account has is opened, and can be used.
  abbrev pub IsOpened : List ℕ → StateTrie → Type 0
  IsOpened k s =
      (a : StateAccount) × (Maps.get k accounts ≡ some a)
      × (build_with_difflayer D X (some (storage_id D X k a.storage_root)) difflayer path_db ≡ ok s)
      × IsUsable s

  abbrev pub IsStored : List ℕ × Slots → Type 0
  IsStored (k, kvs) = ((s : StateTrie) × IsOpened k s) × IsMap kvs × All IsSlot kvs

  -- Each address has its storage trie, with the slots written.
  abbrev pub AreWritten : SlotsOf → List (List ℕ × StateTrie) → Type 0
  AreWritten [] [] = Unit {0}
  AreWritten ((k, kvs) ∷ rest) ((k', s') ∷ tries) =
      (k' ≡ k) × ((s : StateTrie) × IsOpened k s × IsWritten X kvs s s') × AreWritten rest tries
  AreWritten [] (e ∷ tries) = ⊥
  AreWritten (e ∷ rest) [] = ⊥

  module _ (laws : IsCodec X.codec) where
    storage_of_address-IsWritten :
        (k : List ℕ) (kvs : Slots)
        → IsStored (k, kvs)
        → (s : StateTrie) × (s' : StateTrie) × IsOpened k s
          × (storage_of_address D X accounts difflayer path_db k kvs ≡ ok s')
          × IsWritten X kvs s s'
    unfolding storage_of_address
    storage_of_address-IsWritten k kvs ((s, (a, found, opened, usable)), distinct, hs) =
        let (s', e, w) = write_slots-IsWritten X laws k kvs s usable distinct hs in
        (s, s', (a, found, opened, usable), rw (found, opened) e, w)

    -- Storage.
    pub storage_task-AreWritten :
        (storage_states : SlotsOf)
        → All IsStored storage_states
        → (tries : List (List ℕ × StateTrie)) × (storage_task D X accounts difflayer path_db
              storage_states
            ≡ ok tries)
          × AreWritten storage_states tries
    unfolding storage_task
    storage_task-AreWritten [] hs = ([], refl, tt)
    storage_task-AreWritten ((k, kvs) ∷ rest) (h, hs) =
        let (s, s', opened, e, w) = storage_of_address-IsWritten k kvs h in
        let (tries, e', ws) = storage_task-AreWritten rest hs in
        rw (e, e') ((k, s') ∷ tries, refl, (refl, (s, opened, w), ws))
