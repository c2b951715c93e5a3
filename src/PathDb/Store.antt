-- ===== src/PathDb/Store.antt =====
-- What PathDB uses of RocksDB and of the LRU map of `schnellru`, and what it relies on of them.
use rust_eth_triedb.Common.{
  ℕ, List, [], ◌∷◌, Bool, true, false, ◌&&◌, ◌≡◌, if◌then◌else◌, bytes_eq, Option, none, some,
  Result, ok, err,
}

-- The column families that hold data; `trie_node` is created and not used.
pub data Family : Type 0 where
  default meta_data storage_root : Family

abbrev pub family_eq : Family → Family → Bool
family_eq default default = true
family_eq meta_data meta_data = true
family_eq storage_root storage_root = true
family_eq _ _ = false

-- `put_cf` and `delete_cf` of a `WriteBatch`.
pub data BatchOp : Type 0 where
  put : Family → List ℕ → List ℕ → BatchOp
  delete : Family → List ℕ → BatchOp

-- What an operation makes of the value at a key.
abbrev pub after_op : BatchOp → Family → List ℕ → Option (List ℕ) → Option (List ℕ)
after_op (put g k v) f j old = if family_eq g f && bytes_eq k j then some v else old
after_op (delete g k) f j old = if family_eq g f && bytes_eq k j then none else old

-- The operations are applied in order.
abbrev pub after : List BatchOp → Family → List ℕ → Option (List ℕ) → Option (List ℕ)
after [] f j old = old
after (op ∷ batch) f j old = after batch f j (after_op op f j old)

-- `DB`: a write that fails changes nothing. `holds` is what the database has at a key, which `get`
-- returns if it does not fail.
pub record RocksDb : Type 1 where
  pub State : Type 0
  pub has_family : Family → State → Bool
  pub get : Family → List ℕ → State → Result (Unit {0}) (Option (List ℕ))
  pub put : Family → List ℕ → List ℕ → State → Result (Unit {0}) State
  pub delete : Family → List ℕ → State → Result (Unit {0}) State
  pub write : List BatchOp → State → Result (Unit {0}) State
  pub holds : Family → List ℕ → State → Option (List ℕ)

-- A value read, if there is one, is the value held.
abbrev pub Agrees : Option (Option (List ℕ)) → Option (List ℕ) → Type 0
Agrees none held = Unit {0}
Agrees (some v) held = v ≡ held

abbrev pub read_of : Result (Unit {0}) (Option (List ℕ)) → Option (Option (List ℕ))
read_of (ok v) = some v
read_of (err e) = none

-- A write that succeeds leaves at every key what the batch makes of it.
abbrev pub IsWritten : (R : RocksDb) → List BatchOp → R.State → Result (Unit {0}) R.State → Type 0
IsWritten R batch s (ok s') =
    (f : Family) (j : List ℕ) → R.holds f j s' ≡ after batch f j (R.holds f j s)
IsWritten R batch s (err e) = Unit {0}

pub record IsRocksDb (R : RocksDb) : Type 0 where
  pub get_holds :
      (f : Family) (k : List ℕ) (s : R.State) → Agrees (read_of (R.get f k s)) (R.holds f k s)
  pub put_holds :
      (f : Family) (k v : List ℕ) (s : R.State) → IsWritten R (put f k v ∷ []) s (R.put f k v s)
  pub delete_holds :
      (f : Family) (k : List ℕ) (s : R.State) → IsWritten R (delete f k ∷ []) s (R.delete f k s)
  pub write_holds : (batch : List BatchOp) (s : R.State) → IsWritten R batch s (R.write batch s)

-- `LruMap<Vec<u8>, Option<Vec<u8>>, ByLength>`.
pub record Lru : Type 1 where
  pub Cache : Type 0
  pub peek : List ℕ → Cache → Option (Option (List ℕ))
  pub insert : List ℕ → Option (List ℕ) → Cache → Cache
  pub remove : List ℕ → Cache → Cache
  pub clear : Cache → Cache

-- A cache may drop any entry when one is inserted, and has no entry that was not inserted.
pub data IsEntry (old : Option (Option (List ℕ))) : Option (Option (List ℕ)) → Type 0 where
  dropped : IsEntry old none
  kept : IsEntry old old

pub record IsLru (L : Lru) : Type 0 where
  pub peek_insert :
      (k j : List ℕ) (v : Option (List ℕ)) (c : L.Cache)
      → IsEntry (if bytes_eq k j then some v else L.peek j c) (L.peek j (L.insert k v c))
  pub peek_remove :
      (k j : List ℕ) (c : L.Cache)
      → L.peek j (L.remove k c) ≡ (if bytes_eq k j then none else L.peek j c)
  pub peek_clear : (j : List ℕ) (c : L.Cache) → L.peek j (L.clear c) ≡ none
