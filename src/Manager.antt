-- ===== src/Manager.antt =====
-- triedb/src/triedb_manager.rs: the flag and the instance that the process shares, each set once. Calls
-- are taken one after another; a call that panics keeps what it set before.
pub mod Runs
use rust_eth_triedb.Common.{ℕ, List, Bool, true, false, Option, none, some, Result, ok, err}
use rust_eth_triedb.TrieDatabase.{TrieDatabase}
use rust_eth_triedb.TrieDb.{Externals, Db, new, clone}

-- ACTIVE_TRIEDB, MANAGER_INSTANCE with the `TrieDB` of its manager, and whether `init_empty_root_node`
-- of state-trie/src/node/node.rs was called.
pub record Globals (T : Type 0) : Type 0 where
  pub active_triedb : Option Bool
  pub manager_instance : Option T
  pub empty_root_node : Bool

-- `err` is a panic.
abbrev pub Outcome : Type 0 → Type 0 → Type 0
Outcome T A = Result (Unit {0}) A × Globals T

module _ {T : Type 0} where
  abbrev pub start : Globals T
  start = record { active_triedb = none; manager_instance = none; empty_root_node = false }

  abbrev pub set_active : Bool → Option Bool → Globals T → Outcome T (Unit {0})
  set_active value none g = (ok tt, record g { active_triedb = some value })
  set_active true (some true) g = (ok tt, g)
  set_active false (some false) g = (ok tt, g)
  set_active true (some false) g = (err tt, g)
  set_active false (some true) g = (err tt, g)

  unfoldable pub enable_triedb : Globals T → Outcome T (Unit {0})
  enable_triedb g = set_active true g.active_triedb g

  unfoldable pub disable_triedb : Globals T → Outcome T (Unit {0})
  disable_triedb g = set_active false g.active_triedb g

  abbrev pub is_triedb_active : Globals T → Bool
  is_triedb_active g = elim (g.active_triedb) [ none ↦ false | some b ↦ b ]

  unfoldable pub init_empty_root_node : Globals T → Globals T
  init_empty_root_node g = record g { empty_root_node = true }

module _ (D : TrieDatabase) (X : Externals) where
  -- `get_manager` and `get_triedb`: a clone, or the panic of `expect`.
  unfoldable pub get_global_triedb : Globals (Db D X) → Result (Unit {0}) (Db D X)
  get_global_triedb g = elim (g.manager_instance) [
    | none ↦ err tt
    | some triedb ↦ ok (clone D X triedb)
  ]

-- `open_database` is `PathDB::new` at a path, which is `expect`ed.
module _ (D : TrieDatabase) (X : Externals) (open_database : List ℕ → Option D.State) where
  abbrev pub opened : Option D.State → Globals (Db D X) → Outcome (Db D X) (Unit {0})
  opened none g = (err tt, g)
  opened (some path_db) g = enable_triedb (record g { manager_instance = some (new D X path_db) })

  abbrev pub uninitialized :
      List ℕ → Option (Db D X) → Globals (Db D X) → Outcome (Db D X) (Unit {0})
  uninitialized path (some manager) g = (err tt, g)
  uninitialized path none g = opened (open_database path) (init_empty_root_node g)

  unfoldable pub init_global_triedb_manager :
      List ℕ → Globals (Db D X) → Outcome (Db D X) (Unit {0})
  unfolding enable_triedb init_empty_root_node
  init_global_triedb_manager path g = uninitialized path g.manager_instance g
