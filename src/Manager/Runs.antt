-- ===== src/Manager/Runs.antt =====
-- Runs of the calls of triedb/src/triedb_manager.rs.
use rust_eth_triedb.Common.{
  ℕ, List, ◌⊎◌, inl, inr, Bool, true, false, ◌≡◌, ◌≢◌, refl, ◌∙◌, Option, none, some, ok, err,
}
use rust_eth_triedb.TrieDatabase.{TrieDatabase}
use rust_eth_triedb.TrieDb.{Externals, Db, new}
use rust_eth_triedb.Manager.{
  Globals, Outcome, start, set_active, enable_triedb, disable_triedb, is_triedb_active,
  init_empty_root_node, opened, uninitialized, init_global_triedb_manager, get_global_triedb,
}

-- What is set stays as it is.
abbrev pub IsStable : {A : Type 0} → Option A → Option A → Type 0
IsStable none o = Unit {0}
IsStable (some a) o = o ≡ some a

IsStable-refl : {A : Type 0} (o : Option A) → IsStable o o
IsStable-refl none = tt
IsStable-refl (some a) = refl

IsStable-trans : {A : Type 0} (o p q : Option A) → IsStable o p → IsStable p q → IsStable o q
IsStable-trans none p q h h' = tt
IsStable-trans (some a) none q h h' = cc
IsStable-trans (some a) (some b) q h h' = h' ∙ h

-- A manager has the empty root node set.
abbrev pub IsReady : {A : Type 0} → Option A → Bool → Type 0
IsReady none b = Unit {0}
IsReady (some a) b = b ≡ true

module _ (D : TrieDatabase) (X : Externals) (open_database : List ℕ → Option D.State) where
  -- A call that changes the shared values, whether it panics or not.
  pub data Step : Globals (Db D X) → Globals (Db D X) → Type 0 where
    enables : {g : Globals (Db D X)} → Step g (enable_triedb g).1
    disables : {g : Globals (Db D X)} → Step g (disable_triedb g).1
    inits :
        {g : Globals (Db D X)} (path : List ℕ)
        → Step g (init_global_triedb_manager D X open_database path g).1

  pub data Reaches : Globals (Db D X) → Globals (Db D X) → Type 0 where
    here : {g : Globals (Db D X)} → Reaches g g
    next : {g h k : Globals (Db D X)} → Step g h → Reaches h k → Reaches g k

  abbrev Keeps : Globals (Db D X) → Globals (Db D X) → Type 0
  Keeps g h =
      IsStable g.active_triedb h.active_triedb
      × IsStable g.manager_instance h.manager_instance
      × (IsReady g.manager_instance g.empty_root_node
          → IsReady h.manager_instance h.empty_root_node)

  set_active-Keeps :
      (value : Bool) (o : Option Bool) (g : Globals (Db D X))
      → g.active_triedb ≡ o
      → Keeps g (set_active value o g).1
  set_active-Keeps value none g e = (rw e tt, IsStable-refl g.manager_instance, λ r. r)
  set_active-Keeps true (some true) g e =
      (IsStable-refl g.active_triedb, IsStable-refl g.manager_instance, λ r. r)
  set_active-Keeps false (some false) g e =
      (IsStable-refl g.active_triedb, IsStable-refl g.manager_instance, λ r. r)
  set_active-Keeps true (some false) g e =
      (IsStable-refl g.active_triedb, IsStable-refl g.manager_instance, λ r. r)
  set_active-Keeps false (some true) g e =
      (IsStable-refl g.active_triedb, IsStable-refl g.manager_instance, λ r. r)

  opened-Keeps :
      (path : List ℕ) (o : Option (Db D X)) (g : Globals (Db D X))
      → g.manager_instance ≡ o
      → Keeps g (uninitialized D X open_database path o g).1
  unfolding enable_triedb init_empty_root_node
  opened-Keeps path (some t) g e =
      (IsStable-refl g.active_triedb, IsStable-refl g.manager_instance, λ r. r)
  opened-Keeps path none g e = go (open_database path)
    where
      go : (o : Option D.State) → Keeps g (opened D X open_database o (init_empty_root_node g)).1
      go none = (IsStable-refl g.active_triedb, IsStable-refl g.manager_instance, λ r. rw e tt)
      go (some path_db) =
          let (a, m, r) =
            set_active-Keeps true g.active_triedb
              (record g { manager_instance = some (new D X path_db); empty_root_node = true })
              refl in
          (a, rw e tt, λ _. r refl)

  Step-Keeps : {g h : Globals (Db D X)} → Step g h → Keeps g h
  unfolding enable_triedb disable_triedb init_global_triedb_manager
  Step-Keeps (enables {g}) = set_active-Keeps true g.active_triedb g refl
  Step-Keeps (disables {g}) = set_active-Keeps false g.active_triedb g refl
  Step-Keeps (inits {g} path) = opened-Keeps path g.manager_instance g refl

  Reaches-Keeps : {g h : Globals (Db D X)} → Reaches g h → Keeps g h
  Reaches-Keeps (here {g}) =
      (IsStable-refl g.active_triedb, IsStable-refl g.manager_instance, λ r. r)
  Reaches-Keeps (next {g} {h} {k} s r) =
      let (a, m, e) = Step-Keeps s in
      let (a', m', e') = Reaches-Keeps r in
      (
        IsStable-trans g.active_triedb h.active_triedb k.active_triedb a a',
        IsStable-trans g.manager_instance h.manager_instance k.manager_instance m m',
        λ x. e' (e x),
      )

  -- In whatever order `enable_triedb`, `disable_triedb` and `init_global_triedb_manager` are
  -- called from the start of the process, whether they panic or not: once the flag or the
  -- manager is set no further call changes it, and where there is a manager the empty root
  -- node is set.
  pub Reaches-IsStable :
      (g h : Globals (Db D X))
      → Reaches start g
      → Reaches g h
      → IsReady g.manager_instance g.empty_root_node
        × IsStable g.active_triedb h.active_triedb
        × IsStable g.manager_instance h.manager_instance
  Reaches-IsStable g h before after =
      let (_, _, ready) = Reaches-Keeps before in
      let (a, m, _) = Reaches-Keeps after in (ready tt, a, m)

  -- The manager is that of a database that was opened.
  abbrev pub IsOpened : List ℕ → Globals (Db D X) → Type 0
  IsOpened path h =
      (path_db : D.State) × (open_database path ≡ some path_db)
      × (get_global_triedb D X h ≡ ok (new D X path_db))

  -- When `init_global_triedb_manager` returns, and when it panics.
  abbrev pub IsInitialized : List ℕ → Globals (Db D X) → Outcome (Db D X) (Unit {0}) → Type 0
  IsInitialized path g (ok u, h) =
      (g.manager_instance ≡ none)
      × (g.active_triedb ≢ some false)
      × (is_triedb_active h ≡ true)
      × IsOpened path h
  IsInitialized path g (err e, h) =
      ((t : Db D X) × (g.manager_instance ≡ some t) × (h ≡ g))
      ⊎ ((g.manager_instance ≡ none)
          × (open_database path ≡ none)
          × (get_global_triedb D X h ≡ err tt))
      ⊎ ((g.manager_instance ≡ none)
          × (g.active_triedb ≡ some false)
          × (is_triedb_active h ≡ false)
          × IsOpened path h)

  -- `init_global_triedb_manager` returns only when there was no manager and the flag was not
  -- off; the flag is then on, and `get_global_triedb` gives a new `TrieDB` on the database
  -- that was opened. It panics when there is a manager, with nothing changed; when the
  -- database does not open, and then there is no manager that `get_global_triedb` could give;
  -- or when the flag was off: then the flag stays off and the manager stays set, so that
  -- `get_global_triedb` gives its `TrieDB` all the same.
  pub init_global_triedb_manager-IsInitialized :
      (path : List ℕ) (g : Globals (Db D X))
      → IsInitialized path g (init_global_triedb_manager D X open_database path g)
  unfolding init_global_triedb_manager get_global_triedb enable_triedb init_empty_root_node
  init_global_triedb_manager-IsInitialized path g = go g.manager_instance refl
    where
      flagged :
          (path_db : D.State) (o : Option Bool)
          → g.manager_instance ≡ none
          → g.active_triedb ≡ o
          → open_database path ≡ some path_db
          → IsInitialized path g (
              set_active true o
                (record g { manager_instance = some (new D X path_db); empty_root_node = true }))
      flagged path_db none e a p = (e, λ x. cc, refl, (path_db, p, refl))
      flagged path_db (some true) e a p = (e, λ x. cc, rw a refl, (path_db, p, refl))
      flagged path_db (some false) e a p = inr (inr (e, a, rw a refl, (path_db, p, refl)))

      go :
          (o : Option (Db D X))
          → g.manager_instance ≡ o
          → IsInitialized path g (uninitialized D X open_database path o g)
      go (some t) e = inl (t, e, refl)
      go none e = from (open_database path) refl
        where
          from :
              (o : Option D.State)
              → open_database path ≡ o
              → IsInitialized path g (opened D X open_database o (init_empty_root_node g))
          from none p = inr (inl (e, p, rw e refl))
          from (some path_db) p = flagged path_db g.active_triedb e refl p
