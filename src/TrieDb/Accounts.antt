-- ===== src/TrieDb/Accounts.antt =====
-- What the account trie of a `TrieDB` replies after the calls of triedb/src/triedb_reth.rs and of
-- `calculate_hash` in triedb/src/triedb_basic.rs that write accounts.
use rust_eth_triedb.Common.{
  ℕ, List, Bool, true, false, ◌≡◌, refl, ap, sym, ◌∙◌, if◌then◌else◌, Option, none, some, Result,
  ok, err, bytes_eq,
}
use mathlib.Core.Path.{subst}
use rust_eth_triedb.DiffLayer.Order.{or_else}
use rust_eth_triedb.Trie.Monad as Monad
use rust_eth_triedb.StateTrie.{StateTrie, StateAccount, with_storage_root}
use rust_eth_triedb.StateTrie as StateTrie
use rust_eth_triedb.StateTrie.Laws.{IsHash, IsAccount, IsCodec, IsUsable}
use rust_eth_triedb.StateTrie.Hashed.{Reads, account_read, get-Reads, update-Reads, delete-Reads}
use rust_eth_triedb.TrieDatabase.{TrieDatabase}
use rust_eth_triedb.TrieDb.{
  Failure, Externals, Called, Call, Db, of_trie, as_database, ◌>>=◌, ◌>>◌, on_account_trie,
  get_account_with_hash_state, update_account_with_hash_state, delete_account_with_hash_state,
}

-- The new reply, where there is one.
abbrev pub now : {A : Type 0} → Option A → Result Failure A → Result Failure A
now none old = old
now (some a) old = ok a

now-or_else :
    {A : Type 0} (a b : Option A) (old : Result Failure A)
    → now (or_else a b) old ≡ now a (now b old)
now-or_else none b old = refl
now-or_else (some x) b old = refl

now-if :
    {A : Type 0} (c : Bool) (a : A) (r : Result Monad.Fault A)
    → of_trie (if c then ok a else r) ≡ now (if c then some a else none) (of_trie r)
now-if true a r = refl
now-if false a r = refl

module _ (D : TrieDatabase) (X : Externals) where
  abbrev pub account_at : Db D X → List ℕ → Result Failure (Option StateAccount)
  account_at t j = (get_account_with_hash_state D X j t).0

  -- The account trie is there and can be used.
  abbrev pub IsReady : Db D X → Type 0
  IsReady t = (s : StateTrie) × (t.account_trie ≡ some s) × IsUsable s

  abbrev pub with_trie : StateTrie → Db D X → Db D X
  with_trie s t = record t { account_trie = some s }

  -- A call that returns `a` and changes nothing in `b` but the account trie, which then replies what
  -- `t` does, but for the new replies.
  abbrev pub Becomes :
      {A : Type 0}
      → Db D X
      → Db D X
      → (List ℕ → Option (Option StateAccount))
      → A
      → Called D.State A
      → Type 0
  Becomes b t new a o =
      (s : StateTrie) × (o ≡ (ok a, with_trie s b))
      × IsUsable s
      × ((j : List ℕ) → IsHash j → account_at (with_trie s b) j ≡ now (new j) (account_at t j))

  pub Becomes-IsReady :
      {A : Type 0} (b t : Db D X) (new : List ℕ → Option (Option StateAccount)) (a : A)
      (o : Called D.State A)
      → Becomes b t new a o
      → IsReady o.1
  Becomes-IsReady b t new a o (s, e, usable, _) = rw e (s, refl, usable)

  pub account_at-read :
      (t : Db D X) (s : StateTrie) (j : List ℕ)
      → t.account_trie ≡ some s
      → account_at t j ≡ of_trie (account_read X.codec j s)
  unfolding get_account_with_hash_state
  account_at-read t s j e = rw e refl

  -- A call on the account trie.
  pub on_trie-Becomes :
      (f : StateTrie → StateTrie.Called (Unit {0})) (t : Db D X) (s : StateTrie) (k : List ℕ)
      (v : Option StateAccount)
      → t.account_trie ≡ some s
      → Reads
          (account_read X.codec)
          (f s)
          (ok tt)
          (λ j. if bytes_eq k j then ok v else account_read X.codec j s)
      → Becomes t t
          (λ j. if bytes_eq k j then some v else none)
          tt
          (as_database (on_account_trie D X f t.account_trie t))
        × Becomes t t
            (λ j. if bytes_eq k j then some v else none)
            tt
            (on_account_trie D X f t.account_trie t)
  on_trie-Becomes f t s k v e reads =
      subst
        (λ o.
          Becomes t t (λ j. if bytes_eq k j then some v else none) tt
            (as_database (on_account_trie D X f o t))
          × Becomes t t (λ j. if bytes_eq k j then some v else none) tt (on_account_trie D X f o t))
        (sym e) (go (f s) reads)
    where
      go :
          (o : StateTrie.Called (Unit {0}))
          → Reads
              (account_read X.codec)
              o
              (ok tt)
              (λ j. if bytes_eq k j then ok v else account_read X.codec j s)
          → Becomes t t
              (λ j. if bytes_eq k j then some v else none)
              tt
              (as_database (of_trie o.0, with_trie o.1 t))
            × Becomes t t
                (λ j. if bytes_eq k j then some v else none)
                tt
                (of_trie o.0, with_trie o.1 t)
      go (ok u, s') (done, usable, found) =
          let replies : (j : List ℕ)
              → IsHash j
              → account_at (with_trie s' t) j
                ≡ now (if bytes_eq k j then some v else none) (account_at t j) =
            λ j h.
              account_at-read (with_trie s' t) s' j refl
              ∙ ap of_trie (found j h)
              ∙ now-if (bytes_eq k j) v (account_read X.codec j s)
              ∙ ap (now (if bytes_eq k j then some v else none)) (sym (account_at-read t s j e)) in
          ((s', refl, usable, replies), (s', refl, usable, replies))
      go (err x, s') (done, _, _) = cc

  pub >>=-Becomes :
      {A B : Type 0} (b b' t : Db D X) (first : Call D X A) (second : A → Call D X B)
      (new new' : List ℕ → Option (Option StateAccount)) (x : A) (y : B)
      → Becomes b' t new x (first t)
      → ((s : StateTrie)
          → IsUsable s
          → Becomes b (with_trie s b') new' y (second x (with_trie s b')))
      → Becomes b t (λ j. or_else (new' j) (new j)) y ((first >>= second) t)
  >>=-Becomes b b' t first second new new' x y (s, e, usable, found) next =
      let (s', e', usable', found') = next s usable in
      rw (e, e')
        (
          s',
          refl,
          usable',
          λ j h. found' j h ∙ ap (now (new' j)) (found j h) ∙ sym (now-or_else (new' j) (new j) _),
        )

  pub >>-Becomes :
      {A : Type 0} (b b' t : Db D X) (first : Call D X (Unit {0})) (second : Call D X A)
      (new new' : List ℕ → Option (Option StateAccount)) (a : A)
      → Becomes b' t new tt (first t)
      → ((s : StateTrie) → IsUsable s → Becomes b (with_trie s b') new' a (second (with_trie s b')))
      → Becomes b t (λ j. or_else (new' j) (new j)) a ((first >> second) t)
  >>-Becomes b b' t first second new new' a h next =
      >>=-Becomes b b' t first (λ _. second) new new' tt a h next

  pub get-Becomes :
      (t : Db D X) (k : List ℕ) (a : Option StateAccount)
      → IsReady t
      → IsHash k
      → account_at t k ≡ ok a
      → Becomes t t (λ j. none) a (get_account_with_hash_state D X k t)
  unfolding get_account_with_hash_state
  get-Becomes t k a (s, e, usable) h reply =
      let (_, usable', found) = get-Reads X.codec k s usable h in
      let s' = (StateTrie.get_account_with_hash_state X.codec k s).1 in
      (
        s',
        ap (λ o. on_account_trie D X (StateTrie.get_account_with_hash_state X.codec k) o t) e
            ∙ ap (λ r. (r, with_trie s' t)) (sym (account_at-read t s k e) ∙ reply),
        usable',
        λ j hj.
            account_at-read (with_trie s' t) s' j refl
            ∙ ap of_trie (found j hj)
            ∙ sym (account_at-read t s j e),
      )

  pub Becomes-cong :
      {A : Type 0} (b t : Db D X) (new new' : List ℕ → Option (Option StateAccount)) (a : A)
      (o : Called D.State A)
      → ((j : List ℕ) → new j ≡ new' j)
      → Becomes b t new a o
      → Becomes b t new' a o
  Becomes-cong b t new new' a o same (s, e, usable, found) =
      (s, e, usable, λ j h. found j h ∙ ap (λ x. now x (account_at t j)) (same j))

  pub stays-Becomes :
      {A : Type 0} (a : A) (t : Db D X) → IsReady t → Becomes t t (λ j. none) a (ok a, t)
  stays-Becomes a t (s, e, usable) = (
    s,
    ap (λ o. (ok a, record t { account_trie = o })) e,
    usable,
    λ j h. account_at-read (with_trie s t) s j refl ∙ sym (account_at-read t s j e),
  )

  pub delete-Becomes :
      (t : Db D X) (k : List ℕ)
      → IsReady t
      → IsHash k
      → Becomes t t
          (λ j. if bytes_eq k j then some none else none)
          tt
          (as_database (delete_account_with_hash_state D X k t))
  unfolding delete_account_with_hash_state
  delete-Becomes t k (s, e, usable) h =
      (on_trie-Becomes _ t s k none e (delete-Reads X.codec k s usable h)).0

  module _ (laws : IsCodec X.codec) where
    pub update-Becomes :
        (t : Db D X) (k : List ℕ) (a : StateAccount)
        → IsReady t
        → IsHash k
        → IsAccount a
        → Becomes t t
            (λ j. if bytes_eq k j then some (some a) else none)
            tt
            (as_database (update_account_with_hash_state D X k a t))
          × Becomes t t
              (λ j. if bytes_eq k j then some (some a) else none)
              tt
              (update_account_with_hash_state D X k a t)
    unfolding update_account_with_hash_state
    update-Becomes t k a (s, e, usable) h fits =
        on_trie-Becomes _ t s k (some a) e (update-Reads X.codec laws k a s usable h fits)
