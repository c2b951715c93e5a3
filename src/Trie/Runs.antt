-- ===== src/Trie/Runs.antt =====
-- Deletions, and runs of calls of `get`, `update` and `delete` of state-trie/src/trie.rs against a map.
use rust_eth_triedb.Common.{
  ℕ, ◌+◌, ◌*◌, ◌≤◌, List, [], ◌∷◌, Bool, true, false, ◌≡◌, refl, ap, sym, ◌∙◌, arith, length,
  Option, none, some, Result, ok, err, ok-injective, bytes_eq, if◌then◌else◌, is_empty, All,
}
use rust_eth_triedb.Encoding.{key_to_nibbles}
use rust_eth_triedb.Encoding.Terminator.{IsByte}
use rust_eth_triedb.Node.{Node}
use rust_eth_triedb.TrieTracer.{TrieTracer}
use rust_eth_triedb.Trie.{Trie, Outcome, get, update, delete, set_root, touched}
use rust_eth_triedb.Trie.Monad.{Fault}
use rust_eth_triedb.Trie.Ops.{delete_internal}
use rust_eth_triedb.Trie.Tree.{Tree, insert}
use rust_eth_triedb.Trie.Tree.Keys.{key_to_nibbles-IsKey}
use rust_eth_triedb.Trie.Tree.Shape.{IsWf}
use rust_eth_triedb.Trie.Tree.Remove.{remove, removed}
use rust_eth_triedb.Trie.Tree.Remove.Erased.{lookup-remove}
use rust_eth_triedb.Trie.Tree.Remove.Wf.{remove-IsWf}
use rust_eth_triedb.Trie.Represents.Defs.{Represents}
use rust_eth_triedb.Trie.Represents.Children.{need-bounds}
use rust_eth_triedb.Trie.Represents.Delete.{Deletes, delete_internal-Deletes}
use rust_eth_triedb.Trie.Resolve.{TrieEnv}
use rust_eth_triedb.Trie.Updates.{
  IsTrieOf, value_at, length-key_to_nibbles, get-value_at, update-insert, value_at-insert, same_key,
}

-- The trie after a call that succeeds, with both counters advanced.
abbrev pub IsChanged : Trie → Tree → Outcome (Unit {0}) → Type 0
IsChanged trie t (o, trie') =
    (o ≡ ok tt)
    × IsTrieOf trie' t
    × (trie'.unhashed ≡ trie.unhashed + 1)
    × (trie'.uncommitted ≡ trie.uncommitted + 1)

Deletes-remove :
    (env : TrieEnv) (t : Tree) (k : List ℕ) (res : Result Fault (Bool × Node) × TrieTracer)
    → Deletes env [] t (removed t k) res
    → (dirty : Bool) × (n : Node) × (tr : TrieTracer) × (res ≡ (ok (dirty, n), tr))
      × Represents env [] n (remove t k)
unfolding remove
Deletes-remove env t k res = go (removed t k)
  where
    go :
        (o : Option Tree)
        → Deletes env [] t o res
        → (dirty : Bool) × (n : Node) × (tr : TrieTracer) × (res ≡ (ok (dirty, n), tr))
          × Represents env [] n (elim o [ none ↦ t | some t' ↦ t' ])
    go none (n, tr, e, rep) = (false, n, tr, e, rep)
    go (some t') (n, tr, e, rep, plain) = (true, n, tr, e, rep)

-- What `delete`, and `update` with an empty value, do to an open trie.
erase-IsChanged :
    (fuel : ℕ) (key : List ℕ) (trie : Trie) (t : Tree)
    → IsTrieOf trie t
    → All IsByte key
    → 4 * length key + 4 ≤ fuel
    → IsChanged trie (remove t (key_to_nibbles key)) (
        set_root
          (touched trie)
          (delete_internal fuel trie.env trie.root [] (key_to_nibbles key) trie.tracer))
erase-IsChanged fuel key trie t (open_, rep, wf) bytes m =
    let path = key_to_nibbles-IsKey key bytes in
    let (dirty, n, tr, run, rep') = Deletes-remove trie.env t (key_to_nibbles key) _ (
      delete_internal-Deletes fuel trie.env rep false (key_to_nibbles key) wf path
        (omega (arith, need-bounds (trie.root) (key_to_nibbles key), length-key_to_nibbles key))
        trie.tracer) in
    rw run (refl, (open_, rep', remove-IsWf t (key_to_nibbles key) wf path), refl, refl)

-- A deletion from an open trie whose root stands for a well-formed tree, with a key of bytes and
-- fuel of four for each byte and four more, by `delete` or by `update` with an empty value,
-- succeeds; the trie afterwards stands for the tree without the key, well-formed again, and both
-- counters of changes are one more.
pub delete-remove :
    (fuel : ℕ) (key : List ℕ) (trie : Trie) (t : Tree)
    → IsTrieOf trie t
    → All IsByte key
    → 4 * length key + 4 ≤ fuel
    → IsChanged trie (remove t (key_to_nibbles key)) (delete fuel key trie)
      × IsChanged trie (remove t (key_to_nibbles key)) (update fuel key [] trie)
unfolding delete update
delete-remove fuel key trie t is_trie bytes m =
    let erased = erase-IsChanged fuel key trie t is_trie bytes m in
    (
      when_open trie.committed is_trie.0 _ _ _ erased,
      when_open trie.committed is_trie.0 _ _ _ erased,
    )
  where
    when_open :
        (b : Bool)
        → b ≡ false
        → (o o' : Outcome (Unit {0})) (t' : Tree) → IsChanged trie t' o
        → IsChanged trie t' (if b then o' else o)
    when_open b e o o' t' h = rw e h

pub value_at-remove :
    (t : Tree) (key key' : List ℕ)
    → IsWf false t
    → All IsByte key
    → All IsByte key'
    → value_at (remove t (key_to_nibbles key)) key'
      ≡ (if bytes_eq key key' then none else value_at t key')
value_at-remove t key key' wf h h' =
    lookup-remove t (key_to_nibbles key) (key_to_nibbles key') wf (key_to_nibbles-IsKey key h)
      (key_to_nibbles-IsKey key' h')
    ∙ ap (λ b. if b then none else value_at t key') (same_key key key' h h')

pub data Call : Type 0 where
  read : List ℕ → Call
  write : List ℕ → List ℕ → Call
  erase : List ℕ → Call

-- What a call returns.
pub data Reply : Type 0 where
  found : Option (List ℕ) → Reply
  done : Reply

abbrev pub reply : {A : Type 0} → (A → Reply) → Outcome A → Outcome Reply
reply f (ok a, trie) = (ok (f a), trie)
reply f (err e, trie) = (err e, trie)

abbrev pub call : ℕ → Call → Trie → Outcome Reply
call fuel (read key) trie = reply found (get fuel key trie)
call fuel (write key val) trie = reply (λ u. done) (update fuel key val trie)
call fuel (erase key) trie = reply (λ u. done) (delete fuel key trie)

abbrev pub prepend : Reply → Outcome (List Reply) → Outcome (List Reply)
prepend r (ok rs, trie) = (ok (r ∷ rs), trie)
prepend r (err e, trie) = (err e, trie)

abbrev pub continue : Outcome Reply → (Trie → Outcome (List Reply)) → Outcome (List Reply)
continue (ok r, trie) f = prepend r (f trie)
continue (err e, trie) f = (err e, trie)

-- The calls one after another, up to the first that fails, with their replies.
abbrev pub run : ℕ → List Call → Trie → Outcome (List Reply)
run fuel [] trie = (ok [], trie)
run fuel (c ∷ cs) trie = continue (call fuel c trie) (λ trie'. run fuel cs trie')

-- The same calls on a map.
abbrev pub with_value :
    List ℕ → Option (List ℕ) → (List ℕ → Option (List ℕ)) → List ℕ → Option (List ℕ)
with_value key v m key' = if bytes_eq key key' then v else m key'

abbrev pub stored : List ℕ → Option (List ℕ)
stored val = if is_empty val then none else some val

abbrev pub map_replies : List Call → (List ℕ → Option (List ℕ)) → List Reply
map_replies [] m = []
map_replies (read key ∷ cs) m = found (m key) ∷ map_replies cs m
map_replies (write key val ∷ cs) m = done ∷ map_replies cs (with_value key (stored val) m)
map_replies (erase key ∷ cs) m = done ∷ map_replies cs (with_value key none m)

abbrev pub key_of : Call → List ℕ
key_of (read key) = key
key_of (write key val) = key
key_of (erase key) = key

-- The key is bytes, and the fuel is enough for it.
abbrev pub IsFit : ℕ → Call → Type 0
IsFit fuel c = All IsByte (key_of c) × (4 * length (key_of c) + 4 ≤ fuel)

-- A map that has what the tree holds at every key of bytes.
abbrev pub IsMapOf : Tree → (List ℕ → Option (List ℕ)) → Type 0
IsMapOf t m = (key : List ℕ) → All IsByte key → m key ≡ value_at t key

continue-reply :
    {A : Type 0} (g : A → Reply) (o : Outcome A) (a : A) (f : Trie → Outcome (List Reply))
    → o.0 ≡ ok a
    → continue (reply g o) f ≡ prepend (g a) (f o.1)
continue-reply g (ok b, trie) a f e = ap (λ x. prepend (g x) (f trie)) (ok-injective e)
continue-reply g (err x, trie) a f e = cc

prepend-ok :
    (r : Reply) (o : Outcome (List Reply)) (rs : List Reply)
    → o.0 ≡ ok rs
    → (prepend r o).0 ≡ ok (r ∷ rs)
prepend-ok r (ok qs, trie) rs e = ap (λ x. ok (r ∷ x)) (ok-injective e)
prepend-ok r (err x, trie) rs e = cc

-- A call that replies `r`, with the calls after it.
after_call :
    {A : Type 0} (g : A → Reply) (o : Outcome A) (a : A) (fuel : ℕ) (cs : List Call)
    (rs : List Reply)
    → o.0 ≡ ok a
    → (run fuel cs o.1).0 ≡ ok rs
    → (continue (reply g o) (λ trie'. run fuel cs trie')).0 ≡ ok (g a ∷ rs)
after_call g o a fuel cs rs e h =
    ap (λ x. x.0) (continue-reply g o a (λ trie'. run fuel cs trie') e)
    ∙ prepend-ok (g a) (run fuel cs o.1) rs h

with_value-IsMapOf :
    (t t' : Tree) (m : List ℕ → Option (List ℕ)) (key : List ℕ) (v : Option (List ℕ))
    → IsMapOf t m
    → ((key' : List ℕ)
        → All IsByte key'
        → value_at t' key' ≡ (if bytes_eq key key' then v else value_at t key'))
    → IsMapOf t' (with_value key v m)
with_value-IsMapOf t t' m key v h e key' b =
    ap (λ x. if bytes_eq key key' then v else x) (h key' b) ∙ sym (e key' b)

run-replies :
    (fuel : ℕ) (cs : List Call) (trie : Trie) (t : Tree) (m : List ℕ → Option (List ℕ))
    → IsTrieOf trie t
    → All (IsFit fuel) cs
    → IsMapOf t m
    → (run fuel cs trie).0 ≡ ok (map_replies cs m)
run-replies fuel [] trie t m is_trie fits h = refl
run-replies fuel (read key ∷ cs) trie t m is_trie ((b, l), fits) h =
    let (got, is_trie') = get-value_at fuel key trie t is_trie b l in
    after_call found (get fuel key trie) (m key) fuel cs (map_replies cs m)
      (got ∙ ap ok (sym (h key b))) (run-replies fuel cs (get fuel key trie).1 t m is_trie' fits h)
run-replies fuel (write key [] ∷ cs) trie t m is_trie ((b, l), fits) h =
    let (ok_, is_trie', _, _) = (delete-remove fuel key trie t is_trie b l).1 in
    after_call (λ u. done) (update fuel key [] trie) tt fuel cs
      (map_replies cs (with_value key none m)) ok_
      (run-replies fuel cs (update fuel key [] trie).1 (remove t (key_to_nibbles key))
        (with_value key none m) is_trie' fits
        (with_value-IsMapOf t (remove t (key_to_nibbles key)) m key none h
          (λ key' b'. value_at-remove t key key' is_trie.2 b b')))
run-replies fuel (write key (x ∷ xs) ∷ cs) trie t m is_trie ((b, l), fits) h =
    let (ok_, is_trie', _, _) = update-insert fuel key (x ∷ xs) trie t is_trie b refl l in
    after_call (λ u. done) (update fuel key (x ∷ xs) trie) tt fuel cs
      (map_replies cs (with_value key (some (x ∷ xs)) m)) ok_
      (run-replies fuel cs (update fuel key (x ∷ xs) trie).1
        (insert t (key_to_nibbles key) (x ∷ xs)) (with_value key (some (x ∷ xs)) m) is_trie' fits
        (with_value-IsMapOf t (insert t (key_to_nibbles key) (x ∷ xs)) m key (some (x ∷ xs)) h
          (λ key' b'. value_at-insert t key key' (x ∷ xs) is_trie.2 b b')))
run-replies fuel (erase key ∷ cs) trie t m is_trie ((b, l), fits) h =
    let (ok_, is_trie', _, _) = (delete-remove fuel key trie t is_trie b l).0 in
    after_call (λ u. done) (delete fuel key trie) tt fuel cs
      (map_replies cs (with_value key none m)) ok_
      (run-replies fuel cs (delete fuel key trie).1 (remove t (key_to_nibbles key))
        (with_value key none m) is_trie' fits
        (with_value-IsMapOf t (remove t (key_to_nibbles key)) m key none h
          (λ key' b'. value_at-remove t key key' is_trie.2 b b')))

-- Any run of `get`, `update` and `delete` calls, with keys of bytes and four calls of fuel for
-- each byte of a key and four more, on an open trie whose root stands for a well-formed tree,
-- succeeds, and its replies are those of the same calls on the map from keys to the values that
-- the tree holds, where an update with an empty value deletes.
pub run-map_replies :
    (fuel : ℕ) (cs : List Call) (trie : Trie) (t : Tree)
    → IsTrieOf trie t
    → All (IsFit fuel) cs
    → (run fuel cs trie).0 ≡ ok (map_replies cs (value_at t))
run-map_replies fuel cs trie t is_trie fits =
    run-replies fuel cs trie t (value_at t) is_trie fits (λ key b. refl)
