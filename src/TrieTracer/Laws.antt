-- ===== src/TrieTracer/Laws.antt =====
-- What the tracer of state-trie/src/trie_tracer.rs keeps, whatever is reported to it.
use rust_eth_triedb.Common.{
  ℕ, List, [], ◌∷◌, false, ◌&&◌, ◌≡◌, refl, bytes_eq→eq, Bool-cases, inl, inr, arith,
}
use rust_eth_triedb.Maps.{contains, contains-add, contains-discard}
use rust_eth_triedb.TrieTracer.{TrieTracer, new, on_read, on_insert, on_delete, reset}

-- No path is both inserted and deleted.
abbrev pub IsExclusive : TrieTracer → Type 0
IsExclusive t = (j : List ℕ) → (contains j t.inserts && contains j t.deletes) ≡ false

-- The calls that change a tracer.
pub data Event : Type 0 where
  read : List ℕ → List ℕ → Event
  inserted deleted : List ℕ → Event
  cleared : Event

abbrev pub react : Event → TrieTracer → TrieTracer
react (read path val) t = on_read path val t
react (inserted key) t = on_insert key t
react (deleted key) t = on_delete key t
react cleared t = reset t

abbrev pub react_all : List Event → TrieTracer → TrieTracer
react_all [] t = t
react_all (e ∷ es) t = react_all es (react e t)

pub new-IsExclusive : IsExclusive new
unfolding contains
new-IsExclusive j = refl

react-IsExclusive : (e : Event) (t : TrieTracer) → IsExclusive t → IsExclusive (react e t)
unfolding on_read on_insert on_delete reset contains
react-IsExclusive (read path val) t h j = h j
react-IsExclusive (inserted key) t h j = elim (Bool-cases (contains key t.deletes)) [
  | inl e ↦ rw (e, contains-discard key j t.deletes) (ground (arith, h j))
  | inr e ↦ rw (e, contains-add key j t.inserts) (ground (arith, h j, bytes_eq→eq key j, e))
]
react-IsExclusive (deleted key) t h j = elim (Bool-cases (contains key t.inserts)) [
  | inl e ↦ rw (e, contains-discard key j t.inserts) (ground (arith, h j))
  | inr e ↦ rw (e, contains-add key j t.deletes) (ground (arith, h j, bytes_eq→eq key j, e))
]
react-IsExclusive cleared t h j = refl

-- After any sequence of reads, insertions, deletions and resets, from a tracer that reports no
-- path both inserted and deleted, none is reported both.
pub react_all-IsExclusive :
    (es : List Event) (t : TrieTracer) → IsExclusive t → IsExclusive (react_all es t)
react_all-IsExclusive [] t h = h
react_all-IsExclusive (e ∷ es) t h = react_all-IsExclusive es (react e t) (react-IsExclusive e t h)
