-- ===== src/TrieTracer.antt =====
-- state-trie/src/trie_tracer.rs: the paths of the nodes inserted, deleted and read.
pub mod Laws
use rust_eth_triedb.Common.{ℕ, List, [], ◌∷◌, Bool, true, false, if◌then◌else◌, Option, none, some}
use rust_eth_triedb.Maps
use rust_eth_triedb.Maps.{get, insert, contains, add, discard}

pub record TrieTracer : Type 0 where
  pub inserts : List (List ℕ)
  pub deletes : List (List ℕ)
  pub access_list : List (List ℕ × List ℕ)

abbrev pub new : TrieTracer
new = record { inserts = []; deletes = []; access_list = [] }

unfoldable pub on_read : List ℕ → List ℕ → TrieTracer → TrieTracer
on_read path val t = record t { access_list = insert path val t.access_list }

-- `HashSet::remove` answers whether the key was there.
unfoldable pub on_insert : List ℕ → TrieTracer → TrieTracer
on_insert key t =
    if contains key t.deletes
    then record t { deletes = discard key t.deletes }
    else record t { inserts = add key t.inserts }

unfoldable pub on_delete : List ℕ → TrieTracer → TrieTracer
on_delete key t =
    if contains key t.inserts
    then record t { inserts = discard key t.inserts }
    else record t { deletes = add key t.deletes }

unfoldable pub reset : TrieTracer → TrieTracer
reset t = record { inserts = []; deletes = []; access_list = [] }

-- `contains_key` of the access list.
unfoldable pub is_accessed : List ℕ → TrieTracer → Bool
is_accessed path t = elim (get path t.access_list) [ none ↦ false | some blob ↦ true ]

accessed_among : TrieTracer → List (List ℕ) → List (List ℕ)
accessed_among t [] = []
accessed_among t (path ∷ deletes) =
    let rest = accessed_among t deletes in if is_accessed path t then path ∷ rest else rest

unfoldable pub deleted_nodes : TrieTracer → List (List ℕ)
unfolding accessed_among is_accessed
deleted_nodes t = accessed_among t t.deletes
