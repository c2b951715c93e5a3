-- ===== src/DiffLayer/Order.antt =====
-- The order in which the layers of common/src/difflayer.rs are searched.
use rust_eth_triedb.Common.{ℕ, List, [], ◌∷◌, ◌≡◌, refl, Option, none, some}
use rust_eth_triedb.Maps
use rust_eth_triedb.DiffLayer.{
  DiffLayer, DiffLayers, insert_difflayer, get_trie_nodes, get_storage_root,
}

abbrev pub or_else {ℓ} : {A : Type ℓ} → Option A → Option A → Option A
or_else (some a) b = some a
or_else none b = b

last {ℓ} : {A : Type ℓ} (o : Option A) → elim o [ some x ↦ some x | none ↦ none ] ≡ o
last none = refl
last (some a) = refl

earlier {ℓ} :
    {A : Type ℓ} (x y b o : Option A)
    → x ≡ or_else y b
    → elim o [ some a ↦ some a | none ↦ x ] ≡ or_else (elim o [ some a ↦ some a | none ↦ y ]) b
earlier x y b none e = e
earlier x y b (some a) e = refl

-- A layer that is inserted is searched last: it answers only for the nodes and the storage roots
-- that no layer before it has.
pub get-insert_difflayer :
    (key : List ℕ) (d : DiffLayer) (ds : DiffLayers)
    → (get_trie_nodes key (insert_difflayer d ds)
        ≡ or_else (get_trie_nodes key ds) (Maps.get key d.diff_nodes))
      × (get_storage_root key (insert_difflayer d ds)
          ≡ or_else (get_storage_root key ds) (Maps.get key d.diff_storage_roots))
unfolding get_trie_nodes get_storage_root insert_difflayer
get-insert_difflayer key d [] =
    (last (Maps.get key d.diff_nodes), last (Maps.get key d.diff_storage_roots))
get-insert_difflayer key d (e ∷ ds) =
    let (nodes, roots) = get-insert_difflayer key d ds in
    (
      earlier _ _ _ (Maps.get key e.diff_nodes) nodes,
      earlier _ _ _ (Maps.get key e.diff_storage_roots) roots,
    )
