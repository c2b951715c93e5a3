-- ===== src/Examples.antt =====
-- The theorems at concrete inputs, and the instances of the interfaces that they are applied to.
mod Runs
mod States
mod TrieDbs
use rust_eth_triedb.Common.{
  ℕ, ◌+◌, ◌≤◌, ◌<◌, List, [], ◌∷◌, ◌++◌, true, false, ◌&&◌, ◌≡◌, ◌≢◌, refl, arith, if◌then◌else◌,
  bytes_eq, length, replicate, Option, none, some, ok, err, inl,
}
use rust_eth_triedb.Encoding.{
  hex_to_compact, compact_to_hex, hex_to_keybytes, key_to_nibbles, common_prefix_length,
  account_trie_node_key, storage_trie_node_key,
}
use rust_eth_triedb.Encoding.Compact.{compact_to_hex-hex_to_compact}
use rust_eth_triedb.Encoding.Keys.{
  hex_to_keybytes-key_to_nibbles, common_prefix_length-longest, node_keys_injective,
  IsLongestCommon,
}
use rust_eth_triedb.Rlp.{Kind, write_bytes, read_kind, split, split_string, count_values}
use rust_eth_triedb.Rlp.Strings.{split_string-write_bytes}
use rust_eth_triedb.Rlp.Bounds.{split-parts, count_values-total}
use rust_eth_triedb.TrieTracer
use rust_eth_triedb.TrieTracer.{deleted_nodes, is_accessed}
use rust_eth_triedb.TrieTracer.Laws.{
  Event, IsExclusive, new-IsExclusive, react_all, react_all-IsExclusive,
}
use rust_eth_triedb.Maps
use rust_eth_triedb.DiffLayer.{
  DiffLayer, insert_difflayer, get_trie_nodes, get_storage_root, deleted_node,
}
use rust_eth_triedb.DiffLayer.Order.{get-insert_difflayer, or_else}
use rust_eth_triedb.Node
use rust_eth_triedb.Trie.{Trie, get, update, delete, new}
use rust_eth_triedb.Trie.Monad.{already_committed, fault}
use rust_eth_triedb.Trie.Resolve.{TrieEnv}
use rust_eth_triedb.Trie.Tree.{Tree, insert}
use rust_eth_triedb.Trie.Represents.Defs.{Represents}
use rust_eth_triedb.Trie.Updates.{IsTrieOf, value_at, get-value_at, update-insert}
use rust_eth_triedb.Trie.Guards.{IsSafe, failures-keep_root, new-IsTrieOf}
use rust_eth_triedb.PathDb.{
  Db, get_raw_trie_node, get_raw_storage_root, put_raw_trie_node, delete_raw_trie_node,
  exists_raw_trie_node,
}
use rust_eth_triedb.PathDb.Store
use rust_eth_triedb.PathDb.Store.{
  RocksDb, IsRocksDb, Lru, IsLru, kept, after, default, storage_root,
}
use rust_eth_triedb.PathDb.Coherence.{
  IsCoherent, IsRead, reads-IsRead, writes-IsCoherent, exists-get,
}
use rust_eth_triedb.PathDb.Commit.{commit_batch, commit_difflayer}
use rust_eth_triedb.PathDb.Commit.Content.{content, IsStored, commit_difflayer-IsStored}

-- An empty database, without diff layers.
abbrev pub no_nodes : TrieEnv
no_nodes = record {
  owner = [];
  owner_is_zero = true;
  difflayers = none;
  get_trie_node = λ k. ok none;
}

abbrev pub empty_trie : Trie
empty_trie = record {
  root = Node.empty;
  env = no_nodes;
  committed = false;
  unhashed = 0;
  uncommitted = 0;
  tracer = TrieTracer.new;
}

abbrev committed_trie : Trie
committed_trie = record empty_trie { committed = true }

abbrev pub empty_trie-IsTrieOf : IsTrieOf empty_trie Tree.empty
empty_trie-IsTrieOf = (refl, Represents.empty, tt)

update-insert_example :
    ((update 8 (0x12 ∷ []) (1 ∷ []) empty_trie).0 ≡ ok tt)
    × IsTrieOf
        (update 8 (0x12 ∷ []) (1 ∷ []) empty_trie).1
        (insert Tree.empty (key_to_nibbles (0x12 ∷ [])) (1 ∷ []))
    × ((update 8 (0x12 ∷ []) (1 ∷ []) empty_trie).1.unhashed ≡ 1)
    × ((update 8 (0x12 ∷ []) (1 ∷ []) empty_trie).1.uncommitted ≡ 1)
update-insert_example =
    update-insert 8 (0x12 ∷ []) (1 ∷ []) empty_trie Tree.empty empty_trie-IsTrieOf (omega arith, tt)
      refl (omega arith)

-- The root is a hash that no database has.
abbrev dangling_trie : Trie
dangling_trie = record empty_trie { root = Node.hash (7 ∷ []) }

failures-keep_root_example :
    IsSafe dangling_trie (get 8 (1 ∷ []) dangling_trie)
    × IsSafe dangling_trie (update 8 (1 ∷ []) (2 ∷ []) dangling_trie)
    × IsSafe dangling_trie (delete 8 (1 ∷ []) dangling_trie)
failures-keep_root_example = failures-keep_root 8 (1 ∷ []) (2 ∷ []) dangling_trie

new-IsTrieOf_example :
    (trie : Trie) × (new (5 ∷ []) (0 ∷ []) (5 ∷ []) no_nodes ≡ ok trie) × IsTrieOf trie Tree.empty
new-IsTrieOf_example =
    new-IsTrieOf (5 ∷ []) (0 ∷ []) (5 ∷ []) no_nodes Tree.empty (inl (inl refl, refl))

-- A database of functions, and a cache that keeps every entry.
abbrev memory : RocksDb
memory = record {
  State = Store.Family → List ℕ → Option (List ℕ);
  has_family = λ f s. true;
  get = λ f k s. ok (s f k);
  put = λ f k v s. ok (λ g j. after (Store.put f k v ∷ []) g j (s g j));
  delete = λ f k s. ok (λ g j. after (Store.delete f k ∷ []) g j (s g j));
  write = λ batch s. ok (λ g j. after batch g j (s g j));
  holds = λ f k s. s f k;
}

abbrev pub memory-IsRocksDb : IsRocksDb memory
memory-IsRocksDb = record {
  get_holds = λ f k s. refl;
  put_holds = λ f k v s g j. refl;
  delete_holds = λ f k s g j. refl;
  write_holds = λ batch s g j. refl;
}

abbrev unbounded : Lru
unbounded = record {
  Cache = List ℕ → Option (Option (List ℕ));
  peek = λ k c. c k;
  insert = λ k v c j. if bytes_eq k j then some v else c j;
  remove = λ k c j. if bytes_eq k j then none else c j;
  clear = λ c j. none;
}

abbrev pub unbounded-IsLru : IsLru unbounded
unbounded-IsLru = record {
  peek_insert = λ k j v c. kept;
  peek_remove = λ k j c. refl;
  peek_clear = λ j c. refl;
}

-- A database with one node at the key 65, and empty caches.
abbrev one_node : Store.Family → List ℕ → Option (List ℕ)
one_node Store.default j = if bytes_eq (65 ∷ []) j then some (9 ∷ []) else none
one_node _ j = none

abbrev fresh : Db memory unbounded
fresh = record { db = one_node; trie_node_cache = λ j. none; storage_root_cache = λ j. none }

abbrev pub fresh-IsCoherent : IsCoherent memory unbounded fresh
fresh-IsCoherent = (λ j. tt, λ j. tt)

reads-IsRead_example :
    IsRead memory unbounded default
      (65 ∷ [])
      fresh
      (get_raw_trie_node memory unbounded (65 ∷ []) fresh)
    × IsRead memory unbounded storage_root
        (65 ∷ [])
        fresh
        (get_raw_storage_root memory unbounded (65 ∷ []) fresh)
reads-IsRead_example =
    reads-IsRead memory unbounded memory-IsRocksDb unbounded-IsLru fresh fresh-IsCoherent (65 ∷ [])

writes-IsCoherent_example :
    IsCoherent memory unbounded (put_raw_trie_node memory unbounded (65 ∷ []) (4 ∷ []) fresh).1
    × IsCoherent memory unbounded (delete_raw_trie_node memory unbounded (65 ∷ []) fresh).1
writes-IsCoherent_example =
    writes-IsCoherent memory unbounded memory-IsRocksDb unbounded-IsLru fresh fresh-IsCoherent
      (65 ∷ []) (4 ∷ []) refl

exists-get_example :
    ((exists_raw_trie_node memory unbounded (65 ∷ []) fresh).0 ≡ ok true)
    × ((get_raw_trie_node memory unbounded
          (65 ∷ [])
          (exists_raw_trie_node memory unbounded (65 ∷ []) fresh).1).0
        ≡ ok (some []))
exists-get_example = exists-get memory unbounded fresh (65 ∷ []) (9 ∷ []) refl refl refl refl

-- One node changed, one deleted, and a storage root.
abbrev pub block_layer : DiffLayer
block_layer = record {
  diff_nodes =
      (66 ∷ [], record { hash = none; blob = some (8 ∷ []) }) ∷ (65 ∷ [], deleted_node) ∷ [];
  diff_storage_roots = (1 ∷ [], 2 ∷ []) ∷ [];
}

commit_difflayer-IsStored_example :
    IsStored memory unbounded
      (content 7 (3 ∷ []) block_layer.diff_nodes block_layer.diff_storage_roots)
      fresh
      (commit_difflayer memory unbounded 7 (3 ∷ []) (some block_layer) fresh)
unfolding Maps.get
commit_difflayer-IsStored_example =
    commit_difflayer-IsStored memory unbounded memory-IsRocksDb unbounded-IsLru fresh 7 (3 ∷ [])
      (some block_layer) fresh-IsCoherent (refl, (refl, tt)) (refl, tt)

compact_to_hex-hex_to_compact_example :
    compact_to_hex (hex_to_compact (1 ∷ 2 ∷ 3 ∷ 16 ∷ [])) ≡ 1 ∷ 2 ∷ 3 ∷ 16 ∷ []
compact_to_hex-hex_to_compact_example =
    compact_to_hex-hex_to_compact (1 ∷ 2 ∷ 3 ∷ 16 ∷ [])
      (omega arith, (omega arith, (omega arith, omega arith)))

hex_to_keybytes-key_to_nibbles_example :
    hex_to_keybytes (key_to_nibbles (0xab ∷ 0x0c ∷ [])) ≡ some (0xab ∷ 0x0c ∷ [])
hex_to_keybytes-key_to_nibbles_example =
    hex_to_keybytes-key_to_nibbles (0xab ∷ 0x0c ∷ []) (omega arith, (omega arith, tt))

common_prefix_length-longest_example :
    IsLongestCommon
      (common_prefix_length (1 ∷ 2 ∷ 3 ∷ []) (1 ∷ 2 ∷ 4 ∷ []))
      (1 ∷ 2 ∷ 3 ∷ [])
      (1 ∷ 2 ∷ 4 ∷ [])
common_prefix_length-longest_example =
    common_prefix_length-longest (1 ∷ 2 ∷ 3 ∷ []) (1 ∷ 2 ∷ 4 ∷ [])

node_keys_injective_example :
    (account_trie_node_key (1 ∷ []) ≢ storage_trie_node_key (7 ∷ []) (2 ∷ []))
    × (bytes_eq (account_trie_node_key (1 ∷ [])) (account_trie_node_key (2 ∷ [])) ≡ false)
    × (bytes_eq (storage_trie_node_key (7 ∷ []) (1 ∷ [])) (storage_trie_node_key (8 ∷ []) (2 ∷ []))
        ≡ false)
node_keys_injective_example = node_keys_injective (1 ∷ []) (2 ∷ []) (7 ∷ []) (8 ∷ []) refl

split_string-write_bytes_example :
    (w : List ℕ) × (write_bytes (0x80 ∷ 5 ∷ []) ≡ some w)
    × (split_string (w ++ (9 ∷ [])) ≡ ok (0x80 ∷ 5 ∷ [], 9 ∷ []))
split_string-write_bytes_example = split_string-write_bytes (0x80 ∷ 5 ∷ []) (9 ∷ []) (omega arith)

-- A list of two bytes with a byte behind it.
abbrev short_list : List ℕ
short_list = 0xc2 ∷ 1 ∷ 2 ∷ 9 ∷ []

short_list-kind : read_kind short_list ≡ ok (Kind.list, 1, 2)
unfolding read_kind
short_list-kind = refl

short_list-split : split short_list ≡ ok (Kind.list, 1 ∷ 2 ∷ [], 9 ∷ [])
unfolding split read_kind
short_list-split = refl

split-parts_example :
    (tag : List ℕ) × (short_list ≡ tag ++ (1 ∷ 2 ∷ 9 ∷ []))
    × (length {A = ℕ} (9 ∷ []) < length short_list)
    × (read_kind short_list ≡ ok (Kind.list, length tag, 2))
split-parts_example = split-parts short_list short_list-split

count_values-total_example : count_values short_list ≢ none
count_values-total_example = count_values-total short_list

-- A node inserted, read and deleted, and inserted again.
abbrev some_events : List Event
some_events =
    Event.inserted (1 ∷ [])
    ∷ Event.read (1 ∷ []) (7 ∷ [])
    ∷ Event.deleted (1 ∷ [])
    ∷ Event.deleted (1 ∷ [])
    ∷ []

react_all-IsExclusive_example : IsExclusive (react_all some_events TrieTracer.new)
react_all-IsExclusive_example = react_all-IsExclusive some_events TrieTracer.new new-IsExclusive

get-insert_difflayer_example :
    (get_trie_nodes (66 ∷ []) (insert_difflayer block_layer (block_layer ∷ []))
      ≡ or_else
          (get_trie_nodes (66 ∷ []) (block_layer ∷ []))
          (Maps.get (66 ∷ []) block_layer.diff_nodes))
    × (get_storage_root (66 ∷ []) (insert_difflayer block_layer (block_layer ∷ []))
        ≡ or_else
            (get_storage_root (66 ∷ []) (block_layer ∷ []))
            (Maps.get (66 ∷ []) block_layer.diff_storage_roots))
get-insert_difflayer_example = get-insert_difflayer (66 ∷ []) block_layer (block_layer ∷ [])
