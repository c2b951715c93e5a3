-- ===== src/Hasher/Cached.antt =====
-- The hashes that nodes cache, and that a forced hash is cached.
use rust_eth_triedb.Common.{ℕ, List, Bool, true, false, ◌≡◌, refl, sym, length, Option, none, some}
use mathlib.Core.Path.{subst}
use rust_eth_triedb.Encoding.{hex_to_compact}
use rust_eth_triedb.Node.{Node, cache}
use rust_eth_triedb.Trie.Represents.Defs.{IsInner}
use rust_eth_triedb.Hasher.{Hashed, cached_or, with_hash, hash_short, hash_full, hash_node}
use rust_eth_triedb.Hasher.Parallel.{tail_from, hash_node-parallel}
use rust_eth_triedb.Hasher.Sized.{IsSized, hex_to_compact-IsSmall}
use rust_eth_triedb.Hasher.Total.{of_inner-IsDone, forced, serial-IsDone, children-AreDone}

module _ (keccak256 : List ℕ → List ℕ) (list_header : ℕ → List ℕ)
    (digest : (b : List ℕ) → length (keccak256 b) ≡ 32) where
  -- A node that has a cached hash is its own result.
  pub hash_node-cached :
      (parallel force : Bool) (n : Node) (h : List ℕ)
      → (cache n).0 ≡ some h
      → hash_node keccak256 list_header parallel force n ≡ some (Node.hash h, n)
  unfolding hash_node cache
  hash_node-cached parallel force Node.empty h e = cc
  hash_node-cached parallel force (Node.value v) h e = cc
  hash_node-cached parallel force (Node.hash x) h e = cc
  hash_node-cached parallel force (Node.short key val flags) h e = rw e refl
  hash_node-cached true force (Node.full cs flags) h e = rw e refl
  hash_node-cached false force (Node.full cs flags) h e = rw e refl

  -- A forced hash is cached in the node that is kept.
  abbrev IsCached : Option Hashed → Type 0
  IsCached o = (h : List ℕ) × (y : Node) × (o ≡ some (Node.hash h, y)) × ((cache y).0 ≡ some h)

  cached_or-IsCached :
      (h : Option (List ℕ)) (n : Node) (r : Option Hashed)
      → (cache n).0 ≡ h
      → IsCached r
      → IsCached (cached_or h n r)
  cached_or-IsCached none n r e d = d
  cached_or-IsCached (some h) n r e d = (h, n, refl, e)

  serial-IsCached :
      (n : Node) → IsInner n → IsSized n → IsCached (hash_node keccak256 list_header false true n)
  unfolding hash_node hash_short hash_full cache tail_from
  serial-IsCached Node.empty i s = elim i [ ]
  serial-IsCached (Node.hash h) i s = elim i [ ]
  serial-IsCached (Node.value v) i s = elim i [ ]
  serial-IsCached (Node.short key val flags) i (sf, sk, s) =
      let (x, y, e, sx, sy) =
        of_inner-IsDone val _ s (serial-IsDone keccak256 list_header digest false val s) in
      let (h, e', sh) =
        forced keccak256 list_header digest (Node.short (hex_to_compact key) x flags)
          (sf, hex_to_compact-IsSmall key sk, sx) in
      cached_or-IsCached (flags.hash) (Node.short key val flags) _ refl
        (h, Node.short key y (with_hash flags (Node.hash h)), rw (e, e') refl, refl)
  serial-IsCached (Node.full cs flags) i (sf, s) =
      let (col, cac, e, sc, sc') =
        children-AreDone keccak256 list_header digest cs 0 cs cs refl refl s s s in
      let (h, e', sh) = forced keccak256 list_header digest (Node.full col flags) (sf, sc) in
      cached_or-IsCached (flags.hash) (Node.full cs flags) _ refl
        (h, Node.full cac (with_hash flags (Node.hash h)), rw (e, e') refl, refl)

  -- A short or full node is hashed by force to a hash that the node that is kept caches.
  pub hash_node-IsCached :
      (parallel : Bool) (n : Node)
      → IsInner n
      → IsSized n
      → (h : List ℕ) × (y : Node) × (hash_node keccak256 list_header parallel true n
          ≡ some (Node.hash h, y))
        × ((cache y).0 ≡ some h)
  hash_node-IsCached false n i s = serial-IsCached n i s
  hash_node-IsCached true n i s =
      subst IsCached (sym (hash_node-parallel keccak256 list_header true n)) (serial-IsCached n i s)
