-- ===== src/Trie/Hash.antt =====
-- `Trie::hash` of state-trie/src/trie.rs. `none` is a panic.
use rust_eth_triedb.Common.{
  ℕ, List, [], Bool, true, false, ltb, ◌≡◌, refl, ◌∙◌, if◌then◌else◌, length, Option, none, some,
  Bool-cases, inl, inr,
}
use mathlib.Core.Path.{subst}
use rust_eth_triedb.Node.{Node, cache}
use rust_eth_triedb.Hasher.{Hashed, and_then, hash_node}
use rust_eth_triedb.Hasher.Represents.{Keeps, hash_node-Keeps}
use rust_eth_triedb.Hasher.Sized.{IsSized}
use rust_eth_triedb.Hasher.Cached.{hash_node-cached, hash_node-IsCached}
use rust_eth_triedb.Trie.{Trie}
use rust_eth_triedb.Trie.Ops.{is_empty_node}
use rust_eth_triedb.Trie.Resolve.{TrieEnv}
use rust_eth_triedb.Trie.Tree.{Tree}
use rust_eth_triedb.Trie.Tree.Shape.{IsWf}
use rust_eth_triedb.Trie.Represents.Defs.{Represents, IsInner, empty, value, short, full}
use rust_eth_triedb.Hasher.Parallel.{hash_node-parallel}
use rust_eth_triedb.Trie.Updates.{IsTrieOf}

-- The hash of the root, if it was hashed.
abbrev pub expect_hash : Node → Trie → Option (List ℕ × Trie)
expect_hash (Node.hash h) trie = some (h, trie)
expect_hash _ trie = none

pub cached_not_empty : (n : Node) (h : List ℕ) → (cache n).0 ≡ some h → is_empty_node n ≡ false
unfolding cache
cached_not_empty Node.empty h e = cc
cached_not_empty (Node.value v) h e = refl
cached_not_empty (Node.hash x) h e = refl
cached_not_empty (Node.short k v f) h e = refl
cached_not_empty (Node.full cs f) h e = refl

module _ (keccak256 : List ℕ → List ℕ) (list_header : ℕ → List ℕ) (empty_root_hash : List ℕ) where
  unfoldable pub hash : Trie → Option (List ℕ × Trie)
  unfolding hash_node
  hash trie =
      if is_empty_node trie.root
      then some (empty_root_hash, trie)
      else and_then (hash_node keccak256 list_header (ltb 100 trie.unhashed) true trie.root)
          (λ (hashed, cached). expect_hash hashed (record trie { root = cached }))

  any_hasher :
      (parallel : Bool) (n : Node)
      → hash_node keccak256 list_header parallel true n
        ≡ hash_node keccak256 list_header false true n
  any_hasher false n = refl
  any_hasher true n = hash_node-parallel keccak256 list_header true n

  -- A hash that was found, with the root that is kept.
  abbrev rooted : Trie → Option Hashed → Option (List ℕ × Trie)
  rooted trie o =
      and_then o (λ (hashed, cached). expect_hash hashed (record trie { root = cached }))

  module _ (digest : (b : List ℕ) → length (keccak256 b) ≡ 32) where
    -- A root that is kept, with its hash cached or a hash itself.
    abbrev IsRooted : TrieEnv → Tree → Node → Type 0
    IsRooted env t root =
        (h : List ℕ) × (y : Node) × ((parallel : Bool)
          → hash_node keccak256 list_header parallel true root ≡ some (Node.hash h, y))
        × ((parallel : Bool)
            → hash_node keccak256 list_header parallel true y ≡ some (Node.hash h, y))
        × (is_empty_node y ≡ false)
        × Represents env [] y t

    inner-IsRooted :
        {env : TrieEnv} {root : Node} {t : Tree}
        → Represents env [] root t
        → IsWf false t
        → IsSized root
        → IsInner root
        → IsRooted env t root
    inner-IsRooted {env} {root} {t} rep wf s i =
        let (h, y, e, c) = hash_node-IsCached keccak256 list_header digest false root i s in
        (
          h,
          y,
          (λ parallel. any_hasher parallel root ∙ e),
          (λ parallel. hash_node-cached keccak256 list_header digest parallel true y h c),
          cached_not_empty y h c,
          subst (Keeps env [] t) e
              (hash_node-Keeps keccak256 list_header env rep false true false wf),
        )

    root-IsRooted :
        {env : TrieEnv} {root : Node} {t : Tree}
        → Represents env [] root t
        → IsWf false t
        → IsSized root
        → is_empty_node root ≡ false
        → IsRooted env t root
    unfolding hash_node
    root-IsRooted empty wf s e = cc
    root-IsRooted (value v) wf s e = elim wf [ ]
    root-IsRooted (short rep) wf s e = inner-IsRooted (short rep) wf s tt
    root-IsRooted (full all) wf s e = inner-IsRooted (full all) wf s tt
    root-IsRooted (Represents.hash {h} blob f d i rep) wf s e = (
      h,
      Node.hash h,
      (λ parallel. refl),
      (λ parallel. refl),
      refl,
      Represents.hash blob f d i rep,
    )

    -- On an open trie whose root stands for a well-formed tree, with keys, values and hashes
    -- shorter than 2 ^ 56 bytes in the nodes in memory, and with hashes of 32 bytes from
    -- `keccak256`, `hash` does not panic; the trie afterwards stands for the same tree, and
    -- hashing it again gives the same hash and the same trie.
    pub hash-IsTrieOf :
        (trie : Trie) (t : Tree)
        → IsTrieOf trie t
        → IsSized trie.root
        → (h : List ℕ) × (trie' : Trie) × (hash trie ≡ some (h, trie'))
          × IsTrieOf trie' t
          × (hash trie' ≡ some (h, trie'))
    unfolding hash
    hash-IsTrieOf trie t (open_, rep, wf) s = elim (Bool-cases (is_empty_node trie.root)) [
      | inl e ↦ (empty_root_hash, trie, rw e refl, (open_, rep, wf), rw e refl)
      | inr e ↦
          (let (h, y, first, again, filled, rep') = root-IsRooted rep wf s e in
            (
              h,
              record trie { root = y },
              rw (e, first (ltb 100 trie.unhashed)) refl,
              (open_, rep', wf),
              rw (filled, again (ltb 100 trie.unhashed)) refl,
            ))
    ]
