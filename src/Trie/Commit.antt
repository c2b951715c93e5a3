-- ===== src/Trie/Commit.antt =====
-- `Trie::commit` of state-trie/src/trie.rs. `none` is a panic; no other error is returned.
use rust_eth_triedb.Common.{
  ℕ, List, [], ◌∷◌, Bool, true, false, ltb, ◌≡◌, refl, sym, ◌∙◌, if◌then◌else◌, length, All, Option,
  none, some,
}
use mathlib.Core.Path.{subst}
use rust_eth_triedb.DiffLayer.{deleted_node}
use rust_eth_triedb.TrieTracer.{deleted_nodes}
use rust_eth_triedb.Node.{Node, cache}
use rust_eth_triedb.NodeSet.{NodeSet, add_node}
use rust_eth_triedb.NodeSet
use rust_eth_triedb.Hasher.{Hashed, and_then, hash_node}
use rust_eth_triedb.Hasher.Represents.{Keeps, hash_node-Keeps}
use rust_eth_triedb.Hasher.Sized.{IsSized}
use rust_eth_triedb.Hasher.Total.{IsDone, hash_node-IsDone}
use rust_eth_triedb.Hasher.Cached.{hash_node-IsCached}
use rust_eth_triedb.Committer
use rust_eth_triedb.Committer.{Committed, commit_internal}
use rust_eth_triedb.Committer.Total.{OwnedBy}
use rust_eth_triedb.Committer.Runs.{commit_internal-Commits}
use rust_eth_triedb.Trie.{Trie}
use rust_eth_triedb.Trie.Ops.{is_empty_node}
use rust_eth_triedb.Trie.Hash as Hash
use rust_eth_triedb.Trie.Hash.{cached_not_empty}
use rust_eth_triedb.Trie.Tree.{Tree}
use rust_eth_triedb.Trie.Tree.Shape.{IsWf}
use rust_eth_triedb.Trie.Represents.Defs.{Represents, IsInner}
use rust_eth_triedb.Trie.Updates.{IsTrieOf}

-- The root hash and the nodes that are collected, and the trie after the call.
abbrev pub CommitResult : Type 0
CommitResult = Option ((List ℕ × Option NodeSet) × Trie)

-- The paths that the tracer has as deleted.
unfoldable pub mark_deleted : List (List ℕ) → NodeSet → NodeSet
unfolding add_node
mark_deleted [] set = set
mark_deleted (path ∷ paths) set = mark_deleted paths (add_node path deleted_node set)

-- A trie without a root.
unfoldable pub commit_empty : List ℕ → List (List ℕ) → Trie → CommitResult
unfolding mark_deleted
commit_empty empty_root_hash [] trie =
    some ((empty_root_hash, none), record trie { committed = true })
commit_empty empty_root_hash (path ∷ paths) trie = some (
  (empty_root_hash, some (mark_deleted (path ∷ paths) (NodeSet.new trie.env.owner))),
  record trie { committed = true },
)

module _ (keccak256 : List ℕ → List ℕ) (list_header : ℕ → List ℕ) (empty_root_hash : List ℕ)
    (arrange : List NodeSet → List NodeSet) where
  -- A trie that was hashed, with the cached hash of its root and whether it is dirty.
  unfoldable pub commit_hashed : Bool → Option (List ℕ) → Bool → List ℕ → Trie → CommitResult
  unfolding Committer.commit mark_deleted deleted_nodes
  commit_hashed collect_leaf none false root_hash trie = none
  commit_hashed collect_leaf (some h) false root_hash trie =
      some ((root_hash, none), record trie { root = Node.hash h; committed = true })
  commit_hashed collect_leaf hash_node true root_hash trie =
      and_then
        (Committer.commit list_header arrange trie.tracer collect_leaf (ltb 100 trie.unhashed)
          trie.root (mark_deleted (deleted_nodes trie.tracer) (NodeSet.new trie.env.owner)))
        (λ (root, set).
          some
            ((root_hash, some set), record trie { root = root; committed = true; uncommitted = 0 }))

  unfoldable pub commit : Bool → Trie → CommitResult
  unfolding commit_empty commit_hashed Hash.hash cache
  commit collect_leaf trie =
      if is_empty_node trie.root
      then commit_empty empty_root_hash (deleted_nodes trie.tracer) trie
      else and_then (Hash.hash keccak256 list_header empty_root_hash trie) (λ (root_hash, trie').
        commit_hashed collect_leaf ((cache trie'.root).0) ((cache trie'.root).1) root_hash trie')

  -- The root is replaced by its hash, and the trie cannot be used again.
  abbrev IsClosed : List ℕ → CommitResult → Type 0
  IsClosed h o =
      (set : Option NodeSet) × (trie : Trie) × (o ≡ some ((h, set), trie))
      × (trie.root ≡ Node.hash h)
      × (trie.committed ≡ true)

  module _ (digest : (b : List ℕ) → length (keccak256 b) ≡ 32)
      (arranged : (owner : List ℕ) (sets : List NodeSet)
        → All (OwnedBy owner) sets
        → All (OwnedBy owner) (arrange sets)) where
    commit_hashed-IsClosed :
        (collect_leaf : Bool) (trie : Trie) (t : Tree) (h : List ℕ) (c : Option (List ℕ)) (b : Bool)
        → Represents trie.env [] trie.root t
        → IsWf false t
        → IsSized trie.root
        → is_empty_node trie.root ≡ false
        → (cache trie.root).0 ≡ some h
        → c ≡ some h
        → IsClosed h (commit_hashed collect_leaf c b h trie)
    unfolding commit_hashed Committer.commit
    commit_hashed-IsClosed collect_leaf trie t h none false rep wf s e q q' = cc
    commit_hashed-IsClosed collect_leaf trie t h (some x) false rep wf s e q q' =
        (none, record trie { root = Node.hash x; committed = true }, refl, cc, refl)
    commit_hashed-IsClosed collect_leaf trie t h c true rep wf s e q q' =
        let (n, set, run, _, _, same) =
          commit_internal-Commits list_header arrange trie.tracer collect_leaf arranged rep wf s e
            (ltb 100 trie.unhashed) []
            (mark_deleted (deleted_nodes trie.tracer) (NodeSet.new trie.env.owner)) in
        (
          some set,
          record trie { root = Node.hash h; committed = true; uncommitted = 0 },
          rw (run, same h q) refl,
          refl,
          refl,
        )

    -- A second commit finds a hash as root, which has no cached hash.
    commit-again :
        (collect_leaf : Bool) (trie : Trie) (h : List ℕ)
        → trie.root ≡ Node.hash h
        → commit collect_leaf trie ≡ none
    unfolding commit commit_hashed Hash.hash hash_node cache
    commit-again collect_leaf trie h e = rw e refl

    IsDone-IsSized : (o : Option Hashed) (x y : Node) → o ≡ some (x, y) → IsDone o → IsSized y
    IsDone-IsSized o x y e (x', y', e', sx, sy) = subst IsSized (second (sym e' ∙ e)) sy
      where
        second : {a b c d : Node} → ◌≡◌ {A = Option Hashed} (some (a, b)) (some (c, d)) → b ≡ d
        second q = cc

    inner_not_empty : (n : Node) → IsInner n → is_empty_node n ≡ false
    inner_not_empty (Node.short k v f) i = refl
    inner_not_empty (Node.full k f) i = refl
    inner_not_empty (Node.hash x) i = refl
    inner_not_empty (Node.value x) i = refl
    inner_not_empty Node.empty i = elim i [ ]

    -- On an open trie whose root is a short or a full node in memory and stands for a
    -- well-formed tree, with keys, values and hashes shorter than 2 ^ 56 bytes in the nodes
    -- in memory, with hashes of 32 bytes from `keccak256`, and when the order in which the
    -- tasks merge their sets brings in no set of another owner, `commit` does not panic and
    -- returns the hash that `hash` returns; the root afterwards is that hash and the trie is
    -- committed, and a second `commit` panics.
    pub commit-hash :
        (collect_leaf : Bool) (trie : Trie) (t : Tree)
        → IsTrieOf trie t
        → IsSized trie.root
        → IsInner trie.root
        → (h : List ℕ) × (hashed : Trie) × (set : Option NodeSet) × (trie' : Trie) × (Hash.hash
              keccak256 list_header empty_root_hash trie
            ≡ some (h, hashed))
          × (commit collect_leaf trie ≡ some ((h, set), trie'))
          × (trie'.root ≡ Node.hash h)
          × (trie'.committed ≡ true)
          × (commit collect_leaf trie' ≡ none)
    unfolding commit Hash.hash
    commit-hash collect_leaf trie t (open_, rep, wf) s i =
        let parallel : Bool = ltb 100 trie.unhashed in
        let (h, y, e, c) = hash_node-IsCached keccak256 list_header digest parallel trie.root i s in
        let rep' : Represents trie.env [] y t =
          subst (Keeps trie.env [] t) e
            (hash_node-Keeps keccak256 list_header trie.env rep parallel true false wf) in
        let s' : IsSized y =
          IsDone-IsSized _ (Node.hash h) y e
            (hash_node-IsDone keccak256 list_header digest parallel true trie.root s) in
        let hashed : Trie = record trie { root = y } in
        let (set, trie', run, root', closed) =
          commit_hashed-IsClosed collect_leaf hashed t h ((cache y).0) ((cache y).1) rep' wf s'
            (cached_not_empty y h c) c c in
        (
          h,
          hashed,
          set,
          trie',
          rw (inner_not_empty trie.root i, e) refl,
          rw (inner_not_empty trie.root i, e) run,
          root',
          closed,
          commit-again collect_leaf trie' h root',
        )
