-- ===== src/Committer/Runs.antt =====
-- The committer, serial or parallel, returns on the nodes of a well-formed tree.
use rust_eth_triedb.Common.{
  ℕ, List, [], ◌∷◌, ◌++◌, Bool, true, false, ◌==◌, ◌≡◌, refl, ap, ◌∙◌, Option, none, some,
  Bool-cases, inl, inr, All, All-append,
}
use mathlib.Core.Path.{subst}
use rust_eth_triedb.TrieTracer.{TrieTracer}
use rust_eth_triedb.Node.{Node, Nodes, cache}
use rust_eth_triedb.Hasher.{and_then}
use rust_eth_triedb.Hasher.Sized.{IsSized, AreSized}
use rust_eth_triedb.NodeSet.{NodeSet}
use rust_eth_triedb.NodeSet
use rust_eth_triedb.Committer.{
  Committed, of_filled, value_child, merge_all, task, commit_internal, commit_children,
  commit_tasks,
}
use rust_eth_triedb.Committer.Total.{
  Commits, CommitsAll, OwnedBy, ResultOf, clean_or-Commits, commit_short-Commits,
  commit_full-Commits, of_full-Commits, value_child-IsSized, one_child, merge_all-owner,
}
use rust_eth_triedb.Trie.Ops.{is_empty_node}
use rust_eth_triedb.Trie.Resolve.{TrieEnv}
use rust_eth_triedb.Trie.Tree.{Tree, Trees}
use rust_eth_triedb.Trie.Tree.Shape.{IsWf, AreWf}
use rust_eth_triedb.Trie.Represents.Defs.{
  Represents, RepresentAll, IsInner, empty, value, short, full, nil, cons,
}

inner-IsWf :
    {env : TrieEnv} {p : List ℕ} {n : Node} {t : Tree}
    → Represents env p n t
    → IsInner n
    → (e : Bool) → IsWf e t
    → IsWf false t
inner-IsWf rep i false wf = wf
inner-IsWf empty i true wf = elim i [ ]
inner-IsWf (value v) i true wf = elim i [ ]
inner-IsWf (short rep) i true wf = elim wf [ ]
inner-IsWf (full all) i true wf = elim wf [ ]
inner-IsWf (Represents.hash b f d j rep) i true wf = elim i [ ]

inner-filled : (n : Node) → IsInner n → is_empty_node n ≡ false
inner-filled (Node.short k v f) i = refl
inner-filled (Node.full k f) i = refl
inner-filled (Node.hash x) i = refl
inner-filled (Node.value x) i = refl
inner-filled Node.empty i = elim i [ ]

filled-Result :
    (c : Node) (set : NodeSet) (r : Committed Node)
    → IsSized c
    → (is_empty_node c ≡ false → ResultOf set r)
    → ResultOf set (of_filled c set r)
filled-Result Node.empty set r s d = (Node.empty, set, refl, tt, refl)
filled-Result (Node.short k v f) set r s d = d refl
filled-Result (Node.full k f) set r s d = d refl
filled-Result (Node.hash x) set r s d = d refl
filled-Result (Node.value x) set r s d = d refl

as_result :
    (set : NodeSet) {c : Option (List ℕ)} {r : Committed Node} → Commits c set r → ResultOf set r
as_result set (n, set', e, s, o, same) = (n, set', e, s, o)

-- A task's child and its set.
abbrev IsTask : List ℕ → Option (Node × List NodeSet) → Type 0
IsTask owner o =
    (n : Node) × (sets : List NodeSet) × (o ≡ some (n, sets)) × IsSized n × All (OwnedBy owner) sets

found_task :
    (owner : List ℕ) (c : Node) (r : Committed Node)
    → ((set : NodeSet) (n : Node) → task c (some (n, set)) ≡ some (n, set ∷ []))
    → ResultOf (NodeSet.new owner) r
    → IsTask owner (task c r)
found_task owner c r same (n, set, e, s, o) = (n, set ∷ [], ap (task c) e ∙ same set n, s, (o, tt))

task-IsTask :
    (owner : List ℕ) (c : Node) (r : Committed Node)
    → IsSized c
    → (is_empty_node c ≡ false → ResultOf (NodeSet.new owner) r)
    → IsTask owner (task c r)
task-IsTask owner Node.empty r s d = (Node.empty, [], refl, tt, tt)
task-IsTask owner (Node.short k v f) r s d =
    found_task owner (Node.short k v f) r (λ set n. refl) (d refl)
task-IsTask owner (Node.full k f) r s d =
    found_task owner (Node.full k f) r (λ set n. refl) (d refl)
task-IsTask owner (Node.hash x) r s d = found_task owner (Node.hash x) r (λ set n. refl) (d refl)
task-IsTask owner (Node.value x) r s d = found_task owner (Node.value x) r (λ set n. refl) (d refl)

module _ (list_header : ℕ → List ℕ) (arrange : List NodeSet → List NodeSet) (tracer : TrieTracer)
    (collect_leaf : Bool) where
  mutual
    unfolding commit_internal cache

    serial-Commits :
        {env : TrieEnv} {p : List ℕ} {n : Node} {t : Tree}
        → Represents env p n t
        → IsWf false t
        → IsSized n
        → is_empty_node n ≡ false
        → (path : List ℕ) (set : NodeSet)
        → Commits
            ((cache n).0)
            set
            (commit_internal list_header arrange tracer collect_leaf false path n set)
    serial-Commits empty wf s e path set = cc
    serial-Commits (value v) wf s e path set = elim wf [ ]
    serial-Commits (Represents.hash {h} b f d j rep) wf s e path set =
        (Node.hash h, set, refl, s, refl, λ h q. cc)
    serial-Commits (short {key} {c} {t} {flags} rep) (e', ne, k, wf) (sf, sk, s) e path set =
        clean_or-Commits flags set _ sf (
          commit_short-Commits list_header arrange tracer collect_leaf path key flags none set _ sf
            sk
            (of_full-Commits c set _ s (λ i.
              serial-Commits rep (inner-IsWf rep i e' wf) s (inner-filled c i) (path ++ key) set)))
    serial-Commits (full {cs} {ts} {flags} all) wf (sf, s) e path set =
        clean_or-Commits flags set _ sf (
          commit_full-Commits list_header arrange tracer collect_leaf path flags set _ sf
            (children-CommitsAll all wf s path set))

    children-CommitsAll :
        {env : TrieEnv} {p : List ℕ} {i : ℕ} {cs : Nodes} {ts : Trees}
        → RepresentAll env p i cs ts
        → AreWf i ts
        → AreSized cs
        → (path : List ℕ) (set : NodeSet)
        → CommitsAll set (commit_children list_header arrange tracer collect_leaf i path cs set)
    children-CommitsAll nil w s path set = (Nodes.nil, set, refl, tt, refl)
    children-CommitsAll (cons {i} {c} {cs} {t} {ts} rep reps) w (s, ss) path set =
        elim (Bool-cases (i == 16)) [
          | inl e ↦
              rw (e, commit_children)
                (
                  Nodes.cons (value_child c) Nodes.nil,
                  set,
                  refl,
                  (value_child-IsSized c s, tt),
                  refl,
                )
          | inr e ↦
              rw (e, commit_children)
                (one_child i c set _ _
                  (filled-Result c set _ s (λ f.
                    as_result set (
                      serial-Commits rep (subst (λ b. IsWf b t) e w.0) s f (path ++ (i ∷ [])) set)))
                  (λ set'. children-CommitsAll reps w.1 ss path set'))
        ]

  -- The tasks of the parallel committer.
  abbrev AreTasks : List ℕ → Option (Nodes × List NodeSet) → Type 0
  AreTasks owner o =
      (cs : Nodes) × (sets : List NodeSet) × (o ≡ some (cs, sets))
      × AreSized cs
      × All (OwnedBy owner) sets

  one_task :
      (owner : List ℕ) (here : Option (Node × List NodeSet)) (rest : Option (Nodes × List NodeSet))
      → IsTask owner here
      → AreTasks owner rest
      → AreTasks owner (
          and_then here
            (λ (c', set). and_then rest (λ (cs', sets). some (Nodes.cons c' cs', set ++ sets))))
  one_task owner here rest (n, sets, e, s, a) (cs, sets', e', s', a') = (
    Nodes.cons n cs,
    sets ++ sets',
    rw (e, e') refl,
    (s, s'),
    All-append (OwnedBy owner) sets sets' a a',
  )

  tasks-AreTasks :
      {env : TrieEnv} {p : List ℕ} {i : ℕ} {cs : Nodes} {ts : Trees}
      → RepresentAll env p i cs ts
      → AreWf i ts
      → AreSized cs
      → (path owner : List ℕ)
      → AreTasks owner (commit_tasks list_header arrange tracer collect_leaf i path cs owner)
  unfolding commit_internal
  tasks-AreTasks nil w s path owner = (Nodes.nil, [], refl, tt, tt)
  tasks-AreTasks (cons {i} {c} {cs} {t} {ts} rep reps) w (s, ss) path owner =
      elim (Bool-cases (i == 16)) [
        | inl e ↦
            rw (e, commit_tasks)
              (Nodes.cons (value_child c) Nodes.nil, [], refl, (value_child-IsSized c s, tt), tt)
        | inr e ↦
            rw (e, commit_tasks)
              (one_task owner _ _
                (task-IsTask owner c _ s (λ f. as_result (NodeSet.new owner) (
                  serial-Commits rep (subst (λ b. IsWf b t) e w.0) s f (path ++ (i ∷ []))
                    (NodeSet.new owner))))
                (tasks-AreTasks reps w.1 ss path owner))
      ]

  module _
      (arranged : (owner : List ℕ) (sets : List NodeSet)
        → All (OwnedBy owner) sets
        → All (OwnedBy owner) (arrange sets)) where
    merged-CommitsAll :
        (set : NodeSet) (r : Option (Nodes × List NodeSet))
        → AreTasks set.owner r
        → CommitsAll set (
            and_then r (λ (children, sets).
              and_then (merge_all (arrange sets) set) (λ set'. some (children, set'))))
    merged-CommitsAll set r (cs, sets, e, s, a) =
        let (merged, e', o) = merge_all-owner (arrange sets) set (arranged set.owner sets a) in
        (cs, merged, rw (e, e') refl, s, o)

    -- Also a root that is committed in parallel.
    pub commit_internal-Commits :
        {env : TrieEnv} {p : List ℕ} {n : Node} {t : Tree}
        → Represents env p n t
        → IsWf false t
        → IsSized n
        → is_empty_node n ≡ false
        → (parallel : Bool) (path : List ℕ) (set : NodeSet)
        → Commits
            ((cache n).0)
            set
            (commit_internal list_header arrange tracer collect_leaf parallel path n set)
    unfolding commit_internal cache
    commit_internal-Commits rep wf s e false path set = serial-Commits rep wf s e path set
    commit_internal-Commits (full {cs} {ts} {flags} all) wf s e true path set =
        clean_or-Commits flags set _ s.0 (
          commit_full-Commits list_header arrange tracer collect_leaf path flags set _ s.0
            (merged-CommitsAll set _ (tasks-AreTasks all wf s.1 path set.owner)))
    commit_internal-Commits empty wf s e true path set = cc
    commit_internal-Commits (value v) wf s e true path set = elim wf [ ]
    commit_internal-Commits (Represents.hash b f d j rep) wf s e true path set =
        serial-Commits (Represents.hash b f d j rep) wf s e path set
    commit_internal-Commits (short rep) wf s e true path set =
        serial-Commits (short rep) wf s e path set
