-- ===== src/Trie/Ops.antt =====
-- `get_internal`, `insert_internal` and `delete_internal` of state-trie/src/trie.rs, each on fuel.
use rust_eth_triedb.Common.{
  ℕ, zero, suc, ◌+◌, List, [], ◌∷◌, ◌++◌, Bool, true, false, ◌==◌, ltb, if◌then◌else◌, length, take,
  drop, get_elem?, bytes_eq, Option, none, some,
}
use rust_eth_triedb.Encoding.{common_prefix_length}
use rust_eth_triedb.TrieTracer.{on_insert, on_delete}
use rust_eth_triedb.Node.{
  Node, Nodes, NodeFlag, empty, full, short, hash, value, nil, cons, new_flag, get_child, set_child,
  no_children,
}
use rust_eth_triedb.Trie.Monad.{panic, out_of_fuel, M, pure, raise, trace, expect, ◌>>=◌, ◌>>◌}
use rust_eth_triedb.Trie.Resolve.{TrieEnv, resolve, resolve_and_track}

-- `starts_with` on slices.
unfoldable pub starts_with : List ℕ → List ℕ → Bool
starts_with k [] = true
starts_with [] (y ∷ p) = false
starts_with (x ∷ k) (y ∷ p) = let rest = starts_with k p in if x == y then rest else false

-- The result of `get_internal`: the value, the node to keep, and whether a hash was resolved.
abbrev pub Got : Type 0
Got = Option (List ℕ) × Node × Bool

unfoldable pub get_internal : ℕ → TrieEnv → Node → List ℕ → ℕ → M Got
unfolding starts_with resolve_and_track
get_internal zero env node key pos = raise out_of_fuel
get_internal (suc fuel) env empty key pos = pure (none, empty, false)
get_internal (suc fuel) env (value v) key pos = pure (some v, value v, false)
get_internal (suc fuel) env (short skey val flags) key pos =
    let inside : M Got =
      (get_internal fuel env val key (pos + length skey) >>= λ (found, new_child, resolved).
      if resolved
      then pure (found, short skey new_child flags, true)
      else pure (found, short skey val flags, false)) in
    if starts_with (drop pos key) skey then inside else pure (none, short skey val flags, false)
get_internal (suc fuel) env (full cs flags) key pos = do
  nibble ← expect (get_elem? key pos)
  child ← expect (get_child cs nibble)
  (found, new_child, resolved) ← get_internal fuel env child key (pos + 1)
  if resolved
      then (do cs' ← expect (set_child cs nibble new_child); pure (found, full cs' flags, true))
      else pure (found, full cs flags, false)
get_internal (suc fuel) env (hash h) key pos = do
  resolved_node ← resolve_and_track env h (take pos key)
  (found, new_node, resolved) ← get_internal fuel env resolved_node key pos
  pure (found, new_node, true)

-- At the end of the key the value replaces the node, unless it is the value that is there.
unfoldable pub replace_value : Node → Node → Bool × Node
replace_value (value old) (value v) = if bytes_eq old v then (false, value old) else (true, value v)
replace_value (value old) new_node = (true, new_node)
replace_value node new_node = (true, new_node)

-- The slice `key[..n]` and the slice `key[n..]`, which panic if the key is shorter.
unfoldable pub slice_to : ℕ → List ℕ → Option (List ℕ)
slice_to n key = if ltb (length key) n then none else some (take n key)

unfoldable pub slice_from : ℕ → List ℕ → Option (List ℕ)
slice_from n key = if ltb (length key) n then none else some (drop n key)

-- The arm of `insert_internal` for a short node, with the recursive call as `insert'`; the Boolean
-- of a result says whether the node was modified.
module _ (insert' : Node → List ℕ → List ℕ → Node → M (Bool × Node)) where
  -- The whole key of the short node matches.
  unfoldable pub descend_short : List ℕ → List ℕ → Node → NodeFlag → List ℕ → Node → M (Bool × Node)
  descend_short prefix skey child flags key val =
      let matchlen = common_prefix_length key skey in
      insert' child (prefix ++ take matchlen key) (drop matchlen key) val >>= λ (dirty, new_child).
      if dirty
      then pure (true, short skey new_child new_flag)
      else pure (false, short skey child flags)

  -- A branch node takes the rest of the short node and the new key.
  unfoldable pub split_short : List ℕ → List ℕ → Node → List ℕ → Node → M (Bool × Node)
  unfolding slice_to slice_from
  split_short prefix skey child key val =
      let matchlen = common_prefix_length key skey in
      (do
        old_path ← expect (slice_to (matchlen + 1) skey)
        old_rest ← expect (slice_from (matchlen + 1) skey)
        (dirty1, new_child1) ← insert' empty (prefix ++ old_path) old_rest child
        old_nibble ← expect (get_elem? skey matchlen)
        branch1 ← expect (set_child no_children old_nibble new_child1)
        new_path ← expect (slice_to (matchlen + 1) key)
        new_rest ← expect (slice_from (matchlen + 1) key)
        (dirty2, new_child2) ← insert' empty (prefix ++ new_path) new_rest val
        new_nibble ← expect (get_elem? key matchlen)
        branch ← expect (set_child branch1 new_nibble new_child2)
        if matchlen == 0 then pure (true, full branch new_flag) else (do
          trace (on_insert (prefix ++ take matchlen key))
          pure (true, short (take matchlen key) (full branch new_flag) new_flag)))

  unfoldable pub insert_short : List ℕ → List ℕ → Node → NodeFlag → List ℕ → Node → M (Bool × Node)
  unfolding descend_short split_short
  insert_short prefix skey child flags key val =
      if common_prefix_length key skey == length skey
      then descend_short prefix skey child flags key val
      else split_short prefix skey child key val

unfoldable pub insert_internal : ℕ → TrieEnv → Node → List ℕ → List ℕ → Node → M (Bool × Node)
unfolding replace_value insert_short resolve_and_track
insert_internal zero env node prefix key val = raise out_of_fuel
insert_internal (suc fuel) env node prefix [] val = pure (replace_value node val)
insert_internal (suc fuel) env (short skey child flags) prefix (k ∷ ks) val =
    insert_short (insert_internal fuel env) prefix skey child flags (k ∷ ks) val
insert_internal (suc fuel) env (full cs flags) prefix (k ∷ ks) val = do
  child ← expect (get_child cs k)
  (dirty, new_child) ← insert_internal fuel env child (prefix ++ (k ∷ [])) ks val
  if dirty
      then (do cs' ← expect (set_child cs k new_child); pure (true, full cs' new_flag))
      else pure (false, full cs flags)
insert_internal (suc fuel) env empty prefix (k ∷ ks) val = do
  trace (on_insert prefix)
  pure (true, short (k ∷ ks) val new_flag)
insert_internal (suc fuel) env (hash h) prefix (k ∷ ks) val = do
  resolved_node ← resolve_and_track env h prefix
  (dirty, new_node) ← insert_internal fuel env resolved_node prefix (k ∷ ks) val
  if dirty then pure (true, new_node) else pure (false, resolved_node)
insert_internal (suc fuel) env (value v) prefix (k ∷ ks) val = raise panic

-- The position of the child that is left: `non_empty_pos` is -1 before one is found, and -2 once
-- there are several. `non_empty_count` is 1 exactly while the position is not negative.
pub data Occupied : Type 0 where
  none_yet : Occupied
  one : ℕ → Occupied
  several : Occupied

abbrev pub is_empty_node : Node → Bool
is_empty_node empty = true
is_empty_node _ = false

-- The loop over the children from position `i` on; the second child found breaks it.
unfoldable pub scan_children : Nodes → ℕ → Occupied → Occupied
scan_children nil i found = found
scan_children (cons c cs) i found = elim (is_empty_node c) [
  | true ↦ scan_children cs (suc i) found
  | false ↦ elim found [
    | none_yet ↦ scan_children cs (suc i) (one i)
    | one j ↦ several
    | several ↦ several
  ]
]

-- The only child left goes into a short node, which takes over the key of a short child.
unfoldable pub take_over : List ℕ → ℕ → Node → Node → M (Bool × Node)
take_over prefix pos child (short ckey cval cflags) = do
  trace (on_delete (prefix ++ (pos ∷ [])))
  pure (true, short (pos ∷ ckey) cval new_flag)
take_over prefix pos child resolved_child = pure (true, short (pos ∷ []) child new_flag)

abbrev pub collapse_to : TrieEnv → List ℕ → Nodes → Occupied → M (Bool × Node)
collapse_to env prefix cs none_yet = pure (true, full cs new_flag)
collapse_to env prefix cs several = pure (true, full cs new_flag)
collapse_to env prefix cs (one pos) = expect (get_child cs pos) >>= λ child.
    if pos == 16
    then pure (true, short (pos ∷ []) child new_flag)
    else (resolve env child (prefix ++ (pos ∷ [])) >>= take_over prefix pos child)

-- A full node whose child became empty.
unfoldable pub collapse : TrieEnv → List ℕ → Nodes → M (Bool × Node)
unfolding scan_children resolve take_over
collapse env prefix cs = collapse_to env prefix cs (scan_children cs 0 none_yet)

-- A short node whose child was modified: it takes over the key of a short child.
unfoldable pub merge_short : List ℕ → List ℕ → Node → M (Bool × Node)
merge_short prefix skey (short ckey cval cflags) = do
  trace (on_delete (prefix ++ skey))
  pure (true, short (skey ++ ckey) cval new_flag)
merge_short prefix skey new_child = pure (true, short skey new_child new_flag)

-- The arm of `delete_internal` for a short node, with the recursive call as `delete'`.
module _ (delete' : Node → List ℕ → List ℕ → M (Bool × Node)) where
  unfoldable pub delete_short : List ℕ → List ℕ → Node → NodeFlag → List ℕ → M (Bool × Node)
  unfolding merge_short
  delete_short prefix skey child flags key =
      let matchlen = common_prefix_length key skey in
      let descend : M (Bool × Node) =
        (delete' child (prefix ++ take (length skey) key) (drop (length skey) key)
          >>= λ (dirty, new_child).
              if dirty
              then merge_short prefix skey new_child
              else pure (false, short skey child flags)) in
      if ltb matchlen (length skey)
      then pure (false, short skey child flags)
      else if matchlen == length key
      then (do trace (on_delete prefix); pure (true, empty))
      else descend

unfoldable pub delete_internal : ℕ → TrieEnv → Node → List ℕ → List ℕ → M (Bool × Node)
unfolding delete_short collapse resolve_and_track
delete_internal zero env node prefix key = raise out_of_fuel
delete_internal (suc fuel) env (short skey child flags) prefix key =
    delete_short (delete_internal fuel env) prefix skey child flags key
delete_internal (suc fuel) env (full cs flags) prefix [] = raise panic
delete_internal (suc fuel) env (full cs flags) prefix (k ∷ ks) = do
  child ← expect (get_child cs k)
  (dirty, new_child) ← delete_internal fuel env child (prefix ++ (k ∷ [])) ks
  if dirty
      then (do
        cs' ← expect (set_child cs k new_child)
        if is_empty_node new_child then collapse env prefix cs' else pure (true, full cs' new_flag))
      else pure (false, full cs flags)
delete_internal (suc fuel) env (value v) prefix key = pure (true, empty)
delete_internal (suc fuel) env empty prefix key = pure (false, empty)
delete_internal (suc fuel) env (hash h) prefix key = do
  resolved_node ← resolve_and_track env h prefix
  (dirty, new_node) ← delete_internal fuel env resolved_node prefix key
  if dirty then pure (true, new_node) else pure (false, resolved_node)
