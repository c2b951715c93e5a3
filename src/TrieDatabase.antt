-- ===== src/TrieDatabase.antt =====
-- common/src/traits.rs: the trait `TrieDatabase`, what the tries and `TrieDB` ask of a database.
use rust_eth_triedb.Common.{ℕ, List, Bool, Option, Result}
use rust_eth_triedb.DiffLayer.{DiffLayer}

-- The methods take `&self`; a cache or the data behind it may be another one after the call.
-- `latest_persist_state` may panic, which is `none`.
pub record TrieDatabase : Type 1 where
  pub State : Type 0
  pub Error : Type 0
  pub get_trie_node : List ℕ → State → Result Error (Option (List ℕ)) × State
  pub insert_trie_node : List ℕ → List ℕ → State → Result Error (Unit {0}) × State
  pub contains_trie_node : List ℕ → State → Result Error Bool × State
  pub remove_trie_node : List ℕ → State → State
  pub get_storage_root : List ℕ → State → Result Error (Option (List ℕ)) × State
  pub commit_difflayer : ℕ → List ℕ → Option DiffLayer → State → Result Error (Unit {0}) × State
  pub latest_persist_state : State → Option (Result Error (ℕ × List ℕ) × State)
  pub clear_cache : State → State
