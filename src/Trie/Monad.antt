-- ===== src/Trie/Monad.antt =====
-- The effects of the trie's recursive functions: errors, panics, and the mutable tracer. A call
-- that fails keeps what the tracer recorded before.
use rust_eth_triedb.Common.{Option, none, some, Result, ok, err}
use rust_eth_triedb.TrieTracer.{TrieTracer}

-- `SecureTrieError`, without the text of its messages.
pub data SecureTrieError : Type 0 where
  database rlp node_not_found invalid_node already_committed invalid_account invalid_storage :
      SecureTrieError

-- `panic` stands for any panic of the source: an index or a slice out of range, `unwrap`, `panic!`.
-- `out_of_fuel` is not one of the program's outcomes.
pub data Fault : Type 0 where
  fault : SecureTrieError → Fault
  panic : Fault
  out_of_fuel : Fault

abbrev pub M : Type 0 → Type 0
M A = TrieTracer → Result Fault A × TrieTracer

abbrev pub pure : {A : Type 0} → A → M A
pure a tr = (ok a, tr)

abbrev pub raise : {A : Type 0} → Fault → M A
raise e tr = (err e, tr)

abbrev pub bind :
    {A B : Type 0} → Result Fault A × TrieTracer → (A → M B) → Result Fault B × TrieTracer
bind (ok a, tr) f = f a tr
bind (err e, tr) f = (err e, tr)

infixl 5 ◌>>=◌ ◌>>◌
abbrev pub ◌>>=◌ : {A : Type 0} {B : Type 0} → M A → (A → M B) → M B
◌>>=◌ first next tr = bind (first tr) next

abbrev pub ◌>>◌ : {B : Type 0} → M (Unit {0}) → M B → M B
first >> second = first >>= λ _. second

-- A call of a method of the tracer.
abbrev pub trace : (TrieTracer → TrieTracer) → M (Unit {0})
trace f tr = (ok tt, f tr)

-- A computation that does not touch the tracer.
abbrev pub lift : {A : Type 0} → Result Fault A → M A
lift r tr = (r, tr)

-- An access that panics out of range.
abbrev pub expect : {A : Type 0} → Option A → M A
expect none tr = (err panic, tr)
expect (some a) tr = (ok a, tr)
