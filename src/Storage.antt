-- ===== src/Storage.antt =====
-- storage/index.go: the interface that every store implements, and what its callers may rely on.
pub mod Queue
pub mod Fifo
pub mod Lru
pub mod NoEviction
mod Tests
use qa_d.Base.{
  ℕ, ◌≡◌, ◌⊎◌, Option, none, some, List, Text, text_eq, if◌then◌else◌, length, Assoc, lookup,
}

-- A `[]byte`: `nil`, or a slice, which may be empty.
pub data Slice : Type 0 where
  nil : Slice
  slice : List ℕ → Slice

abbrev pub len : Slice → ℕ
len nil = 0
len (slice bytes) = length bytes

-- `m[k]` on a map of slices: `nil` where the key is missing.
abbrev pub or_nil : Option Slice → Slice
or_nil none = nil
or_nil (some v) = v

-- What a store holds for a key: the hash and the value.
abbrev pub Held : Type 0
Held = Option (ℕ × Slice)

abbrev pub held_value : Held → Slice
held_value none = nil
held_value (some (h, v)) = v

abbrev pub held_hash : Held → Option ℕ
held_hash none = none
held_hash (some (h, v)) = some h

-- The operations of `Storage`, with their contract. A read returns the new state too, since it may
-- note the use of the key, and `tick` is a round of the goroutine of a store that has one. `Room` says that the bytes of the store and of one more value are fewer
-- than the addresses of the machine, so that their number is an `int`.
pub record Storage : Type 1 where
  pub State : Type 0
  pub read : State → Text → Slice × State
  pub write : State → Text → ℕ → Slice → State
  pub delete : State → Text → State
  pub list_keys : State → Assoc ℕ
  pub tick : State → State
  pub IsValid : State → Type 0
  pub Room : State → Slice → Type 0
  pub held : State → Text → Held
  pub read_value : (s : State) (k : Text) → IsValid s → (read s k).0 ≡ held_value (held s k)
  pub read_held : (s : State) (k q : Text) → IsValid s → held (read s k).1 q ≡ held s q
  pub read_valid : (s : State) (k : Text) → IsValid s → IsValid (read s k).1
  pub write_held :
      (s : State) (k : Text) (h : ℕ) (v : Slice) (q : Text)
      → IsValid s
      → Room s v
      → (held (write s k h v) q ≡ none)
        ⊎ (held (write s k h v) q ≡ (if text_eq k q then some (h, v) else held s q))
  pub write_valid :
      (s : State) (k : Text) (h : ℕ) (v : Slice) → IsValid s → Room s v → IsValid (write s k h v)
  pub delete_held :
      (s : State) (k q : Text)
      → IsValid s
      → held (delete s k) q ≡ (if text_eq k q then none else held s q)
  pub delete_valid : (s : State) (k : Text) → IsValid s → IsValid (delete s k)
  pub tick_held : (s : State) (q : Text) → IsValid s → held (tick s) q ≡ held s q
  pub tick_valid : (s : State) → IsValid s → IsValid (tick s)
  pub list_keys_held :
      (s : State) (q : Text) → IsValid s → lookup q (list_keys s) ≡ held_hash (held s q)
