-- ===== src/Storage/NoEviction.antt =====
-- storage/no_eviction.go: a store with no limit. Its `maxSize` is never read.
use qa_d.Base.{
  ℕ, ◌≡◌, refl, [], Text, text_eq, if◌then◌else◌, arith, inr, Option, none, some, Assoc, lookup,
  insert, delete as delete_from, lookup-insert, lookup-delete, is_some,
}
use qa_d.Storage.{Slice, or_nil, Held, held_value, held_hash, Storage}

pub record NoEvictionStorage : Type 0 where
  pub storage : Assoc Slice
  pub hashes : Assoc ℕ
  pub max_size : ℕ

unfoldable pub new_no_eviction_storage : NoEvictionStorage
new_no_eviction_storage = record { storage = []; hashes = []; max_size = 0 }

unfoldable pub read : NoEvictionStorage → Text → Slice
read s key = or_nil (lookup key s.storage)

unfoldable pub write : NoEvictionStorage → Text → ℕ → Slice → NoEvictionStorage
write s key hash value = record s {
  storage = insert key value s.storage;
  hashes = insert key hash s.hashes;
}

unfoldable pub delete : NoEvictionStorage → Text → NoEvictionStorage
delete s key = record s { storage = delete_from key s.storage; hashes = delete_from key s.hashes }

unfoldable pub list_keys : NoEvictionStorage → Assoc ℕ
list_keys s = s.hashes

-- The two maps have the same keys.
pub record IsValid (s : NoEvictionStorage) : Type 0 where
  pub hashed : (k : Text) → is_some (lookup k s.hashes) ≡ is_some (lookup k s.storage)

-- The hash and the value of a key that both maps hold.
abbrev pub pair : Option ℕ → Option Slice → Held
pair (some h) (some v) = some (h, v)
pair none _ = none
pair (some h) none = none

abbrev pub held : NoEvictionStorage → Text → Held
held s k = pair (lookup k s.hashes) (lookup k s.storage)

pub new_no_eviction_storage-IsValid : IsValid new_no_eviction_storage
unfolding new_no_eviction_storage lookup
new_no_eviction_storage-IsValid = record { hashed = λ _. refl }

module _ (s : NoEvictionStorage) (v : IsValid s) where
  pub read-held : (k : Text) → read s k ≡ held_value (held s k)
  unfolding read
  read-held k = ground (arith, v.hashed k)

  pub list_keys-held : (q : Text) → lookup q (list_keys s) ≡ held_hash (held s q)
  unfolding list_keys
  list_keys-held q = ground (arith, v.hashed q)

  pub delete-held : (k q : Text) → held (delete s k) q ≡ (if text_eq k q then none else held s q)
  unfolding delete
  delete-held k q = ground (arith, lookup-delete q k s.storage, lookup-delete q k s.hashes)

  pub delete-IsValid : (k : Text) → IsValid (delete s k)
  unfolding delete
  delete-IsValid k = record {
    hashed =
        λ q. ground (arith, v.hashed q, lookup-delete q k s.storage, lookup-delete q k s.hashes);
  }

  pub write-IsValid : (k : Text) (h : ℕ) (value : Slice) → IsValid (write s k h value)
  unfolding write
  write-IsValid k h value = record {
    hashed = λ q.
        ground (arith, v.hashed q, lookup-insert q k value s.storage, lookup-insert q k h s.hashes);
  }

-- A write gives its key the hash and the value, and every other key keeps its own: none is evicted.
pub write-held :
    (s : NoEvictionStorage) (k : Text) (h : ℕ) (value : Slice) (q : Text)
    → held (write s k h value) q ≡ (if text_eq k q then some (h, value) else held s q)
unfolding write
write-held s k h value q =
    ground (arith, lookup-insert q k value s.storage, lookup-insert q k h s.hashes)

abbrev pub no_eviction_storage : Storage
no_eviction_storage = record {
  State = NoEvictionStorage;
  read = λ s k. (read s k, s);
  write = write;
  delete = delete;
  list_keys = list_keys;
  tick = λ s. s;
  IsValid = IsValid;
  Room = λ s v. Unit;
  held = held;
  read_value = λ s k v. read-held s v k;
  read_held = λ s k q v. refl;
  read_valid = λ s k v. v;
  write_held = λ s k h v q _ _. inr (write-held s k h v q);
  write_valid = λ s k h value v _. write-IsValid s v k h value;
  delete_held = λ s k q v. delete-held s v k q;
  delete_valid = λ s k v. delete-IsValid s v k;
  tick_held = λ s q v. refl;
  tick_valid = λ s v. v;
  list_keys_held = λ s q v. list_keys-held s v q;
}
