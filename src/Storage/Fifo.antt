-- ===== src/Storage/Fifo.antt =====
-- storage/fifo.go. The mutex makes each of `Write` and `Delete` one step.
pub mod View
pub mod Valid
pub mod Update
pub mod Contract
pub mod Store
use qa_d.Base.{
  ℕ, ◌≡◌, Bool, true, false, List, [], ◌∷◌, ◌++◌, Text, text_eq, if◌then◌else◌, Option, none, some,
  Assoc, lookup, insert, delete as delete_from,
}
use qa_d.Base.Int64.{add_int, sub_int, gt_int}
use qa_d.Storage.{Slice, nil, len, or_nil}

pub record FifoStorage : Type 0 where
  pub storage : Assoc Slice
  pub hashes : Assoc ℕ
  pub order : List Text
  pub max_size : ℕ
  pub cur_size : ℕ

unfoldable pub new_fifo_storage : ℕ → FifoStorage
new_fifo_storage max_size = record {
  storage = [];
  hashes = [];
  order = [];
  max_size = max_size;
  cur_size = 0;
}

unfoldable pub read : FifoStorage → Text → Slice
read s key = or_nil (lookup key s.storage)

-- The loop that takes a key out of the order, up to its `break`.
unfoldable pub remove_first : Text → List Text → List Text
remove_first key [] = []
remove_first key (k ∷ ks) = if text_eq k key then ks else k ∷ remove_first key ks

-- The eviction loop, on the order that is left.
unfoldable pub evict_loop : List Text → FifoStorage → FifoStorage
evict_loop [] s = record s { order = [] }
evict_loop (oldest ∷ rest) s = elim (gt_int s.cur_size s.max_size) [
  | false ↦ record s { order = oldest ∷ rest }
  | true ↦ evict_loop rest (record s {
    order = rest;
    cur_size = sub_int s.cur_size (len (or_nil (lookup oldest s.storage)));
    storage = delete_from oldest s.storage;
    hashes = delete_from oldest s.hashes;
  })
]

-- The first part of `Write`: an old value of the key is taken off the size and out of the order.
unfoldable pub forget_old : FifoStorage → Text → FifoStorage
unfolding remove_first
forget_old s key = elim (lookup key s.storage) [
  | none ↦ s
  | some old ↦ record s {
    cur_size = sub_int s.cur_size (len old);
    order = remove_first key s.order;
  }
]

unfoldable pub write : FifoStorage → Text → ℕ → Slice → FifoStorage
unfolding forget_old evict_loop
write s key hash value =
    let t = forget_old s key in
    let u : FifoStorage = record t {
      order = t.order ++ key ∷ [];
      storage = insert key value t.storage;
      hashes = insert key hash t.hashes;
      cur_size = add_int t.cur_size (len value);
    } in
    evict_loop u.order u

unfoldable pub delete : FifoStorage → Text → FifoStorage
unfolding remove_first
delete s key = elim (lookup key s.storage) [
  | none ↦ s
  | some old ↦ record s {
    cur_size = sub_int s.cur_size (len old);
    storage = delete_from key s.storage;
    hashes = delete_from key s.hashes;
    order = remove_first key s.order;
  }
]

unfoldable pub list_keys : FifoStorage → Assoc ℕ
list_keys s = s.hashes
