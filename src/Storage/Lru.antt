-- ===== src/Storage/Lru.antt =====
-- storage/lru.go. The mutex makes each of `Write`, `Delete`, `ListKeys` and a round of the promoter
-- one step. Each entry has one element of the list from its `PushFront` to its `Remove`, so an
-- element stands here as the key of its entry, and `entry.elem` is the element with that key.
pub mod Order
pub mod Simulation
pub mod Store
pub mod Runs
mod Tests
use qa_d.Base.{
  ℕ, zero, suc, Bool, true, false, List, [], ◌∷◌, ◌++◌, Text, if◌then◌else◌, ltb, length, Option,
  none, some, Assoc, lookup, insert, delete as delete_from,
}
use qa_d.Base.Int64.{add_int, sub_int, gt_int}
use qa_d.Storage.{Slice, nil, len}
use qa_d.Storage.Fifo.{remove_first}

pub record LruEntry : Type 0 where
  pub hash : ℕ
  pub value : Slice

-- The front of the list is the most recent. `promo_ch` is what the channel buffers, the oldest first.
pub record LruStorage : Type 0 where
  pub storage : Assoc LruEntry
  pub list : List Text
  pub max_size : ℕ
  pub cur_size : ℕ
  pub promo_ch : List Text

unfoldable pub new_lru_storage : ℕ → LruStorage
new_lru_storage max_size = record {
  storage = [];
  list = [];
  max_size = max_size;
  cur_size = 0;
  promo_ch = [];
}

-- `list.MoveToFront`, of an element of the list.
unfoldable pub move_to_front : Text → List Text → List Text
move_to_front key list = key ∷ remove_first key list

-- One round of `promoter`, which waits while the channel is empty.
unfoldable pub promote : LruStorage → LruStorage
unfolding move_to_front
promote s = elim s.promo_ch [
  | [] ↦ s
  | key ∷ rest ↦ elim (lookup key s.storage) [
    | none ↦ record s { promo_ch = rest }
    | some entry ↦ record s { promo_ch = rest; list = move_to_front key s.list }
  ]
]

-- The `select` with a `default`: a full channel drops the key.
unfoldable pub offer : Text → List Text → List Text
offer key promo_ch = if ltb (length promo_ch) 512 then promo_ch ++ key ∷ [] else promo_ch

unfoldable pub read : LruStorage → Text → Slice × LruStorage
unfolding offer
read s key = elim (lookup key s.storage) [
  | none ↦ (nil, s)
  | some entry ↦ (entry.value, record s { promo_ch = offer key s.promo_ch })
]

-- `list.Back()`
unfoldable pub back : List Text → Option Text
back [] = none
back (k ∷ []) = some k
back (k ∷ j ∷ ks) = back (j ∷ ks)

-- `list.Remove(list.Back())`
unfoldable pub remove_back : List Text → List Text
remove_back [] = []
remove_back (k ∷ []) = []
remove_back (k ∷ j ∷ ks) = k ∷ remove_back (j ∷ ks)

abbrev pub value_of : Option LruEntry → Slice
value_of none = nil
value_of (some entry) = entry.value

-- One round of the eviction loop, for the element at the back.
unfoldable pub evict : Text → LruStorage → LruStorage
unfolding remove_back
evict key s = record s {
  cur_size = sub_int s.cur_size (len (value_of (lookup key s.storage)));
  storage = delete_from key s.storage;
  list = remove_back s.list;
}

-- The eviction loop. A round takes an element off the list, so as many rounds as it has elements
-- are enough.
unfoldable pub evict_loop : ℕ → LruStorage → LruStorage
unfolding back evict
evict_loop zero s = s
evict_loop (suc rounds) s = elim (back s.list) [
  | none ↦ s
  | some key ↦
      let rest = evict_loop rounds (evict key s) in if gt_int s.cur_size s.max_size then rest else s
]

-- `Write` up to the eviction.
unfoldable pub put : LruStorage → Text → ℕ → Slice → LruStorage
unfolding move_to_front
put s key hash value =
    let entry : LruEntry = record { hash = hash; value = value } in
    elim (lookup key s.storage) [
      | some old ↦ record s {
        cur_size = add_int (sub_int s.cur_size (len old.value)) (len value);
        storage = insert key entry s.storage;
        list = move_to_front key s.list;
      }
      | none ↦ record s {
        cur_size = add_int s.cur_size (len value);
        storage = insert key entry s.storage;
        list = key ∷ s.list;
      }
    ]

unfoldable pub write : LruStorage → Text → ℕ → Slice → LruStorage
unfolding put evict_loop
write s key hash value = let t = put s key hash value in evict_loop (length t.list) t

unfoldable pub delete : LruStorage → Text → LruStorage
delete s key = elim (lookup key s.storage) [
  | none ↦ s
  | some entry ↦ record s {
    cur_size = sub_int s.cur_size (len entry.value);
    list = remove_first key s.list;
    storage = delete_from key s.storage;
  }
]

-- The loop of `ListKeys` from the front to the back of the list.
unfoldable pub collect : Assoc LruEntry → List Text → Assoc ℕ → Assoc ℕ
collect storage [] keys = keys
collect storage (k ∷ ks) keys = elim (lookup k storage) [
  | none ↦ collect storage ks keys
  | some entry ↦ collect storage ks (insert k entry.hash keys)
]

unfoldable pub list_keys : LruStorage → Assoc ℕ
unfolding collect
list_keys s = collect s.storage s.list []
