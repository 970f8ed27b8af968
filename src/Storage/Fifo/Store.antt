-- ===== src/Storage/Fifo/Store.antt =====
-- `FIFOStorage` as a `Storage`, and the states that a run of the program can reach.
use qa_d.Base.{ℕ, ◌+◌, ◌<◌, ◌≤◌, ◌≡◌, refl, ◌∙◌, List, [], ◌∷◌, Text, arith}
use qa_d.Base.Int64.{sign, modulus, max_zero}
use qa_d.Storage.{Slice, len, Storage}
use qa_d.Storage.Queue.{size, find}
use qa_d.Storage.Fifo.{FifoStorage, read, write, delete, list_keys, new_fifo_storage}
use qa_d.Storage.Fifo.View.{view}
use qa_d.Storage.Fifo.Valid.{IsValid, new_fifo_storage-IsValid}
use qa_d.Storage.Fifo.Update.{write-trim, delete-drop_key, write-limit, delete-limit}
use qa_d.Storage.Fifo.Contract.{
  read-find, list_keys-find, delete-find, delete-size, write-Evicts, write-find,
}

-- Between two operations the values are within the limit, or gone where that is negative.
pub record IsSteady (s : FifoStorage) : Type 0 where
  pub valid : IsValid s
  pub within : size (view s) ≤ max_zero s.max_size

-- The limit and one more value are fewer bytes than there are addresses.
abbrev pub HasRoom : FifoStorage → Slice → Type 0
HasRoom s value = max_zero s.max_size + len value < sign

module _ (s : FifoStorage) (st : IsSteady s) where
  pub write-IsSteady :
      (key : Text) (hash : ℕ) (value : Slice) → HasRoom s value → IsSteady (write s key hash value)
  write-IsSteady key hash value room =
      let r : size (view s) + len value < sign = omega (arith, st.within) in
      record {
        valid = (write-trim s key hash value st.valid r).1;
        within = rw write-limit ((write-Evicts s st.valid key hash value r).fits);
      }

  pub delete-IsSteady : (key : Text) → IsSteady (delete s key)
  delete-IsSteady key = record {
    valid = (delete-drop_key s key st.valid).1;
    within = rw delete-limit (omega (arith, delete-size s st.valid key, st.within));
  }

-- A call that changes the store.
pub data Op : Type 0 where
  write_op : Text → ℕ → Slice → Op
  delete_op : Text → Op

unfoldable pub run : List Op → FifoStorage → FifoStorage
run [] s = s
run (write_op key hash value ∷ ops) s = run ops (write s key hash value)
run (delete_op key ∷ ops) s = run ops (delete s key)

-- No value of a run is too long for the machine.
abbrev pub Fit : ℕ → List Op → Type 0
Fit max [] = Unit
Fit max (write_op key hash value ∷ ops) = (max_zero max + len value < sign) × Fit max ops
Fit max (delete_op key ∷ ops) = Fit max ops

run-keeps :
    (ops : List Op) (s : FifoStorage) (max : ℕ)
    → IsSteady s
    → s.max_size ≡ max
    → Fit max ops
    → IsSteady (run ops s)
unfolding run
run-keeps [] s max st e f = st
run-keeps (write_op key hash value ∷ ops) s max st e f =
    run-keeps ops (write s key hash value) max (write-IsSteady s st key hash value (rw e f.0))
      (write-limit s key hash value ∙ e) f.1
run-keeps (delete_op key ∷ ops) s max st e f =
    run-keeps ops (delete s key) max (delete-IsSteady s st key) (delete-limit s key ∙ e) f

-- After any run of writes and deletions on a new store, the limit and each value together being
-- fewer than 2 ^ 63 bytes, the order and the two maps hold the same keys, each once,
-- `curSize` is the number of stored bytes, and this is at most the limit, or 0 where that is
-- negative.
pub run-IsSteady :
    (max : ℕ) (ops : List Op)
    → max < modulus
    → Fit max ops
    → IsSteady (run ops (new_fifo_storage max))
unfolding new_fifo_storage
run-IsSteady max ops h f =
    run-keeps ops (new_fifo_storage max) max
      (record { valid = new_fifo_storage-IsValid max h; within = omega arith }) refl f

abbrev pub fifo_storage : Storage
fifo_storage = record {
  State = FifoStorage;
  read = λ s k. (read s k, s);
  write = write;
  delete = delete;
  list_keys = list_keys;
  tick = λ s. s;
  IsValid = IsSteady;
  Room = HasRoom;
  held = λ s k. find k (view s);
  read_value = λ s k st. read-find s st.valid k;
  read_held = λ s k q st. refl;
  read_valid = λ s k st. st;
  write_held = λ s k h v q st room. write-find s st.valid k h v (omega (arith, st.within)) q;
  write_valid = λ s k h v st room. write-IsSteady s st k h v room;
  delete_held = λ s k q st. delete-find s st.valid k q;
  delete_valid = λ s k st. delete-IsSteady s st k;
  tick_held = λ s q st. refl;
  tick_valid = λ s st. st;
  list_keys_held = λ s q st. list_keys-find s st.valid q;
}
