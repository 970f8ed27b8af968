-- ===== src/Storage/Tests.antt =====
-- Runs of the stores at concrete inputs: a store for five bytes that is full.
use qa_d.Base.{ℕ, ◌+◌, ◌<◌, ◌≡◌, refl, List, [], ◌∷◌, Text, codes, text_eq, arith, insert, lookup}
use qa_d.Base.Int64.{sign, add_int, gt_int, max_zero}
use qa_d.Storage.{Slice, slice}
use qa_d.Storage.Queue.{new_entry, size, Evicts}
use qa_d.Storage.Fifo.{FifoStorage, new_fifo_storage, write, forget_old, evict_loop}
use qa_d.Storage.Fifo.View.{view}
use qa_d.Storage.Fifo.Contract.{queued, write-Evicts, write_oversized}
use qa_d.Storage.Fifo.Store.{IsSteady, Op, write_op, run, Fit, run-IsSteady}

abbrev a : Text
a = codes "a"

abbrev b : Text
b = codes "b"

abbrev c : Text
c = codes "c"

abbrev bytes_3 : Slice
bytes_3 = slice (1 ∷ 2 ∷ 3 ∷ [])

abbrev bytes_2 : Slice
bytes_2 = slice (4 ∷ 5 ∷ [])

abbrev bytes_6 : Slice
bytes_6 = slice (1 ∷ 2 ∷ 3 ∷ 4 ∷ 5 ∷ 6 ∷ [])

abbrev ops : List Op
ops = write_op a 11 bytes_3 ∷ write_op b 12 bytes_2 ∷ []

abbrev full : FifoStorage
full = run ops (new_fifo_storage 5)

ops-Fit : Fit 5 ops
unfolding max_zero
ops-Fit = (omega arith, (omega arith, tt))

run-IsSteady_example : IsSteady full
run-IsSteady_example = run-IsSteady 5 ops (omega arith) ops-Fit

-- The same state, for the other tests.
full-IsSteady : IsSteady full
full-IsSteady = run-IsSteady 5 ops (omega arith) ops-Fit

full-view : view full ≡ new_entry a 11 bytes_3 ∷ new_entry b 12 bytes_2 ∷ []
unfolding run new_fifo_storage write forget_old evict_loop insert lookup gt_int add_int text_eq
full-view = refl

full-limit : full.max_size ≡ 5
unfolding run new_fifo_storage write forget_old evict_loop insert lookup gt_int add_int text_eq
full-limit = refl

has_room : (n : ℕ) → n < 10 → size (view full) + n < sign
has_room n h = rw full-view (omega arith)

write-Evicts_example :
    Evicts full.max_size
      (queued full full-IsSteady.valid c 13 bytes_2 (has_room 2 (omega arith)))
      (view (write full c 13 bytes_2))
write-Evicts_example = write-Evicts full full-IsSteady.valid c 13 bytes_2 (has_room 2 (omega arith))

write_oversized_example : view (write full c 13 bytes_6) ≡ []
write_oversized_example =
    write_oversized full full-IsSteady.valid c 13 bytes_6 (has_room 6 (omega arith))
      (rw full-limit (omega arith))
