-- ===== src/Storage/Lru/Tests.antt =====
-- Runs of the LRU store at concrete inputs.
use qa_d.Base.{
  ◌≡◌, refl, List, [], ◌∷◌, ◌++◌, Text, codes, text_eq, arith, insert, lookup, delete, some,
}
use qa_d.Base.Int64.{max_zero, add_int, sub_int, gt_int}
use qa_d.Storage.{Slice, slice}
use qa_d.Storage.Queue.{new_entry, find, drop_key, Evicts}
use qa_d.Storage.Fifo.{remove_first}
use qa_d.Storage.Fifo.View.{view}
use qa_d.Storage.Fifo.Store.{IsSteady}
use qa_d.Storage.Lru.{
  LruStorage, new_lru_storage, promote, read, write, put, evict_loop, evict, back, remove_back,
  move_to_front, offer,
}
use qa_d.Storage.Lru.Simulation.{to_fifo}
use qa_d.Storage.Lru.Order.{map_values, back_first}
use qa_d.Storage.Lru.Store.{promote-read, write-Evicts_lru}
use qa_d.Storage.Lru.Runs.{
  Step, read_step, write_step, promote_step, run_steps, StepsFit, run_steps-IsSteady,
}

abbrev a : Text
a = codes "a"

abbrev b : Text
b = codes "b"

abbrev c : Text
c = codes "c"

abbrev bytes_3 : Slice
bytes_3 = slice (1 ∷ 2 ∷ 3 ∷ [])

abbrev bytes_2 : Slice
bytes_2 = slice (4 ∷ 5 ∷ [])

abbrev steps : List Step
steps = write_step a 11 bytes_3 ∷ write_step b 12 bytes_2 ∷ []

abbrev full : LruStorage
full = run_steps steps (new_lru_storage 5)

steps-Fit : StepsFit 5 steps
unfolding max_zero
steps-Fit = (omega arith, (omega arith, tt))

run_steps-IsSteady_example : IsSteady (to_fifo full)
run_steps-IsSteady_example = run_steps-IsSteady 5 steps (omega arith) steps-Fit

-- The same state, for the other tests.
full-IsSteady : IsSteady (to_fifo full)
full-IsSteady = run_steps-IsSteady 5 steps (omega arith) steps-Fit

full-view : view (to_fifo full) ≡ new_entry a 11 bytes_3 ∷ new_entry b 12 bytes_2 ∷ []
unfolding run_steps new_lru_storage write put evict_loop back insert lookup gt_int add_int
    map_values back_first text_eq
full-view = refl

a-held : find a (view (to_fifo full)) ≡ some (11, bytes_3)
unfolding find text_eq
a-held = rw full-view refl

full-idle : full.promo_ch ≡ []
unfolding run_steps new_lru_storage write put evict_loop back insert lookup gt_int add_int text_eq
full-idle = refl

promote-read_example :
    view (to_fifo (promote (read full a).1))
    ≡ drop_key a (view (to_fifo full)) ++ new_entry a 11 bytes_3 ∷ []
promote-read_example = promote-read full full-IsSteady a 11 bytes_3 full-idle a-held

-- A state with a key in the channel.
abbrev asked : LruStorage
asked = record full { promo_ch = a ∷ [] }

write-Evicts_lru_example :
    Evicts full.max_size
      (drop_key c (view (to_fifo full)) ++ new_entry c 13 bytes_2 ∷ [])
      (view (to_fifo (write full c 13 bytes_2)))
write-Evicts_lru_example =
    write-Evicts_lru full full-IsSteady c 13 bytes_2 (rw full-view (omega arith))

-- A read saves "a": the write of "c" evicts "b" in its place.
read_saves :
    view (to_fifo (run_steps (read_step a ∷ promote_step ∷ write_step c 13 bytes_2 ∷ []) full))
    ≡ new_entry a 11 bytes_3 ∷ new_entry c 13 bytes_2 ∷ []
unfolding run_steps new_lru_storage read offer promote move_to_front remove_first write put
    evict_loop evict back remove_back delete insert lookup gt_int add_int sub_int map_values
    back_first text_eq
read_saves = refl
