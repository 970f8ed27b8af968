-- ===== src/GrpcServer/Tests.antt =====
-- Runs of the service over a store for five bytes.
use qa_d.Base.{◌≡◌, ◌≢◌, ◌↔◌, false, [], ◌∷◌, some, codes}
use qa_d.Storage.{slice}
use qa_d.Storage.Fifo.{FifoStorage, new_fifo_storage}
use qa_d.Storage.Fifo.Store.{fifo_storage}
use qa_d.Proto.{KeyValuePair, void, reply}
use qa_d.GrpcServer.{write}
use qa_d.GrpcServer.Behaviour.{IsAccepted, write_lem}

abbrev empty_store : FifoStorage
empty_store = new_fifo_storage 5

abbrev pair : KeyValuePair
pair = record { key = codes "a"; hash = 11; value = slice (1 ∷ 2 ∷ []) }

write_lem_example :
    (((write fifo_storage empty_store false (some pair)).0 ≡ reply void)
      ↔ ((false ≡ false) × IsAccepted pair))
    × ((write fifo_storage empty_store false (some pair)).0 ≡ reply void
        → (write fifo_storage empty_store false (some pair)).1
          ≡ fifo_storage.write empty_store pair.key pair.hash pair.value)
    × ((write fifo_storage empty_store false (some pair)).0 ≢ reply void
        → (write fifo_storage empty_store false (some pair)).1 ≡ empty_store)
write_lem_example = write_lem fifo_storage empty_store false pair
