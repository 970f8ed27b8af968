-- ===== src/Program/Chosen.antt =====
-- The store that the settings choose (main.go).
use qa_d.Base.{◌≡◌, refl, Text, text_eq, some, inl, inr, ◌<◌, List, []}
use qa_d.Base.Int64.{modulus}
use qa_d.Proto.{reply}
use qa_d.Storage.Fifo.{new_fifo_storage}
use qa_d.Storage.Fifo.Store.{fifo_storage, run, run-IsSteady}
use qa_d.Storage.Lru.{new_lru_storage}
use qa_d.Storage.Lru.Runs.{lru_storage, run_steps, run_steps-IsSteady}
use qa_d.Storage.NoEviction.{
  no_eviction_storage, new_no_eviction_storage, new_no_eviction_storage-IsValid,
}
use qa_d.Config.{Config, Zerolog, Draw}
use qa_d.Config.Load.{load}
use qa_d.Config.Valid.{IsAlgorithm, load-IsValid}
use qa_d.Program.{AnyStore, choose_store}

-- The new store for an algorithm and a size: it is valid.
abbrev HasStore : {Level : Type 0} → Config Level → Type 1
HasStore cfg = (c : AnyStore) × (choose_store cfg ≡ some c) × c.0.IsValid c.1

choose_store-valid :
    {Level : Type 0} (cfg : Config Level)
    → cfg.storage_size < modulus
    → IsAlgorithm cfg.eviction_algorithm
    → HasStore cfg
unfolding choose_store text_eq run run_steps
choose_store-valid cfg h (inl e) = (
  (fifo_storage, new_fifo_storage cfg.storage_size),
  rw (choose_store, e) refl,
  run-IsSteady cfg.storage_size [] h tt,
)
choose_store-valid cfg h (inr (inl e)) = (
  (lru_storage, new_lru_storage cfg.storage_size),
  rw (choose_store, e) refl,
  run_steps-IsSteady cfg.storage_size [] h tt,
)
choose_store-valid cfg h (inr (inr e)) = (
  (no_eviction_storage, new_no_eviction_storage),
  rw (choose_store, e) refl,
  new_no_eviction_storage-IsValid,
)

-- Settings that `Load` returned choose a store, which is valid: the algorithm is never unknown.
pub loaded_store :
    (z : Zerolog) (program : Text) (args : List Text) (env : List (Text × Text))
    (first second : Draw) (cfg : Config z.Level)
    → load z program args env first second ≡ reply cfg
    → (c : AnyStore) × (choose_store cfg ≡ some c) × c.0.IsValid c.1
loaded_store z program args env first second cfg e =
    let v = load-IsValid z program args env first second cfg e in choose_store-valid cfg v.2 v.4
