-- ===== src/Program.antt =====
-- main.go: the start of a node, phase by phase, and its shutdown. `log.Fatal` ends the process.
mod Chosen
mod Startup
mod Serving
mod Node
mod Life
mod Origin
mod Sent
mod Addresses
mod Tests
use qa_d.Base.{
  ℕ, Bool, true, false, not, ◌||◌, ◌&&◌, List, [], ◌∷◌, ◌++◌, Option, none, some, Text, codes,
  text_eq, if◌then◌else◌, Outcome, ok, panic, ◌>>=◌, Assoc,
}
use qa_d.Base.Decimal.{sprint}
use qa_d.Proto.{Reply, reply, fail}
use qa_d.Storage.{Storage}
use qa_d.Storage.Fifo.{new_fifo_storage}
use qa_d.Storage.Fifo.Store.{fifo_storage}
use qa_d.Storage.Lru.{new_lru_storage}
use qa_d.Storage.Lru.Runs.{lru_storage}
use qa_d.Storage.NoEviction.{new_no_eviction_storage, no_eviction_storage}
use qa_d.Config.{Config, ConfigError, Zerolog, Draw, fifo, lru, no_eviction}
use qa_d.Config.Load.{load}
use qa_d.GrpcPool.{Grpc}
use qa_d.Manager.{Memberlist, Manager, ManagerError, new_manager, join, leave}

-- A store with its operations.
abbrev pub AnyStore : Type 1
AnyStore = (store : Storage) × store.State

-- Phase 3: the store for the eviction algorithm, `none` being an unknown one.
unfoldable pub choose_store : {Level : Type 0} → Config Level → Option AnyStore
choose_store cfg =
    if text_eq cfg.eviction_algorithm fifo
    then some (fifo_storage, new_fifo_storage cfg.storage_size)
    else if text_eq cfg.eviction_algorithm lru
    then some (lru_storage, new_lru_storage cfg.storage_size)
    else if text_eq cfg.eviction_algorithm no_eviction
    then some (no_eviction_storage, new_no_eviction_storage)
    else none

-- What the process finds when it starts: its arguments and variables, what `os.Stdout.Stat` returns
-- (whether it is a device, or an error), the draws of the name, and the address of `getOutboundIP`.
pub record Surroundings : Type 0 where
  pub program : Text
  pub args : List Text
  pub env : Assoc Text
  pub stdout : Reply Text Bool
  pub first : Draw
  pub second : Draw
  pub outbound : Option Text

-- The ends of the process before the servers run.
pub data Fatal (MemberlistError ListenError : Type 0) : Type 0 where
  failed_to_inspect_stdout : Text → Fatal MemberlistError ListenError
  failed_to_load_config : ConfigError → Fatal MemberlistError ListenError
  unknown_algorithm : Text → Fatal MemberlistError ListenError
  failed_to_start_manager : ManagerError MemberlistError → Fatal MemberlistError ListenError
  failed_to_join_cluster : ManagerError MemberlistError → Fatal MemberlistError ListenError
  failed_to_listen : ListenError → Fatal MemberlistError ListenError

-- What the sources use of `net` and of the two servers, over the state of the network. `graceful_stop`
-- is false where the shutdown had to be cut short after 30 seconds.
pub record Servers (World : Type 0) : Type 1 where
  pub Listener : Type 0
  pub Error : Type 0
  pub listen : World → Text → Reply Error Listener × World
  pub serve_grpc : World → Listener → World
  pub serve_http : World → Text → World
  pub shutdown_http : World → Option Error × World
  pub graceful_stop : World → Bool × World
  pub stop : World → World

-- A node whose two servers run.
pub record Running (Level Handle Conn : Type 0) : Type 1 where
  pub cfg : Config Level
  pub store : AnyStore
  pub manager : Manager Level Handle Conn

module _ (z : Zerolog) (g : Grpc) (m : Memberlist g.World) (servers : Servers g.World) where
  -- The end of the start: the process ended, or the servers run.
  pub data Started : Type 1 where
    fatal : Fatal m.Error servers.Error → g.World → Started
    running : Running z.Level m.Handle g.Conn → g.World → Started

  -- Phases 6 and 7, for what `net.Listen` returns.
  unfoldable pub after_listen :
      Running z.Level m.Handle g.Conn → g.World → Reply servers.Error servers.Listener → Started
  after_listen r w (fail e) = fatal (failed_to_listen e) w
  after_listen r w (reply listener) =
      running r
        (servers.serve_http (servers.serve_grpc w listener) (codes ":" ++ sprint r.cfg.http_port))

  -- Phase 5, for what `Join` returns.
  unfoldable pub after_join :
      Running z.Level m.Handle g.Conn → g.World → Option (ManagerError m.Error) → Started
  unfolding after_listen
  after_join r w (some e) = fatal (failed_to_join_cluster e) w
  after_join r w none =
      let (answer, w₁) = servers.listen w (codes ":" ++ sprint r.cfg.grpc_port) in
      after_listen r w₁ answer

  -- Phase 4, for what `NewManager` returns.
  unfoldable pub after_manager :
      Config z.Level
      → AnyStore
      → Reply (ManagerError m.Error) (Manager z.Level m.Handle g.Conn)
      → g.World
      → Started
  unfolding after_join
  after_manager cfg store (fail e) w = fatal (failed_to_start_manager e) w
  after_manager cfg store (reply mgr) w =
      let (error, w₁) = join g m mgr w in
      after_join (record { cfg = cfg; store = store; manager = mgr }) w₁ error

  module _ (sum64 : Text → ℕ) where
    -- Phase 3, for the store that was chosen.
    unfoldable pub after_store :
        Surroundings → Config z.Level → Option AnyStore → g.World → Outcome Started
    unfolding after_manager
    after_store s cfg none w = ok (fatal (unknown_algorithm cfg.eviction_algorithm) w)
    after_store s cfg (some store) w =
        new_manager g m sum64 cfg s.outbound w >>= λ r. ok (after_manager cfg store r.0 r.1)

    -- Phase 2, for what `config.Load` returns.
    unfoldable pub after_config :
        Surroundings → Reply ConfigError (Config z.Level) → g.World → Outcome Started
    unfolding after_store choose_store
    after_config s (fail e) w = ok (fatal (failed_to_load_config e) w)
    after_config s (reply cfg) w = after_store s cfg (choose_store cfg) w

    -- `main` up to the signal. The logging of phase 1 is left out, except for its error.
    unfoldable pub start : Surroundings → g.World → Outcome Started
    unfolding after_config
    start s w = elim s.stdout [
      | fail e ↦ ok (fatal (failed_to_inspect_stdout e) w)
      | reply device ↦ after_config s (load z s.program s.args s.env s.first s.second) w
    ]

  -- `main` from the signal on: errors are only logged, so that every step is made.
  unfoldable pub shutdown :
      Running z.Level m.Handle g.Conn
      → g.World
      → Option (ManagerError m.Error) × Manager z.Level m.Handle g.Conn × g.World
  shutdown r w =
      let (error, w₁) = servers.shutdown_http w in
      let (stopped, w₂) = servers.graceful_stop w₁ in
      leave g m r.manager (if stopped then w₂ else servers.stop w₂)
