-- ===== src/Program/Startup.antt =====
-- How the start of a node ends (main.go).
use qa_d.Base.Decimal.{sprint}
use qa_d.Base.{
  codes, ◌++◌, ℕ, ◌≡◌, refl, ◌∙◌, Bool, [], ◌∷◌, Option, none, some, Text, ok, ◌>>=◌, inl, inr,
}
use qa_d.Proto.{Reply, reply, fail, Reply-cases}
use qa_d.Config.{Config, ConfigError, Zerolog}
use qa_d.Config.Load.{load}
use qa_d.Config.Valid.{IsValid, load-IsValid}
use qa_d.GrpcPool.{Grpc}
use qa_d.GrpcPool.Connections.{new_pool-IsValid}
use qa_d.EventHandler.Events.{IsSound}
use qa_d.Manager.{Memberlist, ManagerError, created, new_manager, settings_of, join, cluster_of}
use qa_d.Manager.Start.{
  new_manager-first, first_manager, first_ring-add_node, first_ring-IsValid, first_ring-nodes,
  self_known,
}
use qa_d.Program.{
  AnyStore, Surroundings, Servers, Running, failed_to_inspect_stdout, failed_to_load_config,
  unknown_algorithm, failed_to_start_manager, failed_to_join_cluster, failed_to_listen, Started,
  fatal, running, after_listen, after_join, after_manager, after_store, after_config, start,
  choose_store,
}
use qa_d.Program.Chosen.{loaded_store}

module _ (z : Zerolog) (g : Grpc) (m : Memberlist g.World) (servers : Servers g.World)
    (sum64 : Text → ℕ) where
  -- A running node: its settings are valid, its ring is the one with this node alone, and ring, pool and
  -- store are valid.
  abbrev pub IsReady : Running z.Level m.Handle g.Conn → g.World → Type 0
  IsReady r w =
      IsValid r.cfg
      × (r.manager.hash_ring.nodes ≡ r.cfg.node_name ∷ [])
      × IsSound g r.store.0 r.cfg.node_name sum64 (cluster_of g m r.store.0 r.manager r.store.1 w)

  -- The algorithm is never unknown.
  abbrev pub IsStart : Started z g m servers → Type 0
  IsStart (fatal (failed_to_inspect_stdout e) w) = Unit
  IsStart (fatal (failed_to_load_config e) w) = Unit
  IsStart (fatal (unknown_algorithm t) w) = ⊥
  IsStart (fatal (failed_to_start_manager e) w) = Unit
  IsStart (fatal (failed_to_join_cluster e) w) = Unit
  IsStart (fatal (failed_to_listen e) w) = Unit
  IsStart (running r w) = IsReady r w

  first_manager-IsReady :
      (cfg : Config z.Level) (store : AnyStore) (list : m.Handle) (w : g.World)
      → IsValid cfg
      → store.0.IsValid store.1
      → IsReady (record { cfg = cfg; store = store; manager = first_manager g m sum64 cfg list }) w
  first_manager-IsReady cfg store list w v s = (
    v,
    first_ring-nodes sum64 cfg.node_name,
    record {
      ring_valid = first_ring-IsValid sum64 cfg.node_name;
      pool_valid = new_pool-IsValid g;
      store_valid = s;
      member = rw (first_ring-nodes sum64 cfg.node_name) (self_known sum64 cfg.node_name);
    },
  )

  after_listen-IsStart :
      (r : Running z.Level m.Handle g.Conn) (w : g.World)
      (answer : Reply servers.Error servers.Listener)
      → ((w' : g.World) → IsReady r w')
      → IsStart (after_listen z g m servers r w answer)
  unfolding after_listen
  after_listen-IsStart r w (fail e) h = tt
  after_listen-IsStart r w (reply l) h = h _

  after_join-IsStart :
      (r : Running z.Level m.Handle g.Conn) (w : g.World) (error : Option (ManagerError m.Error))
      → ((w' : g.World) → IsReady r w')
      → IsStart (after_join z g m servers r w error)
  unfolding after_join
  after_join-IsStart r w (some e) h = tt
  after_join-IsStart r w none h = after_listen-IsStart r _ _ h

  after_manager-IsStart :
      (cfg : Config z.Level) (store : AnyStore) (answer : Reply m.Error m.Handle) (w : g.World)
      → IsValid cfg
      → store.0.IsValid store.1
      → (o : Started z g m servers) × ((created g m sum64 cfg w answer >>= λ r.
            ok (after_manager z g m servers cfg store r.0 r.1))
          ≡ ok o)
        × IsStart o
  unfolding created after_manager
  after_manager-IsStart cfg store (fail e) w v s = (_, refl, tt)
  after_manager-IsStart cfg store (reply list) w v s = (
    after_manager z g m servers cfg store (reply (first_manager g m sum64 cfg list)) w,
    rw (created, first_ring-add_node sum64 cfg.node_name) refl,
    after_join-IsStart _ _ _ (λ w'. first_manager-IsReady cfg store list w' v s),
  )

  after_config-IsStart :
      (s : Surroundings) (loaded : Reply ConfigError (Config z.Level)) (w : g.World)
      → load z s.program s.args s.env s.first s.second ≡ loaded
      → (o : Started z g m servers) × (after_config z g m servers sum64 s loaded w ≡ ok o)
        × IsStart o
  unfolding after_config after_store new_manager
  after_config-IsStart s (fail e) w h = (_, refl, tt)
  after_config-IsStart s (reply cfg) w h =
      let (store, chosen, valid) = loaded_store z s.program s.args s.env s.first s.second cfg h in
      let settings = load-IsValid z s.program s.args s.env s.first s.second cfg h in
      let (o, run, is) =
        after_manager-IsStart cfg store (m.create w (settings_of g m cfg s.outbound)).0
          (m.create w (settings_of g m cfg s.outbound)).1 settings valid in
      (o, rw (after_config, chosen) run, is)

  pub start-IsStart :
      (s : Surroundings) (w : g.World)
      → (o : Started z g m servers) × (start z g m servers sum64 s w ≡ ok o) × IsStart o
  unfolding start
  start-IsStart s w = elim (Reply-cases s.stdout) [
    | inl (e, bad) ↦ (fatal (failed_to_inspect_stdout e) w, rw (start, bad) refl, tt)
    | inr (device, good) ↦
        let loaded = load z s.program s.args s.env s.first s.second in
        let opened : start z g m servers sum64 s w ≡ after_config z g m servers sum64 s loaded w =
          rw (start, good) refl in
        let (o, run, is) = after_config-IsStart s loaded w refl in (o, opened ∙ run, is)
  ]

  -- Where the standard output can be inspected, the settings are loaded, `memberlist` is created, the seed
  -- nodes are reached and the port of gRPC is free, the servers run, with the manager of this node alone
  -- and the store that the settings choose.
  pub start-running :
      (s : Surroundings) (w w₁ w₂ w₃ : g.World) (device : Bool) (cfg : Config z.Level)
      (store : AnyStore) (list : m.Handle) (listener : servers.Listener)
      → s.stdout ≡ reply device
      → load z s.program s.args s.env s.first s.second ≡ reply cfg
      → choose_store cfg ≡ some store
      → m.create w (settings_of g m cfg s.outbound) ≡ (reply list, w₁)
      → join g m (first_manager g m sum64 cfg list) w₁ ≡ (none, w₂)
      → servers.listen w₂ (codes ":" ++ sprint cfg.grpc_port) ≡ (reply listener, w₃)
      → start z g m servers sum64 s w
        ≡ ok (
            running
              (record { cfg = cfg; store = store; manager = first_manager g m sum64 cfg list })
              (servers.serve_http
                (servers.serve_grpc w₃ listener)
                (codes ":" ++ sprint cfg.http_port)))
  unfolding start after_config after_store after_manager after_join after_listen
  start-running s w w₁ w₂ w₃ device cfg store list listener stdout loaded chosen made joined
        listens =
      rw
        (
          start,
          stdout,
          loaded,
          chosen,
          new_manager-first g m sum64 cfg s.outbound w w₁ list made,
          joined,
          listens,
        )
        refl
