-- ===== src/Program/Life.antt =====
-- What holds at every point of the life of a node, and that nothing that is asked of it stops it.
use qa_d.Base.{
  ℕ, ◌≡◌, ◌≢◌, sym, subst, ◌∙◌, Bool, Bool-cases, true, false, List, [], Option, none, some, Text,
  text_eq, ◌==◌, ok, ok_injective, inl, inr,
}
use qa_d.Proto.{Key, KeyValuePair}
use qa_d.Storage.{Storage}
use qa_d.Metadata.{NodeMeta}
use qa_d.GrpcPool.{Grpc, Pool}
use qa_d.GrpcPool.Connections.{IsValid as PoolIsValid}
use qa_d.GrpcPool.Kept.{get_connection-IsValid}
use qa_d.GrpcPool.Clients.{Errors, pool_peers, get_client}
use qa_d.GrpcServer
use qa_d.GrpcServer.{is_nil}
use qa_d.HttpServer.{Request, Session}
use qa_d.HttpServer.Handlers.{serve_http}
use qa_d.HttpServer.Total.{hash_ring_of, serve_http_total}
use qa_d.HttpServer.Kept.{serve_http-keeps, run_task-keeps}
use qa_d.EventHandler.{Cluster}
use qa_d.EventHandler.Events.{Event, IsOrderly, IsSound, handle, handle-IsSound, members_after}
use qa_d.Config.{Zerolog}
use qa_d.Manager.{Memberlist, cluster_of}
use qa_d.Program.{Servers, Surroundings, Running, running, start}
use qa_d.Program.Startup.{IsStart, start-IsStart}
use qa_d.Program.Node.{
  Node, session, PairFits, Step, event_step, request_step, task_step, tick_step, read_step,
  write_step, Reachable, at_start, after,
}

module _ (store : Storage) where
  read-valid :
      (s : store.State) (cancelled : Bool) (key : Option Key)
      → store.IsValid s
      → store.IsValid (GrpcServer.read store s cancelled key).1
  unfolding GrpcServer.read
  read-valid s true key v = v
  read-valid s false none v = v
  read-valid s false (some k) v = elim (Bool-cases (text_eq k.key [])) [
    | inl empty ↦ rw (GrpcServer.read, empty) v
    | inr given ↦ rw (GrpcServer.read, given) (store.read_valid s k.key v)
  ]

  write-valid :
      (s : store.State) (cancelled : Bool) (pair : Option KeyValuePair)
      → store.IsValid s
      → PairFits store s pair
      → store.IsValid (GrpcServer.write store s cancelled pair).1
  unfolding GrpcServer.write
  write-valid s true pair v fit = v
  write-valid s false none v fit = v
  write-valid s false (some p) v fit = elim (Bool-cases (text_eq p.key [])) [
    | inl empty ↦ rw (GrpcServer.write, empty) v
    | inr given ↦ elim (Bool-cases (is_nil p.value)) [
      | inl absent ↦ rw (GrpcServer.write, given, absent) v
      | inr there ↦ elim (Bool-cases (p.hash == 0)) [
        | inl zero_hash ↦ rw (GrpcServer.write, given, there, zero_hash) v
        | inr hashed ↦
            rw (GrpcServer.write, given, there, hashed)
              (store.write_valid s p.key p.hash p.value v fit)
      ]
    ]
  ]

module _ (g : Grpc) (store : Storage) (errors : Errors g) (local : Text) (sum64 : Text → ℕ)
    (unmarshal : List ℕ → Option NodeMeta) (grpc_port : ℕ) where
  abbrev NodeStep : Node g store → Node g store → Type 0
  NodeStep n m = Step g store errors local sum64 unmarshal grpc_port n m

  abbrev NodeReachable : Node g store → Node g store → Type 0
  NodeReachable n m = Reachable g store errors local sum64 unmarshal grpc_port n m

  abbrev World : Type 0
  World = Pool g.Conn × g.World

  abbrev HasPool : World → Type 0
  HasPool w = PoolIsValid g.Conn w.0

  get_client-HasPool :
      (w : World) (n : Text) → HasPool w → HasPool ((pool_peers g errors).get_client w n).1
  unfolding get_client
  get_client-HasPool w n v = get_connection-IsValid g w.0 w.1 n v

  step-IsSound :
      (n m : Node g store)
      → IsSound g store local sum64 n.cluster
      → NodeStep n m
      → IsSound g store local sum64 m.cluster
  step-IsSound n m s (event_step e c o run) =
      let (d, same, nodes, sound) =
        handle-IsSound g store local sum64 unmarshal grpc_port n.cluster e s o in
      subst (IsSound g store local sum64) (ok_injective (sym same ∙ run)) sound
  step-IsSound n m s (request_step port r y run) =
      let kept =
        serve_http-keeps store (pool_peers g errors) (hash_ring_of sum64 n.cluster.ring) local
          HasPool get_client-HasPool (λ w c k v. v) (λ w c p v. v) r _ y
          (s.store_valid, s.pool_valid) run in
      record {
        ring_valid = s.ring_valid;
        store_valid = kept.0;
        pool_valid = kept.1;
        member = s.member;
      }
  step-IsSound n m s (task_step before later t e fit) =
      let kept =
        run_task-keeps store (pool_peers g errors) (hash_ring_of sum64 n.cluster.ring) local HasPool
          get_client-HasPool (λ w c k v. v) (λ w c p v. v) t n.cluster.local
          (n.cluster.pool, n.cluster.world) s.store_valid s.pool_valid fit in
      record {
        ring_valid = s.ring_valid;
        store_valid = kept.0;
        pool_valid = kept.1;
        member = s.member;
      }
  step-IsSound n m s tick_step = record {
    ring_valid = s.ring_valid;
    pool_valid = s.pool_valid;
    store_valid = store.tick_valid n.cluster.local s.store_valid;
    member = s.member;
  }
  step-IsSound n m s (read_step cancelled key) = record {
    ring_valid = s.ring_valid;
    pool_valid = s.pool_valid;
    store_valid = read-valid store n.cluster.local cancelled key s.store_valid;
    member = s.member;
  }
  step-IsSound n m s (write_step cancelled pair fit) = record {
    ring_valid = s.ring_valid;
    pool_valid = s.pool_valid;
    store_valid = write-valid store n.cluster.local cancelled pair s.store_valid fit;
    member = s.member;
  }

  -- At every point of the life of a node that started soundly, in whatever order its handlers were called,
  -- the ring, the pool and the store are valid and the ring has the node.
  pub reachable-IsSound :
      (n m : Node g store)
      → IsSound g store local sum64 n.cluster
      → NodeReachable n m
      → IsSound g store local sum64 m.cluster
  reachable-IsSound n m s at_start = s
  reachable-IsSound n m s (after k _ r step) = step-IsSound k m (reachable-IsSound n k s r) step

  -- Until the end of its life a node that started soundly answers every request that has a path, with a
  -- status, and follows every orderly event: no handler panics.
  pub reachable-answers :
      (n m : Node g store) (r : Request) (e : Event)
      → IsSound g store local sum64 n.cluster
      → NodeReachable n m
      → r.path ≢ []
      → IsOrderly local m.cluster.ring.nodes e
      → ((y : Session store.State World) × (serve_http store
              (pool_peers g errors)
              (some (hash_ring_of sum64 m.cluster.ring))
              local
              r
              (session g store errors local sum64 unmarshal grpc_port m)
            ≡ ok y)
          × (code : ℕ) × (y.writer.status ≡ some code))
        × ((c : Cluster g store) × (handle g store local sum64 unmarshal grpc_port m.cluster e
              ≡ ok c)
            × (c.ring.nodes ≡ members_after local m.cluster.ring.nodes e))
  reachable-answers n m r e s reach path orderly =
      let sound = reachable-IsSound n m s reach in
      let (c, run, nodes, _) =
        handle-IsSound g store local sum64 unmarshal grpc_port m.cluster e sound orderly in
      (
        serve_http_total store (pool_peers g errors) sum64 m.cluster.ring local r
            (session g store errors local sum64 unmarshal grpc_port m) sound.ring_valid path,
        (c, run, nodes),
      )

-- The node that `main` starts, when its servers run.
abbrev pub first_node :
    {Level : Type 0} (g : Grpc) (m : Memberlist g.World) (r : Running Level m.Handle g.Conn)
    → g.World
    → Node g r.store.0
first_node g m r w = record { cluster = cluster_of g m r.store.0 r.manager r.store.1 w; tasks = [] }

-- A node that `main` started, with servers that run, answers every request that has a path with a status,
-- whatever happened to it since.
pub started-answers :
    (z : Zerolog) (g : Grpc) (m : Memberlist g.World) (servers : Servers g.World) (sum64 : Text → ℕ)
    (errors : Errors g) (unmarshal : List ℕ → Option NodeMeta) (s : Surroundings) (w w₁ : g.World)
    (r : Running z.Level m.Handle g.Conn) (n : Node g r.store.0) (request : Request)
    → start z g m servers sum64 s w ≡ ok (running r w₁)
    → Reachable g r.store.0 errors r.cfg.node_name sum64 unmarshal r.cfg.grpc_port
        (first_node g m r w₁)
        n
    → request.path ≢ []
    → (y : Session r.store.0.State (Pool g.Conn × g.World)) × (serve_http r.store.0
          (pool_peers g errors)
          (some (hash_ring_of sum64 n.cluster.ring))
          r.cfg.node_name
          request
          (session g r.store.0 errors r.cfg.node_name sum64 unmarshal r.cfg.grpc_port n)
        ≡ ok y)
      × (code : ℕ) × (y.writer.status ≡ some code)
started-answers z g m servers sum64 errors unmarshal s w w₁ r n request run reach path =
    let (o, same, is) = start-IsStart z g m servers sum64 s w in
    let ready = subst (IsStart z g m servers sum64) (ok_injective (sym same ∙ run)) is in
    let sound =
      reachable-IsSound g r.store.0 errors r.cfg.node_name sum64 unmarshal r.cfg.grpc_port
        (first_node g m r w₁) n ready.2 reach in
    serve_http_total r.store.0 (pool_peers g errors) sum64 n.cluster.ring r.cfg.node_name request _
      sound.ring_valid path
