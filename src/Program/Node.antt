-- ===== src/Program/Node.antt =====
-- A running node: the handlers of the event delegate, of the HTTP server with its goroutines, and of the
-- gRPC service work on one ring, pool and store, each call as one step (main.go puts them together).
use qa_d.Base.{ℕ, ◌≡◌, Bool, List, ◌∷◌, ◌++◌, Option, none, some, Text, ok}
use qa_d.Proto.{Key, KeyValuePair}
use qa_d.Storage.{Storage}
use qa_d.Metadata.{NodeMeta}
use qa_d.GrpcPool.{Grpc}
use qa_d.GrpcPool.Clients.{Errors, pool_peers}
use qa_d.HttpServer.{Request, HashRing, Task, Session}
use qa_d.HttpServer.Response.{new_writer}
use qa_d.HttpServer.Handlers.{run_task}
use qa_d.HttpServer.Total.{hash_ring_of}
use qa_d.HttpServer.Kept.{TaskFits}
use qa_d.Program.Serving.{new_grpc_server, new_http_server}
use qa_d.EventHandler.{Cluster}
use qa_d.EventHandler.Events.{Event, IsOrderly, handle}

-- What the event handler works on, and the goroutines that were started and did not run yet.
pub record Node (g : Grpc) (store : Storage) : Type 0 where
  pub cluster : Cluster g store
  pub tasks : List Task

-- There is room for the value of a pair.
abbrev pub PairFits : (store : Storage) → store.State → Option KeyValuePair → Type 0
PairFits store s none = Unit
PairFits store s (some pair) = store.Room s pair.value

module _ (g : Grpc) (store : Storage) (errors : Errors g) (local : Text) (sum64 : Text → ℕ)
    (unmarshal : List ℕ → Option NodeMeta) (grpc_port : ℕ) where
  abbrev pub ring_of : Node g store → Option HashRing
  ring_of n = some (hash_ring_of sum64 n.cluster.ring)

  -- A request finds the state of the node and no response yet.
  abbrev pub session : Node g store → Session store.State (pool_peers g errors).World
  session n = record {
    local = n.cluster.local;
    world = (n.cluster.pool, n.cluster.world);
    tasks = n.tasks;
    writer = new_writer;
  }

  abbrev pub with_state :
      Node g store → store.State → (pool_peers g errors).World → List Task → Node g store
  with_state n s w tasks = record {
    cluster = record n.cluster { local = s; pool = w.0; world = w.1 };
    tasks = tasks;
  }

  -- The steps: an event of the cluster, a request, a goroutine that was started, a round of the
  -- goroutine of the store, and the two calls that other nodes make.
  pub data Step (n : Node g store) : Node g store → Type 0 where
    event_step :
        (e : Event) (c : Cluster g store)
        → IsOrderly local n.cluster.ring.nodes e
        → handle g store local sum64 unmarshal grpc_port n.cluster e ≡ ok c
        → Step n (record n { cluster = c })
    request_step :
        (http_port : ℕ) (r : Request) (y : Session store.State (pool_peers g errors).World)
        → (new_http_server store (pool_peers g errors) sum64 n.cluster.ring local http_port).handler
            r
            (session n)
          ≡ ok y
        → Step n (with_state n y.local y.world y.tasks)
    task_step :
        (before after : List Task) (t : Task)
        → n.tasks ≡ before ++ t ∷ after
        → TaskFits store n.cluster.local t
        → Step n (
            let r =
              run_task store
                (pool_peers g errors)
                (ring_of n)
                local
                t
                n.cluster.local
                (n.cluster.pool, n.cluster.world) in
            with_state n r.0 r.1 (before ++ after))
    tick_step :
        Step n (record n { cluster = record n.cluster { local = store.tick n.cluster.local } })
    read_step :
        (cancelled : Bool) (key : Option Key)
        → Step n (record n {
          cluster = record n.cluster {
            local = ((new_grpc_server store).read n.cluster.local cancelled key).1;
          };
        })
    write_step :
        (cancelled : Bool) (pair : Option KeyValuePair)
        → PairFits store n.cluster.local pair
        → Step n (record n {
          cluster = record n.cluster {
            local = ((new_grpc_server store).write n.cluster.local cancelled pair).1;
          };
        })

  -- What any number of steps reaches.
  pub data Reachable (start : Node g store) : Node g store → Type 0 where
    at_start : Reachable start start
    after : (n m : Node g store) → Reachable start n → Step n m → Reachable start m

  -- What is reached by steps of which each has a property.
  pub data Along (Q : (n m : Node g store) → Step n m → Type 0) (start : Node g store)
      : Node g store → Type 0 where
    not_yet : Along Q start start
    then_step :
        (n m : Node g store) → Along Q start n → (step : Step n m) → Q n m step → Along Q start m

  pub Along-Reachable :
      (Q : (n m : Node g store) → Step n m → Type 0) (start n : Node g store)
      → Along Q start n
      → Reachable start n
  Along-Reachable Q start n not_yet = at_start
  Along-Reachable Q start n (then_step k _ f step h) = after k n (Along-Reachable Q start k f) step

  pub Along-map :
      (Q R : (n m : Node g store) → Step n m → Type 0)
      → ((n m : Node g store) (step : Step n m) → Q n m step → R n m step)
      → (start n : Node g store) → Along Q start n
      → Along R start n
  Along-map Q R h start n not_yet = not_yet
  Along-map Q R h start n (then_step k _ f step q) =
      then_step k n (Along-map Q R h start k f) step (h k n step q)
