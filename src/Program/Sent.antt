-- ===== src/Program/Sent.antt =====
-- Where the values of a node come from: a client or another node sent each of them.
use qa_d.Base.{
  ℕ, ◌≡◌, sym, subst, ap, Bool, Bool-cases, true, false, List, Option, none, some, Text, text_eq,
  ◌⊎◌, inl, inr, All, ok, >>=-inverse, ok_injective, if◌then◌else◌,
}
use qa_d.Storage.{Storage, Slice, slice}
use qa_d.Metadata.{NodeMeta}
use qa_d.Ring.{ConsistentHashRing, node_of, remove_node}
use qa_d.GrpcPool.{Grpc, Pool}
use qa_d.GrpcPool.Clients.{Errors, pool_peers}
use qa_d.HttpServer.{Method, Request, Task, Session}
use qa_d.HttpServer.Handlers.{serve_http, run_task, get_local, get_remote}
use qa_d.HttpServer.Handled.{key_of, post_task, serve_http-Good}
use qa_d.HttpServer.Kept.{TaskFits}
use qa_d.HttpServer.Total.{hash_ring_of}
use qa_d.EventHandler.{Cluster, notify_leave, notify_update}
use qa_d.EventHandler.Delivery.{notify_join-IsSafe}
use qa_d.EventHandler.Events.{Event, join_of, leave_of, update_of, IsSound, handle}
use qa_d.Program.Node.{
  Node, Step, event_step, request_step, task_step, tick_step, read_step, write_step, Along, not_yet,
  then_step, Along-Reachable,
}
use qa_d.Program.Life.{reachable-IsSound}
use qa_d.Program.Origin.{
  TaskHas, PairHas, PostHas, HeldHas, AllHeld, unchanged, written, deleted, read-AllHeld,
  write-AllHeld, All-insert, All-snoc, node_of-hash,
}

module _ (g : Grpc) (store : Storage) (errors : Errors g) (local : Text) (sum64 : Text → ℕ)
    (unmarshal : List ℕ → Option NodeMeta) (grpc_port : ℕ) (P : Text → ℕ → Slice → Type 0) where
  abbrev NodeStep : Node g store → Node g store → Type 0
  NodeStep n m = Step g store errors local sum64 unmarshal grpc_port n m

  -- What a step brings into the node has been sent.
  abbrev pub WasSent : (n m : Node g store) → NodeStep n m → Type 0
  WasSent n m (event_step e c o run) = Unit
  WasSent n m (request_step port r y run) = PostHas P sum64 (key_of r.path) r.method r.body
  WasSent n m (task_step before later t e fit) = Unit
  WasSent n m tick_step = Unit
  WasSent n m (read_step cancelled key) = Unit
  WasSent n m (write_step cancelled pair fit) = PairHas P pair

  -- What is reached by steps that bring in only what was sent.
  abbrev pub Fed : Node g store → Node g store → Type 0
  Fed start n = Along g store errors local sum64 unmarshal grpc_port WasSent start n

  handle-held :
      (c d : Cluster g store) (e : Event)
      → store.IsValid c.local
      → handle g store local sum64 unmarshal grpc_port c e ≡ ok d
      → (q : Text) → (store.held d.local q ≡ store.held c.local q) ⊎ (store.held d.local q ≡ none)
  unfolding handle notify_leave notify_update
  handle-held c d (join_of node keys) v run q =
      elim (notify_join-IsSafe g store local sum64 unmarshal grpc_port c d node keys q v run) [
        | inl same ↦ inl same
        | inr gone ↦ inr gone.0
      ]
  handle-held c d (leave_of node) v run q = elim (Bool-cases (text_eq node.name local)) [
    | inl self ↦
        let same : c ≡ d = ok_injective (rw (notify_leave, self) at run) in
        inl (ap (λ z. store.held z.local q) (sym same))
    | inr other ↦
        let (ring, removed, same) =
          >>=-inverse (remove_node c.ring node.name) _ (rw (notify_leave, other) at run) in
        inl (ap (λ z. store.held z.local q) (sym (ok_injective same)))
  ]
  handle-held c d (update_of node) v run q =
      inl (ap (λ z. store.held z.local q) (sym (ok_injective run)))

  abbrev pub HasOrigin : Node g store → Type 0
  HasOrigin n = AllHeld P store n.cluster.local × All (TaskHas P) n.tasks

  post_task-TaskHas :
      (r : Request) (c : ConsistentHashRing) (key : Text) (hash : ℕ) (target : Text) (body : List ℕ)
      → PostHas P sum64 (key_of r.path) r.method r.body
      → key ≡ key_of r.path
      → r.method ≡ Method.post
      → r.body ≡ some body
      → node_of sum64 c key ≡ ok (hash, target)
      → TaskHas P (post_task local key hash target body)
  post_task-TaskHas r c key hash target body sent k m b found = go (text_eq target local)
    where
      posted : PostHas P sum64 (key_of r.path) Method.post (some body)
      posted =
          subst (λ o. PostHas P sum64 (key_of r.path) Method.post o) b
            (subst (λ w. PostHas P sum64 (key_of r.path) w r.body) m sent)

      go :
          (here : Bool)
          → TaskHas P (
              if here
              then Task.write_value key hash (slice body)
              else Task.forward_post target key hash (slice body))
      go true =
          subst (λ h. P key h (slice body)) (node_of-hash sum64 c key found)
            (subst (λ z. P z (sum64 z) (slice body)) (sym k) posted)
      go false = tt

  abbrev GoodRun : Session store.State (Pool g.Conn × g.World) → Type 0
  GoodRun x = store.IsValid x.local × AllHeld P store x.local × All (TaskHas P) x.tasks

  get_local-GoodRun :
      (c : ConsistentHashRing) (key : Text) (x : Session store.State (Pool g.Conn × g.World))
      → GoodRun x
      → GoodRun (get_local store (pool_peers g errors) (some (hash_ring_of sum64 c)) local key x)
  unfolding get_local
  get_local-GoodRun c key x h = (
    store.read_valid x.local key h.0,
    unchanged P store x.local _ (λ q. inl (store.read_held x.local key q h.0)) h.1,
    h.2,
  )

  get_remote-GoodRun :
      (c : ConsistentHashRing) (target key : Text) (x : Session store.State (Pool g.Conn × g.World))
      → GoodRun x
      → GoodRun
          (get_remote store (pool_peers g errors) (some (hash_ring_of sum64 c)) local target key x)
  unfolding get_remote
  get_remote-GoodRun c target key x h = h

  serve_http-GoodRun :
      (c : ConsistentHashRing) (r : Request) (x y : Session store.State (Pool g.Conn × g.World))
      → PostHas P sum64 (key_of r.path) r.method r.body
      → GoodRun x
      → serve_http store (pool_peers g errors) (some (hash_ring_of sum64 c)) local r x ≡ ok y
      → GoodRun y
  serve_http-GoodRun c r x y sent h run =
      serve_http-Good store (pool_peers g errors) (hash_ring_of sum64 c) local r GoodRun
        (λ w z k. k) (get_local-GoodRun c) (get_remote-GoodRun c)
        (λ key z k. (k.0, k.1, All-snoc P z.tasks (Task.delete_value key) k.2 tt))
        (λ key hash target body z e m b found k. (
          k.0,
          k.1,
          All-snoc P z.tasks (post_task local key hash target body) k.2
              (post_task-TaskHas r c key hash target body sent e m b found),
        ))
        x y h run

  run_task-AllHeld :
      (c : ConsistentHashRing) (t : Task) (s : store.State) (w : Pool g.Conn × g.World)
      → store.IsValid s
      → TaskFits store s t
      → TaskHas P t
      → AllHeld P store s
      → AllHeld P store
          (run_task store (pool_peers g errors) (some (hash_ring_of sum64 c)) local t s w).0
  unfolding run_task
  run_task-AllHeld c (Task.write_value key hash value) s w v fit p a =
      written P store s key hash value v fit p a
  run_task-AllHeld c (Task.forward_post node key hash value) s w v fit p a = a
  run_task-AllHeld c (Task.delete_value key) s w v fit p a = deleted P store s key v a

  step-HasOrigin :
      (n m : Node g store) (step : NodeStep n m)
      → IsSound g store local sum64 n.cluster
      → WasSent n m step
      → HasOrigin n
      → HasOrigin m
  step-HasOrigin n m (event_step e c o run) s sent (a, ts) = (
    unchanged P store n.cluster.local c.local (handle-held n.cluster c e s.store_valid run) a,
    ts,
  )
  step-HasOrigin n m (request_step port r y run) s sent (a, ts) =
      let (valid, held, tasks) =
        serve_http-GoodRun n.cluster.ring r _ y sent (s.store_valid, a, ts) run in
      (held, tasks)
  step-HasOrigin n m (task_step before later t e fit) s sent (a, ts) =
      let (p, rest) = All-insert P before later t (subst (All (TaskHas P)) e ts) in
      (run_task-AllHeld n.cluster.ring t n.cluster.local _ s.store_valid fit p a, rest)
  step-HasOrigin n m tick_step s sent (a, ts) = (
    unchanged P store n.cluster.local _ (λ q. inl (store.tick_held n.cluster.local q s.store_valid))
        a,
    ts,
  )
  step-HasOrigin n m (read_step cancelled key) s sent (a, ts) =
      (read-AllHeld P store n.cluster.local cancelled key s.store_valid a, ts)
  step-HasOrigin n m (write_step cancelled pair fit) s sent (a, ts) =
      (write-AllHeld P store n.cluster.local cancelled pair s.store_valid fit sent a, ts)

  Fed-HasOrigin :
      (n m : Node g store)
      → IsSound g store local sum64 n.cluster
      → HasOrigin n
      → Fed n m
      → HasOrigin m
  Fed-HasOrigin n m s o not_yet = o
  Fed-HasOrigin n m s o (then_step k _ f step sent) =
      step-HasOrigin k m step
        (reachable-IsSound g store errors local sum64 unmarshal grpc_port n k s
          (Along-Reachable g store errors local sum64 unmarshal grpc_port WasSent n k f))
        sent (Fed-HasOrigin n k s o f)

  -- A node holds no value that nobody sent: whatever a node holds that started soundly, with only sent
  -- values, was sent with its hash for its key, by a client in the body of a `POST` whose path has the
  -- key, or by another node in a call of `Write`.
  pub held_was_sent :
      (n m : Node g store) (q : Text) (hash : ℕ) (value : Slice)
      → IsSound g store local sum64 n.cluster
      → HasOrigin n
      → Fed n m
      → store.held m.cluster.local q ≡ some (hash, value)
      → P q hash value
  held_was_sent n m q hash value s o f e = subst (HeldHas P q) e ((Fed-HasOrigin n m s o f).0 q)
