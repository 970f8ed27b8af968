-- ===== src/Program/Addresses.antt =====
-- Where a node calls the others: the addresses in its pool, from the settings of the other nodes
-- (cluster/membership.go) over their metadata (cluster/delegate.go, cluster/node_meta.go) and `NotifyJoin`
-- (cluster/event_handler.go) to the pool (cluster/grpc_pool.go).
use qa_d.Base.{
  ℕ, ◌≤◌, ◌≡◌, ◌≢◌, subst, Bool-cases, List, [], ◌++◌, codes, Option, none, some, Text, text_eq,
  inl, inr, ok, ok_injective, >>=-inverse,
}
use qa_d.Base.Decimal.{sprint}
use qa_d.Proto.{Reply, reply, fail}
use qa_d.Storage.{Storage}
use qa_d.Metadata.{NodeMeta, unmarshal, node_meta_data, MetaError}
use qa_d.Ring.{remove_node}
use qa_d.GrpcPool.{Grpc, Pool}
use qa_d.GrpcPool.Addresses.{
  IsGiven, get_connection-IsGiven, add_connection-IsGiven, remove_connection-IsGiven,
}
use qa_d.GrpcPool.Clients.{Errors, pool_peers, get_client}
use qa_d.HttpServer.Kept.{serve_http-keeps, run_task-keeps}
use qa_d.HttpServer.Total.{hash_ring_of}
use qa_d.EventHandler.{Node as Peer, Cluster, notify_leave, notify_update}
use qa_d.EventHandler.Kept.{address_for, notify_join-Good}
use qa_d.EventHandler.Events.{Event, join_of, leave_of, update_of, IsSound, handle}
use qa_d.Config.{Config}
use qa_d.Manager.{Memberlist, settings_of, get_outbound_ip}
use qa_d.Program.Node.{
  Node, Step, event_step, request_step, task_step, tick_step, read_step, write_step, Along, not_yet,
  then_step, Along-Reachable,
}
use qa_d.Program.Life.{reachable-IsSound}

module _ (g : Grpc) (store : Storage) (errors : Errors g) (local : Text) (sum64 : Text → ℕ)
    (decode : List ℕ → Option NodeMeta) (grpc_port : ℕ) (Q : Text → Text → Type 0) where
  abbrev NodeStep : Node g store → Node g store → Type 0
  NodeStep n m = Step g store errors local sum64 decode grpc_port n m

  -- A node that joins is given the address that is taken for it.
  abbrev pub IsAnnounced : Event → Type 0
  IsAnnounced (join_of node keys) = Q node.name (address_for grpc_port node (decode node.meta))
  IsAnnounced (leave_of node) = Unit
  IsAnnounced (update_of node) = Unit

  abbrev pub WasAnnounced : (n m : Node g store) → NodeStep n m → Type 0
  WasAnnounced n m (event_step e c o run) = IsAnnounced e
  WasAnnounced n m (request_step port r y run) = Unit
  WasAnnounced n m (task_step before later t e fit) = Unit
  WasAnnounced n m tick_step = Unit
  WasAnnounced n m (read_step cancelled key) = Unit
  WasAnnounced n m (write_step cancelled pair fit) = Unit

  handle-IsGiven :
      (c d : Cluster g store) (e : Event)
      → IsAnnounced e
      → store.IsValid c.local
      → IsGiven g Q c.pool
      → handle g store local sum64 decode grpc_port c e ≡ ok d
      → IsGiven g Q d.pool
  unfolding handle notify_leave notify_update
  handle-IsGiven c d (join_of node keys) q v i run =
      (notify_join-Good g store local (IsGiven g Q) Q (get_connection-IsGiven g Q)
        (add_connection-IsGiven g Q) sum64 decode grpc_port c d node keys q i v run).0
  handle-IsGiven c d (leave_of node) q v i run = elim (Bool-cases (text_eq node.name local)) [
    | inl self ↦
        let same : c ≡ d = ok_injective (rw (notify_leave, self) at run) in
        subst (λ z. IsGiven g Q z.pool) same i
    | inr other ↦
        let (ring, removed, same) =
          >>=-inverse (remove_node c.ring node.name) _ (rw (notify_leave, other) at run) in
        subst (λ z. IsGiven g Q z.pool) (ok_injective same)
          (remove_connection-IsGiven g Q c.pool c.world node.name i)
  ]
  handle-IsGiven c d (update_of node) q v i run =
      subst (λ z. IsGiven g Q z.pool) (ok_injective run) i

  abbrev HasPool : Pool g.Conn × g.World → Type 0
  HasPool w = IsGiven g Q w.0

  get_client-HasPool :
      (w : Pool g.Conn × g.World) (n : Text)
      → HasPool w
      → HasPool ((pool_peers g errors).get_client w n).1
  unfolding get_client
  get_client-HasPool w n v = get_connection-IsGiven g Q w.0 w.1 n v

  step-IsGiven :
      (n m : Node g store) (step : NodeStep n m)
      → IsSound g store local sum64 n.cluster
      → WasAnnounced n m step
      → IsGiven g Q n.cluster.pool
      → IsGiven g Q m.cluster.pool
  step-IsGiven n m (event_step e c o run) s q i = handle-IsGiven n.cluster c e q s.store_valid i run
  step-IsGiven n m (request_step port r y run) s q i =
      (serve_http-keeps store (pool_peers g errors) (hash_ring_of sum64 n.cluster.ring) local
        HasPool get_client-HasPool (λ w c k v. v) (λ w c p v. v) r _ y (s.store_valid, i) run).1
  step-IsGiven n m (task_step before later t e fit) s q i =
      (run_task-keeps store (pool_peers g errors) (hash_ring_of sum64 n.cluster.ring) local HasPool
        get_client-HasPool (λ w c k v. v) (λ w c p v. v) t n.cluster.local
        (n.cluster.pool, n.cluster.world) s.store_valid i fit).1
  step-IsGiven n m tick_step s q i = i
  step-IsGiven n m (read_step cancelled key) s q i = i
  step-IsGiven n m (write_step cancelled pair fit) s q i = i

  -- Along steps that give each node that joins its address, the pool has given addresses alone.
  pub Along-IsGiven :
      (n m : Node g store)
      → IsSound g store local sum64 n.cluster
      → IsGiven g Q n.cluster.pool
      → Along g store errors local sum64 decode grpc_port WasAnnounced n m
      → IsGiven g Q m.cluster.pool
  Along-IsGiven n m s i not_yet = i
  Along-IsGiven n m s i (then_step k _ f step q) =
      step-IsGiven k m step
        (reachable-IsSound g store errors local sum64 decode grpc_port n k s
          (Along-Reachable g store errors local sum64 decode grpc_port WasAnnounced n k f))
        q (Along-IsGiven n k s i f)

-- `Unmarshal` as `NotifyJoin` uses it, which only asks whether there is an error.
abbrev pub decoded_by : {E : Type 0} → Reply (MetaError E) NodeMeta → Option NodeMeta
decoded_by (fail e) = none
decoded_by (reply meta) = some meta

abbrev pub read_meta :
    {E : Type 0}
    → (NodeMeta → Reply E (List ℕ))
    → (List ℕ → Reply E NodeMeta)
    → List ℕ
    → Option NodeMeta
read_meta encode decode json = decoded_by (unmarshal encode decode json)

-- A peer of this name serves gRPC at this address.
abbrev pub ServesAt :
    {Level : Type 0} → (Config Level → Option Text → Type 0) → Text → Text → Type 0
ServesAt {Level} IsPeer name addr =
    (cfg : Config Level) × (outbound : Option Text) × IsPeer cfg outbound
    × (name ≡ cfg.node_name)
    × (addr ≡ get_outbound_ip outbound ++ codes ":" ++ sprint cfg.grpc_port)

module _ {Level E : Type 0} (g : Grpc) (m : Memberlist g.World)
    (encode : NodeMeta → Reply E (List ℕ)) (decode : List ℕ → Reply E NodeMeta)
    (IsPeer : Config Level → Option Text → Type 0) where
  -- What `memberlist` reports of a node that joins: the name that a peer has in its settings, and the
  -- metadata that the delegate in its settings gave, for a limit of 512 bytes or more. They are not empty,
  -- as they are where they could not be made.
  abbrev pub IsReported : Peer → Type 0
  IsReported node =
      (cfg : Config Level) × (outbound : Option Text) × (limit : ℕ) × IsPeer cfg outbound
      × (512 ≤ limit)
      × (node.name ≡ (settings_of g m cfg outbound).name)
      × (node.meta ≡ node_meta_data encode decode (settings_of g m cfg outbound).delegate limit)
      × (node.meta ≢ [])

  module _ (store : Storage) (errors : Errors g) (local : Text) (sum64 : Text → ℕ)
      (grpc_port : ℕ) where
    -- The steps of this node.
    abbrev pub PeerStep : Node g store → Node g store → Type 0
    PeerStep n k = Step g store errors local sum64 (read_meta encode decode) grpc_port n k

    abbrev pub WasReported : (n k : Node g store) → PeerStep n k → Type 0
    WasReported n k (event_step (join_of node keys) c o run) = IsReported node
    WasReported n k (event_step (leave_of node) c o run) = Unit
    WasReported n k (event_step (update_of node) c o run) = Unit
    WasReported n k (request_step port r y run) = Unit
    WasReported n k (task_step before later t e fit) = Unit
    WasReported n k tick_step = Unit
    WasReported n k (read_step cancelled key) = Unit
    WasReported n k (write_step cancelled pair fit) = Unit
