-- ===== src/EventHandler/Kept.antt =====
-- The handlers of cluster/event_handler.go keep the pool and the store valid.
use qa_d.Base.{
  ℕ, ◌≡◌, refl, sym, subst, Bool, Bool-cases, List, [], ◌∷◌, Option, none, some, Text, text_eq,
  ◌++◌, codes, Holds, ok, >>=-inverse, ok_injective, Outcome-cases, Assoc, inl, inr,
}
use qa_d.Storage.{Storage}
use qa_d.Ring.{node_of_direct, add_node}
use qa_d.GrpcPool.{Grpc, Pool, PoolError, add_connection, get_connection}
use qa_d.Base.Decimal.{sprint}
use qa_d.GrpcPool.Connections.{IsValid as PoolIsValid, put_entry-IsValid}
use qa_d.GrpcPool.Kept.{get_connection-IsValid}
use qa_d.Proto.{Reply, reply, fail, Void}
use qa_d.Metadata.{NodeMeta}
use qa_d.EventHandler.{
  Node, Cluster, transfer, hand_over, with_client, written, connect, joined, notify_join,
}
use qa_d.EventHandler.Delivery.{transfer-Transferred, Transferred-valid}

module _ (g : Grpc) (store : Storage) (local : Text) where
  written-pool :
      (c : Cluster g store) (pool : Pool g.Conn) (w : g.World) (target key : Text) (hash : ℕ)
      (answer : Reply g.Error Void)
      → (written g store local c pool w target key hash answer).1.pool ≡ pool
  unfolding written
  written-pool c pool w target key hash (fail e) = refl
  written-pool c pool w target key hash (reply v) = refl

  with_client-pool :
      (c : Cluster g store) (pool : Pool g.Conn) (w : g.World) (target key : Text) (hash : ℕ)
      (client : Reply (PoolError g.Error) g.Conn)
      → (with_client g store local c pool w target key hash client).1.pool ≡ pool
  unfolding with_client
  with_client-pool c pool w target key hash (fail e) = refl
  with_client-pool c pool w target key hash (reply conn) = written-pool c pool _ target key hash _

-- The address that `NotifyJoin` takes for a node: the one of its metadata, or the fallback.
abbrev pub address_for : ℕ → Node → Option NodeMeta → Text
address_for grpc_port node none = node.addr ++ codes ":" ++ sprint grpc_port
address_for grpc_port node (some meta) = meta.grpc_addr

-- A statement of the pool that each call of it keeps.
module _ (g : Grpc) (store : Storage) (local : Text) (Good : Pool g.Conn → Type 0)
    (Given : Text → Text → Type 0)
    (used : (p : Pool g.Conn) (w : g.World) (n : Text) → Good p → Good (get_connection g p w n).1)
    (connected : (p : Pool g.Conn) (n a : Text)
      → Given n a
      → Good p
      → Good (add_connection g p n a).1) where
  hand_over-Good :
      (c : Cluster g store) (target key : Text) (hash : ℕ)
      → Good c.pool
      → Good (hand_over g store local c target key hash).1.pool
  unfolding hand_over
  hand_over-Good c target key hash v =
      subst Good (sym (with_client-pool g store local c _ _ target key hash _))
        (used c.pool c.world target v)

  transfer-Good :
      (keys : Assoc ℕ) (c : Cluster g store)
      → Good c.pool
      → Holds (λ (r : Bool × Cluster g store). Good r.1.pool) (transfer g store local keys c)
  unfolding transfer
  transfer-Good [] c v = v
  transfer-Good ((key, hash) ∷ keys) c v = elim (Outcome-cases (node_of_direct c.ring hash)) [
    | inr (p, lost) ↦ rw (transfer, lost) tt
    | inl (target, found) ↦ elim (Bool-cases (text_eq local target)) [
      | inl here ↦ rw (transfer, found, here) (transfer-Good keys c v)
      | inr there ↦
          let handed = hand_over-Good c target key hash v in
          elim (Bool-cases (hand_over g store local c target key hash).0) [
            | inl on ↦ rw (transfer, found, there, on) (transfer-Good keys _ handed)
            | inr off ↦ rw (transfer, found, there, off) handed
          ]
    ]
  ]

  module _ (sum64 : Text → ℕ) (unmarshal : List ℕ → Option NodeMeta) (grpc_port : ℕ) where
    joined-Good :
        (c d : Cluster g store) (node : Node) (keys : Assoc ℕ) (meta : Option NodeMeta)
        → Given node.name (address_for grpc_port node meta)
        → Good c.pool
        → store.IsValid c.local
        → joined g store local sum64 unmarshal grpc_port c node keys meta ≡ ok d
        → Good d.pool × store.IsValid d.local
    unfolding joined
    joined-Good c d node keys none q p v e =
        subst (λ z. Good z.pool × store.IsValid z.local) (ok_injective e)
          (connected c.pool node.name _ q p, v)
    joined-Good c d node keys (some meta) q p v e =
        let start = connect g store local sum64 unmarshal grpc_port c node.name meta.grpc_addr in
        let ((b, last), ran, same) = >>=-inverse (transfer g store local keys start) _ e in
        subst (λ z. Good z.pool × store.IsValid z.local) (ok_injective same)
          (
            subst (Holds (λ (r : Bool × Cluster g store). Good r.1.pool)) ran
                (transfer-Good keys start (connected c.pool node.name _ q p)),
            Transferred-valid g store local (transfer-Transferred g store local keys start v ran) v,
          )

    -- What `NotifyJoin` returns has it too, where the node is given the address that is taken for it.
    pub notify_join-Good :
        (c d : Cluster g store) (node : Node) (keys : Assoc ℕ)
        → Given node.name (address_for grpc_port node (unmarshal node.meta))
        → Good c.pool
        → store.IsValid c.local
        → notify_join g store local sum64 unmarshal grpc_port c node keys ≡ ok d
        → Good d.pool × store.IsValid d.local
    unfolding notify_join
    notify_join-Good c d node keys q p v e = elim (Bool-cases (text_eq node.name local)) [
      | inl self ↦
          let same : c ≡ d = ok_injective (rw (notify_join, self) at e) in
          subst (λ z. Good z.pool × store.IsValid z.local) same (p, v)
      | inr other ↦
          let (ring, added, rest) =
            >>=-inverse (add_node sum64 c.ring node.name) _ (rw (notify_join, other) at e) in
          joined-Good (record c { ring = ring }) d node keys (unmarshal node.meta) q p v rest
    ]

module _ (g : Grpc) (store : Storage) (local : Text) where
  connect-pool :
      (p : Pool g.Conn) (name addr : Text)
      → Unit {0}
      → PoolIsValid g.Conn p
      → PoolIsValid g.Conn (add_connection g p name addr).1
  unfolding add_connection
  connect-pool p name addr _ v = elim (Bool-cases (text_eq name [])) [
    | inl unnamed ↦ rw (add_connection, unnamed) v
    | inr named ↦ elim (Bool-cases (text_eq addr [])) [
      | inl nowhere ↦ rw (add_connection, named, nowhere) v
      | inr there ↦ rw (add_connection, named, there) (put_entry-IsValid g p name addr v)
    ]
  ]

  pub notify_join-keeps :
      (sum64 : Text → ℕ) (unmarshal : List ℕ → Option NodeMeta) (grpc_port : ℕ)
      (c d : Cluster g store) (node : Node) (keys : Assoc ℕ)
      → PoolIsValid g.Conn c.pool
      → store.IsValid c.local
      → notify_join g store local sum64 unmarshal grpc_port c node keys ≡ ok d
      → PoolIsValid g.Conn d.pool × store.IsValid d.local
  notify_join-keeps sum64 unmarshal grpc_port c d node keys p v e =
      notify_join-Good g store local (PoolIsValid g.Conn) (λ n a. Unit)
        (λ q w n h. get_connection-IsValid g q w n h) connect-pool sum64 unmarshal grpc_port c d
        node keys tt p v e
