-- ===== src/EventHandler/Membership.antt =====
-- The ring and the pool under `NotifyJoin` and `NotifyLeave` (cluster/event_handler.go).
use qa_d.Base.{
  ℕ, ◌≡◌, ◌≢◌, refl, Bool, Bool-cases, true, false, List, [], ◌∷◌, Option, none, some, Text,
  text_eq, text_eq-false, contains_text, if◌then◌else◌, ok, Assoc, inl, inr,
}
use qa_d.Storage.{Storage}
use qa_d.Ring.{node_of_direct}
use qa_d.Ring.Spec.{IsSorted}
use qa_d.Ring.Lookup.{node_name, node_of_direct-pick}
use qa_d.Ring.Spec.{pick}
use qa_d.Ring.Join.{join, leave, add_node-join, remove_node-leave}
use qa_d.Ring.Valid.{IsValid, join-IsValid, leave-IsValid}
use qa_d.GrpcPool.{Grpc, remove_connection}
use qa_d.GrpcPool.Connections.{IsValid as PoolIsValid, entry_of, remove_connection_lem}
use qa_d.Metadata.{NodeMeta}
use qa_d.EventHandler.{
  Node, Cluster, transfer, hand_over, connect, joined, notify_join, notify_leave,
}
use qa_d.EventHandler.Transfer.{hand_over-HandedOver, HandedOver-ring, HandedOver-valid}
use qa_d.EventHandler.Delivery.{Transferred-ring, transfer-Transferred}

module _ (g : Grpc) (store : Storage) (local : Text) where
  -- On a sorted ring the loop returns.
  transfer-returns :
      (keys : Assoc ℕ) (c : Cluster g store)
      → store.IsValid c.local
      → IsSorted c.ring.ring
      → (r : Bool × Cluster g store) × (transfer g store local keys c ≡ ok r)
  unfolding transfer
  transfer-returns [] c v s = ((true, c), refl)
  transfer-returns ((key, hash) ∷ keys) c v s =
      let target = node_name (pick hash c.ring.ring) in
      let found : node_of_direct c.ring hash ≡ ok target = node_of_direct-pick c.ring hash s in
      let d = (hand_over g store local c target key hash).1 in
      let handed = hand_over-HandedOver g store local c target key hash v in
      elim (Bool-cases (text_eq local target)) [
        | inl here ↦ rw (transfer, found, here) (transfer-returns keys c v s)
        | inr there ↦ elim (Bool-cases (hand_over g store local c target key hash).0) [
          | inl on ↦
              rw (transfer, found, there, on)
                (transfer-returns keys d (HandedOver-valid g store local handed)
                  (rw (HandedOver-ring g store local handed) s))
          | inr off ↦ rw (transfer, found, there, off) ((false, d), refl)
        ]
      ]

  module _ (sum64 : Text → ℕ) (unmarshal : List ℕ → Option NodeMeta) (grpc_port : ℕ) where
    joined-returns :
        (c : Cluster g store) (node : Node) (keys : Assoc ℕ) (meta : Option NodeMeta)
        → store.IsValid c.local
        → IsSorted c.ring.ring
        → (d : Cluster g store) × (joined g store local sum64 unmarshal grpc_port c node keys meta
            ≡ ok d)
          × (d.ring ≡ c.ring)
    unfolding joined
    joined-returns c node keys none v s = (_, refl, refl)
    joined-returns c node keys (some meta) v s =
        let start = connect g store local sum64 unmarshal grpc_port c node.name meta.grpc_addr in
        let ((b, d), e) = transfer-returns keys start v s in
        (
          d,
          rw e,
          Transferred-ring g store local (transfer-Transferred g store local keys start v e),
        )

    -- `NotifyJoin` of another node that is not in the ring returns, whatever the other nodes
    -- answer, where the ring and the store are valid: the ring is the valid one with the node in
    -- it.
    pub notify_join-returns :
        (c : Cluster g store) (node : Node) (keys : Assoc ℕ)
        → store.IsValid c.local
        → IsValid sum64 c.ring
        → node.name ≢ local
        → contains_text c.ring.nodes node.name ≡ false
        → (d : Cluster g store) × (notify_join g store local sum64 unmarshal grpc_port c node keys
            ≡ ok d)
          × (d.ring ≡ join sum64 c.ring node.name)
          × IsValid sum64 d.ring
    unfolding notify_join
    notify_join-returns c node keys v r other fresh =
        let ring = join sum64 c.ring node.name in
        let valid = join-IsValid sum64 c.ring node.name r fresh in
        let (d, e, same) =
          joined-returns (record c { ring = ring }) node keys (unmarshal node.meta) v
            valid.sorted in
        (
          d,
          rw
              (
                text_eq-false node.name local other,
                add_node-join sum64 c.ring node.name r.sorted fresh,
              )
              e,
          same,
          rw same valid,
        )

  -- `NotifyLeave` of another node that is in the ring returns, where the ring and the pool are
  -- valid: the node is out of the ring and has no entry in the pool, the entries of the other nodes
  -- and the store are unchanged, and the ring and the pool are valid.
  pub notify_leave-returns :
      (sum64 : Text → ℕ) (c : Cluster g store) (node : Node) (m : Text)
      → IsValid sum64 c.ring
      → PoolIsValid g.Conn c.pool
      → node.name ≢ local
      → contains_text c.ring.nodes node.name ≡ true
      → (d : Cluster g store) × (notify_leave g store local c node ≡ ok d)
        × (d.ring ≡ leave c.ring node.name)
        × (entry_of d.pool m ≡ (if text_eq node.name m then none else entry_of c.pool m))
        × (d.local ≡ c.local)
        × IsValid sum64 d.ring
        × PoolIsValid g.Conn d.pool
  unfolding notify_leave
  notify_leave-returns sum64 c node m r p other known =
      let gone = remove_connection_lem g c.pool c.world node.name m p in
      let after = remove_connection g c.pool c.world node.name in
      (
        record c { ring = leave c.ring node.name; pool = after.1; world = after.2 },
        rw (text_eq-false node.name local other, remove_node-leave c.ring node.name known) refl,
        refl,
        gone.0,
        refl,
        leave-IsValid sum64 c.ring node.name r,
        gone.1,
      )
