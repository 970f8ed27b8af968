-- ===== src/EventHandler/Events.antt =====
-- Rows of events that `memberlist` reports one after another, and what the handlers of
-- cluster/event_handler.go make of them.
use qa_d.Base.{
  ℕ, ◌≡◌, refl, sym, subst, ap, ◌∙◌, Bool-cases, true, false, List, [], ◌∷◌, ◌++◌, Option, Text,
  text_eq, text_neq, contains_text, contains_text-append, contains_text-without, without,
  if◌then◌else◌, Outcome, ok, ◌>>=◌, Assoc, arith, inl, inr, ◌⊎◌,
}
use qa_d.Storage.{Storage}
use qa_d.Ring.Join.{join, leave}
use qa_d.Ring.Valid.{IsValid}
use qa_d.GrpcPool.{Grpc}
use qa_d.GrpcPool.Connections.{IsValid as PoolIsValid}
use qa_d.Metadata.{NodeMeta}
use qa_d.EventHandler.{Node, Cluster, notify_join, notify_leave, notify_update}
use qa_d.EventHandler.Kept.{notify_join-keeps}
use qa_d.EventHandler.Membership.{notify_join-returns, notify_leave-returns}

-- An event, and for a join the order in which the map of the keys is walked.
pub data Event : Type 0 where
  join_of : Node → Assoc ℕ → Event
  leave_of : Node → Event
  update_of : Node → Event

-- The nodes after an event, this one apart, as `memberlist` has them.
unfoldable pub members_after : Text → List Text → Event → List Text
members_after local names (join_of node keys) =
    if text_eq node.name local then names else names ++ node.name ∷ []
members_after local names (leave_of node) =
    if text_eq node.name local then names else without node.name names
members_after local names (update_of node) = names

unfoldable pub members_after_all : Text → List Text → List Event → List Text
members_after_all local names [] = names
members_after_all local names (e ∷ es) = members_after_all local (members_after local names e) es

-- `memberlist` reports a node as joined only while it is no member, and as gone only while it is one.
abbrev pub IsOrderly : Text → List Text → Event → Type 0
IsOrderly local names (join_of node keys) =
    (text_eq node.name local ≡ true) ⊎ (contains_text names node.name ≡ false)
IsOrderly local names (leave_of node) =
    (text_eq node.name local ≡ true) ⊎ (contains_text names node.name ≡ true)
IsOrderly local names (update_of node) = Unit

abbrev pub AreOrderly : Text → List Text → List Event → Type 0
AreOrderly local names [] = Unit
AreOrderly local names (e ∷ es) =
    IsOrderly local names e × AreOrderly local (members_after local names e) es

module _ (g : Grpc) (store : Storage) (local : Text) where
  -- The ring, the pool and the store are valid, and this node is in the ring.
  pub record IsSound (sum64 : Text → ℕ) (c : Cluster g store) : Type 0 where
    pub ring_valid : IsValid sum64 c.ring
    pub pool_valid : PoolIsValid g.Conn c.pool
    pub store_valid : store.IsValid c.local
    pub member : contains_text c.ring.nodes local ≡ true

  module _ (sum64 : Text → ℕ) (unmarshal : List ℕ → Option NodeMeta) (grpc_port : ℕ) where
    -- The handler of an event.
    unfoldable pub handle : Cluster g store → Event → Outcome (Cluster g store)
    handle c (join_of node keys) = notify_join g store local sum64 unmarshal grpc_port c node keys
    handle c (leave_of node) = notify_leave g store local c node
    handle c (update_of node) = ok (notify_update g store local c node)

    unfoldable pub handle_all : Cluster g store → List Event → Outcome (Cluster g store)
    unfolding handle
    handle_all c [] = ok c
    handle_all c (e ∷ es) = handle c e >>= λ d. handle_all d es

    -- What comes of an event: no panic, the members follow it, and all is valid.
    abbrev pub Handled : Cluster g store → Event → Type 0
    Handled c e =
        (d : Cluster g store) × (handle c e ≡ ok d)
        × (d.ring.nodes ≡ members_after local c.ring.nodes e)
        × IsSound sum64 d

    unchanged :
        (c : Cluster g store) (e : Event)
        → handle c e ≡ ok c
        → members_after local c.ring.nodes e ≡ c.ring.nodes
        → IsSound sum64 c
        → Handled c e
    unchanged c e run same s = (c, run, sym same, s)

    pub handle-IsSound :
        (c : Cluster g store) (e : Event)
        → IsSound sum64 c
        → IsOrderly local c.ring.nodes e
        → Handled c e
    unfolding handle members_after notify_join notify_leave
    handle-IsSound c (join_of node keys) s o = elim (Bool-cases (text_eq node.name local)) [
      | inl self ↦
          unchanged c (join_of node keys) (rw (handle, notify_join, self) refl)
            (rw (members_after, self) refl) s
      | inr other ↦
          let fresh : contains_text c.ring.nodes node.name ≡ false = ground arith in
          let (d, run, same, valid) =
            notify_join-returns g store local sum64 unmarshal grpc_port c node keys s.store_valid
              s.ring_valid (text_neq node.name local other) fresh in
          let (pool, held) =
            notify_join-keeps g store local sum64 unmarshal grpc_port c d node keys s.pool_valid
              s.store_valid run in
          let nodes : d.ring.nodes ≡ c.ring.nodes ++ node.name ∷ [] =
            unfold join in (ap (λ r. r.nodes) same) in
          (
            d,
            run,
            rw (members_after, other) nodes,
            record {
              ring_valid = valid;
              pool_valid = pool;
              store_valid = held;
              member = rw nodes (
                  ground
                    (arith, contains_text-append c.ring.nodes (node.name ∷ []) local, s.member));
            },
          )
    ]
    handle-IsSound c (leave_of node) s o = elim (Bool-cases (text_eq node.name local)) [
      | inl self ↦
          unchanged c (leave_of node) (rw (handle, notify_leave, self) refl)
            (rw (members_after, self) refl) s
      | inr other ↦
          let known : contains_text c.ring.nodes node.name ≡ true = ground arith in
          let (d, run, same, gone, held, valid, pool) =
            notify_leave-returns g store local sum64 c node local s.ring_valid s.pool_valid
              (text_neq node.name local other) known in
          let nodes : d.ring.nodes ≡ without node.name c.ring.nodes =
            unfold leave in (ap (λ r. r.nodes) same) in
          (
            d,
            run,
            rw (members_after, other) nodes,
            record {
              ring_valid = valid;
              pool_valid = pool;
              store_valid = rw held s.store_valid;
              member =
                  rw nodes
                    (ground (arith, contains_text-without node.name local c.ring.nodes, s.member));
            },
          )
    ]
    handle-IsSound c (update_of node) s o =
        unfold notify_update in (unchanged c (update_of node) refl refl s)

    -- A row of orderly events does not panic, on a node whose ring, pool and store are valid and whose
    -- ring has the node: afterwards the members of the ring are those of `memberlist`, in the order in
    -- which they joined, this node is still one, and the ring, the pool and the store are valid.
    pub handle_all-members :
        (c : Cluster g store) (es : List Event)
        → IsSound sum64 c
        → AreOrderly local c.ring.nodes es
        → (d : Cluster g store) × (handle_all c es ≡ ok d)
          × (d.ring.nodes ≡ members_after_all local c.ring.nodes es)
          × IsSound sum64 d
    unfolding handle_all members_after_all
    handle_all-members c [] s o = (c, refl, refl, s)
    handle_all-members c (e ∷ es) s (first, rest) =
        let (d, run, nodes, sound) = handle-IsSound c e s first in
        let (f, runs, last, end) =
          handle_all-members d es sound (subst (λ ns. AreOrderly local ns es) (sym nodes) rest) in
        (f, rw (handle_all, run) runs, last ∙ ap (λ ns. members_after_all local ns es) nodes, end)
