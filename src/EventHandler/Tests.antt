-- ===== src/EventHandler/Tests.antt =====
-- Runs of the event handler: a node with two keys, one of which belongs to the node that joins.
use qa_d.Base.{
  ℕ, ◌+◌, ◌≡◌, ◌≢◌, refl, Bool, true, false, List, [], ◌∷◌, Option, none, some, Text, codes,
  text_eq, text_eq_iff, text_neq, inl, inr, Outcome, ok, panic, arith, contains_text, lookup,
  insert, Assoc, at, search,
}
use qa_d.Base.Int64.{max_zero, add_int, gt_int}
use qa_d.Storage.{slice}
use qa_d.Storage.Queue.{find}
use qa_d.Storage.Fifo.{FifoStorage, new_fifo_storage, write, forget_old, evict_loop, list_keys}
use qa_d.Storage.Fifo.Store.{fifo_storage, IsSteady, Op, write_op, Fit, run-IsSteady, run}
use qa_d.Ring.{ConsistentHashRing, new_ring, node_of_direct, node_in, name_before}
use qa_d.Ring.Join.{join}
use qa_d.Ring.Valid.{IsValid, join-IsValid}
use qa_d.Ring.Calls.{new_ring-IsValid}
use qa_d.GrpcPool.Tests.{network}
use qa_d.GrpcPool.{Pool, new_pool, put_entry, get_connection, use_entry, dial, conn_of}
use qa_d.GrpcPool.Connections.{new_pool-IsValid}
use qa_d.Metadata.{NodeMeta}
use qa_d.EventHandler.{Node, Cluster, transfer, hand_over, with_client, written, notify_join}
use qa_d.EventHandler.Delivery.{
  IsSafe, IsOrderOf, notify_join-IsSafe, transfer-keeps_own, transfer-leaves_own,
}
use qa_d.EventHandler.Events.{
  Event, join_of, leave_of, update_of, members_after, members_after_all, AreOrderly, IsSound,
  handle_all, handle_all-members,
}
use qa_d.EventHandler.Membership.{notify_join-returns}

abbrev me : Text
me = codes "n1"

abbrev you : Text
you = codes "n2"

abbrev ops : List Op
ops = write_op (codes "a") 250 (slice (1 ∷ 2 ∷ [])) ∷ write_op (codes "b") 150 (slice []) ∷ []

abbrev store : FifoStorage
store = run ops (new_fifo_storage 5)

ops-Fit : Fit 5 ops
unfolding max_zero
ops-Fit = (omega arith, (omega arith, tt))

store-IsSteady : IsSteady store
store-IsSteady = run-IsSteady 5 ops (omega arith) ops-Fit

-- The hashes from 100 up to 199 are mine, all others the other node's.
abbrev both : ConsistentHashRing
both = record {
  virtual_nodes = 1;
  ring =
      record { name = me; index = 0; hash = 100 }
      ∷ record { name = you; index = 0; hash = 200 }
      ∷ [];
  nodes = me ∷ you ∷ [];
}

abbrev pool : Pool ℕ
pool = put_entry network (new_pool network) you (codes "10.0.0.2:50051")

abbrev joining : Cluster network fifo_storage
joining = record { ring = both; pool = pool; local = store; world = 0; sent = [] }

-- The map in the order in which the loop gets it.
abbrev keys : Assoc ℕ
keys = (codes "a", 250) ∷ (codes "b", 150) ∷ []

keys-IsOrderOf : IsOrderOf keys (fifo_storage.list_keys joining.local)
unfolding run new_fifo_storage write forget_old evict_loop insert lookup gt_int add_int text_eq
    list_keys
keys-IsOrderOf q h = ground (
  arith,
  text_eq_iff (codes "a") q,
  text_eq_iff (codes "b") q,
  text_neq (codes "a") (codes "b") refl,
)

abbrev after : Outcome (Bool × Cluster network fifo_storage) → Cluster network fifo_storage
after (ok (going_on, d)) = d
after (panic p) = joining

abbrev joined : Cluster network fifo_storage
joined = after (transfer network fifo_storage me keys joining)

keys-move : transfer network fifo_storage me keys joining ≡ ok (true, joined)
unfolding transfer node_of_direct node_in name_before search at text_eq hand_over get_connection
    use_entry dial conn_of with_client written put_entry new_pool lookup insert
keys-move = refl

b-held : fifo_storage.held joining.local (codes "b") ≡ some (150, slice [])
unfolding run new_fifo_storage write forget_old evict_loop insert lookup gt_int add_int text_eq find
b-held = refl

b-mine : node_of_direct joining.ring 150 ≡ ok me
unfolding node_of_direct node_in name_before search at
b-mine = refl

transfer-keeps_own_example :
    (fifo_storage.held joined.local (codes "b") ≡ some (150, slice []))
    × (joined.ring ≡ joining.ring)
    × IsSteady joined.local
transfer-keeps_own_example =
    transfer-keeps_own network fifo_storage me keys joining joined true (codes "b") 150 (slice [])
      store-IsSteady keys-IsOrderOf keys-move b-held b-mine

b-held_after : fifo_storage.held joined.local (codes "b") ≡ some (150, slice [])
b-held_after =
    (transfer-keeps_own network fifo_storage me keys joining joined true (codes "b") 150 (slice [])
      store-IsSteady keys-IsOrderOf keys-move b-held b-mine).0

transfer-leaves_own_example : node_of_direct joined.ring 150 ≡ ok me
transfer-leaves_own_example =
    transfer-leaves_own network fifo_storage me keys joining joined (codes "b") 150 (slice [])
      store-IsSteady keys-IsOrderOf keys-move b-held_after

-- The sum of the characters as the hash.
abbrev hash_of : Text → ℕ
hash_of [] = 0
hash_of (c ∷ cs) = c + hash_of cs

-- The metadata are the address itself, and none of it is an error.
abbrev unmarshal : List ℕ → Option NodeMeta
unmarshal [] = none
unmarshal (c ∷ cs) = some (record { node_name = you; grpc_addr = c ∷ cs })

abbrev alone : ConsistentHashRing
alone = join hash_of (new_ring 2) me

alone-IsValid : IsValid hash_of alone
unfolding contains_text new_ring
alone-IsValid = join-IsValid hash_of (new_ring 2) me (new_ring-IsValid hash_of 2) refl

abbrev single : Cluster network fifo_storage
single = record { ring = alone; pool = new_pool network; local = store; world = 0; sent = [] }

abbrev newcomer : Node
newcomer = record { name = you; addr = codes "10.0.0.2"; meta = codes "10.0.0.2:50051" }

you-not_me : you ≢ me
unfolding text_eq
you-not_me = text_neq you me refl

you-new : contains_text alone.nodes you ≡ false
unfolding contains_text text_eq join new_ring
you-new = refl

-- The state that the join returns.
you-join :
    (d : Cluster network fifo_storage) × (notify_join network fifo_storage me hash_of unmarshal
        50051 single newcomer keys
      ≡ ok d)
    × (d.ring ≡ join hash_of alone you)
    × IsValid hash_of d.ring
you-join =
    notify_join-returns network fifo_storage me hash_of unmarshal 50051 single newcomer keys
      store-IsSteady alone-IsValid you-not_me you-new

notify_join-IsSafe_example : IsSafe network fifo_storage me single you-join.0 (codes "a")
notify_join-IsSafe_example =
    notify_join-IsSafe network fifo_storage me hash_of unmarshal 50051 single you-join.0 newcomer
      keys (codes "a") store-IsSteady you-join.1

single-IsSound : IsSound network fifo_storage me hash_of single
unfolding contains_text text_eq join new_ring
single-IsSound = record {
  ring_valid = alone-IsValid;
  pool_valid = new_pool-IsValid network;
  store_valid = store-IsSteady;
  member = refl;
}

-- Another node joins and leaves again, between two events that change nothing.
abbrev happened : List Event
happened =
    join_of (record newcomer { name = me }) keys
    ∷ join_of newcomer keys
    ∷ update_of newcomer
    ∷ leave_of newcomer
    ∷ []

happened-AreOrderly : AreOrderly me single.ring.nodes happened
unfolding members_after contains_text text_eq join new_ring
happened-AreOrderly = (inl refl, (inr refl, (tt, (inr refl, tt))))

handle_all-members_example :
    (d : Cluster network fifo_storage) × (handle_all network fifo_storage me hash_of unmarshal 50051
        single happened
      ≡ ok d)
    × (d.ring.nodes ≡ members_after_all me single.ring.nodes happened)
    × IsSound network fifo_storage me hash_of d
handle_all-members_example =
    handle_all-members network fifo_storage me hash_of unmarshal 50051 single happened
      single-IsSound happened-AreOrderly
