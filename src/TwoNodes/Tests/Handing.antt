-- ===== src/TwoNodes/Tests/Handing.antt =====
-- A hand-over of a key to the other node (cluster/event_handler.go).
use qa_d.Base.{◌≡◌, refl, false, [], ◌&&◌, none, some, text_eq, if◌then◌else◌, lookup, insert}
use qa_d.Storage.{held_value}
use qa_d.Storage.Fifo.{FifoStorage}
use qa_d.Storage.Fifo.Store.{fifo_storage}
use qa_d.Proto.{reply}
use qa_d.Ring.{new_ring}
use qa_d.GrpcPool.{new_pool, put_entry, get_connection}
use qa_d.GrpcServer
use qa_d.EventHandler.{Cluster, pair_of, hand_over}
use qa_d.TwoNodes.{decoded}
use qa_d.TwoNodes.HandOver.{is_full, hand_over_arrives}
use qa_d.TwoNodes.Tests.{
  net, errors, link, pool, dialled, addr, a, b, key, empty, holding, holding-IsSteady,
}

abbrev cluster : Cluster net fifo_storage
cluster = record { ring = new_ring 150; pool = pool; local = holding; world = empty; sent = [] }

abbrev handed_world : FifoStorage
handed_world =
    (GrpcServer.write fifo_storage empty false (
      some (record (pair_of net fifo_storage a cluster key 11) {
        value = decoded (pair_of net fifo_storage a cluster key 11).value;
      }))).1

connects : get_connection net pool empty b ≡ (reply addr, dialled, empty)
unfolding get_connection put_entry new_pool lookup insert text_eq
connects = refl

hand_over_arrives_example :
    ((hand_over net fifo_storage a cluster b key 11).0
      ≡ is_full (pair_of net fifo_storage a cluster key 11))
    × (fifo_storage.held (hand_over net fifo_storage a cluster b key 11).1.local key ≡ (
        if is_full (pair_of net fifo_storage a cluster key 11) && text_eq key key
        then none
        else fifo_storage.held holding key))
    × ((hand_over net fifo_storage a cluster b key 11).1.world ≡ (
        if is_full (pair_of net fifo_storage a cluster key 11)
        then fifo_storage.write empty key 11 (held_value (fifo_storage.held holding key))
        else empty))
hand_over_arrives_example =
    hand_over_arrives net errors fifo_storage fifo_storage link a cluster b key 11 addr dialled
      empty handed_world key holding-IsSteady connects (refl, refl)
