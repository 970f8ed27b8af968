-- ===== src/EventHandler.antt =====
-- cluster/event_handler.go: the handlers of the cluster's events, over the ring, the pool and the
-- store of the node. `memberlist` calls them one after another. `unmarshal` is the decoding of the
-- metadata of a node, `none` being its error.
pub mod Transfer
pub mod Delivery
pub mod Membership
pub mod Kept
pub mod Events
mod Tests
use qa_d.Base.{
  ℕ, Bool, true, false, List, [], ◌∷◌, ◌++◌, Option, none, some, Text, codes, text_eq,
  if◌then◌else◌, Outcome, ok, panic, ◌>>=◌, Assoc,
}
use qa_d.Base.Decimal.{sprint}
use qa_d.Storage.{Storage, Slice}
use qa_d.Proto.{KeyValuePair, Void, Reply, reply, fail}
use qa_d.Metadata.{NodeMeta}
use qa_d.Ring.{ConsistentHashRing, add_node, remove_node, node_of_direct}
use qa_d.GrpcPool.{Grpc, Pool, PoolError, add_connection, remove_connection, get_connection}

-- `memberlist.Node`: its name, its address as a text, and its metadata.
pub record Node : Type 0 where
  pub name : Text
  pub addr : Text
  pub meta : List ℕ

-- The ring, the pool and the store of the node, and the state of the others. `sent` is a history of
-- the pairs that were handed over with success, the last first, with the node that took each.
pub record Cluster (g : Grpc) (store : Storage) : Type 0 where
  pub ring : ConsistentHashRing
  pub pool : Pool g.Conn
  pub local : store.State
  pub world : g.World
  pub sent : List (Text × KeyValuePair)

module _ (g : Grpc) (store : Storage) (local_node_name : Text) where
  -- The pair of a key, with the value that the store has for it.
  abbrev pub pair_of : Cluster g store → Text → ℕ → KeyValuePair
  pair_of c key hash = record { key = key; hash = hash; value = (store.read c.local key).0 }

  -- After the call of `Write`, for its answer.
  unfoldable pub written :
      Cluster g store
      → Pool g.Conn
      → g.World
      → Text
      → Text
      → ℕ
      → Reply g.Error Void
      → Bool × Cluster g store
  written c pool w target_node key hash (fail e) =
      (false, record c { pool = pool; world = w; local = (store.read c.local key).1 })
  written c pool w target_node key hash (reply v) = (
    true,
    record c {
      pool = pool;
      world = w;
      local = store.delete (store.read c.local key).1 key;
      sent = (target_node, pair_of c key hash) ∷ c.sent;
    },
  )

  -- After `GetClient`, for its answer.
  unfoldable pub with_client :
      Cluster g store
      → Pool g.Conn
      → g.World
      → Text
      → Text
      → ℕ
      → Reply (PoolError g.Error) g.Conn
      → Bool × Cluster g store
  unfolding written
  with_client c pool w target_node key hash (fail e) = (false, record c { pool = pool; world = w })
  with_client c pool w target_node key hash (reply conn) =
      let (answer, w₁) = g.write w conn (pair_of c key hash) in
      written c pool w₁ target_node key hash answer

  -- The hand-over of one key to the node that has it now: whether the loop goes on, and the state.
  unfoldable pub hand_over : Cluster g store → Text → Text → ℕ → Bool × Cluster g store
  unfolding with_client
  hand_over c target_node key hash =
      let (client, pool, w) = get_connection g c.pool c.world target_node in
      with_client c pool w target_node key hash client

  -- The loop of `NotifyJoin` over the keys of the store, in the order in which the map gives them.
  -- Whether it came to its end, and the state.
  unfoldable pub transfer : Assoc ℕ → Cluster g store → Outcome (Bool × Cluster g store)
  unfolding hand_over
  transfer [] c = ok (true, c)
  transfer ((key, hash) ∷ keys) c = elim (node_of_direct c.ring hash) [
    | panic p ↦ panic p
    | ok target_node ↦ elim (text_eq local_node_name target_node) [
      | true ↦ transfer keys c
      | false ↦
          let (going_on, d) = hand_over c target_node key hash in
          elim going_on [ true ↦ transfer keys d | false ↦ ok (false, d) ]
    ]
  ]

  module _ (sum64 : Text → ℕ) (unmarshal : List ℕ → Option NodeMeta) (grpc_port : ℕ) where
    -- `AddConnection`, whose error is only logged.
    abbrev pub connect : Cluster g store → Text → Text → Cluster g store
    connect c name addr = record c { pool = (add_connection g c.pool name addr).1 }

    -- `NotifyJoin` after `AddNode`, for what comes of decoding the metadata. The map of the keys is
    -- walked in the order of `keys`.
    unfoldable pub joined :
        Cluster g store → Node → Assoc ℕ → Option NodeMeta → Outcome (Cluster g store)
    unfolding transfer
    joined c node keys none = ok (connect c node.name (node.addr ++ codes ":" ++ sprint grpc_port))
    joined c node keys (some meta) =
        transfer keys (connect c node.name meta.grpc_addr) >>= λ r. ok r.1

    unfoldable pub notify_join : Cluster g store → Node → Assoc ℕ → Outcome (Cluster g store)
    unfolding joined
    notify_join c node keys =
        if text_eq node.name local_node_name
        then ok c
        else add_node sum64 c.ring node.name >>= λ ring.
            joined (record c { ring = ring }) node keys (unmarshal node.meta)

  unfoldable pub notify_leave : Cluster g store → Node → Outcome (Cluster g store)
  notify_leave c node = if text_eq node.name local_node_name then ok c else do
    ring ← remove_node c.ring node.name
    let (error, pool, w) = remove_connection g c.pool c.world node.name
    ok (record c { ring = ring; pool = pool; world = w })

  unfoldable pub notify_update : Cluster g store → Node → Cluster g store
  notify_update c node = c
