-- ===== src/GrpcPool.antt =====
-- cluster/grpc_pool.go: the pool of connections to the other nodes. The map holds pointers to
-- entries, so the entries stand on a heap: a call of `GetConnection` works on its entry after it
-- has let go of the lock, when the map may have changed.
pub mod Connections
pub mod Kept
pub mod Addresses
pub mod Late
pub mod Clients
pub mod Ledger
pub mod Tests
use qa_d.Base.{
  ℕ, ◌+◌, Bool, true, false, List, [], ◌∷◌, ◌++◌, Option, none, some, Text, codes, text_eq,
  if◌then◌else◌, length, get_elem?, set, map, Assoc, lookup, insert, delete,
}
use qa_d.Proto.{Reply, reply, fail, Void, Key, Value, KeyValuePair}

-- What the sources use of `google.golang.org/grpc`: `NewClient`, `Close`, and the calls `Read`
-- and `Write` of a client. `World` is the state of the network and of the other nodes.
pub record Grpc : Type 1 where
  pub World : Type 0
  pub Conn : Type 0
  pub Error : Type 0
  pub new_client : World → Text → Reply Error Conn × World
  pub close : World → Conn → Option Error × World
  pub read : World → Conn → Key → Reply Error Value × World
  pub write : World → Conn → KeyValuePair → Reply Error Void × World

-- `once` is whether `once.Do` has run its function.
pub record PoolEntry (Conn : Type 0) : Type 0 where
  pub conn : Option Conn
  pub addr : Text
  pub once : Bool

-- The heap of entries and the map to their places in it.
pub record Pool (Conn : Type 0) : Type 0 where
  pub entries : List (PoolEntry Conn)
  pub connections : Assoc ℕ

-- The errors that the pool makes itself, and those of `grpc.NewClient`, wrapped.
pub data PoolError (Error : Type 0) : Type 0 where
  empty_name : PoolError Error
  empty_address : Text → PoolError Error
  not_in_pool : Text → PoolError Error
  failed_to_dial : Text → Error → PoolError Error
  connection_is_nil : Text → PoolError Error

module _ (g : Grpc) where
  open g use {World, Conn, Error}

  unfoldable pub new_pool : Pool Conn
  new_pool = record { entries = []; connections = [] }

  abbrev pub new_entry : Text → PoolEntry Conn
  new_entry addr = record { conn = none; addr = addr; once = false }

  -- `p.connections[nodeName] = &poolEntry{addr: addr}`
  unfoldable pub put_entry : Pool Conn → Text → Text → Pool Conn
  put_entry p node_name addr = record {
    entries = p.entries ++ new_entry addr ∷ [];
    connections = insert node_name (length p.entries) p.connections;
  }

  unfoldable pub add_connection : Pool Conn → Text → Text → Option (PoolError Error) × Pool Conn
  unfolding put_entry
  add_connection p node_name addr =
      if text_eq node_name []
      then (some empty_name, p)
      else if text_eq addr []
      then (some (empty_address node_name), p)
      else (none, put_entry p node_name addr)

  -- The function of `once.Do`, on the entry at a place.
  unfoldable pub dial :
      Pool Conn → World → ℕ → PoolEntry Conn → Option (PoolError Error) × Pool Conn × World
  dial p w id entry =
      let (client, w₁) = g.new_client w entry.addr in
      elim client [
        | fail e ↦ (
          some (failed_to_dial entry.addr e),
          record p { entries = set p.entries id (record entry { once = true }) },
          w₁,
        )
        | reply conn ↦ (
          none,
          record p { entries = set p.entries id (record entry { once = true; conn = some conn }) },
          w₁,
        )
      ]

  -- The end of `GetConnection`: the connection of the entry, if it has one.
  unfoldable pub conn_of : Pool Conn → Text → ℕ → Reply (PoolError Error) Conn
  conn_of p node_name id = elim (get_elem? p.entries id) [
    | none ↦ fail (connection_is_nil node_name)
    | some entry ↦ elim entry.conn [
      | none ↦ fail (connection_is_nil node_name)
      | some conn ↦ reply conn
    ]
  ]

  -- `GetConnection` from `entry.once.Do` on, for the entry at a place.
  unfoldable pub use_entry :
      Pool Conn → World → Text → ℕ → Reply (PoolError Error) Conn × Pool Conn × World
  unfolding dial conn_of
  use_entry p w node_name id = elim (get_elem? p.entries id) [
    | none ↦ (fail (connection_is_nil node_name), p, w)
    | some entry ↦
        if entry.once
        then (conn_of p node_name id, p, w)
        else (let (dial_err, p₁, w₁) = dial p w id entry in
            elim dial_err [ some e ↦ (fail e, p₁, w₁) | none ↦ (conn_of p₁ node_name id, p₁, w₁) ])
  ]

  unfoldable pub get_connection :
      Pool Conn → World → Text → Reply (PoolError Error) Conn × Pool Conn × World
  unfolding use_entry
  get_connection p w node_name = elim (lookup node_name p.connections) [
    | none ↦ (fail (not_in_pool node_name), p, w)
    | some id ↦ use_entry p w node_name id
  ]

  -- A connection is closed if there is one; an error of that is only logged.
  unfoldable pub close_entry : Pool Conn → World → ℕ → World
  close_entry p w id = elim (get_elem? p.entries id) [
    | none ↦ w
    | some entry ↦ elim entry.conn [ none ↦ w | some conn ↦ (g.close w conn).1 ]
  ]

  unfoldable pub update_connection :
      Pool Conn → World → Text → Text → Option (PoolError Error) × Pool Conn × World
  unfolding close_entry put_entry
  update_connection p w node_name new_addr = elim (lookup node_name p.connections) [
    | none ↦ (some (not_in_pool node_name), p, w)
    | some id ↦ (none, put_entry p node_name new_addr, close_entry p w id)
  ]

  unfoldable pub remove_connection :
      Pool Conn → World → Text → Option (PoolError Error) × Pool Conn × World
  unfolding close_entry
  remove_connection p w node_name = elim (lookup node_name p.connections) [
    | none ↦ (some (not_in_pool node_name), p, w)
    | some id ↦
        (none, record p { connections = delete node_name p.connections }, close_entry p w id)
  ]

  -- The loop of `Close` over the map, in an order of its entries.
  unfoldable pub close_all : Pool Conn → World → Assoc ℕ → World
  unfolding close_entry
  close_all p w [] = w
  close_all p w ((name, id) ∷ m) = close_all p (close_entry p w id) m

  unfoldable pub close_pool : Pool Conn → World → Pool Conn × World
  unfolding close_all
  close_pool p w = (record p { connections = [] }, close_all p w p.connections)

  unfoldable pub get_all_node_names : Pool Conn → List Text
  get_all_node_names p = map (λ e. e.0) p.connections
