-- ===== src/Program/Serving.antt =====
-- `newGRPCServer` and `newHTTPServer` of main.go: the two servers over the store, the ring and the pool of
-- the node.
use qa_d.Base.{ℕ, Bool, Option, some, Text, codes, ◌++◌, Outcome}
use qa_d.Base.Decimal.{sprint}
use qa_d.Proto.{Peers, Status, Key, KeyValuePair, Value, Void, Reply}
use qa_d.Storage.{Storage}
use qa_d.Ring.{ConsistentHashRing}
use qa_d.GrpcServer.{read, write}
use qa_d.HttpServer.{Request, Session}
use qa_d.HttpServer.Handlers.{serve_http}
use qa_d.HttpServer.Total.{hash_ring_of}

-- The service `Communication` that is registered.
pub record GrpcHandlers (store : Storage) : Type 0 where
  pub read : store.State → Bool → Option Key → Reply Status Value × store.State
  pub write : store.State → Bool → Option KeyValuePair → Reply Status Void × store.State

abbrev pub new_grpc_server : (store : Storage) → GrpcHandlers store
new_grpc_server store = record { read = read store; write = write store }

-- `http.Server`, with the timeouts in seconds.
pub record HttpHandlers (State World : Type 0) : Type 0 where
  pub addr : Text
  pub handler : Request → Session State World → Outcome (Session State World)
  pub read_timeout : ℕ
  pub write_timeout : ℕ
  pub idle_timeout : ℕ

abbrev pub new_http_server :
    (store : Storage) (peers : Peers) (sum64 : Text → ℕ)
    → ConsistentHashRing
    → Text
    → ℕ
    → HttpHandlers store.State peers.World
new_http_server store peers sum64 ring node_name http_port = record {
  addr = codes ":" ++ sprint http_port;
  handler = serve_http store peers (some (hash_ring_of sum64 ring)) node_name;
  read_timeout = 15;
  write_timeout = 15;
  idle_timeout = 60;
}
