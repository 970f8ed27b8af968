-- ===== src/TwoNodes.antt =====
-- Two nodes that work together: the HTTP server of one (http_server/index.go), which forwards through
-- its pool (cluster/grpc_pool.go), and the gRPC service of the other (grpc_server/index.go) over its
-- store. What lies between them is gRPC: a call that arrives is answered by the service.
pub mod Get
pub mod Post
pub mod Roundtrip
pub mod HandOver
mod Tests
use qa_d.Base.{◌≡◌, false, [], ◌∷◌, some, Text, List, ℕ}
use qa_d.Storage.{Storage, Slice, nil, slice}
use qa_d.Proto.{Key, KeyValuePair, Value, Void, Status, Reply}
use qa_d.GrpcPool.{Grpc}
use qa_d.GrpcPool.Clients.{Errors, widen}
use qa_d.GrpcServer

-- The other node as the network has it: the state of its store, and the error that a client gets for
-- a status, in which `status.FromError` finds it again.
pub record Link (g : Grpc) (errors : Errors g) (there : Storage) : Type 0 where
  pub remote : g.World → there.State
  pub of_status : Status → g.Error
  pub from_status : (st : Status) → errors.from_error (errors.of_call (of_status st)) ≡ some st

-- A field of bytes in proto3: one of no bytes is not sent, and is `nil` for the receiver.
abbrev pub decoded : Slice → Slice
decoded nil = nil
decoded (slice []) = nil
decoded (slice (b ∷ bs)) = slice (b ∷ bs)

module _ (g : Grpc) (errors : Errors g) (there : Storage) (link : Link g errors there) where
  open link use {remote, of_status}

  -- A call arrives: the service runs it on the store of its node, and the client gets its answer.
  abbrev pub ReadArrives : g.World → g.Conn → Key → g.World → Type 0
  ReadArrives w conn key w₁ =
      (g.read w conn key
        ≡ (widen of_status (GrpcServer.read there (remote w) false (some key)).0, w₁))
      × (remote w₁ ≡ (GrpcServer.read there (remote w) false (some key)).1)

  abbrev pub WriteArrives : g.World → g.Conn → KeyValuePair → g.World → Type 0
  WriteArrives w conn pair w₁ =
      let run =
        GrpcServer.write there (remote w) false
          (some (record pair { value = decoded pair.value })) in
      (g.write w conn pair ≡ (widen of_status run.0, w₁)) × (remote w₁ ≡ run.1)
