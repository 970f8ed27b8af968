-- ===== src/HttpServer.antt =====
-- http_server/index.go and http_server/health.go: the server that the clients call. A handler takes
-- the state of the node and the response writer; a `go` statement adds a task, which runs later.
pub mod Response
pub mod Handlers
pub mod Requests
pub mod Forward
pub mod Handled
pub mod Kept
pub mod Total
pub mod Roundtrip
mod Tests
use mathlib.Core.List.{reverse}
use qa_d.Base.{
  ℕ, Bool, true, false, List, [], ◌∷◌, ◌++◌, Option, none, some, Text, codes, ◌==◌, has_prefix,
  length, drop, if◌then◌else◌, Outcome, ok, panic, out_of_range, nil_dereference, ◌>>=◌,
}
use qa_d.Base.Decimal.{sprint}
use qa_d.Storage.{Storage, Slice, nil, slice, len}
use qa_d.Proto.{
  Peers, Status, Key, KeyValuePair, Value, Code, not_found, unavailable, deadline_exceeded, Reply,
  reply, fail,
}
use Response.{
  Writer, ClusterStatus, bytes, status_json, cluster_json, set_header, write_header, write_body,
  http_error,
}

pub data Method : Type 0 where
  get : Method
  post : Method
  delete : Method
  other_method : Method

-- `r.URL.Path`, the method, and what `io.ReadAll(r.Body)` returns, `none` being an error.
pub record Request : Type 0 where
  pub method : Method
  pub path : Text
  pub body : Option (List ℕ)

-- The interface `HashRing`. `NodeOf` may panic.
pub record HashRing : Type 0 where
  pub node_of : Text → Outcome (ℕ × Text)
  pub get_nodes : List Text

-- A goroutine that a handler starts.
pub data Task : Type 0 where
  write_value : Text → ℕ → Slice → Task
  forward_post : Text → Text → ℕ → Slice → Task
  delete_value : Text → Task

-- `strings.Trim(path, "/")`
unfoldable pub drop_slashes : Text → Text
drop_slashes [] = []
drop_slashes (c ∷ cs) = if c == b'/' then drop_slashes cs else c ∷ cs

unfoldable pub trim_slashes : Text → Text
unfolding drop_slashes
trim_slashes s = reverse (drop_slashes (reverse (drop_slashes s)))

-- The state of the node, the started tasks and the response.
pub record Session (State World : Type 0) : Type 0 where
  pub local : State
  pub world : World
  pub tasks : List Task
  pub writer : Writer

-- `append(full, chunk...)`: nothing appended to `nil` is `nil`.
unfoldable pub append_chunk : Slice → Slice → Slice
append_chunk full nil = full
append_chunk full (slice []) = full
append_chunk nil (slice (b ∷ bs)) = slice (b ∷ bs)
append_chunk (slice as') (slice (b ∷ bs)) = slice (as' ++ b ∷ bs)

unfoldable pub full_value : Slice → List Slice → Slice
unfolding append_chunk
full_value full [] = full
full_value full (chunk ∷ chunks) = full_value (append_chunk full chunk) chunks

abbrev pub octet_stream : Slice → Writer → Writer
octet_stream value w =
    set_header (codes "Content-Length") (sprint (len value))
      (set_header (codes "Content-Type") (codes "application/octet-stream") w)
