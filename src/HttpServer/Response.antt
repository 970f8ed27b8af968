-- ===== src/HttpServer/Response.antt =====
-- What the handlers use of `net/http`: the response writer, and `http.Error`.
use qa_d.Base.{ℕ, List, [], ◌∷◌, ◌++◌, Option, none, some, Text, codes, Assoc, insert, delete}

-- `ClusterStatus` of http_server/health.go.
pub record ClusterStatus : Type 0 where
  pub local_node : Text
  pub total_nodes : ℕ
  pub nodes : List Text

-- A piece of a body: bytes, or a value that `json.NewEncoder(w).Encode` writes.
pub data Chunk : Type 0 where
  bytes : List ℕ → Chunk
  status_json : Text → Chunk
  cluster_json : ClusterStatus → Chunk

-- The headers that are set, and the status, the headers and the body that are sent.
pub record Writer : Type 0 where
  pub headers : Assoc Text
  pub status : Option ℕ
  pub sent : Assoc Text
  pub body : List Chunk

abbrev pub new_writer : Writer
new_writer = record { headers = []; status = none; sent = []; body = [] }

unfoldable pub set_header : Text → Text → Writer → Writer
set_header name value w = record w { headers = insert name value w.headers }

-- Only the first call counts.
unfoldable pub write_header : ℕ → Writer → Writer
write_header code w = elim w.status [
  | none ↦ record w { status = some code; sent = w.headers }
  | some _ ↦ w
]

-- A body without a status is sent as 200.
unfoldable pub write_body : Chunk → Writer → Writer
unfolding write_header
write_body chunk w = let v = write_header 200 w in record v { body = v.body ++ chunk ∷ [] }

-- `http.Error(w, message, code)`
unfoldable pub http_error : Text → ℕ → Writer → Writer
unfolding write_header write_body set_header
http_error message code w = write_body (bytes (message ++ codes "\n")) (
    write_header code (
      set_header (codes "X-Content-Type-Options") (codes "nosniff") (
        set_header (codes "Content-Type") (codes "text/plain; charset=utf-8")
          (record w { headers = delete (codes "Content-Length") w.headers }))))
