-- ===== src/HttpServer/Handlers.antt =====
-- The methods of `Server`: routing, the handlers, the forwarding to other nodes, and the tasks that
-- the handlers start.
use qa_d.Base.{
  trim_prefix, ℕ, Bool, true, false, [], ◌∷◌, ◌++◌, Option, none, some, Text, codes, text_eq,
  has_prefix, length, if◌then◌else◌, Outcome, ok, panic, out_of_range, nil_dereference, ◌>>=◌,
}
use qa_d.Storage.{Storage, Slice, nil, slice}
use qa_d.Proto.{Peers, Status, not_found, unavailable, deadline_exceeded, Reply, reply, fail}
use qa_d.HttpServer.Response.{
  Writer, ClusterStatus, bytes, status_json, cluster_json, set_header, write_header, write_body,
  http_error,
}
use qa_d.HttpServer.{
  Method, Request, HashRing, Task, Session, trim_slashes, full_value, octet_stream,
}

abbrev pub json_header : Writer → Writer
json_header w = write_header 200 (set_header (codes "Content-Type") (codes "application/json") w)

abbrev pub method_not_allowed : Writer → Writer
method_not_allowed w = http_error (codes "Method Not Allowed") 405 w

unfoldable pub health_handler : Request → Writer → Writer
health_handler r w = elim r.method [
  | Method.get ↦ write_body (status_json (codes "healthy")) (json_header w)
  | _ ↦ method_not_allowed w
]

-- `cluster_status` without a ring is this node alone.
unfoldable pub cluster_status : Option HashRing → Text → ClusterStatus
cluster_status none self_addr = record {
  local_node = self_addr;
  total_nodes = 1;
  nodes = self_addr ∷ [];
}
cluster_status (some ring) self_addr = record {
  local_node = self_addr;
  total_nodes = length ring.get_nodes;
  nodes = ring.get_nodes;
}

unfoldable pub cluster_handler : Option HashRing → Text → Request → Writer → Writer
unfolding cluster_status
cluster_handler hash_ring self_addr r w = elim r.method [
  | Method.get ↦ write_body (cluster_json (cluster_status hash_ring self_addr)) (json_header w)
  | _ ↦ method_not_allowed w
]

abbrev pub is_not_found : Option Status → Bool
is_not_found none = false
is_not_found (some st) = elim st.code [ not_found ↦ true | _ ↦ false ]

-- The end of `handleGet`, for the value that was read here or there.
unfoldable pub send_value : Slice → Writer → Writer
send_value value w = elim value [
  | nil ↦ http_error (codes "Key not found") 404 w
  | slice bs ↦ write_body (bytes bs) (octet_stream (slice bs) w)
]

-- `handleForwardError`, for what `status.FromError` and `err.Error()` return.
unfoldable pub error_response : Option Status → Text → Text → Writer → Writer
error_response none text operation w = http_error (operation ++ codes " failed: " ++ text) 500 w
error_response (some st) text operation w = elim st.code [
  | not_found ↦ http_error (codes "Key not found") 404 w
  | unavailable ↦ http_error (codes "Service temporarily unavailable") 503 w
  | deadline_exceeded ↦ http_error (codes "Request timeout") 504 w
  | _ ↦ http_error (operation ++ codes " failed: " ++ st.message) 500 w
]

module _ (store : Storage) (peers : Peers) (hash_ring : Option HashRing) (self_addr : Text) where
  open store use {State}
  open peers use {World, Error}

  abbrev pub Run : Type 0
  Run = Session State World

  abbrev pub respond : (Writer → Writer) → Run → Run
  respond f x = record x { writer = f x.writer }

  abbrev pub spawn : Task → Run → Run
  spawn t x = record x { tasks = x.tasks ++ t ∷ [] }

  -- Whether the node is this one, the hash and the node.
  unfoldable pub should_route_locally : Text → Outcome (Bool × ℕ × Text)
  should_route_locally key = elim hash_ring [
    | none ↦ panic nil_dereference
    | some ring ↦ do
      (hash, target_node) ← ring.node_of key
      ok (text_eq target_node self_addr, hash, target_node)
  ]

  -- The value, `nil` where the other node has none, or an error.
  unfoldable pub forward_get : World → Text → Text → Reply Error Slice × World
  forward_get w node_name key =
      let (client_reply, w₁) = peers.get_client w node_name in
      elim client_reply [
        | fail e ↦ (fail (peers.wrap (codes "failed to get client for " ++ node_name) e), w₁)
        | reply client ↦
            let (read_reply, w₂) = peers.read w₁ client (record { key = key }) in
            (
              elim read_reply [
                | reply resp ↦ reply (full_value nil resp.payload)
                | fail e ↦
                    if is_not_found (peers.from_error e)
                    then reply nil
                    else fail (peers.wrap (codes "gRPC Read failed") e)
              ],
              w₂,
            )
      ]

  -- `forwardPost`: its errors are only logged.
  unfoldable pub run_forward_post : World → Text → Text → ℕ → Slice → World
  run_forward_post w node_name key hash value =
      let (client_reply, w₁) = peers.get_client w node_name in
      elim client_reply [
        | fail e ↦ w₁
        | reply client ↦
            (peers.write w₁ client (record { key = key; hash = hash; value = value })).1
      ]

  unfoldable pub handle_forward_error : Error → Text → Writer → Writer
  unfolding error_response
  handle_forward_error err operation w =
      error_response (peers.from_error err) (peers.error_text err) operation w

  -- The two branches of `handleGet`.
  unfoldable pub get_local : Text → Run → Run
  unfolding send_value
  get_local key x =
      let (value, s) = store.read x.local key in
      record x { local = s; writer = send_value value x.writer }

  unfoldable pub get_remote : Text → Text → Run → Run
  unfolding forward_get handle_forward_error send_value
  get_remote target_node key x =
      let (value_reply, w) = forward_get x.world target_node key in
      record x {
        world = w;
        writer = elim value_reply [
          | fail e ↦ handle_forward_error e (codes "GET") x.writer
          | reply value ↦ send_value value x.writer
        ];
      }

  unfoldable pub handle_get : Text → Run → Outcome Run
  unfolding should_route_locally get_local get_remote
  handle_get key x =
      if text_eq key [] then ok (respond (http_error (codes "Key cannot be empty") 400) x) else do
        (is_local, hash, target_node) ← should_route_locally key
        ok (if is_local then get_local key x else get_remote target_node key x)

  unfoldable pub handle_post : Request → Text → Run → Outcome Run
  unfolding should_route_locally
  handle_post r key x =
      if text_eq key []
      then ok (respond (http_error (codes "Key cannot be empty") 400) x)
      else elim r.body [
        | none ↦ ok (respond (http_error (codes "Failed to read body") 400) x)
        | some body ↦ do
          (is_local, hash, target_node) ← should_route_locally key
          let task =
              if is_local
              then Task.write_value key hash (slice body)
              else Task.forward_post target_node key hash (slice body)
          ok (respond (write_header 202) (spawn task x))
      ]

  unfoldable pub handle_delete : Text → Run → Outcome Run
  unfolding should_route_locally
  handle_delete key x =
      if text_eq key [] then ok (respond (http_error (codes "Key cannot be empty") 400) x) else do
        (is_local, hash, target_node) ← should_route_locally key
        ok (
            if is_local
            then respond (write_header 202) (spawn (Task.delete_value key) x)
            else respond
                (http_error
                  (codes "Delete not supported for remote key (node: " ++ target_node ++ codes ")")
                  501)
                x)

  -- The switch on the method at the end of `ServeHTTP`.
  unfoldable pub dispatch : Request → Text → Run → Outcome Run
  unfolding handle_get handle_post handle_delete
  dispatch r key x = elim r.method [
    | Method.get ↦ handle_get key x
    | Method.post ↦ handle_post r key x
    | Method.delete ↦ handle_delete key x
    | Method.other_method ↦ ok (respond method_not_allowed x)
  ]

  -- `ServeHTTP` from the trimmed path on. A path outside "api/" gets its 404 and then goes on.
  unfoldable pub route : Request → Text → Run → Outcome Run
  unfolding dispatch
  route r path x =
      if text_eq path (codes "health")
      then ok (respond (health_handler r) x)
      else if text_eq path (codes "cluster")
      then ok (respond (cluster_handler hash_ring self_addr r) x)
      else (let y =
            if has_prefix path (codes "api/")
            then x
            else respond (http_error (codes "Endpoint does not exist") 404) x in
          dispatch r (trim_prefix path (codes "api/")) y)

  -- `r.URL.Path[1:]` panics on an empty path.
  unfoldable pub serve_path : Request → Text → Run → Outcome Run
  unfolding route
  serve_path r [] x = panic out_of_range
  serve_path r (c ∷ cs) x = route r (trim_slashes cs) x

  unfoldable pub serve_http : Request → Run → Outcome Run
  unfolding serve_path
  serve_http r x = serve_path r r.path x

  -- What a started goroutine does.
  unfoldable pub run_task : Task → State → World → State × World
  unfolding run_forward_post
  run_task (Task.write_value key hash value) s w = (store.write s key hash value, w)
  run_task (Task.forward_post node key hash value) s w = (s, run_forward_post w node key hash value)
  run_task (Task.delete_value key) s w = (store.delete s key, w)
