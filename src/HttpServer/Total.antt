-- ===== src/HttpServer/Total.antt =====
-- Every request is answered: on a node with a valid ring no handler panics, and each sets a status.
use qa_d.Base.{
  ℕ, ◌≡◌, ◌≢◌, refl, true, Bool-cases, [], ◌∷◌, ◌++◌, Option, none, some, Option-cases, Text, codes,
  text_eq, Outcome, ok, panic, arith, inl, inr, is_some,
}
use qa_d.Storage.{Storage, Slice, nil, slice}
use qa_d.Proto.{Peers, Status, reply, fail}
use qa_d.Ring.{ConsistentHashRing, node_of, get_nodes}
use qa_d.Ring.Lookup.{node_name, node_of_direct-pick}
use qa_d.Ring.Spec.{pick}
use qa_d.Ring.Valid.{IsValid}
use qa_d.HttpServer.Response.{Writer, Chunk, bytes, write_header, write_body, http_error}
use qa_d.HttpServer.{Method, Request, HashRing, trim_slashes}
use qa_d.HttpServer.Handlers.{
  Run, respond, method_not_allowed, route, serve_http, serve_path, send_value, get_local,
  get_remote, forward_get, handle_forward_error, error_response, handle_get, handle_post,
  handle_delete, dispatch, should_route_locally, health_handler, cluster_handler,
}

abbrev HasStatus : Writer → Type 0
HasStatus w = is_some w.status ≡ true

write_header-HasStatus : (code : ℕ) (w : Writer) → HasStatus (write_header code w)
unfolding write_header
write_header-HasStatus code w = ground arith

write_body-HasStatus : (chunk : Chunk) (w : Writer) → HasStatus (write_body chunk w)
unfolding write_body
write_body-HasStatus chunk w = write_header-HasStatus 200 w

http_error-HasStatus :
    (message : Text) (code : ℕ) (w : Writer) → HasStatus (http_error message code w)
unfolding http_error
http_error-HasStatus message code w = write_body-HasStatus (bytes (message ++ codes "\n")) _

send_value-HasStatus : (v : Slice) (w : Writer) → HasStatus (send_value v w)
unfolding send_value
send_value-HasStatus nil w = http_error-HasStatus (codes "Key not found") 404 w
send_value-HasStatus (slice bs) w = write_body-HasStatus (bytes bs) _

error_response-HasStatus :
    (st : Option Status) (text op : Text) (w : Writer) → HasStatus (error_response st text op w)
unfolding error_response
error_response-HasStatus none text op w =
    http_error-HasStatus (op ++ codes " failed: " ++ text) 500 w
error_response-HasStatus (some st) text op w = grind (arith, http_error-HasStatus)

health_handler-HasStatus : (r : Request) (w : Writer) → HasStatus (health_handler r w)
unfolding health_handler
health_handler-HasStatus r w = grind (arith, http_error-HasStatus, write_body-HasStatus)

cluster_handler-HasStatus :
    (h : Option HashRing) (self_addr : Text) (r : Request) (w : Writer)
    → HasStatus (cluster_handler h self_addr r w)
unfolding cluster_handler
cluster_handler-HasStatus h self_addr r w =
    grind (arith, http_error-HasStatus, write_body-HasStatus)

-- The ring of the node, as the server uses it.
abbrev pub hash_ring_of : (Text → ℕ) → ConsistentHashRing → HashRing
hash_ring_of sum64 c = record { node_of = node_of sum64 c; get_nodes = get_nodes c }

-- The calls of `NodeOf` return.
abbrev pub IsTotal : HashRing → Type 0
IsTotal ring = (key : Text) → (p : ℕ × Text) × (ring.node_of key ≡ ok p)

hash_ring_of-IsTotal :
    (sum64 : Text → ℕ) (c : ConsistentHashRing) → IsValid sum64 c → IsTotal (hash_ring_of sum64 c)
unfolding node_of
hash_ring_of-IsTotal sum64 c v key = (
  (sum64 key, node_name (pick (sum64 key) c.ring)),
  rw (node_of_direct-pick c (sum64 key) v.sorted) refl,
)

module _ (store : Storage) (peers : Peers) (ring : HashRing) (self_addr : Text)
    (total : IsTotal ring) where
  -- The handler returns, with a status set.
  abbrev pub Answered : Outcome (Run store peers (some ring) self_addr) → Type 0
  Answered (ok y) = HasStatus y.writer
  Answered (panic p) = ⊥

  get_remote-HasStatus :
      (target key : Text) (x : Run store peers (some ring) self_addr)
      → HasStatus (get_remote store peers (some ring) self_addr target key x).writer
  unfolding get_remote
  get_remote-HasStatus target key x =
      elim (forward_get store peers (some ring) self_addr x.world target key).0
        as (λ v. HasStatus (elim v as (λ _. Writer) [
          | fail e ↦ handle_forward_error store peers (some ring) self_addr e (codes "GET") x.writer
          | reply value ↦ send_value value x.writer
        ])) [
          | fail e ↦ (unfold handle_forward_error in (error_response-HasStatus _ _ _ x.writer))
          | reply value ↦ send_value-HasStatus value x.writer
        ]

  handle_get-Answered :
      (key : Text) (x : Run store peers (some ring) self_addr)
      → Answered (handle_get store peers (some ring) self_addr key x)
  unfolding handle_get
  handle_get-Answered key x = elim (Bool-cases (text_eq key [])) [
    | inl empty ↦ rw empty (http_error-HasStatus (codes "Key cannot be empty") 400 x.writer)
    | inr named ↦
        let ((hash, target), found) = total key in
        rw (named, should_route_locally, found)
          (elim (Bool-cases (text_eq target self_addr)) [
            | inl here ↦ rw (here, get_local) (send_value-HasStatus _ x.writer)
            | inr there ↦ rw there (get_remote-HasStatus target key x)
          ])
  ]

  handle_post-Answered :
      (r : Request) (key : Text) (x : Run store peers (some ring) self_addr)
      → Answered (handle_post store peers (some ring) self_addr r key x)
  unfolding handle_post
  handle_post-Answered r key x = elim (Bool-cases (text_eq key [])) [
    | inl empty ↦ rw empty (http_error-HasStatus (codes "Key cannot be empty") 400 x.writer)
    | inr named ↦ elim (Option-cases r.body) [
      | inl broken ↦
          rw (named, broken) (http_error-HasStatus (codes "Failed to read body") 400 x.writer)
      | inr (body, read) ↦
          let ((hash, target), found) = total key in
          rw (named, read, should_route_locally, found) (write_header-HasStatus 202 x.writer)
    ]
  ]

  handle_delete-Answered :
      (key : Text) (x : Run store peers (some ring) self_addr)
      → Answered (handle_delete store peers (some ring) self_addr key x)
  unfolding handle_delete
  handle_delete-Answered key x = elim (Bool-cases (text_eq key [])) [
    | inl empty ↦ rw empty (http_error-HasStatus (codes "Key cannot be empty") 400 x.writer)
    | inr named ↦
        let ((hash, target), found) = total key in
        rw (named, should_route_locally, found)
          (elim (Bool-cases (text_eq target self_addr)) [
            | inl here ↦ rw here (write_header-HasStatus 202 x.writer)
            | inr there ↦ rw there (http_error-HasStatus _ 501 x.writer)
          ])
  ]

  dispatch-Answered :
      (r : Request) (key : Text) (x : Run store peers (some ring) self_addr)
      → Answered (dispatch store peers (some ring) self_addr r key x)
  unfolding dispatch
  dispatch-Answered r key x =
      elim r.method
        as (λ m. Answered (elim m as (λ _. Outcome (Run store peers (some ring) self_addr)) [
          | Method.get ↦ handle_get store peers (some ring) self_addr key x
          | Method.post ↦ handle_post store peers (some ring) self_addr r key x
          | Method.delete ↦ handle_delete store peers (some ring) self_addr key x
          | Method.other_method ↦
              ok (respond store peers (some ring) self_addr method_not_allowed x)
        ])) [
          | Method.get ↦ handle_get-Answered key x
          | Method.post ↦ handle_post-Answered r key x
          | Method.delete ↦ handle_delete-Answered key x
          | Method.other_method ↦ http_error-HasStatus (codes "Method Not Allowed") 405 x.writer
        ]

  route-Answered :
      (r : Request) (path : Text) (x : Run store peers (some ring) self_addr)
      → Answered (route store peers (some ring) self_addr r path x)
  unfolding route
  route-Answered r path x = elim (Bool-cases (text_eq path (codes "health"))) [
    | inl health ↦ rw health (health_handler-HasStatus r x.writer)
    | inr other ↦ elim (Bool-cases (text_eq path (codes "cluster"))) [
      | inl cluster ↦ rw (other, cluster) (cluster_handler-HasStatus _ self_addr r x.writer)
      | inr key ↦ rw (other, key) (dispatch-Answered r _ _)
    ]
  ]

  serve_path-Answered :
      (r : Request) (path : Text) (x : Run store peers (some ring) self_addr)
      → path ≢ []
      → Answered (serve_path store peers (some ring) self_addr r path x)
  unfolding serve_path
  serve_path-Answered r [] x h = absurd (h refl)
  serve_path-Answered r (c ∷ cs) x h = route-Answered r (trim_slashes cs) x

-- On a node with a valid ring no request with a path panics, and each gets a status.
pub serve_http_total :
    (store : Storage) (peers : Peers) (sum64 : Text → ℕ) (c : ConsistentHashRing) (self_addr : Text)
    (r : Request) (x : Run store peers (some (hash_ring_of sum64 c)) self_addr)
    → IsValid sum64 c
    → r.path ≢ []
    → (y : Run store peers (some (hash_ring_of sum64 c)) self_addr) × (serve_http store peers
          (some (hash_ring_of sum64 c))
          self_addr
          r
          x
        ≡ ok y)
      × (code : ℕ) × (y.writer.status ≡ some code)
unfolding serve_http
serve_http_total store peers sum64 c self_addr r x v h =
    go (serve_http store peers (some (hash_ring_of sum64 c)) self_addr r x) refl (
      serve_path-Answered store peers (hash_ring_of sum64 c) self_addr
        (hash_ring_of-IsTotal sum64 c v) r r.path x h)
  where
    go :
        (o : Outcome (Run store peers (some (hash_ring_of sum64 c)) self_addr))
        → serve_http store peers (some (hash_ring_of sum64 c)) self_addr r x ≡ o
        → Answered store peers (hash_ring_of sum64 c) self_addr (hash_ring_of-IsTotal sum64 c v) o
        → (y : Run store peers (some (hash_ring_of sum64 c)) self_addr) × (serve_http store peers
              (some (hash_ring_of sum64 c))
              self_addr
              r
              x
            ≡ ok y)
          × (code : ℕ) × (y.writer.status ≡ some code)
    go (ok y) e a = elim (Option-cases y.writer.status) [
      | inl unset ↦ absurd (ground arith)
      | inr (code, set) ↦ (y, e, code, set)
    ]
    go (panic p) e a = elim a [ ]
