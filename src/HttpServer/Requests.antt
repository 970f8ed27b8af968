-- ===== src/HttpServer/Requests.antt =====
-- What the server answers to a request, and what it starts, on every path.
use qa_d.Base.{
  ℕ, ◌≡◌, ◌≢◌, refl, ap₂, ◌∙◌, Bool, List, [], ◌∷◌, ◌++◌, Option, some, Text, codes,
  trim_prefix-append, has_prefix-append, text_eq, text_eq-false, text_eq_refl, lookup, insert,
  delete, length, if◌then◌else◌, ok,
}
use qa_d.Base.Decimal.{sprint}
use qa_d.Storage.{Storage, Slice, nil, slice, held_value}
use qa_d.Proto.{Peers}
use qa_d.HttpServer.Response.{
  Writer, bytes, set_header, write_header, write_body, http_error, new_writer,
}
use qa_d.HttpServer.{Method, Request, HashRing, Task}
use qa_d.HttpServer.Handlers.{
  Run, respond, should_route_locally, handle_get, handle_post, handle_delete, dispatch, route,
  send_value, get_local, get_remote,
}

-- The response to a read that found this value.
abbrev pub Answers : Slice → Writer → Type 0
Answers nil w = (w.status ≡ some 404) × (w.body ≡ bytes (codes "Key not found\n") ∷ [])
Answers (slice bs) w =
    (w.status ≡ some 200)
    × (w.body ≡ bytes bs ∷ [])
    × (lookup (codes "Content-Length") w.sent ≡ some (sprint (length bs)))

pub send_value-Answers : (v : Slice) → Answers v (send_value v new_writer)
unfolding send_value http_error write_header write_body set_header insert lookup text_eq delete
send_value-Answers nil = (refl, refl)
send_value-Answers (slice bs) = (refl, refl, refl)

module _ (store : Storage) (peers : Peers) (hash_ring : Option HashRing) (self_addr : Text) where
  -- A path under "api/" goes to the handlers with its key, and with no response yet.
  route_api :
      (r : Request) (key : Text) (x : Run store peers hash_ring self_addr)
      → route store peers hash_ring self_addr r (codes "api/" ++ key) x
        ≡ dispatch store peers hash_ring self_addr r key x
  unfolding route text_eq
  route_api r key x =
      ap₂
        (λ k (b : Bool). dispatch store peers hash_ring self_addr r k (
          if b
          then x
          else respond store peers hash_ring self_addr
              (http_error (codes "Endpoint does not exist") 404) x))
        (trim_prefix-append (codes "api/") key) (has_prefix-append (codes "api/") key)

module _ (store : Storage) (peers : Peers) (ring : HashRing) (self_addr : Text) where
  -- The task that a request for a key starts at the node, or for it.
  abbrev pub post_task : Text → ℕ → Text → List ℕ → Task
  post_task key hash target body =
      if text_eq target self_addr
      then Task.write_value key hash (slice body)
      else Task.forward_post target key hash (slice body)

  -- `POST /api/<key>` with a key and a body, where the ring returns a node, answers 202 and starts
  -- one task: the write of the body at this node where the ring gives the key to it, and else the
  -- forwarding to the node that has it. Nothing is stored before the task runs.
  pub post_lem :
      (r : Request) (key target body : Text) (hash : ℕ) (x : Run store peers (some ring) self_addr)
      → r.method ≡ Method.post
      → r.body ≡ some body
      → key ≢ []
      → ring.node_of key ≡ ok (hash, target)
      → route store peers (some ring) self_addr r (codes "api/" ++ key) x
        ≡ ok (record x {
          tasks = x.tasks ++ post_task key hash target body ∷ [];
          writer = write_header 202 x.writer;
        })
  unfolding dispatch handle_post should_route_locally
  post_lem r key target body hash x m b k n =
      route_api store peers (some ring) self_addr r key x
      ∙ rw (m, dispatch, b, handle_post, text_eq-false key [] k, n, should_route_locally) refl

  -- `DELETE /api/<key>` with a key, where the ring returns a node, answers 202 and starts the
  -- deletion where the ring gives the key to this node. For a key of another node it answers 501,
  -- names that node, and starts nothing.
  pub delete_lem :
      (r : Request) (key target : Text) (hash : ℕ) (x : Run store peers (some ring) self_addr)
      → r.method ≡ Method.delete
      → key ≢ []
      → ring.node_of key ≡ ok (hash, target)
      → route store peers (some ring) self_addr r (codes "api/" ++ key) x
        ≡ ok (
            if text_eq target self_addr
            then record x {
              tasks = x.tasks ++ Task.delete_value key ∷ [];
              writer = write_header 202 x.writer;
            }
            else record x {
              writer =
                  http_error
                    (codes "Delete not supported for remote key (node: " ++ target ++ codes ")")
                    501
                    x.writer;
            })
  unfolding dispatch handle_delete should_route_locally
  delete_lem r key target hash x m k n =
      route_api store peers (some ring) self_addr r key x
      ∙ rw (m, dispatch, handle_delete, text_eq-false key [] k, n, should_route_locally) refl

  -- `GET /api/<key>` is the read of this node, or a call of the node that has the key; it starts
  -- nothing.
  pub get_api :
      (r : Request) (key target : Text) (hash : ℕ) (x : Run store peers (some ring) self_addr)
      → r.method ≡ Method.get
      → key ≢ []
      → ring.node_of key ≡ ok (hash, target)
      → route store peers (some ring) self_addr r (codes "api/" ++ key) x
        ≡ ok (
            if text_eq target self_addr
            then get_local store peers (some ring) self_addr key x
            else get_remote store peers (some ring) self_addr target key x)
  unfolding dispatch handle_get should_route_locally
  get_api r key target hash x m k n =
      route_api store peers (some ring) self_addr r key x
      ∙ rw (m, dispatch, handle_get, text_eq-false key [] k, n, should_route_locally) refl

  -- A `GET` for a key of this node, over a valid store, answers 200 with exactly the bytes that the
  -- store holds, an empty value included, and 404 where it holds none; nothing that the store holds
  -- changes.
  pub get_lem :
      (r : Request) (key : Text) (hash : ℕ) (x : Run store peers (some ring) self_addr)
      → r.method ≡ Method.get
      → key ≢ []
      → ring.node_of key ≡ ok (hash, self_addr)
      → store.IsValid x.local
      → x.writer ≡ new_writer
      → (y : Run store peers (some ring) self_addr) × (route store peers
            (some ring)
            self_addr
            r
            (codes "api/" ++ key)
            x
          ≡ ok y)
        × Answers (held_value (store.held x.local key)) y.writer
        × ((q : Text) → store.held y.local q ≡ store.held x.local q)
        × (y.tasks ≡ x.tasks)
  unfolding get_local
  get_lem r key hash x m k n v w = (
    get_local store peers (some ring) self_addr key x,
    get_api r key self_addr hash x m k n ∙ rw (text_eq_refl self_addr) refl,
    rw (store.read_value x.local key v, w)
        (send_value-Answers (held_value (store.held x.local key))),
    (λ q. store.read_held x.local key q v),
    refl,
  )
