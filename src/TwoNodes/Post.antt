-- ===== src/TwoNodes/Post.antt =====
-- A `POST` that a node forwards to the node of the key.
use qa_d.Base.{
  ℕ, ◌≡◌, ◌≢◌, refl, ap, ◌∙◌, false, [], ◌∷◌, ◌++◌, ◌||◌, some, Text, codes, text_eq, text_eq-false,
  text_eq_refl, ok, arith, List, if◌then◌else◌, ◌==◌,
}
use qa_d.Storage.{Storage, Slice, slice}
use qa_d.Proto.{Peers, reply}
use qa_d.GrpcPool.{Grpc, Pool}
use qa_d.GrpcPool.Clients.{Errors, pool_peers}
use qa_d.GrpcServer
use qa_d.HttpServer.Response.{write_header}
use qa_d.HttpServer.{Method, Request, HashRing, Task}
use qa_d.HttpServer.Handlers.{Run, route, run_task, run_forward_post}
use qa_d.HttpServer.Requests.{post_lem}
use qa_d.TwoNodes.{Link, WriteArrives, decoded}

-- What the service stores of a pair with the bytes of a body.
write-decoded :
    (there : Storage) (s : there.State) (key : Text) (hash : ℕ) (body : List ℕ)
    → key ≢ []
    → (GrpcServer.write there s false
        (some (record { key = key; hash = hash; value = decoded (slice body) }))).1
      ≡ (if text_eq body [] || hash == 0 then s else there.write s key hash (slice body))
unfolding GrpcServer.write text_eq
write-decoded there s key hash [] k = rw (text_eq-false key [] k)
write-decoded there s key hash (c ∷ cs) k = rw (text_eq-false key [] k) (ground arith)

-- What the task of a forwarded `POST` does where its call is answered.
run_task-forward_post :
    (store : Storage) (peers : Peers) (ring : HashRing) (self_addr target key : Text) (hash : ℕ)
    (value : Slice) (s : store.State) (client : peers.Client) {u w : peers.World}
    → peers.get_client u target ≡ (reply client, w)
    → run_task store peers (some ring) self_addr (Task.forward_post target key hash value) s u
      ≡ (s, (peers.write w client (record { key = key; hash = hash; value = value })).1)
unfolding run_task run_forward_post
run_task-forward_post store peers ring self_addr target key hash value s client c =
    rw (run_forward_post, c, c) refl

module _ (g : Grpc) (errors : Errors g) (here there : Storage) (link : Link g errors there)
    (ring : HashRing) (a b : Text) where
  open link use {remote}

  abbrev Asked : Type 0
  Asked = Run here (pool_peers g errors) (some ring) a

  abbrev Owner : Type 0
  Owner = Run there (pool_peers g errors) (some ring) b

  -- The run of the node that is asked, and its task, where the call of that arrives.
  pub post_forwarded :
      (r : Request) (key body : Text) (hash : ℕ) (x : Asked)
      → r.method ≡ Method.post
      → r.body ≡ some body
      → key ≢ []
      → b ≢ a
      → ring.node_of key ≡ ok (hash, b)
      → x.tasks ≡ []
      → route here (pool_peers g errors) (some ring) a r (codes "api/" ++ key) x
        ≡ ok (record x {
          tasks = Task.forward_post b key hash (slice body) ∷ [];
          writer = write_header 202 x.writer;
        })
  post_forwarded r key body hash x m d k other n xs =
      post_lem here (pool_peers g errors) ring a r key b body hash x m d k n
      ∙ rw (text_eq-false b a other, xs) refl

  pub forwarded-stores :
      (key body : Text) (hash : ℕ) (conn : g.Conn) (s : here.State) (u : Pool g.Conn × g.World)
      (p : Pool g.Conn) (w w₁ : g.World)
      → key ≢ []
      → (pool_peers g errors).get_client u b ≡ (reply conn, (p, w))
      → WriteArrives g errors there link w conn
          (record { key = key; hash = hash; value = slice body })
          w₁
      → (run_task here
            (pool_peers g errors)
            (some ring)
            a
            (Task.forward_post b key hash (slice body))
            s
            u
          ≡ (s, (p, w₁)))
        × (remote w₁ ≡ (
            if text_eq body [] || hash == 0
            then remote w
            else there.write (remote w) key hash (slice body)))
  forwarded-stores key body hash conn s u p w w₁ k c (arrives, after) = (
    run_task-forward_post here (pool_peers g errors) ring a b key hash (slice body) s conn c
        ∙ rw arrives refl,
    after ∙ write-decoded there (remote w) key hash body k,
  )

  -- A `POST` comes to the same at both nodes. The node that is asked gives the same response and starts
  -- one task; where the call of this task arrives, it leaves the store of the other node as the task does
  -- that the other node starts for the same request, except that a body of no bytes, or a key with the
  -- hash 0, is not stored at all. The store of the node that is asked does not change.
  pub post_anywhere :
      (r : Request) (key body : Text) (hash : ℕ) (x : Asked) (y : Owner) (conn : g.Conn)
      (s : here.State) (u : Pool g.Conn × g.World) (p : Pool g.Conn) (w w₁ : g.World)
      → r.method ≡ Method.post
      → r.body ≡ some body
      → key ≢ []
      → b ≢ a
      → ring.node_of key ≡ ok (hash, b)
      → x.writer ≡ y.writer
      → x.tasks ≡ []
      → y.tasks ≡ []
      → (pool_peers g errors).get_client u b ≡ (reply conn, (p, w))
      → WriteArrives g errors there link w conn
          (record { key = key; hash = hash; value = slice body })
          w₁
      → (x' : Asked) × (y' : Owner) × (t t' : Task) × (route here
            (pool_peers g errors)
            (some ring)
            a
            r
            (codes "api/" ++ key)
            x
          ≡ ok x')
        × (route there (pool_peers g errors) (some ring) b r (codes "api/" ++ key) y ≡ ok y')
        × (x'.writer ≡ y'.writer)
        × (x'.tasks ≡ t ∷ [])
        × (y'.tasks ≡ t' ∷ [])
        × (run_task here (pool_peers g errors) (some ring) a t s u ≡ (s, (p, w₁)))
        × (remote w₁ ≡ (
            if text_eq body [] || hash == 0
            then remote w
            else (run_task there (pool_peers g errors) (some ring) b t' (remote w) u).0))
  unfolding run_task
  post_anywhere r key body hash x y conn s u p w w₁ m d k other n writers xs ys c arrives =
      let t' = Task.write_value key hash (slice body) in
      let (ran, stored) = forwarded-stores key body hash conn s u p w w₁ k c arrives in
      (
        record x {
          tasks = Task.forward_post b key hash (slice body) ∷ [];
          writer = write_header 202 x.writer;
        },
        record y { tasks = t' ∷ []; writer = write_header 202 y.writer },
        Task.forward_post b key hash (slice body),
        t',
        post_forwarded r key body hash x m d k other n xs,
        post_lem there (pool_peers g errors) ring b r key b body hash y m d k n
            ∙ rw (text_eq_refl b, ys) refl,
        ap (write_header 202) writers,
        refl,
        refl,
        ran,
        stored,
      )
