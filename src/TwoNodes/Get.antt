-- ===== src/TwoNodes/Get.antt =====
-- A `GET` that a node forwards to the node of the key.
use qa_d.Base.{
  ℕ, ◌≡◌, ◌≢◌, refl, ap, ◌∙◌, [], ◌∷◌, ◌++◌, some, Text, codes, text_eq-false, text_eq_refl, ok,
}
use qa_d.Storage.{Storage, Slice, nil, slice, held_value}
use qa_d.Proto.{reply}
use qa_d.GrpcPool.{Grpc, Pool}
use qa_d.GrpcPool.Clients.{Errors, widen, pool_peers}
use qa_d.GrpcServer.{answer, missing}
use qa_d.GrpcServer.Behaviour.{read_lem, read-state}
use qa_d.HttpServer.{Method, Request, HashRing, full_value, append_chunk}
use qa_d.HttpServer.Handlers.{Run, route, get_local, forward_get, send_value}
use qa_d.HttpServer.Forward.{forward_get-reply, forward_get-missing, get_remote-reply}
use qa_d.HttpServer.Requests.{get_api}
use qa_d.TwoNodes.{Link, ReadArrives}

module _ (g : Grpc) (errors : Errors g) (here there : Storage) (link : Link g errors there)
    (ring : HashRing) (a b : Text) where
  open link use {remote, of_status, from_status}

  -- The node that is asked, and the node that has the key.
  abbrev Asked : Type 0
  Asked = Run here (pool_peers g errors) (some ring) a

  abbrev Owner : Type 0
  Owner = Run there (pool_peers g errors) (some ring) b

  -- What `forwardGet` makes of the answer of the service.
  forward_get-answer :
      (x : Asked) (key : Text) (conn : g.Conn) (p : Pool g.Conn) (w w₁ : g.World) (v : Slice)
      → v ≢ slice []
      → (pool_peers g errors).get_client x.world b ≡ (reply conn, (p, w))
      → g.read w conn (record { key = key }) ≡ (widen of_status (answer v), w₁)
      → forward_get here (pool_peers g errors) (some ring) a x.world b key ≡ (reply v, (p, w₁))
  unfolding full_value append_chunk
  forward_get-answer x key conn p w w₁ nil full c r =
      forward_get-missing here (pool_peers g errors) (some ring) a b key conn
        (errors.of_call (of_status missing)) c (rw r refl) (rw (from_status missing) refl)
  forward_get-answer x key conn p w w₁ (slice []) full c r = absurd (full refl)
  forward_get-answer x key conn p w w₁ (slice (y ∷ ys)) full c r =
      forward_get-reply here (pool_peers g errors) (some ring) a b key conn (slice (y ∷ ys) ∷ []) c
        (rw r refl)

  -- The run of the node that is asked, where the call arrives.
  pub get_forwarded :
      (r : Request) (key : Text) (hash : ℕ) (x : Asked) (conn : g.Conn) (p : Pool g.Conn)
      (w w₁ : g.World)
      → r.method ≡ Method.get
      → key ≢ []
      → b ≢ a
      → ring.node_of key ≡ ok (hash, b)
      → (pool_peers g errors).get_client x.world b ≡ (reply conn, (p, w))
      → ReadArrives g errors there link w conn (record { key = key }) w₁
      → there.IsValid (remote w)
      → held_value (there.held (remote w) key) ≢ slice []
      → route here (pool_peers g errors) (some ring) a r (codes "api/" ++ key) x
        ≡ ok (record x {
          world = (p, w₁);
          writer = send_value (held_value (there.held (remote w) key)) x.writer;
        })
  get_forwarded r key hash x conn p w w₁ m k other n c (arrives, after) valid full =
      let v = held_value (there.held (remote w) key) in
      let found = (read_lem there (remote w) (record { key = key }) valid k).0 in
      let forwarded =
        forward_get-answer x key conn p w w₁ v full c
          (arrives ∙ ap (λ z. (widen of_status z, w₁)) found) in
      get_api here (pool_peers g errors) ring a r key b hash x m k n
      ∙ rw (text_eq-false b a other)
          (ap ok (get_remote-reply here (pool_peers g errors) (some ring) a b key x v forwarded))

  -- A `GET` is answered alike by both nodes: the node that is asked forwards it, and where the call
  -- arrives it sends the response that the node of the key sends itself, headers included, for any key
  -- that holds no empty value. Neither what the stores hold nor the tasks of the two change.
  pub get_anywhere :
      (r : Request) (key : Text) (hash : ℕ) (x : Asked) (y : Owner) (conn : g.Conn)
      (p : Pool g.Conn) (w w₁ : g.World)
      → r.method ≡ Method.get
      → key ≢ []
      → b ≢ a
      → ring.node_of key ≡ ok (hash, b)
      → (pool_peers g errors).get_client x.world b ≡ (reply conn, (p, w))
      → ReadArrives g errors there link w conn (record { key = key }) w₁
      → y.local ≡ remote w
      → there.IsValid (remote w)
      → held_value (there.held (remote w) key) ≢ slice []
      → x.writer ≡ y.writer
      → (x' : Asked) × (y' : Owner) × (route here
            (pool_peers g errors)
            (some ring)
            a
            r
            (codes "api/" ++ key)
            x
          ≡ ok x')
        × (route there (pool_peers g errors) (some ring) b r (codes "api/" ++ key) y ≡ ok y')
        × (x'.writer ≡ y'.writer)
        × (x'.local ≡ x.local)
        × (x'.tasks ≡ x.tasks)
        × (y'.tasks ≡ y.tasks)
        × (remote w₁ ≡ y'.local)
        × ((q : Text) → there.held (remote w₁) q ≡ there.held (remote w) q)
  unfolding get_local
  get_anywhere r key hash x y conn p w w₁ m k other n c (arrives, after) same valid full writers =
      let v = held_value (there.held (remote w) key) in
      let kept = (read_lem there (remote w) (record { key = key }) valid k).1 in
      (
        record x { world = (p, w₁); writer = send_value v x.writer },
        get_local there (pool_peers g errors) (some ring) b key y,
        get_forwarded r key hash x conn p w w₁ m k other n c (arrives, after) valid full,
        get_api there (pool_peers g errors) ring b r key b hash y m k n ∙ rw (text_eq_refl b) refl,
        rw (same, there.read_value (remote w) key valid, writers) refl,
        refl,
        refl,
        refl,
        rw same (after ∙ read-state there (remote w) (record { key = key }) k),
        λ q. ap (λ s. there.held s q) after ∙ kept q,
      )
