-- ===== src/TwoNodes/Roundtrip.antt =====
-- A `POST` through one node and a `GET` through another, for a key of a third.
use qa_d.Base.{
  ℕ, ◌≡◌, ◌≢◌, ◌⊎◌, refl, sym, subst, ap, ◌∙◌, [], ◌∷◌, ◌++◌, some, Text, codes, text_eq,
  text_eq-false, text_eq_refl, ok, arith, List, inl, inr, ◌==◌, ◌||◌, if◌then◌else◌,
}
use qa_d.Storage.{Storage, Slice, nil, slice, held_value}
use qa_d.Proto.{reply}
use qa_d.GrpcPool.{Grpc, Pool}
use qa_d.GrpcPool.Clients.{Errors, pool_peers}
use qa_d.HttpServer.Response.{new_writer, write_header}
use qa_d.HttpServer.{Method, Request, HashRing, Task}
use qa_d.HttpServer.Handlers.{Run, route, run_task, send_value}
use qa_d.HttpServer.Requests.{Answers, send_value-Answers}
use qa_d.TwoNodes.{Link, ReadArrives, WriteArrives}
use qa_d.TwoNodes.Get.{get_forwarded}
use qa_d.TwoNodes.Post.{post_forwarded, forwarded-stores}

-- What is stored of a body that has bytes, under a hash.
stored_whole :
    {A : Type 0} (body : List ℕ) (hash : ℕ) (kept written : A)
    → body ≢ []
    → hash ≢ 0
    → (if text_eq body [] || hash == 0 then kept else written) ≡ written
stored_whole body hash kept written full hashed =
    rw (text_eq-false body [] full) (ground (arith, hashed))

-- What a store holds for a key that was just written.
held-write :
    (store : Storage) (s : store.State) (key : Text) (hash : ℕ) (v : Slice)
    → store.IsValid s
    → store.Room s v
    → (held_value (store.held (store.write s key hash v) key) ≡ v)
      ⊎ (held_value (store.held (store.write s key hash v) key) ≡ nil)
held-write store s key hash v valid room = elim (store.write_held s key hash v key valid room) [
  | inl gone ↦ inr (ap held_value gone)
  | inr there ↦ inl (ap held_value (rw (text_eq_refl key) at there))
]

not_empty : (body : List ℕ) (v : Slice) → body ≢ [] → (v ≡ slice body) ⊎ (v ≡ nil) → v ≢ slice []
not_empty body v full (inl whole) e = absurd (full (ground (arith, whole, e)))
not_empty body v full (inr gone) e = cc (gone, e)

module _ (g g' : Grpc) (errors : Errors g) (errors' : Errors g') (here here' there : Storage)
    (link : Link g errors there) (link' : Link g' errors' there) (ring : HashRing)
    (a a' b : Text) where
  abbrev Asked : Type 0
  Asked = Run here (pool_peers g errors) (some ring) a

  abbrev AskedLater : Type 0
  AskedLater = Run here' (pool_peers g' errors') (some ring) a'

  -- A `POST` at one node, with a body, for a key of another node whose store is valid and has room,
  -- whose hash is not 0, then its task, and then a `GET` for the key at a node that does not have the key
  -- either, which finds the store as the task left it: where both calls arrive, the `POST` answers 202 and
  -- starts one task, and the `GET` answers 200 with the posted bytes, or 404 where the store has evicted
  -- them, and never an older value.
  pub get-post_elsewhere :
      (r r' : Request) (key body : Text) (hash : ℕ) (x : Asked) (x' : AskedLater) (conn : g.Conn)
      (conn' : g'.Conn) (s : here.State) (u : Pool g.Conn × g.World) (p : Pool g.Conn)
      (p' : Pool g'.Conn) (w w₁ : g.World) (w' w₁' : g'.World)
      → r.method ≡ Method.post
      → r.body ≡ some body
      → r'.method ≡ Method.get
      → key ≢ []
      → body ≢ []
      → hash ≢ 0
      → b ≢ a
      → b ≢ a'
      → ring.node_of key ≡ ok (hash, b)
      → x.writer ≡ new_writer
      → x.tasks ≡ []
      → x'.writer ≡ new_writer
      → (pool_peers g errors).get_client u b ≡ (reply conn, (p, w))
      → WriteArrives g errors there link w conn
          (record { key = key; hash = hash; value = slice body })
          w₁
      → there.IsValid (link.remote w)
      → there.Room (link.remote w) (slice body)
      → link'.remote w' ≡ link.remote w₁
      → (pool_peers g' errors').get_client x'.world b ≡ (reply conn', (p', w'))
      → ReadArrives g' errors' there link' w' conn' (record { key = key }) w₁'
      → (y : Asked) × (t : Task) × (z : AskedLater) × (route here
            (pool_peers g errors)
            (some ring)
            a
            r
            (codes "api/" ++ key)
            x
          ≡ ok y)
        × (y.writer.status ≡ some 202)
        × (y.tasks ≡ t ∷ [])
        × (run_task here (pool_peers g errors) (some ring) a t s u ≡ (s, (p, w₁)))
        × (route here' (pool_peers g' errors') (some ring) a' r' (codes "api/" ++ key) x' ≡ ok z)
        × (Answers (slice body) z.writer ⊎ Answers nil z.writer)
  unfolding write_header
  get-post_elsewhere r r' key body hash x x' conn conn' s u p p' w w₁ w' w₁' m d m' k full hashed
        other other' n xw xs xw' c arrives valid room between c' arrives' =
      let (ran, stored) =
        forwarded-stores g errors here there link ring a b key body hash conn s u p w w₁ k c
          arrives in
      let s' = there.write (link.remote w) key hash (slice body) in
      let now : link'.remote w' ≡ s' = between ∙ stored ∙ stored_whole body hash _ _ full hashed in
      let v = held_value (there.held (link'.remote w') key) in
      let found : (v ≡ slice body) ⊎ (v ≡ nil) =
        subst
          (λ z.
            (held_value (there.held z key) ≡ slice body) ⊎ (held_value (there.held z key) ≡ nil))
          (sym now) (held-write there (link.remote w) key hash (slice body) valid room) in
      let valid' =
        subst there.IsValid (sym now)
          (there.write_valid (link.remote w) key hash (slice body) valid room) in
      let answers = subst (λ q. Answers v (send_value v q)) (sym xw') (send_value-Answers v) in
      (
        record x {
          tasks = Task.forward_post b key hash (slice body) ∷ [];
          writer = write_header 202 x.writer;
        },
        Task.forward_post b key hash (slice body),
        record x' { world = (p', w₁'); writer = send_value v x'.writer },
        post_forwarded g errors here there link ring a b r key body hash x m d k other n xs,
        rw xw refl,
        refl,
        ran,
        get_forwarded g' errors' here' there link' ring a' b r' key hash x' conn' p' w' w₁' m' k
            other' n c' arrives' valid' (not_empty body v full found),
        elim found [
          | inl whole ↦ inl (subst (λ q. Answers q (send_value v x'.writer)) whole answers)
          | inr gone ↦ inr (subst (λ q. Answers q (send_value v x'.writer)) gone answers)
        ],
      )
