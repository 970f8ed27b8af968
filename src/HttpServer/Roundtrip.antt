-- ===== src/HttpServer/Roundtrip.antt =====
-- A `GET` that follows a `POST` and its task (http_server/index.go).
use qa_d.Base.{
  ℕ, ◌≡◌, ◌≢◌, ◌⊎◌, refl, subst, ◌∙◌, [], ◌∷◌, ◌++◌, some, Text, codes, text_eq_refl, ok, inl, inr,
}
use qa_d.Storage.{Storage, nil, slice, held_value}
use qa_d.Proto.{Peers}
use qa_d.HttpServer.Response.{write_header, new_writer}
use qa_d.HttpServer.{Method, Request, HashRing, Task}
use qa_d.HttpServer.Handlers.{Run, route, run_task}
use qa_d.HttpServer.Requests.{Answers, get_lem, post_lem}

module _ (store : Storage) (peers : Peers) (ring : HashRing) (self_addr : Text) where
  -- A `POST` for a key of this node, then its task, then a `GET` for the key, over a valid store
  -- with room for the body: the `POST` answers 202 and starts one task, and the `GET` answers 200
  -- with the bytes that were posted, or 404 where the store has evicted them, and never an older
  -- value.
  pub get-post :
      (p g : Request) (key body : Text) (hash : ℕ) (x : Run store peers (some ring) self_addr)
      → p.method ≡ Method.post
      → p.body ≡ some body
      → g.method ≡ Method.get
      → key ≢ []
      → ring.node_of key ≡ ok (hash, self_addr)
      → store.IsValid x.local
      → store.Room x.local (slice body)
      → x.writer ≡ new_writer
      → x.tasks ≡ []
      → (y : Run store peers (some ring) self_addr) × (z : Run store peers (some ring) self_addr)
        × (t : Task) × (route store peers (some ring) self_addr p (codes "api/" ++ key) x ≡ ok y)
        × (y.writer.status ≡ some 202)
        × (y.tasks ≡ t ∷ [])
        × (route store peers (some ring) self_addr g (codes "api/" ++ key) (record y {
          local = (run_task store peers (some ring) self_addr t y.local y.world).0;
          tasks = [];
          writer = new_writer;
        })
            ≡ ok z)
        × (Answers (slice body) z.writer ⊎ Answers nil z.writer)
  unfolding run_task write_header
  get-post p g key body hash x pm pb gm k n v room w none_started =
      let t : Task = Task.write_value key hash (slice body) in
      let s' = store.write x.local key hash (slice body) in
      let y : Run store peers (some ring) self_addr = record x {
        tasks = t ∷ [];
        writer = write_header 202 new_writer;
      } in
      let posted = post_lem store peers ring self_addr p key self_addr body hash x pm pb k n in
      let y' : Run store peers (some ring) self_addr = record x {
        local = s';
        tasks = [];
        writer = new_writer;
      } in
      let valid = store.write_valid x.local key hash (slice body) v room in
      let (z, got, answers, kept, quiet) =
        get_lem store peers ring self_addr g key hash y' gm k n valid refl in
      (
        y,
        z,
        t,
        posted ∙ rw (text_eq_refl self_addr, none_started, w) refl,
        refl,
        refl,
        got,
        elim (store.write_held x.local key hash (slice body) key v room) [
          | inl gone ↦ inr (subst (λ h. Answers (held_value h) z.writer) gone answers)
          | inr there ↦
              let stored = rw (text_eq_refl key) at there in
              inl (subst (λ h. Answers (held_value h) z.writer) stored answers)
        ],
      )
