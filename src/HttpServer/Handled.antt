-- ===== src/HttpServer/Handled.antt =====
-- What holds of every answer of http_server/index.go: a statement of the state, the tasks and the response
-- that each of the actions of the handlers keeps.
use qa_d.Base.{
  ℕ, ◌≡◌, refl, subst, ◌⊎◌, Bool-cases, List, [], ◌∷◌, some, Option-cases, Text, codes, text_eq,
  has_prefix, trim_prefix, ok, Outcome-cases, Holds, inl, inr, if◌then◌else◌,
}
use qa_d.Storage.{Storage, slice}
use qa_d.Proto.{Peers}
use qa_d.HttpServer.{Method, Request, HashRing, Task, trim_slashes}
use qa_d.HttpServer.Response.{Writer}
use qa_d.HttpServer.Handlers.{
  Run, spawn, should_route_locally, get_local, get_remote, handle_get, handle_post, handle_delete,
  dispatch, route, serve_path, serve_http,
}

-- The key of a path, behind "/api/".
unfoldable pub key_of : Text → Text
key_of [] = []
key_of (c ∷ cs) = trim_prefix (trim_slashes cs) (codes "api/")

-- The task of a `POST`.
abbrev pub post_task : Text → Text → ℕ → Text → List ℕ → Task
post_task self_addr key hash target body =
    if text_eq target self_addr
    then Task.write_value key hash (slice body)
    else Task.forward_post target key hash (slice body)

Method-cases :
    (m : Method)
    → (m ≡ Method.get) ⊎ (m ≡ Method.post) ⊎ (m ≡ Method.delete) ⊎ (m ≡ Method.other_method)
Method-cases Method.get = inl refl
Method-cases Method.post = inr (inl refl)
Method-cases Method.delete = inr (inr (inl refl))
Method-cases Method.other_method = inr (inr (inr refl))

module _ (store : Storage) (peers : Peers) (ring : HashRing) (self_addr : Text) (r : Request)
    (Good : Run store peers (some ring) self_addr → Type 0)
    (respond_good : (w : Writer) (x : Run store peers (some ring) self_addr)
      → Good x
      → Good (record x { writer = w }))
    (local_good : (key : Text) (x : Run store peers (some ring) self_addr)
      → Good x
      → Good (get_local store peers (some ring) self_addr key x))
    (remote_good : (target key : Text) (x : Run store peers (some ring) self_addr)
      → Good x
      → Good (get_remote store peers (some ring) self_addr target key x))
    (delete_good : (key : Text) (x : Run store peers (some ring) self_addr)
      → Good x
      → Good (spawn store peers (some ring) self_addr (Task.delete_value key) x))
    (post_good : (key : Text) (hash : ℕ) (target : Text) (body : List ℕ)
        (x : Run store peers (some ring) self_addr)
      → key ≡ key_of r.path
      → r.method ≡ Method.post
      → r.body ≡ some body
      → ring.node_of key ≡ ok (hash, target)
      → Good x
      → Good (
          spawn store peers
            (some ring)
            self_addr
            (post_task self_addr key hash target body)
            x)) where
  handle_get-IsGood :
      (key : Text) (x : Run store peers (some ring) self_addr)
      → Good x
      → Holds Good (handle_get store peers (some ring) self_addr key x)
  unfolding handle_get should_route_locally
  handle_get-IsGood key x h = elim (Bool-cases (text_eq key [])) [
    | inl empty ↦ rw (handle_get, empty) (respond_good _ x h)
    | inr given ↦ elim (Outcome-cases (ring.node_of key)) [
      | inr (p, lost) ↦ rw (handle_get, given, should_route_locally, lost) tt
      | inl ((hash, target), found) ↦ elim (Bool-cases (text_eq target self_addr)) [
        | inl here ↦ rw (handle_get, given, should_route_locally, found, here) (local_good key x h)
        | inr there ↦
            rw (handle_get, given, should_route_locally, found, there) (remote_good target key x h)
      ]
    ]
  ]

  handle_post-IsGood :
      (key : Text) (x : Run store peers (some ring) self_addr)
      → key ≡ key_of r.path
      → r.method ≡ Method.post
      → Good x
      → Holds Good (handle_post store peers (some ring) self_addr r key x)
  unfolding handle_post should_route_locally
  handle_post-IsGood key x k m h = elim (Bool-cases (text_eq key [])) [
    | inl empty ↦ rw (handle_post, empty) (respond_good _ x h)
    | inr given ↦ elim (Option-cases r.body) [
      | inl unread ↦ rw (handle_post, given, unread) (respond_good _ x h)
      | inr (body, read) ↦ elim (Outcome-cases (ring.node_of key)) [
        | inr (p, lost) ↦ rw (handle_post, given, read, should_route_locally, lost) tt
        | inl ((hash, target), found) ↦
            let spawned = post_good key hash target body x k m read found h in
            rw (handle_post, given, read, should_route_locally, found) (respond_good _ _ spawned)
      ]
    ]
  ]

  handle_delete-IsGood :
      (key : Text) (x : Run store peers (some ring) self_addr)
      → Good x
      → Holds Good (handle_delete store peers (some ring) self_addr key x)
  unfolding handle_delete should_route_locally
  handle_delete-IsGood key x h = elim (Bool-cases (text_eq key [])) [
    | inl empty ↦ rw (handle_delete, empty) (respond_good _ x h)
    | inr given ↦ elim (Outcome-cases (ring.node_of key)) [
      | inr (p, lost) ↦ rw (handle_delete, given, should_route_locally, lost) tt
      | inl ((hash, target), found) ↦ elim (Bool-cases (text_eq target self_addr)) [
        | inl here ↦
            rw (handle_delete, given, should_route_locally, found, here)
              (respond_good _ _ (delete_good key x h))
        | inr there ↦
            rw (handle_delete, given, should_route_locally, found, there) (respond_good _ x h)
      ]
    ]
  ]

  dispatch-IsGood :
      (key : Text) (x : Run store peers (some ring) self_addr)
      → key ≡ key_of r.path
      → Good x
      → Holds Good (dispatch store peers (some ring) self_addr r key x)
  unfolding dispatch
  dispatch-IsGood key x k h = elim (Method-cases r.method) [
    | inl get ↦ rw (dispatch, get) (handle_get-IsGood key x h)
    | inr (inl post) ↦ rw (dispatch, post) (handle_post-IsGood key x k post h)
    | inr (inr (inl delete)) ↦ rw (dispatch, delete) (handle_delete-IsGood key x h)
    | inr (inr (inr other)) ↦ rw (dispatch, other) (respond_good _ x h)
  ]

  route-IsGood :
      (path : Text) (x : Run store peers (some ring) self_addr)
      → trim_prefix path (codes "api/") ≡ key_of r.path
      → Good x
      → Holds Good (route store peers (some ring) self_addr r path x)
  unfolding route
  route-IsGood path x k h = elim (Bool-cases (text_eq path (codes "health"))) [
    | inl health ↦ rw (route, health) (respond_good _ x h)
    | inr path_1 ↦ elim (Bool-cases (text_eq path (codes "cluster"))) [
      | inl cluster ↦ rw (route, path_1, cluster) (respond_good _ x h)
      | inr path_2 ↦ elim (Bool-cases (has_prefix path (codes "api/"))) [
        | inl api ↦ rw (route, path_1, path_2, api) (dispatch-IsGood _ x k h)
        | inr wild ↦ rw (route, path_1, path_2, wild) (dispatch-IsGood _ _ k (respond_good _ x h))
      ]
    ]
  ]

  serve_path-IsGood :
      (path : Text) (x : Run store peers (some ring) self_addr)
      → key_of path ≡ key_of r.path
      → Good x
      → Holds Good (serve_path store peers (some ring) self_addr r path x)
  unfolding serve_path key_of
  serve_path-IsGood [] x k h = tt
  serve_path-IsGood (c ∷ cs) x k h = route-IsGood (trim_slashes cs) x k h

  -- A statement that each action keeps holds of what `ServeHTTP` returns.
  pub serve_http-Good :
      (x y : Run store peers (some ring) self_addr)
      → Good x
      → serve_http store peers (some ring) self_addr r x ≡ ok y
      → Good y
  unfolding serve_http
  serve_http-Good x y h e = subst (Holds Good) e (serve_path-IsGood r.path x refl h)
