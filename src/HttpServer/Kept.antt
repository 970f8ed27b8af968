-- ===== src/HttpServer/Kept.antt =====
-- What the handlers of http_server/index.go keep: the store stays valid, and so does what each call of
-- another node keeps.
use qa_d.Base.{ℕ, ◌≡◌, some, Text, ok, inl, inr}
use qa_d.Storage.{Storage, Slice}
use qa_d.Proto.{Peers, Key, KeyValuePair, Reply-cases}
use qa_d.HttpServer.{Request, HashRing, Task}
use qa_d.HttpServer.Handled.{serve_http-Good}
use qa_d.HttpServer.Handlers.{
  Run, forward_get, run_forward_post, get_local, get_remote, serve_http, run_task,
}

-- There is room for what a task writes.
abbrev pub TaskFits : (store : Storage) → store.State → Task → Type 0
TaskFits store s (Task.write_value key hash value) = store.Room s value
TaskFits store s (Task.forward_post node key hash value) = Unit
TaskFits store s (Task.delete_value key) = Unit

module _ (store : Storage) (peers : Peers) (ring : HashRing) (self_addr : Text)
    (W : peers.World → Type 0)
    (get_client_keeps : (w : peers.World) (n : Text) → W w → W (peers.get_client w n).1)
    (read_keeps : (w : peers.World) (c : peers.Client) (k : Key) → W w → W (peers.read w c k).1)
    (write_keeps : (w : peers.World) (c : peers.Client) (p : KeyValuePair)
      → W w
      → W (peers.write w c p).1) where
  abbrev pub Good : Run store peers (some ring) self_addr → Type 0
  Good x = store.IsValid x.local × W x.world

  forward_get-keeps :
      (w : peers.World) (n key : Text)
      → W w
      → W (forward_get store peers (some ring) self_addr w n key).1
  unfolding forward_get
  forward_get-keeps w n key h = elim (Reply-cases (peers.get_client w n).0) [
    | inl (e, bad) ↦ rw (forward_get, bad) (get_client_keeps w n h)
    | inr (client, good) ↦ rw (forward_get, good) (read_keeps _ client _ (get_client_keeps w n h))
  ]

  get_local-keeps :
      (key : Text) (x : Run store peers (some ring) self_addr)
      → Good x
      → Good (get_local store peers (some ring) self_addr key x)
  unfolding get_local
  get_local-keeps key x h = (store.read_valid x.local key h.0, h.1)

  get_remote-keeps :
      (target key : Text) (x : Run store peers (some ring) self_addr)
      → Good x
      → Good (get_remote store peers (some ring) self_addr target key x)
  unfolding get_remote
  get_remote-keeps target key x h = (h.0, forward_get-keeps x.world target key h.1)

  pub serve_http-keeps :
      (r : Request) (x y : Run store peers (some ring) self_addr)
      → Good x
      → serve_http store peers (some ring) self_addr r x ≡ ok y
      → Good y
  serve_http-keeps r x y h e =
      serve_http-Good store peers ring self_addr r Good (λ w z g. g) get_local-keeps
        get_remote-keeps (λ key z g. g) (λ key hash target body z k m b n g. g) x y h e

  run_forward_post-keeps :
      (w : peers.World) (n key : Text) (hash : ℕ) (value : Slice)
      → W w
      → W (run_forward_post store peers (some ring) self_addr w n key hash value)
  unfolding run_forward_post
  run_forward_post-keeps w n key hash value h = elim (Reply-cases (peers.get_client w n).0) [
    | inl (e, bad) ↦ rw (run_forward_post, bad) (get_client_keeps w n h)
    | inr (client, good) ↦
        rw (run_forward_post, good) (write_keeps _ client _ (get_client_keeps w n h))
  ]

  pub run_task-keeps :
      (t : Task) (s : store.State) (w : peers.World)
      → store.IsValid s
      → W w
      → TaskFits store s t
      → store.IsValid (run_task store peers (some ring) self_addr t s w).0
        × W (run_task store peers (some ring) self_addr t s w).1
  unfolding run_task
  run_task-keeps (Task.write_value key hash value) s w v h fit =
      (store.write_valid s key hash value v fit, h)
  run_task-keeps (Task.forward_post node key hash value) s w v h fit =
      (v, run_forward_post-keeps w node key hash value h)
  run_task-keeps (Task.delete_value key) s w v h fit = (store.delete_valid s key v, h)
