-- ===== src/HttpServer/Tests.antt =====
-- Runs of the server: a node with a store for five bytes, and one other node that has one value.
use qa_d.Base.{
  ℕ, ◌+◌, ◌≡◌, ◌≢◌, ◌⊎◌, refl, Bool, true, false, [], ◌∷◌, ◌++◌, some, Text, codes, text_eq,
  text_neq, if◌then◌else◌, ok, arith, inr,
}
use qa_d.Base.Int64.{max_zero}
use qa_d.Storage.{nil, slice}
use qa_d.Storage.Fifo.{new_fifo_storage}
use qa_d.Storage.Fifo.Store.{fifo_storage, IsSteady, run-IsSteady, run}
use qa_d.Proto.{Peers, Status, unavailable, void, reply, fail}
use qa_d.HttpServer.Response.{new_writer}
use qa_d.HttpServer.{Method, Request, HashRing, Task}
use qa_d.HttpServer.Handlers.{Run, route, run_task, get_remote}
use qa_d.HttpServer.Requests.{Answers}
use qa_d.HttpServer.Forward.{status_for, code_of, Fails, WrapKeepsCode, get_remote-error}
use qa_d.HttpServer.Roundtrip.{get-post}

abbrev me : Text
me = codes "n1"

abbrev you : Text
you = codes "n2"

abbrev key : Text
key = codes "k"

abbrev body : Text
body = 1 ∷ 2 ∷ []

abbrev down : Status
down = record { code = unavailable; message = codes "no answer" }

-- The other node answers its first call with a value in two chunks, and is down from then on. A
-- wrapped error is the error with its prefix before the message.
abbrev others : Peers
others = record {
  World = Bool;
  Client = Text;
  Error = Status;
  get_client = λ w node. (reply node, w);
  read = λ w client k. (
    (if w then reply (record { payload = slice (1 ∷ []) ∷ slice (2 ∷ []) ∷ [] }) else fail down),
    false,
  );
  write = λ w client pair. (reply void, w);
  from_error = λ e. some e;
  wrap = λ t e. record e { message = t ++ codes ": " ++ e.message };
  error_text = λ e. e.message;
}

-- Every key is mine.
abbrev mine : HashRing
mine = record { node_of = λ k. ok (11, me); get_nodes = me ∷ [] }

-- Every key is the other node's.
abbrev yours : HashRing
yours = record { node_of = λ k. ok (11, you); get_nodes = me ∷ you ∷ [] }

abbrev start : (ring : HashRing) → Bool → Run fifo_storage others (some ring) me
start ring up = record { local = new_fifo_storage 5; world = up; tasks = []; writer = new_writer }

abbrev request : Method → Text → Request
request m path = record { method = m; path = path; body = some body }

start-IsSteady : IsSteady (new_fifo_storage 5)
unfolding run
start-IsSteady = run-IsSteady 5 [] (omega arith) tt

room : fifo_storage.Room (new_fifo_storage 5) (slice body)
unfolding new_fifo_storage max_zero
room = omega arith

key_named : key ≢ []
unfolding text_eq
key_named = text_neq key [] refl

abbrev api_k : Text
api_k = codes "/api/k"

wrap_keeps : WrapKeepsCode fifo_storage others (some yours) me
wrap_keeps t e = refl

you_fail : Fails fifo_storage others (some yours) me false you key down
you_fail = inr (you, false, false, refl, refl)

get_remote-error_example :
    (get_remote fifo_storage others (some yours) me you key (start yours false)).writer.status
    ≡ some (status_for (code_of (some down)))
get_remote-error_example =
    get_remote-error fifo_storage others (some yours) me wrap_keeps key you (start yours false) down
      you_fail refl

get-post_example :
    (y : Run fifo_storage others (some mine) me) × (z : Run fifo_storage others (some mine) me)
    × (t : Task) × (route fifo_storage others
          (some mine)
          me
          (request Method.post api_k)
          (codes "api/" ++ key)
          (start mine true)
        ≡ ok y)
    × (y.writer.status ≡ some 202)
    × (y.tasks ≡ t ∷ [])
    × (route fifo_storage others
          (some mine)
          me
          (request Method.get api_k)
          (codes "api/" ++ key)
          (record y {
            local = (run_task fifo_storage others (some mine) me t y.local y.world).0;
            tasks = [];
            writer = new_writer;
          })
        ≡ ok z)
    × (Answers (slice body) z.writer ⊎ Answers nil z.writer)
get-post_example =
    get-post fifo_storage others mine me (request Method.post api_k) (request Method.get api_k) key
      body 11 (start mine true) refl refl refl key_named refl start-IsSteady room refl refl

-- The sum of the characters as the hash.
abbrev hash_of : Text → ℕ
hash_of [] = 0
hash_of (c ∷ cs) = c + hash_of cs
