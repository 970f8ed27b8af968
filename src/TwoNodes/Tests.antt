-- ===== src/TwoNodes/Tests.antt =====
-- Runs of two nodes that are asked for a key of a third, which has a store for five bytes.
mod Handing
use qa_d.Base.{
  ◌≡◌, ◌≢◌, ◌⊎◌, ◌||◌, refl, [], ◌∷◌, ◌++◌, Option, false, true, none, some, Text, codes, text_eq,
  text_neq, ok, arith, if◌then◌else◌, ◌==◌, lookup, insert,
}
use qa_d.Base.Int64.{max_zero, add_int, gt_int}
use qa_d.Storage.{nil, slice, held_value}
use qa_d.Storage.Fifo.{FifoStorage, new_fifo_storage, write, forget_old, evict_loop}
use qa_d.Storage.Queue.{find}
use qa_d.Storage.Fifo.Store.{fifo_storage, IsSteady, write_op, run, run-IsSteady}
use qa_d.Proto.{Status, KeyValuePair, reply}
use qa_d.GrpcPool.{Grpc, Pool, new_pool, put_entry, get_connection}
use qa_d.GrpcPool.Clients.{Errors, widen, get_client, pool_peers}
use qa_d.GrpcServer
use qa_d.HttpServer.Response.{new_writer}
use qa_d.HttpServer.{Method, Request, HashRing, Task}
use qa_d.HttpServer.Handlers.{Run, route, run_task}
use qa_d.HttpServer.Requests.{Answers}
use qa_d.TwoNodes.{Link, decoded}
use qa_d.TwoNodes.Get.{get_anywhere}
use qa_d.TwoNodes.Post.{post_anywhere}
use qa_d.TwoNodes.Roundtrip.{get-post_elsewhere}

abbrev a : Text
a = codes "n1"

abbrev a' : Text
a' = codes "n2"

abbrev b : Text
b = codes "n3"

abbrev key : Text
key = codes "k"

abbrev body : Text
body = 1 ∷ 2 ∷ []

abbrev addr : Text
addr = codes "10.0.0.3:50051"

-- The network is the store of the other node, and every call arrives.
abbrev net : Grpc
net = record {
  World = FifoStorage;
  Conn = Text;
  Error = Status;
  new_client = λ w target. (reply target, w);
  close = λ w conn. (none, w);
  read = λ w conn k. (
    widen (λ (st : Status). st) (GrpcServer.read fifo_storage w false (some k)).0,
    (GrpcServer.read fifo_storage w false (some k)).1,
  );
  write = λ w conn pair. (
    widen (λ (st : Status). st)
        (GrpcServer.write fifo_storage w false
          (some (record pair { value = decoded pair.value }))).0,
    (GrpcServer.write fifo_storage w false (some (record pair { value = decoded pair.value }))).1,
  );
}

abbrev errors : Errors net
errors = record {
  Error = Option Status;
  of_pool = λ e. none;
  of_call = λ st. some st;
  from_error = λ e. e;
  wrap = λ prefix e. e;
  error_text = λ e. codes "error";
}

abbrev link : Link net errors fifo_storage
link = record { remote = λ w. w; of_status = λ st. st; from_status = λ st. refl }

-- Every key is of the third node.
abbrev ring : HashRing
ring = record { node_of = λ k. ok (11, b); get_nodes = a ∷ a' ∷ b ∷ [] }

abbrev pool : Pool Text
pool = put_entry net (new_pool net) b addr

abbrev dialled : Pool Text
dialled = record {
  entries = record { conn = some addr; addr = addr; once = true } ∷ [];
  connections = (b, 0) ∷ [];
}

client :
    (w : FifoStorage) → (pool_peers net errors).get_client (pool, w) b ≡ (reply addr, (dialled, w))
unfolding get_client get_connection put_entry new_pool lookup insert text_eq
client w = refl

abbrev empty : FifoStorage
empty = new_fifo_storage 5

abbrev holding : FifoStorage
holding = run (write_op key 11 (slice body) ∷ []) empty

holding-IsSteady : IsSteady holding
unfolding max_zero
holding-IsSteady =
    run-IsSteady 5 (write_op key 11 (slice body) ∷ []) (omega arith) (omega arith, tt)

empty-IsSteady : IsSteady empty
unfolding run
empty-IsSteady = run-IsSteady 5 [] (omega arith) tt

holds : held_value (fifo_storage.held holding key) ≡ slice body
unfolding run new_fifo_storage write forget_old evict_loop insert lookup gt_int add_int text_eq find
holds = refl

held_whole : held_value (fifo_storage.held holding key) ≢ slice []
held_whole e = cc (holds, e)

key_named : key ≢ []
unfolding text_eq
key_named = text_neq key [] refl

body_full : body ≢ []
body_full e = cc e

other : b ≢ a
unfolding text_eq
other = text_neq b a refl

other' : b ≢ a'
unfolding text_eq
other' = text_neq b a' refl

room : fifo_storage.Room empty (slice body)
unfolding new_fifo_storage max_zero
room = omega arith

abbrev request : Method → Request
request m = record { method = m; path = codes "/api/k"; body = some body }

abbrev asked :
    (self : Text) → FifoStorage → Run fifo_storage (pool_peers net errors) (some ring) self
asked self w = record { local = empty; world = (pool, w); tasks = []; writer = new_writer }

abbrev owner : Run fifo_storage (pool_peers net errors) (some ring) b
owner = record { local = holding; world = (pool, empty); tasks = []; writer = new_writer }

abbrev pair : KeyValuePair
pair = record { key = key; hash = 11; value = slice body }

abbrev read_world : FifoStorage → FifoStorage
read_world w = (GrpcServer.read fifo_storage w false (some (record { key = key }))).1

abbrev write_world : FifoStorage
write_world = (GrpcServer.write fifo_storage empty false (some pair)).1

get_anywhere_example :
    (x' : Run fifo_storage (pool_peers net errors) (some ring) a) × (y' : Run fifo_storage
      (pool_peers net errors)
      (some ring)
      b)
    × (route fifo_storage
          (pool_peers net errors)
          (some ring)
          a
          (request Method.get)
          (codes "api/" ++ key)
          (asked a holding)
        ≡ ok x')
    × (route fifo_storage
          (pool_peers net errors)
          (some ring)
          b
          (request Method.get)
          (codes "api/" ++ key)
          owner
        ≡ ok y')
    × (x'.writer ≡ y'.writer)
    × (x'.local ≡ empty)
    × (x'.tasks ≡ [])
    × (y'.tasks ≡ [])
    × (read_world holding ≡ y'.local)
    × ((q : Text) → fifo_storage.held (read_world holding) q ≡ fifo_storage.held holding q)
get_anywhere_example =
    get_anywhere net errors fifo_storage fifo_storage link ring a b (request Method.get) key 11
      (asked a holding) owner addr dialled holding (read_world holding) refl key_named other refl
      (client holding) (refl, refl) refl holding-IsSteady held_whole refl

post_anywhere_example :
    (x' : Run fifo_storage (pool_peers net errors) (some ring) a) × (y' : Run fifo_storage
      (pool_peers net errors)
      (some ring)
      b)
    × (t t' : Task) × (route fifo_storage
          (pool_peers net errors)
          (some ring)
          a
          (request Method.post)
          (codes "api/" ++ key)
          (asked a empty)
        ≡ ok x')
    × (route fifo_storage
          (pool_peers net errors)
          (some ring)
          b
          (request Method.post)
          (codes "api/" ++ key)
          owner
        ≡ ok y')
    × (x'.writer ≡ y'.writer)
    × (x'.tasks ≡ t ∷ [])
    × (y'.tasks ≡ t' ∷ [])
    × (run_task fifo_storage (pool_peers net errors) (some ring) a t empty (pool, empty)
        ≡ (empty, (dialled, write_world)))
    × (write_world ≡ (
        if text_eq body [] || 11 == 0
        then empty
        else (run_task fifo_storage
            (pool_peers net errors)
            (some ring)
            b
            t'
            empty
            (pool, empty)).0))
post_anywhere_example =
    post_anywhere net errors fifo_storage fifo_storage link ring a b (request Method.post) key body
      11 (asked a empty) owner addr empty (pool, empty) dialled empty write_world refl refl
      key_named other refl refl refl refl (client empty) (refl, refl)

get-post_elsewhere_example :
    (y : Run fifo_storage (pool_peers net errors) (some ring) a) × (t : Task) × (z : Run
      fifo_storage
      (pool_peers net errors)
      (some ring)
      a')
    × (route fifo_storage
          (pool_peers net errors)
          (some ring)
          a
          (request Method.post)
          (codes "api/" ++ key)
          (asked a empty)
        ≡ ok y)
    × (y.writer.status ≡ some 202)
    × (y.tasks ≡ t ∷ [])
    × (run_task fifo_storage (pool_peers net errors) (some ring) a t empty (pool, empty)
        ≡ (empty, (dialled, write_world)))
    × (route fifo_storage
          (pool_peers net errors)
          (some ring)
          a'
          (request Method.get)
          (codes "api/" ++ key)
          (asked a' write_world)
        ≡ ok z)
    × (Answers (slice body) z.writer ⊎ Answers nil z.writer)
get-post_elsewhere_example =
    get-post_elsewhere net net errors errors fifo_storage fifo_storage fifo_storage link link ring a
      a' b (request Method.post) (request Method.get) key body 11 (asked a empty)
      (asked a' write_world) addr addr empty (pool, empty) dialled dialled empty write_world
      write_world (read_world write_world) refl refl refl key_named body_full (omega arith) other
      other' refl refl refl refl (client empty) (refl, refl) empty-IsSteady room refl
      (client write_world) (refl, refl)
