-- ===== src/Program/Tests.antt =====
-- The start of a node and some steps of its life (main.go).
mod Meeting
use qa_d.Base.{
  ℕ, ◌≡◌, ◌≢◌, refl, sym, subst, ◌∙◌, ok_injective, suc, true, false, List, [], ◌∷◌, ◌++◌, Option,
  none, some, Text, codes, text_eq, text_neq, ok, arith, insert, lookup,
}
use qa_d.Base.Decimal.{sprint}
use qa_d.Base.Int64.{max_zero, gt_int, add_int}
use qa_d.Proto.{reply, KeyValuePair}
use qa_d.Storage.{Slice, slice}
use qa_d.Storage.Fifo.{new_fifo_storage, write, forget_old, evict_loop}
use qa_d.Storage.Queue.{find}
use qa_d.Storage.Fifo.Store.{fifo_storage}
use qa_d.Metadata.{NodeMeta}
use qa_d.GrpcPool.{Pool}
use qa_d.GrpcPool.Tests.{network}
use qa_d.GrpcPool.Clients.{Errors, pool_peers}
use qa_d.GrpcServer
use qa_d.HttpServer.{Request, Method, Session}
use qa_d.HttpServer.Handlers.{serve_http}
use qa_d.HttpServer.Total.{hash_ring_of}
use qa_d.EventHandler.Events.{IsSound}
use qa_d.Config.{default_config}
use qa_d.Config.Tests.{levels, drawn, program, plain_settings}
use qa_d.Config.Precedence.{load_default}
use qa_d.Manager.{join}
use qa_d.Manager.Start.{first_manager}
use qa_d.Manager.Tests.{gossip, hash_of}
use qa_d.Program.{Surroundings, Servers, Running, running, start, choose_store}
use qa_d.Program.Startup.{IsStart, start-IsStart, start-running}
use qa_d.Program.Node.{
  Node, write_step, PairFits, Reachable, at_start, after, session, not_yet, then_step,
}
use qa_d.Program.Life.{first_node, started-answers, reachable-IsSound}
use qa_d.Program.Sent.{HasOrigin, Fed, held_was_sent}

-- Every port is free, and the servers count.
abbrev servers : Servers ℕ
servers = record {
  Listener = Text;
  Error = Text;
  listen = λ w addr. (reply addr, suc w);
  serve_grpc = λ w listener. suc w;
  serve_http = λ w addr. suc w;
  shutdown_http = λ w. (none, suc w);
  graceful_stop = λ w. (true, suc w);
  stop = λ w. suc w;
}

abbrev errors : Errors network
errors = record {
  Error = Text;
  of_pool = λ e. codes "pool";
  of_call = λ e. e;
  from_error = λ e. none;
  wrap = λ prefix e. prefix ++ e;
  error_text = λ e. e;
}

abbrev found : Surroundings
found = record {
  program = program;
  args = [];
  env = [];
  stdout = reply true;
  first = drawn;
  second = drawn;
  outbound = some (codes "10.0.0.1");
}

abbrev node : Running ℕ ℕ ℕ
node = record {
  cfg = plain_settings;
  store = (fifo_storage, new_fifo_storage 1000000000);
  manager = first_manager network gossip hash_of plain_settings 3;
}

node-started : start levels network gossip servers hash_of found 3 ≡ ok (running node 7)
unfolding default_config choose_store text_eq join
node-started =
    start-running levels network gossip servers hash_of found 3 4 4 5 true plain_settings node.store
      3 (codes ":" ++ sprint 9876) refl (load_default levels program drawn drawn) refl refl refl
      refl

node-IsSound :
    IsSound network fifo_storage plain_settings.node_name hash_of
      (first_node network gossip node 7).cluster
node-IsSound =
    let (o, same, is) = start-IsStart levels network gossip servers hash_of found 3 in
    let ready =
      subst (IsStart levels network gossip servers hash_of) (ok_injective (sym same ∙ node-started))
        is in
    ready.2

abbrev unmarshal : List ℕ → Option NodeMeta
unmarshal json = none

abbrev pair : KeyValuePair
pair = record { key = codes "k"; hash = 9; value = slice (1 ∷ 2 ∷ []) }

-- Another node writes a pair.
abbrev start_node : Node network fifo_storage
start_node = first_node network gossip node 7

abbrev written_node : Node network fifo_storage
written_node = record start_node {
  cluster = record start_node.cluster {
    local = (GrpcServer.write fifo_storage start_node.cluster.local false (some pair)).1;
  };
}

pair-fits : PairFits fifo_storage start_node.cluster.local (some pair)
unfolding new_fifo_storage max_zero
pair-fits = omega arith

written_node-reached :
    Reachable network fifo_storage errors plain_settings.node_name hash_of unmarshal
      plain_settings.grpc_port start_node written_node
written_node-reached =
    after start_node written_node at_start (write_step false (some pair) pair-fits)

reachable-IsSound_example :
    IsSound network fifo_storage plain_settings.node_name hash_of written_node.cluster
reachable-IsSound_example =
    reachable-IsSound network fifo_storage errors plain_settings.node_name hash_of unmarshal
      plain_settings.grpc_port start_node written_node node-IsSound written_node-reached

-- Only the one pair was sent.
abbrev Sent : Text → ℕ → Slice → Type 0
Sent key hash value = (key ≡ codes "k") × (hash ≡ 9) × (value ≡ slice (1 ∷ 2 ∷ []))

start_node-HasOrigin :
    HasOrigin network fifo_storage errors plain_settings.node_name hash_of unmarshal
      plain_settings.grpc_port Sent start_node
unfolding new_fifo_storage find
start_node-HasOrigin = (λ q. tt, tt)

written_node-Fed :
    Fed network fifo_storage errors plain_settings.node_name hash_of unmarshal
      plain_settings.grpc_port Sent start_node written_node
written_node-Fed =
    then_step start_node written_node not_yet (write_step false (some pair) pair-fits)
      (refl, refl, refl)

written_node-holds :
    fifo_storage.held written_node.cluster.local (codes "k") ≡ some (9, slice (1 ∷ 2 ∷ []))
unfolding GrpcServer.write new_fifo_storage write forget_old evict_loop insert lookup gt_int add_int
    text_eq find
written_node-holds = refl

held_was_sent_example : Sent (codes "k") 9 (slice (1 ∷ 2 ∷ []))
held_was_sent_example =
    held_was_sent network fifo_storage errors plain_settings.node_name hash_of unmarshal
      plain_settings.grpc_port Sent start_node written_node (codes "k") 9 (slice (1 ∷ 2 ∷ []))
      node-IsSound start_node-HasOrigin written_node-Fed written_node-holds

abbrev asked : Request
asked = record { method = Method.get; path = codes "/api/k"; body = none }

asked-path : asked.path ≢ []
unfolding text_eq
asked-path = text_neq (codes "/api/k") [] refl

started-answers_example :
    (y : Session fifo_storage.State (Pool ℕ × ℕ)) × (serve_http fifo_storage
        (pool_peers network errors)
        (some (hash_ring_of hash_of written_node.cluster.ring))
        plain_settings.node_name
        asked
        (session network fifo_storage errors plain_settings.node_name hash_of unmarshal
          plain_settings.grpc_port written_node)
      ≡ ok y)
    × (code : ℕ) × (y.writer.status ≡ some code)
started-answers_example =
    started-answers levels network gossip servers hash_of errors unmarshal found 3 7 node
      written_node asked node-started written_node-reached asked-path
