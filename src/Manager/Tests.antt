-- ===== src/Manager/Tests.antt =====
-- Runs of the manager over a `memberlist` that counts its calls (cluster/membership.go).
use qa_d.Base.{ℕ, suc, [], none, Text, codes}
use qa_d.Proto.{reply}
use qa_d.Config.{Config, fifo}
use qa_d.GrpcPool.Tests.{network}
use qa_d.GrpcPool.{new_pool, put_entry, get_connection}
use qa_d.Manager.{Memberlist, Manager, leave}
use qa_d.Manager.Start.{first_manager}

-- A cluster that this node can leave, and one that it cannot.
abbrev pub gossip : Memberlist ℕ
gossip = record {
  Handle = ℕ;
  Error = Text;
  create = λ w settings. (reply w, suc w);
  join = λ w list seeds. (reply 1, suc w);
  leave = λ w list. (none, suc w);
  shutdown = λ w list. (none, suc w);
  members = λ w list. [];
  num_members = λ w list. 0;
}

abbrev cfg : Config ℕ
cfg = record {
  log_level = 1;
  http_port = 8080;
  grpc_port = 9876;
  members = [];
  storage_size = 100;
  eviction_algorithm = fifo;
  node_name = codes "n1";
  cluster_port = 7946;
  seed_nodes = [];
}

abbrev pub hash_of : Text → ℕ
hash_of key = 7

-- A manager with one connection that was made.
abbrev connected : Manager ℕ ℕ ℕ
connected = record (first_manager network gossip hash_of cfg 3) {
  grpc_pool =
      (get_connection network (put_entry network (new_pool network) (codes "n2") (codes "h:1")) 4
        (codes "n2")).1;
}
