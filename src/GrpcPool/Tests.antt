-- ===== src/GrpcPool/Tests.antt =====
-- Runs of the pool over a network that counts its calls.
use qa_d.Base.{ℕ, true, [], none, some, Text, codes, suc}
use qa_d.Proto.{void, reply}
use qa_d.GrpcPool.{Grpc, Pool, PoolEntry, new_pool, put_entry, get_connection}

-- A connection is the number of the call that made it.
abbrev pub network : Grpc
network = record {
  World = ℕ;
  Conn = ℕ;
  Error = Text;
  new_client = λ w addr. (reply w, suc w);
  close = λ w conn. (none, suc w);
  read = λ w conn key. (reply (record { payload = [] }), suc w);
  write = λ w conn pair. (reply void, suc w);
}

abbrev a : Text
a = codes "a"

abbrev addr : Text
addr = codes "10.0.0.1:7946"

abbrev pool_a : Pool ℕ
pool_a = put_entry network (new_pool network) a addr

-- The pool after the first use.
abbrev used : Pool ℕ
used = (get_connection network pool_a 0 a).1

abbrev used_entry : PoolEntry ℕ
used_entry = record { conn = some 0; addr = addr; once = true }
