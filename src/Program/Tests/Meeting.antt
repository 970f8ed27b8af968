-- ===== src/Program/Tests/Meeting.antt =====
-- Another node joins, as its settings have `memberlist` report it (cluster/membership.go).
use qa_d.Base.{ℕ, ◌≡◌, refl, List, ◌∷◌, ◌++◌, Option, some, Text, codes}
use qa_d.Metadata.{unmarshal}
use qa_d.Metadata.Tests.{encode, decode}
use qa_d.Storage.Fifo.Store.{fifo_storage}
use qa_d.Ring.Join.{join}
use qa_d.GrpcPool.{add_connection}
use qa_d.GrpcPool.Tests.{network}
use qa_d.EventHandler.{Node as Peer, Cluster}
use qa_d.Config.{Config}
use qa_d.Config.Tests.{plain_settings}
use qa_d.Manager.Tests.{hash_of}
use qa_d.Program.Node.{Node}
use qa_d.Program.Addresses.{read_meta}
use qa_d.Program.Tests.{start_node}

-- The one other node.
abbrev other_settings : Config ℕ
other_settings = record plain_settings { node_name = codes "n2"; grpc_port = 50051 }

abbrev IsPeer : Config ℕ → Option Text → Type 0
IsPeer cfg outbound = (cfg ≡ other_settings) × (outbound ≡ some (codes "10.0.0.2"))

abbrev meta : List ℕ
meta = 2 ∷ codes "n2" ++ codes "10.0.0.2:50051"

abbrev peer : Peer
peer = record { name = codes "n2"; addr = codes "10.0.0.2"; meta = meta }

abbrev joined_cluster : Cluster network fifo_storage
joined_cluster = record start_node.cluster {
  ring = join hash_of start_node.cluster.ring (codes "n2");
  pool = (add_connection network start_node.cluster.pool (codes "n2") (codes "10.0.0.2:50051")).1;
}

meta-read :
    read_meta encode decode meta
    ≡ some (record { node_name = codes "n2"; grpc_addr = codes "10.0.0.2:50051" })
unfolding unmarshal
meta-read = refl

abbrev met_node : Node network fifo_storage
met_node = record start_node { cluster = joined_cluster }
