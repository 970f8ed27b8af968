-- ===== src/Manager.antt =====
-- cluster/membership.go: the manager that makes the ring, the pool and the delegates, and hands them to
-- `memberlist`. The state that the event handler works on is in it.
pub mod Start
pub mod Stop
pub mod Tests
use qa_d.Base.{
  ℕ, List, [], ◌∷◌, ◌++◌, Option, none, some, Text, codes, length, map, Outcome, ok, panic, ◌>>=◌,
}
use qa_d.Base.Decimal.{sprint}
use qa_d.Proto.{Reply, reply, fail}
use qa_d.Storage.{Storage}
use qa_d.Config.{Config}
use qa_d.Ring.{ConsistentHashRing, new_ring, add_node}
use qa_d.GrpcPool.{Grpc, Pool, new_pool, close_pool, get_all_node_names}
use qa_d.Metadata.{NodeMeta, MetadataDelegate}
use qa_d.EventHandler.{Cluster}

-- What `memberlist` is given: `Name`, `BindPort`, the delegates of the events and of the metadata.
pub record EventDelegate : Type 0 where
  pub local_node_name : Text
  pub grpc_port : ℕ

pub record Settings : Type 0 where
  pub name : Text
  pub bind_port : ℕ
  pub events : EventDelegate
  pub delegate : MetadataDelegate

-- A node of `Members`: its name, what `Address` returns, and its state.
pub record Peer : Type 0 where
  pub name : Text
  pub address : Text
  pub state : ℕ

-- What the sources use of `memberlist`, over the state of the network. `leave` has the timeout of 30
-- seconds.
pub record Memberlist (World : Type 0) : Type 1 where
  pub Handle : Type 0
  pub Error : Type 0
  pub create : World → Settings → Reply Error Handle × World
  pub join : World → Handle → List Text → Reply Error ℕ × World
  pub leave : World → Handle → Option Error × World
  pub shutdown : World → Handle → Option Error × World
  pub members : World → Handle → List Peer
  pub num_members : World → Handle → ℕ

-- The errors of `memberlist`, wrapped.
pub data ManagerError (Error : Type 0) : Type 0 where
  failed_to_create : Error → ManagerError Error
  failed_to_join : Error → ManagerError Error
  failed_to_leave : Error → ManagerError Error
  failed_to_shutdown : Error → ManagerError Error

pub record Manager (Level Handle Conn : Type 0) : Type 0 where
  pub list : Handle
  pub delegate : EventDelegate
  pub grpc_pool : Pool Conn
  pub hash_ring : ConsistentHashRing
  pub config : Config Level

-- The map that `HealthCheck` returns.
pub record MemberInfo : Type 0 where
  pub name : Text
  pub address : Text
  pub state : Text

pub record Health : Type 0 where
  pub node_name : Text
  pub member_count : ℕ
  pub members : List MemberInfo
  pub hash_ring_nodes : List Text

-- `getOutboundIP`: the address that the system takes for a connection to the outside, or the own one
-- where `net.Dial` fails.
abbrev pub get_outbound_ip : Option Text → Text
get_outbound_ip none = codes "127.0.0.1"
get_outbound_ip (some ip) = ip

abbrev pub new_event_delegate : Text → ℕ → EventDelegate
new_event_delegate local_node_name grpc_port = record {
  local_node_name = local_node_name;
  grpc_port = grpc_port;
}

abbrev pub new_metadata_delegate : NodeMeta → MetadataDelegate
new_metadata_delegate node_meta = record { node_meta = node_meta }

abbrev pub member_info : Peer → MemberInfo
member_info member = record {
  name = member.name;
  address = member.address;
  state = sprint member.state;
}

module _ (g : Grpc) (m : Memberlist g.World) where
  -- `Join` with at least one seed node, for what comes of contacting them.
  abbrev pub joined : Reply m.Error ℕ → Option (ManagerError m.Error)
  joined (fail e) = some (failed_to_join e)
  joined (reply n) = none

module _ {Level : Type 0} (g : Grpc) (m : Memberlist g.World) where
  -- The configuration of `memberlist` in `NewManager`.
  unfoldable pub settings_of : Config Level → Option Text → Settings
  settings_of cfg outbound = record {
    name = cfg.node_name;
    bind_port = cfg.cluster_port;
    events = new_event_delegate cfg.node_name cfg.grpc_port;
    delegate = new_metadata_delegate (record {
      node_name = cfg.node_name;
      grpc_addr = get_outbound_ip outbound ++ codes ":" ++ sprint cfg.grpc_port;
    });
  }

  module _ (sum64 : Text → ℕ) where
    -- `NewManager` after `memberlist.Create`, for what that returns.
    unfoldable pub created :
        Config Level
        → g.World
        → Reply m.Error m.Handle
        → Outcome (Reply (ManagerError m.Error) (Manager Level m.Handle g.Conn) × g.World)
    created cfg w (fail e) = ok (fail (failed_to_create e), w)
    created cfg w (reply list) = do
      ring ← add_node sum64 (new_ring 150) cfg.node_name
      ok (
        reply record {
          list = list;
          delegate = new_event_delegate cfg.node_name cfg.grpc_port;
          grpc_pool = new_pool g;
          hash_ring = ring;
          config = cfg;
        },
        w,
      )

    unfoldable pub new_manager :
        Config Level
        → Option Text
        → g.World
        → Outcome (Reply (ManagerError m.Error) (Manager Level m.Handle g.Conn) × g.World)
    unfolding created settings_of
    new_manager cfg outbound w =
        let (answer, w₁) = m.create w (settings_of cfg outbound) in created cfg w₁ answer

  -- Without seed nodes the node is the first of a new cluster.
  unfoldable pub join :
      Manager Level m.Handle g.Conn → g.World → Option (ManagerError m.Error) × g.World
  join mgr w = elim mgr.config.seed_nodes [
    | [] ↦ (none, w)
    | seed ∷ seeds ↦ let (answer, w₁) = m.join w mgr.list (seed ∷ seeds) in (joined g m answer, w₁)
  ]

  -- `Leave` after `Shutdown`, and after `list.Leave`, for what these return.
  unfoldable pub after_shutdown :
      Manager Level m.Handle g.Conn
      → g.World
      → Option m.Error
      → Option (ManagerError m.Error) × Manager Level m.Handle g.Conn × g.World
  after_shutdown mgr w (some e) = (some (failed_to_shutdown e), mgr, w)
  after_shutdown mgr w none =
      let (pool, w₁) = close_pool g mgr.grpc_pool w in (none, record mgr { grpc_pool = pool }, w₁)

  unfoldable pub after_leave :
      Manager Level m.Handle g.Conn
      → g.World
      → Option m.Error
      → Option (ManagerError m.Error) × Manager Level m.Handle g.Conn × g.World
  unfolding after_shutdown
  after_leave mgr w (some e) = (some (failed_to_leave e), mgr, w)
  after_leave mgr w none = let (answer, w₁) = m.shutdown w mgr.list in after_shutdown mgr w₁ answer

  unfoldable pub leave :
      Manager Level m.Handle g.Conn
      → g.World
      → Option (ManagerError m.Error) × Manager Level m.Handle g.Conn × g.World
  unfolding after_leave
  leave mgr w = let (answer, w₁) = m.leave w mgr.list in after_leave mgr w₁ answer

  -- The accessors that the rest of the program uses.
  unfoldable pub get_members : Manager Level m.Handle g.Conn → g.World → List Peer
  get_members mgr w = m.members w mgr.list

  abbrev pub get_member_count : Manager Level m.Handle g.Conn → g.World → ℕ
  get_member_count mgr w = m.num_members w mgr.list

  abbrev pub get_grpc_pool : Manager Level m.Handle g.Conn → Pool g.Conn
  get_grpc_pool mgr = mgr.grpc_pool

  abbrev pub get_hash_ring : Manager Level m.Handle g.Conn → ConsistentHashRing
  get_hash_ring mgr = mgr.hash_ring

  abbrev pub get_local_node_name : Manager Level m.Handle g.Conn → Text
  get_local_node_name mgr = mgr.config.node_name

  unfoldable pub health_check : Manager Level m.Handle g.Conn → g.World → Health
  unfolding get_members get_all_node_names
  health_check mgr w = record {
    node_name = mgr.config.node_name;
    member_count = length (get_members mgr w);
    members = map member_info (get_members mgr w);
    hash_ring_nodes = get_all_node_names g mgr.grpc_pool;
  }

  -- What the event handler works on, with the store that `NewManager` was given.
  abbrev pub cluster_of :
      (store : Storage) → Manager Level m.Handle g.Conn → store.State → g.World → Cluster g store
  cluster_of store mgr local w = record {
    ring = mgr.hash_ring;
    pool = mgr.grpc_pool;
    local = local;
    world = w;
    sent = [];
  }
