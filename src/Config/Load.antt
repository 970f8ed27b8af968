-- ===== src/Config/Load.antt =====
-- `Load` of config/index.go: the settings, from the arguments and the environment.
use qa_d.Base.{
  Bool, ◌||◌, List, [], ◌∷◌, Option, none, some, Text, codes, text_eq, has_prefix, has_suffix,
  if◌then◌else◌, Assoc,
}
use qa_d.Proto.{Reply, reply, fail, ◌>>=◌}
use qa_d.Config.{
  Member, Config, ConfigError, failed_to_parse_flags, Zerolog, Draw, getenv, generate_node_id,
  default_config, choose_port, choose_int, choose_level, choose_algorithm,
}
use qa_d.Config.CommandLine.{Flags, Parsed, parsed, help, failed, no_flags, parse_flags}
use qa_d.Config.Members.{members_loop, members_fuel}
use qa_d.Config.Seeds.{seeds_of}

-- `strings.Contains`
unfoldable pub contains : Text → Text → Bool
contains [] t = has_prefix [] t
contains (c ∷ cs) t = has_prefix (c ∷ cs) t || contains cs t

abbrev pub is_test : Text → Bool
is_test program = has_suffix program (codes ".test") || contains program (codes "/T/")

-- An error of the flags is returned, except `flag.ErrHelp`.
abbrev pub flags_of : Parsed → Reply ConfigError Flags
flags_of (parsed f) = reply f
flags_of (help f) = reply f
flags_of (failed e) = fail (failed_to_parse_flags e)

-- The flags are parsed only outside of tests. `program` is `os.Args[0]`, and `args` is the rest.
unfoldable pub read_flags : Text → List Text → Reply ConfigError Flags
unfolding contains parse_flags
read_flags program args = if is_test program then reply no_flags else flags_of (parse_flags args)

unfoldable pub choose_name : Text → Draw → Text
unfolding generate_node_id
choose_name v drawn = if text_eq v [] then generate_node_id drawn else v

unfoldable pub choose_seeds : Text → List Text
unfolding seeds_of
choose_seeds v = if text_eq v [] then [] else seeds_of v

-- The members; out of fuel stands for none.
abbrev pub or_no_members : Option (List Member) → List Member
or_no_members none = []
or_no_members (some ms) = ms

unfoldable pub load_members : Assoc Text → List Member
unfolding members_loop
load_members env = or_no_members (members_loop (members_fuel env) env 0)

-- A name is drawn for `defaultConfig`, which no result shows, and a second one when NODE_NAME is
-- empty.
unfoldable pub load :
    (z : Zerolog) → Text → List Text → Assoc Text → Draw → Draw → Reply ConfigError (Config z.Level)
unfolding read_flags default_config choose_port choose_int choose_level choose_algorithm
    load_members choose_name choose_seeds generate_node_id
load z program args env first second = do
  f ← read_flags program args
  let cfg = default_config z.info_level (generate_node_id first)
  http ← choose_port f.port (codes "HTTP_PORT") (getenv env (codes "HTTP_PORT")) cfg.http_port
  grpc ← choose_port f.grpc_port (codes "GRPC_PORT") (getenv env (codes "GRPC_PORT")) cfg.grpc_port
  level ← choose_level z f.log_level (getenv env (codes "LOG_LEVEL"))
  size ←
      choose_int f.storage_size (codes "STORAGE_SIZE") (getenv env (codes "STORAGE_SIZE"))
        cfg.storage_size
  algorithm ← choose_algorithm f.eviction (getenv env (codes "EVICTION_ALGORITHM"))
  port ←
      choose_int f.cluster_port (codes "CLUSTER_PORT") (getenv env (codes "CLUSTER_PORT"))
        cfg.cluster_port
  reply record {
    log_level = level;
    http_port = http;
    grpc_port = grpc;
    members = load_members env;
    storage_size = size;
    eviction_algorithm = algorithm;
    node_name = choose_name (getenv env (codes "NODE_NAME")) second;
    cluster_port = port;
    seed_nodes = choose_seeds (getenv env (codes "SEED_NODES"));
  }
