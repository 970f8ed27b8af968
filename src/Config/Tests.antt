-- ===== src/Config/Tests.antt =====
-- Runs of the settings (config/index.go): numbers, flags, variables, members and seeds.
use qa_d.Base.{
  ℕ, ◌≡◌, ◌≢◌, refl, List, [], ◌∷◌, none, some, Text, codes, text_eq, text_neq, has_prefix,
  has_suffix, lookup, Assoc, inl, inr, if◌then◌else◌, arith, ◌%◌, ◌^◌,
}
use qa_d.Base.Decimal.{sprint, digits_loop}
use qa_d.Proto.{reply}
use qa_d.Config.{
  Config, Member, Zerolog, Draw, generate_node_id, encode_to_string, default_config, getenv,
  no_eviction, lru,
}
use qa_d.Config.Number.{
  parse_uint, parse_uint_any, parse_digits, base_prefix, digit_value, underscore_ok,
  underscore_loop, atoi,
}
use qa_d.Config.CommandLine.{
  Flags, parse_flags, parse_loop, argument_step, read_argument, named_argument, split_value,
  flag_step, flag_named, set_flag, after, no_flags,
}
use qa_d.Config.Members.{members_loop, members_fuel, members_loop-members, no_member, IsRun}
use qa_d.Config.Seeds.{seeds_of, split, split_loop, trim_space, trim_left, space_length}
use qa_d.Config.Load.{load, read_flags, contains, load_members, choose_name, choose_seeds}
use qa_d.Config.Precedence.{load_flags, load_environment}

-- Base 0 has prefixes and underscores, base 10 has neither.
numbers :
    (parse_uint_any 64 (codes "0x_1f") ≡ some 31)
    × (parse_uint_any 64 (codes "1__0") ≡ none)
    × (parse_uint_any 64 (codes "017") ≡ some 15)
    × (parse_uint_any 64 (codes "0") ≡ some 0)
    × (atoi (codes "-1") ≡ some 18446744073709551615)
    × (atoi (codes "1_0") ≡ none)
    × (parse_uint 32 (codes "4294967296") ≡ none)
unfolding parse_uint_any parse_digits base_prefix digit_value underscore_ok underscore_loop atoi
    parse_uint
numbers = (refl, refl, refl, refl, refl, refl, refl)

-- Two levels.
abbrev pub levels : Zerolog
levels = record {
  Level = ℕ;
  info_level = 1;
  parse_level = λ s. if text_eq s (codes "debug") then some 0 else none;
}

abbrev pub drawn : Draw
drawn = record { timestamp = 1700000000; random = some (10 ∷ 255 ∷ 0 ∷ []) }

abbrev pub program : Text
program = codes "/bin/qad"

name_drawn : generate_node_id drawn ≡ codes "node-1700000000-0aff00"
unfolding generate_node_id encode_to_string sprint digits_loop
name_drawn = refl

abbrev env : Assoc Text
env =
    (codes "HTTP_PORT", sprint 8081)
    ∷ (codes "GRPC_PORT", sprint 9877)
    ∷ (codes "LOG_LEVEL", codes "debug")
    ∷ (codes "STORAGE_SIZE", sprint 500)
    ∷ (codes "EVICTION_ALGORITHM", lru)
    ∷ (codes "CLUSTER_PORT", sprint 7947)
    ∷ (codes "MEMBER_0_NAME", codes "n0")
    ∷ (codes "MEMBER_1_HOST", codes "10.0.0.1")
    ∷ (codes "MEMBER_3_NAME", codes "n3")
    ∷ (codes "NODE_NAME", codes "n9")
    ∷ (codes "SEED_NODES", codes "a:1, b:2")
    ∷ []

abbrev args : List Text
args =
    codes "-port"
    ∷ codes "4294967376"
    ∷ codes "--grpc-port=0x2694"
    ∷ codes "-log-level"
    ∷ codes "debug"
    ∷ codes "-storage-size"
    ∷ codes "500"
    ∷ codes "-eviction=NONE"
    ∷ codes "-cluster-port"
    ∷ codes "7947"
    ∷ codes "rest"
    ∷ []

abbrev given : Flags
given = record {
  port = 4294967376;
  grpc_port = 9876;
  cluster_port = 7947;
  log_level = codes "debug";
  storage_size = 500;
  eviction = no_eviction;
}

args-read : read_flags program args ≡ reply given
unfolding read_flags contains has_prefix has_suffix text_eq parse_flags parse_loop argument_step
    read_argument named_argument split_value flag_step flag_named set_flag after parse_uint_any
    parse_digits base_prefix digit_value underscore_ok underscore_loop
args-read = refl

no_args-read : read_flags program [] ≡ reply no_flags
unfolding read_flags contains has_prefix has_suffix text_eq parse_flags parse_loop
no_args-read = refl

debug-parsed : levels.parse_level (codes "debug") ≡ some 0
unfolding text_eq
debug-parsed = refl

debug-given : codes "debug" ≢ []
unfolding text_eq
debug-given = text_neq (codes "debug") [] refl

-- The members end at the first index with neither variable, so that MEMBER_3_NAME is not read.
env-members :
    load_members env
    ≡ record { name = codes "n0"; host = [] } ∷ record { name = []; host = codes "10.0.0.1" } ∷ []
unfolding load_members members_loop no_member lookup text_eq sprint digits_loop
env-members = refl

env-seeds : choose_seeds (getenv env (codes "SEED_NODES")) ≡ codes "a:1" ∷ codes "b:2" ∷ []
unfolding choose_seeds seeds_of split split_loop trim_space trim_left space_length has_prefix lookup
    text_eq
env-seeds = refl

-- The settings that come of the environment, with the variables that are read as they are.
abbrev from_env : Config ℕ
from_env = record {
  log_level = 0;
  http_port = 8081;
  grpc_port = 9877;
  members = load_members env;
  storage_size = 500;
  eviction_algorithm = lru;
  node_name = choose_name (getenv env (codes "NODE_NAME")) drawn;
  cluster_port = 7947;
  seed_nodes = choose_seeds (getenv env (codes "SEED_NODES"));
}

load_environment_example : load levels program [] env drawn drawn ≡ reply from_env
unfolding lookup text_eq
load_environment_example =
    load_environment levels program [] env drawn drawn 8081 9877 500 7947 (codes "debug") lru 0
      no_args-read refl refl refl refl refl refl (omega arith) (omega arith) debug-given
      debug-parsed (omega arith) (inr (inl refl)) (omega arith)

load_flags_example :
    load levels program args [] drawn drawn
    ≡ reply record {
      log_level = 0;
      http_port = 4294967376 % 2 ^ 32;
      grpc_port = 9876 % 2 ^ 32;
      members = load_members [];
      storage_size = 500;
      eviction_algorithm = no_eviction;
      node_name = choose_name (getenv [] (codes "NODE_NAME")) drawn;
      cluster_port = 7947;
      seed_nodes = choose_seeds (getenv [] (codes "SEED_NODES"));
    }
load_flags_example =
    load_flags levels program args [] drawn drawn given 0 args-read (λ e. omega arith)
      (λ e. omega arith) debug-given debug-parsed (λ e. omega arith) (inr (inr refl))
      (λ e. omega arith)

abbrev pub plain_settings : Config ℕ
plain_settings = default_config 1 (generate_node_id drawn)

members_loop-members_example :
    (ms : List Member) × (members_loop (members_fuel env) env 0 ≡ some ms) × IsRun env 0 ms
members_loop-members_example = members_loop-members env
