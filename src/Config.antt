-- ===== src/Config.antt =====
-- config/index.go: the settings of a node, from the command line and the environment. The environment
-- is the one after `godotenv.Load`, and `zerolog.ParseLevel` is a parameter.
pub mod Number
pub mod CommandLine
pub mod Members
pub mod Seeds
pub mod Trimmed
pub mod Load
pub mod Bounds
pub mod Valid
pub mod Precedence
pub mod Tests
use qa_d.Base.{
  ℕ, zero, suc, ◌%◌, ◌^◌, Bool, true, false, ◌||◌, not, ◌+◌, ◌-◌, ◌/◌, ltb, List, [], ◌∷◌, ◌++◌,
  Option, none, some, Text, codes, text_eq, ◌==◌, length, map, if◌then◌else◌, Assoc, lookup,
}
use qa_d.Base.Decimal.{sprint}
use qa_d.Proto.{Reply, reply, fail, ◌>>=◌}
use qa_d.Config.Number.{parse_uint, atoi}
use qa_d.Config.CommandLine.{Flags, FlagError, Parsed, parsed, help, failed, no_flags, parse_flags}

pub record Member : Type 0 where
  pub name : Text
  pub host : Text

abbrev pub fifo : Text
fifo = codes "FIFO"

abbrev pub lru : Text
lru = codes "LRU"

abbrev pub no_eviction : Text
no_eviction = codes "NONE"

-- What the sources use of `zerolog`: its levels, and the parsing of one.
pub record Zerolog : Type 1 where
  pub Level : Type 0
  pub info_level : Level
  pub parse_level : Text → Option Level

pub record Config (Level : Type 0) : Type 0 where
  pub log_level : Level
  pub http_port : ℕ
  pub grpc_port : ℕ
  pub members : List Member
  pub storage_size : ℕ
  pub eviction_algorithm : Text
  pub node_name : Text
  pub cluster_port : ℕ
  pub seed_nodes : List Text

-- The errors of `Load`, without the errors that they wrap: `invalid` has the setting and its value.
pub data ConfigError : Type 0 where
  failed_to_parse_flags : FlagError → ConfigError
  invalid : Text → Text → ConfigError

-- `os.Getenv`
abbrev pub or_empty : Option Text → Text
or_empty none = []
or_empty (some v) = v

abbrev pub getenv : Assoc Text → Text → Text
getenv env key = or_empty (lookup key env)

-- `hex.EncodeToString`
abbrev pub hex_digit : ℕ → ℕ
hex_digit d = if ltb d 10 then b'0' + d else b'a' + (d - 10)

unfoldable pub encode_to_string : List ℕ → Text
encode_to_string [] = []
encode_to_string (b ∷ bs) = hex_digit (b / 16) ∷ hex_digit (b % 16) ∷ encode_to_string bs

-- What `generateNodeID` gets: the time in seconds, and three bytes, or the error of `rand.Read`.
pub record Draw : Type 0 where
  pub timestamp : ℕ
  pub random : Option (List ℕ)

unfoldable pub generate_node_id : Draw → Text
unfolding encode_to_string
generate_node_id d =
    codes "node-"
    ++ sprint d.timestamp
    ++ elim d.random [ none ↦ codes "-000000" | some bytes ↦ b'-' ∷ encode_to_string bytes ]

unfoldable pub default_config : {Level : Type 0} → Level → Text → Config Level
default_config info_level node_name = record {
  log_level = info_level;
  http_port = 8080;
  grpc_port = 9876;
  members = [];
  storage_size = 1000000000;
  eviction_algorithm = fifo;
  node_name = node_name;
  cluster_port = 7946;
  seed_nodes = [];
}

abbrev pub or_invalid : {A : Type 0} → Text → Text → Option A → Reply ConfigError A
or_invalid name v none = fail (invalid name v)
or_invalid name v (some a) = reply a

-- A port: the flag as a `uint32`, or the variable, or the default.
unfoldable pub choose_port : ℕ → Text → Text → ℕ → Reply ConfigError ℕ
choose_port flag name v default =
    if not (flag == 0)
    then reply (flag % 2 ^ 32)
    else if text_eq v []
    then reply default
    else or_invalid name v (parse_uint 32 v)

-- The same for a setting that is an `int`.
unfoldable pub choose_int : ℕ → Text → Text → ℕ → Reply ConfigError ℕ
choose_int flag name v default =
    if not (flag == 0)
    then reply flag
    else if text_eq v []
    then reply default
    else or_invalid name v (atoi v)

unfoldable pub choose_level : (z : Zerolog) → Text → Text → Reply ConfigError z.Level
choose_level z flag v =
    if not (text_eq flag [])
    then or_invalid (codes "log-level") flag (z.parse_level flag)
    else if text_eq v []
    then reply z.info_level
    else or_invalid (codes "LOG_LEVEL") v (z.parse_level v)

-- The `switch` on an algorithm.
unfoldable pub checked_algorithm : Text → Text → Reply ConfigError Text
checked_algorithm name v =
    if text_eq v fifo || text_eq v lru || text_eq v no_eviction
    then reply v
    else fail (invalid name v)

unfoldable pub choose_algorithm : Text → Text → Reply ConfigError Text
unfolding checked_algorithm
choose_algorithm flag v =
    if not (text_eq flag [])
    then checked_algorithm (codes "eviction algorithm") flag
    else if text_eq v []
    then reply fifo
    else checked_algorithm (codes "EVICTION_ALGORITHM") v
