-- ===== src/Config/Precedence.antt =====
-- Which of the flags, the environment and the defaults `Load` of config/index.go takes.
use qa_d.Base.{
  ℕ, ◌%◌, ◌^◌, ◌<◌, ◌≤◌, ◌≡◌, refl, Bool, true, false, List, [], ◌∷◌, some, Text, codes, text_eq,
  if◌then◌else◌, Assoc, arith, ◌≢◌, inl, inr, text_eq_iff, text_eq-false, lookup, ltb, lt→ltb,
  le→ltb, ==_iff,
}
use qa_d.Base.Int64.{sign}
use qa_d.Base.Decimal.{sprint, sprint-ne}
use qa_d.Proto.{reply, fail}
use qa_d.Config.{
  Zerolog, Draw, fifo, lru, no_eviction, invalid, getenv, generate_node_id, choose_port, choose_int,
  choose_level, choose_algorithm, checked_algorithm, default_config,
}
use qa_d.Config.Number.{parse_uint-sprint, atoi-sprint}
use qa_d.Config.CommandLine.{
  parse_loop, argument_step, read_argument, named_argument, split_value, flag_step, flag_named,
  Flags, parse_flags, no_flags,
}
use qa_d.Config.Load.{load, read_flags, is_test, load_members, choose_name, choose_seeds}
use qa_d.Config.Valid.{IsAlgorithm}

choose_port_flag :
    (given : ℕ) (name v : Text) (d : ℕ)
    → given ≢ 0
    → choose_port given name v d ≡ reply (given % 2 ^ 32)
unfolding choose_port
choose_port_flag given name v d h = ground (arith, ==_iff given 0)

choose_int_flag :
    (given : ℕ) (name v : Text) (d : ℕ) → given ≢ 0 → choose_int given name v d ≡ reply given
unfolding choose_int
choose_int_flag given name v d h = ground (arith, ==_iff given 0)

choose_port_variable :
    (name : Text) (n d : ℕ)
    → choose_port 0 name (sprint n) d
      ≡ (if ltb n (2 ^ 32) then reply n else fail (invalid name (sprint n)))
unfolding choose_port
choose_port_variable name n d =
    ground (arith, parse_uint-sprint 32 n, text_eq_iff (sprint n) [], sprint-ne n)

choose_int_variable :
    (name : Text) (n d : ℕ)
    → choose_int 0 name (sprint n) d
      ≡ (if ltb n sign then reply n else fail (invalid name (sprint n)))
unfolding choose_int
choose_int_variable name n d = ground (arith, atoi-sprint n, text_eq_iff (sprint n) [], sprint-ne n)

choose_level_flag :
    (z : Zerolog) (given v : Text) (l : z.Level)
    → z.parse_level given ≡ some l
    → given ≢ []
    → choose_level z given v ≡ reply l
unfolding choose_level
choose_level_flag z given v l e h = rw (text_eq-false given [] h, e) refl

choose_level_variable :
    (z : Zerolog) (v : Text) (l : z.Level)
    → z.parse_level v ≡ some l
    → v ≢ []
    → choose_level z [] v ≡ reply l
unfolding choose_level text_eq
choose_level_variable z v l e h = rw (text_eq-false v [] h, e) refl

checked_algorithm-eq-reply : (name v : Text) → IsAlgorithm v → checked_algorithm name v ≡ reply v
unfolding checked_algorithm
checked_algorithm-eq-reply name v h =
    ground (arith, text_eq_iff v fifo, text_eq_iff v lru, text_eq_iff v no_eviction)

IsAlgorithm-ne : (v : Text) → IsAlgorithm v → v ≢ []
IsAlgorithm-ne v (inl e) q = cc
IsAlgorithm-ne v (inr (inl e)) q = cc
IsAlgorithm-ne v (inr (inr e)) q = cc

choose_algorithm_flag :
    (given v : Text) → IsAlgorithm given → choose_algorithm given v ≡ reply given
unfolding choose_algorithm
choose_algorithm_flag given v h =
    rw (text_eq-false given [] (IsAlgorithm-ne given h)) (checked_algorithm-eq-reply _ given h)

choose_algorithm_variable : (v : Text) → IsAlgorithm v → choose_algorithm [] v ≡ reply v
unfolding choose_algorithm text_eq
choose_algorithm_variable v h =
    rw (text_eq-false v [] (IsAlgorithm-ne v h)) (checked_algorithm-eq-reply _ v h)

if_same : {A : Type 0} (b : Bool) (a : A) → (if b then a else a) ≡ a
if_same true a = refl
if_same false a = refl

-- Without arguments, and in a test, no flag is set.
read_flags_none : (program : Text) → read_flags program [] ≡ reply no_flags
unfolding read_flags parse_flags
read_flags_none program = if_same (is_test program) (reply no_flags)

read_flags_help :
    (program : Text) (args : List Text) → read_flags program (codes "-help" ∷ args) ≡ reply no_flags
unfolding read_flags parse_flags parse_loop argument_step read_argument named_argument split_value
    flag_step flag_named text_eq
read_flags_help program args = if_same (is_test program) (reply no_flags)

-- Without arguments and variables `Load` returns the default settings, with the name that it draws
-- second.
pub load_default :
    (z : Zerolog) (program : Text) (first second : Draw)
    → load z program [] [] first second
      ≡ reply (default_config z.info_level (generate_node_id second))
unfolding load choose_port choose_int choose_level choose_algorithm choose_name choose_seeds
    default_config load_members text_eq lookup
load_default z program first second = rw (read_flags_none program) refl

-- Flags that are all set decide their settings, whatever the environment holds. A port is taken modulo
-- `2 ^ 32`.
pub load_flags :
    (z : Zerolog) (program : Text) (args : List Text) (env : Assoc Text) (first second : Draw)
    (f : Flags) (l : z.Level)
    → read_flags program args ≡ reply f
    → f.port ≢ 0
    → f.grpc_port ≢ 0
    → f.log_level ≢ []
    → z.parse_level f.log_level ≡ some l
    → f.storage_size ≢ 0
    → IsAlgorithm f.eviction
    → f.cluster_port ≢ 0
    → load z program args env first second
      ≡ reply record {
        log_level = l;
        http_port = f.port % 2 ^ 32;
        grpc_port = f.grpc_port % 2 ^ 32;
        members = load_members env;
        storage_size = f.storage_size;
        eviction_algorithm = f.eviction;
        node_name = choose_name (getenv env (codes "NODE_NAME")) second;
        cluster_port = f.cluster_port;
        seed_nodes = choose_seeds (getenv env (codes "SEED_NODES"));
      }
unfolding load
load_flags z program args env first second f l read port grpc named level size algorithm cluster =
    rw
      (
        read,
        choose_port_flag f.port _ _ _ port,
        choose_port_flag f.grpc_port _ _ _ grpc,
        choose_level_flag z f.log_level _ l level named,
        choose_int_flag f.storage_size _ _ _ size,
        choose_algorithm_flag f.eviction _ algorithm,
        choose_int_flag f.cluster_port _ _ _ cluster,
      )
      refl

-- Without flags, variables that hold decimal numbers within the range of their settings, a level and an
-- algorithm decide the settings.
pub load_environment :
    (z : Zerolog) (program : Text) (args : List Text) (env : Assoc Text) (first second : Draw)
    (http grpc size cluster : ℕ) (level algorithm : Text) (l : z.Level)
    → read_flags program args ≡ reply no_flags
    → getenv env (codes "HTTP_PORT") ≡ sprint http
    → getenv env (codes "GRPC_PORT") ≡ sprint grpc
    → getenv env (codes "LOG_LEVEL") ≡ level
    → getenv env (codes "STORAGE_SIZE") ≡ sprint size
    → getenv env (codes "EVICTION_ALGORITHM") ≡ algorithm
    → getenv env (codes "CLUSTER_PORT") ≡ sprint cluster
    → http < 2 ^ 32
    → grpc < 2 ^ 32
    → level ≢ []
    → z.parse_level level ≡ some l
    → size < sign
    → IsAlgorithm algorithm
    → cluster < sign
    → load z program args env first second
      ≡ reply record {
        log_level = l;
        http_port = http;
        grpc_port = grpc;
        members = load_members env;
        storage_size = size;
        eviction_algorithm = algorithm;
        node_name = choose_name (getenv env (codes "NODE_NAME")) second;
        cluster_port = cluster;
        seed_nodes = choose_seeds (getenv env (codes "SEED_NODES"));
      }
unfolding load
load_environment z program args env first second http grpc size cluster level algorithm l read e1 e2
      e3 e4 e5 e6 h g named parsed s a c =
    rw
      (
        read,
        e1,
        e2,
        e3,
        e4,
        e5,
        e6,
        choose_port_variable _ http _,
        lt→ltb http (2 ^ 32) h,
        choose_port_variable _ grpc _,
        lt→ltb grpc (2 ^ 32) g,
        choose_level_variable z level l parsed named,
        choose_int_variable _ size _,
        lt→ltb size sign s,
        choose_algorithm_variable algorithm a,
        choose_int_variable _ cluster _,
        lt→ltb cluster sign c,
      )
      refl

-- A port of `2 ^ 32` or more in HTTP_PORT stops `Load` with an error that names the variable and its
-- value, where no flag is set.
pub load_large_port :
    (z : Zerolog) (program : Text) (args : List Text) (env : Assoc Text) (first second : Draw)
    (n : ℕ)
    → read_flags program args ≡ reply no_flags
    → getenv env (codes "HTTP_PORT") ≡ sprint n
    → 2 ^ 32 ≤ n
    → load z program args env first second ≡ fail (invalid (codes "HTTP_PORT") (sprint n))
unfolding load
load_large_port z program args env first second n read e h =
    rw (read, e, choose_port_variable _ n _, le→ltb n (2 ^ 32) h) refl

-- The argument `-help` does not stop `Load`: it goes on as if there were no arguments.
pub load_help :
    (z : Zerolog) (program : Text) (args : List Text) (env : Assoc Text) (first second : Draw)
    → load z program (codes "-help" ∷ args) env first second ≡ load z program [] env first second
unfolding load
load_help z program args env first second =
    rw (read_flags_help program args, read_flags_none program) refl
