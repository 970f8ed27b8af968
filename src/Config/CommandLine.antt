-- ===== src/Config/CommandLine.antt =====
-- The part of the package `flag` that the settings use (config/index.go): the flags of `Load`, and
-- `FlagSet.Parse` under `ContinueOnError`.
use mathlib.Core.List.{reverse}
use mathlib.Core.Option
use qa_d.Base.{
  ℕ, Bool, ◌||◌, List, [], ◌∷◌, Option, none, some, Text, codes, text_eq, ◌==◌, if◌then◌else◌, not,
}
use qa_d.Config.Number.{parse_uint_any, parse_int}

-- The values of the flags: numbers of 64 bits, and texts.
pub record Flags : Type 0 where
  pub port : ℕ
  pub grpc_port : ℕ
  pub cluster_port : ℕ
  pub log_level : Text
  pub storage_size : ℕ
  pub eviction : Text

abbrev pub no_flags : Flags
no_flags = record {
  port = 0;
  grpc_port = 0;
  cluster_port = 0;
  log_level = [];
  storage_size = 0;
  eviction = [];
}

pub data FlagError : Type 0 where
  bad_syntax : Text → FlagError
  not_defined : Text → FlagError
  needs_argument : Text → FlagError
  invalid_value : Text → Text → FlagError

-- The end of `Parse`: the flags, with the flags so far where `-help` stopped it, or an error.
pub data Parsed : Type 0 where
  parsed : Flags → Parsed
  help : Flags → Parsed
  failed : FlagError → Parsed

-- The flags by their names.
pub data Flag : Type 0 where
  port grpc_port cluster_port log_level storage_size eviction : Flag

unfoldable pub flag_named : Text → Option Flag
flag_named name =
    if text_eq name (codes "port")
    then some Flag.port
    else if text_eq name (codes "grpc-port")
    then some Flag.grpc_port
    else if text_eq name (codes "cluster-port")
    then some Flag.cluster_port
    else if text_eq name (codes "log-level")
    then some Flag.log_level
    else if text_eq name (codes "storage-size")
    then some Flag.storage_size
    else if text_eq name (codes "eviction")
    then some Flag.eviction
    else none

-- An argument: not a flag, the end of the flags, a flag that is written wrong, or a flag with its
-- name and, behind "=", its value.
pub data Argument : Type 0 where
  plain : Argument
  end_mark : Argument
  wrong : Argument
  flag : Text → Option Text → Argument

-- The name up to the first "=" that does not stand at its start, and the value behind that.
unfoldable pub split_value : Text → Text → Argument
split_value name [] = flag (reverse name) none
split_value name (c ∷ cs) =
    let rest = split_value (c ∷ name) cs in
    if c == b'=' then flag (reverse name) (some cs) else rest

-- Behind the one or two dashes.
unfoldable pub named_argument : Text → Argument
unfolding split_value
named_argument [] = wrong
named_argument (c ∷ cs) = if c == b'-' || c == b'=' then wrong else split_value (c ∷ []) cs

unfoldable pub read_argument : Text → Argument
unfolding named_argument
read_argument [] = plain
read_argument (d ∷ []) = plain
read_argument (d ∷ e ∷ cs) =
    if not (d == b'-')
    then plain
    else if not (e == b'-')
    then named_argument (e ∷ cs)
    else elim cs [ [] ↦ end_mark | x ∷ xs ↦ named_argument (x ∷ xs) ]

-- `Value.Set` for each flag.
unfoldable pub set_flag : Flags → Flag → Text → Option Flags
set_flag f Flag.port v = Option.map (λ n. record f { port = n }) (parse_uint_any 64 v)
set_flag f Flag.grpc_port v = Option.map (λ n. record f { grpc_port = n }) (parse_uint_any 64 v)
set_flag f Flag.cluster_port v =
    Option.map (λ n. record f { cluster_port = n }) (parse_int (parse_uint_any 64) v)
set_flag f Flag.log_level v = some (record f { log_level = v })
set_flag f Flag.storage_size v =
    Option.map (λ n. record f { storage_size = n }) (parse_int (parse_uint_any 64) v)
set_flag f Flag.eviction v = some (record f { eviction = v })

abbrev pub is_help : Text → Bool
is_help name = text_eq name (codes "help") || text_eq name (codes "h")

-- What follows a flag that is set, or the error of its value.
unfoldable pub after : Option Flags → FlagError → (Flags → Parsed) → Parsed
after none e next = failed e
after (some g) e next = next g

-- A flag with its name and perhaps its value. Without a value it waits for the next argument.
unfoldable pub flag_step :
    (Option (Flag × Text) → Flags → Parsed) → Flags → Text → Option Text → Option Flag → Parsed
unfolding set_flag after
flag_step next f name value none = if is_help name then help f else failed (not_defined name)
flag_step next f name none (some target) = next (some (target, name)) f
flag_step next f name (some v) (some target) =
    after (set_flag f target v) (invalid_value name v) (next none)

unfoldable pub argument_step :
    (Option (Flag × Text) → Flags → Parsed) → Flags → Text → Argument → Parsed
unfolding flag_step flag_named
argument_step next f arg plain = parsed f
argument_step next f arg end_mark = parsed f
argument_step next f arg wrong = failed (bad_syntax arg)
argument_step next f arg (flag name value) = flag_step next f name value (flag_named name)

-- The loop of `Parse`, with the flag that waits for its value in this argument.
unfoldable pub parse_loop : List Text → Option (Flag × Text) → Flags → Parsed
unfolding argument_step read_argument set_flag after
parse_loop [] none f = parsed f
parse_loop [] (some (target, name)) f = failed (needs_argument name)
parse_loop (arg ∷ args) (some (target, name)) f =
    after (set_flag f target arg) (invalid_value name arg) (parse_loop args none)
parse_loop (arg ∷ args) none f = argument_step (parse_loop args) f arg (read_argument arg)

unfoldable pub parse_flags : List Text → Parsed
unfolding parse_loop
parse_flags args = parse_loop args none no_flags
