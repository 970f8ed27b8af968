-- ===== src/Config/Bounds.antt =====
-- The numbers that the flags of `Load` hold (config/index.go).
use mathlib.Core.Option
use qa_d.Base.{
  ℕ, ◌<◌, ◌≡◌, refl, subst, Bool, true, false, List, [], ◌∷◌, Option, none, some, Text,
  if◌then◌else◌, arith, inl, inr, Bool-cases,
}
use qa_d.Base.Int64.{modulus}
use qa_d.Proto.{reply, reply_injective}
use qa_d.Config.Number.{parse_uint_any, parse_int-lt}
use qa_d.Config.CommandLine.{
  FlagError, after, flag_step, argument_step, Argument, plain, end_mark, wrong, flag, flag_named,
  read_argument, is_help, Flags, Flag, Parsed, invalid_value, parsed, help, failed, no_flags,
  parse_flags, parse_loop, set_flag,
}
use qa_d.Config.Load.{read_flags, flags_of, is_test}

some_injective : {A : Type 0} {a b : A} → some a ≡ some b → a ≡ b
some_injective e = cc

-- The flags that are an `int` have 64 bits.
abbrev pub Bounded : Flags → Type 0
Bounded f = (f.storage_size < modulus) × (f.cluster_port < modulus)

map-Bounded :
    (o : Option ℕ) (set : ℕ → Flags) (g : Flags)
    → ((n : ℕ) → o ≡ some n → Bounded (set n))
    → Option.map set o ≡ some g
    → Bounded g
map-Bounded none set g h e = cc
map-Bounded (some n) set g h e = subst Bounded (some_injective e) (h n refl)

set_flag-Bounded :
    (f : Flags) (target : Flag) (v : Text) (g : Flags)
    → Bounded f
    → set_flag f target v ≡ some g
    → Bounded g
unfolding set_flag
set_flag-Bounded f Flag.port v g h e = map-Bounded _ _ g (λ n p. h) e
set_flag-Bounded f Flag.grpc_port v g h e = map-Bounded _ _ g (λ n p. h) e
set_flag-Bounded f Flag.cluster_port v g h e =
    map-Bounded _ _ g (λ n p. (h.0, parse_int-lt (parse_uint_any 64) v n p)) e
set_flag-Bounded f Flag.log_level v g h e = subst Bounded (some_injective e) h
set_flag-Bounded f Flag.storage_size v g h e =
    map-Bounded _ _ g (λ n p. (parse_int-lt (parse_uint_any 64) v n p, h.1)) e
set_flag-Bounded f Flag.eviction v g h e = subst Bounded (some_injective e) h

-- What every end of `Parse` that is not an error has.
abbrev EndBounded : Parsed → Type 0
EndBounded (parsed f) = Bounded f
EndBounded (help f) = Bounded f
EndBounded (failed e) = Unit

after-EndBounded :
    (o : Option Flags) (e : FlagError) (next : Flags → Parsed)
    → ((g : Flags) → o ≡ some g → EndBounded (next g))
    → EndBounded (after o e next)
unfolding after
after-EndBounded none e next h = tt
after-EndBounded (some g) e next h = h g refl

flag_step-EndBounded :
    (next : Option (Flag × Text) → Flags → Parsed) (f : Flags) (name : Text) (value : Option Text)
    (target : Option Flag)
    → ((w : Option (Flag × Text)) (g : Flags) → Bounded g → EndBounded (next w g))
    → Bounded f
    → EndBounded (flag_step next f name value target)
unfolding flag_step
flag_step-EndBounded next f name value none later h = elim (Bool-cases (is_help name)) [
  | inl e ↦ rw e h
  | inr e ↦ rw e tt
]
flag_step-EndBounded next f name none (some target) later h = later (some (target, name)) f h
flag_step-EndBounded next f name (some v) (some target) later h =
    after-EndBounded (set_flag f target v) (invalid_value name v) (next none)
      (λ g e. later none g (set_flag-Bounded f target v g h e))

argument_step-EndBounded :
    (next : Option (Flag × Text) → Flags → Parsed) (f : Flags) (arg : Text) (a : Argument)
    → ((w : Option (Flag × Text)) (g : Flags) → Bounded g → EndBounded (next w g))
    → Bounded f
    → EndBounded (argument_step next f arg a)
unfolding argument_step
argument_step-EndBounded next f arg plain later h = h
argument_step-EndBounded next f arg end_mark later h = h
argument_step-EndBounded next f arg wrong later h = tt
argument_step-EndBounded next f arg (flag name value) later h =
    flag_step-EndBounded next f name value (flag_named name) later h

parse_loop-EndBounded :
    (args : List Text) (waiting : Option (Flag × Text)) (f : Flags)
    → Bounded f
    → EndBounded (parse_loop args waiting f)
unfolding parse_loop
parse_loop-EndBounded [] none f h = h
parse_loop-EndBounded [] (some (target, name)) f h = tt
parse_loop-EndBounded (arg ∷ args) (some (target, name)) f h =
    after-EndBounded (set_flag f target arg) (invalid_value name arg) (parse_loop args none)
      (λ g e. parse_loop-EndBounded args none g (set_flag-Bounded f target arg g h e))
parse_loop-EndBounded (arg ∷ args) none f h =
    argument_step-EndBounded (parse_loop args) f arg (read_argument arg)
      (λ w g k. parse_loop-EndBounded args w g k) h

flags_of-Bounded : (p : Parsed) (f : Flags) → EndBounded p → flags_of p ≡ reply f → Bounded f
flags_of-Bounded (parsed g) f h e = subst Bounded (reply_injective e) h
flags_of-Bounded (help g) f h e = subst Bounded (reply_injective e) h
flags_of-Bounded (failed x) f h e = cc

pub read_flags-Bounded :
    (program : Text) (args : List Text) (f : Flags) → read_flags program args ≡ reply f → Bounded f
unfolding read_flags parse_flags
read_flags-Bounded program args f e = go (is_test program) e
  where
    go :
        (b : Bool)
        → (if b then reply no_flags else flags_of (parse_flags args)) ≡ reply f
        → Bounded f
    go true e = subst Bounded (reply_injective e) (omega arith, omega arith)
    go false e =
        flags_of-Bounded (parse_flags args) f
          (parse_loop-EndBounded args none no_flags (omega arith, omega arith)) e
