-- ===== src/Config/Valid.antt =====
-- What the settings that `Load` of config/index.go returns satisfy.
use qa_d.Base.{
  ℕ, suc, ◌^◌, ◌<◌, ◌≡◌, sym, subst, false, List, [], ◌∷◌, Option, none, some, Text, codes, Assoc,
  arith, ◌≢◌, ◌⊎◌, text_eq_iff, All,
}
use qa_d.Base.Int64.{modulus}
use qa_d.Proto.{reply, Ensures, Ensures->>=, Ensures-reply}
use qa_d.Config.{
  Member, Config, Zerolog, Draw, fifo, lru, no_eviction, getenv, generate_node_id, default_config,
  or_invalid, choose_port, choose_int, choose_level, choose_algorithm, checked_algorithm,
}
use qa_d.Config.Number.{parse_uint, atoi, parse_uint-lt, parse_int-lt}
use qa_d.Config.Members.{no_member, member_at, name_key, host_key, IsRun, members_loop-members}
use qa_d.Config.Bounds.{read_flags-Bounded}
use qa_d.Config.Load.{load, read_flags, load_members, choose_name, or_no_members}

-- One of the three constants.
abbrev pub IsAlgorithm : Text → Type 0
IsAlgorithm t = (t ≡ fifo) ⊎ (t ≡ lru) ⊎ (t ≡ no_eviction)

-- A member has a name or a host.
abbrev pub IsMember : Member → Type 0
IsMember m = (m.name ≢ []) ⊎ (m.host ≢ [])

-- The ports for clients are 32-bit numbers, the two `int`s are 64-bit patterns, the algorithm is one of
-- the three, the node has a name, and each member has a name or a host.
abbrev pub IsValid : {Level : Type 0} → Config Level → Type 0
IsValid c =
    (c.http_port < 2 ^ 32)
    × (c.grpc_port < 2 ^ 32)
    × (c.storage_size < modulus)
    × (c.cluster_port < modulus)
    × IsAlgorithm c.eviction_algorithm
    × (c.node_name ≢ [])
    × All IsMember c.members

or_invalid-inverse :
    {A : Type 0} (name v : Text) (o : Option A) (a : A) → or_invalid name v o ≡ reply a → o ≡ some a
or_invalid-inverse name v none a e = cc
or_invalid-inverse name v (some b) a e = cc

choose_port-lt :
    (given : ℕ) (name v : Text) (d n : ℕ)
    → d < 2 ^ 32
    → choose_port given name v d ≡ reply n
    → n < 2 ^ 32
unfolding choose_port
choose_port-lt given name v d n h e =
    ground (arith, or_invalid-inverse name v (parse_uint 32 v) n, parse_uint-lt 32 v n)

atoi-lt : (s : Text) (n : ℕ) → atoi s ≡ some n → n < modulus
unfolding atoi
atoi-lt s n e = parse_int-lt (parse_uint 64) s n e

choose_int-lt :
    (given : ℕ) (name v : Text) (d n : ℕ)
    → given < modulus
    → d < modulus
    → choose_int given name v d ≡ reply n
    → n < modulus
unfolding choose_int
choose_int-lt given name v d n h k e =
    ground (arith, or_invalid-inverse name v (atoi v) n, atoi-lt v n)

checked_algorithm-IsAlgorithm :
    (name v t : Text) → checked_algorithm name v ≡ reply t → IsAlgorithm t
unfolding checked_algorithm
checked_algorithm-IsAlgorithm name v t e =
    ground (arith, text_eq_iff v fifo, text_eq_iff v lru, text_eq_iff v no_eviction)

choose_algorithm-IsAlgorithm :
    (given v t : Text) → choose_algorithm given v ≡ reply t → IsAlgorithm t
unfolding choose_algorithm
choose_algorithm-IsAlgorithm given v t e = ground (
  arith,
  checked_algorithm-IsAlgorithm (codes "eviction algorithm") given t,
  checked_algorithm-IsAlgorithm (codes "EVICTION_ALGORITHM") v t,
)

generate_node_id-ne : (d : Draw) → generate_node_id d ≢ []
unfolding generate_node_id
generate_node_id-ne d e = cc

choose_name-ne : (v : Text) (d : Draw) → choose_name v d ≢ []
unfolding choose_name
choose_name-ne v d e = ground (arith, text_eq_iff v [], generate_node_id-ne d)

member_at-IsMember :
    (env : Assoc Text) (i : ℕ) → no_member env i ≡ false → IsMember (member_at env i)
unfolding no_member
member_at-IsMember env i e =
    ground
      (arith, text_eq_iff (getenv env (name_key i)) [], text_eq_iff (getenv env (host_key i)) [])

IsRun-IsMember : (env : Assoc Text) (i : ℕ) (ms : List Member) → IsRun env i ms → All IsMember ms
IsRun-IsMember env i [] h = tt
IsRun-IsMember env i (m ∷ ms) h =
    (subst IsMember (sym h.0) (member_at-IsMember env i h.1), IsRun-IsMember env (suc i) ms h.2)

pub load_members-IsRun : (env : Assoc Text) → IsRun env 0 (load_members env)
unfolding load_members
load_members-IsRun env =
    let (ms, run, is) = members_loop-members env in
    subst (λ o. IsRun env 0 (or_no_members o)) (sym run) is

load-Ensures :
    (z : Zerolog) (program : Text) (args : List Text) (env : Assoc Text) (first second : Draw)
    → Ensures IsValid (load z program args env first second)
unfolding load default_config
load-Ensures z program args env first second =
    Ensures->>= IsValid (read_flags program args) _ (λ f flags.
      Ensures->>= IsValid
        (choose_port f.port (codes "HTTP_PORT") (getenv env (codes "HTTP_PORT")) 8080) _
        (λ http p1.
          Ensures->>= IsValid
            (choose_port f.grpc_port (codes "GRPC_PORT") (getenv env (codes "GRPC_PORT")) 9876) _
            (λ grpc p2.
              Ensures->>= IsValid (choose_level z f.log_level (getenv env (codes "LOG_LEVEL"))) _
                (λ level p3.
                  Ensures->>= IsValid
                    (choose_int f.storage_size (codes "STORAGE_SIZE")
                      (getenv env (codes "STORAGE_SIZE")) 1000000000)
                    _
                    (λ size p4.
                      Ensures->>= IsValid
                        (choose_algorithm f.eviction (getenv env (codes "EVICTION_ALGORITHM"))) _
                        (λ algorithm p5.
                          Ensures->>= IsValid
                            (choose_int f.cluster_port (codes "CLUSTER_PORT")
                              (getenv env (codes "CLUSTER_PORT")) 7946)
                            _
                            (λ port p6.
                              let bounded = read_flags-Bounded program args f flags in
                              (
                                choose_port-lt _ _ _ 8080 http (omega arith) p1,
                                choose_port-lt _ _ _ 9876 grpc (omega arith) p2,
                                choose_int-lt _ _ _ 1000000000 size bounded.0 (omega arith) p4,
                                choose_int-lt _ _ _ 7946 port bounded.1 (omega arith) p6,
                                choose_algorithm-IsAlgorithm _ _ algorithm p5,
                                choose_name-ne _ second,
                                IsRun-IsMember env 0 (load_members env) (load_members-IsRun env),
                              ))))))))

pub load-IsValid :
    (z : Zerolog) (program : Text) (args : List Text) (env : Assoc Text) (first second : Draw)
    (cfg : Config z.Level)
    → load z program args env first second ≡ reply cfg
    → IsValid cfg
load-IsValid z program args env first second cfg e =
    Ensures-reply IsValid (load z program args env first second)
      (load-Ensures z program args env first second) e
