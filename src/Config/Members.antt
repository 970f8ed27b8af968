-- ===== src/Config/Members.antt =====
-- The loop of `Load` (config/index.go) over `MEMBER_<i>_NAME` and `MEMBER_<i>_HOST`. It has no bound in
-- the code; a round for each variable of the environment, and one more, is enough.
use mathlib.Core.Option
use qa_d.Base.{
  ℕ, zero, suc, ◌+◌, ◌-◌, ◌*◌, ◌/◌, ◌%◌, ◌≤◌, ◌<◌, ◌≡◌, refl, ◌∙◌, ap, Bool, true, false, ◌&&◌,
  List, [], ◌∷◌, ◌++◌, Option, none, some, Text, codes, text_eq, ◌==◌, length, if◌then◌else◌, Assoc,
  lookup, delete, arith, ◌≢◌, inl, inr, lookup-delete, text_eq-false, Bool-cases,
}
use qa_d.Base.Decimal.{sprint, digits_loop}
use qa_d.Config.{Member, getenv, or_empty}

-- The two variables of an index.
abbrev pub name_key : ℕ → Text
name_key i = codes "MEMBER_" ++ sprint i ++ codes "_NAME"

abbrev pub host_key : ℕ → Text
host_key i = codes "MEMBER_" ++ sprint i ++ codes "_HOST"

abbrev pub member_at : Assoc Text → ℕ → Member
member_at env i = record { name = getenv env (name_key i); host = getenv env (host_key i) }

-- Neither variable is set, or both are empty.
unfoldable pub no_member : Assoc Text → ℕ → Bool
no_member env i = text_eq (getenv env (name_key i)) [] && text_eq (getenv env (host_key i)) []

-- `none`: out of fuel.
unfoldable pub members_loop : ℕ → Assoc Text → ℕ → Option (List Member)
unfolding no_member
members_loop zero env i = none
members_loop (suc fuel) env i = elim (no_member env i) [
  | true ↦ some []
  | false ↦ Option.map (◌∷◌ (member_at env i)) (members_loop fuel env (suc i))
]

abbrev pub members_fuel : Assoc Text → ℕ
members_fuel env = suc (length env)

-- The index that stands in a key, behind "MEMBER_".
abbrev read_index : ℕ → Text → ℕ
read_index acc [] = acc
read_index acc (c ∷ cs) = if c == b'_' then acc else read_index (acc * 10 + (c - b'0')) cs

abbrev key_index : Text → ℕ
key_index (m ∷ e ∷ m' ∷ b ∷ e' ∷ r ∷ u ∷ cs) = read_index 0 cs
key_index s = 0

digits_loop-append :
    (fuel n : ℕ) (acc t : Text) → digits_loop fuel n acc ++ t ≡ digits_loop fuel n (acc ++ t)
unfolding digits_loop
digits_loop-append zero n acc t = refl
digits_loop-append (suc fuel) n acc t =
    ground (arith, digits_loop-append fuel (n / 10) ((b'0' + n % 10) ∷ acc) t)

digits_loop-read_index :
    (fuel n : ℕ) (acc : Text) → n < fuel → read_index 0 (digits_loop fuel n acc) ≡ read_index n acc
unfolding digits_loop
digits_loop-read_index zero n acc h = absurd (omega arith)
digits_loop-read_index (suc fuel) n acc h =
    ground (arith, digits_loop-read_index fuel (n / 10) ((b'0' + n % 10) ∷ acc))

sprint-read_index : (n : ℕ) (cs : Text) → read_index 0 (sprint n ++ b'_' ∷ cs) ≡ n
unfolding sprint
sprint-read_index n cs =
    ap (read_index 0) (digits_loop-append (suc n) n [] (b'_' ∷ cs))
    ∙ digits_loop-read_index (suc n) n (b'_' ∷ cs) (omega arith)

name_key-index : (i : ℕ) → key_index (name_key i) ≡ i
name_key-index i = sprint-read_index i (codes "NAME")

host_key-index : (i : ℕ) → key_index (host_key i) ≡ i
host_key-index i = sprint-read_index i (codes "HOST")

delete-le : (k : Text) (env : Assoc Text) → length (delete k env) ≤ length env
unfolding delete
delete-le k [] = omega arith
delete-le k ((j, w) ∷ env) = ground (arith, delete-le k env)

delete-lt :
    (k : Text) (env : Assoc Text)
    → text_eq (getenv env k) [] ≡ false
    → length (delete k env) < length env
unfolding delete lookup text_eq
delete-lt k [] h = cc
delete-lt k ((j, w) ∷ env) h = ground (arith, delete-le k env, delete-lt k env)

getenv-delete :
    (k q : Text) (env : Assoc Text)
    → key_index k ≢ key_index q
    → getenv (delete k env) q ≡ getenv env q
getenv-delete k q env h =
    let absent = text_eq-false k q (λ e. h (ap key_index e)) in
    ap or_empty (lookup-delete q k env ∙ ap (λ b. if b then none else lookup q env) absent)

-- Without a variable of one index, the other indices are as they were.
no_member-delete :
    (k : Text) (j : ℕ) (env : Assoc Text)
    → key_index k ≢ j
    → no_member (delete k env) j ≡ no_member env j
unfolding no_member
no_member-delete k j env h = rw (
  getenv-delete k (name_key j) env (λ e. h (e ∙ name_key-index j)),
  getenv-delete k (host_key j) env (λ e. h (e ∙ host_key-index j)),
)

-- A set index has a variable, which the environment holds.
set_index :
    (env : Assoc Text) (i : ℕ)
    → no_member env i ≡ false
    → (k : Text) × (key_index k ≡ i) × (text_eq (getenv env k) [] ≡ false)
unfolding no_member
set_index env i h = elim (Bool-cases (text_eq (getenv env (name_key i)) [])) [
  | inr named ↦ (name_key i, name_key-index i, named)
  | inl e ↦ (host_key i, host_key-index i, ground arith)
]

-- A run from an index: the members of the indices up to the first unset one.
abbrev pub IsRun : Assoc Text → ℕ → List Member → Type 0
IsRun env i [] = no_member env i ≡ true
IsRun env i (m ∷ ms) = (m ≡ member_at env i) × (no_member env i ≡ false) × IsRun env (suc i) ms

-- An environment has no more set indices than variables, so the loop reaches an unset one.
members_loop-IsRun :
    (fuel i : ℕ) (env env' : Assoc Text)
    → length env' < fuel
    → ((j : ℕ) → i ≤ j → no_member env' j ≡ no_member env j)
    → (ms : List Member) × (members_loop fuel env i ≡ some ms) × IsRun env i ms
unfolding members_loop
members_loop-IsRun zero i env env' h same = absurd (omega arith)
members_loop-IsRun (suc fuel) i env env' h same = elim (Bool-cases (no_member env i)) [
  | inl unset ↦ ([], rw (members_loop, unset) refl, unset)
  | inr e ↦
      let (k, at, found) = set_index env' i (same i (omega arith) ∙ e) in
      let later = λ (j : ℕ) (le : suc i ≤ j).
        no_member-delete k j env' (λ q. omega arith) ∙ same j (omega arith) in
      let (ms, run, is) =
        members_loop-IsRun fuel (suc i) env (delete k env') (omega (arith, delete-lt k env' found))
          later in
      let opened : members_loop (suc fuel) env i
          ≡ Option.map (◌∷◌ (member_at env i)) (members_loop fuel env (suc i)) =
        rw (members_loop, e) refl in
      (member_at env i ∷ ms, opened ∙ ap (Option.map (◌∷◌ (member_at env i))) run, (refl, e, is))
]

-- The loop ends within its fuel, with the members of the indices from 0 up to the first index whose two
-- variables are both empty or not set.
pub members_loop-members :
    (env : Assoc Text)
    → (ms : List Member) × (members_loop (members_fuel env) env 0 ≡ some ms) × IsRun env 0 ms
members_loop-members env =
    members_loop-IsRun (members_fuel env) 0 env env (omega arith) (λ j le. refl)
