-- ===== src/Config/Number.antt =====
-- The parts of `strconv` that the settings use (config/index.go): `ParseUint`, `ParseInt` and `Atoi`,
-- `none` being an error. An `int` is its 64-bit pattern.
use qa_d.Base.{
  ℕ, zero, suc, ◌+◌, ◌-◌, ◌*◌, ◌/◌, ◌%◌, ◌^◌, ◌<◌, ◌≡◌, refl, ◌∙◌, Bool, true, false, not, ◌&&◌,
  ◌||◌, [], ◌∷◌, Option, none, some, Text, ltb, leb, ◌==◌, if◌then◌else◌, arith, ◌≢◌, ap,
}
use qa_d.Base.Int64.{modulus, sign}
use qa_d.Base.Decimal.{sprint, sprint-ne, digits_loop}

-- `c | ('x' - 'X')` on a letter.
abbrev lower : ℕ → ℕ
lower c = if leb b'A' c && leb c b'Z' then c + 32 else c

-- The digit that a byte stands for, in bases up to 36.
unfoldable pub digit_value : ℕ → Option ℕ
digit_value c =
    if leb b'0' c && leb c b'9'
    then some (c - b'0')
    else if leb b'a' (lower c) && leb (lower c) b'z'
    then some (lower c - b'a' + 10)
    else none

-- The loop of `ParseUint`, without its bound. In base 0 underscores are passed over.
unfoldable pub parse_digits : ℕ → Bool → ℕ → Text → Option ℕ
unfolding digit_value
parse_digits base under n [] = some n
parse_digits base under n (c ∷ cs) = elim (under && c == b'_') [
  | true ↦ parse_digits base under n cs
  | false ↦ elim (digit_value c) [
    | none ↦ none
    | some d ↦ elim (ltb d base) [ true ↦ parse_digits base under (n * base + d) cs | false ↦ none ]
  ]
]

-- The bound of `ParseUint`: `bits` is the size of the result.
abbrev pub bounded : ℕ → Option ℕ → Option ℕ
bounded limit none = none
bounded limit (some n) = if ltb n limit then some n else none

-- `strconv.ParseUint(s, 10, bits)`
unfoldable pub parse_uint : ℕ → Text → Option ℕ
unfolding parse_digits
parse_uint bits [] = none
parse_uint bits (c ∷ cs) = bounded (2 ^ bits) (parse_digits 10 false 0 (c ∷ cs))

-- The base that a prefix gives, and the digits behind it.
unfoldable pub base_prefix : Text → ℕ × Text
base_prefix (z ∷ p ∷ d ∷ ds) =
    if not (z == b'0')
    then (10, z ∷ p ∷ d ∷ ds)
    else if lower p == b'b'
    then (2, d ∷ ds)
    else if lower p == b'o'
    then (8, d ∷ ds)
    else if lower p == b'x'
    then (16, d ∷ ds)
    else (8, p ∷ d ∷ ds)
base_prefix (z ∷ ds) = if z == b'0' then (8, ds) else (10, z ∷ ds)
base_prefix [] = (10, [])

-- What stood before the next byte, for `underscoreOK`: a digit or a base, an underscore, or neither.
pub data Before : Type 0 where
  start digit underscore other : Before

unfoldable pub underscore_loop : Bool → Before → Text → Bool
underscore_loop hex underscore [] = false
underscore_loop hex _ [] = true
underscore_loop hex before (c ∷ cs) =
    elim ((leb b'0' c && leb c b'9') || (hex && leb b'a' (lower c) && leb (lower c) b'f')) [
      | true ↦ underscore_loop hex digit cs
      | false ↦ elim (c == b'_') [
        | true ↦ elim before [ digit ↦ underscore_loop hex underscore cs | _ ↦ false ]
        | false ↦ elim before [ underscore ↦ false | _ ↦ underscore_loop hex other cs ]
      ]
    ]

-- `underscoreOK`, of a number without a sign.
unfoldable pub underscore_ok : Text → Bool
unfolding underscore_loop
underscore_ok (z ∷ p ∷ ds) =
    let based = z == b'0' && (lower p == b'b' || lower p == b'o' || lower p == b'x') in
    if based
    then underscore_loop (lower p == b'x') digit ds
    else underscore_loop false start (z ∷ p ∷ ds)
underscore_ok s = underscore_loop false start s

abbrev has_underscore : Text → Bool
has_underscore [] = false
has_underscore (c ∷ cs) = c == b'_' || has_underscore cs

-- `strconv.ParseUint(s, 0, bits)`
unfoldable pub parse_uint_any : ℕ → Text → Option ℕ
unfolding parse_digits base_prefix underscore_ok
parse_uint_any bits [] = none
parse_uint_any bits (c ∷ cs) =
    let (base, ds) = base_prefix (c ∷ cs) in
    if has_underscore ds && not (underscore_ok (c ∷ cs))
    then none
    else bounded (2 ^ bits) (parse_digits base true 0 ds)

-- The `int` of a magnitude and a sign, within the range of an `int`.
abbrev signed : Bool → Option ℕ → Option ℕ
signed neg none = none
signed false (some n) = if ltb n sign then some n else none
signed true (some n) = if leb n sign then some ((modulus - n) % modulus) else none

-- `strconv.ParseInt(s, base, 64)`, for the `ParseUint` of the base.
abbrev pub parse_int : (Text → Option ℕ) → Text → Option ℕ
parse_int parse [] = none
parse_int parse (c ∷ cs) =
    if c == b'-'
    then signed true (parse cs)
    else if c == b'+'
    then signed false (parse cs)
    else signed false (parse (c ∷ cs))

-- `strconv.Atoi(s)`
unfoldable pub atoi : Text → Option ℕ
unfolding parse_uint
atoi s = parse_int (parse_uint 64) s

-- The decimal digits of a number are read back as the number.
digits_loop-parse :
    (fuel n : ℕ) (acc : Text)
    → n < fuel
    → parse_digits 10 false 0 (digits_loop fuel n acc) ≡ parse_digits 10 false n acc
unfolding digits_loop parse_digits
digits_loop-parse zero n acc h = absurd (omega arith)
digits_loop-parse (suc fuel) n acc h =
    ground (arith, digits_loop-parse fuel (n / 10) ((b'0' + n % 10) ∷ acc))

parse_uint-bounded :
    (bits : ℕ) (s : Text)
    → s ≢ []
    → parse_uint bits s ≡ bounded (2 ^ bits) (parse_digits 10 false 0 s)
unfolding parse_uint
parse_uint-bounded bits [] h = absurd (h refl)
parse_uint-bounded bits (c ∷ cs) h = refl

-- `ParseUint` reads the digits of a number back where it is within the size, and fails where it is
-- not.
pub parse_uint-sprint :
    (bits n : ℕ) → parse_uint bits (sprint n) ≡ (if ltb n (2 ^ bits) then some n else none)
unfolding parse_uint sprint
parse_uint-sprint bits n =
    parse_uint-bounded bits (sprint n) (sprint-ne n)
    ∙ ap (bounded (2 ^ bits)) (unfold sprint in (digits_loop-parse (suc n) n [] (omega arith)))

bounded-lt : (limit : ℕ) (o : Option ℕ) (n : ℕ) → bounded limit o ≡ some n → n < limit
bounded-lt limit none n e = cc
bounded-lt limit (some m) n e = ground arith

pub parse_uint-lt : (bits : ℕ) (s : Text) (n : ℕ) → parse_uint bits s ≡ some n → n < 2 ^ bits
unfolding parse_uint
parse_uint-lt bits [] n e = cc
parse_uint-lt bits (c ∷ cs) n e =
    ground (arith, bounded-lt (2 ^ bits) (parse_digits 10 false 0 (c ∷ cs)) n e)

signed-lt : (neg : Bool) (o : Option ℕ) (n : ℕ) → signed neg o ≡ some n → n < modulus
signed-lt neg none n e = cc
signed-lt false (some m) n e = ground arith
signed-lt true (some m) n e = ground arith

-- An `int` is a 64-bit pattern.
pub parse_int-lt :
    (parse : Text → Option ℕ) (s : Text) (n : ℕ) → parse_int parse s ≡ some n → n < modulus
parse_int-lt parse [] n e = cc
parse_int-lt parse (c ∷ cs) n e = ground (
  arith,
  signed-lt true (parse cs) n,
  signed-lt false (parse cs) n,
  signed-lt false (parse (c ∷ cs)) n,
)

-- A row of digits has no sign.
parse_int-digits :
    (parse : Text → Option ℕ) (s : Text) (n : ℕ)
    → parse_digits 10 false 0 s ≡ some n
    → s ≢ []
    → parse_int parse s ≡ signed false (parse s)
unfolding parse_digits digit_value
parse_int-digits parse [] n e h = absurd (h refl)
parse_int-digits parse (c ∷ cs) n e h = ground arith

-- `Atoi` reads the digits of a number back where it is an `int`, and fails where it is too large.
pub atoi-sprint : (n : ℕ) → atoi (sprint n) ≡ (if ltb n sign then some n else none)
unfolding atoi
atoi-sprint n =
    let digits : parse_digits 10 false 0 (sprint n) ≡ some n =
      unfold sprint in (digits_loop-parse (suc n) n [] (omega arith)) in
    parse_int-digits (parse_uint 64) (sprint n) n digits (sprint-ne n)
    ∙ ap (signed false) (parse_uint-sprint 64 n)
    ∙ ground arith
