-- ===== src/Base/Decimal.antt =====
-- `fmt.Sprint` on an `int` that is not negative: its decimal digits.
use Prim.Native.Nat.{ℕ, zero, suc, ◌+◌, ◌/◌, ◌%◌}
use mathlib.Core.Path.{◌≡◌, refl}
use mathlib.Core.Logic.{◌≢◌}
use mathlib.Core.List.{[], ◌∷◌}
use native.Mathlib.Omega.{arith}
use qa_d.Base.Strings.{Text, codes}
use qa_d.Base.Tests.{ltb, if◌then◌else◌}

-- One round per digit, the last digit first.
unfoldable pub digits_loop : ℕ → ℕ → Text → Text
digits_loop zero n acc = acc
digits_loop (suc fuel) n acc =
    let here = (b'0' + n % 10) ∷ acc in
    let rest = digits_loop fuel (n / 10) here in if ltb n 10 then here else rest

-- A number has at most as many digits as it counts, and one more.
unfoldable pub sprint : ℕ → Text
unfolding digits_loop
sprint n = digits_loop (suc n) n []

digits_loop-ne : (fuel n c : ℕ) (acc : Text) → digits_loop fuel n (c ∷ acc) ≢ []
unfolding digits_loop
digits_loop-ne zero n c acc e = cc
digits_loop-ne (suc fuel) n c acc e =
    ground (arith, digits_loop-ne fuel (n / 10) (b'0' + n % 10) (c ∷ acc))

pub sprint-ne : (n : ℕ) → sprint n ≢ []
unfolding sprint digits_loop
sprint-ne n e = ground (arith, digits_loop-ne n (n / 10) (b'0' + n % 10) [])

sprint_149 : sprint 149 ≡ codes "149"
unfolding sprint
sprint_149 = refl
