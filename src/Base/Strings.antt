-- ===== src/Base/Strings.antt =====
-- Go strings: sequences of bytes, with `==`, prefixes and suffixes, and `slices.Contains`.
use Prim.Native.Char.{code}
use Prim.Native.Nat.{ℕ, ◌-◌}
use Prim.Native.String.{String}
use mathlib.Core.Path.{◌≡◌, refl}
use mathlib.Core.Logic.{◌≢◌, ◌↔◌, inl, inr}
use mathlib.Core.Bool.{Bool, true, false, not, ◌&&◌, ◌||◌}
use mathlib.Core.List.{List, [], ◌∷◌, ◌++◌}
use native.Mathlib.Omega.{arith}
use qa_d.Base.Tests.{◌==◌, ==_iff, Bool-cases, if◌then◌else◌}
use qa_d.Base.Lists.{keep_if, length, take, drop, take-append, drop-append, length-append}

abbrev pub Text : Type 0
Text = List ℕ

-- The bytes of a literal in ASCII.
abbrev pub codes : String → Text
codes String.[] = []
codes (String.◌∷◌ c s) = code c ∷ codes s

unfoldable pub text_eq : Text → Text → Bool
text_eq [] [] = true
text_eq [] (y ∷ ys) = false
text_eq (x ∷ xs) [] = false
text_eq (x ∷ xs) (y ∷ ys) = x == y && text_eq xs ys

pub text_eq_iff : (s t : Text) → (text_eq s t ≡ true) ↔ (s ≡ t)
unfolding text_eq
text_eq_iff [] [] = (λ _. refl, λ _. refl)
text_eq_iff [] (y ∷ ys) = (λ h. cc, λ h. cc)
text_eq_iff (x ∷ xs) [] = (λ h. cc, λ h. cc)
text_eq_iff (x ∷ xs) (y ∷ ys) = ground (arith, text_eq_iff xs ys, ==_iff x y)

pub text_eq_refl : (s : Text) → text_eq s s ≡ true
text_eq_refl s = (text_eq_iff s s).1 refl

pub text_eq-false : (s t : Text) → s ≢ t → text_eq s t ≡ false
text_eq-false s t h = ground (arith, text_eq_iff s t)

unfoldable pub has_prefix : Text → Text → Bool
has_prefix s [] = true
has_prefix [] (y ∷ ys) = false
has_prefix (x ∷ xs) (y ∷ ys) = x == y && has_prefix xs ys

-- `strings.TrimPrefix`
unfoldable pub trim_prefix : Text → Text → Text
trim_prefix s prefix = if has_prefix s prefix then drop (length prefix) s else s

pub has_prefix-append : (s t : Text) → has_prefix (s ++ t) s ≡ true
unfolding has_prefix
has_prefix-append [] t = refl
has_prefix-append (x ∷ xs) t = ground (arith, has_prefix-append xs t)

pub trim_prefix-append : (s t : Text) → trim_prefix (s ++ t) s ≡ t
unfolding trim_prefix
trim_prefix-append s t = rw (has_prefix-append s t) (drop-append s t)

-- A string with a prefix is the prefix and what is left when it is taken off.
pub has_prefix-trim_prefix : (s t : Text) → has_prefix s t ≡ true → s ≡ t ++ trim_prefix s t
unfolding has_prefix trim_prefix
has_prefix-trim_prefix s [] h = refl
has_prefix-trim_prefix [] (y ∷ ys) h = cc
has_prefix-trim_prefix (x ∷ xs) (y ∷ ys) h =
    ground (arith, has_prefix-trim_prefix xs ys, ==_iff x y)

-- `strings.HasSuffix`
unfoldable pub has_suffix : Text → Text → Bool
unfolding text_eq
has_suffix [] t = text_eq [] t
has_suffix (c ∷ cs) t = text_eq (c ∷ cs) t || has_suffix cs t

pub has_suffix-append : (s t : Text) → has_suffix (s ++ t) t ≡ true
unfolding has_suffix text_eq
has_suffix-append [] [] = refl
has_suffix-append [] (y ∷ ys) = ground (arith, text_eq_refl (y ∷ ys))
has_suffix-append (x ∷ xs) t = ground (arith, has_suffix-append xs t)

-- `strings.TrimSuffix`
unfoldable pub trim_suffix : Text → Text → Text
trim_suffix s suffix = if has_suffix s suffix then take (length s - length suffix) s else s

pub trim_suffix-append : (s t : Text) → trim_suffix (s ++ t) t ≡ s
unfolding trim_suffix
trim_suffix-append s t =
    let long : length (s ++ t) - length t ≡ length s = omega (arith, length-append s t) in
    rw (has_suffix-append s t, long) (take-append s t)

-- `slices.Contains` on a list of strings.
unfoldable pub contains_text : List Text → Text → Bool
contains_text [] t = false
contains_text (x ∷ xs) t = text_eq x t || contains_text xs t

-- Whether no string stands twice in a list.
abbrev pub Distinct : List Text → Type 0
Distinct [] = Unit
Distinct (x ∷ xs) = (contains_text xs x ≡ false) × Distinct xs

pub contains_text-append :
    (xs ys : List Text) (t : Text)
    → contains_text (xs ++ ys) t ≡ (contains_text xs t || contains_text ys t)
unfolding contains_text
contains_text-append [] ys t = refl
contains_text-append (x ∷ xs) ys t = ground (arith, contains_text-append xs ys t)

-- The list without a string.
abbrev pub without : Text → List Text → List Text
without t xs = keep_if (λ x. not (text_eq x t)) xs

pub contains_text-without :
    (t q : Text) (xs : List Text)
    → contains_text (without t xs) q ≡ (if text_eq t q then false else contains_text xs q)
unfolding contains_text
contains_text-without t q [] = ground arith
contains_text-without t q (x ∷ xs) =
    ground (arith, contains_text-without t q xs, text_eq_iff x t, text_eq_iff t q, text_eq_iff x q)

pub Distinct-append :
    (xs : List Text) (t : Text) → Distinct xs → contains_text xs t ≡ false → Distinct (xs ++ t ∷ [])
unfolding contains_text
Distinct-append [] t d h = (refl, tt)
Distinct-append (x ∷ xs) t d h = (
  ground (arith, contains_text-append xs (t ∷ []) x, text_eq_iff x t, text_eq_iff t x),
  Distinct-append xs t d.1 (ground arith),
)

pub Distinct-without : (t : Text) (xs : List Text) → Distinct xs → Distinct (without t xs)
Distinct-without t [] d = d
Distinct-without t (x ∷ xs) d = elim (Bool-cases (text_eq x t)) [
  | inl same ↦ rw same (Distinct-without t xs d.1)
  | inr other ↦ rw other (ground (arith, contains_text-without t x xs), Distinct-without t xs d.1)
]

-- A list without a string that it does not hold is the list.
pub without_absent : (t : Text) (xs : List Text) → contains_text xs t ≡ false → without t xs ≡ xs
unfolding contains_text
without_absent t [] h = refl
without_absent t (x ∷ xs) h = ground (arith, without_absent t xs)

pub without-append_self :
    (t : Text) (xs : List Text) → contains_text xs t ≡ false → without t (xs ++ t ∷ []) ≡ xs
unfolding contains_text
without-append_self t [] h = rw (text_eq_refl t)
without-append_self t (x ∷ xs) h = ground (arith, without-append_self t xs)

pub text_neq : (s t : Text) → text_eq s t ≡ false → s ≢ t
text_neq s t h e = cc (h, (text_eq_iff s t).1 e)
