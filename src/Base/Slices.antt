-- ===== src/Base/Slices.antt =====
-- What the sources use of Go's slices and of its package `sort`: an index read or write that may
-- panic, `copy` inside one slice, `slices.DeleteFunc` (`keep_if`) and `sort.Search`.
use Prim.Native.Nat.{ℕ, zero, suc, ◌+◌, ◌-◌, ◌/◌, ◌≤◌, ◌<◌, min}
use mathlib.Core.Path.{◌≡◌, refl, ap, ◌∙◌}
use mathlib.Core.Bool.{Bool, true, false, ◌&&◌}
use mathlib.Core.List.{List, [], ◌∷◌, ◌++◌, append-nil}
use mathlib.Core.Option.{none, some}
use native.Mathlib.Numerals.{add-one}
use native.Mathlib.Omega.{arith}
use qa_d.Base.Lists.{length, get_elem?, set, take, drop, length-append, take-append}
use qa_d.Base.Panics.{Outcome, ok, panic, out_of_range, ◌>>=◌}
use qa_d.Base.Tests.{ltb, leb, if◌then◌else◌, lt→ltb}

module _ {ℓ} {A : Type ℓ} where
  -- `xs[i]`
  unfoldable pub at : List A → ℕ → Outcome A
  at xs i = elim (get_elem? xs i) [ none ↦ panic out_of_range | some x ↦ ok x ]

  -- `xs[i] = v`
  unfoldable pub set_at : List A → ℕ → A → Outcome (List A)
  set_at xs i v = if ltb i (length xs) then ok (set xs i v) else panic out_of_range

  -- `copy(xs[d:], xs[s:])`
  unfoldable pub copy_within : List A → ℕ → ℕ → Outcome (List A)
  copy_within xs d s =
      let n = min (length xs - d) (length xs - s) in
      if leb d (length xs) && leb s (length xs)
      then ok (take d xs ++ (take n (drop s xs) ++ drop (d + n) xs))
      else panic out_of_range

  drop_all : (n : ℕ) (xs : List A) → length xs ≤ n → drop n xs ≡ []
  drop_all zero [] h = refl
  drop_all zero (x ∷ xs) h = absurd (omega arith)
  drop_all (suc n) [] h = refl
  drop_all (suc n) (x ∷ xs) h = drop_all n xs (omega arith)

  shift_lem :
      (xs : List A) (z v : A) (i n : ℕ) (tail : List A)
      → i ≤ length xs
      → n ≡ length xs - i
      → tail ≡ []
      → set (take (suc i) (xs ++ z ∷ []) ++ (take n (drop i (xs ++ z ∷ [])) ++ tail)) i v
        ≡ take i xs ++ v ∷ drop i xs
  shift_lem [] z v zero n tail h e t = let e' : n ≡ 0 = omega arith in rw (e', t)
  shift_lem (x ∷ xs) z v zero n tail h e t =
      let e' : n ≡ suc (length xs) = omega arith in rw (e', t, take-append, append-nil)
  shift_lem [] z v (suc i) n tail h e t = absurd (omega arith)
  shift_lem (x ∷ xs) z v (suc i) n tail h e t =
      ap (◌∷◌ x) (shift_lem xs z v i n tail (omega arith) (omega arith) t)

  length-take : (n : ℕ) (xs : List A) → n ≤ length xs → length (take n xs) ≡ n
  length-take zero xs h = refl
  length-take (suc n) [] h = absurd (omega arith)
  length-take (suc n) (x ∷ xs) h = ap suc (length-take n xs (omega arith))

  set_at-eq-ok : (xs : List A) (i : ℕ) (v : A) → i < length xs → set_at xs i v ≡ ok (set xs i v)
  unfolding set_at
  set_at-eq-ok xs i v h = rw (lt→ltb i (length xs) h)

  copy_within-eq-ok :
      (xs : List A) (i : ℕ)
      → suc i ≤ length xs
      → copy_within xs (i + 1) i
        ≡ ok (
            take (suc i) xs
            ++ (take (length xs - suc i) (drop i xs) ++ drop (i + 1 + (length xs - suc i)) xs))
  unfolding copy_within
  copy_within-eq-ok xs i h =
      let e : min (length xs - suc i) (length xs - i) ≡ length xs - suc i = omega arith in
      let p : leb (suc i) (length xs) ≡ true = ground arith in
      let q : leb i (length xs) ≡ true = ground arith in rw (add-one, e, p, q)

  -- Shifting the tail of a slice that was grown by one element, and writing into the gap.
  pub shift_set :
      (xs : List A) (z v : A) (i : ℕ)
      → i ≤ length xs
      → (copy_within (xs ++ z ∷ []) (i + 1) i >>= (λ ys. set_at ys i v))
        ≡ ok (take i xs ++ v ∷ drop i xs)
  shift_set xs z v i h =
      let ys = xs ++ z ∷ [] in
      let n : length ys ≡ length xs + 1 = length-append xs (z ∷ []) in
      let head = length-take (suc i) ys (omega arith) in
      let tail = take (length ys - suc i) (drop i ys) ++ drop (i + 1 + (length ys - suc i)) ys in
      let long = length-append (take (suc i) ys) tail in
      rw (copy_within-eq-ok ys i (omega arith)) (
        set_at-eq-ok (take (suc i) ys ++ tail) i v (omega arith)
        ∙ ap ok (shift_lem xs z v i _ _ h (omega arith) (drop_all _ ys (omega arith))))

-- The loop of `sort.Search`: the smallest index in `[i, j)` at which `f` holds, or `j`. The
-- closure `f` reads a slice, so it may panic.
unfoldable pub search_loop : ℕ → (ℕ → Outcome Bool) → ℕ → ℕ → Outcome ℕ
search_loop zero f i j = ok i
search_loop (suc fuel) f i j = elim (ltb i j) [
  | false ↦ ok i
  | true ↦ elim (f ((i + j) / 2)) [
    | panic e ↦ panic e
    | ok true ↦ search_loop fuel f i ((i + j) / 2)
    | ok false ↦ search_loop fuel f ((i + j) / 2 + 1) j
  ]
]

-- `sort.Search(n, f)`. The width of the range falls in each round, so `n` rounds are enough.
unfoldable pub search : ℕ → (ℕ → Outcome Bool) → Outcome ℕ
unfolding search_loop
search n f = search_loop n f 0 n

search_loop-eq-ok :
    (fuel n r i j : ℕ) (f : ℕ → Outcome Bool)
    → ((k : ℕ) → k < n → f k ≡ ok (leb r k))
    → i ≤ r
    → r ≤ j
    → j ≤ n
    → j ≤ i + fuel
    → search_loop fuel f i j ≡ ok r
unfolding search_loop
search_loop-eq-ok zero n r i j f h a b c d = ap ok (omega arith)
search_loop-eq-ok (suc fuel) n r i j f h a b c d = ground (
  arith,
  h ((i + j) / 2),
  search_loop-eq-ok fuel n r i ((i + j) / 2) f h,
  search_loop-eq-ok fuel n r ((i + j) / 2 + 1) j f h,
)

-- If `f` turns from false to true at `r`, then that is what the search finds.
pub search-eq-ok :
    (n r : ℕ) (f : ℕ → Outcome Bool)
    → ((k : ℕ) → k < n → f k ≡ ok (leb r k))
    → r ≤ n
    → search n f ≡ ok r
unfolding search
search-eq-ok n r f h k = search_loop-eq-ok n n r 0 n f h (omega arith) k (omega arith) (omega arith)
