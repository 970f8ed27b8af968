-- ===== src/Storage/Queue/Find.antt =====
-- What can be found in the queue after a write, a deletion and an eviction.
use qa_d.Base.{
  ℕ, ◌+◌, ◌≤◌, ◌<◌, ◌≡◌, refl, Bool-cases, false, List, [], ◌∷◌, ◌++◌, Text, text_eq, text_eq_iff,
  ◌⊎◌, if◌then◌else◌, arith, inl, inr, none, some,
}
use qa_d.Base.Int64.{sign, gt_int_small}
use qa_d.Storage.{len}
use qa_d.Storage.Queue.{Entry, size, find, drop_key, trim}

-- No key stands twice.
abbrev pub Keyed : List Entry → Type 0
Keyed [] = Unit
Keyed (e ∷ q) = (find e.key q ≡ none) × Keyed q

pub find-drop_key :
    (k j : Text) (q : List Entry)
    → Keyed q
    → find j (drop_key k q) ≡ (if text_eq k j then none else find j q)
unfolding find drop_key
find-drop_key k j [] d = ground arith
find-drop_key k j (e ∷ q) d =
    ground
      (arith, find-drop_key k j q d.1, text_eq_iff e.key k, text_eq_iff e.key j, text_eq_iff k j)

pub drop_key-Keyed : (k : Text) (q : List Entry) → Keyed q → Keyed (drop_key k q)
unfolding drop_key
drop_key-Keyed k [] d = tt
drop_key-Keyed k (e ∷ q) d = elim (Bool-cases (text_eq e.key k)) [
  | inl same ↦ rw same d.1
  | inr other ↦
      rw other
        (ground (arith, find-drop_key k e.key q d.1, text_eq_iff k e.key), drop_key-Keyed k q d.1)
]

pub find-append :
    (j : Text) (q : List Entry) (e : Entry)
    → find j q ≡ none
    → find j (q ++ e ∷ []) ≡ (if text_eq e.key j then some (e.hash, e.value) else none)
unfolding find
find-append j [] e a = refl
find-append j (x ∷ q) e a = ground (arith, find-append j q e)

pub find-append_ne :
    (j : Text) (q : List Entry) (e : Entry)
    → text_eq e.key j ≡ false
    → find j (q ++ e ∷ []) ≡ find j q
unfolding find
find-append_ne j [] e a = ground arith
find-append_ne j (x ∷ q) e a = ground (arith, find-append_ne j q e)

pub append-Keyed :
    (q : List Entry) (e : Entry) → Keyed q → find e.key q ≡ none → Keyed (q ++ e ∷ [])
unfolding find
append-Keyed [] e d a = (refl, tt)
append-Keyed (x ∷ q) e d a = (
  ground (arith, find-append_ne x.key q e, text_eq_iff x.key e.key, text_eq_iff e.key x.key),
  append-Keyed q e d.1 (ground arith),
)

-- An eviction takes whole entries away and changes none.
pub find-trim :
    (max : ℕ) (j : Text) (q : List Entry)
    → Keyed q
    → (find j (trim max q) ≡ none) ⊎ (find j (trim max q) ≡ find j q)
unfolding find trim
find-trim max j [] d = inl refl
find-trim max j (e ∷ q) d = ground (arith, find-trim max j q d.1, text_eq_iff e.key j)

-- The last entry stays if it fits alone.
pub find-trim_last :
    (max : ℕ) (q : List Entry) (e : Entry)
    → find e.key q ≡ none
    → size q + len e.value < sign
    → max < sign
    → len e.value ≤ max
    → find e.key (trim max (q ++ e ∷ [])) ≡ some (e.hash, e.value)
unfolding find trim
find-trim_last max [] e a s m fit =
    ground (arith, gt_int_small (len e.value + 0) max, text_eq_iff e.key e.key)
find-trim_last max (x ∷ q) e a s m fit =
    ground (arith, find-trim_last max q e, find-append e.key q e, text_eq_iff e.key e.key)

pub size-append : (q r : List Entry) → size (q ++ r) ≡ size q + size r
size-append [] r = omega arith
size-append (e ∷ q) r = omega (arith, size-append q r)

-- If the last entry does not fit alone, nothing stays.
pub trim_oversized :
    (max : ℕ) (q : List Entry) (e : Entry)
    → size q + len e.value < sign
    → max < len e.value
    → trim max (q ++ e ∷ []) ≡ []
unfolding trim
trim_oversized max [] e s over = ground (arith, gt_int_small (len e.value + 0) max)
trim_oversized max (x ∷ q) e s over = ground (
  arith,
  trim_oversized max q e,
  size-append q (e ∷ []),
  gt_int_small (size (x ∷ q ++ e ∷ [])) max,
)
