-- ===== src/Storage/Queue.antt =====
-- What the stores with a size limit promise: a queue of entries, the next to be evicted first.
pub mod Find
use qa_d.Base.{
  ℕ, zero, suc, ◌+◌, ◌≤◌, ◌<◌, ◌≡◌, refl, Bool-cases, true, false, List, [], ◌∷◌, Text, text_eq,
  if◌then◌else◌, ltb, ltb→lt, ltb→le, lt→ltb, drop, arith, inl, inr, none, some,
}
use qa_d.Base.Int64.{sign, modulus, gt_int, gt_int_small, gt_int_negative, max_zero}
use qa_d.Storage.{Slice, len, Held}

pub record Entry : Type 0 where
  pub key : Text
  pub hash : ℕ
  pub value : Slice

abbrev pub new_entry : Text → ℕ → Slice → Entry
new_entry key hash value = record { key = key; hash = hash; value = value }

abbrev pub size : List Entry → ℕ
size [] = 0
size (e ∷ q) = len e.value + size q

-- The entry of a key.
unfoldable pub find : Text → List Entry → Held
find k [] = none
find k (e ∷ q) = if text_eq e.key k then some (e.hash, e.value) else find k q

-- The queue without the first entry of a key.
unfoldable pub drop_key : Text → List Entry → List Entry
drop_key k [] = []
drop_key k (e ∷ q) = if text_eq e.key k then q else e ∷ drop_key k q

-- The eviction: entries go from the front while the rest is larger than the limit.
unfoldable pub trim : ℕ → List Entry → List Entry
trim max [] = []
trim max (e ∷ q) = let rest = trim max q in if gt_int (size (e ∷ q)) max then rest else e ∷ q

-- `kept` is the queue without its first `count` entries. It fits, and no longer rest of the queue
-- fits; a negative limit keeps nothing.
pub record Evicts (max : ℕ) (q kept : List Entry) : Type 0 where
  pub count : ℕ
  pub suffix : kept ≡ drop count q
  pub fits : size kept ≤ max_zero max
  pub needed : (m : ℕ) → m < count → max < sign → max < size (drop m q)
  pub negative : sign ≤ max → kept ≡ []

pub gt_int→lt : (n max : ℕ) → n < sign → max < modulus → gt_int n max ≡ true → max < sign → max < n
gt_int→lt n max h k t s = ground (arith, gt_int_small n max h s)

pub gt_int_fits :
    (n max : ℕ) → n < sign → max < modulus → gt_int n max ≡ false → (max < sign) × (n ≤ max)
gt_int_fits n max h k t = elim (Bool-cases (ltb max sign)) [
  | inl s ↦ let l = ltb→lt max sign s in (l, ground (arith, gt_int_small n max h l))
  | inr s ↦ absurd (ground (arith, gt_int_negative n max h (ltb→le max sign s) k))
]

pub trim-Evicts :
    (max : ℕ) (q : List Entry) → size q < sign → max < modulus → Evicts max q (trim max q)
unfolding trim max_zero
trim-Evicts max [] h k = record {
  count = 0;
  suffix = refl;
  fits = omega arith;
  needed = λ m l. elim l [ ];
  negative = λ _. refl;
}
trim-Evicts max (e ∷ q) h k = elim (Bool-cases (gt_int (size (e ∷ q)) max)) [
  | inl over ↦
      let r = trim-Evicts max q (omega arith) k in
      rw over (record {
        count = suc r.count;
        suffix = r.suffix;
        fits = r.fits;
        needed = elim [
          | zero ↦ λ _ s. gt_int→lt (size (e ∷ q)) max h k over s
          | suc m ↦ λ l s. r.needed m (omega arith) s
        ];
        negative = r.negative;
      })
  | inr fit ↦
      let (s, l) = gt_int_fits (size (e ∷ q)) max h k fit in
      rw fit (record {
        count = 0;
        suffix = refl;
        fits = ground (arith, lt→ltb max sign s);
        needed = λ m n. elim n [ ];
        negative = λ t. absurd (omega arith);
      })
]
