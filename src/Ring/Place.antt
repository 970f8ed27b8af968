-- ===== src/Ring/Place.antt =====
-- `sort_into`, with its binary search and its copying, is the insertion `place` on a sorted ring.
use qa_d.Base.{
  ℕ, zero, suc, ◌-◌, ◌≤◌, ◌≡◌, refl, sym, ap, some, ◌∙◌, List, [], ◌∷◌, ◌++◌, ltb, leb,
  if◌then◌else◌, length, get_elem?, get_elem?-append, get_elem?-lt, length-append, take, drop, All,
  ok, at, search, search-eq-ok, shift_set, arith,
}
use qa_d.Ring.{VirtualNode, zero_node, exceeds, sort_into}
use qa_d.Ring.Spec.{IsSorted, place}

-- How many virtual nodes at the front have a hash up to the given one.
unfoldable pub count_le : ℕ → List VirtualNode → ℕ
count_le h [] = 0
count_le h (x ∷ xs) = if leb x.hash h then suc (count_le h xs) else 0

pub count_le-le : (h : ℕ) (xs : List VirtualNode) → count_le h xs ≤ length xs
unfolding count_le
count_le-le h [] = omega arith
count_le-le h (x ∷ xs) = ground (arith, count_le-le h xs)

hash_above :
    (h : ℕ) (xs : List VirtualNode) (k : ℕ) {v : VirtualNode}
    → All (λ u. h ≤ u.hash) xs
    → get_elem? xs k ≡ some v
    → h ≤ v.hash
hash_above h [] k a e = cc
hash_above h (x ∷ xs) zero a e = ground arith
hash_above h (x ∷ xs) (suc k) a e = hash_above h xs k a.1 e

exceeds-count_le :
    (h : ℕ) (xs : List VirtualNode) (k : ℕ) {v : VirtualNode}
    → IsSorted xs
    → get_elem? xs k ≡ some v
    → ltb h v.hash ≡ leb (count_le h xs) k
unfolding count_le
exceeds-count_le h [] k s e = cc
exceeds-count_le h (x ∷ xs) zero s e = ground arith
exceeds-count_le h (x ∷ xs) (suc k) s e =
    ground (arith, exceeds-count_le h xs k s.1 e, hash_above x.hash xs k s.0 e)

place-take-drop :
    (v : VirtualNode) (xs : List VirtualNode)
    → place v xs ≡ take (count_le v.hash xs) xs ++ v ∷ drop (count_le v.hash xs) xs
unfolding place count_le
place-take-drop v [] = refl
place-take-drop v (x ∷ xs) = ground (arith, place-take-drop v xs)

-- What the search of a sorted ring finds, where the closure reads it or a longer slice.
pub search-count_le :
    (h : ℕ) (xs ys : List VirtualNode)
    → IsSorted xs
    → search (length xs) (exceeds (xs ++ ys) h) ≡ ok (count_le h xs)
unfolding at
search-count_le h xs ys s =
    search-eq-ok (length xs) (count_le h xs) (exceeds (xs ++ ys) h)
      (λ k lt.
        let (v, e) = get_elem?-lt xs k lt in
        rw (at, get_elem?-append xs ys k lt, e) (ap ok (exceeds-count_le h xs k s e)))
      (count_le-le h xs)

-- On a sorted ring `sort_into` does not panic, and inserts behind every hash up to the new one.
pub sort_into-place :
    (xs : List VirtualNode) (v : VirtualNode) → IsSorted xs → sort_into xs v ≡ ok (place v xs)
unfolding sort_into
sort_into-place xs v s =
    let len : length (xs ++ zero_node ∷ []) - 1 ≡ length xs =
      omega (arith, length-append xs (zero_node ∷ [])) in
    rw (len, search-count_le v.hash xs (zero_node ∷ []) s)
      (shift_set xs zero_node v (count_le v.hash xs) (count_le-le v.hash xs)
        ∙ ap ok (sym (place-take-drop v xs)))
