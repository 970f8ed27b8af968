-- ===== src/Ring/Lookup.antt =====
-- `node_of_direct`, with its binary search and its indices, returns the name that `pick` gives.
use qa_d.Base.{
  ℕ, zero, suc, ◌≤◌, ◌<◌, ◌≡◌, refl, true, List, [], ◌∷◌, leb, length, get_elem?, get_elem?-lt, All,
  ok, at, Option, none, some, Text, append-nil, arith,
}
use qa_d.Ring.{VirtualNode, ConsistentHashRing, name_before, node_in, node_of_direct}
use qa_d.Ring.Spec.{IsSorted, last_with, pick}
use qa_d.Ring.Place.{count_le, count_le-le, search-count_le}

-- The name that `NodeOfDirect` returns for a virtual node, or for none.
abbrev pub node_name : Option VirtualNode → Text
node_name none = []
node_name (some v) = v.name

pub above-none :
    (h : ℕ) (x : VirtualNode) (xs : List VirtualNode)
    → All (λ v. x.hash ≤ v.hash) xs
    → h < x.hash
    → last_with (λ v. leb v.hash h) xs ≡ none
unfolding last_with
above-none h x [] s e = refl
above-none h x (y ∷ ys) s e = ground (arith, above-none h x ys s.1 e)

count_le-none :
    (h : ℕ) (xs : List VirtualNode)
    → IsSorted xs
    → count_le h xs ≡ 0
    → last_with (λ v. leb v.hash h) xs ≡ none
unfolding last_with count_le
count_le-none h [] s e = refl
count_le-none h (x ∷ xs) s e = ground (arith, above-none h x xs s.0)

get_elem?-count_le :
    (h n : ℕ) (xs : List VirtualNode)
    → IsSorted xs
    → count_le h xs ≡ suc n
    → get_elem? xs n ≡ last_with (λ v. leb v.hash h) xs
unfolding last_with count_le
get_elem?-count_le h n [] s e = absurd (omega arith)
get_elem?-count_le h zero (x ∷ xs) s e = ground (arith, count_le-none h xs s.1)
get_elem?-count_le h (suc n) (x ∷ xs) s e =
    let c : count_le h xs ≡ suc n = ground arith in
    let (v, found) = get_elem?-lt xs n (omega (arith, count_le-le h xs)) in
    ground (arith, c, found, get_elem?-count_le h n xs s.1 c)

get_elem?-last :
    (x : VirtualNode) (xs : List VirtualNode)
    → get_elem? (x ∷ xs) (length xs) ≡ last_with (λ _. true) (x ∷ xs)
unfolding last_with
get_elem?-last x [] = refl
get_elem?-last x (y ∷ ys) = ground (arith, get_elem?-last y ys)

name_before-pick :
    (h i : ℕ) (x : VirtualNode) (xs : List VirtualNode)
    → IsSorted (x ∷ xs)
    → count_le h (x ∷ xs) ≡ i
    → name_before (x ∷ xs) i ≡ ok (node_name (pick h (x ∷ xs)))
unfolding name_before pick at
name_before-pick h zero x xs s e =
    let (v, found) = get_elem?-lt (x ∷ xs) (length xs) (omega arith) in
    ground (arith, count_le-none h (x ∷ xs) s e, get_elem?-last x xs, found)
name_before-pick h (suc i) x xs s e =
    let (v, found) = get_elem?-lt (x ∷ xs) i (omega (arith, count_le-le h (x ∷ xs))) in
    ground (arith, get_elem?-count_le h i (x ∷ xs) s e, found)

node_in-pick :
    (ring : List VirtualNode) (h : ℕ)
    → IsSorted ring
    → node_in ring h ≡ ok (node_name (pick h ring))
unfolding node_in pick last_with
node_in-pick [] h s = refl
node_in-pick (x ∷ xs) h s =
    let found = rw append-nil at (search-count_le h (x ∷ xs) [] s) in
    ground (arith, found, name_before-pick h (count_le h (x ∷ xs)) x xs s refl)

-- On a sorted ring `NodeOfDirect` does not panic: it returns the last virtual node in the order of
-- the ring whose hash is at most the given one, and the last of all where there is none.
pub node_of_direct-pick :
    (c : ConsistentHashRing) (h : ℕ)
    → IsSorted c.ring
    → node_of_direct c h ≡ ok (node_name (pick h c.ring))
unfolding node_of_direct
node_of_direct-pick c h s = node_in-pick c.ring h s
