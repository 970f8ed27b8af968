-- ===== src/Ring/Valid.antt =====
-- The invariant of the ring, and that joining and leaving keep it (consistent_hash_ring/index.go).
use qa_d.Base.{
  ℕ, zero, suc, ◌+◌, ◌≡◌, refl, Bool, true, false, not, List, [], ◌∷◌, ◌++◌, if◌then◌else◌, All,
  All-imp, arith, Text, text_eq, text_eq_iff, contains_text, keep_if, keep_if-All, keep_if-passes,
  Distinct, Distinct-append, Distinct-without, contains_text-append, contains_text-without,
}
use qa_d.Base.Decimal.{sprint}
use qa_d.Ring.{VirtualNode, ConsistentHashRing, virtual_node}
use qa_d.Ring.Spec.{IsSorted, place}
use qa_d.Ring.Join.{
  place_all, points, join, leave, place_all-IsSorted, place_all-All, keep_if-IsSorted,
}

-- How many virtual nodes carry a name.
unfoldable pub count_of : Text → List VirtualNode → ℕ
count_of n [] = 0
count_of n (v ∷ vs) = if text_eq v.name n then suc (count_of n vs) else count_of n vs

pub record IsValid (sum64 : Text → ℕ) (c : ConsistentHashRing) : Type 0 where
  pub sorted : IsSorted c.ring
  pub hashed : All (λ v. v.hash ≡ sum64 (v.name ++ sprint v.index)) c.ring
  pub known : All (λ v. contains_text c.nodes v.name ≡ true) c.ring
  pub counted :
      (n : Text) → count_of n c.ring ≡ (if contains_text c.nodes n then c.virtual_nodes else 0)
  pub distinct : Distinct c.nodes

count_of-place :
    (n : Text) (v : VirtualNode) (xs : List VirtualNode)
    → count_of n (place v xs) ≡ (if text_eq v.name n then suc (count_of n xs) else count_of n xs)
unfolding count_of place
count_of-place n v [] = refl
count_of-place n v (x ∷ xs) = ground (arith, count_of-place n v xs)

count_of-keep_if :
    (n name : Text) (xs : List VirtualNode)
    → count_of n (keep_if (λ v. not (text_eq v.name name)) xs)
      ≡ (if text_eq name n then 0 else count_of n xs)
unfolding count_of
count_of-keep_if n name [] = ground arith
count_of-keep_if n name (x ∷ xs) = ground (
  arith,
  count_of-keep_if n name xs,
  text_eq_iff x.name name,
  text_eq_iff x.name n,
  text_eq_iff name n,
)

module _ (sum64 : Text → ℕ) where
  count_of-points :
      (n : Text) (k i : ℕ) (name : Text) (xs : List VirtualNode)
      → count_of n (place_all (points sum64 k i name) xs)
        ≡ (if text_eq name n then k + count_of n xs else count_of n xs)
  unfolding points place_all virtual_node
  count_of-points n zero i name xs = ground arith
  count_of-points n (suc k) i name xs =
      let v = virtual_node sum64 name i in
      ground (arith, count_of-points n k (suc i) name (place v xs), count_of-place n v xs)

  pub points-All :
      (P : VirtualNode → Type 0) (name : Text)
      → ((i : ℕ) → P (virtual_node sum64 name i))
      → (k i : ℕ) → All P (points sum64 k i name)
  unfolding points
  points-All P name f zero i = tt
  points-All P name f (suc k) i = (f i, points-All P name f k (suc i))

  pub join-IsValid :
      (c : ConsistentHashRing) (name : Text)
      → IsValid sum64 c
      → contains_text c.nodes name ≡ false
      → IsValid sum64 (join sum64 c name)
  unfolding join virtual_node contains_text
  join-IsValid c name v fresh =
      let vs = points sum64 c.virtual_nodes 0 name in
      record {
        sorted = place_all-IsSorted vs c.ring v.sorted;
        hashed =
            place_all-All (λ u. u.hash ≡ sum64 (u.name ++ sprint u.index)) vs c.ring
              (points-All _ name (λ i. refl) c.virtual_nodes 0) v.hashed;
        known =
            place_all-All (λ u. contains_text (c.nodes ++ name ∷ []) u.name ≡ true) vs c.ring
              (points-All _ name
                (λ i.
                  ground
                    (arith, contains_text-append c.nodes (name ∷ []) name, text_eq_iff name name))
                c.virtual_nodes 0)
              (All-imp (λ u t. ground (arith, contains_text-append c.nodes (name ∷ []) u.name))
                c.ring v.known);
        counted = λ n. ground (
          arith,
          count_of-points n c.virtual_nodes 0 name c.ring,
          v.counted n,
          contains_text-append c.nodes (name ∷ []) n,
          text_eq_iff name n,
        );
        distinct = Distinct-append c.nodes name v.distinct fresh;
      }

  pub leave-IsValid :
      (c : ConsistentHashRing) (name : Text) → IsValid sum64 c → IsValid sum64 (leave c name)
  unfolding leave
  leave-IsValid c name v =
      let p : VirtualNode → Bool = λ u. not (text_eq u.name name) in
      record {
        sorted = keep_if-IsSorted p c.ring v.sorted;
        hashed = keep_if-All _ p c.ring v.hashed;
        known =
            All-imp
              (λ u (t : (contains_text c.nodes u.name ≡ true) × (p u ≡ true)). ground (
                arith,
                contains_text-without name u.name c.nodes,
                text_eq_iff u.name name,
                text_eq_iff name u.name,
              ))
              (keep_if p c.ring) (keep_if-passes _ p c.ring v.known);
        counted = λ n. ground (
          arith,
          count_of-keep_if n name c.ring,
          v.counted n,
          contains_text-without name n c.nodes,
        );
        distinct = Distinct-without name c.nodes v.distinct;
      }
