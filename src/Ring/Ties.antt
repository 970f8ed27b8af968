-- ===== src/Ring/Ties.antt =====
-- Equal hashes. A virtual node goes behind those with its hash, so the node that joined last owns
-- the hash; and `name + fmt.Sprint(i)` is the same string for different names, such as "node-11"
-- with 5 and "node-1" with 15. With no hash in common the order of joining does not matter.
use qa_d.Base.{
  ℕ, zero, suc, ◌+◌, ◌<◌, ◌≡◌, refl, ◌∙◌, sym, ap, ap₂, subst, Bool, List, [], ◌∷◌, ◌++◌, leb, All,
  ok, arith, inl, inr, ◌≢◌, Text, some,
}
use native.Mathlib.Nat.{add-zero, zero-add, add-suc, suc-add}
use qa_d.Base.Decimal.{sprint}
use qa_d.Ring.{VirtualNode, ConsistentHashRing, virtual_node, add_node, node_of_direct, node_in}
use qa_d.Ring.Spec.{IsSorted, place, last_with, pick}
use qa_d.Ring.Lookup.{above-none, node_of_direct-pick}
use qa_d.Ring.Join.{place_all, points, join, place-IsSorted}
use qa_d.Ring.Valid.{IsValid}
use qa_d.Ring.Calls.{add_node-inverse, add_node-IsValid}
use qa_d.Ring.Rebalance.{last_with-place, points-name}

abbrev up_to : ℕ → VirtualNode → Bool
up_to h v = leb v.hash h

last_with-place_self :
    (v : VirtualNode) (xs : List VirtualNode)
    → IsSorted xs
    → last_with (up_to v.hash) (place v xs) ≡ some v
unfolding last_with place
last_with-place_self v [] s = ground arith
last_with-place_self v (x ∷ xs) s =
    ground (arith, last_with-place_self v xs s.1, above-none v.hash x xs s.0)

-- The nearest virtual node below a hash carries a name.
abbrev NearestIs : ℕ → Text → List VirtualNode → Type 0
NearestIs h name xs = (w : VirtualNode) × (last_with (up_to h) xs ≡ some w) × (w.name ≡ name)

NearestIs-place_all :
    (h : ℕ) (name : Text) (vs xs : List VirtualNode)
    → All (λ v. v.name ≡ name) vs
    → NearestIs h name xs
    → NearestIs h name (place_all vs xs)
unfolding place_all
NearestIs-place_all h name [] xs a n = n
NearestIs-place_all h name (v ∷ vs) xs a (w, e, named) =
    NearestIs-place_all h name vs (place v xs) a.1 (elim (last_with-place (up_to h) v xs) [
      | inl kept ↦ (w, kept ∙ e, named)
      | inr taken ↦ (v, taken, a.0)
    ])

place_comm :
    (u v : VirtualNode) (xs : List VirtualNode)
    → u.hash ≢ v.hash
    → place u (place v xs) ≡ place v (place u xs)
unfolding place
place_comm u v [] h = ground arith
place_comm u v (x ∷ xs) h = ground (arith, place_comm u v xs h)

-- No virtual node of a row has the hash.
abbrev Avoids : List VirtualNode → VirtualNode → Type 0
Avoids us v = All (λ u. u.hash ≢ v.hash) us

place_all-place :
    (us : List VirtualNode) (v : VirtualNode) (xs : List VirtualNode)
    → Avoids us v
    → place_all us (place v xs) ≡ place v (place_all us xs)
unfolding place_all
place_all-place [] v xs a = refl
place_all-place (u ∷ us) v xs a =
    ap (place_all us) (place_comm u v xs a.0) ∙ place_all-place us v (place u xs) a.1

place_all_comm :
    (us vs xs : List VirtualNode)
    → All (Avoids us) vs
    → place_all us (place_all vs xs) ≡ place_all vs (place_all us xs)
unfolding place_all
place_all_comm us [] xs a = refl
place_all_comm us (v ∷ vs) xs a =
    place_all_comm us vs (place v xs) a.1 ∙ ap (place_all vs) (place_all-place us v xs a.0)

module _ (sum64 : Text → ℕ) where
  points-All_below :
      (P : VirtualNode → Type 0) (name : Text) (k i : ℕ)
      → ((j : ℕ) → j < i + k → P (virtual_node sum64 name j))
      → All P (points sum64 k i name)
  unfolding points
  points-All_below P name zero i f = tt
  points-All_below P name (suc k) i f =
      (f i (omega arith), points-All_below P name k (suc i) (λ j h. f j (omega arith)))

  points-Avoids :
      (a b : Text) (k : ℕ)
      → ((i j : ℕ) → i < k → j < k → sum64 (a ++ sprint i) ≢ sum64 (b ++ sprint j))
      → All (Avoids (points sum64 k 0 b)) (points sum64 k 0 a)
  unfolding virtual_node
  points-Avoids a b k apart = points-All_below (Avoids (points sum64 k 0 b)) a k 0 (λ i hi.
      points-All_below (λ u. u.hash ≢ sum64 (a ++ sprint i)) b k 0
        (λ j hj e. apart i j (omega arith) (omega arith) (sym e)))

  join_twice :
      (c c₁ c₂ : ConsistentHashRing) (a b : Text)
      → IsValid sum64 c
      → add_node sum64 c a ≡ ok c₁
      → add_node sum64 c₁ b ≡ ok c₂
      → (c₁.virtual_nodes ≡ c.virtual_nodes)
        × (c₂.ring
            ≡ place_all
                (points sum64 c.virtual_nodes 0 b)
                (place_all (points sum64 c.virtual_nodes 0 a) c.ring))
  unfolding join
  join_twice c c₁ c₂ a b valid e₁ e₂ =
      let same₁ = (add_node-inverse sum64 c a valid e₁).1 in
      let valid₁ = add_node-IsValid sum64 c a valid e₁ in
      let same₂ = (add_node-inverse sum64 c₁ b valid₁ e₂).1 in
      let count = sym (ap (λ d. d.virtual_nodes) same₁) in
      let ring₁ = sym (ap (λ d. d.ring) same₁) in
      (
        count,
        sym (ap (λ d. d.ring) same₂) ∙ ap₂ (λ k r. place_all (points sum64 k 0 b) r) count ring₁,
      )

  NearestIs-points :
      (k j i : ℕ) (name : Text) (xs : List VirtualNode)
      → IsSorted xs
      → i < k
      → NearestIs (sum64 (name ++ sprint (j + i))) name (place_all (points sum64 k j name) xs)
  unfolding place_all points virtual_node
  NearestIs-points zero j i name xs s h = absurd (omega arith)
  NearestIs-points (suc k) j zero name xs s h =
      let v = virtual_node sum64 name j in
      rw add-zero (
        NearestIs-place_all v.hash name (points sum64 k (suc j) name) (place v xs)
          (points-name sum64 k (suc j) name) (v, last_with-place_self v xs s, refl))
  NearestIs-points (suc k) j (suc i) name xs s h =
      let v = virtual_node sum64 name j in
      rw (add-suc, ← suc-add)
        (NearestIs-points k (suc j) i name (place v xs) (place-IsSorted v xs s) (omega arith))

  -- After a node joins a valid ring, it owns the hash of each of its virtual nodes, whoever had it
  -- before.
  pub add_node-owns :
      (c : ConsistentHashRing) (name : Text) (i : ℕ) {c' : ConsistentHashRing}
      → IsValid sum64 c
      → add_node sum64 c name ≡ ok c'
      → i < c.virtual_nodes
      → node_of_direct c' (sum64 (name ++ sprint i)) ≡ ok name
  unfolding join pick
  add_node-owns c name i {c'} valid e h =
      let (fresh, same) = add_node-inverse sum64 c name valid e in
      let hash = sum64 (name ++ sprint i) in
      let after = node_of_direct-pick c' hash (add_node-IsValid sum64 c name valid e).sorted in
      let ring : place_all (points sum64 c.virtual_nodes 0 name) c.ring ≡ c'.ring =
        ap (λ d. d.ring) same in
      let (w, found, named) =
        subst (λ k. NearestIs (sum64 (name ++ sprint k)) name c'.ring) (zero-add i)
          (rw ring at (NearestIs-points c.virtual_nodes 0 i name c.ring valid.sorted h)) in
      after ∙ ap ok (rw found named)

  -- On a valid ring, where two names have a virtual node in common, `name + fmt.Sprint(i)` being
  -- one string, two rings that saw the two nodes join in different orders disagree on the owner of
  -- its hash.
  pub owners_disagree :
      (c a_first a_then_b b_first b_then_a : ConsistentHashRing) (a b : Text) (i j : ℕ)
      → IsValid sum64 c
      → add_node sum64 c a ≡ ok a_first
      → add_node sum64 a_first b ≡ ok a_then_b
      → add_node sum64 c b ≡ ok b_first
      → add_node sum64 b_first a ≡ ok b_then_a
      → i < c.virtual_nodes
      → j < c.virtual_nodes
      → a ++ sprint i ≡ b ++ sprint j
      → (node_of_direct a_then_b (sum64 (a ++ sprint i)) ≡ ok b)
        × (node_of_direct b_then_a (sum64 (a ++ sprint i)) ≡ ok a)
  owners_disagree c ca cab cb cba a b i j valid ea eab eb eba hi hj same =
      let na = (join_twice c ca cab a b valid ea eab).0 in
      let nb = (join_twice c cb cba b a valid eb eba).0 in
      let va = add_node-IsValid sum64 c a valid ea in
      let vb = add_node-IsValid sum64 c b valid eb in
      (rw same (add_node-owns ca b j va eab (rw na hj)), add_node-owns cb a i vb eba (rw nb hi))

  -- Where no hash of the one is a hash of the other, the two orders of joining a valid ring give
  -- the same virtual nodes in the same order, so that every hash has the same owner.
  pub owners_agree :
      (c a_first a_then_b b_first b_then_a : ConsistentHashRing) (a b : Text)
      → IsValid sum64 c
      → add_node sum64 c a ≡ ok a_first
      → add_node sum64 a_first b ≡ ok a_then_b
      → add_node sum64 c b ≡ ok b_first
      → add_node sum64 b_first a ≡ ok b_then_a
      → ((i j : ℕ)
          → i < c.virtual_nodes
          → j < c.virtual_nodes
          → sum64 (a ++ sprint i) ≢ sum64 (b ++ sprint j))
      → (a_then_b.ring ≡ b_then_a.ring)
        × ((h : ℕ) → node_of_direct a_then_b h ≡ node_of_direct b_then_a h)
  unfolding node_of_direct
  owners_agree c ca cab cb cba a b valid ea eab eb eba apart =
      let rab = (join_twice c ca cab a b valid ea eab).1 in
      let rba = (join_twice c cb cba b a valid eb eba).1 in
      let pa = points sum64 c.virtual_nodes 0 a in
      let pb = points sum64 c.virtual_nodes 0 b in
      let ring =
        rab ∙ place_all_comm pb pa c.ring (points-Avoids a b c.virtual_nodes apart) ∙ sym rba in
      (ring, λ h. ap (λ r. node_in r h) ring)
