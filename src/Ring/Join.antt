-- ===== src/Ring/Join.antt =====
-- `AddNode` and `RemoveNode` as functions on the ring, with the slices and the panics gone.
use qa_d.Base.{
  ℕ, zero, suc, ◌≤◌, ◌≡◌, refl, Bool, Bool-cases, true, false, not, List, [], ◌∷◌, ◌++◌, leb, All,
  All-imp, ok, arith, inl, inr, Text, text_eq, contains_text, keep_if, keep_if-All,
}
use qa_d.Ring.{
  VirtualNode, ConsistentHashRing, virtual_node, add_virtual_nodes, add_node, remove_node,
}
use qa_d.Ring.Spec.{IsSorted, place}
use qa_d.Ring.Place.{sort_into-place}

pub place-All :
    (P : VirtualNode → Type 0) (v : VirtualNode) (xs : List VirtualNode)
    → P v
    → All P xs
    → All P (place v xs)
unfolding place
place-All P v [] p a = (p, tt)
place-All P v (x ∷ xs) p a = elim (Bool-cases (leb x.hash v.hash)) [
  | inl le ↦ rw le (a.0, place-All P v xs p a.1)
  | inr gt ↦ rw gt (p, a)
]

pub place-IsSorted : (v : VirtualNode) (xs : List VirtualNode) → IsSorted xs → IsSorted (place v xs)
unfolding place
place-IsSorted v [] s = (tt, tt)
place-IsSorted v (x ∷ xs) s = elim (Bool-cases (leb x.hash v.hash)) [
  | inl le ↦
      rw le (place-All (λ u. x.hash ≤ u.hash) v xs (ground arith) s.0, place-IsSorted v xs s.1)
  | inr gt ↦
      let here : v.hash ≤ x.hash = ground arith in
      rw gt ((here, All-imp (λ u f. omega arith) xs s.0), s)
]

pub keep_if-IsSorted :
    (p : VirtualNode → Bool) (xs : List VirtualNode) → IsSorted xs → IsSorted (keep_if p xs)
keep_if-IsSorted p [] s = s
keep_if-IsSorted p (x ∷ xs) s = elim (Bool-cases (p x)) [
  | inl kept ↦ rw kept (keep_if-All (λ u. x.hash ≤ u.hash) p xs s.0, keep_if-IsSorted p xs s.1)
  | inr dropped ↦ rw dropped (keep_if-IsSorted p xs s.1)
]

unfoldable pub place_all : List VirtualNode → List VirtualNode → List VirtualNode
place_all [] ring = ring
place_all (v ∷ vs) ring = place_all vs (place v ring)

pub place_all-IsSorted : (vs xs : List VirtualNode) → IsSorted xs → IsSorted (place_all vs xs)
unfolding place_all
place_all-IsSorted [] xs s = s
place_all-IsSorted (v ∷ vs) xs s = place_all-IsSorted vs (place v xs) (place-IsSorted v xs s)

pub place_all-All :
    (P : VirtualNode → Type 0) (vs xs : List VirtualNode)
    → All P vs
    → All P xs
    → All P (place_all vs xs)
unfolding place_all
place_all-All P [] xs p a = a
place_all-All P (v ∷ vs) xs p a = place_all-All P vs (place v xs) p.1 (place-All P v xs p.0 a)

module _ (sum64 : Text → ℕ) where
  -- The virtual nodes of a name, from an index on.
  unfoldable pub points : ℕ → ℕ → Text → List VirtualNode
  points zero i name = []
  points (suc n) i name = virtual_node sum64 name i ∷ points n (suc i) name

  unfoldable pub join : ConsistentHashRing → Text → ConsistentHashRing
  join c name = record c {
    nodes = c.nodes ++ name ∷ [];
    ring = place_all (points c.virtual_nodes 0 name) c.ring;
  }

  add_virtual_nodes-eq :
      (n i : ℕ) (c : ConsistentHashRing) (name : Text)
      → IsSorted c.ring
      → add_virtual_nodes sum64 n i c name
        ≡ ok (record c { ring = place_all (points n i name) c.ring })
  unfolding add_virtual_nodes place_all points
  add_virtual_nodes-eq zero i c name s = refl
  add_virtual_nodes-eq (suc n) i c name s =
      let v = virtual_node sum64 name i in
      rw (sort_into-place c.ring v s) (
        add_virtual_nodes-eq n (suc i) (record c { ring = place v c.ring }) name
          (place-IsSorted v c.ring s))

  -- `AddNode` of a new name on a sorted ring does not panic: it appends the name, and places its
  -- virtual nodes.
  pub add_node-join :
      (c : ConsistentHashRing) (name : Text)
      → IsSorted c.ring
      → contains_text c.nodes name ≡ false
      → add_node sum64 c name ≡ ok (join c name)
  unfolding add_node join
  add_node-join c name s fresh =
      rw fresh
        (add_virtual_nodes-eq c.virtual_nodes 0 (record c { nodes = c.nodes ++ name ∷ [] }) name s)

unfoldable pub leave : ConsistentHashRing → Text → ConsistentHashRing
leave c name = record c {
  nodes = keep_if (λ node. not (text_eq node name)) c.nodes;
  ring = keep_if (λ vn. not (text_eq vn.name name)) c.ring;
}

pub remove_node-leave :
    (c : ConsistentHashRing) (name : Text)
    → contains_text c.nodes name ≡ true
    → remove_node c name ≡ ok (leave c name)
unfolding remove_node leave
remove_node-leave c name known = rw known
