-- ===== src/Ring/Rebalance.antt =====
-- Consistent hashing: which keys change their node when a node joins or leaves.
use qa_d.Base.{
  ℕ, ◌≡◌, refl, ◌∙◌, ap, Bool, true, false, not, List, [], ◌∷◌, leb, All, All-imp, ok, arith, inl,
  inr, ◌⊎◌, ◌≢◌, Text, text_eq, text_eq_iff, contains_text, contains_text-append, keep_if,
  keep_if_unchanged, some, none, without-append_self, Option-cases, subst, ◌++◌,
}
use qa_d.Ring.{VirtualNode, ConsistentHashRing, virtual_node, add_node, remove_node, node_of_direct}
use qa_d.Ring.Spec.{place, last_with, pick}
use qa_d.Ring.Lookup.{node_name, node_of_direct-pick}
use qa_d.Ring.Join.{place_all, points, join, leave, remove_node-leave}
use qa_d.Ring.Valid.{IsValid, points-All}
use qa_d.Ring.Calls.{add_node-inverse, remove_node-inverse, add_node-IsValid, remove_node-IsValid}

pub last_with-place :
    (p : VirtualNode → Bool) (v : VirtualNode) (xs : List VirtualNode)
    → (last_with p (place v xs) ≡ last_with p xs) ⊎ (last_with p (place v xs) ≡ some v)
unfolding last_with place
last_with-place p v [] = ground arith
last_with-place p v (x ∷ xs) = ground (arith, last_with-place p v xs)

pick-place :
    (h : ℕ) (v : VirtualNode) (xs : List VirtualNode)
    → (pick h (place v xs) ≡ pick h xs) ⊎ (pick h (place v xs) ≡ some v)
unfolding pick
pick-place h v xs =
    ground (arith, last_with-place (λ u. leb u.hash h) v xs, last_with-place (λ _. true) v xs)

-- The name that a row of virtual nodes of one name can take over.
pick-place_all :
    (h : ℕ) (n : Text) (vs xs : List VirtualNode)
    → All (λ v. v.name ≡ n) vs
    → (pick h (place_all vs xs) ≡ pick h xs) ⊎ (node_name (pick h (place_all vs xs)) ≡ n)
unfolding place_all
pick-place_all h n [] xs a = inl refl
pick-place_all h n (v ∷ vs) xs a =
    ground (arith, pick-place h v xs, pick-place_all h n vs (place v xs) a.1)

last_with-keep_if-none :
    (p q : VirtualNode → Bool) (xs : List VirtualNode)
    → last_with p xs ≡ none
    → last_with p (keep_if q xs) ≡ none
unfolding last_with
last_with-keep_if-none p q [] e = refl
last_with-keep_if-none p q (x ∷ xs) e = ground (arith, last_with-keep_if-none p q xs)

last_with-keep_if :
    (p q : VirtualNode → Bool) (xs : List VirtualNode) (w : VirtualNode)
    → last_with p xs ≡ some w
    → q w ≡ true
    → last_with p (keep_if q xs) ≡ some w
unfolding last_with
last_with-keep_if p q [] w e t = cc
last_with-keep_if p q (x ∷ xs) w e t =
    ground (arith, last_with-keep_if p q xs w, last_with-keep_if-none p q xs)

pick-keep_if :
    (h : ℕ) (q : VirtualNode → Bool) (xs : List VirtualNode) (w : VirtualNode)
    → pick h xs ≡ some w
    → q w ≡ true
    → pick h (keep_if q xs) ≡ some w
unfolding pick
pick-keep_if h q xs w e t = ground (
  arith,
  last_with-keep_if (λ v. leb v.hash h) q xs w,
  last_with-keep_if-none (λ v. leb v.hash h) q xs,
  last_with-keep_if (λ _. true) q xs w,
)

keep_if-place :
    (q : VirtualNode → Bool) (v : VirtualNode) (xs : List VirtualNode)
    → q v ≡ false
    → keep_if q (place v xs) ≡ keep_if q xs
unfolding place
keep_if-place q v [] e = ground arith
keep_if-place q v (x ∷ xs) e = ground (arith, keep_if-place q v xs e)

keep_if-place_all :
    (q : VirtualNode → Bool) (vs xs : List VirtualNode)
    → All (λ v. q v ≡ false) vs
    → keep_if q (place_all vs xs) ≡ keep_if q xs
unfolding place_all
keep_if-place_all q [] xs a = refl
keep_if-place_all q (v ∷ vs) xs a =
    keep_if-place_all q vs (place v xs) a.1 ∙ keep_if-place q v xs a.0

pick-keep_if-none :
    (h : ℕ) (q : VirtualNode → Bool) (xs : List VirtualNode)
    → pick h xs ≡ none
    → pick h (keep_if q xs) ≡ none
unfolding pick
pick-keep_if-none h q xs e = ground (
  arith,
  last_with-keep_if-none (λ v. leb v.hash h) q xs,
  last_with-keep_if-none (λ _. true) q xs,
)

module _ (sum64 : Text → ℕ) where
  pub points-name : (k i : ℕ) (name : Text) → All (λ v. v.name ≡ name) (points sum64 k i name)
  unfolding virtual_node
  points-name k i name = points-All sum64 (λ v. v.name ≡ name) name (λ _. refl) k i

  leave-join :
      (c : ConsistentHashRing) (name : Text)
      → IsValid sum64 c
      → contains_text c.nodes name ≡ false
      → leave (join sum64 c name) name ≡ c
  unfolding leave join
  leave-join c name valid fresh =
      let vs = points sum64 c.virtual_nodes 0 name in
      let q : VirtualNode → Bool = λ v. not (text_eq v.name name) in
      let gone : All (λ v. q v ≡ false) vs =
        All-imp (λ v f. ground (arith, text_eq_iff v.name name)) vs
          (points-name c.virtual_nodes 0 name) in
      let stay : All (λ v. q v ≡ true) c.ring =
        All-imp (λ v f. ground (arith, text_eq_iff v.name name)) c.ring valid.known in
      let nodes = without-append_self name c.nodes fresh in
      let ring = keep_if-place_all q vs c.ring gone ∙ keep_if_unchanged q c.ring stay in
      λ i. record c { nodes = nodes i; ring = ring i }

module _ (sum64 : Text → ℕ) (c : ConsistentHashRing) (valid : IsValid sum64 c) where
  -- When a node joins a valid ring, every hash keeps its node or goes to the new one: no key moves
  -- between the nodes that were there.
  pub add_node-moves :
      (name : Text) (h : ℕ) {c' : ConsistentHashRing}
      → add_node sum64 c name ≡ ok c'
      → (node_of_direct c' h ≡ node_of_direct c h) ⊎ (node_of_direct c' h ≡ ok name)
  unfolding join
  add_node-moves name h {c'} e =
      let (fresh, same) = add_node-inverse sum64 c name valid e in
      let after = node_of_direct-pick c' h (add_node-IsValid sum64 c name valid e).sorted in
      let before = node_of_direct-pick c h valid.sorted in
      let vs = points sum64 c.virtual_nodes 0 name in
      let ring : place_all vs c.ring ≡ c'.ring = ap (λ d. d.ring) same in
      elim (pick-place_all h name vs c.ring (points-name sum64 c.virtual_nodes 0 name)) [
        | inl kept ↦ inl (cc (after, before, kept, ring))
        | inr taken ↦ inr (cc (after, taken, ring))
      ]

  -- When a node leaves a valid ring, only its own keys move: every other hash keeps its node.
  pub remove_node-moves :
      (name owner : Text) (h : ℕ) {c' : ConsistentHashRing}
      → remove_node c name ≡ ok c'
      → node_of_direct c h ≡ ok owner
      → owner ≢ name
      → node_of_direct c' h ≡ ok owner
  unfolding leave
  remove_node-moves name owner h {c'} e o other =
      let (known, same) = remove_node-inverse sum64 c name e in
      let after = node_of_direct-pick c' h (remove_node-IsValid sum64 c name valid e).sorted in
      let before = node_of_direct-pick c h valid.sorted in
      let q : VirtualNode → Bool = λ v. not (text_eq v.name name) in
      let ring : keep_if q c.ring ≡ c'.ring = ap (λ d. d.ring) same in
      elim (Option-cases (pick h c.ring)) [
        | inl empty ↦ cc (after, before, ring, o, empty, pick-keep_if-none h q c.ring empty)
        | inr (w, found) ↦
            let mine : w.name ≡ owner = cc (before, o, found) in
            let kept : q w ≡ true = ground (arith, text_eq_iff w.name name) in
            cc (after, ring, before, o, found, pick-keep_if h q c.ring w found kept)
      ]

  -- A node that joins a valid ring and leaves again leaves the ring as it was.
  pub remove_node-add_node :
      (name : Text) {c' : ConsistentHashRing}
      → add_node sum64 c name ≡ ok c'
      → remove_node c' name ≡ ok c
  unfolding join contains_text
  remove_node-add_node name {c'} e =
      let (fresh, same) = add_node-inverse sum64 c name valid e in
      let known : contains_text (c.nodes ++ name ∷ []) name ≡ true =
        ground (arith, contains_text-append c.nodes (name ∷ []) name, text_eq_iff name name) in
      subst (λ d. remove_node d name ≡ ok c) same
        (remove_node-leave (join sum64 c name) name known
          ∙ ap ok (leave-join sum64 c name valid fresh))
