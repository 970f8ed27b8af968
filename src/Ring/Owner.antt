-- ===== src/Ring/Owner.antt =====
-- The contract of `NodeOfDirect`, said without the order of the ring: the owner of a hash is a
-- virtual node that is nearest below it, or one with the largest hash where none is below.
use qa_d.Base.{
  ℕ, ◌≤◌, ◌<◌, ◌≡◌, ◌≢◌, refl, Bool, true, false, List, [], ◌∷◌, leb, All, All-imp, sym, subst, ap,
  ◌∙◌, ok, none, some, arith, inl, inr, ◌⊎◌, Option-cases,
}
use qa_d.Ring.{VirtualNode, ConsistentHashRing, node_of_direct}
use qa_d.Ring.Spec.{IsSorted, last_with, pick}
use qa_d.Ring.Lookup.{node_name, node_of_direct-pick}

abbrev pub In : VirtualNode → List VirtualNode → Type 0
In v [] = ⊥
In v (x ∷ xs) = (v ≡ x) ⊎ In v xs

-- `v` has the largest hash among those up to `h`.
abbrev pub IsNearest : List VirtualNode → ℕ → VirtualNode → Type 0
IsNearest ring h v = (v.hash ≤ h) × All (λ u. u.hash ≤ h → u.hash ≤ v.hash) ring

-- No hash is up to `h`, and `v` has the largest of all.
abbrev pub IsWrapped : List VirtualNode → ℕ → VirtualNode → Type 0
IsWrapped ring h v = All (λ u. h < u.hash) ring × All (λ u. u.hash ≤ v.hash) ring

abbrev pub Owns : List VirtualNode → ℕ → VirtualNode → Type 0
Owns ring h v = In v ring × (IsNearest ring h v ⊎ IsWrapped ring h v)

pub All-In :
    (P : VirtualNode → Type 0) (xs : List VirtualNode) {v : VirtualNode} → All P xs → In v xs → P v
All-In P [] a i = elim i [ ]
All-In P (x ∷ xs) a (inl e) = subst P (sym e) a.0
All-In P (x ∷ xs) a (inr i) = All-In P xs a.1 i

module _ (p : VirtualNode → Bool) where
  pub last_with-In :
      (xs : List VirtualNode) {v : VirtualNode} → last_with p xs ≡ some v → In v xs × (p v ≡ true)
  unfolding last_with
  last_with-In [] e = cc
  last_with-In (x ∷ xs) {v} e = elim (Option-cases (last_with p xs)) [
    | inl absent ↦ ground (arith)
    | inr (w, found) ↦
        let e' : last_with p xs ≡ some v = ground arith in
        let (i, t) = last_with-In xs e' in (inr i, t)
  ]

  pub last_with-none : (xs : List VirtualNode) → last_with p xs ≡ none → All (λ u. p u ≡ false) xs
  unfolding last_with
  last_with-none [] e = tt
  last_with-none (x ∷ xs) e = elim (Option-cases (last_with p xs)) [
    | inl absent ↦ (ground arith, last_with-none xs absent)
    | inr (w, found) ↦ absurd (ground arith)
  ]

  -- In a sorted row nothing that passes the test has a larger hash.
  pub last_with-greatest :
      (xs : List VirtualNode) {v : VirtualNode}
      → IsSorted xs
      → last_with p xs ≡ some v
      → All (λ u. p u ≡ true → u.hash ≤ v.hash) xs
  unfolding last_with
  last_with-greatest [] s e = tt
  last_with-greatest (x ∷ xs) {v} s e = elim (Option-cases (last_with p xs)) [
    | inl absent ↦
        let here : v.hash ≡ x.hash = ground arith in
        (λ _. omega arith, All-imp (λ u f t. absurd (ground arith)) xs (last_with-none xs absent))
    | inr (w, found) ↦
        let e' : last_with p xs ≡ some v = ground arith in
        (
          λ _. All-In (λ u. x.hash ≤ u.hash) xs s.0 (last_with-In xs e').0,
          last_with-greatest xs s.1 e',
        )
  ]

none→[] : (xs : List VirtualNode) → last_with (λ _. true) xs ≡ none → xs ≡ []
none→[] [] e = refl
none→[] (x ∷ xs) e = cc ((last_with-none (λ _. true) (x ∷ xs) e).0)

pub pick-Owns :
    (h : ℕ) (ring : List VirtualNode)
    → IsSorted ring
    → ring ≢ []
    → (v : VirtualNode) × (pick h ring ≡ some v) × Owns ring h v
unfolding pick
pick-Owns h ring s full = elim (Option-cases (last_with (λ v. leb v.hash h) ring)) [
  | inr (v, found) ↦
      let (i, t) = last_with-In (λ u. leb u.hash h) ring found in
      let top = last_with-greatest (λ u. leb u.hash h) ring s found in
      (v, rw found, (i, inl (ground arith, All-imp (λ u f le. f (ground arith)) ring top)))
  | inl absent ↦ elim (Option-cases (last_with (λ _. true) ring)) [
    | inl empty ↦ absurd (full (none→[] ring empty))
    | inr (v, found) ↦
        let above = last_with-none (λ u. leb u.hash h) ring absent in
        let top = last_with-greatest (λ _. true) ring s found in
        (
          v,
          rw (absent, found),
          (
            (last_with-In (λ _. true) ring found).0,
            inr (All-imp (λ u f. ground arith) ring above, All-imp (λ u f. f refl) ring top),
          ),
        )
  ]
]

-- On a sorted ring that is not empty, `NodeOfDirect` returns the name of a virtual node of the ring
-- that owns the hash: none with a hash up to the given one has a larger hash; and where all hashes
-- are larger, it has the largest hash of the ring.
pub node_of_direct-Owns :
    (c : ConsistentHashRing) (h : ℕ)
    → IsSorted c.ring
    → c.ring ≢ []
    → (v : VirtualNode) × (node_of_direct c h ≡ ok v.name) × Owns c.ring h v
node_of_direct-Owns c h s full =
    let (v, e, o) = pick-Owns h c.ring s full in
    (v, node_of_direct-pick c h s ∙ ap (λ w. ok (node_name w)) e, o)
