-- ===== src/Ring/Spec.antt =====
-- What the ring promises, apart from slices and binary searches: rows of virtual nodes by hash,
-- and the virtual node to which a hash belongs.
use qa_d.Base.{ℕ, ◌≤◌, Bool, true, Option, none, some, List, [], ◌∷◌, leb, if◌then◌else◌, All}
use qa_d.Ring.{VirtualNode}

-- No virtual node has a smaller hash than one before it.
abbrev pub IsSorted : List VirtualNode → Type 0
IsSorted [] = Unit
IsSorted (x ∷ xs) = All (λ v. x.hash ≤ v.hash) xs × IsSorted xs

-- The insertion before the first virtual node with a larger hash.
unfoldable pub place : VirtualNode → List VirtualNode → List VirtualNode
place v [] = v ∷ []
place v (x ∷ xs) = if leb x.hash v.hash then x ∷ place v xs else v ∷ x ∷ xs

abbrev pub or_else : Option VirtualNode → Option VirtualNode → Option VirtualNode
or_else (some v) w = some v
or_else none w = w

-- The last virtual node that passes a test.
unfoldable pub last_with : (VirtualNode → Bool) → List VirtualNode → Option VirtualNode
last_with p [] = none
last_with p (x ∷ xs) = or_else (last_with p xs) (if p x then some x else none)

-- The last virtual node with a hash up to the given one, or else the last of all.
unfoldable pub pick : ℕ → List VirtualNode → Option VirtualNode
pick hash ring = or_else (last_with (λ v. leb v.hash hash) ring) (last_with (λ _. true) ring)
