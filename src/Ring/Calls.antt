-- ===== src/Ring/Calls.antt =====
-- `AddNode` and `RemoveNode` on a valid ring: when they panic, what they leave, and the rings that
-- runs of them reach (consistent_hash_ring/index.go).
use qa_d.Base.{
  ℕ, ◌≡◌, refl, ◌∙◌, sym, subst, ok_injective, >>=-inverse, Panic, ◌↔◌, Bool-cases, true, false,
  List, [], ◌∷◌, Outcome, ok, panic, duplicate_node, node_not_in_ring, ◌>>=◌, arith, inl, inr, Text,
  contains_text,
}
use qa_d.Ring.{ConsistentHashRing, new_ring, add_node, remove_node}
use qa_d.Ring.Join.{join, leave, add_node-join, remove_node-leave}
use qa_d.Ring.Valid.{IsValid, count_of, join-IsValid, leave-IsValid}

-- A call that changes the membership of the ring.
pub data Call : Type 0 where
  add : Text → Call
  remove : Text → Call

unfoldable pub call : (Text → ℕ) → ConsistentHashRing → Call → Outcome ConsistentHashRing
call sum64 c (add name) = add_node sum64 c name
call sum64 c (remove name) = remove_node c name

unfoldable pub run : (Text → ℕ) → List Call → ConsistentHashRing → Outcome ConsistentHashRing
unfolding call
run sum64 [] c = ok c
run sum64 (m ∷ ms) c = call sum64 c m >>= run sum64 ms

-- The call that the caller must not make: a name that is there already, or one that is not there.
abbrev pub IsRefused : ConsistentHashRing → Call → Type 0
IsRefused c (add name) = contains_text c.nodes name ≡ true
IsRefused c (remove name) = contains_text c.nodes name ≡ false

module _ (sum64 : Text → ℕ) where
  -- A successful `AddNode` was of a new name, and gave the joined ring.
  pub add_node-inverse :
      (c : ConsistentHashRing) (name : Text) {c' : ConsistentHashRing}
      → IsValid sum64 c
      → add_node sum64 c name ≡ ok c'
      → (contains_text c.nodes name ≡ false) × (join sum64 c name ≡ c')
  add_node-inverse c name v e = elim (Bool-cases (contains_text c.nodes name)) [
    | inl old ↦ absurd (unfold add_node in (ground arith))
    | inr fresh ↦ (fresh, ok_injective (sym (add_node-join sum64 c name v.sorted fresh) ∙ e))
  ]

  pub remove_node-inverse :
      (c : ConsistentHashRing) (name : Text) {c' : ConsistentHashRing}
      → remove_node c name ≡ ok c'
      → (contains_text c.nodes name ≡ true) × (leave c name ≡ c')
  remove_node-inverse c name e = elim (Bool-cases (contains_text c.nodes name)) [
    | inl known ↦ (known, ok_injective (sym (remove_node-leave c name known) ∙ e))
    | inr strange ↦ absurd (unfold remove_node in (ground arith))
  ]

  pub add_node-IsValid :
      (c : ConsistentHashRing) (name : Text) {c' : ConsistentHashRing}
      → IsValid sum64 c
      → add_node sum64 c name ≡ ok c'
      → IsValid sum64 c'
  add_node-IsValid c name v e =
      let (fresh, same) = add_node-inverse c name v e in
      subst (IsValid sum64) same (join-IsValid sum64 c name v fresh)

  pub remove_node-IsValid :
      (c : ConsistentHashRing) (name : Text) {c' : ConsistentHashRing}
      → IsValid sum64 c
      → remove_node c name ≡ ok c'
      → IsValid sum64 c'
  remove_node-IsValid c name v e =
      let (known, same) = remove_node-inverse c name e in
      subst (IsValid sum64) same (leave-IsValid sum64 c name v)

  call-IsValid :
      (c : ConsistentHashRing) (m : Call) {c' : ConsistentHashRing}
      → IsValid sum64 c
      → call sum64 c m ≡ ok c'
      → IsValid sum64 c'
  unfolding call
  call-IsValid c (add name) v e = add_node-IsValid c name v e
  call-IsValid c (remove name) v e = remove_node-IsValid c name v e

  -- A membership call on a valid ring panics exactly when it adds a name that is there already or
  -- removes one that is not.
  pub call-panics :
      (c : ConsistentHashRing) (m : Call)
      → IsValid sum64 c
      → (((p : Panic) × (call sum64 c m ≡ panic p)) ↔ IsRefused c m)
  unfolding call
  call-panics c (add name) v = (
    λ h. elim (Bool-cases (contains_text c.nodes name)) [
      | inl old ↦ old
      | inr fresh ↦ absurd (cc (add_node-join sum64 c name v.sorted fresh, h.1))
    ],
    λ old. (duplicate_node, unfold add_node in (rw old)),
  )
  call-panics c (remove name) v = (
    λ h. elim (Bool-cases (contains_text c.nodes name)) [
      | inr strange ↦ strange
      | inl known ↦ absurd (cc (remove_node-leave c name known, h.1))
    ],
    λ strange. (node_not_in_ring, unfold remove_node in (rw strange)),
  )

  pub new_ring-IsValid : (n : ℕ) → IsValid sum64 (new_ring n)
  unfolding new_ring contains_text count_of
  new_ring-IsValid n = record {
    sorted = tt;
    hashed = tt;
    known = tt;
    counted = λ _. refl;
    distinct = tt;
  }

  pub run-keeps-IsValid :
      (ms : List Call) (c : ConsistentHashRing) {c' : ConsistentHashRing}
      → IsValid sum64 c
      → run sum64 ms c ≡ ok c'
      → IsValid sum64 c'
  unfolding run
  run-keeps-IsValid [] c v e = subst (IsValid sum64) (ok_injective e) v
  run-keeps-IsValid (m ∷ ms) c v e =
      let (d, first, rest) = >>=-inverse (call sum64 c m) (run sum64 ms) e in
      run-keeps-IsValid ms d (call-IsValid c m v first) rest

  -- Every ring that `AddNode` and `RemoveNode` build from `NewRing` is valid: sorted by hash, each
  -- hash that of its name and index, each member with exactly `virtualNodes` virtual nodes and
  -- everyone else with none, and no member twice.
  pub run-IsValid :
      (n : ℕ) (ms : List Call) {c : ConsistentHashRing}
      → run sum64 ms (new_ring n) ≡ ok c
      → IsValid sum64 c
  run-IsValid n ms e = run-keeps-IsValid ms (new_ring n) (new_ring-IsValid n) e
