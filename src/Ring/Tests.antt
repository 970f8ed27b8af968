-- ===== src/Ring/Tests.antt =====
-- Runs of the ring at concrete inputs, with a small hash in place of xxhash.
use qa_d.Base.{
  ℕ, ◌+◌, ◌*◌, ◌%◌, ◌<◌, ◌≡◌, ◌≢◌, ◌⊎◌, refl, List, [], ◌∷◌, ◌++◌, ok, Text, codes, contains_text,
  text_eq, text_neq, arith, at, search, zero, suc,
}
use qa_d.Base.Decimal.{sprint, digits_loop}
use qa_d.Ring.{
  VirtualNode, ConsistentHashRing, new_ring, virtual_node, add_node, remove_node, node_of_direct,
  sort_into, node_in, name_before,
}
use qa_d.Ring.Spec.{place}
use qa_d.Ring.Place.{sort_into-place}
use qa_d.Ring.Owner.{Owns, node_of_direct-Owns}
use qa_d.Ring.Join.{join, leave, add_node-join, remove_node-leave, place_all, points}
use qa_d.Ring.Valid.{IsValid, join-IsValid}
use qa_d.Ring.Calls.{Call, add, call, run, run-IsValid, new_ring-IsValid}
use qa_d.Ring.Rebalance.{add_node-moves, remove_node-moves, remove_node-add_node}
use qa_d.Ring.Ties.{owners_disagree}

-- A hash that tells short texts apart.
abbrev hash_of : Text → ℕ
hash_of [] = 7
hash_of (c ∷ cs) = (c + 31 * hash_of cs) % 1000

abbrev a : Text
a = codes "a"

abbrev b : Text
b = codes "b"

abbrev ring_0 : ConsistentHashRing
ring_0 = new_ring 2

abbrev ring_a : ConsistentHashRing
ring_a = join hash_of ring_0 a

abbrev ring_b : ConsistentHashRing
ring_b = join hash_of ring_0 b

abbrev ring_ab : ConsistentHashRing
ring_ab = join hash_of ring_a b

ring_0-IsValid : IsValid hash_of ring_0
ring_0-IsValid = new_ring-IsValid hash_of 2

ring_a-IsValid : IsValid hash_of ring_a
unfolding contains_text new_ring
ring_a-IsValid = join-IsValid hash_of ring_0 a ring_0-IsValid refl

ring_b-IsValid : IsValid hash_of ring_b
unfolding contains_text new_ring
ring_b-IsValid = join-IsValid hash_of ring_0 b ring_0-IsValid refl

ring_ab-IsValid : IsValid hash_of ring_ab
unfolding contains_text new_ring join text_eq
ring_ab-IsValid = join-IsValid hash_of ring_a b ring_a-IsValid refl

a-joins : add_node hash_of ring_0 a ≡ ok ring_a
unfolding contains_text new_ring
a-joins = add_node-join hash_of ring_0 a ring_0-IsValid.sorted refl

b-joins_second : add_node hash_of ring_a b ≡ ok ring_ab
unfolding contains_text new_ring join text_eq
b-joins_second = add_node-join hash_of ring_a b ring_a-IsValid.sorted refl

-- The order of the four virtual nodes.
abbrev names_of : List VirtualNode → List Text
names_of [] = []
names_of (v ∷ vs) = v.name ∷ names_of vs

ring_ab-hashes : node_of_direct ring_ab 400 ≡ ok b
unfolding node_of_direct node_in name_before join new_ring place_all points place virtual_node
    sprint digits_loop search at
ring_ab-hashes = refl

ring_ab-full : ring_ab.ring ≢ []
unfolding join new_ring place_all points place virtual_node sprint digits_loop
ring_ab-full e = cc

node_of_direct-Owns_example :
    (v : VirtualNode) × (node_of_direct ring_ab 400 ≡ ok v.name) × Owns ring_ab.ring 400 v
node_of_direct-Owns_example = node_of_direct-Owns ring_ab 400 ring_ab-IsValid.sorted ring_ab-full

sort_into-place_example :
    sort_into ring_ab.ring (virtual_node hash_of a 7)
    ≡ ok (place (virtual_node hash_of a 7) ring_ab.ring)
sort_into-place_example =
    sort_into-place ring_ab.ring (virtual_node hash_of a 7) ring_ab-IsValid.sorted

abbrev calls : List Call
calls = add a ∷ add b ∷ []

calls-run : run hash_of calls ring_0 ≡ ok ring_ab
unfolding run call
calls-run = rw (a-joins, b-joins_second)

run-IsValid_example : IsValid hash_of ring_ab
run-IsValid_example = run-IsValid hash_of 2 calls calls-run

add_node-moves_example :
    (node_of_direct ring_ab 400 ≡ node_of_direct ring_a 400) ⊎ (node_of_direct ring_ab 400 ≡ ok b)
add_node-moves_example = add_node-moves hash_of ring_a ring_a-IsValid b 400 b-joins_second

remove_node-add_node_example : remove_node ring_ab b ≡ ok ring_a
remove_node-add_node_example = remove_node-add_node hash_of ring_a ring_a-IsValid b b-joins_second

a-leaves : remove_node ring_ab a ≡ ok (leave ring_ab a)
unfolding join new_ring contains_text text_eq
a-leaves = remove_node-leave ring_ab a refl

b-not_a : b ≢ a
unfolding text_eq
b-not_a = text_neq b a refl

remove_node-moves_example : node_of_direct (leave ring_ab a) 400 ≡ ok b
remove_node-moves_example =
    remove_node-moves hash_of ring_ab ring_ab-IsValid a b 400 a-leaves ring_ab-hashes b-not_a

-- No hash of "a" is one of "b".
apart : (i j : ℕ) → i < 2 → j < 2 → hash_of (a ++ sprint i) ≢ hash_of (b ++ sprint j)
unfolding sprint digits_loop
apart zero zero h k = λ e. omega arith
apart zero (suc zero) h k = λ e. omega arith
apart (suc zero) zero h k = λ e. omega arith
apart (suc zero) (suc zero) h k = λ e. omega arith
apart zero (suc (suc j)) h k = absurd (omega arith)
apart (suc zero) (suc (suc j)) h k = absurd (omega arith)
apart (suc (suc i)) j h k = absurd (omega arith)

-- "n" with 10 and "n1" with 0 are one string.
abbrev n : Text
n = codes "n"

abbrev n1 : Text
n1 = codes "n1"

abbrev ring_11 : ConsistentHashRing
ring_11 = new_ring 11

abbrev ring_n : ConsistentHashRing
ring_n = join hash_of ring_11 n

abbrev ring_n1 : ConsistentHashRing
ring_n1 = join hash_of ring_11 n1

ring_11-IsValid : IsValid hash_of ring_11
ring_11-IsValid = new_ring-IsValid hash_of 11

ring_n-IsValid : IsValid hash_of ring_n
unfolding contains_text new_ring
ring_n-IsValid = join-IsValid hash_of ring_11 n ring_11-IsValid refl

ring_n1-IsValid : IsValid hash_of ring_n1
unfolding contains_text new_ring
ring_n1-IsValid = join-IsValid hash_of ring_11 n1 ring_11-IsValid refl

n-joins : add_node hash_of ring_11 n ≡ ok ring_n
unfolding contains_text new_ring
n-joins = add_node-join hash_of ring_11 n ring_11-IsValid.sorted refl

n1-joins : add_node hash_of ring_11 n1 ≡ ok ring_n1
unfolding contains_text new_ring
n1-joins = add_node-join hash_of ring_11 n1 ring_11-IsValid.sorted refl

n1-joins_second : add_node hash_of ring_n n1 ≡ ok (join hash_of ring_n n1)
unfolding contains_text new_ring join text_eq
n1-joins_second = add_node-join hash_of ring_n n1 ring_n-IsValid.sorted refl

n-joins_second : add_node hash_of ring_n1 n ≡ ok (join hash_of ring_n1 n)
unfolding contains_text new_ring join text_eq
n-joins_second = add_node-join hash_of ring_n1 n ring_n1-IsValid.sorted refl

owners_disagree_example :
    (node_of_direct (join hash_of ring_n n1) (hash_of (n ++ sprint 10)) ≡ ok n1)
    × (node_of_direct (join hash_of ring_n1 n) (hash_of (n ++ sprint 10)) ≡ ok n)
unfolding new_ring sprint digits_loop
owners_disagree_example =
    owners_disagree hash_of ring_11 ring_n (join hash_of ring_n n1) ring_n1 (join hash_of ring_n1 n)
      n n1 10 0 ring_11-IsValid n-joins n1-joins_second n1-joins n-joins_second (omega arith)
      (omega arith) refl
