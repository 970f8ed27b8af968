-- ===== src/Ring.antt =====
-- consistent_hash_ring/index.go: the consistent hash ring. `xxhash.Sum64String` is a parameter.
pub mod Spec
pub mod Place
pub mod Lookup
pub mod Owner
pub mod Join
pub mod Valid
pub mod Calls
pub mod Rebalance
pub mod Ties
mod Tests
use qa_d.Base.{
  ℕ, zero, suc, ◌+◌, ◌-◌, Bool, not, List, [], ◌∷◌, ◌++◌, Text, text_eq, contains_text, ltb, ◌==◌,
  if◌then◌else◌, length, keep_if, Outcome, ok, panic, duplicate_node, node_not_in_ring, ◌>>=◌, at,
  set_at, copy_within, search,
}
use qa_d.Base.Decimal.{sprint}

pub record VirtualNode : Type 0 where
  pub name : Text
  pub index : ℕ
  pub hash : ℕ

-- `virtualNode{}`
abbrev pub zero_node : VirtualNode
zero_node = record { name = []; index = 0; hash = 0 }

pub record ConsistentHashRing : Type 0 where
  pub virtual_nodes : ℕ
  pub ring : List VirtualNode
  pub nodes : List Text

unfoldable pub new_ring : ℕ → ConsistentHashRing
new_ring virtual_nodes = record { virtual_nodes = virtual_nodes; ring = []; nodes = [] }

unfoldable pub get_nodes : ConsistentHashRing → List Text
get_nodes c = c.nodes

-- The test of both binary searches: `slice[i].hash > hash`.
abbrev pub exceeds : List VirtualNode → ℕ → ℕ → Outcome Bool
exceeds slice hash i = at slice i >>= λ v. ok (ltb hash v.hash)

unfoldable pub sort_into : List VirtualNode → VirtualNode → Outcome (List VirtualNode)
sort_into slice node = do
  let grown = slice ++ zero_node ∷ []
  i ← search (length grown - 1) (exceeds grown node.hash)
  shifted ← copy_within grown (i + 1) i
  set_at shifted i node

unfoldable pub remove_node : ConsistentHashRing → Text → Outcome ConsistentHashRing
remove_node c name =
    if contains_text c.nodes name
    then ok (record c {
      nodes = keep_if (λ node. not (text_eq node name)) c.nodes;
      ring = keep_if (λ vn. not (text_eq vn.name name)) c.ring;
    })
    else panic node_not_in_ring

-- The virtual node before the one that the search found, or the last where it found the first.
unfoldable pub name_before : List VirtualNode → ℕ → Outcome Text
name_before ring i = do v ← at ring (if i == 0 then length ring - 1 else i - 1); ok v.name

-- `NodeOfDirect` on the slice `c.ring`.
unfoldable pub node_in : List VirtualNode → ℕ → Outcome Text
unfolding name_before
node_in ring hash =
    if length ring == 0
    then ok []
    else search (length ring) (exceeds ring hash) >>= name_before ring

unfoldable pub node_of_direct : ConsistentHashRing → ℕ → Outcome Text
unfolding node_in
node_of_direct c hash = node_in c.ring hash

module _ (sum64 : Text → ℕ) where
  unfoldable pub virtual_node : Text → ℕ → VirtualNode
  virtual_node name i = record { name = name; index = i; hash = sum64 (name ++ sprint i) }

  -- The loop of `AddNode`, with the number of rounds left.
  unfoldable pub add_virtual_nodes : ℕ → ℕ → ConsistentHashRing → Text → Outcome ConsistentHashRing
  add_virtual_nodes zero i c name = ok c
  add_virtual_nodes (suc left) i c name = do
    ring ← sort_into c.ring (virtual_node name i)
    add_virtual_nodes left (suc i) (record c { ring = ring }) name

  unfoldable pub add_node : ConsistentHashRing → Text → Outcome ConsistentHashRing
  add_node c name =
      if contains_text c.nodes name
      then panic duplicate_node
      else add_virtual_nodes c.virtual_nodes 0 (record c { nodes = c.nodes ++ name ∷ [] }) name

  unfoldable pub node_of : ConsistentHashRing → Text → Outcome (ℕ × Text)
  node_of c key = do let hash = sum64 key; name ← node_of_direct c hash; ok (hash, name)
