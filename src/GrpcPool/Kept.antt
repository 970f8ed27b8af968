-- ===== src/GrpcPool/Kept.antt =====
-- Every use of a connection keeps the pool valid (cluster/grpc_pool.go).
use qa_d.Base.{
  ℕ, zero, suc, ap, ◌∙◌, List, [], ◌∷◌, none, set, Option, ◌<◌, ◌≡◌, refl, sym, subst, some, Text,
  length, get_elem?, lookup, inl, inr, Option-cases, Bool-cases,
}
use qa_d.Proto.{Reply-cases}
use qa_d.GrpcPool.{Grpc, PoolEntry, Pool, dial, use_entry, get_connection}
use qa_d.GrpcPool.Connections.{IsValid}

-- The addresses on the heap.
abbrev pub addresses : {Conn : Type 0} → List (PoolEntry Conn) → List Text
addresses [] = []
addresses (e ∷ es) = e.addr ∷ addresses es

-- The same map, and a heap with the same addresses.
abbrev pub HasPlaces : {Conn : Type 0} → Pool Conn → Pool Conn → Type 0
HasPlaces p q = (q.connections ≡ p.connections) × (addresses q.entries ≡ addresses p.entries)

pub length-addresses :
    {Conn : Type 0} (es : List (PoolEntry Conn)) → length (addresses es) ≡ length es
length-addresses [] = refl
length-addresses (e ∷ es) = ap suc (length-addresses es)

addresses-set :
    {Conn : Type 0} (es : List (PoolEntry Conn)) (id : ℕ) (old new : PoolEntry Conn)
    → get_elem? es id ≡ some old
    → new.addr ≡ old.addr
    → addresses (set es id new) ≡ addresses es
addresses-set [] id old new e a = refl
addresses-set (x ∷ es) zero old new e a =
    let same : old ≡ x = cc in ap (λ t. t ∷ addresses es) (a ∙ ap (λ t. t.addr) same)
addresses-set (x ∷ es) (suc id) old new e a = ap (λ t. x.addr ∷ t) (addresses-set es id old new e a)

HasPlaces-IsValid :
    (Conn : Type 0) (p q : Pool Conn) → IsValid Conn p → HasPlaces p q → IsValid Conn q
HasPlaces-IsValid Conn p q v (map, heap) =
    let places : length q.entries ≡ length p.entries =
      sym (length-addresses q.entries) ∙ ap length heap ∙ length-addresses p.entries in
    record {
      inside = λ n id e.
          subst (λ k. id < k) (sym places)
            (v.inside n id (subst (λ m. lookup n m ≡ some id) map e));
      apart = λ n m id e f.
          v.apart n m id (subst (λ k. lookup n k ≡ some id) map e)
            (subst (λ k. lookup m k ≡ some id) map f);
    }

-- The address of a node in the pool.
abbrev pub text_at : List Text → Option ℕ → Option Text
text_at texts none = none
text_at texts (some id) = get_elem? texts id

abbrev pub address_of : {Conn : Type 0} → Pool Conn → Text → Option Text
address_of p n = text_at (addresses p.entries) (lookup n p.connections)

HasPlaces-address :
    {Conn : Type 0} (p q : Pool Conn) (n : Text) → HasPlaces p q → address_of q n ≡ address_of p n
HasPlaces-address p q n (map, heap) = rw (map, heap) refl

module _ (g : Grpc) where
  open g use {World, Conn, Error}

  dial-places :
      (p : Pool Conn) (w : World) (id : ℕ) (entry : PoolEntry Conn)
      → get_elem? p.entries id ≡ some entry
      → HasPlaces p (dial g p w id entry).1
  unfolding dial
  dial-places p w id entry there = elim (Reply-cases (g.new_client w entry.addr).0) [
    | inl (e, failed) ↦ rw (dial, failed) (refl, addresses-set p.entries id entry _ there refl)
    | inr (conn, made) ↦ rw (dial, made) (refl, addresses-set p.entries id entry _ there refl)
  ]

  use_entry-places :
      (p : Pool Conn) (w : World) (n : Text) (id : ℕ) → HasPlaces p (use_entry g p w n id).1
  unfolding use_entry
  use_entry-places p w n id = elim (Option-cases (get_elem? p.entries id)) [
    | inl absent ↦ rw (use_entry, absent) (refl, refl)
    | inr (entry, there) ↦ elim (Bool-cases entry.once) [
      | inl used ↦ rw (use_entry, there, used) (refl, refl)
      | inr fresh ↦ elim (Option-cases (dial g p w id entry).0) [
        | inl good ↦ rw (use_entry, there, fresh, good) (dial-places p w id entry there)
        | inr (e, bad) ↦ rw (use_entry, there, fresh, bad) (dial-places p w id entry there)
      ]
    ]
  ]

  pub get_connection-places :
      (p : Pool Conn) (w : World) (n : Text) → HasPlaces p (get_connection g p w n).1
  unfolding get_connection
  get_connection-places p w n = elim (Option-cases (lookup n p.connections)) [
    | inl absent ↦ rw (get_connection, absent) (refl, refl)
    | inr (id, found) ↦ rw (get_connection, found) (use_entry-places p w n id)
  ]

  pub get_connection-IsValid :
      (p : Pool Conn) (w : World) (n : Text)
      → IsValid Conn p
      → IsValid Conn (get_connection g p w n).1
  get_connection-IsValid p w n v =
      HasPlaces-IsValid Conn p (get_connection g p w n).1 v (get_connection-places p w n)

  -- A use of a connection changes no address.
  pub get_connection-address :
      (p : Pool Conn) (w : World) (n m : Text)
      → address_of (get_connection g p w n).1 m ≡ address_of p m
  get_connection-address p w n m =
      HasPlaces-address p (get_connection g p w n).1 m (get_connection-places p w n)
