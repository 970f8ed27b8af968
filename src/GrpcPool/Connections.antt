-- ===== src/GrpcPool/Connections.antt =====
-- The connections that the pool hands out: one per entry, dialled at the first use and kept, and
-- what each operation does to the entries of the other nodes.
use qa_d.Base.{
  ℕ, ◌<◌, ◌≡◌, ◌≢◌, refl, ap, ◌∙◌, Bool-cases, true, List, [], ◌∷◌, Option, none, some,
  Option-cases, Text, text_eq, text_eq_iff, text_eq-false, if◌then◌else◌, length, length-append,
  get_elem?, get_elem?-lt, get_elem?-append, set, length-set, get_elem?-set_self, get_elem?-set_ne,
  get_elem?-append_self, lt_of_get_elem?, lookup, lookup-insert, lookup-delete, arith, inl, inr,
  ◌↔◌,
}
use qa_d.Proto.{Reply, reply, fail}
use qa_d.GrpcPool.{
  Grpc, PoolEntry, Pool, PoolError, not_in_pool, failed_to_dial, connection_is_nil, new_pool,
  new_entry, put_entry, add_connection, dial, conn_of, use_entry, get_connection, remove_connection,
}

-- The map points into the heap, and no two names to one entry.
pub record IsValid (Conn : Type 0) (p : Pool Conn) : Type 0 where
  pub inside : (n : Text) (id : ℕ) → lookup n p.connections ≡ some id → id < length p.entries
  pub apart :
      (n m : Text) (id : ℕ)
      → lookup n p.connections ≡ some id
      → lookup m p.connections ≡ some id
      → n ≡ m

abbrev pub at_place : {Conn : Type 0} → List (PoolEntry Conn) → Option ℕ → Option (PoolEntry Conn)
at_place entries none = none
at_place entries (some id) = get_elem? entries id

-- The entry of a node.
abbrev pub entry_of : {Conn : Type 0} → Pool Conn → Text → Option (PoolEntry Conn)
entry_of p n = at_place p.entries (lookup n p.connections)

module _ (g : Grpc) where
  open g use {World, Conn, Error}

  pub new_pool-IsValid : IsValid Conn (new_pool g)
  unfolding new_pool lookup
  new_pool-IsValid = record { inside = λ n id e. cc; apart = λ n m id e f. cc }

  pub put_entry-IsValid :
      (p : Pool Conn) (n a : Text) → IsValid Conn p → IsValid Conn (put_entry g p n a)
  unfolding put_entry
  put_entry-IsValid p n a v = record {
    inside = λ m id e. ground (
      arith,
      lookup-insert m n (length p.entries) p.connections,
      v.inside m id,
      length-append p.entries (new_entry g a ∷ []),
    );
    apart = λ m k id e f. ground (
      arith,
      lookup-insert m n (length p.entries) p.connections,
      lookup-insert k n (length p.entries) p.connections,
      v.inside m id,
      v.inside k id,
      v.apart m k id,
      text_eq_iff n m,
      text_eq_iff n k,
    );
  }

  -- A new entry is the node's own; every other node keeps its entry.
  pub entry_of-put_entry :
      (p : Pool Conn) (n a m : Text)
      → IsValid Conn p
      → entry_of (put_entry g p n a) m
        ≡ (if text_eq n m then some (new_entry g a) else entry_of p m)
  unfolding put_entry
  entry_of-put_entry p n a m v = elim (Bool-cases (text_eq n m)) [
    | inl same ↦
        rw (lookup-insert m n (length p.entries) p.connections, same)
          (get_elem?-append_self p.entries (new_entry g a))
    | inr other ↦ elim (Option-cases (lookup m p.connections)) [
      | inl absent ↦ rw (lookup-insert m n (length p.entries) p.connections, other, absent)
      | inr (id, found) ↦
          rw (lookup-insert m n (length p.entries) p.connections, other, found)
            (get_elem?-append p.entries (new_entry g a ∷ []) id (v.inside m id found))
    ]
  ]

  -- The entry after its one dialling.
  abbrev pub dialled : PoolEntry Conn → Reply Error Conn → PoolEntry Conn
  dialled entry (reply conn) = record entry { once = true; conn = some conn }
  dialled entry (fail e) = record entry { once = true }

  -- The answer of the first use.
  abbrev pub first_answer : Text → Reply Error Conn → Reply (PoolError Error) Conn
  first_answer a (reply conn) = reply conn
  first_answer a (fail e) = fail (failed_to_dial a e)

  -- The answer of a use of an entry that was dialled.
  abbrev pub later_answer : Text → Option Conn → Reply (PoolError Error) Conn
  later_answer n none = fail (connection_is_nil n)
  later_answer n (some conn) = reply conn

  abbrev pub dialled_pool : Pool Conn → ℕ → PoolEntry Conn → Pool Conn
  dialled_pool p id entry = record p { entries = set p.entries id entry }

  dialled_pool-IsValid :
      (p : Pool Conn) (id : ℕ) (entry : PoolEntry Conn)
      → IsValid Conn p
      → IsValid Conn (dialled_pool p id entry)
  dialled_pool-IsValid p id entry v = record {
    inside = λ n i e. omega (arith, v.inside n i e, length-set p.entries id entry);
    apart = v.apart;
  }

  entry_of-dialled_pool :
      (p : Pool Conn) (id : ℕ) (n : Text) (entry : PoolEntry Conn) (m : Text)
      → IsValid Conn p
      → lookup n p.connections ≡ some id
      → entry_of (dialled_pool p id entry) m ≡ (if text_eq n m then some entry else entry_of p m)
  entry_of-dialled_pool p id n entry m v found = elim (Bool-cases (text_eq n m)) [
    | inl same ↦
        let e : n ≡ m = (text_eq_iff n m).0 same in
        rw (same, ← e, found) (get_elem?-set_self p.entries id entry (v.inside n id found))
    | inr other ↦ elim (Option-cases (lookup m p.connections)) [
      | inl absent ↦ rw (other, absent)
      | inr (j, there) ↦
          rw (other, there)
            (get_elem?-set_ne p.entries id j entry (λ e.
              absurd (ground (arith, text_eq_iff n m, v.apart n m j (found ∙ ap some e) there))))
    ]
  ]

  dial_reply :
      (p : Pool Conn) (w w₁ : World) (a : Text) (id : ℕ) (conn : Conn)
      → g.new_client w a ≡ (reply conn, w₁)
      → dial g p w id (new_entry g a)
        ≡ (none, dialled_pool p id (dialled (new_entry g a) (reply conn)), w₁)
  unfolding dial
  dial_reply p w w₁ a id conn d = rw (dial, d, d)

  pub use_entry_first :
      (p : Pool Conn) (w w₁ : World) (n a : Text) (id : ℕ) (r : Reply Error Conn)
      → get_elem? p.entries id ≡ some (new_entry g a)
      → g.new_client w a ≡ (r, w₁)
      → use_entry g p w n id ≡ (first_answer a r, dialled_pool p id (dialled (new_entry g a) r), w₁)
  unfolding use_entry conn_of
  use_entry_first p w w₁ n a id (reply conn) e d =
      let entry = dialled (new_entry g a) (reply conn) in
      let there = get_elem?-set_self p.entries id entry (lt_of_get_elem? p.entries id e) in
      rw
        (e, use_entry, dial_reply p w w₁ a id conn d, dial_reply p w w₁ a id conn d, conn_of, there)
  use_entry_first p w w₁ n a id (fail err) e d = rw (e, use_entry, dial, d, dial, d, d)

  -- The first `GetConnection` for a node of a valid pool dials the address of its entry and answers
  -- with what comes of it; the entry keeps that, no other node's entry changes, and the pool stays
  -- valid.
  pub get_connection_first :
      (p : Pool Conn) (w w₁ : World) (n a : Text) (r : Reply Error Conn)
      → IsValid Conn p
      → entry_of p n ≡ some (new_entry g a)
      → g.new_client w a ≡ (r, w₁)
      → (p₁ : Pool Conn) × (get_connection g p w n ≡ (first_answer a r, p₁, w₁))
        × ((m : Text)
            → entry_of p₁ m
              ≡ (if text_eq n m then some (dialled (new_entry g a) r) else entry_of p m))
        × IsValid Conn p₁
  unfolding get_connection
  get_connection_first p w w₁ n a r v e d = elim (Option-cases (lookup n p.connections)) [
    | inl absent ↦ absurd (ground arith)
    | inr (id, found) ↦
        let entry = dialled (new_entry g a) r in
        (
          dialled_pool p id entry,
          rw (get_connection, found) (use_entry_first p w w₁ n a id r (rw found at e) d),
          (λ m. entry_of-dialled_pool p id n entry m v found),
          dialled_pool-IsValid p id entry v,
        )
  ]

  -- `AddConnection` on a valid pool, with a name and an address that are not empty, succeeds: the
  -- node has a new entry that is not dialled yet, whatever it had before, every other node keeps
  -- its entry, and the pool stays valid.
  pub add_connection_lem :
      (p : Pool Conn) (n a m : Text)
      → IsValid Conn p
      → n ≢ []
      → a ≢ []
      → ((add_connection g p n a).0 ≡ none)
        × (entry_of (add_connection g p n a).1 m
            ≡ (if text_eq n m then some (new_entry g a) else entry_of p m))
        × IsValid Conn (add_connection g p n a).1
  unfolding add_connection
  add_connection_lem p n a m v hn ha =
      rw (text_eq-false n [] hn, text_eq-false a [] ha)
        (refl, entry_of-put_entry p n a m v, put_entry-IsValid p n a v)

  -- `RemoveConnection` on a valid pool leaves the node without an entry and every other node with
  -- its own, keeps the pool valid, and returns the error exactly where the node had none.
  pub remove_connection_lem :
      (p : Pool Conn) (w : World) (n m : Text)
      → IsValid Conn p
      → (entry_of (remove_connection g p w n).1 m ≡ (if text_eq n m then none else entry_of p m))
        × IsValid Conn (remove_connection g p w n).1
        × ((entry_of p n ≡ none) ↔ ((remove_connection g p w n).0 ≡ some (not_in_pool n)))
  unfolding remove_connection
  remove_connection_lem p w n m v = elim (Option-cases (lookup n p.connections)) [
    | inl absent ↦
        let same : entry_of p m ≡ (if text_eq n m then none else entry_of p m) =
          ground (arith, text_eq_iff n m, absent) in
        rw (absent, remove_connection) (same, v, ((λ _. refl), (λ _. refl)))
    | inr (id, found) ↦
        let (entry, there) = get_elem?-lt p.entries id (v.inside n id found) in
        rw (found, remove_connection)
          (
            rw (lookup-delete m n p.connections) (ground (arith, text_eq_iff n m)),
            record {
              inside = λ k i e. ground (arith, lookup-delete k n p.connections, v.inside k i);
              apart = λ k j i e f. ground (
                arith,
                lookup-delete k n p.connections,
                lookup-delete j n p.connections,
                v.apart k j i,
              );
            },
            ((λ none_there. absurd (ground (arith, found, there))), (λ e. cc)),
          )
  ]
