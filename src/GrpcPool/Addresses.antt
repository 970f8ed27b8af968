-- ===== src/GrpcPool/Addresses.antt =====
-- The addresses that the pool has for the nodes, and who gave them (cluster/grpc_pool.go).
use qa_d.Base.{
  ◌<◌, ◌≡◌, refl, sym, subst, ap, ◌∙◌, Bool-cases, List, [], ◌∷◌, ◌++◌, none, some, Option-cases,
  Text, text_eq, text_eq_iff, if◌then◌else◌, length, get_elem?-append, get_elem?-append_self,
  lookup, lookup-insert, lookup-delete, arith, inl, inr,
}
use qa_d.GrpcPool.{
  Grpc, PoolEntry, Pool, new_pool, new_entry, put_entry, add_connection, get_connection,
  remove_connection,
}
use qa_d.GrpcPool.Connections.{IsValid, new_pool-IsValid, put_entry-IsValid, remove_connection_lem}
use qa_d.GrpcPool.Kept.{
  addresses, length-addresses, address_of, get_connection-IsValid, get_connection-address,
}

addresses-append :
    {Conn : Type 0} (es fs : List (PoolEntry Conn))
    → addresses (es ++ fs) ≡ addresses es ++ addresses fs
addresses-append [] fs = refl
addresses-append (e ∷ es) fs = ap (λ t. e.addr ∷ t) (addresses-append es fs)

module _ (g : Grpc) where
  open g use {World, Conn}

  -- The new entry has its address, and every other node keeps its own.
  pub put_entry-address :
      (p : Pool Conn) (n a m : Text)
      → IsValid Conn p
      → address_of (put_entry g p n a) m ≡ (if text_eq n m then some a else address_of p m)
  unfolding put_entry
  put_entry-address p n a m v =
      let heap = addresses-append p.entries (new_entry g a ∷ []) in
      let size = length-addresses p.entries in
      elim (Bool-cases (text_eq n m)) [
        | inl same ↦
            rw (lookup-insert m n (length p.entries) p.connections, same, heap, ← size)
              (get_elem?-append_self (addresses p.entries) a)
        | inr other ↦ elim (Option-cases (lookup m p.connections)) [
          | inl absent ↦ rw (lookup-insert m n (length p.entries) p.connections, other, absent)
          | inr (id, found) ↦
              rw (lookup-insert m n (length p.entries) p.connections, other, found, heap)
                (get_elem?-append (addresses p.entries) (a ∷ []) id
                  (subst (λ k. id < k) (sym size) (v.inside m id found)))
        ]
      ]

  -- A node that is removed has no address, and every other node keeps its own.
  pub remove_connection-address :
      (p : Pool Conn) (w : World) (n m : Text)
      → address_of (remove_connection g p w n).1 m ≡ (if text_eq n m then none else address_of p m)
  unfolding remove_connection
  remove_connection-address p w n m = elim (Option-cases (lookup n p.connections)) [
    | inl absent ↦
        rw (remove_connection, absent)
          (elim (Bool-cases (text_eq n m)) [
            | inl same ↦
                let names : n ≡ m = (text_eq_iff n m).0 same in rw (same, ← names, absent) refl
            | inr other ↦ rw other refl
          ])
    | inr (id, found) ↦
        rw (remove_connection, found, lookup-delete m n p.connections)
          (elim (Bool-cases (text_eq n m)) [ inl same ↦ rw same refl | inr other ↦ rw other refl ])
  ]

  module _ (Q : Text → Text → Type 0) where
    -- Every address in the pool has been given for its node.
    pub record IsGiven (p : Pool Conn) : Type 0 where
      pub valid : IsValid Conn p
      pub given : (n a : Text) → address_of p n ≡ some a → Q n a

    pub new_pool-IsGiven : IsGiven (new_pool g)
    unfolding new_pool lookup
    new_pool-IsGiven = record { valid = new_pool-IsValid g; given = λ n a e. cc }

    pub get_connection-IsGiven :
        (p : Pool Conn) (w : World) (n : Text) → IsGiven p → IsGiven (get_connection g p w n).1
    get_connection-IsGiven p w n v = record {
      valid = get_connection-IsValid g p w n v.valid;
      given = λ m a e. v.given m a (sym (get_connection-address g p w n m) ∙ e);
    }

    put_entry-IsGiven :
        (p : Pool Conn) (n a : Text) → Q n a → IsGiven p → IsGiven (put_entry g p n a)
    put_entry-IsGiven p n a q v = record {
      valid = put_entry-IsValid g p n a v.valid;
      given = λ m b e. elim (Bool-cases (text_eq n m)) [
        | inl same ↦
            let now = rw same at (put_entry-address p n a m v.valid) in
            let address : a ≡ b = cc in
            subst (λ k. Q k b) ((text_eq_iff n m).0 same) (subst (Q n) address q)
        | inr other ↦ v.given m b (sym (rw other at (put_entry-address p n a m v.valid)) ∙ e)
      ];
    }

    pub add_connection-IsGiven :
        (p : Pool Conn) (n a : Text) → Q n a → IsGiven p → IsGiven (add_connection g p n a).1
    unfolding add_connection
    add_connection-IsGiven p n a q v = elim (Bool-cases (text_eq n [])) [
      | inl unnamed ↦ rw (add_connection, unnamed) v
      | inr named ↦ elim (Bool-cases (text_eq a [])) [
        | inl nowhere ↦ rw (add_connection, named, nowhere) v
        | inr there ↦ rw (add_connection, named, there) (put_entry-IsGiven p n a q v)
      ]
    ]

    pub remove_connection-IsGiven :
        (p : Pool Conn) (w : World) (n : Text) → IsGiven p → IsGiven (remove_connection g p w n).1
    remove_connection-IsGiven p w n v = record {
      valid = (remove_connection_lem g p w n n v.valid).1;
      given = λ m a e. v.given m a (removed m a e);
    }
      where
        removed :
            (m a : Text)
            → address_of (remove_connection g p w n).1 m ≡ some a
            → address_of p m ≡ some a
        removed m a e = elim (Bool-cases (text_eq n m)) [
          | inl same ↦ absurd (ground (arith, remove_connection-address p w n m, same, e))
          | inr other ↦ sym (rw other at (remove_connection-address p w n m)) ∙ e
        ]
