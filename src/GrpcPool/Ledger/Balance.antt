-- ===== src/GrpcPool/Ledger/Balance.antt =====
-- Every connection that the pool made is closed in the end (cluster/grpc_pool.go), where no call overtakes
-- another and no name is added twice.
use qa_d.Base.{
  ℕ, ◌<◌, ◌≡◌, refl, subst, ◌∙◌, Bool-cases, true, false, List, [], ◌∷◌, none, some, Option-cases,
  Text, text_eq, text_eq_refl, length, get_elem?, Assoc, lookup, insert, delete, lookup-insert,
  lookup-delete, arith, inl, inr, ◌↔◌,
}
use qa_d.Proto.{Reply, reply, fail}
use qa_d.GrpcPool.{
  Grpc, PoolEntry, Pool, new_entry, put_entry, add_connection, dial, use_entry, get_connection,
  close_entry, update_connection, remove_connection, close_all, close_pool,
}
use qa_d.GrpcPool.Ledger.{
  has, Once, Call, add, get, late, update, remove, close_it, State, counted, start, step, run,
}
use qa_d.GrpcPool.Ledger.Tidy.{KeysOnce, delete_absent, number_at-entry, number_at_absent}
use qa_d.GrpcPool.Ledger.Run.{Tidy, P, L, step-Tidy, start-Tidy}
use qa_d.GrpcPool.Ledger.Accounted.{
  Accounted, append-Accounted, dial-Accounted, fail-Accounted, close-Accounted, delete-Accounted,
}

-- A call that overtakes no other, and adds no name that is there.
abbrev pub IsTame : {C : Type 0} → Pool C → Call → Type 0
IsTame p (add name addr) = lookup name p.connections ≡ none
IsTame p (get name) = Unit
IsTame p (late name id) = ⊥
IsTame p (update name addr) = Unit
IsTame p (remove name) = Unit
IsTame p close_it = Unit

module _ (g : Grpc) where
  abbrev Balanced : State g → Type 0
  Balanced s = Accounted s.0.entries s.0.connections s.1

  retired-Accounted :
      (p : P g) (l : L g) (n : Text) (id : ℕ)
      → lookup n p.connections ≡ some id
      → Balanced (p, l)
      → Accounted p.entries (delete n p.connections) (close_entry (counted g) p l id)
  unfolding close_entry
  retired-Accounted p l n id found a = elim (Option-cases (get_elem? p.entries id)) [
    | inl absent ↦
        rw (close_entry, absent)
          (delete-Accounted p.entries p.connections l a n id found
            (number_at_absent p.entries id absent))
    | inr (e, there) ↦ elim (Option-cases e.conn) [
      | inl unused ↦
          rw (close_entry, there, unused)
            (delete-Accounted p.entries p.connections l a n id found
              (number_at-entry p.entries id e there ∙ rw unused refl))
      | inr (conn, made) ↦
          rw (close_entry, there, made)
            (close-Accounted p.entries p.connections l a n id conn.0 (g.close l.world conn.1).1
              found (number_at-entry p.entries id e there ∙ rw made refl))
    ]
  ]

  dial-Balanced :
      (p : P g) (l : L g) (n : Text) (id : ℕ) (e : PoolEntry (ℕ × g.Conn))
      (r : Reply g.Error g.Conn × g.World)
      → g.new_client l.world e.addr ≡ r
      → lookup n p.connections ≡ some id
      → get_elem? p.entries id ≡ some e
      → e.once ≡ false
      → Tidy g (p, l)
      → Balanced (p, l)
      → Balanced ((dial (counted g) p l id e).1, (dial (counted g) p l id e).2)
  unfolding dial
  dial-Balanced p l n id e (reply c, w) d found there o v a =
      rw (dial, d, d) (dial-Accounted p.entries p.connections l a n id e c w v found there o)
  dial-Balanced p l n id e (fail x, w) d found there o v a =
      rw (dial, d, d) (fail-Accounted p.entries p.connections l a id e w v there o)

  use_entry-Balanced :
      (p : P g) (l : L g) (n : Text) (id : ℕ)
      → lookup n p.connections ≡ some id
      → Tidy g (p, l)
      → Balanced (p, l)
      → Balanced ((use_entry (counted g) p l n id).1, (use_entry (counted g) p l n id).2)
  unfolding use_entry
  use_entry-Balanced p l n id found v a = elim (Option-cases (get_elem? p.entries id)) [
    | inl absent ↦ rw (use_entry, absent) a
    | inr (e, there) ↦ elim (Bool-cases e.once) [
      | inl used ↦ rw (use_entry, there, used) a
      | inr fresh ↦
          let dialled =
            dial-Balanced p l n id e (g.new_client l.world e.addr) refl found there fresh v a in
          elim (Option-cases (dial (counted g) p l id e).0) [
            | inl good ↦ rw (use_entry, there, fresh, good) dialled
            | inr (x, bad) ↦ rw (use_entry, there, fresh, bad) dialled
          ]
    ]
  ]

  put_entry-Balanced :
      (p : P g) (l : L g) (n a : Text)
      → lookup n p.connections ≡ none
      → Balanced (p, l)
      → Balanced (put_entry (counted g) p n a, l)
  unfolding put_entry
  put_entry-Balanced p l n a new b =
      append-Accounted p.entries p.connections l b (insert n (length p.entries) p.connections) n
        (new_entry (counted g) a) refl new (λ k. lookup-insert k n (length p.entries) p.connections)

  add_connection-Balanced :
      (p : P g) (l : L g) (n a : Text)
      → lookup n p.connections ≡ none
      → Balanced (p, l)
      → Balanced ((add_connection (counted g) p n a).1, l)
  unfolding add_connection
  add_connection-Balanced p l n a new b = elim (Bool-cases (text_eq n [])) [
    | inl unnamed ↦ rw (add_connection, unnamed) b
    | inr named ↦ elim (Bool-cases (text_eq a [])) [
      | inl nowhere ↦ rw (add_connection, named, nowhere) b
      | inr there ↦ rw (add_connection, named, there) (put_entry-Balanced p l n a new b)
    ]
  ]

  update_connection-Balanced :
      (p : P g) (l : L g) (n a : Text)
      → Balanced (p, l)
      → Balanced
          ((update_connection (counted g) p l n a).1, (update_connection (counted g) p l n a).2)
  unfolding update_connection put_entry
  update_connection-Balanced p l n a b = elim (Option-cases (lookup n p.connections)) [
    | inl absent ↦ rw (update_connection, absent) b
    | inr (id, found) ↦
        rw (update_connection, found)
          (append-Accounted p.entries (delete n p.connections) (close_entry (counted g) p l id)
            (retired-Accounted p l n id found b) (insert n (length p.entries) p.connections) n
            (new_entry (counted g) a) refl
            (rw (lookup-delete n n p.connections, text_eq_refl n) refl)
            (λ k. ground (
              arith,
              lookup-insert k n (length p.entries) p.connections,
              lookup-delete k n p.connections,
            )))
  ]

  remove_connection-Balanced :
      (p : P g) (l : L g) (n : Text)
      → Balanced (p, l)
      → Balanced ((remove_connection (counted g) p l n).1, (remove_connection (counted g) p l n).2)
  unfolding remove_connection
  remove_connection-Balanced p l n b = elim (Option-cases (lookup n p.connections)) [
    | inl absent ↦ rw (remove_connection, absent) b
    | inr (id, found) ↦ rw (remove_connection, found) (retired-Accounted p l n id found b)
  ]

  close_all-Accounted :
      (p : P g) (l : L g) (m : Assoc ℕ)
      → KeysOnce m
      → Accounted p.entries m l
      → Accounted p.entries [] (close_all (counted g) p l m)
  unfolding close_all close_entry lookup delete
  close_all-Accounted p l [] k a = a
  close_all-Accounted p l ((n, id) ∷ m) k a =
      let head : P g = record { entries = p.entries; connections = (n, id) ∷ m } in
      let found : lookup n ((n, id) ∷ m) ≡ some id = rw (text_eq_refl n) refl in
      let rest : delete n ((n, id) ∷ m) ≡ m = rw (text_eq_refl n) (delete_absent n m k.0) in
      close_all-Accounted p (close_entry (counted g) p l id) m k.1 (
        subst (λ z. Accounted p.entries z (close_entry (counted g) p l id)) rest
          (retired-Accounted head l n id found a))

  close_pool-Balanced :
      (p : P g) (l : L g) → Tidy g (p, l) → Balanced (p, l) → Balanced (close_pool (counted g) p l)
  unfolding close_pool
  close_pool-Balanced p l v a = close_all-Accounted p l p.connections v.keys_once a

  step-Balanced :
      (s : State g) (c : Call) → IsTame s.0 c → Tidy g s → Balanced s → Balanced (step g s c)
  unfolding step get_connection
  step-Balanced (p, l) (add name addr) t v a = add_connection-Balanced p l name addr t a
  step-Balanced (p, l) (get name) t v a = elim (Option-cases (lookup name p.connections)) [
    | inl absent ↦ rw (get_connection, absent) a
    | inr (id, found) ↦ rw (get_connection, found) (use_entry-Balanced p l name id found v a)
  ]
  step-Balanced (p, l) (late name id) t v a = absurd t
  step-Balanced (p, l) (update name addr) t v a = update_connection-Balanced p l name addr a
  step-Balanced (p, l) (remove name) t v a = remove_connection-Balanced p l name a
  step-Balanced (p, l) close_it t v a = close_pool-Balanced p l v a

  abbrev pub AreTame : State g → List Call → Type 0
  AreTame s [] = Unit
  AreTame s (c ∷ cs) = IsTame s.0 c × AreTame (step g s c) cs

  run-Balanced :
      (s : State g) (cs : List Call)
      → AreTame s cs
      → Tidy g s
      → Balanced s
      → Tidy g (run g s cs) × Balanced (run g s cs)
  unfolding run
  run-Balanced s [] t v a = (v, a)
  run-Balanced s (c ∷ cs) (first, rest) v a =
      run-Balanced (step g s c) cs rest (step-Tidy g s c v) (step-Balanced s c first v a)

  closed_all :
      (es : List (PoolEntry (ℕ × g.Conn))) (l : L g) (k : ℕ)
      → Accounted es [] l
      → k < l.made
      → has l.closed k ≡ true
  unfolding lookup
  closed_all es l k a made = elim (a k made) [
    | inl closed ↦ closed
    | inr (n, id, found, number) ↦ cc found
  ]

  -- The network after calls of a new pool and a last `Close`.
  abbrev pub at_end : g.World → List Call → L g
  at_end w cs = (step g (run g (start g w) cs) close_it).1

  -- After any calls of a new pool, of which none overtakes another and none adds a name that the pool has,
  -- `Close` leaves no connection open: the connections that were closed are all that were ever made, each
  -- of them once.
  pub close-closes_all :
      (w : g.World) (cs : List Call) (k : ℕ)
      → AreTame (start g w) cs
      → Once (at_end w cs).closed × ((has (at_end w cs).closed k ≡ true) ↔ (k < (at_end w cs).made))
  unfolding step close_pool
  close-closes_all w cs k tame =
      let s = run g (start g w) cs in
      let (tidy, balanced) =
        run-Balanced (start g w) cs tame (start-Tidy g w) (λ i made. absurd (omega arith)) in
      let tidy' = step-Tidy g s close_it tidy in
      let balanced' = step-Balanced s close_it tt tidy balanced in
      (
        tidy'.closed_once,
        (tidy'.closed_below k, closed_all s.0.entries (step g s close_it).1 k balanced'),
      )
