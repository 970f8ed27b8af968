-- ===== src/GrpcPool/Ledger/Run.antt =====
-- Every call of the pool keeps the heap, the map and the ledger tidy (cluster/grpc_pool.go).
use qa_d.Base.{
  ℕ, ◌≡◌, refl, subst, ◌∙◌, Bool-cases, false, List, [], ◌∷◌, some, Option-cases, Text, text_eq,
  text_eq_refl, length, get_elem?, Assoc, lookup, insert, delete, lookup-insert, lookup-delete,
  arith, inl, inr,
}
use qa_d.Proto.{Reply, reply, fail}
use qa_d.GrpcPool.{
  Grpc, PoolEntry, Pool, new_pool, new_entry, put_entry, add_connection, dial, use_entry,
  get_connection, close_entry, update_connection, remove_connection, close_all, close_pool,
}
use qa_d.GrpcPool.Ledger.{
  Ledger, Call, add, get, late, update, remove, close_it, State, counted, start, step, run,
}
use qa_d.GrpcPool.Ledger.Tidy.{insert-KeysOnce, delete_absent, number_at-entry, IsTidy}
use qa_d.GrpcPool.Ledger.Changes.{
  append-IsTidy, dial-IsTidy, fail-IsTidy, close-IsTidy, delete-IsTidy,
}

module _ (g : Grpc) where
  abbrev pub Tidy : State g → Type 0
  Tidy s = IsTidy s.0.entries s.0.connections s.1

  abbrev pub P : Type 0
  P = Pool (ℕ × g.Conn)

  abbrev pub L : Type 0
  L = Ledger g.World

  pub start-Tidy : (w : g.World) → Tidy (start g w)
  unfolding new_pool lookup
  start-Tidy w = record {
    keys_once = tt;
    inside = λ n id h. cc;
    names_apart = λ n k id h f. cc;
    below = λ i k h. cc;
    places_apart = λ i j k h f. cc;
    closed_below = λ k h. cc;
    closed_once = tt;
    still_open = λ n id k h f. refl;
    fresh = λ i e h o. cc;
  }

  put_entry-Tidy :
      (p : P) (l : L) (n a : Text) → Tidy (p, l) → Tidy (put_entry (counted g) p n a, l)
  unfolding put_entry
  put_entry-Tidy p l n a v =
      append-IsTidy p.entries p.connections l v (insert n (length p.entries) p.connections) n
        (new_entry (counted g) a) refl
        (insert-KeysOnce n (length p.entries) p.connections v.keys_once)
        (λ k. lookup-insert k n (length p.entries) p.connections)

  add_connection-Tidy :
      (p : P) (l : L) (n a : Text) → Tidy (p, l) → Tidy ((add_connection (counted g) p n a).1, l)
  unfolding add_connection
  add_connection-Tidy p l n a v = elim (Bool-cases (text_eq n [])) [
    | inl unnamed ↦ rw (add_connection, unnamed) v
    | inr named ↦ elim (Bool-cases (text_eq a [])) [
      | inl nowhere ↦ rw (add_connection, named, nowhere) v
      | inr there ↦ rw (add_connection, named, there) (put_entry-Tidy p l n a v)
    ]
  ]

  pub dial-Tidy :
      (p : P) (l : L) (id : ℕ) (e : PoolEntry (ℕ × g.Conn)) (r : Reply g.Error g.Conn × g.World)
      → g.new_client l.world e.addr ≡ r
      → get_elem? p.entries id ≡ some e
      → e.once ≡ false
      → Tidy (p, l)
      → Tidy ((dial (counted g) p l id e).1, (dial (counted g) p l id e).2)
  unfolding dial
  dial-Tidy p l id e (reply c, w) d h o v =
      rw (dial, d, d) (dial-IsTidy p.entries p.connections l v id e c w h o)
  dial-Tidy p l id e (fail x, w) d h o v =
      rw (dial, d, d) (fail-IsTidy p.entries p.connections l v id e w h o)

  use_entry-Tidy :
      (p : P) (l : L) (n : Text) (id : ℕ)
      → Tidy (p, l)
      → Tidy ((use_entry (counted g) p l n id).1, (use_entry (counted g) p l n id).2)
  unfolding use_entry
  use_entry-Tidy p l n id v = elim (Option-cases (get_elem? p.entries id)) [
    | inl absent ↦ rw (use_entry, absent) v
    | inr (e, there) ↦ elim (Bool-cases e.once) [
      | inl used ↦ rw (use_entry, there, used) v
      | inr fresh ↦
          let dialled = dial-Tidy p l id e (g.new_client l.world e.addr) refl there fresh v in
          elim (Option-cases (dial (counted g) p l id e).0) [
            | inl good ↦ rw (use_entry, there, fresh, good) dialled
            | inr (x, bad) ↦ rw (use_entry, there, fresh, bad) dialled
          ]
    ]
  ]

  pub get_connection-Tidy :
      (p : P) (l : L) (n : Text)
      → Tidy (p, l)
      → Tidy ((get_connection (counted g) p l n).1, (get_connection (counted g) p l n).2)
  unfolding get_connection
  get_connection-Tidy p l n v = elim (Option-cases (lookup n p.connections)) [
    | inl absent ↦ rw (get_connection, absent) v
    | inr (id, found) ↦ rw (get_connection, found) (use_entry-Tidy p l n id v)
  ]

  -- A name that leaves the map, its entry being closed.
  pub retired-IsTidy :
      (p : P) (l : L) (n : Text) (id : ℕ)
      → lookup n p.connections ≡ some id
      → Tidy (p, l)
      → IsTidy p.entries (delete n p.connections) (close_entry (counted g) p l id)
  unfolding close_entry
  retired-IsTidy p l n id found v = elim (Option-cases (get_elem? p.entries id)) [
    | inl absent ↦ rw (close_entry, absent) (delete-IsTidy p.entries p.connections l v n)
    | inr (e, there) ↦ elim (Option-cases e.conn) [
      | inl unused ↦ rw (close_entry, there, unused) (delete-IsTidy p.entries p.connections l v n)
      | inr (conn, made) ↦
          rw (close_entry, there, made)
            (close-IsTidy p.entries p.connections l v n id conn.0 _ found
              (number_at-entry p.entries id e there ∙ rw made refl))
    ]
  ]

  update_connection-Tidy :
      (p : P) (l : L) (n a : Text)
      → Tidy (p, l)
      → Tidy ((update_connection (counted g) p l n a).1, (update_connection (counted g) p l n a).2)
  unfolding update_connection put_entry
  update_connection-Tidy p l n a v = elim (Option-cases (lookup n p.connections)) [
    | inl absent ↦ rw (update_connection, absent) v
    | inr (id, found) ↦
        rw (update_connection, found)
          (append-IsTidy p.entries (delete n p.connections) (close_entry (counted g) p l id)
            (retired-IsTidy p l n id found v) (insert n (length p.entries) p.connections) n
            (new_entry (counted g) a) refl
            (insert-KeysOnce n (length p.entries) p.connections v.keys_once)
            (λ k. ground (
              arith,
              lookup-insert k n (length p.entries) p.connections,
              lookup-delete k n p.connections,
            )))
  ]

  remove_connection-Tidy :
      (p : P) (l : L) (n : Text)
      → Tidy (p, l)
      → Tidy ((remove_connection (counted g) p l n).1, (remove_connection (counted g) p l n).2)
  unfolding remove_connection
  remove_connection-Tidy p l n v = elim (Option-cases (lookup n p.connections)) [
    | inl absent ↦ rw (remove_connection, absent) v
    | inr (id, found) ↦ rw (remove_connection, found) (retired-IsTidy p l n id found v)
  ]

  -- The loop of `Close` takes the names out of the map one by one.
  close_all-IsTidy :
      (p : P) (l : L) (m : Assoc ℕ)
      → IsTidy p.entries m l
      → IsTidy p.entries [] (close_all (counted g) p l m)
  unfolding close_all close_entry lookup delete
  close_all-IsTidy p l [] v = v
  close_all-IsTidy p l ((n, id) ∷ m) v =
      let head : P = record { entries = p.entries; connections = (n, id) ∷ m } in
      let found : lookup n ((n, id) ∷ m) ≡ some id = rw (text_eq_refl n) refl in
      let rest : delete n ((n, id) ∷ m) ≡ m =
        rw (text_eq_refl n) (delete_absent n m v.keys_once.0) in
      close_all-IsTidy p (close_entry (counted g) p l id) m (
        subst (λ z. IsTidy p.entries z (close_entry (counted g) p l id)) rest
          (retired-IsTidy head l n id found v))

  close_pool-Tidy : (p : P) (l : L) → Tidy (p, l) → Tidy (close_pool (counted g) p l)
  unfolding close_pool
  close_pool-Tidy p l v = close_all-IsTidy p l p.connections v

  pub step-Tidy : (s : State g) (c : Call) → Tidy s → Tidy (step g s c)
  unfolding step
  step-Tidy (p, l) (add name addr) v = add_connection-Tidy p l name addr v
  step-Tidy (p, l) (get name) v = get_connection-Tidy p l name v
  step-Tidy (p, l) (late name id) v = use_entry-Tidy p l name id v
  step-Tidy (p, l) (update name addr) v = update_connection-Tidy p l name addr v
  step-Tidy (p, l) (remove name) v = remove_connection-Tidy p l name v
  step-Tidy (p, l) close_it v = close_pool-Tidy p l v

  pub run-Tidy : (s : State g) (cs : List Call) → Tidy s → Tidy (run g s cs)
  unfolding run
  run-Tidy s [] v = v
  run-Tidy s (c ∷ cs) v = run-Tidy (step g s c) cs (step-Tidy s c v)
