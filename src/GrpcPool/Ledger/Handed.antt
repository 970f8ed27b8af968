-- ===== src/GrpcPool/Ledger/Handed.antt =====
-- Rows of calls of the pool (cluster/grpc_pool.go), `GetConnection` in two parts: no connection is closed
-- twice, and none that was closed is handed out.
use qa_d.Base.{
  ℕ, ◌<◌, ◌≡◌, refl, ap, ◌∙◌, Bool-cases, false, List, some, Option-cases, Text, get_elem?, lookup,
  inl, inr,
}
use qa_d.Proto.{Reply, reply}
use qa_d.GrpcPool.{Grpc, PoolError, dial, conn_of, use_entry, get_connection}
use qa_d.GrpcPool.Kept.{get_connection-places}
use qa_d.GrpcPool.Ledger.{has, Once, Call, counted, start, run}
use qa_d.GrpcPool.Ledger.Tidy.{number_at, number_at-entry}
use qa_d.GrpcPool.Ledger.Run.{P, L, start-Tidy, run-Tidy, get_connection-Tidy}

module _ (g : Grpc) where
  conn_of-entry :
      (p : P g) (n : Text) (id : ℕ) (c : ℕ × g.Conn)
      → conn_of (counted g) p n id ≡ reply c
      → number_at p.entries id ≡ some c.0
  unfolding conn_of
  conn_of-entry p n id c h = elim (Option-cases (get_elem? p.entries id)) [
    | inl absent ↦ cc (rw (absent, conn_of) at h)
    | inr (e, there) ↦ elim (Option-cases e.conn) [
      | inl unused ↦ cc (rw (there, conn_of, unused) at h)
      | inr (d, made) ↦
          let same : d ≡ c = cc (rw (there, conn_of, made) at h) in
          number_at-entry p.entries id e there ∙ rw (made, same) refl
    ]
  ]

  use_entry-conn_of :
      (p : P g) (l : L g) (n : Text) (id : ℕ) (c : ℕ × g.Conn)
      → (use_entry (counted g) p l n id).0 ≡ reply c
      → conn_of (counted g) (use_entry (counted g) p l n id).1 n id ≡ reply c
  unfolding use_entry
  use_entry-conn_of p l n id c h = elim (Option-cases (get_elem? p.entries id)) [
    | inl absent ↦ cc (rw (absent, use_entry) at h)
    | inr (e, there) ↦ elim (Bool-cases e.once) [
      | inl used ↦ rw (use_entry, there, used) (rw (use_entry, there, used) at h)
      | inr fresh ↦ elim (Option-cases (dial (counted g) p l id e).0) [
        | inl good ↦ rw (use_entry, there, fresh, good) (rw (use_entry, there, fresh, good) at h)
        | inr (x, bad) ↦ cc (rw (use_entry, there, fresh, bad) at h)
      ]
    ]
  ]

  -- The connection that `GetConnection` hands out stands in the entry of the name.
  handed-number :
      (p : P g) (l : L g) (n : Text) (c : ℕ × g.Conn)
      → (get_connection (counted g) p l n).0 ≡ reply c
      → (id : ℕ) × (lookup n (get_connection (counted g) p l n).1.connections ≡ some id)
        × (number_at (get_connection (counted g) p l n).1.entries id ≡ some c.0)
  unfolding get_connection
  handed-number p l n c h = elim (Option-cases (lookup n p.connections)) [
    | inl absent ↦ cc (rw (absent, get_connection) at h)
    | inr (id, found) ↦ (
      id,
      ap (lookup n) (get_connection-places (counted g) p l n).0 ∙ found,
      rw (get_connection, found)
          (conn_of-entry (use_entry (counted g) p l n id).1 n id c
            (use_entry-conn_of p l n id c (rw (get_connection, found) at h))),
    )
  ]

  -- A `GetConnection` after calls of a new pool.
  abbrev pub got : g.World → List Call → Text → Reply (PoolError g.Error) (ℕ × g.Conn) × P g × L g
  got w cs n = get_connection (counted g) (run g (start g w) cs).0 (run g (start g w) cs).1 n

  -- After any calls of a new pool, among them ends of `GetConnection` that found their entry at any earlier
  -- time, no connection was closed twice, and the connection that `GetConnection` hands out for a name was
  -- made and was not closed.
  pub handed_open :
      (w : g.World) (cs : List Call) (n : Text) (c : ℕ × g.Conn)
      → (got w cs n).0 ≡ reply c
      → Once (got w cs n).2.closed
        × (c.0 < (got w cs n).2.made)
        × (has (got w cs n).2.closed c.0 ≡ false)
  handed_open w cs n c h =
      let s = run g (start g w) cs in
      let tidy = get_connection-Tidy g s.0 s.1 n (run-Tidy g (start g w) cs (start-Tidy g w)) in
      let (id, found, number) = handed-number s.0 s.1 n c h in
      (tidy.closed_once, tidy.below id c.0 number, tidy.still_open n id c.0 found number)
