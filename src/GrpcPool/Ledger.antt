-- ===== src/GrpcPool/Ledger.antt =====
-- The connections that the pool makes and closes (cluster/grpc_pool.go): a network that numbers the
-- connections and notes which were closed, and rows of calls of the pool.
pub mod Tidy
pub mod Changes
pub mod Run
pub mod Handed
pub mod Accounted
pub mod Balance
mod Tests
use qa_d.Base.{
  ℕ, zero, suc, ◌≡◌, Bool, true, false, List, [], ◌∷◌, ◌||◌, ◌==◌, Option, none, some, Text, Assoc,
  lookup, if◌then◌else◌,
}
use qa_d.Proto.{Reply, reply, fail}
use qa_d.GrpcPool.{
  Grpc, Pool, new_pool, add_connection, get_connection, use_entry, update_connection,
  remove_connection, close_pool,
}

-- Whether a number is in a list, and that none is twice in it.
abbrev pub has : List ℕ → ℕ → Bool
has [] k = false
has (x ∷ xs) k = x == k || has xs k

abbrev pub Once : List ℕ → Type 0
Once [] = Unit
Once (x ∷ xs) = (has xs x ≡ false) × Once xs

-- The network, how many connections were made, and the numbers of those that were closed.
pub record Ledger (World : Type 0) : Type 0 where
  pub world : World
  pub made : ℕ
  pub closed : List ℕ

-- A call of the pool. A `late` one is the rest of a `GetConnection` that found the entry at a place when
-- the map was perhaps another.
pub data Call : Type 0 where
  add : Text → Text → Call
  get : Text → Call
  late : Text → ℕ → Call
  update : Text → Text → Call
  remove : Text → Call
  close_it : Call

module _ (g : Grpc) where
  -- The answer of `NewClient`, with the number of the connection.
  abbrev pub numbered :
      Ledger g.World → Reply g.Error g.Conn × g.World → Reply g.Error (ℕ × g.Conn) × Ledger g.World
  numbered l (fail e, w) = (fail e, record l { world = w })
  numbered l (reply conn, w) = (reply (l.made, conn), record l { world = w; made = suc l.made })

  abbrev pub counted : Grpc
  counted = record {
    World = Ledger g.World;
    Conn = ℕ × g.Conn;
    Error = g.Error;
    new_client = λ l addr. numbered l (g.new_client l.world addr);
    close = λ l conn. (
      (g.close l.world conn.1).0,
      record l { world = (g.close l.world conn.1).1; closed = conn.0 ∷ l.closed },
    );
    read = λ l conn key.
        ((g.read l.world conn.1 key).0, record l { world = (g.read l.world conn.1 key).1 });
    write = λ l conn pair.
        ((g.write l.world conn.1 pair).0, record l { world = (g.write l.world conn.1 pair).1 });
  }

  abbrev pub State : Type 0
  State = Pool (ℕ × g.Conn) × Ledger g.World

  -- A pool without connections on a network that has made none.
  abbrev pub start : g.World → State
  start w = (new_pool counted, record { world = w; made = 0; closed = [] })

  -- What a call makes of the pool and the network.
  unfoldable pub step : State → Call → State
  step (p, l) (add name addr) = ((add_connection counted p name addr).1, l)
  step (p, l) (get name) =
      ((get_connection counted p l name).1, (get_connection counted p l name).2)
  step (p, l) (late name id) =
      ((use_entry counted p l name id).1, (use_entry counted p l name id).2)
  step (p, l) (update name addr) =
      ((update_connection counted p l name addr).1, (update_connection counted p l name addr).2)
  step (p, l) (remove name) =
      ((remove_connection counted p l name).1, (remove_connection counted p l name).2)
  step (p, l) close_it = close_pool counted p l

  unfoldable pub run : State → List Call → State
  unfolding step
  run s [] = s
  run s (c ∷ cs) = run (step s c) cs
