-- ===== src/GrpcPool/Ledger/Tests.antt =====
-- A row of calls of the pool, with its connections numbered (cluster/grpc_pool.go).
use qa_d.Base.{
  ◌<◌, ◌≡◌, ◌↔◌, refl, true, false, List, [], ◌∷◌, Text, codes, text_eq, lookup, insert,
}
use qa_d.Proto.{reply}
use qa_d.GrpcPool.{
  new_pool, put_entry, add_connection, dial, conn_of, use_entry, get_connection, close_entry,
  update_connection, close_all, close_pool,
}
use qa_d.GrpcPool.Tests.{network}
use qa_d.GrpcPool.Ledger.{has, Once, Call, add, get, late, update, start, step, run}
use qa_d.GrpcPool.Ledger.Handed.{got, handed_open}
use qa_d.GrpcPool.Ledger.Balance.{AreTame, at_end, close-closes_all}

abbrev a : Text
a = codes "a"

abbrev addr : Text
addr = codes "10.0.0.1:7946"

abbrev tame_calls : List Call
tame_calls = add a addr ∷ get a ∷ update a (codes "h:2") ∷ get a ∷ []

-- The last dial of the first entry comes after the update of its name.
abbrev calls : List Call
calls = add a addr ∷ update a (codes "h:2") ∷ get a ∷ late a 0 ∷ []

handed : (got network 5 calls a).0 ≡ reply (0, 5)
unfolding run step new_pool put_entry add_connection dial conn_of use_entry get_connection
    close_entry update_connection text_eq lookup insert
handed = refl

handed_open_example :
    Once (got network 5 calls a).2.closed
    × (0 < (got network 5 calls a).2.made)
    × (has (got network 5 calls a).2.closed 0 ≡ false)
handed_open_example = handed_open network 5 calls a (0, 5) handed

calls-AreTame : AreTame network (start network 5) tame_calls
unfolding lookup new_pool
calls-AreTame = (refl, (tt, (tt, (tt, tt))))

close-closes_all_example :
    Once (at_end network 5 tame_calls).closed
    × ((has (at_end network 5 tame_calls).closed 1 ≡ true)
        ↔ (1 < (at_end network 5 tame_calls).made))
close-closes_all_example = close-closes_all network 5 tame_calls 1 calls-AreTame

closed_at_end : (at_end network 5 tame_calls).closed ≡ 1 ∷ 0 ∷ []
unfolding run step new_pool put_entry add_connection dial conn_of use_entry get_connection
    close_entry update_connection close_all close_pool text_eq lookup insert
closed_at_end = refl
