-- ===== src/TwoNodes/HandOver.antt =====
-- The hand-over of a key by `NotifyJoin` (cluster/event_handler.go) to a node whose service
-- (grpc_server/index.go) takes it.
use qa_d.Base.{
  ℕ, ◌≡◌, refl, ap, ◌∙◌, Bool, Bool-cases, false, true, not, [], ◌∷◌, ◌||◌, ◌&&◌, some, none, Text,
  text_eq, if◌then◌else◌, ◌==◌, inl, inr,
}
use qa_d.Storage.{Storage, Slice, nil, slice, held_value}
use qa_d.Proto.{KeyValuePair, Status, Void, void, Reply, reply, fail}
use qa_d.GrpcPool.{Grpc, Pool, get_connection}
use qa_d.GrpcPool.Clients.{Errors, widen}
use qa_d.GrpcServer
use qa_d.GrpcServer.{is_nil}
use qa_d.EventHandler.{Cluster, pair_of, written, with_client, hand_over}
use qa_d.TwoNodes.{Link, WriteArrives, decoded}

abbrev is_empty : Slice → Bool
is_empty nil = true
is_empty (slice []) = true
is_empty (slice (b ∷ bs)) = false

-- A pair with a key, with a byte in its value, and with a hash.
abbrev pub is_full : KeyValuePair → Bool
is_full p = not (text_eq p.key [] || is_empty p.value || p.hash == 0)

-- What the service answers to a pair that arrives.
abbrev Takes :
    (there : Storage) → there.State → KeyValuePair → Reply Status Void × there.State → Type 0
Takes there s p run =
    if is_full p
    then run ≡ (reply void, there.write s p.key p.hash p.value)
    else (e : Status) × (run ≡ (fail e, s))

write-Takes :
    (there : Storage) (s : there.State) (key : Text) (hash : ℕ) (value : Slice)
    → Takes there s
        (record { key = key; hash = hash; value = value })
        (GrpcServer.write there s false
          (some (record { key = key; hash = hash; value = decoded value })))
unfolding GrpcServer.write text_eq
write-Takes there s [] hash value = (_, refl)
write-Takes there s (k ∷ ks) hash nil = (_, refl)
write-Takes there s (k ∷ ks) hash (slice []) = (_, refl)
write-Takes there s (k ∷ ks) hash (slice (b ∷ bs)) = elim (Bool-cases (hash == 0)) [
  | inl zero_hash ↦ rw zero_hash (_, refl)
  | inr hashed ↦ rw hashed refl
]

module _ (g : Grpc) (errors : Errors g) (here there : Storage) (link : Link g errors there)
    (local : Text) where
  open link use {remote, of_status}

  abbrev pair : Cluster g here → Text → ℕ → KeyValuePair
  pair c key hash = pair_of g here local c key hash

  hand_over-with_client :
      (c : Cluster g here) (target key : Text) (hash : ℕ) (conn : g.Conn) (p : Pool g.Conn)
      (w w₁ : g.World) (answer : Reply g.Error Void)
      → get_connection g c.pool c.world target ≡ (reply conn, p, w)
      → g.write w conn (pair c key hash) ≡ (answer, w₁)
      → hand_over g here local c target key hash
        ≡ written g here local c p w₁ target key hash answer
  unfolding hand_over with_client
  hand_over-with_client c target key hash conn p w w₁ answer found a =
      rw (hand_over, found, found, with_client, a) refl

  -- A hand-over whose call arrives moves the key or leaves it: a pair
  -- with a key, with a byte in its value and with a hash is written to the store of the other node, is gone
  -- here, and the loop goes on. Any other pair is refused there, is kept here, and ends the loop. Every
  -- other key stays as it was.
  pub hand_over_arrives :
      (c : Cluster g here) (target key : Text) (hash : ℕ) (conn : g.Conn) (p : Pool g.Conn)
      (w w₁ : g.World) (q : Text)
      → here.IsValid c.local
      → get_connection g c.pool c.world target ≡ (reply conn, p, w)
      → WriteArrives g errors there link w conn (pair_of g here local c key hash) w₁
      → ((hand_over g here local c target key hash).0 ≡ is_full (pair_of g here local c key hash))
        × (here.held (hand_over g here local c target key hash).1.local q ≡ (
            if is_full (pair_of g here local c key hash) && text_eq key q
            then none
            else here.held c.local q))
        × (remote (hand_over g here local c target key hash).1.world ≡ (
            if is_full (pair_of g here local c key hash)
            then there.write (remote w) key hash (held_value (here.held c.local key))
            else remote w))
  unfolding written
  hand_over_arrives c target key hash conn p w w₁ q v found (arrives, after) =
      let takes = write-Takes there (remote w) key hash (here.read c.local key).0 in
      let s = (here.read c.local key).1 in
      elim (Bool-cases (is_full (pair c key hash))) [
        | inl full ↦
            let took = rw full at takes in
            let run =
              hand_over-with_client c target key hash conn p w w₁ (reply void) found
                (arrives ∙ ap (λ r. (widen of_status r.0, w₁)) took) in
            rw (run, written, full)
              (
                refl,
                here.delete_held s key q (here.read_valid c.local key v)
                    ∙ ap (λ h. if text_eq key q then none else h) (here.read_held c.local key q v),
                after
                    ∙ ap (λ r. r.1) took
                    ∙ ap (there.write (remote w) key hash) (here.read_value c.local key v),
              )
        | inr bare ↦
            let (e, refused) = rw bare at takes in
            let run =
              hand_over-with_client c target key hash conn p w w₁ (fail (of_status e)) found
                (arrives ∙ ap (λ r. (widen of_status r.0, w₁)) refused) in
            rw (run, written, bare)
              (refl, here.read_held c.local key q v, after ∙ ap (λ r. r.1) refused)
      ]
