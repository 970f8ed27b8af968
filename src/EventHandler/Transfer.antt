-- ===== src/EventHandler/Transfer.antt =====
-- The loop of `NotifyJoin` that hands keys over (cluster/event_handler.go), as a step relation:
-- what one hand-over does to the store and the history, and that each run of the loop is made of
-- such steps.
use qa_d.Base.{
  ℕ, ◌≡◌, ◌≢◌, refl, sym, subst, ap, ◌∙◌, Bool, Bool-cases, true, false, [], ◌∷◌, none, Text,
  text_eq, text_eq_iff, if◌then◌else◌, Outcome, ok, panic, Outcome-cases, Assoc, inl, inr,
}
use qa_d.Storage.{Storage}
use qa_d.Proto.{Void, Reply, reply, fail}
use qa_d.Ring.{node_of_direct}
use qa_d.GrpcPool.{Grpc, Pool, PoolError}
use qa_d.EventHandler.{Cluster, pair_of, written, with_client, hand_over, transfer}

module _ (g : Grpc) (store : Storage) (local : Text) where
  open store use {held}

  -- What a hand-over did: it stopped and the store has what it had, or it went on, the pair was
  -- taken, and the key is gone from the store.
  pub data HandedOver (c : Cluster g store) (key : Text) (hash : ℕ)
      : Bool → Cluster g store → Type 0 where
    stopped :
        (d : Cluster g store)
        → ((q : Text) → held d.local q ≡ held c.local q)
        → store.IsValid d.local
        → d.sent ≡ c.sent
        → d.ring ≡ c.ring
        → HandedOver c key hash false d
    taken :
        (d : Cluster g store) (target : Text)
        → ((q : Text) → held d.local q ≡ (if text_eq key q then none else held c.local q))
        → store.IsValid d.local
        → d.sent ≡ (target, pair_of g store local c key hash) ∷ c.sent
        → d.ring ≡ c.ring
        → HandedOver c key hash true d

  written-HandedOver :
      (c : Cluster g store) (pool : Pool g.Conn) (w : g.World) (target key : Text) (hash : ℕ)
      (answer : Reply g.Error Void)
      → store.IsValid c.local
      → HandedOver c key hash
          (written g store local c pool w target key hash answer).0
          (written g store local c pool w target key hash answer).1
  unfolding written
  written-HandedOver c pool w target key hash (fail e) v =
      stopped _ (λ q. store.read_held c.local key q v) (store.read_valid c.local key v) refl refl
  written-HandedOver c pool w target key hash (reply a) v =
      let s = (store.read c.local key).1 in
      let vs = store.read_valid c.local key v in
      taken _ target
        (λ q.
          store.delete_held s key q vs
          ∙ ap (λ h. if text_eq key q then none else h) (store.read_held c.local key q v))
        (store.delete_valid s key vs) refl refl

  with_client-HandedOver :
      (c : Cluster g store) (pool : Pool g.Conn) (w : g.World) (target key : Text) (hash : ℕ)
      (client : Reply (PoolError g.Error) g.Conn)
      → store.IsValid c.local
      → HandedOver c key hash
          (with_client g store local c pool w target key hash client).0
          (with_client g store local c pool w target key hash client).1
  unfolding with_client
  with_client-HandedOver c pool w target key hash (fail e) v = stopped _ (λ q. refl) v refl refl
  with_client-HandedOver c pool w target key hash (reply conn) v =
      written-HandedOver c pool _ target key hash _ v

  pub hand_over-HandedOver :
      (c : Cluster g store) (target key : Text) (hash : ℕ)
      → store.IsValid c.local
      → HandedOver c key hash
          (hand_over g store local c target key hash).0
          (hand_over g store local c target key hash).1
  unfolding hand_over
  hand_over-HandedOver c target key hash v = with_client-HandedOver c _ _ target key hash _ v

  -- A run of the loop, by the steps that it makes.
  pub data Transferred : Assoc ℕ → Cluster g store → Bool → Cluster g store → Type 0 where
    ended : (c : Cluster g store) → Transferred [] c true c
    kept :
        (key : Text) (hash : ℕ) (keys : Assoc ℕ) (c : Cluster g store) (b : Bool)
        (d : Cluster g store)
        → node_of_direct c.ring hash ≡ ok local
        → Transferred keys c b d
        → Transferred ((key, hash) ∷ keys) c b d
    moved :
        (key : Text) (hash : ℕ) (keys : Assoc ℕ) (c e : Cluster g store) (b : Bool)
        (d : Cluster g store) (target : Text)
        → node_of_direct c.ring hash ≡ ok target
        → target ≢ local
        → HandedOver c key hash true e
        → Transferred keys e b d
        → Transferred ((key, hash) ∷ keys) c b d
    broke :
        (key : Text) (hash : ℕ) (keys : Assoc ℕ) (c d : Cluster g store) (target : Text)
        → node_of_direct c.ring hash ≡ ok target
        → target ≢ local
        → HandedOver c key hash false d
        → Transferred ((key, hash) ∷ keys) c false d

  pub HandedOver-valid :
      {c : Cluster g store} {key : Text} {hash : ℕ} {b : Bool} {d : Cluster g store}
      → HandedOver c key hash b d
      → store.IsValid d.local
  HandedOver-valid (stopped d h v s r) = v
  HandedOver-valid (taken d t h v s r) = v

  pub HandedOver-ring :
      {c : Cluster g store} {key : Text} {hash : ℕ} {b : Bool} {d : Cluster g store}
      → HandedOver c key hash b d
      → d.ring ≡ c.ring
  HandedOver-ring (stopped d h v s r) = r
  HandedOver-ring (taken d t h v s r) = r

  -- What a call of the loop returned: a run, or a panic of the ring.
  abbrev pub Ran : Assoc ℕ → Cluster g store → Outcome (Bool × Cluster g store) → Type 0
  Ran keys c (ok (b, d)) = Transferred keys c b d
  Ran keys c (panic p) = Unit

  Ran-kept :
      (key : Text) (hash : ℕ) (keys : Assoc ℕ) (c : Cluster g store)
      (o : Outcome (Bool × Cluster g store))
      → node_of_direct c.ring hash ≡ ok local
      → Ran keys c o
      → Ran ((key, hash) ∷ keys) c o
  Ran-kept key hash keys c (ok (b, d)) n r = kept key hash keys c b d n r
  Ran-kept key hash keys c (panic p) n r = tt

  Ran-moved :
      (key : Text) (hash : ℕ) (keys : Assoc ℕ) (c e : Cluster g store) (target : Text)
      (o : Outcome (Bool × Cluster g store))
      → node_of_direct c.ring hash ≡ ok target
      → target ≢ local
      → HandedOver c key hash true e
      → Ran keys e o
      → Ran ((key, hash) ∷ keys) c o
  Ran-moved key hash keys c e target (ok (b, d)) n other h r =
      moved key hash keys c e b d target n other h r
  Ran-moved key hash keys c e target (panic p) n other h r = tt

  pub transfer-Ran :
      (keys : Assoc ℕ) (c : Cluster g store)
      → store.IsValid c.local
      → Ran keys c (transfer g store local keys c)
  unfolding transfer
  transfer-Ran [] c v = ended c
  transfer-Ran ((key, hash) ∷ keys) c v = elim (Outcome-cases (node_of_direct c.ring hash)) [
    | inr (p, lost) ↦ rw (transfer, lost) tt
    | inl (target, found) ↦ elim (Bool-cases (text_eq local target)) [
      | inl here ↦
          let own = found ∙ ap ok (sym ((text_eq_iff local target).0 here)) in
          rw (transfer, found, here) (Ran-kept key hash keys c _ own (transfer-Ran keys c v))
      | inr there ↦
          let other : target ≢ local = λ e. cc ((text_eq_iff local target).1 (sym e)) in
          let handed = hand_over-HandedOver c target key hash v in
          let d = (hand_over g store local c target key hash).1 in
          elim (Bool-cases (hand_over g store local c target key hash).0) [
            | inl on ↦
                let taken_over = subst (λ b. HandedOver c key hash b d) on handed in
                rw (transfer, found, there, on)
                  (Ran-moved key hash keys c d target _ found other taken_over
                    (transfer-Ran keys d (HandedOver-valid handed)))
            | inr off ↦
                rw (transfer, found, there, off)
                  (broke key hash keys c d target found other
                    (subst (λ b. HandedOver c key hash b d) off handed))
          ]
    ]
  ]
