-- ===== src/GrpcServer/Behaviour.antt =====
-- What the service answers on every branch, and what a read returns after a write.
use qa_d.Base.{
  ◌≡◌, ◌≢◌, ◌⊎◌, ◌↔◌, refl, Bool, true, false, [], ◌∷◌, some, Text, text_eq_iff, arith, inl, inr,
  text_eq-false, text_eq_refl, ap, ◌∙◌,
}
use qa_d.Storage.{Storage, Slice, nil, slice, held_value}
use qa_d.Proto.{Key, KeyValuePair, void, reply, fail}
use qa_d.GrpcServer.{missing, answer, is_nil, read, write}

-- A pair that the service takes: with a key, a value and a hash.
abbrev pub IsAccepted : KeyValuePair → Type 0
IsAccepted p = (p.key ≢ []) × (p.value ≢ nil) × (p.hash ≢ 0)

is_nil_iff : (v : Slice) → (is_nil v ≡ true) ↔ (v ≡ nil)
is_nil_iff nil = ground arith
is_nil_iff (slice bytes) = ground arith

-- A value that is not `nil` is answered in one chunk.
answer_slice : (v : Slice) → v ≢ nil → answer v ≡ reply (record { payload = v ∷ [] })
answer_slice nil n = absurd (n refl)
answer_slice (slice bytes) n = refl

module _ (store : Storage) where
  open store use {State, held}

  -- A call of `Write` with a pair succeeds exactly where the request is live and the pair has a key, a
  -- value and a hash; then it is the write of the store, and else the store stays as it was.
  pub write_lem :
      (s : State) (cancelled : Bool) (p : KeyValuePair)
      → (((write store s cancelled (some p)).0 ≡ reply void) ↔ ((cancelled ≡ false) × IsAccepted p))
        × ((write store s cancelled (some p)).0 ≡ reply void
            → (write store s cancelled (some p)).1 ≡ store.write s p.key p.hash p.value)
        × ((write store s cancelled (some p)).0 ≢ reply void
            → (write store s cancelled (some p)).1 ≡ s)
  unfolding write
  write_lem s cancelled p = ground (arith, text_eq_iff p.key [], is_nil_iff p.value)

  -- `Read` of a valid store answers a live request for a key with the value that the store holds,
  -- in one chunk, and with `NotFound` where it holds none or a `nil` one; it changes nothing that
  -- the store holds.
  pub read_lem :
      (s : State) (k : Key)
      → store.IsValid s
      → k.key ≢ []
      → ((read store s false (some k)).0 ≡ answer (held_value (held s k.key)))
        × ((q : Text) → held (read store s false (some k)).1 q ≡ held s q)
  unfolding read
  read_lem s k v h =
      rw (text_eq-false k.key [] h)
        (ap answer (store.read_value s k.key v), λ q. store.read_held s k.key q v)

  -- The state behind a live `Read` for a key.
  pub read-state :
      (s : State) (k : Key) → k.key ≢ [] → (read store s false (some k)).1 ≡ (store.read s k.key).1
  unfolding read
  read-state s k h = rw (text_eq-false k.key [] h)

  -- On a valid store with room for the value, a read after a successful write answers with the
  -- value written, or with `NotFound` where the store has evicted it; it never answers with an
  -- older value.
  pub read-write_answer :
      (s : State) (p : KeyValuePair)
      → store.IsValid s
      → store.Room s p.value
      → (write store s false (some p)).0 ≡ reply void
      → ((read store (write store s false (some p)).1 false (some (record { key = p.key }))).0
          ≡ reply (record { payload = p.value ∷ [] }))
        ⊎ ((read store (write store s false (some p)).1 false (some (record { key = p.key }))).0
            ≡ fail missing)
  read-write_answer s p v room e =
      let (accepted, stored, refused) = write_lem s false p in
      let (live, (named, full, hashed)) = accepted.0 e in
      let s' = store.write s p.key p.hash p.value in
      let answered =
        read_lem s' (record { key = p.key }) (store.write_valid s p.key p.hash p.value v room)
          named in
      rw (stored e) (elim (store.write_held s p.key p.hash p.value p.key v room) [
        | inl gone ↦ inr (answered.0 ∙ ap (λ w. answer (held_value w)) gone)
        | inr there ↦ inl (
            answered.0
            ∙ ap (λ w. answer (held_value w)) there
            ∙ ground (arith, text_eq_refl p.key, answer_slice p.value full))
      ])
