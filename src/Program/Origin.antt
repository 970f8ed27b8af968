-- ===== src/Program/Origin.antt =====
-- What a store holds and what the tasks write, by who sent it; the lemmas on the calls of a store.
use qa_d.Base.{
  ℕ, ◌≡◌, refl, sym, subst, ap, Bool, Bool-cases, true, false, List, [], ◌∷◌, ◌++◌, Option, none,
  some, Text, text_eq, text_eq_iff, ◌==◌, ◌⊎◌, inl, inr, All, ok, >>=-inverse, ok_injective,
  if◌then◌else◌,
}
use qa_d.Proto.{Key, KeyValuePair}
use qa_d.Storage.{Storage, Slice, slice, Held}
use qa_d.Ring.{ConsistentHashRing, node_of, node_of_direct}
use qa_d.GrpcServer
use qa_d.GrpcServer.{is_nil}
use qa_d.HttpServer.{Method, Task}
use qa_d.Program.Node.{PairFits}

module _ (P : Text → ℕ → Slice → Type 0) where
  -- A task that writes has what it writes from someone.
  abbrev pub TaskHas : Task → Type 0
  TaskHas (Task.write_value key hash value) = P key hash value
  TaskHas (Task.forward_post node key hash value) = Unit
  TaskHas (Task.delete_value key) = Unit

  abbrev pub PairHas : Option KeyValuePair → Type 0
  PairHas none = Unit
  PairHas (some pair) = P pair.key pair.hash pair.value

  -- What a `POST` sends: its body, for the key in its path.
  abbrev pub PostHas : (Text → ℕ) → Text → Method → Option (List ℕ) → Type 0
  PostHas sum64 key Method.post (some body) = P key (sum64 key) (slice body)
  PostHas sum64 key Method.post none = Unit
  PostHas sum64 key Method.get body = Unit
  PostHas sum64 key Method.delete body = Unit
  PostHas sum64 key Method.other_method body = Unit

  abbrev pub HeldHas : Text → Held → Type 0
  HeldHas q none = Unit
  HeldHas q (some (h, v)) = P q h v

  module _ (store : Storage) where
    open store use {State, held}

    -- Everything that a store holds.
    abbrev pub AllHeld : State → Type 0
    AllHeld s = (q : Text) → HeldHas q (held s q)

    pub unchanged :
        (s t : State)
        → ((q : Text) → (held t q ≡ held s q) ⊎ (held t q ≡ none))
        → AllHeld s
        → AllHeld t
    unchanged s t same a q = elim (same q) [
      | inl old ↦ subst (HeldHas q) (sym old) (a q)
      | inr gone ↦ subst (HeldHas q) (sym gone) tt
    ]

    pub written :
        (s : State) (k : Text) (h : ℕ) (v : Slice)
        → store.IsValid s
        → store.Room s v
        → P k h v
        → AllHeld s
        → AllHeld (store.write s k h v)
    written s k h v valid room p a q = elim (store.write_held s k h v q valid room) [
      | inl gone ↦ subst (HeldHas q) (sym gone) tt
      | inr now ↦ subst (HeldHas q) (sym now) (go (text_eq k q) refl)
    ]
      where
        go : (b : Bool) → text_eq k q ≡ b → HeldHas q (if b then some (h, v) else held s q)
        go true same = subst (λ n. P n h v) ((text_eq_iff k q).0 same) p
        go false other = a q

    pub deleted : (s : State) (k : Text) → store.IsValid s → AllHeld s → AllHeld (store.delete s k)
    deleted s k valid a q =
        subst (HeldHas q) (sym (store.delete_held s k q valid)) (go (text_eq k q))
      where
        go : (b : Bool) → HeldHas q (if b then none else held s q)
        go true = tt
        go false = a q

    pub read-AllHeld :
        (s : State) (cancelled : Bool) (key : Option Key)
        → store.IsValid s
        → AllHeld s
        → AllHeld (GrpcServer.read store s cancelled key).1
    unfolding GrpcServer.read
    read-AllHeld s true key v a = a
    read-AllHeld s false none v a = a
    read-AllHeld s false (some k) v a = elim (Bool-cases (text_eq k.key [])) [
      | inl empty ↦ rw (GrpcServer.read, empty) a
      | inr given ↦
          rw (GrpcServer.read, given) (unchanged s _ (λ q. inl (store.read_held s k.key q v)) a)
    ]

    pub write-AllHeld :
        (s : State) (cancelled : Bool) (pair : Option KeyValuePair)
        → store.IsValid s
        → PairFits store s pair
        → PairHas pair
        → AllHeld s
        → AllHeld (GrpcServer.write store s cancelled pair).1
    unfolding GrpcServer.write
    write-AllHeld s true pair v fit p a = a
    write-AllHeld s false none v fit p a = a
    write-AllHeld s false (some pair) v fit p a = elim (Bool-cases (text_eq pair.key [])) [
      | inl empty ↦ rw (GrpcServer.write, empty) a
      | inr given ↦ elim (Bool-cases (is_nil pair.value)) [
        | inl absent ↦ rw (GrpcServer.write, given, absent) a
        | inr there ↦ elim (Bool-cases (pair.hash == 0)) [
          | inl zero_hash ↦ rw (GrpcServer.write, given, there, zero_hash) a
          | inr hashed ↦
              rw (GrpcServer.write, given, there, hashed)
                (written s pair.key pair.hash pair.value v fit p a)
        ]
      ]
    ]

  pub All-insert :
      (before after : List Task) (t : Task)
      → All TaskHas (before ++ t ∷ after)
      → TaskHas t × All TaskHas (before ++ after)
  All-insert [] later t a = (a.0, a.1)
  All-insert (x ∷ before) later t a =
      let (h, rest) = All-insert before later t a.1 in (h, (a.0, rest))

  pub All-snoc :
      (ts : List Task) (t : Task) → All TaskHas ts → TaskHas t → All TaskHas (ts ++ t ∷ [])
  All-snoc [] t a h = (h, tt)
  All-snoc (x ∷ ts) t a h = (a.0, All-snoc ts t a.1 h)

-- The hash that the ring finds a key by is the sum of the key.
pub node_of-hash :
    (sum64 : Text → ℕ) (c : ConsistentHashRing) (key : Text) {hash : ℕ} {target : Text}
    → node_of sum64 c key ≡ ok (hash, target)
    → sum64 key ≡ hash
unfolding node_of
node_of-hash sum64 c key {hash} {target} e =
    let (name, found, same) = >>=-inverse (node_of_direct c (sum64 key)) _ e in
    ap (λ r. r.0) (ok_injective same)
