-- ===== src/EventHandler/Delivery.antt =====
-- What becomes of the keys of a store when a node joins (cluster/event_handler.go, `NotifyJoin`).
use qa_d.Base.{
  ℕ, ◌≡◌, ◌⊎◌, refl, sym, subst, ap, ◌∙◌, Bool, Bool-cases, true, List, [], ◌∷◌, Option, none, some,
  Text, text_eq, text_eq_iff, text_eq_refl, ok, >>=-inverse, ok_injective, Assoc, lookup, arith,
  inl, inr, ◌↔◌,
}
use qa_d.Storage.{Storage, Slice, held_value, held_hash}
use qa_d.Proto.{KeyValuePair}
use qa_d.Ring.{add_node, node_of_direct}
use qa_d.GrpcPool.{Grpc}
use qa_d.Metadata.{NodeMeta}
use qa_d.EventHandler.{Node, Cluster, transfer, connect, joined, notify_join}
use qa_d.EventHandler.Transfer.{
  stopped, taken, HandedOver-valid, Transferred, ended, kept, moved, broke, Ran, transfer-Ran,
}

-- A pair with this key and this value was handed over.
abbrev pub Delivered : Text → Slice → List (Text × KeyValuePair) → Type 0
Delivered q v [] = ⊥
Delivered q v ((node, p) ∷ sent) = ((p.key ≡ q) × (p.value ≡ v)) ⊎ Delivered q v sent

-- The pair of a key and a hash is in a list.
abbrev pub Listed : Text → ℕ → Assoc ℕ → Type 0
Listed q h [] = ⊥
Listed q h ((k, j) ∷ keys) = ((k ≡ q) × (j ≡ h)) ⊎ Listed q h keys

-- A list is an order of the entries of a map.
abbrev pub IsOrderOf : Assoc ℕ → Assoc ℕ → Type 0
IsOrderOf keys m = (q : Text) (h : ℕ) → (Listed q h keys ↔ (lookup q m ≡ some h))

module _ (g : Grpc) (store : Storage) (local : Text) where
  open store use {held}

  Transferred-Delivered :
      {keys : Assoc ℕ} {c : Cluster g store} {b : Bool} {d : Cluster g store} (q : Text) (v : Slice)
      → Transferred g store local keys c b d
      → Delivered q v c.sent
      → Delivered q v d.sent
  Transferred-Delivered q v (ended c) r = r
  Transferred-Delivered q v (kept k h ks c b d n t) r = Transferred-Delivered q v t r
  Transferred-Delivered q v (moved k h ks c e b d t n o (taken _ t' hq ve s re) rest) r =
      Transferred-Delivered q v rest (rw s (inr r))
  Transferred-Delivered q v (broke k h ks c d t n o (stopped _ hq vd s rd)) r = rw s r

  pub Transferred-ring :
      {keys : Assoc ℕ} {c : Cluster g store} {b : Bool} {d : Cluster g store}
      → Transferred g store local keys c b d
      → d.ring ≡ c.ring
  Transferred-ring (ended c) = refl
  Transferred-ring (kept k h ks c b d n t) = Transferred-ring t
  Transferred-ring (moved k h ks c e b d t n o (taken _ t' hq ve s re) rest) =
      Transferred-ring rest ∙ re
  Transferred-ring (broke k h ks c d t n o (stopped _ hq vd s rd)) = rd

  pub Transferred-valid :
      {keys : Assoc ℕ} {c : Cluster g store} {b : Bool} {d : Cluster g store}
      → Transferred g store local keys c b d
      → store.IsValid c.local
      → store.IsValid d.local
  Transferred-valid (ended c) v = v
  Transferred-valid (kept k h ks c b d n t) v = Transferred-valid t v
  Transferred-valid (moved k h ks c e b d t n o handed rest) v =
      Transferred-valid rest (HandedOver-valid g store local handed)
  Transferred-valid (broke k h ks c d t n o handed) v = HandedOver-valid g store local handed

  -- The state of a key after the loop: as it was, or gone and delivered with the value it had.
  abbrev pub IsSafe : Cluster g store → Cluster g store → Text → Type 0
  IsSafe c d q =
      (held d.local q ≡ held c.local q)
      ⊎ ((held d.local q ≡ none) × Delivered q (held_value (held c.local q)) d.sent)

  Transferred-IsSafe :
      {keys : Assoc ℕ} {c : Cluster g store} {b : Bool} {d : Cluster g store} (q : Text)
      → Transferred g store local keys c b d
      → store.IsValid c.local
      → IsSafe c d q
  Transferred-IsSafe q (ended c) v = inl refl
  Transferred-IsSafe q (kept k h ks c b d n t) v = Transferred-IsSafe q t v
  Transferred-IsSafe q (moved k h ks c e b d t n o (taken _ t' hq ve s re) rest) v =
      elim (Bool-cases (text_eq k q)) [
        | inl same ↦
            let there : Delivered q (held_value (held c.local q)) e.sent = rw s (
              inl (
                (text_eq_iff k q).0 same,
                store.read_value c.local k v
                    ∙ ap (λ x. held_value (held c.local x)) ((text_eq_iff k q).0 same),
              )) in
            let gone : held e.local q ≡ none = hq q ∙ rw same refl in
            let gone_after : held d.local q ≡ none = elim (Transferred-IsSafe q rest ve) [
              | inl stays ↦ stays ∙ gone
              | inr (none_left, r) ↦ none_left
            ] in
            inr (gone_after, Transferred-Delivered q _ rest there)
        | inr other ↦
            let stays : held e.local q ≡ held c.local q = hq q ∙ rw other refl in
            subst
              (λ x.
                (held d.local q ≡ x)
                ⊎ ((held d.local q ≡ none) × Delivered q (held_value x) d.sent))
              stays (Transferred-IsSafe q rest ve)
      ]
  Transferred-IsSafe q (broke k h ks c d t n o (stopped _ hq vd s rd)) v = inl (hq q)

  Transferred-own :
      {keys : Assoc ℕ} {c : Cluster g store} {b : Bool} {d : Cluster g store} (q : Text)
      → Transferred g store local keys c b d
      → store.IsValid c.local
      → ((h : ℕ) → Listed q h keys → node_of_direct c.ring h ≡ ok local)
      → held d.local q ≡ held c.local q
  Transferred-own q (ended c) v own = refl
  Transferred-own q (kept k h ks c b d n t) v own = Transferred-own q t v (λ j l. own j (inr l))
  Transferred-own q (moved k h ks c e b d t n o (taken _ t' hq ve s re) rest) v own =
      elim (Bool-cases (text_eq k q)) [
        | inl same ↦
            absurd (o (ok_injective (sym n ∙ own h (inl ((text_eq_iff k q).0 same, refl)))))
        | inr other ↦
            Transferred-own q rest ve (λ j l. rw re (own j (inr l))) ∙ hq q ∙ rw other refl
      ]
  Transferred-own q (broke k h ks c d t n o (stopped _ hq vd s rd)) v own = hq q

  Transferred-all :
      {keys : Assoc ℕ} {c : Cluster g store} {b : Bool} {d : Cluster g store} (q : Text) (h : ℕ)
      → Transferred g store local keys c b d
      → store.IsValid c.local
      → b ≡ true
      → Listed q h keys
      → (held d.local q ≡ none) ⊎ (node_of_direct c.ring h ≡ ok local)
  Transferred-all q h (ended c) v on l = elim l [ ]
  Transferred-all q h (kept k j ks c b d n t) v on (inl (same, e)) = inr (rw (← e) n)
  Transferred-all q h (kept k j ks c b d n t) v on (inr l) = Transferred-all q h t v on l
  Transferred-all q h (moved k j ks c e b d t n o (taken _ t' hq ve s re) rest) v on
        (inl (same, _)) =
      let gone : held e.local q ≡ none = hq q ∙ rw (same, text_eq_refl q) refl in
      inl (elim (Transferred-IsSafe q rest ve) [
        | inl stays ↦ stays ∙ gone
        | inr (none_left, r) ↦ none_left
      ])
  Transferred-all q h (moved k j ks c e b d t n o (taken _ t' hq ve s re) rest) v on (inr l) =
      elim (Transferred-all q h rest ve on l) [
        | inl gone ↦ inl gone
        | inr own ↦ inr (rw (← re) own)
      ]
  Transferred-all q h (broke k j ks c d t n o handed) v on l = absurd cc

  -- A run of the loop, from its result.
  pub transfer-Transferred :
      (keys : Assoc ℕ) (c : Cluster g store) {b : Bool} {d : Cluster g store}
      → store.IsValid c.local
      → transfer g store local keys c ≡ ok (b, d)
      → Transferred g store local keys c b d
  transfer-Transferred keys c v e =
      subst (Ran g store local keys c) e (transfer-Ran g store local keys c v)

  -- When the loop over the keys of a valid store returns, early or not, every key that the ring
  -- assigns to this node has the hash and the value that it had; the ring is unchanged and the
  -- store is valid.
  pub transfer-keeps_own :
      (keys : Assoc ℕ) (c d : Cluster g store) (b : Bool) (q : Text) (h : ℕ) (x : Slice)
      → store.IsValid c.local
      → IsOrderOf keys (store.list_keys c.local)
      → transfer g store local keys c ≡ ok (b, d)
      → held c.local q ≡ some (h, x)
      → node_of_direct c.ring h ≡ ok local
      → (held d.local q ≡ some (h, x)) × (d.ring ≡ c.ring) × store.IsValid d.local
  transfer-keeps_own keys c d b q h x v order e has own =
      let t = transfer-Transferred keys c v e in
      let listed = store.list_keys_held c.local q v ∙ ap held_hash has in
      let all_own : (j : ℕ) → Listed q j keys → node_of_direct c.ring j ≡ ok local = λ j l.
        let same : some j ≡ some h = sym ((order q j).0 l) ∙ listed in ground (arith, own, same) in
      (Transferred-own q t v all_own ∙ has, Transferred-ring t, Transferred-valid t v)

  -- When the loop over the keys of a valid store came to its end, every key that is still in the
  -- store is one that the ring assigns to this node.
  pub transfer-leaves_own :
      (keys : Assoc ℕ) (c d : Cluster g store) (q : Text) (h : ℕ) (x : Slice)
      → store.IsValid c.local
      → IsOrderOf keys (store.list_keys c.local)
      → transfer g store local keys c ≡ ok (true, d)
      → held d.local q ≡ some (h, x)
      → node_of_direct d.ring h ≡ ok local
  transfer-leaves_own keys c d q h x v order e has =
      let t = transfer-Transferred keys c v e in
      let before : held c.local q ≡ some (h, x) = elim (Transferred-IsSafe q t v) [
        | inl stays ↦ sym stays ∙ has
        | inr (gone, r) ↦ absurd cc
      ] in
      let listed = (order q h).1 (store.list_keys_held c.local q v ∙ ap held_hash before) in
      elim (Transferred-all q h t v refl listed) [
        | inl gone ↦ absurd cc
        | inr own ↦ rw (Transferred-ring t) own
      ]

  joined-IsSafe :
      (sum64 : Text → ℕ) (unmarshal : List ℕ → Option NodeMeta) (grpc_port : ℕ)
      (c d : Cluster g store) (node : Node) (keys : Assoc ℕ) (meta : Option NodeMeta) (q : Text)
      → store.IsValid c.local
      → joined g store local sum64 unmarshal grpc_port c node keys meta ≡ ok d
      → IsSafe c d q
  unfolding joined
  joined-IsSafe sum64 unmarshal grpc_port c d node keys none q v e =
      inl (ap (λ z. held z.local q) (sym (ok_injective e)))
  joined-IsSafe sum64 unmarshal grpc_port c d node keys (some meta) q v e =
      let start = connect g store local sum64 unmarshal grpc_port c node.name meta.grpc_addr in
      let ((b, last), ran, same) = >>=-inverse (transfer g store local keys start) _ e in
      subst (λ z. IsSafe c z q) (ok_injective same)
        (Transferred-IsSafe q (transfer-Transferred keys start v ran) v)

  -- `NotifyJoin` over a valid store, when it returns, has lost no value: every key is as it was, or
  -- it is gone from the store and its value was handed over to a node that took it.
  pub notify_join-IsSafe :
      (sum64 : Text → ℕ) (unmarshal : List ℕ → Option NodeMeta) (grpc_port : ℕ)
      (c d : Cluster g store) (node : Node) (keys : Assoc ℕ) (q : Text)
      → store.IsValid c.local
      → notify_join g store local sum64 unmarshal grpc_port c node keys ≡ ok d
      → IsSafe c d q
  unfolding notify_join
  notify_join-IsSafe sum64 unmarshal grpc_port c d node keys q v e =
      elim (Bool-cases (text_eq node.name local)) [
        | inl self ↦
            let same : c ≡ d = ok_injective (rw (notify_join, self) at e) in
            inl (ap (λ z. held z.local q) (sym same))
        | inr other ↦
            let (ring, added, rest) =
              >>=-inverse (add_node sum64 c.ring node.name) _ (rw (notify_join, other) at e) in
            joined-IsSafe sum64 unmarshal grpc_port (record c { ring = ring }) d node keys
              (unmarshal node.meta) q v rest
      ]
