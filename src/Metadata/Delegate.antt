-- ===== src/Metadata/Delegate.antt =====
-- What the other nodes get from the delegate (cluster/delegate.go), and what they read in it.
use qa_d.Base.{
  ℕ, zero, suc, ◌≤◌, ◌≡◌, refl, ap, Bool-cases, false, List, [], ◌∷◌, length, take, ltb, ltb→le,
  arith, inl, inr, ◌⊎◌,
}
use qa_d.Proto.{Reply, reply, fail}
use qa_d.Metadata.{
  NodeMeta, MetadataDelegate, check_size, cut, wrap_error, marshal, unmarshal, node_meta_data,
}

length-take : {A : Type 0} (n : ℕ) (xs : List A) → length (take n xs) ≤ n
length-take zero xs = omega arith
length-take (suc n) [] = omega arith
length-take (suc n) (x ∷ xs) = omega (arith, length-take n xs)

module _ {Error : Type 0} (encode : NodeMeta → Reply Error (List ℕ))
    (decode : List ℕ → Reply Error NodeMeta) where
  -- The documented behaviour of `encoding/json` on a struct of strings: what `Marshal` returns,
  -- `Unmarshal` reads back.
  abbrev pub RoundTrips : Type 0
  RoundTrips = (m : NodeMeta) (json : List ℕ) → encode m ≡ reply json → decode json ≡ reply m

  cut-length : (limit : ℕ) (r : Reply Error (List ℕ)) → length (cut limit (check_size r)) ≤ limit
  unfolding cut check_size
  cut-length limit (fail e) = omega arith
  cut-length limit (reply json) = ground (arith, length-take limit json)

  -- The metadata are never longer than the limit that `memberlist` gives.
  pub node_meta_data-length :
      (d : MetadataDelegate) (limit : ℕ) → length (node_meta_data encode decode d limit) ≤ limit
  unfolding node_meta_data marshal
  node_meta_data-length d limit = cut-length limit (encode d.node_meta)

  whole_or_empty :
      (m : NodeMeta) (limit : ℕ) (r : Reply Error (List ℕ))
      → 512 ≤ limit
      → encode m ≡ r
      → (encode m ≡ reply (cut limit (check_size r))) ⊎ (cut limit (check_size r) ≡ [])
  unfolding cut check_size
  whole_or_empty m limit (fail e) h eq = inr refl
  whole_or_empty m limit (reply json) h eq = elim (Bool-cases (ltb 512 (length json))) [
    | inl large ↦ inr (rw large refl)
    | inr small ↦
        let fits : ltb limit (length json) ≡ false =
          ground (arith, ltb→le 512 (length json) small) in
        inl (rw (small, fits) eq)
  ]

  -- Under a limit of 512 bytes or more the metadata are never cut off: another node reads in them
  -- the metadata of this node, where JSON round-trips, or they are empty.
  pub unmarshal-node_meta_data :
      RoundTrips
      → (d : MetadataDelegate) (limit : ℕ) → 512 ≤ limit
      → (unmarshal encode decode (node_meta_data encode decode d limit) ≡ reply d.node_meta)
        ⊎ (node_meta_data encode decode d limit ≡ [])
  unfolding unmarshal node_meta_data marshal wrap_error
  unmarshal-node_meta_data round_trips d limit h =
      elim (whole_or_empty d.node_meta limit (encode d.node_meta) h refl) [
        | inr empty ↦ inr empty
        | inl whole ↦ inl (ap wrap_error (round_trips d.node_meta _ whole))
      ]
