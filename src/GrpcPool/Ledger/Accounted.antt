-- ===== src/GrpcPool/Ledger/Accounted.antt =====
-- Which connections of the pool are still open (cluster/grpc_pool.go), under its single changes.
use qa_d.Base.{
  ℕ, suc, ◌<◌, ◌≡◌, ◌∙◌, Bool-cases, true, false, List, [], ◌∷◌, ◌++◌, ◌==◌, ==_iff, none, some,
  Text, text_eq, text_eq_iff, if◌then◌else◌, length, get_elem?, lt_of_get_elem?, set, Assoc, lookup,
  delete, lookup-delete, arith, inl, inr, ◌⊎◌,
}
use qa_d.GrpcPool.{PoolEntry}
use qa_d.GrpcPool.Ledger.{has, Ledger}
use qa_d.GrpcPool.Ledger.Tidy.{number_at, number_at-entry, number_at-append, number_at-set, IsTidy}

-- Each connection that was made is closed, or stands in the entry of a name.
abbrev pub Accounted : {C W : Type 0} → List (PoolEntry (ℕ × C)) → Assoc ℕ → Ledger W → Type 0
Accounted es m l =
    (k : ℕ)
    → k < l.made
    → (has l.closed k ≡ true)
      ⊎ ((n : Text) × (id : ℕ) × (lookup n m ≡ some id) × (number_at es id ≡ some k))

module _ {C W : Type 0} (es : List (PoolEntry (ℕ × C))) (m : Assoc ℕ) (l : Ledger W)
    (a : Accounted es m l) where
  pub append-Accounted :
      (m' : Assoc ℕ) (n : Text) (e : PoolEntry (ℕ × C))
      → e.conn ≡ none
      → lookup n m ≡ none
      → ((k : Text) → lookup k m' ≡ (if text_eq n k then some (length es) else lookup k m))
      → Accounted (es ++ e ∷ []) m' l
  append-Accounted m' n e empty new map k made = elim (a k made) [
    | inl closed ↦ inl closed
    | inr (j, id, found, number) ↦ inr (
      j,
      id,
      ground (arith, map j, text_eq_iff n j, new, found),
      number_at-append es e id empty ∙ number,
    )
  ]

  pub dial-Accounted :
      (n : Text) (id : ℕ) (e : PoolEntry (ℕ × C)) (c : C) (w : W)
      → IsTidy es m l
      → lookup n m ≡ some id
      → get_elem? es id ≡ some e
      → e.once ≡ false
      → Accounted
          (set es id (record e { once = true; conn = some (l.made, c) }))
          m
          (record l { world = w; made = suc l.made })
  dial-Accounted n id e c w v found there o k made =
      let e' : PoolEntry (ℕ × C) = record e { once = true; conn = some (l.made, c) } in
      let at = λ (i : ℕ). number_at-set es id e' i (lt_of_get_elem? es id there) in
      elim (Bool-cases (l.made == k)) [
        | inl now ↦
            let same : l.made ≡ k = (==_iff l.made k).0 now in
            inr (n, id, found, at id ∙ ground (arith, same))
        | inr before ↦ elim (a k (ground (arith, made, before))) [
          | inl closed ↦ inl closed
          | inr (j, i, named, number) ↦ inr (
            j,
            i,
            named,
            at i
                ∙ ground (
                  arith,
                  number_at-entry es id e there,
                  v.fresh id e there o,
                  ==_iff id i,
                  number,
                ),
          )
        ]
      ]

  pub fail-Accounted :
      (id : ℕ) (e : PoolEntry (ℕ × C)) (w : W)
      → IsTidy es m l
      → get_elem? es id ≡ some e
      → e.once ≡ false
      → Accounted (set es id (record e { once = true })) m (record l { world = w })
  fail-Accounted id e w v there o k made = elim (a k made) [
    | inl closed ↦ inl closed
    | inr (j, i, named, number) ↦ inr (
      j,
      i,
      named,
      number_at-set es id (record e { once = true }) i (lt_of_get_elem? es id there)
          ∙ ground
              (arith, number_at-entry es id e there, v.fresh id e there o, ==_iff id i, number),
    )
  ]

  pub close-Accounted :
      (n : Text) (id c : ℕ) (w : W)
      → lookup n m ≡ some id
      → number_at es id ≡ some c
      → Accounted es (delete n m) (record l { world = w; closed = c ∷ l.closed })
  close-Accounted n id c w found number k made = elim (a k made) [
    | inl closed ↦ inl (ground (arith, closed))
    | inr (j, i, named, there) ↦ elim (Bool-cases (text_eq n j)) [
      | inl same ↦ inl (ground (arith, text_eq_iff n j, found, named, number, there, ==_iff c k))
      | inr other ↦ inr (j, i, rw (lookup-delete j n m, other) named, there)
    ]
  ]

  pub delete-Accounted :
      (n : Text) (id : ℕ)
      → lookup n m ≡ some id
      → number_at es id ≡ none
      → Accounted es (delete n m) l
  delete-Accounted n id found number k made = elim (a k made) [
    | inl closed ↦ inl closed
    | inr (j, i, named, there) ↦ elim (Bool-cases (text_eq n j)) [
      | inl same ↦ absurd (ground (arith, text_eq_iff n j, found, named, number, there))
      | inr other ↦ inr (j, i, rw (lookup-delete j n m, other) named, there)
    ]
  ]
