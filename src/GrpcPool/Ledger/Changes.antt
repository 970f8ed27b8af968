-- ===== src/GrpcPool/Ledger/Changes.antt =====
-- The single changes of cluster/grpc_pool.go keep the heap, the map and the ledger tidy: a new entry, a
-- dialled entry, a connection that is closed.
use qa_d.Base.{
  ℕ, zero, suc, ◌≡◌, refl, sym, subst, ap, ◌∙◌, true, false, List, [], ◌∷◌, ◌++◌, ==_iff, none,
  some, Text, text_eq, text_eq_iff, if◌then◌else◌, length, length-append, length-set, get_elem?,
  lt_of_get_elem?, set, Assoc, lookup, delete, lookup-delete, arith, inl, inr, ◌⊎◌,
}
use qa_d.GrpcPool.{PoolEntry}
use qa_d.GrpcPool.Ledger.{Ledger}
use qa_d.GrpcPool.Ledger.Tidy.{
  KeysOnce, delete-KeysOnce, number_at, number_at-entry, number_at-append, number_at-length,
  number_at-set, IsTidy,
}

get_elem?-snoc :
    {A : Type 0} (xs : List A) (y : A) (i : ℕ) {x : A}
    → get_elem? (xs ++ y ∷ []) i ≡ some x
    → (get_elem? xs i ≡ some x) ⊎ (y ≡ x)
get_elem?-snoc [] y zero h = inr (cc)
get_elem?-snoc [] y (suc i) h = cc
get_elem?-snoc (z ∷ xs) y zero h = inl h
get_elem?-snoc (z ∷ xs) y (suc i) h = get_elem?-snoc xs y i h

get_elem?-set_cases :
    {A : Type 0} (xs : List A) (id : ℕ) (y : A) (i : ℕ) {x : A}
    → get_elem? (set xs id y) i ≡ some x
    → (get_elem? xs i ≡ some x) ⊎ (y ≡ x)
get_elem?-set_cases [] id y i h = inl h
get_elem?-set_cases (z ∷ xs) zero y zero h = inr (cc)
get_elem?-set_cases (z ∷ xs) zero y (suc i) h = inl h
get_elem?-set_cases (z ∷ xs) (suc id) y zero h = inl h
get_elem?-set_cases (z ∷ xs) (suc id) y (suc i) h = get_elem?-set_cases xs id y i h

module _ {C W : Type 0} (es : List (PoolEntry (ℕ × C))) (m : Assoc ℕ) (l : Ledger W)
    (v : IsTidy es m l) where
  -- A new entry, whose name has no other in the map.
  pub append-IsTidy :
      (m' : Assoc ℕ) (n : Text) (e : PoolEntry (ℕ × C))
      → e.conn ≡ none
      → KeysOnce m'
      → ((k : Text) → lookup k m' ≡ (if text_eq n k then some (length es) else lookup k m))
      → IsTidy (es ++ e ∷ []) m' l
  append-IsTidy m' n e empty once new = record {
    keys_once = once;
    inside = λ k id h. ground (arith, new k, v.inside k id, length-append es (e ∷ []));
    names_apart = λ k j id h f. ground (
      arith,
      new k,
      new j,
      v.inside k id,
      v.inside j id,
      v.names_apart k j id,
      text_eq_iff n k,
      text_eq_iff n j,
    );
    below = λ i k h. v.below i k (sym (number_at-append es e i empty) ∙ h);
    places_apart = λ i j k h f.
        v.places_apart i j k (sym (number_at-append es e i empty) ∙ h)
          (sym (number_at-append es e j empty) ∙ f);
    closed_below = v.closed_below;
    closed_once = v.closed_once;
    still_open = λ k id j h f.
        let f' : number_at es id ≡ some j = sym (number_at-append es e id empty) ∙ f in
        ground (arith, new k, v.still_open k id j, number_at-length es);
    fresh = λ i x h o. elim (get_elem?-snoc es e i h) [
      | inl old ↦ v.fresh i x old o
      | inr same ↦ subst (λ (y : PoolEntry (ℕ × C)). y.conn ≡ none) same empty
    ];
  }

  -- An entry that has no connection gets the next one.
  pub dial-IsTidy :
      (id : ℕ) (e : PoolEntry (ℕ × C)) (c : C) (w : W)
      → get_elem? es id ≡ some e
      → e.once ≡ false
      → IsTidy
          (set es id (record e { once = true; conn = some (l.made, c) }))
          m
          (record l { world = w; made = suc l.made })
  dial-IsTidy id e c w h o =
      let e' : PoolEntry (ℕ × C) = record e { once = true; conn = some (l.made, c) } in
      let at = λ (i : ℕ). number_at-set es id e' i (lt_of_get_elem? es id h) in
      record {
        keys_once = v.keys_once;
        inside = λ n i f. ground (arith, v.inside n i, length-set es id e');
        names_apart = v.names_apart;
        below = λ i k f. ground (arith, at i, v.below i k);
        places_apart =
            λ i j k f q. ground (arith, at i, at j, v.places_apart i j k, v.below i k, v.below j k);
        closed_below = λ k f. omega (arith, v.closed_below k f);
        closed_once = v.closed_once;
        still_open = λ n i k f q. ground (arith, at i, v.still_open n i k, v.closed_below k);
        fresh = λ i x f u. elim (get_elem?-set_cases es id e' i f) [
          | inl old ↦ v.fresh i x old u
          | inr same ↦ cc (ap (λ (y : PoolEntry (ℕ × C)). y.once) same, u)
        ];
      }

  -- A dial that fails.
  pub fail-IsTidy :
      (id : ℕ) (e : PoolEntry (ℕ × C)) (w : W)
      → get_elem? es id ≡ some e
      → e.once ≡ false
      → IsTidy (set es id (record e { once = true })) m (record l { world = w })
  fail-IsTidy id e w h o =
      let e' : PoolEntry (ℕ × C) = record e { once = true } in
      let none_there : number_at es id ≡ none =
        number_at-entry es id e h ∙ rw (v.fresh id e h o) refl in
      let same : (i : ℕ) → number_at (set es id e') i ≡ number_at es i = λ i. ground (
        arith,
        number_at-set es id e' i (lt_of_get_elem? es id h),
        number_at-entry es id e h,
        none_there,
      ) in
      record {
        keys_once = v.keys_once;
        inside = λ n i f. ground (arith, v.inside n i, length-set es id e');
        names_apart = v.names_apart;
        below = λ i k f. v.below i k (sym (same i) ∙ f);
        places_apart = λ i j k f q. v.places_apart i j k (sym (same i) ∙ f) (sym (same j) ∙ q);
        closed_below = v.closed_below;
        closed_once = v.closed_once;
        still_open = λ n i k f q. v.still_open n i k f (sym (same i) ∙ q);
        fresh = λ i x f u. elim (get_elem?-set_cases es id e' i f) [
          | inl old ↦ v.fresh i x old u
          | inr is ↦ cc (ap (λ (y : PoolEntry (ℕ × C)). y.once) is, u)
        ];
      }

  -- A name is taken out of the map, and the connection of its entry is closed.
  pub close-IsTidy :
      (n : Text) (id k : ℕ) (w : W)
      → lookup n m ≡ some id
      → number_at es id ≡ some k
      → IsTidy es (delete n m) (record l { world = w; closed = k ∷ l.closed })
  close-IsTidy n id k w h f = record {
    keys_once = delete-KeysOnce n m v.keys_once;
    inside = λ j i q. ground (arith, lookup-delete j n m, v.inside j i);
    names_apart =
        λ i j a q u. ground (arith, lookup-delete i n m, lookup-delete j n m, v.names_apart i j a);
    below = v.below;
    places_apart = v.places_apart;
    closed_below = λ j q. ground (arith, v.closed_below j, v.below id k f, ==_iff k j);
    closed_once = (v.still_open n id k h f, v.closed_once);
    still_open = λ j i a q u. ground (
      arith,
      lookup-delete j n m,
      v.still_open j i a,
      v.places_apart id i a,
      v.names_apart n j id,
      text_eq_iff n j,
      ==_iff k a,
    );
    fresh = v.fresh;
  }

  pub delete-IsTidy : (n : Text) → IsTidy es (delete n m) l
  delete-IsTidy n = record {
    keys_once = delete-KeysOnce n m v.keys_once;
    inside = λ j i q. ground (arith, lookup-delete j n m, v.inside j i);
    names_apart =
        λ i j a q u. ground (arith, lookup-delete i n m, lookup-delete j n m, v.names_apart i j a);
    below = v.below;
    places_apart = v.places_apart;
    closed_below = v.closed_below;
    closed_once = v.closed_once;
    still_open = λ j i a q u. ground (arith, lookup-delete j n m, v.still_open j i a);
    fresh = v.fresh;
  }
