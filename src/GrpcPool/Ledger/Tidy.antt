-- ===== src/GrpcPool/Ledger/Tidy.antt =====
-- What the heap of the pool, its map and the ledger have to do with each other, and how the single changes
-- of cluster/grpc_pool.go keep it.
use qa_d.Base.{
  ℕ, zero, suc, ◌<◌, ◌≡◌, refl, subst, ap, Bool, true, false, List, [], ◌∷◌, ◌++◌, ◌==◌, Option,
  none, some, Text, text_eq, text_eq_iff, if◌then◌else◌, length, get_elem?, set, Assoc, lookup,
  insert, delete, lookup-insert, lookup-delete, arith,
}
use qa_d.GrpcPool.{PoolEntry}
use qa_d.GrpcPool.Ledger.{has, Once, Ledger}

-- No key twice.
abbrev pub KeysOnce : Assoc ℕ → Type 0
KeysOnce [] = Unit
KeysOnce ((n, id) ∷ m) = (lookup n m ≡ none) × KeysOnce m

pub insert-KeysOnce : (k : Text) (v : ℕ) (m : Assoc ℕ) → KeysOnce m → KeysOnce (insert k v m)
unfolding insert lookup
insert-KeysOnce k v [] h = (refl, tt)
insert-KeysOnce k v ((j, w) ∷ m) h = go (text_eq j k) refl (insert-KeysOnce k v m h.1)
  where
    go :
        (b : Bool)
        → text_eq j k ≡ b
        → KeysOnce (insert k v m)
        → KeysOnce (if b then (k, v) ∷ m else (j, w) ∷ insert k v m)
    go true e r = (subst (λ t. lookup t m ≡ none) ((text_eq_iff j k).0 e) h.0, h.1)
    go false e r = (ground (arith, lookup-insert j k v m, text_eq_iff k j, text_eq_iff j k), r)

pub delete-KeysOnce : (k : Text) (m : Assoc ℕ) → KeysOnce m → KeysOnce (delete k m)
unfolding delete lookup
delete-KeysOnce k [] h = tt
delete-KeysOnce k ((j, w) ∷ m) h = go (text_eq j k) (delete-KeysOnce k m h.1)
  where
    go :
        (b : Bool)
        → KeysOnce (delete k m)
        → KeysOnce (if b then delete k m else (j, w) ∷ delete k m)
    go true r = r
    go false r = (ground (arith, lookup-delete j k m), r)

pub delete_absent : (k : Text) (m : Assoc ℕ) → lookup k m ≡ none → delete k m ≡ m
unfolding delete lookup
delete_absent k [] h = refl
delete_absent k ((j, w) ∷ m) h = ground (arith, delete_absent k m)

-- The number of a connection, of an entry, and at a place of the heap.
abbrev conn_number : {C : Type 0} → Option (ℕ × C) → Option ℕ
conn_number none = none
conn_number (some conn) = some conn.0

abbrev pub number_at : {C : Type 0} → List (PoolEntry (ℕ × C)) → ℕ → Option ℕ
number_at [] i = none
number_at (e ∷ es) zero = conn_number e.conn
number_at (e ∷ es) (suc i) = number_at es i

pub number_at-entry :
    {C : Type 0} (es : List (PoolEntry (ℕ × C))) (i : ℕ) (e : PoolEntry (ℕ × C))
    → get_elem? es i ≡ some e
    → number_at es i ≡ conn_number e.conn
number_at-entry [] i e h = cc
number_at-entry {C} (x ∷ es) zero e h =
    let same : x ≡ e = cc in ap (λ (y : PoolEntry (ℕ × C)). conn_number y.conn) same
number_at-entry (x ∷ es) (suc i) e h = number_at-entry es i e h

pub number_at_absent :
    {C : Type 0} (es : List (PoolEntry (ℕ × C))) (i : ℕ)
    → get_elem? es i ≡ none
    → number_at es i ≡ none
number_at_absent [] i h = refl
number_at_absent (x ∷ es) zero h = cc
number_at_absent (x ∷ es) (suc i) h = number_at_absent es i h

pub number_at-append :
    {C : Type 0} (es : List (PoolEntry (ℕ × C))) (e : PoolEntry (ℕ × C)) (i : ℕ)
    → e.conn ≡ none
    → number_at (es ++ e ∷ []) i ≡ number_at es i
number_at-append [] e zero h = ap conn_number h
number_at-append [] e (suc i) h = refl
number_at-append (x ∷ es) e zero h = refl
number_at-append (x ∷ es) e (suc i) h = number_at-append es e i h

pub number_at-length :
    {C : Type 0} (es : List (PoolEntry (ℕ × C))) → number_at es (length es) ≡ none
number_at-length [] = refl
number_at-length (x ∷ es) = number_at-length es

pub number_at-set :
    {C : Type 0} (es : List (PoolEntry (ℕ × C))) (id : ℕ) (e : PoolEntry (ℕ × C)) (i : ℕ)
    → id < length es
    → number_at (set es id e) i ≡ (if id == i then conn_number e.conn else number_at es i)
number_at-set [] id e i h = absurd (omega arith)
number_at-set (x ∷ es) zero e zero h = refl
number_at-set (x ∷ es) zero e (suc i) h = ground arith
number_at-set (x ∷ es) (suc id) e zero h = ground arith
number_at-set (x ∷ es) (suc id) e (suc i) h = ground (arith, number_at-set es id e i)

-- Each connection that was made stands in one entry, or its entry is gone; each was closed once at most,
-- and an entry in the map has none that was closed.
pub record IsTidy {C W : Type 0} (es : List (PoolEntry (ℕ × C))) (m : Assoc ℕ) (l : Ledger W)
    : Type 0 where
  pub keys_once : KeysOnce m
  pub inside : (n : Text) (id : ℕ) → lookup n m ≡ some id → id < length es
  pub names_apart : (n k : Text) (id : ℕ) → lookup n m ≡ some id → lookup k m ≡ some id → n ≡ k
  pub below : (i k : ℕ) → number_at es i ≡ some k → k < l.made
  pub places_apart : (i j k : ℕ) → number_at es i ≡ some k → number_at es j ≡ some k → i ≡ j
  pub closed_below : (k : ℕ) → has l.closed k ≡ true → k < l.made
  pub closed_once : Once l.closed
  pub still_open :
      (n : Text) (id k : ℕ)
      → lookup n m ≡ some id
      → number_at es id ≡ some k
      → has l.closed k ≡ false
  pub fresh :
      (i : ℕ) (e : PoolEntry (ℕ × C)) → get_elem? es i ≡ some e → e.once ≡ false → e.conn ≡ none
