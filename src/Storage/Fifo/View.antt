-- ===== src/Storage/Fifo/View.antt =====
-- The queue of entries that the maps and the order of a `FIFOStorage` stand for.
use qa_d.Base.{
  ℕ, ◌+◌, ◌≡◌, refl, ap, Bool-cases, true, false, List, [], ◌∷◌, ◌++◌, Text, text_eq, text_eq_iff,
  if◌then◌else◌, arith, inl, inr, Option, none, some, Assoc, lookup, insert, delete as delete_from,
  lookup-insert, lookup-delete, contains_text, Distinct,
}
use qa_d.Storage.{Slice, len, or_nil}
use qa_d.Storage.Queue.{Entry, size, find, drop_key}
use qa_d.Storage.Fifo.{FifoStorage, remove_first}

-- `m[k]` on a map of hashes: 0 where the key is missing.
abbrev pub or_zero : Option ℕ → ℕ
or_zero none = 0
or_zero (some h) = h

abbrev pub entry : Assoc Slice → Assoc ℕ → Text → Entry
entry st hs k = record { key = k; hash = or_zero (lookup k hs); value = or_nil (lookup k st) }

abbrev pub entries : Assoc Slice → Assoc ℕ → List Text → List Entry
entries st hs [] = []
entries st hs (k ∷ ks) = entry st hs k ∷ entries st hs ks

abbrev pub view : FifoStorage → List Entry
view s = entries s.storage s.hashes s.order

module _ (st : Assoc Slice) (hs : Assoc ℕ) where
  pub entries-append :
      (ks : List Text) (k : Text)
      → entries st hs (ks ++ k ∷ []) ≡ entries st hs ks ++ entry st hs k ∷ []
  entries-append [] k = refl
  entries-append (x ∷ ks) k = ap (◌∷◌ (entry st hs x)) (entries-append ks k)

  pub entries-insert :
      (ks : List Text) (k : Text) (h : ℕ) (v : Slice)
      → contains_text ks k ≡ false
      → entries (insert k v st) (insert k h hs) ks ≡ entries st hs ks
  unfolding contains_text
  entries-insert [] k h v e = refl
  entries-insert (x ∷ ks) k h v e = ground (
    arith,
    entries-insert ks k h v,
    lookup-insert x k v st,
    lookup-insert x k h hs,
    text_eq_iff x k,
    text_eq_iff k x,
  )

  pub entries-delete :
      (ks : List Text) (k : Text)
      → contains_text ks k ≡ false
      → entries (delete_from k st) (delete_from k hs) ks ≡ entries st hs ks
  unfolding contains_text
  entries-delete [] k e = refl
  entries-delete (x ∷ ks) k e = ground (
    arith,
    entries-delete ks k,
    lookup-delete x k st,
    lookup-delete x k hs,
    text_eq_iff x k,
    text_eq_iff k x,
  )

  pub entries-remove_first :
      (ks : List Text) (k : Text)
      → entries st hs (remove_first k ks) ≡ drop_key k (entries st hs ks)
  unfolding remove_first drop_key
  entries-remove_first [] k = refl
  entries-remove_first (x ∷ ks) k = ground (arith, entries-remove_first ks k)

  -- What is taken out of the order is taken off the size.
  pub size-remove_first :
      (ks : List Text) (k : Text)
      → contains_text ks k ≡ true
      → len (or_nil (lookup k st)) + size (entries st hs (remove_first k ks))
        ≡ size (entries st hs ks)
  unfolding remove_first contains_text
  size-remove_first [] k e = cc
  size-remove_first (x ∷ ks) k e = ground (arith, size-remove_first ks k, text_eq_iff x k)

  -- In a valid store a key is found in the queue as in the maps.
  pub find-entries :
      (ks : List Text) (k : Text)
      → find k (entries st hs ks)
        ≡ (if contains_text ks k then some (or_zero (lookup k hs), or_nil (lookup k st)) else none)
  unfolding find contains_text
  find-entries [] k = refl
  find-entries (x ∷ ks) k = ground (arith, find-entries ks k, text_eq_iff x k)

pub contains_text-remove_first :
    (ks : List Text) (k q : Text)
    → Distinct ks
    → contains_text (remove_first k ks) q ≡ (if text_eq k q then false else contains_text ks q)
unfolding remove_first contains_text
contains_text-remove_first [] k q d = ground arith
contains_text-remove_first (x ∷ ks) k q d =
    ground
      (arith, contains_text-remove_first ks k q, text_eq_iff x k, text_eq_iff x q, text_eq_iff k q)

pub remove_first-Distinct : (ks : List Text) (k : Text) → Distinct ks → Distinct (remove_first k ks)
unfolding remove_first
remove_first-Distinct [] k d = tt
remove_first-Distinct (x ∷ ks) k d = elim (Bool-cases (text_eq x k)) [
  | inl same ↦ rw same d.1
  | inr other ↦ rw other (
    ground (arith, contains_text-remove_first ks k x, text_eq_iff k x, text_eq_iff x k),
    remove_first-Distinct ks k d.1,
  )
]

pub remove_first_absent :
    (ks : List Text) (k : Text) → contains_text ks k ≡ false → remove_first k ks ≡ ks
unfolding remove_first contains_text
remove_first_absent [] k e = refl
remove_first_absent (x ∷ ks) k e = ground (arith, remove_first_absent ks k)
