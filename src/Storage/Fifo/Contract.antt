-- ===== src/Storage/Fifo/Contract.antt =====
-- What the callers of a `FIFOStorage` see: the order of eviction, the size limit, what a read
-- returns after a write, and the contract of `Storage`.
use qa_d.Base.{
  ℕ, ◌+◌, ◌<◌, ◌≤◌, ◌≡◌, ap, ◌∙◌, List, [], ◌∷◌, ◌++◌, Text, text_eq, text_eq_iff, if◌then◌else◌,
  arith, ◌⊎◌, none, some, Assoc, lookup, Distinct,
}
use qa_d.Base.Int64.{sign}
use qa_d.Storage.{Slice, len, held_value, held_hash}
use qa_d.Storage.Queue.{Entry, new_entry, size, find, drop_key, Evicts, trim-Evicts}
use qa_d.Storage.Queue.Find.{
  Keyed, find-drop_key, drop_key-Keyed, find-append, find-append_ne, append-Keyed, find-trim,
  find-trim_last, trim_oversized, size-append,
}
use qa_d.Storage.Fifo.{FifoStorage, read, write, delete, list_keys}
use qa_d.Storage.Fifo.View.{entries, view, find-entries}
use qa_d.Storage.Fifo.Valid.{IsValid}
use qa_d.Storage.Fifo.Update.{write-trim, delete-drop_key}

entries-Keyed :
    (st : Assoc Slice) (hs : Assoc ℕ) (ks : List Text) → Distinct ks → Keyed (entries st hs ks)
entries-Keyed st hs [] d = tt
entries-Keyed st hs (k ∷ ks) d =
    (ground (arith, find-entries st hs ks k), entries-Keyed st hs ks d.1)

size-drop_key : (k : Text) (q : List Entry) → size (drop_key k q) ≤ size q
unfolding drop_key
size-drop_key k [] = omega arith
size-drop_key k (e ∷ q) = ground (arith, size-drop_key k q)

pub read-find : (s : FifoStorage) → IsValid s → (k : Text) → read s k ≡ held_value (find k (view s))
unfolding read
read-find s v k = ground (arith, find-entries s.storage s.hashes s.order k, v.stored k)

module _ (s : FifoStorage) (v : IsValid s) where
  pub list_keys-find : (q : Text) → lookup q (list_keys s) ≡ held_hash (find q (view s))
  unfolding list_keys
  list_keys-find q =
      ground (arith, find-entries s.storage s.hashes s.order q, v.stored q, v.hashed q)

  pub view-Keyed : Keyed (view s)
  view-Keyed = entries-Keyed s.storage s.hashes s.order v.distinct

  pub delete-find :
      (k q : Text) → find q (view (delete s k)) ≡ (if text_eq k q then none else find q (view s))
  delete-find k q = ap (find q) (delete-drop_key s k v).0 ∙ find-drop_key k q (view s) view-Keyed

  pub delete-size : (k : Text) → size (view (delete s k)) ≤ size (view s)
  delete-size k = rw ((delete-drop_key s k v).0) (size-drop_key k (view s))

  module _ (key : Text) (hash : ℕ) (value : Slice) (room : size (view s) + len value < sign) where
    -- The queue that `Write` hands to the eviction.
    abbrev pub queued : List Entry
    queued = drop_key key (view s) ++ new_entry key hash value ∷ []

    absent : find key (drop_key key (view s)) ≡ none
    absent = ground (arith, find-drop_key key key (view s) view-Keyed, text_eq_iff key key)

    queued-size : size queued < sign
    queued-size = omega (
      arith,
      size-append (drop_key key (view s)) (new_entry key hash value ∷ []),
      size-drop_key key (view s),
    )

    queued-Keyed : Keyed queued
    queued-Keyed =
        append-Keyed (drop_key key (view s)) (new_entry key hash value)
          (drop_key-Keyed key (view s) view-Keyed) absent

    -- `Write` on a valid store, where the stored bytes and the value are fewer than 2 ^ 63, evicts
    -- first in, first out: it leaves a rest of the queue in which the key has moved to
    -- the back with its new value; the rest is within the limit, and it is the longest that is.
    pub write-Evicts : Evicts s.max_size queued (view (write s key hash value))
    write-Evicts =
        rw ((write-trim s key hash value v room).0)
          (trim-Evicts s.max_size queued queued-size v.bounded)

    -- After `Write` on a valid store with room for the bytes each key is gone, or it has the pair
    -- that was written for it, or, where it is another key, the pair that it had.
    pub write-find :
        (q : Text)
        → (find q (view (write s key hash value)) ≡ none)
          ⊎ (find q (view (write s key hash value))
              ≡ (if text_eq key q then some (hash, value) else find q (view s)))
    write-find q = ground (
      arith,
      ap (find q) (write-trim s key hash value v room).0,
      find-trim s.max_size q queued queued-Keyed,
      find-append q (drop_key key (view s)) (new_entry key hash value),
      find-append_ne q (drop_key key (view s)) (new_entry key hash value),
      find-drop_key key q (view s) view-Keyed,
      text_eq_iff key q,
      absent,
    )

    -- On a valid store with room for the bytes and a limit that is not negative, a value within the
    -- limit can be read right after it was written.
    pub read-write :
        s.max_size < sign → len value ≤ s.max_size → read (write s key hash value) key ≡ value
    read-write m fit =
        let w = write-trim s key hash value v room in
        let found =
          find-trim_last s.max_size (drop_key key (view s)) (new_entry key hash value) absent
            (omega (arith, size-drop_key key (view s))) m fit in
        read-find (write s key hash value) w.1 key ∙ ap held_value (ap (find key) w.0 ∙ found)

    -- On a valid store with room for the bytes, the write of a value over the limit does not store
    -- it, and costs all the others: the store is empty.
    pub write_oversized : s.max_size < len value → view (write s key hash value) ≡ []
    write_oversized over =
        (write-trim s key hash value v room).0
        ∙ trim_oversized s.max_size (drop_key key (view s)) (new_entry key hash value)
            (omega (arith, size-drop_key key (view s))) over
