-- ===== src/Storage/Lru/Store.antt =====
-- `LRUStorage` as a `Storage`, with the least recently used key first in the queue of eviction.
use qa_d.Base.{
  ℕ, ◌+◌, ◌<◌, ◌≡◌, refl, sym, ap, subst, ◌∙◌, Option-cases, true, List, [], ◌∷◌, ◌++◌, Text,
  text_eq_iff, arith, inl, inr, ◌⊎◌, none, some, lookup, contains_text, contains_text-append,
  Distinct, Distinct-append, is_some,
}
use qa_d.Base.Int64.{sign}
use qa_d.Storage.{Slice, len}
use qa_d.Storage.Queue.{Entry, new_entry, size, find, drop_key, Evicts}
use qa_d.Storage.Queue.Find.{size-append}
use qa_d.Storage.Fifo.{FifoStorage, remove_first}
use qa_d.Storage.Fifo as Fifo
use qa_d.Storage.Fifo.View.{
  entry, view, find-entries, entries-append, entries-remove_first, size-remove_first,
  contains_text-remove_first, remove_first-Distinct,
}
use qa_d.Storage.Fifo.Valid.{IsValid}
use qa_d.Storage.Fifo.Contract.{write-Evicts}
use qa_d.Storage.Fifo.Store.{IsSteady}
use qa_d.Storage.Lru.{LruEntry, LruStorage, move_to_front, promote, offer, read, write}
use qa_d.Storage.Lru.Simulation.{to_fifo, write-to_fifo}
use qa_d.Storage.Lru.Order.{lookup-map_values, back_first, back_first-remove_first}

-- A FIFO store with a key moved to the back of its order.
abbrev pub touch : FifoStorage → Text → FifoStorage
touch t key = record t { order = remove_first key t.order ++ key ∷ [] }

module _ (t : FifoStorage) (v : IsValid t) (key : Text)
    (known : contains_text t.order key ≡ true) where
  abbrev pub touched : List Entry
  touched = drop_key key (view t) ++ entry t.storage t.hashes key ∷ []

  view-touch : view (touch t key) ≡ touched
  view-touch =
      entries-append t.storage t.hashes (remove_first key t.order) key
      ∙ ap (λ q. q ++ entry t.storage t.hashes key ∷ [])
          (entries-remove_first t.storage t.hashes t.order key)

  size-touch : size (view (touch t key)) ≡ size (view t)
  size-touch =
      ap size view-touch
      ∙ omega (
        arith,
        size-append (drop_key key (view t)) (entry t.storage t.hashes key ∷ []),
        size-remove_first t.storage t.hashes t.order key known,
        ap size (entries-remove_first t.storage t.hashes t.order key),
      )

  touch-contains : (q : Text) → contains_text (touch t key).order q ≡ contains_text t.order q
  unfolding contains_text
  touch-contains q = ground (
    arith,
    contains_text-append (remove_first key t.order) (key ∷ []) q,
    contains_text-remove_first t.order key q v.distinct,
    text_eq_iff key q,
    known,
  )

  find-touch : (q : Text) → find q (view (touch t key)) ≡ find q (view t)
  find-touch q =
      find-entries t.storage t.hashes (touch t key).order q
      ∙ rw (touch-contains q) (sym (find-entries t.storage t.hashes t.order q))

  touch-IsValid : IsValid (touch t key)
  touch-IsValid = record {
    distinct =
        Distinct-append (remove_first key t.order) key
          (remove_first-Distinct t.order key v.distinct)
          (ground
            (arith, contains_text-remove_first t.order key key v.distinct, text_eq_iff key key));
    stored = λ k. touch-contains k ∙ v.stored k;
    hashed = v.hashed;
    sized = v.sized ∙ sym size-touch;
    small = rw size-touch v.small;
    bounded = v.bounded;
  }

-- A read leaves the store as it is, but for the key in the channel.
pub read-to_fifo : (s : LruStorage) (k : Text) → to_fifo (read s k).1 ≡ to_fifo s
unfolding read
read-to_fifo s k = elim (Option-cases (lookup k s.storage)) [
  | inl absent ↦ rw (read, absent) refl
  | inr (e, found) ↦ rw (read, found) refl
]

read-offer :
    (s : LruStorage) (k : Text) (e : LruEntry)
    → lookup k s.storage ≡ some e
    → s.promo_ch ≡ []
    → (read s k).1 ≡ record s { promo_ch = k ∷ [] }
unfolding read offer
read-offer s k e found c = rw (read, found, offer, c) refl

pub read-value : (s : LruStorage) (k : Text) → (read s k).0 ≡ Fifo.read (to_fifo s) k
unfolding read Fifo.read
read-value s k = elim (Option-cases (lookup k s.storage)) [
  | inl absent ↦
      rw (read, absent, Fifo.read, lookup-map_values (λ e. e.value) k s.storage, absent) refl
  | inr (e, found) ↦
      rw (read, found, Fifo.read, lookup-map_values (λ x. x.value) k s.storage, found) refl
]

-- A round of the promoter, for a key that the store has and for one that it does not have.
promote_known :
    (s : LruStorage) (key : Text) (rest : List Text) (e : LruEntry)
    → Distinct (back_first s.list)
    → s.promo_ch ≡ key ∷ rest
    → lookup key s.storage ≡ some e
    → to_fifo (promote s) ≡ touch (to_fifo s) key
unfolding promote move_to_front back_first
promote_known s key rest e d c found =
    rw (promote, c, found, back_first-remove_first key s.list d) refl

promote_unknown :
    (s : LruStorage) (key : Text) (rest : List Text)
    → s.promo_ch ≡ key ∷ rest
    → lookup key s.storage ≡ none
    → to_fifo (promote s) ≡ to_fifo s
unfolding promote
promote_unknown s key rest c absent = rw (promote, c, absent) refl

promote_idle : (s : LruStorage) → s.promo_ch ≡ [] → to_fifo (promote s) ≡ to_fifo s
unfolding promote
promote_idle s c = rw (promote, c) refl

-- The keys of the list are those of the map.
pub listed :
    (s : LruStorage)
    → IsValid (to_fifo s)
    → (q : Text) → contains_text (back_first s.list) q ≡ is_some (lookup q s.storage)
listed s v q = ground (arith, v.stored q, lookup-map_values (λ e. e.value) q s.storage)

module _ (s : LruStorage) (st : IsSteady (to_fifo s)) where
  promote-cases :
      (to_fifo (promote s) ≡ to_fifo s)
      ⊎ ((key : Text) × (contains_text (back_first s.list) key ≡ true)
          × (to_fifo (promote s) ≡ touch (to_fifo s) key))
  promote-cases = go s.promo_ch refl
    where
      go :
          (ch : List Text)
          → s.promo_ch ≡ ch
          → (to_fifo (promote s) ≡ to_fifo s)
            ⊎ ((key : Text) × (contains_text (back_first s.list) key ≡ true)
                × (to_fifo (promote s) ≡ touch (to_fifo s) key))
      go [] c = inl (promote_idle s c)
      go (key ∷ rest) c = elim (Option-cases (lookup key s.storage)) [
        | inl absent ↦ inl (promote_unknown s key rest c absent)
        | inr (e, found) ↦
            let known : contains_text (back_first s.list) key ≡ true =
              listed s st.valid key ∙ ap is_some found in
            inr (key, known, promote_known s key rest e st.valid.distinct c found)
      ]

  -- A round of the promoter changes nothing that the store holds, and keeps it steady.
  pub promote_lem :
      IsSteady (to_fifo (promote s))
      × ((q : Text) → find q (view (to_fifo (promote s))) ≡ find q (view (to_fifo s)))
  promote_lem = elim promote-cases [
    | inl same ↦ (subst IsSteady (sym same) st, λ q. ap (λ z. find q (view z)) same)
    | inr (key, known, moved) ↦
        let t = to_fifo s in
        let steady : IsSteady (touch t key) = record {
          valid = touch-IsValid t st.valid key known;
          within = rw (size-touch t st.valid key known) st.within;
        } in
        (
          subst IsSteady (sym moved) steady,
          λ q. ap (λ z. find q (view z)) moved ∙ find-touch t st.valid key known q,
        )
  ]

  pub promote-limit : (promote s).max_size ≡ s.max_size
  promote-limit = elim promote-cases [
    | inl same ↦ ap (λ z. z.max_size) same
    | inr (key, known, moved) ↦ ap (λ z. z.max_size) moved
  ]

  -- After a read of a key that a steady store holds, and the round of the promoter that follows on
  -- an empty channel, the key is the last of all in the queue of eviction, and the others keep their
  -- order.
  pub promote-read :
      (key : Text) (hash : ℕ) (value : Slice)
      → s.promo_ch ≡ []
      → find key (view (to_fifo s)) ≡ some (hash, value)
      → view (to_fifo (promote (read s key).1))
        ≡ drop_key key (view (to_fifo s)) ++ new_entry key hash value ∷ []
  promote-read key hash value c held =
      let t = to_fifo s in
      let there = find-entries t.storage t.hashes t.order key in
      let known : contains_text t.order key ≡ true = ground (arith, there, held) in
      let own : entry t.storage t.hashes key ≡ new_entry key hash value =
        ground (arith, there, held, known) in
      elim (Option-cases (lookup key s.storage)) [
        | inl absent ↦ absurd (ground (arith, listed s st.valid key, known, absent))
        | inr (e, found) ↦
            let r : LruStorage = record s { promo_ch = key ∷ [] } in
            let read_it : (read s key).1 ≡ r = read-offer s key e found c in
            ap (λ z. view (to_fifo (promote z))) read_it
            ∙ ap view (promote_known r key [] e st.valid.distinct refl found)
            ∙ view-touch t st.valid key known
            ∙ ap (λ x. drop_key key (view t) ++ x ∷ []) own
      ]

  -- `Write` to a steady store with room for the bytes evicts the least recently used first: it leaves
  -- the longest rest of the queue, with the key moved to the back, that is within the limit.
  pub write-Evicts_lru :
      (key : Text) (hash : ℕ) (value : Slice)
      → size (view (to_fifo s)) + len value < sign
      → Evicts s.max_size
          (drop_key key (view (to_fifo s)) ++ new_entry key hash value ∷ [])
          (view (to_fifo (write s key hash value)))
  write-Evicts_lru key hash value room =
      subst
        (λ z.
          Evicts s.max_size (drop_key key (view (to_fifo s)) ++ new_entry key hash value ∷ [])
            (view z))
        (sym (write-to_fifo s key hash value st.valid.distinct))
        (write-Evicts (to_fifo s) st.valid key hash value room)
