-- ===== src/Storage/Lru/Simulation.antt =====
-- `LRUStorage` as a `FIFOStorage`: read from the back to the front its list is an order of insertion,
-- and a write or a deletion does the same to both. Only the promoter has no counterpart there.
use qa_d.Base.{
  ℕ, zero, suc, ◌≡◌, refl, sym, ap, ◌∙◌, Bool-cases, Option-cases, Bool, true, false, List, [], ◌∷◌,
  ◌++◌, Text, if◌then◌else◌, length, arith, inl, inr, Option, none, some, lookup, insert,
  delete as delete_from, Distinct,
}
use qa_d.Base.Int64.{gt_int, add_int, sub_int}
use qa_d.Storage.{Slice, len, or_nil}
use qa_d.Storage.Fifo.{FifoStorage, remove_first, forget_old}
use qa_d.Storage.Fifo as Fifo
use qa_d.Storage.Lru.{
  LruEntry, LruStorage, move_to_front, back, remove_back, value_of, evict, evict_loop, put, write,
  delete,
}
use qa_d.Storage.Lru.Order.{
  map_values, map_option, lookup-map_values, insert-map_values, delete-map_values, back_first,
  back_first-back, length-remove_back, back_first-remove_first,
}

abbrev pub to_fifo : LruStorage → FifoStorage
to_fifo s = record {
  storage = map_values (λ e. e.value) s.storage;
  hashes = map_values (λ e. e.hash) s.storage;
  order = back_first s.list;
  max_size = s.max_size;
  cur_size = s.cur_size;
}

-- The round of the FIFO store for the same key.
abbrev fifo_evict : Text → List Text → FifoStorage → FifoStorage
fifo_evict oldest rest s = record s {
  order = rest;
  cur_size = sub_int s.cur_size (len (or_nil (lookup oldest s.storage)));
  storage = delete_from oldest s.storage;
  hashes = delete_from oldest s.hashes;
}

or_nil-map_option : (o : Option LruEntry) → or_nil (map_option (λ e. e.value) o) ≡ value_of o
or_nil-map_option none = refl
or_nil-map_option (some e) = refl

evict-to_fifo :
    (s : LruStorage) (b : Text) (rest : List Text)
    → back_first (remove_back s.list) ≡ rest
    → to_fifo (evict b s) ≡ fifo_evict b rest (to_fifo s)
unfolding evict
evict-to_fifo s b rest e =
    rw
      (
        e,
        delete-map_values (λ x. x.value) b s.storage,
        delete-map_values (λ x. x.hash) b s.storage,
        lookup-map_values (λ x. x.value) b s.storage,
        or_nil-map_option (lookup b s.storage),
      )
      refl

-- A round of each loop, and the end of each.
evict_loop-suc :
    (m : ℕ) (s : LruStorage) (b : Text) (over : Bool)
    → back s.list ≡ some b
    → gt_int s.cur_size s.max_size ≡ over
    → evict_loop (suc m) s ≡ (if over then evict_loop m (evict b s) else s)
unfolding evict_loop
evict_loop-suc m s b over found e = rw (evict_loop, found, e) refl

fifo_evict_loop-cons :
    (b : Text) (rest : List Text) (t : FifoStorage) (over : Bool)
    → gt_int t.cur_size t.max_size ≡ over
    → Fifo.evict_loop (b ∷ rest) t
      ≡ (if over then Fifo.evict_loop rest (fifo_evict b rest t) else record t { order = b ∷ rest })
unfolding Fifo.evict_loop
fifo_evict_loop-cons b rest t true e = rw (Fifo.evict_loop, e) refl
fifo_evict_loop-cons b rest t false e = rw (Fifo.evict_loop, e) refl

evict_loop-to_fifo :
    (n : ℕ) (l : List Text) (s : LruStorage)
    → s.list ≡ l
    → length l ≡ n
    → to_fifo (evict_loop n s) ≡ Fifo.evict_loop (back_first l) (to_fifo s)
unfolding evict_loop Fifo.evict_loop back_first
evict_loop-to_fifo zero [] s e n = rw e refl
evict_loop-to_fifo zero (k ∷ ks) s e n = absurd (omega arith)
evict_loop-to_fifo (suc m) [] s e n = absurd (omega arith)
evict_loop-to_fifo (suc m) (k ∷ ks) s e n =
    let (b, found, split) = back_first-back k ks in
    let last : back s.list ≡ some b = rw e found in
    let left = remove_back (k ∷ ks) in
    let evicted : (evict b s).list ≡ left = unfold evict in (ap remove_back e) in
    let fewer : length left ≡ m = length-remove_back k ks ∙ omega arith in
    let order : back_first s.list ≡ b ∷ back_first left = ap back_first e ∙ split in
    elim (Bool-cases (gt_int s.cur_size s.max_size)) [
      | inl over ↦
          ap to_fifo (evict_loop-suc m s b true last over)
          ∙ evict_loop-to_fifo m left (evict b s) evicted fewer
          ∙ ap (Fifo.evict_loop (back_first left))
              (evict-to_fifo s b (back_first left) (ap back_first evicted))
          ∙ sym (fifo_evict_loop-cons b (back_first left) (to_fifo s) true over)
          ∙ ap (λ o. Fifo.evict_loop o (to_fifo s)) (sym split)
      | inr fit ↦
          ap to_fifo (evict_loop-suc m s b false last fit)
          ∙ ap (λ o. record (to_fifo s) { order = o }) order
          ∙ sym (fifo_evict_loop-cons b (back_first left) (to_fifo s) false fit)
          ∙ ap (λ o. Fifo.evict_loop o (to_fifo s)) (sym split)
    ]

-- What `Write` of the FIFO store hands to its eviction.
abbrev fifo_put : FifoStorage → Text → ℕ → Slice → FifoStorage
fifo_put s key hash value =
    let t = forget_old s key in
    record t {
      order = t.order ++ key ∷ [];
      storage = insert key value t.storage;
      hashes = insert key hash t.hashes;
      cur_size = add_int t.cur_size (len value);
    }

put-to_fifo :
    (s : LruStorage) (key : Text) (hash : ℕ) (value : Slice)
    → Distinct (back_first s.list)
    → to_fifo (put s key hash value) ≡ fifo_put (to_fifo s) key hash value
unfolding put move_to_front forget_old back_first
put-to_fifo s key hash value d =
    let entry : LruEntry = record { hash = hash; value = value } in
    elim (Option-cases (lookup key s.storage)) [
      | inl absent ↦
          rw
            (
              put,
              absent,
              forget_old,
              lookup-map_values (λ x. x.value) key s.storage,
              absent,
              insert-map_values (λ x. x.value) key entry s.storage,
              insert-map_values (λ x. x.hash) key entry s.storage,
            )
            refl
      | inr (old, found) ↦
          rw
            (
              put,
              found,
              forget_old,
              lookup-map_values (λ x. x.value) key s.storage,
              found,
              insert-map_values (λ x. x.value) key entry s.storage,
              insert-map_values (λ x. x.hash) key entry s.storage,
              back_first-remove_first key s.list d,
            )
            refl
    ]

-- A write to an LRU store whose keys are distinct is the write to the FIFO store.
pub write-to_fifo :
    (s : LruStorage) (key : Text) (hash : ℕ) (value : Slice)
    → Distinct (back_first s.list)
    → to_fifo (write s key hash value) ≡ Fifo.write (to_fifo s) key hash value
unfolding write Fifo.write
write-to_fifo s key hash value d =
    let t = put s key hash value in
    evict_loop-to_fifo (length t.list) t.list t refl refl
    ∙ ap (λ u. Fifo.evict_loop u.order u) (put-to_fifo s key hash value d)

-- So is a deletion.
pub delete-to_fifo :
    (s : LruStorage) (key : Text)
    → Distinct (back_first s.list)
    → to_fifo (delete s key) ≡ Fifo.delete (to_fifo s) key
unfolding delete Fifo.delete
delete-to_fifo s key d = elim (Option-cases (lookup key s.storage)) [
  | inl absent ↦
      rw (delete, absent, Fifo.delete, lookup-map_values (λ x. x.value) key s.storage, absent) refl
  | inr (entry, found) ↦
      rw
        (
          delete,
          found,
          Fifo.delete,
          lookup-map_values (λ x. x.value) key s.storage,
          found,
          delete-map_values (λ x. x.value) key s.storage,
          delete-map_values (λ x. x.hash) key s.storage,
          back_first-remove_first key s.list d,
        )
        refl
]
