-- ===== src/Storage/Fifo/Valid.antt =====
-- The invariant of `FIFOStorage` (storage/fifo.go), and that its eviction loop keeps it.
use qa_d.Base.{
  ℕ, ◌<◌, ◌≡◌, refl, ap, sym, ◌∙◌, Bool-cases, List, [], ◌∷◌, Text, text_eq_iff, arith, inl, inr,
  lookup, delete as delete_from, lookup-delete, contains_text, Distinct, is_some,
}
use qa_d.Base.Int64.{sign, modulus, gt_int, sub_int, sub_int_left}
use qa_d.Storage.{len, or_nil}
use qa_d.Storage.Queue.{size, trim}
use qa_d.Storage.Fifo.{FifoStorage, evict_loop, new_fifo_storage}
use qa_d.Storage.Fifo.View.{entries, view, entries-delete}

-- The order holds the keys of both maps, each once, and `curSize` counts the bytes of the values.
pub record IsValid (s : FifoStorage) : Type 0 where
  pub distinct : Distinct s.order
  pub stored : (k : Text) → contains_text s.order k ≡ is_some (lookup k s.storage)
  pub hashed : (k : Text) → is_some (lookup k s.hashes) ≡ is_some (lookup k s.storage)
  pub sized : s.cur_size ≡ size (view s)
  pub small : size (view s) < sign
  pub bounded : s.max_size < modulus

pub new_fifo_storage-IsValid : (n : ℕ) → n < modulus → IsValid (new_fifo_storage n)
unfolding new_fifo_storage contains_text lookup
new_fifo_storage-IsValid n h = record {
  distinct = tt;
  stored = λ _. refl;
  hashed = λ _. refl;
  sized = refl;
  small = omega arith;
  bounded = h;
}

-- One round of the eviction loop.
abbrev pub evicted : Text → List Text → FifoStorage → FifoStorage
evicted oldest rest s = record s {
  order = rest;
  cur_size = sub_int s.cur_size (len (or_nil (lookup oldest s.storage)));
  storage = delete_from oldest s.storage;
  hashes = delete_from oldest s.hashes;
}

evicted-IsValid :
    (oldest : Text) (rest : List Text) (s : FifoStorage)
    → IsValid (record s { order = oldest ∷ rest })
    → IsValid (evicted oldest rest s)
unfolding contains_text
evicted-IsValid oldest rest s v =
    let same = entries-delete s.storage s.hashes rest oldest v.distinct.0 in
    record {
      distinct = v.distinct.1;
      stored =
          λ k. ground (arith, v.stored k, lookup-delete k oldest s.storage, text_eq_iff oldest k);
      hashed = λ k.
          ground
            (arith, v.hashed k, lookup-delete k oldest s.storage, lookup-delete k oldest s.hashes);
      sized = sub_int_left s.cur_size _ _ v.sized v.small ∙ sym (ap size same);
      small = rw same (omega arith);
      bounded = v.bounded;
    }

pub evict_loop-trim :
    (ks : List Text) (s : FifoStorage)
    → IsValid (record s { order = ks })
    → (view (evict_loop ks s) ≡ trim s.max_size (entries s.storage s.hashes ks))
      × IsValid (evict_loop ks s)
unfolding evict_loop trim
evict_loop-trim [] s v = (refl, v)
evict_loop-trim (oldest ∷ rest) s v = elim (Bool-cases (gt_int s.cur_size s.max_size)) [
  | inl over ↦
      let (seen, valid) =
        evict_loop-trim rest (evicted oldest rest s) (evicted-IsValid oldest rest s v) in
      let same = entries-delete s.storage s.hashes rest oldest v.distinct.0 in
      rw (← v.sized, over, evict_loop) (seen ∙ ap (trim s.max_size) same, valid)
  | inr fit ↦ rw (← v.sized, fit, evict_loop) (refl, v)
]
