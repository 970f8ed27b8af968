-- ===== src/Storage/Fifo/Update.antt =====
-- `Write` and `Delete` of `FIFOStorage` (storage/fifo.go) keep its invariant, and are those of the
-- queue.
use qa_d.Base.{
  ℕ, ◌+◌, ◌<◌, ◌≤◌, ◌≡◌, refl, ap, ap₂, sym, ◌∙◌, Bool-cases, true, false, List, [], ◌∷◌, ◌++◌,
  Text, text_eq, text_eq_iff, if◌then◌else◌, arith, inl, inr, Option-cases, lookup, insert,
  lookup-insert, lookup-delete, contains_text, Distinct, Distinct-append, contains_text-append,
  is_some,
}
use qa_d.Base.Int64.{sign, gt_int, add_int, add_int_small, sub_int_left}
use qa_d.Storage.{Slice, len}
use qa_d.Storage.Queue.{new_entry, size, drop_key, trim}
use qa_d.Storage.Fifo.{FifoStorage, remove_first, evict_loop, forget_old, write, delete}
use qa_d.Storage.Queue.Find.{size-append}
use qa_d.Storage.Fifo.View.{
  entry, entries, view, entries-append, entries-insert, entries-delete, entries-remove_first,
  size-remove_first, remove_first_absent, contains_text-remove_first, remove_first-Distinct,
}
use qa_d.Storage.Fifo.Valid.{IsValid, evicted, evict_loop-trim}

-- The state of `Write` before it evicts.
abbrev pub stored_new : FifoStorage → Text → ℕ → Slice → FifoStorage
stored_new t key hash value = record t {
  order = t.order ++ key ∷ [];
  storage = insert key value t.storage;
  hashes = insert key hash t.hashes;
  cur_size = add_int t.cur_size (len value);
}

-- What `forgetOld` leaves: the key is out of the order and its bytes off the size, but its entry is
-- still in the maps.
record Forgot (s t : FifoStorage) (key : Text) : Type 0 where
  distinct : Distinct t.order
  absent : contains_text t.order key ≡ false
  stored :
      (k : Text)
      → contains_text t.order k ≡ (if text_eq key k then false else is_some (lookup k t.storage))
  hashed : (k : Text) → is_some (lookup k t.hashes) ≡ is_some (lookup k t.storage)
  sized : t.cur_size ≡ size (view t)
  smaller : size (view t) ≤ size (view s)
  viewed : view t ≡ drop_key key (view s)
  limit : t.max_size ≡ s.max_size

forget_old-Forgot : (s : FifoStorage) (key : Text) → IsValid s → Forgot s (forget_old s key) key
unfolding forget_old
forget_old-Forgot s key v = elim (Option-cases (lookup key s.storage)) [
  | inl new ↦
      let absent : contains_text s.order key ≡ false = ground (arith, v.stored key) in
      rw (new, forget_old)
        (record {
          distinct = v.distinct;
          absent = absent;
          stored = λ k. ground (arith, v.stored k, text_eq_iff key k);
          hashed = v.hashed;
          sized = v.sized;
          smaller = omega arith;
          viewed =
              ap (entries s.storage s.hashes) (sym (remove_first_absent s.order key absent))
              ∙ entries-remove_first s.storage s.hashes s.order key;
          limit = refl;
        })
  | inr (old, found) ↦
      let known : contains_text s.order key ≡ true = ground (arith, v.stored key) in
      let less : len old + size (entries s.storage s.hashes (remove_first key s.order))
          ≡ size (view s) =
        rw found at (size-remove_first s.storage s.hashes s.order key known) in
      let out = λ (k : Text). contains_text-remove_first s.order key k v.distinct in
      rw (found, forget_old)
        (record {
          distinct = remove_first-Distinct s.order key v.distinct;
          absent = ground (arith, out key, text_eq_iff key key);
          stored = λ k. ground (arith, out k, v.stored k);
          hashed = v.hashed;
          sized = sub_int_left s.cur_size _ _ (v.sized ∙ sym less) (omega arith);
          smaller = omega arith;
          viewed = entries-remove_first s.storage s.hashes s.order key;
          limit = refl;
        })
]

module _ (t : FifoStorage) (key : Text) (hash : ℕ) (value : Slice) where
  view-stored_new :
      contains_text t.order key ≡ false
      → view (stored_new t key hash value) ≡ view t ++ new_entry key hash value ∷ []
  view-stored_new absent =
      let st = insert key value t.storage in
      let hs = insert key hash t.hashes in
      let own : entry st hs key ≡ new_entry key hash value = ground (
        arith,
        lookup-insert key key value t.storage,
        lookup-insert key key hash t.hashes,
        text_eq_iff key key,
      ) in
      entries-append st hs t.order key
      ∙ ap₂ (λ q e. q ++ e ∷ []) (entries-insert t.storage t.hashes t.order key hash value absent)
          own

  stored_new-IsValid :
      (s : FifoStorage)
      → IsValid s
      → Forgot s t key
      → size (view s) + len value < sign
      → IsValid (stored_new t key hash value)
  unfolding contains_text
  stored_new-IsValid s v f room =
      let same = view-stored_new f.absent in
      let total : size (view (stored_new t key hash value)) ≡ size (view t) + len value =
        ap size same ∙ omega (arith, size-append (view t) (new_entry key hash value ∷ [])) in
      record {
        distinct = Distinct-append t.order key f.distinct f.absent;
        stored = λ k. ground (
          arith,
          contains_text-append t.order (key ∷ []) k,
          f.stored k,
          lookup-insert k key value t.storage,
        );
        hashed = λ k. ground (
          arith,
          f.hashed k,
          lookup-insert k key value t.storage,
          lookup-insert k key hash t.hashes,
        );
        sized =
            ap (λ n. add_int n (len value)) f.sized
            ∙ add_int_small (size (view t)) (len value) (omega (arith, f.smaller))
            ∙ sym total;
        small = omega (arith, total, f.smaller);
        bounded = rw f.limit v.bounded;
      }

-- `Write` is a write to the queue: the old entry of the key goes, the new one goes to the back, and
-- entries are evicted from the front.
pub write-trim :
    (s : FifoStorage) (key : Text) (hash : ℕ) (value : Slice)
    → IsValid s
    → size (view s) + len value < sign
    → (view (write s key hash value)
        ≡ trim s.max_size (drop_key key (view s) ++ new_entry key hash value ∷ []))
      × IsValid (write s key hash value)
unfolding write
write-trim s key hash value v room =
    let t = forget_old s key in
    let f = forget_old-Forgot s key v in
    let u = stored_new t key hash value in
    let (seen, valid) =
      evict_loop-trim u.order u (stored_new-IsValid t key hash value s v f room) in
    let same = view-stored_new t key hash value f.absent in
    (
      seen
          ∙ ap₂ (λ m q. trim m q) f.limit
              (same ∙ ap (λ q. q ++ new_entry key hash value ∷ []) f.viewed),
      valid,
    )

-- `Delete` takes the entry of the key out of the queue.
pub delete-drop_key :
    (s : FifoStorage) (key : Text)
    → IsValid s
    → (view (delete s key) ≡ drop_key key (view s)) × IsValid (delete s key)
unfolding delete
delete-drop_key s key v = elim (Option-cases (lookup key s.storage)) [
  | inl new ↦
      let absent : contains_text s.order key ≡ false = ground (arith, v.stored key) in
      rw (new, delete)
        (
          ap (entries s.storage s.hashes) (sym (remove_first_absent s.order key absent))
              ∙ entries-remove_first s.storage s.hashes s.order key,
          v,
        )
  | inr (old, found) ↦
      let known : contains_text s.order key ≡ true = ground (arith, v.stored key) in
      let less : len old + size (entries s.storage s.hashes (remove_first key s.order))
          ≡ size (view s) =
        rw found at (size-remove_first s.storage s.hashes s.order key known) in
      let out = λ (k : Text). contains_text-remove_first s.order key k v.distinct in
      let ks = remove_first key s.order in
      let same =
        entries-delete s.storage s.hashes ks key (ground (arith, out key, text_eq_iff key key)) in
      rw (found, delete)
        (
          same ∙ entries-remove_first s.storage s.hashes s.order key,
          record {
            distinct = remove_first-Distinct s.order key v.distinct;
            stored = λ k. ground (arith, out k, v.stored k, lookup-delete k key s.storage);
            hashed = λ k.
                ground
                  (arith, v.hashed k, lookup-delete k key s.storage, lookup-delete k key s.hashes);
            sized =
                sub_int_left s.cur_size _ _ (v.sized ∙ sym less) (omega arith) ∙ sym (ap size same);
            small = rw same (omega arith);
            bounded = v.bounded;
          },
        )
]

evict_loop-limit : (ks : List Text) (s : FifoStorage) → (evict_loop ks s).max_size ≡ s.max_size
unfolding evict_loop
evict_loop-limit [] s = refl
evict_loop-limit (oldest ∷ rest) s = elim (Bool-cases (gt_int s.cur_size s.max_size)) [
  | inl over ↦ rw (over, evict_loop) (evict_loop-limit rest (evicted oldest rest s))
  | inr fit ↦ rw (fit, evict_loop)
]

-- No operation changes the limit.
pub write-limit :
    (s : FifoStorage) (key : Text) (hash : ℕ) (value : Slice)
    → (write s key hash value).max_size ≡ s.max_size
unfolding write
write-limit s key hash value =
    let u = stored_new (forget_old s key) key hash value in
    evict_loop-limit u.order u ∙ (unfold forget_old in (ground arith))

pub delete-limit : (s : FifoStorage) (key : Text) → (delete s key).max_size ≡ s.max_size
unfolding delete
delete-limit s key = ground arith
