-- ===== src/Storage/Lru/Runs.antt =====
-- The states that a run of an `LRUStorage` can reach, promoter included, and `ListKeys`.
use qa_d.Base.{
  ℕ, ◌+◌, ◌<◌, ◌≡◌, refl, sym, ap, subst, ◌∙◌, Option-cases, ◌&&◌, List, [], ◌∷◌, Text, text_eq,
  text_eq_iff, if◌then◌else◌, arith, inl, inr, ◌⊎◌, none, some, Assoc, lookup, insert,
  lookup-insert, contains_text, contains_text-append, is_some,
}
use qa_d.Base.Int64.{sign, modulus, max_zero}
use qa_d.Storage.{Slice, len, Storage}
use qa_d.Storage.Queue.{find}
use qa_d.Storage.Fifo as Fifo
use qa_d.Storage.Fifo.{FifoStorage, new_fifo_storage}
use qa_d.Storage.Fifo.View.{view}
use qa_d.Storage.Fifo.Valid.{new_fifo_storage-IsValid}
use qa_d.Storage.Fifo.Update.{write-limit, delete-limit}
use qa_d.Storage.Fifo.Contract.{read-find, list_keys-find, delete-find, write-find}
use qa_d.Storage.Fifo.Store.{IsSteady, HasRoom, write-IsSteady, delete-IsSteady}
use qa_d.Storage.Lru.{
  LruEntry, LruStorage, new_lru_storage, promote, read, write, delete, collect, list_keys,
}
use qa_d.Storage.Lru.Simulation.{to_fifo, write-to_fifo, delete-to_fifo}
use qa_d.Storage.Lru.Order.{map_values, map_option, lookup-map_values, back_first}
use qa_d.Storage.Lru.Store.{read-to_fifo, read-value, listed, promote_lem, promote-limit}

contains_text-back_first :
    (ks : List Text) (q : Text) → contains_text (back_first ks) q ≡ contains_text ks q
unfolding contains_text back_first
contains_text-back_first [] q = refl
contains_text-back_first (k ∷ ks) q =
    ground (arith, contains_text-append (back_first ks) (k ∷ []) q, contains_text-back_first ks q)

-- What the loop of `ListKeys` leaves for a key.
lookup-collect :
    (st : Assoc LruEntry) (ks : List Text) (m : Assoc ℕ) (q : Text)
    → lookup q (collect st ks m) ≡ (
        if contains_text ks q && is_some (lookup q st)
        then map_option (λ e. e.hash) (lookup q st)
        else lookup q m)
unfolding collect contains_text
lookup-collect st [] m q = refl
lookup-collect st (k ∷ ks) m q = elim (Option-cases (lookup k st)) [
  | inl absent ↦ ground (arith, absent, lookup-collect st ks m q, text_eq_iff k q)
  | inr (e, found) ↦ ground (
    arith,
    found,
    lookup-collect st ks (insert k e.hash m) q,
    lookup-insert q k e.hash m,
    text_eq_iff k q,
  )
]

module _ (s : LruStorage) (st : IsSteady (to_fifo s)) where
  pub list_keys-listed : (q : Text) → lookup q (list_keys s) ≡ lookup q (Fifo.list_keys (to_fifo s))
  unfolding list_keys Fifo.list_keys lookup
  list_keys-listed q = ground (
    arith,
    lookup-collect s.storage s.list [] q,
    contains_text-back_first s.list q,
    listed s st.valid q,
    lookup-map_values (λ e. e.hash) q s.storage,
  )

  pub lru_write-IsSteady :
      (k : Text) (h : ℕ) (v : Slice) → HasRoom (to_fifo s) v → IsSteady (to_fifo (write s k h v))
  lru_write-IsSteady k h v room =
      subst IsSteady (sym (write-to_fifo s k h v st.valid.distinct))
        (write-IsSteady (to_fifo s) st k h v room)

  pub lru_delete-IsSteady : (k : Text) → IsSteady (to_fifo (delete s k))
  lru_delete-IsSteady k =
      subst IsSteady (sym (delete-to_fifo s k st.valid.distinct)) (delete-IsSteady (to_fifo s) st k)

abbrev pub lru_storage : Storage
lru_storage = record {
  State = LruStorage;
  read = read;
  write = write;
  delete = delete;
  list_keys = list_keys;
  tick = promote;
  IsValid = λ s. IsSteady (to_fifo s);
  Room = λ s v. HasRoom (to_fifo s) v;
  held = λ s k. find k (view (to_fifo s));
  read_value = λ s k st. read-value s k ∙ read-find (to_fifo s) st.valid k;
  read_held = λ s k q st. ap (λ t. find q (view t)) (read-to_fifo s k);
  read_valid = λ s k st. subst IsSteady (sym (read-to_fifo s k)) st;
  write_held = λ s k h v q st room.
      subst
        (λ t.
          (find q (view t) ≡ none)
          ⊎ (find q (view t) ≡ (if text_eq k q then some (h, v) else find q (view (to_fifo s)))))
        (sym (write-to_fifo s k h v st.valid.distinct))
        (write-find (to_fifo s) st.valid k h v (omega (arith, st.within)) q);
  write_valid = λ s k h v st room. lru_write-IsSteady s st k h v room;
  delete_held = λ s k q st.
      ap (λ t. find q (view t)) (delete-to_fifo s k st.valid.distinct)
      ∙ delete-find (to_fifo s) st.valid k q;
  delete_valid = λ s k st. lru_delete-IsSteady s st k;
  tick_held = λ s q st. (promote_lem s st).1 q;
  tick_valid = λ s st. (promote_lem s st).0;
  list_keys_held = λ s q st. list_keys-listed s st q ∙ list_keys-find (to_fifo s) st.valid q;
}

-- A step of the store: a call, or a round of the promoter.
pub data Step : Type 0 where
  read_step : Text → Step
  write_step : Text → ℕ → Slice → Step
  delete_step : Text → Step
  promote_step : Step

unfoldable pub run_steps : List Step → LruStorage → LruStorage
run_steps [] s = s
run_steps (read_step key ∷ steps) s = run_steps steps (read s key).1
run_steps (write_step key hash value ∷ steps) s = run_steps steps (write s key hash value)
run_steps (delete_step key ∷ steps) s = run_steps steps (delete s key)
run_steps (promote_step ∷ steps) s = run_steps steps (promote s)

-- No value of a run is too long for the machine.
abbrev pub StepsFit : ℕ → List Step → Type 0
StepsFit max [] = Unit
StepsFit max (read_step key ∷ steps) = StepsFit max steps
StepsFit max (write_step key hash value ∷ steps) =
    (max_zero max + len value < sign) × StepsFit max steps
StepsFit max (delete_step key ∷ steps) = StepsFit max steps
StepsFit max (promote_step ∷ steps) = StepsFit max steps

steps-keep :
    (steps : List Step) (s : LruStorage) (max : ℕ)
    → IsSteady (to_fifo s)
    → s.max_size ≡ max
    → StepsFit max steps
    → IsSteady (to_fifo (run_steps steps s))
unfolding run_steps
steps-keep [] s max st e f = st
steps-keep (read_step key ∷ steps) s max st e f =
    let same = read-to_fifo s key in
    steps-keep steps (read s key).1 max (subst IsSteady (sym same) st)
      (ap (λ t. t.max_size) same ∙ e) f
steps-keep (write_step key hash value ∷ steps) s max st e f =
    let same = write-to_fifo s key hash value st.valid.distinct in
    steps-keep steps (write s key hash value) max
      (lru_write-IsSteady s st key hash value (rw e f.0))
      (ap (λ t. t.max_size) same ∙ write-limit (to_fifo s) key hash value ∙ e) f.1
steps-keep (delete_step key ∷ steps) s max st e f =
    let same = delete-to_fifo s key st.valid.distinct in
    steps-keep steps (delete s key) max (lru_delete-IsSteady s st key)
      (ap (λ t. t.max_size) same ∙ delete-limit (to_fifo s) key ∙ e) f
steps-keep (promote_step ∷ steps) s max st e f =
    steps-keep steps (promote s) max (promote_lem s st).0 (promote-limit s st ∙ e) f

-- After any run of calls and rounds of the promoter on a new LRU store, the limit and each value
-- together being fewer than 2 ^ 63 bytes, the list holds the keys of the map, each once, `curSize` is
-- the number of stored bytes, and this is at most the limit, or 0 where that is negative.
pub run_steps-IsSteady :
    (max : ℕ) (steps : List Step)
    → max < modulus
    → StepsFit max steps
    → IsSteady (to_fifo (run_steps steps (new_lru_storage max)))
unfolding new_lru_storage map_values back_first new_fifo_storage
run_steps-IsSteady max steps h f =
    steps-keep steps (new_lru_storage max) max
      (record { valid = new_fifo_storage-IsValid max h; within = omega arith }) refl f
