-- ===== src/Storage/Lru/Order.antt =====
-- The list of `LRUStorage` (storage/lru.go) from the back to the front, and maps whose values are
-- changed one by one.
use qa_d.Base.{
  ◌≡◌, refl, false, List, [], ◌∷◌, ◌++◌, Text, text_eq, text_eq_iff, if◌then◌else◌, length, arith,
  Option, none, some, Assoc, lookup, insert, delete as delete_from, contains_text,
  contains_text-append, Distinct,
}
use qa_d.Storage.Fifo.{remove_first}
use qa_d.Storage.Fifo.View.{remove_first_absent}
use qa_d.Storage.Lru.{back, remove_back}

-- The values of a map, changed one by one.
module _ {V W : Type 0} (f : V → W) where
  unfoldable pub map_values : Assoc V → Assoc W
  map_values [] = []
  map_values ((k, v) ∷ m) = (k, f v) ∷ map_values m

  abbrev pub map_option : Option V → Option W
  map_option none = none
  map_option (some v) = some (f v)

  pub lookup-map_values :
      (k : Text) (m : Assoc V) → lookup k (map_values m) ≡ map_option (lookup k m)
  unfolding lookup map_values
  lookup-map_values k [] = refl
  lookup-map_values k ((j, v) ∷ m) = ground (arith, lookup-map_values k m)

  pub insert-map_values :
      (k : Text) (v : V) (m : Assoc V) → map_values (insert k v m) ≡ insert k (f v) (map_values m)
  unfolding insert map_values
  insert-map_values k v [] = refl
  insert-map_values k v ((j, w) ∷ m) = ground (arith, insert-map_values k v m)

  pub delete-map_values :
      (k : Text) (m : Assoc V) → map_values (delete_from k m) ≡ delete_from k (map_values m)
  unfolding delete_from map_values
  delete-map_values k [] = refl
  delete-map_values k ((j, w) ∷ m) = ground (arith, delete-map_values k m)

-- The list from the back to the front.
unfoldable pub back_first : List Text → List Text
back_first [] = []
back_first (k ∷ ks) = back_first ks ++ k ∷ []

pub back_first-back :
    (k : Text) (ks : List Text)
    → (b : Text) × (back (k ∷ ks) ≡ some b)
      × (back_first (k ∷ ks) ≡ b ∷ back_first (remove_back (k ∷ ks)))
unfolding back_first back remove_back
back_first-back k [] = (k, refl, refl)
back_first-back k (j ∷ js) =
    let (b, found, split) = back_first-back j js in (b, found, rw split refl)

pub length-remove_back : (k : Text) (ks : List Text) → length (remove_back (k ∷ ks)) ≡ length ks
unfolding remove_back
length-remove_back k [] = refl
length-remove_back k (j ∷ js) = ground (arith, length-remove_back j js)

Distinct-init :
    (xs : List Text) (j : Text)
    → Distinct (xs ++ j ∷ [])
    → Distinct xs × (contains_text xs j ≡ false)
unfolding contains_text
Distinct-init [] j d = (tt, refl)
Distinct-init (x ∷ xs) j d = ground (
  arith,
  Distinct-init xs j d.1,
  contains_text-append xs (j ∷ []) x,
  text_eq_iff x j,
  text_eq_iff j x,
)

remove_first-append :
    (k j : Text) (xs : List Text)
    → remove_first k (xs ++ j ∷ []) ≡ (
        if contains_text xs k
        then remove_first k xs ++ j ∷ []
        else if text_eq j k
        then xs
        else xs ++ j ∷ [])
unfolding remove_first contains_text
remove_first-append k j [] = ground arith
remove_first-append k j (x ∷ xs) =
    ground (arith, remove_first-append k j xs, text_eq_iff x k, text_eq_iff k x)

pub back_first-remove_first :
    (k : Text) (ks : List Text)
    → Distinct (back_first ks)
    → back_first (remove_first k ks) ≡ remove_first k (back_first ks)
unfolding remove_first back_first
back_first-remove_first k [] d = refl
back_first-remove_first k (j ∷ js) d =
    let (rest, fresh) = Distinct-init (back_first js) j d in
    ground (
      arith,
      back_first-remove_first k js rest,
      remove_first-append k j (back_first js),
      remove_first_absent (back_first js) k,
      text_eq_iff j k,
      fresh,
    )
