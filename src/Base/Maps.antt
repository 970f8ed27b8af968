-- ===== src/Base/Maps.antt =====
-- Go maps with string keys, as association lists that hold each key once.
use mathlib.Core.Path.{◌≡◌, refl}
use mathlib.Core.List.{List, [], ◌∷◌, map}
use mathlib.Core.Option.{Option, none, some}
use native.Mathlib.Omega.{arith}
use qa_d.Base.Tests.{if◌then◌else◌}
use qa_d.Base.Strings.{Text, text_eq, text_eq_iff}

abbrev pub Assoc {ℓ} : Type ℓ → Type ℓ
Assoc V = List (Text × V)

module _ {ℓ} {V : Type ℓ} where
  -- `v, ok := m[k]`
  unfoldable pub lookup : Text → Assoc V → Option V
  lookup k [] = none
  lookup k ((j, v) ∷ m) = if text_eq j k then some v else lookup k m

  -- `m[k] = v`
  unfoldable pub insert : Text → V → Assoc V → Assoc V
  insert k v [] = (k, v) ∷ []
  insert k v ((j, w) ∷ m) = if text_eq j k then (k, v) ∷ m else (j, w) ∷ insert k v m

  -- `delete(m, k)`
  unfoldable pub delete : Text → Assoc V → Assoc V
  delete k [] = []
  delete k ((j, w) ∷ m) = let rest = delete k m in if text_eq j k then rest else (j, w) ∷ rest

  abbrev pub keys : Assoc V → List Text
  keys m = map (λ e. e.0) m

  pub lookup-insert :
      (q k : Text) (v : V) (m : Assoc V)
      → lookup q (insert k v m) ≡ (if text_eq k q then some v else lookup q m)
  unfolding lookup insert
  lookup-insert q k v [] = refl
  lookup-insert q k v ((j, w) ∷ m) =
      ground (arith, text_eq_iff j k, text_eq_iff k q, text_eq_iff j q, lookup-insert q k v m)

  pub lookup-delete :
      (q k : Text) (m : Assoc V)
      → lookup q (delete k m) ≡ (if text_eq k q then none else lookup q m)
  unfolding lookup delete
  lookup-delete q k [] = ground arith
  lookup-delete q k ((j, w) ∷ m) =
      ground (arith, text_eq_iff j k, text_eq_iff k q, text_eq_iff j q, lookup-delete q k m)
