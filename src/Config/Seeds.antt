-- ===== src/Config/Seeds.antt =====
-- The seed nodes of the settings (config/index.go): `strings.Split` by a comma, and
-- `strings.TrimSpace`.
use mathlib.Core.List.{reverse}
use qa_d.Base.{
  ℕ, zero, suc, true, false, List, [], ◌∷◌, Text, has_prefix, ◌==◌, length, drop, map,
  if◌then◌else◌,
}

-- `strings.Split(s, ",")`, with the bytes of the piece so far, the last one first.
unfoldable pub split_loop : Text → Text → List Text
split_loop piece [] = reverse piece ∷ []
split_loop piece (c ∷ cs) = elim (c == b',') [
  | true ↦ reverse piece ∷ split_loop [] cs
  | false ↦ split_loop (c ∷ piece) cs
]

unfoldable pub split : Text → List Text
unfolding split_loop
split s = split_loop [] s

-- The characters of `unicode.IsSpace`, as they are written in UTF-8.
abbrev pub spaces : List Text
spaces =
    (9 ∷ [])
    ∷ (10 ∷ [])
    ∷ (11 ∷ [])
    ∷ (12 ∷ [])
    ∷ (13 ∷ [])
    ∷ (32 ∷ [])
    ∷ (194 ∷ 133 ∷ [])
    ∷ (194 ∷ 160 ∷ [])
    ∷ (225 ∷ 154 ∷ 128 ∷ [])
    ∷ (226 ∷ 128 ∷ 128 ∷ [])
    ∷ (226 ∷ 128 ∷ 129 ∷ [])
    ∷ (226 ∷ 128 ∷ 130 ∷ [])
    ∷ (226 ∷ 128 ∷ 131 ∷ [])
    ∷ (226 ∷ 128 ∷ 132 ∷ [])
    ∷ (226 ∷ 128 ∷ 133 ∷ [])
    ∷ (226 ∷ 128 ∷ 134 ∷ [])
    ∷ (226 ∷ 128 ∷ 135 ∷ [])
    ∷ (226 ∷ 128 ∷ 136 ∷ [])
    ∷ (226 ∷ 128 ∷ 137 ∷ [])
    ∷ (226 ∷ 128 ∷ 138 ∷ [])
    ∷ (226 ∷ 128 ∷ 168 ∷ [])
    ∷ (226 ∷ 128 ∷ 169 ∷ [])
    ∷ (226 ∷ 128 ∷ 175 ∷ [])
    ∷ (226 ∷ 129 ∷ 159 ∷ [])
    ∷ (227 ∷ 128 ∷ 128 ∷ [])
    ∷ []

-- The length of the space that a text starts with, 0 if it starts with none.
unfoldable pub space_length : List Text → Text → ℕ
space_length [] s = 0
space_length (w ∷ ws) s = if has_prefix s w then length w else space_length ws s

-- The text without the spaces at its start. There are at most as many as it has bytes.
unfoldable pub trim_left : List Text → ℕ → Text → Text
unfolding space_length
trim_left ws zero s = s
trim_left ws (suc fuel) s = elim (space_length ws s) [
  | zero ↦ s
  | suc n ↦ trim_left ws fuel (drop (suc n) s)
]

-- `strings.TrimSpace`
unfoldable pub trim_space : Text → Text
unfolding trim_left
trim_space s =
    let t = trim_left spaces (length s) s in
    reverse (trim_left (map reverse spaces) (length t) (reverse t))

unfoldable pub seeds_of : Text → List Text
unfolding split trim_space
seeds_of s = map trim_space (split s)
