-- ===== src/Config/Trimmed.antt =====
-- What the list of the seed nodes (config/index.go) makes of texts that are joined by commas.
use mathlib.Core.List.{reverse, reverse-cons, reverse-append, reverse-reverse}
use qa_d.Base.{
  ℕ, zero, suc, ◌≤◌, ◌≡◌, ◌≢◌, refl, sym, ap, ◌∙◌, subst, Bool, true, false, ◌&&◌, ◌||◌, not, List,
  [], ◌∷◌, ◌++◌, append-nil, append_assoc, Text, ltb, leb, ◌==◌, length, map, has_prefix, All,
  All-imp, arith, length-append,
}
use qa_d.Config.Seeds.{split, split_loop, spaces, space_length, trim_left, trim_space, seeds_of}

-- A printable byte of ASCII that is no space and no comma.
abbrev pub IsPlain : ℕ → Type 0
IsPlain c = (leb 33 c && leb c 126 && not (c == b',')) ≡ true

abbrev pub pad : ℕ → Text
pad zero = []
pad (suc n) = 32 ∷ pad n

-- No character of a list starts with a plain byte.
abbrev are_outside : List Text → Bool
are_outside [] = true
are_outside ([] ∷ ws) = false
are_outside ((h ∷ t) ∷ ws) = (ltb h 33 || ltb 126 h) && are_outside ws

space_length-plain :
    (ws : List Text) (c : ℕ) (cs : Text)
    → are_outside ws ≡ true
    → IsPlain c
    → space_length ws (c ∷ cs) ≡ 0
unfolding space_length has_prefix
space_length-plain [] c cs o p = refl
space_length-plain ([] ∷ ws) c cs o p = cc
space_length-plain ((h ∷ t) ∷ ws) c cs o p = ground (arith, space_length-plain ws c cs)

-- Spaces are trimmed up to a plain byte.
trim_left-pad :
    (ws : List Text) (n fuel c : ℕ) (cs : Text)
    → are_outside ws ≡ true
    → ((s : Text) → space_length ws (32 ∷ s) ≡ 1)
    → IsPlain c
    → n ≤ fuel
    → trim_left ws fuel (pad n ++ c ∷ cs) ≡ c ∷ cs
unfolding trim_left
trim_left-pad ws zero zero c cs o h p le = refl
trim_left-pad ws zero (suc fuel) c cs o h p le = rw (trim_left, space_length-plain ws c cs o p) refl
trim_left-pad ws (suc n) zero c cs o h p le = absurd (omega arith)
trim_left-pad ws (suc n) (suc fuel) c cs o h p le =
    rw (trim_left, h (pad n ++ c ∷ cs)) (trim_left-pad ws n fuel c cs o h p (omega arith))

space_length-spaces : (s : Text) → space_length spaces (32 ∷ s) ≡ 1
unfolding space_length has_prefix
space_length-spaces s = refl

space_length-reversed : (s : Text) → space_length (map reverse spaces) (32 ∷ s) ≡ 1
unfolding space_length has_prefix
space_length-reversed s = refl

pad-snoc : (n : ℕ) → pad n ++ 32 ∷ [] ≡ 32 ∷ pad n
pad-snoc zero = refl
pad-snoc (suc n) = ap (◌∷◌ 32) (pad-snoc n)

reverse-pad : (n : ℕ) → reverse (pad n) ≡ pad n
reverse-pad zero = refl
reverse-pad (suc n) = reverse-cons 32 (pad n) ∙ ap (λ s. s ++ 32 ∷ []) (reverse-pad n) ∙ pad-snoc n

length-pad : (n : ℕ) → length (pad n) ≡ n
length-pad zero = refl
length-pad (suc n) = ap suc (length-pad n)

All-snoc : (t : Text) (c : ℕ) → All IsPlain t → IsPlain c → All IsPlain (t ++ c ∷ [])
All-snoc [] c a p = (p, tt)
All-snoc (x ∷ t) c a p = (a.0, All-snoc t c a.1 p)

All-reverse : (t : Text) → All IsPlain t → All IsPlain (reverse t)
All-reverse [] a = tt
All-reverse (x ∷ t) a =
    subst (All IsPlain) (sym (reverse-cons x t)) (All-snoc (reverse t) x (All-reverse t a.1) a.0)

-- The end of the trimming, for a text that was trimmed at its start.
trim_right-pad :
    (t : Text) (m : ℕ)
    → All IsPlain t
    → t ≢ []
    → reverse (trim_left (map reverse spaces) (length (t ++ pad m)) (reverse (t ++ pad m))) ≡ t
trim_right-pad t m a full = go (reverse t) refl (All-reverse t a)
  where
    long : m ≤ length (t ++ pad m)
    long = omega (arith, length-append t (pad m), length-pad m)

    back : reverse (t ++ pad m) ≡ pad m ++ reverse t
    back = reverse-append t (pad m) ∙ ap (λ s. s ++ reverse t) (reverse-pad m)

    go :
        (r : Text)
        → reverse t ≡ r
        → All IsPlain r
        → reverse (trim_left (map reverse spaces) (length (t ++ pad m)) (reverse (t ++ pad m))) ≡ t
    go [] e b = absurd (full (sym (reverse-reverse t) ∙ ap reverse e))
    go (c ∷ cs) e b =
        ap (λ s. reverse (trim_left (map reverse spaces) (length (t ++ pad m)) s))
          (back ∙ ap (λ s. pad m ++ s) e)
        ∙ ap reverse (
            trim_left-pad (map reverse spaces) m (length (t ++ pad m)) c cs refl
              space_length-reversed b.0 long)
        ∙ ap reverse (sym e)
        ∙ reverse-reverse t

-- A text of plain bytes between spaces is trimmed to the text.
trim_space-pad :
    (n m : ℕ) (t : Text) → All IsPlain t → t ≢ [] → trim_space (pad n ++ (t ++ pad m)) ≡ t
unfolding trim_space
trim_space-pad n m [] a full = absurd (full refl)
trim_space-pad n m (c ∷ cs) a full =
    let whole = pad n ++ ((c ∷ cs) ++ pad m) in
    let first : trim_left spaces (length whole) whole ≡ (c ∷ cs) ++ pad m =
      trim_left-pad spaces n (length whole) c (cs ++ pad m) refl space_length-spaces a.0
        (omega (arith, length-append (pad n) ((c ∷ cs) ++ pad m), length-pad n)) in
    rw first (trim_right-pad (c ∷ cs) m a full)

-- The bytes that are no comma.
abbrev NoComma : ℕ → Type 0
NoComma c = (c == b',') ≡ false

split_loop-last :
    (xs piece : Text) → All NoComma xs → split_loop piece xs ≡ (reverse piece ++ xs) ∷ []
unfolding split_loop
split_loop-last [] piece a = ap (λ p. p ∷ []) (sym (append-nil (reverse piece)))
split_loop-last (x ∷ xs) piece a =
    rw (split_loop, a.0)
      (split_loop-last xs (x ∷ piece) a.1
        ∙ ap (λ p. p ∷ [])
            (ap (λ r. r ++ xs) (reverse-cons x piece) ∙ append_assoc (reverse piece) (x ∷ []) xs))

split_loop-comma :
    (xs ys piece : Text)
    → All NoComma xs
    → split_loop piece (xs ++ b',' ∷ ys) ≡ (reverse piece ++ xs) ∷ split_loop [] ys
unfolding split_loop
split_loop-comma [] ys piece a = ap (λ p. p ∷ split_loop [] ys) (sym (append-nil (reverse piece)))
split_loop-comma (x ∷ xs) ys piece a =
    rw (split_loop, a.0)
      (split_loop-comma xs ys (x ∷ piece) a.1
        ∙ ap (λ p. p ∷ split_loop [] ys)
            (ap (λ r. r ++ xs) (reverse-cons x piece) ∙ append_assoc (reverse piece) (x ∷ []) xs))

-- A seed with the numbers of spaces before and behind it.
abbrev pub Padded : Type 0
Padded = ℕ × Text × ℕ

abbrev pub padded : Padded → Text
padded (n, t, m) = pad n ++ (t ++ pad m)

abbrev pub join_seeds : Padded → List Padded → Text
join_seeds p [] = padded p
join_seeds p (q ∷ qs) = padded p ++ b',' ∷ join_seeds q qs

-- A name or an address: plain bytes, and at least one.
abbrev pub IsSeed : Padded → Type 0
IsSeed (n, t, m) = All IsPlain t × (t ≢ [])

All-append-NoComma : (s t : Text) → All NoComma s → All NoComma t → All NoComma (s ++ t)
All-append-NoComma [] t a b = b
All-append-NoComma (x ∷ s) t a b = (a.0, All-append-NoComma s t a.1 b)

pad-NoComma : (n : ℕ) → All NoComma (pad n)
pad-NoComma zero = tt
pad-NoComma (suc n) = (refl, pad-NoComma n)

padded-NoComma : (p : Padded) → IsSeed p → All NoComma (padded p)
padded-NoComma (n, t, m) s =
    All-append-NoComma (pad n) (t ++ pad m) (pad-NoComma n)
      (All-append-NoComma t (pad m) (All-imp (λ c h. ground arith) t s.0) (pad-NoComma m))

trim_space-padded : (p : Padded) → IsSeed p → trim_space (padded p) ≡ p.1
trim_space-padded (n, t, m) s = trim_space-pad n m t s.0 s.1

-- Seeds of plain bytes, joined by commas, with any number of spaces round each, are read as these seeds.
pub seeds_of-join_seeds :
    (p : Padded) (ps : List Padded)
    → IsSeed p
    → All IsSeed ps
    → seeds_of (join_seeds p ps) ≡ p.1 ∷ map (λ q. q.1) ps
unfolding seeds_of split
seeds_of-join_seeds p [] s a =
    ap (map trim_space) (split_loop-last (padded p) [] (padded-NoComma p s))
    ∙ ap (λ t. t ∷ []) (trim_space-padded p s)
seeds_of-join_seeds p (q ∷ qs) s a =
    ap (map trim_space) (split_loop-comma (padded p) (join_seeds q qs) [] (padded-NoComma p s))
    ∙ ap (λ t. t ∷ map trim_space (split_loop [] (join_seeds q qs))) (trim_space-padded p s)
    ∙ ap (λ ts. p.1 ∷ ts) (seeds_of-join_seeds q qs a.0 a.1)
