-- ===== src/Std/Text.antt =====
-- What the code uses of package strings, on the bytes of a text: `strings.TrimSpace`, `HasPrefix`,
-- `Contains`, `Index`, `Split` at one byte, and `EqualFold` with an ASCII text.
use marbles_game.Prelude.{
  All, All-append, Bool, List, Option, Str, [], arith, false, if◌then◌else◌, leb, none, refl, some,
  true, ℕ, ◌&&◌, ◌++◌, ◌+◌, ◌<◌, ◌==◌, ◌||◌, ◌∷◌, ◌≡◌, ◌≤◌,
}
use mathlib.Core.List.{reverse, reverse-cons, reverse-reverse}

-- `unicode.IsSpace` on one byte, and on the two and three bytes of the other white space in UTF-8.
abbrev pub is_space : ℕ → Bool
is_space c = (leb 9 c && leb c 13) || c == b' '

abbrev pub is_space2 : ℕ → ℕ → Bool
is_space2 a b = a == 0xc2 && (b == 0x85 || b == 0xa0)

abbrev pub is_space3 : ℕ → ℕ → ℕ → Bool
is_space3 a b c =
    (a == 0xe1 && b == 0x9a && c == 0x80)
    || (a == 0xe2 && b == 0x80 && (leb 0x80 c && leb c 0x8a || c == 0xa8 || c == 0xa9 || c == 0xaf))
    || (a == 0xe2 && b == 0x81 && c == 0x9f)
    || (a == 0xe3 && b == 0x80 && c == 0x80)

-- `strings.TrimLeftFunc(s, unicode.IsSpace)`
unfoldable pub trim_left : Str → Str
trim_left [] = []
trim_left (a ∷ []) = if is_space a then [] else a ∷ []
trim_left (a ∷ b ∷ []) =
    let rest = trim_left (b ∷ []) in
    if is_space a then rest else if is_space2 a b then [] else a ∷ b ∷ []
trim_left (a ∷ b ∷ c ∷ s) =
    let one = trim_left (b ∷ c ∷ s) in
    let two = trim_left (c ∷ s) in
    let three = trim_left s in
    if is_space a
    then one
    else if is_space2 a b
    then two
    else if is_space3 a b c
    then three
    else a ∷ b ∷ c ∷ s

-- The same on a reversed text: the bytes of each character stand the other way round.
unfoldable pub trim_last : Str → Str
trim_last [] = []
trim_last (a ∷ []) = if is_space a then [] else a ∷ []
trim_last (a ∷ b ∷ []) =
    let rest = trim_last (b ∷ []) in
    if is_space a then rest else if is_space2 b a then [] else a ∷ b ∷ []
trim_last (a ∷ b ∷ c ∷ s) =
    let one = trim_last (b ∷ c ∷ s) in
    let two = trim_last (c ∷ s) in
    let three = trim_last s in
    if is_space a
    then one
    else if is_space2 b a
    then two
    else if is_space3 c b a
    then three
    else a ∷ b ∷ c ∷ s

-- `strings.TrimSpace`
unfoldable pub trim_space : Str → Str
unfolding trim_left trim_last
trim_space s = reverse (trim_last (reverse (trim_left s)))

-- `strings.HasPrefix(s, p)`
unfoldable pub has_prefix : Str → Str → Bool
has_prefix s [] = true
has_prefix [] (c ∷ p) = false
has_prefix (a ∷ s) (c ∷ p) = a == c && has_prefix s p

-- `strings.Contains(s, sub)`
unfoldable pub contains : Str → Str → Bool
unfolding has_prefix
contains [] sub = has_prefix [] sub
contains (a ∷ s) sub = has_prefix (a ∷ s) sub || contains s sub

-- `strings.Split(s, sep)`, with one byte for the separator
unfoldable pub split_on : ℕ → Str → List Str
split_on sep [] = [] ∷ []
split_on sep (c ∷ s) = elim (split_on sep s) [
  | [] ↦ (c ∷ []) ∷ []
  | p ∷ ps ↦ if c == sep then [] ∷ p ∷ ps else (c ∷ p) ∷ ps
]

-- What stands before and from the first byte `sep` on, if there is one (`strings.Index` and slices).
unfoldable pub cut_at : ℕ → Str → Option (Str × Str)
cut_at sep [] = none
cut_at sep (c ∷ s) =
    let rest : Option (Str × Str) = elim (cut_at sep s) [
      | none ↦ none
      | some (a, b) ↦ some (c ∷ a, b)
    ] in
    if c == sep then some ([], c ∷ s) else rest

abbrev pub lower : ℕ → ℕ
lower c = if leb b'A' c && leb c b'Z' then c + 32 else c

-- `strings.EqualFold` with an ASCII text that has no k and no s, which other characters fold to.
unfoldable pub equal_fold : Str → Str → Bool
equal_fold [] [] = true
equal_fold [] (d ∷ t) = false
equal_fold (c ∷ s) [] = false
equal_fold (c ∷ s) (d ∷ t) = lower c == lower d && equal_fold s t

-- Visible ASCII bytes are no part of any white space.
abbrev pub IsVisible : ℕ → Type 0
IsVisible c = (33 ≤ c) × (c < 127)

trim_left_visible : (s : Str) → All IsVisible s → trim_left s ≡ s
unfolding trim_left
trim_left_visible [] h = refl
trim_left_visible (a ∷ []) h = ground arith
trim_left_visible (a ∷ b ∷ []) h = ground arith
trim_left_visible (a ∷ b ∷ c ∷ s) h = ground arith

trim_last_visible : (s : Str) → All IsVisible s → trim_last s ≡ s
unfolding trim_last
trim_last_visible [] h = refl
trim_last_visible (a ∷ []) h = ground arith
trim_last_visible (a ∷ b ∷ []) h = ground arith
trim_last_visible (a ∷ b ∷ c ∷ s) h = ground arith

All-reverse : (P : ℕ → Type 0) (s : Str) → All P s → All P (reverse s)
All-reverse P [] h = tt
All-reverse P (c ∷ s) h =
    rw (reverse-cons c s) (All-append P (reverse s) (c ∷ []) (All-reverse P s h.1) (h.0, tt))

-- Text without white space is left as it is.
pub trim_space_visible : (s : Str) → All IsVisible s → trim_space s ≡ s
unfolding trim_space
trim_space_visible s h =
    rw (trim_left_visible s h, trim_last_visible (reverse s) (All-reverse IsVisible s h))
      (reverse-reverse s)

pub has_prefix-append : (p s : Str) → has_prefix (p ++ s) p ≡ true
unfolding has_prefix
has_prefix-append [] s = refl
has_prefix-append (c ∷ p) s = ground (arith, has_prefix-append p s)
