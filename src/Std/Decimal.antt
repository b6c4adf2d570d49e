-- ===== src/Std/Decimal.antt =====
-- `strconv.FormatUint(n, 10)` and `strconv.ParseUint(s, 10, 64)`.
use marbles_game.Prelude.{
  All, All-append, Bool, Bool-cases, Option, Str, [], ap, arith, false, if◌then◌else◌, inl, inr,
  leb, length, length-append, ltb, max_u64, negsuc, none, pos, refl, some, suc, true, u64_mod, zero,
  ℕ, ℤ, ◌%◌, ◌&&◌, ◌*◌, ◌++◌, ◌+◌, ◌-◌, ◌/◌, ◌<◌, ◌==◌, ◌^◌, ◌∙◌, ◌∷◌, ◌≡◌,
}

-- Fuel above `n` suffices, since each round divides by ten.
unfoldable pub digits_from : ℕ → ℕ → Str
digits_from zero n = []
digits_from (suc f) n =
    let rest = digits_from f (n / 10) ++ (b'0' + n % 10) ∷ [] in
    if ltb n 10 then (b'0' + n) ∷ [] else rest

unfoldable pub format_uint : ℕ → Str
unfolding digits_from
format_uint n = digits_from (suc n) n

abbrev pub is_digit : ℕ → Bool
is_digit c = leb b'0' c && leb c b'9'

unfoldable pub parse_from : ℕ → Str → Option ℕ
parse_from acc [] = some acc
parse_from acc (c ∷ s) =
    let next = acc * 10 + (c - b'0') in
    let rest = parse_from next s in if is_digit c && leb next max_u64 then rest else none

unfoldable pub parse_uint : Str → Option ℕ
unfolding parse_from
parse_uint [] = none
parse_uint (c ∷ s) = parse_from 0 (c ∷ s)

parse_from-digit :
    (acc : ℕ) (s : Str) (d v : ℕ)
    → d < 10
    → parse_from acc s ≡ some v
    → v * 10 + d < u64_mod
    → parse_from acc (s ++ (b'0' + d) ∷ []) ≡ some (v * 10 + d)
unfolding parse_from
parse_from-digit acc [] d v h e room = ground arith
parse_from-digit acc (c ∷ s) d v h e room =
    ground (arith, parse_from-digit (acc * 10 + (c - b'0')) s d v h)

parse_from-digits : (f n : ℕ) → n < f → n < u64_mod → parse_from 0 (digits_from f n) ≡ some n
unfolding digits_from
parse_from-digits zero n h room = elim h [ ]
parse_from-digits (suc f) n h room = elim (Bool-cases (ltb n 10)) [
  | inl small ↦ rw small (unfold parse_from in ground arith)
  | inr large ↦ rw large (
      parse_from-digit 0 (digits_from f (n / 10)) (n % 10) (n / 10) (omega arith)
        (parse_from-digits f (n / 10) (ground arith) (omega arith)) (omega arith)
      ∙ ap some (omega arith))
]

abbrev IsDigit : ℕ → Type 0
IsDigit c = is_digit c ≡ true

digits_from-IsDigit : (f n : ℕ) → n < f → All IsDigit (digits_from f n)
unfolding digits_from
digits_from-IsDigit zero n h = tt
digits_from-IsDigit (suc f) n h = elim (Bool-cases (ltb n 10)) [
  | inl small ↦ rw small (ground arith, tt)
  | inr large ↦ rw large (
      All-append IsDigit (digits_from f (n / 10)) ((b'0' + n % 10) ∷ [])
        (digits_from-IsDigit f (n / 10) (ground arith)) (ground arith, tt))
]

digits_from-ne : (f n : ℕ) → 0 < length (digits_from (suc f) n)
unfolding digits_from
digits_from-ne f n = elim (Bool-cases (ltb n 10)) [
  | inl small ↦ rw small (omega arith)
  | inr large ↦
      rw (large, length-append (digits_from f (n / 10)) ((b'0' + n % 10) ∷ [])) (omega arith)
]

parse_uint-cons : (s : Str) → 0 < length s → parse_uint s ≡ parse_from 0 s
unfolding parse_uint
parse_uint-cons [] h = absurd (omega arith)
parse_uint-cons (c ∷ s) h = refl

-- Every uint64 is read back.
pub parse-format : (n : ℕ) → n < u64_mod → parse_uint (format_uint n) ≡ some n
unfolding format_uint
parse-format n room =
    parse_uint-cons (digits_from (suc n) n) (digits_from-ne n n)
    ∙ parse_from-digits (suc n) n (omega arith) room

-- A decimal text is made of digits.
pub format_digits : (n : ℕ) → All (λ c. is_digit c ≡ true) (format_uint n)
unfolding format_uint
format_digits n = digits_from-IsDigit (suc n) n (omega arith)

-- The sign of `strconv.ParseInt`: the range is that of int64.
abbrev pub signed : Bool → Option ℕ → Option ℤ
signed negative none = none
signed true (some n) =
    if ltb (2 ^ 63) n then none else some (if n == 0 then pos 0 else negsuc (n - 1))
signed false (some n) = if leb (2 ^ 63) n then none else some (pos n)

-- `strconv.ParseInt(s, 10, 64)`
unfoldable pub parse_int : Str → Option ℤ
unfolding parse_uint
parse_int [] = none
parse_int (c ∷ s) =
    if c == b'-'
    then signed true (parse_uint s)
    else if c == b'+'
    then signed false (parse_uint s)
    else signed false (parse_uint (c ∷ s))

parse_int-digit :
    (s : Str) (n : ℕ)
    → All IsDigit s
    → parse_uint s ≡ some n
    → n < 2 ^ 63
    → parse_int s ≡ some (pos n)
unfolding parse_int
parse_int-digit [] n digits parsed small = cc
parse_int-digit (c ∷ s) n digits parsed small = ground arith

-- Every int64 that is not negative is read back.
pub parse_int-format : (n : ℕ) → n < 2 ^ 63 → parse_int (format_uint n) ≡ some (pos n)
parse_int-format n small =
    parse_int-digit (format_uint n) n (format_digits n) (parse-format n (omega arith)) small

abbrev pub IsInt64 : ℤ → Type 0
IsInt64 (pos n) = n < 2 ^ 63
IsInt64 (negsuc n) = n < 2 ^ 63

signed-IsInt64 : (negative : Bool) (o : Option ℕ) (z : ℤ) → signed negative o ≡ some z → IsInt64 z
signed-IsInt64 negative none z e = cc
signed-IsInt64 true (some n) (pos k) e = ground arith
signed-IsInt64 true (some n) (negsuc k) e = ground arith
signed-IsInt64 false (some n) (pos k) e = ground arith
signed-IsInt64 false (some n) (negsuc k) e = ground arith

-- What is read is in the range of int64.
pub parse_int-IsInt64 : (s : Str) (z : ℤ) → parse_int s ≡ some z → IsInt64 z
unfolding parse_int
parse_int-IsInt64 [] z e = cc
parse_int-IsInt64 (c ∷ s) z e = elim (Bool-cases (c == b'-')) [
  | inl minus ↦ signed-IsInt64 true (parse_uint s) z (rw minus at e)
  | inr other ↦ elim (Bool-cases (c == b'+')) [
    | inl plus ↦ signed-IsInt64 false (parse_uint s) z (rw (other, plus) at e)
    | inr digit ↦ signed-IsInt64 false (parse_uint (c ∷ s)) z (rw (other, digit) at e)
  ]
]
