-- ===== src/Cmd/Rgsd/Numbers.antt =====
-- `parseIntStrict` and `envIntOr` of server/cmd/rgsd/main.go beside `strconv.ParseInt`.
use marbles_game.Prelude.{
  ==_iff, Bool, Bool-cases, Option, Str, [], ap, arith, false, inl, inr, is_empty, neg_i64, none,
  refl, some, suc, to_i64, true, zero, ℕ, ℤ, ◌*◌, ◌+◌, ◌-◌, ◌==◌, ◌∷◌, ◌≡◌, ◌≤◌,
}
use marbles_game.Std.Decimal.{parse_from, parse_int, parse_uint, signed}
use marbles_game.Cmd.Rgsd.{accumulate, all_digits, env_int_or, parse_int_strict, strict_value}
use marbles_game.Std.Text.{trim_space}

-- What `ParseUint` reads passes the test of the bytes, and the accumulator is the number.
parse_from-all_digits :
    (acc : ℕ) (s : Str) (n : ℕ)
    → parse_from acc s ≡ some n
    → (all_digits s ≡ true) × (accumulate acc s ≡ n) × (acc ≤ n)
unfolding parse_from all_digits accumulate
parse_from-all_digits acc [] n e = (refl, cc, ground arith)
parse_from-all_digits acc (c ∷ s) n e =
    ground (arith, parse_from-all_digits (acc * 10 + (c - b'0')) s n)

parse_uint-all_digits :
    (s : Str) (n : ℕ)
    → parse_uint s ≡ some n
    → (all_digits s ≡ true) × (accumulate 0 s ≡ n) × (is_empty s ≡ false)
unfolding parse_uint
parse_uint-all_digits [] n e = cc
parse_uint-all_digits (c ∷ s) n e =
    let (digits, value, _) = parse_from-all_digits 0 (c ∷ s) n e in (digits, value, refl)

abbrev pub has_plus : Str → Bool
has_plus [] = false
has_plus (c ∷ s) = c == b'+'

signed-true :
    (o : Option ℕ) (z : ℤ)
    → signed true o ≡ some z
    → (n : ℕ) × (o ≡ some n) × (neg_i64 (to_i64 n) ≡ z)
signed-true none z e = cc
signed-true (some zero) z e = (0, refl, ground arith)
signed-true (some (suc n)) z e = (suc n, refl, ground arith)

signed-false :
    (o : Option ℕ) (z : ℤ) → signed false o ≡ some z → (n : ℕ) × (o ≡ some n) × (to_i64 n ≡ z)
signed-false none z e = cc
signed-false (some n) z e = (n, refl, ground arith)

strict_negative :
    (s : Str) (z : ℤ) → signed true (parse_uint s) ≡ some z → parse_int_strict (b'-' ∷ s) ≡ some z
unfolding parse_int_strict strict_value
strict_negative s z e =
    let (n, parsed, value) = signed-true (parse_uint s) z e in
    let (digits, total, _) = parse_uint-all_digits s n parsed in rw (digits, total) (ap some value)

strict_positive :
    (c : ℕ) (s : Str) (z : ℤ)
    → (c == b'-') ≡ false
    → signed false (parse_uint (c ∷ s)) ≡ some z
    → parse_int_strict (c ∷ s) ≡ some z
unfolding parse_int_strict strict_value all_digits
strict_positive c s z plain e =
    let (n, parsed, value) = signed-false (parse_uint (c ∷ s)) z e in
    let (digits, total, _) = parse_uint-all_digits (c ∷ s) n parsed in ground (arith, all_digits)

-- Every text without a plus sign that `strconv.ParseInt` reads as an int64, `parseIntStrict` reads as the
-- same number, the least int64 included.
parse_int_strict-parse_int :
    (s : Str) (z : ℤ) → parse_int s ≡ some z → has_plus s ≡ false → parse_int_strict s ≡ some z
unfolding parse_int
parse_int_strict-parse_int [] z e plain = cc
parse_int_strict-parse_int (c ∷ s) z e plain = elim (Bool-cases (c == b'-')) [
  | inl minus ↦ rw ((==_iff c b'-').0 minus) (strict_negative s z (rw minus at e))
  | inr other ↦ strict_positive c s z other (rw (other, plain) at e)
]

nonempty_of_parsed : (s : Str) (z : ℤ) → parse_int s ≡ some z → is_empty s ≡ false
unfolding parse_int
nonempty_of_parsed [] z e = cc
nonempty_of_parsed (c ∷ s) z e = refl

-- A variable of the environment whose text, without the white space around it, has no plus sign and is an
-- int64 to `strconv.ParseInt` sets that number, whatever the default is; so `envIntOr` differs from the
-- library's parser at most on other texts.
pub env_int_or-parse_int :
    (value : Str) (dflt z : ℤ)
    → parse_int (trim_space value) ≡ some z
    → has_plus (trim_space value) ≡ false
    → env_int_or value dflt ≡ z
unfolding env_int_or
env_int_or-parse_int value dflt z parsed plain =
    rw
      (
        env_int_or,
        nonempty_of_parsed (trim_space value) z parsed,
        parse_int_strict-parse_int (trim_space value) z parsed plain,
      )
      refl
