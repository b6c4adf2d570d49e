-- ===== src/Prelude/Word.antt =====
-- Machine words: an unsigned value is a natural number below the modulus, a signed one is an integer, and
-- results wrap.
use Prim.Native.Nat.{ℕ, zero, suc, ◌+◌, ◌-◌, ◌*◌, ◌%◌, ◌^◌}
use marbles_game.Prelude.Tests.{if◌then◌else◌, ltb, ◌==◌}
use marbles_game.Prelude.Int.{negsuc, pos, ℤ}

abbrev pub u64_mod : ℕ
u64_mod = 2 ^ 64

-- `math.MaxUint64`
abbrev pub max_u64 : ℕ
max_u64 = u64_mod - 1

abbrev pub u64 : ℕ → ℕ
u64 n = n % u64_mod

abbrev pub add_u64 : ℕ → ℕ → ℕ
add_u64 a b = u64 (a + b)

abbrev pub sub_u64 : ℕ → ℕ → ℕ
sub_u64 a b = u64 (a + u64_mod - b)

abbrev pub mul_u64 : ℕ → ℕ → ℕ
mul_u64 a b = u64 (a * b)

abbrev pub i64_half : ℕ
i64_half = 2 ^ 63

-- `int64(amount)`
abbrev pub to_i64 : ℕ → ℤ
to_i64 n = if ltb n i64_half then pos n else negsuc (u64_mod - n - 1)

-- `-x` on int64: the least value is its own negation.
abbrev pub neg_i64 : ℤ → ℤ
neg_i64 (pos zero) = pos zero
neg_i64 (pos (suc n)) = negsuc n
neg_i64 (negsuc n) = if suc n == i64_half then negsuc n else pos (suc n)
