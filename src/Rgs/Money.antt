-- ===== src/Rgs/Money.antt =====
-- The float64 arithmetic of round bets in server/rgs/manager.go, as an interface: the code relies on
-- the operations and on no law of them.
use marbles_game.Prelude.{Bool, ℕ}

pub record Floats : Type 1 where
  pub Float : Type 0
  pub of_nat : ℕ → Float  -- a constant, and `float64(u)` of a uint64
  pub times : Float → Float → Float
  pub over : Float → Float → Float
  pub is_nonpositive : Float → Bool  -- `x <= 0`
  pub to_u64 : Float → ℕ  -- `uint64(x)`

module _ (fl : Floats) where
  open fl use {Float, of_nat, times, over, to_u64}

  -- `PayoutMultiplier`
  abbrev pub payout_multiplier : Float
  payout_multiplier = of_nat 19

  -- `uint64(amount * 100)`
  abbrev pub to_units : Float → ℕ
  to_units amount = to_u64 (times amount (of_nat 100))

  -- `float64(units) / 100.0`
  abbrev pub of_units : ℕ → Float
  of_units units = over (of_nat units) (of_nat 100)

  -- `rb.Amount * PayoutMultiplier`
  abbrev pub payout_of : Float → Float
  payout_of amount = times amount payout_multiplier
