-- ===== src/Rtp.antt =====
-- server/rtp/rtp.go: the prize of the winner and the house cut of one round.
pub mod Overflow
pub mod Settlement
mod Tests
use marbles_game.Prelude.{
  List, Option, Result, [], add_u64, err, if◌then◌else◌, leb, leb_ℤ, length, ltb, ltb_ℤ, max_u64,
  mul_u64, none, ok, pos, some, sub_u64, ℕ, ℤ, ◌&&◌, ◌-◌, ◌/◌, ◌||◌, ◌∷◌,
}

-- `BasisPoints`, 100%
abbrev pub basis_points : ℕ
basis_points = 10000

pub record Config : Type 0 where
  pub rtp_basis_points : ℕ  -- uint32

pub data Error : Type 0 where
  no_buy_ins winner_index rtp_out_of_range pot_overflow prize_overflow : Error

-- The loop over `buyIns`: `none` is the return of `ErrPotOverflow`.
unfoldable pub pot_from : ℕ → List ℕ → Option ℕ
pot_from total [] = some total
pot_from total (b ∷ bs) =
    let rest = pot_from (add_u64 total b) bs in if ltb (max_u64 - b) total then none else rest

-- What follows the loop.
unfoldable pub split_pot : Config → ℕ → Result Error (ℕ × ℕ)
split_pot cfg total =
    if ltb 0 cfg.rtp_basis_points && ltb (max_u64 / cfg.rtp_basis_points) total
    then err prize_overflow
    else (let prize = mul_u64 total cfg.rtp_basis_points / basis_points in
        ok (prize, sub_u64 total prize))

unfoldable pub settle_pot : Config → Option ℕ → Result Error (ℕ × ℕ)
unfolding split_pot
settle_pot cfg none = err pot_overflow
settle_pot cfg (some total) = split_pot cfg total

-- `Settle`: the prize and the house cut.
unfoldable pub settle : Config → List ℕ → ℤ → Result Error (ℕ × ℕ)
unfolding pot_from settle_pot
settle cfg buy_ins winner =
    if ltb basis_points cfg.rtp_basis_points
    then err rtp_out_of_range
    else if leb (length buy_ins) 0
    then err no_buy_ins
    else if ltb_ℤ winner (pos 0) || leb_ℤ (pos (length buy_ins)) winner
    then err winner_index
    else settle_pot cfg (pot_from 0 buy_ins)
