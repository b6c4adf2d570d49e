-- ===== src/Rtp/Settlement.antt =====
-- `Settle` of server/rtp/rtp.go against unbounded arithmetic, and that no money is lost.
use marbles_game.Prelude.{
  All, List, Result, arith, err, false, if◌then◌else◌, leb, leb_ℤ, length, ltb, ltb_ℤ, max_u64,
  negsuc, ok, pos, refl, sum, u64_mod, ℕ, ℤ, ◌*◌, ◌+◌, ◌-◌, ◌/◌, ◌<◌, ◌||◌, ◌≡◌, ◌≤◌,
}
use marbles_game.Rtp.{
  Config, Error, basis_points, no_buy_ins, pot_from, pot_overflow, prize_overflow, rtp_out_of_range,
  settle, settle_pot, split_pot, winner_index,
}
use marbles_game.Rtp.Overflow.{div_test, pot_from-eq}

-- The same rules over numbers that never overflow.
abbrev pub ideal : Config → ℕ → Result Error (ℕ × ℕ)
ideal cfg total =
    if ltb max_u64 total
    then err pot_overflow
    else if ltb max_u64 (total * cfg.rtp_basis_points)
    then err prize_overflow
    else ok (
      total * cfg.rtp_basis_points / basis_points,
      total - total * cfg.rtp_basis_points / basis_points,
    )

abbrev pub IsWord : ℕ → Type 0
IsWord b = b < u64_mod

prize-le : (t r : ℕ) → r ≤ basis_points → t * r / basis_points ≤ t
prize-le t r h = grind arith

split_pot-ideal :
    (cfg : Config) (total : ℕ)
    → total < u64_mod
    → cfg.rtp_basis_points ≤ basis_points
    → split_pot cfg total ≡ ideal cfg total
unfolding split_pot
split_pot-ideal cfg total h r =
    ground
      (arith, div_test max_u64 total cfg.rtp_basis_points, prize-le total cfg.rtp_basis_points r)

settle_pot-ideal :
    (cfg : Config) (bs : List ℕ)
    → All IsWord bs
    → cfg.rtp_basis_points ≤ basis_points
    → settle_pot cfg (pot_from 0 bs) ≡ ideal cfg (sum bs)
unfolding settle_pot
settle_pot-ideal cfg bs hs r = ground (arith, pot_from-eq 0 bs, split_pot-ideal cfg (sum bs))

-- For every list of uint64 buy-ins, `settle` is: the range checks in their order, and then the
-- exact split of the unbounded sum, with an error exactly when the sum, or the sum times the rate,
-- does not fit in 64 bits.
pub settle-ideal :
    (cfg : Config) (bs : List ℕ) (winner : ℤ)
    → All IsWord bs
    → settle cfg bs winner ≡ (
        if ltb basis_points cfg.rtp_basis_points
        then err rtp_out_of_range
        else if leb (length bs) 0
        then err no_buy_ins
        else if ltb_ℤ winner (pos 0) || leb_ℤ (pos (length bs)) winner
        then err winner_index
        else ideal cfg (sum bs))
unfolding settle
settle-ideal cfg bs winner hs = ground (arith, settle_pot-ideal cfg bs hs)

-- What a success says about the inputs.
settle_ok :
    (cfg : Config) (bs : List ℕ) (winner : ℤ) {prize cut : ℕ}
    → All IsWord bs
    → settle cfg bs winner ≡ ok (prize, cut)
    → (prize ≡ sum bs * cfg.rtp_basis_points / basis_points)
      × (cut ≡ sum bs - prize)
      × (cfg.rtp_basis_points ≤ basis_points)
      × (ltb_ℤ winner (pos 0) ≡ false)
      × (leb_ℤ (pos (length bs)) winner ≡ false)
settle_ok cfg bs winner hs e = ground (arith, settle-ideal cfg bs winner hs)

index_of :
    (winner : ℤ) (n : ℕ)
    → ltb_ℤ winner (pos 0) ≡ false
    → leb_ℤ (pos n) winner ≡ false
    → (i : ℕ) × (winner ≡ pos i) × (i < n)
index_of (pos i) n h k = (i, refl, ground arith)
index_of (negsuc i) n h k = absurd (ground arith)

-- Whenever `settle` succeeds the prize and the house cut add up to the sum of the buy-ins, the prize
-- is the configured share rounded down, and the winner is the index of a buy-in.
pub settle_conserves :
    (cfg : Config) (bs : List ℕ) (winner : ℤ) {prize cut : ℕ}
    → All IsWord bs
    → settle cfg bs winner ≡ ok (prize, cut)
    → (prize + cut ≡ sum bs)
      × (prize * basis_points ≤ sum bs * cfg.rtp_basis_points)
      × (sum bs * cfg.rtp_basis_points < (prize + 1) * basis_points)
      × ((i : ℕ) × (winner ≡ pos i) × (i < length bs))
settle_conserves cfg bs winner hs e =
    let (p, c, r, low, high) = settle_ok cfg bs winner hs e in
    let bound = prize-le (sum bs) cfg.rtp_basis_points r in
    (omega arith, omega arith, omega arith, index_of winner (length bs) low high)
