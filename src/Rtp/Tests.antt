-- ===== src/Rtp/Tests.antt =====
-- Runs of server/rtp/rtp.go at concrete inputs.
use marbles_game.Prelude.{
  List, [], arith, err, length, max_u64, ok, pos, refl, replicate, sum, ℕ, ◌*◌, ◌+◌, ◌<◌, ◌∷◌, ◌≡◌,
  ◌≤◌,
}
use marbles_game.Rtp.{basis_points, pot_overflow, prize_overflow, settle}
use marbles_game.Rtp.Settlement.{settle-ideal, settle_conserves}

abbrev five_players : List ℕ
five_players = replicate 5 20

settle_standard : settle (record { rtp_basis_points = 9500 }) five_players (pos 2) ≡ ok (95, 5)
unfolding settle
settle_standard = refl

settle_rounds_down : settle (record { rtp_basis_points = 9750 }) (replicate 3 1) (pos 0) ≡ ok (2, 1)
unfolding settle
settle_rounds_down = refl

settle_overflow :
    settle (record { rtp_basis_points = 2 }) (max_u64 ∷ []) (pos 0) ≡ err prize_overflow
unfolding settle
settle_overflow = refl

settle-ideal_example :
    settle (record { rtp_basis_points = 9500 }) (max_u64 ∷ 1 ∷ []) (pos 1) ≡ err pot_overflow
settle-ideal_example =
    settle-ideal (record { rtp_basis_points = 9500 }) (max_u64 ∷ 1 ∷ []) (pos 1) (omega arith)

settle_conserves_example :
    (95 + 5 ≡ sum five_players)
    × (95 * basis_points ≤ sum five_players * 9500)
    × (sum five_players * 9500 < (95 + 1) * basis_points)
    × ((i : ℕ) × (pos 2 ≡ pos i) × (i < length five_players))
unfolding settle
settle_conserves_example =
    settle_conserves (record { rtp_basis_points = 9500 }) five_players (pos 2) (omega arith) refl
