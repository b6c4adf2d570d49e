-- ===== src/Rgs/Api/Listing.antt =====
-- Reading back the bets on a round over the API of server/rgs/api.go.
use marbles_game.Prelude.{List, Str, if◌then◌else◌, is_empty, nat_eq}
use marbles_game.Rgs.Wallet.{Wallet}
use marbles_game.Rgs.Manager.{Manager, RoundBet}
use marbles_game.Rgs.RoundBets.{filter_player}

module _ {F : Type 0} where
  -- The bets that a listing for a player shows; without a player, all.
  abbrev pub shown : Str → List (RoundBet F) → List (RoundBet F)
  shown player bets = if is_empty player then bets else filter_player player bets
