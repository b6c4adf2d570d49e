-- ===== src/Rgs/RoundBets/Tests.antt =====
-- Minting rounds and betting on them (server/rgs/manager.go), with numbers for floats.
use marbles_game.Prelude.{
  Str, [], arith, codes, none, ok, pos, refl, str_eq, str_eq_inst, ℕ, ◌*◌, ◌/◌, ◌==◌, ◌∷◌, ◌≡◌,
}
use marbles_game.Prelude.Dict.{insert, lookup}
use marbles_game.Rgs.Wallet.{MockWallet, balance, credit, debit, mock}
use marbles_game.Rgs.Wallet.Accounts.{mock_lawful}
use marbles_game.Rgs.Money.{Floats}
use marbles_game.Rgs.Manager.{Manager, RoundBet, RoundSpec, World, new_manager}
use marbles_game.Rgs.Manager.Tests.{world}
use marbles_game.Rgs.RoundBets.{check_bet, commit_bet, mint, place_bet_on_round, place_of}
use marbles_game.Rgs.RoundBets.Placing.{Committed, commit_bet_settles}

abbrev pub numbers : Floats
numbers = record {
  Float = ℕ;
  of_nat = λ n. n;
  times = λ m n. m * n;
  over = λ m n. m / n;
  is_nonpositive = λ n. n == 0;
  to_u64 = λ n. n;
}

abbrev pub seed_byte : Str
seed_byte = 171 ∷ []

abbrev pub minted : RoundSpec × Manager ℕ
minted = mint 12 seed_byte world.manager

abbrev pub with_round : World MockWallet ℕ
with_round = record world { manager = minted.1 }

abbrev pub bet : RoundBet ℕ
bet = record {
  bet_id = codes "rb1";
  player_id = codes "ann";
  round_id = 12;
  marble_idx = pos 2;
  amount = 1;
  placed_at = 8;
}

commit_bet_settles_example :
    Committed numbers mock mock_lawful bet 100 world (commit_bet numbers mock none bet 100 world)
unfolding lookup insert str_eq credit place_of new_manager
commit_bet_settles_example =
    (commit_bet_settles numbers mock mock_lawful none bet 100 world refl refl refl (omega arith)).1

all_in :
    let (r, w) =
      place_bet_on_round numbers mock (codes "rb1") 8 12 (codes "ann") (pos 2) 1 with_round in
    (r ≡ ok (bet, 0)) × (w.wallet.balances ≡ (codes "ann", 0) ∷ [])
unfolding place_bet_on_round check_bet lookup insert str_eq debit mint new_manager balance
all_in = (refl, refl)
