-- ===== src/Rgs/Session/Tests.antt =====
-- Runs of server/rgs/session.go: a bet, a refused second one, the race, and the next bet.
use marbles_game.Prelude.{List, [], codes, err, false, minus_one, none, pos, refl, some, ◌∷◌, ◌≡◌}
use marbles_game.Rgs.Errors.{sentinel, wrap, wrong_state}
use marbles_game.Rgs.Session.{
  Bet, Op, Session, SettlementOutcome, apply, assigns, closes, opened, places, run, settles,
}
use marbles_game.Rgs.Session.States.{apply-Follows}

abbrev stake : Bet
stake = record {
  bet_id = codes "bet_1";
  amount = 50;
  player_id = codes "alice";
  placed_at = 3;
  marble_index = pos 9;
}

abbrev outcome : SettlementOutcome
outcome = record {
  bet_id = codes "bet_1";
  player_id = codes "alice";
  amount = 50;
  won = false;
  prize_amount = 0;
  winner_index = pos 4;
  credit_tx_id = [];
  settled_at = 9;
}

abbrev history : List Op
history =
    settles outcome 1
    ∷ places stake 2
    ∷ places stake 3
    ∷ closes 4
    ∷ assigns 0 5
    ∷ settles outcome 6
    ∷ places stake 7
    ∷ []

abbrev start : Session
start = record {
  id = codes "sess_1";
  player_id = codes "alice";
  state = opened;
  opened_at = 1;
  updated_at = 1;
  bet = none;
  last_result = none;
}

history_runs : (run history start).bet ≡ some (record stake { marble_index = minus_one })
unfolding run apply
history_runs = refl

apply-Follows_example : apply (settles outcome 1) start ≡ (err (wrap (sentinel wrong_state)), start)
apply-Follows_example = apply-Follows (settles outcome 1) start refl
