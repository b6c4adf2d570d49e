-- ===== src/Rgs/Errors.antt =====
-- The errors of server/rgs: sentinel values, other errors, and the wrapping by `fmt.Errorf` with
-- `%w`, which `errors.Is` looks through. Message texts are left out.
use marbles_game.Prelude.{Bool, false, ℕ, ◌==◌}

pub data Sentinel : Type 0 where
  wrong_state bet_exists no_bet session_closed unknown_round round_already_run : Sentinel
  invalid_marble_idx invalid_bet_amount insufficient_funds unknown_player duplicate_tx_id : Sentinel

abbrev pub sentinel_code : Sentinel → ℕ
sentinel_code wrong_state = 0
sentinel_code bet_exists = 1
sentinel_code no_bet = 2
sentinel_code session_closed = 3
sentinel_code unknown_round = 4
sentinel_code round_already_run = 5
sentinel_code invalid_marble_idx = 6
sentinel_code invalid_bet_amount = 7
sentinel_code insufficient_funds = 8
sentinel_code unknown_player = 9
sentinel_code duplicate_tx_id = 10

-- Errors that are no sentinel of the package.
pub data Reason : Type 0 where
  empty_player_id unknown_session zero_amount tx_reused bad_seed seed_not_revealed transient :
      Reason
  round_failed settle_failed sim_failed open_replay_failed store_failed : Reason

pub data Error : Type 0 where
  sentinel : Sentinel → Error
  reason : Reason → Error
  wrap : Error → Error

-- `errors.Is(err, target)`
unfoldable pub is : Error → Sentinel → Bool
is (sentinel s) t = sentinel_code s == sentinel_code t
is (reason r) t = false
is (wrap e) t = is e t
