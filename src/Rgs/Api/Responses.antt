-- ===== src/Rgs/Api/Responses.antt =====
-- server/rgs/api.go: the bodies of the responses.
use mathlib.Core.Option
use marbles_game.Prelude.{Bool, List, Option, Str, [], map, ℕ, ℤ, ◌∷◌}
use marbles_game.Replay.FileSystem.{Winner}
use marbles_game.Rgs.Errors.{Error}
use marbles_game.Rgs.Session.{Bet, Session, SettlementOutcome, snapshot, state_string}
use marbles_game.Rgs.Manager.{RoundBet, RoundSpec}
use marbles_game.Rgs.RoundRun.{RoundBetOutcome}

-- `betResponse`
pub record BetResponse : Type 0 where
  pub bet_id : Str
  pub amount : ℕ
  pub placed_at : ℕ
  pub marble_index : ℤ

-- `settlementResponse`
pub record SettlementResponse : Type 0 where
  pub bet_id : Str
  pub won : Bool
  pub amount : ℕ
  pub prize_amount : ℕ
  pub winner_index : ℤ
  pub credit_tx_id : Str
  pub settled_at : ℕ

-- `sessionResponse`
pub record SessionResponse : Type 0 where
  pub session_id : Str
  pub player_id : Str
  pub state : Str
  pub balance : ℕ
  pub opened_at : ℕ
  pub updated_at : ℕ
  pub bet : Option BetResponse
  pub last_result : Option SettlementResponse

-- `placeRoundBetResponse`
pub record PlacedResponse (F : Type 0) : Type 0 where
  pub bet_id : Str
  pub round_id : ℕ
  pub marble_idx : ℤ
  pub amount : F
  pub balance_after : F
  pub expected_payout_if_win : F

-- `roundBetResponse`
pub record RoundBetResponse (F : Type 0) : Type 0 where
  pub bet_id : Str
  pub player_id : Str
  pub round_id : ℕ
  pub marble_idx : ℤ
  pub amount : F
  pub placed_at : ℕ

-- The errors that the handlers write; message texts are left out.
pub data ApiError : Type 0 where
  from_manager : Error → ApiError
  bad_number bad_body player_required session_disappeared session_unknown : ApiError

pub data Body (F : Type 0) : Type 0 where
  error_body : ApiError → Body F
  session_body : SessionResponse → Body F
  spec_body : RoundSpec → Body F
  round_body : ℕ → ℕ → Winner → List SettlementResponse → List (RoundBetOutcome F) → Body F
  placed_body : PlacedResponse F → Body F
  bets_body : List (RoundBetResponse F) → Body F
  balance_body : Str → F → Body F
  health_body : ℕ → Body F
  empty_body started_body : Body F

-- What `writeJSON` sends.
pub record Response (F : Type 0) : Type 0 where
  pub status : ℕ
  pub body : Body F

abbrev pub respond : {F : Type 0} → ℕ → Body F → Response F
respond code body = record { status = code; body = body }

abbrev pub bet_response : Bet → BetResponse
bet_response b = record {
  bet_id = b.bet_id;
  amount = b.amount;
  placed_at = b.placed_at;
  marble_index = b.marble_index;
}

abbrev pub settlement_response : SettlementOutcome → SettlementResponse
settlement_response o = record {
  bet_id = o.bet_id;
  won = o.won;
  amount = o.amount;
  prize_amount = o.prize_amount;
  winner_index = o.winner_index;
  credit_tx_id = o.credit_tx_id;
  settled_at = o.settled_at;
}

-- `outcomesToResponse`
unfoldable pub outcomes_to_response : List SettlementOutcome → List SettlementResponse
outcomes_to_response outs = map settlement_response outs

-- The body of `writeSessionResponse`, over the balance that it read.
unfoldable pub session_response : ℕ → Session → SessionResponse
session_response balance s =
    let (state, bet, last) = snapshot s in
    record {
      session_id = s.id;
      player_id = s.player_id;
      state = state_string state;
      balance = balance;
      opened_at = s.opened_at;
      updated_at = s.updated_at;
      bet = Option.map bet_response bet;
      last_result = Option.map settlement_response last;
    }

module _ {F : Type 0} where
  -- The loop of `getRoundBets`.
  unfoldable pub bets_to_response : List (RoundBet F) → List (RoundBetResponse F)
  bets_to_response [] = []
  bets_to_response (b ∷ bs) =
      record {
        bet_id = b.bet_id;
        player_id = b.player_id;
        round_id = b.round_id;
        marble_idx = b.marble_idx;
        amount = b.amount;
        placed_at = b.placed_at;
      }
      ∷ bets_to_response bs
