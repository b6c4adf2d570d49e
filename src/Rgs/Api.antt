-- ===== src/Rgs/Api.antt =====
-- server/rgs/api.go: the HTTP API of the operator. A handler maps the parts of a request that it reads
-- to a response, a status code with a body, and to the world that it leaves. Package encoding/json is
-- the parameter `Codec`; the patterns of `Routes` are those of net/http, and Rgs/Api/Routes has one call
-- for each. What the manager draws from the clock and from crypto/rand is an argument.
pub mod Responses
pub mod Routes
pub mod Queue
pub mod Queueing
pub mod Runs
pub mod RoundBetting
pub mod Listing
pub mod Statuses
pub mod SessionBetting
mod Tests
use marbles_game.Prelude.{
  Bool, Option, Result, Str, codes, err, if◌then◌else◌, is_empty, none, ok, some, str_eq, ℕ, ℤ,
  ◌||◌,
}
use marbles_game.Std.Decimal.{parse_uint}
use marbles_game.Std.Text.{trim_space}
use marbles_game.Rgs.Errors.{
  Error, bet_exists, insufficient_funds, invalid_bet_amount, invalid_marble_idx, is,
  round_already_run, session_closed, unknown_player, unknown_round, wrong_state,
}
use marbles_game.Rgs.Wallet.{Wallet, balance}
use marbles_game.Rgs.Money.{Floats, of_units, payout_of}
use marbles_game.Rgs.Session.{Bet, Session}
use marbles_game.Rgs.Manager.{
  Manager, RoundBet, World, close_session, open_session, place_session_bet, session,
}
use marbles_game.Rgs.RoundBets.{
  balance_after, bets_for_round, generate_round_spec, place_bet_on_round,
}
use marbles_game.Rgs.RoundRun.{Inputs}
use marbles_game.Rgs.RoundRun.Whole.{run_next_round}
use Responses.{
  ApiError, from_manager, bad_number, bad_body, player_required, session_disappeared,
  session_unknown, Response, respond, Body, error_body, session_body, empty_body, spec_body,
  round_body, started_body, placed_body, bets_body, balance_body, health_body, session_response,
  outcomes_to_response, bets_to_response,
}

-- `parseRoundID`
unfoldable pub parse_round_id : Str → Option ℕ
unfolding trim_space parse_uint
parse_round_id s = parse_uint (trim_space s)

-- `ParseAmount`
unfoldable pub parse_amount : Str → Option ℕ
unfolding trim_space parse_uint
parse_amount s = parse_uint (trim_space s)

pub record RoundBetRequest (F : Type 0) : Type 0 where
  pub player_id : Str
  pub marble_idx : ℤ
  pub amount : F

-- `decodeJSON` into the three request structs.
pub record Codec (F : Type 0) : Type 0 where
  pub open_request : Str → Option Str
  pub bet_request : Str → Option ℕ
  pub round_bet_request : Str → Option (RoundBetRequest F)

-- The status code of `writeBetError`
unfoldable pub bet_error_status : Error → ℕ
bet_error_status e =
    if is e insufficient_funds
    then 402
    else if is e unknown_player
    then 404
    else if is e wrong_state || is e bet_exists || is e session_closed
    then 409
    else 400

-- The status code of `writeRoundBetError`
unfoldable pub round_bet_error_status : Error → ℕ
round_bet_error_status e =
    if is e unknown_round
    then 404
    else if is e round_already_run
    then 409
    else if is e invalid_marble_idx || is e invalid_bet_amount
    then 400
    else if is e insufficient_funds
    then 402
    else if is e unknown_player
    then 404
    else 400

module _ (fl : Floats) where
  open fl use {Float}

  abbrev pub fail : ℕ → ApiError → Response Float
  fail code e = respond code (error_body e)

  -- `getRoundBets`
  unfoldable pub get_round_bets : Str → Str → Manager Float → Response Float
  unfolding bets_for_round parse_round_id bets_to_response
  get_round_bets round_text player m = elim (parse_round_id round_text) [
    | none ↦ fail 400 bad_number
    | some round_id ↦ elim (bets_for_round round_id player m) [
      | err e ↦ fail (if is e unknown_round then 404 else 500) (from_manager e)
      | ok bets ↦ respond 200 (bets_body (bets_to_response bets))
    ]
  ]

  module _ (wal : Wallet) where
    abbrev pub Handler : Type 0
    Handler = World wal.State Float → Response Float × World wal.State Float

    -- `writeSessionResponse`: the balance stays 0 if the wallet does not answer.
    unfoldable pub write_session : ℕ → Session → wal.State → Response Float
    unfolding session_response
    write_session code s funds = respond code (
        session_body
          (session_response (elim (wal.balance s.player_id funds) [ ok b ↦ b | err e ↦ 0 ]) s))

    -- `openSession`
    unfoldable pub open_session_handler : Codec Float → Str → ℕ → Str → Handler
    unfolding open_session write_session
    open_session_handler json id now body w = elim (json.open_request body) [
      | none ↦ (fail 400 bad_body, w)
      | some player ↦
          let (r, m) = open_session id now player w.manager in
          let w' : World wal.State Float = record w { manager = m } in
          elim r [
            | err e ↦ (fail 400 (from_manager e), w')
            | ok s ↦ (write_session 201 s w'.wallet, w')
          ]
    ]

    -- How `placeBet` answers after `PlaceBet` returned.
    unfoldable pub bet_placed_response : Str → Result Error Bet → Handler
    unfolding bet_error_status write_session
    bet_placed_response id (err e) w = (fail (bet_error_status e) (from_manager e), w)
    bet_placed_response id (ok bet) w = elim (session id w.manager) [
      | none ↦ (fail 404 session_disappeared, w)
      | some s ↦ (write_session 200 s w.wallet, w)
    ]

    -- `placeBet`
    unfoldable pub place_bet_handler : Codec Float → Str → ℕ → Str → Str → Handler
    unfolding place_session_bet bet_placed_response
    place_bet_handler json bet_id now id body w = elim (json.bet_request body) [
      | none ↦ (fail 400 bad_body, w)
      | some amount ↦
          let (r, w') = place_session_bet wal bet_id now id amount w in bet_placed_response id r w'
    ]

    -- `closeSession`
    unfoldable pub close_session_handler : ℕ → Str → Handler
    unfolding close_session write_session
    close_session_handler now id w =
        let (r, w') = close_session now id w in
        elim r [
          | err e ↦ (fail 400 (from_manager e), w')
          | ok done ↦ elim (session id w'.manager) [
            | none ↦ (respond 200 empty_body, w')
            | some s ↦ (write_session 200 s w'.wallet, w')
          ]
        ]

    -- `getSession`
    unfoldable pub get_session : Str → World wal.State Float → Response Float
    unfolding write_session
    get_session id w = elim (session id w.manager) [
      | none ↦ fail 404 session_unknown
      | some s ↦ write_session 200 s w.wallet
    ]

    -- `startRound`
    unfoldable pub start_round_handler : ℕ → Option Str → Handler
    unfolding generate_round_spec
    start_round_handler round_id seed w =
        let (r, m) = generate_round_spec round_id seed w.manager in
        let w' : World wal.State Float = record w { manager = m } in
        elim r [
          | err e ↦ (fail 500 (from_manager e), w')
          | ok spec ↦ (respond 200 (spec_body spec), w')
        ]

    -- How `placeRoundBet` answers after `PlaceBetOnRound` returned.
    unfoldable pub round_bet_response : Result Error (RoundBet Float × Float) → Response Float
    unfolding round_bet_error_status
    round_bet_response (err e) = fail (round_bet_error_status e) (from_manager e)
    round_bet_response (ok (bet, balance)) = respond 200 (
        placed_body (record {
          bet_id = bet.bet_id;
          round_id = bet.round_id;
          marble_idx = bet.marble_idx;
          amount = bet.amount;
          balance_after = balance;
          expected_payout_if_win = payout_of fl bet.amount;
        }))

    -- `placeRoundBet`
    unfoldable pub place_round_bet_handler : Codec Float → Str → ℕ → Str → Str → Handler
    unfolding parse_round_id place_bet_on_round round_bet_response
    place_round_bet_handler json bet_id now round_text body w = elim (parse_round_id round_text) [
      | none ↦ (fail 400 bad_number, w)
      | some round_id ↦ elim (json.round_bet_request body) [
        | none ↦ (fail 400 bad_body, w)
        | some req ↦
            if is_empty req.player_id
            then (fail 400 player_required, w)
            else (let (r, w') =
                  place_bet_on_round fl wal bet_id now round_id req.player_id req.marble_idx
                    req.amount w in
                (round_bet_response r, w'))
      ]
    ]

    -- `walletBalance`
    unfoldable pub wallet_balance : Str → wal.State → Response Float
    wallet_balance player funds = elim (wal.balance player funds) [
      | err e ↦ fail (if is e unknown_player then 404 else 500) (from_manager e)
      | ok units ↦ respond 200 (balance_body player (of_units fl units))
    ]

    -- `health`
    abbrev pub health : ℕ → Response Float
    health now = respond 200 (health_body now)

    -- `runRound` with `?wait=true` or `?wait=1`
    unfoldable pub run_round_handler : (Str → Str) → Inputs → Handler
    unfolding run_next_round outcomes_to_response
    run_round_handler sha256 inp w =
        let (r, w') = run_next_round fl wal sha256 inp w in
        elim r [
          | err e ↦ (fail 500 (from_manager e), w')
          | ok (manifest, outcomes, bet_outcomes) ↦ (
            respond 200 (
                round_body manifest.round_id manifest.track_id manifest.winner
                  (outcomes_to_response outcomes) bet_outcomes),
            w',
          )
        ]

    abbrev pub waits : Str → Bool
    waits wait = str_eq wait (codes "true") || str_eq wait (codes "1")
