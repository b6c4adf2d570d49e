-- ===== src/Rgs/Api/RoundBetting.antt =====
-- `POST /v1/rounds/{round_id}/bets` and `GET /v1/rounds/{round_id}/bets` of server/rgs/api.go, over any
-- lawful wallet.
use marbles_game.Prelude.{Str, ok, some, ℕ, ◌<◌, ◌≡◌, ◌≤◌}
use marbles_game.Rgs.Wallet.{Wallet}
use marbles_game.Rgs.Wallet.Laws.{LawfulWallet}
use marbles_game.Rgs.Money.{Floats, payout_of}
use marbles_game.Rgs.Manager.{RoundBet, World}
use marbles_game.Rgs.RoundBets.{balance_after}
use marbles_game.Rgs.RoundBets.Placing.{RoundBetPlaced}
use marbles_game.Rgs.Api.{Codec, RoundBetRequest, parse_round_id}
use marbles_game.Rgs.Api.Responses.{Response, placed_body}

abbrev pub IsClientError : ℕ → Type 0
IsClientError code = (400 ≤ code) × (code < 500)

module _ (fl : Floats) (wal : Wallet) (law : LawfulWallet wal) where
  open fl use {Float}

  -- The bet that a request asks for.
  abbrev pub asked_bet : Str → ℕ → ℕ → RoundBetRequest Float → RoundBet Float
  asked_bet bet_id now round_id req = record {
    bet_id = bet_id;
    player_id = req.player_id;
    round_id = round_id;
    marble_idx = req.marble_idx;
    amount = req.amount;
    placed_at = now;
  }

  -- The bet was placed, and the answer says so.
  abbrev pub Accepted :
      Codec Float
      → Str
      → ℕ
      → Str
      → Str
      → World wal.State Float
      → Response Float × World wal.State Float
      → Type 0
  Accepted json bet_id now round_text body w (resp, w') =
      (round_id : ℕ) × (req : RoundBetRequest Float) × (parse_round_id round_text ≡ some round_id)
      × (json.round_bet_request body ≡ some req)
      × (let bet = asked_bet bet_id now round_id req in
          let left = balance_after fl wal req.player_id w'.wallet in
          RoundBetPlaced fl wal law bet w (ok (bet, left), w')
          × (resp.status ≡ 200)
          × (resp.body
              ≡ placed_body (record {
                bet_id = bet_id;
                round_id = round_id;
                marble_idx = req.marble_idx;
                amount = req.amount;
                balance_after = left;
                expected_payout_if_win = payout_of fl req.amount;
              })))

  abbrev pub Rejected : World wal.State Float → Response Float × World wal.State Float → Type 0
  Rejected w (resp, w') = IsClientError resp.status × (w' ≡ w)
