-- ===== src/Rgs/Api/Statuses.antt =====
-- The status codes of `POST /v1/rounds/{round_id}/bets`, as the comment on `placeRoundBet` in
-- server/rgs/api.go lists them, with `MockWallet`.
use marbles_game.Prelude.{
  Bool-cases, Option, Option-cases, Str, arith, if◌then◌else◌, inl, inr, is_empty, is_some, leb_ℤ,
  ltb, ltb_ℤ, nat_eq, none, not, pos, refl, some, str_eq_inst, true, ℕ, ◌==◌, ◌||◌, ◌≡◌,
}
use marbles_game.Prelude.Dict.{lookup}
use marbles_game.Rgs.Errors.{is}
use marbles_game.Rgs.Wallet.{MockWallet, debit, debit_fresh, mock}
use marbles_game.Rgs.Money.{Floats, to_units}
use marbles_game.Rgs.Manager.{RoundBet, World}
use marbles_game.Rgs.RoundBets.{
  check_bet, commit_bet, debited_bet, find_pending_round, place_bet_on_round, place_of,
}
use marbles_game.Rgs.Api.{
  Codec, RoundBetRequest, parse_round_id, place_round_bet_handler, round_bet_error_status,
  round_bet_response,
}

module _ (fl : Floats) where
  open fl use {Float, is_nonpositive}

  -- The status of a well-formed request, from the state of the round and of the player's account.
  abbrev pub documented_status : ℕ → RoundBetRequest Float → World MockWallet Float → ℕ
  documented_status round_id req w =
      if ltb_ℤ req.marble_idx (pos 0) || leb_ℤ (pos w.manager.cfg.max_marbles) req.marble_idx
      then 400
      else if is_nonpositive req.amount
      then 400
      else if not (is_some (find_pending_round round_id w.manager.pending_rounds))
      then (if is_some (lookup round_id w.manager.round_bets) then 409 else 404)
      else if to_units fl req.amount == 0
      then 400
      else elim (lookup req.player_id w.wallet.balances) [
        | none ↦ 404
        | some have ↦ if ltb have (to_units fl req.amount) then 402 else 200
      ]

  -- `PlaceBetOnRound` past its checks.
  debited_status :
      (place : Option ℕ) (bet : RoundBet Float) (units : ℕ) (w : World MockWallet Float)
      → lookup bet.bet_id w.wallet.applied ≡ none
      → is_some (find_pending_round bet.round_id w.manager.pending_rounds) ≡ true
      → (round_bet_response fl mock
          (debited_bet fl mock place bet units
            (debit bet.player_id units bet.bet_id w.wallet).0
            (record w { wallet = (debit bet.player_id units bet.bet_id w.wallet).1 })).0).status
        ≡ (elim (lookup bet.player_id w.wallet.balances) [
          | none ↦ 404
          | some have ↦ if ltb have units then 402 else 200
        ])
  unfolding debited_bet commit_bet debit debit_fresh round_bet_response round_bet_error_status is
  debited_status place bet units w unused pending = ground arith

  placed_status :
      (bet_id : Str) (now round_id : ℕ) (req : RoundBetRequest Float) (w : World MockWallet Float)
      → lookup bet_id w.wallet.applied ≡ none
      → (round_bet_response fl mock
          (place_bet_on_round fl mock bet_id now round_id req.player_id req.marble_idx req.amount
            w).0).status
        ≡ documented_status round_id req w
  unfolding place_bet_on_round check_bet round_bet_response round_bet_error_status is
  placed_status bet_id now round_id req w unused =
      let bet : RoundBet Float = record {
        bet_id = bet_id;
        player_id = req.player_id;
        round_id = round_id;
        marble_idx = req.marble_idx;
        amount = req.amount;
        placed_at = now;
      } in
      ground (
        arith,
        debited_status (place_of round_id w.manager.pending_rounds) bet (to_units fl req.amount) w,
      )

  -- The status of the answer to a request for a bet on a round is: 400 if the round id, the body or the
  -- player is missing or malformed, if the marble is not one of the round's or if the amount is not
  -- positive or rounds to no unit; 404 if the round was never minted, 409 if it was and is no longer
  -- pending; 404 if the wallet does not know the player, 402 if the player has less than the amount;
  -- and 200 otherwise. The first that applies, in this order, but for a part of a unit, which is tested
  -- after the round. The transaction id is new.
  pub place_round_bet_handler_status :
      (json : Codec Float) (bet_id : Str) (now : ℕ) (round_text body : Str)
      (w : World MockWallet Float)
      → lookup bet_id w.wallet.applied ≡ none
      → (place_round_bet_handler fl mock json bet_id now round_text body w).0.status
        ≡ (elim (parse_round_id round_text) [
          | none ↦ 400
          | some round_id ↦ elim (json.round_bet_request body) [
            | none ↦ 400
            | some req ↦ if is_empty req.player_id then 400 else documented_status round_id req w
          ]
        ])
  unfolding place_round_bet_handler
  place_round_bet_handler_status json bet_id now round_text body w unused =
      elim (Option-cases (parse_round_id round_text)) [
        | inl bad ↦ rw (place_round_bet_handler, bad) refl
        | inr (round_id, parsed) ↦ elim (Option-cases (json.round_bet_request body)) [
          | inl bad ↦ rw (place_round_bet_handler, parsed, bad) refl
          | inr (req, decoded) ↦ elim (Bool-cases (is_empty req.player_id)) [
            | inl missing ↦ rw (place_round_bet_handler, parsed, decoded, missing) refl
            | inr named ↦
                rw (place_round_bet_handler, parsed, decoded, named)
                  (placed_status bet_id now round_id req w unused)
          ]
        ]
      ]
