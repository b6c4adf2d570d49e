-- ===== src/Rgs/Api/SessionBetting.antt =====
-- `POST /v1/sessions/{id}/bet` of server/rgs/api.go, over any lawful wallet.
use mathlib.Core.Option
use marbles_game.Prelude.{
  Option-cases, Result, Str, [], arith, codes, err, if◌then◌else◌, inl, inr, minus_one, ok, refl,
  some, str_eq, str_eq_inst, subst, sym, ℕ, ◌++◌, ◌+◌, ◌<◌, ◌∷◌, ◌≡◌, ◌⊎◌,
}
use marbles_game.Prelude.Dict.{lookup}
use marbles_game.Rgs.Errors.{Error}
use marbles_game.Rgs.Session.{Bet, Session, betting, state_string}
use marbles_game.Rgs.Wallet.{Wallet}
use marbles_game.Rgs.Wallet.Laws.{LawfulWallet}
use marbles_game.Rgs.Money.{Floats}
use marbles_game.Rgs.Manager.{World, place_session_bet}
use marbles_game.Rgs.Manager.Betting.{BetPlaced, FreshBet, InRange, place_session_bet_safe}
use marbles_game.Rgs.Api.{
  Codec, bet_error_status, bet_placed_response, fail, place_bet_handler, write_session,
}
use marbles_game.Rgs.Api.Responses.{
  Response, bad_body, session_body, session_response, settlement_response,
}
use marbles_game.Rgs.Api.RoundBetting.{IsClientError}

bet_error_status-IsClientError : (e : Error) → IsClientError (bet_error_status e)
unfolding bet_error_status
bet_error_status-IsClientError e = ground arith

module _ (fl : Floats) (wal : Wallet) (law : LawfulWallet wal) where
  open fl use {Float}
  open law use {account}

  -- The session has its bet, and the answer shows it.
  abbrev pub SessionBetAccepted :
      Codec Float
      → Str
      → Str
      → World wal.State Float
      → Response Float × World wal.State Float
      → Type 0
  SessionBetAccepted json id body w (resp, w') =
      (amount : ℕ) × (s : Session) × (bet : Bet) × (json.bet_request body ≡ some amount)
      × (lookup id w'.manager.sessions ≡ some s)
      × (resp.status ≡ 200)
      × (resp.body
          ≡ session_body (record {
            session_id = s.id;
            player_id = s.player_id;
            state = codes "BET";
            balance = elim (wal.balance s.player_id w'.wallet) [ ok b ↦ b | err e ↦ 0 ];
            opened_at = s.opened_at;
            updated_at = s.updated_at;
            bet = some (record {
              bet_id = bet.bet_id;
              amount = amount;
              placed_at = bet.placed_at;
              marble_index = minus_one;
            });
            last_result = Option.map settlement_response s.last_result;
          }))
      × ((s.state ≡ betting)
          × (s.bet ≡ some bet)
          × (bet.amount ≡ amount)
          × (bet.marble_index ≡ minus_one))
      × (0 < amount)
      × ((q : Str)
          → account q w.wallet ≡ account q w'.wallet + (if str_eq s.player_id q then amount else 0))
      × (w'.manager.pending ≡ w.manager.pending ++ id ∷ [])

  abbrev pub SessionBetRejected :
      World wal.State Float → Response Float × World wal.State Float → Type 0
  SessionBetRejected w (resp, w') =
      IsClientError resp.status
      × ((q : Str) → account q w'.wallet ≡ account q w.wallet)
      × (w'.manager.pending ≡ w.manager.pending)
      × ((j : Str) → lookup j w'.manager.sessions ≡ lookup j w.manager.sessions)

  -- The body for a session in BET.
  session_body_lem :
      (bet : Bet) (amount : ℕ) (s : Session) (funds : wal.State)
      → s.state ≡ betting
      → s.bet ≡ some (record bet { marble_index = minus_one })
      → bet.amount ≡ amount
      → (write_session fl wal 200 s funds).body
        ≡ session_body (record {
          session_id = s.id;
          player_id = s.player_id;
          state = codes "BET";
          balance = elim (wal.balance s.player_id funds) [ ok b ↦ b | err e ↦ 0 ];
          opened_at = s.opened_at;
          updated_at = s.updated_at;
          bet = some (record {
            bet_id = bet.bet_id;
            amount = amount;
            placed_at = bet.placed_at;
            marble_index = minus_one;
          });
          last_result = Option.map settlement_response s.last_result;
        })
  unfolding write_session session_response state_string
  session_body_lem bet amount s funds state its_bet staked = rw (state, its_bet, sym staked) refl

  bet_placed_response_lem :
      (json : Codec Float) (id body : Str) (amount : ℕ) (w : World wal.State Float)
      (r : Result Error Bet) (w' : World wal.State Float)
      → json.bet_request body ≡ some amount
      → BetPlaced wal law id amount w (r, w')
      → SessionBetAccepted json id body w (bet_placed_response fl wal id r w')
        ⊎ SessionBetRejected w (bet_placed_response fl wal id r w')
  unfolding bet_placed_response
  bet_placed_response_lem json id body amount w (err e) w' decoded placed =
      inr (bet_error_status-IsClientError e, placed.0, placed.1, placed.2)
  bet_placed_response_lem json id body amount w (ok bet) w' decoded
        (some_amount, joined, (s, found, state, its_bet, staked, mine, taken)) =
      let goal : Response Float × World wal.State Float → Type 0 =
        λ p. SessionBetAccepted json id body w p ⊎ SessionBetRejected w p in
      subst goal {x = (write_session fl wal 200 s w'.wallet, w')}
        {y = bet_placed_response fl wal id (ok bet) w'} (sym (rw (bet_placed_response, found) refl))
        (inl (
          amount,
          s,
          record bet { marble_index = minus_one },
          decoded,
          found,
          refl,
          session_body_lem bet amount s w'.wallet state its_bet staked,
          (state, its_bet, staked, refl),
          some_amount,
          taken,
          joined,
        ))

  -- A request for a session's bet is answered with 200 exactly if the bet was placed: the stake was
  -- taken from the session's player and nothing from anyone else, the session is queued and waits with
  -- this bet, on no marble yet, and the body is the session as it is now, in BET with this bet, beside
  -- the balance that is left. Any other answer has a client error's status, and every player has the
  -- money as before, the queue is as before and so is every session; in particular the session never
  -- disappears in between. Both transaction ids are new, and each player holds less than 2^64 units.
  pub place_bet_handler_answers :
      (json : Codec Float) (bet_id : Str) (now : ℕ) (id body : Str) (w : World wal.State Float)
      → FreshBet wal law bet_id w.wallet
      → InRange wal law w.wallet
      → SessionBetAccepted json id body w (place_bet_handler fl wal json bet_id now id body w)
        ⊎ SessionBetRejected w (place_bet_handler fl wal json bet_id now id body w)
  unfolding place_bet_handler
  place_bet_handler_answers json bet_id now id body w fresh room =
      let goal : Response Float × World wal.State Float → Type 0 =
        λ p. SessionBetAccepted json id body w p ⊎ SessionBetRejected w p in
      elim (Option-cases (json.bet_request body)) [
        | inl bad ↦
            subst goal {x = (fail fl 400 bad_body, w)}
              {y = place_bet_handler fl wal json bet_id now id body w}
              (sym (rw (place_bet_handler, bad) refl))
              (inr ((omega arith, omega arith), (λ q. refl), refl, λ j. refl))
        | inr (amount, decoded) ↦
            let (r, w') = place_session_bet wal bet_id now id amount w in
            subst goal {x = bet_placed_response fl wal id r w'}
              {y = place_bet_handler fl wal json bet_id now id body w}
              (sym (rw (place_bet_handler, decoded) refl))
              (bet_placed_response_lem json id body amount w r w' decoded
                (place_session_bet_safe wal law bet_id now id amount w fresh room))
      ]
