-- ===== src/Rgs/Api/Tests.antt =====
-- Requests to the API of server/rgs/api.go, with numbers for floats.
use marbles_game.Prelude.{
  List, ok, Str, [], codes, if◌then◌else◌, is_empty, none, pos, refl, some, str_eq, str_eq_inst, ℕ,
  ◌∷◌, ◌≡◌, ◌⊎◌,
}
use marbles_game.Prelude.Dict.{insert, lookup}
use marbles_game.Rgs.Wallet.{MockWallet, balance, debit, mock}
use marbles_game.Rgs.Wallet.Accounts.{mock_lawful}
use marbles_game.Rgs.Manager.{World, new_manager}
use marbles_game.Rgs.Manager.Tests.{in_range, config, world}
use marbles_game.Rgs.RoundRun.Tests.{inputs}
use marbles_game.Rgs.RoundRun.{Inputs}
use marbles_game.Rgs.RoundRun.Stages.{assign_all, take_round}
use marbles_game.Rgs.Api.Queue.{QueueInv}
use marbles_game.Rgs.Api.Runs.{run-fresh_server_ready}
use marbles_game.Rgs.Api.Routes.{
  Event, Server, asked, fresh_server, post_bet, post_close, post_round_bet, post_run, post_session,
  post_start, resumed, run, serve, step,
}
use marbles_game.Rgs.RoundBets.{check_bet, find_pending_round, mint, place_bet_on_round}
use marbles_game.Rgs.RoundBets.Tests.{numbers, with_round}
use marbles_game.Rgs.Api.{
  Codec, RoundBetRequest, parse_round_id, place_bet_handler, place_round_bet_handler,
  round_bet_response,
}
use marbles_game.Rgs.Api.Responses.{Response}
use marbles_game.Rgs.Api.Statuses.{place_round_bet_handler_status}
use marbles_game.Rgs.Api.SessionBetting.{
  SessionBetAccepted, SessionBetRejected, place_bet_handler_answers,
}
use marbles_game.Rgs.Errors.{is}

abbrev request : RoundBetRequest ℕ
request = record { player_id = codes "ann"; marble_idx = pos 2; amount = 1 }

-- Each body is the same request, but for the empty body.
abbrev json : Codec ℕ
json = record {
  open_request = λ body. some body;
  bet_request = λ body. if is_empty body then none else some 30;
  round_bet_request = λ body. if is_empty body then none else some request;
}

abbrev body : Str
body = codes "{}"

abbrev posted : Response ℕ × World MockWallet ℕ
posted = place_round_bet_handler numbers mock json (codes "rb1") 8 (codes " 12") body with_round

place_round_bet_handler_status_example : posted.0.status ≡ 200
unfolding lookup insert str_eq mint new_manager parse_round_id find_pending_round
place_round_bet_handler_status_example =
    place_round_bet_handler_status numbers json (codes "rb1") 8 (codes " 12") body with_round refl

abbrev session_posted : Response ℕ × World MockWallet ℕ
session_posted = place_bet_handler numbers mock json (codes "b1") 5 (codes "s1") body world

place_bet_handler_answers_example :
    SessionBetAccepted numbers mock mock_lawful json (codes "s1") body world session_posted
    ⊎ SessionBetRejected numbers mock mock_lawful world session_posted
unfolding lookup insert str_eq
place_bet_handler_answers_example =
    place_bet_handler_answers numbers mock mock_lawful json (codes "b1") 5 (codes "s1") body world
      (refl, refl) in_range

-- An unknown round, a poor player and an empty body.
refused_requests :
    ((place_round_bet_handler numbers mock json
        (codes "rb1")
        8
        (codes "13")
        body
        with_round).0.status
      ≡ 404)
    × ((place_round_bet_handler numbers mock json
          (codes "rb2")
          9
          (codes "12")
          body
          posted.1).0.status
        ≡ 402)
    × ((place_round_bet_handler numbers mock json
          (codes "rb1")
          8
          (codes "12")
          []
          with_round).0.status
        ≡ 400)
unfolding place_round_bet_handler place_bet_on_round check_bet lookup insert str_eq debit mint
    new_manager balance parse_round_id round_bet_response is
refused_requests = (refl, refl, refl)

-- A session that bets, a round with a bet on it, and two runs, the first of them in the background.
abbrev funds : MockWallet
funds = record { balances = (codes "ann", 1000) ∷ []; applied = [] }

abbrev events : List Event
events =
    asked (post_session (codes "s1") 1 (codes "ann"))
    ∷ asked (post_run [] inputs)
    ∷ asked (post_start 12 (some (7 ∷ [])))
    ∷ asked (post_round_bet (codes "rb1") 2 (codes "12") body)
    ∷ resumed inputs
    ∷ asked (post_bet (codes "b1") 3 (codes "s1") body)
    ∷ asked (post_close 4 (codes "s1"))
    ∷ []

abbrev served : Server MockWallet ℕ
served = run numbers mock (λ s. s) json events (fresh_server config funds [])

run-fresh_server_ready_example :
    QueueInv served.world.manager
    × ((inp : Inputs)
        → (assign_all numbers mock inp.now 0 served.world.manager.pending
            (take_round numbers mock inp served.world).1).0
          ≡ ok tt)
unfolding new_manager lookup
run-fresh_server_ready_example =
    run-fresh_server_ready numbers mock (λ s. s) json events config funds []
      (refl, (tt, (tt, (tt, (tt, (tt, (tt, tt)))))))

-- A session with a bet is queued, and is not closed.
queued_session :
    let calls =
      asked (post_session (codes "s1") 1 (codes "ann"))
      ∷ asked (post_bet (codes "b1") 3 (codes "s1") body)
      ∷ asked (post_close 4 (codes "s1"))
      ∷ [] in
    (run numbers mock (λ s. s) json calls (fresh_server config funds [])).world.manager.pending
    ≡ codes "s1" ∷ []
unfolding run step serve place_bet_handler marbles_game.Rgs.Api.open_session_handler
    marbles_game.Rgs.Api.close_session_handler marbles_game.Rgs.Manager.open_session
    marbles_game.Rgs.Manager.place_session_bet marbles_game.Rgs.Session.new_session new_manager
    lookup insert str_eq debit
queued_session = refl
