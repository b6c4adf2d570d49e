-- ===== src/Rgs/Api/Runs.antt =====
-- The server of server/rgs/api.go over any sequence of requests and of turns of its goroutines.
use marbles_game.Prelude.{
  Bool-cases, List, Option, Option-cases, Str, [], arith, inl, inr, is_empty, leb, none, ok, refl,
  str_eq_inst, subst, sym, ℕ, ℤ, ◌∷◌, ◌≡◌,
}
use marbles_game.Prelude.Dict.{lookup}
use marbles_game.Replay.FileSystem.{Root}
use marbles_game.Rgs.Wallet.{Wallet}
use marbles_game.Rgs.Money.{Floats}
use marbles_game.Rgs.Manager.{
  Manager, ManagerConfig, World, close_session, new_manager, open_session, place_session_bet,
}
use marbles_game.Rgs.RoundBets.{
  commit_bet, debited_bet, generate_round_spec, mint, place_bet_on_round,
}
use marbles_game.Rgs.RoundRun.{Inputs}
use marbles_game.Rgs.RoundRun.Whole.{run_next_round}
use marbles_game.Rgs.RoundRun.Queue.{run_next_round_consumes}
use marbles_game.Rgs.RoundRun.Liveness.{Queued, assign_all_succeeds}
use marbles_game.Rgs.RoundRun.Marbles.{Distinct}
use marbles_game.Rgs.Api.{
  Codec, bet_placed_response, close_session_handler, open_session_handler, parse_round_id,
  place_bet_handler, place_round_bet_handler, run_round_handler, start_round_handler, waits,
}
use marbles_game.Rgs.Api.Routes.{
  run, Call, Event, Server, asked, fresh_server, get_balance, get_health, get_round_bets_call,
  get_session_call, post_bet, post_close, post_round_bet, post_run, post_session, post_start,
  resumed, run_background, run_round, serve, step,
}
use marbles_game.Rgs.Api.Queueing.{
  close_session-QueueInv, open_session-QueueInv, place_session_bet-QueueInv,
}
use marbles_game.Rgs.Api.Queue.{QueueInv}
use marbles_game.Rgs.RoundRun.Stages.{assign_all, take_round}
use marbles_game.Rgs.RoundRun.Overfull.{take_lem}

module _ (fl : Floats) (wal : Wallet) (sha256 : Str → Str) (json : Codec (fl.Float)) where
  open fl use {Float}

  -- A new session gets an id that no session has.
  abbrev pub IsNew : Event → Server wal.State Float → Type 0
  IsNew (asked (post_session id now body)) s = lookup id s.world.manager.sessions ≡ none
  IsNew e s = Unit

  abbrev pub AllNew : List Event → Server wal.State Float → Type 0
  AllNew [] s = Unit
  AllNew (e ∷ es) s = IsNew e s × AllNew es (step fl wal sha256 json e s)

  -- A bet on a round leaves the sessions and their queue alone.
  place_bet_on_round_queue :
      (bet_id : Str) (now round_id : ℕ) (player : Str) (marble : ℤ) (amount : Float)
      (w : World wal.State Float)
      → let m = (place_bet_on_round fl wal bet_id now round_id player marble amount w).1.manager in
        (m.pending ≡ w.manager.pending) × (m.sessions ≡ w.manager.sessions)
  unfolding place_bet_on_round debited_bet commit_bet
  place_bet_on_round_queue bet_id now round_id player marble amount w = ground arith

  kept-QueueInv :
      (m m' : Manager Float)
      → (m'.pending ≡ m.pending) × (m'.sessions ≡ m.sessions)
      → QueueInv m
      → QueueInv m'
  kept-QueueInv m m' (queue, table) v =
      subst (λ ids. Distinct ids × Queued ids m'.sessions) (sym queue)
        (subst (λ d. Distinct m.pending × Queued m.pending d) (sym table) v)

  run_next_round-QueueInv :
      (inp : Inputs) (w : World wal.State Float)
      → QueueInv (run_next_round fl wal sha256 inp w).1.manager
  run_next_round-QueueInv inp w =
      let m = (run_next_round fl wal sha256 inp w).1.manager in
      subst (λ ids. Distinct ids × Queued ids m.sessions)
        (sym (run_next_round_consumes fl wal sha256 inp w).0) (tt, tt)

  open_handler-QueueInv :
      (id : Str) (now : ℕ) (body : Str) (w : World wal.State Float)
      → lookup id w.manager.sessions ≡ none
      → QueueInv w.manager
      → QueueInv (open_session_handler fl wal json id now body w).1.manager
  unfolding open_session_handler
  open_handler-QueueInv id now body w new v =
      let after = (open_session_handler fl wal json id now body w).1.manager in
      elim (Option-cases (json.open_request body)) [
        | inl bad ↦ kept-QueueInv w.manager after (ground (arith, bad)) v
        | inr (player, decoded) ↦
            kept-QueueInv (open_session id now player w.manager).1 after (ground (arith, decoded))
              (open_session-QueueInv id now player w.manager new v)
      ]

  place_handler-QueueInv :
      (bet_id : Str) (now : ℕ) (id body : Str) (w : World wal.State Float)
      → QueueInv w.manager
      → QueueInv (place_bet_handler fl wal json bet_id now id body w).1.manager
  unfolding place_bet_handler bet_placed_response
  place_handler-QueueInv bet_id now id body w v =
      let after = (place_bet_handler fl wal json bet_id now id body w).1.manager in
      elim (Option-cases (json.bet_request body)) [
        | inl bad ↦ kept-QueueInv w.manager after (ground (arith, bad)) v
        | inr (amount, decoded) ↦
            kept-QueueInv (place_session_bet wal bet_id now id amount w).1.manager after
              (ground (arith, decoded)) (place_session_bet-QueueInv wal bet_id now id amount w v)
      ]

  close_handler-QueueInv :
      (now : ℕ) (id : Str) (w : World wal.State Float)
      → QueueInv w.manager
      → QueueInv (close_session_handler fl wal now id w).1.manager
  unfolding close_session_handler
  close_handler-QueueInv now id w v =
      kept-QueueInv (close_session now id w).1.manager
        (close_session_handler fl wal now id w).1.manager (ground arith)
        (close_session-QueueInv now id w v)

  round_bet_handler_queue :
      (bet_id : Str) (now : ℕ) (round_text body : Str) (w : World wal.State Float)
      → let m = (place_round_bet_handler fl wal json bet_id now round_text body w).1.manager in
        (m.pending ≡ w.manager.pending) × (m.sessions ≡ w.manager.sessions)
  unfolding place_round_bet_handler
  round_bet_handler_queue bet_id now round_text body w =
      elim (Option-cases (parse_round_id round_text)) [
        | inl bad ↦ rw (place_round_bet_handler, bad) (refl, refl)
        | inr (round_id, parsed) ↦ elim (Option-cases (json.round_bet_request body)) [
          | inl bad ↦ rw (place_round_bet_handler, parsed, bad) (refl, refl)
          | inr (req, decoded) ↦ elim (Bool-cases (is_empty req.player_id)) [
            | inl nameless ↦ rw (place_round_bet_handler, parsed, decoded, nameless) (refl, refl)
            | inr named ↦
                rw (place_round_bet_handler, parsed, decoded, named)
                  (place_bet_on_round_queue bet_id now round_id req.player_id req.marble_idx
                    req.amount w)
          ]
        ]
      ]

  start_handler_queue :
      (round_id : ℕ) (seed : Option Str) (w : World wal.State Float)
      → let m = (start_round_handler fl wal round_id seed w).1.manager in
        (m.pending ≡ w.manager.pending) × (m.sessions ≡ w.manager.sessions)
  unfolding start_round_handler generate_round_spec mint
  start_handler_queue round_id seed w = ground arith

  run_handler-QueueInv :
      (inp : Inputs) (w : World wal.State Float)
      → QueueInv (run_round_handler fl wal sha256 inp w).1.manager
  unfolding run_round_handler
  run_handler-QueueInv inp w =
      kept-QueueInv (run_next_round fl wal sha256 inp w).1.manager
        (run_round_handler fl wal sha256 inp w).1.manager (ground arith)
        (run_next_round-QueueInv inp w)

  run_round-QueueInv :
      (wait : Str) (inp : Inputs) (s : Server wal.State Float)
      → QueueInv s.world.manager
      → QueueInv (run_round fl wal sha256 json wait inp s).1.world.manager
  unfolding run_round
  run_round-QueueInv wait inp s v = elim (Bool-cases (waits fl wal wait)) [
    | inl waited ↦ rw (run_round, waited) (run_handler-QueueInv inp s.world)
    | inr started ↦ rw (run_round, started) v
  ]

  serve-QueueInv :
      (c : Call) (s : Server wal.State Float)
      → IsNew (asked c) s
      → QueueInv s.world.manager
      → QueueInv (serve fl wal sha256 json c s).1.world.manager
  unfolding serve
  serve-QueueInv (post_session id now body) s new v =
      open_handler-QueueInv id now body s.world new v
  serve-QueueInv (post_bet bet_id now id body) s new v =
      place_handler-QueueInv bet_id now id body s.world v
  serve-QueueInv (post_close now id) s new v = close_handler-QueueInv now id s.world v
  serve-QueueInv (get_session_call id) s new v = v
  serve-QueueInv (post_run wait inp) s new v = run_round-QueueInv wait inp s v
  serve-QueueInv (post_start round_id seed) s new v =
      kept-QueueInv s.world.manager (start_round_handler fl wal round_id seed s.world).1.manager
        (start_handler_queue round_id seed s.world) v
  serve-QueueInv (post_round_bet bet_id now round_text body) s new v =
      kept-QueueInv s.world.manager
        (place_round_bet_handler fl wal json bet_id now round_text body s.world).1.manager
        (round_bet_handler_queue bet_id now round_text body s.world) v
  serve-QueueInv (get_round_bets_call round_text player) s new v = v
  serve-QueueInv (get_balance player) s new v = v
  serve-QueueInv (get_health now) s new v = v

  step-QueueInv :
      (e : Event) (s : Server wal.State Float)
      → IsNew e s
      → QueueInv s.world.manager
      → QueueInv (step fl wal sha256 json e s).world.manager
  unfolding step
  step-QueueInv (asked c) s new v = serve-QueueInv c s new v
  step-QueueInv (resumed inp) s new v =
      unfold run_background in
      elim (Bool-cases (leb s.goroutines 0)) [
        | inl idle ↦ rw (run_background, idle) v
        | inr waiting ↦ rw (run_background, waiting) (run_next_round-QueueInv inp s.world)
      ]

  run-QueueInv :
      (es : List Event) (s : Server wal.State Float)
      → AllNew es s
      → QueueInv s.world.manager
      → QueueInv (run fl wal sha256 json es s).world.manager
  unfolding run
  run-QueueInv [] s new v = v
  run-QueueInv (e ∷ es) s (now_new, later) v =
      run-QueueInv es (step fl wal sha256 json e s) later (step-QueueInv e s now_new v)

  -- After any requests to a server that started with no sessions, and any turns of its goroutines, no
  -- session is queued twice and each that is queued is in BET with its bet. In the next round, the loop
  -- that puts the queue on its marbles, on the world that taking the round leaves, ends without an error
  -- for every queued session and at any time, wherever the steps before it let the round get to it. New
  -- sessions get ids that no session has.
  pub run-fresh_server_ready :
      (es : List Event) (cfg : ManagerConfig) (funds : wal.State) (store : Root)
      → AllNew es (fresh_server cfg funds store)
      → let w = (run fl wal sha256 json es (fresh_server cfg funds store)).world in
        QueueInv w.manager
        × ((inp : Inputs)
            → (assign_all fl wal inp.now 0 w.manager.pending (take_round fl wal inp w).1).0 ≡ ok tt)
  unfolding new_manager
  run-fresh_server_ready es cfg funds store new =
      let w = (run fl wal sha256 json es (fresh_server cfg funds store)).world in
      let v = run-QueueInv es (fresh_server cfg funds store) new (tt, tt) in
      (
        v,
        λ inp.
            let w1 = (take_round fl wal inp w).1 in
            assign_all_succeeds fl wal inp.now 0 w.manager.pending w1 v.0
              (subst (Queued w.manager.pending) (sym (take_lem fl wal sha256 inp w).0.0) v.1),
      )
