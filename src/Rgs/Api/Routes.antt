-- ===== src/Rgs/Api/Routes.antt =====
-- server/rgs/api.go: the server as a whole. A call is a request that one of the patterns of `Routes`
-- matches, with the path and query values that its handler reads, and with what the manager draws while
-- it serves it. `runRound` without `wait` starts a goroutine, which later runs one round.
use marbles_game.Prelude.{List, Option, Str, [], if◌then◌else◌, leb, ℕ, ◌+◌, ◌-◌, ◌∷◌}
use marbles_game.Replay.FileSystem.{Root}
use marbles_game.Rgs.Wallet.{Wallet}
use marbles_game.Rgs.Money.{Floats}
use marbles_game.Rgs.Manager.{ManagerConfig, World, new_manager}
use marbles_game.Rgs.RoundRun.{Inputs}
use marbles_game.Rgs.RoundRun.Whole.{run_next_round}
use marbles_game.Rgs.Api.{
  Codec, close_session_handler, get_round_bets, get_session, health, open_session_handler,
  place_bet_handler, place_round_bet_handler, run_round_handler, start_round_handler, waits,
  wallet_balance,
}
use marbles_game.Rgs.Api.Responses.{Response, respond, started_body}

pub data Call : Type 0 where
  post_session : Str → ℕ → Str → Call
  post_bet : Str → ℕ → Str → Str → Call
  post_close : ℕ → Str → Call
  get_session_call : Str → Call
  post_run : Str → Inputs → Call
  post_start : ℕ → Option Str → Call
  post_round_bet : Str → ℕ → Str → Str → Call
  get_round_bets_call : Str → Str → Call
  get_balance : Str → Call
  get_health : ℕ → Call

pub record Server (W F : Type 0) : Type 0 where
  pub world : World W F
  pub goroutines : ℕ  -- started by `runRound`, and not yet run

-- A request, or the turn of a goroutine.
pub data Event : Type 0 where
  asked : Call → Event
  resumed : Inputs → Event

-- The server after `NewManager`.
abbrev pub fresh_server : {W F : Type 0} → ManagerConfig → W → Root → Server W F
fresh_server cfg funds store = record {
  world = record { manager = new_manager cfg; wallet = funds; store = store };
  goroutines = 0;
}

module _ (fl : Floats) (wal : Wallet) (sha256 : Str → Str) (json : Codec (fl.Float)) where
  open fl use {Float}

  abbrev keep : Response Float × World wal.State Float → ℕ → Response Float × Server wal.State Float
  keep (resp, w) n = (resp, record { world = w; goroutines = n })

  -- `runRound`
  unfoldable pub run_round :
      Str → Inputs → Server wal.State Float → Response Float × Server wal.State Float
  unfolding run_round_handler
  run_round wait inp s =
      if waits fl wal wait
      then keep (run_round_handler fl wal sha256 inp s.world) s.goroutines
      else (respond 202 started_body, record s { goroutines = s.goroutines + 1 })

  -- `Routes`
  unfoldable pub serve : Call → Server wal.State Float → Response Float × Server wal.State Float
  unfolding run_round
  serve (post_session id now body) s =
      keep (open_session_handler fl wal json id now body s.world) s.goroutines
  serve (post_bet bet_id now id body) s =
      keep (place_bet_handler fl wal json bet_id now id body s.world) s.goroutines
  serve (post_close now id) s = keep (close_session_handler fl wal now id s.world) s.goroutines
  serve (get_session_call id) s = (get_session fl wal id s.world, s)
  serve (post_run wait inp) s = run_round wait inp s
  serve (post_start round_id seed) s =
      keep (start_round_handler fl wal round_id seed s.world) s.goroutines
  serve (post_round_bet bet_id now round_text body) s =
      keep (place_round_bet_handler fl wal json bet_id now round_text body s.world) s.goroutines
  serve (get_round_bets_call round_text player) s =
      (get_round_bets fl round_text player s.world.manager, s)
  serve (get_balance player) s = (wallet_balance fl wal player s.world.wallet, s)
  serve (get_health now) s = (health fl wal now, s)

  -- One goroutine of `runRound` gets its turn.
  unfoldable pub run_background : Inputs → Server wal.State Float → Server wal.State Float
  run_background inp s = if leb s.goroutines 0 then s else record s {
    world = (run_next_round fl wal sha256 inp s.world).1;
    goroutines = s.goroutines - 1;
  }

  unfoldable pub step : Event → Server wal.State Float → Server wal.State Float
  unfolding serve run_background
  step (asked c) s = (serve c s).1
  step (resumed inp) s = run_background inp s

  unfoldable pub run : List Event → Server wal.State Float → Server wal.State Float
  unfolding step
  run [] s = s
  run (e ∷ es) s = run es (step e s)
