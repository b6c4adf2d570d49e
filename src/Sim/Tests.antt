-- ===== src/Sim/Tests.antt =====
-- Runs of server/sim/invoker.go in a directory with a stale status, by a subprocess that does nothing
-- and by one that finishes a race.
use marbles_game.Prelude.{
  [], codes, err, false, is_ok, ok, pos, refl, str_eq, str_eq_inst, true, ◌∷◌, ◌≡◌,
}
use marbles_game.Prelude.Dict.{delete, insert, lookup}
use marbles_game.Sim.{Faults, Files, Godot, Request, StatusFile, no_status, run, status}
use marbles_game.Sim.Freshness.{run_fresh}

abbrev request : Request
request = record {
  godot_bin = codes "godot";
  project_path = codes "game";
  work_dir = codes "w";
  round_id = 9;
  server_seed = 171 ∷ [];
  client_seeds = [] ∷ [];
  track_id = 1;
  timeout = 60;
  live_stream_addr = [];
}

abbrev finished : StatusFile
finished = record {
  round_id = 9;
  is_done = true;
  winner_marble_index = pos 3;
  finish_tick = pos 700;
  replay_path = codes "w/replay.bin";
  server_seed_hash_hex = codes "00";
  tick_rate_hz = pos 60;
}

abbrev stale : Files
stale = (codes "w/status.json", status (record finished { winner_marble_index = pos 0 })) ∷ []

abbrev no_faults : Faults
no_faults = record {
  mkdir = false;
  remove_status = false;
  remove_replay = false;
  write_spec = false;
  read_status = false;
}

abbrev lazy : Godot
lazy files = (true, files)

abbrev racer : Godot
racer files = (true, insert (codes "w/status.json") (status finished) files)

run-lazy : (run lazy no_faults request stale).0 ≡ err no_status
unfolding run lookup insert delete str_eq
run-lazy = refl

run_fresh_example : is_ok (run lazy no_faults request stale).0 ≡ false
run_fresh_example = (run_fresh lazy no_faults request stale refl).2 refl

run-racer :
    (run racer no_faults request stale).0
    ≡ ok (record {
      round_id = 9;
      winner_marble_index = pos 3;
      finish_tick = pos 700;
      replay_path = codes "w/replay.bin";
      server_seed_hash_hex = codes "00";
      tick_rate_hz = pos 60;
    })
unfolding run lookup insert delete str_eq
run-racer = refl

-- Nobody looks at the error of the removal, so a status that could not be removed is taken for the result.
run-stale :
    (run lazy (record no_faults { remove_status = true }) request stale).0
    ≡ ok (record {
      round_id = 9;
      winner_marble_index = pos 0;
      finish_tick = pos 700;
      replay_path = codes "w/replay.bin";
      server_seed_hash_hex = codes "00";
      tick_rate_hz = pos 60;
    })
unfolding run lookup insert delete str_eq
run-stale = refl
