-- ===== src/Cmd/Roundd/Tests.antt =====
-- One mock round on a disk with nothing in the store, and a loop over it (server/cmd/roundd/main.go).
use marbles_game.Prelude.{
  Result, Str, [], codes, false, minus_one, pos, some, str_eq_inst, true, ℕ, ◌∷◌,
}
use marbles_game.Prelude.Dict.{insert}
use marbles_game.Round
use marbles_game.Rtp
use marbles_game.Sim
use marbles_game.Sim.{bytes, spec, status}
use marbles_game.Replay
use marbles_game.Cmd.Roundd.{
  Config, Error, Host, Inputs, pick_track, run_one_round, run_rounds, selectable_track_ids,
}
use marbles_game.Cmd.Roundd.Loop.{NoRepeat, run_rounds-NoRepeat}

abbrev config : Config
config = record {
  godot_bin = codes "godot";
  project_path = codes "p";
  work_root = codes "w";
  marbles = 2;
  rtp_bps = 9500;
  buy_in = 10;
  timeout = 0;
  live_stream_addr = [];
}

-- The second marble wins.
abbrev status_file : Sim.StatusFile
status_file = record {
  round_id = 12;
  is_done = true;
  winner_marble_index = pos 1;
  finish_tick = pos 700;
  replay_path = codes "r";
  server_seed_hash_hex = [];
  tick_rate_hz = pos 60;
}

abbrev simulate : Sim.Godot
simulate files = (
  true,
  insert (codes "w/round-12/status.json") (Sim.status status_file)
      (insert (codes "r") (Sim.bytes (codes "ticks")) files),
)

abbrev inputs : Inputs
inputs = record {
  seed = some (171 ∷ []);
  round_id = 12;
  now = 1;
  start = 2;
  finish = 3;
  stored_at = 4;
  godot = simulate;
  sim_faults = record {
    mkdir = false;
    remove_status = false;
    remove_replay = false;
    write_spec = false;
    read_status = false;
  };
  faults = record {
    stat = false;
    mkdir_temp = false;
    write_replay = false;
    write_manifest = false;
    rename = false;
  };
  suffix = codes "x";
}

abbrev digest : Str → Str
digest s = 1 ∷ s

abbrev text : Sim.Content → Str
text c = elim c [ bytes b ↦ b | status s ↦ [] | spec s ↦ [] ]

abbrev host : Host
host = record { files = []; root = [] }

abbrev outcome : Result Error ℕ × Host
outcome = run_one_round digest text config minus_one inputs host

abbrev track : ℕ
track = pick_track 12 minus_one selectable_track_ids

run_rounds-NoRepeat_example :
    NoRepeat minus_one (run_rounds digest text config minus_one (inputs ∷ inputs ∷ []) host).0
run_rounds-NoRepeat_example =
    run_rounds-NoRepeat digest text config minus_one (inputs ∷ inputs ∷ []) host
