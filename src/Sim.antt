-- ===== src/Sim.antt =====
-- server/sim/invoker.go: one run of the headless simulator as a subprocess that reads a spec file
-- and leaves a status file. The working directory is a table of files; the subprocess is a parameter
-- that maps the files it finds to its exit and the files it leaves. Path cleaning and timeouts are
-- left out: a killed subprocess is one that exits with an error. Which of the calls of the file system fail
-- is an input; a spec that cannot be written leaves the file that was there.
pub mod Freshness
mod Tests
use marbles_game.Prelude.{
  Bool, Exec, List, Option, Result, Str, codes, err, false, if◌then◌else◌, is_empty, leb, length,
  none, not, ok, some, str_eq_inst, true, ℕ, ℤ, ◌++◌, ◌||◌,
}
use marbles_game.Prelude.Dict.{Dict, delete, insert, lookup}
use marbles_game.Std.Hex.{hex_encode}

pub record Request : Type 0 where
  pub godot_bin : Str
  pub project_path : Str
  pub work_dir : Str
  pub round_id : ℕ
  pub server_seed : Str
  pub client_seeds : List Str
  pub track_id : ℕ
  pub timeout : ℕ
  pub live_stream_addr : Str

pub record SimResult : Type 0 where
  pub round_id : ℕ
  pub winner_marble_index : ℤ
  pub finish_tick : ℤ
  pub replay_path : Str
  pub server_seed_hash_hex : Str
  pub tick_rate_hz : ℤ

-- `statusFile`
pub record StatusFile : Type 0 where
  pub round_id : ℕ
  pub is_done : Bool  -- `ok`
  pub winner_marble_index : ℤ
  pub finish_tick : ℤ
  pub replay_path : Str
  pub server_seed_hash_hex : Str
  pub tick_rate_hz : ℤ

-- `specFile`
pub record SpecFile : Type 0 where
  pub round_id : ℕ
  pub server_seed_hex : Str
  pub client_seeds : List Str
  pub track_id : ℕ
  pub replay_path : Str
  pub status_path : Str
  pub live_stream_addr : Str

pub data Content : Type 0 where
  spec : SpecFile → Content
  status : StatusFile → Content
  bytes : Str → Content

abbrev pub Files : Type 0
Files = Dict Str Content

pub data Error : Type 0 where
  missing_field mkdir_failed write_spec_failed godot_exit no_status status_not_ok : Error
  read_status_failed parse_status_failed : Error

-- The calls of the file system that fail.
pub record Faults : Type 0 where
  pub mkdir : Bool
  pub remove_status : Bool
  pub remove_replay : Bool
  pub write_spec : Bool
  pub read_status : Bool

-- `filepath.Join` of a clean path, as the callers pass it, with one name
abbrev pub join : Str → Str → Str
join work_dir name = work_dir ++ (codes "/" ++ name)

abbrev pub spec_path : Request → Str
spec_path req = join req.work_dir (codes "spec.json")

abbrev pub status_path : Request → Str
status_path req = join req.work_dir (codes "status.json")

abbrev pub replay_path : Request → Str
replay_path req = join req.work_dir (codes "replay.bin")

unfoldable pub spec_of : Request → SpecFile
spec_of req = record {
  round_id = req.round_id;
  server_seed_hex = hex_encode req.server_seed;
  client_seeds = req.client_seeds;
  track_id = req.track_id;
  replay_path = replay_path req;
  status_path = status_path req;
  live_stream_addr = req.live_stream_addr;
}

-- `readStatus`: a file that is no status does not parse.
unfoldable pub read_status : Bool → Option Content → Result Error StatusFile
read_status fails none = err no_status
read_status true (some c) = err read_status_failed
read_status false (some (status s)) = ok s
read_status false (some (spec s)) = err parse_status_failed
read_status false (some (bytes b)) = err parse_status_failed

unfoldable pub result_of : Result Error StatusFile → Result Error SimResult
result_of (err e) = err e
result_of (ok s) =
    if not s.is_done
    then err status_not_ok
    else ok (record {
      round_id = s.round_id;
      winner_marble_index = s.winner_marble_index;
      finish_tick = s.finish_tick;
      replay_path = s.replay_path;
      server_seed_hash_hex = s.server_seed_hash_hex;
      tick_rate_hz = s.tick_rate_hz;
    })

-- `os.Remove`, whose error nobody reads
abbrev pub remove : Bool → Str → Files → Files
remove fails path files = if fails then files else delete path files

-- Stale status and replay removed
unfoldable pub clear_stale : Faults → Request → Files → Files
clear_stale faults req files =
    remove faults.remove_replay (replay_path req)
      (remove faults.remove_status (status_path req) files)

-- The files that the subprocess finds, the spec among them
unfoldable pub prepare : Faults → Request → Files → Files
unfolding spec_of clear_stale
prepare faults req files =
    insert (spec_path req) (spec (spec_of req)) (clear_stale faults req files)

-- The subprocess: whether it exits with zero, and the files afterwards.
abbrev pub Godot : Type 0
Godot = Files → Bool × Files

-- `Run`
unfoldable pub run : Godot → Faults → Request → Exec Error Files SimResult
unfolding prepare clear_stale read_status result_of
run godot faults req files =
    if is_empty req.godot_bin || is_empty req.project_path || is_empty req.work_dir
    then (err missing_field, files)
    else if leb (length req.client_seeds) 0
    then (err missing_field, files)
    else if faults.mkdir
    then (err mkdir_failed, files)
    else if faults.write_spec
    then (err write_spec_failed, clear_stale faults req files)
    else (let (exited, after) = godot (prepare faults req files) in
        if not exited
        then (err godot_exit, after)
        else (result_of (read_status faults.read_status (lookup (status_path req) after)), after))
