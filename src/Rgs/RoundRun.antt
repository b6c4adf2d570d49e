-- ===== src/Rgs/RoundRun.antt =====
-- server/rgs/manager.go: `RunNextRound`, stage by stage in the order of the code. The simulator is
-- the closure of the configuration; `files` is what `os.Open` finds under a path.
pub mod Stages
pub mod Whole
pub mod Seats
pub mod Settling
pub mod Marbles
pub mod Queue
pub mod Overfull
pub mod StageResults
pub mod Reports
pub mod Winners
pub mod Liveness
pub mod Stored
pub mod Stakes
pub mod Tests
use marbles_game.Prelude.{
  Bool, Exec, List, Option, Result, Str, [], codes, err, if◌then◌else◌, length, ltb, map, none, ok,
  some, suc, zero, ℕ, ℤ, ◌++◌, ◌+◌, ◌-◌, ◌∷◌,
}
use marbles_game.Std.Paths.{clean, join}
use marbles_game.Std.Hex.{hex_encode}
use marbles_game.Std.Decimal.{format_uint}
use marbles_game.Round
use marbles_game.Round.{Round}
use marbles_game.Rtp
use marbles_game.Sim
use marbles_game.Replay
use marbles_game.Replay.FileSystem.{Manifest, Participant}
use marbles_game.Rgs.Errors.{Error, reason, round_failed, seed_not_revealed}
use marbles_game.Rgs.Manager.{ManagerConfig, RoundSpec}

-- What one call reads from its surroundings.
pub record Inputs : Type 0 where
  pub fresh_id : ℕ  -- `time.Now().UnixNano()`
  pub fresh_seed : Option Str  -- crypto/rand
  pub now : ℕ
  pub start : ℕ
  pub finish : ℕ
  pub settled_at : ℕ
  pub stored_at : ℕ
  pub sim : Sim.Request → Result Sim.Error Sim.SimResult
  pub files : Str → Option Str
  pub faults : Replay.Faults
  pub suffix : Str

pub record RoundBetOutcome (F : Type 0) : Type 0 where
  pub bet_id : Str
  pub player_id : Str
  pub marble_idx : ℤ
  pub amount : F
  pub won : Bool
  pub payout : F
  pub winner_index : ℤ

-- `copy(seed[:], seedBytes)` into `[32]byte`
abbrev pub to_seed : ℕ → Str → Str
to_seed zero s = []
to_seed (suc n) [] = 0 ∷ to_seed n []
to_seed (suc n) (b ∷ s) = b ∷ to_seed n s

-- `fmt.Sprintf("%02d", i)`
abbrev pub two_digits : ℕ → Str
two_digits i = if ltb i 10 then b'0' ∷ format_uint i else format_uint i

-- The names of `k` fillers from index `i` on.
abbrev pub fillers : ℕ → ℕ → List Str
fillers i zero = []
fillers i (suc k) = (codes "filler_" ++ two_digits i) ∷ fillers (i + 1) k

-- An error of another package, in a message.
abbrev pub in_round {ℓ} : {A : Type ℓ} → Result Round.Error (Unit {0}) × A → Result Error A
in_round (ok done, a) = ok a
in_round (err e, a) = err (reason round_failed)

-- The `AddParticipant` loops.
unfoldable pub seat_all : List Str → Exec Round.Error Round (Unit {0})
seat_all [] r = (ok tt, r)
seat_all (name ∷ names) r =
    let (res, r') =
      Round.add_participant (record { marble_index = 0; name = name; client_seed = [] }) r in
    elim res [ err e ↦ (err e, r') | ok done ↦ seat_all names r' ]

-- `OpenBuyIn` and the loops over bettors and fillers, on a new round.
unfoldable pub open_round :
    (Str → Str) → ManagerConfig → RoundSpec → Str → ℕ → List Str → Result Error Round
unfolding seat_all
open_round sha256 cfg spec seed now bettors =
    let r = Round.new sha256 spec.round_id seed cfg.max_marbles now in
    let (res, r') = Round.open_buy_in now r in
    elim res [
      | err e ↦ err (reason round_failed)
      | ok done ↦
          in_round
            (seat_all (bettors ++ fillers (length bettors) (cfg.max_marbles - length bettors)) r')
    ]

-- `FinishRace` and `RevealedSeed`
unfoldable pub close_round : Round.RaceResult → ℕ → Round → Result Error (Round × Str)
close_round res now r =
    let (done, r') = Round.finish_race res now r in
    elim done [
      | err e ↦ err (reason round_failed)
      | ok _ ↦ elim (Round.revealed_seed r') [
        | none ↦ err (reason seed_not_revealed)
        | some seed ↦ ok (r', seed)
      ]
    ]

unfoldable pub sim_request : ManagerConfig → RoundSpec → Str → Round → Sim.Request
unfolding clean
sim_request cfg spec seed r = record {
  godot_bin = cfg.godot_bin;
  project_path = cfg.project_path;
  work_dir = join cfg.work_root (codes "round-" ++ format_uint spec.round_id);
  round_id = spec.round_id;
  server_seed = seed;
  client_seeds = map (λ p. p.client_seed) r.participants;
  track_id = spec.track_id;
  timeout = cfg.sim_timeout;
  live_stream_addr = [];
}

abbrev pub store_participant : Round.Participant → Participant
store_participant p = record {
  marble_index = p.marble_index;
  name = p.name;
  client_seed = p.client_seed;
}

unfoldable pub make_manifest : RoundSpec → Round → Str → Sim.SimResult → Manifest
make_manifest spec r revealed res = record {
  round_id = spec.round_id;
  created_at = 0;
  protocol_version = 3;
  tick_rate_hz = res.tick_rate_hz;
  track_id = spec.track_id;
  server_seed_hash_hex = hex_encode (Round.commit_hash r);
  server_seed_hex = hex_encode revealed;
  participants = map store_participant r.participants;
  winner = record { marble_index = res.winner_marble_index; finish_tick = res.finish_tick };
  replay_sha256_hex = [];
}

abbrev pub or_throw {ℓ κ} : {A : Type ℓ} {S : Type κ} → Option A → Error → Exec Error S A
or_throw none e s = (err e, s)
or_throw (some a) e s = (ok a, s)
