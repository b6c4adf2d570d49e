-- ===== src/Cmd/Roundd.antt =====
-- server/cmd/roundd/main.go: rounds with mock participants on a loop, each with an audit entry in the store.
-- The simulator runs on the files of the host, through `Sim.run`. What a round reads from the clock and from
-- crypto/rand, and what the operating system does, are its inputs. Flags and messages are left out.

pub mod Field
pub mod Audit
pub mod Loop
mod Tests
use marbles_game.Prelude.{
  Bool, Exec, List, Option, Result, Str, [], codes, eqb_ℤ, err, get_or, if◌then◌else◌, length, map,
  none, ok, pos, replicate, some, str_eq_inst, suc, zero, ℕ, ℤ, ◌%◌, ◌++◌, ◌+◌, ◌==◌, ◌∷◌,
}
use marbles_game.Prelude.Dict.{lookup}
use marbles_game.Std.Paths.{clean, join}
use marbles_game.Std.Decimal.{format_uint}
use marbles_game.Std.Hex.{hex_encode}
use marbles_game.Std.Fnv.{fnv64a}
use marbles_game.Round
use marbles_game.Round.{Round, buy_in}
use marbles_game.Rtp
use marbles_game.Sim
use marbles_game.Replay
use marbles_game.Replay.FileSystem.{Manifest, Root}
use marbles_game.Rgs.RoundRun.{seat_all, store_participant, two_digits}

-- `selectableTrackIDs`
abbrev pub selectable_track_ids : List ℕ
selectable_track_ids = 0 ∷ 1 ∷ 2 ∷ 3 ∷ 4 ∷ 5 ∷ []

-- `selectTrack`. The pool is not empty.
unfoldable pub pick_track : ℕ → ℤ → List ℕ → ℕ
pick_track round_id previous pool =
    if length pool == 1
    then get_or pool 0 0
    else (let candidate = fnv64a round_id % length pool in
        if eqb_ℤ (pos (get_or pool candidate 0)) previous
        then get_or pool ((candidate + 1) % length pool) 0
        else get_or pool candidate 0)

-- `roundConfig`, but for the previous track
pub record Config : Type 0 where
  pub godot_bin : Str
  pub project_path : Str
  pub work_root : Str
  pub marbles : ℕ  -- int: a negative value is treated as 0 is
  pub rtp_bps : ℕ  -- uint32
  pub buy_in : ℕ  -- uint64
  pub timeout : ℕ
  pub live_stream_addr : Str

pub record Inputs : Type 0 where
  pub seed : Option Str  -- crypto/rand
  pub round_id : ℕ  -- `time.Now().UnixNano()`
  pub now : ℕ
  pub start : ℕ
  pub finish : ℕ
  pub stored_at : ℕ
  pub godot : Sim.Godot
  pub sim_faults : Sim.Faults
  pub faults : Replay.Faults
  pub suffix : Str

-- The disk: the files of the simulator and the root of the store.
pub record Host : Type 0 where
  pub files : Sim.Files
  pub root : Root

pub data Error : Type 0 where
  seed_failed seed_not_revealed replay_not_opened : Error
  open_failed join_failed start_failed finish_failed : Round.Error → Error
  sim_failed : Sim.Error → Error
  settle_failed : Rtp.Error → Error
  save_failed : Replay.Error → Error

-- `fmt.Sprintf("player_%02d", i)` for `k` players from `i` on
abbrev pub players : ℕ → ℕ → List Str
players i zero = []
players i (suc k) = (codes "player_" ++ two_digits i) ∷ players (i + 1) k

-- A call on a round, with the error that the caller makes of its failure.
abbrev pub then_on {ℓ} :
    {A : Type ℓ}
    → (Round.Error → Error)
    → Result Round.Error (Unit {0}) × Round
    → (Round → Result Error A)
    → Result Error A
then_on wrapped (ok done, r) next = next r
then_on wrapped (err e, r) next = err (wrapped e)

module _ (sha256 : Str → Str) where
  -- Steps 1 to 4 of `runOneRound`
  unfoldable pub start_round : Config → Inputs → Str → Result Error Round
  unfolding seat_all
  start_round cfg inp seed =
      then_on open_failed
        (Round.open_buy_in inp.now (Round.new sha256 inp.round_id seed cfg.marbles inp.now))
        λ opened_round.
          then_on join_failed (seat_all (players 0 cfg.marbles) opened_round)
            λ full. then_on start_failed (Round.start_race inp.start full) λ r. ok r

  -- The request of step 5
  unfoldable pub request : Config → Inputs → ℕ → Str → Round → Sim.Request
  request cfg inp track seed r = record {
    godot_bin = cfg.godot_bin;
    project_path = cfg.project_path;
    work_dir = join cfg.work_root (codes "round-" ++ format_uint inp.round_id);
    round_id = inp.round_id;
    server_seed = seed;
    client_seeds = map (λ p. p.client_seed) r.participants;
    track_id = track;
    timeout = cfg.timeout;
    live_stream_addr = cfg.live_stream_addr;
  }

  -- The manifest of step 8
  unfoldable pub audit_entry : Inputs → ℕ → Round → Str → Sim.SimResult → Manifest
  audit_entry inp track r revealed res = record {
    round_id = inp.round_id;
    created_at = 0;
    protocol_version = 3;
    tick_rate_hz = res.tick_rate_hz;
    track_id = track;
    server_seed_hash_hex = hex_encode (Round.commit_hash r);
    server_seed_hex = hex_encode revealed;
    participants = map store_participant r.participants;
    winner = record { marble_index = res.winner_marble_index; finish_tick = res.finish_tick };
    replay_sha256_hex = [];
  }

  -- Steps 6 and 7: the round that is closed, and the seed that it reveals.
  unfoldable pub close_and_settle :
      Config → Inputs → Sim.SimResult → Round → Result Error (Round × Str)
  close_and_settle cfg inp res r =
      then_on finish_failed
        (Round.finish_race
          (record { winner_index = res.winner_marble_index; finished_at = inp.finish }) inp.finish
          r)
        λ closed_round. elim (Round.revealed_seed closed_round) [
          | none ↦ err seed_not_revealed
          | some seed ↦
              elim (Rtp.settle (record { rtp_basis_points = cfg.rtp_bps })
                (replicate (length r.participants) cfg.buy_in) res.winner_marble_index) [
                  | err e ↦ err (settle_failed e)
                  | ok split ↦ ok (closed_round, seed)
                ]
        ]

  -- The bytes of a file that the simulator left: the text of a JSON file is a parameter.
  module _ (text : Sim.Content → Str) where
    -- Step 8, on the file under the replay's path
    unfoldable pub save_audit : Inputs → ℕ → Manifest → Option Sim.Content → Exec Error Host ℕ
    save_audit inp track m none host = (err replay_not_opened, host)
    save_audit inp track m (some content) host =
        let (saved, root) =
          Replay.save sha256 inp.faults inp.suffix inp.stored_at m (text content) host.root in
        (elim saved [ err e ↦ err (save_failed e) | ok m' ↦ ok track ], record host { root = root })

    -- What follows the simulator.
    unfoldable pub after_sim :
        Config → Inputs → ℕ → Round → Result Sim.Error Sim.SimResult → Exec Error Host ℕ
    unfolding close_and_settle save_audit audit_entry
    after_sim cfg inp track r (err e) host = (err (sim_failed e), host)
    after_sim cfg inp track r (ok res) host = elim (close_and_settle cfg inp res r) [
      | err e ↦ (err e, host)
      | ok (closed_round, revealed) ↦
          save_audit inp track (audit_entry inp track closed_round revealed res)
            (lookup res.replay_path host.files) host
    ]

    -- `runOneRound`
    unfoldable pub run_one_round : Config → ℤ → Inputs → Exec Error Host ℕ
    unfolding start_round request after_sim pick_track
    run_one_round cfg previous inp host = elim inp.seed [
      | none ↦ (err seed_failed, host)
      | some seed ↦ elim (start_round cfg inp seed) [
        | err e ↦ (err e, host)
        | ok r ↦
            let track = pick_track inp.round_id previous selectable_track_ids in
            let (res, files) =
              Sim.run inp.godot inp.sim_faults (request cfg inp track seed r) host.files in
            after_sim cfg inp track r res (record host { files = files })
      ]
    ]

    -- The previous track of the next round: a failed round leaves it.
    abbrev pub next_track : ℤ → Result Error ℕ → ℤ
    next_track previous (ok track) = pos track
    next_track previous (err e) = previous

    -- The loop of `main`
    unfoldable pub run_rounds : Config → ℤ → List Inputs → Host → List (Result Error ℕ) × Host
    unfolding run_one_round
    run_rounds cfg previous [] host = ([], host)
    run_rounds cfg previous (inp ∷ inps) host =
        let (r, host') = run_one_round cfg previous inp host in
        let (rs, host'') = run_rounds cfg (next_track previous r) inps host' in (r ∷ rs, host'')
