-- ===== src/Round.antt =====
-- server/round/round.go: the state machine of one round, WAITING → BUY_IN → RACING → SETTLE.
-- Times are numbers of nanoseconds, and 0 is Go's zero `time.Time`.
pub mod Phases
pub mod Invariant
pub mod Fairness
mod Tests
use marbles_game.Prelude.{
  Bool, Exec, List, Option, Str, [], codes, err, false, if◌then◌else◌, is_empty, leb, length, ltb,
  none, not, ok, pos, some, true, ℕ, ℤ, ◌++◌, ◌==◌, ◌∷◌,
}

pub data Phase : Type 0 where
  waiting buy_in racing settled : Phase

-- The values of the `iota` block.
abbrev pub phase_rank : Phase → ℕ
phase_rank waiting = 0
phase_rank buy_in = 1
phase_rank racing = 2
phase_rank settled = 3

abbrev pub phase_eq : Phase → Phase → Bool
phase_eq p q = phase_rank p == phase_rank q

-- `Phase.String`
unfoldable pub phase_string : Phase → Str
phase_string waiting = codes "WAITING"
phase_string buy_in = codes "BUY_IN"
phase_string racing = codes "RACING"
phase_string settled = codes "SETTLE"

pub record Participant : Type 0 where
  pub marble_index : ℕ
  pub name : Str
  pub client_seed : Str

pub record RaceResult : Type 0 where
  pub winner_index : ℤ
  pub finished_at : ℕ

pub record Round : Type 0 where
  pub id : ℕ
  pub server_seed : Str
  pub server_seed_hash : Str
  pub phase : Phase
  pub phase_start : ℕ
  pub participants : List Participant
  pub max_marbles : ℕ
  pub race_result : RaceResult
  pub has_result : Bool

pub data Error : Type 0 where
  wrong_phase round_full empty_name time_goes_back result_missing : Error

abbrev pub zero_result : RaceResult
zero_result = record { winner_index = pos 0; finished_at = 0 }

-- `New`. `crypto/sha256` is a parameter.
unfoldable pub new : (Str → Str) → ℕ → Str → ℕ → ℕ → Round
new sha256 id seed max_marbles now = record {
  id = id;
  server_seed = seed;
  server_seed_hash = sha256 seed;
  phase = waiting;
  phase_start = now;
  participants = [];
  max_marbles = max_marbles;
  race_result = zero_result;
  has_result = false;
}

-- `CommitHash`
abbrev pub commit_hash : Round → Str
commit_hash r = r.server_seed_hash

-- `RevealedSeed`
unfoldable pub revealed_seed : Round → Option Str
revealed_seed r = if phase_eq r.phase settled then some r.server_seed else none

-- `Result`
unfoldable pub result : Round → Option RaceResult
result r = if r.has_result then some r.race_result else none

-- `advance`
unfoldable pub advance : Phase → ℕ → Exec Error Round (Unit {0})
advance next now r =
    if ltb now r.phase_start
    then (err time_goes_back, r)
    else (ok tt, record r { phase = next; phase_start = now })

-- `OpenBuyIn`
unfoldable pub open_buy_in : ℕ → Exec Error Round (Unit {0})
unfolding advance
open_buy_in now r =
    if not (phase_eq r.phase waiting) then (err wrong_phase, r) else advance buy_in now r

-- `AddParticipant`
unfoldable pub add_participant : Participant → Exec Error Round (Unit {0})
add_participant p r =
    if not (phase_eq r.phase buy_in)
    then (err wrong_phase, r)
    else if leb r.max_marbles (length r.participants)
    then (err round_full, r)
    else if is_empty p.name
    then (err empty_name, r)
    else (let joined = record p { marble_index = length r.participants } in
        (ok tt, record r { participants = r.participants ++ joined ∷ [] }))

-- `StartRace`
unfoldable pub start_race : ℕ → Exec Error Round (Unit {0})
unfolding advance
start_race now r =
    if not (phase_eq r.phase buy_in) then (err wrong_phase, r) else advance racing now r

-- `FinishRace`: the result is written before `advance` can fail.
unfoldable pub finish_race : RaceResult → ℕ → Exec Error Round (Unit {0})
unfolding advance
finish_race res now r =
    if not (phase_eq r.phase racing)
    then (err wrong_phase, r)
    else if res.finished_at == 0
    then (err result_missing, r)
    else advance settled now (record r { race_result = res; has_result = true })

-- The calls that a coordinator can make, in any order.
pub data Op : Type 0 where
  opens : ℕ → Op
  adds : Participant → Op
  starts : ℕ → Op
  finishes : RaceResult → ℕ → Op

unfoldable pub apply : Op → Exec Error Round (Unit {0})
unfolding open_buy_in add_participant start_race finish_race
apply (opens now) = open_buy_in now
apply (adds p) = add_participant p
apply (starts now) = start_race now
apply (finishes res now) = finish_race res now

-- Errors are values: a coordinator may go on after one.
unfoldable pub run : List Op → Round → Round
run [] r = r
run (op ∷ ops) r = run ops (apply op r).1
