-- ===== src/Round/Tests.antt =====
-- Runs of server/round/round.go: a full race, and a clock that goes back at the finish.
use mathlib.Core.List.{reverse}
use marbles_game.Prelude.{
  List, Str, [], codes, false, if◌then◌else◌, none, pos, refl, some, ◌∷◌, ◌≡◌, ◌≢◌,
}
use marbles_game.Round.{
  Op, Participant, RaceResult, Round, adds, apply, commit_hash, finishes, new, opens, phase_eq,
  racing, result, revealed_seed, run, settled, starts, time_goes_back, waiting, zero_result,
}
use marbles_game.Round.Phases.{apply_err, left_by}
use marbles_game.Round.Fairness.{Follows, accepted, reveal_fair, run-IsProtocol}

-- A hash for the runs: the bytes reversed.
abbrev mirror : Str → Str
mirror s = reverse s

abbrev player : Str → Participant
player n = record { marble_index = 7; name = n; client_seed = [] }

abbrev finish : RaceResult
finish = record { winner_index = pos 1; finished_at = 30 }

abbrev fresh : Round
unfolding new
fresh = new mirror 5 (codes "seed") 2 10

abbrev history : List Op
history =
    adds (player (codes "early"))
    ∷ opens 11
    ∷ adds (player (codes "ann"))
    ∷ adds (player [])
    ∷ adds (player (codes "bob"))
    ∷ adds (player (codes "eve"))
    ∷ starts 20
    ∷ finishes finish 15
    ∷ finishes finish 30
    ∷ []

abbrev started : Round
started = record {
  id = 5;
  server_seed = codes "seed";
  server_seed_hash = codes "dees";
  phase = racing;
  phase_start = 20;
  participants = [];
  max_marbles = 2;
  race_result = zero_result;
  has_result = false;
}

history_phase : (run history (new mirror 5 (codes "seed") 2 10)).phase ≡ settled
unfolding run new apply
history_phase = refl

run-IsProtocol_example :
    Follows waiting
      (accepted history (new mirror 5 (codes "seed") 2 10))
      (run history (new mirror 5 (codes "seed") 2 10)).phase
unfolding new
run-IsProtocol_example = run-IsProtocol history (new mirror 5 (codes "seed") 2 10)

reveal_fair_example :
    let r = run history (new mirror 5 (codes "seed") 2 10) in
    (commit_hash r ≡ codes "dees")
    × (revealed_seed r ≡ (if phase_eq r.phase settled then some (codes "seed") else none))
    × (revealed_seed r ≢ none → (res : RaceResult) × (result r ≡ some res))
reveal_fair_example = reveal_fair mirror 5 (codes "seed") 2 10 history

apply_err_example :
    let late = (apply (finishes finish 15) started).1 in
    (late ≡ left_by (finishes finish 15) time_goes_back started)
    × (revealed_seed late ≡ revealed_seed started)
    × (late.phase ≡ started.phase)
unfolding apply
apply_err_example = apply_err (finishes finish 15) started refl
