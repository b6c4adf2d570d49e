-- ===== src/Round/Phases.antt =====
-- What one call does to the phase, and on which rounds it succeeds (server/round/round.go).
use marbles_game.Prelude.{
  Str, [], arith, err, false, is_empty, length, ok, refl, true, ◌<◌, ◌↔◌, ◌∷◌, ◌≡◌, ◌≢◌, ◌≤◌,
}
use marbles_game.Round.{
  wrong_phase, round_full, empty_name, result_missing, Error, Op, Phase, Round, adds, apply, buy_in,
  finishes, opens, racing, result, revealed_seed, settled, starts, time_goes_back, waiting,
}

-- The phase that a call needs and the one that it leads to.
abbrev pub source_phase : Op → Phase
source_phase (opens now) = waiting
source_phase (adds p) = buy_in
source_phase (starts now) = buy_in
source_phase (finishes res now) = racing

abbrev pub target_phase : Op → Phase
target_phase (opens now) = buy_in
target_phase (adds p) = buy_in
target_phase (starts now) = racing
target_phase (finishes res now) = settled

-- The guards of a call beside the phase.
abbrev pub Allowed : Op → Round → Type 0
Allowed (opens now) r = r.phase_start ≤ now
Allowed (adds p) r = (length r.participants < r.max_marbles) × (p.name ≢ [])
Allowed (starts now) r = r.phase_start ≤ now
Allowed (finishes res now) r = (res.finished_at ≢ 0) × (r.phase_start ≤ now)

is_empty-ne : (s : Str) → s ≢ [] → is_empty s ≡ false
is_empty-ne [] h = absurd (h refl)
is_empty-ne (c ∷ s) h = refl

pub is_empty-nil : (s : Str) → is_empty s ≡ false → s ≢ []
is_empty-nil [] h e = cc
is_empty-nil (c ∷ s) h e = cc

-- A call succeeds exactly in its source phase with its guards met.
pub apply_ok_iff :
    (op : Op) (r : Round) → ((apply op r).0 ≡ ok tt) ↔ ((r.phase ≡ source_phase op) × Allowed op r)
unfolding apply
apply_ok_iff (opens now) r = (λ h. ground arith, λ h. ground arith)
apply_ok_iff (adds p) r =
    (λ h. ground (arith, is_empty-nil p.name), λ h. ground (arith, is_empty-ne p.name))
apply_ok_iff (starts now) r = (λ h. ground arith, λ h. ground arith)
apply_ok_iff (finishes res now) r = (λ h. ground arith, λ h. ground arith)

-- A call that succeeds moves to its target phase, which is the same phase or the next one.
pub apply_ok_phase :
    (op : Op) (r : Round) → (apply op r).0 ≡ ok tt → (apply op r).1.phase ≡ target_phase op
unfolding apply
apply_ok_phase (opens now) r h = ground arith
apply_ok_phase (adds p) r h = ground arith
apply_ok_phase (starts now) r h = ground arith
apply_ok_phase (finishes res now) r h = ground arith

-- What a call that failed has left: a `FinishRace` that the clock refused has written its result, and any
-- other call nothing.
abbrev pub left_by : Op → Error → Round → Round
left_by (finishes res now) time_goes_back r = record r { race_result = res; has_result = true }
left_by op e r = r

-- A call that fails changes nothing, but for a `FinishRace` that is refused by the clock: that one has
-- written its own result already, and nothing else. In either case the phase is as before, and so is
-- what `RevealedSeed` answers.
pub apply_err :
    (op : Op) (r : Round) {e : Error}
    → (apply op r).0 ≡ err e
    → ((apply op r).1 ≡ left_by op e r)
      × (revealed_seed (apply op r).1 ≡ revealed_seed r)
      × ((apply op r).1.phase ≡ r.phase)
unfolding apply result revealed_seed
apply_err (opens now) r h = (ground arith, ground arith, ground arith)
apply_err (adds p) r h = (ground arith, ground arith, ground arith)
apply_err (starts now) r h = (ground arith, ground arith, ground arith)
apply_err (finishes res now) r {e = wrong_phase} h = (ground arith, ground arith, ground arith)
apply_err (finishes res now) r {e = round_full} h = (ground arith, ground arith, ground arith)
apply_err (finishes res now) r {e = empty_name} h = (ground arith, ground arith, ground arith)
apply_err (finishes res now) r {e = time_goes_back} h = (ground arith, ground arith, ground arith)
apply_err (finishes res now) r {e = result_missing} h = (ground arith, ground arith, ground arith)
