-- ===== src/Round/Invariant.antt =====
-- What holds of a round between two calls (server/round/round.go).
use marbles_game.Prelude.{
  All, All-append, List, Str, [], arith, length, length-append, suc, true, ℕ, ◌++◌, ◌+◌, ◌∷◌, ◌≡◌,
  ◌≢◌, ◌≤◌, ◌⊎◌,
}
use marbles_game.Round.{
  Op, Participant, RaceResult, Round, add_participant, adds, apply, finish_race, finishes, new,
  open_buy_in, opens, racing, run, settled, start_race, starts, waiting,
}
use marbles_game.Round.Phases.{is_empty-nil}

-- Marble indices count up from `i` in join order.
abbrev pub Numbered : ℕ → List Participant → Type 0
Numbered i [] = Unit
Numbered i (p ∷ ps) = (p.marble_index ≡ i) × Numbered (suc i) ps

Numbered-append :
    (i : ℕ) (ps : List Participant) (p : Participant)
    → Numbered i ps
    → p.marble_index ≡ i + length ps
    → Numbered i (ps ++ p ∷ [])
Numbered-append i [] p h e = (omega arith, tt)
Numbered-append i (q ∷ ps) p h e = (h.0, Numbered-append (suc i) ps p h.1 (omega arith))

abbrev pub HasName : Participant → Type 0
HasName p = p.name ≢ []

module _ (sha256 : Str → Str) where
  pub record Inv (r : Round) : Type 0 where
    pub committed : r.server_seed_hash ≡ sha256 r.server_seed
    pub numbered : Numbered 0 r.participants
    pub named : All HasName r.participants
    pub capped : length r.participants ≤ r.max_marbles
    pub early : r.phase ≡ waiting → r.participants ≡ []
    pub finished : r.phase ≡ settled → r.has_result ≡ true
    pub recorded :
        r.has_result ≡ true
        → ((r.phase ≡ racing) ⊎ (r.phase ≡ settled)) × (r.race_result.finished_at ≢ 0)

  pub new-Inv : (id : ℕ) (seed : Str) (max now : ℕ) → Inv (new sha256 id seed max now)
  unfolding new
  new-Inv id seed max now = ground arith

  open_buy_in-Inv : (now : ℕ) (r : Round) → Inv r → Inv (open_buy_in now r).1
  unfolding open_buy_in
  open_buy_in-Inv now r v = ground arith

  add_participant-Inv : (p : Participant) (r : Round) → Inv r → Inv (add_participant p r).1
  unfolding add_participant
  add_participant-Inv p r v = ground (
    arith,
    is_empty-nil p.name,
    Numbered-append 0 r.participants (record p { marble_index = length r.participants }) v.numbered
        (omega arith),
    All-append HasName r.participants (record p { marble_index = length r.participants } ∷ [])
        v.named,
    length-append r.participants (record p { marble_index = length r.participants } ∷ []),
  )

  start_race-Inv : (now : ℕ) (r : Round) → Inv r → Inv (start_race now r).1
  unfolding start_race
  start_race-Inv now r v = ground arith

  finish_race-Inv : (res : RaceResult) (now : ℕ) (r : Round) → Inv r → Inv (finish_race res now r).1
  unfolding finish_race
  finish_race-Inv res now r v = ground arith

  pub apply-Inv : (op : Op) (r : Round) → Inv r → Inv (apply op r).1
  unfolding apply
  apply-Inv (opens now) r v = open_buy_in-Inv now r v
  apply-Inv (adds p) r v = add_participant-Inv p r v
  apply-Inv (starts now) r v = start_race-Inv now r v
  apply-Inv (finishes res now) r v = finish_race-Inv res now r v

  pub run-Inv : (ops : List Op) (r : Round) → Inv r → Inv (run ops r)
  unfolding run
  run-Inv [] r v = v
  run-Inv (op ∷ ops) r v = run-Inv ops (apply op r).1 (apply-Inv op r v)

  -- After any sequence of calls on a new round, failed ones included, the marble indices are the
  -- join order, every participant has a name, the cap is kept, the commitment is the hash of the seed,
  -- and a settled round has a result.
  pub run-new-Inv :
      (id : ℕ) (seed : Str) (max now : ℕ) (ops : List Op)
      → Inv (run ops (new sha256 id seed max now))
  run-new-Inv id seed max now ops = run-Inv ops _ (new-Inv id seed max now)
