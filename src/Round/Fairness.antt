-- ===== src/Round/Fairness.antt =====
-- The fairness guarantees that server/round/round.go promises: commit before reveal, phases in order,
-- participants locked before the race.
use mathlib.Core.List.{append-nil, map-append, append_assoc}
use marbles_game.Prelude.{
  Bool-cases, List, Str, [], arith, false, if◌then◌else◌, inl, inr, is_ok, length, map, none, refl,
  some, subst, sym, true, ℕ, ◌++◌, ◌∷◌, ◌≡◌, ◌≢◌, ◌≤◌,
}
use marbles_game.Round.{
  Op, Participant, Phase, RaceResult, Round, adds, apply, commit_hash, finishes, new, opens,
  phase_eq, phase_rank, result, revealed_seed, run, settled, starts,
}
use marbles_game.Round.Phases.{source_phase, target_phase}
use marbles_game.Round.Invariant.{run-new-Inv}

-- The calls that succeeded.
abbrev pub accepted : List Op → Round → List Op
accepted [] r = []
accepted (op ∷ ops) r =
    let rest = accepted ops (apply op r).1 in if is_ok (apply op r).0 then op ∷ rest else rest

-- Calls that follow the protocol from a phase on.
abbrev pub IsProtocol : Phase → List Op → Type 0
IsProtocol p [] = Unit
IsProtocol p (op ∷ ops) = (p ≡ source_phase op) × IsProtocol (target_phase op) ops

-- The phase at the end of such calls.
abbrev pub last_phase : Phase → List Op → Phase
last_phase p [] = p
last_phase p (op ∷ ops) = last_phase (target_phase op) ops

-- Calls that lead from one phase to another by the protocol.
abbrev pub Follows : Phase → List Op → Phase → Type 0
Follows p ops q = IsProtocol p ops × (q ≡ last_phase p ops)

-- The names that such calls add, in order.
abbrev pub joined : List Op → List Str
joined [] = []
joined (adds p ∷ ops) = p.name ∷ joined ops
joined (_ ∷ ops) = joined ops

apply_ok :
    (op : Op) (r : Round)
    → is_ok (apply op r).0 ≡ true
    → (r.phase ≡ source_phase op) × ((apply op r).1.phase ≡ target_phase op)
unfolding apply
apply_ok (opens now) r h = ground arith
apply_ok (adds p) r h = ground arith
apply_ok (starts now) r h = ground arith
apply_ok (finishes res now) r h = ground arith

-- What no call changes.
apply_keeps :
    (op : Op) (r : Round)
    → ((apply op r).1.server_seed ≡ r.server_seed)
      × ((apply op r).1.server_seed_hash ≡ r.server_seed_hash)
      × (is_ok (apply op r).0 ≡ false → (apply op r).1.phase ≡ r.phase)
unfolding apply
apply_keeps (opens now) r = ground arith
apply_keeps (adds p) r = ground arith
apply_keeps (starts now) r = ground arith
apply_keeps (finishes res now) r = ground arith

-- Whatever a coordinator calls, the calls that succeed follow the protocol from the round's phase,
-- and lead to the phase that the round is in.
pub run-IsProtocol :
    (ops : List Op) (r : Round)
    → IsProtocol r.phase (accepted ops r)
      × ((run ops r).phase ≡ last_phase r.phase (accepted ops r))
unfolding run
run-IsProtocol [] r = (tt, refl)
run-IsProtocol (op ∷ ops) r =
    let ih = run-IsProtocol ops (apply op r).1 in
    let rest = accepted ops (apply op r).1 in
    let end = (run ops (apply op r).1).phase in
    elim (Bool-cases (is_ok (apply op r).0)) [
      | inl good ↦
          let (from, to) = apply_ok op r good in
          let later = subst (λ p. Follows p rest end) to ih in rw good ((from, later.0), later.1)
      | inr bad ↦ rw bad (subst (λ p. Follows p rest end) ((apply_keeps op r).2 bad) ih)
    ]

run_keeps :
    (ops : List Op) (r : Round)
    → ((run ops r).server_seed ≡ r.server_seed)
      × ((run ops r).server_seed_hash ≡ r.server_seed_hash)
unfolding run
run_keeps [] r = (refl, refl)
run_keeps (op ∷ ops) r = ground (arith, apply_keeps op r, run_keeps ops (apply op r).1)

names : List Participant → List Str
names = map λ p. p.name

names-apply :
    (op : Op) (r : Round)
    → names (apply op r).1.participants
      ≡ names r.participants ++ (if is_ok (apply op r).0 then joined (op ∷ []) else [])
unfolding apply names
names-apply (opens now) r = ground (arith, append-nil (names r.participants))
names-apply (adds p) r = ground (
  arith,
  map-append (λ (q : Participant). q.name) r.participants
      (record p { marble_index = length r.participants } ∷ []),
  append-nil (names r.participants),
)
names-apply (starts now) r = ground (arith, append-nil (names r.participants))
names-apply (finishes res now) r = ground (arith, append-nil (names r.participants))

joined-cons : (op : Op) (ops : List Op) → joined (op ∷ ops) ≡ joined (op ∷ []) ++ joined ops
joined-cons (opens now) ops = refl
joined-cons (adds p) ops = refl
joined-cons (starts now) ops = refl
joined-cons (finishes res now) ops = refl

-- The participants are the names that joined, in join order.
pub run-names :
    (ops : List Op) (r : Round)
    → map (λ p. p.name) (run ops r).participants
      ≡ map (λ p. p.name) r.participants ++ joined (accepted ops r)
unfolding run names
run-names [] r = sym (append-nil _)
run-names (op ∷ ops) r = ground (
  arith,
  run-names ops (apply op r).1,
  names-apply op r,
  joined-cons op (accepted ops (apply op r).1),
  append_assoc (names r.participants) (joined (op ∷ [])) (joined (accepted ops (apply op r).1)),
  append-nil (names r.participants),
)

apply_locked :
    (op : Op) (r : Round)
    → 2 ≤ phase_rank r.phase
    → ((apply op r).1.participants ≡ r.participants)
      × (phase_rank r.phase ≤ phase_rank (apply op r).1.phase)
unfolding apply
apply_locked (opens now) r h = ground arith
apply_locked (adds p) r h = ground arith
apply_locked (starts now) r h = ground arith
apply_locked (finishes res now) r h = ground arith

-- From RACING on no call adds, removes or changes a participant, and the phase does not go back.
pub run_locked :
    (ops : List Op) (r : Round)
    → 2 ≤ phase_rank r.phase
    → ((run ops r).participants ≡ r.participants)
      × (phase_rank r.phase ≤ phase_rank (run ops r).phase)
unfolding run
run_locked [] r h = (refl, omega arith)
run_locked (op ∷ ops) r h = ground (arith, apply_locked op r h, run_locked ops (apply op r).1)

module _ (sha256 : Str → Str) where
  -- On a round that started from `new`, after any calls, the seed is revealed exactly in SETTLE; what
  -- is revealed is the seed that was committed at the start, under the same public hash, and a result
  -- is recorded by then.
  pub reveal_fair :
      (id : ℕ) (seed : Str) (max now : ℕ) (ops : List Op)
      → let r = run ops (new sha256 id seed max now) in
        (commit_hash r ≡ sha256 seed)
        × (revealed_seed r ≡ (if phase_eq r.phase settled then some seed else none))
        × (revealed_seed r ≢ none → (res : RaceResult) × (result r ≡ some res))
  unfolding revealed_seed result
  reveal_fair id seed max now ops =
      let v = run-new-Inv sha256 id seed max now ops in
      let k = run_keeps ops (new sha256 id seed max now) in
      (
        unfold new in k.1,
        unfold new in ground (arith, k.0),
        λ h. ((run ops (new sha256 id seed max now)).race_result, ground (arith, v.finished)),
      )
