-- ===== src/Rgs/RoundRun/Seats.antt =====
-- Who starts in `RunNextRound` of server/rgs/manager.go: the bettors in queue order, then fillers.
use mathlib.Core.List.{append-nil, append_assoc}
use marbles_game.Prelude.{
  All, All-append, Bool-cases, List, Result, Str, [], ap, arith, err, false, if◌then◌else◌, inl,
  inr, is_empty, leb, length, length-append, ltb, ok, refl, subst, suc, sym, true, zero, ℕ, ◌++◌,
  ◌+◌, ◌-◌, ◌<◌, ◌∙◌, ◌∷◌, ◌≡◌, ◌≤◌,
}
use marbles_game.Round
use marbles_game.Round.{Participant, Round, add_participant, buy_in, new, open_buy_in, round_full}
use marbles_game.Rgs.RoundRun.{fillers, in_round, open_round, seat_all}
use marbles_game.Rgs.Errors.{reason, round_failed}
use marbles_game.Rgs.Manager.{ManagerConfig, RoundSpec}

abbrev pub AllNamed : List Str → Type 0
AllNamed = All (λ name. is_empty name ≡ false)

-- The participants with these names, numbered from an index on.
abbrev pub seats : ℕ → List Str → List Participant
seats i [] = []
seats i (name ∷ names) =
    record { marble_index = i; name = name; client_seed = [] } ∷ seats (i + 1) names

add_lem :
    (name : Str) (r : Round)
    → r.phase ≡ buy_in
    → is_empty name ≡ false
    → add_participant (record { marble_index = 0; name = name; client_seed = [] }) r ≡ (
        if ltb (length r.participants) r.max_marbles
        then (
          ok tt,
          record r { participants = r.participants ++ seats (length r.participants) (name ∷ []) },
        )
        else (err round_full, r))
unfolding add_participant
add_lem name r open_phase named = ground arith

pub seat_all_lem :
    (names : List Str) (r : Round)
    → r.phase ≡ buy_in
    → AllNamed names
    → length r.participants + length names ≤ r.max_marbles
    → seat_all names r
      ≡ (ok tt, record r { participants = r.participants ++ seats (length r.participants) names })
unfolding seat_all
seat_all_lem [] r open_phase named room =
    ap (λ ps. (ok tt, record r { participants = ps })) (sym (append-nil r.participants))
seat_all_lem (name ∷ names) r open_phase named room =
    let seat = seats (length r.participants) (name ∷ []) in
    let r' = record r { participants = r.participants ++ seat } in
    let end = record r {
      participants = r.participants ++ seats (length r.participants) (name ∷ names);
    } in
    let free : ltb (length r.participants) r.max_marbles ≡ true = ground arith in
    let step : add_participant (record { marble_index = 0; name = name; client_seed = [] }) r
        ≡ (ok tt, r') =
      rw free at (add_lem name r open_phase named.0) in
    let more : length r'.participants ≡ length r.participants + 1 =
      length-append r.participants seat in
    let ih = seat_all_lem names r' open_phase named.1 (omega (arith, more)) in
    subst (λ p. elim p.0 [ err e ↦ (err e, p.1) | ok done ↦ seat_all names p.1 ] ≡ (ok tt, end))
      (sym step)
      (ih
        ∙ ap (λ ps. (ok tt, record r { participants = ps }))
            (rw more (append_assoc r.participants seat (seats (length r.participants + 1) names))))

-- One more name than there are seats, and the loop fails.
pub seat_all_full :
    (names : List Str) (r : Round)
    → r.phase ≡ buy_in
    → AllNamed names
    → length r.participants ≤ r.max_marbles
    → r.max_marbles < length r.participants + length names
    → (seat_all names r).0 ≡ err round_full
unfolding seat_all
seat_all_full [] r open_phase named room full = ground arith
seat_all_full (name ∷ names) r open_phase named room full =
    let seat = seats (length r.participants) (name ∷ []) in
    let r' = record r { participants = r.participants ++ seat } in
    let goal : Result Round.Error (Unit {0}) × Round → Type 0 = λ p.
      (elim p.0 as (λ x. Result Round.Error (Unit {0}) × Round) [
        | err e ↦ (err e, p.1)
        | ok done ↦ seat_all names p.1
      ]).0
      ≡ err round_full in
    let step = add_lem name r open_phase named.0 in
    elim (Bool-cases (ltb (length r.participants) r.max_marbles)) [
      | inr no_seat ↦ subst goal {x = (err round_full, r)} (sym (rw no_seat at step)) refl
      | inl free ↦
          let more = length-append r.participants seat in
          subst goal {x = (ok tt, r')} (sym (rw free at step)) (
            seat_all_full names r' open_phase named.1 (ground (arith, more, free))
              (omega (arith, more)))
    ]

fillers_lem : (i k : ℕ) → AllNamed (fillers i k) × (length (fillers i k) ≡ k)
fillers_lem i zero = (tt, refl)
fillers_lem i (suc k) = ((refl, (fillers_lem (i + 1) k).0), ap suc (fillers_lem (i + 1) k).1)

-- The names of those who start.
abbrev pub starters : ManagerConfig → List Str → List Str
starters cfg bettors = bettors ++ fillers (length bettors) (cfg.max_marbles - length bettors)

pub starters_lem :
    (cfg : ManagerConfig) (bettors : List Str)
    → AllNamed bettors
    → AllNamed (starters cfg bettors)
      × (length (starters cfg bettors) ≡ length bettors + (cfg.max_marbles - length bettors))
starters_lem cfg bettors named =
    let n = length bettors in
    let k = cfg.max_marbles - n in
    let rest = fillers_lem n k in
    (
      All-append _ bettors (fillers n k) named rest.0,
      length-append bettors (fillers n k) ∙ ap (λ l. n + l) rest.1,
    )

in_round_err :
    (p : Result Round.Error (Unit {0}) × Round) (e : Round.Error)
    → p.0 ≡ err e
    → in_round p ≡ err (reason round_failed)
in_round_err (ok done, r) e h = ground arith
in_round_err (err _, r) e h = refl

module _ (sha256 : Str → Str) where
  open_lem :
      (id : ℕ) (seed : Str) (max now : ℕ)
      → open_buy_in now (Round.new sha256 id seed max now)
        ≡ (ok tt, record (Round.new sha256 id seed max now) { phase = buy_in })
  unfolding open_buy_in new
  open_lem id seed max now = ground arith

  -- A round with more bettors than marbles cannot be opened. Any other one has its bettors in queue
  -- order, each on the marble of its place in the queue, then fillers, numbered on, up to exactly the
  -- marbles of the configuration. No player name is empty.
  pub open_round-seats :
      (cfg : ManagerConfig) (spec : RoundSpec) (seed : Str) (now : ℕ) (bettors : List Str)
      → AllNamed bettors
      → open_round sha256 cfg spec seed now bettors ≡ (
          if leb (length bettors) cfg.max_marbles
          then ok (record (Round.new sha256 spec.round_id seed cfg.max_marbles now) {
            phase = buy_in;
            participants = seats 0 (starters cfg bettors);
          })
          else err (reason round_failed))
  unfolding open_round new
  open_round-seats cfg spec seed now bettors named =
      let r = record (Round.new sha256 spec.round_id seed cfg.max_marbles now) { phase = buy_in } in
      let names = starters cfg bettors in
      let named' = starters_lem cfg bettors named in
      let goal =
        if leb (length bettors) cfg.max_marbles
        then ok (record r { participants = seats 0 names })
        else err (reason round_failed) in
      subst
        (λ p.
          elim p.0 [ err e ↦ err (reason round_failed) | ok done ↦ in_round (seat_all names p.1) ]
          ≡ goal)
        (sym (open_lem spec.round_id seed cfg.max_marbles now))
        (elim (Bool-cases (leb (length bettors) cfg.max_marbles)) [
          | inl fits ↦
              rw fits
                (ap in_round (seat_all_lem names r refl named'.0 (ground (arith, named'.1, fits))))
          | inr full ↦ rw full (
              in_round_err (seat_all names r) round_full (
                seat_all_full names r refl named'.0 (omega arith) (ground (arith, named'.1, full))))
        ])
