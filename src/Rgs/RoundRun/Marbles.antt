-- ===== src/Rgs/RoundRun/Marbles.antt =====
-- Which sessions a round pays (`RunNextRound` of server/rgs/manager.go, steps 3 and 7).
use marbles_game.Prelude.{
  All, Exec, List, Option-cases, Result, Result-cases, Str, [], ap, arith, eqb_ℤ, false,
  if◌then◌else◌, inl, inr, length, ok, pos, refl, some, str_eq, str_eq_iff, str_eq_inst, subst, suc,
  sym, ℕ, ℤ, ◌+◌, ◌∙◌, ◌∷◌, ◌≡◌,
}
use marbles_game.Prelude.Dict.{Dict, beq_self, insert, lookup, lookup-insert}
use marbles_game.Rgs.Session.{Bet, Session, SettlementOutcome, assign_marble, racing, settle}
use marbles_game.Rgs.Wallet.{Wallet}
use marbles_game.Rgs.Money.{Floats}
use marbles_game.Rgs.Manager.{World, on_session}
use marbles_game.Rgs.RoundRun.Stages.{assign_all, outcome_of, pay, settle_all, settle_one}
use marbles_game.Rgs.Errors.{Error}

-- The queue names no session twice.
abbrev pub Apart : Str → List Str → Type 0
Apart id = All (λ j. str_eq id j ≡ false)

abbrev pub Distinct : List Str → Type 0
Distinct [] = Unit
Distinct (id ∷ ids) = Apart id ids × Distinct ids

-- The sessions of a queue race on the marbles from an index on.
abbrev pub Assigned : ℕ → List Str → Dict Str Session → Type 0
Assigned i [] m = Unit
Assigned i (id ∷ ids) m =
    ((s : Session) × (b : Bet) × (lookup id m ≡ some s)
      × (s.state ≡ racing)
      × (s.bet ≡ some b)
      × (b.marble_index ≡ pos i))
    × Assigned (i + 1) ids m

Assigned-insert :
    (i : ℕ) (id : Str) (s : Session) (ids : List Str) (m : Dict Str Session)
    → Apart id ids
    → Assigned i ids m
    → Assigned i ids (insert id s m)
Assigned-insert i id s [] m apart a = tt
Assigned-insert i id s (j ∷ ids) m apart ((t, b, found, state, bet, marble), later) = (
  (t, b, rw (lookup-insert id j s m, apart.0) found, state, bet, marble),
  Assigned-insert (i + 1) id s ids m apart.1 later,
)

-- The outcomes of sessions on the marbles from an index on: won by the marble's number alone, and
-- with the prize for the winner only.
abbrev pub Decided : ℤ → ℕ → ℕ → List SettlementOutcome → Type 0
Decided winner prize i [] = Unit
Decided winner prize i (o ∷ os) =
    (o.won ≡ eqb_ℤ (pos i) winner)
    × (o.prize_amount ≡ (if eqb_ℤ (pos i) winner then prize else 0))
    × (o.winner_index ≡ winner)
    × Decided winner prize (i + 1) os

module _ (fl : Floats) (wal : Wallet) where
  open fl use {Float}

  pub settle_one_lem :
      (winner : ℤ) (prize now i : ℕ) (id : Str) (ids : List Str) (w : World wal.State Float)
      → Assigned i (id ∷ ids) w.manager.sessions
      → Apart id ids
      → (o : SettlementOutcome) → (settle_one fl wal winner prize now id w).0 ≡ ok o
      → Decided winner prize i (o ∷ [])
        × Assigned (i + 1) ids (settle_one fl wal winner prize now id w).1.manager.sessions
  unfolding settle_one outcome_of pay on_session settle
  settle_one_lem winner prize now i id ids w ((s, b, found, state, bet, marble), later) apart o h =
      let o' = outcome_of b winner prize now in
      let same : o ≡ o' = ground (arith, found, bet) in
      let s' = (settle o' now s).1 in
      let stored : (settle_one fl wal winner prize now id w).1.manager.sessions
          ≡ insert id s' w.manager.sessions =
        ground (arith, found, bet) in
      (
        ground (arith, same, marble),
        subst (Assigned (i + 1) ids) (sym stored)
            (Assigned-insert (i + 1) id s' ids w.manager.sessions apart later),
      )

  pub settle_all_lem :
      (winner : ℤ) (prize now i : ℕ) (ids : List Str) (w : World wal.State Float)
      → Assigned i ids w.manager.sessions
      → Distinct ids
      → (os : List SettlementOutcome) → (settle_all fl wal winner prize now ids w).0 ≡ ok os
      → Decided winner prize i os × (length os ≡ length ids)
  unfolding settle_all
  settle_all_lem winner prize now i [] w a distinct os h = ground arith
  settle_all_lem winner prize now i (id ∷ ids) w a distinct os h =
      let one = settle_one fl wal winner prize now id w in
      let rest = settle_all fl wal winner prize now ids one.1 in
      elim (Result-cases one.0) [
        | inr (e, bad) ↦ ground (arith, bad)
        | inl (o, good) ↦ elim (Result-cases rest.0) [
          | inr (e, bad) ↦ ground (arith, good, bad)
          | inl (os', done) ↦
              let first = settle_one_lem winner prize now i id ids w a distinct.0 o good in
              let later =
                settle_all_lem winner prize now (i + 1) ids one.1 first.1 distinct.1 os' done in
              let same : os ≡ o ∷ os' = ground (arith, good, done) in
              subst (λ x. Decided winner prize i x × (length x ≡ suc (length ids))) (sym same)
                ((first.0.0, first.0.1, first.0.2, later.0), ap suc later.1)
        ]
      ]

  on_session_frame {ℓ} :
      {A : Type ℓ} (id j : Str) (call : Exec Error Session A) (w : World wal.State Float)
      → str_eq j id ≡ false
      → lookup j (on_session id call w).1.manager.sessions ≡ lookup j w.manager.sessions
  unfolding on_session
  on_session_frame id j call w other = elim (Option-cases (lookup id w.manager.sessions)) [
    | inl missing ↦ rw (on_session, missing) refl
    | inr (s, found) ↦
        let apart : str_eq id j ≡ false = ground (arith, str_eq_iff j id, str_eq_iff id j, other) in
        rw (on_session, found) (rw apart at (lookup-insert id j (call s).1 w.manager.sessions))
  ]

  assign_all_frame :
      (now i : ℕ) (ids : List Str) (j : Str) (w : World wal.State Float)
      → Apart j ids
      → lookup j (assign_all fl wal now i ids w).1.manager.sessions ≡ lookup j w.manager.sessions
  unfolding assign_all
  assign_all_frame now i [] j w apart = refl
  assign_all_frame now i (id ∷ ids) j w apart =
      let on : Result Error (Unit {0}) × World wal.State Float =
        on_session id (assign_marble i now) w in
      let first = on_session_frame id j (assign_marble i now) w apart.0 in
      let later = assign_all_frame now (i + 1) ids j on.1 apart.1 in ground (arith, first, later)

  pub assign_all_lem :
      (now i : ℕ) (ids : List Str) (w : World wal.State Float)
      → Distinct ids
      → (assign_all fl wal now i ids w).0 ≡ ok tt
      → Assigned i ids (assign_all fl wal now i ids w).1.manager.sessions
  unfolding assign_all on_session assign_marble
  assign_all_lem now i [] w distinct h = tt
  assign_all_lem now i (id ∷ ids) w distinct h =
      let on : Result Error (Unit {0}) × World wal.State Float =
        on_session id (assign_marble i now) w in
      let all = assign_all fl wal now i (id ∷ ids) w in
      let end = (assign_all fl wal now (i + 1) ids on.1).1 in
      elim (Option-cases (lookup id w.manager.sessions)) [
        | inl missing ↦ ground (arith, missing)
        | inr (s, found) ↦ elim (Option-cases s.bet) [
          | inl no_stake ↦ ground (arith, found, no_stake)
          | inr (b, has) ↦
              let s' = (assign_marble i now s).1 in
              let good : (assign_marble i now s).0 ≡ ok tt = ground (arith, found, has) in
              let more : (assign_all fl wal now (i + 1) ids on.1).0 ≡ ok tt =
                ground (arith, found, has) in
              let stored : on.1.manager.sessions ≡ insert id s' w.manager.sessions =
                ground (arith, found, has) in
              let kept : lookup id end.manager.sessions ≡ some s' =
                assign_all_frame now (i + 1) ids id on.1 distinct.0
                ∙ ap (lookup id) stored
                ∙ rw (beq_self id) at (lookup-insert id id s' w.manager.sessions) in
              let whole : all.1 ≡ end = ground (arith, found, good) in
              subst (λ (x : World wal.State Float). Assigned i (id ∷ ids) x.manager.sessions)
                (sym whole)
                (
                  (
                    s',
                    record b { marble_index = pos i },
                    kept,
                    ground (arith, good, has),
                    ground (arith, good, has),
                    refl,
                  ),
                  assign_all_lem now (i + 1) ids on.1 distinct.1 more,
                )
        ]
      ]
