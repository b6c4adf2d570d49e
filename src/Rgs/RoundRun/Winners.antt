-- ===== src/Rgs/RoundRun/Winners.antt =====
-- Whom a successful `RunNextRound` of server/rgs/manager.go pays a prize.
use marbles_game.Prelude.{
  Bool-cases, List, Option-cases, Result-cases, Str, [], ap, arith, eqb_ℤ, eqb_ℤ_iff, false, inl,
  inr, length, map, ok, pos, refl, replicate, subst, sum, sym, ℕ, ℤ, ◌+◌, ◌<◌, ◌∙◌, ◌∷◌, ◌≡◌, ◌≤◌,
}
use marbles_game.Rtp
use marbles_game.Rgs.Session.{SettlementOutcome}
use marbles_game.Rgs.Manager.{ManagerConfig, PendingRound, RoundSpec, World}
use marbles_game.Rgs.RoundRun.{Inputs, RoundBetOutcome, make_manifest, open_round, to_seed}
use marbles_game.Rgs.RoundRun.Stages.{
  assign_all, from_rtp, pending_sessions, persist, settle_all, settle_round_bets, take_round,
}
use marbles_game.Rgs.RoundRun.Whole.{Raced, pay_out, race, race_with, run_next_round, run_race}
use marbles_game.Rgs.RoundRun.Stakes.{
  assign_all_stake, map_same, reported, settle_all_stakes, stake_of,
}
use marbles_game.Rgs.RoundRun.Marbles.{Assigned, Decided, Distinct, assign_all_lem, settle_all_lem}
use marbles_game.Round.{Round}
use marbles_game.Std.Hex.{hex_decode}
use marbles_game.Rgs.Wallet.{Wallet}
use marbles_game.Rgs.Money.{Floats}
use marbles_game.Rgs.RoundRun.Overfull.{take_lem}
use marbles_game.Replay.{stamp}
use marbles_game.Replay.FileSystem.{Manifest}
use marbles_game.Rgs.RoundRun.StageResults.{pay_out_lem}

abbrev pub prizes : List SettlementOutcome → List ℕ
prizes = map (λ o. o.prize_amount)

-- Past the winner's marble nobody is paid.
no_prize :
    (winner : ℤ) (prize i : ℕ) (os : List SettlementOutcome)
    → ((n : ℕ) → winner ≡ pos n → n < i)
    → Decided winner prize i os
    → sum (prizes os) ≡ 0
no_prize winner prize i [] past d = refl
no_prize winner prize i (o ∷ os) past d =
    let lost : eqb_ℤ (pos i) winner ≡ false = ground (arith, eqb_ℤ_iff (pos i) winner, past i) in
    let later = no_prize winner prize (i + 1) os (λ n e. omega (arith, past n e)) d.3 in
    ground (arith, lost, later, d.1)

pub one_prize :
    (winner : ℤ) (prize i : ℕ) (os : List SettlementOutcome)
    → Decided winner prize i os
    → sum (prizes os) ≤ prize
one_prize winner prize i [] d = omega arith
one_prize winner prize i (o ∷ os) d = elim (Bool-cases (eqb_ℤ (pos i) winner)) [
  | inr lost ↦ ground (arith, lost, d.1, one_prize winner prize (i + 1) os d.3)
  | inl won ↦
      let later =
        no_prize winner prize (i + 1) os (λ n e. ground (arith, won, e, eqb_ℤ_iff (pos i) winner))
          d.3 in
      ground (arith, won, d.1, later)
]

race_prize :
    (cfg : ManagerConfig) (spec : RoundSpec) (seed : Str) (inp : Inputs) (r : Round) (raced : Raced)
    → race cfg spec seed inp r ≡ ok raced
    → from_rtp (
        Rtp.settle
          (record { rtp_basis_points = cfg.rtp_bps })
          (replicate cfg.max_marbles cfg.buy_in)
          raced.res.winner_marble_index)
      ≡ ok raced.prize
unfolding race
race_prize cfg spec seed inp r raced h = ground arith

module _ (fl : Floats) (wal : Wallet) (sha256 : Str → Str) where
  open fl use {Float}

  pub race_with_marbles :
      (inp : Inputs) (ids : List Str) (pr : PendingRound Float) (w : World wal.State Float)
      (ids' : List Str) (pr' : PendingRound Float) (raced : Raced)
      → Distinct ids
      → (race_with fl wal sha256 inp (ids, pr) w).0 ≡ ok (ids', pr', raced)
      → (ids' ≡ ids)
        × Assigned 0 ids (race_with fl wal sha256 inp (ids, pr) w).1.manager.sessions
        × (from_rtp (
              Rtp.settle
                (record { rtp_basis_points = w.manager.cfg.rtp_bps })
                (replicate w.manager.cfg.max_marbles w.manager.cfg.buy_in)
                raced.res.winner_marble_index)
            ≡ ok raced.prize)
        × ((j : Str)
            → stake_of (race_with fl wal sha256 inp (ids, pr) w).1.manager.sessions j
              ≡ stake_of w.manager.sessions j)
  unfolding race_with
  race_with_marbles inp ids pr w ids' pr' raced distinct h =
      let cfg = w.manager.cfg in
      let names = map (λ s. s.player_id) (pending_sessions ids w.manager.sessions) in
      elim (Option-cases (hex_decode pr.spec.server_seed_hex)) [
        | inl bad ↦ ground (arith, bad)
        | inr (raw, good) ↦
            let seed = to_seed 32 raw in
            elim (Result-cases (open_round sha256 cfg pr.spec seed inp.now names)) [
              | inr (e, bad) ↦ ground (arith, good, bad)
              | inl (r, seated) ↦ elim (Result-cases (assign_all fl wal inp.now 0 ids w).0) [
                | inr (e, bad) ↦ ground (arith, good, seated, bad)
                | inl (_, given) ↦ elim (Result-cases (race cfg pr.spec seed inp r)) [
                  | inr (e, bad) ↦ ground (arith, good, seated, given, bad)
                  | inl (raced', done) ↦
                      let same : (ids' ≡ ids) × (raced ≡ raced') =
                        ground (arith, good, seated, given, done) in
                      let end : (race_with fl wal sha256 inp (ids, pr) w).1
                          ≡ (assign_all fl wal inp.now 0 ids w).1 =
                        ground (arith, good, seated, given, done) in
                      (
                        same.0,
                        subst (λ (x : World wal.State Float). Assigned 0 ids x.manager.sessions)
                            (sym end) (assign_all_lem fl wal inp.now 0 ids w distinct given),
                        ground (arith, same.1, race_prize cfg pr.spec seed inp r raced' done),
                        λ j.
                            ap (λ (x : World wal.State Float). stake_of x.manager.sessions j) end
                            ∙ assign_all_stake fl wal inp.now 0 ids j w,
                      )
                ]
              ]
            ]
      ]

  pay_out_settled :
      (inp : Inputs) (ids : List Str) (pr : PendingRound Float) (raced : Raced)
      (w : World wal.State Float) (saved : Manifest) (outcomes : List SettlementOutcome)
      (bos : List (RoundBetOutcome Float))
      → (pay_out fl wal sha256 inp ids pr raced w).0 ≡ ok (saved, outcomes, bos)
      → (settle_all fl wal raced.res.winner_marble_index raced.prize inp.settled_at ids w).0
        ≡ ok outcomes
  unfolding pay_out
  pay_out_settled inp ids pr raced w saved outcomes bos h =
      let winner = raced.res.winner_marble_index in
      let all = settle_all fl wal winner raced.prize inp.settled_at ids w in
      let made = make_manifest pr.spec raced.round raced.revealed raced.res in
      let stored = persist fl wal sha256 inp raced.res.replay_path made all.1 in
      elim (Result-cases all.0) [
        | inr (e, bad) ↦ ground (arith, bad)
        | inl (os, done) ↦ elim (Result-cases stored.0) [
          | inr (e, bad) ↦ ground (arith, done, bad)
          | inl (m, kept) ↦
              elim (Result-cases (settle_round_bets fl wal winner pr.bets stored.1).0) [
                | inr (e, bad) ↦ ground (arith, done, kept, bad)
                | inl (bs, paid) ↦ ground (arith, done, kept, paid)
              ]
        ]
      ]

  -- A successful `RunNextRound` reports one outcome for each queued session, in order, with the id, the
  -- player and the stake of the bet that the session held before the round: the one on the winning marble has the prize that `rtp.Settle` computes for the buy-in and the marbles of the
  -- configuration, all others have nothing, and together they get at most that prize. The queue names
  -- no session twice.
  pub run_next_round_winner :
      (inp : Inputs) (w : World wal.State Float) (saved : Manifest)
      (outcomes : List SettlementOutcome) (bos : List (RoundBetOutcome Float))
      → Distinct w.manager.pending
      → (run_next_round fl wal sha256 inp w).0 ≡ ok (saved, outcomes, bos)
      → let winner = saved.winner.marble_index in
        let cfg = w.manager.cfg in
        (prize : ℕ) × (from_rtp (
            Rtp.settle
              (record { rtp_basis_points = cfg.rtp_bps })
              (replicate cfg.max_marbles cfg.buy_in)
              winner)
          ≡ ok prize)
        × Decided winner prize 0 outcomes
        × (map reported outcomes ≡ map (stake_of w.manager.sessions) w.manager.pending)
        × (length outcomes ≡ length w.manager.pending)
        × (sum (prizes outcomes) ≤ prize)
  unfolding run_next_round run_race stamp make_manifest
  run_next_round_winner inp w saved outcomes bos distinct h =
      let t = take_round fl wal inp w in
      let took = take_lem fl wal sha256 inp w in
      elim (Result-cases t.0) [
        | inr (e, bad) ↦ ground (arith, bad)
        | inl ((ids, pr), taken) ↦
            let ran = race_with fl wal sha256 inp (ids, pr) t.1 in
            elim (Result-cases ran.0) [
              | inr (e, bad) ↦ ground (arith, taken, bad)
              | inl ((ids', pr', raced), done) ↦
                  let mine = took.2 ids pr taken in
                  let marbles =
                    race_with_marbles inp ids pr t.1 ids' pr' raced
                      (subst Distinct (sym mine) distinct) done in
                  let ended : (pay_out fl wal sha256 inp ids' pr' raced ran.1).0
                      ≡ ok (saved, outcomes, bos) =
                    ground (arith, taken, done, h) in
                  let paid =
                    pay_out_lem fl wal sha256 inp ids' pr' raced ran.1 saved outcomes bos ended in
                  let winner = raced.res.winner_marble_index in
                  let named : saved.winner.marble_index ≡ winner =
                    ap (λ m. m.winner.marble_index) paid.0.2 in
                  let done_all : (settle_all fl wal winner raced.prize inp.settled_at ids ran.1).0
                      ≡ ok outcomes =
                    rw marbles.0 at
                      (pay_out_settled inp ids' pr' raced ran.1 saved outcomes bos ended) in
                  let (decided, all) =
                    settle_all_lem fl wal winner raced.prize inp.settled_at 0 ids ran.1 marbles.1
                      (subst Distinct (sym mine) distinct) outcomes done_all in
                  (
                    raced.prize,
                    rw (named, sym took.1) marbles.2,
                    rw named decided,
                    settle_all_stakes fl wal winner raced.prize inp.settled_at ids ran.1 outcomes
                          (subst Distinct (sym mine) distinct) done_all
                        ∙ map_same (stake_of ran.1.manager.sessions) (stake_of t.1.manager.sessions)
                            ids marbles.3
                        ∙ ap (λ m. map (stake_of m) ids) took.0.0
                        ∙ ap (map (stake_of w.manager.sessions)) mine,
                    all ∙ ap length mine,
                    one_prize winner raced.prize 0 outcomes decided,
                  )
            ]
      ]
