-- ===== src/Rgs/RoundRun/Whole.antt =====
-- `RunNextRound` of server/rgs/manager.go: the stages in their order.
use marbles_game.Prelude.{
  List, Result, Str, err, gets, lift, map, modify, ok, pos, pure, replicate, ℕ, ◌>>=◌, ◌>>◌,
}
use marbles_game.Std.Hex.{hex_decode}
use marbles_game.Round
use marbles_game.Round.{Round}
use marbles_game.Rtp
use marbles_game.Sim
use marbles_game.Replay.FileSystem.{Manifest}
use marbles_game.Rgs.Errors.{Error, bad_seed, reason}
use marbles_game.Rgs.Session.{SettlementOutcome}
use marbles_game.Rgs.Wallet.{Wallet}
use marbles_game.Rgs.Money.{Floats}
use marbles_game.Rgs.Manager.{ManagerConfig, PendingRound, RoundSpec}
use marbles_game.Rgs.RoundRun.{
  Inputs, RoundBetOutcome, close_round, in_round, make_manifest, open_round, or_throw, sim_request,
  to_seed,
}
use marbles_game.Rgs.RoundRun.Stages.{
  Act, assign_all, from_rtp, from_sim, pending_sessions, persist, settle_all, settle_round_bets,
  take_round,
}

-- A round that has been raced: what the later steps use of it.
pub record Raced : Type 0 where
  pub round : Round
  pub revealed : Str
  pub res : Sim.SimResult
  pub prize : ℕ

-- Steps 5 and 6 on the started round: the simulator, the finish and the prize.
unfoldable pub race : ManagerConfig → RoundSpec → Str → Inputs → Round → Result Error Raced
race cfg spec seed inp r = elim (in_round (Round.start_race inp.start r)) [
  | err e ↦ err e
  | ok started ↦ elim (from_sim (inp.sim (sim_request cfg spec seed started))) [
    | err e ↦ err e
    | ok res ↦
        elim (close_round
          (record { winner_index = res.winner_marble_index; finished_at = inp.finish }) inp.finish
          started) [
            | err e ↦ err e
            | ok (closed_round, revealed) ↦
                elim (from_rtp (
                  Rtp.settle (record { rtp_basis_points = cfg.rtp_bps })
                    (replicate cfg.max_marbles cfg.buy_in) res.winner_marble_index)) [
                      | err e ↦ err e
                      | ok prize ↦ ok (record {
                        round = closed_round;
                        revealed = revealed;
                        res = res;
                        prize = prize;
                      })
                    ]
          ]
  ]
]

module _ (fl : Floats) (wal : Wallet) (sha256 : Str → Str) where
  open fl use {Float}

  abbrev pub Report : Type 0
  Report = Manifest × List SettlementOutcome × List (RoundBetOutcome Float)

  -- Steps 2 to 6, on the queue and the pre-minted round that were taken.
  unfoldable pub race_with :
      Inputs → List Str × PendingRound Float → Act fl wal (List Str × PendingRound Float × Raced)
  race_with inp (ids, pr) = do
    raw ← or_throw (hex_decode pr.spec.server_seed_hex) (reason bad_seed)
    let seed = to_seed 32 raw
    cfg ← gets (λ w. w.manager.cfg)
    sessions ← gets (λ w. pending_sessions ids w.manager.sessions)
    r ← lift (open_round sha256 cfg pr.spec seed inp.now (map (λ s. s.player_id) sessions))
    assign_all fl wal inp.now 0 ids
    raced ← lift (race cfg pr.spec seed inp r)
    pure (ids, pr, raced)

  -- Steps 1 to 6.
  unfoldable pub run_race : Inputs → Act fl wal (List Str × PendingRound Float × Raced)
  unfolding race_with
  run_race inp = take_round fl wal inp >>= race_with inp

  -- Steps 7 to 9.
  unfoldable pub pay_out : Inputs → List Str → PendingRound Float → Raced → Act fl wal Report
  pay_out inp ids pr raced = do
    let winner = raced.res.winner_marble_index
    outcomes ← settle_all fl wal winner raced.prize inp.settled_at ids
    let manifest = make_manifest pr.spec raced.round raced.revealed raced.res
    saved ← persist fl wal sha256 inp raced.res.replay_path manifest
    bet_outcomes ← settle_round_bets fl wal winner pr.bets
    modify (λ w. record w { manager = record (w.manager) { prev_track = pos pr.spec.track_id } })
    pure (saved, outcomes, bet_outcomes)

  -- `RunNextRound`
  unfoldable pub run_next_round : Inputs → Act fl wal Report
  unfolding run_race pay_out
  run_next_round inp = run_race inp >>= λ (ids, pr, raced). pay_out inp ids pr raced
