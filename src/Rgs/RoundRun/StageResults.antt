-- ===== src/Rgs/RoundRun/StageResults.antt =====
-- What the stages of a successful `RunNextRound` hand on (server/rgs/manager.go).
use marbles_game.Prelude.{
  Bool-cases, List, Option-cases, Result-cases, Str, [], ap, arith, inl, inr, is_ok, leb, length,
  map, ok, pos, some, true, ℤ, ◌∙◌, ◌∷◌, ◌≡◌,
}
use marbles_game.Round
use marbles_game.Round.{Round, advance, buy_in, finish_race, new, revealed_seed, start_race}
use marbles_game.Replay
use marbles_game.Replay.{save, save_new, write_round}
use marbles_game.Replay.FileSystem.{Manifest, Root}
use marbles_game.Rgs.Wallet.{Wallet, replay}
use marbles_game.Rgs.Money.{Floats, to_units}
use marbles_game.Rgs.Manager.{ManagerConfig, PendingRound, RoundBet, RoundSpec, World}
use marbles_game.Rgs.RoundRun.{Inputs, RoundBetOutcome, close_round, make_manifest, to_seed}
use marbles_game.Rgs.RoundRun.Stages.{
  credit_id, pay, persist, round_bet_outcome, settle_all, settle_round_bets,
}
use marbles_game.Rgs.RoundRun.Whole.{Raced, pay_out, race, race_with}
use marbles_game.Std.Hex.{hex_decode}
use marbles_game.Rgs.Session.{SettlementOutcome}
use marbles_game.Rgs.RoundRun.Seats.{AllNamed, open_round-seats, seats, starters}
use marbles_game.Rgs.RoundRun.Overfull.{bettors}

-- The race keeps the field and the commitment, and reveals the seed of the round.
pub race_lem :
    (cfg : ManagerConfig) (spec : RoundSpec) (seed : Str) (inp : Inputs) (r : Round) (raced : Raced)
    → race cfg spec seed inp r ≡ ok raced
    → (raced.round.participants ≡ r.participants)
      × (Round.commit_hash raced.round ≡ Round.commit_hash r)
      × (raced.revealed ≡ r.server_seed)
unfolding race start_race finish_race advance revealed_seed close_round
race_lem cfg spec seed inp r raced h = ground arith

module _ (fl : Floats) (wal : Wallet) where
  open fl use {Float}

  pub settle_round_bets_lem :
      (winner : ℤ) (rbs : List (RoundBet Float)) (w : World wal.State Float)
      (os : List (RoundBetOutcome Float))
      → (settle_round_bets fl wal winner rbs w).0 ≡ ok os
      → os ≡ map (λ rb. round_bet_outcome fl rb winner) rbs
  unfolding settle_round_bets
  settle_round_bets_lem winner [] w os h = ground arith
  settle_round_bets_lem winner (rb ∷ rbs) w os h =
      let o = round_bet_outcome fl rb winner in
      let paid = pay fl wal o.won rb.player_id (to_units fl o.payout) (credit_id rb.bet_id) in
      let w1 = (paid w).1 in
      elim (Result-cases (settle_round_bets fl wal winner rbs w1).0) [
        | inr (e, bad) ↦ ground (arith, bad)
        | inl (os', good) ↦ ground (arith, good, settle_round_bets_lem winner rbs w1 os' good)
      ]

  module _ (sha256 : Str → Str) where
    save_lem :
        (inp : Inputs) (replay : Str) (m : Manifest) (root : Root)
        → let r = (Replay.save sha256 inp.faults inp.suffix inp.stored_at m replay root).0 in
          (is_ok r ≡ true → r ≡ ok (Replay.stamp sha256 inp.stored_at replay m))
    unfolding save save_new write_round
    save_lem inp replay m root h = ground arith

    pub persist_lem :
        (inp : Inputs) (path : Str) (m saved : Manifest) (w : World wal.State Float)
        → (persist fl wal sha256 inp path m w).0 ≡ ok saved
        → (replay : Str) × (inp.files path ≡ some replay)
          × (saved ≡ Replay.stamp sha256 inp.stored_at replay m)
    unfolding persist
    persist_lem inp path m saved w h = elim (Option-cases (inp.files path)) [
      | inl missing ↦ ground (arith, missing)
      | inr (replay, found) ↦ (replay, found, ground (arith, found, save_lem inp replay m w.store))
    ]

    pub pay_out_lem :
        (inp : Inputs) (ids : List Str) (pr : PendingRound Float) (raced : Raced)
        (w : World wal.State Float) (saved : Manifest) (outcomes : List SettlementOutcome)
        (bos : List (RoundBetOutcome Float))
        → (pay_out fl wal sha256 inp ids pr raced w).0 ≡ ok (saved, outcomes, bos)
        → let winner = raced.res.winner_marble_index in
          let made = make_manifest pr.spec raced.round raced.revealed raced.res in
          ((replay : Str) × (inp.files raced.res.replay_path ≡ some replay)
            × (saved ≡ Replay.stamp sha256 inp.stored_at replay made))
          × (bos ≡ map (λ rb. round_bet_outcome fl rb winner) pr.bets)
          × ((pay_out fl wal sha256 inp ids pr raced w).1.manager.prev_track ≡ pos pr.spec.track_id)
    unfolding pay_out
    pay_out_lem inp ids pr raced w saved outcomes bos h =
        let winner = raced.res.winner_marble_index in
        let made = make_manifest pr.spec raced.round raced.revealed raced.res in
        let w1 = (settle_all fl wal winner raced.prize inp.settled_at ids w).1 in
        let stored = persist fl wal sha256 inp raced.res.replay_path made w1 in
        let bets = settle_round_bets fl wal winner pr.bets stored.1 in
        elim (Result-cases (settle_all fl wal winner raced.prize inp.settled_at ids w).0) [
          | inr (e, bad) ↦ ground (arith, bad)
          | inl (os, done) ↦ elim (Result-cases stored.0) [
            | inr (e, bad) ↦ ground (arith, done, bad)
            | inl (m, kept) ↦ elim (Result-cases bets.0) [
              | inr (e, bad) ↦ ground (arith, done, kept, bad)
              | inl (bs, paid) ↦
                  let same : (saved ≡ m) × (bos ≡ bs) = ground (arith, done, kept, paid) in
                  let (replay, found, is_stamped) =
                    persist_lem inp raced.res.replay_path made m w1 kept in
                  (
                    (replay, found, same.0 ∙ is_stamped),
                    same.1 ∙ settle_round_bets_lem winner pr.bets stored.1 bs paid,
                    ground (arith, done, kept, paid),
                  )
            ]
          ]
        ]

    pub race_with_lem :
        (inp : Inputs) (ids : List Str) (pr : PendingRound Float) (w : World wal.State Float)
        (ids' : List Str) (pr' : PendingRound Float) (raced : Raced)
        → AllNamed (bettors ids w.manager.sessions)
        → (race_with fl wal sha256 inp (ids, pr) w).0 ≡ ok (ids', pr', raced)
        → (pr' ≡ pr)
          × ((raw : Str) × (hex_decode pr.spec.server_seed_hex ≡ some raw)
              × (raced.round.participants
                  ≡ seats 0 (starters w.manager.cfg (bettors ids w.manager.sessions)))
              × (Round.commit_hash raced.round ≡ sha256 (to_seed 32 raw))
              × (raced.revealed ≡ to_seed 32 raw))
    unfolding race_with new
    race_with_lem inp ids pr w ids' pr' raced named h =
        elim (Option-cases (hex_decode pr.spec.server_seed_hex)) [
          | inl bad ↦ ground (arith, bad)
          | inr (raw, good) ↦
              let cfg = w.manager.cfg in
              let names = bettors ids w.manager.sessions in
              let seed = to_seed 32 raw in
              let opened = open_round-seats sha256 cfg pr.spec seed inp.now names named in
              let r = record (Round.new sha256 pr.spec.round_id seed cfg.max_marbles inp.now) {
                phase = buy_in;
                participants = seats 0 (starters cfg names);
              } in
              elim (Bool-cases (leb (length names) cfg.max_marbles)) [
                | inr full ↦ ground (arith, good, opened, full)
                | inl fits ↦ elim (Result-cases (race cfg pr.spec seed inp r)) [
                  | inr (e, bad) ↦ ground (arith, good, opened, fits, bad)
                  | inl (raced', done) ↦
                      let facts = race_lem cfg pr.spec seed inp r raced' done in
                      let same : (pr' ≡ pr) × (raced ≡ raced') =
                        ground (arith, good, opened, fits, done) in
                      (
                        same.0,
                        (
                          raw,
                          good,
                          ap (λ x. x.round.participants) same.1 ∙ facts.0,
                          ap (λ x. Round.commit_hash x.round) same.1 ∙ facts.1,
                          ap (λ x. x.revealed) same.1 ∙ facts.2,
                        ),
                      )
                ]
              ]
        ]
