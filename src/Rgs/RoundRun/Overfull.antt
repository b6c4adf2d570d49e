-- ===== src/Rgs/RoundRun/Overfull.antt =====
-- `RunNextRound` of server/rgs/manager.go with more queued sessions than marbles.
use marbles_game.Prelude.{
  List, Option-cases, Result-cases, Str, [], arith, err, false, inl, inr, is_ok, leb, length, map,
  ok, refl, str_eq_inst, subst, sym, ◌<◌, ◌≡◌,
}
use marbles_game.Prelude.Dict.{Dict}
use marbles_game.Std.Hex.{hex_decode}
use marbles_game.Rgs.Errors.{Error, bad_seed, reason, round_failed}
use marbles_game.Rgs.Session.{Session}
use marbles_game.Rgs.Wallet.{Wallet}
use marbles_game.Rgs.Money.{Floats}
use marbles_game.Rgs.Manager.{PendingRound, World}
use marbles_game.Rgs.RoundRun.{Inputs, to_seed}
use marbles_game.Rgs.RoundRun.Seats.{AllNamed, open_round-seats}
use marbles_game.Rgs.RoundRun.Stages.{pending_sessions, take_round}
use marbles_game.Rgs.RoundRun.Whole.{race_with, run_next_round, run_race}
use marbles_game.Rgs.RoundRun.Queue.{run_next_round_consumes}

-- The players behind a queue.
abbrev pub bettors : List Str → Dict Str Session → List Str
bettors ids sessions = map (λ s. s.player_id) (pending_sessions ids sessions)

module _ (fl : Floats) (wal : Wallet) (sha256 : Str → Str) where
  open fl use {Float}

  overfull_race :
      (inp : Inputs) (ids : List Str) (pr : PendingRound Float) (w : World wal.State Float)
      → AllNamed (bettors ids w.manager.sessions)
      → w.manager.cfg.max_marbles < length (bettors ids w.manager.sessions)
      → (e : Error) × (race_with fl wal sha256 inp (ids, pr) w ≡ (err e, w))
  unfolding race_with
  overfull_race inp ids pr w named full =
      let names = bettors ids w.manager.sessions in
      let shut : leb (length names) w.manager.cfg.max_marbles ≡ false = ground arith in
      let seed = λ (raw : Str). to_seed 32 raw in
      elim (Option-cases (hex_decode pr.spec.server_seed_hex)) [
        | inl bad ↦ (reason bad_seed, rw (race_with, bad) refl)
        | inr (raw, good) ↦
            let opened =
              open_round-seats sha256 w.manager.cfg pr.spec (to_seed 32 raw) inp.now names named in
            (reason round_failed, rw (race_with, good, opened, shut) refl)
      ]

  -- What a failed round has left as it was.
  abbrev pub LeftAlone : World wal.State Float → World wal.State Float → Type 0
  LeftAlone w w' =
      (w'.manager.sessions ≡ w.manager.sessions) × (w'.wallet ≡ w.wallet) × (w'.store ≡ w.store)

  pub take_lem :
      (inp : Inputs) (w : World wal.State Float)
      → let (r, w') = take_round fl wal inp w in
        LeftAlone w w'
        × (w'.manager.cfg ≡ w.manager.cfg)
        × ((ids : List Str) (pr : PendingRound Float) → r ≡ ok (ids, pr) → ids ≡ w.manager.pending)
  unfolding take_round
  take_lem inp w = (ground arith, ground arith, λ ids pr h. ground arith)

  -- With more bettors in the queue than marbles in a round, `RunNextRound` fails and every bettor of
  -- the queue is lost: the queue is empty afterwards, while each session and each balance is as it
  -- was, so the stakes stay debited, and nothing was stored. No bettor's player name is empty.
  pub overfull_round_loses :
      (inp : Inputs) (w : World wal.State Float)
      → AllNamed (bettors w.manager.pending w.manager.sessions)
      → w.manager.cfg.max_marbles < length (bettors w.manager.pending w.manager.sessions)
      → let (r, w') = run_next_round fl wal sha256 inp w in
        (is_ok r ≡ false) × LeftAlone w w' × (w'.manager.pending ≡ [])
  unfolding run_next_round run_race
  overfull_round_loses inp w named full =
      let w1 = (take_round fl wal inp w).1 in
      let took = take_lem inp w in
      let empty = (run_next_round_consumes fl wal sha256 inp w).0 in
      elim (Result-cases (take_round fl wal inp w).0) [
        | inr (e, bad) ↦ (rw bad refl, rw bad took.0, empty)
        | inl ((ids, pr), good) ↦
            let same : bettors ids w1.manager.sessions
                ≡ bettors w.manager.pending w.manager.sessions =
              rw (took.2 ids pr good, took.0.0) refl in
            let (e, lost) =
              overfull_race inp ids pr w1 (subst AllNamed (sym same) named)
                (rw (same, took.1) full) in
            (rw (good, lost) refl, rw (good, lost) took.0, empty)
      ]
