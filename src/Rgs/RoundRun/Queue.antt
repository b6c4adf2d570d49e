-- ===== src/Rgs/RoundRun/Queue.antt =====
-- What `RunNextRound` of server/rgs/manager.go does to the queue of bettors and to the queue of
-- pre-minted rounds.
use marbles_game.Prelude.{
  Bool, Exec, List, Option-cases, Result, Str, [], ap, arith, continue, err, false, inl, inr,
  nat_eq, ok, refl, str_eq_inst, true, ℕ, ℤ, ◌+◌, ◌>>=◌, ◌∙◌, ◌∷◌, ◌≡◌,
}
use marbles_game.Rgs.Errors.{Error}
use marbles_game.Rgs.Session.{Session, assign_marble, settle}
use marbles_game.Rgs.Wallet.{Wallet}
use marbles_game.Rgs.Money.{Floats, to_units}
use marbles_game.Rgs.Manager.{ManagerConfig, PendingRound, RoundBet, World, on_session}
use marbles_game.Rgs.RoundRun.{Inputs, make_manifest}
use marbles_game.Rgs.RoundRun.Stages.{
  Act, assign_all, credit_id, outcome_of, pay, persist, round_bet_outcome, settle_all, settle_one,
  settle_round_bets, take_round,
}
use marbles_game.Prelude.Dict.{Dict, lookup}
use marbles_game.Replay.FileSystem.{Manifest}
use marbles_game.Rgs.RoundRun.Whole.{Raced, Report, pay_out, race_with, run_next_round, run_race}

module _ (fl : Floats) (wal : Wallet) where
  open fl use {Float}

  -- What the later stages of a round leave alone.
  abbrev pub Queues : Type 0
  Queues = List Str × List (PendingRound Float) × Dict ℕ (List (RoundBet Float)) × ManagerConfig

  abbrev pub queues : World wal.State Float → Queues
  queues w = (w.manager.pending, w.manager.pending_rounds, w.manager.round_bets, w.manager.cfg)

  abbrev Keeps {ℓ} : {A : Type ℓ} → Act fl wal A → Type 0
  Keeps act = (w : World wal.State Float) → queues (act w).1 ≡ queues w

  continue-Keeps {ℓ κ} :
      {A : Type ℓ} {B : Type κ} (r : Result Error A) (f : A → Act fl wal B)
      (w : World wal.State Float)
      → ((a : A) → Keeps (f a))
      → queues (continue r f w).1 ≡ queues w
  continue-Keeps (ok a) f w keep = keep a w
  continue-Keeps (err e) f w keep = refl

  bind-Keeps {ℓ κ} :
      {A : Type ℓ} {B : Type κ} (m : Act fl wal A) (f : A → Act fl wal B)
      → Keeps m
      → ((a : A) → Keeps (f a))
      → Keeps (m >>= f)
  bind-Keeps m f first later w = continue-Keeps (m w).0 f (m w).1 later ∙ first w

  on_session-Keeps {ℓ} :
      {A : Type ℓ} (id : Str) (call : Exec Error Session A) → Keeps (on_session id call)
  unfolding on_session
  on_session-Keeps id call w = elim (Option-cases (lookup id w.manager.sessions)) [
    | inl missing ↦ rw (on_session, missing) refl
    | inr (s, found) ↦ rw (on_session, found) refl
  ]

  pay-Keeps :
      (won : Bool) (player : Str) (amount : ℕ) (tx : Str) → Keeps (pay fl wal won player amount tx)
  unfolding pay
  pay-Keeps true player amount tx w = refl
  pay-Keeps false player amount tx w = refl

  persist-Keeps :
      (sha256 : Str → Str) (inp : Inputs) (path : Str) (m : Manifest)
      → Keeps (persist fl wal sha256 inp path m)
  unfolding persist
  persist-Keeps sha256 inp path m w = ground arith

  assign_all-Keeps : (now i : ℕ) (ids : List Str) → Keeps (assign_all fl wal now i ids)
  unfolding assign_all
  assign_all-Keeps now i [] w = refl
  assign_all-Keeps now i (id ∷ ids) w = ground (
    arith,
    on_session-Keeps id (assign_marble i now) w,
    assign_all-Keeps now (i + 1) ids (on_session id (assign_marble i now) w).1,
  )

  settle_one-Keeps :
      (winner : ℤ) (prize now : ℕ) (id : Str) → Keeps (settle_one fl wal winner prize now id)
  unfolding settle_one
  settle_one-Keeps winner prize now id w = elim (Option-cases (lookup id w.manager.sessions)) [
    | inl missing ↦ rw (settle_one, missing) refl
    | inr (s, found) ↦ elim (Option-cases s.bet) [
      | inl no_stake ↦ rw (settle_one, found, no_stake) refl
      | inr (bet, has) ↦
          let o = outcome_of bet winner prize now in
          let paid = pay fl wal o.won s.player_id o.prize_amount o.credit_tx_id w in
          ground (
            arith,
            found,
            has,
            pay-Keeps o.won s.player_id o.prize_amount o.credit_tx_id w,
            on_session-Keeps id (settle o now) paid.1,
          )
    ]
  ]

  settle_all-Keeps :
      (winner : ℤ) (prize now : ℕ) (ids : List Str) → Keeps (settle_all fl wal winner prize now ids)
  unfolding settle_all
  settle_all-Keeps winner prize now [] w = refl
  settle_all-Keeps winner prize now (id ∷ ids) w = ground (
    arith,
    settle_one-Keeps winner prize now id w,
    settle_all-Keeps winner prize now ids (settle_one fl wal winner prize now id w).1,
  )

  settle_round_bets-Keeps :
      (winner : ℤ) (rbs : List (RoundBet Float)) → Keeps (settle_round_bets fl wal winner rbs)
  unfolding settle_round_bets
  settle_round_bets-Keeps winner [] w = refl
  settle_round_bets-Keeps winner (rb ∷ rbs) w =
      let o = round_bet_outcome fl rb winner in
      let paid = pay fl wal o.won rb.player_id (to_units fl o.payout) (credit_id rb.bet_id) in
      ground (
        arith,
        pay-Keeps o.won rb.player_id (to_units fl o.payout) (credit_id rb.bet_id) w,
        settle_round_bets-Keeps winner rbs (paid w).1,
      )

  take_round_lem :
      (inp : Inputs) (w : World wal.State Float)
      → let m = (take_round fl wal inp w).1.manager in
        (m.pending ≡ [])
        × (m.pending_rounds ≡ elim w.manager.pending_rounds [ [] ↦ [] | pr ∷ prs ↦ prs ])
        × (m.cfg ≡ w.manager.cfg)
  unfolding take_round
  take_round_lem inp w = ground arith

  module _ (sha256 : Str → Str) where
    pay_out-Keeps :
        (inp : Inputs) (ids : List Str) (pr : PendingRound Float) (raced : Raced)
        → Keeps (pay_out fl wal sha256 inp ids pr raced)
    unfolding pay_out
    pay_out-Keeps inp ids pr raced w =
        let winner = raced.res.winner_marble_index in
        let w1 = (settle_all fl wal winner raced.prize inp.settled_at ids w).1 in
        let manifest = make_manifest pr.spec raced.round raced.revealed raced.res in
        let w2 = (persist fl wal sha256 inp raced.res.replay_path manifest w1).1 in
        ground (
          arith,
          settle_all-Keeps winner raced.prize inp.settled_at ids w,
          persist-Keeps sha256 inp raced.res.replay_path manifest w1,
          settle_round_bets-Keeps winner pr.bets w2,
        )

    race_with-Keeps :
        (inp : Inputs) (taken : List Str × PendingRound Float)
        → Keeps (race_with fl wal sha256 inp taken)
    unfolding race_with
    race_with-Keeps inp (ids, pr) w = ground (arith, assign_all-Keeps inp.now 0 ids w)

    -- Whether a round succeeds or fails, and wherever it fails, `RunNextRound` has taken the whole
    -- queue of bettors and the oldest pre-minted round if there is one, and no other round.
    pub run_next_round_consumes :
        (inp : Inputs) (w : World wal.State Float)
        → let m = (run_next_round fl wal sha256 inp w).1.manager in
          (m.pending ≡ [])
          × (m.pending_rounds ≡ elim w.manager.pending_rounds [ [] ↦ [] | pr ∷ prs ↦ prs ])
          × (m.cfg ≡ w.manager.cfg)
    unfolding run_next_round
    run_next_round_consumes inp w =
        let w1 = (take_round fl wal inp w).1 in
        let w2 = (run_race fl wal sha256 inp w).1 in
        let raced : queues w2 ≡ queues w1 =
          unfold run_race in
          continue-Keeps (take_round fl wal inp w).0 (race_with fl wal sha256 inp) w1
            (race_with-Keeps inp) in
        let pays : List Str × PendingRound Float × Raced → Act fl wal (Report fl wal sha256) =
          λ (ids, pr, raced). pay_out fl wal sha256 inp ids pr raced in
        let paid =
          continue-Keeps (run_race fl wal sha256 inp w).0 pays w2
            (λ (ids, pr, raced). pay_out-Keeps inp ids pr raced) in
        let same = paid ∙ raced in
        let took = take_round_lem inp w in
        (ap (λ q. q.0) same ∙ took.0, ap (λ q. q.1) same ∙ took.1, ap (λ q. q.3) same ∙ took.2)
