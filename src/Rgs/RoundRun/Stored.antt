-- ===== src/Rgs/RoundRun/Stored.antt =====
-- What the stages of `RunNextRound` of server/rgs/manager.go do to the replay store.
use marbles_game.Prelude.{
  none, Exec, List, Option-cases, Result-cases, Str, ap, [], arith, inl, inr, is_ok, ok, refl, some,
  str_eq_inst, true, ℕ, ℤ, ◌+◌, ◌<◌, ◌∙◌, u64_mod, ◌∷◌, ◌≡◌,
}
use marbles_game.Prelude.Dict.{lookup}
use marbles_game.Rgs.Errors.{Error}
use marbles_game.Rgs.Session.{Session, assign_marble, settle}
use marbles_game.Rgs.Wallet.{Wallet}
use marbles_game.Rgs.Money.{Floats, to_units}
use marbles_game.Rgs.Manager.{PendingRound, RoundBet, World, on_session}
use marbles_game.Rgs.RoundRun.{Inputs, make_manifest}
use marbles_game.Rgs.RoundRun.Stages.{
  assign_all, credit_id, outcome_of, pay, persist, round_bet_outcome, settle_all, settle_one,
  settle_round_bets,
}
use marbles_game.Rgs.RoundRun.Whole.{Raced, pay_out, race_with}
use marbles_game.Replay
use marbles_game.Replay.{stamp, temp_name}
use marbles_game.Replay.Saving.{save_stores}
use marbles_game.Replay.FileSystem.{Manifest}

module _ (fl : Floats) (wal : Wallet) where
  open fl use {Float}

  on_session_store {ℓ} :
      {A : Type ℓ} (id : Str) (call : Exec Error Session A) (w : World wal.State Float)
      → (on_session id call w).1.store ≡ w.store
  unfolding on_session
  on_session_store id call w = elim (Option-cases (lookup id w.manager.sessions)) [
    | inl missing ↦ rw (on_session, missing) refl
    | inr (s, found) ↦ rw (on_session, found) refl
  ]

  assign_all_store :
      (now i : ℕ) (ids : List Str) (w : World wal.State Float)
      → (assign_all fl wal now i ids w).1.store ≡ w.store
  unfolding assign_all
  assign_all_store now i [] w = refl
  assign_all_store now i (id ∷ ids) w = ground (
    arith,
    on_session_store id (assign_marble i now) w,
    assign_all_store now (i + 1) ids (on_session id (assign_marble i now) w).1,
  )

  settle_one_store :
      (winner : ℤ) (prize now : ℕ) (id : Str) (w : World wal.State Float)
      → (settle_one fl wal winner prize now id w).1.store ≡ w.store
  unfolding settle_one pay
  settle_one_store winner prize now id w = elim (Option-cases (lookup id w.manager.sessions)) [
    | inl missing ↦ rw (settle_one, missing) refl
    | inr (s, found) ↦ elim (Option-cases s.bet) [
      | inl no_stake ↦ rw (settle_one, found, no_stake) refl
      | inr (bet, has) ↦
          let o = outcome_of bet winner prize now in
          let paid = pay fl wal o.won s.player_id o.prize_amount o.credit_tx_id w in
          ground (arith, found, has, on_session_store id (settle o now) paid.1)
    ]
  ]

  pub settle_all_store :
      (winner : ℤ) (prize now : ℕ) (ids : List Str) (w : World wal.State Float)
      → (settle_all fl wal winner prize now ids w).1.store ≡ w.store
  unfolding settle_all
  settle_all_store winner prize now [] w = refl
  settle_all_store winner prize now (id ∷ ids) w = ground (
    arith,
    settle_one_store winner prize now id w,
    settle_all_store winner prize now ids (settle_one fl wal winner prize now id w).1,
  )

  settle_round_bets_store :
      (winner : ℤ) (rbs : List (RoundBet Float)) (w : World wal.State Float)
      → (settle_round_bets fl wal winner rbs w).1.store ≡ w.store
  unfolding settle_round_bets pay
  settle_round_bets_store winner [] w = refl
  settle_round_bets_store winner (rb ∷ rbs) w =
      let o = round_bet_outcome fl rb winner in
      let paid = pay fl wal o.won rb.player_id (to_units fl o.payout) (credit_id rb.bet_id) w in
      ground (arith, settle_round_bets_store winner rbs paid.1)

  module _ (sha256 : Str → Str) where
    pub race_with_store :
        (inp : Inputs) (ids : List Str) (pr : PendingRound Float) (w : World wal.State Float)
        → (race_with fl wal sha256 inp (ids, pr) w).1.store ≡ w.store
    unfolding race_with
    race_with_store inp ids pr w = ground (arith, assign_all_store inp.now 0 ids w)

    persist_store :
        (inp : Inputs) (path : Str) (m : Manifest) (replay : Str) (w : World wal.State Float)
        → inp.files path ≡ some replay
        → (persist fl wal sha256 inp path m w).1.store
          ≡ (Replay.save sha256 inp.faults inp.suffix inp.stored_at m replay w.store).1
    unfolding persist
    persist_store inp path m bytes w found = ground (arith, found)

    -- What the payment of a round that succeeds has stored.
    pub pay_out_store :
        (inp : Inputs) (ids : List Str) (pr : PendingRound Float) (raced : Raced)
        (w : World wal.State Float) (replay : Str)
        → inp.files raced.res.replay_path ≡ some replay
        → is_ok (pay_out fl wal sha256 inp ids pr raced w).0 ≡ true
        → let made = make_manifest pr.spec raced.round raced.revealed raced.res in
          let (r, root) =
            Replay.save sha256 inp.faults inp.suffix inp.stored_at made replay w.store in
          ((pay_out fl wal sha256 inp ids pr raced w).1.store ≡ root) × (is_ok r ≡ true)
    unfolding pay_out persist
    pay_out_store inp ids pr raced w bytes found h =
        let winner = raced.res.winner_marble_index in
        let made = make_manifest pr.spec raced.round raced.revealed raced.res in
        let all = settle_all fl wal winner raced.prize inp.settled_at ids w in
        let kept = settle_all_store winner raced.prize inp.settled_at ids w in
        let stored = persist fl wal sha256 inp raced.res.replay_path made all.1 in
        let same = persist_store inp raced.res.replay_path made bytes all.1 found in
        let later = settle_round_bets_store winner pr.bets stored.1 in
        ground (arith, found, h, kept, same, later)

    -- The audit entry of a round that succeeds can be loaded and verified afterwards.
    pub pay_out_loads :
        (inp : Inputs) (ids : List Str) (pr : PendingRound Float) (raced : Raced)
        (w : World wal.State Float) (replay : Str)
        → inp.files raced.res.replay_path ≡ some replay
        → is_ok (pay_out fl wal sha256 inp ids pr raced w).0 ≡ true
        → lookup (temp_name pr.spec.round_id inp.suffix) w.store ≡ none
        → pr.spec.round_id < u64_mod
        → let made = make_manifest pr.spec raced.round raced.revealed raced.res in
          let after = (pay_out fl wal sha256 inp ids pr raced w).1.store in
          (Replay.load pr.spec.round_id after ≡ ok (stamp sha256 inp.stored_at replay made))
          × (Replay.verify sha256 pr.spec.round_id after ≡ ok tt)
    unfolding make_manifest
    pay_out_loads inp ids pr raced w bytes found h free small =
        let made = make_manifest pr.spec raced.round raced.revealed raced.res in
        let saved = Replay.save sha256 inp.faults inp.suffix inp.stored_at made bytes w.store in
        let (store, good) = pay_out_store inp ids pr raced w bytes found h in
        elim (Result-cases saved.0) [
          | inr (e, bad) ↦ ground (arith, bad, good)
          | inl (m, done) ↦
              let facts =
                save_stores sha256 inp.faults inp.suffix inp.stored_at made bytes w.store free small
                  done in
              (
                ap (Replay.load pr.spec.round_id) store ∙ facts.1,
                ap (Replay.verify sha256 pr.spec.round_id) store ∙ facts.2,
              )
        ]
