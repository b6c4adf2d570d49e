-- ===== src/Rgs/RoundRun/Stages.antt =====
-- The stages of `RunNextRound` (server/rgs/manager.go) that change the world, and the whole.
use marbles_game.Prelude.{
  Bool, Exec, List, Result, Str, [], codes, eqb_ℤ, err, if◌then◌else◌, nat_eq, none, ok, pure, some,
  str_eq_inst, ℕ, ℤ, ◌++◌, ◌+◌, ◌>>=◌, ◌>>◌, ◌∷◌,
}
use marbles_game.Prelude.Dict.{Dict, insert, lookup}
use marbles_game.Std.Hex.{hex_encode}
use marbles_game.Rtp
use marbles_game.Sim
use marbles_game.Replay
use marbles_game.Replay.FileSystem.{Manifest}
use marbles_game.Rgs.Errors.{
  Error, open_replay_failed, reason, settle_failed, sim_failed, store_failed, transient,
  unknown_session, wrap,
}
use marbles_game.Rgs.Session.{Bet, Session, SettlementOutcome, assign_marble, settle}
use marbles_game.Rgs.Wallet.{Wallet, replay}
use marbles_game.Rgs.Money.{Floats, payout_of, to_units}
use marbles_game.Rgs.Manager.{
  PendingRound, RoundBet, RoundSpec, World, on_session, on_wallet, select_track,
}
use marbles_game.Rgs.RoundRun.{Inputs, RoundBetOutcome, or_throw}

-- The sessions behind the queued pointers.
unfoldable pub pending_sessions : List Str → Dict Str Session → List Session
pending_sessions [] m = []
pending_sessions (id ∷ ids) m =
    let rest = pending_sessions ids m in elim (lookup id m) [ none ↦ rest | some s ↦ s ∷ rest ]

abbrev pub credit_id : Str → Str
credit_id bet_id = bet_id ++ codes ":credit"

abbrev pub from_sim : Result Sim.Error Sim.SimResult → Result Error Sim.SimResult
from_sim (ok res) = ok res
from_sim (err e) = err (reason sim_failed)

abbrev pub from_rtp : Result Rtp.Error (ℕ × ℕ) → Result Error ℕ
from_rtp (ok (prize, cut)) = ok prize
from_rtp (err e) = err (reason settle_failed)

abbrev pub rewrap {ℓ} : {A : Type ℓ} → Result Error A → Result Error A
rewrap (ok a) = ok a
rewrap (err e) = err (wrap e)

-- Step 7 for one session whose bet is known; `won` decides whether the wallet is called.
unfoldable pub outcome_of : Bet → ℤ → ℕ → ℕ → SettlementOutcome
outcome_of bet winner prize now =
    let won = eqb_ℤ bet.marble_index winner in
    record {
      bet_id = bet.bet_id;
      player_id = bet.player_id;
      amount = bet.amount;
      won = won;
      prize_amount = if won then prize else 0;
      winner_index = winner;
      credit_tx_id = if won then credit_id bet.bet_id else [];
      settled_at = now;
    }

module _ (fl : Floats) where
  open fl use {Float}

  -- Step 9 for one bet, beside the wallet.
  unfoldable pub round_bet_outcome : RoundBet Float → ℤ → RoundBetOutcome Float
  round_bet_outcome rb winner =
      let won = eqb_ℤ rb.marble_idx winner in
      record {
        bet_id = rb.bet_id;
        player_id = rb.player_id;
        marble_idx = rb.marble_idx;
        amount = rb.amount;
        won = won;
        payout = if won then payout_of fl rb.amount else fl.of_nat 0;
        winner_index = winner;
      }

  module _ (wal : Wallet) where
    abbrev pub Act {ℓ} : Type ℓ → Type ℓ
    Act A = Exec Error (World wal.State Float) A

    -- Step 1: the queue and the oldest pre-minted round are taken, or a round is made up.
    unfoldable pub take_round : Inputs → Act (List Str × PendingRound Float)
    take_round inp w =
        let m = w.manager in
        let ids = m.pending in
        elim m.pending_rounds [
          | pr ∷ prs ↦
              (ok (ids, pr), record w { manager = record m { pending = []; pending_rounds = prs } })
          | [] ↦ elim inp.fresh_seed [
            | none ↦ (err (reason transient), record w { manager = record m { pending = [] } })
            | some raw ↦
                let spec : RoundSpec = record {
                  round_id = inp.fresh_id;
                  server_seed_hex = hex_encode raw;
                  track_id = select_track m.cfg.track_pool inp.fresh_id m.prev_track;
                  client_seeds = [];
                } in
                (
                  ok (ids, record { spec = spec; bets = [] }),
                  record w {
                    manager = record m {
                      pending = [];
                      round_bets = insert inp.fresh_id [] m.round_bets;
                    };
                  },
                )
          ]
        ]

    -- Step 3: the marble of each session is its place in the queue.
    unfoldable pub assign_all : ℕ → ℕ → List Str → Act (Unit {0})
    unfolding on_session assign_marble
    assign_all now i [] w = (ok tt, w)
    assign_all now i (id ∷ ids) w =
        let (r, w') = on_session id (assign_marble i now) w in
        elim r [ err e ↦ (err (wrap e), w') | ok done ↦ assign_all now (i + 1) ids w' ]

    -- The credit of a winning bet.
    unfoldable pub pay : Bool → Str → ℕ → Str → Act (Unit {0})
    pay won player amount tx w =
        if won
        then (let (r, w') = on_wallet wal (wal.credit player amount tx) w in (rewrap r, w'))
        else (ok tt, w)

    -- Step 7 for one session. A session without a bet would be a nil dereference, an error here.
    unfoldable pub settle_one : ℤ → ℕ → ℕ → Str → Act SettlementOutcome
    unfolding outcome_of pay on_session settle
    settle_one winner prize now id = do
      s ← λ w. or_throw (lookup id w.manager.sessions) (reason unknown_session) w
      bet ← or_throw s.bet (reason settle_failed)
      let outcome = outcome_of bet winner prize now
      pay outcome.won s.player_id outcome.prize_amount outcome.credit_tx_id
      λ w. let (r, w') = on_session id (settle outcome now) w in (rewrap r, w')
      pure outcome

    unfoldable pub settle_all : ℤ → ℕ → ℕ → List Str → Act (List SettlementOutcome)
    unfolding settle_one
    settle_all winner prize now [] w = (ok [], w)
    settle_all winner prize now (id ∷ ids) w =
        let (r, w') = settle_one winner prize now id w in
        elim r [
          | err e ↦ (err e, w')
          | ok o ↦
              let (rs, w'') = settle_all winner prize now ids w' in
              elim rs [ err e ↦ (err e, w'') | ok os ↦ (ok (o ∷ os), w'') ]
        ]

    -- Step 9: the bets on the round itself.
    unfoldable pub settle_round_bets :
        ℤ → List (RoundBet Float) → Act (List (RoundBetOutcome Float))
    unfolding round_bet_outcome pay
    settle_round_bets winner [] w = (ok [], w)
    settle_round_bets winner (rb ∷ rbs) w =
        let o = round_bet_outcome rb winner in
        let (r, w') = pay o.won rb.player_id (to_units fl o.payout) (credit_id rb.bet_id) w in
        elim r [
          | err e ↦ (err e, w')
          | ok done ↦
              let (rs, w'') = settle_round_bets winner rbs w' in
              elim rs [ err e ↦ (err e, w'') | ok os ↦ (ok (o ∷ os), w'') ]
        ]

    -- Step 8: the audit entry.
    unfoldable pub persist : (Str → Str) → Inputs → Str → Manifest → Act Manifest
    persist sha256 inp path manifest w = elim (inp.files path) [
      | none ↦ (err (reason open_replay_failed), w)
      | some replay ↦
          let (r, root) =
            Replay.save sha256 inp.faults inp.suffix inp.stored_at manifest replay w.store in
          let w' = record w { store = root } in
          elim r [ err e ↦ (err (reason store_failed), w') | ok m ↦ (ok m, w') ]
    ]
