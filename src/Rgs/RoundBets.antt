-- ===== src/Rgs/RoundBets.antt =====
-- server/rgs/manager.go: pre-minted rounds and the bets on them (`GenerateRoundSpec`,
-- `PlaceBetOnRound`, `BetsForRound`, `findPendingRound`). `PlaceBetOnRound` takes the lock three
-- times, and is a sequence of steps between which other calls can run.
pub mod Minting
pub mod Placing
pub mod Tests
use marbles_game.Prelude.{
  Exec, List, Option, Result, Str, [], err, if◌then◌else◌, is_empty, is_some, leb_ℤ, ltb_ℤ, nat_eq,
  none, not, ok, pos, replicate, some, str_eq, suc, zero, ℕ, ℤ, ◌++◌, ◌==◌, ◌||◌, ◌∷◌,
}
use marbles_game.Prelude.Dict.{Dict, insert, lookup}
use marbles_game.Std.Hex.{hex_encode}
use marbles_game.Rgs.Errors.{
  Error, invalid_bet_amount, invalid_marble_idx, reason, round_already_run, sentinel, transient,
  unknown_round, wrap,
}
use marbles_game.Rgs.Wallet.{Wallet}
use marbles_game.Rgs.Money.{Floats, of_units, to_units}
use marbles_game.Rgs.Manager.{
  Manager, PendingRound, RoundBet, RoundSpec, World, on_wallet, refund_id, select_track,
}

module _ {F : Type 0} where
  -- `findPendingRound`
  unfoldable pub find_pending_round : ℕ → List (PendingRound F) → Option (PendingRound F)
  find_pending_round id [] = none
  find_pending_round id (pr ∷ prs) =
      let rest = find_pending_round id prs in if pr.spec.round_id == id then some pr else rest

  -- The pointer that `findPendingRound` returns: where the round stands in the queue.
  unfoldable pub place_of : ℕ → List (PendingRound F) → Option ℕ
  place_of id [] = none
  place_of id (pr ∷ prs) =
      let rest = elim (place_of id prs) as (λ _. Option ℕ) [
        | none ↦ none
        | some p ↦ some (suc p)
      ] in
      if pr.spec.round_id == id then some 0 else rest

  -- `pr.bets = append(pr.bets, bet)` through a pointer: the place where its round stands now, `none` if
  -- the round was taken from the queue, where nothing reads it any more.
  unfoldable pub append_bet : Option ℕ → RoundBet F → List (PendingRound F) → List (PendingRound F)
  append_bet none b prs = prs
  append_bet (some p) b [] = []
  append_bet (some zero) b (pr ∷ prs) = record pr { bets = pr.bets ++ b ∷ [] } ∷ prs
  append_bet (some (suc p)) b (pr ∷ prs) = pr ∷ append_bet (some p) b prs

  -- A nil slice and an empty one are the same list.
  abbrev pub bets_of : ℕ → Dict ℕ (List (RoundBet F)) → List (RoundBet F)
  bets_of id m = elim (lookup id m) [ none ↦ [] | some bs ↦ bs ]

  -- `GenerateRoundSpec`, once the seed is read.
  unfoldable pub mint : ℕ → Str → Manager F → RoundSpec × Manager F
  mint round_id seed m =
      let track = select_track m.cfg.track_pool round_id m.prev_track in
      let spec : RoundSpec = record {
        round_id = round_id;
        server_seed_hex = hex_encode seed;
        track_id = track;
        client_seeds = replicate m.cfg.max_marbles [];
      } in
      (
        spec,
        record m {
          prev_track = pos track;
          pending_rounds = m.pending_rounds ++ record { spec = spec; bets = [] } ∷ [];
          round_bets = insert round_id [] m.round_bets;
        },
      )

  -- `GenerateRoundSpec`: the seed is missing if crypto/rand fails.
  unfoldable pub generate_round_spec : ℕ → Option Str → Exec Error (Manager F) RoundSpec
  unfolding mint
  generate_round_spec round_id none m = (err (reason transient), m)
  generate_round_spec round_id (some seed) m =
      let (spec, m') = mint round_id seed m in (ok spec, m')

  unfoldable pub filter_player : Str → List (RoundBet F) → List (RoundBet F)
  filter_player player [] = []
  filter_player player (b ∷ bs) =
      let rest = filter_player player bs in if str_eq b.player_id player then b ∷ rest else rest

  -- `BetsForRound`
  unfoldable pub bets_for_round : ℕ → Str → Manager F → Result Error (List (RoundBet F))
  unfolding filter_player
  bets_for_round id player m = elim (lookup id m.round_bets) [
    | none ↦ err (sentinel unknown_round)
    | some bs ↦ ok (if is_empty player then bs else filter_player player bs)
  ]

  -- The error where no pending round has the id.
  abbrev pub not_pending : ℕ → Manager F → Error
  not_pending id m =
      if is_some (lookup id m.round_bets)
      then sentinel round_already_run
      else sentinel unknown_round

module _ (fl : Floats) where
  open fl use {Float, is_nonpositive}

  -- What `PlaceBetOnRound` checks before it calls the wallet: the units to debit.
  unfoldable pub check_bet : ℕ → ℤ → Float → Manager Float → Result Error ℕ
  unfolding find_pending_round
  check_bet round_id marble amount m =
      if ltb_ℤ marble (pos 0) || leb_ℤ (pos m.cfg.max_marbles) marble
      then err (wrap (sentinel invalid_marble_idx))
      else if is_nonpositive amount
      then err (wrap (sentinel invalid_bet_amount))
      else if not (is_some (find_pending_round round_id m.pending_rounds))
      then err (not_pending round_id m)
      else if to_units fl amount == 0
      then err (wrap (sentinel invalid_bet_amount))
      else ok (to_units fl amount)

  module _ (wal : Wallet) where
    -- The last critical section: the round may have been run since the first check, whose pointer is at the
    -- place.
    unfoldable pub commit_bet :
        Option ℕ → RoundBet Float → ℕ → Exec Error (World wal.State Float) (RoundBet Float)
    unfolding find_pending_round append_bet
    commit_bet place bet units w =
        if not (is_some (find_pending_round bet.round_id w.manager.pending_rounds))
        then (
          err (sentinel round_already_run),
          (on_wallet wal (wal.credit bet.player_id units (refund_id bet.bet_id)) w).1,
        )
        else (
          ok bet,
          record w {
            manager = record (w.manager) {
              pending_rounds = append_bet place bet w.manager.pending_rounds;
              round_bets =
                  insert bet.round_id (bets_of bet.round_id w.manager.round_bets ++ bet ∷ [])
                    w.manager.round_bets;
            };
          },
        )

    -- `balAfter`: 0 if the wallet does not answer.
    unfoldable pub balance_after : Str → wal.State → Float
    balance_after player s = elim (wal.balance player s) [
      | ok units ↦ of_units fl units
      | err e ↦ fl.of_nat 0
    ]

    abbrev pub with_balance :
        Float → Result Error (RoundBet Float) → Result Error (RoundBet Float × Float)
    with_balance bal (ok b) = ok (b, bal)
    with_balance bal (err e) = err e

    unfoldable pub debited_bet :
        Option ℕ
        → RoundBet Float
        → ℕ
        → Result Error (Unit {0})
        → Exec Error (World wal.State Float) (RoundBet Float × Float)
    unfolding commit_bet balance_after
    debited_bet place bet units (err e) w = (err (wrap e), w)
    debited_bet place bet units (ok done) w =
        let (r, w') = commit_bet place bet units w in
        (with_balance (balance_after bet.player_id w.wallet) r, w')

    -- `PlaceBetOnRound` with nothing in between.
    unfoldable pub place_bet_on_round :
        Str → ℕ → ℕ → Str → ℤ → Float → Exec Error (World wal.State Float) (RoundBet Float × Float)
    unfolding check_bet debited_bet place_of
    place_bet_on_round bet_id now round_id player marble amount w =
        elim (check_bet round_id marble amount w.manager) [
          | err e ↦ (err e, w)
          | ok units ↦
              let bet : RoundBet Float = record {
                bet_id = bet_id;
                player_id = player;
                round_id = round_id;
                marble_idx = marble;
                amount = amount;
                placed_at = now;
              } in
              let (r, w') = on_wallet wal (wal.debit player units bet_id) w in
              debited_bet (place_of round_id w.manager.pending_rounds) bet units r w'
        ]
