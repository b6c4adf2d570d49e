-- ===== src/Rgs/RoundBets/Placing.antt =====
-- `PlaceBetOnRound` of server/rgs/manager.go, over any lawful wallet.
use marbles_game.Prelude.{
  Bool, Bool-cases, List, Option, Result, Str, [], ap, arith, err, false, if◌then◌else◌, inl, inr,
  is_ok, is_some, nat_eq, none, not, ok, refl, some, str_eq, str_eq_inst, subst, suc, sym, true,
  u64_mod, ℕ, ℤ, ◌++◌, ◌+◌, ◌<◌, ◌==◌, ◌∙◌, ◌∷◌, ◌≡◌,
}
use marbles_game.Rgs.Money.{Floats, to_units}
use marbles_game.Rgs.Manager.{Manager, PendingRound, RoundBet, World, refund_id}
use marbles_game.Rgs.RoundBets.{
  append_bet, balance_after, bets_of, check_bet, commit_bet, find_pending_round, place_of,
}
use marbles_game.Rgs.Errors.{Error, round_already_run, sentinel}
use marbles_game.Rgs.Wallet.{Wallet, balance}
use marbles_game.Rgs.Wallet.Laws.{LawfulWallet}
use marbles_game.Prelude.Dict.{Dict, insert, lookup-insert}

module _ {F : Type 0} where
  abbrev with_bet : RoundBet F → Option (PendingRound F) → Option (PendingRound F)
  with_bet b none = none
  with_bet b (some pr) = some (record pr { bets = pr.bets ++ b ∷ [] })

  -- The round that `findPendingRound` finds gets the bet.
  abbrev add_bet : ℕ → RoundBet F → List (PendingRound F) → List (PendingRound F)
  add_bet id b prs = append_bet (place_of id prs) b prs

  find_place :
      (id j : ℕ) (b : RoundBet F) (pr : PendingRound F) (prs : List (PendingRound F))
      (place : Option ℕ)
      → (pr.spec.round_id == id) ≡ false
      → find_pending_round j (append_bet place b prs)
        ≡ (if id == j then with_bet b (find_pending_round j prs) else find_pending_round j prs)
      → find_pending_round j (
          append_bet
            (elim place as (λ _. Option ℕ) [ none ↦ none | some p ↦ some (suc p) ])
            b
            (pr ∷ prs))
        ≡ (if id == j
            then with_bet b (find_pending_round j (pr ∷ prs))
            else find_pending_round j (pr ∷ prs))
  unfolding find_pending_round append_bet
  find_place id j b pr prs none other h = ground (arith, other, h)
  find_place id j b pr prs (some p) other h = ground (arith, other, h)

  -- A bet is appended to the round that `findPendingRound` finds, and to no other one.
  pub find-add_bet :
      (id j : ℕ) (b : RoundBet F) (prs : List (PendingRound F))
      → find_pending_round j (add_bet id b prs)
        ≡ (if id == j then with_bet b (find_pending_round j prs) else find_pending_round j prs)
  unfolding find_pending_round append_bet place_of
  find-add_bet id j b [] = ground arith
  find-add_bet id j b (pr ∷ prs) = elim (Bool-cases (pr.spec.round_id == id)) [
    | inl here ↦ ground (arith, here)
    | inr other ↦
        rw (place_of, other)
          (find_place id j b pr prs (place_of id prs) other (find-add_bet id j b prs))
  ]

  bets_of-insert :
      (id j : ℕ) (b : RoundBet F) (m : Dict ℕ (List (RoundBet F)))
      → bets_of j (insert id (bets_of id m ++ b ∷ []) m)
        ≡ (if id == j then bets_of j m ++ b ∷ [] else bets_of j m)
  bets_of-insert id j b m = grind (arith, lookup-insert id j (bets_of id m ++ b ∷ []) m)

module _ (fl : Floats) where
  open fl use {Float}

  -- A bet that passes the checks is on a pending round, for a positive number of units.
  pub check_bet_lem :
      (round_id : ℕ) (marble : ℤ) (amount : Float) (m : Manager Float) (units : ℕ)
      → check_bet fl round_id marble amount m ≡ ok units
      → (units ≡ to_units fl amount)
        × (0 < units)
        × (is_some (find_pending_round round_id m.pending_rounds) ≡ true)
  unfolding check_bet
  check_bet_lem round_id marble amount m units passed = ground arith

  module _ (wal : Wallet) (law : LawfulWallet wal) where
    open law use {account, used, debit_ok, debit_err, debit_used, credit_ok, refundable}

    -- What the last critical section has done to the world that it met.
    abbrev pub Committed :
        RoundBet Float
        → ℕ
        → World wal.State Float
        → Result Error (RoundBet Float) × World wal.State Float
        → Type 0
    Committed bet units w (ok b, w') =
        (b ≡ bet)
        × (w'.wallet ≡ w.wallet)
        × ((j : ℕ)
            → find_pending_round j w'.manager.pending_rounds ≡ (
                if bet.round_id == j
                then with_bet bet (find_pending_round j w.manager.pending_rounds)
                else find_pending_round j w.manager.pending_rounds))
        × ((j : ℕ)
            → bets_of j w'.manager.round_bets ≡ (
                if bet.round_id == j
                then bets_of j w.manager.round_bets ++ bet ∷ []
                else bets_of j w.manager.round_bets))
    Committed bet units w (err e, w') =
        (e ≡ sentinel round_already_run)
        × (w'.manager ≡ w.manager)
        × ((q : Str)
            → account q w'.wallet
              ≡ account q w.wallet + (if str_eq bet.player_id q then units else 0))

    -- Whatever other calls ran since the debit, the last step of `PlaceBetOnRound` either enters the
    -- bet in the pending round and in the round's record, and in no other round, without another
    -- call of the wallet; or the round was taken, it answers that the round has run, the manager is
    -- as it was, and the debited units are given back to the bettor, and nobody else's money moves. The
    -- pointer from the first check still names the pending round with the bet's id, where there is one:
    -- the id was not minted twice. For a player the wallet would credit, under a new refund id, and whose
    -- money has room for the units in 64 bits.
    pub commit_bet_settles :
        (place : Option ℕ) (bet : RoundBet Float) (units : ℕ) (w : World wal.State Float)
        → place ≡ place_of bet.round_id w.manager.pending_rounds
        → used (refund_id bet.bet_id) w.wallet ≡ false
        → (wal.credit bet.player_id units (refund_id bet.bet_id) w.wallet).0 ≡ ok tt
        → account bet.player_id w.wallet + units < u64_mod
        → (is_ok (commit_bet fl wal place bet units w).0
            ≡ is_some (find_pending_round bet.round_id w.manager.pending_rounds))
          × Committed bet units w (commit_bet fl wal place bet units w)
    unfolding commit_bet
    commit_bet_settles place bet units w named unused known room =
        let kept : Result Error (RoundBet Float) × World wal.State Float = (
          ok bet,
          record w {
            manager = record (w.manager) {
              pending_rounds = append_bet place bet w.manager.pending_rounds;
              round_bets =
                  insert bet.round_id (bets_of bet.round_id w.manager.round_bets ++ bet ∷ [])
                    w.manager.round_bets;
            };
          },
        ) in
        let refund = (wal.credit bet.player_id units (refund_id bet.bet_id) w.wallet).1 in
        let lost : Result Error (RoundBet Float) × World wal.State Float =
          (err (sentinel round_already_run), record w { wallet = refund }) in
        let goal : Bool → Type 0 = λ c.
          (is_ok (if not c then lost else kept).0 ≡ c)
          × Committed bet units w (if not c then lost else kept) in
        elim (Bool-cases (is_some (find_pending_round bet.round_id w.manager.pending_rounds))) [
          | inl pending ↦ subst goal (sym pending) (
            refl,
            (
              refl,
              refl,
              (λ j.
                  ap (λ p. find_pending_round j (append_bet p bet w.manager.pending_rounds)) named
                  ∙ find-add_bet bet.round_id j bet w.manager.pending_rounds),
              λ j. bets_of-insert bet.round_id j bet w.manager.round_bets,
            ),
          )
          | inr gone ↦ subst goal (sym gone) (
            refl,
            (
              refl,
              refl,
              λ q.
                  credit_ok bet.player_id units (refund_id bet.bet_id) q w.wallet unused room known,
            ),
          )
        ]

    -- What a call of `PlaceBetOnRound` has done, by how it ended.
    abbrev pub RoundBetPlaced :
        RoundBet Float
        → World wal.State Float
        → Result Error (RoundBet Float × Float) × World wal.State Float
        → Type 0
    RoundBetPlaced bet w (ok (b, balance), w') =
        (0 < to_units fl bet.amount)
        × ((q : Str)
            → account q w.wallet
              ≡ account q w'.wallet
                + (if str_eq bet.player_id q then to_units fl bet.amount else 0))
        × (balance ≡ balance_after fl wal bet.player_id w'.wallet)
        × Committed bet (to_units fl bet.amount) (record w { wallet = w'.wallet }) (ok b, w')
    RoundBetPlaced bet w (err e, w') = w' ≡ w
