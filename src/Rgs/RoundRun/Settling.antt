-- ===== src/Rgs/RoundRun/Settling.antt =====
-- The money that `RunNextRound` of server/rgs/manager.go pays for the bets on a round, over any lawful
-- wallet.
use marbles_game.Prelude.{
  All, Bool, Bool-cases, List, Result, Result-cases, Str, [], ap, arith, eqb_ℤ, err, false,
  if◌then◌else◌, inl, inr, map, ok, refl, str_eq, str_eq_inst, subst, sym, true, u64_mod, ℕ, ℤ, ◌+◌,
  ◌<◌, ◌∷◌, ◌≡◌, ◌≤◌,
}
use marbles_game.Prelude.Dict.{beq_self}
use marbles_game.Rgs.Errors.{Error}
use marbles_game.Rgs.Wallet.{Wallet}
use marbles_game.Rgs.Wallet.Laws.{LawfulWallet}
use marbles_game.Rgs.Money.{Floats, payout_of, to_units}
use marbles_game.Rgs.Manager.{RoundBet, World}
use marbles_game.Rgs.RoundRun.{RoundBetOutcome}
use marbles_game.Rgs.RoundRun.Stages.{
  Act, credit_id, pay, rewrap, round_bet_outcome, settle_round_bets,
}

module _ (fl : Floats) where
  open fl use {Float}

  -- What a player is due for a bet: the payout of a bet on the winner, in units, if it is the player's.
  abbrev pub due_to : Str → ℤ → RoundBet Float → ℕ
  due_to q winner rb =
      if eqb_ℤ rb.marble_idx winner
      then (if str_eq rb.player_id q then to_units fl (payout_of fl rb.amount) else 0)
      else 0

  -- What a player is owed for the bets on a round.
  abbrev pub owed_to : Str → ℤ → List (RoundBet Float) → ℕ
  owed_to q winner [] = 0
  owed_to q winner (rb ∷ rbs) = due_to q winner rb + owed_to q winner rbs

  module _ (wal : Wallet) (law : LawfulWallet wal) where
    open law use {account, used, credit_ok, credit_err, credit_used}

    -- The credit ids of the bets are new and differ from each other.
    abbrev pub FreshCredits : List (RoundBet Float) → wal.State → Type 0
    FreshCredits [] s = Unit
    FreshCredits (rb ∷ rbs) s =
        (used (credit_id rb.bet_id) s ≡ false)
        × All (λ other. str_eq (credit_id rb.bet_id) (credit_id other.bet_id) ≡ false) rbs
        × FreshCredits rbs s

    fresh_later :
        (player : Str) (amount : ℕ) (tx : Str) (rbs : List (RoundBet Float)) (s : wal.State)
        → All (λ rb. str_eq tx (credit_id rb.bet_id) ≡ false) rbs
        → FreshCredits rbs s
        → FreshCredits rbs (wal.credit player amount tx s).1
    fresh_later player amount tx [] s apart fresh = tt
    fresh_later player amount tx (rb ∷ rbs) s apart fresh = (
      ground (arith, credit_used player amount tx (credit_id rb.bet_id) s, fresh.0, apart.0),
      fresh.1,
      fresh_later player amount tx rbs s apart.1 fresh.2,
    )

    -- How much was paid, by how the loop ended.
    abbrev pub PaidOut :
        ℤ
        → List (RoundBet Float)
        → World wal.State Float
        → Result Error (List (RoundBetOutcome Float)) × World wal.State Float
        → Type 0
    PaidOut winner rbs w (ok os, w') =
        (os ≡ map (λ rb. round_bet_outcome fl rb winner) rbs)
        × ((q : Str) → account q w'.wallet ≡ account q w.wallet + owed_to q winner rbs)
    PaidOut winner rbs w (err e, w') =
        (q : Str)
        → (account q w.wallet ≤ account q w'.wallet)
          × (account q w'.wallet ≤ account q w.wallet + owed_to q winner rbs)

    -- Each player's money and winnings fit in 64 bits.
    abbrev pub Room : ℤ → List (RoundBet Float) → wal.State → Type 0
    Room winner rbs s = (q : Str) → account q s + owed_to q winner rbs < u64_mod

    -- One bet: it is paid what it is due, or nothing.
    abbrev PaidOne :
        ℤ
        → RoundBet Float
        → List (RoundBet Float)
        → World wal.State Float
        → Result Error (Unit {0}) × World wal.State Float
        → Type 0
    PaidOne winner rb rbs w (ok done, w') =
        ((q : Str) → account q w'.wallet ≡ account q w.wallet + due_to q winner rb)
        × FreshCredits rbs w'.wallet
    PaidOne winner rb rbs w (err e, w') = (q : Str) → account q w'.wallet ≡ account q w.wallet

    abbrev pay_bet : ℤ → RoundBet Float → Act fl wal (Unit {0})
    pay_bet winner rb =
        let o = round_bet_outcome fl rb winner in
        pay fl wal o.won rb.player_id (to_units fl o.payout) (credit_id rb.bet_id)

    pay_bet_lem :
        (winner : ℤ) (rb : RoundBet Float) (rbs : List (RoundBet Float)) (w : World wal.State Float)
        → FreshCredits (rb ∷ rbs) w.wallet
        → ((q : Str) → account q w.wallet + due_to q winner rb < u64_mod)
        → PaidOne winner rb rbs w (pay_bet winner rb w)
    unfolding pay round_bet_outcome
    pay_bet_lem winner rb rbs w fresh room =
        let tx = credit_id rb.bet_id in
        let units = to_units fl (payout_of fl rb.amount) in
        let goal : Bool → Type 0 = λ won. PaidOne winner rb rbs w (
          pay fl wal won rb.player_id
            (to_units fl (if won then payout_of fl rb.amount else fl.of_nat 0)) tx w) in
        elim (Bool-cases (eqb_ℤ rb.marble_idx winner)) [
          | inr lost ↦ subst goal (sym lost) ((λ q. ground (arith, lost)), fresh.2)
          | inl won ↦ subst goal (sym won) (
              let c = wal.credit rb.player_id units tx w.wallet in
              let same : str_eq rb.player_id rb.player_id ≡ true =
                beq_self ⦃e = str_eq_inst⦄ rb.player_id in
              let has_room : account rb.player_id w.wallet + units < u64_mod =
                rw (won, same) at (room rb.player_id) in
              let paid : Result Error (Unit {0}) → Type 0 =
                λ r. PaidOne winner rb rbs w (rewrap r, record w { wallet = c.1 }) in
              elim (Result-cases c.0) [
                | inr (e, bad) ↦
                    subst paid (sym bad) (λ q.
                      ap (account q) (credit_err rb.player_id units tx w.wallet (rw bad refl)))
                | inl (_, good) ↦ subst paid (sym good) (
                  λ q. rw won (credit_ok rb.player_id units tx q w.wallet fresh.0 has_room good),
                  fresh_later rb.player_id units tx rbs w.wallet fresh.1 fresh.2,
                )
              ])
        ]

    -- The outcomes of the later bets come after that of the first one.
    PaidOut-later :
        (winner : ℤ) (rb : RoundBet Float) (rbs : List (RoundBet Float))
        (w w1 : World wal.State Float)
        → ((q : Str) → account q w1.wallet ≡ account q w.wallet + due_to q winner rb)
        → (q : Result Error (List (RoundBetOutcome Float)) × World wal.State Float)
        → PaidOut winner rbs w1 q
        → PaidOut winner (rb ∷ rbs) w (elim q.0 [
          | err e ↦ (err e, q.1)
          | ok os ↦ (ok (round_bet_outcome fl rb winner ∷ os), q.1)
        ])
    PaidOut-later winner rb rbs w w1 first (ok os, w2) later = (
      ap (λ x. round_bet_outcome fl rb winner ∷ x) later.0,
      λ q. omega (arith, first q, later.1 q),
    )
    PaidOut-later winner rb rbs w w1 first (err e, w2) later =
        λ q. (omega (arith, first q, later q), omega (arith, first q, later q))

    PaidOut-first :
        (winner : ℤ) (rb : RoundBet Float) (rbs : List (RoundBet Float)) (w : World wal.State Float)
        → Room winner (rb ∷ rbs) w.wallet
        → ((w1 : World wal.State Float)
            → FreshCredits rbs w1.wallet
            → Room winner rbs w1.wallet
            → PaidOut winner rbs w1 (settle_round_bets fl wal winner rbs w1))
        → (p : Result Error (Unit {0}) × World wal.State Float) → PaidOne winner rb rbs w p
        → PaidOut winner (rb ∷ rbs) w (elim p.0 [
          | err e ↦ (err e, p.1)
          | ok done ↦
              let q = settle_round_bets fl wal winner rbs p.1 in
              elim q.0 [
                | err e ↦ (err e, q.1)
                | ok os ↦ (ok (round_bet_outcome fl rb winner ∷ os), q.1)
              ]
        ])
    PaidOut-first winner rb rbs w room later (ok done, w1) first =
        PaidOut-later winner rb rbs w w1 first.0 (settle_round_bets fl wal winner rbs w1)
          (later w1 first.1 (λ q. omega (arith, room q, first.0 q)))
    PaidOut-first winner rb rbs w room later (err e, w1) first =
        λ q. (omega (arith, first q), omega (arith, first q))

    -- Settling the bets on a round pays each player exactly what the winning bets of that player are owed,
    -- and nobody else, and reports every bet in order; a failure on the way has taken nothing from
    -- anyone and has paid nobody more than that. The credit ids are new, and the money of each player
    -- fits in 64 bits.
    pub settle_round_bets_pays :
        (winner : ℤ) (rbs : List (RoundBet Float)) (w : World wal.State Float)
        → FreshCredits rbs w.wallet
        → Room winner rbs w.wallet
        → PaidOut winner rbs w (settle_round_bets fl wal winner rbs w)
    unfolding settle_round_bets
    settle_round_bets_pays winner [] w fresh room = (refl, λ q. omega arith)
    settle_round_bets_pays winner (rb ∷ rbs) w fresh room =
        PaidOut-first winner rb rbs w room (settle_round_bets_pays winner rbs) (pay_bet winner rb w)
          (pay_bet_lem winner rb rbs w fresh (λ q. omega (arith, room q)))
