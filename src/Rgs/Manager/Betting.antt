-- ===== src/Rgs/Manager/Betting.antt =====
-- The money of `PlaceBet` in server/rgs/manager.go, over any lawful wallet.
use marbles_game.Prelude.{
  Bool-cases, Exec, Option-cases, Result, Result-cases, Str, [], ap, append-ne, arith, err, false,
  if◌then◌else◌, inl, inr, minus_one, ok, pos, refl, some, str_eq, str_eq_iff, str_eq_inst, subst,
  sym, u64_mod, ℕ, ◌++◌, ◌+◌, ◌<◌, ◌==◌, ◌∙◌, ◌∷◌, ◌≡◌,
}
use marbles_game.Rgs.Wallet.{Wallet}
use marbles_game.Rgs.Wallet.Laws.{LawfulWallet}
use marbles_game.Rgs.Manager.{
  World, after_debit, finish_bet, on_session, place_session_bet, refund_id,
}
use marbles_game.Prelude.Dict.{beq_ne, beq_self, insert, lookup, lookup-insert}
use marbles_game.Rgs.Errors.{Error, reason, unknown_session, wrap, zero_amount}
use marbles_game.Rgs.Session.{Bet, Session, betting, place_bet}

-- What the session makes of a bet whose debit went through.
abbrev PlacedOn : Bet → Session → Result Error (Unit {0}) × Session → Type 0
PlacedOn bet s (ok done, s') =
    (s'.state ≡ betting)
    × (s'.bet ≡ some (record bet { marble_index = minus_one }))
    × (s'.player_id ≡ s.player_id)
PlacedOn bet s (err e, s') = s' ≡ s

place_bet_lem : (bet : Bet) (now : ℕ) (s : Session) → PlacedOn bet s (place_bet bet now s)
unfolding place_bet
place_bet_lem bet now s = ground arith

-- A call on a session that is there.
pub on_session_lem :
    {W F A : Type 0} (id : Str) (s : Session) (call : Exec Error Session A) (w : World W F)
    → lookup id w.manager.sessions ≡ some s
    → on_session id call w ≡ (
      (call s).0,
      record w {
        manager = record (w.manager) { sessions = insert id (call s).1 w.manager.sessions };
      },
    )
unfolding on_session
on_session_lem id s call w found = rw (on_session, found) refl

module _ (wal : Wallet) (law : LawfulWallet wal) where
  open law use {account, used, debit_ok, debit_err, debit_used, credit_ok, refundable}

  -- Both transaction ids of a bet are new.
  abbrev pub FreshBet : Str → wal.State → Type 0
  FreshBet bet_id s = (used bet_id s ≡ false) × (used (refund_id bet_id) s ≡ false)

  -- After the debit of a new bet its refund is a new transaction, and one that succeeds.
  pub refund_ready :
      (player : Str) (amount : ℕ) (bet_id : Str) (s : wal.State)
      → FreshBet bet_id s
      → (wal.debit player amount bet_id s).0 ≡ ok tt
      → let after = (wal.debit player amount bet_id s).1 in
        (used (refund_id bet_id) after ≡ false)
        × ((wal.credit player amount (refund_id bet_id) after).0 ≡ ok tt)
  refund_ready player amount bet_id s fresh paid =
      let tx = refund_id bet_id in
      let other : str_eq bet_id tx ≡ false = beq_ne bet_id tx (λ e. append-ne bet_id _ _ (sym e)) in
      let unused : used tx (wal.debit player amount bet_id s).1 ≡ false =
        rw (debit_used player amount bet_id tx s, fresh.1, paid, other) refl in
      (unused, refundable player amount amount bet_id tx s paid unused)

  -- Every player's money fits in 64 bits.
  abbrev pub InRange : wal.State → Type 0
  InRange s = (q : Str) → account q s < u64_mod

  -- What is left to the player after a debit has room for the refund.
  pub refund_room :
      (player : Str) (amount : ℕ) (bet_id : Str) (s : wal.State)
      → used bet_id s ≡ false
      → InRange s
      → (wal.debit player amount bet_id s).0 ≡ ok tt
      → account player (wal.debit player amount bet_id s).1 + amount < u64_mod
  refund_room player amount bet_id s unused room paid =
      let taken = rw (beq_self player) at (debit_ok player amount bet_id player s unused paid) in
      rw taken at (room player)

  -- A debit and its refund cancel out, for every player.
  pub debit_refund :
      (player : Str) (amount : ℕ) (bet_id : Str) (s : wal.State)
      → FreshBet bet_id s
      → InRange s
      → (wal.debit player amount bet_id s).0 ≡ ok tt
      → (q : Str)
      → account q
          (wal.credit player amount (refund_id bet_id) (wal.debit player amount bet_id s).1).1
        ≡ account q s
  debit_refund player amount bet_id s fresh room paid q =
      let after = (wal.debit player amount bet_id s).1 in
      let ready = refund_ready player amount bet_id s fresh paid in
      credit_ok player amount (refund_id bet_id) q after ready.0
        (refund_room player amount bet_id s fresh.0 room paid) ready.1
      ∙ sym (debit_ok player amount bet_id q s fresh.0 paid)

  -- What a call of `PlaceBet` has done, by how it ended.
  abbrev pub BetPlaced :
      {F : Type 0} → Str → ℕ → World wal.State F → Result Error Bet × World wal.State F → Type 0
  BetPlaced id amount w (ok bet, w') =
      (0 < amount)
      × (w'.manager.pending ≡ w.manager.pending ++ id ∷ [])
      × ((s : Session) × (lookup id w'.manager.sessions ≡ some s)
          × (s.state ≡ betting)
          × (s.bet ≡ some (record bet { marble_index = minus_one }))
          × (bet.amount ≡ amount)
          × (bet.player_id ≡ s.player_id)
          × ((q : Str)
              → account q w.wallet
                ≡ account q w'.wallet + (if str_eq s.player_id q then amount else 0)))
  BetPlaced id amount w (err e, w') =
      ((q : Str) → account q w'.wallet ≡ account q w.wallet)
      × (w'.manager.pending ≡ w.manager.pending)
      × ((j : Str) → lookup j w'.manager.sessions ≡ lookup j w.manager.sessions)

  module _ {F : Type 0} where
    finish_bet_lem :
        (id : Str) (bet : Bet) (s : Session) (w : World wal.State F)
        → lookup id w.manager.sessions ≡ some s
        → bet.player_id ≡ s.player_id
        → FreshBet bet.bet_id w.wallet
        → InRange w.wallet
        → 0 < bet.amount
        → (wal.debit bet.player_id bet.amount bet.bet_id w.wallet).0 ≡ ok tt
        → (r : Result Error (Unit {0})) (s' : Session) → PlacedOn bet s (r, s')
        → BetPlaced id bet.amount w (
            finish_bet wal id bet.player_id bet r (record w {
              manager = record (w.manager) { sessions = insert id s' w.manager.sessions };
              wallet = (wal.debit bet.player_id bet.amount bet.bet_id w.wallet).1;
            }))
    unfolding finish_bet
    finish_bet_lem id bet s w found mine fresh room some_amount paid (ok done) s' placed =
        let at_id = lookup-insert id id s' w.manager.sessions in
        (
          some_amount,
          refl,
          (
            s',
            rw (beq_self id) at at_id,
            placed.0,
            placed.1,
            refl,
            mine ∙ sym placed.2,
            λ q.
                subst
                  (λ p.
                    account q w.wallet
                    ≡ account q (wal.debit bet.player_id bet.amount bet.bet_id w.wallet).1
                      + (if str_eq p q then bet.amount else 0))
                  (mine ∙ sym placed.2)
                  (debit_ok bet.player_id bet.amount bet.bet_id q w.wallet fresh.0 paid),
          ),
        )
    finish_bet_lem id bet s w found mine fresh room some_amount paid (err e) s' placed = (
      debit_refund bet.player_id bet.amount bet.bet_id w.wallet fresh room paid,
      refl,
      λ j. grind (arith, lookup-insert id j s' w.manager.sessions, str_eq_iff id j),
    )

    -- How a bet ends once the debit of its amount went through.
    after_debit_lem :
        (id : Str) (bet : Bet) (now : ℕ) (s : Session) (w : World wal.State F)
        → lookup id w.manager.sessions ≡ some s
        → bet.player_id ≡ s.player_id
        → FreshBet bet.bet_id w.wallet
        → InRange w.wallet
        → 0 < bet.amount
        → (wal.debit bet.player_id bet.amount bet.bet_id w.wallet).0 ≡ ok tt
        → let after = (wal.debit bet.player_id bet.amount bet.bet_id w.wallet).1 in
          BetPlaced id bet.amount w
            (after_debit wal id bet now (ok tt) (record w { wallet = after }))
    unfolding after_debit
    after_debit_lem id bet now s w found mine fresh room some_amount paid =
        let after = (wal.debit bet.player_id bet.amount bet.bet_id w.wallet).1 in
        let called = on_session_lem id s (place_bet bet now) (record w { wallet = after }) found in
        subst (λ p. BetPlaced id bet.amount w (finish_bet wal id bet.player_id bet p.0 p.1))
          (sym called)
          (finish_bet_lem id bet s w found mine fresh room some_amount paid (place_bet bet now s).0
            (place_bet bet now s).1 (place_bet_lem bet now s))

    -- `PlaceBet` takes exactly the stake from the session's player and nothing from anyone else, and queues
    -- the session with its bet; or it fails and every player has the money as before, the queue is as
    -- before and so is every session. That holds also where the session refuses the bet after the
    -- debit, by the refund. Both transaction ids are new, and each player holds less than 2^64 units.
    pub place_session_bet_safe :
        (bet_id : Str) (now : ℕ) (id : Str) (amount : ℕ) (w : World wal.State F)
        → FreshBet bet_id w.wallet
        → InRange w.wallet
        → BetPlaced id amount w (place_session_bet wal bet_id now id amount w)
    unfolding place_session_bet
    place_session_bet_safe bet_id now id amount w fresh room =
        let goal = BetPlaced id amount w in
        elim (Option-cases (lookup id w.manager.sessions)) [
          | inl missing ↦
              subst goal {x = (err (reason unknown_session), w)}
                (sym (rw (place_session_bet, missing) refl)) ((λ q. refl), refl, λ j. refl)
          | inr (s, found) ↦ elim (Bool-cases (amount == 0)) [
            | inl zero_bet ↦
                subst goal {x = (err (reason zero_amount), w)}
                  (sym (rw (place_session_bet, found, zero_bet) refl))
                  ((λ q. refl), refl, λ j. refl)
            | inr positive ↦
                let bet : Bet = record {
                  bet_id = bet_id;
                  amount = amount;
                  player_id = s.player_id;
                  placed_at = now;
                  marble_index = pos 0;
                } in
                elim (Result-cases (wal.debit s.player_id amount bet_id w.wallet).0) [
                  | inr (e, refused) ↦
                      subst goal {x = (err (wrap e), w)}
                        (sym (
                          rw (place_session_bet, found, positive, refused)
                            (ap (λ x. (err (wrap e), record w { wallet = x }))
                              (debit_err s.player_id amount bet_id w.wallet (rw refused refl)))))
                        ((λ q. refl), refl, λ j. refl)
                  | inl (_, paid) ↦
                      subst goal (sym (rw (place_session_bet, found, positive, paid) refl)) (
                        after_debit_lem id bet now s w found refl fresh room
                          (ground (arith, positive)) paid)
                ]
          ]
        ]
