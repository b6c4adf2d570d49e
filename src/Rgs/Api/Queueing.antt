-- ===== src/Rgs/Api/Queueing.antt =====
-- `PlaceBet`, `CloseSession` and `OpenSession` of server/rgs/manager.go keep the queue well-formed.
use marbles_game.Prelude.{
  Bool-cases, Option-cases, Result, Str, arith, err, false, inl, inr, is_empty, minus_one, none, ok,
  pos, refl, some, str_eq_inst, subst, sym, ℕ, ◌==◌, ◌∙◌, ◌≡◌, ◌⊎◌,
}
use mathlib.Core.Option.{none-ne-some, some-injective}
use marbles_game.Prelude.Dict.{insert, lookup}
use marbles_game.Rgs.Session.{Bet, Session, betting, close, new_session, place_bet, state_eq}
use marbles_game.Rgs.Manager.{
  Manager, World, after_debit, close_session, finish_bet, on_session, open_session,
  place_session_bet,
}
use marbles_game.Rgs.Manager.Betting.{on_session_lem}
use marbles_game.Rgs.Errors.{Error, reason, unknown_session, zero_amount}
use marbles_game.Rgs.Wallet.{Wallet}
use marbles_game.Rgs.Api.Queue.{QueueInv, join-QueueInv, put-QueueInv, same-QueueInv}

-- What the call on a session does that `PlaceBet` makes after the debit.
abbrev JoinsOn : Bet → Session → Result Error (Unit {0}) × Session → Type 0
JoinsOn bet s (ok done, s') =
    (state_eq s.state betting ≡ false)
    × (s'.state ≡ betting)
    × (s'.bet ≡ some (record bet { marble_index = minus_one }))
JoinsOn bet s (err e, s') = s' ≡ s

place_bet-JoinsOn : (bet : Bet) (now : ℕ) (s : Session) → JoinsOn bet s (place_bet bet now s)
unfolding place_bet
place_bet-JoinsOn bet now s = ground arith

-- A session that waits with a bet is not closed.
close_lem : (now : ℕ) (s : Session) → ((close now s).1 ≡ s) ⊎ (state_eq s.state betting ≡ false)
unfolding close
close_lem now s = ground arith

module _ (wal : Wallet) {F : Type 0} where
  finish_bet-QueueInv :
      (id player : Str) (bet : Bet) (s : Session) (w : World wal.State F)
      → lookup id w.manager.sessions ≡ some s
      → QueueInv w.manager
      → (r : Result Error (Unit {0})) (s' : Session) → JoinsOn bet s (r, s')
      → QueueInv
          (finish_bet wal id player bet r (record w {
            manager = record (w.manager) { sessions = insert id s' w.manager.sessions };
          })).1.manager
  unfolding finish_bet
  finish_bet-QueueInv id player bet s w found v (ok done) s' (idle, state, its_bet) =
      join-QueueInv id s' (record bet { marble_index = minus_one }) w.manager
        (λ t at_id.
          subst (λ u. state_eq u.state betting ≡ false) (some-injective s t (sym found ∙ at_id))
            idle)
        state its_bet v
  finish_bet-QueueInv id player bet s w found v (err e) s' same =
      subst (λ t. QueueInv (record (w.manager) { sessions = insert id t w.manager.sessions }))
        (sym same) (same-QueueInv id s w.manager found v)

  after_debit-QueueInv :
      (id : Str) (bet : Bet) (now : ℕ) (s : Session) (w : World wal.State F)
      → lookup id w.manager.sessions ≡ some s
      → QueueInv w.manager
      → (r : Result Error (Unit {0})) → QueueInv (after_debit wal id bet now r w).1.manager
  unfolding after_debit
  after_debit-QueueInv id bet now s w found v (err e) = v
  after_debit-QueueInv id bet now s w found v (ok done) =
      subst (λ p. QueueInv (finish_bet wal id bet.player_id bet p.0 p.1).1.manager)
        (sym (on_session_lem id s (place_bet bet now) w found))
        (finish_bet-QueueInv id bet.player_id bet s w found v (place_bet bet now s).0
          (place_bet bet now s).1 (place_bet-JoinsOn bet now s))

  pub place_session_bet-QueueInv :
      (bet_id : Str) (now : ℕ) (id : Str) (amount : ℕ) (w : World wal.State F)
      → QueueInv w.manager
      → QueueInv (place_session_bet wal bet_id now id amount w).1.manager
  unfolding place_session_bet
  place_session_bet-QueueInv bet_id now id amount w v =
      let goal : Result Error Bet × World wal.State F → Type 0 = λ p. QueueInv p.1.manager in
      elim (Option-cases (lookup id w.manager.sessions)) [
        | inl missing ↦
            subst goal {x = (err (reason unknown_session), w)}
              {y = place_session_bet wal bet_id now id amount w}
              (sym (rw (place_session_bet, missing) refl)) v
        | inr (s, found) ↦ elim (Bool-cases (amount == 0)) [
          | inl zero_bet ↦
              subst goal {x = (err (reason zero_amount), w)}
                {y = place_session_bet wal bet_id now id amount w}
                (sym (rw (place_session_bet, found, zero_bet) refl)) v
          | inr positive ↦
              let bet : Bet = record {
                bet_id = bet_id;
                amount = amount;
                player_id = s.player_id;
                placed_at = now;
                marble_index = pos 0;
              } in
              let paid = wal.debit s.player_id amount bet_id w.wallet in
              subst goal {x = after_debit wal id bet now paid.0 (record w { wallet = paid.1 })}
                {y = place_session_bet wal bet_id now id amount w}
                (sym (rw (place_session_bet, found, positive) refl))
                (after_debit-QueueInv id bet now s (record w { wallet = paid.1 }) found v paid.0)
        ]
      ]

module _ {W F : Type 0} where
  pub close_session-QueueInv :
      (now : ℕ) (id : Str) (w : World W F)
      → QueueInv w.manager
      → QueueInv (close_session now id w).1.manager
  unfolding close_session
  close_session-QueueInv now id w v =
      let goal : Result Error (Unit {0}) × World W F → Type 0 = λ p. QueueInv p.1.manager in
      elim (Option-cases (lookup id w.manager.sessions)) [
        | inl missing ↦
            subst goal {x = (err (reason unknown_session), w)} {y = close_session now id w}
              (sym (unfold on_session in rw (on_session, missing) refl)) v
        | inr (s, found) ↦
            subst goal {y = close_session now id w} (sym (on_session_lem id s (close now) w found))
              (elim (close_lem now s) [
                | inl same ↦
                    subst
                      (λ t.
                        QueueInv (record (w.manager) { sessions = insert id t w.manager.sessions }))
                      (sym same) (same-QueueInv id s w.manager found v)
                | inr idle ↦
                    put-QueueInv id (close now s).1 w.manager
                      (λ t at_id.
                        subst (λ u. state_eq u.state betting ≡ false)
                          (some-injective s t (sym found ∙ at_id)) idle)
                      v
              ])
      ]

module _ {F : Type 0} where
  -- A session is opened under a new id.
  pub open_session-QueueInv :
      (id : Str) (now : ℕ) (player : Str) (m : Manager F)
      → lookup id m.sessions ≡ none
      → QueueInv m
      → QueueInv (open_session id now player m).1
  unfolding open_session
  open_session-QueueInv id now player m new v = elim (Bool-cases (is_empty player)) [
    | inl nameless ↦
        subst QueueInv {x = m} {y = (open_session id now player m).1}
          (sym (rw (open_session, nameless) refl)) v
    | inr named ↦
        subst QueueInv
          {x = record m { sessions = insert id (new_session id player now) m.sessions }}
          {y = (open_session id now player m).1} (sym (rw (open_session, named) refl))
          (put-QueueInv id (new_session id player now) m
            (λ s found. absurd (none-ne-some s (sym new ∙ found))) v)
  ]
