-- ===== src/Rgs/RoundRun/Liveness.antt =====
-- When the loop of `RunNextRound` that assigns marbles succeeds (server/rgs/manager.go, step 3).
use marbles_game.Prelude.{
  List, Result, Str, [], arith, ok, refl, some, str_eq_inst, subst, sym, ℕ, ◌+◌, ◌∷◌, ◌≡◌,
}
use marbles_game.Prelude.Dict.{Dict, insert, lookup, lookup-insert}
use marbles_game.Rgs.Session.{Bet, Session, assign_marble, betting}
use marbles_game.Rgs.Wallet.{Wallet}
use marbles_game.Rgs.Money.{Floats}
use marbles_game.Rgs.Manager.{World, on_session}
use marbles_game.Rgs.RoundRun.Stages.{assign_all}
use marbles_game.Rgs.RoundRun.Marbles.{Apart, Distinct}
use marbles_game.Rgs.Errors.{Error}

-- Each session of a queue holds a bet that waits for a round.
abbrev pub Queued : List Str → Dict Str Session → Type 0
Queued [] m = Unit
Queued (id ∷ ids) m =
    ((s : Session) × (b : Bet) × (lookup id m ≡ some s) × (s.state ≡ betting) × (s.bet ≡ some b))
    × Queued ids m

pub Queued-insert :
    (id : Str) (s : Session) (ids : List Str) (m : Dict Str Session)
    → Apart id ids
    → Queued ids m
    → Queued ids (insert id s m)
Queued-insert id s [] m apart q = tt
Queued-insert id s (j ∷ ids) m apart ((t, b, found, state, bet), later) = (
  (t, b, rw (lookup-insert id j s m, apart.0) found, state, bet),
  Queued-insert id s ids m apart.1 later,
)

module _ (fl : Floats) (wal : Wallet) where
  open fl use {Float}

  pub assign_all_succeeds :
      (now i : ℕ) (ids : List Str) (w : World wal.State Float)
      → Distinct ids
      → Queued ids w.manager.sessions
      → (assign_all fl wal now i ids w).0 ≡ ok tt
  unfolding assign_all on_session assign_marble
  assign_all_succeeds now i [] w distinct queued = refl
  assign_all_succeeds now i (id ∷ ids) w distinct ((s, b, found, state, bet), later) =
      let on : Result Error (Unit {0}) × World wal.State Float =
        on_session id (assign_marble i now) w in
      let s' = (assign_marble i now s).1 in
      let stored : on.1.manager.sessions ≡ insert id s' w.manager.sessions =
        ground (arith, found) in
      let rest = assign_all_succeeds now (i + 1) ids on.1 distinct.1 (
        subst (Queued ids) (sym stored)
          (Queued-insert id s' ids w.manager.sessions distinct.0 later)) in
      ground (arith, found, state, bet, rest)
