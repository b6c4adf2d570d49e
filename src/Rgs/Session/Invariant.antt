-- ===== src/Rgs/Session/Invariant.antt =====
-- What holds of a session between two calls (server/rgs/session.go).
use marbles_game.Prelude.{
  List, Option, Str, [], arith, is_some, minus_one, negsuc, none, pos, refl, some, true, ℕ, ℤ, ◌∷◌,
  ◌≡◌,
}
use marbles_game.Rgs.Session.{
  Bet, Op, Session, SessionState, SettlementOutcome, apply, assign_marble, assigns, betting, close,
  closed, closes, new_session, opened, place_bet, places, racing, run, settle, settled, settles,
}

-- A marble index that has been assigned.
abbrev pub IsAssigned : ℤ → Type 0
IsAssigned (pos i) = Unit
IsAssigned (negsuc i) = ⊥

-- A bet is there exactly in BET and RACING, unassigned in BET and on a marble in RACING; SETTLED has
-- a last result.
abbrev pub Fits : SessionState → Option Bet → Option SettlementOutcome → Type 0
Fits opened bet last = bet ≡ none
Fits betting none last = ⊥
Fits betting (some b) last = b.marble_index ≡ minus_one
Fits racing none last = ⊥
Fits racing (some b) last = IsAssigned b.marble_index
Fits settled bet last = (bet ≡ none) × (is_some last ≡ true)
Fits closed bet last = bet ≡ none

abbrev pub Inv : Session → Type 0
Inv s = Fits s.state s.bet s.last_result

pub new_session-Inv : (id player : Str) (now : ℕ) → Inv (new_session id player now)
unfolding new_session
new_session-Inv id player now = refl

place_bet-Inv : (b : Bet) (now : ℕ) (s : Session) → Inv s → Inv (place_bet b now s).1
unfolding place_bet
place_bet-Inv b now s v = ground arith

assign_marble-Inv : (i now : ℕ) (s : Session) → Inv s → Inv (assign_marble i now s).1
unfolding assign_marble
assign_marble-Inv i now s v = ground arith

settle-Inv : (o : SettlementOutcome) (now : ℕ) (s : Session) → Inv s → Inv (settle o now s).1
unfolding settle
settle-Inv o now s v = ground arith

close-Inv : (now : ℕ) (s : Session) → Inv s → Inv (close now s).1
unfolding close
close-Inv now s v = ground arith

pub apply-Inv : (op : Op) (s : Session) → Inv s → Inv (apply op s).1
unfolding apply
apply-Inv (places b now) s v = place_bet-Inv b now s v
apply-Inv (assigns i now) s v = assign_marble-Inv i now s v
apply-Inv (settles o now) s v = settle-Inv o now s v
apply-Inv (closes now) s v = close-Inv now s v

pub run-Inv : (ops : List Op) (s : Session) → Inv s → Inv (run ops s)
unfolding run
run-Inv [] s v = v
run-Inv (op ∷ ops) s v = run-Inv ops (apply op s).1 (apply-Inv op s v)

-- After any calls on a new session, failed ones included, a bet is there exactly in BET and RACING,
-- it has no marble in BET and one in RACING, and SETTLED has a last result.
pub run-new_session-Inv :
    (id player : Str) (now : ℕ) (ops : List Op) → Inv (run ops (new_session id player now))
run-new_session-Inv id player now ops = run-Inv ops _ (new_session-Inv id player now)
