-- ===== src/Rgs/Session.antt =====
-- server/rgs/session.go: one player's session, OPEN → BET → RACING → SETTLED → … → CLOSED.
-- `now` is the clock that a method reads.
pub mod States
pub mod Invariant
mod Tests
use marbles_game.Prelude.{
  Bool, Exec, List, Option, Str, [], codes, err, if◌then◌else◌, is_some, minus_one, none, not, ok,
  pos, some, ℕ, ℤ, ◌&&◌, ◌==◌, ◌||◌, ◌∷◌,
}
use marbles_game.Rgs.Errors.{Error, bet_exists, no_bet, sentinel, session_closed, wrap, wrong_state}

pub data SessionState : Type 0 where
  opened betting racing settled closed : SessionState

abbrev pub state_rank : SessionState → ℕ
state_rank opened = 0
state_rank betting = 1
state_rank racing = 2
state_rank settled = 3
state_rank closed = 4

abbrev pub state_eq : SessionState → SessionState → Bool
state_eq s t = state_rank s == state_rank t

-- `SessionState.String`
unfoldable pub state_string : SessionState → Str
state_string opened = codes "OPEN"
state_string betting = codes "BET"
state_string racing = codes "RACING"
state_string settled = codes "SETTLED"
state_string closed = codes "CLOSED"

pub record Bet : Type 0 where
  pub bet_id : Str
  pub amount : ℕ  -- uint64
  pub player_id : Str
  pub placed_at : ℕ
  pub marble_index : ℤ  -- -1 until the race starts

pub record SettlementOutcome : Type 0 where
  pub bet_id : Str
  pub player_id : Str
  pub amount : ℕ
  pub won : Bool
  pub prize_amount : ℕ
  pub winner_index : ℤ
  pub credit_tx_id : Str
  pub settled_at : ℕ

pub record Session : Type 0 where
  pub id : Str
  pub player_id : Str
  pub state : SessionState
  pub opened_at : ℕ
  pub updated_at : ℕ
  pub bet : Option Bet
  pub last_result : Option SettlementOutcome

-- `PlaceBet`
unfoldable pub place_bet : Bet → ℕ → Exec Error Session (Unit {0})
place_bet b now s =
    if state_eq s.state closed
    then (err (sentinel session_closed), s)
    else if not (state_eq s.state opened) && not (state_eq s.state settled)
    then (err (wrap (sentinel wrong_state)), s)
    else if is_some s.bet
    then (err (sentinel bet_exists), s)
    else (
      ok tt,
      record s {
        bet = some (record b { marble_index = minus_one });
        state = betting;
        updated_at = now;
      },
    )

-- `AssignMarble`
unfoldable pub assign_marble : ℕ → ℕ → Exec Error Session (Unit {0})
assign_marble index now s =
    if not (state_eq s.state betting) then (err (wrap (sentinel wrong_state)), s) else elim s.bet [
      | none ↦ (err (sentinel no_bet), s)
      | some b ↦ (
        ok tt,
        record s {
          bet = some (record b { marble_index = pos index });
          state = racing;
          updated_at = now;
        },
      )
    ]

-- `Settle`
unfoldable pub settle : SettlementOutcome → ℕ → Exec Error Session (Unit {0})
settle outcome now s =
    if not (state_eq s.state racing) then (err (wrap (sentinel wrong_state)), s) else (
      ok tt,
      record s { last_result = some outcome; bet = none; state = settled; updated_at = now },
    )

-- `Close`
unfoldable pub close : ℕ → Exec Error Session (Unit {0})
close now s =
    if state_eq s.state betting || state_eq s.state racing
    then (err (wrap (sentinel wrong_state)), s)
    else (ok tt, record s { state = closed; updated_at = now })

-- `Snapshot`: the deep copies are the values.
abbrev pub snapshot : Session → SessionState × Option Bet × Option SettlementOutcome
snapshot s = (s.state, s.bet, s.last_result)

-- What `OpenSession` of server/rgs/manager.go makes.
unfoldable pub new_session : Str → Str → ℕ → Session
new_session id player now = record {
  id = id;
  player_id = player;
  state = opened;
  opened_at = now;
  updated_at = now;
  bet = none;
  last_result = none;
}

pub data Op : Type 0 where
  places : Bet → ℕ → Op
  assigns : ℕ → ℕ → Op
  settles : SettlementOutcome → ℕ → Op
  closes : ℕ → Op

unfoldable pub apply : Op → Exec Error Session (Unit {0})
unfolding place_bet assign_marble settle close
apply (places b now) = place_bet b now
apply (assigns i now) = assign_marble i now
apply (settles o now) = settle o now
apply (closes now) = close now

unfoldable pub run : List Op → Session → Session
run [] s = s
run (op ∷ ops) s = run ops (apply op s).1
