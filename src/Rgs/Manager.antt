-- ===== src/Rgs/Manager.antt =====
-- server/rgs/manager.go: the manager's state, sessions and their bets. `RunNextRound` is in
-- Rgs/RoundRun.antt and the bets on pre-minted rounds are in Rgs/RoundBets.antt.
-- A `*Session` is represented by its id in the session table: `OpenSession` makes each session under
-- a new random id and enters it there. What the code reads from the clock and from crypto/rand is an
-- argument. Each method holds the lock wherever it touches the state, and is one step.
pub mod Tracks
pub mod Betting
pub mod Tests
use marbles_game.Prelude.{
  Exec, List, Option, Result, Str, [], codes, eqb_ℤ, err, get_or, if◌then◌else◌, is_empty, leb,
  length, minus_one, nat_eq, none, ok, pos, some, str_eq_inst, ℕ, ℤ, ◌%◌, ◌++◌, ◌+◌, ◌==◌, ◌∷◌,
}
use marbles_game.Prelude.Dict.{Dict, insert, lookup}
use marbles_game.Std.Fnv.{fnv64a}
use marbles_game.Rgs.Errors.{Error, empty_player_id, reason, unknown_session, wrap, zero_amount}
use marbles_game.Rgs.Session.{Bet, Session, close, new_session, place_bet}
use marbles_game.Rgs.Wallet.{Wallet}
use marbles_game.Replay.FileSystem.{Root}

pub record ManagerConfig : Type 0 where
  pub godot_bin : Str
  pub project_path : Str
  pub work_root : Str
  pub buy_in : ℕ  -- uint64
  pub rtp_bps : ℕ  -- uint32
  pub max_marbles : ℕ  -- int: a negative value is treated as 0 is
  pub sim_timeout : ℕ
  pub track_pool : List ℕ  -- uint8

pub record RoundBet (F : Type 0) : Type 0 where
  pub bet_id : Str
  pub player_id : Str
  pub round_id : ℕ
  pub marble_idx : ℤ
  pub amount : F
  pub placed_at : ℕ

pub record RoundSpec : Type 0 where
  pub round_id : ℕ
  pub server_seed_hex : Str
  pub track_id : ℕ
  pub client_seeds : List Str

pub record PendingRound (F : Type 0) : Type 0 where
  pub spec : RoundSpec
  pub bets : List (RoundBet F)

pub record Manager (F : Type 0) : Type 0 where
  pub cfg : ManagerConfig
  pub sessions : Dict Str Session
  pub pending : List Str  -- ids of the queued sessions
  pub prev_track : ℤ
  pub pending_rounds : List (PendingRound F)
  pub round_bets : Dict ℕ (List (RoundBet F))

-- The manager with the wallet and the store that it calls.
pub record World (W F : Type 0) : Type 0 where
  pub manager : Manager F
  pub wallet : W
  pub store : Root

-- `NewManager`, past its checks that wallet, store and simulator are there.
unfoldable pub with_defaults : ManagerConfig → ManagerConfig
with_defaults cfg = record cfg {
  max_marbles = if leb cfg.max_marbles 0 then 20 else cfg.max_marbles;
  sim_timeout = if cfg.sim_timeout == 0 then 60000000000 else cfg.sim_timeout;
  track_pool = if leb (length cfg.track_pool) 0 then 0 ∷ 1 ∷ 2 ∷ 3 ∷ 4 ∷ 5 ∷ [] else cfg.track_pool;
}

-- `selectTrack`. The pool is not empty.
unfoldable pub select_track : List ℕ → ℕ → ℤ → ℕ
select_track pool round_id previous =
    if length pool == 1
    then get_or pool 0 0
    else (let candidate = fnv64a round_id % length pool in
        if eqb_ℤ (pos (get_or pool candidate 0)) previous
        then get_or pool ((candidate + 1) % length pool) 0
        else get_or pool candidate 0)

module _ {F : Type 0} where
  unfoldable pub new_manager : ManagerConfig → Manager F
  unfolding with_defaults
  new_manager cfg = record {
    cfg = with_defaults cfg;
    sessions = [];
    pending = [];
    prev_track = minus_one;
    pending_rounds = [];
    round_bets = [];
  }

  -- `OpenSession`
  unfoldable pub open_session : Str → ℕ → Str → Exec Error (Manager F) Session
  unfolding new_session
  open_session id now player m =
      if is_empty player
      then (err (reason empty_player_id), m)
      else (let s = new_session id player now in
          (ok s, record m { sessions = insert id s m.sessions }))

  -- `Session`
  abbrev pub session : Str → Manager F → Option Session
  session id m = lookup id m.sessions

-- A method call on the session that a pointer names. Every pointer names one.
module _ {W F : Type 0} where
  unfoldable pub on_session {ℓ} :
      {A : Type ℓ} → Str → Exec Error Session A → Exec Error (World W F) A
  on_session id call w = elim (lookup id w.manager.sessions) [
    | none ↦ (err (reason unknown_session), w)
    | some s ↦
        let (r, s') = call s in
        (
          r,
          record w { manager = record (w.manager) { sessions = insert id s' w.manager.sessions } },
        )
  ]

  -- `CloseSession`
  unfoldable pub close_session : ℕ → Str → Exec Error (World W F) (Unit {0})
  unfolding on_session close
  close_session now id = on_session id (close now)

  abbrev pub enqueue : Str → World W F → World W F
  enqueue id w = record w {
    manager = record (w.manager) { pending = w.manager.pending ++ id ∷ [] };
  }

abbrev pub refund_id : Str → Str
refund_id bet_id = bet_id ++ codes ":refund"

module _ (wal : Wallet) {F : Type 0} where
  abbrev pub on_wallet {ℓ} :
      {A : Type ℓ} → Exec Error wal.State A → Exec Error (World wal.State F) A
  on_wallet call w = let (r, s') = call w.wallet in (r, record w { wallet = s' })

  -- How `PlaceBet` ends: a session that refuses the bet gets the money back.
  unfoldable pub finish_bet :
      Str → Str → Bet → Result Error (Unit {0}) → Exec Error (World wal.State F) Bet
  finish_bet id player bet (ok done) w = (ok bet, enqueue id w)
  finish_bet id player bet (err e) w =
      (err (wrap e), (on_wallet (wal.credit player bet.amount (refund_id bet.bet_id)) w).1)

  -- What follows the debit in `PlaceBet`.
  unfoldable pub after_debit :
      Str → Bet → ℕ → Result Error (Unit {0}) → Exec Error (World wal.State F) Bet
  unfolding place_bet on_session finish_bet
  after_debit id bet now (err e) w = (err (wrap e), w)
  after_debit id bet now (ok done) w =
      let (r, w') = on_session id (place_bet bet now) w in finish_bet id bet.player_id bet r w'

  -- `PlaceBet`
  unfoldable pub place_session_bet : Str → ℕ → Str → ℕ → Exec Error (World wal.State F) Bet
  unfolding after_debit
  place_session_bet bet_id now id amount w = elim (lookup id w.manager.sessions) [
    | none ↦ (err (reason unknown_session), w)
    | some s ↦
        if amount == 0
        then (err (reason zero_amount), w)
        else (let bet : Bet = record {
          bet_id = bet_id;
          amount = amount;
          player_id = s.player_id;
          placed_at = now;
          marble_index = pos 0;
        } in
            let (r, w') = on_wallet (wal.debit s.player_id amount bet_id) w in
            after_debit id bet now r w')
  ]
