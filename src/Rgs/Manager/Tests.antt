-- ===== src/Rgs/Manager/Tests.antt =====
-- A manager with a queue, a pre-minted round and a wallet, and bets on it (server/rgs/manager.go).
use marbles_game.Prelude.{[], arith, codes, false, is_ok, refl, str_eq, str_eq_inst, ℕ, ◌∷◌, ◌≡◌}
use marbles_game.Prelude.Dict.{insert, lookup}
use marbles_game.Rgs.Session.{Session, new_session, place_bet}
use marbles_game.Rgs.Wallet.{MockWallet, credit, debit, mock}
use marbles_game.Rgs.Wallet.Accounts.{mock_lawful}
use marbles_game.Rgs.Manager.{ManagerConfig, World, new_manager, place_session_bet, with_defaults}
use marbles_game.Rgs.Manager.Betting.{BetPlaced, InRange, place_session_bet_safe}

abbrev pub config : ManagerConfig
config = with_defaults (record {
  godot_bin = codes "godot";
  project_path = codes "p";
  work_root = codes "w";
  buy_in = 10;
  rtp_bps = 9500;
  max_marbles = 3;
  sim_timeout = 0;
  track_pool = 4 ∷ 7 ∷ [];
})

abbrev pub ann : Session
ann = new_session (codes "s1") (codes "ann") 1

abbrev pub world : World MockWallet ℕ
world = record {
  manager = record (new_manager config) { sessions = (codes "s1", ann) ∷ [] };
  wallet = record { balances = (codes "ann", 100) ∷ []; applied = [] };
  store = [];
}

-- Nobody has 2^64 units.
pub in_range : InRange mock mock_lawful world.wallet
unfolding lookup
in_range q = ground arith

place_session_bet_safe_example :
    BetPlaced mock mock_lawful
      (codes "s1")
      30
      world
      (place_session_bet mock (codes "b1") 5 (codes "s1") 30 world)
unfolding lookup insert str_eq
place_session_bet_safe_example =
    place_session_bet_safe mock mock_lawful (codes "b1") 5 (codes "s1") 30 world (refl, refl)
      in_range

-- A second bet is refused after the debit, and refunded.
second_bet :
    let w = (place_session_bet mock (codes "b1") 5 (codes "s1") 30 world).1 in
    let (r, w') = place_session_bet mock (codes "b2") 6 (codes "s1") 30 w in
    (is_ok r ≡ false) × (w'.wallet.balances ≡ (codes "ann", 70) ∷ [])
unfolding place_session_bet lookup insert str_eq new_session new_manager debit credit place_bet
second_bet = (refl, refl)
