-- ===== src/Rgs/RoundRun/Tests.antt =====
-- Whole rounds of `RunNextRound` (server/rgs/manager.go): one that succeeds, and one with more bettors
-- than marbles.
use marbles_game.Prelude.{
  Result, Str, [], arith, codes, false, is_ok, length, map, minus_one, negsuc, ok, pos, refl,
  replicate, some, str_eq, str_eq_inst, true, ℕ, ◌+◌, ◌∷◌, ◌≡◌, ◌≤◌,
}
use marbles_game.Round
use marbles_game.Rtp
use marbles_game.Rgs.Errors.{Error}
use marbles_game.Rgs.Wallet.{MockWallet, mock}
use marbles_game.Rgs.Manager.{PendingRound, RoundBet, World, place_session_bet}
use marbles_game.Rgs.RoundBets.{place_bet_on_round}
use marbles_game.Rgs.RoundBets.Tests.{bet, minted, numbers, seed_byte, with_round}
use marbles_game.Rgs.RoundRun.{Inputs, store_participant, to_seed}
use marbles_game.Rgs.RoundRun.Whole.{Report, run_next_round}
use marbles_game.Std.Hex.{hex_encode}
use marbles_game.Replay.FileSystem.{Manifest}
use marbles_game.Rgs.Session.{Bet, Session, SettlementOutcome, betting, new_session}
use marbles_game.Rgs.RoundRun.Seats.{seats}
use marbles_game.Rgs.RoundRun.Stages.{
  from_rtp, pending_sessions, round_bet_outcome, settle_round_bets,
}
use marbles_game.Prelude.Dict.{lookup}
use marbles_game.Rgs.Wallet.Accounts.{mock_lawful}
use marbles_game.Rgs.Manager.Tests.{ann, config}
use marbles_game.Rgs.RoundRun.Settling.{PaidOut, settle_round_bets_pays}
use marbles_game.Rgs.RoundRun.Marbles.{Decided}
use marbles_game.Rgs.RoundRun.Queue.{run_next_round_consumes}
use marbles_game.Rgs.RoundRun.Overfull.{LeftAlone, overfull_round_loses}
use marbles_game.Rgs.RoundRun.Stakes.{stake_of}
use marbles_game.Rgs.RoundRun.Winners.{run_next_round_winner}

-- The digest of the test is the input itself.
abbrev digest : Str → Str
digest s = s

abbrev pub inputs : Inputs
inputs = record {
  fresh_id = 77;
  fresh_seed = some seed_byte;
  now = 10;
  start = 11;
  finish = 12;
  settled_at = 13;
  stored_at = 14;
  sim = λ req. ok (record {
    round_id = req.round_id;
    winner_marble_index = pos 0;
    finish_tick = pos 700;
    replay_path = codes "r";
    server_seed_hash_hex = [];
    tick_rate_hz = pos 60;
  });
  files = λ path. some (codes "ticks");
  faults = record {
    stat = false;
    mkdir_temp = false;
    write_replay = false;
    write_manifest = false;
    rename = false;
  };
  suffix = codes "x";
}

abbrev pub marble_bet : RoundBet ℕ
marble_bet = record bet { marble_idx = pos 0 }

abbrev pub session_bet : Bet
session_bet = record {
  bet_id = codes "b1";
  amount = 30;
  player_id = codes "ann";
  placed_at = 5;
  marble_index = minus_one;
}

abbrev pub queued : Session
queued = record ann { state = betting; bet = some session_bet; updated_at = 5 }

abbrev pub round : PendingRound ℕ
round = record { spec = minted.0; bets = marble_bet ∷ [] }

-- A session bet and a bet on the pre-minted round.
abbrev pub ready : World MockWallet ℕ
ready = record {
  manager = record {
    cfg = config;
    sessions = (codes "s1", queued) ∷ [];
    pending = codes "s1" ∷ [];
    prev_track = pos 7;
    pending_rounds = round ∷ [];
    round_bets = (12, marble_bet ∷ []) ∷ [];
  };
  wallet = record {
    balances = (codes "ann", 870) ∷ [];
    applied = (codes "b1", negsuc 29) ∷ (codes "rb1", negsuc 99) ∷ [];
  };
  store = [];
}

abbrev ran : Result Error (Report numbers mock digest) × World MockWallet ℕ
ran = run_next_round numbers mock digest inputs ready

abbrev revealed : Str
revealed = hex_encode (to_seed 32 seed_byte)

abbrev saved : Manifest
saved = record {
  round_id = 12;
  created_at = 14;
  protocol_version = 3;
  tick_rate_hz = pos 60;
  track_id = 7;
  server_seed_hash_hex = revealed;
  server_seed_hex = revealed;
  participants =
      map store_participant (seats 0 (codes "ann" ∷ codes "filler_01" ∷ codes "filler_02" ∷ []));
  winner = record { marble_index = pos 0; finish_tick = pos 700 };
  replay_sha256_hex = hex_encode (codes "ticks");
}

abbrev session_outcome : SettlementOutcome
session_outcome = record {
  bet_id = codes "b1";
  player_id = codes "ann";
  amount = 30;
  won = true;
  prize_amount = 28;
  winner_index = pos 0;
  credit_tx_id = codes "b1:credit";
  settled_at = 13;
}

abbrev report : Report numbers mock digest
report = (
  saved,
  session_outcome ∷ [],
  map (λ rb. round_bet_outcome numbers rb (pos 0)) (marble_bet ∷ []),
)

-- 1000 units, less the stakes of 30 and 100, with the prize of 28 and the payout of 1900.
ends_well : (ran.0 ≡ ok report) × (ran.1.wallet.balances ≡ (codes "ann", 2798) ∷ [])
unfolding run_next_round marbles_game.Rgs.RoundRun.Stages.take_round place_bet_on_round
    place_session_bet marbles_game.Prelude.Dict.lookup marbles_game.Rgs.RoundBets.mint
    marbles_game.Prelude.str_eq marbles_game.Rgs.Wallet.debit marbles_game.Rgs.Wallet.credit
    marbles_game.Rgs.Wallet.credit_fresh marbles_game.Rgs.Wallet.balance
    marbles_game.Rgs.Session.new_session marbles_game.Rgs.Manager.new_manager
    marbles_game.Prelude.Dict.insert marbles_game.Std.Hex.hex_decode hex_encode
    marbles_game.Rgs.RoundRun.open_round Round.open_buy_in Round.new
    marbles_game.Rgs.RoundRun.Stages.pending_sessions Round.add_participant
    marbles_game.Prelude.Dict.delete marbles_game.Replay.save marbles_game.Replay.save_new
    marbles_game.Replay.stamp marbles_game.Replay.validate_manifest_for_save
    marbles_game.Replay.write_round marbles_game.Rgs.Manager.after_debit
    marbles_game.Rgs.Manager.finish_bet marbles_game.Rgs.Manager.on_session
    marbles_game.Rgs.Manager.select_track marbles_game.Rgs.Manager.with_defaults
    marbles_game.Rgs.RoundBets.append_bet marbles_game.Rgs.RoundBets.place_of
    marbles_game.Rgs.RoundBets.balance_after marbles_game.Rgs.RoundBets.check_bet
    marbles_game.Rgs.RoundBets.commit_bet marbles_game.Rgs.RoundBets.debited_bet
    marbles_game.Rgs.RoundBets.find_pending_round marbles_game.Rgs.RoundRun.Stages.assign_all
    marbles_game.Rgs.RoundRun.Stages.outcome_of marbles_game.Rgs.RoundRun.Stages.pay
    marbles_game.Rgs.RoundRun.Stages.persist round_bet_outcome
    marbles_game.Rgs.RoundRun.Stages.settle_all marbles_game.Rgs.RoundRun.Stages.settle_one
    marbles_game.Rgs.RoundRun.Stages.settle_round_bets marbles_game.Rgs.RoundRun.Whole.pay_out
    marbles_game.Rgs.RoundRun.Whole.race marbles_game.Rgs.RoundRun.Whole.race_with
    marbles_game.Rgs.RoundRun.Whole.run_race marbles_game.Rgs.RoundRun.close_round
    marbles_game.Rgs.RoundRun.make_manifest marbles_game.Rgs.RoundRun.seat_all
    marbles_game.Rgs.RoundRun.sim_request marbles_game.Rgs.Session.assign_marble
    marbles_game.Rgs.Session.place_bet marbles_game.Rgs.Session.settle
    marbles_game.Rgs.Wallet.debit_fresh marbles_game.Rgs.Wallet.replay Round.advance
    Round.finish_race Round.revealed_seed Round.start_race Rtp.pot_from Rtp.settle Rtp.settle_pot
    Rtp.split_pot marbles_game.Std.Decimal.digits_from marbles_game.Std.Decimal.format_uint
    marbles_game.Std.Fnv.big_endian marbles_game.Std.Fnv.fnv64a marbles_game.Std.Fnv.fnv_from
    marbles_game.Std.Hex.hex_digit marbles_game.Std.Hex.hex_value
ends_well = (refl, refl)

reached :
    let w = record with_round {
      wallet = record { balances = (codes "ann", 1000) ∷ []; applied = [] };
    } in
    let w1 = (place_session_bet mock (codes "b1") 5 (codes "s1") 30 w).1 in
    (place_bet_on_round numbers mock (codes "rb1") 8 12 (codes "ann") (pos 0) 1 w1).1 ≡ ready
unfolding run_next_round marbles_game.Rgs.RoundRun.Stages.take_round place_bet_on_round
    place_session_bet marbles_game.Prelude.Dict.lookup marbles_game.Rgs.RoundBets.mint
    marbles_game.Prelude.str_eq marbles_game.Rgs.Wallet.debit marbles_game.Rgs.Wallet.credit
    marbles_game.Rgs.Wallet.credit_fresh marbles_game.Rgs.Wallet.balance
    marbles_game.Rgs.Session.new_session marbles_game.Rgs.Manager.new_manager
    marbles_game.Prelude.Dict.insert marbles_game.Std.Hex.hex_decode hex_encode
    marbles_game.Rgs.RoundRun.open_round Round.open_buy_in Round.new
    marbles_game.Rgs.RoundRun.Stages.pending_sessions Round.add_participant
    marbles_game.Prelude.Dict.delete marbles_game.Replay.save marbles_game.Replay.save_new
    marbles_game.Replay.stamp marbles_game.Replay.validate_manifest_for_save
    marbles_game.Replay.write_round marbles_game.Rgs.Manager.after_debit
    marbles_game.Rgs.Manager.finish_bet marbles_game.Rgs.Manager.on_session
    marbles_game.Rgs.Manager.select_track marbles_game.Rgs.Manager.with_defaults
    marbles_game.Rgs.RoundBets.append_bet marbles_game.Rgs.RoundBets.place_of
    marbles_game.Rgs.RoundBets.balance_after marbles_game.Rgs.RoundBets.check_bet
    marbles_game.Rgs.RoundBets.commit_bet marbles_game.Rgs.RoundBets.debited_bet
    marbles_game.Rgs.RoundBets.find_pending_round marbles_game.Rgs.RoundRun.Stages.assign_all
    marbles_game.Rgs.RoundRun.Stages.outcome_of marbles_game.Rgs.RoundRun.Stages.pay
    marbles_game.Rgs.RoundRun.Stages.persist round_bet_outcome
    marbles_game.Rgs.RoundRun.Stages.settle_all marbles_game.Rgs.RoundRun.Stages.settle_one
    marbles_game.Rgs.RoundRun.Stages.settle_round_bets marbles_game.Rgs.RoundRun.Whole.pay_out
    marbles_game.Rgs.RoundRun.Whole.race marbles_game.Rgs.RoundRun.Whole.race_with
    marbles_game.Rgs.RoundRun.Whole.run_race marbles_game.Rgs.RoundRun.close_round
    marbles_game.Rgs.RoundRun.make_manifest marbles_game.Rgs.RoundRun.seat_all
    marbles_game.Rgs.RoundRun.sim_request marbles_game.Rgs.Session.assign_marble
    marbles_game.Rgs.Session.place_bet marbles_game.Rgs.Session.settle
    marbles_game.Rgs.Wallet.debit_fresh marbles_game.Rgs.Wallet.replay Round.advance
    Round.finish_race Round.revealed_seed Round.start_race Rtp.pot_from Rtp.settle Rtp.settle_pot
    Rtp.split_pot marbles_game.Std.Decimal.digits_from marbles_game.Std.Decimal.format_uint
    marbles_game.Std.Fnv.big_endian marbles_game.Std.Fnv.fnv64a marbles_game.Std.Fnv.fnv_from
    marbles_game.Std.Hex.hex_digit marbles_game.Std.Hex.hex_value
reached = refl

run_next_round_consumes_example : ran.1.manager.pending ≡ []
run_next_round_consumes_example = (run_next_round_consumes numbers mock digest inputs ready).0

run_next_round_winner_example :
    (prize : ℕ) × (from_rtp (
        Rtp.settle
          (record { rtp_basis_points = config.rtp_bps })
          (replicate config.max_marbles config.buy_in)
          (pos 0))
      ≡ ok prize)
    × Decided (pos 0) prize 0 (session_outcome ∷ [])
    × (some (codes "b1", codes "ann", 30) ∷ []
        ≡ map (stake_of ready.manager.sessions) ready.manager.pending)
    × (length (session_outcome ∷ []) ≡ 1)
    × (28 + 0 ≤ prize)
run_next_round_winner_example =
    run_next_round_winner numbers mock digest inputs ready saved (session_outcome ∷ [])
      (map (λ rb. round_bet_outcome numbers rb (pos 0)) (marble_bet ∷ [])) (tt, tt) ends_well.0

settle_round_bets_pays_example :
    PaidOut numbers mock mock_lawful
      (pos 0)
      (marble_bet ∷ [])
      ready
      (settle_round_bets numbers mock (pos 0) (marble_bet ∷ []) ready)
unfolding lookup str_eq
settle_round_bets_pays_example =
    settle_round_bets_pays numbers mock mock_lawful (pos 0) (marble_bet ∷ []) ready (refl, tt, tt)
      (λ q. ground arith)

-- Two bettors for one marble.
abbrev crowded : World MockWallet ℕ
crowded = record ready {
  manager = record (ready.manager) {
    cfg = record config { max_marbles = 1 };
    pending = codes "s1" ∷ codes "s2" ∷ [];
    sessions = (codes "s1", queued) ∷ (codes "s2", record queued { id = codes "s2" }) ∷ [];
  };
}

overfull_round_loses_example :
    let (r, w) = run_next_round numbers mock digest inputs crowded in
    (is_ok r ≡ false) × LeftAlone numbers mock digest crowded w × (w.manager.pending ≡ [])
unfolding pending_sessions lookup str_eq new_session
overfull_round_loses_example =
    overfull_round_loses numbers mock digest inputs crowded (refl, (refl, tt)) (omega arith)
