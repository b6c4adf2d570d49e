-- ===== src/Rgs/RoundRun/Reports.antt =====
-- What a successful `RunNextRound` of server/rgs/manager.go reports and stores.
use marbles_game.Prelude.{str_eq_inst, Str, map, ok, pos, some, ◌≡◌}
use marbles_game.Replay
use marbles_game.Rgs.Wallet.{Wallet}
use marbles_game.Rgs.Money.{Floats}
use marbles_game.Rgs.Manager.{PendingRound, World}
use marbles_game.Rgs.RoundRun.{store_participant, to_seed}
use marbles_game.Rgs.RoundRun.Stages.{round_bet_outcome}
use marbles_game.Rgs.RoundRun.Whole.{Report}
use marbles_game.Std.Hex.{hex_decode, hex_encode}
use marbles_game.Rgs.RoundRun.Seats.{seats, starters}
use marbles_game.Rgs.RoundRun.Overfull.{bettors}

module _ (fl : Floats) (wal : Wallet) (sha256 : Str → Str) where
  open fl use {Float}

  -- What a successful round has reported, on the pre-minted round `pr`.
  abbrev pub Reported :
      PendingRound Float
      → World wal.State Float
      → Report fl wal sha256
      → World wal.State Float
      → Type 0
  Reported pr w (saved, outcomes, bos) w' =
      (saved.round_id ≡ pr.spec.round_id)
      × (saved.track_id ≡ pr.spec.track_id)
      × (w'.manager.prev_track ≡ pos pr.spec.track_id)
      × (saved.participants
          ≡ map store_participant
              (seats 0 (starters w.manager.cfg (bettors w.manager.pending w.manager.sessions))))
      × ((raw : Str) × (hex_decode pr.spec.server_seed_hex ≡ some raw)
          × (saved.server_seed_hex ≡ hex_encode (to_seed 32 raw))
          × (saved.server_seed_hash_hex ≡ hex_encode (sha256 (to_seed 32 raw))))
      × (bos ≡ map (λ rb. round_bet_outcome fl rb saved.winner.marble_index) pr.bets)
      × (Replay.load pr.spec.round_id w'.store ≡ ok saved)
      × (Replay.verify sha256 pr.spec.round_id w'.store ≡ ok tt)
