-- ===== src/Cmd/Roundd/Field.antt =====
-- The stages of one round of server/cmd/roundd/main.go: who starts, what the end of the race keeps, and what
-- the audit entry says.
use marbles_game.Prelude.{
  All, List, Str, [], ap, arith, length, length-replicate, map, ok, pos, refl, replicate,
  str_eq_inst, suc, u64_mod, zero, ℕ, ◌+◌, ◌<◌, ◌∙◌, ◌∷◌, ◌≡◌,
}
use marbles_game.Round
use marbles_game.Round.{
  Round, advance, buy_in, finish_race, new, open_buy_in, revealed_seed, start_race,
}
use marbles_game.Rtp
use marbles_game.Sim
use marbles_game.Rgs.RoundRun.Seats.{AllNamed, seat_all_lem, seats}
use marbles_game.Cmd.Roundd.{Config, Inputs, audit_entry, close_and_settle, players, start_round}
use marbles_game.Std.Hex.{hex_encode}
use marbles_game.Replay.FileSystem.{Manifest}
use marbles_game.Rgs.RoundRun.{store_participant}
use marbles_game.Rtp.Settlement.{IsWord, settle_conserves}

players-AllNamed : (i k : ℕ) → AllNamed (players i k)
players-AllNamed i zero = tt
players-AllNamed i (suc k) = (refl, players-AllNamed (i + 1) k)

length-players : (i k : ℕ) → length (players i k) ≡ k
length-players i zero = refl
length-players i (suc k) = ap suc (length-players (i + 1) k)

length-seats : (i : ℕ) (names : List Str) → length (seats i names) ≡ length names
length-seats i [] = refl
length-seats i (name ∷ names) = ap suc (length-seats (i + 1) names)

replicate-IsWord : (n b : ℕ) → b < u64_mod → All IsWord (replicate n b)
replicate-IsWord zero b h = tt
replicate-IsWord (suc n) b h = (h, replicate-IsWord n b h)

module _ (sha256 : Str → Str) where
  pub start_round_lem :
      (cfg : Config) (inp : Inputs) (seed : Str) (r : Round)
      → start_round sha256 cfg inp seed ≡ ok r
      → (r.participants ≡ seats 0 (players 0 cfg.marbles))
        × (r.server_seed ≡ seed)
        × (r.server_seed_hash ≡ sha256 seed)
  unfolding start_round open_buy_in advance new start_race
  start_round_lem cfg inp seed r e =
      let opened_round : Round = record (Round.new sha256 inp.round_id seed cfg.marbles inp.now) {
        phase = buy_in;
        phase_start = inp.now;
      } in
      let full =
        seat_all_lem (players 0 cfg.marbles) opened_round refl (players-AllNamed 0 cfg.marbles)
          (omega (arith, length-players 0 cfg.marbles)) in
      ground (arith, full)

  pub close_and_settle_lem :
      (cfg : Config) (inp : Inputs) (res : Sim.SimResult) (r r' : Round) (seed : Str)
      → close_and_settle sha256 cfg inp res r ≡ ok (r', seed)
      → (r'.participants ≡ r.participants)
        × (r'.server_seed_hash ≡ r.server_seed_hash)
        × (seed ≡ r.server_seed)
        × ((split : ℕ × ℕ) × (Rtp.settle
                (record { rtp_basis_points = cfg.rtp_bps })
                (replicate (length r.participants) cfg.buy_in)
                res.winner_marble_index
              ≡ ok split))
  unfolding close_and_settle finish_race revealed_seed advance
  close_and_settle_lem cfg inp res r r' seed e = ground arith

  -- What the audit entry of a round says.
  abbrev pub IsAudit : Config → Inputs → ℕ → Str → Manifest → Type 0
  IsAudit cfg inp track seed m =
      (m.track_id ≡ track)
      × (m.server_seed_hex ≡ hex_encode seed)
      × (m.server_seed_hash_hex ≡ hex_encode (sha256 seed))
      × (m.participants ≡ map store_participant (seats 0 (players 0 cfg.marbles)))
      × ((i : ℕ) × (m.winner.marble_index ≡ pos i) × (i < cfg.marbles))

  pub audit_entry-IsAudit :
      (cfg : Config) (inp : Inputs) (track : ℕ) (seed revealed : Str) (started closed_round : Round)
      (res : Sim.SimResult)
      → cfg.buy_in < u64_mod
      → start_round sha256 cfg inp seed ≡ ok started
      → close_and_settle sha256 cfg inp res started ≡ ok (closed_round, revealed)
      → IsAudit cfg inp track seed (audit_entry sha256 inp track closed_round revealed res)
  unfolding audit_entry
  audit_entry-IsAudit cfg inp track seed revealed started closed_round res word e h =
      let (seated, its_seed, committed) = start_round_lem cfg inp seed started e in
      let (kept, same_hash, shown, (split, settled)) =
        close_and_settle_lem cfg inp res started closed_round revealed h in
      let seats_of : length started.participants ≡ cfg.marbles =
        ap length seated ∙ length-seats 0 (players 0 cfg.marbles) ∙ length-players 0 cfg.marbles in
      let n = length started.participants in
      let conserved =
        settle_conserves (record { rtp_basis_points = cfg.rtp_bps }) (replicate n cfg.buy_in)
          res.winner_marble_index (replicate-IsWord n cfg.buy_in word) settled in
      let (i, winner, low) = conserved.3 in
      (
        refl,
        ap hex_encode (shown ∙ its_seed),
        ap hex_encode (same_hash ∙ committed),
        ap (map store_participant) (kept ∙ seated),
        (i, winner, omega (arith, seats_of, length-replicate n cfg.buy_in)),
      )
