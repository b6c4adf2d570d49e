-- ===== src/Rgs/RoundBets/Minting.antt =====
-- `GenerateRoundSpec` of server/rgs/manager.go.
use marbles_game.Prelude.{
  All, List, Str, [], arith, length, length-replicate, nat_eq, none, ok, pos, refl, some,
  str_eq_inst, ℕ, ◌++◌, ◌∷◌, ◌≡◌, ◌≢◌, ◌≤◌,
}
use marbles_game.Prelude.Dict.{beq_self, lookup-insert}
use marbles_game.Std.Hex.{IsByte, decode-encode, hex_decode}
use marbles_game.Rgs.Manager.{Manager, PendingRound, RoundBet}
use marbles_game.Rgs.Manager.Tracks.{AllDifferent, select_track_no_repeat}
use marbles_game.Rgs.RoundBets.{bets_for_round, find_pending_round, mint}

module _ {F : Type 0} where
  find-append :
      (id : ℕ) (pr : PendingRound F) (prs : List (PendingRound F))
      → find_pending_round id prs ≡ none
      → pr.spec.round_id ≡ id
      → find_pending_round id (prs ++ pr ∷ []) ≡ some pr
  unfolding find_pending_round
  find-append id pr [] h e = ground arith
  find-append id pr (q ∷ prs) h e = ground (arith, find-append id pr prs)

  -- A minted round, under an id that no pending round has: it is the last pending round and the one
  -- that bets under its id find, it has no bets yet, the seed that its spec carries is the one that was
  -- drawn, and its track differs from the one before if the pool has two tracks or more, all different.
  pub mint_bettable :
      (round_id : ℕ) (seed : Str) (m : Manager F)
      → find_pending_round round_id m.pending_rounds ≡ none
      → All IsByte seed
      → 2 ≤ length m.cfg.track_pool
      → AllDifferent m.cfg.track_pool
      → let (spec, m') = mint round_id seed m in
        (m'.pending_rounds ≡ m.pending_rounds ++ record { spec = spec; bets = [] } ∷ [])
        × (find_pending_round round_id m'.pending_rounds ≡ some (record { spec = spec; bets = [] }))
        × (bets_for_round round_id [] m' ≡ ok [])
        × (hex_decode spec.server_seed_hex ≡ some seed)
        × (length spec.client_seeds ≡ m.cfg.max_marbles)
        × (pos spec.track_id ≢ m.prev_track)
        × (m'.prev_track ≡ pos spec.track_id)
  unfolding mint bets_for_round
  mint_bettable round_id seed m free bytes two different =
      let (spec, m') = mint round_id seed m in
      let pr : PendingRound F = record { spec = spec; bets = [] } in
      (
        refl,
        find-append round_id pr m.pending_rounds free refl,
        ground (
          arith,
          lookup-insert {V = List (RoundBet F)} round_id round_id [] m.round_bets,
          beq_self round_id,
        ),
        decode-encode seed bytes,
        length-replicate m.cfg.max_marbles [],
        select_track_no_repeat m.cfg.track_pool round_id m.prev_track two different,
        refl,
      )
