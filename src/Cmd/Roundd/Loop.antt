-- ===== src/Cmd/Roundd/Loop.antt =====
-- The loop of server/cmd/roundd/main.go over rounds: no track twice in a row.
use marbles_game.Prelude.{
  List, Result, Result-cases, Str, [], arith, err, get_or, inl, inr, ok, pos, refl, subst, suc, sym,
  zero, ℕ, ℤ, ◌<◌, ◌∙◌, ◌∷◌, ◌≡◌, ◌≢◌,
}
use marbles_game.Sim
use marbles_game.Rgs.Manager.{select_track}
use marbles_game.Rgs.Manager.Tracks.{AllDifferent, select_track_no_repeat}
use marbles_game.Cmd.Roundd.{
  Config, Error, Host, Inputs, next_track, pick_track, run_one_round, run_rounds,
  selectable_track_ids,
}
use marbles_game.Cmd.Roundd.Audit.{run_one_round_track}

-- `selectTrack` is the function of server/rgs/manager.go.
pick_track-select_track :
    (round_id : ℕ) (previous : ℤ) (pool : List ℕ)
    → pick_track round_id previous pool ≡ select_track pool round_id previous
unfolding pick_track select_track
pick_track-select_track round_id previous pool = refl

id_at : (i : ℕ) → i < 6 → get_or selectable_track_ids i 0 ≡ i
id_at zero h = refl
id_at (suc zero) h = refl
id_at (suc (suc zero)) h = refl
id_at (suc (suc (suc zero))) h = refl
id_at (suc (suc (suc (suc zero)))) h = refl
id_at (suc (suc (suc (suc (suc zero))))) h = refl
id_at (suc (suc (suc (suc (suc (suc i)))))) h = absurd (omega arith)

selectable-AllDifferent : AllDifferent selectable_track_ids
selectable-AllDifferent i j hi hj e = sym (id_at i hi) ∙ e ∙ id_at j hj

-- Every round that succeeded has another track than the last one before it that did.
abbrev pub NoRepeat : ℤ → List (Result Error ℕ) → Type 0
NoRepeat previous [] = Unit
NoRepeat previous (ok track ∷ rs) = (pos track ≢ previous) × NoRepeat (pos track) rs
NoRepeat previous (err e ∷ rs) = NoRepeat previous rs

module _ (sha256 : Str → Str) (text : Sim.Content → Str) where
  picks_another :
      (cfg : Config) (previous : ℤ) (inp : Inputs) (host : Host) (track : ℕ)
      → (run_one_round sha256 text cfg previous inp host).0 ≡ ok track
      → pos track ≢ previous
  picks_another cfg previous inp host track e =
      subst (λ t. pos t ≢ previous)
        (sym (
          run_one_round_track sha256 text cfg previous inp host track e
          ∙ pick_track-select_track inp.round_id previous selectable_track_ids))
        (select_track_no_repeat selectable_track_ids inp.round_id previous (omega arith)
          selectable-AllDifferent)

  -- Over any number of rounds, whichever of them fail, a round that succeeds never has the track of the
  -- last one before it that did, nor the one that the loop began with.
  pub run_rounds-NoRepeat :
      (cfg : Config) (previous : ℤ) (inps : List Inputs) (host : Host)
      → NoRepeat previous (run_rounds sha256 text cfg previous inps host).0
  unfolding run_rounds
  run_rounds-NoRepeat cfg previous [] host = tt
  run_rounds-NoRepeat cfg previous (inp ∷ inps) host =
      let (r, host') = run_one_round sha256 text cfg previous inp host in
      let goal : Result Error ℕ → Type 0 = λ q.
        NoRepeat previous
          (q ∷ (run_rounds sha256 text cfg (next_track sha256 text previous q) inps host').0) in
      elim (Result-cases r) [
        | inl (track, good) ↦ subst goal (sym good) (
          picks_another cfg previous inp host track good,
          run_rounds-NoRepeat cfg (pos track) inps host',
        )
        | inr (e, bad) ↦ subst goal (sym bad) (run_rounds-NoRepeat cfg previous inps host')
      ]
