-- ===== src/Cmd/Roundd/Audit.antt =====
-- What a round of server/cmd/roundd/main.go that succeeds leaves in the store,
-- and what it answers.
use marbles_game.Prelude.{
  Option, Option-cases, Result, Result-cases, Str, ap, err, inl, inr, none, ok, refl, some,
  str_eq_inst, subst, sym, ℕ, ℤ, ◌∙◌, ◌≡◌,
}
use marbles_game.Round.{Round}
use marbles_game.Sim
use marbles_game.Replay
use marbles_game.Cmd.Roundd.{
  Config, Error, Host, Inputs, after_sim, audit_entry, close_and_settle, pick_track, request,
  run_one_round, save_audit, selectable_track_ids, start_round,
}
use marbles_game.Prelude.Dict.{lookup}
use marbles_game.Replay.FileSystem.{Manifest}

module _ (sha256 : Str → Str) where
  module _ (text : Sim.Content → Str) where
    -- The save with which a successful round ends.
    abbrev Saved : Inputs → ℕ → Manifest → Host → ℕ → Result Error ℕ × Host → Type 0
    Saved inp track m host t (r, host') =
        (t ≡ track)
        × ((replay : Str) × (m' : Manifest) × (let saved =
                Replay.save sha256 inp.faults inp.suffix inp.stored_at m replay host.root in
              (saved.0 ≡ ok m') × (host'.root ≡ saved.1)))

    save_audit_lem :
        (inp : Inputs) (track t : ℕ) (m : Manifest) (o : Option Sim.Content) (host : Host)
        → (save_audit sha256 text inp track m o host).0 ≡ ok t
        → Saved inp track m host t (save_audit sha256 text inp track m o host)
    unfolding save_audit
    save_audit_lem inp track t m none host e = cc e
    save_audit_lem inp track t m (some content) host e =
        let saved =
          Replay.save sha256 inp.faults inp.suffix inp.stored_at m (text content) host.root in
        elim (Result-cases saved.0) [
          | inl (m', good) ↦ (cc (rw (save_audit, good) at e), (text content, m', (good, refl)))
          | inr (x, bad) ↦ cc (rw (save_audit, bad) at e)
        ]

    after_sim_lem :
        (cfg : Config) (inp : Inputs) (track t : ℕ) (r : Round)
        (raced : Result Sim.Error Sim.SimResult) (host : Host)
        → (after_sim sha256 text cfg inp track r raced host).0 ≡ ok t
        → (res : Sim.SimResult) × (closed_round : Round) × (revealed : Str) × (close_and_settle
              sha256 cfg inp res r
            ≡ ok (closed_round, revealed))
          × Saved inp track
              (audit_entry sha256 inp track closed_round revealed res)
              host
              t
              (after_sim sha256 text cfg inp track r raced host)
    unfolding after_sim
    after_sim_lem cfg inp track t r (err x) host e = cc e
    after_sim_lem cfg inp track t r (ok res) host e =
        elim (Result-cases (close_and_settle sha256 cfg inp res r)) [
          | inr (x, bad) ↦ cc (rw (after_sim, bad) at e)
          | inl ((closed_round, revealed), good) ↦
              let m = audit_entry sha256 inp track closed_round revealed res in
              let o = lookup res.replay_path host.files in
              (
                res,
                closed_round,
                revealed,
                good,
                subst (Saved inp track m host t) {x = save_audit sha256 text inp track m o host}
                    {y = after_sim sha256 text cfg inp track r (ok res) host}
                    (sym (rw (after_sim, good) refl))
                    (save_audit_lem inp track t m o host (rw (after_sim, good) at e)),
              )
        ]

    -- A round that succeeds has drawn its seed, started, and gone on after the simulator.
    pub run_one_round_lem :
        (cfg : Config) (previous : ℤ) (inp : Inputs) (host : Host) (track : ℕ)
        → (run_one_round sha256 text cfg previous inp host).0 ≡ ok track
        → let picked = pick_track inp.round_id previous selectable_track_ids in
          (seed : Str) × (r : Round) × (raced : Result Sim.Error Sim.SimResult)
          × (files : Sim.Files) × (inp.seed ≡ some seed)
          × (start_round sha256 cfg inp seed ≡ ok r)
          × (run_one_round sha256 text cfg previous inp host
              ≡ after_sim sha256 text cfg inp picked r raced (record host { files = files }))
    unfolding run_one_round
    run_one_round_lem cfg previous inp host track e = elim (Option-cases inp.seed) [
      | inl no_seed ↦ cc (rw (run_one_round, no_seed) at e)
      | inr (seed, drawn) ↦ elim (Result-cases (start_round sha256 cfg inp seed)) [
        | inr (x, bad) ↦ cc (rw (run_one_round, drawn, bad) at e)
        | inl (r, started) ↦
            let picked = pick_track inp.round_id previous selectable_track_ids in
            let (raced, files) =
              Sim.run inp.godot inp.sim_faults (request sha256 cfg inp picked seed r) host.files in
            (seed, r, raced, files, drawn, started, rw (run_one_round, drawn, started) refl)
      ]
    ]

    -- It answers the track that it picked.
    pub run_one_round_track :
        (cfg : Config) (previous : ℤ) (inp : Inputs) (host : Host) (track : ℕ)
        → (run_one_round sha256 text cfg previous inp host).0 ≡ ok track
        → track ≡ pick_track inp.round_id previous selectable_track_ids
    run_one_round_track cfg previous inp host track e =
        let picked = pick_track inp.round_id previous selectable_track_ids in
        let (seed, r, raced, files, drawn, started, ran) =
          run_one_round_lem cfg previous inp host track e in
        let (res, closed_round, revealed, closed, (same, rest)) =
          after_sim_lem cfg inp picked track r raced (record host { files = files })
            (sym (ap (λ p. p.0) ran) ∙ e) in
        same
