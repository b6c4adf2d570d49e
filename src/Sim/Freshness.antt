-- ===== src/Sim/Freshness.antt =====
-- Stale files of an earlier run are never taken for a result (server/sim/invoker.go).
use marbles_game.Prelude.{
  Bool, Bool-cases, Option, Result-cases, Str, ap, append-cancel, arith, codes, false, inl, inr,
  is_ok, length, none, ok, refl, some, str_eq_inst, sym, true, ◌++◌, ◌≡◌, ◌≢◌,
}
use marbles_game.Prelude.Dict.{beq_ne, beq_self, insert, lookup, lookup-delete, lookup-insert}
use marbles_game.Sim.{
  Content, Faults, Files, Godot, Request, SimResult, StatusFile, bytes, clear_stale, join, prepare,
  read_status, remove, replay_path, result_of, run, spec, spec_of, spec_path, status, status_path,
}

-- Two paths in one directory differ.
join-ne : (d s t : Str) → s ≢ t → join d s ≢ join d t
join-ne d s t ne e =
    ne (append-cancel (codes "/") s t (append-cancel d (codes "/" ++ s) (codes "/" ++ t) e))

status-ne-spec : (req : Request) → status_path req ≢ spec_path req
status-ne-spec req =
    join-ne req.work_dir (codes "status.json") (codes "spec.json")
      (λ e. absurd (omega (arith, ap length e)))

-- The status file is still gone after the replay was removed, or could not be, and the spec was written.
gone :
    (a b c : Str) (v : Content) (fails : Bool) (m : Files)
    → b ≢ a
    → lookup b m ≡ none
    → lookup b (insert a v (remove fails c m)) ≡ none
gone a b c v fails m ba none_there =
    rw (lookup-insert a b v (remove fails c m), beq_ne a b (λ e. ba (sym e)))
      (elim (Bool-cases fails) [
        | inl kept ↦ rw kept none_there
        | inr removed ↦ ground (arith, removed, lookup-delete c b m, none_there)
      ])

-- Where the status file could be removed, the subprocess finds the spec of this request and no status.
pub prepare_clean :
    (faults : Faults) (req : Request) (files : Files)
    → faults.remove_status ≡ false
    → (lookup (status_path req) (prepare faults req files) ≡ none)
      × (lookup (spec_path req) (prepare faults req files) ≡ some (spec (spec_of req)))
unfolding prepare clear_stale
prepare_clean faults req files removed =
    let cleared : lookup (status_path req) (remove faults.remove_status (status_path req) files)
        ≡ none =
      rw (
        removed,
        lookup-delete (status_path req) (status_path req) files,
        beq_self (status_path req),
      ) in
    (
      gone (spec_path req) (status_path req) (replay_path req) (spec (spec_of req))
          faults.remove_replay (remove faults.remove_status (status_path req) files)
          (status-ne-spec req) cleared,
      rw (
        lookup-insert (spec_path req) (spec_path req) (spec (spec_of req))
            (clear_stale faults req files),
        beq_self (spec_path req),
      ),
    )

status_of :
    (fails : Bool) (c : Option Content) (res : SimResult)
    → result_of (read_status fails c) ≡ ok res
    → (s : StatusFile) × (c ≡ some (status s))
      × (s.is_done ≡ true)
      × (res.winner_marble_index ≡ s.winner_marble_index)
      × (res.replay_path ≡ s.replay_path)
unfolding result_of read_status
status_of fails none res h = cc
status_of true (some c) res h = cc
status_of false (some (spec s)) res h = cc
status_of false (some (bytes b)) res h = cc
status_of false (some (status s)) res h = (s, refl, ground arith, ground arith, ground arith)

run_ok :
    (godot : Godot) (faults : Faults) (req : Request) (files : Files) (res : SimResult)
    → (run godot faults req files).0 ≡ ok res
    → let (exited, after) = godot (prepare faults req files) in
      (exited ≡ true)
      × (result_of (read_status faults.read_status (lookup (status_path req) after)) ≡ ok res)
unfolding run
run_ok godot faults req files res h = ground arith

-- Where the removal of the status of an earlier run did not fail, a run that succeeds reports what
-- the subprocess itself wrote: it found no status, exited with zero, and left a status marked ok with
-- this winner. A subprocess that leaves the files as it found them makes no result, whatever the
-- directory held before.
pub run_fresh :
    (godot : Godot) (faults : Faults) (req : Request) (files : Files)
    → faults.remove_status ≡ false
    → let found = prepare faults req files in
      (lookup (status_path req) found ≡ none)
      × ((res : SimResult)
          → (run godot faults req files).0 ≡ ok res
          → (s : StatusFile) × ((godot found).0 ≡ true)
            × (lookup (status_path req) (godot found).1 ≡ some (status s))
            × (s.is_done ≡ true)
            × (res.winner_marble_index ≡ s.winner_marble_index)
            × (res.replay_path ≡ s.replay_path))
      × ((godot found).1 ≡ found → is_ok (run godot faults req files).0 ≡ false)
run_fresh godot faults req files removed = (
  (prepare_clean faults req files removed).0,
  λ res h.
      let (exited, good) = run_ok godot faults req files res h in
      let (s, wrote, done, winner, path) = status_of faults.read_status _ res good in
      (s, exited, wrote, done, winner, path),
  λ idle. elim (Result-cases (run godot faults req files).0) [
    | inr (e, failed) ↦ rw failed
    | inl (res, done) ↦
        let (_, good) = run_ok godot faults req files res done in
        let (s, wrote, _, _, _) = status_of faults.read_status _ res good in
        let nothing : lookup (status_path req) (godot (prepare faults req files)).1 ≡ none =
          rw idle (prepare_clean faults req files removed).0 in
        cc (wrote, nothing)
  ],
)
