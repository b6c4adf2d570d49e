-- ===== src/Replay/Tests.antt =====
-- Runs of server/replay/store.go over a small store; the digest of these runs is the text itself.
use marbles_game.Prelude.{
  List, Str, [], ap, arith, codes, err, false, get_or, none, ok, pos, refl, some, str_eq,
  str_eq_inst, true, ◌∷◌, ◌≡◌,
}
use marbles_game.Prelude.Dict.{delete, insert, lookup}
use marbles_game.Std.Decimal.{format_uint, parse_uint}
use marbles_game.Std.Hex.{hex_encode}
use marbles_game.Std.Sort.{sort}
use marbles_game.Replay.FileSystem.{Manifest, Root, dir, file, json}
use marbles_game.Replay.{
  Faults, checksum_mismatch, list, load, round_dir, round_exists, save, stamp, verify,
}
use marbles_game.Replay.Saving.{save_stores}
use marbles_game.Replay.Integrity.{Attempt, save_all, save_all_keeps, verify_tampered}

abbrev plain : Str → Str
plain s = s

abbrev healthy : Faults
healthy = record {
  stat = false;
  mkdir_temp = false;
  write_replay = false;
  write_manifest = false;
  rename = false;
}

abbrev full_disk : Faults
full_disk = record healthy { write_manifest = true }

abbrev manifest : Manifest
manifest = record {
  round_id = 42;
  created_at = 0;
  protocol_version = 3;
  tick_rate_hz = pos 60;
  track_id = 2;
  server_seed_hash_hex = codes "aa";
  server_seed_hex = codes "bb";
  participants = record { marble_index = 0; name = codes "ann"; client_seed = [] } ∷ [];
  winner = record { marble_index = pos 0; finish_tick = pos 900 };
  replay_sha256_hex = [];
}

-- An older round, a stray file and what a crash left behind.
abbrev store : Root
store =
    (codes "7", dir (some (json (record manifest { round_id = 7 }))) (some (codes "old")))
    ∷ (codes "notes", file)
    ∷ (codes "pending-9-1", dir none none)
    ∷ []

abbrev blob : Str
blob = codes "ticks"

saved : Manifest
saved = stamp plain 5 blob manifest

save_runs :
    (save plain healthy (codes "x") 5 manifest blob store).0 ≡ ok (stamp plain 5 blob manifest)
unfolding save lookup str_eq format_uint
save_runs = refl

save_again :
    (save plain healthy (codes "x") 5 (record manifest { round_id = 7 }) blob store).0
    ≡ err round_exists
unfolding save lookup str_eq format_uint
save_again = refl

list_runs : list false (save plain healthy (codes "x") 5 manifest blob store).1 ≡ ok (7 ∷ 42 ∷ [])
unfolding save list lookup insert delete str_eq format_uint parse_uint sort
list_runs = refl

save_stores_example :
    verify plain 42 (save plain healthy (codes "x") 5 manifest blob store).1 ≡ ok tt
unfolding save lookup str_eq format_uint
save_stores_example =
    (save_stores plain healthy (codes "x") 5 manifest blob store refl (omega arith) refl).2

abbrev attempts : List Attempt
attempts =
    record { faults = full_disk; suffix = codes "x"; now = 5; manifest = manifest; replay = blob }
    ∷ record { faults = healthy; suffix = codes "y"; now = 6; manifest = manifest; replay = blob }
    ∷ []

save_all_keeps_example :
    (load 7 (save_all plain attempts store) ≡ load 7 store)
    × (verify plain 7 (save_all plain attempts store) ≡ verify plain 7 store)
unfolding save load lookup insert delete str_eq format_uint
save_all_keeps_example =
    save_all_keeps plain attempts store 7 (refl, omega arith, (refl, omega arith, tt)) (omega arith)
      (λ e. cc)

verify_tampered_example :
    verify plain 42 (
      insert
        (round_dir 42)
        (dir
          (some (json (record manifest { replay_sha256_hex = hex_encode blob })))
          (some (codes "tocks")))
        store)
    ≡ err checksum_mismatch
verify_tampered_example =
    (verify_tampered plain 42 (record manifest { replay_sha256_hex = hex_encode blob }) blob
        (codes "tocks") store (omega arith) (omega arith) refl).0
      (λ e. absurd (omega (arith, ap (λ (s : Str). get_or s 1 0) e)))
