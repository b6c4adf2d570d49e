-- ===== src/Archive/Tests.antt =====
-- A round that was saved, and what the archive answers (server/api/http.go).
use mathlib.Core.List.{Perm}
use marbles_game.Prelude.{
  List, Result, Str, [], arith, codes, false, map, ok, pos, refl, str_eq, str_eq_inst, ℕ, ◌∷◌, ◌≡◌,
}
use marbles_game.Prelude.Dict.{delete, insert, lookup}
use marbles_game.Std.Decimal.{format_uint, parse_uint}
use marbles_game.Std.Sort.{IsSorted}
use marbles_game.Replay
use marbles_game.Replay.FileSystem.{Manifest, Root}
use marbles_game.Archive.{Faults, handle, manifest, one_replay, one_round, round_ids, rounds}
use marbles_game.Archive.Serving.{archive-save, replay_response}

abbrev digest : Str → Str
digest s = 1 ∷ s

abbrev entry : Manifest
entry = record {
  round_id = 12;
  created_at = 5;
  protocol_version = 3;
  tick_rate_hz = pos 60;
  track_id = 1;
  server_seed_hash_hex = codes "aa";
  server_seed_hex = codes "bb";
  participants = record { marble_index = 0; name = codes "ann"; client_seed = [] } ∷ [];
  winner = record { marble_index = pos 0; finish_tick = pos 700 };
  replay_sha256_hex = [];
}

abbrev works : Replay.Faults
works = record {
  stat = false;
  mkdir_temp = false;
  write_replay = false;
  write_manifest = false;
  rename = false;
}

abbrev readable : Faults
readable = record { read_root = false; open_file = false; stat = false }

abbrev saved : Result Replay.Error Manifest × Root
saved = Replay.save digest works (codes "x") 7 entry (codes "ticks") []

saved_ok : saved.0 ≡ ok (Replay.stamp digest 7 (codes "ticks") entry)
unfolding Replay.save lookup insert delete str_eq format_uint Replay.stamp
saved_ok = refl

archive-save_example :
    let get = handle readable (codes "GET") in
    ((get (one_round (format_uint 12)) saved.1).status ≡ 200)
    × ((get (one_round (format_uint 12)) saved.1).body
        ≡ manifest (Replay.stamp digest 7 (codes "ticks") entry))
    × (get (one_replay (format_uint 12)) saved.1 ≡ replay_response digest (codes "ticks"))
    × ((ids : List ℕ) × (ids' : List ℕ) × ((get rounds []).body ≡ round_ids (map format_uint ids))
        × ((get rounds saved.1).body ≡ round_ids (map format_uint ids'))
        × Perm ids' (12 ∷ ids)
        × IsSorted ids')
unfolding lookup
archive-save_example =
    archive-save digest works (codes "x") 7 entry (codes "ticks") [] readable refl (omega arith)
      (refl, refl, refl) saved_ok

-- A preflight request, and ids that are none or unknown.
other_answers :
    ((handle readable (codes "OPTIONS") rounds []).status ≡ 204)
    × ((handle readable (codes "POST") rounds []).status ≡ 405)
    × ((handle readable (codes "GET") (one_round (codes "1x")) []).status ≡ 400)
    × ((handle readable (codes "GET") (one_replay (codes "13")) []).status ≡ 404)
unfolding handle str_eq Replay.load lookup format_uint parse_uint
other_answers = (refl, refl, refl, refl)
