-- ===== src/Archive/Serving.antt =====
-- What server/api/http.go serves of a round that was saved.
use mathlib.Core.List.{Perm}
use marbles_game.Prelude.{
  List, Option, Str, [], ap, arith, codes, false, is_empty, length, map, none, ok, refl, some,
  str_eq, str_eq_inst, u64_mod, ℕ, ◌++◌, ◌<◌, ◌∙◌, ◌∷◌, ◌≡◌,
}
use marbles_game.Prelude.Dict.{Dict, beq_self, lookup, lookup-insert}
use marbles_game.Std.Decimal.{format_uint, parse-format, parse_uint}
use marbles_game.Std.Sort.{IsSorted}
use marbles_game.Replay
use marbles_game.Replay.FileSystem.{Manifest, Root}
use marbles_game.Archive.{
  Faults, Response, cors_headers, get_manifest, get_replay, handle, list_rounds, manifest,
  one_replay, one_round, parse_round_id, replay, round_ids, rounds, serve_replay, write_json,
}
use marbles_game.Std.Hex.{hex_encode}
use marbles_game.Replay.{open_replay, stamp}
use marbles_game.Replay.Saving.{save_ok, save_stores, stored}
use marbles_game.Replay.Listing.{list-save}

parse_nonempty : (s : Str) (n : ℕ) → parse_uint s ≡ some n → is_empty s ≡ false
unfolding parse_uint
parse_nonempty [] n e = cc
parse_nonempty (c ∷ s) n e = refl

parse_round_id-format : (id : ℕ) → id < u64_mod → parse_round_id (format_uint id) ≡ some id
unfolding parse_round_id
parse_round_id-format id small =
    ground (arith, parse-format id small, parse_nonempty (format_uint id) id)

get_manifest_lem :
    (id_text : Str) (id : ℕ) (m : Manifest) (root : Root)
    → parse_round_id id_text ≡ some id
    → Replay.load id root ≡ ok m
    → get_manifest id_text root ≡ write_json 200 (manifest m)
unfolding get_manifest
get_manifest_lem id_text id m root parsed loaded = rw (get_manifest, parsed, loaded) refl

get_replay_lem :
    (reads : Faults) (id_text : Str) (id : ℕ) (m : Manifest) (file : Option Str) (root : Root)
    → parse_round_id id_text ≡ some id
    → Replay.load id root ≡ ok m
    → Replay.open_replay (lookup (Replay.round_dir id) root) ≡ file
    → get_replay reads id_text root ≡ serve_replay reads m file
unfolding get_replay
get_replay_lem reads id_text id m file root parsed loaded opened =
    rw (get_replay, parsed, loaded, opened) refl

abbrev with_cors : Response → Response
with_cors next = record next { headers = cors_headers ++ next.headers }

handle_manifest :
    (reads : Faults) (id_text : Str) (root : Root)
    → handle reads (codes "GET") (one_round id_text) root ≡ with_cors (get_manifest id_text root)
unfolding handle str_eq
handle_manifest reads id_text root = refl

handle_replay :
    (reads : Faults) (id_text : Str) (root : Root)
    → handle reads (codes "GET") (one_replay id_text) root
      ≡ with_cors (get_replay reads id_text root)
unfolding handle str_eq
handle_replay reads id_text root = refl

list_rounds_lem :
    (reads : Faults) (ids : List ℕ) (root : Root)
    → reads.read_root ≡ false
    → Replay.list false root ≡ ok ids
    → (handle reads (codes "GET") rounds root).body ≡ round_ids (map format_uint ids)
unfolding handle list_rounds str_eq
list_rounds_lem reads ids root readable listed = ground arith

-- A replay that can be read is served whole.
abbrev pub replay_headers : Str → Str → Dict Str Str
replay_headers digest bytes =
    (codes "Content-Type", codes "application/octet-stream")
    ∷ (codes "Content-Length", format_uint (length bytes))
    ∷ (codes "ETag", codes "\"" ++ (digest ++ codes "\""))
    ∷ (codes "Cache-Control", codes "public, max-age=31536000, immutable")
    ∷ []

served :
    (reads : Faults) (m : Manifest) (bytes : Str)
    → reads.open_file ≡ false
    → reads.stat ≡ false
    → serve_replay reads m (some bytes) ≡ record {
      status = 200;
      headers = replay_headers m.replay_sha256_hex bytes;
      body = replay bytes;
    }
unfolding serve_replay
served reads m bytes opens stats = rw (opens, stats) refl

module _ (sha256 : Str → Str) where
  -- The answer to a plain GET for the replay of a round.
  abbrev pub replay_response : Str → Response
  replay_response bytes = record {
    status = 200;
    headers = cors_headers ++ replay_headers (hex_encode (sha256 bytes)) bytes;
    body = replay bytes;
  }

  -- Once a save has succeeded, the archive answers a GET for that round with its manifest, and one for its
  -- replay with exactly the bytes that were saved, their length, and their digest as the ETag; and the list
  -- of rounds has this round's id besides those that it had, in ascending order and in decimal. The
  -- file system does not fail a read, the name of the temporary directory is new, and the id is a uint64.
  pub archive-save :
      (faults : Replay.Faults) (suffix : Str) (now : ℕ) (m : Manifest) (bytes : Str) (root : Root)
      {m' : Manifest} (reads : Faults)
      → lookup (Replay.temp_name m.round_id suffix) root ≡ none
      → m.round_id < u64_mod
      → (reads.read_root ≡ false) × (reads.open_file ≡ false) × (reads.stat ≡ false)
      → (Replay.save sha256 faults suffix now m bytes root).0 ≡ ok m'
      → let get = handle reads (codes "GET") in
        let root' = (Replay.save sha256 faults suffix now m bytes root).1 in
        let id_text = format_uint m.round_id in
        ((get (one_round id_text) root').status ≡ 200)
        × ((get (one_round id_text) root').body ≡ manifest (Replay.stamp sha256 now bytes m))
        × (get (one_replay id_text) root' ≡ replay_response bytes)
        × ((ids : List ℕ) × (ids' : List ℕ) × ((get rounds root).body
              ≡ round_ids (map format_uint ids))
            × ((get rounds root').body ≡ round_ids (map format_uint ids'))
            × Perm ids' (m.round_id ∷ ids)
            × IsSorted ids')
  archive-save faults suffix now m bytes root reads free small healthy saved =
      let id = m.round_id in
      let root' = (Replay.save sha256 faults suffix now m bytes root).1 in
      let parsed = parse_round_id-format id small in
      let loaded = (save_stores sha256 faults suffix now m bytes root free small saved).1 in
      let after = (save_ok sha256 faults suffix now m bytes root free saved).3 in
      let entry = stored sha256 now m bytes in
      let here : lookup (Replay.round_dir id) root' ≡ some entry =
        rw
          (
            after,
            lookup-insert (Replay.round_dir id) (Replay.round_dir id) entry root,
            beq_self (Replay.round_dir id),
          )
          refl in
      let opened : Replay.open_replay (lookup (Replay.round_dir id) root') ≡ some bytes =
        rw here (unfold open_replay in refl) in
      let (ids, ids', before, now_listed, perm, ascending) =
        list-save sha256 faults suffix now m bytes root free small saved in
      let answered =
        handle_manifest reads (format_uint id) root'
        ∙ ap with_cors (get_manifest_lem (format_uint id) id _ root' parsed loaded) in
      (
        ap (λ r. r.status) answered,
        ap (λ r. r.body) answered,
        handle_replay reads (format_uint id) root'
            ∙ ap with_cors (
                get_replay_lem reads (format_uint id) id _ (some bytes) root' parsed loaded opened
                ∙ served reads (Replay.stamp sha256 now bytes m) bytes healthy.1 healthy.2)
            ∙ ap
                (λ d. record (replay_response bytes) {
                  headers = cors_headers ++ replay_headers d bytes;
                })
                (unfold stamp in refl),
        (
          ids,
          ids',
          list_rounds_lem reads ids root healthy.0 before,
          list_rounds_lem reads ids' root' healthy.0 now_listed,
          perm,
          ascending,
        ),
      )
