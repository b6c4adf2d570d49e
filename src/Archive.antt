-- ===== src/Archive.antt =====
-- server/api/http.go: the replay store over HTTP. A response is its status, the headers that the handler set
-- and its body; JSON texts are left as the values that they show. Ranges and conditional requests are those of
-- `http.ServeContent`: the body here is the answer to a plain GET. Which calls of the file system fail is a
-- record of flags.
pub mod Serving
mod Tests
use marbles_game.Prelude.{
  Bool, List, Option, Str, [], codes, err, if◌then◌else◌, is_empty, length, map, none, ok, some,
  ◌||◌, str_eq, str_eq_inst, ℕ, ◌++◌, ◌∷◌,
}
use marbles_game.Prelude.Dict.{Dict, lookup}
use marbles_game.Std.Decimal.{format_uint, parse_uint}
use marbles_game.Replay
use marbles_game.Replay.FileSystem.{Manifest, Root}

-- The `error` codes of `writeJSONError`; the messages are left out.
pub data ErrorCode : Type 0 where
  list_failed bad_round_id round_missing load_failed replay_open_failed replay_stat_failed :
      ErrorCode

pub data Body : Type 0 where
  round_ids : List Str → Body
  manifest : Manifest → Body
  replay : Str → Body
  error : ErrorCode → Body
  no_content method_not_allowed : Body

pub record Response : Type 0 where
  pub status : ℕ
  pub headers : Dict Str Str
  pub body : Body

-- Which calls fail: reading the root, opening the replay, and its size.
pub record Faults : Type 0 where
  pub read_root : Bool
  pub open_file : Bool
  pub stat : Bool

-- `writeJSON`
abbrev pub write_json : ℕ → Body → Response
write_json status body = record {
  status = status;
  headers = (codes "Content-Type", codes "application/json") ∷ [];
  body = body;
}

-- `writeJSONError`
abbrev pub write_json_error : ℕ → ErrorCode → Response
write_json_error status code = write_json status (error code)

-- `parseRoundID`
unfoldable pub parse_round_id : Str → Option ℕ
unfolding parse_uint
parse_round_id s = if is_empty s then none else parse_uint s

-- `listRounds`
unfoldable pub list_rounds : Faults → Root → Response
unfolding Replay.list
list_rounds faults root = elim (Replay.list faults.read_root root) [
  | err e ↦ write_json_error 500 list_failed
  | ok ids ↦ write_json 200 (round_ids (map format_uint ids))
]

-- The answer where `Load` fails.
abbrev pub load_error : Replay.Error → Response
load_error e = elim e [
  | Replay.round_missing ↦ write_json_error 404 round_missing
  | _ ↦ write_json_error 500 load_failed
]

-- `getManifest`
unfoldable pub get_manifest : Str → Root → Response
unfolding parse_round_id Replay.load
get_manifest id_text root = elim (parse_round_id id_text) [
  | none ↦ write_json_error 400 bad_round_id
  | some id ↦ elim (Replay.load id root) [
    | err e ↦ load_error e
    | ok m ↦ write_json 200 (manifest m)
  ]
]

-- `getReplay` on the file that it opened: the headers, and the bytes.
unfoldable pub serve_replay : Faults → Manifest → Option Str → Response
serve_replay faults m none = write_json_error 500 replay_open_failed
serve_replay faults m (some bytes) =
    if faults.open_file
    then write_json_error 500 replay_open_failed
    else if faults.stat
    then write_json_error 500 replay_stat_failed
    else record {
      status = 200;
      headers =
          (codes "Content-Type", codes "application/octet-stream")
          ∷ (codes "Content-Length", format_uint (length bytes))
          ∷ (codes "ETag", codes "\"" ++ (m.replay_sha256_hex ++ codes "\""))
          ∷ (codes "Cache-Control", codes "public, max-age=31536000, immutable")
          ∷ [];
      body = replay bytes;
    }

-- `getReplay`
unfoldable pub get_replay : Faults → Str → Root → Response
unfolding parse_round_id Replay.load Replay.open_replay serve_replay
get_replay faults id_text root = elim (parse_round_id id_text) [
  | none ↦ write_json_error 400 bad_round_id
  | some id ↦ elim (Replay.load id root) [
    | err e ↦ load_error e
    | ok m ↦ serve_replay faults m (Replay.open_replay (lookup (Replay.round_dir id) root))
  ]
]

abbrev pub cors_headers : Dict Str Str
cors_headers =
    (codes "Access-Control-Allow-Origin", codes "*")
    ∷ (codes "Access-Control-Allow-Methods", codes "GET, HEAD, OPTIONS")
    ∷ (codes "Access-Control-Allow-Headers", codes "Range, If-None-Match")
    ∷ (
      codes "Access-Control-Expose-Headers",
      codes "ETag, Content-Length, Content-Range, Accept-Ranges",
    )
    ∷ []

-- `corsMiddleware`: a preflight request does not reach the handler.
unfoldable pub cors : Str → Response → Response
cors method next =
    if str_eq method (codes "OPTIONS")
    then record { status = 204; headers = cors_headers; body = no_content }
    else record next { headers = cors_headers ++ next.headers }

-- The requests that the patterns of `Handler` match.
pub data Route : Type 0 where
  rounds : Route
  one_round : Str → Route
  one_replay : Str → Route

-- `http.ServeMux` on patterns for GET, which serve HEAD as well
unfoldable pub mux : Str → Response → Response
mux method next =
    if str_eq method (codes "GET") || str_eq method (codes "HEAD") then next else record {
      status = 405;
      headers =
          (codes "Allow", codes "GET, HEAD")
          ∷ (codes "Content-Type", codes "text/plain; charset=utf-8")
          ∷ (codes "X-Content-Type-Options", codes "nosniff")
          ∷ [];
      body = method_not_allowed;
    }

-- `Handler`, on a request for a route
unfoldable pub handle : Faults → Str → Route → Root → Response
unfolding list_rounds get_manifest get_replay mux cors
handle faults method rounds root = cors method (mux method (list_rounds faults root))
handle faults method (one_round id_text) root = cors method (mux method (get_manifest id_text root))
handle faults method (one_replay id_text) root =
    cors method (mux method (get_replay faults id_text root))
