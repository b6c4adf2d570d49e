-- ===== src/Middleware/Wrappers.antt =====
-- `RequestID`, `Logging` and `Recovery` of server/middleware/middleware.go. The clock, the log's durations
-- and stack traces are left out; `%q` of package fmt is a parameter.
use marbles_game.Prelude.{
  Result, Str, [], codes, err, if◌then◌else◌, is_empty, none, ok, some, ◌++◌,
}
use marbles_game.Std.Hex.{hex_encode}
use marbles_game.Middleware.Http.{
  Conn, Handler, LogEntry, Recorder, Request, Writer, access, header, note, on_writer, panicked,
  set_header, write, write_header,
}

abbrev pub header_request_id : Str
header_request_id = codes "X-Request-ID"

abbrev pub content_type : Str
content_type = codes "Content-Type"

-- `RequestIDFromContext`
abbrev pub request_id_from_context : Request → Str
request_id_from_context r = elim r.context_id [ none ↦ [] | some id ↦ id ]

-- `newRequestID`, from eight random bytes
unfoldable pub new_request_id : Str → Str
new_request_id random = codes "req_" ++ hex_encode random

-- The status and size that an access log line takes from the recorder.
abbrev pub access_entry : Request → Writer → LogEntry
access_entry r w = elim w.recorder [
  | none ↦ access r.method r.path 0 0 (request_id_from_context r)
  | some rec ↦ access r.method r.path rec.status rec.bytes (request_id_from_context r)
]

module _ {ℓ} {S : Type ℓ} where
  -- `RequestID`
  unfoldable pub request_id : Str → Handler S → Handler S
  unfolding new_request_id
  request_id random next r c =
      let inbound = header header_request_id r in
      let id = if is_empty inbound then new_request_id random else inbound in
      next (record r { context_id = some id }) (on_writer (set_header header_request_id id) c)

  -- What `Logging` does after the wrapped handler returned; a panic goes through it.
  unfoldable pub log_access :
      Request → Result (Unit {0}) (Unit {0}) → Conn S → Result (Unit {0}) (Unit {0}) × Conn S
  log_access r (err p) c = (err p, c)
  log_access r (ok done) c =
      (ok tt, on_writer (λ w. record w { recorder = none }) (note (access_entry r c.writer) c))

  -- `Logging`
  unfoldable pub logging : Handler S → Handler S
  unfolding log_access
  logging next r c =
      let start : Recorder = record { status = 0; bytes = 0 } in
      let (res, c') = next r (on_writer (λ w. record w { recorder = some start }) c) in
      log_access r res c'

  -- The deferred function of `Recovery`
  unfoldable pub recover :
      (Str → Str)
      → Request
      → Result (Unit {0}) (Unit {0})
      → Conn S
      → Result (Unit {0}) (Unit {0}) × Conn S
  unfolding write_header write
  recover quote r (ok done) c = (ok tt, c)
  recover quote r (err p) c =
      let id = request_id_from_context r in
      let text = codes "{\"error\":\"internal error\",\"request_id\":" ++ quote id ++ codes "}" in
      (
        ok tt,
        on_writer
            (λ w.
              write text (write_header 500 (set_header content_type (codes "application/json") w)))
            (note (panicked id) c),
      )

  -- `Recovery`
  unfoldable pub recovery : (Str → Str) → Handler S → Handler S
  unfolding recover
  recovery quote next r c = let (res, c') = next r c in recover quote r res c'
