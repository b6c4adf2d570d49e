-- ===== src/Middleware/Http.antt =====
-- What server/middleware/middleware.go uses of net/http: a request, the writer of its response, the log,
-- and handlers, which may panic. `S` is the state behind the handler.
use marbles_game.Prelude.{
  Exec, List, Option, Str, [], if◌then◌else◌, length, none, some, str_eq_inst, ℕ, ◌++◌, ◌+◌, ◌==◌,
  ◌∷◌,
}
use marbles_game.Prelude.Dict.{Dict, insert, lookup}

pub record Request : Type 0 where
  pub method : Str
  pub path : Str
  pub headers : Dict Str Str
  pub body : Option Str  -- `none` if reading it fails
  pub context_id : Option Str  -- the value under `ctxKeyRequestID`

-- `r.Header.Get(key)`
abbrev pub header : Str → Request → Str
header k r = elim (lookup k r.headers) [ none ↦ [] | some v ↦ v ]

-- `statusRecorder`, beside the writer that it wraps: `status` is 0 until it is written.
pub record Recorder : Type 0 where
  pub status : ℕ
  pub bytes : ℕ

-- An `http.ResponseWriter`. `sent` is the status line with the headers that went out; later changes of
-- either have no effect. `recorder` is there if the writer is wrapped.
pub record Writer : Type 0 where
  pub headers : Dict Str Str
  pub sent : Option (ℕ × Dict Str Str)
  pub body : Str
  pub recorder : Option Recorder

abbrev pub fresh_writer : Writer
fresh_writer = record { headers = []; sent = none; body = []; recorder = none }

-- `w.Header().Set(k, v)`
abbrev pub set_header : Str → Str → Writer → Writer
set_header k v w = record w { headers = insert k v w.headers }

abbrev pub send : ℕ → Writer → Writer
send code w = elim w.sent [ none ↦ record w { sent = some (code, w.headers) } | some line ↦ w ]

-- `statusRecorder.WriteHeader` notes every status, also one that is not sent.
abbrev pub note_status : ℕ → Option Recorder → Option Recorder
note_status code none = none
note_status code (some rec) = some (record rec { status = code })

-- `statusRecorder.Write`
abbrev pub note_bytes : ℕ → Option Recorder → Option Recorder
note_bytes n none = none
note_bytes n (some rec) =
    some (record { status = if rec.status == 0 then 200 else rec.status; bytes = rec.bytes + n })

-- `w.WriteHeader(code)`
unfoldable pub write_header : ℕ → Writer → Writer
write_header code w = send code (record w { recorder = note_status code w.recorder })

-- `w.Write(b)`: the status 200 goes out first if none did.
unfoldable pub write : Str → Writer → Writer
write b w =
    let w' = send 200 (record w { recorder = note_bytes (length b) w.recorder }) in
    record w' { body = w'.body ++ b }

pub data LogEntry : Type 0 where
  access : Str → Str → ℕ → ℕ → Str → LogEntry  -- method, path, status, bytes, request id
  panicked : Str → LogEntry  -- request id

pub record Conn {ℓ} (S : Type ℓ) : Type ℓ where
  pub writer : Writer
  pub log : List LogEntry
  pub state : S

-- An `http.Handler`: `err` is a panic.
abbrev pub Handler {ℓ} : Type ℓ → Type ℓ
Handler S = Request → Exec (Unit {0}) (Conn S) (Unit {0})

module _ {ℓ} {S : Type ℓ} where
  abbrev pub on_writer : (Writer → Writer) → Conn S → Conn S
  on_writer f c = record c { writer = f c.writer }

  abbrev pub note : LogEntry → Conn S → Conn S
  note e c = record c { log = c.log ++ e ∷ [] }
