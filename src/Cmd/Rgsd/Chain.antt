-- ===== src/Cmd/Rgsd/Chain.antt =====
-- The chain of wrappers in server/cmd/rgsd/main.go around the handlers of /v1/.
use mathlib.Core.List.{append-nil, append_assoc}
use marbles_game.Prelude.{
  Bool-cases, List, Option, Option-cases, Result, Result-cases, Str, [], ap, arith, codes, err,
  if◌then◌else◌, inl, inr, is_empty, is_some, none, ok, refl, some, sym, true, ℕ, ◌++◌, ◌∙◌, ◌∷◌,
  ◌≡◌, ◌⊎◌,
}
use marbles_game.Middleware.Http.{
  Conn, Handler, LogEntry, Recorder, Request, Writer, access, header, on_writer, panicked,
  set_header, write, write_header,
}
use marbles_game.Middleware.Wrappers.{
  access_entry, content_type, header_request_id, log_access, logging, new_request_id, recover,
  recovery, request_id, request_id_from_context,
}
use marbles_game.Middleware.Auth.{
  AuthError, hmac_auth, should_skip_auth, unauthorized, verify_hmac, with_default_skew,
}
use marbles_game.Cmd.Rgsd.{chain, guard_config, guarded}

-- An answer of a wrapper keeps the writer wrapped.
answer-recorder :
    (text : Str) (code : ℕ) (k v : Str) (w : Writer)
    → is_some (write text (write_header code (set_header k v w))).recorder ≡ is_some w.recorder
unfolding write write_header
answer-recorder text code k v w = ground arith

module _ {ℓ} {S : Type ℓ} where
  -- A handler uses the writer that it gets: it does not unwrap it, and the access log is not its own.
  abbrev pub IsPolite : Handler S → Type ℓ
  IsPolite h =
      (r : Request) (c : Conn S)
      → ((h r c).1.log ≡ c.log) × (is_some (h r c).1.writer.recorder ≡ is_some c.writer.recorder)

  -- One access entry with no request id, behind at most one entry for a panic, again with no id.
  abbrev pub Logged : Request → Conn S → Result (Unit {0}) (Unit {0}) × Conn S → Type 0
  Logged r c (res, c') =
      (res ≡ ok tt)
      × ((status : ℕ) × (bytes : ℕ) × (panics : List LogEntry) × ((panics ≡ [])
            ⊎ (panics ≡ panicked [] ∷ []))
          × (c'.log ≡ c.log ++ (panics ++ access r.method r.path status bytes [] ∷ [])))

  recovered :
      (quote : Str → Str) (r : Request) (res : Result (Unit {0}) (Unit {0})) (c : Conn S)
      → r.context_id ≡ none
      → is_some c.writer.recorder ≡ true
      → let (res', c') = recover quote r res c in
        (res' ≡ ok tt)
        × (is_some c'.writer.recorder ≡ true)
        × ((panics : List LogEntry) × ((panics ≡ []) ⊎ (panics ≡ panicked [] ∷ []))
            × (c'.log ≡ c.log ++ panics))
  unfolding recover
  recovered quote r (ok done) c no_id wrapped =
      (refl, wrapped, ([], inl refl, sym (append-nil c.log)))
  recovered quote r (err p) c no_id wrapped = (
    refl,
    answer-recorder
          (codes "{\"error\":\"internal error\",\"request_id\":"
            ++ quote (request_id_from_context r)
            ++ codes "}")
          500 content_type (codes "application/json") c.writer
        ∙ wrapped,
    (panicked [] ∷ [], inr refl, rw (no_id, request_id_from_context) refl),
  )

  -- What `Logging` adds to the log, over a wrapped writer.
  access_logged :
      (r : Request) (res : Result (Unit {0}) (Unit {0})) (c : Conn S)
      → r.context_id ≡ none
      → res ≡ ok tt
      → is_some c.writer.recorder ≡ true
      → let (res', c') = log_access r res c in
        (res' ≡ ok tt)
        × ((status : ℕ) × (bytes : ℕ) × (c'.log
              ≡ c.log ++ access r.method r.path status bytes [] ∷ []))
  unfolding log_access
  access_logged r (err p) c no_id good wrapped = cc good
  access_logged r (ok done) c no_id good wrapped = elim (Option-cases c.writer.recorder) [
    | inl none_there ↦ cc (none_there, wrapped)
    | inr (rec, there) ↦ (
      refl,
      (rec.status, rec.bytes, rw (there, no_id, access_entry, request_id_from_context) refl),
    )
  ]

module _ {ℓ} (hmac : Str → Str → Str) (quote : Str → Str) (message : AuthError → Str)
    {S : Type ℓ} where
  guarded-IsPolite :
      (secret : Option Str) (now : ℕ) (h : Handler S)
      → IsPolite h
      → IsPolite (guarded hmac quote message secret now h)
  unfolding guarded hmac_auth unauthorized
  guarded-IsPolite none now h polite = polite
  guarded-IsPolite (some secret) now h polite = λ r c.
      let cfg = with_default_skew (guard_config secret) in
      elim (Bool-cases (should_skip_auth r.path cfg.skip_paths)) [
        | inl skipped ↦ rw (hmac_auth, skipped) (polite r c)
        | inr checked ↦ elim (Result-cases (verify_hmac hmac cfg now r)) [
          | inl (r', passed) ↦ rw (hmac_auth, checked, passed) (polite r' c)
          | inr (e, failed) ↦
              rw (hmac_auth, checked, failed)
                (
                  refl,
                  answer-recorder (codes "{\"error\":" ++ quote (message e) ++ codes "}") 401
                      content_type (codes "application/json") c.writer,
                )
        ]
      ]

  -- Every request to /v1/ is answered, also where the handler panics, and has exactly one line in the
  -- access log, the last one, behind at most one line for a panic. Neither line has the request id: it
  -- is the empty text, since `Logging` and `Recovery` look for it in the request that came in, and
  -- `RequestID` puts it into a new one. The handler keeps the writer that it gets and leaves the access
  -- log alone, and a request comes in without an id in its context.
  pub chain_logs :
      (secret : Option Str) (now : ℕ) (random : Str) (h : Handler S) (r : Request) (c : Conn S)
      → IsPolite h
      → r.context_id ≡ none
      → Logged r c (chain hmac quote message secret now random h r c)
  unfolding chain logging recovery request_id
  chain_logs secret now random h r c polite no_id =
      let start : Recorder = record { status = 0; bytes = 0 } in
      let c1 : Conn S = on_writer (λ w. record w { recorder = some start }) c in
      let inbound = header header_request_id r in
      let id = if is_empty inbound then new_request_id random else inbound in
      let r1 : Request = record r { context_id = some id } in
      let c2 : Conn S = on_writer (set_header header_request_id id) c1 in
      let (res, c3) = guarded hmac quote message secret now h r1 c2 in
      let (same_log, wrapped) = guarded-IsPolite secret now h polite r1 c2 in
      let (done, wrapped', (panics, one, logged)) = recovered quote r res c3 no_id wrapped in
      let (res', c4) = recover quote r res c3 in
      let (answered, (status, bytes, entry)) = access_logged r res' c4 no_id done wrapped' in
      (
        answered,
        (
          status,
          bytes,
          panics,
          one,
          entry
              ∙ ap (λ l. l ++ access r.method r.path status bytes [] ∷ [])
                  (logged ∙ ap (λ l. l ++ panics) same_log)
              ∙ append_assoc c.log panics (access r.method r.path status bytes [] ∷ []),
        ),
      )
