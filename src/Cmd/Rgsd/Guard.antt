-- ===== src/Cmd/Rgsd/Guard.antt =====
-- Which requests reach the handlers behind the chain of server/cmd/rgsd/main.go.
use marbles_game.Prelude.{
  Bool-cases, Option, Result, Result-cases, Str, ap, arith, codes, err, false, if◌then◌else◌, inl,
  inr, is_empty, is_ok, none, ok, refl, some, str_eq_inst, true, ℕ, ◌||◌, ◌∙◌, ◌≡◌,
}
use marbles_game.Prelude.Dict.{Dict, insert}
use marbles_game.Std.Text.{has_prefix}
use marbles_game.Middleware.Http.{
  Conn, Handler, Recorder, Request, Writer, header, on_writer, set_header, write, write_header,
}
use marbles_game.Middleware.Wrappers.{
  content_type, header_request_id, log_access, logging, new_request_id, recover, recovery,
  request_id,
}
use marbles_game.Middleware.Auth.{
  AuthError, HmacConfig, check_signature, hmac_auth, should_skip_auth, unauthorized, verify_hmac,
  with_default_skew,
}
use marbles_game.Cmd.Rgsd.{chain, guard_config, guarded}

module _ {ℓ} {S : Type ℓ} where
  log_access_keeps :
      (r : Request) (res : Result (Unit {0}) (Unit {0})) (c : Conn S)
      → ((log_access r res c).1.state ≡ c.state)
        × ((log_access r res c).1.writer.sent ≡ c.writer.sent)
  unfolding log_access
  log_access_keeps r (ok done) c = (refl, refl)
  log_access_keeps r (err p) c = (refl, refl)

  recover-state :
      (quote : Str → Str) (r : Request) (res : Result (Unit {0}) (Unit {0})) (c : Conn S)
      → (recover quote r res c).1.state ≡ c.state
  unfolding recover
  recover-state quote r (ok done) c = refl
  recover-state quote r (err p) c = refl

  recover_ok :
      (quote : Str → Str) (r : Request) (c : Conn S)
      → (recover quote r (ok tt) c).1.writer.sent ≡ c.writer.sent
  unfolding recover
  recover_ok quote r c = refl

module _ (hmac : Str → Str → Str) (cfg : HmacConfig) (now : ℕ) where
  abbrev with_context : Option Str → Result AuthError Request → Result AuthError Request
  with_context o (ok r) = ok (record r { context_id = o })
  with_context o (err e) = err e

  -- `verifyHMAC` does not read the context.
  verify_hmac-with_context :
      (r : Request) (o : Option Str)
      → verify_hmac hmac cfg now (record r { context_id = o })
        ≡ with_context o (verify_hmac hmac cfg now r)
  unfolding verify_hmac check_signature
  verify_hmac-with_context r o = ground arith

  verify_hmac_same : (r r' : Request) → verify_hmac hmac cfg now r ≡ ok r' → r' ≡ r
  unfolding verify_hmac check_signature
  verify_hmac_same r r' e = ground arith

-- The test of `HMAC` on the path is that of one prefix.
skips_health :
    (path secret : Str)
    → should_skip_auth path (guard_config secret).skip_paths ≡ has_prefix path (codes "/v1/health")
unfolding should_skip_auth
skips_health path secret = ground arith

module _ {ℓ} (hmac : Str → Str → Str) (quote : Str → Str) (message : AuthError → Str)
    {S : Type ℓ} where
  unauthorized-sent :
      (e : AuthError) (c : Conn S)
      → c.writer.sent ≡ none
      → (headers : Dict Str Str) × ((unauthorized hmac quote message e c).writer.sent
          ≡ some (401, headers))
  unfolding unauthorized write write_header
  unauthorized-sent e c unanswered =
      (insert content_type (codes "application/json") c.writer.headers, rw unanswered refl)

  guarded_allowed :
      (secret : Str) (now : ℕ) (h : Handler S) (r : Request) (o : Option Str) (c : Conn S)
      → (has_prefix r.path (codes "/v1/health")
          || is_ok (verify_hmac hmac (with_default_skew (guard_config secret)) now r))
        ≡ true
      → guarded hmac quote message (some secret) now h (record r { context_id = o }) c
        ≡ h (record r { context_id = o }) c
  unfolding guarded hmac_auth with_default_skew
  guarded_allowed secret now h r o c e =
      let cfg = with_default_skew (guard_config secret) in
      elim (Bool-cases (has_prefix r.path (codes "/v1/health"))) [
        | inl health ↦ rw (hmac_auth, skips_health r.path secret, health) refl
        | inr other ↦ elim (Result-cases (verify_hmac hmac cfg now r)) [
          | inr (x, failed) ↦ cc (rw (other, failed) at e)
          | inl (r', passed) ↦
              let passed' =
                verify_hmac-with_context hmac cfg now r o
                ∙ ap (with_context hmac cfg now o) passed in
              rw (hmac_auth, skips_health r.path secret, other, passed')
                (ap (λ q. h (record q { context_id = o }) c)
                  (verify_hmac_same hmac cfg now r r' passed))
        ]
      ]

  guarded_refused :
      (secret : Str) (now : ℕ) (h : Handler S) (r : Request) (o : Option Str) (c : Conn S)
      → (has_prefix r.path (codes "/v1/health")
          || is_ok (verify_hmac hmac (with_default_skew (guard_config secret)) now r))
        ≡ false
      → (e : AuthError) × (guarded hmac quote message
            (some secret)
            now
            h
            (record r { context_id = o })
            c
          ≡ (ok tt, unauthorized hmac quote message e c))
  unfolding guarded hmac_auth with_default_skew
  guarded_refused secret now h r o c e =
      let cfg = with_default_skew (guard_config secret) in
      elim (Bool-cases (has_prefix r.path (codes "/v1/health"))) [
        | inl health ↦ cc (rw health at e)
        | inr other ↦ elim (Result-cases (verify_hmac hmac cfg now r)) [
          | inl (r', passed) ↦ cc (rw (other, passed) at e)
          | inr (x, failed) ↦
              let failed' =
                verify_hmac-with_context hmac cfg now r o
                ∙ ap (with_context hmac cfg now o) failed in
              (x, rw (hmac_auth, skips_health r.path secret, other, failed') refl)
        ]
      ]

  -- What is behind the wrappers of the chain, and what they keep of it.
  chain-guarded :
      (secret : Str) (now : ℕ) (random : Str) (h : Handler S) (r : Request) (c : Conn S)
      → (id : Str) × (w : Writer) × (let (res, c') =
            guarded hmac quote message
              (some secret)
              now
              h
              (record r { context_id = some id })
              (record c { writer = w }) in
          let (res'', c'') = chain hmac quote message (some secret) now random h r c in
          (c''.state ≡ c'.state)
          × (res ≡ ok tt → c''.writer.sent ≡ c'.writer.sent)
          × (w.sent ≡ c.writer.sent))
  unfolding chain logging recovery request_id
  chain-guarded secret now random h r c =
      let start : Recorder = record { status = 0; bytes = 0 } in
      let c1 : Conn S = on_writer (λ w. record w { recorder = some start }) c in
      let inbound = header header_request_id r in
      let id = if is_empty inbound then new_request_id random else inbound in
      let w = set_header header_request_id id c1.writer in
      let (res, c3) =
        guarded hmac quote message (some secret) now h (record r { context_id = some id })
          (record c { writer = w }) in
      let (res', c4) = recover quote r res c3 in
      let (state, sent) = log_access_keeps r res' c4 in
      (
        id,
        w,
        (
          state ∙ recover-state quote r res c3,
          (λ good.
              sent ∙ ap (λ x. (recover quote r x c3).1.writer.sent) good ∙ recover_ok quote r c3),
          refl,
        ),
      )

  -- Where a daemon has a secret, the handler of a request to /v1/ runs exactly if the path begins with
  -- /v1/health or `verifyHMAC` accepts the request; it then gets the request as it came, with an id in its
  -- context. Otherwise the state behind the handler is as it was, and the answer has the status 401,
  -- provided nothing had been answered yet.
  pub chain_guards :
      (secret : Str) (now : ℕ) (random : Str) (h : Handler S) (r : Request) (c : Conn S)
      → let cfg = with_default_skew (guard_config secret) in
        let (res, c') = chain hmac quote message (some secret) now random h r c in
        let allowed =
          has_prefix r.path (codes "/v1/health") || is_ok (verify_hmac hmac cfg now r) in
        (allowed ≡ true
          → (id : Str) × (w : Writer) × (c'.state
              ≡ (h (record r { context_id = some id }) (record c { writer = w })).1.state))
        × (allowed ≡ false
            → (c'.state ≡ c.state)
              × (c.writer.sent ≡ none
                  → (headers : Dict Str Str) × (c'.writer.sent ≡ some (401, headers))))
  unfolding chain logging recovery request_id
  chain_guards secret now random h r c =
      let cfg = with_default_skew (guard_config secret) in
      let (id, w, out) = chain-guarded secret now random h r c in
      (
        λ e. (
          id,
          w,
          out.0
              ∙ ap (λ p. p.1.state)
                  (guarded_allowed secret now h r (some id) (record c { writer = w }) e),
        ),
        λ e.
            let refused = guarded_refused secret now h r (some id) (record c { writer = w }) e in
            (
              out.0 ∙ ap (λ p. p.1.state) refused.1,
              λ unanswered.
                  let (headers, status) =
                    unauthorized-sent refused.0 (record c { writer = w }) (out.2 ∙ unanswered) in
                  (
                    headers,
                    out.1 (ap (λ p. p.0) refused.1) ∙ ap (λ p. p.1.writer.sent) refused.1 ∙ status,
                  ),
            ),
      )
