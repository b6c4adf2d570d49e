-- ===== src/Middleware/Auth/Signing.antt =====
-- Signing a request with `SignRequest` and passing the guard `HMAC` of server/middleware/middleware.go.
use marbles_game.Prelude.{
  Bool-cases, Option, Str, [], ap, arith, false, inl, inr, is_empty, none, ok, pos, refl, some,
  str_eq, str_eq_inst, sym, ℕ, ◌*◌, ◌+◌, ◌-◌, ◌<◌, ◌^◌, ◌∙◌, ◌∷◌, ◌≡◌, ◌≤◌,
}
use marbles_game.Prelude.Dict.{insert, lookup-insert}
use marbles_game.Std.Decimal.{format_uint, parse_int, parse_int-format, signed}
use marbles_game.Middleware.Http.{Conn, Handler, Request, header}
use marbles_game.Middleware.Auth.{
  AuthError, HmacConfig, compute_signature, header_signature, header_timestamp, hmac_auth,
  should_skip_auth, sign_request, verify_hmac, with_default_skew,
}
use marbles_game.Std.Hex.{hex_encode}
use marbles_game.Middleware.Auth.Window.{Genuine, verify_hmac_iff}

abbrev value : Option Str → Str
value o = elim o [ none ↦ [] | some v ↦ v ]

hex_encode-nonempty : (s : Str) → is_empty s ≡ false → is_empty (hex_encode s) ≡ false
unfolding hex_encode
hex_encode-nonempty [] e = cc
hex_encode-nonempty (b ∷ s) e = refl

module _ (hmac : Str → Str → Str) where
  -- A client's request with both headers set, the timestamp in seconds.
  abbrev pub signed_request : Str → ℕ → Str → Request → Request
  signed_request secret seconds body r = record r {
    body = some body;
    headers =
        insert header_signature
          (sign_request hmac secret r.method r.path (format_uint seconds) body)
          (insert header_timestamp (format_uint seconds) r.headers);
  }

  signed_headers :
      (secret : Str) (seconds : ℕ) (body : Str) (r : Request)
      → (header header_signature (signed_request secret seconds body r)
          ≡ sign_request hmac secret r.method r.path (format_uint seconds) body)
        × (header header_timestamp (signed_request secret seconds body r) ≡ format_uint seconds)
  unfolding str_eq
  signed_headers secret seconds body r =
      let sig = sign_request hmac secret r.method r.path (format_uint seconds) body in
      let timed = insert header_timestamp (format_uint seconds) r.headers in
      (
        ap value (lookup-insert header_signature header_signature sig timed),
        ap value (
            lookup-insert header_signature header_timestamp sig timed
            ∙ lookup-insert header_timestamp header_timestamp (format_uint seconds) r.headers),
      )

  signed-Genuine :
      (cfg : HmacConfig) (now seconds : ℕ) (body : Str) (r : Request)
      → (now ≤ seconds * 1000000000 + cfg.max_clock_skew)
        × (seconds * 1000000000 ≤ now + cfg.max_clock_skew)
      → seconds < 2 ^ 33
      → Genuine hmac cfg now (signed_request cfg.secret seconds body r)
  unfolding sign_request
  signed-Genuine cfg now seconds body r near seconds_small =
      let sent = signed_request cfg.secret seconds body r in
      let (signed, timed) = signed_headers cfg.secret seconds body r in
      (
        pos seconds,
        body,
        ap parse_int timed ∙ parse_int-format seconds (omega arith),
        (omega arith, inl near),
        refl,
        signed ∙ ap (λ ts. compute_signature hmac cfg.secret r.method r.path ts body) (sym timed),
      )

  signed_nonempty :
      (secret : Str) (seconds : ℕ) (body : Str) (r : Request)
      → ((key text : Str) → is_empty (hmac key text) ≡ false)
      → is_empty (header header_signature (signed_request secret seconds body r)) ≡ false
  unfolding sign_request compute_signature
  signed_nonempty secret seconds body r digests =
      ap is_empty (signed_headers secret seconds body r).0
      ∙ hex_encode-nonempty _ (digests secret _)

  module _ {ℓ} (quote : Str → Str) (message : AuthError → Str) {S : Type ℓ} where
    -- A request signed with the server's key reaches the handler as the client sent it, with its body, if
    -- the clocks of client and server differ by at most the permitted skew, which is five minutes where
    -- none is configured. Digests are not empty, the server's clock is before the year 2262 and the
    -- client's before 2242.
    pub hmac_auth-sign_request :
        (cfg : HmacConfig) (now seconds : ℕ) (body : Str) (r : Request) (next : Handler S)
        (c : Conn S)
        → (let max = (with_default_skew cfg).max_clock_skew in
            (max < 2 ^ 63 - 1)
            × (now ≤ seconds * 1000000000 + max)
            × (seconds * 1000000000 ≤ now + max))
        → now < 2 ^ 63
        → seconds < 2 ^ 33
        → ((key text : Str) → is_empty (hmac key text) ≡ false)
        → let sent = signed_request cfg.secret seconds body r in
          hmac_auth hmac quote message cfg now next sent c ≡ next sent c
    unfolding hmac_auth
    hmac_auth-sign_request cfg now seconds body r next c near clock seconds_small digests =
        let cfg' = with_default_skew cfg in
        let sent = signed_request cfg.secret seconds body r in
        let passes : verify_hmac hmac cfg' now sent ≡ ok sent =
          (verify_hmac_iff hmac cfg' now sent sent near.0 clock).1 (
            refl,
            signed_nonempty cfg.secret seconds body r digests,
            signed-Genuine cfg' now seconds body r (near.1, near.2) seconds_small,
          ) in
        elim (Bool-cases (should_skip_auth r.path cfg'.skip_paths)) [
          | inl skipped ↦ rw (hmac_auth, skipped) refl
          | inr guarded ↦ rw (hmac_auth, guarded, passes) refl
        ]
