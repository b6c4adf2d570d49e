-- ===== src/Middleware/Auth/Tests.antt =====
-- A signed request and one from the far future (server/middleware/middleware.go), with a digest that is the
-- signed text itself.
use marbles_game.Prelude.{
  Str, [], arith, codes, false, is_empty, is_ok, none, ok, refl, some, str_eq, str_eq_inst, true, ℕ,
  ◌+◌, ◌↔◌, ◌∷◌, ◌≡◌,
}
use marbles_game.Prelude.Dict.{insert, lookup}
use marbles_game.Std.Decimal.{format_uint}
use marbles_game.Std.Hex.{hex_encode}
use marbles_game.Middleware.Http.{Conn, Handler, Request, fresh_writer, header}
use marbles_game.Middleware.Auth.{
  AuthError, HmacConfig, header_signature, hmac_auth, sign_request, verify_hmac, with_default_skew,
}
use marbles_game.Middleware.Auth.Window.{Genuine, verify_hmac_iff}
use marbles_game.Middleware.Auth.Signing.{hmac_auth-sign_request, signed_request}

abbrev pub digest : Str → Str → Str
digest key text = 1 ∷ text

abbrev pub config : HmacConfig
config = record { secret = codes "k"; max_clock_skew = 0; skip_paths = codes "/v1/health" ∷ [] }

abbrev pub plain : Request
plain = record {
  method = codes "POST";
  path = codes "/v1/rounds/start";
  headers = [];
  body = some [];
  context_id = none;
}

-- 1700000000 seconds, and four minutes later.
abbrev pub clock : ℕ
clock = 1700000240000000000

abbrev quote : Str → Str
quote s = s

abbrev message : AuthError → Str
message e = []

-- Counts its calls.
abbrev counter : Handler ℕ
counter r c = (ok tt, record c { state = c.state + 1 })

abbrev idle : Conn ℕ
idle = record { writer = fresh_writer; log = []; state = 0 }

hmac_auth-sign_request_example :
    let sent = signed_request digest config.secret 1700000000 (codes "x") plain in
    hmac_auth digest quote message config clock counter sent idle ≡ counter sent idle
unfolding with_default_skew
hmac_auth-sign_request_example =
    hmac_auth-sign_request digest quote message config clock 1700000000 (codes "x") plain counter
      idle (omega arith, omega arith, omega arith) (omega arith) (omega arith) (λ key text. refl)

-- Signed for the year 2318, 300 years after the clock and more.
abbrev early : Request
early = signed_request digest (codes "k") 11000000000 [] plain

verify_hmac_iff_example : (verify_hmac digest (with_default_skew config) clock early ≡ ok early) ↔ (
    (early ≡ early)
    × (is_empty (header header_signature early) ≡ false)
    × Genuine digest (with_default_skew config) clock early)
unfolding with_default_skew
verify_hmac_iff_example =
    verify_hmac_iff digest (with_default_skew config) clock early early (omega arith) (omega arith)

-- It is accepted 294 years too early; a request that is an hour early is not.
early_accepted :
    (is_ok (verify_hmac digest (with_default_skew config) clock early) ≡ true)
    × (is_ok (
          verify_hmac digest
            (with_default_skew config)
            clock
            (signed_request digest (codes "k") 1700003840 [] plain))
        ≡ false)
unfolding verify_hmac with_default_skew lookup insert str_eq format_uint hex_encode sign_request
early_accepted = (refl, refl)
