-- ===== src/Middleware/Auth.antt =====
-- `HMAC` of server/middleware/middleware.go, the authentication of requests by a signature. HMAC-SHA256 is
-- the parameter `hmac`; the text of an error is the parameter `message`. Times are nanoseconds since 1970,
-- and `now` is the clock of the server.
pub mod Window
pub mod Signing
pub mod Tests
use marbles_game.Prelude.{
  Bool, List, Result, Str, [], codes, err, false, if◌then◌else◌, is_empty, leb, ltb, ltb_ℤ, neg_i64,
  negsuc, none, not, ok, pos, some, str_eq, true, ℕ, ℤ, ◌*◌, ◌++◌, ◌+◌, ◌-◌, ◌==◌, ◌^◌, ◌∷◌,
}
use marbles_game.Std.Decimal.{parse_int}
use marbles_game.Std.Hex.{hex_encode}
use marbles_game.Std.Text.{has_prefix}
use marbles_game.Middleware.Http.{
  Conn, Handler, Request, header, on_writer, set_header, write, write_header,
}
use marbles_game.Middleware.Wrappers.{content_type}

abbrev pub header_signature : Str
header_signature = codes "X-Signature"

abbrev pub header_timestamp : Str
header_timestamp = codes "X-Timestamp"

pub record HmacConfig : Type 0 where
  pub secret : Str
  pub max_clock_skew : ℕ  -- nanoseconds
  pub skip_paths : List Str

pub data AuthError : Type 0 where
  missing_signature missing_timestamp invalid_timestamp skew_exceeded : AuthError
  read_failed signature_mismatch : AuthError

-- The default at the start of `HMAC`: five minutes.
unfoldable pub with_default_skew : HmacConfig → HmacConfig
with_default_skew cfg = record cfg {
  max_clock_skew = if cfg.max_clock_skew == 0 then 300000000000 else cfg.max_clock_skew;
}

-- `shouldSkipAuth`
unfoldable pub should_skip_auth : Str → List Str → Bool
unfolding has_prefix
should_skip_auth path [] = false
should_skip_auth path (p ∷ skips) =
    let rest = should_skip_auth path skips in if has_prefix path p then true else rest

-- The seconds since 1970 of `time.Unix(sec, 0)`. A `Time` counts them from the year 1 in an int64, which
-- wraps around at its upper end.
unfoldable pub time_unix : ℤ → ℤ
time_unix (negsuc n) = negsuc n
time_unix (pos n) = if leb (2 ^ 63) (n + 62135596800) then negsuc (2 ^ 64 - n - 1) else pos n

-- `Time.Sub` is the longest or the shortest `Duration` where the difference is none.
abbrev pub saturated : ℕ → ℕ
saturated n = if ltb n (2 ^ 63) then n else 2 ^ 63 - 1

-- `time.Since`, for a time of whole seconds
unfoldable pub since : ℕ → ℤ → ℤ
since now (pos s) =
    if leb (s * 1000000000) now
    then pos (saturated (now - s * 1000000000))
    else negsuc (saturated (s * 1000000000 - now - 1))
since now (negsuc s) = pos (saturated (now + (s + 1) * 1000000000))

-- The distance that `verifyHMAC` compares: `-skew` where `skew` is negative.
unfoldable pub clock_skew : ℕ → ℤ → ℤ
unfolding time_unix since
clock_skew now ts =
    let skew = since now (time_unix ts) in if ltb_ℤ skew (pos 0) then neg_i64 skew else skew

abbrev pub newline : Str
newline = 10 ∷ []

module _ (hmac : Str → Str → Str) where
  -- `computeSignature`
  unfoldable pub compute_signature : Str → Str → Str → Str → Str → Str
  compute_signature secret method path timestamp body =
      hex_encode (
        hmac secret
          (method ++ (newline ++ (path ++ (newline ++ (timestamp ++ (newline ++ body)))))))

  -- `SignRequest`
  unfoldable pub sign_request : Str → Str → Str → Str → Str → Str
  unfolding compute_signature
  sign_request secret method path timestamp body =
      compute_signature secret method path timestamp body

  -- `verifyHMAC` from the reading of the body on: the request with its body restored.
  unfoldable pub check_signature : HmacConfig → Request → Result AuthError Request
  unfolding compute_signature
  check_signature cfg r = elim r.body [
    | none ↦ err read_failed
    | some body ↦
        if not (
          str_eq (compute_signature cfg.secret r.method r.path (header header_timestamp r) body)
            (header header_signature r))
        then err signature_mismatch
        else ok (record r { body = some body })
  ]

  -- `verifyHMAC`
  unfoldable pub verify_hmac : HmacConfig → ℕ → Request → Result AuthError Request
  unfolding check_signature clock_skew parse_int
  verify_hmac cfg now r =
      if is_empty (header header_signature r)
      then err missing_signature
      else if is_empty (header header_timestamp r)
      then err missing_timestamp
      else elim (parse_int (header header_timestamp r)) [
        | none ↦ err invalid_timestamp
        | some ts ↦
            if ltb_ℤ (pos cfg.max_clock_skew) (clock_skew now ts)
            then err skew_exceeded
            else check_signature cfg r
      ]

  module _ {ℓ} (quote : Str → Str) (message : AuthError → Str) {S : Type ℓ} where
    -- The answer to a request that does not pass.
    unfoldable pub unauthorized : AuthError → Conn S → Conn S
    unfolding write_header write
    unauthorized e c =
        on_writer
          (λ w.
            write (codes "{\"error\":" ++ quote (message e) ++ codes "}")
              (write_header 401 (set_header content_type (codes "application/json") w)))
          c

    -- `HMAC`, with the configuration that has the default filled in
    unfoldable pub hmac_auth : HmacConfig → ℕ → Handler S → Handler S
    unfolding should_skip_auth verify_hmac unauthorized with_default_skew
    hmac_auth cfg now next r c =
        let cfg' = with_default_skew cfg in
        if should_skip_auth r.path cfg'.skip_paths
        then next r c
        else elim (verify_hmac cfg' now r) [ err e ↦ (ok tt, unauthorized e c) | ok r' ↦ next r' c ]
