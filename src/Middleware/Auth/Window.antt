-- ===== src/Middleware/Auth/Window.antt =====
-- Which timestamps the skew test of `verifyHMAC` in server/middleware/middleware.go lets through.
use marbles_game.Prelude.{
  Bool-cases, Option-cases, Result, Str, [], ap, arith, false, inl, inr, is_empty, ltb_ℤ, negsuc,
  ok, pos, refl, some, str_eq, str_eq_iff, sym, ℕ, ℤ, ◌*◌, ◌+◌, ◌-◌, ◌<◌, ◌^◌, ◌↔◌, ◌∙◌, ◌∷◌, ◌≡◌,
  ◌≤◌, ◌⊎◌,
}
use marbles_game.Middleware.Auth.{
  AuthError, HmacConfig, check_signature, clock_skew, compute_signature, header_signature,
  header_timestamp, since, time_unix, verify_hmac,
}
use marbles_game.Std.Decimal.{IsInt64, parse_int, parse_int-IsInt64, signed}
use marbles_game.Middleware.Http.{Request, header}

-- At most `max` nanoseconds before or after the server's clock; or so far in the future that the distance
-- is no `Duration` any more. The latest seconds wrap around, and are refused.
abbrev pub Timely : ℕ → ℕ → ℤ → Type 0
Timely max now (pos s) =
    (s + 62135596800 < 2 ^ 63)
    × (((now ≤ s * 1000000000 + max) × (s * 1000000000 ≤ now + max))
        ⊎ (now + 2 ^ 63 ≤ s * 1000000000))
Timely max now (negsuc n) = now + (n + 1) * 1000000000 ≤ max

pub Timely-iff :
    (max now : ℕ) (ts : ℤ)
    → IsInt64 ts
    → max < 2 ^ 63 - 1
    → now < 2 ^ 63
    → (ltb_ℤ (pos max) (clock_skew now ts) ≡ false) ↔ Timely max now ts
unfolding clock_skew time_unix since
Timely-iff max now (pos s) range small clock = (λ e. ground arith, λ t. ground arith)
Timely-iff max now (negsuc n) range small clock = (λ e. ground arith, λ t. ground arith)

timed_of_parsed : (s : Str) (ts : ℤ) → parse_int s ≡ some ts → is_empty s ≡ false
unfolding parse_int
timed_of_parsed [] ts e = cc
timed_of_parsed (c ∷ s) ts e = refl

module _ (hmac : Str → Str → Str) where
  -- What a request must be to pass.
  abbrev pub Genuine : HmacConfig → ℕ → Request → Type 0
  Genuine cfg now r =
      (ts : ℤ) × (body : Str) × (parse_int (header header_timestamp r) ≡ some ts)
      × Timely cfg.max_clock_skew now ts
      × (r.body ≡ some body)
      × (header header_signature r
          ≡ compute_signature hmac cfg.secret r.method r.path (header header_timestamp r) body)

  check_signature_iff :
      (cfg : HmacConfig) (r r' : Request)
      → (check_signature hmac cfg r ≡ ok r') ↔ (
          (r' ≡ r)
          × ((body : Str) × (r.body ≡ some body)
              × (header header_signature r
                  ≡ compute_signature hmac cfg.secret r.method r.path
                      (header header_timestamp r)
                      body)))
  unfolding check_signature
  check_signature_iff cfg r r' = (
    λ e. elim (Option-cases r.body) [
      | inl unread ↦ cc (rw (check_signature, unread) at e)
      | inr (body, read) ↦ elim (Bool-cases (str_eq (signature body) (header header_signature r))) [
        | inr differs ↦ cc (rw (check_signature, read, differs) at e)
        | inl same ↦ (
          restored r' body read (rw (check_signature, read, same) at e),
          (body, read, sym ((str_eq_iff _ _).0 same)),
        )
      ]
    ],
    λ (kept, (body, read, signed)).
        let same = (str_eq_iff (signature body) (header header_signature r)).1 (sym signed) in
        rw (check_signature, read, same)
          (ap ok (ap (λ o. record r { body = o }) (sym read) ∙ sym kept)),
  )
    where
      signature : Str → Str
      signature body =
          compute_signature hmac cfg.secret r.method r.path (header header_timestamp r) body

      restored :
          (q : Request) (body : Str)
          → r.body ≡ some body
          → ◌≡◌ {A = Result AuthError Request} (ok (record r { body = some body })) (ok q)
          → q ≡ r
      restored q body read e = cc (e, ap (λ o. record r { body = o }) read)

  -- `verifyHMAC` accepts a request exactly if its signature is the one computed from the secret, its
  -- method, path, timestamp and body, and is not empty, and its timestamp is a decimal int64 of seconds
  -- that is off by at most the permitted skew, or is 2^63 nanoseconds or more in the future and yet is
  -- below 2^63 - 62135596800 seconds, from where on the seconds of a Time wrap around; the accepted
  -- request is handed on as it was, its body included. The skew is a Duration below the longest one, and
  -- the server's clock is before the year 2262.
  pub verify_hmac_iff :
      (cfg : HmacConfig) (now : ℕ) (r r' : Request)
      → cfg.max_clock_skew < 2 ^ 63 - 1
      → now < 2 ^ 63
      → (verify_hmac hmac cfg now r ≡ ok r')
        ↔ ((r' ≡ r) × (is_empty (header header_signature r) ≡ false) × Genuine cfg now r)
  unfolding verify_hmac
  verify_hmac_iff cfg now r r' small clock = (
    λ e. elim (Bool-cases (is_empty (header header_signature r))) [
      | inl unsigned ↦ cc (rw (verify_hmac, unsigned) at e)
      | inr some_signature ↦ elim (Bool-cases (is_empty (header header_timestamp r))) [
        | inl untimed ↦ cc (rw (verify_hmac, some_signature, untimed) at e)
        | inr timed ↦ elim (Option-cases (parse_int (header header_timestamp r))) [
          | inl unread ↦ cc (rw (verify_hmac, some_signature, timed, unread) at e)
          | inr (ts, parsed) ↦
              elim (Bool-cases (ltb_ℤ (pos cfg.max_clock_skew) (clock_skew now ts))) [
                | inl late ↦ cc (rw (verify_hmac, some_signature, timed, parsed, late) at e)
                | inr timely ↦
                    let range = parse_int-IsInt64 (header header_timestamp r) ts parsed in
                    let window =
                      (Timely-iff cfg.max_clock_skew now ts range small clock).0 timely in
                    let (kept, (body, read, signature)) =
                      (check_signature_iff cfg r r').0
                        (rw (verify_hmac, some_signature, timed, parsed, timely) at e) in
                    (kept, some_signature, (ts, body, parsed, window, read, signature))
              ]
        ]
      ]
    ],
    λ (kept, some_signature, (ts, body, parsed, window, read, signature)).
        let range = parse_int-IsInt64 (header header_timestamp r) ts parsed in
        let timely = (Timely-iff cfg.max_clock_skew now ts range small clock).1 window in
        rw
          (
            verify_hmac,
            some_signature,
            timed_of_parsed (header header_timestamp r) ts parsed,
            parsed,
            timely,
          )
          ((check_signature_iff cfg r r').1 (kept, (body, read, signature))),
  )
