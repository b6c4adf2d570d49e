-- ===== src/Cmd/Rgsd/Tests.antt =====
-- The daemon's wrappers and the numbers of its environment (server/cmd/rgsd/main.go).
use marbles_game.Prelude.{
  Str, [], codes, err, false, is_ok, none, pos, refl, some, str_eq_inst, true, ℕ, ◌+◌, ◌||◌, ◌∷◌,
  ◌≡◌,
}
use marbles_game.Prelude.Dict.{Dict}
use marbles_game.Std.Text.{has_prefix}
use marbles_game.Middleware.Http.{Conn, Handler, Writer, fresh_writer}
use marbles_game.Middleware.Auth.{AuthError, verify_hmac, with_default_skew}
use marbles_game.Middleware.Auth.Tests.{clock, digest, plain}
use marbles_game.Cmd.Rgsd.{chain, guard_config, parse_int_strict}
use marbles_game.Cmd.Rgsd.Chain.{Logged, chain_logs}
use marbles_game.Cmd.Rgsd.Guard.{chain_guards}

-- A lone minus sign is 0, a plus sign is refused, and 2^64 + 7 wraps around to 7.
odd_numbers :
    (parse_int_strict (codes "-") ≡ some (pos 0))
    × (parse_int_strict (codes "+5") ≡ none)
    × (parse_int_strict (codes "18446744073709551623") ≡ some (pos 7))
unfolding parse_int_strict
odd_numbers = (refl, refl, refl)

abbrev crash : Handler ℕ
crash r c = (err tt, record c { state = c.state + 1 })

abbrev start : Conn ℕ
start = record { writer = fresh_writer; log = []; state = 0 }

abbrev same : Str → Str
same s = s

abbrev no_text : AuthError → Str
no_text e = []

chain_logs_example :
    Logged plain start (chain digest same no_text none clock (1 ∷ []) crash plain start)
chain_logs_example =
    chain_logs digest same no_text none clock (1 ∷ []) crash plain start (λ r c. (refl, refl)) refl

chain_guards_example :
    let cfg = with_default_skew (guard_config (codes "k")) in
    let (res, c') = chain digest same no_text (some (codes "k")) clock (1 ∷ []) crash plain start in
    let allowed =
      has_prefix plain.path (codes "/v1/health") || is_ok (verify_hmac digest cfg clock plain) in
    (allowed ≡ true
      → (id : Str) × (w : Writer) × (c'.state
          ≡ (crash (record plain { context_id = some id }) (record start { writer = w })).1.state))
    × (allowed ≡ false
        → (c'.state ≡ 0)
          × (start.writer.sent ≡ none
              → (headers : Dict Str Str) × (c'.writer.sent ≡ some (401, headers))))
chain_guards_example = chain_guards digest same no_text (codes "k") clock (1 ∷ []) crash plain start
