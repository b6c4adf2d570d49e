-- ===== src/Cmd/Rgsd.antt =====
-- server/cmd/rgsd/main.go: the wrappers that the game server's daemon puts around its wallet, its simulator
-- and its handlers, and what it reads from the environment. Flags, the listener and the shutdown are left
-- out.
pub mod Counts
pub mod Chain
pub mod Guard
mod Tests
pub mod Numbers
use marbles_game.Prelude.{
  Bool, Exec, Option, Result, Str, [], codes, err, if◌then◌else◌, is_empty, leb, neg_i64, none, not,
  ok, pos, some, to_i64, true, u64, ℕ, ℤ, ◌&&◌, ◌*◌, ◌+◌, ◌-◌, ◌==◌, ◌||◌, ◌∷◌,
}
use marbles_game.Std.Text.{trim_space}
use marbles_game.Rgs.Errors.{Error}
use marbles_game.Rgs.Wallet.{Wallet}
use marbles_game.Metrics.{Counter, Histogram, inc, observe}
use marbles_game.Metrics
use marbles_game.Middleware.Http.{Handler}
use marbles_game.Middleware.Wrappers.{logging, recovery, request_id}
use marbles_game.Middleware.Auth.{AuthError, HmacConfig, hmac_auth}

-- `countingWallet`, over the state of the wallet that it wraps
pub record Counting (S : Type 0) : Type 0 where
  pub wallet : S
  pub accepted : Counter
  pub rejected : Counter

module _ {S : Type 0} where
  unfoldable pub count_debit : Result Error (Unit {0}) × S → Exec Error (Counting S) (Unit {0})
  unfolding inc
  count_debit (err e, s) c = (err e, record c { wallet = s; rejected = inc c.rejected })
  count_debit (ok done, s) c = (ok tt, record c { wallet = s; accepted = inc c.accepted })

-- `countingWallet.Debit`
unfoldable pub counting_debit :
    (wal : Wallet) → Str → ℕ → Str → Exec Error (Counting wal.State) (Unit {0})
unfolding count_debit
counting_debit wal player amount tx c = count_debit (wal.debit player amount tx c.wallet) c

-- The methods that `countingWallet` has from the wallet inside.
unfoldable pub counting_credit :
    (wal : Wallet) → Str → ℕ → Str → Exec Error (Counting wal.State) (Unit {0})
counting_credit wal player amount tx c =
    let (r, s) = wal.credit player amount tx c.wallet in (r, record c { wallet = s })

abbrev pub counting : Wallet → Wallet
counting wal = record {
  State = Counting wal.State;
  debit = counting_debit wal;
  credit = counting_credit wal;
  balance = λ player c. wal.balance player c.wallet;
}

-- The two metrics of `instrumentedSim`.
pub record SimMetrics (F : Type 0) : Type 0 where
  pub rounds : Counter
  pub duration : Histogram F

-- `instrumentedSim`, on the result of the runner inside, with the seconds that it took
unfoldable pub instrumented {ℓ κ} :
    (fl : Metrics.Floats) {E : Type ℓ} {A : Type κ}
    → Result E A
    → fl.Float
    → Exec E (SimMetrics fl.Float) A
unfolding inc observe
instrumented fl (err e) elapsed m = (err e, m)
instrumented fl (ok res) elapsed m =
    (ok res, record m { rounds = inc m.rounds; duration = observe fl elapsed m.duration })

-- `envOr`, on the value of the variable
unfoldable pub env_or : Str → Str → Str
unfolding trim_space
env_or value dflt = let v = trim_space value in if not (is_empty v) then v else dflt

-- The loop of `parseIntStrict` that looks at each byte; a sign may stand first.
unfoldable pub all_digits : Str → Bool
all_digits [] = true
all_digits (c ∷ s) = leb b'0' c && leb c b'9' && all_digits s

abbrev pub well_formed : Str → Bool
well_formed [] = true
well_formed (c ∷ s) = (leb b'0' c && leb c b'9' || c == b'-') && all_digits s

-- The second loop: `n` is an int, as its bit pattern.
unfoldable pub accumulate : ℕ → Str → ℕ
accumulate n [] = n
accumulate n (c ∷ s) = accumulate (u64 (n * 10 + (c - b'0'))) s

-- `*out = n * sign`
unfoldable pub strict_value : Str → ℤ
unfolding accumulate
strict_value [] = pos 0
strict_value (c ∷ s) =
    if c == b'-' then neg_i64 (to_i64 (accumulate 0 s)) else to_i64 (accumulate 0 (c ∷ s))

-- `parseIntStrict`
unfoldable pub parse_int_strict : Str → Option ℤ
unfolding all_digits strict_value
parse_int_strict s = if not (well_formed s) then none else some (strict_value s)

-- `envIntOr`, on the value of the variable
unfoldable pub env_int_or : Str → ℤ → ℤ
unfolding trim_space parse_int_strict
env_int_or value dflt =
    let v = trim_space value in
    if is_empty v then dflt else elim (parse_int_strict v) [ none ↦ dflt | some n ↦ n ]

-- The configuration of `HMAC` in `chain`
abbrev pub guard_config : Str → HmacConfig
guard_config secret = record {
  secret = secret;
  max_clock_skew = 0;
  skip_paths = codes "/v1/health" ∷ [];
}

-- What `chain` in `main` wraps around the handlers of /v1/: without a secret there is no `HMAC`.
module _ {ℓ} (hmac : Str → Str → Str) (quote : Str → Str) (message : AuthError → Str)
    {S : Type ℓ} where
  unfoldable pub guarded : Option Str → ℕ → Handler S → Handler S
  unfolding hmac_auth
  guarded none now h = h
  guarded (some secret) now h = hmac_auth hmac quote message (guard_config secret) now h

  unfoldable pub chain : Option Str → ℕ → Str → Handler S → Handler S
  unfolding guarded request_id recovery logging
  chain secret now random h = logging (recovery quote (request_id random (guarded secret now h)))
