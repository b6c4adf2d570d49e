-- ===== src/Cmd/Rgsd/Counts.antt =====
-- The counting wallet of server/cmd/rgsd/main.go: it does what the wallet inside does, and counts.
use marbles_game.Prelude.{
  Bool, Exec, List, Result, Str, [], arith, err, false, if◌then◌else◌, is_ok, length, ok, refl,
  true, u64_mod, ℕ, ◌+◌, ◌<◌, ◌∷◌, ◌≡◌, ◌≤◌,
}
use marbles_game.Rgs.Errors.{Error}
use marbles_game.Rgs.Wallet.{Op, Wallet, credits, debits}
use marbles_game.Metrics.{Counter, inc}
use marbles_game.Cmd.Rgsd.{Counting, count_debit, counting, counting_credit, counting_debit}

-- A call of any wallet, and a sequence of calls with their results.
abbrev pub call : (wal : Wallet) → Op → Exec Error wal.State (Unit {0})
call wal (debits p a t) = wal.debit p a t
call wal (credits p a t) = wal.credit p a t

abbrev pub calls : (wal : Wallet) → List Op → wal.State → List (Result Error (Unit {0})) × wal.State
calls wal [] s = ([], s)
calls wal (op ∷ ops) s =
    let (r, s') = call wal op s in let (rs, s'') = calls wal ops s' in (r ∷ rs, s'')

-- How many of the debits have succeeded, or failed.
abbrev pub debits_that : Bool → List Op → List (Result Error (Unit {0})) → ℕ
debits_that good [] rs = 0
debits_that good (op ∷ ops) [] = 0
debits_that good (debits p a t ∷ ops) (r ∷ rs) =
    (if is_ok r then (if good then 1 else 0) else (if good then 0 else 1)) + debits_that good ops rs
debits_that good (credits p a t ∷ ops) (r ∷ rs) = debits_that good ops rs

abbrev plus_count : ℕ → Counter → Counter
plus_count k c = record c { n = c.n + k }

module _ (wal : Wallet) where
  -- The counters after a call.
  abbrev tick : Op → Result Error (Unit {0}) → Counting wal.State → Counting wal.State
  tick (debits p a t) (ok done) c = record c { accepted = inc c.accepted }
  tick (debits p a t) (err e) c = record c { rejected = inc c.rejected }
  tick (credits p a t) r c = c

  count_debit_lem :
      (p : Str) (a : ℕ) (t : Str) (r : Result Error (Unit {0})) (s : wal.State)
      (c : Counting wal.State)
      → count_debit (r, s) c ≡ (r, record (tick (debits p a t) r c) { wallet = s })
  unfolding count_debit
  count_debit_lem p a t (ok done) s c = refl
  count_debit_lem p a t (err e) s c = refl

  call-counting :
      (op : Op) (c : Counting wal.State)
      → call (counting wal) op c ≡ (
        (call wal op c.wallet).0,
        record (tick op (call wal op c.wallet).0 c) { wallet = (call wal op c.wallet).1 },
      )
  unfolding counting_debit counting_credit
  call-counting (debits p a t) c =
      count_debit_lem p a t (wal.debit p a t c.wallet).0 (wal.debit p a t c.wallet).1 c
  call-counting (credits p a t) c = refl

  tick-le :
      (op : Op) (r : Result Error (Unit {0})) (c : Counting wal.State)
      → (c.accepted.n + 1 < u64_mod) × (c.rejected.n + 1 < u64_mod)
      → ((tick op r c).accepted.n ≤ c.accepted.n + 1)
        × ((tick op r c).rejected.n ≤ c.rejected.n + 1)
  unfolding inc
  tick-le (debits p a t) (ok done) c small = ground arith
  tick-le (debits p a t) (err e) c small = ground arith
  tick-le (credits p a t) r c small = ground arith

  tick_adds :
      (op : Op) (ops : List Op) (r : Result Error (Unit {0})) (rs : List (Result Error (Unit {0})))
      (c : Counting wal.State)
      → (c.accepted.n + 1 < u64_mod) × (c.rejected.n + 1 < u64_mod)
      → (plus_count (debits_that true ops rs) (tick op r c).accepted
          ≡ plus_count (debits_that true (op ∷ ops) (r ∷ rs)) c.accepted)
        × (plus_count (debits_that false ops rs) (tick op r c).rejected
            ≡ plus_count (debits_that false (op ∷ ops) (r ∷ rs)) c.rejected)
  unfolding inc
  tick_adds (debits p a t) ops (ok done) rs c small = (ground arith, ground arith)
  tick_adds (debits p a t) ops (err e) rs c small = (ground arith, ground arith)
  tick_adds (credits p a t) ops r rs c small = (refl, refl)

  -- Any calls of the counting wallet have the results that the wallet inside gives, and leave it as they
  -- would without the counting; meanwhile the two counters have grown by the number of debits that
  -- succeeded and that failed. Neither counter reaches 2^64.
  pub calls-counting :
      (ops : List Op) (c : Counting wal.State)
      → c.accepted.n + length ops < u64_mod
      → c.rejected.n + length ops < u64_mod
      → let (rs, s) = calls wal ops c.wallet in
        calls (counting wal) ops c ≡ (
          rs,
          record {
            wallet = s;
            accepted = plus_count (debits_that true ops rs) c.accepted;
            rejected = plus_count (debits_that false ops rs) c.rejected;
          },
        )
  calls-counting [] c room_a room_r = ground arith
  calls-counting (op ∷ ops) c room_a room_r =
      let r = (call wal op c.wallet).0 in
      let s = (call wal op c.wallet).1 in
      let rs = (calls wal ops s).0 in
      let c' : Counting wal.State = record (tick op r c) { wallet = s } in
      let small : (c.accepted.n + 1 < u64_mod) × (c.rejected.n + 1 < u64_mod) =
        (omega arith, omega arith) in
      let (a, b) = tick-le op r c small in
      let rest = calls-counting ops c' (omega arith) (omega arith) in
      let (e, f) = tick_adds op ops r rs c small in
      rw (call-counting op c, rest)
        (λ i. (r ∷ rs, record { wallet = (calls wal ops s).1; accepted = e i; rejected = f i }))
