-- ===== src/Rgs/Wallet/Conservation.antt =====
-- The money in `MockWallet` over a history of calls (server/rgs/wallet.go).
use marbles_game.Prelude.{
  List, Str, [], arith, false, if◌then◌else◌, is_ok, is_some, not, str_eq_inst, true, u64_mod, ℕ,
  ◌&&◌, ◌+◌, ◌<◌, ◌∷◌, ◌≡◌,
}
use marbles_game.Prelude.Dict.{lookup}
use marbles_game.Rgs.Wallet.{MockWallet, Op, apply, credits, debits, run}
use marbles_game.Rgs.Wallet.Accounts.{credit_ok_lem, debit_ok_lem, total}

abbrev pub tx_id : Op → Str
tx_id (debits p a t) = t
tx_id (credits p a t) = t

-- The calls of a history that moved money: they succeeded under a transaction id that was new.
abbrev pub moving : List Op → MockWallet → List Op
moving [] w = []
moving (op ∷ ops) w =
    let rest = moving ops (apply op w).1 in
    if is_ok (apply op w).0 && not (is_some (lookup (tx_id op) w.applied)) then op ∷ rest else rest

abbrev pub credited : List Op → ℕ
credited [] = 0
credited (debits p a t ∷ ops) = credited ops
credited (credits p a t ∷ ops) = a + credited ops

abbrev pub debited : List Op → ℕ
debited [] = 0
debited (debits p a t ∷ ops) = a + debited ops
debited (credits p a t ∷ ops) = debited ops

-- A call that moves no money leaves the balances alone.
apply_still :
    (op : Op) (w : MockWallet)
    → (is_ok (apply op w).0 && not (is_some (lookup (tx_id op) w.applied))) ≡ false
    → (apply op w).1.balances ≡ w.balances
unfolding apply
apply_still (debits p a t) w h = ground arith
apply_still (credits p a t) w h = ground arith

apply_moves :
    (op : Op) (w : MockWallet)
    → (is_ok (apply op w).0 && not (is_some (lookup (tx_id op) w.applied))) ≡ true
    → total w.balances + credited (op ∷ []) < u64_mod
    → total (apply op w).1.balances + debited (op ∷ []) ≡ total w.balances + credited (op ∷ [])
unfolding apply
apply_moves (debits p a t) w h room = ground (arith, debit_ok_lem p a t w)
apply_moves (credits p a t) w h room = ground (arith, credit_ok_lem p a t w)

-- Over any history, unless the money ever reaches 2^64, the sum of the balances changes by exactly
-- what the effective credits put in and the effective debits take out.
pub run_conserves :
    (ops : List Op) (w : MockWallet)
    → total w.balances + credited (moving ops w) < u64_mod
    → total (run ops w).balances + debited (moving ops w)
      ≡ total w.balances + credited (moving ops w)
unfolding run
run_conserves [] w room = omega arith
run_conserves (debits p a t ∷ ops) w room = ground (
  arith,
  run_conserves ops (apply (debits p a t) w).1,
  apply_moves (debits p a t) w,
  apply_still (debits p a t) w,
)
run_conserves (credits p a t ∷ ops) w room = ground (
  arith,
  run_conserves ops (apply (credits p a t) w).1,
  apply_moves (credits p a t) w,
  apply_still (credits p a t) w,
)
