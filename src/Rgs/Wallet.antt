-- ===== src/Rgs/Wallet.antt =====
-- server/rgs/wallet.go: the wallet interface of the operator, and `MockWallet`, its reference
-- implementation in memory.
pub mod Laws
pub mod Idempotence
pub mod Accounts
pub mod Conservation
mod Tests
use marbles_game.Prelude.{
  Exec, List, Option, Result, Str, [], add_u64, eqb_ℤ, err, if◌then◌else◌, ltb, neg_i64, none, not,
  ok, some, str_eq_inst, to_i64, ℕ, ℤ, ◌-◌, ◌∷◌,
}
use marbles_game.Prelude.Dict.{Dict, insert, lookup}
use marbles_game.Rgs.Errors.{
  Error, insufficient_funds, reason, sentinel, tx_reused, unknown_player, wrap,
}

-- `Wallet`, over a state of the implementation's choice.
pub record Wallet : Type 1 where
  pub State : Type 0
  pub debit : Str → ℕ → Str → Exec Error State (Unit {0})
  pub credit : Str → ℕ → Str → Exec Error State (Unit {0})
  pub balance : Str → State → Result Error ℕ

pub record MockWallet : Type 0 where
  pub balances : Dict Str ℕ  -- uint64
  pub applied : Dict Str ℤ  -- int64

-- `NewMockWallet`
abbrev pub new_mock_wallet : MockWallet
new_mock_wallet = record { balances = []; applied = [] }

-- `SetBalance`
unfoldable pub set_balance : Str → ℕ → MockWallet → MockWallet
set_balance player amount w = record w { balances = insert player amount w.balances }

-- The part of `Debit` after the replay check. The test keeps the subtraction exact.
unfoldable pub debit_fresh : Str → ℕ → Str → ℕ → Exec Error MockWallet (Unit {0})
debit_fresh player amount tx have w =
    if ltb have amount then (err (wrap (sentinel insufficient_funds)), w) else (
      ok tt,
      record w {
        balances = insert player (have - amount) w.balances;
        applied = insert tx (neg_i64 (to_i64 amount)) w.applied;
      },
    )

-- A transaction id that is there already: success for the same operation, else an error.
unfoldable pub replay : ℤ → ℤ → Exec Error MockWallet (Unit {0})
replay prev now w = if not (eqb_ℤ prev now) then (err (reason tx_reused), w) else (ok tt, w)

-- `MockWallet.Debit`
unfoldable pub debit : Str → ℕ → Str → Exec Error MockWallet (Unit {0})
unfolding debit_fresh replay
debit player amount tx w = elim (lookup player w.balances) [
  | none ↦ (err (wrap (sentinel unknown_player)), w)
  | some have ↦ elim (lookup tx w.applied) [
    | some prev ↦ replay prev (neg_i64 (to_i64 amount)) w
    | none ↦ debit_fresh player amount tx have w
  ]
]

unfoldable pub credit_fresh : Str → ℕ → Str → ℕ → Exec Error MockWallet (Unit {0})
credit_fresh player amount tx have w = (
  ok tt,
  record w {
    balances = insert player (add_u64 have amount) w.balances;
    applied = insert tx (to_i64 amount) w.applied;
  },
)

-- `MockWallet.Credit`
unfoldable pub credit : Str → ℕ → Str → Exec Error MockWallet (Unit {0})
unfolding credit_fresh replay
credit player amount tx w = elim (lookup player w.balances) [
  | none ↦ (err (wrap (sentinel unknown_player)), w)
  | some have ↦ elim (lookup tx w.applied) [
    | some prev ↦ replay prev (to_i64 amount) w
    | none ↦ credit_fresh player amount tx have w
  ]
]

-- `MockWallet.Balance`
unfoldable pub balance : Str → MockWallet → Result Error ℕ
balance player w = elim (lookup player w.balances) [
  | none ↦ err (wrap (sentinel unknown_player))
  | some have ↦ ok have
]

-- `AppliedAmount`
abbrev pub applied_amount : Str → MockWallet → Option ℤ
applied_amount tx w = lookup tx w.applied

abbrev pub mock : Wallet
mock = record { State = MockWallet; debit = debit; credit = credit; balance = balance }

-- Calls of the wallet, in any order.
pub data Op : Type 0 where
  debits : Str → ℕ → Str → Op
  credits : Str → ℕ → Str → Op

unfoldable pub apply : Op → Exec Error MockWallet (Unit {0})
unfolding debit credit
apply (debits p a t) = debit p a t
apply (credits p a t) = credit p a t

unfoldable pub run : List Op → MockWallet → MockWallet
run [] w = w
run (op ∷ ops) w = run ops (apply op w).1
