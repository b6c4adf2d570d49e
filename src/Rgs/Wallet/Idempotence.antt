-- ===== src/Rgs/Wallet/Idempotence.antt =====
-- Transaction ids of `MockWallet` (server/rgs/wallet.go): a retry has no second effect.
use marbles_game.Prelude.{
  List, Option-cases, Str, [], add_u64, arith, eqb_ℤ_iff, inl, inr, is_some, neg_i64, ok, some,
  str_eq_iff, str_eq_inst, to_i64, true, ℕ, ℤ, ◌-◌, ◌∷◌, ◌≡◌,
}
use marbles_game.Prelude.Dict.{lookup, lookup-insert}
use marbles_game.Rgs.Wallet.{MockWallet, Op, apply, credits, debits, run}

abbrev pub player_of : Op → Str
player_of (debits p a t) = p
player_of (credits p a t) = p

abbrev pub amount_of : Op → ℕ
amount_of (debits p a t) = a
amount_of (credits p a t) = a

abbrev pub tx_of : Op → Str
tx_of (debits p a t) = t
tx_of (credits p a t) = t

-- The signed amount that is recorded for a call.
abbrev pub entry_of : Op → ℤ
entry_of (debits p a t) = neg_i64 (to_i64 a)
entry_of (credits p a t) = to_i64 a

-- A call has been applied, by its record and its player's account.
abbrev pub Recorded : Op → MockWallet → Type 0
Recorded op w =
    (lookup (tx_of op) w.applied ≡ some (entry_of op))
    × (is_some (lookup (player_of op) w.balances) ≡ true)

apply-Recorded : (op : Op) (w : MockWallet) → (apply op w).0 ≡ ok tt → Recorded op (apply op w).1
unfolding apply
apply-Recorded (debits p a t) w h = elim (Option-cases (lookup p w.balances)) [
  | inl e ↦ ground arith
  | inr (have, e) ↦ elim (Option-cases (lookup t w.applied)) [
    | inl f ↦ ground (
      arith,
      lookup-insert p p (have - a) w.balances,
      lookup-insert t t (neg_i64 (to_i64 a)) w.applied,
      str_eq_iff p p,
      str_eq_iff t t,
    )
    | inr (prev, f) ↦ ground (arith, eqb_ℤ_iff prev (neg_i64 (to_i64 a)))
  ]
]
apply-Recorded (credits p a t) w h = elim (Option-cases (lookup p w.balances)) [
  | inl e ↦ ground arith
  | inr (have, e) ↦ elim (Option-cases (lookup t w.applied)) [
    | inl f ↦ ground (
      arith,
      lookup-insert p p (add_u64 have a) w.balances,
      lookup-insert t t (to_i64 a) w.applied,
      str_eq_iff p p,
      str_eq_iff t t,
    )
    | inr (prev, f) ↦ ground (arith, eqb_ℤ_iff prev (to_i64 a))
  ]
]

-- No call changes a record or removes an account.
apply_keeps :
    (op : Op) (t p : Str) (v : ℤ) (w : MockWallet)
    → lookup t w.applied ≡ some v
    → is_some (lookup p w.balances) ≡ true
    → (lookup t (apply op w).1.applied ≡ some v)
      × (is_some (lookup p (apply op w).1.balances) ≡ true)
unfolding apply
apply_keeps (debits q a u) t p v w h k = elim (Option-cases (lookup q w.balances)) [
  | inl e ↦ ground arith
  | inr (have, e) ↦ ground (
    arith,
    lookup-insert q p (have - a) w.balances,
    lookup-insert u t (neg_i64 (to_i64 a)) w.applied,
    str_eq_iff u t,
  )
]
apply_keeps (credits q a u) t p v w h k = elim (Option-cases (lookup q w.balances)) [
  | inl e ↦ ground arith
  | inr (have, e) ↦ ground (
    arith,
    lookup-insert q p (add_u64 have a) w.balances,
    lookup-insert u t (to_i64 a) w.applied,
    str_eq_iff u t,
  )
]

run-Recorded : (op : Op) (ops : List Op) (w : MockWallet) → Recorded op w → Recorded op (run ops w)
unfolding run
run-Recorded op [] w r = r
run-Recorded op (o ∷ ops) w r =
    run-Recorded op ops (apply o w).1
      (apply_keeps o (tx_of op) (player_of op) (entry_of op) w r.0 r.1)

apply-replay : (op : Op) (w : MockWallet) → Recorded op w → apply op w ≡ (ok tt, w)
unfolding apply
apply-replay (debits p a t) w r =
    ground (arith, eqb_ℤ_iff (neg_i64 (to_i64 a)) (neg_i64 (to_i64 a)))
apply-replay (credits p a t) w r = ground (arith, eqb_ℤ_iff (to_i64 a) (to_i64 a))

-- A call that once succeeded can be retried after any other calls: it succeeds again and changes
-- nothing, so that no bet is charged and no prize is paid twice.
pub run_idempotent :
    (op : Op) (ops : List Op) (w : MockWallet)
    → (apply op w).0 ≡ ok tt
    → let later = run ops (apply op w).1 in apply op later ≡ (ok tt, later)
run_idempotent op ops w h = apply-replay op _ (run-Recorded op ops _ (apply-Recorded op w h))
