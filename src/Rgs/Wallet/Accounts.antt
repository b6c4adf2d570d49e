-- ===== src/Rgs/Wallet/Accounts.antt =====
-- The balances of `MockWallet` (server/rgs/wallet.go), and that it is a lawful wallet.
use marbles_game.Prelude.{
  Option-cases, Str, [], add_u64, ap, arith, false, if◌then◌else◌, inl, inr, is_ok, is_some,
  neg_i64, none, ok, some, str_eq, str_eq_iff, str_eq_inst, to_i64, u64_mod, ℕ, ◌&&◌, ◌+◌, ◌-◌, ◌<◌,
  ◌||◌, ◌∷◌, ◌≡◌, ◌≤◌,
}
use marbles_game.Prelude.Dict.{Dict, insert, lookup, lookup-insert}
use marbles_game.Rgs.Wallet.{MockWallet, credit, debit, mock}
use marbles_game.Rgs.Wallet.Laws.{LawfulWallet}

-- The sum of all entries of a table of amounts.
abbrev pub total : Dict Str ℕ → ℕ
total [] = 0
total ((k, v) ∷ m) = v + total m

pub total-insert :
    (k : Str) (v old : ℕ) (m : Dict Str ℕ)
    → lookup k m ≡ some old
    → total (insert k v m) + old ≡ total m + v
unfolding lookup insert
total-insert k v old [] e = cc
total-insert k v old ((j, w) ∷ m) e = grind (arith, total-insert k v old m)

pub le-total : (k : Str) (old : ℕ) (m : Dict Str ℕ) → lookup k m ≡ some old → old ≤ total m
unfolding lookup
le-total k old [] e = cc
le-total k old ((j, w) ∷ m) e = grind (arith, le-total k old m)

pub debit_ok_lem :
    (p : Str) (a : ℕ) (t : Str) (w : MockWallet)
    → is_some (lookup t w.applied) ≡ false
    → (debit p a t w).0 ≡ ok tt
    → total w.balances ≡ total (debit p a t w).1.balances + a
unfolding debit
debit_ok_lem p a t w fresh h = elim (Option-cases (lookup p w.balances)) [
  | inl e ↦ ground arith
  | inr (have, e) ↦ ground (arith, total-insert p (have - a) have w.balances e)
]

pub credit_ok_lem :
    (p : Str) (a : ℕ) (t : Str) (w : MockWallet)
    → is_some (lookup t w.applied) ≡ false
    → total w.balances + a < u64_mod
    → (credit p a t w).0 ≡ ok tt
    → total (credit p a t w).1.balances ≡ total w.balances + a
unfolding credit
credit_ok_lem p a t w fresh room h = elim (Option-cases (lookup p w.balances)) [
  | inl e ↦ ground arith
  | inr (have, e) ↦
      ground
        (arith, total-insert p (add_u64 have a) have w.balances e, le-total p have w.balances e)
]

-- What `Balance` says of a player, 0 for one that the wallet does not know.
abbrev pub account_of : Str → MockWallet → ℕ
account_of q w = elim (lookup q w.balances) [ none ↦ 0 | some have ↦ have ]

pub debit_account_lem :
    (p : Str) (a : ℕ) (t q : Str) (w : MockWallet)
    → is_some (lookup t w.applied) ≡ false
    → (debit p a t w).0 ≡ ok tt
    → account_of q w ≡ account_of q (debit p a t w).1 + (if str_eq p q then a else 0)
unfolding debit
debit_account_lem p a t q w fresh h = elim (Option-cases (lookup p w.balances)) [
  | inl e ↦ ground arith
  | inr (have, e) ↦ ground (
    arith,
    lookup-insert p q (have - a) w.balances,
    str_eq_iff p q,
    ap (λ k. lookup k w.balances) {x = p} {y = q},
  )
]

pub credit_account_lem :
    (p : Str) (a : ℕ) (t q : Str) (w : MockWallet)
    → is_some (lookup t w.applied) ≡ false
    → account_of p w + a < u64_mod
    → (credit p a t w).0 ≡ ok tt
    → account_of q (credit p a t w).1 ≡ account_of q w + (if str_eq p q then a else 0)
unfolding credit
credit_account_lem p a t q w fresh room h = elim (Option-cases (lookup p w.balances)) [
  | inl e ↦ ground arith
  | inr (have, e) ↦ ground (
    arith,
    lookup-insert p q (add_u64 have a) w.balances,
    str_eq_iff p q,
    ap (λ k. lookup k w.balances) {x = p} {y = q},
  )
]

pub debit_err_lem :
    (p : Str) (a : ℕ) (t : Str) (w : MockWallet)
    → is_ok (debit p a t w).0 ≡ false
    → (debit p a t w).1 ≡ w
unfolding debit
debit_err_lem p a t w h = ground arith

pub credit_err_lem :
    (p : Str) (a : ℕ) (t : Str) (w : MockWallet)
    → is_ok (credit p a t w).0 ≡ false
    → (credit p a t w).1 ≡ w
unfolding credit
credit_err_lem p a t w h = ground arith

pub debit_used_lem :
    (p : Str) (a : ℕ) (t u : Str) (w : MockWallet)
    → is_some (lookup u (debit p a t w).1.applied)
      ≡ (is_some (lookup u w.applied) || (is_ok (debit p a t w).0 && str_eq t u))
unfolding debit
debit_used_lem p a t u w =
    ground (arith, lookup-insert t u (neg_i64 (to_i64 a)) w.applied, str_eq_iff t u)

pub credit_used_lem :
    (p : Str) (a : ℕ) (t u : Str) (w : MockWallet)
    → is_some (lookup u (credit p a t w).1.applied)
      ≡ (is_some (lookup u w.applied) || (is_ok (credit p a t w).0 && str_eq t u))
unfolding credit
credit_used_lem p a t u w = ground (arith, lookup-insert t u (to_i64 a) w.applied, str_eq_iff t u)

pub refundable_lem :
    (p : Str) (a b : ℕ) (t u : Str) (w : MockWallet)
    → (debit p a t w).0 ≡ ok tt
    → is_some (lookup u (debit p a t w).1.applied) ≡ false
    → (credit p b u (debit p a t w).1).0 ≡ ok tt
unfolding debit credit
refundable_lem p a b t u w h fresh = elim (Option-cases (lookup p w.balances)) [
  | inl e ↦ ground arith
  | inr (have, e) ↦ ground (arith, lookup-insert p p (have - a) w.balances, str_eq_iff p p)
]

-- The reference wallet keeps the promises of the interface.
abbrev pub mock_lawful : LawfulWallet mock
mock_lawful = record {
  account = account_of;
  used = λ t w. is_some (lookup t w.applied);
  debit_ok = debit_account_lem;
  debit_err = debit_err_lem;
  debit_used = debit_used_lem;
  credit_ok = credit_account_lem;
  credit_err = credit_err_lem;
  credit_used = credit_used_lem;
  refundable = refundable_lem;
}
