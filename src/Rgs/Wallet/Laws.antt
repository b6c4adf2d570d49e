-- ===== src/Rgs/Wallet/Laws.antt =====
-- What the rest of server/rgs relies on in a wallet, as documented on the interface in
-- server/rgs/wallet.go.
use marbles_game.Prelude.{
  Bool, Str, false, if◌then◌else◌, is_ok, ok, str_eq, u64_mod, ℕ, ◌&&◌, ◌+◌, ◌<◌, ◌||◌, ◌≡◌,
}
use marbles_game.Rgs.Wallet.{Wallet}

-- `account` is the money of a player, and `used` tells which transaction ids were applied. A debit and a
-- credit move the money of the player that they name, and of nobody else.
pub record LawfulWallet (w : Wallet) : Type 0 where
  pub account : Str → w.State → ℕ
  pub used : Str → w.State → Bool
  pub debit_ok :
      (p : Str) (a : ℕ) (t q : Str) (s : w.State)
      → used t s ≡ false
      → (w.debit p a t s).0 ≡ ok tt
      → account q s ≡ account q (w.debit p a t s).1 + (if str_eq p q then a else 0)
  pub debit_err :
      (p : Str) (a : ℕ) (t : Str) (s : w.State)
      → is_ok (w.debit p a t s).0 ≡ false
      → (w.debit p a t s).1 ≡ s
  pub debit_used :
      (p : Str) (a : ℕ) (t u : Str) (s : w.State)
      → used u (w.debit p a t s).1 ≡ (used u s || (is_ok (w.debit p a t s).0 && str_eq t u))
  pub credit_ok :
      (p : Str) (a : ℕ) (t q : Str) (s : w.State)
      → used t s ≡ false
      → account p s + a < u64_mod
      → (w.credit p a t s).0 ≡ ok tt
      → account q (w.credit p a t s).1 ≡ account q s + (if str_eq p q then a else 0)
  pub credit_err :
      (p : Str) (a : ℕ) (t : Str) (s : w.State)
      → is_ok (w.credit p a t s).0 ≡ false
      → (w.credit p a t s).1 ≡ s
  pub credit_used :
      (p : Str) (a : ℕ) (t u : Str) (s : w.State)
      → used u (w.credit p a t s).1 ≡ (used u s || (is_ok (w.credit p a t s).0 && str_eq t u))
  -- A player whose account was debited can be credited.
  pub refundable :
      (p : Str) (a b : ℕ) (t u : Str) (s : w.State)
      → (w.debit p a t s).0 ≡ ok tt
      → used u (w.debit p a t s).1 ≡ false
      → (w.credit p b u (w.debit p a t s).1).0 ≡ ok tt
