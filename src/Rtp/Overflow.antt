-- ===== src/Rtp/Overflow.antt =====
-- The overflow checks of rtp.go against unbounded arithmetic.
use marbles_game.Prelude.{
  All, Bool-cases, List, [], add_u64, arith, if◌then◌else◌, inl, inr, ltb, max_u64, none, some, sum,
  u64_mod, ℕ, ◌*◌, ◌+◌, ◌-◌, ◌/◌, ◌<◌, ◌∷◌, ◌≡◌,
}
use marbles_game.Rtp.{pot_from}

-- The loop returns the exact sum, unless a partial sum would leave the range of uint64.
pub pot_from-eq :
    (total : ℕ) (bs : List ℕ)
    → total < u64_mod
    → All (λ b. b < u64_mod) bs
    → pot_from total bs ≡ (if ltb max_u64 (total + sum bs) then none else some (total + sum bs))
unfolding pot_from
pot_from-eq total [] h hs = ground arith
pot_from-eq total (b ∷ bs) h hs = elim (Bool-cases (ltb (max_u64 - b) total)) [
  | inl over ↦ rw over (ground arith)
  | inr fits ↦ rw fits (ground (arith, pot_from-eq (add_u64 total b) bs))
]

-- The test `total > MaxUint64 / bps` is exact for a positive divisor.
pub div_test : (m t b : ℕ) → 0 < b → ltb (m / b) t ≡ ltb m (t * b)
div_test m t b h = grind arith
