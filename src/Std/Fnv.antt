-- ===== src/Std/Fnv.antt =====
-- `hash/fnv` New64a over the big-endian bytes of a uint64.
use Prim.Native.Nat.{bit_xor}
use marbles_game.Prelude.{Str, [], codes, mul_u64, refl, suc, zero, ℕ, ◌%◌, ◌/◌, ◌^◌, ◌∷◌, ◌≡◌}

-- `binary.Write(h, binary.BigEndian, n)`: the low `k` bytes of `n`, the highest first.
unfoldable pub big_endian : ℕ → ℕ → Str
big_endian zero n = []
big_endian (suc k) n = (n / 256 ^ k % 256) ∷ big_endian k n

unfoldable pub fnv_from : ℕ → Str → ℕ
fnv_from h [] = h
fnv_from h (b ∷ bs) = fnv_from (mul_u64 (bit_xor h b) 1099511628211) bs

-- `h.Sum64()` after writing a round id
unfoldable pub fnv64a : ℕ → ℕ
unfolding big_endian fnv_from
fnv64a n = fnv_from 14695981039346656037 (big_endian 8 n)

-- The published test vector of the algorithm for the byte "a".
fnv_from_vector : fnv_from 14695981039346656037 (codes "a") ≡ 0xaf63dc4c8601ec8c
unfolding fnv_from
fnv_from_vector = refl
