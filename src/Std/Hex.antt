-- ===== src/Std/Hex.antt =====
-- `hex.EncodeToString` and `hex.DecodeString` of encoding/hex.
use marbles_game.Prelude.{
  All, Option, Str, [], ap, arith, if◌then◌else◌, leb, ltb, none, refl, some, sym, ℕ, ◌%◌, ◌&&◌,
  ◌*◌, ◌+◌, ◌-◌, ◌/◌, ◌<◌, ◌∙◌, ◌∷◌, ◌≡◌,
}

unfoldable pub hex_digit : ℕ → ℕ
hex_digit n = if ltb n 10 then b'0' + n else b'a' + (n - 10)

unfoldable pub hex_value : ℕ → Option ℕ
hex_value c =
    if leb b'0' c && leb c b'9'
    then some (c - b'0')
    else if leb b'a' c && leb c b'f'
    then some (c - b'a' + 10)
    else if leb b'A' c && leb c b'F'
    then some (c - b'A' + 10)
    else none

unfoldable pub hex_encode : Str → Str
unfolding hex_digit
hex_encode [] = []
hex_encode (b ∷ bs) = hex_digit (b / 16) ∷ hex_digit (b % 16) ∷ hex_encode bs

abbrev pub join_byte : Option ℕ → Option ℕ → Option Str → Option Str
join_byte (some h) (some l) (some bs) = some ((h * 16 + l) ∷ bs)
join_byte _ _ _ = none

-- An odd length and a byte that is no hex digit are errors.
unfoldable pub hex_decode : Str → Option Str
unfolding hex_value
hex_decode [] = some []
hex_decode (h ∷ []) = none
hex_decode (h ∷ l ∷ s) = join_byte (hex_value h) (hex_value l) (hex_decode s)

abbrev pub IsByte : ℕ → Type 0
IsByte b = b < 256

hex_value-hex_digit : (n : ℕ) → n < 16 → hex_value (hex_digit n) ≡ some n
unfolding hex_value hex_digit
hex_value-hex_digit n h = ground arith

-- Decoding inverts encoding.
pub decode-encode : (bs : Str) → All IsByte bs → hex_decode (hex_encode bs) ≡ some bs
unfolding hex_decode hex_encode
decode-encode [] h = refl
decode-encode (b ∷ bs) h =
    rw
      (
        hex_value-hex_digit (b / 16) (omega arith),
        hex_value-hex_digit (b % 16) (omega arith),
        decode-encode bs h.1,
      )
      (ap (λ c. some (c ∷ bs)) (omega arith))

pub hex_encode-injective :
    (s t : Str) → All IsByte s → All IsByte t → hex_encode s ≡ hex_encode t → s ≡ t
hex_encode-injective s t hs ht e =
    let same : some s ≡ some t = sym (decode-encode s hs) ∙ ap hex_decode e ∙ decode-encode t ht in
    cc
