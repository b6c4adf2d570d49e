-- ===== src/Stream/Message/Framing.antt =====
-- Encoding and reading messages (server/stream/stream.go, server/stream/ws.go).
use marbles_game.Prelude.{
  Str, [], arith, err, if◌then◌else◌, leb, length, ok, refl, some, ℕ, ◌%◌, ◌*◌, ◌++◌, ◌+◌, ◌/◌, ◌<◌,
  ◌∷◌, ◌≡◌,
}
use marbles_game.Stream.Message.{
  Message, encode, encode_inline, payload_too_large, read_full, read_message, read_payload,
  split_at,
}

split_at-append : (p rest : Str) → split_at (length p) (p ++ rest) ≡ some (p, rest)
unfolding split_at
split_at-append [] rest = refl
split_at-append (b ∷ p) rest = rw (split_at-append p rest) refl

pub read_full-append : (p rest : Str) → read_full (length p) (p ++ rest) ≡ ok (p, rest)
unfolding read_full
read_full-append p rest = rw (read_full, split_at-append p rest) refl

u32_bytes :
    (n : ℕ)
    → n < 4294967296
    → n % 256 + 256 * (n / 256 % 256) + 65536 * (n / 65536 % 256) + 16777216 * (n / 16777216 % 256)
      ≡ n
u32_bytes n small = omega arith

read_payload-append :
    (t max_payload : ℕ) (p rest : Str)
    → read_payload t (length p) max_payload (p ++ rest) ≡ (
        if leb (length p) max_payload
        then ok (record { msg_type = t; payload = p }, rest)
        else err payload_too_large)
unfolding read_payload
read_payload-append t max_payload [] rest = ground arith
read_payload-append t max_payload (b ∷ p) rest = ground (arith, read_full-append (b ∷ p) rest)

-- Both encoders write the same bytes, and reading them gives the message back and leaves what follows,
-- or refuses a payload over the cap before it reads it. The payload is shorter than 2^32 bytes.
pub read_message-encode :
    (m : Message) (max_payload : ℕ) (rest : Str)
    → length m.payload < 4294967296
    → (encode_inline m ≡ encode m)
      × (read_message max_payload (encode m ++ rest)
          ≡ (if leb (length m.payload) max_payload then ok (m, rest) else err payload_too_large))
unfolding encode encode_inline read_message read_payload
read_message-encode m max_payload rest small = (
  refl,
  rw (u32_bytes (length m.payload) small)
      (read_payload-append m.msg_type max_payload m.payload rest),
)
