-- ===== src/Stream/Message.antt =====
-- server/stream/stream.go and server/stream/ws.go: the wire format of one message. A reader is the bytes
-- that it still has.
pub mod Framing
mod Tests
use marbles_game.Prelude.{
  Option, Result, Str, [], err, if◌then◌else◌, is_empty, length, ltb, none, ok, some, suc, zero, ℕ,
  ◌%◌, ◌*◌, ◌++◌, ◌+◌, ◌/◌, ◌==◌, ◌∷◌,
}

pub record Message : Type 0 where
  pub msg_type : ℕ  -- byte
  pub payload : Str

abbrev pub msg_header : ℕ
msg_header = 1

abbrev pub msg_tick : ℕ
msg_tick = 2

abbrev pub msg_done : ℕ
msg_done = 3

pub data ReadError : Type 0 where
  end_of_file unexpected_end payload_too_large : ReadError

-- `binary.LittleEndian.PutUint32` of `uint32(n)`
unfoldable pub put_u32 : ℕ → Str
put_u32 n = n % 256 ∷ n / 256 % 256 ∷ n / 65536 % 256 ∷ n / 16777216 % 256 ∷ []

-- `Message.Encode`, on a writer that does not fail
unfoldable pub encode : Message → Str
unfolding put_u32
encode m = m.msg_type ∷ put_u32 (length m.payload) ++ m.payload

-- `encodeInline`: `byte(x >> k)` is `x / 2^k % 256`.
unfoldable pub encode_inline : Message → Str
encode_inline m =
    let n = length m.payload in
    m.msg_type ∷ n % 256 ∷ n / 256 % 256 ∷ n / 65536 % 256 ∷ n / 16777216 % 256 ∷ m.payload

-- The first `n` bytes of a reader: `none` if there are fewer.
unfoldable pub split_at : ℕ → Str → Option (Str × Str)
split_at zero s = some ([], s)
split_at (suc n) [] = none
split_at (suc n) (b ∷ s) =
    let rest = split_at n s in elim rest [ none ↦ none | some (p, r) ↦ some (b ∷ p, r) ]

-- `io.ReadFull` into a buffer that is not empty
unfoldable pub read_full : ℕ → Str → Result ReadError (Str × Str)
unfolding split_at
read_full n s = elim (split_at n s) [
  | some (p, r) ↦ ok (p, r)
  | none ↦ err (if is_empty s then end_of_file else unexpected_end)
]

-- What follows the five bytes of the frame's head.
unfoldable pub read_payload : ℕ → ℕ → ℕ → Str → Result ReadError (Message × Str)
unfolding read_full
read_payload msg_type n max_payload s =
    if ltb max_payload n
    then err payload_too_large
    else if n == 0
    then ok (record { msg_type = msg_type; payload = [] }, s)
    else elim (read_full n s) [
      | err e ↦ err e
      | ok (p, r) ↦ ok (record { msg_type = msg_type; payload = p }, r)
    ]

-- `ReadMessage`
unfoldable pub read_message : ℕ → Str → Result ReadError (Message × Str)
unfolding read_payload
read_message max_payload [] = err end_of_file
read_message max_payload (t ∷ a ∷ b ∷ c ∷ d ∷ s) =
    read_payload t (a + 256 * b + 65536 * c + 16777216 * d) max_payload s
read_message max_payload _ = err unexpected_end
