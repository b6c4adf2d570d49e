-- ===== src/Stream/Message/Tests.antt =====
-- A tick on the wire (server/stream/stream.go).
use marbles_game.Prelude.{[], arith, err, ok, refl, ◌++◌, ◌∷◌, ◌≡◌}
use marbles_game.Stream.Message.{
  Message, encode, encode_inline, end_of_file, msg_tick, payload_too_large, read_message,
  unexpected_end,
}
use marbles_game.Stream.Message.Framing.{read_message-encode}

abbrev tick : Message
tick = record { msg_type = msg_tick; payload = 7 ∷ 8 ∷ [] }

read_message-encode_example :
    (encode_inline tick ≡ encode tick)
    × (read_message 16 (encode tick ++ 9 ∷ []) ≡ ok (tick, 9 ∷ []))
read_message-encode_example = read_message-encode tick 16 (9 ∷ []) (omega arith)

cut_off :
    (read_message 16 (2 ∷ 2 ∷ 0 ∷ 0 ∷ 0 ∷ 7 ∷ []) ≡ err unexpected_end)
    × (read_message 1 (encode tick) ≡ err payload_too_large)
    × (read_message 16 [] ≡ err end_of_file)
unfolding read_message encode
cut_off = (refl, refl, refl)
