-- ===== src/Stream/Ingest.antt =====
-- server/stream/ingest.go: `handleConn`, over the hub. The connection is the bytes that the simulation
-- sent before it closed. Other calls in between are left out here.
pub mod Relay
mod Tests
use marbles_game.Prelude.{
  Bool, Str, [], err, false, if◌then◌else◌, is_ok, length, ok, Result, suc, zero, ℕ, ◌*◌, ◌+◌, ◌==◌,
  ◌∷◌,
}
use marbles_game.Stream.Message.{Message, msg_header, msg_tick, read_full, read_message}
use marbles_game.Stream.Hub.{Error, Hub, close_round, open_round, set_at}
use marbles_game.Stream.Live.{LiveRound, write_header, write_tick}

-- `MaxPayloadBytes`
abbrev pub max_payload_bytes : ℕ
max_payload_bytes = 1048576

-- The bytes of `Uint64` in little-endian order
unfoldable pub get_u64 : Str → ℕ
get_u64 [] = 0
get_u64 (b ∷ s) = b + 256 * get_u64 s

-- The cases of the switch: the round as the message leaves it, and whether the loop goes on.
unfoldable pub handle : Message → LiveRound → Bool × LiveRound
unfolding write_header write_tick
handle m r =
    if m.msg_type == msg_header
    then (let (res, r') = write_header m.payload r in (is_ok res, r'))
    else if m.msg_type == msg_tick
    then (let (res, r') = write_tick m.payload r in (is_ok res, r'))
    else (false, r)

-- The loop. A message takes five bytes or more, so the number of bytes is enough fuel.
unfoldable pub relay : ℕ → Str → LiveRound → LiveRound
unfolding handle
relay zero s r = r
relay (suc fuel) s r = elim (read_message max_payload_bytes s) [
  | err e ↦ r
  | ok (m, rest) ↦
      let (more, r') = handle m r in let later = relay fuel rest r' in if more then later else r'
]

-- What follows `Hub.Open`: the loop on the round that it returned; `Done` is deferred.
unfoldable pub relay_round : Str → Result Error ℕ → Hub → Hub
unfolding relay close_round set_at
relay_round s (err e) h = h
relay_round s (ok p) h =
    close_round p (record h { rounds = set_at p (relay (length s) s) h.rounds })

-- `handleConn`
unfoldable pub handle_conn : Str → Hub → Hub
unfolding relay_round get_u64 open_round
handle_conn s h = elim (read_full 8 s) [
  | err e ↦ h
  | ok (id, rest) ↦ let (opened, h') = open_round (get_u64 id) h in relay_round rest opened h'
]
