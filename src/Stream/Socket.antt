-- ===== src/Stream/Socket.antt =====
-- server/stream/ws.go: `WSHandler`, one WebSocket client of a live round. The client is the subscriber at a
-- place of the round. Package websocket is the handshake, which may fail, and a write of a frame, which may
-- fail or time out; the request may be cancelled at any time.
pub mod Growth
pub mod Relays
pub mod Frames
mod Tests
use marbles_game.Prelude.{Bool, List, Str, [], get_elem?, if◌then◌else◌, none, some, ℕ, ◌++◌, ◌∷◌}
use marbles_game.Std.Decimal.{parse_uint}
use marbles_game.Stream.Message.{Message, encode_inline}
use marbles_game.Stream.Live.{LiveRound, Op, apply, receive, subscribe, unsubscribe}
use marbles_game.Stream.Hub.{Hub}
use marbles_game.Stream.Hub

-- How a request is answered, with the place of the round in the hub where the client is connected.
pub data Answer : Type 0 where
  bad_round_id not_live not_upgraded : Answer
  connected : ℕ → Answer

-- `WSHandler` up to the subscription
unfoldable pub connect : Bool → Str → Hub → Answer
unfolding parse_uint
connect handshake_fails id_text hub = elim (parse_uint id_text) [
  | none ↦ bad_round_id
  | some id ↦ elim (Hub.find id hub) [
    | none ↦ not_live
    | some round ↦ if handshake_fails then not_upgraded else connected round
  ]
]

pub data Connection : Type 0 where
  serving stream_ended dropped : Connection

pub record Socket : Type 0 where
  pub round : LiveRound
  pub frames : List Str  -- written to the client
  pub connection : Connection

-- The subscription, with its buffer
unfoldable pub open_socket : LiveRound → Socket
unfolding subscribe
open_socket r = record { round = subscribe 180 r; frames = []; connection = serving }

-- `conn.Write` of a message that was received
unfoldable pub write_frame : ℕ → Bool → Message → Socket → Socket
unfolding receive unsubscribe encode_inline
write_frame i fails m k =
    let taken = receive i k.round in
    if fails
    then record k { round = unsubscribe i taken; connection = dropped }
    else record k { round = taken; frames = k.frames ++ encode_inline m ∷ [] }

-- The case of the channel: it waits while the channel is open and empty.
unfoldable pub from_channel : ℕ → Bool → Socket → Socket
unfolding write_frame
from_channel i fails k = elim (get_elem? k.round.subscribers i) [
  | none ↦ k
  | some s ↦ elim (get_elem? s.sent s.received) [
    | some m ↦ write_frame i fails m k
    | none ↦ if s.is_open then k else record k { connection = stream_ended }
  ]
]

-- What happens next: a call on the round by anyone else, the handler's turn at the channel, or the end of
-- the request.
pub data Event : Type 0 where
  elsewhere : Op → Event
  channel : Bool → Event
  cancelled : Event

-- The handler's loop, until it returns.
unfoldable pub turn : ℕ → Event → Connection → Socket → Socket
unfolding apply from_channel unsubscribe
turn i (elsewhere op) c k = record k { round = apply op k.round }
turn i (channel fails) serving k = from_channel i fails k
turn i cancelled serving k = record k { round = unsubscribe i k.round; connection = dropped }
turn i (channel fails) stream_ended k = k
turn i (channel fails) dropped k = k
turn i cancelled stream_ended k = k
turn i cancelled dropped k = k

unfoldable pub serve : ℕ → List Event → Socket → Socket
unfolding turn
serve i [] k = k
serve i (e ∷ es) k = serve i es (turn i e k.connection k)
