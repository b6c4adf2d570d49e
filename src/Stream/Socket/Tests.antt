-- ===== src/Stream/Socket/Tests.antt =====
-- A WebSocket client (server/stream/ws.go).
use marbles_game.Prelude.{
  List, [], arith, codes, false, get_or, map, refl, str_eq_inst, true, ◌++◌, ◌∷◌, ◌≡◌,
}
use marbles_game.Prelude.Dict.{insert, lookup}
use marbles_game.Std.Decimal.{parse_uint}
use marbles_game.Stream.Message.{Message, encode_inline}
use marbles_game.Stream.Live.{
  Op, apply, backlog, finishes, new_round, receives, run, subscribes, writes_header, writes_tick,
}
use marbles_game.Stream.Hub.{new_hub, open_round}
use marbles_game.Stream.Socket.{
  Event, Socket, bad_round_id, channel, connect, connected, dropped, elsewhere, not_live,
  open_socket, serve, stream_ended, turn,
}
use marbles_game.Stream.Socket.Frames.{CatchesUp, serve-open_socket}

abbrev before : List Op
before = writes_header (5 ∷ []) ∷ writes_tick (6 ∷ []) ∷ []

-- A client that falls behind and catches up, and one whose connection breaks.
abbrev events : List Event
events =
    channel false
    ∷ elsewhere (writes_tick (7 ∷ []))
    ∷ elsewhere (subscribes 20)
    ∷ channel false
    ∷ elsewhere (receives 1)
    ∷ elsewhere finishes
    ∷ channel false
    ∷ channel false
    ∷ channel false
    ∷ []

abbrev final : Socket
final = serve 0 events (open_socket (run before new_round))

abbrev broken : Socket
broken =
    serve 0 (channel false ∷ channel true ∷ channel false ∷ []) (open_socket (run before new_round))

frame_types :
    (map (λ f. get_or f 0 0) final.frames ≡ 1 ∷ 2 ∷ 2 ∷ 3 ∷ [])
    × (final.connection ≡ stream_ended)
    × (map (λ f. get_or f 0 0) broken.frames ≡ 1 ∷ [])
    × (broken.connection ≡ dropped)
unfolding serve turn run apply open_socket encode_inline
frame_types = (refl, refl, refl, refl)

answers :
    (connect false (codes "12") (open_round 12 new_hub).1 ≡ connected 0)
    × (connect false (codes "x") new_hub ≡ bad_round_id)
    × (connect false (codes "12") new_hub ≡ not_live)
unfolding connect open_round parse_uint lookup insert
answers = (refl, refl, refl)

serve-open_socket_example :
    (ms : List Message) × (rest : List Message) × (final.frames ≡ map encode_inline ms)
    × (ms ++ rest ≡ backlog final.round)
    × CatchesUp 0 final
unfolding run apply
serve-open_socket_example =
    serve-open_socket before events (tt, (tt, ((λ e. omega (arith, e)), (tt, tt))))
