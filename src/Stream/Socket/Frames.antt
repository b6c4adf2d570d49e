-- ===== src/Stream/Socket/Frames.antt =====
-- What a WebSocket client gets (server/stream/ws.go).
use mathlib.Core.List.{append-nil, append_assoc, map-append}
use marbles_game.Prelude.{
  Bool-cases, List, [], ap, arith, false, get_elem?, inl, inr, length, length-append, map, refl,
  replicate, some, suc, sym, ℕ, ◌++◌, ◌+◌, ◌∙◌, ◌∷◌, ◌≡◌, ◌⊎◌,
}
use marbles_game.Stream.Message.{Message, encode_inline}
use marbles_game.Stream.Live.{Op, Subscriber, backlog, new_round, receive, run, take_one}
use marbles_game.Stream.Live.Delivery.{Delivered, run-new_round-Inv}
use marbles_game.Stream.Socket.{
  Connection, Event, Socket, channel, dropped, from_channel, open_socket, serve, serving,
  stream_ended, turn, write_frame,
}
use marbles_game.Stream.Socket.Relays.{
  All-get_elem?, AllOthers, Relays, get_elem?-at_place, next_lem, open_socket-Relays, serve-Relays,
  take_one_lem,
}

-- The handler's turn where a message waits.
turn_next :
    (i : ℕ) (m : Message) (k : Socket) (s : Subscriber)
    → k.connection ≡ serving
    → get_elem? k.round.subscribers i ≡ some s
    → get_elem? s.sent s.received ≡ some m
    → turn i (channel false) k.connection k ≡ write_frame i false m k
unfolding turn from_channel
turn_next i m k s on here next =
    ap (λ c. turn i (channel false) c k) on ∙ rw (from_channel, here, next) refl

-- Turns without a failure write whatever the channel holds.
catch_up :
    (i : ℕ) (k : Socket) (s : Subscriber) (written rest : List Message)
    → k.connection ≡ serving
    → get_elem? k.round.subscribers i ≡ some s
    → written ++ rest ≡ s.sent
    → s.received ≡ length written
    → k.frames ≡ map encode_inline written
    → (n : ℕ) × ((serve i (replicate n (channel false)) k).frames ≡ map encode_inline s.sent)
unfolding serve
catch_up i k s written [] on here order place framed =
    (0, framed ∙ ap (map encode_inline) (sym (append-nil written) ∙ order))
catch_up i k s written (m ∷ x) on here order place framed =
    let k' : Socket = record k {
      round = receive i k.round;
      frames = k.frames ++ encode_inline m ∷ [];
    } in
    let next = next_lem written (m ∷ x) s order place in
    let turned : turn i (channel false) k.connection k ≡ k' =
      turn_next i m k s on here next ∙ (unfold write_frame in refl) in
    let (n, done) =
      catch_up i k' (record s { received = s.received + 1 }) (written ++ m ∷ []) x on
        ((unfold receive in get_elem?-at_place i take_one k.round.subscribers s here)
          ∙ ap some (take_one_lem written x m s order place))
        (append_assoc written (m ∷ []) x ∙ order)
        (omega (arith, place, length-append written (m ∷ [])))
        (ap (λ l. l ++ encode_inline m ∷ []) framed
          ∙ sym (map-append encode_inline written (m ∷ []))) in
    (suc n, ap (λ t. (serve i (replicate n (channel false)) t).frames) turned ∙ done)

Connection-cases : (c : Connection) → (c ≡ serving) ⊎ ((c ≡ stream_ended) ⊎ (c ≡ dropped))
Connection-cases serving = inl refl
Connection-cases stream_ended = inr (inl refl)
Connection-cases dropped = inr (inr refl)

-- A client is gone, or was left by the round, or gets everything so far if it gets some turns.
abbrev pub CatchesUp : ℕ → Socket → Type 0
CatchesUp i k =
    (s : Subscriber) × (get_elem? k.round.subscribers i ≡ some s)
    × ((k.connection ≡ stream_ended)
        ⊎ ((k.connection ≡ dropped)
            ⊎ ((s.is_open ≡ false)
                ⊎ ((n : ℕ) × ((serve i (replicate n (channel false)) k).frames
                      ≡ map encode_inline (backlog k.round))))))

Relays-CatchesUp :
    (i : ℕ) (k : Socket) (v : Relays i k)
    → Delivered (backlog k.round) k.round.is_done v.sub
    → CatchesUp i k
Relays-CatchesUp i k v d = (
  v.sub,
  v.here,
  elim (Connection-cases k.connection) [
    | inr (inl ended) ↦ inl ended
    | inr (inr gone) ↦ inr (inl gone)
    | inl on ↦ elim (Bool-cases v.sub.is_open) [
      | inr left ↦ inr (inr (inl left))
      | inl open_channel ↦
          let (n, all) =
            catch_up i k v.sub v.written v.rest on v.here v.order (v.place on) v.framed in
          inr (inr (inr (n, all ∙ ap (map encode_inline) (d.whole open_channel).0)))
    ]
  ],
)

-- Whatever happened to a round before a client connected, and whatever writers, other clients and the
-- network do afterwards, the frames that the client got are the encodings of a beginning of the
-- round's stream, the header and every tick so far and the end of a round that is done: none is
-- missing in between, none comes twice, and none out of order. Where the handler still runs and the
-- round has not closed the client's channel, some more turns of the handler in which no write fails
-- bring the client all of it. Nobody else receives from the client's channel.
pub serve-open_socket :
    (ops : List Op) (es : List Event)
    → AllOthers (length (run ops new_round).subscribers) es
    → let i = length (run ops new_round).subscribers in
      let k = serve i es (open_socket (run ops new_round)) in
      (ms : List Message) × (rest : List Message) × (k.frames ≡ map encode_inline ms)
      × (ms ++ rest ≡ backlog k.round)
      × CatchesUp i k
serve-open_socket ops es others =
    let r = run ops new_round in
    let v =
      serve-Relays (length r.subscribers) es (open_socket r) others
        (open_socket-Relays r (run-new_round-Inv ops)) in
    let k = serve (length r.subscribers) es (open_socket r) in
    let sent =
      All-get_elem? (Delivered (backlog k.round) k.round.is_done) k.round.subscribers
        (length r.subscribers) v.sub v.inv.delivered v.here in
    (
      v.written,
      v.rest ++ sent.prefix.0,
      v.framed,
      sym (append_assoc v.written v.rest sent.prefix.0)
          ∙ ap (λ l. l ++ sent.prefix.0) v.order
          ∙ sent.prefix.1,
      Relays-CatchesUp (length r.subscribers) k v sent,
    )
