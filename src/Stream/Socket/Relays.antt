-- ===== src/Stream/Socket/Relays.antt =====
-- The frames of a WebSocket client stay a beginning of its channel (server/stream/ws.go).
use mathlib.Core.Option.{some-injective}
use mathlib.Core.List.{append_assoc, map-append}
use marbles_game.Prelude.{
  All, Bool, Bool-cases, List, [], ap, arith, false, get_elem?, inl, inr, length, length-append,
  ltb, map, none, refl, some, subst, suc, sym, true, zero, ℕ, ◌++◌, ◌+◌, ◌∙◌, ◌∷◌, ◌≡◌,
}
use marbles_game.Stream.Message.{Message, encode_inline}
use marbles_game.Stream.Live.{
  LiveRound, Op, Subscriber, apply, at_place, backlog, receive, receives, shut, subscribe,
  subscribes, take_one, unsubscribe, unsubscribes,
}
use marbles_game.Stream.Live.Delivery.{Inv, apply-Inv}
use marbles_game.Stream.Socket.{
  Connection, Event, Socket, cancelled, channel, dropped, elsewhere, from_channel, open_socket,
  serve, serving, stream_ended, turn, write_frame,
}
use marbles_game.Stream.Socket.Growth.{IsOther, apply-GrownAt}

-- The frames are the first messages of the channel, and while the handler runs they are the ones that it
-- has received.
pub record Relays (i : ℕ) (k : Socket) : Type 0 where
  pub inv : Inv k.round
  pub sub : Subscriber
  pub here : get_elem? k.round.subscribers i ≡ some sub
  pub written : List Message
  pub rest : List Message
  pub order : written ++ rest ≡ sub.sent
  pub framed : k.frames ≡ map encode_inline written
  pub place : k.connection ≡ serving → sub.received ≡ length written

pub get_elem?-append :
    {A : Type 0} (ms x : List A) → get_elem? (ms ++ x) (length ms) ≡ get_elem? x 0
get_elem?-append [] x = refl
get_elem?-append (m ∷ ms) x = get_elem?-append ms x

pub get_elem?-at_place :
    (i : ℕ) (f : Subscriber → Subscriber) (ss : List Subscriber) (s : Subscriber)
    → get_elem? ss i ≡ some s
    → get_elem? (at_place i f ss) i ≡ some (f s)
unfolding at_place
get_elem?-at_place i f [] s h = ground (arith, h)
get_elem?-at_place zero f (u ∷ ss) s h = ap (λ v. some (f v)) (some-injective u s h)
get_elem?-at_place (suc i) f (u ∷ ss) s h = get_elem?-at_place i f ss s h

pub next_lem :
    (written rest : List Message) (s : Subscriber)
    → written ++ rest ≡ s.sent
    → s.received ≡ length written
    → get_elem? s.sent s.received ≡ get_elem? rest 0
next_lem written rest s order place =
    ap (λ n. get_elem? s.sent n) place
    ∙ ap (λ l. get_elem? l (length written)) (sym order)
    ∙ get_elem?-append written rest

-- Calls of others.
elsewhere-Relays :
    (i : ℕ) (op : Op) (k : Socket)
    → IsOther i op
    → Relays i k
    → Relays i (record k { round = apply op k.round })
elsewhere-Relays i op k other v =
    let (t, at_t, (same, (ext, more))) = apply-GrownAt op i k.round other v.sub v.here in
    record {
      inv = apply-Inv op k.round v.inv;
      sub = t;
      here = at_t;
      written = v.written;
      rest = v.rest ++ ext;
      order = sym (append_assoc v.written v.rest ext) ∙ ap (λ l. l ++ ext) v.order ∙ sym more;
      framed = v.framed;
      place = λ on. same ∙ v.place on;
    }

-- The handler leaves its subscription.
leave-Relays :
    (i : ℕ) (k : Socket)
    → Relays i k
    → Relays i (record k { round = unsubscribe i k.round; connection = dropped })
unfolding unsubscribe apply
leave-Relays i k v = record {
  inv = apply-Inv (unsubscribes i) k.round v.inv;
  sub = shut v.sub;
  here = get_elem?-at_place i shut k.round.subscribers v.sub v.here;
  written = v.written;
  rest = v.rest;
  order = v.order;
  framed = v.framed;
  place = λ on. ground (arith, on);
}

-- A message that is there to receive.
pub take_one_lem :
    (written x : List Message) (m : Message) (s : Subscriber)
    → written ++ m ∷ x ≡ s.sent
    → s.received ≡ length written
    → take_one s ≡ record s { received = s.received + 1 }
take_one_lem written x m s order place =
    let more : ltb s.received (length s.sent) ≡ true =
      ground (arith, place, ap length order, length-append written (m ∷ x)) in
    rw more refl

-- The next message is written.
write_frame-Relays :
    (i : ℕ) (fails : Bool) (m : Message) (k : Socket)
    → (v : Relays i k) → (x : List Message) → v.written ++ m ∷ x ≡ v.sub.sent
    → k.connection ≡ serving
    → Relays i (write_frame i fails m k)
unfolding write_frame receive apply
write_frame-Relays i true m k v x order on =
    let taken : Relays i (record k { round = receive i k.round; connection = dropped }) = record {
      inv = apply-Inv (receives i) k.round v.inv;
      sub = take_one v.sub;
      here = get_elem?-at_place i take_one k.round.subscribers v.sub v.here;
      written = v.written;
      rest = m ∷ x;
      order = order ∙ sym (ap (λ s. s.sent) (take_one_lem v.written x m v.sub order (v.place on)));
      framed = v.framed;
      place = λ e. ground (arith, e);
    } in
    leave-Relays i (record k { round = receive i k.round; connection = dropped }) taken
write_frame-Relays i false m k v x order on =
    let one = take_one_lem v.written x m v.sub order (v.place on) in
    record {
      inv = apply-Inv (receives i) k.round v.inv;
      sub = take_one v.sub;
      here = get_elem?-at_place i take_one k.round.subscribers v.sub v.here;
      written = v.written ++ m ∷ [];
      rest = x;
      order = append_assoc v.written (m ∷ []) x ∙ order ∙ sym (ap (λ s. s.sent) one);
      framed =
          ap (λ l. l ++ encode_inline m ∷ []) v.framed
          ∙ sym (map-append encode_inline v.written (m ∷ []));
      place = λ e.
          ap (λ s. s.received) one ∙ omega (arith, v.place on, length-append v.written (m ∷ []));
    }

from_channel-Relays :
    (i : ℕ) (fails : Bool) (k : Socket) (v : Relays i k)
    → k.connection ≡ serving
    → (rest : List Message) → v.rest ≡ rest
    → Relays i (from_channel i fails k)
unfolding from_channel
from_channel-Relays i fails k v on [] e =
    let nothing : get_elem? v.sub.sent v.sub.received ≡ none =
      next_lem v.written v.rest v.sub v.order (v.place on) ∙ ap (λ l. get_elem? l 0) e in
    elim (Bool-cases v.sub.is_open) [
      | inl waits ↦ rw (from_channel, v.here, nothing, waits) v
      | inr closed ↦
          rw (from_channel, v.here, nothing, closed)
            (record {
              inv = v.inv;
              sub = v.sub;
              here = v.here;
              written = v.written;
              rest = v.rest;
              order = v.order;
              framed = v.framed;
              place = λ h. ground (arith, h);
            })
    ]
from_channel-Relays i fails k v on (m ∷ x) e =
    let next : get_elem? v.sub.sent v.sub.received ≡ some m =
      next_lem v.written v.rest v.sub v.order (v.place on) ∙ ap (λ l. get_elem? l 0) e in
    rw (from_channel, v.here, next)
      (write_frame-Relays i fails m k v x (ap (λ l. v.written ++ l) (sym e) ∙ v.order) on)

-- Of the calls elsewhere, none receives from the client's channel.
abbrev pub AllOthers : ℕ → List Event → Type 0
AllOthers i [] = Unit
AllOthers i (elsewhere op ∷ es) = IsOther i op × AllOthers i es
AllOthers i (channel fails ∷ es) = AllOthers i es
AllOthers i (cancelled ∷ es) = AllOthers i es

turn_channel-Relays :
    (i : ℕ) (fails : Bool) (c : Connection) (k : Socket)
    → k.connection ≡ c
    → Relays i k
    → Relays i (turn i (channel fails) c k)
unfolding turn
turn_channel-Relays i fails serving k on v = from_channel-Relays i fails k v on v.rest refl
turn_channel-Relays i fails stream_ended k on v = v
turn_channel-Relays i fails dropped k on v = v

turn_cancelled-Relays :
    (i : ℕ) (c : Connection) (k : Socket) → Relays i k → Relays i (turn i cancelled c k)
unfolding turn
turn_cancelled-Relays i serving k v = leave-Relays i k v
turn_cancelled-Relays i stream_ended k v = v
turn_cancelled-Relays i dropped k v = v

pub serve-Relays :
    (i : ℕ) (es : List Event) (k : Socket) → AllOthers i es → Relays i k → Relays i (serve i es k)
unfolding serve turn
serve-Relays i [] k others v = v
serve-Relays i (elsewhere op ∷ es) k (other, others) v =
    serve-Relays i es (record k { round = apply op k.round }) others
      (elsewhere-Relays i op k other v)
serve-Relays i (channel fails ∷ es) k others v =
    serve-Relays i es (turn i (channel fails) k.connection k) others
      (turn_channel-Relays i fails k.connection k refl v)
serve-Relays i (cancelled ∷ es) k others v =
    serve-Relays i es (turn i cancelled k.connection k) others
      (turn_cancelled-Relays i k.connection k v)

pub open_socket-Relays : (r : LiveRound) → Inv r → Relays (length r.subscribers) (open_socket r)
unfolding open_socket subscribe apply
open_socket-Relays r v = record {
  inv = apply-Inv (subscribes 180) r v;
  sub = _;
  here = get_elem?-append r.subscribers _;
  written = [];
  rest = backlog r;
  order = refl;
  framed = refl;
  place = λ e. refl;
}

pub All-get_elem? :
    (P : Subscriber → Type 0) (ss : List Subscriber) (i : ℕ) (s : Subscriber)
    → All P ss
    → get_elem? ss i ≡ some s
    → P s
All-get_elem? P [] i s a h = ground (arith, h)
All-get_elem? P (u ∷ ss) zero s a h = subst P (some-injective u s h) a.0
All-get_elem? P (u ∷ ss) (suc i) s a h = All-get_elem? P ss i s a.1 h
