-- ===== src/Stream/Live.antt =====
-- server/stream/stream.go: one live round and its subscribers. A subscriber's pointer is its place in
-- `subscribers`, where it stays after it left the set `subs`; then `is_open` is false and its channel is
-- closed. Of a channel the model keeps what was sent on it, and how much of that was received. The
-- fan-out is the same for each subscriber, so the order of the map does not matter.
pub mod Delivery
mod Tests
use marbles_game.Prelude.{
  Bool, Exec, List, Option, Str, [], err, false, if◌then◌else◌, is_some, length, ltb, map, none,
  not, ok, some, suc, true, zero, ℕ, ◌++◌, ◌+◌, ◌-◌, ◌∷◌,
}
use marbles_game.Stream.Message.{Message, msg_done, msg_header, msg_tick}

pub record Subscriber : Type 0 where
  pub sent : List Message
  pub received : ℕ
  pub capacity : ℕ
  pub is_open : Bool

pub record LiveRound : Type 0 where
  pub header : Option Message
  pub ticks : List Message
  pub is_done : Bool
  pub subscribers : List Subscriber

pub data Error : Type 0 where
  header_written header_required round_closed : Error

-- The round that `Hub.Open` makes.
abbrev pub new_round : LiveRound
new_round = record { header = none; ticks = []; is_done = false; subscribers = [] }

-- One send of `fanoutLocked`: a subscriber with a full buffer is kicked.
unfoldable pub deliver : Message → Subscriber → Subscriber
deliver m s =
    if not s.is_open
    then s
    else if ltb (length s.sent - s.received) s.capacity
    then record s { sent = s.sent ++ m ∷ [] }
    else record s { is_open = false }

-- `fanoutLocked`
unfoldable pub fanout : Message → List Subscriber → List Subscriber
unfolding deliver
fanout m [] = []
fanout m (s ∷ ss) = deliver m s ∷ fanout m ss

-- `WriteHeader`
unfoldable pub write_header : Str → Exec Error LiveRound (Unit {0})
unfolding fanout
write_header payload r =
    if is_some r.header
    then (err header_written, r)
    else if r.is_done
    then (err round_closed, r)
    else (let m : Message = record { msg_type = msg_header; payload = payload } in
        (ok tt, record r { header = some m; subscribers = fanout m r.subscribers }))

-- `WriteTick`
unfoldable pub write_tick : Str → Exec Error LiveRound (Unit {0})
unfolding fanout
write_tick payload r =
    if not (is_some r.header)
    then (err header_required, r)
    else if r.is_done
    then (err round_closed, r)
    else (let m : Message = record { msg_type = msg_tick; payload = payload } in
        (ok tt, record r { ticks = r.ticks ++ m ∷ []; subscribers = fanout m r.subscribers }))

abbrev pub done_message : Message
done_message = record { msg_type = msg_done; payload = [] }

abbrev pub shut : Subscriber → Subscriber
shut s = record s { is_open = false }

-- `Done`, without the deletion from the hub.
unfoldable pub finish : LiveRound → LiveRound
unfolding fanout
finish r =
    if r.is_done
    then r
    else (record r { is_done = true; subscribers = map shut (fanout done_message r.subscribers) })

-- What `Subscribe` puts on the channel at once.
unfoldable pub backlog : LiveRound → List Message
backlog r =
    (elim r.header [ none ↦ [] | some m ↦ m ∷ [] ])
    ++ (r.ticks ++ (if r.is_done then done_message ∷ [] else []))

-- `Subscribe`. The new subscriber is the last one.
unfoldable pub subscribe : ℕ → LiveRound → LiveRound
unfolding backlog
subscribe live_buf r =
    let headroom = if ltb live_buf 16 then 16 else live_buf in
    record r {
      subscribers =
          r.subscribers
          ++ record {
            sent = backlog r;
            received = 0;
            capacity = 1 + length r.ticks + headroom;
            is_open = not r.is_done;
          }
            ∷ [];
    }

-- A change of the subscriber at a place.
unfoldable pub at_place : ℕ → (Subscriber → Subscriber) → List Subscriber → List Subscriber
at_place i f [] = []
at_place zero f (s ∷ ss) = f s ∷ ss
at_place (suc i) f (s ∷ ss) = s ∷ at_place i f ss

-- `Unsubscribe`
unfoldable pub unsubscribe : ℕ → LiveRound → LiveRound
unfolding at_place
unsubscribe i r = record r { subscribers = at_place i shut r.subscribers }

-- A receive from `C()`: nothing happens while the channel is empty.
abbrev pub take_one : Subscriber → Subscriber
take_one s = if ltb s.received (length s.sent) then record s { received = s.received + 1 } else s

unfoldable pub receive : ℕ → LiveRound → LiveRound
unfolding at_place
receive i r = record r { subscribers = at_place i take_one r.subscribers }

-- Calls of the writer and of the subscribers, in any order.
pub data Op : Type 0 where
  writes_header : Str → Op
  writes_tick : Str → Op
  finishes : Op
  subscribes : ℕ → Op
  unsubscribes : ℕ → Op
  receives : ℕ → Op

unfoldable pub apply : Op → LiveRound → LiveRound
unfolding write_header write_tick finish subscribe unsubscribe receive
apply (writes_header payload) r = (write_header payload r).1
apply (writes_tick payload) r = (write_tick payload r).1
apply finishes r = finish r
apply (subscribes live_buf) r = subscribe live_buf r
apply (unsubscribes i) r = unsubscribe i r
apply (receives i) r = receive i r

unfoldable pub run : List Op → LiveRound → LiveRound
run [] r = r
run (op ∷ ops) r = run ops (apply op r)
