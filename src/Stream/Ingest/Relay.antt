-- ===== src/Stream/Ingest/Relay.antt =====
-- A stream that a simulation sends arrives as it was sent (server/stream/ingest.go).
use mathlib.Core.List.{append-nil, append_assoc}
use marbles_game.Prelude.{
  All, List, Option, Option-cases, Str, [], ap, arith, false, get_elem?, if◌then◌else◌, inl, inr,
  leb, length, length-append, map, none, err, ok, refl, some, nat_eq, subst, suc, sym, true, zero,
  ℕ, ◌++◌, ◌+◌, ◌∙◌, ◌∷◌, ◌≡◌, ◌≤◌,
}
use marbles_game.Stream.Message.{
  Message, encode, msg_header, msg_tick, put_u32, read_full, read_message,
}
use marbles_game.Stream.Message.Framing.{read_full-append, read_message-encode}
use marbles_game.Stream.Live.{
  LiveRound, done_message, fanout, finish, new_round, write_header, write_tick,
}
use marbles_game.Prelude.Dict.{delete-insert, insert, lookup}
use marbles_game.Stream.Hub.{round_exists, Hub, HubRound, close_round, open_round, set_at}
use marbles_game.Stream.Hub.Registry.{get_elem?-append}
use marbles_game.Stream.Ingest.{get_u64, handle, handle_conn, max_payload_bytes, relay, relay_round}

abbrev pub header_message : Str → Message
header_message payload = record { msg_type = msg_header; payload = payload }

abbrev pub tick_message : Str → Message
tick_message payload = record { msg_type = msg_tick; payload = payload }

-- The bytes of a list of ticks.
abbrev pub encode_ticks : List Str → Str
encode_ticks [] = []
encode_ticks (t ∷ ts) = encode (tick_message t) ++ encode_ticks ts

-- How a simulation ends its stream: it closes the connection, or it sends DONE and whatever else.
abbrev pub ending : Option Str → Str
ending none = []
ending (some junk) = encode done_message ++ junk

abbrev pub Fits : Str → Type 0
Fits payload = length payload ≤ max_payload_bytes

relay-encode :
    (fuel : ℕ) (m : Message) (rest : Str) (r : LiveRound)
    → Fits m.payload
    → relay (suc fuel) (encode m ++ rest) r
      ≡ (if (handle m r).0 then relay fuel rest (handle m r).1 else (handle m r).1)
unfolding relay
relay-encode fuel m rest r fits =
    let small : leb (length m.payload) max_payload_bytes ≡ true = ground arith in
    let arrives : read_message max_payload_bytes (encode m ++ rest) ≡ ok (m, rest) =
      rw small at ((read_message-encode m max_payload_bytes rest (omega arith)).1) in
    rw (relay, arrives) refl

-- A round with its header and some ticks, and nobody attached.
abbrev with_ticks : Str → List Message → LiveRound
with_ticks h ms = record {
  header = some (header_message h);
  ticks = ms;
  is_done = false;
  subscribers = [];
}

relay-ending : (fuel : ℕ) (e : Option Str) (r : LiveRound) → relay fuel (ending e) r ≡ r
unfolding relay handle read_message
relay-ending zero e r = refl
relay-ending (suc fuel) none r = refl
relay-ending (suc fuel) (some junk) r = relay-encode fuel done_message junk r (omega arith)

relay_ticks :
    (fuel : ℕ) (ts : List Str) (e : Option Str) (h : Str) (ms : List Message)
    → All Fits ts
    → length ts ≤ fuel
    → relay fuel (encode_ticks ts ++ ending e) (with_ticks h ms)
      ≡ with_ticks h (ms ++ map tick_message ts)
unfolding handle write_tick fanout
relay_ticks fuel [] e h ms fits enough =
    relay-ending fuel e (with_ticks h ms) ∙ ap (with_ticks h) (sym (append-nil ms))
relay_ticks zero (t ∷ ts) e h ms fits enough = ground arith
relay_ticks (suc fuel) (t ∷ ts) e h ms fits enough =
    ap (λ s. relay (suc fuel) s (with_ticks h ms))
      (append_assoc (encode (tick_message t)) (encode_ticks ts) (ending e))
    ∙ relay-encode fuel (tick_message t) (encode_ticks ts ++ ending e) (with_ticks h ms) fits.0
    ∙ relay_ticks fuel ts e h (ms ++ tick_message t ∷ []) fits.1 (omega arith)
    ∙ ap (with_ticks h) (append_assoc ms (tick_message t ∷ []) (map tick_message ts))

-- A message takes more than one byte.
length-encode : (m : Message) → 2 ≤ length (encode m)
unfolding encode put_u32
length-encode m = omega arith

length-encode_ticks : (ts : List Str) → length ts ≤ length (encode_ticks ts)
length-encode_ticks [] = omega arith
length-encode_ticks (t ∷ ts) = omega (
  arith,
  length-encode (tick_message t),
  length-encode_ticks ts,
  length-append (encode (tick_message t)) (encode_ticks ts),
)

-- The whole stream of a simulation, after the id of its round.
abbrev pub stream : Str → List Str → Option Str → Str
stream h ts e = encode (header_message h) ++ (encode_ticks ts ++ ending e)

relay-stream :
    (fuel : ℕ) (h : Str) (ts : List Str) (e : Option Str)
    → Fits h
    → All Fits ts
    → 1 + length ts ≤ fuel
    → relay fuel (stream h ts e) new_round ≡ with_ticks h (map tick_message ts)
unfolding handle write_header fanout
relay-stream zero h ts e fits_h fits enough = ground arith
relay-stream (suc fuel) h ts e fits_h fits enough =
    relay-encode fuel (header_message h) (encode_ticks ts ++ ending e) new_round fits_h
    ∙ relay_ticks fuel ts e h [] fits (omega arith)

-- The round behind the pointer that `Hub.Open` returned is the last one.
set_at-append :
    (f : LiveRound → LiveRound) (es : List HubRound) (e : HubRound)
    → set_at (length es) f (es ++ e ∷ []) ≡ es ++ record e { live_round = f e.live_round } ∷ []
unfolding set_at
set_at-append f [] e = refl
set_at-append f (x ∷ es) e = ap (λ l. x ∷ l) (set_at-append f es e)

-- The hub once a new round was opened for an id that is not live, with what the round is by then.
abbrev at_work : ℕ → LiveRound → Hub → Hub
at_work id r hub = record hub {
  rounds = hub.rounds ++ record { id = id; live_round = r } ∷ [];
  live = insert id (length hub.rounds) hub.live;
}

open_new :
    (id : ℕ) (hub : Hub)
    → lookup id hub.live ≡ none
    → open_round id hub ≡ (ok (length hub.rounds), at_work id new_round hub)
unfolding open_round
open_new id hub absent = rw (open_round, absent) refl

open_live :
    (id p : ℕ) (hub : Hub)
    → lookup id hub.live ≡ some p
    → open_round id hub ≡ (err (round_exists id), hub)
unfolding open_round
open_live id p hub busy = rw (open_round, busy) refl

closed_after :
    (id : ℕ) (h : Str) (ms : List Message) (hub : Hub)
    → lookup id hub.live ≡ none
    → close_round (length hub.rounds) (at_work id (with_ticks h ms) hub) ≡ record hub {
      rounds = hub.rounds ++ record { id = id; live_round = finish (with_ticks h ms) } ∷ [];
    }
unfolding close_round
closed_after id h ms hub absent =
    let e : HubRound = record { id = id; live_round = with_ticks h ms } in
    let there : get_elem? (hub.rounds ++ e ∷ []) (length hub.rounds) ≡ some e =
      ground (arith, get_elem?-append hub.rounds e (length hub.rounds)) in
    rw
      (
        close_round,
        there,
        set_at-append finish hub.rounds e,
        delete-insert id (length hub.rounds) hub.live absent,
      )
      refl

-- The loop on the new round, and its end.
relay_round-stream :
    (id : ℕ) (h : Str) (ts : List Str) (e : Option Str) (hub : Hub)
    → Fits h
    → All Fits ts
    → 1 + length ts ≤ length (stream h ts e)
    → lookup id hub.live ≡ none
    → relay_round (stream h ts e) (ok (length hub.rounds)) (at_work id new_round hub) ≡ record hub {
      rounds =
          hub.rounds
          ++ record { id = id; live_round = finish (with_ticks h (map tick_message ts)) } ∷ [];
    }
unfolding relay_round
relay_round-stream id h ts e hub fits_h fits enough absent =
    let s = stream h ts e in
    let n = length hub.rounds in
    let opened : HubRound = record { id = id; live_round = new_round } in
    ap (λ es. close_round n (record hub { rounds = es; live = insert id n hub.live }))
      (set_at-append (relay (length s) s) hub.rounds opened)
    ∙ ap (λ r. close_round n (at_work id r hub)) (relay-stream (length s) h ts e fits_h fits enough)
    ∙ closed_after id h (map tick_message ts) hub absent

-- The round that a whole stream leaves.
abbrev pub recorded : Str → List Str → LiveRound
recorded h ts = record {
  header = some (header_message h);
  ticks = map tick_message ts;
  is_done = true;
  subscribers = [];
}

-- The hub after the stream of a simulation, by whether its id was live already.
abbrev pub Received : Str → Str → List Str → Option ℕ → Hub → Hub → Type 0
Received id h ts (some p) hub hub' = hub' ≡ hub
Received id h ts none hub hub' = hub' ≡ record hub {
  rounds = hub.rounds ++ record { id = get_u64 id; live_round = recorded h ts } ∷ [];
}

-- A simulation that sends the id of its round, a header and any number of ticks, and then DONE or nothing
-- more, makes one new round of the hub, which is closed and has that id, that header and exactly those
-- ticks in their order, and nothing of what may follow DONE; the rounds that were there and the live
-- ones are as before. If its id is live already, the hub stays as it was. The id is eight bytes, each
-- payload is at most a mebibyte, and nothing else calls the hub meanwhile.
pub handle_conn-stream :
    (hub : Hub) (id : Str) (h : Str) (ts : List Str) (e : Option Str)
    → length id ≡ 8
    → Fits h
    → All Fits ts
    → Received id h ts (lookup (get_u64 id) hub.live) hub (handle_conn (id ++ stream h ts e) hub)
unfolding handle_conn relay_round finish fanout
handle_conn-stream hub id h ts e eight fits_h fits =
    let s = stream h ts e in
    let key = get_u64 id in
    let read : read_full 8 (id ++ s) ≡ ok (id, s) = rw eight at (read_full-append id s) in
    let enough : 1 + length ts ≤ length s = omega (
      arith,
      length-append (encode (header_message h)) (encode_ticks ts ++ ending e),
      length-encode (header_message h),
      length-append (encode_ticks ts) (ending e),
      length-encode_ticks ts,
    ) in
    let served : handle_conn (id ++ s) hub
        ≡ relay_round s (open_round key hub).0 (open_round key hub).1 =
      rw (handle_conn, read) refl in
    elim (Option-cases (lookup key hub.live)) [
      | inr (p, busy) ↦
          subst (λ o. Received id h ts o hub (handle_conn (id ++ s) hub)) (sym busy)
            (served ∙ ap (λ r. relay_round s r.0 r.1) (open_live key p hub busy))
      | inl absent ↦
          subst (λ o. Received id h ts o hub (handle_conn (id ++ s) hub)) (sym absent)
            (served
              ∙ ap (λ r. relay_round s r.0 r.1) (open_new key hub absent)
              ∙ relay_round-stream key h ts e hub fits_h fits enough absent)
    ]
