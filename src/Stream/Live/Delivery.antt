-- ===== src/Stream/Live/Delivery.antt =====
-- What the subscribers of a live round are sent (server/stream/stream.go).
use mathlib.Core.List.{append-nil, append_assoc}
use marbles_game.Prelude.{
  All, All-append, Bool, Bool-cases, List, Option, Str, [], ap, arith, false, inl, inr, is_some,
  length, length-append, ltb, map, none, refl, some, subst, suc, sym, true, zero, ℕ, ◌++◌, ◌+◌, ◌-◌,
  ◌∙◌, ◌∷◌, ◌≡◌, ◌≤◌,
}
use marbles_game.Stream.Message.{Message, msg_header, msg_tick}
use marbles_game.Stream.Live.{
  LiveRound, Op, Subscriber, apply, at_place, backlog, deliver, done_message, fanout, finish,
  finishes, new_round, receives, run, shut, subscribe, subscribes, take_one, unsubscribes,
  write_header, write_tick, writes_header, writes_tick,
}

-- A subscriber of a round whose stream so far is `log`: an open one was sent all of it, any other one
-- a beginning of it; its buffer never holds more than its capacity.
pub record Delivered (log : List Message) (is_done : Bool) (s : Subscriber) : Type 0 where
  pub prefix : (rest : List Message) × (s.sent ++ rest ≡ log)
  pub whole : s.is_open ≡ true → (s.sent ≡ log) × (is_done ≡ false)
  pub bound : (s.received ≤ length s.sent) × (length s.sent ≤ s.received + s.capacity)

pub record Inv (r : LiveRound) : Type 0 where
  pub ordered : is_some r.header ≡ false → r.ticks ≡ []
  pub delivered : All (Delivered (backlog r) r.is_done) r.subscribers

deliver_lem :
    (m : Message) (log : List Message) (s : Subscriber)
    → Delivered log false s
    → Delivered (log ++ m ∷ []) false (deliver m s)
unfolding deliver
deliver_lem m log s d = elim (Bool-cases s.is_open) [
  | inr shut_before ↦
      rw (deliver, shut_before)
        (record {
          prefix = (
            d.prefix.0 ++ m ∷ [],
            sym (append_assoc s.sent d.prefix.0 (m ∷ [])) ∙ ap (λ l. l ++ m ∷ []) d.prefix.1,
          );
          whole = λ h. ground (arith, h, shut_before);
          bound = d.bound;
        })
  | inl open_before ↦ elim (Bool-cases (ltb (length s.sent - s.received) s.capacity)) [
    | inr full ↦
        rw (deliver, open_before, full)
          (record {
            prefix = (m ∷ [], ap (λ l. l ++ m ∷ []) (d.whole open_before).0);
            whole = λ h. ground (arith, h);
            bound = d.bound;
          })
    | inl room ↦
        rw (deliver, open_before, room)
          (record {
            prefix = ([], append-nil _ ∙ ap (λ l. l ++ m ∷ []) (d.whole open_before).0);
            whole = λ h. (ap (λ l. l ++ m ∷ []) (d.whole open_before).0, refl);
            bound = ground (arith, d.bound, room, length-append s.sent (m ∷ []));
          })
  ]
]

fanout_lem :
    (m : Message) (log : List Message) (ss : List Subscriber)
    → All (Delivered log false) ss
    → All (Delivered (log ++ m ∷ []) false) (fanout m ss)
unfolding fanout
fanout_lem m log [] d = tt
fanout_lem m log (s ∷ ss) d = (deliver_lem m log s d.0, fanout_lem m log ss d.1)

shut_lem :
    (log : List Message) (b c : Bool) (s : Subscriber)
    → Delivered log b s
    → Delivered log c (shut s)
shut_lem log b c s d = record { prefix = d.prefix; whole = λ h. ground (arith, h); bound = d.bound }

take_one_lem :
    (log : List Message) (b : Bool) (s : Subscriber)
    → Delivered log b s
    → Delivered log b (take_one s)
take_one_lem log b s d = elim (Bool-cases (ltb s.received (length s.sent))) [
  | inl more ↦
      rw more (record { prefix = d.prefix; whole = d.whole; bound = ground (arith, d.bound, more) })
  | inr empty ↦ rw empty d
]

at_place_lem :
    (log : List Message) (b : Bool) (f : Subscriber → Subscriber) (i : ℕ) (ss : List Subscriber)
    → ((s : Subscriber) → Delivered log b s → Delivered log b (f s))
    → All (Delivered log b) ss
    → All (Delivered log b) (at_place i f ss)
unfolding at_place
at_place_lem log b f i [] keep d = tt
at_place_lem log b f zero (s ∷ ss) keep d = (keep s d.0, d.1)
at_place_lem log b f (suc i) (s ∷ ss) keep d = (d.0, at_place_lem log b f i ss keep d.1)

All-shut :
    (log : List Message) (b c : Bool) (ss : List Subscriber)
    → All (Delivered log b) ss
    → All (Delivered log c) (map shut ss)
All-shut log b c [] d = tt
All-shut log b c (s ∷ ss) d = (shut_lem log b c s d.0, All-shut log b c ss d.1)

-- The same by the fields of a round.
abbrev round_of : Option Message → List Message → Bool → List Subscriber → LiveRound
round_of h ts b ss = record { header = h; ticks = ts; is_done = b; subscribers = ss }

write_header-Inv :
    (payload : Str) (h : Option Message) (ts : List Message) (b : Bool) (ss : List Subscriber)
    → Inv (round_of h ts b ss)
    → Inv (write_header payload (round_of h ts b ss)).1
unfolding write_header backlog
write_header-Inv payload (some h) ts b ss v = v
write_header-Inv payload none ts true ss v = v
write_header-Inv payload none ts false ss v =
    let m : Message = record { msg_type = msg_header; payload = payload } in
    record {
      ordered = λ h. ground (arith, h);
      delivered =
          subst (λ l. All (Delivered l false) (fanout m ss)) (rw (v.ordered refl) refl)
            (fanout_lem m (backlog (round_of none ts false ss)) ss v.delivered);
    }

write_tick-Inv :
    (payload : Str) (h : Option Message) (ts : List Message) (b : Bool) (ss : List Subscriber)
    → Inv (round_of h ts b ss)
    → Inv (write_tick payload (round_of h ts b ss)).1
unfolding write_tick backlog
write_tick-Inv payload none ts b ss v = v
write_tick-Inv payload (some h) ts true ss v = v
write_tick-Inv payload (some h) ts false ss v =
    let m : Message = record { msg_type = msg_tick; payload = payload } in
    record {
      ordered = λ e. ground (arith, e);
      delivered =
          subst (λ l. All (Delivered l false) (fanout m ss))
            (ap (λ l. h ∷ l ++ m ∷ []) (append-nil ts)
              ∙ ap (λ l. h ∷ l) (sym (append-nil (ts ++ m ∷ []))))
            (fanout_lem m (backlog (round_of (some h) ts false ss)) ss v.delivered);
    }

finish-Inv :
    (h : Option Message) (ts : List Message) (b : Bool) (ss : List Subscriber)
    → Inv (round_of h ts b ss)
    → Inv (finish (round_of h ts b ss))
unfolding finish backlog
finish-Inv h ts true ss v = v
finish-Inv h ts false ss v =
    let first : List Message = elim h [ none ↦ [] | some m ↦ m ∷ [] ] in
    record {
      ordered = v.ordered;
      delivered = All-shut _ false true (fanout done_message ss) (
          subst (λ l. All (Delivered l false) (fanout done_message ss))
            (ap (λ l. (first ++ l) ++ done_message ∷ []) (append-nil ts)
              ∙ append_assoc first ts (done_message ∷ []))
            (fanout_lem done_message (backlog (round_of h ts false ss)) ss v.delivered));
    }

length-backlog : (r : LiveRound) → length (backlog r) ≤ 2 + length r.ticks
unfolding backlog
length-backlog r =
    ground (arith, length-append r.ticks (done_message ∷ []), length-append r.ticks [])

subscribe-Inv : (live_buf : ℕ) (r : LiveRound) → Inv r → Inv (subscribe live_buf r)
unfolding subscribe
subscribe-Inv live_buf r v = record {
  ordered = v.ordered;
  delivered = All-append _ r.subscribers _ v.delivered (
    record {
      prefix = ([], append-nil _);
      whole = λ h. (refl, ground (arith, h));
      bound = (omega arith, ground (arith, length-backlog r));
    },
    tt,
  );
}

pub apply-Inv : (op : Op) (r : LiveRound) → Inv r → Inv (apply op r)
unfolding apply
apply-Inv (writes_header payload) r v =
    write_header-Inv payload r.header r.ticks r.is_done r.subscribers v
apply-Inv (writes_tick payload) r v =
    write_tick-Inv payload r.header r.ticks r.is_done r.subscribers v
apply-Inv finishes r v = finish-Inv r.header r.ticks r.is_done r.subscribers v
apply-Inv (subscribes live_buf) r v = subscribe-Inv live_buf r v
apply-Inv (unsubscribes i) r v = record {
  ordered = v.ordered;
  delivered =
      at_place_lem (backlog r) r.is_done shut i r.subscribers
        (λ s d. shut_lem (backlog r) r.is_done r.is_done s d) v.delivered;
}
apply-Inv (receives i) r v = record {
  ordered = v.ordered;
  delivered =
      at_place_lem (backlog r) r.is_done take_one i r.subscribers
        (take_one_lem (backlog r) r.is_done) v.delivered;
}

run-Inv : (ops : List Op) (r : LiveRound) → Inv r → Inv (run ops r)
unfolding run
run-Inv [] r v = v
run-Inv (op ∷ ops) r v = run-Inv ops (apply op r) (apply-Inv op r v)

-- Whatever the writer and the subscribers of a new round do, in any order: every subscriber that is
-- still attached was sent the whole stream so far, the header and then every tick, from the first one on
-- and in order, whenever it joined; one that left, was kicked or saw the end was sent a beginning of the
-- stream, with no gap; no buffer holds more than its capacity; there is no tick before the header; and
-- nobody is attached once the round is done.
pub run-new_round-Inv : (ops : List Op) → Inv (run ops new_round)
run-new_round-Inv ops = run-Inv ops new_round (record { ordered = λ h. refl; delivered = tt })
