-- ===== src/Stream/Socket/Growth.antt =====
-- How the channel of a subscriber changes between the turns of its WebSocket handler (server/stream/ws.go).
use mathlib.Core.Option.{some-injective}
use mathlib.Core.List.{append-nil, append_assoc}
use marbles_game.Prelude.{
  Bool-cases, List, Str, [], ap, arith, get_elem?, inl, inr, is_some, length, ltb, map, refl, some,
  subst, suc, sym, zero, ℕ, ◌++◌, ◌-◌, ◌∙◌, ◌∷◌, ◌≡◌, ◌≢◌,
}
use marbles_game.Stream.Message.{Message}
use marbles_game.Stream.Live.{
  LiveRound, Op, Subscriber, apply, at_place, deliver, done_message, fanout, finish, finishes,
  receive, receives, shut, subscribe, subscribes, take_one, unsubscribe, unsubscribes, write_header,
  write_tick, writes_header, writes_tick,
}

-- Between two calls of its own, a subscriber's channel only gets more messages.
abbrev pub Grows : Subscriber → Subscriber → Type 0
Grows s t = (t.received ≡ s.received) × ((ext : List Message) × (t.sent ≡ s.sent ++ ext))

Grows-refl : (s : Subscriber) → Grows s s
Grows-refl s = (refl, ([], sym (append-nil s.sent)))

deliver-Grows : (m : Message) (s : Subscriber) → Grows s (deliver m s)
unfolding deliver
deliver-Grows m s = elim (Bool-cases s.is_open) [
  | inr gone ↦ rw (deliver, gone) (Grows-refl s)
  | inl here ↦ elim (Bool-cases (ltb (length s.sent - s.received) s.capacity)) [
    | inl room ↦ rw (deliver, here, room) (refl, (m ∷ [], refl))
    | inr full ↦ rw (deliver, here, full) (refl, ([], sym (append-nil s.sent)))
  ]
]

-- The subscriber at a place has only grown.
abbrev pub GrownAt : ℕ → List Subscriber → List Subscriber → Type 0
GrownAt i ss ts =
    (s : Subscriber)
    → get_elem? ss i ≡ some s
    → (t : Subscriber) × (get_elem? ts i ≡ some t) × Grows s t

same-GrownAt : (i : ℕ) (ss : List Subscriber) → GrownAt i ss ss
same-GrownAt i ss s h = (s, h, Grows-refl s)

fanout-GrownAt : (m : Message) (i : ℕ) (ss : List Subscriber) → GrownAt i ss (fanout m ss)
unfolding fanout
fanout-GrownAt m i [] s h = ground (arith, h)
fanout-GrownAt m zero (u ∷ ss) s h =
    subst (λ v. (t : Subscriber) × (some (deliver m u) ≡ some t) × Grows v t) (some-injective u s h)
      (deliver m u, refl, deliver-Grows m u)
fanout-GrownAt m (suc i) (u ∷ ss) s h = fanout-GrownAt m i ss s h

map-shut-GrownAt : (i : ℕ) (ss : List Subscriber) → GrownAt i ss (map shut ss)
map-shut-GrownAt i [] s h = ground (arith, h)
map-shut-GrownAt zero (u ∷ ss) s h =
    subst (λ v. (t : Subscriber) × (some (shut u) ≡ some t) × Grows v t) (some-injective u s h)
      (shut u, refl, Grows-refl u)
map-shut-GrownAt (suc i) (u ∷ ss) s h = map-shut-GrownAt i ss s h

append-GrownAt : (i : ℕ) (ss ts : List Subscriber) → GrownAt i ss (ss ++ ts)
append-GrownAt i [] ts s h = ground (arith, h)
append-GrownAt zero (u ∷ ss) ts s h = (s, h, Grows-refl s)
append-GrownAt (suc i) (u ∷ ss) ts s h = append-GrownAt i ss ts s h

-- A change at any place that keeps a channel.
at_place-GrownAt :
    (j i : ℕ) (f : Subscriber → Subscriber) (ss : List Subscriber)
    → (j ≡ i → (s : Subscriber) → Grows s (f s))
    → GrownAt i ss (at_place j f ss)
unfolding at_place
at_place-GrownAt j i f [] keep s h = ground (arith, h)
at_place-GrownAt zero zero f (u ∷ ss) keep s h =
    subst (λ v. (t : Subscriber) × (some (f u) ≡ some t) × Grows v t) (some-injective u s h)
      (f u, refl, keep refl u)
at_place-GrownAt zero (suc i) f (u ∷ ss) keep s h = (s, h, Grows-refl s)
at_place-GrownAt (suc j) zero f (u ∷ ss) keep s h = (s, h, Grows-refl s)
at_place-GrownAt (suc j) (suc i) f (u ∷ ss) keep s h =
    at_place-GrownAt j i f ss (λ e. keep (ap suc e)) s h

both-GrownAt :
    (i : ℕ) (ss ts us : List Subscriber) → GrownAt i ss ts → GrownAt i ts us → GrownAt i ss us
both-GrownAt i ss ts us first later s h =
    let (t, at_t, (same_t, (ext, more))) = first s h in
    let (u, at_u, (same_u, (ext', more'))) = later t at_t in
    (
      u,
      at_u,
      (
        same_u ∙ same_t,
        (ext ++ ext', more' ∙ ap (λ l. l ++ ext') more ∙ append_assoc s.sent ext ext'),
      ),
    )

-- Only the handler receives from its own channel.
abbrev pub IsOther : ℕ → Op → Type 0
IsOther i (receives j) = j ≢ i
IsOther i op = Unit

write_header-GrownAt :
    (payload : Str) (i : ℕ) (r : LiveRound)
    → GrownAt i r.subscribers (write_header payload r).1.subscribers
unfolding write_header
write_header-GrownAt payload i r = elim (Bool-cases (is_some r.header)) [
  | inl written ↦ rw (write_header, written) (same-GrownAt i r.subscribers)
  | inr first ↦ elim (Bool-cases r.is_done) [
    | inl over ↦ rw (write_header, first, over) (same-GrownAt i r.subscribers)
    | inr live ↦ rw (write_header, first, live) (fanout-GrownAt _ i r.subscribers)
  ]
]

write_tick-GrownAt :
    (payload : Str) (i : ℕ) (r : LiveRound)
    → GrownAt i r.subscribers (write_tick payload r).1.subscribers
unfolding write_tick
write_tick-GrownAt payload i r = elim (Bool-cases (is_some r.header)) [
  | inr early ↦ rw (write_tick, early) (same-GrownAt i r.subscribers)
  | inl begun ↦ elim (Bool-cases r.is_done) [
    | inl over ↦ rw (write_tick, begun, over) (same-GrownAt i r.subscribers)
    | inr live ↦ rw (write_tick, begun, live) (fanout-GrownAt _ i r.subscribers)
  ]
]

finish-GrownAt : (i : ℕ) (r : LiveRound) → GrownAt i r.subscribers (finish r).subscribers
unfolding finish
finish-GrownAt i r = elim (Bool-cases r.is_done) [
  | inl over ↦ rw (finish, over) (same-GrownAt i r.subscribers)
  | inr live ↦
      let told = fanout done_message r.subscribers in
      rw (finish, live)
        (both-GrownAt i r.subscribers told (map shut told)
          (fanout-GrownAt done_message i r.subscribers) (map-shut-GrownAt i told))
]

pub apply-GrownAt :
    (op : Op) (i : ℕ) (r : LiveRound)
    → IsOther i op
    → GrownAt i r.subscribers (apply op r).subscribers
unfolding apply subscribe unsubscribe receive
apply-GrownAt (writes_header payload) i r other = write_header-GrownAt payload i r
apply-GrownAt (writes_tick payload) i r other = write_tick-GrownAt payload i r
apply-GrownAt finishes i r other = finish-GrownAt i r
apply-GrownAt (subscribes live_buf) i r other = append-GrownAt i r.subscribers _
apply-GrownAt (unsubscribes j) i r other =
    at_place-GrownAt j i shut r.subscribers (λ e s. Grows-refl s)
apply-GrownAt (receives j) i r other =
    at_place-GrownAt j i take_one r.subscribers (λ e s. absurd (other e))
