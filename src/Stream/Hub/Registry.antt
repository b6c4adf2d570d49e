-- ===== src/Stream/Hub/Registry.antt =====
-- The hub's map and the rounds agree (server/stream/stream.go).
use marbles_game.Prelude.{
  Bool-cases, List, Option-cases, Str, [], ap, arith, false, get_elem?, if◌then◌else◌, inl, inr,
  length, nat_eq, none, refl, some, suc, sym, true, zero, ℕ, ◌++◌, ◌<◌, ◌==◌, ◌↔◌, ◌∙◌, ◌∷◌, ◌≡◌,
}
use marbles_game.Prelude.Dict.{delete, insert, lookup, lookup-delete, lookup-insert}
use marbles_game.Stream.Live
use marbles_game.Stream.Hub.{
  Hub, HubRound, Op, apply, close_round, closes, joins, new_hub, on_round, open_round, opens, run,
  set_at, ticks, writes,
}
use marbles_game.Stream.Live.{
  LiveRound, finish, new_round, subscribe, subscribes, write_header, write_tick, writes_header,
  writes_tick,
}

-- A pointer to a round with an id that is not done.
abbrev pub LiveAt : List HubRound → ℕ → ℕ → Type 0
LiveAt es id p =
    (e : HubRound) × (get_elem? es p ≡ some e) × (e.id ≡ id) × (e.live_round.is_done ≡ false)

-- The map has exactly the pointers to rounds that are not done, under their ids.
abbrev pub Inv : Hub → Type 0
Inv h = (id p : ℕ) → (lookup id h.live ≡ some p) ↔ LiveAt h.rounds id p

get_elem?-set_at :
    (p q : ℕ) (f : LiveRound → LiveRound) (es : List HubRound)
    → get_elem? (set_at p f es) q ≡ (
        if p == q
        then elim (get_elem? es q) [
          | none ↦ none
          | some e ↦ some (record e { live_round = f e.live_round })
        ]
        else get_elem? es q)
unfolding set_at
get_elem?-set_at p q f [] = ground arith
get_elem?-set_at zero zero f (e ∷ es) = ground arith
get_elem?-set_at zero (suc q) f (e ∷ es) = ground arith
get_elem?-set_at (suc p) zero f (e ∷ es) = ground arith
get_elem?-set_at (suc p) (suc q) f (e ∷ es) = ground (arith, get_elem?-set_at p q f es)

pub get_elem?-append :
    (es : List HubRound) (e : HubRound) (q : ℕ)
    → get_elem? (es ++ e ∷ []) q ≡ (if q == length es then some e else get_elem? es q)
get_elem?-append [] e zero = ground arith
get_elem?-append [] e (suc q) = ground arith
get_elem?-append (x ∷ es) e zero = ground arith
get_elem?-append (x ∷ es) e (suc q) = ground (arith, get_elem?-append es e q)

get_elem?_bound :
    (es : List HubRound) (q : ℕ) (e : HubRound) → get_elem? es q ≡ some e → q < length es
get_elem?_bound [] q e h = ground arith
get_elem?_bound (x ∷ es) zero e h = omega arith
get_elem?_bound (x ∷ es) (suc q) e h = omega (arith, get_elem?_bound es q e h)

opened-Inv :
    (id : ℕ) (h : Hub)
    → lookup id h.live ≡ none
    → Inv h
    → Inv (record {
      rounds = h.rounds ++ record { id = id; live_round = new_round } ∷ [];
      live = insert id (length h.rounds) h.live;
    })
opened-Inv id h free v j p =
    let n = length h.rounds in
    let e' : HubRound = record { id = id; live_round = new_round } in
    let table = lookup-insert id j n h.live in
    let heap = get_elem?-append h.rounds e' p in
    (
      λ found. elim (Bool-cases (id == j)) [
        | inl same ↦ (e', ground (arith, found, same, table, heap), ground (arith, same), refl)
        | inr other ↦
            let (e, at, mine, active) = (v j p).0 (ground (arith, found, other, table)) in
            let old = get_elem?_bound h.rounds p e at in
            (e, ground (arith, old, heap, at), mine, active)
      ],
      λ (e, at, mine, active). elim (Bool-cases (p == n)) [
        | inl newest ↦ ground (arith, at, mine, newest, heap, table)
        | inr older ↦
            let here = (v j p).1 (e, ground (arith, at, older, heap), mine, active) in
            ground (arith, here, free, table)
      ],
    )

open_round-Inv : (id : ℕ) (h : Hub) → Inv h → Inv (open_round id h).1
unfolding open_round
open_round-Inv id h v = elim (Option-cases (lookup id h.live)) [
  | inl free ↦ rw (open_round, free) (opened-Inv id h free v)
  | inr (p, taken) ↦ rw (open_round, taken) v
]

on_round-Inv :
    (p : ℕ) (f : LiveRound → LiveRound) (h : Hub)
    → ((r : LiveRound) → (f r).is_done ≡ r.is_done)
    → Inv h
    → Inv (record h { rounds = set_at p f h.rounds })
on_round-Inv p f h keeps v j q =
    let heap = get_elem?-set_at p q f h.rounds in
    (
      λ found.
          let (e, at, mine, active) = (v j q).0 found in
          elim (Bool-cases (p == q)) [
            | inl same ↦ (
              record e { live_round = f e.live_round },
              ground (arith, at, same, heap),
              mine,
              keeps e.live_round ∙ active,
            )
            | inr other ↦ (e, ground (arith, at, other, heap), mine, active)
          ],
      λ (e, at, mine, active). elim (Option-cases (get_elem? h.rounds q)) [
        | inl missing ↦ ground (arith, at, missing, heap)
        | inr (old, there) ↦ elim (Bool-cases (p == q)) [
          | inl same ↦
              let is_old : e ≡ record old { live_round = f old.live_round } =
                ground (arith, at, there, same, heap) in
              (v j q).1 (
                old,
                there,
                ap (λ x. x.id) (sym is_old) ∙ mine,
                sym (keeps old.live_round) ∙ ap (λ x. x.live_round.is_done) (sym is_old) ∙ active,
              )
          | inr other ↦ (v j q).1 (e, ground (arith, at, there, other, heap), mine, active)
        ]
      ],
    )

finish_lem : (r : LiveRound) → (finish r).is_done ≡ true
unfolding finish
finish_lem r = ground arith

closed-Inv :
    (p : ℕ) (e : HubRound) (h : Hub)
    → get_elem? h.rounds p ≡ some e
    → e.live_round.is_done ≡ false
    → Inv h
    → Inv (record { rounds = set_at p finish h.rounds; live = delete e.id h.live })
closed-Inv p e h there active v j q =
    let heap = get_elem?-set_at p q finish h.rounds in
    let table = lookup-delete e.id j h.live in
    (
      λ found.
          let other : (e.id == j) ≡ false = ground (arith, found, table) in
          let (e2, at, mine, active2) = (v j q).0 (ground (arith, found, table)) in
          (e2, ground (arith, at, there, mine, other, heap), mine, active2),
      λ (e2, at, mine, active2). elim (Bool-cases (p == q)) [
        | inl same ↦ ground (arith, at, active2, there, same, heap, finish_lem e.live_round)
        | inr apart ↦
            let before = (v j q).1 (e2, ground (arith, at, apart, heap), mine, active2) in
            let own = (v e.id p).1 (e, there, refl, active) in
            ground (arith, before, own, apart, table)
      ],
    )

close_round-Inv : (p : ℕ) (h : Hub) → Inv h → Inv (close_round p h)
unfolding close_round
close_round-Inv p h v = elim (Option-cases (get_elem? h.rounds p)) [
  | inl missing ↦ rw (close_round, missing) v
  | inr (e, there) ↦ elim (Bool-cases e.live_round.is_done) [
    | inl done ↦ rw (close_round, there, done) v
    | inr active ↦ rw (close_round, there, active) (closed-Inv p e h there active v)
  ]
]

write_keeps :
    (payload : Str) (n : ℕ) (r : LiveRound)
    → ((Live.apply (writes_header payload) r).is_done ≡ r.is_done)
      × ((Live.apply (writes_tick payload) r).is_done ≡ r.is_done)
      × ((Live.apply (subscribes n) r).is_done ≡ r.is_done)
unfolding Live.apply write_header write_tick subscribe
write_keeps payload n r = ground arith

apply-Inv : (op : Op) (h : Hub) → Inv h → Inv (apply op h)
unfolding apply on_round
apply-Inv (opens id) h v = open_round-Inv id h v
apply-Inv (closes p) h v = close_round-Inv p h v
apply-Inv (writes p payload) h v =
    on_round-Inv p (Live.apply (writes_header payload)) h (λ r. (write_keeps payload 0 r).0) v
apply-Inv (ticks p payload) h v =
    on_round-Inv p (Live.apply (writes_tick payload)) h (λ r. (write_keeps payload 0 r).1) v
apply-Inv (joins p n) h v =
    on_round-Inv p (Live.apply (subscribes n)) h (λ r. (write_keeps [] n r).2) v

run-Inv : (ops : List Op) (h : Hub) → Inv h → Inv (run ops h)
unfolding run
run-Inv [] h v = v
run-Inv (op ∷ ops) h v = run-Inv ops (apply op h) (apply-Inv op h v)

-- Whatever is opened, written, joined and closed on a new hub, in any order and through any pointers, old
-- ones included: `Lookup` of an id finds a round exactly if it is a round with this id that is not done,
-- so there is at most one such round for each id, and a round that is done is not found any more.
pub run-new_hub-Inv : (ops : List Op) → Inv (run ops new_hub)
unfolding lookup
run-new_hub-Inv ops =
    run-Inv ops new_hub
      (λ id p. (λ found. ground (arith, found), λ (e, at, mine, active). ground (arith, at)))
