-- ===== src/Stream/Hub.antt =====
-- server/stream/stream.go: the hub of live rounds. A `*Round` is represented by its place in `rounds`,
-- which keeps every round that was ever opened; `live` is the map of the hub.
pub mod Registry
mod Tests
use marbles_game.Prelude.{
  Exec, List, Option, Str, [], err, get_elem?, if◌then◌else◌, is_some, length, map, nat_eq, none,
  ok, some, suc, zero, ℕ, ◌++◌, ◌∷◌,
}
use marbles_game.Prelude.Dict.{Dict, delete, insert, lookup}
use marbles_game.Stream.Live
use marbles_game.Stream.Live.{LiveRound, finish, new_round, subscribes, writes_header, writes_tick}

pub record HubRound : Type 0 where
  pub id : ℕ
  pub live_round : LiveRound

pub record Hub : Type 0 where
  pub rounds : List HubRound
  pub live : Dict ℕ ℕ

pub data Error : Type 0 where
  round_exists : ℕ → Error

-- `NewHub`
abbrev pub new_hub : Hub
new_hub = record { rounds = []; live = [] }

-- `Hub.Open`
unfoldable pub open_round : ℕ → Exec Error Hub ℕ
open_round id h = if is_some (lookup id h.live) then (err (round_exists id), h) else (
  ok (length h.rounds),
  record h {
    rounds = h.rounds ++ record { id = id; live_round = new_round } ∷ [];
    live = insert id (length h.rounds) h.live;
  },
)

-- `Hub.Lookup`
abbrev pub find : ℕ → Hub → Option ℕ
find id h = lookup id h.live

-- `Hub.ActiveRounds`, in the order of the table; the code leaves the order of the map open.
abbrev pub active_rounds : Hub → List ℕ
active_rounds h = map (λ e. e.0) h.live

-- A change of the round behind a pointer.
unfoldable pub set_at : ℕ → (LiveRound → LiveRound) → List HubRound → List HubRound
set_at p f [] = []
set_at zero f (e ∷ es) = record e { live_round = f e.live_round } ∷ es
set_at (suc p) f (e ∷ es) = e ∷ set_at p f es

-- `Round.Done` through a pointer: a second call does nothing.
unfoldable pub close_round : ℕ → Hub → Hub
unfolding set_at
close_round p h = elim (get_elem? h.rounds p) [
  | none ↦ h
  | some e ↦
      if e.live_round.is_done
      then h
      else record h { rounds = set_at p finish h.rounds; live = delete e.id h.live }
]

-- A call of another method of a round.
unfoldable pub on_round : ℕ → Live.Op → Hub → Hub
unfolding set_at Live.apply
on_round p op h = record h { rounds = set_at p (Live.apply op) h.rounds }

pub data Op : Type 0 where
  opens : ℕ → Op
  closes : ℕ → Op
  writes : ℕ → Str → Op
  ticks : ℕ → Str → Op
  joins : ℕ → ℕ → Op

unfoldable pub apply : Op → Hub → Hub
unfolding open_round close_round on_round
apply (opens id) h = (open_round id h).1
apply (closes p) h = close_round p h
apply (writes p payload) h = on_round p (writes_header payload) h
apply (ticks p payload) h = on_round p (writes_tick payload) h
apply (joins p live_buf) h = on_round p (subscribes live_buf) h

unfoldable pub run : List Op → Hub → Hub
run [] h = h
run (op ∷ ops) h = run ops (apply op h)
