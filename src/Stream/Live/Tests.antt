-- ===== src/Stream/Live/Tests.antt =====
-- A late subscriber and a slow one (server/stream/stream.go).
use marbles_game.Prelude.{List, [], map, refl, ◌∷◌, ◌≡◌}
use marbles_game.Stream.Live.{
  Op, apply, finishes, new_round, receives, run, subscribes, unsubscribes, writes_header,
  writes_tick,
}
use marbles_game.Stream.Live.Delivery.{Inv, run-new_round-Inv}

abbrev calls : List Op
calls =
    subscribes 20
    ∷ writes_tick (1 ∷ [])
    ∷ writes_header (5 ∷ [])
    ∷ writes_tick (6 ∷ [])
    ∷ receives 0
    ∷ subscribes 0
    ∷ writes_tick (7 ∷ [])
    ∷ unsubscribes 0
    ∷ finishes
    ∷ writes_tick (8 ∷ [])
    ∷ []

late_one :
    map (λ s. map (λ m. m.msg_type) s.sent) (run calls new_round).subscribers
    ≡ (1 ∷ 2 ∷ 2 ∷ []) ∷ (1 ∷ 2 ∷ 2 ∷ 3 ∷ []) ∷ []
unfolding run apply
late_one = refl

run-new_round-Inv_example : Inv (run calls new_round)
run-new_round-Inv_example = run-new_round-Inv calls
