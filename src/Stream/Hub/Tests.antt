-- ===== src/Stream/Hub/Tests.antt =====
-- An id that is opened twice, closed, and opened again; an old pointer closes nothing (server/stream/stream.go).
use marbles_game.Prelude.{List, [], refl, some, str_eq_inst, ◌∷◌, ◌≡◌}
use marbles_game.Prelude.Dict.{delete, insert, lookup}
use marbles_game.Stream.Hub.{
  Op, active_rounds, apply, closes, find, joins, new_hub, opens, run, ticks, writes,
}

abbrev calls : List Op
calls =
    opens 5
    ∷ opens 5
    ∷ opens 6
    ∷ writes 0 (1 ∷ [])
    ∷ ticks 1 (2 ∷ [])
    ∷ joins 0 20
    ∷ closes 0
    ∷ opens 5
    ∷ closes 0
    ∷ []

reopened :
    (find 5 (run calls new_hub) ≡ some 2)
    × (find 6 (run calls new_hub) ≡ some 1)
    × (active_rounds (run calls new_hub) ≡ 6 ∷ 5 ∷ [])
unfolding run apply lookup insert delete
reopened = (refl, refl, refl)
