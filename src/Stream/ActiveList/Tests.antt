-- ===== src/Stream/ActiveList/Tests.antt =====
-- A hub with two live rounds (server/stream/ws.go).
use marbles_game.Prelude.{[], codes, map, refl, some, str_eq_inst, ◌∷◌, ◌≡◌}
use marbles_game.Prelude.Dict.{insert, lookup}
use marbles_game.Std.Decimal.{format_uint}
use marbles_game.Stream.Hub.{Hub, active_rounds, apply, new_hub, opens, run}
use marbles_game.Stream.ActiveList.{active_list}
use marbles_game.Stream.ActiveList.Decoding.{read_list, read_list-active_list}

abbrev two_rounds : Hub
two_rounds = run (opens 7 ∷ opens 12 ∷ []) new_hub

body : active_list two_rounds ≡ codes "{\"round_ids\":[\"7\",\"12\"]}"
unfolding active_list run apply insert lookup format_uint
body = refl

read_list-active_list_example :
    read_list (active_list two_rounds) ≡ some (map format_uint (active_rounds two_rounds))
read_list-active_list_example = read_list-active_list two_rounds
