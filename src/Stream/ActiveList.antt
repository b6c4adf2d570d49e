-- ===== src/Stream/ActiveList.antt =====
-- server/stream/ws.go: the list of the rounds that are live, `GET /live`.
pub mod Decoding
mod Tests
use marbles_game.Prelude.{Bool, List, Str, [], codes, false, map, true, ℕ, ◌++◌, ◌∷◌}
use marbles_game.Std.Decimal.{format_uint}
use marbles_game.Stream.Hub.{Hub, active_rounds}

abbrev pub quote_mark : ℕ
quote_mark = 34

-- The loop of `encodeActiveList`; `first` is the test `i > 0`, negated.
unfoldable pub list_items : Bool → List Str → Str
list_items first [] = []
list_items true (id ∷ ids) = quote_mark ∷ id ++ quote_mark ∷ list_items false ids
list_items false (id ∷ ids) = b',' ∷ quote_mark ∷ id ++ quote_mark ∷ list_items false ids

-- `encodeActiveList`
unfoldable pub encode_active_list : List Str → Str
unfolding list_items
encode_active_list ids = codes "{\"round_ids\":[" ++ (list_items true ids ++ codes "]}")

-- The body that `ActiveListHandler` writes.
unfoldable pub active_list : Hub → Str
unfolding encode_active_list
active_list h = encode_active_list (map format_uint (active_rounds h))
