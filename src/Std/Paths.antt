-- ===== src/Std/Paths.antt =====
-- Package path/filepath on Unix: `Ext`, `Clean` and `Join` of two parts.
use marbles_game.Prelude.{
  Bool, List, Str, [], codes, if◌then◌else◌, is_empty, str_eq, ◌++◌, ◌==◌, ◌||◌, ◌∷◌,
}
use mathlib.Core.List.{reverse}
use marbles_game.Std.Text.{has_prefix, split_on}

-- The loop of `Ext` reads from the end; from the start, a slash forgets the dot seen last.
unfoldable pub ext_from : Str → Str → Str
ext_from dot [] = dot
ext_from dot (c ∷ s) = ext_from (if c == b'/' then [] else if c == b'.' then c ∷ s else dot) s

abbrev pub ext : Str → Str
ext s = ext_from [] s

-- The parts, the last one first, with `name` added unless it says nothing; `..` takes one away.
unfoldable pub add_part : Bool → Str → List Str → List Str
add_part rooted name parts =
    if is_empty name || str_eq name (codes ".")
    then parts
    else if str_eq name (codes "..")
    then elim parts [
      | [] ↦ if rooted then [] else name ∷ []
      | p ∷ ps ↦ if str_eq p (codes "..") then name ∷ p ∷ ps else ps
    ]
    else name ∷ parts

unfoldable pub add_parts : Bool → List Str → List Str → List Str
unfolding add_part
add_parts rooted [] parts = parts
add_parts rooted (n ∷ names) parts = add_parts rooted names (add_part rooted n parts)

-- The parts, the first one first, with slashes between.
unfoldable pub join_parts : List Str → Str
join_parts [] = []
join_parts (p ∷ []) = p
join_parts (p ∷ q ∷ ps) = p ++ b'/' ∷ join_parts (q ∷ ps)

abbrev pub is_rooted : Str → Bool
is_rooted s = has_prefix s (codes "/")

unfoldable pub clean : Str → Str
unfolding add_parts join_parts split_on has_prefix
clean s =
    let parts = reverse (add_parts (is_rooted s) (split_on b'/' s) []) in
    if is_rooted s
    then b'/' ∷ join_parts parts
    else elim parts [ [] ↦ codes "." | p ∷ ps ↦ join_parts (p ∷ ps) ]

-- `Join`, of a second part that is not empty
abbrev pub join : Str → Str → Str
join dir name = if is_empty dir then clean name else clean (dir ++ b'/' ∷ name)
