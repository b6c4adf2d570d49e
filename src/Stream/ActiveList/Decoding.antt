-- ===== src/Stream/ActiveList/Decoding.antt =====
-- A client's reading of the list that server/stream/ws.go writes: a JSON object with one array of texts.
use mathlib.Core.List.{append_assoc}
use marbles_game.Prelude.{
  All, Bool, List, Option, Str, [], ap, arith, codes, false, if◌then◌else◌, length, length-append,
  map, none, refl, some, str_eq, suc, true, zero, ℕ, ◌&&◌, ◌++◌, ◌<◌, ◌==◌, ◌∷◌, ◌≡◌, ◌≢◌, ◌≤◌,
}
use marbles_game.Stream.ActiveList.{active_list, encode_active_list, list_items, quote_mark}
use marbles_game.Std.Decimal.{format_digits, format_uint, is_digit}
use marbles_game.Stream.Hub.{Hub, active_rounds}

-- A text up to its closing quote, and what follows. There are no escapes.
abbrev cons_to : ℕ → Option (Str × Str) → Option (Str × Str)
cons_to c none = none
cons_to c (some (s, rest)) = some (c ∷ s, rest)

read_text : Str → Option (Str × Str)
read_text [] = none
read_text (c ∷ s) =
    let rest = read_text s in if c == quote_mark then some ([], s) else cons_to c rest

abbrev add_text : Str → Option (List Str × Str) → Option (List Str × Str)
add_text t none = none
add_text t (some (ts, rest)) = some (t ∷ ts, rest)

-- The elements of an array behind its opening quote; a comma comes before a further one.
read_more : ℕ → Str → Option (List Str × Str)
unfolding read_text
read_more zero s = none
read_more (suc fuel) s = elim (read_text s) [
  | none ↦ none
  | some (t, rest) ↦ elim rest [
    | [] ↦ none
    | c ∷ [] ↦ if c == b']' then some (t ∷ [], []) else none
    | c ∷ d ∷ s' ↦
        let more = read_more fuel s' in
        if c == b']'
        then some (t ∷ [], d ∷ s')
        else if c == b',' && d == quote_mark
        then add_text t more
        else none
  ]
]

-- The elements behind the opening bracket.
read_array : Str → Option (List Str × Str)
unfolding read_more
read_array [] = none
read_array (c ∷ s) =
    if c == b']' then some ([], s) else if c == quote_mark then read_more (length s) s else none

strip : Str → Str → Option Str
strip [] s = some s
strip (c ∷ p) [] = none
strip (c ∷ p) (d ∷ s) = let rest = strip p s in if c == d then rest else none

-- The texts of the one field.
unfoldable pub read_list : Str → Option (List Str)
unfolding strip read_array
read_list s = elim (strip (codes "{\"round_ids\":[") s) [
  | none ↦ none
  | some rest ↦ elim (read_array rest) [
    | none ↦ none
    | some (ids, end) ↦ if str_eq end (codes "}") then some ids else none
  ]
]

abbrev IsPlain : ℕ → Type 0
IsPlain c = c ≢ quote_mark

read_text-append :
    (t rest : Str) → All IsPlain t → read_text (t ++ quote_mark ∷ rest) ≡ some (t, rest)
unfolding read_text
read_text-append [] rest h = refl
read_text-append (c ∷ t) rest h = ground (arith, read_text-append t rest h.1)

read_more-items :
    (fuel : ℕ) (t : Str) (ts : List Str) (rest : Str)
    → length ts < fuel
    → All IsPlain t
    → All (All IsPlain) ts
    → read_more fuel (t ++ quote_mark ∷ (list_items false ts ++ b']' ∷ rest)) ≡ some (t ∷ ts, rest)
unfolding read_more list_items
read_more-items zero t ts rest room plain plains = elim room [ ]
read_more-items (suc fuel) t [] [] room plain plains =
    rw (read_more, read_text-append t (b']' ∷ []) plain) refl
read_more-items (suc fuel) t [] (d ∷ rest) room plain plains =
    rw (read_more, read_text-append t (b']' ∷ d ∷ rest) plain) refl
read_more-items (suc fuel) t (u ∷ ts) rest room plain plains =
    let tail = b',' ∷ quote_mark ∷ (u ++ quote_mark ∷ list_items false ts) ++ b']' ∷ rest in
    rw
      (
        read_more,
        read_text-append t tail plain,
        append_assoc u (quote_mark ∷ list_items false ts) (b']' ∷ rest),
      )
      (ap (add_text t) (read_more-items fuel u ts rest (omega arith) plains.0 plains.1))

items_enough : (first : Bool) (ids : List Str) → length ids ≤ length (list_items first ids)
unfolding list_items
items_enough first [] = omega arith
items_enough true (id ∷ ids) =
    omega (arith, items_enough false ids, length-append id (quote_mark ∷ list_items false ids))
items_enough false (id ∷ ids) =
    omega (arith, items_enough false ids, length-append id (quote_mark ∷ list_items false ids))

read_array-items :
    (ids : List Str) (rest : Str)
    → All (All IsPlain) ids
    → read_array (list_items true ids ++ b']' ∷ rest) ≡ some (ids, rest)
unfolding read_array list_items
read_array-items [] rest plain = refl
read_array-items (id ∷ ids) rest plain =
    let items = quote_mark ∷ list_items false ids in
    rw (append_assoc id items (b']' ∷ rest)) (
      read_more-items (length (id ++ (items ++ b']' ∷ rest))) id ids rest
        (omega (
          arith,
          items_enough false ids,
          length-append id (items ++ b']' ∷ rest),
          length-append items (b']' ∷ rest),
        ))
        plain.0 plain.1)

digits-IsPlain : (s : Str) → All (λ c. is_digit c ≡ true) s → All IsPlain s
digits-IsPlain [] h = tt
digits-IsPlain (c ∷ s) h = ((λ e. ground arith), digits-IsPlain s h.1)

texts-IsPlain : (ids : List ℕ) → All (All IsPlain) (map format_uint ids)
texts-IsPlain [] = tt
texts-IsPlain (id ∷ ids) = (digits-IsPlain (format_uint id) (format_digits id), texts-IsPlain ids)

-- A client that reads the list of live rounds as JSON gets the decimal text of each round's id, in the order
-- of the hub.
pub read_list-active_list :
    (h : Hub) → read_list (active_list h) ≡ some (map format_uint (active_rounds h))
unfolding read_list encode_active_list active_list
read_list-active_list h =
    let ids = map format_uint (active_rounds h) in
    rw (read_array-items ids (codes "}") (texts-IsPlain (active_rounds h)), read_list)
      (unfold str_eq in refl)
