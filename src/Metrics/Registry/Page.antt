-- ===== src/Metrics/Registry/Page.antt =====
-- The page of the registry (server/metrics/metrics.go).
use marbles_game.Prelude.{
  All, All-append, List, Option-cases, Str, [], ap, arith, inl, inr, map, none, refl, some,
  str_eq_iff, str_eq_inst, subst, sym, ◌++◌, ◌∙◌, ◌∷◌, ◌≡◌,
}
use mathlib.Core.Option.{none-ne-some, some-injective}
use mathlib.Core.List.{append-nil, append_assoc, map-append}
use marbles_game.Prelude.Dict.{beq_self, insert, insert_new, lookup, lookup-insert}
use marbles_game.Metrics.{Floats}
use marbles_game.Metrics.Registry.{
  Metric, Registry, block, blocks_of, metric_name, page, register, register_all,
}
use marbles_game.Std.Strings.{All-sort_by, sort_by, sort_strings, sort_strings-map}

module _ (fl : Floats) where
  open fl use {Float}

  abbrev pub Registered : Registry Float → List (Metric Float) → Type 0
  Registered reg = All (λ m. lookup (metric_name m) reg ≡ some m)

  Registered-insert :
      (m : Metric Float) (reg : Registry Float) (old : List (Metric Float))
      → lookup (metric_name m) reg ≡ none
      → Registered reg old
      → Registered (insert (metric_name m) m reg) old
  Registered-insert m reg [] new held = tt
  Registered-insert m reg (o ∷ old) new (one, held) = (
    grind (
      arith,
      lookup-insert (metric_name m) (metric_name o) m reg,
      str_eq_iff (metric_name m) (metric_name o),
      one,
      new,
    ),
    Registered-insert m reg old new held,
  )

  -- The registry has the metrics under their names, in the order in which they came.
  register_all_lem :
      (old ms : List (Metric Float)) (reg reg' : Registry Float)
      → map (λ e. e.0) reg ≡ map metric_name old
      → Registered reg old
      → register_all fl ms reg ≡ some reg'
      → (map (λ e. e.0) reg' ≡ map metric_name (old ++ ms)) × Registered reg' (old ++ ms)
  unfolding register_all
  register_all_lem old [] reg reg' names held done =
      let same : reg ≡ reg' = some-injective reg reg' done in
      subst (λ l. (map (λ e. e.0) reg' ≡ map metric_name l) × Registered reg' l)
        (sym (append-nil old))
        (subst (λ d. (map (λ e. e.0) d ≡ map metric_name old) × Registered d old) same
          (names, held))
  register_all_lem old (m ∷ ms) reg reg' names held done =
      elim (Option-cases (lookup (metric_name m) reg)) [
        | inr (o, taken) ↦
            let panics : register fl m reg ≡ none = unfold register in rw (register, taken) refl in
            absurd (none-ne-some reg' (rw (register_all, panics) at done))
        | inl new ↦
            let key = metric_name m in
            let enters : register fl m reg ≡ some (insert key m reg) =
              unfold register in rw (register, new) refl in
            let at_end : map (λ e. e.0) (insert key m reg) ≡ map metric_name (old ++ m ∷ []) =
              ap (map (λ e. e.0)) (insert_new key m reg new)
              ∙ map-append (λ e. e.0) reg ((key, m) ∷ [])
              ∙ ap (λ l. l ++ key ∷ []) names
              ∙ sym (map-append metric_name old (m ∷ [])) in
            let here = lookup-insert key key m reg in
            let all : Registered (insert key m reg) (old ++ m ∷ []) =
              All-append _ old (m ∷ []) (Registered-insert m reg old new held)
                (rw (beq_self key) at here, tt) in
            subst (λ l. (map (λ e. e.0) reg' ≡ map metric_name l) × Registered reg' l)
              (append_assoc old (m ∷ []) ms)
              (register_all_lem (old ++ m ∷ []) ms (insert key m reg) reg' at_end all
                (rw (register_all, enters) at done))
      ]

  -- The text of metrics one after the other.
  abbrev pub blocks : List (Metric Float) → Str
  blocks [] = []
  blocks (m ∷ ms) = block fl m ++ blocks ms

  blocks_of_lem :
      (ms : List (Metric Float)) (reg : Registry Float)
      → Registered reg ms
      → blocks_of fl (map metric_name ms) reg ≡ blocks ms
  unfolding blocks_of
  blocks_of_lem [] reg held = refl
  blocks_of_lem (m ∷ ms) reg (one, held) =
      rw one (ap (λ t. block fl m ++ t) (blocks_of_lem ms reg held))

  -- If metrics are registered one after the other and none panics, the page has exactly one block for
  -- each of them, with its help, its type and its current value, in the order of their names.
  pub page-register_all :
      (ms : List (Metric Float)) (reg : Registry Float)
      → register_all fl ms [] ≡ some reg
      → page fl reg ≡ blocks (sort_by metric_name ms)
  unfolding page
  page-register_all ms reg done =
      let (names, held) = register_all_lem [] ms [] reg refl tt done in
      ap (λ ns. blocks_of fl (sort_strings ns) reg) names
      ∙ ap (λ ns. blocks_of fl ns reg) (sort_strings-map metric_name ms)
      ∙ blocks_of_lem (sort_by metric_name ms) reg (All-sort_by metric_name _ ms held)
