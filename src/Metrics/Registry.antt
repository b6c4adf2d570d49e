-- ===== src/Metrics/Registry.antt =====
-- The registry of server/metrics/metrics.go and the page that `Handler` serves. The registry is one for the
-- process; here it is the state. Each lookup holds the lock, and nothing is ever taken out of the registry.
pub mod Page
use marbles_game.Prelude.{
  List, Option, Str, [], codes, if◌then◌else◌, is_some, map, none, some, str_eq_inst, ◌++◌, ◌∷◌,
}
use marbles_game.Prelude.Dict.{Dict, insert, lookup}
use marbles_game.Std.Strings.{sort_strings}
use marbles_game.Metrics.{Counter, Floats, Histogram, emit_counter, emit_histogram}

-- The interface `metric`, with its two implementations
pub data Metric (F : Type 0) : Type 0 where
  a_counter : Counter → Metric F
  a_histogram : Histogram F → Metric F

abbrev pub metric_name : {F : Type 0} → Metric F → Str
metric_name (a_counter c) = c.name
metric_name (a_histogram h) = h.name

abbrev pub metric_help : {F : Type 0} → Metric F → Str
metric_help (a_counter c) = c.help
metric_help (a_histogram h) = h.help

abbrev pub metric_type : {F : Type 0} → Metric F → Str
metric_type (a_counter c) = codes "counter"
metric_type (a_histogram h) = codes "histogram"

abbrev pub Registry : Type 0 → Type 0
Registry F = Dict Str (Metric F)

module _ (fl : Floats) where
  open fl use {Float}

  abbrev pub emit : Metric Float → Str
  emit (a_counter c) = emit_counter c
  emit (a_histogram h) = emit_histogram fl h

  -- `register` under the metric's name; a second registration panics.
  unfoldable pub register : Metric Float → Registry Float → Option (Registry Float)
  register m reg =
      if is_some (lookup (metric_name m) reg) then none else some (insert (metric_name m) m reg)

  -- `NewCounter` and `NewHistogram`, one after the other
  unfoldable pub register_all : List (Metric Float) → Registry Float → Option (Registry Float)
  unfolding register
  register_all [] reg = some reg
  register_all (m ∷ ms) reg = elim (register m reg) [
    | none ↦ none
    | some reg' ↦ register_all ms reg'
  ]

  -- What the page has for a metric.
  abbrev pub block : Metric Float → Str
  block m =
      (codes "# HELP " ++ (metric_name m ++ (codes " " ++ (metric_help m ++ codes "\n"))))
      ++ ((codes "# TYPE " ++ (metric_name m ++ (codes " " ++ (metric_type m ++ codes "\n"))))
          ++ emit m)

  -- The loop of `Handler` over the sorted names
  unfoldable pub blocks_of : List Str → Registry Float → Str
  blocks_of [] reg = []
  blocks_of (n ∷ ns) reg =
      (elim (lookup n reg) [ none ↦ [] | some m ↦ block m ]) ++ blocks_of ns reg

  -- The body of `Handler`
  unfoldable pub page : Registry Float → Str
  unfolding blocks_of
  page reg = blocks_of (sort_strings (map (λ e. e.0) reg)) reg
