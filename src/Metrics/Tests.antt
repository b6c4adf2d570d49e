-- ===== src/Metrics/Tests.antt =====
-- A histogram of whole numbers, and a registry (server/metrics/metrics.go).
use marbles_game.Prelude.{
  List, Str, [], arith, codes, leb, none, refl, some, str_eq, str_eq_inst, ℕ, ◌++◌, ◌+◌, ◌∷◌, ◌≡◌,
}
use marbles_game.Std.Decimal.{format_uint}
use marbles_game.Std.Sort.{sort}
use marbles_game.Prelude.Dict.{insert, lookup}
use marbles_game.Std.Strings.{sort_by}
use marbles_game.Metrics.Registry.{
  Metric, Registry, a_counter, a_histogram, page, register, register_all,
}
use marbles_game.Metrics.{
  Floats, emit_counter, emit_histogram, inc, new_counter, new_histogram, observe_all,
}
use marbles_game.Metrics.Buckets.{bucket_lines, emit_histogram-observe_all}

abbrev pub whole : Floats
whole = record {
  Float = ℕ;
  zero_float = 0;
  plus = λ m n. m + n;
  le = leb;
  sort_floats = sort;
  show = format_uint;
}

abbrev bounds : List ℕ
bounds = 5 ∷ 1 ∷ []

abbrev seconds : List ℕ
seconds = 9 ∷ 1 ∷ 3 ∷ []

abbrev scrape : Str
scrape =
    emit_histogram whole (observe_all whole seconds (new_histogram whole (codes "d") [] bounds))

emit_histogram-observe_all_example :
    scrape
    ≡ bucket_lines whole (codes "d") (sort bounds) seconds
      ++ ((codes "d" ++ (codes "_sum " ++ (format_uint 13 ++ codes "\n")))
          ++ (codes "d" ++ (codes "_count " ++ (format_uint 3 ++ codes "\n"))))
unfolding sort
emit_histogram-observe_all_example =
    emit_histogram-observe_all whole (λ a b c p q. ground arith) (codes "d") [] bounds seconds
      (refl, tt) (omega arith)

scrape_text :
    scrape
    ≡ codes
        "d_bucket{le=\"1\"} 1\nd_bucket{le=\"5\"} 2\nd_bucket{le=\"+Inf\"} 3\nd_sum 13\nd_count 3\n"
unfolding emit_histogram observe_all new_histogram sort format_uint
scrape_text = refl

-- A histogram and a counter, and a second metric with the counter's name.
abbrev metrics : List (Metric ℕ)
metrics =
    a_histogram (new_histogram whole (codes "d") (codes "time") bounds)
    ∷ a_counter (inc (new_counter (codes "bets") (codes "all bets")))
    ∷ []

abbrev registry : Registry ℕ
registry = elim (register_all whole metrics []) [ none ↦ [] | some reg ↦ reg ]

page_text :
    page whole registry
    ≡ codes "# HELP bets all bets\n# TYPE bets counter\nbets 1\n# HELP d time\n# TYPE d histogram\n"
      ++ emit_histogram whole (new_histogram whole (codes "d") (codes "time") bounds)
unfolding page register_all register lookup insert sort_by emit_counter format_uint str_eq
    new_histogram inc emit_histogram sort
page_text = refl

registered_twice : register whole (a_counter (new_counter (codes "d") [])) registry ≡ none
unfolding register_all register lookup insert str_eq new_histogram inc
registered_twice = refl
