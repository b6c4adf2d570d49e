-- ===== src/Metrics.antt =====
-- server/metrics/metrics.go: counters, histograms and the text that a scrape gets. float64 is an interface:
-- an order, a sum, the sorting of package sort and the format `%g`. Each method holds the lock of its metric
-- or is atomic, and is one step.
pub mod Buckets
pub mod Registry
mod Tests
use marbles_game.Prelude.{
  Bool, List, Str, [], add_u64, codes, if◌then◌else◌, length, replicate, sum, ℕ, ◌++◌, ◌+◌, ◌∷◌,
}
use marbles_game.Std.Decimal.{format_uint}

pub record Floats : Type 1 where
  pub Float : Type 0
  pub zero_float : Float
  pub plus : Float → Float → Float
  pub le : Float → Float → Bool  -- `x <= y`
  pub sort_floats : List Float → List Float  -- `sort.Float64s`
  pub show : Float → Str  -- `%g`

-- `Counter`
pub record Counter : Type 0 where
  pub n : ℕ
  pub name : Str
  pub help : Str

-- `NewCounter`, before its registration
abbrev pub new_counter : Str → Str → Counter
new_counter name help = record { n = 0; name = name; help = help }

-- `Counter.Add`
unfoldable pub add : ℕ → Counter → Counter
add delta c = record c { n = add_u64 c.n delta }

-- `Counter.Inc`
unfoldable pub inc : Counter → Counter
inc c = record c { n = add_u64 c.n 1 }

-- The text of `Counter.emit`
unfoldable pub emit_counter : Counter → Str
emit_counter c = c.name ++ (codes " " ++ (format_uint c.n ++ codes "\n"))

-- `Histogram`
pub record Histogram (F : Type 0) : Type 0 where
  pub buckets : List F
  pub counts : List ℕ  -- uint64; the last is +Inf
  pub sum : F
  pub count : ℕ  -- uint64
  pub name : Str
  pub help : Str

-- One line of `Histogram.emit`
abbrev pub bucket_line : Str → Str → ℕ → Str
bucket_line name bound n =
    name ++ (codes "_bucket{le=\"" ++ (bound ++ (codes "\"} " ++ (format_uint n ++ codes "\n"))))

module _ (fl : Floats) where
  open fl use {Float, zero_float, plus, le, sort_floats, show}

  -- `NewHistogram`, before its registration
  unfoldable pub new_histogram : Str → Str → List Float → Histogram Float
  new_histogram name help buckets = record {
    buckets = sort_floats buckets;
    counts = replicate (length (sort_floats buckets) + 1) 0;
    sum = zero_float;
    count = 0;
    name = name;
    help = help;
  }

  -- The loop of `Observe` over the buckets that are left, and the count behind them. There is always one
  -- count more than buckets.
  unfoldable pub bump : Float → List Float → List ℕ → List ℕ
  bump v bs [] = []
  bump v [] (c ∷ []) = add_u64 c 1 ∷ []
  bump v [] (c ∷ d ∷ cs) = c ∷ bump v [] (d ∷ cs)
  bump v (b ∷ bs) (c ∷ cs) =
      let rest = c ∷ bump v bs cs in if le v b then add_u64 c 1 ∷ cs else rest

  -- `Histogram.Observe`
  unfoldable pub observe : Float → Histogram Float → Histogram Float
  unfolding bump
  observe v h = record h {
    sum = plus h.sum v;
    count = add_u64 h.count 1;
    counts = bump v h.buckets h.counts;
  }

  -- The bucket lines of `Histogram.emit`, from the running total on.
  unfoldable pub emit_buckets : Str → ℕ → List Float → List ℕ → Str
  emit_buckets name total bs [] = []
  emit_buckets name total [] (c ∷ []) = bucket_line name (codes "+Inf") (add_u64 total c)
  emit_buckets name total [] (c ∷ d ∷ cs) = emit_buckets name total [] (d ∷ cs)
  emit_buckets name total (b ∷ bs) (c ∷ cs) =
      bucket_line name (show b) (add_u64 total c) ++ emit_buckets name (add_u64 total c) bs cs

  -- `Histogram.emit`
  unfoldable pub emit_histogram : Histogram Float → Str
  unfolding emit_buckets
  emit_histogram h =
      emit_buckets h.name 0 h.buckets h.counts
      ++ ((h.name ++ (codes "_sum " ++ (show h.sum ++ codes "\n")))
          ++ (h.name ++ (codes "_count " ++ (format_uint h.count ++ codes "\n"))))

  -- Observations, the latest first.
  unfoldable pub observe_all : List Float → Histogram Float → Histogram Float
  unfolding observe
  observe_all [] h = h
  observe_all (v ∷ vs) h = observe v (observe_all vs h)
