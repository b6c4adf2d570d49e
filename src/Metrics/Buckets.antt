-- ===== src/Metrics/Buckets.antt =====
-- What a histogram of server/metrics/metrics.go shows after any observations.
use mathlib.Core.Path.{fun_ext}
use native.Mathlib.Nat.{suc-add}
use marbles_game.Prelude.{
  Bool, Bool-cases, List, Str, [], add_u64, ap, arith, codes, false, if◌then◌else◌, inl, inr,
  length, not, refl, replicate, suc, sym, true, u64, u64_mod, ℕ, ◌&&◌, ◌++◌, ◌+◌, ◌<◌, ◌||◌, ◌∙◌,
  ◌∷◌, ◌≡◌, ◌≤◌,
}
use marbles_game.Metrics.{
  Floats, Histogram, bucket_line, bump, emit_buckets, emit_histogram, new_histogram, observe,
  observe_all,
}
use marbles_game.Std.Decimal.{format_uint}

module _ {F : Type 0} where
  -- How many values satisfy a test.
  abbrev pub tally : (F → Bool) → List F → ℕ
  tally p [] = 0
  tally p (v ∷ vs) = (if p v then 1 else 0) + tally p vs

  tally-le : (p : F → Bool) (vs : List F) → tally p vs ≤ length vs
  tally-le p [] = omega arith
  tally-le p (v ∷ vs) = ground (arith, tally-le p vs)

  tally-split :
      (p q : F → Bool) (vs : List F)
      → tally p vs + tally (λ v. not (p v) && q v) vs ≡ tally (λ v. p v || q v) vs
  tally-split p q [] = refl
  tally-split p q (v ∷ vs) = ground (arith, tally-split p q vs)

  tally-rest : (p : F → Bool) (vs : List F) → tally p vs + tally (λ v. not (p v)) vs ≡ length vs
  tally-rest p [] = refl
  tally-rest p (v ∷ vs) = ground (arith, tally-rest p vs)

module _ (fl : Floats) where
  open fl use {Float, zero_float, plus, le, sort_floats, show}

  -- Each bound is at most the next one.
  abbrev pub IsAscending : List Float → Type 0
  IsAscending [] = Unit
  IsAscending (b ∷ []) = Unit
  IsAscending (b ∷ d ∷ bs) = (le b d ≡ true) × IsAscending (d ∷ bs)

  -- The counts after `vs`, where `seen` tells which values an earlier bucket took.
  counts_from : (Float → Bool) → List Float → List Float → List ℕ
  counts_from seen [] vs = tally (λ v. not (seen v)) vs ∷ []
  counts_from seen (b ∷ bs) vs =
      tally (λ v. not (seen v) && le v b) vs ∷ counts_from (λ v. seen v || le v b) bs vs

  counts_from-seen :
      (seen : Float → Bool) (bs : List Float) (v : Float) (vs : List Float)
      → seen v ≡ true
      → counts_from seen bs (v ∷ vs) ≡ counts_from seen bs vs
  unfolding counts_from
  counts_from-seen seen [] v vs e = ground arith
  counts_from-seen seen (b ∷ bs) v vs e =
      ground (arith, counts_from-seen (λ u. seen u || le u b) bs v vs)

  counts_from-new :
      (seen : Float → Bool) (bs : List Float) (v : Float) (vs : List Float)
      → seen v ≡ false
      → length vs + 1 < u64_mod
      → counts_from seen bs (v ∷ vs) ≡ bump fl v bs (counts_from seen bs vs)
  unfolding counts_from bump
  counts_from-new seen [] v vs e room = ground (arith, tally-le (λ u. not (seen u)) vs)
  counts_from-new seen (b ∷ bs) v vs e room = elim (Bool-cases (le v b)) [
    | inl below ↦ ground (
      arith,
      counts_from-seen (λ u. seen u || le u b) bs v vs,
      tally-le (λ u. not (seen u) && le u b) vs,
    )
    | inr above ↦ ground (arith, counts_from-new (λ u. seen u || le u b) bs v vs)
  ]

  -- The bucket lines over what `vs` left in the buckets, where the running total is what was seen.
  abbrev pub bucket_lines : Str → List Float → List Float → Str
  bucket_lines name [] vs = bucket_line name (codes "+Inf") (length vs)
  bucket_lines name (b ∷ bs) vs =
      bucket_line name (show b) (tally (λ v. le v b) vs) ++ bucket_lines name bs vs

  abbrev pub IsTransitive : Type 0
  IsTransitive = (a b c : Float) → le a b ≡ true → le b c ≡ true → le a c ≡ true

  -- Everything seen is at most the first bound that is left.
  abbrev Covered : (Float → Bool) → List Float → Type 0
  Covered seen [] = Unit
  Covered seen (b ∷ bs) = (v : Float) → seen v ≡ true → le v b ≡ true

  Covered-next :
      IsTransitive → (b : Float) (bs : List Float) → IsAscending (b ∷ bs) → Covered (λ v. le v b) bs
  Covered-next trans b [] up = tt
  Covered-next trans b (d ∷ bs) up = λ v e. trans v b d e up.0

  IsAscending-rest : (b : Float) (bs : List Float) → IsAscending (b ∷ bs) → IsAscending bs
  IsAscending-rest b [] up = tt
  IsAscending-rest b (d ∷ bs) up = up.1

  widen :
      (seen : Float → Bool) (b : Float)
      → ((v : Float) → seen v ≡ true → le v b ≡ true)
      → ◌≡◌ {A = Float → Bool} (λ v. seen v || le v b) (λ v. le v b)
  widen seen b covers = fun_ext λ v. ground (arith, covers v)

  emit_buckets-counts_from :
      IsTransitive
      → (name : Str) (seen : Float → Bool) (bs vs : List Float) → IsAscending bs
      → Covered seen bs
      → length vs < u64_mod
      → emit_buckets fl name (tally seen vs) bs (counts_from seen bs vs) ≡ bucket_lines name bs vs
  unfolding emit_buckets counts_from
  emit_buckets-counts_from trans name seen [] vs up covered room =
      ap (bucket_line name (codes "+Inf")) (omega (arith, tally-rest seen vs))
  emit_buckets-counts_from trans name seen (b ∷ bs) vs up covered room =
      let wide = widen seen b covered in
      let split = tally-split seen (λ v. le v b) vs ∙ ap (λ p. tally p vs) wide in
      let total : add_u64 (tally seen vs) (tally (λ v. not (seen v) && le v b) vs)
          ≡ tally (λ v. le v b) vs =
        ap u64 split ∙ omega (arith, tally-le (λ v. le v b) vs) in
      rw (total, wide)
        (ap (λ rest. bucket_line name (show b) (tally (λ v. le v b) vs) ++ rest)
          (emit_buckets-counts_from trans name (λ v. le v b) bs vs (IsAscending-rest b bs up)
            (Covered-next trans b bs up) room))

  tally-nothing : (vs : List Float) → tally (λ v. false) vs ≡ 0
  tally-nothing [] = refl
  tally-nothing (v ∷ vs) = omega (arith, tally-nothing vs)

  nothing_seen : (bs : List Float) → Covered (λ v. false) bs
  nothing_seen [] = tt
  nothing_seen (b ∷ bs) = λ v e. cc e

  -- `sum`, from the oldest observation on.
  abbrev pub sum_of : List Float → Float
  sum_of [] = zero_float
  sum_of (v ∷ vs) = plus (sum_of vs) v

  no_counts :
      (seen : Float → Bool) (bs : List Float) → counts_from seen bs [] ≡ replicate (length bs + 1) 0
  unfolding counts_from
  no_counts seen [] = refl
  no_counts seen (b ∷ bs) = rw suc-add (ap (λ cs. 0 ∷ cs) (no_counts (λ v. seen v || le v b) bs))

  -- What a histogram is after its observations.
  abbrev observed : Str → Str → List Float → List Float → Histogram Float
  observed name help buckets vs = record {
    buckets = sort_floats buckets;
    counts = counts_from (λ v. false) (sort_floats buckets) vs;
    sum = sum_of vs;
    count = length vs;
    name = name;
    help = help;
  }

  observe_all-new_histogram :
      (name help : Str) (buckets vs : List Float)
      → length vs < u64_mod
      → observe_all fl vs (new_histogram fl name help buckets) ≡ observed name help buckets vs
  unfolding observe_all new_histogram
  observe_all-new_histogram name help buckets [] room =
      ap (λ cs. record (observed name help buckets []) { counts = cs })
        (sym (no_counts (λ v. false) (sort_floats buckets)))
  observe_all-new_histogram name help buckets (v ∷ vs) room =
      let counted : length vs + 1 < u64_mod = omega arith in
      let added = sym (counts_from-new (λ u. false) (sort_floats buckets) v vs refl counted) in
      let one_more : add_u64 (length vs) 1 ≡ suc (length vs) = omega arith in
      rw (observe_all-new_histogram name help buckets vs (omega arith)) (
        unfold observe in
        λ i. record (observed name help buckets (v ∷ vs)) { counts = added i; count = one_more i })

  -- A scrape of a histogram shows, for each of its buckets in ascending order, how many of all
  -- observations were at most the bucket's bound; then the number of all observations as the +Inf bucket,
  -- their sum in the order in which they were made, and their number again. The sorted bounds ascend, the
  -- order of float64 is transitive, and there are fewer than 2^64 observations.
  pub emit_histogram-observe_all :
      IsTransitive
      → (name help : Str) (buckets vs : List Float) → IsAscending (sort_floats buckets)
      → length vs < u64_mod
      → emit_histogram fl (observe_all fl vs (new_histogram fl name help buckets))
        ≡ bucket_lines name (sort_floats buckets) vs
          ++ ((name ++ (codes "_sum " ++ (show (sum_of vs) ++ codes "\n")))
              ++ (name ++ (codes "_count " ++ (format_uint (length vs) ++ codes "\n"))))
  unfolding emit_histogram
  emit_histogram-observe_all trans name help buckets vs up room =
      let shown =
        emit_buckets-counts_from trans name (λ v. false) (sort_floats buckets) vs up
          (nothing_seen (sort_floats buckets)) room in
      rw (observe_all-new_histogram name help buckets vs room) (
        ap
          (λ t.
            t
            ++ ((name ++ (codes "_sum " ++ (show (sum_of vs) ++ codes "\n")))
                ++ (name ++ (codes "_count " ++ (format_uint (length vs) ++ codes "\n")))))
          (rw (tally-nothing vs) at shown))
