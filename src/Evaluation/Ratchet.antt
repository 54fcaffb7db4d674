-- ===== src/Evaluation/Ratchet.antt =====
-- internal/evaluation/evaluation.go: what an update of the baseline does to the later comparisons.
use dong_rag.Base.{◌≡◌, Bool, true, false, ◌||◌, not, arith, All, All-map, ℤ, Text}
use dong_rag.Evaluation.Reports.{Numbers, Report, metric_value, BenchmarkMetric, benchmark_metrics}
use dong_rag.Evaluation.Gate.{is_worse, merge_metrics}
use dong_rag.Evaluation.Merge.{better, merge_metrics_takes_better}

-- What the comparison relies on of floating point, for a tolerance from 0 to 1.
pub record IsOrdered (N : Numbers) (tolerance : N.Float) : Type 0 where
  pub count_back : (n : ℤ) → N.to_int (N.from_int n) ≡ n
  pub lt_trans : (a b c : N.Float) → N.lt a b ≡ true → N.lt b c ≡ true → N.lt a c ≡ true
  pub lt_split : (a b c : N.Float) → N.lt a b ≡ false → N.lt a c ≡ true → N.lt b c ≡ true
  pub floor_mono :
      (a b x : N.Float)
      → N.lt a b ≡ true
      → N.lt x (N.times a (N.minus N.one tolerance)) ≡ true
      → N.lt x (N.times b (N.minus N.one tolerance)) ≡ true
  pub ceiling_mono :
      (a b x : N.Float)
      → N.lt a b ≡ true
      → N.lt (N.times b (N.plus N.one tolerance)) x ≡ true
      → N.lt (N.times a (N.plus N.one tolerance)) x ≡ true

-- 0 is what a latency is that was not measured.
abbrev pub is_measured : (N : Numbers) → BenchmarkMetric → N.Float → Bool
is_measured N m x = m.zero_is_valid || not m.lower_is_better || N.lt N.nought x

module _ (N : Numbers) (t : N.Float) (o : IsOrdered N t) where
  better_tightens :
      (m : BenchmarkMetric) (x current best : N.Float)
      → is_measured N m current ≡ true
      → is_worse N t m x best ≡ true
      → is_worse N t m x (better N m current best) ≡ true
  better_tightens m x current best p w = ground (
    arith,
    o.lt_trans N.nought best current,
    o.floor_mono best current x,
    o.ceiling_mono current best x,
  )

  better_disarms :
      (m : BenchmarkMetric) (x current best : N.Float)
      → is_measured N m current ≡ false
      → is_worse N t m x (better N m current best) ≡ false
  better_disarms m x current best p = ground (arith, o.lt_split N.nought current best)

  abbrev merged : Report N.Float → Report N.Float → Text → BenchmarkMetric → N.Float
  merged r b pipeline m = metric_value N (merge_metrics N r b (benchmark_metrics pipeline)) m.name

  -- With floating point as `IsOrdered` says, a merge never loosens the comparison: whatever value a
  -- metric of the pipeline had to have in order not to be a regression against the best report, it
  -- has to have against the merged one, provided the merged report measured the metric (a latency
  -- of 0 is one that was not measured).
  pub merge_tightens :
      (r best now : Report N.Float) (pipeline : Text)
      → All
          (λ m.
            is_measured N m (metric_value N r m.name) ≡ true
            → is_worse N t m (metric_value N now m.name) (metric_value N best m.name) ≡ true
            → is_worse N t m
                (metric_value N now m.name)
                (metric_value N (merge_metrics N r best (benchmark_metrics pipeline)) m.name)
              ≡ true)
          (benchmark_metrics pipeline)
  merge_tightens r best now pipeline =
      All-map
        (λ m.
          merged r best pipeline m
          ≡ better N m (metric_value N r m.name) (metric_value N best m.name))
        (λ m.
          is_measured N m (metric_value N r m.name) ≡ true
          → is_worse N t m (metric_value N now m.name) (metric_value N best m.name) ≡ true
          → is_worse N t m (metric_value N now m.name) (merged r best pipeline m) ≡ true)
        (benchmark_metrics pipeline)
        (λ m e p w. rw e (
          better_tightens m (metric_value N now m.name) (metric_value N r m.name)
            (metric_value N best m.name) p w))
        (merge_metrics_takes_better N r best pipeline o.count_back)

  -- With floating point as `IsOrdered` says, a merge with a report that did not measure a latency
  -- ends the comparison of that latency: after it no value is a regression.
  pub merge_disarms :
      (r best now : Report N.Float) (pipeline : Text)
      → All
          (λ m.
            is_measured N m (metric_value N r m.name) ≡ false
            → is_worse N t m
                (metric_value N now m.name)
                (metric_value N (merge_metrics N r best (benchmark_metrics pipeline)) m.name)
              ≡ false)
          (benchmark_metrics pipeline)
  merge_disarms r best now pipeline =
      All-map
        (λ m.
          merged r best pipeline m
          ≡ better N m (metric_value N r m.name) (metric_value N best m.name))
        (λ m.
          is_measured N m (metric_value N r m.name) ≡ false
          → is_worse N t m (metric_value N now m.name) (merged r best pipeline m) ≡ false)
        (benchmark_metrics pipeline)
        (λ m e p. rw e (
          better_disarms m (metric_value N now m.name) (metric_value N r m.name)
            (metric_value N best m.name) p))
        (merge_metrics_takes_better N r best pipeline o.count_back)
