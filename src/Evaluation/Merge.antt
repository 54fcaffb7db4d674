-- ===== src/Evaluation/Merge.antt =====
-- internal/evaluation/evaluation.go: the update of a baseline, metric by metric.
use dong_rag.Evaluation.Gate.{improves, merge_metric, merge_metrics}
use dong_rag.Base.{
  ◌≡◌, refl, ap, ◌∙◌, inl, inr, Bool, true, false, List, [], ◌∷◌, arith, ltb, ◌==◌, if◌then◌else◌,
  Bool-cases, All, any, ℤ, Text,
}
use dong_rag.Evaluation.Reports.{Numbers, Report, metric_value, BenchmarkMetric, benchmark_metrics}
use dong_rag.Evaluation.Slots.{kind, are_apart, benchmark_metrics-are_apart, value-set}

All-outside :
    {A : Type 0} {P Q : A → Type 0}
    → (p : A → Bool) (xs : List A) → ((x : A) → p x ≡ false → P x → Q x)
    → any p xs ≡ false
    → All P xs
    → All Q xs
All-outside p [] f n a = tt
All-outside p (x ∷ xs) f n (h, a) =
    (f x (ground (arith, n)) h, All-outside p xs f (ground (arith, n)) a)

module _ (N : Numbers) where
  -- What the merge takes for a metric.
  abbrev pub better : BenchmarkMetric → N.Float → N.Float → N.Float
  better m current best = if improves N m current best then current else best

  merge_metric_self :
      (m : BenchmarkMetric) (r b : Report N.Float)
      → ((n : ℤ) → N.to_int (N.from_int n) ≡ n)
      → ltb (kind m) 16 ≡ true
      → metric_value N (merge_metric N r b m) m.name
        ≡ better m (metric_value N r m.name) (metric_value N b m.name)
  unfolding merge_metric
  merge_metric_self m r b h l =
      elim (Bool-cases (improves N m (metric_value N r m.name) (metric_value N b m.name))) [
        | inl y ↦ rw y (value-set N m m r b h l ∙ ground arith)
        | inr n ↦ rw n refl
      ]

  merge_metric-other :
      (m k : BenchmarkMetric) (r b : Report N.Float)
      → ((n : ℤ) → N.to_int (N.from_int n) ≡ n)
      → ltb (kind m) 16 ≡ true
      → (kind m == kind k) ≡ false
      → metric_value N (merge_metric N r b m) k.name ≡ metric_value N b k.name
  unfolding merge_metric
  merge_metric-other m k r b h l d =
      elim (Bool-cases (improves N m (metric_value N r m.name) (metric_value N b m.name))) [
        | inl y ↦ rw y (value-set N m k r b h l ∙ ground (arith, d))
        | inr n ↦ rw n refl
      ]

  merge_metrics-other :
      (k : BenchmarkMetric) (r b : Report N.Float) (ms : List BenchmarkMetric)
      → ((n : ℤ) → N.to_int (N.from_int n) ≡ n)
      → are_apart ms ≡ true
      → any (λ m. kind k == kind m) ms ≡ false
      → metric_value N (merge_metrics N r b ms) k.name ≡ metric_value N b k.name
  unfolding merge_metrics are_apart
  merge_metrics-other k r b [] h a n = refl
  merge_metrics-other k r b (m ∷ ms) h a n =
      merge_metrics-other k r (merge_metric N r b m) ms h (ground (arith, a)) (ground (arith, n))
      ∙ merge_metric-other m k r b h (ground (arith, a)) (ground (arith, n))

  merge_metrics-All :
      (r b : Report N.Float) (ms : List BenchmarkMetric)
      → ((n : ℤ) → N.to_int (N.from_int n) ≡ n)
      → are_apart ms ≡ true
      → All
          (λ m.
            metric_value N (merge_metrics N r b ms) m.name
            ≡ better m (metric_value N r m.name) (metric_value N b m.name))
          ms
  unfolding merge_metrics are_apart
  merge_metrics-All r b [] h a = tt
  merge_metrics-All r b (m ∷ ms) h a = (
    merge_metrics-other m r (merge_metric N r b m) ms h (ground (arith, a)) (ground (arith, a))
        ∙ merge_metric_self m r b h (ground (arith, a)),
    All-outside (λ k. kind m == kind k) ms
        (λ k d e.
          e
          ∙ ap (better k (metric_value N r k.name))
              (merge_metric-other m k r b h (ground (arith, a)) d))
        (ground (arith, a)) (merge_metrics-All r (merge_metric N r b m) ms h (ground (arith, a))),
  )

  -- The merge of a report into the best one of its mode has for every metric of the pipeline the
  -- value of the report where that improves on the best one's, and otherwise the best one's. The
  -- conversion of counts to floating point and back is taken to lose nothing.
  pub merge_metrics_takes_better :
      (r b : Report N.Float) (pipeline : Text)
      → ((n : ℤ) → N.to_int (N.from_int n) ≡ n)
      → All
          (λ m.
            metric_value N (merge_metrics N r b (benchmark_metrics pipeline)) m.name
            ≡ better m (metric_value N r m.name) (metric_value N b m.name))
          (benchmark_metrics pipeline)
  merge_metrics_takes_better r b pipeline h =
      merge_metrics-All r b (benchmark_metrics pipeline) h (benchmark_metrics-are_apart pipeline)
