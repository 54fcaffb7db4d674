-- ===== src/Evaluation/Slots.antt =====
-- internal/evaluation/evaluation.go: metricValue and setMetricValue read and write the sixteen
-- metrics of a report, each under its name.
use dong_rag.Base.{
  ℕ, zero, suc, ◌≡◌, refl, ap, ◌∙◌, inl, inr, Bool, true, ◌&&◌, not, Option, none, some, List, [],
  ◌∷◌, arith, ltb, ◌==◌, if◌then◌else◌, Bool-cases, length, any, ℤ, Text, codes, text_eq,
}
use dong_rag.Evaluation.Reports.{
  Numbers, Report, Metric, recall_at_1_metric, recall_at_k_metric, mrr_metric, ndcg_at_k_metric,
  average_latency_ms_metric, p95_latency_ms_metric, failed_cases_metric, answer_correctness_metric,
  citation_precision_metric, citation_recall_metric, faithfulness_metric,
  unsupported_claim_rate_metric, refusal_accuracy_metric, average_pipeline_latency_ms_metric,
  p95_pipeline_latency_ms_metric, answer_failed_cases_metric, switch, get, set, value_of, assign,
  metric_value, set_metric_value, BenchmarkMetric, benchmark_metrics,
}

-- The place of a metric among the metrics of a report.
abbrev place : Metric → ℕ
place recall_at_1_metric = 0
place recall_at_k_metric = 1
place mrr_metric = 2
place ndcg_at_k_metric = 3
place average_latency_ms_metric = 4
place p95_latency_ms_metric = 5
place failed_cases_metric = 6
place answer_correctness_metric = 7
place citation_precision_metric = 8
place citation_recall_metric = 9
place faithfulness_metric = 10
place unsupported_claim_rate_metric = 11
place refusal_accuracy_metric = 12
place average_pipeline_latency_ms_metric = 13
place p95_pipeline_latency_ms_metric = 14
place answer_failed_cases_metric = 15

-- The place of a name, past the end for a name of no metric.
abbrev place_of : Option Metric → ℕ
place_of none = 16
place_of (some f) = place f

unfoldable pub kind : BenchmarkMetric → ℕ
unfolding switch
kind m = place_of (switch m.name)

-- Every name is a metric's, and no two are the same one's.
unfoldable pub are_apart : List BenchmarkMetric → Bool
unfolding kind
are_apart [] = true
are_apart (m ∷ ms) = ltb (kind m) 16 && not (any (λ k. kind m == kind k) ms) && are_apart ms

pub benchmark_metrics-are_apart : (pipeline : Text) → are_apart (benchmark_metrics pipeline) ≡ true
unfolding benchmark_metrics are_apart
benchmark_metrics-are_apart pipeline = elim (Bool-cases (text_eq pipeline (codes "rag"))) [
  | inl y ↦ rw y refl
  | inr n ↦ rw n refl
]

abbrev replace : {A : Type 0} → ℕ → A → List A → List A
replace i y [] = []
replace zero y (x ∷ xs) = y ∷ xs
replace (suc i) y (x ∷ xs) = x ∷ replace i y xs

abbrev nth : {A : Type 0} → A → List A → ℕ → A
nth a [] i = a
nth a (x ∷ xs) zero = x
nth a (x ∷ xs) (suc i) = nth a xs i

module _ (N : Numbers) where
  unfoldable values : Report N.Float → List N.Float
  values r =
      get N recall_at_1_metric r
      ∷ get N recall_at_k_metric r
      ∷ get N mrr_metric r
      ∷ get N ndcg_at_k_metric r
      ∷ get N average_latency_ms_metric r
      ∷ get N p95_latency_ms_metric r
      ∷ get N failed_cases_metric r
      ∷ get N answer_correctness_metric r
      ∷ get N citation_precision_metric r
      ∷ get N citation_recall_metric r
      ∷ get N faithfulness_metric r
      ∷ get N unsupported_claim_rate_metric r
      ∷ get N refusal_accuracy_metric r
      ∷ get N average_pipeline_latency_ms_metric r
      ∷ get N p95_pipeline_latency_ms_metric r
      ∷ get N answer_failed_cases_metric r
      ∷ []

  get-nth : (f : Metric) (r : Report N.Float) → get N f r ≡ nth N.nought (values r) (place f)
  unfolding values
  get-nth recall_at_1_metric r = refl
  get-nth recall_at_k_metric r = refl
  get-nth mrr_metric r = refl
  get-nth ndcg_at_k_metric r = refl
  get-nth average_latency_ms_metric r = refl
  get-nth p95_latency_ms_metric r = refl
  get-nth failed_cases_metric r = refl
  get-nth answer_correctness_metric r = refl
  get-nth citation_precision_metric r = refl
  get-nth citation_recall_metric r = refl
  get-nth faithfulness_metric r = refl
  get-nth unsupported_claim_rate_metric r = refl
  get-nth refusal_accuracy_metric r = refl
  get-nth average_pipeline_latency_ms_metric r = refl
  get-nth p95_pipeline_latency_ms_metric r = refl
  get-nth answer_failed_cases_metric r = refl

  set-replace :
      (f : Metric) (r b : Report N.Float)
      → ((n : ℤ) → N.to_int (N.from_int n) ≡ n)
      → values (set N f (get N f r) b) ≡ replace (place f) (get N f r) (values b)
  unfolding values
  set-replace recall_at_1_metric r b h = refl
  set-replace recall_at_k_metric r b h = refl
  set-replace mrr_metric r b h = refl
  set-replace ndcg_at_k_metric r b h = refl
  set-replace average_latency_ms_metric r b h = refl
  set-replace p95_latency_ms_metric r b h = rw (h r.p95_latency_ms) refl
  set-replace failed_cases_metric r b h = rw (h r.failed_cases) refl
  set-replace answer_correctness_metric r b h = refl
  set-replace citation_precision_metric r b h = refl
  set-replace citation_recall_metric r b h = refl
  set-replace faithfulness_metric r b h = refl
  set-replace unsupported_claim_rate_metric r b h = refl
  set-replace refusal_accuracy_metric r b h = refl
  set-replace average_pipeline_latency_ms_metric r b h = refl
  set-replace p95_pipeline_latency_ms_metric r b h = rw (h r.p95_pipeline_latency_ms) refl
  set-replace answer_failed_cases_metric r b h = rw (h r.answer_failed_cases) refl

  value_of-nth :
      (r : Report N.Float) (o : Option Metric)
      → value_of N r o ≡ nth N.nought (values r) (place_of o)
  unfolding values
  value_of-nth r none = refl
  value_of-nth r (some f) = get-nth f r

  assign-replace :
      (r b : Report N.Float) (o : Option Metric)
      → ((n : ℤ) → N.to_int (N.from_int n) ≡ n)
      → values (assign N b o (value_of N r o)) ≡ replace (place_of o) (value_of N r o) (values b)
  unfolding values
  assign-replace r b none h = refl
  assign-replace r b (some f) h = set-replace f r b h

  value-nth :
      (r : Report N.Float) (m : BenchmarkMetric)
      → metric_value N r m.name ≡ nth N.nought (values r) (kind m)
  unfolding metric_value kind
  value-nth r m = value_of-nth r (switch m.name)

  values-set :
      (m : BenchmarkMetric) (r b : Report N.Float)
      → ((n : ℤ) → N.to_int (N.from_int n) ≡ n)
      → values (set_metric_value N b m.name (metric_value N r m.name))
        ≡ replace (kind m) (metric_value N r m.name) (values b)
  unfolding set_metric_value metric_value kind
  values-set m r b h = assign-replace r b (switch m.name) h

  nth-replace :
      (i j : ℕ) (x a : N.Float) (xs : List N.Float)
      → nth a (replace i x xs) j ≡ (if (i == j) && ltb i (length xs) then x else nth a xs j)
  nth-replace i j x a [] = ground arith
  nth-replace zero zero x a (y ∷ xs) = ground arith
  nth-replace zero (suc j) x a (y ∷ xs) = ground arith
  nth-replace (suc i) zero x a (y ∷ xs) = ground arith
  nth-replace (suc i) (suc j) x a (y ∷ xs) = nth-replace i j x a xs ∙ ground arith

  length-values : (b : Report N.Float) → length (values b) ≡ 16
  unfolding values
  length-values b = refl

  -- The value at one metric, after another or the same one was set.
  pub value-set :
      (m k : BenchmarkMetric) (r b : Report N.Float)
      → ((n : ℤ) → N.to_int (N.from_int n) ≡ n)
      → ltb (kind m) 16 ≡ true
      → metric_value N (set_metric_value N b m.name (metric_value N r m.name)) k.name
        ≡ (if kind m == kind k then metric_value N r m.name else metric_value N b k.name)
  value-set m k r b h l =
      value-nth (set_metric_value N b m.name (metric_value N r m.name)) k
      ∙ ap (λ vs. nth N.nought vs (kind k)) (values-set m r b h)
      ∙ nth-replace (kind m) (kind k) (metric_value N r m.name) N.nought (values b)
      ∙ ground (arith, value-nth b k, length-values b, l)
