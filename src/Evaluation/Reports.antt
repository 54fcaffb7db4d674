-- ===== src/Evaluation/Reports.antt =====
-- internal/evaluation/evaluation.go: Report and its metrics (Report, benchmarkMetric,
-- benchmarkMetrics, metricValue, setMetricValue). The two `switch` statements on a metric's name
-- have the same cases; `switch` is their choice of a case, and the clauses on `Metric` their cases.
use dong_rag.Base.{
  Bool, true, false, Option, none, some, List, [], ◌∷◌, ◌++◌, if◌then◌else◌, ℤ, lookup, Text, codes,
  text_eq,
}

-- Go's float64, without NaN.
pub record Numbers : Type 1 where
  pub Float : Type 0
  pub lt : Float → Float → Bool
  pub nought : Float
  pub one : Float
  pub plus : Float → Float → Float
  pub minus : Float → Float → Float
  pub times : Float → Float → Float
  -- `float64(n)` and `int64(x)`
  pub from_int : ℤ → Float
  pub to_int : Float → ℤ

pub record CaseResult (Float : Type 0) : Type 0 where
  pub id : Text
  pub question : Text
  pub difficulty : Text
  pub query_type : Text
  pub source_type : Text
  pub top_documents : List Text
  pub first_relevant_rank : ℤ
  pub recall_at_k : Float
  pub ndcg_at_k : Float
  pub latency_ms : ℤ
  pub pipeline_latency_ms : ℤ
  pub error : Text
  pub answer : Text
  pub citations : List Text
  pub answer_correctness : Float
  pub citation_precision : Float
  pub citation_recall : Float
  pub faithfulness : Float
  pub unsupported_claim_rate : Float
  pub refusal_accuracy : Float

pub record Report (Float : Type 0) : Type 0 where
  pub mode : Text
  pub top_k : ℤ
  pub candidate_k : ℤ
  pub total_cases : ℤ
  pub evaluated_cases : ℤ
  pub failed_cases : ℤ
  pub answer_evaluated_cases : ℤ
  pub answer_failed_cases : ℤ
  pub recall_at_1 : Float
  pub recall_at_k : Float
  pub mrr : Float
  pub ndcg_at_k : Float
  pub average_latency_ms : Float
  pub p95_latency_ms : ℤ
  pub average_pipeline_latency_ms : Float
  pub p95_pipeline_latency_ms : ℤ
  pub pipeline : Text
  pub answer_correctness : Float
  pub citation_precision : Float
  pub citation_recall : Float
  pub faithfulness : Float
  pub unsupported_claim_rate : Float
  pub refusal_accuracy : Float
  pub results : List (CaseResult Float)

pub data Metric : Type 0 where
  recall_at_1_metric : Metric
  recall_at_k_metric : Metric
  mrr_metric : Metric
  ndcg_at_k_metric : Metric
  average_latency_ms_metric : Metric
  p95_latency_ms_metric : Metric
  failed_cases_metric : Metric
  answer_correctness_metric : Metric
  citation_precision_metric : Metric
  citation_recall_metric : Metric
  faithfulness_metric : Metric
  unsupported_claim_rate_metric : Metric
  refusal_accuracy_metric : Metric
  average_pipeline_latency_ms_metric : Metric
  p95_pipeline_latency_ms_metric : Metric
  answer_failed_cases_metric : Metric

abbrev named : List (Text × Metric)
named =
    (codes "recall_at_1", recall_at_1_metric)
    ∷ (codes "recall_at_k", recall_at_k_metric)
    ∷ (codes "mrr", mrr_metric)
    ∷ (codes "ndcg_at_k", ndcg_at_k_metric)
    ∷ (codes "average_latency_ms", average_latency_ms_metric)
    ∷ (codes "p95_latency_ms", p95_latency_ms_metric)
    ∷ (codes "failed_cases", failed_cases_metric)
    ∷ (codes "answer_correctness", answer_correctness_metric)
    ∷ (codes "citation_precision", citation_precision_metric)
    ∷ (codes "citation_recall", citation_recall_metric)
    ∷ (codes "faithfulness", faithfulness_metric)
    ∷ (codes "unsupported_claim_rate", unsupported_claim_rate_metric)
    ∷ (codes "refusal_accuracy", refusal_accuracy_metric)
    ∷ (codes "average_pipeline_latency_ms", average_pipeline_latency_ms_metric)
    ∷ (codes "p95_pipeline_latency_ms", p95_pipeline_latency_ms_metric)
    ∷ (codes "answer_failed_cases", answer_failed_cases_metric)
    ∷ []

-- The case of a name, and nothing for the default.
unfoldable pub switch : Text → Option Metric
unfolding lookup
switch name = lookup name named

module _ (N : Numbers) where
  abbrev pub get : Metric → Report N.Float → N.Float
  get recall_at_1_metric r = r.recall_at_1
  get recall_at_k_metric r = r.recall_at_k
  get mrr_metric r = r.mrr
  get ndcg_at_k_metric r = r.ndcg_at_k
  get average_latency_ms_metric r = r.average_latency_ms
  get p95_latency_ms_metric r = N.from_int r.p95_latency_ms
  get failed_cases_metric r = N.from_int r.failed_cases
  get answer_correctness_metric r = r.answer_correctness
  get citation_precision_metric r = r.citation_precision
  get citation_recall_metric r = r.citation_recall
  get faithfulness_metric r = r.faithfulness
  get unsupported_claim_rate_metric r = r.unsupported_claim_rate
  get refusal_accuracy_metric r = r.refusal_accuracy
  get average_pipeline_latency_ms_metric r = r.average_pipeline_latency_ms
  get p95_pipeline_latency_ms_metric r = N.from_int r.p95_pipeline_latency_ms
  get answer_failed_cases_metric r = N.from_int r.answer_failed_cases

  abbrev pub set : Metric → N.Float → Report N.Float → Report N.Float
  set recall_at_1_metric v r = record r { recall_at_1 = v }
  set recall_at_k_metric v r = record r { recall_at_k = v }
  set mrr_metric v r = record r { mrr = v }
  set ndcg_at_k_metric v r = record r { ndcg_at_k = v }
  set average_latency_ms_metric v r = record r { average_latency_ms = v }
  set p95_latency_ms_metric v r = record r { p95_latency_ms = N.to_int v }
  set failed_cases_metric v r = record r { failed_cases = N.to_int v }
  set answer_correctness_metric v r = record r { answer_correctness = v }
  set citation_precision_metric v r = record r { citation_precision = v }
  set citation_recall_metric v r = record r { citation_recall = v }
  set faithfulness_metric v r = record r { faithfulness = v }
  set unsupported_claim_rate_metric v r = record r { unsupported_claim_rate = v }
  set refusal_accuracy_metric v r = record r { refusal_accuracy = v }
  set average_pipeline_latency_ms_metric v r = record r { average_pipeline_latency_ms = v }
  set p95_pipeline_latency_ms_metric v r = record r { p95_pipeline_latency_ms = N.to_int v }
  set answer_failed_cases_metric v r = record r { answer_failed_cases = N.to_int v }

  -- The value of the case, 0 by default, and its assignment, by default none.
  abbrev pub value_of : Report N.Float → Option Metric → N.Float
  value_of r none = N.nought
  value_of r (some m) = get m r

  abbrev pub assign : Report N.Float → Option Metric → N.Float → Report N.Float
  assign r none v = r
  assign r (some m) v = set m v r

  unfoldable pub metric_value : Report N.Float → Text → N.Float
  unfolding switch
  metric_value r name = value_of r (switch name)

  unfoldable pub set_metric_value : Report N.Float → Text → N.Float → Report N.Float
  unfolding switch
  set_metric_value r name v = assign r (switch name) v

pub record BenchmarkMetric : Type 0 where
  pub name : Text
  pub lower_is_better : Bool
  pub zero_is_valid : Bool

-- A metric where higher is better, one where lower is better, and one where 0 counts besides.
abbrev higher : Text → BenchmarkMetric
higher n = record { name = n; lower_is_better = false; zero_is_valid = false }

abbrev lower : Text → BenchmarkMetric
lower n = record { name = n; lower_is_better = true; zero_is_valid = false }

abbrev counted : Text → BenchmarkMetric
counted n = record { name = n; lower_is_better = true; zero_is_valid = true }

abbrev retrieval_metrics : List BenchmarkMetric
retrieval_metrics =
    higher (codes "recall_at_1")
    ∷ higher (codes "recall_at_k")
    ∷ higher (codes "mrr")
    ∷ higher (codes "ndcg_at_k")
    ∷ lower (codes "average_latency_ms")
    ∷ lower (codes "p95_latency_ms")
    ∷ counted (codes "failed_cases")
    ∷ []

abbrev answer_metrics : List BenchmarkMetric
answer_metrics =
    higher (codes "answer_correctness")
    ∷ higher (codes "citation_precision")
    ∷ higher (codes "citation_recall")
    ∷ higher (codes "faithfulness")
    ∷ counted (codes "unsupported_claim_rate")
    ∷ higher (codes "refusal_accuracy")
    ∷ lower (codes "average_pipeline_latency_ms")
    ∷ lower (codes "p95_pipeline_latency_ms")
    ∷ counted (codes "answer_failed_cases")
    ∷ []

unfoldable pub benchmark_metrics : Text → List BenchmarkMetric
unfolding text_eq
benchmark_metrics pipeline =
    if text_eq pipeline (codes "rag")
    then retrieval_metrics ++ answer_metrics
    else retrieval_metrics
