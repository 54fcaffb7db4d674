-- ===== src/Evaluation/Gate.antt =====
-- internal/evaluation/evaluation.go: CompareBaseline, MergeBaseline, CompactReports and
-- ValidateBaseline. Maps by mode are association lists; the order in which Go visits a map, which
-- is not specified, is the parameter `visit`.
use dong_rag.Base.{
  Bool, false, ◌&&◌, ◌||◌, not, Option, none, some, List, [], ◌∷◌, ◌++◌, map, if◌then◌else◌, keep,
  ℤ, pos, eq_ℤ, lookup, insert, Text, text_eq,
}
use dong_rag.Evaluation.Reports.{
  Numbers, Report, metric_value, set_metric_value, BenchmarkMetric, benchmark_metrics,
}

pub record Regression (Float : Type 0) : Type 0 where
  pub mode : Text
  pub metric : Text
  pub baseline : Float
  pub current : Float
  pub tolerance : Float

pub record BaselineFile (Float : Type 0) : Type 0 where
  pub version : ℤ
  pub dataset : Text
  pub pipeline : Text
  pub top_k : ℤ
  pub candidate_k : ℤ
  pub reports : List (Report Float)

-- `previous[report.Mode] = report` for every report.
unfoldable pub by_mode :
    {Float : Type 0} → List (Text × Report Float) → List (Report Float) → List (Text × Report Float)
unfolding insert
by_mode m [] = m
by_mode m (r ∷ rs) = by_mode (insert r.mode r m) rs

module _ (N : Numbers) where
  -- `x <= 0`
  abbrev pub not_positive : N.Float → Bool
  not_positive x = not (N.lt N.nought x)

  -- Where the gate stands for a value of the baseline.
  abbrev pub is_worse : N.Float → BenchmarkMetric → N.Float → N.Float → Bool
  is_worse tolerance m now before =
      if not_positive before && not m.zero_is_valid
      then false
      else if m.lower_is_better
      then N.lt (N.times before (N.plus N.one tolerance)) now
      else N.lt now (N.times before (N.minus N.one tolerance))

  unfoldable pub compare_metrics :
      N.Float → Report N.Float → Report N.Float → List BenchmarkMetric → List (Regression N.Float)
  unfolding metric_value
  compare_metrics tolerance report old [] = []
  compare_metrics tolerance report old (m ∷ ms) =
      let more = compare_metrics tolerance report old ms in
      let now = metric_value N report m.name in
      let before = metric_value N old m.name in
      if is_worse tolerance m now before
      then record {
        mode = report.mode;
        metric = m.name;
        baseline = before;
        current = now;
        tolerance = tolerance;
      }
        ∷ more
      else more

  unfoldable pub compare_reports :
      N.Float → List (Text × Report N.Float) → List (Report N.Float) → List (Regression N.Float)
  unfolding compare_metrics lookup benchmark_metrics
  compare_reports tolerance previous [] = []
  compare_reports tolerance previous (r ∷ rs) = elim (lookup r.mode previous) [
    | none ↦ compare_reports tolerance previous rs
    | some old ↦
        compare_metrics tolerance r old (benchmark_metrics r.pipeline)
        ++ compare_reports tolerance previous rs
  ]

  unfoldable pub compare_baseline :
      List (Report N.Float) → List (Report N.Float) → N.Float → List (Regression N.Float)
  unfolding compare_reports by_mode
  compare_baseline current baseline tolerance =
      compare_reports (if N.lt tolerance N.nought then N.nought else tolerance)
        (by_mode [] baseline) current

  -- Whether the merge takes the current value of a metric over the best one.
  abbrev pub improves : BenchmarkMetric → N.Float → N.Float → Bool
  improves m current best =
      if m.lower_is_better
      then (not m.zero_is_valid && not_positive best) || N.lt current best
      else N.lt best current

  unfoldable pub merge_metric : Report N.Float → Report N.Float → BenchmarkMetric → Report N.Float
  unfolding metric_value set_metric_value
  merge_metric report best m =
      let value = metric_value N report m.name in
      if improves m value (metric_value N best m.name)
      then set_metric_value N best m.name value
      else best

  unfoldable pub merge_metrics :
      Report N.Float → Report N.Float → List BenchmarkMetric → Report N.Float
  unfolding merge_metric
  merge_metrics report best [] = best
  merge_metrics report best (m ∷ ms) = merge_metrics report (merge_metric report best m) ms

  unfoldable pub merge_modes :
      List (Text × Report N.Float) → List (Report N.Float) → List (Text × Report N.Float)
  unfolding merge_metrics lookup insert benchmark_metrics
  merge_modes modes [] = modes
  merge_modes modes (r ∷ rs) =
      merge_modes
        (insert r.mode
          (elim (lookup r.mode modes) [
            | none ↦ r
            | some best ↦ merge_metrics r best (benchmark_metrics r.pipeline)
          ])
          modes)
        rs

  -- The reports of the current modes, in their order, and the modes that are left.
  unfoldable pub collect :
      List (Text × Report N.Float)
      → List (Report N.Float)
      → List (Report N.Float) × List (Text × Report N.Float)
  unfolding lookup keep
  collect modes [] = ([], modes)
  collect modes (r ∷ rs) =
      let (found, left) = collect (keep (λ p. not (text_eq p.0 r.mode)) modes) rs in
      elim (lookup r.mode modes) [ none ↦ (found, left) | some best ↦ (best ∷ found, left) ]

  abbrev or_else : Text → Text → Text
  or_else [] b = b
  or_else (c ∷ a) b = c ∷ a

  unfoldable pub merge_baseline :
      (List (Text × Report N.Float) → List (Text × Report N.Float))
      → BaselineFile N.Float
      → BaselineFile N.Float
      → BaselineFile N.Float
  unfolding merge_modes by_mode collect
  merge_baseline visit existing current =
      let (found, left) =
        collect (merge_modes (by_mode [] existing.reports) current.reports) current.reports in
      record {
        version = pos 1;
        dataset = or_else existing.dataset current.dataset;
        pipeline = or_else existing.pipeline current.pipeline;
        top_k = current.top_k;
        candidate_k = current.candidate_k;
        reports = found ++ map (λ p. p.1) (visit left);
      }

unfoldable pub compact_reports : {Float : Type 0} → List (Report Float) → List (Report Float)
compact_reports [] = []
compact_reports (r ∷ rs) = record r { results = [] } ∷ compact_reports rs

-- The three errors, with what the message tells.
pub data Mismatch : Type 0 where
  dataset_mismatch : Text → Text → Mismatch
  pipeline_mismatch : Text → Text → Mismatch
  settings_mismatch : ℤ → ℤ → ℤ → ℤ → Mismatch

unfoldable pub validate_baseline :
    {Float : Type 0} → BaselineFile Float → Text → Text → ℤ → ℤ → Option Mismatch
unfolding text_eq
validate_baseline b dataset pipeline top_k candidate_k =
    if not (text_eq b.dataset dataset)
    then some (dataset_mismatch b.dataset dataset)
    else if not (text_eq b.pipeline pipeline)
    then some (pipeline_mismatch b.pipeline pipeline)
    else if not (eq_ℤ b.top_k top_k) || not (eq_ℤ b.candidate_k candidate_k)
    then some (settings_mismatch b.top_k b.candidate_k top_k candidate_k)
    else none
