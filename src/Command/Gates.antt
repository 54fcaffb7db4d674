-- ===== src/Command/Gates.antt =====
-- cmd/minirag/eval.go: when runEvaluation fails because of a regression.
use dong_rag.Base.{
  ◌≡◌, refl, sym, ap, subst, ◌∙◌, inl, inr, Bool, false, ◌&&◌, ◌||◌, Option, none, some, List, [],
  ◌∷◌, ◌++◌, arith, ltb, if◌then◌else◌, Option-cases, length, any, lookup, ok, Text, is_empty,
}
use dong_rag.Evaluation.Reports.{Numbers, Report, metric_value, BenchmarkMetric, benchmark_metrics}
use dong_rag.Evaluation.Gate.{
  Regression, BaselineFile, by_mode, is_worse, compare_metrics, compare_reports, compare_baseline,
  validate_baseline,
}
use dong_rag.Command.{update_or_end, with_baseline, finish_evaluation}
use dong_rag.Command.Parts.{EvalFlags, Desk, regressed, ComparisonReport, Ran, load_baseline}

module _ (N : Numbers) (tolerance : N.Float) where
  -- Some of the metrics are worse than they were.
  abbrev pub is_worse_in : Report N.Float → Report N.Float → List BenchmarkMetric → Bool
  is_worse_in r old ms =
      any (λ m. is_worse N tolerance m (metric_value N r m.name) (metric_value N old m.name)) ms

  abbrev pub is_worse_than : Option (Report N.Float) → Report N.Float → Bool
  is_worse_than none r = false
  is_worse_than (some old) r = is_worse_in r old (benchmark_metrics r.pipeline)

  compare_metrics-any :
      (r old : Report N.Float) (ms : List BenchmarkMetric)
      → ltb 0 (length (compare_metrics N tolerance r old ms)) ≡ is_worse_in r old ms
  unfolding compare_metrics
  compare_metrics-any r old [] = refl
  compare_metrics-any r old (m ∷ ms) = ground (arith, compare_metrics-any r old ms)

  some-append :
      (xs ys : List (Regression N.Float))
      → ltb 0 (length (xs ++ ys)) ≡ (ltb 0 (length xs) || ltb 0 (length ys))
  some-append [] ys = refl
  some-append (x ∷ xs) ys = ground arith

  compare_new :
      (previous : List (Text × Report N.Float)) (r : Report N.Float) (rs : List (Report N.Float))
      → lookup r.mode previous ≡ none
      → ltb 0 (length (compare_reports N tolerance previous (r ∷ rs)))
        ≡ ltb 0 (length (compare_reports N tolerance previous rs))
  unfolding compare_reports
  compare_new previous r rs h = ground (arith, h)

  compare_old :
      (previous : List (Text × Report N.Float)) (r : Report N.Float) (rs : List (Report N.Float))
      (old : Report N.Float)
      → lookup r.mode previous ≡ some old
      → compare_reports N tolerance previous (r ∷ rs)
        ≡ compare_metrics N tolerance r old (benchmark_metrics r.pipeline)
          ++ compare_reports N tolerance previous rs
  unfolding compare_reports
  compare_old previous r rs old h = ground (arith, h)

  compare_reports-any :
      (previous : List (Text × Report N.Float)) (rs : List (Report N.Float))
      → ltb 0 (length (compare_reports N tolerance previous rs))
        ≡ any (λ r. is_worse_than (lookup r.mode previous) r) rs
  compare_reports-any previous [] = unfold compare_reports in refl
  compare_reports-any previous (r ∷ rs) = elim (Option-cases (lookup r.mode previous)) [
    | inl new ↦
        compare_new previous r rs new ∙ (ground (arith, new, compare_reports-any previous rs))
    | inr (old, there) ↦
        ap (λ xs. ltb 0 (length xs)) (compare_old previous r rs old there)
        ∙ some-append (compare_metrics N tolerance r old (benchmark_metrics r.pipeline))
            (compare_reports N tolerance previous rs)
        ∙ ground (
          arith,
          there,
          compare_metrics-any r old (benchmark_metrics r.pipeline),
          compare_reports-any previous rs,
        )
  ]

module _ {N : Numbers} (D : Desk N) (f : EvalFlags N.Float) where
  -- Some metric of a report is worse, beyond the tolerance, than in the report of the same mode in
  -- the baseline.
  abbrev pub has_regressed : List (Report N.Float) → BaselineFile N.Float → Bool
  has_regressed reports old =
      any
        (λ r.
          is_worse_than N (if N.lt f.tolerance N.nought then N.nought else f.tolerance)
            (lookup r.mode (by_mode [] old.reports)) r)
        reports

  has_regressed-compare :
      (reports : List (Report N.Float)) (old : BaselineFile N.Float)
      → ltb 0 (length (compare_baseline N reports old.reports f.tolerance))
        ≡ has_regressed reports old
  unfolding compare_baseline
  has_regressed-compare reports old =
      compare_reports-any N (if N.lt f.tolerance N.nought then N.nought else f.tolerance)
        (by_mode [] old.reports) reports

  pub record Gates (reports : List (Report N.Float)) (old : BaselineFile N.Float) (r : Ran N.Float)
      : Type 0 where
    pub error : r.error ≡ (
        if f.fail_on_regression && has_regressed reports old
        then some (regressed (length (compare_baseline N reports old.reports f.tolerance)))
        else none)
    pub shown : ComparisonReport N.Float
    pub printed : r.printed ≡ some shown
    pub regressions : shown.regressions ≡ compare_baseline N reports old.reports f.tolerance
    pub reports_kept : shown.reports ≡ reports
    pub unsaved : r.saved ≡ none

  abbrev shown_for : List (Report N.Float) → BaselineFile N.Float → ComparisonReport N.Float
  shown_for reports old =
      let regressions = compare_baseline N reports old.reports f.tolerance in
      record {
        reports = reports;
        baseline = some record {
          path = f.baseline_path;
          updated = false;
          regression_count = length regressions;
        };
        regressions = regressions;
      }

  abbrev ran_for : List (Report N.Float) → BaselineFile N.Float → Ran N.Float
  ran_for reports old =
      let regressions = compare_baseline N reports old.reports f.tolerance in
      record {
        error =
            if f.fail_on_regression && ltb 0 (length regressions)
            then some (regressed (length regressions))
            else none;
        printed = some (shown_for reports old);
        saved = none;
      }

  finished :
      (reports : List (Report N.Float)) (old : BaselineFile N.Float)
      → is_empty f.baseline_path ≡ false
      → load_baseline D.read_baseline f.baseline_path ≡ ok old
      → validate_baseline old f.dataset_path f.pipeline f.top_k f.candidate_k ≡ none
      → f.update_baseline ≡ false
      → D.encode_fault ≡ none
      → finish_evaluation D f reports ≡ ran_for reports old
  unfolding finish_evaluation with_baseline update_or_end
  finished reports old p l v u o = rw (p, l, v, u, o) (ground arith)

  -- With a baseline that is loaded and fits, and without the flag that updates it, the command
  -- prints the reports with all regressions, writes no baseline, and fails exactly when it was
  -- asked to fail and some metric of a report is worse, beyond the tolerance, than in the
  -- baseline's report of that mode, if the output can be written.
  pub finish_evaluation-Gates :
      (reports : List (Report N.Float)) (old : BaselineFile N.Float)
      → is_empty f.baseline_path ≡ false
      → load_baseline D.read_baseline f.baseline_path ≡ ok old
      → validate_baseline old f.dataset_path f.pipeline f.top_k f.candidate_k ≡ none
      → f.update_baseline ≡ false
      → D.encode_fault ≡ none
      → Gates reports old (finish_evaluation D f reports)
  finish_evaluation-Gates reports old p l v u o =
      subst (Gates reports old) (sym (finished reports old p l v u o)) record {
        error =
            ap
              (λ b.
                if f.fail_on_regression && b
                then some (regressed (length (compare_baseline N reports old.reports f.tolerance)))
                else none)
              (has_regressed-compare reports old);
        shown = shown_for reports old;
        printed = refl;
        regressions = refl;
        reports_kept = refl;
        unsaved = refl;
      }
