-- ===== src/Command.antt =====
-- cmd/minirag/eval.go: runEvaluation. The flags that the package flag has parsed, the files, the
-- store and the models are the parameter `Desk`, and what the command leaves is `Ran`.
pub mod Parts
pub mod Saves
pub mod Gates
mod Tests
use dong_rag.Base.{
  Bool, true, false, ◌&&◌, ◌||◌, not, Option, none, some, List, [], ◌∷◌, ltb, if◌then◌else◌, length,
  pos, GoError, Result, ok, err, and_then, codes, text_eq, is_empty,
}
use dong_rag.Config.{validate_chat}
use dong_rag.Search.Dispatch.{SearchMode}
use dong_rag.Evaluation.Reports.{Numbers, Report}
use dong_rag.Evaluation.Gate.{
  Regression, BaselineFile, compare_baseline, merge_baseline, compact_reports, Mismatch,
  validate_baseline,
}
use dong_rag.Evaluation.Run.{Case, Bench}
use dong_rag.Evaluation.Run.Loop.{run}
use dong_rag.Evaluation.Rag.{Answering, run_rag}
use dong_rag.Evaluation.Dataset.{load_dataset, validate_rag_dataset}
use dong_rag.Evaluation.Judge.{evaluate}
use dong_rag.Command.Parts.{
  EvalFlags, Desk, EvalError, failed_by, bad_pipeline, bad_mode, bad_baseline, regressed,
  BaselineInfo, ComparisonReport, Ran, evaluation_modes, with_mode_name, load_baseline,
}

module _ {N : Numbers} (D : Desk N) (f : EvalFlags N.Float) where
  -- The parts that the command puts together: the judge by rules, and a reranker if one is enabled.
  abbrev pub eval_bench : Bench N
  eval_bench = record D.answering.bench {
    reranker = if D.config.rerank_enabled then D.answering.bench.reranker else none;
  }

  abbrev pub eval_answering : Answering N
  eval_answering = record D.answering {
    bench = eval_bench;
    judge = some (evaluate eval_bench D.answering.to_lower);
  }

  -- `none` is a panic.
  unfoldable pub run_mode : List Case → SearchMode → Option (Result (Report N.Float))
  unfolding run run_rag text_eq
  run_mode cs mode =
      if text_eq f.pipeline (codes "rag")
      then run_rag eval_answering cs mode f.top_k f.candidate_k
      else some (run eval_bench cs mode f.top_k f.candidate_k)

  abbrev pub add_report :
      SearchMode
      → Option (Result (Report N.Float))
      → Option (Result (List (Report N.Float)))
      → Option (Result (List (Report N.Float)))
  add_report mode none rest = none
  add_report mode (some (err e)) rest = some (err e)
  add_report mode (some (ok r)) none = none
  add_report mode (some (ok r)) (some (err e)) = some (err e)
  add_report mode (some (ok r)) (some (ok rs)) = some (ok (with_mode_name mode r ∷ rs))

  unfoldable pub run_modes : List Case → List SearchMode → Option (Result (List (Report N.Float)))
  run_modes cs [] = some (ok [])
  run_modes cs (mode ∷ modes) = add_report mode (run_mode cs mode) (run_modes cs modes)

  abbrev pub ends_in_error : EvalError → Ran N.Float
  ends_in_error e = record { error = some e; printed = none; saved = none }

  -- The comparison is printed, and the command ends with `e`.
  abbrev pub encoded :
      Option GoError
      → Option EvalError
      → ComparisonReport N.Float
      → Option (BaselineFile N.Float)
      → Ran N.Float
  encoded (some fault) e c saved = record {
    error = some (failed_by fault);
    printed = none;
    saved = saved;
  }
  encoded none e c saved = record { error = e; printed = some c; saved = saved }

  abbrev pub ends_with : Bool → ComparisonReport N.Float → Option EvalError
  ends_with failure c = if failure then some (regressed (length c.regressions)) else none

  abbrev pub current_baseline : List (Report N.Float) → BaselineFile N.Float
  current_baseline reports = record {
    version = pos 1;
    dataset = f.dataset_path;
    pipeline = f.pipeline;
    top_k = f.top_k;
    candidate_k = f.candidate_k;
    reports = compact_reports reports;
  }

  abbrev pub merged_with :
      Option (BaselineFile N.Float) → BaselineFile N.Float → BaselineFile N.Float
  merged_with none current = current
  merged_with (some existing) current = merge_baseline N D.visit existing current

  abbrev pub mark_updated : Option BaselineInfo → BaselineInfo
  mark_updated none = record { path = f.baseline_path; updated = true; regression_count = 0 }
  mark_updated (some i) = record i { updated = true }

  abbrev pub save_then_end :
      Option GoError → BaselineFile N.Float → Bool → ComparisonReport N.Float → Ran N.Float
  save_then_end (some fault) b failure c = ends_in_error (failed_by fault)
  save_then_end none b failure c =
      let c' = record c { baseline = some (mark_updated c.baseline) } in
      encoded D.encode_fault (ends_with failure c') c' (some b)

  -- From `if *updateBaseline` on; `existing` is the baseline that was loaded.
  unfoldable pub update_or_end :
      Option (BaselineFile N.Float) → Bool → ComparisonReport N.Float → Ran N.Float
  update_or_end existing failure c =
      if f.update_baseline
      then save_then_end D.write_fault (merged_with existing (current_baseline c.reports)) failure c
      else encoded D.encode_fault (ends_with failure c) c none

  abbrev pub is_failure : List (Regression N.Float) → Bool
  is_failure regressions =
      f.fail_on_regression && (ltb 0 (length regressions) && not f.update_baseline)

  abbrev pub compared :
      BaselineFile N.Float → List (Regression N.Float) → ComparisonReport N.Float → Ran N.Float
  compared b regressions c = update_or_end (some b) (is_failure regressions) (record c {
    regressions = regressions;
    baseline =
        some
          record { path = f.baseline_path; updated = false; regression_count = length regressions };
  })

  abbrev pub unless_mismatch :
      Option Mismatch → BaselineFile N.Float → ComparisonReport N.Float → Ran N.Float
  unless_mismatch (some m) b c = ends_in_error (bad_baseline m)
  unless_mismatch none b c = compared b (compare_baseline N c.reports b.reports f.tolerance) c

  unfoldable pub with_baseline :
      Result (BaselineFile N.Float) → ComparisonReport N.Float → Ran N.Float
  with_baseline (err e) c =
      if not f.update_baseline || not (D.is_missing f.baseline_path)
      then ends_in_error (failed_by e)
      else update_or_end none false c
  with_baseline (ok b) c =
      unless_mismatch (validate_baseline b f.dataset_path f.pipeline f.top_k f.candidate_k) b c

  -- What follows the loop over the modes.
  unfoldable pub finish_evaluation : List (Report N.Float) → Ran N.Float
  finish_evaluation reports =
      let c : ComparisonReport N.Float = record {
        reports = reports;
        baseline = none;
        regressions = [];
      } in
      if is_empty f.baseline_path
      then encoded D.encode_fault none c none
      else with_baseline (load_baseline D.read_baseline f.baseline_path) c

  abbrev pub or_fails : Option (Result (List (Report N.Float))) → Option (Ran N.Float)
  or_fails none = none
  or_fails (some (err e)) = some (ends_in_error (failed_by e))
  or_fails (some (ok reports)) = some (finish_evaluation reports)

  abbrev pub with_modes : List Case → Option (List SearchMode) → Option (Ran N.Float)
  with_modes cs none = some (ends_in_error (bad_mode f.mode_name))
  with_modes cs (some modes) = or_fails (run_modes cs modes)

  abbrev pub unless_fault : Option GoError → Option (Ran N.Float) → Option (Ran N.Float)
  unless_fault (some e) rest = some (ends_in_error (failed_by e))
  unless_fault none rest = rest

  abbrev pub is_rag : Bool
  is_rag = text_eq f.pipeline (codes "rag")

  unfoldable pub with_dataset : Result (List Case) → Option (Ran N.Float)
  with_dataset (err e) = some (ends_in_error (failed_by e))
  with_dataset (ok cs) =
      if not (text_eq f.pipeline (codes "retrieval")) && not is_rag
      then some (ends_in_error (bad_pipeline f.pipeline))
      else unless_fault (if is_rag then validate_chat D.config else none) (
          unless_fault (if is_rag then validate_rag_dataset cs else none) (
            unless_fault D.store_fault
              (unless_fault D.migrate_fault (with_modes cs (evaluation_modes f.mode_name)))))

abbrev pub with_flags : {N : Numbers} → Desk N → Result (EvalFlags N.Float) → Option (Ran N.Float)
with_flags D (err e) = some record { error = some (failed_by e); printed = none; saved = none }
with_flags D (ok f) = with_dataset D f (and_then (D.read_dataset f.dataset_path) load_dataset)

unfoldable pub run_evaluation : {N : Numbers} → Desk N → Option (Ran N.Float)
run_evaluation D = with_flags D D.flags
