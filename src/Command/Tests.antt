-- ===== src/Command/Tests.antt =====
-- The evaluation command on a dataset of one case, with a baseline that it updates and one that it
-- compares with.
use dong_rag.Command.Gates.{Gates, finish_evaluation-Gates}
use dong_rag.Base.{
  ℕ, refl, true, false, Option, none, some, [], ◌∷◌, pos, plain_error, ok, err, codes,
}
use dong_rag.Config.{settings}
use dong_rag.Evaluation.Gate.{BaselineFile, compact_reports, validate_baseline}
use dong_rag.Evaluation.Run.Loop.{run}
use dong_rag.Evaluation.Dataset.{load_dataset}
use dong_rag.Evaluation.Rag.Tests.{counting, asks, answering}
use dong_rag.Command.{
  run_mode, run_modes, update_or_end, with_baseline, finish_evaluation, with_dataset,
  run_evaluation,
}
use dong_rag.Command.Saves.{Saves, run_evaluation-Saves}
use dong_rag.Command.Parts.{EvalFlags, Desk, Ran, evaluation_modes, with_mode_name, load_baseline}

abbrev flags : EvalFlags ℕ
flags = record {
  dataset_path = codes "eval.json";
  top_k = pos 5;
  candidate_k = pos 50;
  mode_name = codes "lexical";
  pipeline = codes "retrieval";
  baseline_path = codes "base.json";
  update_baseline = true;
  fail_on_regression = true;
  tolerance = 0;
}

abbrev desk : Desk counting
desk = record {
  config = settings (λ key. []);
  flags = ok flags;
  read_dataset = λ path. ok (asks ∷ []);
  read_baseline = λ path. err (plain_error (codes "no such file"));
  is_missing = λ path. true;
  write_fault = none;
  store_fault = none;
  migrate_fault = none;
  encode_fault = none;
  answering = answering;
  visit = λ m. m;
}

abbrev nothing : Ran ℕ
nothing = record { error = none; printed = none; saved = none }

abbrev ran_or_nothing : Option (Ran ℕ) → Ran ℕ
ran_or_nothing none = nothing
ran_or_nothing (some r) = r

abbrev empty_file : BaselineFile ℕ
empty_file = record {
  version = pos 0;
  dataset = [];
  pipeline = [];
  top_k = pos 0;
  candidate_k = pos 0;
  reports = [];
}

abbrev saved_or_empty : Option (BaselineFile ℕ) → BaselineFile ℕ
saved_or_empty none = empty_file
saved_or_empty (some b) = b

abbrev first_run : Ran ℕ
first_run = ran_or_nothing (run_evaluation desk)

abbrev first_baseline : BaselineFile ℕ
first_baseline = saved_or_empty first_run.saved

run_evaluation-Saves_example : Saves desk first_baseline
unfolding run_evaluation with_dataset load_dataset evaluation_modes run_modes run_mode run
    with_mode_name finish_evaluation with_baseline update_or_end load_baseline
run_evaluation-Saves_example =
    run_evaluation-Saves desk {r = first_run} {b = first_baseline} refl refl

-- A baseline that stands, and the flags that compare with it.
abbrev standing : BaselineFile ℕ
standing = record empty_file {
  dataset = codes "eval.json";
  pipeline = codes "retrieval";
  top_k = pos 5;
  candidate_k = pos 50;
  reports = first_baseline.reports;
}

abbrev comparing : EvalFlags ℕ
comparing = record flags { update_baseline = false }

abbrev comparing_desk : Desk counting
comparing_desk = record desk { flags = ok comparing; read_baseline = λ path. ok standing }

finish_evaluation-Gates_example :
    Gates comparing_desk comparing standing.reports standing
      (finish_evaluation comparing_desk comparing standing.reports)
unfolding run_evaluation with_dataset load_dataset evaluation_modes run_modes run_mode run
    with_mode_name finish_evaluation with_baseline update_or_end load_baseline compact_reports
    validate_baseline
finish_evaluation-Gates_example =
    finish_evaluation-Gates comparing_desk comparing standing.reports standing refl refl refl refl
      refl
