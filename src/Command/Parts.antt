-- ===== src/Command/Parts.antt =====
-- cmd/minirag/eval.go: what runEvaluation is given, what it leaves, and evaluationModes;
-- LoadBaseline of internal/evaluation/evaluation.go.
use dong_rag.Base.{
  ℕ, Bool, true, false, Option, none, some, List, [], ◌∷◌, if◌then◌else◌, ℤ, GoError, plain_error,
  Result, ok, err, and_then, Text, codes, text_eq,
}
use dong_rag.Config.{Config}
use dong_rag.Search.Dispatch.{
  SearchMode, vector_mode, lexical_mode, weighted_mode, hybrid_mode, rerank_mode,
}
use dong_rag.Evaluation.Reports.{Numbers, Report}
use dong_rag.Evaluation.Gate.{Regression, BaselineFile, Mismatch}
use dong_rag.Evaluation.Run.{Case}
use dong_rag.Evaluation.Rag.{Answering}

pub record EvalFlags (Float : Type 0) : Type 0 where
  pub dataset_path : Text
  pub top_k : ℤ
  pub candidate_k : ℤ
  pub mode_name : Text
  pub pipeline : Text
  pub baseline_path : Text
  pub update_baseline : Bool
  pub fail_on_regression : Bool
  pub tolerance : Float

pub record Desk (N : Numbers) : Type 0 where
  pub config : Config
  pub flags : Result (EvalFlags N.Float)
  -- The decoded files, or the errors of reading and decoding them.
  pub read_dataset : Text → Result (List Case)
  pub read_baseline : Text → Result (BaselineFile N.Float)
  -- `os.IsNotExist` of the error of `os.Stat`
  pub is_missing : Text → Bool
  -- The error of SaveBaseline.
  pub write_fault : Option GoError
  pub store_fault : Option GoError
  pub migrate_fault : Option GoError
  pub encode_fault : Option GoError
  pub answering : Answering N
  -- The order in which Go visits a map.
  pub visit : List (Text × Report N.Float) → List (Text × Report N.Float)

pub data EvalError : Type 0 where
  failed_by : GoError → EvalError
  bad_pipeline : Text → EvalError
  bad_mode : Text → EvalError
  bad_baseline : Mismatch → EvalError
  regressed : ℕ → EvalError

pub record BaselineInfo : Type 0 where
  pub path : Text
  pub updated : Bool
  pub regression_count : ℕ

pub record ComparisonReport (Float : Type 0) : Type 0 where
  pub reports : List (Report Float)
  pub baseline : Option BaselineInfo
  pub regressions : List (Regression Float)

-- What the command leaves: its error, what it has printed, and the baseline that it has written.
pub record Ran (Float : Type 0) : Type 0 where
  pub error : Option EvalError
  pub printed : Option (ComparisonReport Float)
  pub saved : Option (BaselineFile Float)

unfoldable pub evaluation_modes : Text → Option (List SearchMode)
unfolding text_eq
evaluation_modes value =
    if text_eq value (codes "all")
    then some (vector_mode ∷ lexical_mode ∷ hybrid_mode ∷ rerank_mode ∷ [])
    else if text_eq value (codes "vector")
    then some (vector_mode ∷ [])
    else if text_eq value (codes "lexical")
    then some (lexical_mode ∷ [])
    else if text_eq value (codes "weighted")
    then some (weighted_mode ∷ [])
    else if text_eq value (codes "hybrid")
    then some (hybrid_mode ∷ [])
    else if text_eq value (codes "rerank")
    then some (rerank_mode ∷ [])
    else none

-- The names of the reports of two modes.
unfoldable pub with_mode_name : {Float : Type 0} → SearchMode → Report Float → Report Float
with_mode_name hybrid_mode r = record r { mode = codes "hybrid_rrf" }
with_mode_name rerank_mode r = record r { mode = codes "hybrid_rerank" }
with_mode_name _ r = r

abbrev pub no_reports : {Float : Type 0} → List (Report Float) → Bool
no_reports [] = true
no_reports (r ∷ rs) = false

abbrev pub checked_baseline : {Float : Type 0} → BaselineFile Float → Result (BaselineFile Float)
checked_baseline b =
    if no_reports b.reports then err (plain_error (codes "baseline has no reports")) else ok b

-- LoadBaseline
unfoldable pub load_baseline :
    {Float : Type 0} → (Text → Result (BaselineFile Float)) → Text → Result (BaselineFile Float)
load_baseline read path = and_then (read path) checked_baseline
