-- ===== src/Evaluation/Rag.antt =====
-- internal/evaluation/evaluation.go: RunRAG. The chat model, the judge and the measured times of
-- the pipeline are the parameter `Answering`.
use dong_rag.Base.{
  ℕ, ◌+◌, ◌≡◌, true, false, not, Option, none, some, List, [], ◌∷◌, ◌++◌, map, ◌==◌, if◌then◌else◌,
  ℤ, pos, GoError, plain_error, Result, ok, err, and_then, Text, codes, is_empty,
}
use dong_rag.Retrieval.Hit.{Floats, Hit}
use dong_rag.Retrieval.Context.{prepare_generation_context}
use dong_rag.Retrieval.Prompts.{generation_prompts}
use dong_rag.Search.Dispatch.{SearchMode}
use dong_rag.Evaluation.Reports.{Numbers, CaseResult, Report}
use dong_rag.Evaluation.Ranks.{percentile95}
use dong_rag.Evaluation.Run.{Case, Bench, average}
use dong_rag.Evaluation.Run.Loop.{p95, run, retrieve}
pub mod Cases
pub mod Tests

pub record AnswerScores (Float : Type 0) : Type 0 where
  pub answer_correctness : Float
  pub citation_precision : Float
  pub citation_recall : Float
  pub faithfulness : Float
  pub unsupported_claim_rate : Float
  pub refusal_accuracy : Float

-- The order of the floating point numbers is one.
pub record IsOrder (N : Numbers) : Type 0 where
  pub lt_asym : (a b : N.Float) → N.lt a b ≡ true → N.lt b a ≡ false
  pub not-lt_trans : (a b c : N.Float) → N.lt a b ≡ false → N.lt b c ≡ false → N.lt a c ≡ false

pub record Answering (N : Numbers) : Type 0 where
  pub bench : Bench N
  pub order : IsOrder N
  pub to_lower : Text → Text
  pub chatger : Option (Text → Text → Result Text)
  pub judge : Option (Case → Text → List (Hit N.Float) → AnswerScores N.Float)
  pub pipeline_latency : Case → ℤ

-- What the loop changes: the results up to here, and the counters and sums.
pub record Answers (Float : Type 0) : Type 0 where
  pub answer_failed : ℕ
  pub count : ℕ
  pub finished : List (CaseResult Float)
  pub pipeline_latencies : List ℤ
  pub sums : AnswerScores Float

module _ {N : Numbers} (A : Answering N) where
  abbrev pub floats : Floats
  floats = record {
    Float = N.Float;
    lt = N.lt;
    nought = N.nought;
    reciprocal = λ n. A.bench.over N.one (N.from_int (pos n));
    plus = N.plus;
    lt_asym = A.order.lt_asym;
    not-lt_trans = A.order.not-lt_trans;
  }

  abbrev pub add_scores : AnswerScores N.Float → AnswerScores N.Float → AnswerScores N.Float
  add_scores s t = record {
    answer_correctness = N.plus s.answer_correctness t.answer_correctness;
    citation_precision = N.plus s.citation_precision t.citation_precision;
    citation_recall = N.plus s.citation_recall t.citation_recall;
    faithfulness = N.plus s.faithfulness t.faithfulness;
    unsupported_claim_rate = N.plus s.unsupported_claim_rate t.unsupported_claim_rate;
    refusal_accuracy = N.plus s.refusal_accuracy t.refusal_accuracy;
  }

  abbrev pub add_failure : CaseResult N.Float → Answers N.Float → Answers N.Float
  add_failure r s = record s {
    answer_failed = s.answer_failed + 1;
    finished = s.finished ++ (r ∷ []);
  }

  unfoldable pub add_answer :
      Case
      → CaseResult N.Float
      → Text
      → List (Hit N.Float)
      → AnswerScores N.Float
      → Answers N.Float
      → Answers N.Float
  add_answer c r answer hits scores s = record {
    answer_failed = s.answer_failed;
    count = s.count + 1;
    finished =
        s.finished
        ++ (record r {
          pipeline_latency_ms = A.pipeline_latency c;
          answer = answer;
          answer_correctness = scores.answer_correctness;
          citation_precision = scores.citation_precision;
          citation_recall = scores.citation_recall;
          faithfulness = scores.faithfulness;
          unsupported_claim_rate = scores.unsupported_claim_rate;
          refusal_accuracy = scores.refusal_accuracy;
          citations = r.citations ++ map (λ h. h.document_name) hits;
        }
            ∷ []);
    pipeline_latencies = s.pipeline_latencies ++ (A.pipeline_latency c ∷ []);
    sums = add_scores s.sums scores;
  }

  -- What the chat model answers to the hits, and the hits of its context.
  unfoldable pub answer_from :
      (Text → Text → Result Text) → Case → List (Hit N.Float) → Result (Text × List (Hit N.Float))
  unfolding prepare_generation_context generation_prompts
  answer_from complete c hits =
      let (kept, context) = prepare_generation_context floats A.to_lower hits (pos 6000) (pos 2) in
      let (system_prompt, prompt) = generation_prompts c.question context in
      and_then (complete system_prompt prompt) (λ answer. ok (answer, kept))

  unfoldable pub scored :
      (Case → Text → List (Hit N.Float) → AnswerScores N.Float)
      → Case
      → CaseResult N.Float
      → Result (Text × List (Hit N.Float))
      → Answers N.Float
      → Answers N.Float
  unfolding add_answer
  scored evaluate c r (err e) s = add_failure (record r { error = e.message }) s
  scored evaluate c r (ok (answer, hits)) s = add_answer c r answer hits (evaluate c answer hits) s

  unfoldable pub answer_case :
      (Text → Text → Result Text)
      → (Case → Text → List (Hit N.Float) → AnswerScores N.Float)
      → SearchMode
      → ℤ
      → ℤ
      → Case
      → CaseResult N.Float
      → Answers N.Float
      → Answers N.Float
  unfolding retrieve answer_from scored
  answer_case complete evaluate mode top_k candidate_k c r s =
      if not (is_empty r.error)
      then add_failure r s
      else scored evaluate c r
          (and_then (retrieve A.bench mode c.question top_k candidate_k) (answer_from complete c)) s

  -- `report.Results[i]`: `none` is an index out of range, where Go panics. Results behind the last
  -- case stay as they are.
  unfoldable pub answer_cases :
      (Text → Text → Result Text)
      → (Case → Text → List (Hit N.Float) → AnswerScores N.Float)
      → SearchMode
      → ℤ
      → ℤ
      → List Case
      → List (CaseResult N.Float)
      → Answers N.Float
      → Option (Answers N.Float)
  unfolding answer_case
  answer_cases complete evaluate mode top_k candidate_k [] rs s =
      some (record s { finished = s.finished ++ rs })
  answer_cases complete evaluate mode top_k candidate_k (c ∷ cs) [] s = none
  answer_cases complete evaluate mode top_k candidate_k (c ∷ cs) (r ∷ rs) s =
      answer_cases complete evaluate mode top_k candidate_k cs rs
        (answer_case complete evaluate mode top_k candidate_k c r s)

  abbrev pub no_scores : AnswerScores N.Float
  no_scores = record {
    answer_correctness = N.nought;
    citation_precision = N.nought;
    citation_recall = N.nought;
    faithfulness = N.nought;
    unsupported_claim_rate = N.nought;
    refusal_accuracy = N.nought;
  }

  abbrev pub no_answers : Answers N.Float
  no_answers = record {
    answer_failed = 0;
    count = 0;
    finished = [];
    pipeline_latencies = [];
    sums = no_scores;
  }

  abbrev pub score_mean : ℕ → N.Float → N.Float → N.Float
  score_mean n before sum = if n == 0 then before else A.bench.over sum (N.from_int (pos n))

  unfoldable pub rag_report : Report N.Float → Answers N.Float → Report N.Float
  unfolding average percentile95
  rag_report p s = record p {
    pipeline = codes "rag";
    results = s.finished;
    answer_evaluated_cases = pos s.count;
    answer_failed_cases = pos s.answer_failed;
    answer_correctness = score_mean s.count p.answer_correctness s.sums.answer_correctness;
    citation_precision = score_mean s.count p.citation_precision s.sums.citation_precision;
    citation_recall = score_mean s.count p.citation_recall s.sums.citation_recall;
    faithfulness = score_mean s.count p.faithfulness s.sums.faithfulness;
    unsupported_claim_rate =
        score_mean s.count p.unsupported_claim_rate s.sums.unsupported_claim_rate;
    refusal_accuracy = score_mean s.count p.refusal_accuracy s.sums.refusal_accuracy;
    average_pipeline_latency_ms = average A.bench s.pipeline_latencies;
    p95_pipeline_latency_ms = p95 A.bench (percentile95 s.pipeline_latencies);
  }

  abbrev pub rag_over : Report N.Float → Option (Answers N.Float) → Option (Result (Report N.Float))
  rag_over p none = none
  rag_over p (some s) = some (ok (rag_report p s))

  abbrev pub rag_with :
      (Text → Text → Result Text)
      → (Case → Text → List (Hit N.Float) → AnswerScores N.Float)
      → List Case
      → SearchMode
      → ℤ
      → ℤ
      → Result (Report N.Float)
      → Option (Result (Report N.Float))
  rag_with complete evaluate cs mode top_k candidate_k (err e) = some (err e)
  rag_with complete evaluate cs mode top_k candidate_k (ok p) =
      rag_over p (answer_cases complete evaluate mode top_k candidate_k cs p.results no_answers)

  abbrev pub missing : GoError
  missing = plain_error (codes "chatger and judge are required for rag evaluation")

  abbrev pub rag_for :
      Option (Text → Text → Result Text)
      → Option (Case → Text → List (Hit N.Float) → AnswerScores N.Float)
      → List Case
      → SearchMode
      → ℤ
      → ℤ
      → Option (Result (Report N.Float))
  rag_for none judge cs mode top_k candidate_k = some (err missing)
  rag_for (some complete) none cs mode top_k candidate_k = some (err missing)
  rag_for (some complete) (some evaluate) cs mode top_k candidate_k =
      rag_with complete evaluate cs mode top_k candidate_k (run A.bench cs mode top_k candidate_k)

  unfoldable pub run_rag : List Case → SearchMode → ℤ → ℤ → Option (Result (Report N.Float))
  unfolding run answer_cases rag_report
  run_rag cs mode top_k candidate_k = rag_for A.chatger A.judge cs mode top_k candidate_k
