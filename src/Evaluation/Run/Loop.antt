-- ===== src/Evaluation/Run/Loop.antt =====
-- internal/evaluation/evaluation.go: the loop of Run over the cases, its report, and retrieve.
use dong_rag.Base.{
  ℕ, ◌+◌, Bool, true, false, Option, none, some, List, [], ◌∷◌, ◌++◌, map, ◌==◌, if◌then◌else◌,
  length, ℤ, pos, ltb_ℤ, GoError, Result, ok, err, and_then, Text, codes,
}
use dong_rag.Retrieval.Rerank.{Reranker, rerank_hits}
use dong_rag.Evaluation.Ranks.{percentile95, first_relevant_rank}
use dong_rag.Retrieval.Hit.{Hit}
use dong_rag.Search.Dispatch.{SearchMode, mode_text, unsupported_mode}
use dong_rag.Evaluation.Reports.{Numbers, CaseResult, Report}
use dong_rag.Evaluation.Run.{
  Case, Bench, searched_mode, is_rerank, is_other, recall_at_k, ndcg_at_k, average, embedding_for,
  search_top_k, no_reranker, found_for,
}

-- The variables that the loop changes.
pub record Running (Float : Type 0) : Type 0 where
  pub failed : ℕ
  pub evaluated : ℕ
  pub results : List (CaseResult Float)
  pub latencies : List ℤ
  pub reciprocal_rank_sum : Float
  pub recall_at_1_sum : Float
  pub recall_at_k_sum : Float
  pub ndcg_at_k_sum : Float

module _ {N : Numbers} (B : Bench N) where
  unfoldable pub new_result : Case → List (Hit N.Float) → Option GoError → CaseResult N.Float
  unfolding first_relevant_rank
  new_result c found error = record {
    id = c.id;
    question = c.question;
    difficulty = c.difficulty;
    query_type = c.query_type;
    source_type = c.source_type;
    top_documents = map (λ h. h.document_name) found;
    first_relevant_rank = pos (first_relevant_rank B.normalize_name found c.relevant_documents);
    recall_at_k = N.nought;
    ndcg_at_k = N.nought;
    latency_ms = B.latency c;
    pipeline_latency_ms = pos 0;
    error = elim error [ none ↦ [] | some e ↦ e.message ];
    answer = [];
    citations = [];
    answer_correctness = N.nought;
    citation_precision = N.nought;
    citation_recall = N.nought;
    faithfulness = N.nought;
    unsupported_claim_rate = N.nought;
    refusal_accuracy = N.nought;
  }

  abbrev pub add_refusal : Case → List (Hit N.Float) → Running N.Float → Running N.Float
  add_refusal c found s = record s {
    results = s.results ++ (new_result c found none ∷ []);
    latencies = s.latencies ++ (B.latency c ∷ []);
  }

  abbrev pub add_reciprocal : ℤ → N.Float → N.Float
  add_reciprocal rank sum =
      if ltb_ℤ (pos 0) rank then N.plus sum (B.over (N.from_int (pos 1)) (N.from_int rank)) else sum

  unfoldable pub count_evaluated : ℤ → Case → List (Hit N.Float) → Running N.Float → Running N.Float
  unfolding new_result recall_at_k ndcg_at_k
  count_evaluated top_k c found s =
      let recall = recall_at_k B found c.relevant_documents top_k in
      let ndcg = ndcg_at_k B found c.relevant_documents top_k in
      let r = new_result c found none in
      record {
        failed = s.failed;
        evaluated = s.evaluated + 1;
        results = s.results ++ (record r { recall_at_k = recall; ndcg_at_k = ndcg } ∷ []);
        latencies = s.latencies ++ (B.latency c ∷ []);
        reciprocal_rank_sum = add_reciprocal r.first_relevant_rank s.reciprocal_rank_sum;
        recall_at_1_sum =
            N.plus s.recall_at_1_sum (recall_at_k B found c.relevant_documents (pos 1));
        recall_at_k_sum = N.plus s.recall_at_k_sum recall;
        ndcg_at_k_sum = N.plus s.ndcg_at_k_sum ndcg;
      }

  abbrev pub after_search :
      ℤ → Case → List (Hit N.Float) × Option GoError → Running N.Float → Running N.Float
  after_search top_k c (found, some e) s = record s {
    failed = s.failed + 1;
    results = s.results ++ (new_result c found (some e) ∷ []);
  }
  after_search top_k c (found, none) s =
      if c.should_refuse then add_refusal c found s else count_evaluated top_k c found s

  unfoldable pub run_cases : SearchMode → ℤ → ℤ → List Case → Running N.Float → Running N.Float
  unfolding found_for count_evaluated new_result
  run_cases mode top_k candidate_k [] s = s
  run_cases mode top_k candidate_k (c ∷ cs) s =
      run_cases mode top_k candidate_k cs
        (after_search top_k c (found_for B mode c.question top_k candidate_k) s)

  abbrev pub nothing_run : Running N.Float
  nothing_run = record {
    failed = 0;
    evaluated = 0;
    results = [];
    latencies = [];
    reciprocal_rank_sum = N.nought;
    recall_at_1_sum = N.nought;
    recall_at_k_sum = N.nought;
    ndcg_at_k_sum = N.nought;
  }

  -- percentile95 always has a value.
  abbrev pub p95 : Option ℤ → ℤ
  p95 none = pos 0
  p95 (some x) = x

  abbrev pub if_evaluated : Running N.Float → N.Float → N.Float
  if_evaluated s x = if s.evaluated == 0 then N.nought else x

  abbrev pub mean : N.Float → Running N.Float → N.Float
  mean sum s = if_evaluated s (B.over sum (N.from_int (pos s.evaluated)))

  unfoldable pub report_of : SearchMode → ℤ → ℤ → List Case → Running N.Float → Report N.Float
  unfolding average percentile95
  report_of mode top_k candidate_k cs s = record {
    mode = mode_text mode;
    top_k = top_k;
    candidate_k = candidate_k;
    total_cases = pos (length cs);
    evaluated_cases = pos s.evaluated;
    failed_cases = pos s.failed;
    answer_evaluated_cases = pos 0;
    answer_failed_cases = pos 0;
    recall_at_1 = mean s.recall_at_1_sum s;
    recall_at_k = mean s.recall_at_k_sum s;
    mrr = mean s.reciprocal_rank_sum s;
    ndcg_at_k = mean s.ndcg_at_k_sum s;
    average_latency_ms = if_evaluated s (average B s.latencies);
    p95_latency_ms = if s.evaluated == 0 then pos 0 else p95 (percentile95 s.latencies);
    average_pipeline_latency_ms = N.nought;
    p95_pipeline_latency_ms = pos 0;
    pipeline = codes "retrieval";
    answer_correctness = N.nought;
    citation_precision = N.nought;
    citation_recall = N.nought;
    faithfulness = N.nought;
    unsupported_claim_rate = N.nought;
    refusal_accuracy = N.nought;
    results = s.results;
  }

  abbrev pub five_or : ℤ → ℤ
  five_or top_k = if ltb_ℤ top_k (pos 1) then pos 5 else top_k

  abbrev pub candidates_for : ℤ → ℤ → ℤ
  candidates_for top_k candidate_k = if ltb_ℤ candidate_k top_k then top_k else candidate_k

  unfoldable pub run : List Case → SearchMode → ℤ → ℤ → Result (Report N.Float)
  unfolding run_cases report_of
  run cs mode top_k candidate_k =
      if is_other mode
      then err (unsupported_mode mode)
      else let k = five_or top_k in
        let n = candidates_for k candidate_k in
        ok (report_of mode k n cs (run_cases mode k n cs nothing_run))

  unfoldable pub retrieve_reranked :
      Bool → Option (Reranker N.Float) → Text → ℤ → List (Hit N.Float) → Result (List (Hit N.Float))
  unfolding rerank_hits
  retrieve_reranked false r question top_k hits = ok hits
  retrieve_reranked true none question top_k hits = err (no_reranker B)
  retrieve_reranked true (some reranker) question top_k hits =
      rerank_hits reranker question hits top_k (pos 2)

  unfoldable pub retrieve : SearchMode → Text → ℤ → ℤ → Result (List (Hit N.Float))
  unfolding embedding_for retrieve_reranked
  retrieve mode question top_k candidate_k = and_then (embedding_for B mode question) (λ embedding.
      and_then
        (B.search_hits question embedding (searched_mode mode)
          (search_top_k B mode top_k candidate_k) candidate_k)
        (retrieve_reranked (is_rerank mode) B.reranker question top_k))
