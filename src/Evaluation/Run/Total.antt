-- ===== src/Evaluation/Run/Total.antt =====
-- internal/evaluation/evaluation.go: what a run of the benchmark counts, and that retrieve searches
-- as the run does.
use dong_rag.Retrieval.Rerank.{Reranker, rerank_hits}
use dong_rag.Base.{
  ◌+◌, ◌≡◌, refl, sym, ap, subst, ◌∙◌, inl, inr, Bool, true, false, ◌&&◌, not, Option, none, some,
  List, [], ◌∷◌, ◌++◌, map, append_assoc, append-nil, arith, if◌then◌else◌, Bool-cases, length,
  length-append, count_where, map-snoc, ℤ, pos, GoError, Result, ok, err, and_then, Text,
}
use dong_rag.Retrieval.Hit.{Hit}
use dong_rag.Search.Dispatch.{SearchMode}
use dong_rag.Evaluation.Reports.{Numbers, Report}
use dong_rag.Evaluation.Run.{
  Case, Bench, searched_mode, is_rerank, is_other, embedding_for, search_top_k, hits_or_error,
  rerank_found, search_found, found_with, found_for,
}
use dong_rag.Evaluation.Run.Loop.{
  Running, new_result, add_refusal, count_evaluated, after_search, run_cases, nothing_run,
  report_of, five_or, candidates_for, run, retrieve_reranked, retrieve,
}

abbrev pub is_some : {A : Type 0} → Option A → Bool
is_some none = false
is_some (some a) = true

module _ {N : Numbers} (B : Bench N) where
  abbrev pub fails : SearchMode → ℤ → ℤ → Case → Bool
  fails mode k n c = is_some (found_for B mode c.question k n).1

  abbrev pub counts : SearchMode → ℤ → ℤ → Case → Bool
  counts mode k n c = not (fails mode k n c) && not c.should_refuse

  -- What the loop has counted after the cases, from where it stood.
  record Counted (mode : SearchMode) (k n : ℤ) (cs : List Case) (s r : Running N.Float)
      : Type 0 where
    ids : map (λ x. x.id) r.results ≡ map (λ x. x.id) s.results ++ map (λ c. c.id) cs
    failures : r.failed ≡ s.failed + count_where (fails mode k n) cs
    evaluations : r.evaluated ≡ s.evaluated + count_where (counts mode k n) cs
    times : length r.latencies + r.failed ≡ length s.latencies + s.failed + length cs

  record Stepped (c : Case) (failed refused : Bool) (s r : Running N.Float) : Type 0 where
    id_added : map (λ x. x.id) r.results ≡ map (λ x. x.id) s.results ++ (c.id ∷ [])
    failure : r.failed ≡ s.failed + (if failed then 1 else 0)
    evaluation : r.evaluated ≡ s.evaluated + (if not failed && not refused then 1 else 0)
    time : length r.latencies + r.failed ≡ length s.latencies + s.failed + 1

  add_refusal-Stepped :
      (k : ℤ) (c : Case) (found : List (Hit N.Float)) (s : Running N.Float)
      → Stepped c false true s (add_refusal B c found s)
  unfolding new_result
  add_refusal-Stepped k c found s = record {
    id_added = map-snoc (λ x. x.id) s.results _;
    failure = omega arith;
    evaluation = omega arith;
    time = omega (arith, length-append s.latencies (B.latency c ∷ []));
  }

  count_evaluated-Stepped :
      (k : ℤ) (c : Case) (found : List (Hit N.Float)) (s : Running N.Float)
      → Stepped c false false s (count_evaluated B k c found s)
  unfolding count_evaluated new_result
  count_evaluated-Stepped k c found s = record {
    id_added = map-snoc (λ x. x.id) s.results _;
    failure = omega arith;
    evaluation = omega arith;
    time = omega (arith, length-append s.latencies (B.latency c ∷ []));
  }

  after_search-Stepped :
      (k : ℤ) (c : Case) (f : List (Hit N.Float) × Option GoError) (s : Running N.Float)
      → Stepped c (is_some f.1) c.should_refuse s (after_search B k c f s)
  unfolding new_result count_evaluated
  after_search-Stepped k c (found, some e) s = record {
    id_added = map-snoc (λ x. x.id) s.results _;
    failure = refl;
    evaluation = omega arith;
    time = omega arith;
  }
  after_search-Stepped k c (found, none) s = elim (Bool-cases c.should_refuse) [
    | inl y ↦
        subst
          (λ b.
            Stepped c false b s
              (if b then add_refusal B c found s else count_evaluated B k c found s))
          (sym y) (add_refusal-Stepped k c found s)
    | inr d ↦
        subst
          (λ b.
            Stepped c false b s
              (if b then add_refusal B c found s else count_evaluated B k c found s))
          (sym d) (count_evaluated-Stepped k c found s)
  ]

  run_cases-Counted :
      (mode : SearchMode) (k n : ℤ) (cs : List Case) (s : Running N.Float)
      → Counted mode k n cs s (run_cases B mode k n cs s)
  unfolding run_cases count_where
  run_cases-Counted mode k n [] s = record {
    ids = sym (append-nil _);
    failures = omega arith;
    evaluations = omega arith;
    times = omega arith;
  }
  run_cases-Counted mode k n (c ∷ cs) s =
      let f = found_for B mode c.question k n in
      let one = after_search-Stepped k c f s in
      let rest = run_cases-Counted mode k n cs (after_search B k c f s) in
      record {
        ids =
            rest.ids
            ∙ rw (one.id_added)
                (append_assoc (map (λ x. x.id) s.results) (c.id ∷ []) (map (λ x. x.id) cs));
        failures = omega (arith, rest.failures, one.failure);
        evaluations = omega (arith, rest.evaluations, one.evaluation);
        times = omega (arith, rest.times, one.time);
      }

  abbrev pub IsTotalled : List Case → SearchMode → ℤ → ℤ → Report N.Float → Type 0
  IsTotalled cs mode k n r =
      (map (λ x. x.id) r.results ≡ map (λ c. c.id) cs)
      × (r.total_cases ≡ pos (length cs))
      × (r.failed_cases ≡ pos (count_where (fails mode k n) cs))
      × (r.evaluated_cases ≡ pos (count_where (counts mode k n) cs))

  -- A run in a mode that is known gives a report with one result for each case, in the order of the
  -- cases; its failed cases are those whose embedding, search or reranking fails, and its evaluated
  -- cases the others that need no refusal. The limits are those that the run settles on: 5 hits
  -- where it is asked for fewer than one, and as many candidates as hits at least.
  pub run-IsTotalled :
      (cs : List Case) (mode : SearchMode) (top_k candidate_k : ℤ)
      → is_other mode ≡ false
      → (r : Report N.Float) × (run B cs mode top_k candidate_k ≡ ok r)
        × IsTotalled cs mode (five_or B top_k) (candidates_for B (five_or B top_k) candidate_k) r
  unfolding run report_of
  run-IsTotalled cs mode top_k candidate_k h =
      let k = five_or B top_k in
      let n = candidates_for B k candidate_k in
      let c = run_cases-Counted mode k n cs (nothing_run B) in
      (
        report_of B mode k n cs (run_cases B mode k n cs (nothing_run B)),
        rw h refl,
        (c.ids, refl, ap pos (c.failures ∙ omega arith), ap pos (c.evaluations ∙ omega arith)),
      )

  abbrev pub answer_of : List (Hit N.Float) × Option GoError → Result (List (Hit N.Float))
  answer_of (found, none) = ok found
  answer_of (found, some e) = err e

  reranks_alike :
      (b : Bool) (r : Option (Reranker N.Float)) (question : Text) (k : ℤ)
      (hits : List (Hit N.Float))
      → retrieve_reranked B b r question k hits ≡ answer_of (rerank_found B b r question k hits)
  unfolding retrieve_reranked rerank_found
  reranks_alike false r question k hits = refl
  reranks_alike true none question k hits = refl
  reranks_alike true (some reranker) question k hits =
      alike (rerank_hits reranker question hits k (pos 2))
    where
      alike : (r : Result (List (Hit N.Float))) → r ≡ answer_of (hits_or_error B r)
      alike (ok xs) = refl
      alike (err e) = refl

  searches_alike :
      (mode : SearchMode) (question : Text) (k : ℤ) (r : Result (List (Hit N.Float)))
      → and_then r (retrieve_reranked B (is_rerank mode) B.reranker question k)
        ≡ answer_of (search_found B mode question k r)
  unfolding search_found
  searches_alike mode question k (err e) = refl
  searches_alike mode question k (ok hits) =
      reranks_alike (is_rerank mode) B.reranker question k hits

  -- retrieve, which a RAG run asks for the hits of a case, answers as the search of Run itself
  -- does: with the same hits where that succeeds, and with its error where it fails.
  pub retrieve-found_for :
      (mode : SearchMode) (question : Text) (k n : ℤ)
      → retrieve B mode question k n ≡ answer_of (found_for B mode question k n)
  unfolding retrieve found_for
  retrieve-found_for mode question k n = embeds_alike (embedding_for B mode question)
    where
      embeds_alike :
          (r : Result (List N.Float))
          → and_then r (λ e.
            and_then
              (B.search_hits question e (searched_mode mode) (search_top_k B mode k n) n)
              (retrieve_reranked B (is_rerank mode) B.reranker question k))
            ≡ answer_of (found_with B mode question k n r)
      embeds_alike (err e) = refl
      embeds_alike (ok e) =
          searches_alike mode question k
            (B.search_hits question e (searched_mode mode) (search_top_k B mode k n) n)
