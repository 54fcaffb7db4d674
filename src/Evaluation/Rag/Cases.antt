-- ===== src/Evaluation/Rag/Cases.antt =====
-- internal/evaluation/evaluation.go: RunRAG has a result for each of its cases.
use dong_rag.Base.{
  ℕ, ◌+◌, ◌≡◌, refl, sym, ap, ◌∙◌, true, false, not, some, List, [], ◌∷◌, ◌++◌, map, append_assoc,
  append-nil, arith, if◌then◌else◌, length, length-map, map-snoc, ℤ, pos, Result, ok, err, and_then,
  Text, is_empty,
}
use dong_rag.Retrieval.Hit.{Hit}
use dong_rag.Search.Dispatch.{SearchMode}
use dong_rag.Evaluation.Reports.{Numbers, CaseResult, Report}
use dong_rag.Evaluation.Run.Loop.{retrieve}
use dong_rag.Evaluation.Run.Total.{run-IsTotalled}
use dong_rag.Evaluation.Rag.{
  AnswerScores, Answering, Answers, add_failure, add_answer, answer_from, scored, answer_case,
  answer_cases, no_answers, rag_report, rag_over, rag_with, rag_for, run_rag,
}
use dong_rag.Evaluation.Run.{Case, is_other}

module _ {N : Numbers} (A : Answering N) where
  abbrev ids : List (CaseResult N.Float) → List Text
  ids rs = map (λ x. x.id) rs

  record Adds (r : CaseResult N.Float) (s t : Answers N.Float) : Type 0 where
    id_added : ids t.finished ≡ ids s.finished ++ (r.id ∷ [])
    counted : t.count + t.answer_failed ≡ s.count + s.answer_failed + 1

  add_failure-Adds :
      (r x : CaseResult N.Float) (s : Answers N.Float) → x.id ≡ r.id → Adds r s (add_failure A x s)
  add_failure-Adds r x s e = record {
    id_added = rw (sym e) (map-snoc (λ y. y.id) s.finished x);
    counted = omega arith;
  }

  scored-Adds :
      (evaluate : Case → Text → List (Hit N.Float) → AnswerScores N.Float) (c : Case)
      (r : CaseResult N.Float) (x : Result (Text × List (Hit N.Float))) (s : Answers N.Float)
      → Adds r s (scored A evaluate c r x s)
  unfolding scored add_answer
  scored-Adds evaluate c r (err e) s = add_failure-Adds r (record r { error = e.message }) s refl
  scored-Adds evaluate c r (ok (answer, hits)) s = record {
    id_added = map-snoc (λ y. y.id) s.finished _;
    counted = omega arith;
  }

  answer_case-Adds :
      (complete : Text → Text → Result Text)
      (evaluate : Case → Text → List (Hit N.Float) → AnswerScores N.Float) (mode : SearchMode)
      (k n : ℤ) (c : Case) (r : CaseResult N.Float) (s : Answers N.Float)
      → Adds r s (answer_case A complete evaluate mode k n c r s)
  unfolding answer_case
  answer_case-Adds complete evaluate mode k n c r s =
      let x = and_then (retrieve A.bench mode c.question k n) (answer_from A complete c) in
      let scores = scored-Adds evaluate c r x s in
      let failing = add_failure-Adds r r s refl in
      elim (is_empty r.error)
        as (λ b. Adds r s (if not b then add_failure A r s else scored A evaluate c r x s)) [
          | true ↦ scores
          | false ↦ failing
        ]

  answer_cases-all :
      (complete : Text → Text → Result Text)
      (evaluate : Case → Text → List (Hit N.Float) → AnswerScores N.Float) (mode : SearchMode)
      (k n : ℤ) (cs : List Case) (rs : List (CaseResult N.Float)) (s : Answers N.Float)
      → length rs ≡ length cs
      → (t : Answers N.Float) × (answer_cases A complete evaluate mode k n cs rs s ≡ some t)
        × (ids t.finished ≡ ids s.finished ++ ids rs)
        × (t.count + t.answer_failed ≡ s.count + s.answer_failed + length cs)
  unfolding answer_cases
  answer_cases-all complete evaluate mode k n [] [] s h = (
    record s { finished = s.finished ++ [] },
    refl,
    rw (append-nil s.finished, append-nil (ids s.finished)) refl,
    omega arith,
  )
  answer_cases-all complete evaluate mode k n [] (r ∷ rs) s h = absurd (omega (arith, h))
  answer_cases-all complete evaluate mode k n (c ∷ cs) [] s h = absurd (omega (arith, h))
  answer_cases-all complete evaluate mode k n (c ∷ cs) (r ∷ rs) s h =
      let one = answer_case-Adds complete evaluate mode k n c r s in
      let (t, e, i, m) =
        answer_cases-all complete evaluate mode k n cs rs
          (answer_case A complete evaluate mode k n c r s) (omega (arith, h)) in
      (
        t,
        e,
        i ∙ rw (one.id_added) (append_assoc (ids s.finished) (r.id ∷ []) (ids rs)),
        omega (arith, m, one.counted),
      )

  same_length :
      (rs : List (CaseResult N.Float)) (cs : List Case)
      → ids rs ≡ map (λ c. c.id) cs
      → length rs ≡ length cs
  same_length rs cs e = sym (length-map rs (λ x. x.id)) ∙ ap length e ∙ length-map cs (λ c. c.id)

  -- The cases are answered, or they failed.
  abbrev pub IsAnswered : List Case → Report N.Float → Type 0
  IsAnswered cs r =
      (ids r.results ≡ map (λ c. c.id) cs)
      × (evaluated failed : ℕ) × (r.answer_evaluated_cases ≡ pos evaluated)
      × (r.answer_failed_cases ≡ pos failed)
      × (evaluated + failed ≡ length cs)

  -- RunRAG with a chat model and a judge, in a mode that is known, does not run out of the results
  -- of Run and gives a report: it has the results of all cases, in the order of the cases, and each
  -- case counts either as answered or as failed.
  pub run_rag-IsAnswered :
      (cs : List Case) (mode : SearchMode) (top_k candidate_k : ℤ)
      (complete : Text → Text → Result Text)
      (evaluate : Case → Text → List (Hit N.Float) → AnswerScores N.Float)
      → A.chatger ≡ some complete
      → A.judge ≡ some evaluate
      → is_other mode ≡ false
      → (r : Report N.Float) × (run_rag A cs mode top_k candidate_k ≡ some (ok r)) × IsAnswered cs r
  unfolding run_rag rag_report
  run_rag-IsAnswered cs mode top_k candidate_k complete evaluate c j h =
      let (p, e, total) = run-IsTotalled A.bench cs mode top_k candidate_k h in
      let (t, f, k, m) =
        answer_cases-all complete evaluate mode top_k candidate_k cs p.results (no_answers A)
          (same_length p.results cs total.0) in
      (
        rag_report A p t,
        ap (λ x. rag_for A x A.judge cs mode top_k candidate_k) c
            ∙ ap (λ y. rag_for A (some complete) y cs mode top_k candidate_k) j
            ∙ ap (rag_with A complete evaluate cs mode top_k candidate_k) e
            ∙ ap (rag_over A p) f,
        (k ∙ total.0, t.count, t.answer_failed, refl, refl, m ∙ omega arith),
      )
