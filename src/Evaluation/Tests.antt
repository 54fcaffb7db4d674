-- ===== src/Evaluation/Tests.antt =====
-- The theorems on the baseline at whole numbers for floating point.
use dong_rag.Base.{
  ℕ, ◌+◌, ◌-◌, ◌*◌, ◌≡◌, refl, sym, subst, true, false, [], arith, ltb, if◌then◌else◌, All, ℤ, pos,
  negsuc, pos_part, neg_part, ltb_ℤ, codes,
}
use dong_rag.Evaluation.Reports.{Numbers, Report, metric_value, benchmark_metrics}
use dong_rag.Evaluation.Gate.{is_worse, merge_metrics}
use dong_rag.Evaluation.Ratchet.{IsOrdered, is_measured, merge_tightens, merge_disarms}

-- The difference of two numbers.
abbrev difference : ℕ → ℕ → ℤ
difference a b = if ltb a b then negsuc (b - a - 1) else pos (a - b)

abbrev whole : Numbers
whole = record {
  Float = ℤ;
  lt = ltb_ℤ;
  nought = pos 0;
  one = pos 1;
  plus = λ a b. difference (pos_part a + pos_part b) (neg_part a + neg_part b);
  minus = λ a b. difference (pos_part a + neg_part b) (neg_part a + pos_part b);
  times = λ a b.
      difference (pos_part a * pos_part b + neg_part a * neg_part b)
        (pos_part a * neg_part b + neg_part a * pos_part b);
  from_int = λ n. n;
  to_int = λ x. x;
}

times_one : (a : ℤ) → whole.times a (pos 1) ≡ a
times_one (pos n) = ground arith
times_one (negsuc n) = ground arith

whole_lt_trans : (a b c : ℤ) → ltb_ℤ a b ≡ true → ltb_ℤ b c ≡ true → ltb_ℤ a c ≡ true
whole_lt_trans a b c h k = ground arith

whole-IsOrdered : IsOrdered whole (pos 0)
whole-IsOrdered = record {
  count_back = λ n. refl;
  lt_trans = λ a b c h k. whole_lt_trans a b c h k;
  lt_split = λ a b c h k. ground arith;
  floor_mono = λ a b x h k.
      subst (λ y. ltb_ℤ x y ≡ true) (sym (times_one b))
        (whole_lt_trans x a b (subst (λ y. ltb_ℤ x y ≡ true) (times_one a) k) h);
  ceiling_mono = λ a b x h k.
      subst (λ y. ltb_ℤ y x ≡ true) (sym (times_one a))
        (whole_lt_trans a b x h (subst (λ y. ltb_ℤ y x ≡ true) (times_one b) k));
}

-- A report on one case, with a latency.
abbrev report : ℕ → Report ℤ
report latency = record {
  mode = codes "hybrid";
  top_k = pos 5;
  candidate_k = pos 30;
  total_cases = pos 1;
  evaluated_cases = pos 1;
  failed_cases = pos 0;
  answer_evaluated_cases = pos 0;
  answer_failed_cases = pos 0;
  recall_at_1 = pos 1;
  recall_at_k = pos 1;
  mrr = pos 1;
  ndcg_at_k = pos 1;
  average_latency_ms = pos latency;
  p95_latency_ms = pos latency;
  average_pipeline_latency_ms = pos 0;
  p95_pipeline_latency_ms = pos 0;
  pipeline = codes "retrieval";
  answer_correctness = pos 0;
  citation_precision = pos 0;
  citation_recall = pos 0;
  faithfulness = pos 0;
  unsupported_claim_rate = pos 0;
  refusal_accuracy = pos 0;
  results = [];
}

merge_tightens_example :
    All
      (λ m.
        is_measured whole m (metric_value whole (report 7) m.name) ≡ true
        → is_worse whole
            (pos 0)
            m
            (metric_value whole (report 9) m.name)
            (metric_value whole (report 8) m.name)
          ≡ true
        → is_worse whole (pos 0) m (metric_value whole (report 9) m.name) (
            metric_value whole
              (merge_metrics whole (report 7) (report 8) (benchmark_metrics (codes "rag")))
              m.name)
          ≡ true)
      (benchmark_metrics (codes "rag"))
merge_tightens_example =
    merge_tightens whole (pos 0) whole-IsOrdered (report 7) (report 8) (report 9) (codes "rag")

merge_disarms_example :
    All
      (λ m.
        is_measured whole m (metric_value whole (report 0) m.name) ≡ false
        → is_worse whole (pos 0) m (metric_value whole (report 9) m.name) (
            metric_value whole
              (merge_metrics whole (report 0) (report 8) (benchmark_metrics (codes "rag")))
              m.name)
          ≡ false)
      (benchmark_metrics (codes "rag"))
merge_disarms_example =
    merge_disarms whole (pos 0) whole-IsOrdered (report 0) (report 8) (report 9) (codes "rag")
