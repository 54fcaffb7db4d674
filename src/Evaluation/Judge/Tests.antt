-- ===== src/Evaluation/Judge/Tests.antt =====
-- RuleJudge on an answer that cites its hit, and the theorems on it.
use dong_rag.Base.{
  ℕ, ◌+◌, ◌-◌, ◌*◌, ◌/◌, ◌≡◌, refl, false, none, [], ◌∷◌, ◌++◌, ltb, pos, pos_part, ok, Text, codes,
}
use dong_rag.Retrieval.Hit.{Hit}
use dong_rag.Evaluation.Reports.{Numbers}
use dong_rag.Evaluation.Run.{Case, Bench}
use dong_rag.Evaluation.Judge.{evaluate}
use dong_rag.Evaluation.Judge.Tokens.{tokens_in, tokens_in-cut}
use dong_rag.Evaluation.Judge.Citations.{cited_documents}
use dong_rag.Evaluation.Judge.Citations.Written.{written, names_of, cited_documents-written}
use dong_rag.Evaluation.Judge.Bounds.{IsScored, evaluate-IsScored}

-- Numbers of hundredths.
abbrev hundredths : Numbers
hundredths = record {
  Float = ℕ;
  lt = ltb;
  nought = 0;
  one = 100;
  plus = λ a b. a + b;
  minus = λ a b. a - b;
  times = λ a b. a * b / 100;
  from_int = λ n. pos_part n * 100;
  to_int = λ x. pos (x / 100);
}

abbrev guide : Hit ℕ
guide = record {
  id = codes "h";
  document_id = codes "d";
  document_name = codes "guide.md";
  content = codes "rag retrieves first";
  metadata = [];
  score = 0;
  vector_rank = 1;
  vector_score = 0;
  lexical_rank = 0;
  lexical_score = 0;
  rrf_score = 0;
  rerank_rank = 0;
  rerank_score = 0;
  final_rank = 0;
}

abbrev bench : Bench hundredths
bench = record {
  embed = λ ts. ok ((1 ∷ []) ∷ []);
  search_hits = λ q e mode k n. ok (guide ∷ []);
  reranker = none;
  normalize_name = λ t. t;
  over = λ a b. a * 100 / b;
  discount = λ n. 1;
  latency = λ c. pos 7;
}

abbrev asks : Case
asks = record {
  id = codes "a";
  question = codes "what?";
  relevant_documents = [];
  difficulty = [];
  query_type = [];
  reference_answer = codes "rag retrieves";
  required_citations = codes "guide.md" ∷ [];
  should_refuse = false;
  source_type = [];
}

abbrev answer : Text
answer = codes "rag retrieves.[1] it snows"

judged : evaluate bench (λ t. t) asks answer (guide ∷ []) ≡ record {
  answer_correctness = 57;
  citation_precision = 100;
  citation_recall = 100;
  faithfulness = 50;
  unsupported_claim_rate = 50;
  refusal_accuracy = 100;
}
unfolding evaluate
judged = refl

evaluate-IsScored_example : IsScored bench (evaluate bench (λ t. t) asks answer (guide ∷ []))
evaluate-IsScored_example = evaluate-IsScored bench (λ t. t) asks answer (guide ∷ [])

cut_tokens :
    tokens_in (codes "rag 检索" ++ (0xFF0C ∷ codes "生成"))
    ≡ tokens_in (codes "rag 检索") ++ tokens_in (codes "生成")
cut_tokens = tokens_in-cut (codes "rag 检索") (codes "生成") 0xFF0C refl

paired : tokens_in (codes "rag 检索资") ≡ codes "rag" ∷ codes "检索" ∷ codes "索资" ∷ []
unfolding tokens_in
paired = refl

cited_documents-written_example :
    cited_documents
      (λ t. t)
      (written ((codes "see ", 1) ∷ (codes " and ", 12) ∷ []) (codes "."))
      (guide ∷ [])
    ≡ names_of (λ t. t) (guide ∷ []) ((codes "see ", 1) ∷ (codes " and ", 12) ∷ []) []
cited_documents-written_example =
    cited_documents-written (λ t. t) (guide ∷ []) ((codes "see ", 1) ∷ (codes " and ", 12) ∷ [])
      (codes ".") (refl, (refl, tt)) refl

-- A citation inside other brackets is passed over with them.
nested : cited_documents (λ t. t) (codes "[see [1]]") (guide ∷ []) ≡ []
unfolding cited_documents
nested = refl
