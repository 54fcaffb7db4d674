-- ===== src/Evaluation/Rag/Tests.antt =====
-- The theorems on a run at two cases, the second of which is to be refused, with numbers for
-- scores.
use dong_rag.Base.{
  ℕ, ◌+◌, ◌-◌, ◌*◌, ◌/◌, ◌≡◌, refl, true, false, none, some, List, [], ◌∷◌, arith, ltb, pos,
  pos_part, plain_error, Result, ok, err, Text, codes,
}
use dong_rag.Retrieval.Hit.{Hit}
use dong_rag.Search.Dispatch.{hybrid_mode}
use dong_rag.Evaluation.Reports.{Numbers, Report}
use dong_rag.Evaluation.Run.{Case, Bench}
use dong_rag.Evaluation.Run.Loop.{run}
use dong_rag.Evaluation.Run.Total.{IsTotalled, run-IsTotalled}
use dong_rag.Evaluation.Rag.{AnswerScores, Answering, run_rag}
use dong_rag.Evaluation.Rag.Cases.{IsAnswered, run_rag-IsAnswered}
use dong_rag.Evaluation.Dataset.{load_dataset}

abbrev pub counting : Numbers
counting = record {
  Float = ℕ;
  lt = ltb;
  nought = 0;
  one = 1;
  plus = λ a b. a + b;
  minus = λ a b. a - b;
  times = λ a b. a * b;
  from_int = pos_part;
  to_int = pos;
}

pub ltb_asym : (a b : ℕ) → ltb a b ≡ true → ltb b a ≡ false
ltb_asym a b h = ground arith

pub not-ltb_trans : (a b c : ℕ) → ltb a b ≡ false → ltb b c ≡ false → ltb a c ≡ false
not-ltb_trans a b c h k = ground arith

abbrev pub manual_hit : Hit ℕ
manual_hit = record {
  id = 3 ∷ [];
  document_id = 1 ∷ [];
  document_name = codes "m";
  content = codes "text";
  metadata = [];
  score = 2;
  vector_rank = 1;
  vector_score = 2;
  lexical_rank = 0;
  lexical_score = 0;
  rrf_score = 0;
  rerank_rank = 0;
  rerank_score = 0;
  final_rank = 0;
}

abbrev pub bench : Bench counting
bench = record {
  embed = λ ts. ok ((1 ∷ []) ∷ []);
  search_hits = λ q e mode k n. ok (manual_hit ∷ []);
  reranker = none;
  normalize_name = λ t. t;
  over = λ a b. a / b;
  discount = λ n. 1;
  latency = λ c. pos 7;
}

abbrev pub asks : Case
asks = record {
  id = codes "a";
  question = codes "what?";
  relevant_documents = codes "m" ∷ [];
  difficulty = [];
  query_type = [];
  reference_answer = codes "text";
  required_citations = codes "m" ∷ [];
  should_refuse = false;
  source_type = [];
}

abbrev pub refuses : Case
refuses = record asks { id = codes "b"; should_refuse = true }

abbrev pub cases : List Case
cases = asks ∷ refuses ∷ []

run-IsTotalled_example :
    (r : Report ℕ) × (run bench cases hybrid_mode (pos 0) (pos 3) ≡ ok r)
    × IsTotalled bench cases hybrid_mode (pos 5) (pos 5) r
run-IsTotalled_example = run-IsTotalled bench cases hybrid_mode (pos 0) (pos 3) refl

abbrev full_marks : AnswerScores ℕ
full_marks = record {
  answer_correctness = 1;
  citation_precision = 1;
  citation_recall = 1;
  faithfulness = 1;
  unsupported_claim_rate = 0;
  refusal_accuracy = 1;
}

abbrev says : Text → Text → Result Text
says a b = ok (codes "text [1]")

abbrev grades : Case → Text → List (Hit ℕ) → AnswerScores ℕ
grades c answer hits = full_marks

abbrev pub answering : Answering counting
answering = record {
  bench = bench;
  order = record {
    lt_asym = λ a b h. ltb_asym a b h;
    not-lt_trans = λ a b c h k. not-ltb_trans a b c h k;
  };
  to_lower = λ t. t;
  chatger = some says;
  judge = some grades;
  pipeline_latency = λ c. pos 9;
}

run_rag-IsAnswered_example :
    (r : Report ℕ) × (run_rag answering cases hybrid_mode (pos 5) (pos 9) ≡ some (ok r))
    × IsAnswered answering cases r
run_rag-IsAnswered_example =
    run_rag-IsAnswered answering cases hybrid_mode (pos 5) (pos 9) says grades refl refl refl

-- The second case repeats the id of the first.
repeated : load_dataset (asks ∷ asks ∷ []) ≡ err (plain_error (codes "duplicate case id a"))
unfolding load_dataset
repeated = refl
