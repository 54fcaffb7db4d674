-- ===== src/Retrieval/Tests.antt =====
-- The theorems on the hits at three hits of two documents, with numbers for scores.
use dong_rag.Base.{
  ℕ, ◌+◌, ◌≡◌, refl, true, false, List, [], ◌∷◌, arith, ltb, ℤ, pos, negsuc, ok, codes,
}
use dong_rag.Retrieval.Hit.{Floats, Hit}
use dong_rag.Retrieval.Diverse.{select_diverse, IsDiverse, select_diverse-IsDiverse}
use dong_rag.Retrieval.Context.{prepare_generation_context}
use dong_rag.Retrieval.Context.Bounds.{Promised, prepare_generation_context_lem}
use dong_rag.Retrieval.Rerank.Ranked.{IsReranking, rerank_hits-IsReranking}
use dong_rag.Retrieval.Rerank.{RerankResult, Reranker, number, rerank_hits}

abbrev hit : ℕ → ℕ → Hit ℕ
hit i d = record {
  id = i ∷ [];
  document_id = d ∷ [];
  document_name = [];
  content = i ∷ [];
  metadata = [];
  score = 0;
  vector_rank = 0;
  vector_score = 0;
  lexical_rank = 0;
  lexical_score = 0;
  rrf_score = 0;
  rerank_rank = 0;
  rerank_score = 0;
  final_rank = 0;
}

abbrev hits : List (Hit ℕ)
hits = hit 1 1 ∷ hit 2 1 ∷ hit 3 2 ∷ []

select_diverse-IsDiverse_example : IsDiverse 2 1 hits (select_diverse hits (pos 2) (pos 1))
select_diverse-IsDiverse_example = select_diverse-IsDiverse hits (pos 2) (pos 1)

abbrev named : ℤ → ℕ → RerankResult ℕ
named i s = record { index = i; result_score = s }

-- The last hit is named first, and twice.
abbrev results : List (RerankResult ℕ)
results = named (pos 2) 9 ∷ named (pos 0) 8 ∷ named (pos 2) 7 ∷ []

abbrev reranker : Reranker ℕ
reranker query texts = ok results

rerank_hits-IsReranking_example :
    (ordered : List (Hit ℕ)) × IsReranking hits results ordered
    × (rerank_hits reranker [] hits (pos 2) (pos 1)
        ≡ ok (number 0 (select_diverse ordered (pos 2) (pos 1))))
rerank_hits-IsReranking_example =
    rerank_hits-IsReranking reranker [] hits (pos 2) (pos 1) results refl (λ e. cc)
      ((λ e. cc), ((λ e. cc), ((λ e. cc), tt)))

abbrev astray : Reranker ℕ
astray query texts = ok (named (pos 0) 8 ∷ named (negsuc 0) 7 ∷ [])

ltb_asym : (a b : ℕ) → ltb a b ≡ true → ltb b a ≡ false
ltb_asym a b h = ground arith

not-ltb_trans : (a b c : ℕ) → ltb a b ≡ false → ltb b c ≡ false → ltb a c ≡ false
not-ltb_trans a b c h k = ground arith

-- Floating point by natural numbers, with 1/n as 0.
abbrev naturals : Floats
naturals = record {
  Float = ℕ;
  lt = ltb;
  nought = 0;
  reciprocal = λ n. 0;
  plus = λ a b. a + b;
  lt_asym = λ a b h. ltb_asym a b h;
  not-lt_trans = λ a b c h k. not-ltb_trans a b c h k;
}

prepare_generation_context_lem_example :
    Promised naturals
      (λ t. t)
      (pos 60)
      1
      (prepare_generation_context naturals (λ t. t) hits (pos 60) (pos 1))
prepare_generation_context_lem_example =
    prepare_generation_context_lem naturals (λ t. t) hits (pos 60) (pos 1)

example_blocks :
    (prepare_generation_context naturals
      (λ t. t)
      (record (hit 97 1) { document_name = codes "d" } ∷ [])
      (pos 60)
      (pos 1)).1
    ≡ codes "[1] 文档：d\n正文：a\n\n"
unfolding prepare_generation_context
example_blocks = refl
