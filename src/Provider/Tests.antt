-- ===== src/Provider/Tests.antt =====
-- The clients on answers of a few bytes.
use dong_rag.Base.{
  ℕ, ◌≡◌, refl, false, none, some, List, [], ◌∷◌, arith, ◌==◌, if◌then◌else◌, length, keep, pos,
  GoError, plain_error, Result, ok, err, Text, Bytes, codes, text_eq, is_empty,
}
use dong_rag.Retrieval.Hit.{Hit}
use dong_rag.Retrieval.Rerank.{RerankResult, number, rerank_hits}
use dong_rag.Worker.Retry.{is_retryable_ingestion_error}
use dong_rag.Search.Tests.{thousandths}
use dong_rag.Evaluation.Rag.Tests.{manual_hit}
use dong_rag.Provider.{HttpResponse, Exchange, response_of}
use dong_rag.Provider.Ollama.{embed_within}
use dong_rag.Provider.Bailian.{unless_emitted, line_data, bailian_stream}
use dong_rag.Provider.Rerank.{func_reranker}
use dong_rag.Provider.Embeds.{Answers, embed_within-Answers, embed_cut}
use dong_rag.Provider.Streams.{spoken, Reads, stream-spoken}
use dong_rag.Provider.Ranks.{IsRanking, func_reranker-IsRanking}
use dong_rag.Retrieval.Rerank.Ranked.{IsReranking}
use dong_rag.Retrieval.Diverse.{select_diverse}

abbrev responds : ℕ → Bytes → HttpResponse
responds code body = record { status_code = code; status = codes "status"; body = body }

abbrev answers : ℕ → Bytes → Exchange
answers code body = record {
  marshal_fault = none;
  request_fault = none;
  sent = ok (responds code body);
}

-- One embedding, unless the body is cut.
abbrev two_bytes : Bytes → Result (List (List ℕ))
two_bytes body =
    if length body == 2 then ok ((1 ∷ []) ∷ []) else err (plain_error (codes "unexpected end"))

two_bytes-plain :
    (body : Bytes) (e : GoError)
    → two_bytes body ≡ err e
    → is_retryable_ingestion_error (some e) ≡ false
unfolding is_retryable_ingestion_error
two_bytes-plain body e h = ground (arith, h)

embed_within-Answers_example :
    Answers 3 two_bytes two_bytes-plain 1
      (responds 503 (120 ∷ []))
      (embed_within 3 two_bytes (answers 503 (120 ∷ [])) (codes "text" ∷ []))
unfolding response_of
embed_within-Answers_example =
    embed_within-Answers 3 two_bytes two_bytes-plain (answers 503 (120 ∷ [])) (codes "text") [] refl

-- An answer of one byte is read in full here, and one of more bytes is not.
abbrev one_byte : Bytes → Result (List (List ℕ))
one_byte body = err (plain_error (codes "unexpected end"))

one_byte-plain :
    (body : Bytes) (e : GoError)
    → one_byte body ≡ err e
    → is_retryable_ingestion_error (some e) ≡ false
unfolding is_retryable_ingestion_error
one_byte-plain body e h = ground (arith, h)

cut_answer :
    (e : GoError) × (embed_within 1 one_byte (answers 200 (120 ∷ 121 ∷ [])) (codes "text" ∷ [])
      ≡ err e)
    × (is_retryable_ingestion_error (some e) ≡ false)
unfolding response_of
cut_answer =
    embed_cut 1 one_byte one_byte-plain (answers 200 (120 ∷ 121 ∷ [])) (codes "text") [] refl refl
      (λ body h. (plain_error (codes "unexpected end"), refl)) (omega arith)

abbrev told : List Text
told =
    codes ": hello"
    ∷ codes "data: a"
    ∷ codes "data:b "
    ∷ codes "data: [DONE]"
    ∷ codes "data: c"
    ∷ []

abbrev whole : Text → List Text
whole content = content ∷ []

abbrev decode_data : Text → Result (List Text)
decode_data content =
    if is_empty content then err (plain_error (codes "no data")) else ok (whole content)

told-Reads : Reads decode_data whole told
unfolding line_data text_eq
told-Reads = (λ n. (refl, λ n. (refl, λ n. absurd (cc))))

stream-spoken_example :
    bailian_stream
      (λ so_far t. none)
      decode_data
      (answers 200 [])
      (λ r. record { lines = told; scan_error = none })
    ≡ record { tokens = spoken whole told; stream_error = unless_emitted (spoken whole told) }
unfolding response_of
stream-spoken_example =
    stream-spoken (λ so_far t. none) (λ so_far t. refl) decode_data whole (answers 200 [])
      (λ r. record { lines = told; scan_error = none }) refl refl refl told-Reads

told_tokens : spoken whole told ≡ codes "a" ∷ codes "b" ∷ []
unfolding line_data keep text_eq
told_tokens = refl

abbrev only_result : RerankResult ℕ
only_result = record { index = pos 0; result_score = 5 }

func_reranker-IsRanking_example :
    IsRanking thousandths 1 (only_result ∷ [])
    × (hits : List (Hit ℕ)) × IsReranking (manual_hit ∷ []) (only_result ∷ []) hits
    × (rerank_hits
          (func_reranker thousandths (λ body. ok (only_result ∷ [])) (λ q ts. answers 200 []))
          (codes "what?")
          (manual_hit ∷ [])
          (pos 5)
          (pos 2)
        ≡ ok (number 0 (select_diverse hits (pos 5) (pos 2))))
unfolding func_reranker
func_reranker-IsRanking_example =
    func_reranker-IsRanking thousandths (λ body. ok (only_result ∷ [])) (λ q ts. answers 200 [])
      (codes "what?") manual_hit [] (pos 5) (pos 2) refl
