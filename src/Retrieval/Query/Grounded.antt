-- ===== src/Retrieval/Query/Grounded.antt =====
-- internal/rag/service.go: what stands behind an answer of Query, and that Query and QueryStream agree.
use dong_rag.Base.{
  ◌≡◌, refl, ap, subst, ◌⊎◌, inl, inr, none, some, List, [], ◌∷◌, arith, Bool-cases, ℤ, pos,
  GoError, Result, ok, err, and_then, and_then_ok, ok_inj, Text, is_empty, trim_space,
}
use dong_rag.Store.Library.{Library}
use dong_rag.Retrieval.Hit.{Floats, Hit}
use dong_rag.Retrieval.Context.{prepare_generation_context}
use dong_rag.Retrieval.Context.Bounds.{Promised, prepare_generation_context_lem}
use dong_rag.Retrieval.Prompts.{generation_prompts}
use dong_rag.Retrieval.Query.{
  Streamed, QueryService, Meets, QueryPreparation, QueryResult, Selected, concat, only_embedding,
  at_least_k, fused_hits, select_hits, with_context, prepare_query, result, query, stream_prepared,
  query_stream,
}

module _ (F : Floats) where
  pub prepared :
      (s : QueryService F) (v : Meets F) (l : Library F.Float) (question : Text) (top_k : ℤ)
      {p : QueryPreparation F.Float}
      → prepare_query F s v l question top_k ≡ ok p
      → (hits : List (Hit F.Float)) × (with_context F s.to_lower v
            (trim_space question)
            (at_least_k F s top_k)
            (select_hits F s.rerank_max_per_doc s.reranker (trim_space question) top_k hits)
          ≡ p)
  unfolding prepare_query
  prepared s v l question top_k {p} h = elim (Bool-cases (is_empty (trim_space question))) [
    | inl y ↦ absurd (ground (arith, h, y))
    | inr n ↦
        let q = trim_space question in
        let (es, _, h1) = and_then_ok (s.embed (q ∷ [])) _ (rw n at h) in
        let (e, _, h2) = and_then_ok (only_embedding F s.embedding_dim es) _ h1 in
        let (hits, _, h3) =
          and_then_ok (fused_hits F s.ranking v l q (at_least_k F s top_k) e) _ h2 in
        (hits, ok_inj h3)
  ]

  -- The context that the chat model was asked with, and what is promised of it.
  abbrev pub Grounds : QueryService F → Text → QueryResult F.Float → Text → Type 0
  Grounds s question r context =
      Promised F s.to_lower (pos 6000) 2 (r.citations, context)
      × (s.complete (generation_prompts (trim_space question) context).0
            (generation_prompts (trim_space question) context).1
          ≡ ok r.answer)

  with_context-Grounds :
      (s : QueryService F) (v : Meets F) (question : Text) (top_k : ℤ) (c : Selected F.Float)
      {p : QueryPreparation F.Float} {answer : Text}
      → with_context F s.to_lower v (trim_space question) (at_least_k F s top_k) c ≡ p
      → s.complete p.system_prompt p.user_prompt ≡ ok answer
      → (context : Text) × Grounds s question (result F p answer v.total_time) context
  unfolding with_context
  with_context-Grounds s v question top_k c {p} {answer} e h =
      let made = prepare_generation_context F s.to_lower c.chosen (pos 6000) (pos 2) in
      subst
        (λ x.
          s.complete x.system_prompt x.user_prompt ≡ ok answer
          → (context : Text) × Grounds s question (result F x answer v.total_time) context)
        e
        (λ k.
          (made.1, (prepare_generation_context_lem F s.to_lower c.chosen (pos 6000) (pos 2), k)))
        h

  -- An answer of Query is what the chat model says to the trimmed question and a context that
  -- consists of the blocks of the citations, in their order and numbered by their places, of at
  -- most 6000 bytes, without repeated content and with at most two hits of a document; or there are
  -- no citations and the context says that there is nothing to cite.
  pub query-Grounds :
      (s : QueryService F) (v : Meets F) (l : Library F.Float) (question : Text) (top_k : ℤ)
      {r : QueryResult F.Float}
      → query F s v l question top_k ≡ ok r
      → (context : Text) × Grounds s question r context
  unfolding query
  query-Grounds s v l question top_k {r} h =
      let (p, e, h1) = and_then_ok (prepare_query F s v l question top_k) _ h in
      let (answer, c, h2) = and_then_ok (s.complete p.system_prompt p.user_prompt) _ h1 in
      let (hits, w) = prepared s v l question top_k e in
      let selected =
        select_hits F s.rerank_max_per_doc s.reranker (trim_space question) top_k hits in
      subst (λ x. (context : Text) × Grounds s question x context) (ok_inj h2)
        (with_context-Grounds s v question top_k selected w c)

  -- The streamer says, in tokens, what the chat model says, or fails with its error.
  abbrev pub Streams : (Text → Text → Result Text) → (Text → Text → Streamed) → Type 0
  Streams complete stream =
      (a b : Text)
      → (((stream a b).stream_error ≡ none) × (complete a b ≡ ok (concat (stream a b).tokens)))
        ⊎ ((e : GoError) × ((stream a b).stream_error ≡ some e) × (complete a b ≡ err e))

  -- A streamed query: the result of the query, and the tokens of its answer.
  abbrev pub IsStreamOf :
      Result (QueryResult F.Float) → List Text × Result (QueryResult F.Float) → Type 0
  IsStreamOf r (tokens, q) =
      (q ≡ r) × ((x : QueryResult F.Float) → r ≡ ok x → concat tokens ≡ x.answer)

  prepared-IsStreamOf :
      (s : QueryService F) (v : Meets F) (stream : Text → Text → Streamed)
      (p : Result (QueryPreparation F.Float))
      → Streams s.complete stream
      → IsStreamOf
          (and_then p (λ x.
            and_then
              (s.complete x.system_prompt x.user_prompt)
              (λ a. ok (result F x a v.total_time))))
          (stream_prepared F s v (some stream) p)
  prepared-IsStreamOf s v stream (err e) k = (refl, λ x h. absurd (cc))
  prepared-IsStreamOf s v stream (ok p) k = elim (k p.system_prompt p.user_prompt) [
    | inl (n, c) ↦ rw (n, c) (refl, λ x h. ap (λ z. z.answer) (ok_inj h))
    | inr (e, n, c) ↦ rw (n, c) (refl, λ x h. absurd (cc))
  ]

  -- QueryStream refines Query: where the chat provider streams what it would complete, the result
  -- is that of Query, errors included, and the tokens that the client receives make up the answer.
  pub query_stream-IsStreamOf :
      (s : QueryService F) (v : Meets F) (l : Library F.Float) (question : Text) (top_k : ℤ)
      (stream : Text → Text → Streamed)
      → s.stream ≡ some stream
      → Streams s.complete stream
      → IsStreamOf (query F s v l question top_k) (query_stream F s v l question top_k)
  unfolding query query_stream
  query_stream-IsStreamOf s v l question top_k stream e k =
      rw e (prepared-IsStreamOf s v stream (prepare_query F s v l question top_k) k)
