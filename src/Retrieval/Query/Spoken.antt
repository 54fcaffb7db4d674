-- ===== src/Retrieval/Query/Spoken.antt =====
-- internal/rag/service.go: what stands behind an answer of QueryStream.
use dong_rag.Base.{
  ℕ, ◌≡◌, refl, sym, ap, subst, ◌∙◌, inl, inr, Option, none, some, List, Option-cases, ℤ, pos,
  Result, ok, err, ok_inj, Text, trim_space,
}
use dong_rag.Store.Library.{Library}
use dong_rag.Retrieval.Hit.{Floats}
use dong_rag.Retrieval.Context.{prepare_generation_context}
use dong_rag.Retrieval.Context.Bounds.{Promised, prepare_generation_context_lem}
use dong_rag.Retrieval.Prompts.{generation_prompts}
use dong_rag.Retrieval.Query.{
  Streamed, QueryService, Meets, QueryPreparation, QueryResult, Selected, concat, at_least_k,
  select_hits, with_context, prepare_query, result, finish_stream, stream_prepared, query_stream,
}
use dong_rag.Retrieval.Query.Grounded.{prepared}

module _ (F : Floats) where
  -- The tokens that the client received, and the answer that they make up, are what the streamer says
  -- without an error to the question and the context.
  abbrev pub SpokenFor :
      QueryService F
      → (Text → Text → Streamed)
      → Text
      → QueryResult F.Float
      → List Text
      → Text
      → Type 0
  SpokenFor s stream question r tokens context =
      let prompts = generation_prompts (trim_space question) context in
      Promised F s.to_lower (pos 6000) 2 (r.citations, context)
      × ((stream prompts.0 prompts.1).stream_error ≡ none)
      × (tokens ≡ (stream prompts.0 prompts.1).tokens)
      × (r.answer ≡ concat tokens)

  finished :
      (p : QueryPreparation F.Float) (total : ℕ) (said : Streamed) {r : QueryResult F.Float}
      → (finish_stream F p total said).1 ≡ ok r
      → (said.stream_error ≡ none) × (result F p (concat said.tokens) total ≡ r)
  finished p total said h = elim (Option-cases said.stream_error) [
    | inl e ↦ (e, ok_inj (rw e at h))
    | inr (x, e) ↦ absurd (let h' = rw e at h in cc)
  ]

  -- A result comes of a prepared query, to whose prompts the streamer says its answer.
  abbrev FromPrepared :
      QueryService F
      → Meets F
      → (Text → Text → Streamed)
      → Result (QueryPreparation F.Float)
      → QueryResult F.Float
      → Option (Text → Text → Streamed)
      → Type 0
  FromPrepared s v stream q r streamer =
      (stream_prepared F s v streamer q).1 ≡ ok r
      → (p : QueryPreparation F.Float) × (q ≡ ok p)
        × ((stream p.system_prompt p.user_prompt).stream_error ≡ none)
        × (result F p (concat (stream p.system_prompt p.user_prompt).tokens) v.total_time ≡ r)
        × ((stream_prepared F s v streamer q).0 ≡ (stream p.system_prompt p.user_prompt).tokens)

  streamed_of :
      (s : QueryService F) (v : Meets F) (stream : Text → Text → Streamed)
      (q : Result (QueryPreparation F.Float)) {r : QueryResult F.Float}
      → FromPrepared s v stream q r (some stream)
  streamed_of s v stream (err e) h = absurd (cc)
  streamed_of s v stream (ok p) h =
      let (fine, same) = finished p v.total_time (stream p.system_prompt p.user_prompt) h in
      (p, refl, fine, same, refl)

  with_context-SpokenFor :
      (s : QueryService F) (v : Meets F) (question : Text) (top_k : ℤ) (c : Selected F.Float)
      (stream : Text → Text → Streamed) {p : QueryPreparation F.Float}
      → with_context F s.to_lower v (trim_space question) (at_least_k F s top_k) c ≡ p
      → (stream p.system_prompt p.user_prompt).stream_error ≡ none
      → (context : Text) × SpokenFor s stream question
          (result F p (concat (stream p.system_prompt p.user_prompt).tokens) v.total_time)
          (stream p.system_prompt p.user_prompt).tokens
          context
  unfolding with_context
  with_context-SpokenFor s v question top_k c stream e h =
      let made = prepare_generation_context F s.to_lower c.chosen (pos 6000) (pos 2) in
      subst
        (λ x.
          (stream x.system_prompt x.user_prompt).stream_error ≡ none
          → (context : Text) × SpokenFor s stream question
              (result F x (concat (stream x.system_prompt x.user_prompt).tokens) v.total_time)
              (stream x.system_prompt x.user_prompt).tokens context)
        e
        (λ k. (
          made.1,
          (prepare_generation_context_lem F s.to_lower c.chosen (pos 6000) (pos 2), k, refl, refl),
        ))
        h

  -- Where QueryStream gives a result, the tokens that the client received are all that the chat
  -- model streamed, without an error, to the prompts of the trimmed question and a context, and the
  -- answer of the result is their concatenation; the context consists of the blocks of the result's
  -- citations, in their order and numbered by their places, of at most 6000 bytes, without repeated
  -- content and with at most two hits of a document; or there are no citations and the context says
  -- that there is nothing to cite.
  pub query_stream-SpokenFor :
      (s : QueryService F) (v : Meets F) (l : Library F.Float) (question : Text) (top_k : ℤ)
      (stream : Text → Text → Streamed) {r : QueryResult F.Float}
      → s.stream ≡ some stream
      → (query_stream F s v l question top_k).1 ≡ ok r
      → (context : Text) × SpokenFor s stream question r
          (query_stream F s v l question top_k).0
          context
  unfolding query_stream
  query_stream-SpokenFor s v l question top_k stream {r} there h =
      let q = prepare_query F s v l question top_k in
      let (p, e, fine, same, tokens) =
        subst (FromPrepared s v stream q r) (sym there) (streamed_of s v stream q) h in
      let (hits, w) = prepared F s v l question top_k e in
      let selected =
        select_hits F s.rerank_max_per_doc s.reranker (trim_space question) top_k hits in
      let (context, (promised, quiet, said, answer)) =
        with_context-SpokenFor s v question top_k selected stream w fine in
      subst
        (λ x.
          (context : Text) × SpokenFor s stream question x (stream_prepared F s v s.stream q).0
            context)
        same (context, (promised, quiet, tokens ∙ said, answer ∙ ap concat (sym tokens)))
