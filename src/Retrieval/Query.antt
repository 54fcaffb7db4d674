-- ===== src/Retrieval/Query.antt =====
-- internal/rag/service.go: prepareQuery, Query and QueryStream. The embedding model, the chat
-- model, the reranker with its deadline and the ranking of PostgreSQL are parameters; metrics and
-- traces are left out, and the measured times are part of what a call meets.
use dong_rag.Base.{
  ℕ, Bool, true, false, Option, none, some, List, [], ◌∷◌, ◌++◌, if◌then◌else◌, length, ℤ, pos,
  pos_part, ltb_ℤ, eq_ℤ, GoError, plain_error, Result, ok, err, and_then, Text, codes, is_empty,
  trim_space,
}
use dong_rag.Store.Library.{Library}
use dong_rag.Search.{Ranking}
use dong_rag.Search.Dispatch.{vector_mode, lexical_mode, search}
use dong_rag.Retrieval.Hit.{Floats, Hit}
use dong_rag.Retrieval.Fuse.{fuse_rrf}
use dong_rag.Retrieval.Diverse.{select_diverse}
use dong_rag.Retrieval.Rerank.{Reranker, rerank_hits}
use dong_rag.Retrieval.Context.{prepare_generation_context}
use dong_rag.Retrieval.Prompts.{generation_prompts}
pub mod Grounded
pub mod Spoken
pub mod Fallback

-- What the streamer hands to the callback, in order, and the error that it returns with.
pub record Streamed : Type 0 where
  pub tokens : List Text
  pub stream_error : Option GoError

-- `RetrievalCandidateK` is positive.
pub record QueryService (F : Floats) : Type 0 where
  pub ranking : Ranking F
  pub embed : List Text → Result (List (List F.Float))
  pub complete : Text → Text → Result Text
  pub stream : Option (Text → Text → Streamed)
  pub reranker : Option (Reranker F.Float)
  pub embedding_dim : ℤ
  pub candidate_k : ℕ
  pub rerank_max_per_doc : ℤ
  pub to_lower : Text → Text

-- The errors of the two searches, the order in which Go visits the map of the fusion, and the
-- times.
pub record Meets (F : Floats) : Type 0 where
  pub vector_fault : Option GoError
  pub lexical_fault : Option GoError
  pub visit : List (Hit F.Float) → List (Hit F.Float)
  pub retrieval_time : ℕ
  pub total_time : ℕ

pub record QueryPreparation (Float : Type 0) : Type 0 where
  pub hits : List (Hit Float)
  pub system_prompt : Text
  pub user_prompt : Text
  pub retrieval_ms : ℕ
  pub candidates : ℕ
  pub reranked : Bool
  pub rerank_fallback : Bool

pub record QueryResult (Float : Type 0) : Type 0 where
  pub answer : Text
  pub citations : List (Hit Float)
  pub retrieval_ms : ℕ
  pub total_ms : ℕ
  pub retrieval_mode : Text
  pub candidates : ℕ
  pub reranked : Bool
  pub rerank_fallback : Bool

-- The hits that are selected, and the two flags.
pub record Selected (Float : Type 0) : Type 0 where
  pub chosen : List (Hit Float)
  pub was_reranked : Bool
  pub fell_back : Bool

abbrev pub concat : List Text → Text
concat [] = []
concat (t ∷ ts) = t ++ concat ts

module _ (F : Floats) where
  unfoldable pub only_embedding : ℤ → List (List F.Float) → Result (List F.Float)
  only_embedding dim (e ∷ []) =
      if eq_ℤ (pos (length e)) dim
      then ok e
      else err (plain_error (codes "query embedding dimension mismatch"))
  only_embedding dim [] = err (plain_error (codes "query embedding dimension mismatch"))
  only_embedding dim (e ∷ f ∷ es) = err (plain_error (codes "query embedding dimension mismatch"))

  abbrev pub at_least_k : QueryService F → ℤ → ℕ
  at_least_k s top_k = if ltb_ℤ (pos s.candidate_k) top_k then pos_part top_k else s.candidate_k

  unfoldable pub fused_hits :
      Ranking F → Meets F → Library F.Float → Text → ℕ → List F.Float → Result (List (Hit F.Float))
  unfolding search fuse_rrf
  fused_hits ranking v l question k e =
      and_then (search F ranking v.vector_fault question e vector_mode (pos k) (pos k) l)
        (λ vector_hits.
          and_then (search F ranking v.lexical_fault question e lexical_mode (pos k) (pos k) l)
            (λ lexical_hits. ok (fuse_rrf F v.visit vector_hits lexical_hits k)))

  abbrev pub selected_or_fallback :
      ℤ → List (Hit F.Float) → ℤ → Result (List (Hit F.Float)) → Selected F.Float
  selected_or_fallback max_per_doc hits top_k (ok chosen) = record {
    chosen = chosen;
    was_reranked = true;
    fell_back = false;
  }
  selected_or_fallback max_per_doc hits top_k (err e) = record {
    chosen = select_diverse hits top_k max_per_doc;
    was_reranked = false;
    fell_back = true;
  }

  unfoldable pub select_hits :
      ℤ → Option (Reranker F.Float) → Text → ℤ → List (Hit F.Float) → Selected F.Float
  unfolding select_diverse rerank_hits
  select_hits max_per_doc none question top_k hits = record {
    chosen = select_diverse hits top_k max_per_doc;
    was_reranked = false;
    fell_back = false;
  }
  select_hits max_per_doc (some reranker) question top_k hits =
      selected_or_fallback max_per_doc hits top_k
        (rerank_hits reranker question hits top_k max_per_doc)

  unfoldable pub with_context :
      (Text → Text) → Meets F → Text → ℕ → Selected F.Float → QueryPreparation F.Float
  unfolding prepare_generation_context generation_prompts
  with_context to_lower v question k c =
      let (hits, context) = prepare_generation_context F to_lower c.chosen (pos 6000) (pos 2) in
      let (system_prompt, prompt) = generation_prompts question context in
      record {
        hits = hits;
        system_prompt = system_prompt;
        user_prompt = prompt;
        retrieval_ms = v.retrieval_time;
        candidates = k;
        reranked = c.was_reranked;
        rerank_fallback = c.fell_back;
      }

  unfoldable pub prepare_query :
      QueryService F → Meets F → Library F.Float → Text → ℤ → Result (QueryPreparation F.Float)
  unfolding trim_space only_embedding fused_hits select_hits with_context
  prepare_query s v l question top_k =
      let q = trim_space question in
      if is_empty q
      then err (plain_error (codes "question is required"))
      else let k = at_least_k s top_k in
        and_then (s.embed (q ∷ [])) (λ embeddings.
          and_then (only_embedding s.embedding_dim embeddings) (λ e.
            and_then (fused_hits s.ranking v l q k e) (λ hits. ok (
              with_context s.to_lower v q k
                (select_hits s.rerank_max_per_doc s.reranker q top_k hits)))))

  abbrev pub result : QueryPreparation F.Float → Text → ℕ → QueryResult F.Float
  result p answer total_ms = record {
    answer = answer;
    citations = p.hits;
    retrieval_ms = p.retrieval_ms;
    total_ms = total_ms;
    retrieval_mode = codes "hybrid";
    candidates = p.candidates;
    reranked = p.reranked;
    rerank_fallback = p.rerank_fallback;
  }

  unfoldable pub query :
      QueryService F → Meets F → Library F.Float → Text → ℤ → Result (QueryResult F.Float)
  unfolding prepare_query
  query s v l question top_k = and_then (prepare_query s v l question top_k) (λ p.
      and_then (s.complete p.system_prompt p.user_prompt)
        (λ answer. ok (result p answer v.total_time)))

  abbrev pub finish_stream :
      QueryPreparation F.Float → ℕ → Streamed → List Text × Result (QueryResult F.Float)
  finish_stream p total_ms r = (
    r.tokens,
    elim r.stream_error [ some e ↦ err e | none ↦ ok (result p (concat r.tokens) total_ms) ],
  )

  abbrev pub stream_prepared :
      QueryService F
      → Meets F
      → Option (Text → Text → Streamed)
      → Result (QueryPreparation F.Float)
      → List Text × Result (QueryResult F.Float)
  stream_prepared s v streamer (err e) = ([], err e)
  stream_prepared s v none (ok p) =
      ([], err (plain_error (codes "chat provider does not support streaming")))
  stream_prepared s v (some stream) (ok p) =
      finish_stream p v.total_time (stream p.system_prompt p.user_prompt)

  -- The tokens that reach the callback, and the result.
  unfoldable pub query_stream :
      QueryService F
      → Meets F
      → Library F.Float
      → Text
      → ℤ
      → List Text × Result (QueryResult F.Float)
  unfolding prepare_query
  query_stream s v l question top_k =
      stream_prepared s v s.stream (prepare_query s v l question top_k)
