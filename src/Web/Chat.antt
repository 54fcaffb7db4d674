-- ===== src/Web/Chat.antt =====
-- internal/web/server.go: query and stream, over the service's Query and QueryStream. The client is
-- taken to receive what is written to it; `is_gone` says whether it had left when a query failed.
use dong_rag.Base.{
  ℕ, ◌≡◌, refl, sym, ap, ◌∙◌, Bool, true, false, some, List, [], ◌∷◌, ◌++◌, map, append_assoc,
  append-nil, ℤ, Result, ok, err, ok_inj, Text, codes,
}
use dong_rag.Store.Library.{Library}
use dong_rag.Retrieval.Hit.{Floats, Hit}
use dong_rag.Retrieval.Query.{
  Streamed, QueryService, Meets, QueryResult, concat, query, query_stream,
}
use dong_rag.Retrieval.Query.Grounded.{Streams, query_stream-IsStreamOf}
use dong_rag.Web.{Method, get, post, delete, other_method}

-- The question and `top_k` of the body, where a missing one is 0.
abbrev pub Body : Type 0
Body = Result (Text × ℤ)

pub data Event (Float : Type 0) : Type 0 where
  token_event : Text → Event Float
  error_event : Text → Event Float
  citations_event : List (Hit Float) → Event Float
  done_event : QueryResult Float → Event Float

pub data Answer (Float : Type 0) : Type 0 where
  refused : ℕ → Text → Answer Float
  answered : QueryResult Float → Answer Float
  events : List (Event Float) → Answer Float

module _ (F : Floats) where
  abbrev pub asked : Result (QueryResult F.Float) → Answer F.Float
  asked (err e) = refused 400 e.message
  asked (ok r) = answered r

  abbrev pub query_body : QueryService F → Meets F → Library F.Float → Body → Answer F.Float
  query_body s v l (err e) = refused 400 (codes "invalid JSON: " ++ e.message)
  query_body s v l (ok (question, top_k)) = asked (query F s v l question top_k)

  unfoldable pub query_handler :
      QueryService F → Meets F → Library F.Float → Method → Body → Answer F.Float
  unfolding query
  query_handler s v l post body = query_body s v l body
  query_handler s v l get body = refused 405 (codes "method not allowed")
  query_handler s v l delete body = refused 405 (codes "method not allowed")
  query_handler s v l other_method body = refused 405 (codes "method not allowed")

  abbrev pub end_events : Bool → Result (QueryResult F.Float) → List (Event F.Float)
  end_events is_gone (ok r) = citations_event r.citations ∷ done_event r ∷ []
  end_events true (err e) = []
  end_events false (err e) = error_event e.message ∷ []

  abbrev pub stream_events : Bool → List Text × Result (QueryResult F.Float) → List (Event F.Float)
  stream_events is_gone (tokens, r) = map token_event tokens ++ end_events is_gone r

  abbrev pub stream_body : QueryService F → Meets F → Library F.Float → Bool → Body → Answer F.Float
  stream_body s v l is_gone (err e) = refused 400 (codes "invalid JSON: " ++ e.message)
  stream_body s v l is_gone (ok (question, top_k)) =
      events (stream_events is_gone (query_stream F s v l question top_k))

  unfoldable pub stream_handler :
      QueryService F → Meets F → Library F.Float → Bool → Method → Body → Answer F.Float
  unfolding query_stream
  stream_handler s v l is_gone post body = stream_body s v l is_gone body
  stream_handler s v l is_gone get body = refused 405 (codes "method not allowed")
  stream_handler s v l is_gone delete body = refused 405 (codes "method not allowed")
  stream_handler s v l is_gone other_method body = refused 405 (codes "method not allowed")

  -- What a client puts together of the events: the text of the tokens, and the citations.
  abbrev pub read_text : List (Event F.Float) → Text
  read_text [] = []
  read_text (token_event t ∷ es) = t ++ read_text es
  read_text (error_event t ∷ es) = read_text es
  read_text (citations_event hits ∷ es) = read_text es
  read_text (done_event r ∷ es) = read_text es

  abbrev pub read_citations : List (Event F.Float) → List (Hit F.Float)
  read_citations [] = []
  read_citations (token_event t ∷ es) = read_citations es
  read_citations (error_event t ∷ es) = read_citations es
  read_citations (citations_event hits ∷ es) = hits
  read_citations (done_event r ∷ es) = read_citations es

  text_of_tokens :
      (ts : List Text) (es : List (Event F.Float))
      → read_text (map token_event ts ++ es) ≡ concat ts ++ read_text es
  text_of_tokens [] es = refl
  text_of_tokens (t ∷ ts) es =
      ap (◌++◌ t) (text_of_tokens ts es) ∙ sym (append_assoc t (concat ts) (read_text es))

  citations_of_tokens :
      (ts : List Text) (es : List (Event F.Float))
      → read_citations (map token_event ts ++ es) ≡ read_citations es
  citations_of_tokens [] es = refl
  citations_of_tokens (t ∷ ts) es = citations_of_tokens ts es

  abbrev pub Reads : QueryResult F.Float → List (Event F.Float) → Type 0
  Reads r es = (read_text es ≡ r.answer) × (read_citations es ≡ r.citations)

  stream_events-Reads :
      (is_gone : Bool) (q : List Text × Result (QueryResult F.Float)) (r : QueryResult F.Float)
      → (q.1 ≡ ok r)
      → (concat q.0 ≡ r.answer)
      → Reads r (stream_events is_gone q)
  stream_events-Reads is_gone (tokens, err e) r h k = absurd (cc)
  stream_events-Reads is_gone (tokens, ok x) r h k = (
    text_of_tokens tokens (end_events is_gone (ok x)) ∙ append-nil (concat tokens) ∙ k,
    citations_of_tokens tokens (end_events is_gone (ok x)) ∙ ap (λ z. z.citations) (ok_inj h),
  )

  asked_ok :
      (q : Result (QueryResult F.Float)) (r : QueryResult F.Float) → asked q ≡ answered r → q ≡ ok r
  asked_ok (err e) r h = absurd (cc)
  asked_ok (ok x) r h = cc

  -- Where the chat provider streams what it would complete, and a posted query would be answered,
  -- the client of the stream reads the same answer from the tokens and the same citations from
  -- their event.
  pub stream_handler-Reads :
      (s : QueryService F) (v : Meets F) (l : Library F.Float) (is_gone : Bool) (question : Text)
      (top_k : ℤ) (stream : Text → Text → Streamed) (r : QueryResult F.Float)
      → s.stream ≡ some stream
      → Streams F s.complete stream
      → query_handler s v l post (ok (question, top_k)) ≡ answered r
      → (es : List (Event F.Float)) × (stream_handler s v l is_gone post (ok (question, top_k))
          ≡ events es)
        × Reads r es
  unfolding query_handler stream_handler
  stream_handler-Reads s v l is_gone question top_k stream r e k h =
      let (same, text) = query_stream-IsStreamOf F s v l question top_k stream e k in
      let done = asked_ok (query F s v l question top_k) r h in
      (
        stream_events is_gone (query_stream F s v l question top_k),
        refl,
        stream_events-Reads is_gone (query_stream F s v l question top_k) r (same ∙ done)
            (text r done),
      )
