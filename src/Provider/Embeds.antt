-- ===== src/Provider/Embeds.antt =====
-- internal/provider/ollama.go against internal/rag/worker.go: which failures of the embedding
-- server make the worker try a job again.
use dong_rag.Base.{
  ℕ, ◌<◌, ◌≡◌, refl, ◌∙◌, ◌⊎◌, inl, inr, Bool, true, false, ◌||◌, some, List, ◌∷◌, leb, ◌==◌,
  ==_iff, Bool-cases, length, take, GoError, plain_error, Result, ok, err, and_then, Text, Bytes,
  codes,
}
use dong_rag.Worker.Retry.{is_retryable_ingestion_error}
use dong_rag.Provider.{
  HttpResponse, Exchange, wrapped, wrap_error, response_of, is_success, retryable,
}
use dong_rag.Provider.Ollama.{
  embed_service, status_http_error, check_count, embeddings_in, embed_within,
}

-- A status that may pass.
abbrev pub is_transient : ℕ → Bool
is_transient code = code == 408 || code == 429 || leb 500 code

retryable-status :
    (service : Text) (limit : ℕ) (r : HttpResponse)
    → is_retryable_ingestion_error (some (status_http_error service limit r))
      ≡ is_transient r.status_code
unfolding is_retryable_ingestion_error retryable
retryable-status service limit r = refl

retryable-wrapped :
    (context : Text) (e : GoError)
    → is_retryable_ingestion_error (some (wrapped context e))
      ≡ is_retryable_ingestion_error (some e)
unfolding is_retryable_ingestion_error
retryable-wrapped context e = refl

retryable-plain :
    (message : Text) → is_retryable_ingestion_error (some (plain_error message)) ≡ false
unfolding is_retryable_ingestion_error
retryable-plain message = refl

module _ {Float : Type 0} (limit : ℕ) (decode : Bytes → Result (List (List Float)))
    (syntax_error : (body : Bytes) (e : GoError)
      → decode body ≡ err e
      → is_retryable_ingestion_error (some e) ≡ false) where
  -- Why an embedding of `n` texts fails, by whether the worker tries again.
  abbrev pub FailsAs : ℕ → HttpResponse → GoError → Type 0
  FailsAs n r e =
      ((is_success r ≡ false)
        × (is_retryable_ingestion_error (some e) ≡ is_transient r.status_code))
      ⊎ ((is_success r ≡ true) × (is_retryable_ingestion_error (some e) ≡ false))

  abbrev pub Answers : ℕ → HttpResponse → Result (List (List Float)) → Type 0
  Answers n r (ok embeddings) =
      (is_success r ≡ true) × (decode (take limit r.body) ≡ ok embeddings) × (length embeddings ≡ n)
  Answers n r (err e) = FailsAs n r e

  counted-Answers :
      (n : ℕ) (r : HttpResponse) (decoded : Result (List (List Float)))
      → is_success r ≡ true
      → decode (take limit r.body) ≡ decoded
      → Answers n r (
          and_then
            (wrap_error (codes "decode ollama embedding response: ") decoded)
            (check_count limit decode n))
  counted-Answers n r (err e) s d = inr (
    s,
    retryable-wrapped (codes "decode ollama embedding response: ") e
        ∙ syntax_error (take limit r.body) e d,
  )
  counted-Answers n r (ok es) s d = elim (Bool-cases (length es == n)) [
    | inl same ↦ rw same (s, d, (==_iff (length es) n).0 same)
    | inr other ↦ rw other (inr (s, retryable-plain _))
  ]

  embeddings_in-Answers : (n : ℕ) (r : HttpResponse) → Answers n r (embeddings_in limit decode n r)
  unfolding embeddings_in
  embeddings_in-Answers n r = elim (Bool-cases (is_success r)) [
    | inl s ↦ rw s (counted-Answers n r (decode (take limit r.body)) s refl)
    | inr f ↦ rw f (inl (f, retryable-status embed_service limit r))
  ]

  -- With an answer of the server, and a decoder whose errors are not of a kind that is tried again:
  -- an embedding of at least one text succeeds only with a status of 2xx and as many embeddings as
  -- texts; the worker tries a job again after a status of 408, 429 or from 500 on, and after no
  -- other status and no answer that cannot be used.
  pub embed_within-Answers :
      (x : Exchange) (t : Text) (ts : List Text) {r : HttpResponse}
      → response_of (codes "ollama embed request: ") x ≡ ok r
      → Answers (length (t ∷ ts)) r (embed_within limit decode x (t ∷ ts))
  unfolding embed_within
  embed_within-Answers x t ts {r} e = rw e (embeddings_in-Answers (length (t ∷ ts)) r)

  -- A successful answer that is longer than what is read, for which the decoder refuses what is
  -- read, fails the embedding for good, whatever the rest of the answer holds.
  pub embed_cut :
      (x : Exchange) (t : Text) (ts : List Text) {r : HttpResponse}
      → response_of (codes "ollama embed request: ") x ≡ ok r
      → is_success r ≡ true
      → ((body : Bytes) → limit < length body → (e : GoError) × (decode (take limit body) ≡ err e))
      → limit < length r.body
      → (e : GoError) × (embed_within limit decode x (t ∷ ts) ≡ err e)
        × (is_retryable_ingestion_error (some e) ≡ false)
  unfolding embed_within embeddings_in
  embed_cut x t ts {r} h s refuses long =
      let (e, d) = refuses r.body long in
      (
        wrapped (codes "decode ollama embedding response: ") e,
        rw (h, s, d) refl,
        retryable-wrapped (codes "decode ollama embedding response: ") e
            ∙ syntax_error (take limit r.body) e d,
      )
