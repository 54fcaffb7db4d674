-- ===== src/Provider/Ollama.antt =====
-- internal/provider/ollama.go: OllamaEmbedder's Embed and Health.
use dong_rag.Base.{
  ℕ, ◌*◌, Bool, ◌||◌, Option, none, some, List, [], ◌∷◌, ◌++◌, ◌==◌, if◌then◌else◌, length, take,
  any, GoError, plain_error, Result, ok, err, and_then, Text, Bytes, codes, text_eq, decimal,
  has_prefix,
}
use dong_rag.Provider.{
  HttpResponse, Exchange, wrapped, wrap_error, response_of, is_success, http_error, body_text,
}

abbrev pub embed_service : Text
embed_service = codes "ollama embed"

abbrev pub status_http_error : Text → ℕ → HttpResponse → GoError
status_http_error service limit r = http_error record {
  service = service;
  error_status = r.status;
  error_code = r.status_code;
  error_body = body_text limit r;
}

module _ {Float : Type 0} (limit : ℕ) (decode : Bytes → Result (List (List Float))) where
  abbrev pub check_count : ℕ → List (List Float) → Result (List (List Float))
  check_count n embeddings =
      if length embeddings == n
      then ok embeddings
      else err (
          plain_error (
            codes "ollama returned "
            ++ decimal (length embeddings)
            ++ codes " embeddings for "
            ++ decimal n
            ++ codes " inputs"))

  unfoldable pub embeddings_in : ℕ → HttpResponse → Result (List (List Float))
  embeddings_in n r =
      if is_success r
      then and_then
          (wrap_error (codes "decode ollama embedding response: ") (decode (take limit r.body)))
          (check_count n)
      else err (status_http_error embed_service limit r)

  -- Embed, where at most `limit` bytes of the answer are read.
  unfoldable pub embed_within : Exchange → List Text → Result (List (List Float))
  unfolding response_of embeddings_in
  embed_within x [] = ok []
  embed_within x (t ∷ ts) =
      and_then (response_of (codes "ollama embed request: ") x) (embeddings_in (length (t ∷ ts)))

-- `4<<20`
unfoldable pub ollama_embed :
    {Float : Type 0}
    → (Bytes → Result (List (List Float)))
    → Exchange
    → List Text
    → Result (List (List Float))
unfolding embed_within
ollama_embed decode x texts = embed_within (4 * 1048576) decode x texts

pub record OllamaModel : Type 0 where
  pub name : Text
  pub model : Text

abbrev pub is_installed : Text → OllamaModel → Bool
is_installed wanted m =
    text_eq m.name wanted || (text_eq m.model wanted || has_prefix m.name (wanted ++ codes ":"))

abbrev pub listed_fault : Text → Result (List OllamaModel) → Option GoError
listed_fault wanted (err e) = some (wrapped (codes "decode ollama health response: ") e)
listed_fault wanted (ok models) =
    if any (is_installed wanted) models
    then none
    else some (
        plain_error
          (codes "ollama embedding model " ++ (34 ∷ wanted) ++ (34 ∷ codes " is not installed")))

abbrev pub models_fault :
    (Bytes → Result (List OllamaModel)) → Text → Result HttpResponse → Option GoError
models_fault decode wanted (err e) = some e
models_fault decode wanted (ok r) =
    if is_success r
    then listed_fault wanted (decode (take 1048576 r.body))
    else some (status_http_error (codes "ollama health") 1048576 r)

-- Health
unfoldable pub ollama_health :
    (Bytes → Result (List OllamaModel)) → Text → Exchange → Option GoError
unfolding response_of text_eq has_prefix
ollama_health decode wanted x =
    models_fault decode wanted (response_of (codes "ollama health request: ") x)
