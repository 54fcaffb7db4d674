-- ===== src/Provider.antt =====
-- internal/provider: the clients of the models. An exchange with a server, up to the response, is a
-- parameter, and so is what encoding/json makes of a body.
pub mod Ollama
pub mod Bailian
pub mod Rerank
pub mod Embeds
pub mod Streams
pub mod Ranks
mod Tests
use dong_rag.Base.{
  ℕ, ◌/◌, Bool, ◌||◌, Option, none, some, ◌++◌, leb, ◌==◌, if◌then◌else◌, take, GoError,
  plain_error, Result, ok, err, Text, Bytes, codes, trim_space,
}

pub record HttpResponse : Type 0 where
  pub status_code : ℕ
  pub status : Text
  pub body : Bytes

-- The error of encoding the request, that of making it, and what the server answers.
pub record Exchange : Type 0 where
  pub marshal_fault : Option GoError
  pub request_fault : Option GoError
  pub sent : Result HttpResponse

-- `fmt.Errorf("…: %w", err)`
abbrev pub wrapped : Text → GoError → GoError
wrapped context e = record e { message = context ++ e.message }

abbrev pub wrap_error {ℓ} : {A : Type ℓ} → Text → Result A → Result A
wrap_error context (ok a) = ok a
wrap_error context (err e) = err (wrapped context e)

abbrev pub or_continue {ℓ} : {A : Type ℓ} → Option GoError → Result A → Result A
or_continue none r = r
or_continue (some e) r = err e

-- The response, or the error before it.
unfoldable pub response_of : Text → Exchange → Result HttpResponse
response_of context x =
    or_continue x.marshal_fault (or_continue x.request_fault (wrap_error context x.sent))

abbrev pub is_success : HttpResponse → Bool
is_success r = r.status_code / 100 == 2

-- HTTPError
pub record HttpError : Type 0 where
  pub service : Text
  pub error_status : Text
  pub error_code : ℕ
  pub error_body : Text

unfoldable pub http_error_text : HttpError → Text
http_error_text e = e.service ++ codes ": " ++ e.error_status ++ codes ": " ++ e.error_body

-- HTTPError.Retryable
unfoldable pub retryable : HttpError → Bool
retryable e = e.error_code == 408 || e.error_code == 429 || leb 500 e.error_code

-- A `*HTTPError` as an error, which `errors.As` finds by its method `Retryable`.
abbrev pub http_error : HttpError → GoError
http_error e = record (plain_error (http_error_text e)) { marked = some (retryable e) }

-- What `io.ReadAll(io.LimitReader(body, limit))` reads, without the white space around it.
abbrev pub body_text : ℕ → HttpResponse → Text
body_text limit r = trim_space (take limit r.body)

-- The error of a status that is not 2xx, where it is not an HTTPError.
abbrev pub status_error : Text → ℕ → HttpResponse → GoError
status_error service limit r =
    plain_error (service ++ codes ": " ++ r.status ++ codes ": " ++ body_text limit r)

-- The health checks that read the status only.
abbrev pub status_fault : Text → ℕ → Result HttpResponse → Option GoError
status_fault service limit (err e) = some e
status_fault service limit (ok r) =
    if is_success r then none else some (status_error service limit r)
