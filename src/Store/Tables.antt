-- ===== src/Store/Tables.antt =====
-- internal/store/store.go: the rows of the three tables, and the environment of a statement.
-- A time is a number of microseconds, as in a TIMESTAMPTZ; a `time.Duration` is a number of
-- nanoseconds, and is never negative where the store is given one.
use dong_rag.Base.{ℕ, ◌+◌, ◌*◌, ◌/◌, Bool, Option, List, GoError, Text, Bytes}

pub record Document : Type 0 where
  pub id : Text
  pub name : Text
  pub content_type : Text
  pub size_bytes : ℕ
  pub checksum : Text
  pub created_at : ℕ

-- The values that `Metadata map[string]any` holds in this program: texts, numbers, lists of texts
-- and the `[]any` that JSON gives for such a list, where `none` is an element that is no text; and
-- any other, as `%v` prints it.
pub data Value : Type 0 where
  string_value : Text → Value
  int_value : ℕ → Value
  strings_value : List Text → Value
  anys_value : List (Option Text) → Value
  other_value : Text → Value

abbrev pub Metadata : Type 0
Metadata = List (Text × Value)

-- The type `Float` stands for Go's float32 and float64.
pub record Chunk (Float : Type 0) : Type 0 where
  pub id : Text
  pub document_id : Text
  pub ordinal : ℕ
  pub content : Text
  pub metadata : Metadata
  pub embedding : List Float

pub data Status : Type 0 where
  queued processing completed failed : Status

pub record IngestionJob : Type 0 where
  pub id : Text
  pub name : Text
  pub content_type : Text
  pub reindex : Bool
  pub status : Status
  pub attempts : ℕ
  pub retry_count : ℕ
  pub error_message : Bytes
  -- NULL is `none`, where the Go record has the empty text.
  pub document_id : Option Text
  pub next_attempt_at : ℕ
  pub lease_until : Option ℕ
  pub worker_id : Text
  pub created_at : ℕ
  pub updated_at : ℕ
  pub payload : Bytes
  pub trace_context : List (Text × Text)

-- The database's clock when a statement runs, whether a document of an id stands in `documents`
-- then, and the error that the driver reports in place of running it.
pub record Call : Type 0 where
  pub now : ℕ
  pub has_document : Text → Bool
  pub fault : Option GoError

-- `leaseDuration.Milliseconds()`, and `now() + $n * interval '1 millisecond'`.
abbrev pub milliseconds : ℕ → ℕ
milliseconds d = d / 1000000

abbrev pub after : ℕ → ℕ → ℕ
after now ms = now + 1000 * ms
