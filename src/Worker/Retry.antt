-- ===== src/Worker/Retry.antt =====
-- internal/rag/worker.go: the worker's settings, and what it does about an error.
use dong_rag.Base.{
  ℕ, zero, suc, ◌*◌, ◌<◌, min, ◌≡◌, inl, inr, Bool, true, false, ◌&&◌, ◌||◌, Option, none, some,
  List, [], ◌∷◌, ◌++◌, append-nil, arith, ltb, leb, if◌then◌else◌, Bool-cases, length, take, drop,
  length-take, take-append-drop, ℤ, pos, pos_part, ltb_ℤ, leb_ℤ, GoError, Text, Bytes, codes,
  text_eq,
}
use dong_rag.Store.Tables.{IngestionJob}

-- Durations are in nanoseconds.
pub record IngestionWorker : Type 0 where
  pub worker_id : Text
  pub lease_duration : ℕ
  pub poll_interval : ℕ
  pub recovery_interval : ℕ
  pub job_timeout : ℕ
  pub retry_delays : List ℕ

abbrev pub second : ℕ
second = 1_000_000_000

abbrev pub default_retry_delays : List ℕ
default_retry_delays = second ∷ (5 * second) ∷ (20 * second) ∷ (60 * second) ∷ []

-- `worker_id` is what `newID("worker")` drew.
unfoldable pub new_ingestion_worker : Text → IngestionWorker
new_ingestion_worker worker_id = record {
  worker_id = worker_id;
  lease_duration = 120 * second;
  poll_interval = 500 * 1_000_000;
  recovery_interval = 15 * second;
  job_timeout = 600 * second;
  retry_delays = default_retry_delays;
}

unfoldable pub one_of : Bytes → List Bytes → Bool
one_of c [] = false
one_of c (x ∷ xs) = text_eq c x || one_of c xs

abbrev transient_codes : List Bytes
transient_codes =
    codes "23505"
    ∷ codes "40001"
    ∷ codes "40P01"
    ∷ codes "55P03"
    ∷ codes "57P01"
    ∷ codes "57P02"
    ∷ codes "57P03"
    ∷ []

-- The `switch` on the SQLSTATE and the line below it.
unfoldable pub is_transient_code : Bytes → Bool
unfolding one_of text_eq
is_transient_code c =
    if one_of c transient_codes
    then true
    else leb 2 (length c) && (text_eq (take 2 c) (codes "08") || text_eq (take 2 c) (codes "53"))

unfoldable pub is_retryable_ingestion_error : Option GoError → Bool
unfolding is_transient_code
is_retryable_ingestion_error none = false
is_retryable_ingestion_error (some e) =
    if e.is_canceled then false else if e.is_deadline then true else elim e.marked [
      | some b ↦ b
      | none ↦
          if e.is_network
          then true
          else if e.safe_to_retry || e.timed_out
          then true
          else elim e.pg_code [ none ↦ false | some c ↦ is_transient_code c ]
    ]

-- `message[:maxBytes]`
unfoldable pub truncate_error : Bytes → ℤ → Bytes
truncate_error message max_bytes =
    if ltb_ℤ max_bytes (pos 1) || leb_ℤ (pos (length message)) max_bytes
    then message
    else take (pos_part max_bytes) message

abbrev pub get_or : List ℕ → ℕ → ℕ → ℕ
get_or [] i d = d
get_or (x ∷ xs) zero d = x
get_or (x ∷ xs) (suc i) d = get_or xs i d

-- Whether a failed job is retried, and after which delay.
unfoldable pub retries : IngestionWorker → IngestionJob → Option GoError → Bool × ℕ
unfolding is_retryable_ingestion_error
retries w job e =
    let retry = is_retryable_ingestion_error e && ltb job.retry_count (length w.retry_delays) in
    (retry, if retry then get_or w.retry_delays job.retry_count 0 else 0)

-- A truncated message is a prefix of the message, within a positive limit, and is the whole of a
-- message that fits.
pub truncate_error_lem :
    (m : Bytes) (n : ℕ)
    → 0 < n
    → (length (truncate_error m (pos n)) ≡ min (length m) n)
      × ((rest : Bytes) × (truncate_error m (pos n) ++ rest ≡ m))
unfolding truncate_error
truncate_error_lem m n h = elim (Bool-cases (leb (length m) n)) [
  | inl fits ↦ (ground (arith, fits), ([], ground (arith, fits, append-nil m)))
  | inr longer ↦ (
    ground (arith, longer, length-take n m),
    (drop n m, ground (arith, longer, take-append-drop n m)),
  )
]
