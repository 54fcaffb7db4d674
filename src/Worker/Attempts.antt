-- ===== src/Worker/Attempts.antt =====
-- internal/rag/worker.go: the attempts at a job whose indexing fails.
use dong_rag.Base.{
  ℕ, zero, suc, ◌+◌, ◌≤◌, min, ◌≡◌, refl, sym, ◌∙◌, ◌⊎◌, inl, inr, Bool, true, false, none, some,
  List, [], ◌∷◌, ◌++◌, arith, ltb, if◌then◌else◌, Bool-cases, length, get_elem?, pos, GoError, ok,
  Text, Bytes, text_eq_refl,
}
use dong_rag.Store.Tables.{queued, failed, IngestionJob, Call, milliseconds, after}
use dong_rag.Store.Jobs.{Table, claim_next_ingestion_job, give_back}
use dong_rag.Store.Queue.{fails, step, row}
use dong_rag.Store.Queue.Valid.{IsValid, step-IsValid}
use dong_rag.Store.Queue.Owner.{is_owned_of_lease}
use dong_rag.Store.Queue.Reply.{replies}
use dong_rag.Worker.Retry.{
  IngestionWorker, is_retryable_ingestion_error, truncate_error, get_or, retries,
  truncate_error_lem,
}
use dong_rag.Worker.Process.{
  IngestionService, index, Moment, Outcome, retried, gave_up, failure, conclude, process,
}
use dong_rag.Worker.Lease.{lease_end, InTime, Holds, process_rule, Concludes}

-- What the worker's own decision comes to.
abbrev FailedWith : IngestionJob → GoError → Bool → ℕ → ℕ → Outcome × Table → Type 0
FailedWith job x retry delay now =
    Concludes job (λ o. o ≡ (if retry then retried delay else gave_up))
      (λ j.
        (j.status ≡ (if retry then queued else failed))
        × (j.retry_count ≡ job.retry_count + (if retry then 1 else 0))
        × (retry ≡ true → j.next_attempt_at ≡ after now (milliseconds delay))
        × (j.error_message ≡ truncate_error x.message (pos 4096)))

fails_with :
    (w : IngestionWorker) (job : IngestionJob) (until : ℕ) (t : Table) (c : Call) (d : Text)
    (x : GoError)
    → c.fault ≡ none
    → c.now ≤ until
    → Holds w job until t
    → FailedWith job x
        (retries w job (some x)).0
        (retries w job (some x)).1
        c.now
        (conclude w job false none (d, some x) c t)
unfolding conclude
fails_with w job until t c d x o i h =
    let mine = is_owned_of_lease c.now until job.id w.worker_id h.held h.is_mine h.lasts i in
    let retry = (retries w job (some x)).0 in
    let delay = (retries w job (some x)).1 in
    let message = truncate_error x.message (pos 4096) in
    elim (replies c job.id w.worker_id [] message retry 0 delay t o h.valid.distinct).2 [
      | inl (j, e, y, r, rows) ↦
          let same : some j ≡ some h.held = sym e ∙ h.stands in
          (
            rw (r, failure),
            (
              give_back c.now message retry delay j,
              rows job.id ∙ rw (text_eq_refl job.id),
              (unfold give_back in
                  (refl, ground (arith, same, h.retry_count_kept), (λ y'. rw y'), refl)),
            ),
            (unfold step in
                step-IsValid t (c, fails job.id w.worker_id message retry delay) h.valid),
          )
      | inr (n, r, t') ↦ absurd (ground (arith, n h.held h.stands, mine))
    ]

process_decides :
    (w : IngestionWorker) (s : IngestionService) (locked : IngestionJob → Bool) (c c' : Call)
    (ms : List Moment) (t : Table) (d : Text) (x : GoError) {job : IngestionJob}
    → IsValid t
    → (claim_next_ingestion_job c locked w.worker_id w.lease_duration t).0 ≡ ok (some job)
    → InTime w (after c.now (milliseconds w.lease_duration)) ms
    → c'.fault ≡ none
    → c'.now ≤ lease_end w (after c.now (milliseconds w.lease_duration)) ms
    → index s job ≡ (d, some x)
    → FailedWith job x (retries w job (some x)).0 (retries w job (some x)).1 c'.now (
        process w s job ms false c'
          (claim_next_ingestion_job c locked w.worker_id w.lease_duration t).1)
process_decides w s locked c c' ms t d x {job} v e i o n f =
    process_rule (FailedWith job x (retries w job (some x)).0 (retries w job (some x)).1 c'.now) w s
      locked c c' ms t v e i f (λ u h. fails_with w job _ u c' d x o n h)

-- The error message of the row: the first 4096 bytes of the error's, or all of it.
abbrev pub IsCutOf : GoError → IngestionJob → Type 0
IsCutOf x j =
    (length j.error_message ≡ min (length x.message) 4096)
    × ((rest : Bytes) × (j.error_message ++ rest ≡ x.message))

-- The job waits for another attempt.
abbrev pub QueuedAgain : IngestionJob → GoError → ℕ → ℕ → Outcome × Table → Type 0
QueuedAgain job x delay now =
    Concludes job (λ o. o ≡ retried delay)
      (λ j.
        (j.status ≡ queued)
        × (j.retry_count ≡ suc job.retry_count)
        × (j.next_attempt_at ≡ after now (milliseconds delay))
        × IsCutOf x j)

abbrev pub GivenUp : IngestionJob → GoError → Outcome × Table → Type 0
GivenUp job x =
    Concludes job (λ o. o ≡ gave_up)
      (λ j. (j.status ≡ failed) × (j.retry_count ≡ job.retry_count) × IsCutOf x j)

-- A retry needs an error that may pass and a delay that stands at the job's retry count.
abbrev pub Retries : IngestionWorker → IngestionJob → GoError → ℕ → Outcome × Table → Type 0
Retries w job x now r =
    ((delay : ℕ) × (is_retryable_ingestion_error (some x) ≡ true)
      × (get_elem? w.retry_delays job.retry_count ≡ some delay)
      × QueuedAgain job x delay now r)
    ⊎ (((is_retryable_ingestion_error (some x) ≡ false)
          ⊎ (get_elem? w.retry_delays job.retry_count ≡ none))
        × GivenUp job x r)

delay_at : (ds : List ℕ) (n : ℕ) → ltb n (length ds) ≡ true → get_elem? ds n ≡ some (get_or ds n 0)
delay_at [] n h = absurd (ground (arith, h))
delay_at (d ∷ ds) zero h = refl
delay_at (d ∷ ds) (suc n) h = delay_at ds n (ground (arith, h))

no_delay_at : (ds : List ℕ) (n : ℕ) → ltb n (length ds) ≡ false → get_elem? ds n ≡ none
no_delay_at [] n h = refl
no_delay_at (d ∷ ds) zero h = absurd (ground (arith, h))
no_delay_at (d ∷ ds) (suc n) h = no_delay_at ds n (ground (arith, h))

cut_message :
    (x : GoError) (j : IngestionJob)
    → j.error_message ≡ truncate_error x.message (pos 4096)
    → IsCutOf x j
cut_message x j e = rw e (truncate_error_lem x.message 4096 (omega arith))

given_up :
    (job : IngestionJob) (x : GoError) (now delay : ℕ) (r : Outcome × Table)
    → FailedWith job x false delay now r
    → GivenUp job x r
given_up job x now delay r (o, (j, row_of, (st, n, due, m)), v) =
    (o, (j, row_of, (st, ground (arith, n), cut_message x j m)), v)

queued_again :
    (job : IngestionJob) (x : GoError) (now delay : ℕ) (r : Outcome × Table)
    → FailedWith job x true delay now r
    → QueuedAgain job x delay now r
queued_again job x now delay r (o, (j, row_of, (st, n, due, m)), v) =
    (o, (j, row_of, (st, ground (arith, n), due refl, cut_message x j m)), v)

decided :
    (w : IngestionWorker) (job : IngestionJob) (x : GoError) (now : ℕ) (r : Outcome × Table)
    → FailedWith job x (retries w job (some x)).0 (retries w job (some x)).1 now r
    → Retries w job x now r
unfolding retries
decided w job x now r h = elim (Bool-cases (is_retryable_ingestion_error (some x))) [
  | inr never ↦ inr (inl never, given_up job x now 0 r (rw never at h))
  | inl may ↦ elim (Bool-cases (ltb job.retry_count (length w.retry_delays))) [
    | inr out ↦ inr (
      inr (no_delay_at w.retry_delays job.retry_count out),
      given_up job x now 0 r (rw (may, out) at h),
    )
    | inl more ↦ inl (
      get_or w.retry_delays job.retry_count 0,
      may,
      delay_at w.retry_delays job.retry_count more,
      queued_again job x now (get_or w.retry_delays job.retry_count 0) r (rw (may, more) at h),
    )
  ]
]

-- In a valid table: a worker that claims a job, renews its lease in time, is not shut down, and
-- whose indexing fails, and whose report the database answers before the lease ends: if the error
-- is retryable and a delay stands at the job's retry count, the job is queued for that delay from
-- the time of the report on, with one more retry; else it has failed for good. Its error message is
-- the error's, cut to 4096 bytes.
pub process_fails :
    (w : IngestionWorker) (s : IngestionService) (locked : IngestionJob → Bool) (c c' : Call)
    (ms : List Moment) (t : Table) (d : Text) (x : GoError) {job : IngestionJob}
    → IsValid t
    → (claim_next_ingestion_job c locked w.worker_id w.lease_duration t).0 ≡ ok (some job)
    → InTime w (after c.now (milliseconds w.lease_duration)) ms
    → c'.fault ≡ none
    → c'.now ≤ lease_end w (after c.now (milliseconds w.lease_duration)) ms
    → index s job ≡ (d, some x)
    → Retries w job x c'.now (
        process w s job ms false c'
          (claim_next_ingestion_job c locked w.worker_id w.lease_duration t).1)
process_fails w s locked c c' ms t d x {job} v e i o n f =
    decided w job x c'.now _ (process_decides w s locked c c' ms t d x v e i o n f)

-- `n` rounds in which the worker claims the job, renews its lease in time, and its indexing fails
-- with a retryable error.
pub data Rounds (w : IngestionWorker) (s : IngestionService) (id : Text) (t : Table)
    : ℕ → Table → Type 0 where
  start : Rounds w s id t 0 t
  round :
      {n : ℕ} {u : Table} {job : IngestionJob}
      → Rounds w s id t n u
      → (locked : IngestionJob → Bool) (c c' : Call) (ms : List Moment) (d : Text) (x : GoError)
      → (claim_next_ingestion_job c locked w.worker_id w.lease_duration u).0 ≡ ok (some job)
      → job.id ≡ id
      → InTime w (after c.now (milliseconds w.lease_duration)) ms
      → c'.fault ≡ none
      → c'.now ≤ lease_end w (after c.now (milliseconds w.lease_duration)) ms
      → index s job ≡ (d, some x)
      → is_retryable_ingestion_error (some x) ≡ true
      → Rounds w s id t
          (suc n)
          (process w s job ms false c'
            (claim_next_ingestion_job c locked w.worker_id w.lease_duration u).1).1

-- Where a job stands after `n` such rounds, from `r` retries.
abbrev pub Stage : IngestionWorker → ℕ → ℕ → IngestionJob → Type 0
Stage w r n j =
    ((j.status ≡ queued) × (j.retry_count ≡ r + n) × (r + n ≤ length w.retry_delays))
    ⊎ ((j.status ≡ failed) × (r + n ≡ suc (length w.retry_delays)))

abbrev pub Progress : IngestionWorker → Text → ℕ → ℕ → Table → Type 0
Progress w id r n u = IsValid u × ((j : IngestionJob) × (row id u ≡ some j) × Stage w r n j)
