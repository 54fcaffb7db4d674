-- ===== src/Worker/Process.antt =====
-- internal/rag/worker.go: `process`, `index`, `heartbeat` and `release` of a claimed job.
use dong_rag.Base.{
  ℕ, Bool, true, false, Option, none, some, List, [], ◌∷◌, ◌++◌, ◌==◌, if◌then◌else◌, length, pos,
  GoError, plain_error, Result, ok, err, Text, Bytes, codes,
}
use dong_rag.Store.Tables.{Document, IngestionJob, Call}
use dong_rag.Store.Jobs.{
  Table, renew_ingestion_job_lease, complete_ingestion_job, fail_ingestion_job,
  release_ingestion_job,
}
use dong_rag.Store.Queue.{Request, step}
use dong_rag.Worker.Retry.{IngestionWorker, truncate_error, retries}

-- `ingestionService`: what the worker calls to index a document.
pub record IngestionService : Type 0 where
  pub index_document : Text → Text → Bytes → Document × Option GoError
  pub reindex_document : Text → Text → Bytes → Option GoError
  pub reindex_stored_chunks : Text → Option GoError

-- `COALESCE(j.document_id, '')`
abbrev document_id_or_empty : Option Text → Text
document_id_or_empty none = []
document_id_or_empty (some d) = d

unfoldable pub index : IngestionService → IngestionJob → Text × Option GoError
index s job =
    let id = document_id_or_empty job.document_id in
    if job.reindex
    then (
      id,
      if length job.payload == 0
          then s.reindex_stored_chunks id
          else s.reindex_document id job.name job.payload,
    )
    else let (document, e) = s.index_document job.name job.content_type job.payload in
      (document.id, e)

-- What happens to the table while the job is indexed: the heartbeat's ticker fires, where the
-- context may be done when the renewal returns, or PostgreSQL runs a statement of someone else.
pub data Moment : Type 0 where
  beat : Call → Bool → Moment
  foreign : Call × Request → Moment

-- The statements of others that follow once the heartbeat has returned.
pub others : List Moment → Table → Table
others [] t = t
others (beat c ended ∷ ms) t = others ms t
others (foreign e ∷ ms) t = others ms (step t e)

abbrev lost_lease : GoError
lost_lease = plain_error (codes "lease is no longer owned by this worker")

-- `fmt.Errorf("renew lease: %w", err)`
abbrev renew_error : GoError → GoError
renew_error e = record e { message = codes "renew lease: " ++ e.message }

-- The error that the heartbeat sends to `done`. It returns nil once its context is done.
unfoldable pub heartbeat : IngestionWorker → Text → List Moment → Table → Option GoError × Table
unfolding renew_ingestion_job_lease others
heartbeat w id [] t = (none, t)
heartbeat w id (foreign e ∷ ms) t = heartbeat w id ms (step t e)
heartbeat w id (beat c ended ∷ ms) t =
    let (reply, t') = renew_ingestion_job_lease c id w.worker_id w.lease_duration t in
    elim reply [
      | err e ↦ if ended then (none, others ms t') else (some (renew_error e), others ms t')
      | ok true ↦ heartbeat w id ms t'
      | ok false ↦ (some lost_lease, others ms t')
    ]

pub data Outcome : Type 0 where
  released : Result Bool → Outcome
  complete_error : GoError → Outcome
  complete_rejected : Outcome
  completed_as : Text → Outcome
  failure_error : GoError → Outcome
  failure_rejected : Outcome
  retried : ℕ → Outcome
  gave_up : Outcome

-- `release(job.ID, reason)`
unfoldable pub release : IngestionWorker → Call → Text → Table → Outcome × Table
release w c id t = let (r, t') = release_ingestion_job c id w.worker_id t in (released r, t')

unfoldable pub completion : Text → Result Bool → Outcome
completion document_id (err e) = complete_error e
completion document_id (ok false) = complete_rejected
completion document_id (ok true) = completed_as document_id

unfoldable pub failure : Bool → ℕ → Result Bool → Outcome
failure retry delay (err e) = failure_error e
failure retry delay (ok false) = failure_rejected
failure retry delay (ok true) = if retry then retried delay else gave_up

abbrev error_text : Option GoError → Bytes
error_text none = []
error_text (some e) = e.message

-- What `process` does after the heartbeat has stopped: `shutdown` is `ctx.Err() != nil`, and `c`
-- the environment of its one statement.
unfoldable pub conclude :
    IngestionWorker
    → IngestionJob
    → Bool
    → Option GoError
    → Text × Option GoError
    → Call
    → Table
    → Outcome × Table
unfolding release completion failure retries truncate_error
conclude w job true heartbeat_error indexed c t = release w c job.id t
conclude w job false (some lost) indexed c t = release w c job.id t
conclude w job false none (document_id, none) c t =
    let (r, t') = complete_ingestion_job c job.id w.worker_id document_id t in
    (completion document_id r, t')
conclude w job false none (document_id, some e) c t =
    let (retry, delay) = retries w job (some e) in
    let message = truncate_error (error_text (some e)) (pos 4096) in
    let (r, t') = fail_ingestion_job c job.id w.worker_id message retry delay t in
    (failure retry delay r, t')

unfoldable pub process :
    IngestionWorker
    → IngestionService
    → IngestionJob
    → List Moment
    → Bool
    → Call
    → Table
    → Outcome × Table
unfolding heartbeat index conclude
process w s job ms shutdown c t =
    let indexed = index s job in
    let (heartbeat_error, t') = heartbeat w job.id ms t in
    conclude w job shutdown heartbeat_error indexed c t'
