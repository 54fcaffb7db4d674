-- ===== src/Store/Queue.antt =====
-- The durable queue of internal/store/store.go as a machine: the statements that workers and
-- servers send to `ingestion_jobs`, and those on `documents` that change its rows, in the order in which PostgreSQL runs them.
pub mod Rows
pub mod Valid
pub mod Update
pub mod Owner
pub mod Claim
pub mod Reply
pub mod Counts
pub mod Tests
use dong_rag.Base.{ℕ, Bool, Option, none, some, List, [], ◌∷◌, find_where, Text}
use dong_rag.Store.Tables.{IngestionJob, Call}
use dong_rag.Store.Jobs.{
  Table, has_id, create_ingestion_job, recover_expired_ingestion_jobs, claim_next_ingestion_job,
  renew_ingestion_job_lease, complete_ingestion_job, fail_ingestion_job, release_ingestion_job,
  unlink_document,
}

pub data Request : Type 0 where
  creates : Text → Text → Text → Text → Text → Bool → List (Text × Text) → Request
  recovers : Request
  claims : (IngestionJob → Bool) → Text → ℕ → Request
  renews : Text → Text → ℕ → Request
  completes : Text → Text → Text → Request
  fails : Text → Text → Text → Bool → ℕ → Request
  releases : Text → Text → Request
  -- DeleteDocument, on the table of documents.
  deletes : Text → Request

-- The worker that sends a request, if one does.
abbrev pub sender : Request → Option Text
sender (claims locked worker_id duration) = some worker_id
sender (renews id worker_id duration) = some worker_id
sender (completes id worker_id document_id) = some worker_id
sender (fails id worker_id message retry delay) = some worker_id
sender (releases id worker_id) = some worker_id
sender _ = none

unfoldable pub step : Table → Call × Request → Table
unfolding create_ingestion_job recover_expired_ingestion_jobs claim_next_ingestion_job
    renew_ingestion_job_lease complete_ingestion_job fail_ingestion_job release_ingestion_job
    unlink_document
step t (c, creates id name content_type payload document_id reindex trace_context) =
    (create_ingestion_job c id name content_type payload document_id reindex trace_context t).1
step t (c, recovers) = (recover_expired_ingestion_jobs c t).1
step t (c, claims locked worker_id duration) =
    (claim_next_ingestion_job c locked worker_id duration t).1
step t (c, renews id worker_id duration) = (renew_ingestion_job_lease c id worker_id duration t).1
step t (c, completes id worker_id document_id) =
    (complete_ingestion_job c id worker_id document_id t).1
step t (c, fails id worker_id message retry delay) =
    (fail_ingestion_job c id worker_id message retry delay t).1
step t (c, releases id worker_id) = (release_ingestion_job c id worker_id t).1
step t (c, deletes document_id) = (unlink_document c document_id t).1

unfoldable pub run : Table → List (Call × Request) → Table
run t [] = t
run t (e ∷ es) = run (step t e) es

-- The row of a job.
abbrev pub row : Text → Table → Option IngestionJob
row id t = find_where (has_id id) t
