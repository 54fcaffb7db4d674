-- ===== src/Worker/Tests.antt =====
-- The theorems on the worker at one job of a queue of two.
use dong_rag.Base.{
  ◌≡◌, refl, true, false, none, some, List, [], ◌∷◌, arith, keep, update_where, GoError,
  plain_error, codes, text_eq, text_lt,
}
use dong_rag.Store.Tables.{Document, IngestionJob, milliseconds, after}
use dong_rag.Store.Jobs.{
  Table, is_expired, recover_expired_ingestion_jobs, is_available, before, earliest, lease,
  claim_next_ingestion_job,
}
use dong_rag.Store.Queue.{recovers, run}
use dong_rag.Store.Queue.Tests.{calm, unlocked, two_jobs, leased, two_jobs-IsValid}
use dong_rag.Worker.Retry.{IngestionWorker, is_retryable_ingestion_error, retries}
use dong_rag.Worker.Process.{IngestionService, index, Moment, beat, foreign, Outcome, process}
use dong_rag.Worker.Lease.{InTime, CompletedAs, process_completes}
use dong_rag.Worker.Loop.{Turn, Looping, processed, turn}
use dong_rag.Worker.Loop.Takes.{turn_takes}
use dong_rag.Worker.Life.{
  Life, unstarted, already_started, start_once, start_after, start_worker, end_loop, ready, Lives,
  made, starts, ends, IsAlive, Lives-IsAlive, start_after_end,
}
use dong_rag.Worker.Attempts.{Retries, process_fails}

-- A worker with a lease of a millisecond, which retries once.
abbrev worker : IngestionWorker
worker = record {
  worker_id = 7 ∷ [];
  lease_duration = 1000000;
  poll_interval = 0;
  recovery_interval = 0;
  job_timeout = 0;
  retry_delays = 1000000 ∷ [];
}

abbrev stored : Document
stored = record {
  id = 3 ∷ [];
  name = [];
  content_type = [];
  size_bytes = 1;
  checksum = [];
  created_at = 6;
}

abbrev timed_out_error : GoError
timed_out_error = record (plain_error (codes "timeout")) { is_deadline = true }

-- A service that indexes every document, and one that always times out.
abbrev indexing : IngestionService
indexing = record {
  index_document = λ name content_type payload. (stored, none);
  reindex_document = λ id name payload. none;
  reindex_stored_chunks = λ id. none;
}

abbrev stuck : IngestionService
stuck = record {
  index_document = λ name content_type payload. (stored, some timed_out_error);
  reindex_document = λ id name payload. some timed_out_error;
  reindex_stored_chunks = λ id. some timed_out_error;
}

-- A renewal at the time 700, and a recovery that a server sends at the time 1200.
abbrev moments : List Moment
moments = beat (calm 700) false ∷ foreign (calm 1200, recovers) ∷ []

moments-InTime : InTime worker (after 5 (milliseconds worker.lease_duration)) moments
moments-InTime = (refl, omega arith, ((omega arith, λ e. cc), tt))

process_completes_example : CompletedAs leased (3 ∷ []) (
    process worker indexing leased moments false
      (calm 1400)
      (claim_next_ingestion_job (calm 5) unlocked (7 ∷ []) 1000000 two_jobs).1)
unfolding claim_next_ingestion_job earliest keep is_available lease update_where before text_lt
    text_eq index
process_completes_example =
    process_completes worker indexing unlocked (calm 5) (calm 1400) moments two_jobs (3 ∷ [])
      two_jobs-IsValid refl moments-InTime refl (omega arith) refl refl

process_fails_example : Retries worker leased timed_out_error 1400 (
    process worker stuck leased moments false
      (calm 1400)
      (claim_next_ingestion_job (calm 5) unlocked (7 ∷ []) 1000000 two_jobs).1)
unfolding claim_next_ingestion_job earliest keep is_available lease update_where before text_lt
    text_eq index is_retryable_ingestion_error retries
process_fails_example =
    process_fails worker stuck unlocked (calm 5) (calm 1400) moments two_jobs (3 ∷ [])
      timed_out_error two_jobs-IsValid refl moments-InTime refl (omega arith) refl

-- The table after the first round.
abbrev after_round : Table
after_round =
    (process worker stuck leased moments false (calm 1400)
      (claim_next_ingestion_job (calm 5) unlocked (7 ∷ []) 1000000 two_jobs).1).1

-- A turn that begins after the lease of the worker that has gone, and what the table holds then.
abbrev late_turn : Turn
late_turn = record {
  waited = [];
  stopping = false;
  now = 20;
  recover = calm 2000;
  recovered_at = 21;
  between = [];
  claim = calm 2001;
  locked = unlocked;
  moments = [];
  shutdown = false;
  report = calm 2002;
}

abbrev abandoned : Looping
abandoned = record { last_recovery = 3; table = leased ∷ [] }

turn_takes_example :
    (job : IngestionJob) × (outcome : Outcome) × ((turn worker indexing late_turn abandoned).0
      ≡ processed job outcome)
unfolding run is_available is_expired
turn_takes_example =
    turn_takes worker indexing late_turn abandoned refl refl refl refl (λ j. refl) (omega arith)
      refl refl

abbrev running_once : Life
running_once = (start_worker true (calm 0) unstarted []).0.1

gone : Lives (end_loop running_once)
unfolding start_worker start_after start_once recover_expired_ingestion_jobs
gone = ends (starts made true (calm 0) []) (omega arith)

gone-IsAlive : IsAlive (end_loop running_once)
gone-IsAlive = Lives-IsAlive gone

gone_again :
    ((start_worker true (calm 9) (end_loop running_once) []).0.0 ≡ some already_started)
    × (ready (start_worker true (calm 9) (end_loop running_once) []).0.1 ≡ true)
    × ((start_worker true (calm 9) (end_loop running_once) []).0.1.loops ≡ 0)
unfolding end_loop start_worker start_after start_once recover_expired_ingestion_jobs
gone_again = start_after_end (calm 9) [] gone refl refl
