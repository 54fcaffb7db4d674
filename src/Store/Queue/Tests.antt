-- ===== src/Store/Queue/Tests.antt =====
-- The theorems on the queue at two jobs, two workers and their statements.
use dong_rag.Store.Queue.Claim.{claim_earliest, claim_exclusive}
use dong_rag.Store.Queue.Reply.{Answers, Completes, replies, recover_fences}
use dong_rag.Base.{
  ℕ, ◌≡◌, refl, ◌≢◌, Bool, true, false, none, some, List, [], ◌∷◌, arith, if◌then◌else◌, All, keep,
  count_where, find_where, update_where, ok, Text, text_eq, text_lt,
}
use dong_rag.Store.Tables.{queued, processing, IngestionJob, Call}
use dong_rag.Store.Jobs.{
  Table, new_job, create_ingestion_job, is_expired, requeue, recover_expired_ingestion_jobs,
  is_available, before, earliest, lease, claim_next_ingestion_job, is_held, is_owned, extend,
  renew_ingestion_job_lease, complete_ingestion_job, give_back, fail_ingestion_job,
  release_ingestion_job,
}
use dong_rag.Store.Queue.{Request, creates, recovers, claims, deletes, step, run, row}
use dong_rag.Store.Queue.Valid.{IsValid, step-IsValid, run-empty-IsValid}
use dong_rag.Store.Queue.Owner.{Stands, Foreign, run_owned}

abbrev pub calm : ℕ → Call
calm n = record { now = n; has_document = λ _. true; fault = none }

abbrev pub unlocked : IngestionJob → Bool
unlocked j = false

-- A job that is queued at the time 0.
abbrev pub fresh : Text → IngestionJob
fresh id = record {
  id = id;
  name = 110 ∷ [];
  content_type = 116 ∷ [];
  reindex = false;
  status = queued;
  attempts = 0;
  retry_count = 0;
  error_message = [];
  document_id = none;
  next_attempt_at = 0;
  lease_until = none;
  worker_id = [];
  created_at = 0;
  updated_at = 0;
  payload = 112 ∷ [];
  trace_context = [];
}

abbrev pub creation : Text → Call × Request
creation id = (calm 0, creates id (110 ∷ []) (116 ∷ []) (112 ∷ []) [] false [])

abbrev pub two_jobs : Table
two_jobs = fresh (1 ∷ []) ∷ fresh (2 ∷ []) ∷ []

-- The first job, leased at the time 5 to the worker 7 for a millisecond.
abbrev pub leased : IngestionJob
leased = record (fresh (1 ∷ [])) {
  status = processing;
  attempts = 1;
  lease_until = some 1005;
  worker_id = 7 ∷ [];
  updated_at = 5;
}

abbrev pub after_claim : Table
after_claim = leased ∷ fresh (2 ∷ []) ∷ []

run-empty-IsValid_example : IsValid (run [] (creation (1 ∷ []) ∷ creation (2 ∷ []) ∷ []))
run-empty-IsValid_example = run-empty-IsValid (creation (1 ∷ []) ∷ creation (2 ∷ []) ∷ [])

pub two_jobs-IsValid : IsValid two_jobs
unfolding run step create_ingestion_job new_job text_eq
two_jobs-IsValid = run-empty-IsValid (creation (1 ∷ []) ∷ creation (2 ∷ []) ∷ [])

pub after_claim-IsValid : IsValid after_claim
unfolding step claim_next_ingestion_job earliest keep is_available lease update_where before text_lt
    text_eq
after_claim-IsValid =
    step-IsValid two_jobs (calm 5, claims unlocked (7 ∷ []) 1000000) two_jobs-IsValid

-- What others send while the lease runs.
abbrev pub others_requests : List (Call × Request)
others_requests =
    (calm 900, recovers)
    ∷ (calm 901, claims unlocked (8 ∷ []) 1000000)
    ∷ (calm 902, deletes (3 ∷ []))
    ∷ []

pub others_in_time : All (Foreign 1005 (7 ∷ [])) others_requests
others_in_time = ((omega arith, λ e. cc), ((omega arith, λ e. cc), ((omega arith, λ e. cc), tt)))

run_owned_example : Stands (1 ∷ []) leased (run after_claim others_requests)
unfolding find_where text_eq is_held
run_owned_example =
    run_owned after_claim others_requests (1 ∷ []) (7 ∷ []) 1005 after_claim-IsValid refl refl refl
      others_in_time

claim_earliest_example :
    (i : IngestionJob) × (row i.id two_jobs ≡ some i)
    × (is_available unlocked 5 i ≡ true)
    × All (λ k. is_available unlocked 5 k ≡ true → before k i ≡ false) two_jobs
    × (leased ≡ lease 5 (7 ∷ []) 1000000 i)
    × ((id : Text)
        → row id (claim_next_ingestion_job (calm 5) unlocked (7 ∷ []) 1000000 two_jobs).1
          ≡ (if text_eq i.id id then some leased else row id two_jobs))
unfolding claim_next_ingestion_job earliest keep is_available lease update_where before text_lt
    text_eq
claim_earliest_example =
    claim_earliest (calm 5) unlocked (7 ∷ []) 1000000 two_jobs two_jobs-IsValid.distinct refl

claim_exclusive_example : (fresh (2 ∷ [])).id ≢ leased.id
unfolding claim_next_ingestion_job earliest keep is_available lease update_where before text_lt
    text_eq run step recover_expired_ingestion_jobs is_expired count_where
claim_exclusive_example =
    claim_exclusive (calm 5) unlocked (7 ∷ []) 1000000 two_jobs ((calm 900, recovers) ∷ [])
      (calm 902) unlocked (9 ∷ []) 1000000 two_jobs-IsValid refl ((omega arith, λ e. cc), tt) refl

replies_example :
    Answers
      (1 ∷ [])
      (is_owned 900 (1 ∷ []) (7 ∷ []))
      (extend 900 1000000)
      after_claim
      (renew_ingestion_job_lease (calm 900) (1 ∷ []) (7 ∷ []) 1000000 after_claim)
    × Completes
        (calm 900)
        (1 ∷ [])
        (7 ∷ [])
        (3 ∷ [])
        after_claim
        (complete_ingestion_job (calm 900) (1 ∷ []) (7 ∷ []) (3 ∷ []) after_claim)
    × Answers
        (1 ∷ [])
        (is_owned 900 (1 ∷ []) (7 ∷ []))
        (give_back 900 (4 ∷ []) true 1000000)
        after_claim
        (fail_ingestion_job (calm 900) (1 ∷ []) (7 ∷ []) (4 ∷ []) true 1000000 after_claim)
    × Answers
        (1 ∷ [])
        (is_held (1 ∷ []) (7 ∷ []))
        (requeue 900)
        after_claim
        (release_ingestion_job (calm 900) (1 ∷ []) (7 ∷ []) after_claim)
replies_example =
    replies (calm 900) (1 ∷ []) (7 ∷ []) (3 ∷ []) (4 ∷ []) true 1000000 1000000 after_claim refl
      after_claim-IsValid.distinct

-- The document of a job is deleted, and another recovery.
abbrev after_recovery : List (Call × Request)
after_recovery = (calm 2000, deletes (3 ∷ [])) ∷ (calm 2001, recovers) ∷ []

-- The table after a recovery at the time 2000 and what follows it.
abbrev recovered : Table
recovered = run (recover_expired_ingestion_jobs (calm 2000) after_claim).1 after_recovery

recover_fences_example :
    Stands (1 ∷ []) (requeue 2000 leased) recovered
    × (renew_ingestion_job_lease (calm 2001) (1 ∷ []) (7 ∷ []) 1000000 recovered
        ≡ (ok false, recovered))
    × (complete_ingestion_job (calm 2001) (1 ∷ []) (7 ∷ []) (3 ∷ []) recovered
        ≡ (ok false, recovered))
    × (fail_ingestion_job (calm 2001) (1 ∷ []) (7 ∷ []) (4 ∷ []) true 1000000 recovered
        ≡ (ok false, recovered))
    × (release_ingestion_job (calm 2001) (1 ∷ []) (7 ∷ []) recovered ≡ (ok false, recovered))
unfolding find_where text_eq is_expired
recover_fences_example =
    recover_fences (calm 2000) (calm 2001) (1 ∷ []) (7 ∷ []) (3 ∷ []) (4 ∷ []) true 1000000 1000000
      after_claim after_recovery refl refl after_claim-IsValid refl refl (refl, (refl, tt))
