-- ===== src/Worker/Loop/Takes.antt =====
-- internal/rag/worker.go: a turn of the loop takes up work that is there, also that of a worker
-- which has gone.
use dong_rag.Store.Queue.{run}
use dong_rag.Base.{
  ℕ, ◌≤◌, ◌≡◌, refl, ap, ◌∙◌, ◌≢◌, inl, inr, Bool, true, false, ◌||◌, none, some, List, [], ◌∷◌,
  arith, Bool-cases, Option-cases, any, keep, update_where, ok, Text,
}
use dong_rag.Store.Tables.{IngestionJob, Call}
use dong_rag.Store.Jobs.{
  Table, is_expired, requeue, recover_expired_ingestion_jobs, is_available, earliest, lease,
  claim_next_ingestion_job,
}
use dong_rag.Worker.Retry.{IngestionWorker}
use dong_rag.Worker.Process.{IngestionService, Outcome, process}
use dong_rag.Worker.Loop.{
  Turn, Looping, processed, is_due, recover_if_due, process_claimed, claim_and_process, turn,
}

earliest-cons-ne-none : (j : IngestionJob) (js : List IngestionJob) → earliest (j ∷ js) ≢ none
unfolding earliest
earliest-cons-ne-none j js e = ground arith

-- A job that may be claimed is there.
earliest-ne-none :
    (p : IngestionJob → Bool) (t : Table) → any p t ≡ true → earliest (keep p t) ≢ none
unfolding keep
earliest-ne-none p [] h e = cc
earliest-ne-none p (j ∷ t) h e = elim (Bool-cases (p j)) [
  | inl y ↦ earliest-cons-ne-none j (keep p t) (rw y at e)
  | inr n ↦ earliest-ne-none p t (ground (arith, h, n)) (rw n at e)
]

-- A job that is queued and due, or whose lease has ended.
abbrev pub is_open : (IngestionJob → Bool) → ℕ → IngestionJob → Bool
is_open locked now j = is_available locked now j || is_expired now j

-- After a recovery it may be claimed.
any-recovered :
    (locked : IngestionJob → Bool) (now later : ℕ) (t : Table)
    → ((j : IngestionJob) → locked j ≡ false)
    → now ≤ later
    → any (is_open locked now) t ≡ true
    → any (is_available locked later) (update_where (is_expired now) (requeue now) t) ≡ true
unfolding update_where is_available is_expired requeue
any-recovered locked now later [] u l h = cc
any-recovered locked now later (j ∷ t) u l h =
    ground (arith, u j, u (requeue now j), h, any-recovered locked now later t u l)

claim_some :
    (c : Call) (locked : IngestionJob → Bool) (worker_id : Text) (duration : ℕ) (t : Table)
    → c.fault ≡ none
    → any (is_available locked c.now) t ≡ true
    → (job : IngestionJob) × ((claim_next_ingestion_job c locked worker_id duration t).0
        ≡ ok (some job))
unfolding claim_next_ingestion_job
claim_some c locked worker_id duration t o h =
    elim (Option-cases (earliest (keep (is_available locked c.now) t))) [
      | inl gone ↦ absurd (earliest-ne-none (is_available locked c.now) t h gone)
      | inr (j, there) ↦ (lease c.now worker_id duration j, ground (arith, there, o))
    ]

-- The table as the claim of the turn finds it.
abbrev found : IngestionWorker → Turn → Looping → Table
found w e s = run (recover_if_due w e (record s { table = run s.table e.waited })).table e.between

-- How the turn ends if its claim returns `job`.
abbrev outcome_of : IngestionWorker → IngestionService → Turn → Looping → IngestionJob → Outcome
outcome_of w v e s job =
    (process w v job e.moments e.shutdown e.report
      (claim_next_ingestion_job e.claim e.locked w.worker_id w.lease_duration (found w e s)).1).0

turn_processes :
    (w : IngestionWorker) (v : IngestionService) (e : Turn) (s : Looping) (job : IngestionJob)
    → e.stopping ≡ false
    → (claim_next_ingestion_job e.claim e.locked w.worker_id w.lease_duration (found w e s)).0
      ≡ ok (some job)
    → (turn w v e s).0 ≡ processed job (outcome_of w v e s job)
unfolding turn claim_and_process
turn_processes w v e s job n h =
    let t =
      (claim_next_ingestion_job e.claim e.locked w.worker_id w.lease_duration (found w e s)).1 in
    rw n (ap (λ r. (process_claimed w v e r t).0) h ∙ took)
  where
    took :
        (process_claimed w v e
          (ok (some job))
          (claim_next_ingestion_job e.claim e.locked w.worker_id w.lease_duration
            (found w e s)).1).0
        ≡ processed job (outcome_of w v e s job)
    took = unfold process_claimed in refl

-- What the claim finds if a recovery is due and nobody else comes between.
found_recovered :
    (w : IngestionWorker) (e : Turn) (s : Looping)
    → e.recover.fault ≡ none
    → e.between ≡ []
    → is_due w e.now s.last_recovery ≡ true
    → found w e s
      ≡ update_where (is_expired e.recover.now) (requeue e.recover.now) (run s.table e.waited)
unfolding run recover_if_due recover_expired_ingestion_jobs
found_recovered w e s o b d = ground (arith, o, b, d)

-- A turn that begins before the worker stops, at which a recovery is due and nobody else sends a
-- statement between the recovery and the claim or holds a row locked, takes up a job and processes
-- it, if there is a job that is queued and due or one whose lease has ended, and PostgreSQL answers
-- both statements.
pub turn_takes :
    (w : IngestionWorker) (v : IngestionService) (e : Turn) (s : Looping)
    → e.stopping ≡ false
    → e.recover.fault ≡ none
    → e.claim.fault ≡ none
    → e.between ≡ []
    → ((j : IngestionJob) → e.locked j ≡ false)
    → e.recover.now ≤ e.claim.now
    → is_due w e.now s.last_recovery ≡ true
    → any (is_open e.locked e.recover.now) (run s.table e.waited) ≡ true
    → (job : IngestionJob) × (outcome : Outcome) × ((turn w v e s).0 ≡ processed job outcome)
turn_takes w v e s n o o' b u l d h =
    let (job, claimed) = claim_some e.claim e.locked w.worker_id w.lease_duration (found w e s) o' (
      rw (found_recovered w e s o b d)
        (any-recovered e.locked e.recover.now e.claim.now (run s.table e.waited) u l h)) in
    (job, outcome_of w v e s job, turn_processes w v e s job n claimed)
