-- ===== src/Worker/Loop.antt =====
-- internal/rag/worker.go: `loop` and `waitForNextPoll`, over the table of jobs. Metrics, traces and
-- logs are left out.
pub mod Takes
use dong_rag.Base.{
  ℕ, ◌+◌, Bool, Option, none, some, List, [], ◌∷◌, leb, if◌then◌else◌, GoError, Result, ok, err,
}
use dong_rag.Store.Tables.{IngestionJob, Call}
use dong_rag.Store.Jobs.{Table, recover_expired_ingestion_jobs, claim_next_ingestion_job}
use dong_rag.Store.Queue.{Request, run}
use dong_rag.Worker.Retry.{IngestionWorker}
use dong_rag.Worker.Process.{IngestionService, Moment, Outcome, process}

-- What happens around one turn of the loop: the statements of others before it, the clock of the
-- worker at its beginning and after a recovery, the environments of the statements of the turn and
-- what others send between them.
pub record Turn : Type 0 where
  pub waited : List (Call × Request)
  -- `ctx.Err() != nil`
  pub stopping : Bool
  pub now : ℕ
  pub recover : Call
  pub recovered_at : ℕ
  pub between : List (Call × Request)
  pub claim : Call
  pub locked : IngestionJob → Bool
  pub moments : List Moment
  pub shutdown : Bool
  pub report : Call

-- `lastRecovery` and the table.
pub record Looping : Type 0 where
  pub last_recovery : ℕ
  pub table : Table

-- How a turn ends.
pub data Turned : Type 0 where
  stopped : Turned
  claim_error : GoError → Turned
  idle : Turned
  processed : IngestionJob → Outcome → Turned

-- `time.Since(lastRecovery) >= w.RecoveryInterval`
abbrev pub is_due : IngestionWorker → ℕ → ℕ → Bool
is_due w now last = leb (last + w.recovery_interval) now

-- A recovery that fails is logged, and counts.
unfoldable pub recover_if_due : IngestionWorker → Turn → Looping → Looping
unfolding recover_expired_ingestion_jobs
recover_if_due w e s =
    if is_due w e.now s.last_recovery
    then record {
      last_recovery = e.recovered_at;
      table = (recover_expired_ingestion_jobs e.recover s.table).1;
    }
    else s

unfoldable pub process_claimed :
    IngestionWorker
    → IngestionService
    → Turn
    → Result (Option IngestionJob)
    → Table
    → Turned × Table
unfolding process
process_claimed w v e (err x) t = (claim_error x, t)
process_claimed w v e (ok none) t = (idle, t)
process_claimed w v e (ok (some job)) t =
    let (outcome, t') = process w v job e.moments e.shutdown e.report t in
    (processed job outcome, t')

unfoldable pub claim_and_process :
    IngestionWorker → IngestionService → Turn → Table → Turned × Table
unfolding claim_next_ingestion_job process_claimed
claim_and_process w v e t =
    let (claimed, t') = claim_next_ingestion_job e.claim e.locked w.worker_id w.lease_duration t in
    process_claimed w v e claimed t'

unfoldable pub turn : IngestionWorker → IngestionService → Turn → Looping → Turned × Looping
unfolding run recover_if_due claim_and_process
turn w v e s =
    let s1 = record s { table = run s.table e.waited } in
    if e.stopping
    then (stopped, s1)
    else let s2 = recover_if_due w e s1 in
      let (turned, t) = claim_and_process w v e (run s2.table e.between) in
      (turned, record s2 { table = t })

-- The loop returns at the turn that sees its context done.
unfoldable pub loop :
    IngestionWorker → IngestionService → List Turn → Looping → List Turned × Looping
unfolding turn
loop w v [] s = ([], s)
loop w v (e ∷ es) s =
    let (turned, s') = turn w v e s in
    let (rest, s2) = loop w v es s' in if e.stopping then (turned ∷ [], s') else (turned ∷ rest, s2)
