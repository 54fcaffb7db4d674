-- ===== src/Worker/Lease.antt =====
-- internal/rag/worker.go against internal/store/store.go: a worker that renews its lease in time
-- keeps its job, and what becomes of the job.
use dong_rag.Store.Queue.Claim.{claim_held}
use dong_rag.Base.{
  ℕ, ◌≤◌, ◌≡◌, refl, sym, subst, ◌∙◌, inl, inr, Bool, true, false, Option, none, some, List, [],
  ◌∷◌, arith, GoError, ok, Text, text_eq_refl,
}
use dong_rag.Store.Tables.{completed, IngestionJob, Call, milliseconds, after}
use dong_rag.Store.Jobs.{
  Table, claim_next_ingestion_job, is_held, extend, renew_ingestion_job_lease, finish,
}
use dong_rag.Store.Queue.{Request, renews, completes, step, row}
use dong_rag.Store.Queue.Valid.{IsValid, claim-IsValid, step-IsValid}
use dong_rag.Store.Queue.Owner.{time, Kept-fields, step_owned, Foreign, is_owned_of_lease}
use dong_rag.Store.Queue.Reply.{replies}
use dong_rag.Worker.Retry.{IngestionWorker}
use dong_rag.Worker.Process.{
  IngestionService, index, Moment, beat, foreign, heartbeat, Outcome, completed_as, completion,
  conclude, process,
}

-- The end of the lease once the heartbeat's moments have passed.
abbrev pub lease_end : IngestionWorker → ℕ → List Moment → ℕ
lease_end w until [] = until
lease_end w until (foreign e ∷ ms) = lease_end w until ms
lease_end w until (beat c ended ∷ ms) = lease_end w (after c.now (milliseconds w.lease_duration)) ms

-- The database answers each renewal before the lease ends, and others send what they send before
-- it ends too.
abbrev pub InTime : IngestionWorker → ℕ → List Moment → Type 0
InTime w until [] = Unit {0}
InTime w until (foreign e ∷ ms) = Foreign until w.worker_id e × InTime w until ms
InTime w until (beat c ended ∷ ms) =
    (c.fault ≡ none) × (c.now ≤ until) × InTime w (after c.now (milliseconds w.lease_duration)) ms

-- What a worker knows of a job that it has claimed: all of the row but the times of the
-- lease and the document.
pub record Holds (w : IngestionWorker) (job : IngestionJob) (until : ℕ) (t : Table) : Type 0 where
  pub valid : IsValid t
  pub held : IngestionJob
  pub stands : row job.id t ≡ some held
  pub is_mine : is_held job.id w.worker_id held ≡ true
  pub lasts : held.lease_until ≡ some until
  pub retry_count_kept : held.retry_count ≡ job.retry_count

renew_Holds :
    (w : IngestionWorker) (job : IngestionJob) (until : ℕ) (t : Table) (c : Call)
    → c.fault ≡ none
    → c.now ≤ until
    → Holds w job until t
    → ((renew_ingestion_job_lease c job.id w.worker_id w.lease_duration t).0 ≡ ok true)
      × Holds w job
          (after c.now (milliseconds w.lease_duration))
          (renew_ingestion_job_lease c job.id w.worker_id w.lease_duration t).1
renew_Holds w job until t c o i h =
    let mine = is_owned_of_lease c.now until job.id w.worker_id h.held h.is_mine h.lasts i in
    elim (replies c job.id w.worker_id [] [] false w.lease_duration 0 t o h.valid.distinct).0 [
      | inl (j, e, y, r, rows) ↦
          let same : some j ≡ some h.held = sym e ∙ h.stands in
          (
            r,
            record {
              valid =
                  unfold step in
                  step-IsValid t (c, renews job.id w.worker_id w.lease_duration) h.valid;
              held = extend c.now w.lease_duration j;
              stands = rows job.id ∙ rw (text_eq_refl job.id);
              is_mine = unfold extend is_held in ground (arith, same, h.is_mine);
              lasts = unfold extend in refl;
              retry_count_kept = unfold extend in ground (arith, same, h.retry_count_kept);
            },
          )
      | inr (n, r, t') ↦ absurd (ground (arith, n h.held h.stands, mine))
    ]

Foreign-Holds :
    (w : IngestionWorker) (job : IngestionJob) (until : ℕ) (t : Table) (e : Call × Request)
    → Foreign until w.worker_id e
    → Holds w job until t
    → Holds w job until (step t e)
Foreign-Holds w job until t e f h =
    let (k, stands, kept) =
      step_owned t e job.id w.worker_id h.valid.distinct h.stands
        (is_owned_of_lease (time e) until job.id w.worker_id h.held h.is_mine h.lasts f.0) f.1 in
    let (same_held, same_lease, same_count, same_status) = Kept-fields job.id w.worker_id kept in
    record {
      valid = step-IsValid t e h.valid;
      held = k;
      stands = stands;
      is_mine = same_held ∙ h.is_mine;
      lasts = same_lease ∙ h.lasts;
      retry_count_kept = same_count ∙ h.retry_count_kept;
    }

-- A heartbeat that renews in time reports no error, and the worker holds the job up to the end of
-- the last lease.
pub heartbeat-Holds :
    (w : IngestionWorker) (job : IngestionJob) (until : ℕ) (ms : List Moment) (t : Table)
    → InTime w until ms
    → Holds w job until t
    → ((heartbeat w job.id ms t).0 ≡ none)
      × Holds w job (lease_end w until ms) (heartbeat w job.id ms t).1
unfolding heartbeat
heartbeat-Holds w job until [] t i h = (refl, h)
heartbeat-Holds w job until (foreign e ∷ ms) t i h =
    heartbeat-Holds w job until ms (step t e) i.1 (Foreign-Holds w job until t e i.0 h)
heartbeat-Holds w job until (beat c ended ∷ ms) t i h =
    let (r, h') = renew_Holds w job until t c i.0 i.1 h in
    let (r', h'') =
      heartbeat-Holds w job (after c.now (milliseconds w.lease_duration)) ms
        (renew_ingestion_job_lease c job.id w.worker_id w.lease_duration t).1 i.2 h' in
    rw (r, heartbeat) (r', h'')

-- A claim gives the worker its job.
pub claim_Holds :
    (w : IngestionWorker) (c : Call) (locked : IngestionJob → Bool) (t : Table) {job : IngestionJob}
    → IsValid t
    → (claim_next_ingestion_job c locked w.worker_id w.lease_duration t).0 ≡ ok (some job)
    → Holds w job
        (after c.now (milliseconds w.lease_duration))
        (claim_next_ingestion_job c locked w.worker_id w.lease_duration t).1
claim_Holds w c locked t {job} v e =
    let (r, h, l, q) = claim_held c locked w.worker_id w.lease_duration t v.distinct e in
    record {
      valid = claim-IsValid c locked w.worker_id w.lease_duration t v;
      held = job;
      stands = r;
      is_mine = h;
      lasts = l;
      retry_count_kept = refl;
    }

pair_path : {A B : Type 0} {a a' : A} {b b' : B} → a ≡ a' → b ≡ b' → ◌≡◌ {A = A × B} (a, b) (a', b')
pair_path p q = λ i. (p i, q i)

-- What holds of the conclusion of a job that is still held holds of the whole of `process`.
pub process_rule {κ} :
    (P : Outcome × Table → Type κ) (w : IngestionWorker) (s : IngestionService)
    (locked : IngestionJob → Bool) (c c' : Call) (ms : List Moment) (t : Table) {job : IngestionJob}
    {indexed : Text × Option GoError}
    → IsValid t
    → (claim_next_ingestion_job c locked w.worker_id w.lease_duration t).0 ≡ ok (some job)
    → InTime w (after c.now (milliseconds w.lease_duration)) ms
    → index s job ≡ indexed
    → ((u : Table)
        → Holds w job (lease_end w (after c.now (milliseconds w.lease_duration)) ms) u
        → P (conclude w job false none indexed c' u))
    → P (
        process w s job ms false c'
          (claim_next_ingestion_job c locked w.worker_id w.lease_duration t).1)
unfolding process
process_rule P w s locked c c' ms t {job} v e i x conclusion =
    let t' = (claim_next_ingestion_job c locked w.worker_id w.lease_duration t).1 in
    let (r, h) = heartbeat-Holds w job _ ms t' i (claim_Holds w c locked t v e) in
    subst (λ p. P (conclude w job false p.0 p.1 c' (heartbeat w job.id ms t').1))
      (pair_path (sym r) (sym x)) (conclusion (heartbeat w job.id ms t').1 h)

-- The worker's outcome, the row of the job, and the table.
abbrev pub Concludes :
    IngestionJob → (Outcome → Type 0) → (IngestionJob → Type 0) → Outcome × Table → Type 0
Concludes job O P (outcome, t') =
    O outcome × ((j : IngestionJob) × (row job.id t' ≡ some j) × P j) × IsValid t'

abbrev pub CompletedAs : IngestionJob → Text → Outcome × Table → Type 0
CompletedAs job document_id =
    Concludes job (λ o. o ≡ completed_as document_id)
      (λ j. (j.status ≡ completed) × (j.document_id ≡ some document_id))

conclude_completed :
    (w : IngestionWorker) (job : IngestionJob) (until : ℕ) (t : Table) (c : Call)
    (document_id : Text)
    → c.fault ≡ none
    → c.now ≤ until
    → c.has_document document_id ≡ true
    → Holds w job until t
    → CompletedAs job document_id (conclude w job false none (document_id, none) c t)
unfolding conclude
conclude_completed w job until t c document_id o i there h =
    let mine = is_owned_of_lease c.now until job.id w.worker_id h.held h.is_mine h.lasts i in
    elim (replies c job.id w.worker_id document_id [] false 0 0 t o h.valid.distinct).1 [
      | inr (j, e, y, other, gone, r, t') ↦ absurd (ground (arith, there, gone))
      | inl (inl (j, e, y, r, rows)) ↦ (
        rw (r, completion),
        (
          finish c.now document_id j,
          rows job.id ∙ rw (text_eq_refl job.id),
          (unfold finish in (refl, refl)),
        ),
        (unfold step in step-IsValid t (c, completes job.id w.worker_id document_id) h.valid),
      )
      | inl (inr (n, r, t')) ↦ absurd (ground (arith, n h.held h.stands, mine))
    ]

-- In a valid table: a worker that claims a job, renews its lease in time while the job is indexed
-- without an error, and is not shut down, completes the job with the document that the indexing
-- gave, whatever other workers and servers send before the lease ends, provided that the database
-- answers the completion before the lease ends, and that the document still stands there then.
pub process_completes :
    (w : IngestionWorker) (s : IngestionService) (locked : IngestionJob → Bool) (c c' : Call)
    (ms : List Moment) (t : Table) (document_id : Text) {job : IngestionJob}
    → IsValid t
    → (claim_next_ingestion_job c locked w.worker_id w.lease_duration t).0 ≡ ok (some job)
    → InTime w (after c.now (milliseconds w.lease_duration)) ms
    → c'.fault ≡ none
    → c'.now ≤ lease_end w (after c.now (milliseconds w.lease_duration)) ms
    → c'.has_document document_id ≡ true
    → index s job ≡ (document_id, none)
    → CompletedAs job document_id (
        process w s job ms false c'
          (claim_next_ingestion_job c locked w.worker_id w.lease_duration t).1)
process_completes w s locked c c' ms t document_id {job} v e i o n there x =
    process_rule (CompletedAs job document_id) w s locked c c' ms t v e i x
      (λ u h. conclude_completed w job _ u c' document_id o n there h)
