-- ===== src/Store/Queue/Reply.antt =====
-- What the guarded updates of internal/store/store.go's queue answer: `RenewIngestionJobLease`,
-- `CompleteIngestionJob`, `FailIngestionJob` and `ReleaseIngestionJob`.
use dong_rag.Base.{
  ℕ, ◌≡◌, refl, sym, ap, subst, ◌∙◌, ◌⊎◌, inl, inr, Bool, true, false, ◌&&◌, none, some, List,
  arith, ltb, if◌then◌else◌, Bool-cases, Option-cases, All, count_where, update_where, Result, ok,
  err, Text, text_eq,
}
use dong_rag.Store.Tables.{IngestionJob, Call}
use dong_rag.Store.Jobs.{
  is_document, Table, foreign_key_violation, dangles, is_expired, requeue,
  recover_expired_ingestion_jobs, is_held, is_owned, update_one, extend, renew_ingestion_job_lease,
  finish, refers_anew, complete_ingestion_job, give_back, fail_ingestion_job, release_ingestion_job,
}
use dong_rag.Store.Queue.Rows.{
  KeepsId, find_where-has_id, Distinct, update_where_none, Names, count_where-hits,
}
use dong_rag.Store.Queue.{Request, recovers, step, run, row}
use dong_rag.Store.Queue.Owner.{Stands, Kept-fields, is_claim, run_waits}
use dong_rag.Store.Queue.Valid.{IsValid, step-IsValid, run-IsValid}
use dong_rag.Store.Queue.Update.{row-update_hit, row-update}

-- An update of the row of a job under a test answers whether the row passes it; it then changes
-- that row alone, and else nothing.
abbrev pub Answers :
    Text
    → (IngestionJob → Bool)
    → (IngestionJob → IngestionJob)
    → Table
    → Result Bool × Table
    → Type 0
Answers id p f t (r, t') =
    ((j : IngestionJob) × (row id t ≡ some j)
      × (p j ≡ true)
      × (r ≡ ok true)
      × ((id' : Text) → row id' t' ≡ (if text_eq id id' then some (f j) else row id' t)))
    ⊎ (((j : IngestionJob) → row id t ≡ some j → p j ≡ false) × (r ≡ ok false) × (t' ≡ t))

update_one-none :
    (c : Call) (p : IngestionJob → Bool) (f : IngestionJob → IngestionJob) (t : Table)
    → c.fault ≡ none
    → count_where p t ≡ 0
    → update_one c p f t ≡ (ok false, t)
unfolding update_one
update_one-none c p f t ok_call zero_rows =
    rw (ok_call, zero_rows, update_where_none p f t zero_rows)

update_one_hit :
    (c : Call) (p : IngestionJob → Bool) (f : IngestionJob → IngestionJob) (t : Table)
    → c.fault ≡ none
    → count_where p t ≡ 1
    → update_one c p f t ≡ (ok true, update_where p f t)
unfolding update_one
update_one_hit c p f t ok_call one_row = rw (ok_call, one_row)

pub update_one-Answers :
    (c : Call) (id : Text) (p : IngestionJob → Bool) (f : IngestionJob → IngestionJob) (t : Table)
    → c.fault ≡ none
    → Distinct t
    → KeepsId f
    → Names id p
    → Answers id p f t (update_one c p f t)
update_one-Answers c id p f t ok_call d k names = elim (Option-cases (row id t)) [
  | inl e ↦
      let zero_rows : count_where p t ≡ 0 = count_where-hits id p t names d ∙ rw e in
      let reply = update_one-none c p f t ok_call zero_rows in
      inr ((λ j e'. absurd (ground (arith, e, e'))), ap (λ r. r.0) reply, ap (λ r. r.1) reply)
  | inr (j, e) ↦ elim (Bool-cases (p j)) [
    | inl y ↦
        let one_row : count_where p t ≡ 1 = count_where-hits id p t names d ∙ rw e (rw y) in
        let reply = update_one_hit c p f t ok_call one_row in
        let same : j.id ≡ id = find_where-has_id id t e in
        inl (
          j,
          e,
          y,
          ap (λ r. r.0) reply,
          λ id'.
              ap (λ r. row id' r.1) reply
              ∙ subst
                  (λ i.
                    row id' (update_where p f t)
                    ≡ (if text_eq i id' then some (f j) else row id' t))
                  same
                  (row-update j p f t id' k (subst (λ i. Names i p) (sym same) names)
                    (subst (λ i. row i t ≡ some j) (sym same) e) y),
        )
    | inr n ↦
        let zero_rows : count_where p t ≡ 0 = count_where-hits id p t names d ∙ rw e (rw n) in
        let reply = update_one-none c p f t ok_call zero_rows in
        inr ((λ j' e'. ground (arith, n, e, e')), ap (λ r. r.0) reply, ap (λ r. r.1) reply)
  ]
]

Names-is_owned : (now : ℕ) (id w : Text) → Names id (is_owned now id w)
unfolding is_owned is_held
Names-is_owned now id w j y = ground arith

Names-is_held : (id w : Text) → Names id (is_held id w)
unfolding is_held
Names-is_held id w j y = ground arith

Names-refers_anew : (c : Call) (id w d : Text) → Names id (refers_anew c id w d)
unfolding refers_anew
Names-refers_anew c id w d j y = Names-is_owned c.now id w j (ground (arith, y))

-- A completion under a lease that runs, with a document that is not there and to which the job does
-- not refer yet, is an error and changes nothing; any other answers whether the lease runs.
abbrev pub Completes : Call → Text → Text → Text → Table → Result Bool × Table → Type 0
Completes c id w d t (r, t') =
    Answers id (is_owned c.now id w) (finish c.now d) t (r, t')
    ⊎ ((j : IngestionJob) × (row id t ≡ some j)
        × (is_owned c.now id w j ≡ true)
        × (is_document d j.document_id ≡ false)
        × (c.has_document d ≡ false)
        × (r ≡ err foreign_key_violation)
        × (t' ≡ t))

refused_of_count :
    (c : Call) (id w d : Text) (t : Table)
    → Distinct t
    → ltb 0 (count_where (refers_anew c id w d) t) ≡ true
    → (j : IngestionJob) × (row id t ≡ some j) × (refers_anew c id w d j ≡ true)
refused_of_count c id w d t ids y =
    let rows = count_where-hits id (refers_anew c id w d) t (Names-refers_anew c id w d) ids in
    elim (Option-cases (row id t)) [
      | inl e ↦ absurd (
          let zero_rows : count_where (refers_anew c id w d) t ≡ 0 = rows ∙ rw e refl in
          ground (arith, zero_rows, y))
      | inr (j, e) ↦ elim (Bool-cases (refers_anew c id w d j)) [
        | inl anew ↦ (j, e, anew)
        | inr n ↦ absurd (
            let zero_rows : count_where (refers_anew c id w d) t ≡ 0 = rows ∙ rw e (rw n) in
            ground (arith, zero_rows, y))
      ]
    ]

complete-Completes :
    (c : Call) (id w d : Text) (t : Table)
    → c.fault ≡ none
    → Distinct t
    → Completes c id w d t (complete_ingestion_job c id w d t)
unfolding complete_ingestion_job
complete-Completes c id w d t o ids =
    elim (Bool-cases (dangles c (some d) && ltb 0 (count_where (refers_anew c id w d) t))) [
      | inl gone ↦
          let (j, e, anew) = refused_of_count c id w d t ids (ground (arith, gone)) in
          rw gone (
            inr (
              j,
              e,
              (unfold refers_anew in ground (arith, anew)),
              (unfold refers_anew in ground (arith, anew)),
              ground (arith, gone),
              refl,
              refl,
            ))
      | inr there ↦ rw there (
          inl (
            update_one-Answers c id _ _ t o ids (λ _. unfold finish in refl)
              (Names-is_owned c.now id w)))
    ]

-- When the database answers and the ids are distinct, a renewal, a completion and a failure take
-- effect exactly if the worker's lease on the job still runs, and a release exactly if the worker
-- still holds the job; the statement answers whether it took effect, changes the job's row alone if
-- so, and else nothing. Only a completion that would make the job refer to a document that is not
-- there is an error instead, and changes nothing.
pub replies :
    (c : Call) (id w document_id message : Text) (retry : Bool) (duration delay : ℕ) (t : Table)
    → c.fault ≡ none
    → Distinct t
    → Answers id
        (is_owned c.now id w)
        (extend c.now duration)
        t
        (renew_ingestion_job_lease c id w duration t)
      × Completes c id w document_id t (complete_ingestion_job c id w document_id t)
      × Answers id
          (is_owned c.now id w)
          (give_back c.now message retry delay)
          t
          (fail_ingestion_job c id w message retry delay t)
      × Answers id (is_held id w) (requeue c.now) t (release_ingestion_job c id w t)
unfolding renew_ingestion_job_lease fail_ingestion_job release_ingestion_job
replies c id w document_id message retry duration delay t o d = (
  update_one-Answers c id _ _ t o d (λ _. unfold extend in refl) (Names-is_owned c.now id w),
  complete-Completes c id w document_id t o d,
  update_one-Answers c id _ _ t o d (λ _. unfold give_back in refl) (Names-is_owned c.now id w),
  update_one-Answers c id _ _ t o d (λ _. unfold requeue in refl) (Names-is_held id w),
)

refused :
    (c : Call) (id : Text) (p : IngestionJob → Bool) (f : IngestionJob → IngestionJob) (t : Table)
    {j : IngestionJob}
    → c.fault ≡ none
    → Distinct t
    → Names id p
    → row id t ≡ some j
    → p j ≡ false
    → update_one c p f t ≡ (ok false, t)
refused c id p f t o d names r n =
    update_one-none c p f t o (count_where-hits id p t names d ∙ rw r (rw n))

and_false : (b : Bool) → (b && false) ≡ false
and_false b = ground arith

complete_refused :
    (c : Call) (id w document_id : Text) (t : Table) {j : IngestionJob}
    → c.fault ≡ none
    → Distinct t
    → row id t ≡ some j
    → is_owned c.now id w j ≡ false
    → complete_ingestion_job c id w document_id t ≡ (ok false, t)
unfolding complete_ingestion_job
complete_refused c id w document_id t {j} o d r n =
    let anew : refers_anew c id w document_id j ≡ false = unfold refers_anew in ground (arith, n) in
    let zero_rows : count_where (refers_anew c id w document_id) t ≡ 0 =
      count_where-hits id (refers_anew c id w document_id) t (Names-refers_anew c id w document_id)
        d
      ∙ rw r (rw anew) in
    rw (zero_rows, and_false (dangles c (some document_id)))
      (refused c id _ _ t o d (Names-is_owned c.now id w) r n)

-- In a valid table, where the database answers, recovery fences off a worker whose lease has
-- run out: the job goes back to the queue, due at once, and through every sequence of statements in
-- which nobody claims a job, its row stays that way, but that its document may be set to NULL, and
-- the former worker can neither renew, complete, fail nor release it.
pub recover_fences :
    (c c' : Call) (id w document_id message : Text) (retry : Bool) (duration delay : ℕ) (t : Table)
    (es : List (Call × Request)) {j : IngestionJob}
    → c.fault ≡ none
    → c'.fault ≡ none
    → IsValid t
    → row id t ≡ some j
    → is_expired c.now j ≡ true
    → All (λ e. is_claim e.1 ≡ false) es
    → let t' = run (recover_expired_ingestion_jobs c t).1 es in
      Stands id (requeue c.now j) t'
      × (renew_ingestion_job_lease c' id w duration t' ≡ (ok false, t'))
      × (complete_ingestion_job c' id w document_id t' ≡ (ok false, t'))
      × (fail_ingestion_job c' id w message retry delay t' ≡ (ok false, t'))
      × (release_ingestion_job c' id w t' ≡ (ok false, t'))
unfolding renew_ingestion_job_lease fail_ingestion_job release_ingestion_job
recover_fences c c' id w document_id message retry duration delay t es {j} o o' v r x a =
    let u = (recover_expired_ingestion_jobs c t).1 in
    let new_table : u ≡ update_where (is_expired c.now) (requeue c.now) t =
      unfold recover_expired_ingestion_jobs in rw o in
    let r' : row id u ≡ some (requeue c.now j) =
      rw new_table (
        row-update_hit id (is_expired c.now) (requeue c.now) t (λ _. unfold requeue in refl) r x) in
    let v' : IsValid u = unfold step in step-IsValid t (c, recovers) v in
    let (k, stays, kept) = run_waits u es id v' r' (unfold requeue in refl) a in
    let (held, until, retries, st) = Kept-fields id w kept in
    let free : is_held id w k ≡ false = held ∙ (unfold is_held requeue in ground arith) in
    let unowned : is_owned c'.now id w k ≡ false = unfold is_owned in rw free refl in
    let d' = (run-IsValid u es v').distinct in
    (
      (k, stays, kept),
      refused c' id _ _ _ o' d' (Names-is_owned c'.now id w) stays unowned,
      complete_refused c' id w document_id _ o' d' stays unowned,
      refused c' id _ _ _ o' d' (Names-is_owned c'.now id w) stays unowned,
      refused c' id _ _ _ o' d' (Names-is_held id w) stays free,
    )
