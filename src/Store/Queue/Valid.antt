-- ===== src/Store/Queue/Valid.antt =====
-- The invariant of internal/store/store.go's job table under every statement that the store sends.
use dong_rag.Base.{
  ℕ, ◌+◌, ◌≤◌, ◌≡◌, refl, subst, ◌⊎◌, inl, inr, Bool, true, false, ◌&&◌, none, some, List, [], ◌∷◌,
  arith, ltb, Bool-cases, Option-cases, All, All-append, any, keep, count_where, update_where, Text,
}
use dong_rag.Store.Queue.{
  Request, creates, recovers, claims, renews, completes, fails, releases, deletes, step, run, row,
}
use dong_rag.Store.Tables.{Status, processing, IngestionJob, Call, milliseconds, after}
use dong_rag.Store.Jobs.{
  is_processing, is_document, Table, statement, has_id, null_if_empty, new_job, dangles,
  create_ingestion_job, requeue, is_available, earliest, lease, claim_next_ingestion_job, is_owned,
  update_one, extend, finish, refers_anew, complete_ingestion_job, give_back, unlink,
  forget_document,
}
use dong_rag.Store.Queue.Rows.{
  KeepsId, Distinct, Distinct-update_where, All-update_where, All-keep, All-row, Distinct-append,
}

-- 1 while a job is being processed.
abbrev pub busy : Status → ℕ
busy processing = 1
busy _ = 0

pub record IsWellFormed (j : IngestionJob) : Type 0 where
  pub leased : j.status ≡ processing → (until : ℕ) × (j.lease_until ≡ some until)
  pub idle : is_processing j.status ≡ false → (j.lease_until ≡ none) × (j.worker_id ≡ [])
  pub counted : j.retry_count + busy j.status ≤ j.attempts

pub record IsValid (t : Table) : Type 0 where
  pub rows : All IsWellFormed t
  pub distinct : Distinct t

pub earliest-cons :
    (x : IngestionJob) (js : List IngestionJob) {j : IngestionJob}
    → earliest (x ∷ js) ≡ some j
    → (x ≡ j) ⊎ (earliest js ≡ some j)
unfolding earliest
earliest-cons x js e = ground arith

-- What holds of all rows holds of the one that `earliest` returns.
pub earliest-All {κ} :
    (P : IngestionJob → Type κ) (js : List IngestionJob) {j : IngestionJob}
    → All P js
    → earliest js ≡ some j
    → P j
unfolding earliest
earliest-All P [] h e = cc
earliest-All P (x ∷ js) h e = elim (earliest-cons x js e) [
  | inl same ↦ subst P same h.0
  | inr rest ↦ earliest-All P js h.1 rest
]

pub is_processing_of_is_owned :
    (now : ℕ) (id w : Text) (j : IngestionJob)
    → is_owned now id w j ≡ true
    → is_processing j.status ≡ true
unfolding is_owned
is_processing_of_is_owned now id w j y = ground arith

-- The row that a claim takes stands in the table under its id, and is available.
pub earliest-row :
    (p : IngestionJob → Bool) (t : Table) {j : IngestionJob}
    → Distinct t
    → earliest (keep p t) ≡ some j
    → (row j.id t ≡ some j) × (p j ≡ true)
earliest-row p t d e =
    earliest-All (λ j. (row j.id t ≡ some j) × (p j ≡ true)) (keep p t)
      (All-keep (λ j. row j.id t ≡ some j) p t (All-row t d)) e

lease-IsWellFormed :
    (now : ℕ) (w : Text) (d : ℕ) (j : IngestionJob)
    → IsWellFormed j
    → IsWellFormed (lease now w d j)
unfolding lease
lease-IsWellFormed now w d j h = record {
  leased = λ _. (after now (milliseconds d), refl);
  idle = λ e. cc;
  counted = ground (arith, h.counted);
}

requeue-IsWellFormed : (now : ℕ) (j : IngestionJob) → IsWellFormed j → IsWellFormed (requeue now j)
unfolding requeue
requeue-IsWellFormed now j h = record {
  leased = λ e. cc;
  idle = λ e. (refl, refl);
  counted = ground (arith, h.counted);
}

extend-IsWellFormed :
    (now d : ℕ) (j : IngestionJob)
    → IsWellFormed j
    → is_processing j.status ≡ true
    → IsWellFormed (extend now d j)
unfolding extend
extend-IsWellFormed now d j h y = record {
  leased = λ _. (after now (milliseconds d), refl);
  idle = λ e. cc;
  counted = h.counted;
}

finish-IsWellFormed :
    (now : ℕ) (document_id : Text) (j : IngestionJob)
    → IsWellFormed j
    → IsWellFormed (finish now document_id j)
unfolding finish
finish-IsWellFormed now document_id j h = record {
  leased = λ e. cc;
  idle = λ e. (refl, refl);
  counted = ground (arith, h.counted);
}

unlink-IsWellFormed : (j : IngestionJob) → IsWellFormed j → IsWellFormed (unlink j)
unfolding unlink
unlink-IsWellFormed j h = record { leased = h.leased; idle = h.idle; counted = h.counted }

give_back-IsWellFormed :
    (now : ℕ) (message : Text) (retry : Bool) (delay : ℕ) (j : IngestionJob)
    → IsWellFormed j
    → is_processing j.status ≡ true
    → IsWellFormed (give_back now message retry delay j)
unfolding give_back
give_back-IsWellFormed now message true delay j h y = record {
  leased = λ e. cc;
  idle = λ e. (refl, refl);
  counted = ground (arith, h.counted);
}
give_back-IsWellFormed now message false delay j h y = record {
  leased = λ e. cc;
  idle = λ e. (refl, refl);
  counted = ground (arith, h.counted);
}

update-IsValid :
    (p : IngestionJob → Bool) (f : IngestionJob → IngestionJob) (t : Table)
    → KeepsId f
    → ((j : IngestionJob) → IsWellFormed j → p j ≡ true → IsWellFormed (f j))
    → IsValid t
    → IsValid (update_where p f t)
update-IsValid p f t k hit v = record {
  rows = All-update_where IsWellFormed IsWellFormed p f t hit (λ j h. h) v.rows;
  distinct = Distinct-update_where p f t k v.distinct;
}

-- A completion leaves the table as it was or updates it.
pub completion_rule {κ} :
    (P : Table → Type κ) (c : Call) (id w document_id : Text) (t : Table)
    → P t
    → P (update_one c (is_owned c.now id w) (finish c.now document_id) t).1
    → P (complete_ingestion_job c id w document_id t).1
unfolding complete_ingestion_job
completion_rule P c id w document_id t h h' =
    elim (Bool-cases
      (dangles c (some document_id) && ltb 0 (count_where (refers_anew c id w document_id) t))) [
        | inl gone ↦ rw gone h
        | inr there ↦ rw there h'
      ]

statement-IsValid :
    {A : Type 0} (c : Call) (t t' : Table) (a : A)
    → IsValid t
    → IsValid t'
    → IsValid (statement c t (a, t')).1
statement-IsValid c t t' a v v' = elim (Option-cases c.fault) [
  | inl e ↦ rw e v'
  | inr (x, e) ↦ rw e v
]

pub claim-IsValid :
    (c : Call) (locked : IngestionJob → Bool) (w : Text) (d : ℕ) (t : Table)
    → IsValid t
    → IsValid (claim_next_ingestion_job c locked w d t).1
unfolding claim_next_ingestion_job
claim-IsValid c locked w d t v =
    elim (Option-cases (earliest (keep (is_available locked c.now) t))) [
      | inl e ↦ rw (e, claim_next_ingestion_job) (statement-IsValid c t t _ v v)
      | inr (j, e) ↦
          rw (e, claim_next_ingestion_job)
            (statement-IsValid c t _ _ v (
              update-IsValid (has_id j.id) (lease c.now w d) t (λ _. unfold lease in refl)
                (λ k h _. lease-IsWellFormed c.now w d k h) v))
    ]

new_job-IsWellFormed :
    (c : Call) (id name content_type payload document_id : Text) (reindex : Bool)
    (trace_context : List (Text × Text))
    → IsWellFormed (new_job c id name content_type payload document_id reindex trace_context)
unfolding new_job
new_job-IsWellFormed c id name content_type payload document_id reindex trace_context = record {
  leased = λ e. cc;
  idle = λ e. (refl, refl);
  counted = omega arith;
}

create-IsValid :
    (c : Call) (id name content_type payload document_id : Text) (reindex : Bool)
    (trace_context : List (Text × Text)) (t : Table)
    → IsValid t
    → IsValid
        (create_ingestion_job c id name content_type payload document_id reindex trace_context t).1
unfolding create_ingestion_job new_job
create-IsValid c id name content_type payload document_id reindex trace_context t v =
    elim (Bool-cases (any (has_id id) t)) [
      | inl taken ↦ rw taken v
      | inr free ↦ elim (Bool-cases (dangles c (null_if_empty document_id))) [
        | inl gone ↦ rw (free, gone) v
        | inr there ↦
            rw (free, there)
              (statement-IsValid c t _ _ v (record {
                rows = All-append IsWellFormed t _ v.rows (
                  new_job-IsWellFormed c id name content_type payload document_id reindex
                      trace_context,
                  tt,
                );
                distinct = Distinct-append t _ v.distinct free;
              }))
      ]
    ]

complete-IsValid :
    (c : Call) (id w document_id : Text) (t : Table)
    → IsValid t
    → IsValid (complete_ingestion_job c id w document_id t).1
unfolding update_one
complete-IsValid c id w document_id t v = completion_rule IsValid c id w document_id t v (
    statement-IsValid c t _ _ v (
      update-IsValid (is_owned c.now id w) (finish c.now document_id) t (λ _. unfold finish in refl)
        (λ j h _. finish-IsWellFormed c.now document_id j h) v))

-- Every statement keeps the table valid: the ids are distinct, exactly the jobs in processing
-- have a lease, only they may name a worker, and a job has at least one attempt for each of its
-- retries and for the attempt that runs.
pub step-IsValid : (t : Table) (e : Call × Request) → IsValid t → IsValid (step t e)
unfolding step
step-IsValid t (c, creates id name content_type payload document_id reindex trace_context) v =
    create-IsValid c id name content_type payload document_id reindex trace_context t v
step-IsValid t (c, recovers) v = statement-IsValid c t _ _ v (
    update-IsValid _ (requeue c.now) t (λ _. unfold requeue in refl)
      (λ j h _. requeue-IsWellFormed c.now j h) v)
step-IsValid t (c, claims locked w d) v = claim-IsValid c locked w d t v
step-IsValid t (c, renews id w d) v = statement-IsValid c t _ _ v (
    update-IsValid (is_owned c.now id w) (extend c.now d) t (λ _. unfold extend in refl)
      (λ j h y. extend-IsWellFormed c.now d j h (is_processing_of_is_owned c.now id w j y)) v)
step-IsValid t (c, completes id w document_id) v = complete-IsValid c id w document_id t v
step-IsValid t (c, fails id w message retry delay) v = statement-IsValid c t _ _ v (
    update-IsValid (is_owned c.now id w) (give_back c.now message retry delay) t
      (λ _. unfold give_back in refl)
      (λ j h y.
        give_back-IsWellFormed c.now message retry delay j h
          (is_processing_of_is_owned c.now id w j y))
      v)
step-IsValid t (c, releases id w) v = statement-IsValid c t _ _ v (
    update-IsValid _ (requeue c.now) t (λ _. unfold requeue in refl)
      (λ j h _. requeue-IsWellFormed c.now j h) v)
step-IsValid t (c, deletes document_id) v =
    unfold forget_document in
    statement-IsValid c t _ _ v (
      update-IsValid (λ j. is_document document_id j.document_id) unlink t
        (λ _. unfold unlink in refl) (λ j h _. unlink-IsWellFormed j h) v)

pub run-IsValid : (t : Table) (es : List (Call × Request)) → IsValid t → IsValid (run t es)
unfolding run
run-IsValid t [] v = v
run-IsValid t (e ∷ es) v = run-IsValid (step t e) es (step-IsValid t e v)

pub empty-IsValid : IsValid []
empty-IsValid = record { rows = tt; distinct = tt }

-- After any sequence of statements on the empty table, by any workers, the table is valid: the ids
-- are distinct, exactly the jobs in processing have a lease, only they may name a worker, and a job
-- has at least one attempt for each of its retries and for the attempt that runs.
pub run-empty-IsValid : (es : List (Call × Request)) → IsValid (run [] es)
run-empty-IsValid es = run-IsValid [] es empty-IsValid
