-- ===== src/Store/Queue/Owner.antt =====
-- Who may touch a leased job of internal/store/store.go's queue, and what a claim returns.
use dong_rag.Base.{
  ℕ, ◌≤◌, ◌≡◌, refl, sym, ap, subst, ◌∙◌, ◌≢◌, ◌⊎◌, inl, inr, Bool, true, false, some, List, [],
  ◌∷◌, arith, le→leb, Bool-cases, Option-cases, All, any, keep, Text, text_eq, eq_of_text_eq,
  text_eq_iff,
}
use dong_rag.Store.Tables.{Status, completed, failed, IngestionJob, Call}
use dong_rag.Store.Jobs.{
  is_queued, is_document, Table, has_id, null_if_empty, new_job, dangles, create_ingestion_job,
  is_expired, requeue, is_available, earliest, lease, claim_next_ingestion_job, is_held, is_owned,
  update_one, extend, finish, give_back, unlink, forget_document, unlink_document,
}
use dong_rag.Store.Queue.Rows.{find_where-has_id, Distinct, any_of_find_where, find_where-append}
use dong_rag.Store.Queue.Valid.{IsValid, earliest-row, completion_rule, step-IsValid}
use dong_rag.Store.Queue.{
  Request, creates, recovers, claims, renews, completes, fails, releases, deletes, sender, step,
  run, row,
}
use dong_rag.Store.Queue.Update.{statement_rule, row-update_miss, row-update_hit}

rows_apart :
    (locked : IngestionJob → Bool) (now : ℕ) (t : Table) (id : Text) (k : IngestionJob)
    {j : IngestionJob}
    → row id t ≡ some j
    → is_queued j.status ≡ false
    → (row k.id t ≡ some k) × (is_available locked now k ≡ true)
    → has_id k.id j ≡ false
unfolding is_available
rows_apart locked now t id k {j} r q (rk, av) = elim (Bool-cases (text_eq j.id k.id)) [
  | inr n ↦ n
  | inl y ↦
      let here = sym (find_where-has_id id t r) ∙ eq_of_text_eq j.id k.id y in
      let same = sym rk ∙ subst (λ i. row i t ≡ some j) here r in ground (arith, same)
]

-- A claim changes the row that it takes, and that row was available.
pub claim-row_miss :
    (c : Call) (locked : IngestionJob → Bool) (w : Text) (d : ℕ) (t : Table) (id : Text)
    {j : IngestionJob}
    → Distinct t
    → row id t ≡ some j
    → is_queued j.status ≡ false
    → row id (claim_next_ingestion_job c locked w d t).1 ≡ some j
unfolding claim_next_ingestion_job
claim-row_miss c locked w d t id {j} distinct r q =
    elim (Option-cases (earliest (keep (is_available locked c.now) t))) [
      | inl e ↦
          rw (e, claim_next_ingestion_job) (statement_rule (λ u. row id u ≡ some j) c t t _ r r)
      | inr (k, e) ↦
          rw (e, claim_next_ingestion_job)
            (statement_rule (λ u. row id u ≡ some j) c t _ _ r
              (row-update_miss id (has_id k.id) (lease c.now w d) t (λ _. unfold lease in refl) r
                (rows_apart locked c.now t id k r q
                  (earliest-row (is_available locked c.now) t distinct e))))
    ]

-- The time at which a statement runs.
abbrev pub time : Call × Request → ℕ
time e = e.0.now

unowned :
    (now : ℕ) (id id' w w' : Text) (j : IngestionJob)
    → is_owned now id w j ≡ true
    → some w' ≢ some w
    → is_held id' w' j ≡ false
unfolding is_owned is_held
unowned now id id' w w' j o n = elim (Bool-cases (text_eq j.worker_id w')) [
  | inr m ↦ ground arith
  | inl y ↦ absurd (
      n (
        ap some
          (sym (eq_of_text_eq j.worker_id w' y) ∙ eq_of_text_eq j.worker_id w (ground arith))))
]

create-row :
    (c : Call) (id' name content_type payload document_id : Text) (reindex : Bool)
    (trace_context : List (Text × Text)) (t : Table) (id : Text) {j : IngestionJob}
    → row id t ≡ some j
    → row id
        (create_ingestion_job c id' name content_type payload document_id reindex trace_context t).1
      ≡ some j
unfolding create_ingestion_job new_job
create-row c id' name content_type payload document_id reindex trace_context t id {j} r =
    elim (Bool-cases (any (has_id id') t)) [
      | inl taken ↦ rw taken r
      | inr free ↦ elim (Bool-cases (dangles c (null_if_empty document_id))) [
        | inl gone ↦ rw (free, gone) r
        | inr there ↦
            let x = new_job c id' name content_type payload document_id reindex trace_context in
            rw (free, there)
              (statement_rule (λ u. row id u ≡ some j) c t _ _ r
                (ground (
                  arith,
                  find_where-append id t x free,
                  any_of_find_where (has_id id) t r,
                  text_eq_iff id' id,
                  r,
                )))
      ]
    ]

-- The row of a job that nothing has changed, but that its document may have been deleted.
abbrev pub Kept : IngestionJob → IngestionJob → Type 0
Kept j k = (k ≡ j) ⊎ (k ≡ unlink j)

-- The row of the job is kept in the table.
abbrev pub Stands : Text → IngestionJob → Table → Type 0
Stands id j t = (k : IngestionJob) × (row id t ≡ some k) × Kept j k

pub Kept-trans : {j k l : IngestionJob} → Kept j k → Kept k l → Kept j l
unfolding unlink
Kept-trans {j} {k} {l} (inl p) h = subst (λ i. Kept i l) p h
Kept-trans {j} {k} {l} (inr p) (inl q) = inr (q ∙ p)
Kept-trans {j} {k} {l} (inr p) (inr q) = inr (q ∙ ap unlink p)

-- What does not change of a row that is kept.
pub Kept-fields :
    (id w : Text) {j k : IngestionJob}
    → Kept j k
    → (is_held id w k ≡ is_held id w j)
      × (k.lease_until ≡ j.lease_until)
      × (k.retry_count ≡ j.retry_count)
      × (k.status ≡ j.status)
unfolding unlink is_held
Kept-fields id w (inl p) = rw p (refl, refl, refl, refl)
Kept-fields id w (inr p) = rw p (refl, refl, refl, refl)

deletes-Stands :
    (c : Call) (document_id : Text) (t : Table) (id : Text) {j : IngestionJob}
    → row id t ≡ some j
    → Stands id j (unlink_document c document_id t).1
unfolding unlink_document forget_document
deletes-Stands c document_id t id {j} r =
    statement_rule (Stands id j) c t _ _ (j, r, inl refl)
      (elim (Bool-cases (is_document document_id j.document_id)) [
        | inl y ↦ (
          unlink j,
          row-update_hit id (λ k. is_document document_id k.document_id) unlink t
              (λ _. unfold unlink in refl) r y,
          inr refl,
        )
        | inr n ↦ (
          j,
          row-update_miss id (λ k. is_document document_id k.document_id) unlink t
              (λ _. unfold unlink in refl) r n,
          inl refl,
        )
      ])

abbrev pub is_claim : Request → Bool
is_claim (claims locked worker_id duration) = true
is_claim _ = false

-- A row that is not queued or not claimed, has no expired lease and is not held by the sender is
-- kept.
step_untouched :
    (t : Table) (e : Call × Request) (id : Text) {j : IngestionJob}
    → Distinct t
    → row id t ≡ some j
    → (is_queued j.status ≡ false) ⊎ (is_claim e.1 ≡ false)
    → is_expired (time e) j ≡ false
    → ((id' w' : Text) → sender e.1 ≡ some w' → is_held id' w' j ≡ false)
    → Stands id j (step t e)
unfolding step
step_untouched t (c, creates id' name content_type payload document_id reindex trace_context) id {j}
      d r q x h =
    (
      j,
      create-row c id' name content_type payload document_id reindex trace_context t id r,
      inl refl,
    )
step_untouched t (c, recovers) id {j} d r q x h = (
  j,
  statement_rule (λ u. row id u ≡ some j) c t _ _ r
      (row-update_miss id (is_expired c.now) (requeue c.now) t (λ _. unfold requeue in refl) r x),
  inl refl,
)
step_untouched t (c, claims locked w' d') id {j} d r (inl q) x h =
    (j, claim-row_miss c locked w' d' t id d r q, inl refl)
step_untouched t (c, claims locked w' d') id {j} d r (inr q) x h = absurd (cc)
step_untouched t (c, renews id' w' d') id {j} d r q x h = (
  j,
  statement_rule (λ u. row id u ≡ some j) c t _ _ r
      (row-update_miss id (is_owned c.now id' w') (extend c.now d') t (λ _. unfold extend in refl) r
        (unfold is_owned in rw (h id' w' refl))),
  inl refl,
)
step_untouched t (c, completes id' w' document_id) id {j} d r q x h = (
  j,
  completion_rule (λ u. row id u ≡ some j) c id' w' document_id t r
      (unfold update_one in
        statement_rule (λ u. row id u ≡ some j) c t _ _ r
          (row-update_miss id (is_owned c.now id' w') (finish c.now document_id) t
            (λ _. unfold finish in refl) r (unfold is_owned in rw (h id' w' refl)))),
  inl refl,
)
step_untouched t (c, fails id' w' message retry delay) id {j} d r q x h = (
  j,
  statement_rule (λ u. row id u ≡ some j) c t _ _ r
      (row-update_miss id (is_owned c.now id' w') (give_back c.now message retry delay) t
        (λ _. unfold give_back in refl) r (unfold is_owned in rw (h id' w' refl))),
  inl refl,
)
step_untouched t (c, releases id' w') id {j} d r q x h = (
  j,
  statement_rule (λ u. row id u ≡ some j) c t _ _ r
      (row-update_miss id (is_held id' w') (requeue c.now) t (λ _. unfold requeue in refl) r
        (h id' w' refl)),
  inl refl,
)
step_untouched t (c, deletes document_id) id d r q x h = deletes-Stands c document_id t id r

owned-not-expired :
    (now : ℕ) (id w : Text) (j : IngestionJob)
    → is_owned now id w j ≡ true
    → (is_queued j.status ≡ false) × (is_expired now j ≡ false)
unfolding is_owned is_held is_expired
owned-not-expired now id w j o = (ground arith, ground arith)

-- In a table with distinct ids, while a worker's lease on a job runs, no statement that another
-- worker or a server sends changes the job's row, but that the deletion of its document unlinks it.
pub step_owned :
    (t : Table) (e : Call × Request) (id w : Text) {j : IngestionJob}
    → Distinct t
    → row id t ≡ some j
    → is_owned (time e) id w j ≡ true
    → sender e.1 ≢ some w
    → Stands id j (step t e)
step_owned t e id w {j} d r o n =
    let (q, x) = owned-not-expired (time e) id w j o in
    step_untouched t e id d r (inl q) x
      (λ id' w' s. unowned (time e) id id' w w' j o (λ same. n (s ∙ same)))

abbrev pub is_done : Status → Bool
is_done completed = true
is_done failed = true
is_done _ = false

-- In a table with distinct ids, a completed or failed job is final: no statement changes its row
-- again, but that the deletion of its document unlinks it.
pub step_done :
    (t : Table) (e : Call × Request) (id : Text) {j : IngestionJob}
    → Distinct t
    → row id t ≡ some j
    → is_done j.status ≡ true
    → Stands id j (step t e)
step_done t e id {j} d r s =
    step_untouched t e id d r (inl (ground arith)) (unfold is_expired in ground arith)
      (λ id' w' _. unfold is_held in ground arith)

-- A queued job waits: only a claim changes its row, but that the deletion of its document unlinks it.
step_waits :
    (t : Table) (e : Call × Request) (id : Text) {j : IngestionJob}
    → Distinct t
    → row id t ≡ some j
    → is_queued j.status ≡ true
    → is_claim e.1 ≡ false
    → Stands id j (step t e)
step_waits t e id {j} d r q n =
    step_untouched t e id d r (inr n) (unfold is_expired in ground arith)
      (λ id' w' _. unfold is_held in ground arith)

pub run_waits :
    (t : Table) (es : List (Call × Request)) (id : Text) {j : IngestionJob}
    → IsValid t
    → row id t ≡ some j
    → is_queued j.status ≡ true
    → All (λ e. is_claim e.1 ≡ false) es
    → Stands id j (run t es)
unfolding run
run_waits t [] id {j} v r q a = (j, r, inl refl)
run_waits t (e ∷ es) id {j} v r q a =
    let (k, r', kept) = step_waits t e id v.distinct r q a.0 in
    let (h, l, n, st) = Kept-fields id [] kept in
    let (i, r'', kept') =
      run_waits (step t e) es id (step-IsValid t e v) r' (ap is_queued st ∙ q) a.1 in
    (i, r'', Kept-trans kept kept')

-- Before the end of a lease, and not sent by the worker that holds it.
abbrev pub Foreign : ℕ → Text → Call × Request → Type 0
Foreign until w e = (time e ≤ until) × (sender e.1 ≢ some w)

-- A lease excludes all others for as long as it runs: in a valid table, the row of a job that a
-- worker holds is, after every sequence of statements that others send before the lease ends, the row
-- that it was, or that row with its document set to NULL, as the deletion of the document does.
pub run_owned :
    (t : Table) (es : List (Call × Request)) (id w : Text) (until : ℕ) {j : IngestionJob}
    → IsValid t
    → row id t ≡ some j
    → is_held id w j ≡ true
    → j.lease_until ≡ some until
    → All (Foreign until w) es
    → Stands id j (run t es)
unfolding run
run_owned t [] id w until {j} v r h l a = (j, r, inl refl)
run_owned t (e ∷ es) id w until {j} v r h l a =
    let (k, r', kept) =
      step_owned t e id w v.distinct r
        (unfold is_owned in ground (arith, a.0.0, le→leb (time e) until)) a.0.1 in
    let (same_held, same_lease, n, st) = Kept-fields id w kept in
    let (i, r'', kept') =
      run_owned (step t e) es id w until (step-IsValid t e v) r' (same_held ∙ h) (same_lease ∙ l)
        a.1 in
    (i, r'', Kept-trans kept kept')

pub is_owned_of_lease :
    (now until : ℕ) (id w : Text) (j : IngestionJob)
    → is_held id w j ≡ true
    → j.lease_until ≡ some until
    → now ≤ until
    → is_owned now id w j ≡ true
unfolding is_owned
is_owned_of_lease now until id w j h l n = ground (arith, le→leb now until)
