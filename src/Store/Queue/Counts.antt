-- ===== src/Store/Queue/Counts.antt =====
-- What `QueueState` of internal/store/store.go counts, as jobs pass through the queue, and what a
-- statement does that the database does not run.
use dong_rag.Base.{
  ℕ, suc, ◌+◌, ◌≡◌, refl, subst, inl, inr, Bool, true, false, none, some, [], ◌∷◌, arith,
  if◌then◌else◌, any, count_where, find_where, update_where, GoError, ok, Text, text_eq_refl,
}
use dong_rag.Store.Tables.{IngestionJob, Call}
use dong_rag.Store.Jobs.{
  is_queued, is_processing, Table, has_id, create_ingestion_job, is_available, lease,
  claim_next_ingestion_job, update_one, unlink_document, queue_state,
}
use dong_rag.Store.Queue.Rows.{
  find_where-cons, Distinct, update_where_none, Names, count_where_absent,
}
use dong_rag.Store.Queue.Valid.{earliest-row, completion_rule}
use dong_rag.Store.Queue.Claim.{claim_inversion}
use dong_rag.Store.Queue.{
  Request, creates, recovers, claims, renews, completes, fails, releases, deletes, step, row,
}

abbrev bit : Bool → ℕ
bit b = if b then 1 else 0

count-update :
    (q p : IngestionJob → Bool) (f : IngestionJob → IngestionJob) (t : Table) (i : IngestionJob)
    → Names i.id p
    → Distinct t
    → row i.id t ≡ some i
    → p i ≡ true
    → count_where q (update_where p f t) + bit (q i) ≡ count_where q t + bit (q (f i))
unfolding count_where update_where
count-update q p f [] i names d r y = unfold find_where in cc r
count-update q p f (x ∷ t) i names d r y = elim (find_where-cons (has_id i.id) x t r) [
  | inl (here, same) ↦
      let absent : any (has_id i.id) t ≡ false =
        subst (λ k. any (has_id k.id) t ≡ false) same d.0 in
      let rest : update_where p f t ≡ t =
        update_where_none p f t (count_where_absent i.id p t names absent) in
      rw (same, y, rest) (omega arith)
  | inr (apart, there) ↦ ground (arith, names x, count-update q p f t i names d.1 there y)
]

-- In a table with distinct ids, a successful claim moves one job from the queued jobs to those in
-- processing, and loses none.
pub claim_counts :
    (c c' : Call) (locked : IngestionJob → Bool) (w : Text) (d : ℕ) (t : Table) {j : IngestionJob}
    (waiting running : ℕ)
    → Distinct t
    → c'.fault ≡ none
    → (claim_next_ingestion_job c locked w d t).0 ≡ ok (some j)
    → queue_state c' t ≡ ok (suc waiting, running)
    → queue_state c' (claim_next_ingestion_job c locked w d t).1 ≡ ok (waiting, suc running)
unfolding queue_state
claim_counts c c' locked w d t {j} waiting running distinct o e before_claim =
    let (i, q, same, t') = claim_inversion c locked w d t e in
    let (r, av) = earliest-row (is_available locked c.now) t distinct q in
    let one =
      count-update (λ j. is_queued j.status) (has_id i.id) (lease c.now w d) t i (λ _ y. y) distinct
        r (text_eq_refl i.id) in
    let two =
      count-update (λ j. is_processing j.status) (has_id i.id) (lease c.now w d) t i (λ _ y. y)
        distinct r (text_eq_refl i.id) in
    rw t' (unfold lease is_available in ground (arith, one, two, av, o, before_claim))

-- A statement that the database does not run leaves the table as it was.
pub fault_unchanged :
    (t : Table) (e : Call × Request) {x : GoError} → e.0.fault ≡ some x → step t e ≡ t
unfolding step
fault_unchanged t (c, creates id name content_type payload document_id reindex trace_context) f =
    unfold create_ingestion_job in ground (arith, f)
fault_unchanged t (c, recovers) f = rw f
fault_unchanged t (c, claims locked w d) f = unfold claim_next_ingestion_job in ground (arith, f)
fault_unchanged t (c, renews id w d) f = rw f
fault_unchanged t (c, completes id w document_id) f =
    completion_rule (λ u. u ≡ t) c id w document_id t refl (unfold update_one in rw f)
fault_unchanged t (c, fails id w message retry delay) f = rw f
fault_unchanged t (c, releases id w) f = rw f
fault_unchanged t (c, deletes document_id) f = unfold unlink_document in rw f
