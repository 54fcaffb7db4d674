-- ===== src/Store/Queue/Claim.antt =====
-- What `ClaimNextIngestionJob` of internal/store/store.go returns.
use dong_rag.Store.Queue.Rows.{Distinct}
use dong_rag.Store.Queue.Valid.{IsValid, earliest-row, claim-IsValid, run-IsValid}
use dong_rag.Store.Queue.Owner.{Kept-fields, Foreign, run_owned}
use dong_rag.Store.Queue.{Request, run, row}
use dong_rag.Base.{
  ℕ, ◌≡◌, refl, sym, ap, subst, ◌∙◌, ◌≢◌, ◌⊎◌, inl, inr, Bool, true, false, none, some, List, [],
  ◌∷◌, arith, if◌then◌else◌, Bool-cases, Option-cases, All, keep, update_where, All-map, ok, Text,
  text_eq, text_eq_refl,
}
use dong_rag.Store.Tables.{IngestionJob, Call, milliseconds, after}
use dong_rag.Store.Jobs.{
  is_queued, Table, has_id, is_available, before, earliest, lease, claim_next_ingestion_job,
  is_held,
}
use dong_rag.Store.Queue.Update.{row-update}

before_asym : (j k : IngestionJob) → before j k ≡ true → before k j ≡ false
unfolding before
before_asym j k h = ground arith

not-before_trans :
    (j k l : IngestionJob) → before j k ≡ false → before k l ≡ false → before j l ≡ false
unfolding before
not-before_trans j k l h h' = ground arith

before_irrefl : (j : IngestionJob) → before j j ≡ false
unfolding before
before_irrefl j = ground arith

earliest-none : (js : List IngestionJob) → earliest js ≡ none → js ≡ []
unfolding earliest
earliest-none [] e = refl
earliest-none (x ∷ js) e = ground arith

earliest_alone :
    (x : IngestionJob) (js : List IngestionJob) {i : IngestionJob}
    → earliest js ≡ none
    → earliest (x ∷ js) ≡ some i
    → x ≡ i
unfolding earliest
earliest_alone x js q e = ground arith

earliest_pick :
    (x : IngestionJob) (js : List IngestionJob) (k : IngestionJob) {i : IngestionJob}
    → earliest js ≡ some k
    → earliest (x ∷ js) ≡ some i
    → ((before k x ≡ true) × (k ≡ i)) ⊎ ((before k x ≡ false) × (x ≡ i))
unfolding earliest
earliest_pick x js k q e = ground arith

earliest-least :
    (js : List IngestionJob) {i : IngestionJob}
    → earliest js ≡ some i
    → All (λ k. before k i ≡ false) js
earliest-least [] e = tt
earliest-least (x ∷ js) {i} e = elim (Option-cases (earliest js)) [
  | inl q ↦
      let empty = earliest-none js q in
      let same = earliest_alone x js q e in
      rw empty (subst (λ k. before x k ≡ false) same (before_irrefl x), tt)
  | inr (k, q) ↦ elim (earliest_pick x js k q e) [
    | inl (y, same) ↦
        subst (λ l. All (λ m. before m l ≡ false) (x ∷ js)) same
          (before_asym k x y, earliest-least js q)
    | inr (n, same) ↦
        subst (λ l. All (λ m. before m l ≡ false) (x ∷ js)) same
          (
            before_irrefl x,
            All-map (λ m. before m k ≡ false) (λ m. before m x ≡ false) js
                (λ m h. not-before_trans m k x h n) (earliest-least js q),
          )
  ]
]

All-of-keep :
    (P : IngestionJob → Type 0) (p : IngestionJob → Bool) (t : Table)
    → All P (keep p t)
    → All (λ k. p k ≡ true → P k) t
unfolding keep
All-of-keep P p [] h = tt
All-of-keep P p (j ∷ t) h = elim (Bool-cases (p j)) [
  | inl y ↦ let (a, b) = rw y at h in ((λ _. a), All-of-keep P p t b)
  | inr n ↦ ((λ y. absurd (cc)), All-of-keep P p t (rw n at h))
]

pub claim_inversion :
    (c : Call) (locked : IngestionJob → Bool) (w : Text) (d : ℕ) (t : Table) {j : IngestionJob}
    → (claim_next_ingestion_job c locked w d t).0 ≡ ok (some j)
    → (i : IngestionJob) × (earliest (keep (is_available locked c.now) t) ≡ some i)
      × (j ≡ lease c.now w d i)
      × ((claim_next_ingestion_job c locked w d t).1
          ≡ update_where (has_id i.id) (lease c.now w d) t)
unfolding claim_next_ingestion_job
claim_inversion c locked w d t e = ground arith

-- In a table with distinct ids, a claim takes an available job that no available job precedes in
-- the order of the next attempt and of creation; it returns that job leased, and of all rows
-- changes the one of this job.
pub claim_earliest :
    (c : Call) (locked : IngestionJob → Bool) (w : Text) (d : ℕ) (t : Table) {j : IngestionJob}
    → Distinct t
    → (claim_next_ingestion_job c locked w d t).0 ≡ ok (some j)
    → (i : IngestionJob) × (row i.id t ≡ some i)
      × (is_available locked c.now i ≡ true)
      × All (λ k. is_available locked c.now k ≡ true → before k i ≡ false) t
      × (j ≡ lease c.now w d i)
      × ((id : Text)
          → row id (claim_next_ingestion_job c locked w d t).1
            ≡ (if text_eq i.id id then some j else row id t))
claim_earliest c locked w d t {j} distinct e =
    let (i, q, same, t') = claim_inversion c locked w d t e in
    let (r, av) = earliest-row (is_available locked c.now) t distinct q in
    (
      i,
      r,
      av,
      All-of-keep _ _ t (earliest-least _ q),
      same,
      λ id.
          rw (t', same)
            (row-update i (has_id i.id) (lease c.now w d) t id (λ _. unfold lease in refl)
              (λ _ y. y) r (text_eq_refl i.id)),
    )

-- A claim returns no job only if no job is available, and then it changes nothing.
pub claim_none :
    (c : Call) (locked : IngestionJob → Bool) (w : Text) (d : ℕ) (t : Table)
    → (claim_next_ingestion_job c locked w d t).0 ≡ ok none
    → All (λ k. is_available locked c.now k ≡ true → ⊥) t
      × ((claim_next_ingestion_job c locked w d t).1 ≡ t)
unfolding claim_next_ingestion_job
claim_none c locked w d t e = elim (Option-cases (earliest (keep (is_available locked c.now) t))) [
  | inl q ↦ (
    All-of-keep (λ k. ⊥) (is_available locked c.now) t
        (subst (All (λ k. ⊥)) (sym (earliest-none _ q)) tt),
    ground (arith, q),
  )
  | inr (i, q) ↦ absurd (ground (arith, q))
]

-- What a claim returns is leased to the claiming worker, and stands in the table under its id.
pub claim_held :
    (c : Call) (locked : IngestionJob → Bool) (w : Text) (d : ℕ) (t : Table) {j : IngestionJob}
    → Distinct t
    → (claim_next_ingestion_job c locked w d t).0 ≡ ok (some j)
    → (row j.id (claim_next_ingestion_job c locked w d t).1 ≡ some j)
      × (is_held j.id w j ≡ true)
      × (j.lease_until ≡ some (after c.now (milliseconds d)))
      × (is_queued j.status ≡ false)
claim_held c locked w d t {j} distinct e =
    let (i, r, av, least, same, rows) = claim_earliest c locked w d t distinct e in
    let same_id : i.id ≡ j.id = rw same (unfold lease in refl) in
    (
      rows j.id ∙ rw (same_id, text_eq_refl j.id),
      rw same (unfold lease is_held in rw (text_eq_refl i.id, text_eq_refl w)),
      rw same (unfold lease in refl),
      rw same (unfold lease in refl),
    )

-- A job that a worker has claimed is claimed by nobody else before the lease ends, whatever
-- statements other workers and servers send until then.
pub claim_exclusive :
    (c : Call) (locked : IngestionJob → Bool) (w : Text) (d : ℕ) (t : Table)
    (es : List (Call × Request)) (c' : Call) (locked' : IngestionJob → Bool) (w' : Text) (d' : ℕ)
    {j k : IngestionJob}
    → IsValid t
    → (claim_next_ingestion_job c locked w d t).0 ≡ ok (some j)
    → All (Foreign (after c.now (milliseconds d)) w) es
    → (claim_next_ingestion_job c' locked' w' d'
        (run (claim_next_ingestion_job c locked w d t).1 es)).0
      ≡ ok (some k)
    → k.id ≢ j.id
claim_exclusive c locked w d t es c' locked' w' d' {j} {k} v e a e' same =
    let (r, h, l, q) = claim_held c locked w d t v.distinct e in
    let u = run (claim_next_ingestion_job c locked w d t).1 es in
    let valid = claim-IsValid c locked w d t v in
    let (j', stays, kept) = run_owned _ es j.id w _ valid r h l a in
    let (held, until, retries, st) = Kept-fields j.id w kept in
    let (i, r', av, least, leased, rows) =
      claim_earliest c' locked' w' d' u (run-IsValid _ es valid).distinct e' in
    let same_id : i.id ≡ j.id = (rw leased (unfold lease in refl)) ∙ same in
    let same_job : some i ≡ some j' = sym r' ∙ subst (λ x. row x u ≡ some j') (sym same_id) stays in
    unfold is_available in ground (arith, same_job, av, ap is_queued st ∙ q)
