-- ===== src/Store/Queue/Update.antt =====
-- What a statement of internal/store/store.go on the queue leaves of one row: an update of the row,
-- of another row, or a statement that fails.
use dong_rag.Base.{
  ◌≡◌, sym, subst, ◌∙◌, inl, inr, Bool, true, false, some, arith, if◌then◌else◌, Bool-cases,
  Option-cases, update_where, Text, text_eq, eq_of_text_eq, text_eq_iff,
}
use dong_rag.Store.Tables.{IngestionJob, Call}
use dong_rag.Store.Jobs.{Table, statement}
use dong_rag.Store.Queue.Rows.{KeepsId, find_where-update_where, find_where-has_id, Names}
use dong_rag.Store.Queue.{row}

pub statement_rule {κ} :
    {A : Type 0} (P : Table → Type κ) (c : Call) (t t' : Table) (a : A)
    → P t
    → P t'
    → P (statement c t (a, t')).1
statement_rule P c t t' a h h' = elim (Option-cases c.fault) [
  | inl e ↦ rw e h'
  | inr (x, e) ↦ rw e h
]

-- A row that the test of an update refuses stays as it is.
pub row-update_miss :
    (id : Text) (p : IngestionJob → Bool) (f : IngestionJob → IngestionJob) (t : Table)
    {j : IngestionJob}
    → KeepsId f
    → row id t ≡ some j
    → p j ≡ false
    → row id (update_where p f t) ≡ some j
row-update_miss id p f t {j} k r n = find_where-update_where id p f t k ∙ rw r (rw n)

pub row-update_hit :
    (id : Text) (p : IngestionJob → Bool) (f : IngestionJob → IngestionJob) (t : Table)
    {j : IngestionJob}
    → KeepsId f
    → row id t ≡ some j
    → p j ≡ true
    → row id (update_where p f t) ≡ some (f j)
row-update_hit id p f t {j} k r y = find_where-update_where id p f t k ∙ rw r (rw y)

-- An update that names the id of a row changes that row alone.
pub row-update :
    (i : IngestionJob) (p : IngestionJob → Bool) (f : IngestionJob → IngestionJob) (t : Table)
    (id : Text)
    → KeepsId f
    → Names i.id p
    → row i.id t ≡ some i
    → p i ≡ true
    → row id (update_where p f t) ≡ (if text_eq i.id id then some (f i) else row id t)
row-update i p f t id k names r y = elim (Bool-cases (text_eq i.id id)) [
  | inl same ↦
      rw same
        (row-update_hit id p f t k (subst (λ x. row x t ≡ some i) (eq_of_text_eq i.id id same) r) y)
  | inr apart ↦ rw apart (elim (Option-cases (row id t)) [
    | inl e ↦ rw e (find_where-update_where id p f t k ∙ rw e)
    | inr (m, e) ↦ rw e (
        row-update_miss id p f t k e (elim (Bool-cases (p m)) [
          | inr n ↦ n
          | inl hit ↦
              let m_i = eq_of_text_eq m.id i.id (names m hit) in
              let i_id = sym m_i ∙ find_where-has_id id t e in
              ground (arith, text_eq_iff i.id id, i_id)
        ]))
  ])
]
