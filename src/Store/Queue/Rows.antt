-- ===== src/Store/Queue/Rows.antt =====
-- Lemmas on the rows of internal/store/store.go's job table under the updates of a statement.
use dong_rag.Base.{
  ℕ, ◌≡◌, refl, subst, ◌⊎◌, inl, inr, Bool, true, false, ◌||◌, Option, none, some, [], ◌∷◌, ◌++◌,
  arith, if◌then◌else◌, Bool-cases, All, any, keep, count_where, find_where, update_where, All-map,
  Text, text_eq, text_eq_refl, eq_of_text_eq, text_eq_iff,
}
use dong_rag.Store.Tables.{IngestionJob}
use dong_rag.Store.Jobs.{Table, has_id}

-- An update of the rows that keeps their ids.
abbrev pub KeepsId : (IngestionJob → IngestionJob) → Type 0
KeepsId f = (j : IngestionJob) → (f j).id ≡ j.id

abbrev pub map_option : (IngestionJob → IngestionJob) → Option IngestionJob → Option IngestionJob
map_option f none = none
map_option f (some j) = some (f j)

abbrev pub updated :
    (IngestionJob → Bool) → (IngestionJob → IngestionJob) → IngestionJob → IngestionJob
updated p f j = if p j then f j else j

pub find_where-update_where :
    (id : Text) (p : IngestionJob → Bool) (f : IngestionJob → IngestionJob) (t : Table)
    → KeepsId f
    → find_where (has_id id) (update_where p f t)
      ≡ map_option (updated p f) (find_where (has_id id) t)
unfolding find_where update_where
find_where-update_where id p f [] k = refl
find_where-update_where id p f (j ∷ t) k = ground (arith, k j, find_where-update_where id p f t k)

pub find_where-cons :
    (p : IngestionJob → Bool) (x : IngestionJob) (t : Table) {j : IngestionJob}
    → find_where p (x ∷ t) ≡ some j
    → ((p x ≡ true) × (x ≡ j)) ⊎ ((p x ≡ false) × (find_where p t ≡ some j))
unfolding find_where
find_where-cons p x t e = ground arith

pub find_where-passes :
    (p : IngestionJob → Bool) (t : Table) {j : IngestionJob} → find_where p t ≡ some j → p j ≡ true
unfolding find_where
find_where-passes p [] e = cc
find_where-passes p (x ∷ t) e = elim (find_where-cons p x t e) [
  | inl (y, same) ↦ subst (λ k. p k ≡ true) same y
  | inr (n, rest) ↦ find_where-passes p t rest
]

pub find_where-has_id :
    (id : Text) (t : Table) {j : IngestionJob} → find_where (has_id id) t ≡ some j → j.id ≡ id
find_where-has_id id t {j} e = eq_of_text_eq j.id id (find_where-passes (has_id id) t e)

pub All-find_where {κ} :
    (P : IngestionJob → Type κ) (p : IngestionJob → Bool) (t : Table) {j : IngestionJob}
    → All P t
    → find_where p t ≡ some j
    → P j
unfolding find_where
All-find_where P p [] h e = cc
All-find_where P p (x ∷ t) h e = elim (find_where-cons p x t e) [
  | inl (y, same) ↦ subst P same h.0
  | inr (n, rest) ↦ All-find_where P p t h.1 rest
]

-- No two rows have one id.
abbrev pub Distinct : Table → Type 0
Distinct [] = Unit {0}
Distinct (j ∷ t) = (any (has_id j.id) t ≡ false) × Distinct t

any-update_where :
    (id : Text) (p : IngestionJob → Bool) (f : IngestionJob → IngestionJob) (t : Table)
    → KeepsId f
    → any (has_id id) (update_where p f t) ≡ any (has_id id) t
unfolding update_where
any-update_where id p f [] k = refl
any-update_where id p f (j ∷ t) k = ground (arith, k j, any-update_where id p f t k)

pub Distinct-update_where :
    (p : IngestionJob → Bool) (f : IngestionJob → IngestionJob) (t : Table)
    → KeepsId f
    → Distinct t
    → Distinct (update_where p f t)
unfolding update_where
Distinct-update_where p f [] k d = tt
Distinct-update_where p f (j ∷ t) k d = (
  rw (any-update_where (updated p f j).id p f t k) (ground (arith, k j)),
  Distinct-update_where p f t k d.1,
)

pub All-update_where {κ μ} :
    (P : IngestionJob → Type κ) (Q : IngestionJob → Type μ) (p : IngestionJob → Bool)
    (f : IngestionJob → IngestionJob) (t : Table)
    → ((j : IngestionJob) → P j → p j ≡ true → Q (f j))
    → ((j : IngestionJob) → P j → Q j)
    → All P t
    → All Q (update_where p f t)
unfolding update_where
All-update_where P Q p f [] hit miss h = tt
All-update_where P Q p f (j ∷ t) hit miss h = (
  elim (Bool-cases (p j)) [ inl y ↦ rw y (hit j h.0 y) | inr n ↦ rw n (miss j h.0) ],
  All-update_where P Q p f t hit miss h.1,
)

pub All-keep {κ} :
    (P : IngestionJob → Type κ) (p : IngestionJob → Bool) (t : Table)
    → All P t
    → All (λ j. P j × (p j ≡ true)) (keep p t)
unfolding keep
All-keep P p [] h = tt
All-keep P p (j ∷ t) h = elim (Bool-cases (p j)) [
  | inl y ↦ rw y ((h.0, y), All-keep P p t h.1)
  | inr n ↦ rw n (All-keep P p t h.1)
]

-- An update that reaches no row changes nothing.
pub update_where_none :
    (p : IngestionJob → Bool) (f : IngestionJob → IngestionJob) (t : Table)
    → count_where p t ≡ 0
    → update_where p f t ≡ t
unfolding update_where count_where
update_where_none p f [] e = refl
update_where_none p f (j ∷ t) e = ground (arith, update_where_none p f t)

-- A statement that names an id, and refuses the row of that id, reaches no row.
abbrev pub Names : Text → (IngestionJob → Bool) → Type 0
Names id p = (j : IngestionJob) → p j ≡ true → text_eq j.id id ≡ true

pub count_where_absent :
    (id : Text) (p : IngestionJob → Bool) (t : Table)
    → Names id p
    → any (has_id id) t ≡ false
    → count_where p t ≡ 0
unfolding count_where
count_where_absent id p [] n e = refl
count_where_absent id p (j ∷ t) n e = ground (arith, n j, count_where_absent id p t n)

abbrev pub hits : (IngestionJob → Bool) → Option IngestionJob → ℕ
hits p none = 0
hits p (some j) = if p j then 1 else 0

pub count_where-hits :
    (id : Text) (p : IngestionJob → Bool) (t : Table)
    → Names id p
    → Distinct t
    → count_where p t ≡ hits p (find_where (has_id id) t)
unfolding count_where find_where
count_where-hits id p [] n d = refl
count_where-hits id p (j ∷ t) n d = elim (Bool-cases (text_eq j.id id)) [
  | inl y ↦
      let here = subst (λ i. any (has_id i) t ≡ false) (eq_of_text_eq j.id id y) d.0 in
      rw y (ground (arith, count_where_absent id p t n here))
  | inr m ↦ rw m (ground (arith, n j, count_where-hits id p t n d.1))
]

pub any_of_find_where :
    (p : IngestionJob → Bool) (t : Table) {j : IngestionJob}
    → find_where p t ≡ some j
    → any p t ≡ true
unfolding find_where
any_of_find_where p [] e = cc
any_of_find_where p (x ∷ t) e = elim (find_where-cons p x t e) [
  | inl (y, same) ↦ ground arith
  | inr (n, rest) ↦ ground (arith, any_of_find_where p t rest)
]

-- Where the ids are distinct, the id of a row finds the row.
pub All-row : (t : Table) → Distinct t → All (λ j. find_where (has_id j.id) t ≡ some j) t
unfolding find_where
All-row [] d = tt
All-row (x ∷ t) d = (
  rw (text_eq_refl x.id),
  All-map _ _ t
      (λ j e. elim (Bool-cases (text_eq x.id j.id)) [
        | inl y ↦
            let clash = subst (λ i. any (has_id i) t ≡ false) (eq_of_text_eq x.id j.id y) d.0 in
            cc (any_of_find_where (has_id j.id) t e, clash)
        | inr n ↦ rw n e
      ])
      (All-row t d.1),
)

-- A new row with an id of its own.
pub find_where-append :
    (id : Text) (t : Table) (x : IngestionJob)
    → any (has_id x.id) t ≡ false
    → find_where (has_id id) (t ++ x ∷ [])
      ≡ (if text_eq x.id id then some x else find_where (has_id id) t)
unfolding find_where
find_where-append id [] x e = refl
find_where-append id (j ∷ t) x e = ground (
  arith,
  text_eq_iff x.id id,
  text_eq_iff j.id id,
  text_eq_iff j.id x.id,
  find_where-append id t x,
)

any-append :
    (id : Text) (t : Table) (x : IngestionJob)
    → any (has_id id) (t ++ x ∷ []) ≡ (any (has_id id) t || text_eq x.id id)
any-append id [] x = ground arith
any-append id (j ∷ t) x = ground (arith, any-append id t x)

pub Distinct-append :
    (t : Table) (x : IngestionJob)
    → Distinct t
    → any (has_id x.id) t ≡ false
    → Distinct (t ++ x ∷ [])
Distinct-append [] x d e = (refl, tt)
Distinct-append (j ∷ t) x d e = (
  rw (any-append j.id t x) (ground (arith, text_eq_iff x.id j.id, text_eq_iff j.id x.id)),
  Distinct-append t x d.1 (ground arith),
)
