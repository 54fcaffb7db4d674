-- ===== src/Web/Reindex.antt =====
-- internal/web/server.go: a document has at most one active reindex job, as long as requests come
-- one after the other.
use dong_rag.Store.Library.{Library, is_document_of}
use dong_rag.Store.Library.Listing.{
  DocumentSource, latest, is_completed_for, payload_or_empty, source_of, get_document_source,
}
use dong_rag.Store.Jobs.{
  Table, has_id, null_if_empty, new_job, dangles, create_ingestion_job, forget_document, newest,
  is_active_reindex, find_active_reindex_job,
}
use dong_rag.Web.{
  Method, get, post, delete, other_method, Upload, Request, Serve, Tables, document_reindex_id,
  path_base, is_no_id, first_type, created_job, after_active, after_source, reindex, deleted,
  delete_by_path, uploaded, upload, document_collection, reindex_by, documents_handler,
}
use dong_rag.Base.{
  ℕ, ◌+◌, ◌≤◌, ◌≡◌, refl, sym, ap, ◌∙◌, inl, inr, Bool, true, false, Option, none, some, List, [],
  ◌∷◌, ◌++◌, arith, if◌then◌else◌, Bool-cases, Option-cases, length, any, keep, count_where,
  find_where, update_where, GoError, Result, ok, err, ok_inj, Text, Bytes, codes, text_eq,
  eq_of_text_eq,
}
use dong_rag.Store.Tables.{Document, IngestionJob, Call}
use dong_rag.Store.Queue.Update.{statement_rule}

-- How many active reindex jobs a document has.
abbrev pub active : Text → Table → ℕ
active id t = count_where (is_active_reindex id) t

abbrev pub AtMostOne : Table → Type 0
AtMostOne t = (id : Text) → active id t ≤ 1

keep-count : (p : IngestionJob → Bool) (t : Table) → length (keep p t) ≡ count_where p t
unfolding keep count_where
keep-count p [] = refl
keep-count p (j ∷ t) = ground (arith, keep-count p t)

newest-none : (t : Table) → newest t ≡ none → length t ≡ 0
unfolding newest
newest-none [] h = refl
newest-none (j ∷ t) h = elim (Option-cases (newest t)) [
  | inl n ↦ absurd (ground (arith, h, n))
  | inr (k, e) ↦ absurd (ground (arith, h, e))
]

-- Where the look-up finds no active job, there is none.
none-active :
    (c : Call) (id : Text) (t : Table) → find_active_reindex_job c id t ≡ ok none → active id t ≡ 0
unfolding find_active_reindex_job
none-active c id t h = elim (Option-cases c.fault) [
  | inl n ↦
      let nothing : newest (keep (is_active_reindex id) t) ≡ none = ok_inj (rw n at h) in
      omega (
        arith,
        newest-none (keep (is_active_reindex id) t) nothing,
        keep-count (is_active_reindex id) t,
      )
  | inr (e, f) ↦ let refused : err e ≡ ok none = rw f at h in absurd (cc)
]

active-append :
    (id : Text) (t : Table) (j : IngestionJob)
    → active id (t ++ (j ∷ [])) ≡ active id t + (if is_active_reindex id j then 1 else 0)
unfolding count_where
active-append id [] j = omega arith
active-append id (k ∷ t) j = omega (arith, active-append id t j)

-- A new job is queued for the document that it is made for.
new_active :
    (c : Call) (id name content_type payload document_id other : Text) (b : Bool)
    (trace : List (Text × Text))
    → is_active_reindex other (new_job c id name content_type payload document_id b trace) ≡ true
    → (b ≡ true) × (document_id ≡ other)
unfolding is_active_reindex new_job text_eq
new_active c id name content_type payload [] other b trace h = absurd (ground (arith, h))
new_active c id name content_type payload (x ∷ document_id) other b trace h =
    (ground (arith, h), eq_of_text_eq (x ∷ document_id) other (ground (arith, h)))

append-AtMostOne :
    (c : Call) (id name content_type payload document_id : Text) (b : Bool)
    (trace : List (Text × Text)) (t : Table)
    → (b ≡ true → active document_id t ≡ 0)
    → AtMostOne t
    → AtMostOne (t ++ (new_job c id name content_type payload document_id b trace ∷ []))
append-AtMostOne c id name content_type payload document_id b trace t free one other =
    let made = new_job c id name content_type payload document_id b trace in
    let size = active-append other t made in
    elim (Bool-cases (is_active_reindex other made)) [
      | inl y ↦
          let (r, same) = new_active c id name content_type payload document_id other b trace y in
          let none_before : active other t ≡ 0 = rw same at free r in
          ground (arith, size, y, none_before)
      | inr n ↦ ground (arith, size, n, one other)
    ]

create-AtMostOne :
    (c : Call) (id name content_type payload document_id : Text) (b : Bool)
    (trace : List (Text × Text)) (t : Table)
    → (b ≡ true → active document_id t ≡ 0)
    → AtMostOne t
    → AtMostOne (create_ingestion_job c id name content_type payload document_id b trace t).1
unfolding create_ingestion_job
create-AtMostOne c id name content_type payload document_id b trace t free one =
    let added = append-AtMostOne c id name content_type payload document_id b trace t free one in
    elim (Bool-cases (any (has_id id) t)) [
      | inl y ↦ rw y one
      | inr n ↦ elim (Bool-cases (dangles c (null_if_empty document_id))) [
        | inl gone ↦ unfold new_job in rw (n, gone) one
        | inr there ↦ unfold new_job in rw (n, there) (statement_rule AtMostOne c t _ _ one added)
      ]
    ]

forget-active :
    (id document_id : Text) (t : Table) → active id (forget_document document_id t) ≤ active id t
unfolding forget_document update_where count_where is_active_reindex
forget-active id document_id [] = omega arith
forget-active id document_id (j ∷ t) = ground (arith, forget-active id document_id t)

found-id :
    (id : Text) (ds : List Document) {d : Document}
    → find_where (is_document_of id) ds ≡ some d
    → d.id ≡ id
unfolding find_where
found-id id [] h = absurd (cc)
found-id id (x ∷ ds) {d} h = elim (Bool-cases (text_eq x.id id)) [
  | inl y ↦
      let same : x ≡ d = ground (arith, h, y) in ap (λ z. z.id) (sym same) ∙ eq_of_text_eq x.id id y
  | inr n ↦ found-id id ds {d = d} (ground (arith, h, n))
]

source_of-id :
    (payload : Bytes) (id : Text) (found : Option Document) {source : DocumentSource}
    → ((d : Document) → found ≡ some d → d.id ≡ id)
    → source_of payload found ≡ some source
    → source.document.id ≡ id
source_of-id payload id none f h = absurd (cc)
source_of-id payload id (some d) {source} f h =
    let same : d ≡ source.document = cc in ap (λ z. z.id) (sym same) ∙ f d refl

module _ {Float : Type 0} where
  source-id :
      (f : Option GoError) (id : Text) (l : Library Float) (t : Table) {source : DocumentSource}
      → get_document_source f id l t ≡ ok (some source)
      → source.document.id ≡ id
  unfolding get_document_source
  source-id (some e) id l t h = absurd (cc)
  source-id none id l t h =
      source_of-id (payload_or_empty (latest (keep (is_completed_for id) t))) id
        (find_where (is_document_of id) l.documents) (λ d e. found-id id l.documents e) (ok_inj h)

  abbrev pub Single : Tables Float → Type 0
  Single s = AtMostOne s.jobs

  created_job-Single :
      (status : ℕ) (s : Tables Float) (r : Result IngestionJob × Table)
      → AtMostOne r.1
      → Single (created_job status s r).1
  created_job-Single status s (err e, t) o = o
  created_job-Single status s (ok j, t) o = o

  after_active-Single :
      (v : Serve) (id : Text) (source : DocumentSource) (s : Tables Float)
      (r : Result (Option IngestionJob))
      → source.document.id ≡ id
      → (r ≡ ok none → active id s.jobs ≡ 0)
      → Single s
      → Single (after_active v id source s r).1
  unfolding after_active
  after_active-Single v id source s (err e) q f o = o
  after_active-Single v id source s (ok (some j)) q f o = o
  after_active-Single v id source s (ok none) q f o = created_job-Single 500 s _ (
      create-AtMostOne v.create_call v.new_job_id source.document.name source.document.content_type
        source.payload source.document.id true v.trace s.jobs (λ _. rw q (f refl)) o)

  after_source-Single :
      (v : Serve) (id : Text) (s : Tables Float) (r : Result (Option DocumentSource))
      → ((source : DocumentSource) → r ≡ ok (some source) → source.document.id ≡ id)
      → Single s
      → Single (after_source v id s r).1
  unfolding after_source
  after_source-Single v id s (err e) f o = o
  after_source-Single v id s (ok none) f o = o
  after_source-Single v id s (ok (some source)) f o =
      after_active-Single v id source s (find_active_reindex_job v.active_call id s.jobs)
        (f source refl) (none-active v.active_call id s.jobs) o

  reindex_by-Single :
      (v : Serve) (m : Method) (id : Text) (s : Tables Float)
      → Single s
      → Single (reindex_by v m id s).1
  unfolding reindex_by reindex
  reindex_by-Single v post id s o =
      after_source-Single v id s (get_document_source v.source_fault id s.library s.jobs)
        (λ source e. source-id v.source_fault id s.library s.jobs e) o
  reindex_by-Single v get id s o = o
  reindex_by-Single v delete id s o = o
  reindex_by-Single v other_method id s o = o

  deleted-Single :
      (id : Text) (s : Tables Float) (r : Option GoError × Library Float)
      → Single s
      → Single (deleted id s r).1
  deleted-Single id s (some e, l) o = o
  deleted-Single id s (none, l) o = λ other. omega (arith, o other, forget-active other id s.jobs)

  delete_by_path-Single :
      (v : Serve) (url_path : Text) (s : Tables Float)
      → Single s
      → Single (delete_by_path v url_path s).1
  unfolding delete_by_path
  delete_by_path-Single v url_path s o =
      elim (Bool-cases (is_no_id (codes "documents") (path_base url_path))) [
        | inl y ↦ rw y o
        | inr n ↦ rw n (deleted-Single (path_base url_path) s _ o)
      ]

  uploaded-Single :
      (v : Serve) (u : Upload) (s : Tables Float) (r : Result Bytes)
      → Single s
      → Single (uploaded v u s r).1
  uploaded-Single v u s (err e) o = o
  uploaded-Single v u s (ok bytes) o = created_job-Single 400 s _ (
      create-AtMostOne v.create_call v.new_job_id (v.base_name u.filename) (first_type v u) bytes []
        false v.trace s.jobs (λ h. absurd (cc)) o)

  upload-Single :
      (v : Serve) (form : Result (Option Upload)) (s : Tables Float)
      → Single s
      → Single (upload v form s).1
  unfolding upload
  upload-Single v (err e) s o = o
  upload-Single v (ok none) s o = o
  upload-Single v (ok (some u)) s o = uploaded-Single v u s u.content o

  document_collection-Single :
      (v : Serve) (r : Request) (m : Method) (s : Tables Float)
      → Single s
      → Single (document_collection v r m s).1
  unfolding document_collection
  document_collection-Single v r get s o = o
  document_collection-Single v r delete s o = delete_by_path-Single v r.url_path s o
  document_collection-Single v r post s o = upload-Single v r.form s o
  document_collection-Single v r other_method s o = o

  -- Whatever a request to the documents asks for and wherever the database fails, it leaves each
  -- document with at most one reindex job that is queued or processing, if that was so before:
  -- requests that come one after the other never index a document twice at a time.
  pub documents_handler-Single :
      (v : Serve) (r : Request) (s : Tables Float) → Single s → Single (documents_handler v r s).1
  unfolding documents_handler
  documents_handler-Single v r s o = elim (Option-cases (document_reindex_id r.url_path)) [
    | inl n ↦ rw (documents_handler, n) (document_collection-Single v r r.method s o)
    | inr (id, e) ↦ rw (documents_handler, e) (reindex_by-Single v r.method id s o)
  ]
