-- ===== src/Web.antt =====
-- internal/web/server.go: documents, documentReindexID, job and query, as functions on a decoded
-- request. What a request meets is its `Serve`: the errors of the statements, the clocks, a new id,
-- the type of a file by its extension, and the trace. Reading a request and writing JSON are
-- net/http's.
use dong_rag.Base.{
  ℕ, Bool, true, false, ◌&&◌, ◌||◌, not, Option, none, some, List, [], ◌∷◌, ◌++◌, ◌==◌,
  if◌then◌else◌, drop, GoError, Result, ok, err, Text, Bytes, codes, text_eq, is_empty,
}
use dong_rag.Store.Tables.{Document, IngestionJob, Call}
use dong_rag.Store.Jobs.{
  Table, create_ingestion_job, before, forget_document, find_active_reindex_job, get_ingestion_job,
}
use dong_rag.Store.Library.{Library, delete_document}
use dong_rag.Store.Library.Listing.{DocumentSource, list_documents, get_document_source}
pub mod Reindex
pub mod Chat
pub mod Ready
mod Tests

pub data Method : Type 0 where
  get post delete : Method
  other_method : Method

pub record Upload : Type 0 where
  pub filename : Text
  pub content_type : Text
  -- The bytes, or the error of reading more than the limit.
  pub content : Result Bytes

pub record Request : Type 0 where
  pub method : Method
  pub url_path : Text
  -- The error of parsing the form, or its field "file", where it has one.
  pub form : Result (Option Upload)

pub record Serve : Type 0 where
  pub source_fault : Option GoError
  pub active_call : Call
  pub create_call : Call
  pub list_fault : Option GoError
  pub delete_fault : Option GoError
  pub job_call : Call
  pub new_job_id : Text
  pub base_name : Text → Text
  -- `mime.TypeByExtension(strings.ToLower(filepath.Ext(name)))`
  pub type_by_name : Text → Text
  pub trace : List (Text × Text)

pub data Reply : Type 0 where
  error_reply : ℕ → Text → Reply
  documents_reply : List Document → Reply
  job_reply : ℕ → IngestionJob → Reply
  conflict_reply : IngestionJob → Reply
  no_content : Reply

-- The database.
pub record Tables (Float : Type 0) : Type 0 where
  pub library : Library Float
  pub jobs : Table

-- `strings.Split(…, "/")` of a cleaned path without the slashes around it: its segments, where "."
-- and nothing are left out, and ".." takes the one before it away.
unfoldable pub clean_step : List Text → Text → List Text
unfolding text_eq
clean_step before s =
    if is_empty s || text_eq s (codes ".")
    then before
    else if text_eq s (codes "..")
    then drop 1 before
    else s ∷ before

abbrev pub add_code : ℕ → Text × List Text → Text × List Text
add_code c (s, ss) = if c == 47 then ([], s ∷ ss) else (c ∷ s, ss)

abbrev pub split_slash : Text → Text × List Text
split_slash [] = ([], [])
split_slash (c ∷ t) = add_code c (split_slash t)

abbrev pub reversed : List Text → List Text → List Text
reversed done [] = done
reversed done (s ∷ ss) = reversed (s ∷ done) ss

unfoldable pub clean_from : List Text → List Text → List Text
unfolding clean_step
clean_from before [] = reversed [] before
clean_from before (s ∷ ss) = clean_from (clean_step before s) ss

unfoldable pub segments : Text → List Text
unfolding clean_from
segments t = let (s, ss) = split_slash t in clean_from [] (s ∷ ss)

unfoldable pub reindex_id_of : List Text → Option Text
unfolding text_eq
reindex_id_of (v ∷ d ∷ id ∷ r ∷ []) =
    if text_eq v (codes "v1") && text_eq d (codes "documents") && text_eq r (codes "reindex")
    then some id
    else none
reindex_id_of _ = none

unfoldable pub document_reindex_id : Text → Option Text
unfolding segments reindex_id_of
document_reindex_id url_path = reindex_id_of (segments url_path)

-- `path.Base`: the last segment that is not empty.
abbrev pub last_or : Text → List Text → Text
last_or t [] = t
last_or t ([] ∷ ss) = last_or t ss
last_or t ((c ∷ s) ∷ ss) = last_or (c ∷ s) ss

abbrev pub path_base : Text → Text
path_base [] = codes "."
path_base (c ∷ t) = let (s, ss) = split_slash (c ∷ t) in last_or (codes "/") (s ∷ ss)

unfoldable pub is_no_id : Text → Text → Bool
unfolding text_eq
is_no_id collection id = text_eq id collection || text_eq id (codes ".") || text_eq id (codes "/")

abbrev pub first_type : Serve → Upload → Text
first_type v u =
    if not (is_empty u.content_type)
    then u.content_type
    else if not (is_empty (v.type_by_name u.filename))
    then v.type_by_name u.filename
    else codes "text/plain"

abbrev pub listed : Result (List Document) → Reply
listed (err e) = error_reply 500 e.message
listed (ok ds) = documents_reply ds

abbrev pub not_allowed : Reply
not_allowed = error_reply 405 (codes "method not allowed")

abbrev pub job_found : Result (Option IngestionJob) → Reply
job_found (err e) = error_reply 500 e.message
job_found (ok none) = error_reply 404 (codes "job not found")
job_found (ok (some j)) = job_reply 200 j

module _ {Float : Type 0} where
  abbrev pub created_job : ℕ → Tables Float → Result IngestionJob × Table → Reply × Tables Float
  created_job status s (err e, t) = (error_reply status e.message, record s { jobs = t })
  created_job status s (ok j, t) = (job_reply 202 j, record s { jobs = t })

  unfoldable pub after_active :
      Serve
      → Text
      → DocumentSource
      → Tables Float
      → Result (Option IngestionJob)
      → Reply × Tables Float
  unfolding create_ingestion_job
  after_active v id source s (err e) = (error_reply 500 e.message, s)
  after_active v id source s (ok (some active)) = (conflict_reply active, s)
  after_active v id source s (ok none) = created_job 500 s (
      create_ingestion_job v.create_call v.new_job_id source.document.name
        source.document.content_type source.payload source.document.id true v.trace s.jobs)

  unfoldable pub after_source :
      Serve → Text → Tables Float → Result (Option DocumentSource) → Reply × Tables Float
  unfolding after_active find_active_reindex_job
  after_source v id s (err e) = (error_reply 500 e.message, s)
  after_source v id s (ok none) = (error_reply 404 (codes "document not found"), s)
  after_source v id s (ok (some source)) =
      after_active v id source s (find_active_reindex_job v.active_call id s.jobs)

  unfoldable pub reindex : Serve → Text → Tables Float → Reply × Tables Float
  unfolding get_document_source after_source
  reindex v id s = after_source v id s (get_document_source v.source_fault id s.library s.jobs)

  abbrev pub deleted : Text → Tables Float → Option GoError × Library Float → Reply × Tables Float
  deleted id s (some e, l) = (error_reply 500 e.message, record s { library = l })
  deleted id s (none, l) = (no_content, record { library = l; jobs = forget_document id s.jobs })

  unfoldable pub delete_by_path : Serve → Text → Tables Float → Reply × Tables Float
  unfolding delete_document forget_document is_no_id
  delete_by_path v url_path s =
      let id = path_base url_path in
      if is_no_id (codes "documents") id
      then (error_reply 400 (codes "document id is required"), s)
      else deleted id s (delete_document (λ n. v.delete_fault) id s.library)

  abbrev pub uploaded : Serve → Upload → Tables Float → Result Bytes → Reply × Tables Float
  uploaded v u s (err e) = (error_reply 413 (codes "read upload: " ++ e.message), s)
  uploaded v u s (ok bytes) = created_job 400 s (
      create_ingestion_job v.create_call v.new_job_id (v.base_name u.filename) (first_type v u)
        bytes [] false v.trace s.jobs)

  unfoldable pub upload : Serve → Result (Option Upload) → Tables Float → Reply × Tables Float
  unfolding create_ingestion_job
  upload v (err e) s = (error_reply 400 (codes "parse upload: " ++ e.message), s)
  upload v (ok none) s = (error_reply 400 (codes "field file is required"), s)
  upload v (ok (some u)) s = uploaded v u s u.content

  unfoldable pub document_collection :
      Serve → Request → Method → Tables Float → Reply × Tables Float
  unfolding list_documents delete_by_path upload
  document_collection v r get s = (listed (list_documents v.list_fault s.library), s)
  document_collection v r delete s = delete_by_path v r.url_path s
  document_collection v r post s = upload v r.form s
  document_collection v r other_method s = (not_allowed, s)

  unfoldable pub reindex_by : Serve → Method → Text → Tables Float → Reply × Tables Float
  unfolding reindex
  reindex_by v post id s = reindex v id s
  reindex_by v get id s = (not_allowed, s)
  reindex_by v delete id s = (not_allowed, s)
  reindex_by v other_method id s = (not_allowed, s)

  unfoldable pub documents_handler : Serve → Request → Tables Float → Reply × Tables Float
  unfolding document_reindex_id reindex_by document_collection
  documents_handler v r s = elim (document_reindex_id r.url_path) [
    | some id ↦ reindex_by v r.method id s
    | none ↦ document_collection v r r.method s
  ]

  abbrev pub get_job : Serve → Text → Tables Float → Reply
  get_job v id s =
      if is_no_id (codes "jobs") id
      then error_reply 400 (codes "job id is required")
      else job_found (get_ingestion_job v.job_call id s.jobs)

  unfoldable pub job_handler : Serve → Request → Method → Tables Float → Reply
  unfolding get_ingestion_job is_no_id
  job_handler v r get s = get_job v (path_base r.url_path) s
  job_handler v r post s = not_allowed
  job_handler v r delete s = not_allowed
  job_handler v r other_method s = not_allowed
