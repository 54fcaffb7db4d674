-- ===== src/Web/Tests.antt =====
-- The handlers on a library of one document, which two requests ask to index again.
use dong_rag.Web.Ready.{Health, CheckResult, ready_handler}
use dong_rag.Web.Ready.Reports.{Reports, ready_handler-Reports}
use dong_rag.Base.{
  ℕ, ◌≡◌, refl, true, none, some, List, [], ◌∷◌, arith, Permᴰ, count_where, perm_refl, plain_error,
  ok, Text, codes, text_eq,
}
use dong_rag.Store.Jobs.{is_active_reindex}
use dong_rag.Web.Reindex.{active, Single, documents_handler-Single}
use dong_rag.Store.Tables.{Document, Call}
use dong_rag.Store.Library.Listing.{DocumentSource}
use dong_rag.Web.{
  post, Request, Serve, Reply, error_reply, documents_reply, job_reply, conflict_reply, no_content,
  Tables, after_active, documents_handler,
}

abbrev calm : ℕ → Call
calm n = record { now = n; has_document = λ _. true; fault = none }

abbrev serve : Text → Serve
serve id = record {
  source_fault = none;
  active_call = calm 4;
  create_call = calm 5;
  list_fault = none;
  delete_fault = none;
  job_call = calm 6;
  new_job_id = id;
  base_name = λ t. t;
  type_by_name = λ t. [];
  trace = [];
}

abbrev manual : Document
manual = record {
  id = codes "d";
  name = codes "m";
  content_type = [];
  size_bytes = 3;
  checksum = [];
  created_at = 0;
}

abbrev stored : Tables ℕ
stored = record { library = record { documents = manual ∷ []; chunks = [] }; jobs = [] }

abbrev asks : Request
asks = record { method = post; url_path = codes "/v1/documents/d/reindex"; form = ok none }

nothing-Single : Single stored
unfolding count_where
nothing-Single id = omega arith

documents_handler-Single_example : Single (documents_handler (serve (codes "j")) asks stored).1
documents_handler-Single_example =
    documents_handler-Single (serve (codes "j")) asks stored nothing-Single

-- The first request makes a job, and the second finds it.
abbrev status : Reply → ℕ
status (error_reply n t) = n
status (documents_reply ds) = 200
status (job_reply n j) = n
status (conflict_reply j) = 409
status no_content = 204

first_accepted : status (documents_handler (serve (codes "j")) asks stored).0 ≡ 202
unfolding documents_handler
first_accepted = refl

second_refused :
    status
      (documents_handler
        (serve (codes "k"))
        asks
        (documents_handler (serve (codes "j")) asks stored).1).0
    ≡ 409
unfolding documents_handler
second_refused = refl

abbrev source : DocumentSource
source = record { document = manual; payload = [] }

-- Where both requests look before either of them writes, both make a job.
abbrev both : Tables ℕ
both =
    (after_active (serve (codes "k")) (codes "d") source
      (after_active (serve (codes "j")) (codes "d") source stored (ok none)).1 (ok none)).1

two_active : active (codes "d") both.jobs ≡ 2
unfolding after_active count_where text_eq is_active_reindex
two_active = refl

-- A service without a reranker, whose embedding server is down.
abbrev health : Health
health = record {
  postgres_health = none;
  ping = some none;
  embedding_health = some (some (plain_error (codes "refused")));
  llm_health = some none;
  reranker_health = none;
  worker_ready = some true;
  worker = none;
}

-- The answer of PostgreSQL arrives after that of the embedding server.
abbrev second_first : List CheckResult → List CheckResult
second_first (a ∷ b ∷ rs) = b ∷ a ∷ rs
second_first rs = rs

second_first-perm : (rs : List CheckResult) → Permᴰ rs (second_first rs)
second_first-perm [] = perm_refl []
second_first-perm (a ∷ []) = perm_refl (a ∷ [])
second_first-perm (a ∷ b ∷ rs) = Permᴰ.swap refl refl

ready_handler-Reports_example : Reports health (ready_handler second_first health)
ready_handler-Reports_example = ready_handler-Reports second_first second_first-perm health

embedding_down : (ready_handler second_first health).code ≡ 503
unfolding ready_handler
embedding_down = refl
