-- ===== src/Store/Jobs.antt =====
-- internal/store/store.go: the statements on `ingestion_jobs`. A statement takes the table and
-- returns its result with the new table; with a fault it changes nothing.
use dong_rag.Base.{
  ℕ, ◌+◌, Bool, true, false, ◌&&◌, ◌||◌, not, Option, none, some, List, [], ◌∷◌, ◌++◌, ltb, leb,
  ◌==◌, if◌then◌else◌, any, keep, count_where, find_where, update_where, GoError, plain_error,
  Result, ok, err, Text, codes, text_eq, is_empty,
}
use dong_rag.Store.Tables.{
  Status, queued, processing, completed, failed, IngestionJob, Call, milliseconds, after,
}

abbrev pub is_queued : Status → Bool
is_queued queued = true
is_queued _ = false

abbrev pub is_processing : Status → Bool
is_processing processing = true
is_processing _ = false

abbrev pub is_completed : Status → Bool
is_completed completed = true
is_completed _ = false

abbrev pub is_null : Option Text → Bool
is_null none = true
is_null (some _) = false

-- `document_id = $1`, which NULL does not satisfy.
abbrev pub is_document : Text → Option Text → Bool
is_document id none = false
is_document id (some d) = text_eq d id

-- `lease_until >= now()`, which NULL does not satisfy.
abbrev pub live_lease : ℕ → Option ℕ → Bool
live_lease now none = false
live_lease now (some t) = leb now t

-- `lease_until IS NULL OR lease_until < now()`
abbrev pub expired_lease : ℕ → Option ℕ → Bool
expired_lease now none = true
expired_lease now (some t) = ltb t now

abbrev pub Table : Type 0
Table = List IngestionJob

-- A statement on the table that may fail.
abbrev pub statement {ℓ} : {A : Type ℓ} → Call → Table → A × Table → Result A × Table
statement c t (a, t') = elim c.fault [ none ↦ (ok a, t') | some e ↦ (err e, t) ]

abbrev pub has_id : Text → IngestionJob → Bool
has_id id j = text_eq j.id id

-- `NULLIF($5, '')`
abbrev pub null_if_empty : Text → Option Text
null_if_empty d = if is_empty d then none else some d

unfoldable pub new_job :
    Call → Text → Text → Text → Text → Text → Bool → List (Text × Text) → IngestionJob
new_job c id name content_type payload document_id reindex trace_context = record {
  id = id;
  name = name;
  content_type = content_type;
  reindex = reindex;
  status = queued;
  attempts = 0;
  retry_count = 0;
  error_message = [];
  document_id = null_if_empty document_id;
  next_attempt_at = c.now;
  lease_until = none;
  worker_id = [];
  created_at = c.now;
  updated_at = c.now;
  payload = payload;
  trace_context = trace_context;
}

abbrev pub unique_violation : GoError
unique_violation = record (plain_error (codes "duplicate key value")) {
  pg_code = some (codes "23505");
}

abbrev pub foreign_key_violation : GoError
foreign_key_violation = record (plain_error (codes "violates foreign key constraint")) {
  pg_code = some (codes "23503");
}

-- `REFERENCES documents(id)`, which NULL satisfies.
abbrev pub dangles : Call → Option Text → Bool
dangles c none = false
dangles c (some d) = not (c.has_document d)

-- `id` is what `newID("job")` drew. The primary key refuses an id that is taken, and the foreign
-- key a document that is not there.
unfoldable pub create_ingestion_job :
    Call
    → Text
    → Text
    → Text
    → Text
    → Text
    → Bool
    → List (Text × Text)
    → Table
    → Result IngestionJob × Table
unfolding new_job
create_ingestion_job c id name content_type payload document_id reindex trace_context t =
    let job = new_job c id name content_type payload document_id reindex trace_context in
    if any (has_id id) t
    then (err unique_violation, t)
    else if dangles c job.document_id
    then (err foreign_key_violation, t)
    else statement c t (job, t ++ job ∷ [])

unfoldable pub is_expired : ℕ → IngestionJob → Bool
is_expired now j = is_processing j.status && expired_lease now j.lease_until

unfoldable pub requeue : ℕ → IngestionJob → IngestionJob
requeue now j = record j {
  status = queued;
  next_attempt_at = now;
  lease_until = none;
  worker_id = [];
  updated_at = now;
}

unfoldable pub recover_expired_ingestion_jobs : Call → Table → Result ℕ × Table
unfolding is_expired requeue
recover_expired_ingestion_jobs c t =
    statement c t
      (count_where (is_expired c.now) t, update_where (is_expired c.now) (requeue c.now) t)

-- `WHERE status='queued' AND next_attempt_at <= now()`, less the rows that another transaction has
-- locked (`SKIP LOCKED`).
unfoldable pub is_available : (IngestionJob → Bool) → ℕ → IngestionJob → Bool
is_available locked now j =
    is_queued j.status && (leb j.next_attempt_at now && (if locked j then false else true))

-- `ORDER BY next_attempt_at, created_at`: whether `j` stands before `k`.
unfoldable pub before : IngestionJob → IngestionJob → Bool
before j k =
    ltb j.next_attempt_at k.next_attempt_at
    || (j.next_attempt_at == k.next_attempt_at && ltb j.created_at k.created_at)

-- `LIMIT 1`: the first of the rows in that order; of rows that tie, the first of the table.
unfoldable pub earliest : List IngestionJob → Option IngestionJob
unfolding before
earliest [] = none
earliest (j ∷ js) = elim (earliest js) [
  | none ↦ some j
  | some k ↦ some (if before k j then k else j)
]

unfoldable pub lease : ℕ → Text → ℕ → IngestionJob → IngestionJob
lease now worker_id duration j = record j {
  status = processing;
  attempts = j.attempts + 1;
  lease_until = some (after now (milliseconds duration));
  worker_id = worker_id;
  updated_at = now;
}

unfoldable pub claim_next_ingestion_job :
    Call → (IngestionJob → Bool) → Text → ℕ → Table → Result (Option IngestionJob) × Table
unfolding is_available earliest lease
claim_next_ingestion_job c locked worker_id duration t =
    elim (earliest (keep (is_available locked c.now) t)) [
      | none ↦ statement c t (none, t)
      | some j ↦ statement c t (
        some (lease c.now worker_id duration j),
        update_where (has_id j.id) (lease c.now worker_id duration) t,
      )
    ]

-- `WHERE id=$1 AND status='processing' AND worker_id=$2`
unfoldable pub is_held : Text → Text → IngestionJob → Bool
is_held id worker_id j =
    text_eq j.id id && (is_processing j.status && text_eq j.worker_id worker_id)

-- … `AND lease_until >= now()`
unfoldable pub is_owned : ℕ → Text → Text → IngestionJob → Bool
unfolding is_held
is_owned now id worker_id j = is_held id worker_id j && live_lease now j.lease_until

-- `result.RowsAffected() == 1`
unfoldable pub update_one :
    Call → (IngestionJob → Bool) → (IngestionJob → IngestionJob) → Table → Result Bool × Table
update_one c p f t = statement c t (count_where p t == 1, update_where p f t)

unfoldable pub extend : ℕ → ℕ → IngestionJob → IngestionJob
extend now duration j = record j {
  lease_until = some (after now (milliseconds duration));
  updated_at = now;
}

unfoldable pub renew_ingestion_job_lease : Call → Text → Text → ℕ → Table → Result Bool × Table
unfolding is_owned extend update_one
renew_ingestion_job_lease c id worker_id duration =
    update_one c (is_owned c.now id worker_id) (extend c.now duration)

unfoldable pub finish : ℕ → Text → IngestionJob → IngestionJob
finish now document_id j = record j {
  status = completed;
  document_id = some document_id;
  error_message = [];
  lease_until = none;
  worker_id = [];
  updated_at = now;
}

-- A row that the completion makes refer to the document, to which it does not refer yet.
unfoldable pub refers_anew : Call → Text → Text → Text → IngestionJob → Bool
unfolding is_owned
refers_anew c id worker_id document_id j =
    is_owned c.now id worker_id j && not (is_document document_id j.document_id)

-- The foreign key is checked where the update changes it.
unfoldable pub complete_ingestion_job : Call → Text → Text → Text → Table → Result Bool × Table
unfolding is_owned finish update_one refers_anew
complete_ingestion_job c id worker_id document_id t =
    if dangles c (some document_id)
      && ltb 0 (count_where (refers_anew c id worker_id document_id) t)
    then (err foreign_key_violation, t)
    else update_one c (is_owned c.now id worker_id) (finish c.now document_id) t

unfoldable pub give_back : ℕ → Text → Bool → ℕ → IngestionJob → IngestionJob
give_back now message retry delay j = record j {
  status = if retry then queued else failed;
  retry_count = j.retry_count + (if retry then 1 else 0);
  next_attempt_at = if retry then after now (milliseconds delay) else j.next_attempt_at;
  error_message = message;
  lease_until = none;
  worker_id = [];
  updated_at = now;
}

unfoldable pub fail_ingestion_job :
    Call → Text → Text → Text → Bool → ℕ → Table → Result Bool × Table
unfolding is_owned give_back update_one
fail_ingestion_job c id worker_id message retry delay =
    update_one c (is_owned c.now id worker_id) (give_back c.now message retry delay)

unfoldable pub release_ingestion_job : Call → Text → Text → Table → Result Bool × Table
unfolding is_held requeue update_one
release_ingestion_job c id worker_id = update_one c (is_held id worker_id) (requeue c.now)

unfoldable pub unlink : IngestionJob → IngestionJob
unlink j = record j { document_id = none }

-- `ON DELETE SET NULL`
unfoldable pub forget_document : Text → Table → Table
unfolding unlink
forget_document id = update_where (λ j. is_document id j.document_id) unlink

-- What DeleteDocument does to the table when it deletes a document.
unfoldable pub unlink_document : Call → Text → Table → Result (Unit {0}) × Table
unfolding forget_document
unlink_document c document_id t = statement c t (tt, forget_document document_id t)

-- `ORDER BY created_at DESC LIMIT 1`
unfoldable pub newest : List IngestionJob → Option IngestionJob
newest [] = none
newest (j ∷ js) = elim (newest js) [
  | none ↦ some j
  | some k ↦ some (if ltb j.created_at k.created_at then k else j)
]

unfoldable pub is_active_reindex : Text → IngestionJob → Bool
is_active_reindex document_id j =
    is_document document_id j.document_id
    && (j.reindex && (is_queued j.status || is_processing j.status))

unfoldable pub find_active_reindex_job : Call → Text → Table → Result (Option IngestionJob)
unfolding newest is_active_reindex
find_active_reindex_job c document_id t =
    (statement c t (newest (keep (is_active_reindex document_id) t), t)).0

unfoldable pub get_ingestion_job : Call → Text → Table → Result (Option IngestionJob)
get_ingestion_job c id t = (statement c t (find_where (has_id id) t, t)).0

unfoldable pub queue_state : Call → Table → Result (ℕ × ℕ)
queue_state c t =
    (statement c t
      ((count_where (λ j. is_queued j.status) t, count_where (λ j. is_processing j.status) t), t)).0
