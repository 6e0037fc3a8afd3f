-- ===== src/Platform/Submit.antt =====
-- The methods of `PlatformDatabase` in src/dsvire/platform_db.py that a client of the platform
-- calls: submission, cancellation and reads. `fresh_document` and `fresh_job` are what
-- gen_random_uuid() returns; an id that is taken violates the primary key.
use Prim.Native.Nat.{min, max}
use tokito_dsvire.Prelude.{
  ℕ, String, Bool, true, false, not, ◌&&◌, ◌||◌, Option, none, some, List, [], ◌∷◌, ◌++◌, ltb, leb,
  ◌==◌, str_eq, if◌then◌else◌, is_some, find, update, select, take, Result, ok, err, guard, ◌>>=◌,
  ◌>>◌, text_length, lower_hex,
}
use mathlib.Core.Bool.{decide}
use tokito_dsvire.Platform.Tables.{
  Json, Json-discrete, str, obj, end, object1, ObjectRef, DbError, job_conflict, job_not_found,
  disappeared, check_violation, unique_violation, foreign_key_violation, State, queued, cancelled,
  is_queued, is_running, Kind, Job, Event, Document, Db,
}
use tokito_dsvire.Platform.Queue.{log_event, touch, has_job_id}

-- The CHECK constraints of dsvire_document.
unfoldable pub document_allowed : ObjectRef → Bool
document_allowed ref =
    lower_hex 64 ref.sha256
    && ((leb 8 ref.size && leb ref.size 67_108_864) && str_eq ref.content_type "application/pdf")

-- The CHECK constraints of dsvire_job that a new row can fail.
unfoldable pub job_allowed : String → ℕ → Bool
job_allowed idempotency_key max_attempts =
    (leb 8 (text_length idempotency_key) && leb (text_length idempotency_key) 200)
    && (leb 1 max_attempts && leb max_attempts 20)

unfoldable pub same_document : ℕ → String → Document → Bool
same_document tenant_id sha256 d = d.tenant_id == tenant_id && str_eq d.ref.sha256 sha256

-- ON CONFLICT (tenant_id, sha256) DO UPDATE writes the digest that is there, so nothing changes.
unfoldable pub store_document : ℕ → ℕ → ObjectRef → Option Document → Db → Result DbError (ℕ × Db)
store_document fresh tenant_id ref (some d) db = ok (d.document_id, db)
store_document fresh tenant_id ref none db = do
  guard (not (is_some (find (λ d. d.document_id == fresh) db.documents))) unique_violation
  guard (is_some (find (λ t. t.tenant_id == tenant_id) db.tenants)) foreign_key_violation
  ok (
    fresh,
    record db {
      documents =
          db.documents ++ record { document_id = fresh; tenant_id = tenant_id; ref = ref } ∷ [];
    },
  )

unfoldable pub insert_document : ℕ → ℕ → ObjectRef → Db → Result DbError (ℕ × Db)
unfolding document_allowed store_document same_document
insert_document fresh tenant_id ref db = do
  guard (document_allowed ref) check_violation
  store_document fresh tenant_id ref (find (same_document tenant_id ref.sha256) db.documents) db

pub record Submission : Type 0 where
  pub tenant_id : ℕ
  pub document : ObjectRef
  pub idempotency_key : String
  pub request : Json
  pub max_attempts : ℕ

unfoldable pub new_job : ℕ → ℕ → ℕ → Submission → Job
new_job now fresh document_id s = record {
  job_id = fresh;
  tenant_id = s.tenant_id;
  document_id = document_id;
  idempotency_key = s.idempotency_key;
  state = queued;
  stage = "queued";
  request = s.request;
  attempt = 0;
  max_attempts = s.max_attempts;
  lease_owner = none;
  lease_expires_at = none;
  cancel_requested = false;
  result = none;
  error_code = none;
  created_at = now;
  updated_at = now;
  completed_at = none;
}

unfoldable pub same_key : ℕ → String → Job → Bool
same_key tenant_id idempotency_key j =
    j.tenant_id == tenant_id && str_eq j.idempotency_key idempotency_key

-- `existing["document_id"] != document_id or dict(existing["request"]) != dict(request)` is its
-- negation.
unfoldable pub same_request : ℕ → Json → Job → Bool
same_request document_id request j =
    j.document_id == document_id && decide (Json-discrete j.request request)

-- ON CONFLICT (tenant_id, idempotency_key) DO NOTHING, and the SELECT of the row that is there.
unfoldable pub resubmitted : ℕ → Submission → Option Job → Db → Result DbError ((ℕ × Bool) × Db)
unfolding same_request
resubmitted document_id s none db = err disappeared
resubmitted document_id s (some j) db =
    if same_request document_id s.request j then ok ((j.job_id, false), db) else err job_conflict

unfoldable pub submit_job :
    ℕ → ℕ → ℕ → Submission → Option Job → Db → Result DbError ((ℕ × Bool) × Db)
unfolding resubmitted new_job log_event same_key
submit_job now fresh document_id s (some j) db =
    resubmitted document_id s (find (same_key s.tenant_id s.idempotency_key) db.jobs) db
submit_job now fresh document_id s none db = do
  guard (not (is_some (find (has_job_id fresh) db.jobs))) unique_violation
  ok (
    (fresh, true),
    log_event now s.tenant_id fresh Kind.queued (object1 "stage" (str "queued"))
        (record db { jobs = db.jobs ++ new_job now fresh document_id s ∷ [] }),
  )

unfoldable pub submit : ℕ → ℕ → ℕ → Submission → Db → Result DbError ((ℕ × Bool) × Db)
unfolding insert_document job_allowed submit_job
submit now fresh_document fresh_job s db = do
  (document_id, db') ← insert_document fresh_document s.tenant_id s.document db
  guard (job_allowed s.idempotency_key s.max_attempts) check_violation
  submit_job now fresh_job document_id s (find (same_key s.tenant_id s.idempotency_key) db'.jobs)
      db'

-- The row that a client of the tenant may cancel.
unfoldable pub cancellable : ℕ → ℕ → Job → Bool
cancellable tenant_id job_id j =
    (j.tenant_id == tenant_id && has_job_id job_id j) && (is_queued j.state || is_running j.state)

unfoldable pub cancel_row : ℕ → Job → Job
cancel_row now j = touch now (record j {
  cancel_requested = true;
  state = if is_queued j.state then cancelled else j.state;
  stage = if is_queued j.state then "cancelled" else j.stage;
  completed_at = if is_queued j.state then some now else j.completed_at;
})

unfoldable pub cancel_found : ℕ → ℕ → ℕ → Option Job → Db → Bool × Db
unfolding cancel_row cancellable log_event
cancel_found now tenant_id job_id none db = (false, db)
cancel_found now tenant_id job_id (some j) db = (
  true,
  log_event now tenant_id job_id Kind.cancel_requested (obj end)
      (record db { jobs = update (cancellable tenant_id job_id) (cancel_row now) db.jobs }),
)

unfoldable pub request_cancel : ℕ → ℕ → ℕ → Db → Bool × Db
unfolding cancel_found
request_cancel now tenant_id job_id db =
    cancel_found now tenant_id job_id (find (cancellable tenant_id job_id) db.jobs) db

-- The columns that `get_job` selects.
pub record JobView : Type 0 where
  pub job_id : ℕ
  pub state : State
  pub stage : String
  pub attempt : ℕ
  pub max_attempts : ℕ
  pub cancel_requested : Bool
  pub result : Option Json
  pub error_code : Option String
  pub created_at : ℕ
  pub updated_at : ℕ
  pub completed_at : Option ℕ

abbrev pub view_of : Job → JobView
view_of j = record {
  job_id = j.job_id;
  state = j.state;
  stage = j.stage;
  attempt = j.attempt;
  max_attempts = j.max_attempts;
  cancel_requested = j.cancel_requested;
  result = j.result;
  error_code = j.error_code;
  created_at = j.created_at;
  updated_at = j.updated_at;
  completed_at = j.completed_at;
}

unfoldable pub job_of : ℕ → ℕ → Job → Bool
job_of tenant_id job_id j = j.tenant_id == tenant_id && has_job_id job_id j

unfoldable pub view_found : Option Job → Result DbError JobView
view_found none = err job_not_found
view_found (some j) = ok (view_of j)

unfoldable pub get_job : ℕ → ℕ → Db → Result DbError JobView
unfolding view_found job_of
get_job tenant_id job_id db = view_found (find (job_of tenant_id job_id) db.jobs)

-- `min(max(limit, 1), 500)`
abbrev pub page_size : ℕ → ℕ
page_size limit = min (max limit 1) 500

unfoldable pub event_after : ℕ → ℕ → ℕ → Event → Bool
event_after tenant_id job_id after e =
    (e.tenant_id == tenant_id && e.job_id == job_id) && ltb after e.event_id

-- Events stand in the order of their ids, so ORDER BY event_id keeps the order of the table.
unfoldable pub events : ℕ → ℕ → ℕ → ℕ → Db → List Event
unfolding event_after
events tenant_id job_id after limit db =
    take (page_size limit) (select (event_after tenant_id job_id after) db.events)
