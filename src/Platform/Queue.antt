-- ===== src/Platform/Queue.antt =====
-- The job methods of `PlatformDatabase` in src/dsvire/platform_db.py that a worker calls. Each
-- method is one transaction: it returns the new database, or raises and leaves the old one.
-- `now` is the clock of the transaction, read once.
use tokito_dsvire.Prelude.{
  ℕ, ◌+◌, ◌*◌, String, Bool, false, not, ◌&&◌, ◌||◌, Option, none, some, List, [], ◌∷◌, ◌++◌, ltb,
  leb, ◌==◌, str_eq, if◌then◌else◌, is_some, find, update, Result, ok, err,
}
use tokito_dsvire.Platform.Tables.{
  Json, num, str, obj, end, object1, DbError, job_not_found, State, queued, running, succeeded,
  failed, cancelled, is_queued, is_running, is_terminal, Kind, Job, Document, Db, Lease,
}

-- `_event`: one row in the event table and one in the outbox, in the caller's transaction.
unfoldable pub log_event : ℕ → ℕ → ℕ → Kind → Json → Db → Db
log_event now tenant_id job_id kind payload db = record db {
  events =
      db.events
      ++ record {
        event_id = db.next_event_id;
        job_id = job_id;
        tenant_id = tenant_id;
        kind = kind;
        payload = payload;
        created_at = now;
      }
        ∷ [];
  outbox =
      db.outbox
      ++ record {
        outbox_id = db.next_outbox_id;
        aggregate_id = job_id;
        payload = record { event_id = db.next_event_id; tenant_id = tenant_id; kind = kind };
        created_at = now;
        published_at = none;
        lock_owner = none;
        lock_expires_at = none;
        attempts = 0;
      }
        ∷ [];
  next_event_id = db.next_event_id + 1;
  next_outbox_id = db.next_outbox_id + 1;
}

-- `t < now` in SQL, where NULL passes no test.
abbrev pub expired : ℕ → Option ℕ → Bool
expired now none = false
expired now (some t) = ltb t now

abbrev pub unexpired : ℕ → Option ℕ → Bool
unexpired now none = false
unexpired now (some t) = leb now t

abbrev pub owned_by : String → Option String → Bool
owned_by owner none = false
owned_by owner (some o) = str_eq o owner

abbrev pub seconds : ℕ → ℕ
seconds n = 1_000_000 * n

-- The WHERE clause of the candidates for a lease.
unfoldable pub claimable : ℕ → Job → Bool
claimable now j =
    (is_queued j.state || (is_running j.state && expired now j.lease_expires_at))
    && (ltb j.attempt j.max_attempts && not j.cancel_requested)

-- ORDER BY created_at, job_id.
unfoldable pub precedes : Job → Job → Bool
precedes j k =
    ltb j.created_at k.created_at || (j.created_at == k.created_at && leb j.job_id k.job_id)

unfoldable pub earlier : Job → Option Job → Job
unfolding precedes
earlier j none = j
earlier j (some k) = if precedes j k then j else k

-- The first candidate in order. Rows that another transaction has locked are skipped.
abbrev pub free : (ℕ → Bool) → ℕ → Job → Bool
free locked now j = claimable now j && not (locked j.job_id)

unfoldable pub candidate : (ℕ → Bool) → ℕ → List Job → Option Job
unfolding earlier claimable
candidate locked now [] = none
candidate locked now (j ∷ js) =
    if free locked now j
    then some (earlier j (candidate locked now js))
    else candidate locked now js

-- Every UPDATE of a job row runs the trigger `dsvire_touch_updated_at`.
abbrev pub touch : ℕ → Job → Job
touch now j = record j { updated_at = now }

abbrev pub has_job_id : ℕ → Job → Bool
has_job_id job_id j = j.job_id == job_id

unfoldable pub lease_row : ℕ → String → ℕ → Job → Job
lease_row now owner lease_seconds j = touch now (record j {
  state = running;
  stage = "starting";
  attempt = j.attempt + 1;
  lease_owner = some owner;
  lease_expires_at = some (now + seconds lease_seconds);
})

abbrev pub lease_of : Job → Document → Lease
lease_of j d = record {
  job_id = j.job_id;
  tenant_id = j.tenant_id;
  document = d.ref;
  request = j.request;
  attempt = j.attempt;
  cancel_requested = j.cancel_requested;
}

-- The UPDATE of `lease_next` for the candidate `c`, joined with its document.
unfoldable pub grant : ℕ → String → ℕ → Job → Option Document → Db → Option Lease × Db
unfolding lease_row log_event
grant now owner lease_seconds c none db = (none, db)
grant now owner lease_seconds c (some d) db =
    let j = lease_row now owner lease_seconds c in
    (
      some (lease_of j d),
      log_event now j.tenant_id j.job_id Kind.leased (object1 "attempt" (num j.attempt))
          (record db {
            jobs = update (has_job_id c.job_id) (lease_row now owner lease_seconds) db.jobs;
          }),
    )

unfoldable pub lease_candidate : ℕ → String → ℕ → Option Job → Db → Option Lease × Db
unfolding grant
lease_candidate now owner lease_seconds none db = (none, db)
lease_candidate now owner lease_seconds (some c) db =
    grant now owner lease_seconds c (find (λ d. d.document_id == c.document_id) db.documents) db

unfoldable pub lease_next : (ℕ → Bool) → ℕ → String → ℕ → Db → Option Lease × Db
unfolding lease_candidate candidate
lease_next locked now owner lease_seconds db =
    lease_candidate now owner lease_seconds (candidate locked now db.jobs) db

-- The row of a job whose lease the owner still holds.
unfoldable pub holds : ℕ → ℕ → String → Job → Bool
holds now job_id owner j =
    has_job_id job_id j
    && (owned_by owner j.lease_owner && (is_running j.state && unexpired now j.lease_expires_at))

unfoldable pub beat_row : ℕ → String → ℕ → Job → Job
beat_row now stage lease_seconds j =
    touch now (record j { stage = stage; lease_expires_at = some (now + seconds lease_seconds) })

unfoldable pub beat : ℕ → ℕ → String → String → ℕ → Option Job → Db → Bool × Db
unfolding beat_row log_event holds
beat now job_id owner stage lease_seconds none db = (false, db)
beat now job_id owner stage lease_seconds (some j) db = (
  not j.cancel_requested,
  log_event now j.tenant_id job_id Kind.progress (object1 "stage" (str stage)) (record db {
    jobs = update (holds now job_id owner) (beat_row now stage lease_seconds) db.jobs;
  }),
)

unfoldable pub heartbeat : ℕ → ℕ → String → String → ℕ → Db → Bool × Db
unfolding beat
heartbeat now job_id owner stage lease_seconds db =
    beat now job_id owner stage lease_seconds (find (holds now job_id owner) db.jobs) db

-- The row that `finish` selects: the expiry of the lease is not tested.
unfoldable pub leased_to : ℕ → String → Job → Bool
leased_to job_id owner j =
    has_job_id job_id j && (owned_by owner j.lease_owner && is_running j.state)

pub record Outcome : Type 0 where
  pub state : State
  pub stage : String
  pub kind : Kind

-- The branches of `finish`, in the source's order.
unfoldable pub outcome : Bool → Bool → Bool → Outcome
outcome cancel_requested has_result may_retry =
    if cancel_requested
    then record { state = cancelled; stage = "cancelled"; kind = Kind.cancelled }
    else if has_result
    then record { state = succeeded; stage = "complete"; kind = Kind.succeeded }
    else if may_retry
    then record { state = queued; stage = "retrying"; kind = Kind.retrying }
    else record { state = failed; stage = "failed"; kind = Kind.failed }

unfoldable pub finish_row : ℕ → Outcome → Option Json → Option String → Job → Job
finish_row now o result error_code j = touch now (record j {
  state = o.state;
  stage = o.stage;
  result = result;
  error_code = error_code;
  lease_owner = none;
  lease_expires_at = none;
  completed_at = if is_terminal o.state then some now else none;
})

-- `{"error_code": error_code} if error_code else {}`; an empty text is falsy.
abbrev pub error_payload : Option String → Json
error_payload none = obj end
error_payload (some e) = if str_eq e "" then obj end else object1 "error_code" (str e)

-- The WHERE clause of the UPDATE names the job and the owner.
unfoldable pub owns : ℕ → String → Job → Bool
owns job_id owner j = has_job_id job_id j && owned_by owner j.lease_owner

unfoldable pub finish_current :
    ℕ → ℕ → String → Option Json → Option String → Bool → Option Job → Db → Result DbError Db
unfolding outcome finish_row owns log_event
finish_current now job_id owner result error_code retryable none db = err job_not_found
finish_current now job_id owner result error_code retryable (some j) db =
    let o =
      outcome j.cancel_requested (is_some result) (retryable && ltb j.attempt j.max_attempts) in
    ok (
      log_event now j.tenant_id job_id o.kind (error_payload error_code) (record db {
        jobs = update (owns job_id owner) (finish_row now o result error_code) db.jobs;
      }))

unfoldable pub finish : ℕ → ℕ → String → Option Json → Option String → Bool → Db → Result DbError Db
unfolding finish_current leased_to
finish now job_id owner result error_code retryable db =
    finish_current now job_id owner result error_code retryable
      (find (leased_to job_id owner) db.jobs) db
