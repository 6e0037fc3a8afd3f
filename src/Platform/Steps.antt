-- ===== src/Platform/Steps.antt =====
-- The database of src/dsvire/platform_db.py under any sequence of its transactions, by any
-- clients and workers, at any times.
use tokito_dsvire.Prelude.{ℕ, String, Bool, Option, [], ◌≡◌, refl, ok, arith}
use tokito_dsvire.Platform.Tables.{Json, Db}
use tokito_dsvire.Platform.Queue.{lease_next, heartbeat, finish}
use tokito_dsvire.Platform.Submit.{Submission, submit, request_cancel}
use tokito_dsvire.Platform.Delivery.{claim_outbox, acknowledge_outbox}
use tokito_dsvire.Platform.Access.{ensure_tenant, issue_api_key, authenticate}
use tokito_dsvire.Platform.Unique.{
  IsKeyed, lease_next-IsKeyed, heartbeat-IsKeyed, finish-IsKeyed, request_cancel-IsKeyed,
  submit-IsKeyed,
}
use tokito_dsvire.Platform.Checks.{
  AllSound, lease_next-AllSound, heartbeat-AllSound, finish-AllSound, request_cancel-AllSound,
  submit-AllSound,
}
use tokito_dsvire.Platform.Log.{IsLogged}
use tokito_dsvire.Platform.Journal.{
  lease_next-IsLogged, heartbeat-IsLogged, finish-IsLogged, request_cancel-IsLogged,
  submit-IsLogged, claim_outbox-IsLogged, acknowledge_outbox-IsLogged,
}

abbrev pub empty : Db
empty = record {
  tenants = [];
  api_keys = [];
  documents = [];
  jobs = [];
  events = [];
  outbox = [];
  next_event_id = 1;
  next_outbox_id = 1;
}

-- One committed transaction.
pub data Step : Db → Db → Type 0 where
  submit_step :
      (now fd fj : ℕ) (s : Submission) {db db' : Db} (r : ℕ × Bool)
      → submit now fd fj s db ≡ ok (r, db')
      → Step db db'
  lease_step :
      (locked : ℕ → Bool) (now : ℕ) (owner : String) (secs : ℕ) (db : Db)
      → Step db (lease_next locked now owner secs db).1
  heartbeat_step :
      (now job_id : ℕ) (owner stage : String) (secs : ℕ) (db : Db)
      → Step db (heartbeat now job_id owner stage secs db).1
  finish_step :
      (now job_id : ℕ) (owner : String) (result : Option Json) (error_code : Option String)
      (retryable : Bool) {db db' : Db}
      → finish now job_id owner result error_code retryable db ≡ ok db'
      → Step db db'
  cancel_step :
      (now tenant_id job_id : ℕ) (db : Db) → Step db (request_cancel now tenant_id job_id db).1
  claim_step :
      (locked : ℕ → Bool) (now : ℕ) (owner : String) (limit : ℕ) (db : Db)
      → Step db (claim_outbox locked now owner limit db).1
  acknowledge_step :
      (now : ℕ) (owner : String) (outbox_id : ℕ) (db : Db)
      → Step db (acknowledge_outbox now owner outbox_id db).1
  tenant_step :
      (fresh : ℕ) (slug : String) {db db' : Db} (r : ℕ)
      → ensure_tenant fresh slug db ≡ ok (r, db')
      → Step db db'
  key_step :
      (sha256 : String → String) (secret : String) (tenant_id : ℕ) (label : String) {db db' : Db}
      (token : String)
      → issue_api_key sha256 secret tenant_id label db ≡ ok (token, db')
      → Step db db'
  authenticate_step :
      (sha256 : String → String) (now : ℕ) (token : String) (db : Db)
      → Step db (authenticate sha256 now token db).1

pub data Reach (s : Db) : Db → Type 0 where
  here : Reach s s
  next : {t u : Db} → Reach s t → Step t u → Reach s u

pub record IsValid (db : Db) : Type 0 where
  pub keyed : IsKeyed db
  pub sound : AllSound db
  pub logged : IsLogged db

-- Two databases with the same jobs, events and outbox.
pub record SameWork (db db' : Db) : Type 0 where
  pub jobs : db'.jobs ≡ db.jobs
  pub events : db'.events ≡ db.events
  pub outbox : db'.outbox ≡ db.outbox
  pub event_counter : db'.next_event_id ≡ db.next_event_id
  pub outbox_counter : db'.next_outbox_id ≡ db.next_outbox_id

pub ensure_tenant-SameWork :
    (fresh : ℕ) (slug : String) (db : Db) {r : ℕ} {db' : Db}
    → ensure_tenant fresh slug db ≡ ok (r, db')
    → SameWork db db'
unfolding ensure_tenant
ensure_tenant-SameWork fresh slug db h = ground arith

pub issue_api_key-SameWork :
    (sha256 : String → String) (secret : String) (tenant_id : ℕ) (label : String) (db : Db)
    {token : String} {db' : Db}
    → issue_api_key sha256 secret tenant_id label db ≡ ok (token, db')
    → SameWork db db'
unfolding issue_api_key
issue_api_key-SameWork sha256 secret tenant_id label db h = ground arith

pub authenticate-SameWork :
    (sha256 : String → String) (now : ℕ) (token : String) (db : Db)
    → SameWork db (authenticate sha256 now token db).1
unfolding authenticate
authenticate-SameWork sha256 now token db = ground arith

SameWork-IsValid : {db db' : Db} → SameWork db db' → IsValid db → IsValid db'
SameWork-IsValid s v = record {
  keyed = record { ids = rw s.jobs v.keyed.ids; keys = rw s.jobs v.keyed.keys };
  sound = rw s.jobs v.sound;
  logged = record {
    event_ids = rw (s.events, s.event_counter) v.logged.event_ids;
    outbox_ids = rw (s.outbox, s.outbox_counter) v.logged.outbox_ids;
    paired = rw (s.events, s.outbox) v.logged.paired;
    counted = rw (s.jobs, s.events) v.logged.counted;
    known = rw (s.jobs, s.events) v.logged.known;
  };
}

-- Every transaction keeps the invariant.
pub Step-IsValid : {db db' : Db} → Step db db' → IsValid db → IsValid db'
Step-IsValid (submit_step now fd fj s {db} r e) v = record {
  keyed = submit-IsKeyed now fd fj s db e v.keyed;
  sound = submit-AllSound now fd fj s db e v.sound;
  logged = submit-IsLogged now fd fj s db e v.logged;
}
Step-IsValid (lease_step locked now owner secs db) v = record {
  keyed = lease_next-IsKeyed locked now owner secs db v.keyed;
  sound = lease_next-AllSound locked now owner secs db v.keyed v.sound;
  logged = lease_next-IsLogged locked now owner secs db v.logged;
}
Step-IsValid (heartbeat_step now job_id owner stage secs db) v = record {
  keyed = heartbeat-IsKeyed now job_id owner stage secs db v.keyed;
  sound = heartbeat-AllSound now job_id owner stage secs db v.sound;
  logged = heartbeat-IsLogged now job_id owner stage secs db v.logged;
}
Step-IsValid (finish_step now job_id owner result error_code retryable {db} e) v = record {
  keyed = finish-IsKeyed now job_id owner result error_code retryable db e v.keyed;
  sound = finish-AllSound now job_id owner result error_code retryable db e v.keyed v.sound;
  logged = finish-IsLogged now job_id owner result error_code retryable db e v.logged;
}
Step-IsValid (cancel_step now tenant_id job_id db) v = record {
  keyed = request_cancel-IsKeyed now tenant_id job_id db v.keyed;
  sound = request_cancel-AllSound now tenant_id job_id db v.sound;
  logged = request_cancel-IsLogged now tenant_id job_id db v.logged;
}
Step-IsValid (claim_step locked now owner limit db) v = record {
  keyed = unfold claim_outbox in record { ids = v.keyed.ids; keys = v.keyed.keys };
  sound = unfold claim_outbox in v.sound;
  logged = claim_outbox-IsLogged locked now owner limit db v.logged;
}
Step-IsValid (acknowledge_step now owner outbox_id db) v = record {
  keyed = unfold acknowledge_outbox in record { ids = v.keyed.ids; keys = v.keyed.keys };
  sound = unfold acknowledge_outbox in v.sound;
  logged = acknowledge_outbox-IsLogged now owner outbox_id db v.logged;
}
Step-IsValid (tenant_step fresh slug {db} r e) v =
    SameWork-IsValid (ensure_tenant-SameWork fresh slug db e) v
Step-IsValid (key_step sha256 secret tenant_id label {db} token e) v =
    SameWork-IsValid (issue_api_key-SameWork sha256 secret tenant_id label db e) v
Step-IsValid (authenticate_step sha256 now token db) v =
    SameWork-IsValid (authenticate-SameWork sha256 now token db) v

empty-IsValid : IsValid empty
empty-IsValid = record {
  keyed = record { ids = tt; keys = tt };
  sound = tt;
  logged = record {
    event_ids = omega arith;
    outbox_ids = omega arith;
    paired = refl;
    counted = tt;
    known = tt;
  };
}

reached : {db : Db} → IsValid empty → Reach empty db → IsValid db
reached v here = v
reached v (next r s) = Step-IsValid s (reached v r)

-- After any sequence of transactions from the empty database, the job ids and the pairs of tenant
-- and idempotency key are distinct; every job meets the CHECK constraints of its table, on its key,
-- attempts, lease and completion, and is leased exactly while it runs; event and outbox ids climb; the outbox holds exactly one message
-- for each event, in order; and the number of `leased` events of a job is its attempt.
pub Reach-IsValid : {db : Db} → Reach empty db → IsValid db
Reach-IsValid r = reached empty-IsValid r
