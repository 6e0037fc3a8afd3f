-- ===== src/Platform/Tables.antt =====
-- The rows of the tables in src/dsvire/sql/001_platform.sql, and the records and exceptions of
-- src/dsvire/platform_db.py and src/dsvire/object_store.py that stand in them. A uuid and a
-- bigint are numbers, and a timestamptz is a number of microseconds.
use native.Mathlib.Decide.{ℕ_discrete}
use tokito_dsvire.Prelude.{
  ℕ, String, Bool, true, false, Option, List, str_eq, eq_iff, Bool-cases, inl, inr, arith,
}

mutual
  -- A jsonb value, the fields of an object in key order.
  pub data Json : Type 0 where
    null : Json
    bool : Bool → Json
    num : ℕ → Json
    str : String → Json
    arr : Items → Json
    obj : Fields → Json

  pub data Items : Type 0 where
    nil : Items
    cons : Json → Items → Items

  pub data Fields : Type 0 where
    end : Fields
    field : String → Json → Fields → Fields

pub String-discrete : Discrete String
String-discrete a b = elim (Bool-cases (str_eq a b)) [
  | inl e ↦ yes ((eq_iff a b).0 e)
  | inr e ↦ no (λ p. ground (arith, (eq_iff a b).1 p))
]

pub Json-discrete : Discrete Json
Json-discrete = hlevel (ℕ_discrete, String-discrete)

abbrev pub object1 : String → Json → Json
object1 k v = obj (field k v end)

pub record ObjectRef : Type 0 where
  pub key : String
  pub sha256 : String
  pub size : ℕ
  pub content_type : String

-- The exceptions of the module, and the errors of the database that its statements can raise.
pub data DbError : Type 0 where
  job_conflict job_not_found disappeared : DbError
  check_violation unique_violation foreign_key_violation : DbError

-- dsvire_job_state
pub data State : Type 0 where
  queued running succeeded failed cancelled : State

abbrev pub is_queued : State → Bool
is_queued queued = true
is_queued _ = false

abbrev pub is_running : State → Bool
is_running running = true
is_running _ = false

abbrev pub is_terminal : State → Bool
is_terminal succeeded = true
is_terminal failed = true
is_terminal cancelled = true
is_terminal _ = false

-- The kinds of event that the program logs.
pub data Kind : Type 0 where
  queued leased progress cancelled succeeded retrying failed cancel_requested : Kind

abbrev pub is_leased : Kind → Bool
is_leased Kind.leased = true
is_leased _ = false

abbrev pub kind_text : Kind → String
kind_text Kind.queued = "queued"
kind_text Kind.leased = "leased"
kind_text Kind.progress = "progress"
kind_text Kind.cancelled = "cancelled"
kind_text Kind.succeeded = "succeeded"
kind_text Kind.retrying = "retrying"
kind_text Kind.failed = "failed"
kind_text Kind.cancel_requested = "cancel_requested"

pub record Tenant : Type 0 where
  pub tenant_id : ℕ
  pub slug : String

pub record ApiKey : Type 0 where
  pub tenant_id : ℕ
  pub label : String
  pub token_sha256 : String
  pub last_used_at : Option ℕ
  pub revoked_at : Option ℕ

pub record Document : Type 0 where
  pub document_id : ℕ
  pub tenant_id : ℕ
  pub ref : ObjectRef

pub record Job : Type 0 where
  pub job_id : ℕ
  pub tenant_id : ℕ
  pub document_id : ℕ
  pub idempotency_key : String
  pub state : State
  pub stage : String
  pub request : Json
  pub attempt : ℕ
  pub max_attempts : ℕ
  pub lease_owner : Option String
  pub lease_expires_at : Option ℕ
  pub cancel_requested : Bool
  pub result : Option Json
  pub error_code : Option String
  pub created_at : ℕ
  pub updated_at : ℕ
  pub completed_at : Option ℕ

pub record Event : Type 0 where
  pub event_id : ℕ
  pub job_id : ℕ
  pub tenant_id : ℕ
  pub kind : Kind
  pub payload : Json
  pub created_at : ℕ

-- The payload of an outbox row is the object that `_event` builds.
pub record Notice : Type 0 where
  pub event_id : ℕ
  pub tenant_id : ℕ
  pub kind : Kind

pub record Outbox : Type 0 where
  pub outbox_id : ℕ
  pub aggregate_id : ℕ
  pub payload : Notice
  pub created_at : ℕ
  pub published_at : Option ℕ
  pub lock_owner : Option String
  pub lock_expires_at : Option ℕ
  pub attempts : ℕ

-- The database. Rows stand in the order in which they were inserted, and the two counters are
-- those of the identity columns.
pub record Db : Type 0 where
  pub tenants : List Tenant
  pub api_keys : List ApiKey
  pub documents : List Document
  pub jobs : List Job
  pub events : List Event
  pub outbox : List Outbox
  pub next_event_id : ℕ
  pub next_outbox_id : ℕ

pub record Lease : Type 0 where
  pub job_id : ℕ
  pub tenant_id : ℕ
  pub document : ObjectRef
  pub request : Json
  pub attempt : ℕ
  pub cancel_requested : Bool

pub record OutboxMessage : Type 0 where
  pub outbox_id : ℕ
  pub aggregate_id : ℕ
  pub payload : Notice
