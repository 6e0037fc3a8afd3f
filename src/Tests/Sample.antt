-- ===== src/Tests/Sample.antt =====
-- A small database, reached by transactions: one tenant, one job, leased to the worker "w1" on
-- its only attempt.
use tokito_dsvire.Prelude.{
  ℕ, String, Bool, true, false, none, some, ◌≡◌, refl, Result, ok, err, In, inl,
}
use tokito_dsvire.Platform.Tables.{object1, str, num, ObjectRef, Job, Db, DbError, running}
use tokito_dsvire.Platform.Queue.{lease_next, finish}
use tokito_dsvire.Platform.Submit.{Submission, submit}
use tokito_dsvire.Platform.Access.{ensure_tenant}
use tokito_dsvire.Platform.Steps.{
  Reach, here, next, tenant_step, submit_step, lease_step, finish_step, empty, IsValid,
  Reach-IsValid,
}

abbrev pub after : {A : Type 0} → Result DbError (A × Db) → Db
after (ok (a, db)) = db
after (err e) = empty

abbrev pub digest : String
digest = "0123456789abcdef0123456789abcdef0123456789abcdef0123456789abcdef"

abbrev pub pdf : ObjectRef
pdf = record { key = "k"; sha256 = digest; size = 1000; content_type = "application/pdf" }

abbrev pub submission : Submission
submission = record {
  tenant_id = 7;
  document = pdf;
  idempotency_key = "key-00001";
  request = object1 "mpn" (str "X1");
  max_attempts = 1;
}

abbrev pub seeded : Db
seeded = after (ensure_tenant 7 "acme" empty)

abbrev pub submitted : Db
submitted = after (submit 100 1 1 submission seeded)

abbrev pub unlocked : ℕ → Bool
unlocked i = false

abbrev pub leased : Db
leased = (lease_next unlocked 200 "w1" 60 submitted).1

pub seeds : ensure_tenant 7 "acme" empty ≡ ok (7, seeded)
unfolding ensure_tenant
seeds = refl

pub submits : submit 100 1 1 submission seeded ≡ ok ((1, true), submitted)
unfolding ensure_tenant submit
submits = refl

pub seeded-Reach : Reach empty seeded
seeded-Reach = next here (tenant_step 7 "acme" 7 seeds)

pub submitted-Reach : Reach empty submitted
submitted-Reach = next seeded-Reach (submit_step 100 1 1 submission (1, true) submits)

pub leased-Reach : Reach empty leased
leased-Reach = next submitted-Reach (lease_step unlocked 200 "w1" 60 submitted)

pub leased-IsValid : IsValid leased
leased-IsValid = Reach-IsValid leased-Reach

abbrev pub job : Job
job = record {
  job_id = 1;
  tenant_id = 7;
  document_id = 1;
  idempotency_key = "key-00001";
  state = running;
  stage = "starting";
  request = object1 "mpn" (str "X1");
  attempt = 1;
  max_attempts = 1;
  lease_owner = some "w1";
  lease_expires_at = some 60_000_200;
  cancel_requested = false;
  result = none;
  error_code = none;
  created_at = 100;
  updated_at = 200;
  completed_at = none;
}

pub job-In : In job leased.jobs
unfolding ensure_tenant submit lease_next
job-In = inl refl

abbrev pub ended : Db
ended = elim (finish 300 1 "w1" (some (num 1)) none false leased) [ ok db ↦ db | err e ↦ empty ]

pub ends : finish 300 1 "w1" (some (num 1)) none false leased ≡ ok ended
unfolding ensure_tenant submit lease_next finish
ends = refl

pub ended-all : Reach empty ended
ended-all = next leased-Reach (finish_step 300 1 "w1" (some (num 1)) none false ends)
