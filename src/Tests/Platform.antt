-- ===== src/Tests/Platform.antt =====
-- Witnesses for the theorems on src/dsvire/platform_db.py.
use tokito_dsvire.Prelude.{
  ◌≤◌, ◌≡◌, ◌≢◌, ◌↔◌, refl, String, true, false, Option, none, some, [], ◌++◌, ok, err, In, inl,
  arith, length, eq_iff,
}
use tokito_dsvire.Platform.Tables
use tokito_dsvire.Platform.Tables.{
  Json, obj, end, object1, str, num, Job, Outbox, Event, Db, Lease, running, job_not_found,
  job_conflict, DbError,
}
use tokito_dsvire.Platform.Queue.{lease_next, finish, heartbeat, unexpired}
use tokito_dsvire.Platform.Submit.{Submission, submit, events}
use tokito_dsvire.Platform.Delivery.{claim_outbox, acknowledge_outbox}
use tokito_dsvire.Platform.Access.{ensure_tenant, issue_api_key}
use tokito_dsvire.Platform.Steps.{here, next, lease_step, IsValid, Reach-IsValid}
use tokito_dsvire.Platform.Log.{leases}
use tokito_dsvire.Platform.Lifecycle.{Step-Evolves, Next, Reach-terminal}
use tokito_dsvire.Platform.Leasing.{Granted, lease_next-Granted, Reach-leases}
use tokito_dsvire.Platform.Fencing.{Settlement, finish_settles, finish_fenced, heartbeat-true}
use tokito_dsvire.Platform.Idempotency.{submit_once}
use tokito_dsvire.Platform.Conflicts.{submit_conflict}
use tokito_dsvire.Platform.Stored.{IsFresh}
use tokito_dsvire.Platform.Submit.{document_allowed, job_allowed}
use tokito_dsvire.Prelude.{is_some, find, ◌==◌}
use tokito_dsvire.Platform.Stranded.{IsHeldFor, Held, Reach-stranded}
use tokito_dsvire.Platform.Replay.{events_resume, stream, cursor}
use tokito_dsvire.Tests.Sample.{
  after, digest, submission, seeded, submitted, leased, unlocked, seeded-Reach, leased-Reach,
  leased-IsValid, submits, job, job-In, ended, ended-all, pdf,
}

Reach-IsValid_example : IsValid leased
Reach-IsValid_example = Reach-IsValid leased-Reach

Step-Evolves_example : Next job (lease_next unlocked 300 "w2" 60 leased).1.jobs
Step-Evolves_example =
    Step-Evolves (lease_step unlocked 300 "w2" 60 leased) leased-IsValid job job-In

abbrev done_job : Job
done_job = record job {
  state = Tables.succeeded;
  stage = "complete";
  result = some (num 1);
  lease_owner = none;
  lease_expires_at = none;
  updated_at = 300;
  completed_at = some 300;
}

done-In : In done_job ended.jobs
unfolding ensure_tenant submit lease_next finish
done-In = inl refl

ended-IsValid : IsValid ended
ended-IsValid = Reach-IsValid ended-all

Reach-terminal_example : In done_job (lease_next unlocked 90_000_000 "w2" 60 ended).1.jobs
Reach-terminal_example =
    Reach-terminal (next here (lease_step unlocked 90_000_000 "w2" 60 ended)) ended-IsValid done_job
      done-In refl

abbrev lease : Lease
lease = record {
  job_id = 1;
  tenant_id = 7;
  document = pdf;
  request = object1 "mpn" (str "X1");
  attempt = 1;
  cancel_requested = false;
}

leases_it : (lease_next unlocked 200 "w1" 60 submitted).0 ≡ some lease
unfolding ensure_tenant submit lease_next
leases_it = refl

lease_next-Granted_example :
    Granted unlocked 200 "w1" 60 submitted (lease_next unlocked 200 "w1" 60 submitted).1 lease
lease_next-Granted_example = lease_next-Granted unlocked 200 "w1" 60 submitted leases_it

Reach-leases_example : (leases 1 leased.events ≤ 1) × (leases 1 leased.events ≤ 20)
Reach-leases_example = Reach-leases job leased-Reach job-In

finish_fenced_example : finish 300 1 "w2" none none false leased ≡ err job_not_found
finish_fenced_example =
    finish_fenced leased leased-IsValid job job-In 300 "w2" none none false (inl not_w2)
  where
    not_w2 : ◌≢◌ {A = Option String} (some "w1") (some "w2")
    not_w2 e = ground (arith, eq_iff "w1" "w2")

heartbeat-true_example : ((heartbeat 300 1 "w1" "extracting" 60 leased).0 ≡ true) ↔ (
    (job.state ≡ running)
    × (job.lease_owner ≡ some "w1")
    × (unexpired 300 job.lease_expires_at ≡ true)
    × (job.cancel_requested ≡ false))
heartbeat-true_example = heartbeat-true leased leased-IsValid job job-In 300 "w1" "extracting" 60

submit_once_example : submit 500 2 2 submission leased ≡ ok ((1, false), leased)
submit_once_example =
    submit_once 100 500 1 2 1 2 submission seeded (Reach-IsValid seeded-Reach) submits
      (next here (lease_step unlocked 200 "w1" 60 submitted))

abbrev other_request : Submission
other_request = record submission { request = object1 "mpn" (str "Y2") }

other_fits :
    (document_allowed other_request.document ≡ true)
    × (job_allowed other_request.idempotency_key other_request.max_attempts ≡ true)
unfolding document_allowed job_allowed
other_fits = (refl, refl)

tenant_there : is_some (find (λ t. t.tenant_id == other_request.tenant_id) leased.tenants) ≡ true
unfolding ensure_tenant submit lease_next
tenant_there = refl

two-IsFresh : IsFresh 2 leased
unfolding ensure_tenant submit lease_next
two-IsFresh = refl

submit_conflict_example : submit 500 2 2 other_request leased ≡ err job_conflict
submit_conflict_example =
    submit_conflict 100 500 1 2 1 2 submission other_request seeded-Reach submits
      (next here (lease_step unlocked 200 "w1" 60 submitted)) (refl, refl)
      (inl (λ e. ground (arith, eq_iff "X1" "Y2"))) other_fits tenant_there two-IsFresh

job-IsHeldFor : IsHeldFor "w1" 1 job
job-IsHeldFor = record { named = refl; runs = refl; held = refl; spent = inl (omega arith) }

Reach-stranded_example : Held "w1" 1 (lease_next unlocked 90_000_000 "w2" 60 leased).1.jobs
Reach-stranded_example =
    Reach-stranded "w1" 1 (next here (lease_step unlocked 90_000_000 "w2" 60 leased)) (tt, tt)
      leased-IsValid (job, job-In, job-IsHeldFor)

finish_settles_example : Settlement 300 "w1" none (some "worker_failed") true job leased
finish_settles_example =
    finish_settles leased leased-IsValid job job-In 300 "w1" none (some "worker_failed") true refl
      refl

-- The outbox after its first message is published.
abbrev published : Db
published = (acknowledge_outbox 400 "p" 1 (claim_outbox unlocked 300 "p" 1 leased).1).1

abbrev first_message : Outbox
first_message = record {
  outbox_id = 1;
  aggregate_id = 1;
  payload = record { event_id = 1; tenant_id = 7; kind = Tables.Kind.queued };
  created_at = 100;
  published_at = some 400;
  lock_owner = none;
  lock_expires_at = none;
  attempts = 1;
}

message-In : In first_message published.outbox
unfolding ensure_tenant submit lease_next claim_outbox acknowledge_outbox
message-In = inl refl

events_resume_example :
    (events 7 1 0 1 leased ++ stream 7 1 (cursor 0 (events 7 1 0 1 leased)) leased.events
      ≡ stream 7 1 0 leased.events)
    × (length (events 7 1 0 1 leased) ≤ 500)
    × (events 7 1 0 1 leased ≡ [] → stream 7 1 0 leased.events ≡ [])
events_resume_example = events_resume 7 1 0 1 leased leased-IsValid.logged

abbrev hash : String → String
hash t = digest

abbrev keyed : Db
keyed = after (issue_api_key hash "secret" 7 "ci" seeded)

issues : issue_api_key hash "secret" 7 "ci" seeded ≡ ok ("dsv_live_secret", keyed)
unfolding ensure_tenant issue_api_key
issues = refl
