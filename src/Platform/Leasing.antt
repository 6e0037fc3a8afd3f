-- ===== src/Platform/Leasing.antt =====
-- What `lease_next`, `heartbeat` and `finish` of src/dsvire/platform_db.py promise a worker.
use tokito_dsvire.Prelude.{
  ℕ, ◌+◌, ◌*◌, ◌≤◌, ◌<◌, String, Bool, true, false, Option, none, some, List, ◌≡◌, ◌≢◌, refl, subst,
  arith, ◌==◌, ==_refl, find, update, In, set_if, In-update, All-In, ◌⊎◌,
}
use tokito_dsvire.Platform.Tables.{queued, running, Job, Document, Db, Lease}
use tokito_dsvire.Platform.Queue.{
  lease_row, grant, lease_candidate, candidate, free, claimable, precedes, lease_next, has_job_id,
  expired,
}
use tokito_dsvire.Platform.Candidate.{candidate-In, candidate-claimable, candidate-first}
use tokito_dsvire.Platform.Log.{leases}
use tokito_dsvire.Platform.Steps.{Reach, empty, Reach-IsValid}

-- The job may be leased.
pub record IsWaiting (locked : ℕ → Bool) (now : ℕ) (j : Job) : Type 0 where
  pub idle : (j.state ≡ queued) ⊎ ((j.state ≡ running) × (expired now j.lease_expires_at ≡ true))
  pub room : j.attempt + 1 ≤ j.max_attempts
  pub wanted : j.cancel_requested ≡ false
  pub unlocked : locked j.job_id ≡ false

-- The job is created before the other one, or at the same time and has no greater id.
abbrev pub Oldest : Job → Job → Type 0
Oldest j k = (j.created_at < k.created_at) ⊎ ((j.created_at ≡ k.created_at) × (j.job_id ≤ k.job_id))

-- The job `j` as it runs, with one attempt more, until its lease expires.
pub record Runs (now : ℕ) (owner : String) (secs : ℕ) (j j' : Job) : Type 0 where
  pub same_id : j'.job_id ≡ j.job_id
  pub same_request :
      (j'.tenant_id ≡ j.tenant_id)
      × (j'.idempotency_key ≡ j.idempotency_key)
      × (j'.document_id ≡ j.document_id)
      × (j'.request ≡ j.request)
  pub same_limit : j'.max_attempts ≡ j.max_attempts
  pub runs : j'.state ≡ running
  pub mine : j'.lease_owner ≡ some owner
  pub until : j'.lease_expires_at ≡ some (now + 1_000_000 * secs)
  pub spent : j'.attempt ≡ j.attempt + 1
  pub wanted : j'.cancel_requested ≡ j.cancel_requested
  pub unfinished : (j'.completed_at ≡ j.completed_at) × (j'.result ≡ j.result)

waiting_free :
    (locked : ℕ → Bool) (now : ℕ) (k : Job) → IsWaiting locked now k → free locked now k ≡ true
unfolding claimable
waiting_free locked now k w = ground (arith, w.idle, w.room, w.wanted, w.unlocked)

precedes-Oldest : (j k : Job) → precedes j k ≡ true → Oldest j k
unfolding precedes
precedes-Oldest j k h = ground (arith, h)

lease_row-Runs :
    (now : ℕ) (owner : String) (secs : ℕ) (j : Job)
    → Runs now owner secs j (lease_row now owner secs j)
unfolding lease_row
lease_row-Runs now owner secs j = record {
  same_id = refl;
  same_request = (refl, refl, refl, refl);
  same_limit = refl;
  runs = refl;
  mine = refl;
  until = refl;
  spent = refl;
  wanted = refl;
  unfinished = (refl, refl);
}

-- What a lease means.
pub record Granted (locked : ℕ → Bool) (now : ℕ) (owner : String) (secs : ℕ) (db db' : Db)
    (l : Lease) : Type 0 where
  pub job : Job
  pub row : In job db.jobs
  pub named : (l.job_id ≡ job.job_id) × (l.tenant_id ≡ job.tenant_id) × (l.request ≡ job.request)
  pub counted : l.attempt ≡ job.attempt + 1
  pub bounded : l.attempt ≤ job.max_attempts
  pub idle :
      (job.state ≡ queued) ⊎ ((job.state ≡ running) × (expired now job.lease_expires_at ≡ true))
  pub wanted : job.cancel_requested ≡ false
  pub unlocked : locked job.job_id ≡ false
  pub first : (k : Job) → In k db.jobs → IsWaiting locked now k → Oldest job k
  pub held : (j' : Job) × In j' db'.jobs × Runs now owner secs job j'
  pub others : (k : Job) → In k db.jobs → k.job_id ≢ l.job_id → In k db'.jobs

idle_claimable :
    (now : ℕ) (j : Job)
    → claimable now j ≡ true
    → ((j.state ≡ queued) ⊎ ((j.state ≡ running) × (expired now j.lease_expires_at ≡ true)))
      × (j.attempt + 1 ≤ j.max_attempts)
      × (j.cancel_requested ≡ false)
unfolding claimable
idle_claimable now j h = ground arith

pub kept :
    (p : Job → Bool) (f : Job → Job) (js : List Job) (j : Job)
    → In j js
    → p j ≡ false
    → In j (update p f js)
kept p f js j m e = subst (λ x. In x (update p f js)) (left e) (In-update p f js j m)
  where
    left : p j ≡ false → set_if p f j ≡ j
    left t = rw t

pub changed :
    (p : Job → Bool) (f : Job → Job) (js : List Job) (j : Job)
    → In j js
    → p j ≡ true
    → In (f j) (update p f js)
changed p f js j m e = subst (λ x. In x (update p f js)) (hit e) (In-update p f js j m)
  where
    hit : p j ≡ true → set_if p f j ≡ f j
    hit t = rw t

-- A lease is given only for a job that is queued or whose lease has expired, that has attempts
-- left, whose cancellation is not requested and that no other transaction has locked. It is the
-- oldest of these, the lease counts one attempt more, the job then runs for the owner until the
-- lease expires, and no other job changes.
pub lease_next-Granted :
    (locked : ℕ → Bool) (now : ℕ) (owner : String) (secs : ℕ) (db : Db) {l : Lease}
    → (lease_next locked now owner secs db).0 ≡ some l
    → Granted locked now owner secs db (lease_next locked now owner secs db).1 l
unfolding lease_next
lease_next-Granted locked now owner secs db {l} e = pick (candidate locked now db.jobs) refl e
  where
    granted :
        (c : Job) (d : Option Document)
        → candidate locked now db.jobs ≡ some c
        → (grant now owner secs c d db).0 ≡ some l
        → Granted locked now owner secs db (grant now owner secs c d db).1 l
    granted c none q e' = cc
    granted c (some d) q e' =
        let (t, u) = candidate-claimable locked now db.jobs q in
        let (idle, room, wanted) = idle_claimable now c t in
        let m = candidate-In locked now db.jobs q in
        record {
          job = c;
          row = m;
          named = ground arith;
          counted = ground arith;
          bounded = ground arith;
          idle = idle;
          wanted = wanted;
          unlocked = ground arith;
          first = λ k n w. precedes-Oldest c k (
              All-In _ db.jobs (candidate-first locked now db.jobs q) n
                (waiting_free locked now k w));
          held = (
            lease_row now owner secs c,
            changed (has_job_id c.job_id) (lease_row now owner secs) db.jobs c m (==_refl c.job_id),
            lease_row-Runs now owner secs c,
          );
          others = λ k n ne.
              kept (has_job_id c.job_id) (lease_row now owner secs) db.jobs k n (ground arith);
        }

    pick :
        (o : Option Job)
        → candidate locked now db.jobs ≡ o
        → (lease_candidate now owner secs o db).0 ≡ some l
        → Granted locked now owner secs db (lease_candidate now owner secs o db).1 l
    pick none q e' = cc
    pick (some c) q e' = granted c (find (λ d. d.document_id == c.document_id) db.documents) q e'

-- In any database that transactions have reached, the log holds at most `max_attempts` leases of
-- a job, and at most 20.
pub Reach-leases :
    {db : Db} (j : Job)
    → Reach empty db
    → In j db.jobs
    → (leases j.job_id db.events ≤ j.max_attempts) × (leases j.job_id db.events ≤ 20)
Reach-leases {db} j r m =
    let v = Reach-IsValid r in
    let s = All-In _ db.jobs v.sound m in
    let c = All-In _ db.jobs v.logged.counted m in
    omega (arith, c, s.attempts_bounded, s.max_bounded)
