-- ===== src/Platform/Fencing.antt =====
-- Who may report on a job: `heartbeat` and `finish` of src/dsvire/platform_db.py answer only the
-- owner of the lease.
use tokito_dsvire.Prelude.{
  ℕ, ◌<◌, String, Bool, true, false, ◌&&◌, Option, none, some, ◌≡◌, ◌≢◌, refl, ◌∙◌, ap, subst,
  arith, if◌then◌else◌, is_some, find, update, find-true, In, find-In, find-none, same-row, All-In,
  ◌⊎◌, ◌↔◌, ltb, ok, err, eq_iff,
}
use tokito_dsvire.Platform.Tables.{
  Json, job_not_found, queued, running, succeeded, cancelled, is_terminal, Job, Db,
}
use tokito_dsvire.Platform.Queue.{
  log_event, beat_row, heartbeat, holds, owned_by, error_payload, finish_row, owns, outcome,
  leased_to, finish, unexpired,
}
use tokito_dsvire.Platform.Unique.{id_of}
use tokito_dsvire.Platform.Leasing.{changed, kept}
use tokito_dsvire.Platform.Steps.{IsValid}

owned_by-eq : (owner : String) (o : Option String) → owned_by owner o ≡ true → o ≡ some owner
owned_by-eq owner none h = cc
owned_by-eq owner (some x) h = ap some ((eq_iff x owner).0 h)

owned_by-some : (owner : String) (o : Option String) → o ≡ some owner → owned_by owner o ≡ true
owned_by-some owner none h = cc
owned_by-some owner (some x) h = (eq_iff x owner).1 (ground arith)

-- What the owner's `finish` makes of its job.
pub record Settlement (now : ℕ) (owner : String) (result : Option Json) (error_code : Option String)
    (retryable : Bool) (j : Job) (db : Db) : Type 0 where
  pub later : Db
  pub job' : Job
  pub commits : finish now j.job_id owner result error_code retryable db ≡ ok later
  pub row : In job' later.jobs
  pub named : job'.job_id ≡ j.job_id
  pub freed : (job'.lease_owner ≡ none) × (job'.lease_expires_at ≡ none)
  pub written : (job'.result ≡ result) × (job'.error_code ≡ error_code)
  pub cancelled_iff : (job'.state ≡ cancelled) ↔ (j.cancel_requested ≡ true)
  pub succeeded_iff :
      (job'.state ≡ succeeded) ↔ ((j.cancel_requested ≡ false) × (is_some result ≡ true))
  pub queued_iff : (job'.state ≡ queued) ↔ (
      (j.cancel_requested ≡ false)
      × (result ≡ none)
      × (retryable ≡ true)
      × (j.attempt < j.max_attempts))
  pub stamped : job'.completed_at ≡ (if is_terminal job'.state then some now else none)
  pub open_queued : is_terminal job'.state ≡ false → job'.state ≡ queued
  pub others : (k : Job) → In k db.jobs → k.job_id ≢ j.job_id → In k later.jobs

module _ (db : Db) (v : IsValid db) (j : Job) (m : In j db.jobs) where
  same :
      (q : Job → Bool)
      → ((x : Job) → q x ≡ true → x.job_id ≡ j.job_id)
      → (x : Job) → In x db.jobs
      → q x ≡ true
      → x ≡ j
  same q id x n t = same-row id_of db.jobs v.keyed.ids n m (id x t)

  found_by :
      (q : Job → Bool)
      → ((x : Job) → q x ≡ true → x.job_id ≡ j.job_id)
      → find q db.jobs ≡ (if q j then some j else none)
  found_by q id = split (find q db.jobs) refl
    where
      split :
          (o : Option Job) → find q db.jobs ≡ o → find q db.jobs ≡ (if q j then some j else none)
      split none e = rw (All-In (λ x. q x ≡ false) db.jobs (find-none q db.jobs e) m) e
      split (some x) e =
          let p = same q id x (find-In q db.jobs e) (find-true q db.jobs e) in
          rw (subst (λ y. q y ≡ true) p (find-true q db.jobs e)) (e ∙ ap some p)

  -- Only the holder of an unexpired lease gets a heartbeat through: it is told to go on exactly
  -- when the job runs under its name, its lease has not expired and no cancellation is requested.
  pub heartbeat-true :
      (now : ℕ) (owner stage : String) (secs : ℕ)
      → ((heartbeat now j.job_id owner stage secs db).0 ≡ true) ↔ (
          (j.state ≡ running)
          × (j.lease_owner ≡ some owner)
          × (unexpired now j.lease_expires_at ≡ true)
          × (j.cancel_requested ≡ false))
  unfolding heartbeat
  heartbeat-true now owner stage secs =
      rw (found_by (holds now j.job_id owner) (λ x t. ground arith)) (
        (λ h. ground (arith, owned_by-eq owner j.lease_owner)),
        (λ h. ground (arith, owned_by-some owner j.lease_owner)),
      )

  -- Anyone else's heartbeat is answered with false and changes nothing.
  pub heartbeat_foreign :
      (now : ℕ) (owner stage : String) (secs : ℕ)
      → (j.lease_owner ≢ some owner) ⊎ (unexpired now j.lease_expires_at ≡ false)
      → heartbeat now j.job_id owner stage secs db ≡ (false, db)
  unfolding heartbeat
  heartbeat_foreign now owner stage secs h =
      rw (found_by (holds now j.job_id owner) (λ x t. ground arith))
        (ground (arith, owned_by-eq owner j.lease_owner))

  -- Only the owner of a running job can finish it: to anyone else `finish` raises JobNotFound.
  pub finish_fenced :
      (now : ℕ) (owner : String) (result : Option Json) (error_code : Option String)
      (retryable : Bool)
      → (j.lease_owner ≢ some owner) ⊎ (j.state ≢ running)
      → finish now j.job_id owner result error_code retryable db ≡ err job_not_found
  unfolding finish
  finish_fenced now owner result error_code retryable h =
      rw (found_by (leased_to j.job_id owner) (λ x t. ground arith))
        (ground (arith, owned_by-eq owner j.lease_owner))

  -- The owner's `finish` always commits. The job gives up its lease, and it is cancelled when a
  -- cancellation was requested, or else has succeeded when there is a result, or else is queued
  -- again when the error is retryable and attempts are left, or else has failed; exactly a job
  -- that is not queued again is stamped as completed. Other jobs are as before.
  pub finish_settles :
      (now : ℕ) (owner : String) (result : Option Json) (error_code : Option String)
      (retryable : Bool)
      → j.state ≡ running
      → j.lease_owner ≡ some owner
      → Settlement now owner result error_code retryable j db
  unfolding finish
  finish_settles now owner result error_code retryable run own =
      let may_retry : Bool = retryable && ltb j.attempt j.max_attempts in
      let o = outcome j.cancel_requested (is_some result) may_retry in
      let f = finish_row now o result error_code in
      let mine = owned_by-some owner j.lease_owner own in
      record {
        later =
            log_event now j.tenant_id j.job_id o.kind (error_payload error_code)
              (record db { jobs = update (owns j.job_id owner) f db.jobs });
        job' = f j;
        commits = rw (found_by (leased_to j.job_id owner) (λ x t. ground arith)) (ground arith);
        row = changed (owns j.job_id owner) f db.jobs j m (ground arith);
        named = refl;
        freed = (refl, refl);
        written = (refl, refl);
        cancelled_iff = (ground arith, ground arith);
        succeeded_iff = (ground arith, ground arith);
        queued_iff = (ground arith, ground arith);
        stamped = refl;
        open_queued = ground arith;
        others = λ k n ne. kept (owns j.job_id owner) f db.jobs k n (ground arith);
      }

  -- A heartbeat of the holder renews the lease.
  pub heartbeat_renews :
      (now : ℕ) (owner stage : String) (secs : ℕ)
      → j.state ≡ running
      → j.lease_owner ≡ some owner
      → unexpired now j.lease_expires_at ≡ true
      → In (beat_row now stage secs j) (heartbeat now j.job_id owner stage secs db).1.jobs
  unfolding heartbeat
  heartbeat_renews now owner stage secs run own live =
      let held : holds now j.job_id owner j ≡ true =
        ground (arith, owned_by-some owner j.lease_owner own) in
      rw (found_by (holds now j.job_id owner) (λ x t. ground arith), held)
        (changed (holds now j.job_id owner) (beat_row now stage secs) db.jobs j m held)
