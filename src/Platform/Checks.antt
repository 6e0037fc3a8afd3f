-- ===== src/Platform/Checks.antt =====
-- The CHECK constraints of dsvire_job, with what the methods of src/dsvire/platform_db.py keep
-- beside them, for each row of the job table.
use tokito_dsvire.Prelude.{
  ℕ, ◌≤◌, String, Bool, true, false, ◌&&◌, Option, none, some, List, [], ◌∷◌, ◌≡◌, refl, arith, ltb,
  is_some, find, All, All-append, All-update, ok, In, find-In, find-true, All-update_at, Ensures,
  Ensures-ok, ◌==◌, ==-eq, text_length,
}
use tokito_dsvire.Platform.Tables.{
  Json, queued, running, succeeded, cancelled, is_running, is_terminal, Job, Document, Db,
}
use tokito_dsvire.Platform.Queue.{
  log_event, claimable, lease_row, grant, lease_candidate, candidate, lease_next, holds, beat_row,
  beat, heartbeat, leased_to, outcome, finish_row, owns, finish_current, finish, has_job_id,
}
use tokito_dsvire.Platform.Candidate.{candidate-In, candidate-claimable}
use tokito_dsvire.Platform.Unique.{IsKeyed, id_of}
use tokito_dsvire.Platform.Submission.{submit-Ensures, with_job}
use tokito_dsvire.Platform.Submit.{
  Submission, job_allowed, new_job, cancel_row, cancellable, request_cancel, cancel_found, submit,
}

owns-same :
    (job_id : ℕ) (owner : String) (x c : Job)
    → owns job_id owner x ≡ true
    → leased_to job_id owner c ≡ true
    → id_of x ≡ id_of c
unfolding owns leased_to
owns-same job_id owner x c h k = ground arith

pub record IsSound (j : Job) : Type 0 where
  pub key_sized : (8 ≤ text_length j.idempotency_key) × (text_length j.idempotency_key ≤ 200)
  pub attempts_bounded : j.attempt ≤ j.max_attempts
  pub max_bounded : (1 ≤ j.max_attempts) × (j.max_attempts ≤ 20)
  pub running_leased :
      j.state ≡ running → (is_some j.lease_owner ≡ true) × (is_some j.lease_expires_at ≡ true)
  pub idle_free : is_running j.state ≡ false → (j.lease_owner ≡ none) × (j.lease_expires_at ≡ none)
  pub running_attempted : j.state ≡ running → 1 ≤ j.attempt
  pub finished_stamped : is_terminal j.state ≡ true → is_some j.completed_at ≡ true
  pub open_unstamped : is_terminal j.state ≡ false → j.completed_at ≡ none
  pub queued_wanted : j.state ≡ queued → j.cancel_requested ≡ false
  pub cancelled_asked : j.state ≡ cancelled → j.cancel_requested ≡ true
  pub succeeded_result : j.state ≡ succeeded → is_some j.result ≡ true

abbrev pub AllSound : Db → Type 0
AllSound db = All IsSound db.jobs

new_job-IsSound :
    (now fresh document_id : ℕ) (s : Submission)
    → job_allowed s.idempotency_key s.max_attempts ≡ true
    → IsSound (new_job now fresh document_id s)
unfolding new_job job_allowed
new_job-IsSound now fresh document_id s h = ground arith

lease_row-IsSound :
    (now : ℕ) (owner : String) (secs : ℕ) (j : Job)
    → claimable now j ≡ true
    → IsSound j
    → IsSound (lease_row now owner secs j)
unfolding claimable lease_row
lease_row-IsSound now owner secs j h s = ground arith

beat_row-IsSound :
    (now job_id : ℕ) (owner stage : String) (secs : ℕ) (j : Job)
    → holds now job_id owner j ≡ true
    → IsSound j
    → IsSound (beat_row now stage secs j)
unfolding holds beat_row
beat_row-IsSound now job_id owner stage secs j h s = ground arith

finish_row-IsSound :
    (now : ℕ) (result : Option Json) (error_code : Option String) (may_retry : Bool) (j : Job)
    → IsSound j
    → IsSound
        (finish_row now (outcome j.cancel_requested (is_some result) may_retry) result error_code j)
unfolding finish_row outcome
finish_row-IsSound now result error_code may_retry j s = ground arith

cancel_row-IsSound :
    (now tenant_id job_id : ℕ) (j : Job)
    → cancellable tenant_id job_id j ≡ true
    → IsSound j
    → IsSound (cancel_row now j)
unfolding cancellable cancel_row
cancel_row-IsSound now tenant_id job_id j h s = ground arith

pub lease_next-AllSound :
    (locked : ℕ → Bool) (now : ℕ) (owner : String) (secs : ℕ) (db : Db)
    → IsKeyed db
    → AllSound db
    → AllSound (lease_next locked now owner secs db).1
unfolding lease_next
lease_next-AllSound locked now owner secs db k h = pick (candidate locked now db.jobs) refl
  where
    granted :
        (c : Job) (d : Option Document)
        → In c db.jobs
        → claimable now c ≡ true
        → AllSound (grant now owner secs c d db).1
    granted c none m t = h
    granted c (some d) m t =
        All-update_at id_of IsSound (has_job_id c.job_id) (lease_row now owner secs) db.jobs k.ids m
          (λ x e. ==-eq x.job_id c.job_id e) (lease_row-IsSound now owner secs c t) h

    pick :
        (o : Option Job)
        → candidate locked now db.jobs ≡ o
        → AllSound (lease_candidate now owner secs o db).1
    pick none e = h
    pick (some c) e =
        granted c (find (λ d. d.document_id == c.document_id) db.documents)
          (candidate-In locked now db.jobs e) (candidate-claimable locked now db.jobs e).0

pub heartbeat-AllSound :
    (now job_id : ℕ) (owner stage : String) (secs : ℕ) (db : Db)
    → AllSound db
    → AllSound (heartbeat now job_id owner stage secs db).1
unfolding heartbeat
heartbeat-AllSound now job_id owner stage secs db h = pick (find (holds now job_id owner) db.jobs)
  where
    pick : (o : Option Job) → AllSound (beat now job_id owner stage secs o db).1
    pick none = h
    pick (some c) =
        All-update IsSound (holds now job_id owner) (beat_row now stage secs) db.jobs
          (beat_row-IsSound now job_id owner stage secs) h

pub finish-AllSound :
    (now job_id : ℕ) (owner : String) (result : Option Json) (error_code : Option String)
    (retryable : Bool) (db : Db) {db' : Db}
    → finish now job_id owner result error_code retryable db ≡ ok db'
    → IsKeyed db
    → AllSound db
    → AllSound db'
unfolding finish
finish-AllSound now job_id owner result error_code retryable db e k h =
    Ensures-ok AllSound _ (pick (find (leased_to job_id owner) db.jobs) refl) e
  where
    pick :
        (o : Option Job)
        → find (leased_to job_id owner) db.jobs ≡ o
        → Ensures AllSound (finish_current now job_id owner result error_code retryable o db)
    pick none f = tt
    pick (some c) f =
        All-update_at id_of IsSound (owns job_id owner)
          (finish_row now
            (outcome c.cancel_requested (is_some result)
              (retryable && ltb c.attempt c.max_attempts))
            result error_code)
          db.jobs k.ids (find-In _ db.jobs f)
          (λ x t. owns-same job_id owner x c t (find-true _ db.jobs f))
          (finish_row-IsSound now result error_code _ c) h

pub request_cancel-AllSound :
    (now tenant_id job_id : ℕ) (db : Db)
    → AllSound db
    → AllSound (request_cancel now tenant_id job_id db).1
unfolding request_cancel
request_cancel-AllSound now tenant_id job_id db h =
    pick (find (cancellable tenant_id job_id) db.jobs)
  where
    pick : (o : Option Job) → AllSound (cancel_found now tenant_id job_id o db).1
    pick none = h
    pick (some c) =
        All-update IsSound (cancellable tenant_id job_id) (cancel_row now) db.jobs
          (cancel_row-IsSound now tenant_id job_id) h

pub submit-AllSound :
    (now fd fj : ℕ) (s : Submission) (db : Db) {r : ℕ × Bool} {db' : Db}
    → submit now fd fj s db ≡ ok (r, db')
    → AllSound db
    → AllSound db'
submit-AllSound now fd fj s db e h =
    Ensures-ok (λ r. AllSound r.1) _
      (submit-Ensures now fd fj s db (λ r. AllSound r.1) (λ d docs i a k f. added d docs a)
        (λ d docs j i k t. h))
      e
  where
    added :
        (d : ℕ) (docs : List Document)
        → job_allowed s.idempotency_key s.max_attempts ≡ true
        → AllSound (with_job now fj d s db docs)
    added d docs a =
        unfold log_event in
        All-append IsSound db.jobs (new_job now fj d s ∷ []) h (new_job-IsSound now fj d s a, tt)
