-- ===== src/Platform/Stranded.antt =====
-- Jobs that `lease_next` of src/dsvire/platform_db.py cannot take over when their worker is gone.
use tokito_dsvire.Prelude.{
  ℕ, ◌≤◌, String, Bool, true, false, Option, none, some, List, ◌≡◌, ◌≢◌, refl, ap, arith, ◌==◌,
  ==-eq, find, update, In, same-row, In-update, In-append, set_if, Bool-cases, inl, inr, ◌⊎◌, ok,
  eq_iff, Ensures, Ensures-ok,
}
use tokito_dsvire.Platform.Tables.{Json, running, Job, Document, Db}
use tokito_dsvire.Platform.Queue.{
  log_event, lease_row, grant, lease_candidate, candidate, claimable, lease_next, beat_row, beat,
  heartbeat, holds, owns, leased_to, finish_current, finish, has_job_id,
}
use tokito_dsvire.Platform.Submit.{
  Submission, cancel_row, cancellable, request_cancel, cancel_found, submit,
}
use tokito_dsvire.Platform.Delivery.{claim_outbox, acknowledge_outbox}
use tokito_dsvire.Platform.Candidate.{candidate-In, candidate-claimable}
use tokito_dsvire.Platform.Submission.{submit-Ensures}
use tokito_dsvire.Platform.Unique.{id_of}
use tokito_dsvire.Platform.Lifecycle.{Reach-Valid}
use tokito_dsvire.Platform.Steps.{
  Step, submit_step, lease_step, heartbeat_step, finish_step, cancel_step, claim_step,
  acknowledge_step, tenant_step, key_step, authenticate_step, Reach, here, next, IsValid,
  ensure_tenant-SameWork, issue_api_key-SameWork, authenticate-SameWork,
}

-- A job that runs for `owner` and that nobody else may lease again: its attempts are used up, or
-- its cancellation is requested.
pub record IsHeldFor (owner : String) (job_id : ℕ) (j : Job) : Type 0 where
  pub named : j.job_id ≡ job_id
  pub runs : j.state ≡ running
  pub held : j.lease_owner ≡ some owner
  pub spent : (j.max_attempts ≤ j.attempt) ⊎ (j.cancel_requested ≡ true)

abbrev pub Held : String → ℕ → List Job → Type 0
Held owner i js = (j : Job) × In j js × IsHeldFor owner i j

-- The transaction is no `finish` by that owner.
abbrev pub Silent : String → {db db' : Db} → Step db db' → Type 0
Silent owner (finish_step now job_id o result error_code retryable e) = o ≢ owner
Silent owner _ = Unit

abbrev pub AllSilent : String → {db db' : Db} → Reach db db' → Type 0
AllSilent owner here = Unit
AllSilent owner (next r s) = AllSilent owner r × Silent owner s

updated-Held :
    (owner : String) (i : ℕ) (p : Job → Bool) (f : Job → Job) (js : List Job) (j : Job)
    → In j js
    → (p j ≡ true → IsHeldFor owner i (f j))
    → IsHeldFor owner i j
    → Held owner i (update p f js)
updated-Held owner i p f js j m to h = (set_if p f j, In-update p f js j m, still)
  where
    still : IsHeldFor owner i (set_if p f j)
    still = elim (Bool-cases (p j)) [ inl t ↦ rw t (to t) | inr t ↦ rw t h ]

not_claimable :
    (owner : String) (i now : ℕ) (j : Job) → IsHeldFor owner i j → claimable now j ≡ false
unfolding claimable
not_claimable owner i now j h = ground arith

module _ (owner : String) (i : ℕ) (db : Db) (v : IsValid db) (j : Job) (m : In j db.jobs)
    (h : IsHeldFor owner i j) where
  lease_next-Held :
      (locked : ℕ → Bool) (now : ℕ) (o : String) (secs : ℕ)
      → Held owner i (lease_next locked now o secs db).1.jobs
  unfolding lease_next
  lease_next-Held locked now o secs = pick (candidate locked now db.jobs) refl
    where
      granted :
          (c : Job) (d : Option Document)
          → In c db.jobs
          → claimable now c ≡ true
          → Held owner i (grant now o secs c d db).1.jobs
      granted c none n t = (j, m, h)
      granted c (some d) n t =
          updated-Held owner i (has_job_id c.job_id) (lease_row now o secs) db.jobs j m
            (λ e. absurd (
              ground (
                arith,
                not_claimable owner i now j h,
                ap (claimable now)
                    (same-row id_of db.jobs v.keyed.ids m n (==-eq j.job_id c.job_id e)),
              )))
            h

      pick :
          (q : Option Job)
          → candidate locked now db.jobs ≡ q
          → Held owner i (lease_candidate now o secs q db).1.jobs
      pick none e = (j, m, h)
      pick (some c) e =
          granted c (find (λ d. d.document_id == c.document_id) db.documents)
            (candidate-In locked now db.jobs e) (candidate-claimable locked now db.jobs e).0

  heartbeat-Held :
      (now job_id : ℕ) (o stage : String) (secs : ℕ)
      → Held owner i (heartbeat now job_id o stage secs db).1.jobs
  unfolding heartbeat
  heartbeat-Held now job_id o stage secs = pick (find (holds now job_id o) db.jobs)
    where
      pick : (q : Option Job) → Held owner i (beat now job_id o stage secs q db).1.jobs
      pick none = (j, m, h)
      pick (some c) =
          updated-Held owner i (holds now job_id o) (beat_row now stage secs) db.jobs j m
            (λ t. unfold beat_row in ground arith) h

  cancel-Held :
      (now tenant_id job_id : ℕ) → Held owner i (request_cancel now tenant_id job_id db).1.jobs
  unfolding request_cancel
  cancel-Held now tenant_id job_id = pick (find (cancellable tenant_id job_id) db.jobs)
    where
      pick : (q : Option Job) → Held owner i (cancel_found now tenant_id job_id q db).1.jobs
      pick none = (j, m, h)
      pick (some c) =
          updated-Held owner i (cancellable tenant_id job_id) (cancel_row now) db.jobs j m
            (λ t. ground arith) h

  finish-Held :
      (now job_id : ℕ) (o : String) (result : Option Json) (error_code : Option String)
      (retryable : Bool) {db' : Db}
      → o ≢ owner
      → finish now job_id o result error_code retryable db ≡ ok db'
      → Held owner i db'.jobs
  unfolding finish
  finish-Held now job_id o result error_code retryable ne e =
      Ensures-ok (λ d. Held owner i d.jobs) _ (pick (find (leased_to job_id o) db.jobs)) e
    where
      pick :
          (q : Option Job)
          → Ensures
              (λ d. Held owner i d.jobs)
              (finish_current now job_id o result error_code retryable q db)
      pick none = tt
      pick (some c) =
          updated-Held owner i (owns job_id o) _ db.jobs j m
            (λ t. absurd (ground (arith, h, eq_iff owner o))) h

  submit-Held :
      (now fd fj : ℕ) (s : Submission) {r : ℕ × Bool} {db' : Db}
      → submit now fd fj s db ≡ ok (r, db')
      → Held owner i db'.jobs
  submit-Held now fd fj s e =
      Ensures-ok (λ r. Held owner i r.1.jobs) _
        (submit-Ensures now fd fj s db (λ r. Held owner i r.1.jobs)
          (λ d docs x a k f. (j, unfold log_event in In-append db.jobs _ j m, h))
          (λ d docs x y k t. (j, m, h)))
        e

Step-Held :
    (owner : String) (i : ℕ) {db db' : Db} (s : Step db db')
    → Silent owner s
    → IsValid db
    → Held owner i db.jobs
    → Held owner i db'.jobs
Step-Held owner i (submit_step now fd fj s {db} r e) q v (j, m, h) =
    submit-Held owner i db v j m h now fd fj s e
Step-Held owner i (lease_step locked now o secs db) q v (j, m, h) =
    lease_next-Held owner i db v j m h locked now o secs
Step-Held owner i (heartbeat_step now job_id o stage secs db) q v (j, m, h) =
    heartbeat-Held owner i db v j m h now job_id o stage secs
Step-Held owner i (finish_step now job_id o result error_code retryable {db} e) q v (j, m, h) =
    finish-Held owner i db v j m h now job_id o result error_code retryable q e
Step-Held owner i (cancel_step now tenant_id job_id db) q v (j, m, h) =
    cancel-Held owner i db v j m h now tenant_id job_id
Step-Held owner i (claim_step locked now o limit db) q v h = unfold claim_outbox in h
Step-Held owner i (acknowledge_step now o outbox_id db) q v h = unfold acknowledge_outbox in h
Step-Held owner i (tenant_step fresh slug {db} r e) q v h =
    rw ((ensure_tenant-SameWork fresh slug db e).jobs) h
Step-Held owner i (key_step sha256 secret tenant_id label {db} token e) q v h =
    rw ((issue_api_key-SameWork sha256 secret tenant_id label db e).jobs) h
Step-Held owner i (authenticate_step sha256 now token db) q v h =
    rw ((authenticate-SameWork sha256 now token db).jobs) h

-- A job whose last attempt is running, or that runs while its cancellation is requested, depends
-- on its worker for ever: whatever else is done, at whatever times, and however long ago its lease
-- has expired, it is still running for that owner until that owner calls `finish`.
pub Reach-stranded :
    (owner : String) (i : ℕ) {db db' : Db} (r : Reach db db')
    → AllSilent owner r
    → IsValid db
    → Held owner i db.jobs
    → Held owner i db'.jobs
Reach-stranded owner i here q v h = h
Reach-stranded owner i (next r s) q v h =
    Step-Held owner i s q.1 (Reach-Valid r v) (Reach-stranded owner i r q.0 v h)
