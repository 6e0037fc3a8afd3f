-- ===== src/Platform/Lifecycle.antt =====
-- The life of a job of src/dsvire/platform_db.py, against the diagram of its states.
use tokito_dsvire.Prelude.{
  ℕ, String, Bool, true, Option, none, some, List, ◌≡◌, refl, sym, ap, subst, arith, ◌==◌, ==-eq,
  is_some, find, update, find-true, In, find-In, set_if, In-update, In-append, same-row, Bool-cases,
  inl, inr, Ensures, Ensures-ok, ok,
}
use tokito_dsvire.Platform.Tables.{Json, is_terminal, is_running, Job, Document, Db}
use tokito_dsvire.Platform.Queue.{
  log_event, lease_row, grant, lease_candidate, candidate, claimable, lease_next, beat_row, beat,
  heartbeat, holds, owns, leased_to, finish_current, finish, has_job_id,
}
use tokito_dsvire.Platform.Submit.{
  Submission, cancel_row, cancellable, request_cancel, cancel_found, submit,
}
use tokito_dsvire.Platform.Delivery.{claim_outbox, acknowledge_outbox}
use tokito_dsvire.Platform.Candidate.{candidate-In, candidate-claimable}
use tokito_dsvire.Platform.Submission.{submit-Ensures}
use tokito_dsvire.Platform.Unique.{id_of}
use tokito_dsvire.Platform.Steps.{
  Step, submit_step, lease_step, heartbeat_step, finish_step, cancel_step, claim_step,
  acknowledge_step, tenant_step, key_step, authenticate_step, Reach, here, next, IsValid,
  Step-IsValid, ensure_tenant-SameWork, issue_api_key-SameWork, authenticate-SameWork,
}
use tokito_dsvire.Platform.Evolution.{
  Evolves, Evolves-refl, beat_row-Evolves, cancel_row-Evolves, finish_row-Evolves,
  lease_row-Evolves,
}

-- Where a job is after a transaction, with what the transaction did to it.
abbrev pub Next : Job → List Job → Type 0
Next j js = (j' : Job) × In j' js × Evolves j j'

updated :
    (p : Job → Bool) (f : Job → Job) (js : List Job) (j : Job)
    → (p j ≡ true → Evolves j (f j))
    → In j js
    → Next j (update p f js)
updated p f js j to m = (set_if p f j, In-update p f js j m, evolved)
  where
    evolved : Evolves j (set_if p f j)
    evolved = elim (Bool-cases (p j)) [ inl t ↦ rw t (to t) | inr t ↦ rw t (Evolves-refl j) ]

lease_next-Next :
    (locked : ℕ → Bool) (now : ℕ) (owner : String) (secs : ℕ) (db : Db) (j : Job)
    → IsValid db
    → In j db.jobs
    → Next j (lease_next locked now owner secs db).1.jobs
unfolding lease_next
lease_next-Next locked now owner secs db j v m = pick (candidate locked now db.jobs) refl
  where
    granted :
        (c : Job) (d : Option Document)
        → In c db.jobs
        → claimable now c ≡ true
        → Next j (grant now owner secs c d db).1.jobs
    granted c none n t = (j, m, Evolves-refl j)
    granted c (some d) n t =
        updated (has_job_id c.job_id) (lease_row now owner secs) db.jobs j
          (λ e. lease_row-Evolves now owner secs j (
            subst (λ x. claimable now x ≡ true)
              (same-row id_of db.jobs v.keyed.ids n m (sym (==-eq j.job_id c.job_id e))) t))
          m

    pick :
        (o : Option Job)
        → candidate locked now db.jobs ≡ o
        → Next j (lease_candidate now owner secs o db).1.jobs
    pick none e = (j, m, Evolves-refl j)
    pick (some c) e =
        granted c (find (λ d. d.document_id == c.document_id) db.documents)
          (candidate-In locked now db.jobs e) (candidate-claimable locked now db.jobs e).0

heartbeat-Next :
    (now job_id : ℕ) (owner stage : String) (secs : ℕ) (db : Db) (j : Job)
    → In j db.jobs
    → Next j (heartbeat now job_id owner stage secs db).1.jobs
unfolding heartbeat
heartbeat-Next now job_id owner stage secs db j m = pick (find (holds now job_id owner) db.jobs)
  where
    pick : (o : Option Job) → Next j (beat now job_id owner stage secs o db).1.jobs
    pick none = (j, m, Evolves-refl j)
    pick (some c) =
        updated (holds now job_id owner) (beat_row now stage secs) db.jobs j
          (beat_row-Evolves now job_id owner stage secs j) m

finish-Next :
    (now job_id : ℕ) (owner : String) (result : Option Json) (error_code : Option String)
    (retryable : Bool) (db : Db) {db' : Db} (j : Job)
    → finish now job_id owner result error_code retryable db ≡ ok db'
    → IsValid db
    → In j db.jobs
    → Next j db'.jobs
unfolding finish
finish-Next now job_id owner result error_code retryable db j e v m =
    Ensures-ok (λ d. Next j d.jobs) _ (pick (find (leased_to job_id owner) db.jobs) refl) e
  where
    same :
        (c : Job)
        → leased_to job_id owner c ≡ true
        → In c db.jobs
        → owns job_id owner j ≡ true
        → c ≡ j
    same c t n o = same-row id_of db.jobs v.keyed.ids n m (ground arith)

    pick :
        (o : Option Job)
        → find (leased_to job_id owner) db.jobs ≡ o
        → Ensures
            (λ d. Next j d.jobs)
            (finish_current now job_id owner result error_code retryable o db)
    pick none f = tt
    pick (some c) f =
        let t = find-true (leased_to job_id owner) db.jobs f in
        let n = find-In (leased_to job_id owner) db.jobs f in
        updated (owns job_id owner) _ db.jobs j
          (λ o.
            finish_row-Evolves now result error_code c.cancel_requested (is_some result) _ j
              (ap (λ (x : Job). x.cancel_requested) (same c t n o))
              (subst (λ x. is_running x.state ≡ true) (same c t n o) (ground arith)))
          m

request_cancel-Next :
    (now tenant_id job_id : ℕ) (db : Db) (j : Job)
    → In j db.jobs
    → Next j (request_cancel now tenant_id job_id db).1.jobs
unfolding request_cancel
request_cancel-Next now tenant_id job_id db j m = pick (find (cancellable tenant_id job_id) db.jobs)
  where
    pick : (o : Option Job) → Next j (cancel_found now tenant_id job_id o db).1.jobs
    pick none = (j, m, Evolves-refl j)
    pick (some c) =
        updated (cancellable tenant_id job_id) (cancel_row now) db.jobs j
          (cancel_row-Evolves now tenant_id job_id j) m

submit-Next :
    (now fd fj : ℕ) (s : Submission) (db : Db) {r : ℕ × Bool} {db' : Db} (j : Job)
    → submit now fd fj s db ≡ ok (r, db')
    → In j db.jobs
    → Next j db'.jobs
submit-Next now fd fj s db j e m =
    Ensures-ok (λ r. Next j r.1.jobs) _
      (submit-Ensures now fd fj s db (λ r. Next j r.1.jobs)
        (λ d docs i a k f. (j, unfold log_event in In-append db.jobs _ j m, Evolves-refl j))
        (λ d docs x i k t. (j, m, Evolves-refl j)))
      e

-- Every transaction on a valid database keeps every job, and moves it along the diagram: the job's
-- id, tenant, key, document, request and limit of attempts never change, its attempt grows by one at
-- most, a requested cancellation stays requested, and a job that has succeeded, failed or been
-- cancelled does not change at all.
pub Step-Evolves :
    {db db' : Db} → Step db db' → IsValid db → (j : Job) → In j db.jobs → Next j db'.jobs
Step-Evolves (submit_step now fd fj s {db} r e) v j m = submit-Next now fd fj s db j e m
Step-Evolves (lease_step locked now owner secs db) v j m =
    lease_next-Next locked now owner secs db j v m
Step-Evolves (heartbeat_step now job_id owner stage secs db) v j m =
    heartbeat-Next now job_id owner stage secs db j m
Step-Evolves (finish_step now job_id owner result error_code retryable {db} e) v j m =
    finish-Next now job_id owner result error_code retryable db j e v m
Step-Evolves (cancel_step now tenant_id job_id db) v j m =
    request_cancel-Next now tenant_id job_id db j m
Step-Evolves (claim_step locked now owner limit db) v j m =
    unfold claim_outbox in (j, m, Evolves-refl j)
Step-Evolves (acknowledge_step now owner outbox_id db) v j m =
    unfold acknowledge_outbox in (j, m, Evolves-refl j)
Step-Evolves (tenant_step fresh slug {db} r e) v j m =
    (j, rw ((ensure_tenant-SameWork fresh slug db e).jobs) m, Evolves-refl j)
Step-Evolves (key_step sha256 secret tenant_id label {db} token e) v j m =
    (j, rw ((issue_api_key-SameWork sha256 secret tenant_id label db e).jobs) m, Evolves-refl j)
Step-Evolves (authenticate_step sha256 now token db) v j m =
    (j, rw ((authenticate-SameWork sha256 now token db).jobs) m, Evolves-refl j)

pub Reach-Valid : {db db' : Db} → Reach db db' → IsValid db → IsValid db'
Reach-Valid here v = v
Reach-Valid (next r s) v = Step-IsValid s (Reach-Valid r v)

-- A job that has succeeded, failed or been cancelled stands unchanged in the database after any
-- sequence of transactions: no late worker and no later cancellation touches it.
pub Reach-terminal :
    {db db' : Db}
    → Reach db db'
    → IsValid db
    → (j : Job) → In j db.jobs
    → is_terminal j.state ≡ true
    → In j db'.jobs
Reach-terminal here v j m t = m
Reach-terminal (next {t = mid} {u = db'} r s) v j m t =
    let (j', n, e) = Step-Evolves s (Reach-Valid r v) j (Reach-terminal r v j m t) in
    subst (λ x. In x db'.jobs) (e.terminal_keeps t) n
