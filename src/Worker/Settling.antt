-- ===== src/Worker/Settling.antt =====
-- What becomes of a job that a worker of src/dsvire/platform_worker.py works on, by what its work
-- comes to.
use tokito_dsvire.Prelude.{
  ℕ, String, Bool, true, false, some, ◌≡◌, refl, subst, arith, if◌then◌else◌, Result, ok, err, In,
  ltb, ◌>>=◌,
}
use tokito_dsvire.Platform.Tables.{
  Json, State, queued, running, succeeded, failed, cancelled, Job, Db, Lease, is_terminal,
}
use tokito_dsvire.Platform.Queue.{heartbeat, unexpired, beat_row}
use tokito_dsvire.Platform.Fencing.{heartbeat-true, heartbeat_renews}
use tokito_dsvire.Platform.Steps.{IsValid, Step-IsValid, heartbeat_step}
use tokito_dsvire.Worker.Job.{Exn, retrieval_error, worker_timeout, worker_error, os_error}
use tokito_dsvire.Worker.Lease.{World, Outcome, returned, raised, work}

-- What the download, the identity and the work come to.
abbrev pub attempted : World → Lease → Result Exn Json
attempted w l = do
  payload ← w.read_verified l.document
  identity ← w.identity l.request
  work w payload identity

-- A retryable error queues the job again while attempts are left.
abbrev pub retry_state : Job → State
retry_state j = if ltb j.attempt j.max_attempts then queued else failed

-- How the worker reports, and what becomes of the job.
abbrev pub Settled : World → Result Exn Json → Job → Job → Outcome → Type 0
Settled w (ok x) j j' o = (o ≡ returned) × (j'.state ≡ succeeded) × (j'.result ≡ some x)
Settled w (err retrieval_error) j j' o =
    (o ≡ returned) × (j'.state ≡ failed) × (j'.error_code ≡ some "invalid_or_unsupported_pdf")
Settled w (err worker_timeout) j j' o =
    (o ≡ returned) × (j'.state ≡ retry_state j) × (j'.error_code ≡ some "worker_timeout")
Settled w (err worker_error) j j' o =
    (o ≡ returned) × (j'.state ≡ retry_state j) × (j'.error_code ≡ some "worker_failed")
Settled w (err os_error) j j' o =
    (o ≡ returned) × (j'.state ≡ retry_state j) × (j'.error_code ≡ some "worker_failed")
Settled w (err e) j j' o =
    (o ≡ raised e)
    × (j'.state ≡ running)
    × (j'.lease_owner ≡ some w.owner)
    × (j'.attempt ≡ j.attempt)

-- The job is leased to the worker and wanted.
pub record IsMine (w : World) (i : ℕ) (db : Db) (j : Job) : Type 0 where
  pub valid : IsValid db
  pub row : In j db.jobs
  pub named : j.job_id ≡ i
  pub runs : j.state ≡ running
  pub mine : j.lease_owner ≡ some w.owner
  pub wanted : j.cancel_requested ≡ false

abbrev pub Report : World → Result Exn Json → ℕ → Job → Outcome × Db → Type 0
Report w r i j x = (j' : Job) × In j' x.1.jobs × (j'.job_id ≡ i) × Settled w r j j' x.0

abbrev pub verdict : Bool → Bool → State
verdict has_result may_retry =
    if has_result then succeeded else if may_retry then queued else failed

pub verdict_state :
    (s : State) (has_result may_retry : Bool)
    → (s ≡ cancelled → ⊥)
    → (s ≡ succeeded → has_result ≡ true) × (has_result ≡ true → s ≡ succeeded)
    → (has_result ≡ false → (s ≡ queued → may_retry ≡ true) × (may_retry ≡ true → s ≡ queued))
    → (is_terminal s ≡ false → s ≡ queued)
    → s ≡ verdict has_result may_retry
verdict_state queued true r a b c d = b.1 refl
verdict_state queued false true a b c d = refl
verdict_state queued false false a b c d = absurd (ground (arith, (c refl).0 refl))
verdict_state running h r a b c d = absurd (ground (arith, d refl))
verdict_state succeeded true r a b c d = refl
verdict_state succeeded false r a b c d = absurd (ground (arith, b.0 refl))
verdict_state failed true r a b c d = b.1 refl
verdict_state failed false true a b c d = (c refl).1 refl
verdict_state failed false false a b c d = refl
verdict_state cancelled h r a b c d = absurd (a refl)

-- After a heartbeat the job is still the worker's, with as many attempts as before.
pub beaten :
    (w : World) (i now : ℕ) (stage : String) (db : Db) (j : Job)
    → IsMine w i db j
    → unexpired now j.lease_expires_at ≡ true
    → ((heartbeat now i w.owner stage w.lease_seconds db).0 ≡ true)
      × IsMine w i
          (heartbeat now i w.owner stage w.lease_seconds db).1
          (beat_row now stage w.lease_seconds j)
beaten w i now stage db j h live =
    subst
      (λ k.
        ((heartbeat now k w.owner stage w.lease_seconds db).0 ≡ true)
        × IsMine w i (heartbeat now k w.owner stage w.lease_seconds db).1
            (beat_row now stage w.lease_seconds j))
      h.named
      (
        (heartbeat-true db h.valid j h.row now w.owner stage w.lease_seconds).1
            (h.runs, h.mine, live, h.wanted),
        unfold beat_row in
            record {
              valid =
                  Step-IsValid (heartbeat_step now j.job_id w.owner stage w.lease_seconds db)
                    h.valid;
              row =
                  heartbeat_renews db h.valid j h.row now w.owner stage w.lease_seconds h.runs
                    h.mine live;
              named = h.named;
              runs = h.runs;
              mine = h.mine;
              wanted = h.wanted;
            },
      )

-- A heartbeat changes nothing that the report depends on.
pub Settled_beat :
    (w : World) (l : Lease) (r : Result Exn Json) (j : Job) (x : Outcome × Db) (now : ℕ)
    (stage : String)
    → Report w r l.job_id (beat_row now stage w.lease_seconds j) x
    → Report w r l.job_id j x
unfolding beat_row
Settled_beat w l (ok y) j x now stage q = q
Settled_beat w l (err retrieval_error) j x now stage q = q
Settled_beat w l (err worker_timeout) j x now stage q = q
Settled_beat w l (err worker_error) j x now stage q = q
Settled_beat w l (err os_error) j x now stage q = q
Settled_beat w l (err _) j x now stage q = q
