-- ===== src/Worker/Reports.antt =====
-- The report that a worker makes when its lease lasts.
use tokito_dsvire.Prelude.{
  ℕ, ◌+◌, ◌<◌, ◌≤◌, String, Bool, true, false, ◌&&◌, Option, none, some, List, ◌≡◌, refl, subst,
  arith, Result, ok, err, In, ◌↔◌, is_some, ltb, ◌>>=◌, ◌∙◌,
}
use tokito_dsvire.Platform.Tables.{Json, queued, succeeded, cancelled, Job, Db, Lease, is_terminal}
use tokito_dsvire.Platform.Queue.{heartbeat, finish, unexpired, beat_row, seconds}
use tokito_dsvire.Platform.Fencing.{finish_settles}
use tokito_dsvire.Worker.Job.{
  Exn, retrieval_error, worker_timeout, worker_error, os_error, integrity_error, key_error,
  value_error, db_error,
}
use tokito_dsvire.Worker.Lease.{
  World, Outcome, returned, close, handle, conclude, work, extract, download, process_lease,
}
use tokito_dsvire.Worker.Settling.{
  IsMine, Report, Settled, Settled_beat, attempted, beaten, verdict, verdict_state,
}

close_ok :
    (w : World) (l : Lease) (result : Option Json) (error_code : Option String) (retryable : Bool)
    (db : Db) {db' : Db}
    → finish w.finished_at l.job_id w.owner result error_code retryable db ≡ ok db'
    → close w l result error_code retryable db ≡ (returned, db')
unfolding close
close_ok w l result error_code retryable db e = rw (close, e) refl

module _ (w : World) (l : Lease) (db : Db) (j : Job) (h : IsMine w l.job_id db j) where
  closed :
      (result : Option Json) (error_code : Option String) (retryable : Bool)
      → (j' : Job) × In j' (close w l result error_code retryable db).1.jobs
        × (j'.job_id ≡ l.job_id)
        × ((close w l result error_code retryable db).0 ≡ returned)
        × (j'.state ≡ verdict (is_some result) (retryable && ltb j.attempt j.max_attempts))
        × (j'.result ≡ result)
        × (j'.error_code ≡ error_code)
  closed result error_code retryable =
      let s =
        finish_settles db h.valid j h.row w.finished_at w.owner result error_code retryable h.runs
          h.mine in
      let shut : close w l result error_code retryable db ≡ (returned, s.later) =
        close_ok w l result error_code retryable db (
          subst (λ i. finish w.finished_at i w.owner result error_code retryable db ≡ ok s.later)
            h.named s.commits) in
      (
        s.job',
        rw shut s.row,
        s.named ∙ h.named,
        rw shut refl,
        state s.job' s.cancelled_iff s.succeeded_iff s.queued_iff s.open_queued,
        s.written.0,
        s.written.1,
      )
    where
      state :
          (j' : Job)
          → ((j'.state ≡ cancelled) ↔ (j.cancel_requested ≡ true))
          → ((j'.state ≡ succeeded) ↔ ((j.cancel_requested ≡ false) × (is_some result ≡ true)))
          → ((j'.state ≡ queued) ↔ (
              (j.cancel_requested ≡ false)
              × (result ≡ none)
              × (retryable ≡ true)
              × (j.attempt < j.max_attempts)))
          → ((is_terminal j'.state ≡ false) → j'.state ≡ queued)
          → j'.state ≡ verdict (is_some result) (retryable && ltb j.attempt j.max_attempts)
      state j' s1 s2 s3 s5 =
          verdict_state j'.state (is_some result) (retryable && ltb j.attempt j.max_attempts)
            (λ p. ground (arith, s1.0 p, h.wanted)) ((λ p. (s2.0 p).1), (λ p. s2.1 (h.wanted, p)))
            (λ p. (
              (λ q. ground (arith, s3.0 q)),
              (λ q. s3.1 (h.wanted, ground arith, ground arith, ground arith)),
            ))
            s5

  concluded : (r : Result Exn Json) → Report w r l.job_id j (conclude w l r db)
  unfolding conclude
  concluded (ok x) =
      let (j', m, id, o, s, r, e) = closed (some x) none false in (j', m, id, (o, s, r))
  concluded (err retrieval_error) =
      let (j', m, id, o, s, r, e) = closed none (some "invalid_or_unsupported_pdf") false in
      (j', m, id, (o, s, e))
  concluded (err worker_timeout) =
      let (j', m, id, o, s, r, e) = closed none (some "worker_timeout") true in
      (j', m, id, (o, s, e))
  concluded (err worker_error) =
      let (j', m, id, o, s, r, e) = closed none (some "worker_failed") true in
      (j', m, id, (o, s, e))
  concluded (err os_error) =
      let (j', m, id, o, s, r, e) = closed none (some "worker_failed") true in
      (j', m, id, (o, s, e))
  concluded (err integrity_error) = (j, h.row, h.named, (refl, h.runs, h.mine, refl))
  concluded (err key_error) = (j, h.row, h.named, (refl, h.runs, h.mine, refl))
  concluded (err value_error) = (j, h.row, h.named, (refl, h.runs, h.mine, refl))
  concluded (err (db_error x)) = (j, h.row, h.named, (refl, h.runs, h.mine, refl))

module _ (w : World) (l : Lease) (quiet : (db : Db) → w.before_extracting db ≡ db)
    (quiet' : (db : Db) → w.before_finish db ≡ db) where
  -- The rest of the lease, from the second heartbeat on.
  extracted :
      (payload : List ℕ) (identity : Json) (db : Db) (j : Job)
      → IsMine w l.job_id db j
      → unexpired w.extracting_at j.lease_expires_at ≡ true
      → Report w (work w payload identity) l.job_id j (extract w l payload identity db)
  unfolding extract
  extracted payload identity db j h live =
      let (go_on, mine) = beaten w l.job_id w.extracting_at "extracting" db j h live in
      let db' = (heartbeat w.extracting_at l.job_id w.owner "extracting" w.lease_seconds db).1 in
      let r = work w payload identity in
      rw (quiet db) (
        rw go_on (
          rw (quiet' db') (
            Settled_beat w l r j (conclude w l r db') w.extracting_at "extracting" (
              concluded w l db' (beat_row w.extracting_at "extracting" w.lease_seconds j) mine r))))

  downloaded :
      (r : Result Exn (List ℕ)) (db : Db) (j : Job)
      → IsMine w l.job_id db j
      → unexpired w.extracting_at j.lease_expires_at ≡ true
      → Report w
          (do payload ← r; identity ← w.identity l.request; work w payload identity)
          l.job_id
          j
          (download w l r db)
  unfolding download conclude
  downloaded (err e) db j h live = rw (quiet' db) (concluded w l db j h (err e))
  downloaded (ok payload) db j h live = pick (w.identity l.request)
    where
      pick :
          (i : Result Exn Json)
          → Report w
              (do identity ← i; work w payload identity)
              l.job_id
              j
              (elim i as (λ _. Outcome × Db) [
                | ok identity ↦ extract w l payload identity db
                | err e ↦ handle w l e (w.before_finish db)
              ])
      pick (ok identity) = extracted payload identity db j h live
      pick (err e) = rw (quiet' db) (concluded w l db j h (err e))

  -- A worker whose lease lasts to its second heartbeat, on a job that nobody cancels and with no
  -- other transaction in between, settles the job by what the download and the work come to: the
  -- result makes it succeed; an invalid PDF makes it fail; a timeout, a worker error or an error
  -- of the system queues it again while attempts are left, and makes it fail otherwise. Any other
  -- exception, a failed integrity check among them, leaves `process_lease` and leaves the job
  -- running for the worker, its attempt spent.
  pub process_lease_settles :
      (db : Db) (j : Job)
      → IsMine w l.job_id db j
      → unexpired w.started_at j.lease_expires_at ≡ true
      → w.extracting_at ≤ w.started_at + seconds w.lease_seconds
      → (j' : Job) × In j' (process_lease w l db).1.jobs
        × (j'.job_id ≡ l.job_id)
        × Settled w (attempted w l) j j' (process_lease w l db).0
  unfolding process_lease
  process_lease_settles db j h live lasts =
      let (go_on, mine) = beaten w l.job_id w.started_at "downloading" db j h live in
      let db' = (heartbeat w.started_at l.job_id w.owner "downloading" w.lease_seconds db).1 in
      let r = w.read_verified l.document in
      rw go_on (
        Settled_beat w l (attempted w l) j (download w l r db') w.started_at "downloading" (
          downloaded r db' (beat_row w.started_at "downloading" w.lease_seconds j) mine
            (unfold beat_row in ground arith)))
