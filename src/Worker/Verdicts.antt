-- ===== src/Worker/Verdicts.antt =====
-- What a worker makes of its lease.
use tokito_dsvire.Prelude.{false, none, some, ◌≡◌, ◌≢◌, refl, sym, subst, err, In, inl}
use tokito_dsvire.Platform.Tables.{job_not_found, Job, Db, Lease}
use tokito_dsvire.Platform.Queue.{heartbeat, finish}
use tokito_dsvire.Platform.Fencing.{heartbeat_foreign, finish_fenced}
use tokito_dsvire.Platform.Steps.{IsValid}
use tokito_dsvire.Worker.Job.{db_error}
use tokito_dsvire.Worker.Lease.{World, raised, close, process_lease}

-- A worker that has lost its lease does not return: with the job leased to another owner, and
-- nothing else done in between, `process_lease` raises JobNotFound and changes nothing.
pub process_lease_lost :
    (w : World) (l : Lease) (db : Db) (j : Job)
    → IsValid db
    → In j db.jobs
    → l.job_id ≡ j.job_id
    → j.lease_owner ≢ some w.owner
    → w.before_finish db ≡ db
    → process_lease w l db ≡ (raised (db_error job_not_found), db)
unfolding process_lease close
process_lease_lost w l db j v m named foreign quiet =
    rw unheard (rw quiet (rw (close, unfinished) refl))
  where
    unheard : heartbeat w.started_at l.job_id w.owner "downloading" w.lease_seconds db ≡ (false, db)
    unheard =
        subst (λ i. heartbeat w.started_at i w.owner "downloading" w.lease_seconds db ≡ (false, db))
          (sym named)
          (heartbeat_foreign db v j m w.started_at w.owner "downloading" w.lease_seconds
            (inl foreign))

    unfinished : finish w.finished_at l.job_id w.owner none none false db ≡ err job_not_found
    unfinished =
        subst (λ i. finish w.finished_at i w.owner none none false db ≡ err job_not_found)
          (sym named) (finish_fenced db v j m w.finished_at w.owner none none false (inl foreign))
