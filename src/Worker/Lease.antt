-- ===== src/Worker/Lease.antt =====
-- `process_lease` of src/dsvire/platform_worker.py, over the database of
-- src/dsvire/platform_db.py.
use tokito_dsvire.Prelude.{
  ℕ, String, Bool, true, false, Option, none, some, List, if◌then◌else◌, Result, ok, err, ◌>>=◌,
}
use tokito_dsvire.Platform.Tables.{Json, str, obj, field, end, ObjectRef, Db, Lease}
use tokito_dsvire.Platform.Queue.{heartbeat, finish}
use tokito_dsvire.Worker.Job.{
  Exn, retrieval_error, worker_timeout, worker_error, os_error, db_error, Child, run_pdf_job, Crop,
  Parts, artifacts,
}

-- What the worker meets outside the database, for one lease: its object store, the child process,
-- the file system, the bundler and the clock, and what other transactions do to the database
-- between its own.
pub record World : Type 0 where
  pub owner : String
  pub lease_seconds : ℕ
  pub started_at : ℕ
  pub extracting_at : ℕ
  pub finished_at : ℕ
  pub before_extracting : Db → Db
  pub before_finish : Db → Db
  pub read_verified : ObjectRef → Result Exn (List ℕ)
  pub identity : Json → Result Exn Json
  pub child : List ℕ → Json → Child
  pub crop_uris : Json → List (List ℕ)
  pub read_crop : Parts → Result Exn (List ℕ)
  pub build_bundle : List Crop → Result Exn (List ℕ)
  pub put_bundle : List ℕ → Result Exn Json
  pub put_evidence : Json → Result Exn Json

pub data Outcome : Type 0 where
  returned : Outcome
  raised : Exn → Outcome

-- `await database.finish(…)`: what it raises leaves `process_lease`.
unfoldable pub close : World → Lease → Option Json → Option String → Bool → Db → Outcome × Db
close w l result error_code retryable db =
    elim (finish w.finished_at l.job_id w.owner result error_code retryable db) [
      | ok db' ↦ (returned, db')
      | err e ↦ (raised (db_error e), db)
    ]

-- The `except` clauses.
unfoldable pub handle : World → Lease → Exn → Db → Outcome × Db
unfolding close
handle w l retrieval_error db = close w l none (some "invalid_or_unsupported_pdf") false db
handle w l worker_timeout db = close w l none (some "worker_timeout") true db
handle w l worker_error db = close w l none (some "worker_failed") true db
handle w l os_error db = close w l none (some "worker_failed") true db
handle w l e db = (raised e, db)

abbrev pub result_json : Json → Json → Json
result_json bundle_ref evidence_ref = obj (
    field "bundle" bundle_ref
      (field "evidence" evidence_ref (field "schema_version" (str "dsvire.job-result.v1") end)))

-- From the child process to the uploaded artifacts.
unfoldable pub work : World → List ℕ → Json → Result Exn Json
unfolding run_pdf_job artifacts
work w payload identity = do
  evidence ← run_pdf_job (w.child payload identity)
  files ← artifacts w.read_crop (w.crop_uris evidence)
  bundle ← w.build_bundle files
  bundle_ref ← w.put_bundle bundle
  evidence_ref ← w.put_evidence evidence
  ok (result_json bundle_ref evidence_ref)

unfoldable pub conclude : World → Lease → Result Exn Json → Db → Outcome × Db
unfolding close handle
conclude w l (ok result) db = close w l (some result) none false db
conclude w l (err e) db = handle w l e db

-- The second half of the `try` block, after the download.
unfoldable pub extract : World → Lease → List ℕ → Json → Db → Outcome × Db
unfolding conclude work
extract w l payload identity db =
    let (go_on, db') =
      heartbeat w.extracting_at l.job_id w.owner "extracting" w.lease_seconds
        (w.before_extracting db) in
    if go_on
    then conclude w l (work w payload identity) (w.before_finish db')
    else close w l none none false (w.before_finish db')

unfoldable pub download : World → Lease → Result Exn (List ℕ) → Db → Outcome × Db
unfolding extract handle
download w l (err e) db = handle w l e (w.before_finish db)
download w l (ok payload) db = elim (w.identity l.request) [
  | ok identity ↦ extract w l payload identity db
  | err e ↦ handle w l e (w.before_finish db)
]

unfoldable pub process_lease : World → Lease → Db → Outcome × Db
unfolding download close
process_lease w l db =
    let (go_on, db') = heartbeat w.started_at l.job_id w.owner "downloading" w.lease_seconds db in
    if go_on
    then download w l (w.read_verified l.document) db'
    else close w l none none false (w.before_finish db')
