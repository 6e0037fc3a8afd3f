-- ===== src/Platform/Idempotency.antt =====
-- Exactly-once submission: `submit` of src/dsvire/platform_db.py called again, at any later time.
use tokito_dsvire.Prelude.{
  ℕ, Bool, true, false, none, some, List, ◌≡◌, refl, sym, ◌∙◌, arith, find, find-In, find-true, ok,
  Ensures-ok, Bool-cases, inl, inr,
}
use tokito_dsvire.Platform.Tables.{Document, Job, Db}
use tokito_dsvire.Platform.Queue.{log_event, has_job_id}
use tokito_dsvire.Platform.Submit.{
  Submission, job_allowed, same_key, same_request, insert_document, new_job, submit,
}
use tokito_dsvire.Platform.Submission.{submit-Ensures, with_documents, with_job}
use tokito_dsvire.Platform.Documents.{insert_document-found, insert_document_again}
use tokito_dsvire.Platform.Lifecycle.{Reach-Valid}
use tokito_dsvire.Platform.Steps.{submit_step, Reach, IsValid, Step-IsValid}
use tokito_dsvire.Platform.Submitted.{
  In-last, Reach-Taken, Taken, eq-same_request, found-Taken, same_key-eq, same_request-eq,
}

job_allowed_again :
    (now fd fj : ℕ) (s : Submission) (db : Db) {r : ℕ × Bool} {db' : Db}
    → submit now fd fj s db ≡ ok (r, db')
    → job_allowed s.idempotency_key s.max_attempts ≡ true
unfolding submit
job_allowed_again now fd fj s db e =
    elim (Bool-cases (job_allowed s.idempotency_key s.max_attempts)) [
      | inl t ↦ t
      | inr t ↦ ground arith
    ]

-- A submission that returns is taken.
pub submit-Taken :
    (now fd fj : ℕ) (s : Submission) (db : Db) {r : ℕ × Bool} {db' : Db}
    → submit now fd fj s db ≡ ok (r, db')
    → Taken s r.0 db'
unfolding log_event new_job
submit-Taken now fd fj s db e =
    Ensures-ok (λ r. Taken s r.0.0 r.1) _
      (submit-Ensures now fd fj s db (λ r. Taken s r.0.0 r.1) created again) e
  where
    created :
        (d : ℕ) (docs : List Document)
        → insert_document fd s.tenant_id s.document db ≡ ok (d, with_documents db docs)
        → job_allowed s.idempotency_key s.max_attempts ≡ true
        → find (same_key s.tenant_id s.idempotency_key) db.jobs ≡ none
        → find (has_job_id fj) db.jobs ≡ none
        → Taken s fj (with_job now fj d s db docs)
    created d docs i a k f =
        let (fits, doc, found, is_d) = insert_document-found fd s.tenant_id s.document db i in
        record {
          document_fits = fits;
          job_fits = a;
          document = doc;
          stored = found;
          job = new_job now fj d s;
          row = In-last db.jobs (new_job now fj d s);
          named = refl;
          keyed = (refl, refl);
          asked = (sym is_d, refl);
        }

    again :
        (d : ℕ) (docs : List Document) (j : Job)
        → insert_document fd s.tenant_id s.document db ≡ ok (d, with_documents db docs)
        → find (same_key s.tenant_id s.idempotency_key) db.jobs ≡ some j
        → same_request d s.request j ≡ true
        → Taken s j.job_id (with_documents db docs)
    again d docs j i k t =
        let (fits, doc, found, is_d) = insert_document-found fd s.tenant_id s.document db i in
        let (same_d, same_r) = same_request-eq d s.request j t in
        record {
          document_fits = fits;
          job_fits = job_allowed_again now fd fj s db e;
          document = doc;
          stored = found;
          job = j;
          row = find-In (same_key s.tenant_id s.idempotency_key) db.jobs k;
          named = refl;
          keyed = same_key-eq s.tenant_id s.idempotency_key j (find-true _ db.jobs k);
          asked = (same_d ∙ sym is_d, same_r);
        }

Taken-submit :
    (s : Submission) (i now fd fj : ℕ) (db : Db)
    → IsValid db
    → Taken s i db
    → submit now fd fj s db ≡ ok ((i, false), db)
unfolding submit
Taken-submit s i now fd fj db v t =
    rw
      (
        insert_document_again fd s.tenant_id s.document db t.document t.document_fits t.stored,
        t.job_fits,
        found-Taken s i db v t,
      )
      (ground (
        arith,
        t.named,
        eq-same_request t.document.document_id s.request t.job t.asked.0 t.asked.1,
        found-Taken s i db v t,
      ))

-- A submission that has returned a job returns that same job when it is sent again, not created
-- anew and with nothing changed in the database: at any later time, after any other transactions,
-- and whatever state the job is in by then.
pub submit_once :
    (now now' fd fd' fj fj' : ℕ) (s : Submission) (db : Db) {r : ℕ × Bool} {db' later : Db}
    → IsValid db
    → submit now fd fj s db ≡ ok (r, db')
    → Reach db' later
    → submit now' fd' fj' s later ≡ ok ((r.0, false), later)
submit_once now now' fd fd' fj fj' s db {r} {db'} {later} v e reach =
    let v' = Step-IsValid (submit_step now fd fj s r e) v in
    Taken-submit s r.0 now' fd' fj' later (Reach-Valid reach v')
      (Reach-Taken s r.0 reach v' (submit-Taken now fd fj s db e))
