-- ===== src/Platform/Submission.antt =====
-- The two ways in which `submit` of src/dsvire/platform_db.py returns.
use tokito_dsvire.Prelude.{
  ℕ, Bool, true, false, not, Option, none, some, List, [], ◌∷◌, ◌++◌, ◌≡◌, refl, sym, subst, arith,
  find, is_some, ok, guard, Ensures, Ensures-bind, Ensures-guard, ◌>>◌, Bool-cases, inl, inr,
}
use tokito_dsvire.Platform.Tables.{
  str, object1, ObjectRef, Document, Job, Db, Kind, check_violation,
}
use tokito_dsvire.Platform.Queue.{log_event, has_job_id}
use tokito_dsvire.Platform.Submit.{
  Submission, job_allowed, new_job, same_key, same_request, insert_document, submit, submit_job,
  resubmitted,
}

-- Storing a document touches no other table.
pub insert_document-others :
    (fresh tenant_id : ℕ) (ref : ObjectRef) (db : Db) {d : ℕ} {db' : Db}
    → insert_document fresh tenant_id ref db ≡ ok (d, db')
    → db' ≡ record db { documents = db'.documents }
unfolding insert_document
insert_document-others fresh tenant_id ref db h = ground arith

abbrev pub with_documents : Db → List Document → Db
with_documents db docs = record db { documents = docs }

abbrev pub with_job : ℕ → ℕ → ℕ → Submission → Db → List Document → Db
with_job now fresh d s db docs =
    log_event now s.tenant_id fresh Kind.queued (object1 "stage" (str "queued"))
      (record db { documents = docs; jobs = db.jobs ++ new_job now fresh d s ∷ [] })

module _ {κ} (now fd fj : ℕ) (s : Submission) (db : Db) (P : (ℕ × Bool) × Db → Type κ)
    (created : (d : ℕ) (docs : List Document)
      → insert_document fd s.tenant_id s.document db ≡ ok (d, with_documents db docs)
      → job_allowed s.idempotency_key s.max_attempts ≡ true
      → find (same_key s.tenant_id s.idempotency_key) db.jobs ≡ none
      → find (has_job_id fj) db.jobs ≡ none
      → P ((fj, true), with_job now fj d s db docs))
    (again : (d : ℕ) (docs : List Document) (j : Job)
      → insert_document fd s.tenant_id s.document db ≡ ok (d, with_documents db docs)
      → find (same_key s.tenant_id s.idempotency_key) db.jobs ≡ some j
      → same_request d s.request j ≡ true
      → P ((j.job_id, false), with_documents db docs)) where
  -- The call after the document is stored, for what the lookup of the key finds.
  lookup :
      (d : ℕ) (docs : List Document) (o : Option Job)
      → insert_document fd s.tenant_id s.document db ≡ ok (d, with_documents db docs)
      → job_allowed s.idempotency_key s.max_attempts ≡ true
      → find (same_key s.tenant_id s.idempotency_key) db.jobs ≡ o
      → Ensures P (submit_job now fj d s o (with_documents db docs))
  unfolding submit_job
  lookup d docs none i a e = Ensures-guard P _ _ _ (λ g. created d docs i a e (free _ g))
    where
      free : (o : Option Job) → not (is_some o) ≡ true → o ≡ none
      free none g = refl
      free (some x) g = cc
  lookup d docs (some j) i a e =
      subst (λ o. Ensures P (resubmitted d s o (with_documents db docs))) (sym e) same
    where
      same : Ensures P (resubmitted d s (some j) (with_documents db docs))
      same = elim (Bool-cases (same_request d s.request j)) [
        | inl t ↦ rw t (again d docs j i e t)
        | inr t ↦ rw t tt
      ]

  -- What holds of a new job, and of a job that the key already names, holds of every submission
  -- that returns.
  pub submit-Ensures : Ensures P (submit now fd fj s db)
  unfolding submit
  submit-Ensures =
      Ensures-bind P (insert_document fd s.tenant_id s.document db) _ (λ r e. after r.0 r.1 e)
    where
      stored :
          (d : ℕ) (docs : List Document)
          → insert_document fd s.tenant_id s.document db ≡ ok (d, with_documents db docs)
          → Ensures P (
              guard (job_allowed s.idempotency_key s.max_attempts) check_violation
              >> submit_job now fj d s
                  (find (same_key s.tenant_id s.idempotency_key) db.jobs)
                  (with_documents db docs))
      stored d docs i = Ensures-guard P _ _ _ (λ a. lookup d docs _ i a refl)

      after :
          (d : ℕ) (db' : Db)
          → insert_document fd s.tenant_id s.document db ≡ ok (d, db')
          → Ensures P (
              guard (job_allowed s.idempotency_key s.max_attempts) check_violation
              >> submit_job now fj d s (find (same_key s.tenant_id s.idempotency_key) db'.jobs) db')
      after d db' e =
          let k = insert_document-others fd s.tenant_id s.document db e in
          subst
            (λ x. Ensures P (
              guard (job_allowed s.idempotency_key s.max_attempts) check_violation
              >> submit_job now fj d s (find (same_key s.tenant_id s.idempotency_key) x.jobs) x))
            (sym k)
            (stored d db'.documents
              (subst (λ x. insert_document fd s.tenant_id s.document db ≡ ok (d, x)) k e))
