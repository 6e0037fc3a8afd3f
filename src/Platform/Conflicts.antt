-- ===== src/Platform/Conflicts.antt =====
-- A key that is used again for something else: `submit` of src/dsvire/platform_db.py.
use tokito_dsvire.Prelude.{
  ℕ, String, Bool, true, some, List, ◌≡◌, ◌≢◌, sym, ap, ◌∙◌, subst, arith, ◌==◌, ==-ne, is_some,
  find, find-In, find-true, find-none, All-In, same-row, eq_iff, inl, inr, ◌⊎◌, ok, err,
}
use tokito_dsvire.Platform.Tables.{Document, Job, Db, job_conflict}
use tokito_dsvire.Platform.Submit.{
  Submission, document_allowed, job_allowed, same_document, insert_document, same_key, submit,
}
use tokito_dsvire.Platform.Submission.{with_documents}
use tokito_dsvire.Platform.Lifecycle.{Reach-Valid}
use tokito_dsvire.Platform.Steps.{submit_step, Reach, empty, Reach-IsValid, Step-IsValid}
use tokito_dsvire.Platform.Submitted.{Taken, Reach-Taken, found-Taken, ne-same_request}
use tokito_dsvire.Platform.Idempotency.{submit-Taken}
use tokito_dsvire.Platform.Stored.{
  document_id_of, DocumentsKeyed, IsFresh, insert_document-stored, Step-DocumentsKeyed,
  Reach-DocumentsKeyed,
}

refused :
    (now fd fj : ℕ) (s : Submission) (db : Db) (j : Job) {d : ℕ} {docs : List Document}
    → insert_document fd s.tenant_id s.document db ≡ ok (d, with_documents db docs)
    → job_allowed s.idempotency_key s.max_attempts ≡ true
    → find (same_key s.tenant_id s.idempotency_key) db.jobs ≡ some j
    → (j.document_id ≢ d) ⊎ (j.request ≢ s.request)
    → submit now fd fj s db ≡ err job_conflict
unfolding submit
refused now fd fj s db j {d} i a k ne =
    rw (i, a, k) (ground (arith, k, ne-same_request d s.request j ne))

-- The digest of a document that is found.
found_digest :
    (t : ℕ) (sha256 : String) (ds : List Document) {x : Document}
    → find (same_document t sha256) ds ≡ some x
    → x.ref.sha256 ≡ sha256
unfolding same_document
found_digest t sha256 ds {x} e =
    ground (arith, find-true (same_document t sha256) ds e, eq_iff x.ref.sha256 sha256)

-- A key that a submission has used is refused for any other request and for any other document, at
-- any later time and after any other transactions: `submit` raises JobConflict. The terms of the new
-- submission fit the tables, its tenant is there, and the id for its document is a fresh one.
pub submit_conflict :
    (now now' fd fd' fj fj' : ℕ) (s s' : Submission) {db db' later : Db} {r : ℕ × Bool}
    → Reach empty db
    → submit now fd fj s db ≡ ok (r, db')
    → Reach db' later
    → (s'.tenant_id ≡ s.tenant_id) × (s'.idempotency_key ≡ s.idempotency_key)
    → (s'.request ≢ s.request) ⊎ (s'.document.sha256 ≢ s.document.sha256)
    → (document_allowed s'.document ≡ true)
      × (job_allowed s'.idempotency_key s'.max_attempts ≡ true)
    → is_some (find (λ t. t.tenant_id == s'.tenant_id) later.tenants) ≡ true
    → IsFresh fd' later
    → submit now' fd' fj' s' later ≡ err job_conflict
submit_conflict now now' fd fd' fj fj' s s' {db} {db'} {later} {r} from e reach same other fits
      tenant fresh =
    let v = Step-IsValid (submit_step now fd fj s r e) (Reach-IsValid from) in
    let keyed =
      Reach-DocumentsKeyed reach
        (Step-DocumentsKeyed (submit_step now fd fj s r e) (Reach-DocumentsKeyed from tt)) in
    let t = Reach-Taken s r.0 reach v (submit-Taken now fd fj s db e) in
    let (d, docs, i, where_from) =
      insert_document-stored fd' s'.tenant_id s'.document later fits.0 fresh tenant in
    let found =
      subst (λ k. find (same_key s'.tenant_id k) later.jobs ≡ some t.job) (sym same.1)
        (subst (λ n. find (same_key n s.idempotency_key) later.jobs ≡ some t.job) (sym same.0)
          (found-Taken s r.0 later (Reach-Valid reach v) t)) in
    refused now' fd' fj' s' later t.job i fits.1 found (elim other [
      | inl n ↦ inr (λ q. n (sym q ∙ t.asked.1))
      | inr n ↦ inl (λ q. apart t keyed n where_from (sym q ∙ t.asked.0))
    ])
  where
    apart :
        (t : Taken s r.0 later)
        → DocumentsKeyed later
        → s'.document.sha256 ≢ s.document.sha256
        → {d : ℕ}
        → (d ≡ fd')
          ⊎ ((x : Document) × (find (same_document s'.tenant_id s'.document.sha256) later.documents
                ≡ some x)
              × (d ≡ x.document_id))
        → d ≡ t.document.document_id
        → ⊥
    apart t keyed n (inl e) q =
        ==-ne t.document.document_id fd'
          (All-In _ later.documents (find-none _ later.documents fresh)
            (find-In _ later.documents t.stored))
          (sym q ∙ e)
    apart t keyed n (inr (x, f, e)) q =
        let one =
          same-row document_id_of later.documents keyed (find-In _ later.documents f)
            (find-In _ later.documents t.stored) (sym e ∙ q) in
        n (
          sym (found_digest s'.tenant_id s'.document.sha256 later.documents f)
          ∙ ap (λ (y : Document). y.ref.sha256) one
          ∙ found_digest s.tenant_id s.document.sha256 later.documents t.stored)
