-- ===== src/Platform/Documents.antt =====
-- The document table of src/dsvire/platform_db.py: rows are added and never changed.
use tokito_dsvire.Prelude.{
  ℕ, String, Bool, true, not, Option, none, some, List, [], ◌∷◌, ◌++◌, ◌≡◌, refl, arith, ◌==◌,
  is_some, find, find-append, ok, guard, ◌>>◌, eq_refl, Ensures, Ensures-ok, Ensures-guard,
}
use tokito_dsvire.Platform.Tables.{
  ObjectRef, Document, Db, check_violation, unique_violation, foreign_key_violation,
}
use tokito_dsvire.Platform.Queue.{log_event, lease_next, heartbeat, finish}
use tokito_dsvire.Platform.Submit.{
  Submission, document_allowed, same_document, store_document, insert_document, submit,
  request_cancel,
}
use tokito_dsvire.Platform.Delivery.{claim_outbox, acknowledge_outbox}
use tokito_dsvire.Platform.Access.{ensure_tenant, issue_api_key, authenticate}
use tokito_dsvire.Platform.Submission.{submit-Ensures, with_documents}
use tokito_dsvire.Platform.Steps.{
  Step, submit_step, lease_step, heartbeat_step, finish_step, cancel_step, claim_step,
  acknowledge_step, tenant_step, key_step, authenticate_step,
}

abbrev pub row : ℕ → ℕ → ObjectRef → Document
row fresh tenant_id ref = record { document_id = fresh; tenant_id = tenant_id; ref = ref }

module _ {κ} (fresh tenant_id : ℕ) (ref : ObjectRef) (db : Db) (P : ℕ × Db → Type κ)
    (existing : (x : Document)
      → document_allowed ref ≡ true
      → find (same_document tenant_id ref.sha256) db.documents ≡ some x
      → P (x.document_id, db))
    (added : document_allowed ref ≡ true
      → find (same_document tenant_id ref.sha256) db.documents ≡ none
      → P (fresh, with_documents db (db.documents ++ row fresh tenant_id ref ∷ []))) where
  -- What holds of a document that is there, and of a new one, holds of every document that is
  -- stored.
  pub insert_document-Ensures : Ensures P (insert_document fresh tenant_id ref db)
  unfolding insert_document
  insert_document-Ensures =
      Ensures-guard P (document_allowed ref) check_violation
        (store_document fresh tenant_id ref (find (same_document tenant_id ref.sha256) db.documents)
          db)
        (λ a. split a (find (same_document tenant_id ref.sha256) db.documents) refl)
    where
      split :
          document_allowed ref ≡ true
          → (o : Option Document) → find (same_document tenant_id ref.sha256) db.documents ≡ o
          → Ensures P (store_document fresh tenant_id ref o db)
      split a (some x) e = existing x a e
      split a none e =
          Ensures-guard P (not (is_some (find (λ y. y.document_id == fresh) db.documents)))
            unique_violation
            (guard (is_some (find (λ t. t.tenant_id == tenant_id) db.tenants)) foreign_key_violation
              >> ok (fresh, with_documents db (db.documents ++ row fresh tenant_id ref ∷ [])))
            (λ u.
              Ensures-guard P (is_some (find (λ t. t.tenant_id == tenant_id) db.tenants))
                foreign_key_violation
                (ok (fresh, with_documents db (db.documents ++ row fresh tenant_id ref ∷ [])))
                (λ t. added a e))

same_document_row :
    (fresh tenant_id : ℕ) (ref : ObjectRef)
    → same_document tenant_id ref.sha256 (row fresh tenant_id ref) ≡ true
unfolding same_document
same_document_row fresh tenant_id ref = ground (arith, eq_refl ref.sha256)

-- Storing a document returns the id of the one row that the tenant then has for the digest.
pub insert_document-found :
    (fresh tenant_id : ℕ) (ref : ObjectRef) (db : Db) {d : ℕ} {db' : Db}
    → insert_document fresh tenant_id ref db ≡ ok (d, db')
    → (document_allowed ref ≡ true)
      × (doc : Document) × (find (same_document tenant_id ref.sha256) db'.documents ≡ some doc)
      × (doc.document_id ≡ d)
insert_document-found fresh tenant_id ref db e =
    Ensures-ok
      (λ r.
        (document_allowed ref ≡ true)
        × (doc : Document) × (find (same_document tenant_id ref.sha256) r.1.documents ≡ some doc)
        × (doc.document_id ≡ r.0))
      _
      (insert_document-Ensures fresh tenant_id ref db _ (λ x a f. (a, x, f, refl))
        (λ a f. (
          a,
          row fresh tenant_id ref,
          ground (
            arith,
            find-append (same_document tenant_id ref.sha256) db.documents
                (row fresh tenant_id ref ∷ []),
            same_document_row fresh tenant_id ref,
          ),
          refl,
        )))
      e

-- A document that is there is stored again without a change.
pub insert_document_again :
    (fresh tenant_id : ℕ) (ref : ObjectRef) (db : Db) (doc : Document)
    → document_allowed ref ≡ true
    → find (same_document tenant_id ref.sha256) db.documents ≡ some doc
    → insert_document fresh tenant_id ref db ≡ ok (doc.document_id, db)
unfolding insert_document
insert_document_again fresh tenant_id ref db doc a f = rw (a, f) refl

abbrev pub Keeps : List Document → List Document → Type 0
Keeps xs ys =
    (tenant_id : ℕ) (sha256 : String) (doc : Document)
    → find (same_document tenant_id sha256) xs ≡ some doc
    → find (same_document tenant_id sha256) ys ≡ some doc

append-Keeps : (xs ys : List Document) → Keeps xs (xs ++ ys)
append-Keeps xs ys t h doc e = ground (arith, find-append (same_document t h) xs ys)

insert_document-Keeps :
    (fresh tenant_id : ℕ) (ref : ObjectRef) (db : Db) {d : ℕ} {db' : Db}
    → insert_document fresh tenant_id ref db ≡ ok (d, db')
    → Keeps db.documents db'.documents
insert_document-Keeps fresh tenant_id ref db e =
    Ensures-ok (λ r. Keeps db.documents r.1.documents) _
      (insert_document-Ensures fresh tenant_id ref db _ (λ x a f t h doc g. g)
        (λ a f. append-Keeps db.documents _))
      e

submit-Keeps :
    (now fd fj : ℕ) (s : Submission) (db : Db) {r : ℕ × Bool} {db' : Db}
    → submit now fd fj s db ≡ ok (r, db')
    → Keeps db.documents db'.documents
unfolding log_event
submit-Keeps now fd fj s db e =
    Ensures-ok (λ r. Keeps db.documents r.1.documents) _
      (submit-Ensures now fd fj s db (λ r. Keeps db.documents r.1.documents)
        (λ d docs i a k f. insert_document-Keeps fd s.tenant_id s.document db i)
        (λ d docs j i k t. insert_document-Keeps fd s.tenant_id s.document db i))
      e

same-Keeps : {xs ys : List Document} → ys ≡ xs → Keeps xs ys
same-Keeps e t h doc f = rw e f

-- No transaction changes or removes a document.
pub Step-Keeps : {db db' : Db} → Step db db' → Keeps db.documents db'.documents
Step-Keeps (submit_step now fd fj s {db} r e) = submit-Keeps now fd fj s db e
Step-Keeps (lease_step locked now owner secs db) = same-Keeps (unfold lease_next in ground arith)
Step-Keeps (heartbeat_step now job_id owner stage secs db) =
    same-Keeps (unfold heartbeat in ground arith)
Step-Keeps (finish_step now job_id owner result error_code retryable {db} e) =
    same-Keeps (unfold finish in ground arith)
Step-Keeps (cancel_step now tenant_id job_id db) =
    same-Keeps (unfold request_cancel in ground arith)
Step-Keeps (claim_step locked now owner limit db) = same-Keeps (unfold claim_outbox in refl)
Step-Keeps (acknowledge_step now owner outbox_id db) =
    same-Keeps (unfold acknowledge_outbox in refl)
Step-Keeps (tenant_step fresh slug {db} r e) = same-Keeps (unfold ensure_tenant in ground arith)
Step-Keeps (key_step sha256 secret tenant_id label {db} token e) =
    same-Keeps (unfold issue_api_key in ground arith)
Step-Keeps (authenticate_step sha256 now token db) =
    same-Keeps (unfold authenticate in ground arith)
