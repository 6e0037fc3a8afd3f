-- ===== src/Platform/Stored.antt =====
-- The primary key of the document table of src/dsvire/platform_db.py, and what is stored there.
use tokito_dsvire.Prelude.{
  ℕ, true, false, not, Option, none, some, List, [], ◌∷◌, ◌++◌, ◌≡◌, ◌≢◌, refl, arith, ◌==◌, ==-ne,
  is_some, find, find-none, All, map, Distinct, Distinct-snoc, inl, inr, ◌⊎◌, ok, Ensures,
  Ensures-ok, Ensures-guard,
}
use mathlib.Core.List.{map-append}
use tokito_dsvire.Platform.Tables.{
  ObjectRef, Document, Db, unique_violation, foreign_key_violation, check_violation,
}
use tokito_dsvire.Platform.Queue.{log_event, lease_next, heartbeat, finish}
use tokito_dsvire.Platform.Submit.{
  document_allowed, same_document, store_document, insert_document, request_cancel,
}
use tokito_dsvire.Platform.Delivery.{claim_outbox, acknowledge_outbox}
use tokito_dsvire.Platform.Access.{ensure_tenant, issue_api_key, authenticate}
use tokito_dsvire.Platform.Submission.{submit-Ensures, with_documents}
use tokito_dsvire.Platform.Documents.{row}
use tokito_dsvire.Platform.Steps.{
  Step, submit_step, lease_step, heartbeat_step, finish_step, cancel_step, claim_step,
  acknowledge_step, tenant_step, key_step, authenticate_step, Reach, here, next,
}

abbrev pub document_id_of : Document → ℕ
document_id_of d = d.document_id

-- The primary key of the document table.
abbrev pub DocumentsKeyed : Db → Type 0
DocumentsKeyed db = Distinct (map document_id_of db.documents)

-- No document has the id.
abbrev pub IsFresh : ℕ → Db → Type 0
IsFresh i db = find (λ d. d.document_id == i) db.documents ≡ none

fresh_apart :
    (i : ℕ) (ds : List Document)
    → All (λ d. (d.document_id == i) ≡ false) ds
    → All (λ y. y ≢ i) (map document_id_of ds)
fresh_apart i [] h = tt
fresh_apart i (d ∷ ds) h = (==-ne d.document_id i h.0, fresh_apart i ds h.1)

module _ (fresh tenant_id : ℕ) (ref : ObjectRef) (db : Db) where
  insert_document-DocumentsKeyed :
      {d : ℕ} {db' : Db}
      → insert_document fresh tenant_id ref db ≡ ok (d, db')
      → DocumentsKeyed db
      → DocumentsKeyed db'
  unfolding insert_document
  insert_document-DocumentsKeyed e k =
      Ensures-ok (λ r. DocumentsKeyed r.1) _
        (Ensures-guard (λ r. DocumentsKeyed r.1) (document_allowed ref) check_violation _
          (λ a. store (find (same_document tenant_id ref.sha256) db.documents)))
        e
    where
      vacant : (o : Option Document) → not (is_some o) ≡ true → o ≡ none
      vacant none g = refl
      vacant (some x) g = cc

      store :
          (o : Option Document)
          → Ensures (λ r. DocumentsKeyed r.1) (store_document fresh tenant_id ref o db)
      store (some x) = k
      store none =
          Ensures-guard (λ r. DocumentsKeyed r.1)
            (not (is_some (find (λ d. d.document_id == fresh) db.documents))) unique_violation _
            (λ u.
              Ensures-guard (λ r. DocumentsKeyed r.1)
                (is_some (find (λ t. t.tenant_id == tenant_id) db.tenants)) foreign_key_violation _
                (λ t. rw map-append (
                  Distinct-snoc _ _ k
                    (fresh_apart fresh db.documents (find-none _ _ (vacant _ u))))))

  -- A document that fits is stored: under the id of the row that is there, or under the fresh one.
  pub insert_document-stored :
      document_allowed ref ≡ true
      → IsFresh fresh db
      → is_some (find (λ t. t.tenant_id == tenant_id) db.tenants) ≡ true
      → (d : ℕ) × (docs : List Document) × (insert_document fresh tenant_id ref db
          ≡ ok (d, with_documents db docs))
        × ((d ≡ fresh)
            ⊎ ((x : Document) × (find (same_document tenant_id ref.sha256) db.documents ≡ some x)
                × (d ≡ x.document_id)))
  unfolding insert_document store_document
  insert_document-stored a f t = pick (find (same_document tenant_id ref.sha256) db.documents) refl
    where
      pick :
          (o : Option Document)
          → find (same_document tenant_id ref.sha256) db.documents ≡ o
          → (d : ℕ) × (docs : List Document) × (insert_document fresh tenant_id ref db
              ≡ ok (d, with_documents db docs))
            × ((d ≡ fresh)
                ⊎ ((x : Document) × (find (same_document tenant_id ref.sha256) db.documents
                      ≡ some x)
                    × (d ≡ x.document_id)))
      pick (some x) e = (x.document_id, db.documents, rw (a, e) refl, inr (x, e, refl))
      pick none e =
          (fresh, db.documents ++ row fresh tenant_id ref ∷ [], rw (a, e, f, t) refl, inl refl)

same-DocumentsKeyed :
    {xs ys : List Document}
    → ys ≡ xs
    → Distinct (map document_id_of xs)
    → Distinct (map document_id_of ys)
same-DocumentsKeyed e k = rw e k

pub Step-DocumentsKeyed : {db db' : Db} → Step db db' → DocumentsKeyed db → DocumentsKeyed db'
Step-DocumentsKeyed (submit_step now fd fj s {db} r e) = λ k.
    Ensures-ok (λ r. DocumentsKeyed r.1) _
      (submit-Ensures now fd fj s db (λ r. DocumentsKeyed r.1)
        (λ d docs i a n f.
          unfold log_event in insert_document-DocumentsKeyed fd s.tenant_id s.document db i k)
        (λ d docs j i n t. insert_document-DocumentsKeyed fd s.tenant_id s.document db i k))
      e
Step-DocumentsKeyed (lease_step locked now owner secs db) =
    same-DocumentsKeyed (unfold lease_next in ground arith)
Step-DocumentsKeyed (heartbeat_step now job_id owner stage secs db) =
    same-DocumentsKeyed (unfold heartbeat in ground arith)
Step-DocumentsKeyed (finish_step now job_id owner result error_code retryable {db} e) =
    same-DocumentsKeyed (unfold finish in ground arith)
Step-DocumentsKeyed (cancel_step now tenant_id job_id db) =
    same-DocumentsKeyed (unfold request_cancel in ground arith)
Step-DocumentsKeyed (claim_step locked now owner limit db) =
    same-DocumentsKeyed (unfold claim_outbox in refl)
Step-DocumentsKeyed (acknowledge_step now owner outbox_id db) =
    same-DocumentsKeyed (unfold acknowledge_outbox in refl)
Step-DocumentsKeyed (tenant_step fresh slug {db} r e) =
    same-DocumentsKeyed (unfold ensure_tenant in ground arith)
Step-DocumentsKeyed (key_step sha256 secret tenant_id label {db} token e) =
    same-DocumentsKeyed (unfold issue_api_key in ground arith)
Step-DocumentsKeyed (authenticate_step sha256 now token db) =
    same-DocumentsKeyed (unfold authenticate in ground arith)

pub Reach-DocumentsKeyed : {db db' : Db} → Reach db db' → DocumentsKeyed db → DocumentsKeyed db'
Reach-DocumentsKeyed here k = k
Reach-DocumentsKeyed (next r s) k = Step-DocumentsKeyed s (Reach-DocumentsKeyed r k)
